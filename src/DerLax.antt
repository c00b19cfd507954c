-- ===== src/DerLax.antt =====
-- bitcointx/core/ecdasig_parse_der_lax.py: the parser of DER signatures that takes what Bitcoin took
-- before strict DER.
--
-- The C library's parser of a compact signature is an argument: what it leaves in the buffer for 64
-- bytes, and whether it accepts them.
pub mod Bounds
pub mod Strict
use Prim.Native.Nat.{bit_and}
use python_bitcointx.Prelude.{
  ℕ, zero, suc, ◌+◌, ◌-◌, ◌*◌, Bool, true, false, not, ◌&&◌, ◌||◌, Option, none, some, List, [],
  ◌∷◌, ◌++◌, length, take, drop, Bytes, replicate, ltb, leb, ◌==◌, if◌then◌else◌,
}
use python_bitcointx.Result.{Error, index_error}

-- How a part of the parser ends: it raises, the parser returns None, or it goes on.
pub data Step (A : Type 0) : Type 0 where
  raises : Error → Step A
  returns_none : Step A
  goes_on : A → Step A

infixl 5 ◌>>=◌
abbrev pub ◌>>=◌ : {A B : Type 0} → Step A → (A → Step B) → Step B
raises e >>= next = raises e
returns_none >>= next = returns_none
goes_on a >>= next = next a

-- `laxinput[pos]`
unfoldable pub at : Bytes → ℕ → Step ℕ
at [] pos = raises index_error
at (b ∷ bs) zero = goes_on b
at (b ∷ bs) (suc pos) = at bs pos

-- A tag byte: `if pos == inputlen or laxinput[pos] != tag: return None` and `pos += 1`
unfoldable pub read_tag : Bytes → (tag pos : ℕ) → Step ℕ
read_tag input tag pos =
    if pos == length input
    then returns_none
    else (do b ← at input pos; if b == tag then goes_on (pos + 1) else returns_none)

-- A length byte: `if pos == inputlen: return None`, `lenbyte = laxinput[pos]` and `pos += 1`
unfoldable pub read_lenbyte : Bytes → ℕ → Step (ℕ × ℕ)
read_lenbyte input pos =
    if pos == length input
    then returns_none
    else (do lenbyte ← at input pos; goes_on (lenbyte, pos + 1))

-- `lenbyte & 0x80`
unfoldable pub is_long : ℕ → Bool
is_long lenbyte = not (bit_and lenbyte 0x80 == 0)

-- The length of the sequence is skipped.
unfoldable pub skip_sequence_length : Bytes → ℕ → Step ℕ
skip_sequence_length input pos = do
  (lenbyte, p) ← read_lenbyte input pos
  if is_long lenbyte
      then (if ltb (length input) (p + (lenbyte - 0x80))
          then returns_none
          else goes_on (p + (lenbyte - 0x80)))
      else goes_on p

-- `while n > 0 and laxinput[pos] == 0: pos += 1; n -= 1`, with the new `n` and `pos`
unfoldable pub skip_zeros : Bytes → (n pos : ℕ) → Step (ℕ × ℕ)
skip_zeros input zero pos = goes_on (0, pos)
skip_zeros input (suc n) pos = do
  b ← at input pos
  let rest = skip_zeros input n (pos + 1)
  if b == 0 then rest else goes_on (suc n, pos)

-- `while lenbyte > 0: rlen = (rlen << 8) + laxinput[pos]; pos += 1; lenbyte -= 1`
unfoldable pub read_big_endian : Bytes → (lenbyte pos rlen : ℕ) → Step (ℕ × ℕ)
read_big_endian input zero pos rlen = goes_on (rlen, pos)
read_big_endian input (suc n) pos rlen = do
  b ← at input pos
  read_big_endian input n (pos + 1) (rlen * 256 + b)

-- The length of an integer, from its length byte on: the length and the position behind it.
unfoldable pub read_long_length : Bytes → (lenbyte pos : ℕ) → Step (ℕ × ℕ)
read_long_length input lenbyte pos =
    if ltb (length input) (pos + lenbyte) then returns_none else (do
      (n, p) ← skip_zeros input lenbyte pos
      if leb 4 n then returns_none else read_big_endian input n p 0)

unfoldable pub read_length : Bytes → ℕ → Step (ℕ × ℕ)
read_length input pos = do
  (lenbyte, p) ← read_lenbyte input pos
  (len, q) ←
      (if is_long lenbyte then read_long_length input (lenbyte - 0x80) p else goes_on (lenbyte, p))
  if ltb (length input) (q + len) then returns_none else goes_on (len, q)

-- Where the two integers stand: `rpos`, `rlen`, `spos` and `slen`.
pub record Parts : Type 0 where
  pub rpos : ℕ
  pub rlen : ℕ
  pub spos : ℕ
  pub slen : ℕ

unfoldable pub read_parts : Bytes → Step Parts
read_parts input = do
  p1 ← read_tag input 0x30 0
  p2 ← skip_sequence_length input p1
  p3 ← read_tag input 0x02 p2
  (rlen, rpos) ← read_length input p3
  p4 ← read_tag input 0x02 (rpos + rlen)
  (slen, spos) ← read_length input p4
  goes_on (record { rpos = rpos; rlen = rlen; spos = spos; slen = slen })

-- An integer without its leading zeros, in 32 bytes: `tmpsig[32-rlen:32] = laxinput[rpos:rpos+rlen]`.
-- A longer one sets `overflow` and leaves the zeros.
unfoldable pub copy_value : Bytes → (len pos : ℕ) → Step (Bool × Bytes)
copy_value input len pos = do
  (n, p) ← skip_zeros input len pos
  goes_on (
      if ltb 32 n
      then (true, replicate 32 0)
      else (false, replicate (32 - n) 0 ++ take n (drop p input)))

abbrev pub zeros : Bytes
zeros = replicate 64 0

-- ecdsa_signature_parse_der_lax
unfoldable pub parse_der_lax : (Bytes → Bytes × Bool) → Bytes → Step Bytes
parse_der_lax parse_compact input = do
  parts ← read_parts input
  (r_overflow, r) ← copy_value input parts.rlen parts.rpos
  (s_overflow, s) ← copy_value input parts.slen parts.spos
  let (sig, accepted) = parse_compact (r ++ s)
  if not (r_overflow || s_overflow) && accepted
      then goes_on sig
      else goes_on (parse_compact zeros).0
