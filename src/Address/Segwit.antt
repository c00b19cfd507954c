-- ===== src/Address/Segwit.antt =====
-- bitcointx/segwit_addr.py.
--
-- Shifts and masks of low digits are written as products, quotients and remainders; the exclusive or
-- is the native one. A value that Python gives as None is `none`.
pub mod Checksum
pub mod Bits
pub mod Groups
pub mod RoundTrip
use Prim.Native.Nat.{bit_xor}
use python_bitcointx.Prelude.{
  ℕ, zero, suc, ◌+◌, ◌-◌, ◌*◌, ◌/◌, ◌%◌, ◌^◌, Bool, true, false, not, ◌&&◌, ◌||◌, Option, none,
  some, List, [], ◌∷◌, ◌++◌, map, length, take, drop, get_or, Bytes, replicate, bytes_eq, ltb, leb,
  ◌==◌, if◌then◌else◌,
}
use python_bitcointx.Result.{
  Result, ok, err, bech32_error, unexpected_bech32_length_or_version, assertion_error,
}
use python_bitcointx.Address.{Text}
use python_bitcointx.Address.Base58.{index_of}

abbrev pub charset : Text
charset =
    b'q' ∷ b'p' ∷ b'z' ∷ b'r' ∷ b'y' ∷ b'9' ∷ b'x' ∷ b'8' ∷ b'g' ∷ b'f' ∷ b'2' ∷ b't' ∷ b'v' ∷ b'd'
    ∷ b'w' ∷ b'0' ∷ b's' ∷ b'3' ∷ b'j' ∷ b'n' ∷ b'5' ∷ b'4' ∷ b'k' ∷ b'h' ∷ b'c' ∷ b'e' ∷ b'6'
    ∷ b'm' ∷ b'u' ∷ b'a' ∷ b'7' ∷ b'l' ∷ []

pub data Encoding : Type 0 where
  bech32 bech32m : Encoding

-- BECH32_CONST and BECH32M_CONST
unfoldable pub const_of : Encoding → ℕ
const_of bech32 = 1
const_of bech32m = 0x2bc830a3

-- `for i in range(5): chk ^= generator[i] if ((top >> i) & 1) else 0`
unfoldable pub add_generators : List ℕ → (top chk : ℕ) → ℕ
add_generators [] top chk = chk
add_generators (g ∷ gs) top chk =
    add_generators gs (top / 2) (bit_xor chk (if top % 2 == 1 then g else 0))

abbrev pub generator : List ℕ
generator = 0x3b6a57b2 ∷ 0x26508e6d ∷ 0x1ea119fa ∷ 0x3d4233dd ∷ 0x2a1462b3 ∷ []

-- A round of bech32_polymod, and its loop.
unfoldable pub polymod_round : (chk value : ℕ) → ℕ
polymod_round chk value =
    add_generators generator (chk / 2 ^ 25) (bit_xor (chk % 2 ^ 25 * 32) value)

unfoldable pub polymod_from : ℕ → List ℕ → ℕ
polymod_from chk [] = chk
polymod_from chk (v ∷ vs) = polymod_from (polymod_round chk v) vs

unfoldable pub bech32_polymod : List ℕ → ℕ
bech32_polymod values = polymod_from 1 values

unfoldable pub bech32_hrp_expand : Text → List ℕ
bech32_hrp_expand hrp = map (λ (x : ℕ). x / 32) hrp ++ (0 ∷ map (λ (x : ℕ). x % 32) hrp)

-- `Encoding.BECH32` where the checksum is BECH32_CONST, and so on.
unfoldable pub encoding_of : ℕ → Option Encoding
encoding_of check =
    if check == const_of bech32
    then some bech32
    else if check == const_of bech32m
    then some bech32m
    else none

unfoldable pub bech32_verify_checksum : Text → List ℕ → Option Encoding
bech32_verify_checksum hrp values = encoding_of (bech32_polymod (bech32_hrp_expand hrp ++ values))

-- `[(polymod >> 5 * (5 - i)) & 31 for i in range(6)]`
unfoldable pub six_digits : ℕ → List ℕ
six_digits polymod =
    (polymod / 2 ^ 25 % 32)
    ∷ (polymod / 2 ^ 20 % 32)
    ∷ (polymod / 2 ^ 15 % 32)
    ∷ (polymod / 2 ^ 10 % 32)
    ∷ (polymod / 2 ^ 5 % 32)
    ∷ (polymod % 32)
    ∷ []

unfoldable pub bech32_create_checksum : Encoding → Text → List ℕ → List ℕ
bech32_create_checksum encoding hrp values = six_digits (
    bit_xor (bech32_polymod ((bech32_hrp_expand hrp ++ values) ++ replicate 6 0))
      (const_of encoding))

unfoldable pub bech32_encode : Encoding → Text → List ℕ → Text
bech32_encode encoding hrp values =
    hrp
    ++ (b'1'
        ∷ map (λ (d : ℕ). get_or charset d 0)
            (values ++ bech32_create_checksum encoding hrp values))

-- The tests of `bech32_decode` on its characters; `lower` and `upper` are called on ASCII only.
unfoldable pub is_printable : Text → Bool
is_printable [] = true
is_printable (x ∷ xs) = leb 33 x && leb x 126 && is_printable xs

unfoldable pub lower : ℕ → ℕ
lower x = if leb b'A' x && leb x b'Z' then x + 32 else x

unfoldable pub upper : ℕ → ℕ
upper x = if leb b'a' x && leb x b'z' then x - 32 else x

-- `bech.rfind('1')`
unfoldable pub rfind : ℕ → Text → Option ℕ
rfind c [] = none
rfind c (x ∷ xs) = elim (rfind c xs) [
  | some i ↦ some (suc i)
  | none ↦ if x == c then some 0 else none
]

-- `[CHARSET.find(x) for x in ...]`, where all the characters are in CHARSET
unfoldable pub find_all : Text → Option (List ℕ)
find_all [] = some []
find_all (x ∷ xs) = elim (find_all xs) [
  | none ↦ none
  | some ds ↦ elim (index_of charset x) [ none ↦ none | some d ↦ some (d ∷ ds) ]
]

-- What `bech32_decode` does with a string in lower case whose last `1` is at `pos`.
unfoldable pub decode_at : Text → ℕ → Option (Encoding × Text × List ℕ)
decode_at bech pos =
    if ltb pos 1 || ltb (length bech) (pos + 7) || ltb 90 (length bech)
    then none
    else elim (find_all (drop (pos + 1) bech)) [
      | none ↦ none
      | some values ↦ elim (bech32_verify_checksum (take pos bech) values) [
        | none ↦ none
        | some encoding ↦ some (encoding, take pos bech, take (length values - 6) values)
      ]
    ]

unfoldable pub bech32_decode : Text → Option (Encoding × Text × List ℕ)
bech32_decode bech =
    if not (is_printable bech)
      || (not (bytes_eq (map lower bech) bech) && not (bytes_eq (map upper bech) bech))
    then none
    else elim (rfind b'1' (map lower bech)) [
      | none ↦ none
      | some pos ↦ decode_at (map lower bech) pos
    ]

-- The inner loop of `convertbits`, `while bits >= tobits`: what it appends, and the bits left.
-- Each round takes `tobits` bits, at least one.
unfoldable pub emit : (fuel tobits acc bits : ℕ) → List ℕ × ℕ
emit zero tobits acc bits = ([], bits)
emit (suc fuel) tobits acc bits =
    let rest = emit fuel tobits acc (bits - tobits) in
    if ltb bits tobits
    then ([], bits)
    else ((acc / 2 ^ (bits - tobits) % 2 ^ tobits) ∷ rest.0, rest.1)

-- The end of `convertbits`: the last group if there is padding, or a test of the bits left.
unfoldable pub finish : (frombits tobits : ℕ) → Bool → (acc bits : ℕ) → Option (List ℕ)
finish frombits tobits pad acc bits =
    if pad
    then some (if bits == 0 then [] else (acc * 2 ^ (tobits - bits) % 2 ^ tobits) ∷ [])
    else if leb frombits bits || not (acc * 2 ^ (tobits - bits) % 2 ^ tobits == 0)
    then none
    else some []

-- What a round appends, in front of what the others append.
unfoldable pub append_to : List ℕ → Option (List ℕ) → Option (List ℕ)
append_to out none = none
append_to out (some ret) = some (out ++ ret)

-- `convertbits`, from a state of its loop on
unfoldable pub convert_from :
    (frombits tobits : ℕ) → Bool → (acc bits : ℕ) → List ℕ → Option (List ℕ)
convert_from frombits tobits pad acc bits [] = finish frombits tobits pad acc bits
convert_from frombits tobits pad acc bits (value ∷ values) =
    let acc' = (acc * 2 ^ frombits + value) % 2 ^ (frombits + tobits - 1) in
    let (out, left) = emit (bits + frombits) tobits acc' (bits + frombits) in
    let rest = append_to out (convert_from frombits tobits pad acc' left values) in
    if not (value / 2 ^ frombits == 0) then none else rest

unfoldable pub convertbits : List ℕ → (frombits tobits : ℕ) → Bool → Option (List ℕ)
convertbits values frombits tobits pad = convert_from frombits tobits pad 0 0 values

-- The tests of `decode` on a version and a program.
unfoldable pub fits_encoding : ℕ → Encoding → Bool
fits_encoding witver bech32 = witver == 0
fits_encoding witver bech32m = not (witver == 0)

unfoldable pub is_program : ℕ → Bytes → Encoding → Bool
is_program witver decoded encoding =
    not (ltb (length decoded) 2 || ltb 40 (length decoded))
    && not (ltb 16 witver)
    && not (witver == 0 && not (length decoded == 20) && not (length decoded == 32))
    && fits_encoding witver encoding

-- `decode`, on what `bech32_decode` gives: the program, where the bits of the data are bytes.
unfoldable pub decode_program : Encoding → ℕ → Option Bytes → Option (ℕ × Bytes)
decode_program encoding witver none = none
decode_program encoding witver (some decoded) =
    if is_program witver decoded encoding then some (witver, decoded) else none

unfoldable pub decode_values : Encoding → List ℕ → Option (ℕ × Bytes)
decode_values encoding [] = none
decode_values encoding (witver ∷ values) =
    decode_program encoding witver (convertbits values 5 8 false)

unfoldable pub decode_bech32 : Text → Option (Encoding × Text × List ℕ) → Option (ℕ × Bytes)
decode_bech32 hrp none = none
decode_bech32 hrp (some (encoding, hrpgot, values)) =
    if bytes_eq hrpgot hrp then decode_values encoding values else none

unfoldable pub decode : Text → Text → Option (ℕ × Bytes)
decode hrp addr = decode_bech32 hrp (bech32_decode addr)

-- `if decode(hrp, ret) == (None, None): return None`
unfoldable pub if_decoded : Text → Option (ℕ × Bytes) → Option Text
if_decoded ret none = none
if_decoded ret (some got) = some ret

unfoldable pub encode_groups : Text → (witver : ℕ) → Option (List ℕ) → Option Text
encode_groups hrp witver none = none
encode_groups hrp witver (some decoded) =
    let ret = bech32_encode (if witver == 0 then bech32 else bech32m) hrp (witver ∷ decoded) in
    if_decoded ret (decode hrp ret)

unfoldable pub encode : Text → (witver : ℕ) → Bytes → Option Text
encode hrp witver witprog = encode_groups hrp witver (convertbits witprog 8 5 true)
