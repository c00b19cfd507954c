-- ===== src/Eval/Signature.antt =====
-- bitcointx/core/scripteval.py: `_CheckSig` and the tests of encodings, and script.py: the test of a
-- low S value.
use Prim.Native.Nat.{bit_and}
use python_bitcointx.Prelude.{
  ℕ, ◌+◌, ◌-◌, Bool, false, not, ◌&&◌, ◌||◌, [], ◌∷◌, length, take, drop, get_or, Bytes, leb, ltb,
  ◌==◌, if◌then◌else◌,
}
use python_bitcointx.Prelude.Int.{ℤ, pos, negsuc, sub_ℕ, ltb_ℤ, leb_ℤ}
use python_bitcointx.Result.{
  Result, ok, ◌>>=◌, ◌>>◌, guard, verify_script_error, bad_der, unknown_hashtype,
  unknown_pubkey_type, pubkey_not_compressed, high_s,
}
use python_bitcointx.Eval.{
  Flags, verify_dersig, verify_low_s, verify_strictenc, verify_witness_pubkeytype, Context, is_base,
}

-- The high bit of a byte is clear.
abbrev pub is_positive_byte : ℕ → Bool
is_positive_byte b = bit_and b 0x80 == 0

-- An integer of `len` bytes whose first byte stands at `i`: not empty, not negative and without a
-- zero byte in front that it does not need.
unfoldable pub is_der_integer : Bytes → ℕ → ℕ → Bool
is_der_integer sig len i =
    not (len == 0)
    && is_positive_byte (get_or sig i 0)
    && not (ltb 1 len && get_or sig i 0 == 0 && is_positive_byte (get_or sig (i + 1) 0))

-- _IsValidSignatureEncoding, for R of `len_r` and S of `len_s` bytes
unfoldable pub is_valid_parts : Bytes → ℕ → ℕ → Bool
is_valid_parts sig len_r len_s =
    len_r + len_s + 7 == length sig
    && get_or sig 2 0 == 0x02
    && is_der_integer sig len_r 4
    && get_or sig (len_r + 4) 0 == 0x02
    && is_der_integer sig len_s (len_r + 6)

unfoldable pub is_valid_signature_encoding : Bytes → Bool
is_valid_signature_encoding sig =
    not (ltb (length sig) 9)
    && not (ltb 73 (length sig))
    && get_or sig 0 0 == 0x30
    && get_or sig 1 0 == length sig - 3
    && not (leb (length sig) (5 + get_or sig 3 0))
    && is_valid_parts sig (get_or sig 3 0) (get_or sig (5 + get_or sig 3 0) 0)

unfoldable pub is_compressed_or_uncompressed_pub_key : Bytes → Bool
is_compressed_or_uncompressed_pub_key pubkey =
    if ltb (length pubkey) 33
    then false
    else if get_or pubkey 0 0 == 0x04
    then length pubkey == 65
    else if get_or pubkey 0 0 == 0x02 || get_or pubkey 0 0 == 0x03
    then length pubkey == 33
    else false

unfoldable pub is_compressed_pub_key : Bytes → Bool
is_compressed_pub_key pubkey =
    length pubkey == 33 && (get_or pubkey 0 0 == 0x02 || get_or pubkey 0 0 == 0x03)

-- CompareBigEndian: the bytes that the longer string has in front, then the bytes in step.
unfoldable pub any_positive : Bytes → Bool
any_positive [] = false
any_positive (b ∷ bs) = ltb 0 b || any_positive bs

unfoldable pub compare_same_length : Bytes → Bytes → ℤ
compare_same_length [] d = pos 0
compare_same_length (b ∷ c) [] = pos 0
compare_same_length (b ∷ c) (e ∷ d) = if b == e then compare_same_length c d else sub_ℕ b e

unfoldable pub compare_big_endian : Bytes → Bytes → ℤ
compare_big_endian c1 c2 =
    if any_positive (take (length c1 - length c2) c1)
    then pos 1
    else if any_positive (take (length c2 - length c1) c2)
    then negsuc 0
    else compare_same_length (drop (length c1 - length c2) c1) (drop (length c2 - length c1) c2)

abbrev pub max_mod_half_order : Bytes
max_mod_half_order =
    0x7f ∷ 0xff ∷ 0xff ∷ 0xff ∷ 0xff ∷ 0xff ∷ 0xff ∷ 0xff ∷ 0xff ∷ 0xff ∷ 0xff ∷ 0xff ∷ 0xff ∷ 0xff
    ∷ 0xff ∷ 0xff ∷ 0x5d ∷ 0x57 ∷ 0x6e ∷ 0x73 ∷ 0x57 ∷ 0xa4 ∷ 0x50 ∷ 0x1d ∷ 0xdf ∷ 0xe9 ∷ 0x2f
    ∷ 0x46 ∷ 0x68 ∷ 0x1b ∷ 0x20 ∷ 0xa0 ∷ []

-- IsLowDERSignature, on a signature whose encoding is valid
unfoldable pub is_low_der_signature : Bytes → Bool
is_low_der_signature sig =
    let length_r : ℕ = get_or sig 3 0 in
    let length_s : ℕ = get_or sig (5 + length_r) 0 in
    let s_val : Bytes = take length_s (drop (6 + length_r) sig) in
    ltb_ℤ (pos 0) (compare_big_endian s_val (0 ∷ []))
    && leb_ℤ (compare_big_endian s_val max_mod_half_order) (pos 0)

-- flags & _STRICT_ENCODING_FLAGS
abbrev pub strict_encoding : Flags → Bool
strict_encoding flags = flags verify_dersig || flags verify_low_s || flags verify_strictenc

-- `hashtype & ~SIGHASH_ANYONECANPAY`, which keeps the low seven bits of a byte
abbrev pub is_known_hashtype : ℕ → Bool
is_known_hashtype hashtype = leb 1 (bit_and hashtype 0x7f) && leb (bit_and hashtype 0x7f) 3

-- The checks that `_CheckSig` makes of the encodings.
unfoldable pub check_encodings : Context → (sig pubkey : Bytes) (hashtype : ℕ) → Result (Unit {0})
check_encodings ctx sig pubkey hashtype = do
  guard (not (strict_encoding ctx.flags) || is_valid_signature_encoding sig)
      (verify_script_error bad_der)
  guard (not (ctx.flags verify_strictenc) || is_known_hashtype hashtype)
      (verify_script_error unknown_hashtype)
  guard (not (ctx.flags verify_strictenc) || is_compressed_or_uncompressed_pub_key pubkey)
      (verify_script_error unknown_pubkey_type)
  guard
      (not (ctx.flags verify_witness_pubkeytype && not (is_base ctx.sigversion))
        || is_compressed_pub_key pubkey)
      (verify_script_error pubkey_not_compressed)
  guard (not (ctx.flags verify_low_s) || is_low_der_signature sig) (verify_script_error high_s)

-- _CheckSig
unfoldable pub check_sig : Context → (sig pubkey script : Bytes) → Result Bool
check_sig ctx sig pubkey script = if length sig == 0 then ok false else (do
  let hashtype = get_or sig (length sig - 1) 0
  check_encodings ctx sig pubkey hashtype
  h ← ctx.crypto.raw_sighash script hashtype ctx.amount ctx.sigversion
  ok (
      if strict_encoding ctx.flags
      then ctx.crypto.verify pubkey h (take (length sig - 1) sig)
      else ctx.crypto.verify_nonstrict pubkey h (take (length sig - 1) sig)))
