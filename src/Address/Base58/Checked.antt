-- ===== src/Address/Base58/Checked.antt =====
-- Base58 data with a prefix and a checksum.
use python_bitcointx.Prelude.{
  ◌-◌, ◌≤◌, ◌≡◌, sym, List, ◌∷◌, ◌++◌, append_assoc, arith, length, Bytes, AreBytes, IsByte, take,
  le→ltb_false, take-append, drop-append, length-append, length-take, bytes_eq_refl, All-append,
  All-take,
}
use python_bitcointx.Result.{ok}
use python_bitcointx.Address.Base58.{
  max_base58_string_length, to_string, starts_with, match_prefix, from_bytes_match_prefix,
  from_string,
}
use python_bitcointx.Address.Base58.RoundTrip.{decode-encode}

-- The text of an instance is read back to its class and its data, where the class is the first
-- candidate, the double hash gives at least four bytes, and the text has at most 128 characters.
pub from_string-to_string :
    (hash : Bytes → Bytes) (prefix self : Bytes) (prefixes : List Bytes)
    → AreBytes prefix
    → AreBytes self
    → AreBytes (hash (prefix ++ self))
    → 4 ≤ length (hash (prefix ++ self))
    → length (to_string hash prefix self) ≤ max_base58_string_length
    → from_string hash (prefix ∷ prefixes) (to_string hash prefix self) ≡ ok (prefix, self)
unfolding from_string to_string from_bytes_match_prefix match_prefix starts_with
from_string-to_string hash prefix self prefixes hp hs hh enough short =
    let payload : Bytes = prefix ++ self in
    let check : Bytes = take 4 (hash payload) in
    let four : length check ≡ 4 = omega (arith, enough, length-take 4 (hash payload)) in
    let whole : prefix ++ (self ++ check) ≡ payload ++ check =
      sym (append_assoc prefix self check) in
    let bytes : AreBytes (prefix ++ (self ++ check)) =
      All-append IsByte prefix (self ++ check) hp
        (All-append IsByte self check hs (All-take IsByte 4 (hash payload) hh)) in
    let len : length (payload ++ check) - 4 ≡ length payload =
      omega (arith, four, length-append payload check) in
    let long : 4 ≤ length (payload ++ check) = omega (arith, four, length-append payload check) in
    rw (
      decode-encode (prefix ++ (self ++ check)) bytes short,
      whole,
      len,
      le→ltb_false (length (payload ++ check)) 4 long,
      drop-append payload check,
      take-append payload check,
      bytes_eq_refl check,
      take-append prefix self,
      bytes_eq_refl prefix,
      drop-append prefix self,
    )
