-- ===== src/Psbt/Derivation/RoundTrip.antt =====
-- PSBT_KeyDerivationInfo: a fingerprint and a path that are written are read back.
use python_bitcointx.Prelude.{
  ℕ, zero, suc, ◌≤◌, ◌<◌, ◌≡◌, ◌^◌, refl, false, List, [], ◌∷◌, ◌++◌, length, Bytes, All, arith,
  le→leb, lt→ltb,
}
use python_bitcointx.Result.{ok}
use python_bitcointx.Struct.{pack, le_bytes, from_le, from_le-le_bytes}
use python_bitcointx.Serialize.{serialize_all, deserialize, ser_read}
use python_bitcointx.Serialize.VarInt.{ser_read-append}
use python_bitcointx.Bip32.{make_path, read_argument, check_marker, or_else}
use python_bitcointx.Bip32.RoundTrip.{checked_indexes}
use python_bitcointx.Psbt.Derivation.{
  KeyDerivationInfo, make_derivation_info, read_indexes, deserialize_info, serialize_info,
}

abbrev pub IsIndex : ℕ → Type 0
IsIndex n = n < 2 ^ 32

-- A full path with the marker that a path gets when none is given.
pub record IsInfo (info : KeyDerivationInfo) : Type 0 where
  pub fingerprint : length info.master_fp ≡ 4
  pub full : info.path.is_partial ≡ false
  pub marked : info.path.hardened_marker ≡ 0x27
  pub sized : length info.path.indexes ≤ 255
  pub bounded : All IsIndex info.path.indexes

read_indexes-written :
    (is : List ℕ) (left : ℕ)
    → All IsIndex is
    → length is ≤ left
    → (s : Bytes) × (serialize_all (pack 4) is ≡ ok s) × (read_indexes left s ≡ ok is)
unfolding serialize_all pack read_indexes le_bytes
read_indexes-written [] zero bounded few = ([], refl, refl)
read_indexes-written [] (suc left) bounded few = ([], refl, refl)
read_indexes-written (i ∷ is) zero bounded few = ground (arith, few)
read_indexes-written (i ∷ is) (suc left) bounded few =
    let (s, w, r) = read_indexes-written is left bounded.1 (omega (arith, few)) in
    let back : from_le (le_bytes 4 i) ≡ i = from_le-le_bytes 4 i (omega (arith, bounded.0)) in
    (le_bytes 4 i ++ s, rw (lt→ltb i (256 ^ 4) (omega (arith, bounded.0)), w), rw (r, back))

-- A valid derivation info is written, and what is written of it is read back.
pub info_round_trip :
    (info : KeyDerivationInfo)
    → IsInfo info
    → (s : Bytes) × (serialize_info info ≡ ok s) × (deserialize deserialize_info s false ≡ ok info)
unfolding serialize_info deserialize deserialize_info make_path read_argument check_marker or_else
    make_derivation_info
info_round_trip info valid =
    let (s, w, r) = read_indexes-written info.path.indexes 255 valid.bounded valid.sized in
    let read : ser_read 4 (info.master_fp ++ s) ≡ ok (info.master_fp, s) =
      rw valid.fingerprint at
        (ser_read-append info.master_fp s (omega (arith, valid.fingerprint))) in
    (
      info.master_fp ++ s,
      rw w,
      rw
          (
            read,
            r,
            le→leb (length info.path.indexes) 255 valid.sized,
            checked_indexes info.path.indexes valid.bounded,
            valid.fingerprint,
          )
          (rw (← valid.marked, ← valid.full) refl),
    )
