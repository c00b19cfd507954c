-- ===== src/Psbt/Output/Written.antt =====
-- The entries that stream_serialize of PSBT_Output writes, and what reading each group of them does.
use python_bitcointx.Prelude.{
  ℕ, ◌<◌, ◌≡◌, ◌≢◌, ◌^◌, refl, inl, inr, Bool, true, false, List, [], ◌∷◌, ◌++◌, map, append_assoc,
  append-nil, length, Bytes, All, arith, lt→ltb,
}
use python_bitcointx.Result.{Result, ok, >>=-eq-ok, Result-cases}
use python_bitcointx.Struct.{pack, le_bytes}
use python_bitcointx.Prelude.Int.{pos}
use python_bitcointx.Serialize.{
  Writer, serialize_varint, serialize_all, deserialize, serialize_bytes,
}
use python_bitcointx.Serialize.VarInt.{compact_size, serialize_varint-eq}
use python_bitcointx.Serialize.Vectors.{IsShort}
use python_bitcointx.Psbt.{
  ProprietaryData, UnknownData, ProprietaryFields, psbt_proprietary_type, proprietary_key,
  serialize_proprietary, stream_serialize_field, stream_serialize_proprietary_fields,
  stream_serialize_unknown_fields,
}
use python_bitcointx.Psbt.Derivation.{KeyDerivationInfo, serialize_info, deserialize_info}
use python_bitcointx.Psbt.Derivation.RoundTrip.{IsInfo, info_round_trip}
use python_bitcointx.Psbt.Entries.{Entry, IsEntry, write_entry, serialize_all-returns}
use python_bitcointx.Psbt.Output.{
  OutKeyType, bip32_derivation_type, key_type_value, DerivationMap, serialize_script,
  serialize_derivation,
}

unfoldable pub script_entries : OutKeyType → Bytes → List Entry
script_entries key_type [] = []
script_entries key_type (b ∷ bs) =
    (record { key_type = key_type_value key_type; key_data = []; value = b ∷ bs }) ∷ []

unfoldable pub index_bytes : List ℕ → Bytes
index_bytes [] = []
index_bytes (i ∷ is) = le_bytes 4 i ++ index_bytes is

unfoldable pub derivation_entry : Bytes × KeyDerivationInfo → Entry
derivation_entry (key, info) = record {
  key_type = key_type_value bip32_derivation_type;
  key_data = key;
  value = info.master_fp ++ index_bytes info.path.indexes;
}

unfoldable pub proprietary_entry : Bytes → ProprietaryData → Entry
proprietary_entry prefix d = record {
  key_type = psbt_proprietary_type;
  key_data = compact_size (length prefix) ++ prefix ++ compact_size d.subtype ++ d.key_data;
  value = d.value;
}

unfoldable pub proprietary_entries : ProprietaryFields → List Entry
proprietary_entries [] = []
proprietary_entries ((prefix, fs) ∷ ps) =
    map (proprietary_entry prefix) fs ++ proprietary_entries ps

unfoldable pub unknown_entry : UnknownData → Entry
unknown_entry d = record { key_type = d.key_type; key_data = d.key_data; value = d.value }

abbrev pub IsOk : Result Bytes → Result Bytes → Type 0
IsOk a b = (s : Bytes) × (a ≡ ok s) × (b ≡ ok s)

pub serialize_all-append :
    {A : Type 0} (write : Writer A) (xs ys : List A) {s t : Bytes}
    → serialize_all write xs ≡ ok s
    → serialize_all write ys ≡ ok t
    → serialize_all write (xs ++ ys) ≡ ok (s ++ t)
unfolding serialize_all
serialize_all-append write [] ys {s} {t} h k = let nil : s ≡ [] = cc in rw nil k
serialize_all-append write (x ∷ xs) ys {s} {t} h k =
    let (a, w, h') = >>=-eq-ok (write x) _ h in
    let (b, w', h'') = >>=-eq-ok (serialize_all write xs) _ h' in
    let cut : s ≡ a ++ b = cc in
    rw (w, serialize_all-append write xs ys w' k, cut, append_assoc a b t) refl

pub All-split {ℓ κ} :
    {A : Type ℓ} (P : A → Type κ) (xs ys : List A) → All P (xs ++ ys) → All P xs × All P ys
All-split P [] ys h = (tt, h)
All-split P (x ∷ xs) ys h = let r = All-split P xs ys h.1 in ((h.0, r.0), r.1)

pub script_written :
    (key_type : OutKeyType) (script : Bytes)
    → serialize_script key_type script ≡ serialize_all write_entry (script_entries key_type script)
unfolding serialize_script script_entries serialize_all write_entry
script_written key_type [] = refl
script_written key_type (b ∷ bs) =
    elim (Result-cases (stream_serialize_field (key_type_value key_type) [] (b ∷ bs))) [
      | inl (s, w) ↦ rw (w, append-nil s) refl
      | inr (e, w) ↦ rw w refl
    ]

index_bytes_written :
    (is : List ℕ) {s : Bytes} → serialize_all (pack 4) is ≡ ok s → s ≡ index_bytes is
unfolding serialize_all pack index_bytes
index_bytes_written [] h = cc
index_bytes_written (i ∷ is) {s} h =
    let (a, w, h') = >>=-eq-ok (pack 4 i) _ h in
    let (t, w', h'') = >>=-eq-ok (serialize_all (pack 4) is) _ h' in
    let front : a ≡ le_bytes 4 i = ground arith in
    let cut : s ≡ a ++ t = cc in rw (cut, front, index_bytes_written is w') refl

pub info_written :
    (info : KeyDerivationInfo)
    → IsInfo info
    → (serialize_info info ≡ ok (info.master_fp ++ index_bytes info.path.indexes))
      × (deserialize deserialize_info (info.master_fp ++ index_bytes info.path.indexes) false
          ≡ ok info)
unfolding serialize_info
info_written info valid =
    let (s, w, r) = info_round_trip info valid in
    let (t, w', h) = >>=-eq-ok (serialize_all (pack 4) info.path.indexes) _ w in
    let same : s ≡ info.master_fp ++ index_bytes info.path.indexes =
      rw (← index_bytes_written info.path.indexes w') cc in
    (rw (← same) w, rw (← same) r)

module _ (is_fullyvalid : Bytes → Bool) where
  abbrev pub IsItem : Bytes × KeyDerivationInfo → Type 0
  IsItem p = (is_fullyvalid p.0 ≡ true) × IsInfo p.1

  derivation_written :
      (p : Bytes × KeyDerivationInfo)
      → IsItem p
      → serialize_derivation is_fullyvalid p ≡ write_entry (derivation_entry p)
  unfolding serialize_derivation derivation_entry write_entry
  derivation_written (key, info) (valid, is) = rw (valid, (info_written info is).0) refl

  pub derivations_written :
      (d : DerivationMap)
      → All IsItem d
      → serialize_all (serialize_derivation is_fullyvalid) d
        ≡ serialize_all write_entry (map derivation_entry d)
  unfolding serialize_all
  derivations_written [] h = refl
  derivations_written (p ∷ d) h = rw (derivation_written p h.0, derivations_written d h.1) refl

-- A prefix and a subtype that have an encoding.
abbrev pub IsField : Bytes → ProprietaryData → Type 0
IsField prefix d = IsShort prefix × (d.subtype < 2 ^ 64)

pub varint_written : (v : ℕ) → v < 2 ^ 64 → serialize_varint (pos v) ≡ ok (compact_size v)
varint_written v h = rw serialize_varint-eq (rw (lt→ltb v (2 ^ 64) h))

proprietary_written :
    (prefix : Bytes) (d : ProprietaryData)
    → IsField prefix d
    → serialize_proprietary prefix d ≡ write_entry (proprietary_entry prefix d)
unfolding serialize_proprietary proprietary_key proprietary_entry write_entry serialize_bytes
proprietary_written prefix d (short, small) =
    rw (varint_written (length prefix) (omega (arith, short)), varint_written d.subtype small) refl

group_written :
    (prefix : Bytes) (fs : List ProprietaryData)
    → All (IsField prefix) fs
    → serialize_all (serialize_proprietary prefix) fs
      ≡ serialize_all write_entry (map (proprietary_entry prefix) fs)
unfolding serialize_all
group_written prefix [] h = refl
group_written prefix (f ∷ fs) h =
    rw (proprietary_written prefix f h.0, group_written prefix fs h.1) refl

-- A prefix that is a key has fields.
abbrev pub IsGroup : Bytes × List ProprietaryData → Type 0
IsGroup p = All (IsField p.0) p.1 × (p.1 ≢ [])

pub proprietary_fields_written :
    (ps : ProprietaryFields)
    → All IsGroup ps
    → All IsEntry (proprietary_entries ps)
    → IsOk
        (stream_serialize_proprietary_fields ps)
        (serialize_all write_entry (proprietary_entries ps))
unfolding stream_serialize_proprietary_fields proprietary_entries serialize_all
proprietary_fields_written [] h es = ([], refl, refl)
proprietary_fields_written ((prefix, fs) ∷ ps) h es =
    let (e1, e2) =
      All-split IsEntry (map (proprietary_entry prefix) fs) (proprietary_entries ps) es in
    let (s, w) = serialize_all-returns (map (proprietary_entry prefix) fs) e1 in
    let (t, v, v') = proprietary_fields_written ps h.1 e2 in
    (
      s ++ t,
      rw (group_written prefix fs h.0.0, w, v) refl,
      serialize_all-append write_entry (map (proprietary_entry prefix) fs) _ w v',
    )

pub unknown_fields_written :
    (us : List UnknownData)
    → stream_serialize_unknown_fields us ≡ serialize_all write_entry (map unknown_entry us)
unfolding stream_serialize_unknown_fields serialize_all unknown_entry write_entry
unknown_fields_written [] = refl
unknown_fields_written (u ∷ us) = rw (unknown_fields_written us) refl
