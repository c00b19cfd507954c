-- ===== src/Psbt/Output/Handled.antt =====
-- What reading each group of the entries of a PSBT_Output does.
use python_bitcointx.Prelude.{
  ◌≡◌, ◌≢◌, ◌∙◌, ap, refl, inl, inr, Bool, true, false, none, List, [], ◌∷◌, ◌++◌, map,
  append_assoc, append-nil, length, Bytes, bytes_eq, bytes_eq_refl, All, arith, ne→==_false,
  Bool-cases,
}
use python_bitcointx.Result.{Result, ok, ◌>>=◌}
use python_bitcointx.Serialize.{serialize_bytes, deserialize_bytes}
use python_bitcointx.Serialize.VarInt.{compact_size, deserialize_varint-compact_size}
use python_bitcointx.Serialize.Vectors.{IsShort, bytes-RoundTrips}
use python_bitcointx.Tx.Check.{contains}
use python_bitcointx.Psbt.{
  ProprietaryData, UnknownData, ProprietaryFields, Keymap, psbt_proprietary_type, add_proprietary,
  ensure_empty_key_data, handle, handle_typed,
}
use python_bitcointx.Psbt.Entries.{Entry, handle_all, handle_all-append}
use python_bitcointx.Psbt.Output.{
  redeem_script_type, witness_script_type, key_type_value, out_key_type, DerivationMap,
  OutputFields, get_info, has_info, on_output_field,
}
use python_bitcointx.Psbt.Output.Written.{
  script_entries, derivation_entry, proprietary_entry, proprietary_entries, unknown_entry, IsItem,
  IsField, IsGroup, info_written, varint_written,
}

-- The keys of a dict are new: not among those seen before, and no two are the same.
abbrev pub AreNew {ℓ} : {A : Type ℓ} → (seen : List Bytes) → List (Bytes × A) → Type 0
AreNew seen [] = Unit
AreNew seen (p ∷ ps) = (contains seen p.0 ≡ false) × AreNew (seen ++ (p.0 ∷ [])) ps

abbrev pub keys {ℓ} : {A : Type ℓ} → List (Bytes × A) → List Bytes
keys = map λ p. p.0

pub keys-append {ℓ} : {A : Type ℓ} (ps qs : List (Bytes × A)) → keys (ps ++ qs) ≡ keys ps ++ keys qs
keys-append [] qs = refl
keys-append (p ∷ ps) qs = rw (keys-append ps qs) refl

abbrev pub keymap :
    ProprietaryFields → List UnknownData → (rds ws : Bytes) → DerivationMap → Keymap OutputFields
keymap ps us rds ws d = record {
  proprietary_fields = ps;
  unknown_fields = us;
  fields = record { redeem_script = rds; witness_script = ws; derivation_map = d };
}

get_info-contains : (d : DerivationMap) (k : Bytes) → has_info (get_info k d) ≡ contains (keys d) k
unfolding has_info get_info contains
get_info-contains [] k = refl
get_info-contains ((j, info) ∷ d) k = elim (Bool-cases (bytes_eq j k)) [
  | inl same ↦ rw same refl
  | inr other ↦ rw other (get_info-contains d k)
]

prefix_read :
    (prefix tail : Bytes)
    → IsShort prefix
    → deserialize_bytes false (compact_size (length prefix) ++ prefix ++ tail) ≡ ok (prefix, tail)
unfolding serialize_bytes
prefix_read prefix tail short =
    let (s, w, r) = (bytes-RoundTrips false).at prefix tail short in
    let cut : s ≡ compact_size (length prefix) ++ prefix =
      cc (rw (varint_written (length prefix) (omega (arith, short))) at w) in
    rw (← cut) r

add_proprietary_new :
    (ps : ProprietaryFields) (prefix : Bytes) (f : ProprietaryData)
    → contains (keys ps) prefix ≡ false
    → add_proprietary prefix f ps ≡ ps ++ ((prefix, f ∷ []) ∷ [])
unfolding add_proprietary contains
add_proprietary_new [] prefix f new = refl
add_proprietary_new ((p, fs) ∷ ps) prefix f new = elim (Bool-cases (bytes_eq p prefix)) [
  | inl same ↦ cc (rw same at new)
  | inr other ↦ rw (other, add_proprietary_new ps prefix f (rw other at new)) refl
]

add_proprietary_last :
    (ps : ProprietaryFields) (prefix : Bytes) (fs : List ProprietaryData) (f : ProprietaryData)
    → contains (keys ps) prefix ≡ false
    → add_proprietary prefix f (ps ++ ((prefix, fs) ∷ [])) ≡ ps ++ ((prefix, fs ++ (f ∷ [])) ∷ [])
unfolding add_proprietary contains
add_proprietary_last [] prefix fs f new = rw (bytes_eq_refl prefix) refl
add_proprietary_last ((p, gs) ∷ ps) prefix fs f new = elim (Bool-cases (bytes_eq p prefix)) [
  | inl same ↦ cc (rw same at new)
  | inr other ↦ rw (other, add_proprietary_last ps prefix fs f (rw other at new)) refl
]

module _ (is_fullyvalid : Bytes → Bool) where
  abbrev pub handle_output : List Entry → Keymap OutputFields → Result (Keymap OutputFields)
  handle_output = handle_all out_key_type (on_output_field is_fullyvalid)

  pub redeem_script_handled :
      (ps : ProprietaryFields) (us : List UnknownData) (rds ws : Bytes) (d : DerivationMap)
      → handle_output (script_entries redeem_script_type rds) (keymap ps us [] ws d)
        ≡ ok (keymap ps us rds ws d)
  unfolding handle_all handle handle_typed script_entries out_key_type on_output_field
      key_type_value ensure_empty_key_data
  redeem_script_handled ps us [] ws d = refl
  redeem_script_handled ps us (b ∷ bs) ws d = refl

  pub witness_script_handled :
      (ps : ProprietaryFields) (us : List UnknownData) (rds ws : Bytes) (d : DerivationMap)
      → handle_output (script_entries witness_script_type ws) (keymap ps us rds [] d)
        ≡ ok (keymap ps us rds ws d)
  unfolding handle_all handle handle_typed script_entries out_key_type on_output_field
      key_type_value ensure_empty_key_data
  witness_script_handled ps us rds [] d = refl
  witness_script_handled ps us rds (b ∷ bs) d = refl

  pub derivations_handled :
      (ps : ProprietaryFields) (us : List UnknownData) (rds ws : Bytes) (d items : DerivationMap)
      → All (IsItem is_fullyvalid) items
      → AreNew (keys d) items
      → handle_output (map derivation_entry items) (keymap ps us rds ws d)
        ≡ ok (keymap ps us rds ws (d ++ items))
  unfolding handle_all handle handle_typed derivation_entry out_key_type on_output_field
      key_type_value
  derivations_handled ps us rds ws d [] valid new = rw (append-nil d) refl
  derivations_handled ps us rds ws d ((k, info) ∷ items) valid new =
      let absent : has_info (get_info k d) ≡ false = get_info-contains d k ∙ new.0 in
      rw (valid.0.0, absent, (info_written info valid.0.1).1)
        (derivations_handled ps us rds ws (d ++ ((k, info) ∷ [])) items valid.1
            (rw (keys-append d ((k, info) ∷ [])) new.1)
          ∙ ap (λ e. ok (keymap ps us rds ws e)) (append_assoc d ((k, info) ∷ []) items))

  pub unknown_fields_handled :
      (ps : ProprietaryFields) (us vs : List UnknownData) (rds ws : Bytes) (d : DerivationMap)
      → All (λ u. (out_key_type u.key_type ≡ none) × (u.key_type ≢ psbt_proprietary_type)) vs
      → handle_output (map unknown_entry vs) (keymap ps us rds ws d)
        ≡ ok (keymap ps (us ++ vs) rds ws d)
  unfolding handle_all handle handle_typed unknown_entry
  unknown_fields_handled ps us [] rds ws d h = rw (append-nil us) refl
  unknown_fields_handled ps us (v ∷ vs) rds ws d ((untyped, other), h) =
      rw (ne→==_false v.key_type psbt_proprietary_type other, untyped)
        (unknown_fields_handled ps (us ++ (v ∷ [])) vs rds ws d h
          ∙ ap (λ ws'. ok (keymap ps ws' rds ws d)) (append_assoc us (v ∷ []) vs))

  -- One proprietary field.
  proprietary_handled :
      (ps : ProprietaryFields) (us : List UnknownData) (rds ws : Bytes) (d : DerivationMap)
      (prefix : Bytes) (f : ProprietaryData) (fs : List ProprietaryData)
      → IsField prefix f
      → handle_output (map (proprietary_entry prefix) (f ∷ fs)) (keymap ps us rds ws d)
        ≡ handle_output
            (map (proprietary_entry prefix) fs)
            (keymap (add_proprietary prefix f ps) us rds ws d)
  unfolding handle_all handle proprietary_entry
  proprietary_handled ps us rds ws d prefix f fs (short, small) =
      rw
        (
          append_assoc (compact_size (length prefix) ++ prefix) (compact_size f.subtype) f.key_data,
          prefix_read prefix (compact_size f.subtype ++ f.key_data) short,
          deserialize_varint-compact_size true f.subtype f.key_data small (inl refl),
        )
        refl

  -- The fields of a prefix that some have been read of.
  group_handled :
      (ps : ProprietaryFields) (us : List UnknownData) (rds ws : Bytes) (d : DerivationMap)
      (prefix : Bytes) (done fs : List ProprietaryData)
      → contains (keys ps) prefix ≡ false
      → All (IsField prefix) fs
      → handle_output
          (map (proprietary_entry prefix) fs)
          (keymap (ps ++ ((prefix, done) ∷ [])) us rds ws d)
        ≡ ok (keymap (ps ++ ((prefix, done ++ fs) ∷ [])) us rds ws d)
  unfolding handle_all
  group_handled ps us rds ws d prefix done [] new h = rw (append-nil done) refl
  group_handled ps us rds ws d prefix done (f ∷ fs) new h =
      proprietary_handled (ps ++ ((prefix, done) ∷ [])) us rds ws d prefix f fs h.0
      ∙ ap (λ q. handle_output (map (proprietary_entry prefix) fs) (keymap q us rds ws d))
          (add_proprietary_last ps prefix done f new)
      ∙ group_handled ps us rds ws d prefix (done ++ (f ∷ [])) fs new h.1
      ∙ ap (λ gs. ok (keymap (ps ++ ((prefix, gs) ∷ [])) us rds ws d))
          (append_assoc done (f ∷ []) fs)

  -- All fields of a new prefix.
  prefix_handled :
      (ps : ProprietaryFields) (us : List UnknownData) (rds ws : Bytes) (d : DerivationMap)
      (prefix : Bytes) (fs : List ProprietaryData)
      → contains (keys ps) prefix ≡ false
      → IsGroup (prefix, fs)
      → handle_output (map (proprietary_entry prefix) fs) (keymap ps us rds ws d)
        ≡ ok (keymap (ps ++ ((prefix, fs) ∷ [])) us rds ws d)
  prefix_handled ps us rds ws d prefix [] new (h, some_field) = absurd (some_field refl)
  prefix_handled ps us rds ws d prefix (f ∷ fs) new (h, some_field) =
      proprietary_handled ps us rds ws d prefix f fs h.0
      ∙ ap (λ q. handle_output (map (proprietary_entry prefix) fs) (keymap q us rds ws d))
          (add_proprietary_new ps prefix f new)
      ∙ group_handled ps us rds ws d prefix (f ∷ []) fs new h.1

  pub proprietary_fields_handled :
      (ps qs : ProprietaryFields) (us : List UnknownData) (rds ws : Bytes) (d : DerivationMap)
      → All IsGroup qs
      → AreNew (keys ps) qs
      → handle_output (proprietary_entries qs) (keymap ps us rds ws d)
        ≡ ok (keymap (ps ++ qs) us rds ws d)
  unfolding proprietary_entries handle_all
  proprietary_fields_handled ps [] us rds ws d h new = rw (append-nil ps) refl
  proprietary_fields_handled ps ((prefix, fs) ∷ qs) us rds ws d h new =
      handle_all-append out_key_type (on_output_field is_fullyvalid)
        (map (proprietary_entry prefix) fs) (proprietary_entries qs) (keymap ps us rds ws d)
      ∙ ap (λ r. r >>= handle_output (proprietary_entries qs))
          (prefix_handled ps us rds ws d prefix fs new.0 h.0)
      ∙ proprietary_fields_handled (ps ++ ((prefix, fs) ∷ [])) qs us rds ws d h.1
          (rw (keys-append ps ((prefix, fs) ∷ [])) new.1)
      ∙ ap (λ q. ok (keymap q us rds ws d)) (append_assoc ps ((prefix, fs) ∷ []) qs)
