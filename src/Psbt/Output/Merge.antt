-- ===== src/Psbt/Output/Merge.antt =====
-- PSBT_Output.merge and clone: an output merged into a new one, and into itself.
use python_bitcointx.Prelude.{
  ℕ, ◌≡◌, ◌∙◌, ap, refl, sym, inl, inr, Bool, true, false, Option, none, some, List, [], ◌∷◌, ◌++◌,
  append_assoc, append-nil, length, Bytes, bytes_eq, bytes_eq_refl, All, le→leb, ==_refl,
  Bool-cases,
}
use mathlib.Core.Path.{subst}
use python_bitcointx.Result.{ok}
use python_bitcointx.Tx.Check.{contains}
use python_bitcointx.Bip32.{make_path, read_argument, check_marker, check_partial, or_else}
use python_bitcointx.Bip32.RoundTrip.{checked_indexes}
use python_bitcointx.Psbt.{
  ProprietaryData, UnknownData, ProprietaryFields, same_proprietary, same_unknown, is_among, not_in,
  dst_set_of, merge_prefix, merge_proprietary_fields, merge_unknown_fields,
}
use python_bitcointx.Psbt.Derivation.{KeyDerivationInfo, make_derivation_info, clone_info}
use python_bitcointx.Psbt.Derivation.RoundTrip.{IsInfo, info_round_trip}
use python_bitcointx.Psbt.Output.{
  Output, new_output, DerivationMap, get_info, merge_index, merge_script, merge_info,
  merge_derivation_map, merge_common_fields, merge, clone,
}
use python_bitcointx.Psbt.Output.Handled.{AreNew, keys, keys-append}

clone_info-IsInfo : (info : KeyDerivationInfo) → IsInfo info → clone_info info ≡ ok info
unfolding clone_info make_path read_argument check_marker check_partial or_else make_derivation_info
clone_info-IsInfo info valid =
    rw
      (
        le→leb (length info.path.indexes) 255 valid.sized,
        checked_indexes info.path.indexes valid.bounded,
        valid.fingerprint,
        valid.full,
      )
      (rw (← valid.full) refl)

-- An item whose key is not in front of it is what the dict has under the key.
get_info_new : (d : DerivationMap) (k : Bytes) → contains (keys d) k ≡ false → get_info k d ≡ none
unfolding get_info contains
get_info_new [] k new = refl
get_info_new ((j, info) ∷ d) k new = elim (Bool-cases (bytes_eq j k)) [
  | inl same ↦ cc (rw same at new)
  | inr other ↦ rw other (get_info_new d k (rw other at new))
]

get_info_there :
    (d items : DerivationMap) (k : Bytes) (info : KeyDerivationInfo)
    → contains (keys d) k ≡ false
    → get_info k (d ++ ((k, info) ∷ items)) ≡ some info
unfolding get_info contains
get_info_there [] items k info new = rw (bytes_eq_refl k) refl
get_info_there ((j, other) ∷ d) items k info new = elim (Bool-cases (bytes_eq j k)) [
  | inl same ↦ cc (rw same at new)
  | inr different ↦ rw different (get_info_there d items k info (rw different at new))
]

abbrev pub HasInfo : Bytes × KeyDerivationInfo → Type 0
HasInfo p = IsInfo p.1

merge_new_items :
    (d items : DerivationMap)
    → All HasInfo items
    → AreNew (keys d) items
    → merge_derivation_map d items ≡ ok (d ++ items)
unfolding merge_derivation_map merge_info
merge_new_items d [] valid new = rw (append-nil d) refl
merge_new_items d ((k, info) ∷ items) valid new =
    rw (get_info_new d k new.0, clone_info-IsInfo info valid.0)
      (merge_new_items (d ++ ((k, info) ∷ [])) items valid.1
          (rw (keys-append d ((k, info) ∷ [])) new.1)
        ∙ ap (λ e. ok e) (append_assoc d ((k, info) ∷ []) items))

merge_same_info :
    (dst : DerivationMap) (k : Bytes) (info : KeyDerivationInfo)
    → IsInfo info
    → merge_info dst k info (some info) ≡ ok dst
unfolding merge_info
merge_same_info dst k info valid =
    let (s, w, r) = info_round_trip info valid in
    rw (bytes_eq_refl info.master_fp, bytes_eq_refl info.path.indexes, w, bytes_eq_refl s) refl

-- The items of a dict, from some on, merged into the dict.
merge_own_items :
    (d items : DerivationMap)
    → All HasInfo items
    → AreNew (keys d) items
    → merge_derivation_map (d ++ items) items ≡ ok (d ++ items)
unfolding merge_derivation_map
merge_own_items d [] valid new = refl
merge_own_items d ((k, info) ∷ items) valid new =
    rw
      (
        get_info_there d items k info new.0,
        merge_same_info (d ++ ((k, info) ∷ items)) k info valid.0,
      )
      (subst (λ e. merge_derivation_map e items ≡ ok e) (append_assoc d ((k, info) ∷ []) items)
        (merge_own_items (d ++ ((k, info) ∷ [])) items valid.1
          (rw (keys-append d ((k, info) ∷ [])) new.1)))

module _ {ℓ} {A : Type ℓ} (same : A → A → Bool) (same_refl : (a : A) → same a a ≡ true) where
  not_in_nothing : (xs : List A) → not_in same [] xs ≡ xs
  unfolding not_in is_among
  not_in_nothing [] = refl
  not_in_nothing (a ∷ rest) = rw (not_in_nothing rest) refl

  is_among_there :
      (front : List A) (a : A) (rest : List A) → is_among same a (front ++ (a ∷ rest)) ≡ true
  unfolding is_among
  is_among_there [] a rest = rw (same_refl a) refl
  is_among_there (b ∷ front) a rest = elim (Bool-cases (same b a)) [
    | inl h ↦ rw h refl
    | inr h ↦ rw h (is_among_there front a rest)
  ]

  not_in_own : (front rest : List A) → not_in same (front ++ rest) rest ≡ []
  unfolding not_in
  not_in_own front [] = refl
  not_in_own front (a ∷ rest) = rw (is_among_there front a rest) (
      subst (λ xs. not_in same xs rest ≡ []) (append_assoc front (a ∷ []) rest)
        (not_in_own (front ++ (a ∷ [])) rest))

same_proprietary_refl : (f : ProprietaryData) → same_proprietary f f ≡ true
unfolding same_proprietary
same_proprietary_refl f =
    rw (==_refl f.subtype, bytes_eq_refl f.key_data, bytes_eq_refl f.value) refl

same_unknown_refl : (u : UnknownData) → same_unknown u u ≡ true
unfolding same_unknown
same_unknown_refl u = rw (==_refl u.key_type, bytes_eq_refl u.key_data, bytes_eq_refl u.value) refl

merge_prefix_new :
    (allow : Bool) (ps : ProprietaryFields) (prefix : Bytes) (fs : List ProprietaryData)
    → contains (keys ps) prefix ≡ false
    → merge_prefix allow prefix fs ps ≡ ps ++ ((prefix, fs) ∷ [])
unfolding merge_prefix contains
merge_prefix_new allow [] prefix fs new =
    rw (not_in_nothing same_proprietary same_proprietary_refl fs) refl
merge_prefix_new allow ((p, gs) ∷ ps) prefix fs new = elim (Bool-cases (bytes_eq p prefix)) [
  | inl same ↦ cc (rw same at new)
  | inr other ↦ rw (other, merge_prefix_new allow ps prefix fs (rw other at new)) refl
]

merge_prefix_own :
    (ps qs : ProprietaryFields) (prefix : Bytes) (fs : List ProprietaryData)
    → contains (keys ps) prefix ≡ false
    → merge_prefix false prefix fs (ps ++ ((prefix, fs) ∷ qs)) ≡ ps ++ ((prefix, fs) ∷ qs)
unfolding merge_prefix contains dst_set_of
merge_prefix_own [] qs prefix fs new =
    rw
      (bytes_eq_refl prefix, not_in_own same_proprietary same_proprietary_refl [] fs, append-nil fs)
      refl
merge_prefix_own ((p, gs) ∷ ps) qs prefix fs new = elim (Bool-cases (bytes_eq p prefix)) [
  | inl same ↦ cc (rw same at new)
  | inr other ↦ rw (other, merge_prefix_own ps qs prefix fs (rw other at new)) refl
]

merge_new_prefixes :
    (allow : Bool) (ps qs : ProprietaryFields)
    → AreNew (keys ps) qs
    → merge_proprietary_fields ps qs allow ≡ ps ++ qs
unfolding merge_proprietary_fields
merge_new_prefixes allow ps [] new = sym (append-nil ps)
merge_new_prefixes allow ps ((prefix, fs) ∷ qs) new =
    rw (merge_prefix_new allow ps prefix fs new.0) (
      merge_new_prefixes allow (ps ++ ((prefix, fs) ∷ [])) qs
        (rw (keys-append ps ((prefix, fs) ∷ [])) new.1)
      ∙ append_assoc ps ((prefix, fs) ∷ []) qs)

merge_own_prefixes :
    (ps qs : ProprietaryFields)
    → AreNew (keys ps) qs
    → merge_proprietary_fields (ps ++ qs) qs false ≡ ps ++ qs
unfolding merge_proprietary_fields
merge_own_prefixes ps [] new = refl
merge_own_prefixes ps ((prefix, fs) ∷ qs) new = rw (merge_prefix_own ps qs prefix fs new.0) (
    subst (λ q. merge_proprietary_fields q qs false ≡ q) (append_assoc ps ((prefix, fs) ∷ []) qs)
      (merge_own_prefixes (ps ++ ((prefix, fs) ∷ [])) qs
        (rw (keys-append ps ((prefix, fs) ∷ [])) new.1)))

-- The dicts of an output have each key once, and its derivation infos are valid.
pub record IsMergeable (o : Output) : Type 0 where
  pub infos : All HasInfo o.derivation_map
  pub new_keys : AreNew [] o.derivation_map
  pub new_prefixes : AreNew [] o.proprietary_fields

merge_script_same : (s : Bytes) → merge_script s s ≡ ok s
unfolding merge_script
merge_script_same [] = refl
merge_script_same (b ∷ bs) = rw (bytes_eq_refl (b ∷ bs)) refl

merge_index_same : (i : Option ℕ) → merge_index i i ≡ ok i
unfolding merge_index
merge_index_same none = refl
merge_index_same (some i) = rw (==_refl i) refl

merge_into_new : (o : Output) (allow : Bool) → IsMergeable o → merge new_output o allow ≡ ok o
unfolding merge merge_common_fields merge_index merge_script merge_unknown_fields dst_set_of
merge_into_new o true valid =
    rw
      (
        merge_new_items [] o.derivation_map valid.infos valid.new_keys,
        merge_new_prefixes true [] o.proprietary_fields valid.new_prefixes,
        not_in_nothing same_unknown same_unknown_refl o.unknown_fields,
      )
      refl
merge_into_new o false valid =
    rw
      (
        merge_new_items [] o.derivation_map valid.infos valid.new_keys,
        merge_new_prefixes false [] o.proprietary_fields valid.new_prefixes,
        not_in_nothing same_unknown same_unknown_refl o.unknown_fields,
      )
      refl

merge_into_itself : (o : Output) → IsMergeable o → merge o o false ≡ ok o
unfolding merge merge_common_fields merge_unknown_fields dst_set_of
merge_into_itself o valid =
    rw
      (
        merge_index_same o.index,
        merge_script_same o.redeem_script,
        merge_script_same o.witness_script,
        merge_own_items [] o.derivation_map valid.infos valid.new_keys,
        merge_own_prefixes [] o.proprietary_fields valid.new_prefixes,
        not_in_own same_unknown same_unknown_refl [] o.unknown_fields,
        append-nil o.unknown_fields,
      )
      refl

-- If the dicts of an output have each key once and its derivation infos are valid, a clone of it is the
-- same output, and so is a new output into which it is merged, with and without duplicates; and merging
-- an output into itself, without duplicates, changes nothing.
pub merge_identities :
    (o : Output)
    → IsMergeable o
    → (clone o ≡ ok o)
      × ((allow : Bool) → merge new_output o allow ≡ ok o)
      × (merge o o false ≡ ok o)
unfolding clone
merge_identities o valid =
    (merge_into_new o true valid, λ allow. merge_into_new o allow valid, merge_into_itself o valid)
