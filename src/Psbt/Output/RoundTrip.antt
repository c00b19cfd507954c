-- ===== src/Psbt/Output/RoundTrip.antt =====
-- PSBT_Output: what is written of an output is read back.
use python_bitcointx.Prelude.{
  ℕ, ◌≤◌, ◌≡◌, ◌≢◌, ◌∙◌, ap, refl, Bool, none, some, List, [], ◌++◌, map, append_assoc, length,
  Bytes, All,
}
use python_bitcointx.Prelude.Int.{pos}
use python_bitcointx.Result.{Result, ok, ◌>>=◌}
use python_bitcointx.Serialize.{serialize_all}
use python_bitcointx.Psbt.{
  Keymap, UnknownData, psbt_proprietary_type, max_psbt_map_entries, psbt_separator,
  read_psbt_keymap,
}
use python_bitcointx.Psbt.Entries.{
  Entry, IsEntry, AreFresh, write_entry, serialize_all-returns, handle_all-append,
  read_entries-serialize_all,
}
use python_bitcointx.Psbt.Output.{
  Output, redeem_script_type, witness_script_type, out_key_type, on_output_field, new_keymap,
  serialize_output, deserialize_output,
}
use python_bitcointx.Psbt.Output.Written.{
  script_entries, derivation_entry, proprietary_entries, unknown_entry, IsItem, IsGroup, All-split,
  serialize_all-append, script_written, derivations_written, proprietary_fields_written,
  unknown_fields_written,
}
use python_bitcointx.Psbt.Output.Handled.{
  AreNew, keymap, handle_output, redeem_script_handled, witness_script_handled, derivations_handled,
  proprietary_fields_handled, unknown_fields_handled,
}

-- The entries that are written of an output, in their order.
unfoldable pub output_entries : Output → List Entry
output_entries o =
    script_entries redeem_script_type o.redeem_script
    ++ script_entries witness_script_type o.witness_script
    ++ map derivation_entry o.derivation_map
    ++ proprietary_entries o.proprietary_fields
    ++ map unknown_entry o.unknown_fields

-- An unknown field has a type that is not one of the known types.
abbrev pub IsUnknown : UnknownData → Type 0
IsUnknown u = (out_key_type u.key_type ≡ none) × (u.key_type ≢ psbt_proprietary_type)

module _ (is_fullyvalid : Bytes → Bool) where
  -- An output that can be written and told apart by its keys: its entries can be encoded, are at most
  -- as many as a map may have, and have keys of their own; public keys are valid and their derivation
  -- infos full paths with the default marker; the dicts have each key once; an unknown field has an
  -- unknown type.
  pub record IsOutput (o : Output) : Type 0 where
    pub encoded : All IsEntry (output_entries o)
    pub fresh : AreFresh [] (output_entries o)
    pub few : length (output_entries o) ≤ max_psbt_map_entries
    pub items : All (IsItem is_fullyvalid) o.derivation_map
    pub new_keys : AreNew [] o.derivation_map
    pub groups : All IsGroup o.proprietary_fields
    pub new_prefixes : AreNew [] o.proprietary_fields
    pub unknown : All IsUnknown o.unknown_fields

  output_written :
      (o : Output)
      → IsOutput o
      → (s : Bytes) × (serialize_all write_entry (output_entries o) ≡ ok s)
        × (serialize_output is_fullyvalid o ≡ ok (s ++ psbt_separator))
  unfolding serialize_output output_entries
  output_written o valid =
      let r = script_entries redeem_script_type o.redeem_script in
      let w = script_entries witness_script_type o.witness_script in
      let d = map derivation_entry o.derivation_map in
      let p = proprietary_entries o.proprietary_fields in
      let u = map unknown_entry o.unknown_fields in
      let (e4, eu) = All-split IsEntry (r ++ w ++ d ++ p) u valid.encoded in
      let (e3, ep) = All-split IsEntry (r ++ w ++ d) p e4 in
      let (e2, ed) = All-split IsEntry (r ++ w) d e3 in
      let (er, ew) = All-split IsEntry r w e2 in
      let (rs, r_ok) = serialize_all-returns r er in
      let (ws, w_ok) = serialize_all-returns w ew in
      let (ds, d_ok) = serialize_all-returns d ed in
      let (ps, p_made, p_ok) = proprietary_fields_written o.proprietary_fields valid.groups ep in
      let (us, u_ok) = serialize_all-returns u eu in
      (
        rs ++ ws ++ ds ++ ps ++ us,
        serialize_all-append write_entry (r ++ w ++ d ++ p) u
            (serialize_all-append write_entry (r ++ w ++ d) p
              (serialize_all-append write_entry (r ++ w) d
                (serialize_all-append write_entry r w r_ok w_ok) d_ok)
              p_ok)
            u_ok,
        rw
            (
              script_written redeem_script_type o.redeem_script ∙ r_ok,
              script_written witness_script_type o.witness_script ∙ w_ok,
              derivations_written is_fullyvalid o.derivation_map valid.items ∙ d_ok,
              p_made,
              unknown_fields_written o.unknown_fields ∙ u_ok,
            )
            refl,
      )

  then_handled :
      (es fs : List Entry) (m m' : Keymap _) {r : Result (Keymap _)}
      → handle_output is_fullyvalid es m ≡ ok m'
      → handle_output is_fullyvalid fs m' ≡ r
      → handle_output is_fullyvalid (es ++ fs) m ≡ r
  then_handled es fs m m' h k =
      handle_all-append out_key_type (on_output_field is_fullyvalid) es fs m
      ∙ ap (λ x. x >>= handle_output is_fullyvalid fs) h
      ∙ k

  output_handled :
      (o : Output)
      → IsOutput o
      → handle_output is_fullyvalid (output_entries o) new_keymap
        ≡ ok (
            keymap o.proprietary_fields o.unknown_fields o.redeem_script o.witness_script
              o.derivation_map)
  unfolding output_entries
  output_handled o valid =
      then_handled _ _ _ _
        (then_handled _ _ _ _
          (then_handled _ _ _ _
            (then_handled _ _ _ _ (redeem_script_handled is_fullyvalid [] [] o.redeem_script [] [])
              (witness_script_handled is_fullyvalid [] [] o.redeem_script o.witness_script []))
            (derivations_handled is_fullyvalid [] [] o.redeem_script o.witness_script []
              o.derivation_map valid.items valid.new_keys))
          (proprietary_fields_handled is_fullyvalid [] o.proprietary_fields [] o.redeem_script
            o.witness_script o.derivation_map valid.groups valid.new_prefixes))
        (unknown_fields_handled is_fullyvalid o.proprietary_fields [] o.unknown_fields
          o.redeem_script o.witness_script o.derivation_map valid.unknown)

  -- An output that satisfies `IsOutput` is written, and reading what was written, whatever follows it,
  -- with the index of the output returns the output and leaves what follows.
  pub output_round_trip :
      (o : Output) (i : ℕ) (rest : Bytes)
      → IsOutput o
      → o.index ≡ some i
      → (s : Bytes) × (serialize_output is_fullyvalid o ≡ ok s)
        × (deserialize_output is_fullyvalid (pos i) (s ++ rest) ≡ ok (o, rest))
  unfolding deserialize_output read_psbt_keymap
  output_round_trip o i rest valid indexed =
      let (s, w, w') = output_written o valid in
      let read =
        read_entries-serialize_all out_key_type (on_output_field is_fullyvalid) (output_entries o)
          max_psbt_map_entries [] new_keymap s rest valid.encoded valid.fresh valid.few w in
      (
        s ++ psbt_separator,
        w',
        rw (append_assoc s psbt_separator rest, read, output_handled o valid, ← indexed) refl,
      )
