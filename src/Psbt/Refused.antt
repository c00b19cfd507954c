-- ===== src/Psbt/Refused.antt =====
-- read_psbt_keymap on a map that has a key twice, or too many entries.
use python_bitcointx.Prelude.{
  ℕ, zero, suc, ◌+◌, ◌-◌, ◌≤◌, ◌≡◌, ◌∙◌, ◌⊎◌, inl, inr, ap, refl, true, Option, List, [], ◌∷◌, ◌++◌,
  append_assoc, arith, length, Bytes, All,
}
use python_bitcointx.Result.{Result, ok, err, ◌>>=◌, serialization_error, >>=-eq-ok}
use python_bitcointx.Serialize.{serialize_all}
use python_bitcointx.Tx.Check.{contains}
use python_bitcointx.Psbt.{Keymap, handle, read_entries, read_psbt_keymap, max_psbt_map_entries}
use python_bitcointx.Psbt.Entries.{
  Entry, IsEntry, AreFresh, field_key, write_entry, handle_all, read_entry, bind_both,
  write_entry-Written,
}

-- The keys that have been seen behind the entries.
unfoldable pub seen_by : List Bytes → List Entry → List Bytes
seen_by seen [] = seen
seen_by seen (e ∷ es) = seen_by (field_key e ∷ seen) es

module _ {KeyType Fields : Type 0} (keys_enum_class : ℕ → Option KeyType)
    (on_field : KeyType → (key_data value : Bytes) → Fields → Result Fields) where
  read_entries-append :
      (es : List Entry) (total left : ℕ) (seen : List Bytes) (m : Keymap Fields) (s tail : Bytes)
      → total ≡ length es + left
      → All IsEntry es
      → AreFresh seen es
      → serialize_all write_entry es ≡ ok s
      → read_entries keys_enum_class on_field total seen m (s ++ tail) ≡ (
          handle_all keys_enum_class on_field es m >>= λ m'.
          read_entries keys_enum_class on_field left (seen_by seen es) m' tail)
  unfolding serialize_all handle_all seen_by
  read_entries-append [] total left seen m s tail count valid fresh h =
      let nil : s ≡ [] = cc in
      let none_read : total ≡ left = omega (arith, count) in
      rw nil (ap (λ n. read_entries keys_enum_class on_field n seen m tail) none_read)
  read_entries-append (e ∷ es) total left seen m s tail count valid fresh h =
      let (a, w, h') = >>=-eq-ok (write_entry e) _ h in
      let (t, w', h'') = >>=-eq-ok (serialize_all write_entry es) _ h' in
      let cut : s ≡ a ++ t = cc in
      let others = length es + left in
      let one_more : total ≡ suc others = omega (arith, count) in
      ap (λ x. read_entries keys_enum_class on_field total seen m (x ++ tail)) cut
      ∙ ap (λ n. read_entries keys_enum_class on_field n seen m ((a ++ t) ++ tail)) one_more
      ∙ ap (read_entries keys_enum_class on_field (suc others) seen m) (append_assoc a t tail)
      ∙ read_entry keys_enum_class on_field e others seen m a (t ++ tail) valid.0 w fresh.0
      ∙ bind_both (handle keys_enum_class on_field e.key_type e.key_data e.value m) _ _ _ λ m'.
        read_entries-append es others left (field_key e ∷ seen) m' t tail refl valid.1 fresh.1 w'

  read_refused :
      (e : Entry) (left : ℕ) (seen : List Bytes) (m : Keymap Fields) (a rest : Bytes)
      → IsEntry e
      → write_entry e ≡ ok a
      → (left ≡ 0) ⊎ (contains seen (field_key e) ≡ true)
      → read_entries keys_enum_class on_field left seen m (a ++ rest) ≡ err serialization_error
  unfolding read_entries
  read_refused e zero seen m a rest valid w why =
      let written = write_entry-Written e a rest valid w in rw written.reads_key refl
  read_refused e (suc left) seen m a rest valid w (inl none_left) =
      absurd (omega (arith, none_left))
  read_refused e (suc left) seen m a rest valid w (inr again) =
      let written = write_entry-Written e a rest valid w in
      rw (written.reads_key, rw written.key at again) refl

  -- Reading a map raises SerializationError at an entry whose key one of the entries before it has,
  -- and at the entry behind the 10000th, whatever follows. The entries before it have keys of their
  -- own, and their handling raises nothing.
  pub keymap_refused :
      (es : List Entry) (e : Entry) (m m' : Keymap Fields) (s a rest : Bytes)
      → All IsEntry es
      → AreFresh [] es
      → length es ≤ max_psbt_map_entries
      → serialize_all write_entry es ≡ ok s
      → handle_all keys_enum_class on_field es m ≡ ok m'
      → IsEntry e
      → write_entry e ≡ ok a
      → (length es ≡ max_psbt_map_entries) ⊎ (contains (seen_by [] es) (field_key e) ≡ true)
      → read_psbt_keymap keys_enum_class on_field m (s ++ (a ++ rest)) ≡ err serialization_error
  unfolding read_psbt_keymap
  keymap_refused es e m m' s a rest valid fresh few w handled is w' why =
      let left = max_psbt_map_entries - length es in
      let count : max_psbt_map_entries ≡ length es + left = omega (arith, few) in
      read_entries-append es max_psbt_map_entries left [] m s (a ++ rest) count valid fresh w
      ∙ ap
          (λ r. r >>= λ x. read_entries keys_enum_class on_field left (seen_by [] es) x (a ++ rest))
          handled
      ∙ read_refused e left (seen_by [] es) m' a rest is w'
          (elim why [ inl full ↦ inl (omega (arith, full)) | inr again ↦ inr again ])
