-- ===== src/Psbt/Entries.antt =====
-- read_psbt_keymap on a map that was written: it is the handling of its entries, one after another.
use python_bitcointx.Prelude.{
  ℕ, zero, suc, ◌≤◌, ◌<◌, ◌^◌, ◌≡◌, ◌∙◌, ap, inl, refl, true, false, Option, List, [], ◌∷◌, ◌++◌,
  append_assoc, length, get_or, drop, Bytes, All, lt→ltb, arith,
}
use python_bitcointx.Result.{Result, ok, err, ◌>>=◌, >>=-eq-ok}
use python_bitcointx.Serialize.{
  Writer, serialize_all, deserialize_bytes, deserialize_varint, ser_read,
}
use python_bitcointx.Serialize.VarInt.{
  compact_size, deserialize_varint-compact_size, serialize_varint-eq,
}
use python_bitcointx.Serialize.Vectors.{IsShort, bytes-RoundTrips}
use python_bitcointx.Tx.Check.{contains}
use python_bitcointx.Psbt.{Keymap, stream_serialize_field, handle, read_entries, psbt_separator}

pub record Entry : Type 0 where
  pub key_type : ℕ
  pub key_data : Bytes
  pub value : Bytes

unfoldable pub field_key : Entry → Bytes
field_key e = compact_size e.key_type ++ e.key_data

unfoldable pub write_entry : Writer Entry
write_entry e = stream_serialize_field e.key_type e.key_data e.value

pub record IsEntry (e : Entry) : Type 0 where
  pub typed : e.key_type < 2 ^ 64
  pub key_short : IsShort (field_key e)
  pub value_short : IsShort e.value

-- The keys of the entries are new: not among those seen, and no two are the same.
abbrev pub AreFresh : List Bytes → List Entry → Type 0
AreFresh seen [] = Unit
AreFresh seen (e ∷ es) = (contains seen (field_key e) ≡ false) × AreFresh (field_key e ∷ seen) es

compact_size-cons : (v : ℕ) → (b : ℕ) × (t : Bytes) × (compact_size v ≡ b ∷ t)
unfolding compact_size
compact_size-cons v = (get_or (compact_size v) 0 0, drop 1 (compact_size v), ground arith)

read_end : (rest : Bytes) → deserialize_bytes false (psbt_separator ++ rest) ≡ ok ([], rest)
unfolding deserialize_bytes deserialize_varint ser_read
read_end rest = refl

-- What is written of an entry: its key and its value, each of which is read back.
pub record Written (e : Entry) (s rest : Bytes) : Type 0 where
  pub first : ℕ
  pub others : Bytes
  pub left : Bytes
  pub key : field_key e ≡ first ∷ others
  pub reads_key : deserialize_bytes false (s ++ rest) ≡ ok (first ∷ others, left)
  pub reads_value : deserialize_bytes false left ≡ ok (e.value, rest)
  pub reads_type : deserialize_varint true (first ∷ others) ≡ ok (e.key_type, e.key_data)

pub write_entry-Written :
    (e : Entry) (s rest : Bytes) → IsEntry e → write_entry e ≡ ok s → Written e s rest
unfolding write_entry stream_serialize_field field_key
write_entry-Written e s rest valid h =
    let (v, wv, rv) = (bytes-RoundTrips false).at e.value rest valid.value_short in
    let (k, wk, rk) = (bytes-RoundTrips false).at (field_key e) (v ++ rest) valid.key_short in
    let (b, t, c) = compact_size-cons e.key_type in
    let whole : field_key e ≡ b ∷ t ++ e.key_data = rw c in
    let cut : s ≡ k ++ v =
      cc (rw (serialize_varint-eq, lt→ltb e.key_type (2 ^ 64) valid.typed, wk, wv) at h) in
    record {
      first = b;
      others = t ++ e.key_data;
      left = v ++ rest;
      key = whole;
      reads_key = rw (cut, append_assoc) (rw rk (rw whole));
      reads_value = rv;
      reads_type =
          rw (← whole)
            (deserialize_varint-compact_size true e.key_type e.key_data valid.typed (inl refl));
    }

-- A valid entry can be written, and so can a list of such.
pub serialize_all-returns :
    (es : List Entry) → All IsEntry es → (s : Bytes) × (serialize_all write_entry es ≡ ok s)
unfolding serialize_all write_entry stream_serialize_field field_key
serialize_all-returns [] valid = ([], refl)
serialize_all-returns (e ∷ es) (v, vs) =
    let (t, w) = serialize_all-returns es vs in
    let (b, wb, rb) = (bytes-RoundTrips false).at e.value [] v.value_short in
    let (k, wk, rk) = (bytes-RoundTrips false).at (field_key e) [] v.key_short in
    ((k ++ b) ++ t, rw (serialize_varint-eq, lt→ltb e.key_type (2 ^ 64) v.typed, wk, wb, w))

-- To go on from a first result in two ways is the same if it is for each value.
pub bind_both {ℓ κ μ} :
    {A : Type ℓ} {B : Type κ} {C : Type μ} (r : Result A) (f : A → Result C) (g : A → Result B)
    (h : B → Result C)
    → ((a : A) → f a ≡ (g a >>= h))
    → (r >>= f) ≡ (r >>= g >>= h)
bind_both (ok a) f g h same = same a
bind_both (err e) f g h same = refl

module _ {KeyType Fields : Type 0} (keys_enum_class : ℕ → Option KeyType)
    (on_field : KeyType → (key_data value : Bytes) → Fields → Result Fields) where
  -- The entries of a map, handled in their order.
  unfoldable pub handle_all : List Entry → Keymap Fields → Result (Keymap Fields)
  handle_all [] m = ok m
  handle_all (e ∷ es) m = do
    m' ← handle keys_enum_class on_field e.key_type e.key_data e.value m
    handle_all es m'

  pub handle_all-append :
      (es fs : List Entry) (m : Keymap Fields)
      → handle_all (es ++ fs) m ≡ (handle_all es m >>= handle_all fs)
  unfolding handle_all
  handle_all-append [] fs m = refl
  handle_all-append (e ∷ es) fs m =
      bind_both (handle keys_enum_class on_field e.key_type e.key_data e.value m) _ _ _
        (handle_all-append es fs)

  pub read_entry :
      (e : Entry) (left : ℕ) (seen : List Bytes) (m : Keymap Fields) (s rest : Bytes)
      → IsEntry e
      → write_entry e ≡ ok s
      → contains seen (field_key e) ≡ false
      → read_entries keys_enum_class on_field (suc left) seen m (s ++ rest) ≡ (
          handle keys_enum_class on_field e.key_type e.key_data e.value m >>= λ m'.
          read_entries keys_enum_class on_field left (field_key e ∷ seen) m' rest)
  unfolding read_entries
  read_entry e left seen m s rest valid h new =
      let written = write_entry-Written e s rest valid h in
      rw (
        written.key,
        written.reads_key,
        rw written.key at new,
        written.reads_type,
        written.reads_value,
      )

  read_nothing :
      (left : ℕ) (seen : List Bytes) (m : Keymap Fields) (rest : Bytes)
      → read_entries keys_enum_class on_field left seen m (psbt_separator ++ rest)
        ≡ (handle_all [] m >>= λ m'. ok (m', rest))
  unfolding read_entries handle_all
  read_nothing zero seen m rest = rw (read_end rest)
  read_nothing (suc left) seen m rest = rw (read_end rest)

  read_front :
      (e : Entry) (es : List Entry) (left : ℕ) (seen : List Bytes) (m : Keymap Fields)
      (a t rest : Bytes)
      → IsEntry e
      → write_entry e ≡ ok a
      → contains seen (field_key e) ≡ false
      → ((m' : Keymap Fields)
          → read_entries keys_enum_class on_field left
              (field_key e ∷ seen)
              m'
              (t ++ (psbt_separator ++ rest))
            ≡ (handle_all es m' >>= λ m''. ok (m'', rest)))
      → read_entries keys_enum_class on_field
          (suc left)
          seen
          m
          ((a ++ t) ++ (psbt_separator ++ rest))
        ≡ (handle_all (e ∷ es) m >>= λ m'. ok (m', rest))
  unfolding handle_all
  read_front e es left seen m a t rest valid w new reads =
      ap (read_entries keys_enum_class on_field (suc left) seen m)
        (append_assoc a t (psbt_separator ++ rest))
      ∙ read_entry e left seen m a (t ++ (psbt_separator ++ rest)) valid w new
      ∙ bind_both (handle keys_enum_class on_field e.key_type e.key_data e.value m) _ _ _ reads

  -- Entries that are written have been handled when reading is done, and what follows the separator is
  -- left. An error is that of the first entry whose handling raises one.
  pub read_entries-serialize_all :
      (es : List Entry) (left : ℕ) (seen : List Bytes) (m : Keymap Fields) (s rest : Bytes)
      → All IsEntry es
      → AreFresh seen es
      → length es ≤ left
      → serialize_all write_entry es ≡ ok s
      → read_entries keys_enum_class on_field left seen m (s ++ (psbt_separator ++ rest))
        ≡ (handle_all es m >>= λ m'. ok (m', rest))
  unfolding serialize_all
  read_entries-serialize_all [] zero seen m s rest valid fresh few h =
      let nil : s ≡ [] = cc in rw nil (read_nothing zero seen m rest)
  read_entries-serialize_all [] (suc left) seen m s rest valid fresh few h =
      let nil : s ≡ [] = cc in rw nil (read_nothing (suc left) seen m rest)
  read_entries-serialize_all (e ∷ es) zero seen m s rest valid fresh few h = ground (arith, few)
  read_entries-serialize_all (e ∷ es) (suc left) seen m s rest valid fresh few h =
      let (a, w, h') = >>=-eq-ok (write_entry e) _ h in
      let (t, w', h'') = >>=-eq-ok (serialize_all write_entry es) _ h' in
      let cut : s ≡ a ++ t = cc in
      rw cut (
        read_front e es left seen m a t rest valid.0 w fresh.0 λ m'.
          read_entries-serialize_all es left (field_key e ∷ seen) m' t rest valid.1 fresh.1
            (omega (arith, few)) w')
