-- ===== src/Psbt.antt =====
-- bitcointx/core/psbt.py: the maps of keys and values that a partially signed transaction consists of.
--
-- The generator that reads a map is a loop with the body of the `for` that consumes it as an argument
-- (`on_field`). The dicts and lists that both change are one record.
pub mod Derivation
pub mod Entries
pub mod Refused
pub mod Output
use python_bitcointx.Prelude.{
  ℕ, zero, suc, Bool, true, false, not, Option, none, some, List, [], ◌∷◌, ◌++◌, Bytes, bytes_eq,
  ◌==◌, if◌then◌else◌,
}
use python_bitcointx.Prelude.Int.{pos}
use python_bitcointx.Result.{Result, ok, err, ◌>>=◌, ◌>>◌, guard, serialization_error}
use python_bitcointx.Serialize.{
  Reader, Writer, serialize_varint, deserialize_varint, serialize_bytes, deserialize_bytes,
  serialize_all,
}
use python_bitcointx.Tx.Check.{contains}

abbrev pub psbt_separator : Bytes
psbt_separator = 0 ∷ []

abbrev pub max_psbt_map_entries : ℕ
max_psbt_map_entries = 10000

abbrev pub psbt_proprietary_type : ℕ
psbt_proprietary_type = 0xfc

-- PSBT_ProprietaryTypeData
pub record ProprietaryData : Type 0 where
  pub subtype : ℕ
  pub key_data : Bytes
  pub value : Bytes

-- PSBT_UnknownTypeData
pub record UnknownData : Type 0 where
  pub key_type : ℕ
  pub key_data : Bytes
  pub value : Bytes

-- A dict from prefixes to lists, in the order of insertion.
abbrev pub ProprietaryFields : Type 0
ProprietaryFields = List (Bytes × List ProprietaryData)

-- What reading a map changes: the fields of the two kinds that the generator keeps, and those of the
-- consumer.
pub record Keymap (Fields : Type 0) : Type 0 where
  pub proprietary_fields : ProprietaryFields
  pub unknown_fields : List UnknownData
  pub fields : Fields

-- `d[prefix].append(field)` where the prefix is a key, else `d[prefix] = [field]`
unfoldable pub add_proprietary : Bytes → ProprietaryData → ProprietaryFields → ProprietaryFields
add_proprietary prefix field [] = (prefix, field ∷ []) ∷ []
add_proprietary prefix field ((p, fs) ∷ ps) =
    if bytes_eq p prefix
    then (p, fs ++ (field ∷ [])) ∷ ps
    else (p, fs) ∷ add_proprietary prefix field ps

unfoldable pub stream_serialize_field : ℕ → (key_data value : Bytes) → Result Bytes
stream_serialize_field key_type key_data value = do
  t ← serialize_varint (pos key_type)
  k ← serialize_bytes (t ++ key_data)
  v ← serialize_bytes value
  ok (k ++ v)

-- The key of a proprietary field, behind its type.
unfoldable pub proprietary_key : Bytes → ProprietaryData → Result Bytes
proprietary_key prefix d = do
  p ← serialize_bytes prefix
  s ← serialize_varint (pos d.subtype)
  ok (p ++ s ++ d.key_data)

unfoldable pub serialize_proprietary : Bytes → Writer ProprietaryData
serialize_proprietary prefix d = do
  k ← proprietary_key prefix d
  stream_serialize_field psbt_proprietary_type k d.value

unfoldable pub stream_serialize_proprietary_fields : Writer ProprietaryFields
stream_serialize_proprietary_fields =
    serialize_all λ p. serialize_all (serialize_proprietary p.0) p.1

unfoldable pub stream_serialize_unknown_fields : Writer (List UnknownData)
stream_serialize_unknown_fields =
    serialize_all λ d. stream_serialize_field d.key_type d.key_data d.value

unfoldable pub same_proprietary : ProprietaryData → ProprietaryData → Bool
same_proprietary a b =
    if a.subtype == b.subtype
    then (if bytes_eq a.key_data b.key_data then bytes_eq a.value b.value else false)
    else false

unfoldable pub same_unknown : UnknownData → UnknownData → Bool
same_unknown a b =
    if a.key_type == b.key_type
    then (if bytes_eq a.key_data b.key_data then bytes_eq a.value b.value else false)
    else false

-- `a in s`
unfoldable pub is_among {ℓ} : {A : Type ℓ} → (A → A → Bool) → A → List A → Bool
is_among same a [] = false
is_among same a (b ∷ bs) = if same b a then true else is_among same a bs

-- The elements that a loop over `src` appends: those not in `dst_set`, which it does not change.
unfoldable pub not_in {ℓ} : {A : Type ℓ} → (A → A → Bool) → (dst_set src : List A) → List A
not_in same dst_set [] = []
not_in same dst_set (a ∷ rest) =
    if is_among same a dst_set then not_in same dst_set rest else a ∷ not_in same dst_set rest

-- `set()` or `set(dst)`
unfoldable pub dst_set_of {ℓ} : {A : Type ℓ} → (allow_duplicates : Bool) → List A → List A
dst_set_of true dst = []
dst_set_of false dst = dst

-- One prefix of the source: its fields are appended to those of the prefix, which is made if it is
-- missing.
unfoldable pub merge_prefix :
    (allow_duplicates : Bool) → Bytes → List ProprietaryData → ProprietaryFields → ProprietaryFields
merge_prefix allow prefix propdata_list [] = (prefix, not_in same_proprietary [] propdata_list) ∷ []
merge_prefix allow prefix propdata_list ((p, fs) ∷ ps) =
    if bytes_eq p prefix
    then (p, fs ++ not_in same_proprietary (dst_set_of allow fs) propdata_list) ∷ ps
    else (p, fs) ∷ merge_prefix allow prefix propdata_list ps

unfoldable pub merge_proprietary_fields :
    (dst src : ProprietaryFields) → (allow_duplicates : Bool) → ProprietaryFields
merge_proprietary_fields dst [] allow = dst
merge_proprietary_fields dst ((prefix, fs) ∷ src) allow =
    merge_proprietary_fields (merge_prefix allow prefix fs dst) src allow

unfoldable pub merge_unknown_fields :
    (dst src : List UnknownData) → (allow_duplicates : Bool) → List UnknownData
merge_unknown_fields dst src allow = dst ++ not_in same_unknown (dst_set_of allow dst) src

unfoldable pub ensure_empty_key_data : Bytes → Result (Unit {0})
ensure_empty_key_data [] = ok tt
ensure_empty_key_data (b ∷ bs) = err serialization_error

module _ {KeyType Fields : Type 0} (keys_enum_class : ℕ → Option KeyType)
    (on_field : KeyType → (key_data value : Bytes) → Fields → Result Fields) where
  -- A field that is not a proprietary one: the consumer has those with a type of the class.
  unfoldable pub handle_typed :
      Option KeyType → ℕ → (key_data value : Bytes) → Keymap Fields → Result (Keymap Fields)
  handle_typed none key_type key_data value m = ok record m {
    unknown_fields =
        m.unknown_fields
        ++ ((record { key_type = key_type; key_data = key_data; value = value }) ∷ []);
  }
  handle_typed (some kt) key_type key_data value m = do
    fs ← on_field kt key_data value m.fields
    ok record m { fields = fs }

  -- What is done with a key, cut into its type and its data, and a value.
  unfoldable pub handle : ℕ → (key_data value : Bytes) → Keymap Fields → Result (Keymap Fields)
  handle key_type key_data value m =
      if key_type == psbt_proprietary_type
      then (do
        (prefix, tail) ← deserialize_bytes false key_data
        (subtype, kd) ← deserialize_varint true tail
        ok record m {
          proprietary_fields =
              add_proprietary prefix (record { subtype = subtype; key_data = kd; value = value })
                m.proprietary_fields;
        })
      else handle_typed (keys_enum_class key_type) key_type key_data value m

  -- The loop of read_psbt_keymap, from the bytes of an entry's key on; an empty key ends the map.
  -- `left` is the number of entries that the limit still allows.
  unfoldable pub read_entries :
      (left : ℕ) → (keys_seen : List Bytes) → Keymap Fields → Reader (Keymap Fields)
  read_entries zero keys_seen m f = do
    (key, f') ← deserialize_bytes false f
    elim key [ [] ↦ ok (m, f') | b ∷ bs ↦ err serialization_error ]
  read_entries (suc left) keys_seen m f = do
    (key, f') ← deserialize_bytes false f
    elim key [
      | [] ↦ ok (m, f')
      | b ∷ bs ↦ (do
        guard (not (contains keys_seen (b ∷ bs))) serialization_error
        (key_type, key_data) ← deserialize_varint true (b ∷ bs)
        (value, f'') ← deserialize_bytes false f'
        m' ← handle key_type key_data value m
        read_entries left ((b ∷ bs) ∷ keys_seen) m' f'')
    ]

  unfoldable pub read_psbt_keymap : Keymap Fields → Reader (Keymap Fields)
  read_psbt_keymap = read_entries max_psbt_map_entries []
