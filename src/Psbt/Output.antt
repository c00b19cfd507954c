-- ===== src/Psbt/Output.antt =====
-- bitcointx/core/psbt.py: PSBT_Output, and the merging that it shares with PSBT_Input.
--
-- A public key is its bytes; whether it is valid on the curve is a parameter. `derivation_map` is the
-- list of the items of the dict. What a call that raises has changed before is not kept.
pub mod Written
pub mod Handled
pub mod RoundTrip
pub mod Merge
use python_bitcointx.Prelude.{
  ℕ, zero, suc, Bool, true, false, not, ◌&&◌, Option, none, some, List, [], ◌∷◌, ◌++◌, length,
  get_elem?, Bytes, bytes_eq, ◌==◌, if◌then◌else◌,
}
use python_bitcointx.Prelude.Int.{ℤ, pos, negsuc}
use python_bitcointx.Result.{
  Result, ok, err, ◌>>=◌, ◌>>◌, guard, serialization_error, assertion_error, value_error,
  index_error,
}
use python_bitcointx.Serialize.{Reader, Writer, serialize_all, deserialize}
use python_bitcointx.Script.Templates.{
  is_p2sh, is_p2pkh, is_witness_scriptpubkey, is_witness_v0_keyhash, is_witness_v0_scripthash,
}
use python_bitcointx.Tx.{TxOut, Transaction}
use python_bitcointx.Tx.Check.{money_range}
use python_bitcointx.Psbt.{
  ProprietaryFields, UnknownData, Keymap, stream_serialize_field,
  stream_serialize_proprietary_fields, stream_serialize_unknown_fields, merge_proprietary_fields,
  merge_unknown_fields, ensure_empty_key_data, read_psbt_keymap, psbt_separator,
}
use python_bitcointx.Psbt.Derivation.{
  KeyDerivationInfo, clone_info, serialize_info, deserialize_info,
}

-- PSBT_OutKeyType
pub data OutKeyType : Type 0 where
  redeem_script_type witness_script_type bip32_derivation_type : OutKeyType

unfoldable pub key_type_value : OutKeyType → ℕ
key_type_value redeem_script_type = 0
key_type_value witness_script_type = 1
key_type_value bip32_derivation_type = 2

unfoldable pub out_key_type : ℕ → Option OutKeyType
out_key_type zero = some redeem_script_type
out_key_type (suc zero) = some witness_script_type
out_key_type (suc (suc zero)) = some bip32_derivation_type
out_key_type (suc (suc (suc n))) = none

abbrev pub DerivationMap : Type 0
DerivationMap = List (Bytes × KeyDerivationInfo)

-- PSBT_Output
pub record Output : Type 0 where
  pub index : Option ℕ
  pub redeem_script : Bytes
  pub witness_script : Bytes
  pub derivation_map : DerivationMap
  pub proprietary_fields : ProprietaryFields
  pub unknown_fields : List UnknownData

-- PSBT_Output.__init__ without arguments
abbrev pub new_output : Output
new_output = record {
  index = none;
  redeem_script = [];
  witness_script = [];
  derivation_map = [];
  proprietary_fields = [];
  unknown_fields = [];
}

unfoldable pub is_empty {ℓ} : {A : Type ℓ} → List A → Bool
is_empty [] = true
is_empty (x ∷ xs) = false

unfoldable pub is_null : Output → Bool
is_null o =
    is_empty o.redeem_script
    && is_empty o.witness_script
    && is_empty o.derivation_map
    && is_empty o.proprietary_fields
    && is_empty o.unknown_fields

-- `derivation_map[pub]`, where the key is there
unfoldable pub get_info : Bytes → DerivationMap → Option KeyDerivationInfo
get_info key [] = none
get_info key ((k, info) ∷ items) = if bytes_eq k key then some info else get_info key items

unfoldable pub merge_index : (dst src : Option ℕ) → Result (Option ℕ)
merge_index none src = ok src
merge_index (some i) none = ok (some i)
merge_index (some i) (some j) = do guard (i == j) value_error; ok (some i)

-- A script is taken over if there is none, and has to be the same if both have one.
unfoldable pub merge_script : (dst src : Bytes) → Result Bytes
merge_script [] src = ok src
merge_script (b ∷ bs) [] = ok (b ∷ bs)
merge_script (b ∷ bs) (c ∷ cs) = do guard (bytes_eq (b ∷ bs) (c ∷ cs)) value_error; ok (b ∷ bs)

-- One item of the source, for what the destination has under its key.
unfoldable pub merge_info :
    DerivationMap → Bytes → KeyDerivationInfo → Option KeyDerivationInfo → Result DerivationMap
merge_info dst key info none = do copy ← clone_info info; ok (dst ++ ((key, copy) ∷ []))
merge_info dst key info (some old) = do
  guard (bytes_eq old.master_fp info.master_fp) value_error
  guard (bytes_eq old.path.indexes info.path.indexes) value_error
  s ← serialize_info old
  t ← serialize_info info
  guard (bytes_eq s t) assertion_error
  ok dst

unfoldable pub merge_derivation_map : (dst src : DerivationMap) → Result DerivationMap
merge_derivation_map dst [] = ok dst
merge_derivation_map dst ((key, info) ∷ src) = do
  dst' ← merge_info dst key info (get_info key dst)
  merge_derivation_map dst' src

-- merge_input_output_common_fields
unfoldable pub merge_common_fields : (dst src : Output) → Result Output
merge_common_fields dst src = do
  i ← merge_index dst.index src.index
  rds ← merge_script dst.redeem_script src.redeem_script
  ws ← merge_script dst.witness_script src.witness_script
  infos ← merge_derivation_map dst.derivation_map src.derivation_map
  ok record dst { index = i; redeem_script = rds; witness_script = ws; derivation_map = infos }

unfoldable pub merge : (self other : Output) → (allow_blob_duplicates : Bool) → Result Output
merge self other allow_blob_duplicates = do
  o ← merge_common_fields self other
  ok record o {
    proprietary_fields =
        merge_proprietary_fields o.proprietary_fields other.proprietary_fields
          allow_blob_duplicates;
    unknown_fields =
        merge_unknown_fields o.unknown_fields other.unknown_fields allow_blob_duplicates;
  }

-- from_instance, and clone
unfoldable pub clone : Output → Result Output
clone o = merge new_output o true

-- What a script of an output's transaction, or one nested in p2sh, lets stand beside it, if it is a
-- witness script.
unfoldable pub check_witness_script : (spk ws : Bytes) → Result (Unit {0})
check_witness_script spk ws =
    if is_witness_v0_keyhash spk
    then guard (is_empty ws) value_error
    else if is_witness_v0_scripthash spk
    then guard (not (is_empty ws)) value_error
    else err value_error

unfoldable pub check_scripts : (spk rds ws : Bytes) → Result (Unit {0})
check_scripts spk rds ws =
    if is_witness_scriptpubkey spk
    then (do guard (is_empty rds) value_error; check_witness_script spk ws)
    else if is_p2pkh spk
    then (do guard (is_empty rds) value_error; guard (is_empty ws) value_error)
    else if is_p2sh spk
    then (do
      guard (not (is_empty rds)) value_error
      if is_witness_scriptpubkey rds
          then check_witness_script rds ws
          else guard (is_empty ws) value_error)
    else err value_error

unfoldable pub check_txout : (rds ws : Bytes) → Option TxOut → Result (Unit {0})
check_txout rds ws none = err index_error
check_txout rds ws (some vout) = do
  guard (money_range vout.n_value) value_error
  if is_empty rds && is_empty ws then ok tt else check_scripts vout.script_pubkey rds ws

-- The checks, for the index of the output.
unfoldable pub check_at : Output → Transaction → Option ℕ → Result (Unit {0})
check_at o unsigned_tx none = err value_error
check_at o unsigned_tx (some i) =
    check_txout o.redeem_script o.witness_script (get_elem? unsigned_tx.vout i)

-- PSBT_Output._check_sanity
unfoldable pub check_sanity : Output → Transaction → Result (Unit {0})
check_sanity o unsigned_tx = check_at o unsigned_tx o.index

-- The variables of stream_deserialize that the loop assigns.
pub record OutputFields : Type 0 where
  pub redeem_script : Bytes
  pub witness_script : Bytes
  pub derivation_map : DerivationMap

abbrev pub new_keymap : Keymap OutputFields
new_keymap = record {
  proprietary_fields = [];
  unknown_fields = [];
  fields = record { redeem_script = []; witness_script = []; derivation_map = [] };
}

unfoldable pub has_info : Option KeyDerivationInfo → Bool
has_info none = false
has_info (some info) = true

-- `if self.redeem_script: ...`, and the same for the witness script
unfoldable pub serialize_script : OutKeyType → Writer Bytes
serialize_script key_type [] = ok []
serialize_script key_type (b ∷ bs) = stream_serialize_field (key_type_value key_type) [] (b ∷ bs)

module _ (is_fullyvalid : Bytes → Bool) where
  -- The body of the loop over the map.
  unfoldable pub on_output_field :
      OutKeyType → (key_data value : Bytes) → OutputFields → Result OutputFields
  on_output_field redeem_script_type key_data value s = do
    ensure_empty_key_data key_data
    ok record s { redeem_script = value }
  on_output_field witness_script_type key_data value s = do
    ensure_empty_key_data key_data
    ok record s { witness_script = value }
  on_output_field bip32_derivation_type key value s = do
    guard (is_fullyvalid key) serialization_error
    guard (not (has_info (get_info key s.derivation_map))) assertion_error
    info ← deserialize deserialize_info value false
    ok record s { derivation_map = s.derivation_map ++ ((key, info) ∷ []) }

  unfoldable pub deserialize_output : (index : ℤ) → Reader Output
  deserialize_output (negsuc i) f = err value_error
  deserialize_output (pos i) f = do
    (m, f') ← read_psbt_keymap out_key_type on_output_field new_keymap f
    ok (
      record {
        index = some i;
        redeem_script = m.fields.redeem_script;
        witness_script = m.fields.witness_script;
        derivation_map = m.fields.derivation_map;
        proprietary_fields = m.proprietary_fields;
        unknown_fields = m.unknown_fields;
      },
      f',
    )

  unfoldable pub serialize_derivation : Writer (Bytes × KeyDerivationInfo)
  serialize_derivation (key, info) = do
    guard (is_fullyvalid key) assertion_error
    s ← serialize_info info
    stream_serialize_field (key_type_value bip32_derivation_type) key s

  unfoldable pub serialize_output : Writer Output
  serialize_output o = do
    r ← serialize_script redeem_script_type o.redeem_script
    w ← serialize_script witness_script_type o.witness_script
    d ← serialize_all serialize_derivation o.derivation_map
    p ← stream_serialize_proprietary_fields o.proprietary_fields
    u ← stream_serialize_unknown_fields o.unknown_fields
    ok (r ++ w ++ d ++ p ++ u ++ psbt_separator)
