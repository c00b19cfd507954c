-- ===== src/Tests/Partial.antt =====
-- The theorems on the outputs of partially signed transactions, at concrete inputs.
use python_bitcointx.Prelude.{
  ℕ, inr, ◌≡◌, refl, Bool, true, false, some, [], ◌∷◌, ◌++◌, Bytes, arith, All,
}
use python_bitcointx.Prelude.Int.{pos}
use python_bitcointx.Result.{ok, err, serialization_error}
use python_bitcointx.Serialize.VarInt.{compact_size}
use python_bitcointx.Struct.{le_bytes}
use python_bitcointx.Tx.Check.{contains}
use python_bitcointx.Psbt.{Keymap, read_psbt_keymap, stream_serialize_field, handle, handle_typed}
use python_bitcointx.Serialize.{serialize_all, serialize_bytes, serialize_varint}
use python_bitcointx.Psbt.Derivation.{KeyDerivationInfo}
use python_bitcointx.Psbt.Derivation.RoundTrip.{IsInfo}
use python_bitcointx.Psbt.Entries.{Entry, field_key, IsEntry, write_entry, handle_all}
use python_bitcointx.Psbt.Output.{
  OutputFields, new_keymap, on_output_field, Output, new_output, clone, merge, serialize_output,
  deserialize_output, key_type_value, out_key_type,
}
use python_bitcointx.Psbt.Output.Written.{
  script_entries, index_bytes, derivation_entry, proprietary_entry, proprietary_entries,
  unknown_entry,
}
use python_bitcointx.Psbt.Output.RoundTrip.{output_entries, IsOutput, output_round_trip}
use python_bitcointx.Psbt.Refused.{seen_by, keymap_refused}
use python_bitcointx.Psbt.Output.Merge.{IsMergeable, merge_identities}

abbrev any_key : Bytes → Bool
any_key key = true

-- The key of a wallet, at m/0'/5.
abbrev wallet_info : KeyDerivationInfo
wallet_info = record {
  master_fp = 1 ∷ 2 ∷ 3 ∷ 4 ∷ [];
  path = record { indexes = 0x80000000 ∷ 5 ∷ []; hardened_marker = 0x27; is_partial = false };
}

abbrev change_output : Output
change_output = record {
  index = some 1;
  redeem_script = 0x51 ∷ [];
  witness_script = [];
  derivation_map = (2 ∷ 9 ∷ [], wallet_info) ∷ [];
  proprietary_fields =
      (
        7 ∷ [],
        (record { subtype = 300; key_data = 8 ∷ []; value = [] })
            ∷ (record { subtype = 0; key_data = []; value = 6 ∷ [] })
            ∷ [],
      )
      ∷ [];
  unknown_fields = (record { key_type = 5; key_data = []; value = 1 ∷ [] }) ∷ [];
}

wallet_info-IsInfo : IsInfo wallet_info
wallet_info-IsInfo = record {
  fingerprint = refl;
  full = refl;
  marked = refl;
  sized = omega arith;
  bounded = (omega arith, (omega arith, tt));
}

change_output-encoded : All IsEntry (output_entries change_output)
unfolding output_entries script_entries derivation_entry index_bytes proprietary_entry
    proprietary_entries unknown_entry field_key compact_size le_bytes key_type_value
change_output-encoded = (
  record { typed = omega arith; key_short = omega arith; value_short = omega arith },
  (
    record { typed = omega arith; key_short = omega arith; value_short = omega arith },
    (
      record { typed = omega arith; key_short = omega arith; value_short = omega arith },
      (
        record { typed = omega arith; key_short = omega arith; value_short = omega arith },
        (record { typed = omega arith; key_short = omega arith; value_short = omega arith }, tt),
      ),
    ),
  ),
)

change_output-IsOutput : IsOutput any_key change_output
unfolding output_entries script_entries derivation_entry index_bytes proprietary_entry
    proprietary_entries unknown_entry field_key compact_size le_bytes key_type_value contains
    out_key_type
change_output-IsOutput = record {
  encoded = change_output-encoded;
  fresh = (refl, (refl, (refl, (refl, (refl, tt)))));
  few = omega arith;
  items = ((refl, wallet_info-IsInfo), tt);
  new_keys = (refl, tt);
  groups = ((((omega arith, omega arith), ((omega arith, omega arith), tt)), λ e. cc), tt);
  new_prefixes = (refl, tt);
  unknown = ((refl, λ e. omega (arith, e)), tt);
}

output_round_trip_example :
    (s : Bytes) × (serialize_output any_key change_output ≡ ok s)
    × (deserialize_output any_key (pos 1) (s ++ (9 ∷ [])) ≡ ok (change_output, 9 ∷ []))
output_round_trip_example =
    output_round_trip any_key change_output 1 (9 ∷ []) change_output-IsOutput refl

change_output-IsMergeable : IsMergeable change_output
unfolding contains
change_output-IsMergeable = record {
  infos = (wallet_info-IsInfo, tt);
  new_keys = (refl, tt);
  new_prefixes = (refl, tt);
}

merge_identities_example :
    (clone change_output ≡ ok change_output)
    × ((allow : Bool) → merge new_output change_output allow ≡ ok change_output)
    × (merge change_output change_output false ≡ ok change_output)
merge_identities_example = merge_identities change_output change_output-IsMergeable

abbrev unknown_5 : Bytes → Entry
unknown_5 value = record { key_type = 5; key_data = []; value = value }

-- An output of one unknown field.
abbrev one_unknown : Keymap OutputFields
one_unknown = record {
  proprietary_fields = [];
  unknown_fields = (record { key_type = 5; key_data = []; value = 1 ∷ [] }) ∷ [];
  fields = record { redeem_script = []; witness_script = []; derivation_map = [] };
}

unknown_5-IsEntry : (b : ℕ) → IsEntry (unknown_5 (b ∷ []))
unfolding field_key compact_size
unknown_5-IsEntry b = record {
  typed = omega arith;
  key_short = omega arith;
  value_short = omega arith;
}

unknown_5_written :
    (serialize_all write_entry (unknown_5 (1 ∷ []) ∷ []) ≡ ok (1 ∷ 5 ∷ 1 ∷ 1 ∷ []))
    × (write_entry (unknown_5 (2 ∷ [])) ≡ ok (1 ∷ 5 ∷ 1 ∷ 2 ∷ []))
unfolding serialize_all write_entry stream_serialize_field serialize_bytes serialize_varint
unknown_5_written = (refl, refl)

unknown_5_handled :
    handle_all out_key_type (on_output_field any_key) (unknown_5 (1 ∷ []) ∷ []) new_keymap
    ≡ ok one_unknown
unfolding handle_all handle handle_typed out_key_type
unknown_5_handled = refl

keymap_refused_example :
    read_psbt_keymap out_key_type
      (on_output_field any_key)
      new_keymap
      ((1 ∷ 5 ∷ 1 ∷ 1 ∷ []) ++ ((1 ∷ 5 ∷ 1 ∷ 2 ∷ []) ++ (0 ∷ [])))
    ≡ err serialization_error
keymap_refused_example =
    keymap_refused out_key_type (on_output_field any_key) (unknown_5 (1 ∷ []) ∷ [])
      (unknown_5 (2 ∷ [])) new_keymap one_unknown (1 ∷ 5 ∷ 1 ∷ 1 ∷ []) (1 ∷ 5 ∷ 1 ∷ 2 ∷ []) (0 ∷ [])
      (unknown_5-IsEntry 1, tt) (unfold contains in (refl, tt)) (omega arith) (unknown_5_written.0)
      unknown_5_handled (unknown_5-IsEntry 2) (unknown_5_written.1)
      (inr (unfold contains seen_by field_key compact_size in refl))
