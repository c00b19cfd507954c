-- ===== src/Tests/Addresses.antt =====
-- The theorems on addresses, multisig scripts, sizes and lax DER, at concrete inputs.
use python_bitcointx.Prelude.{
  ℕ, ◌+◌, ◌-◌, ◌*◌, ◌/◌, ◌≡◌, ◌≢◌, refl, Bool, true, false, some, List, [], ◌∷◌, ◌++◌, length,
  Bytes, replicate, take, arith, if◌then◌else◌,
}
use python_bitcointx.Prelude.Int.{pos}
use python_bitcointx.Result.{ok, err, index_error, value_error}
use python_bitcointx.Serialize.{serialize_all}
use python_bitcointx.Script.Build.{serialize_witness}
use python_bitcointx.Script.Multisig.{
  all_different, standard_multisig_redeem_script, parse_standard_multisig_redeem_script,
}
use python_bitcointx.Script.Multisig.RoundTrip.{standard_multisig_round_trip}
use python_bitcointx.Tx.{Transaction, serialize_tx, serialize_txin, serialize_txout}
use python_bitcointx.Tx.Size.{calculate_transaction_virtual_size}
use python_bitcointx.Tx.Size.Weight.{virtual_size-serialize_tx}
use python_bitcointx.Address.Base58
use python_bitcointx.Address.Base58.RoundTrip.{decode-encode}
use python_bitcointx.Address.Base58.Checked.{from_string-to_string}
use python_bitcointx.Address.Segwit
use python_bitcointx.Address.Segwit.Bits.{convertbits_round_trip}
use python_bitcointx.Address.Segwit.RoundTrip.{IsProgram, decode-encode_program}
use python_bitcointx.DerLax.{raises, goes_on, parse_der_lax, read_parts}
use python_bitcointx.DerLax.Bounds.{parse_der_lax_never_raises}
use python_bitcointx.DerLax.Strict.{strict_read_parts}
use python_bitcointx.Eval.Signature.{is_valid_signature_encoding, is_valid_parts, is_der_integer}
use python_bitcointx.Address.{backwards}
use python_bitcointx.Address.Digits.{divmods, from_digits}
use python_bitcointx.Script.{encode_op_n, encode_op_pushdata}
use python_bitcointx.Script.Build.{make_script}
use python_bitcointx.Script.Multisig.{check_pubkeys, pushed_keys}
use python_bitcointx.Struct.{pack, pack_signed, fits_signed, le_bytes, to_word}
use python_bitcointx.Serialize.{serialize_vector, serialize_varint, serialize_bytes}
use python_bitcointx.Tx.{
  serialize_body, has_witness, wit_is_null, serialize_inputs_outputs, serialize_outpoint,
}

decode-encode_example :
    Base58.decode (Base58.encode (0 ∷ 0 ∷ 3 ∷ 200 ∷ [])) ≡ ok (0 ∷ 0 ∷ 3 ∷ 200 ∷ [])
unfolding Base58.encode Base58.count_leading backwards divmods from_digits
decode-encode_example = decode-encode (0 ∷ 0 ∷ 3 ∷ 200 ∷ []) (omega arith) (omega arith)

-- A toy hash of four bytes.
abbrev four_bytes : Bytes → Bytes
four_bytes s = 1 ∷ 2 ∷ 3 ∷ length s ∷ []

from_string-to_string_example :
    Base58.from_string four_bytes
      ((5 ∷ []) ∷ [])
      (Base58.to_string four_bytes (5 ∷ []) (8 ∷ 9 ∷ []))
    ≡ ok (5 ∷ [], 8 ∷ 9 ∷ [])
unfolding Base58.to_string Base58.encode Base58.count_leading backwards divmods from_digits
from_string-to_string_example =
    from_string-to_string four_bytes (5 ∷ []) (8 ∷ 9 ∷ []) [] (omega arith) (omega arith)
      (omega arith) (omega arith) (omega arith)

-- `bc`
abbrev mainnet_hrp : List ℕ
mainnet_hrp = 0x62 ∷ 0x63 ∷ []

convertbits_round_trip_example :
    (g : List ℕ) × (Segwit.convertbits (255 ∷ 1 ∷ []) 8 5 true ≡ some g)
    × (Segwit.convertbits g 5 8 false ≡ some (255 ∷ 1 ∷ []))
convertbits_round_trip_example = convertbits_round_trip (255 ∷ 1 ∷ []) (omega arith)

abbrev short_program : Bytes
short_program = 17 ∷ 250 ∷ []

short_program-IsProgram : IsProgram 16 short_program
short_program-IsProgram = record {
  version = omega arith;
  least = omega arith;
  most = omega arith;
  version_0 = λ e. absurd (omega (arith, e));
  bytes = (omega arith, (omega arith, tt));
}

decode-encode_program_example :
    (s : List ℕ) × (Segwit.encode mainnet_hrp 16 short_program ≡ some s)
    × (Segwit.decode mainnet_hrp s ≡ some (16, short_program))
unfolding Segwit.lower
decode-encode_program_example =
    decode-encode_program mainnet_hrp 16 short_program ((refl, refl), ((refl, refl), tt))
      (omega arith) (omega arith) short_program-IsProgram

-- A check of keys that takes those of two bytes.
abbrev two_bytes : Bytes → Bool
two_bytes (x ∷ y ∷ []) = true
two_bytes other = false

abbrev two_keys : List Bytes
two_keys = (2 ∷ 7 ∷ []) ∷ (3 ∷ 8 ∷ []) ∷ []

abbrev redeem_script : Bytes
redeem_script = 0x51 ∷ 2 ∷ 2 ∷ 7 ∷ 2 ∷ 3 ∷ 8 ∷ 0x52 ∷ 0xae ∷ []

two_keys_script :
    standard_multisig_redeem_script two_bytes (pos 2) (pos 1) two_keys true ≡ ok redeem_script
unfolding standard_multisig_redeem_script check_pubkeys make_script encode_op_n pushed_keys
    encode_op_pushdata
two_keys_script = refl

standard_multisig_round_trip_example :
    (n : ℕ) × (pos 1 ≡ pos n)
    × (pos 2 ≡ pos (length two_keys))
    × (parse_standard_multisig_redeem_script two_bytes redeem_script ≡ (
        if all_different two_keys
        then ok (record { required = n; pubkeys = two_keys })
        else err value_error))
standard_multisig_round_trip_example =
    standard_multisig_round_trip two_bytes (pos 2) (pos 1) two_keys true redeem_script refl
      (omega arith) two_keys_script

abbrev one_input : Transaction
one_input = record {
  n_version = pos 2;
  vin =
      record { prevout = record { hash = replicate 32 7; n = 0 }; script_sig = []; n_sequence = 5 }
      ∷ [];
  vout = record { n_value = pos 5000; script_pubkey = 0x51 ∷ [] } ∷ [];
  n_lock_time = 0;
  wit = ((9 ∷ []) ∷ []) ∷ [];
}

abbrev stripped : Bytes
stripped =
    (2 ∷ 0 ∷ 0 ∷ 0 ∷ 1 ∷ replicate 32 7)
    ++ (replicate 4 0
        ++ (0 ∷ 5 ∷ 0 ∷ 0 ∷ 0 ∷ 1 ∷ 136 ∷ 19 ∷ 0 ∷ 0 ∷ 0 ∷ 0 ∷ 0 ∷ 0 ∷ 1 ∷ 0x51 ∷ replicate 4 0))

abbrev full : Bytes
full =
    (2 ∷ 0 ∷ 0 ∷ 0 ∷ 0 ∷ 1 ∷ 1 ∷ replicate 32 7)
    ++ (replicate 4 0
        ++ (0
            ∷ 5
            ∷ 0
            ∷ 0
            ∷ 0
            ∷ 1
            ∷ 136
            ∷ 19
            ∷ 0
            ∷ 0
            ∷ 0
            ∷ 0
            ∷ 0
            ∷ 0
            ∷ 1
            ∷ 0x51
            ∷ 1
            ∷ 1
            ∷ 9
            ∷ replicate 4 0))

full-eq : serialize_tx true one_input ≡ ok full
unfolding serialize_tx pack_signed fits_signed serialize_body has_witness wit_is_null
    serialize_inputs_outputs serialize_vector serialize_varint serialize_all serialize_txin
    serialize_outpoint pack serialize_bytes serialize_txout serialize_witness le_bytes to_word
full-eq = refl

stripped-eq : serialize_tx false one_input ≡ ok stripped
unfolding serialize_tx pack_signed fits_signed serialize_body has_witness wit_is_null
    serialize_inputs_outputs serialize_vector serialize_varint serialize_all serialize_txin
    serialize_outpoint pack serialize_bytes serialize_txout serialize_witness le_bytes to_word
stripped-eq = refl

virtual_size-serialize_tx_example :
    (ins outs w : Bytes) × (serialize_all serialize_txin one_input.vin ≡ ok ins)
    × (serialize_all serialize_txout one_input.vout ≡ ok outs)
    × (serialize_all serialize_witness one_input.wit ≡ ok w)
    × (calculate_transaction_virtual_size 1 (length ins) 1 (length outs) (length w)
        ≡ ok ((length stripped * 3 + length full + 3) / 4))
virtual_size-serialize_tx_example =
    virtual_size-serialize_tx one_input full stripped refl full-eq stripped-eq

parse_der_lax_never_raises_example :
    parse_der_lax (λ b. (b, true)) (0x30 ∷ 0x85 ∷ 2 ∷ []) ≢ raises index_error
parse_der_lax_never_raises_example =
    parse_der_lax_never_raises (λ b. (b, true)) (0x30 ∷ 0x85 ∷ 2 ∷ []) index_error

abbrev small_signature : Bytes
small_signature = 0x30 ∷ 6 ∷ 2 ∷ 1 ∷ 5 ∷ 2 ∷ 1 ∷ 6 ∷ 1 ∷ []

strict_read_parts_example :
    read_parts (take (length small_signature - 1) small_signature)
    ≡ goes_on (record { rpos = 4; rlen = 1; spos = 7; slen = 1 })
unfolding is_valid_signature_encoding is_valid_parts is_der_integer
strict_read_parts_example = strict_read_parts small_signature refl
