-- ===== src/Tests/Spends.antt =====
-- The theorems on signature hashes and VerifySignature, at concrete inputs.
use python_bitcointx.Prelude.{
  ℕ, ◌≡◌, ◌≢◌, refl, none, some, List, [], ◌∷◌, Bytes, bytes_eq, replicate, take, arith, get_elem?,
}
use python_bitcointx.Prelude.Int.{pos}
use python_bitcointx.Result.{ok}
use python_bitcointx.Tx.{TxIn, TxOut, Transaction, get_txid}
use python_bitcointx.Eval.{witness_v0}
use python_bitcointx.Eval.Verify.{verify_script}
use python_bitcointx.SigHash.{
  anyone_can_pay, signs_single, signature_hash, base_hash, raw_bitcoin_signature_hash,
}
use python_bitcointx.SigHash.Commit.{base_hash-anyone_can_pay}
use python_bitcointx.SigHash.Segwit.{witness_v0-lock_time, signature_hash-without_script_sigs}
use python_bitcointx.SigHash.Schnorr.{
  TapArguments, taproot, hashtype_of, is_anyonecanpay, output_type, signature_hash_schnorr,
}
use python_bitcointx.SigHash.Schnorr.Single.{signature_hash_schnorr-anyone_can_pay}
use python_bitcointx.Spending.{Primitives, spend_of, verify_signature}
use python_bitcointx.Spending.Sound.{verify_signature_sound, verify_signature-no_witness}
use python_bitcointx.SigHash.{element}
use python_bitcointx.Tx.{
  has_witness, wit_is_null, serialize_tx, serialize_body, serialize_inputs_outputs, serialize_txout,
}
use python_bitcointx.Struct.{pack, pack_signed, fits_signed, le_bytes, to_word}
use python_bitcointx.Serialize.{serialize_vector, serialize_varint, serialize_all, serialize_bytes}
use python_bitcointx.Spending.{crypto_of}
use python_bitcointx.Script.{is_small_int, raw_iter, raw_iter_from, read_op}
use python_bitcointx.Script.Templates.{is_witness_scriptpubkey, is_p2sh}
use python_bitcointx.Eval.{check_exec, cast_to_bool}
use python_bitcointx.Eval.Step.{
  is_disabled, count_op, push_data, step, run, eval_script, catch_invalid, eval_script_raw, exec_op,
  stack_op,
}
use python_bitcointx.Prelude.Int.{◌-ℤ◌}
use python_bitcointx.Bignum.{
  bn2vch, bn2mpi, mpi2vch, bn_bytes, magnitude, needs_ext, bit_length, bit_length_loop, pack_be4,
  signed_bytes, bn2bin, bn2bin_loop, set_sign, is_negative,
}
use python_bitcointx.Eval.Verify.{verify_program, verify_p2sh_spend, check_top, check_end}

-- A toy hash.
abbrev digest : Bytes → Bytes
digest s = take 32 s

abbrev input_a : TxIn
input_a = record {
  prevout = record { hash = replicate 32 7; n = 0 };
  script_sig = 0x51 ∷ [];
  n_sequence = 5;
}

abbrev input_b : TxIn
input_b = record {
  prevout = record { hash = replicate 32 9; n = 1 };
  script_sig = [];
  n_sequence = 6;
}

-- The same outpoints, with other scripts and, for the second input, another sequence number.
abbrev signed_a : TxIn
signed_a = record { prevout = input_a.prevout; script_sig = []; n_sequence = 5 }

abbrev bumped_b : TxIn
bumped_b = record { prevout = input_b.prevout; script_sig = []; n_sequence = 4 }

abbrev pay : TxOut
pay = record { n_value = pos 5000; script_pubkey = 0x51 ∷ [] }

abbrev change : TxOut
change = record { n_value = pos 70; script_pubkey = 0x52 ∷ [] }

abbrev tx_of : List TxIn → List TxOut → ℕ → List (List Bytes) → Transaction
tx_of vin vout lock wit = record {
  n_version = pos 2;
  vin = vin;
  vout = vout;
  n_lock_time = lock;
  wit = wit;
}

abbrev two_inputs : Transaction
two_inputs = tx_of (input_a ∷ input_b ∷ []) (pay ∷ change ∷ []) 17 []

signature_hash-without_script_sigs_example :
    signature_hash digest (0x51 ∷ []) two_inputs (pos 0) 1 (some (pos 9)) witness_v0
    ≡ signature_hash digest
        (0x51 ∷ [])
        (tx_of (signed_a ∷ input_b ∷ []) (pay ∷ change ∷ []) 17 ([] ∷ [] ∷ []))
        (pos 0)
        1
        (some (pos 9))
        witness_v0
signature_hash-without_script_sigs_example =
    signature_hash-without_script_sigs digest (0x51 ∷ []) two_inputs
      (tx_of (signed_a ∷ input_b ∷ []) (pay ∷ change ∷ []) 17 ([] ∷ [] ∷ [])) (pos 0) 1
      (some (pos 9)) witness_v0 refl refl refl refl refl

-- SIGHASH_ALL with ANYONECANPAY: the input has become the only one.
base_hash-anyone_can_pay_example :
    base_hash digest (0x51 ∷ []) two_inputs 1 0x81
    ≡ base_hash digest (0x51 ∷ []) (tx_of (input_b ∷ []) (pay ∷ change ∷ []) 17 []) 0 0x81
unfolding anyone_can_pay signs_single
base_hash-anyone_can_pay_example =
    base_hash-anyone_can_pay digest (0x51 ∷ []) two_inputs
      (tx_of (input_b ∷ []) (pay ∷ change ∷ []) 17 []) 1 0 0x81 refl refl refl refl refl refl refl
      refl refl

abbrev far_lock : Transaction
far_lock = tx_of (input_a ∷ []) (pay ∷ []) 0x80000000 []

witness_v0-lock_time_example :
    raw_bitcoin_signature_hash digest (0x51 ∷ []) far_lock (pos 0) 1 (some (pos 9)) witness_v0
    ≢ ok ([], none)
witness_v0-lock_time_example =
    witness_v0-lock_time digest (0x51 ∷ []) far_lock (pos 0) 1 (some (pos 9)) ([], none)
      (omega arith)

abbrev tap_arguments : TapArguments
tap_arguments = record {
  hashtype = some 0x81;
  sigversion = taproot;
  tapleaf_hash = none;
  codeseparator_pos = pos 0;
  annex_hash = none;
}

signature_hash_schnorr-anyone_can_pay_example :
    signature_hash_schnorr digest digest two_inputs (pos 1) (pay ∷ change ∷ []) tap_arguments
    ≡ signature_hash_schnorr digest digest
        (tx_of (input_b ∷ []) (pay ∷ change ∷ []) 17 [])
        (pos 0)
        (change ∷ [])
        tap_arguments
unfolding hashtype_of is_anyonecanpay output_type
signature_hash_schnorr-anyone_can_pay_example =
    signature_hash_schnorr-anyone_can_pay digest digest two_inputs
      (tx_of (input_b ∷ []) (pay ∷ change ∷ []) 17 []) 1 0 (pay ∷ change ∷ []) (change ∷ [])
      tap_arguments refl refl refl refl refl refl refl refl refl refl refl refl refl

-- Primitives in which every hash is the same.
abbrev toy_primitives : Primitives
toy_primitives = record {
  hash160 = λ s. replicate 20 7;
  hash256 = λ s. replicate 32 7;
  ripemd160 = λ s. replicate 20 7;
  sha1 = λ s. replicate 20 7;
  sha256 = λ s. replicate 32 7;
  verify = λ key h sig. bytes_eq key sig;
  verify_nonstrict = λ key h sig. bytes_eq key sig;
}

abbrev funding : Transaction
funding = tx_of [] (pay ∷ []) 0 []

abbrev spending : Transaction
spending = tx_of (signed_a ∷ []) (pay ∷ []) 0 ([] ∷ [])

spending_accepted : verify_signature toy_primitives funding spending (pos 0) ≡ ok tt
unfolding verify_signature element get_txid has_witness wit_is_null serialize_tx pack_signed
    fits_signed serialize_body serialize_inputs_outputs serialize_vector serialize_varint
    serialize_all serialize_txout serialize_bytes pack le_bytes to_word spend_of crypto_of
    verify_script eval_script run step count_op push_data is_disabled check_exec cast_to_bool
    is_witness_scriptpubkey is_small_int is_p2sh verify_program verify_p2sh_spend check_top
    check_end raw_iter raw_iter_from read_op catch_invalid eval_script_raw exec_op stack_op bn2vch
    bn2mpi pack_be4 bn_bytes bit_length bit_length_loop magnitude needs_ext mpi2vch signed_bytes
    is_negative bn2bin bn2bin_loop set_sign ◌-ℤ◌
spending_accepted = refl

verify_signature_sound_example :
    (txin : TxIn) × (txout : TxOut) × (witness : List Bytes) × (get_elem? spending.vin 0
      ≡ some txin)
    × (get_elem? funding.vout txin.prevout.n ≡ some txout)
    × (get_elem? spending.wit 0 ≡ some witness)
    × (get_txid toy_primitives.hash256 funding ≡ ok txin.prevout.hash)
    × (verify_script
          (spend_of toy_primitives spending 0 txout)
          txin.script_sig
          txout.script_pubkey
          witness
        ≡ ok tt)
verify_signature_sound_example =
    verify_signature_sound toy_primitives funding spending 0 spending_accepted

verify_signature-no_witness_example :
    verify_signature toy_primitives funding two_inputs (pos 0) ≢ ok tt
verify_signature-no_witness_example =
    verify_signature-no_witness toy_primitives funding two_inputs (pos 0) refl
