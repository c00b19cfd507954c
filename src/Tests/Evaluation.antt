-- ===== src/Tests/Evaluation.antt =====
-- The theorems on the interpreter, at concrete inputs.
use mathlib.Core.Logic.{◌↔◌}
use python_bitcointx.Prelude.{
  ◌≡◌, ◌≤◌, refl, true, false, none, some, List, [], ◌∷◌, length, Bytes, bytes_eq, replicate, arith,
}
use python_bitcointx.Prelude.Int.{pos}
use python_bitcointx.Result.{ok}
use python_bitcointx.Script.{Items, stop, yields}
use python_bitcointx.Opcodes.{op_if, op_else, op_endif, op_add}
use python_bitcointx.Script.Build.{make_script, coerce_instance, pushed_all}
use python_bitcointx.Script.{encode_op_pushdata}
use python_bitcointx.Eval.{Flags, Crypto, Context, State, base, witness_v0, check_exec}
use python_bitcointx.Eval.Signature.{
  check_sig, check_encodings, is_valid_signature_encoding, is_valid_parts, is_der_integer,
  is_compressed_or_uncompressed_pub_key, is_compressed_pub_key, is_low_der_signature,
  compare_big_endian, compare_same_length, any_positive,
}
use python_bitcointx.Eval.MultiSig.{match_sigs}
use python_bitcointx.Eval.MultiSig.Matching.{AreChecked, IsAssignable, match_sigs_iff}
use python_bitcointx.Prelude.{Bool, length}
use python_bitcointx.Bignum.{
  bn2vch, bn2mpi, mpi2vch, bn_bytes, magnitude, needs_ext, bit_length, bit_length_loop, pack_be4,
  signed_bytes, bn2bin, bn2bin_loop, set_sign, is_negative,
}
use python_bitcointx.Struct.{le_bytes}
use python_bitcointx.Prelude.Int.{negsuc}
use python_bitcointx.Eval.Numeric.Integers.{IsOperand, Computed, bin_op-bn2vch}
use python_bitcointx.Eval.Step.{
  is_disabled, count_op, push_data, step, run, initial, eval_script, exec_op, stack_op, state_op,
  else_op, endif_op,
}
use python_bitcointx.Eval.Step.Skipped.{next_depth, is_nested, run-is_nested}
use python_bitcointx.Eval.Stack.{move_op, data_op}
use python_bitcointx.Eval.Numeric.{is_binop, is_unop}
use python_bitcointx.Eval.Step.Laws.{IsBounded, run-IsBounded}
use python_bitcointx.Eval.Step.Pushes.{stacked, eval_script-pushed_all}
use python_bitcointx.Eval.Verify.{Spend, context, verify_witness_program}
use python_bitcointx.Eval.Verify.KeyHash.{key_hash_script, key_hash_spend_iff}

abbrev no_flags : Flags
no_flags f = false

-- A toy cryptography: the hash of a string is 20 times its length, and a signature is valid if it
-- repeats the public key.
abbrev toy_crypto : Crypto
toy_crypto = record {
  hash160 = λ s. replicate 20 (length s);
  hash256 = λ s. replicate 32 (length s);
  ripemd160 = λ s. replicate 20 (length s);
  sha1 = λ s. replicate 20 (length s);
  sha256 = λ s. replicate 32 (length s);
  verify = λ key h sig. bytes_eq key sig;
  verify_nonstrict = λ key h sig. bytes_eq key sig;
  raw_sighash = λ script hashtype amount version. ok script;
}

abbrev two_pushes : Context
two_pushes = record {
  crypto = toy_crypto;
  script_in = 1 ∷ 7 ∷ 2 ∷ 8 ∷ 9 ∷ [];
  flags = no_flags;
  amount = pos 0;
  sigversion = base;
}

abbrev in_branch : State
in_branch = record {
  stack = (1 ∷ []) ∷ [];
  altstack = [];
  vf_exec = false ∷ [];
  pbegincodehash = 0;
  n_op_count = 4;
}

abbrev in_branch_counted : State
in_branch_counted = record {
  stack = (1 ∷ []) ∷ [];
  altstack = [];
  vf_exec = false ∷ [];
  pbegincodehash = 0;
  n_op_count = 8;
}

abbrev conditional : Items
conditional =
    yields op_if none 9
      (yields op_add none 10 (yields op_else none 11 (yields op_endif none 12 stop)))

run-is_nested_example :
    (in_branch_counted.stack ≡ in_branch.stack)
    × (in_branch_counted.altstack ≡ in_branch.altstack)
    × (in_branch_counted.vf_exec ≡ in_branch.vf_exec)
    × (in_branch_counted.pbegincodehash ≡ in_branch.pbegincodehash)
run-is_nested_example =
    run-is_nested two_pushes conditional in_branch in_branch_counted (unfold check_exec in refl)
      (unfold is_nested next_depth in refl)
      (unfold run step is_disabled count_op check_exec exec_op stack_op is_binop is_unop move_op
          data_op state_op else_op endif_op in
        refl)

initial-IsBounded : IsBounded (initial [])
initial-IsBounded = record { items = omega arith; ops = omega arith }

run-IsBounded_example : IsBounded (initial ((7 ∷ []) ∷ []))
run-IsBounded_example =
    run-IsBounded two_pushes (yields 1 (some (7 ∷ [])) 0 stop) (initial [])
      (initial ((7 ∷ []) ∷ [])) initial-IsBounded
      (unfold run step is_disabled count_op push_data check_exec in refl)

abbrev elements : List Bytes
elements = (7 ∷ []) ∷ (8 ∷ 9 ∷ []) ∷ []

two_pushes_made : make_script (pushed_all elements) ≡ ok two_pushes.script_in
unfolding make_script pushed_all coerce_instance encode_op_pushdata
two_pushes_made = refl

eval_script-pushed_all_example : eval_script two_pushes [] ≡ ok (stacked elements [])
eval_script-pushed_all_example =
    eval_script-pushed_all two_pushes elements two_pushes_made (omega arith)
      (omega arith, (omega arith, tt)) (omega arith)

abbrev spend : Spend
spend = record { crypto = toy_crypto; flags = no_flags; amount = pos 1000 }

abbrev program : Bytes
program = replicate 20 3

key_hash_spend_iff_example :
    (verify_witness_program spend ((4 ∷ 5 ∷ 6 ∷ 1 ∷ []) ∷ (4 ∷ 5 ∷ 6 ∷ []) ∷ []) 0 program ≡ ok tt)
    ↔ ((3 ≤ 520)
        × (4 ≤ 520)
        × (program ≡ toy_crypto.hash160 (4 ∷ 5 ∷ 6 ∷ []))
        × (check_sig
              (context spend witness_v0 (key_hash_script program))
              (4 ∷ 5 ∷ 6 ∷ 1 ∷ [])
              (4 ∷ 5 ∷ 6 ∷ [])
              (key_hash_script program)
            ≡ ok true))
key_hash_spend_iff_example =
    key_hash_spend_iff spend program (4 ∷ 5 ∷ 6 ∷ []) (4 ∷ 5 ∷ 6 ∷ 1 ∷ []) refl

key_hash_spend_valid :
    check_sig
      (context spend witness_v0 (key_hash_script program))
      (4 ∷ 5 ∷ 6 ∷ 1 ∷ [])
      (4 ∷ 5 ∷ 6 ∷ [])
      (key_hash_script program)
    ≡ ok true
unfolding check_sig check_encodings
key_hash_spend_valid = refl

-- Two compressed keys below their count and one signature, of the second key. The signature is strict
-- DER with a hash type.
abbrev key_a : Bytes
key_a = 2 ∷ replicate 32 4

abbrev key_b : Bytes
key_b = 3 ∷ replicate 32 5

abbrev der_sig : Bytes
der_sig = 0x30 ∷ 6 ∷ 2 ∷ 1 ∷ 4 ∷ 2 ∷ 1 ∷ 5 ∷ 1 ∷ []

abbrev one_of_two : List Bytes
one_of_two = (2 ∷ []) ∷ key_a ∷ key_b ∷ (1 ∷ []) ∷ der_sig ∷ [] ∷ []

-- Every signature fits the key b, and the encodings are checked.
abbrev strict_context : Context
strict_context = record {
  crypto = record toy_crypto {
    verify = λ key h sig. bytes_eq key key_b;
    verify_nonstrict = λ key h sig. bytes_eq key key_b;
  };
  script_in = [];
  flags = λ f. true;
  amount = pos 0;
  sigversion = witness_v0;
}

abbrev fits_b : Bytes → Bytes → Bool
fits_b sig key = bytes_eq key key_b

der_sig-AreChecked : AreChecked strict_context [] fits_b (der_sig ∷ []) (key_a ∷ key_b ∷ [])
unfolding check_sig check_encodings is_valid_signature_encoding is_valid_parts is_der_integer
    is_compressed_or_uncompressed_pub_key is_compressed_pub_key is_low_der_signature
    compare_big_endian compare_same_length any_positive
der_sig-AreChecked = ((refl, (refl, tt)), tt)

match_sigs_iff_example :
    (match_sigs strict_context [] one_of_two 2 1 2 5 ≡ ok true)
    ↔ IsAssignable fits_b (der_sig ∷ []) (key_a ∷ key_b ∷ [])
match_sigs_iff_example =
    match_sigs_iff strict_context [] one_of_two fits_b 2 1 2 5 der_sig-AreChecked (omega arith)

three_bytes : IsOperand (negsuc 2)
unfolding bn_bytes magnitude needs_ext bit_length bit_length_loop
three_bytes = omega arith

five_bytes : IsOperand (pos 5)
unfolding bn_bytes magnitude needs_ext bit_length bit_length_loop
five_bytes = omega arith

three : bn2vch (negsuc 2) ≡ ok (0x83 ∷ [])
unfolding bn2vch bn2mpi mpi2vch bn_bytes magnitude needs_ext bit_length bit_length_loop pack_be4
    le_bytes signed_bytes bn2bin bn2bin_loop set_sign is_negative
three = refl

five : bn2vch (pos 5) ≡ ok (5 ∷ [])
unfolding bn2vch bn2mpi mpi2vch bn_bytes magnitude needs_ext bit_length bit_length_loop pack_be4
    le_bytes signed_bytes bn2bin bn2bin_loop set_sign is_negative
five = refl

bin_op-bn2vch_example : Computed (negsuc 2) (pos 5) (0x83 ∷ []) (5 ∷ []) []
bin_op-bn2vch_example =
    bin_op-bn2vch (negsuc 2) (pos 5) (0x83 ∷ []) (5 ∷ []) [] three_bytes five_bytes three five
