-- ===== src/Eval/Verify.antt =====
-- bitcointx/core/scripteval.py: VerifyWitnessProgram and VerifyScript.
pub mod KeyHash
use python_bitcointx.Prelude.{
  ℕ, zero, suc, ◌+◌, Bool, true, false, not, ◌&&◌, ◌||◌, Option, none, some, List, [], ◌∷◌, length,
  take, drop, get_elem?, Bytes, bytes_eq, leb, ltb, ◌==◌, if◌then◌else◌,
}
use python_bitcointx.Prelude.Int.{ℤ, pos, negsuc}
use python_bitcointx.Result.{
  Result, ok, err, ◌>>=◌, ◌>>◌, guard, Error, VerifyFailure, verify_script_error, value_error,
  assertion_error, witness_empty, witness_mismatch, wrong_program_length, upgradeable_program,
  item_size, unhandled_flags, empty_stack, extra_items, returned_false, script_sig_not_empty,
  not_push_only, not_single_push, unexpected_witness,
}
use python_bitcointx.Opcodes.{op_dup, op_hash160, op_equalverify, op_checksig}
use python_bitcointx.Script.Build.{Element, opcode, pushed, make_script}
use python_bitcointx.Script.Pushes.{is_push_only}
use python_bitcointx.Script.Templates.{
  is_p2sh, is_witness_scriptpubkey, witness_version, witness_program, max_script_element_size,
}
use python_bitcointx.Eval.{
  Flag, Flags, verify_p2sh, verify_sigpushonly, verify_minimaldata, verify_strictenc, verify_dersig,
  verify_low_s, verify_nulldummy, verify_discourage_upgradable_nops, verify_minimalif,
  verify_nullfail, verify_witness_pubkeytype, verify_cleanstack, verify_checklocktimeverify,
  verify_checksequenceverify, verify_witness, verify_discourage_upgradable_witness_program,
  verify_const_scriptcode, verify_taproot, Crypto, Context, SigVersion, base, witness_v0,
  cast_to_bool, item, fail_verify,
}
use python_bitcointx.Eval.Step.{eval_script}

-- What a call of VerifyScript knows: everything but the script that is evaluated and its version.
pub record Spend : Type 0 where
  pub crypto : Crypto
  pub flags : Flags
  pub amount : ℤ

abbrev pub context : Spend → SigVersion → Bytes → Context
context sp version script = record {
  crypto = sp.crypto;
  script_in = script;
  flags = sp.flags;
  amount = sp.amount;
  sigversion = version;
}

-- VerifyScript evaluates with the default amount, which is 0, outside witness programs.
abbrev pub base_context : Spend → Bytes → Context
base_context sp script = record {
  crypto = sp.crypto;
  script_in = script;
  flags = sp.flags;
  amount = pos 0;
  sigversion = base;
}

-- The script of a version 0 program, and the stack that it runs on. A witness lists its stack from
-- the bottom; the interpreter's stack has its top first.
unfoldable pub reversed {ℓ} : {A : Type ℓ} → List A → List A → List A
reversed [] acc = acc
reversed (x ∷ xs) acc = reversed xs (x ∷ acc)

-- `scriptPubKey = script_class(stack.pop())` and the check of its hash
unfoldable pub script_hash_program : Crypto → Bytes → List Bytes → Result (Bytes × List Bytes)
script_hash_program c program [] = fail_verify witness_empty
script_hash_program c program (script ∷ stack) =
    if bytes_eq (c.sha256 script) program then ok (script, stack) else fail_verify witness_mismatch

unfoldable pub v0_script : Crypto → Bytes → List Bytes → Result (Bytes × List Bytes)
unfolding script_hash_program
v0_script c program stack =
    if length program == 32
    then script_hash_program c program stack
    else if length program == 20
    then (if length stack == 2
        then (do
          script ← make_script (
              opcode op_dup
              ∷ opcode op_hash160
              ∷ pushed program
              ∷ opcode op_equalverify
              ∷ opcode op_checksig
              ∷ [])
          ok (script, stack))
        else fail_verify witness_mismatch)
    else fail_verify wrong_program_length

-- Disallow stack items that are too long.
unfoldable pub check_item_sizes : List Bytes → Result (Unit {0})
check_item_sizes [] = ok tt
check_item_sizes (elt ∷ stack) =
    if ltb max_script_element_size (length elt)
    then fail_verify item_size
    else check_item_sizes stack

-- One item has to be left, and it has to be true.
unfoldable pub check_clean : List Bytes → Result (Unit {0})
check_clean [] = fail_verify empty_stack
check_clean (b ∷ []) = if cast_to_bool b then ok tt else fail_verify returned_false
check_clean (b ∷ c ∷ stack) = fail_verify extra_items

-- VerifyWitnessProgram, for the witness's stack from the bottom
unfoldable pub verify_witness_program : Spend → List Bytes → ℕ → Bytes → Result (Unit {0})
verify_witness_program sp witness zero program = do
  (script, stack) ← v0_script sp.crypto program (reversed witness [])
  check_item_sizes stack
  left ← eval_script (context sp witness_v0 script) stack
  check_clean left
verify_witness_program sp witness (suc version) program =
    if sp.flags verify_discourage_upgradable_witness_program
    then fail_verify upgradeable_program
    else ok tt

-- flags & UNHANDLED_SCRIPT_VERIFY_FLAGS
abbrev pub has_unhandled : Flags → Bool
has_unhandled flags =
    flags verify_sigpushonly
    || flags verify_minimaldata
    || flags verify_checklocktimeverify
    || flags verify_checksequenceverify
    || flags verify_const_scriptcode
    || flags verify_taproot

-- STANDARD_SCRIPT_VERIFY_FLAGS - UNHANDLED_SCRIPT_VERIFY_FLAGS
abbrev pub default_flags : Flags
default_flags verify_p2sh = true
default_flags verify_strictenc = true
default_flags verify_dersig = true
default_flags verify_low_s = true
default_flags verify_nulldummy = true
default_flags verify_sigpushonly = false
default_flags verify_minimaldata = false
default_flags verify_discourage_upgradable_nops = true
default_flags verify_cleanstack = true
default_flags verify_checklocktimeverify = false
default_flags verify_checksequenceverify = false
default_flags verify_minimalif = true
default_flags verify_nullfail = true
default_flags verify_witness = true
default_flags verify_discourage_upgradable_witness_program = true
default_flags verify_witness_pubkeytype = true
default_flags verify_const_scriptcode = false
default_flags verify_taproot = false

-- A stack that a script left has a true top.
unfoldable pub check_top : List Bytes → Result (Unit {0})
check_top [] = fail_verify empty_stack
check_top (b ∷ stack) = if cast_to_bool b then ok tt else fail_verify returned_false

-- `stack[:1]`, which keeps the bottom
abbrev pub bottom : List Bytes → List Bytes
bottom stack = take 1 (reversed stack [])

-- The witness program of a script, for a `scriptSig` that has to be `expected`; else the stack as it
-- is. The result has the stack and `hadWitness`.
unfoldable pub verify_program :
    Spend
    → (witness : List Bytes) (script_sig script : Bytes) (expected : Result Bytes) → VerifyFailure
    → List Bytes
    → Bool
    → Result (List Bytes × Bool)
verify_program sp witness script_sig script expected e stack had_witness =
    if sp.flags verify_witness && is_witness_scriptpubkey script
    then (do
      x ← expected
      guard (bytes_eq script_sig x) (verify_script_error e)
      version ← witness_version script
      program ← witness_program script
      verify_witness_program sp witness version program
      ok (bottom stack, true))
    else ok (stack, had_witness)

-- The part of VerifyScript for a P2SH output, on the stack that `scriptSig` left: its top is the
-- redeem script.
unfoldable pub verify_p2sh_spend :
    Spend
    → (witness : List Bytes) (script_sig : Bytes) → List Bytes
    → Bool
    → Result (List Bytes × Bool)
verify_p2sh_spend sp witness script_sig [] had_witness = err assertion_error
verify_p2sh_spend sp witness script_sig (pub_key2 ∷ stack) had_witness = do
  left ← eval_script (base_context sp pub_key2) stack
  check_top left
  verify_program sp witness script_sig pub_key2 (make_script (pushed pub_key2 ∷ [])) not_single_push
      left had_witness

-- The checks at the end, CLEANSTACK and WITNESS.
unfoldable pub check_end : Spend → (witness : List Bytes) → List Bytes → Bool → Result (Unit {0})
check_end sp witness stack had_witness = do
  guard (not (sp.flags verify_cleanstack) || sp.flags verify_p2sh) value_error
  guard (not (sp.flags verify_cleanstack) || not (length stack == 0))
      (verify_script_error empty_stack)
  guard (not (sp.flags verify_cleanstack) || length stack == 1) (verify_script_error extra_items)
  guard (not (sp.flags verify_witness) || sp.flags verify_p2sh) value_error
  guard (not (sp.flags verify_witness) || had_witness || length witness == 0)
      (verify_script_error unexpected_witness)

-- VerifyScript, with the flags given and the witness's stack from the bottom
unfoldable pub verify_script :
    Spend → (script_sig script_pub_key : Bytes) (witness : List Bytes) → Result (Unit {0})
verify_script sp script_sig script_pub_key witness = do
  guard (not (has_unhandled sp.flags)) (verify_script_error unhandled_flags)
  signed ← eval_script (base_context sp script_sig) []
  left ← eval_script (base_context sp script_pub_key) signed
  check_top left
  (stack, had_witness) ←
      verify_program sp witness script_sig script_pub_key (ok []) script_sig_not_empty left false
  (stack', had_witness') ←
      if sp.flags verify_p2sh && is_p2sh script_pub_key
      then (if is_push_only script_sig
          then verify_p2sh_spend sp witness script_sig signed had_witness
          else fail_verify not_push_only)
      else ok (stack, had_witness)
  check_end sp witness stack' had_witness'
