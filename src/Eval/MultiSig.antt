-- ===== src/Eval/MultiSig.antt =====
-- bitcointx/core/scripteval.py: `_CheckMultiSig`, and the branch of OP_CHECKSIG.
pub mod Matching
use python_bitcointx.Prelude.{
  ℕ, zero, suc, ◌+◌, ◌-◌, Bool, true, false, not, ◌&&◌, ◌||◌, List, [], ◌∷◌, length, drop, Bytes,
  leb, ltb, ◌==◌, if◌then◌else◌,
}
use python_bitcointx.Prelude.Int.{pos, negsuc}
use python_bitcointx.Result.{
  Result, ok, ◌>>=◌, ◌>>◌, guard, EvalFailure, eval_script_error, verify_script_error,
  keys_count_invalid, not_enough_keys, sigs_count_invalid, not_enough_sigs, missing_dummy,
  dummy_not_null, verify_op_failed, max_op_count, null_fail,
}
use python_bitcointx.Opcodes.{op_checkmultisig, op_checkmultisigverify, op_checksigverify}
use python_bitcointx.Script.Build.{pushed, make_script}
use python_bitcointx.Script.Pushes.{find_and_delete}
use python_bitcointx.Eval.{
  verify_nullfail, verify_nulldummy, Context, State, check_args, item, cast_to_big_num, fail_eval,
  fail_verify, is_base, truth, max_script_opcodes,
}
use python_bitcointx.Eval.Signature.{check_sig}

-- A script without the pushes of a signature, for signatures of the base version only.
unfoldable pub without_sig : Context → (script sig : Bytes) → Result Bytes
without_sig ctx script sig =
    if is_base ctx.sigversion
    then (do s ← make_script (pushed sig ∷ []); find_and_delete script s)
    else ok script

-- The branch of OP_CHECKSIG and OP_CHECKSIGVERIFY
unfoldable pub check_sig_op : Context → ℕ → State → Result State
check_sig_op ctx op st = do
  check_args 2 st.stack
  let pubkey = item st.stack 1
  let sig = item st.stack 2
  script ← without_sig ctx (drop st.pbegincodehash ctx.script_in) sig
  valid ← check_sig ctx sig pubkey script
  guard (valid || not (ctx.flags verify_nullfail && ltb 0 (length sig)))
      (verify_script_error null_fail)
  guard (valid || not (op == op_checksigverify)) (eval_script_error verify_op_failed)
  ok (record {
    stack =
        if valid && op == op_checksigverify then drop 2 st.stack else truth valid ∷ drop 2 st.stack;
    altstack = st.altstack;
    vf_exec = st.vf_exec;
    pbegincodehash = st.pbegincodehash;
    n_op_count = st.n_op_count;
  })

-- A count on the stack, from 0 to `most`.
unfoldable pub cast_to_count : ℕ → EvalFailure → Bytes → Result ℕ
cast_to_count most e b = do
  n ← cast_to_big_num b
  elim n [ pos k ↦ if leb k most then ok k else fail_eval e | negsuc k ↦ fail_eval e ]

-- `for k in range(sigs_count)`: the script without the signatures from `stack[-isig]` on.
unfoldable pub without_sigs : Context → List Bytes → (isig sigs_count : ℕ) → Bytes → Result Bytes
without_sigs ctx stack isig zero script = ok script
without_sigs ctx stack isig (suc n) script = do
  s ← without_sig ctx script (item stack isig)
  without_sigs ctx stack (isig + 1) n s

-- The loop over the keys; the result is `success`. A round takes one key, and one signature if the
-- key fits it. As the loop starts with at least as many keys as signatures, it stops before it runs
-- out of keys.
unfoldable pub match_sigs :
    Context → Bytes → List Bytes → (keys_count sigs_count ikey isig : ℕ) → Result Bool
match_sigs ctx script stack keys zero ikey isig = ok true
match_sigs ctx script stack zero (suc sigs) ikey isig = ok false
match_sigs ctx script stack (suc keys) (suc sigs) ikey isig = do
  valid ← check_sig ctx (item stack isig) (item stack ikey) script
  let left = if valid then sigs else suc sigs
  let isig' = if valid then isig + 1 else isig
  if ltb keys left then ok false else match_sigs ctx script stack keys left (ikey + 1) isig'

-- The loop that pops the `n` items of the operation.
unfoldable pub clean_up : Bool → (n ikey2 : ℕ) → List Bytes → Result (List Bytes)
clean_up check zero ikey2 stack = ok stack
clean_up check (suc n) ikey2 stack =
    if check && ikey2 == 0 && ltb 0 (length (item stack 1))
    then fail_verify null_fail
    else clean_up check n (ikey2 - 1) (drop 1 stack)

-- What follows the loop over the keys, for `n` items to pop above the dummy value.
unfoldable pub finish_multi_sig :
    Context → ℕ → (success : Bool) (n keys_count : ℕ) → List Bytes → Result (List Bytes)
finish_multi_sig ctx op success n keys_count stack = do
  guard (success || not (op == op_checkmultisigverify)) (eval_script_error verify_op_failed)
  s ← clean_up (not success && ctx.flags verify_nullfail) n (keys_count + 2) stack
  guard (not (ltb 0 (length s) && ctx.flags verify_nulldummy) || length (item s 1) == 0)
      (eval_script_error dummy_not_null)
  ok (if op == op_checkmultisig then truth success ∷ drop 1 s else drop 1 s)

-- _CheckMultiSig
unfoldable pub check_multi_sig : Context → ℕ → State → Result State
check_multi_sig ctx op st = do
  check_args 1 st.stack
  keys_count ← cast_to_count 20 keys_count_invalid (item st.stack 1)
  let count = st.n_op_count + keys_count
  guard (leb count max_script_opcodes) (eval_script_error max_op_count)
  guard (leb (2 + keys_count) (length st.stack)) (eval_script_error not_enough_keys)
  sigs_count ← cast_to_count keys_count sigs_count_invalid (item st.stack (2 + keys_count))
  let i = 3 + keys_count + sigs_count
  guard (leb (i - 1) (length st.stack)) (eval_script_error not_enough_sigs)
  guard (leb i (length st.stack)) (eval_script_error missing_dummy)
  script ←
      without_sigs ctx st.stack (3 + keys_count) sigs_count (drop st.pbegincodehash ctx.script_in)
  success ← match_sigs ctx script st.stack keys_count sigs_count 2 (3 + keys_count)
  s ← finish_multi_sig ctx op success (i - 1) keys_count st.stack
  ok (record {
    stack = s;
    altstack = st.altstack;
    vf_exec = st.vf_exec;
    pbegincodehash = st.pbegincodehash;
    n_op_count = count;
  })
