-- ===== src/Eval/Verify/KeyHash.antt =====
-- Spending a version 0 key hash: the script of VerifyWitnessProgram, run by the interpreter.
use mathlib.Core.Logic.{◌↔◌}
use python_bitcointx.Prelude.{
  ℕ, ◌+◌, ◌≤◌, ◌≡◌, refl, sym, ap, ◌∙◌, inl, inr, true, false, not, ◌&&◌, ◌||◌, none, some, List,
  [], ◌∷◌, length, Bytes, leb, ltb, ◌==◌, if◌then◌else◌, arith, length-append, Bool-cases, bytes_eq,
  bytes_eq→eq, bytes_eq_refl,
}
use python_bitcointx.Result.{
  Result, ok, ◌>>=◌, ◌>>◌, guard, >>=-eq-ok, >>=_ok, eval_script_error, verify_script_error,
  null_fail, verify_op_failed, stack_limit, unterminated_if, Result-cases,
}
use python_bitcointx.Opcodes.{op_dup, op_hash160, op_equalverify, op_checksig}
use python_bitcointx.Script.{raw_iter, encode_op_pushdata}
use python_bitcointx.Script.Iter.{
  Op, print_ops, items_of, tail_bytes, size_bytes, well_formed, raw_iter-print_ops,
}
use python_bitcointx.Script.Build.{opcode, pushed, make_script, coerce_instance}
use python_bitcointx.Eval.{
  Context, State, verify_nullfail, witness_v0, check_exec, truth, fail_eval, cast_to_bool,
}
use python_bitcointx.Eval.Numeric.{is_binop, is_unop}
use python_bitcointx.Eval.Stack.{move_op, data_op}
use python_bitcointx.Eval.Signature.{check_sig}
use python_bitcointx.Eval.MultiSig.{check_sig_op, without_sig}
use python_bitcointx.Eval.Step.{
  is_disabled, count_op, push_data, stack_op, state_op, exec_op, step, run, initial, eval_script,
  eval_script_raw, catch_invalid,
}
use python_bitcointx.Eval.Verify.{
  Spend, context, verify_witness_program, v0_script, reversed, check_item_sizes, check_clean,
}
use python_bitcointx.Eval.Step.Laws.{catch_invalid-ok}

abbrev plain : ℕ → Op
plain op = record { opcode = op; pushed = none }

abbrev key_hash_ops : Bytes → List Op
key_hash_ops program =
    plain op_dup
    ∷ plain op_hash160
    ∷ record { opcode = 20; pushed = some program }
    ∷ plain op_equalverify
    ∷ plain op_checksig
    ∷ []

-- DUP HASH160 <program> EQUALVERIFY CHECKSIG, as bytes
abbrev pub key_hash_script : Bytes → Bytes
key_hash_script program = print_ops (key_hash_ops program)

encode_program :
    (program : Bytes) → length program ≡ 20 → encode_op_pushdata program ≡ ok (20 ∷ program)
unfolding encode_op_pushdata
encode_program program h = ground (arith, h)

make_script-key_hash :
    (program : Bytes)
    → length program ≡ 20
    → make_script (
        opcode op_dup
        ∷ opcode op_hash160
        ∷ pushed program
        ∷ opcode op_equalverify
        ∷ opcode op_checksig
        ∷ [])
      ≡ ok (key_hash_script program)
unfolding make_script coerce_instance print_ops tail_bytes size_bytes
make_script-key_hash program h = rw (encode_program program h) refl

raw_iter-key_hash :
    (program : Bytes)
    → length program ≡ 20
    → raw_iter (key_hash_script program) ≡ items_of (key_hash_ops program) 0
unfolding well_formed
raw_iter-key_hash program h =
    raw_iter-print_ops (key_hash_ops program) (refl, (refl, (rw h refl, (refl, (refl, tt)))))

abbrev counted : ℕ → List Bytes → State
counted n s = record { stack = s; altstack = []; vf_exec = []; pbegincodehash = 0; n_op_count = n }

module _ (ctx : Context) (program key sig : Bytes) (h : length program ≡ 20) where
  step_dup :
      (i : ℕ)
      → step ctx op_dup none i (counted 0 (key ∷ sig ∷ [])) ≡ ok (counted 1 (key ∷ key ∷ sig ∷ []))
  unfolding step is_disabled count_op check_exec exec_op stack_op is_binop is_unop move_op
  step_dup i = refl

  step_hash160 :
      (i : ℕ)
      → step ctx op_hash160 none i (counted 1 (key ∷ key ∷ sig ∷ []))
        ≡ ok (counted 2 (ctx.crypto.hash160 key ∷ key ∷ sig ∷ []))
  unfolding step is_disabled count_op check_exec exec_op stack_op is_binop is_unop move_op data_op
  step_hash160 i = refl

  step_push :
      (i : ℕ) (d : Bytes)
      → step ctx 20 (some program) i (counted 2 (d ∷ key ∷ sig ∷ []))
        ≡ ok (counted 2 (program ∷ d ∷ key ∷ sig ∷ []))
  unfolding step is_disabled count_op check_exec push_data
  step_push i d = rw h refl

  step_equalverify :
      (i : ℕ) (d : Bytes)
      → step ctx op_equalverify none i (counted 2 (program ∷ d ∷ key ∷ sig ∷ [])) ≡ (
          if bytes_eq program d
          then ok (counted 3 (key ∷ sig ∷ []))
          else fail_eval verify_op_failed)
  unfolding step is_disabled count_op check_exec exec_op stack_op is_binop is_unop move_op data_op
  step_equalverify i d = elim (Bool-cases (bytes_eq program d)) [
    | inl e ↦ rw e refl
    | inr e ↦ rw e refl
  ]

  step_checksig :
      (i : ℕ)
      → step ctx op_checksig none i (counted 3 (key ∷ sig ∷ [])) ≡ (
          check_sig_op ctx op_checksig (counted 4 (key ∷ sig ∷ [])) >>= λ st.
          guard (leb (length st.stack + length st.altstack) 1000) (eval_script_error stack_limit)
          >> ok st)
  unfolding step is_disabled count_op check_exec exec_op stack_op state_op is_binop is_unop move_op
      data_op
  step_checksig i = refl

  run-key_hash : run ctx (items_of (key_hash_ops program) 0) (initial (key ∷ sig ∷ [])) ≡ (
      if bytes_eq program (ctx.crypto.hash160 key)
      then (do
        st ← check_sig_op ctx op_checksig (counted 4 (key ∷ sig ∷ []))
        guard (leb (length st.stack + length st.altstack) 1000) (eval_script_error stack_limit)
        ok st)
      else fail_eval verify_op_failed)
  unfolding run items_of
  run-key_hash =
      rw (step_dup, step_hash160, step_push, step_equalverify)
        (elim (Bool-cases (bytes_eq program (ctx.crypto.hash160 key))) [
          | inl e ↦ rw (e, step_checksig) (>>=_ok _)
          | inr e ↦ rw e refl
        ])

length-key_hash_script :
    (program : Bytes) → length program ≡ 20 → length (key_hash_script program) ≡ 25
unfolding print_ops tail_bytes size_bytes
length-key_hash_script program h =
    omega (arith, h, length-append program (op_equalverify ∷ op_checksig ∷ []))

-- What the program's script leaves on a public key above a signature, for the check of the signature.
abbrev spent : Context → (program key sig : Bytes) → Result (List Bytes)
spent ctx program key sig =
    if bytes_eq program (ctx.crypto.hash160 key)
    then (do
      valid ← check_sig ctx sig key (key_hash_script program)
      guard (valid || not (ctx.flags verify_nullfail && ltb 0 (length sig)))
          (verify_script_error null_fail)
      ok (truth valid ∷ []))
    else fail_eval verify_op_failed

check_sig_op-key_hash :
    (sp : Spend) (program key sig : Bytes)
    → (do
      st' ← (do
        st ←
            check_sig_op
              (context sp witness_v0 (key_hash_script program))
              op_checksig
              (counted 4 (key ∷ sig ∷ []))
        guard (leb (length st.stack + length st.altstack) 1000) (eval_script_error stack_limit)
        ok st)
      guard (length st'.vf_exec == 0) (eval_script_error unterminated_if)
      ok st'.stack)
      ≡ (do
        valid ←
            check_sig
              (context sp witness_v0 (key_hash_script program))
              sig
              key
              (key_hash_script program)
        guard
            (valid || not (sp.flags verify_nullfail && ltb 0 (length sig)))
            (verify_script_error null_fail)
        ok (truth valid ∷ []))
unfolding check_sig_op without_sig
check_sig_op-key_hash sp program key sig =
    let script : Bytes = key_hash_script program in
    elim (Result-cases (check_sig (context sp witness_v0 script) sig key script)) [
      | inl (valid, e) ↦ rw e (ground arith)
      | inr (e, r) ↦ rw r refl
    ]

module _ (sp : Spend) (program key sig : Bytes) (h : length program ≡ 20) where
  abbrev key_hash_context : Context
  key_hash_context = context sp witness_v0 (key_hash_script program)

  eval_script_raw-key_hash :
      eval_script_raw key_hash_context (key ∷ sig ∷ []) ≡ spent key_hash_context program key sig
  unfolding eval_script_raw
  eval_script_raw-key_hash =
      let small : leb (length (key_hash_script program)) 10000 ≡ true =
        ground (arith, length-key_hash_script program h) in
      rw (small, raw_iter-key_hash program h, run-key_hash key_hash_context program key sig h)
        (elim (Bool-cases (bytes_eq program (sp.crypto.hash160 key))) [
          | inl e ↦ rw e (check_sig_op-key_hash sp program key sig)
          | inr e ↦ rw e refl
        ])

  spent_clean :
      (left : List Bytes)
      → spent key_hash_context program key sig ≡ ok left
      → check_clean left ≡ ok tt
      → (bytes_eq program (sp.crypto.hash160 key) ≡ true)
        × (check_sig key_hash_context sig key (key_hash_script program) ≡ ok true)
  unfolding check_clean cast_to_bool
  spent_clean left s clean = elim (Bool-cases (bytes_eq program (sp.crypto.hash160 key))) [
    | inr other ↦ cc (rw other at s)
    | inl same ↦
        elim (Result-cases (check_sig key_hash_context sig key (key_hash_script program))) [
          | inr (e, r) ↦ cc (rw (same, r) at s)
          | inl (true, r) ↦ (same, r)
          | inl (false, r) ↦ ground (arith, rw (same, r) at s)
        ]
  ]

  verify_witness_program-key_hash : verify_witness_program sp (sig ∷ key ∷ []) 0 program ≡ (
      check_item_sizes (key ∷ sig ∷ [])
      >> (eval_script key_hash_context (key ∷ sig ∷ []) >>= check_clean))
  unfolding verify_witness_program v0_script reversed
  verify_witness_program-key_hash = rw (h, make_script-key_hash program h) refl

  key_hash_accepted :
      verify_witness_program sp (sig ∷ key ∷ []) 0 program ≡ ok tt
      → (length key ≤ 520)
        × (length sig ≤ 520)
        × (program ≡ sp.crypto.hash160 key)
        × (check_sig key_hash_context sig key (key_hash_script program) ≡ ok true)
  unfolding eval_script check_item_sizes
  key_hash_accepted e =
      let e1 = sym verify_witness_program-key_hash ∙ e in
      let (_, sizes, e2) = >>=-eq-ok (check_item_sizes (key ∷ sig ∷ [])) _ e1 in
      let (left, ran, clean) =
        >>=-eq-ok (eval_script key_hash_context (key ∷ sig ∷ [])) check_clean e2 in
      let raw = catch_invalid-ok (eval_script_raw key_hash_context (key ∷ sig ∷ [])) left ran in
      let (same, valid) = spent_clean left (sym eval_script_raw-key_hash ∙ raw) clean in
      (ground arith, ground arith, bytes_eq→eq program _ same, valid)

  key_hash_accepts :
      length key ≤ 520
      → length sig ≤ 520
      → program ≡ sp.crypto.hash160 key
      → check_sig key_hash_context sig key (key_hash_script program) ≡ ok true
      → verify_witness_program sp (sig ∷ key ∷ []) 0 program ≡ ok tt
  unfolding eval_script check_item_sizes catch_invalid check_clean cast_to_bool
  key_hash_accepts hk hs same valid =
      let eq : bytes_eq program (sp.crypto.hash160 key) ≡ true =
        ap (bytes_eq program) (sym same) ∙ bytes_eq_refl program in
      let sizes : check_item_sizes (key ∷ sig ∷ []) ≡ ok tt = ground arith in
      rw (verify_witness_program-key_hash, sizes, eval_script_raw-key_hash, eq, valid) refl

-- Paying to a version 0 key hash: a witness of a signature and a public key passes
-- VerifyWitnessProgram exactly if neither is longer than 520 bytes, the program is the hash of the
-- public key, and the signature is valid for that key, the transaction and the script
-- DUP HASH160 <program> EQUALVERIFY CHECKSIG. The program has 20 bytes.
pub key_hash_spend_iff :
    (sp : Spend) (program key sig : Bytes)
    → length program ≡ 20
    → (verify_witness_program sp (sig ∷ key ∷ []) 0 program ≡ ok tt) ↔ (
        (length key ≤ 520)
        × (length sig ≤ 520)
        × (program ≡ sp.crypto.hash160 key)
        × (check_sig
              (context sp witness_v0 (key_hash_script program))
              sig
              key
              (key_hash_script program)
            ≡ ok true))
key_hash_spend_iff sp program key sig h = (
  key_hash_accepted sp program key sig h,
  λ c. key_hash_accepts sp program key sig h c.0 c.1 c.2 c.3,
)
