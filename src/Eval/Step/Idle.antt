-- ===== src/Eval/Step/Idle.antt =====
-- One opcode in a branch that is not executed.
use mathlib.Core.Logic.{◌⊎◌}
use python_bitcointx.Prelude.{
  ℕ, ◌≡◌, refl, sym, ◌∙◌, inl, inr, Bool, true, false, ◌&&◌, ◌||◌, Option, none, some, List, [],
  ◌∷◌, ◌++◌, Bytes, leb, ◌==◌, if◌then◌else◌, arith, Bool-cases,
}
use python_bitcointx.Result.{Result, ok, ok-injective}
use python_bitcointx.Opcodes.{op_if, op_notif, op_else, op_endif, op_pushdata4}
use python_bitcointx.Eval.{Context, State, check_exec}
use python_bitcointx.Eval.Stack.{move_op, data_op}
use python_bitcointx.Eval.Numeric.{is_binop, is_unop}
use python_bitcointx.Eval.Step.{
  is_disabled, with_exec, with_count, push_data, exec_op, stack_op, state_op, else_op, endif_op,
  step,
}
use python_bitcointx.Eval.Step.Laws.{step_inv}

-- The effect of a round in a branch that is not executed.
unfoldable pub idle_op : ℕ → State → Result State
idle_op op st =
    if op == op_if || op == op_notif
    then ok (with_exec st st.stack (false ∷ st.vf_exec))
    else if op == op_else
    then else_op st st.vf_exec
    else if op == op_endif
    then endif_op st st.vf_exec
    else ok st

pub check_exec-append :
    (extra vf_exec : List Bool) → check_exec vf_exec ≡ false → check_exec (extra ++ vf_exec) ≡ false
unfolding check_exec
check_exec-append [] vf_exec h = h
check_exec-append (true ∷ extra) vf_exec h = check_exec-append extra vf_exec h
check_exec-append (false ∷ extra) vf_exec h = refl

exec_op-if :
    (ctx : Context) (pc : ℕ) (st : State)
    → check_exec st.vf_exec ≡ false
    → exec_op ctx op_if pc st ≡ ok (with_exec st st.stack (false ∷ st.vf_exec))
unfolding exec_op stack_op state_op is_binop is_unop move_op data_op
exec_op-if ctx pc st idle = rw idle refl

exec_op-notif :
    (ctx : Context) (pc : ℕ) (st : State)
    → check_exec st.vf_exec ≡ false
    → exec_op ctx op_notif pc st ≡ ok (with_exec st st.stack (false ∷ st.vf_exec))
unfolding exec_op stack_op state_op is_binop is_unop move_op data_op
exec_op-notif ctx pc st idle = rw idle refl

exec_op-else :
    (ctx : Context) (pc : ℕ) (st : State) → exec_op ctx op_else pc st ≡ else_op st st.vf_exec
unfolding exec_op stack_op state_op is_binop is_unop move_op data_op
exec_op-else ctx pc st = refl

exec_op-endif :
    (ctx : Context) (pc : ℕ) (st : State) → exec_op ctx op_endif pc st ≡ endif_op st st.vf_exec
unfolding exec_op stack_op state_op is_binop is_unop move_op data_op
exec_op-endif ctx pc st = refl

op_between :
    (op : ℕ)
    → (leb op_if op && leb op op_endif) ≡ true
    → is_disabled op ≡ false
    → (op ≡ op_if) ⊎ (op ≡ op_notif) ⊎ (op ≡ op_else) ⊎ (op ≡ op_endif)
unfolding is_disabled
op_between op h enabled = ground arith

exec_op-idle_op :
    (ctx : Context) (op pc : ℕ) (st st' : State)
    → (leb op_if op && leb op op_endif) ≡ true
    → is_disabled op ≡ false
    → check_exec st.vf_exec ≡ false
    → exec_op ctx op pc st ≡ ok st'
    → idle_op op st ≡ ok st'
exec_op-idle_op ctx op pc st st' h enabled idle r =
    unfold idle_op in
    elim (op_between op h enabled) [
      | inl e ↦ rw e (sym (exec_op-if ctx pc st idle) ∙ rw e at r)
      | inr (inl e) ↦ rw e (sym (exec_op-notif ctx pc st idle) ∙ rw e at r)
      | inr (inr (inl e)) ↦ rw e (sym (exec_op-else ctx pc st) ∙ rw e at r)
      | inr (inr (inr e)) ↦ rw e (sym (exec_op-endif ctx pc st) ∙ rw e at r)
    ]

push_data-idle :
    (sop_data : Option Bytes) (st st' : State)
    → check_exec st.vf_exec ≡ false
    → push_data sop_data st ≡ ok st'
    → st ≡ st'
unfolding push_data
push_data-idle none st st' idle h = cc
push_data-idle (some d) st st' idle h = ground arith

-- A round in a branch that is not executed has this effect, but for the count of operations.
pub step-idle_op :
    (ctx : Context) (op pc : ℕ) (sop_data : Option Bytes) (st st' : State)
    → check_exec st.vf_exec ≡ false
    → step ctx op sop_data pc st ≡ ok st'
    → (n : ℕ) × (idle_op op (with_count st n) ≡ ok st')
step-idle_op ctx op pc sop_data st st' idle h =
    let (n, enabled, _, body, _) = step_inv ctx op pc sop_data st st' h in
    (
      n,
      elim (Bool-cases (leb op op_pushdata4)) [
        | inl push ↦
            let same = push_data-idle sop_data (with_count st n) st' idle (rw push at body) in
            unfold idle_op in ground arith
        | inr high ↦ elim (Bool-cases (leb op_if op && leb op op_endif)) [
          | inl between ↦
              exec_op-idle_op ctx op pc (with_count st n) st' between enabled idle
                (rw (high, idle, between) at body)
          | inr outside ↦
              let same = ok-injective (rw (high, idle, outside) at body) in
              unfold idle_op in ground arith
        ]
      ],
    )
