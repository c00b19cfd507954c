-- ===== src/Eval/Step/Laws.antt =====
-- What holds of every opcode: the limits of the interpreter.
use python_bitcointx.Prelude.{
  ℕ, ◌+◌, ◌≤◌, ◌≡◌, ◌∙◌, inl, inr, Bool, false, ◌&&◌, ◌||◌, Option, none, some, List, [], ◌∷◌,
  length, Bytes, leb, if◌then◌else◌, arith, Bool-cases, leb→le,
}
use python_bitcointx.Result.{
  ok-injective, Result, ok, err, >>=-eq-ok, guard_passes, stack_limit, eval_script_error,
  script_invalid_error, truncated_push_error,
}
use python_bitcointx.Opcodes.{op_if, op_endif, op_pushdata4}
use python_bitcointx.Script.{Items, stop, raise, yields, stuck}
use python_bitcointx.Eval.{Context, State, check_exec, max_stack_items, max_script_opcodes}
use python_bitcointx.Eval.MultiSig.{check_sig_op, check_multi_sig}
use python_bitcointx.Eval.Step.{
  is_disabled, with_count, count_op, push_data, exec_op, state_op, else_op, endif_op, if_op,
  from_alt_stack, step, run, catch_invalid,
}

-- The limits on the items of both stacks and on the count of operations.
pub record IsBounded (st : State) : Type 0 where
  pub items : length st.stack + length st.altstack ≤ max_stack_items
  pub ops : st.n_op_count ≤ max_script_opcodes

check_sig_op_ops :
    (ctx : Context) (op : ℕ) (st st' : State)
    → check_sig_op ctx op st ≡ ok st'
    → st'.n_op_count ≡ st.n_op_count
unfolding check_sig_op
check_sig_op_ops ctx op st st' h = ground arith

check_multi_sig_ops :
    (ctx : Context) (op : ℕ) (st st' : State)
    → check_multi_sig ctx op st ≡ ok st'
    → st'.n_op_count ≤ max_script_opcodes
unfolding check_multi_sig
check_multi_sig_ops ctx op st st' h = ground arith

else_op_ops :
    (st st' : State) (vf_exec : List Bool)
    → else_op st vf_exec ≡ ok st'
    → st'.n_op_count ≡ st.n_op_count
unfolding else_op
else_op_ops st st' [] h = cc
else_op_ops st st' (b ∷ vf_exec) h = ground arith

endif_op_ops :
    (st st' : State) (vf_exec : List Bool)
    → endif_op st vf_exec ≡ ok st'
    → st'.n_op_count ≡ st.n_op_count
unfolding endif_op
endif_op_ops st st' [] h = cc
endif_op_ops st st' (b ∷ vf_exec) h = ground arith

if_op_ops :
    (ctx : Context) (op : ℕ) (st st' : State)
    → if_op ctx op st ≡ ok st'
    → st'.n_op_count ≡ st.n_op_count
unfolding if_op
if_op_ops ctx op st st' h = ground arith

from_alt_stack_ops :
    (st st' : State) (alt : List Bytes)
    → from_alt_stack st alt ≡ ok st'
    → st'.n_op_count ≡ st.n_op_count
unfolding from_alt_stack
from_alt_stack_ops st st' [] h = cc
from_alt_stack_ops st st' (v ∷ alt) h = ground arith

state_op_ops :
    (ctx : Context) (op pc : ℕ) (st st' : State)
    → st.n_op_count ≤ max_script_opcodes
    → state_op ctx op pc st ≡ ok st'
    → st'.n_op_count ≤ max_script_opcodes
unfolding state_op
state_op_ops ctx op pc st st' le h = ground (
  arith,
  check_multi_sig_ops ctx op st st',
  check_sig_op_ops ctx op st st',
  else_op_ops st st' st.vf_exec,
  endif_op_ops st st' st.vf_exec,
  from_alt_stack_ops st st' st.altstack,
  if_op_ops ctx op st st',
)

exec_op_ops :
    (ctx : Context) (op pc : ℕ) (st st' : State)
    → st.n_op_count ≤ max_script_opcodes
    → exec_op ctx op pc st ≡ ok st'
    → st'.n_op_count ≤ max_script_opcodes
unfolding exec_op
exec_op_ops ctx op pc st st' le h = ground (arith, state_op_ops ctx op pc st st' le)

push_data_ops :
    (d : Option Bytes) (st st' : State) → push_data d st ≡ ok st' → st'.n_op_count ≡ st.n_op_count
unfolding push_data
push_data_ops none st st' h = cc
push_data_ops (some d) st st' h = ground arith

count_op_le : (op n m : ℕ) → n ≤ max_script_opcodes → count_op op n ≡ ok m → m ≤ max_script_opcodes
unfolding count_op
count_op_le op n m le h = ground arith

-- What a round that does not fail has passed.
pub step_inv :
    (ctx : Context) (op pc : ℕ) (sop_data : Option Bytes) (st st' : State)
    → step ctx op sop_data pc st ≡ ok st'
    → (n : ℕ) × (is_disabled op ≡ false)
      × (count_op op st.n_op_count ≡ ok n)
      × ((if leb op op_pushdata4
            then push_data sop_data (with_count st n)
            else if check_exec st.vf_exec || (leb op_if op && leb op op_endif)
            then exec_op ctx op pc (with_count st n)
            else ok (with_count st n))
          ≡ ok st')
      × (length st'.stack + length st'.altstack ≤ max_stack_items)
unfolding step
step_inv ctx op pc sop_data st st' h = elim (Bool-cases (is_disabled op)) [
  | inl e ↦ cc (rw e at h)
  | inr e ↦
      let (n, c, h1) = >>=-eq-ok (count_op op st.n_op_count) _ (rw e at h) in
      let (st1, b, h2) = >>=-eq-ok _ _ h1 in
      let (g, h3) =
        guard_passes (leb (length st1.stack + length st1.altstack) max_stack_items)
          (eval_script_error stack_limit) (ok st1) h2 in
      let same : st1 ≡ st' = ok-injective h3 in (n, e, c, b ∙ h3, ground (arith, leb→le _ _ g))
]

-- An opcode that does not fail keeps the limits.
pub step-IsBounded :
    (ctx : Context) (op pc : ℕ) (sop_data : Option Bytes) (st st' : State)
    → IsBounded st
    → step ctx op sop_data pc st ≡ ok st'
    → IsBounded st'
step-IsBounded ctx op pc sop_data st st' b h =
    let (n, _, counted, body, items) = step_inv ctx op pc sop_data st st' h in
    let le = count_op_le op st.n_op_count n b.ops counted in
    record {
      items = items;
      ops = ground (
        arith,
        exec_op_ops ctx op pc (with_count st n) st' le,
        push_data_ops sop_data (with_count st n) st',
      );
    }

-- A run that does not fail keeps the limits: both stacks together never have more than 1000 items
-- and at most 201 operations are counted.
pub run-IsBounded :
    (ctx : Context) (items : Items) (st st' : State)
    → IsBounded st
    → run ctx items st ≡ ok st'
    → IsBounded st'
unfolding run
run-IsBounded ctx stop st st' b h = record { items = ground arith; ops = ground arith }
run-IsBounded ctx (raise e) st st' b h = cc
run-IsBounded ctx (yields op d pc more) st st' b h =
    let (st1, first, rest) = >>=-eq-ok (step ctx op d pc st) _ h in
    run-IsBounded ctx more st1 st' (step-IsBounded ctx op pc d st st1 b first) rest
run-IsBounded ctx stuck st st' b h = cc

pub catch_invalid-ok : {A : Type 0} (m : Result A) (a : A) → catch_invalid m ≡ ok a → m ≡ ok a
unfolding catch_invalid
catch_invalid-ok (ok b) a h = h
catch_invalid-ok (err script_invalid_error) a h = cc
catch_invalid-ok (err (truncated_push_error d)) a h = cc
catch_invalid-ok (err e) a h = cc
