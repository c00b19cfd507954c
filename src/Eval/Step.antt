-- ===== src/Eval/Step.antt =====
-- bitcointx/core/scripteval.py: one opcode of `_EvalScript`, its loop, and EvalScript.
pub mod Laws
pub mod Pushes
pub mod Idle
pub mod Skipped
use python_bitcointx.Prelude.{
  ℕ, ◌+◌, ◌-◌, Bool, true, false, not, ◌&&◌, ◌||◌, Option, none, some, List, [], ◌∷◌, length,
  get_or, drop, Bytes, leb, ltb, ◌==◌, if◌then◌else◌,
}
use python_bitcointx.Prelude.Int.{pos, ◌-ℤ◌}
use python_bitcointx.Result.{
  Error, Result, ok, err, ◌>>=◌, ◌>>◌, guard, assertion_error, script_invalid_error,
  truncated_push_error, eval_script_error, verify_script_error, script_too_large, opcode_disabled,
  max_op_count, push_size, missing_arguments, else_without_if, endif_without_if, upgradable_nop,
  return_called, unsupported_opcode, stack_limit, unterminated_if, invalid_script, minimal_if,
  serialization_error, truncation_error, value_bounds_error, extra_data_error, value_error,
  struct_error, check_transaction_error,
}
use python_bitcointx.Bignum.{bn2vch}
use python_bitcointx.Opcodes.{
  op_pushdata4, op_1negate, op_1, op_16, op_if, op_notif, op_else, op_endif, op_checkmultisig,
  op_checkmultisigverify, op_checksig, op_checksigverify, op_codeseparator, op_fromaltstack,
  op_toaltstack, op_nop, op_nop1, op_nop10, op_return, op_verif, op_vernotif, op_cat, op_substr,
  op_left, op_right, op_invert, op_and, op_or, op_xor, op_2mul, op_2div, op_mul, op_div, op_mod,
  op_lshift, op_rshift,
}
use python_bitcointx.Script.{Items, stop, raise, yields, stuck, raw_iter}
use python_bitcointx.Script.Templates.{max_script_size, max_script_element_size}
use python_bitcointx.Eval.{
  verify_minimalif, verify_discourage_upgradable_nops, Context, State, check_args, item,
  cast_to_bool, check_exec, fail_eval, fail_verify, is_base, max_stack_items, max_script_opcodes,
}
use python_bitcointx.Eval.Numeric.{is_binop, is_unop, bin_op, unary_op}
use python_bitcointx.Eval.Stack.{move_op, data_op}
use python_bitcointx.Eval.MultiSig.{check_sig_op, check_multi_sig}

-- DISABLED_OPCODES
unfoldable pub is_disabled : ℕ → Bool
is_disabled op =
    op == op_verif
    || op == op_vernotif
    || op == op_cat
    || op == op_substr
    || op == op_left
    || op == op_right
    || op == op_invert
    || op == op_and
    || op == op_or
    || op == op_xor
    || op == op_2mul
    || op == op_2div
    || op == op_mul
    || op == op_div
    || op == op_mod
    || op == op_lshift
    || op == op_rshift

abbrev pub with_stack : State → List Bytes → State
with_stack st s = record {
  stack = s;
  altstack = st.altstack;
  vf_exec = st.vf_exec;
  pbegincodehash = st.pbegincodehash;
  n_op_count = st.n_op_count;
}

abbrev pub with_stacks : State → List Bytes → List Bytes → State
with_stacks st s alt = record {
  stack = s;
  altstack = alt;
  vf_exec = st.vf_exec;
  pbegincodehash = st.pbegincodehash;
  n_op_count = st.n_op_count;
}

abbrev pub with_exec : State → List Bytes → List Bool → State
with_exec st s vf_exec = record {
  stack = s;
  altstack = st.altstack;
  vf_exec = vf_exec;
  pbegincodehash = st.pbegincodehash;
  n_op_count = st.n_op_count;
}

abbrev pub with_code_hash : State → ℕ → State
with_code_hash st pc = record {
  stack = st.stack;
  altstack = st.altstack;
  vf_exec = st.vf_exec;
  pbegincodehash = pc;
  n_op_count = st.n_op_count;
}

abbrev pub with_count : State → ℕ → State
with_count st n = record {
  stack = st.stack;
  altstack = st.altstack;
  vf_exec = st.vf_exec;
  pbegincodehash = st.pbegincodehash;
  n_op_count = n;
}

-- OP_ELSE and OP_ENDIF
unfoldable pub else_op : State → List Bool → Result State
else_op st [] = fail_eval else_without_if
else_op st (b ∷ vf_exec) = ok (with_exec st st.stack (not b ∷ vf_exec))

unfoldable pub endif_op : State → List Bool → Result State
endif_op st [] = fail_eval endif_without_if
endif_op st (b ∷ vf_exec) = ok (with_exec st st.stack vf_exec)

-- OP_IF and OP_NOTIF, when executed
unfoldable pub if_op : Context → ℕ → State → Result State
if_op ctx op st = do
  check_args 1 st.stack
  let vch = item st.stack 1
  guard
      (not (not (is_base ctx.sigversion) && ctx.flags verify_minimalif)
        || not (ltb 1 (length vch) || (length vch == 1 && not (get_or vch 0 0 == 1))))
      (verify_script_error minimal_if)
  let val = cast_to_bool vch
  ok (with_exec st (drop 1 st.stack) ((if op == op_notif then not val else val) ∷ st.vf_exec))

-- OP_FROMALTSTACK
unfoldable pub from_alt_stack : State → List Bytes → Result State
from_alt_stack st [] = fail_eval (missing_arguments 1)
from_alt_stack st (v ∷ alt) = ok (with_stacks st (v ∷ st.stack) alt)

-- The opcodes that act on more of the state than the stack.
unfoldable pub state_op : Context → ℕ → ℕ → State → Result State
state_op ctx op pc st =
    if op == op_checkmultisig || op == op_checkmultisigverify
    then check_multi_sig ctx op st
    else if op == op_checksig || op == op_checksigverify
    then check_sig_op ctx op st
    else if op == op_codeseparator
    then ok (with_code_hash st (pc + 1))
    else if op == op_else
    then else_op st st.vf_exec
    else if op == op_endif
    then endif_op st st.vf_exec
    else if op == op_fromaltstack
    then from_alt_stack st st.altstack
    else if op == op_if || op == op_notif
    then (if check_exec st.vf_exec
        then if_op ctx op st
        else ok (with_exec st st.stack (false ∷ st.vf_exec)))
    else if op == op_nop
    then ok st
    else if leb op_nop1 op && leb op op_nop10
    then (if ctx.flags verify_discourage_upgradable_nops then fail_eval upgradable_nop else ok st)
    else if op == op_return
    then fail_eval return_called
    else if op == op_toaltstack
    then (do
      check_args 1 st.stack
      ok (with_stacks st (drop 1 st.stack) (item st.stack 1 ∷ st.altstack)))
    else fail_eval unsupported_opcode

-- An opcode of which the stack is all that changes, or any other.
unfoldable pub stack_op : Context → ℕ → List Bytes → Option (Result (List Bytes))
stack_op ctx op s =
    if op == op_1negate || (leb op_1 op && leb op op_16)
    then some (do b ← bn2vch (pos op -ℤ pos (op_1 - 1)); ok (b ∷ s))
    else if is_binop op
    then some (bin_op op s)
    else if is_unop op
    then some (unary_op op s)
    else elim (move_op op s) [ some r ↦ some r | none ↦ data_op ctx.crypto op s ]

unfoldable pub exec_op : Context → ℕ → ℕ → State → Result State
exec_op ctx op pc st = elim (stack_op ctx op st.stack) [
  | some r ↦ r >>= λ s. ok (with_stack st s)
  | none ↦ state_op ctx op pc st
]

-- `if sop > OP_16: ...`: the count of operations
unfoldable pub count_op : ℕ → ℕ → Result ℕ
count_op op n =
    if ltb op_16 op
    then (if ltb max_script_opcodes (n + 1) then fail_eval max_op_count else ok (n + 1))
    else ok n

-- A push, of the data that the opcode came with.
unfoldable pub push_data : Option Bytes → State → Result State
push_data none st = err assertion_error
push_data (some d) st =
    if ltb max_script_element_size (length d)
    then fail_eval push_size
    else if check_exec st.vf_exec
    then ok (with_stack st (d ∷ st.stack))
    else ok st

-- One round of the loop of `_EvalScript`.
unfoldable pub step : Context → ℕ → Option Bytes → ℕ → State → Result State
step ctx op sop_data pc st = if is_disabled op then fail_eval opcode_disabled else (do
  n ← count_op op st.n_op_count
  let counted = with_count st n
  st' ←
      if leb op op_pushdata4
      then push_data sop_data counted
      else if check_exec st.vf_exec || (leb op_if op && leb op op_endif)
      then exec_op ctx op pc counted
      else ok counted
  guard (leb (length st'.stack + length st'.altstack) max_stack_items)
      (eval_script_error stack_limit)
  ok st')

unfoldable pub run : Context → Items → State → Result State
run ctx stop st = ok st
run ctx (raise e) st = err e
run ctx (yields op sop_data pc more) st = do st' ← step ctx op sop_data pc st; run ctx more st'
run ctx stuck st = err assertion_error

abbrev pub initial : List Bytes → State
initial stack = record {
  stack = stack;
  altstack = [];
  vf_exec = [];
  pbegincodehash = 0;
  n_op_count = 0;
}

-- _EvalScript: the stack that it leaves.
unfoldable pub eval_script_raw : Context → List Bytes → Result (List Bytes)
eval_script_raw ctx stack = do
  guard (leb (length ctx.script_in) max_script_size) (eval_script_error script_too_large)
  st ← run ctx (raw_iter ctx.script_in) (initial stack)
  guard (length st.vf_exec == 0) (eval_script_error unterminated_if)
  ok st.stack

-- `except CScriptInvalidError as err: raise EvalScriptError(...)`
unfoldable pub catch_invalid : {A : Type 0} → Result A → Result A
catch_invalid (ok a) = ok a
catch_invalid (err script_invalid_error) = fail_eval invalid_script
catch_invalid (err (truncated_push_error d)) = fail_eval invalid_script
catch_invalid (err e) = err e

-- EvalScript
unfoldable pub eval_script : Context → List Bytes → Result (List Bytes)
eval_script ctx stack = catch_invalid (eval_script_raw ctx stack)
