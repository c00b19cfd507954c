-- ===== src/Eval/Numeric.antt =====
-- bitcointx/core/scripteval.py: `_UnaryOp` and `_BinOp`, and the opcodes that they serve.
pub mod Integers
pub mod Values
use python_bitcointx.Prelude.{ℕ, Bool, not, ◌&&◌, ◌||◌, List, ◌∷◌, drop, Bytes, ◌==◌, if◌then◌else◌}
use python_bitcointx.Prelude.Int.{ℤ, pos, neg_ℤ, ◌+ℤ◌, ◌-ℤ◌, ltb_ℤ, leb_ℤ, eq_ℤ}
use python_bitcointx.Result.{Result, ok, err, ◌>>=◌, ◌>>◌, assertion_error, verify_op_failed}
use python_bitcointx.Bignum.{bn2vch}
use python_bitcointx.Opcodes.{
  op_1add, op_1sub, op_negate, op_abs, op_not, op_0notequal, op_add, op_sub, op_booland, op_boolor,
  op_numequal, op_numequalverify, op_numnotequal, op_lessthan, op_greaterthan, op_lessthanorequal,
  op_greaterthanorequal, op_min, op_max,
}
use python_bitcointx.Eval.{check_args, item, cast_to_big_num, fail_eval}

-- Python's `int` of a truth value
abbrev pub int_of : Bool → ℤ
int_of b = if b then pos 1 else pos 0

unfoldable pub is_unop : ℕ → Bool
is_unop op =
    op == op_1add
    || op == op_1sub
    || op == op_negate
    || op == op_abs
    || op == op_not
    || op == op_0notequal

unfoldable pub is_binop : ℕ → Bool
is_binop op =
    op == op_add
    || op == op_sub
    || op == op_booland
    || op == op_boolor
    || op == op_numequal
    || op == op_numequalverify
    || op == op_numnotequal
    || op == op_lessthan
    || op == op_greaterthan
    || op == op_lessthanorequal
    || op == op_greaterthanorequal
    || op == op_min
    || op == op_max

-- The number that a unary opcode computes.
unfoldable pub unary_value : ℕ → ℤ → Result ℤ
unary_value op bn =
    if op == op_1add
    then ok (bn +ℤ pos 1)
    else if op == op_1sub
    then ok (bn -ℤ pos 1)
    else if op == op_negate
    then ok (neg_ℤ bn)
    else if op == op_abs
    then ok (if ltb_ℤ bn (pos 0) then neg_ℤ bn else bn)
    else if op == op_not
    then ok (int_of (eq_ℤ bn (pos 0)))
    else if op == op_0notequal
    then ok (int_of (not (eq_ℤ bn (pos 0))))
    else err assertion_error

unfoldable pub unary_op : ℕ → List Bytes → Result (List Bytes)
unary_op op stack = do
  check_args 1 stack
  bn ← cast_to_big_num (item stack 1)
  r ← unary_value op bn
  b ← bn2vch r
  ok (b ∷ drop 1 stack)

-- The number that a binary opcode computes; OP_NUMEQUALVERIFY is not among them.
unfoldable pub binary_value : ℕ → ℤ → ℤ → Result ℤ
binary_value op bn1 bn2 =
    if op == op_add
    then ok (bn1 +ℤ bn2)
    else if op == op_sub
    then ok (bn1 -ℤ bn2)
    else if op == op_booland
    then ok (int_of (not (eq_ℤ bn1 (pos 0)) && not (eq_ℤ bn2 (pos 0))))
    else if op == op_boolor
    then ok (int_of (not (eq_ℤ bn1 (pos 0)) || not (eq_ℤ bn2 (pos 0))))
    else if op == op_numequal
    then ok (int_of (eq_ℤ bn1 bn2))
    else if op == op_numnotequal
    then ok (int_of (not (eq_ℤ bn1 bn2)))
    else if op == op_lessthan
    then ok (int_of (ltb_ℤ bn1 bn2))
    else if op == op_greaterthan
    then ok (int_of (ltb_ℤ bn2 bn1))
    else if op == op_lessthanorequal
    then ok (int_of (leb_ℤ bn1 bn2))
    else if op == op_greaterthanorequal
    then ok (int_of (leb_ℤ bn2 bn1))
    else if op == op_min
    then ok (if ltb_ℤ bn1 bn2 then bn1 else bn2)
    else if op == op_max
    then ok (if ltb_ℤ bn2 bn1 then bn1 else bn2)
    else err assertion_error

unfoldable pub bin_op : ℕ → List Bytes → Result (List Bytes)
bin_op op stack = do
  check_args 2 stack
  bn2 ← cast_to_big_num (item stack 1)
  bn1 ← cast_to_big_num (item stack 2)
  if op == op_numequalverify
      then (if eq_ℤ bn1 bn2 then ok (drop 2 stack) else fail_eval verify_op_failed)
      else (do r ← binary_value op bn1 bn2; b ← bn2vch r; ok (b ∷ drop 2 stack))
