-- ===== src/Eval/Stack.antt =====
-- bitcointx/core/scripteval.py: the opcodes of `_EvalScript` that change nothing but the stack, the
-- numeric ones and those that check signatures left out.
use python_bitcointx.Prelude.{
  ℕ, ◌+◌, Bool, ◌&&◌, ◌||◌, Option, none, some, List, ◌∷◌, length, drop, Bytes, bytes_eq, leb, ◌==◌,
  if◌then◌else◌,
}
use python_bitcointx.Prelude.Int.{ℤ, pos, negsuc, ltb_ℤ, leb_ℤ}
use python_bitcointx.Result.{Result, ok, ◌>>=◌, ◌>>◌, verify_op_failed, out_of_bounds}
use python_bitcointx.Bignum.{bn2vch}
use python_bitcointx.Opcodes.{
  op_2drop, op_2dup, op_2over, op_2rot, op_2swap, op_3dup, op_depth, op_drop, op_dup, op_equal,
  op_equalverify, op_hash160, op_hash256, op_ifdup, op_nip, op_over, op_pick, op_roll, op_ripemd160,
  op_rot, op_size, op_sha1, op_sha256, op_swap, op_tuck, op_verify, op_within,
}
use python_bitcointx.Eval.{
  Crypto, check_args, item, delete, assign, cast_to_big_num, cast_to_bool, fail_eval, truth,
}

unfoldable pub swap_items : ℕ → ℕ → List Bytes → List Bytes
swap_items m n stack = assign (assign stack m (item stack n)) n (item stack m)

-- OP_PICK and OP_ROLL, on the stack without their argument
unfoldable pub pick_or_roll : Bool → ℤ → List Bytes → Result (List Bytes)
pick_or_roll roll (negsuc n) stack = fail_eval out_of_bounds
pick_or_roll roll (pos n) stack =
    if leb (length stack) n
    then fail_eval out_of_bounds
    else ok (item stack (n + 1) ∷ (if roll then delete stack (n + 1) else stack))

-- OP_WITHIN
unfoldable pub within : List Bytes → Result (List Bytes)
within stack = do
  check_args 3 stack
  bn3 ← cast_to_big_num (item stack 1)
  bn2 ← cast_to_big_num (item stack 2)
  bn1 ← cast_to_big_num (item stack 3)
  ok (truth (leb_ℤ bn2 bn1 && ltb_ℤ bn1 bn3) ∷ drop 3 stack)

-- The opcodes that move items.
unfoldable pub move_op : ℕ → List Bytes → Option (Result (List Bytes))
move_op op s =
    if op == op_2drop
    then some (do check_args 2 s; ok (drop 2 s))
    else if op == op_2dup
    then some (do check_args 2 s; ok (item s 1 ∷ item s 2 ∷ s))
    else if op == op_2over
    then some (do check_args 4 s; ok (item s 3 ∷ item s 4 ∷ s))
    else if op == op_2rot
    then some (do check_args 6 s; ok (item s 5 ∷ item s 6 ∷ delete (delete s 6) 5))
    else if op == op_2swap
    then some (do check_args 4 s; ok (swap_items 3 1 (swap_items 4 2 s)))
    else if op == op_3dup
    then some (do check_args 3 s; ok (item s 1 ∷ item s 2 ∷ item s 3 ∷ s))
    else if op == op_drop
    then some (do check_args 1 s; ok (drop 1 s))
    else if op == op_dup
    then some (do check_args 1 s; ok (item s 1 ∷ s))
    else if op == op_nip
    then some (do check_args 2 s; ok (delete s 2))
    else if op == op_over
    then some (do check_args 2 s; ok (item s 2 ∷ s))
    else if op == op_rot
    then some (do check_args 3 s; ok (swap_items 2 1 (swap_items 3 2 s)))
    else if op == op_swap
    then some (do check_args 2 s; ok (swap_items 2 1 s))
    else if op == op_tuck
    then some (do check_args 2 s; ok (item s 1 ∷ item s 2 ∷ item s 1 ∷ drop 2 s))
    else none

-- The opcodes that read what the items are.
unfoldable pub data_op : Crypto → ℕ → List Bytes → Option (Result (List Bytes))
data_op c op s =
    if op == op_depth
    then some (do b ← bn2vch (pos (length s)); ok (b ∷ s))
    else if op == op_equal
    then some (do check_args 2 s; ok (truth (bytes_eq (item s 1) (item s 2)) ∷ drop 2 s))
    else if op == op_equalverify
    then some (do
      check_args 2 s
      if bytes_eq (item s 1) (item s 2) then ok (drop 2 s) else fail_eval verify_op_failed)
    else if op == op_hash160
    then some (do check_args 1 s; ok (c.hash160 (item s 1) ∷ drop 1 s))
    else if op == op_hash256
    then some (do check_args 1 s; ok (c.hash256 (item s 1) ∷ drop 1 s))
    else if op == op_ifdup
    then some (do check_args 1 s; ok (if cast_to_bool (item s 1) then item s 1 ∷ s else s))
    else if op == op_pick || op == op_roll
    then some (do
      check_args 2 s
      n ← cast_to_big_num (item s 1)
      pick_or_roll (op == op_roll) n (drop 1 s))
    else if op == op_ripemd160
    then some (do check_args 1 s; ok (c.ripemd160 (item s 1) ∷ drop 1 s))
    else if op == op_size
    then some (do check_args 1 s; b ← bn2vch (pos (length (item s 1))); ok (b ∷ s))
    else if op == op_sha1
    then some (do check_args 1 s; ok (c.sha1 (item s 1) ∷ drop 1 s))
    else if op == op_sha256
    then some (do check_args 1 s; ok (c.sha256 (item s 1) ∷ drop 1 s))
    else if op == op_verify
    then some (do
      check_args 1 s
      if cast_to_bool (item s 1) then ok (drop 1 s) else fail_eval verify_op_failed)
    else if op == op_within
    then some (within s)
    else none
