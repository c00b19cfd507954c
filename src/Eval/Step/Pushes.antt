-- ===== src/Eval/Step/Pushes.antt =====
-- A script of pushes, as `CScript` makes it from byte strings, run by the interpreter.
use python_bitcointx.Prelude.{
  ℕ, ◌+◌, ◌≤◌, ◌≡◌, refl, sym, ap, ◌∙◌, false, some, List, [], ◌∷◌, length, Bytes, All, arith,
  le→leb,
}
use python_bitcointx.Result.{ok-injective, ok}
use python_bitcointx.Script.{raw_iter}
use python_bitcointx.Script.Iter.{print_ops, items_of, tail_bytes}
use python_bitcointx.Script.Build.{make_script, pushed_all}
use python_bitcointx.Script.Build.Data.{
  push_opcode, push_ops, IsPushable, make_script-pushed_all, raw_iter-push_ops,
}
use python_bitcointx.Eval.{Context, check_exec}
use python_bitcointx.Eval.Step.{
  is_disabled, count_op, push_data, step, run, initial, eval_script, eval_script_raw, catch_invalid,
}

abbrev pub IsElement : Bytes → Type 0
IsElement d = length d ≤ 520

IsElement-IsPushable : (ds : List Bytes) → All IsElement ds → All IsPushable ds
IsElement-IsPushable [] h = tt
IsElement-IsPushable (d ∷ ds) h = (omega (arith, h.0), IsElement-IsPushable ds h.1)

-- The items with the last one first.
unfoldable pub stacked : List Bytes → List Bytes → List Bytes
stacked [] stack = stack
stacked (d ∷ ds) stack = stacked ds (d ∷ stack)

push_opcode_le : (n : ℕ) → push_opcode n ≤ 0x4e
unfolding push_opcode
push_opcode_le n = ground arith

is_disabled-push : (op : ℕ) → op ≤ 0x4e → is_disabled op ≡ false
unfolding is_disabled
is_disabled-push op h = ground arith

step_push :
    (ctx : Context) (op i : ℕ) (d : Bytes) (stack : List Bytes)
    → op ≤ 0x4e
    → IsElement d
    → length stack + 1 ≤ 1000
    → step ctx op (some d) i (initial stack) ≡ ok (initial (d ∷ stack))
unfolding step count_op check_exec push_data
step_push ctx op i d stack le short room = rw (is_disabled-push op le) (ground arith)

run-push_ops :
    (ctx : Context) (ds stack : List Bytes) (i : ℕ)
    → All IsElement ds
    → length stack + length ds ≤ 1000
    → run ctx (items_of (push_ops ds) i) (initial stack) ≡ ok (initial (stacked ds stack))
unfolding run items_of stacked
run-push_ops ctx [] stack i h room = refl
run-push_ops ctx (d ∷ ds) stack i h room =
    rw
      (step_push ctx (push_opcode (length d)) i d stack (push_opcode_le (length d)) h.0
        (omega arith))
      (run-push_ops ctx ds (d ∷ stack)
        (i + 1 + length (tail_bytes (push_opcode (length d)) (some d))) h.1 (omega arith))

-- The script that `CScript` makes from at most 1000 byte strings of at most 520 bytes each, if it is
-- at most 10000 bytes long, evaluates to the stack of exactly those byte strings, the last one on
-- top.
pub eval_script-pushed_all :
    (ctx : Context) (ds : List Bytes)
    → make_script (pushed_all ds) ≡ ok ctx.script_in
    → length ctx.script_in ≤ 10000
    → All IsElement ds
    → length ds ≤ 1000
    → eval_script ctx [] ≡ ok (stacked ds [])
unfolding eval_script eval_script_raw
eval_script-pushed_all ctx ds made small h few =
    let pushable = IsElement-IsPushable ds h in
    let same : ctx.script_in ≡ print_ops (push_ops ds) =
      ok-injective (sym made ∙ make_script-pushed_all ds pushable) in
    let iter : raw_iter ctx.script_in ≡ items_of (push_ops ds) 0 =
      ap raw_iter same ∙ raw_iter-push_ops ds pushable in
    rw (le→leb _ _ small, iter, run-push_ops ctx ds [] 0 h (omega arith))
      (unfold catch_invalid in refl)
