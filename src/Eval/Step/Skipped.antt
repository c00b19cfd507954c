-- ===== src/Eval/Step/Skipped.antt =====
-- Branches that are not executed: what is between OP_IF and OP_ENDIF there is skipped.
use mathlib.Core.Path.{subst}
use python_bitcointx.Prelude.{
  ==→eq, ℕ, zero, suc, ◌≡◌, refl, sym, ap, ◌∙◌, inl, inr, Bool, true, false, not, ◌||◌, Option,
  none, some, List, [], ◌∷◌, ◌++◌, length, Bytes, ◌==◌, if◌then◌else◌, arith, Bool-cases,
}
use python_bitcointx.Result.{ok, ok-injective, >>=-eq-ok}
use python_bitcointx.Opcodes.{op_if, op_notif, op_else, op_endif}
use python_bitcointx.Script.{Items, stop, raise, yields, stuck}
use python_bitcointx.Eval.{Context, State, check_exec}
use python_bitcointx.Eval.Step.{with_count, else_op, endif_op, step, run}
use python_bitcointx.Eval.Step.Idle.{idle_op, check_exec-append, step-idle_op}

-- How many conditionals are open behind an opcode, if `d` are open before it; none where it has no
-- conditional of its own.
unfoldable pub next_depth : ℕ → ℕ → Option ℕ
next_depth op d =
    if op == op_if || op == op_notif
    then some (suc d)
    else if op == op_else
    then elim d [ zero ↦ none | suc e ↦ some (suc e) ]
    else if op == op_endif
    then elim d [ zero ↦ none | suc e ↦ some e ]
    else some d

-- Items that end, with every conditional that they open closed and no other.
unfoldable pub is_nested : ℕ → Items → Bool
is_nested d stop = d == 0
is_nested d (raise e) = false
is_nested d (yields op sop_data pc more) = elim (next_depth op d) [
  | none ↦ false
  | some e ↦ is_nested e more
]
is_nested d stuck = false

-- What a state keeps of another, with `d` conditionals opened since.
record Keeps (st st' : State) (d : ℕ) : Type 0 where
  stack : st'.stack ≡ st.stack
  altstack : st'.altstack ≡ st.altstack
  code_start : st'.pbegincodehash ≡ st.pbegincodehash
  opened : List Bool
  vf_exec : st'.vf_exec ≡ opened ++ st.vf_exec
  depth : length opened ≡ d

Keeps-idle :
    (st st' : State) (d : ℕ)
    → check_exec st.vf_exec ≡ false
    → Keeps st st' d
    → check_exec st'.vf_exec ≡ false
Keeps-idle st st' d idle k = rw k.vf_exec (check_exec-append k.opened st.vf_exec idle)

-- What OP_ELSE and OP_ENDIF make of the branches that were opened.
Changed : (st st' : State) (vf_exec : List Bool) (d : ℕ) → Type 0
Changed st st' vf_exec d =
    (opened : List Bool) × (st'.vf_exec ≡ opened ++ vf_exec)
    × (length opened ≡ d)
    × (st'.stack ≡ st.stack)
    × (st'.altstack ≡ st.altstack)
    × (st'.pbegincodehash ≡ st.pbegincodehash)

else_op-Changed :
    (vf_exec opened : List Bool) (st st' : State) (d : ℕ)
    → st.vf_exec ≡ opened ++ vf_exec
    → length opened ≡ suc d
    → else_op st st.vf_exec ≡ ok st'
    → Changed st st' vf_exec (suc d)
unfolding else_op Changed
else_op-Changed vf_exec [] st st' d e len h = absurd (omega arith)
else_op-Changed vf_exec (b ∷ opened) st st' d e len h =
    let h' = rw e at h in (not b ∷ opened, ground arith, len, cc, cc, cc)

endif_op-Changed :
    (vf_exec opened : List Bool) (st st' : State) (d : ℕ)
    → st.vf_exec ≡ opened ++ vf_exec
    → length opened ≡ suc d
    → endif_op st st.vf_exec ≡ ok st'
    → Changed st st' vf_exec d
unfolding endif_op Changed
endif_op-Changed vf_exec [] st st' d e len h = absurd (omega arith)
endif_op-Changed vf_exec (b ∷ opened) st st' d e len h =
    let h' = rw e at h in (opened, ground arith, omega arith, cc, cc, cc)

Changed-Keeps :
    (st st1 st' : State) (d e : ℕ) → Keeps st st1 d → Changed st1 st' st.vf_exec e → Keeps st st' e
unfolding Changed
Changed-Keeps st st1 st' d e k c =
    let (opened, vf_exec, depth, stack, altstack, code_start) = c in
    record {
      stack = stack ∙ k.stack;
      altstack = altstack ∙ k.altstack;
      code_start = code_start ∙ k.code_start;
      opened = opened;
      vf_exec = vf_exec;
      depth = depth;
    }

next_depth-else : (d e : ℕ) → next_depth op_else d ≡ some e → (f : ℕ) × (d ≡ suc f) × (e ≡ suc f)
unfolding next_depth
next_depth-else zero e h = cc
next_depth-else (suc f) e h = (f, refl, ground arith)

next_depth-endif : (d e : ℕ) → next_depth op_endif d ≡ some e → d ≡ suc e
unfolding next_depth
next_depth-endif zero e h = cc
next_depth-endif (suc f) e h = ground arith

idle_op-Changed :
    (op d e : ℕ) (st st1 st' : State)
    → Keeps st st1 d
    → next_depth op d ≡ some e
    → idle_op op st1 ≡ ok st'
    → Changed st1 st' st.vf_exec e
unfolding idle_op
idle_op-Changed op d e st st1 st' k h r = elim (Bool-cases (op == op_if || op == op_notif)) [
  | inl c ↦
      let r' = ok-injective (rw c at r) in
      let h' : suc d ≡ e = unfold next_depth in ground arith in
      unfold Changed in
      (
        false ∷ k.opened,
        ap (λ x. x.vf_exec) (sym r') ∙ ap (λ t. false ∷ t) k.vf_exec,
        omega (arith, k.depth),
        cc,
        cc,
        cc,
      )
  | inr c ↦ elim (Bool-cases (op == op_else)) [
    | inl c' ↦
        let (f, before, behind) = next_depth-else d e (rw (==→eq op op_else c') at h) in
        rw behind (
          else_op-Changed st.vf_exec k.opened st1 st' f k.vf_exec (k.depth ∙ before)
            (rw (c, c') at r))
    | inr c' ↦ elim (Bool-cases (op == op_endif)) [
      | inl c'' ↦
          endif_op-Changed st.vf_exec k.opened st1 st' e k.vf_exec
            (k.depth ∙ next_depth-endif d e (rw (==→eq op op_endif c'') at h))
            (rw (c, c', c'') at r)
      | inr c'' ↦
          let r' = ok-injective (rw (c, c', c'') at r) in
          let h' : d ≡ e = unfold next_depth in ground arith in
          unfold Changed in
          (k.opened, ap (λ x. x.vf_exec) (sym r') ∙ k.vf_exec, k.depth ∙ h', cc, cc, cc)
    ]
  ]
]

Keeps-refl : (st : State) → Keeps st st 0
Keeps-refl st = record {
  stack = refl;
  altstack = refl;
  code_start = refl;
  opened = [];
  vf_exec = refl;
  depth = refl;
}

with_count-Keeps : (st st' : State) (n d : ℕ) → Keeps st st' d → Keeps st (with_count st' n) d
with_count-Keeps st st' n d k = record {
  stack = k.stack;
  altstack = k.altstack;
  code_start = k.code_start;
  opened = k.opened;
  vf_exec = k.vf_exec;
  depth = k.depth;
}

is_nested-yields :
    (d op pc : ℕ) (sop_data : Option Bytes) (more : Items)
    → is_nested d (yields op sop_data pc more) ≡ true
    → (e : ℕ) × (next_depth op d ≡ some e) × (is_nested e more ≡ true)
unfolding is_nested
is_nested-yields d op pc sop_data more h = go (next_depth op d) refl
  where
    go :
        (o : Option ℕ)
        → next_depth op d ≡ o
        → (e : ℕ) × (next_depth op d ≡ some e) × (is_nested e more ≡ true)
    go none same = cc (rw (is_nested, same) at h)
    go (some e) same = (e, same, rw (is_nested, same) at h)

run-Keeps :
    (ctx : Context) (d : ℕ) (items : Items) (st st1 st' : State)
    → check_exec st.vf_exec ≡ false
    → is_nested d items ≡ true
    → Keeps st st1 d
    → run ctx items st1 ≡ ok st'
    → Keeps st st' 0
unfolding run is_nested
run-Keeps ctx d stop st st1 st' idle nested k h =
    subst (λ x. Keeps st x 0) (ok-injective h) (subst (Keeps st st1) (==→eq d 0 nested) k)
run-Keeps ctx d (raise er) st st1 st' idle nested k h = cc
run-Keeps ctx d (yields op sop_data pc more) st st1 st' idle nested k h =
    let (st2, first, rest) = >>=-eq-ok (step ctx op sop_data pc st1) _ h in
    let (n, same) = step-idle_op ctx op pc sop_data st1 st2 (Keeps-idle st st1 d idle k) first in
    let (e, deeper, nested') = is_nested-yields d op pc sop_data more nested in
    let k' = with_count-Keeps st st1 n d k in
    run-Keeps ctx e more st st2 st' idle nested'
      (Changed-Keeps st (with_count st1 n) st2 d e k'
        (idle_op-Changed op d e st (with_count st1 n) st2 k' deeper same))
      rest
run-Keeps ctx d stuck st st1 st' idle nested k h = cc

-- Where a branch is not executed, items that close every conditional they open, and that have
-- OP_ELSE and OP_ENDIF only for those, leave both stacks, the branches and the start of the signed
-- code as they are, if they do not fail.
pub run-is_nested :
    (ctx : Context) (items : Items) (st st' : State)
    → check_exec st.vf_exec ≡ false
    → is_nested 0 items ≡ true
    → run ctx items st ≡ ok st'
    → (st'.stack ≡ st.stack)
      × (st'.altstack ≡ st.altstack)
      × (st'.vf_exec ≡ st.vf_exec)
      × (st'.pbegincodehash ≡ st.pbegincodehash)
run-is_nested ctx items st st' idle nested h =
    let k = run-Keeps ctx 0 items st st st' idle nested (Keeps-refl st) h in
    (k.stack, k.altstack, closed k.opened k.depth k.vf_exec, k.code_start)
  where
    closed :
        (opened : List Bool)
        → length opened ≡ 0
        → st'.vf_exec ≡ opened ++ st.vf_exec
        → st'.vf_exec ≡ st.vf_exec
    closed [] len e = e
    closed (b ∷ opened) len e = absurd (omega arith)
