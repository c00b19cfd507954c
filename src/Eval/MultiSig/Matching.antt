-- ===== src/Eval/MultiSig/Matching.antt =====
-- The loop of `_CheckMultiSig`, which takes keys greedily, against the existence of an assignment.
use mathlib.Core.Logic.{◌↔◌}
use python_bitcointx.Prelude.{
  ℕ, zero, suc, ◌+◌, ◌≤◌, ◌≡◌, refl, sym, ◌∙◌, ◌⊎◌, inl, inr, Bool, true, false, List, [], ◌∷◌,
  length, All, Bytes, ltb, arith, Bool-cases, le→ltb_false, ltb→lt, ltb_false→le,
}
use python_bitcointx.Result.{ok}
use python_bitcointx.Eval.{Context, item}
use python_bitcointx.Eval.Signature.{check_sig}
use python_bitcointx.Eval.MultiSig.{match_sigs}

-- `count` items of a stack, from `stack[-n]` down
abbrev pub items_from : List Bytes → (n count : ℕ) → List Bytes
items_from stack n zero = []
items_from stack n (suc count) = item stack n ∷ items_from stack (n + 1) count

-- Each signature fits a key of its own, in the order of the keys.
abbrev pub IsAssignable : (Bytes → Bytes → Bool) → (sigs keys : List Bytes) → Type 0
IsAssignable fits [] keys = Unit
IsAssignable fits (s ∷ sigs) [] = true ≡ false
IsAssignable fits (s ∷ sigs) (k ∷ keys) =
    ((fits s k ≡ true) × IsAssignable fits sigs keys) ⊎ IsAssignable fits (s ∷ sigs) keys

module _ (fits : Bytes → Bytes → Bool) where
  IsAssignable-tail :
      (s : Bytes) (sigs keys : List Bytes)
      → IsAssignable fits (s ∷ sigs) keys
      → IsAssignable fits sigs keys
  IsAssignable-tail s [] keys h = tt
  IsAssignable-tail s (t ∷ sigs) [] h = h
  IsAssignable-tail s (t ∷ sigs) (k ∷ keys) (inl (f, h)) = inr h
  IsAssignable-tail s (t ∷ sigs) (k ∷ keys) (inr h) = inr (IsAssignable-tail s (t ∷ sigs) keys h)

  IsAssignable-length :
      (sigs keys : List Bytes) → IsAssignable fits sigs keys → length sigs ≤ length keys
  IsAssignable-length [] keys h = omega arith
  IsAssignable-length (s ∷ sigs) [] h = cc
  IsAssignable-length (s ∷ sigs) (k ∷ keys) (inl (f, h)) =
      omega (arith, IsAssignable-length sigs keys h)
  IsAssignable-length (s ∷ sigs) (k ∷ keys) (inr h) =
      omega (arith, IsAssignable-length (s ∷ sigs) keys h)

  -- Taking the first key that fits loses nothing.
  IsAssignable-greedy :
      (s k : Bytes) (sigs keys : List Bytes)
      → IsAssignable fits (s ∷ sigs) (k ∷ keys)
      → IsAssignable fits sigs keys
  IsAssignable-greedy s k sigs keys (inl (f, h)) = h
  IsAssignable-greedy s k sigs keys (inr h) = IsAssignable-tail s sigs keys h

  IsAssignable-skip :
      (s k : Bytes) (sigs keys : List Bytes)
      → fits s k ≡ false
      → IsAssignable fits (s ∷ sigs) (k ∷ keys)
      → IsAssignable fits (s ∷ sigs) keys
  IsAssignable-skip s k sigs keys miss (inl (f, h)) = cc
  IsAssignable-skip s k sigs keys miss (inr h) = h

length-items_from : (stack : List Bytes) (n count : ℕ) → length (items_from stack n count) ≡ count
length-items_from stack n zero = refl
length-items_from stack n (suc count) = ground (arith, length-items_from stack (n + 1) count)

-- The three ways that one round goes.
module _ (ctx : Context) (script : Bytes) (stack : List Bytes) (keys sigs ikey isig : ℕ)
    (fits : Bool)
    (checked : check_sig ctx (item stack isig) (item stack ikey) script ≡ ok fits) where
  match_sigs-hit :
      fits ≡ true
      → ltb keys sigs ≡ false
      → match_sigs ctx script stack (suc keys) (suc sigs) ikey isig
        ≡ match_sigs ctx script stack keys sigs (ikey + 1) (isig + 1)
  unfolding match_sigs
  match_sigs-hit hit enough = rw (checked, hit, enough) refl

  match_sigs-miss :
      fits ≡ false
      → ltb keys (suc sigs) ≡ false
      → match_sigs ctx script stack (suc keys) (suc sigs) ikey isig
        ≡ match_sigs ctx script stack keys (suc sigs) (ikey + 1) isig
  unfolding match_sigs
  match_sigs-miss miss enough = rw (checked, miss, enough) refl

  match_sigs-few :
      fits ≡ false
      → ltb keys (suc sigs) ≡ true
      → match_sigs ctx script stack (suc keys) (suc sigs) ikey isig ≡ ok false
  unfolding match_sigs
  match_sigs-few miss few = rw (checked, miss, few) refl

-- The check of each of the signatures against each of the keys returns what `fits` tells.
abbrev pub AreChecked :
    Context → (script : Bytes) → (Bytes → Bytes → Bool) → (sigs keys : List Bytes) → Type 0
AreChecked ctx script fits sigs keys =
    All (λ sig. All (λ key. check_sig ctx sig key script ≡ ok (fits sig key)) keys) sigs

AreChecked-tail :
    (ctx : Context) (script : Bytes) (fits : Bytes → Bytes → Bool) (sigs : List Bytes) (k : Bytes)
    (keys : List Bytes)
    → AreChecked ctx script fits sigs (k ∷ keys)
    → AreChecked ctx script fits sigs keys
AreChecked-tail ctx script fits [] k keys h = tt
AreChecked-tail ctx script fits (s ∷ sigs) k keys (h, hs) =
    (h.1, AreChecked-tail ctx script fits sigs k keys hs)

-- When the check of each signature of the operation against each of its keys returns, the loop of
-- CHECKMULTISIG over at least as many keys as signatures succeeds exactly if each signature can be
-- given a key of its own that it fits, in the order of the keys.
pub match_sigs_iff :
    (ctx : Context) (script : Bytes) (stack : List Bytes) (fits : Bytes → Bytes → Bool)
    (keys sigs ikey isig : ℕ)
    → AreChecked ctx script fits (items_from stack isig sigs) (items_from stack ikey keys)
    → sigs ≤ keys
    → (match_sigs ctx script stack keys sigs ikey isig ≡ ok true)
      ↔ IsAssignable fits (items_from stack isig sigs) (items_from stack ikey keys)
unfolding match_sigs
match_sigs_iff ctx script stack fits zero zero ikey isig total le = ((λ e. tt), (λ a. refl))
match_sigs_iff ctx script stack fits (suc keys) zero ikey isig total le = ((λ e. tt), (λ a. refl))
match_sigs_iff ctx script stack fits zero (suc sigs) ikey isig total le = absurd (omega (arith, le))
match_sigs_iff ctx script stack fits (suc keys) (suc sigs) ikey isig total le =
    let s : Bytes = item stack isig in
    let k : Bytes = item stack ikey in
    let ss : List Bytes = items_from stack (isig + 1) sigs in
    let ks : List Bytes = items_from stack (ikey + 1) keys in
    let checked = total.0.0 in
    let later = AreChecked-tail ctx script fits ss k ks total.1 in
    let others = AreChecked-tail ctx script fits (s ∷ ss) k ks total in
    elim (Bool-cases (fits s k)) [
      | inl hit ↦
          let enough : ltb keys sigs ≡ false = le→ltb_false keys sigs (omega (arith, le)) in
          let ih =
            match_sigs_iff ctx script stack fits keys sigs (ikey + 1) (isig + 1) later
              (omega (arith, le)) in
          let round =
            match_sigs-hit ctx script stack keys sigs ikey isig (fits s k) checked hit enough in
          (
            (λ e. inl (hit, ih.0 (sym round ∙ e))),
            (λ a. round ∙ ih.1 (IsAssignable-greedy fits s k ss ks a)),
          )
      | inr miss ↦ elim (Bool-cases (ltb keys (suc sigs))) [
        | inl few ↦
            let round =
              match_sigs-few ctx script stack keys sigs ikey isig (fits s k) checked miss few in
            (
              (λ e. cc (sym round ∙ e)),
              (λ a. absurd (
                  omega (
                    arith,
                    ltb→lt keys (suc sigs) few,
                    IsAssignable-length fits (s ∷ ss) ks (IsAssignable-skip fits s k ss ks miss a),
                    length-items_from stack (isig + 1) sigs,
                    length-items_from stack (ikey + 1) keys,
                  ))),
            )
        | inr enough ↦
            let ih =
              match_sigs_iff ctx script stack fits keys (suc sigs) (ikey + 1) isig others
                (ltb_false→le keys (suc sigs) enough) in
            let round =
              match_sigs-miss ctx script stack keys sigs ikey isig (fits s k) checked miss enough in
            (
              (λ e. inr (ih.0 (sym round ∙ e))),
              (λ a. round ∙ ih.1 (IsAssignable-skip fits s k ss ks miss a)),
            )
      ]
    ]
