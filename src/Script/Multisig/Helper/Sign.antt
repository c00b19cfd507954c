-- ===== src/Script/Multisig/Helper/Sign.antt =====
-- ComplexScriptSignatureHelper.sign of bitcointx/core/script.py: when it completes, for a standard
-- multisig script.
use python_bitcointx.Prelude.{
  ℕ, suc, ◌+◌, ◌≤◌, ◌<◌, ◌≡◌, ◌≢◌, refl, sym, ap, ◌∙◌, min, true, false, Option, none, some, List,
  [], ◌∷◌, ◌++◌, append_assoc, arith, length, length-append, Bytes, bytes_eq, bytes_eq_refl, ◌==◌,
  Bool-cases, ==→eq, ◌⊎◌, inl, inr,
}
use mathlib.Core.Path.{subst}
use python_bitcointx.Result.{ok}
use python_bitcointx.SigHash.{element}
use python_bitcointx.Script.Multisig.{MultisigInfo, contains_key, all_different}
use python_bitcointx.Script.Multisig.Helper.{
  Helper, present, num_sigs_missing, is_enough_signatures, find_key, set_sig, store_sig, collect_at,
  collect_sig, is_missing, sign_loop,
}

present-append : (xs ys : List (Option Bytes)) → present (xs ++ ys) ≡ present xs ++ present ys
unfolding present
present-append [] ys = refl
present-append (none ∷ xs) ys = present-append xs ys
present-append (some s ∷ xs) ys = ap (λ t. s ∷ t) (present-append xs ys)

-- How many of the keys have a signature.
abbrev pub num_sigs : List (Option Bytes) → ℕ
num_sigs sigs = length (present sigs)

num_sigs-none : (xs ys : List (Option Bytes)) → num_sigs (xs ++ none ∷ ys) ≡ num_sigs (xs ++ ys)
unfolding present
num_sigs-none xs ys = rw (present-append xs (none ∷ ys), present-append xs ys) refl

num_sigs-some :
    (xs ys : List (Option Bytes)) (s : Bytes)
    → num_sigs (xs ++ some s ∷ ys) ≡ suc (num_sigs (xs ++ ys))
unfolding present
num_sigs-some xs ys s =
    rw (present-append xs (some s ∷ ys), present-append xs ys)
      (omega (
        arith,
        length-append (present xs) (s ∷ present ys),
        length-append (present xs) (present ys),
      ))

pub is_enough-eq :
    (h : Helper)
    → num_sigs h.signatures ≤ h.script_info.required
    → is_enough_signatures h ≡ ok (num_sigs h.signatures == h.script_info.required)
unfolding is_enough_signatures num_sigs_missing
is_enough-eq h le = ground arith

contains_key_middle :
    (done : List Bytes) (key d : Bytes) (keys : List Bytes)
    → bytes_eq key d ≡ true
    → contains_key (done ++ key ∷ keys) d ≡ true
unfolding contains_key
contains_key_middle [] key d keys e = rw e refl
contains_key_middle (k ∷ done) key d keys e = ground (arith, contains_key_middle done key d keys)

find_key_here :
    (done : List Bytes) (key : Bytes) (keys : List Bytes) (i : ℕ)
    → all_different (done ++ key ∷ keys) ≡ true
    → find_key (done ++ key ∷ keys) key i ≡ some (i + length done)
unfolding find_key all_different
find_key_here [] key keys i h = rw (bytes_eq_refl key) (ap some (omega arith))
find_key_here (d ∷ done) key keys i h = elim (Bool-cases (bytes_eq key d)) [
  | inl same ↦ absurd (ground (arith, contains_key_middle done key d keys))
  | inr other ↦
      rw other (find_key_here done key keys (suc i) (ground arith) ∙ ap some (omega arith))
]

element-append : {A : Type 0} (xs ys : List A) (a : A) → element (xs ++ a ∷ ys) (length xs) ≡ ok a
unfolding element
element-append [] ys a = refl
element-append (x ∷ xs) ys a = element-append xs ys a

set_sig-append :
    (xs ys : List (Option Bytes)) (s : Option Bytes) (sig : Bytes)
    → set_sig (xs ++ s ∷ ys) (length xs) sig ≡ xs ++ some sig ∷ ys
unfolding set_sig
set_sig-append [] ys s sig = refl
set_sig-append (x ∷ xs) ys s sig = ap (λ t. x ∷ t) (set_sig-append xs ys s sig)

module _ (script : Bytes) (info : MultisigInfo) where
  abbrev pub with_sigs : List (Option Bytes) → Helper
  with_sigs sigs = record { script = script; script_info = info; signatures = sigs }

  -- The collection of a signature while there are too few.
  is_enough_low :
      (sigs : List (Option Bytes))
      → num_sigs sigs < info.required
      → is_enough_signatures (with_sigs sigs) ≡ ok false
  is_enough_low sigs low = is_enough-eq (with_sigs sigs) (omega arith) ∙ ap ok (ground arith)

  collect_new :
      (xs ys : List (Option Bytes)) (key sig : Bytes)
      → find_key info.pubkeys key 0 ≡ some (length xs)
      → num_sigs (xs ++ ys) < info.required
      → collect_sig (with_sigs (xs ++ none ∷ ys)) key sig
        ≡ ok (with_sigs (xs ++ some sig ∷ ys), suc (num_sigs (xs ++ ys)) == info.required)
  unfolding collect_sig collect_at store_sig
  collect_new xs ys key sig found low =
      let before : num_sigs (xs ++ none ∷ ys) < info.required =
        omega (arith, ap (λ (n : ℕ). n) (num_sigs-none xs ys)) in
      let after = num_sigs-some xs ys sig in
      rw
        (
          found,
          is_enough_low (xs ++ none ∷ ys) before,
          element-append xs ys none,
          set_sig-append xs ys none sig,
          is_enough-eq (with_sigs (xs ++ some sig ∷ ys)) (omega arith),
          after,
        )
        refl

  collect_old :
      (xs ys : List (Option Bytes)) (key sig s : Bytes)
      → find_key info.pubkeys key 0 ≡ some (length xs)
      → num_sigs (xs ++ some s ∷ ys) < info.required
      → collect_sig (with_sigs (xs ++ some s ∷ ys)) key sig
        ≡ ok (with_sigs (xs ++ some s ∷ ys), false)
  unfolding collect_sig collect_at store_sig
  collect_old xs ys key sig s found low =
      rw (found, is_enough_low (xs ++ some s ∷ ys) low, element-append xs ys (some s)) refl

-- How many of the keys without a signature the signer has one for.
unfoldable pub available : (Bytes → Option Bytes) → List Bytes → List (Option Bytes) → ℕ
available signer [] ss = 0
available signer (key ∷ keys) [] = 0
available signer (key ∷ keys) (some s ∷ ss) = available signer keys ss
available signer (key ∷ keys) (none ∷ ss) = elim (signer key) [
  | none ↦ available signer keys ss
  | some sig ↦ suc (available signer keys ss)
]

==_false→ne : (a b : ℕ) → (a == b) ≡ false → a ≢ b
==_false→ne a b h = ground arith

Option-cases : {A : Type 0} (o : Option A) → (o ≡ none) ⊎ ((a : A) × (o ≡ some a))
Option-cases none = inl refl
Option-cases (some a) = inr (a, refl)

available-none :
    (signer : Bytes → Option Bytes) (key : Bytes) (keys : List Bytes) (ss : List (Option Bytes))
    → signer key ≡ none
    → available signer (key ∷ keys) (none ∷ ss) ≡ available signer keys ss
unfolding available
available-none signer key keys ss e = rw (e, available) refl

available-some :
    (signer : Bytes → Option Bytes) (key : Bytes) (keys : List Bytes) (ss : List (Option Bytes))
    {sig : Bytes}
    → signer key ≡ some sig
    → available signer (key ∷ keys) (none ∷ ss) ≡ suc (available signer keys ss)
unfolding available
available-some signer key keys ss e = rw (e, available) refl

module _ (signer : Bytes → Option Bytes) (script : Bytes) (info : MultisigInfo) where
  -- The loop over the keys `keys`, behind those in `done`.
  abbrev pub LoopResult :
      List Bytes → (index : ℕ) → List (Bytes × Bytes) → List (Option Bytes) → (count : ℕ) → Type 0
  LoopResult keys index new sigs count =
      (new' : List (Bytes × Bytes)) × (sigs' : List (Option Bytes)) × (sign_loop signer keys index
          new (with_sigs script info sigs)
        ≡ ok (new', with_sigs script info sigs'))
      × (length sigs' ≡ length sigs)
      × (num_sigs sigs' ≡ min info.required (num_sigs sigs + count))

  -- The rounds behind a key are those of a longer list before it.
  shift :
      (keys : List Bytes) (xs ss : List (Option Bytes)) (s : Option Bytes)
      (new : List (Bytes × Bytes)) (count : ℕ)
      → LoopResult keys (length (xs ++ s ∷ [])) new ((xs ++ s ∷ []) ++ ss) count
      → LoopResult keys (suc (length xs)) new (xs ++ s ∷ ss) count
  shift keys xs ss s new count h =
      let n : length (xs ++ s ∷ []) ≡ suc (length xs) = omega (arith, length-append xs (s ∷ [])) in
      subst (λ n. LoopResult keys n new (xs ++ s ∷ ss) count) n
        (subst (λ l. LoopResult keys (length (xs ++ s ∷ [])) new l count)
          (append_assoc xs (s ∷ []) ss) h)

  found_at :
      (done : List Bytes) (key : Bytes) (keys : List Bytes) (xs : List (Option Bytes))
      → info.pubkeys ≡ done ++ key ∷ keys
      → all_different (done ++ key ∷ keys) ≡ true
      → length xs ≡ length done
      → find_key info.pubkeys key 0 ≡ some (length xs)
  found_at done key keys xs p d lx =
      ap (λ ks. find_key ks key 0) p ∙ find_key_here done key keys 0 d ∙ ap some (omega arith)

  pub sign_loop_lem :
      (keys done : List Bytes) (xs ss : List (Option Bytes)) (new : List (Bytes × Bytes))
      → info.pubkeys ≡ done ++ keys
      → all_different (done ++ keys) ≡ true
      → length xs ≡ length done
      → length ss ≡ length keys
      → num_sigs (xs ++ ss) < info.required
      → LoopResult keys (length xs) new (xs ++ ss) (available signer keys ss)
  unfolding sign_loop available is_missing
  sign_loop_lem [] done xs ss new p d lx ls low = (new, xs ++ ss, refl, refl, omega arith)
  sign_loop_lem (key ∷ keys) done xs [] new p d lx ls low = absurd (omega arith)
  sign_loop_lem (key ∷ keys) done xs (some s ∷ ss) new p d lx ls low =
      let next = λ (new : List (Bytes × Bytes)).
        shift keys xs ss (some s) new (available signer keys ss) (
          sign_loop_lem keys (done ++ key ∷ []) (xs ++ some s ∷ []) ss new
            (p ∙ sym (append_assoc done (key ∷ []) keys))
            (ap all_different (append_assoc done (key ∷ []) keys) ∙ d)
            (omega (arith, length-append xs (some s ∷ []), length-append done (key ∷ [])))
            (omega arith) (rw (append_assoc xs (some s ∷ []) ss) low)) in
      let found : find_key info.pubkeys key 0 ≡ some (length xs) =
        found_at done key keys xs p d lx in
      elim (Bool-cases (length s == 0)) [
        | inr nonempty ↦
            let (new', sigs', e, l, n) = next new in
            (new', sigs', rw (element-append xs ss (some s), nonempty) e, l, n)
        | inl missing ↦ elim (Option-cases (signer key)) [
          | inl no_sig ↦
              let (new', sigs', e, l, n) = next new in
              (new', sigs', rw (element-append xs ss (some s), missing, no_sig) e, l, n)
          | inr (sig, given) ↦
              let (new', sigs', e, l, n) = next (new ++ (key, sig) ∷ []) in
              (
                new',
                sigs',
                rw
                    (
                      element-append xs ss (some s),
                      missing,
                      given,
                      collect_old script info xs ss key sig s found low,
                    )
                    e,
                l,
                n,
              )
        ]
      ]
  sign_loop_lem (key ∷ keys) done xs (none ∷ ss) new p d lx ls low =
      let next =
        λ (s : Option Bytes) (new : List (Bytes × Bytes))
            (low : num_sigs (xs ++ s ∷ ss) < info.required).
          shift keys xs ss s new (available signer keys ss) (
            sign_loop_lem keys (done ++ key ∷ []) (xs ++ s ∷ []) ss new
              (p ∙ sym (append_assoc done (key ∷ []) keys))
              (ap all_different (append_assoc done (key ∷ []) keys) ∙ d)
              (omega (arith, length-append xs (s ∷ []), length-append done (key ∷ [])))
              (omega arith) (rw (append_assoc xs (s ∷ []) ss) low)) in
      let found : find_key info.pubkeys key 0 ≡ some (length xs) =
        found_at done key keys xs p d lx in
      let few : num_sigs (xs ++ ss) < info.required = omega (arith, num_sigs-none xs ss) in
      elim (Option-cases (signer key)) [
        | inl no_sig ↦
            let (new', sigs', e, l, n) = next none new low in
            (
              new',
              sigs',
              rw (element-append xs ss none, no_sig) e,
              l,
              omega (arith, n, available-none signer key keys ss no_sig),
            )
        | inr (sig, given) ↦
            let collected = collect_new script info xs ss key sig found few in
            elim (Bool-cases (suc (num_sigs (xs ++ ss)) == info.required)) [
              | inl enough ↦ (
                new ++ (key, sig) ∷ [],
                xs ++ some sig ∷ ss,
                rw (element-append xs ss none, given, collected, enough) refl,
                omega (arith, length-append xs (some sig ∷ ss), length-append xs (none ∷ ss)),
                omega (
                  arith,
                  num_sigs-some xs ss sig,
                  num_sigs-none xs ss,
                  ==→eq _ _ enough,
                  available-some signer key keys ss given,
                ),
              )
              | inr more ↦
                  let (new', sigs', e, l, n) =
                    next (some sig) (new ++ (key, sig) ∷ [])
                      (omega (arith, num_sigs-some xs ss sig, ==_false→ne _ _ more)) in
                  (
                    new',
                    sigs',
                    rw (element-append xs ss none, given, collected, more) e,
                    omega
                        (arith, l, length-append xs (some sig ∷ ss), length-append xs (none ∷ ss)),
                    omega (
                      arith,
                      n,
                      num_sigs-some xs ss sig,
                      num_sigs-none xs ss,
                      available-some signer key keys ss given,
                    ),
                  )
            ]
      ]
