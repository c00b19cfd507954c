-- ===== src/Script/Multisig/Helper/Completes.antt =====
-- ComplexScriptSignatureHelper.sign of bitcointx/core/script.py as a whole, and the witness stack, for a
-- standard multisig script.
use python_bitcointx.Prelude.{
  ℕ, zero, suc, ◌+◌, ◌≤◌, ◌<◌, ◌≡◌, refl, sym, ap, ◌∙◌, min, Bool, true, false, not, Option, none,
  some, List, [], ◌∷◌, map, arith, length, Bytes, bytes_eq, bytes_eq→eq, bytes_eq_refl, leb, leb→le,
  le→leb, ◌==◌, ==→eq, ==_refl, if◌then◌else◌, All, Bool-cases, inl, inr,
}
use mathlib.Core.Path.{subst}
use python_bitcointx.Prelude.Int.{pos, eq_ℤ, ltb_ℤ}
use python_bitcointx.Result.{
  ok, err, Error, guard, value_error, >>=-eq-ok, guard_passes, ok-injective,
}
use python_bitcointx.SigHash.{element}
use python_bitcointx.Script.{raw_iter}
use python_bitcointx.Script.Build.{Element, number, pushed}
use python_bitcointx.Script.Multisig.{
  MultisigInfo, contains_key, all_different, parse_standard_multisig_redeem_script, make_info,
  check_total, pushed_keys, standard_multisig_witness_stack, next_item, is_checkmultisig, at_end,
  read_required, read_pubkeys,
}
use python_bitcointx.Script.Multisig.Helper.{
  Helper, present, no_sig, make_helper, construct_witness_stack, find_key, set_sig, store_sig,
  collect_at, collect_sig, collect_partial, sign,
}
use python_bitcointx.Script.Multisig.Helper.Sign.{
  num_sigs, is_enough-eq, with_sigs, available, sign_loop_lem,
}

-- A helper of a script that parses, with a place for the signature of each key, and no more
-- signatures than are required.
pub record IsValid (v : Bytes → Bool) (h : Helper) : Type 0 where
  pub parsed : parse_standard_multisig_redeem_script v h.script ≡ ok h.script_info
  pub sized : length h.signatures ≡ length h.script_info.pubkeys
  pub not_over : num_sigs h.signatures ≤ h.script_info.required

guard-true : (b : Bool) (e : Error) {u : Unit {0}} → guard b e ≡ ok u → b ≡ true
guard-true true e h = refl
guard-true false e h = cc

-- What the parser makes sure of.
parsed_info :
    (v : Bytes → Bool) (script : Bytes) (info : MultisigInfo)
    → parse_standard_multisig_redeem_script v script ≡ ok info
    → (all_different info.pubkeys ≡ true) × (info.required ≤ length info.pubkeys)
unfolding parse_standard_multisig_redeem_script check_total make_info
parsed_info v script info e =
    let (r, a, e1) = >>=-eq-ok (read_required (raw_iter script)) _ e in
    let (t, b, e2) = >>=-eq-ok (read_pubkeys v 16 [] r.1) _ e1 in
    let (u, c, e3) = >>=-eq-ok (check_total t.0 t.1 t.2) _ e2 in
    let (p, c1) = guard_passes (eq_ℤ t.0 (pos (length t.1))) _ _ c in
    let (q, c2) = guard_passes (not (ltb_ℤ t.0 (pos 2))) _ _ c1 in
    let (s, c3) = guard_passes (not (ltb_ℤ (pos 15) t.0)) _ _ c2 in
    let (l, m, c4) = >>=-eq-ok (next_item t.2) _ c3 in
    let (n, c5) = guard_passes (is_checkmultisig l.0) _ _ c4 in
    let (w, x, c6) = >>=-eq-ok (at_end l.1) _ c5 in
    let d = guard-true (all_different t.1) _ c6 in
    let (f, e4) = guard_passes (length t.1 == length t.1) _ _ e3 in
    let (g, e5) = guard_passes (leb r.0 (length t.1)) _ _ e4 in
    rw (← ok-injective e5) (d, leb→le _ _ g)

all_none : (ks : List Bytes) → (length (map no_sig ks) ≡ length ks) × (num_sigs (map no_sig ks) ≡ 0)
unfolding present
all_none [] = (refl, refl)
all_none (k ∷ ks) = (ap suc (all_none ks).0, (all_none ks).1)

pub make_helper-IsValid :
    (v : Bytes → Bool) (script : Bytes) (h : Helper) → make_helper v script ≡ ok h → IsValid v h
unfolding make_helper
make_helper-IsValid v script h e =
    let (info, parsed, f) = >>=-eq-ok (parse_standard_multisig_redeem_script v script) _ e in
    let (l, n) = all_none info.pubkeys in
    rw (← ok-injective f) (record { parsed = parsed; sized = l; not_over = omega (arith, n) })

bytes_eq_comm : (a b : Bytes) → bytes_eq a b ≡ true → bytes_eq b a ≡ true
bytes_eq_comm a b h = rw (bytes_eq→eq a b h) (bytes_eq_refl b)

found_key :
    (ks : List Bytes) (key : Bytes) (i : ℕ)
    → contains_key ks key ≡ true
    → (j : ℕ) × (find_key ks key i ≡ some (i + j)) × (j < length ks)
unfolding contains_key find_key
found_key [] key i h = absurd (ground arith)
found_key (k ∷ ks) key i h = elim (Bool-cases (bytes_eq key k)) [
  | inl same ↦ (0, rw same (ap some (omega arith)), omega arith)
  | inr other ↦
      let (j, e, l) = found_key ks key (suc i) (ground (arith, bytes_eq_comm k key)) in
      (suc j, rw other (e ∙ ap some (omega arith)), omega arith)
]

element_within :
    {A : Type 0} (xs : List A) (i : ℕ) → i < length xs → (a : A) × (element xs i ≡ ok a)
unfolding element
element_within [] i h = absurd (omega arith)
element_within (x ∷ xs) zero h = (x, refl)
element_within (x ∷ xs) (suc i) h = element_within xs i (omega arith)

set_none :
    (xs : List (Option Bytes)) (i : ℕ) (sig : Bytes)
    → element xs i ≡ ok none
    → (length (set_sig xs i sig) ≡ length xs) × (num_sigs (set_sig xs i sig) ≡ suc (num_sigs xs))
unfolding element set_sig present
set_none [] i sig h = absurd (ground arith)
set_none (none ∷ xs) zero sig h = (refl, refl)
set_none (some s ∷ xs) zero sig h = absurd (ground arith)
set_none (none ∷ xs) (suc i) sig h = let (l, n) = set_none xs i sig h in (ap suc l, n)
set_none (some s ∷ xs) (suc i) sig h = let (l, n) = set_none xs i sig h in (ap suc l, ap suc n)

store_sig-IsValid :
    (v : Bytes → Bool) (h : Helper) (j : ℕ) (sig : Bytes) (old : Option Bytes)
    → IsValid v h
    → element h.signatures j ≡ ok old
    → num_sigs h.signatures < h.script_info.required
    → (h' : Helper) × (store_sig h j sig old
        ≡ ok (h', num_sigs h'.signatures == h.script_info.required))
      × IsValid v h'
      × (h'.script_info ≡ h.script_info)
unfolding store_sig
store_sig-IsValid v h j sig (some s) valid e low =
    (h, ap (λ b. ok (h, b)) (ground arith), valid, refl)
store_sig-IsValid v h j sig none valid e low =
    let (l, n) = set_none h.signatures j sig e in
    let h' = record h { signatures = set_sig h.signatures j sig } in
    (
      h',
      rw (is_enough-eq h' (omega (arith, n))) refl,
      record {
        parsed = valid.parsed;
        sized = omega (arith, l, valid.sized);
        not_over = omega (arith, n);
      },
      refl,
    )

pub collect_sig-IsValid :
    (v : Bytes → Bool) (h : Helper) (key sig : Bytes)
    → IsValid v h
    → contains_key h.script_info.pubkeys key ≡ true
    → (h' : Helper) × (collect_sig h key sig
        ≡ ok (h', num_sigs h'.signatures == h.script_info.required))
      × IsValid v h'
      × (h'.script_info ≡ h.script_info)
unfolding collect_sig collect_at
collect_sig-IsValid v h key sig valid known =
    let (j, e, l) = found_key h.script_info.pubkeys key 0 known in
    let (old, f) = element_within h.signatures j (omega (arith, valid.sized)) in
    let at : find_key h.script_info.pubkeys key 0 ≡ some j = e ∙ ap some (omega arith) in
    let enough = is_enough-eq h valid.not_over in
    elim (Bool-cases (num_sigs h.signatures == h.script_info.required)) [
      | inl complete ↦ (h, rw (at, enough, complete) refl, valid, refl)
      | inr few ↦
          let (h', g, valid', same) =
            store_sig-IsValid v h j sig old valid f (ground (arith, valid.not_over)) in
          (h', rw (at, enough, few, f) g, valid', same)
    ]

pub collect_partial-IsValid :
    (v : Bytes → Bool) (h : Helper) (sigs : List (Bytes × Bytes))
    → IsValid v h
    → All (λ key_sig. contains_key h.script_info.pubkeys key_sig.0 ≡ true) sigs
    → (h' : Helper) × (collect_partial h sigs ≡ ok h')
      × IsValid v h'
      × (h'.script_info ≡ h.script_info)
unfolding collect_partial
collect_partial-IsValid v h [] valid known = (h, refl, valid, refl)
collect_partial-IsValid v h ((key, sig) ∷ sigs) valid known =
    let (h', e, valid', same) = collect_sig-IsValid v h key sig valid known.0 in
    elim (Bool-cases (num_sigs h'.signatures == h.script_info.required)) [
      | inl enough ↦ (h', rw (e, enough) refl, valid', same)
      | inr few ↦
          let (h'', e', valid'', same') = collect_partial-IsValid v h' sigs valid' (
            subst
              (λ (info : MultisigInfo).
                All (λ key_sig. contains_key info.pubkeys key_sig.0 ≡ true) sigs)
              (sym same) known.1) in
          (h'', rw (e, few) e', valid'', same' ∙ same)
    ]

-- The witness stack of a helper.
abbrev pub stack_of : Helper → List Element
stack_of h = number (pos 0) ∷ pushed_keys (present h.signatures) (pushed h.script ∷ [])

stack_lem :
    (v : Bytes → Bool) (h : Helper)
    → IsValid v h
    → construct_witness_stack v h ≡ (
        if num_sigs h.signatures == h.script_info.required
        then ok (stack_of h)
        else err value_error)
unfolding construct_witness_stack standard_multisig_witness_stack
stack_lem v h valid = elim (Bool-cases (num_sigs h.signatures == h.script_info.required)) [
  | inl enough ↦
      let (d, le) = parsed_info v h.script h.script_info valid.parsed in
      let fits : leb (num_sigs h.signatures) (length h.script_info.pubkeys) ≡ true =
        ground (arith, ==→eq (num_sigs h.signatures) h.script_info.required enough) in
      rw (is_enough-eq h valid.not_over, enough, valid.parsed, fits, enough) refl
  | inr few ↦ rw (is_enough-eq h valid.not_over, few) refl
]

min_test : (s r k : ℕ) → s ≡ min r k → (s == r) ≡ leb r k
min_test s r k h = elim (Bool-cases (leb r k)) [
  | inl fits ↦ let le = leb→le r k fits in let e : s ≡ r = omega arith in rw (fits, e) (==_refl r)
  | inr short ↦
      let lt : k < r = ground arith in let e : s ≡ k = omega arith in rw (short, e) (ground arith)
]

abbrev pub Signed : (Bytes → Bool) → (Bytes → Option Bytes) → Helper → Bool → Helper → Type 0
Signed v signer h1 complete h2 =
    (complete
      ≡ leb h1.script_info.required
          (num_sigs h1.signatures + available signer h1.script_info.pubkeys h1.signatures))
    × IsValid v h2
    × (h2.script ≡ h1.script)
    × (h2.script_info ≡ h1.script_info)
    × ((num_sigs h2.signatures == h2.script_info.required) ≡ complete)

sign_rest :
    (v : Bytes → Bool) (signer : Bytes → Option Bytes) (h1 : Helper)
    → IsValid v h1
    → (new : List (Bytes × Bytes)) × (complete : Bool) × (h2 : Helper) × (sign signer [] h1
        ≡ ok (new, complete, h2))
      × Signed v signer h1 complete h2
unfolding sign collect_partial
sign_rest v signer h1 valid =
    elim (Bool-cases (num_sigs h1.signatures == h1.script_info.required)) [
      | inl enough ↦ (
        [],
        true,
        h1,
        rw (is_enough-eq h1 valid.not_over, enough) refl,
        (
          sym (le→leb h1.script_info.required _ (omega (arith, ==→eq _ _ enough))),
          valid,
          refl,
          refl,
          enough,
        ),
      )
      | inr few ↦
          let (d, le) = parsed_info v h1.script h1.script_info valid.parsed in
          let low : num_sigs h1.signatures < h1.script_info.required =
            ground (arith, valid.not_over) in
          let (new, sigs, e, l, n) =
            sign_loop_lem signer h1.script h1.script_info h1.script_info.pubkeys [] [] h1.signatures
              [] refl d refl valid.sized low in
          let h2 = with_sigs h1.script h1.script_info sigs in
          let bounded : num_sigs sigs ≤ h1.script_info.required = omega (arith, n) in
          (
            new,
            num_sigs sigs == h1.script_info.required,
            h2,
            rw (is_enough-eq h1 valid.not_over, few, e, is_enough-eq h2 bounded) refl,
            (
              min_test _ h1.script_info.required _ n,
              record {
                parsed = valid.parsed;
                sized = omega (arith, l, valid.sized);
                not_over = bounded;
              },
              refl,
              refl,
              refl,
            ),
          )
    ]

-- Signing with a helper of a script that parses never raises, whatever the signer and the signatures
-- that are known beforehand, which are for keys of the script. It completes exactly if the number of
-- signatures that the helper has from before and of the keys without one that the signer signs for
-- is at least the number required; then the witness stack has exactly as many signatures as are
-- required, in the order of the keys, and otherwise there is no witness stack.
pub sign_completes :
    (v : Bytes → Bool) (signer : Bytes → Option Bytes) (partial_sigs : List (Bytes × Bytes))
    (h : Helper)
    → IsValid v h
    → All (λ key_sig. contains_key h.script_info.pubkeys key_sig.0 ≡ true) partial_sigs
    → (h1 : Helper) × (new : List (Bytes × Bytes)) × (complete : Bool) × (h2 : Helper)
      × (collect_partial h partial_sigs ≡ ok h1)
      × (sign signer partial_sigs h ≡ ok (new, complete, h2))
      × (h1.script_info ≡ h.script_info)
      × Signed v signer h1 complete h2
      × (construct_witness_stack v h2 ≡ (if complete then ok (stack_of h2) else err value_error))
unfolding sign collect_partial
sign_completes v signer partial_sigs h valid known =
    let (h1, e, valid1, same) = collect_partial-IsValid v h partial_sigs valid known in
    let (new, complete, h2, f, signed) = sign_rest v signer h1 valid1 in
    let stack = stack_lem v h2 signed.1 in
    (h1, new, complete, h2, e, rw e f, same, signed, rw signed.4 at stack)
