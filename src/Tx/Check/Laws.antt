-- ===== src/Tx/Check/Laws.antt =====
-- CheckTransaction accepts exactly the transactions that satisfy a plain list of conditions.
use python_bitcointx.Prelude.{
  ℕ, ◌+◌, ◌≤◌, ◌≡◌, ◌≢◌, inl, inr, refl, sym, ap, ◌∙◌, false, List, [], ◌∷◌, ◌++◌, arith, Bytes,
  All, bytes_eq, bytes_eq→eq, bytes_eq_refl, Bool-cases,
}
use python_bitcointx.Prelude.Int.{pos, pos_part, ◌+ℤ◌, +ℤ-pos}
use python_bitcointx.Result.{ok}
use python_bitcointx.Tx.{OutPoint, TxIn, TxOut, serialize_outpoint}
use python_bitcointx.Struct.{le_bytes}
use python_bitcointx.Tx.Parts.{IsOutPoint, pack4, outpoint-RoundTrips}
use python_bitcointx.Tx.Check.{max_money, check_values, contains, check_duplicates}

abbrev pub IsNonNegative : TxOut → Type 0
IsNonNegative o = o.n_value ≡ pos (pos_part o.n_value)

-- The sum of the outputs' values.
unfoldable pub total_value : List TxOut → ℕ
total_value [] = 0
total_value (o ∷ os) = pos_part o.n_value + total_value os

-- Each outpoint differs from all those before it, and from those of `past`.
abbrev pub AreFresh : List OutPoint → List OutPoint → Type 0
AreFresh past [] = Unit
AreFresh past (o ∷ os) = All (λ p. p ≢ o) past × AreFresh (o ∷ past) os

abbrev pub prevouts : List TxIn → List OutPoint
prevouts [] = []
prevouts (i ∷ is) = i.prevout ∷ prevouts is

-- One round of the loop over the outputs, on a value that is not negative and on one that is.
check_values_step :
    (total n : ℕ) (o : TxOut) (os : List TxOut)
    → o.n_value ≡ pos n
    → total + n ≤ max_money
    → check_values (pos total) (o ∷ os) ≡ check_values (pos (total + n)) os
unfolding check_values
check_values_step total n o os e h = rw (e, +ℤ-pos total n) (ground arith)

check_values_inv :
    (total : ℕ) (o : TxOut) (os : List TxOut)
    → check_values (pos total) (o ∷ os) ≡ ok tt
    → (n : ℕ) × (o.n_value ≡ pos n) × (total + n ≤ max_money)
unfolding check_values ◌+ℤ◌
check_values_inv total o os h = (pos_part o.n_value, ground arith, ground arith)

pub check_values_sound :
    (total : ℕ) (os : List TxOut)
    → total ≤ max_money
    → check_values (pos total) os ≡ ok tt
    → All IsNonNegative os × (total + total_value os ≤ max_money)
unfolding total_value
check_values_sound total [] h e = (tt, omega arith)
check_values_sound total (o ∷ os) h e =
    let (n, v, fits) = check_values_inv total o os e in
    let ih =
      check_values_sound (total + n) os fits (sym (check_values_step total n o os v fits) ∙ e) in
    ((rw v, ih.0), rw v (omega (arith, ih.1)))

pub check_values_complete :
    (total : ℕ) (os : List TxOut)
    → All IsNonNegative os
    → total + total_value os ≤ max_money
    → check_values (pos total) os ≡ ok tt
unfolding total_value
check_values_complete total [] h fits = unfold check_values in refl
check_values_complete total (o ∷ os) h fits =
    check_values_step total (pos_part o.n_value) o os h.0 (omega arith)
    ∙ check_values_complete (total + pos_part o.n_value) os h.1 (omega arith)

abbrev key : OutPoint → Bytes
key o = o.hash ++ le_bytes 4 o.n

abbrev keys : List OutPoint → List Bytes
keys [] = []
keys (o ∷ os) = key o ∷ keys os

serialize_outpoint-key : (o : OutPoint) → IsOutPoint o → serialize_outpoint o ≡ ok (key o)
unfolding serialize_outpoint
serialize_outpoint-key o h = rw (pack4 o.n h.1, h.0)

key-injective : (a b : OutPoint) → IsOutPoint a → IsOutPoint b → key a ≡ key b → a ≡ b
key-injective a b ha hb e =
    let (s, w, r) = outpoint-RoundTrips.at a [] ha in
    let (t, w', r') = outpoint-RoundTrips.at b [] hb in
    let same : s ≡ t = ground (arith, serialize_outpoint-key a ha, serialize_outpoint-key b hb) in
    ground (arith, rw same at r)

contains_sound :
    (past : List OutPoint) (o : OutPoint)
    → contains (keys past) (key o) ≡ false
    → All (λ p. p ≢ o) past
unfolding contains
contains_sound [] o h = tt
contains_sound (p ∷ past) o h = elim (Bool-cases (bytes_eq (key p) (key o))) [
  | inl same ↦ cc (rw same at h)
  | inr other ↦ (
    λ e. cc (bytes_eq_refl (key p), rw (ap key (sym e)) at other),
    contains_sound past o (rw other at h),
  )
]

contains_complete :
    (past : List OutPoint) (o : OutPoint)
    → All IsOutPoint past
    → IsOutPoint o
    → All (λ p. p ≢ o) past
    → contains (keys past) (key o) ≡ false
unfolding contains
contains_complete [] o hp ho h = refl
contains_complete (p ∷ past) o hp ho h = elim (Bool-cases (bytes_eq (key p) (key o))) [
  | inl same ↦ absurd (h.0 (key-injective p o hp.0 ho (bytes_eq→eq _ _ same)))
  | inr other ↦ rw other (contains_complete past o hp.1 ho h.1)
]

pub check_duplicates_sound :
    (past : List OutPoint) (is : List TxIn)
    → All IsOutPoint (prevouts is)
    → check_duplicates (keys past) is ≡ ok tt
    → AreFresh past (prevouts is)
unfolding check_duplicates
check_duplicates_sound past [] h e = tt
check_duplicates_sound past (i ∷ is) h e =
    let e' = rw (serialize_outpoint-key i.prevout h.0) at e in
    elim (Bool-cases (contains (keys past) (key i.prevout))) [
      | inl seen ↦ cc (rw seen at e')
      | inr fresh ↦ (
        contains_sound past i.prevout fresh,
        check_duplicates_sound (i.prevout ∷ past) is h.1 (rw fresh at e'),
      )
    ]

pub check_duplicates_complete :
    (past : List OutPoint) (is : List TxIn)
    → All IsOutPoint past
    → All IsOutPoint (prevouts is)
    → AreFresh past (prevouts is)
    → check_duplicates (keys past) is ≡ ok tt
unfolding check_duplicates
check_duplicates_complete past [] hp h f = refl
check_duplicates_complete past (i ∷ is) hp h f =
    rw (serialize_outpoint-key i.prevout h.0, contains_complete past i.prevout hp h.0 f.0)
      (check_duplicates_complete (i.prevout ∷ past) is (h.0, hp) h.1 f.1)
