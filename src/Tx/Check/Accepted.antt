-- ===== src/Tx/Check/Accepted.antt =====
-- CheckTransaction as a whole: it accepts exactly the transactions that meet a list of conditions.
use mathlib.Core.Logic.{◌↔◌}
use python_bitcointx.Prelude.{
  ◌*◌, ◌≤◌, ◌≡◌, ◌≢◌, ◌⊎◌, inl, inr, refl, Bool, true, false, not, List, [], ◌∷◌, arith, length,
  Bytes, All, leb, ◌==◌, if◌then◌else◌, Bool-cases, leb→le, le→leb,
}
use python_bitcointx.Prelude.Int.{pos}
use python_bitcointx.Result.{ok, guard, Error, >>=-eq-ok}
use python_bitcointx.Tx.{TxIn, Transaction, outpoint_is_null, serialize_tx, is_coinbase}
use python_bitcointx.Tx.Parts.{IsOutPoint}
use python_bitcointx.Tx.Check.{
  max_money, max_block_weight, witness_scale_factor, check_values, check_duplicates, check_coinbase,
  check_prevouts, check_transaction,
}
use python_bitcointx.Tx.Check.Laws.{
  IsNonNegative, total_value, AreFresh, prevouts, check_values_sound, check_values_complete,
  check_duplicates_sound, check_duplicates_complete,
}

-- The script of a coinbase input has 2 to 100 bytes.
abbrev pub IsCoinbaseScript : List TxIn → Type 0
IsCoinbaseScript [] = Unit
IsCoinbaseScript (i ∷ is) = (2 ≤ length i.script_sig) × (length i.script_sig ≤ 100)

abbrev pub IsSpending : TxIn → Type 0
IsSpending i = outpoint_is_null i.prevout ≡ false

pub record IsAccepted (tx : Transaction) : Type 0 where
  pub inputs : tx.vin ≢ []
  pub outputs : tx.vout ≢ []
  pub weight :
      (s : Bytes) × (serialize_tx false tx ≡ ok s)
      × (length s * witness_scale_factor ≤ max_block_weight)
  pub values : All IsNonNegative tx.vout
  pub total : total_value tx.vout ≤ max_money
  pub fresh : AreFresh [] (prevouts tx.vin)
  pub scripts :
      ((is_coinbase tx ≡ true) × IsCoinbaseScript tx.vin)
      ⊎ ((is_coinbase tx ≡ false) × All IsSpending tx.vin)

guard-eq-ok : (b : Bool) (e : Error) → guard b e ≡ ok tt → b ≡ true
guard-eq-ok true e h = refl
guard-eq-ok false e h = cc

not_empty : {A : Type 0} (xs : List A) → not (length xs == 0) ≡ true → xs ≢ []
not_empty [] h = cc
not_empty (x ∷ xs) h = λ e. cc

not_empty_conv : {A : Type 0} (xs : List A) → xs ≢ [] → not (length xs == 0) ≡ true
not_empty_conv [] h = absurd (h refl)
not_empty_conv (x ∷ xs) h = ground arith

check_coinbase_sound : (is : List TxIn) → check_coinbase is ≡ ok tt → IsCoinbaseScript is
unfolding check_coinbase
check_coinbase_sound [] h = tt
check_coinbase_sound (i ∷ is) h = ground arith

check_coinbase_complete : (is : List TxIn) → IsCoinbaseScript is → check_coinbase is ≡ ok tt
unfolding check_coinbase
check_coinbase_complete [] h = refl
check_coinbase_complete (i ∷ is) h = ground arith

check_prevouts_sound : (is : List TxIn) → check_prevouts is ≡ ok tt → All IsSpending is
unfolding check_prevouts
check_prevouts_sound [] h = tt
check_prevouts_sound (i ∷ is) h = ground (arith, check_prevouts_sound is)

check_prevouts_complete : (is : List TxIn) → All IsSpending is → check_prevouts is ≡ ok tt
unfolding check_prevouts
check_prevouts_complete [] h = refl
check_prevouts_complete (i ∷ is) h = rw h.0 (check_prevouts_complete is h.1)

scripts_sound :
    (tx : Transaction)
    → (if is_coinbase tx then check_coinbase tx.vin else check_prevouts tx.vin) ≡ ok tt
    → ((is_coinbase tx ≡ true) × IsCoinbaseScript tx.vin)
      ⊎ ((is_coinbase tx ≡ false) × All IsSpending tx.vin)
scripts_sound tx h = elim (Bool-cases (is_coinbase tx)) [
  | inl e ↦ inl (e, check_coinbase_sound tx.vin (rw e at h))
  | inr e ↦ inr (e, check_prevouts_sound tx.vin (rw e at h))
]

scripts_complete :
    (tx : Transaction)
    → ((is_coinbase tx ≡ true) × IsCoinbaseScript tx.vin)
      ⊎ ((is_coinbase tx ≡ false) × All IsSpending tx.vin)
    → (if is_coinbase tx then check_coinbase tx.vin else check_prevouts tx.vin) ≡ ok tt
scripts_complete tx (inl (e, h)) = rw e (check_coinbase_complete tx.vin h)
scripts_complete tx (inr (e, h)) = rw e (check_prevouts_complete tx.vin h)

IsAccepted-of_check :
    (tx : Transaction)
    → All IsOutPoint (prevouts tx.vin)
    → check_transaction tx ≡ ok tt
    → IsAccepted tx
unfolding check_transaction
IsAccepted-of_check tx valid h =
    let (_, g1, h1) = >>=-eq-ok (guard (not (length tx.vin == 0)) _) _ h in
    let (_, g2, h2) = >>=-eq-ok (guard (not (length tx.vout == 0)) _) _ h1 in
    let (s, w, h3) = >>=-eq-ok (serialize_tx false tx) _ h2 in
    let (_, g3, h4) = >>=-eq-ok (guard (leb (length s * 4) max_block_weight) _) _ h3 in
    let (_, v, h5) = >>=-eq-ok (check_values (pos 0) tx.vout) _ h4 in
    let (_, d, h6) = >>=-eq-ok (check_duplicates [] tx.vin) _ h5 in
    let sums = check_values_sound 0 tx.vout (omega arith) v in
    record {
      inputs = not_empty tx.vin (guard-eq-ok _ _ g1);
      outputs = not_empty tx.vout (guard-eq-ok _ _ g2);
      weight = (s, w, leb→le _ _ (guard-eq-ok _ _ g3));
      values = sums.0;
      total = omega (arith, sums.1);
      fresh = check_duplicates_sound [] tx.vin valid d;
      scripts = scripts_sound tx h6;
    }

check_of_accepted :
    (tx : Transaction)
    → All IsOutPoint (prevouts tx.vin)
    → IsAccepted tx
    → check_transaction tx ≡ ok tt
unfolding check_transaction
check_of_accepted tx valid a =
    rw
      (
        not_empty_conv tx.vin a.inputs,
        not_empty_conv tx.vout a.outputs,
        a.weight.1,
        le→leb _ _ a.weight.2,
        check_values_complete 0 tx.vout a.values (omega (arith, a.total)),
        check_duplicates_complete [] tx.vin tt valid a.fresh,
      )
      (scripts_complete tx a.scripts)

-- When the outpoints that the inputs spend have 32 bytes of hash and a 32-bit index, CheckTransaction
-- accepts a transaction exactly if it has inputs and outputs, its size without witnesses times four
-- is at most the weight limit, no output's value is negative and the values add up to at most
-- MAX_MONEY, no outpoint occurs twice, and the inputs are those of a coinbase with a script of 2 to
-- 100 bytes, or none of them spends the null outpoint and it is no coinbase.
pub check_transaction_iff :
    (tx : Transaction)
    → All IsOutPoint (prevouts tx.vin)
    → (check_transaction tx ≡ ok tt) ↔ IsAccepted tx
check_transaction_iff tx valid = (IsAccepted-of_check tx valid, check_of_accepted tx valid)
