-- ===== src/Spending/Sound.antt =====
-- What a call of VerifySignature that returns has checked, and the calls that never return.
use python_bitcointx.Prelude.{
  ℕ, zero, suc, ◌≢◌, ◌≡◌, sym, ap, ◌∙◌, none, some, List, [], ◌∷◌, length, Bytes, bytes_eq,
  bytes_eq→eq, ltb, get_elem?,
}
use python_bitcointx.Prelude.Int.{ℤ, pos, negsuc}
use python_bitcointx.Result.{ok, >>=-eq-ok, guard_passes}
use python_bitcointx.Tx.{TxIn, TxOut, Transaction, get_txid}
use python_bitcointx.Eval.Verify.{verify_script}
use python_bitcointx.SigHash.{element}
use python_bitcointx.Spending.{Primitives, spend_of, verify_signature}

element-eq-ok :
    {A : Type 0} (xs : List A) (n : ℕ) {x : A} → element xs n ≡ ok x → get_elem? xs n ≡ some x
unfolding element
element-eq-ok [] n h = cc
element-eq-ok (y ∷ xs) zero h = cc
element-eq-ok (y ∷ xs) (suc n) h = element-eq-ok xs n h

-- VerifySignature returns only where the input exists, spends an output of the first transaction
-- under that transaction's id, and the scripts of the two with the input's witness pass
-- VerifyScript, with the amount of the output and the signature hashes of the input.
pub verify_signature_sound :
    (p : Primitives) (tx_from tx_to : Transaction) (n : ℕ)
    → verify_signature p tx_from tx_to (pos n) ≡ ok tt
    → (txin : TxIn) × (txout : TxOut) × (witness : List Bytes) × (get_elem? tx_to.vin n ≡ some txin)
      × (get_elem? tx_from.vout txin.prevout.n ≡ some txout)
      × (get_elem? tx_to.wit n ≡ some witness)
      × (get_txid p.hash256 tx_from ≡ ok txin.prevout.hash)
      × (verify_script (spend_of p tx_to n txout) txin.script_sig txout.script_pubkey witness
          ≡ ok tt)
unfolding verify_signature
verify_signature_sound p tx_from tx_to n h =
    let (t1, h1) = guard_passes (ltb n (length tx_to.vin)) _ _ h in
    let (txin, e1, h2) = >>=-eq-ok (element tx_to.vin n) _ h1 in
    let (t2, h3) = guard_passes (ltb txin.prevout.n (length tx_from.vout)) _ _ h2 in
    let (txout, e2, h4) = >>=-eq-ok (element tx_from.vout txin.prevout.n) _ h3 in
    let (txid, e3, h5) = >>=-eq-ok (get_txid p.hash256 tx_from) _ h4 in
    let (t3, h6) = guard_passes (bytes_eq txin.prevout.hash txid) _ _ h5 in
    let (witness, e4, h7) = >>=-eq-ok (element tx_to.wit n) _ h6 in
    let same : txin.prevout.hash ≡ txid = bytes_eq→eq _ _ t3 in
    (txin, txout, witness, element-eq-ok _ _ e1, element-eq-ok _ _ e2, element-eq-ok _ _ e4, cc, h7)

-- VerifySignature never accepts an input of a transaction whose witness has no entries, which is
-- what an immutable transaction without witness data has, whatever is spent.
pub verify_signature-no_witness :
    (p : Primitives) (tx_from tx_to : Transaction) (in_idx : ℤ)
    → tx_to.wit ≡ []
    → verify_signature p tx_from tx_to in_idx ≢ ok tt
unfolding verify_signature
verify_signature-no_witness p tx_from tx_to (negsuc n) h e = cc
verify_signature-no_witness p tx_from tx_to (pos n) h e =
    let (i, o, w, a, b, c, d, f) = verify_signature_sound p tx_from tx_to n e in
    let c' : none ≡ some w = ap (λ t. get_elem? t n) (sym h) ∙ c in cc
