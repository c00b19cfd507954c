-- ===== src/SigHash/Schnorr/Single.antt =====
-- A signature hash of BIP 341 that commits to one input.
use python_bitcointx.Prelude.{
  ℕ, zero, suc, ◌≡◌, refl, sym, ap, ◌∙◌, true, false, some, List, [], ◌∷◌, ◌++◌, length, Bytes, leb,
  ◌==◌, get_elem?, arith, ==_refl,
}
use python_bitcointx.Prelude.Int.{pos}
use python_bitcointx.Result.{ok, ◌>>=◌}
use python_bitcointx.Struct.{pack}
use python_bitcointx.Tx.{TxIn, TxOut, Transaction, serialize_outpoint, serialize_txout}
use python_bitcointx.SigHash.{sighash_single, element}
use python_bitcointx.SigHash.Schnorr.{
  TapArguments, hashtype_of, is_anyonecanpay, output_type, hash_inputs, hash_all_outputs,
  write_own_input, hash_own_output, tap_preimage, signature_hash_schnorr,
}

element-at :
    {A : Type 0} (xs : List A) (n : ℕ) {x : A} → get_elem? xs n ≡ some x → element xs n ≡ ok x
unfolding element
element-at [] n h = cc
element-at (y ∷ xs) zero h = cc
element-at (y ∷ xs) (suc n) h = element-at xs n h

in_range :
    {A : Type 0} (xs : List A) (n : ℕ) {x : A} → get_elem? xs n ≡ some x → leb (length xs) n ≡ false
in_range [] n h = cc
in_range (y ∷ xs) zero h = ground arith
in_range (y ∷ xs) (suc n) h = ground (arith, in_range xs n h)

own_input-eq :
    (tx : Transaction) (spent : List TxOut) (m : ℕ) {x : TxIn} {o : TxOut}
    → get_elem? tx.vin m ≡ some x
    → get_elem? spent m ≡ some o
    → write_own_input tx spent m true ≡ (
        serialize_outpoint x.prevout >>= λ p.
        serialize_txout o >>= λ s. pack 4 x.n_sequence >>= λ q. ok (p ++ (s ++ q)))
unfolding write_own_input
own_input-eq tx spent m a b = rw (element-at tx.vin m a, element-at spent m b) refl

same_own_input :
    (tx ty : Transaction) (spent tpent : List TxOut) (m n : ℕ) {x y : TxIn} {o : TxOut}
    → get_elem? tx.vin m ≡ some x
    → get_elem? ty.vin n ≡ some y
    → get_elem? spent m ≡ some o
    → get_elem? tpent n ≡ some o
    → x.prevout ≡ y.prevout
    → x.n_sequence ≡ y.n_sequence
    → write_own_input tx spent m true ≡ write_own_input ty tpent n true
same_own_input tx ty spent tpent m n {x} {y} {o} a b c d e f =
    own_input-eq tx spent m a c
    ∙ ap
        (λ t. serialize_outpoint t >>= λ p.
          serialize_txout o >>= λ s. pack 4 x.n_sequence >>= λ q. ok (p ++ (s ++ q)))
        e
    ∙ ap
        (λ t. serialize_outpoint y.prevout >>= λ p.
          serialize_txout o >>= λ s. pack 4 t >>= λ q. ok (p ++ (s ++ q)))
        f
    ∙ sym (own_input-eq ty tpent n b d)

-- With ANYONECANPAY and without SINGLE, the hash of an input is that of every transaction with the
-- same version, lock time and outputs in which an input, at whatever index, spends the same output
-- with the same amount, script and sequence number: the other inputs, and what they spend, are
-- free. In both, one output is given for each input.
pub signature_hash_schnorr-anyone_can_pay :
    (sha256 tagged : Bytes → Bytes) (tx ty : Transaction) (m n : ℕ) (spent tpent : List TxOut)
    (args : TapArguments) {x y : TxIn} {o : TxOut}
    → is_anyonecanpay (hashtype_of args.hashtype) ≡ true
    → (output_type (hashtype_of args.hashtype) == sighash_single) ≡ false
    → length spent ≡ length tx.vin
    → length tpent ≡ length ty.vin
    → get_elem? tx.vin m ≡ some x
    → get_elem? ty.vin n ≡ some y
    → get_elem? spent m ≡ some o
    → get_elem? tpent n ≡ some o
    → x.prevout ≡ y.prevout
    → x.n_sequence ≡ y.n_sequence
    → tx.n_version ≡ ty.n_version
    → tx.vout ≡ ty.vout
    → tx.n_lock_time ≡ ty.n_lock_time
    → signature_hash_schnorr sha256 tagged tx (pos m) spent args
      ≡ signature_hash_schnorr sha256 tagged ty (pos n) tpent args
unfolding signature_hash_schnorr tap_preimage hash_inputs hash_own_output hash_all_outputs
signature_hash_schnorr-anyone_can_pay sha256 tagged tx ty m n spent tpent args any single lx ly a b
      c d e f v outs l =
    rw
      (
        in_range tx.vin m a,
        in_range ty.vin n b,
        lx,
        ly,
        ==_refl (length tx.vin),
        ==_refl (length ty.vin),
        any,
        single,
        same_own_input tx ty spent tpent m n a b c d e f,
        v,
        outs,
        l,
      )
      refl
