-- ===== src/Tx/Txid.antt =====
-- The transaction id, which leaves the witness out.
use python_bitcointx.Prelude.{◌≤◌, ◌≡◌, refl, inl, inr, false, Bytes, Bool-cases, le→leb}
use python_bitcointx.Result.{ok, ◌>>=◌}
use python_bitcointx.Tx.{
  Transaction, wit_is_null, has_witness, or_empty, make_transaction, serialize_inputs_outputs,
  serialize_body, serialize_tx, get_txid,
}

-- The id of a transaction whose lock time fits in 32 bits is the hash of its serialization without
-- the witness, whether it has a witness or not.
get_txid-eq :
    (hash : Bytes → Bytes) (tx : Transaction)
    → tx.n_lock_time ≤ 0xffffffff
    → get_txid hash tx ≡ (serialize_tx false tx >>= λ s. ok (hash s))
unfolding get_txid make_transaction serialize_tx serialize_body serialize_inputs_outputs has_witness
    wit_is_null or_empty
get_txid-eq hash tx h = elim (Bool-cases (wit_is_null tx.wit)) [
  | inl e ↦ rw e refl
  | inr e ↦ rw (e, le→leb _ _ h) refl
]
