-- ===== src/SigHash/Segwit.antt =====
-- What a signature hash of a version 0 program depends on, when there is none, and what the hashes of
-- both versions do not depend on.
use python_bitcointx.Prelude.{
  ℕ, zero, suc, ◌^◌, ◌≤◌, ◌≢◌, ◌≡◌, refl, ap, ◌∙◌, not, Option, some, none, List, [], ◌∷◌, ◌++◌,
  map, arith, Bytes,
}
use python_bitcointx.Prelude.Int.{ℤ, pos, negsuc}
use python_bitcointx.Result.{ok, err, struct_error, value_error, ◌>>=◌, >>=-eq-ok, guard}
use python_bitcointx.Struct.{pack, pack_signed, fits_signed}
use python_bitcointx.Tx.{serialize_outpoint, TxIn, Transaction}
use python_bitcointx.Serialize.{serialize_all}
use python_bitcointx.Eval.{SigVersion, base, witness_v0}
use python_bitcointx.SigHash.Commit.{prevouts, sequences, blank-eq, base_hash-blank}
use python_bitcointx.SigHash.{
  signature_hash, hash_prevouts, hash_sequence, hash_outputs, witness_v0_preimage,
  raw_bitcoin_signature_hash, is_negative_amount, given_amount, written_input, written_input_at,
  blank, write_prevout, write_sequence, SigHash, element,
}

lock_time_too_big : (n : ℕ) → 2 ^ 31 ≤ n → pack_signed 4 (pos n) ≡ err struct_error
unfolding pack_signed fits_signed
lock_time_too_big n h = ground arith

preimage_raises :
    (hash : Bytes → Bytes) (script : Bytes) (tx : Transaction) (in_idx hashtype : ℕ) (amount : ℤ)
    (b : Bytes)
    → 2 ^ 31 ≤ tx.n_lock_time
    → witness_v0_preimage hash script tx in_idx hashtype amount ≢ ok b
unfolding witness_v0_preimage
preimage_raises hash script tx in_idx hashtype amount b h =
    let e : pack_signed 4 (pos tx.n_lock_time) ≡ err struct_error = lock_time_too_big _ h in
    ground (arith, e)

-- A transaction whose lock time is at least 2 ^ 31 has no signature hash of version 0: the call
-- returns nothing, for every script, input, hash type and amount.
pub witness_v0-lock_time :
    (hash : Bytes → Bytes) (script : Bytes) (tx : Transaction) (in_idx : ℤ) (hashtype : ℕ)
    (amount : Option ℤ) (r : SigHash)
    → 2 ^ 31 ≤ tx.n_lock_time
    → raw_bitcoin_signature_hash hash script tx in_idx hashtype amount witness_v0 ≢ ok r
unfolding raw_bitcoin_signature_hash given_amount
witness_v0-lock_time hash script tx (negsuc n) hashtype amount r h = λ e. cc
witness_v0-lock_time hash script tx (pos n) hashtype none r h = ground arith
witness_v0-lock_time hash script tx (pos n) hashtype (some a) r h = λ e.
    let (u, f, g) = >>=-eq-ok (guard (not (is_negative_amount (some a))) value_error) _ e in
    let (s, f', g') = >>=-eq-ok (witness_v0_preimage hash script tx n hashtype a) _ g in
    preimage_raises hash script tx n hashtype a s h f'

serialize_all-blank :
    (vin win : List TxIn)
    → map blank vin ≡ map blank win
    → (serialize_all write_prevout vin ≡ serialize_all write_prevout win)
      × (serialize_all write_sequence vin ≡ serialize_all write_sequence win)
unfolding blank serialize_all write_prevout write_sequence
serialize_all-blank [] [] h = (refl, refl)
serialize_all-blank [] (j ∷ win) h = cc
serialize_all-blank (i ∷ vin) [] h = cc
serialize_all-blank (i ∷ vin) (j ∷ win) h =
    let (a, b) = serialize_all-blank vin win (cc) in
    let e : i.prevout ≡ j.prevout = cc in
    let f : i.n_sequence ≡ j.n_sequence = cc in
    (
      ap (λ s. serialize_outpoint s >>= λ p. serialize_all write_prevout vin >>= λ t. ok (p ++ t)) e
          ∙ ap (λ w. serialize_outpoint j.prevout >>= λ p. w >>= λ t. ok (p ++ t)) a,
      ap (λ n. pack 4 n >>= λ p. serialize_all write_sequence vin >>= λ t. ok (p ++ t)) f
          ∙ ap (λ w. pack 4 j.n_sequence >>= λ p. w >>= λ t. ok (p ++ t)) b,
    )

written_input-blank :
    (i j : TxIn) (script : Bytes) (amount : ℤ)
    → blank i ≡ blank j
    → written_input i script amount ≡ written_input j script amount
unfolding blank written_input
written_input-blank i j script amount h =
    let e : i.prevout ≡ j.prevout = cc in let f : i.n_sequence ≡ j.n_sequence = cc in rw (e, f) refl

written_input_at-blank :
    (vin win : List TxIn) (n : ℕ) (script : Bytes) (amount : ℤ)
    → map blank vin ≡ map blank win
    → written_input_at vin n script amount ≡ written_input_at win n script amount
unfolding written_input_at element
written_input_at-blank [] [] n script amount h = refl
written_input_at-blank [] (j ∷ win) n script amount h = cc
written_input_at-blank (i ∷ vin) [] n script amount h = cc
written_input_at-blank (i ∷ vin) (j ∷ win) zero script amount h =
    written_input-blank i j script amount (cc)
written_input_at-blank (i ∷ vin) (j ∷ win) (suc n) script amount h =
    written_input_at-blank vin win n script amount (cc)

hashes_blank :
    (hash : Bytes → Bytes) (tx ty : Transaction) (in_idx hashtype : ℕ)
    → map blank tx.vin ≡ map blank ty.vin
    → tx.vout ≡ ty.vout
    → (hash_prevouts hash tx hashtype ≡ hash_prevouts hash ty hashtype)
      × (hash_sequence hash tx hashtype ≡ hash_sequence hash ty hashtype)
      × (hash_outputs hash tx in_idx hashtype ≡ hash_outputs hash ty in_idx hashtype)
unfolding hash_prevouts hash_sequence hash_outputs
hashes_blank hash tx ty in_idx hashtype ins outs =
    let (a, b) = serialize_all-blank tx.vin ty.vin ins in (rw a refl, rw b refl, rw outs refl)

witness_v0_preimage-blank :
    (hash : Bytes → Bytes) (script : Bytes) (tx ty : Transaction) (in_idx hashtype : ℕ) (amount : ℤ)
    → map blank tx.vin ≡ map blank ty.vin
    → tx.n_version ≡ ty.n_version
    → tx.vout ≡ ty.vout
    → tx.n_lock_time ≡ ty.n_lock_time
    → witness_v0_preimage hash script tx in_idx hashtype amount
      ≡ witness_v0_preimage hash script ty in_idx hashtype amount
unfolding witness_v0_preimage
witness_v0_preimage-blank hash script tx ty in_idx hashtype amount ins v outs l =
    let (p, q, r) = hashes_blank hash tx ty in_idx hashtype ins outs in
    rw (p, q, r, v, written_input_at-blank tx.vin ty.vin in_idx script amount ins, l) refl

-- A signature hash of either version says nothing of the input scripts and the witness: two
-- transactions with the same version, lock time and outputs, whose inputs have the same prevouts and
-- sequence numbers, have the same one, or raise the same, for every script, input, hash type and
-- amount.
pub signature_hash-without_script_sigs :
    (hash : Bytes → Bytes) (script : Bytes) (tx ty : Transaction) (in_idx : ℤ) (hashtype : ℕ)
    (amount : Option ℤ) (version : SigVersion)
    → prevouts tx.vin ≡ prevouts ty.vin
    → sequences tx.vin ≡ sequences ty.vin
    → tx.n_version ≡ ty.n_version
    → tx.vout ≡ ty.vout
    → tx.n_lock_time ≡ ty.n_lock_time
    → signature_hash hash script tx in_idx hashtype amount version
      ≡ signature_hash hash script ty in_idx hashtype amount version
unfolding signature_hash raw_bitcoin_signature_hash given_amount
signature_hash-without_script_sigs hash script tx ty (negsuc n) hashtype amount version ins seqs v
      outs l =
    refl
signature_hash-without_script_sigs hash script tx ty (pos n) hashtype amount base ins seqs v outs
      l =
    rw (base_hash-blank hash script tx ty n hashtype (blank-eq tx.vin ty.vin ins seqs) v outs l)
      refl
signature_hash-without_script_sigs hash script tx ty (pos n) hashtype none witness_v0 ins seqs v
      outs l =
    refl
signature_hash-without_script_sigs hash script tx ty (pos n) hashtype (some a) witness_v0 ins seqs v
      outs l =
    rw
      (witness_v0_preimage-blank hash script tx ty n hashtype a (blank-eq tx.vin ty.vin ins seqs) v
        outs l)
      refl
