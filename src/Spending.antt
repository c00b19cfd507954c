-- ===== src/Spending.antt =====
-- bitcointx/core/scripteval.py: VerifySignature, where the interpreter takes its signature hashes
-- from the transaction that spends.
pub mod Sound
use python_bitcointx.Prelude.{
  ℕ, Bool, true, Option, none, some, List, [], ◌∷◌, length, Bytes, bytes_eq, leb, ltb, ◌==◌,
  if◌then◌else◌,
}
use python_bitcointx.Prelude.Int.{ℤ, pos, negsuc}
use python_bitcointx.Result.{
  Result, ok, err, ◌>>=◌, ◌>>◌, guard, verify_signature_error, negative_in_idx, in_idx_too_big,
  prevout_too_big, hash_mismatch,
}
use python_bitcointx.Tx.{OutPoint, TxIn, TxOut, Transaction, get_txid}
use python_bitcointx.Eval.{SigVersion, Crypto}
use python_bitcointx.Eval.Verify.{Spend, default_flags, verify_script}
use python_bitcointx.SigHash.{element, raw_bitcoin_signature_hash}

-- What is not the code's own: the hash functions and the check of a signature.
pub record Primitives : Type 0 where
  pub hash160 : Bytes → Bytes
  pub hash256 : Bytes → Bytes
  pub ripemd160 : Bytes → Bytes
  pub sha1 : Bytes → Bytes
  pub sha256 : Bytes → Bytes
  pub verify : Bytes → Bytes → Bytes → Bool
  pub verify_nonstrict : Bytes → Bytes → Bytes → Bool

-- `(h, err) = script.raw_sighash(txTo, inIdx, hashtype, amount=amount, sigversion=sigversion)`, of
-- which `_CheckSig` takes `h`
unfoldable pub sighash_of :
    (Bytes → Bytes) → Transaction → ℕ → Bytes → ℕ → ℤ → SigVersion → Result Bytes
sighash_of hash tx in_idx script hashtype amount version = do
  (h, failure) ←
      raw_bitcoin_signature_hash hash script tx (pos in_idx) hashtype (some amount) version
  ok h

unfoldable pub crypto_of : Primitives → Transaction → ℕ → Crypto
crypto_of p tx in_idx = record {
  hash160 = p.hash160;
  hash256 = p.hash256;
  ripemd160 = p.ripemd160;
  sha1 = p.sha1;
  sha256 = p.sha256;
  verify = p.verify;
  verify_nonstrict = p.verify_nonstrict;
  raw_sighash = sighash_of p.hash256 tx in_idx;
}

-- What VerifyScript is called with for an input that spends `out`.
unfoldable pub spend_of : Primitives → Transaction → ℕ → TxOut → Spend
spend_of p tx in_idx out = record {
  crypto = crypto_of p tx in_idx;
  flags = default_flags;
  amount = out.n_value;
}

-- VerifySignature. An instance of CTxWitness is always true, so that the witness is looked up
-- whether there is one or not.
unfoldable pub verify_signature :
    Primitives → (tx_from tx_to : Transaction) → (in_idx : ℤ) → Result (Unit {0})
verify_signature p tx_from tx_to (negsuc n) = err (verify_signature_error negative_in_idx)
verify_signature p tx_from tx_to (pos n) = do
  guard (ltb n (length tx_to.vin)) (verify_signature_error in_idx_too_big)
  txin ← element tx_to.vin n
  guard (ltb txin.prevout.n (length tx_from.vout)) (verify_signature_error prevout_too_big)
  txout ← element tx_from.vout txin.prevout.n
  txid ← get_txid p.hash256 tx_from
  guard (bytes_eq txin.prevout.hash txid) (verify_signature_error hash_mismatch)
  witness ← element tx_to.wit n
  verify_script (spend_of p tx_to n txout) txin.script_sig txout.script_pubkey witness
