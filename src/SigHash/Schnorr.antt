-- ===== src/SigHash/Schnorr.antt =====
-- bitcointx/core/script.py: SignatureHashSchnorr.
--
-- A hash type is a SIGHASH_Type, which its constructor has checked; a version is one of the two that
-- the function takes. The hash functions are arguments: `sha256`, and `tagged` for
-- `tap_sighash_hasher`.
pub mod Single
use Prim.Native.Nat.{bit_and}
use python_bitcointx.Prelude.{
  ℕ, zero, suc, ◌+◌, ◌-◌, ◌*◌, ◌<◌, ◌≡◌, refl, sym, ap, ◌∙◌, Bool, true, false, not, ◌||◌, Option,
  none, some, List, [], ◌∷◌, ◌++◌, length, Bytes, leb, ◌==◌, if◌then◌else◌, map, get_elem?, arith,
  inl, inr, Bool-cases,
}
use python_bitcointx.Prelude.Int.{ℤ, pos, negsuc}
use python_bitcointx.Result.{Result, ok, err, ◌>>=◌, ◌>>◌, guard, value_error}
use python_bitcointx.Struct.{pack, pack_signed}
use python_bitcointx.Serialize.{Writer, serialize_all, serialize_bytes}
use python_bitcointx.Tx.{OutPoint, TxIn, TxOut, Transaction, serialize_outpoint, serialize_txout}
use python_bitcointx.SigHash.{
  sighash_all, sighash_single, sighash_anyonecanpay, element, write_prevout, write_sequence,
}

pub data TapVersion : Type 0 where
  taproot tapscript : TapVersion

-- The arguments that are given by keyword.
pub record TapArguments : Type 0 where
  pub hashtype : Option ℕ
  pub sigversion : TapVersion
  pub tapleaf_hash : Option Bytes
  pub codeseparator_pos : ℤ
  pub annex_hash : Option Bytes

-- `hashtype`, with SIGHASH_ALL for None; the byte written for it is zero then.
unfoldable pub hashtype_of : Option ℕ → ℕ
hashtype_of none = sighash_all
hashtype_of (some h) = h

unfoldable pub hashtype_byte : Option ℕ → ℕ
hashtype_byte none = 0
hashtype_byte (some h) = h

-- `input_type == SIGHASH_ANYONECANPAY`, and `output_type`
unfoldable pub is_anyonecanpay : ℕ → Bool
is_anyonecanpay hashtype = bit_and hashtype sighash_anyonecanpay == sighash_anyonecanpay

unfoldable pub output_type : ℕ → ℕ
output_type hashtype = hashtype - bit_and hashtype sighash_anyonecanpay

-- `len(h) != 32` for a hash that is given
unfoldable pub is_hash : Option Bytes → Bool
is_hash none = true
is_hash (some h) = length h == 32

unfoldable pub write_amount : Writer TxOut
write_amount o = pack_signed 8 o.n_value

unfoldable pub write_script : Writer TxOut
write_script o = serialize_bytes o.script_pubkey

-- The four hashes over the inputs and the outputs spent.
unfoldable pub hash_inputs :
    (Bytes → Bytes) → Transaction → (spent_outputs : List TxOut) → Bool → Result Bytes
hash_inputs sha256 tx spent_outputs anyonecanpay = if anyonecanpay then ok [] else (do
  a ← serialize_all write_amount spent_outputs
  s ← serialize_all write_script spent_outputs
  p ← serialize_all write_prevout tx.vin
  q ← serialize_all write_sequence tx.vin
  ok (sha256 p ++ (sha256 a ++ (sha256 s ++ sha256 q))))

unfoldable pub hash_all_outputs : (Bytes → Bytes) → Transaction → ℕ → Result Bytes
hash_all_outputs sha256 tx output_type =
    if output_type == sighash_all
    then (do s ← serialize_all serialize_txout tx.vout; ok (sha256 s))
    else ok []

-- `spend_type`: twice `ext_flag`, and one for an annex
unfoldable pub spend_type : TapVersion → Option Bytes → ℕ
spend_type taproot none = 0
spend_type taproot (some h) = 1
spend_type tapscript none = 2
spend_type tapscript (some h) = 3

unfoldable pub given : Option Bytes → Bytes
given none = []
given (some h) = h

-- The input at hand, or its index only.
unfoldable pub write_own_input :
    Transaction → (spent_outputs : List TxOut) → (in_idx : ℕ) → Bool → Result Bytes
write_own_input tx spent_outputs in_idx anyonecanpay =
    if anyonecanpay
    then (do
      i ← element tx.vin in_idx
      p ← serialize_outpoint i.prevout
      o ← element spent_outputs in_idx
      s ← serialize_txout o
      q ← pack 4 i.n_sequence
      ok (p ++ (s ++ q)))
    else pack 4 in_idx

unfoldable pub hash_own_output :
    (Bytes → Bytes) → Transaction → (in_idx output_type : ℕ) → Result Bytes
hash_own_output sha256 tx in_idx output_type =
    if output_type == sighash_single
    then (do
      guard (not (leb (length tx.vout) in_idx)) value_error
      o ← element tx.vout in_idx
      s ← serialize_txout o
      ok (sha256 s))
    else ok []

-- The extension of BIP 342, with the key version 0.
unfoldable pub write_extension : TapVersion → Option Bytes → ℤ → Result Bytes
write_extension taproot tapleaf_hash codeseparator_pos = ok []
write_extension tapscript none codeseparator_pos = err value_error
write_extension tapscript (some h) codeseparator_pos = do
  c ← pack_signed 4 codeseparator_pos
  ok (h ++ (0 ∷ c))

-- What is hashed, behind the checks of the arguments.
unfoldable pub tap_preimage :
    (Bytes → Bytes)
    → Transaction
    → (in_idx : ℕ) → (spent_outputs : List TxOut) → TapArguments
    → Result Bytes
tap_preimage sha256 tx in_idx spent_outputs args = do
  let hashtype = hashtype_of args.hashtype
  v ← pack_signed 4 tx.n_version
  l ← pack 4 tx.n_lock_time
  i ← hash_inputs sha256 tx spent_outputs (is_anyonecanpay hashtype)
  o ← hash_all_outputs sha256 tx (output_type hashtype)
  own ← write_own_input tx spent_outputs in_idx (is_anyonecanpay hashtype)
  out ← hash_own_output sha256 tx in_idx (output_type hashtype)
  ext ← write_extension args.sigversion args.tapleaf_hash args.codeseparator_pos
  ok (
      0
      ∷ hashtype_byte args.hashtype
      ∷ (v
          ++ (l
              ++ (i
                  ++ (o
                      ++ (spend_type args.sigversion args.annex_hash
                          ∷ (own ++ (given args.annex_hash ++ (out ++ ext)))))))))

-- SignatureHashSchnorr
unfoldable pub signature_hash_schnorr :
    (sha256 tagged : Bytes → Bytes)
    → Transaction
    → (in_idx : ℤ) → (spent_outputs : List TxOut) → TapArguments
    → Result Bytes
signature_hash_schnorr sha256 tagged tx (negsuc n) spent_outputs args = err value_error
signature_hash_schnorr sha256 tagged tx (pos n) spent_outputs args = do
  guard (not (leb (length tx.vin) n)) value_error
  guard (is_hash args.tapleaf_hash) value_error
  guard (is_hash args.annex_hash) value_error
  guard (length spent_outputs == length tx.vin) value_error
  s ← tap_preimage sha256 tx n spent_outputs args
  ok (tagged s)

-- CScript.sighash_schnorr: the leaf hash is that of the script, for `leaf_hasher` and the tapscript
-- version 0xc0.
unfoldable pub sighash_schnorr :
    (sha256 tagged leaf_hasher : Bytes → Bytes)
    → (script : Bytes) → Transaction
    → (in_idx : ℤ) → (spent_outputs : List TxOut) → (hashtype : Option ℕ) → (codeseparator_pos : ℤ)
    → (annex_hash : Option Bytes) → Result Bytes
sighash_schnorr sha256 tagged leaf_hasher script tx in_idx spent_outputs hashtype pos' annex_hash =
    do
      s ← serialize_bytes script
      signature_hash_schnorr sha256 tagged tx in_idx spent_outputs (record {
        hashtype = hashtype;
        sigversion = tapscript;
        tapleaf_hash = some (leaf_hasher (0xc0 ∷ s));
        codeseparator_pos = pos';
        annex_hash = annex_hash;
      })
