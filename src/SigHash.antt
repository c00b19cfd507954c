-- ===== src/SigHash.antt =====
-- bitcointx/core/script.py: RawBitcoinSignatureHash, and the methods of `CScript` that call it.
--
-- A hash type is a natural number, which is what the last byte of a signature gives.
pub mod Commit
pub mod Segwit
pub mod Schnorr
use Prim.Native.Nat.{bit_and}
use python_bitcointx.Prelude.{
  ℕ, zero, suc, ◌+◌, ◌-◌, ◌*◌, Bool, true, false, not, ◌&&◌, ◌||◌, Option, none, some, List, [],
  ◌∷◌, ◌++◌, map, length, take, drop, Bytes, replicate, leb, ltb, ◌==◌, if◌then◌else◌,
}
use python_bitcointx.Prelude.Int.{ℤ, pos, negsuc}
use python_bitcointx.Result.{
  Result, ok, err, ◌>>=◌, ◌>>◌, guard, value_error, index_error, type_error,
}
use python_bitcointx.Struct.{pack, pack_signed}
use python_bitcointx.Serialize.{Writer, serialize_all, serialize_bytes}
use python_bitcointx.Opcodes.{op_codeseparator}
use python_bitcointx.Script.Build.{opcode, make_script}
use python_bitcointx.Script.Pushes.{find_and_delete}
use python_bitcointx.Script.Templates.{is_witness_scriptpubkey}
use python_bitcointx.Tx.{
  OutPoint, TxIn, TxOut, Transaction, serialize_outpoint, serialize_txout, serialize_tx,
}
use python_bitcointx.Eval.{SigVersion, base, witness_v0}

-- SIGHASH_ALL, SIGHASH_NONE, SIGHASH_SINGLE and SIGHASH_ANYONECANPAY
abbrev pub sighash_all : ℕ
sighash_all = 1

abbrev pub sighash_none : ℕ
sighash_none = 2

abbrev pub sighash_single : ℕ
sighash_single = 3

abbrev pub sighash_anyonecanpay : ℕ
sighash_anyonecanpay = 0x80

-- `hashtype & SIGHASH_ANYONECANPAY`, `(hashtype & 0x1f) == SIGHASH_NONE` and the same of SINGLE
unfoldable pub anyone_can_pay : ℕ → Bool
anyone_can_pay hashtype = not (bit_and hashtype sighash_anyonecanpay == 0)

unfoldable pub signs_none : ℕ → Bool
signs_none hashtype = bit_and hashtype 0x1f == sighash_none

unfoldable pub signs_single : ℕ → Bool
signs_single hashtype = bit_and hashtype 0x1f == sighash_single

-- The second component of the result, by its message: the index and the bound that it gives.
pub data RangeFailure : Type 0 where
  in_idx_out_of_range out_idx_out_of_range : ℕ → ℕ → RangeFailure

abbrev pub SigHash : Type 0
SigHash = Bytes × Option RangeFailure

abbrev pub hash_one : Bytes
hash_one = 1 ∷ replicate 31 0

-- `xs[i]`
unfoldable pub element {ℓ} : {A : Type ℓ} → List A → ℕ → Result A
element [] i = err index_error
element (x ∷ xs) zero = ok x
element (x ∷ xs) (suc i) = element xs i

-- What is hashed for a version 0 program: the three hashes over inputs and outputs.
abbrev pub zero_hash : Bytes
zero_hash = replicate 32 0

unfoldable pub write_sequence : Writer TxIn
write_sequence i = pack 4 i.n_sequence

unfoldable pub write_prevout : Writer TxIn
write_prevout i = serialize_outpoint i.prevout

unfoldable pub hash_prevouts : (Bytes → Bytes) → Transaction → ℕ → Result Bytes
hash_prevouts hash tx hashtype =
    if anyone_can_pay hashtype
    then ok zero_hash
    else (do s ← serialize_all write_prevout tx.vin; ok (hash s))

unfoldable pub hash_sequence : (Bytes → Bytes) → Transaction → ℕ → Result Bytes
hash_sequence hash tx hashtype =
    if anyone_can_pay hashtype || (signs_single hashtype || signs_none hashtype)
    then ok zero_hash
    else (do s ← serialize_all write_sequence tx.vin; ok (hash s))

unfoldable pub hash_outputs : (Bytes → Bytes) → Transaction → ℕ → ℕ → Result Bytes
hash_outputs hash tx in_idx hashtype =
    if not (signs_single hashtype || signs_none hashtype)
    then (do s ← serialize_all serialize_txout tx.vout; ok (hash s))
    else if signs_single hashtype && ltb in_idx (length tx.vout)
    then (do o ← element tx.vout in_idx; s ← serialize_txout o; ok (hash s))
    else ok zero_hash

-- What is written of the input at hand: its outpoint, the script, the amount and its sequence number.
unfoldable pub written_input : TxIn → Bytes → ℤ → Result Bytes
written_input i script amount = do
  o ← serialize_outpoint i.prevout
  s ← serialize_bytes script
  a ← pack_signed 8 amount
  n ← pack 4 i.n_sequence
  ok (o ++ (s ++ (a ++ n)))

unfoldable pub written_input_at : List TxIn → ℕ → Bytes → ℤ → Result Bytes
written_input_at vin in_idx script amount = do i ← element vin in_idx; written_input i script amount

-- The branch of SIGVERSION_WITNESS_V0. The lock time is packed with a sign, as the code does.
unfoldable pub witness_v0_preimage :
    (Bytes → Bytes) → Bytes → Transaction → (in_idx hashtype : ℕ) → ℤ → Result Bytes
witness_v0_preimage hash script tx in_idx hashtype amount = do
  p ← hash_prevouts hash tx hashtype
  q ← hash_sequence hash tx hashtype
  r ← hash_outputs hash tx in_idx hashtype
  v ← pack_signed 4 tx.n_version
  i ← written_input_at tx.vin in_idx script amount
  l ← pack_signed 4 (pos tx.n_lock_time)
  t ← pack_signed 4 (pos hashtype)
  ok (v ++ (p ++ (q ++ (i ++ (r ++ (l ++ t))))))

-- The steps that the branch of SIGVERSION_BASE makes on a copy of the transaction.
unfoldable pub blank : TxIn → TxIn
blank i = record { prevout = i.prevout; script_sig = []; n_sequence = i.n_sequence }

unfoldable pub set_script_sig : List TxIn → ℕ → Bytes → List TxIn
set_script_sig [] n script = []
set_script_sig (i ∷ is) zero script =
    record { prevout = i.prevout; script_sig = script; n_sequence = i.n_sequence } ∷ is
set_script_sig (i ∷ is) (suc n) script = i ∷ set_script_sig is n script

unfoldable pub zero_sequence : TxIn → TxIn
zero_sequence i = record { prevout = i.prevout; script_sig = i.script_sig; n_sequence = 0 }

-- `for i in range(len(txtmp.vin)): if i != inIdx: ...`
unfoldable pub zero_other_sequences : List TxIn → ℕ → List TxIn
zero_other_sequences [] n = []
zero_other_sequences (i ∷ is) zero = i ∷ map zero_sequence is
zero_other_sequences (i ∷ is) (suc n) = zero_sequence i ∷ zero_other_sequences is n

unfoldable pub signed_inputs : List TxIn → (in_idx hashtype : ℕ) → Bytes → List TxIn
signed_inputs vin in_idx hashtype script =
    let blanked = set_script_sig (map blank vin) in_idx script in
    let zeroed =
      if signs_none hashtype || signs_single hashtype
      then zero_other_sequences blanked in_idx
      else blanked in
    if anyone_can_pay hashtype then take 1 (drop in_idx zeroed) else zeroed

-- CMutableTxOut()
abbrev pub no_output : TxOut
no_output = record { n_value = negsuc 0; script_pubkey = [] }

unfoldable pub signed_outputs : List TxOut → (in_idx hashtype : ℕ) → List TxOut
signed_outputs vout in_idx hashtype =
    if signs_none hashtype
    then []
    else if signs_single hashtype
    then replicate in_idx no_output ++ take 1 (drop in_idx vout)
    else vout

unfoldable pub signed_copy : Transaction → (in_idx hashtype : ℕ) → Bytes → Transaction
signed_copy tx in_idx hashtype script = record {
  n_version = tx.n_version;
  vin = signed_inputs tx.vin in_idx hashtype script;
  vout = signed_outputs tx.vout in_idx hashtype;
  n_lock_time = tx.n_lock_time;
  wit = [];
}

unfoldable pub base_hash :
    (Bytes → Bytes) → Bytes → Transaction → (in_idx hashtype : ℕ) → Result SigHash
base_hash hash script tx in_idx hashtype = do
  guard (not (is_witness_scriptpubkey script)) value_error
  if leb (length tx.vin) in_idx
      then ok (hash_one, some (in_idx_out_of_range in_idx (length tx.vin)))
      else (do
        separator ← make_script (opcode op_codeseparator ∷ [])
        code ← find_and_delete script separator
        if signs_single hashtype && leb (length tx.vout) in_idx
            then ok (hash_one, some (out_idx_out_of_range in_idx (length tx.vout)))
            else (do
              s ← serialize_tx true (signed_copy tx in_idx hashtype code)
              t ← pack_signed 4 (pos hashtype)
              ok (hash (s ++ t), none)))

-- `amount is not None and amount < 0`
unfoldable pub is_negative_amount : Option ℤ → Bool
is_negative_amount none = false
is_negative_amount (some (pos n)) = false
is_negative_amount (some (negsuc n)) = true

-- `ensure_isinstance(amount, int, 'amount')`
unfoldable pub given_amount : Option ℤ → Result ℤ
given_amount none = err type_error
given_amount (some amount) = ok amount

-- RawBitcoinSignatureHash, for the double SHA-256 `hash`
unfoldable pub raw_bitcoin_signature_hash :
    (Bytes → Bytes)
    → (script : Bytes) → Transaction
    → (in_idx : ℤ) → (hashtype : ℕ) → (amount : Option ℤ) → SigVersion
    → Result SigHash
raw_bitcoin_signature_hash hash script tx (negsuc n) hashtype amount version = err value_error
raw_bitcoin_signature_hash hash script tx (pos n) hashtype amount base = do
  guard (not (is_negative_amount amount)) value_error
  base_hash hash script tx n hashtype
raw_bitcoin_signature_hash hash script tx (pos n) hashtype amount witness_v0 = do
  guard (not (is_negative_amount amount)) value_error
  a ← given_amount amount
  s ← witness_v0_preimage hash script tx n hashtype a
  ok (hash s, none)

-- SIGHASH_Type(hashtype): one of the three types, with or without ANYONECANPAY
unfoldable pub make_hashtype : ℕ → Result ℕ
make_hashtype hashtype = do
  let output_type = hashtype - bit_and hashtype sighash_anyonecanpay
  guard (output_type == sighash_all || output_type == sighash_none || output_type == sighash_single)
      value_error
  ok hashtype

-- `if err is not None: raise ValueError(err)`
unfoldable pub raise_range : SigHash → Result Bytes
raise_range (h, none) = ok h
raise_range (h, some failure) = err value_error

-- CScript.sighash
unfoldable pub sighash :
    (Bytes → Bytes)
    → (script : Bytes) → Transaction
    → (in_idx : ℤ) → (hashtype : ℕ) → (amount : Option ℤ) → SigVersion
    → Result Bytes
sighash hash script tx in_idx hashtype amount version = do
  t ← make_hashtype hashtype
  r ← raw_bitcoin_signature_hash hash script tx in_idx t amount version
  raise_range r

-- SignatureHash
unfoldable pub signature_hash :
    (Bytes → Bytes)
    → (script : Bytes) → Transaction
    → (in_idx : ℤ) → (hashtype : ℕ) → (amount : Option ℤ) → SigVersion
    → Result Bytes
signature_hash hash script tx in_idx hashtype amount version = do
  r ← raw_bitcoin_signature_hash hash script tx in_idx hashtype amount version
  raise_range r
