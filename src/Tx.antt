-- ===== src/Tx.antt =====
-- bitcointx/core/__init__.py: transactions, their parts and their serialization. The classes are the
-- immutable ones; a witness of an input is its stack.
pub mod Parts
pub mod RoundTrip
pub mod Txid
pub mod Check
pub mod Size
use python_bitcointx.Prelude.{
  ℕ, zero, suc, ◌+◌, ◌-◌, ◌*◌, ◌%◌, ◌^◌, ◌≤◌, Bool, true, false, not, ◌&&◌, ◌||◌, Option, none,
  some, List, [], ◌∷◌, ◌++◌, length, get_or, Bytes, replicate, bytes_eq, ltb, leb, ◌==◌,
  if◌then◌else◌,
}
use python_bitcointx.Prelude.Int.{ℤ, pos, negsuc}
use python_bitcointx.Result.{Result, ok, err, ◌>>=◌, ◌>>◌, guard, value_error, assertion_error}
use python_bitcointx.Struct.{pack, pack_signed, from_le, unpack_signed}
use python_bitcointx.Serialize.{
  Reader, Writer, ser_read, serialize_bytes, deserialize_bytes, serialize_all, deserialize_many,
  serialize_vector, deserialize_vector,
}
use python_bitcointx.Script.Build.{serialize_witness, deserialize_witness}

-- COutPoint
pub record OutPoint : Type 0 where
  pub hash : Bytes
  pub n : ℕ

-- COutPoint.__init__
unfoldable pub make_outpoint : Bytes → ℤ → Result OutPoint
make_outpoint hash (negsuc n) = err value_error
make_outpoint hash (pos n) = do
  guard (length hash == 32) value_error
  guard (leb n 0xffffffff) value_error
  ok (record { hash = hash; n = n })

unfoldable pub serialize_outpoint : Writer OutPoint
serialize_outpoint o = do
  guard (length o.hash == 32) assertion_error
  n ← pack 4 o.n
  ok (o.hash ++ n)

unfoldable pub deserialize_outpoint : Reader OutPoint
deserialize_outpoint f = do
  (hash, f') ← ser_read 32 f
  (s, f'') ← ser_read 4 f'
  o ← make_outpoint hash (pos (from_le s))
  ok (o, f'')

unfoldable pub outpoint_is_null : OutPoint → Bool
outpoint_is_null o = bytes_eq o.hash (replicate 32 0) && o.n == 0xffffffff

-- CTxIn
pub record TxIn : Type 0 where
  pub prevout : OutPoint
  pub script_sig : Bytes
  pub n_sequence : ℕ

-- CTxIn.__init__
unfoldable pub make_txin : OutPoint → Bytes → ℤ → Result TxIn
make_txin prevout script_sig (negsuc n) = err value_error
make_txin prevout script_sig (pos n) = do
  guard (leb n 0xffffffff) value_error
  ok (record { prevout = prevout; script_sig = script_sig; n_sequence = n })

unfoldable pub serialize_txin : Writer TxIn
serialize_txin i = do
  p ← serialize_outpoint i.prevout
  s ← serialize_bytes i.script_sig
  n ← pack 4 i.n_sequence
  ok (p ++ (s ++ n))

unfoldable pub deserialize_txin : Bool → Reader TxIn
deserialize_txin allow f = do
  (prevout, f') ← deserialize_outpoint f
  (script_sig, f'') ← deserialize_bytes allow f'
  (s, f''') ← ser_read 4 f''
  i ← make_txin prevout script_sig (pos (from_le s))
  ok (i, f''')

unfoldable pub is_final : TxIn → Bool
is_final i = i.n_sequence == 0xffffffff

-- CTxOut
pub record TxOut : Type 0 where
  pub n_value : ℤ
  pub script_pubkey : Bytes

unfoldable pub serialize_txout : Writer TxOut
serialize_txout o = do v ← pack_signed 8 o.n_value; s ← serialize_bytes o.script_pubkey; ok (v ++ s)

unfoldable pub deserialize_txout : Bool → Reader TxOut
deserialize_txout allow f = do
  (v, f') ← ser_read 8 f
  (script_pubkey, f'') ← deserialize_bytes allow f'
  ok (record { n_value = unpack_signed 8 v; script_pubkey = script_pubkey }, f'')

-- CTransaction; `wit` is `wit.vtxinwit`, with each witness as its stack.
pub record Transaction : Type 0 where
  pub n_version : ℤ
  pub vin : List TxIn
  pub vout : List TxOut
  pub n_lock_time : ℕ
  pub wit : List (List Bytes)

-- CTxWitness.is_null
unfoldable pub wit_is_null : List (List Bytes) → Bool
wit_is_null [] = true
wit_is_null (stack ∷ wit) = length stack == 0 && wit_is_null wit

unfoldable pub or_empty : Option (List (List Bytes)) → List (List Bytes)
or_empty none = []
or_empty (some wit) = wit

-- CTransaction.__init__ of an immutable class: no witness is the empty one.
unfoldable pub make_transaction :
    List TxIn → List TxOut → ℤ → ℤ → Option (List (List Bytes)) → Result Transaction
unfolding or_empty
make_transaction vin vout (negsuc n) n_version witness = err value_error
make_transaction vin vout (pos n) n_version witness = do
  guard (leb n 0xffffffff) value_error
  ok (record {
    n_version = n_version;
    vin = vin;
    vout = vout;
    n_lock_time = n;
    wit = or_empty witness;
  })

unfoldable pub has_witness : Transaction → Bool
has_witness tx = not (wit_is_null tx.wit)

-- The vectors of the inputs and of the outputs, which both branches of the writer write.
unfoldable pub serialize_inputs_outputs : Writer Transaction
serialize_inputs_outputs tx = do
  i ← serialize_vector serialize_txin tx.vin
  o ← serialize_vector serialize_txout tx.vout
  ok (i ++ o)

-- CTransaction.stream_serialize between the version and the lock time
unfoldable pub serialize_body : Bool → Writer Transaction
serialize_body include_witness tx =
    if include_witness && has_witness tx
    then (do
      guard (length tx.wit == length tx.vin) assertion_error
      b ← serialize_inputs_outputs tx
      w ← serialize_all serialize_witness tx.wit
      ok (0 ∷ 1 ∷ (b ++ w)))
    else serialize_inputs_outputs tx

unfoldable pub serialize_tx : Bool → Writer Transaction
serialize_tx include_witness tx = do
  v ← pack_signed 4 tx.n_version
  b ← serialize_body include_witness tx
  l ← pack 4 tx.n_lock_time
  ok (v ++ (b ++ l))

-- The flags with the inputs and the outputs, and what is left to read.
abbrev pub Body : Type 0
Body = ℕ × List TxIn × List TxOut

-- CTransaction.stream_deserialize behind the first vector of inputs: an empty one may be the marker.
unfoldable pub read_body : Bool → List TxIn → Reader Body
read_body allow [] f = do
  (s, f') ← ser_read 1 f
  let flags = get_or s 0 0
  let marked = do
    (vin, f'') ← deserialize_vector allow (deserialize_txin allow) f'
    (vout, f''') ← deserialize_vector allow (deserialize_txout allow) f''
    ok ((flags, vin, vout), f''')
  if flags == 0 then ok ((0, [], []), f') else marked
read_body allow (i ∷ vin) f = do
  (vout, f') ← deserialize_vector allow (deserialize_txout allow) f
  ok ((0, i ∷ vin, vout), f')

-- The witness, if bit 0 of the flags is set (`flags & 1`), and the flags without that bit.
unfoldable pub read_wit : Bool → ℕ → ℕ → Reader (ℕ × Option (List (List Bytes)))
read_wit allow flags num_inputs f =
    if flags % 2 == 1
    then (do
      (wit, f') ← deserialize_many (deserialize_witness allow) num_inputs f
      guard (not (wit_is_null wit)) value_error
      ok ((flags - 1, some wit), f'))
    else ok ((flags, none), f)

-- CTransaction.stream_deserialize
unfoldable pub deserialize_tx : Bool → Reader Transaction
deserialize_tx allow f = do
  (v, f1) ← ser_read 4 f
  (first, f2) ← deserialize_vector allow (deserialize_txin allow) f1
  ((flags, vin, vout), f3) ← read_body allow first f2
  ((unknown, wit), f4) ← read_wit allow flags (length vin) f3
  guard (unknown == 0) value_error
  (l, f5) ← ser_read 4 f4
  tx ← make_transaction vin vout (pos (from_le l)) (unpack_signed 4 v) wit
  ok (tx, f5)

unfoldable pub coinbase_inputs : List TxIn → Bool
coinbase_inputs [] = false
coinbase_inputs (i ∷ []) = outpoint_is_null i.prevout
coinbase_inputs (i ∷ j ∷ is) = false

unfoldable pub is_coinbase : Transaction → Bool
unfolding coinbase_inputs
is_coinbase tx = coinbase_inputs tx.vin

-- CTransaction.GetTxid, for the double SHA-256 `hash`
unfoldable pub get_txid : (Bytes → Bytes) → Transaction → Result Bytes
get_txid hash tx =
    if has_witness tx
    then (do
      stripped ← make_transaction tx.vin tx.vout (pos tx.n_lock_time) tx.n_version none
      s ← serialize_tx true stripped
      ok (hash s))
    else (do s ← serialize_tx true tx; ok (hash s))
