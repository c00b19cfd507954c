-- ===== src/Tx/Parts.antt =====
-- The parts of a transaction are read back as they were written.
use python_bitcointx.Prelude.{
  ℕ, ◌^◌, ◌<◌, ◌≡◌, Bool, true, ◌++◌, append_assoc, arith, length, Bytes, lt→ltb,
}
use python_bitcointx.Result.{ok}
use python_bitcointx.Struct.{
  le_bytes, pack, pack_signed, fits_signed, to_word, length-le_bytes, from_le-le_bytes,
  unpack_signed-pack_signed,
}
use python_bitcointx.Serialize.{ser_read}
use python_bitcointx.Serialize.VarInt.{ser_read-append}
use python_bitcointx.Serialize.Vectors.{RoundTrips, IsShort, bytes-RoundTrips}
use python_bitcointx.Tx.{
  OutPoint, make_outpoint, serialize_outpoint, deserialize_outpoint, TxIn, make_txin,
  serialize_txin, deserialize_txin, TxOut, serialize_txout, deserialize_txout,
}

-- A field of four bytes, packed unsigned.
pub read_le4 : (v : ℕ) (rest : Bytes) → ser_read 4 (le_bytes 4 v ++ rest) ≡ ok (le_bytes 4 v, rest)
read_le4 v rest =
    rw (length-le_bytes 4 v) at
      (ser_read-append (le_bytes 4 v) rest (omega (arith, length-le_bytes 4 v)))

pub pack4 : (v : ℕ) → v < 2 ^ 32 → pack 4 v ≡ ok (le_bytes 4 v)
unfolding pack
pack4 v h = rw (lt→ltb v (2 ^ 32) h)

abbrev pub IsOutPoint : OutPoint → Type 0
IsOutPoint o = (length o.hash ≡ 32) × (o.n < 2 ^ 32)

outpoint_at :
    (o : OutPoint) (rest : Bytes)
    → IsOutPoint o
    → (s : Bytes) × (serialize_outpoint o ≡ ok s)
      × (deserialize_outpoint (s ++ rest) ≡ ok (o, rest))
unfolding serialize_outpoint deserialize_outpoint make_outpoint
outpoint_at o rest (len, small) =
    let read : ser_read 32 (o.hash ++ (le_bytes 4 o.n ++ rest))
        ≡ ok (o.hash, le_bytes 4 o.n ++ rest) =
      rw len at (ser_read-append o.hash (le_bytes 4 o.n ++ rest) (omega arith)) in
    (
      o.hash ++ le_bytes 4 o.n,
      rw (pack4 o.n small) (ground arith),
      rw (append_assoc, read, read_le4 o.n rest, from_le-le_bytes 4 o.n small) (ground arith),
    )

pub outpoint-RoundTrips : RoundTrips IsOutPoint serialize_outpoint deserialize_outpoint
outpoint-RoundTrips = record { at = outpoint_at }

abbrev pub IsTxIn : TxIn → Type 0
IsTxIn i = IsOutPoint i.prevout × IsShort i.script_sig × (i.n_sequence < 2 ^ 32)

txin_at :
    (allow : Bool) (i : TxIn) (rest : Bytes)
    → IsTxIn i
    → (s : Bytes) × (serialize_txin i ≡ ok s) × (deserialize_txin allow (s ++ rest) ≡ ok (i, rest))
unfolding serialize_txin deserialize_txin make_txin
txin_at allow i rest (out, short, small) =
    let n : Bytes = le_bytes 4 i.n_sequence in
    let (s, w', r') = (bytes-RoundTrips allow).at i.script_sig (n ++ rest) short in
    let (p, w, r) = outpoint-RoundTrips.at i.prevout (s ++ (n ++ rest)) out in
    (
      p ++ (s ++ n),
      rw (w, w', pack4 i.n_sequence small),
      rw
          (
            append_assoc p (s ++ n) rest,
            append_assoc s n rest,
            r,
            r',
            read_le4 i.n_sequence rest,
            from_le-le_bytes 4 i.n_sequence small,
          )
          (ground arith),
    )

pub txin-RoundTrips : (allow : Bool) → RoundTrips IsTxIn serialize_txin (deserialize_txin allow)
txin-RoundTrips allow = record { at = txin_at allow }

abbrev pub IsTxOut : TxOut → Type 0
IsTxOut o = (fits_signed 8 o.n_value ≡ true) × IsShort o.script_pubkey

txout_at :
    (allow : Bool) (o : TxOut) (rest : Bytes)
    → IsTxOut o
    → (s : Bytes) × (serialize_txout o ≡ ok s)
      × (deserialize_txout allow (s ++ rest) ≡ ok (o, rest))
unfolding serialize_txout deserialize_txout pack_signed
txout_at allow o rest (fits, short) =
    let v : Bytes = le_bytes 8 (to_word 8 o.n_value) in
    let len : length v ≡ 8 = length-le_bytes 8 (to_word 8 o.n_value) in
    let (s, w, r) = (bytes-RoundTrips allow).at o.script_pubkey rest short in
    let read : ser_read 8 (v ++ (s ++ rest)) ≡ ok (v, s ++ rest) =
      rw len at (ser_read-append v (s ++ rest) (omega (arith, len))) in
    (
      v ++ s,
      rw (fits, w),
      rw (append_assoc v s rest, read, r, unpack_signed-pack_signed 7 o.n_value fits),
    )

pub txout-RoundTrips : (allow : Bool) → RoundTrips IsTxOut serialize_txout (deserialize_txout allow)
txout-RoundTrips allow = record { at = txout_at allow }
