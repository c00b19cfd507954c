-- ===== src/Serialize/VarInt.antt =====
-- VarIntSerializer: the round trip both ways, and the bounds of what is read.
use python_bitcointx.Prelude.{
  ℕ, ◌^◌, ◌≤◌, ◌<◌, ◌≡◌, ◌⊎◌, inl, inr, sym, Bool, true, not, [], ◌∷◌, ◌++◌, arith, length, Bytes,
  AreBytes, ltb, leb, if◌then◌else◌, lt→ltb, le→ltb_false, ltb_false→le, take-append, drop-append,
  take-append-drop, length-take, Bool-cases,
}
use python_bitcointx.Prelude.Int.{pos}
use python_bitcointx.Result.{ok, err, ◌>>◌, guard, >>=-eq-ok, struct_error, value_bounds_error}
use python_bitcointx.Struct.{
  le_bytes, from_le, pack, length-le_bytes, from_le-le_bytes, le_bytes-from_le, from_le-lt,
}
use python_bitcointx.Serialize.{
  max_size, ser_read, serialize_varint, check_range, read_wide, deserialize_varint,
}

-- A read of as many bytes as stand in front of `rest` returns them.
pub ser_read-append :
    (s rest : Bytes) → length s ≤ max_size → ser_read (length s) (s ++ rest) ≡ ok (s, rest)
unfolding ser_read
ser_read-append s rest h =
    rw (le→ltb_false max_size (length s) h)
      (rw (take-append s rest, drop-append s rest) (ground arith))

-- What a read returns and leaves is the stream, cut behind `n` bytes.
pub ser_read_takes :
    (n : ℕ) (f s rest : Bytes)
    → ser_read n f ≡ ok (s, rest)
    → (f ≡ s ++ rest) × (length s ≡ n) × (n ≤ max_size)
unfolding ser_read
ser_read_takes n f s rest h = ground (arith, sym (take-append-drop n f), length-take n f)

-- The encoding of a number, by its size.
unfoldable pub compact_size : ℕ → Bytes
compact_size v =
    if ltb v 0xfd
    then v ∷ []
    else if leb v 0xffff
    then 0xfd ∷ le_bytes 2 v
    else if leb v 0xffffffff
    then 0xfe ∷ le_bytes 4 v
    else 0xff ∷ le_bytes 8 v

-- A number below 2 ^ 64 has its encoding written, and any other raises struct.error.
pub serialize_varint-eq :
    (v : ℕ)
    → serialize_varint (pos v) ≡ (if ltb v (2 ^ 64) then ok (compact_size v) else err struct_error)
unfolding serialize_varint compact_size pack
serialize_varint-eq v = ground arith

abbrev pub Allowed : Bool → ℕ → Type 0
Allowed allow_full_range v = (allow_full_range ≡ true) ⊎ (v ≤ max_size)

check_range-Allowed :
    (allow : Bool) (lo v : ℕ) (f : Bytes) → Allowed allow v → check_range allow lo v f ≡ ok (v, f)
unfolding check_range
check_range-Allowed allow lo v f h = ground arith

read_wide-le_bytes :
    (allow : Bool) (k lo hi v : ℕ) (rest : Bytes)
    → k ≤ 8
    → v < 256 ^ k
    → lo ≤ v
    → Allowed allow v
    → read_wide allow k lo hi (le_bytes k v ++ rest) ≡ ok (v, rest)
unfolding read_wide
read_wide-le_bytes allow k lo hi v rest hk hv hlo h =
    rw read
      (rw (from_le-le_bytes k v hv, le→ltb_false v lo hlo) (check_range-Allowed allow lo v rest h))
  where
    read : ser_read k (le_bytes k v ++ rest) ≡ ok (le_bytes k v, rest)
    read =
        rw (length-le_bytes k v) at
          (ser_read-append (le_bytes k v) rest (omega (arith, length-le_bytes k v)))

pub deserialize_varint-compact_size :
    (allow : Bool) (v : ℕ) (rest : Bytes)
    → v < 2 ^ 64
    → Allowed allow v
    → deserialize_varint allow (compact_size v ++ rest) ≡ ok (v, rest)
unfolding deserialize_varint compact_size ser_read
deserialize_varint-compact_size allow v rest hv h = ground (
  arith,
  read_wide-le_bytes allow 2 0xfd 0xffff v rest,
  read_wide-le_bytes allow 4 0x10000 0xffffffff v rest,
  read_wide-le_bytes allow 8 0x100000000 max_size v rest,
)

-- What a branch behind a marker byte has read: `k` bytes that hold a number within its bounds.
record Wide (allow : Bool) (k lo v : ℕ) (f rest : Bytes) : Type 0 where
  cut : f ≡ le_bytes k v ++ rest
  small : v < 256 ^ k
  least : lo ≤ v
  allowed : Allowed allow v

from_le_takes :
    (k : ℕ) (s : Bytes)
    → AreBytes s
    → length s ≡ k
    → (s ≡ le_bytes k (from_le s)) × (from_le s < 256 ^ k)
from_le_takes k s h e = rw (← e) (sym (le_bytes-from_le s h), from_le-lt s h)

pub AreBytes-front : (s rest : Bytes) → AreBytes (s ++ rest) → AreBytes s × AreBytes rest
AreBytes-front [] rest h = (tt, h)
AreBytes-front (x ∷ s) rest h = let p = AreBytes-front s rest h.1 in ((h.0, p.0), p.1)

check_range_takes :
    (allow : Bool) (lo v w : ℕ) (f rest : Bytes)
    → check_range allow lo v f ≡ ok (w, rest)
    → (w ≡ v) × (rest ≡ f) × Allowed allow v
unfolding check_range
check_range_takes allow lo v w f rest h = ground arith

Wide-of_parts :
    (allow : Bool) (k lo hi v : ℕ) (s f rest : Bytes)
    → s ≡ le_bytes k (from_le s)
    → from_le s < 256 ^ k
    → (guard (not (ltb (from_le s) lo)) (value_bounds_error (from_le s) lo hi)
        >> check_range allow lo (from_le s) f)
      ≡ ok (v, rest)
    → Wide allow k lo v (s ++ f) rest
Wide-of_parts allow k lo hi v s f rest whole small h = elim (Bool-cases (ltb (from_le s) lo)) [
  | inl low ↦ cc (rw low at h)
  | inr least ↦
      let (e, e', allowed) = check_range_takes allow lo (from_le s) v f rest (rw least at h) in
      record {
        cut = rw (e, e', ← whole);
        small = rw e small;
        least = rw e (ltb_false→le _ _ least);
        allowed = rw e allowed;
      }
]

read_wide_takes :
    (allow : Bool) (k lo hi v : ℕ) (f rest : Bytes)
    → AreBytes f
    → read_wide allow k lo hi f ≡ ok (v, rest)
    → Wide allow k lo v f rest
unfolding read_wide
read_wide_takes allow k lo hi v f rest bytes h =
    let ((s, f'), read, h') = >>=-eq-ok (ser_read k f) _ h in
    let (cut, len, fits) = ser_read_takes k f s f' read in
    let (isb, isb') = AreBytes-front s f' (rw cut at bytes) in
    let (whole, small) = from_le_takes k s isb len in
    rw cut (Wide-of_parts allow k lo hi v s f' rest whole small h')

deserialize_varint_takes :
    (allow : Bool) (v : ℕ) (f rest : Bytes)
    → AreBytes f
    → deserialize_varint allow f ≡ ok (v, rest)
    → (f ≡ compact_size v ++ rest) × (v < 2 ^ 64) × Allowed allow v
unfolding deserialize_varint compact_size ser_read
deserialize_varint_takes allow v [] rest bytes h = cc
deserialize_varint_takes allow v (r ∷ f) rest bytes h = ground (
  arith,
  bytes,
  read_wide_takes allow 2 0xfd 0xffff v f rest,
  read_wide_takes allow 4 0x10000 0xffffffff v f rest,
  read_wide_takes allow 8 0x100000000 max_size v f rest,
)

-- Below 2 ^ 64, and at most MAX_SIZE unless the full range is allowed, a number is serialized, and
-- deserializing what was written returns the number and leaves what follows.
pub varint_round_trip :
    (allow_full_range : Bool) (v : ℕ) (rest : Bytes)
    → v < 2 ^ 64
    → Allowed allow_full_range v
    → (s : Bytes) × (serialize_varint (pos v) ≡ ok s)
      × (deserialize_varint allow_full_range (s ++ rest) ≡ ok (v, rest))
varint_round_trip allow v rest hv h = (
  compact_size v,
  rw serialize_varint-eq (rw (lt→ltb v (2 ^ 64) hv)),
  deserialize_varint-compact_size allow v rest hv h,
)

-- What deserializing a number accepts from a byte string is exactly the bytes that serializing that
-- number writes. The number is below 2 ^ 64, and at most MAX_SIZE unless the full range is allowed.
pub varint_canonical :
    (allow_full_range : Bool) (v : ℕ) (f rest : Bytes)
    → AreBytes f
    → deserialize_varint allow_full_range f ≡ ok (v, rest)
    → (s : Bytes) × (serialize_varint (pos v) ≡ ok s)
      × (f ≡ s ++ rest)
      × (v < 2 ^ 64)
      × Allowed allow_full_range v
varint_canonical allow v f rest bytes h =
    let (cut, small, allowed) = deserialize_varint_takes allow v f rest bytes h in
    (compact_size v, rw serialize_varint-eq (rw (lt→ltb v (2 ^ 64) small)), cut, small, allowed)
