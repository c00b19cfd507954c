-- ===== src/Serialize.antt =====
-- bitcointx/core/serialize.py: reading from and writing to a byte stream.
--
-- A stream to read from is the list of the bytes not read yet; a reader returns its value and what
-- is left. A writer returns the bytes that it appends to the stream. What an aborted call has read
-- or written before it raised is not kept.
pub mod VarInt
pub mod Vectors
pub mod Words
use python_bitcointx.Prelude.{
  ℕ, zero, suc, ◌+◌, ◌≤◌, ◌<◌, ◌≡◌, Bool, true, false, not, ◌&&◌, ◌||◌, List, [], ◌∷◌, ◌++◌, length,
  take, drop, get_or, Bytes, ltb, leb, ◌==◌, if◌then◌else◌,
}
use python_bitcointx.Prelude.Int.{ℤ, pos, negsuc}
use python_bitcointx.Result.{
  Result, ok, err, ◌>>=◌, ◌>>◌, guard, serialization_error, truncation_error, value_bounds_error,
  extra_data_error, value_error,
}
use python_bitcointx.Struct.{from_le, le_bytes, pack}

abbrev pub max_size : ℕ
max_size = 0x02000000

abbrev pub Reader : Type 0 → Type 0
Reader A = Bytes → Result (A × Bytes)

abbrev pub Writer : Type 0 → Type 0
Writer A = A → Result Bytes

unfoldable pub ser_read : ℕ → Reader Bytes
ser_read n f =
    if ltb max_size n
    then err serialization_error
    else if ltb (length (take n f)) n
    then err truncation_error
    else ok (take n f, drop n f)

-- `Serializable.deserialize`: the exception for padding carries the padding.
unfoldable pub deserialize : {A : Type 0} → Reader A → Bytes → Bool → Result A
deserialize stream_deserialize buf allow_padding = do
  (r, padding) ← stream_deserialize buf
  guard (allow_padding || length padding == 0) (extra_data_error padding)
  ok r

-- `Serializer.deserialize`, by `deserialize_partial`.
unfoldable pub deserialize_exact : {A : Type 0} → Reader A → Bytes → Result A
deserialize_exact stream_deserialize buf = do
  (inst, tail) ← stream_deserialize buf
  guard (length tail == 0) value_error
  ok inst

-- VarIntSerializer.stream_serialize
unfoldable pub serialize_varint : Writer ℤ
serialize_varint (negsuc i) = err value_error
serialize_varint (pos i) =
    if ltb i 0xfd
    then ok (i ∷ [])
    else if leb i 0xffff
    then (do p ← pack 2 i; ok (0xfd ∷ p))
    else if leb i 0xffffffff
    then (do p ← pack 4 i; ok (0xfe ∷ p))
    else (do p ← pack 8 i; ok (0xff ∷ p))

-- The checks on a value `v` that follows a marker byte, and the limit on every value.
unfoldable pub check_range : Bool → ℕ → ℕ → Bytes → Result (ℕ × Bytes)
check_range allow_full_range lower_bound v f =
    if not allow_full_range && ltb max_size v
    then err (value_bounds_error v lower_bound max_size)
    else ok (v, f)

-- One of the three branches that follow a marker byte: `k` bytes are read.
unfoldable pub read_wide : Bool → (k lower_bound upper_bound : ℕ) → Reader ℕ
unfolding check_range
read_wide allow_full_range k lower_bound upper_bound f = do
  (s, f') ← ser_read k f
  let v = from_le s
  guard (not (ltb v lower_bound)) (value_bounds_error v lower_bound upper_bound)
  check_range allow_full_range lower_bound v f'

-- VarIntSerializer.stream_deserialize. `ser_read f 1` returns one byte, which `get_or` takes.
unfoldable pub deserialize_varint : Bool → Reader ℕ
unfolding read_wide
deserialize_varint allow_full_range f = do
  (s, f') ← ser_read 1 f
  let r = get_or s 0 0
  if ltb r 0xfd
      then ok (r, f')
      else if r == 0xfd
      then read_wide allow_full_range 2 0xfd 0xffff f'
      else if r == 0xfe
      then read_wide allow_full_range 4 0x10000 0xffffffff f'
      else read_wide allow_full_range 8 0x100000000 max_size f'

-- BytesSerializer
unfoldable pub serialize_bytes : Writer Bytes
serialize_bytes obj = do n ← serialize_varint (pos (length obj)); ok (n ++ obj)

unfoldable pub deserialize_bytes : Bool → Reader Bytes
deserialize_bytes allow_full_range f = do
  (datalen, f') ← deserialize_varint allow_full_range f
  ser_read datalen f'

-- The loops over the elements: `for inst in obj_seq` and `for i in range(n)`.
unfoldable pub serialize_all : {A : Type 0} → Writer A → Writer (List A)
serialize_all write [] = ok []
serialize_all write (x ∷ xs) = do s ← write x; t ← serialize_all write xs; ok (s ++ t)

unfoldable pub deserialize_many : {A : Type 0} → Reader A → ℕ → Reader (List A)
deserialize_many read zero f = ok ([], f)
deserialize_many read (suc n) f = do
  (x, f') ← read f
  (xs, f'') ← deserialize_many read n f'
  ok (x ∷ xs, f'')

-- VectorSerializer, for the `stream_serialize` and `stream_deserialize` of the elements' class
unfoldable pub serialize_vector : {A : Type 0} → Writer A → Writer (List A)
serialize_vector write obj = do
  n ← serialize_varint (pos (length obj))
  s ← serialize_all write obj
  ok (n ++ s)

unfoldable pub deserialize_vector : {A : Type 0} → Bool → Reader A → Reader (List A)
deserialize_vector allow_full_range read f = do
  (n, f') ← deserialize_varint allow_full_range f
  deserialize_many read n f'
