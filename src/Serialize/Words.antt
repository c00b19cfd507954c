-- ===== src/Serialize/Words.antt =====
-- bitcointx/core/serialize.py: uint256VectorSerializer, intVectorSerializer, uint256_from_bytes and
-- uint256_to_bytes. A shift and a mask are a division and a remainder.
pub mod RoundTrip
use python_bitcointx.Prelude.{
  ℕ, zero, suc, ◌+◌, ◌*◌, ◌/◌, ◌%◌, ◌^◌, Bool, List, [], ◌++◌, length, take, drop, Bytes, ◌==◌,
}
use python_bitcointx.Prelude.Int.{ℤ}
use python_bitcointx.Result.{Result, ok, ◌>>=◌, ◌>>◌, guard, value_error, struct_error}
use python_bitcointx.Struct.{from_le, pack_signed, unpack_signed, pack}
use python_bitcointx.Serialize.{Reader, Writer, ser_read, serialize_vector, deserialize_vector}

-- The elements of the two vectors.
unfoldable pub write_uint256 : Writer Bytes
write_uint256 uint = do guard (length uint == 32) value_error; ok uint

unfoldable pub read_uint256 : Reader Bytes
read_uint256 f = ser_read 32 f

unfoldable pub write_int : Writer ℤ
write_int i = pack_signed 4 i

unfoldable pub read_int : Reader ℤ
read_int f = do (s, f') ← ser_read 4 f; ok (unpack_signed 4 s, f')

unfoldable pub serialize_uint256s : Writer (List Bytes)
serialize_uint256s obj = serialize_vector write_uint256 obj

unfoldable pub deserialize_uint256s : Bool → Reader (List Bytes)
deserialize_uint256s allow f = deserialize_vector allow read_uint256 f

unfoldable pub serialize_ints : Writer (List ℤ)
serialize_ints obj = serialize_vector write_int obj

unfoldable pub deserialize_ints : Bool → Reader (List ℤ)
deserialize_ints allow f = deserialize_vector allow read_int f

-- `r += t[i] << (i * 32)` for `n` values of `i`, over the words `t` of the bytes
unfoldable pub add_words : (n i : ℕ) → Bytes → (r : ℕ) → ℕ
add_words zero i s r = r
add_words (suc n) i s r = add_words n (suc i) (drop 4 s) (r + from_le (take 4 s) * 2 ^ (i * 32))

unfoldable pub uint256_from_bytes : Bytes → Result ℕ
uint256_from_bytes s = do
  guard (length (take 32 s) == 32) struct_error
  ok (add_words 8 0 (take 32 s) 0)

-- `r += struct.pack('<I', u >> (i * 32) & 0xffffffff)` for `n` values of `i`
unfoldable pub pack_words : (n i : ℕ) → (u : ℕ) → Result Bytes
pack_words zero i u = ok []
pack_words (suc n) i u = do
  s ← pack 4 (u / 2 ^ (i * 32) % 2 ^ 32)
  r ← pack_words n (suc i) u
  ok (s ++ r)

unfoldable pub uint256_to_bytes : ℕ → Result Bytes
uint256_to_bytes u = pack_words 8 0 u
