-- ===== src/Serialize/Words/RoundTrip.antt =====
-- The conversions and vectors of 256-bit numbers and the vectors of signed 32-bit integers in
-- bitcointx/core/serialize.py: what is written is read back.
use python_bitcointx.Prelude.{
  ℕ, zero, suc, ◌+◌, ◌*◌, ◌/◌, ◌%◌, ◌^◌, ◌≤◌, ◌≡◌, refl, sym, ap, ◌∙◌, Bool, true, List, [], ◌∷◌,
  ◌++◌, arith, length, take, Bytes, All,
}
use python_bitcointx.Prelude.Int.{ℤ}
use python_bitcointx.Result.{ok}
use python_bitcointx.Struct.{
  le_bytes, pack, fits_signed, pack_signed, from_le-le_bytes, length-le_bytes, to_word,
  unpack_signed-pack_signed,
}
use python_bitcointx.Serialize.{ser_read}
use python_bitcointx.Serialize.VarInt.{ser_read-append}
use python_bitcointx.Serialize.Vectors.{RoundTrips, vector-RoundTrips, IsCounted}
use python_bitcointx.Serialize.Words.{
  write_uint256, read_uint256, write_int, read_int, serialize_uint256s, deserialize_uint256s,
  serialize_ints, deserialize_ints, add_words, uint256_from_bytes, pack_words, uint256_to_bytes,
}

-- The sum of the words that are packed, each at its place.
unfoldable words : (n i u : ℕ) → ℕ
words zero i u = 0
words (suc n) i u = u / 2 ^ (i * 32) % 2 ^ 32 * 2 ^ (i * 32) + words n (suc i) u

take_all : (s : Bytes) → take (length s) s ≡ s
take_all [] = refl
take_all (b ∷ s) = ap (λ t. b ∷ t) (take_all s)

pack_word : (w : ℕ) → pack 4 (w % 2 ^ 32) ≡ ok (le_bytes 4 (w % 2 ^ 32))
unfolding pack
pack_word w = ground arith

add_words-cons :
    (n i w r : ℕ) (t : Bytes)
    → add_words (suc n) i (le_bytes 4 (w % 2 ^ 32) ++ t) r
      ≡ add_words n (suc i) t (r + w % 2 ^ 32 * 2 ^ (i * 32))
unfolding add_words le_bytes
add_words-cons n i w r t =
    ap (λ x. add_words n (suc i) t (r + x * 2 ^ (i * 32)))
      (from_le-le_bytes 4 (w % 2 ^ 32) (omega arith))

-- The words that are packed are as many as asked for, and add up.
packed_words :
    (n i u : ℕ)
    → (s : Bytes) × (pack_words n i u ≡ ok s)
      × (length s ≡ n * 4)
      × ((r : ℕ) → add_words n i s r ≡ r + words n i u)
unfolding pack_words add_words words le_bytes
packed_words zero i u = ([], refl, refl, λ r. omega arith)
packed_words (suc n) i u =
    let w = u / 2 ^ (i * 32) in
    let (s, e, len, sum) = packed_words n (suc i) u in
    (
      le_bytes 4 (w % 2 ^ 32) ++ s,
      rw (pack_word w, e) refl,
      omega (arith, len),
      λ r. add_words-cons n i w r s ∙ sum (r + w % 2 ^ 32 * 2 ^ (i * 32)) ∙ omega arith,
    )

words_all : (u : ℕ) → words 8 0 u ≡ u % 2 ^ 256
unfolding words
words_all u = omega arith

-- The 32 bytes of a number are read back as the number modulo 2 ^ 256, and so as the number itself
-- below that.
uint256_from_bytes-uint256_to_bytes :
    (u : ℕ)
    → (s : Bytes) × (uint256_to_bytes u ≡ ok s)
      × (length s ≡ 32)
      × (uint256_from_bytes s ≡ ok (u % 2 ^ 256))
unfolding uint256_to_bytes uint256_from_bytes
uint256_from_bytes-uint256_to_bytes u =
    let (s, e, len, sum) = packed_words 8 0 u in
    let whole : take 32 s ≡ s = ap (λ n. take n s) (sym len) ∙ take_all s in
    let total : add_words 8 0 s 0 ≡ u % 2 ^ 256 = omega (arith, sum 0, words_all u) in
    (s, e, len, rw whole (rw len (ap ok total)))

read_at : (n : ℕ) (s rest : Bytes) → length s ≡ n → n ≤ 1000 → ser_read n (s ++ rest) ≡ ok (s, rest)
read_at n s rest h k =
    ap (λ m. ser_read m (s ++ rest)) (sym h) ∙ ser_read-append s rest (omega (arith, h, k))

uint256-RoundTrips : RoundTrips (λ b. length b ≡ 32) write_uint256 read_uint256
unfolding write_uint256 read_uint256
uint256-RoundTrips = record { at = λ b rest h. (b, rw h refl, read_at 32 b rest h (omega arith)) }

int-RoundTrips : RoundTrips (λ i. fits_signed 4 i ≡ true) write_int read_int
unfolding write_int read_int pack_signed
int-RoundTrips = record {
  at = λ i rest h.
      let s = le_bytes 4 (to_word 4 i) in
      (
        s,
        rw h refl,
        rw (read_at 4 s rest (length-le_bytes 4 (to_word 4 i)) (omega arith))
            (rw (unpack_signed-pack_signed 3 i h) refl),
      );
}

-- A vector of byte strings of 32 bytes that can be counted is written and read back.
uint256s_round_trip :
    (allow : Bool) (xs : List Bytes) (rest : Bytes)
    → IsCounted allow xs
    → All (λ b. length b ≡ 32) xs
    → (s : Bytes) × (serialize_uint256s xs ≡ ok s)
      × (deserialize_uint256s allow (s ++ rest) ≡ ok (xs, rest))
unfolding serialize_uint256s deserialize_uint256s
uint256s_round_trip allow xs rest h v =
    (vector-RoundTrips allow uint256-RoundTrips).at xs rest (h, v)

-- A vector of integers from -2 ^ 31 to 2 ^ 31 - 1 that can be counted is written and read back.
ints_round_trip :
    (allow : Bool) (xs : List ℤ) (rest : Bytes)
    → IsCounted allow xs
    → All (λ i. fits_signed 4 i ≡ true) xs
    → (s : Bytes) × (serialize_ints xs ≡ ok s)
      × (deserialize_ints allow (s ++ rest) ≡ ok (xs, rest))
unfolding serialize_ints deserialize_ints
ints_round_trip allow xs rest h v = (vector-RoundTrips allow int-RoundTrips).at xs rest (h, v)
