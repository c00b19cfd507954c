-- ===== src/Serialize/Vectors.antt =====
-- BytesSerializer and VectorSerializer: what their elements' readers and writers satisfy, they do.
use python_bitcointx.Prelude.{
  ℕ, zero, suc, ◌^◌, ◌≤◌, ◌<◌, ◌≡◌, inr, refl, sym, ap, ◌∙◌, Bool, List, [], ◌∷◌, ◌++◌,
  append_assoc, arith, length, Bytes, AreBytes, All,
}
use python_bitcointx.Result.{ok, >>=-eq-ok}
use python_bitcointx.Serialize.{
  max_size, Reader, Writer, deserialize_varint, serialize_bytes, deserialize_bytes, serialize_all,
  deserialize_many, serialize_vector, deserialize_vector,
}
use python_bitcointx.Serialize.VarInt.{
  ser_read-append, ser_read_takes, varint_round_trip, varint_canonical, AreBytes-front, Allowed,
}

-- The interface of a serializable class: what is written of a valid value is read back, and what
-- is read is what would be written.
pub record RoundTrips {A : Type 0} (IsValid : A → Type 0) (write : Writer A) (read : Reader A)
    : Type 0 where
  pub at :
      (a : A) (rest : Bytes)
      → IsValid a
      → (s : Bytes) × (write a ≡ ok s) × (read (s ++ rest) ≡ ok (a, rest))

pub record IsCanonical {A : Type 0} (IsValid : A → Type 0) (write : Writer A) (read : Reader A)
    : Type 0 where
  pub at :
      (a : A) (f rest : Bytes)
      → AreBytes f
      → read f ≡ ok (a, rest)
      → (s : Bytes) × (write a ≡ ok s) × (f ≡ s ++ rest) × IsValid a

abbrev pub IsShort {ℓ} : {A : Type ℓ} → List A → Type 0
IsShort xs = length xs ≤ max_size

-- The length of a vector can be counted, within the range that is allowed.
abbrev pub IsCounted {ℓ} : {A : Type ℓ} → Bool → List A → Type 0
IsCounted allow xs = (length xs < 2 ^ 64) × Allowed allow (length xs)

bytes_at :
    (allow : Bool) (b rest : Bytes)
    → IsShort b
    → (s : Bytes) × (serialize_bytes b ≡ ok s)
      × (deserialize_bytes allow (s ++ rest) ≡ ok (b, rest))
unfolding serialize_bytes deserialize_bytes
bytes_at allow b rest h =
    let (n, w, r) = varint_round_trip allow (length b) (b ++ rest) (omega arith) (inr h) in
    (n ++ b, rw w, rw append_assoc (rw r (ser_read-append b rest h)))

-- A byte string of at most MAX_SIZE bytes is read back.
pub bytes-RoundTrips : (allow : Bool) → RoundTrips IsShort serialize_bytes (deserialize_bytes allow)
bytes-RoundTrips allow = record { at = bytes_at allow }

bytes_canonical_at :
    (allow : Bool) (b f rest : Bytes)
    → AreBytes f
    → deserialize_bytes allow f ≡ ok (b, rest)
    → (s : Bytes) × (serialize_bytes b ≡ ok s) × (f ≡ s ++ rest) × IsShort b
unfolding serialize_bytes deserialize_bytes
bytes_canonical_at allow b f rest isb h =
    let ((n, f'), r, h') = >>=-eq-ok (deserialize_varint allow f) _ h in
    let (s, w, cut, small, allowed) = varint_canonical allow n f f' isb r in
    let (cut', len, fits) = ser_read_takes n f' b rest h' in
    (
      s ++ b,
      rw (len, w),
      cut ∙ ap (λ t. s ++ t) cut' ∙ sym (append_assoc s b rest),
      omega (arith, len),
    )

pub bytes-IsCanonical :
    (allow : Bool) → IsCanonical IsShort serialize_bytes (deserialize_bytes allow)
bytes-IsCanonical allow = record { at = bytes_canonical_at allow }

module _ {A : Type 0} {IsValid : A → Type 0} {write : Writer A} {read : Reader A} where
  pub serialize_all_at :
      RoundTrips IsValid write read
      → (xs : List A) (rest : Bytes) → All IsValid xs
      → (s : Bytes) × (serialize_all write xs ≡ ok s)
        × (deserialize_many read (length xs) (s ++ rest) ≡ ok (xs, rest))
  unfolding serialize_all deserialize_many
  serialize_all_at trips [] rest h = ([], refl, refl)
  serialize_all_at trips (x ∷ xs) rest h =
      let (t, w', r') = serialize_all_at trips xs rest h.1 in
      let (s, w, r) = trips.at x (t ++ rest) h.0 in
      (s ++ t, rw (w, w'), rw append_assoc (rw (r, r')))

  -- Lists of valid elements that can be counted are read back.
  pub vector-RoundTrips :
      (allow : Bool)
      → RoundTrips IsValid write read
      → RoundTrips
          (λ xs. IsCounted allow xs × All IsValid xs)
          (serialize_vector write)
          (deserialize_vector allow read)
  unfolding serialize_vector deserialize_vector
  vector-RoundTrips allow trips = record {
    at = λ xs rest h.
        let (t, w', r') = serialize_all_at trips xs rest h.1 in
        let (s, w, r) = varint_round_trip allow (length xs) (t ++ rest) h.0.0 h.0.1 in
        (s ++ t, rw (w, w'), rw append_assoc (rw (r, r')));
  }

module _ {A : Type 0} {IsValid : A → Type 0} {write : Writer A} {read : Reader A} where
  pub deserialize_many_takes :
      IsCanonical IsValid write read
      → (n : ℕ) (xs : List A) (f rest : Bytes) → AreBytes f
      → deserialize_many read n f ≡ ok (xs, rest)
      → (s : Bytes) × (serialize_all write xs ≡ ok s)
        × (f ≡ s ++ rest)
        × (length xs ≡ n)
        × All IsValid xs
  unfolding serialize_all deserialize_many
  deserialize_many_takes canonical zero xs f rest isb h =
      let nil : xs ≡ [] = ground arith in ([], rw nil, ground arith, rw nil, rw nil tt)
  deserialize_many_takes canonical (suc n) xs f rest isb h =
      let ((x, f'), r, h') = >>=-eq-ok (read f) _ h in
      let ((ys, f''), r', h'') = >>=-eq-ok (deserialize_many read n f') _ h' in
      let (s, w, cut, valid) = canonical.at x f f' isb r in
      let (t, w', cut', len, valid') =
        deserialize_many_takes canonical n ys f' f'' (AreBytes-front s f' (rw cut at isb)).1 r' in
      let whole : xs ≡ x ∷ ys = ground arith in
      let left : rest ≡ f'' = ground arith in
      (
        s ++ t,
        rw (whole, w, w'),
        cut ∙ ap (λ u. s ++ u) (rw left cut') ∙ sym (append_assoc s t rest),
        rw whole (ap suc len),
        rw whole (valid, valid'),
      )

  pub vector-IsCanonical :
      (allow : Bool)
      → IsCanonical IsValid write read
      → IsCanonical
          (λ xs. IsCounted allow xs × All IsValid xs)
          (serialize_vector write)
          (deserialize_vector allow read)
  unfolding serialize_vector deserialize_vector
  vector-IsCanonical allow canonical = record {
    at = λ xs f rest isb h.
        let ((n, f'), r, h') = >>=-eq-ok (deserialize_varint allow f) _ h in
        let (s, w, cut, small, allowed) = varint_canonical allow n f f' isb r in
        let (t, w', cut', len, valid) =
          deserialize_many_takes canonical n xs f' rest (AreBytes-front s f' (rw cut at isb)).1
            h' in
        (
          s ++ t,
          rw (len, w, w'),
          cut ∙ ap (λ u. s ++ u) cut' ∙ sym (append_assoc s t rest),
          (rw len (small, allowed), valid),
        );
  }
