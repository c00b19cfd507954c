-- ===== src/Tx/RoundTrip.antt =====
-- A transaction is read back as it was written, with and without a witness.
use python_bitcointx.Prelude.{
  ℕ, ◌^◌, ◌<◌, ◌≡◌, ◌≢◌, ◌⊎◌, inl, inr, refl, sym, ap, ◌∙◌, Bool, true, false, not, Option, none,
  some, List, [], ◌∷◌, ◌++◌, append_assoc, arith, length, Bytes, All, ==_refl, le→leb,
}
use mathlib.Core.Path.{ap₂}
use python_bitcointx.Result.{ok}
use python_bitcointx.Struct.{
  le_bytes, pack_signed, fits_signed, to_word, from_le-le_bytes, unpack_signed-pack_signed,
}
use python_bitcointx.Serialize.{
  Reader, Writer, ser_read, serialize_all, deserialize_vector, deserialize_varint, deserialize_many,
  serialize_vector, serialize_varint,
}
use python_bitcointx.Serialize.Vectors.{IsCounted, vector-RoundTrips, serialize_all_at}
use python_bitcointx.Script.Build.{serialize_witness, deserialize_witness}
use python_bitcointx.Script.Build.Data.{IsWitness, IsWitness-RoundTrips}
use python_bitcointx.Tx.{
  TxIn, TxOut, Transaction, serialize_txin, deserialize_txin, serialize_txout, deserialize_txout,
  wit_is_null, or_empty, make_transaction, has_witness, serialize_inputs_outputs, serialize_body,
  serialize_tx, read_body, read_wit, deserialize_tx,
}
use python_bitcointx.Tx.Parts.{IsTxIn, IsTxOut, txin-RoundTrips, txout-RoundTrips, pack4, read_le4}

-- A witness is absent, or it has a stack for each input and one of them is not empty.
abbrev pub IsWit : Bool → List TxIn → List (List Bytes) → Type 0
IsWit allow vin wit =
    (wit ≡ []) ⊎ ((wit_is_null wit ≡ false) × (length wit ≡ length vin) × All (IsWitness allow) wit)

-- A transaction that the format can carry. One with outputs and no inputs is not: the empty vector
-- of inputs would be read as the marker of a witness.
pub record IsTx (allow : Bool) (tx : Transaction) : Type 0 where
  pub version : fits_signed 4 tx.n_version ≡ true
  pub inputs : IsCounted allow tx.vin × All IsTxIn tx.vin
  pub outputs : IsCounted allow tx.vout × All IsTxOut tx.vout
  pub lock_time : tx.n_lock_time < 2 ^ 32
  pub witness : IsWit allow tx.vin tx.wit
  pub marker : (tx.vin ≢ []) ⊎ (tx.vout ≡ [])

deserialize_vector-zero :
    {A : Type 0} (allow : Bool) (read : Reader A) (f : Bytes)
    → deserialize_vector allow read (0 ∷ f) ≡ ok ([], f)
unfolding deserialize_vector deserialize_varint ser_read deserialize_many
deserialize_vector-zero allow read f = refl

module _ (allow : Bool) (tx : Transaction) (rest : Bytes) (valid : IsTx allow tx) where
  inputs_outputs_at :
      (b : Bytes) × (serialize_inputs_outputs tx ≡ ok b)
      × (i : Bytes) × (o : Bytes) × (b ≡ i ++ o)
      × (serialize_vector serialize_txout tx.vout ≡ ok o)
      × (serialize_vector serialize_txin tx.vin ≡ ok i)
      × (deserialize_vector allow (deserialize_txout allow) (o ++ rest) ≡ ok (tx.vout, rest))
      × (deserialize_vector allow (deserialize_txin allow) (i ++ (o ++ rest))
          ≡ ok (tx.vin, o ++ rest))
  unfolding serialize_inputs_outputs
  inputs_outputs_at =
      let (o, wo, ro) =
        (vector-RoundTrips allow (txout-RoundTrips allow)).at tx.vout rest valid.outputs in
      let (i, wi, ri) =
        (vector-RoundTrips allow (txin-RoundTrips allow)).at tx.vin (o ++ rest) valid.inputs in
      (i ++ o, rw (wi, wo), i, o, refl, wo, wi, ro, ri)

-- The body behind a marker and the flag 1.
read_body-flag :
    (allow : Bool) (vin : List TxIn) (vout : List TxOut) (i o rest : Bytes)
    → deserialize_vector allow (deserialize_txin allow) (i ++ (o ++ rest)) ≡ ok (vin, o ++ rest)
    → deserialize_vector allow (deserialize_txout allow) (o ++ rest) ≡ ok (vout, rest)
    → read_body allow [] (1 ∷ (i ++ (o ++ rest))) ≡ ok ((1, vin, vout), rest)
unfolding read_body ser_read
read_body-flag allow vin vout i o rest ri ro = rw (ri, ro)

read_wit-flag :
    (allow : Bool) (wit : List (List Bytes)) (n : ℕ) (f rest : Bytes)
    → deserialize_many (deserialize_witness allow) n f ≡ ok (wit, rest)
    → wit_is_null wit ≡ false
    → read_wit allow 1 n f ≡ ok ((0, some wit), rest)
unfolding read_wit
read_wit-flag allow wit n f rest r h = rw (r, h)

read_wit-plain : (allow : Bool) (n : ℕ) (f : Bytes) → read_wit allow 0 n f ≡ ok ((0, none), f)
unfolding read_wit
read_wit-plain allow n f = refl

read_body-cons :
    (allow : Bool) (vin : List TxIn) (vout : List TxOut) (f rest : Bytes)
    → vin ≢ []
    → deserialize_vector allow (deserialize_txout allow) f ≡ ok (vout, rest)
    → read_body allow vin f ≡ ok ((0, vin, vout), rest)
unfolding read_body
read_body-cons allow [] vout f rest h r = absurd (h refl)
read_body-cons allow (i ∷ vin) vout f rest h r = rw r

read_body-zero :
    (allow : Bool) (rest : Bytes) → read_body allow [] (0 ∷ rest) ≡ ok ((0, [], []), rest)
unfolding read_body ser_read
read_body-zero allow rest = refl

-- What the three steps of the reader make of the body `b` that was written of `tx`.
record ReadsBody (allow : Bool) (tx : Transaction) (b rest : Bytes) : Type 0 where
  first : List TxIn
  left : Bytes
  flags : ℕ
  behind : Bytes
  wit : Option (List (List Bytes))
  step1 : deserialize_vector allow (deserialize_txin allow) (b ++ rest) ≡ ok (first, left)
  step2 : read_body allow first left ≡ ok ((flags, tx.vin, tx.vout), behind)
  step3 : read_wit allow flags (length tx.vin) behind ≡ ok ((0, wit), rest)
  same : or_empty wit ≡ tx.wit

BodyTrip : Bool → Transaction → Bytes → Type 0
BodyTrip allow tx rest = (b : Bytes) × (serialize_body true tx ≡ ok b) × ReadsBody allow tx b rest

serialize_vector-nil : {A : Type 0} (write : Writer A) → serialize_vector write [] ≡ ok (0 ∷ [])
unfolding serialize_vector serialize_varint serialize_all
serialize_vector-nil write = refl

serialize_body-plain :
    (include : Bool) (tx : Transaction)
    → has_witness tx ≡ false
    → serialize_body include tx ≡ serialize_inputs_outputs tx
unfolding serialize_body
serialize_body-plain true tx h = rw h
serialize_body-plain false tx h = refl

serialize_body-witness :
    (tx : Transaction) (b w : Bytes)
    → has_witness tx ≡ true
    → length tx.wit ≡ length tx.vin
    → serialize_inputs_outputs tx ≡ ok b
    → serialize_all serialize_witness tx.wit ≡ ok w
    → serialize_body true tx ≡ ok (0 ∷ 1 ∷ (b ++ w))
unfolding serialize_body
serialize_body-witness tx b w h len wb ww = rw (h, len, ==_refl (length tx.vin), wb, ww)

has_witness-nil : (tx : Transaction) → tx.wit ≡ [] → has_witness tx ≡ false
unfolding has_witness wit_is_null
has_witness-nil tx e = ap (λ w. not (wit_is_null w)) e

has_witness-not_null : (tx : Transaction) → wit_is_null tx.wit ≡ false → has_witness tx ≡ true
unfolding has_witness
has_witness-not_null tx e = ap not e

inputs_outputs-eq :
    (tx : Transaction) (i o : Bytes)
    → serialize_vector serialize_txin tx.vin ≡ ok i
    → serialize_vector serialize_txout tx.vout ≡ ok o
    → serialize_inputs_outputs tx ≡ ok (i ++ o)
unfolding serialize_inputs_outputs
inputs_outputs-eq tx i o wi wo = rw (wi, wo)

empty_or_not : {A : Type 0} (xs : List A) → (xs ≡ []) ⊎ (xs ≢ [])
empty_or_not [] = inl refl
empty_or_not (x ∷ xs) = inr (λ e. cc)

module _ (allow : Bool) (tx : Transaction) (rest : Bytes) (valid : IsTx allow tx) where
  -- With inputs and no witness.
  inputs_trip : tx.wit ≡ [] → tx.vin ≢ [] → BodyTrip allow tx rest
  unfolding BodyTrip or_empty
  inputs_trip e some_input =
      let (b, w, i, o, cut, wo, wi, ro, ri) = inputs_outputs_at allow tx rest valid in
      (
        b,
        serialize_body-plain true tx (has_witness-nil tx e) ∙ w,
        record {
          first = tx.vin;
          left = o ++ rest;
          flags = 0;
          behind = rest;
          wit = none;
          step1 = rw (cut, append_assoc i o rest) ri;
          step2 = read_body-cons allow tx.vin tx.vout (o ++ rest) rest some_input ro;
          step3 = read_wit-plain allow (length tx.vin) rest;
          same = sym e;
        },
      )

  -- With neither inputs nor outputs.
  empty_trip : tx.wit ≡ [] → tx.vin ≡ [] → tx.vout ≡ [] → BodyTrip allow tx rest
  unfolding BodyTrip or_empty
  empty_trip e no_input no_output = (
    0 ∷ 0 ∷ [],
    serialize_body-plain true tx (has_witness-nil tx e) ∙ written,
    record {
      first = [];
      left = 0 ∷ rest;
      flags = 0;
      behind = rest;
      wit = none;
      step1 = deserialize_vector-zero allow (deserialize_txin allow) (0 ∷ rest);
      step2 =
          read_body-zero allow rest
          ∙ ap₂ (λ (i : List TxIn) (o : List TxOut). ok ((0, i, o), rest)) (sym no_input)
              (sym no_output);
      step3 = read_wit-plain allow (length tx.vin) rest;
      same = sym e;
    },
  )
    where
      written : serialize_inputs_outputs tx ≡ ok (0 ∷ 0 ∷ [])
      written =
          inputs_outputs-eq tx (0 ∷ []) (0 ∷ [])
            (ap (serialize_vector serialize_txin) no_input ∙ serialize_vector-nil serialize_txin)
            (ap (serialize_vector serialize_txout) no_output ∙ serialize_vector-nil serialize_txout)

  -- With a witness.
  witness_trip :
      wit_is_null tx.wit ≡ false
      → length tx.wit ≡ length tx.vin
      → All (IsWitness allow) tx.wit
      → BodyTrip allow tx rest
  unfolding BodyTrip or_empty
  witness_trip not_null len stacks =
      let (w, ww, rw') = serialize_all_at (IsWitness-RoundTrips allow) tx.wit rest stacks in
      let (b, wb, i, o, cut, wo, wi, ro, ri) = inputs_outputs_at allow tx (w ++ rest) valid in
      (
        0 ∷ 1 ∷ (b ++ w),
        serialize_body-witness tx b w (has_witness-not_null tx not_null) len wb ww,
        record {
          first = [];
          left = 1 ∷ (i ++ (o ++ (w ++ rest)));
          flags = 1;
          behind = w ++ rest;
          wit = some tx.wit;
          step1 =
              deserialize_vector-zero allow (deserialize_txin allow) (1 ∷ ((b ++ w) ++ rest))
              ∙ ap (λ t. ok ([], 1 ∷ t))
                  (append_assoc b w rest
                    ∙ ap (λ t. t ++ (w ++ rest)) cut
                    ∙ append_assoc i o (w ++ rest));
          step2 = read_body-flag allow tx.vin tx.vout i o (w ++ rest) ri ro;
          step3 =
              read_wit-flag allow tx.wit (length tx.vin) (w ++ rest) rest (rw len at rw') not_null;
          same = refl;
        },
      )

  body_trip : BodyTrip allow tx rest
  body_trip = elim valid.witness [
    | inr (not_null, len, stacks) ↦ witness_trip not_null len stacks
    | inl e ↦ elim (empty_or_not tx.vin) [
      | inr some_input ↦ inputs_trip e some_input
      | inl no_input ↦ elim valid.marker [
        | inl some_input ↦ absurd (some_input no_input)
        | inr no_output ↦ empty_trip e no_input no_output
      ]
    ]
  ]

-- A transaction that the format can carry is serialized, and deserializing what was written, with
-- anything behind it, returns the transaction and leaves what is behind it.
pub tx_round_trip :
    (allow : Bool) (tx : Transaction) (rest : Bytes)
    → IsTx allow tx
    → (s : Bytes) × (serialize_tx true tx ≡ ok s)
      × (deserialize_tx allow (s ++ rest) ≡ ok (tx, rest))
unfolding serialize_tx deserialize_tx make_transaction pack_signed BodyTrip
tx_round_trip allow tx rest valid =
    let l : Bytes = le_bytes 4 tx.n_lock_time in
    let v : Bytes = le_bytes 4 (to_word 4 tx.n_version) in
    let (b, w, reads) = body_trip allow tx (l ++ rest) valid in
    (
      v ++ (b ++ l),
      rw (valid.version, w, pack4 tx.n_lock_time valid.lock_time),
      rw (
        append_assoc v (b ++ l) rest,
        append_assoc b l rest,
        read_le4 (to_word 4 tx.n_version) (b ++ (l ++ rest)),
        reads.step1,
        reads.step2,
        reads.step3,
        read_le4 tx.n_lock_time rest,
        from_le-le_bytes 4 tx.n_lock_time valid.lock_time,
        le→leb tx.n_lock_time 0xffffffff (omega (arith, valid.lock_time)),
        unpack_signed-pack_signed 3 tx.n_version valid.version,
        reads.same,
      ),
    )
