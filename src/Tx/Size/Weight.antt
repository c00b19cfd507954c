-- ===== src/Tx/Size/Weight.antt =====
-- The virtual size from counts is the one of the serialization.
use python_bitcointx.Prelude.{
  ℕ, ◌+◌, ◌*◌, ◌/◌, ◌^◌, ◌≤◌, ◌<◌, ◌≡◌, refl, ap, sym, ◌∙◌, inl, inr, Bool-cases, Bool, true, false,
  List, [], ◌∷◌, ◌++◌, arith, length, length-append, Bytes, ltb, ◌==◌,
}
use python_bitcointx.Prelude.Int.{ℤ, pos}
use python_bitcointx.Result.{Result, ok, err, struct_error, ok-injective, >>=-eq-ok, guard_passes}
use python_bitcointx.Struct.{fits_signed, to_word, pack, pack_signed, length-le_bytes}
use python_bitcointx.Serialize.{serialize_varint, serialize_bytes, serialize_all, serialize_vector}
use python_bitcointx.Serialize.VarInt.{compact_size, serialize_varint-eq}
use python_bitcointx.Script.Build.{serialize_witness}
use python_bitcointx.Tx.{
  Transaction, wit_is_null, has_witness, serialize_txin, serialize_txout, serialize_inputs_outputs,
  serialize_body, serialize_tx,
}
use python_bitcointx.Tx.Size.{
  get_size_of_compact_size, counted_witness_size, calculate_transaction_virtual_size,
}

length-pack_signed : (k : ℕ) (v : ℤ) (s : Bytes) → pack_signed k v ≡ ok s → length s ≡ k
unfolding pack_signed
length-pack_signed k v s h = elim (Bool-cases (fits_signed k v)) [
  | inl e ↦ ap length (sym (ok-injective (rw e at h))) ∙ length-le_bytes k (to_word k v)
  | inr e ↦ let f = rw e at h in cc
]

length-pack : (k v : ℕ) (s : Bytes) → pack k v ≡ ok s → length s ≡ k
unfolding pack
length-pack k v s h = elim (Bool-cases (ltb v (256 ^ k))) [
  | inl e ↦ ap length (sym (ok-injective (rw e at h))) ∙ length-le_bytes k v
  | inr e ↦ let f = rw e at h in cc
]

length-compact_size : (n : ℕ) → length (compact_size n) ≡ get_size_of_compact_size n
unfolding compact_size get_size_of_compact_size
length-compact_size n =
    ground (arith, length-le_bytes 2 n, length-le_bytes 4 n, length-le_bytes 8 n)

-- The size of a number that is written is the one that is computed.
pub length-serialize_varint :
    (n : ℕ) (s : Bytes) → serialize_varint (pos n) ≡ ok s → length s ≡ get_size_of_compact_size n
length-serialize_varint n s h = elim (Bool-cases (ltb n (2 ^ 64))) [
  | inl e ↦
      ap length (sym (ok-injective (sym (serialize_varint-eq n ∙ rw e refl) ∙ h)))
      ∙ length-compact_size n
  | inr e ↦
      let f : err struct_error ≡ ok s = sym (serialize_varint-eq n ∙ rw e refl) ∙ h in
      absurd (ground (arith, f))
]

length-serialize_vector :
    {A : Type 0} (write : A → Result Bytes) (xs : List A) (s : Bytes)
    → serialize_vector write xs ≡ ok s
    → (t : Bytes) × (serialize_all write xs ≡ ok t)
      × (length s ≡ get_size_of_compact_size (length xs) + length t)
unfolding serialize_vector
length-serialize_vector write xs s h =
    let (n, e, h1) = >>=-eq-ok (serialize_varint (pos (length xs))) _ h in
    let (t, f, h2) = >>=-eq-ok (serialize_all write xs) _ h1 in
    (
      t,
      f,
      ap length (sym (ok-injective h2))
          ∙ length-append n t
          ∙ ap (λ m. m + length t) (length-serialize_varint (length xs) n e),
    )

-- The witnesses: one byte each if all are empty, and more if not.
null_witness :
    (wit : List (List Bytes))
    → wit_is_null wit ≡ true
    → (w : Bytes) × (serialize_all serialize_witness wit ≡ ok w) × (length w ≡ length wit)
unfolding wit_is_null serialize_all serialize_witness serialize_varint
null_witness [] h = ([], refl, refl)
null_witness ([] ∷ wit) h =
    let (w, e, len) = null_witness wit h in (0 ∷ w, rw e refl, omega (arith, len))
null_witness ((d ∷ ds) ∷ wit) h = absurd (ground (arith, h))

compact_size_positive : (n : ℕ) → 1 ≤ get_size_of_compact_size n
unfolding get_size_of_compact_size
compact_size_positive n = ground arith

length-serialize_bytes : (d s : Bytes) → serialize_bytes d ≡ ok s → 1 ≤ length s
unfolding serialize_bytes
length-serialize_bytes d s h =
    let (n, e, h1) = >>=-eq-ok (serialize_varint (pos (length d))) _ h in
    omega (
      arith,
      ap length (ok-injective h1),
      length-append n d,
      length-serialize_varint (length d) n e,
      compact_size_positive (length d),
    )

length-serialize_items :
    (ds : List Bytes) (t : Bytes)
    → serialize_all serialize_bytes ds ≡ ok t
    → (length ds == 0) ≡ false
    → 1 ≤ length t
unfolding serialize_all
length-serialize_items [] t h ne = absurd (ground (arith, ne))
length-serialize_items (d ∷ ds) t h ne =
    let (a, e, h1) = >>=-eq-ok (serialize_bytes d) _ h in
    let (b, f, h2) = >>=-eq-ok (serialize_all serialize_bytes ds) _ h1 in
    omega (arith, ap length (ok-injective h2), length-append a b, length-serialize_bytes d a e)

length-serialize_witness :
    (stack : List Bytes) (s : Bytes)
    → serialize_witness stack ≡ ok s
    → (1 ≤ length s) × ((length stack == 0) ≡ false → 2 ≤ length s)
length-serialize_witness stack s h =
    let (t, e, len) =
      length-serialize_vector serialize_bytes stack s
        (unfold serialize_witness serialize_vector in h) in
    let one = compact_size_positive (length stack) in
    (omega (arith, len, one), λ ne. omega (arith, len, one, length-serialize_items stack t e ne))

some_witness :
    (wit : List (List Bytes)) (w : Bytes)
    → serialize_all serialize_witness wit ≡ ok w
    → (length wit ≤ length w) × (wit_is_null wit ≡ false → length wit < length w)
unfolding serialize_all wit_is_null
some_witness [] w h = (omega arith, λ z. cc)
some_witness (stack ∷ wit) w h =
    let (a, e, h1) = >>=-eq-ok (serialize_witness stack) _ h in
    let (b, f, h2) = >>=-eq-ok (serialize_all serialize_witness wit) _ h1 in
    let len : length w ≡ length a + length b =
      ap length (sym (ok-injective h2)) ∙ length-append a b in
    let (one, two) = length-serialize_witness stack a e in
    let (least, more) = some_witness wit b f in
    (
      omega (arith, len, one, least),
      λ z. elim (Bool-cases (length stack == 0)) [
        | inl t ↦ omega (arith, len, one, more (rw t at z))
        | inr t ↦ omega (arith, len, two t, least)
      ],
    )

length-serialize_inputs_outputs :
    (tx : Transaction) (b : Bytes)
    → serialize_inputs_outputs tx ≡ ok b
    → (ins outs : Bytes) × (serialize_all serialize_txin tx.vin ≡ ok ins)
      × (serialize_all serialize_txout tx.vout ≡ ok outs)
      × (length b
          ≡ get_size_of_compact_size (length tx.vin)
            + length ins
            + (get_size_of_compact_size (length tx.vout) + length outs))
unfolding serialize_inputs_outputs
length-serialize_inputs_outputs tx b h =
    let (i, e, h1) = >>=-eq-ok (serialize_vector serialize_txin tx.vin) _ h in
    let (o, f, h2) = >>=-eq-ok (serialize_vector serialize_txout tx.vout) _ h1 in
    let (ins, e', len) = length-serialize_vector serialize_txin tx.vin i e in
    let (outs, f', len') = length-serialize_vector serialize_txout tx.vout o f in
    (ins, outs, e', f', omega (arith, ap length (ok-injective h2), length-append i o, len, len'))

-- A serialization, by its body.
length-serialize_tx :
    (include : Bool) (tx : Transaction) (s : Bytes)
    → serialize_tx include tx ≡ ok s
    → (b : Bytes) × (serialize_body include tx ≡ ok b) × (length s ≡ 8 + length b)
unfolding serialize_tx
length-serialize_tx include tx s h =
    let (v, e, h1) = >>=-eq-ok (pack_signed 4 tx.n_version) _ h in
    let (b, f, h2) = >>=-eq-ok (serialize_body include tx) _ h1 in
    let (l, g, h3) = >>=-eq-ok (pack 4 tx.n_lock_time) _ h2 in
    (
      b,
      f,
      omega (
        arith,
        ap length (ok-injective h3),
        length-append v (b ++ l),
        length-append b l,
        length-pack_signed 4 tx.n_version v e,
        length-pack 4 tx.n_lock_time l g,
      ),
    )

virtual_size_at :
    (k i m o w base total extra : ℕ)
    → counted_witness_size k w ≡ ok extra
    → base ≡ 8 + (get_size_of_compact_size k + i + (get_size_of_compact_size m + o))
    → total ≡ base + extra
    → calculate_transaction_virtual_size k i m o w ≡ ok ((base * 3 + total + 3) / 4)
unfolding calculate_transaction_virtual_size
virtual_size_at k i m o w base total extra c b t =
    rw c (ap ok (ap (λ n. n / 4) (omega (arith, b, t))))

-- The virtual size that is computed from the counts and the sizes of the parts of a transaction is
-- that of its serialization: three times the size without the witness and once the whole size,
-- divided by four and rounded up. The transaction has a witness for each input, empty or not, and
-- both its serializations exist.
pub virtual_size-serialize_tx :
    (tx : Transaction) (full stripped : Bytes)
    → length tx.wit ≡ length tx.vin
    → serialize_tx true tx ≡ ok full
    → serialize_tx false tx ≡ ok stripped
    → (ins outs w : Bytes) × (serialize_all serialize_txin tx.vin ≡ ok ins)
      × (serialize_all serialize_txout tx.vout ≡ ok outs)
      × (serialize_all serialize_witness tx.wit ≡ ok w)
      × (calculate_transaction_virtual_size
            (length tx.vin)
            (length ins)
            (length tx.vout)
            (length outs)
            (length w)
          ≡ ok ((length stripped * 3 + length full + 3) / 4))
unfolding serialize_body has_witness
virtual_size-serialize_tx tx full stripped same h h' =
    let (b, e, len) = length-serialize_tx true tx full h in
    let (b', e', len') = length-serialize_tx false tx stripped h' in
    let (ins, outs, ei, eo, parts) = length-serialize_inputs_outputs tx b' e' in
    elim (Bool-cases (wit_is_null tx.wit)) [
      | inl t ↦
          let (w, ew, lw) = null_witness tx.wit t in
          let b-eq : b ≡ b' = ok-injective (sym (rw t at e) ∙ e') in
          (
            ins,
            outs,
            w,
            ei,
            eo,
            ew,
            virtual_size_at _ _ _ _ _ (length stripped) (length full) 0
                (unfold counted_witness_size in ground (arith, lw, same))
                (omega (arith, len', parts)) (omega (arith, len, len', ap length b-eq)),
          )
      | inr t ↦
          let e1 = rw t at e in
          let (g, e2) = guard_passes (length tx.wit == length tx.vin) _ _ e1 in
          let (io, f, e3) = >>=-eq-ok (serialize_inputs_outputs tx) _ e2 in
          let (w, ew, e4) = >>=-eq-ok (serialize_all serialize_witness tx.wit) _ e3 in
          let io-eq : io ≡ b' = ok-injective (sym f ∙ e') in
          let lb : length b ≡ 2 + (length io + length w) =
            omega (arith, ap length (ok-injective e4), length-append io w) in
          let more = (some_witness tx.wit w ew).1 t in
          (
            ins,
            outs,
            w,
            ei,
            eo,
            ew,
            virtual_size_at _ _ _ _ _ (length stripped) (length full) (length w + 2)
                (unfold counted_witness_size in ground (arith, more, same))
                (omega (arith, len', parts)) (omega (arith, len, len', lb, ap length io-eq)),
          )
    ]
