-- ===== src/Address/Base58/RoundTrip.antt =====
-- Base58 strings are decoded to the bytes that they encode.
use python_bitcointx.Prelude.{
  length-replicate, ◌⊎◌, ℕ, zero, suc, ◌≤◌, ◌<◌, ◌≢◌, ◌≡◌, refl, ap, sym, ◌∙◌, inl, inr, Bool-cases,
  some, List, [], ◌∷◌, ◌++◌, map, append-nil, arith, length, Bytes, AreBytes, replicate, ◌==◌,
  ne→==_false,
}
use mathlib.Core.Path.{subst}
use python_bitcointx.Result.{ok}
use python_bitcointx.Address.{Text, backwards}
use python_bitcointx.Address.Digits.{
  divmods, from_digits, value, IsReduced, backwards-backwards, base_58, base_256, AreDigits,
  from_digits-backwards, divmods-value, value-divmods, divmods-AreDigits, divmods-IsReduced,
  backwards-AreDigits, reversed_head, value-zero, reversed_not_nil, backwards-IsReduced,
}
use python_bitcointx.Address.Base58.{
  b58_digits, max_base58_string_length, digit_char, index_of, count_leading, encode, read_digits,
  to_bytes, decode,
}
use python_bitcointx.Address.Base58.Parts.{
  index_of-digit_char, read_digits_step, read_digits-map, map-backwards, replicate-stripped,
  from_digits-zeros, count_leading-drop_last, count_leading-replicate, replicate_snoc, decode-eq,
  stripped,
}

-- Bytes that start with a byte that is not zero are those of their number.
module _ (x : ℕ) (xs : Bytes) (positive : x ≢ 0) (bytes : AreBytes (x ∷ xs)) where
  abbrev low_first : List ℕ
  low_first = backwards (x ∷ xs) []

  number-eq : from_digits 256 0 (x ∷ xs) ≡ value 256 low_first
  unfolding from_digits backwards
  number-eq =
      sym (ap (from_digits 256 0) (backwards-backwards (x ∷ xs) [] [] ∙ append-nil (x ∷ xs)))
      ∙ from_digits-backwards 256 base_256 low_first []

  low_first-IsReduced : IsReduced low_first
  unfolding backwards
  low_first-IsReduced = backwards-IsReduced xs x [] positive

  low_first-AreDigits : AreDigits 256 base_256 low_first
  low_first-AreDigits = backwards-AreDigits 256 base_256 (x ∷ xs) [] bytes tt

  number_positive : from_digits 256 0 (x ∷ xs) ≢ 0
  number_positive z =
      reversed_not_nil x xs []
        (value-zero 256 base_256 low_first low_first-IsReduced (sym number-eq ∙ z))

  to_bytes-number : to_bytes (from_digits 256 0 (x ∷ xs)) ≡ (x ∷ xs)
  unfolding to_bytes backwards
  to_bytes-number =
      let n : ℕ = from_digits 256 0 (x ∷ xs) in
      let again : divmods 256 n n ≡ low_first =
        ap (divmods 256 n) number-eq
        ∙ divmods-value 256 base_256 low_first n low_first-AreDigits low_first-IsReduced
            (omega (arith, number-eq)) in
      rw (ne→==_false n 0 number_positive, again)
        (backwards-backwards (x ∷ xs) [] [] ∙ append-nil (x ∷ xs))

digit_char-ne : (c : ℕ) → c < 58 → c ≢ 0 → digit_char c ≢ digit_char 0
digit_char-ne c h ne e =
    let same : some c ≡ some 0 =
      sym (index_of-digit_char c h)
      ∙ ap (index_of b58_digits) e
      ∙ index_of-digit_char 0 (omega arith) in
    ne (cc)

written_digits :
    (ds : List ℕ) (n : ℕ)
    → n ≢ 0
    → AreDigits 58 base_58 ds
    → IsReduced ds
    → value 58 ds ≡ n
    → (c : ℕ) × (cs : Text) × (backwards (map digit_char ds) [] ≡ (c ∷ cs))
      × (c ≢ digit_char 0)
      × (read_digits 0 (c ∷ cs) ≡ ok n)
unfolding value from_digits
written_digits [] n ne h r e = absurd (ne (sym e))
written_digits (d ∷ ds) n ne h r e =
    let (c, cs, head, nz) = reversed_head d ds [] r in
    let digits : AreDigits 58 base_58 (c ∷ cs) =
      subst (AreDigits 58 base_58) head (backwards-AreDigits 58 base_58 (d ∷ ds) [] h tt) in
    let number : from_digits 58 0 (c ∷ cs) ≡ n =
      sym (ap (from_digits 58 0) head) ∙ from_digits-backwards 58 base_58 (d ∷ ds) [] ∙ e in
    (
      digit_char c,
      map digit_char cs,
      map-backwards digit_char (d ∷ ds) [] ∙ ap (map digit_char) head,
      digit_char-ne c digits.0 nz,
      read_digits-map 0 (c ∷ cs) digits ∙ ap ok number,
    )

-- What `encode` writes of a positive number: digits of which the first is not zero.
written :
    (n : ℕ)
    → n ≢ 0
    → (c : ℕ) × (cs : Text) × (backwards (map digit_char (divmods 58 n n)) [] ≡ (c ∷ cs))
      × (c ≢ digit_char 0)
      × (read_digits 0 (c ∷ cs) ≡ ok n)
written n ne =
    written_digits (divmods 58 n n) n ne (divmods-AreDigits 58 base_58 n n)
      (divmods-IsReduced 58 base_58 n n (omega arith)) (value-divmods 58 base_58 n n (omega arith))

decode_zeros :
    (p : ℕ)
    → p ≤ max_base58_string_length
    → decode (replicate p (digit_char 0)) ≡ ok (replicate p 0)
unfolding to_bytes
decode_zeros zero h = unfold decode in refl
decode_zeros (suc p) h =
    let z : ℕ = digit_char 0 in
    let snoc : replicate (suc p) z ≡ replicate p z ++ (z ∷ []) = replicate_snoc p z in
    let short : length (replicate p z ++ (z ∷ [])) ≤ max_base58_string_length =
      omega (arith, ap length snoc, length-replicate (suc p) z) in
    ap decode snoc
    ∙ decode-eq p z [] 0 short (
        read_digits_step 0 z 0 [] (index_of-digit_char 0 (omega arith))
        ∙ (unfold read_digits in refl))
    ∙ ap (λ k. ok (replicate k 0 ++ (0 ∷ []))) (count_leading-replicate p z z)
    ∙ ap ok (sym (replicate_snoc p 0))

stripped-cases :
    (b : Bytes)
    → AreBytes b
    → (stripped b ≡ [])
      ⊎ ((x : ℕ) × (xs : Bytes) × (stripped b ≡ (x ∷ xs)) × (x ≢ 0) × AreBytes (x ∷ xs))
unfolding stripped
stripped-cases [] h = inl refl
stripped-cases (x ∷ xs) h = elim (Bool-cases (x == 0)) [
  | inl e ↦ rw e (stripped-cases xs h.1)
  | inr e ↦ rw e (inr (x, xs, refl, (λ z. ground (arith, e, z)), h))
]

decode-encode_at :
    (p x : ℕ) (xs b : Bytes)
    → count_leading 0 b ≡ p
    → b ≡ replicate p 0 ++ (x ∷ xs)
    → x ≢ 0
    → AreBytes (x ∷ xs)
    → length (encode b) ≤ max_base58_string_length
    → decode (encode b) ≡ ok b
unfolding encode
decode-encode_at p x xs b lead e nz bytes short =
    let n : ℕ = from_digits 256 0 (x ∷ xs) in
    let same : from_digits 256 0 b ≡ n =
      ap (from_digits 256 0) e ∙ from_digits-zeros 256 p (x ∷ xs) in
    let (c, cs, w, ne, r) = written n (number_positive x xs nz bytes) in
    let text : encode b ≡ replicate p (digit_char 0) ++ (c ∷ cs) =
      ap
        (λ m.
          replicate (count_leading 0 b) (digit_char 0)
          ++ backwards (map digit_char (divmods 58 m m)) [])
        same
      ∙ ap (λ k. replicate k (digit_char 0) ++ backwards (map digit_char (divmods 58 n n)) []) lead
      ∙ ap (λ t. replicate p (digit_char 0) ++ t) w in
    ap decode text
    ∙ decode-eq p c cs n (omega (arith, short, ap length text)) r
    ∙ ap (λ k. ok (replicate k 0 ++ to_bytes n)) (count_leading-drop_last p (digit_char 0) c cs ne)
    ∙ ap (λ t. ok (replicate p 0 ++ t)) (to_bytes-number x xs nz bytes)
    ∙ ap ok (sym e)

decode-encode_zeros :
    (p : ℕ) (b : Bytes)
    → count_leading 0 b ≡ p
    → b ≡ replicate p 0 ++ []
    → length (encode b) ≤ max_base58_string_length
    → decode (encode b) ≡ ok b
unfolding encode backwards divmods
decode-encode_zeros p b lead e short =
    let zero_number : from_digits 256 0 b ≡ 0 =
      ap (from_digits 256 0) e ∙ from_digits-zeros 256 p [] ∙ (unfold from_digits in refl) in
    let text : encode b ≡ replicate p (digit_char 0) =
      ap
        (λ m.
          replicate (count_leading 0 b) (digit_char 0)
          ++ backwards (map digit_char (divmods 58 m m)) [])
        zero_number
      ∙ ap (λ k. replicate k (digit_char 0) ++ []) lead
      ∙ append-nil (replicate p (digit_char 0)) in
    let fits : p ≤ max_base58_string_length =
      omega (arith, short, ap length text, length-replicate p (digit_char 0)) in
    ap decode text ∙ decode_zeros p fits ∙ ap ok (sym (e ∙ append-nil (replicate p 0)))

-- What `encode` writes is decoded to the same bytes, leading zeros and the empty string included,
-- where the text has at most 128 characters, the most that `decode` takes.
pub decode-encode :
    (b : Bytes)
    → AreBytes b
    → length (encode b) ≤ max_base58_string_length
    → decode (encode b) ≡ ok b
decode-encode b h short =
    let split : b ≡ replicate (count_leading 0 b) 0 ++ stripped b = sym (replicate-stripped b) in
    elim (stripped-cases b h) [
      | inl e ↦
          decode-encode_zeros (count_leading 0 b) b refl
            (split ∙ ap (λ t. replicate (count_leading 0 b) 0 ++ t) e) short
      | inr (x, xs, e, nz, bytes) ↦
          decode-encode_at (count_leading 0 b) x xs b refl
            (split ∙ ap (λ t. replicate (count_leading 0 b) 0 ++ t) e) nz bytes short
    ]
