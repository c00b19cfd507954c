-- ===== src/DerLax/Strict.antt =====
-- A signature in strict DER is read by the lax parser as the interpreter's test of it reads it.
use python_bitcointx.Prelude.{
  ℕ, zero, suc, ◌+◌, ◌-◌, ◌≤◌, ◌<◌, ◌≡◌, refl, ap, sym, ◌∙◌, true, false, [], ◌∷◌, arith, length,
  length-take, take, get_or, Bytes, ◌==◌, le→ltb_false, ==_refl,
}
use python_bitcointx.Prelude.Bits.{top_bit}
use python_bitcointx.Eval.Signature.{is_valid_signature_encoding, is_valid_parts}
use python_bitcointx.DerLax.{
  goes_on, at, read_tag, read_lenbyte, is_long, skip_sequence_length, read_length, read_parts,
}

at-get_or : (bs : Bytes) (pos : ℕ) → pos < length bs → at bs pos ≡ goes_on (get_or bs pos 0)
unfolding at
at-get_or [] pos h = absurd (omega arith)
at-get_or (b ∷ bs) zero h = refl
at-get_or (b ∷ bs) (suc pos) h = at-get_or bs pos (omega arith)

get_or-take : (bs : Bytes) (n pos : ℕ) → pos < n → get_or (take n bs) pos 0 ≡ get_or bs pos 0
get_or-take bs zero pos h = absurd (omega arith)
get_or-take [] (suc n) pos h = refl
get_or-take (b ∷ bs) (suc n) zero h = refl
get_or-take (b ∷ bs) (suc n) (suc pos) h = get_or-take bs n pos (omega arith)

short_length : (b : ℕ) → b < 128 → is_long b ≡ false
unfolding is_long
short_length b h = rw (top_bit b (omega arith)) (ground (arith, h))

below : (a b : ℕ) → a < b → (a == b) ≡ false
below a b h = ground (arith, h)

module _ (input : Bytes) where
  read_tag-here :
      (tag pos : ℕ)
      → pos < length input
      → get_or input pos 0 ≡ tag
      → read_tag input tag pos ≡ goes_on (pos + 1)
  unfolding read_tag
  read_tag-here tag pos h e =
      rw (below pos (length input) h, at-get_or input pos h, e, ==_refl tag) refl

  skip-here :
      (pos : ℕ)
      → pos < length input
      → get_or input pos 0 < 128
      → skip_sequence_length input pos ≡ goes_on (pos + 1)
  unfolding skip_sequence_length read_lenbyte
  skip-here pos h e =
      rw (below pos (length input) h, at-get_or input pos h, short_length (get_or input pos 0) e)
        refl

  read_length-here :
      (pos : ℕ)
      → pos < length input
      → get_or input pos 0 < 128
      → pos + 1 + get_or input pos 0 ≤ length input
      → read_length input pos ≡ goes_on (get_or input pos 0, pos + 1)
  unfolding read_length read_lenbyte
  read_length-here pos h e f =
      rw
        (
          below pos (length input) h,
          at-get_or input pos h,
          short_length (get_or input pos 0) e,
          le→ltb_false (length input) (pos + 1 + get_or input pos 0) f,
        )
        refl

  -- A layout that the parser goes through without a detour.
  read_parts-here :
      (r s : ℕ)
      → get_or input 0 0 ≡ 0x30
      → get_or input 1 0 < 128
      → get_or input 2 0 ≡ 0x02
      → get_or input 3 0 ≡ r
      → get_or input (4 + r) 0 ≡ 0x02
      → get_or input (4 + r + 1) 0 ≡ s
      → r + s + 6 ≡ length input
      → r + s + 6 < 128
      → read_parts input ≡ goes_on (record { rpos = 4; rlen = r; spos = 4 + r + 1 + 1; slen = s })
  unfolding read_parts
  read_parts-here r s a b c d e f len small =
      let rs =
        read_length-here 3 (omega (arith, len)) (omega (arith, d, small)) (omega (arith, d, len)) in
      let ss =
        read_length-here (4 + r + 1) (omega (arith, len)) (omega (arith, f, small))
          (omega (arith, f, len)) in
      rw
        (
          read_tag-here 0x30 0 (omega (arith, len)) a,
          skip-here 1 (omega (arith, len)) b,
          read_tag-here 0x02 2 (omega (arith, len)) c,
          rs,
          d,
          read_tag-here 0x02 (4 + r) (omega (arith, len)) e,
          ss,
          f,
        )
        refl

-- What the interpreter's test of a strict encoding says of its bytes.
strict_bytes :
    (sig : Bytes)
    → is_valid_signature_encoding sig ≡ true
    → (get_or sig 0 0 ≡ 0x30)
      × (get_or sig 1 0 ≡ length sig - 3)
      × (get_or sig 2 0 ≡ 0x02)
      × (get_or sig (4 + get_or sig 3 0) 0 ≡ 0x02)
      × (get_or sig 3 0 + get_or sig (5 + get_or sig 3 0) 0 + 7 ≡ length sig)
      × (9 ≤ length sig)
      × (length sig ≤ 73)
unfolding is_valid_signature_encoding is_valid_parts
strict_bytes sig h =
    let r : ℕ = get_or sig 3 0 in
    let swap : r + 4 ≡ 4 + r = omega arith in
    (
      ground (arith, h),
      ground (arith, h),
      ground (arith, h),
      sym (ap (λ n. get_or sig n 0) swap) ∙ ground (arith, h),
      ground (arith, h),
      ground (arith, h),
      ground (arith, h),
    )

-- A signature that passes the interpreter's test of strict DER is read by the lax parser, without
-- its last byte, the hash type, at the places that the test looks at: R from 4 on with the length
-- in byte 3, and S behind its own length.
pub strict_read_parts :
    (sig : Bytes)
    → is_valid_signature_encoding sig ≡ true
    → read_parts (take (length sig - 1) sig)
      ≡ goes_on (record {
        rpos = 4;
        rlen = get_or sig 3 0;
        spos = 4 + get_or sig 3 0 + 1 + 1;
        slen = get_or sig (5 + get_or sig 3 0) 0;
      })
strict_read_parts sig h =
    let (a, b, c, d, e, low, high) = strict_bytes sig h in
    let r : ℕ = get_or sig 3 0 in
    let s : ℕ = get_or sig (5 + r) 0 in
    let n : ℕ = length sig - 1 in
    let len : length (take n sig) ≡ r + s + 6 = omega (arith, length-take n sig, e) in
    let five : 4 + r + 1 ≡ 5 + r = omega arith in
    read_parts-here (take n sig) r s (get_or-take sig n 0 (omega arith) ∙ a)
      (omega (arith, get_or-take sig n 1 (omega arith), b)) (get_or-take sig n 2 (omega arith) ∙ c)
      (get_or-take sig n 3 (omega arith)) (get_or-take sig n (4 + r) (omega (arith, e)) ∙ d)
      (get_or-take sig n (4 + r + 1) (omega (arith, e)) ∙ ap (λ m. get_or sig m 0) five) (sym len)
      (omega (arith, e))
