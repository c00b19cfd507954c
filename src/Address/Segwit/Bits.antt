-- ===== src/Address/Segwit/Bits.antt =====
-- `convertbits` from bytes to groups of five bits and back.
use python_bitcointx.Prelude.{
  ℕ, ◌+◌, ◌*◌, ◌/◌, ◌%◌, ◌<◌, ◌≡◌, refl, ap, ◌∙◌, true, false, not, Option, some, none, List, [],
  ◌∷◌, ◌++◌, arith, Bytes, AreBytes, ◌==◌,
}
use python_bitcointx.Address.Segwit.{emit, finish, append_to, convert_from, convertbits}

below_one : (v m : ℕ) → v / m ≡ 0 → not (v / m == 0) ≡ false
below_one v m e = rw e refl

-- One round on a byte, and one on a group of five bits.
byte_round :
    (acc bits v : ℕ) (vs : List ℕ)
    → v < 256
    → convert_from 8 5 true acc bits (v ∷ vs)
      ≡ append_to (emit (bits + 8) 5 ((acc * 256 + v) % 4096) (bits + 8)).0 (
          convert_from 8 5 true
            ((acc * 256 + v) % 4096)
            (emit (bits + 8) 5 ((acc * 256 + v) % 4096) (bits + 8)).1
            vs)
unfolding convert_from
byte_round acc bits v vs h = rw (below_one v 256 (omega arith)) refl

group_round :
    (acc bits v : ℕ) (vs : List ℕ)
    → v < 32
    → convert_from 5 8 false acc bits (v ∷ vs)
      ≡ append_to (emit (bits + 5) 8 ((acc * 32 + v) % 4096) (bits + 5)).0 (
          convert_from 5 8 false
            ((acc * 32 + v) % 4096)
            (emit (bits + 5) 8 ((acc * 32 + v) % 4096) (bits + 5)).1
            vs)
unfolding convert_from
group_round acc bits v vs h = rw (below_one v 32 (omega arith)) refl

-- The way back, from a state on.
unfoldable back : (acc bits : ℕ) → Option (List ℕ) → Option (List ℕ)
back acc bits none = none
back acc bits (some vs) = convert_from 5 8 false acc bits vs

-- One group in front, on the way back.
back_group :
    (acc bits v : ℕ) (out : List ℕ) (r : Option (List ℕ))
    → v < 32
    → back acc bits (append_to (v ∷ out) r)
      ≡ append_to (emit (bits + 5) 8 ((acc * 32 + v) % 4096) (bits + 5)).0 (
          back
            ((acc * 32 + v) % 4096)
            (emit (bits + 5) 8 ((acc * 32 + v) % 4096) (bits + 5)).1
            (append_to out r))
unfolding back append_to
back_group acc bits v out none h = refl
back_group acc bits v out (some vs) h = group_round acc bits v (out ++ vs) h

append_nil : (r : Option (List ℕ)) → append_to [] r ≡ r
unfolding append_to
append_nil none = refl
append_nil (some r) = refl

-- The end: the last group has the `e` bits left, with zeros behind.
back_last :
    (acc bits v : ℕ)
    → v < 32
    → back acc bits (some (v ∷ []))
      ≡ append_to (emit (bits + 5) 8 ((acc * 32 + v) % 4096) (bits + 5)).0 (
          finish 5 8 false
            ((acc * 32 + v) % 4096)
            (emit (bits + 5) 8 ((acc * 32 + v) % 4096) (bits + 5)).1)
unfolding back convert_from
back_last acc bits v small = group_round acc bits v [] small

-- The state on the way back after one group.
abbrev fed : ℕ → ℕ → ℕ
fed acc v = (acc * 32 + v) % 4096

abbrev grown : ℕ → ℕ → ℕ
grown acc y = (acc * 256 + y) % 4096

unfoldable convert : (acc bits : ℕ) → List ℕ → Option (List ℕ)
convert acc bits xs = convert_from 8 5 true acc bits xs

end1 : (a d : ℕ) → back d 7 (convert a 1 []) ≡ some ((d % 128 * 2 + a % 2) ∷ [])
unfolding convert convert_from finish emit append_to
end1 a d =
    let v : ℕ = a * 16 % 32 in
    let clean : fed d v * 16 % 256 ≡ 0 = omega arith in
    let whole : fed d v / 16 % 256 ≡ d % 128 * 2 + a % 2 = omega arith in
    back_last d 7 v (omega arith) ∙ rw (clean, whole) refl

end2 : (a d : ℕ) → back d 6 (convert a 2 []) ≡ some ((d % 64 * 4 + a % 4) ∷ [])
unfolding convert convert_from finish emit append_to
end2 a d =
    let v : ℕ = a * 8 % 32 in
    let clean : fed d v * 32 % 256 ≡ 0 = omega arith in
    let whole : fed d v / 8 % 256 ≡ d % 64 * 4 + a % 4 = omega arith in
    back_last d 6 v (omega arith) ∙ rw (clean, whole) refl

end3 : (a d : ℕ) → back d 5 (convert a 3 []) ≡ some ((d % 32 * 8 + a % 8) ∷ [])
unfolding convert convert_from finish emit append_to
end3 a d =
    let v : ℕ = a * 4 % 32 in
    let clean : fed d v * 64 % 256 ≡ 0 = omega arith in
    let whole : fed d v / 4 % 256 ≡ d % 32 * 8 + a % 8 = omega arith in
    back_last d 5 v (omega arith) ∙ rw (clean, whole) refl

end4 : (a d : ℕ) → back d 4 (convert a 4 []) ≡ some ((d % 16 * 16 + a % 16) ∷ [])
unfolding convert convert_from finish emit append_to
end4 a d =
    let v : ℕ = a * 2 % 32 in
    let clean : fed d v * 128 % 256 ≡ 0 = omega arith in
    let whole : fed d v / 2 % 256 ≡ d % 16 * 16 + a % 16 = omega arith in
    back_last d 4 v (omega arith) ∙ rw (clean, whole) refl

-- One byte more, by the bits that are pending: the byte pending is written, and what is pending on
-- both sides makes the next one.
step0 :
    (a d y : ℕ) (r : Option (List ℕ))
    → back d 0 (append_to (emit 8 5 (grown a y) 8).0 r) ≡ back (fed d (grown a y / 8 % 32)) 5 r
unfolding emit
step0 a d y r =
    back_group d 0 (grown a y / 8 % 32) [] r (omega arith)
    ∙ append_nil (back (fed d (grown a y / 8 % 32)) 5 (append_to [] r))
    ∙ ap (back (fed d (grown a y / 8 % 32)) 5) (append_nil r)

step1 :
    (a d y : ℕ) (r : Option (List ℕ))
    → back d 7 (append_to (emit 9 5 (grown a y) 9).0 r)
      ≡ append_to
          ((fed d (grown a y / 16 % 32) / 16 % 256) ∷ [])
          (back (fed d (grown a y / 16 % 32)) 4 r)
unfolding emit
step1 a d y r =
    back_group d 7 (grown a y / 16 % 32) [] r (omega arith)
    ∙ ap
        (λ t.
          append_to ((fed d (grown a y / 16 % 32) / 16 % 256) ∷ [])
            (back (fed d (grown a y / 16 % 32)) 4 t))
        (append_nil r)

step2 :
    (a d y : ℕ) (r : Option (List ℕ))
    → back d 6 (append_to (emit 10 5 (grown a y) 10).0 r)
      ≡ append_to (((fed d (grown a y / 32 % 32)) / 8 % 256) ∷ []) (
          append_to
            (((fed (fed d (grown a y / 32 % 32)) (grown a y / 1 % 32)) / 1 % 256) ∷ [])
            (back (fed (fed d (grown a y / 32 % 32)) (grown a y / 1 % 32)) 0 r))
unfolding emit
step2 a d y r =
    back_group d 6 (grown a y / 32 % 32) ((grown a y / 1 % 32) ∷ []) r (omega arith)
    ∙ ap (append_to (((fed d (grown a y / 32 % 32)) / 8 % 256) ∷ [])) (
        back_group (fed d (grown a y / 32 % 32)) 3 (grown a y / 1 % 32) [] r (omega arith)
        ∙ ap
            (λ t.
              append_to (((fed (fed d (grown a y / 32 % 32)) (grown a y / 1 % 32)) / 1 % 256) ∷ [])
                (back (fed (fed d (grown a y / 32 % 32)) (grown a y / 1 % 32)) 0 t))
            (append_nil r))

step3 :
    (a d y : ℕ) (r : Option (List ℕ))
    → back d 5 (append_to (emit 11 5 (grown a y) 11).0 r)
      ≡ append_to
          (((fed d (grown a y / 64 % 32)) / 4 % 256) ∷ [])
          (back (fed (fed d (grown a y / 64 % 32)) (grown a y / 2 % 32)) 7 r)
unfolding emit
step3 a d y r =
    back_group d 5 (grown a y / 64 % 32) ((grown a y / 2 % 32) ∷ []) r (omega arith)
    ∙ ap (append_to (((fed d (grown a y / 64 % 32)) / 4 % 256) ∷ [])) (
        back_group (fed d (grown a y / 64 % 32)) 2 (grown a y / 2 % 32) [] r (omega arith)
        ∙ append_nil
            (back (fed (fed d (grown a y / 64 % 32)) (grown a y / 2 % 32)) 7 (append_to [] r))
        ∙ ap (back (fed (fed d (grown a y / 64 % 32)) (grown a y / 2 % 32)) 7) (append_nil r))

step4 :
    (a d y : ℕ) (r : Option (List ℕ))
    → back d 4 (append_to (emit 12 5 (grown a y) 12).0 r)
      ≡ append_to
          (((fed d (grown a y / 128 % 32)) / 2 % 256) ∷ [])
          (back (fed (fed d (grown a y / 128 % 32)) (grown a y / 4 % 32)) 6 r)
unfolding emit
step4 a d y r =
    back_group d 4 (grown a y / 128 % 32) ((grown a y / 4 % 32) ∷ []) r (omega arith)
    ∙ ap (append_to (((fed d (grown a y / 128 % 32)) / 2 % 256) ∷ [])) (
        back_group (fed d (grown a y / 128 % 32)) 1 (grown a y / 4 % 32) [] r (omega arith)
        ∙ append_nil
            (back (fed (fed d (grown a y / 128 % 32)) (grown a y / 4 % 32)) 6 (append_to [] r))
        ∙ ap (back (fed (fed d (grown a y / 128 % 32)) (grown a y / 4 % 32)) 6) (append_nil r))

last_two : {a b c d : ℕ} (ys : List ℕ) → a ≡ c → b ≡ d → some (a ∷ b ∷ ys) ≡ some (c ∷ d ∷ ys)
last_two ys p q = rw (p, q) refl

mutual
  unfolding convert append_to emit back finish convert_from

  pending0 : (a d : ℕ) (xs : Bytes) → AreBytes xs → back d 0 (convert a 0 xs) ≡ some xs
  pending0 a d [] h = let e : d * 256 % 256 ≡ 0 = omega arith in rw e refl
  pending0 a d (y ∷ ys) h =
      ap (back d 0) (byte_round a 0 y ys h.0)
      ∙ step0 a d y (convert (grown a y) 3 ys)
      ∙ pending3 (grown a y) (fed d (grown a y / 8 % 32)) ys h.1
      ∙ ap (λ t. some (t ∷ ys)) (omega (arith, h.0))

  pending1 :
      (a d : ℕ) (xs : Bytes)
      → AreBytes xs
      → back d 7 (convert a 1 xs) ≡ some ((d % 128 * 2 + a % 2) ∷ xs)
  pending1 a d [] h = end1 a d
  pending1 a d (y ∷ ys) h =
      ap (back d 7) (byte_round a 1 y ys h.0)
      ∙ step1 a d y (convert (grown a y) 4 ys)
      ∙ ap (append_to (((fed d (grown a y / 16 % 32)) / 16 % 256) ∷ []))
          (pending4 (grown a y) (fed d (grown a y / 16 % 32)) ys h.1)
      ∙ last_two ys (omega (arith, h.0)) (omega (arith, h.0))

  pending2 :
      (a d : ℕ) (xs : Bytes)
      → AreBytes xs
      → back d 6 (convert a 2 xs) ≡ some ((d % 64 * 4 + a % 4) ∷ xs)
  pending2 a d [] h = end2 a d
  pending2 a d (y ∷ ys) h =
      ap (back d 6) (byte_round a 2 y ys h.0)
      ∙ step2 a d y (convert (grown a y) 0 ys)
      ∙ ap
          (λ t. append_to (((fed d (grown a y / 32 % 32)) / 8 % 256) ∷ []) (
            append_to (((fed (fed d (grown a y / 32 % 32)) (grown a y / 1 % 32)) / 1 % 256) ∷ [])
              t))
          (pending0 (grown a y) (fed (fed d (grown a y / 32 % 32)) (grown a y / 1 % 32)) ys h.1)
      ∙ last_two ys (omega (arith, h.0)) (omega (arith, h.0))

  pending3 :
      (a d : ℕ) (xs : Bytes)
      → AreBytes xs
      → back d 5 (convert a 3 xs) ≡ some ((d % 32 * 8 + a % 8) ∷ xs)
  pending3 a d [] h = end3 a d
  pending3 a d (y ∷ ys) h =
      ap (back d 5) (byte_round a 3 y ys h.0)
      ∙ step3 a d y (convert (grown a y) 1 ys)
      ∙ ap (append_to (((fed d (grown a y / 64 % 32)) / 4 % 256) ∷ []))
          (pending1 (grown a y) (fed (fed d (grown a y / 64 % 32)) (grown a y / 2 % 32)) ys h.1)
      ∙ last_two ys (omega (arith, h.0)) (omega (arith, h.0))

  pending4 :
      (a d : ℕ) (xs : Bytes)
      → AreBytes xs
      → back d 4 (convert a 4 xs) ≡ some ((d % 16 * 16 + a % 16) ∷ xs)
  pending4 a d [] h = end4 a d
  pending4 a d (y ∷ ys) h =
      ap (back d 4) (byte_round a 4 y ys h.0)
      ∙ step4 a d y (convert (grown a y) 2 ys)
      ∙ ap (append_to (((fed d (grown a y / 128 % 32)) / 2 % 256) ∷ []))
          (pending2 (grown a y) (fed (fed d (grown a y / 128 % 32)) (grown a y / 4 % 32)) ys h.1)
      ∙ last_two ys (omega (arith, h.0)) (omega (arith, h.0))

back-some :
    (r : Option (List ℕ)) (xs : List ℕ)
    → back 0 0 r ≡ some xs
    → (g : List ℕ) × (r ≡ some g) × (convertbits g 5 8 false ≡ some xs)
unfolding back convertbits
back-some none xs h = absurd (ground (arith, h))
back-some (some g) xs h = (g, refl, h)

-- Bytes become groups of five bits, and those become the same bytes: with padding on the way there,
-- and with the test on the way back that the padding is less than a group and zero.
pub convertbits_round_trip :
    (xs : Bytes)
    → AreBytes xs
    → (g : List ℕ) × (convertbits xs 8 5 true ≡ some g) × (convertbits g 5 8 false ≡ some xs)
unfolding convertbits convert
convertbits_round_trip xs h = back-some (convertbits xs 8 5 true) xs (pending0 0 0 xs h)
