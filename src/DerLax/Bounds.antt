-- ===== src/DerLax/Bounds.antt =====
-- The lax parser reads within its input.
use python_bitcointx.Prelude.{
  ℕ, zero, suc, ◌+◌, ◌-◌, ◌*◌, ◌≤◌, ◌<◌, ◌≢◌, ◌≡◌, refl, inl, inr, Bool-cases, Bool, true, false,
  not, ◌&&◌, ◌||◌, [], ◌∷◌, ◌++◌, arith, length, length-append, length-replicate, length-take,
  length-drop, take, drop, replicate, Bytes, ltb, leb, ◌==◌, if◌then◌else◌, ltb_false→le,
}
use python_bitcointx.Result.{Error}
use python_bitcointx.DerLax.{
  Step, raises, returns_none, goes_on, ◌>>=◌, at, read_tag, read_lenbyte, is_long,
  skip_sequence_length, skip_zeros, read_big_endian, read_long_length, read_length, Parts,
  read_parts, copy_value, parse_der_lax,
}

-- A step that does not raise, and goes on with a value that satisfies `P`.
abbrev Ensures : {A : Type 0} → Step A → (A → Type 0) → Type 0
Ensures (raises e) P = ⊥
Ensures returns_none P = Unit {0}
Ensures (goes_on a) P = P a

Ensures-bind :
    {A B : Type 0} (P : A → Type 0) (Q : B → Type 0) (m : Step A) (next : A → Step B)
    → Ensures m P
    → ((a : A) → P a → Ensures (next a) Q)
    → Ensures (m >>= next) Q
Ensures-bind P Q (raises e) next h g = h
Ensures-bind P Q returns_none next h g = tt
Ensures-bind P Q (goes_on a) next h g = g a h

Ensures-if :
    {A : Type 0} (Q : A → Type 0) (t : Bool) (m n : Step A)
    → (t ≡ true → Ensures m Q)
    → (t ≡ false → Ensures n Q)
    → Ensures (if t then m else n) Q
Ensures-if Q true m n h g = h refl
Ensures-if Q false m n h g = g refl

module _ (input : Bytes) where
  abbrev Within : ℕ → Type 0
  Within p = p ≤ length input

  abbrev Behind : ℕ × ℕ → Type 0
  Behind r = Within r.1

  abbrev Span : ℕ × ℕ → Type 0
  Span r = r.1 + r.0 ≤ length input

  at_ends : (bs : Bytes) (pos : ℕ) → pos < length bs → Ensures (at bs pos) (λ b. Unit {0})
  unfolding at
  at_ends [] pos h = absurd (omega arith)
  at_ends (b ∷ bs) zero h = tt
  at_ends (b ∷ bs) (suc pos) h = at_ends bs pos (omega arith)

  before_end : (pos : ℕ) → Within pos → (pos == length input) ≡ false → pos < length input
  before_end pos h e = ground (arith, h, e)

  read_tag_ends : (tag pos : ℕ) → Within pos → Ensures (read_tag input tag pos) Within
  unfolding read_tag
  read_tag_ends tag pos h =
      Ensures-if Within (pos == length input) _ _ (λ e. tt)
        (λ e.
          Ensures-bind (λ b. Unit {0}) Within (at input pos) _
            (at_ends input pos (before_end pos h e))
            (λ b u.
              Ensures-if Within (b == tag) _ _ (λ t. omega (arith, before_end pos h e)) (λ t. tt)))

  read_lenbyte_ends : (pos : ℕ) → Within pos → Ensures (read_lenbyte input pos) Behind
  unfolding read_lenbyte
  read_lenbyte_ends pos h =
      Ensures-if Behind (pos == length input) _ _ (λ e. tt)
        (λ e.
          Ensures-bind (λ b. Unit {0}) Behind (at input pos) _
            (at_ends input pos (before_end pos h e)) (λ b u. omega (arith, before_end pos h e)))

  skip_sequence_length_ends :
      (pos : ℕ) → Within pos → Ensures (skip_sequence_length input pos) Within
  unfolding skip_sequence_length
  skip_sequence_length_ends pos h =
      Ensures-bind Behind Within (read_lenbyte input pos) _ (read_lenbyte_ends pos h) (λ (l, p) w.
        Ensures-if Within (is_long l) _ _
          (λ e.
            Ensures-if Within (ltb (length input) (p + (l - 0x80))) _ _ (λ t. tt)
              (λ t. ltb_false→le _ _ t))
          (λ e. w))

  skip_zeros_ends : (n pos : ℕ) → pos + n ≤ length input → Ensures (skip_zeros input n pos) Span
  unfolding skip_zeros
  skip_zeros_ends zero pos h = h
  skip_zeros_ends (suc n) pos h =
      Ensures-bind (λ b. Unit {0}) Span (at input pos) _ (at_ends input pos (omega arith))
        (λ b u.
          Ensures-if Span (b == 0) _ _ (λ t. skip_zeros_ends n (pos + 1) (omega arith)) (λ t. h))

  read_big_endian_ends :
      (n pos acc : ℕ) → pos + n ≤ length input → Ensures (read_big_endian input n pos acc) Behind
  unfolding read_big_endian
  read_big_endian_ends zero pos acc h = omega arith
  read_big_endian_ends (suc n) pos acc h =
      Ensures-bind (λ b. Unit {0}) Behind (at input pos) _ (at_ends input pos (omega arith))
        (λ b u. read_big_endian_ends n (pos + 1) (acc * 256 + b) (omega arith))

  read_long_length_ends : (l pos : ℕ) → Ensures (read_long_length input l pos) Behind
  unfolding read_long_length
  read_long_length_ends l pos =
      Ensures-if Behind (ltb (length input) (pos + l)) _ _ (λ t. tt)
        (λ t.
          Ensures-bind Span Behind (skip_zeros input l pos) _
            (skip_zeros_ends l pos (ltb_false→le _ _ t))
            (λ (n, p) w.
              Ensures-if Behind (leb 4 n) _ _ (λ e. tt) (λ e. read_big_endian_ends n p 0 w)))

  read_length_ends : (pos : ℕ) → Within pos → Ensures (read_length input pos) Span
  unfolding read_length
  read_length_ends pos h =
      Ensures-bind Behind Span (read_lenbyte input pos) _ (read_lenbyte_ends pos h) (λ (l, p) w.
        Ensures-bind Behind Span
          (if is_long l then read_long_length input (l - 0x80) p else goes_on (l, p)) _
          (Ensures-if Behind (is_long l) _ _ (λ e. read_long_length_ends (l - 0x80) p) (λ e. w))
          (λ (n, q) v.
            Ensures-if Span (ltb (length input) (q + n)) _ _ (λ t. tt) (λ t. ltb_false→le _ _ t)))

  abbrev Inside : Parts → Type 0
  Inside parts = (parts.rpos + parts.rlen ≤ length input) × (parts.spos + parts.slen ≤ length input)

  read_parts_ends : Ensures (read_parts input) Inside
  unfolding read_parts
  read_parts_ends =
      Ensures-bind Within Inside (read_tag input 0x30 0) _ (read_tag_ends 0x30 0 (omega arith))
        (λ p1 w1.
          Ensures-bind Within Inside (skip_sequence_length input p1) _
            (skip_sequence_length_ends p1 w1)
            (λ p2 w2.
              Ensures-bind Within Inside (read_tag input 0x02 p2) _ (read_tag_ends 0x02 p2 w2)
                (λ p3 w3.
                  Ensures-bind Span Inside (read_length input p3) _ (read_length_ends p3 w3)
                    (λ (rlen, rpos) r.
                      Ensures-bind Within Inside (read_tag input 0x02 (rpos + rlen)) _
                        (read_tag_ends 0x02 (rpos + rlen) r)
                        (λ p4 w4.
                          Ensures-bind Span Inside (read_length input p4) _ (read_length_ends p4 w4)
                            (λ (slen, spos) s. (r, s)))))))

  abbrev IsHalf : Bool × Bytes → Type 0
  IsHalf v = length v.1 ≡ 32

  copy_value_ends :
      (len pos : ℕ) → pos + len ≤ length input → Ensures (copy_value input len pos) IsHalf
  unfolding copy_value
  copy_value_ends len pos h =
      Ensures-bind Span IsHalf (skip_zeros input len pos) _ (skip_zeros_ends len pos h)
        (λ (n, p) w. copied n p w)
    where
      copied :
          (n p : ℕ)
          → p + n ≤ length input
          → IsHalf (
              if ltb 32 n
              then (true, replicate 32 0)
              else (false, replicate (32 - n) 0 ++ take n (drop p input)))
      copied n p w = elim (Bool-cases (ltb 32 n)) [
        | inl e ↦ rw e refl
        | inr e ↦ rw e (
            omega (
              arith,
              ltb_false→le _ _ e,
              length-append (replicate (32 - n) 0) (take n (drop p input)),
              length-replicate {A = ℕ} (32 - n) 0,
              length-take n (drop p input),
              length-drop p input,
              w,
            ))
      ]

parse_der_lax_ends :
    (parse_compact : Bytes → Bytes × Bool) (input : Bytes)
    → Ensures (parse_der_lax parse_compact input) (λ sig. Unit {0})
unfolding parse_der_lax
parse_der_lax_ends parse_compact input =
    let Any : Bytes → Type 0 = λ sig. Unit {0} in
    Ensures-bind (Inside input) Any (read_parts input) _ (read_parts_ends input) (λ parts w.
      Ensures-bind (IsHalf input) Any (copy_value input parts.rlen parts.rpos) _
        (copy_value_ends input parts.rlen parts.rpos w.0)
        (λ (o, r) lr.
          Ensures-bind (IsHalf input) Any (copy_value input parts.slen parts.spos) _
            (copy_value_ends input parts.slen parts.spos w.1)
            (λ (q, s) ls.
              Ensures-if Any (not (o || q) && (parse_compact (r ++ s)).1) _ _ (λ t. tt) (λ t. tt))))

not_raised : {A : Type 0} (m : Step A) (e : Error) → Ensures m (λ a. Unit {0}) → m ≢ raises e
not_raised (raises f) e h z = h
not_raised returns_none e h z = absurd (ground (arith, z))
not_raised (goes_on a) e h z = absurd (ground (arith, z))

-- The parser raises for no input whatever: no index that it reads is behind the end of the input.
pub parse_der_lax_never_raises :
    (parse_compact : Bytes → Bytes × Bool) (input : Bytes) (e : Error)
    → parse_der_lax parse_compact input ≢ raises e
parse_der_lax_never_raises parse_compact input e =
    not_raised (parse_der_lax parse_compact input) e (parse_der_lax_ends parse_compact input)
