-- ===== src/Address/Segwit/Checksum.antt =====
-- The checksum of Bech32 and Bech32m: what is created is accepted.
use Prim.Native.Nat.{bit_xor}
use python_bitcointx.Prelude.{
  ℕ, ◌+◌, ◌*◌, ◌/◌, ◌%◌, ◌^◌, ◌<◌, ◌≡◌, refl, sym, ap, ◌∙◌, some, List, [], ◌∷◌, ◌++◌, arith,
  length, All, replicate, ◌==◌, if◌then◌else◌, append_assoc,
}
use python_bitcointx.Prelude.Xor.{
  xor_zero, xor_zero_right, xor_assoc, xor_swap, xor_cancel, xor_shift, xor_fields, xor_lt,
}
use python_bitcointx.Address.{Text}
use python_bitcointx.Address.Digits.{from_digits}
use python_bitcointx.Address.Segwit.{
  Encoding, bech32, bech32m, const_of, add_generators, generator, polymod_round, polymod_from,
  bech32_polymod, bech32_hrp_expand, encoding_of, bech32_verify_checksum, six_digits,
  bech32_create_checksum,
}

-- What is added to the checksum is added to the sum with the generators.
add_generators-xor :
    (gs : List ℕ) (top x y : ℕ)
    → add_generators gs top (bit_xor x y) ≡ bit_xor (add_generators gs top x) y
unfolding add_generators
add_generators-xor [] top x y = refl
add_generators-xor (g ∷ gs) top x y =
    ap (add_generators gs (top / 2)) (xor_swap x y (if top % 2 == 1 then g else 0))
    ∙ add_generators-xor gs (top / 2) (bit_xor x (if top % 2 == 1 then g else 0)) y

add_generators-lt :
    (gs : List ℕ) (top x : ℕ)
    → All (λ g. g < 2 ^ 30) gs
    → x < 2 ^ 30
    → add_generators gs top x < 2 ^ 30
unfolding add_generators
add_generators-lt [] top x h p = p
add_generators-lt (g ∷ gs) top x h p =
    add_generators-lt gs (top / 2) _ h.1 (xor_lt 30 x _ p (ground (arith, h.0)))

-- A difference in the low 25 digits goes up by five digits in one round.
round_xor :
    (chk d c : ℕ)
    → d < 2 ^ 25
    → c < 32
    → polymod_round (bit_xor chk d) c ≡ bit_xor (polymod_round chk 0) (d * 32 + c)
unfolding polymod_round
round_xor chk d c p q =
    let h : ℕ = chk / 2 ^ 25 in
    let l : ℕ = chk % 2 ^ 25 in
    let e : bit_xor chk d ≡ h * 2 ^ 25 + bit_xor l d =
      ap (λ t. bit_xor t d) (omega arith) ∙ xor_fields 25 h l d (omega arith) p in
    let small = xor_lt 25 l d (omega arith) p in
    let high : bit_xor chk d / 2 ^ 25 ≡ h = omega (arith, e, small) in
    let low : bit_xor chk d % 2 ^ 25 ≡ bit_xor l d = omega (arith, e, small) in
    let sum : bit_xor (d * 32) c ≡ d * 32 + c =
      ap (λ t. bit_xor t c) (omega arith)
      ∙ xor_fields 5 d 0 c (omega arith) q
      ∙ ap (λ t. d * 2 ^ 5 + t) (xor_zero c) in
    let inner : bit_xor (bit_xor l d * 32) c ≡ bit_xor (bit_xor (l * 32) 0) (d * 32 + c) =
      ap (λ t. bit_xor t c) (sym (xor_shift l d))
      ∙ xor_assoc (l * 32) (d * 32) c
      ∙ ap (bit_xor (l * 32)) sum
      ∙ ap (λ t. bit_xor t (d * 32 + c)) (sym (xor_zero_right (l * 32))) in
    ap (λ t. add_generators generator t (bit_xor (bit_xor chk d % 2 ^ 25 * 32) c)) high
    ∙ ap (λ t. add_generators generator h (bit_xor (t * 32) c)) low
    ∙ ap (add_generators generator h) inner
    ∙ add_generators-xor generator h (bit_xor (l * 32) 0) (d * 32 + c)

polymod_from-append :
    (chk : ℕ) (xs ys : List ℕ) → polymod_from chk (xs ++ ys) ≡ polymod_from (polymod_from chk xs) ys
unfolding polymod_from
polymod_from-append chk [] ys = refl
polymod_from-append chk (x ∷ xs) ys = polymod_from-append (polymod_round chk x) xs ys

-- Values below 32, whose number stays within 25 digits until the last of them.
abbrev Fits : ℕ → List ℕ → Type 0
Fits d [] = Unit {0}
Fits d (c ∷ cs) = (d < 2 ^ 25) × (c < 32) × Fits (d * 32 + c) cs

-- Values at the end, in place of zeros, add the number that they are the digits of.
polymod_from-xor :
    (chk d : ℕ) (cs : List ℕ)
    → Fits d cs
    → polymod_from (bit_xor chk d) cs
      ≡ bit_xor (polymod_from chk (replicate (length cs) 0)) (from_digits 32 d cs)
unfolding polymod_from from_digits
polymod_from-xor chk d [] h = refl
polymod_from-xor chk d (c ∷ cs) (p, q, h) =
    ap (λ t. polymod_from t cs) (round_xor chk d c p q)
    ∙ polymod_from-xor (polymod_round chk 0) (d * 32 + c) cs h

polymod_from-lt :
    (chk v : ℕ) (vs : List ℕ) → All (λ x. x < 32) (v ∷ vs) → polymod_from chk (v ∷ vs) < 2 ^ 30
unfolding polymod_from polymod_round
polymod_from-lt chk v [] h =
    add_generators-lt generator (chk / 2 ^ 25) _
      (omega arith, (omega arith, (omega arith, (omega arith, (omega arith, tt)))))
      (xor_lt 30 (chk % 2 ^ 25 * 32) v (omega arith) (omega (arith, h.0)))
polymod_from-lt chk v (w ∷ vs) h = polymod_from-lt (polymod_round chk v) w vs h.1

-- The digits of the checksum bring the sum to what they were made for.
six_digits-xor :
    (chk k : ℕ)
    → k < 2 ^ 30
    → polymod_from chk (six_digits (bit_xor (polymod_from chk (replicate 6 0)) k)) ≡ k
unfolding six_digits from_digits
six_digits-xor chk k h =
    let p : ℕ = polymod_from chk (replicate 6 0) in
    let q : ℕ = bit_xor p k in
    let small : q < 2 ^ 30 =
      xor_lt 30 p k
        (polymod_from-lt chk 0 _ (
          omega arith,
          (omega arith, (omega arith, (omega arith, (omega arith, (omega arith, tt))))),
        ))
        h in
    ap (λ t. polymod_from t (six_digits q)) (sym (xor_zero_right chk))
    ∙ polymod_from-xor chk 0 (six_digits q) (
      omega arith,
      omega arith,
      (
        omega arith,
        omega arith,
        (
          omega arith,
          omega arith,
          (omega arith, omega arith, (omega arith, omega arith, (omega arith, omega arith, tt))),
        ),
      ),
    )
    ∙ ap (bit_xor p) (omega (arith, small))
    ∙ xor_cancel p k

const_of-lt : (encoding : Encoding) → const_of encoding < 2 ^ 30
unfolding const_of
const_of-lt bech32 = omega arith
const_of-lt bech32m = omega arith

encoding_of-const_of : (encoding : Encoding) → encoding_of (const_of encoding) ≡ some encoding
unfolding encoding_of const_of
encoding_of-const_of bech32 = refl
encoding_of-const_of bech32m = refl

-- The checksum that is created for a human readable part and data is accepted behind them, and it
-- tells which of the two encodings it was created for.
pub bech32_verify_checksum-created :
    (encoding : Encoding) (hrp : Text) (values : List ℕ)
    → bech32_verify_checksum hrp (values ++ bech32_create_checksum encoding hrp values)
      ≡ some encoding
unfolding bech32_verify_checksum bech32_create_checksum bech32_polymod
bech32_verify_checksum-created encoding hrp values =
    let front : List ℕ = bech32_hrp_expand hrp ++ values in
    let chk : ℕ = polymod_from 1 front in
    let made = polymod_from-append 1 front (replicate 6 0) in
    let whole = sym (
      append_assoc (bech32_hrp_expand hrp) values
        (six_digits (bit_xor (polymod_from 1 (front ++ replicate 6 0)) (const_of encoding)))) in
    ap (λ t. encoding_of (polymod_from 1 t)) whole
    ∙ ap encoding_of (polymod_from-append 1 front _)
    ∙ ap (λ t. encoding_of (polymod_from chk (six_digits (bit_xor t (const_of encoding))))) made
    ∙ ap encoding_of (six_digits-xor chk (const_of encoding) (const_of-lt encoding))
    ∙ encoding_of-const_of encoding
