-- ===== src/Bip32/Decimal.antt =====
-- Decimal numbers as texts: `isdigit`, `int` and the formatting of a number.
use python_bitcointx.Prelude.{
  ℕ, zero, suc, ◌+◌, ◌-◌, ◌≤◌, ◌<◌, ◌≡◌, ◌≢◌, refl, sym, ap, ◌∙◌, Bool, true, false, ◌&&◌, List, [],
  ◌∷◌, map, arith, All, length, ltb, leb, ◌==◌, ne→==_false, if◌then◌else◌,
}
use mathlib.Core.Path.{subst}
use python_bitcointx.Address.{Text, backwards}
use python_bitcointx.Address.Digits.{
  divmods, from_digits, value, IsBase, IsReduced, AreDigits, from_digits-backwards, value-divmods,
  divmods-AreDigits, divmods-IsReduced, backwards-AreDigits, reversed_head,
}

unfoldable pub is_digit : ℕ → Bool
is_digit c = leb b'0' c && leb c b'9'

unfoldable pub all_digits : Text → Bool
all_digits [] = true
all_digits (c ∷ cs) = is_digit c && all_digits cs

-- `int(s)` of a text of digits
unfoldable pub int : Text → ℕ
int s = from_digits 10 0 (map (λ c. c - b'0') s)

-- The text of a number.
unfoldable pub decimal : ℕ → Text
decimal n = if n == 0 then b'0' ∷ [] else backwards (map (λ d. d + b'0') (divmods 10 n n)) []

base_10 : IsBase 10
base_10 = record {
  low_digit = λ d v h. omega arith;
  high_digits = λ d v h. omega arith;
  grows = λ v h. omega arith;
  shrinks = λ n h. omega arith;
  joins = λ n. omega arith;
  is_digit = λ n. omega arith;
  commutes = λ v. omega arith;
}

map-backwards :
    (f : ℕ → ℕ) (xs rest : List ℕ) → map f (backwards xs rest) ≡ backwards (map f xs) (map f rest)
unfolding backwards
map-backwards f [] rest = refl
map-backwards f (x ∷ xs) rest = map-backwards f xs (x ∷ rest)

-- The digits of text are characters from 0 to 9.
abbrev pub IsDigit : ℕ → Type 0
IsDigit c = (48 ≤ c) × (c ≤ 57)

map-IsDigit : (ds : List ℕ) → All (λ d. d < 10) ds → All IsDigit (map (λ d. d + 48) ds)
map-IsDigit [] h = tt
map-IsDigit (d ∷ ds) h = ((omega (arith, h.0), omega (arith, h.0)), map-IsDigit ds h.1)

unmap : (ds : List ℕ) → map (λ c. c - 48) (map (λ d. d + 48) ds) ≡ ds
unmap [] = refl
unmap (d ∷ ds) = rw (unmap ds) (ap (λ t. t ∷ ds) (omega arith))

-- The text of digits, the highest of which is not zero.
digits_text :
    (ds : List ℕ) (n : ℕ)
    → n ≢ 0
    → All (λ d. d < 10) ds
    → IsReduced ds
    → value 10 ds ≡ n
    → (c : ℕ) × (cs : Text) × (backwards (map (λ d. d + 48) ds) [] ≡ (c ∷ cs))
      × (c ≢ 48)
      × All IsDigit (c ∷ cs)
      × (int (c ∷ cs) ≡ n)
unfolding value int from_digits
digits_text [] n ne h r e = absurd (ne (sym e))
digits_text (d ∷ ds) n ne h r e =
    let (x, xs, head, nz) = reversed_head d ds [] r in
    let small : All (λ d. d < 10) (x ∷ xs) =
      subst (AreDigits 10 base_10) head (backwards-AreDigits 10 base_10 (d ∷ ds) [] h tt) in
    let number : from_digits 10 0 (x ∷ xs) ≡ n =
      sym (ap (from_digits 10 0) head) ∙ from_digits-backwards 10 base_10 (d ∷ ds) [] ∙ e in
    (
      x + 48,
      map (λ d. d + 48) xs,
      sym (map-backwards (λ d. d + 48) (d ∷ ds) []) ∙ ap (map (λ d. d + 48)) head,
      (λ z. nz (omega arith)),
      map-IsDigit (x ∷ xs) small,
      ap (from_digits 10 0) (unmap (x ∷ xs)) ∙ number,
    )

-- The text of a positive number: digits, the first of which is not zero, that give it back.
decimal_positive :
    (n : ℕ)
    → n ≢ 0
    → (c : ℕ) × (cs : Text) × (decimal n ≡ (c ∷ cs))
      × (c ≢ 48)
      × All IsDigit (c ∷ cs)
      × (int (c ∷ cs) ≡ n)
unfolding decimal int
decimal_positive n ne =
    let (c, cs, e, nz, digits, number) =
      digits_text (divmods 10 n n) n ne (divmods-AreDigits 10 base_10 n n)
        (divmods-IsReduced 10 base_10 n n (omega arith))
        (value-divmods 10 base_10 n n (omega arith)) in
    (c, cs, rw (ne→==_false n 0 ne) e, nz, digits, number)

all_digits-IsDigit : (cs : Text) → All IsDigit cs → all_digits cs ≡ true
unfolding all_digits is_digit
all_digits-IsDigit [] h = refl
all_digits-IsDigit (c ∷ cs) h = ground (arith, all_digits-IsDigit cs h.1)

-- The text of any number.
pub decimal_lem :
    (n : ℕ)
    → (c : ℕ) × (cs : Text) × (decimal n ≡ (c ∷ cs))
      × All IsDigit (c ∷ cs)
      × (all_digits (c ∷ cs) ≡ true)
      × (int (c ∷ cs) ≡ n)
      × ((ltb 1 (length (c ∷ cs)) && (c == 48)) ≡ false)
unfolding decimal int from_digits all_digits is_digit
decimal_lem zero = (48, [], refl, omega arith, refl, refl, refl)
decimal_lem (suc n) =
    let (c, cs, e, nz, digits, number) = decimal_positive (suc n) (omega arith) in
    (
      c,
      cs,
      e,
      digits,
      all_digits-IsDigit (c ∷ cs) digits,
      number,
      ground (arith, ne→==_false c 48 nz),
    )
