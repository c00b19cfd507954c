-- ===== src/Bip32/Element.antt =====
-- BIP32Path of bitcointx/core/key.py: the text of an index, and the parts of a text that is split.
use python_bitcointx.Prelude.{
  ℕ, ◌+◌, ◌-◌, ◌^◌, ◌<◌, ◌≡◌, ◌≢◌, ◌⊎◌, inl, inr, refl, ap, ◌∙◌, Bool, true, false, ◌&&◌, ◌||◌,
  Option, none, some, List, [], ◌∷◌, ◌++◌, length, arith, All, All-append, ltb, lt→ltb, ne→==_false,
  ==_refl, ◌==◌, if◌then◌else◌, Bool-cases,
}
use python_bitcointx.Result.{ok}
use python_bitcointx.Address.{Text}
use python_bitcointx.Bip32.Decimal.{all_digits, int, IsDigit, decimal_lem}
use python_bitcointx.Bip32.{
  is_space, any_space, extend, split, join_with, unsnoc, ends_with, is_marker, or_else,
  parse_element, parse_split, starts_with_zero, index_from_str, index_to_str, bip32_path,
}

-- The characters in the text of an index: digits and the marker.
unfoldable pub IsPlain : ℕ → Type 0
IsPlain c = (is_space c ≡ false) × (c ≢ 47)

pub digit-IsPlain : (c : ℕ) → IsDigit c → IsPlain c
unfolding IsPlain is_space
digit-IsPlain c h = (ground (arith, h.0, h.1), λ e. omega (arith, h.0, e))

pub marker-IsPlain : (c : ℕ) → is_marker c ≡ true → IsPlain c
unfolding IsPlain is_space is_marker
marker-IsPlain c h = (ground arith, λ e. ground arith)

pub digit_no_marker : (c : ℕ) → IsDigit c → is_marker c ≡ false
unfolding is_marker
digit_no_marker c h = ground (arith, h.0, h.1)

pub All-map {ℓ κ μ} :
    {A : Type ℓ} (P : A → Type κ) (Q : A → Type μ) (f : (a : A) → P a → Q a) (xs : List A)
    → All P xs
    → All Q xs
All-map P Q f [] h = tt
All-map P Q f (x ∷ xs) h = (f x h.0, All-map P Q f xs h.1)

pub unsnoc-append : (front : Text) (c : ℕ) → unsnoc (front ++ c ∷ []) ≡ some (front, c)
unfolding unsnoc
unsnoc-append [] c = refl
unsnoc-append (x ∷ front) c = rw (unsnoc-append front c) refl

pub unsnoc-All :
    (P : ℕ → Type 0) (c : ℕ) (cs : Text)
    → All P (c ∷ cs)
    → (front : Text) × (last : ℕ) × (unsnoc (c ∷ cs) ≡ some (front, last)) × P last
unfolding unsnoc
unsnoc-All P c [] h = ([], c, refl, h.0)
unsnoc-All P c (d ∷ cs) h =
    let (front, last, e, p) = unsnoc-All P d cs h.1 in (c ∷ front, last, rw e refl, p)

pub index_from_str-eq :
    (c : ℕ) (cs : Text) (m : ℕ) (hardened : Bool)
    → all_digits (c ∷ cs) ≡ true
    → (ltb 1 (length (c ∷ cs)) && (c == 48)) ≡ false
    → int (c ∷ cs) ≡ m
    → ltb m 0x80000000 ≡ true
    → index_from_str (c ∷ cs) hardened ≡ ok (if hardened then m + 0x80000000 else m)
unfolding index_from_str starts_with_zero
index_from_str-eq c cs m hardened all zeros number low = rw (all, zeros, number, low) (ground arith)

pub parse_unhardened :
    (e : Option ℕ) (t front : Text) (last i : ℕ)
    → unsnoc t ≡ some (front, last)
    → is_marker last ≡ false
    → index_from_str t false ≡ ok i
    → parse_element bip32_path e t ≡ ok (i, e)
unfolding parse_element parse_split
parse_unhardened e t front last i u m h = rw (u, m, h) refl

pub parse_hardened :
    (e : Option ℕ) (t front : Text) (last i : ℕ)
    → unsnoc t ≡ some (front, last)
    → is_marker last ≡ true
    → or_else e last ≡ last
    → index_from_str front true ≡ ok i
    → parse_element bip32_path e t ≡ ok (i, some last)
unfolding parse_element parse_split
parse_hardened e t front last i u m o h = rw (u, m, o, ==_refl last, h) refl

-- An index as a text, and the text read as an element of a path.
module _ (marker : ℕ) (is : is_marker marker ≡ true) where
  abbrev pub Expected : Option ℕ → Type 0
  Expected e = (e ≡ none) ⊎ (e ≡ some marker)

  pub Expected-marker : (e : Option ℕ) → Expected e → or_else e marker ≡ marker
  unfolding or_else
  Expected-marker e (inl h) = rw h refl
  Expected-marker e (inr h) = rw h refl

  abbrev pub Reads : Option ℕ → ℕ → Text → Type 0
  Reads e n t =
      (c : ℕ) × (cs : Text) × (t ≡ (c ∷ cs))
      × IsDigit c
      × All IsPlain t
      × (e' : Option ℕ) × (parse_element bip32_path e t ≡ ok (n, e'))
      × (Expected e' × (e ≡ some marker → e' ≡ some marker))

  pub index_to_str-Reads :
      (e : Option ℕ) (n : ℕ) → Expected e → n < 2 ^ 32 → Reads e n (index_to_str marker n)
  unfolding index_to_str
  index_to_str-Reads e n h small = elim (Bool-cases (ltb n 0x80000000)) [
    | inl low ↦
        let (c, cs, text, digits, all, number, zeros) = decimal_lem n in
        let (front, last, u, d) = unsnoc-All IsDigit c cs digits in
        rw low (
          rw text (
            c,
            cs,
            refl,
            digits.0,
            All-map IsDigit IsPlain digit-IsPlain (c ∷ cs) digits,
            e,
            parse_unhardened e (c ∷ cs) front last n u (digit_no_marker last d)
                (index_from_str-eq c cs n false all zeros number low),
            (h, λ x. x),
          ))
    | inr high ↦
        let m = n - 0x80000000 in
        let (c, cs, text, digits, all, number, zeros) = decimal_lem m in
        rw high (
          rw text (
            c,
            cs ++ marker ∷ [],
            refl,
            digits.0,
            All-append IsPlain (c ∷ cs) (marker ∷ [])
                (All-map IsDigit IsPlain digit-IsPlain (c ∷ cs) digits)
                (marker-IsPlain marker is, tt),
            some marker,
            parse_hardened e ((c ∷ cs) ++ marker ∷ []) (c ∷ cs) marker n
                (unsnoc-append (c ∷ cs) marker) is (Expected-marker e h)
                (index_from_str-eq c cs m true all zeros number (lt→ltb m 0x80000000 (ground arith))
                  ∙ ap ok (ground arith)),
            (inr refl, λ x. refl),
          ))
  ]

pub split_plain :
    (part rest : Text) → All IsPlain part → split 47 (part ++ 47 ∷ rest) ≡ (part ∷ split 47 rest)
unfolding split extend IsPlain
split_plain [] rest h = refl
split_plain (c ∷ part) rest h = rw (ne→==_false c 47 h.0.1, split_plain part rest h.1) refl

pub split_last : (part : Text) → All IsPlain part → split 47 part ≡ (part ∷ [])
unfolding split extend IsPlain
split_last [] h = refl
split_last (c ∷ part) h = rw (ne→==_false c 47 h.0.1, split_last part h.1) refl

-- The parts of a path are found again.
pub split-join :
    (part : Text) (parts : List Text)
    → All (All IsPlain) (part ∷ parts)
    → split 47 (join_with 47 (part ∷ parts)) ≡ (part ∷ parts)
unfolding join_with
split-join part [] h = split_last part h.0
split-join part (part' ∷ parts) h =
    split_plain part (join_with 47 (part' ∷ parts)) h.0
    ∙ ap (λ t. part ∷ t) (split-join part' parts h.1)

pub any_space-append : (xs ys : Text) → any_space (xs ++ ys) ≡ (any_space xs || any_space ys)
unfolding any_space
any_space-append [] ys = refl
any_space-append (x ∷ xs) ys = rw (any_space-append xs ys) (ground arith)

pub any_space_plain : (xs : Text) → All IsPlain xs → any_space xs ≡ false
unfolding any_space IsPlain
any_space_plain [] h = refl
any_space_plain (x ∷ xs) h = rw (h.0.0, any_space_plain xs h.1) refl

pub any_space-join :
    (parts : List Text) → All (All IsPlain) parts → any_space (join_with 47 parts) ≡ false
unfolding join_with any_space is_space
any_space-join [] h = refl
any_space-join (part ∷ []) h = any_space_plain part h.0
any_space-join (part ∷ part' ∷ parts) h =
    any_space-append part (47 ∷ join_with 47 (part' ∷ parts))
    ∙ rw (any_space_plain part h.0, any_space-join (part' ∷ parts) h.1) refl

pub ends_with-append :
    (xs : Text) (y : ℕ) (ys : Text) → ends_with 47 (xs ++ y ∷ ys) ≡ ends_with 47 (y ∷ ys)
unfolding ends_with
ends_with-append [] y ys = refl
ends_with-append (x ∷ []) y ys = refl
ends_with-append (x ∷ x' ∷ xs) y ys = ends_with-append (x' ∷ xs) y ys

pub ends_with_plain : (xs : Text) → All IsPlain xs → ends_with 47 xs ≡ false
unfolding ends_with IsPlain
ends_with_plain [] h = refl
ends_with_plain (x ∷ []) h = ne→==_false x 47 h.0.1
ends_with_plain (x ∷ y ∷ ys) h = ends_with_plain (y ∷ ys) h.1
