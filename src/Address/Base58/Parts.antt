-- ===== src/Address/Base58/Parts.antt =====
-- The characters of Base58, and the loops of `encode` and `decode` over them.
use python_bitcointx.Prelude.{
  ℕ, zero, suc, ◌+◌, ◌*◌, ◌≤◌, ◌<◌, ◌≢◌, ◌≡◌, refl, ap, ◌∙◌, Option, none, some, List, [], ◌∷◌,
  ◌++◌, map, arith, length, Bytes, replicate, ◌==◌, if◌then◌else◌, ==_refl, ne→==_false,
  le→ltb_false,
}
use python_bitcointx.Prelude.Bits.{agree_below, agree_below→eq}
use python_bitcointx.Result.{ok}
use python_bitcointx.Address.{Text, backwards}
use python_bitcointx.Address.Digits.{from_digits, base_58, AreDigits}
use python_bitcointx.Address.Base58.{
  b58_digits, max_base58_string_length, digit_char, index_of, count_leading, drop_last, read_digits,
  to_bytes, decode,
}

-- Every digit has a character of its own.
or_58 : Option ℕ → ℕ
or_58 none = 58
or_58 (some i) = i

or_58-eq : (o : Option ℕ) (d : ℕ) → or_58 o ≡ d → d < 58 → o ≡ some d
unfolding or_58
or_58-eq none d e h = absurd (omega arith)
or_58-eq (some i) d e h = ap some e

pub index_of-digit_char : (d : ℕ) → d < 58 → index_of b58_digits (digit_char d) ≡ some d
index_of-digit_char d h =
    or_58-eq (index_of b58_digits (digit_char d)) d
      (agree_below→eq (λ i. or_58 (index_of b58_digits (digit_char i))) (λ i. i) 58
        (unfold agree_below index_of digit_char or_58 in refl) d h)
      h

pub read_digits_step :
    (acc c d : ℕ) (cs : Text)
    → index_of b58_digits c ≡ some d
    → read_digits acc (c ∷ cs) ≡ read_digits (acc * 58 + d) cs
unfolding read_digits
read_digits_step acc c d cs e = rw (e, read_digits) refl

pub read_digits-map :
    (acc : ℕ) (ds : List ℕ)
    → AreDigits 58 base_58 ds
    → read_digits acc (map digit_char ds) ≡ ok (from_digits 58 acc ds)
unfolding read_digits from_digits
read_digits-map acc [] h = refl
read_digits-map acc (d ∷ ds) h =
    read_digits_step acc (digit_char d) d (map digit_char ds) (index_of-digit_char d h.0)
    ∙ read_digits-map (acc * 58 + d) ds h.1

pub map-backwards :
    (f : ℕ → ℕ) (xs ys : List ℕ) → backwards (map f xs) (map f ys) ≡ map f (backwards xs ys)
unfolding backwards
map-backwards f [] ys = refl
map-backwards f (x ∷ xs) ys = map-backwards f xs (x ∷ ys)

-- Bytes behind their leading zeros.
unfoldable pub stripped : Bytes → Bytes
stripped [] = []
stripped (x ∷ xs) = if x == 0 then stripped xs else x ∷ xs

pub replicate-stripped : (b : Bytes) → replicate (count_leading 0 b) 0 ++ stripped b ≡ b
unfolding count_leading stripped
replicate-stripped [] = refl
replicate-stripped (x ∷ xs) = ground (arith, replicate-stripped xs)

pub from_digits-zeros :
    (base n : ℕ) (ds : List ℕ) → from_digits base 0 (replicate n 0 ++ ds) ≡ from_digits base 0 ds
unfolding from_digits
from_digits-zeros base zero ds = refl
from_digits-zeros base (suc n) ds =
    ap (λ t. from_digits base t (replicate n 0 ++ ds)) (omega arith) ∙ from_digits-zeros base n ds

pub count_leading-drop_last :
    (n c x : ℕ) (xs : List ℕ) → x ≢ c → count_leading c (drop_last (replicate n c ++ (x ∷ xs))) ≡ n
unfolding count_leading drop_last
count_leading-drop_last zero c x [] h = refl
count_leading-drop_last zero c x (y ∷ xs) h = rw (ne→==_false x c h) refl
count_leading-drop_last (suc zero) c x xs h =
    rw (==_refl c) (ap suc (count_leading-drop_last zero c x xs h))
count_leading-drop_last (suc (suc n)) c x xs h =
    rw (==_refl c) (ap suc (count_leading-drop_last (suc n) c x xs h))

pub count_leading-replicate :
    (n c x : ℕ) → count_leading c (drop_last (replicate n c ++ (x ∷ []))) ≡ n
unfolding count_leading drop_last
count_leading-replicate zero c x = refl
count_leading-replicate (suc zero) c x = rw (==_refl c) refl
count_leading-replicate (suc (suc n)) c x =
    rw (==_refl c) (ap suc (count_leading-replicate (suc n) c x))

pub replicate_snoc : (n x : ℕ) → replicate (suc n) x ≡ replicate n x ++ (x ∷ [])
replicate_snoc zero x = refl
replicate_snoc (suc n) x = ap (λ t. x ∷ t) (replicate_snoc n x)

pub read_digits-replicate :
    (n : ℕ) (cs : Text) → read_digits 0 (replicate n (digit_char 0) ++ cs) ≡ read_digits 0 cs
read_digits-replicate zero cs = refl
read_digits-replicate (suc n) cs =
    read_digits_step 0 (digit_char 0) 0 _ (index_of-digit_char 0 (omega arith))
    ∙ read_digits-replicate n cs

-- A string with a last character is decoded to the bytes of its number.
pub decode-eq :
    (p c : ℕ) (cs : Text) (n : ℕ)
    → length (replicate p (digit_char 0) ++ (c ∷ cs)) ≤ max_base58_string_length
    → read_digits 0 (c ∷ cs) ≡ ok n
    → decode (replicate p (digit_char 0) ++ (c ∷ cs))
      ≡ ok (
          replicate
            (count_leading (digit_char 0) (drop_last (replicate p (digit_char 0) ++ (c ∷ cs))))
            0
          ++ to_bytes n)
unfolding decode
decode-eq zero c cs n short h = rw (le→ltb_false _ _ short, h) refl
decode-eq (suc p) c cs n short h =
    rw (le→ltb_false _ _ short, read_digits-replicate (suc p) (c ∷ cs), h) refl
