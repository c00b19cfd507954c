-- ===== src/Address/Base58.antt =====
-- bitcointx/base58.py
pub mod Parts
pub mod RoundTrip
pub mod Checked
use python_bitcointx.Prelude.{
  ℕ, zero, suc, ◌+◌, ◌-◌, ◌*◌, Bool, true, false, not, Option, none, some, List, [], ◌∷◌, ◌++◌, map,
  length, take, drop, get_or, Bytes, bytes_eq, replicate, ltb, ◌==◌, if◌then◌else◌,
}
use python_bitcointx.Result.{
  Result, ok, err, ◌>>=◌, ◌>>◌, guard, base58_error, invalid_base58_error, base58_checksum_error,
  unexpected_base58_prefix_error,
}
use python_bitcointx.Address.{Text, backwards}
use python_bitcointx.Address.Digits.{divmods, from_digits}

abbrev pub b58_digits : Text
b58_digits =
    b'1' ∷ b'2' ∷ b'3' ∷ b'4' ∷ b'5' ∷ b'6' ∷ b'7' ∷ b'8' ∷ b'9' ∷ b'A' ∷ b'B' ∷ b'C' ∷ b'D' ∷ b'E'
    ∷ b'F' ∷ b'G' ∷ b'H' ∷ b'J' ∷ b'K' ∷ b'L' ∷ b'M' ∷ b'N' ∷ b'P' ∷ b'Q' ∷ b'R' ∷ b'S' ∷ b'T'
    ∷ b'U' ∷ b'V' ∷ b'W' ∷ b'X' ∷ b'Y' ∷ b'Z' ∷ b'a' ∷ b'b' ∷ b'c' ∷ b'd' ∷ b'e' ∷ b'f' ∷ b'g'
    ∷ b'h' ∷ b'i' ∷ b'j' ∷ b'k' ∷ b'm' ∷ b'n' ∷ b'o' ∷ b'p' ∷ b'q' ∷ b'r' ∷ b's' ∷ b't' ∷ b'u'
    ∷ b'v' ∷ b'w' ∷ b'x' ∷ b'y' ∷ b'z' ∷ []

abbrev pub max_base58_string_length : ℕ
max_base58_string_length = 128

-- `B58_DIGITS[r]`
unfoldable pub digit_char : ℕ → ℕ
digit_char r = get_or b58_digits r 0

-- `s.index(c)`, where there is one
unfoldable pub index_of : Text → ℕ → Option ℕ
index_of [] c = none
index_of (d ∷ ds) c =
    let rest = index_of ds c in
    if d == c then some 0 else elim rest [ none ↦ none | some i ↦ some (suc i) ]

-- The loops that count the characters, or bytes, in front that are `c`.
unfoldable pub count_leading : ℕ → List ℕ → ℕ
count_leading c [] = 0
count_leading c (x ∷ xs) = let rest = count_leading c xs in if x == c then suc rest else 0

-- `s[:-1]`
unfoldable pub drop_last : List ℕ → List ℕ
drop_last [] = []
drop_last (x ∷ []) = []
drop_last (x ∷ y ∷ ys) = x ∷ drop_last (y ∷ ys)

unfoldable pub encode : Bytes → Text
encode b =
    let n = from_digits 256 0 b in
    replicate (count_leading 0 b) (digit_char 0) ++ backwards (map digit_char (divmods 58 n n)) []

-- The loop of `decode` over the characters, from a value of `n`.
unfoldable pub read_digits : ℕ → Text → Result ℕ
read_digits n [] = ok n
read_digits n (c ∷ cs) = elim (index_of b58_digits c) [
  | none ↦ err invalid_base58_error
  | some digit ↦ read_digits (n * 58 + digit) cs
]

-- `'%x' % n`, made even, as bytes: zero is one byte.
unfoldable pub to_bytes : ℕ → Bytes
to_bytes n = if n == 0 then 0 ∷ [] else backwards (divmods 256 n n) []

unfoldable pub decode : Text → Result Bytes
decode [] = ok []
decode (c ∷ cs) = do
  guard (not (ltb max_base58_string_length (length (c ∷ cs)))) invalid_base58_error
  n ← read_digits 0 (c ∷ cs)
  ok (replicate (count_leading (digit_char 0) (drop_last (c ∷ cs))) 0 ++ to_bytes n)

-- CBase58Data: a class is its `base58_prefix`, and an instance the data behind the prefix.
-- CBase58Data.__str__, for the double SHA-256 `hash`
unfoldable pub to_string : (Bytes → Bytes) → (base58_prefix self : Bytes) → Text
to_string hash base58_prefix self =
    encode (base58_prefix ++ (self ++ take 4 (hash (base58_prefix ++ self))))

-- `s.startswith(prefix)`
unfoldable pub starts_with : Bytes → Bytes → Bool
starts_with prefix s = bytes_eq (take (length prefix) s) prefix

-- The loop of CBase58Data.base58_from_bytes_match_prefix over the candidates, by their prefixes, of
-- which none is empty: the class found and its data.
unfoldable pub match_prefix : List Bytes → Bytes → Result (Bytes × Bytes)
match_prefix [] s = err unexpected_base58_prefix_error
match_prefix (prefix ∷ prefixes) s =
    let rest = match_prefix prefixes s in
    if starts_with prefix s then ok (prefix, drop (length prefix) s) else rest

-- CBase58Data.base58_from_bytes_match_prefix, for the candidates of the class: without any, the data
-- is taken whole.
unfoldable pub from_bytes_match_prefix : List Bytes → Bytes → Result (Bytes × Bytes)
from_bytes_match_prefix [] s = ok ([], s)
from_bytes_match_prefix (prefix ∷ prefixes) s = match_prefix (prefix ∷ prefixes) s

-- CBase58Data.__new__, for the candidates of the class
unfoldable pub from_string :
    (Bytes → Bytes) → (prefixes : List Bytes) → Text → Result (Bytes × Bytes)
from_string hash prefixes s = do
  k ← decode s
  guard (not (ltb (length k) 4)) base58_error
  let payload = take (length k - 4) k
  guard (bytes_eq (drop (length k - 4) k) (take 4 (hash payload))) base58_checksum_error
  from_bytes_match_prefix prefixes payload
