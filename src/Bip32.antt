-- ===== src/Bip32.antt =====
-- bitcointx/core/key.py: BIP32PathGeneric and BIP32Path.
--
-- The class with the type of its indexes is a record of the methods that the two subclasses define.
-- Texts are ASCII: outside, `isspace`, `isdigit` and `int` accept more characters than here.
pub mod Decimal
pub mod Element
pub mod RoundTrip
pub mod Template
use python_bitcointx.Prelude.{
  ℕ, zero, suc, ◌+◌, ◌-◌, Bool, true, false, not, ◌&&◌, ◌||◌, Option, none, some, List, [], ◌∷◌,
  ◌++◌, length, ltb, leb, ◌==◌, if◌then◌else◌,
}
use python_bitcointx.Result.{Result, ok, err, ◌>>=◌, ◌>>◌, guard, value_error}
use python_bitcointx.Address.{Text}
use python_bitcointx.Bip32.Decimal.{is_digit, all_digits, decimal, int}

abbrev pub bip32_hardened_key_offset : ℕ
bip32_hardened_key_offset = 0x80000000

-- `ch.isspace()`
unfoldable pub is_space : ℕ → Bool
is_space c = leb 9 c && leb c 13 || leb 28 c && leb c 32

unfoldable pub any_space : Text → Bool
any_space [] = false
any_space (c ∷ cs) = is_space c || any_space cs

unfoldable pub extend : (c : ℕ) → List Text → List Text
extend c [] = (c ∷ []) ∷ []
extend c (part ∷ parts) = (c ∷ part) ∷ parts

-- `s.split(separator)`
unfoldable pub split : (separator : ℕ) → Text → List Text
split separator [] = [] ∷ []
split separator (c ∷ cs) =
    let rest = split separator cs in if c == separator then [] ∷ rest else extend c rest

-- `separator.join(parts)`
unfoldable pub join_with : (separator : ℕ) → List Text → Text
join_with separator [] = []
join_with separator (part ∷ []) = part
join_with separator (part ∷ part' ∷ parts) =
    part ++ (separator ∷ join_with separator (part' ∷ parts))

-- `s[:-1]` and `s[-1]`
unfoldable pub unsnoc : Text → Option (Text × ℕ)
unsnoc [] = none
unsnoc (c ∷ cs) = elim (unsnoc cs) [
  | none ↦ some ([], c)
  | some (front, last) ↦ some (c ∷ front, last)
]

unfoldable pub ends_with : (c : ℕ) → Text → Bool
ends_with c [] = false
ends_with c (x ∷ []) = x == c
ends_with c (x ∷ y ∷ ys) = ends_with c (y ∷ ys)

-- `c in HARDENED_MARKERS`
unfoldable pub is_marker : ℕ → Bool
is_marker c = c == 0x27 || c == b'h'

-- `s.startswith('0')`
unfoldable pub starts_with_zero : Text → Bool
starts_with_zero [] = false
starts_with_zero (c ∷ cs) = c == b'0'

-- The methods of a subclass; `index_to_str` takes the marker of the path.
pub record IndexClass (Index : Type 0) : Type 0 where
  pub index_to_str : (marker : ℕ) → Index → Result Text
  pub index_from_argument : Index → Result Index
  pub index_from_str : Text → (is_hardened : Bool) → Result Index

pub record KeyPath (Index : Type 0) : Type 0 where
  pub indexes : List Index
  pub hardened_marker : ℕ
  pub is_partial : Bool

-- The argument of the constructor.
pub data PathArgument (Index : Type 0) : Type 0 where
  from_text : Text → PathArgument Index
  from_path : KeyPath Index → PathArgument Index
  from_indexes : List Index → PathArgument Index

unfoldable pub map_indexes {ℓ κ} :
    {A : Type ℓ} {B : Type κ} → (A → Result B) → List A → Result (List B)
map_indexes f [] = ok []
map_indexes f (x ∷ xs) = do y ← f x; ys ← map_indexes f xs; ok (y ∷ ys)

-- `if hardened_marker is None: hardened_marker = other`
unfoldable pub or_else {ℓ} : {A : Type ℓ} → Option A → A → A
or_else none other = other
or_else (some a) other = a

unfoldable pub same_bool : Bool → Bool → Bool
same_bool true b = b
same_bool false b = not b

-- `is_partial` as it is given has to agree with what the path says.
unfoldable pub check_partial : Option Bool → (actual : Bool) → Result Bool
check_partial none actual = ok actual
check_partial (some given) actual = do guard (same_bool given actual) value_error; ok given

-- A marker that is given has to be one of the two.
unfoldable pub check_marker : Option ℕ → Result (Unit {0})
check_marker none = ok tt
check_marker (some c) = guard (is_marker c) value_error

module _ {Index : Type 0} (class : IndexClass Index) where
  -- An element of a path, from its text and its last character.
  unfoldable pub parse_split :
      (expected_marker : Option ℕ) → Text → Option (Text × ℕ) → Result (Index × Option ℕ)
  parse_split expected elt none = err value_error
  parse_split expected elt (some (front, last)) =
      if is_marker last
      then (do
        guard (or_else expected last == last) value_error
        i ← class.index_from_str front true
        ok (i, some (or_else expected last)))
      else (do i ← class.index_from_str elt false; ok (i, expected))

  -- One element of a path: its index, and the marker that is expected from there on.
  unfoldable pub parse_element : (expected_marker : Option ℕ) → Text → Result (Index × Option ℕ)
  parse_element expected elt = parse_split expected elt (unsnoc elt)

  unfoldable pub parse_elements :
      (expected_marker : Option ℕ) → List Text → Result (List Index × Option ℕ)
  parse_elements expected [] = ok ([], expected)
  parse_elements expected (elt ∷ elts) = do
    (i, expected') ← parse_element expected elt
    (is, marker) ← parse_elements expected' elts
    ok (i ∷ is, marker)

  -- What `_parse_string` does with the text behind `m/`, if there is such.
  unfoldable pub parse_rest :
      (marker : Option ℕ) → (partial : Bool) → Text → Result (List Index × Option ℕ × Bool)
  parse_rest marker partial path = do
    guard (not (ends_with b'/' path)) value_error
    (is, marker') ← parse_elements marker (split b'/' path)
    ok (is, marker', partial)

  unfoldable pub parse_start : Text → (marker : Option ℕ) → Result (List Index × Option ℕ × Bool)
  parse_start [] marker = ok ([], marker, true)
  parse_start (c ∷ []) marker =
      if c == b'm'
      then ok ([], marker, false)
      else if c == b'/'
      then err value_error
      else parse_rest marker true (c ∷ [])
  parse_start (c ∷ d ∷ path) marker =
      if (c == b'm') && (d == b'/')
      then parse_rest marker false path
      else if c == b'/'
      then err value_error
      else parse_rest marker true (c ∷ d ∷ path)

  -- BIP32PathGeneric._parse_string
  unfoldable pub parse_string : Text → (marker : Option ℕ) → Result (List Index × Option ℕ × Bool)
  parse_string path marker = do guard (not (any_space path)) value_error; parse_start path marker

  -- The indexes of the argument, the marker, and whether the path is partial.
  unfoldable pub read_argument :
      PathArgument Index
      → (is_partial : Option Bool) → (marker : Option ℕ) → Result (List Index × Option ℕ × Bool)
  read_argument (from_text path) is_partial marker = do
    (is, marker', actual) ← parse_string path marker
    p ← check_partial is_partial actual
    ok (is, marker', p)
  read_argument (from_path path) is_partial marker = do
    p ← check_partial is_partial path.is_partial
    ok (path.indexes, some (or_else marker path.hardened_marker), p)
  read_argument (from_indexes is) is_partial marker = ok (is, marker, or_else is_partial true)

  -- BIP32PathGeneric.__init__
  unfoldable pub make_path :
      PathArgument Index → (is_partial : Option Bool) → (marker : Option ℕ) → Result (KeyPath Index)
  make_path path is_partial marker = do
    check_marker marker
    (is, marker', partial) ← read_argument path is_partial marker
    guard (leb (length is) 255) value_error
    is' ← map_indexes class.index_from_argument is
    ok (record { indexes = is'; hardened_marker = or_else marker' 0x27; is_partial = partial })

  -- BIP32PathGeneric.__str__
  unfoldable pub path_to_str : KeyPath Index → Result Text
  path_to_str path =
      if length path.indexes == 0 then ok (if path.is_partial then [] else b'm' ∷ []) else (do
        parts ← map_indexes (class.index_to_str path.hardened_marker) path.indexes
        ok (if path.is_partial then join_with b'/' parts else b'm' ∷ b'/' ∷ join_with b'/' parts))

  -- BIP32PathGeneric.__add__ with another path
  unfoldable pub add_path : (self other : KeyPath Index) → Result (KeyPath Index)
  add_path self other = do
    guard other.is_partial value_error
    make_path (from_indexes (self.indexes ++ other.indexes)) (some self.is_partial) none

-- BIP32Path._index_from_str
unfoldable pub index_from_str : Text → (is_hardened : Bool) → Result ℕ
index_from_str s is_hardened = do
  guard (not (length s == 0) && all_digits s) value_error
  guard (not (ltb 1 (length s) && starts_with_zero s)) value_error
  guard (ltb (int s) bip32_hardened_key_offset) value_error
  ok (if is_hardened then int s + bip32_hardened_key_offset else int s)

-- BIP32Path._index_to_str
unfoldable pub index_to_str : (marker : ℕ) → ℕ → Text
index_to_str marker n =
    if ltb n bip32_hardened_key_offset
    then decimal n
    else decimal (n - bip32_hardened_key_offset) ++ (marker ∷ [])

-- BIP32Path._index_from_argument
unfoldable pub index_from_argument : ℕ → Result ℕ
index_from_argument n = do guard (leb n 0xffffffff) value_error; ok n

abbrev pub bip32_path : IndexClass ℕ
bip32_path = record {
  index_to_str = λ marker n. ok (index_to_str marker n);
  index_from_argument = index_from_argument;
  index_from_str = index_from_str;
}
