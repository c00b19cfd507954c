-- ===== src/Bip32/Template.antt =====
-- bitcointx/core/key.py: BIP32PathTemplate.
--
-- An index of a template is the list of its bounds. `max_index` is kept one higher, from 0 on.
pub mod Exact
use python_bitcointx.Prelude.{
  ℕ, zero, suc, ◌+◌, ◌-◌, Bool, true, false, not, ◌&&◌, ◌||◌, Option, none, some, List, [], ◌∷◌,
  ◌++◌, length, bytes_eq, ltb, leb, ◌==◌, if◌then◌else◌,
}
use python_bitcointx.Result.{Result, ok, err, ◌>>=◌, ◌>>◌, guard, value_error, assertion_error}
use python_bitcointx.Address.{Text}
use python_bitcointx.Bip32.Decimal.{all_digits, decimal}
use python_bitcointx.Bip32.{
  bip32_hardened_key_offset, any_space, split, join_with, unsnoc, IndexClass, KeyPath, map_indexes,
  same_bool, index_from_str,
}

-- BIP32PathTemplateIndex
abbrev pub TemplateIndex : Type 0
TemplateIndex = List (ℕ × ℕ)

unfoldable pub check_bounds : (above_max : ℕ) → TemplateIndex → Result (Unit {0})
check_bounds above_max [] = ok tt
check_bounds above_max ((left, right) ∷ bounds) = do
  guard (leb left 0xffffffff && leb right 0xffffffff) value_error
  guard (same_bool (ltb left bip32_hardened_key_offset) (ltb right bip32_hardened_key_offset))
      value_error
  guard (not (ltb right left)) value_error
  guard (not (ltb right above_max)) value_error
  check_bounds (suc right) bounds

-- BIP32PathTemplateIndex.__init__
unfoldable pub template_index : TemplateIndex → Result TemplateIndex
template_index bounds = do check_bounds 0 bounds; ok bounds

-- `s.split(separator, maxsplit=1)`, if the separator occurs
unfoldable pub split_once : (separator : ℕ) → Text → Option (Text × Text)
split_once separator [] = none
split_once separator (c ∷ cs) =
    if c == separator then some ([], cs) else (elim (split_once separator cs) [
      | none ↦ none
      | some (left, right) ↦ some (c ∷ left, right)
    ])

unfoldable pub parse_range_of : (offset : ℕ) → Text → Option (Text × Text) → Result (ℕ × ℕ)
parse_range_of offset s none = do idx ← index_from_str s false; ok (idx + offset, idx + offset)
parse_range_of offset s (some (left, right)) = do
  n_left ← index_from_str left false
  n_right ← index_from_str right false
  guard (not ((n_left == 0) && (n_right == bip32_hardened_key_offset - 1))) value_error
  ok (n_left + offset, n_right + offset)

-- One part of a list of ranges.
unfoldable pub parse_range : (offset : ℕ) → Text → Result (ℕ × ℕ)
parse_range offset s = parse_range_of offset s (split_once b'-' s)

-- A range that follows on the last one is joined with it.
unfoldable pub add_range : TemplateIndex → ℕ × ℕ → TemplateIndex
add_range [] range = range ∷ []
add_range ((left, right) ∷ []) range =
    if right + 1 == range.0 then (left, range.1) ∷ [] else (left, right) ∷ range ∷ []
add_range (bound ∷ bound' ∷ bounds) range = bound ∷ add_range (bound' ∷ bounds) range

unfoldable pub parse_ranges :
    (offset : ℕ) → (bounds : TemplateIndex) → List Text → Result TemplateIndex
parse_ranges offset bounds [] = ok bounds
parse_ranges offset bounds (s ∷ parts) = do
  range ← parse_range offset s
  parse_ranges offset (add_range bounds range) parts

-- `index_str[1:-1]`, where the braces are there
unfoldable pub inside_braces : Text → Result Text
inside_braces [] = err value_error
inside_braces (c ∷ cs) = elim (unsnoc cs) [
  | none ↦ err value_error
  | some (inner, last) ↦ do guard ((c == b'{') && (last == b'}')) value_error; ok inner
]

-- What _index_from_str does with a text that is no index.
unfoldable pub parse_template : Text → (is_hardened : Bool) → Result TemplateIndex
parse_template s is_hardened = do
  let offset = if is_hardened then bip32_hardened_key_offset else 0
  if bytes_eq s (b'*' ∷ [])
      then template_index ((offset, bip32_hardened_key_offset - 1 + offset) ∷ [])
      else (do
        guard (not (ltb (length s) 3)) value_error
        inner ← inside_braces s
        bounds ← parse_ranges offset [] (split b',' inner)
        template_index bounds)

-- What `parse_index` returned: an index, or an exception.
unfoldable pub template_of : Text → (is_hardened : Bool) → Result ℕ → Result TemplateIndex
template_of s is_hardened (ok n) = template_index ((n, n) ∷ [])
template_of s is_hardened (err e) =
    if not (length s == 0) && all_digits s then err e else parse_template s is_hardened

-- BIP32PathTemplate._index_from_str
unfoldable pub template_from_str : Text → (is_hardened : Bool) → Result TemplateIndex
template_from_str s is_hardened = do
  guard (not (any_space s)) value_error
  template_of s is_hardened (index_from_str s is_hardened)

unfoldable pub unhardened : Bool → ℕ → ℕ
unhardened is_hardened n = if is_hardened then n - bip32_hardened_key_offset else n

-- The text of a pair of bounds, and whether they are hardened.
unfoldable pub bound_to_str : ℕ × ℕ → Result (Text × Bool)
bound_to_str (left, right) = do
  let is_hardened = leb bip32_hardened_key_offset left
  guard (same_bool is_hardened (leb bip32_hardened_key_offset right)) assertion_error
  let l = unhardened is_hardened left
  let r = unhardened is_hardened right
  ok (
    (if l == r
        then decimal l
        else if (l == 0) && (r == bip32_hardened_key_offset - 1)
        then b'*' ∷ []
        else decimal l ++ (b'-' ∷ decimal r)),
    is_hardened,
  )

-- The loop over the bounds: the texts, and the marker that the last round has set.
unfoldable pub bounds_to_str :
    (hardened_marker : ℕ) → (marker : Text) → TemplateIndex → Result (List Text × Text)
bounds_to_str hardened_marker marker [] = ok ([], marker)
bounds_to_str hardened_marker marker (bound ∷ bounds) = do
  (item, is_hardened) ← bound_to_str bound
  (items, last_marker) ←
      bounds_to_str hardened_marker (if is_hardened then hardened_marker ∷ [] else []) bounds
  ok (item ∷ items, last_marker)

-- `c in s`
unfoldable pub has_char : ℕ → Text → Bool
has_char c [] = false
has_char c (x ∷ xs) = x == c || has_char c xs

unfoldable pub enclose : List Text → (marker : Text) → Result Text
enclose [] marker = err assertion_error
enclose (item ∷ []) marker =
    if has_char b'-' item then ok ((b'{' ∷ item) ++ (b'}' ∷ marker)) else ok (item ++ marker)
enclose (item ∷ item' ∷ items) marker =
    ok ((b'{' ∷ join_with b',' (item ∷ item' ∷ items)) ++ (b'}' ∷ marker))

-- BIP32PathTemplate._index_to_str
unfoldable pub template_to_str : (hardened_marker : ℕ) → TemplateIndex → Result Text
template_to_str hardened_marker bounds = do
  (items, marker) ← bounds_to_str hardened_marker [] bounds
  enclose items marker

-- An index that is an instance already is returned by `_index_from_argument` as it is; it has passed
-- the same checks when it was made.
abbrev pub bip32_path_template : IndexClass TemplateIndex
bip32_path_template = record {
  index_to_str = template_to_str;
  index_from_argument = template_index;
  index_from_str = template_from_str;
}

unfoldable pub in_bounds : ℕ → TemplateIndex → Bool
in_bounds n [] = false
in_bounds n ((first, last) ∷ bounds) =
    if leb first n && leb n last then true else in_bounds n bounds

-- The loop of match_path over the positions.
unfoldable pub all_match : List TemplateIndex → List ℕ → Bool
all_match [] path = true
all_match (bounds ∷ template) [] = false
all_match (bounds ∷ template) (n ∷ path) =
    if in_bounds n bounds then all_match template path else false

-- BIP32PathTemplate.match_path
unfoldable pub match_path : KeyPath TemplateIndex → KeyPath ℕ → Bool
match_path self path =
    if not (same_bool self.is_partial path.is_partial)
    then false
    else if not (length path.indexes == length self.indexes)
    then false
    else all_match self.indexes path.indexes
