-- ===== src/Bip32/Template/Exact.antt =====
-- BIP32PathTemplate: the text of a path, read as a template.
use python_bitcointx.Prelude.{
  ℕ, suc, ◌<◌, ◌≡◌, ◌^◌, ◌∙◌, refl, sym, ap, inl, inr, Bool, true, false, not, ◌&&◌, Option, none,
  some, List, [], ◌∷◌, map, arith, length, bytes_eq, ltb, leb, ltb→lt, le→leb, le→ltb_false, leb→le,
  ◌==◌, Bool-cases, if◌then◌else◌,
}
use python_bitcointx.Result.{ok, ◌>>◌, guard, value_error, >>=-eq-ok, guard_passes, ok-injective}
use python_bitcointx.Address.{Text}
use python_bitcointx.Bip32.Decimal.{is_digit, all_digits, int}
use python_bitcointx.Bip32.{
  bip32_hardened_key_offset, is_space, any_space, split, is_marker, KeyPath, from_text, map_indexes,
  or_else, same_bool, check_partial, check_marker, parse_split, parse_element, parse_elements,
  parse_rest, parse_start, parse_string, read_argument, make_path, index_from_str,
  index_from_argument, bip32_path, unsnoc, starts_with_zero, ends_with,
}
use python_bitcointx.Bip32.Template.{
  TemplateIndex, check_bounds, template_index, template_of, template_from_str, bip32_path_template,
  in_bounds, all_match, match_path,
}

abbrev single : ℕ → TemplateIndex
single n = (n, n) ∷ []

digits_no_space : (s : Text) → all_digits s ≡ true → any_space s ≡ false
unfolding all_digits any_space is_space is_digit
digits_no_space [] h = refl
digits_no_space (c ∷ cs) h = ground (arith, digits_no_space cs)

index_from_str_takes :
    (s : Text) (is_hardened : Bool) (n : ℕ)
    → index_from_str s is_hardened ≡ ok n
    → (any_space s ≡ false) × (n < 2 ^ 32)
unfolding index_from_str
index_from_str_takes s is_hardened n h =
    let (digits, h1) = guard_passes (not (length s == 0) && all_digits s) _ _ h in
    let (plain, h2) = guard_passes (not (ltb 1 (length s) && starts_with_zero s)) _ _ h1 in
    let (small, h3) = guard_passes (ltb (int s) bip32_hardened_key_offset) _ _ h2 in
    let all : all_digits s ≡ true = ground arith in
    (digits_no_space s all, ground (arith, ltb→lt _ _ small))

template_index-single : (n : ℕ) → n < 2 ^ 32 → template_index (single n) ≡ ok (single n)
unfolding template_index check_bounds same_bool
template_index-single n h = elim (Bool-cases (ltb n bip32_hardened_key_offset)) [
  | inl low ↦
      rw
        (
          le→leb n 0xffffffff (omega (arith, h)),
          low,
          le→ltb_false n n (omega arith),
          le→ltb_false n 0 (omega arith),
        )
        refl
  | inr high ↦
      rw
        (
          le→leb n 0xffffffff (omega (arith, h)),
          high,
          le→ltb_false n n (omega arith),
          le→ltb_false n 0 (omega arith),
        )
        refl
]

template_from_str-index :
    (s : Text) (is_hardened : Bool) (n : ℕ)
    → index_from_str s is_hardened ≡ ok n
    → template_from_str s is_hardened ≡ ok (single n)
unfolding template_from_str template_of
template_from_str-index s is_hardened n h =
    let (plain, small) = index_from_str_takes s is_hardened n h in
    rw (plain, h) (template_index-single n small)

parse_split-single :
    (e e' : Option ℕ) (s : Text) (cut : Option (Text × ℕ)) (n : ℕ)
    → parse_split bip32_path e s cut ≡ ok (n, e')
    → parse_split bip32_path_template e s cut ≡ ok (single n, e')
unfolding parse_split
parse_split-single e e' s none n h = cc
parse_split-single e e' s (some (front, last)) n h = elim (Bool-cases (is_marker last)) [
  | inl marked ↦
      let (expected, h1) = guard_passes (or_else e last == last) _ _ (rw marked at h) in
      let (i, read, h2) = >>=-eq-ok (index_from_str front true) _ h1 in
      let both = ok-injective h2 in
      rw (marked, expected, template_from_str-index front true i read)
        (ap (λ r. ok (single r.0, r.1)) both)
  | inr plain ↦
      let (i, read, h1) = >>=-eq-ok (index_from_str s false) _ (rw plain at h) in
      rw (plain, template_from_str-index s false i read)
        (ap (λ r. ok (single r.0, r.1)) (ok-injective h1))
]

parse_elements-single :
    (e e' : Option ℕ) (parts : List Text) (ns : List ℕ)
    → parse_elements bip32_path e parts ≡ ok (ns, e')
    → parse_elements bip32_path_template e parts ≡ ok (map single ns, e')
unfolding parse_elements parse_element
parse_elements-single e e' [] ns h = ap (λ r. ok (map single r.0, r.1)) (ok-injective h)
parse_elements-single e e' (elt ∷ elts) ns h =
    let ((n, e1), read, h1) = >>=-eq-ok (parse_split bip32_path e elt (unsnoc elt)) _ h in
    let ((ms, e2), reads, h2) = >>=-eq-ok (parse_elements bip32_path e1 elts) _ h1 in
    rw (parse_split-single e e1 elt (unsnoc elt) n read, parse_elements-single e1 e2 elts ms reads)
      (ap (λ r. ok (map single r.0, r.1)) (ok-injective h2))

abbrev Parsed : Type 0
Parsed = List ℕ × Option ℕ × Bool

abbrev singles : Parsed → List TemplateIndex × Option ℕ × Bool
singles (ns, e, partial) = (map single ns, e, partial)

parse_rest-single :
    (e : Option ℕ) (partial : Bool) (s : Text) (r : Parsed)
    → parse_rest bip32_path e partial s ≡ ok r
    → parse_rest bip32_path_template e partial s ≡ ok (singles r)
unfolding parse_rest
parse_rest-single e partial s r h =
    let (closed, h1) = guard_passes (not (ends_with b'/' s)) _ _ h in
    let ((ns, e'), reads, h2) = >>=-eq-ok (parse_elements bip32_path e (split b'/' s)) _ h1 in
    rw (closed, parse_elements-single e e' (split b'/' s) ns reads)
      (ap (λ x. ok (singles x)) (ok-injective h2))

parse_start-single :
    (s : Text) (e : Option ℕ) (r : Parsed)
    → parse_start bip32_path s e ≡ ok r
    → parse_start bip32_path_template s e ≡ ok (singles r)
unfolding parse_start
parse_start-single [] e r h = ap (λ x. ok (singles x)) (ok-injective h)
parse_start-single (c ∷ []) e r h = elim (Bool-cases (c == b'm')) [
  | inl master ↦ rw master (ap (λ x. ok (singles x)) (ok-injective (rw master at h)))
  | inr other ↦ elim (Bool-cases (c == b'/')) [
    | inl slash ↦ cc (rw (other, slash) at h)
    | inr first ↦ rw (other, first) (parse_rest-single e true (c ∷ []) r (rw (other, first) at h))
  ]
]
parse_start-single (c ∷ d ∷ s) e r h = elim (Bool-cases ((c == b'm') && (d == b'/'))) [
  | inl master ↦ rw master (parse_rest-single e false s r (rw master at h))
  | inr other ↦ elim (Bool-cases (c == b'/')) [
    | inl slash ↦ cc (rw (other, slash) at h)
    | inr first ↦
        rw (other, first) (parse_rest-single e true (c ∷ d ∷ s) r (rw (other, first) at h))
  ]
]

checked_takes :
    (is js : List ℕ)
    → map_indexes index_from_argument is ≡ ok js
    → (js ≡ is) × (map_indexes template_index (map single is) ≡ ok (map single is))
unfolding map_indexes index_from_argument
checked_takes [] js h = (sym (ok-injective h), refl)
checked_takes (i ∷ is) js h =
    let (k, checked, h1) = >>=-eq-ok (guard (leb i 0xffffffff) value_error >> ok i) _ h in
    let (small, same) = guard_passes (leb i 0xffffffff) _ _ checked in
    let (ks, rest, h2) = >>=-eq-ok (map_indexes index_from_argument is) _ h1 in
    let (e, made) = checked_takes is ks rest in
    (
      sym (ok-injective h2) ∙ ap (λ x. x ∷ ks) (sym (ok-injective same)) ∙ ap (λ x. i ∷ x) e,
      rw (template_index-single i (omega (arith, leb→le _ _ small)), made) refl,
    )

length-singles : (ns : List ℕ) → length (map single ns) ≡ length ns
length-singles [] = refl
length-singles (n ∷ ns) = ap suc (length-singles ns)

all_match-singles :
    (ns ms : List ℕ)
    → (if not (length ms == length (map single ns)) then false else all_match (map single ns) ms)
      ≡ bytes_eq ns ms
unfolding all_match in_bounds
all_match-singles [] [] = refl
all_match-singles [] (m ∷ ms) = ground arith
all_match-singles (n ∷ ns) [] = ground arith
all_match-singles (n ∷ ns) (m ∷ ms) = ground (arith, all_match-singles ns ms)

read_argument-single :
    (text : Text) (is_partial : Option Bool) (marker : Option ℕ) (r : Parsed)
    → read_argument bip32_path (from_text text) is_partial marker ≡ ok r
    → read_argument bip32_path_template (from_text text) is_partial marker ≡ ok (singles r)
unfolding read_argument parse_string
read_argument-single text is_partial marker r h =
    let ((ns, e, actual), parsed, h1) = >>=-eq-ok (parse_string bip32_path text marker) _ h in
    let (plain, h2) = guard_passes (not (any_space text)) _ _ parsed in
    let (partial, agrees, h3) = >>=-eq-ok (check_partial is_partial actual) _ h1 in
    rw (plain, parse_start-single text marker (ns, e, actual) h2, agrees)
      (ap (λ x. ok (singles x)) (ok-injective h3))

match_path-singles :
    (p q : KeyPath ℕ)
    → match_path
        (record {
          indexes = map single p.indexes;
          hardened_marker = p.hardened_marker;
          is_partial = p.is_partial;
        })
        q
      ≡ (same_bool p.is_partial q.is_partial && bytes_eq p.indexes q.indexes)
unfolding match_path
match_path-singles p q = elim (Bool-cases (same_bool p.is_partial q.is_partial)) [
  | inl same ↦ rw same (all_match-singles p.indexes q.indexes)
  | inr other ↦ rw other refl
]

-- If a text is accepted as a path, it is accepted as a template too, with the same marker, and the
-- template matches exactly the paths that have the same indexes and are partial or full as the path is.
pub exact_template :
    (text : Text) (is_partial : Option Bool) (marker : Option ℕ) (p : KeyPath ℕ)
    → make_path bip32_path (from_text text) is_partial marker ≡ ok p
    → (t : KeyPath TemplateIndex) × (make_path bip32_path_template
          (from_text text)
          is_partial
          marker
        ≡ ok t)
      × (t.hardened_marker ≡ p.hardened_marker)
      × ((q : KeyPath ℕ)
          → match_path t q ≡ (same_bool p.is_partial q.is_partial && bytes_eq p.indexes q.indexes))
unfolding make_path
exact_template text is_partial marker p h =
    let (u, checked, h1) = >>=-eq-ok (check_marker marker) _ h in
    let ((is, e, partial), read, h2) =
      >>=-eq-ok (read_argument bip32_path (from_text text) is_partial marker) _ h1 in
    let (fits, h3) = guard_passes (leb (length is) 255) _ _ h2 in
    let (js, indexes, h4) = >>=-eq-ok (map_indexes index_from_argument is) _ h3 in
    let (same, made) = checked_takes is js indexes in
    let path = ok-injective h4 in
    (
      record {
        indexes = map single p.indexes;
        hardened_marker = p.hardened_marker;
        is_partial = p.is_partial;
      },
      rw
          (
            checked,
            read_argument-single text is_partial marker (is, e, partial) read,
            length-singles is,
            fits,
            made,
            ← path,
            same,
          )
          refl,
      refl,
      match_path-singles p,
    )
