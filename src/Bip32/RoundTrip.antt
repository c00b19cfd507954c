-- ===== src/Bip32/RoundTrip.antt =====
-- BIP32Path of bitcointx/core/key.py: the text of a path is read back.
use python_bitcointx.Prelude.{
  ℕ, suc, ◌^◌, ◌≤◌, ◌<◌, ◌≡◌, ◌⊎◌, inl, inr, refl, sym, ap, ◌∙◌, Bool, true, false, Option, none,
  some, List, [], ◌∷◌, ◌++◌, length, arith, All, ne→==_false, le→leb,
}
use python_bitcointx.Result.{ok, ok-injective}
use python_bitcointx.Address.{Text}
use python_bitcointx.Bip32.Decimal.{IsDigit}
use python_bitcointx.Bip32.{
  is_space, any_space, join_with, ends_with, is_marker, KeyPath, from_text, map_indexes, or_else,
  check_partial, check_marker, parse_elements, parse_rest, parse_start, parse_string, read_argument,
  make_path, path_to_str, index_to_str, index_from_argument, bip32_path,
}
use python_bitcointx.Bip32.Element.{
  IsPlain, Expected, index_to_str-Reads, split-join, any_space-join, ends_with-append,
  ends_with_plain,
}

-- A text that starts with a digit and is plain.
abbrev IsText : Text → Type 0
IsText t = (c : ℕ) × (cs : Text) × (t ≡ (c ∷ cs)) × IsDigit c × All IsPlain t

texts-IsPlain : (parts : List Text) → All IsText parts → All (All IsPlain) parts
texts-IsPlain [] h = tt
texts-IsPlain (part ∷ parts) h = (h.0.4, texts-IsPlain parts h.1)

join_head :
    (part : Text) (parts : List Text)
    → IsText part
    → (c : ℕ) × (cs : Text) × (join_with 47 (part ∷ parts) ≡ (c ∷ cs)) × IsDigit c
unfolding join_with
join_head part [] (c, cs, e, d, all) = (c, cs, e, d)
join_head part (part' ∷ parts) (c, cs, e, d, all) = (
  c,
  cs ++ 47 ∷ join_with 47 (part' ∷ parts),
  ap (λ t. t ++ 47 ∷ join_with 47 (part' ∷ parts)) e,
  d,
)

ends_with-join :
    (part : Text) (parts : List Text)
    → All IsText (part ∷ parts)
    → ends_with 47 (join_with 47 (part ∷ parts)) ≡ false
unfolding join_with ends_with
ends_with-join part [] h = ends_with_plain part h.0.4
ends_with-join part (part' ∷ parts) h =
    let (c, cs, e, d) = join_head part' parts h.1.0 in
    ends_with-append part 47 (join_with 47 (part' ∷ parts))
    ∙ ap (λ t. ends_with 47 (47 ∷ t)) e
    ∙ sym (ap (ends_with 47) e)
    ∙ ends_with-join part' parts h.1

start_digit :
    (c : ℕ) (cs : Text) (e : Option ℕ)
    → IsDigit c
    → parse_start bip32_path (c ∷ cs) e ≡ parse_rest bip32_path e true (c ∷ cs)
unfolding parse_start
start_digit c [] e d = ground (arith, d.0, d.1)
start_digit c (c' ∷ cs) e d = ground (arith, d.0, d.1)

module _ (marker : ℕ) (is : is_marker marker ≡ true) where
  abbrev ReadsAll : Option ℕ → List ℕ → List Text → Type 0
  ReadsAll e ns parts =
      (map_indexes (λ n. ok (index_to_str marker n)) ns ≡ ok parts)
      × All IsText parts
      × (length parts ≡ length ns)
      × (e' : Option ℕ) × (parse_elements bip32_path e parts ≡ ok (ns, e'))
      × (Expected marker is e' × (e ≡ some marker → e' ≡ some marker))

  reads_indexes :
      (e : Option ℕ) (ns : List ℕ)
      → Expected marker is e
      → All (λ n. n < 2 ^ 32) ns
      → (parts : List Text) × ReadsAll e ns parts
  unfolding map_indexes parse_elements
  reads_indexes e [] h small = ([], (refl, tt, refl, e, refl, (h, λ x. x)))
  reads_indexes e (n ∷ ns) h small =
      let (c, cs, text, d, plain, e1, parsed, (h1, k1)) =
        index_to_str-Reads marker is e n h small.0 in
      let (parts, (made, texts, len, e2, parsed', (h2, k2))) = reads_indexes e1 ns h1 small.1 in
      (
        index_to_str marker n ∷ parts,
        (
          rw made refl,
          ((c, cs, text, d, plain), texts),
          ap suc len,
          e2,
          rw (parsed, parsed') refl,
          (h2, λ x. k2 (k1 x)),
        ),
      )

  -- What the text of a path with some index is parsed to.
  parse_rest-joined :
      (e e' : Option ℕ) (partial : Bool) (ns : List ℕ) (part : Text) (parts : List Text)
      → All IsText (part ∷ parts)
      → parse_elements bip32_path e (part ∷ parts) ≡ ok (ns, e')
      → parse_rest bip32_path e partial (join_with 47 (part ∷ parts)) ≡ ok (ns, e', partial)
  unfolding parse_rest
  parse_rest-joined e e' partial ns part parts texts parsed =
      rw
        (
          ends_with-join part parts texts,
          split-join part parts (texts-IsPlain (part ∷ parts) texts),
          parsed,
        )
        refl

  parse_partial :
      (e e' : Option ℕ) (ns : List ℕ) (part : Text) (parts : List Text)
      → All IsText (part ∷ parts)
      → parse_elements bip32_path e (part ∷ parts) ≡ ok (ns, e')
      → parse_string bip32_path (join_with 47 (part ∷ parts)) e ≡ ok (ns, e', true)
  unfolding parse_string
  parse_partial e e' ns part parts texts parsed =
      let (c, cs, head, d) = join_head part parts texts.0 in
      rw (any_space-join (part ∷ parts) (texts-IsPlain (part ∷ parts) texts)) (
        ap (λ t. parse_start bip32_path t e) head
        ∙ start_digit c cs e d
        ∙ sym (ap (parse_rest bip32_path e true) head)
        ∙ parse_rest-joined e e' true ns part parts texts parsed)

  parse_full :
      (e e' : Option ℕ) (ns : List ℕ) (part : Text) (parts : List Text)
      → All IsText (part ∷ parts)
      → parse_elements bip32_path e (part ∷ parts) ≡ ok (ns, e')
      → parse_string bip32_path (b'm' ∷ 47 ∷ join_with 47 (part ∷ parts)) e ≡ ok (ns, e', false)
  unfolding parse_string parse_start any_space is_space
  parse_full e e' ns part parts texts parsed =
      rw (any_space-join (part ∷ parts) (texts-IsPlain (part ∷ parts) texts))
        (parse_rest-joined e e' false ns part parts texts parsed)

-- The paths that the constructor makes.
pub record IsPath (p : KeyPath ℕ) : Type 0 where
  pub marked : is_marker p.hardened_marker ≡ true
  pub counted : length p.indexes ≤ 255
  pub bounded : All (λ n. n < 2 ^ 32) p.indexes

pub checked_indexes :
    (ns : List ℕ) → All (λ n. n < 2 ^ 32) ns → map_indexes index_from_argument ns ≡ ok ns
unfolding map_indexes index_from_argument
checked_indexes [] h = refl
checked_indexes (n ∷ ns) h =
    rw (le→leb n 0xffffffff (omega (arith, h.0)), checked_indexes ns h.1) refl

made :
    (p : KeyPath ℕ) (text : Text) (e e' : Option ℕ)
    → IsPath p
    → check_marker e ≡ ok tt
    → parse_string bip32_path text e ≡ ok (p.indexes, e', p.is_partial)
    → make_path bip32_path (from_text text) none e
      ≡ ok (record {
        indexes = p.indexes;
        hardened_marker = or_else e' 0x27;
        is_partial = p.is_partial;
      })
unfolding make_path read_argument check_partial
made p text e e' valid marker parsed =
    rw
      (
        marker,
        parsed,
        le→leb (length p.indexes) 255 valid.counted,
        checked_indexes p.indexes valid.bounded,
      )
      refl

abbrev Written : (marker : ℕ) → List ℕ → (partial : Bool) → Option ℕ → Type 0
Written marker ns partial e =
    (text : Text) × (e' : Option ℕ) × (path_to_str bip32_path
        (record { indexes = ns; hardened_marker = marker; is_partial = partial })
      ≡ ok text)
    × (parse_string bip32_path text e ≡ ok (ns, e', partial))
    × ((e' ≡ none) ⊎ (e' ≡ some marker))
    × (e ≡ some marker → e' ≡ some marker)

Written-parts :
    (marker n : ℕ) (ns : List ℕ) (partial : Bool) (e : Option ℕ) (is : is_marker marker ≡ true)
    (parts : List Text)
    → ReadsAll marker is e (n ∷ ns) parts
    → Written marker (n ∷ ns) partial e
unfolding path_to_str
Written-parts marker n ns partial e is [] all = absurd (omega (arith, all.2))
Written-parts marker n ns true e is (part ∷ parts) (joined, texts, len, e', parsed, (h, k)) = (
  join_with 47 (part ∷ parts),
  e',
  rw (ne→==_false (suc (length ns)) 0 (omega arith), joined) refl,
  parse_partial marker is e e' (n ∷ ns) part parts texts parsed,
  h,
  k,
)
Written-parts marker n ns false e is (part ∷ parts) (joined, texts, len, e', parsed, (h, k)) = (
  b'm' ∷ 47 ∷ join_with 47 (part ∷ parts),
  e',
  rw (ne→==_false (suc (length ns)) 0 (omega arith), joined) refl,
  parse_full marker is e e' (n ∷ ns) part parts texts parsed,
  h,
  k,
)

-- The text of a path, and what it is parsed to with or without the marker.
written :
    (marker : ℕ) (ns : List ℕ) (partial : Bool) (e : Option ℕ)
    → is_marker marker ≡ true
    → (e ≡ none) ⊎ (e ≡ some marker)
    → All (λ n. n < 2 ^ 32) ns
    → Written marker ns partial e
unfolding path_to_str
written marker [] true e is h small =
    ([], e, refl, unfold parse_string parse_start any_space in refl, h, λ x. x)
written marker [] false e is h small =
    (b'm' ∷ [], e, refl, unfold parse_string parse_start any_space is_space in refl, h, λ x. x)
written marker (n ∷ ns) partial e is h small =
    let (parts, all) = reads_indexes marker is e (n ∷ ns) h small in
    Written-parts marker n ns partial e is parts all

-- The text of a path is read back to the path, where the constructor is given its marker. Without it
-- the indexes are the same, and whether the path is partial. The path has at most 255 indexes below
-- 2 ^ 32, and one of the two markers.
pub path_round_trip :
    (p : KeyPath ℕ)
    → IsPath p
    → (text : Text) × (q : KeyPath ℕ) × (path_to_str bip32_path p ≡ ok text)
      × (make_path bip32_path (from_text text) none (some p.hardened_marker) ≡ ok p)
      × (make_path bip32_path (from_text text) none none ≡ ok q)
      × (q.indexes ≡ p.indexes)
      × (q.is_partial ≡ p.is_partial)
unfolding check_marker or_else
path_round_trip p valid =
    let m = p.hardened_marker in
    let (text, e, w, r, h, k) =
      written m p.indexes p.is_partial (some m) valid.marked (inr refl) valid.bounded in
    let (text', e', w', r', h', k') =
      written m p.indexes p.is_partial none valid.marked (inl refl) valid.bounded in
    let same : text' ≡ text = ok-injective (sym w' ∙ w) in
    (
      text,
      record { indexes = p.indexes; hardened_marker = or_else e' 0x27; is_partial = p.is_partial },
      w,
      made p text (some m) e valid (rw valid.marked refl) r
          ∙ ap
              (λ x.
                ok (record { indexes = p.indexes; hardened_marker = x; is_partial = p.is_partial }))
              (ap (λ x. or_else x 0x27) (k refl)),
      made p text none e' valid refl (ap (λ t. parse_string bip32_path t none) (sym same) ∙ r'),
      refl,
      refl,
    )
