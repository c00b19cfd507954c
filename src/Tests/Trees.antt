-- ===== src/Tests/Trees.antt =====
-- The theorems on trees of taproot scripts, the multisig helper and key paths, at concrete inputs.
use python_bitcointx.Prelude.{
  ◌&&◌, ℕ, ◌≡◌, refl, Bool, true, false, none, some, Option, List, [], ◌∷◌, ◌++◌, take, replicate,
  length-take, length-append, length-replicate, Bytes, bytes_eq, arith, if◌then◌else◌, All,
}
use python_bitcointx.Result.{ok, err, value_error}
use python_bitcointx.Address.{Text}
use python_bitcointx.Bip32.{
  KeyPath, path_to_str, make_path, bip32_path, is_marker, from_text, read_argument, parse_string,
  parse_start, parse_rest, parse_elements, parse_element, parse_split, check_marker, check_partial,
  map_indexes, index_from_argument, index_from_str, or_else, split, extend, unsnoc, ends_with,
  any_space, is_space, starts_with_zero, same_bool,
}
use python_bitcointx.Bip32.Decimal
use python_bitcointx.Bip32.Decimal.{all_digits, int}
use python_bitcointx.Address.Digits.{from_digits}
use python_bitcointx.Bip32.Template.{
  TemplateIndex, template_index, check_bounds, template_of, template_from_str, parse_template,
  parse_ranges, parse_range, parse_range_of, split_once, inside_braces, add_range,
  bip32_path_template, match_path,
}
use python_bitcointx.Bip32.Template.Exact.{exact_template}
use python_bitcointx.Bip32.RoundTrip.{path_round_trip}
use python_bitcointx.Taproot.{
  Leaf, script, tree, end, leaf_at, is_single_tree, is_script, any_script, check_leaf_version, Tree,
  leaf_version, make_tree,
}
use python_bitcointx.Taproot.Path.{Is32}
use python_bitcointx.Taproot.Returns.{IsShortLeaf, make_tree_returns, AllBuilt, a_script, none_left}
use python_bitcointx.Taproot.Key.{XOnly, TaprootScriptTree}
use python_bitcointx.Script.Multisig.{
  parse_standard_multisig_redeem_script, read_required, read_pubkeys, check_total, make_info,
  next_item, cooked, as_int, at_end, is_checkmultisig, all_different, contains_key,
}
use python_bitcointx.Script.{
  raw_iter, raw_iter_from, read_op, read_data, read_sized, decode_op_n, is_small_int,
}
use python_bitcointx.Script.Multisig.Helper.{
  Helper, make_helper, collect_partial, sign, construct_witness_stack,
}
use python_bitcointx.Script.Multisig.Helper.Completes.{
  sign_completes, make_helper-IsValid, Signed, stack_of,
}

-- 44'/0/7, partial, with the marker h
abbrev account_path : KeyPath ℕ
account_path = record {
  indexes = 0x8000002c ∷ 0 ∷ 7 ∷ [];
  hardened_marker = b'h';
  is_partial = true;
}

path_round_trip_example :
    (text : Text) × (q : KeyPath ℕ) × (path_to_str bip32_path account_path ≡ ok text)
    × (make_path bip32_path (from_text text) none (some b'h') ≡ ok account_path)
    × (make_path bip32_path (from_text text) none none ≡ ok q)
    × (q.indexes ≡ account_path.indexes)
    × (q.is_partial ≡ true)
path_round_trip_example = path_round_trip account_path (record {
  marked = unfold is_marker in refl;
  counted = omega arith;
  bounded = (omega arith, (omega arith, (omega arith, tt)));
})

abbrev short_text : Text
short_text = b'4' ∷ b'4' ∷ b'h' ∷ b'/' ∷ b'7' ∷ []

abbrev short_path : KeyPath ℕ
short_path = record { indexes = 0x8000002c ∷ 7 ∷ []; hardened_marker = b'h'; is_partial = true }

short_path_read : make_path bip32_path (from_text short_text) none none ≡ ok short_path
unfolding make_path read_argument parse_string parse_start parse_rest parse_elements parse_element
    parse_split check_marker check_partial map_indexes index_from_argument index_from_str or_else
    split extend unsnoc ends_with any_space is_space is_marker starts_with_zero all_digits int
    from_digits Decimal.is_digit
short_path_read = refl

exact_template_example :
    (t : KeyPath TemplateIndex) × (make_path bip32_path_template (from_text short_text) none none
      ≡ ok t)
    × (t.hardened_marker ≡ b'h')
    × ((q : KeyPath ℕ)
        → match_path t q ≡ (same_bool true q.is_partial && bytes_eq short_path.indexes q.indexes))
exact_template_example = exact_template short_text none none short_path short_path_read

-- `{0-5,6-3}` is joined to the bounds 0 and 3, though 6-3 is no range.
inverted_range :
    template_from_str (b'{' ∷ b'0' ∷ b'-' ∷ b'5' ∷ b',' ∷ b'6' ∷ b'-' ∷ b'3' ∷ b'}' ∷ []) false
    ≡ ok ((0, 3) ∷ [])
unfolding template_from_str template_of parse_template parse_ranges parse_range parse_range_of
    split_once inside_braces add_range template_index check_bounds index_from_str split extend
    unsnoc any_space is_space starts_with_zero all_digits int from_digits Decimal.is_digit same_bool
inverted_range = refl

abbrev hash_32 : Bytes → Bytes
hash_32 b = take 32 (b ++ replicate 32 0)

hash_32-Is32 : (b : Bytes) → Is32 (hash_32 b)
hash_32-Is32 b = omega (
  arith,
  length-take 32 (b ++ replicate 32 0),
  length-append b (replicate 32 0),
  length-replicate {A = ℕ} 32 0,
)

abbrev three_leaves : List Leaf
three_leaves =
    script (some (b'a' ∷ [])) (0x51 ∷ [])
    ∷ script none (0x52 ∷ [])
    ∷ script (some (b'b' ∷ [])) (0x53 ∷ [])
    ∷ []

three_leaves-AllBuilt : AllBuilt hash_32 hash_32 three_leaves
three_leaves-AllBuilt = a_script _ _ (a_script _ _ (a_script _ _ none_left))

three_leaves-short : All (IsShortLeaf hash_32 hash_32) three_leaves
three_leaves-short = unfold IsShortLeaf in (omega arith, (omega arith, (omega arith, tt)))

make_tree_returns_example :
    (t : Tree) × (make_tree hash_32 hash_32 three_leaves none false ≡ ok t)
    × (leaf_version t ≡ 0xc0)
make_tree_returns_example =
    make_tree_returns hash_32 hash_32 hash_32-Is32 hash_32-Is32 three_leaves none false 0xc0
      three_leaves-AllBuilt three_leaves-short (omega arith) (unfold is_single_tree in refl)
      (unfold check_leaf_version any_script is_script in refl)

-- A curve on which every key is valid, and the tweaked key is the hash that it is tweaked with.
abbrev x_only : XOnly
x_only = record {
  taptweak_hasher = hash_32;
  is_fullyvalid = λ key. true;
  tweak_add = λ key tweak. some (tweak, true);
  tweak_add_check = λ tweaked parity base tweak. bytes_eq tweaked tweak;
}

abbrev key_32 : Bytes
key_32 = replicate 32 7

abbrev two_leaves : List Leaf
two_leaves = script (some (b'a' ∷ [])) (0x51 ∷ []) ∷ script none (0x52 ∷ []) ∷ []

abbrev hash_of_first : Bytes
hash_of_first = 0xc0 ∷ 1 ∷ 0x51 ∷ replicate 29 0

abbrev hash_of_second : Bytes
hash_of_second = 0xc0 ∷ 1 ∷ 0x52 ∷ replicate 29 0

abbrev keyed_tree : TaprootScriptTree
keyed_tree = record {
  script_tree = tree 0xc0 hash_of_first (
      leaf_at (script (some (b'a' ∷ [])) (0x51 ∷ [])) ([] ∷ hash_of_second ∷ [])
        (leaf_at (script none (0x52 ∷ [])) ([] ∷ hash_of_first ∷ []) end));
  internal_pubkey = some key_32;
  output_pubkey = some key_32;
  parity = some true;
}

abbrev any_key : Bytes → Bool
any_key key = true

-- One of two keys.
abbrev one_of_two : Bytes
one_of_two = 0x51 ∷ 2 ∷ 2 ∷ 7 ∷ 2 ∷ 3 ∷ 8 ∷ 0x52 ∷ 0xae ∷ []

abbrev empty_helper : Helper
empty_helper = record {
  script = one_of_two;
  script_info = record { required = 1; pubkeys = (2 ∷ 7 ∷ []) ∷ (3 ∷ 8 ∷ []) ∷ [] };
  signatures = none ∷ none ∷ [];
}

one_of_two_parsed : make_helper any_key one_of_two ≡ ok empty_helper
unfolding make_helper parse_standard_multisig_redeem_script read_required read_pubkeys check_total
    make_info next_item cooked as_int at_end is_checkmultisig all_different contains_key raw_iter
    raw_iter_from read_op read_data read_sized decode_op_n is_small_int
one_of_two_parsed = refl

-- A signer that has no key.
abbrev no_keys : Bytes → Option Bytes
no_keys key = none

abbrev second_signature : List (Bytes × Bytes)
second_signature = (3 ∷ 8 ∷ [], 0x30 ∷ []) ∷ []

sign_completes_example :
    (h1 : Helper) × (new : List (Bytes × Bytes)) × (complete : Bool) × (h2 : Helper)
    × (collect_partial empty_helper second_signature ≡ ok h1)
    × (sign no_keys second_signature empty_helper ≡ ok (new, complete, h2))
    × (h1.script_info ≡ empty_helper.script_info)
    × Signed any_key no_keys h1 complete h2
    × (construct_witness_stack any_key h2
        ≡ (if complete then ok (stack_of h2) else err value_error))
sign_completes_example =
    sign_completes any_key no_keys second_signature empty_helper
      (make_helper-IsValid any_key one_of_two empty_helper one_of_two_parsed)
      (unfold contains_key in refl, tt)
