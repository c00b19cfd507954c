-- ===== src/Taproot.antt =====
-- bitcointx/core/script.py: TaprootScriptTree, and bitcointx/core/key.py: the tweak of its key.
--
-- A tree is what the constructor keeps of it: the leaf version, the merkle root, and the leaves with
-- their paths. The internal key is set on the outermost tree only, and is kept beside it.
pub mod Path
pub mod Found
pub mod Named
pub mod Returns
pub mod Key
use python_bitcointx.Prelude.{
  ℕ, zero, suc, ◌+◌, ◌-◌, ◌/◌, ◌%◌, Bool, true, false, not, ◌&&◌, ◌||◌, Option, none, some, List,
  [], ◌∷◌, ◌++◌, length, take, drop, Bytes, bytes_eq, ltb, leb, ◌==◌, if◌then◌else◌,
}
use python_bitcointx.Result.{
  Result, ok, err, ◌>>=◌, ◌>>◌, guard, value_error, assertion_error, recursion_error,
}
use python_bitcointx.Serialize.{serialize_bytes}
use python_bitcointx.Address.{Text}

-- A leaf is a script, with the name it may have, or a tree.
mutual
  pub data Leaf : Type 0 where
    script : Option Text → Bytes → Leaf
    subtree : Tree → Leaf

  pub data Tree : Type 0 where
    tree : (leaf_version : ℕ) → (merkle_root : Bytes) → LeavesWithPaths → Tree

  pub data LeavesWithPaths : Type 0 where
    end : LeavesWithPaths
    leaf_at : Leaf → (path : List Bytes) → LeavesWithPaths → LeavesWithPaths

abbrev pub leaf_version : Tree → ℕ
leaf_version (tree version root leaves) = version

abbrev pub merkle_root : Tree → Bytes
merkle_root (tree version root leaves) = root

abbrev pub leaves_with_paths : Tree → LeavesWithPaths
leaves_with_paths (tree version root leaves) = leaves

-- `b''.join(path)`
unfoldable pub join : List Bytes → Bytes
join [] = []
join (b ∷ bs) = b ++ join bs

-- `a < b` on bytes
unfoldable pub bytes_ltb : Bytes → Bytes → Bool
bytes_ltb [] [] = false
bytes_ltb [] (b ∷ bs) = true
bytes_ltb (a ∷ as') [] = false
bytes_ltb (a ∷ as') (b ∷ bs) = ltb a b || (a == b && bytes_ltb as' bs)

-- The paths of leaves, from the path of the branch that they hang on.
abbrev pub Collector : Type 0
Collector = List Bytes → List (List Bytes)

-- The path that a tree among the leaves starts with: nothing, if it holds a single script.
unfoldable pub own_path : (root : Bytes) → LeavesWithPaths → Result Bytes
own_path root (leaf_at (script name code) path end) = ok []
own_path root (leaf_at (subtree t) path end) = err assertion_error
own_path root end = ok root
own_path root (leaf_at leaf path (leaf_at leaf' path' leaves)) = ok root

unfoldable pub is_script : Leaf → Bool
is_script (script name code) = true
is_script (subtree t) = false

unfoldable pub any_script : List Leaf → Bool
any_script [] = false
any_script (leaf ∷ leaves) = is_script leaf || any_script leaves

unfoldable pub is_single_tree : List Leaf → Bool
is_single_tree (subtree t ∷ []) = true
is_single_tree (script name code ∷ []) = false
is_single_tree [] = false
is_single_tree (leaf ∷ leaf' ∷ leaves) = false

unfoldable pub is_conventional : ℕ → Bool
is_conventional version =
    (leb 0xc0 version && ltb version 0x100 && version % 2 == 0)
    || (version == 0x66
        || (version == 0x7e
            || (version == 0x80
                || (version == 0x84
                    || (version == 0x96
                        || (version == 0x98
                            || (version == 0xba || (version == 0xbc || version == 0xbe))))))))

unfoldable pub check_leaf_version : List Leaf → Option ℕ → (accept_unconventional : Bool) → Result ℕ
check_leaf_version leaves none accept = ok 0xc0
check_leaf_version leaves (some version) accept = do
  guard (any_script leaves) value_error
  guard (version % 2 == 0) value_error
  guard (leb version 254) value_error
  guard (accept || is_conventional version) value_error
  ok version

-- `for i, leaf in enumerate(leaves)`: each leaf with its path
unfoldable pub pair_leaves : List Leaf → List (List Bytes) → Result LeavesWithPaths
pair_leaves [] [] = ok end
pair_leaves [] (path ∷ paths) = err assertion_error
pair_leaves (leaf ∷ leaves) [] = err assertion_error
pair_leaves (leaf ∷ leaves) (path ∷ paths) = do
  rest ← pair_leaves leaves paths
  ok (leaf_at leaf path rest)

-- The hash functions with the tags TapLeaf and TapBranch.
module _ (tapleaf_hasher tapbranch_hasher : Bytes → Bytes) where
  unfoldable pub leaf_hash : (version : ℕ) → Bytes → Result Bytes
  leaf_hash version code = do s ← serialize_bytes code; ok (tapleaf_hasher (version ∷ s))

  unfoldable pub branch_hash : (left_h right_h : Bytes) → Bytes
  branch_hash left_h right_h =
      if bytes_ltb right_h left_h
      then tapbranch_hasher (right_h ++ left_h)
      else tapbranch_hasher (left_h ++ right_h)

  -- TaprootScriptTree._traverse on one leaf
  unfoldable pub traverse_leaf : (version : ℕ) → Leaf → Result (Bytes × Collector)
  traverse_leaf version (script name code) = do
    h ← leaf_hash version code
    ok (h, λ parent_path. ([] ∷ parent_path) ∷ [])
  traverse_leaf version (subtree t) = do
    path ← own_path (merkle_root t) (leaves_with_paths t)
    ok (merkle_root t, λ parent_path. (path ∷ parent_path) ∷ [])

  abbrev pub join_branches : Bytes × Collector → Bytes × Collector → Bytes × Collector
  join_branches (left_h, left_collector) (right_h, right_collector) = (
    branch_hash left_h right_h,
    λ parent_path. left_collector (right_h ∷ parent_path) ++ right_collector (left_h ∷ parent_path),
  )

  -- TaprootScriptTree._traverse. The fuel is the depth of recursion.
  unfoldable pub traverse : (fuel version : ℕ) → List Leaf → Result (Bytes × Collector)
  traverse zero version leaves = err recursion_error
  traverse (suc fuel) version [] = err recursion_error
  traverse (suc fuel) version (leaf ∷ []) = traverse_leaf version leaf
  traverse (suc fuel) version (leaf ∷ leaf' ∷ leaves) = do
    let split_pos = length (leaf ∷ leaf' ∷ leaves) / 2
    left ← traverse fuel version (take split_pos (leaf ∷ leaf' ∷ leaves))
    right ← traverse fuel version (drop split_pos (leaf ∷ leaf' ∷ leaves))
    ok (join_branches left right)

  -- TaprootScriptTree.__init__, without the internal key
  unfoldable pub make_tree : List Leaf → Option ℕ → (accept_unconventional : Bool) → Result Tree
  make_tree leaves version accept = do
    guard (not (length leaves == 0)) value_error
    guard (not (is_single_tree leaves)) value_error
    v ← check_leaf_version leaves version accept
    (mr, collect_paths) ← traverse (length leaves) v leaves
    leaves_paths ← pair_leaves leaves (collect_paths [])
    ok (tree v mr leaves_paths)

unfoldable pub has_name : Option Text → Text → Bool
has_name none name = false
has_name (some n) name = bytes_eq n name

unfoldable pub first_found {ℓ} : {A : Type ℓ} → Option A → Option A → Option A
first_found none later = later
first_found (some found) later = some found

-- `(result[0], result[1] + b''.join(path), result[2])`, if there is a result
unfoldable pub with_path : List Bytes → Option (Bytes × Bytes × ℕ) → Option (Bytes × Bytes × ℕ)
with_path path none = none
with_path path (some (s, mp, lv)) = some (s, mp ++ join path, lv)

-- TaprootScriptTree.get_script_with_path_and_leaf_version
unfoldable mutual
  pub get_script_with_path_and_leaf_version : Text → Tree → Option (Bytes × Bytes × ℕ)
  get_script_with_path_and_leaf_version name (tree version root leaves) =
      get_from name version leaves

  pub get_from : Text → (version : ℕ) → LeavesWithPaths → Option (Bytes × Bytes × ℕ)
  get_from name version end = none
  get_from name version (leaf_at leaf path leaves) =
      first_found (get_at name version leaf path) (get_from name version leaves)

  pub get_at : Text → (version : ℕ) → Leaf → (path : List Bytes) → Option (Bytes × Bytes × ℕ)
  get_at name version (script n code) path =
      if has_name n name then some (code, join path, version) else none
  get_at name version (subtree t) path =
      with_path (drop 1 path) (get_script_with_path_and_leaf_version name t)
