-- ===== src/Taproot/Returns.antt =====
-- TaprootScriptTree of bitcointx/core/script.py: the constructor returns.
use python_bitcointx.Prelude.{
  ℕ, zero, suc, ◌/◌, ◌^◌, ◌≤◌, ◌<◌, ◌≡◌, inl, refl, Bool, true, false, not, Option, List, [], ◌∷◌,
  ◌++◌, arith, length, take, drop, length-take, length-drop, Bytes, All, All-take, All-drop, ◌==◌,
}
use python_bitcointx.Result.{ok, ok-injective, >>=-eq-ok, guard_passes}
use python_bitcointx.Serialize.{serialize_bytes}
use python_bitcointx.Serialize.VarInt.{varint_round_trip}
use python_bitcointx.Address.{Text}
use python_bitcointx.Taproot.{
  Leaf, script, subtree, Tree, tree, LeavesWithPaths, end, leaf_at, merkle_root, leaf_version,
  leaves_with_paths, make_tree, leaf_hash, own_path, traverse_leaf, traverse, join_branches,
  Collector, pair_leaves, check_leaf_version, is_single_tree,
}
use python_bitcointx.Taproot.Path.{
  Is32, climb, IsSound, IsSoundLeaf, AllLead, traverse-Collects, make_tree-IsSound,
}

module _ (tapleaf tapbranch : Bytes → Bytes) (v : ℕ) where
  abbrev pub LeafReturns : Leaf → Type 0
  LeafReturns leaf = (r : Bytes × Collector) × (traverse_leaf tapleaf tapbranch v leaf ≡ ok r)

  -- As much fuel as there are leaves is enough.
  pub traverse_returns :
      (fuel : ℕ) (leaves : List Leaf)
      → All LeafReturns leaves
      → 1 ≤ length leaves
      → length leaves ≤ fuel
      → (r : Bytes × Collector) × (traverse tapleaf tapbranch fuel v leaves ≡ ok r)
  unfolding traverse
  traverse_returns zero leaves h low enough = absurd (omega arith)
  traverse_returns (suc fuel) [] h low enough = absurd (omega arith)
  traverse_returns (suc fuel) (leaf ∷ []) h low enough = h.0
  traverse_returns (suc fuel) (leaf ∷ leaf' ∷ leaves) h low enough =
      let all = leaf ∷ leaf' ∷ leaves in
      let n = length all / 2 in
      let (l, e) =
        traverse_returns fuel (take n all) (All-take LeafReturns n all h)
          (omega (arith, length-take n all)) (omega (arith, length-take n all)) in
      let (r, f) =
        traverse_returns fuel (drop n all) (All-drop LeafReturns n all h)
          (omega (arith, length-drop n all)) (omega (arith, length-drop n all)) in
      (join_branches tapleaf tapbranch l r, rw (e, f) refl)

serialize_bytes_returns : (b : Bytes) → length b < 2 ^ 64 → (s : Bytes) × (serialize_bytes b ≡ ok s)
unfolding serialize_bytes
serialize_bytes_returns b h =
    let (s, e, r) = varint_round_trip true (length b) [] h (inl refl) in (s ++ b, rw e refl)

-- A tree that a constructor has made has a path for a tree that it is put into.
own_path_returns :
    (root : Bytes) (leaves : List Leaf) (paths : List (List Bytes)) (r : LeavesWithPaths)
    → is_single_tree leaves ≡ false
    → pair_leaves leaves paths ≡ ok r
    → (p : Bytes) × (own_path root r ≡ ok p)
unfolding pair_leaves is_single_tree own_path
own_path_returns root [] [] r s e = rw (← ok-injective e) (root, refl)
own_path_returns root [] (p ∷ ps) r s e = absurd (ground arith)
own_path_returns root (l ∷ ls) [] r s e = absurd (ground arith)
own_path_returns root (script n c ∷ []) (p ∷ []) r s e = rw (← ok-injective e) ([], refl)
own_path_returns root (script n c ∷ []) (p ∷ q ∷ ps) r s e = absurd (ground arith)
own_path_returns root (subtree t ∷ []) (p ∷ ps) r s e = absurd (ground arith)
own_path_returns root (l ∷ m ∷ ls) (p ∷ []) r s e = absurd (ground arith)
own_path_returns root (l ∷ m ∷ ls) (p ∷ q ∷ ps) r s e =
    let (rest, f, g) = >>=-eq-ok (pair_leaves (m ∷ ls) (q ∷ ps)) _ e in
    let (rest', f', g') = >>=-eq-ok (pair_leaves ls ps) _ f in
    rw (← ok-injective g) (rw (← ok-injective g') (root, refl))

module _ (tapleaf tapbranch : Bytes → Bytes) where
  -- The trees that the constructor makes, of scripts and of such trees.
  mutual
    pub data Built : Tree → Type 0 where
      built :
          {leaves : List Leaf} {t : Tree} (version : Option ℕ) (accept : Bool)
          → AllBuilt leaves
          → make_tree tapleaf tapbranch leaves version accept ≡ ok t
          → Built t

    pub data AllBuilt : List Leaf → Type 0 where
      none_left : AllBuilt []
      a_script :
          {leaves : List Leaf} (name : Option Text) (code : Bytes)
          → AllBuilt leaves
          → AllBuilt (script name code ∷ leaves)
      a_tree :
          {leaves : List Leaf} {t : Tree}
          → Built t
          → AllBuilt leaves
          → AllBuilt (subtree t ∷ leaves)

  mutual
    unfolding IsSound

    pub Built-IsSound :
        (leaf_32 : (b : Bytes) → Is32 (tapleaf b)) (branch_32 : (b : Bytes) → Is32 (tapbranch b))
        {t : Tree}
        → Built t
        → IsSound tapleaf tapbranch t
    Built-IsSound leaf_32 branch_32 {t} (built {leaves} version accept all e) =
        make_tree-IsSound tapleaf tapbranch leaf_32 branch_32 leaves version accept t
          (AllBuilt-IsSound leaf_32 branch_32 all) e

    pub AllBuilt-IsSound :
        (leaf_32 : (b : Bytes) → Is32 (tapleaf b)) (branch_32 : (b : Bytes) → Is32 (tapbranch b))
        {leaves : List Leaf}
        → AllBuilt leaves
        → All (IsSoundLeaf tapleaf tapbranch) leaves
    AllBuilt-IsSound leaf_32 branch_32 none_left = tt
    AllBuilt-IsSound leaf_32 branch_32 (a_script name code all) =
        (tt, AllBuilt-IsSound leaf_32 branch_32 all)
    AllBuilt-IsSound leaf_32 branch_32 (a_tree t all) =
        (Built-IsSound leaf_32 branch_32 t, AllBuilt-IsSound leaf_32 branch_32 all)

  Built-own_path :
      {t : Tree} → Built t → (p : Bytes) × (own_path (merkle_root t) (leaves_with_paths t) ≡ ok p)
  unfolding make_tree
  Built-own_path {t} (built {leaves} version accept all e) =
      let (a, e1) = guard_passes (not (length leaves == 0)) _ _ e in
      let (b, e2) = guard_passes (not (is_single_tree leaves)) _ _ e1 in
      let (v, w, e3) = >>=-eq-ok (check_leaf_version leaves version accept) _ e2 in
      let (r, x, e4) = >>=-eq-ok (traverse tapleaf tapbranch (length leaves) v leaves) _ e3 in
      let (lps, y, e5) = >>=-eq-ok (pair_leaves leaves (r.1 [])) _ e4 in
      rw (← ok-injective e5) (own_path_returns r.0 leaves (r.1 []) lps (ground arith) y)

  -- The scripts among the leaves have lengths that fit in 64 bits.
  unfoldable pub IsShortLeaf : Leaf → Type 0
  IsShortLeaf (script name code) = length code < 2 ^ 64
  IsShortLeaf (subtree t) = Unit

  leaves_return :
      (v : ℕ) {leaves : List Leaf}
      → AllBuilt leaves
      → All IsShortLeaf leaves
      → All (LeafReturns tapleaf tapbranch v) leaves
  unfolding traverse_leaf leaf_hash IsShortLeaf
  leaves_return v none_left s = tt
  leaves_return v (a_script name code all) s =
      let (b, e) = serialize_bytes_returns code s.0 in
      (
        ((tapleaf (v ∷ b), λ parent_path. ([] ∷ parent_path) ∷ []), rw e refl),
        leaves_return v all s.1,
      )
  leaves_return v (a_tree {leaves} {t} made all) s =
      let (p, e) = Built-own_path made in
      (((merkle_root t, λ parent_path. (p ∷ parent_path) ∷ []), rw e refl), leaves_return v all s.1)

  pair_leaves_returns :
      (v : ℕ) (root : Bytes) (leaves : List Leaf) (paths : List (List Bytes))
      → AllLead tapleaf tapbranch v root leaves paths
      → (r : LeavesWithPaths) × (pair_leaves leaves paths ≡ ok r)
  unfolding pair_leaves AllLead
  pair_leaves_returns v root [] [] h = (end, refl)
  pair_leaves_returns v root [] (p ∷ ps) h = absurd h
  pair_leaves_returns v root (l ∷ ls) [] h = absurd h
  pair_leaves_returns v root (l ∷ ls) (p ∷ ps) h =
      let (r, e) = pair_leaves_returns v root ls ps h.1 in (leaf_at l p r, rw e refl)

  -- The constructor returns for leaves that are scripts and trees made by it, at least one and not a
  -- single tree, with a leaf version that passes its checks. The lengths of the scripts fit in 64
  -- bits, and the tagged hashes have 32 bytes.
  pub make_tree_returns :
      (leaf_32 : (b : Bytes) → Is32 (tapleaf b)) (branch_32 : (b : Bytes) → Is32 (tapbranch b))
      (leaves : List Leaf) (version : Option ℕ) (accept : Bool) (v : ℕ)
      → AllBuilt leaves
      → All IsShortLeaf leaves
      → 1 ≤ length leaves
      → is_single_tree leaves ≡ false
      → check_leaf_version leaves version accept ≡ ok v
      → (t : Tree) × (make_tree tapleaf tapbranch leaves version accept ≡ ok t)
        × (leaf_version t ≡ v)
  unfolding make_tree climb
  make_tree_returns leaf_32 branch_32 leaves version accept v all short some_leaf several checked =
      let (r, e) =
        traverse_returns tapleaf tapbranch v (length leaves) leaves (leaves_return v all short)
          some_leaf (omega arith) in
      let c =
        traverse-Collects tapleaf tapbranch leaf_32 branch_32 (length leaves) v leaves r
          (AllBuilt-IsSound leaf_32 branch_32 all) e in
      let (lps, f) = pair_leaves_returns v r.0 leaves (r.1 []) (c.1 r.0 [] tt refl) in
      let nonempty : not (length leaves == 0) ≡ true = ground arith in
      (tree v r.0 lps, rw (nonempty, several, checked, e, f) refl, refl)
