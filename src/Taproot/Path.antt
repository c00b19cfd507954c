-- ===== src/Taproot/Path.antt =====
-- TaprootScriptTree of bitcointx/core/script.py: the path that is found for a script leads to the root.
use python_bitcointx.Prelude.{
  ℕ, zero, suc, ◌/◌, ◌%◌, ◌≤◌, ◌≡◌, refl, ap, ◌∙◌, Bool, true, false, Option, none, some, List, [],
  ◌∷◌, ◌++◌, arith, length, take, drop, take-append-drop, Bytes, All, ◌==◌, if◌then◌else◌, ==→eq,
  Bool-cases, ◌||◌, leb, leb→le, inl, inr, not, All-take, All-drop,
}
use mathlib.Core.Path.{subst}
use python_bitcointx.Result.{Result, ok, >>=-eq-ok, guard_passes, ok-injective}
use python_bitcointx.Serialize.{serialize_bytes}
use python_bitcointx.Taproot.{
  Leaf, script, subtree, Tree, tree, LeavesWithPaths, end, leaf_at, merkle_root, leaves_with_paths,
  bytes_ltb, Collector, leaf_hash, branch_hash, own_path, traverse_leaf, traverse, join_branches,
  pair_leaves, make_tree, check_leaf_version, any_script, is_conventional, is_single_tree,
}

ltb_total : (a b : Bytes) → bytes_ltb a b ≡ false → bytes_ltb b a ≡ false → a ≡ b
unfolding bytes_ltb
ltb_total [] [] h k = refl
ltb_total [] (b ∷ bs) h k = cc
ltb_total (a ∷ as') [] h k = cc
ltb_total (a ∷ as') (b ∷ bs) h k = ground (arith, ltb_total as' bs)

ltb_asym : (a b : Bytes) → bytes_ltb a b ≡ true → bytes_ltb b a ≡ false
unfolding bytes_ltb
ltb_asym [] [] h = refl
ltb_asym [] (b ∷ bs) h = refl
ltb_asym (a ∷ as') [] h = cc
ltb_asym (a ∷ as') (b ∷ bs) h = ground (arith, ltb_asym as' bs)

abbrev pub Is32 : Bytes → Type 0
Is32 b = length b ≡ 32

module _ (tapleaf tapbranch : Bytes → Bytes) where
  -- One step of the check of a path that BIP 341 describes: from the hash `k` with the element `e`.
  unfoldable pub climb_step : (k e : Bytes) → Bytes
  climb_step k e = if bytes_ltb k e then tapbranch (k ++ e) else tapbranch (e ++ k)

  unfoldable pub climb : List Bytes → Bytes → Bytes
  climb [] k = k
  climb (e ∷ es) k = climb es (climb_step k e)

  pub climb-append : (xs ys : List Bytes) (k : Bytes) → climb (xs ++ ys) k ≡ climb ys (climb xs k)
  unfolding climb
  climb-append [] ys k = refl
  climb-append (x ∷ xs) ys k = climb-append xs ys (climb_step k x)

  climb_right : (l r : Bytes) → climb_step r l ≡ branch_hash tapleaf tapbranch l r
  unfolding climb_step branch_hash
  climb_right l r = refl

  climb_left : (l r : Bytes) → climb_step l r ≡ branch_hash tapleaf tapbranch l r
  unfolding climb_step branch_hash
  climb_left l r = elim (Bool-cases (bytes_ltb l r)) [
    | inl e ↦ rw (e, ltb_asym l r e) refl
    | inr e ↦ elim (Bool-cases (bytes_ltb r l)) [
      | inl f ↦ rw (e, f) refl
      | inr f ↦ rw (ltb_total l r e f) refl
    ]
  ]

  -- The hash that a leaf has in its tree.
  unfoldable pub hash_of : (version : ℕ) → Leaf → Result Bytes
  hash_of version (script name code) = leaf_hash tapleaf tapbranch version code
  hash_of version (subtree t) = ok (merkle_root t)

  unfoldable pub OwnPart : Leaf → Bytes → Type 0
  OwnPart (script name code) own = own ≡ []
  OwnPart (subtree t) own = Unit

  -- The path of a leaf leads from its hash to the root.
  unfoldable pub Leads : (version : ℕ) (root : Bytes) → Leaf → (path : List Bytes) → Type 0
  unfolding OwnPart
  Leads version root leaf path =
      (own : Bytes) × (up : List Bytes) × (k : Bytes) × (path ≡ own ∷ up)
      × OwnPart leaf own
      × All Is32 up
      × (hash_of version leaf ≡ ok k)
      × (climb up k ≡ root)

  unfoldable pub AllLead : (version : ℕ) (root : Bytes) → List Leaf → List (List Bytes) → Type 0
  AllLead version root [] [] = Unit
  AllLead version root [] (p ∷ ps) = ⊥
  AllLead version root (l ∷ ls) [] = ⊥
  AllLead version root (l ∷ ls) (p ∷ ps) = Leads version root l p × AllLead version root ls ps

  AllLead-append :
      (v : ℕ) (root : Bytes) (ls ms : List Leaf) (ps qs : List (List Bytes))
      → AllLead v root ls ps
      → AllLead v root ms qs
      → AllLead v root (ls ++ ms) (ps ++ qs)
  unfolding AllLead
  AllLead-append v root [] ms [] qs h k = k
  AllLead-append v root [] ms (p ∷ ps) qs h k = absurd h
  AllLead-append v root (l ∷ ls) ms [] qs h k = absurd h
  AllLead-append v root (l ∷ ls) ms (p ∷ ps) qs h k = (h.0, AllLead-append v root ls ms ps qs h.1 k)

  -- A tree whose leaves all have a path to its root, in the trees below as well.
  unfoldable mutual
    pub IsSound : Tree → Type 0
    IsSound (tree version root leaves) =
        Is32 root × (version ≤ 254) × (version % 2 ≡ 0) × AreSound version root leaves

    pub AreSound : (version : ℕ) → (root : Bytes) → LeavesWithPaths → Type 0
    AreSound version root end = Unit
    AreSound version root (leaf_at leaf path leaves) =
        Leads version root leaf path × IsSoundLeaf leaf × AreSound version root leaves

    pub IsSoundLeaf : Leaf → Type 0
    IsSoundLeaf (script name code) = Unit
    IsSoundLeaf (subtree t) = IsSound t

  -- What `_traverse` returns: a hash, and paths that lead to any root above it.
  module _ (leaf_32 : (b : Bytes) → Is32 (tapleaf b))
      (branch_32 : (b : Bytes) → Is32 (tapbranch b)) where
    abbrev pub Collects : ℕ → List Leaf → Bytes × Collector → Type 0
    Collects v leaves r =
        Is32 r.0
        × ((root : Bytes) (parent : List Bytes)
            → All Is32 parent
            → climb parent r.0 ≡ root
            → AllLead v root leaves (r.1 parent))

    root_32 : (t : Tree) → IsSound t → Is32 (merkle_root t)
    unfolding IsSound
    root_32 (tree v root leaves) h = h.0

    leaf_hash_32 : (v : ℕ) (code k : Bytes) → leaf_hash tapleaf tapbranch v code ≡ ok k → Is32 k
    unfolding leaf_hash
    leaf_hash_32 v code k e =
        let (s, w, f) = >>=-eq-ok (serialize_bytes code) _ e in
        rw (← ok-injective f) (leaf_32 (v ∷ s))

    branch_hash_32 : (l r : Bytes) → Is32 (branch_hash tapleaf tapbranch l r)
    unfolding branch_hash
    branch_hash_32 l r = ground (arith, branch_32 (r ++ l), branch_32 (l ++ r))

    traverse_leaf-Collects :
        (v : ℕ) (leaf : Leaf) (r : Bytes × Collector)
        → IsSoundLeaf leaf
        → traverse_leaf tapleaf tapbranch v leaf ≡ ok r
        → Collects v (leaf ∷ []) r
    unfolding traverse_leaf IsSound AllLead Leads hash_of
    traverse_leaf-Collects v (script name code) r s e =
        let (k, e', f) = >>=-eq-ok (leaf_hash tapleaf tapbranch v code) _ e in
        rw (← ok-injective f) (
          leaf_hash_32 v code k e',
          λ root parent all up. (([], parent, k, refl, refl, all, e', up), tt),
        )
    traverse_leaf-Collects v (subtree t) r s e =
        let (path, e', f) = >>=-eq-ok (own_path (merkle_root t) (leaves_with_paths t)) _ e in
        rw (← ok-injective f) (
          root_32 t s,
          λ root parent all up. ((path, parent, merkle_root t, refl, tt, all, refl, up), tt),
        )

    join-Collects :
        (v : ℕ) (ls ms : List Leaf) (l r : Bytes × Collector)
        → Collects v ls l
        → Collects v ms r
        → Collects v (ls ++ ms) (join_branches tapleaf tapbranch l r)
    unfolding climb
    join-Collects v ls ms (lh, lc) (rh, rc) h k = (
      branch_hash_32 lh rh,
      λ root parent all up.
          AllLead-append v root ls ms (lc (rh ∷ parent)) (rc (lh ∷ parent))
            (h.1 root (rh ∷ parent) (k.0, all) (ap (climb parent) (climb_left lh rh) ∙ up))
            (k.1 root (lh ∷ parent) (h.0, all) (ap (climb parent) (climb_right lh rh) ∙ up)),
    )

    pub traverse-Collects :
        (fuel v : ℕ) (leaves : List Leaf) (r : Bytes × Collector)
        → All IsSoundLeaf leaves
        → traverse tapleaf tapbranch fuel v leaves ≡ ok r
        → Collects v leaves r
    unfolding traverse
    traverse-Collects zero v leaves r s e = absurd (ground arith)
    traverse-Collects (suc fuel) v [] r s e = absurd (ground arith)
    traverse-Collects (suc fuel) v (leaf ∷ []) r s e = traverse_leaf-Collects v leaf r s.0 e
    traverse-Collects (suc fuel) v (leaf ∷ leaf' ∷ leaves) r s e =
        let all = leaf ∷ leaf' ∷ leaves in
        let n = length all / 2 in
        let (left, e1, f) = >>=-eq-ok (traverse tapleaf tapbranch fuel v (take n all)) _ e in
        let (right, e2, g) = >>=-eq-ok (traverse tapleaf tapbranch fuel v (drop n all)) _ f in
        let h = traverse-Collects fuel v (take n all) left (All-take IsSoundLeaf n all s) e1 in
        let k = traverse-Collects fuel v (drop n all) right (All-drop IsSoundLeaf n all s) e2 in
        rw (← ok-injective g) (
          subst (λ xs. Collects v xs (join_branches tapleaf tapbranch left right))
            (take-append-drop n all) (join-Collects v (take n all) (drop n all) left right h k))

    pair_leaves-AreSound :
        (v : ℕ) (root : Bytes) (leaves : List Leaf) (paths : List (List Bytes))
        (r : LeavesWithPaths)
        → All IsSoundLeaf leaves
        → AllLead v root leaves paths
        → pair_leaves leaves paths ≡ ok r
        → AreSound v root r
    unfolding pair_leaves AllLead IsSound
    pair_leaves-AreSound v root [] [] r s h e = rw (← ok-injective e) tt
    pair_leaves-AreSound v root [] (p ∷ ps) r s h e = absurd h
    pair_leaves-AreSound v root (l ∷ ls) [] r s h e = absurd h
    pair_leaves-AreSound v root (l ∷ ls) (p ∷ ps) r s h e =
        let (rest, e1, f) = >>=-eq-ok (pair_leaves ls ps) _ e in
        rw (← ok-injective f) (h.0, s.0, pair_leaves-AreSound v root ls ps rest s.1 h.1 e1)

    check_leaf_version-even :
        (leaves : List Leaf) (version : Option ℕ) (accept : Bool) (v : ℕ)
        → check_leaf_version leaves version accept ≡ ok v
        → (v ≤ 254) × (v % 2 ≡ 0)
    unfolding check_leaf_version
    check_leaf_version-even leaves none accept v e = rw (← ok-injective e) (omega arith, refl)
    check_leaf_version-even leaves (some n) accept v e =
        let (a, e1) = guard_passes (any_script leaves) _ _ e in
        let (b, e2) = guard_passes (n % 2 == 0) _ _ e1 in
        let (c, e3) = guard_passes (leb n 254) _ _ e2 in
        let (d, e4) = guard_passes (accept || is_conventional n) _ _ e3 in
        rw (← ok-injective e4) (leb→le n 254 c, ==→eq (n % 2) 0 b)

    -- The constructor makes sound trees of sound leaves.
    pub make_tree-IsSound :
        (leaves : List Leaf) (version : Option ℕ) (accept : Bool) (t : Tree)
        → All IsSoundLeaf leaves
        → make_tree tapleaf tapbranch leaves version accept ≡ ok t
        → IsSound t
    unfolding make_tree IsSound climb
    make_tree-IsSound leaves version accept t s e =
        let (a, e1) = guard_passes (not (length leaves == 0)) _ _ e in
        let (b, e2) = guard_passes (not (is_single_tree leaves)) _ _ e1 in
        let (v, w, e3) = >>=-eq-ok (check_leaf_version leaves version accept) _ e2 in
        let (r, x, e4) = >>=-eq-ok (traverse tapleaf tapbranch (length leaves) v leaves) _ e3 in
        let (lps, y, e5) = >>=-eq-ok (pair_leaves leaves (r.1 [])) _ e4 in
        let (low, even) = check_leaf_version-even leaves version accept v w in
        let c = traverse-Collects (length leaves) v leaves r s x in
        rw (← ok-injective e5)
          (c.0, low, even, pair_leaves-AreSound v r.0 leaves (r.1 []) lps s (c.1 r.0 [] tt refl) y)
