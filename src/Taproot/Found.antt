-- ===== src/Taproot/Found.antt =====
-- TaprootScriptTree of bitcointx/core/script.py: what is found under a name in a tree.
use python_bitcointx.Prelude.{
  ℕ, ◌%◌, ◌≤◌, ◌≡◌, refl, sym, ap, ◌∙◌, Option, none, some, List, [], ◌∷◌, ◌++◌, append_assoc,
  arith, Bytes, All, All-append, Bool-cases, ◌⊎◌, inl, inr,
}
use mathlib.Core.Path.{subst}
use python_bitcointx.Result.{ok, ok-injective}
use python_bitcointx.Address.{Text}
use python_bitcointx.Taproot.{
  Leaf, script, subtree, Tree, tree, LeavesWithPaths, end, leaf_at, merkle_root, join, leaf_hash,
  has_name, get_script_with_path_and_leaf_version, get_from, get_at, first_found, with_path,
}
use python_bitcointx.Taproot.Path.{
  Is32, climb, climb-append, hash_of, Leads, IsSound, AreSound, IsSoundLeaf,
}

pub Option-cases : {A : Type 0} (o : Option A) → (o ≡ none) ⊎ ((a : A) × (o ≡ some a))
Option-cases none = inl refl
Option-cases (some a) = inr (a, refl)

found_eq : {A : Type 0} {a b : A} → some a ≡ some b → a ≡ b
found_eq h = cc

not_found : {A : Type 0} {a : A} → none ≡ some a → ⊥
not_found h = cc

module _ (tapleaf tapbranch : Bytes → Bytes) where
  join-append : (xs ys : List Bytes) → join (xs ++ ys) ≡ join xs ++ join ys
  unfolding join
  join-append [] ys = refl
  join-append (x ∷ xs) ys = rw (join-append xs ys) (sym (append_assoc x (join xs) (join ys)))

  -- What is found under a name: a script whose path leads from its hash to the root.
  unfoldable pub Found : Bytes → Bytes × Bytes × ℕ → Type 0
  Found root (s, mp, lv) =
      (path : List Bytes) × (k : Bytes) × (mp ≡ join path)
      × All Is32 path
      × (leaf_hash tapleaf tapbranch lv s ≡ ok k)
      × (climb tapleaf tapbranch path k ≡ root)
      × (lv ≤ 254)
      × (lv % 2 ≡ 0)

  mutual
    unfolding get_script_with_path_and_leaf_version IsSound Found Leads hash_of join first_found
        with_path

    pub get-Found :
        (name : Text) (t : Tree) (r : Bytes × Bytes × ℕ)
        → IsSound tapleaf tapbranch t
        → get_script_with_path_and_leaf_version name t ≡ some r
        → Found (merkle_root t) r
    get-Found name (tree v root leaves) r h e = get_from-Found name v root leaves r h.1 h.2 h.3 e

    get_from-Found :
        (name : Text) (v : ℕ) (root : Bytes) (leaves : LeavesWithPaths) (r : Bytes × Bytes × ℕ)
        → v ≤ 254
        → v % 2 ≡ 0
        → AreSound tapleaf tapbranch v root leaves
        → get_from name v leaves ≡ some r
        → Found root r
    get_from-Found name v root end r low even h e = absurd (ground arith)
    get_from-Found name v root (leaf_at leaf path leaves) r low even h e =
        elim (Option-cases (get_at name v leaf path)) [
          | inl none_there ↦ get_from-Found name v root leaves r low even h.2 (rw none_there at e)
          | inr (found, there) ↦
              subst (Found root) (found_eq (rw there at e))
                (get_at-Found name v root leaf path found low even h.0 h.1 there)
        ]

    get_at-Found :
        (name : Text) (v : ℕ) (root : Bytes) (leaf : Leaf) (path : List Bytes)
        (r : Bytes × Bytes × ℕ)
        → v ≤ 254
        → v % 2 ≡ 0
        → Leads tapleaf tapbranch v root leaf path
        → IsSoundLeaf tapleaf tapbranch leaf
        → get_at name v leaf path ≡ some r
        → Found root r
    get_at-Found name v root (script n code) path r low even l h e =
        let (own, up, k, p, q, all, hashed, led) = l in
        elim (Bool-cases (has_name n name)) [
          | inl named ↦
              subst (Found root) (found_eq (rw named at e))
                (up, k, rw (p, q) refl, all, hashed, led, low, even)
          | inr other ↦ absurd (not_found (rw other at e))
        ]
    get_at-Found name v root (subtree t) path r low even l h e =
        let (own, up, k, p, q, all, hashed, led) = l in
        elim (Option-cases (get_script_with_path_and_leaf_version name t)) [
          | inl none_there ↦ absurd (not_found (rw none_there at e))
          | inr ((code, mp, lv), there) ↦
              let (up', k', p', all', hashed', led', low', even') =
                get-Found name t (code, mp, lv) h there in
              subst (Found root) (found_eq (rw there at e)) (
                up' ++ up,
                k',
                rw (p, p') (sym (join-append up' up)),
                All-append Is32 up' up all' all,
                hashed',
                climb-append tapleaf tapbranch up' up k'
                    ∙ ap (climb tapleaf tapbranch up) (led' ∙ ok-injective hashed)
                    ∙ led,
                low',
                even',
              )
        ]
