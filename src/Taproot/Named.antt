-- ===== src/Taproot/Named.antt =====
-- TaprootScriptTree of bitcointx/core/script.py: which script a name finds in a tree.
use python_bitcointx.Prelude.{
  ℕ, ◌≡◌, refl, sym, ◌∙◌, Option, none, some, List, [], ◌∷◌, ◌++◌, drop, Bytes, Bool-cases,
  if◌then◌else◌, inl, inr,
}
use python_bitcointx.Address.{Text}
use python_bitcointx.Taproot.{
  Leaf, script, subtree, Tree, tree, LeavesWithPaths, end, leaf_at, has_name, first_found,
  with_path, get_from, get_at, get_script_with_path_and_leaf_version,
}

-- The scripts of a tree with their names, from the left to the right.
unfoldable mutual
  pub scripts_of : Tree → List (Option Text × Bytes)
  scripts_of (tree version root leaves) = scripts_among leaves

  pub scripts_among : LeavesWithPaths → List (Option Text × Bytes)
  scripts_among end = []
  scripts_among (leaf_at leaf path leaves) = scripts_at leaf ++ scripts_among leaves

  pub scripts_at : Leaf → List (Option Text × Bytes)
  scripts_at (script n code) = (n, code) ∷ []
  scripts_at (subtree t) = scripts_of t

-- The first script that has a name.
unfoldable pub first_named : Text → List (Option Text × Bytes) → Option Bytes
first_named name [] = none
first_named name ((n, code) ∷ scripts) =
    if has_name n name then some code else first_named name scripts

first_named-append :
    (name : Text) (xs ys : List (Option Text × Bytes))
    → first_named name (xs ++ ys) ≡ first_found (first_named name xs) (first_named name ys)
unfolding first_named first_found
first_named-append name [] ys = refl
first_named-append name ((n, code) ∷ xs) ys = elim (Bool-cases (has_name n name)) [
  | inl e ↦ rw e refl
  | inr e ↦ rw (e, first_named-append name xs ys) refl
]

-- The script of what is found.
abbrev pub code_found : Option (Bytes × Bytes × ℕ) → Option Bytes
code_found none = none
code_found (some (code, mp, version)) = some code

code_found-first_found :
    (a b : Option (Bytes × Bytes × ℕ))
    → code_found (first_found a b) ≡ first_found (code_found a) (code_found b)
unfolding first_found
code_found-first_found none b = refl
code_found-first_found (some (code, mp, v)) b = refl

code_found-with_path :
    (path : List Bytes) (a : Option (Bytes × Bytes × ℕ))
    → code_found (with_path path a) ≡ code_found a
unfolding with_path
code_found-with_path path none = refl
code_found-with_path path (some (code, mp, v)) = refl

mutual
  unfolding scripts_of get_script_with_path_and_leaf_version first_named

  pub code_found-get :
      (name : Text) (t : Tree)
      → code_found (get_script_with_path_and_leaf_version name t) ≡ first_named name (scripts_of t)
  code_found-get name (tree v root leaves) = code_found-get_from name v leaves

  code_found-get_from :
      (name : Text) (v : ℕ) (leaves : LeavesWithPaths)
      → code_found (get_from name v leaves) ≡ first_named name (scripts_among leaves)
  code_found-get_from name v end = refl
  code_found-get_from name v (leaf_at leaf path leaves) =
      code_found-first_found (get_at name v leaf path) (get_from name v leaves)
      ∙ rw (code_found-get_at name v leaf path, code_found-get_from name v leaves)
          (sym (first_named-append name (scripts_at leaf) (scripts_among leaves)))

  code_found-get_at :
      (name : Text) (v : ℕ) (leaf : Leaf) (path : List Bytes)
      → code_found (get_at name v leaf path) ≡ first_named name (scripts_at leaf)
  code_found-get_at name v (script n code) path = elim (Bool-cases (has_name n name)) [
    | inl e ↦ rw e refl
    | inr e ↦ rw e refl
  ]
  code_found-get_at name v (subtree t) path =
      code_found-with_path (drop 1 path) (get_script_with_path_and_leaf_version name t)
      ∙ code_found-get name t
