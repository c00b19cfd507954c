-- ===== src/Taproot/Key/Block.antt =====
-- The control blocks of TaprootScriptTree in bitcointx/core/script.py, checked as BIP 341 says.
use python_bitcointx.Prelude.{
  ℕ, zero, suc, ◌-◌, ◌/◌, ◌%◌, ◌≡◌, Bool, Option, none, some, List, [], ◌∷◌, length, take, drop,
  get_or, Bytes,
}
use python_bitcointx.Result.{Result, ok, ◌>>=◌}
use python_bitcointx.Address.{Text}
use python_bitcointx.Taproot.{Tree, merkle_root, leaf_hash}
use python_bitcointx.Taproot.Path.{Is32, climb}
use python_bitcointx.Taproot.Found.{Found}
use python_bitcointx.Taproot.Key.{
  XOnly, TaprootScriptTree, get_script_with_control_block, bit, tap_tweak_pubkey,
}
use python_bitcointx.Taproot.Named.{scripts_of, first_named}

-- The elements of a path, 32 bytes each.
unfoldable pub elements : ℕ → Bytes → List Bytes
elements zero p = []
elements (suc n) p = take 32 p ∷ elements n (drop 32 p)

module _ (tapleaf tapbranch : Bytes → Bytes) where
  -- The root that BIP 341 computes from a script and a control block.
  unfoldable pub root_from_block : (block code : Bytes) → Result Bytes
  root_from_block block code = do
    let p = drop 33 block
    k ← leaf_hash tapleaf tapbranch (get_or block 0 0 - get_or block 0 0 % 2) code
    ok (climb tapleaf tapbranch (elements (length p / 32) p) k)

-- The script of an answer.
abbrev pub code_of : Option (Bytes × Bytes) → Option Bytes
code_of none = none
code_of (some (code, block)) = some code

-- A control block as BIP 341 describes it: a byte with the leaf version and the parity of the output
-- key, the internal key, and the path.
module _ (tapleaf tapbranch : Bytes → Bytes) (x : XOnly) (t : TaprootScriptTree) where
  unfoldable pub Verifies : Option (Bytes × Bytes) → Type 0
  Verifies none = Unit
  Verifies (some (code, block)) =
      (root_from_block tapleaf tapbranch block code ≡ ok (merkle_root t.script_tree))
      × (output : Bytes) × (odd : Bool) × (t.output_pubkey ≡ some output)
      × (get_or block 0 0 % 2 ≡ bit odd)
      × (tap_tweak_pubkey x (take 32 (drop 1 block)) (merkle_root t.script_tree)
          ≡ ok (some (output, odd)))

abbrev keyed_tree : Tree → (key output : Bytes) → Bool → TaprootScriptTree
keyed_tree tr key output odd = record {
  script_tree = tr;
  internal_pubkey = some key;
  output_pubkey = some output;
  parity = some odd;
}

module _ (tapleaf tapbranch : Bytes → Bytes) (leaf_32 : (b : Bytes) → Is32 (tapleaf b))
    (branch_32 : (b : Bytes) → Is32 (tapbranch b)) where
  abbrev Answers : XOnly → Text → TaprootScriptTree → Type 0
  Answers x name t =
      (b : Option (Bytes × Bytes)) × (get_script_with_control_block name t ≡ ok b)
      × (code_of b ≡ first_named name (scripts_of t.script_tree))
      × Verifies tapleaf tapbranch x t b
