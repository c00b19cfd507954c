-- ===== src/Taproot/Key.antt =====
-- bitcointx/core/key.py: the tweak of an x-only key, and bitcointx/core/script.py: the internal key of
-- a TaprootScriptTree and its control blocks.
--
-- The elliptic curve library is the record `XOnly`.
pub mod Block
use python_bitcointx.Prelude.{
  ℕ, ◌+◌, Bool, true, false, not, Option, none, some, List, [], ◌∷◌, ◌++◌, length, Bytes, leb, ◌==◌,
  if◌then◌else◌,
}
use python_bitcointx.Result.{Result, ok, err, ◌>>=◌, ◌>>◌, guard, value_error, assertion_error}
use python_bitcointx.Address.{Text}
use python_bitcointx.Taproot.{
  Leaf, Tree, merkle_root, make_tree, get_script_with_path_and_leaf_version,
}

-- The hash function with the tag TapTweak, and the calls of the library: `tweak_add` is
-- secp256k1_xonly_pubkey_tweak_add with the x-only key and the parity that are read from its result.
pub record XOnly : Type 0 where
  pub taptweak_hasher : Bytes → Bytes
  pub is_fullyvalid : Bytes → Bool
  pub tweak_add : Bytes → Bytes → Option (Bytes × Bool)
  pub tweak_add_check : (tweaked : Bytes) → (parity : Bool) → (base tweak : Bytes) → Bool

module _ (x : XOnly) where
  unfoldable pub compute_tap_tweak_hash : (pub_key merkle_root : Bytes) → Result Bytes
  compute_tap_tweak_hash pub_key root =
      if length root == 0
      then ok (x.taptweak_hasher pub_key)
      else (guard (length root == 32) value_error >> ok (x.taptweak_hasher (pub_key ++ root)))

  unfoldable pub check_tap_tweak :
      (tweaked_pub internal_pub merkle_root : Bytes) → (parity : Bool) → Result Bool
  check_tap_tweak tweaked_pub internal_pub root parity = do
    guard (x.is_fullyvalid tweaked_pub) value_error
    guard (x.is_fullyvalid internal_pub) value_error
    tweak ← compute_tap_tweak_hash internal_pub root
    ok (x.tweak_add_check tweaked_pub parity internal_pub tweak)

  unfoldable pub tap_tweak_pubkey : (pub_key merkle_root : Bytes) → Result (Option (Bytes × Bool))
  tap_tweak_pubkey pub_key root = do
    guard (x.is_fullyvalid pub_key) value_error
    tweak ← compute_tap_tweak_hash pub_key root
    ok (x.tweak_add pub_key tweak)

-- The outermost tree with the fields that `set_internal_pubkey` sets.
pub record TaprootScriptTree : Type 0 where
  pub script_tree : Tree
  pub internal_pubkey : Option Bytes
  pub output_pubkey : Option Bytes
  pub parity : Option Bool

-- `if internal_pubkey:`
unfoldable pub given_key : Option Bytes → Bool
given_key none = false
given_key (some key) = not (length key == 0)

unfoldable pub key_bytes : Option Bytes → Bytes
key_bytes none = []
key_bytes (some key) = key

unfoldable pub with_output : Tree → Option Bytes → Option (Bytes × Bool) → Result TaprootScriptTree
with_output t key none = err value_error
with_output t key (some (output, odd)) = ok (record {
  script_tree = t;
  internal_pubkey = key;
  output_pubkey = some output;
  parity = some odd;
})

-- TaprootScriptTree.set_internal_pubkey
unfoldable pub set_internal_pubkey : XOnly → Option Bytes → Tree → Result TaprootScriptTree
set_internal_pubkey x key t =
    if given_key key
    then (tap_tweak_pubkey x (key_bytes key) (merkle_root t) >>= with_output t key)
    else ok (record { script_tree = t; internal_pubkey = key; output_pubkey = none; parity = none })

unfoldable pub bit : Bool → ℕ
bit false = 0
bit true = 1

-- `bytes([lv + self.parity]) + self.internal_pubkey + mp`
unfoldable pub control_block :
    (parity : Bool) → (key : Bytes) → Option (Bytes × Bytes × ℕ) → Result (Option (Bytes × Bytes))
control_block odd key none = ok none
control_block odd key (some (s, mp, lv)) = do
  guard (leb (lv + bit odd) 255) value_error
  ok (some (s, (lv + bit odd) ∷ (key ++ mp)))

unfoldable pub parity_of : Option Bool → Result Bool
parity_of none = err assertion_error
parity_of (some odd) = ok odd

-- TaprootScriptTree.get_script_with_control_block
unfoldable pub get_script_with_control_block :
    Text → TaprootScriptTree → Result (Option (Bytes × Bytes))
get_script_with_control_block name t = do
  guard (given_key t.internal_pubkey) value_error
  odd ← parity_of t.parity
  control_block odd (key_bytes t.internal_pubkey)
      (get_script_with_path_and_leaf_version name t.script_tree)

module _ (tapleaf_hasher tapbranch_hasher : Bytes → Bytes) (x : XOnly) where
  -- TaprootScriptTree.__init__
  unfoldable pub make_script_tree :
      List Leaf
      → (internal_pubkey : Option Bytes) → (leaf_version : Option ℕ)
      → (accept_unconventional : Bool) → Result TaprootScriptTree
  make_script_tree leaves key version accept = do
    t ← make_tree tapleaf_hasher tapbranch_hasher leaves version accept
    set_internal_pubkey x key t
