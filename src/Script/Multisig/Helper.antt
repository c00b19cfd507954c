-- ===== src/Script/Multisig/Helper.antt =====
-- bitcointx/core/script.py: ComplexScriptSignatureHelper and StandardMultisigSignatureHelper, which
-- collect signatures for a standard multisig script.
--
-- The helper is a record that each method returns anew. A dict of signatures by public key is the list
-- of its items, and the signer a function.

pub mod Sign
pub mod Completes
use python_bitcointx.Prelude.{
  ℕ, zero, suc, ◌+◌, ◌-◌, Bool, true, false, not, Option, none, some, List, [], ◌∷◌, ◌++◌, map,
  length, Bytes, bytes_eq, ltb, ◌==◌, if◌then◌else◌,
}
use python_bitcointx.Result.{Result, ok, err, ◌>>=◌, ◌>>◌, guard, value_error, assertion_error}
use python_bitcointx.SigHash.{element}
use python_bitcointx.Script.Build.{Element}
use python_bitcointx.Script.Multisig.{
  MultisigInfo, parse_standard_multisig_redeem_script, standard_multisig_witness_stack,
}

pub record Helper : Type 0 where
  pub script : Bytes
  pub script_info : MultisigInfo
  pub signatures : List (Option Bytes)

-- `[s for s in self._signatures if s is not None]`
unfoldable pub present : List (Option Bytes) → List Bytes
present [] = []
present (none ∷ ss) = present ss
present (some s ∷ ss) = s ∷ present ss

abbrev pub no_sig : Bytes → Option Bytes
no_sig key = none

-- StandardMultisigSignatureHelper.__init__
unfoldable pub make_helper : (is_fullyvalid : Bytes → Bool) → Bytes → Result Helper
make_helper is_fullyvalid script = do
  info ← parse_standard_multisig_redeem_script is_fullyvalid script
  ok (record { script = script; script_info = info; signatures = map no_sig info.pubkeys })

unfoldable pub num_sigs_missing : Helper → Result ℕ
num_sigs_missing h =
    let num_sigs = length (present h.signatures) in
    if num_sigs == h.script_info.required
    then ok 0
    else if ltb h.script_info.required num_sigs
    then err assertion_error
    else ok (h.script_info.required - num_sigs)

unfoldable pub is_enough_signatures : Helper → Result Bool
is_enough_signatures h = do n ← num_sigs_missing h; ok (n == 0)

unfoldable pub construct_witness_stack : (Bytes → Bool) → Helper → Result (List Element)
construct_witness_stack is_fullyvalid h = do
  enough ← is_enough_signatures h
  guard enough value_error
  standard_multisig_witness_stack is_fullyvalid (present h.signatures) h.script

-- `for index, s_pub in enumerate(pubkeys): if pub == s_pub: break`, from an index on
unfoldable pub find_key : List Bytes → Bytes → (index : ℕ) → Option ℕ
find_key [] key index = none
find_key (k ∷ ks) key index = if bytes_eq key k then some index else find_key ks key (suc index)

-- `self._signatures[index] = sig`
unfoldable pub set_sig : List (Option Bytes) → ℕ → Bytes → List (Option Bytes)
set_sig [] index sig = []
set_sig (s ∷ ss) zero sig = some sig ∷ ss
set_sig (s ∷ ss) (suc index) sig = s ∷ set_sig ss index sig

-- `collect_sig` from where the index of the key is known: `old` is the signature at it.
unfoldable pub store_sig : Helper → ℕ → Bytes → (old : Option Bytes) → Result (Helper × Bool)
store_sig h index sig (some s) = ok (h, false)
store_sig h index sig none = do
  let h' = record h { signatures = set_sig h.signatures index sig }
  enough ← is_enough_signatures h'
  ok (h', enough)

unfoldable pub collect_at : Helper → Option ℕ → Bytes → Result (Helper × Bool)
collect_at h none sig = err value_error
collect_at h (some index) sig = do
  enough ← is_enough_signatures h
  if enough then ok (h, true) else (do old ← element h.signatures index; store_sig h index sig old)

-- StandardMultisigSignatureHelper.collect_sig
unfoldable pub collect_sig : Helper → (key sig : Bytes) → Result (Helper × Bool)
collect_sig h key sig = collect_at h (find_key h.script_info.pubkeys key 0) sig

-- The loop over `partial_sigs`
unfoldable pub collect_partial : Helper → List (Bytes × Bytes) → Result Helper
collect_partial h [] = ok h
collect_partial h ((key, sig) ∷ sigs) = do
  (h', enough) ← collect_sig h key sig
  let rest = collect_partial h' sigs
  if enough then ok h' else rest

-- `not s`
unfoldable pub is_missing : Option Bytes → Bool
is_missing none = true
is_missing (some s) = length s == 0

-- The loop over `get_pubkeys_without_sig()`, a generator that looks at the signatures as it goes:
-- `index` is that of the first key of `keys`. The keys differ, so that each is new in `new_sigs`.
unfoldable pub sign_loop :
    (signer : Bytes → Option Bytes)
    → (keys : List Bytes) → (index : ℕ) → (new_sigs : List (Bytes × Bytes)) → Helper
    → Result (List (Bytes × Bytes) × Helper)
sign_loop signer [] index new_sigs h = ok (new_sigs, h)
sign_loop signer (key ∷ keys) index new_sigs h = do
  s ← element h.signatures index
  let skip = sign_loop signer keys (suc index) new_sigs h
  if is_missing s
      then (elim (signer key) [
        | none ↦ skip
        | some sig ↦ do
          (h', enough) ← collect_sig h key sig
          let rest = sign_loop signer keys (suc index) (new_sigs ++ ((key, sig) ∷ [])) h'
          if enough then ok (new_sigs ++ ((key, sig) ∷ []), h') else rest
      ])
      else skip

-- ComplexScriptSignatureHelper.sign
unfoldable pub sign :
    (signer : Bytes → Option Bytes)
    → (partial_sigs : List (Bytes × Bytes)) → Helper
    → Result (List (Bytes × Bytes) × Bool × Helper)
sign signer partial_sigs h = do
  h1 ← collect_partial h partial_sigs
  enough ← is_enough_signatures h1
  if enough then ok ([], true, h1) else (do
    (new_sigs, h2) ← sign_loop signer h1.script_info.pubkeys 0 [] h1
    complete ← is_enough_signatures h2
    ok (new_sigs, complete, h2))
