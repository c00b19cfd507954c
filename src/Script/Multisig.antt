-- ===== src/Script/Multisig.antt =====
-- bitcointx/core/script.py: the iteration that decodes numbers, and the standard multisig scripts.
-- A public key is its bytes; `is_fullyvalid` is an argument, as the elliptic curve library decides it.
pub mod RoundTrip
pub mod Helper
use python_bitcointx.Prelude.{
  ℕ, zero, suc, ◌+◌, ◌-◌, Bool, true, false, not, ◌&&◌, ◌||◌, Option, none, some, List, [], ◌∷◌,
  ◌++◌, length, Bytes, bytes_eq, ltb, leb, ◌==◌, if◌then◌else◌,
}
use python_bitcointx.Prelude.Int.{ℤ, pos, negsuc, leb_ℤ, ltb_ℤ, eq_ℤ}
use python_bitcointx.Result.{Result, ok, err, ◌>>=◌, ◌>>◌, guard, value_error, assertion_error}
use python_bitcointx.Opcodes.{
  op_checkmultisig, op_dup, op_hash160, op_equal, op_equalverify, op_checksig,
}
use python_bitcointx.Script.{Items, stop, raise, yields, stuck, raw_iter, is_small_int, decode_op_n}
use python_bitcointx.Script.Build.{Element, opcode, number, pushed, make_script}

abbrev pub max_p2sh_multisig_pubkeys : ℕ
max_p2sh_multisig_pubkeys = 15

-- CScript.__iter__ on one operation
unfoldable pub cooked : ℕ → Option Bytes → Result Element
cooked op (some d) = if op == 0 then ok (number (pos 0)) else ok (pushed d)
cooked op none =
    if op == 0
    then ok (number (pos 0))
    else if is_small_int op
    then (do n ← decode_op_n op; ok (number (pos n)))
    else ok (opcode op)

-- `next(si)`, where StopIteration becomes ValueError
unfoldable pub next_item : Items → Result (Element × Items)
next_item stop = err value_error
next_item (raise e) = err e
next_item (yields op d i more) = do x ← cooked op d; ok (x, more)
next_item stuck = err assertion_error

-- The value of an element for which `isinstance(..., int)` holds: an opcode is an integer, too.
unfoldable pub as_int : Element → Option ℤ
as_int (opcode op) = some (pos op)
as_int (number n) = some n
as_int (pushed d) = none

-- StandardMultisigScriptInfo
pub record MultisigInfo : Type 0 where
  pub required : ℕ
  pub pubkeys : List Bytes

unfoldable pub make_info : (total required : ℕ) → List Bytes → Result MultisigInfo
make_info total required pubkeys = do
  guard (length pubkeys == total) value_error
  guard (leb required total) value_error
  ok (record { required = required; pubkeys = pubkeys })

unfoldable pub contains_key : List Bytes → Bytes → Bool
contains_key [] d = false
contains_key (k ∷ ks) d = bytes_eq k d || contains_key ks d

-- `len(set(pubkeys)) == len(pubkeys)`
unfoldable pub all_different : List Bytes → Bool
all_different [] = true
all_different (k ∷ ks) = not (contains_key ks k) && all_different ks

-- The number of required signatures, at the start of a script.
unfoldable pub read_required : Items → Result (ℕ × Items)
read_required items = do
  (x, more) ← next_item items
  elim (as_int x) [
    | none ↦ err value_error
    | some (negsuc n) ↦ err value_error
    | some (pos n) ↦
        if leb 1 n && leb n max_p2sh_multisig_pubkeys then ok (n, more) else err value_error
  ]

-- The loop over the public keys: `n` rounds are left, and the keys read are in `pubkeys`.
unfoldable pub read_pubkeys :
    (Bytes → Bool) → ℕ → List Bytes → Items → Result (ℤ × List Bytes × Items)
read_pubkeys is_fullyvalid zero pubkeys items = err value_error
read_pubkeys is_fullyvalid (suc n) pubkeys items = do
  (x, more) ← next_item items
  elim x [
    | opcode op ↦ ok (pos op, pubkeys, more)
    | number total ↦ ok (total, pubkeys, more)
    | pushed d ↦
        if is_fullyvalid d
        then read_pubkeys is_fullyvalid n (pubkeys ++ (d ∷ [])) more
        else err value_error
  ]

-- `last_op != OP_CHECKMULTISIG`
unfoldable pub is_checkmultisig : Element → Bool
is_checkmultisig (opcode op) = op == op_checkmultisig
is_checkmultisig (number n) = eq_ℤ n (pos op_checkmultisig)
is_checkmultisig (pushed d) = false

unfoldable pub at_end : Items → Result (Unit {0})
at_end stop = ok tt
at_end (raise e) = err e
at_end (yields op d i more) = do x ← cooked op d; err value_error
at_end stuck = err assertion_error

-- What follows the keys, for a `total` that the script gives.
unfoldable pub check_total : ℤ → List Bytes → Items → Result (Unit {0})
check_total total pubkeys items = do
  guard (eq_ℤ total (pos (length pubkeys))) value_error
  guard (not (ltb_ℤ total (pos 2))) value_error
  guard (not (ltb_ℤ (pos max_p2sh_multisig_pubkeys) total)) value_error
  (last, more) ← next_item items
  guard (is_checkmultisig last) value_error
  at_end more
  guard (all_different pubkeys) value_error

-- parse_standard_multisig_redeem_script
unfoldable pub parse_standard_multisig_redeem_script : (Bytes → Bool) → Bytes → Result MultisigInfo
parse_standard_multisig_redeem_script is_fullyvalid script = do
  (required, more) ← read_required (raw_iter script)
  (total, pubkeys, rest) ← read_pubkeys is_fullyvalid (max_p2sh_multisig_pubkeys + 1) [] more
  check_total total pubkeys rest
  make_info (length pubkeys) required pubkeys

unfoldable pub pushed_keys : List Bytes → List Element → List Element
pushed_keys [] tail = tail
pushed_keys (d ∷ ds) tail = pushed d ∷ pushed_keys ds tail

-- standard_multisig_witness_stack: a dummy zero, the signatures and the script
unfoldable pub standard_multisig_witness_stack :
    (Bytes → Bool) → List Bytes → Bytes → Result (List Element)
standard_multisig_witness_stack is_fullyvalid sigs redeem_script = do
  info ← parse_standard_multisig_redeem_script is_fullyvalid redeem_script
  guard (leb (length sigs) (length info.pubkeys)) value_error
  guard (length sigs == info.required) value_error
  ok (number (pos 0) ∷ pushed_keys sigs (pushed redeem_script ∷ []))

-- CPubKey.is_compressed
abbrev pub is_compressed : Bytes → Bool
is_compressed pubkey = length pubkey == 33

unfoldable pub check_pubkeys : (Bytes → Bool) → Bool → List Bytes → Result (Unit {0})
check_pubkeys is_fullyvalid accept_uncompressed [] = ok tt
check_pubkeys is_fullyvalid accept_uncompressed (d ∷ ds) = do
  guard (is_fullyvalid d) value_error
  guard (is_compressed d || accept_uncompressed) value_error
  check_pubkeys is_fullyvalid accept_uncompressed ds

-- standard_multisig_redeem_script
unfoldable pub standard_multisig_redeem_script :
    (Bytes → Bool) → (total required : ℤ) → List Bytes → (accept_uncompressed : Bool) → Result Bytes
standard_multisig_redeem_script is_fullyvalid total required pubkeys accept_uncompressed = do
  guard (eq_ℤ total (pos (length pubkeys))) value_error
  guard (not (leb_ℤ required (pos 0))) value_error
  guard (not (ltb_ℤ total required)) value_error
  guard (not (ltb_ℤ (pos max_p2sh_multisig_pubkeys) total)) value_error
  guard (not (eq_ℤ total (pos 1))) value_error
  check_pubkeys is_fullyvalid accept_uncompressed pubkeys
  make_script (number required ∷ pushed_keys pubkeys (number total ∷ opcode op_checkmultisig ∷ []))

-- The standard output scripts, from a hash.
unfoldable pub standard_keyhash_scriptpubkey : Bytes → Result Bytes
standard_keyhash_scriptpubkey keyhash = do
  guard (length keyhash == 20) value_error
  make_script (
      opcode op_dup
      ∷ opcode op_hash160
      ∷ pushed keyhash
      ∷ opcode op_equalverify
      ∷ opcode op_checksig
      ∷ [])

unfoldable pub standard_witness_v0_scriptpubkey : Bytes → Result Bytes
standard_witness_v0_scriptpubkey hash = do
  guard (length hash == 20 || length hash == 32) value_error
  make_script (number (pos 0) ∷ pushed hash ∷ [])

unfoldable pub standard_scripthash_scriptpubkey : Bytes → Result Bytes
standard_scripthash_scriptpubkey scripthash = do
  guard (length scripthash == 20) value_error
  make_script (opcode op_hash160 ∷ pushed scripthash ∷ opcode op_equal ∷ [])
