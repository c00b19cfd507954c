-- ===== src/Script/Pushes.antt =====
-- bitcointx/core/script.py: the methods of `CScript` that run over the iteration of a script, and
-- FindAndDelete.
pub mod SigOps
use python_bitcointx.Prelude.{
  ℕ, ◌+◌, ◌-◌, Bool, true, false, ◌&&◌, ◌||◌, Option, none, some, [], ◌++◌, length, take, drop,
  get_or, Bytes, bytes_eq, ltb, leb, ◌==◌, if◌then◌else◌,
}
use python_bitcointx.Result.{Result, ok, err, ◌>>=◌, assertion_error}
use python_bitcointx.Opcodes.{
  op_0, op_1, op_16, op_pushdata1, op_pushdata2, op_pushdata4, op_checksig, op_checksigverify,
  op_checkmultisig, op_checkmultisigverify, op_invalidopcode,
}
use python_bitcointx.Script.{Items, stop, raise, yields, stuck, raw_iter, decode_op_n}

-- `is_push_only`, on what the iteration yields. It raises CScriptInvalidError only.
unfoldable pub push_only_items : Items → Bool
push_only_items stop = true
push_only_items (raise e) = false
push_only_items (yields op d i more) = if ltb op_16 op then false else push_only_items more
push_only_items stuck = false

unfoldable pub is_push_only : Bytes → Bool
is_push_only script = push_only_items (raw_iter script)

-- A shorter push of the same data exists.
unfoldable pub not_canonical : ℕ → Option Bytes → Bool
not_canonical op none = false
not_canonical op (some d) =
    if ltb op_16 op
    then false
    else if ltb op op_pushdata1 && ltb op_0 op && length d == 1 && leb (get_or d 0 0) 16
    then true
    else if op == op_pushdata1 && ltb (length d) op_pushdata1
    then true
    else if op == op_pushdata2 && leb (length d) 0xff
    then true
    else op == op_pushdata4 && leb (length d) 0xffff

unfoldable pub canonical_items : Items → Bool
canonical_items stop = true
canonical_items (raise e) = false
canonical_items (yields op d i more) = if not_canonical op d then false else canonical_items more
canonical_items stuck = false

unfoldable pub has_canonical_pushes : Bytes → Bool
has_canonical_pushes script = canonical_items (raw_iter script)

-- `is_valid`: the iteration ends without raising.
unfoldable pub valid_items : Items → Bool
valid_items stop = true
valid_items (raise e) = false
valid_items (yields op d i more) = valid_items more
valid_items stuck = false

unfoldable pub is_valid : Bytes → Bool
is_valid script = valid_items (raw_iter script)

-- What one opcode adds to the count of GetSigOpCount. The code asks the current opcode for its small
-- number, not the last one.
unfoldable pub sig_ops : Bool → (last_opcode opcode : ℕ) → Result ℕ
sig_ops accurate last_opcode op =
    if op == op_checksig || op == op_checksigverify
    then ok 1
    else if op == op_checkmultisig || op == op_checkmultisigverify
    then (if accurate && (leb op_1 last_opcode && leb last_opcode op_16)
        then decode_op_n op
        else ok 20)
    else ok 0

-- The loop of GetSigOpCount, from a last opcode and a count.
unfoldable pub sig_ops_of : Bool → (last_opcode n : ℕ) → Items → Result ℕ
sig_ops_of accurate last_opcode n stop = ok n
sig_ops_of accurate last_opcode n (raise e) = err e
sig_ops_of accurate last_opcode n (yields op d i more) = do
  m ← sig_ops accurate last_opcode op
  sig_ops_of accurate op (n + m) more
sig_ops_of accurate last_opcode n stuck = err assertion_error

unfoldable pub get_sig_op_count : Bool → Bytes → Result ℕ
get_sig_op_count accurate script = sig_ops_of accurate op_invalidopcode 0 (raw_iter script)

-- `script[i:j]`
abbrev pub slice : ℕ → ℕ → Bytes → Bytes
slice i j s = take (j - i) (drop i s)

-- The loop of FindAndDelete, with its variables `r`, `last_sop_idx` and `skip`.
unfoldable pub delete_items :
    (script sig r : Bytes) (last_sop_idx : ℕ) (skip : Bool) → Items → Result Bytes
delete_items script sig r last skip stop = ok (if skip then r else r ++ drop last script)
delete_items script sig r last skip (raise e) = err e
delete_items script sig r last skip (yields op d i more) =
    delete_items script sig (if skip then r else r ++ slice last i script) i
      (bytes_eq (slice i (i + length sig) script) sig) more
delete_items script sig r last skip stuck = err assertion_error

unfoldable pub find_and_delete : Bytes → Bytes → Result Bytes
find_and_delete script sig = delete_items script sig [] 0 true (raw_iter script)
