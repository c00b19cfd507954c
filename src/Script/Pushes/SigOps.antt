-- ===== src/Script/Pushes/SigOps.antt =====
-- GetSigOpCount on the redeem scripts of standard multisig.
use python_bitcointx.Prelude.{
  ℕ, ◌+◌, ◌≤◌, ◌≡◌, refl, Bool, true, none, some, List, [], ◌∷◌, length, Bytes, All, arith,
}
use python_bitcointx.Result.{ok, err, value_error}
use python_bitcointx.Opcodes.{op_1, op_16, op_checkmultisig, op_invalidopcode}
use python_bitcointx.Script.{decode_op_n}
use python_bitcointx.Script.Iter.{
  Op, WellFormed, well_formed, print_ops, items_of, tail_bytes, raw_iter-print_ops,
}
use python_bitcointx.Script.Build.Data.{push_op, push_opcode, IsPushable, push_op-WellFormed}
use python_bitcointx.Script.Pushes.{sig_ops, sig_ops_of, get_sig_op_count}

abbrev plain : ℕ → Op
plain op = record { opcode = op; pushed = none }

abbrev pub IsSmall : ℕ → Type 0
IsSmall op = (op_1 ≤ op) × (op ≤ op_16)

-- The pushes of the keys, then the number of keys and OP_CHECKMULTISIG.
abbrev pub keys_and_check : List Bytes → ℕ → List Op
keys_and_check [] n = plain n ∷ plain op_checkmultisig ∷ []
keys_and_check (key ∷ keys) n = push_op key ∷ keys_and_check keys n

-- OP_m <key> ... <key> OP_n OP_CHECKMULTISIG
abbrev pub multisig_ops : ℕ → List Bytes → ℕ → List Op
multisig_ops m keys n = plain m ∷ keys_and_check keys n

plain-WellFormed : (op : ℕ) → IsSmall op → WellFormed (plain op)
unfolding well_formed
plain-WellFormed op h = ground (arith, h.0)

keys_and_check-WellFormed :
    (keys : List Bytes) (n : ℕ)
    → IsSmall n
    → All IsPushable keys
    → All WellFormed (keys_and_check keys n)
keys_and_check-WellFormed [] n small h =
    (plain-WellFormed n small, (unfold well_formed in refl, tt))
keys_and_check-WellFormed (key ∷ keys) n small h =
    (push_op-WellFormed key h.0, keys_and_check-WellFormed keys n small h.1)

-- A push adds nothing to the count.
sig_ops-push : (accurate : Bool) (last n : ℕ) → sig_ops accurate last (push_opcode n) ≡ ok 0
unfolding sig_ops push_opcode
sig_ops-push accurate last n = ground arith

sig_ops-small : (accurate : Bool) (last n : ℕ) → IsSmall n → sig_ops accurate last n ≡ ok 0
unfolding sig_ops
sig_ops-small accurate last n h = ground (arith, h.0, h.1)

sig_ops-check : (last : ℕ) → IsSmall last → sig_ops true last op_checkmultisig ≡ err value_error
unfolding sig_ops decode_op_n
sig_ops-check last h = ground (arith, h.0, h.1)

sig_ops_of-keys :
    (keys : List Bytes) (last count i n : ℕ)
    → IsSmall n
    → sig_ops_of true last count (items_of (keys_and_check keys n) i) ≡ err value_error
unfolding sig_ops_of items_of
sig_ops_of-keys [] last count i n h = rw (sig_ops-small true last n h, sig_ops-check n h) refl
sig_ops_of-keys (key ∷ keys) last count i n h = rw (sig_ops-push true last (length key)) (
    sig_ops_of-keys keys (push_opcode (length key)) (count + 0)
      (i + 1 + length (tail_bytes (push_opcode (length key)) (some key))) n h)

-- Counting accurately raises ValueError on OP_m <key> ... <key> OP_n OP_CHECKMULTISIG, for m and n from
-- 1 to 16 and keys shorter than 2 ^ 32 bytes.
pub get_sig_op_count-multisig :
    (m n : ℕ) (keys : List Bytes)
    → IsSmall m
    → IsSmall n
    → All IsPushable keys
    → get_sig_op_count true (print_ops (multisig_ops m keys n)) ≡ err value_error
unfolding get_sig_op_count sig_ops_of items_of
get_sig_op_count-multisig m n keys hm hn h =
    rw
      (
        raw_iter-print_ops (multisig_ops m keys n)
            (plain-WellFormed m hm, keys_and_check-WellFormed keys n hn h),
        sig_ops-small true op_invalidopcode m hm,
      )
      (sig_ops_of-keys keys m 0 (0 + 1 + length (tail_bytes m none)) n hn)
