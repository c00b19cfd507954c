-- ===== src/Script.antt =====
-- bitcointx/core/script.py: `CScriptOp`, and `CScript` with its iteration. A script is its bytes.
pub mod Iter
pub mod Partition
pub mod Build
pub mod Pushes
pub mod Templates
pub mod Multisig
use python_bitcointx.Prelude.{
  ℕ, zero, suc, ◌+◌, ◌-◌, ◌*◌, Bool, true, false, ◌&&◌, ◌||◌, Option, none, some, List, [], ◌∷◌,
  ◌++◌, length, take, drop, get_or, Bytes, ltb, leb, ◌==◌, if◌then◌else◌,
}
use python_bitcointx.Prelude.Int.{ℤ, pos, negsuc}
use python_bitcointx.Result.{
  Error, Result, ok, err, ◌>>=◌, value_error, script_invalid_error, truncated_push_error,
}
use python_bitcointx.Struct.{pack, from_le}
use python_bitcointx.Opcodes.{op_0, op_pushdata1, op_pushdata2, op_pushdata4, op_1, op_16}

-- CScriptOp.encode_op_pushdata
unfoldable pub encode_op_pushdata : Bytes → Result Bytes
encode_op_pushdata d =
    if ltb (length d) 0x4c
    then ok (length d ∷ d)
    else if leb (length d) 0xff
    then ok (0x4c ∷ length d ∷ d)
    else if leb (length d) 0xffff
    then (do n ← pack 2 (length d); ok (0x4d ∷ (n ++ d)))
    else if leb (length d) 0xffffffff
    then (do n ← pack 4 (length d); ok (0x4e ∷ (n ++ d)))
    else err value_error

-- CScriptOp.encode_op_n
unfoldable pub encode_op_n : ℤ → Result ℕ
encode_op_n (negsuc n) = err value_error
encode_op_n (pos n) =
    if leb n 16 then ok (if n == 0 then op_0 else op_1 + n - 1) else err value_error

-- CScriptOp.decode_op_n
unfoldable pub decode_op_n : ℕ → Result ℕ
decode_op_n op =
    if op == op_0
    then ok 0
    else if leb op_1 op && leb op op_16
    then ok (op - op_1 + 1)
    else err value_error

-- CScriptOp.is_small_int
unfoldable pub is_small_int : ℕ → Bool
is_small_int op = (leb 0x51 op && leb op 0x60) || op == 0

-- What the generator `raw_iter` does: it yields an opcode, the data that the opcode pushes and the
-- index of the opcode's byte, and goes on; it ends; or it raises. `stuck` is no outcome of the
-- program: the recursion ran out of fuel.
pub data Items : Type 0 where
  stop : Items
  raise : Error → Items
  yields : ℕ → Option Bytes → ℕ → Items → Items
  stuck : Items

-- `data = self[i:i+datasize]` and the check for truncation, with the bytes behind the data.
unfoldable pub read_data : ℕ → Bytes → Result (Option Bytes × Bytes)
read_data datasize rest =
    if ltb (length (take datasize rest)) datasize
    then err (truncated_push_error (take datasize rest))
    else ok (some (take datasize rest), drop datasize rest)

-- A data size of `k` bytes, and the data.
unfoldable pub read_sized : ℕ → Bytes → Result (Option Bytes × Bytes)
unfolding read_data
read_sized k rest =
    if ltb (length rest) k
    then err script_invalid_error
    else read_data (from_le (take k rest)) (drop k rest)

-- One round of the loop of `raw_iter` on the bytes behind the opcode.
unfoldable pub read_op : ℕ → Bytes → Result (Option Bytes × Bytes)
unfolding read_sized
read_op opcode rest =
    if ltb op_pushdata4 opcode
    then ok (none, rest)
    else if ltb opcode op_pushdata1
    then read_data opcode rest
    else if opcode == op_pushdata1
    then read_sized 1 rest
    else if opcode == op_pushdata2
    then read_sized 2 rest
    else read_sized 4 rest

-- The loop of `raw_iter`, on the bytes from index `i` on.
unfoldable pub raw_iter_from : ℕ → Bytes → ℕ → Items
raw_iter_from fuel [] i = stop
raw_iter_from zero (opcode ∷ rest) i = stuck
raw_iter_from (suc fuel) (opcode ∷ rest) i = elim (read_op opcode rest) [
  | err e ↦ raise e
  | ok (pushed, rest') ↦
      yields opcode pushed i (raw_iter_from fuel rest' (i + 1 + (length rest - length rest')))
]

-- CScript.raw_iter. Each round takes a byte at least.
unfoldable pub raw_iter : Bytes → Items
unfolding raw_iter_from
raw_iter script = raw_iter_from (length script) script 0
