-- ===== src/Tx/Size.antt =====
-- bitcointx/core/__init__.py: the virtual size of a transaction, and the count of its signature
-- operations.
pub mod Weight
use python_bitcointx.Prelude.{
  ℕ, ◌+◌, ◌-◌, ◌*◌, ◌/◌, Bool, true, false, List, [], ◌∷◌, ltb, leb, ◌==◌, if◌then◌else◌,
}
use python_bitcointx.Result.{Result, ok, err, ◌>>=◌, value_error}
use python_bitcointx.Script.Pushes.{get_sig_op_count}
use python_bitcointx.Tx.{TxIn, TxOut, Transaction}

unfoldable pub get_size_of_compact_size : ℕ → ℕ
get_size_of_compact_size size =
    if ltb size 0xfd then 1 else if leb size 0xffff then 3 else if leb size 0xffffffff then 5 else 9

-- What `witness_size` becomes before it is counted.
unfoldable pub counted_witness_size : (num_inputs witness_size : ℕ) → Result ℕ
counted_witness_size num_inputs witness_size =
    if witness_size == 0
    then ok 0
    else if ltb witness_size num_inputs
    then err value_error
    else if witness_size == num_inputs
    then ok 0
    else ok (witness_size + 2)

-- calculate_transaction_virtual_size, with WITNESS_SCALE_FACTOR = 4
unfoldable pub calculate_transaction_virtual_size :
    (num_inputs inputs_serialized_size num_outputs outputs_serialized_size witness_size : ℕ)
    → Result ℕ
calculate_transaction_virtual_size num_inputs inputs_size num_outputs outputs_size witness_size = do
  w ← counted_witness_size num_inputs witness_size
  let base_size =
      4
      + get_size_of_compact_size num_inputs
      + inputs_size
      + get_size_of_compact_size num_outputs
      + outputs_size
      + 4
  ok ((base_size * 4 + w + 4 - 1) / 4)

-- GetLegacySigOpCount: the loops over the inputs and the outputs.
unfoldable pub sig_ops_of_inputs : ℕ → List TxIn → Result ℕ
sig_ops_of_inputs n [] = ok n
sig_ops_of_inputs n (i ∷ is) = do
  m ← get_sig_op_count false i.script_sig
  sig_ops_of_inputs (n + m) is

unfoldable pub sig_ops_of_outputs : ℕ → List TxOut → Result ℕ
sig_ops_of_outputs n [] = ok n
sig_ops_of_outputs n (o ∷ os) = do
  m ← get_sig_op_count false o.script_pubkey
  sig_ops_of_outputs (n + m) os

unfoldable pub get_legacy_sig_op_count : Transaction → Result ℕ
get_legacy_sig_op_count tx = do n ← sig_ops_of_inputs 0 tx.vin; sig_ops_of_outputs n tx.vout
