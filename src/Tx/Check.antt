-- ===== src/Tx/Check.antt =====
-- bitcointx/core/__init__.py: MoneyRange and CheckTransaction, the checks of a transaction that need
-- no context.
pub mod Laws
pub mod Accepted
use python_bitcointx.Prelude.{
  ℕ, zero, suc, ◌*◌, Bool, true, false, not, ◌&&◌, List, [], ◌∷◌, length, Bytes, bytes_eq, ltb, leb,
  ◌==◌, if◌then◌else◌,
}
use python_bitcointx.Prelude.Int.{ℤ, pos, ◌+ℤ◌, ltb_ℤ, leb_ℤ}
use python_bitcointx.Result.{
  Result, ok, err, ◌>>=◌, ◌>>◌, guard, CheckFailure, check_transaction_error, vin_empty, vout_empty,
  size_limits, value_negative, value_too_high, total_out_of_range, duplicate_inputs,
  coinbase_script_size, prevout_is_null,
}
use python_bitcointx.Tx.{
  TxIn, TxOut, Transaction, serialize_outpoint, outpoint_is_null, serialize_tx, is_coinbase,
}

-- CoreCoinParams
abbrev pub coin : ℕ
coin = 100000000

abbrev pub max_block_weight : ℕ
max_block_weight = 4000000

abbrev pub witness_scale_factor : ℕ
witness_scale_factor = 4

abbrev pub max_money : ℕ
max_money = 21000000 * coin

unfoldable pub money_range : ℤ → Bool
money_range v = leb_ℤ (pos 0) v && leb_ℤ v (pos max_money)

unfoldable pub fail : CheckFailure → Result (Unit {0})
fail f = err (check_transaction_error f)

-- The loop over the outputs, from the sum so far.
unfoldable pub check_values : ℤ → List TxOut → Result (Unit {0})
unfolding money_range fail
check_values total [] = ok tt
check_values total (o ∷ os) =
    if ltb_ℤ o.n_value (pos 0)
    then fail value_negative
    else if ltb_ℤ (pos max_money) o.n_value
    then fail value_too_high
    else if not (money_range (total +ℤ o.n_value))
    then fail total_out_of_range
    else check_values (total +ℤ o.n_value) os

unfoldable pub contains : List Bytes → Bytes → Bool
contains [] k = false
contains (j ∷ js) k = if bytes_eq j k then true else contains js k

-- The loop over the inputs. The members of the set are compared and hashed by their serialization.
unfoldable pub check_duplicates : List Bytes → List TxIn → Result (Unit {0})
unfolding fail
check_duplicates vin_outpoints [] = ok tt
check_duplicates vin_outpoints (i ∷ is) = do
  k ← serialize_outpoint i.prevout
  if contains vin_outpoints k
      then fail duplicate_inputs
      else check_duplicates (k ∷ vin_outpoints) is

-- The script of the only input of a coinbase transaction.
unfoldable pub check_coinbase : List TxIn → Result (Unit {0})
unfolding fail
check_coinbase [] = ok tt
check_coinbase (i ∷ is) =
    if leb 2 (length i.script_sig) && leb (length i.script_sig) 100
    then ok tt
    else fail coinbase_script_size

unfoldable pub check_prevouts : List TxIn → Result (Unit {0})
unfolding fail
check_prevouts [] = ok tt
check_prevouts (i ∷ is) =
    if outpoint_is_null i.prevout then fail prevout_is_null else check_prevouts is

unfoldable pub check_transaction : Transaction → Result (Unit {0})
check_transaction tx = do
  guard (not (length tx.vin == 0)) (check_transaction_error vin_empty)
  guard (not (length tx.vout == 0)) (check_transaction_error vout_empty)
  s ← serialize_tx false tx
  guard (leb (length s * witness_scale_factor) max_block_weight)
      (check_transaction_error size_limits)
  check_values (pos 0) tx.vout
  check_duplicates [] tx.vin
  if is_coinbase tx then check_coinbase tx.vin else check_prevouts tx.vin
