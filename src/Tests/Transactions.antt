-- ===== src/Tests/Transactions.antt =====
-- The theorems on transactions, at concrete inputs.
use mathlib.Core.Logic.{◌↔◌}
use python_bitcointx.Prelude.{
  ◌≡◌, refl, inl, inr, true, false, [], ◌∷◌, ◌++◌, Bytes, replicate, arith,
}
use python_bitcointx.Prelude.Int.{pos}
use python_bitcointx.Result.{ok}
use python_bitcointx.Struct.{fits_signed}
use python_bitcointx.Tx.{TxIn, TxOut, Transaction, serialize_tx, deserialize_tx, wit_is_null}
use python_bitcointx.Tx.RoundTrip.{IsTx, tx_round_trip}
use python_bitcointx.Tx.Check.{check_transaction}
use python_bitcointx.Tx.Check.Accepted.{IsAccepted, check_transaction_iff}

abbrev spend : TxIn
spend = record {
  prevout = record { hash = replicate 32 7; n = 1 };
  script_sig = 0x51 ∷ [];
  n_sequence = 0xffffffff;
}

abbrev output : TxOut
output = record { n_value = pos 5000; script_pubkey = 0x6a ∷ [] }

abbrev payment : Transaction
payment = record {
  n_version = pos 2;
  vin = spend ∷ [];
  vout = output ∷ output ∷ [];
  n_lock_time = 17;
  wit = ((1 ∷ []) ∷ []) ∷ [];
}

payment-IsTx : IsTx false payment
unfolding fits_signed wit_is_null
payment-IsTx = record {
  version = refl;
  inputs =
      ((omega arith, inr (omega arith)), (((refl, omega arith), omega arith, omega arith), tt));
  outputs = ((omega arith, inr (omega arith)), ((refl, omega arith), ((refl, omega arith), tt)));
  lock_time = omega arith;
  witness = inr (refl, refl, (((omega arith, inr (omega arith)), (omega arith, tt)), tt));
  marker = inl (λ e. cc);
}

tx_round_trip_example :
    (s : Bytes) × (serialize_tx true payment ≡ ok s)
    × (deserialize_tx false (s ++ (5 ∷ [])) ≡ ok (payment, 5 ∷ []))
tx_round_trip_example = tx_round_trip false payment (5 ∷ []) payment-IsTx

check_transaction_iff_example : (check_transaction payment ≡ ok tt) ↔ IsAccepted payment
check_transaction_iff_example = check_transaction_iff payment ((refl, omega arith), tt)
