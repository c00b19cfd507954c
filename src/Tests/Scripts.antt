-- ===== src/Tests/Scripts.antt =====
-- The theorems on the methods of scripts, at concrete inputs.
use python_bitcointx.Prelude.{
  ◌≡◌, refl, true, false, List, [], ◌∷◌, ◌++◌, Bytes, length, replicate, arith,
}
use python_bitcointx.Result.{ok, err, value_error}
use python_bitcointx.Script.Iter.{print_ops}
use python_bitcointx.Script.Pushes.{get_sig_op_count}
use python_bitcointx.Script.Pushes.SigOps.{multisig_ops, get_sig_op_count-multisig}
use python_bitcointx.Script.Templates.{
  is_p2sh, is_witness_scriptpubkey, is_witness_v0_scripthash, witness_version, witness_program,
  to_p2sh_script_pubkey, to_p2wsh_script_pubkey,
}
use python_bitcointx.Script.Templates.Standard.{
  to_p2sh_script_pubkey-is_p2sh, to_p2wsh_script_pubkey-is_witness,
}

abbrev keys : List Bytes
keys = (2 ∷ 9 ∷ []) ∷ (3 ∷ 8 ∷ []) ∷ []

get_sig_op_count-multisig_example :
    get_sig_op_count true (print_ops (multisig_ops 0x51 keys 0x52)) ≡ err value_error
get_sig_op_count-multisig_example =
    get_sig_op_count-multisig 0x51 0x52 keys (omega arith, omega arith) (omega arith, omega arith)
      (omega arith, (omega arith, tt))

abbrev hash20 : Bytes → Bytes
hash20 s = replicate 20 (length s)

abbrev hash32 : Bytes → Bytes
hash32 s = replicate 32 (length s)

to_p2sh_script_pubkey-is_p2sh_example :
    (s : Bytes) × (to_p2sh_script_pubkey hash20 true (0x51 ∷ []) ≡ ok s)
    × (is_p2sh s ≡ true)
    × (s ≡ (0xa9 ∷ 20 ∷ (hash20 (0x51 ∷ []) ++ (0x87 ∷ []))))
    × (is_witness_scriptpubkey s ≡ false)
to_p2sh_script_pubkey-is_p2sh_example =
    to_p2sh_script_pubkey-is_p2sh hash20 (0x51 ∷ []) (omega arith) refl

to_p2wsh_script_pubkey-is_witness_example :
    (s : Bytes) × (to_p2wsh_script_pubkey hash32 true (0x51 ∷ []) ≡ ok s)
    × (is_witness_v0_scripthash s ≡ true)
    × (witness_version s ≡ ok 0)
    × (witness_program s ≡ ok (hash32 (0x51 ∷ [])))
to_p2wsh_script_pubkey-is_witness_example =
    to_p2wsh_script_pubkey-is_witness hash32 (0x51 ∷ []) (omega arith) refl
