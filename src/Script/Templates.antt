-- ===== src/Script/Templates.antt =====
-- bitcointx/core/script.py: the tests of `CScript` for the standard templates, and what they extract.
pub mod Standard
use python_bitcointx.Prelude.{
  ℕ, ◌+◌, Bool, not, ◌&&◌, ◌||◌, [], ◌∷◌, length, take, drop, get_or, Bytes, bytes_eq, ltb, ◌==◌,
  if◌then◌else◌,
}
use python_bitcointx.Prelude.Int.{pos}
use python_bitcointx.Result.{Result, ok, err, value_error}
use python_bitcointx.Opcodes.{op_dup, op_hash160, op_equal, op_equalverify, op_checksig, op_return}
use python_bitcointx.Script.{is_small_int, decode_op_n}
use python_bitcointx.Script.Build.{opcode, number, pushed, make_script}

abbrev pub max_script_size : ℕ
max_script_size = 10000

abbrev pub max_script_element_size : ℕ
max_script_element_size = 520

abbrev pub max_standard_p2wsh_script_size : ℕ
max_standard_p2wsh_script_size = 3600

unfoldable pub is_p2sh : Bytes → Bool
is_p2sh s =
    length s == 23
    && get_or s 0 0 == op_hash160
    && get_or s 1 0 == 0x14
    && get_or s 22 0 == op_equal

unfoldable pub is_p2pkh : Bytes → Bool
is_p2pkh s =
    length s == 25
    && get_or s 0 0 == op_dup
    && get_or s 1 0 == op_hash160
    && get_or s 2 0 == 0x14
    && get_or s 23 0 == op_equalverify
    && get_or s 24 0 == op_checksig

unfoldable pub is_witness_scriptpubkey : Bytes → Bool
is_witness_scriptpubkey s =
    not (ltb (length s) 4 || ltb 42 (length s))
    && is_small_int (get_or s 0 0)
    && get_or s 1 0 + 2 == length s

unfoldable pub witness_version : Bytes → Result ℕ
witness_version s =
    if is_witness_scriptpubkey s then decode_op_n (get_or s 0 0) else err value_error

unfoldable pub witness_program : Bytes → Result Bytes
witness_program s = if is_witness_scriptpubkey s then ok (drop 2 s) else err value_error

unfoldable pub is_witness_v0_keyhash : Bytes → Bool
is_witness_v0_keyhash s = length s == 22 && bytes_eq (take 2 s) (0 ∷ 0x14 ∷ [])

unfoldable pub is_witness_v0_nested_keyhash : Bytes → Bool
is_witness_v0_nested_keyhash s = length s == 23 && bytes_eq (take 3 s) (0x16 ∷ 0 ∷ 0x14 ∷ [])

unfoldable pub is_witness_v0_scripthash : Bytes → Bool
is_witness_v0_scripthash s = length s == 34 && bytes_eq (take 2 s) (0 ∷ 0x20 ∷ [])

unfoldable pub is_witness_v1_taproot : Bytes → Bool
is_witness_v1_taproot s = length s == 34 && bytes_eq (take 2 s) (0x51 ∷ 0x20 ∷ [])

unfoldable pub is_witness_v0_nested_scripthash : Bytes → Bool
is_witness_v0_nested_scripthash s = length s == 35 && bytes_eq (take 3 s) (0x22 ∷ 0 ∷ 0x20 ∷ [])

unfoldable pub pubkey_hash : Bytes → Result Bytes
pubkey_hash s =
    if is_witness_v0_keyhash s
    then witness_program s
    else if is_p2pkh s
    then ok (take 20 (drop 3 s))
    else err value_error

unfoldable pub is_unspendable : Bytes → Bool
is_unspendable s = (ltb 0 (length s) && get_or s 0 0 == op_return) || ltb max_script_size (length s)

-- The hash functions are arguments: `hash160` is Hash160, `sha256` is SHA-256.
unfoldable pub to_p2sh_script_pubkey : (Bytes → Bytes) → Bool → Bytes → Result Bytes
to_p2sh_script_pubkey hash160 checksize s =
    if checksize && ltb max_script_element_size (length s)
    then err value_error
    else make_script (opcode op_hash160 ∷ pushed (hash160 s) ∷ opcode op_equal ∷ [])

unfoldable pub to_p2wsh_script_pubkey : (Bytes → Bytes) → Bool → Bytes → Result Bytes
to_p2wsh_script_pubkey sha256 checksize s =
    if checksize && ltb max_standard_p2wsh_script_size (length s)
    then err value_error
    else make_script (number (pos 0) ∷ pushed (sha256 s) ∷ [])
