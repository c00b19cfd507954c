-- ===== src/Script/Templates/Standard.antt =====
-- The scripts that `to_p2sh_scriptPubKey` and `to_p2wsh_scriptPubKey` build, under the tests for
-- templates.
use mathlib.Core.List.{append-nil}
use python_bitcointx.Prelude.{
  ℕ, ◌≤◌, ◌≡◌, refl, sym, ap, ◌∙◌, true, false, [], ◌∷◌, ◌++◌, length, length-append, get_or, Bytes,
  arith,
}
use python_bitcointx.Result.{ok}
use python_bitcointx.Opcodes.{op_hash160, op_equal}
use python_bitcointx.Script.{encode_op_pushdata, encode_op_n, decode_op_n, is_small_int}
use python_bitcointx.Script.Build.{make_script, coerce_instance, coerce_number}
use python_bitcointx.Script.Templates.{
  is_p2sh, is_witness_scriptpubkey, is_witness_v0_scripthash, witness_version, witness_program,
  to_p2sh_script_pubkey, to_p2wsh_script_pubkey,
}

encode_short : (d : Bytes) → length d ≤ 75 → encode_op_pushdata d ≡ ok (length d ∷ d)
unfolding encode_op_pushdata
encode_short d h = ground arith

get_or-append : (xs ys : Bytes) (y : ℕ) → get_or (xs ++ (y ∷ ys)) (length xs) 0 ≡ y
get_or-append [] ys y = refl
get_or-append (x ∷ xs) ys y = get_or-append xs ys y

-- A script of at most 520 bytes gets a P2SH output script, and that is one by `is_p2sh` and holds
-- the 20 bytes of its hash, and is no witness program.
pub to_p2sh_script_pubkey-is_p2sh :
    (hash160 : Bytes → Bytes) (redeem : Bytes)
    → length redeem ≤ 520
    → length (hash160 redeem) ≡ 20
    → (s : Bytes) × (to_p2sh_script_pubkey hash160 true redeem ≡ ok s)
      × (is_p2sh s ≡ true)
      × (s ≡ (op_hash160 ∷ 20 ∷ (hash160 redeem ++ (op_equal ∷ []))))
      × (is_witness_scriptpubkey s ≡ false)
unfolding to_p2sh_script_pubkey make_script coerce_instance is_p2sh is_witness_scriptpubkey
    is_small_int
to_p2sh_script_pubkey-is_p2sh hash160 redeem short h =
    let d : Bytes = hash160 redeem in
    let len : length (d ++ (op_equal ∷ [])) ≡ 21 =
      omega (arith, h, length-append d (op_equal ∷ [])) in
    let last : get_or (d ++ (op_equal ∷ [])) 20 0 ≡ op_equal =
      ap (λ k. get_or (d ++ (op_equal ∷ [])) k 0) (sym h) ∙ get_or-append d [] op_equal in
    (
      op_hash160 ∷ 20 ∷ (d ++ (op_equal ∷ [])),
      rw (encode_short d (omega (arith, h)), h) (ground arith),
      rw (len, last) refl,
      refl,
      rw len refl,
    )

-- A script of at most 3600 bytes gets a P2WSH output script, and that is one by
-- `is_witness_v0_scripthash`, with version 0 and the 32 bytes of its hash as the program.
pub to_p2wsh_script_pubkey-is_witness :
    (sha256 : Bytes → Bytes) (script : Bytes)
    → length script ≤ 3600
    → length (sha256 script) ≡ 32
    → (s : Bytes) × (to_p2wsh_script_pubkey sha256 true script ≡ ok s)
      × (is_witness_v0_scripthash s ≡ true)
      × (witness_version s ≡ ok 0)
      × (witness_program s ≡ ok (sha256 script))
unfolding to_p2wsh_script_pubkey make_script coerce_instance coerce_number encode_op_n
    is_witness_v0_scripthash witness_version witness_program is_witness_scriptpubkey is_small_int
    decode_op_n
to_p2wsh_script_pubkey-is_witness sha256 script short h = (
  0 ∷ 32 ∷ sha256 script,
  rw (encode_short (sha256 script) (omega (arith, h)), h, append-nil (sha256 script))
      (ground arith),
  rw h refl,
  rw h refl,
  rw h refl,
)
