-- ===== src/Eval.antt =====
-- bitcointx/core/scripteval.py: the script interpreter. Here: its flags, its context and state, and
-- the casts of a stack item.
--
-- The stack is a list with its top first, so that `stack[-n]` of the code is `item stack n`.
pub mod Stack
pub mod Numeric
pub mod Signature
pub mod MultiSig
pub mod Step
pub mod Verify
use python_bitcointx.Prelude.{
  ℕ, zero, suc, ◌+◌, ◌-◌, Bool, true, false, not, ◌&&◌, ◌||◌, Option, none, some, List, [], ◌∷◌,
  ◌++◌, length, get_or, take, drop, Bytes, leb, ltb, ◌==◌, if◌then◌else◌,
}
use python_bitcointx.Prelude.Int.{ℤ}
use python_bitcointx.Result.{
  Result, ok, err, ◌>>=◌, ◌>>◌, guard, EvalFailure, VerifyFailure, eval_script_error,
  verify_script_error, number_overflow, number_invalid, missing_arguments,
}
use python_bitcointx.Bignum.{vch2bn}

-- SCRIPT_VERIFY_*
pub data Flag : Type 0 where
  verify_p2sh verify_strictenc verify_dersig verify_low_s verify_nulldummy : Flag
  verify_sigpushonly verify_minimaldata verify_discourage_upgradable_nops : Flag
  verify_cleanstack verify_checklocktimeverify verify_checksequenceverify : Flag
  verify_minimalif verify_nullfail verify_witness : Flag
  verify_discourage_upgradable_witness_program verify_witness_pubkeytype : Flag
  verify_const_scriptcode verify_taproot : Flag

-- A set of flags, by its membership test.
abbrev pub Flags : Type 0
Flags = Flag → Bool

pub data SigVersion : Type 0 where
  base witness_v0 : SigVersion

abbrev pub is_base : SigVersion → Bool
is_base base = true
is_base witness_v0 = false

-- What the interpreter takes from elsewhere: the hash functions, the check of an ECDSA signature
-- against a public key (strict and lax in the encoding; public key, hash, signature), and the
-- signature hash for the transaction and the input at hand (script code, hash type, amount, version).
pub record Crypto : Type 0 where
  pub hash160 : Bytes → Bytes
  pub hash256 : Bytes → Bytes
  pub ripemd160 : Bytes → Bytes
  pub sha1 : Bytes → Bytes
  pub sha256 : Bytes → Bytes
  pub verify : Bytes → Bytes → Bytes → Bool
  pub verify_nonstrict : Bytes → Bytes → Bytes → Bool
  pub raw_sighash : Bytes → ℕ → ℤ → SigVersion → Result Bytes

-- The arguments of `_EvalScript` that stay as they are.
pub record Context : Type 0 where
  pub crypto : Crypto
  pub script_in : Bytes
  pub flags : Flags
  pub amount : ℤ
  pub sigversion : SigVersion

-- The variables of `_EvalScript`; `vf_exec` has the innermost branch first.
pub record State : Type 0 where
  pub stack : List Bytes
  pub altstack : List Bytes
  pub vf_exec : List Bool
  pub pbegincodehash : ℕ
  pub n_op_count : ℕ

abbrev pub max_num_size : ℕ
max_num_size = 4

abbrev pub max_stack_items : ℕ
max_stack_items = 1000

abbrev pub max_script_opcodes : ℕ
max_script_opcodes = 201

abbrev pub fail_eval {ℓ} : {A : Type ℓ} → EvalFailure → Result A
fail_eval f = err (eval_script_error f)

abbrev pub fail_verify {ℓ} : {A : Type ℓ} → VerifyFailure → Result A
fail_verify f = err (verify_script_error f)

-- `stack[-n]`, `del stack[-n]`, `stack[-n] = v` and `len(stack)`, for n from 1 to the length
abbrev pub item : List Bytes → ℕ → Bytes
item stack n = get_or stack (n - 1) []

abbrev pub delete : List Bytes → ℕ → List Bytes
delete stack n = take (n - 1) stack ++ drop n stack

abbrev pub assign : List Bytes → ℕ → Bytes → List Bytes
assign stack n v = take (n - 1) stack ++ (v ∷ drop n stack)

-- `check_args(n)`
abbrev pub check_args : ℕ → List Bytes → Result (Unit {0})
check_args n stack = guard (leb n (length stack)) (eval_script_error (missing_arguments n))

-- _CastToBigNum
unfoldable pub cast_to_big_num : Bytes → Result ℤ
cast_to_big_num b =
    if ltb max_num_size (length b)
    then fail_eval number_overflow
    else (do v ← vch2bn b; elim v [ none ↦ fail_eval number_invalid | some n ↦ ok n ])

-- _CastToBool: a byte that is not zero, but the sign bit of a last byte alone.
unfoldable pub cast_to_bool : Bytes → Bool
cast_to_bool [] = false
cast_to_bool (bv ∷ b) = if bv == 0 then cast_to_bool b else not (length b == 0 && bv == 0x80)

-- _CheckExec
unfoldable pub check_exec : List Bool → Bool
check_exec [] = true
check_exec (b ∷ vf_exec) = b && check_exec vf_exec

-- What the code pushes for a truth value.
abbrev pub truth : Bool → Bytes
truth b = if b then 1 ∷ [] else []
