-- ===== src/Result.antt =====
-- Python's exceptions as values: what a function of the library returns or raises.
use python_bitcointx.Prelude.{◌⊎◌, inl, inr, ℕ, Bytes, ◌≡◌, refl, Bool, true, false}

-- The nine messages of CheckTransactionError.
pub data CheckFailure : Type 0 where
  vin_empty vout_empty size_limits value_negative value_too_high total_out_of_range : CheckFailure
  duplicate_inputs coinbase_script_size prevout_is_null : CheckFailure

-- EvalScriptError and its subclasses, by what they report. The execution state that they carry is left
-- out.
pub data EvalFailure : Type 0 where
  script_too_large opcode_disabled max_op_count push_size number_overflow number_invalid :
      EvalFailure
  -- MissingOpArgumentsError, with the expected depth
  missing_arguments : ℕ → EvalFailure
  -- ArgumentsInvalidError
  keys_count_invalid not_enough_keys sigs_count_invalid not_enough_sigs : EvalFailure
  missing_dummy dummy_not_null : EvalFailure
  -- VerifyOpFailedError
  verify_op_failed : EvalFailure
  else_without_if endif_without_if upgradable_nop out_of_bounds return_called : EvalFailure
  unsupported_opcode stack_limit unterminated_if : EvalFailure
  -- a CScriptInvalidError, which EvalScript turns into an EvalScriptError
  invalid_script : EvalFailure

-- VerifyScriptError, by its message.
pub data VerifyFailure : Type 0 where
  bad_der unknown_hashtype unknown_pubkey_type pubkey_not_compressed high_s : VerifyFailure
  null_fail minimal_if : VerifyFailure
  witness_empty witness_mismatch wrong_program_length upgradeable_program item_size : VerifyFailure
  unhandled_flags empty_stack extra_items returned_false script_sig_not_empty : VerifyFailure
  not_push_only not_single_push unexpected_witness : VerifyFailure

-- VerifySignatureError, by its message.
pub data SignatureFailure : Type 0 where
  negative_in_idx in_idx_too_big prevout_too_big hash_mismatch : SignatureFailure

-- One constructor for each exception class that the modelled code raises. The message texts are
-- left out; the data that an exception carries is kept where a handler can read it.
pub data Error : Type 0 where
  -- SerializationError: a read of more than MAX_SIZE bytes
  serialization_error : Error
  -- SerializationTruncationError
  truncation_error : Error
  -- DeserializationValueBoundsError: value, lower bound, upper bound
  value_bounds_error : ℕ → ℕ → ℕ → Error
  -- DeserializationExtraDataError, with its padding
  extra_data_error : Bytes → Error
  -- CScriptInvalidError
  script_invalid_error : Error
  -- CScriptTruncatedPushDataError, with the data that was there
  truncated_push_error : Bytes → Error
  -- ValueError
  value_error : Error
  -- struct.error
  struct_error : Error
  -- IndexError
  index_error : Error
  -- TypeError
  type_error : Error
  -- Base58Error and its subclasses
  base58_error invalid_base58_error base58_checksum_error unexpected_base58_prefix_error : Error
  -- Bech32Error and its subclasses
  bech32_error unexpected_bech32_length_or_version : Error
  -- AssertionError
  assertion_error : Error
  -- RecursionError
  recursion_error : Error
  -- CheckTransactionError
  check_transaction_error : CheckFailure → Error
  -- EvalScriptError
  eval_script_error : EvalFailure → Error
  -- VerifyScriptError
  verify_script_error : VerifyFailure → Error
  -- VerifySignatureError
  verify_signature_error : SignatureFailure → Error

pub data Result {ℓ} (Returned : Type ℓ) : Type ℓ where
  err : Error → Result Returned
  ok : Returned → Result Returned

-- `if not test: raise error`
abbrev pub guard : Bool → Error → Result (Unit {0})
guard false error = err error
guard true error = ok tt

-- One call after another: a call that raises ends both. These are `abbrev`, so that they compute in
-- every module as soon as the first call has a value.
infixl 5 ◌>>◌ ◌>>=◌
abbrev pub ◌>>=◌ {ℓ κ} :
    {First : Type ℓ} {Second : Type κ} → Result First → (First → Result Second) → Result Second
err error >>= next = err error
ok value >>= next = next value

abbrev pub ◌>>◌ {κ} : {Second : Type κ} → Result (Unit {0}) → Result Second → Result Second
call >> next = call >>= λ done. next

pub ok-injective : {A : Type 0} {a b : A} → ok a ≡ ok b → a ≡ b
ok-injective h = cc

-- A sequence that returns: what its first call returned, and how the second went on.
pub >>=-eq-ok {ℓ κ} :
    {First : Type ℓ} {Second : Type κ} (call : Result First) (next : First → Result Second)
    {x : Second}
    → (call >>= next) ≡ ok x
    → (value : First) × (call ≡ ok value) × (next value ≡ ok x)
>>=-eq-ok (err error) next h = cc
>>=-eq-ok (ok value) next h = (value, refl, h)

-- A guard that lets the rest run.
pub guard_passes {ℓ} :
    {B : Type ℓ} (test : Bool) (e : Error) (m : Result B) {b : B}
    → (guard test e >> m) ≡ ok b
    → (test ≡ true) × (m ≡ ok b)
guard_passes true e m h = (refl, h)
guard_passes false e m h = cc

pub Result-cases {ℓ} :
    {A : Type ℓ} (r : Result A) → ((a : A) × (r ≡ ok a)) ⊎ ((e : Error) × (r ≡ err e))
Result-cases (ok a) = inl (a, refl)
Result-cases (err e) = inr (e, refl)

pub >>=_ok {ℓ} : {A : Type ℓ} (m : Result A) → (m >>= λ a. ok a) ≡ m
>>=_ok (ok a) = refl
>>=_ok (err e) = refl

pub >>=_assoc {ℓ κ μ} :
    {A : Type ℓ} {B : Type κ} {C : Type μ} (m : Result A) (f : A → Result B) (g : B → Result C)
    → (m >>= f >>= g) ≡ (m >>= λ a. f a >>= g)
>>=_assoc (ok a) f g = refl
>>=_assoc (err e) f g = refl
