-- ===== src/Eval/Numeric/Integers.antt =====
-- The numeric opcodes compute on the integers that the stack items stand for.
use mathlib.Core.Logic.{◌≢◌, ◌⊎◌}
use native.Mathlib.Decide.{dec_lt}
use native.Mathlib.Nat.{pow-le-pow_right}
use python_bitcointx.Prelude.{
  ℕ, ◌^◌, ◌≤◌, ◌<◌, ◌≡◌, refl, sym, ap, ◌∙◌, inl, inr, Bool, true, false, not, ◌&&◌, ◌||◌, some,
  List, ◌∷◌, length, Bytes, ◌==◌, if◌then◌else◌, arith, Bool-cases, le→ltb_false, le→leb,
}
use python_bitcointx.Prelude.Int.{ℤ, pos, ◌+ℤ◌, ◌-ℤ◌, ◌≤ℤ◌, ◌<ℤ◌, ltb_ℤ, leb_ℤ, eq_ℤ}
use python_bitcointx.Result.{ok, ok-injective, verify_op_failed}
use python_bitcointx.Bignum.{bn_bytes, magnitude, needs_ext, bn2vch, vch2bn}
use python_bitcointx.Bignum.Magnitude.{bn_bytes_room, bn_bytes-le}
use python_bitcointx.Bignum.RoundTrip.{bn2vch_round_trip}
use python_bitcointx.Opcodes.{
  op_add, op_sub, op_booland, op_boolor, op_numequal, op_numequalverify, op_numnotequal,
  op_lessthan, op_greaterthan, op_lessthanorequal, op_greaterthanorequal, op_min, op_max,
}
use python_bitcointx.Eval.{cast_to_big_num, fail_eval}
use python_bitcointx.Eval.Numeric.{int_of, binary_value, bin_op}
use python_bitcointx.Eval.Numeric.Values.{
  IsTruth, IsTruth-int_of, eq_ℤ→eq, eq_ℤ→ne, not-eq_ℤ→ne, not-eq_ℤ→eq, both_nonzero, one_zero,
  one_nonzero, both_zero, sub-add, magnitude-add, magnitude-sub, magnitude-int_of,
}

-- A number whose vector has at most four bytes.
abbrev pub IsOperand : ℤ → Type 0
IsOperand v = bn_bytes (magnitude v) (needs_ext (magnitude v)) ≤ 4

cast_to_big_num-bn2vch :
    (v : ℤ) (s : Bytes) → IsOperand v → bn2vch v ≡ ok s → cast_to_big_num s ≡ ok v
unfolding cast_to_big_num
cast_to_big_num-bn2vch v s h e =
    let (t, w, len, back) = bn2vch_round_trip v (omega (arith, h)) in
    let same : t ≡ s = ok-injective (sym w ∙ e) in
    let size : length t ≡ length s = ap length same in
    let back' : vch2bn s ≡ ok (some v) = ap vch2bn (sym same) ∙ back in
    rw (le→ltb_false 4 (length s) (omega (arith, size, len, h)), back') refl

IsOperand-lt : (v : ℤ) → IsOperand v → magnitude v < 2 ^ 31
IsOperand-lt v h = elim (dec_lt 0 (magnitude v)) [
  | no p ↦ omega arith
  | yes p ↦
      let room = bn_bytes_room (magnitude v) p in
      let wide : 256 ^ bn_bytes (magnitude v) (needs_ext (magnitude v)) ≤ 256 ^ 4 =
        pow-le-pow_right (omega arith) h in
      omega (arith, room, wide)
]

-- A number of at most 2 ^ 32 in magnitude has a vector.
has_vector : (r : ℤ) → magnitude r ≤ 2 ^ 32 → (u : Bytes) × (bn2vch r ≡ ok u)
has_vector r h =
    let le = bn_bytes-le 4 (magnitude r) (omega arith) in
    let (u, e, len, back) = bn2vch_round_trip r (omega (arith, le)) in (u, e)

-- The opcode replaces the operands, of which `t` is on top, by the vector of a number of which `P`
-- holds.
abbrev pub Computes : (op : ℕ) (s t : Bytes) (stack : List Bytes) → (ℤ → Type 0) → Type 0
Computes op s t stack P =
    (r : ℤ) × (u : Bytes) × P r × (bn2vch r ≡ ok u) × (bin_op op (t ∷ s ∷ stack) ≡ ok (u ∷ stack))

-- What the opcodes do with the vectors `s` and `t` of the integers `a` and `b`.
pub record Computed (a b : ℤ) (s t : Bytes) (stack : List Bytes) : Type 0 where
  pub add : Computes op_add s t stack (λ r. r ≡ a +ℤ b)
  pub sub : Computes op_sub s t stack (λ r. r +ℤ b ≡ a)
  pub booland : Computes op_booland s t stack (λ r. IsTruth r ((a ≢ pos 0) × (b ≢ pos 0)))
  pub boolor : Computes op_boolor s t stack (λ r. IsTruth r ((a ≢ pos 0) ⊎ (b ≢ pos 0)))
  pub numequal : Computes op_numequal s t stack (λ r. IsTruth r (a ≡ b))
  pub numnotequal : Computes op_numnotequal s t stack (λ r. IsTruth r (a ≢ b))
  pub lessthan : Computes op_lessthan s t stack (λ r. IsTruth r (a <ℤ b))
  pub greaterthan : Computes op_greaterthan s t stack (λ r. IsTruth r (b <ℤ a))
  pub lessthanorequal : Computes op_lessthanorequal s t stack (λ r. IsTruth r (a ≤ℤ b))
  pub greaterthanorequal : Computes op_greaterthanorequal s t stack (λ r. IsTruth r (b ≤ℤ a))
  pub min : Computes op_min s t stack (λ r. (r ≤ℤ a) × (r ≤ℤ b) × ((r ≡ a) ⊎ (r ≡ b)))
  pub max : Computes op_max s t stack (λ r. (a ≤ℤ r) × (b ≤ℤ r) × ((r ≡ a) ⊎ (r ≡ b)))
  pub numequalverify :
      ((a ≡ b) × (bin_op op_numequalverify (t ∷ s ∷ stack) ≡ ok stack))
      ⊎ ((a ≢ b) × (bin_op op_numequalverify (t ∷ s ∷ stack) ≡ fail_eval verify_op_failed))

module _ (a b : ℤ) (s t : Bytes) (stack : List Bytes) (ha : IsOperand a) (hb : IsOperand b)
    (ea : bn2vch a ≡ ok s) (eb : bn2vch b ≡ ok t) where
  computes :
      {P : ℤ → Type 0} (op : ℕ) (r : ℤ)
      → (op == op_numequalverify) ≡ false
      → binary_value op a b ≡ ok r
      → magnitude r ≤ 2 ^ 32
      → P r
      → Computes op s t stack P
  unfolding bin_op
  computes op r other value small p =
      let (u, eu) = has_vector r small in
      (
        r,
        u,
        p,
        eu,
        rw
            (
              le→leb 2 (length (t ∷ s ∷ stack)) (omega arith),
              cast_to_big_num-bn2vch b t hb eb,
              cast_to_big_num-bn2vch a s ha ea,
              other,
              value,
              eu,
            )
            refl,
      )

  computes_truth :
      {P : Type 0} (op : ℕ) (c : Bool)
      → (op == op_numequalverify) ≡ false
      → binary_value op a b ≡ ok (int_of c)
      → (c ≡ true → P)
      → (c ≡ false → ¬ P)
      → Computes op s t stack (λ r. IsTruth r P)
  computes_truth op c other value holds fails =
      computes op (int_of c) other value (omega (arith, magnitude-int_of c))
        (IsTruth-int_of c holds fails)

  numequalverify_cases :
      ((a ≡ b) × (bin_op op_numequalverify (t ∷ s ∷ stack) ≡ ok stack))
      ⊎ ((a ≢ b) × (bin_op op_numequalverify (t ∷ s ∷ stack) ≡ fail_eval verify_op_failed))
  unfolding bin_op
  numequalverify_cases =
      let two = le→leb 2 (length (t ∷ s ∷ stack)) (omega arith) in
      let top = cast_to_big_num-bn2vch b t hb eb in
      let below = cast_to_big_num-bn2vch a s ha ea in
      elim (Bool-cases (eq_ℤ a b)) [
        | inl e ↦ inl (eq_ℤ→eq a b e, rw (two, top, below, e) refl)
        | inr e ↦ inr (eq_ℤ→ne a b e, rw (two, top, below, e) refl)
      ]

  smaller :
      (c : Bool)
      → ltb_ℤ a b ≡ c
      → (r : ℤ) × (r ≡ (if c then a else b))
        × (magnitude r ≤ 2 ^ 32)
        × (r ≤ℤ a)
        × (r ≤ℤ b)
        × ((r ≡ a) ⊎ (r ≡ b))
  smaller true h = (a, refl, omega (arith, IsOperand-lt a ha), omega arith, ground arith, inl refl)
  smaller false h = (b, refl, omega (arith, IsOperand-lt b hb), ground arith, omega arith, inr refl)

  larger :
      (c : Bool)
      → ltb_ℤ b a ≡ c
      → (r : ℤ) × (r ≡ (if c then a else b))
        × (magnitude r ≤ 2 ^ 32)
        × (a ≤ℤ r)
        × (b ≤ℤ r)
        × ((r ≡ a) ⊎ (r ≡ b))
  larger true h = (a, refl, omega (arith, IsOperand-lt a ha), omega arith, ground arith, inl refl)
  larger false h = (b, refl, omega (arith, IsOperand-lt b hb), ground arith, omega arith, inr refl)

  -- On the vectors of two numbers of at most four bytes each, OP_ADD and OP_SUB leave the vector of
  -- the sum and of the difference, OP_MIN and OP_MAX that of the lower and of the higher one, the
  -- comparisons, OP_BOOLAND and OP_BOOLOR that of 1 if the comparison holds and of 0 if it does
  -- not, and OP_NUMEQUALVERIFY leaves nothing for equal numbers and fails for others.
  pub bin_op-bn2vch : Computed a b s t stack
  unfolding binary_value
  bin_op-bn2vch =
      let la = IsOperand-lt a ha in
      let lb = IsOperand-lt b hb in
      let zero_a = eq_ℤ a (pos 0) in
      let zero_b = eq_ℤ b (pos 0) in
      let (lo, lo_eq, lo_small, lo_a, lo_b, lo_one) = smaller (ltb_ℤ a b) refl in
      let (hi, hi_eq, hi_small, hi_a, hi_b, hi_one) = larger (ltb_ℤ b a) refl in
      record {
        add = computes op_add (a +ℤ b) refl refl (omega (arith, la, lb, magnitude-add a b)) refl;
        sub =
            computes op_sub (a -ℤ b) refl refl (omega (arith, la, lb, magnitude-sub a b))
              (sub-add a b);
        booland =
            computes_truth op_booland (not zero_a && not zero_b) refl refl (both_nonzero a b)
              (one_zero a b);
        boolor =
            computes_truth op_boolor (not zero_a || not zero_b) refl refl (one_nonzero a b)
              (both_zero a b);
        numequal = computes_truth op_numequal (eq_ℤ a b) refl refl (eq_ℤ→eq a b) (eq_ℤ→ne a b);
        numnotequal =
            computes_truth op_numnotequal (not (eq_ℤ a b)) refl refl (not-eq_ℤ→ne a b)
              (not-eq_ℤ→eq a b);
        lessthan =
            computes_truth op_lessthan (ltb_ℤ a b) refl refl (λ h. ground arith)
              (λ h. λ q. ground arith);
        greaterthan =
            computes_truth op_greaterthan (ltb_ℤ b a) refl refl (λ h. ground arith)
              (λ h. λ q. ground arith);
        lessthanorequal =
            computes_truth op_lessthanorequal (leb_ℤ a b) refl refl (λ h. ground arith)
              (λ h. λ q. ground arith);
        greaterthanorequal =
            computes_truth op_greaterthanorequal (leb_ℤ b a) refl refl (λ h. ground arith)
              (λ h. λ q. ground arith);
        min = computes op_min lo refl (ap ok (sym lo_eq)) lo_small (lo_a, lo_b, lo_one);
        max = computes op_max hi refl (ap ok (sym hi_eq)) hi_small (hi_a, hi_b, hi_one);
        numequalverify = numequalverify_cases;
      }
