-- ===== src/Script/Multisig/RoundTrip.antt =====
-- The standard multisig scripts are parsed back.
use python_bitcointx.Prelude.{
  ℕ, zero, suc, ◌+◌, ◌≤◌, ◌<◌, ◌≢◌, ◌≡◌, refl, ap, sym, ◌∙◌, Bool, true, false, not, ◌||◌, none,
  some, List, [], ◌∷◌, ◌++◌, Bool-cases, inl, inr, append_assoc, append-nil, arith, length, Bytes,
  All, ◌==◌, ==_refl, le→leb, if◌then◌else◌,
}
use python_bitcointx.Prelude.Int.{ℤ, pos, negsuc, eq_ℤ, leb_ℤ, ltb_ℤ}
use python_bitcointx.Result.{
  ok, err, ok-injective, ◌>>◌, guard, value_error, >>=-eq-ok, guard_passes,
}
use python_bitcointx.Opcodes.{op_checkmultisig}
use python_bitcointx.Script.{encode_op_n, is_small_int, decode_op_n}
use python_bitcointx.Script.Iter.{
  Op, tail_bytes, well_formed, WellFormed, print_ops, items_of, raw_iter-print_ops,
}
use python_bitcointx.Script.Build.{
  number, pushed, opcode, make_script, coerce_instance, coerce_number,
}
use python_bitcointx.Script.Build.Data.{
  push_op, push_opcode, IsPushable, push_op-WellFormed, encode_op_pushdata-eq,
}
use python_bitcointx.Script.Multisig.{
  cooked, next_item, as_int, make_info, all_different, read_required, read_pubkeys,
  is_checkmultisig, at_end, check_total, parse_standard_multisig_redeem_script, pushed_keys,
  check_pubkeys, standard_multisig_redeem_script,
}

-- The operations of a standard script.
abbrev number_op : ℕ → Op
number_op n = record { opcode = 0x50 + n; pushed = none }

abbrev multisig_op : Op
multisig_op = record { opcode = op_checkmultisig; pushed = none }

abbrev key_ops : List Bytes → ℕ → List Op
key_ops [] total = number_op total ∷ multisig_op ∷ []
key_ops (d ∷ ds) total = push_op d ∷ key_ops ds total

module _ (total : ℕ) (low : 1 ≤ total) (high : total ≤ 16) where
  coerce_small : coerce_instance (number (pos total)) ≡ ok ((0x50 + total) ∷ [])
  unfolding coerce_instance coerce_number encode_op_n
  coerce_small = ground (arith, low, high)

  number_op-WellFormed : WellFormed (number_op total)
  unfolding well_formed
  number_op-WellFormed = ground (arith, low, high)

  next_item-number :
      (os : List Op) (i : ℕ)
      → next_item (items_of (number_op total ∷ os) i) ≡ ok (number (pos total), items_of os (i + 1))
  unfolding next_item items_of tail_bytes cooked is_small_int decode_op_n
  next_item-number os i = ground (arith, low, high)

  make_script-keys :
      (ds : List Bytes)
      → All IsPushable ds
      → make_script (pushed_keys ds (number (pos total) ∷ opcode op_checkmultisig ∷ []))
        ≡ ok (print_ops (key_ops ds total))
  unfolding make_script pushed_keys print_ops
  make_script-keys [] h = rw coerce_small (unfold coerce_instance tail_bytes in refl)
  make_script-keys (d ∷ ds) h =
      rw (encode_op_pushdata-eq d h.0, make_script-keys ds h.1) (unfold coerce_instance in refl)

  key_ops-WellFormed : (ds : List Bytes) → All IsPushable ds → All WellFormed (key_ops ds total)
  unfolding well_formed
  key_ops-WellFormed [] h = (number_op-WellFormed, (refl, tt))
  key_ops-WellFormed (d ∷ ds) h = (push_op-WellFormed d h.0, key_ops-WellFormed ds h.1)

next_item-push :
    (d : Bytes) (os : List Op) (i : ℕ)
    → length d ≢ 0
    → next_item (items_of (push_op d ∷ os) i)
      ≡ ok (pushed d, items_of os (i + 1 + length (tail_bytes (push_opcode (length d)) (some d))))
unfolding next_item items_of cooked push_opcode
next_item-push d os i h = ground arith

-- A key that the parser takes: pushable, and accepted by `is_fullyvalid`.
abbrev IsKey : (Bytes → Bool) → Bytes → Type 0
IsKey is_fullyvalid d = IsPushable d × (is_fullyvalid d ≡ true)

pushed_length :
    (d : Bytes) (is_fullyvalid : Bytes → Bool)
    → is_fullyvalid [] ≡ false
    → is_fullyvalid d ≡ true
    → length d ≢ 0
pushed_length [] is_fullyvalid e h = λ z. cc
pushed_length (x ∷ d) is_fullyvalid e h = omega arith

-- The loop over the keys reads the keys and the total, and stops at the last operation.
read_pubkeys-keys :
    (is_fullyvalid : Bytes → Bool) (total : ℕ) (n : ℕ) (acc ds : List Bytes) (i : ℕ)
    → 1 ≤ total
    → total ≤ 16
    → is_fullyvalid [] ≡ false
    → All (IsKey is_fullyvalid) ds
    → length ds < n
    → (j : ℕ) × (read_pubkeys is_fullyvalid n acc (items_of (key_ops ds total) i)
        ≡ ok (pos total, acc ++ ds, items_of (multisig_op ∷ []) j))
unfolding read_pubkeys
read_pubkeys-keys v total zero acc ds i low high e h hn = absurd (omega arith)
read_pubkeys-keys v total (suc n) acc [] i low high e h hn =
    (i + 1, rw (next_item-number total low high (multisig_op ∷ []) i, append-nil acc) refl)
read_pubkeys-keys v total (suc n) acc (d ∷ ds) i low high e h hn =
    let (j, r) =
      read_pubkeys-keys v total n (acc ++ (d ∷ [])) ds
        (i + 1 + length (tail_bytes (push_opcode (length d)) (some d))) low high e h.1
        (omega arith) in
    (
      j,
      rw (next_item-push d (key_ops ds total) i (pushed_length d v e (h.0).1), (h.0).1)
          (r ∙ rw (append_assoc acc (d ∷ []) ds) refl),
    )

check_total-keys :
    (ds : List Bytes) (j : ℕ)
    → 2 ≤ length ds
    → length ds ≤ 15
    → check_total (pos (length ds)) ds (items_of (multisig_op ∷ []) j)
      ≡ guard (all_different ds) value_error
unfolding check_total next_item items_of cooked is_checkmultisig at_end is_small_int
check_total-keys ds j low high = ground (arith, low, high)

IsKey-IsPushable : (v : Bytes → Bool) (ds : List Bytes) → All (IsKey v) ds → All IsPushable ds
IsKey-IsPushable v [] h = tt
IsKey-IsPushable v (d ∷ ds) h = ((h.0).0, IsKey-IsPushable v ds h.1)

IsKey-checked :
    (v : Bytes → Bool) (accept : Bool) (ds : List Bytes)
    → All IsPushable ds
    → check_pubkeys v accept ds ≡ ok tt
    → All (IsKey v) ds
unfolding check_pubkeys
IsKey-checked v accept [] p h = tt
IsKey-checked v accept (d ∷ ds) p h =
    let (a, h1) = guard_passes (v d) _ _ h in
    let (b, h2) = guard_passes ((length d == 33) || accept) _ _ h1 in
    ((p.0, a), IsKey-checked v accept ds p.1 h2)

parse-keys :
    (v : Bytes → Bool) (required : ℕ) (ds : List Bytes)
    → 1 ≤ required
    → required ≤ length ds
    → 2 ≤ length ds
    → length ds ≤ 15
    → v [] ≡ false
    → All (IsKey v) ds
    → parse_standard_multisig_redeem_script v
        (print_ops (number_op required ∷ key_ops ds (length ds)))
      ≡ (guard (all_different ds) value_error >> ok (record { required = required; pubkeys = ds }))
unfolding parse_standard_multisig_redeem_script read_required as_int make_info
parse-keys v required ds low fits two high e h =
    let t : ℕ = length ds in
    let wf = key_ops-WellFormed t (omega arith) (omega arith) ds (IsKey-IsPushable v ds h) in
    let first = number_op-WellFormed required low (omega arith) in
    let (j, r) = read_pubkeys-keys v t 16 [] ds 1 (omega arith) (omega arith) e h (omega arith) in
    let start = next_item-number required low (omega arith) (key_ops ds t) 0 in
    rw (raw_iter-print_ops (number_op required ∷ key_ops ds t) (first, wf), start)
      (rw
        (
          le→leb 1 required low,
          le→leb required 15 (omega arith),
          r,
          check_total-keys ds j two high,
          ==_refl,
          le→leb required t fits,
        )
        refl)

-- What the tests on the numbers leave.
counts :
    (total required : ℤ) (k : ℕ)
    → eq_ℤ total (pos k) ≡ true
    → not (leb_ℤ required (pos 0)) ≡ true
    → not (ltb_ℤ total required) ≡ true
    → not (ltb_ℤ (pos 15) total) ≡ true
    → not (eq_ℤ total (pos 1)) ≡ true
    → (n : ℕ) × (required ≡ pos n) × (total ≡ pos k) × (1 ≤ n) × (n ≤ k) × (2 ≤ k) × (k ≤ 15)
counts (negsuc t) r k a b c d e = absurd (ground arith)
counts (pos t) (negsuc r) k a b c d e = absurd (ground arith)
counts (pos t) (pos r) k a b c d e =
    (r, refl, ap pos (ground arith), ground arith, ground arith, ground arith, ground arith)

make_script-standard :
    (n : ℕ) (ds : List Bytes)
    → 1 ≤ n
    → n ≤ length ds
    → 2 ≤ length ds
    → length ds ≤ 15
    → All IsPushable ds
    → make_script
        (number (pos n) ∷ pushed_keys ds (number (pos (length ds)) ∷ opcode op_checkmultisig ∷ []))
      ≡ ok (print_ops (number_op n ∷ key_ops ds (length ds)))
unfolding make_script
make_script-standard n ds low fits two high p =
    rw
      (
        coerce_small n low (omega arith),
        make_script-keys (length ds) (omega arith) (omega arith) ds p,
      )
      (unfold print_ops tail_bytes in refl)

parse-made :
    (v : Bytes → Bool) (total required : ℤ) (n : ℕ) (ds : List Bytes) (s : Bytes)
    → required ≡ pos n
    → total ≡ pos (length ds)
    → 1 ≤ n
    → n ≤ length ds
    → 2 ≤ length ds
    → length ds ≤ 15
    → v [] ≡ false
    → All IsPushable ds
    → All (IsKey v) ds
    → make_script (number required ∷ pushed_keys ds (number total ∷ opcode op_checkmultisig ∷ []))
      ≡ ok s
    → parse_standard_multisig_redeem_script v s
      ≡ (if all_different ds then ok (record { required = n; pubkeys = ds }) else err value_error)
parse-made v total required n ds s i j low fits two high e p keys h =
    let made : make_script
          (number required ∷ pushed_keys ds (number total ∷ opcode op_checkmultisig ∷ []))
        ≡ ok (print_ops (number_op n ∷ key_ops ds (length ds))) =
      rw (i, j) (make_script-standard n ds low fits two high p) in
    let same : s ≡ print_ops (number_op n ∷ key_ops ds (length ds)) = ok-injective (sym h ∙ made) in
    rw (same, parse-keys v n ds low fits two high e keys)
      (elim (Bool-cases (all_different ds)) [ inl t ↦ rw t refl | inr t ↦ rw t refl ])

-- A script that `standard_multisig_redeem_script` builds from keys that differ from each other is
-- parsed back: the parser gives the number of required signatures and the keys in order. If two of
-- the keys are equal, the script is built all the same, and the parser raises ValueError. The check
-- of a key, which is elsewhere, has to refuse the empty one, and the keys are shorter than 2 ^ 32.
pub standard_multisig_round_trip :
    (v : Bytes → Bool) (total required : ℤ) (ds : List Bytes) (accept : Bool) (s : Bytes)
    → v [] ≡ false
    → All IsPushable ds
    → standard_multisig_redeem_script v total required ds accept ≡ ok s
    → (n : ℕ) × (required ≡ pos n)
      × (total ≡ pos (length ds))
      × (parse_standard_multisig_redeem_script v s ≡ (
          if all_different ds then ok (record { required = n; pubkeys = ds }) else err value_error))
unfolding standard_multisig_redeem_script
standard_multisig_round_trip v total required ds accept s e p h =
    let (a, h1) = guard_passes (eq_ℤ total (pos (length ds))) _ _ h in
    let (b, h2) = guard_passes (not (leb_ℤ required (pos 0))) _ _ h1 in
    let (c, h3) = guard_passes (not (ltb_ℤ total required)) _ _ h2 in
    let (d, h4) = guard_passes (not (ltb_ℤ (pos 15) total)) _ _ h3 in
    let (f, h5) = guard_passes (not (eq_ℤ total (pos 1))) _ _ h4 in
    let (u, g, h6) = >>=-eq-ok (check_pubkeys v accept ds) _ h5 in
    let (n, i, j, low, fits, two, high) = counts total required (length ds) a b c d f in
    (
      n,
      i,
      j,
      parse-made v total required n ds s i j low fits two high e p (IsKey-checked v accept ds p g)
          h6,
    )
