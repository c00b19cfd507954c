-- ===== src/Address/Segwit/Groups.antt =====
-- The groups of bits that `convertbits` gives: how many there are and that each fits; and the
-- characters for them.
use python_bitcointx.Prelude.{
  ℕ, zero, suc, ◌+◌, ◌-◌, ◌*◌, ◌/◌, ◌%◌, ◌^◌, ◌≤◌, ◌<◌, ◌≡◌, refl, ap, inl, inr, Bool-cases, true,
  false, not, ◌&&◌, Option, some, none, List, [], ◌∷◌, ◌++◌, arith, length, length-append, All,
  All-append, get_or, ltb, leb, ◌==◌, if◌then◌else◌, ==→eq, ltb_false→le,
}
use python_bitcointx.Prelude.Bits.{agree_below, agree_below→eq}
use python_bitcointx.Address.Base58.{index_of}
use python_bitcointx.Address.Segwit.{charset, emit, finish, append_to, convert_from, lower}

abbrev pub AreGroups : List ℕ → Type 0
AreGroups vs = All (λ v. v < 32) vs

emit-AreGroups : (fuel acc bits : ℕ) → AreGroups (emit fuel 5 acc bits).0
unfolding emit
emit-AreGroups zero acc bits = tt
emit-AreGroups (suc fuel) acc bits = elim (Bool-cases (ltb bits 5)) [
  | inl e ↦ rw e tt
  | inr e ↦ rw e (omega arith, emit-AreGroups fuel acc (bits - 5))
]

length-emit :
    (fuel acc bits : ℕ) → length (emit fuel 5 acc bits).0 * 5 + (emit fuel 5 acc bits).1 ≡ bits
unfolding emit
length-emit zero acc bits = omega arith
length-emit (suc fuel) acc bits = elim (Bool-cases (ltb bits 5)) [
  | inl e ↦ rw e (omega arith)
  | inr e ↦ rw e (omega (arith, length-emit fuel acc (bits - 5), ltb_false→le _ _ e))
]

append_to-eq-some :
    (out : List ℕ) (r : Option (List ℕ)) (g : List ℕ)
    → append_to out r ≡ some g
    → (ret : List ℕ) × (r ≡ some ret) × (g ≡ out ++ ret)
unfolding append_to
append_to-eq-some out none g h = absurd (ground (arith, h))
append_to-eq-some out (some ret) g h = (ret, refl, cc)

some-injective : {a b : List ℕ} → some a ≡ some b → a ≡ b
some-injective h = cc

-- Fewer than five bits are left over after each round, and the padding makes them a group.
pub convert-groups :
    (acc bits : ℕ) (xs g : List ℕ)
    → convert_from 8 5 true acc bits xs ≡ some g
    → AreGroups g × (length g * 5 ≤ bits + length xs * 8 + 5)
unfolding convert_from finish
convert-groups acc bits [] g h = elim (Bool-cases (bits == 0)) [
  | inl e ↦ let f : [] ≡ g = some-injective (rw e at h) in rw⁻¹ f (tt, omega arith)
  | inr e ↦
      let f : ((acc * 2 ^ (5 - bits) % 32) ∷ []) ≡ g = some-injective (rw e at h) in
      rw⁻¹ f ((omega arith, tt), omega arith)
]
convert-groups acc bits (x ∷ xs) g h = elim (Bool-cases (not (x / 256 == 0))) [
  | inl e ↦ let f : none ≡ some g = rw e at h in absurd (ground (arith, f))
  | inr e ↦
      let n : ℕ = bits + 8 in
      let a : ℕ = (acc * 256 + x) % 4096 in
      let out : List ℕ = (emit n 5 a n).0 in
      let (ret, r, same) =
        append_to-eq-some out (convert_from 8 5 true a (emit n 5 a n).1 xs) g (rw e at h) in
      let (ok', short) = convert-groups a (emit n 5 a n).1 xs ret r in
      rw same (
        All-append (λ v. v < 32) out ret (emit-AreGroups n a n) ok',
        omega (arith, length-append out ret, length-emit n a n, short),
      )
]

-- Every group has a character of its own, which is printable, in lower case and not `1`.
or_32 : Option ℕ → ℕ
or_32 none = 32
or_32 (some i) = i

or_32-eq : (o : Option ℕ) (d : ℕ) → or_32 o ≡ d → d < 32 → o ≡ some d
unfolding or_32
or_32-eq none d e h = absurd (omega arith)
or_32-eq (some i) d e h = ap some e

abbrev pub group_char : ℕ → ℕ
group_char d = get_or charset d 0

pub index_of-group_char : (d : ℕ) → d < 32 → index_of charset (group_char d) ≡ some d
index_of-group_char d h =
    or_32-eq (index_of charset (group_char d)) d
      (agree_below→eq (λ i. or_32 (index_of charset (group_char i))) (λ i. i) 32
        (unfold agree_below index_of or_32 in refl) d h)
      h

plain_test : ℕ → ℕ
plain_test c = if leb 33 c && leb c 126 && lower c == c && not (c == 0x31) then 1 else 0

plain_test-one :
    (c : ℕ)
    → plain_test c ≡ 1
    → (leb 33 c && leb c 126 ≡ true) × (lower c ≡ c) × ((c == 0x31) ≡ false)
unfolding plain_test
plain_test-one c h = (ground (arith, h), ==→eq (lower c) c (ground (arith, h)), ground (arith, h))

pub plain_char :
    (d : ℕ)
    → d < 32
    → (leb 33 (group_char d) && leb (group_char d) 126 ≡ true)
      × (lower (group_char d) ≡ group_char d)
      × ((group_char d == 0x31) ≡ false)
plain_char d h =
    let e : plain_test (group_char d) ≡ 1 =
      agree_below→eq (λ i. plain_test (group_char i)) (λ i. 1) 32
        (unfold agree_below plain_test lower in refl) d h in
    plain_test-one (group_char d) e
