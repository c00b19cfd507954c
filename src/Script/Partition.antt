-- ===== src/Script/Partition.antt =====
-- What `raw_iter` has read: the operations that it yields make up the script, and it ends.
use python_bitcointx.Prelude.{
  ℕ, zero, suc, ◌+◌, ◌-◌, ◌<◌, ◌^◌, ◌≢◌, List, All, ◌≤◌, ◌≡◌, inl, inr, refl, sym, ap, ◌∙◌, true,
  Option, none, some, [], ◌∷◌, ◌++◌, append_assoc, arith, length, take, drop, Bytes, AreBytes,
  IsByte, ltb, length-append, take-append-drop, length-take, All-take, Bool-cases, ltb_false→le,
}
use mathlib.Core.Path.{subst}
use python_bitcointx.Result.{Error, Result-cases, ok, err}
use python_bitcointx.Struct.{le_bytes, from_le, le_bytes-from_le, from_le-lt}
use python_bitcointx.Serialize.VarInt.{AreBytes-front}
use python_bitcointx.Script.{
  Items, raise, yields, read_data, read_sized, read_op, raw_iter_from, raw_iter,
}
use python_bitcointx.Script.Iter.{
  Op, well_formed, tail_bytes, read_op-tail_bytes, print_ops, items_of, WellFormed,
  raw_iter_from_step, raw_iter_from_raise,
}

read_data_takes :
    (n : ℕ) (rest rest' : Bytes) (pushed : Option Bytes)
    → read_data n rest ≡ ok (pushed, rest')
    → (d : Bytes) × (pushed ≡ some d) × (length d ≡ n) × (rest ≡ d ++ rest')
unfolding read_data
read_data_takes n rest rest' pushed h = (
  take n rest,
  ground arith,
  ground (arith, length-take n rest),
  ground (arith, sym (take-append-drop n rest)),
)

read_sized_takes :
    (k : ℕ) (rest rest' : Bytes) (pushed : Option Bytes)
    → AreBytes rest
    → read_sized k rest ≡ ok (pushed, rest')
    → (d : Bytes) × (pushed ≡ some d) × (rest ≡ (le_bytes k (length d) ++ d) ++ rest')
unfolding read_sized
read_sized_takes k rest rest' pushed isb h = elim (Bool-cases (ltb (length rest) k)) [
  | inl short ↦ cc (rw short at h)
  | inr enough ↦
      let (d, e, len, cut) =
        read_data_takes (from_le (take k rest)) (drop k rest) rest' pushed (rw enough at h) in
      let size : length (take k rest) ≡ k =
        omega (arith, length-take k rest, ltb_false→le _ _ enough) in
      let front : le_bytes k (length d) ≡ take k rest = rw len (
        subst (λ j. le_bytes j (from_le (take k rest)) ≡ take k rest) size
          (le_bytes-from_le (take k rest) (All-take IsByte k rest isb))) in
      (
        d,
        e,
        sym (take-append-drop k rest)
            ∙ ap (λ t. take k rest ++ t) cut
            ∙ sym (append_assoc (take k rest) d rest')
            ∙ ap (λ t. (t ++ d) ++ rest') (sym front),
      )
]

read_op_takes :
    (opcode : ℕ) (rest rest' : Bytes) (pushed : Option Bytes)
    → AreBytes rest
    → read_op opcode rest ≡ ok (pushed, rest')
    → rest ≡ tail_bytes opcode pushed ++ rest'
unfolding read_op tail_bytes
read_op_takes opcode rest rest' pushed isb h = ground (
  arith,
  read_data_takes opcode rest rest' pushed,
  read_sized_takes 1 rest rest' pushed isb,
  read_sized_takes 2 rest rest' pushed isb,
  read_sized_takes 4 rest rest' pushed isb,
)

read_sized_size :
    (k : ℕ) (rest rest' : Bytes) (pushed : Option Bytes)
    → AreBytes rest
    → read_sized k rest ≡ ok (pushed, rest')
    → (d : Bytes) × (pushed ≡ some d) × (length d < 256 ^ k)
unfolding read_sized
read_sized_size k rest rest' pushed isb h = elim (Bool-cases (ltb (length rest) k)) [
  | inl short ↦ cc (rw short at h)
  | inr enough ↦
      let (d, e, len, cut) =
        read_data_takes (from_le (take k rest)) (drop k rest) rest' pushed (rw enough at h) in
      let size : length (take k rest) ≡ k =
        omega (arith, length-take k rest, ltb_false→le _ _ enough) in
      let small : from_le (take k rest) < 256 ^ k =
        rw size at (from_le-lt (take k rest) (All-take IsByte k rest isb)) in
      (d, e, omega (arith, len, small))
]

read_op-well_formed :
    (opcode : ℕ) (rest rest' : Bytes) (pushed : Option Bytes)
    → AreBytes rest
    → read_op opcode rest ≡ ok (pushed, rest')
    → well_formed opcode pushed ≡ true
unfolding read_op well_formed
read_op-well_formed opcode rest rest' none isb h = ground (
  arith,
  read_data_takes opcode rest rest' none,
  read_sized_size 1 rest rest' none isb,
  read_sized_size 2 rest rest' none isb,
  read_sized_size 4 rest rest' none isb,
)
read_op-well_formed opcode rest rest' (some d) isb h = ground (
  arith,
  read_data_takes opcode rest rest' (some d),
  read_sized_size 1 rest rest' (some d) isb,
  read_sized_size 2 rest rest' (some d) isb,
  read_sized_size 4 rest rest' (some d) isb,
)

read_op-AreBytes :
    (opcode : ℕ) (rest rest' : Bytes) (pushed : Option Bytes)
    → AreBytes rest
    → read_op opcode rest ≡ ok (pushed, rest')
    → AreBytes rest' × (length rest' ≤ length rest)
read_op-AreBytes opcode rest rest' pushed isb h =
    let cut = read_op_takes opcode rest rest' pushed isb h in
    let tail : Bytes = tail_bytes opcode pushed in
    (
      (AreBytes-front tail rest' (rw cut at isb)).1,
      rw cut (omega (arith, length-append tail rest')),
    )

-- Bytes that start with no operation whose data is there in full.
abbrev pub IsCut : Bytes → Type 0
IsCut rest = ¬ (
    (o : Op) × (s : Bytes) × WellFormed o × (rest ≡ o.opcode ∷ (tail_bytes o.opcode o.pushed ++ s)))

read_op-IsCut :
    (opcode : ℕ) (rest : Bytes) (e : Error) → read_op opcode rest ≡ err e → IsCut (opcode ∷ rest)
read_op-IsCut opcode rest e h =
    λ cut. let (o, s, w, same) = cut in let read = read_op-tail_bytes o.opcode o.pushed s w in cc

-- What the iteration does that yields some operations, from index `i` on, and raises.
unfoldable pub raised_after : List Op → ℕ → Error → Items
raised_after [] i e = raise e
raised_after (o ∷ os) i e =
    yields o.opcode o.pushed i (raised_after os (i + 1 + length (tail_bytes o.opcode o.pushed)) e)

-- The iteration over `s` from index `i` on yields the operations that `s` is made of, each with its
-- index, or it raises where the bytes that are left are cut.
pub data Reads (s : Bytes) (i : ℕ) (items : Items) : Type 0 where
  reads_all :
      (os : List Op)
      → All WellFormed os
      → s ≡ print_ops os
      → items ≡ items_of os i
      → Reads s i items
  reads_front :
      (os : List Op) (rest : Bytes) (e : Error)
      → All WellFormed os
      → s ≡ print_ops os ++ rest
      → rest ≢ []
      → IsCut rest
      → items ≡ raised_after os i e
      → Reads s i items

-- An operation in front.
Reads-step :
    (opcode i : ℕ) (rest rest' : Bytes) (pushed : Option Bytes) (items : Items)
    → well_formed opcode pushed ≡ true
    → rest ≡ tail_bytes opcode pushed ++ rest'
    → Reads rest' (i + 1 + length (tail_bytes opcode pushed)) items
    → Reads (opcode ∷ rest) i (yields opcode pushed i items)
unfolding print_ops items_of raised_after
Reads-step opcode i rest rest' pushed items w front (reads_all os all e out) =
    reads_all (record { opcode = opcode; pushed = pushed } ∷ os) (w, all)
      (ap (λ t. opcode ∷ t) (front ∙ ap (λ t. tail_bytes opcode pushed ++ t) e))
      (ap (λ t. yields opcode pushed i t) out)
Reads-step opcode i rest rest' pushed items w front (reads_front os left er all e more not_op out) =
    reads_front (record { opcode = opcode; pushed = pushed } ∷ os) left er (w, all)
      (ap (λ t. opcode ∷ t)
        (front
          ∙ ap (λ t. tail_bytes opcode pushed ++ t) e
          ∙ sym (append_assoc (tail_bytes opcode pushed) (print_ops os) left)))
      more not_op (ap (λ t. yields opcode pushed i t) out)

raw_iter_from-Reads :
    (fuel : ℕ) (s : Bytes) (i : ℕ)
    → AreBytes s
    → length s ≤ fuel
    → Reads s i (raw_iter_from fuel s i)
raw_iter_from-Reads fuel [] i isb hf =
    unfold raw_iter_from print_ops items_of in reads_all [] tt refl refl
raw_iter_from-Reads zero (opcode ∷ rest) i isb hf = absurd (omega arith)
raw_iter_from-Reads (suc fuel) (opcode ∷ rest) i isb hf =
    elim (Result-cases (read_op opcode rest)) [
      | inr (e, raised) ↦
          unfold print_ops raised_after in
          reads_front [] (opcode ∷ rest) e tt refl (cc) (read_op-IsCut opcode rest e raised)
            (raw_iter_from_raise fuel opcode i rest e raised)
      | inl ((pushed, rest'), r) ↦
          let (isb', shorter) = read_op-AreBytes opcode rest rest' pushed isb.1 r in
          let front = read_op_takes opcode rest rest' pushed isb.1 r in
          let size : i + 1 + (length rest - length rest')
              ≡ i + 1 + length (tail_bytes opcode pushed) =
            rw front (omega (arith, length-append (tail_bytes opcode pushed) rest')) in
          rw (raw_iter_from_step fuel opcode i rest rest' pushed r, size)
            (Reads-step opcode i rest rest' pushed _
              (read_op-well_formed opcode rest rest' pushed isb.1 r) front
              (raw_iter_from-Reads fuel rest' _ isb' (omega arith)))
    ]

-- Over a byte string, the iteration yields the operations that the bytes are made of, each with the
-- index of its opcode, and ends; or it yields those of a first part, and raises where the bytes
-- that are left start with no operation whose data is there in full.
pub raw_iter-Reads : (script : Bytes) → AreBytes script → Reads script 0 (raw_iter script)
unfolding raw_iter
raw_iter-Reads script isb = raw_iter_from-Reads (length script) script 0 isb (omega arith)
