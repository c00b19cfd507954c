-- ===== src/Script/Build/Data.antt =====
-- Scripts and witnesses that are made of byte strings only.
use python_bitcointx.Prelude.{
  ℕ, ◌+◌, ◌^◌, ◌<◌, ◌≡◌, refl, sym, Bool, some, List, [], ◌∷◌, arith, length, Bytes, All, ltb, leb,
  if◌then◌else◌,
}
use python_bitcointx.Result.{ok, ◌>>=◌, >>=_assoc, >>=-eq-ok}
use python_bitcointx.Struct.{le_bytes, pack}
use python_bitcointx.Serialize.{
  deserialize_varint, deserialize_bytes, deserialize_many, serialize_vector, deserialize_vector,
}
use python_bitcointx.Serialize.Vectors.{
  RoundTrips, IsCanonical, IsShort, IsCounted, bytes-IsCanonical, vector-IsCanonical,
  bytes-RoundTrips, vector-RoundTrips,
}
use python_bitcointx.Script.{encode_op_pushdata, raw_iter}
use python_bitcointx.Script.Iter.{
  Op, tail_bytes, well_formed, WellFormed, print_ops, items_of, raw_iter-print_ops,
}
use python_bitcointx.Script.Build.{
  make_script, adjusted_script, coerced_stack, make_witness, pushed_all, serialize_witness,
  deserialize_witness,
}

-- The opcode of the shortest push of `n` bytes.
unfoldable pub push_opcode : ℕ → ℕ
push_opcode n =
    if ltb n 0x4c then n else if leb n 0xff then 0x4c else if leb n 0xffff then 0x4d else 0x4e

abbrev pub push_op : Bytes → Op
push_op d = record { opcode = push_opcode (length d); pushed = some d }

abbrev pub push_ops : List Bytes → List Op
push_ops [] = []
push_ops (d ∷ ds) = push_op d ∷ push_ops ds

abbrev pub IsPushable : Bytes → Type 0
IsPushable d = length d < 2 ^ 32

pub push_op-WellFormed : (d : Bytes) → IsPushable d → WellFormed (push_op d)
unfolding well_formed push_opcode
push_op-WellFormed d h = ground arith

pub encode_op_pushdata-eq :
    (d : Bytes)
    → IsPushable d
    → encode_op_pushdata d
      ≡ ok (push_opcode (length d) ∷ tail_bytes (push_opcode (length d)) (some d))
unfolding encode_op_pushdata push_opcode tail_bytes pack le_bytes
encode_op_pushdata-eq d h = ground arith

push_ops-WellFormed : (ds : List Bytes) → All IsPushable ds → All WellFormed (push_ops ds)
push_ops-WellFormed [] h = tt
push_ops-WellFormed (d ∷ ds) h = (push_op-WellFormed d h.0, push_ops-WellFormed ds h.1)

pub make_script-pushed_all :
    (ds : List Bytes)
    → All IsPushable ds
    → make_script (pushed_all ds) ≡ ok (print_ops (push_ops ds))
unfolding make_script pushed_all print_ops
make_script-pushed_all [] h = refl
make_script-pushed_all (d ∷ ds) h = rw (encode_op_pushdata-eq d h.0, make_script-pushed_all ds h.1)

adjusted_script-pushed_all :
    (ds : List Bytes) → adjusted_script (pushed_all ds) ≡ make_script (pushed_all ds)
unfolding adjusted_script make_script pushed_all
adjusted_script-pushed_all [] = refl
adjusted_script-pushed_all (d ∷ ds) = rw (adjusted_script-pushed_all ds)

coerced_stack-items_of :
    (ds : List Bytes) (i : ℕ) → coerced_stack (items_of (push_ops ds) i) ≡ ok ds
unfolding coerced_stack items_of
coerced_stack-items_of [] i = refl
coerced_stack-items_of (d ∷ ds) i =
    rw (coerced_stack-items_of ds (i + 1 + length (tail_bytes (push_opcode (length d)) (some d))))

-- Iterating over the script of pushes of byte strings yields those byte strings.
pub raw_iter-push_ops :
    (ds : List Bytes)
    → All IsPushable ds
    → raw_iter (print_ops (push_ops ds)) ≡ items_of (push_ops ds) 0
raw_iter-push_ops ds h = raw_iter-print_ops (push_ops ds) (push_ops-WellFormed ds h)

-- The stack of a witness made of byte strings is those byte strings.
make_witness-pushed_all :
    (ds : List Bytes) → All IsPushable ds → make_witness (pushed_all ds) ≡ ok ds
unfolding make_witness
make_witness-pushed_all ds h =
    rw (adjusted_script-pushed_all ds, make_script-pushed_all ds h, raw_iter-push_ops ds h)
      (coerced_stack-items_of ds 0)

deserialize_witness-eq :
    (allow : Bool) (f : Bytes)
    → deserialize_witness allow f ≡ (
        deserialize_vector allow (deserialize_bytes allow) f >>= λ (stack, f').
        make_witness (pushed_all stack) >>= λ witness. ok (witness, f'))
unfolding deserialize_witness deserialize_vector
deserialize_witness-eq allow f = sym (
    >>=_assoc {A = ℕ × Bytes} {B = List Bytes × Bytes} (deserialize_varint allow f)
      (λ p. deserialize_many (deserialize_bytes allow) p.0 p.1)
      (λ p. make_witness (pushed_all p.0) >>= λ witness. ok (witness, p.1)))

abbrev pub IsWitness : Bool → List Bytes → Type 0
IsWitness allow stack = IsCounted allow stack × All IsShort stack

IsShort-IsPushable : (ds : List Bytes) → All IsShort ds → All IsPushable ds
IsShort-IsPushable [] h = tt
IsShort-IsPushable (d ∷ ds) h = (omega (arith, h.0), IsShort-IsPushable ds h.1)

pub IsWitness-RoundTrips :
    (allow : Bool) → RoundTrips (IsWitness allow) serialize_witness (deserialize_witness allow)
unfolding serialize_witness
IsWitness-RoundTrips allow = record {
  at = λ stack rest h.
      let (s, w, r) = (vector-RoundTrips allow (bytes-RoundTrips allow)).at stack rest h in
      (
        s,
        (unfold serialize_vector in w),
        rw (
          deserialize_witness-eq,
          r,
          make_witness-pushed_all stack (IsShort-IsPushable stack h.1),
        ),
      );
}

pub IsWitness-IsCanonical :
    (allow : Bool) → IsCanonical (IsWitness allow) serialize_witness (deserialize_witness allow)
unfolding serialize_witness
IsWitness-IsCanonical allow = record {
  at = λ stack f rest isb h.
      let ((ds, f'), r, h') =
        >>=-eq-ok (deserialize_vector allow (deserialize_bytes allow) f) _
          (rw deserialize_witness-eq at h) in
      let (s, w, cut, valid) =
        (vector-IsCanonical allow (bytes-IsCanonical allow)).at ds f f' isb r in
      let made = rw (make_witness-pushed_all ds (IsShort-IsPushable ds valid.1)) at h' in
      let same : stack ≡ ds = ground arith in
      let left : rest ≡ f' = ground arith in
      (s, (unfold serialize_vector in rw same w), rw left cut, rw same valid);
}
