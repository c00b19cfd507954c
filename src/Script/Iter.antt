-- ===== src/Script/Iter.antt =====
-- `raw_iter` as a parser: it inverts the layout of operations in a script.
use python_bitcointx.Prelude.{
  ℕ, zero, suc, ◌+◌, ◌-◌, ◌^◌, ◌≤◌, ◌<◌, ◌≡◌, refl, ◌∙◌, Bool, true, false, Option, none, some,
  List, [], ◌∷◌, ◌++◌, append_assoc, arith, length, take, drop, Bytes, All, ltb, ◌==◌,
  if◌then◌else◌, length-append, take-append, drop-append, le→ltb_false,
}
use python_bitcointx.Result.{Error, ok, err}
use python_bitcointx.Struct.{le_bytes, length-le_bytes, from_le-le_bytes}
use python_bitcointx.Opcodes.{op_pushdata1, op_pushdata2, op_pushdata4}
use python_bitcointx.Script.{
  Items, stop, raise, yields, read_data, read_sized, read_op, raw_iter_from, raw_iter,
}

-- An operation of a script: its opcode, and the data that it pushes.
pub record Op : Type 0 where
  pub opcode : ℕ
  pub pushed : Option Bytes

-- How the length of the pushed data is laid out, by the opcode.
unfoldable pub size_bytes : ℕ → ℕ → Bytes
size_bytes opcode n =
    if ltb opcode op_pushdata1
    then []
    else if opcode == op_pushdata1
    then le_bytes 1 n
    else if opcode == op_pushdata2
    then le_bytes 2 n
    else le_bytes 4 n

-- The bytes of an operation behind its opcode.
unfoldable pub tail_bytes : ℕ → Option Bytes → Bytes
unfolding size_bytes
tail_bytes opcode none = []
tail_bytes opcode (some d) = size_bytes opcode (length d) ++ d

-- The data fits its opcode.
unfoldable pub well_formed : ℕ → Option Bytes → Bool
well_formed opcode none = ltb op_pushdata4 opcode
well_formed opcode (some d) =
    if ltb opcode op_pushdata1
    then length d == opcode
    else if opcode == op_pushdata1
    then ltb (length d) 256
    else if opcode == op_pushdata2
    then ltb (length d) 65536
    else if opcode == op_pushdata4
    then ltb (length d) (2 ^ 32)
    else false

read_data-append : (d rest : Bytes) → read_data (length d) (d ++ rest) ≡ ok (some d, rest)
unfolding read_data
read_data-append d rest = rw (take-append d rest, drop-append d rest) (ground arith)

read_sized-append :
    (k : ℕ) (d rest : Bytes)
    → length d < 256 ^ k
    → read_sized k (le_bytes k (length d) ++ (d ++ rest)) ≡ ok (some d, rest)
unfolding read_sized
read_sized-append k d rest h =
    rw (enough, front, back, from_le-le_bytes k (length d) h) (read_data-append d rest)
  where
    size : Bytes
    size = le_bytes k (length d)

    enough : ltb (length (size ++ (d ++ rest))) k ≡ false
    enough =
        le→ltb_false _ _
          (omega (arith, length-append size (d ++ rest), length-le_bytes k (length d)))

    front : take k (size ++ (d ++ rest)) ≡ size
    front = rw (length-le_bytes k (length d)) at (take-append size (d ++ rest))

    back : drop k (size ++ (d ++ rest)) ≡ d ++ rest
    back = rw (length-le_bytes k (length d)) at (drop-append size (d ++ rest))

pub read_op-tail_bytes :
    (opcode : ℕ) (pushed : Option Bytes) (rest : Bytes)
    → well_formed opcode pushed ≡ true
    → read_op opcode (tail_bytes opcode pushed ++ rest) ≡ ok (pushed, rest)
unfolding read_op tail_bytes well_formed
read_op-tail_bytes opcode none rest h = ground arith
read_op-tail_bytes opcode (some d) rest h = ground (
  arith,
  read_data-append d rest,
  read_sized-append 1 d rest,
  read_sized-append 2 d rest,
  read_sized-append 4 d rest,
  append_assoc (le_bytes 1 (length d)) d rest,
  append_assoc (le_bytes 2 (length d)) d rest,
  append_assoc (le_bytes 4 (length d)) d rest,
)

-- The bytes of a list of operations, and what the iteration over them yields from index `i` on.
unfoldable pub print_ops : List Op → Bytes
print_ops [] = []
print_ops (o ∷ os) = o.opcode ∷ (tail_bytes o.opcode o.pushed ++ print_ops os)

unfoldable pub items_of : List Op → ℕ → Items
items_of [] i = stop
items_of (o ∷ os) i =
    yields o.opcode o.pushed i (items_of os (i + 1 + length (tail_bytes o.opcode o.pushed)))

abbrev pub WellFormed : Op → Type 0
WellFormed o = well_formed o.opcode o.pushed ≡ true

-- One round that yields.
pub raw_iter_from_step :
    (fuel opcode i : ℕ) (rest rest' : Bytes) (pushed : Option Bytes)
    → read_op opcode rest ≡ ok (pushed, rest')
    → raw_iter_from (suc fuel) (opcode ∷ rest) i
      ≡ yields opcode pushed i (raw_iter_from fuel rest' (i + 1 + (length rest - length rest')))
unfolding raw_iter_from
raw_iter_from_step fuel opcode i rest rest' pushed e = rw (e, raw_iter_from)

-- One round that raises.
pub raw_iter_from_raise :
    (fuel opcode i : ℕ) (rest : Bytes) (e : Error)
    → read_op opcode rest ≡ err e
    → raw_iter_from (suc fuel) (opcode ∷ rest) i ≡ raise e
unfolding raw_iter_from
raw_iter_from_raise fuel opcode i rest e h = rw (h, raw_iter_from)

raw_iter_from-print_ops :
    (os : List Op) (fuel i : ℕ)
    → All WellFormed os
    → length (print_ops os) ≤ fuel
    → raw_iter_from fuel (print_ops os) i ≡ items_of os i
unfolding print_ops items_of
raw_iter_from-print_ops [] zero i h hf = unfold raw_iter_from in refl
raw_iter_from-print_ops [] (suc fuel) i h hf = unfold raw_iter_from in refl
raw_iter_from-print_ops (o ∷ os) zero i h hf = absurd (omega arith)
raw_iter_from-print_ops (o ∷ os) (suc fuel) i h hf =
    let tail : Bytes = tail_bytes o.opcode o.pushed in
    let len = length-append tail (print_ops os) in
    let size : i + 1 + (length (tail ++ print_ops os) - length (print_ops os))
        ≡ i + 1 + length tail =
      omega (arith, len) in
    raw_iter_from_step fuel o.opcode i _ (print_ops os) o.pushed
      (read_op-tail_bytes o.opcode o.pushed (print_ops os) h.0)
    ∙ (rw (size, raw_iter_from-print_ops os fuel (i + 1 + length tail) h.1 (omega (arith, len))))

-- Iterating over the bytes of well-formed operations yields those operations, each with the index
-- of its opcode, and ends.
pub raw_iter-print_ops :
    (os : List Op) → All WellFormed os → raw_iter (print_ops os) ≡ items_of os 0
unfolding raw_iter
raw_iter-print_ops os h = raw_iter_from-print_ops os _ 0 h (omega arith)
