-- ===== src/Script/Build.antt =====
-- `CScript` from a list of elements, and `CScriptWitness`, whose constructor goes through a script.
pub mod Data
use python_bitcointx.Prelude.{
  ℕ, ◌+◌, Bool, true, false, Option, none, some, List, [], ◌∷◌, ◌++◌, length, Bytes, ltb, leb, ◌==◌,
  if◌then◌else◌,
}
use python_bitcointx.Prelude.Int.{ℤ, pos, negsuc}
use python_bitcointx.Result.{Result, ok, err, ◌>>=◌, assertion_error, value_error}
use python_bitcointx.Serialize.{
  Reader, Writer, serialize_varint, deserialize_varint, serialize_bytes, deserialize_bytes,
  serialize_all, deserialize_many,
}
use python_bitcointx.Bignum.{bn2vch}
use python_bitcointx.Opcodes.{op_1negate}
use python_bitcointx.Script.{
  encode_op_pushdata, encode_op_n, Items, stop, raise, yields, stuck, raw_iter,
}

-- ScriptElement_Type: an opcode, an integer or a byte string.
pub data Element : Type 0 where
  opcode : ℕ → Element
  number : ℤ → Element
  pushed : Bytes → Element

-- CScript.__coerce_instance on an integer
unfoldable pub coerce_number : ℤ → Result Bytes
coerce_number (pos n) =
    if leb n 16
    then (do op ← encode_op_n (pos n); ok (op ∷ []))
    else (do b ← bn2vch (pos n); encode_op_pushdata b)
coerce_number (negsuc n) =
    if n == 0 then ok (op_1negate ∷ []) else (do b ← bn2vch (negsuc n); encode_op_pushdata b)

-- CScript.__coerce_instance
unfoldable pub coerce_instance : Element → Result Bytes
unfolding coerce_number
coerce_instance (opcode op) = ok (op ∷ [])
coerce_instance (number n) = coerce_number n
coerce_instance (pushed d) = encode_op_pushdata d

-- CScript.__new__ on an iterable of elements
unfoldable pub make_script : List Element → Result Bytes
unfolding coerce_instance
make_script [] = ok []
make_script (x ∷ xs) = do s ← coerce_instance x; t ← make_script xs; ok (s ++ t)

-- CScriptWitness.__init__: integers become vectors, the elements become a script, and the stack is
-- what the iteration over that script yields.
unfoldable pub adjust_number : Element → Result Element
adjust_number (number n) = do b ← bn2vch n; ok (pushed b)
adjust_number (opcode op) = ok (opcode op)
adjust_number (pushed d) = ok (pushed d)

unfoldable pub adjusted_script : List Element → Result Bytes
unfolding adjust_number
adjusted_script [] = ok []
adjusted_script (x ∷ xs) = do
  y ← adjust_number x
  s ← coerce_instance y
  t ← adjusted_script xs
  ok (s ++ t)

unfoldable pub coerced_stack : Items → Result (List Bytes)
coerced_stack stop = ok []
coerced_stack (raise e) = err e
coerced_stack (yields op (some d) i more) = do ds ← coerced_stack more; ok (d ∷ ds)
coerced_stack (yields op none i more) = do ds ← coerced_stack more; ok ((op ∷ []) ∷ ds)
coerced_stack stuck = err assertion_error

unfoldable pub make_witness : List Element → Result (List Bytes)
make_witness stack = do script ← adjusted_script stack; coerced_stack (raw_iter script)

-- CScriptWitness.stream_serialize and stream_deserialize, on the stack of the witness
unfoldable pub serialize_witness : Writer (List Bytes)
serialize_witness stack = do
  n ← serialize_varint (pos (length stack))
  s ← serialize_all serialize_bytes stack
  ok (n ++ s)

unfoldable pub pushed_all : List Bytes → List Element
pushed_all [] = []
pushed_all (d ∷ ds) = pushed d ∷ pushed_all ds

unfoldable pub deserialize_witness : Bool → Reader (List Bytes)
deserialize_witness allow_full_range f = do
  (n, f') ← deserialize_varint allow_full_range f
  (stack, f'') ← deserialize_many (deserialize_bytes allow_full_range) n f'
  witness ← make_witness (pushed_all stack)
  ok (witness, f'')
