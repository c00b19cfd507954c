-- ===== src/Tests/Encoding.antt =====
-- The theorems on serialize.py, _bignum.py and on the iteration of scripts, at concrete inputs.
use python_bitcointx.Prelude.{
  ◌≡◌, ◌<◌, ◌^◌, refl, false, none, some, List, [], ◌∷◌, ◌++◌, length, Bytes, AreBytes, arith,
}
use python_bitcointx.Prelude.Int.{ℤ, pos, negsuc}
use python_bitcointx.Result.{ok}
use python_bitcointx.Serialize.{ser_read, serialize_varint, deserialize_varint}
use python_bitcointx.Struct.{from_le}
use python_bitcointx.Serialize.VarInt.{varint_canonical, Allowed}
use python_bitcointx.Bignum.{
  bit_length, bit_length_loop, bn_bytes, magnitude, needs_ext, bn2vch, vch2bn,
}
use python_bitcointx.Bignum.RoundTrip.{bn2vch_round_trip}
use python_bitcointx.Script.{raw_iter}
use python_bitcointx.Script.Partition.{Reads, raw_iter-Reads}
use python_bitcointx.Script.Iter.{Op, well_formed, print_ops, items_of, raw_iter-print_ops}

abbrev wide_varint : Bytes
wide_varint = 0xfd ∷ 44 ∷ 1 ∷ 9 ∷ []

varint_canonical_example :
    (s : Bytes) × (serialize_varint (pos 300) ≡ ok s)
    × (wide_varint ≡ s ++ (9 ∷ []))
    × (300 < 2 ^ 64)
    × Allowed false 300
varint_canonical_example =
    varint_canonical false 300 wide_varint (9 ∷ [])
      (omega arith, (omega arith, (omega arith, (omega arith, tt))))
      (unfold deserialize_varint ser_read from_le in refl)

bn2vch_round_trip_example :
    (s : Bytes) × (bn2vch (negsuc 127) ≡ ok s)
    × (length s ≡ bn_bytes (magnitude (negsuc 127)) (needs_ext (magnitude (negsuc 127))))
    × (vch2bn s ≡ ok (some (negsuc 127)))
bn2vch_round_trip_example =
    bn2vch_round_trip (negsuc 127)
      (unfold bn_bytes magnitude needs_ext bit_length bit_length_loop in omega arith)

abbrev ops : List Op
ops =
    record { opcode = 0x76; pushed = none }
    ∷ record { opcode = 2; pushed = some (8 ∷ 9 ∷ []) }
    ∷ record { opcode = 0x4c; pushed = some (5 ∷ []) }
    ∷ []

raw_iter-print_ops_example : raw_iter (print_ops ops) ≡ items_of ops 0
unfolding well_formed
raw_iter-print_ops_example = raw_iter-print_ops ops (refl, (refl, (refl, tt)))

abbrev script : Bytes
script = 0x76 ∷ 2 ∷ 8 ∷ 9 ∷ 0x4c ∷ 3 ∷ 5 ∷ []

script-AreBytes : AreBytes script
script-AreBytes = (
  omega arith,
  (omega arith, (omega arith, (omega arith, (omega arith, (omega arith, (omega arith, tt)))))),
)

raw_iter-Reads_example : Reads script 0 (raw_iter script)
raw_iter-Reads_example = raw_iter-Reads script script-AreBytes

abbrev stack : List Bytes
stack = [] ∷ (1 ∷ []) ∷ (2 ∷ 3 ∷ []) ∷ []

abbrev some_ints : List ℤ
some_ints = pos 5 ∷ negsuc 4 ∷ negsuc 0x7fffffff ∷ []
