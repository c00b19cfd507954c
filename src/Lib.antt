-- ===== src/Lib.antt =====
-- A model of the core of python-bitcointx: the serialization of values, transactions and scripts, the
-- checks of a transaction, the script interpreter, signature hashes, trees of taproot scripts, the
-- encodings of addresses, the paths of keys, and the outputs of partially signed transactions.
--
-- The program. `bitcointx/core/serialize.py` reads and writes streams. `bitcointx/core/script.py` has
-- the opcodes and the class `CScript`, a byte string that is built from elements and iterated over
-- operation by operation; its integers are script numbers of `bitcointx/core/_bignum.py`.
-- `bitcointx/core/__init__.py` has transactions and `CheckTransaction`.
-- `bitcointx/core/scripteval.py` runs the scripts of a spent output and of its input; where they check
-- a signature, it computes a signature hash with `script.py`. `bitcointx/core/ecdasig_parse_der_lax.py`
-- reads the signatures of old transactions. `bitcointx/core/key.py` has the keys with their derivation
-- paths, and the tweak by the merkle root of a `TaprootScriptTree` of `script.py`.
-- `bitcointx/core/psbt.py` reads, writes and merges partially signed transactions, which consist of
-- maps of keys and values. `bitcointx/base58.py` and `bitcointx/segwit_addr.py` write
-- and read the texts of addresses.
--
-- The files.
--   Prelude: names of the library passed on; Prelude/Tests (Boolean tests on numbers), Prelude/Lists
--     (lists measured by native numbers, byte strings), Prelude/Int (integers), Prelude/Bits (masks,
--     numbers that agree in their low bits), Prelude/Xor.
--   Result: Python's exceptions as values. `Error` has a constructor for each exception class, and
--     `ok`/`err` say whether a call returns or raises. Texts of messages are left out.
--   Struct: the formats of `struct` that the program uses, unsigned and two's complement.
--   Serialize: `ser_read`, `Serializable.deserialize`, `Serializer.deserialize` and the serializers of
--     variable length integers, byte strings and vectors. A stream to read is the list of the bytes
--     that are left; a writer returns its bytes. Proofs: Serialize/VarInt, Serialize/Vectors, which
--     has the two interfaces `RoundTrips` and `IsCanonical` of a pair of a writer and a reader.
--     Serialize/Words: the conversions and vectors of 256-bit numbers, and the vectors of integers.
--     Proofs: Serialize/Words/RoundTrip.
--   Bignum: `_bignum.py`. Proofs: Bignum/Magnitude, Bignum/RoundTrip.
--   Opcodes: the constants of `script.py`.
--   Script: `CScriptOp` and `CScript.raw_iter`, whose generator is a value of type `Items`. Script/Build:
--     `CScript.__new__` and `CScriptWitness`. Script/Templates: the tests for standard scripts.
--     Script/Multisig: the standard multisig redeem script, its parser, and `CScript.__iter__`.
--     Script/Multisig/Helper: `StandardMultisigSignatureHelper`, which collects signatures.
--     Script/Pushes: the methods that run over the iteration, and `FindAndDelete`. Proofs:
--     Script/Iter, Script/Partition, Script/Build/Data, Script/Templates/Standard, Script/Pushes/SigOps,
--     Script/Multisig/RoundTrip, Script/Multisig/Helper/Sign, Script/Multisig/Helper/Completes.
--   Taproot: `TaprootScriptTree`, as a tree of leaves with their paths. Taproot/Key: the tweak of an
--     internal key, and control blocks. Proofs: Taproot/Path, Taproot/Found, Taproot/Named, Taproot/Returns,
--     Taproot/Key/Block, which has the check of a control block as BIP 341 states it.
--   Tx: `COutPoint`, `CTxIn`, `CTxOut`, `CTransaction` (the immutable classes; a witness is its stack).
--     Tx/Check: `MoneyRange` and `CheckTransaction`. Tx/Size: `calculate_transaction_virtual_size` and
--     `GetLegacySigOpCount`. Proofs: Tx/Parts, Tx/RoundTrip, Tx/Txid, Tx/Check/Laws,
--     Tx/Check/Accepted, Tx/Size/Weight.
--   Eval: the interpreter's flags, context and state. Eval/Stack and Eval/Numeric: the opcodes on the
--     stack. Eval/Signature: `_CheckSig`. Eval/MultiSig: `_CheckMultiSig`. Eval/Step: one opcode, the
--     loop, `EvalScript`. Eval/Verify: `VerifyWitnessProgram` and `VerifyScript`. Proofs:
--     Eval/Numeric/Values, Eval/Numeric/Integers, Eval/Step/Laws,
--     Eval/Step/Idle, Eval/Step/Skipped, Eval/Step/Pushes, Eval/MultiSig/Matching, Eval/Verify/KeyHash.
--   SigHash: `RawBitcoinSignatureHash` and `SignatureHash`. SigHash/Schnorr: `SignatureHashSchnorr`.
--     Proofs: SigHash/Commit, SigHash/Segwit, SigHash/Schnorr/Single.
--   Spending: `VerifySignature`, which fills the interpreter's parameters with the signature hashes of
--     SigHash. Proofs: Spending/Sound.
--   Address: text as a list of code points. Address/Digits: numbers in a base, as digits and back.
--     Address/Base58: `base58.py`. Address/Segwit: `segwit_addr.py`. Proofs: Address/Base58/Parts,
--     Address/Base58/RoundTrip, Address/Base58/Checked, Address/Segwit/Checksum, Address/Segwit/Bits,
--     Address/Segwit/Groups, Address/Segwit/RoundTrip.
--   DerLax: `ecdasig_parse_der_lax.py`; a `Step` goes on, returns None or raises. Proofs:
--     DerLax/Bounds, DerLax/Strict.
--   Bip32: `BIP32PathGeneric`, with `BIP32Path` as a record of its methods; Bip32/Decimal: `isdigit`,
--     `int` and the text of a number. Texts are ASCII. Bip32/Template: `BIP32PathTemplate`. Proofs:
--     Bip32/Element, Bip32/RoundTrip, Bip32/Template/Exact.
--   Psbt: the maps of a partially signed transaction; what reading a map changes is a record, and the
--     loop that consumes the generator is an argument. Psbt/Derivation: `PSBT_KeyDerivationInfo`.
--     Psbt/Output: `PSBT_Output`. Proofs: Psbt/Entries, Psbt/Refused, Psbt/Derivation/RoundTrip,
--     Psbt/Output/Written, Psbt/Output/Handled, Psbt/Output/RoundTrip, Psbt/Output/Merge.
--   Tests: the theorems at concrete inputs.
--
-- The stack of the interpreter is a list with the top first: `stack[-n]` is `item stack n`. A state
-- that raises is not kept, as no caller of the model reads it.
--
-- Fuel. `raw_iter` runs on as much fuel as the script has bytes, and each round takes one at least.
-- `bit_length` halves at most as often as the number says. The loop of `_CheckMultiSig` recurses on
-- the number of keys. The digits of a number in a base are at most as many as the number says.
-- `TaprootScriptTree._traverse` halves the leaves, on as much fuel as there are leaves, and never runs
-- out. `read_psbt_keymap` recurses on the number of entries that its limit still allows, and so does
-- the loop over the indexes of a key derivation. All other loops recurse on a list or a count.
--
-- Parameters. The record `Crypto` of Eval holds what the interpreter takes from elsewhere: the hash
-- functions, the check of a signature by libsecp256k1, and the signature hash of the transaction at
-- hand. The record `Primitives` of Spending has the first two only, and Spending computes the third.
-- `get_txid`, the signature hashes and base58 with a checksum take their hash function, the multisig
-- scripts and the outputs of a partially signed transaction the test for a valid public key, the
-- multisig helper the signer, and the lax parser the check of a compact signature. Taproot takes the
-- two tagged hashes of a tree, and the record `XOnly` with the third and the calls that tweak a key.
--
-- Not modelled: extended keys and the key store, the inputs of a partially signed transaction and the
-- transaction around them, the classes of addresses in `bitcointx/wallet.py`, the
-- hash functions in Python, the mutable classes, the classes that dispatch between chains, RPC, and
-- the bindings of C libraries.
pub mod Prelude
pub mod Result
pub mod Struct
pub mod Serialize
pub mod Bignum
pub mod Bip32
pub mod Psbt
pub mod Opcodes
pub mod Script
pub mod Tx
pub mod Eval
pub mod SigHash
pub mod Spending
pub mod Address
pub mod Taproot
pub mod DerLax
pub mod Tests
