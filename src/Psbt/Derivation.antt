-- ===== src/Psbt/Derivation.antt =====
-- bitcointx/core/psbt.py: PSBT_KeyDerivationInfo, and KeyDerivationInfo of bitcointx/core/key.py.
pub mod RoundTrip
use python_bitcointx.Prelude.{
  ℕ, zero, suc, ◌+◌, ◌≤◌, ◌<◌, ◌≡◌, ◌^◌, refl, Bool, true, false, not, none, some, List, [], ◌∷◌,
  ◌++◌, length, Bytes, All, ◌==◌, arith,
}
use python_bitcointx.Result.{Result, ok, err, ◌>>=◌, ◌>>◌, guard, value_error, truncation_error}
use python_bitcointx.Struct.{pack, le_bytes, from_le}
use python_bitcointx.Serialize.{Reader, Writer, ser_read, serialize_all, deserialize}
use python_bitcointx.Bip32.{KeyPath, from_indexes, from_path, make_path, bip32_path}

pub record KeyDerivationInfo : Type 0 where
  pub master_fp : Bytes
  pub path : KeyPath ℕ

-- KeyDerivationInfo.__init__
unfoldable pub make_derivation_info : Bytes → KeyPath ℕ → Result KeyDerivationInfo
make_derivation_info master_fp path = do
  guard (length master_fp == 4) value_error
  guard (not path.is_partial) value_error
  ok (record { master_fp = master_fp; path = path })

unfoldable pub clone_info : KeyDerivationInfo → Result KeyDerivationInfo
clone_info info = do
  path ← make_path bip32_path (from_path info.path) none none
  make_derivation_info info.master_fp path

-- The loop that reads indexes up to the end of the data. `left` is the number of indexes that the
-- list may still take.
unfoldable pub read_indexes : (left : ℕ) → Bytes → Result (List ℕ)
read_indexes left [] = ok []
read_indexes zero (a ∷ b ∷ c ∷ d ∷ f) = err value_error
read_indexes (suc left) (a ∷ b ∷ c ∷ d ∷ f) = do
  indexlist ← read_indexes left f
  ok (from_le (a ∷ b ∷ c ∷ d ∷ []) ∷ indexlist)
read_indexes left (a ∷ []) = err truncation_error
read_indexes left (a ∷ b ∷ []) = err truncation_error
read_indexes left (a ∷ b ∷ c ∷ []) = err truncation_error

-- PSBT_KeyDerivationInfo.stream_deserialize, which reads the whole stream
unfoldable pub deserialize_info : Reader KeyDerivationInfo
deserialize_info f = do
  (fingerprint, f') ← ser_read 4 f
  indexlist ← read_indexes 255 f'
  path ← make_path bip32_path (from_indexes indexlist) (some false) none
  info ← make_derivation_info fingerprint path
  ok (info, [])

-- PSBT_KeyDerivationInfo.stream_serialize
unfoldable pub serialize_info : Writer KeyDerivationInfo
serialize_info info = do s ← serialize_all (pack 4) info.path.indexes; ok (info.master_fp ++ s)
