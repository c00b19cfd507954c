-- ===== src/Address.antt =====
-- bitcointx/base58.py and bitcointx/segwit_addr.py: the encodings of addresses.
--
-- A string is the list of its code points.
pub mod Digits
pub mod Base58
pub mod Segwit
use python_bitcointx.Prelude.{ℕ, List, [], ◌∷◌}

abbrev pub Text : Type 0
Text = List ℕ

-- `xs[::-1]`, in front of another list
unfoldable pub backwards {ℓ} : {A : Type ℓ} → List A → List A → List A
backwards [] acc = acc
backwards (x ∷ xs) acc = backwards xs (x ∷ acc)
