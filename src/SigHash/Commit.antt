-- ===== src/SigHash/Commit.antt =====
-- What a signature hash of the base version depends on.
use mathlib.Core.Path.{fun_ext}
use python_bitcointx.Prelude.{
  ℕ, zero, suc, ◌<◌, ◌≡◌, refl, ap, sym, ◌∙◌, inl, inr, true, false, ◌&&◌, ◌||◌, some, List, [],
  ◌∷◌, map, arith, length, take, drop, get_elem?, Bytes, leb, Bool-cases,
}
use python_bitcointx.Tx.{OutPoint, TxIn, Transaction}
use python_bitcointx.SigHash.{
  anyone_can_pay, signs_none, signs_single, blank, set_script_sig, zero_other_sequences,
  signed_inputs, signed_outputs, signed_copy, base_hash,
}

length-map : {A : Type 0} {B : Type 0} (f : A → B) (xs : List A) → length (map f xs) ≡ length xs
length-map f [] = refl
length-map f (x ∷ xs) = ap suc (length-map f xs)

-- The outputs that inputs spend, and their sequence numbers.
abbrev pub prevouts : List TxIn → List OutPoint
prevouts vin = map (λ (i : TxIn). i.prevout) vin

abbrev pub sequences : List TxIn → List ℕ
sequences vin = map (λ (i : TxIn). i.n_sequence) vin

-- Without their scripts, inputs with the same prevouts and sequence numbers are the same.
pub blank-eq :
    (vin win : List TxIn)
    → prevouts vin ≡ prevouts win
    → sequences vin ≡ sequences win
    → map blank vin ≡ map blank win
unfolding blank
blank-eq [] [] h k = refl
blank-eq [] (j ∷ win) h k = cc
blank-eq (i ∷ vin) [] h k = cc
blank-eq (i ∷ vin) (j ∷ win) h k =
    let e : i.prevout ≡ j.prevout = cc in
    let f : i.n_sequence ≡ j.n_sequence = cc in let rest = blank-eq vin win (cc) (cc) in cc

pub base_hash-blank :
    (hash : Bytes → Bytes) (script : Bytes) (tx ty : Transaction) (in_idx hashtype : ℕ)
    → map blank tx.vin ≡ map blank ty.vin
    → tx.n_version ≡ ty.n_version
    → tx.vout ≡ ty.vout
    → tx.n_lock_time ≡ ty.n_lock_time
    → base_hash hash script tx in_idx hashtype ≡ base_hash hash script ty in_idx hashtype
unfolding base_hash signed_copy signed_inputs signed_outputs
base_hash-blank hash script tx ty in_idx hashtype ins v outs l =
    let len : length tx.vin ≡ length ty.vin =
      sym (length-map blank tx.vin) ∙ ap length ins ∙ length-map blank ty.vin in
    rw (ins, v, outs, l, len) refl

-- The inputs that are signed when the sequence numbers of the others are cleared.
abbrev cleared : List TxIn → ℕ → Bytes → List TxIn
cleared vin n s = zero_other_sequences (set_script_sig (map blank vin) n s) n

take-drop-set :
    (vin : List TxIn) (n : ℕ) (s : Bytes) {x : TxIn}
    → get_elem? vin n ≡ some x
    → take 1 (drop n (set_script_sig (map blank vin) n s))
      ≡ (record { prevout = x.prevout; script_sig = s; n_sequence = x.n_sequence } ∷ [])
unfolding set_script_sig blank
take-drop-set [] n s p = cc
take-drop-set (i ∷ vin) zero s p = ground (arith)
take-drop-set (i ∷ vin) (suc n) s p = take-drop-set vin n s p

take-drop-cleared :
    (vin : List TxIn) (n : ℕ) → take 1 (drop n (zero_other_sequences vin n)) ≡ take 1 (drop n vin)
unfolding zero_other_sequences
take-drop-cleared [] n = refl
take-drop-cleared (i ∷ vin) zero = refl
take-drop-cleared (i ∷ vin) (suc n) = take-drop-cleared vin n

get_elem?-lt : {A : Type 0} (xs : List A) (n : ℕ) {x : A} → get_elem? xs n ≡ some x → n < length xs
get_elem?-lt [] n h = cc
get_elem?-lt (y ∷ xs) zero h = omega arith
get_elem?-lt (y ∷ xs) (suc n) h = omega (arith, get_elem?-lt xs n h)

-- With ANYONECANPAY the only input signed is the one at hand.
one_input :
    (vin : List TxIn) (n hashtype : ℕ) (s : Bytes) {x : TxIn}
    → anyone_can_pay hashtype ≡ true
    → get_elem? vin n ≡ some x
    → signed_inputs vin n hashtype s
      ≡ (record { prevout = x.prevout; script_sig = s; n_sequence = x.n_sequence } ∷ [])
unfolding signed_inputs
one_input vin n hashtype s h p =
    let e = take-drop-set vin n s p in
    let c = take-drop-cleared (set_script_sig (map blank vin) n s) n in
    elim (Bool-cases (signs_none hashtype || signs_single hashtype)) [
      | inl t ↦ rw (h, t) (c ∙ e)
      | inr t ↦ rw (h, t) e
    ]

lt→leb_false : (a b : ℕ) → a < b → leb b a ≡ false
lt→leb_false a b h = ground arith

-- A signature hash of the base version, past its tests: an input at the index, and an output there
-- if the hash type is SINGLE.
base_hash-eq :
    (hash : Bytes → Bytes) (script : Bytes) (tx ty : Transaction) (m n hashtype : ℕ)
    → m < length tx.vin
    → n < length ty.vin
    → (signs_single hashtype && leb (length tx.vout) m) ≡ false
    → (signs_single hashtype && leb (length ty.vout) n) ≡ false
    → ((s : Bytes) → signed_copy tx m hashtype s ≡ signed_copy ty n hashtype s)
    → base_hash hash script tx m hashtype ≡ base_hash hash script ty n hashtype
unfolding base_hash
base_hash-eq hash script tx ty m n hashtype hm hn om on e =
    rw (lt→leb_false _ _ hm, lt→leb_false _ _ hn, om, on, fun_ext e) refl

-- ANYONECANPAY, without SINGLE: the hash is that of every transaction with the same version, lock
-- time and outputs in which an input spends the same output with the same sequence number, at
-- whatever index, and whatever the other inputs are.
pub base_hash-anyone_can_pay :
    (hash : Bytes → Bytes) (script : Bytes) (tx ty : Transaction) (m n hashtype : ℕ) {x y : TxIn}
    → anyone_can_pay hashtype ≡ true
    → signs_single hashtype ≡ false
    → get_elem? tx.vin m ≡ some x
    → get_elem? ty.vin n ≡ some y
    → x.prevout ≡ y.prevout
    → x.n_sequence ≡ y.n_sequence
    → tx.n_version ≡ ty.n_version
    → tx.vout ≡ ty.vout
    → tx.n_lock_time ≡ ty.n_lock_time
    → base_hash hash script tx m hashtype ≡ base_hash hash script ty n hashtype
unfolding signed_copy signed_outputs
base_hash-anyone_can_pay hash script tx ty m n hashtype a single p q e f v o l =
    base_hash-eq hash script tx ty m n hashtype (get_elem?-lt _ _ p) (get_elem?-lt _ _ q)
      (rw single refl) (rw single refl)
      (λ s.
        rw (one_input tx.vin m hashtype s a p, one_input ty.vin n hashtype s a q)
          (ground (arith, single, v, o, l, e, f)))
