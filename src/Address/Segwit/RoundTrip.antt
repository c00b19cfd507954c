-- ===== src/Address/Segwit/RoundTrip.antt =====
-- Segwit addresses are decoded to the version and the program that they encode.
use python_bitcointx.Prelude.{
  ℕ, zero, suc, ◌+◌, ◌-◌, ◌≤◌, ◌<◌, ◌≡◌, refl, ap, ◌∙◌, ◌⊎◌, inl, inr, true, false, ◌&&◌, some,
  none, List, [], ◌∷◌, ◌++◌, map, arith, length, length-append, All, All-append, Bytes, AreBytes,
  drop, take-append, leb, ◌==◌, if◌then◌else◌, bytes_eq_refl, le→ltb_false,
}
use python_bitcointx.Address.{Text}
use python_bitcointx.Address.Base58.{index_of}
use python_bitcointx.Address.Segwit.{
  Encoding, bech32, bech32m, charset, is_printable, lower, find_all, rfind, bech32_create_checksum,
  bech32_encode, decode_at, bech32_decode, bech32_verify_checksum, convertbits, six_digits,
  fits_encoding, is_program, decode_values, decode_bech32, decode, decode_program, encode,
  encode_groups, if_decoded,
}
use python_bitcointx.Address.Segwit.Checksum.{bech32_verify_checksum-created}
use python_bitcointx.Address.Segwit.Bits.{convertbits_round_trip}
use python_bitcointx.Address.Segwit.Groups.{
  AreGroups, convert-groups, group_char, index_of-group_char, plain_char,
}

-- A printable character that is no capital letter.
abbrev pub IsPlain : ℕ → Type 0
IsPlain c = (leb 33 c && leb c 126 ≡ true) × (lower c ≡ c)

plain-printable : (xs : Text) → All IsPlain xs → is_printable xs ≡ true
unfolding is_printable
plain-printable [] h = refl
plain-printable (x ∷ xs) h = rw ((h.0).0, plain-printable xs h.1) refl

plain-lower : (xs : Text) → All IsPlain xs → map lower xs ≡ xs
plain-lower [] h = refl
plain-lower (x ∷ xs) h = ap (λ t. t ∷ map lower xs) (h.0).1 ∙ ap (λ t. x ∷ t) (plain-lower xs h.1)

groups-IsPlain : (vs : List ℕ) → AreGroups vs → All IsPlain (map group_char vs)
groups-IsPlain [] h = tt
groups-IsPlain (v ∷ vs) h = let (a, b, c) = plain_char v h.0 in ((a, b), groups-IsPlain vs h.1)

find_all_step :
    (x d : ℕ) (xs ds : List ℕ)
    → find_all xs ≡ some ds
    → index_of charset x ≡ some d
    → find_all (x ∷ xs) ≡ some (d ∷ ds)
unfolding find_all
find_all_step x d xs ds e f = rw (e, f) refl

find_all-map : (vs : List ℕ) → AreGroups vs → find_all (map group_char vs) ≡ some vs
find_all-map [] h = unfold find_all in refl
find_all-map (v ∷ vs) h =
    find_all_step (group_char v) v (map group_char vs) vs (find_all-map vs h.1)
      (index_of-group_char v h.0)

rfind-groups : (vs : List ℕ) → AreGroups vs → rfind b'1' (map group_char vs) ≡ none
unfolding rfind
rfind-groups [] h = refl
rfind-groups (v ∷ vs) h = let (a, b, c) = plain_char v h.0 in rw (rfind-groups vs h.1, c) refl

rfind-here :
    (hrp t : Text) → rfind b'1' t ≡ none → rfind b'1' (hrp ++ (b'1' ∷ t)) ≡ some (length hrp)
unfolding rfind
rfind-here [] t h = rw h refl
rfind-here (x ∷ hrp) t h = rw (rfind-here hrp t h) refl

length-map : (f : ℕ → ℕ) (xs : List ℕ) → length (map f xs) ≡ length xs
length-map f [] = refl
length-map f (x ∷ xs) = ap suc (length-map f xs)

drop-suc-append : (xs ys : Text) (y : ℕ) → drop (length xs + 1) (xs ++ (y ∷ ys)) ≡ ys
drop-suc-append [] ys y = refl
drop-suc-append (x ∷ xs) ys y =
    let e : suc (length xs) + 1 ≡ suc (length xs + 1) = omega arith in
    ap (λ n. drop n (x ∷ (xs ++ (y ∷ ys)))) e ∙ drop-suc-append xs ys y

six_digits-AreGroups : (n : ℕ) → AreGroups (six_digits n)
unfolding six_digits
six_digits-AreGroups n =
    (omega arith, (omega arith, (omega arith, (omega arith, (omega arith, (omega arith, tt))))))

length-six_digits : (n : ℕ) → length (six_digits n) ≡ 6
unfolding six_digits
length-six_digits n = refl

module _ (encoding : Encoding) (hrp : Text) (values check : List ℕ) where
  abbrev all_values : List ℕ
  all_values = values ++ check

  abbrev text : Text
  text = hrp ++ (b'1' ∷ map group_char all_values)

  decode_text_at :
      1 ≤ length hrp
      → AreGroups all_values
      → length check ≡ 6
      → length hrp + length values + 7 ≤ 90
      → bech32_verify_checksum hrp all_values ≡ some encoding
      → decode_at text (length hrp) ≡ some (encoding, hrp, values)
  unfolding decode_at
  decode_text_at nonempty groups six short right =
      let t : Text = map group_char all_values in
      let len : length all_values ≡ length values + 6 =
        omega (arith, length-append values check, six) in
      let size : length text ≡ length hrp + (1 + (length values + 6)) =
        omega (arith, length-append hrp (b'1' ∷ t), length-map group_char all_values, len) in
      let values_end : length all_values - 6 ≡ length values = omega (arith, len) in
      rw
        (
          drop-suc-append hrp t b'1',
          find_all-map all_values groups,
          take-append hrp (b'1' ∷ t),
          right,
          values_end,
          take-append values check,
          le→ltb_false (length hrp) 1 nonempty,
          le→ltb_false (length text) (length hrp + 7) (omega (arith, size)),
          le→ltb_false 90 (length text) (omega (arith, size, short)),
        )
        (ap (λ h. some (encoding, h, values)) (take-append hrp (b'1' ∷ t)))

  -- What `bech32_decode` does with a string in lower case whose checksum is right.
  decode_text :
      All IsPlain hrp
      → 1 ≤ length hrp
      → AreGroups all_values
      → length check ≡ 6
      → length hrp + length values + 7 ≤ 90
      → bech32_verify_checksum hrp all_values ≡ some encoding
      → bech32_decode text ≡ some (encoding, hrp, values)
  unfolding bech32_decode
  decode_text plain nonempty groups six short right =
      let t : Text = map group_char all_values in
      let body : All IsPlain (b'1' ∷ t) =
        ((refl, (unfold lower in refl)), groups-IsPlain all_values groups) in
      let whole : All IsPlain text = All-append IsPlain hrp (b'1' ∷ t) plain body in
      let low : map lower text ≡ text = plain-lower text whole in
      rw
        (
          plain-printable text whole,
          low,
          bytes_eq_refl text,
          rfind-here hrp t (rfind-groups all_values groups),
        )
        (ap (λ z. decode_at z (length hrp)) low ∙ decode_text_at nonempty groups six short right)

-- A witness version and a program that the format has.
pub record IsProgram (witver : ℕ) (program : Bytes) : Type 0 where
  pub version : witver ≤ 16
  pub least : 2 ≤ length program
  pub most : length program ≤ 40
  pub version_0 : witver ≡ 0 → (length program ≡ 20) ⊎ (length program ≡ 32)
  pub bytes : AreBytes program

abbrev encoding_for : ℕ → Encoding
encoding_for witver = if witver == 0 then bech32 else bech32m

program_accepted :
    (witver : ℕ) (program : Bytes)
    → IsProgram witver program
    → is_program witver program (encoding_for witver) ≡ true
unfolding is_program fits_encoding
program_accepted zero program h = elim (h.version_0 refl) [ inl e ↦ rw e refl | inr e ↦ rw e refl ]
program_accepted (suc n) program h = ground (arith, h.version, h.least, h.most)

decode_values-eq :
    (encoding : Encoding) (witver : ℕ) (g program : List ℕ)
    → convertbits g 5 8 false ≡ some program
    → is_program witver program encoding ≡ true
    → decode_values encoding (witver ∷ g) ≡ some (witver, program)
unfolding decode_values decode_program
decode_values-eq encoding witver g program e t = rw (e, t) refl

encode-eq :
    (hrp : Text) (witver : ℕ) (program g : List ℕ)
    → convertbits program 8 5 true ≡ some g
    → decode hrp (bech32_encode (encoding_for witver) hrp (witver ∷ g)) ≡ some (witver, program)
    → encode hrp witver program ≡ some (bech32_encode (encoding_for witver) hrp (witver ∷ g))
unfolding encode encode_groups if_decoded
encode-eq hrp witver program g e d =
    ap (encode_groups hrp witver) e
    ∙ ap (if_decoded (bech32_encode (encoding_for witver) hrp (witver ∷ g))) d

-- The text for a version and a program is written, and decoded to them, under a human readable part
-- of at most 17 printable characters without capitals: the version is at most 16, and the program
-- has 2 to 40 bytes, 20 or 32 of them for version 0.
pub decode-encode_program :
    (hrp : Text) (witver : ℕ) (program : Bytes)
    → All IsPlain hrp
    → 1 ≤ length hrp
    → length hrp ≤ 17
    → IsProgram witver program
    → (s : Text) × (encode hrp witver program ≡ some s) × (decode hrp s ≡ some (witver, program))
unfolding decode decode_bech32 bech32_encode bech32_create_checksum
decode-encode_program hrp witver program plain nonempty short h =
    let encoding : Encoding = encoding_for witver in
    let (g, there, back) = convertbits_round_trip program h.bytes in
    let (groups, few) = convert-groups 0 0 program g (unfold convertbits in there) in
    let values : List ℕ = witver ∷ g in
    let check : List ℕ = bech32_create_checksum encoding hrp values in
    let right = bech32_verify_checksum-created encoding hrp values in
    let all : AreGroups (values ++ check) =
      All-append (λ v. v < 32) values check (omega (arith, h.version), groups)
        (six_digits-AreGroups _) in
    let got =
      decode_text encoding hrp values check plain nonempty all (length-six_digits _)
        (omega (arith, few, short, h.most)) right in
    let d : decode hrp (bech32_encode encoding hrp values) ≡ some (witver, program) =
      ap (decode_bech32 hrp) got
      ∙ rw (bytes_eq_refl hrp)
          (decode_values-eq encoding witver g program back (program_accepted witver program h)) in
    (bech32_encode encoding hrp values, encode-eq hrp witver program g there d, d)
