-- ===== src/Json/Writing.antt =====
-- xmlrpc-c/src/json.c: the characters of a string are written, and read again.
use xml_rpc.Prelude.{
  ℕ, ◌+◌, ◌*◌, ◌/◌, ◌%◌, ◌≡◌, refl, ap, ◌∙◌, Bool, true, false, ◌<◌, ◌^◌, ◌==◌, ◌||◌, ◌⊎◌, inl, inr,
  All, ltb, if◌then◌else◌, Bool-cases, [], ◌∷◌, ◌++◌, Bytes, arith,
}
use xml_rpc.Fault.{Result, ok, ◌>>=◌}
use xml_rpc.Json.Scan.{is_xdigit}
use xml_rpc.Json.Strings.{
  unescape_string, make_json_string, append_escape_seq, utf8_decode, digit_value, hex_digit,
  digits_behind, code_point, four_digits,
}
use xml_rpc.Json.Pieces.{
  piece, simple_piece, unicode_piece, plain_piece, writing_of, number_value, small_char,
  escape_text, is_by_number,
}

-- What is written for a string.
unfoldable pub json_text : Bytes → Bytes
json_text [] = []
json_text (c ∷ rest) = piece c ++ json_text rest

-- What the source leaves open does no harm: the byte behind the buffer is not used, and no digit
-- stands behind the four.
abbrev pub starts_with_xdigit : Bytes → Bool
starts_with_xdigit [] = false
starts_with_xdigit (c ∷ s) = is_xdigit c

abbrev pub IsBenign : (Bytes → Result Bytes) → (Bytes → Bytes) → Type 0
IsBenign overrun stray =
    ((buffer : Bytes) → overrun buffer ≡ ok buffer)
    × ((rest : Bytes) → starts_with_xdigit (stray rest) ≡ false)

-- The string has no character that is written by its number, or this is not harmful.
abbrev pub IsWritable : (Bytes → Result Bytes) → (Bytes → Bytes) → Bytes → Type 0
IsWritable overrun stray s = All (λ c. is_by_number c ≡ false) s ⊎ IsBenign overrun stray

digits_behind-none :
    (value : ℕ) (s : Bytes) → starts_with_xdigit s ≡ false → digits_behind value s ≡ value
unfolding digits_behind
digits_behind-none value [] h = refl
digits_behind-none value (c ∷ s) h = rw h refl

code_point-none :
    (value : ℕ) (s : Bytes)
    → value < 2 ^ 20
    → starts_with_xdigit s ≡ false
    → code_point value s ≡ value
unfolding code_point
code_point-none value s small h = rw (digits_behind-none value s h) (ground arith)

number_behind :
    (c : ℕ) (behind : Bytes)
    → c < 32
    → starts_with_xdigit behind ≡ false
    → utf8_decode (
        code_point
          ((((0 * 16 + digit_value b'0') * 16 + digit_value b'0') * 16
                + digit_value (hex_digit (c / 16)))
              * 16
            + digit_value (hex_digit (c % 16)))
          behind)
      ≡ c ∷ []
number_behind c behind small h =
    ap (λ n. utf8_decode (code_point n behind)) (number_value c small)
    ∙ ap utf8_decode (code_point-none c behind (omega arith) h)
    ∙ small_char c small

if_ok :
    (b : Bool) (x y : Bytes) {r : Result Bytes}
    → (b ≡ false → r ≡ ok y)
    → (if b then ok x else r) ≡ ok (if b then x else y)
if_ok true x y h = refl
if_ok false x y h = h refl

no_letter :
    (c : ℕ)
    → (ltb c 31 || c == b'"' || c == b'\\') ≡ true
    → is_by_number c ≡ false
    → (c == b'"') ≡ false
    → (c == b'\\') ≡ false
    → (c == 8) ≡ false
    → (c == 12) ≡ false
    → (c == 10) ≡ false
    → (c == 13) ≡ false
    → (c == 9) ≡ false
    → ⊥
no_letter c escaped named q b e8 e12 e10 e13 e9 = ground arith

module _ (overrun : Bytes → Result Bytes) (stray : Bytes → Bytes) where
  first-IsWritable :
      (c : ℕ) (s : Bytes)
      → IsWritable overrun stray (c ∷ s)
      → (is_by_number c ≡ false) ⊎ IsBenign overrun stray
  first-IsWritable c s (inl named) = inl named.0
  first-IsWritable c s (inr benign) = inr benign

  later-IsWritable :
      (c : ℕ) (s : Bytes) → IsWritable overrun stray (c ∷ s) → IsWritable overrun stray s
  later-IsWritable c s (inl named) = inl named.1
  later-IsWritable c s (inr benign) = inr benign

  -- What the serializer writes for a character.
  append_escape_seq_lem :
      (c : ℕ)
      → (ltb c 31 || c == b'"' || c == b'\\') ≡ true
      → (is_by_number c ≡ false) ⊎ IsBenign overrun stray
      → append_escape_seq overrun c ≡ ok (escape_text c)
  unfolding append_escape_seq escape_text
  append_escape_seq_lem c escaped clean = if_ok (c == b'"') _ _ (λ q. if_ok (c == b'\\') _ _ (λ b.
      if_ok (c == 8) _ _ (λ e8. if_ok (c == 12) _ _ (λ e12. if_ok (c == 10) _ _ (λ e10.
        if_ok (c == 13) _ _ (λ e13. if_ok (c == 9) _ _ (λ e9. elim clean [
          | inl named ↦ absurd (no_letter c escaped named q b e8 e12 e10 e13 e9)
          | inr benign ↦ benign.0 (b'\\' ∷ b'u' ∷ four_digits c)
        ])))))))

  written_lem :
      (c : ℕ)
      → (is_by_number c ≡ false) ⊎ IsBenign overrun stray
      → (if ltb c 31 || c == b'"' || c == b'\\' then append_escape_seq overrun c else ok (c ∷ []))
        ≡ ok (piece c)
  written_lem c clean = elim (Bool-cases (ltb c 31 || c == b'"' || c == b'\\')) [
    | inl escaped ↦ rw escaped (append_escape_seq_lem c escaped clean)
    | inr plain ↦ rw plain refl
  ]

  pub make_json_string_lem :
      (s : Bytes) → IsWritable overrun stray s → make_json_string overrun s ≡ ok (json_text s)
  unfolding make_json_string json_text
  make_json_string_lem [] h = refl
  make_json_string_lem (c ∷ s) h =
      ap (λ r. r >>= (λ written. make_json_string overrun s >>= (λ later. ok (written ++ later))))
        (written_lem c (first-IsWritable c s h))
      ∙ ap (λ r. r >>= (λ later. ok (piece c ++ later)))
          (make_json_string_lem s (later-IsWritable c s h))

  -- Reading what is written for a character gives the character.
  unescape_string-piece :
      (c : ℕ) (rest : Bytes)
      → (is_by_number c ≡ false) ⊎ IsBenign overrun stray
      → unescape_string stray (piece c ++ rest)
        ≡ (unescape_string stray rest >>= (λ later. ok (c ∷ later)))
  unfolding unescape_string
  unescape_string-piece c rest h = elim (writing_of c) [
    | simple_piece d e simple u run ↦
        rw (e) (rw (u, unescape_string) (rw (run, unescape_string) refl))
    | unicode_piece e small numbered ↦ elim h [
      | inl named ↦ cc
      | inr benign ↦ rw (e) (
          ap (λ text. unescape_string stray rest >>= (λ later. ok (text ++ later)))
            (number_behind c (stray rest) small (benign.1 rest)))
    ]
    | plain_piece e q b z ↦ rw (e) (rw (b, unescape_string) refl)
  ]

  pub unescape_string-json_text :
      (s : Bytes) → IsWritable overrun stray s → unescape_string stray (json_text s) ≡ ok s
  unfolding unescape_string json_text
  unescape_string-json_text [] h = refl
  unescape_string-json_text (c ∷ s) h =
      unescape_string-piece c (json_text s) (first-IsWritable c s h)
      ∙ ap (λ r. r >>= (λ later. ok (c ∷ later)))
          (unescape_string-json_text s (later-IsWritable c s h))
