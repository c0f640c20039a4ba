-- ===== src/Json/Pieces.antt =====
-- xmlrpc-c/src/json.c: the three ways of writing a character of a string.
use xml_rpc.Prelude.{
  ℕ, zero, suc, ◌+◌, ◌*◌, ◌/◌, ◌%◌, ◌<◌, ◌≡◌, refl, subst, Bool, true, false, not, ◌&&◌, ◌||◌, [],
  ◌∷◌, ◌++◌, ltb, leb, ◌==◌, if◌then◌else◌, Bytes, c_str, arith, Bool-cases, inl, inr,
}
use xml_rpc.Fault.{ok}
use xml_rpc.Json.Scan.{is_xdigit, is_simple_escape}
use xml_rpc.Json.Strings.{utf8_decode, digit_value, simple_escape, hex_digit, four_digits}

-- What is written for a character that is escaped, and for any character.
unfoldable pub escape_text : ℕ → Bytes
unfolding four_digits
escape_text c =
    if c == b'"'
    then b'\\' ∷ b'"' ∷ []
    else if c == b'\\'
    then b'\\' ∷ b'\\' ∷ []
    else if c == 8
    then b'\\' ∷ b'b' ∷ []
    else if c == 12
    then b'\\' ∷ b'f' ∷ []
    else if c == 10
    then b'\\' ∷ b'n' ∷ []
    else if c == 13
    then b'\\' ∷ b'r' ∷ []
    else if c == 9
    then b'\\' ∷ b't' ∷ []
    else b'\\' ∷ b'u' ∷ four_digits c

-- A control character below 0x1F that has no letter of its own.
abbrev pub is_by_number : ℕ → Bool
is_by_number c = ltb c 31 && not (c == 8 || c == 9 || c == 10 || c == 12 || c == 13)

abbrev pub piece : ℕ → Bytes
piece c = if ltb c 31 || c == b'"' || c == b'\\' then escape_text c else c ∷ []

-- How a character is written: behind a backslash, by its number, or as it is.
pub data Piece (c : ℕ) : Type 0 where
  simple_piece :
      (d : ℕ)
      → piece c ≡ b'\\' ∷ d ∷ []
      → is_simple_escape d ≡ true
      → (d == b'u') ≡ false
      → simple_escape d ≡ ok c
      → Piece c
  unicode_piece :
      piece c ≡ b'\\' ∷ b'u' ∷ b'0' ∷ b'0' ∷ hex_digit (c / 16) ∷ hex_digit (c % 16) ∷ []
      → c < 32
      → is_by_number c ≡ true
      → Piece c
  plain_piece :
      piece c ≡ c ∷ [] → (c == b'"') ≡ false → (c == b'\\') ≡ false → (c == 0) ≡ false → Piece c

at_char : (k c : ℕ) → (c == k) ≡ true → Piece k → Piece c
at_char k c e p = subst Piece (ground arith) p

zero_digit : hex_digit 0 ≡ b'0'
unfolding hex_digit
zero_digit = refl

unicode_lem :
    (c : ℕ)
    → c < 31
    → (c == 8) ≡ false
    → (c == 12) ≡ false
    → (c == 10) ≡ false
    → (c == 13) ≡ false
    → (c == 9) ≡ false
    → piece c ≡ b'\\' ∷ b'u' ∷ b'0' ∷ b'0' ∷ hex_digit (c / 16) ∷ hex_digit (c % 16) ∷ []
unfolding escape_text four_digits
unicode_lem c h e8 e12 e10 e13 e9 =
    rw (control c h) (rw (quote c h, backslash c h, e8, e12, e10, e13, e9) (digits c h))
  where
    control : (c : ℕ) → c < 31 → ltb c 31 ≡ true
    control c h = ground arith

    quote : (c : ℕ) → c < 31 → (c == b'"') ≡ false
    quote c h = ground arith

    backslash : (c : ℕ) → c < 31 → (c == b'\\') ≡ false
    backslash c h = ground arith

    high : (c : ℕ) → c < 31 → c / 4096 % 16 ≡ 0
    high c h = omega arith

    low : (c : ℕ) → c < 31 → c / 256 % 16 ≡ 0
    low c h = omega arith

    next : (c : ℕ) → c < 31 → c / 16 % 16 ≡ c / 16
    next c h = omega arith

    digits :
        (c : ℕ)
        → c < 31
        → b'\\'
            ∷ b'u'
            ∷ hex_digit (c / 4096 % 16)
            ∷ hex_digit (c / 256 % 16)
            ∷ hex_digit (c / 16 % 16)
            ∷ hex_digit (c % 16)
            ∷ []
          ≡ b'\\' ∷ b'u' ∷ b'0' ∷ b'0' ∷ hex_digit (c / 16) ∷ hex_digit (c % 16) ∷ []
    digits c h = rw (high c h, low c h, next c h) (rw zero_digit refl)

plain_lem :
    (c : ℕ) → ltb c 31 ≡ false → (c == b'"') ≡ false → (c == b'\\') ≡ false → piece c ≡ c ∷ []
plain_lem c h q b = rw (h, q, b) refl

control_lem : (c : ℕ) → c < 31 → Piece c
unfolding escape_text simple_escape
control_lem c h = elim (Bool-cases (c == 8)) [
  | inl e8 ↦ at_char 8 c e8 (simple_piece b'b' refl refl refl refl)
  | inr e8 ↦ elim (Bool-cases (c == 12)) [
    | inl e12 ↦ at_char 12 c e12 (simple_piece b'f' refl refl refl refl)
    | inr e12 ↦ elim (Bool-cases (c == 10)) [
      | inl e10 ↦ at_char 10 c e10 (simple_piece b'n' refl refl refl refl)
      | inr e10 ↦ elim (Bool-cases (c == 13)) [
        | inl e13 ↦ at_char 13 c e13 (simple_piece b'r' refl refl refl refl)
        | inr e13 ↦ elim (Bool-cases (c == 9)) [
          | inl e9 ↦ at_char 9 c e9 (simple_piece b't' refl refl refl refl)
          | inr e9 ↦ unicode_piece (unicode_lem c h e8 e12 e10 e13 e9) (omega arith) (ground arith)
        ]
      ]
    ]
  ]
]

pub writing_of : (c : ℕ) → Piece c
unfolding escape_text simple_escape
writing_of c = elim (Bool-cases (ltb c 31)) [
  | inl h ↦ control_lem c (ground arith)
  | inr h ↦ elim (Bool-cases (c == b'"')) [
    | inl q ↦ at_char b'"' c q (simple_piece b'"' refl refl refl refl)
    | inr q ↦ elim (Bool-cases (c == b'\\')) [
      | inl b ↦ at_char b'\\' c b (simple_piece b'\\' refl refl refl refl)
      | inr b ↦ plain_piece (plain_lem c h q b) q b (ground arith)
    ]
  ]
]

pub hex_xdigit : (d : ℕ) → d < 16 → is_xdigit (hex_digit d) ≡ true
unfolding hex_digit
hex_xdigit d h = ground arith

pub hex_value : (d : ℕ) → d < 16 → digit_value (hex_digit d) ≡ d
unfolding hex_digit digit_value
hex_value d h = ground arith

pub small_char : (c : ℕ) → c < 32 → utf8_decode c ≡ c ∷ []
unfolding utf8_decode
small_char c h = rw below refl
  where
    below : leb c 127 ≡ true
    below = ground arith

pub number_value :
    (c : ℕ)
    → c < 32
    → (((0 * 16 + digit_value b'0') * 16 + digit_value b'0') * 16
            + digit_value (hex_digit (c / 16)))
          * 16
        + digit_value (hex_digit (c % 16))
      ≡ c
unfolding digit_value
number_value c h =
    rw (hex_value (c / 16) (omega arith), hex_value (c % 16) (omega arith)) (omega arith)

escape_nonzero : (d : ℕ) → is_simple_escape d ≡ true → (d == 0) ≡ false
escape_nonzero d h = ground arith

hex_nonzero : (d : ℕ) → (hex_digit d == 0) ≡ false
unfolding hex_digit
hex_nonzero d = ground arith

c_str-cons : (c : ℕ) (rest : Bytes) → (c == 0) ≡ false → c_str (c ∷ rest) ≡ c ∷ c_str rest
c_str-cons zero rest h = cc
c_str-cons (suc c) rest h = refl

pub c_str-piece : (c : ℕ) (rest : Bytes) → c_str (piece c ++ rest) ≡ piece c ++ c_str rest
c_str-piece c rest = elim (writing_of c) [
  | simple_piece d e simple u run ↦ rw (e) (rw (c_str-cons d rest (escape_nonzero d simple)) refl)
  | unicode_piece e small numbered ↦ rw (e) (
      rw
        (
          c_str-cons (hex_digit (c / 16)) (hex_digit (c % 16) ∷ rest) (hex_nonzero (c / 16)),
          c_str-cons (hex_digit (c % 16)) rest (hex_nonzero (c % 16)),
        )
        refl)
  | plain_piece e q b z ↦ rw (e) (c_str-cons c rest z)
]
