-- ===== src/Json/Strings.antt =====
-- xmlrpc-c/src/json.c: the characters of a string, with and without escapes.
use xml_rpc.Prelude.{
  ℕ, zero, suc, ◌+◌, ◌-◌, ◌*◌, ◌/◌, ◌%◌, ◌^◌, true, false, ◌||◌, [], ◌∷◌, ◌++◌, ltb, leb, ◌==◌, min,
  length, if◌then◌else◌, Bytes,
}
use xml_rpc.Number.{long_max}
use xml_rpc.Json.Scan.{is_xdigit}
use xml_rpc.Fault.{Result, ok, faultf, ◌>>=◌}

-- utf8Decode
unfoldable pub utf8_decode : ℕ → Bytes
utf8_decode c =
    if leb c 127
    then c ∷ []
    else if leb c 2047
    then (192 + c / 64) ∷ (128 + c % 64) ∷ []
    else if leb c 65535
    then (224 + c / 4096) ∷ (128 + c / 64 % 64) ∷ (128 + c % 64) ∷ []
    else if leb c 2097151
    then (240 + c / 262144) ∷ (128 + c / 4096 % 64) ∷ (128 + c / 64 % 64) ∷ (128 + c % 64) ∷ []
    else []

-- The value of a hexadecimal digit.
unfoldable pub digit_value : ℕ → ℕ
digit_value c = if leb c b'9' then c - b'0' else if leb c b'F' then c - b'A' + 10 else c - b'a' + 10

-- What the letter behind a backslash stands for, other than u.
unfoldable pub simple_escape : ℕ → Result ℕ
simple_escape c =
    if c == b'"'
    then ok b'"'
    else if c == b'/'
    then ok b'/'
    else if c == b'\\'
    then ok b'\\'
    else if c == b'b'
    then ok 8
    else if c == b'f'
    then ok 12
    else if c == b'n'
    then ok 10
    else if c == b'r'
    then ok 13
    else if c == b't'
    then ok 9
    else faultf "Invalid character after backslash escape: '%c'"

-- strtol on the digits behind a value, up to a character that is none
unfoldable pub digits_behind : ℕ → Bytes → ℕ
digits_behind value [] = value
digits_behind value (c ∷ s) =
    let more = digits_behind (value * 16 + digit_value c) s in if is_xdigit c then more else value

-- The `long` that strtol makes, as a uint32_t
unfoldable pub code_point : ℕ → Bytes → ℕ
unfolding digits_behind
code_point value behind = min long_max (digits_behind value behind) % 2 ^ 32

-- The four digits are copied without a NUL, and strtol reads on into what stands behind them in
-- memory. The source leaves that open; it is a parameter, which may differ from place to place.
module _ (stray : Bytes → Bytes) where
  unfoldable mutual
    unfolding utf8_decode digit_value simple_escape code_point

    -- unescapeString; the tokenizer has made sure that four digits follow a u.
    pub unescape_string : Bytes → Result Bytes
    unescape_string [] = ok []
    unescape_string (c ∷ rest) = elim (c == b'\\') [
      | true ↦ get_backslash_sequence rest
      | false ↦ unescape_string rest >>= (λ later. ok (c ∷ later))
    ]

    -- getBackslashSequence, and what follows
    pub get_backslash_sequence : Bytes → Result Bytes
    get_backslash_sequence [] = faultf "Invalid character after backslash escape: '%c'"
    get_backslash_sequence (c ∷ rest) = elim (c == b'u') [
      | true ↦ get_unicode 3 0 rest
      | false ↦ simple_escape c >>= (λ d. unescape_string rest >>= (λ later. ok (d ∷ later)))
    ]

    -- strncpy and strtol on a digit and so many others, after a value
    pub get_unicode : ℕ → ℕ → Bytes → Result Bytes
    get_unicode n digit [] = ok (utf8_decode digit)
    get_unicode zero digit (c ∷ rest) = unescape_string rest >>= (λ later.
        ok (utf8_decode (code_point (digit * 16 + digit_value c) (stray rest)) ++ later))
    get_unicode (suc n) digit (c ∷ rest) = get_unicode n (digit * 16 + digit_value c) rest

-- A digit of "%04x"
unfoldable pub hex_digit : ℕ → ℕ
hex_digit d = if ltb d 10 then b'0' + d else b'a' + (d - 10)

-- "%04x" for an unsigned char
unfoldable pub four_digits : ℕ → Bytes
unfolding hex_digit
four_digits c =
    hex_digit (c / 4096 % 16)
    ∷ hex_digit (c / 256 % 16)
    ∷ hex_digit (c / 16 % 16)
    ∷ hex_digit (c % 16)
    ∷ []

-- Where sprintf writes behind its buffer, what the program does is a parameter, which is given what
-- the buffer holds.
module _ (overrun : Bytes → Result Bytes) where
  -- appendEscapeSeq: the buffer has 6 bytes, of which sprintf may use 4 for its digits and its NUL.
  unfoldable pub append_escape_seq : ℕ → Result Bytes
  unfolding four_digits
  append_escape_seq c =
      if c == b'"'
      then ok (b'\\' ∷ b'"' ∷ [])
      else if c == b'\\'
      then ok (b'\\' ∷ b'\\' ∷ [])
      else if c == 8
      then ok (b'\\' ∷ b'b' ∷ [])
      else if c == 12
      then ok (b'\\' ∷ b'f' ∷ [])
      else if c == 10
      then ok (b'\\' ∷ b'n' ∷ [])
      else if c == 13
      then ok (b'\\' ∷ b'r' ∷ [])
      else if c == 9
      then ok (b'\\' ∷ b't' ∷ [])
      else if ltb 4 (length (four_digits c) + 1)
      then overrun (b'\\' ∷ b'u' ∷ four_digits c)
      else ok (b'\\' ∷ b'u' ∷ four_digits c)

  -- makeJsonString
  unfoldable pub make_json_string : Bytes → Result Bytes
  unfolding append_escape_seq
  make_json_string [] = ok []
  make_json_string (c ∷ rest) = do
    written ← if ltb c 31 || c == b'"' || c == b'\\' then append_escape_seq c else ok (c ∷ [])
    later ← make_json_string rest
    ok (written ++ later)
