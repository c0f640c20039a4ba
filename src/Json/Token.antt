-- ===== src/Json/Token.antt =====
-- xmlrpc-c/src/json.c: the tokenizer. A pointer into the document is the rest of the document from there, which
-- ends at its NUL. The text of a fault has the line and the column, but not the arguments of the message.
use xml_rpc.Prelude.{
  ℕ, zero, suc, ◌+◌, ◌-◌, true, false, [], ◌∷◌, ◌++◌, ◌==◌, if◌then◌else◌, Bytes, text, length,
  take, decimal,
}
use xml_rpc.Fault.{Result, ok, err, parse_error, ◌>>=◌, message}
use xml_rpc.Json.Scan.{
  is_xdigit, is_simple_escape, is_integer, is_float, is_word_char, word_end, is_start_of,
  advance_to_next_token,
}

-- enum ttype
pub data Ttype : Type 0 where
  type_none type_open_brace type_close_brace type_open_bracket type_close_bracket : Ttype
  type_colon type_comma type_string type_integer type_float type_null type_undefined : Ttype
  type_true type_false type_eof : Ttype

pub record Tokenizer : Type 0 where
  pub original : Bytes
  pub size : ℕ
  pub begin : Bytes
  pub end : Bytes
  pub ttype : Ttype

-- initializeTokenizer
unfoldable pub initialize_tokenizer : Bytes → Tokenizer
initialize_tokenizer str = record {
  original = str;
  size = 0;
  begin = str;
  end = str;
  ttype = type_none;
}

-- The loop of currentDocumentPosition over the text before the token.
unfoldable pub position_after : Bytes → ℕ → ℕ → ℕ × ℕ
position_after [] cur_line cur_col = (cur_line + 1, cur_col + 1)
position_after (c ∷ rest) cur_line cur_col =
    position_after rest (if c == b'\n' then cur_line + 1 else cur_line)
      (if c == b'\n' then 0 else cur_col + 1)

-- currentDocumentPosition
unfoldable pub current_document_position : Tokenizer → ℕ × ℕ
current_document_position tok =
    position_after (take (length tok.original - length tok.begin) tok.original) 0 0

-- setParseErr
unfoldable pub set_parse_err {ℓ} : {A : Type ℓ} → Tokenizer → Bytes → Result A
set_parse_err tok msg =
    let position = current_document_position tok in
    err (record {
      code = parse_error;
      text =
          message "JSON parse error at Line "
          ++ decimal position.0
          ++ message ", Column "
          ++ decimal position.1
          ++ message ": "
          ++ msg;
    })

unfoldable mutual
  -- The loop of finishStringToken, and the step past the quotation mark.
  pub string_end : Tokenizer → Bytes → Result Bytes
  string_end tok [] =
      set_parse_err tok (message "JSON document ends in the middle of a backslash escape sequence")
  string_end tok (c ∷ rest) = elim (c == b'"') [
    | true ↦ ok rest
    | false ↦ elim (c == b'\\') [ true ↦ escape_end tok rest | false ↦ string_end tok rest ]
  ]

  -- Behind a backslash.
  pub escape_end : Tokenizer → Bytes → Result Bytes
  escape_end tok [] = set_parse_err tok (message "unknown escape character after backslash: '%c'")
  escape_end tok (c ∷ rest) = elim (is_simple_escape c) [
    | true ↦ string_end tok rest
    | false ↦ elim (c == b'u') [
      | true ↦ unicode_end tok 3 rest
      | false ↦ set_parse_err tok (message "unknown escape character after backslash: '%c'")
    ]
  ]

  -- At a hexadecimal digit, which so many others follow.
  pub unicode_end : Tokenizer → ℕ → Bytes → Result Bytes
  unicode_end tok n [] =
      set_parse_err tok (message "hex unicode must contain 4 digits.  There are only %u here")
  unicode_end tok zero (c ∷ rest) = elim (is_xdigit c) [
    | true ↦ string_end tok rest
    | false ↦
        set_parse_err tok (message "hex unicode must contain 4 digits.  There are only %u here")
  ]
  unicode_end tok (suc n) (c ∷ rest) = elim (is_xdigit c) [
    | true ↦ unicode_end tok n rest
    | false ↦
        set_parse_err tok (message "hex unicode must contain 4 digits.  There are only %u here")
  ]

-- finishDelimiterToken, and the type
unfoldable pub finish_at : Tokenizer → Bytes → Ttype → Tokenizer
finish_at tok rest t = record {
  original = tok.original;
  size = length tok.begin - length rest;
  begin = tok.begin;
  end = rest;
  ttype = t;
}

-- The token that a word is.
unfoldable pub word_type : Tokenizer → Bytes → Result Ttype
unfolding is_integer is_float is_start_of
word_type tok token =
    if is_integer token
    then ok type_integer
    else if is_float token
    then ok type_float
    else if is_start_of token (text "null")
    then ok type_null
    else if is_start_of token (text "undefined")
    then ok type_undefined
    else if is_start_of token (text "false")
    then ok type_false
    else if is_start_of token (text "true")
    then ok type_true
    else set_parse_err tok (
        message
          "Invalid word token -- Not a valid integer, floating point number, 'null', 'true', or 'false'")

-- finishStringToken, and the type; the size leaves out a quotation mark.
unfoldable pub finish_string_token : Tokenizer → Bytes → Result Tokenizer
unfolding string_end finish_at
finish_string_token tok rest = do
  rest' ← string_end tok rest
  ok (record (finish_at tok rest' type_string) { size = length tok.begin - length rest' - 1 })

-- finishAlphanumericWordToken, and the type
unfoldable pub finish_alphanumeric_word_token : Tokenizer → Bytes → Result Tokenizer
unfolding word_end finish_at word_type
finish_alphanumeric_word_token tok rest = do
  t ← word_type tok (take (length tok.begin - length (word_end rest)) tok.begin)
  ok (finish_at tok (word_end rest) t)

-- The end of getToken, from the first character of the token on.
unfoldable pub token_at : Tokenizer → ℕ → Bytes → Result Tokenizer
unfolding finish_string_token finish_alphanumeric_word_token finish_at
token_at tok c rest =
    if c == b'{'
    then ok (finish_at tok rest type_open_brace)
    else if c == b'}'
    then ok (finish_at tok rest type_close_brace)
    else if c == b'['
    then ok (finish_at tok rest type_open_bracket)
    else if c == b']'
    then ok (finish_at tok rest type_close_bracket)
    else if c == b':'
    then ok (finish_at tok rest type_colon)
    else if c == b','
    then ok (finish_at tok rest type_comma)
    else if c == b'"'
    then finish_string_token tok rest
    else if is_word_char c
    then finish_alphanumeric_word_token tok rest
    else set_parse_err tok (
        message
          "Not a valid token -- starts with '%c'; a valid token starts with one of []{}:,\"-. or digit or letter")

-- getToken behind the white space and the comments
unfoldable pub token_from : Tokenizer → Bytes → Result Tokenizer
unfolding token_at finish_at
token_from tok [] = ok (finish_at (record tok { begin = []; end = [] }) [] type_eof)
token_from tok (c ∷ rest) = token_at (record tok { begin = c ∷ rest; end = c ∷ rest }) c rest

-- getToken
unfoldable pub get_token : Tokenizer → Result Tokenizer
unfolding token_from advance_to_next_token
get_token tok = token_from tok (advance_to_next_token (length tok.end) tok.end)
