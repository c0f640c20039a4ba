-- ===== src/Json/RoundTrip.antt =====
-- xmlrpc-c/src/json.c: a string that is written comes back.
use xml_rpc.Prelude.{
  ℕ, zero, suc, ◌+◌, ◌-◌, ◌*◌, ◌/◌, ◌%◌, ◌≤◌, ◌≡◌, refl, ap, ◌∙◌, sym, false, [], ◌∷◌, ◌++◌, Bytes,
  c_str, length, take, drop, arith, append_assoc, take-length-append, length-append,
}
use xml_rpc.Fault.{Result, ok, ◌>>=◌}
use xml_rpc.Value.{string}
use xml_rpc.Value.Strings.{read_string_lp, validate_string_type}
use xml_rpc.Json.Scan.{at_comment, advance_to_next_token}
use xml_rpc.Json.Token.{
  Tokenizer, initialize_tokenizer, type_string, string_end, get_token, token_from, token_at,
  finish_string_token, finish_at,
}
use xml_rpc.Json.Parse.{
  string_token_value, at_token, make_utf8_string, string_chars, parse_value, parse_document,
  parse_json,
}
use xml_rpc.Json.Print.{
  serialize_json, serialize_value, indented, indent, serialize_content, serialize_string,
  make_json_string_from_xml_rpc, spaces,
}
use xml_rpc.Json.Pieces.{
  piece, simple_piece, unicode_piece, plain_piece, hex_xdigit, writing_of, c_str-piece,
}
use xml_rpc.Json.Writing.{json_text, IsWritable, make_json_string_lem, unescape_string-json_text}

-- The tokenizer passes what is written for a character.
string_end-piece :
    (tok : Tokenizer) (c : ℕ) (rest : Bytes)
    → string_end tok (piece c ++ rest) ≡ string_end tok rest
unfolding string_end
string_end-piece tok c rest = elim (writing_of c) [
  | simple_piece d e simple u run ↦ rw (e) (rw (simple, string_end) refl)
  | unicode_piece e small numbered ↦ rw (e) (
      rw (hex_xdigit (c / 16) (omega arith), string_end)
        (rw (hex_xdigit (c % 16) (omega arith), string_end) refl))
  | plain_piece e q b z ↦ rw (e) (rw (q, string_end) (rw (b, string_end) refl))
]

-- The text of a string up to its closing quotation mark.
string_end-json_text :
    (tok : Tokenizer) (s rest : Bytes) → string_end tok (json_text s ++ b'"' ∷ rest) ≡ ok rest
unfolding string_end json_text
string_end-json_text tok [] rest = refl
string_end-json_text tok (c ∷ s) rest =
    ap (string_end tok) (append_assoc (piece c) (json_text s) (b'"' ∷ rest))
    ∙ string_end-piece tok c (json_text s ++ b'"' ∷ rest)
    ∙ string_end-json_text tok s rest

c_str-json_text : (s : Bytes) → c_str (json_text s ++ b'"' ∷ []) ≡ json_text s ++ b'"' ∷ []
unfolding json_text
c_str-json_text [] = refl
c_str-json_text (c ∷ s) =
    ap c_str (append_assoc (piece c) (json_text s) (b'"' ∷ []))
    ∙ c_str-piece c (json_text s ++ b'"' ∷ [])
    ∙ ap (λ r. piece c ++ r) (c_str-json_text s)
    ∙ sym (append_assoc (piece c) (json_text s) (b'"' ∷ []))

quote_no_comment : (rest : Bytes) → at_comment (b'"' ∷ rest) ≡ false
quote_no_comment [] = refl
quote_no_comment (c ∷ rest) = refl

-- The token of a string at the front of the document.
abbrev string_token : Bytes → Bytes → Bytes → Tokenizer
string_token original chars rest = record {
  original = original;
  size = length (b'"' ∷ chars ++ b'"' ∷ rest) - length rest - 1;
  begin = b'"' ∷ chars ++ b'"' ∷ rest;
  end = rest;
  ttype = type_string;
}

advance-quote :
    (rest : Bytes) → advance_to_next_token (length (b'"' ∷ rest)) (b'"' ∷ rest) ≡ b'"' ∷ rest
unfolding advance_to_next_token
advance-quote rest = rw (quote_no_comment rest, advance_to_next_token) refl

token_from-string :
    (tok : Tokenizer) (s rest : Bytes)
    → token_from tok (b'"' ∷ json_text s ++ b'"' ∷ rest)
      ≡ ok (string_token tok.original (json_text s) rest)
unfolding token_from token_at finish_string_token finish_at
token_from-string tok s rest = rw (string_end-json_text _ s rest, token_from) refl

get_token-string :
    (tok : Tokenizer) (s rest : Bytes)
    → tok.end ≡ b'"' ∷ json_text s ++ b'"' ∷ rest
    → get_token tok ≡ ok (string_token tok.original (json_text s) rest)
unfolding get_token
get_token-string tok s rest h =
    ap (λ document. token_from tok (advance_to_next_token (length document) document)) h
    ∙ ap (token_from tok) (advance-quote (json_text s ++ b'"' ∷ rest))
    ∙ token_from-string tok s rest

take_chars :
    (chars rest : Bytes)
    → drop 1 (
        take (length (b'"' ∷ chars ++ b'"' ∷ rest) - length rest - 1) (b'"' ∷ chars ++ b'"' ∷ rest))
      ≡ chars
take_chars chars rest =
    ap (λ n. drop 1 (take n (b'"' ∷ chars ++ b'"' ∷ rest))) count
    ∙ take-length-append chars (b'"' ∷ rest)
  where
    count : length (b'"' ∷ chars ++ b'"' ∷ rest) - length rest - 1 ≡ suc (length chars)
    count = omega (arith, length-append chars (b'"' ∷ rest))

-- The value of the token is the string.
module _ (overrun : Bytes → Result Bytes) (stray : Bytes → Bytes) where
  string_token-value :
      (original s rest : Bytes)
      → IsWritable overrun stray s
      → string_token_value stray (string_token original (json_text s) rest) ≡ ok (string s)
  unfolding string_token_value at_token make_utf8_string string_chars
  string_token-value original s rest h =
      rw (take_chars (json_text s) rest)
        (rw (unescape_string-json_text overrun stray s h, string_token_value) refl)

  serialize_json-string :
      (format_e : ℕ → Bytes) (s : Bytes)
      → IsWritable overrun stray s
      → serialize_json overrun format_e (string s) ≡ ok (b'"' ∷ json_text s ++ b'"' ∷ [])
  unfolding serialize_json serialize_value indented indent serialize_content serialize_string
      make_json_string_from_xml_rpc spaces read_string_lp validate_string_type
  serialize_json-string format_e s h =
      rw (make_json_string_lem overrun stray s h, serialize_json) refl

module _ (overrun : Bytes → Result Bytes) (stray : Bytes → Bytes) (strtod : Bytes → ℕ) where
  parse_value-string :
      (fuel : ℕ) (original s rest : Bytes)
      → 1 ≤ fuel
      → IsWritable overrun stray s
      → parse_value stray strtod fuel (string_token original (json_text s) rest)
        ≡ ok (string s, string_token original (json_text s) rest)
  unfolding parse_value
  parse_value-string zero original s rest h k = absurd (omega arith)
  parse_value-string (suc fuel) original s rest h k =
      ap (λ r. r >>= (λ v. ok (v, string_token original (json_text s) rest)))
        (string_token-value overrun stray original s rest k)

  parse_document-string :
      (s : Bytes)
      → IsWritable overrun stray s
      → parse_document stray strtod (b'"' ∷ json_text s ++ b'"' ∷ []) ≡ ok (string s)
  unfolding parse_document initialize_tokenizer get_token advance_to_next_token token_from finish_at
  parse_document-string s k =
      rw
        (
          get_token-string (initialize_tokenizer (b'"' ∷ json_text s ++ b'"' ∷ [])) s [] refl,
          parse_document,
        )
        (rw
          (
            parse_value-string (length (b'"' ∷ json_text s ++ b'"' ∷ []) * 3 + 3)
                (b'"' ∷ json_text s ++ b'"' ∷ []) s [] (omega arith) k,
            parse_document,
          )
          refl)

  -- A string is written as a JSON document, and the document is read as the same string, if the string
  -- has no control character below 0x1F that is written by its number: any but \b, \t, \n, \f and \r
  -- is. With such characters this holds if the byte that sprintf writes behind its buffer changes
  -- nothing, and no hexadecimal digit stands in memory behind the four that strtol is to read.
  pub parse_json-serialize_json :
      (format_e : ℕ → Bytes) (s : Bytes)
      → IsWritable overrun stray s
      → (document : Bytes) × (serialize_json overrun format_e (string s) ≡ ok document)
        × (parse_json stray strtod document ≡ ok (string s))
  unfolding parse_json
  parse_json-serialize_json format_e s h = (
    b'"' ∷ json_text s ++ b'"' ∷ [],
    serialize_json-string overrun stray format_e s h,
    ap (λ document. parse_document stray strtod (b'"' ∷ document)) (c_str-json_text s)
        ∙ parse_document-string s h,
  )
