-- ===== src/Json/Parse.antt =====
-- xmlrpc-c/src/json.c: the parser. A level of fuel is taken by each value, item and member.
use xml_rpc.Prelude.{ℕ, zero, suc, ◌+◌, ◌*◌, true, false, ◌++◌, Bytes, length, take, drop, c_str}
use xml_rpc.Fault.{Result, ok, err, faultf, message, ◌>>=◌}
use xml_rpc.Number.{parse_int64}
use xml_rpc.Value.{Value, bool, double, string, nil, i8}
use xml_rpc.Value.Arrays.{array_new, array_append_item}
use xml_rpc.Value.Structs.{struct_new, struct_set_value_v}
use xml_rpc.Json.Token.{
  type_open_brace, type_close_brace, type_open_bracket, type_close_bracket, type_colon, type_comma,
  type_string, type_integer, type_float, type_null, type_undefined, type_true, type_false, type_eof,
  Tokenizer, initialize_tokenizer, set_parse_err, get_token,
}
use xml_rpc.Json.Strings.{unescape_string}

-- A fault is reported anew with the position of the token.
unfoldable pub at_token {ℓ} : {A : Type ℓ} → Tokenizer → Bytes → Result A → Result A
at_token tok msg (ok a) = ok a
at_token tok msg (err e) = set_parse_err tok (msg ++ e.text)

-- The characters of a string token: the size counts the quotation mark at its beginning.
unfoldable pub string_chars : Tokenizer → Bytes
string_chars tok = drop 1 (take tok.size tok.begin)

-- integerTokenValue
unfoldable pub integer_token_value : Tokenizer → Result Value
integer_token_value tok =
    at_token tok (message "Error in integer token value '%s': ")
      (parse_int64 (take tok.size tok.begin) >>= (λ value. ok (i8 value)))

module _ (stray : Bytes → Bytes) where
  -- makeUtf8String
  unfoldable pub make_utf8_string : Bytes → Result Value
  make_utf8_string chars = do contents ← unescape_string stray chars; ok (string contents)

  -- stringTokenValue
  unfoldable pub string_token_value : Tokenizer → Result Value
  string_token_value tok =
      at_token tok (message "Error in string token: ") (make_utf8_string (string_chars tok))

module _ (stray : Bytes → Bytes) (strtod : Bytes → ℕ) where
  unfoldable mutual
    unfolding string_token_value integer_token_value make_utf8_string at_token string_chars

    -- parseValue; the value, and the tokenizer at its last token
    pub parse_value : ℕ → Tokenizer → Result (Value × Tokenizer)
    parse_value zero tok = faultf "out of fuel"
    parse_value (suc fuel) tok = elim tok.ttype [
      | type_open_bracket ↦ parse_list fuel array_new tok
      | type_open_brace ↦ parse_object fuel struct_new tok
      | type_null ↦ ok (nil, tok)
      | type_undefined ↦ ok (nil, tok)
      | type_false ↦ ok (bool false, tok)
      | type_true ↦ ok (bool true, tok)
      | type_integer ↦ integer_token_value tok >>= (λ v. ok (v, tok))
      | type_float ↦ ok (double (strtod tok.begin), tok)
      | type_string ↦ string_token_value stray tok >>= (λ v. ok (v, tok))
      | _ ↦ set_parse_err tok (
          message
            "Invalid token where a value is supposed to begin: %s.  Should be an open bracket, open brace, 'null', 'false', 'true', a number, or a string")
    ]

    -- The loop of parseList, with the array so far
    pub parse_list : ℕ → Value → Tokenizer → Result (Value × Tokenizer)
    parse_list zero list tok = faultf "out of fuel"
    parse_list (suc fuel) list tok = get_token tok >>= (λ next. elim next.ttype [
      | type_eof ↦ ok (list, next)
      | type_close_bracket ↦ ok (list, next)
      | _ ↦ parse_list_element fuel list next
    ])

    -- parseListElement, and the further rounds of the loop
    pub parse_list_element : ℕ → Value → Tokenizer → Result (Value × Tokenizer)
    parse_list_element zero list tok = faultf "out of fuel"
    parse_list_element (suc fuel) list tok = parse_value fuel tok >>= (λ item.
        array_append_item list item.0 >>= (λ longer. get_token item.1 >>= (λ next. elim next.ttype [
          | type_comma ↦ parse_list fuel longer next
          | type_close_bracket ↦ ok (longer, next)
          | _ ↦
              set_parse_err next
                (message "Need comma or close bracket after array item.  Instead we have %s")
        ])))

    -- The loop of parseObject, with the struct so far
    pub parse_object : ℕ → Value → Tokenizer → Result (Value × Tokenizer)
    parse_object zero object tok = faultf "out of fuel"
    parse_object (suc fuel) object tok = get_token tok >>= (λ next. elim next.ttype [
      | type_close_brace ↦ ok (object, next)
      | type_string ↦ parse_object_member fuel object next >>= (λ longer.
          get_token longer.1 >>= (λ after. elim after.ttype [
            | type_comma ↦ parse_object fuel longer.0 after
            | type_close_brace ↦ ok (longer.0, after)
            | _ ↦
                set_parse_err after
                  (message "Need a comma or close brace after object member.  Instead we have %s")
          ]))
      | _ ↦ set_parse_err next (
          message
            "Need a string (i.e. starting with a quotation mark) as member key in object, or closing brace to end the object.  Instead we have %s")
    ])

    -- parseObjectMember and parseObjectMemberValue
    pub parse_object_member : ℕ → Value → Tokenizer → Result (Value × Tokenizer)
    parse_object_member zero object tok = faultf "out of fuel"
    parse_object_member (suc fuel) object tok =
        at_token tok (message "Error in what is supposed to be the key of a member of an object: ")
          (make_utf8_string stray (string_chars tok))
        >>= (λ key. get_token tok >>= (λ next. elim next.ttype [
          | type_colon ↦ get_token next >>= (λ start.
              parse_value fuel start
              >>= (λ v. struct_set_value_v object key v.0 >>= (λ longer. ok (longer, v.1))))
          | _ ↦
              set_parse_err next
                (message "Need a colon after member key in object.  Instead we have %s")
        ]))

  -- xmlrpc_parse_json on the characters before the NUL; a token takes three levels of fuel at most
  unfoldable pub parse_document : Bytes → Result Value
  parse_document str = get_token (initialize_tokenizer str) >>= (λ tok.
      parse_value (length str * 3 + 3) tok >>= (λ v. get_token v.1 >>= (λ after. elim after.ttype [
        | type_eof ↦ ok v.0
        | _ ↦
            set_parse_err after
              (message "There is junk after the end of the JSON value, to wit a %s token")
      ])))

  -- xmlrpc_parse_json
  unfoldable pub parse_json : Bytes → Result Value
  unfolding parse_document
  parse_json str = parse_document (c_str str)
