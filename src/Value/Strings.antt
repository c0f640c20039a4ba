-- ===== src/Value/Strings.antt =====
-- xmlrpc-c/src/xmlrpc_string.c: making a string, and reading one back.
pub mod Lines
pub mod Wide
use xml_rpc.Prelude.{ℕ, Bool, true, false, ◌&&◌, List, [], ◌∷◌, ◌==◌, if◌then◌else◌, Bytes, ◌||◌}
use xml_rpc.Fault.{Result, ok, type_error, fault, ◌>>=◌, ◌>>◌}
use xml_rpc.Utf8.{validate_utf8}
use xml_rpc.Value.{Value, string}

pub data CrTreatment : Type 0 where
  cr_is_linedelim cr_is_char : CrTreatment

-- The loop of copyLines: a CR becomes a LF, and a LF right behind it is skipped. The source copies
-- what stands between two CRs at once; the flag says that a CR has just been read.
unfoldable pub copy_lines : Bool → Bytes → Bytes
copy_lines after_cr [] = []
copy_lines after_cr (c ∷ rest) =
    let is_cr = c == b'\r' in
    let later = copy_lines is_cr rest in
    if is_cr then b'\n' ∷ later else if after_cr && c == b'\n' then later else c ∷ later

-- memchr(value, '\r', length)
unfoldable pub has_cr : Bytes → Bool
has_cr [] = false
has_cr (c ∷ rest) = c == b'\r' || has_cr rest

-- copyLines or copySimple
unfoldable pub string_block : CrTreatment → Bytes → Bytes
string_block cr_is_linedelim value = if has_cr value then copy_lines false value else value
string_block cr_is_char value = value

-- stringNew
unfoldable pub string_new_cr_treatment : CrTreatment → Bytes → Result Value
unfolding string_block
string_new_cr_treatment treatment value = do
  validate_utf8 value
  ok (string (string_block treatment value))

-- xmlrpc_string_new_lp, and xmlrpc_string_new on the bytes before the NUL
unfoldable pub string_new_lp : Bytes → Result Value
unfolding string_new_cr_treatment
string_new_lp = string_new_cr_treatment cr_is_linedelim

-- xmlrpc_string_new_lp_cr and xmlrpc_string_new_cr
unfoldable pub string_new_lp_cr : Bytes → Result Value
unfolding string_new_cr_treatment
string_new_lp_cr = string_new_cr_treatment cr_is_char

-- validateStringType, and the block of the string that it lets through
unfoldable pub validate_string_type : Value → Result Bytes
validate_string_type (string block) = ok block
validate_string_type v =
    fault type_error "Value of type %s supplied where string type was expected."

-- verifyNoNulls
unfoldable pub verify_no_nulls : Bytes → Result (Unit {0})
verify_no_nulls [] = ok tt
verify_no_nulls (c ∷ rest) =
    let later = verify_no_nulls rest in
    if c == 0 then fault type_error "String must not contain NUL characters" else later

-- accessStringValue
unfoldable pub access_string_value : Value → Result Bytes
access_string_value v = do contents ← validate_string_type v; verify_no_nulls contents; ok contents

-- xmlrpc_read_string: the bytes before the NUL that ends the result
unfoldable pub read_string : Value → Result Bytes
read_string v = access_string_value v

-- copyAndConvertLfToCrlf
unfoldable pub convert_lf_to_crlf : Bytes → Bytes
convert_lf_to_crlf [] = []
convert_lf_to_crlf (p ∷ rest) =
    let later = convert_lf_to_crlf rest in if p == b'\n' then b'\r' ∷ p ∷ later else p ∷ later

-- xmlrpc_read_string_crlf
unfoldable pub read_string_crlf : Value → Result Bytes
read_string_crlf v = do contents ← access_string_value v; ok (convert_lf_to_crlf contents)

-- xmlrpc_read_string_lp
unfoldable pub read_string_lp : Value → Result Bytes
read_string_lp v = validate_string_type v

-- xmlrpc_read_string_lp_crlf
unfoldable pub read_string_lp_crlf : Value → Result Bytes
read_string_lp_crlf v = do contents ← validate_string_type v; ok (convert_lf_to_crlf contents)
