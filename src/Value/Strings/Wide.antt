-- ===== src/Value/Strings/Wide.antt =====
-- xmlrpc-c/src/xmlrpc_string.c: the strings of wchar_t, as built with HAVE_UNICODE_WCHAR. A wide string is
-- the list of its codes.
use xml_rpc.Prelude.{
  ℕ, zero, suc, ◌+◌, ◌≡◌, refl, List, [], ◌∷◌, ◌==◌, if◌then◌else◌, length, All, arith, ◌<◌,
}
use xml_rpc.Fault.{Result, ok, ◌>>=◌, ◌>>◌}
use xml_rpc.Utf8.{utf8_to_wcs, wcs_to_utf8}
use xml_rpc.Value.{Value}
use xml_rpc.Value.Strings.{
  CrTreatment, cr_is_linedelim, cr_is_char, string_new_cr_treatment, validate_string_type,
  verify_no_nulls, convert_lf_to_crlf,
}

-- stringWNew
unfoldable pub string_w_new_cr_treatment : CrTreatment → List ℕ → Result Value
string_w_new_cr_treatment treatment value = do
  utf8 ← wcs_to_utf8 value
  string_new_cr_treatment treatment utf8

-- xmlrpc_string_w_new_lp, and xmlrpc_string_w_new on the codes before the NUL
unfoldable pub string_w_new_lp : List ℕ → Result Value
string_w_new_lp = string_w_new_cr_treatment cr_is_linedelim

-- xmlrpc_string_w_new_lp_cr and xmlrpc_string_w_new_cr
unfoldable pub string_w_new_lp_cr : List ℕ → Result Value
string_w_new_lp_cr = string_w_new_cr_treatment cr_is_char

-- validateStringType and setupWcsBlock
unfoldable pub wcs_block : Value → Result (List ℕ)
wcs_block v = do contents ← validate_string_type v; utf8_to_wcs contents

-- accessStringValueW, with verifyNoNullsW
unfoldable pub access_string_value_w : Value → Result (List ℕ)
access_string_value_w v = do wcontents ← wcs_block v; verify_no_nulls wcontents; ok wcontents

-- xmlrpc_read_string_w
unfoldable pub read_string_w : Value → Result (List ℕ)
read_string_w v = access_string_value_w v

-- xmlrpc_read_string_w_lp
unfoldable pub read_string_w_lp : Value → Result (List ℕ)
read_string_w_lp v = wcs_block v

-- lineDelimCountW; wcsstr goes no further than a NUL.
unfoldable pub line_delim_count_w : List ℕ → ℕ
line_delim_count_w [] = 0
line_delim_count_w (zero ∷ src) = 0
line_delim_count_w (suc c ∷ src) = (if suc c == b'\n' then 1 else 0) + line_delim_count_w src

-- xmlrpc_read_string_w_crlf, with wCopyAndConvertLfToCrlf
unfoldable pub read_string_w_crlf : Value → Result (List ℕ)
read_string_w_crlf v = do wcontents ← access_string_value_w v; ok (convert_lf_to_crlf wcontents)

-- The buffer that wCopyAndConvertLfToCrlf gets has room for what it writes, if there is no NUL in the
-- string.
pub length-convert_lf_to_crlf :
    (src : List ℕ)
    → All (λ c. 0 < c) src
    → length (convert_lf_to_crlf src) ≡ length src + line_delim_count_w src
unfolding convert_lf_to_crlf line_delim_count_w
length-convert_lf_to_crlf [] h = refl
length-convert_lf_to_crlf (zero ∷ src) h = absurd (omega arith)
length-convert_lf_to_crlf (suc c ∷ src) h = ground (arith, length-convert_lf_to_crlf src h.1)
