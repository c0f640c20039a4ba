-- ===== src/Tests/Text.antt =====
-- xmlrpc-c/lib/libutil/utf8.c, xmlrpc-c/lib/libutil/error.c, xmlrpc-c/src/xmlrpc_string.c and the escaping of
-- xmlrpc-c/src/xmlrpc_serialize.c at concrete texts.
use xml_rpc.Prelude.{
  ℕ, ◌≤◌, ◌*◌, ◌≡◌, refl, ◌↔◌, false, true, List, [], ◌∷◌, map, none, some, arith, Bytes, All,
  length, pos,
}
use xml_rpc.Fault.{Fault, ok, invalid_utf8_error, FailsWith, is_ok}
use xml_rpc.Utf8.{
  decode_loop, decode_char, utf8_to_wcs, wcs_to_utf8, validate_utf8, force_to_utf8,
  force_to_xml_chars, max_encoded_bytes,
}
use xml_rpc.Utf8.Chars.{IsByte, IsUcs2, IsUtf8, nil, char}
use xml_rpc.Utf8.RoundTrip.{
  utf8_to_wcs_iff, utf8_to_wcs-wcs_to_utf8, wcs_to_utf8-utf8_to_wcs, validate_utf8_iff,
}
use xml_rpc.Utf8.Force.{validate_utf8-force_to_utf8, force_to_utf8_id_iff}
use xml_rpc.Utf8.XmlChars.{is_xml_char, xml_char, force_to_xml_chars-IsUtf8}
use xml_rpc.Utf8.Faults.{utf8_to_wcs-FailsWith}
use xml_rpc.Env.{env_set_fault, env_set_fault_lem}
use xml_rpc.Value.{string}
use xml_rpc.Value.Strings.{copy_lines, string_new_lp, has_cr}
use xml_rpc.Value.Strings.Lines.{string_new_lp_lem}
use xml_rpc.Serialize.{escape_for_xml, escaped_size}
use xml_rpc.Serialize.Escape.{escape_for_xml_lem, is_inert, read_chars}

-- é, €, x
abbrev pub sample_text : List ℕ
sample_text = 0xE9 ∷ 0x20AC ∷ 120 ∷ []

abbrev pub sample_bytes : Bytes
sample_bytes = 0xC3 ∷ 0xA9 ∷ 0xE2 ∷ 0x82 ∷ 0xAC ∷ 120 ∷ []

sample_bytes-IsByte : All IsByte sample_bytes
sample_bytes-IsByte = ground arith

-- An overlong NUL.
abbrev overlong : Bytes
overlong = 0xC0 ∷ 0x80 ∷ []

overlong-IsByte : All IsByte overlong
overlong-IsByte = ground arith

decoded_test : utf8_to_wcs sample_bytes ≡ ok sample_text
unfolding utf8_to_wcs decode_loop decode_char
decoded_test = refl

overlong_test : is_ok (validate_utf8 overlong) ≡ false
unfolding validate_utf8 utf8_to_wcs decode_loop decode_char
overlong_test = refl

sample_valid : validate_utf8 sample_bytes ≡ ok tt
unfolding validate_utf8 utf8_to_wcs decode_loop decode_char
sample_valid = refl

utf8_to_wcs_iff_example :
    (utf8_to_wcs sample_bytes ≡ ok sample_text) ↔ IsUtf8 sample_text sample_bytes
utf8_to_wcs_iff_example = utf8_to_wcs_iff sample_bytes sample_text sample_bytes-IsByte

wcs_round_trip_example :
    (bytes : Bytes) × (wcs_to_utf8 sample_text ≡ ok bytes)
    × (length bytes ≤ length sample_text * max_encoded_bytes)
    × (utf8_to_wcs bytes ≡ ok sample_text)
wcs_round_trip_example = utf8_to_wcs-wcs_to_utf8 sample_text (ground arith)

utf8_round_trip_example :
    (wcs_to_utf8 sample_text ≡ ok sample_bytes)
    × ((other : List ℕ)
        → All IsUcs2 other
        → wcs_to_utf8 other ≡ ok sample_bytes
        → other ≡ sample_text)
utf8_round_trip_example =
    wcs_to_utf8-utf8_to_wcs sample_bytes sample_text sample_bytes-IsByte decoded_test

validate_utf8_iff_example :
    (validate_utf8 overlong ≡ ok tt) ↔ ((wcs : List ℕ) × IsUtf8 wcs overlong)
validate_utf8_iff_example = validate_utf8_iff overlong overlong-IsByte

force_to_utf8_example :
    (validate_utf8 (force_to_utf8 overlong) ≡ ok tt)
    × (length (force_to_utf8 overlong) ≡ length overlong)
force_to_utf8_example = validate_utf8-force_to_utf8 overlong overlong-IsByte

force_to_utf8_id_example : (force_to_utf8 overlong ≡ overlong) ↔ (validate_utf8 overlong ≡ ok tt)
force_to_utf8_id_example = force_to_utf8_id_iff overlong overlong-IsByte

utf8_to_wcs_fails_example : FailsWith invalid_utf8_error (utf8_to_wcs overlong)
utf8_to_wcs_fails_example = utf8_to_wcs-FailsWith overlong

-- A bell, and é.
abbrev bell_text : List ℕ
bell_text = 7 ∷ 0xE9 ∷ []

abbrev bell_bytes : Bytes
bell_bytes = 7 ∷ 0xC3 ∷ 0xA9 ∷ []

bell-IsUtf8 : IsUtf8 bell_text bell_bytes
bell-IsUtf8 = char 7 (ground arith) (char 0xE9 (ground arith) nil)

force_to_xml_chars_example :
    (out : Bytes) × (force_to_xml_chars bell_bytes ≡ some out)
    × IsUtf8 (map xml_char bell_text) out
    × (length out ≡ length bell_bytes)
force_to_xml_chars_example = force_to_xml_chars-IsUtf8 bell-IsUtf8

env_set_fault_example :
    (f : Fault) × (env_set_fault (pos 7) overlong ≡ some f)
    × (f.code ≡ pos 7)
    × (length f.text ≡ length overlong)
    × ((wcs : List ℕ) × IsUtf8 wcs f.text × All (λ wc. is_xml_char wc ≡ true) wcs)
env_set_fault_example = env_set_fault_lem (pos 7) overlong overlong-IsByte

-- a, CR, LF, b
abbrev crlf_line : Bytes
crlf_line = 97 ∷ 13 ∷ 10 ∷ 98 ∷ []

crlf_line_valid : validate_utf8 crlf_line ≡ ok tt
unfolding validate_utf8 utf8_to_wcs decode_loop decode_char
crlf_line_valid = refl

string_new_lp_test : string_new_lp crlf_line ≡ ok (string (97 ∷ 10 ∷ 98 ∷ []))
unfolding string_new_lp validate_utf8 utf8_to_wcs decode_loop decode_char copy_lines has_cr
string_new_lp_test = refl

string_new_lp_example :
    (block : Bytes) × (string_new_lp crlf_line ≡ ok (string block))
    × (has_cr block ≡ false)
    × (validate_utf8 block ≡ ok tt)
    × (has_cr crlf_line ≡ false → block ≡ crlf_line)
string_new_lp_example = string_new_lp_lem crlf_line (ground arith) crlf_line_valid

abbrev lf_line : Bytes
lf_line = 97 ∷ 10 ∷ 98 ∷ []

-- <&
abbrev markup : Bytes
markup = 60 ∷ 38 ∷ []

escape_for_xml_example :
    (length (escape_for_xml markup) ≡ escaped_size markup)
    × All (λ d. is_inert d ≡ true) (escape_for_xml markup)
    × (read_chars none (escape_for_xml markup) ≡ some markup)
escape_for_xml_example = escape_for_xml_lem markup
