-- ===== src/Tests/Json.antt =====
-- JSON texts, read and written.
use xml_rpc.Prelude.{ℕ, ◌≡◌, refl, inl, [], ◌∷◌, Bytes, codes}
use xml_rpc.Fault.{Result, ok, faultf}
use xml_rpc.Value.{string}
use xml_rpc.Json.Parse.{parse_json}
use xml_rpc.Json.Print.{serialize_json}
use xml_rpc.Json.RoundTrip.{parse_json-serialize_json}
use xml_rpc.Json.Writing.{IsWritable}
use xml_rpc.Json.Strings.{unescape_string}

abbrev no_float : Bytes → ℕ
no_float s = 0

abbrev no_text : ℕ → Bytes
no_text d = codes "0"

-- The program is aborted, as a C library does that looks for such errors.
abbrev abort : Bytes → Result Bytes
abort buffer = faultf "buffer overflow detected"

-- A digit stands behind the four.
abbrev digit_behind : Bytes → Bytes
digit_behind rest = b'7' ∷ []

-- A quotation mark, a newline, a backslash, and a character that is no ASCII.
abbrev odd_string : Bytes
odd_string = 34 ∷ 10 ∷ 92 ∷ 195 ∷ 169 ∷ []

odd_string-IsWritable : IsWritable abort digit_behind odd_string
odd_string-IsWritable = inl (refl, (refl, (refl, (refl, (refl, tt)))))

odd_string_example :
    (document : Bytes) × (serialize_json abort no_text (string odd_string) ≡ ok document)
    × (parse_json digit_behind no_float document ≡ ok (string odd_string))
odd_string_example =
    parse_json-serialize_json abort digit_behind no_float no_text odd_string odd_string-IsWritable

-- A NUL, with a digit behind its four, is read as another character.
nul_misread : unescape_string digit_behind (codes "\\u0000") ≡ ok (7 ∷ [])
unfolding unescape_string
nul_misread = refl
