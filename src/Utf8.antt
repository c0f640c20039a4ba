-- ===== src/Utf8.antt =====
-- xmlrpc-c/lib/libutil/utf8.c: the strict UTF-8 decoder and encoder, and the routines that force a buffer
-- to be valid. A byte is a number below 256; a wide character is a number. The masks and shifts of
-- the source are written as `%`, `/`, `*` and `+`, which agree with them on such numbers.
pub mod Chars
pub mod RoundTrip
pub mod Force
pub mod XmlChars
pub mod Faults
use mathlib.Core.Option
use xml_rpc.Prelude.{
  Option, none, some, ℕ, zero, suc, ◌+◌, ◌*◌, ◌/◌, ◌%◌, Bool, true, false, not, ◌&&◌, ◌||◌, List,
  [], ◌∷◌, ◌++◌, ltb, leb, ◌==◌, if◌then◌else◌, Bytes, length, get_or, take, drop,
}
use xml_rpc.Fault.{Result, ok, err, invalid_utf8_error, fault, faultf, ◌>>=◌, ◌>>◌}

-- utf8SeqLength[b], row by row
unfoldable pub seq_length : ℕ → ℕ
seq_length b =
    if ltb b 0x80
    then 1
    else if ltb b 0xC0
    then 0
    else if ltb b 0xE0
    then 2
    else if ltb b 0xF0
    then 3
    else if ltb b 0xF8
    then 4
    else if ltb b 0xFC
    then 5
    else if ltb b 0xFE
    then 6
    else 0

-- utf8_min_char_for_length
unfoldable pub min_char_for_length : ℕ → ℕ
min_char_for_length n = get_or (0 ∷ 0 ∷ 0x80 ∷ 0x800 ∷ 0x10000 ∷ 0x200000 ∷ 0x4000000 ∷ []) n 0

abbrev pub ucs2_max_legal_character : ℕ
ucs2_max_legal_character = 0xFFFD

abbrev pub utf16_first_surrogate : ℕ
utf16_first_surrogate = 0xD800

abbrev pub utf16_last_surrogate : ℕ
utf16_last_surrogate = 0xDFFF

abbrev pub max_encoded_bytes : ℕ
max_encoded_bytes = 3

-- IS_CONTINUATION: `(c & 0xC0) == 0x80`
unfoldable pub is_continuation : ℕ → Bool
is_continuation c = c / 64 % 4 == 2

unfoldable pub validate_continuation : ℕ → Result (Unit {0})
unfolding is_continuation
validate_continuation c =
    if not (is_continuation c)
    then fault invalid_utf8_error
        "UTF-8 multibyte sequence contains character 0x%02x, which does not indicate continuation."
    else ok tt

unfoldable pub validate_utf16 : ℕ → Result (Unit {0})
validate_utf16 wc =
    if ltb ucs2_max_legal_character wc
    then fault invalid_utf8_error
        "Xmlrpc-c is not capable of handling UTF16 character encodings longer than 16 bits"
    else if leb utf16_first_surrogate wc && leb wc utf16_last_surrogate
    then fault invalid_utf8_error "UTF-16 surrogates may not appear in UTF-8 data."
    else ok tt

-- The character of a sequence of two or of three bytes.
abbrev pub char_of_two : ℕ → ℕ → ℕ
char_of_two b0 b1 = b0 % 32 * 64 + b1 % 64

abbrev pub char_of_three : ℕ → ℕ → ℕ → ℕ
char_of_three b0 b1 b2 = b0 % 16 * 4096 + b1 % 64 * 64 + b2 % 64

-- The switch on the length, up to the checks of the character.
unfoldable pub multibyte_char : ℕ → Bytes → Result ℕ
unfolding validate_continuation
multibyte_char n seq =
    if n == 2
    then (do
      validate_continuation (get_or seq 1 0)
      ok (char_of_two (get_or seq 0 0) (get_or seq 1 0)))
    else if n == 3
    then (do
      validate_continuation (get_or seq 1 0)
      validate_continuation (get_or seq 2 0)
      ok (char_of_three (get_or seq 0 0) (get_or seq 1 0) (get_or seq 2 0)))
    else if n == 4 || n == 5 || n == 6
    then fault invalid_utf8_error
        "UTF-8 string contains a character not in the Basic Multilingual Plane (first byte 0x%02x)"
    else faultf "Internal error: Impossible UTF-8 sequence length %u"

unfoldable pub decode_multibyte : Bytes → ℕ → Result ℕ
unfolding multibyte_char validate_utf16 min_char_for_length
decode_multibyte seq n = do
  wc ← multibyte_char n seq
  validate_utf16 wc
  if ltb wc (min_char_for_length n)
      then fault invalid_utf8_error "Overlong UTF-8 sequence not allowed"
      else ok wc

-- The first character of the rest of the string, and the number of bytes that it takes.
unfoldable pub decode_char : ℕ → Bytes → Result (ℕ × ℕ)
unfolding seq_length decode_multibyte
decode_char init rest =
    if ltb init 0x80
    then ok (init, 1)
    else let n = seq_length init in
      if n == 0
      then fault invalid_utf8_error "Unrecognized UTF-8 initial byte value 0x%02x"
      else if ltb (suc (length rest)) n
      then fault invalid_utf8_error
          "Invalid UTF-8 sequence indicates a %u-byte sequence when only %u bytes are left"
      else (do wc ← decode_multibyte (init ∷ rest) n; ok (wc, n))

-- The loop of decodeUtf8 on what the cursor has not reached.
unfoldable pub decode_loop : ℕ → Bytes → Result (List ℕ)
decode_loop fuel [] = ok []
decode_loop zero (init ∷ rest) = faultf "out of fuel"
decode_loop (suc fuel) (init ∷ rest) = do
  (wc, n) ← decode_char init rest
  wcs ← decode_loop fuel (drop n (init ∷ rest))
  ok (wc ∷ wcs)

-- decodeUtf8, and xmlrpc_utf8_to_wcs. Every round takes a byte at least.
unfoldable pub utf8_to_wcs : Bytes → Result (List ℕ)
utf8_to_wcs utf8 = decode_loop (length utf8) utf8

-- xmlrpc_validate_utf8
unfoldable pub validate_utf8 : Bytes → Result (Unit {0})
validate_utf8 utf8 = elim (utf8_to_wcs utf8) [
  | ok wcs ↦ ok tt
  | err e ↦ fault invalid_utf8_error "%d-byte supposed UTF-8 string is not valid UTF-8.  %s"
]

-- The body of the loop of xmlrpc_wcs_to_utf8.
unfoldable pub encode_char : ℕ → Result Bytes
encode_char wc =
    if leb wc 0x7F
    then ok (wc % 128 ∷ [])
    else if leb wc 0x7FF
    then ok ((0xC0 + wc / 64) ∷ (0x80 + wc % 64) ∷ [])
    else if leb wc 0xFFFF
    then ok ((0xE0 + wc / 4096) ∷ (0x80 + wc / 64 % 64) ∷ (0x80 + wc % 64) ∷ [])
    else faultf "Don't know how to encode UCS-4 characters yet"

-- xmlrpc_wcs_to_utf8
unfoldable pub wcs_to_utf8 : List ℕ → Result Bytes
wcs_to_utf8 [] = ok []
wcs_to_utf8 (wc ∷ wcs) = do bytes ← encode_char wc; rest ← wcs_to_utf8 wcs; ok (bytes ++ rest)

-- The switch of xmlrpc_force_to_utf8: what is decoded at `p`, or nothing where the source sets
-- `forceDel`. A byte past the end of the list is the NUL that ends the buffer. The tests written
-- `!(*p+2)` and `!(*p+3)` are true of the bytes 0xFE and 0xFD.
unfoldable pub forced_char : ℕ → ℕ → Bytes → Option ℕ
unfolding is_continuation
forced_char n b rest =
    if n == 1
    then some b
    else if n == 2
    then if get_or rest 0 0 == 0 || b == 0xFE
      then none
      else if not (is_continuation (get_or rest 0 0))
      then none
      else some (char_of_two b (get_or rest 0 0))
    else if n == 3
    then if get_or rest 0 0 == 0 || b == 0xFE || b == 0xFD
      then none
      else if not (is_continuation (get_or rest 0 0)) || not (is_continuation (get_or rest 1 0))
      then none
      else some (char_of_three b (get_or rest 0 0) (get_or rest 1 0))
    else none

-- `forceDel` after the checks of the decoded character.
unfoldable pub force_del : ℕ → Option ℕ → Bool
unfolding min_char_for_length
force_del n none = true
force_del n (some decoded) =
    ltb ucs2_max_legal_character decoded
    || (leb utf16_first_surrogate decoded && leb decoded utf16_last_surrogate)
    || ltb decoded (min_char_for_length n)

-- The loop of xmlrpc_force_to_utf8: the buffer from `p` up to its NUL.
unfoldable pub force_loop : ℕ → Bytes → Bytes
force_loop fuel [] = []
force_loop zero (b ∷ rest) = b ∷ rest
force_loop (suc fuel) (b ∷ rest) =
    let n = seq_length b in
    let replaced = 0x7F ∷ force_loop fuel rest in
    let kept = take n (b ∷ rest) ++ force_loop fuel (drop n (b ∷ rest)) in
    if force_del n (forced_char n b rest) then replaced else kept

unfoldable pub force_to_utf8 : Bytes → Bytes
force_to_utf8 buffer = force_loop (length buffer) buffer

-- What the loop of xmlrpc_force_to_xml_chars writes at `p`. A `char` is signed, so a byte from 0x80
-- up is below 0x20 too; its sequence length is never 1.
unfoldable pub xml_byte : ℕ → ℕ → ℕ
xml_byte n b =
    if n == 1
    then if (ltb b 0x20 || leb 0x80 b) && not (b == b'\r') && not (b == b'\n') && not (b == b'\t')
      then 0x7F
      else b
    else b

-- The loop of xmlrpc_force_to_xml_chars. Where the sequence length is 0 the source does not
-- advance, so it does not end: its input is to be valid UTF-8.
unfoldable pub xml_chars_loop : ℕ → Bytes → Option Bytes
xml_chars_loop fuel [] = some []
xml_chars_loop zero (b ∷ rest) = none
xml_chars_loop (suc fuel) (b ∷ rest) =
    let n = seq_length b in
    let b' = xml_byte n b in
    let later = xml_chars_loop fuel (drop n (b' ∷ rest)) in
    Option.map (λ out. take n (b' ∷ rest) ++ out) later

unfoldable pub force_to_xml_chars : Bytes → Option Bytes
force_to_xml_chars buffer = xml_chars_loop (length buffer) buffer
