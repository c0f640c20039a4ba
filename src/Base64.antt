-- ===== src/Base64.antt =====
-- xmlrpc-c/lib/libutil/base64.c: the encoder, which works a line of 57 bytes at a time, and the decoder. The
-- tables are written by their ranges, the masks and shifts as `%`, `/` and `*`; `unsigned int` has
-- 32 bits. The memory block for the result does not run out.
pub mod Alphabet
pub mod Chars
pub mod Rfc
pub mod Bounds
pub mod RoundTrip
use mathlib.Core.List.{foldl}
use xml_rpc.Prelude.{
  ℕ, zero, suc, ◌+◌, ◌-◌, ◌*◌, ◌/◌, ◌%◌, ◌^◌, Bool, true, false, ◌&&◌, ◌||◌, List, [], ◌∷◌, ◌++◌,
  ltb, leb, ◌==◌, not, if◌then◌else◌, Bytes, length, take, drop,
}
use xml_rpc.Fault.{Result, ok, parse_error, fault}

-- table_b2a_base64
unfoldable pub b2a : ℕ → ℕ
b2a v =
    if ltb v 26
    then b'A' + v
    else if ltb v 52
    then b'a' + (v - 26)
    else if ltb v 62
    then b'0' + (v - 52)
    else if v == 62
    then b'+'
    else b'/'

-- table_a2b_base64, as an `unsigned char`: 255 is its -1.
unfoldable pub a2b : ℕ → ℕ
a2b c =
    if c == b'+'
    then 62
    else if c == b'/'
    then 63
    else if leb b'0' c && leb c b'9'
    then 52 + (c - b'0')
    else if c == b'='
    then 0
    else if leb b'A' c && leb c b'Z'
    then c - b'A'
    else if leb b'a' c && leb c b'z'
    then 26 + (c - b'a')
    else 255

-- `while (leftbits >= 6)`: the characters that are ready, and the bits that are left. Every round
-- takes six bits, so `leftbits` rounds are enough.
unfoldable pub emit : ℕ → ℕ → ℕ → Bytes × ℕ
emit zero leftchar leftbits = ([], leftbits)
emit (suc fuel) leftchar leftbits =
    let this_ch = leftchar / 2 ^ (leftbits - 6) % 64 in
    let later = emit fuel leftchar (leftbits - 6) in
    if leb 6 leftbits then (b2a this_ch ∷ later.0, later.1) else ([], leftbits)

-- What follows the bytes of a line.
unfoldable pub pad : ℕ → ℕ → Bytes
pad leftchar leftbits =
    if leftbits == 2
    then b2a (leftchar % 4 * 16) ∷ b'=' ∷ b'=' ∷ []
    else if leftbits == 4
    then b2a (leftchar % 16 * 4) ∷ b'=' ∷ []
    else []

-- The inner loop, on the bytes of the line that are not read, and the padding.
unfoldable pub encode_line : Bytes → ℕ → ℕ → Bytes
encode_line [] leftchar leftbits = pad leftchar leftbits
encode_line (c ∷ cs) leftchar leftbits =
    let leftchar' = leftchar * 256 % 2 ^ 32 + c in
    let (ready, leftbits') = emit (leftbits + 8) leftchar' (leftbits + 8) in
    ready ++ encode_line cs leftchar' leftbits'

abbrev pub maxbin : ℕ
maxbin = 57

abbrev pub crlf : Bytes
crlf = 13 ∷ 10 ∷ []

-- The outer loop, on the data that is not encoded.
unfoldable pub encode_lines : ℕ → Bool → Bytes → Bytes
encode_lines fuel want_newlines [] = []
encode_lines zero want_newlines (c ∷ cs) = []
encode_lines (suc fuel) want_newlines (c ∷ cs) =
    let chunk = take maxbin (c ∷ cs) in
    encode_line chunk 0 0
    ++ ((if want_newlines then crlf else [])
        ++ encode_lines fuel want_newlines (drop maxbin (c ∷ cs)))

-- base64Encode; a chunk takes a byte at least.
unfoldable pub encode_base64 : Bytes → Bool → Bytes
encode_base64 [] want_newlines = if want_newlines then crlf else []
encode_base64 (c ∷ cs) want_newlines = encode_lines (length (c ∷ cs)) want_newlines (c ∷ cs)

-- xmlrpc_base64_encode
unfoldable pub base64_encode : Bytes → Bytes
base64_encode data' = encode_base64 data' true

-- xmlrpc_base64_encode_without_newlines
unfoldable pub base64_encode_without_newlines : Bytes → Bytes
base64_encode_without_newlines data' = encode_base64 data' false

-- The variables of the loop of xmlrpc_base64_decode; `bin_data` is what has been written.
pub record Decoder : Type 0 where
  pub leftbits : ℕ
  pub leftchar : ℕ
  pub npad : ℕ
  pub bin_data : Bytes

abbrev pub initial : Decoder
initial = record { leftbits = 0; leftchar = 0; npad = 0; bin_data = [] }

-- Shift six bits in, and write a byte if one is ready.
unfoldable pub shift_in : Decoder → ℕ → Decoder
shift_in s this_ch =
    let leftchar = s.leftchar * 64 % 2 ^ 32 + this_ch in
    let leftbits = s.leftbits + 6 in
    if leb 8 leftbits
    then record s {
      leftbits = leftbits - 8;
      leftchar = leftchar % 2 ^ (leftbits - 8);
      bin_data = s.bin_data ++ leftchar / 2 ^ (leftbits - 8) % 256 ∷ [];
    }
    else record s { leftbits = leftbits; leftchar = leftchar }

-- One round of the loop.
unfoldable pub decode_char : Decoder → ℕ → Decoder
decode_char s next_char =
    let this_ch = next_char % 128 in
    if this_ch == b'\r' || this_ch == b'\n' || this_ch == b' '
    then s
    else let s' = if this_ch == b'=' then record s { npad = s.npad + 1 } else s in
      if a2b this_ch == 255 then s' else shift_in s' (a2b this_ch)

-- The checks after the loop.
unfoldable pub decode_finish : Decoder → Result Bytes
decode_finish s =
    let bin_len = length s.bin_data in
    if not (s.leftbits == 0)
    then fault parse_error "Incorrect Base64 padding"
    else if ltb bin_len s.npad || ltb 2 s.npad
    then fault parse_error "Malformed Base64 data"
    else ok (take (bin_len - s.npad) s.bin_data)

-- xmlrpc_base64_decode
unfoldable pub base64_decode : Bytes → Result Bytes
unfolding decode_finish
base64_decode ascii_data = decode_finish (foldl decode_char initial ascii_data)
