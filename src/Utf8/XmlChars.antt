-- ===== src/Utf8/XmlChars.antt =====
-- xmlrpc_force_to_xml_chars of xmlrpc-c/lib/libutil/utf8.c, on valid UTF-8.
use xml_rpc.Prelude.{
  ℕ, zero, suc, ◌+◌, ◌≤◌, ◌≡◌, refl, sym, ◌∙◌, ap₂, Bool, not, ◌||◌, List, [], ◌∷◌, ◌++◌, arith,
  Bytes, length, map, some, length-append, take-length-append, ltb, ◌==◌, if◌then◌else◌,
}
use xml_rpc.Utf8.{seq_length, xml_byte, xml_chars_loop, force_to_xml_chars}
use xml_rpc.Utf8.Chars.{IsUcs2, utf8_bytes, IsUtf8, nil, char, utf8_bytes-cons}
use xml_rpc.Utf8.RoundTrip.{drop-length-append}

-- The characters that XML has: no ASCII control character but CR, LF and tab.
abbrev pub is_xml_char : ℕ → Bool
is_xml_char wc = not (ltb wc 0x20) || wc == b'\r' || wc == b'\n' || wc == b'\t'

-- DEL for a character that is not XML's.
abbrev pub xml_char : ℕ → ℕ
xml_char wc = if is_xml_char wc then wc else 0x7F

-- What is written at the first byte of a character, and where the next one starts.
xml_byte-utf8_bytes :
    (wc init : ℕ) (tail : Bytes)
    → IsUcs2 wc
    → utf8_bytes wc ≡ init ∷ tail
    → (utf8_bytes (xml_char wc) ≡ xml_byte (seq_length init) init ∷ tail)
      × (seq_length init ≡ suc (length tail))
unfolding seq_length xml_byte
xml_byte-utf8_bytes wc init tail h e = ground arith

xml_char-IsUcs2 : (wc : ℕ) → IsUcs2 wc → IsUcs2 (xml_char wc)
xml_char-IsUcs2 wc h = ground arith

length-xml_char : (wc : ℕ) → length (utf8_bytes (xml_char wc)) ≡ length (utf8_bytes wc)
length-xml_char wc = ground arith

xml_chars_loop_step :
    (fuel wc : ℕ) (rest : Bytes) {out : Bytes}
    → IsUcs2 wc
    → xml_chars_loop fuel rest ≡ some out
    → xml_chars_loop (suc fuel) (utf8_bytes wc ++ rest) ≡ some (utf8_bytes (xml_char wc) ++ out)
unfolding xml_chars_loop
xml_chars_loop_step fuel wc rest legal run =
    let (init, tail, e) = utf8_bytes-cons wc in
    let (first, n) = xml_byte-utf8_bytes wc init tail legal e in
    rw (e, first, n) (rw (drop-length-append, take-length-append, run))

xml_chars_loop-IsUtf8 :
    (fuel : ℕ) {wcs : List ℕ} {bytes : Bytes}
    → IsUtf8 wcs bytes
    → length bytes ≤ fuel
    → (out : Bytes) × (xml_chars_loop fuel bytes ≡ some out)
      × IsUtf8 (map xml_char wcs) out
      × (length out ≡ length bytes)
unfolding xml_chars_loop
xml_chars_loop-IsUtf8 fuel nil f = ([], refl, nil, refl)
xml_chars_loop-IsUtf8 zero (char {rest} wc legal t) f =
    let (init, tail, e) = utf8_bytes-cons wc in absurd (omega (arith, rw e at f))
xml_chars_loop-IsUtf8 (suc fuel) (char {rest} wc legal t) f =
    let (init, tail, e) = utf8_bytes-cons wc in
    let shorter : length rest ≤ fuel = omega (arith, rw e at f, length-append tail rest) in
    let (out, run, t', len) = xml_chars_loop-IsUtf8 fuel t shorter in
    (
      utf8_bytes (xml_char wc) ++ out,
      xml_chars_loop_step fuel wc rest legal run,
      char (xml_char wc) (xml_char-IsUcs2 wc legal) t',
      length-append (utf8_bytes (xml_char wc)) out
          ∙ ap₂ (λ m n. m + n) (length-xml_char wc) len
          ∙ sym (length-append (utf8_bytes wc) rest),
    )

-- On the UTF-8 of `wcs` the routine ends. It leaves the UTF-8 of the same text with DEL for each
-- character that XML does not have, in as many bytes.
pub force_to_xml_chars-IsUtf8 :
    {wcs : List ℕ} {bytes : Bytes}
    → IsUtf8 wcs bytes
    → (out : Bytes) × (force_to_xml_chars bytes ≡ some out)
      × IsUtf8 (map xml_char wcs) out
      × (length out ≡ length bytes)
unfolding force_to_xml_chars
force_to_xml_chars-IsUtf8 {bytes} t = xml_chars_loop-IsUtf8 (length bytes) t (omega arith)
