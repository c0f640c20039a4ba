-- ===== src/Base64/RoundTrip.antt =====
-- What xmlrpc_base64_encode writes, xmlrpc_base64_decode reads back.
use mathlib.Core.List.{foldl, foldl-append}
use native.Mathlib.Nat.{zero-add}
use xml_rpc.Prelude.{
  ℕ, ◌+◌, ◌-◌, ◌*◌, ◌/◌, ◌%◌, ◌≡◌, refl, sym, ◌∙◌, ap, ap₂, ◌≤◌, Bool, true, false, List, [], ◌∷◌,
  ◌++◌, arith, Bytes, All, length, length-append, take-length-append, append_assoc, append-nil,
}
use xml_rpc.Fault.{ok}
use xml_rpc.Base64.{
  Decoder, initial, decode_char, decode_finish, base64_decode, encode_base64, crlf,
}
use xml_rpc.Base64.Chars.{between, decode_group, decode_group_pad, decode_group_pad_pad}
use xml_rpc.Base64.Rfc.{rfc_base64, lines_text, encode_base64_lines}
use xml_rpc.Utf8.Chars.{IsByte}

-- The zeros that the decoder writes for the padding.
abbrev padding : Bytes → Bytes
padding [] = []
padding (x ∷ []) = 0 ∷ 0 ∷ []
padding (x ∷ y ∷ []) = 0 ∷ []
padding (x ∷ y ∷ z ∷ rest) = padding rest

three_fields :
    {npad npad' : ℕ} {out out' : Bytes}
    → npad ≡ npad'
    → out ≡ out'
    → between npad out ≡ between npad' out'
three_fields p q = ap₂ between p q

three :
    {a b c a' b' c' : ℕ} {rest : Bytes}
    → a ≡ a'
    → b ≡ b'
    → c ≡ c'
    → ◌≡◌ {A = Bytes} (a ∷ b ∷ c ∷ rest) (a' ∷ b' ∷ c' ∷ rest)
three p q r = cc

decode_rfc_base64 :
    (data' : Bytes) (npad : ℕ) (out : Bytes)
    → All IsByte data'
    → foldl decode_char (between npad out) (rfc_base64 data')
      ≡ between (npad + length (padding data')) (out ++ (data' ++ padding data'))
unfolding rfc_base64
decode_rfc_base64 [] npad out h = three_fields (omega arith) (sym (append-nil out))
decode_rfc_base64 (x ∷ []) npad out h =
    decode_group_pad_pad npad out [] (x / 4) (x % 4 * 16) (omega arith) (omega arith)
    ∙ three_fields (omega arith) (ap (λ l. out ++ l) (three (omega arith) (omega arith) refl))
decode_rfc_base64 (x ∷ y ∷ []) npad out h =
    decode_group_pad npad out [] (x / 4) (x % 4 * 16 + y / 16) (y % 16 * 4) (omega arith)
      (omega arith) (omega arith)
    ∙ three_fields (omega arith)
        (ap (λ l. out ++ l) (three (omega arith) (omega arith) (omega arith)))
decode_rfc_base64 (x ∷ y ∷ z ∷ rest) npad out h =
    decode_group npad out (rfc_base64 rest) (x / 4) (x % 4 * 16 + y / 16) (y % 16 * 4 + z / 64)
      (z % 64) (omega arith) (omega arith) (omega arith) (omega arith)
    ∙ ap (λ l. foldl decode_char (between npad (out ++ l)) (rfc_base64 rest))
        (three (omega arith) (omega arith) (omega arith))
    ∙ decode_rfc_base64 rest npad (out ++ x ∷ y ∷ z ∷ []) h.1.1.1
    ∙ three_fields refl (append_assoc out (x ∷ y ∷ z ∷ []) (rest ++ padding rest))

-- An end of line changes nothing.
decode_crlf :
    (s : Decoder) (rest : Bytes) → foldl decode_char s (crlf ++ rest) ≡ foldl decode_char s rest
unfolding decode_char
decode_crlf s rest = refl

decode_lines_text :
    (want_newlines : Bool) (lines : List Bytes) (s : Decoder)
    → foldl decode_char s (lines_text want_newlines lines)
      ≡ foldl decode_char s (lines_text false lines)
decode_lines_text nl [] s = refl
decode_lines_text true (line ∷ lines) s =
    let s' = foldl decode_char s line in
    foldl-append decode_char s line (crlf ++ lines_text true lines)
    ∙ decode_crlf s' (lines_text true lines)
    ∙ decode_lines_text true lines s'
    ∙ sym (foldl-append decode_char s line (lines_text false lines))
decode_lines_text false (line ∷ lines) s = refl

padding-le-two : (data' : Bytes) → length (padding data') ≤ 2
padding-le-two [] = omega arith
padding-le-two (x ∷ []) = omega arith
padding-le-two (x ∷ y ∷ []) = omega arith
padding-le-two (x ∷ y ∷ z ∷ rest) = padding-le-two rest

decode_finish_lem :
    (data' pad : Bytes)
    → length pad ≤ 2
    → decode_finish (between (length pad) (data' ++ pad)) ≡ ok data'
unfolding decode_finish
decode_finish_lem data' pad h =
    let total = length-append data' pad in
    let kept : length (data' ++ pad) - length pad ≡ length data' = omega (arith, total) in
    rw kept (rw take-length-append (ground (arith, total)))

-- Every byte string comes back from its base64, whether or not that is cut into lines.
pub base64_decode-encode_base64 :
    (data' : Bytes) (want_newlines : Bool)
    → All IsByte data'
    → base64_decode (encode_base64 data' want_newlines) ≡ ok data'
unfolding base64_decode
base64_decode-encode_base64 data' nl h =
    let (lines, run, _, text) = encode_base64_lines data' nl h in
    ap (λ t. decode_finish (foldl decode_char initial t)) run
    ∙ ap decode_finish (decode_lines_text nl lines initial)
    ∙ ap (λ t. decode_finish (foldl decode_char initial t)) text
    ∙ ap decode_finish (decode_rfc_base64 data' 0 [] h)
    ∙ ap (λ n. decode_finish (between n (data' ++ padding data'))) (zero-add _)
    ∙ decode_finish_lem data' (padding data') (padding-le-two data')
