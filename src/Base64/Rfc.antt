-- ===== src/Base64/Rfc.antt =====
-- The base64 of RFC 2045, three bytes at a time, and the encoder of xmlrpc-c/lib/libutil/base64.c against it.
use xml_rpc.Prelude.{
  ℕ, zero, suc, ◌+◌, ◌*◌, ◌/◌, ◌%◌, ◌^◌, ◌≤◌, ◌≡◌, refl, sym, ap, ◌∙◌, ap₂, inl, inr, Bool, true,
  false, Bool-cases, leb, if◌then◌else◌, List, [], ◌∷◌, ◌++◌, arith, Bytes, length, All, take, drop,
  All-take, All-drop, length-drop, length-take, take-append-drop, append-nil,
}
use xml_rpc.Base64.{crlf, emit, pad, encode_line, encode_lines, encode_base64}
use xml_rpc.Base64.Alphabet.{rfc_char, b2a-rfc_char}
use xml_rpc.Utf8.Chars.{IsByte}

-- Four characters for three bytes, with `=` for what is missing of the last three.
unfoldable pub rfc_base64 : Bytes → Bytes
rfc_base64 [] = []
rfc_base64 (x ∷ []) = rfc_char (x / 4) ∷ rfc_char (x % 4 * 16) ∷ b'=' ∷ b'=' ∷ []
rfc_base64 (x ∷ y ∷ []) =
    rfc_char (x / 4) ∷ rfc_char (x % 4 * 16 + y / 16) ∷ rfc_char (y % 16 * 4) ∷ b'=' ∷ []
rfc_base64 (x ∷ y ∷ z ∷ rest) =
    rfc_char (x / 4)
    ∷ rfc_char (x % 4 * 16 + y / 16)
    ∷ rfc_char (y % 16 * 4 + z / 64)
    ∷ rfc_char (z % 64)
    ∷ rfc_base64 rest

-- The line encoder, whatever bits an earlier group has left above.
encode_line-rfc_base64 :
    (cs : Bytes) (leftchar : ℕ) → All IsByte cs → encode_line cs leftchar 0 ≡ rfc_base64 cs
unfolding encode_line rfc_base64 emit pad
encode_line-rfc_base64 [] leftchar h = refl
encode_line-rfc_base64 (x ∷ []) leftchar h =
    ground (arith, b2a-rfc_char (x / 4), b2a-rfc_char (x % 4 * 16))
encode_line-rfc_base64 (x ∷ y ∷ []) leftchar h =
    ground
      (arith, b2a-rfc_char (x / 4), b2a-rfc_char (x % 4 * 16 + y / 16), b2a-rfc_char (y % 16 * 4))
encode_line-rfc_base64 (x ∷ y ∷ z ∷ rest) leftchar h = ground (
  arith,
  b2a-rfc_char (x / 4),
  b2a-rfc_char (x % 4 * 16 + y / 16),
  b2a-rfc_char (y % 16 * 4 + z / 64),
  b2a-rfc_char (z % 64),
  encode_line-rfc_base64 rest
      (((leftchar * 256 % 2 ^ 32 + x) * 256 % 2 ^ 32 + y) * 256 % 2 ^ 32 + z) h.1.1.1,
)

rfc_base64-append :
    (k : ℕ) (xs ys : Bytes)
    → length xs ≡ 3 * k
    → rfc_base64 (xs ++ ys) ≡ rfc_base64 xs ++ rfc_base64 ys
unfolding rfc_base64
rfc_base64-append k [] ys h = refl
rfc_base64-append k (x ∷ []) ys h = absurd (omega arith)
rfc_base64-append k (x ∷ y ∷ []) ys h = absurd (omega arith)
rfc_base64-append zero (x ∷ y ∷ z ∷ rest) ys h = absurd (omega arith)
rfc_base64-append (suc k) (x ∷ y ∷ z ∷ rest) ys h = rw (rfc_base64-append k rest ys (omega arith))

drop-nil : (n : ℕ) (xs : Bytes) → length xs ≤ n → drop n xs ≡ []
drop-nil zero [] h = refl
drop-nil zero (x ∷ xs) h = absurd (omega arith)
drop-nil (suc n) [] h = refl
drop-nil (suc n) (x ∷ xs) h = drop-nil n xs (omega arith)

-- A line takes 57 bytes, which is 19 times three, or all that is left.
rfc_base64_chunk :
    (data' : Bytes) → rfc_base64 (take 57 data') ++ rfc_base64 (drop 57 data') ≡ rfc_base64 data'
rfc_base64_chunk data' = elim (Bool-cases (leb 57 (length data'))) [
  | inl long ↦
      let full : length (take 57 data') ≡ 3 * 19 = ground (arith, length-take 57 data') in
      sym (rfc_base64-append 19 (take 57 data') (drop 57 data') full)
      ∙ ap rfc_base64 (take-append-drop 57 data')
  | inr short ↦
      let none_left : drop 57 data' ≡ [] = drop-nil 57 data' (ground arith) in
      let all_taken = take-append-drop 57 data' in
      ap (λ later. rfc_base64 (take 57 data') ++ rfc_base64 later) none_left
      ∙ unfold rfc_base64 in
        (append-nil (rfc_base64 (take 57 data')))
        ∙ ap rfc_base64 (sym (append-nil (take 57 data')))
        ∙ ap (λ later. rfc_base64 (take 57 data' ++ later)) (sym none_left)
        ∙ ap rfc_base64 all_taken
]

length-rfc_base64 :
    (k : ℕ) (data' : Bytes) → length data' ≤ 3 * k → length (rfc_base64 data') ≤ 4 * k
unfolding rfc_base64
length-rfc_base64 k [] h = omega arith
length-rfc_base64 zero (x ∷ rest) h = absurd (omega arith)
length-rfc_base64 (suc k) (x ∷ []) h = omega arith
length-rfc_base64 (suc k) (x ∷ y ∷ []) h = omega arith
length-rfc_base64 (suc k) (x ∷ y ∷ z ∷ rest) h =
    omega (arith, length-rfc_base64 k rest (omega arith))

-- Lines, each with an end of line behind it, and the lines alone.
abbrev pub lines_text : Bool → List Bytes → Bytes
lines_text want_newlines [] = []
lines_text want_newlines (line ∷ lines) =
    line ++ ((if want_newlines then crlf else []) ++ lines_text want_newlines lines)

encode_lines_lem :
    (fuel : ℕ) (want_newlines : Bool) (data' : Bytes)
    → length data' ≤ fuel
    → All IsByte data'
    → (lines : List Bytes) × (encode_lines fuel want_newlines data'
        ≡ lines_text want_newlines lines)
      × All (λ line. length line ≤ 76) lines
      × (lines_text false lines ≡ rfc_base64 data')
unfolding encode_lines
encode_lines_lem fuel nl [] f h = ([], refl, tt, unfold rfc_base64 in refl)
encode_lines_lem zero nl (c ∷ cs) f h = absurd (omega arith)
encode_lines_lem (suc fuel) nl (c ∷ cs) f h =
    let chunk = take 57 (c ∷ cs) in
    let shorter : length (drop 57 (c ∷ cs)) ≤ fuel = omega (arith, length-drop 57 (c ∷ cs)) in
    let (lines, run, fit, text) =
      encode_lines_lem fuel nl (drop 57 (c ∷ cs)) shorter (All-drop IsByte 57 (c ∷ cs) h) in
    let line = encode_line-rfc_base64 chunk 0 (All-take IsByte 57 (c ∷ cs) h) in
    let chunk_fits : length chunk ≤ 3 * 19 = omega (arith, length-take 57 (c ∷ cs)) in
    (
      rfc_base64 chunk ∷ lines,
      ap₂ (λ first later. first ++ ((if nl then crlf else []) ++ later)) line run,
      (length-rfc_base64 19 chunk chunk_fits, fit),
      ap (λ later. rfc_base64 chunk ++ later) text ∙ rfc_base64_chunk (c ∷ cs),
    )

-- The encoder writes lines of at most 76 characters, each followed by CRLF if newlines are wanted;
-- the lines together are the base64 of RFC 2045.
pub encode_base64_lines :
    (data' : Bytes) (want_newlines : Bool)
    → All IsByte data'
    → (lines : List Bytes) × (encode_base64 data' want_newlines ≡ lines_text want_newlines lines)
      × All (λ line. length line ≤ 76) lines
      × (lines_text false lines ≡ rfc_base64 data')
unfolding encode_base64
encode_base64_lines [] true h = ([] ∷ [], refl, (omega arith, tt), unfold rfc_base64 in refl)
encode_base64_lines [] false h = ([], refl, tt, unfold rfc_base64 in refl)
encode_base64_lines (c ∷ cs) nl h = encode_lines_lem (length (c ∷ cs)) nl (c ∷ cs) (omega arith) h
