-- ===== src/Utf8/RoundTrip.antt =====
-- The decoder and the encoder of xmlrpc-c/lib/libutil/utf8.c are inverse to each other.
use xml_rpc.Prelude.{
  ℕ, zero, suc, ◌*◌, ◌≤◌, ◌≡◌, refl, sym, inl, inr, subst₂, subst, All-append, ◌∙◌, List, [], ◌∷◌,
  ◌++◌, arith, Bytes, length, All, drop, All-drop, length-append, ◌↔◌,
}
use xml_rpc.Fault.{Result, ok, ◌>>=◌, >>=-eq-ok, Result-cases}
use xml_rpc.Utf8.{
  decode_char, decode_loop, utf8_to_wcs, wcs_to_utf8, validate_utf8, max_encoded_bytes,
}
use xml_rpc.Utf8.Chars.{
  IsByte, IsUcs2, utf8_bytes, IsUtf8, nil, char, encode_char_lem, decode_char-utf8_bytes,
  utf8_bytes-cons, decode_char-eq-ok,
}

pub drop-length-append : (xs ys : Bytes) → drop (length xs) (xs ++ ys) ≡ ys
drop-length-append [] ys = refl
drop-length-append (x ∷ xs) ys = drop-length-append xs ys

-- One round of the loop reads one character.
decode_loop_step :
    (fuel wc : ℕ) (rest : Bytes)
    → IsUcs2 wc
    → decode_loop (suc fuel) (utf8_bytes wc ++ rest)
      ≡ (do wcs ← decode_loop fuel rest; ok (wc ∷ wcs))
unfolding decode_loop
decode_loop_step fuel wc rest h =
    let (init, tail, e) = utf8_bytes-cons wc in
    rw e (rw (decode_char-utf8_bytes wc init tail rest h e) (rw drop-length-append))

decode_loop-IsUtf8 :
    (fuel : ℕ) {wcs : List ℕ} {bytes : Bytes}
    → length bytes ≤ fuel
    → IsUtf8 wcs bytes
    → decode_loop fuel bytes ≡ ok wcs
unfolding decode_loop
decode_loop-IsUtf8 fuel h nil = refl
decode_loop-IsUtf8 zero h (char {rest} wc legal t) =
    let (init, tail, e) = utf8_bytes-cons wc in absurd (omega (arith, rw e at h))
decode_loop-IsUtf8 (suc fuel) h (char {rest} wc legal t) =
    let (init, tail, e) = utf8_bytes-cons wc in
    let fits : length rest ≤ fuel = omega (arith, rw e at h, length-append tail rest) in
    decode_loop_step fuel wc rest legal ∙ rw (decode_loop-IsUtf8 fuel fits t)

IsUtf8-decode_loop :
    (fuel : ℕ) (bytes : Bytes) {wcs : List ℕ}
    → All IsByte bytes
    → decode_loop fuel bytes ≡ ok wcs
    → IsUtf8 wcs bytes
unfolding decode_loop
IsUtf8-decode_loop fuel [] {wcs} b e = let p : [] ≡ wcs = cc in subst (λ w. IsUtf8 w []) p nil
IsUtf8-decode_loop zero (init ∷ rest) b e = cc
IsUtf8-decode_loop (suc fuel) (init ∷ rest) {wcs} b e =
    let ((wc, n), first, e') = >>=-eq-ok (decode_char init rest) _ e in
    let (later, more, last) = >>=-eq-ok (decode_loop fuel (drop n (init ∷ rest))) _ e' in
    let (legal, split, _) = decode_char-eq-ok init rest b.0 b.1 first in
    let t =
      IsUtf8-decode_loop fuel (drop n (init ∷ rest)) (All-drop IsByte n (init ∷ rest) b) more in
    let p : wc ∷ later ≡ wcs = cc in subst₂ IsUtf8 p (sym split) (char wc legal t)

-- decodeUtf8 accepts exactly the UTF-8 of UCS-2 texts, and returns the text.
pub utf8_to_wcs_iff :
    (bytes : Bytes) (wcs : List ℕ)
    → All IsByte bytes
    → (utf8_to_wcs bytes ≡ ok wcs) ↔ IsUtf8 wcs bytes
unfolding utf8_to_wcs
utf8_to_wcs_iff bytes wcs b =
    (IsUtf8-decode_loop (length bytes) bytes b, decode_loop-IsUtf8 (length bytes) (omega arith))

wcs_to_utf8-IsUtf8 : {wcs : List ℕ} {bytes : Bytes} → IsUtf8 wcs bytes → wcs_to_utf8 wcs ≡ ok bytes
unfolding wcs_to_utf8
wcs_to_utf8-IsUtf8 nil = refl
wcs_to_utf8-IsUtf8 (char wc legal t) = rw (encode_char_lem wc legal) (rw (wcs_to_utf8-IsUtf8 t))

IsUtf8-exists : (wcs : List ℕ) → All IsUcs2 wcs → (bytes : Bytes) × IsUtf8 wcs bytes
IsUtf8-exists [] h = ([], nil)
IsUtf8-exists (wc ∷ wcs) h =
    let (rest, t) = IsUtf8-exists wcs h.1 in (utf8_bytes wc ++ rest, char wc h.0 t)

utf8_bytes-All : (wc : ℕ) → IsUcs2 wc → All IsByte (utf8_bytes wc)
utf8_bytes-All wc h = ground arith

pub IsUtf8-IsByte : {wcs : List ℕ} {bytes : Bytes} → IsUtf8 wcs bytes → All IsByte bytes
IsUtf8-IsByte nil = tt
IsUtf8-IsByte (char {rest} wc legal t) =
    All-append IsByte (utf8_bytes wc) rest (utf8_bytes-All wc legal) (IsUtf8-IsByte t)

utf8_bytes-length : (wc : ℕ) → length (utf8_bytes wc) ≤ 3
utf8_bytes-length wc = ground arith

length-IsUtf8 :
    {wcs : List ℕ} {bytes : Bytes}
    → IsUtf8 wcs bytes
    → length bytes ≤ length wcs * max_encoded_bytes
length-IsUtf8 nil = omega arith
length-IsUtf8 (char {rest} wc legal t) =
    omega (arith, length-IsUtf8 t, length-append (utf8_bytes wc) rest, utf8_bytes-length wc)

-- Every text of legal UCS-2 characters is encoded, in the space that xmlrpc_wcs_to_utf8 allocates,
-- and decodes to itself.
pub utf8_to_wcs-wcs_to_utf8 :
    (wcs : List ℕ)
    → All IsUcs2 wcs
    → (bytes : Bytes) × (wcs_to_utf8 wcs ≡ ok bytes)
      × (length bytes ≤ length wcs * max_encoded_bytes)
      × (utf8_to_wcs bytes ≡ ok wcs)
utf8_to_wcs-wcs_to_utf8 wcs h =
    let (bytes, t) = IsUtf8-exists wcs h in
    (
      bytes,
      wcs_to_utf8-IsUtf8 t,
      length-IsUtf8 t,
      (utf8_to_wcs_iff bytes wcs (IsUtf8-IsByte t)).1 t,
    )

ok_unique : {A : Type 0} {r : Result A} {x y : A} → r ≡ ok x → r ≡ ok y → x ≡ y
ok_unique h k = cc

-- A text of legal UCS-2 characters that is encoded as bytes is what the bytes decode to.
decoded_unique :
    (bytes : Bytes) (wcs other : List ℕ)
    → All IsUcs2 other
    → wcs_to_utf8 other ≡ ok bytes
    → utf8_to_wcs bytes ≡ ok wcs
    → other ≡ wcs
decoded_unique bytes wcs other legal h e =
    let (bytes', run, fits, back) = utf8_to_wcs-wcs_to_utf8 other legal in
    ok_unique (subst (λ b. utf8_to_wcs b ≡ ok other) (ok_unique run h) back) e

-- Bytes that decode at all are the encoding of the text that they decode to, and of no other text of
-- legal UCS-2 characters.
pub wcs_to_utf8-utf8_to_wcs :
    (bytes : Bytes) (wcs : List ℕ)
    → All IsByte bytes
    → utf8_to_wcs bytes ≡ ok wcs
    → (wcs_to_utf8 wcs ≡ ok bytes)
      × ((other : List ℕ) → All IsUcs2 other → wcs_to_utf8 other ≡ ok bytes → other ≡ wcs)
wcs_to_utf8-utf8_to_wcs bytes wcs b e = (
  wcs_to_utf8-IsUtf8 ((utf8_to_wcs_iff bytes wcs b).0 e),
  λ other legal h. decoded_unique bytes wcs other legal h e,
)

-- xmlrpc_validate_utf8 succeeds exactly on the UTF-8 of UCS-2 texts.
pub validate_utf8_iff :
    (bytes : Bytes)
    → All IsByte bytes
    → (validate_utf8 bytes ≡ ok tt) ↔ ((wcs : List ℕ) × IsUtf8 wcs bytes)
unfolding validate_utf8
validate_utf8_iff bytes b = elim (Result-cases (utf8_to_wcs bytes)) [
  | inl (wcs, e) ↦ (λ _. (wcs, (utf8_to_wcs_iff bytes wcs b).0 e), λ _. rw (e, validate_utf8))
  | inr (f, e) ↦
      (λ h. cc (rw (e, validate_utf8) at h), λ (wcs, t). cc ((utf8_to_wcs_iff bytes wcs b).1 t))
]
