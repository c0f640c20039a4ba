-- ===== src/Utf8/Chars.antt =====
-- What UTF-8 is, apart from the code: the bytes of a UCS-2 character, and of a text.
use xml_rpc.Prelude.{
  ℕ, suc, ◌+◌, ◌/◌, ◌%◌, ◌≤◌, ◌<◌, ◌≡◌, ◌⊎◌, inl, inr, List, [], ◌∷◌, ◌++◌, arith, Bytes, length,
  All, drop, ltb, if◌then◌else◌, Bool-cases,
}
use xml_rpc.Fault.{ok}
use xml_rpc.Utf8.{decode_char, encode_char}

abbrev pub IsByte : ℕ → Type 0
IsByte b = b < 256

-- A legal UCS-2 character: at most U+FFFD, and no UTF-16 surrogate.
abbrev pub IsUcs2 : ℕ → Type 0
IsUcs2 wc = (wc ≤ 0xFFFD) × ((wc < 0xD800) ⊎ (0xDFFF < wc))

-- The table of the standard, up to three bytes.
abbrev pub utf8_bytes : ℕ → Bytes
utf8_bytes wc =
    if ltb wc 0x80
    then wc ∷ []
    else if ltb wc 0x800
    then (192 + wc / 64) ∷ (128 + wc % 64) ∷ []
    else (224 + wc / 4096) ∷ (128 + wc / 64 % 64) ∷ (128 + wc % 64) ∷ []

-- `bytes` is the UTF-8 of the characters `wcs`.
pub data IsUtf8 : List ℕ → Bytes → Type 0 where
  nil : IsUtf8 [] []
  char :
      {wcs : List ℕ} {rest : Bytes} (wc : ℕ)
      → IsUcs2 wc
      → IsUtf8 wcs rest
      → IsUtf8 (wc ∷ wcs) (utf8_bytes wc ++ rest)

pub encode_char_lem : (wc : ℕ) → IsUcs2 wc → encode_char wc ≡ ok (utf8_bytes wc)
unfolding encode_char
encode_char_lem wc h = ground arith

pub decode_char-utf8_bytes :
    (wc init : ℕ) (tail rest : Bytes)
    → IsUcs2 wc
    → utf8_bytes wc ≡ init ∷ tail
    → decode_char init (tail ++ rest) ≡ ok (wc, suc (length tail))
unfolding decode_char
decode_char-utf8_bytes wc init tail rest h e = ground arith

pub utf8_bytes-cons : (wc : ℕ) → (init : ℕ) × (tail : Bytes) × (utf8_bytes wc ≡ init ∷ tail)
utf8_bytes-cons wc = elim (Bool-cases (ltb wc 0x80)) [
  | inl e ↦ (wc, [], rw e)
  | inr e ↦ elim (Bool-cases (ltb wc 0x800)) [
    | inl d ↦ (192 + wc / 64, (128 + wc % 64) ∷ [], rw (e, d))
    | inr d ↦ (224 + wc / 4096, (128 + wc / 64 % 64) ∷ (128 + wc % 64) ∷ [], rw (e, d))
  ]
]

-- A character that the decoder takes is a legal one, and its bytes are those of the standard: there
-- is no overlong form, no surrogate and nothing beyond the Basic Multilingual Plane.
pub decode_char-eq-ok :
    (init : ℕ) (rest : Bytes) {wc n : ℕ}
    → IsByte init
    → All IsByte rest
    → decode_char init rest ≡ ok (wc, n)
    → IsUcs2 wc × (init ∷ rest ≡ utf8_bytes wc ++ drop n (init ∷ rest)) × (0 < n)
unfolding decode_char
decode_char-eq-ok init [] b bs e = ground arith
decode_char-eq-ok init (b1 ∷ []) b bs e = ground arith
decode_char-eq-ok init (b1 ∷ b2 ∷ rest) b bs e = ground arith
