-- ===== src/Value/Strings/Lines.antt =====
-- The line delimiters of xmlrpc-c/src/xmlrpc_string.c.
use xml_rpc.Prelude.{
  ℕ, ◌≡◌, refl, Bool, true, false, List, [], ◌∷◌, ◌++◌, inl, inr, arith, Bytes, All, Bool-cases,
  ◌==◌, ◌&&◌, subst, ltb,
}
use xml_rpc.Fault.{ok}
use xml_rpc.Utf8.{validate_utf8}
use xml_rpc.Utf8.Chars.{IsByte, IsUcs2, IsUtf8, nil, char, utf8_bytes}
use xml_rpc.Utf8.RoundTrip.{validate_utf8_iff, IsUtf8-IsByte}
use xml_rpc.Value.{string}
use xml_rpc.Value.Strings.{copy_lines, has_cr, string_new_lp}

-- Without a CR there is nothing to convert.
pub copy_lines_id : (bytes : Bytes) → has_cr bytes ≡ false → copy_lines false bytes ≡ bytes
unfolding copy_lines has_cr
copy_lines_id [] h = refl
copy_lines_id (c ∷ rest) h = ground (arith, copy_lines_id rest)

-- No CR is left.
has_cr-copy_lines : (after_cr : Bool) (bytes : Bytes) → has_cr (copy_lines after_cr bytes) ≡ false
unfolding copy_lines has_cr
has_cr-copy_lines after_cr [] = refl
has_cr-copy_lines after_cr (c ∷ rest) =
    ground (arith, has_cr-copy_lines true rest, has_cr-copy_lines false rest)

-- A character above ASCII passes through.
copy_lines_wide :
    (wc : ℕ) (after_cr : Bool) (rest : Bytes)
    → IsUcs2 wc
    → ltb wc 0x80 ≡ false
    → copy_lines after_cr (utf8_bytes wc ++ rest) ≡ utf8_bytes wc ++ copy_lines false rest
unfolding copy_lines
copy_lines_wide wc after_cr rest h w = ground arith

abbrev IsText : Bytes → Type 0
IsText bytes = (wcs : List ℕ) × IsUtf8 wcs bytes

IsText-cons : (wc : ℕ) {rest : Bytes} → ltb wc 0x80 ≡ true → IsText rest → IsText (wc ∷ rest)
IsText-cons wc {rest} ascii (wcs, t) =
    let one : utf8_bytes wc ≡ wc ∷ [] = rw ascii in
    (wc ∷ wcs, subst (λ b. IsUtf8 (wc ∷ wcs) (b ++ rest)) one (char wc (ground arith) t))

copy_lines_ascii :
    (wc : ℕ) (after_cr : Bool) (rest : Bytes)
    → ltb wc 0x80 ≡ true
    → ((b : Bool) → IsText (copy_lines b rest))
    → IsText (copy_lines after_cr (wc ∷ rest))
unfolding copy_lines
copy_lines_ascii wc after_cr rest ascii later = elim (Bool-cases (wc == b'\r')) [
  | inl cr ↦ rw cr (IsText-cons b'\n' refl (later true))
  | inr plain ↦ elim (Bool-cases (after_cr && wc == b'\n')) [
    | inl lf ↦ rw plain (rw lf (later false))
    | inr kept ↦ rw plain (rw kept (IsText-cons wc ascii (later false)))
  ]
]

copy_lines-IsUtf8 :
    {wcs : List ℕ} {bytes : Bytes} (after_cr : Bool)
    → IsUtf8 wcs bytes
    → IsText (copy_lines after_cr bytes)
copy_lines-IsUtf8 after_cr nil = unfold copy_lines in ([], nil)
copy_lines-IsUtf8 after_cr (char {rest} wc legal t) = elim (Bool-cases (ltb wc 0x80)) [
  | inl ascii ↦
      let one : utf8_bytes wc ≡ wc ∷ [] = rw ascii in
      rw one (copy_lines_ascii wc after_cr rest ascii (λ b. copy_lines-IsUtf8 b t))
  | inr wide ↦
      let (out, t') = copy_lines-IsUtf8 false t in
      (wc ∷ out, rw (copy_lines_wide wc after_cr rest legal wide) (char wc legal t'))
]

-- Valid UTF-8 is made into a string value with line delimiters; it holds valid UTF-8 with no CR in
-- it, the bytes themselves if these have no CR.
pub string_new_lp_lem :
    (bytes : Bytes)
    → All IsByte bytes
    → validate_utf8 bytes ≡ ok tt
    → (block : Bytes) × (string_new_lp bytes ≡ ok (string block))
      × (has_cr block ≡ false)
      × (validate_utf8 block ≡ ok tt)
      × (has_cr bytes ≡ false → block ≡ bytes)
unfolding string_new_lp
string_new_lp_lem bytes h valid = elim (Bool-cases (has_cr bytes)) [
  | inl cr ↦
      let (wcs, t) = (validate_utf8_iff bytes h).0 valid in
      let (out, t') = copy_lines-IsUtf8 false t in
      (
        copy_lines false bytes,
        rw valid (rw cr),
        has_cr-copy_lines false bytes,
        (validate_utf8_iff (copy_lines false bytes) (IsUtf8-IsByte t')).1 (out, t'),
        λ none. cc,
      )
  | inr plain ↦ (bytes, rw valid (rw plain), plain, valid, λ _. refl)
]
