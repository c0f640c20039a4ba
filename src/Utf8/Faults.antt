-- ===== src/Utf8/Faults.antt =====
-- How the decoder of xmlrpc-c/lib/libutil/utf8.c fails.
use xml_rpc.Prelude.{ℕ, zero, suc, ◌≤◌, ◌<◌, ◌≡◌, [], ◌∷◌, arith, Bytes, length, drop, length-drop}
use xml_rpc.Fault.{ok, invalid_utf8_error, FailsWith, FailsWith-bind}
use xml_rpc.Utf8.{
  decode_char, decode_multibyte, multibyte_char, validate_utf16, validate_continuation, seq_length,
  decode_loop, utf8_to_wcs, validate_utf8,
}

decode_char-FailsWith :
    (init : ℕ) (rest : Bytes) → FailsWith invalid_utf8_error (decode_char init rest)
unfolding decode_char decode_multibyte multibyte_char validate_utf16 validate_continuation
    seq_length
decode_char-FailsWith init rest = ground arith

decode_char-progress :
    (init : ℕ) (rest : Bytes) (p : ℕ × ℕ) → decode_char init rest ≡ ok p → 0 < p.1
unfolding decode_char seq_length
decode_char-progress init rest p e = ground arith

decode_loop-FailsWith :
    (fuel : ℕ) (bytes : Bytes)
    → length bytes ≤ fuel
    → FailsWith invalid_utf8_error (decode_loop fuel bytes)
unfolding decode_loop
decode_loop-FailsWith fuel [] h = tt
decode_loop-FailsWith zero (init ∷ rest) h = absurd (omega arith)
decode_loop-FailsWith (suc fuel) (init ∷ rest) h =
    FailsWith-bind invalid_utf8_error (decode_char init rest) _ (decode_char-FailsWith init rest)
      (λ p e.
        let progress = decode_char-progress init rest p e in
        let shorter : length (drop p.1 (init ∷ rest)) ≤ fuel =
          omega (arith, length-drop p.1 (init ∷ rest)) in
        FailsWith-bind invalid_utf8_error (decode_loop fuel (drop p.1 (init ∷ rest))) _
          (decode_loop-FailsWith fuel (drop p.1 (init ∷ rest)) shorter) (λ wcs e'. tt))

-- The decoder always comes to its end: there is no internal error and it never runs out of the
-- rounds it is given. If it fails, it is with XMLRPC_INVALID_UTF8_ERROR.
pub utf8_to_wcs-FailsWith : (bytes : Bytes) → FailsWith invalid_utf8_error (utf8_to_wcs bytes)
unfolding utf8_to_wcs
utf8_to_wcs-FailsWith bytes = decode_loop-FailsWith (length bytes) bytes (omega arith)

pub validate_utf8-FailsWith : (bytes : Bytes) → FailsWith invalid_utf8_error (validate_utf8 bytes)
unfolding validate_utf8
validate_utf8-FailsWith bytes = ground arith
