-- ===== src/Env.antt =====
-- xmlrpc_env_set_fault of xmlrpc-c/lib/libutil/error.c: what becomes of the text that a caller, such as a
-- method of the server, gives for a fault.
use mathlib.Core.Option
use xml_rpc.Prelude.{
  ℕ, ◌≡◌, refl, ap, true, List, [], ◌∷◌, map, Bytes, length, All, some, Option, ℤ, ◌∙◌, arith,
}
use xml_rpc.Fault.{Fault}
use xml_rpc.Utf8.{force_to_utf8, force_to_xml_chars}
use xml_rpc.Utf8.Chars.{IsByte, IsUtf8}
use xml_rpc.Utf8.Force.{force_to_utf8-IsUtf8}
use xml_rpc.Utf8.XmlChars.{is_xml_char, xml_char, force_to_xml_chars-IsUtf8}

unfoldable pub env_set_fault : ℤ → Bytes → Option Fault
env_set_fault code description =
    Option.map (λ buffer. record { code = code; text = buffer })
      (force_to_xml_chars (force_to_utf8 description))

xml_char-is_xml_char : (wcs : List ℕ) → All (λ wc. is_xml_char wc ≡ true) (map xml_char wcs)
xml_char-is_xml_char [] = tt
xml_char-is_xml_char (wc ∷ wcs) = (ground arith, xml_char-is_xml_char wcs)

-- A fault is set for every description, be it text or garbage: it has the given code, and its text
-- is the UTF-8 of characters that XML has, as long as the description.
pub env_set_fault_lem :
    (code : ℤ) (description : Bytes)
    → All IsByte description
    → (f : Fault) × (env_set_fault code description ≡ some f)
      × (f.code ≡ code)
      × (length f.text ≡ length description)
      × ((wcs : List ℕ) × IsUtf8 wcs f.text × All (λ wc. is_xml_char wc ≡ true) wcs)
unfolding env_set_fault
env_set_fault_lem code description h =
    let (wcs, t, len) = force_to_utf8-IsUtf8 description h in
    let (out, run, t', len') = force_to_xml_chars-IsUtf8 t in
    (
      record { code = code; text = out },
      ap (Option.map (λ buffer. record { code = code; text = buffer })) run,
      refl,
      len' ∙ len,
      (map xml_char wcs, t', xml_char-is_xml_char wcs),
    )
