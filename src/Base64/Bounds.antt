-- ===== src/Base64/Bounds.antt =====
-- The space that xmlrpc_base64_decode writes to, and how it fails.
use mathlib.Core.List.{foldl}
use xml_rpc.Prelude.{
  ◌%◌, ◌^◌, inl, inr, leb, Bool-cases, ℕ, ◌+◌, ◌-◌, ◌*◌, ◌/◌, ◌≤◌, ◌<◌, ◌≡◌, [], ◌∷◌, arith, Bytes,
  length, length-append,
}
use xml_rpc.Base64.{Decoder, initial, shift_in, decode_char}

-- The bits written and those held.
abbrev bits : Decoder → ℕ
bits s = 8 * length s.bin_data + s.leftbits

shift_in-bits :
    (s : Decoder) (v : ℕ)
    → s.leftbits < 8
    → (bits (shift_in s v) ≡ bits s + 6) × ((shift_in s v).leftbits < 8)
unfolding shift_in
shift_in-bits s v h = elim (Bool-cases (leb 8 (s.leftbits + 6))) [
  | inl ready ↦
      let leftchar = s.leftchar * 64 % 2 ^ 32 + v in
      let byte = leftchar / 2 ^ (s.leftbits + 6 - 8) % 256 in
      rw ready (ground (arith, length-append s.bin_data (byte ∷ [])))
  | inr waiting ↦ rw waiting (ground arith)
]

decode_char-bits :
    (s : Decoder) (c : ℕ)
    → s.leftbits < 8
    → (bits (decode_char s c) ≤ bits s + 6) × ((decode_char s c).leftbits < 8)
unfolding decode_char
decode_char-bits s c h = grind (arith, shift_in-bits)

bits-foldl :
    (ascii : Bytes) (s : Decoder)
    → s.leftbits < 8
    → bits (foldl decode_char s ascii) ≤ bits s + 6 * length ascii
bits-foldl [] s h = omega arith
bits-foldl (c ∷ cs) s h =
    let (more, held) = decode_char-bits s c h in
    omega (arith, more, bits-foldl cs (decode_char s c) held)

-- The decoder never writes past the buffer of `((acsiiLen + 3) / 4) * 3` bytes that it allocates.
pub decode_buffer_bound :
    (ascii : Bytes) → length (foldl decode_char initial ascii).bin_data ≤ (length ascii + 3) / 4 * 3
decode_buffer_bound ascii = omega (arith, bits-foldl ascii initial (omega arith))
