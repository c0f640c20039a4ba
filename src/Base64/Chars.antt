-- ===== src/Base64/Chars.antt =====
-- The decoder of xmlrpc-c/lib/libutil/base64.c on one character, and on a group of four.
use mathlib.Core.List.{foldl}
use xml_rpc.Prelude.{
  ap, ℕ, ◌+◌, ◌*◌, ◌/◌, ◌%◌, ◌<◌, ◌≡◌, append_assoc, is_table, is_table_entry, Bool, true, not,
  ◌&&◌, ◌||◌, ◌==◌, refl, [], ◌∷◌, ◌++◌, arith, Bytes,
}
use xml_rpc.Base64.{a2b, Decoder, shift_in, decode_char}
use xml_rpc.Base64.Alphabet.{rfc_char}

-- Between two groups: no bits are left.
abbrev pub between : ℕ → Bytes → Decoder
between npad out = record { leftbits = 0; leftchar = 0; npad = npad; bin_data = out }

-- `c` is no punctuation, and is read as `v`.
is_digit_of : ℕ → ℕ → Bool
is_digit_of c v =
    not (c % 128 == b'\r' || c % 128 == b'\n' || c % 128 == b' ')
    && not (c % 128 == b'=')
    && not (a2b (c % 128) == 255)
    && a2b (c % 128) == v

-- Every character of the alphabet is one that the decoder reads as its value.
is_digit_of_table : is_table (λ v. is_digit_of (rfc_char v) v) 64 ≡ true
unfolding is_table is_digit_of a2b rfc_char
is_digit_of_table = refl

decode_char_digit :
    (s : Decoder) (c v : ℕ) → is_digit_of c v ≡ true → decode_char s c ≡ shift_in s v
unfolding decode_char is_digit_of
decode_char_digit s c v h = ground arith

decode_char-rfc_char : (s : Decoder) (v : ℕ) → v < 64 → decode_char s (rfc_char v) ≡ shift_in s v
decode_char-rfc_char s v h =
    decode_char_digit s (rfc_char v) v (is_table_entry _ 64 v h is_digit_of_table)

decode_char_pad : (s : Decoder) → decode_char s b'=' ≡ shift_in (record s { npad = s.npad + 1 }) 0
unfolding decode_char
decode_char_pad s = unfold a2b in refl

-- Three bytes written one by one.
three_bytes :
    (npad leftchar x y z : ℕ) (out : Bytes) {x' y' z' : ℕ}
    → leftchar ≡ 0
    → x ≡ x'
    → y ≡ y'
    → z ≡ z'
    → ◌≡◌ {A = Decoder}
        (record {
          leftbits = 0;
          leftchar = leftchar;
          npad = npad;
          bin_data = ((out ++ x ∷ []) ++ y ∷ []) ++ z ∷ [];
        })
        (between npad (out ++ x' ∷ y' ∷ z' ∷ []))
three_bytes npad leftchar x y z out l ex ey ez =
    cc (append_assoc (out ++ x ∷ []) (y ∷ []) (z ∷ []), append_assoc out (x ∷ []) (y ∷ z ∷ []))

module _ (npad : ℕ) (out rest : Bytes) where
  -- A group of four characters without padding.
  pub decode_group :
      (a b c d : ℕ)
      → a < 64
      → b < 64
      → c < 64
      → d < 64
      → foldl decode_char
          (between npad out)
          (rfc_char a ∷ rfc_char b ∷ rfc_char c ∷ rfc_char d ∷ rest)
        ≡ foldl decode_char
            (between npad (out ++ (a * 4 + b / 16) ∷ (b % 16 * 16 + c / 4) ∷ (c % 4 * 64 + d) ∷ []))
            rest
  decode_group a b c d ha hb hc hd = rw (decode_char-rfc_char _ a ha) (
      rw (decode_char-rfc_char _ b hb) (
        rw (decode_char-rfc_char _ c hc) (
          rw (decode_char-rfc_char _ d hd) (
            ap (λ s. foldl decode_char s rest)
              (unfold shift_in in
                three_bytes npad _ _ _ _ out (omega arith) (omega arith) (omega arith)
                  (omega arith))))))

  -- A group with one `=`.
  pub decode_group_pad :
      (a b c : ℕ)
      → a < 64
      → b < 64
      → c < 64
      → foldl decode_char (between npad out) (rfc_char a ∷ rfc_char b ∷ rfc_char c ∷ b'=' ∷ rest)
        ≡ foldl decode_char
            (between
              (npad + 1)
              (out ++ (a * 4 + b / 16) ∷ (b % 16 * 16 + c / 4) ∷ (c % 4 * 64) ∷ []))
            rest
  decode_group_pad a b c ha hb hc = rw (decode_char-rfc_char _ a ha) (
      rw (decode_char-rfc_char _ b hb) (
        rw (decode_char-rfc_char _ c hc) (
          rw decode_char_pad (
            ap (λ s. foldl decode_char s rest)
              (unfold shift_in in
                three_bytes (npad + 1) _ _ _ _ out (omega arith) (omega arith) (omega arith)
                  (omega arith))))))

  -- A group with two `=`.
  pub decode_group_pad_pad :
      (a b : ℕ)
      → a < 64
      → b < 64
      → foldl decode_char (between npad out) (rfc_char a ∷ rfc_char b ∷ b'=' ∷ b'=' ∷ rest)
        ≡ foldl decode_char
            (between (npad + 1 + 1) (out ++ (a * 4 + b / 16) ∷ (b % 16 * 16) ∷ 0 ∷ []))
            rest
  decode_group_pad_pad a b ha hb = rw (decode_char-rfc_char _ a ha) (
      rw (decode_char-rfc_char _ b hb) (
        rw decode_char_pad (
          rw decode_char_pad (
            ap (λ s. foldl decode_char s rest)
              (unfold shift_in in
                three_bytes (npad + 1 + 1) _ _ _ _ out (omega arith) (omega arith) (omega arith)
                  (omega arith))))))
