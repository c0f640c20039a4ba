-- ===== src/Utf8/Force.antt =====
-- xmlrpc_force_to_utf8 of xmlrpc-c/lib/libutil/utf8.c: its result is valid, and what is valid stays.
use xml_rpc.Prelude.{
  ℕ, zero, suc, ◌≤◌, ◌<◌, ◌≡◌, refl, ap, ◌↔◌, inl, inr, some, Option-cases, false, List, [], ◌∷◌,
  ◌++◌, arith, Bytes, length, All, take, drop, All-drop, length-drop, length-append,
  take-append-drop, take-length-append, Bool-cases,
}
use xml_rpc.Fault.{ok}
use xml_rpc.Utf8.{seq_length, forced_char, force_del, force_loop, force_to_utf8, validate_utf8}
use xml_rpc.Utf8.Chars.{IsByte, IsUcs2, utf8_bytes, IsUtf8, nil, char, utf8_bytes-cons}
use xml_rpc.Utf8.RoundTrip.{validate_utf8_iff, IsUtf8-IsByte, drop-length-append}

-- What is not replaced is a legal character.
forced_char-IsUcs2 :
    (b : ℕ) (rest : Bytes) {wc : ℕ}
    → IsByte b
    → All IsByte rest
    → forced_char (seq_length b) b rest ≡ some wc
    → force_del (seq_length b) (some wc) ≡ false
    → IsUcs2 wc × (take (seq_length b) (b ∷ rest) ≡ utf8_bytes wc) × (0 < seq_length b)
unfolding force_del forced_char seq_length
forced_char-IsUcs2 b [] h hs e d = ground arith
forced_char-IsUcs2 b (b1 ∷ []) h hs e d = ground arith
forced_char-IsUcs2 b (b1 ∷ b2 ∷ rest) h hs e d = ground arith

kept_char :
    (b : ℕ) (rest : Bytes)
    → IsByte b
    → All IsByte rest
    → force_del (seq_length b) (forced_char (seq_length b) b rest) ≡ false
    → (wc : ℕ) × IsUcs2 wc × (take (seq_length b) (b ∷ rest) ≡ utf8_bytes wc) × (0 < seq_length b)
kept_char b rest h hs d = elim (Option-cases (forced_char (seq_length b) b rest)) [
  | inl e ↦ absurd (unfold force_del in cc (rw e at d))
  | inr (wc, e) ↦
      let (legal, bytes, pos) = forced_char-IsUcs2 b rest h hs e (rw e at d) in
      (wc, legal, bytes, pos)
]

-- A legal character is not replaced.
force_del-utf8_bytes :
    (wc init : ℕ) (tail rest : Bytes)
    → IsUcs2 wc
    → utf8_bytes wc ≡ init ∷ tail
    → (force_del (seq_length init) (forced_char (seq_length init) init (tail ++ rest)) ≡ false)
      × (seq_length init ≡ suc (length tail))
unfolding force_del forced_char seq_length
force_del-utf8_bytes wc init tail rest h e = ground arith

delete : {wcs : List ℕ} {rest : Bytes} → IsUtf8 wcs rest → IsUtf8 (0x7F ∷ wcs) (0x7F ∷ rest)
delete t = char 0x7F (omega arith, inl (omega arith)) t

force_loop-IsUtf8 :
    (fuel : ℕ) (buffer : Bytes)
    → All IsByte buffer
    → length buffer ≤ fuel
    → (wcs : List ℕ) × IsUtf8 wcs (force_loop fuel buffer)
      × (length (force_loop fuel buffer) ≡ length buffer)
unfolding force_loop
force_loop-IsUtf8 fuel [] h f = ([], nil, refl)
force_loop-IsUtf8 zero (b ∷ rest) h f = absurd (omega arith)
force_loop-IsUtf8 (suc fuel) (b ∷ rest) h f =
    let n = seq_length b in
    elim (Bool-cases (force_del n (forced_char n b rest))) [
      | inl del ↦
          let (wcs, t, len) = force_loop-IsUtf8 fuel rest h.1 (omega arith) in
          (0x7F ∷ wcs, rw del (delete t), rw del (omega arith))
      | inr keep ↦
          let (wc, legal, bytes, pos) = kept_char b rest h.0 h.1 keep in
          let shorter : length (drop n (b ∷ rest)) ≤ fuel =
            omega (arith, length-drop n (b ∷ rest)) in
          let (wcs, t, len) =
            force_loop-IsUtf8 fuel (drop n (b ∷ rest)) (All-drop IsByte n (b ∷ rest) h) shorter in
          let joined = length-append (take n (b ∷ rest)) (drop n (b ∷ rest)) in
          let whole = ap length (take-append-drop n (b ∷ rest)) in
          let split = length-append (take n (b ∷ rest)) (force_loop fuel (drop n (b ∷ rest))) in
          (wc ∷ wcs, rw keep (rw bytes (char wc legal t)), rw keep (omega arith))
    ]

force_loop-IsUtf8_id :
    (fuel : ℕ) {wcs : List ℕ} {bytes : Bytes}
    → IsUtf8 wcs bytes
    → length bytes ≤ fuel
    → force_loop fuel bytes ≡ bytes
unfolding force_loop
force_loop-IsUtf8_id fuel nil f = refl
force_loop-IsUtf8_id zero (char {rest} wc legal t) f =
    let (init, tail, e) = utf8_bytes-cons wc in absurd (omega (arith, rw e at f))
force_loop-IsUtf8_id (suc fuel) (char {rest} wc legal t) f =
    let (init, tail, e) = utf8_bytes-cons wc in
    let (keep, n) = force_del-utf8_bytes wc init tail rest legal e in
    let shorter : length rest ≤ fuel = omega (arith, rw e at f, length-append tail rest) in
    rw e (
      rw keep
        (rw n (rw (drop-length-append, take-length-append, force_loop-IsUtf8_id fuel t shorter))))

pub force_to_utf8-IsUtf8 :
    (buffer : Bytes)
    → All IsByte buffer
    → (wcs : List ℕ) × IsUtf8 wcs (force_to_utf8 buffer)
      × (length (force_to_utf8 buffer) ≡ length buffer)
unfolding force_to_utf8
force_to_utf8-IsUtf8 buffer h = force_loop-IsUtf8 (length buffer) buffer h (omega arith)

-- Whatever the bytes of the buffer are, they become valid UTF-8 of the same length.
pub validate_utf8-force_to_utf8 :
    (buffer : Bytes)
    → All IsByte buffer
    → (validate_utf8 (force_to_utf8 buffer) ≡ ok tt)
      × (length (force_to_utf8 buffer) ≡ length buffer)
validate_utf8-force_to_utf8 buffer h =
    let (wcs, t, len) = force_to_utf8-IsUtf8 buffer h in
    ((validate_utf8_iff (force_to_utf8 buffer) (IsUtf8-IsByte t)).1 (wcs, t), len)

-- A buffer is left as it is exactly if it is valid UTF-8 already.
pub force_to_utf8_id_iff :
    (buffer : Bytes)
    → All IsByte buffer
    → (force_to_utf8 buffer ≡ buffer) ↔ (validate_utf8 buffer ≡ ok tt)
force_to_utf8_id_iff buffer h = (
  λ same. rw same at (validate_utf8-force_to_utf8 buffer h).0,
  λ valid.
      unfold force_to_utf8 in
      force_loop-IsUtf8_id (length buffer) ((validate_utf8_iff buffer h).0 valid).1 (omega arith),
)
