-- ===== src/Number/Decimal.antt =====
-- strtol reads what printf writes with %d and %lld.
use native.Mathlib.Omega.{pow_step}
use xml_rpc.Prelude.{
  ℕ, zero, suc, ◌+◌, ◌-◌, ◌*◌, ◌/◌, ◌%◌, ◌^◌, ◌≤◌, ◌<◌, ◌≡◌, refl, ap, Bool, true, false, inl, inr,
  [], ◌∷◌, ◌++◌, arith, ◌∙◌, ◌||◌, length, length-append, c_str, append_assoc, append-nil, sym,
  Bytes, ℤ, pos, negsuc, ltb, ◌==◌, decimal, decimal_z, digits_of, Bool-cases,
}
use xml_rpc.Value.Strings.{has_cr}
use xml_rpc.Number.{
  is_digit, starts_with_digit, read_digits, skip_space, Strtol, strtol, strtol_sign, strtol_digits,
  signed_long,
}

-- One more digit.
read_digits-snoc :
    (acc v d : ℕ) (digits : Bytes)
    → d < 10
    → read_digits acc digits ≡ (v, [])
    → read_digits acc (digits ++ (b'0' + d) ∷ []) ≡ (v * 10 + d, [])
unfolding read_digits
read_digits-snoc acc v d [] h e = ground arith
read_digits-snoc acc v d (c ∷ digits) h e =
    ground (arith, read_digits-snoc (acc * 10 + (c - b'0')) v d digits h)

read_digits_one : (n : ℕ) → ltb n 10 ≡ true → read_digits 0 ((b'0' + n % 10) ∷ []) ≡ (n, [])
unfolding read_digits
read_digits_one n h = ground arith

read_digits-digits_of : (fuel n : ℕ) → n ≤ fuel → read_digits 0 (digits_of (suc fuel) n) ≡ (n, [])
unfolding digits_of
read_digits-digits_of zero n h =
    let small : ltb n 10 ≡ true = ground arith in rw small (read_digits_one n small)
read_digits-digits_of (suc fuel) n h = elim (Bool-cases (ltb n 10)) [
  | inl small ↦ rw small (read_digits_one n small)
  | inr large ↦
      let high : read_digits 0 (digits_of (suc fuel) (n / 10)) ≡ (n / 10, []) =
        read_digits-digits_of fuel (n / 10) (ground arith) in
      let sum : n / 10 * 10 + n % 10 ≡ n = omega arith in
      rw large (
        read_digits-snoc 0 (n / 10) (n % 10) (digits_of (suc fuel) (n / 10)) (omega arith) high
        ∙ ap (λ v. (v, [])) sum)
]

starts_with_digit-digits_of :
    (fuel n : ℕ) (rest : Bytes) → starts_with_digit (digits_of (suc fuel) n ++ rest) ≡ true
unfolding digits_of
starts_with_digit-digits_of zero n rest = ground arith
starts_with_digit-digits_of (suc fuel) n rest = elim (Bool-cases (ltb n 10)) [
  | inl small ↦ rw small (ground arith)
  | inr large ↦ rw large (
      rw (append_assoc (digits_of (suc fuel) (n / 10)) ((b'0' + n % 10) ∷ []) rest)
        (starts_with_digit-digits_of fuel (n / 10) ((b'0' + n % 10) ∷ rest)))
]

skip_space_digit : (c : ℕ) (str : Bytes) → is_digit c ≡ true → skip_space (c ∷ str) ≡ c ∷ str
unfolding skip_space
skip_space_digit c str d = ground arith

strtol_sign_digit :
    (whole : Bytes) (c : ℕ) (str : Bytes)
    → is_digit c ≡ true
    → strtol_sign whole (c ∷ str) ≡ strtol_digits whole false (c ∷ str)
unfolding strtol_sign
strtol_sign_digit whole c str d = ground arith

strtol_digits_lem :
    (whole str : Bytes) (minus : Bool) (n : ℕ)
    → starts_with_digit str ≡ true
    → read_digits 0 str ≡ (n, [])
    → strtol_digits whole minus str ≡ signed_long minus n []
unfolding strtol_digits
strtol_digits_lem whole str minus n s e = rw s (rw e refl)

strtol_pos :
    (str : Bytes) (n : ℕ)
    → starts_with_digit str ≡ true
    → read_digits 0 str ≡ (n, [])
    → strtol str ≡ signed_long false n []
unfolding strtol
strtol_pos [] n s e = cc
strtol_pos (c ∷ str) n s e =
    ap (strtol_sign (c ∷ str)) (skip_space_digit c str s)
    ∙ strtol_sign_digit (c ∷ str) c str s
    ∙ strtol_digits_lem (c ∷ str) (c ∷ str) false n s e

strtol_neg :
    (str : Bytes) (n : ℕ)
    → starts_with_digit str ≡ true
    → read_digits 0 str ≡ (n, [])
    → strtol (b'-' ∷ str) ≡ signed_long true n []
unfolding strtol strtol_sign skip_space
strtol_neg str n s e = strtol_digits_lem (b'-' ∷ str) str true n s e

-- What strtol makes of a number that a long can hold.
abbrev pub exactly : ℤ → Strtol
exactly i = record { value = i; tail = []; is_erange = false }

abbrev pub IsLong : ℤ → Type 0
IsLong (pos n) = n < 2 ^ 63
IsLong (negsuc n) = n < 2 ^ 63

starts_with_digit-decimal : (n : ℕ) → starts_with_digit (decimal n) ≡ true
unfolding decimal
starts_with_digit-decimal n =
    ap starts_with_digit (sym (append-nil (digits_of (suc n) n)))
    ∙ starts_with_digit-digits_of n n []

read_digits-decimal : (n : ℕ) → read_digits 0 (decimal n) ≡ (n, [])
unfolding decimal
read_digits-decimal n = read_digits-digits_of n n (omega arith)

signed_long_pos : (n : ℕ) → n < 2 ^ 63 → signed_long false n [] ≡ exactly (pos n)
unfolding signed_long
signed_long_pos n h = ground arith

signed_long_neg : (n : ℕ) → n < 2 ^ 63 → signed_long true (suc n) [] ≡ exactly (negsuc n)
unfolding signed_long
signed_long_neg n h = ground arith

pub strtol-decimal_z : (i : ℤ) → IsLong i → strtol (decimal_z i) ≡ exactly i
unfolding decimal_z
strtol-decimal_z (pos n) h =
    strtol_pos (decimal n) n (starts_with_digit-decimal n) (read_digits-decimal n)
    ∙ signed_long_pos n h
strtol-decimal_z (negsuc n) h =
    strtol_neg (decimal (suc n)) (suc n) (starts_with_digit-decimal (suc n))
      (read_digits-decimal (suc n))
    ∙ signed_long_neg n h

c_str_digits : (acc v : ℕ) (str : Bytes) → read_digits acc str ≡ (v, []) → c_str str ≡ str
unfolding read_digits
c_str_digits acc v [] e = refl
c_str_digits acc v (zero ∷ str) e = ground arith
c_str_digits acc v (suc c ∷ str) e = ground (arith, c_str_digits (acc * 10 + (suc c - b'0')) v str)

-- There is no NUL in a number.
pub c_str-decimal_z : (i : ℤ) → c_str (decimal_z i) ≡ decimal_z i
unfolding decimal_z
c_str-decimal_z (pos n) = c_str_digits 0 n (decimal n) (read_digits-decimal n)
c_str-decimal_z (negsuc n) =
    ap (◌∷◌ b'-') (c_str_digits 0 (suc n) (decimal (suc n)) (read_digits-decimal (suc n)))

has_cr_digits : (acc v : ℕ) (str : Bytes) → read_digits acc str ≡ (v, []) → has_cr str ≡ false
unfolding read_digits has_cr
has_cr_digits acc v [] e = refl
has_cr_digits acc v (c ∷ str) e = ground (arith, has_cr_digits (acc * 10 + (c - b'0')) v str)

-- Nor a CR.
pub has_cr-decimal_z : (i : ℤ) → has_cr (decimal_z i) ≡ false
unfolding decimal_z has_cr
has_cr-decimal_z (pos n) = has_cr_digits 0 n (decimal n) (read_digits-decimal n)
has_cr-decimal_z (negsuc n) =
    has_cr_digits 0 (suc n) (decimal (suc n)) (read_digits-decimal (suc n))

-- It begins with a sign or a digit.
abbrev pub begins_number : Bytes → Bool
begins_number [] = false
begins_number (c ∷ str) = is_digit c || c == b'-'

digit_begins_number : (str : Bytes) → starts_with_digit str ≡ true → begins_number str ≡ true
digit_begins_number [] h = cc
digit_begins_number (c ∷ str) h = ground arith

pub begins_number-decimal_z : (i : ℤ) → begins_number (decimal_z i) ≡ true
unfolding decimal_z
begins_number-decimal_z (pos n) = digit_begins_number (decimal n) (starts_with_digit-decimal n)
begins_number-decimal_z (negsuc n) = refl

length-digits_of : (width fuel n : ℕ) → n < 10 ^ suc width → length (digits_of fuel n) ≤ suc width
unfolding digits_of
length-digits_of width zero n h = omega arith
length-digits_of zero (suc fuel) n h = ground arith
length-digits_of (suc width) (suc fuel) n h =
    let high : n / 10 < 10 ^ suc width = omega (arith, pow_step 10 (suc width), h) in
    ground (
      arith,
      length-digits_of width fuel (n / 10) high,
      length-append (digits_of fuel (n / 10)) ((b'0' + n % 10) ∷ []),
    )

-- It has at most twenty characters.
pub length-decimal_z : (i : ℤ) → IsLong i → length (decimal_z i) ≤ 20
unfolding decimal_z decimal
length-decimal_z (pos n) h = omega (arith, length-digits_of 18 (suc n) n (omega arith))
length-decimal_z (negsuc n) h =
    omega (arith, length-digits_of 18 (suc (suc n)) (suc n) (omega arith))
