-- ===== src/ParseDatetime/Digits.antt =====
-- The digits that printf writes with %u and %0wu.
use native.Mathlib.Omega.{pow_step}
use xml_rpc.Prelude.{
  ◌^◌, length-append, ℕ, zero, suc, ◌+◌, ◌-◌, ◌/◌, ◌%◌, ◌≤◌, ◌<◌, ◌≡◌, refl, sym, ap, ◌∙◌, true,
  false, inl, inr, [], ◌∷◌, ◌++◌, arith, Bytes, ltb, decimal, digits_of, zero_pad, zeros,
  Bool-cases, length, append_assoc,
}

-- More rounds do not change the digits.
pub digits_of_fuel : (f g n : ℕ) → n < f → n < g → digits_of f n ≡ digits_of g n
unfolding digits_of
digits_of_fuel zero g n p q = absurd (omega arith)
digits_of_fuel (suc f) zero n p q = absurd (omega arith)
digits_of_fuel (suc f) (suc g) n p q = elim (Bool-cases (ltb n 10)) [
  | inl small ↦ rw small refl
  | inr large ↦
      let same = digits_of_fuel f g (n / 10) (ground arith) (ground arith) in
      rw large (ap (λ h. h ++ (b'0' + n % 10) ∷ []) same)
]

pub decimal_small : (n : ℕ) → n < 10 → decimal n ≡ (b'0' + n) ∷ []
unfolding decimal digits_of
decimal_small n h = ground arith

pub digits_of_large :
    (fuel n : ℕ)
    → ltb n 10 ≡ false
    → digits_of (suc fuel) n ≡ digits_of fuel (n / 10) ++ (b'0' + n % 10) ∷ []
unfolding digits_of
digits_of_large fuel n large = rw large refl

pub decimal_step : (n : ℕ) → 10 ≤ n → decimal n ≡ decimal (n / 10) ++ (b'0' + n % 10) ∷ []
unfolding decimal
decimal_step n h =
    let large : ltb n 10 ≡ false = ground arith in
    let n' : n ≡ suc (n - 1) = omega arith in
    rw (digits_of_large n n large) (
      ap (λ d. d ++ (b'0' + n % 10) ∷ [])
        (digits_of_fuel n (suc (n / 10)) (n / 10) (omega arith) (omega arith)))

unfoldable pub digit : ℕ → ℕ
digit n = b'0' + n % 10

pub decimal_two : (n : ℕ) → n < 100 → 10 ≤ n → decimal n ≡ digit (n / 10) ∷ digit n ∷ []
unfolding digit
decimal_two n h l =
    let ten : n / 10 % 10 ≡ n / 10 = omega arith in
    rw ten (
      decimal_step n l ∙ ap (λ d. d ++ (b'0' + n % 10) ∷ []) (decimal_small (n / 10) (omega arith)))

pub decimal_four :
    (n : ℕ)
    → n < 10000
    → 1000 ≤ n
    → decimal n ≡ digit (n / 1000) ∷ digit (n / 100) ∷ digit (n / 10) ∷ digit n ∷ []
unfolding digit
decimal_four n h l =
    let three : decimal (n / 10) ≡ decimal (n / 100) ++ (b'0' + n / 10 % 10) ∷ [] =
      decimal_step (n / 10) (omega arith)
      ∙ ap (λ q. decimal q ++ (b'0' + n / 10 % 10) ∷ []) (omega arith) in
    let two : decimal (n / 100) ≡ (b'0' + n / 1000 % 10) ∷ (b'0' + n / 100 % 10) ∷ [] =
      unfold digit in
      (decimal_two (n / 100) (omega arith) (omega arith)
        ∙ ap (λ q. (b'0' + q % 10) ∷ (b'0' + n / 100 % 10) ∷ []) (omega arith)) in
    decimal_step n (omega arith)
    ∙ ap (λ d. d ++ (b'0' + n % 10) ∷ []) (three ∙ ap (λ d. d ++ (b'0' + n / 10 % 10) ∷ []) two)

-- Six digits, by one at a time from the right.
unfoldable pub padded : ℕ → ℕ → Bytes
padded zero n = []
padded (suc w) n = padded w (n / 10) ++ digit n ∷ []

pub zeros-snoc : (w : ℕ) → zeros (suc w) ≡ zeros w ++ b'0' ∷ []
unfolding zeros
zeros-snoc zero = refl
zeros-snoc (suc w) = ap (◌∷◌ b'0') (zeros-snoc w)

pub padded_zero : (w : ℕ) → padded w 0 ≡ zeros w
unfolding padded digit zeros
padded_zero zero = refl
padded_zero (suc w) = ap (λ z. z ++ b'0' ∷ []) (padded_zero w) ∙ sym (zeros-snoc w)

pub zero_pad_small : (w n : ℕ) → ltb n 10 ≡ true → zero_pad (suc w) (decimal n) ≡ padded (suc w) n
unfolding zero_pad padded digit
zero_pad_small w n small =
    let none : n / 10 ≡ 0 = ground arith in
    let units : n % 10 ≡ n = ground arith in
    let width : suc w - 1 ≡ w = omega arith in
    rw (decimal_small n (ground arith)) (rw none (rw units (rw width (rw (padded_zero w) refl))))

pub zero_pad_digit :
    (w d : ℕ) (high : Bytes) → zero_pad (suc w) (high ++ d ∷ []) ≡ zero_pad w high ++ d ∷ []
unfolding zero_pad
zero_pad_digit w d high =
    let longer : suc w - length (high ++ d ∷ []) ≡ w - length high =
      omega (arith, length-append high (d ∷ [])) in
    ap (λ k. zeros k ++ (high ++ d ∷ [])) longer
    ∙ sym (append_assoc (zeros (w - length high)) high (d ∷ []))

-- A number that fits is padded to its width.
pub zero_pad-padded : (w n : ℕ) → n < 10 ^ suc w → zero_pad (suc w) (decimal n) ≡ padded (suc w) n
unfolding digit padded
zero_pad-padded zero n h = zero_pad_small zero n (ground arith)
zero_pad-padded (suc w) n h = elim (Bool-cases (ltb n 10)) [
  | inl small ↦ zero_pad_small (suc w) n small
  | inr large ↦
      let fits : n / 10 < 10 ^ suc w = omega (arith, pow_step 10 (suc w), h) in
      ap (zero_pad (suc (suc w))) (decimal_step n (ground arith))
      ∙ zero_pad_digit (suc w) (digit n) (decimal (n / 10))
      ∙ ap (λ z. z ++ digit n ∷ []) (zero_pad-padded w (n / 10) fits)
]
