-- ===== src/Number.antt =====
-- strtol and strtoll in base 10, on an LP64 platform, and xmlrpc-c/lib/libutil/string_number.c.
pub mod Decimal
use xml_rpc.Prelude.{
  ℕ, ◌+◌, ◌-◌, ◌*◌, ◌^◌, Bool, true, false, not, ◌&&◌, ◌||◌, List, [], ◌∷◌, ltb, leb, ◌==◌,
  if◌then◌else◌, Bytes, ℤ, pos, neg,
}
use xml_rpc.Fault.{Result, ok, faultf}

abbrev pub is_digit : ℕ → Bool
is_digit c = leb b'0' c && leb c b'9'

-- isspace in the C locale
abbrev pub is_space : ℕ → Bool
is_space c = c == b' ' || (leb 9 c && leb c 13)

unfoldable pub skip_space : Bytes → Bytes
skip_space [] = []
skip_space (c ∷ rest) = let later = skip_space rest in if is_space c then later else c ∷ rest

-- The number that the digits at the front make, behind `acc`, and what follows them.
unfoldable pub read_digits : ℕ → Bytes → ℕ × Bytes
read_digits acc [] = (acc, [])
read_digits acc (c ∷ rest) =
    let later = read_digits (acc * 10 + (c - b'0')) rest in
    if is_digit c then later else (acc, c ∷ rest)

abbrev pub starts_with_digit : Bytes → Bool
starts_with_digit [] = false
starts_with_digit (c ∷ rest) = is_digit c

-- What strtol returns: the value, the tail, and whether `errno` is ERANGE.
pub record Strtol : Type 0 where
  pub value : ℤ
  pub tail : Bytes
  pub is_erange : Bool

abbrev pub long_max : ℕ
long_max = 2 ^ 63 - 1

-- A number behind its sign.
unfoldable pub signed_long : Bool → ℕ → Bytes → Strtol
signed_long minus n tail =
    if minus
    then if ltb (long_max + 1) n
      then record { value = neg (long_max + 1); tail = tail; is_erange = true }
      else record { value = neg n; tail = tail; is_erange = false }
    else if ltb long_max n
    then record { value = pos long_max; tail = tail; is_erange = true }
    else record { value = pos n; tail = tail; is_erange = false }

-- The digits behind the sign; without any, nothing is read.
unfoldable pub strtol_digits : Bytes → Bool → Bytes → Strtol
unfolding signed_long read_digits
strtol_digits str minus digits =
    if starts_with_digit digits
    then signed_long minus (read_digits 0 digits).0 (read_digits 0 digits).1
    else record { value = pos 0; tail = str; is_erange = false }

unfoldable pub strtol_sign : Bytes → Bytes → Strtol
unfolding strtol_digits
strtol_sign str [] = strtol_digits str false []
strtol_sign str (c ∷ rest) =
    if c == b'-'
    then strtol_digits str true rest
    else if c == b'+'
    then strtol_digits str false rest
    else strtol_digits str false (c ∷ rest)

unfoldable pub strtol : Bytes → Strtol
unfolding strtol_sign skip_space
strtol str = strtol_sign str (skip_space str)

abbrev pub is_empty : Bytes → Bool
is_empty [] = true
is_empty (c ∷ rest) = false

-- xmlrpc_parse_int64
unfoldable pub parse_int64 : Bytes → Result ℤ
unfolding strtol
parse_int64 str =
    let r = strtol str in
    if r.is_erange
    then faultf "Number cannot be represented in 64 bits.  Must be in the range [%lld - %lld]"
    else if not (is_empty r.tail)
    then faultf "contains non-numerical junk: '%s'"
    else ok r.value
