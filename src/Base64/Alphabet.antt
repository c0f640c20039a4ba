-- ===== src/Base64/Alphabet.antt =====
-- The alphabet of RFC 2045, and the tables of xmlrpc-c/lib/libutil/base64.c against it.
use xml_rpc.Prelude.{
  ℕ, ◌<◌, ◌≡◌, refl, true, arith, Bytes, codes, get_or, is_table, is_table_entry, ◌==◌,
}
use xml_rpc.Base64.{b2a}

-- The alphabet of RFC 2045, in the order of the values.
unfoldable pub rfc_alphabet : Bytes
rfc_alphabet = codes "ABCDEFGHIJKLMNOPQRSTUVWXYZabcdefghijklmnopqrstuvwxyz0123456789+/"

unfoldable pub rfc_char : ℕ → ℕ
unfolding rfc_alphabet
rfc_char v = get_or rfc_alphabet v 0

is_rfc_table : is_table (λ v. b2a v == rfc_char v) 64 ≡ true
unfolding is_table b2a rfc_char
is_rfc_table = refl

same_number : (m n : ℕ) → (m == n) ≡ true → m ≡ n
same_number m n h = ground arith

-- The table of the code is the alphabet.
pub b2a-rfc_char : (v : ℕ) → v < 64 → b2a v ≡ rfc_char v
b2a-rfc_char v h = same_number (b2a v) (rfc_char v) (is_table_entry _ 64 v h is_rfc_table)
