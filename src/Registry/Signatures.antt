-- ===== src/Registry/Signatures.antt =====
-- xmlrpc-c/src/method.c and xmlrpc-c/src/system_method.c: a method's signatures, from the string that it is
-- registered with to the value of system.methodSignature.
use xml_rpc.Prelude.{
  ℕ, zero, suc, ◌≤◌, ◌+◌, ◌≡◌, refl, ap, sym, ◌∙◌, false, List, [], ◌∷◌, ◌++◌, map, Bytes, some,
  text, codes, length, arith, append-nil, ◌==◌, length-append,
}
use xml_rpc.Fault.{ok, ◌>>=◌}
use xml_rpc.Registry.Method.{
  Signature, streq, translate_type_specifier, parse_argument_type_specifiers, parse_after_result,
  parse_one_signature, list_signatures, signature_list_create, make_signature_list,
}

-- The types that a signature string can name.
pub data TypeSpec : Type 0 where
  int_spec boolean_spec double_spec string_spec datetime_spec : TypeSpec
  base64_spec struct_spec array_spec nil_spec i8_spec : TypeSpec

abbrev pub spec_char : TypeSpec → ℕ
spec_char int_spec = b'i'
spec_char boolean_spec = b'b'
spec_char double_spec = b'd'
spec_char string_spec = b's'
spec_char datetime_spec = b'8'
spec_char base64_spec = b'6'
spec_char struct_spec = b'S'
spec_char array_spec = b'A'
spec_char nil_spec = b'n'
spec_char i8_spec = b'I'

-- The names of the types in the protocol.
abbrev pub spec_name : TypeSpec → Bytes
spec_name int_spec = codes "int"
spec_name boolean_spec = codes "boolean"
spec_name double_spec = codes "double"
spec_name string_spec = codes "string"
spec_name datetime_spec = codes "dateTime.iso8601"
spec_name base64_spec = codes "base64"
spec_name struct_spec = codes "struct"
spec_name array_spec = codes "array"
spec_name nil_spec = codes "nil"
spec_name i8_spec = codes "i8"

-- The type of the result, and those of the parameters.
abbrev pub Typing : Type 0
Typing = TypeSpec × List TypeSpec

abbrev print_typing : Typing → Bytes
print_typing t = spec_char t.0 ∷ b':' ∷ map spec_char t.1

-- A signature string: the first typing, and the others.
abbrev pub print_typings : Typing → List Typing → Bytes
print_typings t [] = print_typing t
print_typings t (t' ∷ ts) = print_typing t ++ b',' ∷ print_typings t' ts

abbrev pub signature_of : Typing → Signature
signature_of t = record { ret_type = spec_name t.0; arg_list = map spec_name t.1 }

translate_lem : (t : TypeSpec) → translate_type_specifier (spec_char t) ≡ ok (spec_name t)
unfolding translate_type_specifier text
translate_lem int_spec = refl
translate_lem boolean_spec = refl
translate_lem double_spec = refl
translate_lem string_spec = refl
translate_lem datetime_spec = refl
translate_lem base64_spec = refl
translate_lem struct_spec = refl
translate_lem array_spec = refl
translate_lem nil_spec = refl
translate_lem i8_spec = refl

spec_char-comma : (t : TypeSpec) → (spec_char t == b',') ≡ false
spec_char-comma int_spec = refl
spec_char-comma boolean_spec = refl
spec_char-comma double_spec = refl
spec_char-comma string_spec = refl
spec_char-comma datetime_spec = refl
spec_char-comma base64_spec = refl
spec_char-comma struct_spec = refl
spec_char-comma array_spec = refl
spec_char-comma nil_spec = refl
spec_char-comma i8_spec = refl

-- What may stand behind a typing: nothing, or a comma and more.
abbrev tail_of : List Typing → Bytes
tail_of [] = []
tail_of (t ∷ ts) = b',' ∷ print_typings t ts

abbrev rest_of : List Typing → Bytes
rest_of [] = []
rest_of (t ∷ ts) = print_typings t ts

args_lem :
    (args : List TypeSpec) (ts : List Typing)
    → parse_argument_type_specifiers (map spec_char args ++ tail_of ts)
      ≡ ok (map spec_name args, rest_of ts)
unfolding parse_argument_type_specifiers
args_lem [] [] = refl
args_lem [] (t ∷ ts) = refl
args_lem (a ∷ args) ts = rw (spec_char-comma a) (rw (translate_lem a) (rw (args_lem args ts) refl))

print_typings_lem :
    (t : Typing) (ts : List Typing) → print_typings t ts ≡ print_typing t ++ tail_of ts
print_typings_lem t [] = sym (append-nil (print_typing t))
print_typings_lem t (t' ∷ ts) = refl

one_lem :
    (t : Typing) (ts : List Typing)
    → parse_one_signature (print_typing t ++ tail_of ts) ≡ ok (signature_of t, rest_of ts)
unfolding parse_one_signature parse_after_result
one_lem t ts = rw (spec_char-comma t.0) (rw (translate_lem t.0) (rw (args_lem t.1 ts) refl))

list_lem :
    (fuel : ℕ) (t : Typing) (ts : List Typing)
    → length ts + 1 ≤ fuel
    → list_signatures fuel (print_typings t ts) ≡ ok (map signature_of (t ∷ ts))
unfolding list_signatures
list_lem zero t ts h = absurd (omega arith)
list_lem (suc fuel) t [] h =
    ap (λ r. r >>= λ p. list_signatures fuel p.1 >>= λ later. ok (p.0 ∷ later))
      (ap parse_one_signature (print_typings_lem t []) ∙ one_lem t [])
    ∙ refl
list_lem (suc fuel) t (t' ∷ ts) h =
    ap (λ r. r >>= λ p. list_signatures fuel p.1 >>= λ later. ok (p.0 ∷ later))
      (one_lem t (t' ∷ ts))
    ∙ ap (λ r. r >>= λ later. ok (signature_of t ∷ later)) (list_lem fuel t' ts (omega arith))

length-print_typings : (t : Typing) (ts : List Typing) → length ts + 1 ≤ length (print_typings t ts)
length-print_typings t [] = omega arith
length-print_typings t (t' ∷ ts) = omega (
  arith,
  length-append (map spec_char t.1) (b',' ∷ print_typings t' ts),
  length-print_typings t' ts,
)

not_unknown : (t : Typing) (ts : List Typing) → streq (print_typings t ts) (codes "?") ≡ false
not_unknown t [] = ground arith
not_unknown t (t' ∷ ts) = ground arith

-- A signature string that names the types of one or more forms of a method is read as these forms,
-- with the names of the types in the protocol.
pub make_signature_list-print :
    (t : Typing) (ts : List Typing)
    → make_signature_list (some (print_typings t ts)) ≡ ok (map signature_of (t ∷ ts))
unfolding make_signature_list signature_list_create text
make_signature_list-print t ts =
    rw (not_unknown t ts, make_signature_list)
      (rw
        (
          list_lem (length (print_typings t ts)) t ts (length-print_typings t ts),
          make_signature_list,
        )
        refl)
