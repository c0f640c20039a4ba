-- ===== src/Fault.antt =====
-- xmlrpc-c/lib/libutil/error.c and the fault codes of xmlrpc-c/include/xmlrpc-c/util.h. A routine that takes an
-- `xmlrpc_env` returns a `Result`: the statements that the source runs only `if
-- (!envP->fault_occurred)` are the rest of a `do` block.
use xml_rpc.Prelude.{◌⊎◌, inl, inr, ◌≡◌, refl, Bool, true, false, Bytes, codes, String, ℤ, negsuc}

-- The text of a fault that the library makes is the format of its message; the arguments that the
-- message shows are not put in.
unfoldable pub message : String → Bytes
message s = codes s

pub record Fault : Type 0 where
  pub code : ℤ
  pub text : Bytes

abbrev pub internal_error : ℤ
internal_error = negsuc 499

abbrev pub type_error : ℤ
type_error = negsuc 500

abbrev pub index_error : ℤ
index_error = negsuc 501

abbrev pub parse_error : ℤ
parse_error = negsuc 502

abbrev pub no_such_method_error : ℤ
no_such_method_error = negsuc 505

abbrev pub request_refused_error : ℤ
request_refused_error = negsuc 506

abbrev pub introspection_disabled_error : ℤ
introspection_disabled_error = negsuc 507

abbrev pub invalid_utf8_error : ℤ
invalid_utf8_error = negsuc 509

pub data Result {ℓ} (A : Type ℓ) : Type ℓ where
  ok : A → Result A
  err : Fault → Result A

-- What follows runs only if no fault has occurred.
infixl 5 ◌>>=◌ ◌>>◌
abbrev pub ◌>>=◌ {ℓ κ} : {A : Type ℓ} {B : Type κ} → Result A → (A → Result B) → Result B
err fault >>= next = err fault
ok result >>= next = next result

abbrev pub ◌>>◌ {ℓ} : {A : Type ℓ} → Result (Unit {0}) → Result A → Result A
check >> rest = check >>= (λ done. rest)

-- xmlrpc_env_set_fault_formatted
abbrev pub fault {ℓ} : {A : Type ℓ} → ℤ → String → Result A
fault c s = err (record { code = c; text = message s })

-- xmlrpc_faultf
abbrev pub faultf {ℓ} : {A : Type ℓ} → String → Result A
faultf = fault internal_error

abbrev pub is_ok {ℓ} : {A : Type ℓ} → Result A → Bool
is_ok (ok a) = true
is_ok (err e) = false

-- A failure, if any, has this code.
abbrev pub FailsWith {ℓ} : {A : Type ℓ} → ℤ → Result A → Type 0
FailsWith c (ok a) = Unit
FailsWith c (err e) = e.code ≡ c

-- A failure, with this code.
abbrev pub IsFault {ℓ} : {A : Type ℓ} → ℤ → Result A → Type ℓ
IsFault c r = (e : Fault) × (r ≡ err e) × (e.code ≡ c)

pub FailsWith-bind {ℓ κ} :
    {A : Type ℓ} {B : Type κ} (c : ℤ) (m : Result A) (f : A → Result B)
    → FailsWith c m
    → ((a : A) → m ≡ ok a → FailsWith c (f a))
    → FailsWith c (m >>= f)
FailsWith-bind c (ok a) f h k = k a refl
FailsWith-bind c (err e) f h k = h

-- Both parts of a sequence that succeeds have succeeded.
pub >>=-eq-ok {ℓ κ} :
    {A : Type ℓ} {B : Type κ} {out : B} (first : Result A) (next : A → Result B)
    → (first >>= next) ≡ ok out
    → (between : A) × (first ≡ ok between) × (next between ≡ ok out)
>>=-eq-ok (err e) next run = cc
>>=-eq-ok (ok between) next run = (between, refl, run)

pub Result-cases {ℓ} :
    {A : Type ℓ} (m : Result A) → ((a : A) × (m ≡ ok a)) ⊎ ((e : Fault) × (m ≡ err e))
Result-cases (ok a) = inl (a, refl)
Result-cases (err e) = inr (e, refl)
