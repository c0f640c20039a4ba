-- ===== src/Registry/Method.antt =====
-- xmlrpc-c/src/method.c: signatures, and the list of methods.
use xml_rpc.Prelude.{
  ℕ, zero, suc, Bool, List, [], ◌∷◌, ◌++◌, ◌==◌, if◌then◌else◌, Bytes, length, Option, none, some,
  text,
}
use xml_rpc.Fault.{Result, ok, err, faultf, ◌>>=◌}
use xml_rpc.Value.Structs.Lookup.{same_bytes}

-- xmlrpc_streq
abbrev pub streq : Bytes → Bytes → Bool
streq a b = same_bytes a b

-- struct xmlrpc_signature
pub record Signature : Type 0 where
  pub ret_type : Bytes
  pub arg_list : List Bytes

-- translateTypeSpecifierToName
unfoldable pub translate_type_specifier : ℕ → Result Bytes
translate_type_specifier c =
    if c == b'i'
    then ok (text "int")
    else if c == b'b'
    then ok (text "boolean")
    else if c == b'd'
    then ok (text "double")
    else if c == b's'
    then ok (text "string")
    else if c == b'8'
    then ok (text "dateTime.iso8601")
    else if c == b'6'
    then ok (text "base64")
    else if c == b'S'
    then ok (text "struct")
    else if c == b'A'
    then ok (text "array")
    else if c == b'n'
    then ok (text "nil")
    else if c == b'I'
    then ok (text "i8")
    else faultf
        "Method registry contains invalid signature data.  It contains the type specifier '%c'"

-- parseArgumentTypeSpecifiers: the names, and what stands behind the comma
unfoldable pub parse_argument_type_specifiers : Bytes → Result (List Bytes × Bytes)
parse_argument_type_specifiers [] = ok ([], [])
parse_argument_type_specifiers (c ∷ rest) =
    let later = (do
      name ← translate_type_specifier c
      names ← parse_argument_type_specifiers rest
      ok (name ∷ names.0, names.1)) in
    if c == b',' then ok ([], rest) else later

-- The colon behind the result type, and the arguments. After an invalid result type the source goes
-- on, without reading an argument; a missing colon replaces the fault.
unfoldable pub parse_after_result : Result Bytes → Bytes → Result (Signature × Bytes)
parse_after_result translated [] = faultf "No colon (':') after the result type specifier"
parse_after_result translated (c ∷ rest) =
    if c == b':'
    then (do
      type_name ← translated
      args ← parse_argument_type_specifiers rest
      ok (record { ret_type = type_name; arg_list = args.0 }, args.1))
    else faultf "No colon (':') after the result type specifier"

-- parseOneSignature
unfoldable pub parse_one_signature : Bytes → Result (Signature × Bytes)
unfolding translate_type_specifier
parse_one_signature [] =
    faultf "empty signature (a signature must have at least  return value type)"
parse_one_signature (c ∷ rest) =
    if c == b','
    then faultf "empty signature (a signature must have at least  return value type)"
    else parse_after_result (translate_type_specifier c) rest

-- listSignatures, on fuel: every signature takes a character at least.
unfoldable pub list_signatures : ℕ → Bytes → Result (List Signature)
list_signatures fuel [] = ok []
list_signatures zero (c ∷ rest) = faultf "out of fuel"
list_signatures (suc fuel) (c ∷ rest) = do
  parsed ← parse_one_signature (c ∷ rest)
  later ← list_signatures fuel parsed.1
  ok (parsed.0 ∷ later)

-- signatureListCreate; no signature string is NULL.
unfoldable pub signature_list_create : Option Bytes → Result (List Signature)
unfolding list_signatures
signature_list_create none = ok []
signature_list_create (some s) = if streq s (text "?") then ok [] else (do
  signatures ← list_signatures (length s) s
  elim signatures [ [] ↦ faultf "Signature string is empty." | first ∷ later ↦ ok (first ∷ later) ])

-- makeSignatureList
unfoldable pub make_signature_list : Option Bytes → Result (List Signature)
unfolding signature_list_create
make_signature_list s = elim (signature_list_create s) [
  | ok signatures ↦ ok signatures
  | err e ↦ faultf "Can't interpret signature string '%s'.  %s"
]

-- xmlrpc_methodInfo, for method functions of any kind
pub record MethodInfo (MethodFn : Type 0) : Type 0 where
  pub method_fn : MethodFn
  pub stack_size : ℕ
  pub signatures : List Signature
  pub help_text : Bytes

-- xmlrpc_methodNode and xmlrpc_methodList
abbrev pub MethodList : Type 0 → Type 0
MethodList MethodFn = List (Bytes × MethodInfo MethodFn)

module _ {MethodFn : Type 0} where
  -- xmlrpc_methodCreate
  unfoldable pub method_create : MethodFn → Option Bytes → Bytes → ℕ → Result (MethodInfo MethodFn)
  unfolding make_signature_list
  method_create function signature_string help size = do
    sigs ← make_signature_list signature_string
    ok (record { method_fn = function; stack_size = size; signatures = sigs; help_text = help })

  -- xmlrpc_methodListLookupByName
  unfoldable pub method_list_lookup_by_name :
      MethodList MethodFn → Bytes → Option (MethodInfo MethodFn)
  method_list_lookup_by_name [] name = none
  method_list_lookup_by_name (p ∷ list) name =
      let later = method_list_lookup_by_name list name in if streq p.0 name then some p.1 else later

  -- xmlrpc_methodListAdd
  unfoldable pub method_list_add :
      MethodList MethodFn → Bytes → MethodInfo MethodFn → Result (MethodList MethodFn)
  method_list_add list name method = elim (method_list_lookup_by_name list name) [
    | some existing ↦ faultf "Method named '%s' already registered"
    | none ↦ ok (list ++ (name, method) ∷ [])
  ]
