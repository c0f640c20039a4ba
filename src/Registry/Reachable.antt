-- ===== src/Registry/Reachable.antt =====
-- xmlrpc-c/src/registry.c: the registries that a program can set up, and what they all have.
use xml_rpc.Prelude.{
  ◌==◌, ◌≢◌, ℕ, ◌≡◌, refl, ap, sym, subst, ◌∙◌, true, List, [], ◌∷◌, Bytes, inl, inr, Option, none,
  some, text, Bool-cases, arith, String, All,
}
use xml_rpc.Fault.{Fault, ok, err}
use xml_rpc.Value.{Value}
use xml_rpc.Value.Structs.Lookup.{same_bytes_iff}
use xml_rpc.Registry.{
  Action, Registry, MethodFn, method1, method2, system, registry_add, SystemMethod, list_methods,
  method_exist, method_help, method_signature, multicall, shutdown, capabilities, get_capabilities,
  set_default_method, set_preinvoke_method, set_shutdown, set_dialect, disable_introspection,
}
use xml_rpc.Registry.Method.{
  streq, MethodInfo, MethodList, method_create, method_list_lookup_by_name, method_list_add,
}
use xml_rpc.Serialize.{dialect_i8}
use xml_rpc.Registry.{registry_add_method2}
use xml_rpc.Registry.Method.{
  parse_one_signature, parse_after_result, parse_argument_type_specifiers,
}
use xml_rpc.Registry.Install.{
  registry_new, SystemMethodReg, method_capabilities, method_get_capabilities, method_list_methods,
  method_method_exist, method_method_help, method_method_signature, method_multicall,
  method_shutdown,
}
use xml_rpc.Registry.Lookup.{method_of, registry_add-lookup}

-- A function of the program's own.
abbrev pub IsOwn : {World CallInfo : Type 0} → MethodFn World CallInfo → Type 0
IsOwn (method1 function) = Unit
IsOwn (method2 function) = Unit
IsOwn (system function) = ⊥

-- The operations by which a program sets up a registry, in any order.
pub data Reachable {World CallInfo : Type 0} : Registry World CallInfo → Type 1 where
  fresh :
      {registry : Registry World CallInfo}
      → registry_new World CallInfo ≡ ok registry
      → Reachable registry
  added :
      {registry next : Registry World CallInfo}
      → (name : Bytes) (function : MethodFn World CallInfo) (signature_string help : Option Bytes)
        (size : ℕ)
      → IsOwn function
      → registry_add registry name function signature_string help size ≡ ok next
      → Reachable registry
      → Reachable next
  default_set :
      {registry : Registry World CallInfo}
      → (function : CallInfo → Bytes → Value → Action World Value) → Reachable registry
      → Reachable (set_default_method registry function)
  preinvoke_set :
      {registry : Registry World CallInfo}
      → (function : Bytes → Value → Action World (Unit {0})) → Reachable registry
      → Reachable (set_preinvoke_method registry function)
  shutdown_set :
      {registry : Registry World CallInfo}
      → (function : Bytes → CallInfo → Action World (Unit {0})) → Reachable registry
      → Reachable (set_shutdown registry function)
  dialect_set :
      {registry next : Registry World CallInfo}
      → (n : ℕ) → set_dialect registry n ≡ ok next
      → Reachable registry
      → Reachable next
  introspection_off :
      {registry : Registry World CallInfo}
      → Reachable registry
      → Reachable (disable_introspection registry)

abbrev pub system_name : SystemMethod → String
system_name list_methods = "system.listMethods"
system_name method_exist = "system.methodExist"
system_name method_help = "system.methodHelp"
system_name method_signature = "system.methodSignature"
system_name multicall = "system.multicall"
system_name shutdown = "system.shutdown"
system_name capabilities = "system.capabilities"
system_name get_capabilities = "system.getCapabilities"

pub ok_injective : {A : Type 0} {a b : A} → ok a ≡ ok b → a ≡ b
ok_injective h = cc

some_injective : {A : Type 0} {a b : A} → some a ≡ some b → a ≡ b
some_injective h = cc

pub ok≢err : {A : Type 0} {a : A} {e : Fault} → ok a ≢ err e
ok≢err h = cc

module _ {World CallInfo : Type 0} where
  -- Every system method is found under its name, and a system function under no other name.
  pub record IsSetUp (registry : Registry World CallInfo) : Type 0 where
    pub there :
        (f : SystemMethod)
        → (m : MethodInfo (MethodFn World CallInfo)) × (method_of registry (text (system_name f))
            ≡ some m)
          × (m.method_fn ≡ system f)
    pub nowhere_else :
        (f : SystemMethod) (n : Bytes) (m : MethodInfo (MethodFn World CallInfo))
        → method_of registry n ≡ some m
        → m.method_fn ≡ system f
        → n ≡ text (system_name f)

  -- An entry has a system function under its name only.
  abbrev IsNamed : Bytes × MethodInfo (MethodFn World CallInfo) → Type 0
  IsNamed p = (f : SystemMethod) → p.1.method_fn ≡ system f → p.0 ≡ text (system_name f)

  found-IsNamed :
      (list : MethodList (MethodFn World CallInfo)) (n : Bytes)
      (m : MethodInfo (MethodFn World CallInfo))
      → All IsNamed list
      → method_list_lookup_by_name list n ≡ some m
      → IsNamed (n, m)
  unfolding method_list_lookup_by_name
  found-IsNamed [] n m h e = cc
  found-IsNamed (p ∷ list) n m h e = elim (Bool-cases (streq p.0 n)) [
    | inl same ↦ λ f is_f. ground (arith, h.0 f, same_bytes_iff p.0 n)
    | inr other ↦ found-IsNamed list n m h.1 (ground arith)
  ]

  abbrev is_system : SystemMethod → MethodFn World CallInfo → SystemMethod
  is_system g (system f) = f
  is_system g (method1 function) = g
  is_system g (method2 function) = g

  system_IsNamed :
      (f g : SystemMethod)
      → ◌≡◌ {A = MethodFn World CallInfo} (system f) (system g)
      → text (system_name f) ≡ text (system_name g)
  system_IsNamed f g e = ap (λ x. text (system_name (is_system f x))) e

  own-not-system :
      (function : MethodFn World CallInfo) (f : SystemMethod) → IsOwn function → function ≢ system f
  own-not-system (method1 g) f own h = cc
  own-not-system (method2 g) f own h = cc
  own-not-system (system g) f own h = own

  -- What a new registry holds for a system method.
  abbrev entry : SystemMethodReg → Bytes → List Bytes → Bytes × MethodInfo (MethodFn World CallInfo)
  entry reg ret args = (
    text reg.method_name,
    record {
      method_fn = system reg.method_function;
      stack_size = 0;
      signatures = record { ret_type = ret; arg_list = args } ∷ [];
      help_text = text reg.help_text;
    },
  )

  abbrev fresh_methods : MethodList (MethodFn World CallInfo)
  fresh_methods =
      entry method_list_methods (text "array") []
      ∷ entry method_method_exist (text "string") (text "boolean" ∷ [])
      ∷ entry method_method_help (text "string") (text "string" ∷ [])
      ∷ entry method_method_signature (text "array") (text "string" ∷ [])
      ∷ entry method_multicall (text "array") (text "array" ∷ [])
      ∷ entry method_shutdown (text "int") (text "string" ∷ [])
      ∷ entry method_capabilities (text "struct") []
      ∷ entry method_get_capabilities (text "struct") []
      ∷ []

  abbrev pub fresh_registry : Registry World CallInfo
  fresh_registry = record {
    introspection_enabled = true;
    methods = fresh_methods;
    default_method = none;
    preinvoke = none;
    shutdown_server = none;
    dialect = dialect_i8;
  }

  pub registry_new_lem : registry_new World CallInfo ≡ ok fresh_registry
  unfolding registry_new text registry_add_method2 registry_add method_create parse_one_signature
      parse_after_result parse_argument_type_specifiers method_list_add method_list_lookup_by_name
  registry_new_lem = refl

  fresh_there :
      (f : SystemMethod)
      → (m : MethodInfo (MethodFn World CallInfo)) × (method_of fresh_registry
            (text (system_name f))
          ≡ some m)
        × (m.method_fn ≡ system f)
  unfolding text method_list_lookup_by_name
  fresh_there list_methods = (_, refl, refl)
  fresh_there method_exist = (_, refl, refl)
  fresh_there method_help = (_, refl, refl)
  fresh_there method_signature = (_, refl, refl)
  fresh_there multicall = (_, refl, refl)
  fresh_there shutdown = (_, refl, refl)
  fresh_there capabilities = (_, refl, refl)
  fresh_there get_capabilities = (_, refl, refl)

  fresh-IsSetUp : IsSetUp fresh_registry
  fresh-IsSetUp = record {
    there = fresh_there;
    nowhere_else = λ f n m found is_f.
        found-IsNamed fresh_methods n m
          (
            system_IsNamed list_methods,
            (
              system_IsNamed method_exist,
              (
                system_IsNamed method_help,
                (
                  system_IsNamed method_signature,
                  (
                    system_IsNamed multicall,
                    (
                      system_IsNamed shutdown,
                      (system_IsNamed capabilities, (system_IsNamed get_capabilities, tt)),
                    ),
                  ),
                ),
              ),
            ),
          )
          found f is_f;
  }

  same_methods :
      (registry next : Registry World CallInfo)
      → IsSetUp registry
      → registry.methods ≡ next.methods
      → IsSetUp next
  same_methods registry next s h = record {
    there = λ f.
        subst
          (λ list.
            (m : MethodInfo (MethodFn World CallInfo)) × (method_list_lookup_by_name list
                (text (system_name f))
              ≡ some m)
            × (m.method_fn ≡ system f))
          h (s.there f);
    nowhere_else = λ f n m found.
        s.nowhere_else f n m (ap (λ list. method_list_lookup_by_name list n) h ∙ found);
  }

  set_dialect_methods :
      (registry next : Registry World CallInfo) (n : ℕ)
      → set_dialect registry n ≡ ok next
      → registry.methods ≡ next.methods
  unfolding set_dialect
  set_dialect_methods registry next n h = elim (Bool-cases (n == 0)) [
    | inl zeroth ↦ ap (λ r. r.methods) (ok_injective (rw zeroth at h))
    | inr other ↦ elim (Bool-cases (n == 1)) [
      | inl first ↦ ap (λ r. r.methods) (ok_injective (rw first at (rw other at h)))
      | inr wrong ↦ absurd (ok≢err (sym (rw wrong at (rw other at h))))
    ]
  ]

  -- Registering a function of the program.
  added-IsSetUp :
      (registry next : Registry World CallInfo) (name : Bytes) (function : MethodFn World CallInfo)
      (signature_string help : Option Bytes) (size : ℕ)
      → IsOwn function
      → registry_add registry name function signature_string help size ≡ ok next
      → IsSetUp registry
      → IsSetUp next
  added-IsSetUp registry next name function signature_string help size own h s =
      elim (registry_add-lookup registry name function signature_string help size) [
        | inl (why, (e, refused, code)) ↦ absurd (ok≢err (sym h ∙ refused))
        | inr (m, list, free, is_function, sigs, run, finds) ↦
            subst IsSetUp (ok_injective (sym run ∙ h)) (record {
              there = λ f.
                  let (x, at, is_f) = s.there f in
                  (
                    x,
                    ground (
                      arith,
                      finds (text (system_name f)),
                      same_bytes_iff name (text (system_name f)),
                    ),
                    is_f,
                  );
              nowhere_else = λ f n m' found is_f. elim (Bool-cases (streq name n)) [
                | inl same ↦ absurd (
                    own-not-system function f own (
                      sym is_function
                      ∙ ap (λ x. x.method_fn) (some_injective (sym (rw same at (finds n)) ∙ found))
                      ∙ is_f))
                | inr other ↦ s.nowhere_else f n m' (sym (rw other at (finds n)) ∙ found) is_f
              ];
            })
      ]

  -- However a program sets up its registry, every system method is found under its name, and none of
  -- their functions under another name.
  pub Reachable-IsSetUp :
      (registry : Registry World CallInfo) → Reachable registry → IsSetUp registry
  unfolding set_default_method set_preinvoke_method set_shutdown disable_introspection
  Reachable-IsSetUp registry (fresh h) =
      subst IsSetUp (ok_injective (sym registry_new_lem ∙ h)) fresh-IsSetUp
  Reachable-IsSetUp registry (added name function signature_string help size own h r) =
      added-IsSetUp _ registry name function signature_string help size own h
        (Reachable-IsSetUp _ r)
  Reachable-IsSetUp registry (default_set function r) =
      same_methods _ _ (Reachable-IsSetUp _ r) refl
  Reachable-IsSetUp registry (preinvoke_set function r) =
      same_methods _ _ (Reachable-IsSetUp _ r) refl
  Reachable-IsSetUp registry (shutdown_set function r) =
      same_methods _ _ (Reachable-IsSetUp _ r) refl
  Reachable-IsSetUp registry (dialect_set n h r) =
      same_methods _ registry (Reachable-IsSetUp _ r) (set_dialect_methods _ registry n h)
  Reachable-IsSetUp registry (introspection_off r) = same_methods _ _ (Reachable-IsSetUp _ r) refl
