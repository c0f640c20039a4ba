-- ===== src/Registry.antt =====
-- xmlrpc-c/src/registry.c: the registry of a server's methods. The functions that the program registers, with
-- their user data, are parameters: they work on a state `World` of the program, and get the
-- `CallInfo` of the call. A method is not to change the registry while it runs.
pub mod Method
pub mod Signatures
pub mod System
pub mod Install
pub mod Introspection
pub mod Dispatch
pub mod Levels
pub mod Lookup
pub mod Multicall
pub mod Reachable
pub mod Answers
pub mod Rpc
use xml_rpc.Prelude.{
  ℕ, ◌*◌, Bool, true, false, List, [], ◌∷◌, ltb, ◌==◌, if◌then◌else◌, Bytes, Option, none, some,
  text, codes,
}
use xml_rpc.Fault.{Result, ok, err, Fault, faultf, ◌>>=◌}
use xml_rpc.Value.{Value}
use xml_rpc.Serialize.{Dialect, dialect_i8, dialect_apache}
use xml_rpc.Registry.Method.{MethodInfo, MethodList, method_create, method_list_add}

-- What a routine of the program does: its result, and the state that it leaves.
abbrev pub Action : Type 0 → Type 0 → Type 0
Action World A = World → Result A × World

-- A routine that does not touch the program's state.
abbrev pub lift : {World : Type 0} {A : Type 0} → Result A → Action World A
lift r w = (r, w)

-- What follows runs in the state that the first part leaves, and only if no fault has occurred.
abbrev pub and_then :
    {World : Type 0} {A : Type 0} {B : Type 0}
    → Result A × World
    → (A → Action World B)
    → Result B × World
and_then (ok a, w) next = next a w
and_then (err e, w) next = (err e, w)

infixl 5 ◌>>=!◌
abbrev pub ◌>>=!◌ :
    {World : Type 0} {A : Type 0} {B : Type 0}
    → Action World A
    → (A → Action World B)
    → Action World B
(first >>=! next) w = and_then (first w) next

-- The functions of xmlrpc-c/src/system_method.c.
pub data SystemMethod : Type 0 where
  list_methods method_exist method_help method_signature : SystemMethod
  multicall shutdown capabilities get_capabilities : SystemMethod

module _ (World CallInfo : Type 0) where
  -- A method function with its user data: xmlrpc_method1, xmlrpc_method2, or a system method, whose user
  -- data is the registry.
  pub data MethodFn : Type 0 where
    method1 : (Value → Action World Value) → MethodFn
    method2 : (Value → CallInfo → Action World Value) → MethodFn
    system : SystemMethod → MethodFn

  -- struct xmlrpc_registry
  pub record Registry : Type 0 where
    pub introspection_enabled : Bool
    pub methods : MethodList MethodFn
    pub default_method : Option (CallInfo → Bytes → Value → Action World Value)
    pub preinvoke : Option (Bytes → Value → Action World (Unit {0}))
    pub shutdown_server : Option (Bytes → CallInfo → Action World (Unit {0}))
    pub dialect : Dialect

abbrev pub no_help : Bytes
no_help = codes "No help is available for this method."

module _ {World CallInfo : Type 0} where
  -- registryAddMethod
  unfoldable pub registry_add :
      Registry World CallInfo
      → Bytes
      → MethodFn World CallInfo
      → Option Bytes
      → Option Bytes
      → ℕ
      → Result (Registry World CallInfo)
  registry_add registry name function signature_string help size = do
    method ←
        method_create function signature_string (elim help [ none ↦ no_help | some h ↦ h ]) size
    list ← method_list_add registry.methods name method
    ok (record registry { methods = list })

  -- xmlrpc_registry_add_method_w_doc
  unfoldable pub registry_add_method_w_doc :
      Registry World CallInfo
      → Bytes
      → (Value → Action World Value)
      → Option Bytes
      → Option Bytes
      → Result (Registry World CallInfo)
  registry_add_method_w_doc registry name function signature_string help =
      registry_add registry name (method1 function) signature_string help 0

  -- xmlrpc_registry_add_method
  unfoldable pub registry_add_method :
      Registry World CallInfo
      → Bytes
      → (Value → Action World Value)
      → Result (Registry World CallInfo)
  registry_add_method registry name function =
      registry_add_method_w_doc registry name function (some (text "?")) (some no_help)

  -- xmlrpc_registry_add_method2, for a function of the program or a system method
  unfoldable pub registry_add_method2 :
      Registry World CallInfo
      → Bytes
      → MethodFn World CallInfo
      → Option Bytes
      → Option Bytes
      → Result (Registry World CallInfo)
  registry_add_method2 registry name function signature_string help =
      registry_add registry name function signature_string help 0

  -- xmlrpc_registry_add_method3
  unfoldable pub registry_add_method3 :
      Registry World CallInfo
      → Bytes
      → (Value → CallInfo → Action World Value)
      → Option Bytes
      → Option Bytes
      → ℕ
      → Result (Registry World CallInfo)
  registry_add_method3 registry name function signature_string help size =
      registry_add registry name (method2 function) signature_string help size

  -- xmlrpc_registry_set_default_method
  unfoldable pub set_default_method :
      Registry World CallInfo
      → (CallInfo → Bytes → Value → Action World Value)
      → Registry World CallInfo
  set_default_method registry function = record registry { default_method = some function }

  -- xmlrpc_registry_set_preinvoke_method
  unfoldable pub set_preinvoke_method :
      Registry World CallInfo → (Bytes → Value → Action World (Unit {0})) → Registry World CallInfo
  set_preinvoke_method registry function = record registry { preinvoke = some function }

  -- xmlrpc_registry_set_shutdown
  unfoldable pub set_shutdown :
      Registry World CallInfo
      → (Bytes → CallInfo → Action World (Unit {0}))
      → Registry World CallInfo
  set_shutdown registry function = record registry { shutdown_server = some function }

  -- xmlrpc_registry_set_dialect; the number is what the program gives for an xmlrpc_dialect.
  unfoldable pub set_dialect : Registry World CallInfo → ℕ → Result (Registry World CallInfo)
  set_dialect registry n =
      if n == 0
      then ok (record registry { dialect = dialect_i8 })
      else if n == 1
      then ok (record registry { dialect = dialect_apache })
      else faultf "Invalid dialect argument -- not of type xmlrpc_dialect.  Numerical value is %u"

  -- xmlrpc_registry_disable_introspection
  unfoldable pub disable_introspection : Registry World CallInfo → Registry World CallInfo
  disable_introspection registry = record registry { introspection_enabled = false }

  -- methodStackSize, with METHOD_FUNCTION_STACK
  unfoldable pub method_stack_size : MethodInfo (MethodFn World CallInfo) → ℕ
  method_stack_size method = if method.stack_size == 0 then 128 * 1024 else method.stack_size

  -- The loop of xmlrpc_registry_max_stackSize.
  unfoldable pub max_stack_of : ℕ → MethodList (MethodFn World CallInfo) → ℕ
  unfolding method_stack_size
  max_stack_of so_far [] = so_far
  max_stack_of so_far (p ∷ list) =
      max_stack_of (if ltb (method_stack_size p.1) so_far then so_far else method_stack_size p.1)
        list

  -- xmlrpc_registry_max_stackSize
  unfoldable pub max_stack_size : Registry World CallInfo → ℕ
  unfolding max_stack_of
  max_stack_size registry = max_stack_of 0 registry.methods
