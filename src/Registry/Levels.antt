-- ===== src/Registry/Levels.antt =====
-- xmlrpc-c/src/registry.c and xmlrpc-c/src/system_method.c: system.multicall dispatches calls while it is
-- dispatched itself, and this ends.
use xml_rpc.Prelude.{
  arith, ◌≡◌, refl, ap, ◌≢◌, Bytes, none, some, Option-cases, Bool-cases, inl, inr, text,
}
use xml_rpc.Value.{
  Value, int, bool, double, datetime, string, base64, array, struct, c_ptr, nil, i8, dead, Values,
  no_items, item,
}
use xml_rpc.Value.Structs.Lookup.{same_bytes_iff}
use xml_rpc.Value.Arrays.{array_new, array_append_item}
use xml_rpc.Registry.{
  Action, lift, ◌>>=!◌, Registry, MethodFn, method1, method2, system, list_methods, method_exist,
  method_help, method_signature, multicall, shutdown, capabilities, get_capabilities,
}
use xml_rpc.Registry.Method.{MethodInfo, streq}
use xml_rpc.Registry.System.{
  Version, with_result, call_description, get_meth_list, call_described, call_one_method,
  multicall_loop, system_multicall, call_system,
}
use xml_rpc.Registry.Dispatch.{call_named_method, invoke, dispatch_with, dispatch_call}
use xml_rpc.Registry.Lookup.{method_of}
use xml_rpc.Registry.Reachable.{IsSetUp}

abbrev Dispatch : Type 0 → Type 0
Dispatch World = Bytes → Value → Action World Value

-- Two routines give the same for every call that system.multicall may make.
abbrev Agree : {World : Type 0} → Dispatch World → Dispatch World → Type 0
Agree d d' = (n : Bytes) → n ≢ text "system.multicall" → d n ≡ d' n

module _ {World : Type 0} (d d' : Dispatch World) (h : Agree d d') where
  described :
      (call : Bytes × Value) (w : World) → call_described d call w ≡ call_described d' call w
  unfolding call_described
  described call w = elim (Bool-cases (streq call.0 (text "system.multicall"))) [
    | inl same ↦ rw (same, call_described) refl
    | inr other ↦
        rw (other, call_described)
          (ap (λ f. with_result (f call.1 w))
            (h call.0 (λ e. ground (arith, same_bytes_iff call.0 (text "system.multicall")))))
  ]

  one_method : (v : Value) → call_one_method d v ≡ call_one_method d' v
  unfolding call_one_method
  one_method (struct ms) =
      ap (λ f. lift (call_description (struct ms)) >>=! f) (λ i call w. described call w i)
  one_method (int i) = refl
  one_method (bool b) = refl
  one_method (double x) = refl
  one_method (datetime dt) = refl
  one_method (string s) = refl
  one_method (base64 s) = refl
  one_method (array vs) = refl
  one_method (c_ptr p) = refl
  one_method nil = refl
  one_method (i8 i) = refl
  one_method dead = refl

  loop :
      (vs : Values) (results : Value) → multicall_loop d results vs ≡ multicall_loop d' results vs
  unfolding multicall_loop
  loop no_items results = refl
  loop (item v vs) results = λ i.
      one_method v i
      >>=! (λ r. lift (array_append_item results r))
      >>=! (λ results'. loop vs results' i)

  multicalls : system_multicall d ≡ system_multicall d'
  unfolding system_multicall
  multicalls = λ i params. lift (get_meth_list params) >>=! (λ calls. loop calls array_new i)

module _ {World CallInfo : Type 0} (version : Version) (registry : Registry World CallInfo)
    (call_info : CallInfo) where
  abbrev level : Dispatch World → Dispatch World
  level d = dispatch_with version registry d call_info

  -- Only system.multicall comes back to the dispatch.
  named :
      (d d' : Dispatch World) (function : MethodFn World CallInfo)
      → Agree d d'
      → call_named_method version registry d call_info function
        ≡ call_named_method version registry d' call_info function
  unfolding call_named_method call_system
  named d d' (method1 f) h = refl
  named d d' (method2 f) h = refl
  named d d' (system multicall) h = multicalls d d' h
  named d d' (system list_methods) h = refl
  named d d' (system method_exist) h = refl
  named d d' (system method_help) h = refl
  named d d' (system method_signature) h = refl
  named d d' (system shutdown) h = refl
  named d d' (system capabilities) h = refl
  named d d' (system get_capabilities) h = refl

  named_other :
      (d d' : Dispatch World) (function : MethodFn World CallInfo)
      → function ≢ system multicall
      → call_named_method version registry d call_info function
        ≡ call_named_method version registry d' call_info function
  unfolding call_named_method call_system
  named_other d d' (method1 f) h = refl
  named_other d d' (method2 f) h = refl
  named_other d d' (system multicall) h = absurd (h refl)
  named_other d d' (system list_methods) h = refl
  named_other d d' (system method_exist) h = refl
  named_other d d' (system method_help) h = refl
  named_other d d' (system method_signature) h = refl
  named_other d d' (system shutdown) h = refl
  named_other d d' (system capabilities) h = refl
  named_other d d' (system get_capabilities) h = refl

  invoke_same :
      (d d' : Dispatch World) (n : Bytes)
      → ((m : MethodInfo (MethodFn World CallInfo))
          → method_of registry n ≡ some m
          → call_named_method version registry d call_info m.method_fn
            ≡ call_named_method version registry d' call_info m.method_fn)
      → invoke version registry d call_info n ≡ invoke version registry d' call_info n
  unfolding invoke
  invoke_same d d' n h = λ i params.
      elim (Option-cases (method_of registry n))
          as (λ _.
            invoke version registry d call_info n params
            ≡ invoke version registry d' call_info n params) [
              | inl missing ↦ rw (missing, invoke) refl
              | inr (m, found) ↦ rw (found, invoke) (ap (λ f. f params) (h m found))
            ]
        i

  level_same :
      (d d' : Dispatch World) (n : Bytes)
      → invoke version registry d call_info n ≡ invoke version registry d' call_info n
      → level d n ≡ level d' n
  unfolding dispatch_with
  level_same d d' n h = λ i params. elim (registry.preinvoke) [
    | none ↦ h i params
    | some function ↦ function n params >>=! (λ _. h i params)
  ]

  -- A call other than of system.multicall does not come back.
  levels-Agree : (d d' : Dispatch World) → IsSetUp registry → Agree (level d) (level d')
  levels-Agree d d' s n other = level_same d d' n (
      invoke_same d d' n (λ m found.
        named_other d d' m.method_fn
          (λ is_multicall. other (s.nowhere_else multicall n m found is_multicall))))

  level-Agree : (d d' : Dispatch World) → Agree d d' → level d ≡ level d'
  level-Agree d d' h =
      λ i n. level_same d d' n (invoke_same d d' n (λ m found. named d d' m.method_fn h)) i

  -- In a registry that is set up, dispatching satisfies the source's recursion, in which the calls of
  -- system.multicall are dispatched like any other; and it does not depend on what would happen to
  -- calls at a third level: two levels are enough.
  pub dispatch_call-levels :
      (deeper : Bytes → Value → Action World Value)
      → IsSetUp registry
      → (dispatch_call version registry call_info
          ≡ dispatch_with version registry (dispatch_call version registry call_info) call_info)
        × (dispatch_call version registry call_info
            ≡ dispatch_with version registry
                (dispatch_with version registry deeper call_info)
                call_info)
  unfolding dispatch_call
  dispatch_call-levels deeper s =
      (level-Agree _ _ (levels-Agree _ _ s), level-Agree _ _ (levels-Agree _ _ s))
