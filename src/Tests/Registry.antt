-- ===== src/Tests/Registry.antt =====
-- xmlrpc-c/src/registry.c, xmlrpc-c/src/method.c and xmlrpc-c/src/system_method.c on a small server, whose state
-- counts calls.
use xml_rpc.Prelude.{
  ℕ, suc, ◌≡◌, refl, ◌⊎◌, true, [], ◌∷◌, ◌++◌, Bytes, codes, text, none, some, pos, if◌then◌else◌,
  map,
}
use xml_rpc.Fault.{Fault, ok, err, internal_error, IsFault}
use xml_rpc.Value.{Value, int, bool, nil, array}
use xml_rpc.Value.Strings.{verify_no_nulls}
use xml_rpc.Registry.{Action, Registry, MethodFn, method1, registry_add}
use xml_rpc.Registry.Method.{
  MethodInfo, MethodList, streq, method_create, make_signature_list, list_signatures,
  parse_one_signature, parse_after_result, parse_argument_type_specifiers, translate_type_specifier,
  method_list_lookup_by_name, method_list_add,
}
use xml_rpc.Registry.System.{Version, system_method_exist, system_method_signature}
use xml_rpc.Registry.Dispatch.{dispatch_call, dispatch_with}
use xml_rpc.Registry.Lookup.{method_of, registry_add-lookup}
use xml_rpc.Registry.Reachable.{
  fresh, added, IsSetUp, fresh_registry, registry_new_lem, Reachable-IsSetUp,
}
use xml_rpc.Registry.Levels.{dispatch_call-levels}
use xml_rpc.Registry.Signatures.{
  int_spec, boolean_spec, string_spec, signature_of, make_signature_list-print,
}
use xml_rpc.Registry.Introspection.{named, typing_values, registered_signature}

-- The method `tick` returns the number of calls before it.
abbrev tick : Value → Action ℕ Value
tick params calls = (ok (int (pos calls)), suc calls)

abbrev new : Registry ℕ (Unit {0})
new = fresh_registry

abbrev pub tick_name : Bytes
tick_name = codes "tick"

abbrev tick_info : MethodInfo (MethodFn ℕ (Unit {0}))
tick_info = record {
  method_fn = method1 tick;
  stack_size = 0;
  signatures = record { ret_type = codes "int"; arg_list = codes "boolean" ∷ [] } ∷ [];
  help_text = codes "No help is available for this method.";
}

abbrev pub server : Registry ℕ (Unit {0})
server = record new { methods = new.methods ++ (tick_name, tick_info) ∷ [] }

abbrev pub version : Version
version = record { major = 1; minor = 39; point = 7 }

server_added : registry_add new tick_name (method1 tick) (some (codes "i:b")) none 0 ≡ ok server
unfolding registry_add method_create list_signatures parse_one_signature parse_after_result
    parse_argument_type_specifiers translate_type_specifier method_list_add
    method_list_lookup_by_name text
server_added = refl

server-IsSetUp : IsSetUp server
server-IsSetUp = Reachable-IsSetUp server (
    added tick_name (method1 tick) (some (codes "i:b")) none 0 tt server_added
      (fresh registry_new_lem))

reachable_example : IsSetUp server
reachable_example = Reachable-IsSetUp server (
    added tick_name (method1 tick) (some (codes "i:b")) none 0 tt server_added
      (fresh registry_new_lem))

levels_example :
    (dispatch_call version server tt
      ≡ dispatch_with version server (dispatch_call version server tt) tt)
    × (dispatch_call version server tt
        ≡ dispatch_with version server (dispatch_with version server (λ _ _ w. (ok nil, w)) tt) tt)
levels_example = dispatch_call-levels version server tt (λ _ _ w. (ok nil, w)) server-IsSetUp

add_example :
    ((((e : Fault) × (make_signature_list (some (codes "i:b")) ≡ err e))
        ⊎ ((m : MethodInfo (MethodFn ℕ (Unit {0}))) × (method_of new tick_name ≡ some m)))
      × IsFault internal_error
          (registry_add new tick_name (method1 tick) (some (codes "i:b")) none 0))
    ⊎ ((m : MethodInfo (MethodFn ℕ (Unit {0}))) × (list : MethodList (MethodFn ℕ (Unit {0})))
        × (method_of new tick_name ≡ none)
        × (m.method_fn ≡ method1 tick)
        × (make_signature_list (some (codes "i:b")) ≡ ok m.signatures)
        × (registry_add new tick_name (method1 tick) (some (codes "i:b")) none 0
            ≡ ok (record new { methods = list }))
        × ((n : Bytes)
            → method_list_lookup_by_name list n
              ≡ (if streq tick_name n then some m else method_of new n)))
add_example = registry_add-lookup new tick_name (method1 tick) (some (codes "i:b")) none 0

two_typings_example :
    make_signature_list (some (codes "i:b,s:"))
    ≡ ok (map signature_of ((int_spec, boolean_spec ∷ []) ∷ (string_spec, []) ∷ []))
two_typings_example =
    make_signature_list-print (int_spec, boolean_spec ∷ []) ((string_spec, []) ∷ [])

tick_no_nulls : verify_no_nulls tick_name ≡ ok tt
unfolding verify_no_nulls
tick_no_nulls = refl

signature_example :
    (system_method_exist version server (named tick_name) ≡ ok (bool true))
    × (system_method_signature version server (named tick_name)
        ≡ ok (array (typing_values ((int_spec, boolean_spec ∷ []) ∷ []))))
signature_example =
    registered_signature version new server tick_name (method1 tick) (int_spec, boolean_spec ∷ [])
      [] none 0 tick_no_nulls server_added
