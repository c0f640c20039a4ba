-- ===== src/Registry/Dispatch.antt =====
-- xmlrpc-c/src/registry.c: the dispatch of a call, and the processing of its XML.
use xml_rpc.Prelude.{ℕ, Bytes, none, some}
use xml_rpc.Fault.{Fault, Result, ok, err, fault, faultf, no_such_method_error, parse_error}
use xml_rpc.Value.{Value}
use xml_rpc.Serialize.{serialize_response2, serialize_fault}
use xml_rpc.Registry.{Action, lift, ◌>>=!◌, Registry, MethodFn, method1, method2, system}
use xml_rpc.Registry.Method.{method_list_lookup_by_name}
use xml_rpc.Registry.System.{Version, call_system}

module _ {World CallInfo : Type 0} (version : Version) (registry : Registry World CallInfo) where
  -- The calls that system.multicall makes go to `inner`.
  module _ (inner : Bytes → Value → Action World Value) (call_info : CallInfo) where
    -- callNamedMethod
    unfoldable pub call_named_method : MethodFn World CallInfo → Value → Action World Value
    call_named_method (method1 function) params = function params
    call_named_method (method2 function) params = function params call_info
    call_named_method (system function) params =
        call_system version registry inner call_info function params

    -- What follows the preinvoke function in xmlrpc_dispatchCall.
    unfoldable pub invoke : Bytes → Value → Action World Value
    unfolding call_named_method
    invoke method_name params = elim (method_list_lookup_by_name registry.methods method_name) [
      | some method ↦ call_named_method method.method_fn params
      | none ↦ elim (registry.default_method) [
        | some function ↦ function call_info method_name params
        | none ↦ lift (fault no_such_method_error "Method '%s' not defined")
      ]
    ]

    -- xmlrpc_dispatchCall
    unfoldable pub dispatch_with : Bytes → Value → Action World Value
    unfolding invoke
    dispatch_with method_name params = elim (registry.preinvoke) [
      | none ↦ invoke method_name params
      | some function ↦ function method_name params >>=! (λ _. invoke method_name params)
    ]

  -- xmlrpc_dispatchCall. The calls of system.multicall are the only ones that come back to it, and they
  -- may not be calls of system.multicall, so that two levels are enough.
  unfoldable pub dispatch_call : CallInfo → Bytes → Value → Action World Value
  unfolding dispatch_with
  dispatch_call call_info =
      dispatch_with (dispatch_with (λ _ _. lift (faultf "dispatched too deep")) call_info) call_info

  module _ (format_float : ℕ → Result Bytes) where
    -- serializeFault
    unfoldable pub serialize_call_fault : Fault → Result Bytes
    serialize_call_fault e = elim (serialize_fault format_float e) [
      | ok xml ↦ ok xml
      | err _ ↦
          faultf
            "Executed XML-RPC method completely and it generated a fault response, but we failed to encode that fault response as XML-RPC so we could send it to the client.  %s"
    ]

    -- The response to what dispatching has given.
    unfoldable pub serialize_outcome : Result Value → Result Bytes
    unfolding serialize_call_fault
    serialize_outcome (ok v) = serialize_response2 format_float registry.dialect v
    serialize_outcome (err e) = serialize_call_fault e

    -- xmlrpc_registry_process_call2 with xmlrpc_parse_call as an argument, and
    -- xmlrpc_registry_process_call
    unfoldable pub process_call2 :
        (Bytes → Result (Bytes × Value)) → Bytes → CallInfo → Action World Bytes
    unfolding serialize_outcome dispatch_call
    process_call2 parse call_xml call_info w = elim (parse call_xml) [
      | err e ↦ (serialize_outcome (fault parse_error "Call XML not a proper XML-RPC call.  %s"), w)
      | ok (method_name, params) ↦
          let (outcome, w') = dispatch_call call_info method_name params w in
          (serialize_outcome outcome, w')
    ]
