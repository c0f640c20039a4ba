-- ===== src/Registry/System.antt =====
-- xmlrpc-c/src/system_method.c: the methods that every registry has. The version, of a header that the build
-- makes, is a parameter, and so is xmlrpc_dispatchCall, which system.multicall calls.
use xml_rpc.Prelude.{
  ℕ, true, false, not, List, [], ◌∷◌, ltb, ◌==◌, if◌then◌else◌, Bytes, none, some, text, pos,
}
use xml_rpc.Fault.{
  Result, ok, err, fault, faultf, type_error, parse_error, index_error, no_such_method_error,
  request_refused_error, introspection_disabled_error, ◌>>=◌, ◌>>◌,
}
use xml_rpc.Value.{Value, int, bool, array, struct, Values, no_items, item}
use xml_rpc.Value.Strings.{string_new_lp}
use xml_rpc.Value.Arrays.{array_new, array_size, array_append_item, array_read_item}
use xml_rpc.Decompose.{text_slot, int32_slot, value_slot}
use xml_rpc.Decompose.Format.{decompose_value}
use xml_rpc.Build.{build_value}
use xml_rpc.Registry.{
  Action, lift, ◌>>=!◌, Registry, MethodFn, SystemMethod, list_methods, method_exist, method_help,
  method_signature, multicall, shutdown, capabilities, get_capabilities,
}
use xml_rpc.Registry.Method.{Signature, MethodList, streq, method_list_lookup_by_name}

-- xmlrpc_version of the build: major, minor, point.
pub record Version : Type 0 where
  pub major : ℕ
  pub minor : ℕ
  pub point : ℕ

-- The one string that the format "(s)" reads.
unfoldable pub one_string : Value → Result Bytes
one_string params = do
  slots ← decompose_value params (text "(s)") []
  elim slots [ text_slot s ∷ [] ↦ ok s | _ ↦ faultf "va_arg" ]

-- The struct that stands for one call of system.multicall.
unfoldable pub call_description : Value → Result (Bytes × Value)
call_description rpc_desc = do
  slots ← decompose_value rpc_desc (text "{s:s,s:A,*}") (text "methodName" ∷ text "params" ∷ [])
  elim slots [ text_slot name ∷ value_slot params ∷ [] ↦ ok (name, params) | _ ↦ faultf "va_arg" ]

-- What becomes of the outcome of one call: a fault structure, or an array with the result.
unfoldable pub call_result : Result Value → Result Value
call_result (err e) = build_value (text "{s:i,s:s}") (
    text_slot (text "faultCode")
    ∷ int32_slot e.code
    ∷ text_slot (text "faultString")
    ∷ text_slot e.text
    ∷ [])
call_result (ok v) = build_value (text "(V)") (value_slot v ∷ [])

-- Building the result runs in the state that the call has left.
abbrev pub with_result : {World : Type 0} → Result Value × World → Result Value × World
with_result (r, w) = (call_result r, w)

-- getMethListFromMulticallPlist
unfoldable pub get_meth_list : Value → Result Values
get_meth_list params = do
  size ← array_size params
  if not (size == 1)
      then fault parse_error
          "system.multicall takes one parameter, which is an array, each element describing one RPC.  You supplied %u arguments"
      else (do
        list ← array_read_item params 0
        elim list [
          | array vs ↦ ok vs
          | _ ↦
              fault type_error
                "system.multicall's parameter should be an array, each element describing one RPC.  But it is type %u instead."
        ])

module _ {World : Type 0} (dispatch : Bytes → Value → Action World Value) where
  -- The dispatch of callOneMethod, with the watch out for a deep recursion.
  unfoldable pub call_described : Bytes × Value → Action World Value
  call_described call w = elim (streq call.0 (text "system.multicall")) [
    | true ↦ (fault request_refused_error "Recursive system.multicall forbidden", w)
    | false ↦ with_result (dispatch call.0 call.1 w)
  ]

  -- callOneMethod
  unfoldable pub call_one_method : Value → Action World Value
  unfolding call_described call_description
  call_one_method (struct ms) = lift (call_description (struct ms)) >>=! call_described
  call_one_method rpc_desc = lift (
      fault type_error
        "An element of the multicall array is type %u, but should be a struct (with members 'methodName' and 'params')")

  -- The loop of system_multicall, from the results so far.
  unfoldable pub multicall_loop : Value → Values → Action World Value
  unfolding call_one_method
  multicall_loop results no_items = lift (ok results)
  multicall_loop results (item desc calls) =
      call_one_method desc
      >>=! (λ r. lift (array_append_item results r))
      >>=! (λ results'. multicall_loop results' calls)

  unfoldable pub system_multicall : Value → Action World Value
  unfolding get_meth_list multicall_loop
  system_multicall params =
      lift (get_meth_list params) >>=! (λ calls. multicall_loop array_new calls)

module _ {World CallInfo : Type 0} (version : Version) (registry : Registry World CallInfo) where
  abbrev list : MethodList (MethodFn World CallInfo)
  list = registry.methods

  -- The loop of createMethodListArray, from the names so far.
  unfoldable pub method_names : Value → MethodList (MethodFn World CallInfo) → Result Value
  method_names names [] = ok names
  method_names names (p ∷ later) = do
    name ← string_new_lp p.0
    names' ← array_append_item names name
    method_names names' later

  -- createMethodListArray
  unfoldable pub create_method_list_array : Result Value
  create_method_list_array = method_names array_new list

  unfoldable pub system_list_methods : Value → Result Value
  unfolding create_method_list_array
  system_list_methods params = do
    nothing ← decompose_value params (text "()") []
    if registry.introspection_enabled
        then create_method_list_array
        else fault introspection_disabled_error
            "Introspection is disabled in this server for security reasons"

  -- determineMethodExistence
  unfoldable pub determine_method_existence : Bytes → Value
  determine_method_existence name =
      bool (elim (method_list_lookup_by_name list name) [ none ↦ false | some method ↦ true ])

  unfoldable pub system_method_exist : Value → Result Value
  unfolding determine_method_existence one_string
  system_method_exist params = do name ← one_string params; ok (determine_method_existence name)

  -- getHelpString
  unfoldable pub get_help_string : Bytes → Result Value
  get_help_string name = elim (method_list_lookup_by_name list name) [
    | none ↦ fault no_such_method_error "Method '%s' does not exist"
    | some method ↦ string_new_lp method.help_text
  ]

  unfoldable pub system_method_help : Value → Result Value
  unfolding get_help_string one_string
  system_method_help params = do
    name ← one_string params
    if registry.introspection_enabled
        then get_help_string name
        else fault introspection_disabled_error
            "Introspection is disabled in this server for security reasons"

  -- The strings of buildSignatureValue.
  unfoldable pub type_names : Value → List Bytes → Result Value
  type_names names [] = ok names
  type_names names (n ∷ later) = do
    name ← string_new_lp n
    names' ← array_append_item names name
    type_names names' later

  -- buildSignatureValue
  unfoldable pub build_signature_value : Signature → Result Value
  unfolding type_names
  build_signature_value signature = type_names array_new (signature.ret_type ∷ signature.arg_list)

  -- The loop of getSignatureList.
  unfoldable pub signature_values : Value → List Signature → Result Value
  unfolding build_signature_value
  signature_values values [] = ok values
  signature_values values (signature ∷ later) = do
    v ← build_signature_value signature
    values' ← array_append_item values v
    signature_values values' later

  -- getSignatureList, and buildNoSigSuppliedResult where it returns NULL
  unfoldable pub get_signature_list : Bytes → Result Value
  unfolding signature_values
  get_signature_list name = elim (method_list_lookup_by_name list name) [
    | none ↦ fault no_such_method_error "Method '%s' does not exist"
    | some method ↦ elim (method.signatures) [
      | [] ↦ string_new_lp (text "undef")
      | first ∷ later ↦ signature_values array_new (first ∷ later)
    ]
  ]

  -- The parameter of system.methodSignature and of system.shutdown, with their own text of the fault.
  unfoldable pub one_parameter : Value → Result Bytes
  unfolding one_string
  one_parameter params = elim (one_string params) [
    | ok s ↦ ok s
    | err e ↦ fault e.code "Invalid parameter list.  %s"
  ]

  unfoldable pub system_method_signature : Value → Result Value
  unfolding one_parameter get_signature_list
  system_method_signature params = do
    name ← one_parameter params
    if registry.introspection_enabled
        then get_signature_list name
        else fault introspection_disabled_error "Introspection disabled on this server"

  -- What system.shutdown does with the server's function.
  unfoldable pub shut_down : CallInfo → Bytes → Action World Value
  shut_down call_info comment = elim (registry.shutdown_server) [
    | none ↦ lift (fault (pos 0) "This server program is not capable of shutting down")
    | some stop ↦ stop comment call_info >>=! (λ _. lift (ok (int (pos 0))))
  ]

  unfoldable pub system_shutdown : CallInfo → Value → Action World Value
  unfolding shut_down one_parameter
  system_shutdown call_info params = lift (one_parameter params) >>=! shut_down call_info

  -- The check that there are no parameters.
  unfoldable pub no_parameters : Value → Result (Unit {0})
  no_parameters params = do
    size ← array_size params
    if ltb 0 size then fault index_error "There are no parameters.  You supplied %u" else ok tt

  -- constructCapabilities
  unfoldable pub construct_capabilities : Result Value
  construct_capabilities = build_value (text "{s:s,s:i,s:i,s:i,s:i}") (
      text_slot (text "facility")
      ∷ text_slot (text "xmlrpc-c")
      ∷ text_slot (text "version_major")
      ∷ int32_slot (pos version.major)
      ∷ text_slot (text "version_minor")
      ∷ int32_slot (pos version.minor)
      ∷ text_slot (text "version_point")
      ∷ int32_slot (pos version.point)
      ∷ text_slot (text "protocol_version")
      ∷ int32_slot (pos 2)
      ∷ [])

  unfoldable pub system_capabilities : Value → Result Value
  unfolding construct_capabilities no_parameters
  system_capabilities params = do no_parameters params; construct_capabilities

  -- listCapabilities
  unfoldable pub list_capabilities : Result Value
  list_capabilities = build_value (text "{s:{s:s,s:i}}") (
      text_slot (text "introspect")
      ∷ text_slot (text "specUrl")
      ∷ text_slot (text "http://xmlrpc-c.sourceforge.net/xmlrpc-c/introspection.html")
      ∷ text_slot (text "specVersion")
      ∷ int32_slot (pos 1)
      ∷ [])

  unfoldable pub system_get_capabilities : Value → Result Value
  unfolding list_capabilities no_parameters
  system_get_capabilities params = do no_parameters params; list_capabilities

  -- The method functions, by what the registry holds for them.
  unfoldable pub call_system :
      (Bytes → Value → Action World Value) → CallInfo → SystemMethod → Value → Action World Value
  unfolding system_multicall system_list_methods system_method_exist system_method_help
      system_method_signature system_shutdown system_capabilities system_get_capabilities
  call_system dispatch call_info multicall params = system_multicall dispatch params
  call_system dispatch call_info list_methods params = lift (system_list_methods params)
  call_system dispatch call_info method_exist params = lift (system_method_exist params)
  call_system dispatch call_info method_help params = lift (system_method_help params)
  call_system dispatch call_info method_signature params = lift (system_method_signature params)
  call_system dispatch call_info shutdown params = system_shutdown call_info params
  call_system dispatch call_info capabilities params = lift (system_capabilities params)
  call_system dispatch call_info get_capabilities params = lift (system_get_capabilities params)
