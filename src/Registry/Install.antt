-- ===== src/Registry/Install.antt =====
-- xmlrpc-c/src/system_method.c and xmlrpc-c/src/registry.c: a new registry, with the system methods in it.
use xml_rpc.Prelude.{true, [], String, none, some, text}
use xml_rpc.Fault.{Result, ok, err, faultf, ◌>>=◌}
use xml_rpc.Serialize.{dialect_i8}
use xml_rpc.Registry.{
  Registry, SystemMethod, system, registry_add_method2, list_methods, method_exist, method_help,
  method_signature, multicall, shutdown, capabilities, get_capabilities,
}

-- struct systemMethodReg
pub record SystemMethodReg : Type 0 where
  pub method_name : String
  pub method_function : SystemMethod
  pub signature_string : String
  pub help_text : String

abbrev pub method_list_methods : SystemMethodReg
method_list_methods = record {
  method_name = "system.listMethods";
  method_function = list_methods;
  signature_string = "A:";
  help_text = "Return an array of all available XML-RPC methods on this server.";
}

abbrev pub method_method_exist : SystemMethodReg
method_method_exist = record {
  method_name = "system.methodExist";
  method_function = method_exist;
  signature_string = "s:b";
  help_text = "Tell whether a method by a specified name exists on this server";
}

abbrev pub method_method_help : SystemMethodReg
method_method_help = record {
  method_name = "system.methodHelp";
  method_function = method_help;
  signature_string = "s:s";
  help_text = "Given the name of a method, return a help string.";
}

abbrev pub method_method_signature : SystemMethodReg
method_method_signature = record {
  method_name = "system.methodSignature";
  method_function = method_signature;
  signature_string = "A:s";
  help_text =
      "Given the name of a method, return an array of legal signatures. Each signature is an array of strings.  The first item of each signature is the return type, and any others items are parameter types.";
}

abbrev pub method_multicall : SystemMethodReg
method_multicall = record {
  method_name = "system.multicall";
  method_function = multicall;
  signature_string = "A:A";
  help_text =
      "Process an array of calls, and return an array of results.  Calls should be structs of the form {'methodName': string, 'params': array}. Each result will either be a single-item array containg the result value, or a struct of the form {'faultCode': int, 'faultString': string}.  This is useful when you need to make lots of small calls without lots of round trips.";
}

abbrev pub method_shutdown : SystemMethodReg
method_shutdown = record {
  method_name = "system.shutdown";
  method_function = shutdown;
  signature_string = "i:s";
  help_text = "Shut down the server.  Return code is always zero.";
}

abbrev pub method_capabilities : SystemMethodReg
method_capabilities = record {
  method_name = "system.capabilities";
  method_function = capabilities;
  signature_string = "S:";
  help_text =
      "Return the capabilities of XML-RPC server.  This includes the version number of the XML-RPC For C/C++ software";
}

abbrev pub method_get_capabilities : SystemMethodReg
method_get_capabilities = record {
  method_name = "system.getCapabilities";
  method_function = get_capabilities;
  signature_string = "S:";
  help_text =
      "Return the list of standard capabilities of XML-RPC server.  See http://tech.groups.yahoo.com/group/xml-rpc/message/2897";
}

module _ {World CallInfo : Type 0} where
  -- registerSystemMethod
  unfoldable pub register_system_method :
      Registry World CallInfo → SystemMethodReg → Result (Registry World CallInfo)
  register_system_method registry reg =
      elim (registry_add_method2 registry (text reg.method_name) (system reg.method_function)
        (some (text reg.signature_string)) (some (text reg.help_text))) [
          | ok registry' ↦ ok registry'
          | err e ↦ faultf "Failed to register '%s' system method.  %s"
        ]

  -- xmlrpc_installSystemMethods
  unfoldable pub install_system_methods : Registry World CallInfo → Result (Registry World CallInfo)
  unfolding register_system_method
  install_system_methods registry = do
    r1 ← register_system_method registry method_list_methods
    r2 ← register_system_method r1 method_method_exist
    r3 ← register_system_method r2 method_method_help
    r4 ← register_system_method r3 method_method_signature
    r5 ← register_system_method r4 method_multicall
    r6 ← register_system_method r5 method_shutdown
    r7 ← register_system_method r6 method_capabilities
    register_system_method r7 method_get_capabilities

-- xmlrpc_registry_new
unfoldable pub registry_new : (World CallInfo : Type 0) → Result (Registry World CallInfo)
unfolding install_system_methods
registry_new World CallInfo = install_system_methods (record {
  introspection_enabled = true;
  methods = [];
  default_method = none;
  preinvoke = none;
  shutdown_server = none;
  dialect = dialect_i8;
})
