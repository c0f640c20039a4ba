-- ===== src/ParseCall.antt =====
-- xmlrpc-c/src/xmlrpc_parse.c: calls and responses. xml_parse, which stands on expat, and the limits of
-- xmlrpc-c/src/resource.c are parameters.
pub mod Documents
pub mod Faults
pub mod Bounded
pub mod Printed
pub mod Merged
use package.text.Mathlib.Text.{◌==◌ as str_eq}
use xml_rpc.Prelude.{
  ℕ, zero, suc, ◌+◌, Bool, true, false, not, ltb, ◌==◌, if◌then◌else◌, Bytes, String, ℤ, negsuc,
  length, c_str, text,
}
use xml_rpc.Fault.{Result, ok, err, parse_error, type_error, fault, faultf, ◌>>=◌, ◌>>◌}
use xml_rpc.Utf8.{validate_utf8}
use xml_rpc.Element.{
  Element, Elements, no_children, child, element_name, element_cdata, element_children,
  children_size,
}
use xml_rpc.Value.{Value, array, struct, Values, Members}
use xml_rpc.Value.Strings.{read_string}
use xml_rpc.Value.Data.{read_int}
use xml_rpc.Value.Arrays.{array_new, array_append_item, array_size, array_read_item}
use xml_rpc.Value.Structs.{struct_read_value}
use xml_rpc.ParseScalar.Double.{FloatOps}
use xml_rpc.ParseValue.{parse_value}

abbrev pub limit_exceeded_error : ℤ
limit_exceeded_error = negsuc 508

-- validateName
unfoldable pub validate_name : Element → String → Result (Unit {0})
validate_name e name =
    if not (str_eq name (element_name e))
    then fault parse_error "Expected element of type <%s>, found <%s>"
    else ok tt

-- validateChildCount
unfoldable pub validate_child_count : Element → ℕ → Result (Unit {0})
validate_child_count e required_count =
    if not (children_size (element_children e) == required_count)
    then fault parse_error "Expected <%s> to have %u children, found %u"
    else ok tt

-- The loop of getChildByName.
unfoldable pub child_by_name : Elements → String → Result Element
child_by_name no_children name = fault parse_error "Expected <%s> to have child <%s>"
child_by_name (child e es) name =
    let later = child_by_name es name in if str_eq (element_name e) name then ok e else later

-- getChildByName
unfoldable pub get_child_by_name : Element → String → Result Element
unfolding child_by_name
get_child_by_name parent name = child_by_name (element_children parent) name

-- xml_element_children(e)[0], behind the check of the count
unfoldable pub only_child : Element → Result Element
only_child e = elim (element_children e) [ no_children ↦ faultf "no child" | child e' es ↦ ok e' ]

-- interpretFaultCode
unfoldable pub interpret_fault_code : Value → Result ℤ
interpret_fault_code v = elim (read_int v) [
  | ok i ↦ ok i
  | err e ↦ faultf "Invalid value for 'faultCode' member.  %s"
]

-- interpretFaultString
unfoldable pub interpret_fault_string : Value → Result Bytes
interpret_fault_string v = elim (read_string v) [
  | ok s ↦ ok s
  | err e ↦ faultf "Invalid value for 'faultString' member.  %s"
]

-- The members of the struct, in the order in which the source reads them.
unfoldable pub fault_members : Value → Result (ℤ × Bytes)
fault_members v = do
  code_value ← struct_read_value v (text "faultCode")
  code ← interpret_fault_code code_value
  string_value ← struct_read_value v (text "faultString")
  fault_string ← interpret_fault_string string_value
  ok (code, fault_string)

-- interpretFaultValue
unfoldable pub interpret_fault_value : Value → Result (ℤ × Bytes)
unfolding fault_members
interpret_fault_value (struct ms) = elim (fault_members (struct ms)) [
  | ok r ↦ ok r
  | err e ↦ fault parse_error "Invalid struct for <fault> value.  %s"
]
interpret_fault_value v =
    fault parse_error "<value> element of <fault> response is not of structure type"

-- What a valid response says: the result, or the fault.
pub data Response : Type 0 where
  success : Value → Response
  failure : ℤ → Bytes → Response

module _ (fl : FloatOps) (nesting_limit : ℕ) where
  -- The value of one <param>.
  unfoldable pub param_value : Element → Result Value
  param_value param = do
    validate_name param "param"
    validate_child_count param 1
    value_elt ← only_child param
    validate_name value_elt "value"
    parse_value fl nesting_limit value_elt

  -- One round of the loop of convertParams. The loop goes on after a fault, and a later child with
  -- another name replaces the fault.
  unfoldable pub convert_param : Result Value → Element → Result Value
  convert_param (ok arr) param = do item ← param_value param; array_append_item arr item
  convert_param (err e) param =
      if not (str_eq "param" (element_name param))
      then fault parse_error "Expected element of type <%s>, found <%s>"
      else err e

  unfoldable pub convert_param_list : Result Value → Elements → Result Value
  convert_param_list arr no_children = arr
  convert_param_list arr (child e es) = convert_param_list (convert_param arr e) es

  -- convertParams
  unfoldable pub convert_params : Element → Result Value
  unfolding convert_param_list
  convert_params e = do
    validate_name e "params"
    convert_param_list (ok array_new) (element_children e)

  -- parseMethodNameElement
  unfoldable pub parse_method_name_element : Element → Result Bytes
  parse_method_name_element e =
      if ltb 0 (children_size (element_children e))
      then fault parse_error
          "A <methodName> element should not have children.  This one has %u of them."
      else (do validate_utf8 (c_str (element_cdata e)); ok (c_str (element_cdata e)))

  -- The parameters, if there are any.
  unfoldable pub call_params : Element → Result Value
  unfolding convert_params
  call_params call_elem =
      if ltb 1 (children_size (element_children call_elem))
      then (do params ← get_child_by_name call_elem "params"; convert_params params)
      else ok array_new

  -- parseCallChildren
  unfoldable pub parse_call_children : Element → Result (Bytes × Value)
  unfolding call_params parse_method_name_element
  parse_call_children call_elem = do
    name_elem ← get_child_by_name call_elem "methodName"
    method_name ← parse_method_name_element name_elem
    param_array ← call_params call_elem
    if ltb 2 (children_size (element_children call_elem))
        then fault parse_error
            "<methodCall> has extraneous children, other than <methodName> and <params>.  Total child count = %u"
        else ok (method_name, param_array)

  -- parseFaultElement
  unfoldable pub parse_fault_element : Element → Result Response
  parse_fault_element e =
      if not (children_size (element_children e) == 1)
      then fault parse_error "<fault> element should have 1 child, but it has %u."
      else (do
        value_elt ← only_child e
        if not (str_eq (element_name value_elt) "value")
            then fault parse_error "<fault> contains a <%s> element.  Only <value> makes sense."
            else (do
              v ← parse_value fl nesting_limit value_elt
              f ← interpret_fault_value v
              ok (failure f.0 f.1)))

  -- parseParamsElement
  unfoldable pub parse_params_element : Element → Result Response
  unfolding convert_params
  parse_params_element e = do
    params ← convert_params e
    size ← array_size params
    if not (size == 1)
        then fault parse_error "Contains %d items.  It should have 1."
        else (do v ← array_read_item params 0; ok (success v))

  -- parseMethodResponseElt
  unfoldable pub parse_method_response_elt : Element → Result Response
  unfolding parse_params_element parse_fault_element
  parse_method_response_elt e =
      if children_size (element_children e) == 1
      then (do
        e' ← only_child e
        if str_eq (element_name e') "params"
            then parse_params_element e'
            else if str_eq (element_name e') "fault"
            then parse_fault_element e'
            else fault parse_error
                "<methodResponse> must contain <params> or <fault>, but contains <%s>.")
      else fault parse_error "<methodResponse> has %u children, should have 1."

  module _ (xml_parse : Bytes → Result Element) (xml_size_limit : ℕ) where
    -- parseCallXml
    unfoldable pub parse_call_xml : Bytes → Result Element
    parse_call_xml xml_data = elim (xml_parse xml_data) [
      | err e ↦ fault e.code "Call is not valid XML.  %s"
      | ok call_elem ↦
          if not (str_eq (element_name call_elem) "methodCall")
          then fault parse_error
              "XML-RPC call should be a <methodCall> element.  Instead, we have a <%s> element."
          else ok call_elem
    ]

    -- xmlrpc_parse_call
    unfoldable pub parse_call : Bytes → Result (Bytes × Value)
    unfolding parse_call_xml parse_call_children
    parse_call xml_data =
        if ltb xml_size_limit (length xml_data)
        then fault limit_exceeded_error "XML-RPC request too large.  Max allowed is %u bytes"
        else (do call_elem ← parse_call_xml xml_data; parse_call_children call_elem)

    -- xmlrpc_parse_response2
    unfoldable pub parse_response2 : Bytes → Result Response
    unfolding parse_method_response_elt
    parse_response2 xml_data =
        if ltb xml_size_limit (length xml_data)
        then fault limit_exceeded_error
            "XML-RPC response too large.  Our limit is %u characters.  We got %u characters"
        else elim (xml_parse xml_data) [
          | err e ↦ fault parse_error "Not valid XML.  %s"
          | ok e ↦
              if str_eq (element_name e) "methodResponse"
              then parse_method_response_elt e
              else fault parse_error
                  "XML-RPC response must consist of a <methodResponse> element.  This has a <%s> instead."
        ]
