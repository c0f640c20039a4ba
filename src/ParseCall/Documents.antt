-- ===== src/ParseCall/Documents.antt =====
-- xmlrpc-c/src/xmlrpc_parse.c reads calls and responses from the elements of their documents. The documents
-- are those that xmlrpc_serialize_call2, xmlrpc_serialize_response2 and xmlrpc_serialize_fault of
-- xmlrpc-c/src/xmlrpc_serialize.c write.
use xml_rpc.Prelude.{ℕ, ◌≡◌, refl, sym, ap, ◌∙◌, true, [], ◌++◌, Bytes, append-nil, c_str, text, ℤ}
use xml_rpc.Fault.{ok, ◌>>=◌}
use xml_rpc.Utf8.{validate_utf8}
use package.text.Mathlib.Text.{◌==◌ as str_eq}
use xml_rpc.Element.{Element, element, element_name, no_children, child}
use xml_rpc.Value.{Value, array, Values, no_items, item}
use xml_rpc.Value.Arrays.{array_append_item, append_item, array_size, array_read_item, get_item}
use xml_rpc.Serialize.{Dialect}
use xml_rpc.ParseScalar.Double.{FloatOps}
use xml_rpc.ParseValue.{parse_value}
use xml_rpc.ParseValue.Shape.{Fits, AllFit}
use xml_rpc.Document.{
  Node, elem, chars, Nodes, no_nodes, node, one, eol, cdata_of, elements_of, element_of,
  content_node,
}
use xml_rpc.Document.Scalars.{IsExact, AllExact}
use xml_rpc.Document.Pieces.{join_items, join_items-append, join_items-no_items}
use xml_rpc.Document.Parsed.{parse_value-content_node}
use xml_rpc.ParseCall.{
  validate_name, validate_child_count, child_by_name, get_child_by_name, only_child, param_value,
  convert_param, convert_param_list, convert_params, parse_method_name_element, call_params,
  parse_call_children, success, failure, parse_params_element, parse_fault_element,
  parse_method_response_elt, interpret_fault_value,
}

module _ (float_text : ℕ → Bytes) (dialect : Dialect) where
  abbrev pub value_node : Value → Node
  value_node v = elem "value" (one (content_node float_text dialect v))

  unfoldable pub param_nodes : Values → Nodes
  param_nodes no_items = no_nodes
  param_nodes (item v vs) = node (elem "param" (one (value_node v))) (node eol (param_nodes vs))

  abbrev pub params_node : Values → Node
  params_node vs = elem "params" (node eol (param_nodes vs))

  abbrev pub call_nodes : Bytes → Values → Nodes
  call_nodes method_name params = node eol (
      node (elem "methodName" (one (chars method_name)))
        (node eol (node (params_node params) (one eol))))

  abbrev pub response_nodes : Value → Nodes
  response_nodes v = node eol (node (params_node (item v no_items)) (one eol))

  abbrev pub fault_nodes : Value → Nodes
  fault_nodes v =
      node eol (node (elem "fault" (node eol (node (value_node v) (one eol)))) (one eol))

  module _ (fl : FloatOps) (nesting_limit : ℕ) where
    param_value_lem :
        (v : Value)
        → Fits nesting_limit v
        → IsExact v
        → param_value fl nesting_limit (element_of "param" (one (value_node v))) ≡ ok v
    unfolding param_value validate_name validate_child_count only_child elements_of
    param_value_lem v f e = parse_value-content_node float_text dialect fl nesting_limit v f e

    convert_param_list_lem :
        (acc vs : Values)
        → AllFit nesting_limit vs
        → AllExact vs
        → convert_param_list fl nesting_limit (ok (array acc)) (elements_of (param_nodes vs))
          ≡ ok (array (join_items acc vs))
    unfolding convert_param_list convert_param param_nodes elements_of AllFit AllExact
        array_append_item
    convert_param_list_lem acc no_items f e =
        ap (λ vs. ok (array vs)) (sym (join_items-no_items acc))
    convert_param_list_lem acc (item v vs) f e =
        ap
          (λ r.
            convert_param_list fl nesting_limit (r >>= λ i. array_append_item (array acc) i)
              (elements_of (param_nodes vs)))
          (param_value_lem v f.0 e.0)
        ∙ convert_param_list_lem (append_item acc v) vs f.1 e.1
        ∙ ap (λ w. ok (array w)) (join_items-append acc vs v)

    convert_params_lem :
        (vs : Values)
        → AllFit nesting_limit vs
        → AllExact vs
        → convert_params fl nesting_limit (element_of "params" (node eol (param_nodes vs)))
          ≡ ok (array vs)
    unfolding convert_params validate_name elements_of join_items
    convert_params_lem vs f e = convert_param_list_lem no_items vs f e

    parse_method_name_element_lem :
        (method_name : Bytes)
        → c_str method_name ≡ method_name
        → validate_utf8 method_name ≡ ok tt
        → parse_method_name_element fl nesting_limit
            (element_of "methodName" (one (chars method_name)))
          ≡ ok method_name
    unfolding parse_method_name_element elements_of cdata_of
    parse_method_name_element_lem method_name c u =
        let same : c_str (method_name ++ []) ≡ method_name =
          ap c_str (append-nil method_name) ∙ c in
        ap (λ s. validate_utf8 s >>= λ _. ok s) same ∙ ap (λ r. r >>= λ _. ok method_name) u

    -- A call is read back from the elements of its document: the method name, if it is valid UTF-8
    -- without NUL, and the parameters, if they are values that the parser may yield, nested within
    -- the limit, with base64 of bytes, years of four digits and no `double` in them.
    pub parse_call_children-call_nodes :
        (method_name : Bytes) (params : Values)
        → c_str method_name ≡ method_name
        → validate_utf8 method_name ≡ ok tt
        → AllFit nesting_limit params
        → AllExact params
        → parse_call_children fl nesting_limit
            (element_of "methodCall" (call_nodes method_name params))
          ≡ ok (method_name, array params)
    unfolding parse_call_children get_child_by_name child_by_name call_params elements_of
    parse_call_children-call_nodes method_name params c u f e =
        ap
          (λ r. r >>= λ m.
            convert_params fl nesting_limit (element_of "params" (node eol (param_nodes params)))
            >>= λ ps. ok (m, ps))
          (parse_method_name_element_lem method_name c u)
        ∙ ap (λ r. r >>= λ ps. ok (method_name, ps)) (convert_params_lem params f e)

    parse_params_element_lem :
        (e : Element) (v : Value)
        → convert_params fl nesting_limit e ≡ ok (array (item v no_items))
        → parse_params_element fl nesting_limit e ≡ ok (success v)
    unfolding parse_params_element array_size array_read_item get_item
    parse_params_element_lem e v h = rw h refl

    -- A response with a result is read back from the elements of its document, if the result is a
    -- value that the parser may yield, nested within the limit, with base64 of bytes, years of four
    -- digits and no `double` in it.
    pub parse_method_response_elt-response_nodes :
        (v : Value)
        → Fits nesting_limit v
        → IsExact v
        → parse_method_response_elt fl nesting_limit
            (element_of "methodResponse" (response_nodes v))
          ≡ ok (success v)
    unfolding parse_method_response_elt only_child elements_of AllFit AllExact
    parse_method_response_elt-response_nodes v f e =
        parse_params_element_lem (element_of "params" (node eol (param_nodes (item v no_items)))) v
          (convert_params_lem (item v no_items) (f, tt) (e, tt))

    pub parse_fault_element_lem :
        (e : Element) (code : ℤ) (fault_string : Bytes) (v : Value)
        → parse_value fl nesting_limit e ≡ ok v
        → interpret_fault_value v ≡ ok (code, fault_string)
        → str_eq (element_name e) "value" ≡ true
        → (cdata : Bytes)
        → parse_fault_element fl nesting_limit (element "fault" cdata (child e no_children))
          ≡ ok (failure code fault_string)
    unfolding parse_fault_element only_child
    parse_fault_element_lem e code fault_string v h i n cdata = rw n (rw h (rw i refl))
