-- ===== src/ParseCall/Merged.antt =====
-- xmlrpc-c/src/xmlrpc_parse.c: responses where a failed call is a fault of the parser's own, and the document of
-- a single value. Where an assertion on the text of a fault would fail, the fault has a text of this model.
use package.text.Mathlib.Text.{◌==◌ as str_eq}
use xml_rpc.Prelude.{ℕ, if◌then◌else◌, Bytes, none, some}
use xml_rpc.Fault.{Result, ok, err, parse_error, fault, faultf, ◌>>=◌}
use xml_rpc.Env.{env_set_fault}
use xml_rpc.Element.{Element, element_name}
use xml_rpc.Value.{Value}
use xml_rpc.ParseScalar.Double.{FloatOps}
use xml_rpc.ParseValue.{parse_value}
use xml_rpc.ParseCall.{success, failure, parse_response2}

module _ (fl : FloatOps) (nesting_limit : ℕ) (xml_parse : Bytes → Result Element) where
  -- xmlrpc_parse_response
  unfoldable pub parse_response : ℕ → Bytes → Result Value
  parse_response xml_size_limit xml_data =
      parse_response2 fl nesting_limit xml_parse xml_size_limit xml_data >>= (λ response.
        elim response [
          | success result ↦ ok result
          | failure fault_code fault_string ↦ elim (env_set_fault fault_code fault_string) [
            | some f ↦ err f
            | none ↦ faultf "assertion failed"
          ]
        ])

  -- xmlrpc_parse_value_xml
  unfoldable pub parse_value_xml : Bytes → Result Value
  parse_value_xml xml_data = elim (xml_parse xml_data) [
    | err e ↦ fault parse_error "Not valid XML.  %s"
    | ok e ↦
        if str_eq (element_name e) "value"
        then parse_value fl nesting_limit e
        else fault parse_error
            "XML-RPC value XML document must consist of a <value> element.  This has a <%s> instead."
  ]
