-- ===== src/Tests/Parse.antt =====
-- xmlrpc-c/src/parse_value.c at concrete elements.
use xml_rpc.Prelude.{◌≡◌, refl, [], codes, arith, neg, false}
use xml_rpc.Fault.{ok, is_ok}
use xml_rpc.Element.{Element, element, no_children, child}
use xml_rpc.Value.{int, array, item, no_items}
use xml_rpc.Value.Arrays.{array_append_item}
use xml_rpc.Number.{skip_space, read_digits, strtol, strtol_sign, strtol_digits, signed_long}
use xml_rpc.ParseScalar.{parse_int, check_int, parse_simple_value_cdata, parse_kind}
use xml_rpc.ParseScalar.Double.{FloatOps}
use xml_rpc.ParseScalar.Range.{Yields, IsScalar, parse_simple_value_cdata-Yields}
use xml_rpc.ParseValue.{
  parse_value, parse_value_content, parse_typed, parse_array, parse_array_items,
  parse_array_data_child, parse_simple_value,
}
use xml_rpc.ParseValue.Shape.{HasBytes, Fits}
use xml_rpc.ParseValue.Bounded.{parse_value-Yields}

-- A `double` that only counts.
abbrev pub counting : FloatOps
counting = record {
  zero_value = 0;
  ten = 10;
  tenth = 0;
  of_int = λ n. n;
  add = λ a b. Prim.Native.Nat.◌+◌ a b;
  mul = λ a b. Prim.Native.Nat.◌*◌ a b;
  negate = λ a. a;
  exceeds_max = λ a. false;
  strtod = λ s. record { value = 0; tail = s; is_errno = false };
}

-- <value><array><data><value><int>-7</int></value></data></array></value>
abbrev int_element : Element
int_element = element "int" (codes "-7") no_children

abbrev item_element : Element
item_element = element "value" [] (child int_element no_children)

abbrev array_element : Element
array_element = element "value" [] (
    child
      (element "array" [] (child (element "data" [] (child item_element no_children)) no_children))
      no_children)

array_element-HasBytes : HasBytes array_element
unfolding HasBytes
array_element-HasBytes = ground arith

parse_int_test : parse_int (codes "-7") ≡ ok (int (neg 7))
unfolding parse_int check_int strtol strtol_sign strtol_digits signed_long skip_space read_digits
parse_int_test = refl

parse_array_test : parse_value counting 2 array_element ≡ ok (array (item (int (neg 7)) no_items))
unfolding parse_value parse_value_content parse_typed parse_array parse_array_items
    parse_array_data_child parse_simple_value parse_simple_value_cdata parse_kind parse_int
    check_int strtol strtol_sign strtol_digits signed_long skip_space read_digits array_append_item
parse_array_test = refl

too_deep_test : is_ok (parse_value counting 1 array_element) ≡ false
unfolding parse_value parse_value_content parse_typed parse_array parse_array_items
    parse_array_data_child
too_deep_test = refl

parse_value_example : Yields (Fits 2) (parse_value counting 2 array_element)
parse_value_example = parse_value-Yields counting 2 array_element array_element-HasBytes

simple_value_example : Yields IsScalar (parse_simple_value_cdata counting "i4" (codes "-7"))
simple_value_example = parse_simple_value_cdata-Yields counting "i4" (codes "-7") (ground arith)
