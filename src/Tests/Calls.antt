-- ===== src/Tests/Calls.antt =====
-- xmlrpc-c/src/xmlrpc_parse.c on concrete calls and responses.
use xml_rpc.Prelude.{
  ◌≡◌, refl, [], ◌∷◌, inl, arith, Bytes, codes, neg, decimal, true, false, ltb, length,
}
use xml_rpc.Fault.{Fault, Result, ok, parse_error, fault, IsFault}
use xml_rpc.Utf8.{validate_utf8, utf8_to_wcs, decode_loop, decode_char}
use xml_rpc.Element.{Element, element, no_children, child}
use xml_rpc.Value.{Value, int, bool, nil, array, Values, no_items, item}
use xml_rpc.Value.Strings.{has_cr, verify_no_nulls}
use xml_rpc.Serialize.{dialect_i8, fault_struct}
use xml_rpc.ParseScalar.Range.{IsLines, Yields}
use xml_rpc.ParseValue.Shape.{Fits, AllFit, HasBytes}
use xml_rpc.Document.{element_of}
use xml_rpc.Document.Scalars.{IsExact, AllExact}
use xml_rpc.ParseCall.{
  limit_exceeded_error, parse_call_children, parse_method_response_elt, success, failure,
  parse_call,
}
use xml_rpc.ParseCall.Documents.{
  call_nodes, response_nodes, fault_nodes, parse_call_children-call_nodes,
  parse_method_response_elt-response_nodes,
}
use xml_rpc.ParseCall.Faults.{parse_method_response_elt-fault_nodes}
use xml_rpc.ParseCall.Bounded.{IsCall, parse_call-Yields}
use xml_rpc.Tests.Parse.{counting}

abbrev method : Bytes
method = codes "f.g"

abbrev two_params : Values
two_params = item (int (neg 7)) (item nil no_items)

method_valid : validate_utf8 method ≡ ok tt
unfolding validate_utf8 utf8_to_wcs decode_loop decode_char
method_valid = refl

two_params-AllFit : AllFit 1 two_params
unfolding AllFit Fits
two_params-AllFit = (omega arith, (tt, tt))

two_params-AllExact : AllExact two_params
unfolding AllExact IsExact
two_params-AllExact = (tt, (tt, tt))

call_example :
    parse_call_children counting 1
      (element_of "methodCall" (call_nodes decimal dialect_i8 method two_params))
    ≡ ok (method, array two_params)
call_example =
    parse_call_children-call_nodes decimal dialect_i8 counting 1 method two_params refl method_valid
      two_params-AllFit two_params-AllExact

true-Fits : Fits 1 (bool true)
unfolding Fits
true-Fits = tt

true-IsExact : IsExact (bool true)
unfolding IsExact
true-IsExact = tt

response_example :
    parse_method_response_elt counting 1
      (element_of "methodResponse" (response_nodes decimal dialect_i8 (bool true)))
    ≡ ok (success (bool true))
response_example =
    parse_method_response_elt-response_nodes decimal dialect_i8 counting 1 (bool true) true-Fits
      true-IsExact

abbrev too_hot : Fault
too_hot = record { code = neg 3; text = codes "too hot" }

too_hot-IsLines : IsLines (codes "too hot")
unfolding validate_utf8 utf8_to_wcs decode_loop decode_char has_cr
too_hot-IsLines = (refl, refl)

too_hot_no_nulls : verify_no_nulls (codes "too hot") ≡ ok tt
unfolding verify_no_nulls
too_hot_no_nulls = refl

fault_example :
    (v : Value) × (fault_struct too_hot ≡ ok v)
    × (parse_method_response_elt counting 2
          (element_of "methodResponse" (fault_nodes decimal dialect_i8 v))
        ≡ ok (failure too_hot.code too_hot.text))
fault_example =
    parse_method_response_elt-fault_nodes decimal dialect_i8 counting too_hot 0 (omega arith)
      too_hot-IsLines too_hot_no_nulls

-- <methodCall><methodName>f.g</methodName></methodCall>, whatever the text is; nothing is an error.
abbrev sample_parse : Bytes → Result Element
sample_parse [] = fault parse_error "no element found"
sample_parse (c ∷ xml_data) =
    ok (element "methodCall" [] (child (element "methodName" method no_children) no_children))

sample_parse-Yields : (xml_data : Bytes) → Yields HasBytes (sample_parse xml_data)
unfolding HasBytes
sample_parse-Yields [] = inl refl
sample_parse-Yields (c ∷ xml_data) = ground arith

parse_call_example :
    (ltb 100 (length (codes "<methodCall/>")) ≡ true
      → IsFault limit_exceeded_error
          (parse_call counting 64 sample_parse 100 (codes "<methodCall/>")))
    × (ltb 100 (length (codes "<methodCall/>")) ≡ false
        → Yields (IsCall 64) (parse_call counting 64 sample_parse 100 (codes "<methodCall/>")))
parse_call_example =
    parse_call-Yields counting 64 sample_parse 100 sample_parse-Yields (codes "<methodCall/>")
