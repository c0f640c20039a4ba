-- ===== src/ParseCall/Bounded.antt =====
-- What xmlrpc_parse_call of xmlrpc-c/src/xmlrpc_parse.c can yield.
use xml_rpc.Prelude.{
  ℕ, ◌≡◌, refl, inl, inr, Bool, true, false, arith, Bytes, String, Bool-cases, ltb, length, c_str,
  if◌then◌else◌,
}
use xml_rpc.Fault.{Result, ok, err, parse_error, fault, ◌>>=◌, Result-cases, IsFault}
use xml_rpc.Utf8.{validate_utf8}
use xml_rpc.Utf8.Faults.{validate_utf8-FailsWith}
use xml_rpc.Element.{
  Element, Elements, no_children, child, element_cdata, element_children, children_size,
}
use xml_rpc.Value.{Value, array, no_items}
use xml_rpc.ParseScalar.Double.{FloatOps}
use xml_rpc.ParseScalar.Range.{Yields, Yields-bind}
use xml_rpc.ParseValue.Shape.{HasBytes, HaveBytes, Fits, AllFit}
use xml_rpc.ParseValue.Pieces.{IsArray, array_append_item-Yields, element_children-HaveBytes}
use xml_rpc.ParseValue.Bounded.{parse_value-Yields}
use xml_rpc.ParseCall.{
  limit_exceeded_error, validate_name, validate_child_count, child_by_name, get_child_by_name,
  only_child, param_value, convert_param, convert_param_list, convert_params,
  parse_method_name_element, call_params, parse_call_children, parse_call_xml, parse_call,
}

child_by_name-Yields :
    (es : Elements) (name : String) → HaveBytes es → Yields HasBytes (child_by_name es name)
unfolding child_by_name HaveBytes
child_by_name-Yields no_children name h = inl refl
child_by_name-Yields (child e es) name h = ground (arith, child_by_name-Yields es name h.1)

get_child_by_name-Yields :
    (e : Element) (name : String) → HasBytes e → Yields HasBytes (get_child_by_name e name)
unfolding get_child_by_name
get_child_by_name-Yields e name h =
    child_by_name-Yields (element_children e) name (element_children-HaveBytes e h)

validate_name-Yields : (e : Element) (name : String) → Yields (λ _. Unit {0}) (validate_name e name)
unfolding validate_name
validate_name-Yields e name = ground arith

-- A child there is.
HasOne : Element → Type 0
HasOne e = children_size (element_children e) ≡ 1

validate_child_count-Yields : (e : Element) → Yields (λ _. HasOne e) (validate_child_count e 1)
unfolding validate_child_count HasOne
validate_child_count-Yields e = ground arith

first_child-Yields :
    (e : Element) (es : Elements)
    → element_children e ≡ es
    → HaveBytes es
    → children_size es ≡ 1
    → Yields HasBytes (only_child e)
unfolding only_child HaveBytes
first_child-Yields e no_children eq h one = absurd (omega arith)
first_child-Yields e (child e' es) eq h one = rw (eq, only_child) h.0

only_child-Yields : (e : Element) → HasBytes e → HasOne e → Yields HasBytes (only_child e)
unfolding HasOne
only_child-Yields e h one =
    first_child-Yields e (element_children e) refl (element_children-HaveBytes e h) one

-- A call: a name in UTF-8, and an array of values that nest within the limit.
abbrev pub IsCall : ℕ → Bytes × Value → Type 0
IsCall limit call = (validate_utf8 call.0 ≡ ok tt) × IsArray limit call.1

module _ (fl : FloatOps) (limit : ℕ) where
  param_value-Yields : (e : Element) → HasBytes e → Yields (Fits limit) (param_value fl limit e)
  unfolding param_value
  param_value-Yields e h =
      Yields-bind (λ _. Unit) (Fits limit) (validate_name e "param") _
        (validate_name-Yields e "param")
        (λ _ _.
          Yields-bind (λ _. HasOne e) (Fits limit) (validate_child_count e 1) _
            (validate_child_count-Yields e)
            (λ _ one.
              Yields-bind HasBytes (Fits limit) (only_child e) _ (only_child-Yields e h one)
                (λ e' h'.
                  Yields-bind (λ _. Unit) (Fits limit) (validate_name e' "value") _
                    (validate_name-Yields e' "value") (λ _ _. parse_value-Yields fl limit e' h'))))

  convert_param-Yields :
      (r : Result Value) (e : Element)
      → Yields (IsArray limit) r
      → HasBytes e
      → Yields (IsArray limit) (convert_param fl limit r e)
  unfolding convert_param
  convert_param-Yields (ok arr) e y h =
      Yields-bind (Fits limit) (IsArray limit) (param_value fl limit e) _ (param_value-Yields e h)
        (λ v f. array_append_item-Yields limit arr v y f)
  convert_param-Yields (err f) e y h = ground arith

  convert_param_list-Yields :
      (r : Result Value) (es : Elements)
      → Yields (IsArray limit) r
      → HaveBytes es
      → Yields (IsArray limit) (convert_param_list fl limit r es)
  unfolding convert_param_list HaveBytes
  convert_param_list-Yields r no_children y h = y
  convert_param_list-Yields r (child e es) y h =
      convert_param_list-Yields (convert_param fl limit r e) es (convert_param-Yields r e y h.0) h.1

  convert_params-Yields :
      (e : Element) → HasBytes e → Yields (IsArray limit) (convert_params fl limit e)
  unfolding convert_params AllFit
  convert_params-Yields e h =
      Yields-bind (λ _. Unit) (IsArray limit) (validate_name e "params") _
        (validate_name-Yields e "params")
        (λ _ _.
          convert_param_list-Yields (ok (array no_items)) (element_children e) tt
            (element_children-HaveBytes e h))

  method_name-Yields :
      (name : Bytes) → Yields (λ n. validate_utf8 n ≡ ok tt) (validate_utf8 name >>= λ _. ok name)
  method_name-Yields name = elim (Result-cases (validate_utf8 name)) [
    | inl (tt, valid) ↦ rw valid valid
    | inr (f, bad) ↦ rw bad (inr (rw bad at (validate_utf8-FailsWith name)))
  ]

  parse_method_name_element-Yields :
      (e : Element) → Yields (λ n. validate_utf8 n ≡ ok tt) (parse_method_name_element fl limit e)
  unfolding parse_method_name_element
  parse_method_name_element-Yields e =
      elim (Bool-cases (ltb 0 (children_size (element_children e)))) [
        | inl some_children ↦ rw some_children (inl refl)
        | inr none ↦ rw none (method_name-Yields (c_str (element_cdata e)))
      ]

  call_params-Yields : (e : Element) → HasBytes e → Yields (IsArray limit) (call_params fl limit e)
  unfolding call_params AllFit
  call_params-Yields e h = elim (Bool-cases (ltb 1 (children_size (element_children e)))) [
    | inl more ↦ rw more (
        Yields-bind HasBytes (IsArray limit) (get_child_by_name e "params") _
          (get_child_by_name-Yields e "params" h) (λ e' h'. convert_params-Yields e' h'))
    | inr one ↦ rw one tt
  ]

  extraneous-Yields :
      (extraneous : Bool) (complaint : String) (name : Bytes) (params : Value)
      → IsCall limit (name, params)
      → Yields
          (IsCall limit)
          (if extraneous then fault parse_error complaint else ok (name, params))
  extraneous-Yields true complaint name params h = inl refl
  extraneous-Yields false complaint name params h = h

  parse_call_children-Yields :
      (e : Element) → HasBytes e → Yields (IsCall limit) (parse_call_children fl limit e)
  unfolding parse_call_children
  parse_call_children-Yields e h =
      Yields-bind HasBytes (IsCall limit) (get_child_by_name e "methodName") _
        (get_child_by_name-Yields e "methodName" h)
        (λ e' h'.
          Yields-bind (λ n. validate_utf8 n ≡ ok tt) (IsCall limit)
            (parse_method_name_element fl limit e') _ (parse_method_name_element-Yields e')
            (λ name valid.
              Yields-bind (IsArray limit) (IsCall limit) (call_params fl limit e) _
                (call_params-Yields e h)
                (λ params arr.
                  extraneous-Yields (ltb 2 (children_size (element_children e))) _ name params
                    (valid, arr))))

  module _ (xml_parse : Bytes → Result Element) (xml_size_limit : ℕ)
      (xml_parse-Yields : (xml_data : Bytes) → Yields HasBytes (xml_parse xml_data)) where
    parse_call_xml-Yields :
        (xml_data : Bytes)
        → Yields HasBytes (parse_call_xml fl limit xml_parse xml_size_limit xml_data)
    unfolding parse_call_xml
    parse_call_xml-Yields xml_data = ground (arith, xml_parse-Yields xml_data)

    -- Text beyond the size limit fails with XMLRPC_LIMIT_EXCEEDED_ERROR. Within it, if xml_parse
    -- yields elements of bytes or fails with one of the two errors of a parser, the parser of calls
    -- yields a method name in valid UTF-8 and an array of parameters, values that XML-RPC can carry
    -- and that nest within the limit, or fails with XMLRPC_PARSE_ERROR or XMLRPC_INVALID_UTF8_ERROR.
    pub parse_call-Yields :
        (xml_data : Bytes)
        → (ltb xml_size_limit (length xml_data) ≡ true
            → IsFault limit_exceeded_error (parse_call fl limit xml_parse xml_size_limit xml_data))
          × (ltb xml_size_limit (length xml_data) ≡ false
              → Yields (IsCall limit) (parse_call fl limit xml_parse xml_size_limit xml_data))
    unfolding parse_call
    parse_call-Yields xml_data = (
      λ large. rw large (_, refl, refl),
      λ fits. rw fits (
          Yields-bind HasBytes (IsCall limit)
            (parse_call_xml fl limit xml_parse xml_size_limit xml_data) _
            (parse_call_xml-Yields xml_data) (λ e h. parse_call_children-Yields e h)),
    )
