-- ===== src/ParseCall/Printed.antt =====
-- xmlrpc-c/src/xmlrpc_serialize.c writes calls, responses and faults as the text of their documents.
use xml_rpc.Prelude.{
  [], ℕ, ◌≡◌, refl, ap, ap₂, ◌∙◌, ◌++◌, Bytes, String, append-nil, append_assoc, text,
}
use xml_rpc.Fault.{Fault, Result, ok, ◌>>=◌}
use xml_rpc.Value.{Value, Values, no_items, item}
use xml_rpc.Serialize.{
  Dialect, dialect_i8, dialect_apache, end_line, escape_for_xml, format_out, xmlns, xml_prologue,
  serialize_param_items, serialize_params2, serialize_call2, serialize_response2, fault_struct,
  serialize_fault,
}
use xml_rpc.ParseValue.Shape.{Fits, AllFit}
use xml_rpc.Document.{elem, one, Nodes, closing, print, print_all, content_node}
use xml_rpc.Document.Printed.{serialize_value2-print}
use xml_rpc.ParseCall.Documents.{param_nodes, call_nodes, response_nodes, fault_nodes}

-- The text of a document: the prologue, and the root element, which has the name space of the
-- dialect.
abbrev pub document : Dialect → String → Nodes → Bytes
document dialect name ns =
    xml_prologue
    ++ (text "<"
        ++ text name
        ++ xmlns dialect
        ++ text ">"
        ++ print_all ns
        ++ closing name
        ++ end_line)

call_head :
    (dialect : Dialect)
    → format_out
        (text "<methodCall" ++ xmlns dialect ++ text ">" ++ end_line ++ text "<methodName>")
      ≡ ok (
          text "<"
          ++ text "methodCall"
          ++ xmlns dialect
          ++ text ">"
          ++ end_line
          ++ text "<methodName>")
unfolding format_out text xmlns end_line
call_head dialect_i8 = refl
call_head dialect_apache = refl

response_head :
    (dialect : Dialect)
    → format_out (
        text "<methodResponse"
        ++ xmlns dialect
        ++ text ">"
        ++ end_line
        ++ text "<params>"
        ++ end_line
        ++ text "<param>")
      ≡ ok (
          text "<"
          ++ text "methodResponse"
          ++ xmlns dialect
          ++ text ">"
          ++ end_line
          ++ text "<params>"
          ++ end_line
          ++ text "<param>")
unfolding format_out text xmlns end_line
response_head dialect_i8 = refl
response_head dialect_apache = refl

-- The same text, put together in another order.
param_text : (a v z e r : Bytes) → (((a ++ v) ++ z) ++ e) ++ r ≡ (a ++ ((v ++ []) ++ z)) ++ (e ++ r)
param_text a v z e r = simp (append_assoc, append-nil)

call_text :
    (p h e o n c ps i zs z : Bytes)
    → ((((((p ++ ((h ++ e) ++ o)) ++ n) ++ c) ++ e) ++ (((ps ++ e) ++ i) ++ zs ++ e)) ++ z) ++ e
      ≡ p
        ++ (h
            ++ (e ++ ((o ++ ((n ++ []) ++ c)) ++ (e ++ ((ps ++ ((e ++ i) ++ zs)) ++ (e ++ [])))))
            ++ z
            ++ e)
call_text p h e o n c ps i zs z = simp (append_assoc, append-nil)

response_text :
    (p h e ps o c q zs z : Bytes)
    → (((((((p ++ (((h ++ e) ++ ps) ++ e ++ o)) ++ c) ++ q) ++ e) ++ zs) ++ e) ++ z) ++ e
      ≡ p
        ++ (h
            ++ (e ++ ((ps ++ ((e ++ ((o ++ ((c ++ []) ++ q)) ++ (e ++ []))) ++ zs)) ++ (e ++ [])))
            ++ z
            ++ e)
response_text p h e ps o c q zs z = simp (append_assoc, append-nil)

fault_text :
    (p h e o c z t : Bytes)
    → ((((((((p ++ h) ++ e) ++ o) ++ e) ++ c) ++ e) ++ z) ++ e) ++ t ++ e
      ≡ p ++ (h ++ (e ++ ((o ++ ((e ++ (c ++ (e ++ []))) ++ z)) ++ (e ++ []))) ++ t ++ e)
fault_text p h e o c z t = simp (append_assoc, append-nil)

module _ (float_text : ℕ → Bytes) (dialect : Dialect) where
  abbrev written : ℕ → Result Bytes
  written d = ok (float_text d)

  param_items_lem :
      (n : ℕ) (vs : Values)
      → AllFit n vs
      → serialize_param_items written dialect vs
        ≡ ok (print_all (param_nodes float_text dialect vs))
  unfolding serialize_param_items param_nodes print AllFit text
  param_items_lem n no_items f = refl
  param_items_lem n (item v vs) f =
      ap₂
        (λ r q.
          r >>= λ c. q >>= λ rest. ok (text "<param>" ++ c ++ text "</param>" ++ end_line ++ rest))
        (serialize_value2-print float_text dialect n v f.0) (param_items_lem n vs f.1)
      ∙ ap ok (
          param_text (text "<param>")
            (print (elem "value" (one (content_node float_text dialect v)))) (text "</param>")
            end_line (print_all (param_nodes float_text dialect vs)))

  pub serialize_call2-document :
      (n : ℕ) (method_name : Bytes) (params : Values)
      → AllFit n params
      → serialize_call2 written dialect method_name params
        ≡ ok (document dialect "methodCall" (call_nodes float_text dialect method_name params))
  unfolding serialize_call2 serialize_params2 print text
  serialize_call2-document n method_name params f = rw (call_head dialect) (
      rw (param_items_lem n params f) (
        ap ok (
          call_text xml_prologue (text "<" ++ text "methodCall" ++ xmlns dialect ++ text ">")
            end_line (text "<methodName>") (escape_for_xml method_name) (text "</methodName>")
            (text "<params>") (print_all (param_nodes float_text dialect params)) (text "</params>")
            (text "</methodCall>"))))

  pub serialize_response2-document :
      (n : ℕ) (v : Value)
      → Fits n v
      → serialize_response2 written dialect v
        ≡ ok (document dialect "methodResponse" (response_nodes float_text dialect v))
  unfolding serialize_response2 print text param_nodes
  serialize_response2-document n v f = rw (response_head dialect) (
      rw (serialize_value2-print float_text dialect n v f) (
        ap ok (
          response_text xml_prologue
            (text "<" ++ text "methodResponse" ++ xmlns dialect ++ text ">") end_line
            (text "<params>") (text "<param>")
            (print (elem "value" (one (content_node float_text dialect v)))) (text "</param>")
            (text "</params>") (text "</methodResponse>"))))

pub serialize_fault-document :
    (float_text : ℕ → Bytes) (n : ℕ) (f : Fault) (v : Value)
    → fault_struct f ≡ ok v
    → Fits n v
    → serialize_fault (λ d. ok (float_text d)) f
      ≡ ok (document dialect_i8 "methodResponse" (fault_nodes float_text dialect_i8 v))
unfolding serialize_fault print text xmlns
serialize_fault-document float_text n f v h fits = rw h (
    rw (serialize_value2-print float_text dialect_i8 n v fits) (
      ap ok (
        fault_text xml_prologue (text "<methodResponse>") end_line (text "<fault>")
          (print (elem "value" (one (content_node float_text dialect_i8 v)))) (text "</fault>")
          (text "</methodResponse>"))))
