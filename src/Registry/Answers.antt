-- ===== src/Registry/Answers.antt =====
-- The document that answers a call: xmlrpc_registry_process_call2 of xmlrpc-c/src/registry.c on the outcome of
-- dispatching it.
use xml_rpc.Prelude.{subst, sym, ℕ, suc, ◌≡◌, refl, ◌∙◌, Bytes, arith, All}
use xml_rpc.Fault.{message, Fault, Result, ok, err, fault, parse_error}
use xml_rpc.Utf8.{validate_utf8, utf8_to_wcs, decode_loop, decode_char}
use xml_rpc.Value.{Value, string}
use xml_rpc.Value.Strings.{
  verify_no_nulls, has_cr, string_block, string_new_lp, string_new_cr_treatment, cr_is_linedelim,
}
use xml_rpc.Value.Strings.Lines.{string_new_lp_lem}
use xml_rpc.Utf8.Chars.{IsByte}
use xml_rpc.Serialize.{fault_struct, Dialect, dialect_i8}
use xml_rpc.ParseScalar.Range.{IsLines, IsSigned}
use xml_rpc.ParseValue.Shape.{Fits}
use xml_rpc.Document.{Nodes}
use xml_rpc.Document.Scalars.{IsExact}
use xml_rpc.ParseCall.{Response, success, failure}
use xml_rpc.ParseCall.Documents.{response_nodes, fault_nodes}
use xml_rpc.ParseCall.Faults.{fault_value, fault_struct-string, fault_struct_lem, fault_value-Fits}
use xml_rpc.ParseCall.Printed.{document, serialize_response2-document, serialize_fault-document}
use xml_rpc.Registry.{Registry}
use xml_rpc.Registry.Reachable.{ok_injective}
use xml_rpc.Registry.System.{Version}
use xml_rpc.Registry.Dispatch.{serialize_call_fault, serialize_outcome}

-- An outcome that goes to the other side and back unchanged.
abbrev pub IsSendable : ℕ → Result Value → Type 0
IsSendable n (ok v) = Fits (suc (suc n)) v × IsExact v
IsSendable n (err f) = IsSigned 31 f.code × IsLines f.text × (verify_no_nulls f.text ≡ ok tt)

-- An outcome that the server can send: a value that the parser may yield, with any `double`, or a
-- fault with a code of 32 bits and a text in UTF-8.
abbrev pub IsAnswerable : ℕ → Result Value → Type 0
IsAnswerable n (ok v) = Fits (suc (suc n)) v
IsAnswerable n (err f) = IsSigned 31 f.code × All IsByte f.text × (validate_utf8 f.text ≡ ok tt)

-- The outcome with the line ends that a string has.
abbrev pub as_sent : Result Value → Result Value
as_sent (ok v) = ok v
as_sent (err f) = err (record { code = f.code; text = string_block cr_is_linedelim f.text })

string_injective : {x y : Bytes} → string x ≡ string y → x ≡ y
string_injective h = cc

string_block_lem :
    (bytes : Bytes)
    → All IsByte bytes
    → validate_utf8 bytes ≡ ok tt
    → (string_new_lp bytes ≡ ok (string (string_block cr_is_linedelim bytes)))
      × IsLines (string_block cr_is_linedelim bytes)
unfolding string_new_lp string_new_cr_treatment
string_block_lem bytes h valid =
    let (block, run, plain, valid', same) = string_new_lp_lem bytes h valid in
    let made : string_new_lp bytes ≡ ok (string (string_block cr_is_linedelim bytes)) =
      rw valid refl in
    (made, subst IsLines (string_injective (ok_injective (sym run ∙ made))) (valid', plain))

-- What the client is to learn.
abbrev pub response_of : Result Value → Response
response_of (ok v) = success v
response_of (err f) = failure f.code f.text

module _ (float_text : ℕ → Bytes) (dialect : Dialect) where
  -- The document that carries an outcome.
  abbrev pub answer_dialect : Result Value → Dialect
  answer_dialect (ok v) = dialect
  answer_dialect (err f) = dialect_i8

  abbrev pub answer_nodes : Result Value → Nodes
  answer_nodes (ok v) = response_nodes float_text dialect v
  answer_nodes (err f) = fault_nodes float_text dialect_i8 (fault_value f.code f.text)

  abbrev pub answer : Result Value → Bytes
  answer outcome = document (answer_dialect outcome) "methodResponse" (answer_nodes outcome)

module _ (float_text : ℕ → Bytes) {World CallInfo : Type 0} (version : Version)
    (registry : Registry World CallInfo) where
  serialize_fault-answer :
      (n : ℕ) (f : Fault) (block : Bytes)
      → fault_struct f ≡ ok (fault_value f.code block)
      → IsSigned 31 f.code
      → IsLines block
      → serialize_outcome version registry (λ d. ok (float_text d)) (err f)
        ≡ ok (answer float_text registry.dialect (err (record { code = f.code; text = block })))
  unfolding serialize_outcome serialize_call_fault
  serialize_fault-answer n f block made signed lines =
      rw
        (
          serialize_fault-document float_text (suc (suc n)) f (fault_value f.code block) made
              (fault_value-Fits n f.code block signed lines),
          serialize_call_fault,
        )
        refl

  pub serialize_outcome-as_sent :
      (n : ℕ) (outcome : Result Value)
      → IsAnswerable n outcome
      → serialize_outcome version registry (λ d. ok (float_text d)) outcome
        ≡ ok (answer float_text registry.dialect (as_sent outcome))
  unfolding serialize_outcome
  serialize_outcome-as_sent n (ok v) fits =
      serialize_response2-document float_text registry.dialect (suc (suc n)) v fits
  serialize_outcome-as_sent n (err f) (signed, octets, valid) =
      let (made, lines) = string_block_lem f.text octets valid in
      serialize_fault-answer n f (string_block cr_is_linedelim f.text)
        (fault_struct-string f (string_block cr_is_linedelim f.text) made) signed lines

  pub serialize_outcome-answer :
      (n : ℕ) (outcome : Result Value)
      → IsSendable n outcome
      → serialize_outcome version registry (λ d. ok (float_text d)) outcome
        ≡ ok (answer float_text registry.dialect outcome)
  unfolding serialize_outcome
  serialize_outcome-answer n (ok v) s =
      serialize_response2-document float_text registry.dialect (suc (suc n)) v s.0
  serialize_outcome-answer n (err f) s =
      serialize_fault-answer n f f.text (fault_struct_lem f s.1) s.0 s.1

  pub refusal-IsAnswerable :
      (n : ℕ) → IsAnswerable n (fault parse_error "Call XML not a proper XML-RPC call.  %s")
  unfolding validate_utf8 utf8_to_wcs decode_loop decode_char has_cr verify_no_nulls message
  refusal-IsAnswerable n = (omega arith, ground arith, refl)
