-- ===== src/Tests/Rpc.antt =====
-- Calls of a small server: system.multicall, the answer to a text that is no call, and a call from its client
-- and back.
use xml_rpc.Prelude.{
  ℕ, ◌+◌, ◌≡◌, refl, List, [], ◌∷◌, Bytes, codes, text, arith, pos, decimal, if◌then◌else◌, get_or,
  ◌==◌, All,
}
use xml_rpc.Fault.{Fault, Result, ok, err, fault, request_refused_error}
use xml_rpc.Utf8.{validate_utf8, utf8_to_wcs, decode_loop, decode_char}
use xml_rpc.Element.{Element}
use xml_rpc.Value.{Value, int, nil, array, Values, no_items, item}
use xml_rpc.Value.Strings.{has_cr, verify_no_nulls}
use xml_rpc.Serialize.{dialect_i8}
use xml_rpc.Document.{element_of}
use xml_rpc.Document.Pieces.{join_items}
use xml_rpc.ParseCall.Documents.{call_nodes, response_nodes}
use xml_rpc.Registry.System.{system_multicall}
use xml_rpc.Registry.Multicall.{
  IsCallable, HasText, description, descriptions, run_all, result_values, system_multicall-run_all,
  system_multicall-recursive,
}
use xml_rpc.Tests.Registry.{tick_name}

abbrev two_calls : List (Bytes × Values)
two_calls = (tick_name, no_items) ∷ (codes "tock", item nil no_items) ∷ []

-- A dispatch that knows `tick` only.
abbrev count_calls : Bytes → Value → ℕ → Result Value × ℕ
count_calls name params calls = (
  if get_or name 1 0 == b'i'
      then ok (int (pos calls))
      else err (record { code = pos 4; text = codes "tock" }),
  calls + 1,
)

two_calls-IsCallable : All IsCallable two_calls
unfolding validate_utf8 utf8_to_wcs decode_loop decode_char has_cr verify_no_nulls
two_calls-IsCallable =
    ((((refl, refl), refl), λ e. ground arith), ((((refl, refl), refl), λ e. ground arith), tt))

two_calls-HasText : All HasText (run_all count_calls two_calls 5).0
unfolding validate_utf8 utf8_to_wcs decode_loop decode_char has_cr verify_no_nulls
two_calls-HasText = (tt, (((refl, refl), refl), tt))

multicall_example :
    system_multicall count_calls (array (item (array (descriptions two_calls)) no_items)) 5 ≡ (
      ok (
          array (
            result_values
              (ok (int (pos 5)) ∷ err (record { code = pos 4; text = codes "tock" }) ∷ []))),
      7,
    )
multicall_example =
    system_multicall-run_all count_calls two_calls 5 two_calls-IsCallable two_calls-HasText

recursive_example :
    system_multicall count_calls
      (array (
        item
          (array (
            join_items
              (descriptions two_calls)
              (item (description (codes "system.multicall") no_items) no_items)))
          no_items))
      5
    ≡ (fault request_refused_error "Recursive system.multicall forbidden", 7)
recursive_example =
    system_multicall-recursive count_calls two_calls no_items no_items 5 two_calls-IsCallable
      two_calls-HasText

-- A parser that takes every text for the same call.
abbrev ticking : Bytes → Result (Bytes × Value)
ticking xml = ok (tick_name, array no_items)

-- <methodCall> and <methodResponse> differ at this place.
abbrev two_documents : Bytes → Result Element
two_documents xml =
    if get_or xml 47 0 == b'C'
    then ok (element_of "methodCall" (call_nodes decimal dialect_i8 tick_name no_items))
    else ok (element_of "methodResponse" (response_nodes decimal dialect_i8 (int (pos 5))))
