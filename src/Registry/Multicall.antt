-- ===== src/Registry/Multicall.antt =====
-- xmlrpc-c/src/system_method.c: what system.multicall does with its list of calls.
use xml_rpc.Prelude.{
  zero, suc, ◌≡◌, refl, ap, sym, ◌∙◌, ◌≢◌, List, [], ◌∷◌, Bytes, inl, inr, All, Bool-cases, text,
  codes, c_str, arith,
}
use xml_rpc.Fault.{Result, ok, err, fault, request_refused_error}
use xml_rpc.Utf8.{validate_utf8, utf8_to_wcs, decode_loop, decode_char}
use xml_rpc.Value.{Value, array, struct, string, Values, no_items, item, no_members, member}
use xml_rpc.Value.Strings.{
  verify_no_nulls, has_cr, string_new_lp, read_string, access_string_value, validate_string_type,
}
use xml_rpc.Value.Arrays.{
  array_new, array_size, array_append_item, append_item, array_read_item, get_item,
}
use xml_rpc.Value.Structs.{
  hash_struct_key, hash_from, char_to_uint32, struct_set_value_v, set_member, find_member,
  find_from, is_key, memcmp_is_zero, add_new_member, append_member, struct_read_value,
  struct_find_value, found_value, get_member, required,
}
use xml_rpc.ParseScalar.Range.{IsLines}
use xml_rpc.Value.Structs.Lookup.{same_bytes_iff}
use xml_rpc.Document.Pieces.{
  string_new_lp_lines, join_items, join_items-append, join_items-no_items,
}
use xml_rpc.Decompose.{text_slot, value_slot, decompose_value_with_tree}
use xml_rpc.Decompose.Format.{decompose_value, create_decomp_tree, create_decomp_tree_next}
use xml_rpc.Build.{build_value, build_value_va, get_value}
use xml_rpc.ParseCall.Faults.{fault_value}
use xml_rpc.Registry.{Action, lift, and_then}
use xml_rpc.Registry.Method.{streq}
use xml_rpc.Registry.System.{
  call_description, call_result, get_meth_list, call_described, call_one_method, multicall_loop,
  system_multicall,
}

c_str-no_nulls : (s : Bytes) → verify_no_nulls s ≡ ok tt → c_str s ≡ s
unfolding verify_no_nulls
c_str-no_nulls [] h = refl
c_str-no_nulls (zero ∷ s) h = cc
c_str-no_nulls (suc c ∷ s) h = ap (◌∷◌ (suc c)) (c_str-no_nulls s (ground arith))

-- A text that a string value and a C string can hold.
abbrev pub IsText : Bytes → Type 0
IsText s = IsLines s × (verify_no_nulls s ≡ ok tt)

string_new_text : (s : Bytes) → IsText s → string_new_lp (c_str s) ≡ ok (string s)
string_new_text s t = ap string_new_lp (c_str-no_nulls s t.1) ∙ string_new_lp_lines s t.0

literals-IsText :
    IsText (codes "methodName")
    × IsText (codes "params")
    × IsText (codes "faultCode")
    × IsText (codes "faultString")
unfolding validate_utf8 utf8_to_wcs decode_loop decode_char has_cr verify_no_nulls
literals-IsText =
    (((refl, refl), refl), ((refl, refl), refl), ((refl, refl), refl), ((refl, refl), refl))

-- The struct for one call: xmlrpc_build_value(envP, "{s:s,s:A}", "methodName", ..., "params", ...)
abbrev pub description : Bytes → Values → Value
description name params = struct (
    member (hash_struct_key (codes "methodName")) (codes "methodName") (string name)
      (member (hash_struct_key (codes "params")) (codes "params") (array params) no_members))

pub build_description :
    (name : Bytes) (params : Values)
    → IsText name
    → build_value (text "{s:s,s:A}") (
        text_slot (text "methodName")
        ∷ text_slot name
        ∷ text_slot (text "params")
        ∷ value_slot (array params)
        ∷ [])
      ≡ ok (description name params)
unfolding build_value build_value_va get_value text struct_set_value_v set_member find_member
    find_from is_key add_new_member append_member hash_struct_key hash_from char_to_uint32
build_description name params t =
    rw (string_new_text (codes "methodName") literals-IsText.0)
      (rw (string_new_text name t) (rw (string_new_text (codes "params") literals-IsText.1) refl))

call_description_lem :
    (name : Bytes) (params : Values)
    → IsText name
    → call_description (description name params) ≡ ok (name, array params)
unfolding call_description decompose_value create_decomp_tree create_decomp_tree_next
    decompose_value_with_tree text struct_read_value struct_find_value required found_value
    get_member find_member find_from is_key memcmp_is_zero hash_struct_key hash_from char_to_uint32
    read_string access_string_value validate_string_type
call_description_lem name params t = rw t.1 refl

-- What stands for the outcome of a call: an array with the result, or a fault structure.
abbrev pub result_value : Result Value → Value
result_value (ok v) = array (item v no_items)
result_value (err f) = fault_value f.code f.text

-- The text of a fault, if it is one.
abbrev pub HasText : Result Value → Type 0
HasText (ok v) = Unit
HasText (err f) = IsText f.text

call_result_lem :
    (outcome : Result Value) → HasText outcome → call_result outcome ≡ ok (result_value outcome)
unfolding call_result build_value build_value_va get_value text struct_set_value_v set_member
    find_member find_from is_key add_new_member append_member hash_struct_key hash_from
    char_to_uint32 array_append_item append_item
call_result_lem (ok v) t = refl
call_result_lem (err f) t = rw (string_new_text (codes "faultCode") literals-IsText.2) (
    rw (string_new_text (codes "faultString") literals-IsText.3)
      (rw (string_new_text f.text t) refl))

abbrev pub Call : Type 0
Call = Bytes × Values

abbrev pub descriptions : List Call → Values
descriptions [] = no_items
descriptions (call ∷ calls) = item (description call.0 call.1) (descriptions calls)

abbrev pub result_values : List (Result Value) → Values
result_values [] = no_items
result_values (outcome ∷ outcomes) = item (result_value outcome) (result_values outcomes)

-- A name that system.multicall takes.
abbrev pub IsCallable : Call → Type 0
IsCallable call = IsText call.0 × (call.0 ≢ codes "system.multicall")

module _ {World : Type 0} (dispatch : Bytes → Value → Action World Value) where
  -- The calls one after the other, each in the state that the one before it has left.
  abbrev pub run_all : List Call → World → List (Result Value) × World
  run_all [] w = ([], w)
  run_all (call ∷ calls) w =
      let (outcome, w1) = dispatch call.0 (array call.1) w in
      let (outcomes, w2) = run_all calls w1 in (outcome ∷ outcomes, w2)

  described_lem :
      (call : Call) (w : World)
      → call.0 ≢ codes "system.multicall"
      → HasText (dispatch call.0 (array call.1) w).0
      → call_described dispatch (call.0, array call.1) w ≡ (
        ok (result_value (dispatch call.0 (array call.1) w).0),
        (dispatch call.0 (array call.1) w).1,
      )
  unfolding call_described text
  described_lem call w c t = elim (Bool-cases (streq call.0 (codes "system.multicall"))) [
    | inl same ↦ absurd (c ((same_bytes_iff call.0 (codes "system.multicall")).0 same))
    | inr other ↦
        rw (other, call_described)
          (ap (λ r. (r, (dispatch call.0 (array call.1) w).1))
            (call_result_lem (dispatch call.0 (array call.1) w).0 t))
  ]

  one_lem :
      (call : Call) (w : World)
      → IsCallable call
      → HasText (dispatch call.0 (array call.1) w).0
      → call_one_method dispatch (description call.0 call.1) w ≡ (
        ok (result_value (dispatch call.0 (array call.1) w).0),
        (dispatch call.0 (array call.1) w).1,
      )
  unfolding call_one_method
  one_lem call w c t =
      ap (λ r. and_then (r, w) (call_described dispatch)) (call_description_lem call.0 call.1 c.0)
      ∙ described_lem call w c.1 t

  -- The loop over calls that may be made, and what comes behind them.
  loop_lem :
      (calls : List Call) (rest acc : Values) (w : World)
      → All IsCallable calls
      → All HasText (run_all calls w).0
      → multicall_loop dispatch (array acc) (join_items (descriptions calls) rest) w
        ≡ multicall_loop dispatch
            (array (join_items acc (result_values (run_all calls w).0)))
            rest
            (run_all calls w).1
  unfolding multicall_loop join_items array_append_item
  loop_lem [] rest acc w c t =
      ap (λ a. multicall_loop dispatch (array a) rest w) (sym (join_items-no_items acc))
  loop_lem (call ∷ calls) rest acc w c t =
      let (outcome, w1) = dispatch call.0 (array call.1) w in
      ap
        (λ o.
          and_then (and_then o (λ r. lift (array_append_item (array acc) r)))
            (λ results. multicall_loop dispatch results (join_items (descriptions calls) rest)))
        (one_lem call w c.0 t.0)
      ∙ loop_lem calls rest (append_item acc (result_value outcome)) w1 c.1 t.1
      ∙ ap (λ a. multicall_loop dispatch (array a) rest (run_all calls w1).1)
          (join_items-append acc (result_values (run_all calls w1).0) (result_value outcome))

  recursive_lem :
      (params more acc : Values) (w : World)
      → multicall_loop dispatch
          (array (join_items no_items acc))
          (item (description (codes "system.multicall") params) more)
          w
        ≡ (fault request_refused_error "Recursive system.multicall forbidden", w)
  unfolding multicall_loop call_one_method call_described text verify_no_nulls validate_utf8
      utf8_to_wcs decode_loop decode_char has_cr
  recursive_lem params more acc w =
      ap
        (λ r.
          and_then
            (and_then (and_then (r, w) (call_described dispatch))
              (λ v. lift (array_append_item (array (join_items no_items acc)) v)))
            (λ results. multicall_loop dispatch results more))
        (call_description_lem (codes "system.multicall") params ((refl, refl), refl))

  meth_list_lem : (calls : Values) → get_meth_list (array (item (array calls) no_items)) ≡ ok calls
  unfolding get_meth_list array_size array_read_item get_item
  meth_list_lem calls = refl

  -- A list of calls, none of them of system.multicall, has one result for each call, in their order:
  -- an array with the result, or a fault structure. Every call is made in the state that the one
  -- before it has left, whether that has failed or not. The names and the texts of the faults are
  -- texts without CR and NUL.
  pub system_multicall-run_all :
      (calls : List (Bytes × Values)) (w : World)
      → All IsCallable calls
      → All HasText (run_all calls w).0
      → system_multicall dispatch (array (item (array (descriptions calls)) no_items)) w
        ≡ (ok (array (result_values (run_all calls w).0)), (run_all calls w).1)
  unfolding system_multicall multicall_loop join_items
  system_multicall-run_all calls w c t =
      ap (λ r. and_then (r, w) (λ list. multicall_loop dispatch array_new list))
        (meth_list_lem (descriptions calls))
      ∙ ap (λ list. multicall_loop dispatch array_new list w)
          (sym (join_items-no_items (descriptions calls)))
      ∙ loop_lem calls no_items no_items w c t

  -- A call of system.multicall among the calls is refused: the whole has this fault and no results;
  -- the calls before it have been made, and none behind it. The calls before it are not of
  -- system.multicall, and their names and the texts of their faults are UTF-8 without CR and NUL.
  pub system_multicall-recursive :
      (calls : List (Bytes × Values)) (params more : Values) (w : World)
      → All IsCallable calls
      → All HasText (run_all calls w).0
      → system_multicall dispatch
          (array (
            item
              (array (
                join_items
                  (descriptions calls)
                  (item (description (codes "system.multicall") params) more)))
              no_items))
          w
        ≡ (fault request_refused_error "Recursive system.multicall forbidden", (run_all calls w).1)
  unfolding system_multicall
  system_multicall-recursive calls params more w c t =
      let list =
        join_items (descriptions calls)
          (item (description (codes "system.multicall") params) more) in
      ap (λ r. and_then (r, w) (λ list. multicall_loop dispatch array_new list))
        (meth_list_lem list)
      ∙ loop_lem calls (item (description (codes "system.multicall") params) more) no_items w c t
      ∙ recursive_lem params more (result_values (run_all calls w).0) (run_all calls w).1
