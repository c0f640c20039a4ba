-- ===== src/Registry/Introspection.antt =====
-- xmlrpc-c/src/system_method.c: what the system methods tell about a method that has been registered.
use xml_rpc.Prelude.{
  ℕ, ◌≡◌, refl, ap, sym, ◌∙◌, true, List, [], ◌∷◌, map, Bytes, inl, inr, subst, Option, some, text,
  if◌then◌else◌,
}
use xml_rpc.Fault.{ok, fault, introspection_disabled_error}
use xml_rpc.Utf8.{validate_utf8, utf8_to_wcs, decode_loop, decode_char}
use xml_rpc.Value.{Value, bool, array, string, Values, no_items, item}
use xml_rpc.Value.Strings.{
  verify_no_nulls, has_cr, read_string, access_string_value, validate_string_type,
}
use xml_rpc.Value.Arrays.{array_append_item, append_item, array_size, array_read_item, get_item}
use xml_rpc.Value.Structs.Lookup.{same_bytes_iff}
use xml_rpc.ParseScalar.Range.{IsLines}
use xml_rpc.Document.Pieces.{
  string_new_lp_lines, join_items, join_items-append, join_items-no_items,
}
use xml_rpc.Decompose.{decompose_value_with_tree, validate_array_size, item_cnt}
use xml_rpc.Decompose.Format.{decompose_value, create_decomp_tree, create_decomp_tree_next}
use xml_rpc.Registry.{Registry, MethodFn, registry_add}
use xml_rpc.Registry.Method.{MethodInfo, method_list_lookup_by_name}
use xml_rpc.Registry.Lookup.{method_of, registry_add-lookup}
use xml_rpc.Registry.Reachable.{ok_injective, ok≢err}
use xml_rpc.Registry.Signatures.{
  TypeSpec, int_spec, boolean_spec, double_spec, string_spec, datetime_spec, base64_spec,
  struct_spec, array_spec, nil_spec, i8_spec, spec_name, Typing, print_typings, signature_of,
  make_signature_list-print,
}
use xml_rpc.Registry.System.{
  Version, one_string, one_parameter, type_names, build_signature_value, signature_values,
  get_signature_list, system_method_signature, system_method_exist, determine_method_existence,
}

-- The one parameter of a system method.
abbrev pub named : Bytes → Value
named name = array (item (string name) no_items)

one_string_lem : (name : Bytes) → verify_no_nulls name ≡ ok tt → one_string (named name) ≡ ok name
unfolding one_string decompose_value create_decomp_tree create_decomp_tree_next
    decompose_value_with_tree text array_size array_read_item get_item validate_array_size item_cnt
    read_string access_string_value validate_string_type
one_string_lem name h = rw h refl

-- The strings of a list of names.
abbrev pub string_values : List Bytes → Values
string_values [] = no_items
string_values (n ∷ names) = item (string n) (string_values names)

abbrev pub typing_value : Typing → Value
typing_value t = array (string_values (spec_name t.0 ∷ map spec_name t.1))

abbrev pub typing_values : List Typing → Values
typing_values [] = no_items
typing_values (t ∷ ts) = item (typing_value t) (typing_values ts)

spec_name-IsLines : (t : TypeSpec) → IsLines (spec_name t)
unfolding validate_utf8 utf8_to_wcs decode_loop decode_char has_cr
spec_name-IsLines int_spec = (refl, refl)
spec_name-IsLines boolean_spec = (refl, refl)
spec_name-IsLines double_spec = (refl, refl)
spec_name-IsLines string_spec = (refl, refl)
spec_name-IsLines datetime_spec = (refl, refl)
spec_name-IsLines base64_spec = (refl, refl)
spec_name-IsLines struct_spec = (refl, refl)
spec_name-IsLines array_spec = (refl, refl)
spec_name-IsLines nil_spec = (refl, refl)
spec_name-IsLines i8_spec = (refl, refl)

module _ {World CallInfo : Type 0} (version : Version) (registry : Registry World CallInfo) where
  type_names_lem :
      (acc : Values) (ts : List TypeSpec)
      → type_names version registry (array acc) (map spec_name ts)
        ≡ ok (array (join_items acc (string_values (map spec_name ts))))
  unfolding type_names array_append_item
  type_names_lem acc [] = ap (λ vs. ok (array vs)) (sym (join_items-no_items acc))
  type_names_lem acc (t ∷ ts) = rw (string_new_lp_lines (spec_name t) (spec_name-IsLines t)) (
      type_names_lem (append_item acc (string (spec_name t))) ts
      ∙ ap (λ vs. ok (array vs))
          (join_items-append acc (string_values (map spec_name ts)) (string (spec_name t))))

  signature_value_lem :
      (t : Typing) → build_signature_value version registry (signature_of t) ≡ ok (typing_value t)
  unfolding build_signature_value join_items
  signature_value_lem t = type_names_lem no_items (t.0 ∷ t.1)

  signature_values_lem :
      (acc : Values) (ts : List Typing)
      → signature_values version registry (array acc) (map signature_of ts)
        ≡ ok (array (join_items acc (typing_values ts)))
  unfolding signature_values array_append_item
  signature_values_lem acc [] = ap (λ vs. ok (array vs)) (sym (join_items-no_items acc))
  signature_values_lem acc (t ∷ ts) = rw (signature_value_lem t) (
      signature_values_lem (append_item acc (typing_value t)) ts
      ∙ ap (λ vs. ok (array vs)) (join_items-append acc (typing_values ts) (typing_value t)))

  found_signatures :
      (name : Bytes) (m : MethodInfo (MethodFn World CallInfo)) (t : Typing) (ts : List Typing)
      → method_of registry name ≡ some m
      → m.signatures ≡ map signature_of (t ∷ ts)
      → get_signature_list version registry name ≡ ok (array (typing_values (t ∷ ts)))
  unfolding get_signature_list join_items
  found_signatures name m t ts found sigs =
      rw (found, get_signature_list)
        (rw (sigs, get_signature_list) (signature_values_lem no_items (t ∷ ts)))

  one_parameter_lem :
      (name : Bytes)
      → verify_no_nulls name ≡ ok tt
      → one_parameter version registry (named name) ≡ ok name
  unfolding one_parameter
  one_parameter_lem name h = rw (one_string_lem name h, one_parameter) refl

  exist_lem :
      (name : Bytes) (m : MethodInfo (MethodFn World CallInfo))
      → verify_no_nulls name ≡ ok tt
      → method_of registry name ≡ some m
      → system_method_exist version registry (named name) ≡ ok (bool true)
  unfolding system_method_exist determine_method_existence
  exist_lem name m h found =
      rw (one_string_lem name h) (rw (found, determine_method_existence) refl)

  signature_lem :
      (name : Bytes) (m : MethodInfo (MethodFn World CallInfo)) (t : Typing) (ts : List Typing)
      → verify_no_nulls name ≡ ok tt
      → method_of registry name ≡ some m
      → m.signatures ≡ map signature_of (t ∷ ts)
      → system_method_signature version registry (named name) ≡ (
          if registry.introspection_enabled
          then ok (array (typing_values (t ∷ ts)))
          else fault introspection_disabled_error "Introspection disabled on this server")
  unfolding system_method_signature
  signature_lem name m t ts h found sigs = rw (one_parameter_lem name h) (
      ap
        (λ r.
          if registry.introspection_enabled
          then r
          else fault introspection_disabled_error "Introspection disabled on this server")
        (found_signatures name m t ts found sigs))

-- After a method is registered with a signature string for one or more forms, system.methodExist
-- answers that it exists, and system.methodSignature with an array of these forms, each an array of
-- the names of the types of its result and its parameters, unless introspection is disabled.
pub registered_signature :
    {World CallInfo : Type 0} (version : Version) (registry next : Registry World CallInfo)
    (name : Bytes) (function : MethodFn World CallInfo) (t : Typing) (ts : List Typing)
    (help : Option Bytes) (size : ℕ)
    → verify_no_nulls name ≡ ok tt
    → registry_add registry name function (some (print_typings t ts)) help size ≡ ok next
    → (system_method_exist version next (named name) ≡ ok (bool true))
      × (system_method_signature version next (named name) ≡ (
          if registry.introspection_enabled
          then ok (array (typing_values (t ∷ ts)))
          else fault introspection_disabled_error "Introspection disabled on this server"))
registered_signature version registry next name function t ts help size h added =
    elim (registry_add-lookup registry name function (some (print_typings t ts)) help size) [
      | inl (why, (e, refused, code)) ↦ absurd (ok≢err (sym added ∙ refused))
      | inr (m, list, free, is_function, sigs, run, finds) ↦
          let found : method_list_lookup_by_name list name ≡ some m =
            rw ((same_bytes_iff name name).1 refl) at (finds name) in
          subst
            (λ next.
              (system_method_exist version next (named name) ≡ ok (bool true))
              × (system_method_signature version next (named name) ≡ (
                  if registry.introspection_enabled
                  then ok (array (typing_values (t ∷ ts)))
                  else fault introspection_disabled_error "Introspection disabled on this server")))
            (ok_injective (sym run ∙ added))
            (
              exist_lem version (record registry { methods = list }) name m h found,
              signature_lem version (record registry { methods = list }) name m t ts h found
                  (ok_injective (sym sigs ∙ make_signature_list-print t ts)),
            )
    ]
