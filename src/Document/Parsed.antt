-- ===== src/Document/Parsed.antt =====
-- xmlrpc-c/src/parse_value.c reads a value from the elements of its document.
use xml_rpc.Prelude.{
  ℕ, zero, suc, ◌≡◌, refl, sym, ap, ◌∙◌, subst, Bool, true, false, [], ◌++◌, Bytes, if◌then◌else◌,
  append-nil, decimal_z, text,
}
use xml_rpc.Fault.{Result, ok, ◌>>=◌}
use xml_rpc.Element.{Element, element, no_children}
use xml_rpc.Value.{
  Value, int, bool, double, datetime, string, base64, array, struct, c_ptr, nil, i8, dead, Values,
  no_items, item, Members, no_members, member,
}
use xml_rpc.Value.Strings.{copy_lines, string_new_lp}
use xml_rpc.Value.Structs.{struct_set_value_v}
use xml_rpc.Value.Structs.Lookup.{set_member-set_by_key}
use xml_rpc.Value.Structs.Keys.{IsStruct}
use xml_rpc.Value.Arrays.{array_append_item, append_item}
use xml_rpc.Serialize.{i8_name, nil_name, Dialect, dialect_i8, dialect_apache}
use xml_rpc.ParseScalar.Range.{IsLines}
use xml_rpc.ParseScalar.{parse_simple_value_cdata, parse_kind, kind_of, parse_boolean}
use xml_rpc.ParseScalar.Double.{FloatOps}
use xml_rpc.ParseValue.{
  parse_value, parse_value_content, parse_typed, parse_array, parse_array_items,
  parse_array_data_child, parse_struct, parse_struct_members, parse_struct_member, parse_member,
  parse_name, get_name_child, get_value_child, find_child, parse_simple_value,
}
use xml_rpc.ParseValue.Shape.{Fits, AllFit, MembersFit}
use xml_rpc.Document.{
  elem, chars, node, one, eol, cdata_of, elements_of, element_of, content_node, item_nodes,
  member_nodes,
}
use xml_rpc.Document.Pieces.{
  string_new_lp_lines, join_items, join_members, join_items-append, join_items-no_items,
  join_members-no_members, add_last, join_members-add_last, set_by_key-fresh, join_members-IsHashed,
}
use xml_rpc.Document.Scalars.{
  IsExact, AllExact, MembersExact, parse_int_raw, parse_i8_raw, parse_string_chars,
  parse_datetime_raw, parse_base64_raw,
}

parse_boolean_raw :
    (fl : FloatOps) (b : Bool)
    → parse_simple_value_cdata fl "boolean"
        (copy_lines false (if b then text "1" else text "0") ++ [])
      ≡ ok (bool b)
unfolding parse_simple_value_cdata kind_of parse_kind parse_boolean copy_lines text
parse_boolean_raw fl true = refl
parse_boolean_raw fl false = refl

parse_typed_nil :
    (rec : Element → Result Value) (fl : FloatOps) (dialect : Dialect)
    → parse_typed rec fl (element (nil_name dialect) [] no_children) ≡ ok nil
unfolding parse_typed parse_simple_value parse_simple_value_cdata kind_of parse_kind nil_name
parse_typed_nil rec fl dialect_i8 = refl
parse_typed_nil rec fl dialect_apache = refl

parse_typed_i8 :
    (rec : Element → Result Value) (fl : FloatOps) (dialect : Dialect) (cdata : Bytes)
    → parse_typed rec fl (element (i8_name dialect) cdata no_children)
      ≡ parse_simple_value_cdata fl (i8_name dialect) cdata
unfolding parse_typed parse_simple_value i8_name
parse_typed_i8 rec fl dialect_i8 cdata = refl
parse_typed_i8 rec fl dialect_apache cdata = refl

module _ (float_text : ℕ → Bytes) (dialect : Dialect) (fl : FloatOps) where
  value_element : Value → Element
  value_element v = element_of "value" (one (content_node float_text dialect v))

  join_members-hashed :
      (acc ms : Members) (h : ℕ) (key : Bytes) (v : Value)
      → IsStruct (join_members acc (member h key v ms))
      → join_members (add_last acc key v) ms ≡ join_members acc (member h key v ms)
  join_members-hashed acc ms h key v s =
      let (_, hashed) = join_members-IsHashed acc (member h key v ms) s.hashed in
      join_members-add_last acc ms key v
      ∙ ap (λ g. join_members acc (member g key v ms)) (sym hashed.0)

  parse_member_lem :
      (rec : Element → Result Value) (key : Bytes) (v : Value)
      → IsLines key
      → rec (value_element v) ≡ ok v
      → parse_member rec (
          element_of "member" (
            node
              (elem "name" (one (chars key)))
              (node eol (one (elem "value" (one (content_node float_text dialect v)))))))
        ≡ ok (string key, v)
  unfolding parse_member get_name_child get_value_child find_child parse_name elements_of cdata_of
      value_element
  parse_member_lem rec key v lines e =
      ap (λ k. k >>= λ key_value. rec (value_element v) >>= λ w. ok (key_value, w))
        (ap string_new_lp (append-nil key) ∙ string_new_lp_lines key lines)
      ∙ ap (λ w. w >>= λ w'. ok (string key, w')) e

  set_fresh :
      (acc ms : Members) (h : ℕ) (key : Bytes) (v : Value)
      → IsStruct (join_members acc (member h key v ms))
      → struct_set_value_v (struct acc) (string key) v ≡ ok (struct (add_last acc key v))
  unfolding struct_set_value_v
  set_fresh acc ms h key v s =
      let (hashed, _) = join_members-IsHashed acc (member h key v ms) s.hashed in
      ap (λ m. ok (struct m))
        (set_member-set_by_key acc key v hashed ∙ set_by_key-fresh acc ms h key v v s.distinct)

  member_step :
      (rec : Element → Result Value) (acc ms : Members) (h : ℕ) (key : Bytes) (v : Value)
      → IsStruct (join_members acc (member h key v ms))
      → IsLines key
      → rec (value_element v) ≡ ok v
      → parse_struct_members rec
          (struct acc)
          (elements_of (member_nodes float_text dialect (member h key v ms)))
        ≡ parse_struct_members rec
            (struct (add_last acc key v))
            (elements_of (member_nodes float_text dialect ms))
  unfolding parse_struct_members parse_struct_member member_nodes elements_of value_element
  member_step rec acc ms h key v s lines e =
      let rest = elements_of (member_nodes float_text dialect ms) in
      ap
        (λ m. (m >>= λ m'. struct_set_value_v (struct acc) m'.0 m'.1) >>= λ str.
          parse_struct_members rec str rest)
        (parse_member_lem rec key v lines e)
      ∙ ap (λ w. w >>= λ str. parse_struct_members rec str rest) (set_fresh acc ms h key v s)

  mutual
    unfolding parse_value parse_value_content parse_typed parse_array parse_array_items
        parse_array_data_child parse_struct parse_struct_members parse_struct_member parse_member
        parse_name get_name_child get_value_child find_child parse_simple_value content_node
        item_nodes member_nodes elements_of cdata_of Fits AllFit MembersFit IsExact AllExact
        MembersExact value_element array_append_item join_items join_members

    parsed : (n : ℕ) (v : Value) → Fits n v → IsExact v → parse_value fl n (value_element v) ≡ ok v
    parsed zero v f e = absurd f
    parsed (suc n) (int i) f e = parse_int_raw fl i f
    parsed (suc n) (i8 i) f e =
        parse_typed_i8 (parse_value fl n) fl dialect (copy_lines false (decimal_z i) ++ [])
        ∙ parse_i8_raw fl dialect i f
    parsed (suc n) (bool b) f e = parse_boolean_raw fl b
    parsed (suc n) (double d) f e = absurd e
    parsed (suc n) (datetime dt) f e = parse_datetime_raw fl dt e
    parsed (suc n) (string block) f e = parse_string_chars fl block f
    parsed (suc n) (base64 bytes) f e = parse_base64_raw fl bytes e
    parsed (suc n) (array vs) f e = parsed_items n no_items vs f e
    parsed (suc n) (struct ms) f e = parsed_members n no_members ms f.0 f.1 e
    parsed (suc n) nil f e = parse_typed_nil (parse_value fl n) fl dialect
    parsed (suc n) (c_ptr p) f e = absurd f
    parsed (suc n) dead f e = absurd f

    parsed_items :
        (n : ℕ) (acc vs : Values)
        → AllFit n vs
        → AllExact vs
        → parse_array_items
            (parse_value fl n)
            (array acc)
            (elements_of (item_nodes float_text dialect vs))
          ≡ ok (array (join_items acc vs))
    parsed_items n acc no_items f e = ap (λ vs. ok (array vs)) (sym (join_items-no_items acc))
    parsed_items n acc (item v vs) f e =
        ap
          (λ r. (r >>= λ i. array_append_item (array acc) i) >>= λ arr.
            parse_array_items (parse_value fl n) arr
              (elements_of (item_nodes float_text dialect vs)))
          (parsed n v f.0 e.0)
        ∙ parsed_items n (append_item acc v) vs f.1 e.1
        ∙ ap (λ w. ok (array w)) (join_items-append acc vs v)

    parsed_members :
        (n : ℕ) (acc ms : Members)
        → IsStruct (join_members acc ms)
        → MembersFit n ms
        → MembersExact ms
        → parse_struct_members
            (parse_value fl n)
            (struct acc)
            (elements_of (member_nodes float_text dialect ms))
          ≡ ok (struct (join_members acc ms))
    parsed_members n acc no_members s f e =
        ap (λ ms. ok (struct ms)) (sym (join_members-no_members acc))
    parsed_members n acc (member h key v ms) s f e =
        let shifted = join_members-hashed acc ms h key v s in
        member_step (parse_value fl n) acc ms h key v s f.0 (parsed n v f.1 e.0)
        ∙ parsed_members n (add_last acc key v) ms (subst IsStruct (sym shifted) s) f.2 e.1
        ∙ ap (λ w. ok (struct w)) shifted

  -- In either dialect a value that the parser may yield is read back from the elements of its
  -- document, if it nests at most maxRecursion deep, its base64 holds bytes, the years of its times
  -- have four digits, and there is no `double` in it.
  pub parse_value-content_node :
      (max_recursion : ℕ) (v : Value)
      → Fits max_recursion v
      → IsExact v
      → parse_value fl max_recursion (element_of "value" (one (content_node float_text dialect v)))
        ≡ ok v
  unfolding value_element
  parse_value-content_node max_recursion v f e = parsed max_recursion v f e
