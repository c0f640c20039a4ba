-- ===== src/ParseValue/Bounded.antt =====
-- What xmlrpc_parseValue of xmlrpc-c/src/parse_value.c can yield: the recursion through arrays and structs.
use text.Mathlib.Text.{◌==◌ as str_eq}
use xml_rpc.Prelude.{ℕ, zero, suc, refl, inl, inr, arith, Bytes, All, Bool-cases, ◌==◌}
use xml_rpc.Fault.{Result, ok, err}
use xml_rpc.Utf8.Chars.{IsByte}
use xml_rpc.Element.{
  Element, Elements, no_children, child, element_name, element_cdata, element_children,
  children_size,
}
use xml_rpc.Value.{Value, no_items, no_members, array, struct, string}
use xml_rpc.Value.Strings.{string_new_lp}
use xml_rpc.ParseValue.Shape.{HasBytes, HaveBytes, Fits, AllFit, MembersFit}
use xml_rpc.ParseScalar.Double.{FloatOps}
use xml_rpc.ParseScalar.Range.{Yields, Yields-bind, IsString, string_new_lp-Yields}
use xml_rpc.ParseValue.{
  parse_name, get_name_child, get_value_child, parse_array_data_child, parse_array_items,
  parse_array, parse_member, parse_struct_member, parse_struct_members, parse_struct, parse_typed,
  parse_value_content, parse_value,
}
use xml_rpc.ParseValue.Pieces.{
  IsArray, IsStructValue, array_append_item-Yields, struct_set_value_v-Yields, find_child-Yields,
  element_children-HaveBytes, element_cdata-IsByte, parse_name-Yields, parse_simple_value-Yields,
}

module _ (depth : ℕ) (rec : Element → Result Value)
    (rec-Yields : (e : Element) → HasBytes e → Yields (Fits depth) (rec e)) where
  parse_array_data_child-Yields :
      (arr : Value) (e : Element)
      → IsArray depth arr
      → HasBytes e
      → Yields (IsArray depth) (parse_array_data_child rec arr e)
  unfolding parse_array_data_child
  parse_array_data_child-Yields arr e a h = elim (Bool-cases (str_eq (element_name e) "value")) [
    | inl named ↦ rw named (
        Yields-bind (Fits depth) (IsArray depth) (rec e) _ (rec-Yields e h)
          (λ v f. array_append_item-Yields depth arr v a f))
    | inr other ↦ rw other (inl refl)
  ]

  parse_array_items-Yields :
      (arr : Value) (es : Elements)
      → IsArray depth arr
      → HaveBytes es
      → Yields (IsArray depth) (parse_array_items rec arr es)
  unfolding parse_array_items HaveBytes
  parse_array_items-Yields arr no_children a h = a
  parse_array_items-Yields arr (child e es) a h =
      Yields-bind (IsArray depth) (IsArray depth) (parse_array_data_child rec arr e) _
        (parse_array_data_child-Yields arr e a h.0)
        (λ arr' a'. parse_array_items-Yields arr' es a' h.1)

  parse_array-Yields : (es : Elements) → HaveBytes es → Yields (IsArray depth) (parse_array rec es)
  unfolding parse_array HaveBytes AllFit
  parse_array-Yields no_children h = inl refl
  parse_array-Yields (child e (child e' es)) h = inl refl
  parse_array-Yields (child e no_children) h = ground (
    arith,
    parse_array_items-Yields (array no_items) (element_children e) tt
        (element_children-HaveBytes e h.0),
  )

  parse_member-Yields :
      (e : Element)
      → HasBytes e
      → Yields (λ (m : Value × Value). IsString m.0 × Fits depth m.1) (parse_member rec e)
  unfolding parse_member get_name_child get_value_child
  parse_member-Yields e h =
      let hs = element_children-HaveBytes e h in
      let Member : Value × Value → Type 0 = λ m. IsString m.0 × Fits depth m.1 in
      elim (Bool-cases (children_size (element_children e) == 2)) [
        | inl two ↦ rw two (
            Yields-bind HasBytes Member (get_name_child e) _
              (find_child-Yields "name" _ (element_children e) hs)
              (λ name_elem nh.
                Yields-bind IsString Member (parse_name name_elem) _
                  (parse_name-Yields name_elem nh)
                  (λ key k.
                    Yields-bind HasBytes Member (get_value_child e) _
                      (find_child-Yields "value" _ (element_children e) hs)
                      (λ value_elem vh.
                        Yields-bind (Fits depth) Member (rec value_elem) _
                          (rec-Yields value_elem vh) (λ v f. (k, f))))))
        | inr other ↦ rw other (inl refl)
      ]

  parse_struct_member-Yields :
      (str : Value) (e : Element)
      → IsStructValue depth str
      → HasBytes e
      → Yields (IsStructValue depth) (parse_struct_member rec str e)
  unfolding parse_struct_member
  parse_struct_member-Yields str e s h = elim (Bool-cases (str_eq (element_name e) "member")) [
    | inl named ↦ rw named (
        Yields-bind (λ (m : Value × Value). IsString m.0 × Fits depth m.1) (IsStructValue depth)
          (parse_member rec e) _ (parse_member-Yields e h)
          (λ m f. struct_set_value_v-Yields depth str m.0 m.1 s f.0 f.1))
    | inr other ↦ rw other (inl refl)
  ]

  parse_struct_members-Yields :
      (str : Value) (es : Elements)
      → IsStructValue depth str
      → HaveBytes es
      → Yields (IsStructValue depth) (parse_struct_members rec str es)
  unfolding parse_struct_members HaveBytes
  parse_struct_members-Yields str no_children s h = s
  parse_struct_members-Yields str (child e es) s h =
      Yields-bind (IsStructValue depth) (IsStructValue depth) (parse_struct_member rec str e) _
        (parse_struct_member-Yields str e s h.0)
        (λ str' s'. parse_struct_members-Yields str' es s' h.1)

  parse_struct-Yields :
      (es : Elements) → HaveBytes es → Yields (IsStructValue depth) (parse_struct rec es)
  unfolding parse_struct MembersFit
  parse_struct-Yields es h =
      parse_struct_members-Yields (struct no_members) es (record { hashed = tt; distinct = tt }, tt)
        h

  IsArray-Fits : (r : Result Value) → Yields (IsArray depth) r → Yields (Fits (suc depth)) r
  unfolding Fits
  IsArray-Fits (ok (array vs)) h = h
  IsArray-Fits (ok v) h = absurd h
  IsArray-Fits (err e) h = h

  IsStructValue-Fits :
      (r : Result Value) → Yields (IsStructValue depth) r → Yields (Fits (suc depth)) r
  unfolding Fits
  IsStructValue-Fits (ok (struct ms)) h = h
  IsStructValue-Fits (ok v) h = absurd h
  IsStructValue-Fits (err e) h = h

  parse_typed-Yields :
      (fl : FloatOps) (e : Element) → HasBytes e → Yields (Fits (suc depth)) (parse_typed rec fl e)
  unfolding parse_typed
  parse_typed-Yields fl e h =
      let hs = element_children-HaveBytes e h in
      let es = element_children e in
      let as_struct = IsStructValue-Fits (parse_struct rec es) (parse_struct-Yields es hs) in
      let as_array = IsArray-Fits (parse_array rec es) (parse_array-Yields es hs) in
      elim (Bool-cases (str_eq (element_name e) "struct")) [
        | inl s ↦ rw s as_struct
        | inr n ↦ elim (Bool-cases (str_eq (element_name e) "array")) [
          | inl a ↦ rw n (rw a as_array)
          | inr o ↦ rw n (rw o (parse_simple_value-Yields fl depth e h))
        ]
      ]

  IsString-Fits : (r : Result Value) → Yields IsString r → Yields (Fits (suc depth)) r
  unfolding Fits
  IsString-Fits (ok (string block)) h = h
  IsString-Fits (ok v) h = absurd h
  IsString-Fits (err e) h = h

  parse_value_content-Yields :
      (fl : FloatOps) (cdata : Bytes) (es : Elements)
      → All IsByte cdata
      → HaveBytes es
      → Yields (Fits (suc depth)) (parse_value_content rec fl cdata es)
  unfolding parse_value_content HaveBytes
  parse_value_content-Yields fl cdata no_children b h =
      IsString-Fits (string_new_lp cdata) (string_new_lp-Yields cdata b)
  parse_value_content-Yields fl cdata (child e no_children) b h = parse_typed-Yields fl e h.0
  parse_value_content-Yields fl cdata (child e (child e' es)) b h = inl refl

-- Whatever the element tree is, as long as its character data are bytes, the parser either yields a
-- value that XML-RPC can carry or fails with XMLRPC_PARSE_ERROR or XMLRPC_INVALID_UTF8_ERROR. The
-- value nests at most maxRecursion deep, its integers and times are in range, its strings and keys
-- are valid UTF-8 without CR, and the keys of each struct are distinct and have the right hash.
pub parse_value-Yields :
    (fl : FloatOps) (max_recursion : ℕ) (e : Element)
    → HasBytes e
    → Yields (Fits max_recursion) (parse_value fl max_recursion e)
unfolding parse_value
parse_value-Yields fl zero e h = inl refl
parse_value-Yields fl (suc depth) e h = elim (Bool-cases (str_eq (element_name e) "value")) [
  | inl named ↦ rw named (
      parse_value_content-Yields depth (parse_value fl depth)
        (λ e' h'. parse_value-Yields fl depth e' h') fl (element_cdata e) (element_children e)
        (element_cdata-IsByte e h) (element_children-HaveBytes e h))
  | inr other ↦ rw other (inl refl)
]
