-- ===== src/Document/Printed.antt =====
-- xmlrpc-c/src/xmlrpc_serialize.c writes the text of a value's document.
use xml_rpc.Prelude.{
  ℕ, zero, suc, ◌≤◌, ◌≡◌, refl, ap, ap₂, ◌∙◌, Bool, true, false, [], ◌++◌, arith, Bytes, append-nil,
  append_assoc, ℤ, pos, negsuc, decimal_z, text, length, length-append,
}
use xml_rpc.Fault.{ok, ◌>>=◌}
use xml_rpc.Base64.{base64_encode}
use xml_rpc.Number.Decimal.{IsLong, length-decimal_z}
use xml_rpc.Value.{
  Value, int, bool, double, datetime, string, base64, array, struct, c_ptr, nil, i8, dead, Values,
  no_items, item, Members, no_members, member,
}
use xml_rpc.Serialize.{
  Dialect, dialect_i8, dialect_apache, end_line, escape_for_xml, format_out, i8_name, nil_name,
  format_datetime, format_value_content, serialize_items, serialize_members, serialize_value2,
}
use xml_rpc.ParseScalar.Range.{IsSigned}
use xml_rpc.ParseValue.Shape.{Fits, AllFit, MembersFit}
use xml_rpc.Document.{
  elem, one, opening, closing, print, print_all, content_node, item_nodes, member_nodes,
}

-- The same text, put together in another order.
tagged_text : (a c z : Bytes) → (a ++ c) ++ z ≡ a ++ ((c ++ []) ++ z)
tagged_text a c z = simp (append_assoc, append-nil)

item_text : (a c z e r : Bytes) → (((a ++ c) ++ z) ++ e) ++ r ≡ (a ++ ((c ++ []) ++ z)) ++ (e ++ r)
item_text a c z e r = simp (append_assoc, append-nil)

i8_text :
    (a n b c d x : Bytes)
    → (((((a ++ n) ++ b) ++ c) ++ d) ++ n) ++ x ≡ ((a ++ n) ++ b) ++ ((c ++ []) ++ ((d ++ n) ++ x))
i8_text a n b c d x = simp (append_assoc, append-nil)

member_text :
    (om on key cn e ov c cv cm r : Bytes)
    → (((((((((om ++ on) ++ key) ++ cn) ++ e) ++ ov) ++ c) ++ cv) ++ cm) ++ e) ++ r
      ≡ (om ++ (((on ++ ((key ++ []) ++ cn)) ++ (e ++ ((ov ++ ((c ++ []) ++ cv)) ++ []))) ++ cm))
        ++ (e ++ r)
member_text om on key cn e ov c cv cm r = simp (append_assoc, append-nil)

base64_text : (a e c z : Bytes) → ((a ++ e) ++ c) ++ z ≡ a ++ (((e ++ c) ++ []) ++ z)
base64_text a e c z = simp (append_assoc, append-nil)

array_text :
    (a b e c y z : Bytes)
    → (((a ++ b) ++ e) ++ c) ++ (y ++ z) ≡ a ++ (((b ++ ((e ++ c) ++ y)) ++ []) ++ z)
array_text a b e c y z = simp (append_assoc, append-nil)

struct_text : (a e c z : Bytes) → ((a ++ e) ++ c) ++ z ≡ a ++ ((e ++ c) ++ z)
struct_text a e c z = simp append_assoc

format_out_short :
    (formatted : Bytes) → length formatted ≤ 100 → format_out formatted ≡ ok formatted
unfolding format_out
format_out_short formatted h = ground arith

IsSigned-IsLong_int : (i : ℤ) → IsSigned 31 i → IsLong i
IsSigned-IsLong_int (pos n) h = omega arith
IsSigned-IsLong_int (negsuc n) h = omega arith

length-number_text :
    (opening closing : Bytes) (i : ℤ)
    → IsLong i
    → length opening ≤ 10
    → length closing ≤ 10
    → length (opening ++ ((decimal_z i ++ []) ++ closing)) ≤ 100
length-number_text opening closing i h o c = omega (
  arith,
  length-append opening ((decimal_z i ++ []) ++ closing),
  length-append (decimal_z i ++ []) closing,
  length-append (decimal_z i) [],
  length-decimal_z i h,
)

format_number :
    (opening closing : Bytes) (i : ℤ)
    → IsLong i
    → length opening ≤ 10
    → length closing ≤ 10
    → (formatted : Bytes) → formatted ≡ opening ++ ((decimal_z i ++ []) ++ closing)
    → format_out formatted ≡ ok (opening ++ ((decimal_z i ++ []) ++ closing))
format_number opening closing i h o c formatted e =
    ap format_out e
    ∙ format_out_short (opening ++ ((decimal_z i ++ []) ++ closing))
        (length-number_text opening closing i h o c)

opening_short : (dialect : Dialect) → length (opening (i8_name dialect)) ≤ 10
unfolding i8_name text
opening_short dialect_i8 = omega arith
opening_short dialect_apache = omega arith

closing_short : (dialect : Dialect) → length (closing (i8_name dialect)) ≤ 10
unfolding i8_name text
closing_short dialect_i8 = omega arith
closing_short dialect_apache = omega arith

nil_short : (dialect : Dialect) → length (text "<" ++ text (nil_name dialect) ++ text "/>") ≤ 100
unfolding nil_name text
nil_short dialect_i8 = omega arith
nil_short dialect_apache = omega arith

module _ (float_text : ℕ → Bytes) (dialect : Dialect) where
  format_int :
      (i : ℤ)
      → IsSigned 31 i
      → format_value_content (λ d. ok (float_text d)) dialect (int i)
        ≡ ok (print (content_node float_text dialect (int i)))
  unfolding format_value_content print text content_node
  format_int i h =
      format_number (text "<i4>") (text "</i4>") i (IsSigned-IsLong_int i h) (omega arith)
        (omega arith) (text "<i4>" ++ decimal_z i ++ text "</i4>")
        (tagged_text (text "<i4>") (decimal_z i) (text "</i4>"))

  format_bool :
      (b : Bool)
      → format_value_content (λ d. ok (float_text d)) dialect (bool b)
        ≡ ok (print (content_node float_text dialect (bool b)))
  unfolding format_value_content print text content_node format_out
  format_bool true = refl
  format_bool false = refl

  format_i8 :
      (i : ℤ)
      → IsSigned 63 i
      → format_value_content (λ d. ok (float_text d)) dialect (i8 i)
        ≡ ok (print (content_node float_text dialect (i8 i)))
  unfolding format_value_content print text content_node
  format_i8 i h =
      format_number (opening (i8_name dialect)) (closing (i8_name dialect)) i h
        (opening_short dialect) (closing_short dialect)
        (text "<"
          ++ text (i8_name dialect)
          ++ text ">"
          ++ decimal_z i
          ++ text "</"
          ++ text (i8_name dialect)
          ++ text ">")
        (i8_text (text "<") (text (i8_name dialect)) (text ">") (decimal_z i) (text "</")
          (text ">"))

  format_nil :
      format_value_content (λ d. ok (float_text d)) dialect nil
      ≡ ok (print (content_node float_text dialect nil))
  unfolding format_value_content print content_node
  format_nil =
      format_out_short (text "<" ++ text (nil_name dialect) ++ text "/>") (nil_short dialect)

  mutual
    unfolding format_value_content print text content_node item_nodes member_nodes serialize_items
        serialize_members Fits AllFit MembersFit

    printed :
        (n : ℕ) (v : Value)
        → Fits n v
        → format_value_content (λ d. ok (float_text d)) dialect v
          ≡ ok (print (content_node float_text dialect v))
    printed zero v f = absurd f
    printed (suc n) (int i) f = format_int i f
    printed (suc n) (i8 i) f = format_i8 i f
    printed (suc n) (bool b) f = format_bool b
    printed (suc n) (double d) f =
        ap ok (tagged_text (text "<double>") (float_text d) (text "</double>"))
    printed (suc n) (datetime dt) f =
        ap ok (
          tagged_text (text "<dateTime.iso8601>") (format_datetime dt) (text "</dateTime.iso8601>"))
    printed (suc n) (string block) f =
        ap ok (tagged_text (text "<string>") (escape_for_xml block) (text "</string>"))
    printed (suc n) (base64 bytes) f =
        ap ok (base64_text (text "<base64>") end_line (base64_encode bytes) (text "</base64>"))
    printed (suc n) (array vs) f =
        ap (λ r. r >>= λ c. ok (text "<array><data>" ++ end_line ++ c ++ text "</data></array>"))
          (printed_items n vs f)
        ∙ ap ok (
            array_text (text "<array>") (text "<data>") end_line
              (print_all (item_nodes float_text dialect vs)) (text "</data>") (text "</array>"))
    printed (suc n) (struct ms) f =
        ap (λ r. r >>= λ c. ok (text "<struct>" ++ end_line ++ c ++ text "</struct>"))
          (printed_members n ms f.1)
        ∙ ap ok (
            struct_text (text "<struct>") end_line (print_all (member_nodes float_text dialect ms))
              (text "</struct>"))
    printed (suc n) nil f = format_nil
    printed (suc n) (c_ptr p) f = absurd f
    printed (suc n) dead f = absurd f

    printed_items :
        (n : ℕ) (vs : Values)
        → AllFit n vs
        → serialize_items (λ d. ok (float_text d)) dialect vs
          ≡ ok (print_all (item_nodes float_text dialect vs))
    printed_items n no_items f = refl
    printed_items n (item v vs) f =
        ap₂
          (λ r q. r >>= λ c.
            q >>= λ rest. ok (text "<value>" ++ c ++ text "</value>" ++ end_line ++ rest))
          (printed n v f.0) (printed_items n vs f.1)
        ∙ ap ok (
            item_text (text "<value>") (print (content_node float_text dialect v)) (text "</value>")
              end_line (print_all (item_nodes float_text dialect vs)))

    printed_members :
        (n : ℕ) (ms : Members)
        → MembersFit n ms
        → serialize_members (λ d. ok (float_text d)) dialect ms
          ≡ ok (print_all (member_nodes float_text dialect ms))
    printed_members n no_members f = refl
    printed_members n (member h key v ms) f =
        ap₂
          (λ r q. r >>= λ c. q >>= λ rest. ok (
            text "<member><name>"
            ++ escape_for_xml key
            ++ text "</name>"
            ++ end_line
            ++ text "<value>"
            ++ c
            ++ text "</value>"
            ++ text "</member>"
            ++ end_line
            ++ rest))
          (printed n v f.1) (printed_members n ms f.2)
        ∙ ap ok (
            member_text (text "<member>") (text "<name>") (escape_for_xml key) (text "</name>")
              end_line (text "<value>") (print (content_node float_text dialect v))
              (text "</value>") (text "</member>") (print_all (member_nodes float_text dialect ms)))

  -- In either dialect a value that the parser may yield is written without a fault, as the text of its
  -- document, with any text for each `double`.
  pub serialize_value2-print :
      (depth : ℕ) (v : Value)
      → Fits depth v
      → serialize_value2 (λ d. ok (float_text d)) dialect v
        ≡ ok (print (elem "value" (one (content_node float_text dialect v))))
  unfolding serialize_value2 print text
  serialize_value2-print depth v f =
      ap (λ r. r >>= λ c. ok (text "<value>" ++ c ++ text "</value>")) (printed depth v f)
      ∙ ap ok (
          tagged_text (text "<value>") (print (content_node float_text dialect v))
            (text "</value>"))
