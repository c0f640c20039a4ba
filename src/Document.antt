-- ===== src/Document.antt =====
-- XML documents as trees: the text of a tree, and the elements that an XML processor makes of it. A
-- value has such a tree, by the grammar of XML-RPC; xmlrpc-c/src/xmlrpc_serialize.c writes its text and
-- xmlrpc-c/src/parse_value.c gets its elements.
pub mod Pieces
pub mod Scalars
pub mod Parsed
pub mod Printed
use xml_rpc.Prelude.{
  ℕ, Bool, true, false, List, [], ◌∷◌, ◌++◌, if◌then◌else◌, Bytes, String, text, decimal_z,
}
use xml_rpc.Base64.{base64_encode}
use xml_rpc.Element.{Element, element, Elements, no_children, child}
use xml_rpc.Value.{
  Datetime, Value, int, bool, double, datetime, string, base64, array, struct, c_ptr, nil, i8, dead,
  Values, no_items, item, Members, no_members, member,
}
use xml_rpc.Value.Strings.{copy_lines}
use xml_rpc.Serialize.{Dialect, end_line, escape_for_xml, format_datetime, i8_name, nil_name}

-- Elements, without content or with it; characters, which are escaped; and text that stands as it
-- is, without markup, whose line ends an XML processor makes LF.
mutual
  pub data Node : Type 0 where
    empty : String → Node
    elem : String → Nodes → Node
    chars : Bytes → Node
    raw : Bytes → Node

  pub data Nodes : Type 0 where
    no_nodes : Nodes
    node : Node → Nodes → Nodes

abbrev pub one : Node → Nodes
one n = node n no_nodes

abbrev pub opening : String → Bytes
opening name = text "<" ++ text name ++ text ">"

abbrev pub closing : String → Bytes
closing name = text "</" ++ text name ++ text ">"

unfoldable mutual
  pub print : Node → Bytes
  print (empty name) = text "<" ++ text name ++ text "/>"
  print (elem name ns) = opening name ++ (print_all ns ++ closing name)
  print (chars bytes) = escape_for_xml bytes
  print (raw bytes) = bytes

  pub print_all : Nodes → Bytes
  print_all no_nodes = []
  print_all (node n ns) = print n ++ print_all ns

-- The character data among the nodes.
unfoldable pub cdata_of : Nodes → Bytes
cdata_of no_nodes = []
cdata_of (node (empty name) ns) = cdata_of ns
cdata_of (node (elem name es) ns) = cdata_of ns
cdata_of (node (chars bytes) ns) = bytes ++ cdata_of ns
cdata_of (node (raw bytes) ns) = copy_lines false bytes ++ cdata_of ns

-- The elements among the nodes.
unfoldable pub elements_of : Nodes → Elements
unfolding cdata_of
elements_of no_nodes = no_children
elements_of (node (empty name) ns) = child (element name [] no_children) (elements_of ns)
elements_of (node (elem name es) ns) =
    child (element name (cdata_of es) (elements_of es)) (elements_of ns)
elements_of (node (chars bytes) ns) = elements_of ns
elements_of (node (raw bytes) ns) = elements_of ns

abbrev pub element_of : String → Nodes → Element
element_of name es = element name (cdata_of es) (elements_of es)

abbrev pub eol : Node
eol = raw end_line

module _ (float_text : ℕ → Bytes) (dialect : Dialect) where
  -- What stands between <value> and </value>.
  unfoldable mutual
    unfolding i8_name nil_name

    pub content_node : Value → Node
    content_node (int i) = elem "i4" (one (raw (decimal_z i)))
    content_node (i8 i) = elem (i8_name dialect) (one (raw (decimal_z i)))
    content_node (bool b) = elem "boolean" (one (raw (if b then text "1" else text "0")))
    content_node (double d) = elem "double" (one (raw (float_text d)))
    content_node (datetime dt) = elem "dateTime.iso8601" (one (raw (format_datetime dt)))
    content_node (string block) = elem "string" (one (chars block))
    content_node (base64 block) = elem "base64" (one (raw (end_line ++ base64_encode block)))
    content_node (array items) = elem "array" (one (elem "data" (node eol (item_nodes items))))
    content_node (struct members) = elem "struct" (node eol (member_nodes members))
    content_node nil = empty (nil_name dialect)
    content_node (c_ptr p) = raw []
    content_node dead = raw []

    pub item_nodes : Values → Nodes
    item_nodes no_items = no_nodes
    item_nodes (item v vs) = node (elem "value" (one (content_node v))) (node eol (item_nodes vs))

    pub member_nodes : Members → Nodes
    member_nodes no_members = no_nodes
    member_nodes (member hash key v ms) =
        node
          (elem "member" (
            node (elem "name" (one (chars key)))
              (node eol (one (elem "value" (one (content_node v)))))))
          (node eol (member_nodes ms))
