-- ===== src/Element.antt =====
-- The xml_element tree of xmlrpc-c/src/xmlrpc_expat.c, as its accessors show it. The parser behind it is
-- expat. The character data of an element is all of it, in order, the text between children too.
use xml_rpc.Prelude.{ℕ, ◌+◌, String, Bytes}

mutual
  pub data Element : Type 0 where
    element : String → Bytes → Elements → Element

  pub data Elements : Type 0 where
    no_children : Elements
    child : Element → Elements → Elements

-- xml_element_name
abbrev pub element_name : Element → String
element_name (element name cdata es) = name

-- xml_element_cdata, with xml_element_cdata_size
abbrev pub element_cdata : Element → Bytes
element_cdata (element name cdata es) = cdata

-- xml_element_children
abbrev pub element_children : Element → Elements
element_children (element name cdata es) = es

-- xml_element_children_size
abbrev pub children_size : Elements → ℕ
children_size no_children = 0
children_size (child e es) = children_size es + 1
