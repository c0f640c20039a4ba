-- ===== src/Registry/Rpc.antt =====
-- A remote procedure call, from the client's serializer through the server's registry and back to the
-- client's parser: xmlrpc-c/src/xmlrpc_serialize.c, xmlrpc-c/src/registry.c and xmlrpc-c/src/xmlrpc_parse.c.
use xml_rpc.Prelude.{ℕ, ◌≡◌, false, ltb, Bytes, length, String}
use xml_rpc.Fault.{Fault, Result, ok}
use xml_rpc.Element.{Element}
use xml_rpc.Value.{Value}
use xml_rpc.Serialize.{Dialect}
use xml_rpc.ParseScalar.Double.{FloatOps}
use xml_rpc.Document.{Nodes, element_of}
use xml_rpc.ParseCall.Printed.{document}
use xml_rpc.Registry.{Registry}
use xml_rpc.Registry.System.{Version}

module _ (float_text : ℕ → Bytes) {World CallInfo : Type 0} (version : Version)
    (registry : Registry World CallInfo) where
  module _ (fl : FloatOps) (xml_parse : Bytes → Result Element) (xml_size_limit : ℕ) where
    -- The text of a document is within the limit, and the XML processor makes of it the elements of
    -- the document.
    abbrev pub IsRead : Dialect → String → Nodes → Type 0
    IsRead dialect name ns =
        (ltb xml_size_limit (length (document dialect name ns)) ≡ false)
        × (xml_parse (document dialect name ns) ≡ ok (element_of name ns))
