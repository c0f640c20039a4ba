-- ===== src/ParseValue/Shape.antt =====
-- The documents that xmlrpc_parseValue of xmlrpc-c/src/parse_value.c is given, and the values it is to yield.
use xml_rpc.Prelude.{ℕ, zero, suc, All}
use xml_rpc.Utf8.Chars.{IsByte}
use xml_rpc.Element.{Element, element, Elements, no_children, child}
use xml_rpc.Value.{
  Value, Values, no_items, item, Members, no_members, member, array, struct, string, int, bool,
  double, datetime, base64, c_ptr, nil, i8, dead,
}
use xml_rpc.Value.Structs.Keys.{IsStruct}
use xml_rpc.ParseScalar.Range.{IsScalar, IsLines}

-- The character data of the element, and of all below it, are bytes.
unfoldable mutual
  pub HasBytes : Element → Type 0
  HasBytes (element name cdata es) = All IsByte cdata × HaveBytes es

  pub HaveBytes : Elements → Type 0
  HaveBytes no_children = Unit
  HaveBytes (child e es) = HasBytes e × HaveBytes es

-- The value is in range, its structs have distinct keys with the right hash codes, and it nests at
-- most `depth` deep, a scalar being of depth 1.
unfoldable mutual
  pub Fits : ℕ → Value → Type 0
  Fits zero v = ⊥
  Fits (suc depth) (array vs) = AllFit depth vs
  Fits (suc depth) (struct ms) = IsStruct ms × MembersFit depth ms
  Fits (suc depth) (int i) = IsScalar (int i)
  Fits (suc depth) (bool b) = Unit
  Fits (suc depth) (double d) = Unit
  Fits (suc depth) (datetime dt) = IsScalar (datetime dt)
  Fits (suc depth) (string block) = IsScalar (string block)
  Fits (suc depth) (base64 bytes) = Unit
  Fits (suc depth) (c_ptr p) = ⊥
  Fits (suc depth) nil = Unit
  Fits (suc depth) (i8 i) = IsScalar (i8 i)
  Fits (suc depth) dead = ⊥

  pub AllFit : ℕ → Values → Type 0
  AllFit depth no_items = Unit
  AllFit depth (item v vs) = Fits depth v × AllFit depth vs

  pub MembersFit : ℕ → Members → Type 0
  MembersFit depth no_members = Unit
  MembersFit depth (member hash key v ms) = IsLines key × Fits depth v × MembersFit depth ms
