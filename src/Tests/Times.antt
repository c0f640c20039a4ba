-- ===== src/Tests/Times.antt =====
-- A time as a datetime, and a format string of xmlrpc_decompose_value.
use xml_rpc.Prelude.{◌%◌, ◌^◌, ◌≡◌, refl, [], codes, text, arith, true}
use xml_rpc.Fault.{ok}
use xml_rpc.Value.{Value}
use xml_rpc.Value.Times.{datetime_new_sec, read_datetime_sec}
use xml_rpc.Value.Times.RoundTrip.{read-datetime_new_sec}
use xml_rpc.Decompose.{
  Decomp, array_decomp, struct_decomp, string_decomp, int_decomp, array_val_decomp, decomp,
  no_decomps, mbr, no_mbrs,
}
use xml_rpc.Decompose.Format.{create_decomp_tree}
use xml_rpc.Decompose.Trees.{format_to, keys_to, IsSmall}
use xml_rpc.Decompose.RoundTrip.{create_decomp_tree-format_to}

-- A second after the last time that an unsigned int holds.
read_datetime_example :
    (v : Value) × (datetime_new_sec 4294967296 ≡ ok v)
    × (read_datetime_sec v ≡ ok (4294967296 % 2 ^ 32))
read_datetime_example = read-datetime_new_sec 4294967296 (omega arith)

-- (i{s:s#,s:A,*}*)
abbrev tree : Decomp
tree = array_decomp true (
    decomp int_decomp (
      decomp
        (struct_decomp
          (mbr (codes "name") (string_decomp true) (mbr (codes "rest") array_val_decomp no_mbrs)))
        no_decomps))

tree-IsSmall : IsSmall tree
unfolding IsSmall
tree-IsSmall = (omega arith, (tt, ((omega arith, (tt, (tt, tt))), tt)))

tree_text : format_to tree [] ≡ codes "(i{s:s#,s:A,*}*)"
unfolding format_to text
tree_text = refl

tree_example : create_decomp_tree (format_to tree []) (keys_to tree []) ≡ ok tree
tree_example = create_decomp_tree-format_to tree tree-IsSmall
