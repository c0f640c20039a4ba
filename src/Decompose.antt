-- ===== src/Decompose.antt =====
-- xmlrpc-c/src/xmlrpc_decompose.c: taking a value apart as a format string says. Of the variable arguments
-- the keys are arguments here, and the results are what the source stores through the pointers, in
-- their order. The old-style routines store the same values; releasing what was stored before a
-- fault has no counterpart.
pub mod Format
pub mod Trees
pub mod RoundTrip
use xml_rpc.Prelude.{
  ℕ, zero, suc, ◌+◌, Bool, true, false, not, ◌&&◌, ◌||◌, List, [], ◌∷◌, ◌++◌, ltb, leb, ◌==◌,
  if◌then◌else◌, Bytes, ℤ, length,
}
use xml_rpc.Fault.{Result, ok, err, type_error, index_error, fault, faultf, ◌>>=◌, ◌>>◌}
use xml_rpc.Value.{Value, array, struct}
use xml_rpc.Value.Strings.{read_string, read_string_lp}
use xml_rpc.Value.Strings.Wide.{read_string_w, read_string_w_lp}
use xml_rpc.Value.Arrays.{array_size, array_read_item}
use xml_rpc.Value.Structs.{struct_read_value}
use xml_rpc.Value.Data.{read_int, read_bool, read_double, read_base64, read_cptr, read_nil, read_i8}
use xml_rpc.Value.Times.{read_datetime_sec, read_datetime_str}

-- What is stored for one specifier.
pub data Slot : Type 0 where
  int32_slot : ℤ → Slot
  bool_slot : Bool → Slot
  double_slot : ℕ → Slot
  time_slot : ℕ → Slot
  text_slot : Bytes → Slot
  sized_slot : Bytes → Slot
  wide_slot : List ℕ → Slot
  sized_wide_slot : List ℕ → Slot
  bytes_slot : Bytes → Slot
  pointer_slot : ℕ → Slot
  int64_slot : ℤ → Slot
  value_slot : Value → Slot

-- struct decompTreeNode, arrayDecomp and structDecomp
mutual
  pub data Decomp : Type 0 where
    skip_decomp int_decomp bool_decomp double_decomp datetime_t_decomp datetime_8_decomp : Decomp
    string_decomp wide_string_decomp : Bool → Decomp
    bit_string_decomp nil_decomp i8_decomp cptr_decomp value_decomp : Decomp
    array_val_decomp struct_val_decomp : Decomp
    array_decomp : Bool → Decomps → Decomp
    struct_decomp : MbrDecomps → Decomp

  pub data Decomps : Type 0 where
    no_decomps : Decomps
    decomp : Decomp → Decomps → Decomps

  pub data MbrDecomps : Type 0 where
    no_mbrs : MbrDecomps
    mbr : Bytes → Decomp → MbrDecomps → MbrDecomps

unfoldable pub item_cnt : Decomps → ℕ
item_cnt no_decomps = 0
item_cnt (decomp d ds) = item_cnt ds + 1

-- validateArraySize
unfoldable pub validate_array_size : Value → Bool → ℕ → Result (Unit {0})
validate_array_size v ignore_excess wanted = do
  size ← array_size v
  if ltb size wanted
      then fault index_error
          "Format string requests %u items from array, but array has only %u items."
      else if ltb wanted size && not ignore_excess
      then fault index_error
          "Format string requests exactly %u items from array, but array has %u items.  (A '*' at the end would avoid this failure)"
      else ok tt

-- One result of a reading routine.
abbrev stored {ℓ} : {A : Type ℓ} → (A → Slot) → Result A → Result (List Slot)
stored slot reading = do x ← reading; ok (slot x ∷ [])

unfoldable mutual
  -- decomposeValueWithTree
  pub decompose_value_with_tree : Value → Decomp → Result (List Slot)
  decompose_value_with_tree v skip_decomp = ok []
  decompose_value_with_tree v int_decomp = stored int32_slot (read_int v)
  decompose_value_with_tree v bool_decomp = stored bool_slot (read_bool v)
  decompose_value_with_tree v double_decomp = stored double_slot (read_double v)
  decompose_value_with_tree v datetime_t_decomp = stored time_slot (read_datetime_sec v)
  decompose_value_with_tree v datetime_8_decomp = stored text_slot (read_datetime_str v)
  decompose_value_with_tree v (string_decomp true) = stored sized_slot (read_string_lp v)
  decompose_value_with_tree v (string_decomp false) = stored text_slot (read_string v)
  decompose_value_with_tree v (wide_string_decomp true) =
      stored sized_wide_slot (read_string_w_lp v)
  decompose_value_with_tree v (wide_string_decomp false) = stored wide_slot (read_string_w v)
  decompose_value_with_tree v bit_string_decomp = stored bytes_slot (read_base64 v)
  decompose_value_with_tree v nil_decomp = do read_nil v; ok []
  decompose_value_with_tree v i8_decomp = stored int64_slot (read_i8 v)
  decompose_value_with_tree v cptr_decomp = stored pointer_slot (read_cptr v)
  decompose_value_with_tree v value_decomp = ok (value_slot v ∷ [])
  decompose_value_with_tree v array_val_decomp = elim v [
    | array vs ↦ ok (value_slot (array vs) ∷ [])
    | _ ↦
        fault type_error
          "Value to be decomposed is of type %s, but the 'A' specifier requires type ARRAY"
  ]
  decompose_value_with_tree v struct_val_decomp = elim v [
    | struct ms ↦ ok (value_slot (struct ms) ∷ [])
    | _ ↦
        fault type_error
          "Value to be decomposed is of type %s, but the 'S' specifier requires type STRUCT."
  ]
  decompose_value_with_tree v (array_decomp ignore_excess ds) = elim v [
    | array vs ↦
        validate_array_size (array vs) ignore_excess (item_cnt ds)
        >> decompose_array (array vs) 0 ds
    | _ ↦
        fault type_error
          "Value to be decomposed is of type %s, but the '(...)' specifier requires type ARRAY"
  ]
  decompose_value_with_tree v (struct_decomp ms) = elim v [
    | struct members ↦ decompose_struct (struct members) ms
    | _ ↦
        fault type_error
          "Value to be decomposed is of type %s, but the '{...}' specifier requires type STRUCT"
  ]

  -- The loop of parsearray, from an index on.
  pub decompose_array : Value → ℕ → Decomps → Result (List Slot)
  decompose_array v done_cnt no_decomps = ok []
  decompose_array v done_cnt (decomp d ds) = do
    item ← array_read_item v done_cnt
    slots ← decompose_value_with_tree item d
    later ← decompose_array v (done_cnt + 1) ds
    ok (slots ++ later)

  -- The loop of parsestruct.
  pub decompose_struct : Value → MbrDecomps → Result (List Slot)
  decompose_struct v no_mbrs = ok []
  decompose_struct v (mbr key d ms) = do
    x ← struct_read_value v key
    slots ← decompose_value_with_tree x d
    later ← decompose_struct v ms
    ok (slots ++ later)
