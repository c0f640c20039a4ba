-- ===== src/Decompose/Trees.antt =====
-- xmlrpc-c/src/xmlrpc_decompose.c: the format strings of decomposition trees.
use xml_rpc.Prelude.{ℕ, suc, ◌+◌, ◌*◌, ◌≤◌, Bool, true, false, List, ◌∷◌, Bytes, length, arith}
use xml_rpc.Decompose.{
  Decomp, skip_decomp, int_decomp, bool_decomp, double_decomp, datetime_t_decomp, datetime_8_decomp,
  string_decomp, wide_string_decomp, bit_string_decomp, nil_decomp, i8_decomp, cptr_decomp,
  value_decomp, array_val_decomp, struct_val_decomp, array_decomp, struct_decomp, Decomps,
  no_decomps, decomp, MbrDecomps, no_mbrs, mbr,
}

-- The end of an array, which may let further items be.
abbrev pub array_tail : Bool → Bytes → Bytes
array_tail true rest = b'*' ∷ b')' ∷ rest
array_tail false rest = b')' ∷ rest

-- The format string of a tree, before a rest.
unfoldable mutual
  pub format_to : Decomp → Bytes → Bytes
  format_to skip_decomp rest = b'-' ∷ rest
  format_to int_decomp rest = b'i' ∷ rest
  format_to bool_decomp rest = b'b' ∷ rest
  format_to double_decomp rest = b'd' ∷ rest
  format_to datetime_t_decomp rest = b't' ∷ rest
  format_to datetime_8_decomp rest = b'8' ∷ rest
  format_to (string_decomp true) rest = b's' ∷ b'#' ∷ rest
  format_to (string_decomp false) rest = b's' ∷ rest
  format_to (wide_string_decomp true) rest = b'w' ∷ b'#' ∷ rest
  format_to (wide_string_decomp false) rest = b'w' ∷ rest
  format_to bit_string_decomp rest = b'6' ∷ rest
  format_to nil_decomp rest = b'n' ∷ rest
  format_to i8_decomp rest = b'I' ∷ rest
  format_to cptr_decomp rest = b'p' ∷ rest
  format_to value_decomp rest = b'V' ∷ rest
  format_to array_val_decomp rest = b'A' ∷ rest
  format_to struct_val_decomp rest = b'S' ∷ rest
  format_to (array_decomp excess ds) rest = b'(' ∷ formats_to ds (array_tail excess rest)
  format_to (struct_decomp ms) rest = b'{' ∷ mbr_formats_to ms (b'*' ∷ b'}' ∷ rest)

  pub formats_to : Decomps → Bytes → Bytes
  formats_to no_decomps rest = rest
  formats_to (decomp d ds) rest = format_to d (formats_to ds rest)

  pub mbr_formats_to : MbrDecomps → Bytes → Bytes
  mbr_formats_to no_mbrs rest = rest
  mbr_formats_to (mbr key d ms) rest = b's' ∷ b':' ∷ format_to d (b',' ∷ mbr_formats_to ms rest)

-- The keys of its members, in the order of the arguments.
unfoldable mutual
  pub keys_to : Decomp → List Bytes → List Bytes
  keys_to (array_decomp excess ds) keys = all_keys_to ds keys
  keys_to (struct_decomp ms) keys = mbr_keys_to ms keys
  keys_to d keys = keys

  pub all_keys_to : Decomps → List Bytes → List Bytes
  all_keys_to no_decomps keys = keys
  all_keys_to (decomp d ds) keys = keys_to d (all_keys_to ds keys)

  pub mbr_keys_to : MbrDecomps → List Bytes → List Bytes
  mbr_keys_to no_mbrs keys = keys
  mbr_keys_to (mbr key d ms) keys = key ∷ keys_to d (mbr_keys_to ms keys)

abbrev pub mbr_cnt : MbrDecomps → ℕ
mbr_cnt no_mbrs = 0
mbr_cnt (mbr key d ms) = mbr_cnt ms + 1

abbrev pub cnt_of : Decomps → ℕ
cnt_of no_decomps = 0
cnt_of (decomp d ds) = cnt_of ds + 1

-- No array or struct of the tree has more than 16 parts.
unfoldable mutual
  pub IsSmall : Decomp → Type 0
  IsSmall (array_decomp excess ds) = (cnt_of ds ≤ 16) × AllSmall ds
  IsSmall (struct_decomp ms) = (mbr_cnt ms ≤ 16) × MbrsSmall ms
  IsSmall d = Unit

  pub AllSmall : Decomps → Type 0
  AllSmall no_decomps = Unit
  AllSmall (decomp d ds) = IsSmall d × AllSmall ds

  pub MbrsSmall : MbrDecomps → Type 0
  MbrsSmall no_mbrs = Unit
  MbrsSmall (mbr key d ms) = IsSmall d × MbrsSmall ms

-- The fuel that reading a tree takes.
unfoldable mutual
  pub cost : Decomp → ℕ
  cost (array_decomp excess ds) = suc (costs ds)
  cost (struct_decomp ms) = suc (mbr_costs ms)
  cost d = 1

  pub costs : Decomps → ℕ
  costs no_decomps = 1
  costs (decomp d ds) = suc (cost d + costs ds)

  pub mbr_costs : MbrDecomps → ℕ
  mbr_costs no_mbrs = 1
  mbr_costs (mbr key d ms) = suc (cost d + mbr_costs ms)

pub cost_pos : (d : Decomp) → 1 ≤ cost d
unfolding cost
cost_pos (array_decomp excess ds) = omega arith
cost_pos (struct_decomp ms) = omega arith
cost_pos skip_decomp = omega arith
cost_pos int_decomp = omega arith
cost_pos bool_decomp = omega arith
cost_pos double_decomp = omega arith
cost_pos datetime_t_decomp = omega arith
cost_pos datetime_8_decomp = omega arith
cost_pos (string_decomp sized) = omega arith
cost_pos (wide_string_decomp sized) = omega arith
cost_pos bit_string_decomp = omega arith
cost_pos nil_decomp = omega arith
cost_pos i8_decomp = omega arith
cost_pos cptr_decomp = omega arith
cost_pos value_decomp = omega arith
cost_pos array_val_decomp = omega arith
cost_pos struct_val_decomp = omega arith

pub costs_pos : (ds : Decomps) → 1 ≤ costs ds
unfolding costs
costs_pos no_decomps = omega arith
costs_pos (decomp d ds) = omega arith

pub mbr_costs_pos : (ms : MbrDecomps) → 1 ≤ mbr_costs ms
unfolding mbr_costs
mbr_costs_pos no_mbrs = omega arith
mbr_costs_pos (mbr key d ms) = omega arith

tail_length : (excess : Bool) (rest : Bytes) → length rest + 1 ≤ length (array_tail excess rest)
tail_length true rest = omega arith
tail_length false rest = omega arith

-- Twice the length of the text of a tree is above its cost.
mutual
  unfolding format_to cost

  pub cost_bound :
      (d : Decomp) (rest : Bytes) → cost d + 1 + 2 * length rest ≤ 2 * length (format_to d rest)
  cost_bound skip_decomp rest = omega arith
  cost_bound int_decomp rest = omega arith
  cost_bound bool_decomp rest = omega arith
  cost_bound double_decomp rest = omega arith
  cost_bound datetime_t_decomp rest = omega arith
  cost_bound datetime_8_decomp rest = omega arith
  cost_bound (string_decomp true) rest = omega arith
  cost_bound (string_decomp false) rest = omega arith
  cost_bound (wide_string_decomp true) rest = omega arith
  cost_bound (wide_string_decomp false) rest = omega arith
  cost_bound bit_string_decomp rest = omega arith
  cost_bound nil_decomp rest = omega arith
  cost_bound i8_decomp rest = omega arith
  cost_bound cptr_decomp rest = omega arith
  cost_bound value_decomp rest = omega arith
  cost_bound array_val_decomp rest = omega arith
  cost_bound struct_val_decomp rest = omega arith
  cost_bound (array_decomp excess ds) rest =
      omega (arith, costs_bound ds (array_tail excess rest), tail_length excess rest)
  cost_bound (struct_decomp ms) rest = omega (arith, mbr_costs_bound ms (b'*' ∷ b'}' ∷ rest))

  costs_bound :
      (ds : Decomps) (rest : Bytes)
      → costs ds + 2 * length rest ≤ 2 * length (formats_to ds rest) + 1
  costs_bound no_decomps rest = omega arith
  costs_bound (decomp d ds) rest =
      omega (arith, cost_bound d (formats_to ds rest), costs_bound ds rest)

  mbr_costs_bound :
      (ms : MbrDecomps) (rest : Bytes)
      → mbr_costs ms + 2 * length rest ≤ 2 * length (mbr_formats_to ms rest) + 1
  mbr_costs_bound no_mbrs rest = omega arith
  mbr_costs_bound (mbr key d ms) rest =
      omega (arith, cost_bound d (b',' ∷ mbr_formats_to ms rest), mbr_costs_bound ms rest)
