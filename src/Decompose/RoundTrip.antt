-- ===== src/Decompose/RoundTrip.antt =====
-- xmlrpc-c/src/xmlrpc_decompose.c: the text of a decomposition tree makes the tree.
use xml_rpc.Prelude.{
  ℕ, zero, suc, ◌+◌, ◌*◌, ◌≤◌, ◌≡◌, refl, Bool, true, false, ◌||◌, List, [], ◌∷◌, leb, ◌==◌, Bytes,
  length, arith,
}
use xml_rpc.Fault.{ok}
use xml_rpc.Decompose.{
  Decomp, skip_decomp, int_decomp, bool_decomp, double_decomp, datetime_t_decomp, datetime_8_decomp,
  string_decomp, wide_string_decomp, bit_string_decomp, nil_decomp, i8_decomp, cptr_decomp,
  value_decomp, array_val_decomp, struct_val_decomp, array_decomp, struct_decomp, Decomps,
  no_decomps, decomp, MbrDecomps, no_mbrs, mbr,
}
use xml_rpc.Decompose.Format.{
  parsed, current, create_decomp_tree_next, build_array_decomp_branch, build_struct_decomp_branch,
  create_decomp_tree,
}
use xml_rpc.Decompose.Trees.{
  array_tail, format_to, formats_to, mbr_formats_to, keys_to, all_keys_to, mbr_keys_to, mbr_cnt,
  cnt_of, IsSmall, AllSmall, MbrsSmall, cost, costs, mbr_costs, cost_pos, costs_pos, mbr_costs_pos,
  cost_bound,
}

-- No specifier begins with the end of an array, or with the sign that asks for a size.
not_end :
    (d : Decomp) (rest : Bytes)
    → ((current (format_to d rest) == 0
          || current (format_to d rest) == b')'
          || current (format_to d rest) == b'*')
        ≡ false)
      × ((current (format_to d rest) == b'#') ≡ false)
unfolding format_to
not_end skip_decomp rest = (refl, refl)
not_end int_decomp rest = (refl, refl)
not_end bool_decomp rest = (refl, refl)
not_end double_decomp rest = (refl, refl)
not_end datetime_t_decomp rest = (refl, refl)
not_end datetime_8_decomp rest = (refl, refl)
not_end (string_decomp true) rest = (refl, refl)
not_end (string_decomp false) rest = (refl, refl)
not_end (wide_string_decomp true) rest = (refl, refl)
not_end (wide_string_decomp false) rest = (refl, refl)
not_end bit_string_decomp rest = (refl, refl)
not_end nil_decomp rest = (refl, refl)
not_end i8_decomp rest = (refl, refl)
not_end cptr_decomp rest = (refl, refl)
not_end value_decomp rest = (refl, refl)
not_end array_val_decomp rest = (refl, refl)
not_end struct_val_decomp rest = (refl, refl)
not_end (array_decomp excess ds) rest = (refl, refl)
not_end (struct_decomp ms) rest = (refl, refl)

not_full : (cnt left : ℕ) → cnt + (left + 1) ≤ 16 → leb 16 cnt ≡ false
not_full cnt left h = ground arith

array_hash :
    (excess : Bool) (ds : Decomps) (rest : Bytes)
    → (current (formats_to ds (array_tail excess rest)) == b'#') ≡ false
unfolding formats_to
array_hash true no_decomps rest = refl
array_hash false no_decomps rest = refl
array_hash excess (decomp d ds) rest = (not_end d (formats_to ds (array_tail excess rest))).1

mutual
  unfolding create_decomp_tree_next format_to keys_to cost IsSmall

  next_lem :
      (fuel : ℕ) (d : Decomp) (rest : Bytes) (keys : List Bytes)
      → cost d ≤ fuel
      → IsSmall d
      → (current rest == b'#') ≡ false
      → create_decomp_tree_next fuel (format_to d rest) (keys_to d keys) ≡ parsed d rest keys
  next_lem zero d rest keys c s h = absurd (omega (arith, cost_pos d))
  next_lem (suc fuel) skip_decomp rest keys c s h = refl
  next_lem (suc fuel) int_decomp rest keys c s h = refl
  next_lem (suc fuel) bool_decomp rest keys c s h = refl
  next_lem (suc fuel) double_decomp rest keys c s h = refl
  next_lem (suc fuel) datetime_t_decomp rest keys c s h = refl
  next_lem (suc fuel) datetime_8_decomp rest keys c s h = refl
  next_lem (suc fuel) (string_decomp true) rest keys c s h = refl
  next_lem (suc fuel) (string_decomp false) rest keys c s h = rw h refl
  next_lem (suc fuel) (wide_string_decomp true) rest keys c s h = refl
  next_lem (suc fuel) (wide_string_decomp false) rest keys c s h = rw h refl
  next_lem (suc fuel) bit_string_decomp rest keys c s h = refl
  next_lem (suc fuel) nil_decomp rest keys c s h = refl
  next_lem (suc fuel) i8_decomp rest keys c s h = refl
  next_lem (suc fuel) cptr_decomp rest keys c s h = refl
  next_lem (suc fuel) value_decomp rest keys c s h = refl
  next_lem (suc fuel) array_val_decomp rest keys c s h = refl
  next_lem (suc fuel) struct_val_decomp rest keys c s h = refl
  next_lem (suc fuel) (array_decomp excess ds) rest keys c s h =
      rw (array_lem fuel 0 ds excess rest keys (omega arith) (omega (arith, s.0)) s.1) refl
  next_lem (suc fuel) (struct_decomp ms) rest keys c s h =
      rw (struct_lem fuel 0 ms rest keys (omega arith) (omega (arith, s.0)) s.1) refl

  array_lem :
      (fuel cnt : ℕ) (ds : Decomps) (excess : Bool) (rest : Bytes) (keys : List Bytes)
      → costs ds ≤ fuel
      → cnt + cnt_of ds ≤ 16
      → AllSmall ds
      → build_array_decomp_branch fuel cnt
          (formats_to ds (array_tail excess rest))
          (all_keys_to ds keys)
        ≡ parsed (excess, ds) rest keys
  array_lem zero cnt ds excess rest keys c n s = absurd (omega (arith, costs_pos ds))
  array_lem (suc fuel) cnt no_decomps true rest keys c n s = refl
  array_lem (suc fuel) cnt no_decomps false rest keys c n s = refl
  array_lem (suc fuel) cnt (decomp d ds) excess rest keys c n s =
      rw ((not_end d (formats_to ds (array_tail excess rest))).0, build_array_decomp_branch)
        (rw (not_full cnt (cnt_of ds) n, build_array_decomp_branch)
          (rw
            (next_lem fuel d (formats_to ds (array_tail excess rest)) (all_keys_to ds keys)
              (omega arith) s.0 (array_hash excess ds rest))
            (rw (array_lem fuel (cnt + 1) ds excess rest keys (omega arith) (omega arith) s.1)
              refl)))

  struct_lem :
      (fuel cnt : ℕ) (ms : MbrDecomps) (rest : Bytes) (keys : List Bytes)
      → mbr_costs ms ≤ fuel
      → cnt + mbr_cnt ms ≤ 16
      → MbrsSmall ms
      → build_struct_decomp_branch fuel cnt
          (mbr_formats_to ms (b'*' ∷ b'}' ∷ rest))
          (mbr_keys_to ms keys)
        ≡ parsed ms rest keys
  struct_lem zero cnt ms rest keys c n s = absurd (omega (arith, mbr_costs_pos ms))
  struct_lem (suc fuel) cnt no_mbrs rest keys c n s = refl
  struct_lem (suc fuel) cnt (mbr key d ms) rest keys c n s =
      rw (not_full cnt (mbr_cnt ms) n, build_struct_decomp_branch)
        (rw
          (next_lem fuel d (b',' ∷ mbr_formats_to ms (b'*' ∷ b'}' ∷ rest)) (mbr_keys_to ms keys)
            (omega arith) s.0 refl)
          (rw (struct_lem fuel (cnt + 1) ms rest keys (omega arith) (omega arith) s.1) refl))

-- The format string of a tree and the keys of its members make the tree again. No array or struct of
-- the tree has more than 16 parts.
pub create_decomp_tree-format_to :
    (d : Decomp) → IsSmall d → create_decomp_tree (format_to d []) (keys_to d []) ≡ ok d
unfolding create_decomp_tree
create_decomp_tree-format_to d small =
    rw
      (
        next_lem (length (format_to d []) * 2 + 2) d [] [] (omega (arith, cost_bound d [])) small
            refl,
        create_decomp_tree,
      )
      refl
