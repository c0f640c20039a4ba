-- ===== src/MemBlock.antt =====
-- xmlrpc-c/lib/libutil/memblock.c, as built without EFENCE. malloc has the memory that is asked for; what it
-- holds is a byte that is a parameter. A size_t has 64 bits.
pub mod Growth
use xml_rpc.Prelude.{
  ℕ, zero, suc, ◌+◌, ◌-◌, ◌*◌, ◌%◌, ◌^◌, Bool, true, false, ◌&&◌, List, [], ◌∷◌, ◌++◌, ltb, leb,
  if◌then◌else◌, Bytes, length, take, drop,
}
use xml_rpc.Fault.{Result, ok, err, internal_error, fault, ◌>>=◌}

abbrev pub block_alloc_min : ℕ
block_alloc_min = 16

abbrev pub block_alloc_max : ℕ
block_alloc_max = 128 * 1024 * 1024

-- xmlrpc_mem_block; the block is the whole of the memory that is allocated.
pub record MemBlock : Type 0 where
  pub size : ℕ
  pub allocated : ℕ
  pub block : Bytes

unfoldable pub malloc : ℕ → ℕ → Bytes
malloc garbage zero = []
malloc garbage (suc n) = garbage ∷ malloc garbage n

-- xmlrpc_mem_block_contents, of which the size says how much counts
unfoldable pub contents : MemBlock → Bytes
contents b = take b.size b.block

-- The loop of xmlrpc_mem_block_resize; 28 rounds go past the largest block.
unfoldable pub grow : ℕ → ℕ → ℕ → ℕ
grow zero proposed_alloc size = proposed_alloc
grow (suc fuel) proposed_alloc size =
    let next = grow fuel (proposed_alloc * 2) size in
    if ltb proposed_alloc size && leb proposed_alloc block_alloc_max then next else proposed_alloc

-- memcpy to a place in the block
unfoldable pub copy_at : ℕ → Bytes → Bytes → Bytes
copy_at start bytes memory = take start memory ++ bytes ++ drop (start + length bytes) memory

module _ (garbage : ℕ) where
  -- xmlrpc_mem_block_init, and xmlrpc_mem_block_new
  unfoldable pub mem_block_init : ℕ → MemBlock
  unfolding malloc
  mem_block_init n =
      let alloc = if ltb n block_alloc_min then block_alloc_min else n in
      record { size = n; allocated = alloc; block = malloc garbage alloc }

  -- xmlrpc_mem_block_resize, where there is not enough space yet
  unfoldable pub reallocate : MemBlock → ℕ → ℕ → Result MemBlock
  unfolding malloc
  reallocate b n proposed_alloc =
      if ltb block_alloc_max proposed_alloc
      then fault internal_error "Memory block too large"
      else ok (record {
        size = n;
        allocated = proposed_alloc;
        block = take b.size b.block ++ drop b.size (malloc garbage proposed_alloc);
      })

  -- xmlrpc_mem_block_resize
  unfoldable pub mem_block_resize : MemBlock → ℕ → Result MemBlock
  unfolding reallocate grow
  mem_block_resize b n =
      if leb n b.allocated
      then ok (record b { size = n })
      else reallocate b n (grow 28 b.allocated n)

  -- xmlrpc_mem_block_append
  unfoldable pub mem_block_append : MemBlock → Bytes → Result MemBlock
  unfolding mem_block_resize copy_at
  mem_block_append b bytes = do
    b' ← mem_block_resize b ((b.size + length bytes) % 2 ^ 64)
    ok (record b' { block = copy_at b.size bytes b'.block })
