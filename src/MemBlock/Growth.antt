-- ===== src/MemBlock/Growth.antt =====
-- xmlrpc-c/lib/libutil/memblock.c: what a block holds after its growth.
use xml_rpc.Prelude.{
  ℕ, zero, suc, ◌+◌, ◌*◌, ◌%◌, ◌^◌, ◌≤◌, ◌<◌, ◌≡◌, refl, ap, ◌∙◌, true, false, ◌&&◌, ◌++◌, ltb, leb,
  if◌then◌else◌, Bytes, length, take, drop, arith, Bool-cases, inl, inr, length-append, length-take,
  length-drop, take-length-append,
}
use xml_rpc.Fault.{ok}
use xml_rpc.MemBlock.{
  block_alloc_max, MemBlock, malloc, contents, grow, mem_block_init, reallocate, mem_block_resize,
  copy_at, mem_block_append,
}

-- The memory is as large as the block says, which has room for its contents.
pub record IsBlock (b : MemBlock) : Type 0 where
  pub fits : b.size ≤ b.allocated
  pub whole : length b.block ≡ b.allocated
  pub least : 16 ≤ b.allocated

-- So many doublings.
abbrev reach : ℕ → ℕ → ℕ
reach zero a = a
reach (suc n) a = reach n (a * 2)

grow_lem :
    (fuel a size : ℕ)
    → size ≤ 2 ^ 26
    → a < 2 * size
    → size ≤ reach fuel a
    → (size ≤ grow fuel a size) × (grow fuel a size ≤ 2 * size)
unfolding grow
grow_lem zero a size small bound enough = (enough, omega arith)
grow_lem (suc fuel) a size small bound enough =
    elim (Bool-cases (ltb a size && leb a block_alloc_max)) [
      | inl h ↦ rw h (grow_lem fuel (a * 2) size small (ground arith) enough)
      | inr h ↦ rw h (ground arith, omega arith)
    ]

length-malloc : (garbage n : ℕ) → length (malloc garbage n) ≡ n
unfolding malloc
length-malloc garbage zero = refl
length-malloc garbage (suc n) = omega (arith, length-malloc garbage n)

-- Overwriting what is behind the start leaves what is before it, and has the new bytes.
take-copy_at :
    (start : ℕ) (bytes memory : Bytes)
    → start + length bytes ≤ length memory
    → take (start + length bytes) (copy_at start bytes memory) ≡ take start memory ++ bytes
unfolding copy_at
take-copy_at start bytes memory h =
    ap (λ n. take n ((take start memory ++ bytes) ++ drop (start + length bytes) memory)) count
    ∙ take-length-append (take start memory ++ bytes) (drop (start + length bytes) memory)
  where
    count : start + length bytes ≡ length (take start memory ++ bytes)
    count = omega (arith, length-append (take start memory) bytes, length-take start memory)

length-copy_at :
    (start : ℕ) (bytes memory : Bytes)
    → start + length bytes ≤ length memory
    → length (copy_at start bytes memory) ≡ length memory
unfolding copy_at
length-copy_at start bytes memory h = omega (
  arith,
  length-append (take start memory ++ bytes) (drop (start + length bytes) memory),
  length-append (take start memory) bytes,
  length-take start memory,
  length-drop (start + length bytes) memory,
)

-- What resizing to a larger size gives.
IsResized : MemBlock → ℕ → MemBlock → Type 0
IsResized b n b' = (b'.size ≡ n) × IsBlock b' × (take b.size b'.block ≡ take b.size b.block)

reallocate_lem :
    (garbage : ℕ) (b : MemBlock) (n alloc : ℕ)
    → IsBlock b
    → b.size ≤ n
    → n ≤ alloc
    → 16 ≤ alloc
    → alloc ≤ block_alloc_max
    → (b' : MemBlock) × (reallocate garbage b n alloc ≡ ok b') × IsResized b n b'
unfolding reallocate IsResized
reallocate_lem garbage b n alloc is_block h fits least largest = (
  _,
  rw (below alloc largest, reallocate) refl,
  (
    refl,
    record {
      fits = fits;
      whole = omega (
        arith,
        length-append (take b.size b.block) (drop b.size (malloc garbage alloc)),
        length-take b.size b.block,
        length-drop b.size (malloc garbage alloc),
        length-malloc garbage alloc,
        is_block.fits,
        is_block.whole,
      );
      least = least;
    },
    ap (λ k. take k (take b.size b.block ++ drop b.size (malloc garbage alloc))) count
        ∙ take-length-append (take b.size b.block) (drop b.size (malloc garbage alloc)),
  ),
)
  where
    below : (alloc : ℕ) → alloc ≤ block_alloc_max → ltb block_alloc_max alloc ≡ false
    below alloc h = ground arith

    count : b.size ≡ length (take b.size b.block)
    count = omega (arith, length-take b.size b.block, is_block.fits, is_block.whole)

resize_lem :
    (garbage : ℕ) (b : MemBlock) (n : ℕ)
    → IsBlock b
    → b.size ≤ n
    → n ≤ 2 ^ 26
    → (b' : MemBlock) × (mem_block_resize garbage b n ≡ ok b') × IsResized b n b'
unfolding mem_block_resize IsResized
resize_lem garbage b n is_block h small = elim (Bool-cases (leb n b.allocated)) [
  | inl enough ↦ (
    record b { size = n },
    rw (enough, mem_block_resize) refl,
    (
      refl,
      record { fits = within n b.allocated enough; whole = is_block.whole; least = is_block.least },
      refl,
    ),
  )
  | inr more ↦
      let grown =
        grow_lem 28 b.allocated n small (omega (arith, beyond n b.allocated more))
          (omega (arith, is_block.least)) in
      let (b', run, resized) =
        reallocate_lem garbage b n (grow 28 b.allocated n) is_block h grown.0
          (omega (arith, grown.0, beyond n b.allocated more, is_block.least))
          (omega (arith, grown.1)) in
      (b', rw (more, mem_block_resize) run, resized)
]
  where
    within : (n allocated : ℕ) → leb n allocated ≡ true → n ≤ allocated
    within n allocated h = ground arith

    beyond : (n allocated : ℕ) → leb n allocated ≡ false → allocated < n
    beyond n allocated h = ground arith

appended-IsBlock :
    (b b' : MemBlock) (bytes : Bytes)
    → IsResized b (b.size + length bytes) b'
    → IsBlock (record b' { block = copy_at b.size bytes b'.block })
unfolding IsResized
appended-IsBlock b b' bytes (same, is_block, kept) = record {
  fits = is_block.fits;
  whole =
      length-copy_at b.size bytes b'.block (omega (arith, same, is_block.fits, is_block.whole))
      ∙ is_block.whole;
  least = is_block.least;
}

appended-contents :
    (b b' : MemBlock) (bytes : Bytes)
    → IsResized b (b.size + length bytes) b'
    → contents (record b' { block = copy_at b.size bytes b'.block }) ≡ contents b ++ bytes
unfolding IsResized contents
appended-contents b b' bytes (same, is_block, kept) =
    ap (λ n. take n (copy_at b.size bytes b'.block)) same
    ∙ take-copy_at b.size bytes b'.block (omega (arith, same, is_block.fits, is_block.whole))
    ∙ ap (λ before. before ++ bytes) kept

-- To a block that is well formed bytes can be appended up to 64 megabytes: this does not fail, the block stays
-- well formed, and its contents are what they were, followed by the bytes.
pub mem_block_append-contents :
    (garbage : ℕ) (b : MemBlock) (bytes : Bytes)
    → IsBlock b
    → b.size + length bytes ≤ 2 ^ 26
    → (b' : MemBlock) × (mem_block_append garbage b bytes ≡ ok b')
      × IsBlock b'
      × (contents b' ≡ contents b ++ bytes)
unfolding mem_block_append
mem_block_append-contents garbage b bytes is_block small =
    let (b', run, resized) =
      resize_lem garbage b (b.size + length bytes) is_block (omega arith) small in
    (
      record b' { block = copy_at b.size bytes b'.block },
      rw (no_wrap (b.size + length bytes) small, mem_block_append)
          (rw (run, mem_block_append) refl),
      appended-IsBlock b b' bytes resized,
      appended-contents b b' bytes resized,
    )
  where
    no_wrap : (n : ℕ) → n ≤ 2 ^ 26 → n % 2 ^ 64 ≡ n
    no_wrap n h = omega arith

-- A new block is well formed.
pub mem_block_init-IsBlock : (garbage n : ℕ) → IsBlock (mem_block_init garbage n)
unfolding mem_block_init
mem_block_init-IsBlock garbage n = record {
  fits = ground arith;
  whole = length-malloc garbage (if ltb n 16 then 16 else n);
  least = ground arith;
}
