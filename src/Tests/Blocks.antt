-- ===== src/Tests/Blocks.antt =====
-- A memory block that grows.
use xml_rpc.Prelude.{◌+◌, ◌^◌, ◌≤◌, ◌≡◌, ◌++◌, Bytes, codes, length, arith}
use xml_rpc.Fault.{ok}
use xml_rpc.MemBlock.{MemBlock, mem_block_init, mem_block_append, contents}
use xml_rpc.MemBlock.Growth.{IsBlock, mem_block_append-contents, mem_block_init-IsBlock}

abbrev sentence : Bytes
sentence = codes "more than sixteen bytes"

new_block-size : (mem_block_init 7 3).size + length sentence ≤ 2 ^ 26
unfolding mem_block_init
new_block-size = omega arith

append_example :
    (b' : MemBlock) × (mem_block_append 7 (mem_block_init 7 3) sentence ≡ ok b')
    × IsBlock b'
    × (contents b' ≡ contents (mem_block_init 7 3) ++ sentence)
append_example =
    mem_block_append-contents 7 (mem_block_init 7 3) sentence (mem_block_init-IsBlock 7 3)
      new_block-size
