-- ===== src/Memory/Invariant.antt =====
-- What holds of the allocator between calls.
use tpe2_so.Base.{ℕ, ◌+◌, ◌-◌, ◌^◌, ◌%◌, ◌≤◌, ◌<◌, ◌≡◌, List, [], ◌∷◌, arith, length}
use tpe2_so.Memory.{Heap, list_init, adjust, max_size, start_mm, node_size, null, or_bit, clear_bit}
use tpe2_so.Memory.Blocks.{Block, Chain, Above, total}
use tpe2_so.Memory.FreeList.{length-le-Above}

-- The address below the pool.
abbrev pub floor : ℕ
floor = start_mm - 1

-- The free list spells `bs`: blocks of the pool in the order of their addresses, none touching the
-- next; the counter of free bytes is their sum.
pub record IsValid (h : Heap) (bs : List Block) : Type 0 where
  pub start_low : h.start_node < start_mm
  pub last : h.end_node + node_size ≤ start_mm + max_size
  pub start_size : h.size h.start_node ≡ 0
  pub end_next : h.next h.end_node ≡ null
  pub chain : Chain h.next h.size h.end_node (h.next h.start_node) bs
  pub order : Above floor h.end_node bs
  pub left : h.remaining ≡ total bs
  pub bit : h.allocated_bit ≡ 2 ^ 63

-- A pool of this size has fewer free blocks than bytes: `max_size` rounds are enough for each loop.
pub length-lt-fuel : (h : Heap) (bs : List Block) → IsValid h bs → length bs < max_size
length-lt-fuel h bs v = omega (arith, length-le-Above floor h.end_node bs v.order)

-- The one block of the fresh pool.
abbrev pub whole_pool : List Block
whole_pool = (start_mm, max_size - node_size) ∷ []

-- `listInit` makes the whole pool one free block.
pub list_init-IsValid : (h : Heap) → h.start_node < start_mm → IsValid (list_init h) whole_pool
unfolding list_init total
list_init-IsValid h low = ground arith

-- Of a request that is a word and that is not refused, the adjusted size holds the request and the
-- header without overflow, is less than 8 bytes more than that, and is a multiple of 8; the request
-- is not 0.
pub adjust_lem :
    (r : ℕ)
    → r < 2 ^ 64
    → 0 < adjust r
    → (0 < r) × (r + node_size ≤ adjust r) × (adjust r < r + node_size + 8) × (adjust r % 8 ≡ 0)
unfolding adjust
adjust_lem r fits pos = ground arith

-- The allocated bit of a size word is set and cleared again.
pub or_bit_lem : (g : ℕ) → g < 2 ^ 63 → or_bit g (2 ^ 63) ≡ g + 2 ^ 63
or_bit_lem g h = ground arith

pub clear_bit-or_bit : (g : ℕ) → g < 2 ^ 63 → clear_bit (g + 2 ^ 63) (2 ^ 63) ≡ g
clear_bit-or_bit g h = ground arith
