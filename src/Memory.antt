-- ===== src/Memory.antt =====
-- Kernel/MemoryManager/memory_manager.c: a first-fit allocator over an address-ordered free list
-- whose nodes stand in the memory that they describe.
pub mod Blocks
pub mod AddNode
pub mod FreeList
pub mod Search
pub mod Invariant
pub mod Alloc
pub mod Calls
pub mod Ownership
mod Tests
use tpe2_so.Base.{
  ℕ, zero, suc, ◌+◌, ◌-◌, ◌*◌, ◌/◌, ◌%◌, ◌^◌, Bool, true, false, not, ◌&&◌, ◌||◌, Option, none,
  some, ltb, ◌==◌, if◌then◌else◌, add64, sub64, update, ◌>>=◌,
}

abbrev pub max_size : ℕ
max_size = 0x4000000

abbrev pub start_mm : ℕ
start_mm = 0x900000

abbrev pub byte_alignment : ℕ
byte_alignment = 8

-- `sizeof(freeNode)` rounded up: two words.
abbrev pub node_size : ℕ
node_size = 16

abbrev pub minimum_block_size : ℕ
minimum_block_size = 32

abbrev pub null : ℕ
null = 0

-- The statics of the file and the two fields of every `freeNode`, by its address. `start_node` is
-- the address of the static `startNode`, which the linker fixes.
pub record Heap : Type 0 where
  pub next : ℕ → ℕ
  pub size : ℕ → ℕ
  pub start_node : ℕ
  pub end_node : ℕ
  pub remaining : ℕ
  pub allocated_bit : ℕ

-- `p->next = q` and `p->size = s`.
abbrev pub set_next : Heap → ℕ → ℕ → Heap
set_next h p q = record h { next = update h.next p q }

abbrev pub set_size : Heap → ℕ → ℕ → Heap
set_size h p s = record h { size = update h.size p s }

-- `s | w` and `s & ~w` where `w` is a power of two, or 0.
abbrev pub or_bit : ℕ → ℕ → ℕ
or_bit s w = if (s / w) % 2 == 1 then s else s + w

abbrev pub clear_bit : ℕ → ℕ → ℕ
clear_bit s w = if (s / w) % 2 == 1 then s - w else s

-- `a & ~ALIGNMENT_MASK`.
abbrev pub align_down : ℕ → ℕ
align_down a = a / byte_alignment * byte_alignment

pub list_init : Heap → Heap
list_init h =
    let aligned : Bool = start_mm % byte_alignment == 0 in
    let first : ℕ = if aligned then start_mm else align_down (start_mm + (byte_alignment - 1)) in
    let total : ℕ = if aligned then max_size else max_size - (first - start_mm) in
    let last : ℕ = align_down (first + total - node_size) in
    let h1 : Heap = set_size (set_next h h.start_node first) h.start_node 0 in
    let h2 : Heap = set_next (set_size (record h1 { end_node = last }) last 0) last null in
    let h3 : Heap = set_next (set_size h2 first (last - first)) first last in
    record h3 { remaining = last - first; allocated_bit = 2 ^ 63 }

-- The request with the header added, rounded up to the alignment; 0 when it is 0 or overflows.
pub adjust : ℕ → ℕ
adjust wanted =
    if ltb 0 wanted && ltb wanted (add64 wanted node_size)
    then (let w : ℕ = add64 wanted node_size in
        if w % byte_alignment == 0 then w else add64 w (byte_alignment - w % byte_alignment))
    else 0

-- The search loop of `alloc`: the first node that is large enough, or the last, with the node
-- before it. `none` means that the fuel ran out.
pub find_fit : ℕ → Heap → ℕ → ℕ → ℕ → Option (ℕ × ℕ)
find_fit zero h wanted prev it = none
find_fit (suc k) h wanted prev it =
    let rest = find_fit k h wanted it (h.next it) in
    if ltb (h.size it) wanted && not (h.next it == null) then rest else some (prev, it)

-- The search loop of `addNodeToFreeList`.
pub walk : ℕ → Heap → ℕ → ℕ → Option ℕ
walk zero h node it = none
walk (suc k) h node it =
    let rest = walk k h node (h.next it) in if ltb (h.next it) node then rest else some it

-- The rest of `addNodeToFreeList`: the three conditionals behind the loop.
pub merge_previous : Heap → ℕ → ℕ → Heap × ℕ
merge_previous h it node =
    if it + h.size it == node then (set_size h it (h.size it + h.size node), it) else (h, node)

pub merge_next : Heap → ℕ → ℕ → Heap
merge_next h it node =
    if node + h.size node == h.next it
    then (if not (h.next it == h.end_node)
        then (let grown : Heap = set_size h node (h.size node + h.size (h.next it)) in
            set_next grown node (grown.next (grown.next it)))
        else set_next h node h.end_node)
    else set_next h node (h.next it)

pub splice : Heap → ℕ → ℕ → Heap
unfolding merge_previous merge_next
splice h it node =
    let (h1, node1) = merge_previous h it node in
    let h2 : Heap = merge_next h1 it node1 in if not (it == node1) then set_next h2 it node1 else h2

pub add_node : ℕ → Heap → ℕ → Option Heap
add_node fuel h node = do it ← walk fuel h node h.start_node; some (splice h it node)

-- What `alloc` does with the node that it found.
pub take_node : ℕ → Heap → ℕ → ℕ → ℕ → Option (ℕ × Heap)
take_node fuel h wanted prev it = if it == h.end_node then some (null, h) else do
  let toReturn : ℕ = it + node_size
  let h1 : Heap = set_next h prev (h.next it)
  let rest : ℕ = h1.size it - wanted
  let split : Heap = set_size (set_size h1 (it + wanted) rest) it wanted
  h2 ← if ltb minimum_block_size rest then add_node fuel split (it + wanted) else some h1
  let taken : ℕ = h2.size it
  let h3 : Heap = record h2 { remaining = h2.remaining - taken }
  some (toReturn, set_next (set_size h3 it (or_bit taken h3.allocated_bit)) it null)

-- The search and the allocation of `alloc`, behind its checks.
pub first_fit : ℕ → Heap → ℕ → Option (ℕ × Heap)
first_fit fuel h wanted = do
  (prev, it) ← find_fit fuel h wanted h.start_node (h.next h.start_node)
  take_node fuel h wanted prev it

-- The pointer that is returned, `null` for a failure, and the new heap.
pub alloc : ℕ → Heap → ℕ → Option (ℕ × Heap)
alloc fuel h0 request =
    let h : Heap = if h0.end_node == null then list_init h0 else h0 in
    let wanted : ℕ = adjust request in
    if wanted == 0 || ltb h.remaining wanted then some (null, h) else first_fit fuel h wanted

pub free : ℕ → Heap → ℕ → Option Heap
free fuel h ptr =
    if ptr == null
    then some h
    else (let node : ℕ = sub64 ptr node_size in
        let cleared : ℕ = clear_bit (h.size node) h.allocated_bit in
        let h1 : Heap = set_size h node cleared in
        add_node fuel (record h1 { remaining = h1.remaining + cleared }) node)
