-- ===== src/Memory/Calls.antt =====
-- `alloc` and `free` as a caller sees them.
use tpe2_so.Base.{
  ℕ, ◌+◌, ◌^◌, ◌≤◌, ◌<◌, ◌≡◌, inl, inr, ◌⊎◌, ◌≢◌, none, some, List, arith, length, le→ltb, ne→==,
  ◌==◌, update_ne, update_self, ◌∙◌, false, ==_refl, sub64,
}
use tpe2_so.Memory.{
  Heap, alloc, first_fit, take_node, add_node, adjust, node_size, null, max_size, free, set_size,
  clear_bit,
}
use tpe2_so.Memory.Blocks.{Block, Apart, Above-mono, Above, NotIn, Above-le}
use tpe2_so.Memory.FreeList.{
  add, fitting, fitting-IsTaken, Above-add, total-add, Apart-NotIn, Chain-set_size,
}
use tpe2_so.Memory.Search.{find_some, find_none}
use tpe2_so.Memory.Invariant.{IsValid, floor, length-lt-fuel, adjust_lem, clear_bit-or_bit}
use tpe2_so.Memory.Alloc.{Handed, take_node-Handed, add_node_lem, Added}

-- The block that the search finds, for each call of `take_node` that it leads to.
pub record Allocates (w fuel a s : ℕ) (h h' : Heap) (bs : List Block) : Type 0 where
  pub pr : ℕ
  pub finds : first_fit fuel h w ≡ some (a + node_size, h')
  pub handed : Handed w fuel pr a s h h' bs

module _ (fuel : ℕ) (h : Heap) (bs : List Block) (v : IsValid h bs) (enough : max_size ≤ fuel) where
  fuelled : length bs < fuel
  fuelled = omega (arith, length-lt-fuel h bs v)

  order : Above (h.start_node + 0) h.end_node bs
  order = Above-mono floor (h.start_node + 0) h.end_node bs (omega (arith, v.start_low)) v.order

  pub first_fit-Allocates :
      (w a s : ℕ)
      → node_size < w
      → fitting w bs ≡ some (a, s)
      → (h' : Heap) × Allocates w fuel a s h h' bs
  unfolding first_fit
  first_fit-Allocates w a s big f =
      let (pr, found, le, lt, za, cut) =
        find_some h w fuel h.start_node 0 a s bs v.chain order fuelled f in
      let (h', handed) = take_node-Handed h w fuel pr a s bs v big fuelled f za lt le cut in
      (h', record { pr = pr; finds = rw (found, handed.runs); handed = handed })

  pub first_fit-null : (w : ℕ) → fitting w bs ≡ none → first_fit fuel h w ≡ some (null, h)
  unfolding first_fit take_node
  first_fit-null w f =
      let (pr, found) = find_none h w fuel h.start_node 0 bs v.end_next v.chain order fuelled f in
      rw (found, ==_refl)

  started : (h.end_node == null) ≡ false
  started = ne→== h.end_node null (omega (arith, Above-end))
    where
      Above-end : floor < h.end_node + 1
      Above-end = omega (arith, Above-le floor h.end_node bs v.order)

  -- Where the search finds a block, `alloc` returns the address behind its header.
  pub alloc-Allocates :
      (r a s : ℕ)
      → r < 2 ^ 64
      → 0 < adjust r
      → fitting (adjust r) bs ≡ some (a, s)
      → (h' : Heap) × (alloc fuel h r ≡ some (a + node_size, h'))
        × Allocates (adjust r) fuel a s h h' bs
  unfolding alloc
  alloc-Allocates r a s small pos f =
      let sized = adjust_lem r small pos in
      let big : node_size < adjust r = omega (arith, sized) in
      let t = fitting-IsTaken (adjust r) floor h.end_node a s bs v.order f in
      let (h', got) = first_fit-Allocates (adjust r) a s big f in
      (
        h',
        rw
            (
              started,
              ne→== (adjust r) 0 (omega arith),
              le→ltb h.remaining (adjust r) (omega (arith, v.left, t.sum, t.enough)),
            )
            got.finds,
        got,
      )

  -- A request that is 0 or too large, or that no free block holds, fails and changes nothing.
  pub alloc-null :
      (r : ℕ) → (adjust r ≡ 0) ⊎ (fitting (adjust r) bs ≡ none) → alloc fuel h r ≡ some (null, h)
  unfolding alloc
  alloc-null r (inl z) = rw (started, z)
  alloc-null r (inr f) = rw started (ground (arith, first_fit-null (adjust r) f))

  -- A block outside the free list, with its header marked, goes back into the list.
  pub record Freed (a g : ℕ) (h' : Heap) : Type 0 where
    pub valid : IsValid h' (add a g bs)
    pub end : h'.end_node ≡ h.end_node
    pub others : (x : ℕ) → x ≢ h.start_node → NotIn x bs → x ≢ a → h'.size x ≡ h.size x

  module _ (a g : ℕ) (low : floor < a) (high : a + g ≤ h.end_node) (big : node_size ≤ g)
      (apart : Apart a g bs) (header : h.size a ≡ g + 2 ^ 63) where
    -- The heap that `free` hands to `addNodeToFreeList`.
    released : Heap
    released = record (set_size h a g) { remaining = h.remaining + g }

    outside : NotIn a bs
    outside = Apart-NotIn floor h.end_node a g a bs v.order apart (omega arith) (omega arith)

    released-Added : (h' : Heap) × (add_node fuel released a ≡ some h') × Added released h' a g bs
    unfolding released
    released-Added =
        add_node_lem released a g fuel bs (ground (arith, v.start_size, v.start_low))
          (Chain-set_size h.next h.size h.end_node (h.next h.start_node) a g bs outside v.chain)
          (Above-mono floor h.start_node h.end_node bs (omega (arith, v.start_low)) v.order)
          (update_self h.size a g) big (omega (arith, v.start_low)) high apart fuelled

    released-runs : free fuel h (a + node_size) ≡ add_node fuel released a
    unfolding free released
    released-runs =
        let node : sub64 (a + node_size) node_size ≡ a = omega (arith, v.last) in
        let size : clear_bit (h.size a) h.allocated_bit ≡ g =
          rw (header, v.bit) (clear_bit-or_bit g (omega (arith, v.last))) in
        rw (ne→== (a + node_size) 0 (omega arith), node, size)

    pub free-Freed : (h' : Heap) × (free fuel h (a + node_size) ≡ some h') × Freed a g h'
    unfolding released
    free-Freed =
        let (h', ran, added) = released-Added in
        (
          h',
          released-runs ∙ ran,
          record {
            valid = record {
              start_low = rw added.statics.start v.start_low;
              last = rw added.statics.end v.last;
              start_size = rw added.statics.start added.start_size;
              end_next = rw added.statics.end (added.end_next ∙ v.end_next);
              chain = rw (added.statics.end, added.statics.start) added.chain;
              order =
                  rw added.statics.end
                    (Above-add floor a g h.end_node bs v.order low high big apart);
              left = omega (arith, added.statics.left, v.left, total-add a g bs);
              bit = added.statics.bit ∙ v.bit;
            };
            end = added.statics.end;
            others = λ x n m k. added.other_size x n m k ∙ update_ne h.size a g x k;
          },
        )
