-- ===== src/Memory/Alloc.antt =====
-- `alloc` hands out a block of the free list, or fails and changes nothing.
use tpe2_so.Base.{
  ℕ, ◌+◌, ◌-◌, ◌≤◌, ◌<◌, ◌≡◌, refl, inl, inr, ◌⊎◌, ◌≢◌, some, List, arith, length, update, lt-cases,
  lt→ltb, le→ltb, ltb, if◌then◌else◌, update_ne, update_self, ◌∙◌,
}
use tpe2_so.Memory.{
  Heap, take_node, add_node, splice, node_size, null, set_next, set_size, minimum_block_size,
  or_bit,
}
use tpe2_so.Memory.Blocks.{Block, Chain, Above, Apart, Above-mono, total, NotIn}
use tpe2_so.Memory.AddNode.{walk_lem, SameStatics, splice-SameStatics, splice-next, splice-size}
use tpe2_so.Memory.FreeList.{
  add, insert-add, fitting, remove_fitting, Apart-part, Apart-NotIn, Chain-set_size, Chain-set_next,
  Apart-add, total-add, Above-add, Above-remove_fitting, length-remove_fitting, IsTaken,
  fitting-IsTaken,
}
use tpe2_so.Memory.Invariant.{IsValid, floor}

-- `addNodeToFreeList` on a heap whose chain is in order puts the block in at its place.
pub record Added (h h' : Heap) (a s : ℕ) (bs : List Block) : Type 0 where
  pub statics : SameStatics h h'
  pub start_size : h'.size h.start_node ≡ 0
  pub other_size : (x : ℕ) → x ≢ h.start_node → NotIn x bs → x ≢ a → h'.size x ≡ h.size x
  pub end_next : h'.next h.end_node ≡ h.next h.end_node
  pub chain : Chain h'.next h'.size h.end_node (h'.next h.start_node) (add a s bs)

pub add_node_lem :
    (h : Heap) (a s fuel : ℕ) (bs : List Block)
    → h.size h.start_node ≡ 0
    → Chain h.next h.size h.end_node (h.next h.start_node) bs
    → Above h.start_node h.end_node bs
    → h.size a ≡ s
    → node_size ≤ s
    → h.start_node < a
    → a + s ≤ h.end_node
    → Apart a s bs
    → length bs < fuel
    → (h' : Heap) × (add_node fuel h a ≡ some h') × Added h h' a s bs
unfolding add_node
add_node_lem h a s fuel bs zs c ab za big low fit ap f =
    let (i, w, above, below, only, chain) =
      walk_lem h a s fuel h.start_node 0 bs za big fit zs c
        (Above-mono h.start_node (h.start_node + 0) h.end_node bs (omega arith) ab) low
        (omega arith) ap f in
    let whole = rw (insert-add h.start_node 0 a s bs (omega arith)) at chain in
    (
      splice h i a,
      rw w,
      record {
        statics = splice-SameStatics h i a;
        start_size = whole.1;
        other_size = λ x n m k. splice-size h i a x (only x n m) k;
        end_next = splice-next h i a h.end_node (omega arith) (omega arith);
        chain = whole.2;
      },
    )

-- What `alloc` grants of the block that it finds, and the free list that it leaves.
unfoldable pub granted : ℕ → ℕ → ℕ
granted w s = if ltb minimum_block_size (s - w) then w else s

unfoldable pub left_over : ℕ → ℕ → ℕ → List Block → List Block
left_over w a s bs =
    if ltb minimum_block_size (s - w)
    then add (a + w) (s - w) (remove_fitting w bs)
    else remove_fitting w bs

-- What holds of a block that `alloc` hands out.
pub record Handed (w fuel pr a s : ℕ) (h h' : Heap) (bs : List Block) : Type 0 where
  pub runs : take_node fuel h w pr a ≡ some (a + node_size, h')
  pub header : h'.size a ≡ or_bit (granted w s) h.allocated_bit
  pub valid : IsValid h' (left_over w a s bs)
  pub end : h'.end_node ≡ h.end_node
  pub others :
      (x : ℕ)
      → x ≢ h.start_node
      → NotIn x (remove_fitting w bs)
      → (x < a) ⊎ (a + s ≤ x)
      → h'.size x ≡ h.size x

-- Marking a block that is not in the free list leaves the list as it is.
pub mark-IsValid :
    (h : Heap) (a x g : ℕ) (bs : List Block)
    → IsValid (record h { remaining = total bs }) bs
    → NotIn a bs
    → h.start_node < a
    → a < h.end_node
    → h.remaining ≡ g + total bs
    → IsValid (set_next (set_size (record h { remaining = h.remaining - g }) a x) a null) bs
mark-IsValid h a x g bs v out low high left = record {
  start_low = v.start_low;
  last = v.last;
  start_size = update_ne h.size a x h.start_node (omega arith) ∙ v.start_size;
  end_next = update_ne h.next a null h.end_node (omega arith) ∙ v.end_next;
  chain = rw (update_ne h.next a null h.start_node (omega arith)) (
      Chain-set_next h.next (update h.size a x) h.end_node (h.next h.start_node) a null bs out
        (Chain-set_size h.next h.size h.end_node (h.next h.start_node) a x bs out v.chain));
  order = v.order;
  left = omega arith;
  bit = v.bit;
}

module _ (h : Heap) (w fuel pr a s : ℕ) (bs : List Block) (v : IsValid h bs)
    (enough : node_size < w) (fuelled : length bs < fuel) (f : fitting w bs ≡ some (a, s))
    (sized : h.size a ≡ s) (before : pr < a) (not_below : h.start_node ≤ pr)
    (cut : Chain
      (update h.next pr (h.next a))
      h.size
      h.end_node
      (update h.next pr (h.next a) h.start_node)
      (remove_fitting w bs)) where
  taken : IsTaken w floor h.end_node a s bs
  taken = fitting-IsTaken w floor h.end_node a s bs v.order f

  bounds : (floor < a) × (a + s ≤ h.end_node) × (w ≤ s) × (h.start_node < a)
  bounds = let t = taken in omega arith

  order_cut : Above floor h.end_node (remove_fitting w bs)
  order_cut = Above-remove_fitting w floor h.end_node bs v.order

  unlinked : Heap
  unlinked = set_next h pr (h.next a)

  unlinked-IsValid :
      IsValid
        (record (set_next h pr (h.next a)) { remaining = total (remove_fitting w bs) })
        (remove_fitting w bs)
  unlinked-IsValid = record {
    start_low = v.start_low;
    last = v.last;
    start_size = v.start_size;
    end_next = update_ne h.next pr (h.next a) h.end_node (omega (arith, bounds)) ∙ v.end_next;
    chain = cut;
    order = order_cut;
    left = refl;
    bit = v.bit;
  }

  -- The whole block is handed out.
  take_whole : s - w ≤ minimum_block_size → (h' : Heap) × Handed w fuel pr a s h h' bs
  unfolding take_node granted left_over
  take_whole small =
      let h1 = set_next h pr (h.next a) in
      (
        set_next
            (set_size (record h1 { remaining = h1.remaining - s }) a (or_bit s h.allocated_bit)) a
            null,
        record {
          runs = ground (arith, bounds);
          header = rw (le→ltb minimum_block_size (s - w) small) (update_self h.size a _);
          valid = rw (le→ltb minimum_block_size (s - w) small) (
              mark-IsValid h1 a _ s (remove_fitting w bs) unlinked-IsValid
                (Apart-NotIn floor h.end_node a s a (remove_fitting w bs) order_cut taken.apart
                  (omega arith) (omega (arith, bounds)))
                (omega (arith, bounds)) (omega (arith, bounds)) (v.left ∙ taken.sum));
          end = refl;
          others =
              λ x n m d. update_ne h.size a (or_bit s h.allocated_bit) x (ground (arith, bounds));
        },
      )

  split : Heap
  split = set_size (set_size (set_next h pr (h.next a)) (a + w) (s - w)) a w

  out : (y : ℕ) → a ≤ y → y < a + s → NotIn y (remove_fitting w bs)
  out y p q = Apart-NotIn floor h.end_node a s y (remove_fitting w bs) order_cut taken.apart p q

  -- The rest of the block goes back to the free list.
  split-Added :
      minimum_block_size < s - w
      → (h2 : Heap) × (add_node fuel split (a + w) ≡ some h2)
        × Added split h2 (a + w) (s - w) (remove_fitting w bs)
  unfolding split
  split-Added large =
      let rem : List Block = remove_fitting w bs in
      let b = bounds in
      let nx = update h.next pr (h.next a) in
      add_node_lem split (a + w) (s - w) fuel rem (ground (arith, v.start_size))
        (Chain-set_size nx (update h.size (a + w) (s - w)) h.end_node (nx h.start_node) a w rem
          (out a (omega arith) (omega arith))
          (Chain-set_size nx h.size h.end_node (nx h.start_node) (a + w) (s - w) rem
            (out (a + w) (omega arith) (omega arith)) cut))
        (Above-mono floor h.start_node h.end_node rem (omega (arith, v.start_low)) order_cut)
        (ground arith) (omega arith) (omega arith) (omega arith)
        (Apart-part a s (a + w) (s - w) rem (omega arith) (omega arith) taken.apart)
        (omega (arith, length-remove_fitting w bs))

  module _ (h2 : Heap) (large : minimum_block_size < s - w)
      (ran : add_node fuel split (a + w) ≡ some h2)
      (added : Added split h2 (a + w) (s - w) (remove_fitting w bs)) where
    kept : h2.size a ≡ w
    unfolding split
    kept =
        let b = bounds in
        added.other_size a (omega arith) (out a (omega arith) (omega arith)) (omega arith)
        ∙ update_self (update h.size (a + w) (s - w)) a w

    take_front_runs :
        take_node fuel h w pr a
        ≡ some (
          a + node_size,
          set_next
              (set_size (record h2 { remaining = h2.remaining - w }) a (or_bit w h.allocated_bit))
              a
              null,
        )
    unfolding take_node split
    take_front_runs = ground (arith, bounds, kept, added.statics)

    order_front : Above floor h.end_node (add (a + w) (s - w) (remove_fitting w bs))
    order_front =
        let b = bounds in
        Above-add floor (a + w) (s - w) h.end_node (remove_fitting w bs) order_cut (omega arith)
          (omega arith) (omega arith)
          (Apart-part a s (a + w) (s - w) (remove_fitting w bs) (omega arith) (omega arith)
            taken.apart)

    front-NotIn : NotIn a (add (a + w) (s - w) (remove_fitting w bs))
    front-NotIn =
        Apart-NotIn floor h.end_node a w a (add (a + w) (s - w) (remove_fitting w bs)) order_front
          (Apart-add a w (a + w) (s - w) (remove_fitting w bs) (omega arith) (inr (omega arith))
            (Apart-part a s a w (remove_fitting w bs) (omega arith) (omega arith) taken.apart))
          (omega arith) (omega arith)

    returned-IsValid :
        IsValid
          (record h2 { remaining = total (add (a + w) (s - w) (remove_fitting w bs)) })
          (add (a + w) (s - w) (remove_fitting w bs))
    unfolding split
    returned-IsValid =
        let b = bounds in
        record {
          start_low = rw added.statics.start v.start_low;
          last = rw added.statics.end v.last;
          start_size = rw added.statics.start added.start_size;
          end_next = rw added.statics.end (
              added.end_next
              ∙ update_ne h.next pr (h.next a) h.end_node (omega arith)
              ∙ v.end_next);
          chain = rw (added.statics.end, added.statics.start) added.chain;
          order = rw added.statics.end order_front;
          left = refl;
          bit = added.statics.bit ∙ v.bit;
        }

    front-IsValid :
        IsValid
          (set_next
            (set_size (record h2 { remaining = h2.remaining - w }) a (or_bit w h.allocated_bit))
            a
            null)
          (add (a + w) (s - w) (remove_fitting w bs))
    unfolding split
    front-IsValid =
        mark-IsValid h2 a (or_bit w h.allocated_bit) w (add (a + w) (s - w) (remove_fitting w bs))
          returned-IsValid front-NotIn (rw added.statics.start (omega (arith, bounds)))
          (rw added.statics.end (omega (arith, bounds)))
          (omega (
            arith,
            added.statics.left,
            v.left,
            taken.sum,
            bounds,
            total-add (a + w) (s - w) (remove_fitting w bs),
          ))

    end_kept : h2.end_node ≡ h.end_node
    unfolding split
    end_kept = added.statics.end

    others_kept :
        (x : ℕ)
        → x ≢ h.start_node
        → NotIn x (remove_fitting w bs)
        → (x < a) ⊎ (a + s ≤ x)
        → update h2.size a (or_bit w h.allocated_bit) x ≡ h.size x
    unfolding split
    others_kept x n m d =
        let b = bounds in
        let away : (x ≢ a) × (x ≢ a + w) = ground arith in
        update_ne h2.size a (or_bit w h.allocated_bit) x away.0
        ∙ added.other_size x n m away.1
        ∙ update_ne (update h.size (a + w) (s - w)) a w x away.0
        ∙ update_ne h.size (a + w) (s - w) x away.1

    take_front : (h' : Heap) × Handed w fuel pr a s h h' bs
    unfolding granted left_over
    take_front = (
      set_next (set_size (record h2 { remaining = h2.remaining - w }) a (or_bit w h.allocated_bit))
          a null,
      record {
        runs = take_front_runs;
        header =
            rw (lt→ltb minimum_block_size (s - w) large)
              (update_self h2.size a (or_bit w h.allocated_bit));
        valid = rw (lt→ltb minimum_block_size (s - w) large) front-IsValid;
        end = end_kept;
        others = others_kept;
      },
    )

  pub take_node-Handed : (h' : Heap) × Handed w fuel pr a s h h' bs
  take_node-Handed = elim (lt-cases minimum_block_size (s - w)) [
    | inl large ↦ let (h2, ran, added) = split-Added large in take_front h2 large ran added
    | inr small ↦ take_whole small
  ]
