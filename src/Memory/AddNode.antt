-- ===== src/Memory/AddNode.antt =====
-- `addNodeToFreeList` writes the `next` and `size` fields so that the chain of nodes spells the
-- list with the block put in at its place.
use tpe2_so.Base.{
  ℕ, zero, suc, ◌+◌, ◌≤◌, ◌<◌, ◌≡◌, refl, ◌≢◌, inl, inr, some, List, [], ◌∷◌, arith, length,
  lt-cases, lt→ltb, le→ltb, ◌∙◌, sym,
}
use tpe2_so.Memory.{Heap, node_size, splice, walk}
use tpe2_so.Memory.Blocks.{
  Block, Chain, Above, Apart, settle, insert, Above-le, Above-mono, Chain-frame, NotIn,
}

-- What `splice` leaves alone.
pub record SameStatics (h h' : Heap) : Type 0 where
  pub start : h'.start_node ≡ h.start_node
  pub end : h'.end_node ≡ h.end_node
  pub left : h'.remaining ≡ h.remaining
  pub bit : h'.allocated_bit ≡ h.allocated_bit

pub splice-SameStatics : (h : Heap) (it a : ℕ) → SameStatics h (splice h it a)
unfolding splice
splice-SameStatics h it a = ground arith

pub splice-next : (h : Heap) (it a x : ℕ) → x ≢ it → x ≢ a → (splice h it a).next x ≡ h.next x
unfolding splice
splice-next h it a x n m = ground arith

pub splice-size : (h : Heap) (it a x : ℕ) → x ≢ it → x ≢ a → (splice h it a).size x ≡ h.size x
unfolding splice
splice-size h it a x n m = ground arith

module _ (h : Heap) (it t a s : ℕ) (before : it < a) (sized : h.size it ≡ t)
    (sized_a : h.size a ≡ s) (big : node_size ≤ s) where
  splice-nil :
      h.next it ≡ h.end_node
      → a + s ≤ h.end_node
      → Chain (splice h it a).next (splice h it a).size h.end_node it (settle it t a s [])
  unfolding splice settle
  splice-nil last fit = ground arith

  splice-cons :
      (b u : ℕ) (bs : List Block)
      → Chain h.next h.size h.end_node (h.next it) ((b, u) ∷ bs)
      → a + s ≤ b
      → node_size ≤ u
      → Above (b + u) h.end_node bs
      → Chain
          (splice h it a).next
          (splice h it a).size
          h.end_node
          it
          (settle it t a s ((b, u) ∷ bs))
  unfolding splice settle
  splice-cons b u bs (p, z, c) fit wide ab =
      let frame =
        Chain-frame h.next h.size (splice h it a).next (splice h it a).size b h.end_node (h.next b)
          bs (λ x l. splice-next h it a x (omega arith) (omega arith))
          (λ x l. splice-size h it a x (omega arith) (omega arith))
          (Above-mono (b + u) b h.end_node bs (omega arith) ab) c in
      ground (arith, frame, Above-le (b + u) h.end_node bs ab)

-- The search stops at a node from which on the chain spells the list with the block put in.
pub walk_lem :
    (h : Heap) (a s : ℕ) (k it t : ℕ) (bs : List Block)
    → h.size a ≡ s
    → node_size ≤ s
    → a + s ≤ h.end_node
    → h.size it ≡ t
    → Chain h.next h.size h.end_node (h.next it) bs
    → Above (it + t) h.end_node bs
    → it < a
    → it + t ≤ a
    → Apart a s bs
    → length bs < k
    → (i : ℕ) × (walk k h a it ≡ some i)
      × (it ≤ i)
      × (i < a)
      × ((x : ℕ) → x ≢ it → NotIn x bs → x ≢ i)
      × Chain (splice h i a).next (splice h i a).size h.end_node it (insert it t a s bs)
unfolding walk insert
walk_lem h a s zero it t bs za big fit zi c ab lt le apart fuel = absurd (omega arith)
walk_lem h a s (suc k) it t [] za big fit zi c ab lt le apart fuel =
    (it, ground arith, omega arith, lt, λ x n m. n, splice-nil h it t a s lt zi za big c fit)
walk_lem h a s (suc k) it t ((b, u) ∷ bs) za big fit zi (p, z, c) (gap, wide, ab) lt le apart fuel =
    elim (lt-cases b a) [
      | inl l ↦
          let (i, w, above, below, only, chain) =
            walk_lem h a s k b u bs za big fit z c ab l (ground arith) apart.1 (omega arith) in
          (
            i,
            rw (p, lt→ltb b a l) w,
            omega arith,
            below,
            λ x n m. only x (λ q. m.0 (sym q)) m.1,
            rw (lt→ltb b a l) (
              refl,
              splice-size h i a it (omega arith) (omega arith) ∙ zi,
              rw (splice-next h i a it (omega arith) (omega arith), p) chain,
            ),
          )
      | inr g ↦ (
        it,
        rw (p, le→ltb b a g),
        omega arith,
        lt,
        λ x n m. n,
        rw (le→ltb b a g)
            (splice-cons h it t a s lt zi za big b u bs (p, z, c) (ground arith) wide ab),
      )
    ]
