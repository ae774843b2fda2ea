-- ===== src/Memory/Ownership.antt =====
-- The blocks that callers hold: apart from one another and from the free list, whatever sequence
-- of `alloc` and `free` came before.
use tpe2_so.Base.{
  ℕ, ◌+◌, ◌-◌, ◌^◌, ◌≤◌, ◌<◌, ◌≡◌, inl, inr, ◌⊎◌, ◌≢◌, none, some, List, [], ◌∷◌, arith, lt-cases,
  ◌++◌, ◌∙◌, Option-cases,
}
use tpe2_so.Memory.{Heap, alloc, free, adjust, node_size, null, max_size}
use tpe2_so.Memory.Blocks.{Block, Apart, NotIn}
use tpe2_so.Memory.FreeList.{
  add, fitting, remove_fitting, fitting-IsTaken, Apart-NotIn, Apart-part, Apart-add,
  Apart-remove_fitting, Apart-fitting, Above-remove_fitting,
}
use tpe2_so.Memory.Invariant.{IsValid, floor, adjust_lem, or_bit_lem}
use tpe2_so.Memory.Alloc.{Handed, granted, left_over}
use tpe2_so.Memory.Calls.{alloc-Allocates, alloc-null, free-Freed}

-- Every block of `live` is in the pool with its header marked, and apart from the free list.
abbrev pub Held : Heap → List Block → List Block → Type 0
Held h bs [] = Unit
Held h bs ((a, g) ∷ live) =
    ((floor < a) × (a + g ≤ h.end_node) × (node_size < g) × (h.size a ≡ g + 2 ^ 63) × Apart a g bs)
    × Held h bs live

-- No two blocks of the list overlap.
abbrev pub Disjoint : List Block → Type 0
Disjoint [] = Unit
Disjoint ((a, g) ∷ live) = Apart a g live × Disjoint live

pub record Owned (h : Heap) (bs live : List Block) : Type 0 where
  pub valid : IsValid h bs
  pub held : Held h bs live
  pub disjoint : Disjoint live

module _ (w a s : ℕ) (bs : List Block) (f : fitting w bs ≡ some (a, s)) where
  -- The part of the block that is granted.
  pub granted_bounds : w ≤ s → (w ≤ granted w s) × (granted w s ≤ s)
  unfolding granted
  granted_bounds le = ground arith

  left_over-Apart :
      (x g : ℕ)
      → 0 < g
      → (a + s ≤ x) ⊎ (x + g ≤ a)
      → w ≤ s
      → Apart x g bs
      → Apart x g (left_over w a s bs)
  unfolding left_over
  left_over-Apart x g pos d le ap =
      ground (
        arith,
        Apart-remove_fitting w x g bs ap,
        Apart-add x g (a + w) (s - w) (remove_fitting w bs),
      )

  granted-Apart :
      w ≤ s → 0 < w → Apart a s (remove_fitting w bs) → Apart a (granted w s) (left_over w a s bs)
  unfolding left_over granted
  granted-Apart le pos ap = ground (
    arith,
    Apart-part a s a w (remove_fitting w bs),
    Apart-add a w (a + w) (s - w) (remove_fitting w bs),
  )

-- The block found in the free list is apart from every block that is held.
fitting-Apart :
    (h : Heap) (w a s : ℕ) (bs live : List Block)
    → fitting w bs ≡ some (a, s)
    → Held h bs live
    → (g : ℕ) → g ≤ s
    → Apart a g live
fitting-Apart h w a s bs [] f k g le = tt
fitting-Apart h w a s bs ((x, v) ∷ live) f (k, ks) g le =
    (ground (arith, Apart-fitting w x v a s bs k.4 f), fitting-Apart h w a s bs live f ks g le)

Held-alloc :
    (h h' : Heap) (w fuel pr a s : ℕ) (bs live : List Block)
    → IsValid h bs
    → 0 < w
    → fitting w bs ≡ some (a, s)
    → Handed w fuel pr a s h h' bs
    → Held h bs live
    → Held h' (left_over w a s bs) live
Held-alloc h h' w fuel pr a s bs [] v pos f handed k = tt
Held-alloc h h' w fuel pr a s bs ((x, g) ∷ live) v pos f handed ((low, high, big, header, ap), ks) =
    let t = fitting-IsTaken w floor h.end_node a s bs v.order f in
    let d = Apart-fitting w x g a s bs ap f in
    let out =
      Apart-NotIn floor h.end_node x g x (remove_fitting w bs)
        (Above-remove_fitting w floor h.end_node bs v.order) (Apart-remove_fitting w x g bs ap)
        (omega arith) (omega arith) in
    (
      (
        low,
        rw handed.end high,
        big,
        handed.others x (omega (arith, v.start_low)) out (ground arith) ∙ header,
        left_over-Apart w a s bs f x g (omega arith) d t.enough ap,
      ),
      Held-alloc h h' w fuel pr a s bs live v pos f handed ks,
    )

-- What an `alloc` comes to: a new block is held, or nothing changed.
pub data Outcome (h : Heap) (r : ℕ) (bs live : List Block) : ℕ → Heap → Type 0 where
  refused : (adjust r ≡ 0) ⊎ (fitting (adjust r) bs ≡ none) → Outcome h r bs live null h
  served :
      {a g : ℕ} {h' : Heap} (bs' : List Block)
      → r + node_size ≤ g
      → Owned h' bs' ((a, g) ∷ live)
      → Outcome h r bs live (a + node_size) h'

module _ (fuel : ℕ) (enough : max_size ≤ fuel) (h : Heap) where
  alloc-served :
      (r a s : ℕ) (bs live : List Block)
      → Owned h bs live
      → r < 2 ^ 64
      → 0 < adjust r
      → fitting (adjust r) bs ≡ some (a, s)
      → (p : ℕ) × (h' : Heap) × (alloc fuel h r ≡ some (p, h')) × Outcome h r bs live p h'
  alloc-served r a s bs live o small pos f =
      let w : ℕ = adjust r in
      let v = o.valid in
      let sized = adjust_lem r small pos in
      let t = fitting-IsTaken w floor h.end_node a s bs v.order f in
      let (h', ran, got) = alloc-Allocates fuel h bs v enough r a s small pos f in
      let g = granted_bounds w a s bs f t.enough in
      (
        a + node_size,
        h',
        ran,
        served (left_over w a s bs) (omega (arith, sized, g)) (record {
          valid = got.handed.valid;
          held = (
            (
              t.above,
              rw got.handed.end (omega (arith, t.below, g)),
              omega (arith, sized, g),
              got.handed.header
                  ∙ rw v.bit (or_bit_lem (granted w s) (omega (arith, t.below, g, v.last))),
              granted-Apart w a s bs f t.enough pos t.apart,
            ),
            Held-alloc h h' w fuel got.pr a s bs live v pos f got.handed o.held,
          );
          disjoint = (fitting-Apart h w a s bs live f o.held (granted w s) g.1, o.disjoint);
        }),
      )

  -- `alloc` on a heap in order either fails and changes nothing, for a request of 0 or one that
  -- overflows or that no free block holds, or hands out a block that has room for the request and its
  -- header and overlaps neither the free list nor any block that is held; all invariants stay.
  pub alloc-Owned :
      (r : ℕ) (bs live : List Block)
      → Owned h bs live
      → r < 2 ^ 64
      → (p : ℕ) × (h' : Heap) × (alloc fuel h r ≡ some (p, h')) × Outcome h r bs live p h'
  alloc-Owned r bs live o small = elim (lt-cases 0 (adjust r)) [
    | inr z ↦ (
      null,
      h,
      alloc-null fuel h bs o.valid enough r (inl (omega arith)),
      refused (inl (omega arith)),
    )
    | inl pos ↦ elim (Option-cases (fitting (adjust r) bs)) [
      | inl f ↦ (null, h, alloc-null fuel h bs o.valid enough r (inr f), refused (inr f))
      | inr (b, f) ↦ alloc-served r b.0 b.1 bs live o small pos f
    ]
  ]

  Apart-drop :
      (x v a g : ℕ) (xs ys : List Block)
      → Apart x v (xs ++ ((a, g) ∷ ys))
      → ((a + g ≤ x) ⊎ (x + v ≤ a)) × Apart x v (xs ++ ys)
  Apart-drop x v a g [] ys h = h
  Apart-drop x v a g ((b, t) ∷ xs) ys (d, h) =
      let (e, r) = Apart-drop x v a g xs ys h in (e, (d, r))

  Disjoint-drop :
      (a g : ℕ) (xs ys : List Block)
      → Disjoint (xs ++ ((a, g) ∷ ys))
      → Disjoint (xs ++ ys) × Apart a g (xs ++ ys)
  Disjoint-drop a g [] ys (h, d) = (d, h)
  Disjoint-drop a g ((b, t) ∷ xs) ys (h, d) =
      let (d', ap) = Disjoint-drop a g xs ys d in
      let (e, r) = Apart-drop b t a g xs ys h in ((r, d'), (ground arith, ap))

  Held-drop :
      (bs : List Block) (a g : ℕ) (xs ys : List Block)
      → Held h bs (xs ++ ((a, g) ∷ ys))
      → Held h bs ((a, g) ∷ (xs ++ ys))
  Held-drop bs a g [] ys k = k
  Held-drop bs a g ((b, t) ∷ xs) ys (k, ks) =
      let (m, ms) = Held-drop bs a g xs ys ks in (m, (k, ms))

  Held-free :
      (bs : List Block) (a g : ℕ) (h' : Heap) (live : List Block)
      → IsValid h bs
      → (0 < g)
      → ((x : ℕ) → x ≢ h.start_node → NotIn x bs → x ≢ a → h'.size x ≡ h.size x)
      → h'.end_node ≡ h.end_node
      → Apart a g live
      → Held h bs live
      → Held h' (add a g bs) live
  Held-free bs a g h' [] v pos others end ap k = tt
  Held-free bs a g h' ((x, t) ∷ live) v pos others end (d, ap) ((low, high, big, header, out), ks) =
      (
        (
          low,
          rw end high,
          big,
          others x (omega (arith, v.start_low))
                (Apart-NotIn floor h.end_node x t x bs v.order out (omega arith) (omega arith))
                (ground arith)
              ∙ header,
          Apart-add x t a g bs (omega arith) (ground arith) out,
        ),
        Held-free bs a g h' live v pos others end ap ks,
      )

  -- `free` of any block that is held ends, puts the block into the free list in its place, merged with
  -- the blocks that it touches, and leaves all other blocks held and apart from the free list.
  pub free-Owned :
      (a g : ℕ) (bs xs ys : List Block)
      → Owned h bs (xs ++ ((a, g) ∷ ys))
      → (h' : Heap) × (free fuel h (a + node_size) ≡ some h') × Owned h' (add a g bs) (xs ++ ys)
  free-Owned a g bs xs ys o =
      let ((low, high, big, header, out), held) = Held-drop bs a g xs ys o.held in
      let (d, ap) = Disjoint-drop a g xs ys o.disjoint in
      let (h', ran, freed) =
        free-Freed fuel h bs o.valid enough a g low high (omega arith) out header in
      (
        h',
        ran,
        record {
          valid = freed.valid;
          held =
              Held-free bs a g h' (xs ++ ys) o.valid (omega arith) freed.others freed.end ap held;
          disjoint = d;
        },
      )
