-- ===== src/Memory/Blocks.antt =====
-- The free list as a list of blocks (address, size), and what `addNodeToFreeList` makes of it.
use tpe2_so.Base.{ℕ, ◌+◌, ◌≤◌, ◌<◌, ◌≡◌, ◌⊎◌, ◌≢◌, List, [], ◌∷◌, arith, ltb, ◌==◌, if◌then◌else◌}
use tpe2_so.Memory.{node_size}

abbrev pub Block : Type 0
Block = ℕ × ℕ

-- From `p` the `next` fields lead through the nodes `bs`, of those sizes, to `e`.
abbrev pub Chain : (ℕ → ℕ) → (ℕ → ℕ) → ℕ → ℕ → List Block → Type 0
Chain nx sz e p [] = p ≡ e
Chain nx sz e p ((a, s) ∷ bs) = (p ≡ a) × (sz a ≡ s) × Chain nx sz e (nx a) bs

-- The blocks lie in order between `lo` and `e`, with a gap in front of each.
abbrev pub Above : ℕ → ℕ → List Block → Type 0
Above lo e [] = lo ≤ e
Above lo e ((a, s) ∷ bs) = (lo < a) × (node_size ≤ s) × Above (a + s) e bs

-- No block of the list overlaps the `s` bytes at `a`.
abbrev pub Apart : ℕ → ℕ → List Block → Type 0
Apart a s [] = Unit
Apart a s ((b, t) ∷ bs) = ((b + t ≤ a) ⊎ (a + s ≤ b)) × Apart a s bs

-- No block of the list starts at `y`.
abbrev pub NotIn : ℕ → List Block → Type 0
NotIn y [] = Unit
NotIn y ((b, t) ∷ bs) = (b ≢ y) × NotIn y bs

unfoldable pub total : List Block → ℕ
total [] = 0
total ((a, s) ∷ bs) = s + total bs

-- Puts a block in front of a list, merged with the first block if the two touch.
unfoldable pub join : ℕ → ℕ → List Block → List Block
join a s [] = (a, s) ∷ []
join a s ((b, t) ∷ bs) = if a + s == b then (a, s + t) ∷ bs else (a, s) ∷ (b, t) ∷ bs

unfoldable pub settle : ℕ → ℕ → ℕ → ℕ → List Block → List Block
unfolding join
settle p t a s bs = if p + t == a then join p (t + s) bs else (p, t) ∷ join a s bs

-- The list from the block `(p, t)` on, with `(a, s)` put in at its place.
unfoldable pub insert : ℕ → ℕ → ℕ → ℕ → List Block → List Block
unfolding settle
insert p t a s [] = settle p t a s []
insert p t a s ((b, u) ∷ bs) =
    if ltb b a then (p, t) ∷ insert b u a s bs else settle p t a s ((b, u) ∷ bs)

pub Above-le : (lo e : ℕ) (bs : List Block) → Above lo e bs → lo ≤ e
Above-le lo e [] h = h
Above-le lo e ((a, s) ∷ bs) (h, k, r) = omega (arith, Above-le (a + s) e bs r)

pub Above-mono : (lo lo' e : ℕ) (bs : List Block) → lo' ≤ lo → Above lo e bs → Above lo' e bs
Above-mono lo lo' e [] le h = omega arith
Above-mono lo lo' e ((a, s) ∷ bs) le (h, k, r) = (omega arith, k, r)

-- A chain stands whatever is written at or below the address in front of it.
pub Chain-frame :
    (nx sz nx' sz' : ℕ → ℕ) (lo e p : ℕ) (bs : List Block)
    → ((x : ℕ) → lo < x → nx' x ≡ nx x)
    → ((x : ℕ) → lo < x → sz' x ≡ sz x)
    → Above lo e bs
    → Chain nx sz e p bs
    → Chain nx' sz' e p bs
Chain-frame nx sz nx' sz' lo e p [] fn fs ab c = c
Chain-frame nx sz nx' sz' lo e p ((a, s) ∷ bs) fn fs (h, k, r) (q, z, c) = (
  q,
  rw (fs a h) z,
  rw (fn a h) (
      Chain-frame nx sz nx' sz' (a + s) e (nx a) bs (λ x l. fn x (omega arith))
        (λ x l. fs x (omega arith)) r c),
)

pub total-insert : (p t a s : ℕ) (bs : List Block) → total (insert p t a s bs) ≡ t + s + total bs
unfolding total insert
total-insert p t a s [] = ground arith
total-insert p t a s ((b, u) ∷ bs) = ground (arith, total-insert b u a s bs)

-- What `insert` puts in order stays in order.
pub Above-insert :
    (lo p t a s e : ℕ) (bs : List Block)
    → Above (p + t) e bs
    → p + t ≤ a
    → a + s ≤ e
    → node_size ≤ s
    → Apart a s bs
    → lo < p
    → node_size ≤ t
    → Above lo e (insert p t a s bs)
unfolding insert
Above-insert lo p t a s e [] ab le fit big apart l z = ground arith
Above-insert lo p t a s e ((b, u) ∷ bs) ab le fit big apart l z = ground (
  arith,
  Above-insert (p + t) b u a s e bs,
  Above-mono (b + u) (a + s + u) e bs,
  Above-mono (b + u) (p + (t + s + u)) e bs,
)

-- The first block of a list may be the start node, which has no size.
abbrev pub Ordered : ℕ → List Block → Type 0
Ordered e [] = Unit
Ordered e ((p, t) ∷ bs) = Above (p + t) e bs

pub Ordered-insert :
    (p t a s e : ℕ) (bs : List Block)
    → Above (p + t) e bs
    → p + t ≤ a
    → a + s ≤ e
    → node_size ≤ s
    → Apart a s bs
    → Ordered e (insert p t a s bs)
unfolding insert
Ordered-insert p t a s e [] ab le fit big apart = ground arith
Ordered-insert p t a s e ((b, u) ∷ bs) ab le fit big apart = ground (
  arith,
  Above-insert (p + t) b u a s e bs,
  Above-mono (b + u) (a + s + u) e bs,
  Above-mono (b + u) (p + (t + s + u)) e bs,
)
