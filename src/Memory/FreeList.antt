-- ===== src/Memory/FreeList.antt =====
-- The abstract free list: putting a block in, the first block that is large enough, and its removal.
use tpe2_so.Base.{
  ℕ, ◌+◌, ◌≤◌, ◌<◌, ◌≡◌, refl, ◌⊎◌, inr, Option, none, some, List, [], ◌∷◌, arith, ltb,
  if◌then◌else◌, length, update, ◌<◌,
}
use tpe2_so.Memory.{node_size}
use tpe2_so.Memory.Blocks.{
  Block, Chain, Above, Apart, total, join, insert, Above-le, Above-mono, Ordered-insert,
  total-insert, NotIn,
}

-- The list with the block `(a, s)` put in at its place and merged with the blocks that it touches.
unfoldable pub add : ℕ → ℕ → List Block → List Block
unfolding insert join
add a s [] = (a, s) ∷ []
add a s ((b, u) ∷ bs) = if ltb b a then insert b u a s bs else join a s ((b, u) ∷ bs)

-- A block in front that does not touch the new one, such as the start node, stays.
pub insert-add :
    (p t a s : ℕ) (bs : List Block) → p + t < a → insert p t a s bs ≡ (p, t) ∷ add a s bs
unfolding insert add
insert-add p t a s [] h = ground arith
insert-add p t a s ((b, u) ∷ bs) h = ground arith

-- The first block of at least `w` bytes.
unfoldable pub fitting : ℕ → List Block → Option Block
fitting w [] = none
fitting w ((a, s) ∷ bs) = if ltb s w then fitting w bs else some (a, s)

unfoldable pub remove_fitting : ℕ → List Block → List Block
remove_fitting w [] = []
remove_fitting w ((a, s) ∷ bs) = if ltb s w then (a, s) ∷ remove_fitting w bs else bs

-- A part of a region that is apart from the blocks is apart from them.
pub Apart-part :
    (a s x v : ℕ) (bs : List Block) → a ≤ x → x + v ≤ a + s → Apart a s bs → Apart x v bs
Apart-part a s x v [] l m h = tt
Apart-part a s x v ((b, t) ∷ bs) l m (d, r) = (ground arith, Apart-part a s x v bs l m r)

pub Apart-NotIn :
    (lo e a s y : ℕ) (bs : List Block)
    → Above lo e bs
    → Apart a s bs
    → a ≤ y
    → y < a + s
    → NotIn y bs
Apart-NotIn lo e a s y [] ab ap l h = tt
Apart-NotIn lo e a s y ((b, t) ∷ bs) (g, k, r) (d, ap) l h =
    (ground arith, Apart-NotIn (b + t) e a s y bs r ap l h)

pub Chain-set_size :
    (nx sz : ℕ → ℕ) (e p y v : ℕ) (bs : List Block)
    → NotIn y bs
    → Chain nx sz e p bs
    → Chain nx (update sz y v) e p bs
Chain-set_size nx sz e p y v [] n c = c
Chain-set_size nx sz e p y v ((b, t) ∷ bs) (ne, n) (q, z, c) =
    (q, ground arith, Chain-set_size nx sz e (nx b) y v bs n c)

pub Chain-set_next :
    (nx sz : ℕ → ℕ) (e p y v : ℕ) (bs : List Block)
    → NotIn y bs
    → Chain nx sz e p bs
    → Chain (update nx y v) sz e p bs
Chain-set_next nx sz e p y v [] n c = c
Chain-set_next nx sz e p y v ((b, t) ∷ bs) (ne, n) (q, z, c) =
    let same : update nx y v b ≡ nx b = ground arith in
    (q, z, rw same (Chain-set_next nx sz e (nx b) y v bs n c))

-- A region that is apart from the blocks and from the new one is apart from the result.
pub Apart-insert :
    (x w p t a s : ℕ) (bs : List Block)
    → 0 < w
    → (p + t ≤ x) ⊎ (x + w ≤ p)
    → (a + s ≤ x) ⊎ (x + w ≤ a)
    → Apart x w bs
    → Apart x w (insert p t a s bs)
unfolding insert
Apart-insert x w p t a s [] pos d d' ap = ground arith
Apart-insert x w p t a s ((b, u) ∷ bs) pos d d' ap = ground (arith, Apart-insert x w b u a s bs)

pub Apart-add :
    (x w a s : ℕ) (bs : List Block)
    → 0 < w
    → (a + s ≤ x) ⊎ (x + w ≤ a)
    → Apart x w bs
    → Apart x w (add a s bs)
unfolding add
Apart-add x w a s [] pos d ap = (d, tt)
Apart-add x w a s ((b, u) ∷ bs) pos d ap = ground (arith, Apart-insert x w b u a s bs)

pub total-add : (a s : ℕ) (bs : List Block) → total (add a s bs) ≡ s + total bs
unfolding add total
total-add a s [] = refl
total-add a s ((b, u) ∷ bs) = ground (arith, total-insert b u a s bs)

pub Above-add :
    (lo a s e : ℕ) (bs : List Block)
    → Above lo e bs
    → lo < a
    → a + s ≤ e
    → node_size ≤ s
    → Apart a s bs
    → Above lo e (add a s bs)
unfolding add
Above-add lo a s e bs ab l fit big ap =
    let whole =
      Ordered-insert lo 0 a s e bs (Above-mono lo (lo + 0) e bs (omega arith) ab) (omega arith) fit
        big ap in
    Above-mono (lo + 0) lo e (add a s bs) (omega arith)
      (rw (insert-add lo 0 a s bs (omega arith)) at whole)

pub length-le-Above : (lo e : ℕ) (bs : List Block) → Above lo e bs → lo + length bs ≤ e
length-le-Above lo e [] h = omega arith
length-le-Above lo e ((a, s) ∷ bs) (g, k, r) = omega (arith, length-le-Above (a + s) e bs r)

module _ (w : ℕ) where
  pub Above-remove_fitting :
      (lo e : ℕ) (bs : List Block) → Above lo e bs → Above lo e (remove_fitting w bs)
  unfolding remove_fitting
  Above-remove_fitting lo e [] h = h
  Above-remove_fitting lo e ((a, s) ∷ bs) (g, k, r) =
      ground (arith, Above-remove_fitting (a + s) e bs r, Above-mono (a + s) lo e bs)

  pub Apart-remove_fitting :
      (x v : ℕ) (bs : List Block) → Apart x v bs → Apart x v (remove_fitting w bs)
  unfolding remove_fitting
  Apart-remove_fitting x v [] h = h
  Apart-remove_fitting x v ((a, s) ∷ bs) (d, r) = ground (arith, Apart-remove_fitting x v bs r)

  pub length-remove_fitting : (bs : List Block) → length (remove_fitting w bs) ≤ length bs
  unfolding remove_fitting
  length-remove_fitting [] = omega arith
  length-remove_fitting ((a, s) ∷ bs) = ground (arith, length-remove_fitting bs)

  -- The blocks above an address are apart from what lies below it.
  pub Apart-of_Above : (lo e x v : ℕ) (bs : List Block) → Above lo e bs → x + v ≤ lo → Apart x v bs
  Apart-of_Above lo e x v [] h l = tt
  Apart-of_Above lo e x v ((a, s) ∷ bs) (g, k, r) l =
      (inr (omega arith), Apart-of_Above (a + s) e x v bs r (omega arith))

  -- The block that is found: it is large enough, lies in the range, and is apart from the rest.
  pub record IsTaken (lo e a s : ℕ) (bs : List Block) : Type 0 where
    pub above : lo < a
    pub below : a + s ≤ e
    pub enough : w ≤ s
    pub header : node_size ≤ s
    pub apart : Apart a s (remove_fitting w bs)
    pub sum : total bs ≡ s + total (remove_fitting w bs)

  pub fitting-IsTaken :
      (lo e a s : ℕ) (bs : List Block)
      → Above lo e bs
      → fitting w bs ≡ some (a, s)
      → IsTaken lo e a s bs
  unfolding fitting remove_fitting total
  fitting-IsTaken lo e a s [] ab f = ground arith
  fitting-IsTaken lo e a s ((b, u) ∷ bs) (g, k, r) f = ground (
    arith,
    fitting-IsTaken (b + u) e a s bs r,
    Apart-of_Above (a + s) e a s bs,
    Above-le (b + u) e bs r,
  )

  -- A region apart from the list is apart from the block found in it.
  pub Apart-fitting :
      (x v a s : ℕ) (bs : List Block)
      → Apart x v bs
      → fitting w bs ≡ some (a, s)
      → (a + s ≤ x) ⊎ (x + v ≤ a)
  unfolding fitting
  Apart-fitting x v a s [] ap f = ground arith
  Apart-fitting x v a s ((b, u) ∷ bs) (d, ap) f = ground (arith, Apart-fitting x v a s bs ap)
