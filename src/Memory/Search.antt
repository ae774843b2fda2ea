-- ===== src/Memory/Search.antt =====
-- The first-fit search of `alloc`.
use tpe2_so.Base.{
  ℕ, zero, suc, ◌+◌, ◌≤◌, ◌<◌, ◌≡◌, refl, inl, inr, none, some, List, [], ◌∷◌, arith, length,
  update, lt-cases, lt→ltb, le→ltb, ne→==, update_ne, update_self, ◌∙◌,
}
use tpe2_so.Memory.{Heap, find_fit}
use tpe2_so.Memory.Blocks.{Block, Chain, Above, Chain-frame, Above-mono}
use tpe2_so.Memory.FreeList.{fitting, remove_fitting}

-- Behind a block of a chain stands another block or the end, never address 0.
next_pos :
    (nx sz : ℕ → ℕ) (e lo p : ℕ) (bs : List Block)
    → Chain nx sz e p bs
    → Above lo e bs
    → 0 < lo
    → 0 < p
next_pos nx sz e lo p [] c ab pos = omega arith
next_pos nx sz e lo p ((a, s) ∷ bs) (q, z, c) (g, k, ab) pos = omega arith

module _ (h : Heap) (w : ℕ) where
  -- The search ends at the first block that is large enough, and cutting it out leaves the others.
  pub find_some :
      (k prev t a s : ℕ) (bs : List Block)
      → Chain h.next h.size h.end_node (h.next prev) bs
      → Above (prev + t) h.end_node bs
      → length bs < k
      → fitting w bs ≡ some (a, s)
      → (pr : ℕ) × (find_fit k h w prev (h.next prev) ≡ some (pr, a))
        × (prev ≤ pr)
        × (pr < a)
        × (h.size a ≡ s)
        × Chain
            (update h.next pr (h.next a))
            h.size
            h.end_node
            (update h.next pr (h.next a) prev)
            (remove_fitting w bs)
  unfolding find_fit fitting remove_fitting
  find_some zero prev t a s bs c ab fuel f = absurd (omega arith)
  find_some (suc k) prev t a s [] c ab fuel f = ground arith
  find_some (suc k) prev t a s ((b, u) ∷ bs) (p, z, c) (g, wide, ab) fuel f = elim (lt-cases u w) [
    | inl l ↦
        let (pr, found, le, lt, za, chain) =
          find_some k b u a s bs c ab (omega arith) (rw (lt→ltb u w l) at f) in
        let some_next =
          next_pos h.next h.size h.end_node (b + u) (h.next b) bs c ab (omega arith) in
        (
          pr,
          rw (p, z, lt→ltb u w l, ne→== (h.next b) 0 (omega arith)) found,
          omega arith,
          lt,
          za,
          rw (lt→ltb u w l) (update_ne h.next pr (h.next a) prev (omega arith) ∙ p, z, chain),
        )
    | inr g' ↦
        let here : (b ≡ a) × (u ≡ s) = ground arith in
        let rest =
          Chain-frame h.next h.size (update h.next prev (h.next b)) h.size b h.end_node (h.next b)
            bs (λ x l. update_ne h.next prev (h.next b) x (omega arith)) (λ x l. refl)
            (Above-mono (b + u) b h.end_node bs (omega arith) ab) c in
        (
          prev,
          rw (p, z, le→ltb u w g', here.0),
          omega arith,
          omega arith,
          rw (← here.0) (z ∙ here.1),
          rw (le→ltb u w g', ← here.0, update_self h.next prev (h.next b)) rest,
        )
  ]

  -- Where no block is large enough, the search ends at the end node.
  pub find_none :
      (k prev t : ℕ) (bs : List Block)
      → h.next h.end_node ≡ 0
      → Chain h.next h.size h.end_node (h.next prev) bs
      → Above (prev + t) h.end_node bs
      → length bs < k
      → fitting w bs ≡ none
      → (pr : ℕ) × (find_fit k h w prev (h.next prev) ≡ some (pr, h.end_node))
  unfolding find_fit fitting
  find_none zero prev t bs end c ab fuel f = absurd (omega arith)
  find_none (suc k) prev t [] end c ab fuel f = (prev, ground arith)
  find_none (suc k) prev t ((b, u) ∷ bs) end (p, z, c) (g, wide, ab) fuel f = elim (lt-cases u w) [
    | inl l ↦
        let (pr, found) = find_none k b u bs end c ab (omega arith) (rw (lt→ltb u w l) at f) in
        let some_next =
          next_pos h.next h.size h.end_node (b + u) (h.next b) bs c ab (omega arith) in
        (pr, rw (p, z, lt→ltb u w l, ne→== (h.next b) 0 (omega arith)) found)
    | inr g' ↦ absurd (ground arith)
  ]
