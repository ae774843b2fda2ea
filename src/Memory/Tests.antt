-- ===== src/Memory/Tests.antt =====
-- The allocator at a fresh pool, and at one with a block that is held.
use tpe2_so.Base.{
  ℕ, ◌+◌, ◌-◌, ◌^◌, ◌%◌, ◌≤◌, ◌<◌, ◌≡◌, refl, some, List, [], ◌∷◌, ◌++◌, arith, ◌==◌, if◌then◌else◌,
}
use tpe2_so.Memory.{
  Heap, list_init, adjust, alloc, free, first_fit, find_fit, take_node, start_mm, max_size,
  node_size, add_node, walk, splice, merge_previous, merge_next,
}
use tpe2_so.Memory.Blocks.{Block, total}
use tpe2_so.Memory.FreeList.{add}
use tpe2_so.Memory.Invariant.{IsValid, whole_pool, list_init-IsValid, adjust_lem}
use tpe2_so.Memory.Ownership.{Owned, Outcome, alloc-Owned, free-Owned}

-- The statics as the loader leaves them, with `startNode` at 0x100000.
abbrev boot : Heap
boot = record {
  next = λ x. 0;
  size = λ x. 0;
  start_node = 0x100000;
  end_node = 0;
  remaining = 0;
  allocated_bit = 0;
}

boot-IsValid : IsValid (list_init boot) whole_pool
boot-IsValid = list_init-IsValid boot (omega arith)

fresh-Owned : Owned (list_init boot) whole_pool []
fresh-Owned = record { valid = boot-IsValid; held = tt; disjoint = tt }

alloc-Owned_example :
    (p : ℕ) × (h' : Heap) × (alloc max_size (list_init boot) 100 ≡ some (p, h'))
    × Outcome (list_init boot) 100 whole_pool [] p h'
alloc-Owned_example =
    alloc-Owned max_size (omega arith) (list_init boot) 100 whole_pool [] fresh-Owned (omega arith)

-- The pool with its first 24 bytes held.
abbrev pool_end : ℕ
pool_end = start_mm + max_size - node_size

abbrev one_held : Heap
one_held = record {
  next = λ x. if x == 0x100000 then start_mm + 24 else if x == start_mm + 24 then pool_end else 0;
  size = λ x.
      if x == start_mm
      then 24 + 2 ^ 63
      else if x == start_mm + 24
      then max_size - node_size - 24
      else 0;
  start_node = 0x100000;
  end_node = pool_end;
  remaining = max_size - node_size - 24;
  allocated_bit = 2 ^ 63;
}

abbrev rest : List Block
rest = (start_mm + 24, max_size - node_size - 24) ∷ []

one_held-Owned : Owned one_held rest ([] ++ ((start_mm, 24) ∷ []))
unfolding total
one_held-Owned = record { valid = ground arith; held = ground arith; disjoint = ground arith }

free-Owned_example :
    (h' : Heap) × (free max_size one_held (start_mm + node_size) ≡ some h')
    × Owned h' (add start_mm 24 rest) ([] ++ [])
free-Owned_example =
    free-Owned max_size (omega arith) one_held start_mm 24 rest [] [] one_held-Owned

adjust_lem_example :
    (0 < 100)
    × (100 + node_size ≤ adjust 100)
    × (adjust 100 < 100 + node_size + 8)
    × (adjust 100 % 8 ≡ 0)
unfolding adjust
adjust_lem_example = adjust_lem 100 (omega arith) (omega arith)

-- The first allocation of the system: 100 bytes are granted as 120.
first_block : (h : Heap) × (alloc 5 boot 100 ≡ some (start_mm + node_size, h))
unfolding alloc list_init adjust first_fit find_fit take_node add_node walk splice merge_previous
    merge_next
first_block = (_, refl)
