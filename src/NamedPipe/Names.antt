-- ===== src/NamedPipe/Names.antt =====
-- The numbers in the table of named pipes, and the loops that search it.
use tpe2_so.Base.{
  ℕ, zero, suc, ◌+◌, ◌≤◌, ◌<◌, ◌≡◌, ◌≢◌, ◌⊎◌, inl, inr, refl, ap, Option, none, some, List, arith,
  ==-cases, ne→==, ==_refl,
}
use tpe2_so.Fd.{minus_one}
use tpe2_so.NamedPipe.{
  Fifo, Files, Call, max_fifo, find_fifo, Scan, taken, full, slot, keep_first, scan,
}

-- No two entries of the table have the same number, but for 0, which marks a free entry.
pub record Distinct (t : ℕ → Fifo) : Type 0 where
  pub apart : (i j : ℕ) → i < max_fifo → j < max_fifo → (t i).id ≢ 0 → (t i).id ≡ (t j).id → i ≡ j

pub find_fifo-some :
    (n i j k : ℕ) (t : ℕ → Fifo) (id : ℕ)
    → i + n ≡ j
    → i ≤ k
    → k < j
    → (t k).id ≡ id
    → ((m : ℕ) → m < j → (t m).id ≡ id → m ≡ k)
    → find_fifo n i t id ≡ some k
unfolding find_fifo
find_fifo-some zero i j k t id e l h is only = absurd (omega arith)
find_fifo-some (suc n) i j k t id e l h is only = elim (==-cases (t i).id id) [
  | inl here ↦ rw (here, ==_refl id) (ap some (only i (omega arith) here))
  | inr ne ↦ elim (==-cases i k) [
    | inl same ↦ absurd (ne (rw same is))
    | inr later ↦
        rw (ne→== (t i).id id ne)
          (find_fifo-some n (i + 1) j k t id (omega arith) (omega arith) h is only)
  ]
]

pub find_fifo-none :
    (n i j : ℕ) (t : ℕ → Fifo) (id : ℕ)
    → i + n ≡ j
    → ((m : ℕ) → m < j → (t m).id ≢ id)
    → find_fifo n i t id ≡ none
unfolding find_fifo
find_fifo-none zero i j t id e absent = refl
find_fifo-none (suc n) i j t id e absent =
    rw (ne→== (t i).id id (absent i (omega arith)))
      (find_fifo-none n (i + 1) j t id (omega arith) absent)

some_injective : {i k : ℕ} → ◌≡◌ {A = Option ℕ} (some i) (some k) → i ≡ k
some_injective e = cc

pub find_fifo_sound :
    (n i j k : ℕ) (t : ℕ → Fifo) (id : ℕ)
    → i + n ≡ j
    → find_fifo n i t id ≡ some k
    → (k < j) × ((t k).id ≡ id)
unfolding find_fifo
find_fifo_sound zero i j k t id e h = cc
find_fifo_sound (suc n) i j k t id e h = elim (==-cases (t i).id id) [
  | inl here ↦
      (let same : i ≡ k = some_injective (rw (here, ==_refl id) at h) in
        rw (← same) (omega arith, here))
  | inr ne ↦ find_fifo_sound n (i + 1) j k t id (omega arith) (rw (ne→== (t i).id id ne) at h)
]

keep_first-slot :
    (i k : ℕ) (known : Scan) → keep_first i known ≡ slot k → (known ≡ slot k) ⊎ (i ≡ k)
unfolding keep_first
keep_first-slot i k full h = inr (cc)
keep_first-slot i k taken h = cc
keep_first-slot i k (slot m) h = inl h

-- What a free entry says of the table: no entry has the number, and the entry is free unless it was
-- known before.
pub scan-slot :
    (n i j k : ℕ) (t : ℕ → Fifo) (id : ℕ) (known : Scan)
    → i + n ≡ j
    → scan n i t id known ≡ slot k
    → ((m : ℕ) → i ≤ m → m < j → (t m).id ≢ id) × ((known ≡ slot k) ⊎ ((k < j) × ((t k).id ≡ 0)))
unfolding scan
scan-slot zero i j k t id known e h = ((λ m l b. absurd (omega arith)), inl h)
scan-slot (suc n) i j k t id known e h = elim (==-cases (t i).id id) [
  | inl here ↦ absurd (let h' = rw (here, ==_refl id) at h in cc)
  | inr ne ↦
      let h' = rw (ne→== (t i).id id ne) at h in
      let rest = scan-slot n (i + 1) j k t id _ (omega arith) h' in
      (
        λ m l b. elim (==-cases m i) [
          | inl same ↦ rw same ne
          | inr other ↦ rest.0 m (omega arith) b
        ],
        elim rest.1 [
          | inr p ↦ inr p
          | inl p ↦ elim (==-cases (t i).id 0) [
            | inr used ↦ inl (rw (ne→== (t i).id 0 used) at p)
            | inl is_free ↦ elim (keep_first-slot i k known (rw is_free at p)) [
              | inl q ↦ inl q
              | inr same ↦ inr (rw (← same) (omega arith, is_free))
            ]
          ]
        ],
      )
]

-- The results -1 and 0 differ.
pub failed-ne-done :
    {s t : Files} {c d : List Call}
    → ◌≡◌ {A = Files × ℕ × List Call} (s, minus_one, c) (t, 0, d)
    → ⊥
failed-ne-done e = omega (arith, ap (λ (x : Files × ℕ × List Call). x.1) e)
