-- ===== src/Scheduler/Turns.antt =====
-- Ready processes take turns: how long one waits for the CPU.
use mathlib.Core.List.{append_assoc}
use mathlib.Core.Path.{subst}
use tpe2_so.Base.{
  ℕ, zero, suc, ◌+◌, ◌-◌, ◌^◌, ◌<◌, ◌≡◌, ◌≢◌, refl, List, [], ◌∷◌, ◌++◌, arith, update, update_ne,
  update_self, ◌∙◌, ap, sym, All,
}
use tpe2_so.Scheduler.{Sched, Pcb, ready, set_counter}
use tpe2_so.Scheduler.Ring.{IsRing, NotIn}
use tpe2_so.Scheduler.Lists.{IsRing-same, NotIn-split}
use tpe2_so.Scheduler.Ops.{choose, pick, resumes}
use tpe2_so.Scheduler.Quantum.{pick-choose, resume-some, rotate-IsRing, pick-keeps}

-- The timer has called the scheduler this many times.
pub data Ticks : Sched → ℕ → Sched → Type 0 where
  stop : {s : Sched} → Ticks s 0 s
  tick :
      {s t u : Sched} {n : ℕ} (rsp : ℕ)
      → pick s ≡ resumes t rsp []
      → Ticks t n u
      → Ticks s (suc n) u

Ticks-append : {s t u : Sched} {a b : ℕ} → Ticks s a t → Ticks t b u → Ticks s (a + b) u
Ticks-append {s} {u} {b} stop r =
    let zero_left : b ≡ 0 + b = omega arith in subst (λ n. Ticks s n u) zero_left r
Ticks-append {s} {u} {b} (tick {n} rsp e l) r =
    let one_more : suc (n + b) ≡ suc n + b = omega arith in
    subst (λ k. Ticks s k u) one_more (tick rsp e (Ticks-append l r))

-- A ready process that has a word of turns left.
abbrev pub CanRun : Sched → ℕ → Type 0
CanRun s x =
    ((s.pcb x).state ≡ ready) × (0 < s.priority_counter x) × (s.priority_counter x < 2 ^ 64)

-- The turns that the processes have left.
abbrev pub turns : Sched → List ℕ → ℕ
turns s [] = 0
turns s (x ∷ xs) = s.priority_counter x + turns s xs

-- What a process uses up leaves the others as they are.
record Spent (s t : Sched) (xs : List ℕ) : Type 0 where
  stays : t.current ≡ s.current
  pcbs : t.pcb ≡ s.pcb
  none_left : t.priority_counter s.current ≡ 0
  others : (z : ℕ) → z ≢ s.current → t.priority_counter z ≡ s.priority_counter z
  ring : IsRing t (s.current ∷ xs)

spend :
    (n : ℕ) (s : Sched) (xs : List ℕ)
    → IsRing s (s.current ∷ xs)
    → (s.pcb s.current).state ≡ ready
    → s.priority_counter s.current ≡ n
    → n < 2 ^ 64
    → (t : Sched) × Ticks s n t × Spent s t xs
spend zero s xs r running e small =
    (s, stop, record { stays = refl; pcbs = refl; none_left = e; others = λ z ne. refl; ring = r })
spend (suc n) s xs r running e small =
    let s' : Sched = set_counter s s.current n in
    let one = pick-keeps s n xs r running e small in
    let (t, go, k) =
      spend n s' xs (IsRing-same s s' (s.current ∷ xs) refl refl refl refl r) running
        (update_self s.priority_counter s.current n) (omega arith) in
    (
      t,
      tick (s.pcb s.current).rsp one go,
      record {
        stays = k.stays;
        pcbs = k.pcbs;
        none_left = k.none_left;
        others = λ z ne. k.others z ne ∙ update_ne s.priority_counter s.current n z ne;
        ring = k.ring;
      },
    )

-- The state after the turn has gone from the current process to `y`, which has `k` turns left.
abbrev passed : Sched → ℕ → ℕ → Sched
passed s y k =
    set_counter
      (record s {
        current = y;
        priority_counter = update s.priority_counter s.current (s.pcb s.current).priority;
      })
      y k

pick-passed :
    (s : Sched) (y k : ℕ) (ys : List ℕ)
    → IsRing s (s.current ∷ y ∷ ys)
    → (s.pcb s.current).state ≡ ready
    → s.priority_counter s.current ≡ 0
    → s.priority_counter y ≡ suc k
    → suc k < 2 ^ 64
    → (pick s ≡ resumes (passed s y k) (s.pcb y).rsp [])
      × IsRing (passed s y k) ((y ∷ ys) ++ (s.current ∷ []))
unfolding choose
pick-passed s y k ys r running spent left small =
    let refilled = update s.priority_counter s.current (s.pcb s.current).priority in
    let next : Sched = record s { current = y; priority_counter = refilled } in
    let chosen : choose s ≡ (next, []) = ground (arith, r.leads.1.0) in
    let still =
      update_ne s.priority_counter s.current (s.pcb s.current).priority y r.distinct.0.0 in
    (
      pick-choose s next [] (y ∷ ys) r chosen
          ∙ resume-some next [] k (omega (arith, r.count)) (still ∙ left) small,
      IsRing-same (record s { current = y }) (passed s y k) ((y ∷ ys) ++ (s.current ∷ [])) refl refl
          refl refl (rotate-IsRing s y ys r),
    )

-- The processes of a list have the same turns and states in both.
abbrev Agree : Sched → Sched → List ℕ → Type 0
Agree s t xs = All (λ x. t.priority_counter x ≡ s.priority_counter x) xs

Agree-outside :
    (s t : Sched) (c w : ℕ) (xs : List ℕ)
    → NotIn c xs
    → NotIn w xs
    → ((z : ℕ) → z ≢ c → z ≢ w → t.priority_counter z ≡ s.priority_counter z)
    → Agree s t xs
Agree-outside s t c w [] nc nw f = tt
Agree-outside s t c w (x ∷ xs) (xc, nc) (xw, nw) f = (f x xc xw, Agree-outside s t c w xs nc nw f)

turns-same : (s t : Sched) (xs : List ℕ) → Agree s t xs → turns t xs ≡ turns s xs
turns-same s t [] a = refl
turns-same s t (x ∷ xs) (e, a) = omega (arith, turns-same s t xs a)

CanRun-same :
    (s t : Sched) (x : ℕ)
    → t.pcb ≡ s.pcb
    → t.priority_counter x ≡ s.priority_counter x
    → CanRun s x
    → CanRun t x
CanRun-same s t x p e h = rw (p, e) h

All-CanRun :
    (s t : Sched) (xs : List ℕ)
    → t.pcb ≡ s.pcb
    → Agree s t xs
    → All (λ x. CanRun s x) xs
    → All (λ x. CanRun t x) xs
All-CanRun s t [] p a h = tt
All-CanRun s t (x ∷ xs) p (e, a) (c, h) = (CanRun-same s t x p e c, All-CanRun s t xs p a h)

-- What holds where the turn has come to `w`.
record Arrived (s u : Sched) (w : ℕ) (ys : List ℕ) : Type 0 where
  at_w : u.current ≡ w
  pcbs : u.pcb ≡ s.pcb
  used : u.priority_counter w + 1 ≡ s.priority_counter w
  others : (z : ℕ) → z ≢ s.current → z ≢ w → u.priority_counter z ≡ s.priority_counter z
  ring : IsRing u ((w ∷ ys) ++ (s.current ∷ []))

arrive :
    (s : Sched) (w : ℕ) (ys : List ℕ)
    → IsRing s (s.current ∷ w ∷ ys)
    → (s.pcb s.current).state ≡ ready
    → s.priority_counter s.current < 2 ^ 64
    → CanRun s w
    → (u : Sched) × Ticks s (s.priority_counter s.current + 1) u × Arrived s u w ys
arrive s w ys r running small (ok, some_left, word) =
    let (t, go, k) = spend (s.priority_counter s.current) s (w ∷ ys) r running refl small in
    let left : ℕ = s.priority_counter w - 1 in
    let same : t.priority_counter w ≡ suc left = k.others w r.distinct.0.0 ∙ omega arith in
    let (one, ring) =
      pick-passed t w left ys (subst (λ c. IsRing t (c ∷ w ∷ ys)) (sym k.stays) k.ring)
        (ap (λ c. (t.pcb c).state) k.stays
          ∙ ap (λ (p : ℕ → Pcb). (p s.current).state) k.pcbs
          ∙ running)
        (ap t.priority_counter k.stays ∙ k.none_left) same (omega arith) in
    let refilled = update t.priority_counter t.current (t.pcb t.current).priority in
    (
      passed t w left,
      Ticks-append go (tick (t.pcb w).rsp one stop),
      record {
        at_w = refl;
        pcbs = k.pcbs;
        used = ap (λ n. n + 1) (update_self refilled w left) ∙ omega arith;
        others = λ z nc nw.
            update_ne refilled w left z nw
            ∙ update_ne t.priority_counter t.current (t.pcb t.current).priority z
                (λ e. nc (e ∙ k.stays))
            ∙ k.others z nc;
        ring = subst (λ c. IsRing (passed t w left) ((w ∷ ys) ++ (c ∷ []))) k.stays ring;
      },
    )

-- Where every process of the ring before `y`, and `y` itself, is ready and has turns left (the current
-- one may have none): after as many calls of the scheduler as the current process and those before
-- `y` have turns, and one more, `y` is running, and the ring is the old one read from `y` on.
pub turns-reach :
    (s : Sched) (us : List ℕ) (y : ℕ) (vs : List ℕ)
    → IsRing s (s.current ∷ (us ++ (y ∷ vs)))
    → (s.pcb s.current).state ≡ ready
    → s.priority_counter s.current < 2 ^ 64
    → All (λ x. CanRun s x) us
    → CanRun s y
    → (t : Sched) × Ticks s (s.priority_counter s.current + (turns s us + 1)) t
      × (t.current ≡ y)
      × IsRing t (y ∷ (vs ++ (s.current ∷ us)))
turns-reach s [] y vs r running small h hy =
    let (u, go, k) = arrive s y vs r running small hy in
    let count : s.priority_counter s.current + 1 ≡ s.priority_counter s.current + (0 + 1) =
      omega arith in
    (u, subst (λ n. Ticks s n u) count go, k.at_w, k.ring)
turns-reach s (w ∷ us) y vs r running small (hw, hs) hy =
    let (u, go, k) = arrive s w (us ++ (y ∷ vs)) r running small hw in
    let c = s.current in
    let out_c = NotIn-split c us (y ∷ vs) r.distinct.0.1 in
    let out_w = NotIn-split w us (y ∷ vs) r.distinct.1.0 in
    let agree : Agree s u us = Agree-outside s u c w us out_c.0 out_w.0 k.others in
    let agree_y = k.others y out_c.1.0 out_w.1.0 in
    let ring_w : IsRing u ((w ∷ us) ++ ((y ∷ vs) ++ (c ∷ []))) =
      subst (λ l. IsRing u l) (append_assoc (w ∷ us) (y ∷ vs) (c ∷ [])) k.ring in
    let ring_u : IsRing u (u.current ∷ (us ++ (y ∷ (vs ++ (c ∷ []))))) =
      subst (λ a. IsRing u (a ∷ (us ++ (y ∷ (vs ++ (c ∷ [])))))) (sym k.at_w) ring_w in
    let here : u.priority_counter u.current ≡ u.priority_counter w = ap u.priority_counter k.at_w in
    let running_u : (u.pcb u.current).state ≡ ready =
      ap (λ a. (u.pcb a).state) k.at_w ∙ ap (λ (p : ℕ → Pcb). (p w).state) k.pcbs ∙ hw.0 in
    let (t, go', at_y, ring_y) =
      turns-reach u us y (vs ++ (c ∷ [])) ring_u running_u (omega (arith, here, k.used, hw.2))
        (All-CanRun s u us k.pcbs agree hs) (CanRun-same s u y k.pcbs agree_y hy) in
    let count : s.priority_counter c + 1 + (u.priority_counter u.current + (turns u us + 1))
        ≡ s.priority_counter c + (s.priority_counter w + turns s us + 1) =
      omega (arith, here, k.used, turns-same s u us agree) in
    let ring_t : IsRing t (y ∷ (vs ++ (c ∷ (u.current ∷ us)))) =
      subst (λ l. IsRing t (y ∷ l)) (append_assoc vs (c ∷ []) (u.current ∷ us)) ring_y in
    (
      t,
      subst (λ n. Ticks s n t) count (Ticks-append go go'),
      at_y,
      subst (λ a. IsRing t (y ∷ (vs ++ (c ∷ (a ∷ us))))) k.at_w ring_t,
    )
