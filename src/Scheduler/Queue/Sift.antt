-- ===== src/Scheduler/Queue/Sift.antt =====
-- The loops `up` and `down` of container/heap, on the slice of the priority queue.
use project_constellation.Prelude.{
  ℕ, zero, suc, ◌+◌, ◌*◌, ◌≤◌, ◌<◌, ◌≡◌, refl, ap, ◌∙◌, Bool, true, false, not, ◌||◌, List, Option,
  length, ltb, leb, eqb, arith, ◌⊎◌, inl, inr, Bool-cases,
}
use mathlib.Core.List.{Perm}
use mathlib.Core.List.Perm
use project_constellation.Scheduler.Queue.{
  QueueItem, Rank, item_at, rank_at, less, swap, parent, up_loop, first_child, down_loop, down,
}
use project_constellation.Scheduler.Queue.Order.{
  NotAfter, NotAfter-refl, NotAfter-trans, before-NotAfter, IsHeap, Around, Above, Below, IsLow,
  IsFirstChild, rise-Above, sink-Below, Below-Around, Around-Above, Below-IsHeap, Above-IsHeap,
}
use project_constellation.Scheduler.Queue.Slice.{
  contents, length-swap, item_at-swap, swap-Exchanged, swap-perm,
}

-- The same items, the first `n` of them a heap and the others in place.
pub record Sifted (n : ℕ) (xs ys : List QueueItem) : Type 0 where
  pub heap : IsHeap n (rank_at ys)
  pub same : Perm (contents ys) (contents xs)
  pub size : length ys ≡ length xs
  pub others : (c : ℕ) → n ≤ c → item_at ys c ≡ item_at xs c

unmoved : (n : ℕ) (xs : List QueueItem) → IsHeap n (rank_at xs) → Sifted n xs xs
unmoved n xs h = record { heap = h; same = Perm.rfl; size = refl; others = λ c p. refl }

after_swap :
    (n : ℕ) (xs ys : List QueueItem) (i j : ℕ)
    → i < n
    → j < n
    → n ≤ length xs
    → Sifted n (swap xs i j) ys
    → Sifted n xs ys
after_swap n xs ys i j hi hj hn s =
    let pi : i < length xs = omega (arith, hi, hn) in
    let pj : j < length xs = omega (arith, hj, hn) in
    record {
      heap = s.heap;
      same = Perm.trans s.same (swap-perm xs i j pi pj);
      size = s.size ∙ length-swap xs i j pi pj;
      others = λ c p.
          s.others c p
          ∙ item_at-swap xs i j pi pj c (λ e. omega (arith, e, p, hi))
              (λ e. omega (arith, e, p, hj));
    }

pub up_loop-Sifted :
    (k n : ℕ) (xs : List QueueItem) (j : ℕ)
    → j < k
    → j < n
    → n ≤ length xs
    → Above n (rank_at xs) j
    → Sifted n xs (up_loop k xs j)
unfolding up_loop
up_loop-Sifted zero n xs j f hj hn v = absurd (omega (arith, f))
up_loop-Sifted (suc k) n xs j f hj hn v = elim (Bool-cases (eqb (parent j) j)) [
  | inl r ↦
      rw r (unmoved n xs (Above-IsHeap n (rank_at xs) j (λ p. absurd (ground (arith, r, p))) v))
  | inr r ↦
      let p : 0 < j = ground (arith, r) in
      let hi : parent j < n = omega (arith, hj) in
      elim (Bool-cases (less xs j (parent j))) [
        | inr l ↦ rw (r, l) (unmoved n xs (Above-IsHeap n (rank_at xs) j (λ q. l) v))
        | inl l ↦
            let x =
              swap-Exchanged xs (parent j) j (omega (arith, hi, hn)) (omega (arith, hj, hn)) n in
            rw (r, l)
              (after_swap n xs _ (parent j) j hi hj hn (
                up_loop-Sifted k n (swap xs (parent j) j) (parent j) (omega (arith, f, p)) hi
                  (rw (length-swap xs (parent j) j (omega (arith, hi, hn)) (omega (arith, hj, hn)))
                    hn)
                  (rise-Above n _ _ j hj p l x v)))
      ]
]

first_child-IsFirstChild :
    (n : ℕ) (xs : List QueueItem) (i : ℕ)
    → 2 * i + 1 < n
    → IsFirstChild n (rank_at xs) i (first_child n xs i)
first_child-IsFirstChild n xs i h =
    let K = rank_at xs in
    let l = 2 * i + 1 in
    let r = 2 * i + 1 + 1 in
    let itself = NotAfter-refl (K l) in
    let itself_too = NotAfter-refl (K r) in
    elim (Bool-cases (ltb r n)) [
      | inr q ↦ rw q (record {
        inside = h;
        positive = omega arith;
        child = omega arith;
        first = λ c s t u. ground (arith, itself, q, s, t, u);
      })
      | inl q ↦ elim (Bool-cases (less xs r l)) [
        | inl e ↦
            rw (q, e)
              (record {
                inside = ground (arith, q);
                positive = omega arith;
                child = omega arith;
                first =
                    λ c s t u. ground (arith, itself_too, before-NotAfter (K r) (K l) e, s, t, u);
              })
        | inr e ↦
            rw (q, e)
              (record {
                inside = h;
                positive = omega arith;
                child = omega arith;
                first = λ c s t u. ground (arith, itself, e, s, t, u);
              })
      ]
    ]

-- A child that may stand after `i` and goes before no child of `i`.
low :
    (n : ℕ) (K : ℕ → Option Rank) (i j : ℕ)
    → IsFirstChild n K i j
    → NotAfter (K i) (K j)
    → IsLow n K i
low n K i j f h c p q r = NotAfter-trans (K i) (K j) (K c) h (f.first c p q r)

-- What one round of `down` finds: it stops, or exchanges with a first child.
pub data Round (n : ℕ) (xs : List QueueItem) (i : ℕ) : Type 0 where
  stops :
      (leb n (2 * i + 1) || not (less xs (first_child n xs i) i)) ≡ true
      → IsLow n (rank_at xs) i
      → Round n xs i
  sinks :
      (leb n (2 * i + 1) || not (less xs (first_child n xs i) i)) ≡ false
      → less xs (first_child n xs i) i ≡ true
      → IsFirstChild n (rank_at xs) i (first_child n xs i)
      → Round n xs i

pub round : (n : ℕ) (xs : List QueueItem) (i : ℕ) → Round n xs i
round n xs i = elim (Bool-cases (leb n (2 * i + 1))) [
  | inl e ↦ stops (rw e refl) (λ c p q r. absurd (ground (arith, e, p, q, r)))
  | inr e ↦
      let f = first_child-IsFirstChild n xs i (ground (arith, e)) in
      elim (Bool-cases (less xs (first_child n xs i) i)) [
        | inl b ↦ sinks (rw (e, b) refl) b f
        | inr b ↦ stops (rw (e, b) refl) (low n (rank_at xs) i (first_child n xs i) f b)
      ]
]

down_loop-le : (k n : ℕ) (xs : List QueueItem) (i : ℕ) → i ≤ (down_loop k n xs i).1
unfolding down_loop
down_loop-le zero n xs i = omega arith
down_loop-le (suc k) n xs i = elim (round n xs i) [
  | stops e l ↦ rw e (omega arith)
  | sinks e b f ↦ rw e (
      omega (
        arith,
        f.positive,
        f.child,
        down_loop-le k n (swap xs i (first_child n xs i)) (first_child n xs i),
      ))
]

-- The exchange of a round, and the rest of the loop after it.
module _ (n : ℕ) (xs : List QueueItem) (i : ℕ) (hn : n ≤ length xs)
    (f : IsFirstChild n (rank_at xs) i (first_child n xs i))
    (b : less xs (first_child n xs i) i ≡ true) (v : Around n (rank_at xs) i) where
  child_inside : i < first_child n xs i
  child_inside = omega (arith, f.positive, f.child)

  sunk-Below : Below n (rank_at (swap xs i (first_child n xs i))) (first_child n xs i)
  sunk-Below =
      let j = first_child n xs i in
      let hi : i < n = omega (arith, child_inside, f.inside) in
      sink-Below n _ _ i j hi f b
        (swap-Exchanged xs i j (omega (arith, hi, hn)) (omega (arith, f.inside, hn)) n) v

  sunk-Sifted :
      (ys : List QueueItem)
      → (Below n (rank_at (swap xs i (first_child n xs i))) (first_child n xs i)
          → n ≤ length (swap xs i (first_child n xs i))
          → Sifted n (swap xs i (first_child n xs i)) ys)
      → Sifted n xs ys
  sunk-Sifted ys rest =
      let j = first_child n xs i in
      let hi : i < n = omega (arith, child_inside, f.inside) in
      after_swap n xs ys i j hi f.inside hn (
        rest sunk-Below
          (rw (length-swap xs i j (omega (arith, hi, hn)) (omega (arith, f.inside, hn))) hn))

down_loop-Sifted :
    (k n : ℕ) (xs : List QueueItem) (i : ℕ)
    → n ≤ i + k
    → n ≤ length xs
    → Below n (rank_at xs) i
    → Sifted n xs (down_loop k n xs i).0
unfolding down_loop
down_loop-Sifted zero n xs i f hn v =
    unmoved n xs (Below-IsHeap n (rank_at xs) i (λ c p q r. absurd (omega (arith, f, p, q, r))) v)
down_loop-Sifted (suc k) n xs i f hn v = elim (round n xs i) [
  | stops e l ↦ rw e (unmoved n xs (Below-IsHeap n (rank_at xs) i l v))
  | sinks e b c ↦ rw e (
      sunk-Sifted n xs i hn c b (Below-Around n (rank_at xs) i v) _ (λ u m.
        down_loop-Sifted k n (swap xs i (first_child n xs i)) (first_child n xs i)
          (omega (arith, f, c.positive, c.child)) m u))
]

pub down-Below :
    (n : ℕ) (xs : List QueueItem) (i : ℕ)
    → n ≤ length xs
    → Below n (rank_at xs) i
    → Sifted n xs (down n xs i).0
unfolding down
down-Below n xs i hn v = down_loop-Sifted (suc n) n xs i (omega arith) hn v

-- `down` restores the heap around an item that is too low, or answers that it has not moved it.
pub down-Around :
    (n : ℕ) (xs : List QueueItem) (i : ℕ)
    → n ≤ length xs
    → Around n (rank_at xs) i
    → (((down n xs i).1 ≡ true) × Sifted n xs (down n xs i).0)
      ⊎ ((down n xs i ≡ (xs, false)) × Above n (rank_at xs) i)
unfolding down down_loop
down-Around n xs i hn v = elim (round n xs i) [
  | stops e l ↦
      inr (rw e (ap (λ (b : Bool). (xs, b)) (ground arith)), Around-Above n (rank_at xs) i l v)
  | sinks e b c ↦
      let j = first_child n xs i in
      inl (
        rw e (ground (arith, down_loop-le n n (swap xs i j) j, c.positive, c.child)),
        rw e (
            sunk-Sifted n xs i hn c b v _ (λ u m.
              down_loop-Sifted n n (swap xs i j) j (omega (arith, c.positive, c.child)) m u)),
      )
]
