-- ===== src/Scheduler/Queue/Taking.antt =====
-- Taking items out of the priority queue.
use project_constellation.Prelude.{
  ℕ, suc, ◌-◌, ◌≤◌, ◌<◌, pos, negsuc, ◌≡◌, refl, sym, ap, ◌∙◌, true, false, List, ◌∷◌, some,
  some_inj, length, eqb, arith, if◌then◌else◌, inl, inr, Bool-cases,
}
use mathlib.Core.List.{Perm}
use mathlib.Core.List.Perm
use project_constellation.Scheduler.Queue.{
  QueueItem, item_at, rank_of, rank_at, swap, parent, up, down, pop_last, pop_first, remove_at,
}
use project_constellation.Scheduler.Queue.Order.{NotAfter-trans, IsHeap, Around, Below}
use project_constellation.Scheduler.Queue.Slice.{
  content, contents, length-swap, swap-second, swap-Exchanged, swap-perm,
}
use project_constellation.Scheduler.Queue.Sift.{Sifted, up_loop-Sifted, down-Below, down-Around}
use project_constellation.Scheduler.Queue.Operations.{
  IsQueue, pop_last-lem, IsRanked-All, item_at-length,
}

-- What is left when the item `x` is taken out of `xs`.
pub record Left (xs : List QueueItem) (x : QueueItem) (zs : List QueueItem) : Type 0 where
  pub sound : IsQueue zs
  pub split : Perm (contents xs) (content x ∷ contents zs)

-- The item at the end is taken, and the others are a heap.
last-Left :
    (n : ℕ) (xs ys : List QueueItem) (x : QueueItem)
    → IsQueue xs
    → length ys ≡ suc n
    → IsHeap n (rank_at ys)
    → Perm (contents ys) (contents xs)
    → item_at ys n ≡ some x
    → (zs : List QueueItem) × (pop_last ys ≡ some (record x { index = negsuc 0 }, zs))
      × Left xs x zs
last-Left n xs ys x q l h p e =
    let (z, zs, pop, at, size, keep, perm) = pop_last-lem n ys l in
    let found : z ≡ x = some_inj (sym at ∙ e) in
    let whole : Perm (contents xs) (content z ∷ contents zs) = Perm.trans (Perm.symm p) perm in
    (
      zs,
      pop ∙ ap (λ w. some (record w { index = negsuc 0 }, zs)) found,
      record {
        sound = record {
          heap = rw size (λ c r s.
              rw (ap rank_of (keep c s), ap rank_of (keep (parent c) (omega (arith, s))))
                (h c r s));
          ranked = (IsRanked-All whole q.ranked).1;
        };
        split = rw found at whole;
      },
    )

module _ (n : ℕ) (xs : List QueueItem) (i : ℕ) (q : IsQueue xs) (l : length xs ≡ suc n)
    (hi : i < n) where
  -- With the last item in its place, the heap is in order around `i`.
  swap-Around : Around n (rank_at (swap xs i n)) i
  swap-Around =
      let x = swap-Exchanged xs i n (omega (arith, hi, l)) (omega (arith, l)) n in
      record {
        edges = λ c p r s t. ground (arith, x.others c r s, x.others (parent c), q.heap c p);
        bridged = λ c p r s t. ground (
          arith,
          x.others c r,
          x.others (parent i),
          q.heap c p,
          q.heap i t,
          l,
          NotAfter-trans (rank_at xs (parent i)) (rank_at xs i) (rank_at xs c),
        );
      }

swap-Below :
    (n : ℕ) (xs : List QueueItem)
    → IsQueue xs
    → length xs ≡ suc n
    → Below n (rank_at (swap xs 0 n)) 0
swap-Below n xs q l = record {
  edges = λ c p r s.
      (swap-Around n xs 0 q l (omega (arith, p, r))).edges c p r (λ e. omega (arith, e, p)) s;
  bridged = λ c p r s t. absurd (omega (arith, t));
}

last_place :
    (n : ℕ) (xs : List QueueItem) (i : ℕ) (x : QueueItem)
    → length xs ≡ suc n
    → item_at xs i ≡ some x
    → item_at (swap xs i n) n ≡ some (record x { index = pos n })
last_place n xs i x l e = swap-second xs i n (item_at-length xs i x e) (omega (arith, l)) x e

-- After the exchange with the last item and `down` or `up`, the item at the end is taken.
module _ (n : ℕ) (xs : List QueueItem) (i : ℕ) (x : QueueItem) (q : IsQueue xs)
    (l : length xs ≡ suc n) (e : item_at xs i ≡ some x) where
  size_after : length (swap xs i n) ≡ suc n
  size_after = length-swap xs i n (item_at-length xs i x e) (omega (arith, l)) ∙ l

  Sifted-Left :
      (ys : List QueueItem)
      → Sifted n (swap xs i n) ys
      → (zs : List QueueItem) × (pop_last ys ≡ some (record x { index = negsuc 0 }, zs))
        × Left xs x zs
  Sifted-Left ys s =
      let moved : QueueItem = record x { index = pos n } in
      let here : i < length xs = item_at-length xs i x e in
      let (zs, pop, left) =
        last-Left n xs ys moved q (s.size ∙ size_after) s.heap
          (Perm.trans s.same (swap-perm xs i n here (omega (arith, l))))
          (s.others n (omega arith) ∙ last_place n xs i x l e) in
      (zs, pop, record { sound = left.sound; split = left.split })

pop_first-at :
    (n : ℕ) (xs : List QueueItem)
    → length xs ≡ suc n
    → pop_first xs ≡ pop_last (down n (swap xs 0 n) 0).0
unfolding pop_first
pop_first-at n xs l = ap (λ m. pop_last (down m (swap xs 0 m) 0).0) (omega (arith, l))

-- `Pop` takes the item at the root.
pub pop_first-Left :
    (n : ℕ) (xs : List QueueItem) (x : QueueItem)
    → IsQueue xs
    → length xs ≡ suc n
    → item_at xs 0 ≡ some x
    → (zs : List QueueItem) × (pop_first xs ≡ some (record x { index = negsuc 0 }, zs))
      × Left xs x zs
pop_first-Left n xs x q l e =
    let s =
      down-Below n (swap xs 0 n) 0 (omega (arith, size_after n xs 0 x q l e))
        (swap-Below n xs q l) in
    let (zs, pop, left) = Sifted-Left n xs 0 x q l e _ s in (zs, pop_first-at n xs l ∙ pop, left)

remove_at-last : (n : ℕ) (xs : List QueueItem) → length xs ≡ suc n → remove_at xs n ≡ pop_last xs
unfolding remove_at
remove_at-last n xs l =
    let at : length xs - 1 ≡ n = omega (arith, l) in
    let same : eqb n n ≡ true = ground arith in rw (at, same) refl

remove_at-inside :
    (n : ℕ) (xs : List QueueItem) (i : ℕ)
    → length xs ≡ suc n
    → i < n
    → remove_at xs i
      ≡ pop_last (
          if (down n (swap xs i n) i).1
          then (down n (swap xs i n) i).0
          else up (down n (swap xs i n) i).0 i)
unfolding remove_at
remove_at-inside n xs i l h =
    let at : length xs - 1 ≡ n = omega (arith, l) in
    let other : eqb n i ≡ false = ground (arith, h) in rw (at, other) refl

-- `Remove` takes the item at a place.
pub remove_at-Left :
    (n : ℕ) (xs : List QueueItem) (i : ℕ) (x : QueueItem)
    → IsQueue xs
    → length xs ≡ suc n
    → item_at xs i ≡ some x
    → (zs : List QueueItem) × (remove_at xs i ≡ some (record x { index = negsuc 0 }, zs))
      × Left xs x zs
remove_at-Left n xs i x q l e = elim (Bool-cases (eqb n i)) [
  | inl b ↦
      let there : i ≡ n = ground (arith, b) in
      let (zs, pop, left) =
        last-Left n xs xs x q l (λ c p r. q.heap c p (omega (arith, r, l))) Perm.rfl
          (rw there at e) in
      (zs, rw there (remove_at-last n xs l) ∙ pop, left)
  | inr b ↦
      let hi : i < n = ground (arith, b, item_at-length xs i x e, l) in
      let ws = swap xs i n in
      let fits : n ≤ length ws = omega (arith, size_after n xs i x q l e) in
      elim (down-Around n ws i fits (swap-Around n xs i q l hi)) [
        | inl m ↦
            let (zs, pop, left) = Sifted-Left n xs i x q l e _ m.1 in
            (zs, remove_at-inside n xs i l hi ∙ (rw m.0 pop), left)
        | inr m ↦
            let s : Sifted n ws (up ws i) =
              unfold up in up_loop-Sifted (suc i) n ws i (omega arith) hi fits m.1 in
            let (zs, pop, left) = Sifted-Left n xs i x q l e (up ws i) s in
            (zs, remove_at-inside n xs i l hi ∙ (rw m.0 pop), left)
      ]
]
