-- ===== src/Scheduler/Queue/Slice.antt =====
-- The slice of the priority queue: what an exchange, an append and the removal of the last item do to
-- its ranks and to its contents.
use project_constellation.Prelude.{
  ℕ, zero, suc, ◌<◌, pos, ◌≡◌, ◌≢◌, refl, ap, ◌∙◌, List, [], ◌∷◌, some, length, eqb, arith,
  if◌then◌else◌, some_inj,
}
use mathlib.Core.List.{Perm}
use mathlib.Core.List.Perm
use project_constellation.State.Model.{Task}
use project_constellation.Scheduler.Queue.{QueueItem, item_at, set_item, rank_at, swap}
use project_constellation.Scheduler.Queue.Order.{Exchanged}

-- An item without its place.
pub record Content : Type 0 where
  pub task : Task
  pub priority : ℕ

abbrev pub content : QueueItem → Content
content x = record { task = x.task; priority = x.priority }

abbrev pub contents : List QueueItem → List Content
contents [] = []
contents (x ∷ xs) = content x ∷ contents xs

pub item_at-some :
    (xs : List QueueItem) (i : ℕ) → i < length xs → (x : QueueItem) × (item_at xs i ≡ some x)
item_at-some [] i h = absurd (omega (arith, h))
item_at-some (x ∷ xs) zero h = (x, refl)
item_at-some (x ∷ xs) (suc i) h = item_at-some xs i (omega (arith, h))

length-set_item :
    (xs : List QueueItem) (i : ℕ) (y : QueueItem) → length (set_item xs i y) ≡ length xs
length-set_item [] i y = refl
length-set_item (x ∷ xs) zero y = refl
length-set_item (x ∷ xs) (suc i) y = ap suc (length-set_item xs i y)

item_at-set_item :
    (xs : List QueueItem) (i j : ℕ) (y : QueueItem)
    → i < length xs
    → item_at (set_item xs i y) j ≡ (if eqb i j then some y else item_at xs j)
item_at-set_item [] i j y h = absurd (omega (arith, h))
item_at-set_item (x ∷ xs) zero zero y h = refl
item_at-set_item (x ∷ xs) zero (suc j) y h = ground arith
item_at-set_item (x ∷ xs) (suc i) zero y h = ground arith
item_at-set_item (x ∷ xs) (suc i) (suc j) y h = ground (arith, item_at-set_item xs i j y)

-- A write trades the old item for the new one.
set_item-perm :
    (xs : List QueueItem) (i : ℕ) (x y : QueueItem)
    → item_at xs i ≡ some x
    → Perm (content x ∷ contents (set_item xs i y)) (content y ∷ contents xs)
set_item-perm [] i x y h = absurd (cc h)
set_item-perm (z ∷ zs) zero x y h =
    rw (some_inj h) (Perm.swap (content y) (content x) (contents zs))
set_item-perm (z ∷ zs) (suc i) x y h = Perm.trans (Perm.swap (content z) (content x) _) (
    Perm.trans (Perm.cons (content z) (set_item-perm zs i x y h))
      (Perm.swap (content y) (content z) _))

module _ (xs : List QueueItem) (i j : ℕ) (hi : i < length xs) (hj : j < length xs) where
  pub length-swap : length (swap xs i j) ≡ length xs
  unfolding swap
  length-swap =
      let (x, ex) = item_at-some xs i hi in
      let (y, ey) = item_at-some xs j hj in
      rw (ex, ey) (length-set_item (set_item xs i _) j _ ∙ length-set_item xs i _)

  rank_at-swap :
      (c : ℕ)
      → rank_at (swap xs i j) c
        ≡ (if eqb j c then rank_at xs i else if eqb i c then rank_at xs j else rank_at xs c)
  unfolding swap
  rank_at-swap c =
      let (x, ex) = item_at-some xs i hi in
      let (y, ey) = item_at-some xs j hj in
      let y' : QueueItem = record y { index = pos i } in
      let x' : QueueItem = record x { index = pos j } in
      let outer = item_at-set_item (set_item xs i y') j c x' (rw (length-set_item xs i y') hj) in
      let inner = item_at-set_item xs i c y' hi in rw (ex, ey) (ground (arith, outer, inner))

  pub item_at-swap : (c : ℕ) → c ≢ i → c ≢ j → item_at (swap xs i j) c ≡ item_at xs c
  unfolding swap
  item_at-swap c p q =
      let (x, ex) = item_at-some xs i hi in
      let (y, ey) = item_at-some xs j hj in
      let y' : QueueItem = record y { index = pos i } in
      let x' : QueueItem = record x { index = pos j } in
      let outer = item_at-set_item (set_item xs i y') j c x' (rw (length-set_item xs i y') hj) in
      let inner = item_at-set_item xs i c y' hi in rw (ex, ey) (ground (arith, outer, inner, p, q))

  -- The item at the second place after the exchange.
  pub swap-second :
      (x : QueueItem)
      → item_at xs i ≡ some x
      → item_at (swap xs i j) j ≡ some (record x { index = pos j })
  unfolding swap
  swap-second x ex =
      let (y, ey) = item_at-some xs j hj in
      let y' : QueueItem = record y { index = pos i } in
      let x' : QueueItem = record x { index = pos j } in
      let outer = item_at-set_item (set_item xs i y') j j x' (rw (length-set_item xs i y') hj) in
      rw (ex, ey) (ground (arith, outer))

  pub swap-Exchanged : (n : ℕ) → Exchanged n (rank_at xs) (rank_at (swap xs i j)) i j
  swap-Exchanged n = record {
    first = ground (arith, rank_at-swap i);
    second = ground (arith, rank_at-swap j);
    others = λ c r s t. ground (arith, rank_at-swap c);
  }

  pub swap-perm : Perm (contents (swap xs i j)) (contents xs)
  unfolding swap
  swap-perm =
      let (x, ex) = item_at-some xs i hi in
      let (y, ey) = item_at-some xs j hj in
      let y' : QueueItem = record y { index = pos i } in
      let x' : QueueItem = record x { index = pos j } in
      let (z, ez) = item_at-some (set_item xs i y') j (rw (length-set_item xs i y') hj) in
      let inner = item_at-set_item xs i j y' hi in
      let kept : content z ≡ content y = ground (arith, inner, ez, ey) in
      let first = set_item-perm xs i x y' ex in
      let second = rw kept at (set_item-perm (set_item xs i y') j z x' ez) in
      rw (ex, ey) (Perm.cons_inv (Perm.trans second first))
