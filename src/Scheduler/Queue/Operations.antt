-- ===== src/Scheduler/Queue/Operations.antt =====
-- The operations of the priority queue.
use project_constellation.Prelude.{
  ℕ, zero, suc, ◌<◌, pos, negsuc, ◌≡◌, refl, ap, subst, Bool, true, ◌||◌, ◌&&◌, List, [], ◌∷◌, ◌++◌,
  map, some, length, All, ltb, leb, eqb, arith, length-append,
}
use mathlib.Core.Logic.{∥∥₁_elim}
use mathlib.Core.List.{Perm, Permᴰ}
use mathlib.Core.List.Perm
use native.Mathlib.Nat.{ℕ_set}
use project_constellation.State.Model.{Task}
use project_constellation.Scheduler.Queue.{
  QueueItem, item_at, rank_of, rank_at, before, parent, up, append, enqueue, keep_first, pop_last,
  priority_to_int,
}
use project_constellation.Scheduler.Queue.Order.{NotAfter, IsHeap, IsHeap-root, Above}
use project_constellation.Scheduler.Queue.Slice.{Content, content, contents}
use project_constellation.Scheduler.Queue.Sift.{up_loop-Sifted}

abbrev pub tasks : List QueueItem → List Task
tasks [] = []
tasks (x ∷ xs) = x.task ∷ tasks xs

-- An item has the priority of its task.
abbrev pub IsRanked : Content → Type 0
IsRanked c = c.priority ≡ priority_to_int c.task.priority

pub record IsQueue (xs : List QueueItem) : Type 0 where
  pub heap : IsHeap (length xs) (rank_at xs)
  pub ranked : All IsRanked (contents xs)

module _ {A : Type 0} (P : A → Type 0) where
  All-prop : ((a : A) → IsProp (P a)) → (xs : List A) → IsProp (All P xs)
  All-prop p [] = hlevel
  All-prop p (x ∷ xs) = let here = p x in let rest = All-prop p xs in hlevel

  All-Permᴰ : {xs ys : List A} → Permᴰ xs ys → All P xs → All P ys
  All-Permᴰ Permᴰ.nil h = h
  All-Permᴰ (Permᴰ.cons e p) h = (subst P e h.0, All-Permᴰ p h.1)
  All-Permᴰ (Permᴰ.swap {b = b} {l = l} d e) h =
      let rest : All P (b ∷ l) = h.1 in (subst P e rest.0, (subst P d h.0, rest.1))
  All-Permᴰ (Permᴰ.trans p q) h = All-Permᴰ q (All-Permᴰ p h)

  pub All-Perm : ((a : A) → IsProp (P a)) → {xs ys : List A} → Perm xs ys → All P xs → All P ys
  All-Perm prop {ys} p h = ∥∥₁_elim p (All-prop prop ys) (λ d. All-Permᴰ d h)

pub tasks-perm :
    (xs ys : List QueueItem) → Perm (contents xs) (contents ys) → Perm (tasks xs) (tasks ys)
tasks-perm xs ys p = rw (read xs, read ys) at (Perm.map Content.task p)
  where
    read : (zs : List QueueItem) → map Content.task (contents zs) ≡ tasks zs
    read [] = refl
    read (z ∷ zs) = ap (z.task ∷◌) (read zs)

-- The last item, and the others in place.
pub pop_last-lem :
    (n : ℕ) (xs : List QueueItem)
    → length xs ≡ suc n
    → (x : QueueItem) × (zs : List QueueItem) × (pop_last xs
        ≡ some (record x { index = negsuc 0 }, zs))
      × (item_at xs n ≡ some x)
      × (length zs ≡ n)
      × ((c : ℕ) → c < n → item_at zs c ≡ item_at xs c)
      × Perm (contents xs) (content x ∷ contents zs)
unfolding pop_last keep_first
pop_last-lem n [] h = absurd (omega (arith, h))
pop_last-lem zero (x ∷ []) h =
    (x, [], refl, refl, refl, (λ c p. absurd (omega (arith, p))), Perm.rfl)
pop_last-lem (suc n) (x ∷ []) h = absurd (omega (arith, h))
pop_last-lem zero (x ∷ y ∷ ys) h = absurd (omega (arith, h))
pop_last-lem (suc n) (x ∷ y ∷ ys) h =
    let (z, zs, e, at, l, keep, p) = pop_last-lem n (y ∷ ys) (omega (arith, h)) in
    (
      z,
      x ∷ zs,
      rw e refl,
      at,
      ap suc l,
      first x zs keep,
      Perm.trans (Perm.cons (content x) p) (Perm.swap (content z) (content x) (contents zs)),
    )
  where
    first :
        (w : QueueItem) (zs : List QueueItem)
        → ((c : ℕ) → c < n → item_at zs c ≡ item_at (y ∷ ys) c)
        → (c : ℕ) → c < suc n
        → item_at (w ∷ zs) c ≡ item_at (w ∷ y ∷ ys) c
    first w zs keep zero p = refl
    first w zs keep (suc c) p = keep c (omega (arith, p))

item_at-append :
    (xs : List QueueItem) (y : QueueItem) (c : ℕ)
    → c < length xs
    → item_at (append y xs) c ≡ item_at xs c
unfolding append
item_at-append xs y c h = before_end xs (record y { index = pos (length xs) }) c h
  where
    before_end :
        (zs : List QueueItem) (z : QueueItem) (i : ℕ)
        → i < length zs
        → item_at (zs ++ z ∷ []) i ≡ item_at zs i
    before_end [] z i p = absurd (omega (arith, p))
    before_end (w ∷ zs) z zero p = refl
    before_end (w ∷ zs) z (suc i) p = before_end zs z i (omega (arith, p))

append-perm :
    (xs : List QueueItem) (y : QueueItem) → Perm (contents (append y xs)) (content y ∷ contents xs)
unfolding append
append-perm xs y = at_end xs (record y { index = pos (length xs) })
  where
    at_end :
        (zs : List QueueItem) (z : QueueItem)
        → Perm (contents (zs ++ z ∷ [])) (content z ∷ contents zs)
    at_end [] z = Perm.rfl
    at_end (w ∷ zs) z =
        Perm.trans (Perm.cons (content w) (at_end zs z))
          (Perm.swap (content z) (content w) (contents zs))

length-append_item : (xs : List QueueItem) (y : QueueItem) → length (append y xs) ≡ suc (length xs)
unfolding append
length-append_item xs y =
    omega (arith, length-append xs (record y { index = pos (length xs) } ∷ []))

pub IsRanked-All : {xs ys : List Content} → Perm xs ys → All IsRanked xs → All IsRanked ys
IsRanked-All p h = All-Perm IsRanked (λ c. ℕ_set _ _) p h

pub enqueue-IsQueue :
    (t : Task) (xs : List QueueItem)
    → IsQueue xs
    → IsQueue (enqueue t xs) × Perm (tasks (enqueue t xs)) (t ∷ tasks xs)
unfolding enqueue up
enqueue-IsQueue t xs q =
    let y : QueueItem = record { task = t; priority = priority_to_int t.priority; index = pos 0 } in
    let n = length xs in
    let ws = append y xs in
    let above : Above (suc n) (rank_at ws) n = record {
      edges = λ c p r s.
          rw
            (
              ap rank_of (item_at-append xs y c (omega (arith, r, s))),
              ap rank_of (item_at-append xs y (parent c) (omega (arith, p, r, s))),
            )
            (q.heap c p (omega (arith, r, s)));
      bridged = λ c p r s u. absurd (omega (arith, p, r, s));
    } in
    let s =
      up_loop-Sifted (suc n) (suc n) ws n (omega arith) (omega arith)
        (omega (arith, length-append_item xs y)) above in
    let same = Perm.trans s.same (append-perm xs y) in
    (
      record {
        heap = rw (s.size, length-append_item xs y) s.heap;
        ranked = IsRanked-All (Perm.symm same) (refl, q.ranked);
      },
      tasks-perm _ (y ∷ xs) same,
    )

-- `t` may be taken before `u`: it has a higher priority, or the same and is not younger.
unfoldable pub is_urgent : Task → Task → Bool
is_urgent t u =
    let p = priority_to_int t.priority in
    let q = priority_to_int u.priority in ltb q p || (eqb p q && leb t.created_at u.created_at)

NotAfter-is_urgent :
    (c d : Content)
    → IsRanked c
    → IsRanked d
    → NotAfter
        (some (record { priority = c.priority; created_at = c.task.created_at }))
        (some (record { priority = d.priority; created_at = d.task.created_at }))
    → is_urgent c.task d.task ≡ true
unfolding is_urgent before
NotAfter-is_urgent c d p q h = ground (arith, p, q, h)

pub item_at-length :
    (xs : List QueueItem) (i : ℕ) (x : QueueItem) → item_at xs i ≡ some x → i < length xs
item_at-length [] i x e = absurd (cc e)
item_at-length (y ∷ ys) zero x e = omega arith
item_at-length (y ∷ ys) (suc i) x e = omega (arith, item_at-length ys i x e)

-- The root is the most urgent item of a heap.
pub root_is_urgent :
    (x : QueueItem) (xs : List QueueItem)
    → IsQueue (x ∷ xs)
    → All (λ c. is_urgent x.task c.task ≡ true) (contents (x ∷ xs))
root_is_urgent x xs q = urgent (x ∷ xs) q.ranked (λ c y e.
    rw e at
      (IsHeap-root (length (x ∷ xs)) (rank_at (x ∷ xs)) c q.heap (item_at-length (x ∷ xs) c y e)))
  where
    urgent :
        (ys : List QueueItem)
        → All IsRanked (contents ys)
        → ((c : ℕ) (y : QueueItem)
            → item_at ys c ≡ some y
            → NotAfter (rank_of (some x)) (rank_of (some y)))
        → All (λ c. is_urgent x.task c.task ≡ true) (contents ys)
    urgent [] r h = tt
    urgent (y ∷ ys) r h = (
      NotAfter-is_urgent (content x) (content y) q.ranked.0 r.0 (h 0 y refl),
      urgent ys r.1 (λ c z e. h (suc c) z e),
    )
