-- ===== src/Scheduler/Queue.antt =====
-- The priority queue of controller/scheduler/queue.go, over the functions of Go's container/heap. An
-- item is kept in its place of the slice; an index that is not in the slice comes after all others.
pub mod Order
pub mod Slice
pub mod Sift
pub mod Operations
pub mod Taking
pub mod Contract
use project_constellation.Prelude.{
  ℕ, zero, suc, ◌+◌, ◌-◌, ◌*◌, ◌/◌, ℤ, pos, negsuc, Bool, true, false, not, ◌||◌, ◌&&◌, String,
  List, [], ◌∷◌, ◌++◌, Option, none, some, length, take, ◌==◌, if◌then◌else◌, ltb, leb, eqb,
}
use project_constellation.State.Model.{Task}

pub record QueueItem : Type 0 where
  pub task : Task
  pub priority : ℕ
  pub index : ℤ

-- priorityToInt.
unfoldable pub priority_to_int : String → ℕ
priority_to_int p =
    if p == "critical"
    then 4
    else if p == "high"
    then 3
    else if p == "normal"
    then 2
    else if p == "low"
    then 1
    else 2

abbrev pub item_at : List QueueItem → ℕ → Option QueueItem
item_at [] i = none
item_at (x ∷ xs) zero = some x
item_at (x ∷ xs) (suc i) = item_at xs i

abbrev pub set_item : List QueueItem → ℕ → QueueItem → List QueueItem
set_item [] i y = []
set_item (x ∷ xs) zero y = y ∷ xs
set_item (x ∷ xs) (suc i) y = x ∷ set_item xs i y

-- What Less reads of an item.
pub record Rank : Type 0 where
  pub priority : ℕ
  pub created_at : ℕ

abbrev pub rank_of : Option QueueItem → Option Rank
rank_of none = none
rank_of (some x) = some (record { priority = x.priority; created_at = x.task.created_at })

abbrev pub rank_at : List QueueItem → ℕ → Option Rank
rank_at xs i = rank_of (item_at xs i)

unfoldable pub before : Option Rank → Option Rank → Bool
before none r = false
before (some x) none = true
before (some x) (some y) =
    if not (eqb x.priority y.priority)
    then ltb y.priority x.priority
    else ltb x.created_at y.created_at

-- Less.
abbrev pub less : List QueueItem → ℕ → ℕ → Bool
less xs i j = before (rank_at xs i) (rank_at xs j)

abbrev pub exchange : List QueueItem → ℕ → ℕ → Option QueueItem → Option QueueItem → List QueueItem
exchange xs i j (some x) (some y) =
    set_item (set_item xs i (record y { index = pos i })) j (record x { index = pos j })
exchange xs i j _ _ = xs

-- Swap.
unfoldable pub swap : List QueueItem → ℕ → ℕ → List QueueItem
swap xs i j = exchange xs i j (item_at xs i) (item_at xs j)

abbrev pub parent : ℕ → ℕ
parent j = (j - 1) / 2

-- `up` of container/heap.
unfoldable pub up_loop : ℕ → List QueueItem → ℕ → List QueueItem
up_loop zero xs j = xs
up_loop (suc k) xs j =
    let risen = up_loop k (swap xs (parent j) j) (parent j) in
    if eqb (parent j) j || not (less xs j (parent j)) then xs else risen

unfoldable pub up : List QueueItem → ℕ → List QueueItem
up xs j = up_loop (suc j) xs j

-- The child of `i` within the first `n` items that `down` would take.
abbrev pub first_child : ℕ → List QueueItem → ℕ → ℕ
first_child n xs i =
    let left = 2 * i + 1 in
    let right = left + 1 in if ltb right n && less xs right left then right else left

-- `down` of container/heap within the first `n` items, and where the item ends.
unfoldable pub down_loop : ℕ → ℕ → List QueueItem → ℕ → List QueueItem × ℕ
down_loop zero n xs i = (xs, i)
down_loop (suc k) n xs i =
    let j = first_child n xs i in
    let sunk = down_loop k n (swap xs i j) j in
    if leb n (2 * i + 1) || not (less xs j i) then (xs, i) else sunk

unfoldable pub down : ℕ → List QueueItem → ℕ → List QueueItem × Bool
down n xs i = let (ys, at) = down_loop (suc n) n xs i in (ys, ltb i at)

-- The method Push.
unfoldable pub append : QueueItem → List QueueItem → List QueueItem
append x xs = xs ++ record x { index = pos (length xs) } ∷ []

-- Enqueue, with `Push` of container/heap.
unfoldable pub enqueue : Task → List QueueItem → List QueueItem
enqueue t xs =
    up (append (record { task = t; priority = priority_to_int t.priority; index = pos 0 }) xs)
      (length xs)

unfoldable pub keep_first :
    QueueItem → Option (QueueItem × List QueueItem) → Option (QueueItem × List QueueItem)
keep_first x none = none
keep_first x (some (z, zs)) = some (z, x ∷ zs)

-- The method Pop, whose item keeps no place.
unfoldable pub pop_last : List QueueItem → Option (QueueItem × List QueueItem)
pop_last [] = none
pop_last (x ∷ []) = some (record x { index = negsuc 0 }, [])
pop_last (x ∷ y ∷ ys) = keep_first x (pop_last (y ∷ ys))

-- `Pop` of container/heap.
unfoldable pub pop_first : List QueueItem → Option (QueueItem × List QueueItem)
pop_first xs = let n = length xs - 1 in pop_last (down n (swap xs 0 n) 0).0

unfoldable pub task_and_rest : Option (QueueItem × List QueueItem) → Option (Task × List QueueItem)
task_and_rest none = none
task_and_rest (some (x, xs)) = some (x.task, xs)

-- Dequeue.
unfoldable pub dequeue : List QueueItem → Option (Task × List QueueItem)
dequeue [] = none
dequeue (x ∷ xs) = task_and_rest (pop_first (x ∷ xs))

-- Peek.
unfoldable pub peek_first : List QueueItem → Option Task
peek_first [] = none
peek_first (x ∷ xs) = some x.task

unfoldable pub next_place : Option ℕ → Option ℕ
next_place none = none
next_place (some i) = some (suc i)

-- The place of the first item with a task's id.
unfoldable pub place_of : String → List QueueItem → Option ℕ
place_of id [] = none
place_of id (x ∷ xs) = if x.task.id == id then some 0 else next_place (place_of id xs)

-- `Remove` of container/heap.
unfoldable pub remove_at : List QueueItem → ℕ → Option (QueueItem × List QueueItem)
remove_at xs i =
    let n = length xs - 1 in
    if eqb n i
    then pop_last xs
    else (let (ys, moved) = down n (swap xs i n) i in pop_last (if moved then ys else up ys i))

-- Remove.
unfoldable pub removed_from :
    List QueueItem → Option (QueueItem × List QueueItem) → Bool × List QueueItem
removed_from xs none = (true, xs)
removed_from xs (some (x, ys)) = (true, ys)

unfoldable pub remove_place : List QueueItem → Option ℕ → Bool × List QueueItem
remove_place xs none = (false, xs)
remove_place xs (some i) = removed_from xs (remove_at xs i)

unfoldable pub remove : String → List QueueItem → Bool × List QueueItem
remove id xs = remove_place xs (place_of id xs)
