-- ===== src/Scheduler/Queue/Contract.antt =====
-- What the priority queue promises: it is a bag of tasks that gives out a most urgent one.
use project_constellation.Prelude.{
  ℕ, suc, ◌≡◌, refl, sym, subst, Bool, true, false, String, List, [], ◌∷◌, Option, none, some,
  length, All, arith, Bool-cases, inl, inr, ◌==◌, eq_iff,
}
use mathlib.Core.List.{Perm}
use mathlib.Core.List.Perm
use project_constellation.State.Model.{Task}
use project_constellation.Scheduler.Queue.{
  QueueItem, item_at, enqueue, pop_first, dequeue, peek_first, place_of, remove_at, remove,
  removed_from, remove_place, next_place, task_and_rest,
}
use project_constellation.Scheduler.Queue.Slice.{contents}
use project_constellation.Scheduler.Queue.Operations.{
  IsQueue, tasks, is_urgent, tasks-perm, enqueue-IsQueue, root_is_urgent,
}
use project_constellation.Scheduler.Queue.Taking.{pop_first-Left, remove_at-Left}

pub data Call : Type 0 where
  enqueues : Task → Call
  dequeues peeks : Call
  removes : String → Call

pub data Reply : Type 0 where
  done empty : Reply
  task : Task → Reply
  removed : Bool → Reply

unfoldable pub dequeued : List QueueItem → Option (Task × List QueueItem) → Reply × List QueueItem
dequeued xs none = (empty, xs)
dequeued xs (some (t, ys)) = (task t, ys)

unfoldable pub peeked : Option Task → Reply
peeked none = empty
peeked (some t) = task t

unfoldable pub call : Call → List QueueItem → Reply × List QueueItem
call (enqueues t) xs = (done, enqueue t xs)
call dequeues xs = dequeued xs (dequeue xs)
call peeks xs = (peeked (peek_first xs), xs)
call (removes id) xs = let (found, ys) = remove id xs in (removed found, ys)

unfoldable pub run_queue : List Call → List QueueItem → List QueueItem
run_queue [] xs = xs
run_queue (c ∷ cs) xs = run_queue cs (call c xs).1

-- The replies that a bag of tasks may give, and the bag after them.
pub data Allowed : Call → List Task → Reply → List Task → Type 0 where
  adds : {t : Task} {us vs : List Task} → Perm vs (t ∷ us) → Allowed (enqueues t) us done vs
  takes :
      {t : Task} {us vs : List Task}
      → Perm us (t ∷ vs)
      → All (λ u. is_urgent t u ≡ true) us
      → Allowed dequeues us (task t) vs
  takes_none : Allowed dequeues [] empty []
  shows :
      {t : Task} {us vs : List Task}
      → Perm us (t ∷ vs)
      → All (λ u. is_urgent t u ≡ true) us
      → Allowed peeks us (task t) us
  shows_none : Allowed peeks [] empty []
  drops :
      {id : String} {t : Task} {us vs : List Task}
      → t.id ≡ id
      → Perm us (t ∷ vs)
      → Allowed (removes id) us (removed true) vs
  lacks :
      {id : String} {us : List Task}
      → All (λ u. (u.id == id) ≡ false) us
      → Allowed (removes id) us (removed false) us

tasks-All :
    (P : Task → Type 0) (xs : List QueueItem) → All (λ c. P c.task) (contents xs) → All P (tasks xs)
tasks-All P [] h = tt
tasks-All P (x ∷ xs) h = (h.0, tasks-All P xs h.1)

-- A reply that the bag allows, with a sound queue.
abbrev Answers : Call → List Task → Reply × List QueueItem → Type 0
Answers c us r = Allowed c us r.0 (tasks r.1) × IsQueue r.1

abbrev Serves : Call → List QueueItem → Type 0
Serves c xs = Answers c (tasks xs) (call c xs)

call-dequeues :
    (x y : QueueItem) (xs ys : List QueueItem)
    → pop_first (x ∷ xs) ≡ some (y, ys)
    → call dequeues (x ∷ xs) ≡ (task y.task, ys)
unfolding call dequeue
call-dequeues x y xs ys e = rw e (unfold dequeued in unfold task_and_rest in refl)

dequeues-Serves : (xs : List QueueItem) → IsQueue xs → Serves dequeues xs
dequeues-Serves [] q = unfold call in unfold dequeue in unfold dequeued in (takes_none, q)
dequeues-Serves (x ∷ xs) q =
    let (zs, pop, left) = pop_first-Left (length xs) (x ∷ xs) x q refl refl in
    subst (Answers dequeues (tasks (x ∷ xs))) (sym (call-dequeues x _ xs zs pop)) (
      takes (tasks-perm (x ∷ xs) (x ∷ zs) left.split)
          (tasks-All (λ u. is_urgent x.task u ≡ true) (x ∷ xs) (root_is_urgent x xs q)),
      left.sound,
    )

peeks-Serves : (xs : List QueueItem) → IsQueue xs → Serves peeks xs
unfolding call peek_first peeked
peeks-Serves [] q = (shows_none, q)
peeks-Serves (x ∷ xs) q = (
  shows {vs = tasks xs} Perm.rfl
      (tasks-All (λ u. is_urgent x.task u ≡ true) (x ∷ xs) (root_is_urgent x xs q)),
  q,
)

-- What the search for an id finds.
data Search (id : String) (xs : List QueueItem) : Type 0 where
  found :
      (i : ℕ) (x : QueueItem)
      → place_of id xs ≡ some i
      → item_at xs i ≡ some x
      → x.task.id ≡ id
      → Search id xs
  missing : place_of id xs ≡ none → All (λ u. (u.id == id) ≡ false) (tasks xs) → Search id xs

place_of-Search : (id : String) (xs : List QueueItem) → Search id xs
unfolding place_of next_place
place_of-Search id [] = missing refl tt
place_of-Search id (x ∷ xs) = elim (Bool-cases (x.task.id == id)) [
  | inl e ↦ found 0 x (rw e refl) refl ((eq_iff x.task.id id).0 e)
  | inr e ↦ elim (place_of-Search id xs) [
    | found i y p at same ↦ found (suc i) y (rw (e, p) refl) at same
    | missing p h ↦ missing (rw (e, p) refl) (e, h)
  ]
]

call-missing :
    (id : String) (xs : List QueueItem)
    → place_of id xs ≡ none
    → call (removes id) xs ≡ (removed false, xs)
unfolding call remove
call-missing id xs p = rw p (unfold remove_place in refl)

call-removes :
    (id : String) (xs ys : List QueueItem) (i : ℕ) (y : QueueItem)
    → place_of id xs ≡ some i
    → remove_at xs i ≡ some (y, ys)
    → call (removes id) xs ≡ (removed true, ys)
unfolding call remove remove_place
call-removes id xs ys i y p e = rw (p, e) (unfold removed_from in refl)

removes-Serves : (id : String) (xs : List QueueItem) → IsQueue xs → Serves (removes id) xs
removes-Serves id [] q =
    subst (Answers (removes id) []) (sym (call-missing id [] (unfold place_of in refl)))
      (lacks tt, q)
removes-Serves id (x ∷ xs) q = elim (place_of-Search id (x ∷ xs)) [
  | missing p h ↦
      subst (Answers (removes id) (tasks (x ∷ xs))) (sym (call-missing id (x ∷ xs) p)) (lacks h, q)
  | found i y p at same ↦
      let (zs, pop, left) = remove_at-Left (length xs) (x ∷ xs) i y q refl at in
      subst (Answers (removes id) (tasks (x ∷ xs))) (sym (call-removes id (x ∷ xs) zs i _ p pop))
        (drops same (tasks-perm (x ∷ xs) (y ∷ zs) left.split), left.sound)
]

call-Serves : (c : Call) (xs : List QueueItem) → IsQueue xs → Serves c xs
call-Serves (enqueues t) xs q =
    let (sound, same) = enqueue-IsQueue t xs q in unfold call in (adds same, sound)
call-Serves dequeues xs q = dequeues-Serves xs q
call-Serves peeks xs q = peeks-Serves xs q
call-Serves (removes id) xs q = removes-Serves id xs q

pub run_queue-IsQueue :
    (cs : List Call) (xs : List QueueItem) → IsQueue xs → IsQueue (run_queue cs xs)
unfolding run_queue
run_queue-IsQueue [] xs q = q
run_queue-IsQueue (c ∷ cs) xs q = run_queue-IsQueue cs _ (call-Serves c xs q).1

-- After any calls on a new queue, every call answers as a bag of tasks may: Enqueue adds its task,
-- Dequeue takes out and Peek shows a task that may be taken before all the others, by priority and
-- then by age, Remove takes out a task with its id where there is one, and no task is lost.
pub run_queue-Allowed :
    (cs : List Call) (c : Call)
    → Allowed c
        (tasks (run_queue cs []))
        (call c (run_queue cs [])).0
        (tasks (call c (run_queue cs [])).1)
run_queue-Allowed cs c =
    (call-Serves c _ (
      run_queue-IsQueue cs []
        (record { heap = λ i p q. absurd (omega (arith, p, q)); ranked = tt }))).0
