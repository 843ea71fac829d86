-- ===== src/State/Tasks/Queue.antt =====
-- The order in which the scheduler takes the queued tasks.
use mathlib.Core.List.{Perm}
use project_constellation.Prelude.{
  ◌≤◌, ◌<◌, ◌≡◌, refl, ap, Bool, ◌||◌, ◌==◌, String, true, false, List, [], ◌∷◌, arith, All,
  All-mono, select, subst,
}
use project_constellation.Prelude.Sort.{IsOrdered, sort_by-IsOrdered, sort_by-perm}
use project_constellation.State.Model.{Task}
use project_constellation.State.Engine.{Engine, Store, ok, Statement, Table}
use project_constellation.State.Engine.Rules.{exec-ok}
use project_constellation.State.Tasks.{rank, queue_order, is_queued, get_queued_tasks}

-- A task of the priority `p` goes before one of the priority `q`.
pub data Outranks (p q : String) : Type 0 where
  critical_high : p ≡ "critical" → q ≡ "high" → Outranks p q
  critical_normal : p ≡ "critical" → q ≡ "normal" → Outranks p q
  critical_low : p ≡ "critical" → q ≡ "low" → Outranks p q
  high_normal : p ≡ "high" → q ≡ "normal" → Outranks p q
  high_low : p ≡ "high" → q ≡ "low" → Outranks p q
  normal_low : p ≡ "normal" → q ≡ "low" → Outranks p q

-- `a` may be taken before `b`: the priority of `b` does not outrank it, and of two tasks with the same
-- priority `a` is no younger.
abbrev pub Precedes : Task → Task → Type 0
Precedes a b =
    (¬ Outranks b.priority a.priority) × (a.priority ≡ b.priority → a.created_at ≤ b.created_at)

-- Each task may be taken before all that follow.
abbrev pub InOrder : List Task → Type 0
InOrder [] = Unit {0}
InOrder (t ∷ ts) = All (Precedes t) ts × InOrder ts

queue_order_trans :
    (a b c : Task) → queue_order a b ≡ true → queue_order b c ≡ true → queue_order a c ≡ true
queue_order_trans a b c h k = ground arith

queue_order_total : (a b : Task) → queue_order a b ≡ false → queue_order b a ≡ true
queue_order_total a b h = ground arith

rank-Outranks : (p q : String) → Outranks p q → rank p < rank q
unfolding rank
rank-Outranks p q (critical_high e f) = rw (e, f) (omega arith)
rank-Outranks p q (critical_normal e f) = rw (e, f) (omega arith)
rank-Outranks p q (critical_low e f) = rw (e, f) (omega arith)
rank-Outranks p q (high_normal e f) = rw (e, f) (omega arith)
rank-Outranks p q (high_low e f) = rw (e, f) (omega arith)
rank-Outranks p q (normal_low e f) = rw (e, f) (omega arith)

queue_order-Precedes : (a b : Task) → queue_order a b ≡ true → Precedes a b
queue_order-Precedes a b h = (
  λ o. let below = rank-Outranks b.priority a.priority o in ground (arith, h, below),
  λ e. let same : rank a.priority ≡ rank b.priority = ap rank e in ground (arith, h, same),
)

-- The tasks that wait to be scheduled.
abbrev pub is_waiting : Task → Bool
is_waiting t = t.status == "submitted" || t.status == "queued"

is_queued-is_waiting : (t : Task) → is_queued t ≡ is_waiting t
is_queued-is_waiting t = ground arith

select-is_waiting : (ts : List Task) → select is_queued ts ≡ select is_waiting ts
select-is_waiting [] = refl
select-is_waiting (t ∷ ts) = rw (is_queued-is_waiting t, select-is_waiting ts) refl

IsOrdered-InOrder : (ts : List Task) → IsOrdered queue_order ts → InOrder ts
IsOrdered-InOrder [] h = tt
IsOrdered-InOrder (t ∷ ts) h = (All-mono ts (queue_order-Precedes t) h.0, IsOrdered-InOrder ts h.1)

-- GetQueuedTasks returns every task whose status is submitted or queued, as often as it is in the
-- table, and no other: critical tasks before high ones, these before normal ones and these before low
-- ones, and within one priority from the oldest to the youngest.
pub get_queued_tasks-InOrder :
    {F : Type 0} (e : Engine) (s : Store F) {ts : List Task}
    → get_queued_tasks e s ≡ ok ts
    → InOrder ts × Perm ts (select is_waiting s.tasks)
unfolding get_queued_tasks
get_queued_tasks-InOrder e s h =
    subst (λ ts. InOrder ts × Perm ts (select is_waiting s.tasks))
      (exec-ok e (Statement.select Table.tasks "queued") _ _ h)
      (
        IsOrdered-InOrder _ (
            sort_by-IsOrdered queue_order queue_order_trans queue_order_total
              (select is_queued s.tasks)),
        subst (Perm _) (select-is_waiting s.tasks)
            (sort_by-perm queue_order (select is_queued s.tasks)),
      )
