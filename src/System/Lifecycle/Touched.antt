-- ===== src/System/Lifecycle/Touched.antt =====
-- A request that changes the row of one task at most.
use project_constellation.Prelude.{
  ℕ, ◌≡◌, refl, sym, ◌∙◌, inl, inr, Bool-cases, ◌==◌, String, List, some, eq_iff, subst,
}
use project_constellation.State.Model.{Task}
use project_constellation.State.Engine.{Store, Result, ok, err, after}
use project_constellation.State.Tasks.Updates.{
  task_row, Updated, kept, changed, task_row-Updated, task_row-Updated_self,
}
use project_constellation.Scheduler.Events.{World}
use project_constellation.Scheduler.Loop.{Became}
use project_constellation.Api.Handler.{
  Handler, Out, ◌>>=◌, ◌>>◌, write, write_answer, attempt, query, or_refuse,
}
use project_constellation.Api.Keeps.{Keeps, world_of}
use project_constellation.System.Lifecycle.{Move, stays}
use project_constellation.System.Lifecycle.Aside.{SameTasks}

module _ {F : Type 0} (now : ℕ) (w w' : World F) where
  -- The rows of one id may be changed, by a move of the row that a query by the id finds.
  pub data Touched : Type 0 where
    same : w'.store.tasks ≡ w.store.tasks → Touched
    touched :
        (i : String) (f : Task → Task)
        → ((t : Task) → (f t).id ≡ t.id)
        → Updated i f w.store w'.store
        → ((t : Task) → task_row i w.store ≡ some t → Move now t (f t))
        → Touched

  pub Touched-Became :
      Touched → (j : String) (t : Task) → task_row j w.store ≡ some t → Became (Move now) j t w'
  Touched-Became (same h) j t r = (t, rw h r, stays refl)
  Touched-Became (touched i f keep u m) j t r = elim (Bool-cases (i == j)) [
    | inr other ↦ (t, task_row-Updated j keep other u ∙ r, stays refl)
    | inl own ↦
        let e : i ≡ j = (eq_iff i j).0 own in
        let r' : task_row i w.store ≡ some t = subst (λ k. task_row k w.store ≡ some t) (sym e) r in
        subst (λ k. Became (Move now) k t w') e
          (elim (task_row-Updated_self keep r' u) [
            | inl old ↦ (t, old, stays refl)
            | inr new ↦ (f t, new, m t r')
          ])
  ]

-- What goes after the update may leave the tasks alone.
Updated-before :
    {F : Type 0} {i : String} {f : Task → Task} {s s1 s' : Store F}
    → s'.tasks ≡ s1.tasks
    → Updated i f s s1
    → Updated i f s s'
Updated-before e (kept h) = kept (e ∙ h)
Updated-before e (changed h) = changed (e ∙ h)

-- A write of one task, and then steps that leave the tasks alone.
pub write-Updated :
    {F R A : Type 0} (call : Store F → Result (Store F)) (status : ℕ) (rest : Handler F R A)
    (i : String) (f : Task → Task) (w : World F)
    → Updated i f w.store (after w.store (call w.store))
    → ((s : Store F) → Keeps (SameTasks s.tasks) rest)
    → Updated i f w.store (world_of ((write call status >> rest) w)).store
unfolding write ◌>>=◌ ◌>>◌
write-Updated {F} {R} {A} call status rest i f w u k = through (call w.store) u
  where
    through :
        (r : Result (Store F))
        → Updated i f w.store (after w.store r)
        → Updated i f w.store
            (world_of (elim (write_answer {R = R} w status r) as (λ _. Out F R A) [
              | Out.stop q v ↦ Out.stop q v
              | Out.go a v ↦ rest v
            ])).store
    through (ok s) v = Updated-before ((k s).kept (record w { store = s }) refl) v
    through (err x) v = kept refl

-- Steps that leave the tasks alone, and then others: what the others make of the tasks.
pub bind-tasks :
    {F R A B : Type 0} (T : List Task → Type 0) (m : Handler F R A) (f : A → Handler F R B)
    (w : World F)
    → T w.store.tasks
    → Keeps (SameTasks w.store.tasks) m
    → ((a : A) (v : World F) → v.store.tasks ≡ w.store.tasks → T (world_of (f a v)).store.tasks)
    → T (world_of ((m >>= f) w)).store.tasks
unfolding ◌>>=◌
bind-tasks {F} {R} {A} {B} T m f w start keep next = through (m w) (keep.kept w refl)
  where
    through :
        (o : Out F R A)
        → (world_of o).store.tasks ≡ w.store.tasks
        → T
            (world_of (elim o as (λ _. Out F R B) [
              | Out.stop q v ↦ Out.stop q v
              | Out.go a v ↦ f a v
            ])).store.tasks
    through (Out.stop q v) h = subst T (sym h) start
    through (Out.go a v) h = next a v h

-- A write of one task whose error is dropped, and then steps that leave the tasks alone.
pub attempt-Updated :
    {F R A : Type 0} (call : Store F → Result (Store F)) (rest : Handler F R A) (i : String)
    (f : Task → Task) (w : World F)
    → Updated i f w.store (after w.store (call w.store))
    → ((ts : List Task) → Keeps (SameTasks ts) rest)
    → Updated i f w.store (world_of ((attempt call >> rest) w)).store
unfolding attempt ◌>>=◌ ◌>>◌
attempt-Updated call rest i f w u k =
    Updated-before ((k _).kept (record w { store = after w.store (call w.store) }) refl) u

-- Steps, and then others that leave the tasks alone.
pub then-tasks :
    {F R B : Type 0} (T : List Task → Type 0) (m : Handler F R (Unit {0})) (rest : Handler F R B)
    (w : World F)
    → T (world_of (m w)).store.tasks
    → ((ts : List Task) → Keeps (SameTasks ts) rest)
    → T (world_of ((m >> rest) w)).store.tasks
unfolding ◌>>=◌ ◌>>◌
then-tasks {F} {R} {B} T m rest w done keep = through (m w) done
  where
    through :
        (o : Out F R (Unit {0}))
        → T (world_of o).store.tasks
        → T
            (world_of (elim o as (λ _. Out F R B) [
              | Out.stop q v ↦ Out.stop q v
              | Out.go a v ↦ rest v
            ])).store.tasks
    through (Out.stop q v) h = h
    through (Out.go a v) h = subst T (sym ((keep v.store.tasks).kept v refl)) h

-- A read, and then steps on what it gave.
pub query-tasks :
    {F R A B : Type 0} (T : List Task → Type 0) (f : Store F → Result A) (status : ℕ)
    (rest : A → Handler F R B) (w : World F)
    → T w.store.tasks
    → ((a : A) → f w.store ≡ ok a → T (world_of (rest a w)).store.tasks)
    → T (world_of ((query f status >>= rest) w)).store.tasks
unfolding query or_refuse ◌>>=◌
query-tasks {F} {R} {A} {B} T f status rest w start next = through (f w.store) next
  where
    through :
        (r : Result A)
        → ((a : A) → r ≡ ok a → T (world_of (rest a w)).store.tasks)
        → T
            (world_of (elim (or_refuse {R = R} r status w) as (λ _. Out F R B) [
              | Out.stop q v ↦ Out.stop q v
              | Out.go a v ↦ rest a v
            ])).store.tasks
    through (ok a) n = n a refl
    through (err x) n = start

-- Steps that go on, and then others.
pub go-bind :
    {F R A B : Type 0} (m : Handler F R A) (f : A → Handler F R B) (w : World F) (a : A)
    (v : World F)
    → m w ≡ Out.go a v
    → (m >>= f) w ≡ f a v
unfolding ◌>>=◌
go-bind m f w a v h = rw (h, ◌>>=◌)
