-- ===== src/Scheduler/Loop.antt =====
-- A loop over tasks that were read from the store, where each round changes the row of its own task
-- at most. `R` is what a round may make of a row.
use project_constellation.Prelude.{
  ◌≡◌, refl, sym, ap, any, true, ◌∙◌, inl, inr, false, ◌==◌, String, List, [], ◌∷◌, some, eq_iff,
  eq_comm, Bool-cases, All, some_inj, subst, for_each,
}
use project_constellation.Prelude.Rows.{IsUnique}
use project_constellation.State.Model.{Task}
use project_constellation.State.Tasks.Updates.{
  task_row, Updated, task_row-Updated, task_row-Updated_self,
}
use project_constellation.Scheduler.Events.{World}

-- Tasks as their rows stand, each once, that passed a test.
pub record IsReading {F : Type 0} (P : Task → Type 0) (ts : List Task) (w : World F) : Type 0 where
  pub passed : All P ts
  pub unique : IsUnique (λ q. q.id) ts
  pub current : All (λ q. task_row q.id w.store ≡ some q) ts

module _ {F : Type 0} (R : Task → Task → Type 0) where
  -- The tasks after a round: as they were, or with one change made on the rows of the task's id.
  pub data Turn (task : Task) (w w' : World F) : Type 0 where
    idle : w'.store.tasks ≡ w.store.tasks → Turn task w w'
    turn :
        (f : Task → Task)
        → ((t : Task) → (f t).id ≡ t.id)
        → Updated task.id f w.store w'.store
        → R task (f task)
        → Turn task w w'

  -- The row of a task, and what became of it.
  abbrev pub Became : String → Task → World F → Type 0
  Became j t w = (t' : Task) × (task_row j w.store ≡ some t') × R t t'

  Turn-other :
      {q : Task} {w w' : World F} (j : String)
      → Turn q w w'
      → (q.id == j) ≡ false
      → task_row j w'.store ≡ task_row j w.store
  Turn-other j (idle h) d = rw h
  Turn-other j (turn f keep u o) d = task_row-Updated j keep d u

  module _ (stays : (t : Task) → R t t) where
    Turn-self :
        {q : Task} {w w' : World F}
        → Turn q w w'
        → task_row q.id w.store ≡ some q
        → Became q.id q w'
    Turn-self {q} (idle h) r = (q, rw h r, stays q)
    Turn-self {q} (turn f keep u o) r = elim (task_row-Updated_self keep r u) [
      | inl same ↦ (q, same, stays q)
      | inr new ↦ (f q, new, o)
    ]

    module _ (P : Task → Type 0) (body : Task → World F → World F)
        (round : (q : Task) → P q → (w : World F) → Turn q w (body q w)) where
      loop-other :
          (ts : List Task) (w : World F) (j : String)
          → All P ts
          → All (λ q. (q.id == j) ≡ false) ts
          → task_row j (for_each body ts w).store ≡ task_row j w.store
      unfolding for_each
      loop-other [] w j h d = refl
      loop-other (q ∷ qs) w j h d =
          loop-other qs (body q w) j h.1 d.1 ∙ Turn-other j (round q h.0 w) d.0

      -- The rows of the tasks that have not had their turn are still those that were read.
      later_rows :
          (q : Task) (w : World F) (qs : List Task)
          → P q
          → All (λ r. (r.id == q.id) ≡ false) qs
          → All (λ r. task_row r.id w.store ≡ some r) qs
          → All (λ r. task_row r.id (body q w).store ≡ some r) qs
      later_rows q w [] h d rows = tt
      later_rows q w (r ∷ rs) h d rows = (
        Turn-other r.id (round q h w) (eq_comm q.id r.id ∙ d.0) ∙ rows.0,
        later_rows q w rs h d.1 rows.1,
      )

      -- After the loop each task's row is there, and is what one round made of it, or as it was.
      pub for_each-Became :
          (ts : List Task) (w : World F) (j : String) (t : Task)
          → IsReading P ts w
          → task_row j w.store ≡ some t
          → Became j t (for_each body ts w)
      unfolding for_each
      for_each-Became [] w j t h r = (t, r, stays t)
      for_each-Became (q ∷ qs) w j t h r = elim (Bool-cases (q.id == j)) [
        | inl same ↦
            subst (λ k. (x : Task) → task_row k w.store ≡ some x → Became k x result)
              ((eq_iff q.id j).0 same)
              (λ x row. subst (λ y. Became q.id y result) (some_inj (sym h.current.0 ∙ row)) own) t
              r
        | inr other ↦
            for_each-Became qs (body q w) j t
              (record {
                passed = h.passed.1;
                unique = h.unique.1;
                current = later_rows q w qs h.passed.0 h.unique.0 h.current.1;
              })
              (Turn-other j (round q h.passed.0 w) other ∙ r)
      ]
        where
          result : World F
          result = for_each body qs (body q w)

          own : Became q.id q result
          own =
              let (q', row, o) = Turn-self (round q h.passed.0 w) h.current.0 in
              (q', loop-other qs (body q w) q.id h.passed.1 h.unique.0 ∙ row, o)

      -- After the loop the row of a task that was read is what its own round makes of it, whatever
      -- the rounds before it keep.
      pub for_each-own :
          (I : World F → Type 0)
          → ((q : Task) (v : World F) → I v → I (body q v))
          → (j : String) (t t' : Task)
          → ((v : World F)
              → I v
              → task_row j v.store ≡ some t
              → task_row j (body t v).store ≡ some t')
          → (ts : List Task) (w : World F) → IsReading P ts w
          → I w
          → any (λ q. q.id == j) ts ≡ true
          → task_row j w.store ≡ some t
          → task_row j (for_each body ts w).store ≡ some t'
      unfolding for_each
      for_each-own I keep j t t' own [] w h i m r = absurd (cc m)
      for_each-own I keep j t t' own (q ∷ qs) w h i m r = elim (Bool-cases (q.id == j)) [
        | inl same ↦
            let it : q ≡ t =
              some_inj
                (sym h.current.0 ∙ ap (λ k. task_row k w.store) ((eq_iff q.id j).0 same) ∙ r) in
            let mine = own w i r in
            loop-other qs (body q w) j h.passed.1
              (subst (λ k. All (λ p. (p.id == k) ≡ false) qs) ((eq_iff q.id j).0 same) h.unique.0)
            ∙ subst (λ p. task_row j (body p w).store ≡ some t') (sym it) mine
        | inr other ↦
            for_each-own I keep j t t' own qs (body q w)
              (record {
                passed = h.passed.1;
                unique = h.unique.1;
                current = later_rows q w qs h.passed.0 h.unique.0 h.current.1;
              })
              (keep q w i) (rw other at m) (Turn-other j (round q h.passed.0 w) other ∙ r)
      ]
