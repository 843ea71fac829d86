-- ===== src/Scheduler/Placement/Agree.antt =====
-- PlaceTask of placement.go and findBestNode of scheduler.go choose the same node.
use mathlib.Core.Option
use project_constellation.Prelude.{
  ◌≡◌, refl, sym, subst, ◌∙◌, inl, inr, true, false, ◌==◌, String, List, [], ◌∷◌, Option, none,
  some, Bool-cases, select_sound, length-take, All-take, leb→le, if◌then◌else◌, Float, All, select,
  find?, length, pos, ℕ, arith, leb,
}
use project_constellation.State.Model.{Node, Task}
use project_constellation.Scheduler.Placement.{
  Best, Placed, placed, refused, start, keep_better, best_of, find_loop, find_best_node,
  find_gang_nodes, is_candidate, place_task, place_candidates, place_target, place_best, take_gang,
}
use project_constellation.Scheduler.Placement.Sound.{
  find_loop-skip, find_loop-free, find_loop-hit, find_loop-miss,
}

module _ {F : Type 0} ⦃fl : Float F⦄ (task : Task) where
  best_of-cons :
      (b : Best F) (m : Node F) (ms : List (Node F))
      → (best_of task (keep_better task b m) ms).1 ≡ (best_of task b (m ∷ ms)).1
  unfolding best_of
  best_of-cons b m ms = refl

  -- The loop over all nodes is the loop over the candidates.
  find_loop-best_of :
      (b : Best F) (nodes : List (Node F))
      → (task.target_node == "") ≡ true
      → find_loop task b nodes ≡ (best_of task b (select (is_candidate task) nodes)).1
  find_loop-best_of b [] free = unfold find_loop best_of in refl
  find_loop-best_of b (m ∷ ms) free = elim (Bool-cases (is_candidate task m)) [
    | inr no_fit ↦ rw (find_loop-skip task b m ms no_fit, no_fit) (find_loop-best_of b ms free)
    | inl fits ↦
        rw (find_loop-free task b m ms fits free, fits)
          (find_loop-best_of (keep_better task b m) ms free ∙ best_of-cons b m _)
  ]

  find_loop-find? :
      (b : Best F) (nodes : List (Node F))
      → (task.target_node == "") ≡ false
      → b.1 ≡ none
      → find_loop task b nodes
        ≡ find? (λ n. n.id == task.target_node) (select (is_candidate task) nodes)
  find_loop-find? b [] pinned e = unfold find_loop in e
  find_loop-find? b (m ∷ ms) pinned e = elim (Bool-cases (is_candidate task m)) [
    | inr no_fit ↦ rw (find_loop-skip task b m ms no_fit, no_fit) (find_loop-find? b ms pinned e)
    | inl fits ↦ elim (Bool-cases (m.id == task.target_node)) [
      | inl hit ↦ rw (find_loop-hit task b m ms fits pinned hit, fits, hit)
      | inr miss ↦
          rw (find_loop-miss task b m ms fits pinned miss, fits, miss)
            (find_loop-find? b ms pinned e)
    ]
  ]

  -- The node of a placement.
  abbrev pub placed_on : Placed F → Option String
  placed_on (placed r) = some r.node_id
  placed_on (refused e) = none

  place_target-on :
      (candidates : List (Node F))
      → placed_on (place_target task candidates)
        ≡ Option.map (λ n. n.id) (find? (λ n. n.id == task.target_node) candidates)
  unfolding place_target
  place_target-on candidates = ground arith

  place_best-on :
      (candidates : List (Node F)) (b : Best F)
      → placed_on (place_best task candidates b) ≡ Option.map (λ n. n.id) b.1
  unfolding place_best
  place_best-on candidates (x, none) = refl
  place_best-on candidates (x, some n) = refl

  place_candidates-on :
      (candidates : List (Node F))
      → placed_on (place_candidates task candidates)
        ≡ Option.map
            (λ n. n.id)
            (if task.target_node == ""
              then (best_of task start candidates).1
              else find? (λ n. n.id == task.target_node) candidates)
  unfolding place_candidates
  place_candidates-on [] = unfold best_of in ground arith
  place_candidates-on (n ∷ ns) = elim (Bool-cases (task.target_node == "")) [
    | inl free ↦ rw free (place_best-on (n ∷ ns) (best_of task start (n ∷ ns)))
    | inr pinned ↦ rw pinned (place_target-on (n ∷ ns))
  ]

  -- PlaceTask places a task exactly when findBestNode finds a node for it, and on the same node.
  pub place_task-find_best_node :
      (nodes : List (Node F))
      → placed_on (place_task task nodes) ≡ Option.map (λ n. n.id) (find_best_node task nodes)
  unfolding place_task find_best_node
  place_task-find_best_node [] = unfold find_loop in refl
  place_task-find_best_node (n ∷ ns) =
      place_candidates-on (select (is_candidate task) (n ∷ ns))
      ∙ elim (Bool-cases (task.target_node == "")) [
        | inl free ↦ rw (free, find_loop-best_of start (n ∷ ns) free)
        | inr pinned ↦ rw (pinned, find_loop-find? start (n ∷ ns) pinned refl)
      ]

  abbrev IsGang : ℕ → List (Node F) → List (Node F) → Type 0
  IsGang n candidates gang =
      (length gang ≡ (if leb n (length candidates) then n else 0))
      × All (λ m. is_candidate task m ≡ true) gang

  take_gang-IsGang :
      (n : ℕ) (candidates : List (Node F))
      → All (λ m. is_candidate task m ≡ true) candidates
      → IsGang n candidates (take_gang (pos n) candidates)
  unfolding take_gang
  take_gang-IsGang n candidates h = elim (Bool-cases (leb n (length candidates))) [
    | inl enough ↦ rw enough (
      length-take n candidates (leb→le n _ enough),
      All-take (λ m. is_candidate task m ≡ true) n candidates h,
    )
    | inr few ↦ rw few (refl, tt)
  ]

  -- A gang is exactly as large as the task's world size, and each of its nodes is online and has
  -- the resources that the task asks for; where there are fewer candidates it is empty.
  pub find_gang_nodes_lem :
      (nodes : List (Node F)) (n : ℕ)
      → task.world_size ≡ pos n
      → (length (find_gang_nodes task nodes)
          ≡ (if leb n (length (select (is_candidate task) nodes)) then n else 0))
        × All (λ m. is_candidate task m ≡ true) (find_gang_nodes task nodes)
  unfolding find_gang_nodes
  find_gang_nodes_lem nodes n e =
      let candidates = select (is_candidate task) nodes in
      subst (λ k. IsGang n candidates (take_gang k candidates)) (sym e)
        (take_gang-IsGang n candidates (select_sound (is_candidate task) nodes))
