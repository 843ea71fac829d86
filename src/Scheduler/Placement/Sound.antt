-- ===== src/Scheduler/Placement/Sound.antt =====
-- What the choice of findBestNode and findGangNodes guarantees of a node.
use mathlib.Core.List.{Mem, mem-cons_self, mem-cons_of_mem}
use project_constellation.Prelude.{
  some_inj, ◌≡◌, sym, subst, ◌∙◌, inl, inr, true, false, ◌==◌, List, [], ◌∷◌, some, arith, eq_iff,
  Bool-cases, Float, All, All-mono,
}
use project_constellation.State.Model.{Node, Task}
use project_constellation.Scheduler.Scoring.{score_node}
use project_constellation.Scheduler.Placement.{
  Best, start, keep_better, find_loop, find_best_node, satisfies_constraints, is_candidate,
}

pub members {ℓ} : {A : Type ℓ} (xs : List A) → All (λ x. Mem x xs) xs
members [] = tt
members (x ∷ xs) = (mem-cons_self, All-mono xs (λ y m. mem-cons_of_mem x m) (members xs))

module _ {F : Type 0} ⦃fl : Float F⦄ (task : Task) where
  -- One round of the loop of findBestNode, in each of its cases.
  pub find_loop-skip :
      (b : Best F) (m : Node F) (ms : List (Node F))
      → is_candidate task m ≡ false
      → find_loop task b (m ∷ ms) ≡ find_loop task b ms
  unfolding find_loop
  find_loop-skip b m ms h = ground arith

  pub find_loop-free :
      (b : Best F) (m : Node F) (ms : List (Node F))
      → is_candidate task m ≡ true
      → (task.target_node == "") ≡ true
      → find_loop task b (m ∷ ms) ≡ find_loop task (keep_better task b m) ms
  unfolding find_loop
  find_loop-free b m ms h free = ground arith

  pub find_loop-hit :
      (b : Best F) (m : Node F) (ms : List (Node F))
      → is_candidate task m ≡ true
      → (task.target_node == "") ≡ false
      → (m.id == task.target_node) ≡ true
      → find_loop task b (m ∷ ms) ≡ some m
  unfolding find_loop
  find_loop-hit b m ms h pinned hit = ground arith

  pub find_loop-miss :
      (b : Best F) (m : Node F) (ms : List (Node F))
      → is_candidate task m ≡ true
      → (task.target_node == "") ≡ false
      → (m.id == task.target_node) ≡ false
      → find_loop task b (m ∷ ms) ≡ find_loop task b ms
  unfolding find_loop
  find_loop-miss b m ms h pinned miss = ground arith

  -- A node that the task may be given.
  pub record IsEligible (node : Node F) : Type 0 where
    pub online : node.status ≡ "online"
    pub satisfies : satisfies_constraints task node ≡ true
    pub on_target : (task.target_node == "") ≡ false → node.id ≡ task.target_node

  IsEligible-candidate :
      (m : Node F)
      → is_candidate task m ≡ true
      → ((task.target_node == "") ≡ false → (m.id == task.target_node) ≡ true)
      → IsEligible m
  IsEligible-candidate m h pinned = record {
    online = (eq_iff m.status "online").0 (ground arith);
    satisfies = ground arith;
    on_target = λ p. (eq_iff m.id task.target_node).0 (pinned p);
  }

  keep_better-All :
      (P : Node F → Type 0) (b : Best F) (m : Node F)
      → ((k : Node F) → b.1 ≡ some k → P k)
      → P m
      → (k : Node F) → (keep_better task b m).1 ≡ some k
      → P k
  keep_better-All P b m old p k = elim (Bool-cases (fl.lt b.0 (score_node task m))) [
    | inl e ↦ rw e (λ q. subst P (some_inj q) p)
    | inr e ↦ rw e (old k)
  ]

  find_loop-IsEligible :
      (P : Node F → Type 0) (b : Best F) (nodes : List (Node F)) {n : Node F}
      → ((k : Node F) → b.1 ≡ some k → IsEligible k × P k)
      → All P nodes
      → find_loop task b nodes ≡ some n
      → IsEligible n × P n
  find_loop-IsEligible P b [] old h e = unfold find_loop in old _ e
  find_loop-IsEligible P b (m ∷ ms) {n} old h e = elim (Bool-cases (is_candidate task m)) [
    | inr no_fit ↦ find_loop-IsEligible P b ms old h.1 (sym (find_loop-skip b m ms no_fit) ∙ e)
    | inl fits ↦ elim (Bool-cases (task.target_node == "")) [
      | inl free ↦
          find_loop-IsEligible P (keep_better task b m) ms
            (keep_better-All (λ k. IsEligible k × P k) b m old
              (IsEligible-candidate m fits (λ p. cc), h.0))
            h.1 (sym (find_loop-free b m ms fits free) ∙ e)
      | inr pinned ↦ elim (Bool-cases (m.id == task.target_node)) [
        | inl hit ↦
            subst (λ k. IsEligible k × P k)
              (some_inj (sym (find_loop-hit b m ms fits pinned hit) ∙ e))
              (IsEligible-candidate m fits (λ p. hit), h.0)
        | inr miss ↦
            find_loop-IsEligible P b ms old h.1 (sym (find_loop-miss b m ms fits pinned miss) ∙ e)
      ]
    ]
  ]

  -- The node that findBestNode returns is one of those given, is online, has the resources that the
  -- task asks for, and is the task's target node if it has one.
  pub find_best_node-IsEligible :
      (nodes : List (Node F)) {n : Node F}
      → find_best_node task nodes ≡ some n
      → IsEligible n × Mem n nodes
  unfolding find_best_node
  find_best_node-IsEligible nodes e =
      find_loop-IsEligible (λ m. Mem m nodes) start nodes (λ k q. cc) (members nodes) e
