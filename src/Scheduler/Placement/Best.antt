-- ===== src/Scheduler/Placement/Best.antt =====
-- findBestNode picks a candidate of the greatest score, and finds one where there is one.
use project_constellation.Prelude.{
  some_inj, ◌≡◌, refl, sym, ap, ◌∙◌, inl, inr, true, false, ◌==◌, List, [], ◌∷◌, some, Bool-cases,
  Float, All, any, negsuc,
}
use project_constellation.State.Model.{Node, Task}
use project_constellation.Scheduler.Scoring.{score_node, raw_score}
use project_constellation.Scheduler.Placement.{
  Best, start, keep_better, find_loop, find_best_node, is_candidate,
}
use project_constellation.Scheduler.Placement.Sound.{find_loop-skip, find_loop-free}

-- `<` on float64 is a strict order, also where an operand is NaN.
pub record IsStrict {F : Type 0} (fl : Float F) : Type 0 where
  pub irrefl : (a : F) → fl.lt a a ≡ false
  pub trans : (a b c : F) → fl.lt a b ≡ true → fl.lt b c ≡ true → fl.lt a c ≡ true

module _ {F : Type 0} ⦃fl : Float F⦄ where
  abbrev minus_one : F
  minus_one = fl.of_int (negsuc 0)

  -- The score is a number: what is not below 0 is above -1.
  abbrev pub IsNumber : F → Type 0
  IsNumber x = fl.lt x (fl.decimal 0 0) ≡ false → fl.lt (fl.of_int (negsuc 0)) x ≡ true

  -- The value kept is the score of the node kept.
  abbrev Scored : Task → Best F → Type 0
  Scored task b = (n : Node F) → b.1 ≡ some n → b.0 ≡ score_node task n

  -- No candidate's score is above `x`.
  abbrev pub NotBelow : Task → F → Node F → Type 0
  NotBelow task x m = is_candidate task m ≡ true → fl.lt x (score_node task m) ≡ false

  module _ (strict : IsStrict fl) (task : Task) (free : (task.target_node == "") ≡ true) where
    keep_better-Scored :
        (b : Best F) (m : Node F) → Scored task b → Scored task (keep_better task b m)
    keep_better-Scored b m s n = elim (Bool-cases (fl.lt b.0 (score_node task m))) [
      | inl e ↦ rw e (λ q. ap (score_node task) (some_inj q))
      | inr e ↦ rw e (s n)
    ]

    -- The value kept never falls: what it is not below, the old one was not below.
    keep_better_grows :
        (b : Best F) (m : Node F) (y : F)
        → fl.lt b.0 y ≡ false
        → fl.lt (keep_better task b m).0 y ≡ false
    keep_better_grows b m y h = elim (Bool-cases (fl.lt b.0 (score_node task m))) [
      | inr e ↦ rw e h
      | inl e ↦ rw e (elim (Bool-cases (fl.lt (score_node task m) y)) [
        | inr f ↦ f
        | inl f ↦ cc (strict.trans b.0 (score_node task m) y e f)
      ])
    ]

    keep_better_covers :
        (b : Best F) (m : Node F) → fl.lt (keep_better task b m).0 (score_node task m) ≡ false
    keep_better_covers b m = elim (Bool-cases (fl.lt b.0 (score_node task m))) [
      | inl e ↦ rw e (strict.irrefl (score_node task m))
      | inr e ↦ rw e e
    ]

    find_loop-NotBelow :
        (b : Best F) (nodes : List (Node F)) (n : Node F)
        → Scored task b
        → find_loop task b nodes ≡ some n
        → ((y : F) → fl.lt b.0 y ≡ false → fl.lt (score_node task n) y ≡ false)
          × All (NotBelow task (score_node task n)) nodes
    find_loop-NotBelow b [] n s e =
        let last : b.0 ≡ score_node task n = unfold find_loop in s n e in
        ((λ y h. rw (← last) h), tt)
    find_loop-NotBelow b (m ∷ ms) n s e = elim (Bool-cases (is_candidate task m)) [
      | inr no_fit ↦
          let (grows, rest) =
            find_loop-NotBelow b ms n s (sym (find_loop-skip task b m ms no_fit) ∙ e) in
          (grows, ((λ fits. cc), rest))
      | inl fits ↦
          let (grows, rest) =
            find_loop-NotBelow (keep_better task b m) ms n (keep_better-Scored b m s)
              (sym (find_loop-free task b m ms fits free) ∙ e) in
          (
            (λ y h. grows y (keep_better_grows b m y h)),
            ((λ _. grows (score_node task m) (keep_better_covers b m)), rest),
          )
    ]

    -- For a task that is pinned to no node, no candidate scores above the node that findBestNode
    -- returns, if `<` on the scores is a strict order.
    pub find_best_node-NotBelow :
        (nodes : List (Node F)) (n : Node F)
        → find_best_node task nodes ≡ some n
        → All (NotBelow task (score_node task n)) nodes
    unfolding find_best_node
    find_best_node-NotBelow nodes n e = (find_loop-NotBelow start nodes n (λ k q. cc) e).1

  -- A score is above -1, where findBestNode starts.
  score_above_start :
      (task : Task) (m : Node F)
      → fl.lt minus_one (fl.decimal 0 0) ≡ true
      → fl.lt minus_one (fl.decimal 1 0) ≡ true
      → IsNumber (raw_score task m)
      → fl.lt minus_one (score_node task m) ≡ true
  unfolding score_node
  score_above_start task m zero_above one_above h =
      elim (Bool-cases (fl.lt (raw_score task m) (fl.decimal 0 0))) [
        | inl low ↦ rw low zero_above
        | inr not_low ↦ rw not_low (elim (Bool-cases (fl.lt (fl.decimal 1 0) (raw_score task m))) [
          | inl high ↦ rw high one_above
          | inr not_high ↦ rw not_high (h not_low)
        ])
      ]

  module _ (task : Task) (free : (task.target_node == "") ≡ true) where
    keep_better_keeps :
        (b : Best F) (m k : Node F)
        → b.1 ≡ some k
        → (n : Node F) × ((keep_better task b m).1 ≡ some n)
    keep_better_keeps b m k e = elim (Bool-cases (fl.lt b.0 (score_node task m))) [
      | inl p ↦ rw p (m, refl)
      | inr p ↦ rw p (k, e)
    ]

    find_loop_finds :
        (b : Best F) (nodes : List (Node F)) (k : Node F)
        → b.1 ≡ some k
        → (n : Node F) × (find_loop task b nodes ≡ some n)
    find_loop_finds b [] k e = (k, unfold find_loop in e)
    find_loop_finds b (m ∷ ms) k e = elim (Bool-cases (is_candidate task m)) [
      | inr no_fit ↦ rw (find_loop-skip task b m ms no_fit) (find_loop_finds b ms k e)
      | inl fits ↦
          let (k', e') = keep_better_keeps b m k e in
          rw (find_loop-free task b m ms fits free)
            (find_loop_finds (keep_better task b m) ms k' e')
    ]

    find_loop-start_finds :
        (nodes : List (Node F))
        → fl.lt minus_one (fl.decimal 0 0) ≡ true
        → fl.lt minus_one (fl.decimal 1 0) ≡ true
        → All (λ m. IsNumber (raw_score task m)) nodes
        → any (is_candidate task) nodes ≡ true
        → (n : Node F) × (find_loop task start nodes ≡ some n)
    find_loop-start_finds [] z o h e = cc
    find_loop-start_finds (m ∷ ms) z o h e = elim (Bool-cases (is_candidate task m)) [
      | inr no_fit ↦
          rw (find_loop-skip task start m ms no_fit)
            (find_loop-start_finds ms z o h.1 (rw no_fit at e))
      | inl fits ↦
          rw (find_loop-free task start m ms fits free, score_above_start task m z o h.0)
            (find_loop_finds (score_node task m, some m) ms m refl)
    ]

    -- A task that is pinned to no node gets one whenever some node is a candidate, if every score
    -- before the clamp is a number and the clamp's bounds 0 and 1 are above the start value -1.
    pub find_best_node_finds :
        (nodes : List (Node F))
        → fl.lt (fl.of_int (negsuc 0)) (fl.decimal 0 0) ≡ true
        → fl.lt (fl.of_int (negsuc 0)) (fl.decimal 1 0) ≡ true
        → All (λ m. IsNumber (raw_score task m)) nodes
        → any (is_candidate task) nodes ≡ true
        → (n : Node F) × (find_best_node task nodes ≡ some n)
    unfolding find_best_node
    find_best_node_finds nodes z o h e = find_loop-start_finds nodes z o h e
