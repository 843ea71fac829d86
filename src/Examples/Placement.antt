-- ===== src/Examples/Placement.antt =====
-- The theorems on placement, at the example's workers.
use mathlib.Core.List.{Mem}
use mathlib.Core.Option
use project_constellation.Prelude.{
  ℤ, ltb_ℤ, pos, negsuc, ◌≡◌, refl, true, some, All, length, any, select, leb, if◌then◌else◌,
}
use project_constellation.State.Model.{Node, Task}
use project_constellation.Scheduler.Placement.{
  find_best_node, find_loop, find_gang_nodes, place_task, is_candidate, satisfies_constraints,
}
use project_constellation.Scheduler.Scoring.{score_node, raw_score}
use project_constellation.Scheduler.Placement.Sound.{IsEligible, find_best_node-IsEligible}
use project_constellation.Scheduler.Placement.Best.{
  NotBelow, find_best_node-NotBelow, find_best_node_finds,
}
use project_constellation.Scheduler.Placement.Agree.{
  placed_on, place_task-find_best_node, find_gang_nodes_lem,
}
use project_constellation.Examples.Fixed.{hundredths, hundredths-IsStrict}
use project_constellation.Examples.Data.{worker, workers, task_of}

abbrev four_cores : Task
four_cores = task_of "task-a" "queued" (pos 4)

abbrev one_core : Task
one_core = task_of "task-b" "queued" (pos 1)

-- Only the large worker has four cores.
best_of_four : find_best_node four_cores workers ≡ some (worker "large" (pos 8))
unfolding find_best_node find_loop satisfies_constraints score_node
best_of_four = refl

best_of_one : find_best_node one_core workers ≡ some (worker "large" (pos 8))
unfolding find_best_node find_loop satisfies_constraints score_node
best_of_one = refl

both_fit : any (is_candidate one_core) workers ≡ true
unfolding satisfies_constraints
both_fit = refl

find_best_node-IsEligible_example :
    IsEligible four_cores (worker "large" (pos 8)) × Mem (worker "large" (pos 8)) workers
find_best_node-IsEligible_example = find_best_node-IsEligible four_cores workers best_of_four

find_best_node-NotBelow_example :
    All (NotBelow one_core (score_node one_core (worker "large" (pos 8)))) workers
find_best_node-NotBelow_example =
    find_best_node-NotBelow hundredths-IsStrict one_core refl workers (worker "large" (pos 8))
      best_of_one

-- The scores are numbers: they are not below 0 here.
scores :
    (ltb_ℤ (negsuc 99) (raw_score one_core (worker "small" (pos 2))) ≡ true)
    × (ltb_ℤ (negsuc 99) (raw_score one_core (worker "large" (pos 8))) ≡ true)
unfolding raw_score
scores = (refl, refl)

find_best_node_finds_example : (n : Node ℤ) × (find_best_node one_core workers ≡ some n)
find_best_node_finds_example =
    find_best_node_finds one_core refl workers refl refl ((λ _. scores.0), ((λ _. scores.1), tt))
      both_fit

place_task-find_best_node_example :
    placed_on four_cores (place_task four_cores workers)
    ≡ Option.map (λ n. n.id) (find_best_node four_cores workers)
place_task-find_best_node_example = place_task-find_best_node four_cores workers

-- A distributed task over two nodes.
abbrev pair : Task
pair = record one_core { is_distributed = true; world_size = pos 2 }

find_gang_nodes_lem_example :
    (length (find_gang_nodes pair workers)
      ≡ (if leb 2 (length (select (is_candidate pair) workers)) then 2 else 0))
    × All (λ m. is_candidate pair m ≡ true) (find_gang_nodes pair workers)
find_gang_nodes_lem_example = find_gang_nodes_lem pair workers 2 refl
