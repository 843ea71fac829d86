-- ===== src/Scheduler/Scoring.antt =====
-- controller/scheduler/scoring.go.
use project_constellation.Prelude.{pos, eqb_ℤ, if◌then◌else◌, Float}
use project_constellation.State.Model.{Node, Task}
use project_constellation.State.Pool.{free_share}

module _ {F : Type 0} ⦃fl : Float F⦄ where
  abbrev pub weight_cpu : F
  weight_cpu = fl.decimal 35 2

  abbrev pub weight_memory : F
  weight_memory = fl.decimal 30 2

  abbrev pub weight_load : F
  weight_load = fl.decimal 25 2

  abbrev pub weight_affinity : F
  weight_affinity = fl.decimal 10 2

  pub score_cpu : Task → Node F → F
  score_cpu task node =
      if eqb_ℤ node.cpu_cores (pos 0)
      then fl.decimal 0 0
      else let remaining =
          fl.sub (free_share node.cpu_cores node.cpu_usage) (fl.of_int task.cpu_required) in
        if fl.lt remaining (fl.decimal 0 0)
        then fl.decimal 0 0
        else fl.div remaining (fl.of_int node.cpu_cores)

  pub score_memory : Task → Node F → F
  score_memory task node =
      if eqb_ℤ node.memory_total (pos 0)
      then fl.decimal 5 1
      else if eqb_ℤ task.memory_required (pos 0)
      then fl.sub (fl.decimal 1 0) (fl.div node.memory_usage (fl.decimal 100 0))
      else let remaining =
          fl.sub (free_share node.memory_total node.memory_usage)
            (fl.of_int task.memory_required) in
        if fl.lt remaining (fl.decimal 0 0)
        then fl.decimal 0 0
        else fl.div remaining (fl.of_int node.memory_total)

  pub score_load : Node F → F
  score_load node =
      if eqb_ℤ node.cpu_cores (pos 0)
      then fl.decimal 5 1
      else fl.sub (fl.decimal 1 0)
          (fl.min (fl.div node.load_avg_1 (fl.of_int node.cpu_cores)) (fl.decimal 1 0))

  pub score_affinity : Task → Node F → F
  score_affinity task node = fl.decimal 5 1

  unfoldable pub clamp : F → F → F → F
  clamp v lo hi = if fl.lt v lo then lo else if fl.lt hi v then hi else v

  -- The score before it is clamped.
  unfoldable pub raw_score : Task → Node F → F
  unfolding score_cpu score_memory score_load score_affinity
  raw_score task node =
      let total =
        fl.add
          (fl.add
            (fl.add (fl.mul weight_cpu (score_cpu task node))
              (fl.mul weight_memory (score_memory task node)))
            (fl.mul weight_load (score_load node)))
          (fl.mul weight_affinity (score_affinity task node)) in
      let penalty =
        fl.sub (fl.decimal 1 0)
          (fl.min (fl.mul (fl.of_int node.running_tasks) (fl.decimal 1 1)) (fl.decimal 5 1)) in
      fl.mul total penalty

  unfoldable pub score_node : Task → Node F → F
  unfolding raw_score clamp
  score_node task node = clamp (raw_score task node) (fl.decimal 0 0) (fl.decimal 1 0)
