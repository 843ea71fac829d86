-- ===== src/Splitter/Pipeline.antt =====
-- pipelineSplit makes one chunk for each stage.
use project_constellation.Prelude.{
  ℕ, suc, ◌≡◌, ◌<◌, ◌≤◌, refl, ap, Bool-cases, ◌⊎◌, inl, inr, ltb, ltb→lt, String, List, [], ◌∷◌,
  length, arith,
}
use project_constellation.Prelude.Text.{split_on}
use project_constellation.State.Model.{Task, TaskChunk}
use project_constellation.Scheduler.Cycle.{split_into, split_failed}
use project_constellation.Splitter.{Disk, stage_input, stages, pipeline_split}

-- Each stage reads the file that the one before it writes; `input` is that of the first.
abbrev pub Chained : String → List TaskChunk → Type 0
Chained input [] = Unit {0}
Chained input (c ∷ cs) = (c.input_file ≡ input) × Chained c.output_file cs

module _ (disk : Disk) (dir : String) (task : Task) where
  length-stages :
      (i : ℕ) (commands : List String) → length (stages disk dir task i commands) ≡ length commands
  length-stages i [] = refl
  length-stages i (c ∷ cs) = ap suc (length-stages (suc i) cs)

  stages-Chained :
      (i : ℕ) (commands : List String)
      → Chained (stage_input disk dir task i) (stages disk dir task i commands)
  stages-Chained i [] = tt
  stages-Chained i (c ∷ cs) = (refl, stages-Chained (suc i) cs)

  -- A pipeline task is split exactly when its command has two stages or more between the bars: then
  -- it gets a chunk for each, the first of which reads the input file of the task and each other
  -- the output file of the one before.
  pub pipeline_split-Chained :
      (length (split_on b'|' task.command) < 2)
        × (pipeline_split disk dir task
            ≡ split_failed "pipeline split requires at least 2 stages (separate with |)")
      ⊎ (cs : List TaskChunk) × (pipeline_split disk dir task ≡ split_into cs)
        × (length cs ≡ length (split_on b'|' task.command))
        × Chained task.input_file cs
        × (2 ≤ length cs)
  unfolding pipeline_split
  pipeline_split-Chained =
      let commands = split_on b'|' task.command in
      elim (Bool-cases (ltb (length commands) 2)) [
        | inl b ↦ inl (ltb→lt _ _ b, rw b refl)
        | inr b ↦
            let count = length-stages 0 commands in
            inr (
              stages disk dir task 0 commands,
              rw b refl,
              count,
              stages-Chained 0 commands,
              ground arith,
            )
      ]
