-- ===== src/Examples/Split.antt =====
-- The theorems on the splitter, at a file of five lines and a file of five bytes, and on the ids of
-- its chunks.
use project_constellation.Prelude.{
  ℕ, ◌≡◌, ◌<◌, ◌≤◌, ◌⊎◌, refl, pos, ℤ, false, sort_by, String, List, [], ◌∷◌, none, some, length,
  concat, arith,
}
use project_constellation.Prelude.Text.{split_on}
use project_constellation.State.Model.{Task, TaskChunk}
use project_constellation.State.Engine.{Store, ok}
use project_constellation.State.Chunks.{chunk_id, get_task, are_all_chunks_completed}
use project_constellation.Scheduler.Cycle.{split_into, split_failed}
use project_constellation.Splitter.{
  Disk, Parts, given, in_order, new_chunk, split_by_lines, split_by_size, pipeline_split,
}
use project_constellation.Splitter.Partition.{IsPartition}
use project_constellation.Splitter.Lines.{split_by_lines-IsPartition}
use project_constellation.Splitter.Sizes.{split_by_size-IsPartition}
use project_constellation.Splitter.Pipeline.{Chained, pipeline_split-Chained}
use project_constellation.Splitter.{aggregate_results, replicated_split}
use project_constellation.Splitter.Replicas.{IsWithin, replicated_split-IsWithin}
use project_constellation.Examples.Fixed.{hundredths}
use project_constellation.Splitter.Aggregates.{aggregate_results-are_all_chunks_completed}
use project_constellation.Api.Agents.{of_chunk, parent_of, report_kind}
use project_constellation.Api.Agents.Ids.{chunk_id-report}
use project_constellation.Examples.Data.{sound_engine, store_of, task_of, workers}

abbrev disk : Disk
disk = record {
  scan_lines = λ f. given ("a" ∷ "b" ∷ "c" ∷ "d" ∷ "e" ∷ [], none);
  stat_size = λ f. given 5;
  read_bytes = λ f. given (1 ∷ 2 ∷ 3 ∷ 4 ∷ 5 ∷ []);
  create_error = λ f. none;
  write_bytes = λ f bs. bs;
}

abbrev piped : Task
piped = record (task_of "task-2f" "queued" (pos 1)) {
  command = "sort | uniq";
  input_file = "words";
}

-- At most one node.
abbrev limited : Task
limited = record piped { max_nodes = pos 1 }

split_by_lines-IsPartition_example :
    (parts : Parts String) × (split_by_lines disk "/tasks" piped 2
      ≡ (split_into (in_order parts []), parts))
    × IsPartition (new_chunk disk "/tasks" piped) 2 ("a" ∷ "b" ∷ "c" ∷ "d" ∷ "e" ∷ []) parts
split_by_lines-IsPartition_example =
    split_by_lines-IsPartition disk "/tasks" piped 2 (omega arith) (λ f. refl) "a"
      ("b" ∷ "c" ∷ "d" ∷ "e" ∷ []) refl

split_by_size-IsPartition_example :
    (parts : Parts ℕ) × (split_by_size disk "/tasks" piped 2
      ≡ (split_into (in_order parts []), parts))
    × IsPartition (new_chunk disk "/tasks" piped) 2 (1 ∷ 2 ∷ 3 ∷ 4 ∷ 5 ∷ []) parts
split_by_size-IsPartition_example =
    split_by_size-IsPartition disk "/tasks" piped 2 (omega arith) (λ f. refl) (λ f bs. refl)
      (1 ∷ 2 ∷ 3 ∷ 4 ∷ 5 ∷ []) (omega arith) refl refl

pipeline_split-Chained_example :
    (length (split_on b'|' "sort | uniq") < 2)
      × (pipeline_split disk "/tasks" piped
          ≡ split_failed "pipeline split requires at least 2 stages (separate with |)")
    ⊎ (cs : List TaskChunk) × (pipeline_split disk "/tasks" piped ≡ split_into cs)
      × (length cs ≡ length (split_on b'|' "sort | uniq"))
      × Chained "words" cs
      × (2 ≤ length cs)
pipeline_split-Chained_example = pipeline_split-Chained disk "/tasks" piped

chunk_id-report_example :
    (report_kind (chunk_id "map" (concat "task-" "2f") 12) ≡ of_chunk)
    × (parent_of (split_on b'-' (chunk_id "map" (concat "task-" "2f") 12))
        ≡ some (concat "task-" "2f"))
chunk_id-report_example = chunk_id-report "map" "2f" 12 refl (refl, (refl, tt))

-- A split task with a completed chunk and one that runs.
abbrev parent : Task
parent = record (task_of "task-2f" "splitting" (pos 1)) { type = "split" }

abbrev halves : List TaskChunk
halves =
    record (new_chunk disk "/tasks" parent 0) { status = "completed" }
    ∷ record (new_chunk disk "/tasks" parent 1) { status = "running" }
    ∷ []

abbrev with_halves : Store ℤ
with_halves = record (store_of [] (parent ∷ [])) { task_chunks = halves }

aggregate_results-are_all_chunks_completed_example :
    (aggregate_results (record parent { chunks = halves })).complete ≡ false
unfolding get_task are_all_chunks_completed sort_by
aggregate_results-are_all_chunks_completed_example =
    aggregate_results-are_all_chunks_completed sound_engine sound_engine with_halves "task-2f"
      (record parent { chunks = halves }) false refl refl (omega arith) refl

replicated_split-IsWithin_example :
    (workers ≡ [])
      × (replicated_split disk "/tasks" sound_engine limited (ok workers)
          ≡ split_failed "no online worker nodes available for replication")
    ⊎ (cs : List TaskChunk) × (replicated_split disk "/tasks" sound_engine limited (ok workers)
        ≡ split_into cs)
      × (0 < length cs)
      × (length cs ≤ length workers)
      × IsWithin (pos 1) (length cs)
replicated_split-IsWithin_example =
    replicated_split-IsWithin disk "/tasks" limited sound_engine workers
