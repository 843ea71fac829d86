-- ===== src/Splitter.antt =====
-- controller/splitter/splitter.go: SplitTask, its four strategies, and AggregateResults.
-- The file system is a parameter. What the splitter writes is returned beside its answer.
pub mod Partition
pub mod Lines
pub mod Sizes
pub mod Pipeline
pub mod Aggregates
pub mod Replicas
use project_constellation.Prelude.{
  ℕ, zero, suc, ◌+◌, ◌-◌, ◌/◌, ◌%◌, ◌^◌, ℤ, pos, negsuc, Bool, true, false, not, ◌&&◌, ◌||◌, ◌==◌,
  String, List, [], ◌∷◌, ◌++◌, Option, none, some, concat, eqb, ltb, ltb_ℤ, length, take, drop, any,
  one_of, if◌then◌else◌, Float,
}
use project_constellation.Prelude.Text.{show_ℕ, show_padded, split_on, join_path}
use project_constellation.State.Model.{Task, TaskChunk, Node}
use project_constellation.State.Engine.{Engine, Store, Result, ok, err}
use project_constellation.State.Chunks.{chunk_id}
use project_constellation.State.Nodes.{get_online_worker_nodes}
use project_constellation.Scheduler.Cycle.{Split, split_into, split_failed}

-- What a call of the operating system answers: a value, or the text of its error.
pub data Answer {ℓ} (A : Type ℓ) : Type ℓ where
  given : A → Answer A
  failed : String → Answer A

-- The files as a split finds them: the lines of a file and the error that ends their scanning, if
-- there is one; the size of a file, and the bytes that reads give of it up to the first error, the
-- file's end or another; the error of creating a file; and what a Write leaves of bytes in a new file.
pub record Disk : Type 0 where
  pub scan_lines : String → Answer (List String × Option String)
  pub stat_size : String → Answer ℕ
  pub read_bytes : String → Answer (List ℕ)
  pub create_error : String → Option String
  pub write_bytes : String → List ℕ → List ℕ

-- Each chunk with what is written to its input file, the newest first.
abbrev pub Parts : Type 0 → Type 0
Parts A = List (TaskChunk × List A)

abbrev pub in_order : {A : Type 0} → Parts A → List TaskChunk → List TaskChunk
in_order [] cs = cs
in_order (p ∷ ps) cs = in_order ps (p.0 ∷ cs)

abbrev pub Written : Type 0 → Type 0
Written A = Split × Parts A

-- A chunk that a strategy queues.
abbrev pub queued_chunk : String → Task → ℕ → String → String → TaskChunk
queued_chunk prefix task i input output = record {
  id = chunk_id prefix task.id i;
  parent_task_id = task.id;
  chunk_index = i;
  assigned_node = "";
  status = "queued";
  input_file = input;
  output_file = output;
  exit_code = pos 0;
  started_at = 0;
  completed_at = 0;
}

-- The lines or bytes of a chunk: 10000 unless the task says more than 0.
unfoldable pub chunk_size_of : ℤ → ℕ
chunk_size_of (pos zero) = 10000
chunk_size_of (pos (suc n)) = suc n
chunk_size_of (negsuc n) = 10000

-- The number of replicas: one for each node, and at most max_nodes, if that is positive.
abbrev pub num_replicas : ℤ → ℕ → ℕ
num_replicas (pos zero) n = n
num_replicas (pos (suc m)) n = if ltb (suc m) n then suc m else n
num_replicas (negsuc m) n = n

-- WriteString, on the newest file.
abbrev pub append_line : String → Parts String → Parts String
append_line line [] = []
append_line line ((c, ls) ∷ ps) = (c, ls ++ line ∷ []) ∷ ps

module _ (disk : Disk) (dir : String) (task : Task) where
  abbrev pub chunk_file : ℕ → String
  chunk_file i =
      join_path (dir ∷ task.id ∷ "input" ∷ concat "chunk_" (concat (show_padded i) ".dat") ∷ [])

  abbrev pub result_file : ℕ → String
  result_file i =
      join_path (dir ∷ task.id ∷ "output" ∷ concat "result_" (concat (show_padded i) ".dat") ∷ [])

  abbrev pub new_chunk : ℕ → TaskChunk
  new_chunk i = queued_chunk "chunk" task i (chunk_file i) (result_file i)

  unfoldable pub give_up : {A : Type 0} → Parts A → String → Written A
  give_up parts message = (split_failed (concat "failed to create chunk file: " message), parts)

  -- The state of the second scan of splitByLines.
  pub record Progress : Type 0 where
    pub line_num : ℕ
    pub chunk_idx : ℕ
    pub parts : Parts String

  unfoldable pub start_chunk : Progress → Progress
  start_chunk p = record p {
    chunk_idx = p.chunk_idx + 1;
    parts = (new_chunk p.chunk_idx, []) ∷ p.parts;
  }

  unfoldable pub write_line : String → Progress → Progress
  write_line line p = record p { line_num = p.line_num + 1; parts = append_line line p.parts }

  -- Whether a line starts a new chunk, and whether its file can be created.
  unfoldable pub next_file : ℕ → Progress → Answer Progress
  unfolding start_chunk
  next_file lines_per_chunk p =
      if eqb (p.line_num % lines_per_chunk) 0
      then (elim (disk.create_error (chunk_file p.chunk_idx)) [
        | none ↦ given (start_chunk p)
        | some message ↦ failed message
      ])
      else given p

  unfoldable pub scan_loop : ℕ → List String → Progress → Written String
  unfolding next_file write_line give_up
  scan_loop n [] p = (split_into (in_order p.parts []), p.parts)
  scan_loop n (line ∷ lines) p = elim (next_file n p) [
    | given q ↦ scan_loop n lines (write_line line q)
    | failed message ↦ give_up p.parts message
  ]

  unfoldable pub split_scanned : ℕ → List String × Option String → Written String
  unfolding scan_loop
  split_scanned n (lines, some message) =
      (split_failed (concat "failed to count lines: " message), [])
  split_scanned n ([], none) = (split_failed "input file is empty", [])
  split_scanned n (line ∷ lines, none) =
      scan_loop n (line ∷ lines) (record { line_num = 0; chunk_idx = 0; parts = [] })

  -- splitByLines.
  unfoldable pub split_by_lines : ℕ → Written String
  unfolding split_scanned
  split_by_lines n = elim (disk.scan_lines task.input_file) [
    | given found ↦ split_scanned n found
    | failed message ↦ (split_failed (concat "failed to open input file: " message), [])
  ]

  -- The number of chunks, in int64: a sum of 2^63 or more is negative there, so that no chunk is made.
  unfoldable pub num_chunks : ℕ → ℕ → ℕ
  num_chunks size n = let sum = (size + n - 1) % 2 ^ 64 in if ltb sum (2 ^ 63) then sum / n else 0

  -- The loop of splitBySize over the numbers of the chunks. A Read fills the buffer while there are
  -- bytes, so that each chunk takes the next ones. The errors of Read and Write are ignored.
  unfoldable pub size_loop : ℕ → ℕ → ℕ → List ℕ → Parts ℕ → Written ℕ
  unfolding give_up
  size_loop n zero i bytes parts = (split_into (in_order parts []), parts)
  size_loop n (suc more) i bytes parts = elim (disk.create_error (chunk_file i)) [
    | none ↦
        size_loop n more (suc i) (drop n bytes)
          ((new_chunk i, disk.write_bytes (chunk_file i) (take n bytes)) ∷ parts)
    | some message ↦ give_up parts message
  ]

  unfoldable pub split_sized : ℕ → ℕ → Written ℕ
  unfolding size_loop num_chunks
  split_sized n size = elim (disk.read_bytes task.input_file) [
    | given bytes ↦ size_loop n (num_chunks size n) 0 bytes []
    | failed message ↦ (split_failed (concat "failed to open input file: " message), [])
  ]

  -- splitBySize.
  unfoldable pub split_by_size : ℕ → Written ℕ
  unfolding split_sized
  split_by_size n = elim (disk.stat_size task.input_file) [
    | given size ↦ split_sized n size
    | failed message ↦ (split_failed (concat "failed to stat input file: " message), [])
  ]

  -- chunkSplit.
  unfoldable pub chunk_split : Split
  unfolding split_by_lines split_by_size chunk_size_of
  chunk_split =
      if task.input_file == ""
      then split_failed "input_file is required for chunk split"
      else if task.split_by == "size"
      then (split_by_size (chunk_size_of task.chunk_size)).0
      else (split_by_lines (chunk_size_of task.chunk_size)).0

  abbrev renumbered : ℕ → List TaskChunk → List TaskChunk
  renumbered i [] = []
  renumbered i (c ∷ cs) = record c { id = chunk_id "map" task.id i } ∷ renumbered (suc i) cs

  -- mapReduceSplit.
  unfoldable pub map_reduce_split : Split → Split
  map_reduce_split (split_failed message) = split_failed message
  map_reduce_split (split_into chunks) = split_into (renumbered 0 chunks)

  abbrev pub stage_file : ℕ → String
  stage_file i =
      join_path (dir ∷ task.id ∷ "pipeline" ∷ concat "stage_" (concat (show_ℕ i) "_out.dat") ∷ [])

  -- The file that a stage of a pipeline reads.
  abbrev pub stage_input : ℕ → String
  stage_input zero = task.input_file
  stage_input (suc i) = stage_file i

  abbrev stages : ℕ → List String → List TaskChunk
  stages i [] = []
  stages i (command ∷ commands) =
      queued_chunk "pipe" task i (stage_input i) (stage_file i) ∷ stages (suc i) commands

  -- pipelineSplit.
  unfoldable pub pipeline_split : Split
  pipeline_split =
      let commands = split_on b'|' task.command in
      if ltb (length commands) 2
      then split_failed "pipeline split requires at least 2 stages (separate with |)"
      else split_into (stages 0 commands)

  abbrev pub replica : ℕ → TaskChunk
  replica i =
      queued_chunk "replica" task i task.input_file
        (join_path (dir ∷ task.id ∷ "output" ∷ concat "replica_" (concat (show_ℕ i) ".dat") ∷ []))

  abbrev replicas : ℕ → ℕ → List TaskChunk
  replicas zero i = []
  replicas (suc more) i = replica i ∷ replicas more (suc i)

  abbrev pub replicate : ℕ → Split
  replicate zero = split_failed "no online worker nodes available for replication"
  replicate (suc n) = split_into (replicas (suc n) 0)

module _ {F : Type 0} ⦃fl : Float F⦄ (disk : Disk) (dir : String) (e : Engine) where
  -- replicatedSplit. The text of a database error is not modelled.
  unfoldable pub replicated_split : Task → Result (List (Node F)) → Split
  replicated_split task (err x) = split_failed "failed to get online nodes"
  replicated_split task (ok nodes) =
      replicate disk dir task (num_replicas task.max_nodes (length nodes))

  -- SplitTask.
  unfoldable pub split_task : Store F → Task → Split
  unfolding chunk_split map_reduce_split pipeline_split replicated_split
  split_task s task =
      if task.split_strategy == "chunk"
      then chunk_split disk dir task
      else if task.split_strategy == "map-reduce"
      then map_reduce_split disk dir task (chunk_split disk dir task)
      else if task.split_strategy == "pipeline"
      then pipeline_split disk dir task
      else if task.split_strategy == "replicated"
      then replicated_split task (get_online_worker_nodes e s)
      else split_failed (concat "unknown split strategy: " task.split_strategy)

-- AggregateResults: whether the task is done, and whether that comes with an error.
pub record Aggregate : Type 0 where
  pub complete : Bool
  pub in_error : Bool

unfoldable pub aggregate_results : Task → Aggregate
aggregate_results task =
    let unfinished =
      any (λ c. not (c.status == "completed") && not (c.status == "failed")) task.chunks in
    if not (task.type == "split")
    then record { complete = true; in_error = false }
    else if unfinished
    then record { complete = false; in_error = false }
    else record { complete = true; in_error = any (λ c. c.status == "failed") task.chunks }
