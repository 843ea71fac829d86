-- ===== src/Splitter/Replicas.antt =====
-- replicatedSplit makes one chunk for each node, up to the task's limit.
use project_constellation.Prelude.{
  ℕ, zero, suc, ℤ, pos, negsuc, ◌≡◌, ◌≤◌, ◌<◌, ◌⊎◌, inl, inr, refl, ap, sym, subst, String, List,
  [], ◌∷◌, length, arith, Float,
}
use project_constellation.State.Model.{Node, Task, TaskChunk}
use project_constellation.State.Engine.{Engine, ok}
use project_constellation.Scheduler.Cycle.{split_into, split_failed}
use project_constellation.Splitter.{Disk, num_replicas, replicas, replicate, replicated_split}

-- The limit of a task on its nodes, if it has one.
abbrev pub IsWithin : ℤ → ℕ → Type 0
IsWithin (pos zero) n = Unit {0}
IsWithin (pos (suc m)) n = n ≤ suc m
IsWithin (negsuc m) n = Unit {0}

num_replicas_lem :
    (limit : ℤ) (n : ℕ)
    → (num_replicas limit n ≤ n)
      × IsWithin limit (num_replicas limit n)
      × (0 < n → 0 < num_replicas limit n)
num_replicas_lem (pos zero) n = (omega arith, tt, λ h. h)
num_replicas_lem (pos (suc m)) n = (ground arith, ground arith, λ h. ground arith)
num_replicas_lem (negsuc m) n = (omega arith, tt, λ h. h)

module _ (disk : Disk) (dir : String) (task : Task) where
  length-replicas : (more i : ℕ) → length (replicas disk dir task more i) ≡ more
  length-replicas zero i = refl
  length-replicas (suc more) i = ap suc (length-replicas more (suc i))

  replicate_lem :
      (k : ℕ)
      → 0 < k
      → (cs : List TaskChunk) × (replicate disk dir task k ≡ split_into cs) × (length cs ≡ k)
  replicate_lem zero h = absurd (omega arith)
  replicate_lem (suc k) h = (replicas disk dir task (suc k) 0, refl, length-replicas (suc k) 0)

  module _ {F : Type 0} ⦃fl : Float F⦄ (e : Engine) where
    -- Without a node a replicated task fails to be split. With nodes it gets a chunk or more, at most
    -- one for each node, and at most as many as the limit on its nodes, if that is positive.
    pub replicated_split-IsWithin :
        (nodes : List (Node F))
        → (nodes ≡ [])
            × (replicated_split disk dir e task (ok nodes)
                ≡ split_failed "no online worker nodes available for replication")
          ⊎ (cs : List TaskChunk) × (replicated_split disk dir e task (ok nodes) ≡ split_into cs)
            × (0 < length cs)
            × (length cs ≤ length nodes)
            × IsWithin task.max_nodes (length cs)
    unfolding replicated_split
    replicated_split-IsWithin [] =
        let most = (num_replicas_lem task.max_nodes 0).0 in
        let nothing : num_replicas task.max_nodes 0 ≡ 0 = omega arith in
        inl (refl, ap (replicate disk dir task) nothing)
    replicated_split-IsWithin (n ∷ ns) =
        let bounds = num_replicas_lem task.max_nodes (length (n ∷ ns)) in
        let made =
          replicate_lem (num_replicas task.max_nodes (length (n ∷ ns))) (bounds.2 (omega arith)) in
        let count = made.2 in
        let most = bounds.0 in
        let some_node = bounds.2 (omega arith) in
        inr (
          made.0,
          made.1,
          omega arith,
          omega arith,
          subst (IsWithin task.max_nodes) (sym count) bounds.1,
        )
