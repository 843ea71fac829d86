-- ===== src/State/Pool.antt =====
-- GetComputationPool of controller/state/store.go.
use project_constellation.Prelude.{ℕ, ◌+◌, ℤ, pos, ◌+ℤ◌, ◌==◌, List, [], ◌∷◌, if◌then◌else◌, Float}
use project_constellation.State.Model.{Node}
use project_constellation.State.Engine.{Engine, Store, Result, ok, ◌>>=◌}
use project_constellation.State.Nodes.{list_nodes}

pub record ComputationPool : Type 0 where
  pub total_cpu : ℤ
  pub available_cpu : ℤ
  pub total_memory : ℤ
  pub available_memory : ℤ
  pub total_disk : ℤ
  pub available_disk : ℤ
  pub total_nodes : ℕ
  pub online_nodes : ℕ

abbrev pub empty_pool : ComputationPool
empty_pool = record {
  total_cpu = pos 0;
  available_cpu = pos 0;
  total_memory = pos 0;
  available_memory = pos 0;
  total_disk = pos 0;
  available_disk = pos 0;
  total_nodes = 0;
  online_nodes = 0;
}

module _ {F : Type 0} ⦃fl : Float F⦄ where
  -- float64(n) * (1.0 - usage/100.0)
  abbrev pub free_share : ℤ → F → F
  free_share total usage =
      fl.mul (fl.of_int total) (fl.sub (fl.decimal 1 0) (fl.div usage (fl.decimal 100 0)))

  unfoldable pub count_node : ComputationPool → Node F → ComputationPool
  count_node p n =
      let q : ComputationPool = record p {
        total_nodes = p.total_nodes + 1;
        total_cpu = p.total_cpu +ℤ n.cpu_cores;
        total_memory = p.total_memory +ℤ n.memory_total;
        total_disk = p.total_disk +ℤ n.disk_total;
      } in
      if n.status == "online"
      then record q {
        online_nodes = q.online_nodes + 1;
        available_cpu =
            q.available_cpu +ℤ fl.to_int (fl.mul (fl.of_int n.cpu_cores) (fl.decimal 85 2));
        available_memory =
            q.available_memory +ℤ fl.to_int (free_share n.memory_total n.memory_usage);
        available_disk = q.available_disk +ℤ fl.to_int (free_share n.disk_total n.disk_usage);
      }
      else q

  unfoldable pub pool_of : ComputationPool → List (Node F) → ComputationPool
  pool_of p [] = p
  pool_of p (n ∷ ns) = pool_of (count_node p n) ns

  unfoldable pub get_computation_pool : Engine → Store F → Result ComputationPool
  get_computation_pool e s = do nodes ← list_nodes e s; ok (pool_of empty_pool nodes)
