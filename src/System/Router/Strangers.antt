-- ===== src/System/Router/Strangers.antt =====
-- What a client can do that has no token.
use project_constellation.Prelude.{
  ℕ, ◌≡◌, refl, sym, Bool-cases, subst, true, ◌==◌, ◌⊎◌, inl, inr, List, [], ◌∷◌, none, All,
  for_each, Float,
}
use project_constellation.State.Engine.{Engine, Store}
use project_constellation.Scheduler.Events.{World}
use project_constellation.Api.Handler.{
  Out, stop, go, answered, panicked, refused, unauthorized, refuse, respond,
}
use project_constellation.Api.Keeps.{world_of}
use project_constellation.Api.Auth.{Claims, require_auth, token_of}
use project_constellation.Api.Users.{handle_login}
use project_constellation.Api.Nodes.{handle_node_join, grpc_heartbeat}
use project_constellation.Api.Cluster.{handle_cluster_init}
use project_constellation.System.{Setting}
use project_constellation.System.Router.{
  Request, Visit, is_public, route, sealed, serve, visits, health_check, init, join, login,
  cluster_status, cluster_pool, destroy, list_nodes, get_node, delete_node, reserve, unreserve,
  pull, node_status, submit, list_tasks, get_task, cancel, retry, logs, result, list_users,
  new_user, delete_user, audit, analytics, beat,
}
use project_constellation.System.Router.Guests.{
  Untouched, Follows-refl, grpc_heartbeat-Keeps, handle_cluster_init-Keeps, handle_node_join-Keeps,
  handle_login-Keeps,
}

-- The library gives no claims for what the request carries, or it carries nothing.
abbrev pub IsStranger : {F : Type 0} → Setting F → Visit F → Type 0
IsStranger x v =
    ((token_of v.credentials == "") ≡ true) ⊎ (x.jwt.parse v.now (token_of v.credentials) ≡ none)

module _ {F : Type 0} ⦃fl : Float F⦄ (x : Setting F) where
  require_auth-refused :
      {R A : Type 0} (v : Visit F) (next : Claims → _)
      → IsStranger x v
      → require_auth {F = F} {R = R} {A = A} x.jwt v.now v.credentials next ≡ refuse unauthorized
  unfolding require_auth
  require_auth-refused v next (inl e) = rw e refl
  require_auth-refused v next (inr e) = elim (Bool-cases (token_of v.credentials == "")) [
    | inl b ↦ rw b refl
    | inr b ↦ rw (b, e) refl
  ]

  sealed-world : {R : Type 0} (o : Out F R R) → (world_of (sealed o)).store ≡ (world_of o).store
  unfolding sealed
  sealed-world (stop (answered status r) w) = refl
  sealed-world (stop (refused status) w) = refl
  sealed-world (stop panicked w) = refl
  sealed-world (go r w) = refl

  public-Untouched :
      {R : Type 0} (base : Store F) (o : Out F R R)
      → Untouched base (world_of o).store
      → Untouched base (world_of (sealed o)).store
  public-Untouched base o p = subst (Untouched base) (sym (sealed-world o)) p

  route-Untouched :
      (base : Store F) (e : Engine) (now : ℕ) (q : Request F) (w : World F)
      → is_public q ≡ true
      → Untouched base w.store
      → Untouched base (world_of (route x e now q w)).store
  unfolding is_public route
  route-Untouched base e now health_check w p h = unfold sealed in unfold respond in h
  route-Untouched base e now (init ids body) w p h =
      public-Untouched base (handle_cluster_init e now x.machine ids x.sha256 body w)
        ((handle_cluster_init-Keeps base e now x.machine ids x.sha256 body).kept w h)
  route-Untouched base e now (join uuid body) w p h =
      public-Untouched base (handle_node_join e now x.jwt uuid body w)
        ((handle_node_join-Keeps base e now x.jwt uuid body).kept w h)
  route-Untouched base e now (login body) w p h =
      public-Untouched base (handle_login e now x.sha256 x.jwt body w)
        ((handle_login-Keeps base e now x.sha256 x.jwt body).kept w h)
  route-Untouched base e now (beat i) w p h =
      public-Untouched base (grpc_heartbeat e now i w)
        ((grpc_heartbeat-Keeps base e now i).kept w h)
  route-Untouched base e now cluster_status w p h = absurd (cc p)
  route-Untouched base e now cluster_pool w p h = absurd (cc p)
  route-Untouched base e now destroy w p h = absurd (cc p)
  route-Untouched base e now list_nodes w p h = absurd (cc p)
  route-Untouched base e now (get_node i) w p h = absurd (cc p)
  route-Untouched base e now (delete_node i) w p h = absurd (cc p)
  route-Untouched base e now (node_status i body) w p h = absurd (cc p)
  route-Untouched base e now (reserve i) w p h = absurd (cc p)
  route-Untouched base e now (unreserve i) w p h = absurd (cc p)
  route-Untouched base e now (pull i) w p h = absurd (cc p)
  route-Untouched base e now (submit uuid body) w p h = absurd (cc p)
  route-Untouched base e now (list_tasks a b l o) w p h = absurd (cc p)
  route-Untouched base e now (get_task i) w p h = absurd (cc p)
  route-Untouched base e now (cancel i) w p h = absurd (cc p)
  route-Untouched base e now (retry i) w p h = absurd (cc p)
  route-Untouched base e now (result i body) w p h = absurd (cc p)
  route-Untouched base e now (logs i) w p h = absurd (cc p)
  route-Untouched base e now list_users w p h = absurd (cc p)
  route-Untouched base e now (new_user uuid body) w p h = absurd (cc p)
  route-Untouched base e now (delete_user i) w p h = absurd (cc p)
  route-Untouched base e now (audit l) w p h = absurd (cc p)
  route-Untouched base e now analytics w p h = absurd (cc p)

  serve-Untouched :
      (base : Store F) (v : Visit F) (w : World F)
      → Untouched base w.store
      → IsStranger x v
      → Untouched base (world_of (serve x v.engine v.now v.credentials v.request w)).store
  unfolding serve
  serve-Untouched base v w h s = elim (Bool-cases (is_public v.request)) [
    | inl p ↦ rw p (route-Untouched base v.engine v.now v.request w p h)
    | inr p ↦
        rw (p, require_auth-refused v (λ c. route x v.engine v.now v.request) s)
          (unfold refuse in h)
  ]

  -- Whatever requests to the API and calls of Heartbeat over gRPC come, one after the other, from clients
  -- whose tokens the JWT library refuses, or that have none, the tasks and the chunks stay as they are,
  -- and every node stays as it is or as a heartbeat leaves it, online with the time of the heartbeat,
  -- while nodes may be added.
  pub visits-Untouched :
      (vs : List (Visit F)) (w : World F)
      → All (IsStranger x) vs
      → Untouched w.store (visits x vs w).store
  unfolding visits for_each
  visits-Untouched vs w strangers =
      through vs w strangers
        (record { tasks_kept = refl; chunks_kept = refl; nodes_kept = Follows-refl w.store.nodes })
    where
      through :
          (us : List (Visit F)) (u : World F)
          → All (IsStranger x) us
          → Untouched w.store u.store
          → Untouched w.store
              (for_each
                (λ v t. world_of (serve x v.engine v.now v.credentials v.request t))
                us
                u).store
      through [] u a h = h
      through (v ∷ us) u a h = through us _ a.1 (serve-Untouched w.store v u h a.0)
