-- ===== src/Api/Handler.antt =====
-- How a handler of controller/api runs: it reads and writes the store, broadcasts events, and ends
-- when it has responded, as respondError and respondJSON of router.go do it before a `return`.
-- A handler that indexes out of range panics; the router's middleware then ends the request.
use project_constellation.Prelude.{
  ℕ, Bool, true, false, String, List, [], ◌∷◌, ◌++◌, Option, none, some,
}
use project_constellation.State.Engine.{Store, Result, ok, err}
use project_constellation.Scheduler.Events.{Value, World, broadcast, update_store}

pub data Reply {ℓ} (R : Type ℓ) : Type ℓ where
  refused : ℕ → Reply R
  answered : ℕ → R → Reply R
  panicked : Reply R

-- A step goes on with a value, or has ended the request. Both leave a world.
pub data Out (F R A : Type 0) : Type 0 where
  stop : Reply R → World F → Out F R A
  go : A → World F → Out F R A

abbrev pub Handler : Type 0 → Type 0 → Type 0 → Type 0
Handler F R A = World F → Out F R A

abbrev pub bad_request : ℕ
bad_request = 400

abbrev pub unauthorized : ℕ
unauthorized = 401

abbrev pub not_found : ℕ
not_found = 404

abbrev pub conflict : ℕ
conflict = 409

abbrev pub internal_error : ℕ
internal_error = 500

abbrev pub status_ok : ℕ
status_ok = 200

abbrev pub created : ℕ
created = 201

infixl 5 ◌>>=◌ ◌>>◌
unfoldable pub ◌>>=◌ : {F R A B : Type 0} → Handler F R A → (A → Handler F R B) → Handler F R B
◌>>=◌ m f w = elim (m w) [ stop r v ↦ stop r v | go a v ↦ f a v ]

unfoldable pub ◌>>◌ : {F R B : Type 0} → Handler F R (Unit {0}) → Handler F R B → Handler F R B
m >> k = m >>= λ _. k

module _ {F R : Type 0} where
  -- respondError, and `return`.
  unfoldable pub refuse : {A : Type 0} → ℕ → Handler F R A
  refuse status w = stop (refused status) w

  -- respondJSON, at the end of a handler.
  unfoldable pub respond : ℕ → R → Handler F R R
  respond status r w = stop (answered status r) w

  unfoldable pub panic : {A : Type 0} → Handler F R A
  panic w = stop panicked w

  -- A test that a request must pass.
  unfoldable pub check : Bool → ℕ → Handler F R (Unit {0})
  check true status w = go tt w
  check false status w = stop (refused status) w

  -- decodeJSON: a body that cannot be read is none.
  unfoldable pub decoded : {A : Type 0} → Option A → Handler F R A
  decoded none w = stop (refused bad_request) w
  decoded (some a) w = go a w

  -- A read whose error the handler looks at.
  unfoldable pub peek : {A : Type 0} → (Store F → A) → Handler F R A
  peek f w = go (f w.store) w

  unfoldable pub or_refuse : {A : Type 0} → Result A → ℕ → Handler F R A
  or_refuse (ok a) status w = go a w
  or_refuse (err x) status w = stop (refused status) w

  -- A read, and a write, that end the request when they fail.
  unfoldable pub query : {A : Type 0} → (Store F → Result A) → ℕ → Handler F R A
  unfolding or_refuse
  query f status w = or_refuse (f w.store) status w

  unfoldable pub write_answer : World F → ℕ → Result (Store F) → Out F R (Unit {0})
  write_answer w status (ok s) = go tt (record w { store = s })
  write_answer w status (err x) = stop (refused status) w

  unfoldable pub write : (Store F → Result (Store F)) → ℕ → Handler F R (Unit {0})
  unfolding write_answer
  write f status w = write_answer w status (f w.store)

  unfoldable pub insert_answer : {A : Type 0} → World F → ℕ → Result (A × Store F) → Out F R A
  insert_answer w status (ok (a, s)) = go a (record w { store = s })
  insert_answer w status (err x) = stop (refused status) w

  unfoldable pub insert : {A : Type 0} → (Store F → Result (A × Store F)) → ℕ → Handler F R A
  unfolding insert_answer
  insert f status w = insert_answer w status (f w.store)

  -- A write whose error is dropped.
  unfoldable pub attempt : (Store F → Result (Store F)) → Handler F R (Unit {0})
  attempt f w = go tt (update_store f w)

  unfoldable pub emit : String → List (String × Value F) → Handler F R (Unit {0})
  emit type fields w = go tt (broadcast type fields w)

  unfoldable pub give : {A : Type 0} → A → Handler F R A
  give a w = go a w

  unfoldable pub skip : Handler F R (Unit {0})
  skip w = go tt w

  -- `for … range` over a list, collecting what the rounds append.
  unfoldable pub collect :
      {A B : Type 0} → (A → Handler F R (List B)) → List A → Handler F R (List B)
  collect body [] w = go [] w
  collect body (x ∷ xs) w = (body x >>= λ ys. collect body xs >>= λ zs. give (ys ++ zs)) w

  unfoldable pub reply : Out F R R → Reply R × World F
  reply (stop r w) = (r, w)
  reply (go a w) = (answered status_ok a, w)
