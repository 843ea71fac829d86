-- ===== src/Api/Keeps.antt =====
-- Handlers write to the store through its calls only, so they keep what every call keeps.
use project_constellation.Prelude.{
  Bool, true, false, String, List, [], ◌∷◌, Option, none, some, ℕ, if◌then◌else◌,
}
use project_constellation.State.Engine.{Store, Result, ok, err, after, new_state}
use project_constellation.Scheduler.Events.{Value, World}
use project_constellation.Api.Handler.{
  Out, stop, go, Handler, ◌>>=◌, ◌>>◌, refuse, respond, panic, check, decoded, peek, query,
  or_refuse, write, write_answer, insert, insert_answer, attempt, emit, give, skip, collect,
}

abbrev pub world_of : {F R A : Type 0} → Out F R A → World F
world_of (stop r w) = w
world_of (go a w) = w

-- `P` holds of the store after the handler, if it holds before.
pub record Keeps {F R A : Type 0} (P : Store F → Type 0) (m : Handler F R A) : Type 0 where
  pub kept : (w : World F) → P w.store → P (world_of (m w)).store

-- A call of the store that keeps `P`, where it is refused too.
pub record CallKeeps {F : Type 0} (P : Store F → Type 0) (f : Store F → Result (Store F))
    : Type 0 where
  pub call_kept : (s : Store F) → P s → P (after s (f s))

pub record InsertKeeps {F A : Type 0} (P : Store F → Type 0) (f : Store F → Result (A × Store F))
    : Type 0 where
  pub insert_kept : (s : Store F) → P s → P (after s (new_state (f s)))

module _ {F R : Type 0} (P : Store F → Type 0) where
  pub Keeps-bind :
      {A B : Type 0} (m : Handler F R A) (f : A → Handler F R B)
      → Keeps P m
      → ((a : A) → Keeps P (f a))
      → Keeps P (m >>= f)
  unfolding ◌>>=◌
  Keeps-bind {A} {B} m f k h = record { kept = λ w p. through w (m w) (k.kept w p) }
    where
      through :
          (w : World F) (o : Out F R A)
          → P (world_of o).store
          → P (world_of (elim o as (λ _. Out F R B) [ stop r v ↦ stop r v | go a v ↦ f a v ])).store
      through w (stop r v) p = p
      through w (go a v) p = (h a).kept v p

  pub Keeps-seq :
      {B : Type 0} (m : Handler F R (Unit {0})) (k : Handler F R B)
      → Keeps P m
      → Keeps P k
      → Keeps P (m >> k)
  unfolding ◌>>◌
  Keeps-seq m k h g = Keeps-bind m (λ _. k) h (λ _. g)

  pub Keeps-refuse : {A : Type 0} (status : ℕ) → Keeps {R = R} P (refuse {A = A} status)
  unfolding refuse
  Keeps-refuse status = record { kept = λ w p. p }

  pub Keeps-respond : (status : ℕ) (r : R) → Keeps {R = R} P (respond status r)
  unfolding respond
  Keeps-respond status r = record { kept = λ w p. p }

  pub Keeps-panic : {A : Type 0} → Keeps {R = R} P (panic {A = A})
  unfolding panic
  Keeps-panic = record { kept = λ w p. p }

  pub Keeps-give : {A : Type 0} (a : A) → Keeps {R = R} P (give a)
  unfolding give
  Keeps-give a = record { kept = λ w p. p }

  pub Keeps-if :
      {A : Type 0} (b : Bool) (m n : Handler F R A)
      → Keeps P m
      → Keeps P n
      → Keeps P (if b then m else n)
  Keeps-if true m n h k = h
  Keeps-if false m n h k = k

  pub Keeps-skip : Keeps {R = R} P skip
  unfolding skip
  Keeps-skip = record { kept = λ w p. p }

  pub Keeps-check : (b : Bool) (status : ℕ) → Keeps {R = R} P (check b status)
  unfolding check
  Keeps-check true status = record { kept = λ w p. p }
  Keeps-check false status = record { kept = λ w p. p }

  pub Keeps-decoded : {A : Type 0} (o : Option A) → Keeps {R = R} P (decoded o)
  unfolding decoded
  Keeps-decoded none = record { kept = λ w p. p }
  Keeps-decoded (some a) = record { kept = λ w p. p }

  pub Keeps-peek : {A : Type 0} (f : Store F → A) → Keeps {R = R} P (peek f)
  unfolding peek
  Keeps-peek f = record { kept = λ w p. p }

  pub Keeps-query :
      {A : Type 0} (f : Store F → Result A) (status : ℕ) → Keeps {R = R} P (query f status)
  unfolding query
  Keeps-query {A} f status = record { kept = λ w p. through w (f w.store) p }
    where
      through :
          (w : World F) (r : Result A)
          → P w.store
          → P (world_of {R = R} (or_refuse r status w)).store
      through w (ok a) p = p
      through w (err x) p = p

  pub Keeps-emit :
      (type : String) (fields : List (String × Value F)) → Keeps {R = R} P (emit type fields)
  unfolding emit
  Keeps-emit type fields = record { kept = λ w p. p }

  pub Keeps-attempt : (f : Store F → Result (Store F)) → CallKeeps P f → Keeps {R = R} P (attempt f)
  unfolding attempt
  Keeps-attempt f h = record { kept = λ w p. h.call_kept w.store p }

  pub Keeps-write :
      (f : Store F → Result (Store F)) (status : ℕ)
      → CallKeeps P f
      → Keeps {R = R} P (write f status)
  unfolding write
  Keeps-write f status h = record { kept = λ w p. through w p (f w.store) (h.call_kept w.store p) }
    where
      through :
          (w : World F)
          → P w.store
          → (r : Result (Store F)) → P (after w.store r)
          → P (world_of {R = R} (write_answer w status r)).store
      through w p (ok s) q = q
      through w p (err x) q = p

  pub Keeps-insert :
      {A : Type 0} (f : Store F → Result (A × Store F)) (status : ℕ)
      → InsertKeeps P f
      → Keeps {R = R} P (insert f status)
  unfolding insert
  Keeps-insert {A} f status h = record {
    kept = λ w p. through w p (f w.store) (h.insert_kept w.store p);
  }
    where
      through :
          (w : World F)
          → P w.store
          → (r : Result (A × Store F)) → P (after w.store (new_state r))
          → P (world_of {R = R} (insert_answer w status r)).store
      through w p (ok (a, s)) q = q
      through w p (err x) q = p

  pub Keeps-collect :
      {A B : Type 0} (body : A → Handler F R (List B)) (xs : List A)
      → ((a : A) → Keeps P (body a))
      → Keeps {R = R} P (collect body xs)
  unfolding collect give
  Keeps-collect body [] h = record { kept = λ w p. p }
  Keeps-collect body (x ∷ xs) h = Keeps-bind (body x) _ (h x) (λ ys.
      Keeps-bind (collect body xs) _ (Keeps-collect body xs h) (λ zs. record { kept = λ w p. p }))
