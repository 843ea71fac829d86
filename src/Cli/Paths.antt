-- ===== src/Cli/Paths.antt =====
-- The route of a task's cancellation, for the paths that the client writes.
use project_constellation.Prelude.{
  ◌≡◌, refl, ◌∙◌, ap, sym, subst, false, ◌==◌, String, List, [], ◌∷◌, Option, none, some, concat,
  Float,
}
use project_constellation.Prelude.Text.{split_on}
use package.text.Mathlib.TextLemmas.{nil-append, cons-append}
use project_constellation.Api.Cluster.{Uuids}
use project_constellation.System.Router.{Request, cancel}
use project_constellation.Cli.Bodies as Bodies
use project_constellation.Cli.Talking.{
  Route, take_route, request_of, routes, first_route, path_params,
}

-- A text behind another, letter by letter.
spelled : String → String → String
spelled String.[] t = t
spelled (String.◌∷◌ c s) t = String.◌∷◌ c (spelled s t)

concat-spelled : (s t : String) → concat s t ≡ spelled s t
unfolding spelled
concat-spelled String.[] t = nil-append t
concat-spelled (String.◌∷◌ c s) t = cons-append c s t ∙ ap (String.◌∷◌ c) (concat-spelled s t)

path_parts :
    (i : String)
    → split_on b'/' i ≡ i ∷ []
    → split_on b'/' (concat "/api/v1/tasks/" i) ≡ "" ∷ "api" ∷ "v1" ∷ "tasks" ∷ i ∷ []
unfolding split_on spelled
path_parts i whole =
    ap (split_on b'/') (concat-spelled "/api/v1/tasks/" i)
    ∙ ap (λ ps. "" ∷ "api" ∷ "v1" ∷ "tasks" ∷ ps) whole

cancel_params :
    (i : String)
    → (i == "") ≡ false
    → path_params ("" ∷ "api" ∷ "v1" ∷ "tasks" ∷ "{id}" ∷ []) ("" ∷ "api" ∷ "v1" ∷ "tasks" ∷ i ∷ [])
      ≡ some (i ∷ [])
unfolding path_params Bodies.◌>>=◌
cancel_params i full = rw full refl

take_route-some :
    {F : Type 0} (o : Option (List String)) (r : Route F) (params : List String)
    (rest : Option (Request F))
    → o ≡ some params
    → take_route o r none rest ≡ some (r.request params none)
unfolding take_route
take_route-some o r params rest e = rw e refl

cancel_route :
    {F : Type 0} ⦃fl : Float F⦄ (ids : Uuids) (uuid i : String)
    → (i == "") ≡ false
    → first_route {F = F} (routes ids uuid) "DELETE" ("" ∷ "api" ∷ "v1" ∷ "tasks" ∷ i ∷ []) none
      ≡ some (cancel i)
unfolding routes first_route split_on path_params take_route
cancel_route ids uuid i full = take_route-some _ _ (i ∷ []) _ (cancel_params i full)

-- The router finds the handler for an id that is not empty and holds no slash.
pub cancel_path :
    {F : Type 0} ⦃fl : Float F⦄ (ids : Uuids) (uuid i : String)
    → split_on b'/' i ≡ i ∷ []
    → (i == "") ≡ false
    → request_of {F = F} ids uuid "DELETE" (concat "/api/v1/tasks/" i) none ≡ some (cancel i)
unfolding request_of
cancel_path {F = F} ids uuid i whole full =
    subst (λ ps. first_route {F = F} (routes ids uuid) "DELETE" ps none ≡ some (cancel i))
      (sym (path_parts i whole)) (cancel_route ids uuid i full)
