-- ===== src/State/Engine/Rules.antt =====
-- What holds after a statement, from what holds where it is refused and where it is made.
use project_constellation.Prelude.{◌≡◌, refl, Bool, true, false, Bool-cases, inl, inr}
use project_constellation.State.Engine.{
  Engine, Statement, Store, Result, ok, after, exec, require, new_state,
}

-- What a statement that was made gave.
pub exec-made {ℓ} :
    {A : Type ℓ} (e : Engine) (st : Statement) (r : Result A) (y : A)
    → exec e st r ≡ ok y
    → r ≡ ok y
exec-made e st r y h = elim (Bool-cases (e.fault st)) [
  | inl b ↦ absurd (cc (b, h))
  | inr b ↦ rw b at h
]

-- A constraint that a call passed holds.
pub require-made {ℓ} :
    {A : Type ℓ} (b : Bool) (r : Result A) (y : A) → require b r ≡ ok y → (b ≡ true) × (r ≡ ok y)
require-made true r y h = (refl, h)
require-made false r y h = absurd (cc h)

pub ok_inj {ℓ} : {A : Type ℓ} (x y : A) → ok x ≡ ok y → x ≡ y
ok_inj x y h = cc

pub exec-ok {ℓ} :
    {A : Type ℓ} (e : Engine) (st : Statement) (x y : A) → exec e st (ok x) ≡ ok y → x ≡ y
exec-ok e st x y h = ok_inj x y (exec-made e st (ok x) y h)

module _ {F : Type 0} (P : Store F → Type 0) (s : Store F) (h : P s) where
  pub after-exec :
      (e : Engine) (st : Statement) (r : Result (Store F))
      → P (after s r)
      → P (after s (exec e st r))
  after-exec e st r k = elim (Bool-cases (e.fault st)) [ inl b ↦ rw b h | inr b ↦ rw b k ]

  pub after-require :
      (b : Bool) (r : Result (Store F)) → (b ≡ true → P (after s r)) → P (after s (require b r))
  after-require true r k = k refl
  after-require false r k = h

  module _ {A : Type 0} where
    pub after-exec_new :
        (e : Engine) (st : Statement) (r : Result (A × Store F))
        → P (after s (new_state r))
        → P (after s (new_state (exec e st r)))
    after-exec_new e st r k = elim (Bool-cases (e.fault st)) [ inl b ↦ rw b h | inr b ↦ rw b k ]

    pub after-require_new :
        (b : Bool) (r : Result (A × Store F))
        → (b ≡ true → P (after s (new_state r)))
        → P (after s (new_state (require b r)))
    after-require_new true r k = k refl
    after-require_new false r k = h
