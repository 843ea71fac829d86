-- ===== src/Splitter/Partition.antt =====
-- What a split of a file into parts of `n` units means.
use project_constellation.Prelude.{
  ℕ, suc, ◌+◌, ◌-◌, ◌*◌, ◌/◌, ◌≡◌, ◌≤◌, List, [], ◌∷◌, ◌++◌, length, All, arith,
}
use native.Mathlib.Nat.{div-eq_of_lt-le}
use project_constellation.State.Model.{TaskChunk}
use project_constellation.Splitter.{Parts}

-- What the parts hold, in the order of the file.
abbrev pub joined : {A : Type 0} → Parts A → List A
joined [] = []
joined (p ∷ ps) = joined ps ++ p.1

-- The chunks have consecutive numbers, from 0.
abbrev pub Numbered : {A : Type 0} → (ℕ → TaskChunk) → Parts A → Type 0
Numbered make [] = Unit {0}
Numbered make (p ∷ ps) = (p.0 ≡ make (length ps)) × Numbered make ps

-- The parts hold the file, there are no more of them than it takes, and none is too large.
pub record IsPartition {A : Type 0} (make : ℕ → TaskChunk) (n : ℕ) (whole : List A)
    (parts : Parts A) : Type 0 where
  pub holds : joined parts ≡ whole
  pub count : length parts ≡ (length whole + n - 1) / n
  pub bounded : All (λ p. length p.1 ≤ n) parts
  pub numbered : Numbered make parts

pub ceiling : (n k r : ℕ) → 1 ≤ r → r ≤ n → (k * n + r + n - 1) / n ≡ suc k
ceiling n k r h l = div-eq_of_lt-le n (omega arith) (omega arith)
