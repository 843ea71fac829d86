-- ===== src/Scheduler/Queue/Order.antt =====
-- The order of the ranks in the priority queue, and heaps by it: a heap is seen as the ranks at its
-- places.
use project_constellation.Prelude.{
  ℕ, zero, suc, ◌<◌, ◌≡◌, ◌≢◌, refl, true, false, Option, none, some, arith,
}
use project_constellation.Scheduler.Queue.{Rank, before, parent}

-- `r` may stand before `s`.
abbrev pub NotAfter : Option Rank → Option Rank → Type 0
NotAfter r s = before s r ≡ false

pub NotAfter-refl : (r : Option Rank) → NotAfter r r
unfolding before
NotAfter-refl none = refl
NotAfter-refl (some x) = ground arith

pub NotAfter-trans : (r s t : Option Rank) → NotAfter r s → NotAfter s t → NotAfter r t
unfolding before
NotAfter-trans none none none h k = refl
NotAfter-trans none none (some z) h k = absurd (cc k)
NotAfter-trans none (some y) t h k = absurd (cc h)
NotAfter-trans (some x) s none h k = refl
NotAfter-trans (some x) none (some z) h k = absurd (cc k)
NotAfter-trans (some x) (some y) (some z) h k = ground (arith, h, k)

pub before-NotAfter : (r s : Option Rank) → before r s ≡ true → NotAfter r s
unfolding before
before-NotAfter none s h = absurd (cc h)
before-NotAfter (some x) none h = refl
before-NotAfter (some x) (some y) h = ground (arith, h)

-- Within the first `n` places no item goes before its parent.
abbrev pub IsHeap : ℕ → (ℕ → Option Rank) → Type 0
IsHeap n K = (c : ℕ) → 0 < c → c < n → NotAfter (K (parent c)) (K c)

-- From the parent of `i` to the children of `i` the order holds.
abbrev pub IsBridged : ℕ → (ℕ → Option Rank) → ℕ → Type 0
IsBridged n K i = (c : ℕ) → 0 < c → c < n → parent c ≡ i → 0 < i → NotAfter (K (parent i)) (K c)

-- Heaps, less the edges at `i`, above `i` or below `i`.
pub record Around (n : ℕ) (K : ℕ → Option Rank) (i : ℕ) : Type 0 where
  pub edges : (c : ℕ) → 0 < c → c < n → c ≢ i → parent c ≢ i → NotAfter (K (parent c)) (K c)
  pub bridged : IsBridged n K i

pub record Above (n : ℕ) (K : ℕ → Option Rank) (i : ℕ) : Type 0 where
  pub edges : (c : ℕ) → 0 < c → c < n → c ≢ i → NotAfter (K (parent c)) (K c)
  pub bridged : IsBridged n K i

pub record Below (n : ℕ) (K : ℕ → Option Rank) (i : ℕ) : Type 0 where
  pub edges : (c : ℕ) → 0 < c → c < n → parent c ≢ i → NotAfter (K (parent c)) (K c)
  pub bridged : IsBridged n K i

-- The children of `i` may stand after it.
abbrev pub IsLow : ℕ → (ℕ → Option Rank) → ℕ → Type 0
IsLow n K i = (c : ℕ) → 0 < c → c < n → parent c ≡ i → NotAfter (K i) (K c)

-- A child of `i` that no child of `i` goes before.
pub record IsFirstChild (n : ℕ) (K : ℕ → Option Rank) (i j : ℕ) : Type 0 where
  pub inside : j < n
  pub positive : 0 < j
  pub child : parent j ≡ i
  pub first : (c : ℕ) → 0 < c → c < n → parent c ≡ i → NotAfter (K j) (K c)

-- The ranks at `i` and `j` exchanged.
pub record Exchanged (n : ℕ) (K K' : ℕ → Option Rank) (i j : ℕ) : Type 0 where
  pub first : K' i ≡ K j
  pub second : K' j ≡ K i
  pub others : (c : ℕ) → c < n → c ≢ i → c ≢ j → K' c ≡ K c

pub rise-Above :
    (n : ℕ) (K K' : ℕ → Option Rank) (j : ℕ)
    → j < n
    → 0 < j
    → before (K j) (K (parent j)) ≡ true
    → Exchanged n K K' (parent j) j
    → Above n K j
    → Above n K' (parent j)
rise-Above n K K' j hj p b x v = record {
  edges = λ c q r s. ground (
    arith,
    x.first,
    x.second,
    x.others c r,
    x.others (parent c),
    v.edges c,
    v.bridged c,
    before-NotAfter (K j) (K (parent j)) b,
    NotAfter-trans (K j) (K (parent j)) (K c),
  );
  bridged = λ c q r s t. ground (
    arith,
    x.second,
    x.others c r,
    x.others (parent (parent j)),
    v.edges c,
    v.edges (parent j),
    NotAfter-trans (K (parent (parent j))) (K (parent j)) (K c),
  );
}

pub sink-Below :
    (n : ℕ) (K K' : ℕ → Option Rank) (i j : ℕ)
    → i < n
    → IsFirstChild n K i j
    → before (K j) (K i) ≡ true
    → Exchanged n K K' i j
    → Around n K i
    → Below n K' j
sink-Below n K K' i j hi f b x v = record {
  edges = λ c q r s. ground (
    arith,
    f.inside,
    f.positive,
    f.child,
    x.first,
    x.second,
    x.others c r,
    x.others (parent c),
    v.edges c,
    v.bridged j,
    f.first c,
    before-NotAfter (K j) (K i) b,
  );
  bridged = λ c q r s t.
      ground (arith, f.inside, f.positive, f.child, x.first, x.second, x.others c r, v.edges c);
}

pub Below-Around : (n : ℕ) (K : ℕ → Option Rank) (i : ℕ) → Below n K i → Around n K i
Below-Around n K i v = record { edges = λ c p q r s. v.edges c p q s; bridged = v.bridged }

pub Around-Above : (n : ℕ) (K : ℕ → Option Rank) (i : ℕ) → IsLow n K i → Around n K i → Above n K i
Around-Above n K i l v = record {
  edges = λ c p q r. ground (arith, l c, v.edges c);
  bridged = v.bridged;
}

pub Below-IsHeap : (n : ℕ) (K : ℕ → Option Rank) (i : ℕ) → IsLow n K i → Below n K i → IsHeap n K
Below-IsHeap n K i l v c p q = ground (arith, l c, v.edges c)

pub Above-IsHeap :
    (n : ℕ) (K : ℕ → Option Rank) (i : ℕ)
    → (0 < i → NotAfter (K (parent i)) (K i))
    → Above n K i
    → IsHeap n K
Above-IsHeap n K i l v c p q = ground (arith, l, v.edges c)

-- The root of a heap goes before no later place.
pub IsHeap-root : (n : ℕ) (K : ℕ → Option Rank) (c : ℕ) → IsHeap n K → c < n → NotAfter (K 0) (K c)
IsHeap-root n K c h q = climb (suc c) c (omega arith) q
  where
    climb : (k : ℕ) (i : ℕ) → i < k → i < n → NotAfter (K 0) (K i)
    climb zero i f r = absurd (omega arith)
    climb (suc k) zero f r = NotAfter-refl (K 0)
    climb (suc k) (suc i) f r =
        NotAfter-trans (K 0) (K (parent (suc i))) (K (suc i))
          (climb k (parent (suc i)) (omega arith) (omega arith)) (h (suc i) (omega arith) r)
