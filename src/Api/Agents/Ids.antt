-- ===== src/Api/Agents/Ids.antt =====
-- The ids of chunks, as the splitter and the scheduler write them and a report reads them.
use Prim.Native.Char.{Char, code}
use Prim.Native.String.{slice, len}
use project_constellation.Prelude.{
  ℕ, subst, eq_iff, one_of, ◌+◌, ◌≡◌, ◌≤◌, refl, sym, ◌∙◌, ap, eqb, ltb, true, false, ◌==◌, ◌||◌,
  String, List, [], ◌∷◌, some, concat, if◌then◌else◌, arith, Bool-cases, inl, inr,
}
use project_constellation.Prelude.Text.{split_on, push_char, show_ℕ}
use text.Mathlib.TextLemmas.{nil-append, cons-append, append_assoc}
use text.Mathlib.TextPositions.{len-append, slice-append_left}
use project_constellation.State.Chunks.{chunk_id}
use project_constellation.Api.Agents.{of_chunk, of_task, parent_of, report_kind}

-- A text has no dash.
abbrev pub NoDash : String → Type 0
NoDash String.[] = Unit {0}
NoDash (String.◌∷◌ c s) = (eqb (code c) b'-' ≡ false) × NoDash s

split_on-cons :
    (c : Char) (s : String)
    → split_on b'-' (String.◌∷◌ c s)
      ≡ (if eqb (code c) b'-' then "" ∷ split_on b'-' s else push_char c (split_on b'-' s))
unfolding split_on
split_on-cons c s = refl

split_on-dash :
    (s t : String) → NoDash s → split_on b'-' (concat s (concat "-" t)) ≡ s ∷ split_on b'-' t
split_on-dash String.[] t h =
    ap (split_on b'-')
      (nil-append (concat "-" t) ∙ (cons-append "-" "" t ∙ ap (String.◌∷◌ "-") (nil-append t)))
    ∙ split_on-cons "-" t
split_on-dash (String.◌∷◌ c s) t h =
    ap (split_on b'-') (cons-append c s (concat "-" t))
    ∙ (split_on-cons c (concat s (concat "-" t)) ∙ rw h.0 (rw (split_on-dash s t h.1) refl))

-- There is a first part.
split_on_first : (s : String) → (p : String) × (ps : List String) × (split_on b'-' s ≡ p ∷ ps)
split_on_first String.[] = ("", [], unfold split_on in refl)
split_on_first (String.◌∷◌ c s) = elim (Bool-cases (eqb (code c) b'-')) [
  | inl e ↦ ("", split_on b'-' s, split_on-cons c s ∙ rw e refl)
  | inr e ↦
      let rest = split_on_first s in
      (String.◌∷◌ c rest.0, rest.1, split_on-cons c s ∙ rw e (rw rest.2 refl))
]

-- A report on a chunk of a task, whose id is `task-` and a text without a dash, finds the task.
pub parent_of-chunk_id :
    (prefix hex : String) (index : ℕ)
    → NoDash prefix
    → NoDash hex
    → parent_of (split_on b'-' (chunk_id prefix (concat "task-" hex) index))
      ≡ some (concat "task-" hex)
unfolding parent_of
parent_of-chunk_id prefix hex index p h =
    let tail = show_ℕ index in
    let last = split_on_first tail in
    let parts : split_on b'-' (chunk_id prefix (concat "task-" hex) index)
        ≡ prefix ∷ "task" ∷ hex ∷ last.0 ∷ last.1 =
      split_on-dash prefix _ p
      ∙ ap (λ ps. prefix ∷ ps)
          (ap (split_on b'-')
              (append_assoc "task-" hex (concat "-" tail) ∙ append_assoc "task" "-" _)
            ∙ (split_on-dash "task" _ (refl, (refl, (refl, (refl, tt))))
                ∙ ap (λ ps. "task" ∷ ps)
                    (split_on-dash hex tail h ∙ ap (λ ps. hex ∷ ps) last.2))) in
    ap parent_of parts ∙ ap some (sym (append_assoc "task" "-" hex))

slice_head : (h r w : String) (k : ℕ) → w ≡ concat h r → len h ≡ k → slice w 0 k ≡ h
slice_head h r w k e l = rw e (rw (sym l) (slice-append_left h r))

kind_by :
    (w s4 s5 s6 s7 : String)
    → 7 ≤ len w
    → slice w 0 4 ≡ s4
    → slice w 0 5 ≡ s5
    → slice w 0 6 ≡ s6
    → slice w 0 7 ≡ s7
    → report_kind w ≡ (
        if s6 == "chunk-"
        then of_chunk
        else if s7 == "replica" || (s4 == "map-" || s5 == "pipe-")
        then of_chunk
        else of_task)
unfolding report_kind
kind_by w s4 s5 s6 s7 l e4 e5 e6 e7 =
    let long : ltb 6 (len w) ≡ true = ground arith in
    let not_short : ltb (len w) 7 ≡ false = ground arith in
    rw (e4, e5, e6, e7, long, not_short) refl

-- What a report takes an id for, from its first seven bytes.
report_kind_head :
    (a b c d t : String)
    → len a ≡ 4
    → len b ≡ 1
    → len c ≡ 1
    → len d ≡ 1
    → report_kind (concat a (concat b (concat c (concat d t)))) ≡ (
        if concat (concat a b) c == "chunk-"
        then of_chunk
        else if concat (concat (concat a b) c) d == "replica"
            || (a == "map-" || concat a b == "pipe-")
        then of_chunk
        else of_task)
report_kind_head a b c d t la lb lc ld =
    let w = concat a (concat b (concat c (concat d t))) in
    let w5 : w ≡ concat (concat a b) (concat c (concat d t)) = sym (append_assoc a b _) in
    let w6 : w ≡ concat (concat (concat a b) c) (concat d t) = w5 ∙ sym (append_assoc _ c _) in
    let w7 : w ≡ concat (concat (concat (concat a b) c) d) t = w6 ∙ sym (append_assoc _ d _) in
    let l5 = len-append a b in
    let l6 = len-append (concat a b) c in
    let l7 = len-append (concat (concat a b) c) d in
    let l = len-append (concat (concat (concat a b) c) d) t in
    let sum : len w ≡ 7 + len t = ap len w7 ∙ omega arith in
    kind_by w a (concat a b) (concat (concat a b) c) (concat (concat (concat a b) c) d)
      (omega arith) (slice_head a _ w 4 refl la) (slice_head (concat a b) _ w 5 w5 (omega arith))
      (slice_head (concat (concat a b) c) _ w 6 w6 (omega arith))
      (slice_head (concat (concat (concat a b) c) d) t w 7 w7 (omega arith))

kind_head :
    (a b c d u z : String)
    → len a ≡ 4
    → len b ≡ 1
    → len c ≡ 1
    → len d ≡ 1
    → report_kind (concat (concat a (concat b (concat c (concat d u)))) z) ≡ (
        if concat (concat a b) c == "chunk-"
        then of_chunk
        else if concat (concat (concat a b) c) d == "replica"
            || (a == "map-" || concat a b == "pipe-")
        then of_chunk
        else of_task)
kind_head a b c d u z la lb lc ld =
    ap report_kind (
      append_assoc a _ z
      ∙ ap (concat a) (
          append_assoc b _ z
          ∙ ap (concat b) (append_assoc c _ z ∙ ap (concat c) (append_assoc d u z))))
    ∙ report_kind_head a b c d (concat u z) la lb lc ld

chunk_id-task :
    (prefix hex : String) (index : ℕ)
    → chunk_id prefix (concat "task-" hex) index
      ≡ concat (concat prefix "-task-") (concat hex (concat "-" (show_ℕ index)))
chunk_id-task prefix hex index =
    ap (concat prefix)
      (ap (concat "-") (append_assoc "task-" hex _) ∙ sym (append_assoc "-" "task-" _))
    ∙ sym (append_assoc prefix "-task-" _)

-- The prefixes of the chunks that the controller makes.
abbrev pub chunk_prefixes : List String
chunk_prefixes = "chunk" ∷ "map" ∷ "pipe" ∷ "replica" ∷ []

module _ (prefix hex : String) (index : ℕ) where
  known :
      (literal : String)
      → (prefix == literal) ≡ true
      → ((z : String) → report_kind (concat (concat literal "-task-") z) ≡ of_chunk)
      → report_kind (chunk_id prefix (concat "task-" hex) index) ≡ of_chunk
  known literal e k =
      let tail = concat hex (concat "-" (show_ℕ index)) in
      ap report_kind (
        chunk_id-task prefix hex index
        ∙ ap (λ q. concat (concat q "-task-") tail) ((eq_iff prefix literal).0 e))
      ∙ k tail

  -- A report on a chunk that the splitter or the scheduler made for a task, whose id is `task-` and
  -- some text, is taken for a report on a chunk.
  pub report_kind-chunk_id :
      one_of prefix chunk_prefixes ≡ true
      → report_kind (chunk_id prefix (concat "task-" hex) index) ≡ of_chunk
  report_kind-chunk_id h = elim (Bool-cases (prefix == "chunk")) [
    | inl e ↦ known "chunk" e (λ z. kind_head "chun" "k" "-" "t" "ask-" z refl refl refl refl)
    | inr e ↦ elim (Bool-cases (prefix == "map")) [
      | inl m ↦ known "map" m (λ z. kind_head "map-" "t" "a" "s" "k-" z refl refl refl refl)
      | inr m ↦ elim (Bool-cases (prefix == "pipe")) [
        | inl p ↦ known "pipe" p (λ z. kind_head "pipe" "-" "t" "a" "sk-" z refl refl refl refl)
        | inr p ↦ elim (Bool-cases (prefix == "replica")) [
          | inl r ↦
              known "replica" r (λ z. kind_head "repl" "i" "c" "a" "-task-" z refl refl refl refl)
          | inr r ↦ absurd (ground arith)
        ]
      ]
    ]
  ]

prefix-NoDash : (prefix : String) → one_of prefix chunk_prefixes ≡ true → NoDash prefix
prefix-NoDash prefix h = elim (Bool-cases (prefix == "chunk")) [
  | inl e ↦
      subst NoDash (sym ((eq_iff prefix "chunk").0 e)) (refl, (refl, (refl, (refl, (refl, tt)))))
  | inr e ↦ elim (Bool-cases (prefix == "map")) [
    | inl m ↦ subst NoDash (sym ((eq_iff prefix "map").0 m)) (refl, (refl, (refl, tt)))
    | inr m ↦ elim (Bool-cases (prefix == "pipe")) [
      | inl p ↦ subst NoDash (sym ((eq_iff prefix "pipe").0 p)) (refl, (refl, (refl, (refl, tt))))
      | inr p ↦ elim (Bool-cases (prefix == "replica")) [
        | inl r ↦
            subst NoDash (sym ((eq_iff prefix "replica").0 r))
              (refl, (refl, (refl, (refl, (refl, (refl, (refl, tt)))))))
        | inr r ↦ absurd (ground arith)
      ]
    ]
  ]
]

-- A report whose id is that of a chunk that the controller makes, of a task whose id is `task-` and
-- a text without a dash, is taken for a report on a chunk, and finds the task.
pub chunk_id-report :
    (prefix hex : String) (index : ℕ)
    → one_of prefix chunk_prefixes ≡ true
    → NoDash hex
    → (report_kind (chunk_id prefix (concat "task-" hex) index) ≡ of_chunk)
      × (parent_of (split_on b'-' (chunk_id prefix (concat "task-" hex) index))
          ≡ some (concat "task-" hex))
chunk_id-report prefix hex index h free = (
  report_kind-chunk_id prefix hex index h,
  parent_of-chunk_id prefix hex index (prefix-NoDash prefix h) free,
)
