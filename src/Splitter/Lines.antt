-- ===== src/Splitter/Lines.antt =====
-- splitByLines splits the lines of a file.
use project_constellation.Prelude.{
  subst, ℕ, ◌+◌, ◌-◌, ◌*◌, ◌/◌, ◌%◌, ◌≡◌, ◌≤◌, ◌<◌, refl, sym, ◌∙◌, ap, eqb, true, false,
  Bool-cases, ltb, ltb→lt, inl, inr, String, List, [], ◌∷◌, ◌++◌, none, length, All, All-mono,
  length-append, arith,
}
use mathlib.Core.List.{append-nil, append_assoc}
use native.Mathlib.Nat.{mul-add-mod_self_right, mod-eq_of_lt, mod_self, zero-mod}
use project_constellation.State.Model.{Task, TaskChunk}
use project_constellation.Scheduler.Cycle.{split_into}
use project_constellation.Splitter.{
  Disk, Parts, Progress, given, in_order, new_chunk, chunk_file, next_file, write_line, append_line,
  start_chunk, scan_loop, split_scanned, split_by_lines,
}
use project_constellation.Splitter.Partition.{joined, Numbered, IsPartition, ceiling}

-- All files but the newest are full, and the newest is not empty.
abbrev Filled : {A : Type 0} → ℕ → Parts A → ℕ → Type 0
Filled n [] m = m ≡ 0
Filled n (p ∷ ps) m =
    (1 ≤ length p.1)
    × (length p.1 ≤ n)
    × All (λ q. length q.1 ≡ n) ps
    × (m ≡ length ps * n + length p.1)

-- Whether the newest file is full, from the number of lines.
mod_below : (n k r : ℕ) → r < n → (k * n + r) % n ≡ r
mod_below n k r h = mul-add-mod_self_right k n r ∙ mod-eq_of_lt h

mod_full : (n k r : ℕ) → 1 ≤ r → r ≤ n → eqb ((k * n + r) % n) 0 ≡ true → r ≡ n
mod_full n k r h l e = elim (Bool-cases (ltb r n)) [
  | inl b ↦ let below = mod_below n k r (ltb→lt r n b) in ground arith
  | inr b ↦ ground arith
]

mod_open : (n k r : ℕ) → r ≤ n → eqb ((k * n + r) % n) 0 ≡ false → r < n
mod_open n k r l e = elim (Bool-cases (ltb r n)) [
  | inl b ↦ ltb→lt r n b
  | inr b ↦
      let full : r ≡ n = ground arith in
      let none_left : (k * n + r) % n ≡ 0 =
        ap (λ x. (k * n + x) % n) full ∙ (mul-add-mod_self_right k n n ∙ mod_self n) in
      ground arith
]

module _ (n : ℕ) where
  Filled-full :
      {A : Type 0} (ps : Parts A) (m : ℕ)
      → Filled n ps m
      → eqb (m % n) 0 ≡ true
      → All (λ q. length q.1 ≡ n) ps × (m ≡ length ps * n)
  Filled-full [] m f e = (tt, omega arith)
  Filled-full (p ∷ ps) m (h, l, full, count) e =
      let same = mod_full n (length ps) (length p.1) h l (rw count at e) in
      ((same, full), omega arith)

  module _ (line : String) where
    append_line-Filled :
        (ps : Parts String) (m : ℕ)
        → Filled n ps m
        → eqb (m % n) 0 ≡ false
        → Filled n (append_line line ps) (m + 1)
    append_line-Filled [] m f e = let none_left : m % n ≡ 0 = rw f (zero-mod n) in ground arith
    append_line-Filled ((c, ls) ∷ ps) m (h, l, full, count) e =
        let room = mod_open n (length ps) (length ls) l (rw count at e) in
        let longer = length-append ls (line ∷ []) in (omega arith, omega arith, full, omega arith)

    joined-append_line :
        (ps : Parts String) (m : ℕ)
        → Filled n ps m
        → eqb (m % n) 0 ≡ false
        → joined (append_line line ps) ≡ joined ps ++ line ∷ []
    joined-append_line [] m f e = let none_left : m % n ≡ 0 = rw f (zero-mod n) in ground arith
    joined-append_line ((c, ls) ∷ ps) m f e = sym (append_assoc (joined ps) ls (line ∷ []))

    append_line-Numbered :
        (make : ℕ → TaskChunk) (ps : Parts String)
        → Numbered make ps
        → Numbered make (append_line line ps)
    append_line-Numbered make [] h = h
    append_line-Numbered make ((c, ls) ∷ ps) h = h

    length-append_line : (ps : Parts String) → length (append_line line ps) ≡ length ps
    length-append_line [] = refl
    length-append_line ((c, ls) ∷ ps) = refl

module _ (disk : Disk) (dir : String) (task : Task) (n : ℕ) (positive : 0 < n)
    (creates : (f : String) → disk.create_error f ≡ none) where
  -- The scan after the lines that are done.
  record IsScanned (past : List String) (p : Progress disk dir task) : Type 0 where
    text : joined p.parts ≡ past
    seen : p.line_num ≡ length past
    filled : Filled n p.parts p.line_num
    counted : p.chunk_idx ≡ length p.parts
    numbered : Numbered (new_chunk disk dir task) p.parts

  write_line-IsScanned :
      (past : List String) (p : Progress disk dir task) (line : String)
      → IsScanned past p
      → (q : Progress disk dir task) × (next_file disk dir task n p ≡ given q)
        × IsScanned (past ++ line ∷ []) (write_line disk dir task line q)
  unfolding next_file write_line start_chunk
  write_line-IsScanned past p line h = elim (Bool-cases (eqb (p.line_num % n) 0)) [
    | inl e ↦
        let full = Filled-full n p.parts p.line_num h.filled e in
        (
          start_chunk disk dir task p,
          rw e (rw (creates (chunk_file disk dir task p.chunk_idx)) refl),
          record {
            text = rw h.text refl;
            seen = rw h.seen (sym (length-append past (line ∷ [])));
            filled = (omega arith, omega arith, full.0, omega arith);
            counted = omega arith;
            numbered = (ap (new_chunk disk dir task) h.counted, h.numbered);
          },
        )
    | inr e ↦ (
      p,
      rw e refl,
      record {
        text = joined-append_line n line p.parts p.line_num h.filled e ∙ rw h.text refl;
        seen = rw h.seen (sym (length-append past (line ∷ [])));
        filled = append_line-Filled n line p.parts p.line_num h.filled e;
        counted = h.counted ∙ sym (length-append_line n line p.parts);
        numbered = append_line-Numbered n line (new_chunk disk dir task) p.parts h.numbered;
      },
    )
  ]

  scan_loop-IsScanned :
      (lines past : List String) (p : Progress disk dir task)
      → IsScanned past p
      → (q : Progress disk dir task) × (scan_loop disk dir task n lines p
          ≡ (split_into (in_order q.parts []), q.parts))
        × IsScanned (past ++ lines) q
  unfolding scan_loop
  scan_loop-IsScanned [] past p h = (p, refl, subst (λ x. IsScanned x p) (sym (append-nil past)) h)
  scan_loop-IsScanned (line ∷ lines) past p h =
      let step = write_line-IsScanned past p line h in
      let rest =
        scan_loop-IsScanned lines (past ++ line ∷ []) (write_line disk dir task line step.0)
          step.2 in
      (
        rest.0,
        rw (scan_loop, step.1) rest.1,
        subst (λ x. IsScanned x rest.0) (append_assoc past (line ∷ []) lines) rest.2,
      )

  IsScanned-IsPartition :
      (line : String) (lines : List String) (p : Progress disk dir task)
      → IsScanned (line ∷ lines) p
      → IsPartition (new_chunk disk dir task) n (line ∷ lines) p.parts
  IsScanned-IsPartition line lines p h = ends p.parts h.text h.filled h.numbered
    where
      ends :
          (ps : Parts String)
          → joined ps ≡ line ∷ lines
          → Filled n ps p.line_num
          → Numbered (new_chunk disk dir task) ps
          → IsPartition (new_chunk disk dir task) n (line ∷ lines) ps
      ends [] t f m = absurd (cc t)
      ends (q ∷ ps) t (low, high, full, seen) m = record {
        holds = t;
        count = sym (
            ap (λ x. (x + n - 1) / n) (sym h.seen ∙ seen)
            ∙ ceiling n (length ps) (length q.1) low high);
        bounded = (high, All-mono ps (λ c e. omega arith) full);
        numbered = m;
      }

  -- Where the input file is read to its end and has a line, and every chunk file can be created,
  -- splitByLines answers, for a positive number of lines to a chunk: the chunk files, in order, hold
  -- the lines of the input file, there are exactly as many of them as needed, none has too many
  -- lines, and their chunks are the queued chunks numbered from 0.
  pub split_by_lines-IsPartition :
      (line : String) (lines : List String)
      → disk.scan_lines task.input_file ≡ given (line ∷ lines, none)
      → (parts : Parts String) × (split_by_lines disk dir task n
          ≡ (split_into (in_order parts []), parts))
        × IsPartition (new_chunk disk dir task) n (line ∷ lines) parts
  unfolding split_by_lines split_scanned
  split_by_lines-IsPartition line lines found =
      let run =
        scan_loop-IsScanned (line ∷ lines) [] (record { line_num = 0; chunk_idx = 0; parts = [] })
          (record { text = refl; seen = refl; filled = refl; counted = refl; numbered = tt }) in
      (run.0.parts, rw (split_by_lines, found) run.1, IsScanned-IsPartition line lines run.0 run.2)
