-- ===== src/Splitter/Sizes.antt =====
-- splitBySize splits the bytes of a file.
use project_constellation.Prelude.{
  ℕ, zero, suc, ◌+◌, ◌-◌, ◌*◌, ◌/◌, ◌%◌, ◌^◌, ltb, true, ◌≡◌, ◌≤◌, ◌<◌, refl, sym, ◌∙◌, ap, subst,
  String, List, [], ◌∷◌, ◌++◌, none, length, take, drop, length-take-le, All, arith,
}
use mathlib.Core.List.{append-nil, append_assoc}
use native.Mathlib.Nat.{lt-div-mul-add}
use project_constellation.State.Model.{Task}
use project_constellation.Scheduler.Cycle.{split_into}
use project_constellation.Splitter.{
  Disk, Parts, given, in_order, new_chunk, chunk_file, size_loop, num_chunks, split_sized,
  split_by_size,
}
use project_constellation.Splitter.Partition.{joined, Numbered, IsPartition}

take-drop : {A : Type 0} (n : ℕ) (xs : List A) → take n xs ++ drop n xs ≡ xs
take-drop zero xs = refl
take-drop (suc n) [] = refl
take-drop (suc n) (x ∷ xs) = ap (λ ys. x ∷ ys) (take-drop n xs)

length-drop-le : {A : Type 0} (n m : ℕ) (xs : List A) → length xs ≤ n + m → length (drop n xs) ≤ m
length-drop-le zero m xs h = omega arith
length-drop-le (suc n) m [] h = omega arith
length-drop-le (suc n) m (x ∷ xs) h = length-drop-le n m xs (omega arith)

module _ (disk : Disk) (dir : String) (task : Task) (n : ℕ) (positive : 0 < n)
    (creates : (f : String) → disk.create_error f ≡ none)
    (writes : (f : String) (bs : List ℕ) → disk.write_bytes f bs ≡ bs) where
  -- The parts after the bytes that are done.
  record IsCut (past : List ℕ) (parts : Parts ℕ) : Type 0 where
    bytes : joined parts ≡ past
    bounded : All (λ p. length p.1 ≤ n) parts
    numbered : Numbered (new_chunk disk dir task) parts

  size_loop-IsCut :
      (more : ℕ) (rest past : List ℕ) (parts : Parts ℕ)
      → length rest ≤ more * n
      → IsCut past parts
      → (parts' : Parts ℕ) × (size_loop disk dir task n more (length parts) rest parts
          ≡ (split_into (in_order parts' []), parts'))
        × IsCut (past ++ rest) parts'
        × (length parts' ≡ length parts + more)
  unfolding size_loop
  size_loop-IsCut zero [] past parts l h =
      (parts, refl, subst (λ x. IsCut x parts) (sym (append-nil past)) h, omega arith)
  size_loop-IsCut zero (b ∷ rest) past parts l h = absurd (omega arith)
  size_loop-IsCut (suc more) rest past parts l h =
      let part = take n rest in
      let step =
        size_loop-IsCut more (drop n rest) (past ++ part)
          ((new_chunk disk dir task (length parts), part) ∷ parts)
          (length-drop-le n (more * n) rest (omega arith))
          (record {
            bytes = ap (λ x. x ++ part) h.bytes;
            bounded = (length-take-le n rest, h.bounded);
            numbered = (refl, h.numbered);
          }) in
      (
        step.0,
        rw
            (
              size_loop,
              creates (chunk_file disk dir task (length parts)),
              writes (chunk_file disk dir task (length parts)) part,
            )
            step.1,
        subst (λ x. IsCut x step.0)
            (append_assoc past part (drop n rest) ∙ ap (λ x. past ++ x) (take-drop n rest)) step.2,
        omega arith,
      )

  num_chunks_lem :
      (size : ℕ) → size + n ≤ 2 ^ 63 → num_chunks disk dir task size n ≡ (size + n - 1) / n
  unfolding num_chunks
  num_chunks_lem size small =
      let whole : (size + n - 1) % 2 ^ 64 ≡ size + n - 1 = omega arith in
      let fits : ltb (size + n - 1) (2 ^ 63) ≡ true = ground (arith, small, positive) in
      rw (whole, fits) refl

  -- Where the size that is read is that of the file, every chunk file can be created and takes what is
  -- written to it, and the size and the number of bytes to a chunk, which is positive, are together at
  -- most 2^63, splitBySize answers: the chunk files, in order, hold the bytes of
  -- the input file, there are exactly as many of them as needed, none is too large, and their chunks
  -- are the queued chunks numbered from 0.
  pub split_by_size-IsPartition :
      (bytes : List ℕ)
      → length bytes + n ≤ 2 ^ 63
      → disk.stat_size task.input_file ≡ given (length bytes)
      → disk.read_bytes task.input_file ≡ given bytes
      → (parts : Parts ℕ) × (split_by_size disk dir task n
          ≡ (split_into (in_order parts []), parts))
        × IsPartition (new_chunk disk dir task) n bytes parts
  unfolding split_by_size split_sized
  split_by_size-IsPartition bytes small size read =
      let enough = lt-div-mul-add {a = length bytes + n - 1} positive in
      let run =
        size_loop-IsCut ((length bytes + n - 1) / n) bytes [] [] (omega arith)
          (record { bytes = refl; bounded = tt; numbered = tt }) in
      (
        run.0,
        rw (split_by_size, size, split_sized, read, num_chunks_lem (length bytes) small) run.1,
        record {
          holds = run.2.bytes;
          count = let h = run.3 in omega arith;
          bounded = run.2.bounded;
          numbered = run.2.numbered;
        },
      )
