-- ===== src/MapReduce/Split/Sizes.antt =====
-- How many files `Split` of project-3/src/mapreduce/mapreduce.go creates.
use native.Mathlib.Nat.{lt_of_mul-lt-mul_left, lt-div-mul-add}
use dsystem_homework.Base.{
  inl, inr, ltb→lt, ℕ, zero, suc, ◌+◌, ◌*◌, ◌/◌, ◌≤◌, ◌<◌, ◌≡◌, ltb, List, [], ◌∷◌, ◌++◌, length,
  some, Bool-cases, arith,
}
use dsystem_homework.MapReduce.Text.{Text, byte_length, byte_length-append}
use dsystem_homework.MapReduce.Split.{newline, drop_cr, scan_lines, split_loop, split}

-- The bytes that the loop writes for these lines.
abbrev written : List Text → ℕ
written [] = 0
written (line ∷ lines) = suc (byte_length line) + written lines

drop_cr_le : (line : Text) → byte_length (drop_cr line) ≤ byte_length line
unfolding drop_cr byte_length
drop_cr_le [] = omega arith
drop_cr_le (c ∷ []) = ground arith
drop_cr_le (c ∷ d ∷ cs) = ground (arith, drop_cr_le (d ∷ cs))

written-scan_lines :
    (line input : Text)
    → written (scan_lines line input) ≤ suc (byte_length line + byte_length input)
unfolding scan_lines byte_length
written-scan_lines [] [] = omega arith
written-scan_lines (d ∷ line) [] = omega (arith, drop_cr_le (d ∷ line))
written-scan_lines line (c ∷ rest) = ground (
  arith,
  drop_cr_le line,
  written-scan_lines [] rest,
  written-scan_lines (line ++ c ∷ []) rest,
  byte_length-append line (c ∷ []),
)

split_loop_le :
    (n nchunk m i : ℕ) (file : Text) (lines : List Text)
    → m ≤ n
    → i + written lines ≤ nchunk * n
    → length (split_loop nchunk m i file lines) + m ≤ suc n
unfolding split_loop byte_length
split_loop_le n nchunk m i file [] some_left fits = omega arith
split_loop_le n nchunk m i file (line ∷ lines) some_left fits =
    let next : (m' : ℕ) (file' : Text)
        → m' ≤ n
        → length (split_loop nchunk m' (i + byte_length (line ++ newline ∷ [])) file' lines) + m'
          ≤ suc n =
      λ m' file' le.
        split_loop_le n nchunk m' _ file' lines le
          (omega (arith, byte_length-append line (newline ∷ []))) in
    elim (Bool-cases (ltb (nchunk * m) i)) [
      | inl full ↦
          let left : m < n =
            lt_of_mul-lt-mul_left nchunk (omega (arith, ltb→lt (nchunk * m) i full)) in
          rw full (omega (arith, next (suc m) (line ++ newline ∷ []) left))
      | inr room ↦ rw room (next m (file ++ (line ++ newline ∷ [])) some_left)
    ]

split_loop_some :
    (nchunk m i : ℕ) (file : Text) (lines : List Text)
    → 1 ≤ length (split_loop nchunk m i file lines)
unfolding split_loop
split_loop_some nchunk m i file [] = omega arith
split_loop_some nchunk m i file (line ∷ lines) =
    let line' = line ++ newline ∷ [] in
    elim (Bool-cases (ltb (nchunk * m) i)) [
      | inl full ↦ rw full (omega arith)
      | inr room ↦ rw room (split_loop_some nchunk m (i + byte_length line') (file ++ line') lines)
    ]

chunks_hold : (size n : ℕ) {bytes : ℕ} → bytes ≤ suc size → bytes ≤ suc (size / suc n) * suc n
chunks_hold size n le = omega (arith, lt-div-mul-add {a = size} {b = suc n} (omega arith))

-- `Split` creates at least one file and at most as many as there are map jobs.
pub split_fits :
    (n_map : ℕ) (input : Text) {files : List Text}
    → split n_map input ≡ some files
    → (1 ≤ length files) × (length files ≤ n_map)
unfolding split byte_length
split_fits zero input h = cc
split_fits (suc n) input {files} h =
    let same : split_loop (suc (byte_length input / suc n)) 1 0 [] (scan_lines [] input) ≡ files =
      cc in
    rw (← same) (
      split_loop_some _ 1 0 [] (scan_lines [] input),
      omega (
        arith,
        split_loop_le (suc n) (suc (byte_length input / suc n)) 1 0 [] (scan_lines [] input)
            (omega arith)
            (chunks_hold (byte_length input) n (omega (arith, written-scan_lines [] input))),
      ),
    )
