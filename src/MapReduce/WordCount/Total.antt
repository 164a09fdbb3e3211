-- ===== src/MapReduce/WordCount/Total.antt =====
-- The word count of project-3/src/main/wc.go as a whole.
use dsystem_homework.Base.{
  ℕ, zero, suc, Bool, ◌%◌, ◌^◌, ◌<◌, ◌≡◌, refl, ap, ◌∙◌, false, nat_beq, List, [], length, none,
  some, lookup, bytes_key, if◌then◌else◌, arith,
}
use dsystem_homework.MapReduce.Text.{Text, byte_length}
use dsystem_homework.MapReduce.Text.Sorting.{Ascending}
use dsystem_homework.MapReduce.Split.{split, newline, carriage_return}
use dsystem_homework.MapReduce.Split.Lines.{join-split}
use dsystem_homework.MapReduce.Master.{jobs_from}
use dsystem_homework.MapReduce.Files.{Files, keys, print_pairs}
use dsystem_homework.MapReduce.Files.Merges.{answer}
use dsystem_homework.MapReduce.Run.{run, run_single, do_job}
use dsystem_homework.MapReduce.Run.Answers.{outcome, run_answers, jobs_from-AreJobs}
use dsystem_homework.MapReduce.WordCount.{fields_func, map_func, itoa, reduce_func}
use dsystem_homework.MapReduce.WordCount.Fields.{LinesFit, fields_func-unlines}
use dsystem_homework.MapReduce.WordCount.Counts.{
  one, replicate, count, values_in-map_func, reduce_func-replicate,
}

answer-replicate :
    (w : Text) (n : ℕ)
    → answer reduce_func w (replicate n one)
      ≡ (if nat_beq n 0 then none else some (itoa (n % 2 ^ 64)))
unfolding replicate
answer-replicate w zero = refl
answer-replicate w (suc n) = ap some (reduce_func-replicate w (suc n)) ∙ ground arith

-- When no line of the input is too long for the scanner, `Split` makes a file for every map job, there
-- is a reduce job, and a line end and a carriage return are no letters: the sequential word count ends
-- with a result that lists words in ascending order, each once, and a word is listed with its number in
-- the input, as an `int` of 64 bits, and is not listed if it is not there.
pub word_count :
    (is_letter : ℕ → Bool) (ihash : Text → ℕ) (n_map n_reduce : ℕ) (fs : Files) {input : Text}
    {texts : List Text} (w : Text)
    → fs.input ≡ some input
    → split n_map input ≡ some texts
    → length texts ≡ n_map
    → 0 < n_reduce
    → is_letter newline ≡ false
    → is_letter carriage_return ≡ false
    → LinesFit 0 input
    → (after : Files) × (run_single ihash (map_func is_letter) reduce_func n_map n_reduce fs
        ≡ some after)
      × (after.result
          ≡ some (print_pairs (outcome ihash (map_func is_letter) reduce_func n_reduce texts)))
      × Ascending (keys (outcome ihash (map_func is_letter) reduce_func n_reduce texts))
      × (lookup w (outcome ihash (map_func is_letter) reduce_func n_reduce texts) ≡ (
          if nat_beq (count w (fields_func is_letter [] input)) 0
          then none
          else some (itoa (count w (fields_func is_letter [] input) % 2 ^ 64))))
unfolding run run_single do_job byte_length
word_count is_letter ihash n_map n_reduce fs {input} {texts} w read cut all_made some_jobs n r fit =
    let (joined, ends) = join-split n_map input cut in
    let same_words =
      ap (fields_func is_letter []) joined ∙ fields_func-unlines is_letter [] input n r fit in
    let (after, ran, printed, up, answered) =
      run_answers ihash (map_func is_letter) reduce_func n_map n_reduce (jobs_from 0 n_map)
        (jobs_from 0 n_reduce) fs w read cut all_made some_jobs (jobs_from-AreJobs n_map)
        (jobs_from-AreJobs n_reduce) in
    (
      after,
      ran,
      printed,
      up,
      answered
          ∙ ap (answer reduce_func w) (
              values_in-map_func is_letter w texts n ends
              ∙ ap (λ ws. replicate (count w ws) one) same_words)
          ∙ answer-replicate w (count w (fields_func is_letter [] input)),
    )
