-- ===== src/MapReduce/Run/Tests.antt =====
-- A word count of two files, and runs of `Split` and `RunSingle`.
use dsystem_homework.Base.{
  ℕ, zero, suc, ◌≤◌, ◌<◌, ◌≡◌, refl, Bool, leb, nat_beq, List, [], ◌∷◌, Option, none, some, length,
  map, lookup, insert, bytes_beq, bytes_key, arith, In, here, there, if◌then◌else◌, ◌%◌, ◌^◌,
}
use dsystem_homework.MapReduce.Text.{Text, byte_length, sort_strings, insert_sorted, text_leb}
use dsystem_homework.MapReduce.Text.Sorting.{Ascending}
use dsystem_homework.MapReduce.Split.{split, split_loop, scan_lines, drop_cr}
use dsystem_homework.MapReduce.Split.Sizes.{split_fits}
use dsystem_homework.MapReduce.Jobs.Gather.{values_in}
use dsystem_homework.MapReduce.Files.{
  Files, keys, print_pairs, split_input, create_splits, do_all, do_map_job, create_all,
  do_reduce_job, open_parts, reduced, reduce_keys, merge, merge_files, merge_file, sorted_pairs,
}
use dsystem_homework.MapReduce.Jobs.{do_map, partitions, partition, read_files, read_file, add_pair}
use dsystem_homework.MapReduce.Master.{jobs_from}
use dsystem_homework.MapReduce.Files.Merges.{answer}
use dsystem_homework.MapReduce.Run.{run, run_single}
use dsystem_homework.MapReduce.Run.Answers.{AreJobs, outcome, run_answers}
use dsystem_homework.MapReduce.Run.Errors.{run_single_fails}
use dsystem_homework.MapReduce.WordCount.{
  fields_func, map_func, itoa, reduce_func, atoi, add_values, read_digits, show_digits,
}
use dsystem_homework.MapReduce.WordCount.Counts.{count}
use dsystem_homework.MapReduce.Names.{of_reduce, name_of-injective}
use dsystem_homework.MapReduce.WordCount.Total.{word_count}

abbrev is_letter : ℕ → Bool
is_letter c = leb 97 c

abbrev word : Text
word = 98 ∷ []

-- Four lines, of which the second has a word twice.
abbrev input : Text
input = 97 ∷ 10 ∷ 98 ∷ 32 ∷ 98 ∷ 10 ∷ 97 ∷ 10 ∷ 98 ∷ 10 ∷ []

abbrev texts : List Text
texts = (97 ∷ 10 ∷ 98 ∷ 32 ∷ 98 ∷ 10 ∷ 97 ∷ 10 ∷ []) ∷ (98 ∷ 10 ∷ []) ∷ []

abbrev files : Files
files = record {
  input = some input;
  map_files = [];
  reduce_files = [];
  merge_files = [];
  result = none;
}

split_input_texts : split 2 input ≡ some texts
unfolding split split_loop scan_lines drop_cr byte_length
split_input_texts = refl

split_fits_example : (1 ≤ length texts) × (length texts ≤ 2)
split_fits_example = split_fits 2 input split_input_texts

abbrev counted : List Text → Text → Option Text
counted ts w = lookup w (outcome byte_length (map_func is_letter) reduce_func 3 ts)

word_count_example :
    (after : Files) × (run_single byte_length (map_func is_letter) reduce_func 2 3 files
      ≡ some after)
    × (after.result
        ≡ some (print_pairs (outcome byte_length (map_func is_letter) reduce_func 3 texts)))
    × Ascending (keys (outcome byte_length (map_func is_letter) reduce_func 3 texts))
    × (counted texts word ≡ (
        if nat_beq (count word (fields_func is_letter [] input)) 0
        then none
        else some (itoa (count word (fields_func is_letter [] input) % 2 ^ 64))))
word_count_example =
    word_count is_letter byte_length 2 3 files word refl split_input_texts refl (omega arith) refl
      refl
      (omega arith, (omega arith, (omega arith, (omega arith, (omega arith, (omega arith, tt))))))

two_complete : (j : ℕ) → j < 2 → In j (1 ∷ 0 ∷ 1 ∷ [])
two_complete zero below = there here
two_complete (suc zero) below = here
two_complete (suc (suc j)) below = absurd (omega arith)

-- The workers do a map job twice, and the jobs in another order.
abbrev two_jobs : AreJobs 2 (1 ∷ 0 ∷ 1 ∷ [])
two_jobs = record {
  in_range = (omega arith, (omega arith, (omega arith, tt)));
  complete = two_complete;
}

run_answers_example :
    (after : Files) × (run byte_length
        (map_func is_letter)
        reduce_func
        2
        2
        (1 ∷ 0 ∷ 1 ∷ [])
        (1 ∷ 0 ∷ 1 ∷ [])
        files
      ≡ some after)
    × (after.result
        ≡ some (print_pairs (outcome byte_length (map_func is_letter) reduce_func 2 texts)))
    × Ascending (keys (outcome byte_length (map_func is_letter) reduce_func 2 texts))
    × (lookup word (outcome byte_length (map_func is_letter) reduce_func 2 texts)
        ≡ answer reduce_func word (values_in word (map (map_func is_letter) texts)))
run_answers_example =
    run_answers byte_length (map_func is_letter) reduce_func 2 2 (1 ∷ 0 ∷ 1 ∷ []) (1 ∷ 0 ∷ 1 ∷ [])
      files word refl split_input_texts refl (omega arith) two_jobs two_jobs

split_three_texts :
    split 3 input ≡ some ((97 ∷ 10 ∷ 98 ∷ 32 ∷ 98 ∷ 10 ∷ []) ∷ (97 ∷ 10 ∷ 98 ∷ 10 ∷ []) ∷ [])
unfolding split split_loop scan_lines drop_cr byte_length
split_three_texts = refl

run_single_fails_example : run_single byte_length (map_func is_letter) reduce_func 3 1 files ≡ none
unfolding lookup
run_single_fails_example =
    run_single_fails byte_length (map_func is_letter) 1 reduce_func 3 files refl split_three_texts
      (omega arith) refl

name_of-injective_example : of_reduce 1 12 ≡ of_reduce 1 12
name_of-injective_example =
    name_of-injective word (of_reduce 1 12) (of_reduce 1 12) (omega arith, omega arith)
      (omega arith, omega arith) refl

-- The word is there three times.
printed_three :
    elim (run_single byte_length (map_func is_letter) reduce_func 2 3 files) [
      | none ↦ none
      | some after ↦ after.result
    ]
    ≡ some (97 ∷ 58 ∷ 32 ∷ 50 ∷ 10 ∷ 98 ∷ 58 ∷ 32 ∷ 51 ∷ 10 ∷ [])
unfolding run_single split_input split split_loop scan_lines drop_cr byte_length create_splits
    do_all do_map_job lookup insert create_all do_map partitions partition map_func fields_func
    do_reduce_job open_parts reduced reduce_keys sort_strings insert_sorted text_leb read_files
    read_file add_pair merge merge_files merge_file print_pairs sorted_pairs reduce_func add_values
    atoi itoa read_digits show_digits bytes_beq jobs_from
printed_three = refl
