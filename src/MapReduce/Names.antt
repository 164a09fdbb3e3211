-- ===== src/MapReduce/Names.antt =====
-- project-3/src/mapreduce/mapreduce.go: the names of a run's files, `MapName`, `ReduceName`, `MergeName`
-- and that of the result. They tell the files of different jobs apart, as MapReduce/Files takes it.
use dsystem_homework.Base.{
  ℕ, zero, suc, ◌+◌, ◌%◌, ◌/◌, ◌^◌, ◌<◌, ◌≤◌, ◌≡◌, refl, ap, sym, ◌∙◌, inl, inr, true, false, [],
  ◌∷◌, ◌++◌, append_assoc, append-nil, Option, none, some, nat_beq, ltb, bytes_beq, if◌then◌else◌,
  All, All-append, arith, Bool-cases,
}
use dsystem_homework.MapReduce.Text.{Text}
use dsystem_homework.MapReduce.WordCount.{itoa, atoi, show_digits}
use dsystem_homework.MapReduce.WordCount.Digits.{atoi-itoa}

-- The files of a run.
pub data FileName : Type 0 where
  of_map of_merge : ℕ → FileName
  of_reduce : ℕ → ℕ → FileName
  of_result : FileName

abbrev dash : ℕ
dash = 45

-- "mrtmp." and "res".
abbrev mrtmp : Text
mrtmp = 109 ∷ 114 ∷ 116 ∷ 109 ∷ 112 ∷ 46 ∷ []

abbrev res : Text
res = 114 ∷ 101 ∷ 115 ∷ []

unfoldable pub map_name : Text → ℕ → Text
map_name file_name map_job = (mrtmp ++ file_name) ++ dash ∷ itoa map_job

unfoldable pub reduce_name : Text → ℕ → ℕ → Text
reduce_name file_name map_job reduce_job = map_name file_name map_job ++ dash ∷ itoa reduce_job

unfoldable pub merge_name : Text → ℕ → Text
merge_name file_name reduce_job = (mrtmp ++ file_name) ++ dash ∷ (res ++ dash ∷ itoa reduce_job)

unfoldable pub name_of : Text → FileName → Text
name_of file_name (of_map i) = map_name file_name i
name_of file_name (of_reduce i r) = reduce_name file_name i r
name_of file_name (of_merge r) = merge_name file_name r
name_of file_name of_result = mrtmp ++ file_name

-- A job number is an `int` that is not negative.
abbrev pub IsJob : FileName → Type 0
IsJob (of_map i) = i < 2 ^ 63
IsJob (of_reduce i r) = (i < 2 ^ 63) × (r < 2 ^ 63)
IsJob (of_merge r) = r < 2 ^ 63
IsJob of_result = Unit

-- What stands behind the name of the input.
abbrev suffix : FileName → Text
suffix (of_map i) = dash ∷ itoa i
suffix (of_reduce i r) = dash ∷ (itoa i ++ dash ∷ itoa r)
suffix (of_merge r) = dash ∷ (res ++ dash ∷ itoa r)
suffix of_result = []

name_of-suffix :
    (file_name : Text) (f : FileName) → name_of file_name f ≡ (mrtmp ++ file_name) ++ suffix f
unfolding name_of map_name reduce_name merge_name
name_of-suffix file_name (of_map i) = refl
name_of-suffix file_name (of_reduce i r) =
    append_assoc (mrtmp ++ file_name) (dash ∷ itoa i) (dash ∷ itoa r)
name_of-suffix file_name (of_merge r) = refl
name_of-suffix file_name of_result = sym (append-nil (mrtmp ++ file_name))

abbrev IsDigit : ℕ → Type 0
IsDigit c = (48 ≤ c) × (c ≤ 57)

show_digits-IsDigit : (more n : ℕ) → All IsDigit (show_digits more n)
unfolding show_digits
show_digits-IsDigit zero n = tt
show_digits-IsDigit (suc more) n =
    let last : All IsDigit ((48 + n % 10) ∷ []) = ((omega arith, omega arith), tt) in
    let front = show_digits-IsDigit more (n / 10) in
    elim (Bool-cases (ltb n 10)) [
      | inl short ↦ rw short last
      | inr long ↦ rw long (All-append IsDigit (show_digits more (n / 10)) _ front last)
    ]

itoa-IsDigit : (n : ℕ) → n < 2 ^ 63 → All IsDigit (itoa n)
unfolding itoa
itoa-IsDigit n small =
    let pos : ltb n (2 ^ 63) ≡ true = ground arith in rw pos (show_digits-IsDigit 20 n)

-- The text in front of the first dash, and the one behind it.
abbrev begin_with : ℕ → Text × Option Text → Text × Option Text
begin_with c (front, back) = (c ∷ front, back)

unfoldable split_dash : Text → Text × Option Text
split_dash [] = ([], none)
split_dash (c ∷ cs) =
    let rest = split_dash cs in if nat_beq c dash then ([], some cs) else begin_with c rest

split_dash-digits : (ds : Text) → All IsDigit ds → split_dash ds ≡ (ds, none)
unfolding split_dash
split_dash-digits [] all = refl
split_dash-digits (c ∷ ds) (digit, all) =
    let other : nat_beq c dash ≡ false = ground arith in rw (other, split_dash-digits ds all) refl

split_dash-append :
    (ds rest : Text) → All IsDigit ds → split_dash (ds ++ dash ∷ rest) ≡ (ds, some rest)
unfolding split_dash
split_dash-append [] rest all = refl
split_dash-append (c ∷ ds) rest (digit, all) =
    let other : nat_beq c dash ≡ false = ground arith in
    rw (other, split_dash-append ds rest all) refl

-- The file of a suffix.
abbrev file_of : Text × Option Text → FileName
file_of (front, none) = of_map (atoi front)
file_of (front, some back) =
    if bytes_beq front res then of_merge (atoi back) else of_reduce (atoi front) (atoi back)

abbrev read_suffix : Text → FileName
read_suffix [] = of_result
read_suffix (c ∷ cs) = file_of (split_dash cs)

no_res : (ds : Text) → All IsDigit ds → bytes_beq ds res ≡ false
unfolding bytes_beq
no_res [] all = refl
no_res (c ∷ ds) (digit, all) = ground arith

read_suffix-suffix : (f : FileName) → IsJob f → read_suffix (suffix f) ≡ f
unfolding split_dash bytes_beq
read_suffix-suffix (of_map i) job =
    ap file_of (split_dash-digits (itoa i) (itoa-IsDigit i job))
    ∙ ap of_map (atoi-itoa i (omega arith))
read_suffix-suffix (of_reduce i r) job =
    let (job_i, job_r) = job in
    ap file_of (split_dash-append (itoa i) (itoa r) (itoa-IsDigit i job_i))
    ∙ rw
        (
          no_res (itoa i) (itoa-IsDigit i job_i),
          atoi-itoa i (omega arith),
          atoi-itoa r (omega arith),
        )
        refl
read_suffix-suffix (of_merge r) job = ap of_merge (atoi-itoa r (omega arith))
read_suffix-suffix of_result job = refl

cancel_front : (front xs ys : Text) → front ++ xs ≡ front ++ ys → xs ≡ ys
cancel_front [] xs ys e = e
cancel_front (c ∷ front) xs ys e = cancel_front front xs ys cc

-- Files of a run that have the same name are the same, for job numbers below 2 ^ 63 and whatever the
-- name of the input is.
pub name_of-injective :
    (file_name : Text) (f g : FileName)
    → IsJob f
    → IsJob g
    → name_of file_name f ≡ name_of file_name g
    → f ≡ g
name_of-injective file_name f g job job' same =
    let suffixes : suffix f ≡ suffix g =
      cancel_front (mrtmp ++ file_name) (suffix f) (suffix g)
        (sym (name_of-suffix file_name f) ∙ same ∙ name_of-suffix file_name g) in
    sym (read_suffix-suffix f job) ∙ ap read_suffix suffixes ∙ read_suffix-suffix g job'
