-- ===== src/MapReduce/Split/Lines.antt =====
-- The text that the files of `Split` of project-3/src/mapreduce/mapreduce.go hold together.
use dsystem_homework.Base.{
  ℕ, zero, suc, ◌+◌, ◌*◌, ◌/◌, ◌≡◌, refl, ap, sym, ◌∙◌, ◌⊎◌, inl, inr, ltb, List, [], ◌∷◌, ◌++◌,
  some, append_assoc, Bool-cases, All,
}
use dsystem_homework.MapReduce.Text.{Text, byte_length}
use dsystem_homework.MapReduce.Split.{newline, scan_lines, split_loop, split}

unfoldable pub join : List Text → Text
join [] = []
join (file ∷ files) = file ++ join files

-- The lines as they are written, each with a newline.
unfoldable pub unlines : List Text → Text
unlines [] = []
unlines (line ∷ lines) = line ++ newline ∷ unlines lines

line_first : (line rest : Text) → (line ++ newline ∷ []) ++ rest ≡ line ++ newline ∷ rest
line_first line rest = append_assoc line (newline ∷ []) rest

join-split_loop :
    (nchunk m i : ℕ) (file : Text) (lines : List Text)
    → join (split_loop nchunk m i file lines) ≡ file ++ unlines lines
unfolding join unlines split_loop
join-split_loop nchunk m i file [] = refl
join-split_loop nchunk m i file (text ∷ texts) =
    let line = text ++ newline ∷ [] in
    elim (Bool-cases (ltb (nchunk * m) i)) [
      | inl full ↦ rw full (
          ap (◌++◌ file) (
            join-split_loop nchunk (suc m) (i + byte_length line) line texts
            ∙ line_first text (unlines texts)))
      | inr room ↦ rw room (
          join-split_loop nchunk m (i + byte_length line) (file ++ line) texts
          ∙ append_assoc file line (unlines texts)
          ∙ ap (◌++◌ file) (line_first text (unlines texts)))
    ]

-- A text is empty or ends a line.
unfoldable pub EndsLine : Text → Type 0
EndsLine t = (t ≡ []) ⊎ ((front : Text) × (t ≡ front ++ newline ∷ []))

split_loop-EndsLine :
    (nchunk m i : ℕ) (file : Text) (lines : List Text)
    → EndsLine file
    → All EndsLine (split_loop nchunk m i file lines)
unfolding split_loop EndsLine
split_loop-EndsLine nchunk m i file [] ends = (ends, tt)
split_loop-EndsLine nchunk m i file (text ∷ texts) ends =
    let line = text ++ newline ∷ [] in
    elim (Bool-cases (ltb (nchunk * m) i)) [
      | inl full ↦ rw full (
        ends,
        split_loop-EndsLine nchunk (suc m) (i + byte_length line) line texts (inr (text, refl)),
      )
      | inr room ↦ rw room (
          split_loop-EndsLine nchunk m (i + byte_length line) (file ++ line) texts
            (inr (file ++ text, sym (append_assoc file text (newline ∷ [])))))
    ]

-- The files hold the lines that the scanner gives, and each of them is empty or ends a line.
pub join-split :
    (n_map : ℕ) (input : Text) {files : List Text}
    → split n_map input ≡ some files
    → (join files ≡ unlines (scan_lines [] input)) × All EndsLine files
unfolding split EndsLine
join-split zero input h = cc
join-split (suc n) input {files} h =
    let lines = scan_lines [] input in
    let nchunk = suc (byte_length input / suc n) in
    let same : split_loop nchunk 1 0 [] lines ≡ files = cc in
    rw (← same)
      (join-split_loop nchunk 1 0 [] lines, split_loop-EndsLine nchunk 1 0 [] lines (inl refl))
