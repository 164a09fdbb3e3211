-- ===== src/MapReduce/Split.antt =====
-- project-3/src/mapreduce/mapreduce.go: `Split`, which cuts the input into the files of the map jobs.
-- Its lines are those of a bufio.Scanner, which ends without an error at a line that does not fit
-- its buffer of 65536 bytes; `Split` does not ask for the scanner's error.

pub mod Lines
pub mod Sizes
use dsystem_homework.Base.{
  ℕ, zero, suc, ◌+◌, ◌*◌, ◌/◌, nat_beq, ltb, leb, List, [], ◌∷◌, ◌++◌, Option, none, some,
  if◌then◌else◌, is_empty,
}
use dsystem_homework.MapReduce.Text.{Text, width, byte_length}

abbrev pub newline : ℕ
newline = 10

abbrev pub carriage_return : ℕ
carriage_return = 13

-- The scanner takes a carriage return off the end of a line.
unfoldable pub drop_cr : Text → Text
drop_cr [] = []
drop_cr (c ∷ []) = if nat_beq c carriage_return then [] else c ∷ []
drop_cr (c ∷ d ∷ cs) = c ∷ drop_cr (d ∷ cs)

abbrev pub max_token_size : ℕ
max_token_size = 65536

-- The lines that the scanner gives, behind `line`, what it has read of the current one.
unfoldable pub scan_lines : Text → Text → List Text
scan_lines line [] = if is_empty line then [] else drop_cr line ∷ []
scan_lines line (c ∷ rest) =
    let ended = scan_lines [] rest in
    let longer = scan_lines (line ++ c ∷ []) rest in
    if nat_beq c newline
    then drop_cr line ∷ ended
    else if leb max_token_size (byte_length line + width c)
    then []
    else longer

-- The loop of `Split` behind `i` bytes, with `m` files created and `file` in the last of them: the
-- contents of that file and of the ones that follow.
unfoldable pub split_loop : ℕ → ℕ → ℕ → Text → List Text → List Text
split_loop nchunk m i file [] = file ∷ []
split_loop nchunk m i file (text ∷ texts) =
    let line = text ++ newline ∷ [] in
    let full = ltb (nchunk * m) i in
    let rest =
      split_loop nchunk (if full then suc m else m) (i + byte_length line)
        (if full then line else file ++ line) texts in
    if full then file ∷ rest else rest

-- `Split`: the contents of the files that it creates for the map jobs 0, 1 and so on. With no map
-- jobs it divides by zero.
unfoldable pub split : ℕ → Text → Option (List Text)
split zero input = none
split (suc n) input =
    some (split_loop (suc (byte_length input / suc n)) 1 0 [] (scan_lines [] input))
