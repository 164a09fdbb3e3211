-- ===== src/MapReduce/WordCount/Fields.antt =====
-- The words of a text, in the word count of project-3/src/main/wc.go: a line end or a file's end
-- parts no word, and a carriage return is no letter.
use dsystem_homework.Base.{
  ℕ, ◌+◌, ◌<◌, ◌≡◌, refl, ap, sym, ◌∙◌, inl, inr, false, nat_beq, nat_beq_iff, leb, List, [], ◌∷◌,
  ◌++◌, append_assoc, append-nil, Bool, Bool-cases, arith, if◌then◌else◌,
}
use dsystem_homework.MapReduce.Text.{Text, byte_length-append, byte_length, width}
use dsystem_homework.MapReduce.Split.{newline, carriage_return, drop_cr, scan_lines, max_token_size}
use dsystem_homework.MapReduce.Split.Lines.{unlines}
use dsystem_homework.MapReduce.WordCount.{add_field, fields_func}

-- Every line fits the buffer of the scanner, behind `used` bytes of the current line.
abbrev pub LinesFit : ℕ → Text → Type 0
LinesFit used [] = Unit
LinesFit used (c ∷ rest) =
    if nat_beq c newline
    then LinesFit 0 rest
    else (used + width c < max_token_size) × LinesFit (used + width c) rest

add_field-append :
    (word : Text) (xs ys : List Text) → add_field word xs ++ ys ≡ add_field word (xs ++ ys)
add_field-append [] xs ys = refl
add_field-append (c ∷ word) xs ys = refl

module _ (is_letter : ℕ → Bool) where
  -- What is behind a character that is no letter begins a new word.
  pub fields_func-parted :
      (sep : ℕ) (word a b : Text)
      → is_letter sep ≡ false
      → fields_func is_letter word (a ++ sep ∷ b)
        ≡ fields_func is_letter word a ++ fields_func is_letter [] b
  unfolding fields_func
  fields_func-parted sep word [] b parts =
      rw parts (sym (add_field-append word [] (fields_func is_letter [] b)))
  fields_func-parted sep word (c ∷ a) b parts = elim (Bool-cases (is_letter c)) [
    | inl letter ↦ rw letter (fields_func-parted sep (word ++ c ∷ []) a b parts)
    | inr other ↦ rw other (
        ap (add_field word) (fields_func-parted sep [] a b parts)
        ∙ sym (add_field-append word (fields_func is_letter [] a) (fields_func is_letter [] b)))
  ]

  fields_func-drop_cr :
      (word line : Text)
      → is_letter carriage_return ≡ false
      → fields_func is_letter word (drop_cr line) ≡ fields_func is_letter word line
  unfolding fields_func drop_cr
  fields_func-drop_cr word [] parts = refl
  fields_func-drop_cr word (c ∷ []) parts = ground (arith, parts)
  fields_func-drop_cr word (c ∷ d ∷ line) parts = ground (
    arith,
    fields_func-drop_cr (word ++ c ∷ []) (d ∷ line) parts,
    fields_func-drop_cr [] (d ∷ line) parts,
  )

  -- Scanning for lines, and writing them out again, keeps the words.
  pub fields_func-unlines :
      (line input : Text)
      → is_letter newline ≡ false
      → is_letter carriage_return ≡ false
      → LinesFit (byte_length line) input
      → fields_func is_letter [] (unlines (scan_lines line input))
        ≡ fields_func is_letter [] (line ++ input)
  unfolding unlines scan_lines byte_length fields_func
  fields_func-unlines [] [] n r fit = refl
  fields_func-unlines (d ∷ line) [] n r fit =
      fields_func-parted newline [] (drop_cr (d ∷ line)) [] n
      ∙ append-nil _
      ∙ fields_func-drop_cr [] (d ∷ line) r
      ∙ ap (fields_func is_letter []) (sym (append-nil (d ∷ line)))
  fields_func-unlines line (c ∷ input) n r fit = elim (Bool-cases (nat_beq c newline)) [
    | inl ends ↦
        let is_newline : c ≡ newline = (nat_beq_iff c newline).0 ends in
        let behind : LinesFit 0 input = rw ends at fit in
        rw ends (
          fields_func-parted newline [] (drop_cr line) (unlines (scan_lines [] input)) n
          ∙ ap (◌++◌ (fields_func is_letter [] (drop_cr line)))
              (fields_func-unlines [] input n r behind)
          ∙ ap (λ ws. ws ++ fields_func is_letter [] input) (fields_func-drop_cr [] line r)
          ∙ sym (fields_func-parted c [] line input (rw is_newline n)))
    | inr goes ↦
        let both : (byte_length line + width c < max_token_size)
            × LinesFit (byte_length line + width c) input =
          rw goes at fit in
        let room : leb max_token_size (byte_length line + width c) ≡ false =
          ground (arith, both.0) in
        let longer : byte_length (line ++ c ∷ []) ≡ byte_length line + width c =
          omega (arith, byte_length-append line (c ∷ [])) in
        rw (goes, room)
          (fields_func-unlines (line ++ c ∷ []) input n r (rw longer both.1)
            ∙ ap (fields_func is_letter []) (append_assoc line (c ∷ []) input))
  ]
