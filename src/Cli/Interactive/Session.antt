-- ===== src/Cli/Interactive/Session.antt =====
-- The rounds of the interactive loop.
use peer_mesh.Prelude.{
  ℕ, ◌≡◌, refl, ap, sym, ◌∙◌, true, false, Option, List, [], ◌∷◌, ◌++◌, ◌⊎◌, inl, inr, Bool-cases,
  ◌==◌, list_eq, list_beq, list_beq_iff,
}
use peer_mesh.Cli.Commands.{Text, codes, Cli}
use peer_mesh.Cli.Interactive.{
  InteractiveCli, is_space, trim_left, trim_right, keep_right, trim_space, close_word, words,
  parse_command, ends, run_words, round, after_round, loop,
}

words_space :
    (w : Text) (c : ℕ) (cs : Text)
    → is_space c ≡ true
    → words w (c ∷ cs) ≡ close_word w (words [] cs)
unfolding words
words_space w c cs e = rw (e, words) refl

words_letter :
    (w : Text) (c : ℕ) (cs : Text) → is_space c ≡ false → words w (c ∷ cs) ≡ words (w ++ c ∷ []) cs
unfolding words
words_letter w c cs e = rw (e, words) refl

words-trim_left : (s : Text) → words [] (trim_left s) ≡ words [] s
unfolding trim_left
words-trim_left [] = refl
words-trim_left (c ∷ cs) = elim (Bool-cases (is_space c)) [
  | inl space ↦ rw (words_space [] c cs space) (rw space (words-trim_left cs))
  | inr letter ↦ rw letter refl
]

-- With the end of a text trimmed, one more character in front.
words-keep_right :
    (w : Text) (c : ℕ) (cs t : Text)
    → ((v : Text) → words v t ≡ words v cs)
    → words w (keep_right c t) ≡ words w (c ∷ cs)
words-keep_right w c cs [] ih = elim (Bool-cases (is_space c)) [
  | inl space ↦ rw (words_space w c cs space, space) (unfold words in ap (close_word w) (ih []))
  | inr letter ↦
      rw (words_letter w c cs letter, letter) (words_letter w c [] letter ∙ ih (w ++ c ∷ []))
]
words-keep_right w c cs (d ∷ ds) ih = elim (Bool-cases (is_space c)) [
  | inl space ↦
      rw (words_space w c cs space) (words_space w c (d ∷ ds) space ∙ ap (close_word w) (ih []))
  | inr letter ↦
      rw (words_letter w c cs letter) (words_letter w c (d ∷ ds) letter ∙ ih (w ++ c ∷ []))
]

words-trim_right : (w s : Text) → words w (trim_right s) ≡ words w s
unfolding trim_right
words-trim_right w [] = refl
words-trim_right w (c ∷ cs) = words-keep_right w c cs (trim_right cs) (λ v. words-trim_right v cs)

parse_command-trim_space : (s : Text) → parse_command (trim_space s) ≡ parse_command s
unfolding parse_command trim_space
parse_command-trim_space s = words-trim_right [] (trim_left s) ∙ words-trim_left s

module _ (hostname : Option Text) (to_lower : Text → Text) where
  -- A round is a run of the line's words alone: TrimSpace and the test for an empty text change nothing,
  -- as an empty list of words shows nothing either.
  pub round-words :
      (c : Cli) (input : Text)
      → round hostname to_lower c input ≡ run_words hostname to_lower c (parse_command input)
  unfolding round
  round-words c input = elim (Bool-cases (trim_space input == [])) [
    | inl e ↦
        let empty : trim_space input ≡ [] = (list_beq_iff (trim_space input) []).0 e in
        let none_left : parse_command input ≡ [] =
          sym (parse_command-trim_space input)
          ∙ ap parse_command empty
          ∙ unfold parse_command words in refl in
        rw (e, none_left) refl
    | inr ne ↦ rw ne (ap (run_words hostname to_lower c) (parse_command-trim_space input))
  ]

  round-ends :
      (c : Cli) (input name : Text) (args : List Text)
      → parse_command input ≡ name ∷ args
      → (name ≡ codes "exit") ⊎ (name ≡ codes "quit")
      → round hostname to_lower c input ≡ ends
  unfolding run_words list_beq
  round-ends c input name args e (inl q) = round-words c input ∙ rw (e, q) refl
  round-ends c input name args e (inr q) = round-words c input ∙ rw (e, q) refl

  -- A line whose first word is exit or quit ends the loop: what would be read after it makes no
  -- difference.
  pub loop-exit :
      (i : InteractiveCli) (before after : List Text) (input name : Text) (args : List Text)
      → parse_command input ≡ name ∷ args
      → (name ≡ codes "exit") ⊎ (name ≡ codes "quit")
      → loop hostname to_lower i (before ++ input ∷ after)
        ≡ loop hostname to_lower i (before ++ input ∷ [])
  unfolding loop
  loop-exit i [] after input name args e q = rw (round-ends i.cli input name args e q) refl
  loop-exit i (b ∷ before) after input name args e q =
      ap (after_round i.prompt (round hostname to_lower i.cli b))
        (loop-exit i before after input name args e q)
