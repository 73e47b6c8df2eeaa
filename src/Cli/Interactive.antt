-- ===== src/Cli/Interactive.antt =====
-- src/internal/cli/interactive.go: InteractiveCLI, and src/cmd/peermesh/main.go. The scanner is the list of lines
-- that it reads. Stop is called by nobody while the loop runs.
pub mod Session
use peer_mesh.Prelude.{
  ℕ, zero, suc, ◌+◌, Bool, true, false, ◌&&◌, ◌||◌, Option, none, some, List, [], ◌∷◌, ◌++◌,
  replicate, leb, ◌==◌, nat_eq, list_eq, if◌then◌else◌,
}
use peer_mesh.Cli.Commands.{Text, codes, Error, Line, line, Ran, Cli, new_cli, run, command_runs}

pub record InteractiveCli : Type 0 where
  pub cli : Cli
  pub running : Bool
  pub prompt : Text

unfoldable pub new_interactive_cli : InteractiveCli
unfolding new_cli
new_interactive_cli = record { cli = new_cli; running = true; prompt = codes "peermesh> " }

unfoldable pub set_prompt : InteractiveCli → Text → InteractiveCli
set_prompt i prompt = record i { prompt = prompt }

unfoldable pub stop : InteractiveCli → InteractiveCli
stop i = record i { running = false }

-- unicode.IsSpace
abbrev pub is_space : ℕ → Bool
is_space c =
    (leb 9 c && leb c 13)
    || (c == 32)
    || (c == 0x85)
    || (c == 0xA0)
    || (c == 0x1680)
    || (leb 0x2000 c && leb c 0x200a)
    || (c == 0x2028)
    || (c == 0x2029)
    || (c == 0x202f)
    || (c == 0x205f)
    || (c == 0x3000)

-- strings.TrimSpace
unfoldable pub trim_left : Text → Text
trim_left [] = []
trim_left (c ∷ cs) = let rest = trim_left cs in if is_space c then rest else c ∷ cs

-- A character in front of a text whose end is trimmed.
abbrev pub keep_right : ℕ → Text → Text
keep_right c [] = if is_space c then [] else c ∷ []
keep_right c (d ∷ ds) = c ∷ d ∷ ds

unfoldable pub trim_right : Text → Text
trim_right [] = []
trim_right (c ∷ cs) = keep_right c (trim_right cs)

unfoldable pub trim_space : Text → Text
unfolding trim_left trim_right
trim_space s = trim_right (trim_left s)

-- strings.Fields: the words of a text, the first of which has begun with `word`.
abbrev pub close_word : Text → List Text → List Text
close_word [] words = words
close_word (c ∷ cs) words = (c ∷ cs) ∷ words

unfoldable pub words : Text → Text → List Text
words word [] = close_word word []
words word (c ∷ cs) = elim (is_space c) [
  | true ↦ close_word word (words [] cs)
  | false ↦ words (word ++ c ∷ []) cs
]

unfoldable pub parse_command : Text → List Text
unfolding words
parse_command input = words [] input

-- What the loop shows.
pub data Shown : Type 0 where
  prompted : Text → Shown
  printed : Line → Shown
  error_shown : Error → Shown

abbrev pub printed_all : List Line → List Shown
printed_all [] = []
printed_all (l ∷ ls) = printed l ∷ printed_all ls

unfoldable pub clear_screen : List Shown
clear_screen = printed_all (replicate 50 (line []))

-- A command's lines, its error and an empty line.
abbrev pub shown_run : Ran → List Shown
shown_run r = printed_all r.lines ++ elim r.error [
  | none ↦ printed (line []) ∷ []
  | some e ↦ error_shown e ∷ printed (line []) ∷ []
]

-- What a round does: it ends the loop, or goes on.
pub data Round : Type 0 where
  ends : Round
  shows : List Shown → Round

-- What a round shows behind the prompt, and the rounds that follow it.
abbrev pub after_round : Text → Round → List Shown → List Shown
after_round prompt ends rest = prompted prompt ∷ printed (line (codes "Goodbye!")) ∷ []
after_round prompt (shows out) rest = prompted prompt ∷ out ++ rest

-- os.Exit(1) after an error
unfoldable pub exit_code : Option Error → ℕ
exit_code none = 0
exit_code (some e) = 1

module _ (hostname : Option Text) (to_lower : Text → Text) where
  unfoldable pub run_words : Cli → List Text → Round
  unfolding clear_screen
  run_words c [] = shows []
  run_words c (name ∷ args) =
      if (name == codes "exit") || (name == codes "quit")
      then ends
      else if name == codes "clear"
      then shows clear_screen
      else shows (shown_run (run hostname to_lower c (name ∷ args)))

  unfoldable pub round : Cli → Text → Round
  unfolding run_words parse_command trim_space
  round c input =
      let trimmed = trim_space input in
      if trimmed == [] then shows [] else run_words c (parse_command trimmed)

  -- The loop over the lines; it also ends where the input ends.
  unfoldable pub loop : InteractiveCli → List Text → List Shown
  unfolding round
  loop i [] = prompted i.prompt ∷ []
  loop i (input ∷ inputs) = after_round i.prompt (round i.cli input) (loop i inputs)

  unfoldable pub start : InteractiveCli → List Text → List Shown
  unfolding loop
  start i inputs =
      printed (line (codes "PeerMesh Interactive CLI"))
      ∷ printed (line (codes "Type 'help' for available commands, 'exit' to quit"))
      ∷ printed (line [])
      ∷ (if i.running then loop i inputs else [])

  -- The program's output, of which an error goes to stderr, and its exit code.
  unfoldable pub main : List Text → List Text → List Shown × ℕ
  unfolding start exit_code new_interactive_cli
  main [] inputs = (
    printed (line (codes "Starting PeerMesh in interactive mode..."))
        ∷ printed (line (codes "Use 'peermesh -h' for command line usage"))
        ∷ printed (line [])
        ∷ start new_interactive_cli inputs,
    0,
  )
  main (name ∷ args) inputs =
      if (name == codes "-i") || (name == codes "--interactive")
      then (start new_interactive_cli inputs, 0)
      else let r = run hostname to_lower new_cli (name ∷ args) in
        (
          printed_all r.lines ++ elim r.error [ none ↦ [] | some e ↦ error_shown e ∷ [] ],
          exit_code r.error,
        )

-- What a run of the functions above opens.
unfoldable pub interactive_runs : ℕ
unfolding command_runs new_interactive_cli main
interactive_runs = 0
