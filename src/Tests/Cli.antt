-- ===== src/Tests/Cli.antt =====
-- src/internal/cli/ on a host called "Box". ToLower is a function on ASCII letters.
use peer_mesh.Prelude.{
  ◌+◌, ◌≡◌, refl, ◌&&◌, some, List, [], ◌∷◌, ◌++◌, ok, leb, length, if◌then◌else◌,
}
use peer_mesh.Cli.Commands.{
  Text, codes, name_requires_value, join_options, generate_peer_id, host_hash, new_cli, run,
  command_runs,
}
use peer_mesh.Cli.Commands.Join.{
  Setting, sets_server, ignores, Understood, join_options-render, join_options-Understood,
}
use peer_mesh.Cli.Commands.PeerId.{AreDigits, read_decimal, generate_peer_id-digits}
use peer_mesh.Cli.Interactive.{round, run_words, parse_command, main, interactive_runs}
use peer_mesh.Cli.Interactive.Session.{round-words}

abbrev lower : Text → Text
lower [] = []
lower (c ∷ cs) = (if leb 65 c && leb c 90 then c + 32 else c) ∷ lower cs

abbrev box : Text
box = codes "Box"

id_run : generate_peer_id (some box) lower ≡ codes "box-6987"
unfolding command_runs
id_run = refl

abbrev settings : List Setting
settings = sets_server (codes "a:1") ∷ ignores (codes "now") ∷ sets_server (codes "b:2") ∷ []

join_options-render_example :
    join_options
      (codes "--server" ∷ codes "a:1" ∷ codes "now" ∷ codes "--server" ∷ codes "b:2" ∷ [])
      (codes "localhost:8080")
      (codes "peer")
    ≡ ok (codes "b:2", codes "peer")
unfolding command_runs
join_options-render_example =
    join_options-render settings (codes "localhost:8080") (codes "peer") (refl, tt)

join_options-Understood_example :
    Understood (codes "now" ∷ codes "--name" ∷ []) (codes "localhost:8080") (codes "peer")
join_options-Understood_example =
    join_options-Understood (codes "now" ∷ codes "--name" ∷ []) (codes "localhost:8080")
      (codes "peer")

generate_peer_id-digits_example :
    (digits : Text) × (generate_peer_id (some box) lower ≡ lower box ++ (45 ∷ digits))
    × (length digits ≡ 4)
    × (read_decimal 0 digits ≡ host_hash 0 box)
    × AreDigits digits
generate_peer_id-digits_example = generate_peer_id-digits (some box) lower

name_run :
    (run (some box) lower new_cli (codes "join" ∷ codes "--name" ∷ [])).error
    ≡ some name_requires_value
unfolding command_runs
name_run = refl

unknown_run : (main (some box) lower (codes "go" ∷ []) []).1 ≡ 1
unfolding interactive_runs
unknown_run = refl

words_run :
    parse_command (codes "  join  --name x ") ≡ codes "join" ∷ codes "--name" ∷ codes "x" ∷ []
unfolding interactive_runs
words_run = refl

round-words_example :
    round (some box) lower new_cli (codes "  version ")
    ≡ run_words (some box) lower new_cli (codes "version" ∷ [])
unfolding interactive_runs
round-words_example = round-words (some box) lower new_cli (codes "  version ")

quit_run : parse_command (codes " quit now") ≡ codes "quit" ∷ codes "now" ∷ []
unfolding interactive_runs
quit_run = refl
