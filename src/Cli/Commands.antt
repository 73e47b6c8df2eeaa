-- ===== src/Cli/Commands.antt =====
-- src/internal/cli/commands.go: CLI. A text is its list of code points. What a handler prints is a list of
-- lines, a format with the values put in. strings.ToLower and the host's name are parameters.
pub mod Join
pub mod PeerId
use Prim.Native.Char.{code}
use Prim.Native.String.{String}
use peer_mesh.Prelude.{
  ℕ, zero, suc, ◌+◌, ◌-◌, ◌*◌, ◌/◌, ◌%◌, Bool, true, false, not, Option, none, some, List, [], ◌∷◌,
  ◌++◌, length, replicate, ltb, ◌==◌, list_eq, list_beq, if◌then◌else◌, Result, ok, err,
}
use peer_mesh.Prelude.Assoc.{Assoc, lookup, insert}

abbrev pub Text : Type 0
Text = List ℕ

-- The code points of a literal.
abbrev pub codes : String → Text
codes String.[] = []
codes (String.◌∷◌ c s) = code c ∷ codes s

pub data Error : Type 0 where
  unknown_command unknown_help_topic : Text → Error
  server_requires_value name_requires_value : Error
  failed : ℕ → Error

-- A line of a format that takes values; the others are as they are.
pub data Line : Type 0 where
  line : Text → Line
  usage_line description_line server_line name_line : Text → Line
  command_line : Text → Text → Line

-- What a handler has printed, and its error.
pub record Ran : Type 0 where
  pub lines : List Line
  pub error : Option Error

abbrev pub prints : List Line → Ran
prints lines = record { lines = lines; error = none }

-- The methods of CLI that are handlers, and functions that a user registers.
pub data Handler : Type 0 where
  help version join leave status peers : Handler
  custom : (List Text → Ran) → Handler

pub record Command : Type 0 where
  pub name : Text
  pub description : Text
  pub usage : Text
  pub handler : Handler

pub record Cli : Type 0 where
  pub commands : Assoc Text Command

unfoldable pub register_command : Cli → Command → Cli
register_command c command = record { commands = insert command.name command c.commands }

abbrev pub default_command : String → String → String → Handler → Command
default_command name description usage handler = record {
  name = codes name;
  description = codes description;
  usage = codes usage;
  handler = handler;
}

unfoldable pub register_all : Cli → List Command → Cli
unfolding register_command
register_all c [] = c
register_all c (command ∷ commands) = register_all (register_command c command) commands

abbrev pub default_commands : List Command
default_commands =
    default_command "help" "Show help information" "help [command]" help
    ∷ default_command "version" "Show version information" "version" version
    ∷ default_command "join" "Join the peer-to-peer network"
        "join [--server <discovery-server>] [--name <peer-name>]" join
    ∷ default_command "leave" "Leave the peer-to-peer network" "leave" leave
    ∷ default_command "status" "Show network status" "status" status
    ∷ default_command "peers" "List connected peers" "peers" peers
    ∷ []

unfoldable pub register_default_commands : Cli → Cli
unfolding register_all
register_default_commands c = register_all c default_commands

unfoldable pub new_cli : Cli
unfolding register_default_commands
new_cli = register_default_commands (record { commands = [] })

unfoldable pub help_on : Text → Option Command → Ran
help_on topic none = record { lines = []; error = some (unknown_help_topic topic) }
help_on topic (some command) =
    prints (usage_line command.usage ∷ description_line command.description ∷ [])

abbrev pub command_lines : Assoc Text Command → List Line
command_lines [] = []
command_lines ((name, command) ∷ m) =
    command_line command.name command.description ∷ command_lines m

unfoldable pub handle_help : Cli → List Text → Ran
unfolding help_on
handle_help c (topic ∷ args) = help_on topic (lookup topic c.commands)
handle_help c [] = prints (
    line (codes "PeerMesh - Zero-configuration P2P VPN")
      ∷ line []
      ∷ line (codes "Available commands:")
      ∷ line []
      ∷ command_lines c.commands
    ++ (line []
        ∷ line (codes "Use 'help <command>' for detailed information about a command")
        ∷ []))

unfoldable pub handle_version : List Text → Ran
handle_version args =
    prints
      (line (codes "PeerMesh v0.1.0") ∷ line (codes "Zero-configuration peer-to-peer VPN") ∷ [])

unfoldable pub handle_leave : List Text → Ran
handle_leave args = prints (
    line (codes "Leaving peer-to-peer network...")
    ∷ line (codes "Leave functionality will be implemented in the next phase")
    ∷ [])

unfoldable pub handle_status : List Text → Ran
handle_status args = prints (
    line (codes "Network Status:")
    ∷ line (codes "===============")
    ∷ line (codes "Status: Not connected")
    ∷ line (codes "Discovery Server: None")
    ∷ line (codes "Connected Peers: 0")
    ∷ line (codes "VPN Interface: Down")
    ∷ line []
    ∷ line (codes "Status functionality will be implemented in the next phase")
    ∷ [])

unfoldable pub handle_peers : List Text → Ran
handle_peers args = prints (
    line (codes "Connected Peers:")
    ∷ line (codes "================")
    ∷ line (codes "No peers connected")
    ∷ line []
    ∷ line (codes "Peers functionality will be implemented in the next phase")
    ∷ [])

-- What the switch on an argument of join tells apart.
pub data OptionKind : Type 0 where
  server_option name_option other_word : OptionKind

unfoldable pub option_kind : Text → OptionKind
option_kind word =
    if word == codes "--server"
    then server_option
    else if word == codes "--name"
    then name_option
    else other_word

-- The loop over the arguments, with the server's address and the peer's name so far.
unfoldable pub join_options : List Text → Text → Text → Result Error (Text × Text)
join_options [] server name = ok (server, name)
join_options (word ∷ []) server name = elim (option_kind word) [
  | server_option ↦ err server_requires_value
  | name_option ↦ err name_requires_value
  | other_word ↦ ok (server, name)
]
join_options (word ∷ value ∷ args) server name = elim (option_kind word) [
  | server_option ↦ join_options args value name
  | name_option ↦ join_options args server value
  | other_word ↦ join_options (value ∷ args) server name
]

abbrev pub joining : Line
joining = line (codes "Joining peer-to-peer network...")

unfoldable pub joined : Result Error (Text × Text) → Ran
joined (err e) = record { lines = joining ∷ []; error = some e }
joined (ok (server, name)) = prints (
    joining
    ∷ server_line server
    ∷ name_line name
    ∷ line (codes "Join functionality will be implemented in the next phase")
    ∷ [])

-- The loop of generatePeerID over the name's code points.
unfoldable pub host_hash : ℕ → Text → ℕ
host_hash hash [] = hash
host_hash hash (c ∷ cs) = host_hash ((hash * 31 + c) % 10000) cs

-- Decimal digits, with as many rounds as there may be digits, and the format %04d.
unfoldable pub decimal : ℕ → ℕ → Text
decimal zero n = []
decimal (suc rounds) n =
    let rest = decimal rounds (n / 10) in
    if ltb n 10 then (n + 48) ∷ [] else rest ++ ((n % 10 + 48) ∷ [])

unfoldable pub padded : ℕ → Text
unfolding decimal
padded n = replicate (4 - length (decimal 20 n)) 48 ++ decimal 20 n

module _ (hostname : Option Text) (to_lower : Text → Text) where
  abbrev pub host : Text
  host = elim hostname [ none ↦ codes "unknown" | some name ↦ name ]

  unfoldable pub generate_peer_id : Text
  unfolding host_hash padded
  generate_peer_id = to_lower host ++ (45 ∷ padded (host_hash 0 host))

  unfoldable pub handle_join : List Text → Ran
  unfolding join_options joined
  handle_join args =
      joined (join_options args (codes "localhost:8080") (codes "peer-" ++ generate_peer_id))

  unfoldable pub run_handler : Cli → Handler → List Text → Ran
  unfolding handle_help handle_version handle_leave handle_status handle_peers
  run_handler c help args = handle_help c args
  run_handler c version args = handle_version args
  run_handler c join args = handle_join args
  run_handler c leave args = handle_leave args
  run_handler c status args = handle_status args
  run_handler c peers args = handle_peers args
  run_handler c (custom f) args = f args

  unfoldable pub run_found : Cli → Text → List Text → Option Command → Ran
  unfolding run_handler
  run_found c name args none = record { lines = []; error = some (unknown_command name) }
  run_found c name args (some command) = run_handler c command.handler args

  unfoldable pub run : Cli → List Text → Ran
  unfolding run_found
  run c [] = handle_help c []
  run c (name ∷ args) = run_found c name args (lookup name c.commands)

-- What a run of the functions above opens.
unfoldable pub command_runs : ℕ
unfolding list_beq lookup insert new_cli option_kind generate_peer_id handle_join run
command_runs = 0
