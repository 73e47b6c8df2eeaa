-- ===== src/Cli.antt =====
-- src/internal/cli and src/cmd/peermesh: the command line.
pub mod Commands
pub mod Interactive
