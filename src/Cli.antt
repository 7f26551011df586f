-- ===== src/Cli.antt =====
-- crates/ruxmsg-cli/src: the command line client.
pub mod Text
pub mod Scrollback
pub mod Commands
pub mod Config
