-- ===== src/Cli/Commands.antt =====
-- crates/ruxmsg-cli/src/commands.rs: the commands of the prompt and their parser. An error is its
-- text.
pub mod RoundTrip
use ruxmsg.Prelude.{
  ℕ, List, [], ◌∷◌, ◌++◌, Option, some, none, Bool, true, false, not, ◌&&◌, ◌||◌, if◌then◌else◌,
  bytes_eq, drop, ◌⊎◌, inl, inr, String,
}
use ruxmsg.Crypto.{ascii}
use ruxmsg.Cli.Text.{Text, is_empty, trim_start, trim, split_whitespace, split_once}

pub data ProfileCommand : Type 0 where
  init_profile use_profile : Text → ProfileCommand
  list_profiles : ProfileCommand

pub data TailscaleCommand : Type 0 where
  status_command up_command ip_command : TailscaleCommand

pub data Command : Type 0 where
  profile : ProfileCommand → Command
  start : Text → Command
  stop : Command
  connect : Text → Command
  peers : Command
  use_peer : Text → Command
  message : Text → Text → Command
  close rekey_peer : Text → Command
  fingerprint : Option Text → Command
  session : Text → Command
  chat : Option Text → Command
  tailscale : TailscaleCommand → Command
  help quit : Command

abbrev pub Parsed : Type 0
Parsed = Text ⊎ Command

unfoldable pub no_args : List Text → Command → String → Parsed
no_args [] command usage = inr command
no_args (w ∷ ws) command usage = inl (ascii "usage: " ++ ascii usage)

-- `words.next()` with a usage for none, and no further word.
unfoldable pub one_arg : List Text → (Text → Command) → String → Parsed
one_arg (w ∷ []) command usage = inr (command w)
one_arg _ command usage = inl (ascii usage)

unfoldable pub optional_arg : List Text → (Option Text → Command) → String → Parsed
optional_arg [] command usage = inr (command none)
optional_arg (w ∷ []) command usage = inr (command (some w))
optional_arg _ command usage = inl (ascii usage)

unfoldable pub parse_start : List Text → Parsed
parse_start [] = inr (start (ascii "127.0.0.1:4443"))
parse_start (flag ∷ addr ∷ []) =
    if bytes_eq flag (ascii "--addr")
    then inr (start addr)
    else inl (ascii "usage: start [--addr <addr>]")
parse_start _ = inl (ascii "usage: start [--addr <addr>]")

unfoldable pub parse_profile : List Text → Parsed
parse_profile [] = inl (ascii "usage: profile <init|use|list> ...")
parse_profile (w ∷ ws) =
    if bytes_eq w (ascii "init")
    then one_arg ws (λ name. profile (init_profile name)) "usage: profile init <name>"
    else if bytes_eq w (ascii "use")
    then one_arg ws (λ name. profile (use_profile name)) "usage: profile use <name>"
    else if bytes_eq w (ascii "list")
    then no_args ws (profile list_profiles) "profile list"
    else inl (ascii "usage: profile <init|use|list> ...")

unfoldable pub tailscale_word : Text → Parsed
tailscale_word w =
    if bytes_eq w (ascii "status")
    then inr (tailscale status_command)
    else if bytes_eq w (ascii "up")
    then inr (tailscale up_command)
    else if bytes_eq w (ascii "ip")
    then inr (tailscale ip_command)
    else inl (ascii "usage: tailscale <status|up|ip>")

unfoldable pub parse_tailscale : List Text → Parsed
parse_tailscale [] = tailscale_word (ascii "status")
parse_tailscale (w ∷ []) = tailscale_word w
parse_tailscale _ = inl (ascii "usage: tailscale <status|up|ip>")

unfoldable pub message_of : Option (Text × Text) → Parsed
message_of none = inl (ascii "usage: msg <label> <text>")
message_of (some (label, text)) =
    if is_empty label || is_empty (trim text)
    then inl (ascii "usage: msg <label> <text>")
    else inr (message label (trim text))

-- The label, and the rest of the line verbatim.
unfoldable pub parse_message : Text → Parsed
parse_message line = message_of (split_once (trim_start (drop 3 (trim_start line))))

unfoldable pub command_for : Text → List Text → Text → Parsed
command_for w ws line =
    if bytes_eq w (ascii "profile")
    then parse_profile ws
    else if bytes_eq w (ascii "start")
    then parse_start ws
    else if bytes_eq w (ascii "stop")
    then no_args ws stop "stop"
    else if bytes_eq w (ascii "connect")
    then one_arg ws connect "usage: connect <addr>"
    else if bytes_eq w (ascii "peers")
    then no_args ws peers "peers"
    else if bytes_eq w (ascii "use")
    then one_arg ws use_peer "usage: use <label>"
    else if bytes_eq w (ascii "msg")
    then parse_message line
    else if bytes_eq w (ascii "close")
    then one_arg ws close "usage: close <label>"
    else if bytes_eq w (ascii "rekey")
    then one_arg ws rekey_peer "usage: rekey <label>"
    else if bytes_eq w (ascii "fingerprint")
    then optional_arg ws fingerprint "usage: fingerprint [label]"
    else if bytes_eq w (ascii "session")
    then one_arg ws session "usage: session <label>"
    else if bytes_eq w (ascii "chat")
    then optional_arg ws chat "usage: chat [label]"
    else if bytes_eq w (ascii "tailscale")
    then parse_tailscale ws
    else if bytes_eq w (ascii "help")
    then no_args ws help "help"
    else if bytes_eq w (ascii "quit") || bytes_eq w (ascii "exit")
    then no_args ws quit "quit"
    else inl (ascii "unknown command: " ++ (w ++ ascii "; type `help`"))

unfoldable pub parse_words : List Text → Text → Parsed
parse_words [] line = command_for [] [] line
parse_words (w ∷ ws) line = command_for w ws line

unfoldable pub parse : Text → Parsed
parse line =
    let t = trim line in
    if is_empty t then inl (ascii "empty command") else parse_words (split_whitespace t) t
