-- ===== src/Cli/Commands/RoundTrip.antt =====
-- A command that is written out is parsed back.
use ruxmsg.Prelude.{
  ◌≡◌, refl, ap, ◌∙◌, [], ◌∷◌, some, none, false, if◌then◌else◌, bytes_eq, inl, inr,
}
use ruxmsg.Crypto.{ascii}
use ruxmsg.Cli.Text.{
  Text, is_whitespace, is_empty, trim_start, trim_end, trim, words_of, split_whitespace, split_once,
}
use ruxmsg.Cli.Commands.{
  init_profile, use_profile, list_profiles, status_command, up_command, ip_command, Command,
  profile, start, stop, connect, peers, use_peer, message, close, rekey_peer, fingerprint, session,
  chat, tailscale, help, quit, Parsed, no_args, one_arg, optional_arg, parse_start, parse_profile,
  tailscale_word, parse_tailscale, message_of, parse_message, command_for, parse_words, parse,
}
use ruxmsg.Cli.Text.Words.{
  trim_start-append, trim_end_solid, full-append, trim_end-append, split_word, split-after_blank,
  split_once_word, trim-after_blank, is_solid, IsWord, IsTrimmed, after_blank,
}

abbrev parsed_from : Text → Parsed
parsed_from t =
    if is_empty t then inl (ascii "empty command") else parse_words (split_whitespace t) t

-- A command word with what follows it.
parse-after_blank :
    (w t : Text)
    → IsWord w
    → trim_end t ≡ t
    → is_empty t ≡ false
    → parse (after_blank w t) ≡ command_for w (split_whitespace t) (after_blank w t)
unfolding parse parse_words
parse-after_blank w t h e f =
    ap parsed_from (trim-after_blank w t h e f)
    ∙ ap
        (λ b.
          if b
          then inl (ascii "empty command")
          else parse_words (split_whitespace (after_blank w t)) (after_blank w t))
        (full-append w (32 ∷ t) refl)
    ∙ ap (λ ws. parse_words ws (after_blank w t)) (split-after_blank w t h)

-- With one word after the command, or two.
parse_one :
    (k w : Text)
    → IsWord k
    → IsWord w
    → parse (after_blank k w) ≡ command_for k (w ∷ []) (after_blank k w)
parse_one k w h i =
    parse-after_blank k w h (trim_end_solid w i.0) i.1
    ∙ ap (λ ws. command_for k ws (after_blank k w)) (split_word w i)

parse_two :
    (k v w : Text)
    → IsWord k
    → IsWord v
    → IsWord w
    → parse (after_blank k (after_blank v w))
      ≡ command_for k (v ∷ w ∷ []) (after_blank k (after_blank v w))
parse_two k v w h g i =
    parse-after_blank k (after_blank v w) h
      (trim_end-append v (32 ∷ w) (trim_end-append (32 ∷ []) w (trim_end_solid w i.0) i.1) refl)
      (full-append v (32 ∷ w) refl)
    ∙ ap (λ ws. command_for k ws (after_blank k (after_blank v w)))
        (split-after_blank v w g ∙ ap (λ ws. v ∷ ws) (split_word w i))

-- How a command is written.
unfoldable pub print : Command → Text
print (profile (init_profile name)) =
    after_blank (ascii "profile") (after_blank (ascii "init") name)
print (profile (use_profile name)) = after_blank (ascii "profile") (after_blank (ascii "use") name)
print (profile list_profiles) = ascii "profile list"
print (start addr) = after_blank (ascii "start") (after_blank (ascii "--addr") addr)
print stop = ascii "stop"
print (connect addr) = after_blank (ascii "connect") addr
print peers = ascii "peers"
print (use_peer label) = after_blank (ascii "use") label
print (message label text) = after_blank (ascii "msg") (after_blank label text)
print (close label) = after_blank (ascii "close") label
print (rekey_peer label) = after_blank (ascii "rekey") label
print (fingerprint none) = ascii "fingerprint"
print (fingerprint (some label)) = after_blank (ascii "fingerprint") label
print (session label) = after_blank (ascii "session") label
print (chat none) = ascii "chat"
print (chat (some label)) = after_blank (ascii "chat") label
print (tailscale status_command) = ascii "tailscale"
print (tailscale up_command) = ascii "tailscale up"
print (tailscale ip_command) = ascii "tailscale ip"
print help = ascii "help"
print quit = ascii "quit"

-- Names, addresses and labels are words; a message is trimmed.
abbrev pub IsPrintable : Command → Type 0
IsPrintable (profile (init_profile name)) = IsWord name
IsPrintable (profile (use_profile name)) = IsWord name
IsPrintable (profile list_profiles) = Unit {0}
IsPrintable (start addr) = IsWord addr
IsPrintable stop = Unit {0}
IsPrintable (connect addr) = IsWord addr
IsPrintable peers = Unit {0}
IsPrintable (use_peer label) = IsWord label
IsPrintable (message label text) = IsWord label × IsTrimmed text
IsPrintable (close label) = IsWord label
IsPrintable (rekey_peer label) = IsWord label
IsPrintable (fingerprint none) = Unit {0}
IsPrintable (fingerprint (some label)) = IsWord label
IsPrintable (session label) = IsWord label
IsPrintable (chat none) = Unit {0}
IsPrintable (chat (some label)) = IsWord label
IsPrintable (tailscale command) = Unit {0}
IsPrintable help = Unit {0}
IsPrintable quit = Unit {0}

trim_both : (t : Text) → IsTrimmed t → trim t ≡ t
unfolding trim
trim_both t h = ap trim_end h.0 ∙ h.1

message_whole :
    (label text : Text)
    → is_empty label ≡ false
    → trim text ≡ text
    → is_empty text ≡ false
    → message_of (some (label, text)) ≡ inr (message label text)
unfolding message_of
message_whole label text h t f = rw (h, t, f, message_of) refl

message_lem :
    (label text : Text)
    → IsWord label
    → IsTrimmed text
    → parse_message (after_blank (ascii "msg") (after_blank label text)) ≡ inr (message label text)
unfolding parse_message message_of trim_start is_whitespace
message_lem label text h t =
    let trimmed : trim text ≡ text = trim_both text t in
    ap (λ x. message_of (split_once x)) (trim_start-append label (32 ∷ text) h)
    ∙ ap message_of (split_once_word label text h.0)
    ∙ message_whole label text h.1 trimmed t.2

-- A command whose names, addresses and labels are words without whitespace, and whose message is
-- not empty and has no whitespace at its ends, is parsed back from how it is written, whatever it
-- is.
pub parse-print : (c : Command) → IsPrintable c → parse (print c) ≡ inr c
unfolding print parse parse_words trim trim_start trim_end split_whitespace words_of command_for
    bytes_eq is_solid is_whitespace parse_profile parse_start one_arg optional_arg no_args
    parse_tailscale tailscale_word
parse-print (profile (init_profile name)) h =
    parse_two (ascii "profile") (ascii "init") name (refl, refl) (refl, refl) h
parse-print (profile (use_profile name)) h =
    parse_two (ascii "profile") (ascii "use") name (refl, refl) (refl, refl) h
parse-print (start addr) h =
    parse_two (ascii "start") (ascii "--addr") addr (refl, refl) (refl, refl) h
parse-print (connect addr) h = parse_one (ascii "connect") addr (refl, refl) h
parse-print (use_peer label) h = parse_one (ascii "use") label (refl, refl) h
parse-print (close label) h = parse_one (ascii "close") label (refl, refl) h
parse-print (rekey_peer label) h = parse_one (ascii "rekey") label (refl, refl) h
parse-print (fingerprint (some label)) h = parse_one (ascii "fingerprint") label (refl, refl) h
parse-print (session label) h = parse_one (ascii "session") label (refl, refl) h
parse-print (chat (some label)) h = parse_one (ascii "chat") label (refl, refl) h
parse-print (message label text) h =
    parse-after_blank (ascii "msg") (after_blank label text) (refl, refl)
      (trim_end-append label (32 ∷ text) (trim_end-append (32 ∷ []) text h.1.1 h.1.2) refl)
      (full-append label (32 ∷ text) refl)
    ∙ message_lem label text h.0 h.1
parse-print (profile list_profiles) h = refl
parse-print stop h = refl
parse-print peers h = refl
parse-print (fingerprint none) h = refl
parse-print (chat none) h = refl
parse-print (tailscale status_command) h = refl
parse-print (tailscale up_command) h = refl
parse-print (tailscale ip_command) h = refl
parse-print help h = refl
parse-print quit h = refl
