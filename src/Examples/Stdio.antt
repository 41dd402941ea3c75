-- ===== src/Examples/Stdio.antt =====
-- Tests of gateway/stdio/stdio.go and the theorem on it applied.
use goop.Base.{◌≡◌, refl, List, [], ◌∷◌, ◌++◌, Str, codes, All, arith, ok, false}
use goop.Base.Int.{pos}
use goop.Gateway.Trigger.{trigger_parts}
use goop.Gateway.Events.{private_chat_event, trigger_event, chat_event}
use goop.Gateway.Stdio.{StdioConfig, stdin_user, read, relay_line}
use goop.Gateway.Stdio.Lines.{unlines, each_line, IsConsole, read-IsConsole}
use goop.Examples.{world, guest}

abbrev console : StdioConfig
console = record {
  commands = record { trigger = codes "."; access = pos 100; respond_private = false };
  access = pos 1000;
  avatar_url = [];
}

-- A command, a line of blanks, and a line without an end.
abbrev typed : List Str
typed = codes ".ping moon " ∷ codes "  " ∷ []

read_test :
    read console (unlines typed ++ codes "lost")
    ≡ private_chat_event (stdin_user console) (codes ".ping moon")
      ∷ trigger_event (record {
        user = stdin_user console;
        cmd = codes "ping";
        raw = codes "moon" ∷ [];
        arg = codes "moon" ∷ [];
      })
      ∷ []
unfolding read trigger_parts
read_test = refl

relay_line_test :
    relay_line (λ src e. src) world (chat_event guest (codes "hi"))
    ≡ ok (codes "[bnet:azeroth][CHAT] <grubby@azeroth> hi")
unfolding relay_line
relay_line_test = refl

read-IsConsole_example :
    (read console (unlines typed ++ codes "lost") ≡ each_line console typed)
    × All (IsConsole console) (read console (unlines typed ++ codes "lost"))
read-IsConsole_example =
    read-IsConsole console typed (codes "lost") (ground arith, (ground arith, tt)) (ground arith)
