-- ===== src/Gateway/Stdio/Lines.antt =====
-- gateway/stdio/stdio.go: the input is read line by line.
use goop.Base.{
  ◌≡◌, ◌≢◌, refl, sym, ap, ◌∙◌, inl, inr, false, List, [], ◌∷◌, ◌++◌, Str, All, All-append, arith,
  append_assoc, append-nil, ◌==◌, Bool-cases,
}
use mathlib.Core.Path.{subst}
use goop.Base.Int.{◌≤ℤ◌, ltb_ℤ}
use goop.Gateway.Trigger.{Extracted, extracted, no_trigger, panics, find_trigger, is_space}
use goop.Gateway.Events.{Event, private_chat_event, trigger_event}
use goop.Gateway.Stdio.{
  StdioConfig, stdin_user, trim_step, trim_right, fire_trigger, trimmed_events, line_events,
  read_from, read,
}

abbrev pub IsLine : Str → Type 0
IsLine s = All (λ c. c ≢ b'\n') s

-- Lines, each with its end.
abbrev pub unlines : List Str → Str
unlines [] = []
unlines (l ∷ ls) = l ++ b'\n' ∷ unlines ls

abbrev pub each_line : StdioConfig → List Str → List Event
each_line o [] = []
each_line o (l ∷ ls) = line_events o l ++ each_line o ls

trim_right-newline : (l : Str) → trim_right (l ++ b'\n' ∷ []) ≡ trim_right l
unfolding trim_right is_space
trim_right-newline [] = refl
trim_right-newline (c ∷ l) = ap (trim_step c) (trim_right-newline l)

read_from-line :
    (o : StdioConfig) (l line s : Str)
    → IsLine l
    → read_from o line (l ++ b'\n' ∷ s) ≡ line_events o (line ++ l) ++ read_from o [] s
unfolding read_from line_events
read_from-line o [] line s h =
    ap (λ x. trimmed_events o x ++ read_from o [] s)
      (trim_right-newline line ∙ ap trim_right (sym (append-nil line)))
read_from-line o (c ∷ l) line s h =
    let e : (c == b'\n') ≡ false = ground (arith, h.0) in
    rw (e, read_from)
      (read_from-line o l (line ++ c ∷ []) s h.1
        ∙ ap (λ x. line_events o x ++ read_from o [] s) (append_assoc line (c ∷ []) l))

read_from-rest : (o : StdioConfig) (l line : Str) → IsLine l → read_from o line l ≡ []
unfolding read_from
read_from-rest o [] line h = refl
read_from-rest o (c ∷ l) line h =
    let e : (c == b'\n') ≡ false = ground (arith, h.0) in
    rw (e, read_from) (read_from-rest o l (line ++ c ∷ []) h.1)

-- A trigger is of the console's user, who has the access that commands need.
abbrev pub IsConsole : StdioConfig → Event → Type 0
IsConsole o (private_chat_event u s) = u ≡ stdin_user o
IsConsole o (trigger_event t) = (t.user ≡ stdin_user o) × (o.commands.access ≤ℤ o.access)
IsConsole o _ = ⊥

abbrev AllConsole : StdioConfig → List Event → Type 0
AllConsole o evs = All (IsConsole o) evs

fire_trigger-AllConsole :
    (o : StdioConfig) (x : Extracted)
    → o.commands.access ≤ℤ o.access
    → AllConsole o (fire_trigger o x)
fire_trigger-AllConsole o no_trigger h = tt
fire_trigger-AllConsole o panics h = tt
fire_trigger-AllConsole o (extracted p) h = ((refl, h), tt)

trimmed_events-AllConsole : (o : StdioConfig) (s : Str) → AllConsole o (trimmed_events o s)
unfolding trimmed_events
trimmed_events-AllConsole o [] = tt
trimmed_events-AllConsole o (c ∷ s) = elim (Bool-cases (ltb_ℤ o.access o.commands.access)) [
  | inl e ↦ rw (e, trimmed_events) (refl, tt)
  | inr e ↦
      rw (e, trimmed_events)
        (refl, fire_trigger-AllConsole o (find_trigger o.commands.trigger (c ∷ s)) (ground arith))
]

each_line-AllConsole : (o : StdioConfig) (ls : List Str) → AllConsole o (each_line o ls)
unfolding line_events
each_line-AllConsole o [] = tt
each_line-AllConsole o (l ∷ ls) =
    All-append (IsConsole o) (line_events o l) (each_line o ls)
      (trimmed_events-AllConsole o (trim_right l)) (each_line-AllConsole o ls)

read-each_line :
    (o : StdioConfig) (ls : List Str) (rest : Str)
    → All IsLine ls
    → IsLine rest
    → read o (unlines ls ++ rest) ≡ each_line o ls
unfolding read
read-each_line o [] rest hs h = read_from-rest o rest [] h
read-each_line o (l ∷ ls) rest hs h =
    ap (read_from o []) (append_assoc l (b'\n' ∷ unlines ls) rest)
    ∙ read_from-line o l [] (unlines ls ++ rest) hs.0
    ∙ ap (λ x. line_events o l ++ x) (read-each_line o ls rest hs.1 h)

-- The console handles its input one line after the other, each by itself, and drops what follows the
-- last end of a line; all that it fires is of the console's user, and a trigger only if that user
-- has the access that commands need.
pub read-IsConsole :
    (o : StdioConfig) (ls : List Str) (rest : Str)
    → All IsLine ls
    → IsLine rest
    → (read o (unlines ls ++ rest) ≡ each_line o ls)
      × All (IsConsole o) (read o (unlines ls ++ rest))
read-IsConsole o ls rest hs h =
    let e = read-each_line o ls rest hs h in
    (e, subst (AllConsole o) (sym e) (each_line-AllConsole o ls))
