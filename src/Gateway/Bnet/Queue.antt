-- ===== src/Gateway/Bnet/Queue.antt =====
-- gateway/bnet/bnet.go: say, the buffer of messages between the gateway and its client, and the calls
-- that go through it.
use goop.Base.{
  ℕ, ◌≤◌, ◌≡◌, List, [], ◌∷◌, ◌++◌, Result, ok, err, Option, none, some, Str, codes, length,
  no_permission, say_command, if◌then◌else◌, Error, say_buffer_full, ltb,
}
use goop.Golang.Strings.{has_prefix}
use goop.Gateway.Bnet.{Client, is_operator}

-- The goroutine that reads the channel: busy elsewhere, waiting for a message, or with one in its
-- hands.
pub data Reader : Type 0 where
  away waiting : Reader
  holds : Str → Reader

-- The channel `saych` with its buffer, its reader, and two records of what has happened: what each call
-- of `say` returned, and the messages handed to the client.
pub record Buffer : Type 0 where
  pub queue : List Str
  pub reader : Reader
  pub answers : List (Str × Option Error)
  pub handed : List Str

abbrev pub empty_buffer : Buffer
empty_buffer = record { queue = []; reader = away; answers = []; handed = [] }

abbrev answered : Str → Option Error → Buffer → Buffer
answered s r q = record q { answers = q.answers ++ (s, r) ∷ [] }

abbrev buffer_or_refuse : ℕ → Str → Buffer → Option Error × Buffer
buffer_or_refuse size s q =
    if ltb (length q.queue) size
    then (none, answered s none (record q { queue = q.queue ++ s ∷ [] }))
    else (some say_buffer_full, answered s (some say_buffer_full) q)

abbrev send_to : ℕ → Str → Buffer → Reader → Option Error × Buffer
send_to size s q waiting = (none, answered s none (record q { reader = holds s }))
send_to size s q away = buffer_or_refuse size s q
send_to size s q (holds t) = buffer_or_refuse size s q

-- say, for a buffer of `size`: a send to a channel goes to a receiver that waits, or else into the
-- buffer if it has room; where neither can be, the `default` is taken.
unfoldable pub say : ℕ → Buffer → Str → Option Error × Buffer
say size q s = send_to size s q q.reader

abbrev receive_from : Buffer → List Str → Buffer
receive_from q [] = record q { reader = waiting }
receive_from q (s ∷ rest) = record q { queue = rest; reader = holds s }

-- One step of the reader: it asks for a message, which waits on an empty buffer, or hands its own to
-- the client.
abbrev read_by : Buffer → Reader → Buffer
read_by q away = receive_from q q.queue
read_by q waiting = q
read_by q (holds s) = record q { reader = away; handed = q.handed ++ s ∷ [] }

unfoldable pub read_step : Buffer → Buffer
read_step q = read_by q q.reader

-- Calls of `say` and steps of the reader, in any order.
pub data Reaches (size : ℕ) : Buffer → Type 0 where
  opened : Reaches size empty_buffer
  said : {q : Buffer} (s : Str) → Reaches size q → Reaches size (say size q s).1
  read : {q : Buffer} → Reaches size q → Reaches size (read_step q)

-- A message in hands, as a list.
abbrev pub in_hands : Reader → List Str
in_hands away = []
in_hands waiting = []
in_hands (holds s) = s ∷ []

-- The messages for which `say` returned nil.
unfoldable pub accepted : List (Str × Option Error) → List Str
accepted [] = []
accepted ((s, none) ∷ l) = s ∷ accepted l
accepted ((s, some e) ∷ l) = accepted l

-- The messages for which `say` returned nil are those handed over, in hands and in the buffer, in this
-- order; the buffer holds no more than its size, and nothing while the reader waits.
pub record IsInOrder (size : ℕ) (q : Buffer) : Type 0 where
  pub in_order : q.handed ++ (in_hands q.reader ++ q.queue) ≡ accepted q.answers
  pub bounded : length q.queue ≤ size
  pub waits_empty : q.reader ≡ waiting → q.queue ≡ []

-- Say, SayPrivate, Kick, Ban and Unban: the text for `say`, or the error.
unfoldable pub say_text : Str → Result Str
say_text s = if has_prefix (codes "/") s then err say_command else ok s

unfoldable pub say_private_text : Str → Str → Str
say_private_text uid s = codes "/w " ++ uid ++ codes " " ++ s

unfoldable pub operator_text : Client → Str → Str → Result Str
operator_text c verb uid = if is_operator c then ok (verb ++ uid) else err no_permission

unfoldable pub kick_text : Client → Str → Result Str
unfolding operator_text
kick_text c uid = operator_text c (codes "/kick ") uid

unfoldable pub ban_text : Client → Str → Result Str
unfolding operator_text
ban_text c uid = operator_text c (codes "/ban ") uid

unfoldable pub unban_text : Client → Str → Result Str
unfolding operator_text
unban_text c uid = operator_text c (codes "/unban ") uid
