-- ===== src/QnetClient.antt =====
-- lesson5/qnet_tcp_client/main.cpp: the menu, and the event loops that are entered one inside the other. What is
-- typed is a list of words; `none` is a client that waits for more of them.
use gb_cpp_network_programmi.Base.{
  ℕ, suc, ◌+◌, Bool, true, false, not, ◌&&◌, ◌||◌, List, [], ◌∷◌, ◌++◌, Bytes, length, take, drop,
  leb, ltb, ◌==◌, codes, Option, none, some, if◌then◌else◌,
}
use gb_cpp_network_programmi.Base.Fallible.{◌>>=◌}
use gb_cpp_network_programmi.Qt.{Qt}
pub mod Waiting
pub mod Served
pub mod Simple

-- `loops` are the event loops that have been entered and not left: none is left before the client quits.
pub record Client : Type 0 where
  pub server_port : ℕ
  pub host_name : Bytes
  pub is_valid : Bool
  pub timer_active : Bool
  pub loops : ℕ
  pub typed : List Bytes
  pub requested : List Bytes
  pub has_quit : Bool

-- The do loop of `slotNewConnection`: a negative number is a bit pattern above 3.
unfoldable pub ask_kind : Qt → List Bytes → Option (ℕ × List Bytes)
ask_kind q [] = none
ask_kind q (answer ∷ typed) =
    let again = ask_kind q typed in
    if q.to_int answer == 0 || ltb 3 (q.to_int answer) then again else some (q.to_int answer, typed)

abbrev pub ask_message : List Bytes → Option (Bytes × List Bytes)
ask_message [] = none
ask_message (message ∷ typed) = some (message, typed)

-- The URL of a request for a task.
abbrev pub url : Qt → Client → Bytes → Bytes → Bytes
url q c task message =
    codes "http://" ++ (c.host_name ++ (codes ":" ++ (q.number c.server_port ++ (task ++ message))))

abbrev pub quit : Client → Client
quit c = record c { has_quit = true }

-- A request, its timer, and the event loop that waits for both.
unfoldable pub request : Qt → Bytes → Client → Option Client
request q task c = do
  (message, typed) ← ask_message c.typed
  some (record c {
    typed = typed;
    requested = c.requested ++ (url q c task message ∷ []);
    timer_active = true;
    loops = suc c.loops;
  })

abbrev pub by_kind : Qt → ℕ → Client → Option Client
by_kind q kind c =
    if kind == 1
    then request q (codes "/command/") c
    else if kind == 2
    then request q (codes "/message/") c
    else some (quit c)

unfoldable pub slot_new_connection : Qt → Client → Option Client
slot_new_connection q c = do
  (kind, typed) ← ask_kind q c.typed
  by_kind q kind (record c { typed = typed })

-- What follows an answer and a timeout.
abbrev pub go_on : Qt → Client → Option Client
go_on q c = if c.is_valid then slot_new_connection q c else some (quit c)

unfoldable pub slot_timeout_waiting : Qt → Client → Option Client
slot_timeout_waiting q c = go_on q c

unfoldable pub on_response : Qt → Client → Option Client
on_response q c = go_on q (record c { timer_active = false })

unfoldable pub slot_server_disconnected : Client → Client
slot_server_disconnected c = record c { is_valid = false }

-- `Send`, which nothing calls: `none` where memcpy leaves one of the two arrays. `buffer` is what the
-- stream has made of the message, `characters` its own, `size` the `sizeof` of a QString.
unfoldable pub send : ℕ → Bytes → Bytes → Option Bytes
send size buffer characters =
    if ltb (length buffer) (size + 1) || ltb (length characters) (size + 1)
    then none
    else some (take (size + 1) characters ++ drop (size + 1) buffer)

-- What happens behind the connection: a request has finished, with an error or an answer; the timer of the
-- last one runs out; or the server closes.
pub data Event : Type 0 where
  finishes : Bool → Event
  times_out : Event
  disconnects : Event

unfoldable pub handle : Qt → Client → Event → Option Client
handle q c (finishes has_error) = if has_error then some c else on_response q c
handle q c times_out =
    if c.timer_active then slot_timeout_waiting q (record c { timer_active = false }) else some c
handle q c disconnects = some (slot_server_disconnected c)

-- The events of the loops, which all end when the client quits.
unfoldable pub run : Qt → Client → List Event → Option Client
run q c [] = some c
run q c (e ∷ es) = if c.has_quit then some c else (do c' ← handle q c e; run q c' es)

-- `main` of its arguments behind the program's name: none if `argv[2]` stands behind the end of them.
unfoldable pub client_main : Qt → List Bytes → List Bytes → Option Client
client_main q [] typed = none
client_main q (port ∷ more) typed = some (record {
  server_port = q.to_int port;
  host_name = host more;
  is_valid = true;
  timer_active = false;
  loops = 0;
  typed = typed;
  requested = [];
  has_quit = false;
})
  where
    host : List Bytes → Bytes
    host [] = []
    host (name ∷ rest) = name
