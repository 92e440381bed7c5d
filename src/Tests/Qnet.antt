-- ===== src/Tests/Qnet.antt =====
-- lesson5: requests to a small server over the small Qt.
use gb_cpp_network_programmi.Base.{
  ◌≡◌, refl, inr, true, false, List, some, [], ◌∷◌, text_eq, codes, arith,
}
use gb_cpp_network_programmi.Base.Fallible.{◌>>=◌}
use gb_cpp_network_programmi.Qt.Simple.{
  simple_qt, simple_qt-IsQt, split, decimal, until_zero, until_line_end, to_newline,
}
use gb_cpp_network_programmi.Qt.Words.{split_words}
use gb_cpp_network_programmi.QnetClient.{
  Client, Event, finishes, times_out, disconnects, slot_new_connection, run, ask_kind, request,
  handle, on_response, slot_timeout_waiting,
}
use gb_cpp_network_programmi.QnetClient.Served.{Served, IsTarget, menu_served}
use gb_cpp_network_programmi.QnetClient.Simple.{
  from_slash, lacks_slash, simple_manager, simple_manager-IsNetworkManager,
}
use gb_cpp_network_programmi.QnetClient.Waiting.{Keeps, session-Keeps, quits_after_close}
use gb_cpp_network_programmi.Qnet.{
  ThisServer, Timer, quits, handled, undefined, send, run_command, route, by_tokens,
  slot_read_client,
}

abbrev server : ThisServer
server = record { listening = true; is_open = true; timers = []; has_quit = false }

shutdown_starts_timers :
    slot_read_client simple_qt server (codes "GET /command/shutdown HTTP/1.1\r\n\r\n")
    ≡ handled
        (record server { timers = Timer.disconnects ∷ quits ∷ [] })
        (send simple_qt 202 ∷ [])
        []
unfolding slot_read_client by_tokens route run_command text_eq split decimal until_zero
    until_line_end to_newline split_words
shutdown_starts_timers = refl

other_tasks_are_not_answered :
    slot_read_client simple_qt server (codes "GET /other/x HTTP/1.1\r\n\r\n") ≡ handled server [] []
unfolding slot_read_client by_tokens route run_command text_eq split decimal until_zero
    until_line_end to_newline split_words
other_tasks_are_not_answered = refl

method_alone_is_undefined : slot_read_client simple_qt server (codes "GET") ≡ undefined
unfolding slot_read_client by_tokens route run_command text_eq split decimal until_zero
    until_line_end to_newline split_words
method_alone_is_undefined = refl

abbrev client : Client
client = record {
  server_port = 80;
  host_name = codes "h";
  is_valid = true;
  timer_active = false;
  loops = 0;
  typed = codes "7" ∷ codes "2" ∷ codes "hi" ∷ codes "1" ∷ codes "ls" ∷ codes "3" ∷ [];
  requested = [];
  has_quit = false;
}

abbrev events : List Event
events = finishes true ∷ times_out ∷ finishes false ∷ []

-- The client ends within two event loops.
two_requests :
    (slot_new_connection simple_qt client >>= λ c. run simple_qt c events)
    ≡ some (record client {
      loops = 2;
      typed = [];
      requested = codes "http://h:P/message/hi" ∷ codes "http://h:P/command/ls" ∷ [];
      has_quit = true;
    })
unfolding slot_new_connection run ask_kind request handle on_response slot_timeout_waiting split
    decimal until_zero until_line_end to_newline split_words
two_requests = refl

session-Keeps_example :
    Keeps simple_qt (slot_new_connection simple_qt client >>= λ c. run simple_qt c events)
session-Keeps_example = session-Keeps simple_qt client events refl refl

abbrev waiting_client : Client
waiting_client = record client { timer_active = true; loops = 1 }

quits_after_close_example :
    (c' : Client) × (run simple_qt waiting_client (disconnects ∷ finishes true ∷ times_out ∷ [])
      ≡ some c')
    × (c'.has_quit ≡ true)
    × (c'.requested ≡ [])
quits_after_close_example = quits_after_close simple_qt waiting_client 1 [] (inr refl) refl

client-IsTarget : IsTarget simple_qt simple_manager client
unfolding lacks_slash split decimal until_zero until_line_end to_newline split_words from_slash
client-IsTarget = record {
  host = refl;
  positive = omega arith;
  below_end = omega arith;
  plain = omega arith;
}

menu_served_example :
    Served simple_qt simple_manager client server
      (codes "1")
      (codes "exit")
      (run_command simple_qt server (codes "exit"))
    × Served simple_qt simple_manager client server
        (codes "2")
        (codes "exit")
        (handled server (send simple_qt 200 ∷ []) (codes "exit" ∷ []))
menu_served_example =
    menu_served simple_qt simple_qt-IsQt simple_manager simple_manager-IsNetworkManager client
      server (codes "exit") client-IsTarget (refl, (refl, (refl, (refl, tt))))
