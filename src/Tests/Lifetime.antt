-- ===== src/Tests/Lifetime.antt =====
-- lesson5: a run of the server up to its end, over the small Qt.
use gb_cpp_network_programmi.Base.{◌≡◌, refl, true, List, [], ◌∷◌, text_eq, codes}
use gb_cpp_network_programmi.Qt.Simple.{
  simple_qt, split, decimal, until_zero, until_line_end, to_newline,
}
use gb_cpp_network_programmi.Qt.Words.{split_words}
use gb_cpp_network_programmi.Qnet.{
  ThisServer, disconnects, handled, send, fire, run_command, route, by_tokens, slot_read_client,
  start_listening,
}
use gb_cpp_network_programmi.Qnet.Lifetime.{
  Event, connects, sends, fires, handle, run, AnyShutdown, quits_on_request,
}

abbrev last_events : List Event
last_events =
    connects ∷ sends (codes "GET /command/shutdown HTTP/1.1\r\n\r\n") ∷ fires 1 ∷ fires 0 ∷ []

-- The second shot ends the run: the first one stays pending.
abbrev ended_server : ThisServer
ended_server = record {
  listening = true;
  is_open = true;
  timers = disconnects ∷ [];
  has_quit = true;
}

shutdown_ends :
    run simple_qt (start_listening true) last_events
    ≡ handled ended_server (send simple_qt 202 ∷ []) []
unfolding run handle fire slot_read_client by_tokens route run_command text_eq split decimal
    until_zero until_line_end to_newline split_words
shutdown_ends = refl

quits_on_request_example : AnyShutdown simple_qt last_events
quits_on_request_example =
    quits_on_request simple_qt true last_events ended_server (send simple_qt 202 ∷ []) []
      shutdown_ends refl
