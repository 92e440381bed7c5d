-- ===== src/Tests/Window.antt =====
-- lesson8/f2f_chat/mainwindow.cpp: a small run of the window.
use gb_cpp_network_programmi.Base.{
  true, ◌↔◌, ◌⊎◌, ◌≡◌, ◌≢◌, refl, false, List, [], ◌∷◌, none, some, length, codes, text_eq, arith,
}
use gb_cpp_network_programmi.Qt.Simple.{
  simple_qt, split, decimal, until_zero, until_line_end, to_newline,
}
use gb_cpp_network_programmi.Qt.Words.{split_words}
use gb_cpp_network_programmi.Chat.{
  ChatNetwork, shut, Effect, slot_read_messages, last_datagram, handle_packet, control, add_user,
  announce, push_client, send_message, mailing,
}
use gb_cpp_network_programmi.Chat.Sockets.{close_sockets, destroy, delete_if_open}
use gb_cpp_network_programmi.Window.Exit.{exit_uses_deleted}
use gb_cpp_network_programmi.Window.{
  dangling, MainWindow, out_of_range, on_signals, on_signal, new_window, Event, types, clicks_enter,
  clicks_exit, clicks_send, clicks_mailing, arrives, shown, on_events, on_event, enter_in_chat,
  exit_chat, send_clicked, mailing_clicked, datagrams_arrive,
}
use gb_cpp_network_programmi.Window.Buttons.{Guards, on_events-Guards}
use gb_cpp_network_programmi.Window.Contacts.{chosen_row_in_range}

abbrev evening : List Event
evening =
    clicks_exit
    ∷ clicks_enter (codes "ann") (codes "090000") false false
    ∷ types (codes "hi")
    ∷ clicks_send none
    ∷ clicks_exit
    ∷ clicks_mailing
    ∷ arrives []
    ∷ []

window_is_empty_again :
    on_events simple_qt new_window evening ≡ shown (record new_window { text = codes "hi" }) []
unfolding on_events on_event enter_in_chat exit_chat close_sockets destroy delete_if_open
    send_clicked mailing_clicked datagrams_arrive mailing
window_is_empty_again = refl

on_events-Guards_example : Guards (on_events simple_qt new_window evening)
on_events-Guards_example = on_events-Guards simple_qt evening

-- Bob is met, and is the one contact.
abbrev meeting : List Event
meeting =
    clicks_enter (codes "ann") (codes "090000") false false
    ∷ arrives ((5, codes "1/hi/bob/7") ∷ [])
    ∷ types (codes "hi")
    ∷ []

record Meeting : Type 0 where
  last : MainWindow
  effects : List Effect
  runs : on_events simple_qt new_window meeting ≡ shown last effects
  shows_one : length last.contacts ≡ 1

abbrev met : Meeting
unfolding on_events on_event enter_in_chat datagrams_arrive slot_read_messages last_datagram
    handle_packet control add_user announce push_client send_message text_eq on_signals on_signal
    split decimal until_zero until_line_end to_newline split_words mailing
met = record { last = _; effects = _; runs = refl; shows_one = refl }

chosen_row_in_range_example : on_event simple_qt met.last (clicks_send (some 0)) ≢ out_of_range
chosen_row_in_range_example =
    chosen_row_in_range simple_qt meeting met.last met.effects 0 met.runs
      (omega (arith, met.shows_one))

-- A peer with open sockets, and the click that ends it.
record Entered : Type 0 where
  last : MainWindow
  effects : List Effect
  runs :
      on_events simple_qt new_window (clicks_enter (codes "ann") (codes "090000") true true ∷ [])
      ≡ shown last effects
  can_exit : last.can_exit ≡ true

abbrev entered : Entered
unfolding on_events on_event enter_in_chat mailing
entered = record { last = _; effects = _; runs = refl; can_exit = refl }

exit_uses_deleted_example :
    (c : ChatNetwork) × (entered.last.mychat ≡ some c)
    × ((on_event simple_qt entered.last clicks_exit ≡ dangling)
        ↔ ((c.listen_socket ≢ shut) ⊎ (c.send_socket ≢ shut)))
exit_uses_deleted_example =
    exit_uses_deleted simple_qt (clicks_enter (codes "ann") (codes "090000") true true ∷ [])
      entered.last entered.effects entered.runs entered.can_exit
