-- ===== src/Window.antt =====
-- lesson8/f2f_chat/mainwindow.cpp: the window over a peer of Chat. A click on a disabled button does
-- nothing. The slots that a peer's signals call run behind the peer's slot, in their order; what a signal
-- shows and the slot may change before its end is a part of the signal.
use gb_cpp_network_programmi.Base.{
  ℕ, Bool, true, false, List, [], ◌∷◌, ◌++◌, Bytes, get_elem?, codes, Option, none, some,
  if◌then◌else◌,
}
use gb_cpp_network_programmi.Qt.{Qt}
use gb_cpp_network_programmi.Chat.{
  ChatUser, ChatNetwork, Effect, datagram, new_user, new_message, user_disconnect,
  close_connections, Run, ok, undefined, no_fuel, broadcast, mailing, send_message,
  slot_read_messages,
}
use gb_cpp_network_programmi.Chat.Sockets.{close_sockets, destroy, new_network, listen, after_call}
pub mod Buttons
pub mod Contacts
pub mod Exit

-- `mychat` is `none` before it is made and after it is deleted; the flags are those of the buttons, and
-- the text of the message is what is typed.
pub record MainWindow : Type 0 where
  pub mychat : Option ChatNetwork
  pub can_enter : Bool
  pub can_exit : Bool
  pub can_mail : Bool
  pub can_send : Bool
  pub contacts : List Bytes
  pub messages : List Bytes
  pub text : Bytes

-- A slot returns; reads `mychat` where there is none; uses a socket that was deleted; or leaves the
-- vector of the clients, as the peer's slots do too.
pub data Shown : Type 0 where
  shown : MainWindow → List Effect → Shown
  no_chat : Shown
  dangling : Shown
  out_of_range : Shown

-- The constructor.
abbrev pub new_window : MainWindow
new_window = record {
  mychat = none;
  can_enter = true;
  can_exit = false;
  can_mail = false;
  can_send = false;
  contacts = [];
  messages = [];
  text = [];
}

abbrev pub append_html : MainWindow → List Bytes → MainWindow
append_html w lines = record w { messages = w.messages ++ lines }

-- `on_pbtnEnterInChat_clicked`: the peer that is made has this id, and its sockets are open or not behind
-- `bind` and behind the first datagram.
unfoldable pub enter_in_chat : Qt → MainWindow → Bytes → Bytes → Bool → Bool → Shown
enter_in_chat q w [] id listens sends = shown w []
enter_in_chat q w (n ∷ ick) id listens sends =
    let (c, effects) =
      mailing q (record (listen listens (new_network id)) { user_name = n ∷ ick }) in
    shown
      (record w {
        mychat = some (record c { send_socket = after_call sends });
        can_enter = false;
        can_exit = true;
        can_mail = true;
        can_send = true;
      })
      effects

-- `closeConnections`, which the signal of `CloseSockets` calls: the peer is deleted.
abbrev pub close_connections_slot : MainWindow → List Effect → Option ChatNetwork → Shown
close_connections_slot w effects none = dangling
close_connections_slot w effects (some gone) = shown (record w { mychat = none }) effects

abbrev pub close_chat : MainWindow → List Effect → Option (ChatNetwork × List Effect) → Shown
close_chat w sent none = dangling
close_chat w sent (some (c, effects)) = close_connections_slot w (sent ++ effects) (destroy c)

-- The widgets behind an exit.
abbrev pub without_chat : MainWindow → MainWindow
without_chat w = record w {
  can_enter = true;
  can_exit = false;
  can_mail = false;
  can_send = false;
  contacts = [];
}

-- `on_pbtnExitChat_clicked`
unfoldable pub exit_chat : Qt → MainWindow → Option ChatNetwork → Shown
exit_chat q w none = no_chat
exit_chat q w (some c) =
    close_chat (without_chat w) (send_message q c 1 (codes "bye") c.id_program broadcast)
      (close_sockets c)

-- The lines that a sent message adds, to whom it is given.
abbrev pub sent_lines : Bytes → Bytes → List Bytes
sent_lines heading text =
    (codes "<font color=\"red\">" ++ (heading ++ codes "</font>"))
    ∷ (codes "<font color=\"black\">" ++ (text ++ codes "</font>"))
    ∷ []

abbrev pub send_to : Qt → MainWindow → ChatNetwork → Option ChatUser → Shown
send_to q w c none = out_of_range
send_to q w c (some u) =
    shown
      (record (append_html w
        (sent_lines (codes "Отправлено " ++ (u.nikname ++ codes ":")) w.text)) { text = [] })
      (send_message q c 2 w.text c.id_program u.address)

-- `on_pbtnSendMessage_clicked`, with the row of the chosen contact.
unfoldable pub send_clicked : Qt → MainWindow → Bytes → Option ℕ → Option ChatNetwork → Shown
send_clicked q w [] row chat = shown w []
send_clicked q w (t ∷ ext) none chat = shown w []
send_clicked q w (t ∷ ext) (some row) none = no_chat
send_clicked q w (t ∷ ext) (some row) (some c) = send_to q w c (get_elem? c.vec_user row)

-- `on_pbtnMailing_clicked`
unfoldable pub mailing_clicked : Qt → MainWindow → Bytes → Option ChatNetwork → Shown
mailing_clicked q w [] chat = shown w []
mailing_clicked q w (t ∷ ext) none = no_chat
mailing_clicked q w (t ∷ ext) (some c) =
    shown (record (append_html w (sent_lines (codes "Отправлено всем:") w.text)) { text = [] })
      (send_message q c 2 w.text c.id_program broadcast)

-- The slots that the peer's signals call.
unfoldable pub on_signal : MainWindow → ChatNetwork → Effect → MainWindow
on_signal w c (datagram address bytes) = w
on_signal w c new_user = record w { contacts = c.list_users }
on_signal w c (user_disconnect gone) =
    append_html (record w { contacts = c.list_users })
      ((codes "<font color=\"green\"><b>" ++ (gone ++ codes " покинул чат<b></font>")) ∷ [])
on_signal w c new_message = record (append_html w c.list_messages) {
  mychat = some (record c { list_messages = [] });
}
on_signal w c close_connections = record w { mychat = none }

-- The signals of a slot of the peer: it reads datagrams, and closes no connections.
unfoldable pub on_signals : MainWindow → ChatNetwork → List Effect → MainWindow
on_signals w c [] = w
on_signals w c (datagram address bytes ∷ effects) = on_signals w c effects
on_signals w c (new_user ∷ effects) = on_signals (on_signal w c new_user) c effects
on_signals w c (user_disconnect gone ∷ effects) =
    on_signals (on_signal w c (user_disconnect gone)) c effects
on_signals w c (new_message ∷ effects) =
    on_signals (on_signal w c new_message) (record c { list_messages = [] }) effects
on_signals w c (close_connections ∷ effects) = on_signals w c effects

abbrev pub after_reading : MainWindow → Run → Shown
after_reading w (ok c effects) = shown (on_signals (record w { mychat = some c }) c effects) effects
after_reading w undefined = out_of_range
after_reading w no_fuel = out_of_range

unfoldable pub datagrams_arrive : Qt → MainWindow → List (ℕ × Bytes) → Option ChatNetwork → Shown
datagrams_arrive q w pending none = shown w []
datagrams_arrive q w pending (some c) = after_reading w (slot_read_messages q c pending)

-- What the user and the network do.
pub data Event : Type 0 where
  types : Bytes → Event
  clicks_enter : Bytes → Bytes → Bool → Bool → Event
  clicks_exit : Event
  clicks_send : Option ℕ → Event
  clicks_mailing : Event
  arrives : List (ℕ × Bytes) → Event

unfoldable pub on_event : Qt → MainWindow → Event → Shown
on_event q w (types text) = shown (record w { text = text }) []
on_event q w (clicks_enter nick id listens sends) =
    if w.can_enter then enter_in_chat q w nick id listens sends else shown w []
on_event q w clicks_exit = if w.can_exit then exit_chat q w w.mychat else shown w []
on_event q w (clicks_send row) =
    if w.can_send then send_clicked q w w.text row w.mychat else shown w []
on_event q w clicks_mailing = if w.can_mail then mailing_clicked q w w.text w.mychat else shown w []
on_event q w (arrives pending) = datagrams_arrive q w pending w.mychat

abbrev pub then_events : Shown → (MainWindow → Shown) → Shown
then_events (shown w effects) k = k w
then_events no_chat k = no_chat
then_events dangling k = dangling
then_events out_of_range k = out_of_range

unfoldable pub on_events : Qt → MainWindow → List Event → Shown
on_events q w [] = shown w []
on_events q w (e ∷ es) = then_events (on_event q w e) (λ w'. on_events q w' es)
