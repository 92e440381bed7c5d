-- ===== src/Window/Buttons.antt =====
-- The buttons of lesson8/f2f_chat/mainwindow.cpp guard its peer.
use gb_cpp_network_programmi.Base.{
  ℕ, ◌≡◌, refl, if_both, Bool, true, false, List, [], ◌∷◌, Bytes, get_elem?, Option, none, some,
}
use gb_cpp_network_programmi.Qt.{Qt}
use gb_cpp_network_programmi.Chat.{
  ChatUser, ChatNetwork, Effect, datagram, new_user, new_message, user_disconnect,
  close_connections, Run, ok, undefined, no_fuel, slot_read_messages,
}
use gb_cpp_network_programmi.Chat.Sockets.{close_sockets, destroy}
use gb_cpp_network_programmi.Window.{
  close_connections_slot, close_chat, without_chat, dangling, MainWindow, Shown, shown, no_chat,
  out_of_range, new_window, enter_in_chat, exit_chat, send_to, send_clicked, mailing_clicked,
  on_signal, on_signals, after_reading, datagrams_arrive, Event, types, clicks_enter, clicks_exit,
  clicks_send, clicks_mailing, arrives, on_event, then_events, on_events,
}

-- Where there is no peer, the buttons that use one are disabled.
abbrev pub Guarded : Option ChatNetwork → Bool → Bool → Bool → Type 0
Guarded (some c) exits mails sends = Unit
Guarded none exits mails sends = (exits ≡ false) × (mails ≡ false) × (sends ≡ false)

abbrev pub IsGuarded : MainWindow → Type 0
IsGuarded w = Guarded w.mychat w.can_exit w.can_mail w.can_send

abbrev pub Guards : Shown → Type 0
Guards (shown w effects) = IsGuarded w
Guards no_chat = ⊥
Guards dangling = Unit
Guards out_of_range = Unit

on_signals-IsGuarded :
    (w : MainWindow) (c c' : ChatNetwork) (effects : List Effect)
    → w.mychat ≡ some c'
    → IsGuarded (on_signals w c effects)
unfolding on_signals on_signal
on_signals-IsGuarded w c c' [] h = rw h tt
on_signals-IsGuarded w c c' (datagram address bytes ∷ effects) h =
    on_signals-IsGuarded w c c' effects h
on_signals-IsGuarded w c c' (new_user ∷ effects) h = on_signals-IsGuarded _ c c' effects h
on_signals-IsGuarded w c c' (user_disconnect gone ∷ effects) h =
    on_signals-IsGuarded _ c c' effects h
on_signals-IsGuarded w c c' (new_message ∷ effects) h = on_signals-IsGuarded _ _ _ effects refl
on_signals-IsGuarded w c c' (close_connections ∷ effects) h = on_signals-IsGuarded w c c' effects h

after_reading-Guards : (w : MainWindow) (r : Run) → Guards (after_reading w r)
after_reading-Guards w (ok c effects) =
    on_signals-IsGuarded (record w { mychat = some c }) c c effects refl
after_reading-Guards w undefined = tt
after_reading-Guards w no_fuel = tt

module _ (q : Qt) where
  enter_in_chat-Guards :
      (w : MainWindow) (nick id : Bytes) (listens sends : Bool)
      → IsGuarded w
      → Guards (enter_in_chat q w nick id listens sends)
  unfolding enter_in_chat
  enter_in_chat-Guards w [] id listens sends g = g
  enter_in_chat-Guards w (n ∷ ick) id listens sends g = tt

  deleted-Guards :
      (w : MainWindow) (effects : List Effect) (gone : Option ChatNetwork)
      → Guarded none w.can_exit w.can_mail w.can_send
      → Guards (close_connections_slot w effects gone)
  deleted-Guards w effects none g = tt
  deleted-Guards w effects (some gone) g = g

  close_chat-Guards :
      (w : MainWindow) (sent : List Effect) (closed : Option (ChatNetwork × List Effect))
      → Guarded none w.can_exit w.can_mail w.can_send
      → Guards (close_chat w sent closed)
  close_chat-Guards w sent none g = tt
  close_chat-Guards w sent (some (c, effects)) g = deleted-Guards w _ (destroy c) g

  exit_chat-Guards :
      (w : MainWindow) (chat : Option ChatNetwork) (exits mails sends : Bool)
      → Guarded chat exits mails sends
      → exits ≡ true
      → Guards (exit_chat q w chat)
  unfolding exit_chat
  exit_chat-Guards w none exits mails sends (e, m, s) h = cc
  exit_chat-Guards w (some c) exits mails sends g h =
      close_chat-Guards (without_chat w) _ (close_sockets c) (refl, refl, refl)

  send_to-Guards :
      (w : MainWindow) (c : ChatNetwork) (u : Option ChatUser)
      → IsGuarded w
      → Guards (send_to q w c u)
  send_to-Guards w c none g = tt
  send_to-Guards w c (some u) g = g

  send_clicked-Guards :
      (w : MainWindow) (text : Bytes) (row : Option ℕ) (chat : Option ChatNetwork)
      (exits mails sends : Bool)
      → Guarded chat exits mails sends
      → sends ≡ true
      → IsGuarded w
      → Guards (send_clicked q w text row chat)
  unfolding send_clicked
  send_clicked-Guards w [] row chat exits mails sends g h k = k
  send_clicked-Guards w (t ∷ ext) none chat exits mails sends g h k = k
  send_clicked-Guards w (t ∷ ext) (some row) none exits mails sends (e, m, s) h k = cc
  send_clicked-Guards w (t ∷ ext) (some row) (some c) exits mails sends g h k =
      send_to-Guards w c (get_elem? c.vec_user row) k

  mailing_clicked-Guards :
      (w : MainWindow) (text : Bytes) (chat : Option ChatNetwork) (exits mails sends : Bool)
      → Guarded chat exits mails sends
      → mails ≡ true
      → IsGuarded w
      → Guards (mailing_clicked q w text chat)
  unfolding mailing_clicked
  mailing_clicked-Guards w [] chat exits mails sends g h k = k
  mailing_clicked-Guards w (t ∷ ext) none exits mails sends (e, m, s) h k = cc
  mailing_clicked-Guards w (t ∷ ext) (some c) exits mails sends g h k = k

  datagrams_arrive-Guards :
      (w : MainWindow) (pending : List (ℕ × Bytes)) (chat : Option ChatNetwork)
      → IsGuarded w
      → Guards (datagrams_arrive q w pending chat)
  unfolding datagrams_arrive
  datagrams_arrive-Guards w pending none g = g
  datagrams_arrive-Guards w pending (some c) g =
      after_reading-Guards w (slot_read_messages q c pending)

  on_event-Guards : (w : MainWindow) (e : Event) → IsGuarded w → Guards (on_event q w e)
  unfolding on_event
  on_event-Guards w (types text) g = g
  on_event-Guards w (clicks_enter nick id listens sends) g =
      if_both Guards w.can_enter _ _ (λ _. enter_in_chat-Guards w nick id listens sends g) (λ _. g)
  on_event-Guards w clicks_exit g =
      if_both Guards w.can_exit _ _
        (λ h. exit_chat-Guards w w.mychat w.can_exit w.can_mail w.can_send g h) (λ _. g)
  on_event-Guards w (clicks_send row) g =
      if_both Guards w.can_send _ _
        (λ h. send_clicked-Guards w w.text row w.mychat w.can_exit w.can_mail w.can_send g h g)
        (λ _. g)
  on_event-Guards w clicks_mailing g =
      if_both Guards w.can_mail _ _
        (λ h. mailing_clicked-Guards w w.text w.mychat w.can_exit w.can_mail w.can_send g h g)
        (λ _. g)
  on_event-Guards w (arrives pending) g = datagrams_arrive-Guards w pending w.mychat g

  then_events-Guards :
      (r : Shown) (k : MainWindow → Shown)
      → Guards r
      → ((w : MainWindow) → IsGuarded w → Guards (k w))
      → Guards (then_events r k)
  then_events-Guards (shown w effects) k g h = h w g
  then_events-Guards no_chat k g h = g
  then_events-Guards dangling k g h = tt
  then_events-Guards out_of_range k g h = tt

  events-Guards : (w : MainWindow) (es : List Event) → IsGuarded w → Guards (on_events q w es)
  unfolding on_events
  events-Guards w [] g = g
  events-Guards w (e ∷ es) g =
      then_events-Guards (on_event q w e) _ (on_event-Guards w e g)
        (λ w' g'. events-Guards w' es g')

  -- Whatever is typed, clicked and received, and in whatever order: up to an access outside a vector of
  -- clients or to a deleted socket, the window never uses the peer before it is made or after it is deleted, and where there is
  -- none, the buttons that use it are disabled.
  pub on_events-Guards : (es : List Event) → Guards (on_events q new_window es)
  on_events-Guards es = events-Guards new_window es (refl, refl, refl)
