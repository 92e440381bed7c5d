-- ===== src/Window/Contacts.antt =====
-- The contacts of lesson8/f2f_chat/mainwindow.cpp and the clients of its peer: what is chosen is there.
use gb_cpp_network_programmi.Base.{
  get_elem?_cases, ℕ, ◌≤◌, ◌<◌, ◌≡◌, ◌≢◌, refl, sym, ap, subst, ◌⊎◌, inl, inr, if_both, Bool, true,
  false, List, [], ◌∷◌, Bytes, length, map, get_elem?, Option, none, some, arith,
}
use gb_cpp_network_programmi.Qt.{Qt}
use gb_cpp_network_programmi.Chat.{
  ChatUser, ChatNetwork, Effect, datagram, new_user, new_message, user_disconnect,
  close_connections, Run, ok, undefined, no_fuel, label, slot_read_messages, mailing,
}
use gb_cpp_network_programmi.Chat.Sockets.{close_sockets, destroy}
use gb_cpp_network_programmi.Chat.Leaving.{IsSynced}
use gb_cpp_network_programmi.Chat.Sync.{Keeps, slot_read_messages-Keeps}
use gb_cpp_network_programmi.Chat.Growth.{HasLeave, Tells, slot_read_messages-Tells}
use gb_cpp_network_programmi.Window.{
  close_connections_slot, close_chat, without_chat, dangling, MainWindow, Shown, shown, no_chat,
  out_of_range, new_window, enter_in_chat, exit_chat, send_to, send_clicked, mailing_clicked,
  on_signal, on_signals, after_reading, datagrams_arrive, Event, types, clicks_enter, clicks_exit,
  clicks_send, clicks_mailing, arrives, on_event, then_events, on_events,
}

-- The contacts that are shown have clients behind them; a peer is made only where there is none.
abbrev pub Backed : Option ChatNetwork → Bool → List Bytes → Type 0
Backed none can_enter contacts = contacts ≡ []
Backed (some c) can_enter contacts =
    (can_enter ≡ false) × IsSynced c × (length contacts ≤ length c.vec_user)

abbrev pub IsBacked : MainWindow → Type 0
IsBacked w = Backed w.mychat w.can_enter w.contacts

abbrev pub Backs : Shown → Type 0
Backs (shown w effects) = IsBacked w
Backs no_chat = Unit
Backs dangling = Unit
Backs out_of_range = Unit

length-map {ℓ κ} :
    {A : Type ℓ} {B : Type κ} (f : A → B) (xs : List A) → length (map f xs) ≡ length xs
length-map f [] = refl
length-map f (x ∷ xs) = omega (arith, length-map f xs)

-- The list that a signal shows is as long as the vector.
synced-le : (c : ChatNetwork) → IsSynced c → length c.list_users ≤ length c.vec_user
synced-le c s = omega (arith, ap length s, length-map label c.vec_user)

on_signals-IsBacked :
    (w : MainWindow) (c d : ChatNetwork) (effects : List Effect)
    → w.mychat ≡ some d
    → d.vec_user ≡ c.vec_user
    → IsSynced d
    → IsSynced c
    → w.can_enter ≡ false
    → (length w.contacts ≤ length c.vec_user) ⊎ HasLeave effects
    → IsBacked (on_signals w c effects)
unfolding on_signals on_signal
on_signals-IsBacked w c d [] m v s t e (inl h) =
    subst (λ o. Backed o w.can_enter w.contacts) (sym m) (e, s, omega (arith, h, ap length v))
on_signals-IsBacked w c d [] m v s t e (inr n) = absurd n
on_signals-IsBacked w c d (datagram address bytes ∷ effects) m v s t e h =
    on_signals-IsBacked w c d effects m v s t e h
on_signals-IsBacked w c d (new_user ∷ effects) m v s t e h =
    on_signals-IsBacked _ c d effects m v s t e (inl (synced-le c t))
on_signals-IsBacked w c d (user_disconnect gone ∷ effects) m v s t e h =
    on_signals-IsBacked _ c d effects m v s t e (inl (synced-le c t))
on_signals-IsBacked w c d (new_message ∷ effects) m v s t e h =
    on_signals-IsBacked _ (record c { list_messages = [] }) (record c { list_messages = [] })
      effects refl refl t t e h
on_signals-IsBacked w c d (close_connections ∷ effects) m v s t e h =
    on_signals-IsBacked w c d effects m v s t e h

after_reading-Backs :
    (w : MainWindow) (n : ℕ) (r : Run)
    → w.can_enter ≡ false
    → length w.contacts ≤ n
    → Keeps r
    → Tells n r
    → Backs (after_reading w r)
after_reading-Backs w n undefined e l k t = tt
after_reading-Backs w n no_fuel e l k t = tt
after_reading-Backs w n (ok c effects) e l k (inl h) =
    on_signals-IsBacked (record w { mychat = some c }) c c effects refl refl k k e
      (inl (omega (arith, l, h)))
after_reading-Backs w n (ok c effects) e l k (inr h) =
    on_signals-IsBacked (record w { mychat = some c }) c c effects refl refl k k e (inr h)

-- A peer that is made knows nobody yet.
module _ (q : Qt) where
  enter_in_chat-Backs :
      (w : MainWindow) (nick id : Bytes) (listens sends : Bool) (chat : Option ChatNetwork)
      → Backed chat w.can_enter w.contacts
      → IsBacked w
      → w.can_enter ≡ true
      → Backs (enter_in_chat q w nick id listens sends)
  unfolding enter_in_chat mailing
  enter_in_chat-Backs w [] id listens sends chat g b e = b
  enter_in_chat-Backs w (n ∷ ick) id listens sends (some c) g b e = cc
  enter_in_chat-Backs w (n ∷ ick) id listens sends none g b e =
      (refl, refl, omega (arith, ap length g))

  deleted-Backs :
      (w : MainWindow) (effects : List Effect) (gone : Option ChatNetwork)
      → w.contacts ≡ []
      → Backs (close_connections_slot w effects gone)
  deleted-Backs w effects none b = tt
  deleted-Backs w effects (some gone) b = b

  close_chat-Backs :
      (w : MainWindow) (sent : List Effect) (closed : Option (ChatNetwork × List Effect))
      → w.contacts ≡ []
      → Backs (close_chat w sent closed)
  close_chat-Backs w sent none b = tt
  close_chat-Backs w sent (some (c, effects)) b = deleted-Backs w _ (destroy c) b

  exit_chat-Backs : (w : MainWindow) (chat : Option ChatNetwork) → Backs (exit_chat q w chat)
  unfolding exit_chat
  exit_chat-Backs w none = tt
  exit_chat-Backs w (some c) = close_chat-Backs (without_chat w) _ (close_sockets c) refl

  send_to-Backs :
      (w : MainWindow) (c : ChatNetwork) (u : Option ChatUser)
      → IsBacked w
      → Backs (send_to q w c u)
  send_to-Backs w c none b = tt
  send_to-Backs w c (some u) b = b

  send_clicked-Backs :
      (w : MainWindow) (text : Bytes) (row : Option ℕ) (chat : Option ChatNetwork)
      → IsBacked w
      → Backs (send_clicked q w text row chat)
  unfolding send_clicked
  send_clicked-Backs w [] row chat b = b
  send_clicked-Backs w (t ∷ ext) none chat b = b
  send_clicked-Backs w (t ∷ ext) (some row) none b = tt
  send_clicked-Backs w (t ∷ ext) (some row) (some c) b =
      send_to-Backs w c (get_elem? c.vec_user row) b

  mailing_clicked-Backs :
      (w : MainWindow) (text : Bytes) (chat : Option ChatNetwork)
      → IsBacked w
      → Backs (mailing_clicked q w text chat)
  unfolding mailing_clicked
  mailing_clicked-Backs w [] chat b = b
  mailing_clicked-Backs w (t ∷ ext) none b = tt
  mailing_clicked-Backs w (t ∷ ext) (some c) b = b

  datagrams_arrive-Backs :
      (w : MainWindow) (pending : List (ℕ × Bytes)) (chat : Option ChatNetwork)
      → Backed chat w.can_enter w.contacts
      → IsBacked w
      → Backs (datagrams_arrive q w pending chat)
  unfolding datagrams_arrive
  datagrams_arrive-Backs w pending none g b = b
  datagrams_arrive-Backs w pending (some c) (e, s, l) b =
      after_reading-Backs w (length c.vec_user) (slot_read_messages q c pending) e l
        (slot_read_messages-Keeps q c pending s) (slot_read_messages-Tells q c pending s)

  on_event-Backs : (w : MainWindow) (e : Event) → IsBacked w → Backs (on_event q w e)
  unfolding on_event
  on_event-Backs w (types text) b = b
  on_event-Backs w (clicks_enter nick id listens sends) b =
      if_both Backs w.can_enter _ _
        (λ e. enter_in_chat-Backs w nick id listens sends w.mychat b b e) (λ _. b)
  on_event-Backs w clicks_exit b =
      if_both Backs w.can_exit _ _ (λ _. exit_chat-Backs w w.mychat) (λ _. b)
  on_event-Backs w (clicks_send row) b =
      if_both Backs w.can_send _ _ (λ _. send_clicked-Backs w w.text row w.mychat b) (λ _. b)
  on_event-Backs w clicks_mailing b =
      if_both Backs w.can_mail _ _ (λ _. mailing_clicked-Backs w w.text w.mychat b) (λ _. b)
  on_event-Backs w (arrives pending) b = datagrams_arrive-Backs w pending w.mychat b b

  then_events-Backs :
      (r : Shown) (k : MainWindow → Shown)
      → Backs r
      → ((w : MainWindow) → IsBacked w → Backs (k w))
      → Backs (then_events r k)
  then_events-Backs (shown w effects) k b h = h w b
  then_events-Backs no_chat k b h = tt
  then_events-Backs dangling k b h = tt
  then_events-Backs out_of_range k b h = tt

  events-Backs : (w : MainWindow) (es : List Event) → IsBacked w → Backs (on_events q w es)
  unfolding on_events
  events-Backs w [] b = b
  events-Backs w (e ∷ es) b =
      then_events-Backs (on_event q w e) _ (on_event-Backs w e b) (λ w' b'. events-Backs w' es b')

  sends_to_chosen :
      (w : MainWindow) (text : Bytes) (row : ℕ) (chat : Option ChatNetwork)
      → Backed chat w.can_enter w.contacts
      → row < length w.contacts
      → send_clicked q w text (some row) chat ≢ out_of_range
  unfolding send_clicked
  sends_to_chosen w [] row chat b h e = cc
  sends_to_chosen w (t ∷ ext) row none b h e = cc
  sends_to_chosen w (t ∷ ext) row (some c) (f, s, l) h e = elim (get_elem?_cases c.vec_user row) [
    | inl (out, none_at) ↦ absurd (omega (arith, out, l, h))
    | inr (inside, u, at) ↦
        let z : send_to q w c (some u) ≡ out_of_range =
          subst (λ o. send_to q w c o ≡ out_of_range) at e in
        cc
  ]

  -- After any events: a click on the button that sends never leaves the vector of the clients if the row
  -- that is chosen is one of the contacts shown.
  pub chosen_row_in_range :
      (es : List Event) (w : MainWindow) (effects : List Effect) (row : ℕ)
      → on_events q new_window es ≡ shown w effects
      → row < length w.contacts
      → on_event q w (clicks_send (some row)) ≢ out_of_range
  unfolding on_event
  chosen_row_in_range es w effects row r h =
      let b : IsBacked w = subst Backs r (events-Backs new_window es refl) in
      if_both (λ s. s ≢ out_of_range) w.can_send _ _
        (λ _. sends_to_chosen w w.text row w.mychat b h) (λ _ e. cc)
