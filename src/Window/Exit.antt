-- ===== src/Window/Exit.antt =====
-- What happens to the peer of lesson8/f2f_chat when the user leaves the chat.
use mathlib.Core.Bool.{false≢true}
use gb_cpp_network_programmi.Base.{
  codes, ◌++◌, ◌∷◌, [], if_both, ◌≡◌, ◌≢◌, ◌↔◌, ◌⊎◌, inl, inr, refl, subst, sym, ◌∙◌, true, List,
  Option, none, some,
}
use gb_cpp_network_programmi.Qt.{Qt}
use gb_cpp_network_programmi.Chat.{
  send_message, broadcast, close_connections, ChatNetwork, Effect, Socket, shut, opened, deleted,
}
use gb_cpp_network_programmi.Chat.Sockets.{delete_if_open, close_sockets, destroy}
use gb_cpp_network_programmi.Window.{
  Shown, without_chat, MainWindow, shown, dangling, new_window, exit_chat, Event, clicks_exit,
  on_event, on_events,
}
use gb_cpp_network_programmi.Window.Buttons.{Guards, Guarded, IsGuarded, on_events-Guards}

Socket-cases : (s : Socket) → (s ≡ shut) ⊎ (s ≢ shut)
Socket-cases shut = inl refl
Socket-cases opened = inr (λ e. cc)
Socket-cases deleted = inr (λ e. cc)

module _ (q : Qt) where
  -- The window behind an exit that ends, and what the exit has sent and emitted.
  abbrev leaves : MainWindow → ChatNetwork → Shown
  leaves w c =
      shown (record (without_chat w) { mychat = none })
        (send_message q c 1 (codes "bye") c.id_program broadcast ++ (close_connections ∷ []))

  shut_exits :
      (w : MainWindow) (c : ChatNetwork)
      → c.listen_socket ≡ shut
      → c.send_socket ≡ shut
      → exit_chat q w (some c) ≡ leaves w c
  unfolding exit_chat close_sockets destroy delete_if_open
  shut_exits w c l s = simp (l, s) refl

  open_dangles :
      (w : MainWindow) (c : ChatNetwork) (l s : Socket)
      → c.listen_socket ≡ l
      → c.send_socket ≡ s
      → (exit_chat q w (some c) ≡ dangling) ⊎ ((l ≡ shut) × (s ≡ shut))
  unfolding exit_chat close_sockets destroy delete_if_open
  open_dangles w c shut shut l s = inr (refl, refl)
  open_dangles w c shut opened l s = inl (simp (l, s) refl)
  open_dangles w c shut deleted l s = inl (simp (l, s) refl)
  open_dangles w c opened shut l s = inl (simp (l, s) refl)
  open_dangles w c opened opened l s = inl (simp (l, s) refl)
  open_dangles w c opened deleted l s = inl (simp (l, s) refl)
  open_dangles w c deleted s' l s = inl (simp (l) refl)

  -- The exit with a peer uses a deleted socket just if one of its sockets is open, or was deleted before.
  abbrev Exits : MainWindow → ChatNetwork → Shown → Type 0
  Exits w c r = (r ≡ dangling) ↔ ((c.listen_socket ≢ shut) ⊎ (c.send_socket ≢ shut))

  exit_chat-Exits : (w : MainWindow) (c : ChatNetwork) → Exits w c (exit_chat q w (some c))
  exit_chat-Exits w c = (uses, used)
    where
      uses : exit_chat q w (some c) ≡ dangling → (c.listen_socket ≢ shut) ⊎ (c.send_socket ≢ shut)
      uses e = elim (Socket-cases c.listen_socket) [
        | inr l ↦ inl l
        | inl l ↦ elim (Socket-cases c.send_socket) [
          | inr s ↦ inr s
          | inl s ↦ let r = shut_exits w c l s in cc
        ]
      ]

      used : (c.listen_socket ≢ shut) ⊎ (c.send_socket ≢ shut) → exit_chat q w (some c) ≡ dangling
      used h = elim (open_dangles w c c.listen_socket c.send_socket refl refl) [
        | inl e ↦ e
        | inr (l, s) ↦ elim h [ inl n ↦ absurd (n l) | inr n ↦ absurd (n s) ]
      ]

  peer-Exits :
      (w : MainWindow) (chat : Option ChatNetwork)
      → Guarded chat w.can_exit w.can_mail w.can_send
      → w.can_exit ≡ true
      → (c : ChatNetwork) × (chat ≡ some c) × Exits w c (exit_chat q w chat)
  peer-Exits w none (e, m, s) h = cc
  peer-Exits w (some c) g h = (c, refl, exit_chat-Exits w c)

  -- After any events: where the button that leaves the chat is enabled there is a peer, and a click on
  -- it uses a socket that was deleted just if one of the peer's sockets is open or was deleted before.
  pub exit_uses_deleted :
      (es : List Event) (w : MainWindow) (effects : List Effect)
      → on_events q new_window es ≡ shown w effects
      → w.can_exit ≡ true
      → (c : ChatNetwork) × (w.mychat ≡ some c)
        × ((on_event q w clicks_exit ≡ dangling)
            ↔ ((c.listen_socket ≢ shut) ⊎ (c.send_socket ≢ shut)))
  unfolding on_event
  exit_uses_deleted es w effects r h =
      let g : IsGuarded w = subst Guards r (on_events-Guards q es) in
      let (c, m, x) = peer-Exits w w.mychat g h in
      (c, m, if_both (Exits w c) w.can_exit _ _ (λ _. x) (λ no. absurd (false≢true (sym no ∙ h))))
