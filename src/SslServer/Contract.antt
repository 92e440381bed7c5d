-- ===== src/SslServer/Contract.antt =====
-- What lesson6/qssl_server/main.cpp promises its client over a run: to keep to the automaton of guest and
-- member.
use gb_cpp_network_programmi.Base.{
  ℕ, ◌≡◌, refl, subst, ◌∙◌, true, false, List, [], ◌∷◌, Bytes, map, if_both, Bool, Option, none,
  some,
}
use gb_cpp_network_programmi.Qt.{Qt}
use gb_cpp_network_programmi.SslServer.{
  ThisServer, Handled, handled, undefined, reply, start, slot_client_disconnected,
  incoming_connection, slot_ready_request, Event, connects, sends, disconnects, times_out, handle,
  then_run, run,
}
use gb_cpp_network_programmi.SslServer.Users.{Answers, heard, answers}
use gb_cpp_network_programmi.SslServer.Automaton.{
  View, guest, view, request_of, cut_short, Allows, Refines, slot_ready_request-Refines,
}

-- What the automaton says of the client where a run ends: nothing if a list is indexed out of range.
abbrev pub end_view : Handled → Option View
end_view (handled s written) = some (view s)
end_view undefined = none

module _ (q : Qt) where
  -- The runs of the automaton, with the packets that are written in answer to each event: a new connection
  -- makes a guest, what closes one changes nothing, and neither is answered; a request line that is cut
  -- short ends the run.
  pub data Follows (users : List (Bytes × Bytes))
      : View → List Event → Answers → Option View → Type 0 where
    ended : {v : View} → Follows users v [] [] (some v)
    met :
        {v : View} {w : Option View} {es : List Event} {rest : Answers} (d e : Bool)
        → Follows users guest es rest w
        → Follows users v (connects d e ∷ es) (some [] ∷ rest) w
    asked :
        {v v' : View} {w : Option View} {es : List Event} {rest : Answers} {codes : List ℕ}
        {written : List Bytes} (input : Bytes)
        → Allows users v (request_of q input) v' codes
        → written ≡ map (reply q) codes
        → Follows users v' es rest w
        → Follows users v (sends input ∷ es) (some written ∷ rest) w
    broke :
        {v : View} {es : List Event} (input : Bytes)
        → request_of q input ≡ cut_short
        → Follows users v (sends input ∷ es) (none ∷ []) none
    left :
        {v : View} {w : Option View} {es : List Event} {rest : Answers}
        → Follows users v es rest w
        → Follows users v (disconnects ∷ es) (some [] ∷ rest) w
    expired :
        {v : View} {w : Option View} {es : List Event} {rest : Answers}
        → Follows users v es rest w
        → Follows users v (times_out ∷ es) (some [] ∷ rest) w

  then_asked :
      (users : List (Bytes × Bytes)) (v : View) (input : Bytes) (es : List Event) (h : Handled)
      (k : ThisServer → Handled) (a : ThisServer → Answers)
      → Refines q users v (request_of q input) h
      → ((s : ThisServer) → s.users ≡ users → Follows users (view s) es (a s) (end_view (k s)))
      → Follows users v (sends input ∷ es) (heard h a) (end_view (then_run h k))
  then_asked users v input es undefined k a r f = broke input r
  then_asked users v input es (handled s written) k a (codes, allowed, w, u) f =
      asked input allowed w (f s u)

  connected :
      (s : ThisServer) (d e : Bool)
      → (view (incoming_connection s d e) ≡ guest) × ((incoming_connection s d e).users ≡ s.users)
  unfolding incoming_connection slot_client_disconnected
  connected s true true = (refl, refl)
  connected s true false = (refl, refl)
  connected s false e = (refl, refl)

  run-Follows :
      (s : ThisServer) (users : List (Bytes × Bytes)) (es : List Event)
      → s.users ≡ users
      → Follows users (view s) es (answers q s es) (end_view (run q s es))
  unfolding run handle slot_client_disconnected
  run-Follows s users [] u = ended
  run-Follows s users (connects d e ∷ es) u =
      let (g, us) = connected s d e in
      met d e (
        subst
          (λ v.
            Follows users v es (answers q (incoming_connection s d e) es)
              (end_view (run q (incoming_connection s d e) es)))
          g (run-Follows (incoming_connection s d e) users es (us ∙ u)))
  run-Follows s users (sends input ∷ es) u =
      then_asked users (view s) input es (slot_ready_request q s input) _ _
        (subst (λ us. Refines q us (view s) (request_of q input) (slot_ready_request q s input)) u
          (slot_ready_request-Refines q s input))
        (λ s' u'. run-Follows s' users es u')
  run-Follows s users (disconnects ∷ es) u =
      left (run-Follows (slot_client_disconnected s) users es u)
  run-Follows s users (times_out ∷ es) u =
      if_both
        (λ h.
          Follows users (view s) (times_out ∷ es) (heard h (λ s'. answers q s' es))
            (end_view (then_run h (λ s'. run q s' es))))
        s.timer_active _ _
        (λ _.
          expired
            (run-Follows (record (slot_client_disconnected s) { timer_active = false }) users es u))
        (λ _. expired (run-Follows s users es u))

  -- Whatever happens to a server with these users, and in whatever order: what it writes for each event
  -- is the packets with the codes that the automaton of guest and member allows for a request in the
  -- state it is in, and nothing for any other event; the client is in the state that the automaton
  -- ends in; and a list is indexed out of range only by a request line that is cut short.
  pub start-Follows :
      (file : Option (List Bytes)) (can_listen : Bool) (es : List Event)
      → Follows
          (start q file can_listen).users
          guest
          es
          (answers q (start q file can_listen) es)
          (end_view (run q (start q file can_listen) es))
  unfolding start
  start-Follows file can_listen es = run-Follows (start q file can_listen) _ es refl
