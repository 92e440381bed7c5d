-- ===== src/SslSession/Serving.antt =====
-- What is on its way between lesson6/qssl_client/main.cpp and lesson6/qssl_server/main.cpp, and what
-- the server makes of it.
use gb_cpp_network_programmi.Base.{
  ℕ, ◌≡◌, refl, sym, ap, ◌∙◌, inl, inr, true, false, List, [], ◌∷◌, ◌++◌, Bytes, text_eq,
}
use gb_cpp_network_programmi.Qt.{Qt, IsQt}
use gb_cpp_network_programmi.SslServer.{
  ThisServer, handled, reply, send, get_path, request_line, slot_ready_request,
}
use gb_cpp_network_programmi.SslServer.Fields.{IsValue, message_tokens, message_task}
use gb_cpp_network_programmi.SslServer.Login.{login_answered}
use gb_cpp_network_programmi.SslClient.{login_request, message_request}
use gb_cpp_network_programmi.SslSession.{System}
use gb_cpp_network_programmi.SslSession.Packets.{InSession}

-- What is on its way, and what the server thinks of the client meanwhile.
pub data Phase (q : Qt) (sys : System) : Type 0 where
  login_sent :
      (host login secret : Bytes)
      → IsValue login
      → IsValue secret
      → sys.to_server ≡ login_request q host login secret ∷ []
      → sys.to_client ≡ []
      → sys.server.ssl_client.is_autorization ≡ false
      → Phase q sys
  login_refused :
      sys.to_server ≡ []
      → sys.to_client ≡ reply q 401 ∷ []
      → sys.server.ssl_client.is_autorization ≡ false
      → Phase q sys
  admitted :
      sys.to_server ≡ []
      → sys.to_client ≡ reply q 200 ∷ []
      → sys.server.ssl_client.is_autorization ≡ true
      → Phase q sys
  message_sent :
      (host message : Bytes)
      → IsValue message
      → sys.to_server ≡ message_request q host message ∷ []
      → sys.to_client ≡ []
      → sys.server.ssl_client.is_autorization ≡ true
      → Phase q sys

-- The invariant.
abbrev pub Inv : Qt → System → Type 0
Inv q sys = InSession sys.client × (sys.client.sent ≡ []) × Phase q sys

module _ (q : Qt) (L : IsQt q) where
  -- A message of an authorized client is answered with 200.
  pub message_read :
      (s : ThisServer) (host message : Bytes)
      → IsValue message
      → s.ssl_client.is_autorization ≡ true
      → slot_ready_request q s (message_request q host message)
        ≡ handled (record s { timer_active = true }) (reply q 200 ∷ [])
  unfolding slot_ready_request request_line get_path send text_eq
  message_read s host message m known =
      rw (message_tokens q L host message m, message_task q L message m, known) refl

  handled_same :
      (s s' : ThisServer) (w w' : List Bytes) → handled s w ≡ handled s' w' → (s ≡ s') × (w ≡ w')
  handled_same s s' w w' e = (cc, cc)

  -- One answer, to a client that no answer is on its way to.
  one_answer :
      (back written : List Bytes) (code : ℕ) (answer s : ThisServer)
      → back ≡ []
      → handled answer (reply q code ∷ []) ≡ handled s written
      → (back ++ written ≡ reply q code ∷ [])
        × (answer.ssl_client.is_autorization ≡ s.ssl_client.is_autorization)
  one_answer back written code answer s b e =
      let (es, ew) = handled_same answer s (reply q code ∷ []) written e in
      (rw (b, ← ew), ap (λ s. s.ssl_client.is_autorization) es)

  -- What the server does to the phase when it reads.
  pub server_read :
      (sys : System) (input : Bytes) (rest written : List Bytes) (s : ThisServer)
      → Phase q sys
      → sys.to_server ≡ input ∷ rest
      → slot_ready_request q sys.server input ≡ handled s written
      → Phase q (record sys { server = s; to_server = rest; to_client = sys.to_client ++ written })
  server_read sys input rest written s (login_sent host login secret l k out back fresh) e h =
      let at : input ≡ login_request q host login secret = cc in
      let none_left : rest ≡ [] = cc in
      let h' = sym (ap (slot_ready_request q sys.server) at) ∙ h in
      elim (login_answered q L sys.server host login secret l k fresh) [
        | inl (listed, r) ↦
            let (w, a) = one_answer sys.to_client written 200 _ s back (sym r ∙ h') in
            admitted none_left w (sym a)
        | inr (unlisted, r) ↦
            let (w, a) = one_answer sys.to_client written 401 _ s back (sym r ∙ h') in
            login_refused none_left w (sym a ∙ fresh)
      ]
  server_read sys input rest written s (login_refused out back fresh) e h = cc
  server_read sys input rest written s (admitted out back known) e h = cc
  server_read sys input rest written s (message_sent host message m out back known) e h =
      let at : input ≡ message_request q host message = cc in
      let none_left : rest ≡ [] = cc in
      let r = message_read sys.server host message m known in
      let (w, a) =
        one_answer sys.to_client written 200 _ s back
          (sym r ∙ sym (ap (slot_ready_request q sys.server) at) ∙ h) in
      admitted none_left w (sym a ∙ known)
