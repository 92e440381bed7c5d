-- ===== src/SslSession/Protocol.antt =====
-- The order of the packets between lesson6/qssl_client/main.cpp and lesson6/qssl_server/main.cpp.
use gb_cpp_network_programmi.Base.{
  ◌+◌, ◌≡◌, refl, sym, subst, ap, ◌∙◌, ◌⊎◌, inl, inr, true, false, List, [], ◌∷◌, ◌++◌, Bytes,
  length, some,
}
use gb_cpp_network_programmi.Base.Fallible.{bind-some, some-injective}
use gb_cpp_network_programmi.Qt.{Qt, IsQt, All, All-append}
use gb_cpp_network_programmi.SslServer.{reply, incoming_connection, slot_client_disconnected}
use gb_cpp_network_programmi.SslServer.Fields.{IsValue}
use gb_cpp_network_programmi.SslClient.{
  Client, slot_server_disconnected, ask_exit, connect, ready_read,
}
use gb_cpp_network_programmi.SslClient.Replies.{answered, answers_understood, ready_read-inv}
use gb_cpp_network_programmi.SslSession.{
  System, flushed, Step, server_reads, client_reads, user_types, server_expires, client_expires,
  Reach, start, next,
}
use gb_cpp_network_programmi.SslSession.Packets.{
  ask_exit-typed, InSession, SendsLogin, SendsMessage, login-Sends, message-Sends,
}
use gb_cpp_network_programmi.SslSession.Serving.{
  Phase, login_sent, login_refused, admitted, message_sent, Inv, server_read,
}

-- The answers that the client can be sent, without `400 Bad Request`.
abbrev pub Replies : Qt → List Bytes → Type 0
Replies q = All (λ r. (r ≡ reply q 200) ⊎ (r ≡ reply q 401))

module _ (q : Qt) (L : IsQt q) (md5_hex : Bytes → Bytes)
    (hex : (s : Bytes) → IsValue (md5_hex s)) where
  -- What the client does when it reads 200, and when it reads 401.
  reads_200 :
      (c c' : Client)
      → InSession c
      → c.sent ≡ []
      → ready_read q md5_hex c (reply q 200) ≡ some c'
      → InSession c' × SendsMessage q c'
  reads_200 c c' (t, (n, e)) s h =
      let (r, made, same) = ready_read-inv q L md5_hex c c' n (reply q 200) e h in
      let (typed, links, sends) =
        message-Sends q L md5_hex hex (answered c) r t refl s
          (sym (answers_understood q L md5_hex c).0 ∙ made) in
      elim same [
        | inl k ↦
            subst (λ x. InSession x × SendsMessage q x) (sym k) ((typed, (n, links ∙ e)), sends)
        | inr k ↦
            subst (λ x. InSession x × SendsMessage q x) (sym k) ((typed, (n, links ∙ e)), sends)
      ]

  reads_401 :
      (c c' : Client)
      → InSession c
      → c.sent ≡ []
      → ready_read q md5_hex c (reply q 401) ≡ some c'
      → InSession c' × SendsLogin q c'
  reads_401 c c' (t, (n, e)) s h =
      let (r, made, same) = ready_read-inv q L md5_hex c c' n (reply q 401) e h in
      let sends =
        login-Sends q L md5_hex hex (answered c) r t refl s
          (sym (answers_understood q L md5_hex c).1 ∙ made) in
      elim same [
        | inl k ↦ subst (λ x. InSession x × SendsLogin q x) (sym k) sends
        | inr k ↦ subst (λ x. InSession x × SendsLogin q x) (sym k) sends
      ]

  -- What is sent when nothing is on its way, is the only packet on its way.
  flush :
      (out sent : List Bytes) (packet : Bytes)
      → out ≡ []
      → sent ≡ packet ∷ []
      → out ++ sent ≡ packet ∷ []
  flush out sent packet o s = rw (o, s)

  client_read :
      (sys : System) (input : Bytes) (rest : List Bytes) (c : Client)
      → Inv q sys
      → sys.to_client ≡ input ∷ rest
      → ready_read q md5_hex sys.client input ≡ some c
      → Inv q
          (record sys { client = flushed c; to_server = sys.to_server ++ c.sent; to_client = rest })
  client_read sys input rest c (i, s, login_sent host login secret l k out back fresh) e h = cc
  client_read sys input rest c (i, s, message_sent host message m out back known) e h = cc
  client_read sys input rest c (i, s, login_refused out back fresh) e h =
      let at : input ≡ reply q 401 = cc in
      let none_left : rest ≡ [] = cc in
      let (i', (host, login, secret, l, k, w)) =
        reads_401 sys.client c i s (sym (ap (ready_read q md5_hex sys.client) at) ∙ h) in
      (
        i',
        refl,
        login_sent host login secret l k (flush sys.to_server c.sent _ out w) none_left fresh,
      )
  client_read sys input rest c (i, s, admitted out back known) e h =
      let at : input ≡ reply q 200 = cc in
      let none_left : rest ≡ [] = cc in
      let (i', (host, message, m, w)) =
        reads_200 sys.client c i s (sym (ap (ready_read q md5_hex sys.client) at) ∙ h) in
      (i', refl, message_sent host message m (flush sys.to_server c.sent _ out w) none_left known)

  -- A step that leaves the packets and the authorization alone.
  Phase-keep :
      (sys sys' : System)
      → sys'.to_server ≡ sys.to_server
      → sys'.to_client ≡ sys.to_client
      → sys'.server.ssl_client.is_autorization ≡ sys.server.ssl_client.is_autorization
      → Phase q sys
      → Phase q sys'
  Phase-keep sys sys' o b a (login_sent host login secret l k out back fresh) =
      login_sent host login secret l k (o ∙ out) (b ∙ back) (a ∙ fresh)
  Phase-keep sys sys' o b a (login_refused out back fresh) =
      login_refused (o ∙ out) (b ∙ back) (a ∙ fresh)
  Phase-keep sys sys' o b a (admitted out back known) = admitted (o ∙ out) (b ∙ back) (a ∙ known)
  Phase-keep sys sys' o b a (message_sent host message m out back known) =
      message_sent host message m (o ∙ out) (b ∙ back) (a ∙ known)

  client_exit :
      (sys : System) (c : Client)
      → Inv q sys
      → slot_server_disconnected sys.client ≡ some c
      → Inv q (record sys { client = c })
  unfolding slot_server_disconnected
  client_exit sys c ((t, (n, e)), s, p) h =
      let (typed, asked, made) = bind-some (ask_exit sys.client.typed) _ c h in
      let k =
        some-injective (record sys.client { is_open = false; typed = typed; has_exited = true }) c
          made in
      subst (λ c. Inv q (record sys { client = c })) k
        (
          (ask_exit-typed sys.client.typed typed t asked, (n, e)),
          s,
          Phase-keep sys _ refl refl refl p,
        )

  Step-Inv : {sys sys' : System} → Step q md5_hex sys sys' → Inv q sys → Inv q sys'
  unfolding slot_client_disconnected
  Step-Inv {sys} (server_reads {input} {rest} {written} {s} e o h) (i, sent, p) =
      (i, sent, server_read q L sys input rest written s p e h)
  Step-Inv {sys} (client_reads {input} {rest} {c} e o h) inv = client_read sys input rest c inv e h
  Step-Inv {sys} (user_types words w) ((t, n), sent, p) =
      ((All-append IsValue sys.client.typed words t w, n), sent, Phase-keep sys _ refl refl refl p)
  Step-Inv {sys} (server_expires a) (i, sent, p) = (i, sent, Phase-keep sys _ refl refl refl p)
  Step-Inv {sys} (client_expires {c} a h) inv = client_exit sys c inv h

  pub Reach-Inv : {sys : System} → Reach q md5_hex sys → Inv q sys
  unfolding connect incoming_connection slot_client_disconnected
  Reach-Inv (start {c} {c'} s fresh h) =
      let (i, (host, login, secret, l, k, w)) =
        login-Sends q L md5_hex hex c c' fresh.typed fresh.request fresh.sent h in
      (i, refl, login_sent host login secret l k w refl refl)
  Reach-Inv (next r step) = Step-Inv step (Reach-Inv r)

  Phase-Replies :
      (sys : System)
      → Phase q sys
      → Replies q sys.to_client × (length sys.to_server + length sys.to_client ≡ 1)
  Phase-Replies sys (login_sent host login secret l k out back fresh) = (rw back tt, rw (out, back))
  Phase-Replies sys (login_refused out back fresh) = (rw back (inr refl, tt), rw (out, back))
  Phase-Replies sys (admitted out back known) = (rw back (inl refl, tt), rw (out, back))
  Phase-Replies sys (message_sent host message m out back known) = (rw back tt, rw (out, back))

  -- A client whose user types nothing but values, with a server and over a lawful Qt, whatever either
  -- reads, is typed or expires: there is always just one packet on its way, and the client is never
  -- answered with 400, only with 200 or 401.
  pub Reach-Replies :
      {sys : System}
      → Reach q md5_hex sys
      → Replies q sys.to_client × (length sys.to_server + length sys.to_client ≡ 1)
  Reach-Replies {sys} r = Phase-Replies sys (Reach-Inv r).2
