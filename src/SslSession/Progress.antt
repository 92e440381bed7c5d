-- ===== src/SslSession/Progress.antt =====
-- The session of lesson6/qssl_client/main.cpp with lesson6/qssl_server/main.cpp never gets stuck while both
-- ends of it are open and the user goes on typing.
use gb_cpp_network_programmi.Base.{
  ℕ, zero, suc, ◌≡◌, sym, ap, ◌∙◌, inl, inr, true, List, [], ◌∷◌, ◌++◌, Bytes, length, arith,
}
use gb_cpp_network_programmi.Qt.{Qt, IsQt, All}
use gb_cpp_network_programmi.SslServer.Fields.{IsValue}
use gb_cpp_network_programmi.SslClient.Replies.{answered}
use gb_cpp_network_programmi.SslSession.{
  System, flushed, Step, server_reads, client_reads, user_types, Reach, next,
}
use gb_cpp_network_programmi.SslSession.Packets.{InSession}
use gb_cpp_network_programmi.SslSession.Protocol.{Reach-Inv, Reach-Replies}
use gb_cpp_network_programmi.SslSession.Turns.{
  words, words-IsValue, read-Returns, AtServer, AtClient, Phase-turn,
}

-- The packet that was on its way has been read, and another one is on its way back.
abbrev pub IsAnswered : System → System → Type 0
IsAnswered before end =
    (length end.to_server ≡ length before.to_client)
    × (length end.to_client ≡ length before.to_server)

abbrev pub typed_by : System → List Bytes → System
typed_by sys more = record sys { client = record sys.client { typed = sys.client.typed ++ more } }

-- A run of so many readings, before each of which the user may type something.
pub data Exchange (q : Qt) (md5_hex : Bytes → Bytes) (sys : System) : ℕ → System → Type 0 where
  rests : Exchange q md5_hex sys zero sys
  reads :
      {n : ℕ} {before end : System} (more : List Bytes)
      → Exchange q md5_hex sys n before
      → All IsValue more
      → Step q md5_hex (typed_by before more) end
      → IsAnswered before end
      → Exchange q md5_hex sys (suc n) end

-- Both ends are open.
abbrev pub IsOpen : System → Type 0
IsOpen sys = (sys.server.ssl_client.is_open ≡ true) × (sys.client.is_open ≡ true)

module _ (q : Qt) (L : IsQt q) (md5_hex : Bytes → Bytes)
    (hex : (s : Bytes) → IsValue (md5_hex s)) where
  -- A reading.
  abbrev Reading : System → Type 0
  Reading sys =
      (end : System) × Step q md5_hex (typed_by sys words) end × IsAnswered sys end × IsOpen end

  server-Reading : (sys : System) → AtServer q L md5_hex sys → IsOpen sys → Reading sys
  server-Reading sys (input, packet, s, out, back, h, o) (server, client) = (
    _,
    server_reads out server h,
    (sym (ap length back), ap (λ t. length (t ++ (packet ∷ []))) back ∙ sym (ap length out)),
    (o ∙ server, client),
  )

  client-Reading :
      {sys : System}
      → Reach q md5_hex sys
      → InSession sys.client
      → AtClient q L md5_hex sys
      → IsOpen sys
      → Reading sys
  client-Reading {sys} r session (input, out, back, known) (server, client) =
      let (c', e, o) = read-Returns q L md5_hex sys.client input session known in
      let step : Step q md5_hex (typed_by sys words) (record (typed_by sys words) {
        client = flushed c';
        to_server = sys.to_server ++ c'.sent;
        to_client = [];
      }) =
        client_reads back client e in
      let one =
        (Reach-Replies q L md5_hex hex (next (next r (user_types words words-IsValue)) step)).1 in
      (_, step, (omega (arith, one, ap length back), sym (ap length out)), (server, o ∙ client))

  Reach-Reading : {sys : System} → Reach q md5_hex sys → IsOpen sys → Reading sys
  Reach-Reading {sys} r open_ends =
      let (session, sent, phase) = Reach-Inv q L md5_hex hex r in
      elim (Phase-turn q L md5_hex sys phase) [
        | inl turn ↦ server-Reading sys turn open_ends
        | inr turn ↦ client-Reading r session turn open_ends
      ]

  exchanges :
      {sys : System} (n : ℕ)
      → Reach q md5_hex sys
      → IsOpen sys
      → (end : System) × Exchange q md5_hex sys n end × Reach q md5_hex end × IsOpen end
  exchanges {sys} zero r o = (sys, rests, r, o)
  exchanges (suc n) r o =
      let (before, x, r', o') = exchanges n r o in
      let (end, step, answered, o'') = Reach-Reading r' o' in
      (
        end,
        reads words x words-IsValue step answered,
        next (next r' (user_types words words-IsValue)) step,
        o'',
      )

  -- From any state that the session reaches with both ends open, any number of packets can still be read, one
  -- after the other, if the user types words: each reading is answered with the next packet.
  pub Reach-Exchange :
      {sys : System} (n : ℕ)
      → Reach q md5_hex sys
      → IsOpen sys
      → (end : System) × Exchange q md5_hex sys n end
  Reach-Exchange n r o = let (end, x, r', o') = exchanges n r o in (end, x)
