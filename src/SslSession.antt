-- ===== src/SslSession.antt =====
-- lesson6/qssl_client/main.cpp and lesson6/qssl_server/main.cpp as one system: what each writes is on its
-- way until the other reads it, one packet at a time and whole.
use gb_cpp_network_programmi.Base.{◌≡◌, true, false, List, [], ◌∷◌, ◌++◌, Bytes, Option, some}
use gb_cpp_network_programmi.Qt.{Qt, All}
use gb_cpp_network_programmi.SslServer.{
  ThisServer, handled, incoming_connection, slot_ready_request, slot_client_disconnected,
}
use gb_cpp_network_programmi.SslServer.Fields.{IsValue}
use gb_cpp_network_programmi.SslClient.{Client, connect, ready_read, slot_server_disconnected}
pub mod Packets
pub mod Start
pub mod Serving
pub mod Protocol
pub mod Turns
pub mod Progress

pub record System : Type 0 where
  pub client : Client
  pub server : ThisServer
  pub to_server : List Bytes
  pub to_client : List Bytes

-- What the socket was given is on its way.
abbrev pub flushed : Client → Client
flushed c = record c { sent = [] }

-- The system behind the handshake: the server has made its client, and the client has sent its login.
abbrev pub meet : Client → ThisServer → System
meet c s = record {
  client = flushed c;
  server = incoming_connection s true true;
  to_server = c.sent;
  to_client = [];
}

module _ (q : Qt) (md5_hex : Bytes → Bytes) where
  -- One of the two reads, the user types, or a timer closes a connection.
  pub data Step (sys : System) : System → Type 0 where
    server_reads :
        {input : Bytes} {rest written : List Bytes} {s : ThisServer}
        → sys.to_server ≡ input ∷ rest
        → sys.server.ssl_client.is_open ≡ true
        → slot_ready_request q sys.server input ≡ handled s written
        → Step sys
            (record sys { server = s; to_server = rest; to_client = sys.to_client ++ written })
    client_reads :
        {input : Bytes} {rest : List Bytes} {c : Client}
        → sys.to_client ≡ input ∷ rest
        → sys.client.is_open ≡ true
        → ready_read q md5_hex sys.client input ≡ some c
        → Step sys (record sys {
          client = flushed c;
          to_server = sys.to_server ++ c.sent;
          to_client = rest;
        })
    user_types :
        (words : List Bytes)
        → All IsValue words
        → Step sys (record sys { client = record sys.client { typed = sys.client.typed ++ words } })
    server_expires :
        sys.server.timer_active ≡ true
        → Step sys (record sys {
          server = record (slot_client_disconnected sys.server) { timer_active = false };
        })
    client_expires :
        {c : Client}
        → sys.client.timer_active ≡ true
        → slot_server_disconnected sys.client ≡ some c
        → Step sys (record sys { client = c })

  -- A client that has typed nothing but values, and has neither sent nor read anything yet.
  pub record IsFresh (c : Client) : Type 0 where
    pub typed : All IsValue c.typed
    pub request : c.request ≡ []
    pub sent : c.sent ≡ []

  pub data Reach : System → Type 0 where
    start :
        {c c' : Client} (s : ThisServer)
        → IsFresh c
        → connect q md5_hex c true ≡ some c'
        → Reach (meet c' s)
    next : {sys sys' : System} → Reach sys → Step sys sys' → Reach sys'
