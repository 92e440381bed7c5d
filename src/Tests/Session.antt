-- ===== src/Tests/Session.antt =====
-- lesson6: a session of the client with the server, over the small Qt.
use gb_cpp_network_programmi.Base.{
  ◌+◌, ◌≡◌, refl, true, false, [], ◌∷◌, Bytes, length, text_eq, codes, arith,
}
use gb_cpp_network_programmi.Qt.Words.{split_words}
use gb_cpp_network_programmi.Qt.Simple.{
  simple_qt, simple_qt-IsQt, split, decimal, until_zero, until_line_end, to_newline,
}
use gb_cpp_network_programmi.SslServer.{
  ThisServer, new_client, reply, send, is_user, authorize, get_path, request_line,
  slot_ready_request, incoming_connection,
}
use gb_cpp_network_programmi.SslClient.{
  Client, ask_login, slot_new_connection, connect, ask_message, send_message, by_code,
  slot_read_responce, read_again, ready_times, ready_read,
}
use gb_cpp_network_programmi.SslSession.{System, server_reads, client_reads, Reach, start, next}
use gb_cpp_network_programmi.SslSession.Protocol.{Replies, Reach-Replies}
use gb_cpp_network_programmi.SslSession.Progress.{Exchange, Reach-Exchange}

-- One hash for all passwords.
abbrev md5 : Bytes → Bytes
md5 s = codes "abcd"

abbrev new_user : Client
new_user = record {
  host_name = codes "host";
  request = [];
  timer_active = false;
  is_open = true;
  connections = 0;
  typed = codes "user" ∷ codes "secret" ∷ codes "hello" ∷ [];
  sent = [];
  has_exited = false;
}

abbrev server : ThisServer
server = record {
  listening = true;
  ssl_client = record new_client { is_open = false };
  users = (codes "user", codes "abcd") ∷ [];
  timer_active = false;
}

record Run : Type 0 where
  last : System
  reach : Reach simple_qt md5 last

-- The login goes out, is answered with 200, and the message goes out.
abbrev run : Run
unfolding ask_login slot_new_connection connect ask_message send_message by_code slot_read_responce
    read_again ready_times ready_read reply send is_user authorize get_path request_line
    slot_ready_request incoming_connection text_eq split decimal until_zero until_line_end
    to_newline split_words
run = record {
  last = _;
  reach =
      next
        (next
          (start {c = new_user} server (record { typed = omega arith; request = refl; sent = refl })
            refl)
          (server_reads refl refl refl))
        (client_reads refl refl refl);
}

Reach-Replies_example :
    Replies simple_qt run.last.to_client
    × (length run.last.to_server + length run.last.to_client ≡ 1)
Reach-Replies_example = Reach-Replies simple_qt simple_qt-IsQt md5 (λ s. omega arith) run.reach

Reach-Exchange_example : (end : System) × Exchange simple_qt md5 run.last 3 end
unfolding run
Reach-Exchange_example =
    Reach-Exchange simple_qt simple_qt-IsQt md5 (λ s. omega arith) 3 run.reach (refl, refl)
