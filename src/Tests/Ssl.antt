-- ===== src/Tests/Ssl.antt =====
-- lesson6: a small server and its client over the small Qt.
use gb_cpp_network_programmi.Base.{
  ◌≡◌, refl, ◌⊎◌, true, false, List, [], ◌∷◌, Bytes, codes, some, arith,
}
use gb_cpp_network_programmi.Qt.Words.{split_words}
use gb_cpp_network_programmi.Qt.Simple.{
  to_newline, simple_qt, simple_qt-IsQt, split, decimal, until_zero, until_line_end,
}
use gb_cpp_network_programmi.SslServer.{
  ThisServer, new_client, Event, connects, sends, times_out, load_users_data, start, run,
  slot_ready_request,
}
use gb_cpp_network_programmi.SslServer.Trust.{Trusts, Listed, run-Trusts}
use gb_cpp_network_programmi.SslServer.Automaton.{guest}
use gb_cpp_network_programmi.SslServer.Contract.{Follows, end_view, start-Follows}
use gb_cpp_network_programmi.SslServer.Users.{answers, with_users, answers_same, SameUsers-repeat}
use gb_cpp_network_programmi.SslServer.Login.{accepts, refuses, login_answered}
use gb_cpp_network_programmi.SslClient.{Client, login_request}

abbrev users_file : List Bytes
users_file = codes "user abcd" ∷ codes "other 1234" ∷ []

abbrev fresh_server : ThisServer
fresh_server = record {
  listening = true;
  ssl_client = new_client;
  users = (codes "user", codes "abcd") ∷ [];
  timer_active = false;
}

abbrev waiting_client : Client
waiting_client = record {
  host_name = codes "host";
  request = codes "GET";
  timer_active = true;
  is_open = true;
  connections = 2;
  typed = codes "hello" ∷ [];
  sent = [];
  has_exited = false;
}

users_are_read :
    load_users_data simple_qt (some users_file)
    ≡ (true, (codes "user", codes "abcd") ∷ (codes "other", codes "1234") ∷ [])
unfolding load_users_data split decimal until_zero until_line_end to_newline split_words
users_are_read = refl

abbrev one_login : List Event
one_login =
    connects true true
    ∷ sends (codes "GET /authorization/login=user&password=abcd HTTP/1.1\r\n")
    ∷ sends (codes "GET /message/hello HTTP/1.1\r\n")
    ∷ times_out
    ∷ []

start-Follows_example :
    Follows simple_qt
      (start simple_qt (some users_file) true).users
      guest
      one_login
      (answers simple_qt (start simple_qt (some users_file) true) one_login)
      (end_view (run simple_qt (start simple_qt (some users_file) true) one_login))
start-Follows_example = start-Follows simple_qt (some users_file) true one_login

answers_same_example :
    answers simple_qt (with_users fresh_server ((codes "user", codes "abcd") ∷ [])) one_login
    ≡ answers simple_qt
        (with_users fresh_server ((codes "user", codes "abcd") ∷ (codes "user", codes "abcd") ∷ []))
        one_login
answers_same_example =
    answers_same simple_qt ((codes "user", codes "abcd") ∷ (codes "user", codes "abcd") ∷ [])
      ((codes "user", codes "abcd") ∷ []) fresh_server one_login
      (SameUsers-repeat (codes "user", codes "abcd") [])

run-Trusts_example : Trusts (
    run simple_qt (start simple_qt (some users_file) true) (
      connects true true
      ∷ sends (codes "GET /authorization/login=user&password=abcd HTTP/1.1\r\n")
      ∷ times_out
      ∷ []))
run-Trusts_example = run-Trusts simple_qt (some users_file) true (
    connects true true
    ∷ sends (codes "GET /authorization/login=user&password=abcd HTTP/1.1\r\n")
    ∷ times_out
    ∷ [])

login_answered_example :
    (Listed (codes "user") (codes "abcd") fresh_server.users
      × (slot_ready_request simple_qt fresh_server
            (login_request simple_qt (codes "host") (codes "user") (codes "abcd"))
          ≡ accepts simple_qt fresh_server (codes "user") (codes "abcd")))
    ⊎ ((¬ Listed (codes "user") (codes "abcd") fresh_server.users)
        × (slot_ready_request simple_qt fresh_server
              (login_request simple_qt (codes "host") (codes "user") (codes "abcd"))
            ≡ refuses simple_qt fresh_server (codes "user") (codes "abcd")))
login_answered_example =
    login_answered simple_qt simple_qt-IsQt fresh_server (codes "host") (codes "user")
      (codes "abcd") (omega arith) (omega arith) refl

abbrev sent_client : Client
sent_client = record waiting_client {
  request =
      codes
        "GET /message/hello HTTP/1.1\r\nHost: host\r\nAccept: text/html\r\nAccept-Language: ru-RU\r\nConnection: Keep-Alive\r\n\r\n";
  typed = [];
  sent =
      codes
        "GET /message/hello HTTP/1.1\r\nHost: host\r\nAccept: text/html\r\nAccept-Language: ru-RU\r\nConnection: Keep-Alive\r\n\r\n"
      ∷ [];
}
