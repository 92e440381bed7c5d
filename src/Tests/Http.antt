-- ===== src/Tests/Http.antt =====
-- lesson7: a small file of users, and a session with its server.
use gb_cpp_network_programmi.Base.{
  ◌≡◌, refl, true, List, [], ◌∷◌, Bytes, text_eq, codes, some, arith,
}
use gb_cpp_network_programmi.Qt.Simple.{split}
use gb_cpp_network_programmi.HttpServer.{
  skip_blanks, cut_word, extract, parse_user, load_loop, load_users, not_found, auth_loop,
  auth_render, serve, message_render,
}
use gb_cpp_network_programmi.HttpServer.Simple.{pick, simple_args, simple_args-IsQuery}
use gb_cpp_network_programmi.HttpServer.Auth.{Answers, auth_render-Answers}
use gb_cpp_network_programmi.CurlClient.{Transfer, auth_url, run_session}
use gb_cpp_network_programmi.CurlClient.Urls.{session, urls}
use gb_cpp_network_programmi.HttpSession.{Brings, Asks, session_by_login}

abbrev users_file : List Bytes
users_file = codes "user abcd" ∷ codes "guest" ∷ codes "  admin  9999 " ∷ []

abbrev url : Bytes
url = codes "http://host:80/"

-- A line with one word keeps the password of the line before.
lines_are_read :
    load_users (some users_file)
    ≡ (codes "user", codes "abcd")
      ∷ (codes "guest", codes "abcd")
      ∷ (codes "admin", codes "9999")
      ∷ []
unfolding load_users load_loop parse_user extract skip_blanks cut_word
lines_are_read = refl

wrong_password_is_ok :
    serve (some users_file) (codes "/") (simple_args (auth_url url (codes "user") (codes "wrong")))
    ≡ record { content = codes "Ok"; response_code = 200 }
unfolding serve auth_render auth_loop not_found message_render load_users load_loop parse_user
    extract skip_blanks cut_word text_eq simple_args pick split
wrong_password_is_ok = refl

auth_render-Answers_example :
    Answers
      (codes "user")
      []
      (load_users (some users_file))
      (auth_render (some users_file) (simple_args (auth_url url (codes "user") (codes "wrong"))))
unfolding simple_args pick split text_eq
auth_render-Answers_example =
    auth_render-Answers (some users_file)
      (simple_args (auth_url url (codes "user") (codes "wrong")))

abbrev ok_transfer : Transfer
ok_transfer = record { chunks = codes "O" ∷ codes "k" ∷ []; is_ok = true }

ok_transfer-Brings : Brings ok_transfer (
    serve (some users_file) (codes "/") (simple_args (auth_url url (codes "user") (codes "wrong"))))
unfolding serve auth_render auth_loop not_found message_render load_users load_loop parse_user
    extract skip_blanks cut_word text_eq simple_args pick split
ok_transfer-Brings = record { is_ok = refl; content = refl }

session_by_login_example :
    Asks url (codes "user") (codes "wrong") (codes "hi") (load_users (some users_file)) (
      urls (
        run_session
          (session (codes "user") (codes "wrong") (codes "hi") (ok_transfer ∷ ok_transfer ∷ []))
          url
          true))
session_by_login_example =
    session_by_login url (codes "user") (codes "wrong") (codes "hi") simple_args (some users_file)
      ok_transfer ok_transfer simple_args-IsQuery (omega arith) (omega arith) (omega arith)
      ok_transfer-Brings (omega arith) (omega arith) (omega arith)
