-- ===== src/SslClient.antt =====
-- lesson6/qssl_client/main.cpp: the client that logs in and sends messages. What is typed is a list
-- of words. The signal that `close` may raise in its turn is left out.
pub mod Replies
pub mod Start
use gb_cpp_network_programmi.Base.{
  ℕ, zero, suc, Bool, true, false, ◌||◌, List, [], ◌∷◌, ◌++◌, Bytes, length, ltb, text_eq, codes,
  ◌==◌, Option, none, some, if◌then◌else◌,
}
use gb_cpp_network_programmi.Base.Fallible.{◌>>=◌}
use gb_cpp_network_programmi.Qt.{Qt}

-- The slot that reads answers is connected once for each login. `sent` is what the socket was given.
pub record Client : Type 0 where
  pub host_name : Bytes
  pub request : Bytes
  pub timer_active : Bool
  pub is_open : Bool
  pub connections : ℕ
  pub typed : List Bytes
  pub sent : List Bytes
  pub has_exited : Bool

-- The do loop of `slotNewConnection`: `none` while it waits for words.
unfoldable pub ask_login : List Bytes → Option ((Bytes × Bytes) × List Bytes)
ask_login [] = none
ask_login (login ∷ []) = none
ask_login (login ∷ password ∷ typed) =
    let again = ask_login typed in
    if ltb (length password) 4 || ltb (length login) 4
    then again
    else some ((login, password), typed)

unfoldable pub ask_message : List Bytes → Option (Bytes × List Bytes)
ask_message [] = none
ask_message (message ∷ typed) =
    let again = ask_message typed in if ltb (length message) 1 then again else some (message, typed)

unfoldable pub ask_exit : List Bytes → Option (List Bytes)
ask_exit [] = none
ask_exit (answer ∷ typed) =
    let again = ask_exit typed in if text_eq answer (codes "exit") then some typed else again

-- The lines of a request behind its path.
abbrev pub headers : Qt → Bytes → Bytes
headers q host =
    codes " HTTP/1.1\r\n"
    ++ (codes "Host: "
        ++ (q.to_utf8 host
            ++ codes
                "\r\nAccept: text/html\r\nAccept-Language: ru-RU\r\nConnection: Keep-Alive\r\n\r\n"))

abbrev pub login_request : Qt → Bytes → Bytes → Bytes → Bytes
login_request q host login secret =
    codes "GET /authorization/login="
    ++ (q.to_utf8 login ++ (codes "&password=" ++ (q.to_utf8 secret ++ headers q host)))

abbrev pub message_request : Qt → Bytes → Bytes → Bytes
message_request q host message = codes "GET /message/" ++ (q.to_utf8 message ++ headers q host)

-- `slotRepeat_Request`
abbrev pub slot_repeat_request : Client → Client
slot_repeat_request c = record c { sent = c.sent ++ (c.request ∷ []); timer_active = true }

-- `SendMessage`
unfoldable pub send_message : Qt → Client → Option Client
send_message q c = do
  (message, typed) ← ask_message c.typed
  some (
      slot_repeat_request
        (record c { typed = typed; request = c.request ++ message_request q c.host_name message }))

unfoldable pub slot_server_disconnected : Client → Option Client
slot_server_disconnected c = do
  typed ← ask_exit c.typed
  some (record c { is_open = false; typed = typed; has_exited = true })

-- The handlers take the MD5 of a password, in hexadecimal.
module _ (q : Qt) (md5_hex : Bytes → Bytes) where
  unfoldable pub slot_new_connection : Client → Option Client
  slot_new_connection c = do
    ((login, password), typed) ← ask_login c.typed
    some (
        slot_repeat_request (record c {
          typed = typed;
          connections = suc c.connections;
          request = c.request ++ login_request q c.host_name login (md5_hex (q.to_utf8 password));
        }))

  -- The constructor's end: whether the handshake succeeded.
  unfoldable pub connect : Client → Bool → Option Client
  connect c encrypted = if encrypted then slot_new_connection c else slot_server_disconnected c

  -- The switch over the code of an answer.
  unfoldable pub by_code : ℕ → Client → Option Client
  by_code code c =
      if code == 200
      then send_message q c
      else if code == 401
      then slot_new_connection c
      else if code == 400
      then slot_server_disconnected c
      else some c

  -- `slotReadResponce` of the data that the socket holds.
  unfoldable pub slot_read_responce : Client → Bytes → Option Client
  slot_read_responce c input =
      by_code (q.to_int (q.section (q.first_line input) 32 1))
        (record c { timer_active = false; request = [] })

  -- The slot runs once for each connection; the first run takes the data.
  unfoldable pub read_again : ℕ → Client → Option Client
  read_again zero c = some c
  read_again (suc n) c = do c' ← slot_read_responce c []; read_again n c'

  unfoldable pub ready_times : ℕ → Client → Bytes → Option Client
  ready_times zero c input = some c
  ready_times (suc n) c input = do c' ← slot_read_responce c input; read_again n c'

  unfoldable pub ready_read : Client → Bytes → Option Client
  ready_read c input = ready_times c.connections c input
