-- ===== src/Qnet.antt =====
-- lesson5/qnet_tcp_server/main.cpp: the HTTP server with its commands and messages. The packets that it
-- writes are ASCII, and a request is read as its bytes.
use gb_cpp_network_programmi.Base.{
  ℕ, Bool, true, false, List, [], ◌∷◌, ◌++◌, Bytes, length, text_eq, codes, ◌==◌, if◌then◌else◌,
}
use gb_cpp_network_programmi.Qt.{Qt}
pub mod Routing
pub mod Lifetime

-- The single shots that a command starts, in the order of their time.
pub data Timer : Type 0 where
  disconnects : Timer
  quits : Timer

-- `client_socket` is the one that was accepted last.
pub record ThisServer : Type 0 where
  pub listening : Bool
  pub is_open : Bool
  pub timers : List Timer
  pub has_quit : Bool

-- A slot returns with what it wrote to the client and what it printed of the request's message, or
-- indexes a list out of range.
pub data Handled : Type 0 where
  handled : ThisServer → List Bytes → List Bytes → Handled
  undefined : Handled

-- The constructor: a server that cannot listen stays.
abbrev pub start_listening : Bool → ThisServer
start_listening can_listen = record {
  listening = can_listen;
  is_open = false;
  timers = [];
  has_quit = false;
}

abbrev pub slot_new_connection : ThisServer → ThisServer
slot_new_connection s = record s { is_open = true }

abbrev pub slot_client_disconnected : ThisServer → ThisServer
slot_client_disconnected s = record s { is_open = false }

-- A timer that fires.
unfoldable pub fire : ThisServer → Timer → ThisServer
fire s disconnects = slot_client_disconnected s
fire s quits = record s { has_quit = true }

abbrev pub body : Bytes → Bytes
body status =
    codes
      "<Html>\r\n<Head>\r\n<Title>Server response</Title>\r\n</Head>\r\n<Body>\r\n<br><br>\r\n<center><h1>"
    ++ (status ++ codes "</h1></center>\r\n</Body>\r\n</Html>\r\n\r\n")

abbrev pub pack : Qt → Bytes → Bytes
pack q status =
    codes "HTTP/1.1 "
    ++ (status
        ++ (codes
              "\r\nServer: Qt_Http_Server\r\nContent-Type: text/html;charset=utf-8\r\nContent-Length: "
            ++ (q.number (length (body status)) ++ (codes "\r\n\r\n" ++ body status))))

-- `Send`: an empty packet for a code that it does not know.
unfoldable pub send : Qt → ℕ → Bytes
send q code =
    if code == 202
    then pack q (codes "202 Accepted")
    else if code == 200
    then pack q (codes "200 Ok")
    else if code == 400
    then pack q (codes "400 Bad Request")
    else []

-- The inner switch, over the commands.
unfoldable pub run_command : Qt → ThisServer → Bytes → Handled
run_command q s command =
    if text_eq command (codes "exit")
    then handled (record s { timers = s.timers ++ (disconnects ∷ []) }) (send q 202 ∷ []) []
    else if text_eq command (codes "shutdown")
    then handled (record s { timers = s.timers ++ (disconnects ∷ quits ∷ []) }) (send q 202 ∷ []) []
    else handled s (send q 400 ∷ []) []

-- The outer switch, over the tasks: another task is not answered at all.
unfoldable pub route : Qt → ThisServer → Bytes → Bytes → Handled
unfolding run_command
route q s task command =
    if text_eq task (codes "command")
    then run_command q s command
    else if text_eq task (codes "message")
    then handled s (send q 200 ∷ []) (command ∷ [])
    else handled s [] []

-- The first two words of the line. Without `GET`, the task is empty.
unfoldable pub by_tokens : Qt → ThisServer → List Bytes → Handled
by_tokens q s [] = undefined
by_tokens q s (method ∷ []) = if text_eq method (codes "GET") then undefined else route q s [] []
by_tokens q s (method ∷ path ∷ more) =
    if text_eq method (codes "GET")
    then route q s (q.section path 47 1) (q.section path 47 2)
    else route q s [] []

-- `slotReadClient` of the data that the socket holds.
unfoldable pub slot_read_client : Qt → ThisServer → Bytes → Handled
slot_read_client q s input = by_tokens q s (q.split_blank (q.from_percent (q.socket_line input)))
