-- ===== src/SslServer.antt =====
-- lesson6/qssl_server/ssl_server.h and main.cpp: the HTTPS server with its one client at a time.
-- What a socket reads is taken as text, the decoding of ASCII bytes being the identity.
pub mod Users
pub mod Trust
pub mod Automaton
pub mod Contract
pub mod Fields
pub mod Login
use gb_cpp_network_programmi.Base.{
  ℕ, Bool, true, false, ◌&&◌, List, [], ◌∷◌, ◌++◌, Bytes, length, map, get_elem?, text_eq, codes,
  ◌==◌, Option, none, some, if◌then◌else◌,
}
use gb_cpp_network_programmi.Qt.{Qt}

-- struct client
pub record SslClient : Type 0 where
  pub is_open : Bool
  pub is_autorization : Bool
  pub login : Bytes
  pub password : Bytes

pub record ThisServer : Type 0 where
  pub listening : Bool
  pub ssl_client : SslClient
  pub users : List (Bytes × Bytes)
  pub timer_active : Bool

-- A slot returns with what it wrote to the client's socket, or indexes a list out of range.
pub data Handled : Type 0 where
  handled : ThisServer → List Bytes → Handled
  undefined : Handled

abbrev pub new_client : SslClient
new_client = record { is_open = true; is_autorization = false; login = []; password = [] }

-- `LoadUsersData` of the lines of the file, `none` if it cannot be opened.
unfoldable pub load_users_data : Qt → Option (List Bytes) → Bool × List (Bytes × Bytes)
load_users_data q none = (false, [])
load_users_data q (some lines) = (
  true,
  map (λ parse. (q.trimmed (q.section parse 32 0), q.trimmed (q.section parse 32 1))) lines,
)

-- The constructor: a server that cannot listen stays, without clients.
unfoldable pub start : Qt → Option (List Bytes) → Bool → ThisServer
unfolding load_users_data
start q file can_listen = record {
  listening = can_listen;
  ssl_client = record new_client { is_open = false };
  users = (load_users_data q file).1;
  timer_active = false;
}

-- `Handle_certificate` and `Handle_key`: a file that cannot be opened reads as no bytes, and what the
-- library makes of those is returned.
unfoldable pub handle_certificate {ℓ} : {Cert : Type ℓ} → (Bytes → Cert) → Option Bytes → Cert
handle_certificate parse none = parse []
handle_certificate parse (some bytes) = parse bytes

unfoldable pub handle_key {ℓ} : {Key : Type ℓ} → (Bytes → Key) → Option Bytes → Key
handle_key parse none = parse []
handle_key parse (some bytes) = parse bytes

unfoldable pub slot_client_disconnected : ThisServer → ThisServer
slot_client_disconnected s = record s { ssl_client = record s.ssl_client { is_open = false } }

-- `incomingConnection`: whether the descriptor could be set, and whether the handshake succeeded.
unfoldable pub incoming_connection : ThisServer → Bool → Bool → ThisServer
unfolding slot_client_disconnected
incoming_connection s has_descriptor encrypted =
    let s' = record s { ssl_client = new_client } in
    if has_descriptor
    then (if encrypted then s' else slot_client_disconnected s')
    else slot_client_disconnected s'

-- The body and the packet of a reply, from its status.
abbrev pub body : Bytes → Bytes
body status =
    codes
      "<Html>\r\n<Head>\r\n<Title>Server response</Title>\r\n</Head>\r\n<Body>\r\n<br><br>\r\n<center><h1>"
    ++ (status ++ codes "</h1></center>\r\n</Body>\r\n</Html>\r\n\r\n")

abbrev pub pack : Qt → Bytes → Bytes
pack q status =
    codes "HTTP/1.1 "
    ++ (status
        ++ (codes
              "\r\nServer: Qt_Https_Server\r\nContent-Type: text/html;charset=utf-8\r\nContent-Length: "
            ++ (q.number (length (body status)) ++ (codes "\r\n\r\n" ++ body status))))

-- The packet that `Send` writes: nothing for a code that it does not know.
unfoldable pub reply : Qt → ℕ → Bytes
reply q code =
    if code == 200
    then pack q (codes "200 Ok")
    else if code == 400
    then pack q (codes "400 Bad Request")
    else if code == 401
    then pack q (codes "401 Unauthorized")
    else []

-- `Send`: it writes the packet and starts the timer that closes the connection.
unfoldable pub send : Qt → ℕ → ThisServer → Handled
send q code s = handled (record s { timer_active = true }) (reply q code ∷ [])

-- The loop over the users.
unfoldable pub is_user : Bytes → Bytes → List (Bytes × Bytes) → Bool
is_user login password [] = false
is_user login password ((name, secret) ∷ users) =
    if text_eq name login && text_eq secret password then true else is_user login password users

-- A request for authorization, with the command `login=…&password=…`.
unfoldable pub authorize : Qt → ThisServer → Bytes → Handled
unfolding send is_user
authorize q s command =
    let login = q.section (q.section command 61 1) 38 0 in
    let password = q.section command 61 2 in
    let c = record s.ssl_client { login = login; password = password } in
    if is_user login password s.users
    then send q 200 (record s { ssl_client = record c { is_autorization = true } })
    else send q 401 (record s { ssl_client = c })

-- A GET request, by its path.
unfoldable pub get_path : Qt → ThisServer → Bytes → Handled
unfolding send
get_path q s path =
    let task = q.section path 47 1 in
    let command = q.section path 47 2 in
    if s.ssl_client.is_autorization
    then (if text_eq task (codes "message") then send q 200 s else send q 400 s)
    else if text_eq task (codes "authorization")
    then authorize q s command
    else send q 400 s

-- The first two words of the request line.
unfoldable pub request_line : Qt → ThisServer → List Bytes → Handled
request_line q s [] = undefined
request_line q s (method ∷ []) = if text_eq method (codes "GET") then undefined else handled s []
request_line q s (method ∷ path ∷ more) =
    if text_eq method (codes "GET") then get_path q s path else handled s []

-- `slotReadyRequest` of the data that the socket holds.
unfoldable pub slot_ready_request : Qt → ThisServer → Bytes → Handled
slot_ready_request q s input =
    request_line q (record s { timer_active = false }) (q.split_blank (q.first_line input))

-- What can happen to the server, in any order.
pub data Event : Type 0 where
  connects : Bool → Bool → Event
  sends : Bytes → Event
  disconnects times_out : Event

-- The timer closes the socket if it runs.
unfoldable pub handle : Qt → ThisServer → Event → Handled
unfolding incoming_connection slot_client_disconnected
handle q s (connects has_descriptor encrypted) =
    handled (incoming_connection s has_descriptor encrypted) []
handle q s (sends input) = slot_ready_request q s input
handle q s disconnects = handled (slot_client_disconnected s) []
handle q s times_out =
    if s.timer_active
    then handled (record (slot_client_disconnected s) { timer_active = false }) []
    else handled s []

-- The next event finds the server as the last one has left it.
abbrev pub then_run : Handled → (ThisServer → Handled) → Handled
then_run undefined k = undefined
then_run (handled s written) k = k s

unfoldable pub run : Qt → ThisServer → List Event → Handled
run q s [] = handled s []
run q s (e ∷ es) = then_run (handle q s e) (λ s'. run q s' es)
