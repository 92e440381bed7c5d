-- ===== src/Chat.antt =====
-- lesson8/f2f_chat/chatnetwork.h and chatnetwork.cpp: the peer of the serverless chat. The slots
-- return the new state with the datagrams that they wrote and the signals that they emitted.
pub mod Users
pub mod Leaving
pub mod Sync
pub mod Growth
pub mod Wire
pub mod Sockets
use gb_cpp_network_programmi.Base.{
  ℕ, zero, suc, ◌+◌, ◌-◌, Bool, true, false, ◌||◌, ◌&&◌, ◌%◌, List, [], ◌∷◌, ◌++◌, Bytes, length,
  take, drop, erase_at, map, get_elem?, text_eq, codes, ◌==◌, ltb, Option, none, some,
  if◌then◌else◌,
}
use gb_cpp_network_programmi.Base.Fallible.{◌>>=◌}
use gb_cpp_network_programmi.Qt.{Qt}

pub record ChatUser : Type 0 where
  pub address : ℕ
  pub nikname : Bytes
  pub program_id : Bytes

-- What a pointer to a socket leads to: a socket that is not open, one that is, or one that was deleted,
-- since the pointer stays.
pub data Socket : Type 0 where
  shut opened deleted : Socket

-- `capacity` is the allocated size of `vec_user`: an append beyond it moves the elements.
pub record ChatNetwork : Type 0 where
  pub vec_user : List ChatUser
  pub capacity : ℕ
  pub list_users : List Bytes
  pub list_messages : List Bytes
  pub user_name : Bytes
  pub list_del_users : Bytes
  pub id_program : Bytes
  pub listen_socket : Socket
  pub send_socket : Socket

pub data Effect : Type 0 where
  datagram : ℕ → Bytes → Effect
  -- with the `listDelUsers` of that moment
  user_disconnect : Bytes → Effect
  new_user new_message close_connections : Effect

-- A slot returns, or uses an iterator or an index that is not valid any more (`undefined`). The
-- fuel of a loop is never used up.
pub data Run : Type 0 where
  ok : ChatNetwork → List Effect → Run
  undefined no_fuel : Run

-- `QHostAddress::Broadcast`
abbrev pub broadcast : ℕ
broadcast = 0xffff_ffff

-- The entry of the contact list.
abbrev pub label : ChatUser → Bytes
label u = u.nikname ++ (codes " (" ++ (u.program_id ++ codes ")"))

-- The slots that send.
module _ (q : Qt) where
  abbrev pub packet : Bytes → Bytes → Bytes → Bytes → Bytes
  packet head message name id =
      head ++ (q.to_utf8 message ++ (codes "/" ++ (q.to_utf8 name ++ (codes "/" ++ q.to_utf8 id))))

  unfoldable pub mailing : ChatNetwork → ChatNetwork × List Effect
  mailing c = (
    c,
    datagram broadcast
          (codes "1/whos here/" ++ (q.to_utf8 c.user_name ++ (codes "/" ++ q.to_utf8 c.id_program)))
        ∷ [],
  )

  -- `SendMessage`: any type but 1 and 2 is ignored.
  unfoldable pub send_message : ChatNetwork → ℕ → Bytes → Bytes → ℕ → List Effect
  send_message c type message id address =
      if type == 1
      then datagram address (packet (codes "1/") message c.user_name id) ∷ []
      else if type == 2
      then datagram address (packet (codes "2/") message c.user_name id) ∷ []
      else []

-- The two `push_back`s of a new client.
unfoldable pub push_client : Qt → ChatUser → ChatNetwork → ChatNetwork
push_client q client c = record c {
  vec_user = c.vec_user ++ client ∷ [];
  list_users = c.list_users ++ label client ∷ [];
  capacity = if ltb (length c.vec_user) c.capacity then c.capacity else q.grow (length c.vec_user);
}

-- How the loop of `AddUser` ends: it runs to the end, returns from the function, or goes on with an
-- iterator into memory that `push_back` has left.
pub data Scan : Type 0 where
  ran returned : ChatNetwork → Scan
  dangling scan_fuel : Scan

-- `for(auto at = vecUser.begin(); at != vecUser.end(); at++)`, with `i` for `at`.
unfoldable pub scan_users : Qt → ChatUser → ℕ → ℕ → ChatNetwork → Scan
unfolding push_client
scan_users q client zero i c = scan_fuel
scan_users q client (suc fuel) i c =
    let next = scan_users q client fuel (i + 1) (push_client q client c) in
    elim (get_elem? c.vec_user i) [
      | none ↦ ran c
      | some at ↦
          if text_eq at.program_id client.program_id
          then returned c
          else if ltb (length c.vec_user) c.capacity
          then next
          else dangling
    ]

-- The end of `AddUser`.
unfoldable pub announce : Qt → ChatUser → Bool → ChatNetwork → List Effect
unfolding send_message
announce q client back_send c =
    new_user
    ∷ (if back_send then send_message q c 1 (codes "hi") c.id_program client.address else [])

-- What follows the loop of `AddUser`.
abbrev pub after_scan : Qt → ChatUser → Bool → Scan → Run
after_scan q client back_send (ran c) = ok c (announce q client back_send c)
after_scan q client back_send (returned c) = ok c []
after_scan q client back_send dangling = undefined
after_scan q client back_send scan_fuel = no_fuel

unfoldable pub add_user : Qt → ChatNetwork → ChatUser → Bool → Run
unfolding scan_users announce push_client
add_user q c client back_send =
    if text_eq client.program_id c.id_program
    then ok c []
    else if length c.vec_user == 0
    then (let c' = push_client q client c in ok c' (announce q client back_send c'))
    else after_scan q client back_send (scan_users q client (length c.vec_user + 2) 0 c)

-- The body for a client that is found: `erase(it)`, `listUsers.at(count)`, `removeAt(count)`.
unfoldable pub drop_client : ChatNetwork → ℕ → ℕ → Option ChatNetwork
drop_client c it count = elim (get_elem? c.list_users count) [
  | none ↦ none
  | some del ↦ some (record c {
    vec_user = erase_at it c.vec_user;
    list_del_users = del;
    list_users = erase_at count c.list_users;
  })
]

-- The loop of `slotDisconnected`. An iterator past the end is not `end()`, and is read.
unfoldable pub leave_loop : Bytes → ℕ → ChatNetwork → ℕ → ℕ → List Effect → Run
unfolding drop_client
leave_loop id zero c it count effects = no_fuel
leave_loop id (suc fuel) c it count effects =
    let skip = leave_loop id fuel c (it + 1) (count + 1) effects in
    let found = λ (c' : ChatNetwork).
      leave_loop id fuel c' (it + 1) (count + 1)
        (effects ++ user_disconnect c'.list_del_users ∷ []) in
    if it == length c.vec_user then ok c effects else elim (get_elem? c.vec_user it) [
      | none ↦ undefined
      | some u ↦
          if text_eq u.program_id id
          then (elim (drop_client c it count) [ none ↦ undefined | some c' ↦ found c' ])
          else skip
    ]

unfoldable pub slot_disconnected : ChatNetwork → Bytes → Run
slot_disconnected c id = leave_loop id (length c.vec_user + 2) c 0 0 []

-- The reading of the socket: each datagram replaces the one before it.
unfoldable pub last_datagram : ℕ × Bytes → List (ℕ × Bytes) → ℕ × Bytes
last_datagram held [] = held
last_datagram held (d ∷ ds) = last_datagram d ds

-- `qint8 type` is the low byte of the number; a positive one lies below 128.
abbrev pub is_positive : ℕ → Bool
is_positive type = ltb 0 type && ltb type 128

unfoldable pub show_message : ChatNetwork → Bytes → Bytes → Bytes → Run
show_message c message nikname id =
    ok
      (record c {
        list_messages =
            c.list_messages
            ++ ((codes "<font color=\"blue\">Принято от "
                  ++ (nikname ++ (codes " (" ++ (id ++ codes "):"))))
                ∷ (codes "<font color=\"black\">" ++ (message ++ codes "</font>"))
                ∷ []);
      })
      (new_message ∷ [])

-- The `switch` on a packet of type 1.
unfoldable pub control : Qt → ChatNetwork → ChatUser → Bytes → Run
control q c client message =
    if text_eq message (codes "whos here")
    then add_user q c client true
    else if text_eq message (codes "hi")
    then add_user q c client false
    else if text_eq message (codes "bye")
    then slot_disconnected c client.program_id
    else ok c []

-- `slotReadMessages` after the datagrams were read.
unfoldable pub handle_packet : Qt → ChatNetwork → ℕ → Bytes → Run
unfolding show_message
handle_packet q c address text =
    let type = q.to_int (q.section text 47 0) % 256 in
    let message = q.section text 47 1 in
    let nikname = q.section text 47 2 in
    let id = q.section text 47 3 in
    let client : ChatUser = record { address = address; nikname = nikname; program_id = id } in
    if is_positive type || ltb 0 (length nikname) || ltb 0 (length id)
    then (if type == 1
        then control q c client message
        else if type == 2
        then (if text_eq id c.id_program then ok c [] else show_message c message nikname id)
        else ok c [])
    else ok c []

-- The pending datagrams, each with its sender's address. Address 0 is the null address.
unfoldable pub slot_read_messages : Qt → ChatNetwork → List (ℕ × Bytes) → Run
unfolding handle_packet last_datagram
slot_read_messages q c pending =
    let (address, bytes) = last_datagram (0, []) pending in
    handle_packet q c address (q.from_utf8 bytes)
