-- ===== src/Tests/Chat.antt =====
-- lesson8/f2f_chat: small peers over the small Qt.
use gb_cpp_network_programmi.Base.{ℕ, ◌≡◌, refl, true, List, [], ◌∷◌, Bytes, text_eq, codes, arith}
use gb_cpp_network_programmi.Qt.Words.{split_words}
use gb_cpp_network_programmi.Qt.Simple.{
  to_newline, simple_qt, simple_qt-IsQt, split, decimal, until_zero, until_line_end,
}
use gb_cpp_network_programmi.Chat.{
  opened, ChatUser, ChatNetwork, datagram, new_user, ok, label, add_user, send_message, new_message,
  slot_read_messages,
}
use gb_cpp_network_programmi.Chat.Users.{pushed, add_user_repeats}
use gb_cpp_network_programmi.Chat.Sync.{Keeps, slot_read_messages-Keeps}
use gb_cpp_network_programmi.Chat.Wire.{shown_lines, message_arrives}

abbrev ann : ChatUser
ann = record { address = 1; nikname = codes "ann"; program_id = codes "100000" }

abbrev bob : ChatUser
bob = record { address = 2; nikname = codes "bob"; program_id = codes "110000" }

abbrev eve : ChatUser
eve = record { address = 3; nikname = codes "eve"; program_id = codes "120000" }

abbrev peer : List ChatUser → ℕ → ChatNetwork
peer users capacity = record {
  vec_user = users;
  capacity = capacity;
  list_users = [];
  list_messages = [];
  user_name = codes "me";
  list_del_users = [];
  id_program = codes "090000";
  listen_socket = opened;
  send_socket = opened;
}

abbrev two_users : ChatNetwork
two_users = record (peer (ann ∷ bob ∷ []) 8) { list_users = label ann ∷ label bob ∷ [] }

abbrev other_peer : ChatNetwork
other_peer = record (peer [] 0) { user_name = codes "you"; id_program = codes "130000" }

first_user_is_answered :
    add_user simple_qt (peer [] 0) ann true
    ≡ ok
        (record (peer (ann ∷ []) 1) { list_users = label ann ∷ [] })
        (new_user ∷ datagram 1 (codes "1/hi/me/090000") ∷ [])
unfolding add_user text_eq split decimal until_zero until_line_end to_newline split_words
first_user_is_answered = refl

third_user_is_added_twice : add_user simple_qt two_users eve true ≡ ok (pushed eve 2 two_users) []
unfolding add_user text_eq split decimal until_zero until_line_end to_newline split_words
third_user_is_added_twice = refl

add_user_repeats_example : add_user simple_qt two_users eve true ≡ ok (pushed eve 2 two_users) []
unfolding text_eq
add_user_repeats_example =
    add_user_repeats simple_qt eve two_users true refl (omega arith) (omega arith)

slot_read_messages-Keeps_example :
    Keeps (slot_read_messages simple_qt two_users ((3, codes "1/whos here/eve/120000") ∷ []))
slot_read_messages-Keeps_example =
    slot_read_messages-Keeps simple_qt two_users ((3, codes "1/whos here/eve/120000") ∷ []) refl

message_arrives_example :
    (bytes : Bytes) × (send_message simple_qt other_peer 2 (codes "hello") other_peer.id_program 7
      ≡ datagram 7 bytes ∷ [])
    × (slot_read_messages simple_qt two_users ((4, codes "2/lost/eve/120000") ∷ (5, bytes) ∷ [])
        ≡ ok
            (record two_users {
              list_messages = shown_lines (codes "hello") (codes "you") (codes "130000");
            })
            (new_message ∷ []))
unfolding text_eq
message_arrives_example =
    message_arrives simple_qt simple_qt-IsQt other_peer two_users 5 7 (codes "hello")
      ((4, codes "2/lost/eve/120000") ∷ []) (omega arith, omega arith) (omega arith, omega arith)
      (omega arith, omega arith) refl
