-- ===== src/Tests/Network.antt =====
-- lesson8: two peers that meet.
use mathlib.Core.List.{Memᴰ}
use gb_cpp_network_programmi.Base.{◌+◌, ◌≤◌, List, refl, [], ◌∷◌, Bytes, codes, text_eq, arith}
use gb_cpp_network_programmi.Qt.{All}
use gb_cpp_network_programmi.Qt.Words.{split_words}
use gb_cpp_network_programmi.Qt.Simple.{
  simple_qt, simple_qt-IsQt, split, decimal, until_zero, until_line_end, to_newline,
}
use gb_cpp_network_programmi.Chat.{
  opened, ChatNetwork, mailing, send_message, slot_read_messages, last_datagram, handle_packet,
  control, add_user, announce, push_client,
}
use gb_cpp_network_programmi.Chat.Wire.{IsField}
use gb_cpp_network_programmi.ChatSession.{Net, Step, Reach, next, enters}
use gb_cpp_network_programmi.ChatSession.Real.{control_packet}
use gb_cpp_network_programmi.ChatSession.Settling.{
  Host, load, Readings, delivered, arrives, silence, more, reads, IsHost, Readings-le,
}
use gb_cpp_network_programmi.ChatSession.Contacts.{IsPeer, Reach-IsPeer}

data IsFriend : Bytes → Bytes → Type 0 where
  ann : IsFriend (codes "ann") (codes "1")
  bob : IsFriend (codes "bob") (codes "2")

friends-IsField : (name id : Bytes) → IsFriend name id → IsField name × IsField id
friends-IsField name id ann = ((omega arith, omega arith), (omega arith, omega arith))
friends-IsField name id bob = ((omega arith, omega arith), (omega arith, omega arith))

abbrev peer : Bytes → Bytes → ChatNetwork
peer name id = record {
  vec_user = [];
  capacity = 0;
  list_users = [];
  list_messages = [];
  user_name = name;
  list_del_users = [];
  id_program = id;
  listen_socket = opened;
  send_socket = opened;
}

record Run : Type 0 where
  last : Net
  reach : Reach simple_qt IsFriend last

-- Ann enters, Bob enters, and Ann reads what he asks.
abbrev meeting : Run
unfolding mailing send_message slot_read_messages last_datagram handle_packet control add_user
    announce push_client text_eq split decimal until_zero until_line_end to_newline split_words
meeting = record {
  last = _;
  reach =
      next
        (next
          (next Reach.silence (
            enters (peer (codes "ann") (codes "1")) (record { vec_user = refl; list_users = refl })
              ann))
          (enters (peer (codes "bob") (codes "2")) (record { vec_user = refl; list_users = refl })
            bob))
        (Step.reads (peer (codes "bob") (codes "2") ∷ []) (peer (codes "ann") (codes "1")) _ []
          (5, codes "1/whos here/bob/2") [] _ refl (Memᴰ.tail (Memᴰ.head refl), tt) refl);
}

Reach-IsPeer_example : All (IsPeer simple_qt IsFriend) meeting.last.peers
Reach-IsPeer_example =
    Reach-IsPeer simple_qt IsFriend simple_qt-IsQt friends-IsField meeting.last meeting.reach

-- Bob's greeting waits at Ann; his own host has nothing to read.
abbrev ann_host : Host
ann_host = record {
  peer = peer (codes "ann") (codes "1");
  pending = (5, codes "1/whos here/bob/2") ∷ [];
}

abbrev bob_host : Host
bob_host = record { peer = peer (codes "bob") (codes "2"); pending = [] }

record Answered : Type 0 where
  last : List Host
  readings : Readings simple_qt (ann_host ∷ bob_host ∷ []) 1 last

-- Ann reads it, and her answer arrives at Bob.
abbrev answered : Answered
unfolding send_message slot_read_messages last_datagram handle_packet control add_user announce
    push_client text_eq split decimal until_zero until_line_end to_newline split_words
answered = record {
  last = _;
  readings = more silence (
      reads [] ann_host (bob_host ∷ []) (5, codes "1/whos here/bob/2") [] _ _ refl refl refl
        (arrives (_ ∷ []) bob_host [] 7 refl delivered));
}

hosts-IsHost :
    All (IsHost simple_qt simple_qt-IsQt IsFriend friends-IsField) (ann_host ∷ bob_host ∷ [])
unfolding split decimal until_zero until_line_end to_newline split_words
hosts-IsHost = (
  (
    (record { me = ann; contacts = tt }, refl),
    (
      control_packet (codes "whos here") (codes "bob") (codes "2") (omega arith, omega arith) bob,
      tt,
    ),
  ),
  (((record { me = bob; contacts = tt }, refl), tt), tt),
)

Readings-le_example : 1 + load answered.last ≤ load (ann_host ∷ bob_host ∷ [])
Readings-le_example =
    Readings-le simple_qt simple_qt-IsQt IsFriend friends-IsField (ann_host ∷ bob_host ∷ [])
      answered.last 1 hosts-IsHost answered.readings
