-- ===== src/ChatSession.antt =====
-- lesson8/f2f_chat: peers of Chat that exchange datagrams, in any order. A datagram may be read late, more than
-- once, by any peer, or never.
use mathlib.Core.List.{Memᴰ}
use gb_cpp_network_programmi.Base.{ℕ, ◌≡◌, List, [], ◌∷◌, ◌++◌, Bytes, codes}
use gb_cpp_network_programmi.Qt.{Qt, All}
use gb_cpp_network_programmi.Chat.{
  ChatNetwork, Effect, datagram, new_user, new_message, user_disconnect, close_connections, Run, ok,
  broadcast, mailing, send_message, slot_read_messages,
}
use gb_cpp_network_programmi.Chat.Wire.{IsField}
pub mod Real
pub mod Contacts
pub mod Answers
pub mod Settling

-- The peers, and the contents of the datagrams that have been sent.
pub record Net : Type 0 where
  pub peers : List ChatNetwork
  pub pool : List Bytes

abbrev pub written : List Effect → List Bytes
written [] = []
written (datagram address bytes ∷ effects) = bytes ∷ written effects
written (new_user ∷ effects) = written effects
written (new_message ∷ effects) = written effects
written (user_disconnect gone ∷ effects) = written effects
written (close_connections ∷ effects) = written effects

-- A peer as it is made: it knows nobody.
pub record IsNew (c : ChatNetwork) : Type 0 where
  pub vec_user : c.vec_user ≡ []
  pub list_users : c.list_users ≡ []

-- Who takes part: the names and the ids.
module _ (q : Qt) (Member : Bytes → Bytes → Type 0) where
  pub data Step (net : Net) : Net → Type 0 where
    enters :
        (c : ChatNetwork)
        → IsNew c
        → Member c.user_name c.id_program
        → Step net
            (record net { peers = c ∷ net.peers; pool = net.pool ++ written (mailing q c).1 })
    says :
        (c : ChatNetwork) (text : Bytes) (address : ℕ)
        → Memᴰ c net.peers
        → IsField text
        → Step net (record net {
          pool = net.pool ++ written (send_message q c 2 text c.id_program address);
        })
    leaves :
        (front : List ChatNetwork) (c : ChatNetwork) (rest : List ChatNetwork)
        → net.peers ≡ front ++ (c ∷ rest)
        → Step net (record net {
          peers = front ++ rest;
          pool = net.pool ++ written (send_message q c 1 (codes "bye") c.id_program broadcast);
        })
    reads :
        (front : List ChatNetwork) (c c' : ChatNetwork) (rest : List ChatNetwork) (d : ℕ × Bytes)
        (pending : List (ℕ × Bytes)) (effects : List Effect)
        → net.peers ≡ front ++ (c ∷ rest)
        → All (λ d. Memᴰ d.1 net.pool) (d ∷ pending)
        → slot_read_messages q c (d ∷ pending) ≡ ok c' effects
        → Step net (record net { peers = front ++ (c' ∷ rest); pool = net.pool ++ written effects })

  pub data Reach : Net → Type 0 where
    silence : Reach (record { peers = []; pool = [] })
    next : {net net' : Net} → Reach net → Step net net' → Reach net'
