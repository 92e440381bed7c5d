-- ===== src/ChatSession/Contacts.antt =====
-- Whom the peers of lesson8/f2f_chat know: only peers, and never themselves.
use mathlib.Core.List.{Memᴰ}
use gb_cpp_network_programmi.Base.{
  ℕ, sym, ap, ◌∙◌, subst, if_both, List, [], ◌∷◌, ◌++◌, Bytes, map, text_eq, codes, arith,
}
use gb_cpp_network_programmi.Qt.{Qt, IsQt, All, All-append, All-halves}
use gb_cpp_network_programmi.Chat.{
  label, ChatNetwork, broadcast, mailing, send_message, handle_packet, last_datagram,
  slot_read_messages,
}
use gb_cpp_network_programmi.Chat.Leaving.{IsSynced}
use gb_cpp_network_programmi.Chat.Sync.{Keeps, slot_read_messages-Keeps}
use gb_cpp_network_programmi.Chat.Wire.{IsField, handle_control, handle_message}
use gb_cpp_network_programmi.ChatSession.{
  Net, IsNew, Step, enters, says, leaves, reads, Reach, silence, next,
}
use gb_cpp_network_programmi.ChatSession.Real.{
  All-Memᴰ, IsOther, IsReal, IsHonest, control_packet, text_packet, Writes, Stays, control-Stays,
  show_message-Stays,
}

module _ (q : Qt) (Member : Bytes → Bytes → Type 0) where
  abbrev pub IsPeer : ChatNetwork → Type 0
  IsPeer c = IsReal q Member c × IsSynced c

  pub record IsOpen (net : Net) : Type 0 where
    pub peers : All IsPeer net.peers
    pub pool : All (IsHonest q Member) net.pool

  module _ (L : IsQt q)
      (fields : (name id : Bytes) → Member name id → IsField name × IsField id) where
    handle_packet-Stays :
        (c : ChatNetwork) (address : ℕ) (bytes : Bytes)
        → IsHonest q Member bytes
        → IsSynced c
        → IsReal q Member c
        → Stays q Member (handle_packet q c address (q.from_utf8 bytes))
    handle_packet-Stays c address bytes (control_packet text name id t m) s r =
        let (n, i) = fields name id m in
        subst (Stays q Member) (sym (handle_control q L c address text name id t n i)) (
          control-Stays q Member c (record { address = address; nikname = name; program_id = id })
            text m s r)
    handle_packet-Stays c address bytes (text_packet text name id t m) s r =
        let (n, i) = fields name id m in
        subst (Stays q Member) (sym (handle_message q L c address text name id t n i)) (
          if_both (Stays q Member) (text_eq id c.id_program) _ _ (λ _. (r, tt))
            (λ _. show_message-Stays q Member c text name id r))

    pub last_datagram-IsHonest :
        (held : ℕ × Bytes) (ds : List (ℕ × Bytes))
        → IsHonest q Member held.1
        → All (λ d. IsHonest q Member d.1) ds
        → IsHonest q Member (last_datagram held ds).1
    unfolding last_datagram
    last_datagram-IsHonest held [] h k = h
    last_datagram-IsHonest held (d ∷ ds) h k = last_datagram-IsHonest d ds k.0 k.1

    pub slot_read_messages-Stays :
        (c : ChatNetwork) (d : ℕ × Bytes) (ds : List (ℕ × Bytes))
        → All (λ d. IsHonest q Member d.1) (d ∷ ds)
        → IsSynced c
        → IsReal q Member c
        → Stays q Member (slot_read_messages q c (d ∷ ds))
    unfolding slot_read_messages last_datagram
    slot_read_messages-Stays c d ds h s r =
        handle_packet-Stays c _ _ (last_datagram-IsHonest d ds h.0 h.1) s r

    pending-IsHonest :
        (pool : List Bytes) (ds : List (ℕ × Bytes))
        → All (IsHonest q Member) pool
        → All (λ d. Memᴰ d.1 pool) ds
        → All (λ d. IsHonest q Member d.1) ds
    pending-IsHonest pool [] h m = tt
    pending-IsHonest pool (d ∷ ds) h m =
        (All-Memᴰ (IsHonest q Member) d.1 pool h m.0, pending-IsHonest pool ds h m.1)

    mailing-IsHonest :
        (c : ChatNetwork) → Member c.user_name c.id_program → Writes q Member (mailing q c).1
    unfolding mailing
    mailing-IsHonest c m = (
      subst
          (λ t. IsHonest q Member (
            codes "1/"
            ++ (t
                ++ (codes "/"
                    ++ (q.to_utf8 c.user_name ++ (codes "/" ++ q.to_utf8 c.id_program))))))
          (L.to_utf8_ascii (codes "whos here") (omega arith))
          (control_packet (codes "whos here") c.user_name c.id_program (omega arith, omega arith)
            m),
      tt,
    )

    says-Writes :
        (c : ChatNetwork) (text : Bytes) (address : ℕ)
        → IsReal q Member c
        → IsField text
        → Writes q Member (send_message q c 2 text c.id_program address)
    unfolding send_message
    says-Writes c text address r f = (text_packet text c.user_name c.id_program f r.me, tt)

    leaves-Writes :
        (c : ChatNetwork)
        → IsReal q Member c
        → Writes q Member (send_message q c 1 (codes "bye") c.id_program broadcast)
    unfolding send_message
    leaves-Writes c r =
        (control_packet (codes "bye") c.user_name c.id_program (omega arith, omega arith) r.me, tt)

    new-IsPeer : (c : ChatNetwork) → IsNew c → Member c.user_name c.id_program → IsPeer c
    new-IsPeer c n m = (
      record { me = m; contacts = subst (All (IsOther q Member c.id_program)) (sym n.vec_user) tt },
      n.list_users ∙ ap (map label) (sym n.vec_user),
    )

    Step-IsOpen : (net net' : Net) → IsOpen net → Step q Member net net' → IsOpen net'
    Step-IsOpen net net' o (enters c n m) = record {
      peers = (new-IsPeer c n m, o.peers);
      pool = All-append (IsHonest q Member) net.pool _ o.pool (mailing-IsHonest c m);
    }
    Step-IsOpen net net' o (says c text address m f) = record {
      peers = o.peers;
      pool =
          All-append (IsHonest q Member) net.pool _ o.pool
            (says-Writes c text address (All-Memᴰ IsPeer c net.peers o.peers m).0 f);
    }
    Step-IsOpen net net' o (leaves front c rest e) =
        let (f, r) = All-halves IsPeer front (c ∷ rest) (subst (All IsPeer) e o.peers) in
        record {
          peers = All-append IsPeer front rest f r.1;
          pool = All-append (IsHonest q Member) net.pool _ o.pool (leaves-Writes c r.0.0);
        }
    Step-IsOpen net net' o (reads front c c' rest d pending effects e m h) =
        let (f, (p, r)) = All-halves IsPeer front (c ∷ rest) (subst (All IsPeer) e o.peers) in
        let (real, w) = subst (Stays q Member) h (
          slot_read_messages-Stays c d pending (pending-IsHonest net.pool (d ∷ pending) o.pool m)
            p.1 p.0) in
        let synced : IsSynced c' = subst Keeps h (slot_read_messages-Keeps q c (d ∷ pending) p.1) in
        record {
          peers = All-append IsPeer front (c' ∷ rest) f ((real, synced), r);
          pool = All-append (IsHonest q Member) net.pool _ o.pool w;
        }

    -- Over a lawful Qt, peers whose names and ids have no slashes and zeros, and who say what has none: in
    -- whatever order they enter, say, read and leave, and however late or often a datagram is read, each
    -- contact of each peer has the name and the id of one who takes part, and not the peer's own id; and
    -- its list shows its clients.
    pub Reach-IsPeer : (net : Net) → Reach q Member net → All IsPeer net.peers
    Reach-IsPeer net r = (opens net r).peers
      where
        opens : (net : Net) → Reach q Member net → IsOpen net
        opens net silence = record { peers = tt; pool = tt }
        opens net (next {net = before} r step) = Step-IsOpen before net (opens before r) step
