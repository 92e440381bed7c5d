-- ===== src/QnetClient/Served.antt =====
-- What lesson5/qnet_tcp_client/main.cpp asks for, and what lesson5/qnet_tcp_server/main.cpp makes of it.
use gb_cpp_network_programmi.Base.{
  ℕ, suc, ◌<◌, ◌≡◌, ◌≢◌, refl, ap, ◌∙◌, Bool, [], ◌∷◌, ◌++◌, append_assoc, Bytes, codes, some, true,
  text_eq,
}
use gb_cpp_network_programmi.Qt.{Qt, IsQt, Lacks}
use gb_cpp_network_programmi.Qnet.{
  ThisServer, Handled, handled, send, run_command, route, slot_read_client,
}
use gb_cpp_network_programmi.Qnet.Routing.{IsSegment, request_path, get_line, request_routed}
use gb_cpp_network_programmi.QnetClient.{Client, ask_kind, url, request, slot_new_connection}

-- `QNetworkAccessManager::get`: the bytes of the request for a URL. `is_host` is whether QUrl takes a text for
-- a host.
pub record NetworkManager : Type 0 where
  pub is_host : Bytes → Bool
  pub get : Bytes → Bytes

-- Without a proxy, a URL with a host, a port and a path whose characters need no other form: the request line
-- has the path, and the headers follow it.
pub record IsNetworkManager (q : Qt) (n : NetworkManager) : Type 0 where
  pub get-url :
      (host : Bytes) (port : ℕ) (task command : Bytes)
      → n.is_host host ≡ true
      → 0 < port
      → port < 65536
      → Lacks 47 (q.number port)
      → task ≢ []
      → IsSegment task
      → IsSegment command
      → (rest : Bytes) × (n.get (
            codes "http://"
            ++ (host ++ (codes ":" ++ (q.number port ++ request_path task command))))
          ≡ get_line task command ++ (13 ∷ 10 ∷ rest))

module _ (q : Qt) (n : NetworkManager) where
  -- What a client asks for, and what the server makes of the request.
  abbrev pub Served : Client → ThisServer → Bytes → Bytes → Handled → Type 0
  Served c s answer message handled' =
      (c' : Client) × (u : Bytes) × (slot_new_connection q
          (record c { typed = answer ∷ message ∷ c.typed })
        ≡ some c')
      × (c'.requested ≡ c.requested ++ (u ∷ []))
      × (slot_read_client q s (n.get u) ≡ handled')

-- Where the client's requests can go.
pub record IsTarget (q : Qt) (n : NetworkManager) (c : Client) : Type 0 where
  pub host : n.is_host c.host_name ≡ true
  pub positive : 0 < c.server_port
  pub below_end : c.server_port < 65536
  pub plain : Lacks 47 (q.number c.server_port)

module _ (q : Qt) (L : IsQt q) (n : NetworkManager) (N : IsNetworkManager q n) where
  -- The server reads the task and the word out of the request that the client sends.
  request_served :
      (c : Client) (s : ThisServer) (task message : Bytes)
      → IsTarget q n c
      → task ≢ []
      → IsSegment task
      → IsSegment message
      → slot_read_client q s (n.get (url q c (47 ∷ (task ++ codes "/")) message))
        ≡ route q s task message
  request_served c s task message h some_task t m =
      let (rest, g) =
        N.get-url c.host_name c.server_port task message h.host h.positive h.below_end h.plain
          some_task t m in
      ap
        (λ u. slot_read_client q s (
          n.get (
            codes "http://"
            ++ (c.host_name ++ (codes ":" ++ (q.number c.server_port ++ (47 ∷ u)))))))
        (append_assoc task (codes "/") message)
      ∙ ap (slot_read_client q s) g
      ∙ request_routed q L s task message rest t m

  asked : Client → Bytes → Bytes → Client
  asked c task word = record c {
    requested = c.requested ++ (url q c task word ∷ []);
    timer_active = true;
    loops = suc c.loops;
  }

  -- Over a lawful Qt, and a network manager that writes a path of letters, digits, hyphens, underscores and
  -- slashes into its request as it is, with a host that it knows as one and a port from 1 to 65535: the
  -- words 1 and <command> make the server run the command, the words 2 and <message> make it show the
  -- message and answer 200; the word has only letters, digits, hyphens and underscores.
  pub menu_served :
      (c : Client) (s : ThisServer) (word : Bytes)
      → IsTarget q n c
      → IsSegment word
      → Served q n c s (codes "1") word (run_command q s word)
        × Served q n c s (codes "2") word (handled s (send q 200 ∷ []) (word ∷ []))
  unfolding slot_new_connection ask_kind request route text_eq asked
  menu_served c s word h w = (
    (
      asked c (codes "/command/") word,
      url q c (codes "/command/") word,
      rw L.to_int_one refl,
      refl,
      request_served c s (codes "command") word h (λ e. cc)
          (refl, (refl, (refl, (refl, (refl, (refl, (refl, tt))))))) w,
    ),
    (
      asked c (codes "/message/") word,
      url q c (codes "/message/") word,
      rw L.to_int_two refl,
      refl,
      request_served c s (codes "message") word h (λ e. cc)
          (refl, (refl, (refl, (refl, (refl, (refl, (refl, tt))))))) w,
    ),
  )
