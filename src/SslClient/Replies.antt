-- ===== src/SslClient/Replies.antt =====
-- How lesson6/qssl_client/main.cpp reads the answers of lesson6/qssl_server/main.cpp.
use gb_cpp_network_programmi.Base.{
  ◌<◌, ℕ, zero, suc, ◌⊎◌, inl, inr, ◌≡◌, refl, sym, ap, ◌∙◌, false, List, [], ◌∷◌, ◌++◌, Bytes,
  codes, some, arith,
}
use gb_cpp_network_programmi.Base.Fallible.{bind-some, some-injective}
use gb_cpp_network_programmi.Qt.{Qt, IsQt, All, Lacks, join}
use gb_cpp_network_programmi.SslServer.{pack, reply}
use gb_cpp_network_programmi.SslClient.{
  Client, send_message, slot_server_disconnected, slot_new_connection, by_code, slot_read_responce,
  read_again, ready_times, ready_read,
}

-- The client as an answer finds it: without its timer, its last request dropped.
abbrev pub answered : Client → Client
answered c = record c { timer_active = false; request = [] }

module _ (q : Qt) (L : IsQt q) (md5_hex : Bytes → Bytes) where
  -- The code word of a packet.
  pack_code :
      (code first : Bytes) (more : List Bytes)
      → All (λ c. c < 128) (codes "HTTP/1.1 " ++ join 32 (code ∷ first ∷ more))
      → Lacks 10 (codes "HTTP/1.1 " ++ join 32 (code ∷ first ∷ more))
      → Lacks 13 (codes "HTTP/1.1 " ++ join 32 (code ∷ first ∷ more))
      → All (Lacks 32) (code ∷ first ∷ more)
      → q.section (q.first_line (pack q (join 32 (code ∷ first ∷ more)))) 32 1 ≡ code
  pack_code code first more ascii l10 l13 h =
      rw (line) (L.section-join 32 (codes "HTTP/1.1") (code ∷ first ∷ more) 1 (omega arith, h))
    where
      status : Bytes
      status = join 32 (code ∷ first ∷ more)

      line : q.first_line (pack q status) ≡ codes "HTTP/1.1 " ++ status
      line = L.first_line_crlf (codes "HTTP/1.1 " ++ status) _ ascii l10 l13

  pub read_code :
      (q.to_int (q.section (q.first_line (reply q 200)) 32 1) ≡ 200)
      × (q.to_int (q.section (q.first_line (reply q 400)) 32 1) ≡ 400)
      × (q.to_int (q.section (q.first_line (reply q 401)) 32 1) ≡ 401)
  unfolding reply
  read_code = (
    rw
        (pack_code (codes "200") (codes "Ok") [] (omega arith) (omega arith) (omega arith)
          (omega arith, (omega arith, tt)))
        L.to_int_codes.0,
    rw
        (pack_code (codes "400") (codes "Bad") (codes "Request" ∷ []) (omega arith) (omega arith)
          (omega arith) (omega arith, (omega arith, (omega arith, tt))))
        L.to_int_codes.1,
    rw
        (pack_code (codes "401") (codes "Unauthorized") [] (omega arith) (omega arith) (omega arith)
          (omega arith, (omega arith, tt)))
        L.to_int_codes.2,
  )

  -- Over a lawful Qt, the client reads each answer of the server as it is meant: 200 makes it ask for
  -- a message and send it, 401 ask for a login again, 400 close the connection.
  pub answers_understood :
      (c : Client)
      → (slot_read_responce q md5_hex c (reply q 200) ≡ send_message q (answered c))
        × (slot_read_responce q md5_hex c (reply q 401)
            ≡ slot_new_connection q md5_hex (answered c))
        × (slot_read_responce q md5_hex c (reply q 400) ≡ slot_server_disconnected (answered c))
  unfolding slot_read_responce by_code
  answers_understood c = (rw read_code.0 refl, rw read_code.2 refl, rw read_code.1 refl)

  -- Data that is not there changes nothing but the timer and the request.
  read_nothing : (c : Client) → slot_read_responce q md5_hex c [] ≡ some (answered c)
  unfolding slot_read_responce by_code
  read_nothing c = rw (L.first_line_empty, L.section-join 32 [] [] 1 (tt, tt), L.to_int_empty) refl

  read_again_nothing : (n : ℕ) (c : Client) → read_again q md5_hex (suc n) c ≡ some (answered c)
  unfolding read_again
  read_again_nothing zero c = rw (read_nothing c) refl
  read_again_nothing (suc n) c = rw (read_nothing c) (read_again_nothing n (answered c))

  -- All runs of the slot together: the first takes the answer, the others find nothing.
  ready_times-inv :
      (c c' : Client) (n : ℕ) (input : Bytes)
      → ready_times q md5_hex (suc n) c input ≡ some c'
      → (r : Client) × (slot_read_responce q md5_hex c input ≡ some r)
        × ((c' ≡ r) ⊎ (c' ≡ answered r))
  unfolding ready_times read_again
  ready_times-inv c c' zero input e =
      let (r, h, k) = bind-some (slot_read_responce q md5_hex c input) _ c' e in
      (r, h, inl (sym (some-injective r c' k)))
  ready_times-inv c c' (suc n) input e =
      let (r, h, k) = bind-some (slot_read_responce q md5_hex c input) _ c' e in
      (r, h, inr (some-injective c' (answered r) (sym k ∙ read_again_nothing n r)))

  pub ready_read-inv :
      (c c' : Client) (n : ℕ) (input : Bytes)
      → c.connections ≡ suc n
      → ready_read q md5_hex c input ≡ some c'
      → (r : Client) × (slot_read_responce q md5_hex c input ≡ some r)
        × ((c' ≡ r) ⊎ (c' ≡ answered r))
  unfolding ready_read
  ready_read-inv c c' n input e h =
      ready_times-inv c c' n input (sym (ap (λ k. ready_times q md5_hex k c input) e) ∙ h)

  pub ready_twice :
      (c c' : Client) (n : ℕ) (input : Bytes)
      → slot_read_responce q md5_hex c input ≡ some c'
      → ready_times q md5_hex (suc (suc n)) c input ≡ some (answered c')
  unfolding ready_times
  ready_twice c c' n input h = rw h (read_again_nothing n c')

  -- After a second login the slot that reads answers is connected twice: over a lawful Qt, if
  -- its first run returns, its last one stops the timer that the first has started and drops the
  -- request, whatever the answer was.
  second_login_no_timeout :
      (c c' : Client) (n : ℕ) (input : Bytes)
      → c.connections ≡ suc (suc n)
      → slot_read_responce q md5_hex c input ≡ some c'
      → ready_read q md5_hex c input ≡ some (answered c')
  unfolding ready_read
  second_login_no_timeout c c' n input e h =
      ap (λ k. ready_times q md5_hex k c input) e ∙ ready_twice c c' n input h
