-- ===== src/Udp/Echo.antt =====
-- The way of a word from lesson1/udp_client to lesson1/udp_server and back.
use gb_cpp_network_programmi.Base.{
  false, ℕ, zero, suc, ◌+◌, ◌<◌, ◌≤◌, ◌≡◌, refl, ap, ◌∙◌, [], ◌∷◌, ◌++◌, Bytes, length,
  length-append, length-take, length-drop, take, take_all, drop, set_behind, leb, ◌==◌, codes,
  text_eq, c_string, IsNonzero, some, arith,
}
use gb_cpp_network_programmi.Posix.{got}
use gb_cpp_network_programmi.Udp.{turned, store, udp_turn, type_word, show_reply}

-- A C string that is cut behind its end is read as it was.
c_string-take :
    (k : ℕ) (s junk rest : Bytes)
    → IsNonzero s
    → length s ≤ k
    → c_string (take k (s ++ (0 ∷ junk)) ++ (0 ∷ rest)) ≡ some s
unfolding c_string
c_string-take zero [] junk rest z h = refl
c_string-take (suc k) [] junk rest z h = refl
c_string-take zero (c ∷ s) junk rest z h = absurd (omega arith)
c_string-take (suc k) (c ∷ s) junk rest z h =
    let e : (c == 0) ≡ false = ground arith in rw (e, c_string-take k s junk rest z.1 (omega arith))

-- What is stored is a datagram's first bytes, a zero, and the rest of the array.
pub store-cuts :
    (n : ℕ) (buffer datagram : Bytes)
    → n < length buffer
    → store n buffer datagram ≡ take n datagram ++ (0 ∷ drop (length (take n datagram) + 1) buffer)
unfolding store
store-cuts n buffer datagram h =
    set_behind (take n datagram) buffer 0 (omega (arith, h, length-take n datagram))

pub length-store :
    (n : ℕ) (buffer datagram : Bytes)
    → n < length buffer
    → length (store n buffer datagram) ≡ length buffer
length-store n buffer datagram h =
    ap length (store-cuts n buffer datagram h)
    ∙ omega (
      arith,
      length-append (take n datagram) (0 ∷ drop (length (take n datagram) + 1) buffer),
      length-drop (length (take n datagram) + 1) buffer,
      length-take n datagram,
      h,
    )

store_text :
    (n : ℕ) (buffer s junk : Bytes)
    → n < length buffer
    → IsNonzero s
    → length s ≤ n
    → c_string (store n buffer (s ++ (0 ∷ junk))) ≡ some s
store_text n buffer s junk h z w =
    ap c_string (store-cuts n buffer (s ++ (0 ∷ junk)) h) ∙ c_string-take n s junk _ z w

-- A word that is not empty and fits the client's array is sent with 255 bytes, comes back as it was
-- sent, and is shown by the client; the server goes on unless the word is `exit`. The arrays keep
-- their sizes.
pub echo_arrives :
    (mine theirs : Bytes) (c : ℕ) (word : Bytes)
    → length mine ≡ 255
    → length theirs ≡ 256
    → IsNonzero (c ∷ word)
    → length (c ∷ word) < 255
    → (sent mine' theirs' : Bytes) × (type_word mine (c ∷ word) ≡ some sent)
      × (length sent ≡ 255)
      × (udp_turn theirs (got sent)
          ≡ turned theirs' (some sent) (text_eq (c ∷ word) (codes "exit")))
      × (show_reply sent (got sent) ≡ (mine', some (some (c ∷ word))))
      × (length mine' ≡ 255)
      × (length theirs' ≡ 256)
unfolding type_word udp_turn show_reply
echo_arrives mine theirs c word m t z w =
    let f : leb 255 (length (c ∷ word)) ≡ false = ground arith in
    let junk : Bytes = drop (length (c ∷ word) + 1) mine in
    let sent : Bytes = (c ∷ word) ++ (0 ∷ junk) in
    let l : length sent ≡ 255 = omega (
      arith,
      length-append (c ∷ word) (0 ∷ junk),
      length-drop (length (c ∷ word) + 1) mine,
      m,
      w,
    ) in
    let s : c_string (store 255 theirs sent) ≡ some (c ∷ word) =
      store_text 255 theirs (c ∷ word) junk (omega (arith, t)) z (omega arith) in
    let s' : c_string (store 254 sent sent) ≡ some (c ∷ word) =
      store_text 254 sent (c ∷ word) junk (omega (arith, l)) z (omega arith) in
    (
      sent,
      store 254 sent sent,
      store 255 theirs sent,
      rw f,
      l,
      rw (s, take_all 255 sent (omega (arith, l))),
      rw s',
      omega (arith, length-store 254 sent sent (omega (arith, l)), l),
      omega (arith, length-store 255 theirs sent (omega (arith, t)), t),
    )
