-- ===== src/Udp/Exit.antt =====
-- The loop of lesson1/udp_server/main.cpp without its buffer: what it answers, and when it ends.
use gb_cpp_network_programmi.Base.{
  ◌≡◌, refl, sym, ap, ◌∙◌, Bool, true, false, Bool-cases, inl, inr, List, [], ◌∷◌, ◌++◌,
  append_assoc, append-nil, Bytes, length, take, ◌==◌, codes, text_eq, c_string, some,
  if◌then◌else◌, arith,
}
use gb_cpp_network_programmi.Posix.{RecvReply, got, lost}
use gb_cpp_network_programmi.Udp.{Server, running, exit_success, store, udp_turn, udp_loop}
use gb_cpp_network_programmi.Udp.Echo.{store-cuts, length-store}

-- The text of a datagram: its bytes up to the first zero, of at most 255.
abbrev pub until_zero : Bytes → Bytes
until_zero [] = []
until_zero (c ∷ s) = let rest = until_zero s in if c == 0 then [] else c ∷ rest

abbrev pub text : Bytes → Bytes
text datagram = until_zero (take 255 datagram)

abbrev pub is_exit : Bytes → Bool
is_exit datagram = text_eq (text datagram) (codes "exit")

-- What is sent back, and whether the server has ended.
abbrev pub Exchange : Type 0
Exchange = List Bytes × Bool

abbrev pub echo : Bytes → Exchange → Exchange
echo datagram rest =
    if is_exit datagram
    then (take 255 datagram ∷ [], true)
    else (take 255 datagram ∷ rest.0, rest.1)

abbrev pub exchange : List RecvReply → Exchange
exchange [] = ([], false)
exchange (lost e ∷ replies) = exchange replies
exchange (got [] ∷ replies) = exchange replies
exchange (got (b ∷ bs) ∷ replies) = echo (b ∷ bs) (exchange replies)

abbrev pub server_of : Bytes → List Bytes → Exchange → Server
server_of buffer sent (out, true) = exit_success (sent ++ out)
server_of buffer sent (out, false) = running buffer (sent ++ out)

-- The array holds a text that is not the command.
pub record IsQuiet (buffer : Bytes) : Type 0 where
  pub size : length buffer ≡ 256
  pub content : Bytes
  pub ends : c_string buffer ≡ some content
  pub no_exit : text_eq content (codes "exit") ≡ false

c_string_until : (s rest : Bytes) → c_string (s ++ (0 ∷ rest)) ≡ some (until_zero s)
unfolding c_string
c_string_until [] rest = refl
c_string_until (c ∷ s) rest = elim (Bool-cases (c == 0)) [
  | inl e ↦ rw e refl
  | inr e ↦ rw (e, c_string_until s rest) refl
]

store-text :
    (buffer datagram : Bytes)
    → length buffer ≡ 256
    → c_string (store 255 buffer datagram) ≡ some (text datagram)
store-text buffer datagram l =
    ap c_string (store-cuts 255 buffer datagram (omega (arith, l)))
    ∙ c_string_until (take 255 datagram) _

-- The server has sent what the exchange says, and has ended just if it says so.
abbrev pub Shows : List Bytes → Exchange → Server → Type 0
Shows sent (out, true) s = s ≡ exit_success (sent ++ out)
Shows sent (out, false) s = (buffer : Bytes) × (s ≡ running buffer (sent ++ out))

Shows-echo :
    (sent : List Bytes) (bytes : Bytes) (rest : Exchange) (s : Server)
    → Shows (sent ++ (bytes ∷ [])) rest s
    → Shows sent (bytes ∷ rest.0, rest.1) s
Shows-echo sent bytes (out, true) s h = h ∙ ap exit_success (append_assoc sent (bytes ∷ []) out)
Shows-echo sent bytes (out, false) s (b, h) =
    (b, h ∙ ap (running b) (append_assoc sent (bytes ∷ []) out))

-- Whatever arrives, and whatever calls fail: from an array of 256 bytes that holds a text other than
-- the command `exit`, the loop sends back the first 255 bytes of each datagram that is not empty, in order and each
-- once, up to and with the first one whose text is exit; it ends with EXIT_SUCCESS there, and only there.
pub udp_loop-Shows :
    (buffer : Bytes) (sent : List Bytes) (replies : List RecvReply)
    → IsQuiet buffer
    → Shows sent (exchange replies) (udp_loop buffer sent replies)
unfolding udp_loop udp_turn
udp_loop-Shows buffer sent [] q = (buffer, ap (running buffer) (sym (append-nil sent)))
udp_loop-Shows buffer sent (lost e ∷ replies) q =
    rw (q.ends, q.no_exit, append-nil sent) (udp_loop-Shows buffer sent replies q)
udp_loop-Shows buffer sent (got [] ∷ replies) q =
    rw (q.ends, q.no_exit, append-nil sent) (udp_loop-Shows buffer sent replies q)
udp_loop-Shows buffer sent (got (b ∷ bs) ∷ replies) q = elim (Bool-cases (is_exit (b ∷ bs))) [
  | inl e ↦ rw (store-text buffer (b ∷ bs) q.size, e) refl
  | inr e ↦
      rw (store-text buffer (b ∷ bs) q.size, e)
        (Shows-echo sent (take 255 (b ∷ bs)) (exchange replies) _ (
          udp_loop-Shows (store 255 buffer (b ∷ bs)) (sent ++ (take 255 (b ∷ bs) ∷ [])) replies
            (record {
              size =
                  omega (arith, length-store 255 buffer (b ∷ bs) (omega (arith, q.size)), q.size);
              content = text (b ∷ bs);
              ends = store-text buffer (b ∷ bs) q.size;
              no_exit = e;
            })))
]

empty_no_exit : is_exit [] ≡ false
unfolding text_eq
empty_no_exit = refl

exchange_ends :
    (before after : List RecvReply) (datagram : Bytes)
    → is_exit datagram ≡ true
    → (exchange (before ++ (got datagram ∷ after))).1 ≡ true
exchange_ends [] after [] e = let f : is_exit [] ≡ false = empty_no_exit in cc
exchange_ends [] after (b ∷ bs) e = rw e refl
exchange_ends (lost x ∷ before) after datagram e = exchange_ends before after datagram e
exchange_ends (got [] ∷ before) after datagram e = exchange_ends before after datagram e
exchange_ends (got (c ∷ cs) ∷ before) after datagram e = elim (Bool-cases (is_exit (c ∷ cs))) [
  | inl f ↦ rw f refl
  | inr f ↦ rw f (exchange_ends before after datagram e)
]

Shows-exit_success :
    (sent : List Bytes) (x : Exchange) (s : Server)
    → x.1 ≡ true
    → Shows sent x s
    → s ≡ exit_success (sent ++ x.0)
Shows-exit_success sent (out, true) s e h = h
Shows-exit_success sent (out, false) s e h = cc

-- Whatever arrives before it, and whatever calls fail: a datagram with the text exit ends the server with
-- EXIT_SUCCESS, from an array of 256 bytes that holds a text other than the command.
udp_loop_ends :
    (buffer : Bytes) (before after : List RecvReply) (datagram : Bytes)
    → IsQuiet buffer
    → is_exit datagram ≡ true
    → (out : List Bytes) × (udp_loop buffer [] (before ++ (got datagram ∷ after))
        ≡ exit_success out)
udp_loop_ends buffer before after datagram q e = (
  _,
  Shows-exit_success [] (exchange (before ++ (got datagram ∷ after))) _
      (exchange_ends before after datagram e)
      (udp_loop-Shows buffer [] (before ++ (got datagram ∷ after)) q),
)
