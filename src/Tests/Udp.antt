-- ===== src/Tests/Udp.antt =====
-- lesson1: words on their way to the echo server and back.
use gb_cpp_network_programmi.Base.{
  stoi, digits, map, ◌≡◌, refl, List, [], ◌++◌, ◌∷◌, Bytes, replicate, c_string, codes, text_eq,
  arith,
}
use gb_cpp_network_programmi.Posix.{RecvReply, got, lost, eintr}
use gb_cpp_network_programmi.Udp.{
  client_loop, asking, running, store, udp_turn, exit_success, udp_loop,
}
use gb_cpp_network_programmi.Udp.Exit.{IsQuiet, Shows, exchange, udp_loop-Shows}
use gb_cpp_network_programmi.Udp.Session.{Carry, IsPort, typed_words, rounds, words_return}

stops_at_exit :
    udp_loop (replicate 256 7) [] (got (codes "hi") ∷ got (codes "exit") ∷ got (codes "no") ∷ [])
    ≡ exit_success (codes "hi" ∷ codes "exit" ∷ [])
unfolding udp_loop udp_turn store c_string text_eq
stops_at_exit = refl

four_thousand-IsPort : IsPort (codes "4000")
unfolding stoi digits
four_thousand-IsPort = record { number = 4000; parses = refl; positive = refl; fits = omega arith }

words_return_example :
    (ds : List Bytes) × (mine' theirs' : Bytes) × Carry (codes "hi" ∷ codes "there" ∷ []) ds
    × (client_loop
          (replicate 255 7)
          (typed_words (codes "4000") (codes "N") (codes "hi" ∷ codes "there" ∷ []))
          []
          (rounds ds)
        ≡ asking mine' ds)
    × (udp_loop (replicate 256 7) [] (map got ds) ≡ running theirs' ds)
unfolding text_eq
words_return_example =
    words_return (codes "4000") (codes "N") four_thousand-IsPort (omega arith) (replicate 255 7)
      (replicate 256 7) (codes "hi" ∷ codes "there" ∷ []) refl refl
      (
        (omega arith, omega arith, omega arith, refl),
        ((omega arith, omega arith, omega arith, refl), tt),
      )

abbrev quiet : IsQuiet (replicate 256 0)
unfolding c_string text_eq
quiet = record { size = refl; content = []; ends = refl; no_exit = refl }

abbrev few_replies : List RecvReply
few_replies = got (codes "hi") ∷ lost eintr ∷ got [] ∷ []

udp_loop-Shows_example :
    Shows []
      (exchange (few_replies ++ (got (codes "exit") ∷ [])))
      (udp_loop (replicate 256 0) [] (few_replies ++ (got (codes "exit") ∷ [])))
udp_loop-Shows_example =
    udp_loop-Shows (replicate 256 0) [] (few_replies ++ (got (codes "exit") ∷ [])) quiet
