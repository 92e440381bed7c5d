-- ===== src/Tests/Asio.antt =====
-- lesson4/asio_server: two clients, the second of which is told of its end first.
use gb_cpp_network_programmi.Base.{
  ℕ, ◌≡◌, length, refl, true, false, List, [], ◌∷◌, Bytes, codes, some, none, arith,
}
use gb_cpp_network_programmi.Asio.{
  Completion, TcpServer, tcp_server, start, handle_accept, handle_write, Reach, started, next,
  accept_ends, write_ends,
}
use gb_cpp_network_programmi.Asio.Handlers.{IsDaytime, Reach-IsDaytime}

abbrev ctime : ℕ → Bytes
ctime now = codes "day"

record Run : Type 0 where
  past : List Completion
  last : TcpServer
  reach : Reach ctime past last

cut_short : true ≡ false → 2 ≡ length (codes "day")
cut_short e = cc

abbrev run : Run
unfolding tcp_server start handle_accept handle_write
run = record {
  past = _;
  last = _;
  reach =
      next
        (next
          (next (next (started refl) (accept_ends (some (5, true)) refl refl))
            (accept_ends none refl refl))
          (accept_ends (some (6, true)) refl refl))
        (write_ends (record { message = codes "day"; transferred = none } ∷ []) []
          (record { message = codes "day"; transferred = none }) true 2 refl refl (omega arith)
          cut_short);
}

Reach-IsDaytime_example : IsDaytime ctime run.past run.last
Reach-IsDaytime_example = Reach-IsDaytime ctime run.reach
