-- ===== src/Broadcast/Bounds.antt =====
-- The arrays of lesson3/broadcast_server/main.cpp: the buffer is never left, and when `fpath` is.
use gb_cpp_network_programmi.Base.{
  ap, ◌++◌, ℕ, suc, ◌+◌, ◌≤◌, ◌≡◌, refl, ◌∙◌, if_both, true, List, [], ◌∷◌, Bytes, length, Option,
  arith,
}
use gb_cpp_network_programmi.Posix.{SendReply}
use gb_cpp_network_programmi.Broadcast.{
  Served, served, inside, undefined, receive, serve, Connection, Running, accepting, thrown, sends,
  broken, next_turn, main_loop,
}
use gb_cpp_network_programmi.Broadcast.Buffer.{HasEnd, Fits}
use gb_cpp_network_programmi.Broadcast.Serving.{Overruns, Bounded, serve-Bounded}

abbrev pub AllFit : List Connection → Type 0
AllFit [] = Unit
AllFit (c ∷ cs) = Fits c.received × AllFit cs

module _ (files : Bytes → Option Bytes) where
  -- The loop comes as far as this connection, and what it receives there is a command that overruns `fpath`.
  pub record OverrunBy (buffer : Bytes) (opened : ℕ) (cs : List Connection) : Type 0 where
    pub front : List Connection
    pub c : Connection
    pub rest : List Connection
    pub splits : cs ≡ front ++ (c ∷ rest)
    pub before : Bytes
    pub reached : main_loop files buffer opened front ≡ accepting before (opened + length front)
    pub is_accepted : c.is_accepted ≡ true
    pub overruns : Overruns (receive before c.received).0 (receive before c.received).1

  -- The loop, from a buffer that ends: the buffer still ends, and a descriptor has been opened for each
  -- connection, and none closed.
  abbrev pub KeepsEnd : Bytes → ℕ → List Connection → Running → Type 0
  KeepsEnd start opened cs (accepting buffer n) = HasEnd buffer × (n ≡ opened + length cs)
  KeepsEnd start opened cs (thrown n) = n ≤ opened + length cs
  KeepsEnd start opened cs (sends wire) = Unit
  KeepsEnd start opened cs broken = OverrunBy start opened cs

  -- The connection that overruns is one of the later ones.
  OverrunBy-later :
      (b b' : Bytes) (opened : ℕ) (c : Connection) (cs : List Connection) (wire : Bytes)
      (rs : List SendReply)
      → c.is_accepted ≡ true
      → serve files b c.received c.sending ≡ served b' wire rs
      → OverrunBy b' (suc opened) cs
      → OverrunBy b opened (c ∷ cs)
  unfolding main_loop
  OverrunBy-later b b' opened c cs wire rs a s o = record {
    front = c ∷ o.front;
    c = o.c;
    rest = o.rest;
    splits = ap (◌∷◌ c) o.splits;
    before = o.before;
    reached = rw (a, s) (o.reached ∙ ap (accepting o.before) (add_next opened (length o.front)));
    is_accepted = o.is_accepted;
    overruns = o.overruns;
  }
    where
      add_next : (m n : ℕ) → suc m + n ≡ m + suc n
      add_next m n = omega arith

  next_turn-KeepsEnd :
      (b : Bytes) (c : Connection) (cs : List Connection) (opened : ℕ) (s : Served)
      → c.is_accepted ≡ true
      → serve files b c.received c.sending ≡ s
      → Bounded (receive b c.received).0 (receive b c.received).1 s
      → ((buffer : Bytes)
          → HasEnd buffer
          → KeepsEnd buffer (suc opened) cs (main_loop files buffer (suc opened) cs))
      → KeepsEnd b opened (c ∷ cs) (next_turn s opened (λ b n. main_loop files b n cs))
  unfolding main_loop
  next_turn-KeepsEnd b c cs opened (inside wire) a e h f = tt
  next_turn-KeepsEnd b c cs opened undefined a e h f = record {
    front = [];
    c = c;
    rest = cs;
    splits = refl;
    before = b;
    reached = ap (accepting b) (add_zero opened);
    is_accepted = a;
    overruns = h;
  }
    where
      add_zero : (n : ℕ) → n ≡ n + 0
      add_zero n = omega arith
  next_turn-KeepsEnd b c cs opened (served buffer wire rs) a e h f =
      shift (main_loop files buffer (suc opened) cs) (f buffer h)
    where
      shift : (r : Running) → KeepsEnd buffer (suc opened) cs r → KeepsEnd b opened (c ∷ cs) r
      shift (accepting buffer' x) g = (g.0, omega (arith, g.1))
      shift (thrown x) g = omega arith
      shift (sends wire') g = tt
      shift broken g = OverrunBy-later b buffer opened c cs wire rs a e g

  -- From a buffer of 256 bytes whose last is zero, and while recv gives at most the 255 bytes that it is
  -- asked for: the buffer is a C string of at most 255 bytes after any number of connections, and by then
  -- one descriptor has been opened, and none closed, for each of them. If the run is undefined, it has come
  -- to one of the connections and received a command that overruns the array `fpath`: its path has 60 bytes
  -- or more, or the zero behind it is written 60 bytes or more behind the start of the array.
  pub main_loop-KeepsEnd :
      (buffer : Bytes) (opened : ℕ) (cs : List Connection)
      → HasEnd buffer
      → AllFit cs
      → KeepsEnd buffer opened cs (main_loop files buffer opened cs)
  unfolding main_loop
  main_loop-KeepsEnd buffer opened [] h f = (h, omega arith)
  main_loop-KeepsEnd buffer opened (c ∷ cs) h f =
      if_both (KeepsEnd buffer opened (c ∷ cs)) c.is_accepted _ _
        (λ a.
          next_turn-KeepsEnd buffer c cs opened (serve files buffer c.received c.sending) a refl
            (serve-Bounded files buffer c.received c.sending h f.0)
            (λ b e. main_loop-KeepsEnd b (suc opened) cs e f.1))
        (λ _. omega arith)
