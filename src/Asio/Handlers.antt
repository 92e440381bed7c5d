-- ===== src/Asio/Handlers.antt =====
-- What the handlers of lesson4/asio_server/main.cpp keep: one accept, and one daytime message for each
-- connection.
use mathlib.Core.List.{map-append}
use gb_cpp_network_programmi.Base.{
  ℕ, suc, ◌+◌, ◌≡◌, refl, sym, ap, ◌∙◌, subst, Bool, true, false, List, [], ◌∷◌, ◌++◌, Bytes,
  length, length-append, append-nil, map, Option, none, some, arith,
}
use gb_cpp_network_programmi.Base.Fallible.{some-injective}
use gb_cpp_network_programmi.Asio.{
  TcpConnection, TcpServer, Completion, accepted, wrote, start_accept, tcp_server, start,
  handle_accept, handle_write, Step, accept_ends, write_ends, Reach, started, next,
}

-- The times of the accepts that succeeded, and the counts of the writes that ended.
abbrev pub accept_times : List Completion → List ℕ
accept_times [] = []
accept_times (accepted none ∷ past) = accept_times past
accept_times (accepted (some (now, made)) ∷ past) = now ∷ accept_times past
accept_times (wrote bytes ∷ past) = accept_times past

abbrev pub counts : List Completion → List ℕ
counts [] = []
counts (accepted result ∷ past) = counts past
counts (wrote bytes ∷ past) = bytes ∷ counts past

accept_times-append :
    (xs ys : List Completion) → accept_times (xs ++ ys) ≡ accept_times xs ++ accept_times ys
accept_times-append [] ys = refl
accept_times-append (accepted none ∷ xs) ys = accept_times-append xs ys
accept_times-append (accepted (some (now, made)) ∷ xs) ys = ap (◌∷◌ now) (accept_times-append xs ys)
accept_times-append (wrote bytes ∷ xs) ys = accept_times-append xs ys

counts-append : (xs ys : List Completion) → counts (xs ++ ys) ≡ counts xs ++ counts ys
counts-append [] ys = refl
counts-append (accepted result ∷ xs) ys = counts-append xs ys
counts-append (wrote bytes ∷ xs) ys = ap (◌∷◌ bytes) (counts-append xs ys)

-- The connections whose write has ended.
abbrev told : Option ℕ → ℕ
told none = 0
told (some bytes) = 1

abbrev pub ended : List TcpConnection → ℕ
ended [] = 0
ended (c ∷ cs) = told c.transferred + ended cs

ended-append : (xs ys : List TcpConnection) → ended (xs ++ ys) ≡ ended xs + ended ys
ended-append [] ys = omega arith
ended-append (x ∷ xs) ys = omega (arith, ended-append xs ys)

module _ (ctime : ℕ → Bytes) where
  -- The messages and the printed counts are those that the completions tell.
  pub record IsDaytime (past : List Completion) (s : TcpServer) : Type 0 where
    pub accepts : s.accepts ≡ 1
    pub messages : map (λ c. c.message) s.connections ≡ map ctime (accept_times past)
    pub printed : s.printed ≡ counts past
    pub told_once : length s.printed ≡ ended s.connections

  -- What is left alone where a completion changes neither messages nor counts.
  printed_still :
      (past : List Completion) (s : TcpServer) (result : Option (ℕ × Bool))
      → s.printed ≡ counts past
      → s.printed ≡ counts (past ++ (accepted result ∷ []))
  printed_still past s result e =
      e ∙ sym (append-nil (counts past)) ∙ sym (counts-append past (accepted result ∷ []))

  start-IsDaytime :
      (past : List Completion) (now n : ℕ) (s : TcpServer)
      → IsDaytime past s
      → s.accepts ≡ suc n
      → IsDaytime
          (past ++ (accepted (some (now, true)) ∷ []))
          (start_accept (start ctime now (record s { accepts = n })))
  unfolding start
  start-IsDaytime past now n s d a = record {
    accepts = omega (arith, a, d.accepts);
    messages =
        map-append (λ c. c.message) s.connections _
        ∙ ap (λ l. l ++ (ctime now ∷ [])) d.messages
        ∙ sym (map-append ctime (accept_times past) (now ∷ []))
        ∙ ap (map ctime) (sym (accept_times-append past (accepted (some (now, true)) ∷ [])));
    printed = printed_still past s (some (now, true)) d.printed;
    told_once = omega (
      arith,
      d.told_once,
      ended-append s.connections (record { message = ctime now; transferred = none } ∷ []),
    );
  }

  accepted-IsDaytime :
      (past : List Completion) (result : Option (ℕ × Bool)) (n : ℕ) (s s' : TcpServer)
      → IsDaytime past s
      → s.accepts ≡ suc n
      → handle_accept ctime result (record s { accepts = n }) ≡ some s'
      → IsDaytime (past ++ (accepted result ∷ [])) s'
  unfolding handle_accept
  accepted-IsDaytime past none n s s' d a e =
      subst (IsDaytime (past ++ (accepted none ∷ []))) (some-injective _ s' e) (record {
        accepts = omega (arith, a, d.accepts);
        messages =
            d.messages
            ∙ ap (map ctime) (
                sym (append-nil (accept_times past))
                ∙ sym (accept_times-append past (accepted none ∷ [])));
        printed = printed_still past s none d.printed;
        told_once = d.told_once;
      })
  accepted-IsDaytime past (some (now, true)) n s s' d a e =
      subst (IsDaytime (past ++ (accepted (some (now, true)) ∷ []))) (some-injective _ s' e)
        (start-IsDaytime past now n s d a)
  accepted-IsDaytime past (some (now, false)) n s s' d a e = cc

  written-IsDaytime :
      (past : List Completion) (front rest : List TcpConnection) (c : TcpConnection) (bytes : ℕ)
      (s : TcpServer)
      → IsDaytime past s
      → s.connections ≡ front ++ (c ∷ rest)
      → c.transferred ≡ none
      → IsDaytime (past ++ (wrote bytes ∷ [])) (handle_write ctime front c rest bytes s)
  unfolding handle_write
  written-IsDaytime past front rest c bytes s d e t = record {
    accepts = d.accepts;
    messages =
        map-append (λ k. k.message) front _
        ∙ sym (map-append (λ k. k.message) front (c ∷ rest))
        ∙ ap (map (λ k. k.message)) (sym e)
        ∙ d.messages
        ∙ ap (map ctime) (
            sym (append-nil (accept_times past))
            ∙ sym (accept_times-append past (wrote bytes ∷ [])));
    printed = ap (λ l. l ++ (bytes ∷ [])) d.printed ∙ sym (counts-append past (wrote bytes ∷ []));
    told_once = omega (
      arith,
      d.told_once,
      length-append s.printed (bytes ∷ []),
      ap ended e,
      ended-append front (c ∷ rest),
      ended-append front (record c { transferred = some bytes } ∷ rest),
      ap told t,
    );
  }

  Step-IsDaytime :
      {past : List Completion} {done : Completion} {s s' : TcpServer}
      → IsDaytime past s
      → Step ctime s done s'
      → IsDaytime (past ++ (done ∷ [])) s'
  Step-IsDaytime {past} {s = s} {s' = s'} d (accept_ends {n = n} result a e) =
      accepted-IsDaytime past result n s s' d a e
  Step-IsDaytime {past} {s = s} d (write_ends front rest c failed bytes e t h f) =
      written-IsDaytime past front rest c bytes s d e t

  started-IsDaytime : (s : TcpServer) → tcp_server true ≡ some s → IsDaytime [] s
  unfolding tcp_server
  started-IsDaytime s e =
      subst (IsDaytime []) (some-injective _ s e)
        (record { accepts = refl; messages = refl; printed = refl; told_once = refl })

  -- In whatever order accepts and writes end, and with whatever results: exactly one accept is pending, so
  -- that io_context::run never runs out of work; the connections, in order, have the daytimes of the
  -- accepts that succeeded as their messages; and the counts of the writes that ended have been printed,
  -- in order, one for each connection that was told of its write.
  pub Reach-IsDaytime :
      {past : List Completion} {s : TcpServer} → Reach ctime past s → IsDaytime past s
  Reach-IsDaytime {s = s} (started e) = started-IsDaytime s e
  Reach-IsDaytime (next r step) = Step-IsDaytime (Reach-IsDaytime r) step
