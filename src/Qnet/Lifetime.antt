-- ===== src/Qnet/Lifetime.antt =====
-- The event loop of lesson5/qnet_tcp_server/main.cpp: what makes the server quit.
use gb_cpp_network_programmi.Base.{
  erase_at, ℕ, zero, suc, ◌≡◌, ◌≢◌, refl, sym, ap, ◌∙◌, subst, ◌⊎◌, inl, inr, Bool, true, false,
  Bool-cases, List, [], ◌∷◌, ◌++◌, Bytes, get_elem?, text_eq, text_eq→eq, codes, Option, none, some,
  if◌then◌else◌,
}
use mathlib.Core.Bool.{false≢true}
use gb_cpp_network_programmi.Base.Fallible.{some-injective}
use gb_cpp_network_programmi.Qt.{Qt, All, All-append, All-erase_at}
use gb_cpp_network_programmi.Qnet.{
  Timer, disconnects, quits, ThisServer, Handled, handled, undefined, start_listening,
  slot_new_connection, fire, run_command, route, by_tokens, slot_read_client,
}

-- A client connects or sends a request, or one of the single shots that are pending fires.
pub data Event : Type 0 where
  connects : Event
  sends : Bytes → Event
  fires : ℕ → Event

abbrev pub fired : ThisServer → ℕ → Option Timer → ThisServer
fired s i none = s
fired s i (some t) = fire (record s { timers = erase_at i s.timers }) t

unfoldable pub handle : Qt → ThisServer → Event → Handled
handle q s connects = handled (slot_new_connection s) [] []
handle q s (sends input) = slot_read_client q s input
handle q s (fires i) = handled (fired s i (get_elem? s.timers i)) [] []

-- What was written and printed before goes first.
abbrev after : List Bytes → List Bytes → Handled → Handled
after written printed undefined = undefined
after written printed (handled s w p) = handled s (written ++ w) (printed ++ p)

abbrev pub then_run : Handled → (ThisServer → Handled) → Handled
then_run undefined k = undefined
then_run (handled s written printed) k = after written printed (k s)

unfoldable pub run : Qt → ThisServer → List Event → Handled
run q s [] = handled s [] []
run q s (e ∷ es) =
    if s.has_quit then handled s [] [] else then_run (handle q s e) (λ s'. run q s' es)

All-get_elem? {ℓ κ} :
    {A : Type ℓ} (P : A → Type κ) (xs : List A) (i : ℕ) (x : A)
    → All P xs
    → get_elem? xs i ≡ some x
    → P x
All-get_elem? P [] i x h e = cc
All-get_elem? P (y ∷ ys) zero x h e = subst P (some-injective y x e) h.0
All-get_elem? P (y ∷ ys) (suc i) x h e = All-get_elem? P ys i x h.1 e

-- The server has not quit, and no timer is to make it quit.
pub record IsLasting (s : ThisServer) : Type 0 where
  pub has_quit : s.has_quit ≡ false
  pub timers : All (λ t. t ≢ quits) s.timers

module _ (q : Qt) where
  -- A request with the path /command/shutdown.
  abbrev pub AsksShutdown : List Bytes → Type 0
  AsksShutdown tokens =
      (path : Bytes) × (more : List Bytes) × (tokens ≡ codes "GET" ∷ path ∷ more)
      × (q.section path 47 1 ≡ codes "command")
      × (q.section path 47 2 ≡ codes "shutdown")

  abbrev pub IsShutdown : Event → Type 0
  IsShutdown connects = ⊥
  IsShutdown (sends input) = AsksShutdown (q.split_blank (q.from_percent (q.socket_line input)))
  IsShutdown (fires i) = ⊥

  abbrev pub AnyShutdown : List Event → Type 0
  AnyShutdown [] = ⊥
  AnyShutdown (e ∷ es) = IsShutdown e ⊎ AnyShutdown es

  abbrev Lasts : Handled → Type 0
  Lasts undefined = Unit
  Lasts (handled s written printed) = IsLasting s

  run_command-Lasts :
      (s : ThisServer) (command : Bytes)
      → IsLasting s
      → Lasts (run_command q s command) ⊎ (command ≡ codes "shutdown")
  unfolding run_command
  run_command-Lasts s command l = elim (Bool-cases (text_eq command (codes "exit"))) [
    | inl e ↦ inl (
        rw e (record {
          has_quit = l.has_quit;
          timers = All-append (λ t. t ≢ quits) s.timers (disconnects ∷ []) l.timers ((λ h. cc), tt);
        }))
    | inr e ↦ elim (Bool-cases (text_eq command (codes "shutdown"))) [
      | inl f ↦ inr (text_eq→eq command (codes "shutdown") f)
      | inr f ↦ inl (rw (e, f) l)
    ]
  ]

  route-Lasts :
      (s : ThisServer) (task command : Bytes)
      → IsLasting s
      → Lasts (route q s task command) ⊎ ((task ≡ codes "command") × (command ≡ codes "shutdown"))
  unfolding route
  route-Lasts s task command l = elim (Bool-cases (text_eq task (codes "command"))) [
    | inl e ↦ elim (run_command-Lasts s command l) [
      | inl k ↦ inl (rw e k)
      | inr c ↦ inr (text_eq→eq task (codes "command") e, c)
    ]
    | inr e ↦ elim (Bool-cases (text_eq task (codes "message"))) [
      | inl m ↦ inl (rw (e, m) l)
      | inr m ↦ inl (rw (e, m) l)
    ]
  ]

  no_task : (s : ThisServer) → IsLasting s → Lasts (route q s [] [])
  no_task s l = elim (route-Lasts s [] [] l) [ inl k ↦ k | inr (t, c) ↦ cc ]

  by_tokens-Lasts :
      (s : ThisServer) (tokens : List Bytes)
      → IsLasting s
      → Lasts (by_tokens q s tokens) ⊎ AsksShutdown tokens
  unfolding by_tokens
  by_tokens-Lasts s [] l = inl tt
  by_tokens-Lasts s (method ∷ []) l = elim (Bool-cases (text_eq method (codes "GET"))) [
    | inl e ↦ inl (rw e tt)
    | inr e ↦ inl (rw e (no_task s l))
  ]
  by_tokens-Lasts s (method ∷ path ∷ more) l = elim (Bool-cases (text_eq method (codes "GET"))) [
    | inl e ↦ elim (route-Lasts s (q.section path 47 1) (q.section path 47 2) l) [
      | inl k ↦ inl (rw e k)
      | inr (t, c) ↦
          inr (path, more, ap (λ m. m ∷ path ∷ more) (text_eq→eq method (codes "GET") e), t, c)
    ]
    | inr e ↦ inl (rw e (no_task s l))
  ]

  fired-Lasts :
      (s : ThisServer) (i : ℕ) (o : Option Timer)
      → get_elem? s.timers i ≡ o
      → IsLasting s
      → IsLasting (fired s i o)
  unfolding fire
  fired-Lasts s i none e l = l
  fired-Lasts s i (some disconnects) e l = record {
    has_quit = l.has_quit;
    timers = All-erase_at (λ t. t ≢ quits) i s.timers l.timers;
  }
  fired-Lasts s i (some quits) e l =
      absurd (All-get_elem? (λ t. t ≢ quits) s.timers i quits l.timers e refl)

  handle-Lasts : (s : ThisServer) (e : Event) → IsLasting s → Lasts (handle q s e) ⊎ IsShutdown e
  unfolding handle slot_read_client
  handle-Lasts s connects l = inl (record { has_quit = l.has_quit; timers = l.timers })
  handle-Lasts s (sends input) l =
      by_tokens-Lasts s (q.split_blank (q.from_percent (q.socket_line input))) l
  handle-Lasts s (fires i) l = inl (fired-Lasts s i (get_elem? s.timers i) refl l)

  after-Lasts :
      (written printed : List Bytes) (r : Handled) → Lasts r → Lasts (after written printed r)
  after-Lasts written printed undefined l = tt
  after-Lasts written printed (handled s w p) l = l

  then-Lasts :
      (r : Handled) (k : ThisServer → Handled) (es : List Event)
      → Lasts r
      → ((s : ThisServer) → IsLasting s → Lasts (k s) ⊎ AnyShutdown es)
      → Lasts (then_run r k) ⊎ AnyShutdown es
  then-Lasts undefined k es l f = inl tt
  then-Lasts (handled s written printed) k es l f = elim (f s l) [
    | inl j ↦ inl (after-Lasts written printed (k s) j)
    | inr d ↦ inr d
  ]

  else-Lasts : (b : Bool) (x y : Handled) → b ≡ false → Lasts y → Lasts (if b then x else y)
  else-Lasts true x y e l = cc
  else-Lasts false x y e l = l

  run-Lasts : (s : ThisServer) (es : List Event) → IsLasting s → Lasts (run q s es) ⊎ AnyShutdown es
  unfolding run
  run-Lasts s [] l = inl l
  run-Lasts s (e ∷ es) l = elim (handle-Lasts s e l) [
    | inr d ↦ inr (inl d)
    | inl k ↦ elim (then-Lasts (handle q s e) _ es k (λ s' l'. run-Lasts s' es l')) [
      | inl j ↦ inl (else-Lasts s.has_quit _ _ l.has_quit j)
      | inr d ↦ inr (inr d)
    ]
  ]

  -- Whatever connects, is requested and fires, and in whatever order: a server that has quit was sent a
  -- GET request for /command/shutdown.
  pub quits_on_request :
      (can_listen : Bool) (es : List Event) (s : ThisServer) (written printed : List Bytes)
      → run q (start_listening can_listen) es ≡ handled s written printed
      → s.has_quit ≡ true
      → AnyShutdown es
  quits_on_request can_listen es s written printed r h =
      elim (run-Lasts (start_listening can_listen) es (record { has_quit = refl; timers = tt })) [
        | inl l ↦ let k : IsLasting s = subst Lasts r l in absurd (false≢true (sym k.has_quit ∙ h))
        | inr d ↦ d
      ]
