-- ===== src/SslServer/Users.antt =====
-- The users of lesson6/qssl_server/main.cpp as a set: order and repetition do not show.
use mathlib.Core.Quot
use mathlib.Core.Quot.{Quot}
use gb_cpp_network_programmi.Base.{
  ◌≡◌, ◌↔◌, refl, sym, ap, ◌∙◌, inl, inr, Bool, true, false, Bool-cases, List, [], ◌∷◌, Bytes,
  text_eq, codes, Option, none, some, if◌then◌else◌,
}
use gb_cpp_network_programmi.Qt.{Qt}
use gb_cpp_network_programmi.SslServer.{
  ThisServer, Handled, handled, undefined, slot_client_disconnected, incoming_connection, send,
  is_user, authorize, get_path, request_line, slot_ready_request, Event, connects, sends,
  disconnects, times_out, handle,
}
use gb_cpp_network_programmi.SslServer.Trust.{Listed, is_user-Listed, Listed-is_user}

-- The same pairs stand in both lists.
abbrev pub SameUsers : List (Bytes × Bytes) → List (Bytes × Bytes) → Type 0
SameUsers us vs = (login password : Bytes) → Listed login password us ↔ Listed login password vs

-- What is written in answer to each event, up to one that is undefined.
abbrev pub Answers : Type 0
Answers = List (Option (List Bytes))

abbrev pub heard : Handled → (ThisServer → Answers) → Answers
heard undefined k = none ∷ []
heard (handled s written) k = some written ∷ k s

abbrev pub answers : Qt → ThisServer → List Event → Answers
answers q s [] = []
answers q s (e ∷ es) = heard (handle q s e) (λ s'. answers q s' es)

abbrev pub with_users : ThisServer → List (Bytes × Bytes) → ThisServer
with_users s us = record s { users = us }

abbrev give : List (Bytes × Bytes) → Handled → Handled
give us undefined = undefined
give us (handled s written) = handled (with_users s us) written

is_user_same :
    (us vs : List (Bytes × Bytes)) (login password : Bytes)
    → SameUsers us vs
    → is_user login password vs ≡ is_user login password us
is_user_same us vs login password h = elim (Bool-cases (is_user login password us)) [
  | inl e ↦ elim (Bool-cases (is_user login password vs)) [
    | inl f ↦ f ∙ sym e
    | inr f ↦ absurd (
        Listed-is_user login password vs f
          ((h login password).0 (is_user-Listed login password us e)))
  ]
  | inr e ↦ elim (Bool-cases (is_user login password vs)) [
    | inl f ↦ absurd (
        Listed-is_user login password us e
          ((h login password).1 (is_user-Listed login password vs f)))
    | inr f ↦ f ∙ sym e
  ]
]

if-give :
    (us : List (Bytes × Bytes)) (c : Bool) (a b a' b' : Handled)
    → a' ≡ give us a
    → b' ≡ give us b
    → (if c then a' else b') ≡ give us (if c then a else b)
if-give us true a b a' b' e f = e
if-give us false a b a' b' e f = f

module _ (q : Qt) (us vs : List (Bytes × Bytes)) (h : SameUsers us vs) where
  authorize-give :
      (s : ThisServer) (command : Bytes)
      → authorize q (with_users s vs) command ≡ give vs (authorize q (with_users s us) command)
  unfolding authorize send
  authorize-give s command =
      rw (is_user_same us vs (q.section (q.section command 61 1) 38 0) (q.section command 61 2) h) (
        if-give vs (is_user (q.section (q.section command 61 1) 38 0) (q.section command 61 2) us) _
          _ _ _ refl refl)

  get_path-give :
      (s : ThisServer) (path : Bytes)
      → get_path q (with_users s vs) path ≡ give vs (get_path q (with_users s us) path)
  unfolding get_path send
  get_path-give s path =
      if-give vs s.ssl_client.is_autorization _ _ _ _
        (if-give vs (text_eq (q.section path 47 1) (codes "message")) _ _ _ _ refl refl)
        (if-give vs (text_eq (q.section path 47 1) (codes "authorization")) _ _ _ _
          (authorize-give s (q.section path 47 2)) refl)

  request_line-give :
      (s : ThisServer) (tokens : List Bytes)
      → request_line q (with_users s vs) tokens ≡ give vs (request_line q (with_users s us) tokens)
  unfolding request_line
  request_line-give s [] = refl
  request_line-give s (method ∷ []) = if-give vs (text_eq method (codes "GET")) _ _ _ _ refl refl
  request_line-give s (method ∷ path ∷ more) =
      if-give vs (text_eq method (codes "GET")) _ _ _ _ (get_path-give s path) refl

  connects-give :
      (s : ThisServer) (has_descriptor encrypted : Bool)
      → handle q (with_users s vs) (connects has_descriptor encrypted)
        ≡ give vs (handle q (with_users s us) (connects has_descriptor encrypted))
  unfolding handle incoming_connection slot_client_disconnected
  connects-give s true true = refl
  connects-give s true false = refl
  connects-give s false encrypted = refl

  handle-give :
      (s : ThisServer) (e : Event)
      → handle q (with_users s vs) e ≡ give vs (handle q (with_users s us) e)
  unfolding handle slot_ready_request slot_client_disconnected
  handle-give s (connects has_descriptor encrypted) = connects-give s has_descriptor encrypted
  handle-give s (sends input) =
      request_line-give (record s { timer_active = false }) (q.split_blank (q.first_line input))
  handle-give s disconnects = refl
  handle-give s times_out = if-give vs s.timer_active _ _ _ _ refl refl

heard-give :
    (us vs : List (Bytes × Bytes)) (r : Handled) (k : ThisServer → Answers)
    → ((s : ThisServer) → k (with_users s vs) ≡ k (with_users s us))
    → heard (give vs r) k ≡ heard (give us r) k
heard-give us vs undefined k f = refl
heard-give us vs (handled s written) k f = ap (◌∷◌ (some written)) (f s)

same : (us : List (Bytes × Bytes)) → SameUsers us us
same us login password = (λ l. l, λ l. l)

-- Whatever happens to a server, and in whatever order: what it writes for each event, and whether it
-- indexes a list out of range, depends on its list of users only by the pairs that stand in it.
pub answers_same :
    (q : Qt) (us vs : List (Bytes × Bytes)) (s : ThisServer) (es : List Event)
    → SameUsers us vs
    → answers q (with_users s vs) es ≡ answers q (with_users s us) es
answers_same q us vs s [] h = refl
answers_same q us vs s (e ∷ es) h =
    ap (λ r. heard r (λ s'. answers q s' es)) (handle-give q us vs h s e)
    ∙ heard-give us vs (handle q (with_users s us) e) (λ s'. answers q s' es)
        (λ s'. answers_same q us vs s' es h)
    ∙ ap (λ r. heard r (λ s'. answers q s' es)) (sym (handle-give q us us (same us) s e))

-- The users as the server sees them, and its answers as a function of these.
abbrev pub Users : Type 0
Users = Quot SameUsers

pub Answers-IsSet : IsSet Answers
Answers-IsSet = hlevel

unfoldable pub answers_to : Qt → ThisServer → List Event → Users → Answers
answers_to q s es =
    let of_list : List (Bytes × Bytes) → Answers = λ us. answers q (with_users s us) es in
    Quot.lift Answers-IsSet of_list (λ us vs h. sym (answers_same q us vs s es h))

-- On the users of a list, these are the answers of the server with that list.
answers_to_lem :
    (q : Qt) (s : ThisServer) (es : List Event) (us : List (Bytes × Bytes))
    → answers_to q s es (Quot.mk us) ≡ answers q (with_users s us) es
unfolding answers_to
answers_to_lem q s es us = refl

-- Order and repetition are forgotten.
SameUsers-swap :
    (u v : Bytes × Bytes) (us : List (Bytes × Bytes)) → SameUsers (u ∷ v ∷ us) (v ∷ u ∷ us)
SameUsers-swap u v us login password = (swap u v, swap v u)
  where
    swap :
        (u v : Bytes × Bytes)
        → Listed login password (u ∷ v ∷ us)
        → Listed login password (v ∷ u ∷ us)
    swap u v (inl e) = inr (inl e)
    swap u v (inr (inl e)) = inl e
    swap u v (inr (inr l)) = inr (inr l)

pub SameUsers-repeat :
    (u : Bytes × Bytes) (us : List (Bytes × Bytes)) → SameUsers (u ∷ u ∷ us) (u ∷ us)
SameUsers-repeat u us login password = (once, inr)
  where
    once : Listed login password (u ∷ u ∷ us) → Listed login password (u ∷ us)
    once (inl e) = inl e
    once (inr l) = l

-- Two users in either order are the same users to the server.
users_comm :
    (q : Qt) (s : ThisServer) (es : List Event) (u v : Bytes × Bytes) (us : List (Bytes × Bytes))
    → answers q (with_users s (u ∷ v ∷ us)) es ≡ answers q (with_users s (v ∷ u ∷ us)) es
unfolding answers_to
users_comm q s es u v us = ap (answers_to q s es) (Quot.sound (SameUsers-swap u v us))
