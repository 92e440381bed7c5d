-- ===== src/SslServer/Trust.antt =====
-- Who is authorized by lesson6/qssl_server/main.cpp.
use gb_cpp_network_programmi.Base.{
  text_eq_refl, ◌≡◌, ◌⊎◌, inl, inr, Bool, true, false, ◌&&◌, List, [], ◌∷◌, Bytes, text_eq,
  text_eq→eq, codes, Option, if_both, Bool-cases, arith,
}
use gb_cpp_network_programmi.Qt.{Qt}
use gb_cpp_network_programmi.SslServer.{
  ThisServer, Handled, handled, undefined, start, is_user, authorize, get_path, request_line,
  slot_ready_request, Event, connects, sends, disconnects, times_out, handle, then_run, run,
}

-- The pair stands in the list.
abbrev pub Listed : Bytes → Bytes → List (Bytes × Bytes) → Type 0
Listed login password [] = ⊥
Listed login password ((name, secret) ∷ users) =
    ((name ≡ login) × (secret ≡ password)) ⊎ Listed login password users

pub is_user-Listed :
    (login password : Bytes) (users : List (Bytes × Bytes))
    → is_user login password users ≡ true
    → Listed login password users
unfolding is_user
is_user-Listed login password [] h = cc
is_user-Listed login password ((name, secret) ∷ users) h =
    elim (Bool-cases (text_eq name login && text_eq secret password)) [
      | inl e ↦
          inl (text_eq→eq name login (ground arith), text_eq→eq secret password (ground arith))
      | inr e ↦ inr (is_user-Listed login password users (rw e at h))
    ]

pub Listed-is_user :
    (login password : Bytes) (users : List (Bytes × Bytes))
    → is_user login password users ≡ false
    → ¬ Listed login password users
unfolding is_user
Listed-is_user login password [] h l = l
Listed-is_user login password ((name, secret) ∷ users) h (inl (e, e')) =
    let t : text_eq name login ≡ true = rw e (text_eq_refl login) in
    let t' : text_eq secret password ≡ true = rw e' (text_eq_refl password) in
    ground (arith, t, t', h)
Listed-is_user login password ((name, secret) ∷ users) h (inr l) =
    elim (Bool-cases (text_eq name login && text_eq secret password)) [
      | inl e ↦ ground (arith, e, h)
      | inr e ↦ Listed-is_user login password users (rw e at h) l
    ]

-- An authorized client has a login and a password that stand in the list of users.
abbrev pub IsTrusted : ThisServer → Type 0
IsTrusted s =
    s.ssl_client.is_autorization ≡ true → Listed s.ssl_client.login s.ssl_client.password s.users

abbrev pub Trusts : Handled → Type 0
Trusts (handled s written) = IsTrusted s
Trusts undefined = Unit

then_run-Trusts :
    (r : Handled) (k : ThisServer → Handled)
    → Trusts r
    → ((s : ThisServer) → IsTrusted s → Trusts (k s))
    → Trusts (then_run r k)
then_run-Trusts undefined k t h = tt
then_run-Trusts (handled s written) k t h = h s t

module _ (q : Qt) where
  authorize-Trusts :
      (s : ThisServer) (command : Bytes)
      → s.ssl_client.is_autorization ≡ false
      → Trusts (authorize q s command)
  unfolding authorize
  authorize-Trusts s command fresh =
      if_both Trusts
        (is_user (q.section (q.section command 61 1) 38 0) (q.section command 61 2) s.users) _ _
        (λ listed _.
          is_user-Listed (q.section (q.section command 61 1) 38 0) (q.section command 61 2) s.users
            listed)
        (λ unknown h. cc)

  get_path-Trusts : (s : ThisServer) (path : Bytes) → IsTrusted s → Trusts (get_path q s path)
  unfolding get_path
  get_path-Trusts s path t =
      if_both Trusts s.ssl_client.is_autorization _ _
        (λ known.
          if_both Trusts (text_eq (q.section path 47 1) (codes "message")) _ _ (λ _. t) (λ _. t))
        (λ fresh.
          if_both Trusts (text_eq (q.section path 47 1) (codes "authorization")) _ _
            (λ _. authorize-Trusts s (q.section path 47 2) fresh) (λ _. t))

  request_line-Trusts :
      (s : ThisServer) (tokens : List Bytes) → IsTrusted s → Trusts (request_line q s tokens)
  unfolding request_line
  request_line-Trusts s [] t = tt
  request_line-Trusts s (method ∷ []) t =
      if_both Trusts (text_eq method (codes "GET")) _ _ (λ _. tt) (λ _. t)
  request_line-Trusts s (method ∷ path ∷ more) t =
      if_both Trusts (text_eq method (codes "GET")) _ _ (λ _. get_path-Trusts s path t) (λ _. t)

  handle-Trusts : (s : ThisServer) (e : Event) → IsTrusted s → Trusts (handle q s e)
  unfolding handle slot_ready_request
  handle-Trusts s (connects true true) t = λ h. cc
  handle-Trusts s (connects true false) t = λ h. cc
  handle-Trusts s (connects false encrypted) t = λ h. cc
  handle-Trusts s (sends input) t = request_line-Trusts (record s { timer_active = false }) _ t
  handle-Trusts s disconnects t = t
  handle-Trusts s times_out t = if_both Trusts s.timer_active _ _ (λ _. t) (λ _. t)

  run_trusted : (s : ThisServer) (es : List Event) → IsTrusted s → Trusts (run q s es)
  unfolding run
  run_trusted s [] t = t
  run_trusted s (e ∷ es) t =
      then_run-Trusts (handle q s e) _ (handle-Trusts s e t) (λ s' t'. run_trusted s' es t')

  -- Whatever connects, sends, disconnects or times out, and in whatever order: a client that counts as
  -- authorized has a login and a password that stand together in the list of users, unless the run
  -- indexes a list out of range.
  pub run-Trusts :
      (file : Option (List Bytes)) (can_listen : Bool) (es : List Event)
      → Trusts (run q (start q file can_listen) es)
  unfolding start
  run-Trusts file can_listen es = run_trusted (start q file can_listen) es (λ h. cc)
