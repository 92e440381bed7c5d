-- ===== src/SslServer/Automaton.antt =====
-- The automaton that lesson6/qssl_server/main.cpp refines, request for request and answer for answer.
use gb_cpp_network_programmi.Base.{
  ℕ, ◌≡◌, refl, sym, subst, text_eq→eq, inl, inr, true, false, List, [], ◌∷◌, Bytes, map, text_eq,
  codes, if◌then◌else◌, if_both, Bool-cases, Bool,
}
use gb_cpp_network_programmi.Qt.{Qt}
use gb_cpp_network_programmi.SslServer.{
  ThisServer, Handled, handled, undefined, reply, send, is_user, authorize, get_path, request_line,
  slot_ready_request,
}
use gb_cpp_network_programmi.SslServer.Trust.{Listed, is_user-Listed, Listed-is_user}

-- What the server knows of its client.
pub data View : Type 0 where
  guest : View
  member : View

abbrev pub view_of : Bool → View
view_of true = member
view_of false = guest

abbrev pub view : ThisServer → View
view s = view_of s.ssl_client.is_autorization

-- What a request asks for.
pub data Request : Type 0 where
  login : Bytes → Bytes → Request
  message : Request
  other : Request
  no_get : Request
  cut_short : Request

abbrev pub of_path : Qt → Bytes → Request
of_path q path =
    if text_eq (q.section path 47 1) (codes "authorization")
    then login (q.section (q.section (q.section path 47 2) 61 1) 38 0)
        (q.section (q.section path 47 2) 61 2)
    else if text_eq (q.section path 47 1) (codes "message")
    then message
    else other

abbrev pub of_tokens : Qt → List Bytes → Request
of_tokens q [] = cut_short
of_tokens q (method ∷ []) = if text_eq method (codes "GET") then cut_short else no_get
of_tokens q (method ∷ path ∷ more) = if text_eq method (codes "GET") then of_path q path else no_get

abbrev pub request_of : Qt → Bytes → Request
request_of q input = of_tokens q (q.split_blank (q.first_line input))

-- The automaton, over the list of users: the codes of the answers.
pub data Allows (users : List (Bytes × Bytes)) : View → Request → View → List ℕ → Type 0 where
  right_login : {l p : Bytes} → Listed l p users → Allows users guest (login l p) member (200 ∷ [])
  wrong_login :
      {l p : Bytes} → (¬ Listed l p users) → Allows users guest (login l p) guest (401 ∷ [])
  no_member : Allows users guest message guest (400 ∷ [])
  no_member_other : Allows users guest other guest (400 ∷ [])
  said : Allows users member message member (200 ∷ [])
  login_again : {l p : Bytes} → Allows users member (login l p) member (400 ∷ [])
  unknown : Allows users member other member (400 ∷ [])
  unheard : {v : View} → Allows users v no_get v []

-- A slot that returns has kept to the automaton and left the users alone; one that does not was sent a
-- request line that is cut short.
abbrev pub Refines : Qt → List (Bytes × Bytes) → View → Request → Handled → Type 0
Refines q users v r (handled s written) =
    (codes : List ℕ) × Allows users v r (view s) codes
    × (written ≡ map (reply q) codes)
    × (s.users ≡ users)
Refines q users v r undefined = r ≡ cut_short

module _ (q : Qt) where
  authorize-Refines :
      (s : ThisServer) (command : Bytes)
      → s.ssl_client.is_autorization ≡ false
      → Refines q s.users guest
          (login (q.section (q.section command 61 1) 38 0) (q.section command 61 2))
          (authorize q s command)
  unfolding authorize send
  authorize-Refines s command fresh =
      if_both
        (Refines q s.users guest
          (login (q.section (q.section command 61 1) 38 0) (q.section command 61 2)))
        (is_user (q.section (q.section command 61 1) 38 0) (q.section command 61 2) s.users) _ _
        (λ e. (200 ∷ [], right_login (is_user-Listed _ _ s.users e), refl, refl))
        (λ e. (401 ∷ [], rw fresh (wrong_login (Listed-is_user _ _ s.users e)), refl, refl))

  -- A path for a login is none for a message.
  not_message :
      (task : Bytes)
      → text_eq task (codes "authorization") ≡ true
      → text_eq task (codes "message") ≡ false
  unfolding text_eq
  not_message task e = rw (text_eq→eq task (codes "authorization") e) refl

  -- A request that leaves the client as it was.
  stays :
      (s : ThisServer) (b : Bool) (r : Request) (code : ℕ)
      → s.ssl_client.is_autorization ≡ b
      → Allows s.users (view_of b) r (view_of b) (code ∷ [])
      → Refines q s.users (view_of b) r (send q code s)
  unfolding send
  stays s b r code e a = (
    code ∷ [],
    subst (λ v. Allows s.users (view_of b) r (view_of v) (code ∷ [])) (sym e) a,
    refl,
    refl,
  )

  guest_path :
      (s : ThisServer) (path : Bytes)
      → s.ssl_client.is_autorization ≡ false
      → Refines q s.users guest (of_path q path) (get_path q s path)
  unfolding get_path
  guest_path s path fresh =
      if_both (Refines q s.users guest (of_path q path)) s.ssl_client.is_autorization _ _
        (λ known. cc)
        (λ _. elim (Bool-cases (text_eq (q.section path 47 1) (codes "authorization"))) [
          | inl e ↦ rw e (authorize-Refines s (q.section path 47 2) fresh)
          | inr e ↦ elim (Bool-cases (text_eq (q.section path 47 1) (codes "message"))) [
            | inl m ↦ rw (e, m) (stays s false message 400 fresh no_member)
            | inr m ↦ rw (e, m) (stays s false other 400 fresh no_member_other)
          ]
        ])

  member_path :
      (s : ThisServer) (path : Bytes)
      → s.ssl_client.is_autorization ≡ true
      → Refines q s.users member (of_path q path) (get_path q s path)
  unfolding get_path
  member_path s path known =
      if_both (Refines q s.users member (of_path q path)) s.ssl_client.is_autorization _ _
        (λ _. elim (Bool-cases (text_eq (q.section path 47 1) (codes "authorization"))) [
          | inl e ↦
              rw (e, not_message (q.section path 47 1) e)
                (stays s true (login _ _) 400 known login_again)
          | inr e ↦ elim (Bool-cases (text_eq (q.section path 47 1) (codes "message"))) [
            | inl m ↦ rw (e, m) (stays s true message 200 known said)
            | inr m ↦ rw (e, m) (stays s true other 400 known unknown)
          ]
        ])
        (λ fresh. cc)

  get_path-Refines :
      (s : ThisServer) (path : Bytes)
      → Refines q s.users (view s) (of_path q path) (get_path q s path)
  get_path-Refines s path = elim (Bool-cases s.ssl_client.is_autorization) [
    | inl e ↦
        subst (λ b. Refines q s.users (view_of b) (of_path q path) (get_path q s path)) (sym e)
          (member_path s path e)
    | inr e ↦
        subst (λ b. Refines q s.users (view_of b) (of_path q path) (get_path q s path)) (sym e)
          (guest_path s path e)
  ]

  tokens-Refines :
      (s : ThisServer) (tokens : List Bytes)
      → Refines q s.users (view s) (of_tokens q tokens) (request_line q s tokens)
  unfolding request_line
  tokens-Refines s [] = refl
  tokens-Refines s (method ∷ []) = elim (Bool-cases (text_eq method (codes "GET"))) [
    | inl e ↦ rw e refl
    | inr e ↦ rw e ([], unheard, refl, refl)
  ]
  tokens-Refines s (method ∷ path ∷ more) = elim (Bool-cases (text_eq method (codes "GET"))) [
    | inl e ↦ rw e (get_path-Refines s path)
    | inr e ↦ rw e ([], unheard, refl, refl)
  ]

  -- Whatever the socket holds: if the slot returns, it has written the answers that the automaton of
  -- guest and member allows for the request, with the client in the state that the automaton says, and
  -- the users as they were; if it does not, the request line was cut short.
  pub slot_ready_request-Refines :
      (s : ThisServer) (input : Bytes)
      → Refines q s.users (view s) (request_of q input) (slot_ready_request q s input)
  unfolding slot_ready_request
  slot_ready_request-Refines s input =
      tokens-Refines (record s { timer_active = false }) (q.split_blank (q.first_line input))
