-- ===== src/SslServer/Login.antt =====
-- How lesson6/qssl_server/main.cpp reads the login that lesson6/qssl_client/main.cpp writes.
use gb_cpp_network_programmi.Base.{
  ℕ, ◌≡◌, ◌≢◌, refl, ◌∙◌, ◌⊎◌, inl, inr, true, false, [], ◌∷◌, Bytes, text_eq, codes, get_or,
  if◌then◌else◌, Bool-cases, arith,
}
use gb_cpp_network_programmi.Qt.{Qt, IsQt, All-append}
use gb_cpp_network_programmi.SslClient.{login_request}
use gb_cpp_network_programmi.SslServer.{
  ThisServer, Handled, handled, reply, is_user, authorize, get_path, request_line,
  slot_ready_request,
}
use gb_cpp_network_programmi.SslServer.Fields.{IsValue, command, path, command_fields, login_tokens}
use gb_cpp_network_programmi.SslServer.Trust.{Listed, is_user-Listed, Listed-is_user}

-- The two answers to a login: both keep the login, one with the client authorized.
abbrev pub accepts : Qt → ThisServer → Bytes → Bytes → Handled
accepts q s login secret =
    let c = record s.ssl_client { login = login; password = secret; is_autorization = true } in
    handled (record s { ssl_client = c; timer_active = true }) (reply q 200 ∷ [])

abbrev pub refuses : Qt → ThisServer → Bytes → Bytes → Handled
refuses q s login secret =
    let c = record s.ssl_client { login = login; password = secret } in
    handled (record s { ssl_client = c; timer_active = true }) (reply q 401 ∷ [])

module _ (q : Qt) (L : IsQt q) where
  -- What the server does with the command of a login that it has read.
  authorize_by_list :
      (s : ThisServer) (login secret : Bytes)
      → IsValue login
      → IsValue secret
      → authorize q s (command login secret) ≡ (
          if is_user login secret s.users
          then accepts q s login secret
          else refuses q s login secret)
  unfolding authorize
  authorize_by_list s login secret l k =
      let (e, e') = command_fields q L login secret l k in rw (e, e') refl

  -- The path of a login leads a client that is not authorized to `authorize`.
  get_path_login :
      (s : ThisServer) (login secret : Bytes)
      → IsValue login
      → IsValue secret
      → s.ssl_client.is_autorization ≡ false
      → get_path q s (path login secret) ≡ authorize q s (command login secret)
  unfolding get_path text_eq
  get_path_login s login secret (a, b, c, d, l47, e, f) (a', b', c', d', k47, e', f') fresh =
      rw (fresh, field 1, field 2) refl
    where
      field :
          (i : ℕ)
          → q.section (path login secret) 47 i
            ≡ get_or ([] ∷ codes "authorization" ∷ command login secret ∷ []) i []
      field i = L.section-join 47 [] (codes "authorization" ∷ command login secret ∷ []) i (
        tt,
        (
          omega arith,
          (
            All-append (λ x. x ≢ 47) (codes "login=") _ (omega arith)
                (All-append (λ x. x ≢ 47) login _ l47
                  (All-append (λ x. x ≢ 47) (codes "&password=") secret (omega arith) k47)),
            tt,
          ),
        ),
      )

  login_read :
      (s : ThisServer) (host login secret : Bytes)
      → IsValue login
      → IsValue secret
      → s.ssl_client.is_autorization ≡ false
      → slot_ready_request q s (login_request q host login secret) ≡ (
          if is_user login secret s.users
          then accepts q s login secret
          else refuses q s login secret)
  unfolding slot_ready_request request_line text_eq
  login_read s host login secret l k fresh =
      let s' = record s { timer_active = false } in
      rw (login_tokens q L host login secret l k)
        (get_path_login s' login secret l k fresh ∙ authorize_by_list s' login secret l k)

  -- Over a lawful Qt, the server answers the login request that the client writes for a login and a
  -- secret that can be values of the path: 200 with the client authorized if the two stand together
  -- in the list of users, 401 if they do not.
  pub login_answered :
      (s : ThisServer) (host login secret : Bytes)
      → IsValue login
      → IsValue secret
      → s.ssl_client.is_autorization ≡ false
      → (Listed login secret s.users
          × (slot_ready_request q s (login_request q host login secret) ≡ accepts q s login secret))
        ⊎ ((¬ Listed login secret s.users)
            × (slot_ready_request q s (login_request q host login secret)
                ≡ refuses q s login secret))
  login_answered s host login secret l k fresh = elim (Bool-cases (is_user login secret s.users)) [
    | inl e ↦ inl (
      is_user-Listed login secret s.users e,
      (login_read s host login secret l k fresh ∙ rw e refl),
    )
    | inr e ↦ inr (
      Listed-is_user login secret s.users e,
      (login_read s host login secret l k fresh ∙ rw e refl),
    )
  ]
