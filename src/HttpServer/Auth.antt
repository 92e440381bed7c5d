-- ===== src/HttpServer/Auth.antt =====
-- Whom lesson7/libhttpserver_server/main.cpp answers with `Ok`.
use gb_cpp_network_programmi.Base.{
  ◌≡◌, refl, subst, ◌⊎◌, inl, inr, true, false, List, [], ◌∷◌, Bytes, text_eq, text_eq→eq,
  text_eq_refl, codes, Option, Bool-cases, arith,
}
use gb_cpp_network_programmi.CurlClient.{auth_url}
use gb_cpp_network_programmi.HttpServer.{
  Response, ok_response, not_found, auth_loop, load_users, auth_render,
}
use gb_cpp_network_programmi.HttpServer.Query.{IsArgument, IsQuery}

-- Some user has the login, or some user, perhaps another, has the password.
abbrev pub HasEither : Bytes → Bytes → List (Bytes × Bytes) → Type 0
HasEither login password [] = ⊥
HasEither login password ((name, secret) ∷ users) =
    ((name ≡ login) ⊎ (secret ≡ password)) ⊎ HasEither login password users

-- The answer, and the reason for it.
abbrev pub Answers : Bytes → Bytes → List (Bytes × Bytes) → Response → Type 0
Answers login password users r =
    (HasEither login password users × (r ≡ ok_response))
    ⊎ ((¬ HasEither login password users) × (r ≡ not_found))

text_eq-false : (s t : Bytes) → text_eq s t ≡ false → ¬ (s ≡ t)
text_eq-false s t h e = let k : text_eq s t ≡ true = rw e (text_eq_refl t) in ground (arith, h, k)

auth_loop-Answers :
    (get_arg : Bytes → Bytes) (users : List (Bytes × Bytes))
    → Answers (get_arg (codes "login")) (get_arg (codes "password")) users (auth_loop get_arg users)
unfolding auth_loop
auth_loop-Answers get_arg [] = inr ((λ h. h), refl)
auth_loop-Answers get_arg ((name, secret) ∷ users) =
    elim (Bool-cases (text_eq name (get_arg (codes "login")))) [
      | inl e ↦ inl (inl (inl (text_eq→eq _ _ e)), rw e refl)
      | inr e ↦ elim (Bool-cases (text_eq secret (get_arg (codes "password")))) [
        | inl k ↦ inl (inl (inr (text_eq→eq _ _ k)), rw (e, k) refl)
        | inr k ↦ elim (auth_loop-Answers get_arg users) [
          | inl (has, r) ↦ inl (inr has, rw (e, k) r)
          | inr (lacks, r) ↦ inr (neither e k lacks, rw (e, k) r)
        ]
      ]
    ]
  where
    neither :
        text_eq name (get_arg (codes "login")) ≡ false
        → text_eq secret (get_arg (codes "password")) ≡ false
        → ¬ HasEither (get_arg (codes "login")) (get_arg (codes "password")) users
        → ¬ HasEither
            (get_arg (codes "login"))
            (get_arg (codes "password"))
            ((name, secret) ∷ users)
    neither e k lacks (inl (inl h)) = text_eq-false _ _ e h
    neither e k lacks (inl (inr h)) = text_eq-false _ _ k h
    neither e k lacks (inr h) = lacks h

-- The answer is `Ok` if some user has the login or some user, perhaps another, has the password that
-- the request gives, and `Not found` if none has.
pub auth_render-Answers :
    (file : Option (List Bytes)) (get_arg : Bytes → Bytes)
    → Answers
        (get_arg (codes "login"))
        (get_arg (codes "password"))
        (load_users file)
        (auth_render file get_arg)
unfolding auth_render
auth_render-Answers file get_arg = auth_loop-Answers get_arg (load_users file)

-- To a client that asks by an address, a login and a password that need no escape, the server answers
-- by the login alone: `Ok` if some user has it or some user has the empty password.
pub password_ignored :
    (args : Bytes → Bytes → Bytes) (file : Option (List Bytes)) (address login password : Bytes)
    → IsQuery args
    → IsArgument address
    → IsArgument login
    → IsArgument password
    → Answers login [] (load_users file) (auth_render file (args (auth_url address login password)))
unfolding text_eq
password_ignored args file address login password law a l p =
    let r : Response = auth_render file (args (auth_url address login password)) in
    let e : args (auth_url address login password) (codes "login") ≡ login =
      law address (codes "login") login (codes "pass") password (codes "login") a (omega arith) l
        (omega arith) p in
    let e' : args (auth_url address login password) (codes "password") ≡ [] =
      law address (codes "login") login (codes "pass") password (codes "password") a (omega arith) l
        (omega arith) p in
    subst (λ x. Answers x [] (load_users file) r) e
      (subst
        (λ y.
          Answers (args (auth_url address login password) (codes "login")) y (load_users file) r)
        e' (auth_render-Answers file (args (auth_url address login password))))
