-- ===== src/Chat/Users.antt =====
-- The contact list of lesson8/f2f_chat/chatnetwork.cpp: what `AddUser` adds, and what it never does.
use gb_cpp_network_programmi.Base.{
  ℕ, zero, suc, ◌+◌, ◌≤◌, ◌<◌, ◌≡◌, refl, sym, ap, ◌∙◌, subst, Bool, true, false, List, [], ◌∷◌,
  ◌++◌, Bytes, length, append_assoc, append-nil, length-append, length-replicate, replicate,
  get_elem?, text_eq, text_eq_refl, ◌==◌, ltb, some, if◌then◌else◌, arith, Bool-cases, inl, inr,
}
use gb_cpp_network_programmi.Qt.{Qt}
use gb_cpp_network_programmi.Chat.{
  ChatUser, ChatNetwork, ok, undefined, label, push_client, returned, dangling, scan_users,
  add_user,
}

-- The entries in front of the first one with this id; all of them if there is none.
abbrev pub strangers : Bytes → List ChatUser → ℕ
strangers id [] = 0
strangers id (u ∷ us) = if text_eq u.program_id id then 0 else suc (strangers id us)

-- The state with `n` more entries for the client.
abbrev pub pushed : ChatUser → ℕ → ChatNetwork → ChatNetwork
pushed client n c = record c {
  vec_user = c.vec_user ++ replicate n client;
  list_users = c.list_users ++ replicate n (label client);
}

pushed_zero : (client : ChatUser) (c : ChatNetwork) → pushed client 0 c ≡ c
pushed_zero client c = rw (append-nil c.vec_user, append-nil c.list_users)

get_elem?_middle {ℓ} :
    {A : Type ℓ} (xs : List A) (y : A) (ys : List A)
    → get_elem? (xs ++ (y ∷ ys)) (length xs) ≡ some y
get_elem?_middle [] y ys = refl
get_elem?_middle (x ∷ xs) y ys = get_elem?_middle xs y ys

replicate_snoc {ℓ} : {A : Type ℓ} (n : ℕ) (a : A) → replicate n a ++ a ∷ [] ≡ replicate (n + 1) a
replicate_snoc zero a = refl
replicate_snoc (suc n) a =
    let e : suc n + 1 ≡ suc (n + 1) = omega arith in rw e (ap (◌∷◌ a) (replicate_snoc n a))

push_client-pushed :
    (q : Qt) (client : ChatUser) (n : ℕ) (c : ChatNetwork)
    → length c.vec_user + n < c.capacity
    → push_client q client (pushed client n c) ≡ pushed client (n + 1) c
unfolding push_client
push_client-pushed q client n c h =
    let t : ltb (length (c.vec_user ++ replicate n client)) c.capacity ≡ true =
      ground (arith, length-append c.vec_user (replicate n client), length-replicate n client) in
    rw (
      t,
      append_assoc c.vec_user (replicate n client) (client ∷ []),
      replicate_snoc n client,
      append_assoc c.list_users (replicate n (label client)) (label client ∷ []),
      replicate_snoc n (label client),
    )

get_elem?_copies {ℓ} :
    {A : Type ℓ} (xs : List A) (n : ℕ) (a : A)
    → 0 < n
    → get_elem? (xs ++ replicate n a) (length xs) ≡ some a
get_elem?_copies xs zero a h = absurd (omega arith)
get_elem?_copies xs (suc n) a h = get_elem?_middle xs a (replicate n a)

module _ (q : Qt) (client : ChatUser) where
  scan_users_step :
      (fuel i : ℕ) (c : ChatNetwork) (at : ChatUser)
      → get_elem? c.vec_user i ≡ some at
      → scan_users q client (suc fuel) i c ≡ (
          if text_eq at.program_id client.program_id
          then returned c
          else if ltb (length c.vec_user) c.capacity
          then scan_users q client fuel (i + 1) (push_client q client c)
          else dangling)
  unfolding scan_users
  scan_users_step fuel i c at e = rw (e, scan_users)

  scan_pushed :
      (fuel : ℕ) (c : ChatNetwork) (seen rest : List ChatUser)
      → c.vec_user ≡ seen ++ rest
      → 0 < length c.vec_user
      → length rest < fuel
      → length c.vec_user + strangers client.program_id rest + length seen ≤ c.capacity
      → scan_users q client fuel (length seen) (pushed client (length seen) c)
        ≡ returned (pushed client (length seen + strangers client.program_id rest) c)
  scan_pushed zero c seen rest e n f h = absurd (omega arith)
  scan_pushed (suc fuel) c seen [] e n f h =
      let here : c.vec_user ≡ seen = e ∙ append-nil seen in
      let at : get_elem? (c.vec_user ++ replicate (length seen) client) (length seen)
          ≡ some client =
        subst (λ v. get_elem? (v ++ replicate (length seen) client) (length seen) ≡ some client)
          (sym here) (get_elem?_copies seen (length seen) client (omega (arith, ap length here))) in
      let z : length seen + 0 ≡ length seen = omega arith in
      rw (
        scan_users_step fuel (length seen) (pushed client (length seen) c) client at,
        text_eq_refl client.program_id,
        z,
      )
  scan_pushed (suc fuel) c seen (u ∷ rest) e n f h =
      rw (scan_users_step fuel (length seen) (pushed client (length seen) c) u at)
        (elim (Bool-cases (text_eq u.program_id client.program_id)) [
          | inl same ↦ let z : length seen + 0 ≡ length seen = omega arith in rw (same, z)
          | inr other ↦ rw other (
              let more : strangers client.program_id (u ∷ rest)
                  ≡ suc (strangers client.program_id rest) =
                rw other in
              let t : ltb (length (c.vec_user ++ replicate (length seen) client)) c.capacity
                  ≡ true =
                ground (
                  arith,
                  length-append c.vec_user (replicate (length seen) client),
                  length-replicate (length seen) client,
                ) in
              let total : length seen + suc (strangers client.program_id rest)
                  ≡ length seen + 1 + strangers client.program_id rest =
                omega arith in
              let grown : length (seen ++ u ∷ []) ≡ length seen + 1 = length-append seen (u ∷ []) in
              rw (t, push_client-pushed q client (length seen) c (omega arith), total)
                (rw grown at (
                  scan_pushed fuel c (seen ++ u ∷ []) rest
                    (e ∙ sym (append_assoc seen (u ∷ []) rest)) n (omega arith) (omega arith))))
        ])
    where
      at : get_elem? (c.vec_user ++ replicate (length seen) client) (length seen) ≡ some u
      at =
          subst (λ v. get_elem? (v ++ replicate (length seen) client) (length seen) ≡ some u)
            (sym e)
            (subst (λ v. get_elem? v (length seen) ≡ some u)
              (sym (append_assoc seen (u ∷ rest) (replicate (length seen) client)))
              (get_elem?_middle seen u (rest ++ replicate (length seen) client)))

  -- For a client that is not this program, while other clients are known and the vector has room:
  -- `AddUser` appends one entry for each known client in front of the first with the same id (for
  -- each known client, if the id is new), to both lists; it emits no signal and answers nothing.
  pub add_user_repeats :
      (c : ChatNetwork) (back_send : Bool)
      → text_eq client.program_id c.id_program ≡ false
      → 0 < length c.vec_user
      → length c.vec_user + strangers client.program_id c.vec_user ≤ c.capacity
      → add_user q c client back_send
        ≡ ok (pushed client (strangers client.program_id c.vec_user) c) []
  unfolding add_user
  add_user_repeats c back_send other n h =
      let t : (length c.vec_user == 0) ≡ false = ground arith in
      let z : 0 + strangers client.program_id c.vec_user ≡ strangers client.program_id c.vec_user =
        omega arith in
      let scan : scan_users q client (length c.vec_user + 2) 0 c
          ≡ returned (pushed client (strangers client.program_id c.vec_user) c) =
        subst
          (λ d.
            scan_users q client (length c.vec_user + 2) 0 d
            ≡ returned (pushed client (strangers client.program_id c.vec_user) c))
          (pushed_zero client c)
          (rw z at (
            scan_pushed (length c.vec_user + 2) c [] c.vec_user refl n (omega arith)
              (omega arith))) in
      rw (other, t, scan)

  -- Where the first known client has another id and the vector is full, `AddUser` goes on with an
  -- iterator into the memory that `push_back` has left.
  add_user_dangles :
      (c : ChatNetwork) (back_send : Bool) (u : ChatUser) (us : List ChatUser)
      → text_eq client.program_id c.id_program ≡ false
      → c.vec_user ≡ u ∷ us
      → text_eq u.program_id client.program_id ≡ false
      → c.capacity ≤ length c.vec_user
      → add_user q c client back_send ≡ undefined
  unfolding add_user
  add_user_dangles c back_send u us other e new full =
      let t : (length c.vec_user == 0) ≡ false = ground (arith, ap length e) in
      let at : get_elem? c.vec_user 0 ≡ some u = rw e in
      let f : length c.vec_user + 2 ≡ suc (length c.vec_user + 1) = omega arith in
      let stop : ltb (length c.vec_user) c.capacity ≡ false = ground arith in
      rw (other, t, f, scan_users_step (length c.vec_user + 1) 0 c u at, new, stop)
