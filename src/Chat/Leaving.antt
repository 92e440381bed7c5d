-- ===== src/Chat/Leaving.antt =====
-- `slotDisconnected` of lesson8/f2f_chat/chatnetwork.cpp: a client that leaves the chat.
use gb_cpp_network_programmi.Base.{
  erase_at, ℕ, zero, suc, ◌+◌, ◌≤◌, ◌<◌, ◌≡◌, refl, sym, ap, ◌∙◌, true, false, List, [], ◌∷◌, ◌++◌,
  Bytes, length, map, append_assoc, append-nil, length-append, get_elem?, text_eq, ◌==◌, none, some,
  if◌then◌else◌, arith,
}
use gb_cpp_network_programmi.Qt.{All}
use gb_cpp_network_programmi.Chat.{
  ChatUser, ChatNetwork, Effect, user_disconnect, ok, undefined, label, drop_client, leave_loop,
  slot_disconnected,
}

-- The contact list shows the known clients, in order.
abbrev pub IsSynced : ChatNetwork → Type 0
IsSynced c = c.list_users ≡ map label c.vec_user

abbrev pub Others : Bytes → List ChatUser → Type 0
Others id = All (λ u. text_eq u.program_id id ≡ false)

pub get_elem?_at {ℓ} :
    {A : Type ℓ} (xs : List A) (y : A) (ys : List A) (i : ℕ)
    → i ≡ length xs
    → get_elem? (xs ++ (y ∷ ys)) i ≡ some y
get_elem?_at xs y ys i e = rw e (go xs)
  where
    go : (zs : List _) → get_elem? (zs ++ (y ∷ ys)) (length zs) ≡ some y
    go [] = refl
    go (z ∷ zs) = go zs

get_elem?_past {ℓ} : {A : Type ℓ} (xs : List A) (i : ℕ) → length xs ≤ i → get_elem? xs i ≡ none
get_elem?_past [] i h = refl
get_elem?_past (x ∷ xs) zero h = absurd (omega arith)
get_elem?_past (x ∷ xs) (suc i) h = get_elem?_past xs i (omega arith)

pub get_elem?-map :
    (f : ChatUser → Bytes) (xs : List ChatUser) (i : ℕ) (u : ChatUser)
    → get_elem? xs i ≡ some u
    → get_elem? (map f xs) i ≡ some (f u)
get_elem?-map f [] i u e = cc
get_elem?-map f (x ∷ xs) zero u e = ground arith
get_elem?-map f (x ∷ xs) (suc i) u e = get_elem?-map f xs i u e

pub erase_at-map :
    (f : ChatUser → Bytes) (xs : List ChatUser) (i : ℕ)
    → erase_at i (map f xs) ≡ map f (erase_at i xs)
erase_at-map f [] i = refl
erase_at-map f (x ∷ xs) zero = refl
erase_at-map f (x ∷ xs) (suc i) = ap (◌∷◌ (f x)) (erase_at-map f xs i)

erase_at_middle {ℓ} :
    {A : Type ℓ} (xs : List A) (y : A) (ys : List A)
    → erase_at (length xs) (xs ++ (y ∷ ys)) ≡ xs ++ ys
erase_at_middle [] y ys = refl
erase_at_middle (x ∷ xs) y ys = ap (◌∷◌ x) (erase_at_middle xs y ys)

-- The state without the `i`-th client, whose label is kept in `list_del_users`.
abbrev pub without : ℕ → ChatUser → ChatNetwork → ChatNetwork
without i u c = record c {
  vec_user = erase_at i c.vec_user;
  list_users = erase_at i c.list_users;
  list_del_users = label u;
}

pub drop_client_lem :
    (c : ChatNetwork) (i : ℕ) (u : ChatUser)
    → IsSynced c
    → get_elem? c.vec_user i ≡ some u
    → drop_client c i i ≡ some (without i u c)
unfolding drop_client
drop_client_lem c i u s e =
    let l : get_elem? c.list_users i ≡ some (label u) =
      rw s (get_elem?-map label c.vec_user i u e) in
    rw (l, drop_client)

pub without-IsSynced :
    (i : ℕ) (u : ChatUser) (c : ChatNetwork) → IsSynced c → IsSynced (without i u c)
without-IsSynced i u c s = rw s (erase_at-map label c.vec_user i)

module _ (id : Bytes) where
  -- One round of the loop, at a client.
  pub leave_step :
      (fuel i : ℕ) (c : ChatNetwork) (u : ChatUser) (effects : List Effect)
      → i < length c.vec_user
      → get_elem? c.vec_user i ≡ some u
      → IsSynced c
      → leave_loop id (suc fuel) c i i effects ≡ (
          if text_eq u.program_id id
          then leave_loop id fuel
              (without i u c)
              (i + 1)
              (i + 1)
              (effects ++ user_disconnect (label u) ∷ [])
          else leave_loop id fuel c (i + 1) (i + 1) effects)
  unfolding leave_loop
  leave_step fuel i c u effects h e s =
      let t : (i == length c.vec_user) ≡ false = ground arith in
      rw (t, e, leave_loop, drop_client_lem c i u s e)

  leave_walk :
      (fuel i : ℕ) (c : ChatNetwork) (seen rest tail : List ChatUser) (effects : List Effect)
      → c.vec_user ≡ seen ++ (rest ++ tail)
      → i ≡ length seen
      → Others id rest
      → IsSynced c
      → leave_loop id (length rest + fuel) c i i effects
        ≡ leave_loop id fuel c (i + length rest) (i + length rest) effects
  leave_walk fuel i c seen [] tail effects e at o s =
      let z : 0 + fuel ≡ fuel = omega arith in let y : i + 0 ≡ i = omega arith in rw (z, y)
  leave_walk fuel i c seen (u ∷ rest) tail effects e at o s =
      let z : suc (length rest) + fuel ≡ suc (length rest + fuel) = omega arith in
      let y : i + suc (length rest) ≡ i + 1 + length rest = omega arith in
      let here : get_elem? c.vec_user i ≡ some u = rw e (get_elem?_at seen u (rest ++ tail) i at) in
      let inside : i < length c.vec_user =
        omega (arith, ap length e, length-append seen (u ∷ (rest ++ tail))) in
      rw (z, y, leave_step (length rest + fuel) i c u effects inside here s, o.0)
        (leave_walk fuel (i + 1) c (seen ++ u ∷ []) rest tail effects
          (e ∙ sym (append_assoc seen (u ∷ []) (rest ++ tail)))
          (omega (arith, length-append seen (u ∷ []))) o.1 s)

  leave_overrun :
      (fuel : ℕ) (c : ChatNetwork) (i : ℕ) (effects : List Effect)
      → length c.vec_user < i
      → leave_loop id (suc fuel) c i i effects ≡ undefined
  unfolding leave_loop
  leave_overrun fuel c i effects h =
      let t : (i == length c.vec_user) ≡ false = ground arith in
      rw (t, get_elem?_past c.vec_user i (omega arith))

  leave_end :
      (fuel : ℕ) (c : ChatNetwork) (i : ℕ) (effects : List Effect)
      → i ≡ length c.vec_user
      → leave_loop id (suc fuel) c i i effects ≡ ok c effects
  unfolding leave_loop
  leave_end fuel c i effects h = let t : (i == length c.vec_user) ≡ true = ground arith in rw t

  abbrev Leaves : ChatNetwork → List ChatUser → ChatUser → List ChatUser → Type 0
  Leaves c before u after =
      (c.vec_user ≡ before ++ (u ∷ after)) × Others id before × (text_eq u.program_id id ≡ true)

  -- The loop up to the client that leaves, and past it.
  leave_found :
      (fuel : ℕ) (c : ChatNetwork) (before after : List ChatUser) (u : ChatUser)
      → Leaves c before u after
      → IsSynced c
      → leave_loop id (length before + suc fuel) c 0 0 []
        ≡ leave_loop id fuel
            (without (length before) u c)
            (length before + 1)
            (length before + 1)
            (user_disconnect (label u) ∷ [])
  leave_found fuel c before after u (e, o, here) s =
      let z : 0 + length before ≡ length before = omega arith in
      let inside : length before < length c.vec_user =
        omega (arith, ap length e, length-append before (u ∷ after)) in
      leave_walk (suc fuel) 0 c [] before (u ∷ after) [] e refl o s
      ∙ rw (
        z,
        leave_step fuel (length before) c u [] inside
            (rw e (get_elem?_at before u after (length before) refl)) s,
        here,
      )

  without_vec :
      (c : ChatNetwork) (before after : List ChatUser) (u : ChatUser)
      → c.vec_user ≡ before ++ (u ∷ after)
      → (without (length before) u c).vec_user ≡ before ++ after
  without_vec c before after u e = rw e (erase_at_middle before u after)

  -- A client that leaves and is the last in the list: the erased iterator is moved past the end of
  -- the vector and read.
  slot_disconnected_last :
      (c : ChatNetwork) (before : List ChatUser) (u : ChatUser)
      → c.vec_user ≡ before ++ (u ∷ [])
      → Others id before
      → text_eq u.program_id id ≡ true
      → IsSynced c
      → slot_disconnected c id ≡ undefined
  unfolding slot_disconnected
  slot_disconnected_last c before u e o here s =
      let f : length c.vec_user + 2 ≡ length before + suc 2 =
        omega (arith, ap length e, length-append before (u ∷ [])) in
      rw (f, leave_found 2 c before [] u (e, o, here) s)
        (leave_overrun 1 (without (length before) u c) (length before + 1)
          (user_disconnect (label u) ∷ [])
          (omega (arith, ap length (without_vec c before [] u e), length-append before [])))

  -- A client that leaves from before the last place: it is taken out of both lists, its label is
  -- kept, and the one signal is `userDisconnect`. The client behind it is not looked at.
  slot_disconnected_inner :
      (c : ChatNetwork) (before after : List ChatUser) (u v : ChatUser)
      → c.vec_user ≡ before ++ (u ∷ (v ∷ after))
      → Others id before
      → text_eq u.program_id id ≡ true
      → Others id after
      → IsSynced c
      → slot_disconnected c id ≡ ok (without (length before) u c) (user_disconnect (label u) ∷ [])
  unfolding slot_disconnected
  slot_disconnected_inner c before after u v e o here o' s =
      let f : length c.vec_user + 2 ≡ length before + suc (length after + 3) =
        omega (arith, ap length e, length-append before (u ∷ (v ∷ after))) in
      rw (f, leave_found (length after + 3) c before (v ∷ after) u (e, o, here) s)
        (leave_walk 3 (length before + 1) (without (length before) u c) (before ++ v ∷ []) after []
            (user_disconnect (label u) ∷ []) rest (omega (arith, length-append before (v ∷ []))) o'
            (without-IsSynced (length before) u c s)
          ∙ leave_end 2 (without (length before) u c) _ (user_disconnect (label u) ∷ []) (
              omega (
                arith,
                ap length (without_vec c before (v ∷ after) u e),
                length-append before (v ∷ after),
              )))
    where
      rest : (without (length before) u c).vec_user ≡ (before ++ v ∷ []) ++ (after ++ [])
      rest =
          without_vec c before (v ∷ after) u e
          ∙ sym (rw (append-nil after) (append_assoc before (v ∷ []) after))
