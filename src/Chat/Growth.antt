-- ===== src/Chat/Growth.antt =====
-- lesson8/f2f_chat/chatnetwork.cpp: the clients become fewer only with a signal.
use gb_cpp_network_programmi.Base.{
  get_elem?_cases, ℕ, zero, suc, ◌+◌, ◌≤◌, ◌⊎◌, inl, inr, Bool, true, false, List, [], ◌∷◌, ◌++◌,
  Bytes, length, length-append, get_elem?, codes, text_eq, ◌==◌, ltb, Option, none, some,
  if◌then◌else◌, if_both, arith,
}
use gb_cpp_network_programmi.Qt.{Qt}
use gb_cpp_network_programmi.Chat.{
  label, ChatUser, ChatNetwork, Effect, datagram, new_user, new_message, user_disconnect,
  close_connections, Run, ok, undefined, no_fuel, push_client, Scan, ran, returned, dangling,
  scan_fuel, scan_users, add_user, after_scan, leave_loop, slot_disconnected, control, show_message,
  handle_packet, slot_read_messages,
}
use gb_cpp_network_programmi.Chat.Leaving.{IsSynced, leave_step, without, without-IsSynced}

-- `userDisconnect` is among the signals.
abbrev pub HasLeave : List Effect → Type 0
HasLeave [] = ⊥
HasLeave (datagram address bytes ∷ effects) = HasLeave effects
HasLeave (new_user ∷ effects) = HasLeave effects
HasLeave (new_message ∷ effects) = HasLeave effects
HasLeave (user_disconnect gone ∷ effects) = Unit
HasLeave (close_connections ∷ effects) = HasLeave effects

HasLeave-append :
    (effects : List Effect) (gone : Bytes) → HasLeave (effects ++ (user_disconnect gone ∷ []))
HasLeave-append [] gone = tt
HasLeave-append (datagram address bytes ∷ effects) gone = HasLeave-append effects gone
HasLeave-append (new_user ∷ effects) gone = HasLeave-append effects gone
HasLeave-append (new_message ∷ effects) gone = HasLeave-append effects gone
HasLeave-append (user_disconnect before ∷ effects) gone = tt
HasLeave-append (close_connections ∷ effects) gone = HasLeave-append effects gone

-- Of `n` clients none has gone, or that is told.
abbrev pub Tells : ℕ → Run → Type 0
Tells n (ok c effects) = (n ≤ length c.vec_user) ⊎ HasLeave effects
Tells n undefined = Unit
Tells n no_fuel = Unit

abbrev Grows : ℕ → Scan → Type 0
Grows n (ran c) = n ≤ length c.vec_user
Grows n (returned c) = n ≤ length c.vec_user
Grows n dangling = Unit
Grows n scan_fuel = Unit

module _ (q : Qt) (client : ChatUser) (n : ℕ) where
  push_client-le :
      (c : ChatNetwork) → n ≤ length c.vec_user → n ≤ length (push_client q client c).vec_user
  unfolding push_client
  push_client-le c h = omega (arith, h, length-append c.vec_user (client ∷ []))

  scan_users-Grows :
      (fuel i : ℕ) (c : ChatNetwork)
      → n ≤ length c.vec_user
      → Grows n (scan_users q client fuel i c)
  unfolding scan_users
  scan_users-Grows zero i c h = tt
  scan_users-Grows (suc fuel) i c h =
      at (get_elem? c.vec_user i)
        (scan_users-Grows fuel (i + 1) (push_client q client c) (push_client-le c h))
    where
      at :
          (o : Option ChatUser)
          → Grows n (scan_users q client fuel (i + 1) (push_client q client c))
          → Grows n (elim o [
            | none ↦ ran c
            | some u ↦
                if text_eq u.program_id client.program_id
                then returned c
                else if ltb (length c.vec_user) c.capacity
                then scan_users q client fuel (i + 1) (push_client q client c)
                else dangling
          ])
      at none g = h
      at (some u) g =
          if_both (Grows n) (text_eq u.program_id client.program_id) _ _ (λ _. h)
            (λ _. if_both (Grows n) (ltb (length c.vec_user) c.capacity) _ _ (λ _. g) (λ _. tt))

  after_scan-Tells :
      (back_send : Bool) (r : Scan) → Grows n r → Tells n (after_scan q client back_send r)
  after_scan-Tells back_send (ran c) g = inl g
  after_scan-Tells back_send (returned c) g = inl g
  after_scan-Tells back_send dangling g = tt
  after_scan-Tells back_send scan_fuel g = tt

  add_user-Tells :
      (c : ChatNetwork) (back_send : Bool)
      → n ≤ length c.vec_user
      → Tells n (add_user q c client back_send)
  unfolding add_user
  add_user-Tells c back_send h =
      if_both (Tells n) (text_eq client.program_id c.id_program) _ _ (λ _. inl h)
        (λ _.
          if_both (Tells n) (length c.vec_user == 0) _ _ (λ _. inl (push_client-le c h))
            (λ _.
              after_scan-Tells back_send (scan_users q client (length c.vec_user + 2) 0 c)
                (scan_users-Grows (length c.vec_user + 2) 0 c h)))

module _ (id : Bytes) (n : ℕ) where
  leave_loop-Tells :
      (fuel i : ℕ) (c : ChatNetwork) (effects : List Effect)
      → IsSynced c
      → (n ≤ length c.vec_user) ⊎ HasLeave effects
      → Tells n (leave_loop id fuel c i i effects)
  leave_loop-Tells zero i c effects s h = unfold leave_loop in tt
  leave_loop-Tells (suc fuel) i c effects s h = elim (get_elem?_cases c.vec_user i) [
    | inl (out, none_at) ↦
        unfold leave_loop in
        if_both (Tells n) (i == length c.vec_user) (ok c effects) _ (λ end. h)
          (λ past. rw (none_at, leave_loop) tt)
    | inr (inside, u, at) ↦ rw (leave_step id fuel i c u effects inside at s) (
        if_both (Tells n) (text_eq u.program_id id) _ _
          (λ here.
            leave_loop-Tells fuel (i + 1) (without i u c)
              (effects ++ user_disconnect (label u) ∷ []) (without-IsSynced i u c s)
              (inr (HasLeave-append effects _)))
          (λ other. leave_loop-Tells fuel (i + 1) c effects s h))
  ]

module _ (q : Qt) where
  control-Tells :
      (c : ChatNetwork) (client : ChatUser) (message : Bytes)
      → IsSynced c
      → Tells (length c.vec_user) (control q c client message)
  unfolding control slot_disconnected
  control-Tells c client message s =
      if_both (Tells (length c.vec_user)) (text_eq message (codes "whos here")) _ _
        (λ _. add_user-Tells q client (length c.vec_user) c true (omega arith))
        (λ _.
          if_both (Tells (length c.vec_user)) (text_eq message (codes "hi")) _ _
            (λ _. add_user-Tells q client (length c.vec_user) c false (omega arith))
            (λ _.
              if_both (Tells (length c.vec_user)) (text_eq message (codes "bye")) _ _
                (λ _.
                  leave_loop-Tells client.program_id (length c.vec_user) (length c.vec_user + 2) 0 c
                    [] s (inl (omega arith)))
                (λ _. inl (omega arith))))

  handle_packet-Tells :
      (c : ChatNetwork) (address : ℕ) (text : Bytes)
      → IsSynced c
      → Tells (length c.vec_user) (handle_packet q c address text)
  unfolding handle_packet show_message
  handle_packet-Tells c address text s = ground (
    arith,
    control-Tells c
        (record {
          address = address;
          nikname = q.section text 47 2;
          program_id = q.section text 47 3;
        })
        (q.section text 47 1) s,
  )

  -- Whatever is read: if there are fewer clients than before, `userDisconnect` is signalled.
  pub slot_read_messages-Tells :
      (c : ChatNetwork) (pending : List (ℕ × Bytes))
      → IsSynced c
      → Tells (length c.vec_user) (slot_read_messages q c pending)
  unfolding slot_read_messages
  slot_read_messages-Tells c pending s = handle_packet-Tells c _ _ s
