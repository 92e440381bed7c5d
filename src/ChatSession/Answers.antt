-- ===== src/ChatSession/Answers.antt =====
-- What the peers of lesson8/f2f_chat answer to what they read: a greeting once, and nothing else.
use gb_cpp_network_programmi.Base.{
  starts_with, ℕ, zero, suc, ◌+◌, ◌≤◌, ◌<◌, ◌≡◌, refl, sym, subst, ap, ◌∙◌, Bool, true, false,
  if_both, List, [], ◌∷◌, ◌++◌, Bytes, length, get_elem?, ◌==◌, text_eq, text_eq→eq, codes, Option,
  none, some, if◌then◌else◌, arith,
}
use gb_cpp_network_programmi.Qt.{Qt, IsQt}
use gb_cpp_network_programmi.Chat.{
  ChatUser, ChatNetwork, Effect, datagram, new_user, new_message, user_disconnect,
  close_connections, Run, ok, undefined, no_fuel, packet, send_message, push_client, Scan, ran,
  returned, dangling, scan_fuel, scan_users, announce, after_scan, add_user, drop_client,
  leave_loop, slot_disconnected, control, show_message, handle_packet,
}
use gb_cpp_network_programmi.Chat.Wire.{IsField, handle_control, handle_message}
use gb_cpp_network_programmi.ChatSession.{written}
use gb_cpp_network_programmi.ChatSession.Real.{IsHonest, control_packet, text_packet}

-- A greeting weighs more than its answer.
abbrev pub weight : Bytes → ℕ
weight bytes = if starts_with (codes "1/whos here") bytes then 2 else 1

abbrev pub total : List Bytes → ℕ
total [] = 0
total (bytes ∷ more) = weight bytes + total more

-- What a slot writes weighs less.
abbrev pub IsBelow : ℕ → Run → Type 0
IsBelow n (ok c effects) = total (written effects) < n
IsBelow n undefined = Unit
IsBelow n no_fuel = Unit

weight_pos : (bytes : Bytes) → 0 < weight bytes
weight_pos bytes =
    if_both (λ n. 0 < n) (starts_with (codes "1/whos here") bytes) _ _ (λ _. omega arith)
      (λ _. omega arith)

IsBelow-lt : (m n : ℕ) (r : Run) → m ≤ n → IsBelow m r → IsBelow n r
IsBelow-lt m n (ok c effects) h b = omega (arith, h, b)
IsBelow-lt m n undefined h b = tt
IsBelow-lt m n no_fuel h b = tt

written-append : (xs ys : List Effect) → written (xs ++ ys) ≡ written xs ++ written ys
written-append [] ys = refl
written-append (datagram address bytes ∷ xs) ys = ap (◌∷◌ bytes) (written-append xs ys)
written-append (new_user ∷ xs) ys = written-append xs ys
written-append (new_message ∷ xs) ys = written-append xs ys
written-append (user_disconnect gone ∷ xs) ys = written-append xs ys
written-append (close_connections ∷ xs) ys = written-append xs ys

elim_both {ℓ κ μ} :
    {A : Type ℓ} {B : Type κ} (P : B → Type μ) (o : Option A) (n : B) (k : A → B)
    → P n
    → ((a : A) → P (k a))
    → P (elim o [ none ↦ n | some a ↦ k a ])
elim_both P none n k p q = p
elim_both P (some a) n k p q = q a

-- Nothing is written about a client that leaves.
leave_loop-IsBelow :
    (id : Bytes) (fuel : ℕ) (c : ChatNetwork) (it count : ℕ) (effects : List Effect)
    → written effects ≡ []
    → IsBelow 1 (leave_loop id fuel c it count effects)
unfolding leave_loop
leave_loop-IsBelow id zero c it count effects e = tt
leave_loop-IsBelow id (suc fuel) c it count effects e =
    if_both (IsBelow 1) (it == length c.vec_user) _ _ (λ _. omega (arith, ap total e))
      λ _. elim_both (IsBelow 1) (get_elem? c.vec_user it) _ _ tt λ u.
        if_both (IsBelow 1) (text_eq u.program_id id) _ _
          (λ _. elim_both (IsBelow 1) (drop_client c it count) _ _ tt λ c'.
            leave_loop-IsBelow id fuel c' (it + 1) (count + 1)
              (effects ++ user_disconnect c'.list_del_users ∷ [])
              (written-append effects (user_disconnect _ ∷ []) ∙ ap (λ w. w ++ []) e))
          (λ _. leave_loop-IsBelow id fuel c (it + 1) (count + 1) effects e)

module _ (q : Qt) (L : IsQt q) where
  -- The answer to a greeting is no greeting.
  weight_hi : (name id : Bytes) → weight (packet q (codes "1/") (codes "hi") name id) ≡ 1
  unfolding starts_with
  weight_hi name id = rw (L.to_utf8_ascii (codes "hi") (omega arith)) refl

  weight_greeting :
      (name id : Bytes) → weight (packet q (codes "1/") (codes "whos here") name id) ≡ 2
  unfolding starts_with
  weight_greeting name id = rw (L.to_utf8_ascii (codes "whos here") (omega arith)) refl

  announce-IsBelow :
      (client : ChatUser) (back_send : Bool) (c c' : ChatNetwork)
      → IsBelow (if back_send then 2 else 1) (ok c' (announce q client back_send c))
  unfolding announce send_message
  announce-IsBelow client true c c' = omega (arith, weight_hi c.user_name c.id_program)
  announce-IsBelow client false c c' = omega arith

  scanned-IsBelow :
      (client : ChatUser) (back_send : Bool) (s : Scan)
      → IsBelow (if back_send then 2 else 1) (after_scan q client back_send s)
  scanned-IsBelow client back_send (ran c) = announce-IsBelow client back_send c c
  scanned-IsBelow client true (returned c) = omega arith
  scanned-IsBelow client false (returned c) = omega arith
  scanned-IsBelow client back_send dangling = tt
  scanned-IsBelow client back_send scan_fuel = tt

  nothing-IsBelow :
      (back_send : Bool) (c : ChatNetwork) → IsBelow (if back_send then 2 else 1) (ok c [])
  nothing-IsBelow true c = omega arith
  nothing-IsBelow false c = omega arith

  add_user-IsBelow :
      (c : ChatNetwork) (client : ChatUser) (back_send : Bool)
      → IsBelow (if back_send then 2 else 1) (add_user q c client back_send)
  unfolding add_user
  add_user-IsBelow c client back_send =
      if_both (IsBelow _) (text_eq client.program_id c.id_program) _ _
        (λ _. nothing-IsBelow back_send c)
        λ _.
          if_both (IsBelow _) (length c.vec_user == 0) _ _
            (λ _.
              announce-IsBelow client back_send (push_client q client c) (push_client q client c))
            (λ _.
              scanned-IsBelow client back_send (scan_users q client (length c.vec_user + 2) 0 c))

  control-IsBelow :
      (c : ChatNetwork) (client : ChatUser) (text name id : Bytes)
      → IsBelow (weight (packet q (codes "1/") text name id)) (control q c client text)
  unfolding control slot_disconnected
  control-IsBelow c client text name id =
      let w = weight (packet q (codes "1/") text name id) in
      let one : 1 ≤ w = weight_pos (packet q (codes "1/") text name id) in
      if_both (IsBelow w) (text_eq text (codes "whos here")) _ _
        (λ greets.
          IsBelow-lt 2 w _
            (omega (
              arith,
              ap (λ t. weight (packet q (codes "1/") t name id))
                    (text_eq→eq text (codes "whos here") greets)
                  ∙ weight_greeting name id,
            ))
            (add_user-IsBelow c client true))
        λ _.
          if_both (IsBelow w) (text_eq text (codes "hi")) _ _
            (λ _. IsBelow-lt 1 w _ one (add_user-IsBelow c client false))
            λ _.
              if_both (IsBelow w) (text_eq text (codes "bye")) _ _
                (λ _. IsBelow-lt 1 w _ one (leave_loop-IsBelow client.program_id _ c 0 0 [] refl))
                (λ _. one)

  module _ (Member : Bytes → Bytes → Type 0)
      (fields : (name id : Bytes) → Member name id → IsField name × IsField id) where
    pub handle_packet-IsBelow :
        (c : ChatNetwork) (address : ℕ) (bytes : Bytes)
        → IsHonest q Member bytes
        → IsBelow (weight bytes) (handle_packet q c address (q.from_utf8 bytes))
    unfolding show_message
    handle_packet-IsBelow c address bytes (control_packet text name id t m) =
        let (n, i) = fields name id m in
        subst (IsBelow (weight bytes)) (sym (handle_control q L c address text name id t n i))
          (control-IsBelow c _ text name id)
    handle_packet-IsBelow c address bytes (text_packet text name id t m) =
        let (n, i) = fields name id m in
        subst (IsBelow (weight bytes)) (sym (handle_message q L c address text name id t n i)) (
          if_both (IsBelow (weight bytes)) (text_eq id c.id_program) _ _ (λ _. weight_pos bytes)
            (λ _. weight_pos bytes))
