-- ===== src/Broadcast/Buffer.antt =====
-- The buffer of lesson3/broadcast_server/main.cpp: it is never left, and always ends.
use gb_cpp_network_programmi.Base.{
  ℕ, zero, suc, ◌+◌, ◌-◌, ◌≤◌, ◌≡◌, refl, sym, ap, ◌∙◌, [], ◌∷◌, ◌++◌, Bytes, length, length-append,
  length-drop, drop, drop-drop, set_behind, arith, subst,
}
use gb_cpp_network_programmi.Posix.{RecvReply, got, lost}
use gb_cpp_network_programmi.Broadcast.{buffer_size, receive, first_line, read_line}

-- The buffer has its 256 bytes, and the last is zero.
abbrev pub HasEnd : Bytes → Type 0
HasEnd buffer = (length buffer ≡ buffer_size) × (drop 255 buffer ≡ 0 ∷ [])

-- `recv` is asked for 255 bytes.
abbrev pub Fits : RecvReply → Type 0
Fits (got bytes) = length bytes ≤ 255
Fits (lost e) = Unit

drop-append_add : (k : ℕ) (xs ys : Bytes) → drop (length xs + k) (xs ++ ys) ≡ drop k ys
drop-append_add k [] ys = let e : 0 + k ≡ k = omega arith in rw e
drop-append_add k (x ∷ xs) ys =
    let e : suc (length xs) + k ≡ suc (length xs + k) = omega arith in
    rw e (drop-append_add k xs ys)

-- Behind a text with its zero, the end of the buffer is the old one, or that zero.
end_behind :
    (text buffer : Bytes) (k : ℕ)
    → length text + k ≡ 255
    → HasEnd buffer
    → drop k (0 ∷ drop (length text + 1) buffer) ≡ 0 ∷ []
end_behind text buffer zero h (l, e) = ap (◌∷◌ 0) (
    nothing (drop (length text + 1) buffer)
      (omega (arith, h, l, length-drop (length text + 1) buffer)))
  where
    nothing : (xs : Bytes) → length xs ≡ 0 → xs ≡ []
    nothing [] n = refl
    nothing (x ∷ xs) n = absurd (omega arith)
end_behind text buffer (suc k) h (l, e) =
    let s : length text + 1 + k ≡ 255 = omega (arith, h) in
    drop-drop (length text + 1) k buffer ∙ ap (λ n. drop n buffer) s ∙ e

write-HasEnd :
    (text buffer : Bytes)
    → length text ≤ 255
    → HasEnd buffer
    → HasEnd (text ++ (0 ∷ drop (length text + 1) buffer))
write-HasEnd text buffer h (l, e) =
    let k : ℕ = 255 - length text in
    let s : length text + k ≡ 255 = omega (arith, h) in
    (
      omega (
        arith,
        h,
        l,
        length-append text (0 ∷ drop (length text + 1) buffer),
        length-drop (length text + 1) buffer,
      ),
      ap (λ n. drop n (text ++ (0 ∷ drop (length text + 1) buffer))) (sym s)
          ∙ drop-append_add k text (0 ∷ drop (length text + 1) buffer)
          ∙ end_behind text buffer k s (l, e),
    )

pub receive-HasEnd :
    (buffer : Bytes) (reply : RecvReply)
    → Fits reply
    → HasEnd buffer
    → HasEnd (receive buffer reply).0
unfolding receive
receive-HasEnd buffer (lost x) f h = h
receive-HasEnd buffer (got []) f h = h
receive-HasEnd buffer (got (b ∷ bs)) f h =
    subst HasEnd (sym (set_behind (b ∷ bs) buffer 0 (omega (arith, f, h.0))))
      (write-HasEnd (b ∷ bs) buffer f h)

pub first_line-le : (n : ℕ) (content : Bytes) → length (first_line n content) ≤ n
unfolding first_line
first_line-le zero content = omega arith
first_line-le (suc n) [] = omega arith
first_line-le (suc n) (c ∷ content) = ground (arith, first_line-le n content)

pub read_line-HasEnd : (buffer content : Bytes) → HasEnd buffer → HasEnd (read_line buffer content)
unfolding read_line
read_line-HasEnd buffer [] h = h
read_line-HasEnd buffer (c ∷ content) h =
    write-HasEnd (first_line 254 (c ∷ content)) buffer
      (omega (arith, first_line-le 254 (c ∷ content))) h
