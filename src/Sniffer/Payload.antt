-- ===== src/Sniffer/Payload.antt =====
-- The printing of a payload in lesson2/pcap_sniffer/packet_printer.cpp: every byte on one line, and
-- what the ASCII column shows of a line.
use native.Mathlib.Nat.{mod-eq_of_lt}
use gb_cpp_network_programmi.Base.{
  ℕ, zero, suc, ◌+◌, ◌-◌, ◌%◌, ◌≤◌, ◌<◌, ◌≡◌, refl, sym, ap, ◌∙◌, false, List, [], ◌∷◌, ◌++◌, Bytes,
  length, take, drop, length-take, length-drop, take-join, if_both, replicate, ◌==◌, leb, Option,
  none, some, arith, Bool-cases, inl, inr, if◌then◌else◌,
}
use gb_cpp_network_programmi.Base.Fallible.{◌>>=◌}
use gb_cpp_network_programmi.Sniffer.{
  is_print, ascii_column, line_width, payload_loop, payload_lines,
}

-- The bytes cut into lines of `line_width` with their offsets, only the last one possibly shorter,
-- and none empty.
pub data Tiles : ℕ → Bytes → List (ℕ × Bytes) → Type 0 where
  last :
      {offset : ℕ} {line : Bytes}
      → 0 < length line
      → length line ≤ line_width
      → Tiles offset line ((offset, line) ∷ [])
  more :
      {offset : ℕ} {line rest bytes : Bytes} {lines : List (ℕ × Bytes)}
      → length line ≡ line_width
      → bytes ≡ line ++ rest
      → Tiles (offset + line_width) rest lines
      → Tiles offset bytes ((offset, line) ∷ lines)

-- A printed payload: the lines within the fuel, and how they tile the bytes.
abbrev pub IsPrinted : ℕ → Bytes → Option (List (ℕ × Bytes)) → Type 0
IsPrinted offset bytes none = ⊥
IsPrinted offset bytes (some lines) = Tiles offset bytes lines

-- The remainder that the code takes for the line's length is the width, since more than that is left.
full_line : (len_rem : ℕ) → line_width < len_rem → line_width % len_rem ≡ line_width
full_line len_rem h = mod-eq_of_lt h

length_line :
    (ch : Bytes) (len_rem : ℕ)
    → line_width < len_rem
    → len_rem ≤ length ch
    → length (take line_width ch) ≡ line_width
length_line ch len_rem h l = omega (arith, length-take line_width ch)

cut :
    (ch : Bytes) (len_rem : ℕ)
    → line_width < len_rem
    → take len_rem ch ≡ take line_width ch ++ take (len_rem - line_width) (drop line_width ch)
cut ch len_rem h =
    let e : line_width + (len_rem - line_width) ≡ len_rem = omega arith in
    sym (take-join line_width (len_rem - line_width) ch ∙ ap (λ n. take n ch) e)

prepend :
    (offset : ℕ) (line rest bytes : Bytes) (o : Option (List (ℕ × Bytes)))
    → length line ≡ line_width
    → bytes ≡ line ++ rest
    → IsPrinted (offset + line_width) rest o
    → IsPrinted offset bytes (o >>= λ lines. some ((offset, line) ∷ lines))
prepend offset line rest bytes none h e p = p
prepend offset line rest bytes (some lines) h e p = more h e p

payload_loop-IsPrinted :
    (fuel : ℕ) (ch : Bytes) (len_rem offset : ℕ)
    → len_rem ≤ fuel
    → line_width < len_rem
    → len_rem ≤ length ch
    → IsPrinted offset (take len_rem ch) (payload_loop fuel ch len_rem offset)
unfolding payload_loop
payload_loop-IsPrinted zero ch len_rem offset f h l = absurd (omega arith)
payload_loop-IsPrinted (suc fuel) ch len_rem offset f h l = rw (full_line len_rem h) (
    if_both (IsPrinted offset (take len_rem ch)) (leb (len_rem - line_width) line_width) _ _
      (λ short.
        more (length_line ch len_rem h l) (cut ch len_rem h)
          (last (ground (arith, rest)) (ground (arith, rest))))
      (λ long.
        prepend offset _ _ _
          (payload_loop fuel (drop line_width ch) (len_rem - line_width) (offset + line_width))
          (length_line ch len_rem h l) (cut ch len_rem h)
          (payload_loop-IsPrinted fuel (drop line_width ch) (len_rem - line_width)
            (offset + line_width) (omega arith) (ground arith)
            (omega (arith, length-drop line_width ch)))))
  where
    rest : length (take (len_rem - line_width) (drop line_width ch)) ≡ len_rem - line_width
    rest =
        omega (
          arith,
          length-take (len_rem - line_width) (drop line_width ch),
          length-drop line_width ch,
        )

-- A positive payload that was captured is printed whole: the loop ends, and the lines that it
-- prints, with offsets 0, 16, 32 and so on, hold its bytes in order and once; all but the last have
-- 16 bytes.
pub payload_lines-IsPrinted :
    (payload : Bytes) (len : ℕ)
    → 0 < len
    → len ≤ length payload
    → IsPrinted 0 (take len payload) (payload_lines payload len)
unfolding payload_lines
payload_lines-IsPrinted payload len h l =
    if_both (IsPrinted 0 (take len payload)) (len == 0) _ _ (λ empty. absurd (ground arith))
      λ some_bytes.
        if_both (IsPrinted 0 (take len payload)) (leb len line_width) _ _
          (λ short.
            last (omega (arith, length-take len payload)) (ground (arith, length-take len payload)))
          (λ long. payload_loop-IsPrinted len payload len 0 (omega arith) (ground arith) l)

-- The printable characters in front of the first that is not.
abbrev pub printable : Bytes → Bytes
printable [] = []
printable (c ∷ cs) = if is_print c then c ∷ printable cs else []

ascii_column_stuck :
    (n c : ℕ) (cs : Bytes) → is_print c ≡ false → ascii_column n (c ∷ cs) ≡ replicate n 46
unfolding ascii_column
ascii_column_stuck zero c cs h = refl
ascii_column_stuck (suc n) c cs h = rw h (ap (◌∷◌ 46) (ascii_column_stuck n c cs h))

-- The ASCII column of a line shows its characters up to the first that cannot be printed, and from
-- there on a dot for every character, printable or not.
ascii_column_stops :
    (line : Bytes)
    → ascii_column (length line) line
      ≡ printable line ++ replicate (length line - length (printable line)) 46
unfolding ascii_column
ascii_column_stops [] = refl
ascii_column_stops (c ∷ cs) = elim (Bool-cases (is_print c)) [
  | inl shown ↦
      let e : suc (length cs) - suc (length (printable cs)) ≡ length cs - length (printable cs) =
        omega arith in
      rw (shown, e) (ap (◌∷◌ c) (ascii_column_stops cs))
  | inr stuck ↦
      let e : suc (length cs) - 0 ≡ suc (length cs) = omega arith in
      rw (stuck, ascii_column_stuck (length cs) c cs stuck, e)
]
