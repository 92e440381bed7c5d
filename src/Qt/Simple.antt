-- ===== src/Qt/Simple.antt =====
-- A small Qt that meets the laws: the operations on texts of one-byte characters.
use gb_cpp_network_programmi.Base.{
  ℕ, ◌+◌, ◌-◌, ◌*◌, ◌≡◌, refl, sym, ap, ◌∙◌, append-nil, false, List, [], ◌∷◌, ◌++◌, Bytes, arith,
  get_or, ◌==◌, ◌||◌, if◌then◌else◌,
}
unfoldable pub use gb_cpp_network_programmi.Base.Fields.{split}
pub use gb_cpp_network_programmi.Base.Fields.{split-join}
use gb_cpp_network_programmi.Qt.Words.{split_words, split_words-join}
use gb_cpp_network_programmi.Qt.{All, Lacks, IsWord, join, Qt, IsQt}

unfoldable pub decimal : ℕ → Bytes → ℕ
decimal acc [] = acc
decimal acc (c ∷ s) = decimal (10 * acc + (c - 48)) s

unfoldable pub until_zero : Bytes → Bytes
until_zero [] = []
until_zero (c ∷ s) = let rest = until_zero s in if c == 0 then [] else c ∷ rest

until_zero-Lacks : (s : Bytes) → Lacks 0 s → until_zero s ≡ s
unfolding until_zero
until_zero-Lacks [] h = refl
until_zero-Lacks (c ∷ s) h =
    let e : (c == 0) ≡ false = ground arith in rw e (ap (◌∷◌ c) (until_zero-Lacks s h.1))

unfoldable pub until_line_end : Bytes → Bytes
until_line_end [] = []
until_line_end (c ∷ s) = let rest = until_line_end s in if c == 13 || c == 10 then [] else c ∷ rest

until_line_end_crlf :
    (line rest : Bytes)
    → Lacks 10 line
    → Lacks 13 line
    → until_line_end (line ++ (13 ∷ 10 ∷ rest)) ≡ line
unfolding until_line_end
until_line_end_crlf [] rest h k = refl
until_line_end_crlf (c ∷ line) rest h k =
    let e : (c == 13 || c == 10) ≡ false = ground arith in
    rw e (ap (◌∷◌ c) (until_line_end_crlf line rest h.1 k.1))

unfoldable pub to_newline : Bytes → Bytes
to_newline [] = []
to_newline (c ∷ s) = let rest = to_newline s in if c == 10 then c ∷ [] else c ∷ rest

to_newline_crlf :
    (line rest : Bytes)
    → Lacks 10 line
    → to_newline (line ++ (13 ∷ 10 ∷ rest)) ≡ line ++ (13 ∷ 10 ∷ [])
unfolding to_newline
to_newline_crlf [] rest h = refl
to_newline_crlf (c ∷ line) rest h =
    let e : (c == 10) ≡ false = ground arith in rw e (ap (◌∷◌ c) (to_newline_crlf line rest h.1))

split_words_whole :
    (f : Bytes) (fs : List Bytes) → All IsWord (f ∷ fs) → split_words (join 32 (f ∷ fs)) ≡ f ∷ fs
unfolding split_words
split_words_whole f fs h =
    ap split_words (sym (append-nil (join 32 (f ∷ fs))))
    ∙ split_words-join f fs [] [] h refl
    ∙ append-nil (f ∷ fs)

split_words_crlf :
    (f : Bytes) (fs : List Bytes)
    → All IsWord (f ∷ fs)
    → split_words (join 32 (f ∷ fs) ++ (13 ∷ 10 ∷ [])) ≡ (f ∷ fs) ++ ([] ∷ [])
unfolding split_words
split_words_crlf f fs h = split_words-join f fs (13 ∷ 10 ∷ []) ([] ∷ []) h refl

abbrev pub simple_qt : Qt
unfolding split decimal until_zero until_line_end to_newline split_words
simple_qt = record {
  section = λ s sep i. get_or (split sep s) i [];
  to_int = decimal 0;
  to_utf8 = λ s. s;
  from_utf8 = until_zero;
  split_blank = split_words;
  socket_line = to_newline;
  first_line = until_line_end;
  trimmed = λ s. s;
  from_percent = λ s. s;
  number = λ n. n ∷ [];
  grow = λ n. n + n + 1;
}

pub simple_qt-IsQt : IsQt simple_qt
unfolding split decimal until_zero until_line_end to_newline split_words
simple_qt-IsQt = record {
  section-join = λ sep f fs i h. ap (λ l. get_or l i []) (split-join sep f fs h);
  to_int_one = refl;
  to_int_two = refl;
  to_int_codes = (refl, refl, refl);
  split_blank-join = split_words_whole;
  split_blank-join_crlf = split_words_crlf;
  socket_line_crlf = to_newline_crlf;
  first_line_crlf = λ line rest ascii. until_line_end_crlf line rest;
  first_line_empty = refl;
  to_int_empty = refl;
  from_percent_plain = λ s a h. refl;
  to_utf8-append = λ s t. refl;
  to_utf8_ascii = λ s h. refl;
  from_utf8-to_utf8 = λ c s ascii h. until_zero-Lacks (c ∷ s) h;
  grow_more = λ n. omega arith;
}
