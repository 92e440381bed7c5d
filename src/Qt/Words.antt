-- ===== src/Qt/Words.antt =====
-- The splitting of a line at its blanks, for the small Qt.
use gb_cpp_network_programmi.Base.{
  ℕ, ◌≡◌, refl, ap, ◌∙◌, Bool, false, ◌||◌, List, [], ◌∷◌, ◌++◌, Bytes, append_assoc, append-nil,
  ◌==◌, if◌then◌else◌, arith,
}
use gb_cpp_network_programmi.Qt.{All, Lacks, IsWord, join}

abbrev is_blank : ℕ → Bool
is_blank c = c == 32 || (c == 13 || c == 10)

abbrev starts_blank : Bytes → Bool
starts_blank [] = false
starts_blank (c ∷ s) = is_blank c

prefix : ℕ → List Bytes → List Bytes
prefix c [] = (c ∷ []) ∷ []
prefix c (f ∷ fs) = (c ∷ f) ∷ fs

-- A run of blanks ends one field.
unfoldable pub split_words : Bytes → List Bytes
unfolding prefix
split_words [] = [] ∷ []
split_words (c ∷ s) =
    let fs = split_words s in
    if is_blank c then (if starts_blank s then fs else [] ∷ fs) else prefix c fs

split_words_prefix :
    (f s g : Bytes) (gs : List Bytes)
    → Lacks 32 f
    → Lacks 13 f
    → Lacks 10 f
    → split_words s ≡ g ∷ gs
    → split_words (f ++ s) ≡ (f ++ g) ∷ gs
unfolding split_words
split_words_prefix [] s g gs a b c e = e
split_words_prefix (x ∷ f) s g gs a b c e =
    let k : is_blank x ≡ false = ground arith in rw (k, split_words_prefix f s g gs a.1 b.1 c.1 e)

-- A field that is a word does not start with a blank.
word-starts : (f s : Bytes) → IsWord f → starts_blank (f ++ s) ≡ false
word-starts [] s (n, a, b, c) = absurd (n refl)
word-starts (x ∷ f) s (n, a, b, c) = ground arith

join-starts :
    (f : Bytes) (fs : List Bytes) (t : Bytes)
    → All IsWord (f ∷ fs)
    → starts_blank (join 32 (f ∷ fs) ++ t) ≡ false
join-starts f [] t h = word-starts f t h.0
join-starts f (g ∷ fs) t h =
    ap starts_blank (append_assoc f (32 ∷ join 32 (g ∷ fs)) t)
    ∙ word-starts f ((32 ∷ join 32 (g ∷ fs)) ++ t) h.0

split_words_blank :
    (s g : Bytes) (gs : List Bytes)
    → starts_blank s ≡ false
    → split_words s ≡ g ∷ gs
    → split_words (32 ∷ s) ≡ [] ∷ g ∷ gs
unfolding split_words
split_words_blank s g gs h e = rw (h, e)

pub split_words-join :
    (f : Bytes) (fs : List Bytes) (t : Bytes) (tail : List Bytes)
    → All IsWord (f ∷ fs)
    → split_words t ≡ [] ∷ tail
    → split_words (join 32 (f ∷ fs) ++ t) ≡ (f ∷ fs) ++ tail
split_words-join f [] t tail ((n, a, b, c), u) e =
    split_words_prefix f t [] tail a b c e ∙ ap (λ x. x ∷ tail) (append-nil f)
split_words-join f (g ∷ fs) t tail ((n, a, b, c), h) e =
    ap split_words (append_assoc f (32 ∷ join 32 (g ∷ fs)) t)
    ∙ split_words_prefix f (32 ∷ (join 32 (g ∷ fs) ++ t)) [] ((g ∷ fs) ++ tail) a b c (
        split_words_blank (join 32 (g ∷ fs) ++ t) g (fs ++ tail) (join-starts g fs t h)
          (split_words-join g fs t tail h e))
    ∙ ap (λ x. x ∷ g ∷ (fs ++ tail)) (append-nil f)
