-- ===== src/FileServer/FilePath/Walks.antt =====
-- Where a path leads, and the normal form of a relative one.
use mathlib.Core.List.{reverse, reverse-cons}
use gb_cpp_network_programmi.Base.{
  suc, zero, ℕ, ◌≡◌, ◌≢◌, refl, sym, ap, ◌∙◌, false, Bool-cases, inl, inr, List, [], ◌∷◌, ◌++◌,
  Bytes, length, replicate, codes, text_eq, text_eq→eq, append_assoc, append-nil,
}
use gb_cpp_network_programmi.Base.Fields.{All}
use gb_cpp_network_programmi.FileServer.FilePath.{move, walk, climb, settle, simplify}
use gb_cpp_network_programmi.FileServer.FilePath.Elements.{IsPart}

-- The name of a file or a directory.
abbrev pub IsName : Bytes → Type 0
IsName name = IsPart name × (name ≢ codes ".") × (name ≢ codes "..")

text_eq_ne : (s t : Bytes) → s ≢ t → text_eq s t ≡ false
text_eq_ne s t h = elim (Bool-cases (text_eq s t)) [
  | inl e ↦ absurd (h (text_eq→eq s t e))
  | inr e ↦ e
]

abbrev pub dots : ℕ → List Bytes
dots n = replicate n (codes "..")

pub move_name : (at : List Bytes) (name : Bytes) → IsName name → move at name ≡ name ∷ at
unfolding move
move_name at name h = rw (text_eq_ne name _ h.1, text_eq_ne name _ h.2)

pub walk-append : (at p r : List Bytes) → walk at (p ++ r) ≡ walk (walk at p) r
unfolding walk
walk-append at [] r = refl
walk-append at (name ∷ p) r = walk-append (move at name) p r

reverse-behind :
    (name : Bytes) (names at : List Bytes)
    → reverse (name ∷ names) ++ at ≡ reverse names ++ (name ∷ at)
reverse-behind name names at =
    ap (λ r. r ++ at) (reverse-cons name names) ∙ append_assoc (reverse names) (name ∷ []) at

-- A path of names goes down.
pub walk_names : (at names : List Bytes) → All IsName names → walk at names ≡ reverse names ++ at
unfolding walk
walk_names at [] h = refl
walk_names at (name ∷ names) h =
    ap (λ a. walk a names) (move_name at name h.0)
    ∙ walk_names (name ∷ at) names h.1
    ∙ sym (reverse-behind name names at)

-- The absolute path of a place leads there.
pub walk-reverse :
    (at place : List Bytes) → All IsName place → walk at (reverse place) ≡ place ++ at
unfolding walk
walk-reverse at [] h = refl
walk-reverse at (name ∷ place) h =
    ap (walk at) (reverse-cons name place)
    ∙ walk-append at (reverse place) (name ∷ [])
    ∙ ap (λ a. move a name) (walk-reverse at place h.1)
    ∙ move_name (place ++ at) name h.0

-- As many double dots as the place is deep lead to the root.
pub walk-dots : (at : List Bytes) → walk at (dots (length at)) ≡ []
unfolding walk move text_eq
walk-dots [] = refl
walk-dots (name ∷ at) = walk-dots at

simplify-append : (names p r : List Bytes) → simplify names (p ++ r) ≡ simplify (simplify names p) r
unfolding simplify
simplify-append names [] r = refl
simplify-append names (name ∷ p) r = simplify-append (settle names name) p r

dots_shift : (n k : ℕ) → dots k ++ dots (suc n) ≡ dots (suc k) ++ dots n
dots_shift n zero = refl
dots_shift n (suc k) = ap (◌∷◌ (codes "..")) (dots_shift n k)

pub reverse-dots : (n : ℕ) → reverse (dots n) ≡ dots n
reverse-dots zero = refl
reverse-dots (suc n) =
    reverse-cons (codes "..") (dots n)
    ∙ ap (λ r. r ++ (codes ".." ∷ [])) (reverse-dots n)
    ∙ dots_shift 0 n
    ∙ append-nil (dots (suc n))

climb-dots : (n : ℕ) → climb (dots n) (codes "..") ≡ dots (suc n)
unfolding climb text_eq
climb-dots zero = refl
climb-dots (suc n) = refl

simplify-dots : (n k : ℕ) → simplify (dots n) (dots k) ≡ dots k ++ dots n
unfolding simplify settle text_eq
simplify-dots n zero = refl
simplify-dots n (suc k) =
    ap (λ a. simplify a (dots k)) (climb-dots n) ∙ simplify-dots (suc n) k ∙ dots_shift n k

settle_name : (at : List Bytes) (name : Bytes) → IsName name → settle at name ≡ name ∷ at
unfolding settle
settle_name at name h = rw (text_eq_ne name _ h.1, text_eq_ne name _ h.2)

settle_back : (name : Bytes) → IsName name → settle (name ∷ []) (codes "..") ≡ []
unfolding settle climb text_eq
settle_back name h = rw (text_eq_ne name _ h.2)

simplify_names :
    (at names : List Bytes) → All IsName names → simplify at names ≡ reverse names ++ at
unfolding simplify
simplify_names at [] h = refl
simplify_names at (name ∷ names) h =
    ap (λ a. simplify a names) (settle_name at name h.0)
    ∙ simplify_names (name ∷ at) names h.1
    ∙ sym (reverse-behind name names at)

-- The normal form of a path that leads up and then down.
pub simplify_up_down :
    (k : ℕ) (names : List Bytes)
    → All IsName names
    → simplify [] (dots k ++ names) ≡ reverse names ++ dots k
simplify_up_down k names h =
    simplify-append [] (dots k) names
    ∙ ap (λ a. simplify a names) (simplify-dots 0 k ∙ append-nil (dots k))
    ∙ simplify_names (dots k) names h

-- A name in front is taken back by two dots.
pub simplify_back :
    (name : Bytes) (path : List Bytes)
    → IsName name
    → simplify [] (name ∷ codes ".." ∷ path) ≡ simplify [] path
unfolding simplify
simplify_back name path h =
    ap (λ a. simplify (settle a (codes "..")) path) (settle_name [] name h)
    ∙ ap (λ a. simplify a path) (settle_back name h)
