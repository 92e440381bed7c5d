-- ===== src/FileServer/FilePath/Elements.antt =====
-- The names in a path, for the paths that are written out of names.
use mathlib.Core.List.{reverse, reverse-cons}
use gb_cpp_network_programmi.Base.{
  ℕ, ◌≡◌, ◌≢◌, refl, sym, ap, ◌∙◌, false, List, [], ◌∷◌, ◌++◌, Bytes, starts_with, arith, ◌==◌,
}
use gb_cpp_network_programmi.Base.Fields.{All, Lacks, join, split, split-join, split-append}
use gb_cpp_network_programmi.FileServer.FilePath.{nonempty, elements, text_of, absolute, relative}

-- What can stand between two slashes, the dots included.
abbrev pub IsPart : Bytes → Type 0
IsPart part = (part ≢ []) × Lacks 47 part

nonempty-append : (xs ys : List Bytes) → nonempty (xs ++ ys) ≡ nonempty xs ++ nonempty ys
unfolding nonempty
nonempty-append [] ys = refl
nonempty-append ([] ∷ xs) ys = nonempty-append xs ys
nonempty-append ((c ∷ x) ∷ xs) ys = ap (λ r. (c ∷ x) ∷ r) (nonempty-append xs ys)

nonempty_parts : (parts : List Bytes) → All IsPart parts → nonempty parts ≡ parts
unfolding nonempty
nonempty_parts [] h = refl
nonempty_parts ([] ∷ parts) h = absurd (h.0.0 refl)
nonempty_parts ((c ∷ part) ∷ parts) h = ap (λ r. (c ∷ part) ∷ r) (nonempty_parts parts h.1)

pub elements-append : (s t : Bytes) → elements (s ++ (47 ∷ t)) ≡ elements s ++ elements t
unfolding elements
elements-append s t = ap nonempty (split-append 47 s t) ∙ nonempty-append (split 47 s) (split 47 t)

All-Lacks : (parts : List Bytes) → All IsPart parts → All (Lacks 47) parts
All-Lacks [] h = tt
All-Lacks (part ∷ parts) h = (h.0.1, All-Lacks parts h.1)

pub elements-join :
    (part : Bytes) (parts : List Bytes)
    → All IsPart (part ∷ parts)
    → elements (join 47 (part ∷ parts)) ≡ part ∷ parts
unfolding elements
elements-join part parts h =
    ap nonempty (split-join 47 part parts (All-Lacks (part ∷ parts) h))
    ∙ nonempty_parts (part ∷ parts) h

elements_part : (part : Bytes) → IsPart part → elements part ≡ part ∷ []
elements_part part h = elements-join part [] (h, tt)

elements-behind :
    (s part : Bytes) (parts : List Bytes)
    → IsPart part
    → elements s ≡ reverse parts
    → elements (s ++ (47 ∷ part)) ≡ reverse (part ∷ parts)
elements-behind s part parts h e =
    rw (elements-append s part, e, elements_part part h) (sym (reverse-cons part parts))

pub elements-text_of :
    (place : List Bytes) → All IsPart place → elements (text_of place) ≡ reverse place
unfolding elements nonempty split
elements-text_of [] h = refl
elements-text_of (part ∷ place) h =
    elements-behind (text_of place) part place h.0 (elements-text_of place h.1)

pub elements-absolute :
    (place : List Bytes) → All IsPart place → elements (absolute place) ≡ reverse place
unfolding elements nonempty split
elements-absolute [] h = refl
elements-absolute (part ∷ place) h = elements-text_of (part ∷ place) h

pub elements-relative :
    (part : Bytes) (parts : List Bytes)
    → All IsPart (part ∷ parts)
    → elements (relative (part ∷ parts)) ≡ reverse (part ∷ parts)
elements-relative part [] h = elements_part part h.0
elements-relative part (p ∷ parts) h =
    elements-behind (relative (p ∷ parts)) part (p ∷ parts) h.0 (elements-relative p parts h.1)

-- A path that begins with a slash, and one that does not.
pub absolute_head : (place : List Bytes) → (s : Bytes) × (absolute place ≡ 47 ∷ s)
absolute_head [] = ([], refl)
absolute_head (name ∷ []) = (name, refl)
absolute_head (name ∷ n ∷ above) =
    let (s, e) = absolute_head (n ∷ above) in (s ++ (47 ∷ name), ap (λ t. t ++ (47 ∷ name)) e)

part_head : (part : Bytes) → IsPart part → (c : ℕ) × (s : Bytes) × (part ≡ c ∷ s) × (c ≢ 47)
part_head [] h = absurd (h.0 refl)
part_head (c ∷ s) h = (c, s, refl, h.1.0)

pub relative_head :
    (part : Bytes) (parts : List Bytes)
    → All IsPart (part ∷ parts)
    → (c : ℕ) × (s : Bytes) × (relative (part ∷ parts) ≡ c ∷ s) × (c ≢ 47)
relative_head part [] h = part_head part h.0
relative_head part (p ∷ parts) h =
    let (c, s, e, ne) = relative_head p parts h.1 in
    (c, s ++ (47 ∷ part), ap (λ t. t ++ (47 ∷ part)) e, ne)

pub join_head :
    (part : Bytes) (parts : List Bytes)
    → All IsPart (part ∷ parts)
    → (c : ℕ) × (s : Bytes) × (join 47 (part ∷ parts) ≡ c ∷ s) × (c ≢ 47)
join_head part [] h = part_head part h.0
join_head part (p ∷ parts) h =
    let (c, s, e, ne) = part_head part h.0 in
    (c, s ++ (47 ∷ join 47 (p ∷ parts)), ap (λ t. t ++ (47 ∷ join 47 (p ∷ parts))) e, ne)

pub starts_with-absolute :
    (place : List Bytes) (c : ℕ) (s : Bytes) → c ≢ 47 → starts_with (absolute place) (c ∷ s) ≡ false
unfolding starts_with
starts_with-absolute place c s ne =
    let (r, e) = absolute_head place in let f : (47 == c) ≡ false = ground arith in rw (e, f)
