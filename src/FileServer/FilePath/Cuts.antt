-- ===== src/FileServer/FilePath/Cuts.antt =====
-- What lesson4/mt_server/main.cpp cuts off a path, by the names in it.
use mathlib.Core.List.{reverse, reverse-cons, reverse-append, reverse-reverse}
use gb_cpp_network_programmi.Base.{
  ℕ, zero, suc, ◌≡◌, ◌≢◌, refl, sym, ap, subst, ◌∙◌, false, List, [], ◌∷◌, ◌++◌, Bytes, starts_with,
  ◌==◌, append-nil, append_assoc, arith,
}
use gb_cpp_network_programmi.Base.Fields.{All, All-append, join}
use gb_cpp_network_programmi.FileServer.{cut_path}
use gb_cpp_network_programmi.FileServer.Paths.{cut_path-append}
use gb_cpp_network_programmi.FileServer.FilePath.{
  Tree, elements, text_of, absolute, relative, walk, from_current, weakly_canonical,
}
use gb_cpp_network_programmi.FileServer.FilePath.Elements.{
  IsPart, elements-append, elements-join, elements-text_of, elements-absolute, elements-relative,
  absolute_head, relative_head, join_head, starts_with-absolute,
}
use gb_cpp_network_programmi.FileServer.FilePath.Walks.{IsName, dots, reverse-dots}

pub All-parts : (names : List Bytes) → All IsName names → All IsPart names
All-parts [] h = tt
All-parts (name ∷ names) h = (h.0.0, All-parts names h.1)

pub dots-IsPart : (n : ℕ) → All IsPart (dots n)
dots-IsPart zero = tt
dots-IsPart (suc n) = (((λ e. cc), omega arith), dots-IsPart n)

pub canonical_slash :
    (t : Tree) (path s : Bytes)
    → path ≡ 47 ∷ s
    → weakly_canonical t path ≡ absolute (walk [] (elements path))
unfolding weakly_canonical
canonical_slash t path s e = rw e

canonical_part :
    (t : Tree) (path s : Bytes) (c : ℕ)
    → path ≡ c ∷ s
    → c ≢ 47
    → weakly_canonical t path ≡ from_current t (elements path)
unfolding weakly_canonical
canonical_part t path s c e ne = let f : (c == 47) ≡ false = ground arith in rw (e, f)

-- What is left of the path of a place behind the path of a place above it.
text_of-append : (xs at : List Bytes) → text_of (xs ++ at) ≡ text_of at ++ text_of xs
text_of-append [] at = sym (append-nil (text_of at))
text_of-append (x ∷ xs) at =
    ap (λ r. r ++ (47 ∷ x)) (text_of-append xs at) ∙ append_assoc (text_of at) (text_of xs) (47 ∷ x)

cut_path_root :
    (path s : Bytes) → path ≡ 47 ∷ s → elements (cut_path (47 ∷ []) path) ≡ elements path
unfolding cut_path starts_with elements
cut_path_root path s e = rw e (sym (elements-append [] s))

cut_path-absolute :
    (at : List Bytes) (x : Bytes) (xs : List Bytes)
    → All IsPart (x ∷ xs)
    → elements (cut_path (absolute at) (absolute ((x ∷ xs) ++ at))) ≡ reverse (x ∷ xs)
cut_path-absolute [] x xs h =
    let (s, e) = absolute_head (x ∷ xs) in
    ap (λ l. elements (cut_path (47 ∷ []) (absolute l))) (append-nil (x ∷ xs))
    ∙ cut_path_root (absolute (x ∷ xs)) s e
    ∙ elements-absolute (x ∷ xs) h
cut_path-absolute (a ∷ at) x xs h =
    ap (λ r. elements (cut_path (text_of (a ∷ at)) r)) (text_of-append (x ∷ xs) (a ∷ at))
    ∙ ap elements (cut_path-append (text_of (a ∷ at)) (text_of (x ∷ xs)))
    ∙ elements-text_of (x ∷ xs) h

last_first {ℓ} :
    {A : Type ℓ} (x : A) (xs : List A) → (y : A) × (ys : List A) × (reverse (x ∷ xs) ≡ y ∷ ys)
last_first x xs = let (y, ys, e) = behind (reverse xs) in (y, ys, reverse-cons x xs ∙ e)
  where
    behind : (l : List _) → (y : _) × (ys : List _) × (l ++ (x ∷ []) ≡ y ∷ ys)
    behind [] = (x, [], refl)
    behind (y ∷ l) = (y, l ++ (x ∷ []), refl)

All-reverse : (parts : List Bytes) → All IsPart parts → All IsPart (reverse parts)
All-reverse [] h = tt
All-reverse (p ∷ parts) h =
    subst (All IsPart) (sym (reverse-cons p parts))
      (All-append IsPart (reverse parts) (p ∷ []) (All-reverse parts h.1) (h.0, tt))

-- The server's directory is cut off the path of a place below it.
pub cut_path_below :
    (at : List Bytes) (name : Bytes) (more : List Bytes)
    → All IsPart (name ∷ more)
    → elements (cut_path (absolute at) (absolute (reverse (name ∷ more) ++ at))) ≡ name ∷ more
cut_path_below at name more h =
    let (y, ys, e) = last_first name more in
    ap (λ l. elements (cut_path (absolute at) (absolute (l ++ at)))) e
    ∙ cut_path-absolute at y ys (subst (All IsPart) e (All-reverse (name ∷ more) h))
    ∙ ap reverse (sym e)
    ∙ reverse-reverse (name ∷ more)

-- Nothing is cut off a relative path.
cut_path-relative :
    (at : List Bytes) (part : Bytes) (parts : List Bytes)
    → All IsPart (part ∷ parts)
    → cut_path (absolute at) (relative (part ∷ parts)) ≡ relative (part ∷ parts)
unfolding cut_path
cut_path-relative at part parts h =
    let (c, s, e, ne) = relative_head part parts h in
    rw (ap (starts_with (absolute at)) e ∙ starts_with-absolute at c s ne)

pub cut_path_up_down :
    (at : List Bytes) (k : ℕ) (name : Bytes) (more : List Bytes)
    → All IsPart (name ∷ more)
    → elements (cut_path (absolute at) (relative (reverse (name ∷ more) ++ dots k)))
      ≡ dots k ++ (name ∷ more)
cut_path_up_down at k name more h =
    let (y, ys, e) = last_first name more in
    let parts : All IsPart ((y ∷ ys) ++ dots k) =
      All-append IsPart (y ∷ ys) (dots k) (subst (All IsPart) e (All-reverse (name ∷ more) h))
        (dots-IsPart k) in
    ap (λ l. elements (cut_path (absolute at) (relative (l ++ dots k)))) e
    ∙ ap elements (cut_path-relative at y (ys ++ dots k) parts)
    ∙ elements-relative y (ys ++ dots k) parts
    ∙ reverse-append (y ∷ ys) (dots k)
    ∙ ap (λ l. reverse (dots k) ++ reverse l) (sym e)
    ∙ ap (λ l. l ++ reverse (reverse (name ∷ more))) (reverse-dots k)
    ∙ ap (λ l. dots k ++ l) (reverse-reverse (name ∷ more))

-- `weakly_canonical` of a relative path.
pub canonical_join :
    (t : Tree) (part : Bytes) (parts : List Bytes)
    → All IsPart (part ∷ parts)
    → weakly_canonical t (join 47 (part ∷ parts)) ≡ from_current t (part ∷ parts)
canonical_join t part parts h =
    let (c, s, e, ne) = join_head part parts h in
    canonical_part t (join 47 (part ∷ parts)) s c e ne
    ∙ ap (from_current t) (elements-join part parts h)
