-- ===== src/Base/Fields.antt =====
-- Predicates on all members of a list, and texts as fields with a separator between two of them.
use Prim.Native.Nat.{ℕ, zero, suc}
use mathlib.Core.Path.{◌≡◌, refl}
use mathlib.Core.Logic.{◌≢◌, inl, inr}
use mathlib.Core.Bool.{true, false}
use mathlib.Core.List.{List, [], ◌∷◌, ◌++◌}
use native.Mathlib.Omega.{arith}
use gb_cpp_network_programmi.Base.Tests.{◌==◌, if◌then◌else◌, Bool-cases}
use gb_cpp_network_programmi.Base.Lists.{erase_at}
use gb_cpp_network_programmi.Base.Text.{Bytes}

abbrev pub All {ℓ κ} : {A : Type ℓ} → (A → Type κ) → List A → Type κ
All P [] = Unit
All P (x ∷ xs) = P x × All P xs

pub All-append {ℓ κ} :
    {A : Type ℓ} (P : A → Type κ) (xs ys : List A) → All P xs → All P ys → All P (xs ++ ys)
All-append P [] ys h k = k
All-append P (x ∷ xs) ys h k = (h.0, All-append P xs ys h.1 k)

pub All-halves {ℓ κ} :
    {A : Type ℓ} (P : A → Type κ) (xs ys : List A) → All P (xs ++ ys) → All P xs × All P ys
All-halves P [] ys h = (tt, h)
All-halves P (x ∷ xs) ys h = let (f, r) = All-halves P xs ys h.1 in ((h.0, f), r)

pub All-erase_at {ℓ κ} :
    {A : Type ℓ} (P : A → Type κ) (i : ℕ) (xs : List A) → All P xs → All P (erase_at i xs)
All-erase_at P i [] h = tt
All-erase_at P zero (x ∷ xs) h = h.1
All-erase_at P (suc i) (x ∷ xs) h = (h.0, All-erase_at P i xs h.1)

-- No character of the text is `c`.
abbrev pub Lacks : ℕ → Bytes → Type 0
Lacks c = All (λ x. x ≢ c)

-- The fields with a separator between two of them.
abbrev pub join : ℕ → List Bytes → Bytes
join sep [] = []
join sep (f ∷ []) = f
join sep (f ∷ g ∷ fs) = f ++ (sep ∷ join sep (g ∷ fs))

-- Put a character in front of the first field.
extend : ℕ → List Bytes → List Bytes
extend c [] = (c ∷ []) ∷ []
extend c (f ∷ fs) = (c ∷ f) ∷ fs

unfoldable pub split : ℕ → Bytes → List Bytes
unfolding extend
split sep [] = [] ∷ []
split sep (c ∷ s) = let fs = split sep s in if c == sep then [] ∷ fs else extend c fs

split_last : (sep : ℕ) (f : Bytes) → Lacks sep f → split sep f ≡ f ∷ []
unfolding split
split_last sep [] h = refl
split_last sep (c ∷ f) h = let e : (c == sep) ≡ false = ground arith in rw (e, split_last sep f h.1)

split_first :
    (sep : ℕ) (f rest : Bytes) → Lacks sep f → split sep (f ++ (sep ∷ rest)) ≡ f ∷ split sep rest
unfolding split
split_first sep [] rest h = let e : (sep == sep) ≡ true = ground arith in rw e
split_first sep (c ∷ f) rest h =
    let e : (c == sep) ≡ false = ground arith in rw (e, split_first sep f rest h.1)

pub split-join :
    (sep : ℕ) (f : Bytes) (fs : List Bytes)
    → All (Lacks sep) (f ∷ fs)
    → split sep (join sep (f ∷ fs)) ≡ f ∷ fs
split-join sep f [] h = split_last sep f h.0
split-join sep f (g ∷ fs) h =
    rw (split_first sep f (join sep (g ∷ fs)) h.0, split-join sep g fs h.1)

pub split-cons : (sep : ℕ) (s : Bytes) → (f : Bytes) × (fs : List Bytes) × (split sep s ≡ f ∷ fs)
unfolding split
split-cons sep [] = ([], [], refl)
split-cons sep (c ∷ s) = elim (Bool-cases (c == sep)) [
  | inl e ↦ ([], split sep s, rw e)
  | inr e ↦ let (f, fs, h) = split-cons sep s in (c ∷ f, fs, rw (e, h))
]

-- A separator splits whatever stands around it.
pub split-append : (sep : ℕ) (s t : Bytes) → split sep (s ++ (sep ∷ t)) ≡ split sep s ++ split sep t
unfolding split
split-append sep [] t = let e : (sep == sep) ≡ true = ground arith in rw e
split-append sep (c ∷ s) t = elim (Bool-cases (c == sep)) [
  | inl e ↦ rw (e, split-append sep s t)
  | inr e ↦ let (f, fs, h) = split-cons sep s in rw (e, split-append sep s t, h)
]
