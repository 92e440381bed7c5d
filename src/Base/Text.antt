-- ===== src/Base/Text.antt =====
-- Text as the list of its code points, and equality of such lists.
use Prim.Native.Char.{code}
use Prim.Native.String.{String}
use Prim.Native.Nat.{ℕ, ◌+◌, ◌-◌, ◌*◌, ◌%◌}
use mathlib.Core.Path.{◌≡◌, refl}
use mathlib.Core.Logic.{◌↔◌}
use mathlib.Core.Bool.{Bool, true, false, ◌&&◌}
use mathlib.Core.List.{List, [], ◌∷◌, ◌++◌}
use native.Mathlib.Omega.{arith}
use mathlib.Core.Logic.{◌≢◌}
use mathlib.Core.Option.{Option, none, some}
use gb_cpp_network_programmi.Base.Tests.{leb, ◌==◌, if◌then◌else◌}
use gb_cpp_network_programmi.Base.Fallible.{◌>>=◌}

-- `String` has its own `[]` and `∷`.
abbrev pub codes : String → List ℕ
codes String.[] = []
codes (String.◌∷◌ c s) = code c ∷ codes s

abbrev pub Bytes : Type 0
Bytes = List ℕ

-- `operator==` of two texts.
unfoldable pub text_eq : Bytes → Bytes → Bool
text_eq [] [] = true
text_eq [] (y ∷ ys) = false
text_eq (x ∷ xs) [] = false
text_eq (x ∷ xs) (y ∷ ys) = x == y && text_eq xs ys

pub text_eq_refl : (s : Bytes) → text_eq s s ≡ true
unfolding text_eq
text_eq_refl [] = refl
text_eq_refl (x ∷ xs) = ground (arith, text_eq_refl xs)

pub text_eq→eq : (s t : Bytes) → text_eq s t ≡ true → s ≡ t
unfolding text_eq
text_eq→eq [] [] h = refl
text_eq→eq [] (y ∷ ys) h = ground arith
text_eq→eq (x ∷ xs) [] h = ground arith
text_eq→eq (x ∷ xs) (y ∷ ys) h = ground (arith, text_eq→eq xs ys)

pub text_eq_iff : (s t : Bytes) → (text_eq s t ≡ true) ↔ (s ≡ t)
text_eq_iff s t = (text_eq→eq s t, λ e. rw e (text_eq_refl t))

-- `find(prefix) == 0`
unfoldable pub starts_with : Bytes → Bytes → Bool
starts_with [] text = true
starts_with (p ∷ prefix) [] = false
starts_with (p ∷ prefix) (c ∷ text) = p == c && starts_with prefix text

-- `find(part) != npos`
unfoldable pub contains : Bytes → Bytes → Bool
contains part [] = starts_with part []
contains part (c ∷ text) =
    let later = contains part text in if starts_with part (c ∷ text) then true else later

abbrev pub IsNonzero : Bytes → Type 0
IsNonzero [] = Unit
IsNonzero (c ∷ s) = (c ≢ 0) × IsNonzero s

-- The C string that starts in an array: `none` if no zero ends it there.
unfoldable pub c_string : Bytes → Option Bytes
c_string [] = none
c_string (c ∷ array) =
    let rest = c_string array in if c == 0 then some [] else (rest >>= λ s. some (c ∷ s))

pub c_string-append : (s rest : Bytes) → IsNonzero s → c_string (s ++ (0 ∷ rest)) ≡ some s
unfolding c_string
c_string-append [] rest h = refl
c_string-append (c ∷ s) rest h =
    let e : (c == 0) ≡ false = ground arith in rw (e, c_string-append s rest h.1) refl

-- The digits in front of a text, read behind those that gave `n`.
unfoldable pub digits : ℕ → Bytes → ℕ
digits n [] = n
digits n (c ∷ s) =
    let more = digits (n * 10 + (c - 48)) s in if leb 48 c && leb c 57 then more else n

abbrev pub starts_with_digit : Bytes → Bool
starts_with_digit [] = false
starts_with_digit (c ∷ s) = leb 48 c && leb c 57

-- The number in front of a text, up to a bound.
abbrev pub in_range : ℕ → Bytes → Option ℕ
in_range bound s = if starts_with_digit s && leb (digits 0 s) bound then some (digits 0 s) else none

-- `std::stoi` of a word: the sign and the digits in front, as the bit pattern of an `int`; `none` where
-- it throws.
unfoldable pub stoi : Bytes → Option ℕ
stoi [] = none
stoi (c ∷ s) =
    if c == 45
    then (do n ← in_range 2147483648 s; some ((4294967296 - n) % 4294967296))
    else if c == 43
    then in_range 2147483647 s
    else in_range 2147483647 (c ∷ s)
