-- ===== src/Qt.antt =====
-- The part of Qt that the programs of lesson5, lesson6 and lesson8 rely on. Qt is not in the
-- repository: its operations are a parameter, and what is used of its documentation are laws.
-- A QString is the list of its code points (a text has no lone surrogates), a QByteArray the list of its
-- bytes.
pub mod Words
pub mod Simple
pub use gb_cpp_network_programmi.Base.Fields.{
  All, All-append, All-halves, All-erase_at, Lacks, join,
}
use gb_cpp_network_programmi.Base.{
  erase_at, zero, suc, ℕ, ◌+◌, ◌<◌, ◌≡◌, ◌≢◌, List, [], ◌∷◌, ◌++◌, Bytes, length, get_or, codes,
}

-- A text with no blank and no line end in it, and not empty.
abbrev pub IsWord : Bytes → Type 0
IsWord s = (s ≢ []) × Lacks 32 s × Lacks 13 s × Lacks 10 s

pub record Qt : Type 0 where
  -- `s.section(sep, i, i)`
  pub section : Bytes → ℕ → ℕ → Bytes
  -- `s.toInt()`, as the bit pattern of an `int`
  pub to_int : Bytes → ℕ
  pub to_utf8 : Bytes → Bytes
  -- `QString(const char *)`, which stops at a zero byte
  pub from_utf8 : Bytes → Bytes
  -- `s.split(QRegularExpression("[ \\r\\n][ \\r\\n]*"))`
  pub split_blank : Bytes → List Bytes
  -- `readLine()` of a socket, with its line end
  pub socket_line : Bytes → Bytes
  -- the first `readLine()` of a QTextStream over the bytes
  pub first_line : Bytes → Bytes
  pub trimmed : Bytes → Bytes
  -- `QUrl::fromPercentEncoding`
  pub from_percent : Bytes → Bytes
  -- `QString::number`
  pub number : ℕ → Bytes
  -- the capacity that a full QVector of so many elements gets when one is appended
  pub grow : ℕ → ℕ

pub record IsQt (q : Qt) : Type 0 where
  pub section-join :
      (sep : ℕ) (f : Bytes) (fs : List Bytes) (i : ℕ)
      → All (Lacks sep) (f ∷ fs)
      → q.section (join sep (f ∷ fs)) sep i ≡ get_or (f ∷ fs) i []
  pub to_int_one : q.to_int (codes "1") ≡ 1
  pub to_int_two : q.to_int (codes "2") ≡ 2
  pub to_int_codes :
      (q.to_int (codes "200") ≡ 200)
      × (q.to_int (codes "400") ≡ 400)
      × (q.to_int (codes "401") ≡ 401)
  pub split_blank-join :
      (f : Bytes) (fs : List Bytes)
      → All IsWord (f ∷ fs)
      → q.split_blank (join 32 (f ∷ fs)) ≡ f ∷ fs
  pub split_blank-join_crlf :
      (f : Bytes) (fs : List Bytes)
      → All IsWord (f ∷ fs)
      → q.split_blank (join 32 (f ∷ fs) ++ (13 ∷ 10 ∷ [])) ≡ (f ∷ fs) ++ ([] ∷ [])
  pub socket_line_crlf :
      (line rest : Bytes)
      → Lacks 10 line
      → q.socket_line (line ++ (13 ∷ 10 ∷ rest)) ≡ line ++ (13 ∷ 10 ∷ [])
  pub first_line_crlf :
      (line rest : Bytes)
      → All (λ c. c < 128) line
      → Lacks 10 line
      → Lacks 13 line
      → q.first_line (line ++ (13 ∷ 10 ∷ rest)) ≡ line
  pub first_line_empty : q.first_line [] ≡ []
  pub to_int_empty : q.to_int [] ≡ 0
  pub from_percent_plain : (s : Bytes) → All (λ c. c < 128) s → Lacks 37 s → q.from_percent s ≡ s
  pub to_utf8-append : (s t : Bytes) → q.to_utf8 (s ++ t) ≡ q.to_utf8 s ++ q.to_utf8 t
  pub to_utf8_ascii : (s : Bytes) → All (λ c. c < 128) s → q.to_utf8 s ≡ s
  -- of a text whose first character cannot be a byte order mark, which would be dropped
  pub from_utf8-to_utf8 :
      (c : ℕ) (s : Bytes) → c < 128 → Lacks 0 (c ∷ s) → q.from_utf8 (q.to_utf8 (c ∷ s)) ≡ c ∷ s
  pub grow_more : (n : ℕ) → n < q.grow n
