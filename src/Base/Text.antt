-- ===== src/Base/Text.antt =====
-- Text: equality of strings, the trimming, lower-casing, searching and cutting that the program
-- does. Case is that of the ASCII letters, white space that of ASCII.
use Prim.Native.Nat.{ℕ, zero, suc, ◌+◌}
use Prim.Native.Char.{Char, code}
use Prim.Native.String.{String, [], ◌∷◌}
use mathlib.Core.Bool.{Bool, true, false, ◌||◌, ◌&&◌}
use mathlib.Core.List
use mathlib.Core.List.{List}
use text.Mathlib.Text
pub use text.Mathlib.Text.{starts_with}
pub use text.Mathlib.TextEquality.{eq_iff}
pub use text.Mathlib.TextPositions.{eq_refl}
use parser_os_worker.Base.Tests.{leb, ◌==◌, if◌then◌else◌}

-- s == t
abbrev pub str_eq : String → String → Bool
str_eq s t = Text.◌==◌ s t

-- bool(s)
abbrev pub is_empty : String → Bool
is_empty [] = true
is_empty (c ∷ s) = false

is_space : Char → Bool
is_space c = code c == 32 || (leb 9 (code c) && leb (code c) 13)

-- s.lstrip()
unfoldable pub lstrip : String → String
unfolding is_space
lstrip [] = []
lstrip (c ∷ s) = let rest = lstrip s in if is_space c then rest else c ∷ s

rstrip : String → String
unfolding is_space
rstrip [] = []
rstrip (c ∷ s) = let rest = rstrip s in if is_space c && is_empty rest then [] else c ∷ rest

-- s.strip()
unfoldable pub strip : String → String
unfolding lstrip rstrip
strip s = rstrip (lstrip s)

-- s[:n]
unfoldable pub cut : ℕ → String → String
cut zero s = []
cut (suc n) [] = []
cut (suc n) (c ∷ s) = c ∷ cut n s

-- [c for c in s if p(c)]
unfoldable pub keep : (ℕ → Bool) → String → String
keep p [] = []
keep p (c ∷ s) = let rest = keep p s in if p (code c) then c ∷ rest else rest

lower_code : ℕ → ℕ
lower_code n = if leb 65 n && leb n 90 then n + 32 else n

abbrev pub codes : String → List ℕ
codes [] = List.[]
codes (c ∷ s) = List.◌∷◌ (code c) (codes s)

-- s.lower(), as code points
unfoldable pub lower : String → List ℕ
unfolding lower_code
lower s = List.map lower_code (codes s)

-- s.startswith(t), for code points
unfoldable pub codes_start : List ℕ → List ℕ → Bool
codes_start s List.[] = true
codes_start List.[] (List.◌∷◌ b t) = false
codes_start (List.◌∷◌ a s) (List.◌∷◌ b t) = a == b && codes_start s t

-- s.endswith(t), for code points
unfoldable pub codes_end : List ℕ → List ℕ → Bool
unfolding codes_start
codes_end s t = codes_start (List.reverse s) (List.reverse t)

-- s == t, for code points
abbrev pub same_codes : List ℕ → List ℕ → Bool
same_codes List.[] List.[] = true
same_codes (List.◌∷◌ a s) (List.◌∷◌ b t) = a == b && same_codes s t
same_codes s t = false

codes_contain : List ℕ → List ℕ → Bool
unfolding codes_start
codes_contain List.[] t = codes_start List.[] t
codes_contain (List.◌∷◌ a s) t = codes_start (List.◌∷◌ a s) t || codes_contain s t

-- t in s, for code points
unfoldable pub contains_codes : List ℕ → String → Bool
unfolding codes_contain
contains_codes s t = codes_contain s (codes t)

-- t in s
unfoldable pub contains_text : String → String → Bool
unfolding codes_contain
contains_text s t = codes_contain (codes s) (codes t)

-- The number of characters.
abbrev pub size : String → ℕ
size [] = 0
size (c ∷ s) = suc (size s)

-- s.split("/", 1)[0]
unfoldable pub first_part : String → String
first_part [] = []
first_part (c ∷ s) = let rest = first_part s in if code c == 47 then [] else c ∷ rest

-- s[n:]
unfoldable pub after_first : ℕ → String → String
after_first zero s = s
after_first (suc n) [] = []
after_first (suc n) (c ∷ s) = after_first n s
