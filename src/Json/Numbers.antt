-- ===== src/Json/Numbers.antt =====
-- Decimal text of a number: str(n), f"{n:,}", and int(text).
use Prim.Native.Char.{code}
use Prim.Native.String.{[], ◌∷◌}
use parser_os_worker.Base.{
  Bool, Option, String, false, if◌then◌else◌, leb, ltb, none, some, strip, suc, true, zero, ℕ, ◌%◌,
  ◌&&◌, ◌*◌, ◌+◌, ◌-◌, ◌/◌, ◌<>◌, ◌==◌,
}

digit : ℕ → String
digit n =
    if n == 0
    then "0"
    else if n == 1
    then "1"
    else if n == 2
    then "2"
    else if n == 3
    then "3"
    else if n == 4
    then "4"
    else if n == 5
    then "5"
    else if n == 6
    then "6"
    else if n == 7
    then "7"
    else if n == 8
    then "8"
    else "9"

show_from : ℕ → ℕ → String
unfolding digit
show_from zero n = ""
show_from (suc f) n =
    let rest = show_from f (n / 10) in if ltb n 10 then digit n else rest <> digit (n % 10)

-- str(n); the number itself is fuel enough, since every round divides it by ten.
unfoldable pub show_nat : ℕ → String
unfolding show_from
show_nat n = show_from (suc n) n

pad3 : ℕ → String
unfolding digit
pad3 n = digit (n / 100) <> digit (n / 10 % 10) <> digit (n % 10)

group_from : ℕ → ℕ → String
unfolding show_nat pad3
group_from zero n = ""
group_from (suc f) n =
    let rest = group_from f (n / 1000) in
    if ltb n 1000 then show_nat n else rest <> "," <> pad3 (n % 1000)

-- f"{n:,}"
unfoldable pub grouped : ℕ → String
unfolding group_from
grouped n = group_from (suc n) n

-- The digits of int(text), with single underscores between digits. The flag says that the last
-- character was a digit.
parse_digits : Bool → ℕ → String → Option ℕ
parse_digits after n [] = if after then some n else none
parse_digits after n (c ∷ s) =
    let digit_next = parse_digits true (n * 10 + (code c - 48)) s in
    let gap_next = parse_digits false n s in
    if leb 48 (code c) && leb (code c) 57
    then digit_next
    else if after && code c == 95
    then gap_next
    else none

-- A sign and a magnitude.
parse_signed : String → Option (Bool × ℕ)
unfolding parse_digits
parse_signed [] = none
parse_signed (c ∷ s) =
    if code c == 45
    then (elim (parse_digits false 0 s) [ none ↦ none | some n ↦ some (true, n) ])
    else if code c == 43
    then (elim (parse_digits false 0 s) [ none ↦ none | some n ↦ some (false, n) ])
    else (elim (parse_digits false 0 (c ∷ s)) [ none ↦ none | some n ↦ some (false, n) ])

-- int(text)
unfoldable pub parse_int : String → Option (Bool × ℕ)
unfolding parse_signed strip
parse_int s = parse_signed (strip s)
