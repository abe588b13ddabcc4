-- ===== src/Prelude/Numbers.antt =====
-- `strconv.ParseInt(s, 10, 64)`, `strconv.Atoi` on a 64-bit machine, and the decimal form of a number.
use Prim.Native.Char.{Char, code}
use Prim.Native.Nat.{ℕ, zero, suc, ◌+◌, ◌-◌, ◌*◌, ◌/◌, ◌%◌, ◌^◌}
use Prim.Native.String.{String, ◌++◌ as concat}
use mathlib.Core.Bool.{true, false, not, ◌&&◌}
use mathlib.Core.Path.{◌≡◌, refl}
use mathlib.Core.List.{List, [], ◌∷◌}
use mathlib.Core.Option.{Option, none, some}
use go_dashboard.Prelude.Int.{ℤ, pos, negsuc}
use go_dashboard.Prelude.Tests.{ltb, leb, eqb, if◌then◌else◌}
use go_dashboard.Prelude.Lists.{get_elem?}
use go_dashboard.Prelude.Text.{chars, of_chars}

scan_digits : ℕ → List Char → Option ℕ
scan_digits acc [] = some acc
scan_digits acc (c ∷ cs) =
    let rest = scan_digits (acc * 10 + (code c - 48)) cs in
    if leb 48 (code c) && leb (code c) 57 then rest else none

digits : List Char → Option ℕ
unfolding scan_digits
digits [] = none
digits (c ∷ cs) = scan_digits 0 (c ∷ cs)

-- Out of the range of an int64 is an error.
abbrev positive : Option ℕ → Option ℤ
positive none = none
positive (some n) = if ltb n (2 ^ 63) then some (pos n) else none

abbrev negative : Option ℕ → Option ℤ
negative none = none
negative (some zero) = some (pos 0)
negative (some (suc n)) = if ltb n (2 ^ 63) then some (negsuc n) else none

signed : List Char → Option ℤ
unfolding digits
signed [] = none
signed (c ∷ cs) =
    if eqb (code c) 45
    then negative (digits cs)
    else if eqb (code c) 43
    then positive (digits cs)
    else positive (digits (c ∷ cs))

unfoldable pub parse_int : String → Option ℤ
unfolding signed
parse_int s = signed (chars s)

-- The digits up to where they exceed a uint64.
scan_value : ℕ → List Char → Option ℕ
scan_value acc [] = some acc
scan_value acc (c ∷ cs) =
    let n = acc * 10 + (code c - 48) in
    let rest = scan_value n cs in
    if not (leb 48 (code c) && leb (code c) 57)
    then none
    else if ltb n (2 ^ 64)
    then rest
    else some (2 ^ 64)

digits_value : List Char → Option ℕ
unfolding scan_value
digits_value [] = none
digits_value (c ∷ cs) = scan_value 0 (c ∷ cs)

abbrev positive_value : Option ℕ → ℤ
positive_value none = pos 0
positive_value (some n) = pos (if ltb n (2 ^ 63) then n else 2 ^ 63 - 1)

abbrev negative_value : Option ℕ → ℤ
negative_value none = pos 0
negative_value (some zero) = pos 0
negative_value (some (suc n)) = negsuc (if ltb n (2 ^ 63) then n else 2 ^ 63 - 1)

signed_value : List Char → ℤ
unfolding digits_value
signed_value [] = pos 0
signed_value (c ∷ cs) =
    if eqb (code c) 45
    then negative_value (digits_value cs)
    else if eqb (code c) 43
    then positive_value (digits_value cs)
    else positive_value (digits_value (c ∷ cs))

-- The value that `strconv.Atoi` returns, with an error or not: 0 where the text is no number, and the closest
-- int64 where the number is out of range.
unfoldable pub atoi_value : String → ℤ
unfolding signed_value
atoi_value s = signed_value (chars s)

digit : ℕ → Char
digit n = elim (get_elem? (chars "0123456789") n) [ some c ↦ c | none ↦ "0" ]

-- The digits of `n` before `rest`; `n` rounds are enough.
format_onto : ℕ → ℕ → List Char → List Char
format_onto zero n rest = rest
format_onto (suc fuel) n rest =
    let shown = digit (n % 10) ∷ rest in
    elim (ltb n 10) [ true ↦ shown | false ↦ format_onto fuel (n / 10) shown ]

-- `fmt.Sprint` and `strconv.FormatInt` on a number that is not negative.
unfoldable pub format : ℕ → String
unfolding format_onto digit
format n = of_chars (format_onto (suc n) n [])

parse_sample : parse_int "-1700000000" ≡ some (negsuc 1_699_999_999)
unfolding parse_int
parse_sample = refl

parse_overflow : parse_int "9223372036854775808" ≡ none
unfolding parse_int
parse_overflow = refl

-- `fmt.Sprintf("%d", n)`
unfoldable pub format_ℤ : ℤ → String
format_ℤ (pos n) = format n
format_ℤ (negsuc n) = concat "-" (format (suc n))

-- `n++` of an int64, which wraps.
unfoldable pub increment : ℤ → ℤ
increment (pos n) = if ltb (suc n) (2 ^ 63) then pos (suc n) else negsuc (2 ^ 63 - 1)
increment (negsuc zero) = pos 0
increment (negsuc (suc n)) = negsuc n

format_sample : format 1070 ≡ "1070"
unfolding format
format_sample = refl
