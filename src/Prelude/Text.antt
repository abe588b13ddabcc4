-- ===== src/Prelude/Text.antt =====
-- The functions of Go's `strings` that the program calls, over the native `String`.
use Prim.Native.String.{◌++◌ as concat}
use Prim.Native.Char.{Char, code}
use Prim.Native.String.{String}
use mathlib.Core.Bool.{Bool, true, false, ◌&&◌, ◌||◌}
use mathlib.Core.Path.{◌≡◌, refl, ap}
use mathlib.Core.List.{List, [], ◌∷◌, reverse}
use mathlib.Core.Option.{Option, none, some}
use text.Mathlib.Text.{◌==◌}
use go_dashboard.Prelude.Tests.{ltb, leb, eqb, if◌then◌else◌}

abbrev pub chars : String → List Char
chars String.[] = []
chars (String.◌∷◌ c s) = c ∷ chars s

abbrev pub of_chars : List Char → String
of_chars [] = String.[]
of_chars (c ∷ cs) = String.◌∷◌ c (of_chars cs)

pub chars-of_chars : (cs : List Char) → chars (of_chars cs) ≡ cs
chars-of_chars [] = refl
chars-of_chars (c ∷ cs) = ap (λ rest. c ∷ rest) (chars-of_chars cs)

-- `unicode.IsSpace`
pub is_space : Char → Bool
is_space ch =
    let c = code ch in
    (leb 9 c && leb c 13)
    || eqb c 32
    || eqb c 0x85
    || eqb c 0xa0
    || eqb c 0x1680
    || (leb 0x2000 c && leb c 0x200a)
    || eqb c 0x2028
    || eqb c 0x2029
    || eqb c 0x202f
    || eqb c 0x205f
    || eqb c 0x3000

drop_spaces : List Char → List Char
drop_spaces [] = []
drop_spaces (c ∷ cs) = let rest = drop_spaces cs in if is_space c then rest else c ∷ cs

-- `strings.TrimSpace`
unfoldable pub trim_space : String → String
unfolding drop_spaces is_space
trim_space s = of_chars (reverse (drop_spaces (reverse (drop_spaces (chars s)))))

-- `strings.TrimSpace(s) == ""`
unfoldable pub is_blank : String → Bool
unfolding trim_space
is_blank s = trim_space s == ""

-- `s < t` on texts: bytes in order, which for UTF-8 is the order of the code points.
lt_chars : List Char → List Char → Bool
lt_chars [] [] = false
lt_chars [] (d ∷ ds) = true
lt_chars (c ∷ cs) [] = false
lt_chars (c ∷ cs) (d ∷ ds) =
    let rest = lt_chars cs ds in ltb (code c) (code d) || (eqb (code c) (code d) && rest)

unfoldable pub str_lt : String → String → Bool
unfolding lt_chars
str_lt s t = lt_chars (chars s) (chars t)

strip : List Char → List Char → Option (List Char)
strip [] cs = some cs
strip (p ∷ ps) [] = none
strip (p ∷ ps) (c ∷ cs) = let rest = strip ps cs in if eqb (code p) (code c) then rest else none

-- `strings.TrimPrefix` where `strings.HasPrefix` holds.
unfoldable pub cut_prefix : String → String → Option String
unfolding strip
cut_prefix p s = elim (strip (chars p) (chars s)) [ none ↦ none | some cs ↦ some (of_chars cs) ]

blank_sample : is_blank " \t " ≡ true
unfolding is_blank
blank_sample = refl

cut_sample : cut_prefix "steps." "steps.actions" ≡ some "actions"
unfolding cut_prefix
cut_sample = refl

trim_end : List Char → List Char
trim_end [] = []
trim_end (c ∷ cs) = elim (trim_end cs) [
  | [] ↦ if eqb (code c) 47 then [] else c ∷ []
  | d ∷ ds ↦ c ∷ d ∷ ds
]

-- `strings.TrimRight(s, "/")`
unfoldable pub trim_slashes : String → String
unfolding trim_end
trim_slashes s = of_chars (trim_end (chars s))

-- `strings.Join(parts, separator)`
unfoldable pub join : String → List String → String
join separator [] = ""
join separator (p ∷ []) = p
join separator (p ∷ q ∷ rest) = concat p (concat separator (join separator (q ∷ rest)))
