-- ===== src/Prelude/Text.antt =====
-- Decimal numerals, as fmt.Sprintf("%d") and ("%04d") write them, strings.Split at one character,
-- and filepath.Join.
use Prim.Native.Nat.{ℕ, zero, suc, ◌+◌, ◌/◌, ◌%◌}
use Prim.Native.Char.{Char, code}
use Prim.Native.String.{String}
use text.Mathlib.Text.{◌==◌}
use mathlib.Core.List.{List, [], ◌∷◌}
use project_constellation.Prelude.Tests.{concat, eqb, ltb, if◌then◌else◌}

digit : ℕ → String
digit zero = "0"
digit (suc zero) = "1"
digit (suc (suc zero)) = "2"
digit (suc (suc (suc zero))) = "3"
digit (suc (suc (suc (suc zero)))) = "4"
digit (suc (suc (suc (suc (suc zero))))) = "5"
digit (suc (suc (suc (suc (suc (suc zero)))))) = "6"
digit (suc (suc (suc (suc (suc (suc (suc zero))))))) = "7"
digit (suc (suc (suc (suc (suc (suc (suc (suc zero)))))))) = "8"
digit _ = "9"

-- A number has fewer digits than the fuel `n + 1`.
show_fuel : ℕ → ℕ → String
show_fuel zero n = ""
show_fuel (suc k) n =
    let front = show_fuel k (n / 10) in if ltb n 10 then digit n else concat front (digit (n % 10))

unfoldable pub show_ℕ : ℕ → String
unfolding show_fuel digit
show_ℕ n = show_fuel (n + 1) n

unfoldable pub show_padded : ℕ → String
unfolding show_ℕ
show_padded n =
    concat (if ltb n 10 then "000" else if ltb n 100 then "00" else if ltb n 1000 then "0" else "")
      (show_ℕ n)

abbrev pub push_char : Char → List String → List String
push_char c [] = (String.◌∷◌ c String.[]) ∷ []
push_char c (p ∷ ps) = String.◌∷◌ c p ∷ ps

-- strings.Split(s, sep), for one character.
unfoldable pub split_on : ℕ → String → List String
split_on sep String.[] = "" ∷ []
split_on sep (String.◌∷◌ c s) =
    let rest = split_on sep s in if eqb (code c) sep then "" ∷ rest else push_char c rest

-- filepath.Join, of names and clean paths: empty ones are left out.
unfoldable pub join_path : List String → String
join_path [] = ""
join_path (p ∷ ps) =
    let rest = join_path ps in
    if p == "" then rest else if rest == "" then p else concat p (concat "/" rest)
