-- ===== src/Api/Numbers.antt =====
-- strconv.Atoi, as the handlers of controller/api use it: the value, with the error dropped.
use Prim.Native.Char.{code}
use project_constellation.Prelude.{
  ℕ, ◌+◌, ◌-◌, ◌*◌, ◌^◌, ℤ, pos, negsuc, ◌||◌, String, List, [], ◌∷◌, Option, none, some, eqb, ltb,
  if◌then◌else◌, ◌≡◌, refl,
}

codes : String → List ℕ
codes String.[] = []
codes (String.◌∷◌ c s) = code c ∷ codes s

-- The digits in uint64: a value that does not fit ends the scan at the greatest.
scan : List ℕ → ℕ → Option ℕ
scan [] n = some n
scan (c ∷ s) n =
    let n' = n * 10 + (c - b'0') in
    let rest = scan s n' in
    if ltb c b'0' || ltb b'9' c
    then none
    else if ltb (2 ^ 64 - 1) n'
    then some (2 ^ 64 - 1)
    else rest

unsigned : List ℕ → Option ℕ
unfolding scan
unsigned [] = none
unsigned (c ∷ s) = scan (c ∷ s) 0

positive : Option ℕ → ℤ
positive none = pos 0
positive (some n) = pos (if ltb (2 ^ 63 - 1) n then 2 ^ 63 - 1 else n)

negative : Option ℕ → ℤ
negative none = pos 0
negative (some n) =
    if eqb n 0 then pos 0 else if ltb (2 ^ 63) n then negsuc (2 ^ 63 - 1) else negsuc (n - 1)

signed : List ℕ → ℤ
unfolding unsigned positive negative
signed [] = pos 0
signed (c ∷ s) =
    if eqb c b'-'
    then negative (unsigned s)
    else if eqb c b'+'
    then positive (unsigned s)
    else positive (unsigned (c ∷ s))

unfoldable pub atoi : String → ℤ
unfolding codes signed
atoi s = signed (codes s)

atoi_values : (atoi "12" ≡ pos 12)
unfolding atoi
atoi_values = refl

atoi_negative : atoi "-7" ≡ negsuc 6
unfolding atoi
atoi_negative = refl

atoi_bad : atoi "12x" ≡ pos 0
unfolding atoi
atoi_bad = refl
