-- ===== src/Common/Text.antt =====
-- What the program uses of Go's `strings` and `strconv`: `TrimSpace`, `Split`, decimal numbers.
use Prim.Native.Nat.{ℕ, zero, suc, ◌/◌, ◌%◌}
use Prim.Native.Char.{code}
use Prim.Native.String.{String, [], ◌∷◌, ◌++◌}
use mathlib.Core.Bool.{Bool, true, false, ◌&&◌, ◌||◌}
use mathlib.Core.List.{List}
use nacp.Common.Tests.{ltb, leb, eqb, if◌then◌else◌}
use mathlib.Core.Path.{◌≡◌, refl}

-- The code points of a text.
abbrev pub codes : String → List ℕ
codes [] = List.[]
codes (c ∷ s) = List.◌∷◌ (code c) (codes s)

abbrev pub is_empty : String → Bool
is_empty [] = true
is_empty (c ∷ s) = false

pub empty_of_is_empty : (s : String) → is_empty s ≡ true → s ≡ ""
empty_of_is_empty [] e = refl
empty_of_is_empty (c ∷ s) e = absurd (cc e)

-- `unicode.IsSpace`
pub is_space : ℕ → Bool
is_space c =
    (leb 9 c && leb c 13)
    || eqb c 0x20
    || eqb c 0x85
    || eqb c 0xA0
    || eqb c 0x1680
    || (leb 0x2000 c && leb c 0x200a)
    || eqb c 0x2028
    || eqb c 0x2029
    || eqb c 0x202f
    || eqb c 0x205f
    || eqb c 0x3000

trim_left : String → String
trim_left [] = []
trim_left (c ∷ s) = let rest = trim_left s in if is_space (code c) then rest else c ∷ s

trim_right : String → String
trim_right [] = []
trim_right (c ∷ s) =
    let rest = trim_right s in if is_empty rest && is_space (code c) then [] else c ∷ rest

-- `strings.TrimSpace`
unfoldable pub trim_space : String → String
unfolding trim_left trim_right is_space
trim_space s = trim_right (trim_left s)

-- A text that is not blank is not empty.
pub is_empty-trim_space : (s : String) → is_empty (trim_space s) ≡ false → is_empty s ≡ false
unfolding trim_space
is_empty-trim_space [] h = h
is_empty-trim_space (c ∷ s) h = refl

-- `strings.Split(s, ",")[0]`
unfoldable pub before_comma : String → String
before_comma [] = []
before_comma (c ∷ s) = let rest = before_comma s in if eqb (code c) b',' then [] else c ∷ rest

digit : ℕ → String
digit zero = "0"
digit (suc zero) = "1"
digit (suc (suc zero)) = "2"
digit (suc (suc (suc zero))) = "3"
digit (suc (suc (suc (suc zero)))) = "4"
digit (suc (suc (suc (suc (suc zero))))) = "5"
digit (suc (suc (suc (suc (suc (suc zero)))))) = "6"
digit (suc (suc (suc (suc (suc (suc (suc zero))))))) = "7"
digit (suc (suc (suc (suc (suc (suc (suc (suc zero)))))))) = "8"
digit _ = "9"

itoa_fuel : ℕ → ℕ → String
itoa_fuel zero n = ""
itoa_fuel (suc fuel) n =
    let rest = itoa_fuel fuel (n / 10) in if ltb n 10 then digit n else rest ++ digit (n % 10)

-- `strconv.Itoa`, `fmt.Sprintf("%d", …)`
unfoldable pub itoa : ℕ → String
unfolding itoa_fuel digit
itoa n = itoa_fuel (suc n) n

trim_test : trim_space " \t a b  " ≡ "a b"
unfolding trim_space
trim_test = refl

itoa_test : itoa 10485 ≡ "10485"
unfolding itoa
itoa_test = refl
