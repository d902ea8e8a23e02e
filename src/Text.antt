-- ===== src/Text.antt =====
-- Strings of C in memory, and the numbers that `%d` prints.
pub mod Laws
use mini_im.Base.{
  ℕ, zero, suc, ◌+◌, ◌-◌, ◌/◌, ◌^◌, List, [], ◌∷◌, ◌++◌, Option, none, some, ltb, ◌==◌,
  if◌then◌else◌,
}

-- The bytes before the first 0. `none` is memory without one, which is read past its end.
unfoldable pub cstring : List ℕ → Option (List ℕ)
cstring [] = none
cstring (b ∷ memory) =
    let rest : Option (List ℕ) = elim (cstring memory) [
      | none ↦ none
      | some text ↦ some (b ∷ text)
    ] in
    if b == 0 then some [] else rest

-- The bytes before the first 0, or all of them: what is copied of bytes with a 0 behind them.
unfoldable pub until_nul : List ℕ → List ℕ
until_nul [] = []
until_nul (b ∷ bytes) = let rest = b ∷ until_nul bytes in if b == 0 then [] else rest

-- A string as strcpy stores it.
abbrev pub terminated : List ℕ → List ℕ
terminated text = text ++ 0 ∷ []

unfoldable pub digits : ℕ → ℕ → ℕ
digits zero n = 1
digits (suc more) n = if ltb n 10 then 1 else 1 + digits more (n / 10)

-- The length of what `%d` prints for the 32 bits of a number: the sign and at most ten digits.
unfoldable pub printed : ℕ → ℕ
printed n = if ltb n (2 ^ 31) then digits 10 n else 1 + digits 10 (2 ^ 32 - n)
