-- ===== src/Text/Laws.antt =====
-- What is read of a string that was stored.
use mini_im.Base.{
  ℕ, ◌<◌, ◌≤◌, ◌≡◌, ◌≢◌, refl, sym, subst, ap, ◌∙◌, ◌⊎◌, List, [], ◌∷◌, Option, none, some, arith,
  false, ◌==◌, length, All, test_of_eq, test_of_ne, Bool-cases, inl, inr, eq_of_test,
}
use mini_im.Bytes.{put_at}
use mini_im.Text.{cstring, terminated, until_nul}

abbrev pub NonZero : ℕ → Type 0
NonZero b = b ≢ 0

some_eq : {a b : List ℕ} → some a ≡ some b → a ≡ b
some_eq e = cc

-- A string has no 0.
pub cstring-NonZero : (xs text : List ℕ) → cstring xs ≡ some text → All NonZero text
unfolding cstring
cstring-NonZero [] text e = absurd cc
cstring-NonZero (b ∷ xs) text e = elim (Bool-cases (b == 0)) [
  | inl z ↦
      let run : cstring (b ∷ xs) ≡ some [] = rw z refl in
      subst (All NonZero) (some_eq (sym run ∙ e)) tt
  | inr nz ↦ later (cstring xs) refl nz (λ rest r. cstring-NonZero xs rest r)
]
  where
    later :
        (o : Option (List ℕ))
        → cstring xs ≡ o
        → (b == 0) ≡ false
        → ((rest : List ℕ) → cstring xs ≡ some rest → All NonZero rest)
        → All NonZero text
    later none r nz ih =
        let run : cstring (b ∷ xs) ≡ none = rw nz (rw r refl) in
        let no : ◌≡◌ {A = Option (List ℕ)} none (some text) = sym run ∙ e in absurd cc
    later (some rest) r nz ih =
        let run : cstring (b ∷ xs) ≡ some (b ∷ rest) = rw nz (rw r refl) in
        subst (All NonZero) (some_eq (sym run ∙ e))
          ((λ z. ground (arith, test_of_eq b 0 z)), ih rest r)

-- A text without a 0 is read where it is stored.
pub cstring-terminated :
    (memory text : List ℕ)
    → All NonZero text
    → length text < length memory
    → cstring (put_at memory 0 (terminated text)) ≡ some text
unfolding cstring put_at
cstring-terminated [] text ok room = absurd (omega arith)
cstring-terminated (m ∷ memory) [] ok room = refl
cstring-terminated (m ∷ memory) (b ∷ text) (nz, ok) room =
    rw (test_of_ne b 0 nz) (rw (cstring-terminated memory text ok (omega arith)) refl)

-- The string that starts in bytes with a 0 behind them: all of them, or less if there is a 0 among them.
pub cstring_bytes :
    (bytes : List ℕ)
    → (text : List ℕ) × (cstring (terminated bytes) ≡ some text)
      × ((All NonZero bytes × (text ≡ bytes))
          ⊎ ((length text < length bytes) × ¬ All NonZero bytes))
unfolding cstring
cstring_bytes [] = ([], refl, inl (tt, refl))
cstring_bytes (b ∷ bytes) =
    let (text, run, how) = cstring_bytes bytes in
    elim (Bool-cases (b == 0)) [
      | inl z ↦ ([], rw z refl, inr (omega arith, λ nz. nz.0 (eq_of_test b 0 z)))
      | inr z ↦ (
        b ∷ text,
        rw z (rw run refl),
        elim how [
          | inl (nz, e) ↦ inl ((λ e0. ground (arith, test_of_eq b 0 e0), nz), ap (λ l. b ∷ l) e)
          | inr (short, cut) ↦ inr (omega arith, λ nz. cut nz.1)
        ],
      )
    ]

pub length-until_nul : (bytes : List ℕ) → length (until_nul bytes) ≤ length bytes
unfolding until_nul
length-until_nul [] = omega arith
length-until_nul (b ∷ bytes) = ground (arith, length-until_nul bytes)

pub until_nul-NonZero : (bytes : List ℕ) → All NonZero bytes → until_nul bytes ≡ bytes
unfolding until_nul
until_nul-NonZero [] nz = refl
until_nul-NonZero (b ∷ bytes) (nz, rest) =
    rw (test_of_ne b 0 nz) (ap (λ l. b ∷ l) (until_nul-NonZero bytes rest))
