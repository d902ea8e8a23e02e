-- ===== src/Bytes/Laws.antt =====
-- What a read of a buffer finds after a write.
use mini_im.Base.{
  ℕ, zero, suc, ◌+◌, ◌*◌, ◌≤◌, ◌<◌, ◌^◌, ◌≡◌, refl, ap, ap₂, ◌∙◌, ◌⊎◌, inl, inr, List, [], ◌∷◌,
  ◌++◌, arith, length, get_or, take,
}
use mini_im.Bytes.{
  put_at, get_field_uint16_t, get_field_uint32_t, set_field_uint16_t, set_field_uint32_t, bytes16,
  bytes32,
}

pub length-put_at :
    (buf : List ℕ) (off : ℕ) (src : List ℕ) → length (put_at buf off src) ≡ length buf
unfolding put_at
length-put_at [] off src = refl
length-put_at (b ∷ buf) zero [] = refl
length-put_at (b ∷ buf) zero (d ∷ src) = ap suc (length-put_at buf zero src)
length-put_at (b ∷ buf) (suc off) src = ap suc (length-put_at buf off src)

pub put_at_before :
    (buf : List ℕ) (off : ℕ) (src : List ℕ) (i : ℕ)
    → i < off
    → get_or (put_at buf off src) i 0 ≡ get_or buf i 0
unfolding put_at
put_at_before [] off src i h = refl
put_at_before (b ∷ buf) zero src i h = absurd (omega arith)
put_at_before (b ∷ buf) (suc off) src zero h = refl
put_at_before (b ∷ buf) (suc off) src (suc i) h = put_at_before buf off src i (omega arith)

pub put_at_after :
    (buf : List ℕ) (off : ℕ) (src : List ℕ) (i : ℕ)
    → off + length src ≤ i
    → get_or (put_at buf off src) i 0 ≡ get_or buf i 0
unfolding put_at
put_at_after [] off src i h = refl
put_at_after (b ∷ buf) zero [] i h = refl
put_at_after (b ∷ buf) zero (d ∷ src) zero h = absurd (omega arith)
put_at_after (b ∷ buf) zero (d ∷ src) (suc i) h = put_at_after buf zero src i (omega arith)
put_at_after (b ∷ buf) (suc off) src zero h = absurd (omega arith)
put_at_after (b ∷ buf) (suc off) src (suc i) h = put_at_after buf off src i (omega arith)

-- The `k`-th byte written, at its place `i`.
pub put_at_inside :
    (buf : List ℕ) (off : ℕ) (src : List ℕ) (k i : ℕ)
    → i ≡ off + k
    → k < length src
    → off + length src ≤ length buf
    → get_or (put_at buf off src) i 0 ≡ get_or src k 0
unfolding put_at
put_at_inside [] off src k i e h fits = absurd (omega arith)
put_at_inside (b ∷ buf) zero [] k i e h fits = absurd (omega arith)
put_at_inside (b ∷ buf) zero (d ∷ src) zero zero e h fits = refl
put_at_inside (b ∷ buf) zero (d ∷ src) zero (suc i) e h fits = absurd (omega arith)
put_at_inside (b ∷ buf) zero (d ∷ src) (suc k) zero e h fits = absurd (omega arith)
put_at_inside (b ∷ buf) zero (d ∷ src) (suc k) (suc i) e h fits =
    put_at_inside buf zero src k i (omega arith) (omega arith) (omega arith)
put_at_inside (b ∷ buf) (suc off) src k zero e h fits = absurd (omega arith)
put_at_inside (b ∷ buf) (suc off) src k (suc i) e h fits =
    put_at_inside buf off src k i (omega arith) h (omega arith)

-- Two writes side by side are one.
pub put_at-put_at :
    (buf : List ℕ) (off : ℕ) (xs ys : List ℕ)
    → put_at (put_at buf off xs) (off + length xs) ys ≡ put_at buf off (xs ++ ys)
unfolding put_at
put_at-put_at [] off xs ys = refl
put_at-put_at (b ∷ buf) zero [] ys = refl
put_at-put_at (b ∷ buf) zero (x ∷ xs) ys =
    let e : 0 + suc (length xs) ≡ suc (0 + length xs) = omega arith in
    ap (λ k. put_at (x ∷ put_at buf 0 xs) k ys) e ∙ ap (◌∷◌ x) (put_at-put_at buf 0 xs ys)
put_at-put_at (b ∷ buf) (suc off) xs ys =
    let e : suc off + length xs ≡ suc (off + length xs) = omega arith in
    ap (λ k. put_at (b ∷ put_at buf off xs) k ys) e ∙ ap (◌∷◌ b) (put_at-put_at buf off xs ys)

pub get16-set16 :
    (buf : List ℕ) (off v : ℕ)
    → off + 2 ≤ length buf
    → v < 2 ^ 16
    → get_field_uint16_t (set_field_uint16_t buf off v) off ≡ v
unfolding get_field_uint16_t set_field_uint16_t
get16-set16 buf off v fits small = omega (
  arith,
  put_at_inside buf off (bytes16 v) 0 off (omega arith) (omega arith) (omega arith),
  put_at_inside buf off (bytes16 v) 1 (suc off) (omega arith) (omega arith) (omega arith),
)

pub get32-set32 :
    (buf : List ℕ) (off v : ℕ)
    → off + 4 ≤ length buf
    → v < 2 ^ 32
    → get_field_uint32_t (set_field_uint32_t buf off v) off ≡ v
unfolding get_field_uint32_t set_field_uint32_t
get32-set32 buf off v fits small = omega (
  arith,
  put_at_inside buf off (bytes32 v) 0 off (omega arith) (omega arith) (omega arith),
  put_at_inside buf off (bytes32 v) 1 (suc off) (omega arith) (omega arith) (omega arith),
  put_at_inside buf off (bytes32 v) 2 (suc (suc off)) (omega arith) (omega arith) (omega arith),
  put_at_inside buf off (bytes32 v) 3 (suc (suc (suc off))) (omega arith) (omega arith)
      (omega arith),
)

-- A field of 16 bits apart from a write keeps its value.
pub get16-put_at_apart :
    (buf : List ℕ) (off : ℕ) (src : List ℕ) (i : ℕ)
    → (i + 2 ≤ off) ⊎ (off + length src ≤ i)
    → get_field_uint16_t (put_at buf off src) i ≡ get_field_uint16_t buf i
unfolding get_field_uint16_t
get16-put_at_apart buf off src i (inl h) =
    ap₂ (λ a b. a + 256 * b) (put_at_before buf off src i (omega arith))
      (put_at_before buf off src (suc i) (omega arith))
get16-put_at_apart buf off src i (inr h) =
    ap₂ (λ a b. a + 256 * b) (put_at_after buf off src i (omega arith))
      (put_at_after buf off src (suc i) (omega arith))

-- A field of 32 bits apart from a write keeps its value.
pub get32-put_at_apart :
    (buf : List ℕ) (off : ℕ) (src : List ℕ) (i : ℕ)
    → (i + 4 ≤ off) ⊎ (off + length src ≤ i)
    → get_field_uint32_t (put_at buf off src) i ≡ get_field_uint32_t buf i
unfolding get_field_uint32_t
get32-put_at_apart buf off src i (inl h) = omega (
  arith,
  put_at_before buf off src i (omega arith),
  put_at_before buf off src (suc i) (omega arith),
  put_at_before buf off src (suc (suc i)) (omega arith),
  put_at_before buf off src (suc (suc (suc i))) (omega arith),
)
get32-put_at_apart buf off src i (inr h) = omega (
  arith,
  put_at_after buf off src i (omega arith),
  put_at_after buf off src (suc i) (omega arith),
  put_at_after buf off src (suc (suc i)) (omega arith),
  put_at_after buf off src (suc (suc (suc i))) (omega arith),
)

-- The bytes of a write at the start of a buffer, whether or not all of them fit.
pub put_at_head :
    (buf src : List ℕ) (i : ℕ)
    → i < length buf
    → i < length src
    → get_or (put_at buf 0 src) i 0 ≡ get_or src i 0
unfolding put_at
put_at_head [] src i h k = absurd (omega arith)
put_at_head (b ∷ buf) [] i h k = absurd (omega arith)
put_at_head (b ∷ buf) (d ∷ src) zero h k = refl
put_at_head (b ∷ buf) (d ∷ src) (suc i) h k = put_at_head buf src i (omega arith) (omega arith)

pub get_or-take : (n : ℕ) (xs : List ℕ) (i : ℕ) → i < n → get_or (take n xs) i 0 ≡ get_or xs i 0
get_or-take zero xs i h = absurd (omega arith)
get_or-take (suc n) [] i h = refl
get_or-take (suc n) (x ∷ xs) zero h = refl
get_or-take (suc n) (x ∷ xs) (suc i) h = get_or-take n xs i (omega arith)

-- Two buffers that agree on the bytes of a field have the same field.
pub get16_same :
    (a b : List ℕ) (i : ℕ)
    → ((j : ℕ) → j < i + 2 → get_or a j 0 ≡ get_or b j 0)
    → get_field_uint16_t a i ≡ get_field_uint16_t b i
unfolding get_field_uint16_t
get16_same a b i h = ap₂ (λ x y. x + 256 * y) (h i (omega arith)) (h (suc i) (omega arith))

pub get32_same :
    (a b : List ℕ) (i : ℕ)
    → ((j : ℕ) → j < i + 4 → get_or a j 0 ≡ get_or b j 0)
    → get_field_uint32_t a i ≡ get_field_uint32_t b i
unfolding get_field_uint32_t
get32_same a b i h = omega (
  arith,
  h i (omega arith),
  h (suc i) (omega arith),
  h (suc (suc i)) (omega arith),
  h (suc (suc (suc i))) (omega arith),
)

-- A field inside the bytes that a write stored.
pub get16-put_at_inside :
    (buf : List ℕ) (off : ℕ) (src : List ℕ) (k : ℕ)
    → k + 2 ≤ length src
    → off + length src ≤ length buf
    → get_field_uint16_t (put_at buf off src) (off + k) ≡ get_field_uint16_t src k
unfolding get_field_uint16_t
get16-put_at_inside buf off src k h fits =
    ap₂ (λ a b. a + 256 * b) (put_at_inside buf off src k (off + k) refl (omega arith) fits)
      (put_at_inside buf off src (suc k) (suc (off + k)) (omega arith) (omega arith) fits)

pub get32-put_at_inside :
    (buf : List ℕ) (off : ℕ) (src : List ℕ) (k : ℕ)
    → k + 4 ≤ length src
    → off + length src ≤ length buf
    → get_field_uint32_t (put_at buf off src) (off + k) ≡ get_field_uint32_t src k
unfolding get_field_uint32_t
get32-put_at_inside buf off src k h fits = omega (
  arith,
  put_at_inside buf off src k (off + k) refl (omega arith) fits,
  put_at_inside buf off src (suc k) (suc (off + k)) (omega arith) (omega arith) fits,
  put_at_inside buf off src (suc (suc k)) (suc (suc (off + k))) (omega arith) (omega arith) fits,
  put_at_inside buf off src (suc (suc (suc k))) (suc (suc (suc (off + k)))) (omega arith)
      (omega arith) fits,
)

-- A field of the first `n` bytes.
pub get16-take :
    (n : ℕ) (xs : List ℕ) (i : ℕ)
    → i + 2 ≤ n
    → get_field_uint16_t (take n xs) i ≡ get_field_uint16_t xs i
get16-take n xs i h = get16_same (take n xs) xs i λ j p. get_or-take n xs j (omega arith)

pub get32-take :
    (n : ℕ) (xs : List ℕ) (i : ℕ)
    → i + 4 ≤ n
    → get_field_uint32_t (take n xs) i ≡ get_field_uint32_t xs i
get32-take n xs i h = get32_same (take n xs) xs i λ j p. get_or-take n xs j (omega arith)

-- A field is read from its own bytes.
pub get16_between :
    (a b : List ℕ) (i : ℕ)
    → ((j : ℕ) → i ≤ j → j < i + 2 → get_or a j 0 ≡ get_or b j 0)
    → get_field_uint16_t a i ≡ get_field_uint16_t b i
unfolding get_field_uint16_t
get16_between a b i h =
    ap₂ (λ x y. x + 256 * y) (h i (omega arith) (omega arith))
      (h (suc i) (omega arith) (omega arith))

pub get32_between :
    (a b : List ℕ) (i : ℕ)
    → ((j : ℕ) → i ≤ j → j < i + 4 → get_or a j 0 ≡ get_or b j 0)
    → get_field_uint32_t a i ≡ get_field_uint32_t b i
unfolding get_field_uint32_t
get32_between a b i h = omega (
  arith,
  h i (omega arith) (omega arith),
  h (suc i) (omega arith) (omega arith),
  h (suc (suc i)) (omega arith) (omega arith),
  h (suc (suc (suc i))) (omega arith) (omega arith),
)
