-- ===== src/Status/Invariant.antt =====
-- A cell of the cache is free, or it is that of one user.
use mini_im.Base.{
  ℕ, zero, suc, ◌≤◌, ◌<◌, ◌≡◌, refl, sym, subst, ap, ◌∙◌, ◌⊎◌, inl, inr, List, [], ◌∷◌, ◌++◌, none,
  some, Bool, true, false, ◌||◌, arith, ◌==◌, has, has-append, test_of_eq, test_of_ne,
}
use native.Mathlib.Decide.{ℕ_discrete, dec_lt}
use mini_im.Status.{Server, info, update, count_down, max_user, max_online_user, status_list_init}

-- No cell twice.
abbrev pub Distinct : List ℕ → Type 0
Distinct [] = Unit {0}
Distinct (x ∷ xs) = (has x xs ≡ false) × Distinct xs

pub record IsValid (s : Server) : Type 0 where
  pub distinct : Distinct s.free_list
  pub not_free : (u i : ℕ) → s.user_map u ≡ some i → has i s.free_list ≡ false
  pub one_user : (u v i : ℕ) → s.user_map u ≡ some i → s.user_map v ≡ some i → u ≡ v
  pub known : (u i : ℕ) → s.user_map u ≡ some i → u < max_user
  pub free_in : (i : ℕ) → has i s.free_list ≡ true → i < max_online_user
  pub used_in : (u i : ℕ) → s.user_map u ≡ some i → i < max_online_user
  pub kept :
      (i : ℕ)
      → i < max_online_user
      → (has i s.free_list ≡ true) ⊎ ((u : ℕ) × (s.user_map u ≡ some i))

has-count_down : (n i : ℕ) → n ≤ i → has i (count_down n) ≡ false
unfolding count_down
has-count_down zero i h = refl
has-count_down (suc n) i h = ground (arith, has-count_down n i)

Distinct-count_down : (n : ℕ) → Distinct (count_down n)
unfolding count_down
Distinct-count_down zero = tt
Distinct-count_down (suc n) = (has-count_down n n (omega arith), Distinct-count_down n)

count_down-has : (n i : ℕ) → i < n → has i (count_down n) ≡ true
unfolding count_down
count_down-has zero i h = absurd (omega arith)
count_down-has (suc n) i h = elim (ℕ_discrete n i) [
  | yes e ↦ rw (test_of_eq n i e)
  | no ne ↦ rw (test_of_ne n i ne) (count_down-has n i (omega arith))
]

below_of_has : (n i : ℕ) → has i (count_down n) ≡ true → i < n
below_of_has n i h = elim (dec_lt i n) [
  | yes below ↦ below
  | no above ↦ absurd (ground (arith, has-count_down n i))
]

-- The state of a server that starts with no file is valid, and every user is offline.
pub status_list_init-IsValid :
    IsValid status_list_init × ((u : ℕ) → status_list_init.user_map u ≡ none)
unfolding status_list_init
status_list_init-IsValid = (
  record {
    distinct = Distinct-count_down max_online_user;
    not_free = λ u i e. cc;
    one_user = λ u v i e f. cc;
    known = λ u i e. cc;
    free_in = λ i h. below_of_has max_online_user i h;
    used_in = λ u i e. cc;
    kept = λ i h. inl (count_down-has max_online_user i h);
  },
  λ u. refl,
)

Distinct-append : (xs : List ℕ) (x : ℕ) → Distinct xs → has x xs ≡ false → Distinct (xs ++ x ∷ [])
Distinct-append [] x d h = (refl, tt)
Distinct-append (y ∷ xs) x d h =
    (ground (arith, has-append y xs (x ∷ [])), Distinct-append xs x d.1 (ground arith))

or_true : (b : Bool) → (b || true) ≡ true
or_true true = refl
or_true false = refl

-- The state in which the first free cell has gone to a user.
abbrev pub given : Server → (uin ip port i : ℕ) → List ℕ → Server
given s uin ip port i rest = record {
  cache = update s.cache i (info ip port);
  user_map = update s.user_map uin (some i);
  free_list = rest;
}

-- The state in which the cell of a user has gone back.
abbrev pub returned : Server → (uin i : ℕ) → Server
returned s uin i = record {
  cache = update s.cache i (info 0 0);
  user_map = update s.user_map uin none;
  free_list = s.free_list ++ i ∷ [];
}

module _ (s : Server) (v : IsValid s) (uin ip port i : ℕ) where
  module _ (rest : List ℕ) (free : s.free_list ≡ i ∷ rest) (off : s.user_map uin ≡ none)
      (small : uin < max_user) where
    Distinct-all : Distinct (i ∷ rest)
    Distinct-all = subst Distinct free v.distinct

    used : (u j : ℕ) → s.user_map u ≡ some j → has j (i ∷ rest) ≡ false
    used u j e = ap (has j) (sym free) ∙ v.not_free u j e

    given-not_free : (u j : ℕ) → update s.user_map uin (some i) u ≡ some j → has j rest ≡ false
    given-not_free u j e = ground (arith, Distinct-all, used u j)

    given-one_user :
        (u w j : ℕ)
        → update s.user_map uin (some i) u ≡ some j
        → update s.user_map uin (some i) w ≡ some j
        → u ≡ w
    given-one_user u w j e f = ground (arith, used u j, used w j, v.one_user u w j)

    given-known : (u j : ℕ) → update s.user_map uin (some i) u ≡ some j → u < max_user
    given-known u j e = ground (arith, v.known u j)

    given-kept :
        (j : ℕ)
        → j < max_online_user
        → (has j rest ≡ true) ⊎ ((u : ℕ) × (update s.user_map uin (some i) u ≡ some j))
    given-kept j h = elim (v.kept j h) [
      | inl f ↦ elim (ℕ_discrete i j) [
        | yes e ↦ inr (uin, rw (test_of_eq uin uin refl, e))
        | no ne ↦
            inl (sym (ap (λ b. b || has j rest) (test_of_ne i j ne)) ∙ ap (has j) (sym free) ∙ f)
      ]
      | inr (u, e) ↦ elim (ℕ_discrete uin u) [
        | yes same ↦ absurd (ground (arith, ap s.user_map same))
        | no ne ↦ inr (u, rw (test_of_ne uin u ne) e)
      ]
    ]

    pub given-IsValid : IsValid (given s uin ip port i rest)
    given-IsValid = record {
      distinct = Distinct-all.1;
      not_free = given-not_free;
      one_user = given-one_user;
      known = given-known;
      free_in = λ j h. v.free_in j (ap (has j) free ∙ ground (arith, or_true (i == j)));
      used_in =
          λ u j e. ground (arith, v.used_in u j, v.free_in i, ap (has i) free, test_of_eq i i);
      kept = given-kept;
    }

  module _ (on : s.user_map uin ≡ some i) where
    returned-not_free :
        (u j : ℕ) → update s.user_map uin none u ≡ some j → has j (s.free_list ++ i ∷ []) ≡ false
    returned-not_free u j e =
        ground (arith, has-append j s.free_list (i ∷ []), v.not_free u j, v.one_user uin u i)

    returned-kept :
        (j : ℕ)
        → j < max_online_user
        → (has j (s.free_list ++ i ∷ []) ≡ true)
          ⊎ ((u : ℕ) × (update s.user_map uin none u ≡ some j))
    returned-kept j h = elim (v.kept j h) [
      | inl f ↦ inl (ground (arith, has-append j s.free_list (i ∷ [])))
      | inr (u, e) ↦ elim (ℕ_discrete uin u) [
        | yes same ↦ inl (
            ground (
              arith,
              has-append j s.free_list (i ∷ []),
              ap s.user_map same,
              or_true (has j s.free_list),
            ))
        | no ne ↦ inr (u, rw (test_of_ne uin u ne) e)
      ]
    ]

    pub returned-IsValid : IsValid (returned s uin i)
    returned-IsValid = record {
      distinct = Distinct-append s.free_list i v.distinct (v.not_free uin i on);
      not_free = returned-not_free;
      one_user = λ u w j e f. ground (arith, v.one_user u w j);
      known = λ u j e. ground (arith, v.known u j);
      free_in =
          λ j h. ground (arith, has-append j s.free_list (i ∷ []), v.free_in j, v.used_in uin i);
      used_in = λ u j e. ground (arith, v.used_in u j);
      kept = returned-kept;
    }
