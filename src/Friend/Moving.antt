-- ===== src/Friend/Moving.antt =====
-- The query that friend_table_move builds, against its buffer.
use mini_im.Base.{
  ℕ, zero, suc, ◌+◌, ◌-◌, ◌*◌, ◌/◌, ◌≤◌, ◌<◌, ◌^◌, ◌≡◌, ◌≢◌, ◌↔◌, ◌⊎◌, inl, inr, refl, sym, subst,
  ap, ◌∙◌, List, [], ◌∷◌, Option, none, some, arith, ltb, ltb_of_lt, ltb_of_ge, ltb→lt, ltb→ge,
  Bool-cases, length, length-take, All,
}
use mini_im.Text.{printed, digits}
use mini_im.Friend.Db.{
  ContactDb, Listed, listed, get_friend_list, done, refused, overrun, move_query_size, move_table,
  columns_length, move_to, friend_table_move, friend_delete, list_table, unlisted, no_column, Fetch,
  no_query, no_result, no_row, row,
}

digits_positive : (k n : ℕ) → 1 ≤ digits k n
unfolding digits
digits_positive zero n = omega arith
digits_positive (suc k) n = elim (Bool-cases (ltb n 10)) [
  | inl e ↦ rw e (omega arith)
  | inr e ↦ rw e (omega arith)
]

-- 10 ^ k
abbrev tens : ℕ → ℕ
tens zero = 1
tens (suc k) = 10 * tens k

-- A number below 10 ^ (k + 1) has at most k + 1 digits.
digits_le : (k fuel n : ℕ) → n < tens (suc k) → suc k ≤ fuel → digits fuel n ≤ suc k
unfolding digits
digits_le k zero n h enough = absurd (omega arith)
digits_le zero (suc fuel) n h enough = rw (ltb_of_lt n 10 h) (omega arith)
digits_le (suc k) (suc fuel) n h enough = elim (Bool-cases (ltb n 10)) [
  | inl e ↦ rw e (omega arith)
  | inr e ↦ rw e (omega (arith, digits_le k fuel (n / 10) (omega arith) (omega arith)))
]

printed_le : (n : ℕ) → n < 2 ^ 32 → printed n ≤ 11
unfolding printed
printed_le n h = elim (Bool-cases (ltb n (2 ^ 31))) [
  | inl e ↦
      rw e (omega (arith, digits_le 9 10 n (omega (arith, ltb→lt n (2 ^ 31) e)) (omega arith)))
  | inr e ↦ rw e (
      omega (arith, digits_le 9 10 (2 ^ 32 - n) (omega (arith, ltb→ge n (2 ^ 31) e)) (omega arith)))
]

printed_positive : (n : ℕ) → 1 ≤ printed n
unfolding printed
printed_positive n = elim (Bool-cases (ltb n (2 ^ 31))) [
  | inl e ↦ rw e (digits_positive 10 n)
  | inr e ↦ rw e (omega arith)
]

-- A column takes 12 bytes at least, and 24 at most among the first 200.
columns_length_ge : (i : ℕ) (fs : List ℕ) → 12 * length fs ≤ columns_length i fs
unfolding columns_length
columns_length_ge i [] = omega arith
columns_length_ge i (f ∷ fs) =
    omega (arith, columns_length_ge (i + 1) fs, digits_positive 10 (i + 1), printed_positive f)

columns_length_le :
    (i : ℕ) (fs : List ℕ)
    → All (λ f. f < 2 ^ 32) fs
    → i + length fs ≤ 200
    → columns_length i fs ≤ 24 * length fs
unfolding columns_length
columns_length_le i [] ok h = omega arith
columns_length_le i (f ∷ fs) (small, ok) h = omega (
  arith,
  columns_length_le (i + 1) fs ok (omega arith),
  digits_le 2 10 (i + 1) (omega arith) (omega arith),
  printed_le f small,
)

-- As many as `num`, if any.
abbrev Sized : ℕ → Listed → Type 0
Sized num (listed fs) = length fs ≡ num
Sized num unlisted = Unit {0}
Sized num no_column = Unit {0}

module _ {D : Type 0} (db : ContactDb D) where
  move_to-long :
      (d : D) (uin table : ℕ) (fs : List ℕ) → length fs ≡ 500 → move_to db d uin table fs ≡ overrun
  unfolding move_to
  move_to-long d uin table fs h =
      rw
        (ltb_of_ge (30 + printed uin + columns_length 0 fs) move_query_size
          (omega (arith, columns_length_ge 0 fs)))
        refl

  move_to-short :
      (d : D) (uin table : ℕ) (fs : List ℕ)
      → uin < 2 ^ 32
      → All (λ f. f < 2 ^ 32) fs
      → length fs ≤ 200
      → move_to db d uin table fs ≢ overrun
  unfolding move_to
  move_to-short d uin table fs small ok h e = inserted (db.insert d table uin fs) refl
    where
      fits : 30 + printed uin + columns_length 0 fs < move_query_size
      fits = omega (arith, columns_length_le 0 fs ok (omega arith), printed_le uin small)

      inserted : (o : Option D) → db.insert d table uin fs ≡ o → ⊥
      inserted none r =
          let run : move_to db d uin table fs ≡ refused d = rw (ltb_of_lt _ _ fits) (rw r refl) in
          let no : refused d ≡ overrun = sym run ∙ e in absurd cc
      inserted (some d') r =
          let run : move_to db d uin table fs ≡ done (friend_delete db d' uin (table - 1)) =
            rw (ltb_of_lt _ _ fits) (rw r refl) in
          let no : done (friend_delete db d' uin (table - 1)) ≡ overrun = sym run ∙ e in absurd cc

  -- get_friend_list writes as many entries as it was asked for.
  get_friend_list-Sized : (d : D) (uin num : ℕ) → Sized num (get_friend_list db d uin num)
  unfolding get_friend_list
  get_friend_list-Sized d uin num = by_table (list_table num) refl
    where
      by_row :
          (table : ℕ)
          → list_table num ≡ some table
          → (r : Fetch (List ℕ)) → db.contacts d table uin ≡ r
          → Sized num (get_friend_list db d uin num)
      by_row table t no_query r = rw (t, get_friend_list) (rw r tt)
      by_row table t no_result r = rw (t, get_friend_list) (rw r tt)
      by_row table t no_row r = rw (t, get_friend_list) (rw r tt)
      by_row table t (row columns) r =
          rw (t, get_friend_list)
            (rw r (elim (Bool-cases (ltb (length columns) num)) [
              | inl short ↦ rw short tt
              | inr wide ↦
                  rw wide (omega (arith, length-take num columns, ltb→ge (length columns) num wide))
            ]))

      by_table : (t : Option ℕ) → list_table num ≡ t → Sized num (get_friend_list db d uin num)
      by_table none t = rw (t, get_friend_list) tt
      by_table (some table) t = by_row table t (db.contacts d table uin) refl

  pub length-get_friend_list :
      (d : D) (uin num : ℕ) (fs : List ℕ)
      → get_friend_list db d uin num ≡ listed fs
      → length fs ≡ num
  length-get_friend_list d uin num fs e = subst (Sized num) e (get_friend_list-Sized d uin num)

  friend_table_move-move_to :
      (d : D) (uin num table : ℕ) (junk fs : List ℕ)
      → move_table num ≡ some table
      → get_friend_list db d uin num ≡ listed fs
      → friend_table_move db d uin num junk ≡ move_to db d uin table fs
  unfolding friend_table_move
  friend_table_move-move_to d uin num table junk fs t found =
      rw (t, friend_table_move) (rw found refl)

-- friend_table_move, for a user whose contacts are found: it writes past the end of its query exactly
-- if there are 500 of them. For 50, 100 and 200 the query fits its buffer, whatever their numbers are.
pub friend_table_move-overrun :
    {D : Type 0} (db : ContactDb D) (d : D) (uin num : ℕ) (junk fs : List ℕ)
    → (num ≡ 50) ⊎ (num ≡ 100) ⊎ (num ≡ 200) ⊎ (num ≡ 500)
    → get_friend_list db d uin num ≡ listed fs
    → uin < 2 ^ 32
    → All (λ f. f < 2 ^ 32) fs
    → (friend_table_move db d uin num junk ≡ overrun) ↔ (num ≡ 500)
unfolding move_table
friend_table_move-overrun db d uin num junk fs full found small ok = elim full [
  | inl e ↦ fitting 2 (ap move_table e) (omega arith)
  | inr (inl e) ↦ fitting 3 (ap move_table e) (omega arith)
  | inr (inr (inl e)) ↦ fitting 4 (ap move_table e) (omega arith)
  | inr (inr (inr e)) ↦ (
    λ _. e,
    λ _.
        friend_table_move-move_to db d uin num 5 junk fs (ap move_table e) found
        ∙ move_to-long db d uin 5 fs (length-get_friend_list db d uin num fs found ∙ e),
  )
]
  where
    fitting :
        (table : ℕ)
        → move_table num ≡ some table
        → num ≤ 200
        → (friend_table_move db d uin num junk ≡ overrun) ↔ (num ≡ 500)
    fitting table t h = (
      λ o. absurd (
          move_to-short db d uin table fs small ok
            (omega (arith, length-get_friend_list db d uin num fs found))
            (sym (friend_table_move-move_to db d uin num table junk fs t found) ∙ o)),
      λ e. absurd (omega arith),
    )
