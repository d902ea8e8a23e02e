-- ===== src/Status/Answers.antt =====
-- What a client of the status server sees of set_status and of a full cache.
use mini_im.Base.{
  ℕ, ◌≤◌, ◌<◌, ◌≡◌, ◌≢◌, ◌↔◌, sym, ap, ◌∙◌, ◌⊎◌, inl, inr, List, [], ◌∷◌, none, some, true, arith,
  ◌==◌, if◌then◌else◌, has, test_of_eq, test_of_ne,
}
use mini_im.Status.{
  Server, max_user, max_online_user, success, failure, fault, set_status, presence, get_status,
}
use mini_im.Status.Invariant.{IsValid, given, returned}
use mini_im.Status.Lookup.{set_status-case}

success_injective : {a b : Server} → success a ≡ success b → a ≡ b
success_injective e = cc

module _ (s : Server) (v : IsValid s) (uin i : ℕ) where
  get_status-given :
      (ip port : ℕ) (rest : List ℕ) (j : ℕ)
      → uin < max_user
      → s.free_list ≡ i ∷ rest
      → get_status (given s uin ip port i rest) j
        ≡ (if uin == j then some (presence 1 ip port) else get_status s j)
  unfolding get_status
  get_status-given ip port rest j small free =
      ground (arith, v.not_free j i, ap (has i) free, test_of_eq i i)

  get_status-returned :
      (j : ℕ)
      → uin < max_user
      → s.user_map uin ≡ some i
      → get_status (returned s uin i) j
        ≡ (if uin == j then some (presence 0 0 0) else get_status s j)
  unfolding get_status
  get_status-returned j small on = ground (arith, v.one_user uin j i)

-- After a success, get_status says of the user what was set: online at that address for a status
-- that is not 0, and offline for 0. Of every other user it says what it said before. The state
-- before is valid.
pub get_status-set_status :
    (s s' : Server) (uin ip port stat : ℕ)
    → IsValid s
    → set_status s uin ip port stat ≡ success s'
    → (j : ℕ)
    → get_status s' j ≡ (
        if uin == j
        then some (if stat == 0 then presence 0 0 0 else presence 1 ip port)
        else get_status s j)
get_status-set_status s s' uin ip port stat v h j = elim (set_status-case s uin ip port stat) [
  | inl (_, r) ↦ cc
  | inr (inl (_, _, _, _, r)) ↦ cc
  | inr (inr (inl (_, _, _, _, r))) ↦ cc
  | inr (inr (inr (inl (small, on, i, rest, off, e, r)))) ↦
      ap (λ t. get_status t j) (sym (success_injective (sym r ∙ h)))
      ∙ get_status-given s v uin i ip port rest j small e
      ∙ ap
          (λ b.
            if uin == j
            then some (if b then presence 0 0 0 else presence 1 ip port)
            else get_status s j)
          (sym (test_of_ne stat 0 on))
  | inr (inr (inr (inr (inl (_, _, _, r))))) ↦ cc
  | inr (inr (inr (inr (inr (small, gone, i, e, r))))) ↦
      ap (λ t. get_status t j) (sym (success_injective (sym r ∙ h)))
      ∙ get_status-returned s v uin i j small e
      ∙ ap
          (λ b.
            if uin == j
            then some (if b then presence 0 0 0 else presence 1 ip port)
            else get_status s j)
          (sym (test_of_eq stat 0 gone))
]

-- A cell that is no user's is free, so with none free each has its user.
all_used :
    (s : Server)
    → IsValid s
    → s.free_list ≡ []
    → (i : ℕ) → i < max_online_user
    → (u : ℕ) × (s.user_map u ≡ some i)
all_used s v e i h = elim (v.kept i h) [
  | inl f ↦ absurd (ground (arith, ap (has i) e))
  | inr found ↦ found
]

-- From a valid state set_status goes through NULL exactly if it is to bring an offline user online
-- whose uin is below MAX_USER, and each of the MAX_ONLINE_USER cells is some user's.
pub set_status-fault :
    (s : Server) (uin ip port stat : ℕ)
    → IsValid s
    → (set_status s uin ip port stat ≡ fault) ↔ (
        (uin < max_user)
        × (stat ≢ 0)
        × (s.user_map uin ≡ none)
        × ((i : ℕ) → i < max_online_user → (u : ℕ) × (s.user_map u ≡ some i)))
set_status-fault s uin ip port stat v = elim (set_status-case s uin ip port stat) [
  | inl (big, r) ↦ (λ h. cc, λ (small, _, _, _). absurd (omega arith))
  | inr (inl (_, _, i, e, r)) ↦ (λ h. cc, λ (_, _, off, _). cc)
  | inr (inr (inl (small, on, off, e, r))) ↦ (λ h. (small, on, off, all_used s v e), λ _. r)
  | inr (inr (inr (inl (small, on, i, rest, off, e, r)))) ↦
      (λ h. cc, λ (_, _, _, all). absurd (not_all i rest e all))
  | inr (inr (inr (inr (inl (_, gone, _, r))))) ↦ (λ h. cc, λ (_, on, _, _). absurd (on gone))
  | inr (inr (inr (inr (inr (_, gone, _, _, r))))) ↦ (λ h. cc, λ (_, on, _, _). absurd (on gone))
]
  where
    not_all :
        (i : ℕ) (rest : List ℕ)
        → s.free_list ≡ i ∷ rest
        → ¬ ((j : ℕ) → j < max_online_user → (u : ℕ) × (s.user_map u ≡ some j))
    not_all i rest e all =
        let free : has i s.free_list ≡ true = ground (arith, ap (has i) e, test_of_eq i i) in
        let (u, on) = all i (v.free_in i free) in ground (arith, v.not_free u i)

-- set_status refuses a uin of MAX_USER or more, and otherwise exactly a status that the user has.
pub set_status-failure :
    (s : Server) (uin ip port stat : ℕ)
    → (set_status s uin ip port stat ≡ failure) ↔ (
        (max_user ≤ uin)
        ⊎ ((stat ≢ 0) × ((i : ℕ) × (s.user_map uin ≡ some i)))
        ⊎ ((stat ≡ 0) × (s.user_map uin ≡ none)))
set_status-failure s uin ip port stat = elim (set_status-case s uin ip port stat) [
  | inl (big, r) ↦ (λ h. inl big, λ _. r)
  | inr (inl (_, on, i, e, r)) ↦ (λ h. inr (inl (on, (i, e))), λ _. r)
  | inr (inr (inl (small, on, off, e, r))) ↦ (λ h. cc, λ c. ground arith)
  | inr (inr (inr (inl (small, on, i, rest, off, e, r)))) ↦ (λ h. cc, λ c. ground arith)
  | inr (inr (inr (inr (inl (_, gone, off, r))))) ↦ (λ h. inr (inr (gone, off)), λ _. r)
  | inr (inr (inr (inr (inr (small, gone, i, e, r))))) ↦ (λ h. cc, λ c. ground arith)
]
