-- ===== src/Status/Lookup.antt =====
-- What set_status does to the answers of get_status.
use mini_im.Base.{
  ℕ, ◌≤◌, ◌<◌, ◌≡◌, ◌≢◌, refl, sym, subst, ◌∙◌, ◌⊎◌, inl, inr, List, [], ◌∷◌, none, some, arith,
  Option-cases, test_of_eq, test_of_ne, leb_of_le, leb_of_gt,
}
use native.Mathlib.Decide.{ℕ_discrete, dec_lt}
use mini_im.Status.{
  Server, max_user, status_list_put, status_list_get, success, failure, fault, set_online,
  set_offline, set_status,
}
use mini_im.Status.Invariant.{IsValid, given, given-IsValid, returned, returned-IsValid}

pub List-cases {ℓ} : {A : Type ℓ} (l : List A) → (l ≡ []) ⊎ ((x : A) × (xs : List A) × (l ≡ x ∷ xs))
List-cases [] = inl refl
List-cases (x ∷ xs) = inr (x, xs, refl)

-- What set_online does, by what it finds.
abbrev OnlineCase : Server → (uin ip port : ℕ) → Type 0
OnlineCase s uin ip port =
    ((i : ℕ) × (s.user_map uin ≡ some i) × (set_online s uin ip port ≡ failure))
    ⊎ ((s.user_map uin ≡ none) × (s.free_list ≡ []) × (set_online s uin ip port ≡ fault))
    ⊎ ((i : ℕ) × (rest : List ℕ) × (s.user_map uin ≡ none)
        × (s.free_list ≡ i ∷ rest)
        × (set_online s uin ip port ≡ success (given s uin ip port i rest)))

set_online-case : (s : Server) (uin ip port : ℕ) → OnlineCase s uin ip port
unfolding set_online status_list_get
set_online-case s uin ip port = elim (Option-cases (s.user_map uin)) [
  | inr (i, e) ↦ inl (i, e, rw (e, set_online))
  | inl off ↦ elim (List-cases s.free_list) [
    | inl e ↦ inr (inl (off, e, rw (off, set_online) (rw (e, status_list_get))))
    | inr (i, rest, e) ↦ inr (inr (i, rest, off, e, rw (off, set_online) (rw (e, status_list_get))))
  ]
]

abbrev OfflineCase : Server → (uin : ℕ) → Type 0
OfflineCase s uin =
    ((s.user_map uin ≡ none) × (set_offline s uin ≡ failure))
    ⊎ ((i : ℕ) × (s.user_map uin ≡ some i) × (set_offline s uin ≡ success (returned s uin i)))

set_offline-case : (s : Server) (uin : ℕ) → OfflineCase s uin
unfolding set_offline status_list_put
set_offline-case s uin = elim (Option-cases (s.user_map uin)) [
  | inl off ↦ inl (off, rw (off, set_offline))
  | inr (i, e) ↦ inr (i, e, rw (e, set_offline))
]

-- All that set_status can do.
abbrev pub StatusCase : Server → (uin ip port stat : ℕ) → Type 0
StatusCase s uin ip port stat =
    ((max_user ≤ uin) × (set_status s uin ip port stat ≡ failure))
    ⊎ ((uin < max_user)
        × (stat ≢ 0)
        × (i : ℕ) × (s.user_map uin ≡ some i)
        × (set_status s uin ip port stat ≡ failure))
    ⊎ ((uin < max_user)
        × (stat ≢ 0)
        × (s.user_map uin ≡ none)
        × (s.free_list ≡ [])
        × (set_status s uin ip port stat ≡ fault))
    ⊎ ((uin < max_user)
        × (stat ≢ 0)
        × (i : ℕ) × (rest : List ℕ) × (s.user_map uin ≡ none)
        × (s.free_list ≡ i ∷ rest)
        × (set_status s uin ip port stat ≡ success (given s uin ip port i rest)))
    ⊎ ((uin < max_user)
        × (stat ≡ 0)
        × (s.user_map uin ≡ none)
        × (set_status s uin ip port stat ≡ failure))
    ⊎ ((uin < max_user)
        × (stat ≡ 0)
        × (i : ℕ) × (s.user_map uin ≡ some i)
        × (set_status s uin ip port stat ≡ success (returned s uin i)))

pub set_status-case : (s : Server) (uin ip port stat : ℕ) → StatusCase s uin ip port stat
unfolding set_status
set_status-case s uin ip port stat = elim (dec_lt uin max_user) [
  | no big ↦ inl (omega arith, rw (leb_of_le max_user uin (omega arith)))
  | yes small ↦ elim (ℕ_discrete stat 0) [
    | no on ↦ elim (set_online-case s uin ip port) [
      | inl (i, e, r) ↦ inr (inl (small, on, i, e, eq_online small on ∙ r))
      | inr (inl (off, e, r)) ↦ inr (inr (inl (small, on, off, e, eq_online small on ∙ r)))
      | inr (inr (i, rest, off, e, r)) ↦
          inr (inr (inr (inl (small, on, i, rest, off, e, eq_online small on ∙ r))))
    ]
    | yes gone ↦ elim (set_offline-case s uin) [
      | inl (off, r) ↦ inr (inr (inr (inr (inl (small, gone, off, eq_offline small gone ∙ r)))))
      | inr (i, e, r) ↦ inr (inr (inr (inr (inr (small, gone, i, e, eq_offline small gone ∙ r)))))
    ]
  ]
]
  where
    eq_online : uin < max_user → stat ≢ 0 → set_status s uin ip port stat ≡ set_online s uin ip port
    eq_online small on = rw (leb_of_gt max_user uin small, test_of_ne stat 0 on)

    eq_offline : uin < max_user → stat ≡ 0 → set_status s uin ip port stat ≡ set_offline s uin
    eq_offline small gone = rw (leb_of_gt max_user uin small, test_of_eq stat 0 gone)

-- A success from a valid state leads to a valid state.
pub set_status-IsValid :
    (s s' : Server) (uin ip port stat : ℕ)
    → IsValid s
    → set_status s uin ip port stat ≡ success s'
    → IsValid s'
set_status-IsValid s s' uin ip port stat v h = elim (set_status-case s uin ip port stat) [
  | inl (_, r) ↦ cc
  | inr (inl (_, _, _, _, r)) ↦ cc
  | inr (inr (inl (_, _, _, _, r))) ↦ cc
  | inr (inr (inr (inl (small, _, i, rest, off, e, r)))) ↦
      subst IsValid (success_injective (sym r ∙ h))
        (given-IsValid s v uin ip port i rest e off small)
  | inr (inr (inr (inr (inl (_, _, _, r))))) ↦ cc
  | inr (inr (inr (inr (inr (_, _, i, e, r))))) ↦
      subst IsValid (success_injective (sym r ∙ h)) (returned-IsValid s v uin ip port i e)
]
  where
    success_injective : {a b : Server} → success a ≡ success b → a ≡ b
    success_injective e = cc
