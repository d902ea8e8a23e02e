-- ===== src/Conn/Sweeping.antt =====
-- The two loops of timer_expire_time, for one connection.
use mini_im.Base.{
  ℕ, zero, suc, ◌≤◌, ◌≡◌, ◌≢◌, refl, sym, subst, ap, ◌∙◌, List, [], ◌∷◌, none, some, true, false,
  arith, length, get_or, All, has, without, has-without_ne, Option-cases, inl, inr, test_of_ne,
}
use native.Mathlib.Decide.{ℕ_discrete}
use mini_im.Packet.{Packet, get_uin}
use mini_im.Timer.{timer_del, timer_mark_alive}
use mini_im.Timer.Sweep.{IsValid}
use mini_im.Timer.LateTick.{get_or-map-without}
use mini_im.Timer.Others.{
  Alike, Alike-refl, Alike-trans, Alike-IsValid, timer_del-Alike, timer_mark_alive-Alike,
}
use mini_im.Conn.Hash.{HashOps}
use mini_im.Conn.State.{Server, get_conn_by_uin}
use mini_im.Conn.Send.{close_connection, send_offline_to_status, free_packet}
use mini_im.Conn.Events.{mark_alive_all, close_timed_out}

-- The slot that close_timed_out empties.
abbrev pub slot : {M : Type 0} → Server M → ℕ → List ℕ
slot s i = get_or s.timer.timer_slots i []

length-without : (b : ℕ) (xs : List ℕ) → length (without b xs) ≤ length xs
length-without b [] = omega arith
length-without b (x ∷ xs) = ground (arith, length-without b xs)

without_head : (b : ℕ) (xs : List ℕ) → without b (b ∷ xs) ≡ without b xs
without_head b xs = ground arith

some_injective : {A : Type 0} {a b : A} → some a ≡ some b → a ≡ b
some_injective e = cc

module _ {M : Type 0} {Unique : M → Type 0} (h : HashOps M Unique) where
  -- The client is not among those whose keep-alive packets came.
  abbrev pub IsSilent : Server M → ℕ → Packet → Type 0
  IsSilent s a p = h.find s.uin_conn_map (get_uin p) ≢ some a

  pub record Marked (a : ℕ) (s s' : Server M) : Type 0 where
    pub conns_same : s'.conns ≡ s.conns
    pub alike : Alike a s.timer s'.timer

  pub mark_alive_all-Marked :
      (ps : List Packet) (s s' : Server M) (a : ℕ)
      → IsValid s.timer
      → All (IsSilent s a) ps
      → mark_alive_all h s ps ≡ some s'
      → Marked a s s'
  unfolding mark_alive_all get_conn_by_uin
  mark_alive_all-Marked [] s s' a v silent e =
      let same : s ≡ s' = some_injective e in
      subst (Marked a s) same (record { conns_same = refl; alike = Alike-refl a s.timer })
  mark_alive_all-Marked (p ∷ ps) s s' a v (quiet, silent) e =
      let t = record (free_packet s) { keep_alive_list = ps } in
      elim (Option-cases (h.find s.uin_conn_map (get_uin p))) [
        | inl missing ↦
            let m = mark_alive_all-Marked ps t s' a v silent (ground (arith, missing, e)) in
            record { conns_same = m.conns_same; alike = m.alike }
        | inr (b, found) ↦
            let ne : b ≢ a = λ q. quiet (found ∙ ap some q) in
            let p₁ = timer_mark_alive-Alike s.timer b a ne v in
            let u = record t { timer = timer_mark_alive s.timer b } in
            elim (Option-cases (s.conns b)) [
              | inl freed ↦ absurd (ground (arith, found, freed, e))
              | inr (c, live) ↦
                  let m =
                    mark_alive_all-Marked ps u s' a (Alike-IsValid p₁ v) silent
                      (ground (arith, found, live, e)) in
                  record { conns_same = m.conns_same; alike = Alike-trans p₁ m.alike }
            ]
      ]

  -- One round of the loop over the slot: its first connection is closed.
  pub record Closed (b : ℕ) (s s' : Server M) : Type 0 where
    pub gone : s'.conns b ≡ none
    pub others : (a : ℕ) → b ≢ a → s'.conns a ≡ s.conns a
    pub timer_is : s'.timer ≡ timer_del s.timer b

  pub close-Closed :
      (s s' : Server M) (uin b : ℕ)
      → close_connection h (send_offline_to_status s uin) b ≡ some s'
      → Closed b s s'
  unfolding close_connection send_offline_to_status
  close-Closed s s' uin b e = elim (Option-cases (s.conns b)) [
    | inl freed ↦ absurd (ground (arith, freed, e))
    | inr (c, live) ↦ record {
      gone = ground (arith, live, e);
      others = λ a ne. ground (arith, live, e);
      timer_is = ground (arith, live, e);
    }
  ]

  close_round :
      (rounds : ℕ) (s s' : Server M) (i b : ℕ) (rest : List ℕ)
      → slot s i ≡ b ∷ rest
      → close_timed_out h (suc rounds) s i ≡ some s'
      → (s₁ : Server M) × Closed b s s₁ × (close_timed_out h rounds s₁ i ≡ some s')
  unfolding close_timed_out
  close_round rounds s s' i b rest front e = elim (Option-cases (s.conns b)) [
    | inl freed ↦ absurd (ground (arith, front, freed, e))
    | inr (c, live) ↦ elim (Option-cases (close_connection h (send_offline_to_status s c.uin) b)) [
      | inl failed ↦ absurd (ground (arith, front, live, failed, e))
      | inr (s₁, run) ↦ (s₁, close-Closed s s₁ c.uin b run, ground (arith, front, live, run, e))
    ]
  ]

  close_none :
      (rounds : ℕ) (s s' : Server M) (i : ℕ)
      → slot s i ≡ []
      → close_timed_out h rounds s i ≡ some s'
      → s ≡ s'
  unfolding close_timed_out
  close_none zero s s' i empty e = some_injective e
  close_none (suc rounds) s s' i empty e = ground (arith, empty, e)

  close_zero : (s s' : Server M) (i : ℕ) → close_timed_out h zero s i ≡ some s' → s ≡ s'
  unfolding close_timed_out
  close_zero s s' i e = some_injective e

  -- The slot after a round.
  slot_after :
      (s s₁ : Server M) (i b : ℕ) (rest : List ℕ)
      → slot s i ≡ b ∷ rest
      → Closed b s s₁
      → slot s₁ i ≡ without b rest
  unfolding timer_del
  slot_after s s₁ i b rest front q =
      ap (λ t. get_or t.timer_slots i []) q.timer_is
      ∙ get_or-map-without b s.timer.timer_slots i
      ∙ ap (without b) front
      ∙ without_head b rest

  -- A connection that is not in the slot stays.
  pub close_timed_out-apart :
      (rounds : ℕ) (l : List ℕ) (s s' : Server M) (i a : ℕ)
      → slot s i ≡ l
      → has a l ≡ false
      → close_timed_out h rounds s i ≡ some s'
      → (s'.conns a ≡ s.conns a) × Alike a s.timer s'.timer
  close_timed_out-apart zero l s s' i a is out e =
      subst (λ (t : Server M). (t.conns a ≡ s.conns a) × Alike a s.timer t.timer)
        (close_zero s s' i e) (refl, Alike-refl a s.timer)
  close_timed_out-apart (suc rounds) [] s s' i a is out e =
      subst (λ (t : Server M). (t.conns a ≡ s.conns a) × Alike a s.timer t.timer)
        (close_none (suc rounds) s s' i is e) (refl, Alike-refl a s.timer)
  close_timed_out-apart (suc rounds) (b ∷ rest) s s' i a is out e =
      let (s₁, q, e₁) = close_round rounds s s' i b rest is e in
      let ne : b ≢ a = λ z. ground (arith, out, z) in
      let out₁ : has a (without b rest) ≡ false =
        has-without_ne b a rest ne ∙ ground (arith, out) in
      let (same, alike) =
        close_timed_out-apart rounds (without b rest) s₁ s' i a (slot_after s s₁ i b rest is q) out₁
          e₁ in
      (
        same ∙ q.others a ne,
        Alike-trans (subst (Alike a s.timer) (sym q.timer_is) (timer_del-Alike s.timer b a ne))
            alike,
      )

  -- One that has been freed stays so.
  close_timed_out-freed :
      (rounds : ℕ) (l : List ℕ) (s s' : Server M) (i a : ℕ)
      → slot s i ≡ l
      → s.conns a ≡ none
      → close_timed_out h rounds s i ≡ some s'
      → s'.conns a ≡ none
  close_timed_out-freed zero l s s' i a is freed e =
      subst (λ (t : Server M). t.conns a ≡ none) (close_zero s s' i e) freed
  close_timed_out-freed (suc rounds) [] s s' i a is freed e =
      subst (λ (t : Server M). t.conns a ≡ none) (close_none (suc rounds) s s' i is e) freed
  close_timed_out-freed (suc rounds) (b ∷ rest) s s' i a is freed e =
      let (s₁, q, e₁) = close_round rounds s s' i b rest is e in
      let freed₁ : s₁.conns a ≡ none = elim (ℕ_discrete b a) [
        | yes same ↦ subst (λ n. s₁.conns n ≡ none) same q.gone
        | no ne ↦ q.others a ne ∙ freed
      ] in
      close_timed_out-freed rounds (without b rest) s₁ s' i a (slot_after s s₁ i b rest is q) freed₁
        e₁

  -- One that is in the slot is freed.
  pub close_timed_out-due :
      (rounds : ℕ) (l : List ℕ) (s s' : Server M) (i a : ℕ)
      → slot s i ≡ l
      → has a l ≡ true
      → length l ≤ rounds
      → close_timed_out h rounds s i ≡ some s'
      → s'.conns a ≡ none
  close_timed_out-due rounds [] s s' i a is due enough e = absurd cc
  close_timed_out-due zero (b ∷ rest) s s' i a is due enough e = absurd (omega arith)
  close_timed_out-due (suc rounds) (b ∷ rest) s s' i a is due enough e =
      let (s₁, q, e₁) = close_round rounds s s' i b rest is e in
      let is₁ = slot_after s s₁ i b rest is q in
      elim (ℕ_discrete b a) [
        | yes same ↦
            close_timed_out-freed rounds (without b rest) s₁ s' i a is₁
              (subst (λ n. s₁.conns n ≡ none) same q.gone) e₁
        | no ne ↦
            close_timed_out-due rounds (without b rest) s₁ s' i a is₁
              (has-without_ne b a rest ne ∙ ground (arith, due, test_of_ne b a ne))
              (omega (arith, length-without b rest)) e₁
      ]
