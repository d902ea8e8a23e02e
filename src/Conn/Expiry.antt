-- ===== src/Conn/Expiry.antt =====
-- A round of timer_expire_time makes no access to a freed connection.
use mini_im.Base.{
  ℕ, zero, suc, ◌+◌, ◌%◌, ◌<◌, ◌≡◌, ◌≢◌, refl, sym, subst, ap, ◌∙◌, List, [], ◌∷◌, ◌++◌, none, some,
  false, arith, length, get_or, set, has, has-append, Option-cases, inl, inr, test_of_ne,
  test_of_eq, ◌-◌, Option, All,
}
use native.Mathlib.Decide.{ℕ_discrete}
use mini_im.Protocol.{client_timeout}
use mini_im.Connection.{Connection, conn_init}
use mini_im.Packet.{Packet, get_uin}
use mini_im.Timer.{Timer, get_timeout_list, timer_del, timer_mark_alive, splice_slot, splice_slots}
use mini_im.Timer.Sweep.{
  wheel, IsValid, ticked, swept, ticked-IsValid, timer_tick-ticked, get_timeout_list-swept,
}
use mini_im.Timer.Silence.{IsAbsent, Waits, timer_add-IsValid, timer_add-Waits}
use mini_im.Timer.LateTick.{timer_del-IsAbsent}
use mini_im.Timer.Others.{
  Alike, Alike-IsValid, timer_add-Alike, timer_del-Alike, timer_mark_alive-Alike,
}
use mini_im.Conn.Hash.{HashOps}
use mini_im.Conn.State.{Server, get_conn_by_uin}
use mini_im.Conn.Send.{close_connection, send_offline_to_status, free_packet}
use mini_im.Conn.Live.{Leads}
use mini_im.Conn.Events.{accept_client, mark_alive_all, close_timed_out, timer_expire_time}
use mini_im.Conn.Sweeping.{slot, Closed, close-Closed, IsSilent}
use mini_im.Conn.Timeout.{Spared, expired-Spared}

-- Where a write leaves an absent number absent.
get_or-set-absent :
    (c : ℕ) (slots : List (List ℕ)) (i j : ℕ) (l : List ℕ)
    → ((k : ℕ) → has c (get_or slots k []) ≡ false)
    → has c l ≡ false
    → has c (get_or (set slots i l) j []) ≡ false
get_or-set-absent c [] i j l out in_l = refl
get_or-set-absent c (x ∷ xs) zero zero l out in_l = in_l
get_or-set-absent c (x ∷ xs) zero (suc j) l out in_l = out (suc j)
get_or-set-absent c (x ∷ xs) (suc i) zero l out in_l = out zero
get_or-set-absent c (x ∷ xs) (suc i) (suc j) l out in_l =
    get_or-set-absent c xs i j l (λ k. out (suc k)) in_l

splice_slots-absent :
    (c m n i to : ℕ) (slots : List (List ℕ))
    → ((k : ℕ) → has c (get_or slots k []) ≡ false)
    → (j : ℕ) → has c (get_or (splice_slots m n i to slots) j []) ≡ false
unfolding splice_slots
splice_slots-absent c m zero i to slots out j = out j
splice_slots-absent c m (suc n) i to slots out j =
    let moved = get_or slots to [] ++ get_or slots (i % m) [] in
    splice_slots-absent c m n (suc i) to (splice_slot slots (i % m) to)
      (λ k.
        get_or-set-absent c (set slots to moved) (i % m) k []
          (λ k'. get_or-set-absent c slots to k' moved out (
            ground (
              arith,
              has-append c (get_or slots to []) (get_or slots (i % m) []),
              out to,
              out (i % m),
            )))
          refl)
      j

-- A connection that has been freed stands in no slot.
abbrev pub IsRooted : {M : Type 0} → Server M → Type 0
IsRooted s = (b : ℕ) → s.conns b ≡ none → IsAbsent s.timer b

Alike-IsAbsent : {c : ℕ} {t t' : Timer} → Alike c t t' → IsAbsent t c → IsAbsent t' c
Alike-IsAbsent p out j = p.seen j ∙ out j

no_both : {A : Type 0} {o : Option A} {a : A} → o ≡ some a → o ≡ none → ⊥
no_both e f = absurd cc

module _ {M : Type 0} {Unique : M → Type 0} (h : HashOps M Unique) where
  -- The keep-alive packets of live clients.
  mark_alive_all-total :
      (ps : List Packet) (s : Server M)
      → IsValid s.timer
      → IsRooted s
      → Leads h s.uin_conn_map s.conns (λ c. c.uin)
      → (s' : Server M) × (mark_alive_all h s ps ≡ some s')
        × IsRooted s'
        × IsValid s'.timer
        × (s'.timer.current ≡ s.timer.current)
        × (s'.timer.prev ≡ s.timer.prev)
        × (s'.timer.max_slots ≡ s.timer.max_slots)
  unfolding mark_alive_all get_conn_by_uin
  mark_alive_all-total [] s v rooted leads = (s, refl, rooted, v, refl, refl, refl)
  mark_alive_all-total (p ∷ ps) s v rooted leads =
      let t = record (free_packet s) { keep_alive_list = ps } in
      elim (Option-cases (h.find s.uin_conn_map (get_uin p))) [
        | inl missing ↦
            let (s', run, r, v', cur, prev, max) = mark_alive_all-total ps t v rooted leads in
            (s', ground (arith, missing, run), r, v', cur, prev, max)
        | inr (b, found) ↦
            let (c, live, keyed) = leads (get_uin p) b found in
            let u = record t { timer = timer_mark_alive s.timer b } in
            let away : (a : ℕ) → s.conns a ≡ none → b ≢ a =
              λ a freed z. ground (arith, live, freed, ap s.conns z) in
            let rooted' : IsRooted u = λ a freed.
              Alike-IsAbsent (timer_mark_alive-Alike s.timer b a (away a freed) v)
                (rooted a freed) in
            let apart : b ≢ suc b = λ z. omega arith in
            let alike = timer_mark_alive-Alike s.timer b (suc b) apart v in
            let (s', run, r, v', cur, prev, max) =
              mark_alive_all-total ps u (Alike-IsValid alike v) rooted' leads in
            (
              s',
              ground (arith, found, live, run),
              r,
              v',
              cur ∙ alike.current_same,
              prev ∙ alike.prev_same,
              max ∙ alike.max_same,
            )
      ]

  close_total :
      (s : Server M) (uin b : ℕ)
      → s.conns b ≢ none
      → (s' : Server M) × (close_connection h (send_offline_to_status s uin) b ≡ some s')
  unfolding close_connection send_offline_to_status
  close_total s uin b live =
      elim (Option-cases (close_connection h (send_offline_to_status s uin) b)) [
        | inl failed ↦ absurd (live (ground (arith, failed)))
        | inr found ↦ found
      ]

  Closed-IsRooted : (s s₁ : Server M) (b : ℕ) → IsRooted s → Closed h b s s₁ → IsRooted s₁
  Closed-IsRooted s s₁ b rooted q a freed = elim (ℕ_discrete b a) [
    | yes same ↦
        subst (λ t. IsAbsent t a) (sym q.timer_is)
          (subst (λ n. IsAbsent (timer_del s.timer b) n) same (timer_del-IsAbsent s.timer b))
    | no ne ↦
        subst (λ t. IsAbsent t a) (sym q.timer_is)
          (Alike-IsAbsent (timer_del-Alike s.timer b a ne) (rooted a (sym (q.others a ne) ∙ freed)))
  ]

  close_timed_out-total :
      (rounds : ℕ) (l : List ℕ) (s : Server M) (i : ℕ)
      → IsRooted s
      → slot s i ≡ l
      → (s' : Server M) × (close_timed_out h rounds s i ≡ some s') × IsRooted s'
  unfolding close_timed_out
  close_timed_out-total zero l s i rooted is = (s, refl, rooted)
  close_timed_out-total (suc rounds) [] s i rooted is = (s, ground (arith, is), rooted)
  close_timed_out-total (suc rounds) (b ∷ rest) s i rooted is = elim (Option-cases (s.conns b)) [
    | inl freed ↦ absurd (ground (arith, rooted b freed i, is, ap (has b) is, test_of_eq b b refl))
    | inr (c, live) ↦
        let (s₁, run) = close_total s c.uin b (λ z. absurd (no_both live z)) in
        let q = close-Closed h s s₁ c.uin b run in
        let (s', more, rooted') =
          close_timed_out-total rounds (slot s₁ i) s₁ i (Closed-IsRooted s s₁ b rooted q) refl in
        (s', ground (arith, is, live, run, more), rooted')
  ]

  -- A round of the timer, on a wheel and maps that lead to live connections only.
  timer_expire_time-total :
      (s : Server M) (d : ℕ)
      → IsValid s.timer
      → IsRooted s
      → Leads h s.uin_conn_map s.conns (λ c. c.uin)
      → 0 < d
      → d < wheel
      → (s' : Server M) × (timer_expire_time h s d ≡ some s') × IsRooted s'
  unfolding timer_expire_time
  timer_expire_time-total s d v rooted leads pos below =
      let start = record s { timer = ticked s.timer d } in
      let (alive, marked, rooted', v', cur, prev, max) =
        mark_alive_all-total s.keep_alive_list start (ticked-IsValid v d pos below) rooted leads in
      let t = record s.timer { timer_slots = alive.timer.timer_slots } in
      let is : ticked t d ≡ alive.timer = ground (arith, cur, prev, max) in
      let valid : IsValid t = record {
        slots = v'.slots;
        max = v.max;
        current_in = v.current_in;
        prev_in = v.prev_in;
      } in
      let sweeps : get_timeout_list alive.timer ≡ some ((t.current + 1) % wheel, swept t d) =
        ap get_timeout_list (sym is) ∙ get_timeout_list-swept valid d pos below in
      let u = record alive { timer = swept t d } in
      let rooted_u : IsRooted u = λ b freed.
        splice_slots-absent b wheel (d - 1) (suc (t.current + 1)) ((t.current + 1) % wheel)
          alive.timer.timer_slots (rooted' b freed) in
      let (s', run, r) =
        close_timed_out-total (length (get_or (swept t d).timer_slots ((t.current + 1) % wheel) []))
          (get_or (swept t d).timer_slots ((t.current + 1) % wheel) []) u ((t.current + 1) % wheel)
          rooted_u refl in
      (
        s',
        ground (
          arith,
          test_of_ne d 0 (omega arith),
          timer_tick-ticked v d pos below,
          marked,
          sweeps,
          run,
        ),
        r,
      )

-- A round of timer_expire_time that sees `d` seconds go by, in a state whose map of the uins leads to
-- live connections and whose wheel names no freed one, makes no access to freed memory and leaves the
-- wheel so. For a client that stands in the slot `k` seconds ahead and in no other, and of whom no
-- keep-alive packet waits: if fewer seconds went by than are ahead, its connection stays as it is and
-- stands in the slot `k - d` seconds ahead and in no other; else it is closed. This holds whoever else
-- is marked alive or closed in the round.
pub timer_expire_time-Spared :
    {M : Type 0} {Unique : M → Type 0} (h : HashOps M Unique) (s : Server M) (d a k : ℕ)
    (c : Connection)
    → IsValid s.timer
    → IsRooted s
    → Leads h s.uin_conn_map s.conns (λ c. c.uin)
    → Waits s.timer a k
    → s.conns a ≡ some c
    → All (IsSilent h s a) s.keep_alive_list
    → 0 < d
    → d < wheel
    → (s' : Server M) × (timer_expire_time h s d ≡ some s') × IsRooted s' × Spared h s' a k d c
timer_expire_time-Spared h s d a k c v rooted leads w live silent pos below =
    let (s', run, rooted') = timer_expire_time-total h s d v rooted leads pos below in
    (s', run, rooted', expired-Spared h s s' d a k c v w live silent pos below run)

-- A client that accept_handler takes in at an address that is free, and then a round of
-- timer_expire_time that sees `d` seconds go by with no keep-alive packet of this client, in a state
-- as above: the round makes no access to freed memory. If `d` is below CLIENT_TIMEOUT, the connection
-- stays as it is and stands in the slot that is as many seconds ahead as are left, and in no other;
-- else it is closed.
pub accept_client-Spared :
    {M : Type 0} {Unique : M → Type 0} (h : HashOps M Unique) (s : Server M) (fd a d : ℕ)
    → IsValid s.timer
    → IsRooted s
    → Leads h s.uin_conn_map s.conns (λ c. c.uin)
    → s.conns a ≡ none
    → All (IsSilent h (accept_client h s fd a) a) s.keep_alive_list
    → 0 < d
    → d < wheel
    → (s' : Server M) × (timer_expire_time h (accept_client h s fd a) d ≡ some s')
      × Spared h s' a client_timeout d (record conn_init { sfd = fd })
unfolding accept_client
accept_client-Spared h s fd a d v rooted leads free silent pos below =
    let t = accept_client h s fd a in
    let rooted' : IsRooted t = λ b freed. elim (ℕ_discrete a b) [
      | yes same ↦ absurd (ground (arith, same, freed))
      | no ne ↦
          Alike-IsAbsent (timer_add-Alike s.timer a b ne v)
            (rooted b (ground (arith, test_of_ne a b ne, freed)))
    ] in
    let leads' : Leads h t.uin_conn_map t.conns (λ c. c.uin) = λ k b found.
      let (c, live, keyed) = leads k b found in
      let ne : a ≢ b = λ z. no_both live (ap s.conns (sym z) ∙ free) in
      (c, rw (test_of_ne a b ne) live, keyed) in
    let (s', run, _, spared) =
      timer_expire_time-Spared h t d a client_timeout (record conn_init { sfd = fd })
        (timer_add-IsValid s.timer a v) rooted' leads' (timer_add-Waits s.timer a v (rooted a free))
        (rw (test_of_eq a a refl) refl) silent pos below in
    (s', run, spared)
