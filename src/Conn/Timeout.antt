-- ===== src/Conn/Timeout.antt =====
-- What timer_expire_time does to a client that shows no life.
use mini_im.Base.{
  ℕ, ◌+◌, ◌-◌, ◌%◌, ◌≤◌, ◌<◌, ◌≡◌, refl, sym, ap, ◌∙◌, none, some, arith, length, All, Option-cases,
  ◌⊎◌, inl, inr, test_of_ne,
}
use native.Mathlib.Decide.{dec_lt}
use mini_im.Connection.{Connection}
use mini_im.Timer.{Timer, get_timeout_list}
use mini_im.Timer.Sweep.{
  wheel, IsValid, ticked, swept, ticked-IsValid, timer_tick-ticked, get_timeout_list-swept,
  swept-IsValid,
}
use mini_im.Timer.Silence.{Waits, closed}
use mini_im.Timer.Deadline.{closed_early, closed_due}
use mini_im.Timer.Others.{Alike, Alike-IsValid, Alike-Waits, swept-Waits}
use mini_im.Conn.Hash.{HashOps}
use mini_im.Conn.State.{Server}
use mini_im.Conn.Events.{mark_alive_all, close_timed_out, timer_expire_time}
use mini_im.Conn.Sweeping.{
  IsSilent, mark_alive_all-Marked, close_timed_out-apart, close_timed_out-due,
}

module _ {M : Type 0} {Unique : M → Type 0} (h : HashOps M Unique) where
  -- The client after the round.
  abbrev pub Spared : Server M → (a k d : ℕ) → Connection → Type 0
  Spared s' a k d c =
      ((d < k) × (s'.conns a ≡ some c) × IsValid s'.timer × Waits s'.timer a (k - d))
      ⊎ ((k ≤ d) × (s'.conns a ≡ none))

  -- The sweep and what is closed, from the wheel as it was before the tick.
  sweep-Spared :
      (s s' : Server M) (t : Timer) (d a k : ℕ) (c : Connection)
      → IsValid t
      → Waits t a k
      → s.conns a ≡ some c
      → 0 < d
      → d < wheel
      → close_timed_out h
          (length (closed t d))
          (record s { timer = swept t d })
          ((t.current + 1) % wheel)
        ≡ some s'
      → Spared s' a k d c
  sweep-Spared s s' t d a k c v w live pos below e =
      let i = (t.current + 1) % wheel in
      let u = record s { timer = swept t d } in
      elim (dec_lt d k) [
        | yes before ↦
            let (same, alike) =
              close_timed_out-apart h (length (closed t d)) (closed t d) u s' i a refl
                (closed_early v d pos below w before) e in
            inl (
              before,
              same ∙ live,
              Alike-IsValid alike (swept-IsValid v d pos below),
              Alike-Waits alike (swept-Waits v d pos below w before),
            )
        | no due ↦ inr (
          omega arith,
          close_timed_out-due h (length (closed t d)) (closed t d) u s' i a refl
              (closed_due v d pos below w (omega arith)) (omega arith) e,
        )
      ]

  -- The round up to the sweep.
  expire_parts :
      (s s' : Server M) (d : ℕ)
      → IsValid s.timer
      → 0 < d
      → d < wheel
      → timer_expire_time h s d ≡ some s'
      → (alive : Server M) × (mark_alive_all h
            (record s { timer = ticked s.timer d })
            s.keep_alive_list
          ≡ some alive)
        × ((t : Timer)
            → ticked t d ≡ alive.timer
            → IsValid t
            → close_timed_out h
                (length (closed t d))
                (record alive { timer = swept t d })
                ((t.current + 1) % wheel)
              ≡ some s')
  unfolding timer_expire_time
  expire_parts s s' d v pos below e =
      elim (Option-cases
        (mark_alive_all h (record s { timer = ticked s.timer d }) s.keep_alive_list)) [
          | inl failed ↦ absurd (
              ground
                (arith, test_of_ne d 0 (omega arith), timer_tick-ticked v d pos below, failed, e))
          | inr (alive, marked) ↦ (
            alive,
            marked,
            λ t is valid.
                let sweeps : get_timeout_list alive.timer
                    ≡ some ((t.current + 1) % wheel, swept t d) =
                  ap get_timeout_list (sym is) ∙ get_timeout_list-swept valid d pos below in
                ground (
                  arith,
                  test_of_ne d 0 (omega arith),
                  timer_tick-ticked v d pos below,
                  marked,
                  sweeps,
                  e,
                ),
          )
        ]

-- A client in a round that makes no access to freed memory.
pub expired-Spared :
    {M : Type 0} {Unique : M → Type 0} (h : HashOps M Unique) (s s' : Server M) (d a k : ℕ)
    (c : Connection)
    → IsValid s.timer
    → Waits s.timer a k
    → s.conns a ≡ some c
    → All (IsSilent h s a) s.keep_alive_list
    → 0 < d
    → d < wheel
    → timer_expire_time h s d ≡ some s'
    → Spared h s' a k d c
expired-Spared h s s' d a k c v w live silent pos below e =
    let (alive, marked, sweeps) = expire_parts h s s' d v pos below e in
    let start = record s { timer = ticked s.timer d } in
    let m =
      mark_alive_all-Marked h s.keep_alive_list start alive a (ticked-IsValid v d pos below) silent
        marked in
    let t = record s.timer { timer_slots = alive.timer.timer_slots } in
    let alike : Alike a s.timer t = record {
      current_same = refl;
      prev_same = refl;
      max_same = refl;
      length_same = m.alike.length_same;
      seen = m.alike.seen;
    } in
    let is : ticked t d ≡ alive.timer =
      ground (arith, m.alike.current_same, m.alike.prev_same, m.alike.max_same) in
    let v' = Alike-IsValid alike v in
    sweep-Spared h alive s' t d a k c v' (Alike-Waits alike w) (ap (λ f. f a) m.conns_same ∙ live)
      pos below (sweeps t is v')
