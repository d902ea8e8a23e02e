-- ===== src/Timer/Deadline.antt =====
-- The time at which a silent connection is closed.
use mini_im.Base.{
  ℕ, ◌+◌, ◌-◌, ◌%◌, ◌≤◌, ◌<◌, ◌≡◌, sym, ap, ◌∙◌, [], arith, get_or, true, false, has,
}
use native.Mathlib.Decide.{dec_lt}
use mini_im.Timer.{Timer}
use mini_im.Timer.Sweep.{wheel, IsValid}
use mini_im.Timer.Silence.{
  Waits, slot_in, closed, rest, has-gather, has-gather-true, closed-gather, rest-later, rest-gone,
}

module _ {t : Timer} (v : IsValid t) (d : ℕ) (pos : 0 < d) (below : d < wheel) {c k : ℕ}
    (w : Waits t c k) where
  -- A slot `j` seconds ahead, written from the index that the sweep starts at.
  pub closed_early : d < k → has c (closed t d) ≡ false
  closed_early before =
      ap (has c) (closed-gather v d pos below)
      ∙ has-gather c t.timer_slots d (t.current + 1) λ j p q.
        let e : t.current + (j - t.current) ≡ j = omega arith in
        ap (λ n. has c (get_or t.timer_slots (n % wheel) [])) (sym e)
        ∙ w.only (j - t.current) (omega arith) (omega arith) (omega arith)

  pub closed_due : k ≤ d → has c (closed t d) ≡ true
  closed_due due =
      ap (has c) (closed-gather v d pos below)
      ∙ has-gather-true c t.timer_slots d (t.current + 1) (t.current + k) (omega (arith, w.ahead))
          (omega arith) w.here

  pub rest-Waits : d < k → Waits (rest t d) c (k - d)
  rest-Waits before = record {
    ahead = omega arith;
    within = omega (arith, w.within);
    here = ap (has c) (rest-later v d pos below k before (omega (arith, w.within))) ∙ w.here;
    only = λ j p q ne. elim (dec_lt wheel (j + d)) [
      | yes past ↦
          let e : ((t.current + d) % wheel + j) % wheel ≡ (t.current + (j + d - wheel)) % wheel =
            omega arith in
          ap (λ i. has c (get_or (rest t d).timer_slots i [])) e
          ∙ ap (has c) (rest-gone v d pos below (j + d - wheel) (omega arith) (omega arith))
      | no near ↦
          let e : j + d - d ≡ j = omega arith in
          ap (λ i. has c (slot_in (rest t d) i)) (sym e)
          ∙ ap (has c) (rest-later v d pos below (j + d) (omega arith) (omega arith))
          ∙ w.only (j + d) (omega arith) (omega arith) (omega arith)
    ];
  }
