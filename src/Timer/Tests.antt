-- ===== src/Timer/Tests.antt =====
-- The theorems on the timer wheel at concrete rounds.
use mini_im.Base.{ℕ, ◌≡◌, refl, List, [], some, arith, length-replicate, ltb, has, get_or}
use mini_im.Timer.{Timer, timer_init, timer_tick, get_timeout_list, timer_mark_alive}
use mini_im.Timer.Sweep.{IsValid}
use mini_im.Timer.LateTick.{mark_alive_late}

timer_init-IsValid : IsValid timer_init
unfolding timer_init
timer_init-IsValid = record {
  slots = length-replicate {A = List ℕ} 121 [];
  max = refl;
  current_in = omega arith;
  prev_in = omega arith;
}

mark_alive_late_example :
    (ticked : Timer) × (i : ℕ) × (swept : Timer) × (timer_tick timer_init 2 ≡ some ticked)
    × (get_timeout_list (timer_mark_alive ticked 7) ≡ some (i, swept))
    × (has 7 (get_or swept.timer_slots i []) ≡ ltb 1 2)
mark_alive_late_example =
    mark_alive_late timer_init 2 7 timer_init-IsValid (omega arith) (omega arith)
