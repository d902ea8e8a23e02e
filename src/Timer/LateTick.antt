-- ===== src/Timer/LateTick.antt =====
-- A client that shows life in the round of a late tick.
use mini_im.Base.{
  ℕ, zero, suc, ◌+◌, ◌-◌, ◌%◌, ◌<◌, ◌≡◌, refl, sym, ap, ◌∙◌, List, [], ◌∷◌, map, some, arith,
  length, get_or, ltb, true, false, has, without, has-without_self,
}
use native.Mathlib.Decide.{dec_lt}
use mini_im.Timer.{Timer, timer_tick, get_timeout_list, timer_add, timer_del, timer_mark_alive}
use mini_im.Timer.Sweep.{
  wheel, IsValid, ticked, swept, timer_tick-ticked, get_timeout_list-swept, ticked-IsValid,
}
use mini_im.Timer.Silence.{
  IsAbsent, slot_in, closed, has-gather, has-gather-true, timer_add-Waits, timer_add-IsValid, Waits,
  closed-gather,
}

pub get_or-map-without :
    (c : ℕ) (slots : List (List ℕ)) (j : ℕ)
    → get_or (map (without c) slots) j [] ≡ without c (get_or slots j [])
get_or-map-without c [] j = refl
get_or-map-without c (s ∷ slots) zero = refl
get_or-map-without c (s ∷ slots) (suc j) = get_or-map-without c slots j

pub length-map-without :
    (c : ℕ) (slots : List (List ℕ)) → length (map (without c) slots) ≡ length slots
length-map-without c [] = refl
length-map-without c (s ∷ slots) = ap suc (length-map-without c slots)

pub timer_del-IsAbsent : (t : Timer) (c : ℕ) → IsAbsent (timer_del t c) c
unfolding timer_del
timer_del-IsAbsent t c j =
    ap (has c) (get_or-map-without c t.timer_slots j)
    ∙ has-without_self c (get_or t.timer_slots j [])

pub timer_del-IsValid : (t : Timer) (c : ℕ) → IsValid t → IsValid (timer_del t c)
unfolding timer_del
timer_del-IsValid t c v = record {
  slots = length-map-without c t.timer_slots ∙ v.slots;
  max = v.max;
  current_in = v.current_in;
  prev_in = v.prev_in;
}

pub timer_mark_alive-Waits : (t : Timer) (c : ℕ) → IsValid t → Waits (timer_mark_alive t c) c 120
unfolding timer_mark_alive
timer_mark_alive-Waits t c v =
    timer_add-Waits (timer_del t c) c (timer_del-IsValid t c v) (timer_del-IsAbsent t c)

pub timer_mark_alive-IsValid : (t : Timer) (c : ℕ) → IsValid t → IsValid (timer_mark_alive t c)
unfolding timer_mark_alive
timer_mark_alive-IsValid t c v = timer_add-IsValid (timer_del t c) c (timer_del-IsValid t c v)

-- The wheel before the tick, with the slots as they are after the connection was marked.
abbrev before : Timer → ℕ → ℕ → Timer
before t d c = record t { timer_slots = (timer_mark_alive (ticked t d) c).timer_slots }

module _ (t : Timer) (d c : ℕ) (v : IsValid t) (pos : 0 < d) (below : d < wheel) where
  before-IsValid : IsValid (before t d c)
  before-IsValid = record {
    slots = (timer_mark_alive-IsValid (ticked t d) c (ticked-IsValid v d pos below)).slots;
    max = v.max;
    current_in = v.current_in;
    prev_in = v.prev_in;
  }

  same : timer_mark_alive (ticked t d) c ≡ ticked (before t d c) d
  unfolding timer_mark_alive timer_add timer_del
  same = refl

  marked : Waits (timer_mark_alive (ticked t d) c) c 120
  marked = timer_mark_alive-Waits (ticked t d) c (ticked-IsValid v d pos below)

  -- The slot of index `j` of the marked wheel, by its distance from the new current slot.
  at :
      (j k : ℕ)
      → ((t.current + d) % wheel + k) % wheel ≡ j % wheel
      → has c (get_or (before t d c).timer_slots (j % wheel) [])
        ≡ has c (slot_in (timer_mark_alive (ticked t d) c) k)
  unfolding timer_mark_alive timer_add timer_del
  at j k e = ap (λ i. has c (get_or (before t d c).timer_slots i [])) (sym e)

  closed_late : 1 < d → has c (closed (before t d c) d) ≡ true
  closed_late late =
      ap (has c) (closed-gather before-IsValid d pos below)
      ∙ has-gather-true c (before t d c).timer_slots d (t.current + 1) (t.current + (d - 1))
          (omega arith) (omega arith) (at (t.current + (d - 1)) 120 (omega arith) ∙ marked.here)

  closed_on_time : d ≡ 1 → has c (closed (before t d c) d) ≡ false
  closed_on_time e =
      ap (has c) (closed-gather before-IsValid d pos below)
      ∙ has-gather c (before t d c).timer_slots d (t.current + 1) λ j p q.
        at j 121 (omega arith) ∙ marked.only 121 (omega arith) (omega arith) (omega arith)

-- In a round whose tick is of `d` seconds, timer_expire_time marks a connection alive after the
-- tick and before it takes the timeout list. From a valid wheel no assert fails, and the
-- connection is on the timeout list all the same exactly if `d` is 2 or more.
pub mark_alive_late :
    (t : Timer) (d c : ℕ)
    → IsValid t
    → 0 < d
    → d < wheel
    → (ticked : Timer) × (i : ℕ) × (swept : Timer) × (timer_tick t d ≡ some ticked)
      × (get_timeout_list (timer_mark_alive ticked c) ≡ some (i, swept))
      × (has c (get_or swept.timer_slots i []) ≡ ltb 1 d)
mark_alive_late t d c v pos below = (
  ticked t d,
  (t.current + 1) % wheel,
  swept (before t d c) d,
  timer_tick-ticked v d pos below,
  ap get_timeout_list (same t d c v pos below)
      ∙ get_timeout_list-swept (before-IsValid t d c v pos below) d pos below,
  elim (dec_lt 1 d) [
    | yes late ↦ closed_late t d c v pos below late ∙ ground arith
    | no soon ↦ closed_on_time t d c v pos below (omega arith) ∙ ground arith
  ],
)
