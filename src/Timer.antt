-- ===== src/Timer.antt =====
-- The timer wheel of include/conn_timer.h and conn/conn_timer.c: a ring of slots, each the list of
-- the connections that time out together. A connection is named by a number, its address.
-- `none` is a failed assert, which ends the process.
pub mod Sweep
pub mod Silence
pub mod Deadline
pub mod LateTick
pub mod Others
mod Tests
use mini_im.Base.{
  ℕ, zero, suc, ◌+◌, ◌-◌, ◌%◌, ◌<◌, List, [], ◌∷◌, ◌++◌, map, Option, none, some, ltb, leb, ◌==◌,
  if◌then◌else◌, get_or, set, replicate, without,
}
use mini_im.Protocol.{client_timeout}

-- struct conn_timer
pub record Timer : Type 0 where
  pub timer_slots : List (List ℕ)
  pub prev : ℕ
  pub current : ℕ
  pub max_slots : ℕ

-- timer_init; the interval timer and the signal handler that it sets up are not part of the state.
unfoldable pub timer_init : Timer
timer_init = record {
  timer_slots = replicate (client_timeout + 1) [];
  prev = 0;
  current = 0;
  max_slots = client_timeout + 1;
}

unfoldable pub timer_tick : Timer → ℕ → Option Timer
timer_tick t interval =
    if ltb interval t.max_slots
    then some (record t { prev = t.current; current = (t.current + interval) % t.max_slots })
    else none

-- list_splice_tail_init(&slots[from], &slots[to]) of two different slots.
abbrev pub splice_slot : List (List ℕ) → ℕ → ℕ → List (List ℕ)
splice_slot slots from to = set (set slots to (get_or slots to [] ++ get_or slots from [])) from []

-- The loop of get_timeout_list: `n` rounds from index `i` on, into the slot `to`.
unfoldable pub splice_slots : ℕ → ℕ → ℕ → ℕ → List (List ℕ) → List (List ℕ)
splice_slots max zero i to slots = slots
splice_slots max (suc n) i to slots = splice_slots max n (suc i) to (splice_slot slots (i % max) to)

-- The slot that holds all that has timed out since the last tick.
unfoldable pub get_timeout_list : Timer → Option (ℕ × Timer)
get_timeout_list t =
    let start = t.prev + 1 in
    let end = if ltb t.prev t.current then t.current else t.current + t.max_slots in
    let ret_head = start % t.max_slots in
    let slots = splice_slots t.max_slots (end - start) (suc start) ret_head t.timer_slots in
    if ltb t.current t.max_slots then some (ret_head, record t { timer_slots = slots }) else none

-- The slot that a connection is put into.
abbrev pub insert_index : Timer → ℕ
insert_index t = if t.current == 0 then t.max_slots - 1 else t.current - 1

unfoldable pub timer_add : Timer → ℕ → Timer
timer_add t conn =
    let i = insert_index t in
    record t { timer_slots = set t.timer_slots i (get_or t.timer_slots i [] ++ conn ∷ []) }

-- list_del unlinks the connection from the list that it stands in, whichever that is.
unfoldable pub timer_del : Timer → ℕ → Timer
timer_del t conn = record t { timer_slots = map (without conn) t.timer_slots }

unfoldable pub timer_mark_alive : Timer → ℕ → Timer
timer_mark_alive t conn = timer_add (timer_del t conn) conn
