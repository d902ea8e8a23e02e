-- ===== src/Timer/Silence.antt =====
-- When a connection times out: CLIENT_TIMEOUT seconds after it was last put into the wheel, and the
-- case of a late tick, in which a client that has just shown life times out at once.
use mini_im.Base.{
  ℕ, zero, suc, ◌+◌, ◌-◌, ◌%◌, ◌≤◌, ◌<◌, ◌≡◌, ◌≢◌, refl, ap, ◌∙◌, List, [], ◌∷◌, arith, get_or, set,
  length-set, get_or-set_self, get_or-set_ne, Bool, true, false, ◌||◌, has, has-append,
}
use native.Mathlib.Decide.{ℕ_discrete}
use mini_im.Timer.{Timer, insert_index, timer_add}
use mini_im.Timer.Sweep.{
  wheel, IsValid, gather, swept, swept-IsValid, swept_list, swept_later, swept_gone,
}

-- The slot that times out when `k` seconds have gone by.
abbrev pub slot_in : Timer → ℕ → List ℕ
slot_in t k = get_or t.timer_slots ((t.current + k) % wheel) []

-- The connection `c` stands in the slot `k` seconds ahead, and in no other.
pub record Waits (t : Timer) (c k : ℕ) : Type 0 where
  pub ahead : 0 < k
  pub within : k < wheel
  pub here : has c (slot_in t k) ≡ true
  pub only : (j : ℕ) → 0 < j → j ≤ wheel → j ≢ k → has c (slot_in t j) ≡ false

-- The connection stands in no slot.
abbrev pub IsAbsent : Timer → ℕ → Type 0
IsAbsent t c = (j : ℕ) → has c (get_or t.timer_slots j []) ≡ false

insert_index-eq : (t : Timer) → IsValid t → insert_index t ≡ (t.current + 120) % wheel
insert_index-eq t v = ground arith

-- A connection that stands in no slot is put 120 seconds ahead.
pub timer_add-Waits : (t : Timer) (c : ℕ) → IsValid t → IsAbsent t c → Waits (timer_add t c) c 120
unfolding timer_add
timer_add-Waits t c v absent = record {
  ahead = omega arith;
  within = omega arith;
  here =
      rw
        (
          insert_index-eq t v,
          get_or-set_self t.timer_slots ((t.current + 120) % wheel) _ [] (omega arith),
        )
        (ground
          (arith, has-append c (get_or t.timer_slots ((t.current + 120) % wheel) []) (c ∷ [])));
  only = λ j p q ne.
      rw
        (
          insert_index-eq t v,
          get_or-set_ne t.timer_slots ((t.current + 120) % wheel) ((t.current + j) % wheel) _ []
              (omega arith),
        )
        (absent ((t.current + j) % wheel));
}

pub timer_add-IsValid : (t : Timer) (c : ℕ) → IsValid t → IsValid (timer_add t c)
unfolding timer_add
timer_add-IsValid t c v = record {
  slots = length-set t.timer_slots (insert_index t) _ ∙ v.slots;
  max = v.max;
  current_in = v.current_in;
  prev_in = v.prev_in;
}

pub has-gather :
    (c : ℕ) (slots : List (List ℕ)) (n i : ℕ)
    → ((j : ℕ) → i ≤ j → j < i + n → has c (get_or slots (j % wheel) []) ≡ false)
    → has c (gather slots n i) ≡ false
has-gather c slots zero i h = refl
has-gather c slots (suc n) i h = ground (
  arith,
  has-append c (get_or slots (i % wheel) []) (gather slots n (suc i)),
  h i (omega arith) (omega arith),
  has-gather c slots n (suc i) (λ j p q. h j (omega arith) (omega arith)),
)

pub has-gather-true :
    (c : ℕ) (slots : List (List ℕ)) (n i j : ℕ)
    → i ≤ j
    → j < i + n
    → has c (get_or slots (j % wheel) []) ≡ true
    → has c (gather slots n i) ≡ true
has-gather-true c slots zero i j p q h = absurd (omega arith)
has-gather-true c slots (suc n) i j p q h = elim (ℕ_discrete i j) [
  | yes e ↦ ground (
    arith,
    has-append c (get_or slots (i % wheel) []) (gather slots n (suc i)),
    ap (λ k. has c (get_or slots (k % wheel) [])) e,
  )
  | no ne ↦ ground (
    arith,
    has-append c (get_or slots (i % wheel) []) (gather slots n (suc i)),
    has-gather-true c slots n (suc i) j (omega arith) (omega arith) h,
    or_true (has c (get_or slots (i % wheel) [])),
  )
]
  where
    or_true : (b : Bool) → (b || true) ≡ true
    or_true true = refl
    or_true false = refl

-- What has timed out after a tick of `d` seconds, and the wheel without it.
abbrev pub closed : Timer → ℕ → List ℕ
closed t d = get_or (swept t d).timer_slots ((t.current + 1) % wheel) []

abbrev pub rest : Timer → ℕ → Timer
rest t d = record (swept t d) {
  timer_slots = set (swept t d).timer_slots ((t.current + 1) % wheel) [];
}

module _ {t : Timer} (v : IsValid t) (d : ℕ) (pos : 0 < d) (below : d < wheel) where
  pub rest-IsValid : IsValid (rest t d)
  rest-IsValid =
      let w = swept-IsValid v d pos below in
      record {
        slots = length-set (swept t d).timer_slots ((t.current + 1) % wheel) [] ∙ w.slots;
        max = v.max;
        current_in = w.current_in;
        prev_in = w.prev_in;
      }

  pub closed-gather : closed t d ≡ gather t.timer_slots d (t.current + 1)
  closed-gather =
      let e : suc (d - 1) ≡ d = omega arith in
      swept_list v d pos below ∙ ap (λ n. gather t.timer_slots n (t.current + 1)) e

  -- A slot that is `k` seconds ahead is `k - d` seconds ahead then.
  pub rest-later : (k : ℕ) → d < k → k ≤ wheel → slot_in (rest t d) (k - d) ≡ slot_in t k
  rest-later k above within =
      let e : ((t.current + d) % wheel + (k - d)) % wheel ≡ (t.current + k) % wheel = omega arith in
      rw e (
        get_or-set_ne (swept t d).timer_slots ((t.current + 1) % wheel) ((t.current + k) % wheel) []
          [] (omega arith)
        ∙ swept_later v d pos below k above within)

  -- The slots of the seconds that went by are empty.
  pub rest-gone :
      (k : ℕ) → 0 < k → k ≤ d → get_or (rest t d).timer_slots ((t.current + k) % wheel) [] ≡ []
  rest-gone k above within = elim (ℕ_discrete k 1) [
    | yes e ↦ rw e (
        get_or-set_self (swept t d).timer_slots ((t.current + 1) % wheel) [] []
          (rw ((swept-IsValid v d pos below).slots) (omega arith)))
    | no ne ↦
        get_or-set_ne (swept t d).timer_slots ((t.current + 1) % wheel) ((t.current + k) % wheel) []
          [] (omega arith)
        ∙ swept_gone v d pos below k (omega arith) within
  ]
