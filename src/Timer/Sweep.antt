-- ===== src/Timer/Sweep.antt =====
-- What a tick and the sweep after it leave in each slot.
use mini_im.Base.{
  ℕ, zero, suc, ◌+◌, ◌-◌, ◌%◌, ◌≤◌, ◌<◌, ◌≡◌, ◌≢◌, refl, sym, ap₂, ◌∙◌, List, [], ◌++◌, some, arith,
  append-nil, append_assoc, length, get_or, set, length-set, get_or-set_self, get_or-set_ne, ltb,
  if◌then◌else◌, Bool-cases, ltb→lt, ltb→ge, ltb_of_lt, inl, inr,
}
use native.Mathlib.Decide.{ℕ_discrete}
use mini_im.Timer.{Timer, timer_tick, splice_slot, splice_slots, get_timeout_list}

-- The number of slots: one more than the seconds of the timeout.
abbrev pub wheel : ℕ
wheel = 121

pub record IsValid (t : Timer) : Type 0 where
  pub slots : length t.timer_slots ≡ wheel
  pub max : t.max_slots ≡ wheel
  pub current_in : t.current < wheel
  pub prev_in : t.prev < wheel

-- The contents of `n` slots from index `i` on, going round.
abbrev pub gather : List (List ℕ) → ℕ → ℕ → List ℕ
gather slots zero i = []
gather slots (suc n) i = get_or slots (i % wheel) [] ++ gather slots n (suc i)

gather_same :
    (a b : List (List ℕ)) (n i : ℕ)
    → ((j : ℕ) → i ≤ j → j < i + n → get_or a (j % wheel) [] ≡ get_or b (j % wheel) [])
    → gather a n i ≡ gather b n i
gather_same a b zero i h = refl
gather_same a b (suc n) i h =
    ap₂ ◌++◌ (h i (omega arith) (omega arith))
      (gather_same a b n (suc i) λ j p q. h j (omega arith) (omega arith))

module _ (slots : List (List ℕ)) (whole : length slots ≡ wheel) (s i : ℕ) (after : s < i)
    (near : i < s + wheel) where
  splice_apart : i % wheel ≢ s % wheel
  splice_apart = omega arith

  splice_to :
      get_or (splice_slot slots (i % wheel) (s % wheel)) (s % wheel) []
      ≡ get_or slots (s % wheel) [] ++ get_or slots (i % wheel) []
  splice_to =
      get_or-set_ne (set slots (s % wheel) _) (i % wheel) (s % wheel) [] [] splice_apart
      ∙ get_or-set_self slots (s % wheel) _ [] (omega arith)

  splice_from : get_or (splice_slot slots (i % wheel) (s % wheel)) (i % wheel) [] ≡ []
  splice_from =
      get_or-set_self (set slots (s % wheel) _) (i % wheel) [] []
        (rw (length-set slots (s % wheel)) (omega arith))

  splice_other :
      (j : ℕ)
      → i % wheel ≢ j
      → s % wheel ≢ j
      → get_or (splice_slot slots (i % wheel) (s % wheel)) j [] ≡ get_or slots j []
  splice_other j a b =
      get_or-set_ne (set slots (s % wheel) _) (i % wheel) j [] [] a
      ∙ get_or-set_ne slots (s % wheel) j _ [] b

pub length-splice_slots :
    (m n i to : ℕ) (slots : List (List ℕ)) → length (splice_slots m n i to slots) ≡ length slots
unfolding splice_slots
length-splice_slots m zero i to slots = refl
length-splice_slots m (suc n) i to slots =
    length-splice_slots m n (suc i) to (splice_slot slots (i % m) to)
    ∙ length-set (set slots to _) (i % m) []
    ∙ length-set slots to _

-- A slot that the loop does not visit keeps what it has.
pub splice_slots_other :
    (n s i j : ℕ) (slots : List (List ℕ))
    → length slots ≡ wheel
    → s < i
    → i + n ≤ s + wheel
    → s % wheel ≢ j
    → ((k : ℕ) → i ≤ k → k < i + n → k % wheel ≢ j)
    → get_or (splice_slots wheel n i (s % wheel) slots) j [] ≡ get_or slots j []
unfolding splice_slots
splice_slots_other zero s i j slots whole a b e h = refl
splice_slots_other (suc n) s i j slots whole a b e h =
    splice_slots_other n s (suc i) j (splice_slot slots (i % wheel) (s % wheel))
      (length-splice_slots wheel 1 i (s % wheel) slots ∙ whole) (omega arith) (omega arith) e
      (λ k p q. h k (omega arith) (omega arith))
    ∙ splice_other slots whole s i a (omega arith) j (h i (omega arith) (omega arith)) e

-- The slot that the others are moved to has its own contents first, then theirs in order.
pub splice_slots_to :
    (n s i : ℕ) (slots : List (List ℕ))
    → length slots ≡ wheel
    → s < i
    → i + n ≤ s + wheel
    → get_or (splice_slots wheel n i (s % wheel) slots) (s % wheel) []
      ≡ get_or slots (s % wheel) [] ++ gather slots n i
unfolding splice_slots
splice_slots_to zero s i slots whole a b = sym (append-nil _)
splice_slots_to (suc n) s i slots whole a b =
    splice_slots_to n s (suc i) next (length-splice_slots wheel 1 i (s % wheel) slots ∙ whole)
      (omega arith) (omega arith)
    ∙ ap₂ ◌++◌ (splice_to slots whole s i a (omega arith)) (
        gather_same next slots n (suc i) λ j p q.
          splice_other slots whole s i a (omega arith) (j % wheel) (omega arith) (omega arith))
    ∙ append_assoc (get_or slots (s % wheel) []) _ _
  where
    next : List (List ℕ)
    next = splice_slot slots (i % wheel) (s % wheel)

-- A slot that the loop visits is empty afterwards.
pub splice_slots_gone :
    (n s i j : ℕ) (slots : List (List ℕ))
    → length slots ≡ wheel
    → s < i
    → i + n ≤ s + wheel
    → i ≤ j
    → j < i + n
    → get_or (splice_slots wheel n i (s % wheel) slots) (j % wheel) [] ≡ []
unfolding splice_slots
splice_slots_gone zero s i j slots whole a b p q = absurd (omega arith)
splice_slots_gone (suc n) s i j slots whole a b p q = elim (ℕ_discrete i j) [
  | yes e ↦ rw (← e) (
      splice_slots_other n s (suc i) (i % wheel) next whole' (omega arith) (omega arith)
        (omega arith) (λ k p q. omega arith)
      ∙ splice_from slots whole s i a (omega arith))
  | no ne ↦
      splice_slots_gone n s (suc i) j next whole' (omega arith) (omega arith) (omega arith)
        (omega arith)
]
  where
    next : List (List ℕ)
    next = splice_slot slots (i % wheel) (s % wheel)

    whole' : length next ≡ wheel
    whole' = length-splice_slots wheel 1 i (s % wheel) slots ∙ whole

-- The timer after a tick, and after the sweep.
abbrev pub ticked : Timer → ℕ → Timer
ticked t d = record t { prev = t.current; current = (t.current + d) % wheel }

abbrev pub swept : Timer → ℕ → Timer
swept t d =
    let start = t.current + 1 in
    record t {
      prev = t.current;
      current = (t.current + d) % wheel;
      timer_slots = splice_slots wheel (d - 1) (suc start) (start % wheel) t.timer_slots;
    }

-- Around the ring from one slot to the one `d` behind it there are `d - 1` more.
rounds :
    (c d : ℕ)
    → c < wheel
    → 0 < d
    → d < wheel
    → (if ltb c ((c + d) % wheel) then (c + d) % wheel else (c + d) % wheel + wheel) - (c + 1)
      ≡ d - 1
rounds c d hc h0 hd = elim (Bool-cases (ltb c ((c + d) % wheel))) [
  | inl e ↦ rw e (omega (arith, ltb→lt c ((c + d) % wheel) e))
  | inr e ↦ rw e (omega (arith, ltb→ge c ((c + d) % wheel) e))
]

module _ {t : Timer} (v : IsValid t) (d : ℕ) (pos : 0 < d) (below : d < wheel) where
  pub timer_tick-ticked : timer_tick t d ≡ some (ticked t d)
  unfolding timer_tick
  timer_tick-ticked = rw (v.max, ltb_of_lt d wheel below)

  pub get_timeout_list-swept :
      get_timeout_list (ticked t d) ≡ some ((t.current + 1) % wheel, swept t d)
  unfolding get_timeout_list
  get_timeout_list-swept = rw (
    v.max,
    rounds t.current d v.current_in pos below,
    ltb_of_lt ((t.current + d) % wheel) wheel (omega arith),
  )

  pub ticked-IsValid : IsValid (ticked t d)
  ticked-IsValid = record {
    slots = v.slots;
    max = v.max;
    current_in = omega arith;
    prev_in = v.current_in;
  }

  pub swept-IsValid : IsValid (swept t d)
  swept-IsValid = record {
    slots = length-splice_slots wheel (d - 1) _ _ t.timer_slots ∙ v.slots;
    max = v.max;
    current_in = omega arith;
    prev_in = v.current_in;
  }

  -- What has timed out: the slots of the seconds that went by, in their order.
  pub swept_list :
      get_or (swept t d).timer_slots ((t.current + 1) % wheel) []
      ≡ gather t.timer_slots (suc (d - 1)) (t.current + 1)
  swept_list =
      splice_slots_to (d - 1) (t.current + 1) (suc (t.current + 1)) t.timer_slots v.slots
        (omega arith) (omega arith)

  -- The slots of the seconds to come are as they were.
  pub swept_later :
      (k : ℕ)
      → d < k
      → k ≤ wheel
      → get_or (swept t d).timer_slots ((t.current + k) % wheel) []
        ≡ get_or t.timer_slots ((t.current + k) % wheel) []
  swept_later k above within =
      splice_slots_other (d - 1) (t.current + 1) (suc (t.current + 1)) ((t.current + k) % wheel)
        t.timer_slots v.slots (omega arith) (omega arith) (omega arith) (λ j p q. omega arith)

  -- Those of the seconds that went by are empty, but for the first, which has it all.
  pub swept_gone :
      (k : ℕ) → 1 < k → k ≤ d → get_or (swept t d).timer_slots ((t.current + k) % wheel) [] ≡ []
  swept_gone k above within =
      splice_slots_gone (d - 1) (t.current + 1) (suc (t.current + 1)) (t.current + k) t.timer_slots
        v.slots (omega arith) (omega arith) (omega arith) (omega arith)
