-- ===== src/Timer/Others.antt =====
-- What the calls of the timer for other connections leave of the wheel for one connection.
use mini_im.Base.{
  ℕ, ◌+◌, ◌-◌, ◌%◌, ◌<◌, ◌≡◌, ◌≢◌, refl, sym, ap, ◌∙◌, [], ◌∷◌, ◌++◌, arith, length, get_or, set,
  length-set, get_or-set_self, get_or-set_ne, has, has-append, has-without_ne,
}
use native.Mathlib.Decide.{ℕ_discrete}
use mini_im.Timer.{Timer, insert_index, timer_add, timer_del, timer_mark_alive}
use mini_im.Timer.Sweep.{wheel, IsValid, swept, swept-IsValid}
use mini_im.Timer.Silence.{Waits, rest}
use mini_im.Timer.Deadline.{closed_early, rest-Waits}
use mini_im.Timer.LateTick.{get_or-map-without, length-map-without}

-- The connection `c` stands in the same slots of both wheels.
pub record Alike (c : ℕ) (t t' : Timer) : Type 0 where
  pub current_same : t'.current ≡ t.current
  pub prev_same : t'.prev ≡ t.prev
  pub max_same : t'.max_slots ≡ t.max_slots
  pub length_same : length t'.timer_slots ≡ length t.timer_slots
  pub seen : (j : ℕ) → has c (get_or t'.timer_slots j []) ≡ has c (get_or t.timer_slots j [])

pub Alike-refl : (c : ℕ) (t : Timer) → Alike c t t
Alike-refl c t = record {
  current_same = refl;
  prev_same = refl;
  max_same = refl;
  length_same = refl;
  seen = λ j. refl;
}

pub Alike-trans : {c : ℕ} {t t' t'' : Timer} → Alike c t t' → Alike c t' t'' → Alike c t t''
Alike-trans p q = record {
  current_same = q.current_same ∙ p.current_same;
  prev_same = q.prev_same ∙ p.prev_same;
  max_same = q.max_same ∙ p.max_same;
  length_same = q.length_same ∙ p.length_same;
  seen = λ j. q.seen j ∙ p.seen j;
}

pub Alike-IsValid : {c : ℕ} {t t' : Timer} → Alike c t t' → IsValid t → IsValid t'
Alike-IsValid p v = record {
  slots = p.length_same ∙ v.slots;
  max = p.max_same ∙ v.max;
  current_in = omega (arith, p.current_same, v.current_in);
  prev_in = omega (arith, p.prev_same, v.prev_in);
}

pub Alike-Waits : {c k : ℕ} {t t' : Timer} → Alike c t t' → Waits t c k → Waits t' c k
Alike-Waits {c} {k} {t} {t'} p w =
    let at = λ (j : ℕ).
      p.seen ((t'.current + j) % wheel)
      ∙ ap (λ n. has c (get_or t.timer_slots ((n + j) % wheel) [])) p.current_same in
    record {
      ahead = w.ahead;
      within = w.within;
      here = at k ∙ w.here;
      only = λ j a b ne. at j ∙ w.only j a b ne;
    }

-- Calls for another connection.
module _ (t : Timer) (b c : ℕ) (ne : b ≢ c) where
  pub timer_del-Alike : Alike c t (timer_del t b)
  unfolding timer_del
  timer_del-Alike = record {
    current_same = refl;
    prev_same = refl;
    max_same = refl;
    length_same = length-map-without b t.timer_slots;
    seen = λ j.
        ap (has c) (get_or-map-without b t.timer_slots j)
        ∙ has-without_ne b c (get_or t.timer_slots j []) ne;
  }

  pub timer_add-Alike : IsValid t → Alike c t (timer_add t b)
  unfolding timer_add
  timer_add-Alike v =
      let i = insert_index t in
      let here = get_or t.timer_slots i [] in
      let inside : i < length t.timer_slots = ground (arith, v.slots, v.max, v.current_in) in
      record {
        current_same = refl;
        prev_same = refl;
        max_same = refl;
        length_same = length-set t.timer_slots i (here ++ b ∷ []);
        seen = λ j. elim (ℕ_discrete i j) [
          | yes e ↦
              ap (λ n. has c (get_or (set t.timer_slots i (here ++ b ∷ [])) n [])) (sym e)
              ∙ ap (has c) (get_or-set_self t.timer_slots i (here ++ b ∷ []) [] inside)
              ∙ has-append c here (b ∷ [])
              ∙ ground arith
          | no apart ↦ ap (has c) (get_or-set_ne t.timer_slots i j (here ++ b ∷ []) [] apart)
        ];
      }

pub timer_mark_alive-Alike :
    (t : Timer) (b c : ℕ) → b ≢ c → IsValid t → Alike c t (timer_mark_alive t b)
unfolding timer_mark_alive
timer_mark_alive-Alike t b c ne v =
    let p = timer_del-Alike t b c ne in
    Alike-trans p (timer_add-Alike (timer_del t b) b c ne (Alike-IsValid p v))

-- A sweep that the connection is not on.
module _ {t : Timer} (v : IsValid t) (d : ℕ) (pos : 0 < d) (below : d < wheel) {c k : ℕ}
    (w : Waits t c k) where
  pub swept-Waits : d < k → Waits (swept t d) c (k - d)
  swept-Waits before = Alike-Waits alike (rest-Waits v d pos below w before)
    where
      alike : Alike c (rest t d) (swept t d)
      alike =
          let i = (t.current + 1) % wheel in
          let whole = (swept-IsValid v d pos below).slots in
          record {
            current_same = refl;
            prev_same = refl;
            max_same = refl;
            length_same = sym (length-set (swept t d).timer_slots i []);
            seen = λ j. elim (ℕ_discrete i j) [
              | yes e ↦
                  ap (λ n. has c (get_or (swept t d).timer_slots n [])) (sym e)
                  ∙ closed_early v d pos below w before
                  ∙ sym (
                      ap (λ n. has c (get_or (set (swept t d).timer_slots i []) n [])) (sym e)
                      ∙ ap (has c)
                          (get_or-set_self (swept t d).timer_slots i [] [] (omega (arith, whole))))
              | no apart ↦ ap (has c) (sym (get_or-set_ne (swept t d).timer_slots i j [] [] apart))
            ];
          }
