-- ===== src/Reader/Refine.antt =====
-- read_packet as a whole: how the bytes are cut into reads does not matter to the framing.
use mini_im.Base.{
  ℕ, zero, suc, ◌≤◌, ◌<◌, ◌≡◌, refl, sym, subst, ap, ◌∙◌, inl, inr, List, [], ◌∷◌, ◌++◌, true,
  arith, ltb, Bool-cases, if◌then◌else◌, ltb_of_lt, ltb_of_ge, length, take, drop, length-drop,
}
use mini_im.Connection.{Connection}
use mini_im.Reader.{
  Read, took, failed, overrun, last_packet_incomplete_1byte, last_packet_complete, read_round,
  Outcome, done, error, corrupted, out_of_rounds, read_loop, read_packet,
}
use mini_im.Reader.Framing.{Framing, broken, run, run-append, view}
use mini_im.Reader.Steps.{IsReading, Agrees, last_packet_incomplete-Agrees}
use mini_im.Reader.Overrun.{
  Overruns, Follows, none_left, last_packet_incomplete-Follows,
  last_packet_incomplete_1byte-Follows, last_packet_complete-Follows,
}
use mini_im.Reader.Starts.{last_packet_incomplete_1byte-Agrees, last_packet_complete-Agrees}

read_round-Agrees :
    (c : Connection) (b : ℕ) (buf : List ℕ)
    → IsReading c
    → Agrees c (b ∷ buf) (read_round c (b ∷ buf))
unfolding read_round
read_round-Agrees c b buf (inr (front, packet, p)) =
    let e : ltb 0 c.expect_bytes ≡ true = ltb_of_lt 0 c.expect_bytes p.some_left in
    rw e (last_packet_incomplete-Agrees c front packet p (b ∷ buf) (omega arith))
read_round-Agrees c b buf (inl e) =
    rw (ltb_of_ge 0 c.expect_bytes (omega arith)) (elim (Bool-cases c.length_incomplete) [
      | inl half ↦
          subst
            (λ t. Agrees c (b ∷ buf) (
              if t
              then last_packet_incomplete_1byte c (b ∷ buf)
              else last_packet_complete c (b ∷ buf)))
            (sym half) (last_packet_incomplete_1byte-Agrees c b buf e half)
      | inr whole ↦
          subst
            (λ t. Agrees c (b ∷ buf) (
              if t
              then last_packet_incomplete_1byte c (b ∷ buf)
              else last_packet_complete c (b ∷ buf)))
            (sym whole) (last_packet_complete-Agrees c b buf e whole)
    ])

take-append-drop {ℓ} : {A : Type ℓ} (n : ℕ) (xs : List A) → take n xs ++ drop n xs ≡ xs
take-append-drop zero xs = refl
take-append-drop (suc n) [] = refl
take-append-drop (suc n) (x ∷ xs) = ap (◌∷◌ x) (take-append-drop n xs)

read_round-Follows :
    (c : Connection) (b : ℕ) (buf : List ℕ)
    → IsReading c
    → Follows c (b ∷ buf) (read_round c (b ∷ buf))
unfolding read_round
read_round-Follows c b buf (inr (front, packet, p)) =
    let e : ltb 0 c.expect_bytes ≡ true = ltb_of_lt 0 c.expect_bytes p.some_left in
    rw e (last_packet_incomplete-Follows c front packet p (b ∷ buf) (omega arith))
read_round-Follows c b buf (inl e) =
    rw (ltb_of_ge 0 c.expect_bytes (omega arith)) (elim (Bool-cases c.length_incomplete) [
      | inl half ↦
          subst
            (λ t. Follows c (b ∷ buf) (
              if t
              then last_packet_incomplete_1byte c (b ∷ buf)
              else last_packet_complete c (b ∷ buf)))
            (sym half) (last_packet_incomplete_1byte-Follows c b buf e half)
      | inr whole ↦
          subst
            (λ t. Follows c (b ∷ buf) (
              if t
              then last_packet_incomplete_1byte c (b ∷ buf)
              else last_packet_complete c (b ∷ buf)))
            (sym whole) (last_packet_complete-Follows c b buf e whole)
    ])

-- What read_packet returns for bytes behind a stream that stands for `s`.
abbrev pub Reads : Framing → List ℕ → Outcome → Type 0
Reads s buf (done c) = IsReading c × (view c ≡ run s buf) × ¬ Overruns s buf
Reads s buf (error c) = (run s buf ≡ broken) × ¬ Overruns s buf
Reads s buf corrupted = Overruns s buf
Reads s buf out_of_rounds = ⊥

-- A round, and then the rest.
Reads-took :
    (s s' : Framing) (buf buf' : List ℕ) (o : Outcome)
    → run s' buf' ≡ run s buf
    → (Overruns s buf → Overruns s' buf')
    → (Overruns s' buf' → Overruns s buf)
    → Reads s' buf' o
    → Reads s buf o
Reads-took s s' buf buf' (done c) e to from (r, v, safe) = (r, v ∙ e, λ o. safe (to o))
Reads-took s s' buf buf' (error c) e to from (b, safe) = (sym e ∙ b, λ o. safe (to o))
Reads-took s s' buf buf' corrupted e to from r = from r
Reads-took s s' buf buf' out_of_rounds e to from r = r

read_loop-Reads :
    (rounds : ℕ) (c : Connection) (buf : List ℕ)
    → IsReading c
    → length buf ≤ rounds
    → Reads (view c) buf (read_loop rounds c buf)
unfolding read_loop
read_loop-Reads rounds c [] r h = (r, (unfold run in refl), none_left (view c))
read_loop-Reads zero c (b ∷ buf) r h = absurd (omega arith)
read_loop-Reads (suc rounds) c (b ∷ buf) r h =
    next (read_round c (b ∷ buf)) (read_round-Agrees c b buf r) (read_round-Follows c b buf r)
      λ n c' pos r'.
        read_loop-Reads rounds c' (drop n (b ∷ buf)) r' (omega (arith, length-drop n (b ∷ buf)))
  where
    next :
        (x : Read)
        → Agrees c (b ∷ buf) x
        → Follows c (b ∷ buf) x
        → ((n : ℕ) (c' : Connection)
            → 0 < n
            → IsReading c'
            → Reads (view c') (drop n (b ∷ buf)) (read_loop rounds c' (drop n (b ∷ buf))))
        → Reads (view c) (b ∷ buf) (elim x [
          | took n conn' ↦ read_loop rounds conn' (drop n (b ∷ buf))
          | failed conn' ↦ error conn'
          | overrun ↦ corrupted
        ])
    next (took n c') a f more =
        let e : run (view c') (drop n (b ∷ buf)) ≡ run (view c) (b ∷ buf) =
          ap (λ s. run s (drop n (b ∷ buf))) a.3
          ∙ sym (run-append (view c) (take n (b ∷ buf)) (drop n (b ∷ buf)))
          ∙ ap (run (view c)) (take-append-drop n (b ∷ buf)) in
        Reads-took (view c) (view c') (b ∷ buf) (drop n (b ∷ buf))
          (read_loop rounds c' (drop n (b ∷ buf))) e f.0 f.1 (more n c' a.0 a.2)
    next (failed c') a f more = (a, f)
    next overrun a f more = f

-- read_packet, on a connection as it leaves one between two reads, comes to an end within as many
-- rounds as there are bytes, and exactly one of three things happens. It writes past the memory of a
-- packet exactly if the bytes resume a packet of an earlier read and, put at twelve times their offset
-- in it, do not end within its memory. Else, if it returns 0, the connection is again such a one, and
-- the lengths of its packets and the state of the last one are what the bytes say one after the other;
-- and if it returns -1, the bytes hold a length that no packet has.
pub read_packet-Reads :
    (c : Connection) (buf : List ℕ) → IsReading c → Reads (view c) buf (read_packet c buf)
unfolding read_packet
read_packet-Reads c buf r = read_loop-Reads (length buf) c buf r (omega arith)

-- Bytes that are read in two parts or at once: where both ways return 0, the connections stand for
-- the same packet lengths and the same state of the last packet.
pub read_packet-split :
    (c c₁ c₂ c₁₂ : Connection) (xs ys : List ℕ)
    → IsReading c
    → read_packet c xs ≡ done c₁
    → read_packet c₁ ys ≡ done c₂
    → read_packet c (xs ++ ys) ≡ done c₁₂
    → view c₂ ≡ view c₁₂
read_packet-split c c₁ c₂ c₁₂ xs ys r e₁ e₂ e₁₂ =
    let h₁ = subst (Reads (view c) xs) e₁ (read_packet-Reads c xs r) in
    let h₂ = subst (Reads (view c₁) ys) e₂ (read_packet-Reads c₁ ys h₁.0) in
    let h₁₂ = subst (Reads (view c) (xs ++ ys)) e₁₂ (read_packet-Reads c (xs ++ ys) r) in
    h₂.1 ∙ ap (λ s. run s ys) h₁.1 ∙ sym (run-append (view c) xs ys) ∙ sym h₁₂.1
