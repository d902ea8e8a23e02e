-- ===== src/Reader/Framing.antt =====
-- What a stream of packets means, one byte after the other: the lengths of the packets that are
-- complete, and how far the next one is. It says nothing of how the bytes are cut into reads.
use mini_im.Base.{
  ℕ, zero, suc, ◌+◌, ◌-◌, ◌*◌, ◌<◌, ◌≡◌, refl, ap, ◌∙◌, List, [], ◌∷◌, ◌++◌, map, none, some, arith,
  ◌==◌, if◌then◌else◌, length,
}
use mini_im.Packet.{get_length}
use mini_im.Connection.{Connection}
use mini_im.Reader.{bad_length, unsnoc}

pub data Mode : Type 0 where
  idle : Mode
  -- the low byte of a length is there
  half : ℕ → Mode
  -- a packet's length, and the bytes that it still lacks
  body : ℕ → ℕ → Mode

pub data Framing : Type 0 where
  frames : List ℕ → Mode → Framing
  broken : Framing

unfoldable pub step : Framing → ℕ → Framing
step broken b = broken
step (frames ns idle) b = frames ns (half b)
step (frames ns (half a)) b =
    if bad_length (a + 256 * b) then broken else frames ns (body (a + 256 * b) (a + 256 * b - 2))
step (frames ns (body n zero)) b = broken
step (frames ns (body n (suc left))) b =
    if left == 0 then frames (ns ++ n ∷ []) idle else frames ns (body n left)

unfoldable pub run : Framing → List ℕ → Framing
run s [] = s
run s (b ∷ bs) = run (step s b) bs

pub run-append : (s : Framing) (xs ys : List ℕ) → run s (xs ++ ys) ≡ run (run s xs) ys
unfolding run
run-append s [] ys = refl
run-append s (x ∷ xs) ys = run-append (step s x) xs ys

-- After a length that no packet has, nothing more is read.
pub run-broken : (xs : List ℕ) → run broken xs ≡ broken
unfolding run step
run-broken [] = refl
run-broken (x ∷ xs) = run-broken xs

-- Bytes inside a packet.
pub run_body :
    (ns : List ℕ) (n left : ℕ) (xs : List ℕ)
    → length xs < left
    → run (frames ns (body n left)) xs ≡ frames ns (body n (left - length xs))
unfolding run
run_body ns n left [] h = let e : left ≡ left - 0 = omega arith in ap (λ k. frames ns (body n k)) e
run_body ns n zero (x ∷ xs) h = absurd (omega arith)
run_body ns n (suc left) (x ∷ xs) h =
    ap (λ s. run s xs) (inside (omega arith))
    ∙ run_body ns n left xs (omega arith)
    ∙ ap (λ k. frames ns (body n k)) (omega arith)
  where
    inside : 0 < left → step (frames ns (body n (suc left))) x ≡ frames ns (body n left)
    inside h = unfold step in ground arith

-- The bytes up to the end of a packet.
pub run_end :
    (ns : List ℕ) (n left : ℕ) (xs : List ℕ)
    → 0 < left
    → length xs ≡ left
    → run (frames ns (body n left)) xs ≡ frames (ns ++ n ∷ []) idle
unfolding run
run_end ns n left [] h e = absurd (omega arith)
run_end ns n zero (x ∷ xs) h e = absurd (omega arith)
run_end ns n (suc zero) (x ∷ []) h e = unfold step in refl
run_end ns n (suc zero) (x ∷ y ∷ xs) h e = absurd (omega arith)
run_end ns n (suc (suc left)) (x ∷ xs) h e =
    ap (λ s. run s xs) inside ∙ run_end ns n (suc left) xs (omega arith) (omega arith)
  where
    inside : step (frames ns (body n (suc (suc left)))) x ≡ frames ns (body n (suc left))
    inside = unfold step in ground arith

-- What a connection of the server has read so far.
abbrev pub view : Connection → Framing
view c =
    if c.expect_bytes == 0
    then frames (map get_length c.recv_packet_list)
        (if c.length_incomplete then half c.length_low else idle)
    else elim (unsnoc c.recv_packet_list) [
      | none ↦ broken
      | some (front, packet) ↦
          frames (map get_length front) (body (get_length packet) c.expect_bytes)
    ]
