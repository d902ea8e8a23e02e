-- ===== src/Reader/Starts.antt =====
-- The two functions that begin a packet read on as the stream says.
use mini_im.Base.{
  ℕ, zero, suc, ◌+◌, ◌-◌, ◌*◌, ◌≤◌, ◌<◌, ◌≡◌, refl, sym, subst, ap, ap₂, ◌∙◌, inl, inr, List, [],
  ◌∷◌, ◌++◌, map, true, false, arith, ltb, if◌then◌else◌, Bool-cases, ltb→lt, test_of_eq, ltb→ge,
  ltb_of_ge, length, take, length-take,
}
use mathlib.Core.List.{map-append}
use mini_im.Protocol.{max_packet_len, packet_header_len}
use mini_im.Bytes.{put_at}
use mini_im.Bytes.Laws.{length-put_at, put_at_head}
use mini_im.Packet.{Packet, packet_init, get_length}
use mini_im.Packet.Laws.{length-packet_init}
use mini_im.Connection.{Connection}
use mini_im.Reader.{took, failed, bad_length, last_packet_incomplete_1byte, last_packet_complete}
use mini_im.Reader.Framing.{
  Framing, idle, half, body, frames, broken, step, run, run-broken, run_body, run_end, view,
}
use mini_im.Reader.Steps.{IsPartial, Agrees, view-partial, take_all}

-- A new packet whose first two bytes are its length.
pub get_length-put_head :
    (a b : ℕ) (src : List ℕ) → get_length (put_at packet_init 0 (a ∷ b ∷ src)) ≡ a + 256 * b
unfolding get_length
get_length-put_head a b src =
    ap₂ (λ x y. x + 256 * y)
      (put_at_head packet_init (a ∷ b ∷ src) 0 (omega (arith, length-packet_init)) (omega arith))
      (put_at_head packet_init (a ∷ b ∷ src) 1 (omega (arith, length-packet_init)) (omega arith))

pub length_of_good : (n : ℕ) → bad_length n ≡ false → packet_header_len ≤ n
length_of_good n h = ground arith

-- The second byte of a length begins a packet, or ends the stream.
step-half :
    (ns : List ℕ) (a b : ℕ)
    → bad_length (a + 256 * b) ≡ false
    → step (frames ns (half a)) b ≡ frames ns (body (a + 256 * b) (a + 256 * b - 2))
unfolding step
step-half ns a b good = rw good

step-bad :
    (ns : List ℕ) (a b : ℕ) → bad_length (a + 256 * b) ≡ true → step (frames ns (half a)) b ≡ broken
unfolding step
step-bad ns a b bad = rw bad

-- A connection that is not inside a packet.
abbrev between : Connection → Framing
between c =
    frames (map get_length c.recv_packet_list)
      (if c.length_incomplete then half c.length_low else idle)

view-between : (c : Connection) → c.expect_bytes ≡ 0 → view c ≡ between c
view-between c e = rw (test_of_eq c.expect_bytes 0 e)

-- A connection with a packet begun at the end of its queue is inside that packet.
module _ (c : Connection) (front : List Packet) (packet : Packet) (n : ℕ)
    (queue : c.recv_packet_list ≡ front ++ packet ∷ []) (is : get_length packet ≡ n)
    (good : bad_length n ≡ false) (pos : 0 < c.expect_bytes) (two : c.expect_bytes + 2 ≤ n)
    (memory : length packet ≡ max_packet_len) (no_half : c.length_incomplete ≡ false) where
  begun-IsPartial : IsPartial c front packet
  begun-IsPartial = record {
    queue = queue;
    good = ap bad_length is ∙ good;
    some_left = pos;
    length_read = omega arith;
    memory = memory;
    no_half = no_half;
  }

  pub view-begun : view c ≡ frames (map get_length front) (body n c.expect_bytes)
  view-begun =
      view-partial c front packet begun-IsPartial
      ∙ ap (λ k. frames (map get_length front) (body k c.expect_bytes)) is

pub length-put_init : (src : List ℕ) → length (put_at packet_init 0 src) ≡ max_packet_len
length-put_init src = length-put_at packet_init 0 src ∙ length-packet_init

pub last_packet_incomplete_1byte-Agrees :
    (c : Connection) (b : ℕ) (buf : List ℕ)
    → c.expect_bytes ≡ 0
    → c.length_incomplete ≡ true
    → Agrees c (b ∷ buf) (last_packet_incomplete_1byte c (b ∷ buf))
unfolding last_packet_incomplete_1byte run
last_packet_incomplete_1byte-Agrees c b buf e half_read =
    elim (Bool-cases (bad_length (c.length_low + 256 * b))) [
      | inl bad ↦ rw bad (
          ap (λ s. run (step s b) buf) here
          ∙ ap (λ s. run s buf) (step-bad ns _ b bad)
          ∙ run-broken buf)
      | inr good ↦ rw good (
        omega arith,
        omega arith,
        inr (
          c.recv_packet_list,
          packet,
          begun-IsPartial next _ packet n refl (get_length-put_head c.length_low b []) good
              (room good) (fits good) (length-put_init (c.length_low ∷ b ∷ [])) refl,
        ),
        view-begun next _ packet n refl (get_length-put_head c.length_low b []) good (room good)
              (fits good) (length-put_init (c.length_low ∷ b ∷ [])) refl
            ∙ sym (ap (λ s. step s b) here ∙ step-half ns _ b good),
      )
    ]
  where
    n : ℕ
    n = c.length_low + 256 * b

    ns : List ℕ
    ns = map get_length c.recv_packet_list

    packet : Packet
    packet = put_at packet_init 0 (c.length_low ∷ b ∷ [])

    next : Connection
    next = record c {
      length_high = b;
      length_incomplete = false;
      expect_bytes = n - 2;
      recv_packet_list = c.recv_packet_list ++ packet ∷ [];
    }

    here : view c ≡ frames ns (half c.length_low)
    here = view-between c e ∙ ap (λ t. frames ns (if t then half c.length_low else idle)) half_read

    room : bad_length n ≡ false → 0 < n - 2
    room good = omega (arith, length_of_good n good)

    fits : bad_length n ≡ false → n - 2 + 2 ≤ n
    fits good = omega (arith, length_of_good n good)

step-idle : (ns : List ℕ) (a : ℕ) → step (frames ns idle) a ≡ frames ns (half a)
unfolding step
step-idle ns a = refl

-- Two bytes of a stream that is not inside a packet.
run_head :
    (ns : List ℕ) (a b : ℕ) (xs : List ℕ)
    → bad_length (a + 256 * b) ≡ false
    → run (frames ns idle) (a ∷ b ∷ xs) ≡ run (frames ns (body (a + 256 * b) (a + 256 * b - 2))) xs
unfolding run
run_head ns a b xs good =
    ap (λ s. run (step s b) xs) (step-idle ns a) ∙ ap (λ s. run s xs) (step-half ns a b good)

module _ (c : Connection) (a b : ℕ) (buf : List ℕ) (e : c.expect_bytes ≡ 0)
    (whole : c.length_incomplete ≡ false) where
  abbrev pub new_length : ℕ
  new_length = a + 256 * b

  abbrev pub new_packet : ℕ → Packet
  new_packet n = put_at packet_init 0 (take n (a ∷ b ∷ buf))

  view-idle : view c ≡ frames (map get_length c.recv_packet_list) idle
  view-idle =
      view-between c e
      ∙ ap (λ t. frames (map get_length c.recv_packet_list) (if t then half c.length_low else idle))
          whole

  new_packet-length : (n : ℕ) → 2 ≤ n → get_length (new_packet n) ≡ new_length
  new_packet-length zero h = absurd (omega arith)
  new_packet-length (suc zero) h = absurd (omega arith)
  new_packet-length (suc (suc n)) h = get_length-put_head a b (take n buf)

  abbrev pub next_connection : ℕ → ℕ → Connection
  next_connection n left = record c {
    expect_bytes = left;
    recv_packet_list = c.recv_packet_list ++ new_packet n ∷ [];
  }

  part-Agrees :
      bad_length new_length ≡ false
      → suc (suc (length buf)) < new_length
      → Agrees c (a ∷ b ∷ buf) (
          took
            (suc (suc (length buf)))
            (next_connection (suc (suc (length buf))) (new_length - suc (suc (length buf)))))
  part-Agrees good short =
      let n = suc (suc (length buf)) in
      let left : new_length - 2 - length buf ≡ new_length - n = omega arith in
      let next = next_connection n (new_length - n) in
      let is = new_packet-length n (omega arith) in
      let memory = length-put_at packet_init 0 (take n (a ∷ b ∷ buf)) ∙ length-packet_init in
      (
        omega arith,
        omega arith,
        inr (
          c.recv_packet_list,
          new_packet n,
          begun-IsPartial next _ _ new_length refl is good (omega arith) (omega arith) memory whole,
        ),
        view-begun next _ _ new_length refl is good (omega arith) (omega arith) memory whole
            ∙ sym (
                ap₂ run view-idle (take_all (a ∷ b ∷ buf))
                ∙ run_head _ a b buf good
                ∙ run_body _ new_length (new_length - 2) buf (omega arith)
                ∙ ap (λ k. frames (map get_length c.recv_packet_list) (body new_length k)) left),
      )

  all-Agrees :
      bad_length new_length ≡ false
      → new_length ≤ suc (suc (length buf))
      → Agrees c (a ∷ b ∷ buf) (took new_length (next_connection new_length c.expect_bytes))
  all-Agrees good enough =
      let room = length_of_good new_length good in
      let n' : new_length ≡ suc (suc (new_length - 2)) = omega arith in
      let is = new_packet-length new_length (omega arith) in
      (
        omega arith,
        omega arith,
        inl e,
        view-between (next_connection new_length c.expect_bytes) e
            ∙ ap
                (λ t.
                  frames (map get_length (c.recv_packet_list ++ new_packet new_length ∷ []))
                    (if t then half c.length_low else idle))
                whole
            ∙ ap (λ ks. frames ks idle)
                (map-append get_length c.recv_packet_list (new_packet new_length ∷ []))
            ∙ ap (λ k. frames (map get_length c.recv_packet_list ++ k ∷ []) idle) is
            ∙ sym (
                ap₂ run view-idle (ap (λ k. take k (a ∷ b ∷ buf)) n')
                ∙ run_head _ a b (take (new_length - 2) buf) good
                ∙ run_end _ new_length (new_length - 2) (take (new_length - 2) buf) (omega arith)
                    (omega (arith, length-take (new_length - 2) buf))),
      )

  module _ (good : bad_length new_length ≡ false) where
    pub part-eq :
        ltb (suc (suc (length buf))) new_length ≡ true
        → last_packet_complete c (a ∷ b ∷ buf)
          ≡ took
              (suc (suc (length buf)))
              (next_connection (suc (suc (length buf))) (new_length - suc (suc (length buf))))
    unfolding last_packet_complete
    part-eq short = rw (ltb_of_ge (suc (suc (length buf))) 2 (omega arith), good, short)

    pub all-eq :
        ltb (suc (suc (length buf))) new_length ≡ false
        → last_packet_complete c (a ∷ b ∷ buf)
          ≡ took new_length (next_connection new_length c.expect_bytes)
    unfolding last_packet_complete
    all-eq long = rw (ltb_of_ge (suc (suc (length buf))) 2 (omega arith), good, long)

  pub bad-eq : bad_length new_length ≡ true → last_packet_complete c (a ∷ b ∷ buf) ≡ failed c
  unfolding last_packet_complete
  bad-eq bad = rw (ltb_of_ge (suc (suc (length buf))) 2 (omega arith), bad)

  long-Agrees : Agrees c (a ∷ b ∷ buf) (last_packet_complete c (a ∷ b ∷ buf))
  long-Agrees = elim (Bool-cases (bad_length new_length)) [
    | inl bad ↦
        subst (Agrees c (a ∷ b ∷ buf)) (sym (bad-eq bad))
          (ap (λ s. run s (a ∷ b ∷ buf)) view-idle ∙ run_bad bad)
    | inr good ↦ elim (Bool-cases (ltb (suc (suc (length buf))) new_length)) [
      | inl short ↦
          subst (Agrees c (a ∷ b ∷ buf)) (sym (part-eq good short))
            (part-Agrees good (ltb→lt _ _ short))
      | inr long ↦
          subst (Agrees c (a ∷ b ∷ buf)) (sym (all-eq good long))
            (all-Agrees good (ltb→ge _ _ long))
    ]
  ]
    where
      run_bad :
          bad_length new_length ≡ true
          → run (frames (map get_length c.recv_packet_list) idle) (a ∷ b ∷ buf) ≡ broken
      run_bad bad = unfold run step in rw bad (run-broken buf)

pub last_packet_complete-Agrees :
    (c : Connection) (b : ℕ) (buf : List ℕ)
    → c.expect_bytes ≡ 0
    → c.length_incomplete ≡ false
    → Agrees c (b ∷ buf) (last_packet_complete c (b ∷ buf))
last_packet_complete-Agrees c b [] e whole =
    unfold last_packet_complete in
    (
      omega arith,
      omega arith,
      inl e,
      view-between (record c { length_incomplete = true; length_low = b }) e
          ∙ sym (ap (λ s. run s (b ∷ [])) (view-idle c b 0 [] e whole) ∙ (unfold run step in refl)),
    )
last_packet_complete-Agrees c a (b ∷ buf) e whole = long-Agrees c a b buf e whole
