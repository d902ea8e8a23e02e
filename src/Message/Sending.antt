-- ===== src/Message/Sending.antt =====
-- The messages of a queue as they are written to a connection server, read as a client does.
use mini_im.Base.{
  ℕ, suc, ◌+◌, ◌≤◌, ◌<◌, ◌^◌, ◌≡◌, refl, sym, ap, ◌∙◌, inl, inr, List, [], ◌∷◌, ◌++◌, map, some,
  arith, ltb_of_ge, ◌==◌, if◌then◌else◌, length, get_or, take, drop, All, length-take, append_assoc,
  append-nil, ◌>>=◌,
}
use mini_im.Protocol.{max_packet_len, srv_message_code}
use mini_im.Bytes.{put_at, get_field_uint16_t, get_field_uint32_t, set_field_uint16_t}
use mini_im.Bytes.Laws.{
  length-put_at, put_at_inside, get_or-take, get16-put_at_inside, get32-put_at_inside,
  get16-put_at_apart, get32-put_at_apart, get16-set16, get32-set32, get16-take, get32-take,
}
use mini_im.Packet.{
  Packet, get_length, get_command, get_uin, set_length, set_version, set_command, set_uin,
}
use mini_im.Packet.Fields.{sm_get_from_uin, sm_get_type, sm_get_msg_length, sm_get_message}
use mini_im.Packet.Laws.{
  length-set16, length-set32, get16-set16_apart, get16-set32_apart, get32-set16_apart, get16-drop,
  get32-drop, get_or-drop,
}
use mini_im.Message.{Msg, Server, update, con_to_fd, message_bytes, send_all, send_msg}

-- A message whose fields fit their widths, with the memory for its text, that fits a packet.
pub record IsSendable (m : Msg) : Type 0 where
  pub from_small : m.from_uin < 2 ^ 32
  pub time_small : m.timestamp < 2 ^ 32
  pub type_small : m.type < 2 ^ 16
  pub text_there : m.len ≤ length m.msg_str
  pub fits : 24 + m.len ≤ max_packet_len

-- What a client reads of a packet: the message `m` for the user `uin`.
pub record Carries (uin : ℕ) (m : Msg) (pk : Packet) : Type 0 where
  pub whole : get_length pk ≡ length pk
  pub command : get_command pk ≡ srv_message_code
  pub receiver : get_uin pk ≡ uin
  pub sender : sm_get_from_uin pk ≡ m.from_uin
  pub type : sm_get_type pk ≡ m.type
  pub len : sm_get_msg_length pk ≡ m.len
  pub text : (i : ℕ) → i < m.len → get_or (sm_get_message pk) i 0 ≡ get_or m.msg_str i 0

abbrev pub AllCarry : ℕ → List Msg → List Packet → Type 0
AllCarry uin [] [] = Unit {0}
AllCarry uin (m ∷ ms) (p ∷ ps) = Carries uin m p × AllCarry uin ms ps
AllCarry uin _ _ = ⊥

-- The header that send_msg writes once.
record Ready (uin : ℕ) (o : Packet) : Type 0 where
  size : length o ≡ max_packet_len
  cmd : get_field_uint16_t o 4 ≡ srv_message_code
  uin_is : get_field_uint32_t o 8 ≡ uin

length-message_bytes : (m : Msg) → m.len ≤ length m.msg_str → length (message_bytes m) ≡ 12 + m.len
unfolding message_bytes
length-message_bytes m h = omega (arith, length-take m.len m.msg_str)

module _ (m : Msg) (ok : IsSendable m) where
  from_bytes : get_field_uint32_t (message_bytes m) 0 ≡ m.from_uin
  unfolding message_bytes get_field_uint32_t
  from_bytes = omega (arith, ok.from_small)

  type_bytes : get_field_uint16_t (message_bytes m) 8 ≡ m.type
  unfolding message_bytes get_field_uint16_t
  type_bytes = omega (arith, ok.type_small)

  len_bytes : get_field_uint16_t (message_bytes m) 10 ≡ m.len
  unfolding message_bytes get_field_uint16_t
  len_bytes = omega (arith, ok.fits)

  text_bytes : (i : ℕ) → i < m.len → get_or (message_bytes m) (12 + i) 0 ≡ get_or m.msg_str i 0
  unfolding message_bytes
  text_bytes i h =
      let e : 12 + i ≡ suc (suc (suc (suc (suc (suc (suc (suc (suc (suc (suc (suc i))))))))))) =
        omega arith in
      ap (λ k. get_or (message_bytes m) k 0) e ∙ get_or-take m.len m.msg_str i h

-- The response buffer with one message.
module _ (uin : ℕ) (o : Packet) (ready : Ready uin o) (m : Msg) (ok : IsSendable m) where
  abbrev sized : Packet
  sized = set_field_uint16_t o 0 (24 + m.len)

  abbrev out : Packet
  out = put_at sized 12 (message_bytes m)

  abbrev sent : Packet
  sent = take (get_length out) out

  length-sized : length sized ≡ max_packet_len
  length-sized = length-set16 o 0 (24 + m.len) ∙ ready.size

  room : 12 + length (message_bytes m) ≤ length sized
  room = omega (arith, ok.fits, length-sized, length-message_bytes m ok.text_there)

  get_length-out : get_length out ≡ 24 + m.len
  unfolding get_length
  get_length-out =
      get16-put_at_apart sized 12 (message_bytes m) 0 (inl (omega arith))
      ∙ get16-set16 o 0 (24 + m.len) (omega (arith, ready.size)) (omega (arith, ok.fits))

  length-sent : length sent ≡ 24 + m.len
  length-sent = omega (
    arith,
    length-take (get_length out) out,
    get_length-out,
    length-put_at sized 12 (message_bytes m),
    length-sized,
    ok.fits,
  )

  sent16 : (i : ℕ) → i + 2 ≤ 24 + m.len → get_field_uint16_t sent i ≡ get_field_uint16_t out i
  sent16 i h = get16-take (get_length out) out i (omega (arith, get_length-out))

  sent32 : (i : ℕ) → i + 4 ≤ 24 + m.len → get_field_uint32_t sent i ≡ get_field_uint32_t out i
  sent32 i h = get32-take (get_length out) out i (omega (arith, get_length-out))

  param16 :
      (i : ℕ)
      → i + 2 ≤ 12
      → get_field_uint16_t (drop 12 sent) i ≡ get_field_uint16_t (message_bytes m) i
  param16 i h =
      get16-drop 12 sent i
      ∙ sent16 (12 + i) (omega arith)
      ∙ get16-put_at_inside sized 12 (message_bytes m) i
          (omega (arith, length-message_bytes m ok.text_there)) room

  param32 :
      (i : ℕ)
      → i + 4 ≤ 12
      → get_field_uint32_t (drop 12 sent) i ≡ get_field_uint32_t (message_bytes m) i
  param32 i h =
      get32-drop 12 sent i
      ∙ sent32 (12 + i) (omega arith)
      ∙ get32-put_at_inside sized 12 (message_bytes m) i
          (omega (arith, length-message_bytes m ok.text_there)) room

  text_sent : (i : ℕ) → i < m.len → get_or (drop 12 (drop 12 sent)) i 0 ≡ get_or m.msg_str i 0
  text_sent i h =
      get_or-drop 12 (drop 12 sent) i
      ∙ get_or-drop 12 sent (12 + i)
      ∙ get_or-take (get_length out) out (12 + (12 + i)) (omega (arith, get_length-out))
      ∙ put_at_inside sized 12 (message_bytes m) (12 + i) (12 + (12 + i)) refl
          (omega (arith, length-message_bytes m ok.text_there)) room
      ∙ text_bytes m ok i h

  sent-Carries : Carries uin m sent
  unfolding get_length get_command get_uin sm_get_from_uin sm_get_type sm_get_msg_length
      sm_get_message
  sent-Carries = record {
    whole = sent16 0 (omega arith) ∙ get_length-out ∙ sym length-sent;
    command =
        sent16 4 (omega arith)
        ∙ get16-put_at_apart sized 12 (message_bytes m) 4 (inl (omega arith))
        ∙ get16-set16_apart o 0 (24 + m.len) 4 (inr (omega arith))
        ∙ ready.cmd;
    receiver =
        sent32 8 (omega arith)
        ∙ get32-put_at_apart sized 12 (message_bytes m) 8 (inl (omega arith))
        ∙ get32-set16_apart o 0 (24 + m.len) 8 (inr (omega arith))
        ∙ ready.uin_is;
    sender = param32 0 (omega arith) ∙ from_bytes m ok;
    type = param16 8 (omega arith) ∙ type_bytes m ok;
    len = param16 10 (omega arith) ∙ len_bytes m ok;
    text = text_sent;
  }

  out-Ready : Ready uin out
  out-Ready = record {
    size = length-put_at sized 12 (message_bytes m) ∙ length-sized;
    cmd =
        get16-put_at_apart sized 12 (message_bytes m) 4 (inl (omega arith))
        ∙ get16-set16_apart o 0 (24 + m.len) 4 (inr (omega arith))
        ∙ ready.cmd;
    uin_is =
        get32-put_at_apart sized 12 (message_bytes m) 8 (inl (omega arith))
        ∙ get32-set16_apart o 0 (24 + m.len) 8 (inr (omega arith))
        ∙ ready.uin_is;
  }

abbrev pub to_fd : ℕ → Packet → ℕ × List ℕ
to_fd fd pk = (fd, pk)

module _ {D : Type 0} where
  -- What a run of the loop has written, and what it leaves alone.
  abbrev Written : Server D → Server D → (fd uin : ℕ) → List Msg → List Packet → Type 0
  Written s s' fd uin ms pks =
      (s'.writes ≡ s.writes ++ map (to_fd fd) pks)
      × AllCarry uin ms pks
      × (s'.queues ≡ s.queues)
      × (s'.conns ≡ s.conns)
      × (s'.db ≡ s.db)

  -- The server after one round of the loop.
  abbrev after_one : Server D → ℕ → Msg → Server D
  after_one s fd m =
      let out = put_at (set_field_uint16_t s.outpack 0 (24 + m.len)) 12 (message_bytes m) in
      record s { outpack = out; writes = s.writes ++ (fd, take (get_length out) out) ∷ [] }

  send_all-cons :
      (s : Server D) (fd : ℕ) (m : Msg) (ms : List Msg)
      → 24 + m.len ≤ max_packet_len
      → send_all s fd (m ∷ ms) ≡ send_all (after_one s fd m) fd ms
  unfolding send_all set_length
  send_all-cons s fd m ms fits = rw (ltb_of_ge max_packet_len (24 + m.len) fits, send_all) refl

  send_all-Written :
      (s : Server D) (fd uin : ℕ) (ms : List Msg)
      → Ready uin s.outpack
      → All IsSendable ms
      → (s' : Server D) × (pks : List Packet) × (send_all s fd ms ≡ some s')
        × Written s s' fd uin ms pks
  send_all-Written s fd uin [] ready ok =
      (s, [], unfold send_all in refl, (sym (append-nil s.writes), tt, refl, refl, refl))
  send_all-Written s fd uin (m ∷ ms) ready (ok, oks) =
      let t = after_one s fd m in
      let (s', pks, e, (w, carry, queues, conns, db)) =
        send_all-Written t fd uin ms (out-Ready uin s.outpack ready m ok) oks in
      let pk = sent uin s.outpack ready m ok in
      (
        s',
        pk ∷ pks,
        send_all-cons s fd m ms ok.fits ∙ e,
        (
          w ∙ append_assoc s.writes ((fd, pk) ∷ []) (map (to_fd fd) pks),
          (sent-Carries uin s.outpack ready m ok, carry),
          queues,
          conns,
          db,
        ),
      )

set_uin-Ready :
    (uin : ℕ) (o : Packet)
    → length o ≡ max_packet_len
    → uin < 2 ^ 32
    → Ready uin (set_uin (set_command (set_version o 1) srv_message_code) uin)
unfolding set_uin set_command set_version
set_uin-Ready uin o size small =
    let a = set_field_uint16_t o 2 1 in
    let b = set_field_uint16_t a 4 srv_message_code in
    let la = length-set16 o 2 1 in
    let lb = length-set16 a 4 srv_message_code in
    record {
      size = length-set32 b 8 uin ∙ lb ∙ la ∙ size;
      cmd =
          get16-set32_apart b 8 uin 4 (inl (omega arith))
          ∙ get16-set16 a 4 srv_message_code (omega arith) (omega arith);
      uin_is = get32-set32 b 8 uin (omega arith) small;
    }

-- send_msg for a user whose connection server is known: every message that waits for the user is
-- written to that server's socket as a packet of its own, in the order of the queue, and a client
-- that reads the packet finds in it the length, the command SRV_MESSAGE, the user as receiver, and
-- the sender, the type, the length and the text of the message. The queue is empty afterwards, and
-- the other queues, the table of connections and the database stay as they are. The fields of the
-- messages fit their widths, and each message a packet.
pub send_msg-Carries :
    {D : Type 0} (s : Server D) (uin ip port fd : ℕ) (m : Msg) (ms : List Msg)
    → s.queues uin ≡ m ∷ ms
    → con_to_fd s.conns ip port ≡ some fd
    → length s.outpack ≡ max_packet_len
    → uin < 2 ^ 32
    → All IsSendable (m ∷ ms)
    → (s' : Server D) × (pks : List Packet) × (send_msg s uin ip port ≡ some s')
      × (s'.writes ≡ s.writes ++ map (to_fd fd) pks)
      × AllCarry uin (m ∷ ms) pks
      × ((j : ℕ) → s'.queues j ≡ (if uin == j then [] else s.queues j))
      × (s'.conns ≡ s.conns)
      × (s'.db ≡ s.db)
send_msg-Carries s uin ip port fd m ms waiting known size small ok =
    let o = set_uin (set_command (set_version s.outpack 1) srv_message_code) uin in
    let (t, pks, e, (w, carry, queues, conns, db)) =
      send_all-Written (record s { outpack = o }) fd uin (m ∷ ms)
        (set_uin-Ready uin s.outpack size small) ok in
    (
      record t { queues = update t.queues uin [] },
      pks,
      unfold send_msg in rw (waiting, send_msg) (rw (known, send_msg) (rw (e, ◌>>=◌) refl)),
      w,
      carry,
      λ j. ap (λ q. update q uin [] j) queues,
      conns,
      db,
    )
