-- ===== src/Conn/Offline.antt =====
-- The two ends of a status change: the packet that the connection server makes for a client that
-- leaves, and what the status server does with it.
use mini_im.Base.{
  ℕ, suc, ◌+◌, ◌≤◌, ◌<◌, ◌^◌, ◌≡◌, refl, ap, ◌∙◌, inl, inr, List, some, arith, ◌==◌, if◌then◌else◌,
  length, test_of_eq,
}
use mini_im.Protocol.{
  max_packet_len, packet_header_len, cmd_status_change_code, status_change_offline,
  rep_status_changed_code,
}
use mini_im.Bytes.{get_field_uint16_t, get_field_uint32_t, set_field_uint16_t, set_field_uint32_t}
use mini_im.Bytes.Laws.{get16-set16, get32-set32}
use mini_im.Packet.{
  Packet, packet_init, get_length, get_command, set_length, set_command, set_uin,
  set_param_uint16_t, set_param_uint32_t, fill_packet_header,
}
use mini_im.Packet.Laws.{
  length-packet_init, length-set16, length-set32, get16-set16_apart, get16-set32_apart,
  get32-set16_apart, get32-set32_apart, get16-drop, get32-drop, received, get16-received,
  get32-received, get_or-packet_init,
}
use mini_im.Status
use mini_im.Status.{
  success, set_status, presence, get_status, reply, answer_change, status_packet, on_status_change,
}
use mini_im.Status.Invariant.{IsValid}
use mini_im.Status.Answers.{get_status-set_status}
use mini_im.Status.Lookup.{set_status-case}
use mini_im.Conn.Send.{offline_packet}

zero16 : (i : ℕ) → get_field_uint16_t packet_init i ≡ 0
unfolding get_field_uint16_t
zero16 i = omega (arith, get_or-packet_init i, get_or-packet_init (suc i))

zero32 : (i : ℕ) → get_field_uint32_t packet_init i ≡ 0
unfolding get_field_uint32_t
zero32 i = omega (
  arith,
  get_or-packet_init i,
  get_or-packet_init (suc i),
  get_or-packet_init (suc (suc i)),
  get_or-packet_init (suc (suc (suc i))),
)

-- The packet after each of its writes.
abbrev sized : Packet
sized = set_field_uint16_t packet_init 0 24

abbrev commanded : Packet
commanded = set_field_uint16_t sized 4 cmd_status_change_code

abbrev headed : ℕ → Packet
headed uin = set_field_uint32_t commanded 8 uin

abbrev named : ℕ → Packet
named uin = set_field_uint32_t (headed uin) 12 uin

abbrev complete : ℕ → Packet
complete uin = set_field_uint16_t (named uin) 22 status_change_offline

offline_packet-complete : (uin : ℕ) → offline_packet uin ≡ complete uin
unfolding offline_packet set_length set_command set_uin set_param_uint16_t set_param_uint32_t
offline_packet-complete uin = refl

length-commanded : length commanded ≡ max_packet_len
length-commanded =
    length-set16 sized 4 cmd_status_change_code ∙ length-set16 packet_init 0 24 ∙ length-packet_init

length-named : (uin : ℕ) → length (named uin) ≡ max_packet_len
length-named uin =
    length-set32 (headed uin) 12 uin ∙ length-set32 commanded 8 uin ∙ length-commanded

length-complete : (uin : ℕ) → length (complete uin) ≡ max_packet_len
length-complete uin = length-set16 (named uin) 22 status_change_offline ∙ length-named uin

-- A field of 16 bits that the last writes leave alone.
complete16 :
    (uin i : ℕ) → i + 2 ≤ 8 → get_field_uint16_t (complete uin) i ≡ get_field_uint16_t commanded i
complete16 uin i h =
    get16-set16_apart (named uin) 22 status_change_offline i (inl (omega arith))
    ∙ get16-set32_apart (headed uin) 12 uin i (inl (omega arith))
    ∙ get16-set32_apart commanded 8 uin i (inl (omega arith))

module _ (uin : ℕ) (small : uin < 2 ^ 32) where
  complete-length : get_field_uint16_t (complete uin) 0 ≡ 24
  complete-length =
      complete16 uin 0 (omega arith)
      ∙ get16-set16_apart sized 4 cmd_status_change_code 0 (inl (omega arith))
      ∙ get16-set16 packet_init 0 24 (omega (arith, length-packet_init)) (omega arith)

  complete-command : get_field_uint16_t (complete uin) 4 ≡ cmd_status_change_code
  complete-command =
      complete16 uin 4 (omega arith)
      ∙ get16-set16 sized 4 cmd_status_change_code
          (omega (arith, length-set16 packet_init 0 24, length-packet_init)) (omega arith)

  complete-uin : get_field_uint32_t (complete uin) 12 ≡ uin
  complete-uin =
      get32-set16_apart (named uin) 22 status_change_offline 12 (inl (omega arith))
      ∙ get32-set32 (headed uin) 12 uin
          (omega (arith, length-set32 commanded 8 uin, length-commanded)) small

  complete-ip : get_field_uint32_t (complete uin) 16 ≡ 0
  complete-ip =
      get32-set16_apart (named uin) 22 status_change_offline 16 (inl (omega arith))
      ∙ get32-set32_apart (headed uin) 12 uin 16 (inr (omega arith))
      ∙ get32-set32_apart commanded 8 uin 16 (inr (omega arith))
      ∙ get32-set16_apart sized 4 cmd_status_change_code 16 (inr (omega arith))
      ∙ get32-set16_apart packet_init 0 24 16 (inr (omega arith))
      ∙ zero32 16

  complete-port : get_field_uint16_t (complete uin) 20 ≡ 0
  complete-port =
      get16-set16_apart (named uin) 22 status_change_offline 20 (inl (omega arith))
      ∙ get16-set32_apart (headed uin) 12 uin 20 (inr (omega arith))
      ∙ get16-set32_apart commanded 8 uin 20 (inr (omega arith))
      ∙ get16-set16_apart sized 4 cmd_status_change_code 20 (inr (omega arith))
      ∙ get16-set16_apart packet_init 0 24 20 (inr (omega arith))
      ∙ zero16 20

  complete-stat : get_field_uint16_t (complete uin) 22 ≡ status_change_offline
  complete-stat =
      get16-set16 (named uin) 22 status_change_offline (omega (arith, length-named uin))
        (omega arith)

  module _ (buf : List ℕ) (room : length buf ≡ max_packet_len) where
    abbrev arrived : Packet
    arrived = received buf (complete uin)

    size : get_length (complete uin) ≡ 24
    size = unfold get_length in complete-length

    arrived16 :
        (i : ℕ) → i + 2 ≤ 24 → get_field_uint16_t arrived i ≡ get_field_uint16_t (complete uin) i
    arrived16 i h =
        get16-received buf (complete uin) (omega (arith, size))
          (omega (arith, size, length-complete uin)) i (omega (arith, size))

    arrived32 :
        (i : ℕ) → i + 4 ≤ 24 → get_field_uint32_t arrived i ≡ get_field_uint32_t (complete uin) i
    arrived32 i h =
        get32-received buf (complete uin) (omega (arith, size))
          (omega (arith, size, length-complete uin)) i (omega (arith, size))

    -- The status server reads the packet as a request to take the user offline.
    arrived-change :
        (st : Status.Server) (out : Packet)
        → on_status_change st arrived out
          ≡ answer_change st out uin (set_status st uin 0 0 status_change_offline)
    unfolding on_status_change
    arrived-change st out =
        let a =
          get32-drop packet_header_len arrived 0 ∙ arrived32 12 (omega arith) ∙ complete-uin in
        let b = get32-drop packet_header_len arrived 4 ∙ arrived32 16 (omega arith) ∙ complete-ip in
        let c =
          get16-drop packet_header_len arrived 8 ∙ arrived16 20 (omega arith) ∙ complete-port in
        let d =
          get16-drop packet_header_len arrived 10 ∙ arrived16 22 (omega arith) ∙ complete-stat in
        λ i. answer_change st out (a i) (set_status st (a i) (b i) (c i) (d i))

    arrived-command : get_command arrived ≡ cmd_status_change_code
    arrived-command = unfold get_command in (arrived16 4 (omega arith) ∙ complete-command)

-- set_status takes a user offline who is online.
set_status_offline :
    (st : Status.Server) (uin i : ℕ)
    → IsValid st
    → st.user_map uin ≡ some i
    → (st' : Status.Server) × (set_status st uin 0 0 status_change_offline ≡ success st')
set_status_offline st uin i v on = elim (set_status-case st uin 0 0 status_change_offline) [
  | inl (big, r) ↦ absurd (omega (arith, v.known uin i on))
  | inr (inl (_, ne, _, _, r)) ↦ absurd (ne refl)
  | inr (inr (inl (_, ne, _, _, r))) ↦ absurd (ne refl)
  | inr (inr (inr (inl (_, ne, _, _, _, _, r)))) ↦ absurd (ne refl)
  | inr (inr (inr (inr (inl (_, _, off, r))))) ↦ cc
  | inr (inr (inr (inr (inr (_, _, k, e, r))))) ↦ (_, r)
]

-- The packet that the connection server sends for a client that leaves, as it arrives in a buffer of
-- the status server, takes the user offline, if that user is online there in a valid state:
-- status_packet answers with REP_STATUS_CHANGED, get_status says offline for this user from then on,
-- and for every other user what it said before.
pub offline_packet-status_packet :
    (st : Status.Server) (uin i : ℕ) (buf out : List ℕ)
    → IsValid st
    → st.user_map uin ≡ some i
    → length buf ≡ max_packet_len
    → (st' : Status.Server) × (status_packet st (received buf (offline_packet uin)) out
        ≡ reply st' (fill_packet_header out packet_header_len rep_status_changed_code uin))
      × ((j : ℕ) → get_status st' j ≡ (if uin == j then some (presence 0 0 0) else get_status st j))
offline_packet-status_packet st uin i buf out v on room =
    let small : uin < 2 ^ 32 = omega (arith, v.known uin i on) in
    let (st', e) = set_status_offline st uin i v on in
    (
      st',
      ap (λ p. status_packet st (received buf p) out) (offline_packet-complete uin)
          ∙ change (arrived-command uin small buf room)
          ∙ arrived-change uin small buf room st out
          ∙ ap (answer_change st out uin) e,
      get_status-set_status st st' uin 0 0 status_change_offline v e,
    )
  where
    change :
        get_command (received buf (complete uin)) ≡ cmd_status_change_code
        → status_packet st (received buf (complete uin)) out
          ≡ on_status_change st (received buf (complete uin)) out
    change e = unfold status_packet in rw (test_of_eq _ _ e)
