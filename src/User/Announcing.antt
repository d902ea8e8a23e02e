-- ===== src/User/Announcing.antt =====
-- The packet with which the user server tells the status server of a login.
use mini_im.Base.{ℕ, ◌+◌, ◌≤◌, ◌<◌, ◌^◌, ◌≡◌, refl, ◌∙◌, inl, arith, length, take}
use mini_im.Protocol.{
  max_packet_len, packet_header_len, cmd_status_change_code, rep_status_changed_code,
}
use mini_im.Bytes.{get_field_uint16_t, get_field_uint32_t, set_field_uint16_t, set_field_uint32_t}
use mini_im.Bytes.Laws.{get16-set16, get32-set32}
use mini_im.Packet.{Packet, get_length, get_command, get_parameters, fill_packet_header}
use mini_im.Packet.Laws.{
  fill_packet_header-Header, length-fill_packet_header, length-set16, length-set32,
  get16-set16_apart, get16-set32_apart, get32-set16_apart, get32-set32_apart, get16-drop,
  get32-drop, received, get16-received, get32-received,
}
use mini_im.Status
use mini_im.Status.{
  max_user, success, set_status, status_packet, on_status_change, replied, presence, get_status,
}

-- The packet CMD_STATUS_CHANGE.
pub record Change (o : Packet) (uin ip port stat : ℕ) : Type 0 where
  pub size : length o ≡ max_packet_len
  pub len : get_length o ≡ 24
  pub cmd : get_field_uint16_t o 4 ≡ cmd_status_change_code
  pub uin_is : get_field_uint32_t o 12 ≡ uin
  pub ip_is : get_field_uint32_t o 16 ≡ ip
  pub port_is : get_field_uint16_t o 20 ≡ port
  pub stat_is : get_field_uint16_t o 22 ≡ stat

abbrev pub change : Packet → (uin ip port stat : ℕ) → Packet
change o uin ip port stat =
    let a = fill_packet_header o 24 cmd_status_change_code uin in
    let b = set_field_uint32_t a 12 uin in
    let c = set_field_uint32_t b 16 ip in
    let d = set_field_uint16_t c 20 port in set_field_uint16_t d 22 stat

pub change-Change :
    (o : Packet) (uin ip port stat : ℕ)
    → length o ≡ max_packet_len
    → uin < 2 ^ 32
    → ip < 2 ^ 32
    → port < 2 ^ 16
    → stat < 2 ^ 16
    → Change (change o uin ip port stat) uin ip port stat
unfolding get_length
change-Change o uin ip port stat size uin_small ip_small port_small stat_small =
    let a = fill_packet_header o 24 cmd_status_change_code uin in
    let b = set_field_uint32_t a 12 uin in
    let c = set_field_uint32_t b 16 ip in
    let d = set_field_uint16_t c 20 port in
    let la : length a ≡ max_packet_len =
      length-fill_packet_header o 24 cmd_status_change_code uin ∙ size in
    let lb : length b ≡ max_packet_len = length-set32 a 12 uin ∙ la in
    let lc : length c ≡ max_packet_len = length-set32 b 16 ip ∙ lb in
    let ld : length d ≡ max_packet_len = length-set16 c 20 port ∙ lc in
    let h =
      fill_packet_header-Header o 24 cmd_status_change_code uin (omega arith) (omega arith)
        (omega arith) uin_small in
    let front = λ (i : ℕ) (p : i + 2 ≤ 12).
      get16-set16_apart d 22 stat i (inl (omega arith))
      ∙ get16-set16_apart c 20 port i (inl (omega arith))
      ∙ get16-set32_apart b 16 ip i (inl (omega arith))
      ∙ get16-set32_apart a 12 uin i (inl (omega arith)) in
    record {
      size = length-set16 d 22 stat ∙ ld;
      len = front 0 (omega arith) ∙ h.len_is;
      cmd = front 4 (omega arith) ∙ (unfold get_command in h.cmd_is);
      uin_is =
          get32-set16_apart d 22 stat 12 (inl (omega arith))
          ∙ get32-set16_apart c 20 port 12 (inl (omega arith))
          ∙ get32-set32_apart b 16 ip 12 (inl (omega arith))
          ∙ get32-set32 a 12 uin (omega arith) uin_small;
      ip_is =
          get32-set16_apart d 22 stat 16 (inl (omega arith))
          ∙ get32-set16_apart c 20 port 16 (inl (omega arith))
          ∙ get32-set32 b 16 ip (omega arith) ip_small;
      port_is =
          get16-set16_apart d 22 stat 20 (inl (omega arith))
          ∙ get16-set16 c 20 port (omega arith) port_small;
      stat_is = get16-set16 d 22 stat (omega arith) stat_small;
    }

-- What the status server makes of it.
pub status_packet-Change :
    (st st' : Status.Server) (buf out o : Packet) (uin ip port stat : ℕ)
    → length buf ≡ max_packet_len
    → Change o uin ip port stat
    → set_status st uin ip port stat ≡ success st'
    → (o' : Packet) × (status_packet st (received buf o) out
        ≡ replied st' o' (take (get_length o') o'))
unfolding status_packet on_status_change
status_packet-Change st st' buf out o uin ip port stat room ch done =
    let le : get_length o ≤ length buf = omega (arith, ch.len) in
    let whole : get_length o ≤ length o = omega (arith, ch.len, ch.size) in
    let r = received buf o in
    let cmd : get_command r ≡ cmd_status_change_code =
      unfold get_command in get16-received buf o le whole 4 (omega (arith, ch.len)) ∙ ch.cmd in
    let of : get_field_uint32_t (get_parameters r) 0 ≡ uin =
      get32-drop 12 r 0 ∙ get32-received buf o le whole 12 (omega (arith, ch.len)) ∙ ch.uin_is in
    let at : get_field_uint32_t (get_parameters r) 4 ≡ ip =
      get32-drop 12 r 4 ∙ get32-received buf o le whole 16 (omega (arith, ch.len)) ∙ ch.ip_is in
    let through : get_field_uint16_t (get_parameters r) 8 ≡ port =
      get16-drop 12 r 8 ∙ get16-received buf o le whole 20 (omega (arith, ch.len)) ∙ ch.port_is in
    let on : get_field_uint16_t (get_parameters r) 10 ≡ stat =
      get16-drop 12 r 10 ∙ get16-received buf o le whole 22 (omega (arith, ch.len)) ∙ ch.stat_is in
    let set : set_status st (get_field_uint32_t (get_parameters r) 0)
          (get_field_uint32_t (get_parameters r) 4) (get_field_uint16_t (get_parameters r) 8)
          (get_field_uint16_t (get_parameters r) 10)
        ≡ success st' =
      rw of (rw at (rw through (rw on done))) in
    (
      fill_packet_header out packet_header_len rep_status_changed_code
          (get_field_uint32_t (get_parameters r) 0),
      rw cmd (rw (set, on_status_change) refl),
    )
