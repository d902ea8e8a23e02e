-- ===== src/Message/Asking.antt =====
-- The request of the message server for a status, and the answer of the status server.
use mini_im.Base.{ℕ, ◌<◌, ◌^◌, ◌≡◌, ◌∙◌, inl, inr, arith, length}
use mini_im.Protocol.{max_packet_len, cmd_get_status_code, rep_status_code}
use mini_im.Bytes.{get_field_uint16_t, get_field_uint32_t, set_field_uint16_t, set_field_uint32_t}
use mini_im.Bytes.Laws.{get16-set16, get32-set32}
use mini_im.Packet.{
  Packet, get_length, get_command, get_uin, fill_packet_header, set_param_uint32_t,
}
use mini_im.Packet.Laws.{
  fill_packet_header-Header, length-fill_packet_header, get16-fill_packet_header,
  get32-fill_packet_header, length-set16, length-set32, get16-set16_apart, get16-set32_apart,
  get32-set16_apart, get32-set32_apart,
}

-- A packet with its length, command and uin, in a buffer of the whole length.
pub record Shaped (o : Packet) (len cmd : ℕ) : Type 0 where
  pub size : length o ≡ max_packet_len
  pub len_is : get_length o ≡ len
  pub cmd_is : get_command o ≡ cmd

-- The request for the status of a user.
abbrev pub request : Packet → ℕ → Packet
request o uin = set_param_uint32_t (fill_packet_header o 16 cmd_get_status_code uin) 0 uin

module _ (o : Packet) (uin : ℕ) (size : length o ≡ max_packet_len) (small : uin < 2 ^ 32) where
  pub request-Shaped : Shaped (request o uin) 16 cmd_get_status_code
  unfolding set_param_uint32_t get_length get_command
  request-Shaped =
      let a = fill_packet_header o 16 cmd_get_status_code uin in
      let h =
        fill_packet_header-Header o 16 cmd_get_status_code uin (omega arith) (omega arith)
          (omega arith) small in
      record {
        size =
            length-set32 a 12 uin ∙ length-fill_packet_header o 16 cmd_get_status_code uin ∙ size;
        len_is = get16-set32_apart a 12 uin 0 (inl (omega arith)) ∙ h.len_is;
        cmd_is = get16-set32_apart a 12 uin 4 (inl (omega arith)) ∙ h.cmd_is;
      }

  pub request_sender : get_uin (request o uin) ≡ uin
  unfolding set_param_uint32_t get_uin
  request_sender =
      get32-set32_apart (fill_packet_header o 16 cmd_get_status_code uin) 12 uin 8
        (inl (omega arith))
      ∙ (fill_packet_header-Header o 16 cmd_get_status_code uin (omega arith) (omega arith)
          (omega arith) small).uin_is

  pub request_uin : get_field_uint32_t (request o uin) 12 ≡ uin
  unfolding set_param_uint32_t
  request_uin =
      get32-set32 (fill_packet_header o 16 cmd_get_status_code uin) 12 uin
        (omega (arith, length-fill_packet_header o 16 cmd_get_status_code uin)) small

-- The status server's answer.
pub record Answer (o : Packet) (uin stat ip port : ℕ) : Type 0 where
  pub shaped : Shaped o 24 rep_status_code
  pub uin_is : get_field_uint32_t o 12 ≡ uin
  pub ip_is : get_field_uint32_t o 16 ≡ ip
  pub port_is : get_field_uint16_t o 20 ≡ port
  pub stat_is : get_field_uint16_t o 22 ≡ stat

abbrev pub answer : Packet → (uin sender stat ip port : ℕ) → Packet
answer out uin sender stat ip port =
    let named = set_field_uint32_t out 12 uin in
    let stated = set_field_uint16_t named 22 stat in
    let placed = set_field_uint32_t stated 16 ip in
    let ported = set_field_uint16_t placed 20 port in
    fill_packet_header ported 24 rep_status_code sender

module _ (out : Packet) (uin sender stat ip port : ℕ) (size : length out ≡ max_packet_len)
    (small : uin < 2 ^ 32) (sender_small : sender < 2 ^ 32) (stat_small : stat < 2 ^ 16)
    (ip_small : ip < 2 ^ 32) (port_small : port < 2 ^ 16) where
  abbrev named : Packet
  named = set_field_uint32_t out 12 uin

  abbrev stated : Packet
  stated = set_field_uint16_t named 22 stat

  abbrev placed : Packet
  placed = set_field_uint32_t stated 16 ip

  abbrev ported : Packet
  ported = set_field_uint16_t placed 20 port

  pub answer-Answer : Answer (answer out uin sender stat ip port) uin stat ip port
  unfolding get_length get_command
  answer-Answer =
      let la = length-set32 out 12 uin in
      let lb = length-set16 named 22 stat in
      let lc = length-set32 stated 16 ip in
      let ld = length-set16 placed 20 port in
      let h =
        fill_packet_header-Header ported 24 rep_status_code sender (omega arith) (omega arith)
          (omega arith) sender_small in
      let past16 = get16-fill_packet_header ported 24 rep_status_code sender in
      let past32 = get32-fill_packet_header ported 24 rep_status_code sender in
      record {
        shaped = record {
          size =
              length-fill_packet_header ported 24 rep_status_code sender ∙ ld ∙ lc ∙ lb ∙ la ∙ size;
          len_is = h.len_is;
          cmd_is = h.cmd_is;
        };
        uin_is =
            past32 12 (omega arith)
            ∙ get32-set16_apart placed 20 port 12 (inl (omega arith))
            ∙ get32-set32_apart stated 16 ip 12 (inl (omega arith))
            ∙ get32-set16_apart named 22 stat 12 (inl (omega arith))
            ∙ get32-set32 out 12 uin (omega arith) small;
        ip_is =
            past32 16 (omega arith)
            ∙ get32-set16_apart placed 20 port 16 (inl (omega arith))
            ∙ get32-set32 stated 16 ip (omega arith) ip_small;
        port_is = past16 20 (omega arith) ∙ get16-set16 placed 20 port (omega arith) port_small;
        stat_is =
            past16 22 (omega arith)
            ∙ get16-set16_apart placed 20 port 22 (inr (omega arith))
            ∙ get16-set32_apart stated 16 ip 22 (inr (omega arith))
            ∙ get16-set16 named 22 stat (omega arith) stat_small;
      }
