-- ===== src/Packet.antt =====
-- struct packet of include/protocol.h as its bytes, and the accessors of include/list_packet.h.
-- The link field of struct list_packet belongs to the lists that packets stand in.
pub mod Fields
pub mod Laws
use mini_im.Base.{ℕ, ◌+◌, ◌*◌, List, replicate}
use mini_im.Protocol.{max_packet_len, packet_header_len}
use mini_im.Bytes.{
  get_field_uint16_t, get_field_uint32_t, get_field_ptr, set_field_uint16_t, set_field_uint32_t,
}

-- The bytes len:2 ver:2 cmd:2 pad:2 uin:4 params, as many as were allocated.
abbrev pub Packet : Type 0
Packet = List ℕ

-- conn_packet.h: all of LIST_PACKET_SIZE is set to zero.
unfoldable pub packet_init : Packet
packet_init = replicate max_packet_len 0

unfoldable pub get_length : Packet → ℕ
unfolding get_field_uint16_t
get_length lp = get_field_uint16_t lp 0

unfoldable pub set_length : Packet → ℕ → Packet
set_length lp length = set_field_uint16_t lp 0 length

unfoldable pub get_version : Packet → ℕ
get_version lp = get_field_uint16_t lp 2

unfoldable pub set_version : Packet → ℕ → Packet
set_version lp version = set_field_uint16_t lp 2 version

unfoldable pub get_command : Packet → ℕ
get_command lp = get_field_uint16_t lp 4

unfoldable pub set_command : Packet → ℕ → Packet
set_command lp command = set_field_uint16_t lp 4 command

unfoldable pub get_uin : Packet → ℕ
get_uin lp = get_field_uint32_t lp 8

unfoldable pub set_uin : Packet → ℕ → Packet
set_uin lp uin = set_field_uint32_t lp 8 uin

-- The parameters, as they are read; a write to them names its offset behind the header.
abbrev pub get_parameters : Packet → List ℕ
get_parameters lp = get_field_ptr lp packet_header_len

-- set_field_uint16_t(get_parameters(lp), off, value)
unfoldable pub set_param_uint16_t : Packet → ℕ → ℕ → Packet
set_param_uint16_t lp off value = set_field_uint16_t lp (packet_header_len + off) value

-- set_field_uint32_t(get_parameters(lp), off, value)
unfoldable pub set_param_uint32_t : Packet → ℕ → ℕ → Packet
set_param_uint32_t lp off value = set_field_uint32_t lp (packet_header_len + off) value

-- fill_packet_header of include/modules.h; net16 and net32 are the identity, as _ORDER_CONVERT_ is
-- not defined.
unfoldable pub fill_packet_header : Packet → ℕ → ℕ → ℕ → Packet
fill_packet_header pack len cmd uin =
    let a = set_field_uint16_t pack 0 len in
    let b = set_field_uint16_t a 2 1 in
    let c = set_field_uint16_t b 4 cmd in set_field_uint32_t c 8 uin
