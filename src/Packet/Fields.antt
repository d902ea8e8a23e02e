-- ===== src/Packet/Fields.antt =====
-- The command-specific accessors of include/list_packet.h: first what a client writes, then what
-- it reads of a reply. `current` is the rest of a reply from the record that is read.
use mini_im.Base.{ℕ, ◌+◌, ◌*◌, List, [], ◌∷◌}
use mini_im.Protocol.{packet_header_len}
use mini_im.Bytes.{put_at, get_field_uint16_t, get_field_uint32_t, get_field_ptr, set_field_ptr}
use mini_im.Packet.{Packet, get_parameters, set_param_uint16_t, set_param_uint32_t}

-- set_field_ptr(get_parameters(lp), off, ptr, size)
unfoldable pub set_param_ptr : Packet → ℕ → List ℕ → ℕ → Packet
set_param_ptr lp off ptr size = set_field_ptr lp (packet_header_len + off) ptr size

-- set_field(get_parameters(lp), off, '\0', char)
unfoldable pub set_param_nul : Packet → ℕ → Packet
set_param_nul lp off = put_at lp (packet_header_len + off) (0 ∷ [])

unfoldable pub cl_set_password : Packet → List ℕ → ℕ → Packet
cl_set_password lp pass length = set_param_ptr (set_param_uint16_t lp 0 length) 2 pass length

unfoldable pub csn_set_nick : Packet → List ℕ → ℕ → Packet
csn_set_nick lp nick length =
    let a = set_param_uint16_t lp 0 (length + 1) in
    let b = set_param_ptr a 2 nick (length + 1) in set_param_nul b (2 + length)

unfoldable pub cac_set_uin : Packet → ℕ → Packet
cac_set_uin lp uin = set_param_uint32_t lp 0 uin

unfoldable pub cacr_set_to_uin : Packet → ℕ → Packet
cacr_set_to_uin lp to_uin = set_param_uint32_t lp 0 to_uin

unfoldable pub cacr_set_reply_type : Packet → ℕ → Packet
cacr_set_reply_type lp reply_type = set_param_uint16_t lp 4 reply_type

-- `uins` is the memory of the array, four bytes for each number.
unfoldable pub ccim_set_uins : Packet → List ℕ → ℕ → Packet
ccim_set_uins lp uins count = set_param_ptr (set_param_uint16_t lp 0 count) 2 uins (count * 4)

unfoldable pub cm_set_to_uin : Packet → ℕ → Packet
cm_set_to_uin lp to_uin = set_param_uint32_t lp 0 to_uin

unfoldable pub cm_set_message : Packet → List ℕ → ℕ → Packet
cm_set_message lp message length =
    let a = set_param_uint16_t lp 8 (length + 1) in
    let b = set_param_ptr a 10 message (length + 1) in set_param_nul b (10 + length)

unfoldable pub se_get_client_cmd : Packet → ℕ
se_get_client_cmd lp = get_field_uint16_t (get_parameters lp) 0

unfoldable pub se_set_client_cmd : Packet → ℕ → Packet
se_set_client_cmd lp client_cmd = set_param_uint16_t lp 0 client_cmd

unfoldable pub se_get_error_type : Packet → ℕ
se_get_error_type lp = get_field_uint16_t (get_parameters lp) 2

unfoldable pub se_set_error_type : Packet → ℕ → Packet
se_set_error_type lp error_type = set_param_uint16_t lp 2 error_type

unfoldable pub slo_get_nick_length : Packet → ℕ
slo_get_nick_length lp = get_field_uint16_t (get_parameters lp) 0

unfoldable pub slo_get_nick : Packet → List ℕ
slo_get_nick lp = get_field_ptr (get_parameters lp) 2

unfoldable pub ssno_get_nick_length : Packet → ℕ
ssno_get_nick_length lp = get_field_uint16_t (get_parameters lp) 0

unfoldable pub ssno_get_nick : Packet → List ℕ
ssno_get_nick lp = get_field_ptr (get_parameters lp) 2

unfoldable pub sacw_get_from_uin : Packet → ℕ
sacw_get_from_uin lp = get_field_uint32_t (get_parameters lp) 0

unfoldable pub sacw_get_nick_length : Packet → ℕ
sacw_get_nick_length lp = get_field_uint16_t (get_parameters lp) 4

unfoldable pub sacw_get_nick : Packet → List ℕ
sacw_get_nick lp = get_field_ptr (get_parameters lp) 6

unfoldable pub scl_get_contact_count : Packet → ℕ
scl_get_contact_count lp = get_field_uint16_t (get_parameters lp) 0

unfoldable pub scl_get_contact_uins : Packet → List ℕ
scl_get_contact_uins lp = get_field_ptr (get_parameters lp) 2

unfoldable pub scim_get_contact_count : Packet → ℕ
scim_get_contact_count lp = get_field_uint16_t (get_parameters lp) 0

unfoldable pub scim_get_first_ptr : Packet → List ℕ
scim_get_first_ptr lp = get_field_ptr (get_parameters lp) 2

unfoldable pub scim_get_uin : List ℕ → ℕ
scim_get_uin current = get_field_uint32_t current 0

unfoldable pub scim_get_status : List ℕ → ℕ
scim_get_status current = get_field_uint16_t current 4

unfoldable pub scim_get_nick_length : List ℕ → ℕ
scim_get_nick_length current = get_field_uint16_t current 6

unfoldable pub scim_get_nick : List ℕ → List ℕ
scim_get_nick current = get_field_ptr current 8

unfoldable pub scim_get_next_ptr : List ℕ → List ℕ
scim_get_next_ptr current = get_field_ptr current (8 + scim_get_nick_length current)

unfoldable pub sm_get_from_uin : Packet → ℕ
sm_get_from_uin lp = get_field_uint32_t (get_parameters lp) 0

unfoldable pub sm_get_type : Packet → ℕ
sm_get_type lp = get_field_uint16_t (get_parameters lp) 8

unfoldable pub sm_get_msg_length : Packet → ℕ
sm_get_msg_length lp = get_field_uint16_t (get_parameters lp) 10

unfoldable pub sm_get_message : Packet → List ℕ
sm_get_message lp = get_field_ptr (get_parameters lp) 12

unfoldable pub som_get_msg_count : Packet → ℕ
som_get_msg_count lp = get_field_uint16_t (get_parameters lp) 0

unfoldable pub som_get_first_ptr : Packet → List ℕ
som_get_first_ptr lp = get_field_ptr (get_parameters lp) 2

unfoldable pub som_get_from_uin : List ℕ → ℕ
som_get_from_uin current = get_field_uint32_t current 0

unfoldable pub som_get_type : List ℕ → ℕ
som_get_type current = get_field_uint16_t current 8

unfoldable pub som_get_msg_length : List ℕ → ℕ
som_get_msg_length current = get_field_uint16_t current 10

unfoldable pub som_get_message : List ℕ → List ℕ
som_get_message current = get_field_ptr current 12

unfoldable pub som_get_next_ptr : List ℕ → List ℕ
som_get_next_ptr current = get_field_ptr current (12 + som_get_msg_length current)
