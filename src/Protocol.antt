-- ===== src/Protocol.antt =====
-- The numbers of include/protocol.h, include/conn_define.h, include/conn_connection.h,
-- include/conn_packet.h and include/list_packet.h, in lower case.
-- A constant of the source whose name is a function's as well ends in _code here.
use mini_im.Base.{ℕ}

-- Commands from a client to the server.
abbrev pub cmd_keep_alive_code : ℕ
cmd_keep_alive_code = 0x000A

abbrev pub cmd_login_code : ℕ
cmd_login_code = 0x0101

abbrev pub cmd_logout_code : ℕ
cmd_logout_code = 0x0102

abbrev pub cmd_register_code : ℕ
cmd_register_code = 0x0103

abbrev pub cmd_set_nick_code : ℕ
cmd_set_nick_code = 0x0201

abbrev pub cmd_add_contact_code : ℕ
cmd_add_contact_code = 0x0301

abbrev pub cmd_add_contact_reply_code : ℕ
cmd_add_contact_reply_code = 0x0302

abbrev pub cmd_contact_list_code : ℕ
cmd_contact_list_code = 0x0401

abbrev pub cmd_contact_info_multi_code : ℕ
cmd_contact_info_multi_code = 0x0402

abbrev pub cmd_message_code : ℕ
cmd_message_code = 0x0501

abbrev pub cmd_offline_msg_code : ℕ
cmd_offline_msg_code = 0x0601

-- Replies from the server to a client.
abbrev pub srv_error_code : ℕ
srv_error_code = 0x000E

abbrev pub srv_login_ok_code : ℕ
srv_login_ok_code = 0x0101

abbrev pub srv_register_ok_code : ℕ
srv_register_ok_code = 0x0102

abbrev pub srv_set_nick_ok_code : ℕ
srv_set_nick_ok_code = 0x0201

abbrev pub srv_add_contact_wait_code : ℕ
srv_add_contact_wait_code = 0x0301

abbrev pub srv_contact_list_code : ℕ
srv_contact_list_code = 0x0401

abbrev pub srv_contact_info_multi_code : ℕ
srv_contact_info_multi_code = 0x0402

abbrev pub srv_message_code : ℕ
srv_message_code = 0x0501

abbrev pub srv_offline_msg_code : ℕ
srv_offline_msg_code = 0x0601

abbrev pub srv_offline_msg_done_code : ℕ
srv_offline_msg_done_code = 0x0602

-- Commands and replies between the modules.
abbrev pub cmd_status_change_code : ℕ
cmd_status_change_code = 0x1101

abbrev pub cmd_get_status_code : ℕ
cmd_get_status_code = 0x1201

abbrev pub cmd_multi_status_code : ℕ
cmd_multi_status_code = 0x1202

abbrev pub cmd_msg_friend_code : ℕ
cmd_msg_friend_code = 0x1203

abbrev pub cmd_conn_info_code : ℕ
cmd_conn_info_code = 0x1204

abbrev pub rep_status_changed_code : ℕ
rep_status_changed_code = 0x2101

abbrev pub rep_status_code : ℕ
rep_status_code = 0x2201

abbrev pub rep_multi_status_code : ℕ
rep_multi_status_code = 0x2202

abbrev pub cmd_friend_add_code : ℕ
cmd_friend_add_code = 0x1301

-- Message types.
abbrev pub msg_type_request : ℕ
msg_type_request = 1

abbrev pub msg_type_accept : ℕ
msg_type_accept = 2

abbrev pub msg_type_refuse : ℕ
msg_type_refuse = 3

abbrev pub msg_type_chat : ℕ
msg_type_chat = 4

-- Sizes of a packet and of its header.
abbrev pub max_packet_len : ℕ
max_packet_len = 5018

abbrev pub packet_header_len : ℕ
packet_header_len = 12

-- States of a connection (include/conn_connection.h).
abbrev pub not_login_connection : ℕ
not_login_connection = 1

abbrev pub login_ok_connection : ℕ
login_ok_connection = 2

abbrev pub login_uncomplete_connection : ℕ
login_uncomplete_connection = 3

abbrev pub login_error_connection : ℕ
login_error_connection = 4

-- Seconds without a sign of life after which a client is dropped (include/conn_define.h).
abbrev pub client_timeout : ℕ
client_timeout = 120

-- What a status change says (include/conn_packet.h).
abbrev pub status_change_offline : ℕ
status_change_offline = 0

abbrev pub status_change_online : ℕ
status_change_online = 1

abbrev pub err_already_friend : ℕ
err_already_friend = 1

abbrev pub err_not_exist : ℕ
err_not_exist = 2
