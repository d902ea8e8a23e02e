-- ===== src/Connection.antt =====
-- struct connection of include/conn_connection.h. The two packet queues are the packets in their
-- order; the link into the timer wheel is kept by the wheel.
use mini_im.Base.{ℕ, List, [], Bool, false}
use mini_im.Protocol.{not_login_connection}
use mini_im.Packet.{Packet}

pub record Connection : Type 0 where
  pub recv_packet_list : List Packet
  pub send_packet_list : List Packet
  pub uin : ℕ
  pub sfd : ℕ
  pub expect_bytes : ℕ
  -- the two bytes of `length`
  pub length_low : ℕ
  pub length_high : ℕ
  pub conn_type : ℕ
  pub length_incomplete : Bool

-- conn_init
unfoldable pub conn_init : Connection
conn_init = record {
  recv_packet_list = [];
  send_packet_list = [];
  uin = 0;
  sfd = 0;
  expect_bytes = 0;
  length_low = 0;
  length_high = 0;
  conn_type = not_login_connection;
  length_incomplete = false;
}
