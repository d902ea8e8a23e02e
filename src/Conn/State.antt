-- ===== src/Conn/State.antt =====
-- struct conn_server of include/conn_server.h, and its lookups. A connection of a client is named by
-- its address; `conns` has the live ones. The memory of a packet stands where the packet stands, so
-- of the packet allocator there is the number of packets on its free list.
use mini_im.Base.{ℕ, ◌-◌, List, [], Option, none, some, Bool, ◌||◌, ◌==◌, if◌then◌else◌}
use mini_im.Packet.{Packet}
use mini_im.Connection.{Connection, conn_init}
use mini_im.Timer.{Timer, timer_init}
use mini_im.Conn.Hash.{HashOps}

pub record Server (M : Type 0) : Type 0 where
  pub timer : Timer
  pub keep_alive_list : List Packet
  pub free_packets : ℕ
  pub user_conn : Connection
  pub contact_conn : Connection
  pub status_conn : Connection
  pub message_conn : Connection
  pub uin_conn_map : M
  pub fd_conn_map : M
  pub conns : ℕ → Option Connection
  pub conn_user_ip : ℕ
  pub conn_user_port : ℕ
  -- the sockets that wait_for_write and wait_for_read were called with, and those that were closed
  pub write_waits : List ℕ
  pub read_waits : List ℕ
  pub closed_fds : List ℕ

-- A pointer to a connection: one of the four inside the server, or that of a client.
pub data ConnPtr : Type 0 where
  user contact status message : ConnPtr
  client : ℕ → ConnPtr

abbrev pub update {ℓ} : {A : Type ℓ} → (ℕ → A) → ℕ → A → ℕ → A
update f k v j = if k == j then v else f j

module _ {M : Type 0} where
  -- What the pointer leads to; `none` is memory that has been freed.
  abbrev pub get_conn : Server M → ConnPtr → Option Connection
  get_conn s user = some s.user_conn
  get_conn s contact = some s.contact_conn
  get_conn s status = some s.status_conn
  get_conn s message = some s.message_conn
  get_conn s (client a) = s.conns a

  abbrev pub set_conn : Server M → ConnPtr → Connection → Server M
  set_conn s user c = record s { user_conn = c }
  set_conn s contact c = record s { contact_conn = c }
  set_conn s status c = record s { status_conn = c }
  set_conn s message c = record s { message_conn = c }
  set_conn s (client a) c = record s { conns = update s.conns a (some c) }

  abbrev pub set_client : Server M → ℕ → Connection → Server M
  set_client s a c = record s { conns = update s.conns a (some c) }

  unfoldable pub is_server_socket : Server M → ℕ → Bool
  is_server_socket s fd =
      (fd == s.user_conn.sfd)
      || (fd == s.contact_conn.sfd)
      || (fd == s.message_conn.sfd)
      || (fd == s.status_conn.sfd)

-- A new packet comes off the free list, or from malloc if that is empty.
abbrev pub allocator_malloc : ℕ → ℕ
allocator_malloc free = free - 1

module _ {M : Type 0} {Unique : M → Type 0} (h : HashOps M Unique) where
  open h use {empty, find}

  -- conn_server_init; `ip` and `port` are CONN_USER_IP as a number and CONN_USER_PORT.
  unfoldable pub conn_server_init : ℕ → ℕ → Server M
  conn_server_init ip port = record {
    timer = timer_init;
    keep_alive_list = [];
    free_packets = 0;
    user_conn = conn_init;
    contact_conn = conn_init;
    status_conn = conn_init;
    message_conn = conn_init;
    uin_conn_map = empty;
    fd_conn_map = empty;
    conns = λ _. none;
    conn_user_ip = ip;
    conn_user_port = port;
    write_waits = [];
    read_waits = [];
    closed_fds = [];
  }

  unfoldable pub get_conn_by_fd : Server M → ℕ → Option ConnPtr
  get_conn_by_fd s fd =
      if fd == s.user_conn.sfd
      then some user
      else if fd == s.contact_conn.sfd
      then some contact
      else if fd == s.status_conn.sfd
      then some status
      else if fd == s.message_conn.sfd
      then some message
      else elim (find s.fd_conn_map fd) [ none ↦ none | some a ↦ some (client a) ]

  -- Only clients are put into this map.
  unfoldable pub get_conn_by_uin : Server M → ℕ → Option ℕ
  get_conn_by_uin s uin = find s.uin_conn_map uin
