-- ===== src/Conn/Start.antt =====
-- The start of the connection server, main of conn/conn_server.c, up to the event loop.
use mini_im.Base.{ℕ, Option, some, ◌>>=◌}
use mini_im.Conn.Hash.{HashOps}
use mini_im.Conn.State.{Server, conn_server_init}
use mini_im.Conn.Send.{send_conn_info_to_message}

module _ {M : Type 0} {Unique : M → Type 0} (h : HashOps M Unique) where
  -- connect_to_server returns a socket, or `none` for -1, for the user, contact, status and message
  -- servers; `ip` and `port` are what get_sock_info finds. setup_socket and setup_epoll succeed.
  -- `none` is a return before the event loop.
  unfoldable pub start :
      (user contact status message : Option ℕ) → (ip port : ℕ) → Option (Server M)
  start user contact status message ip port = do
    user_fd ← user
    contact_fd ← contact
    status_fd ← status
    message_fd ← message
    let server = conn_server_init h ip port
    some (
        send_conn_info_to_message (record server {
          user_conn = record server.user_conn { sfd = user_fd };
          contact_conn = record server.contact_conn { sfd = contact_fd };
          status_conn = record server.status_conn { sfd = status_fd };
          message_conn = record server.message_conn { sfd = message_fd };
        }))
