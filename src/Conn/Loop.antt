-- ===== src/Conn/Loop.antt =====
-- The event loop of the connection server, epoll_loop of conn/conn_network.c: one round of it.
use mini_im.Base.{ℕ, List, [], ◌∷◌, Option, some, Bool, ◌==◌, if◌then◌else◌, ◌>>=◌}
use mini_im.Conn.Hash.{HashOps}
use mini_im.Conn.State.{Server}
use mini_im.Conn.Events.{error_handler, timer_expire_time}
use mini_im.Conn.Sockets.{Ending, Accepting, Wrote, accept_handler, read_handler, write_handler}

-- An entry of the array that epoll_wait fills, with what the calls of its handler return.
pub record Event : Type 0 where
  pub fd : ℕ
  -- EPOLLERR or EPOLLHUP
  pub failed : Bool
  -- EPOLLIN and EPOLLOUT
  pub readable : Bool
  pub writable : Bool
  pub clients : List (ℕ × ℕ)
  pub accepting : Accepting
  pub reads : List (List ℕ)
  pub ending : Ending
  pub writes : ℕ → Wrote

module _ {M : Type 0} {Unique : M → Type 0} (h : HashOps M Unique) (sfd : ℕ) where
  -- `sfd` is the socket that the server listens on.
  unfoldable pub handle_event : Server M → Event → Option (Server M)
  handle_event s e =
      if e.failed
      then error_handler h s e.fd
      else if sfd == e.fd
      then some (accept_handler h s e.clients e.accepting).0
      else if e.readable
      then read_handler h s e.fd e.reads e.ending
      else if e.writable
      then (write_handler h s e.fd e.writes >>= λ (s', _). some s')
      else some s

  unfoldable pub handle_events : Server M → List Event → Option (Server M)
  handle_events s [] = some s
  handle_events s (e ∷ events) = handle_event s e >>= λ s'. handle_events s' events

  -- `interval` is the number of seconds since the last round that saw time go by.
  unfoldable pub epoll_round : Server M → List Event → ℕ → Option (Server M)
  epoll_round s events interval = handle_events s events >>= λ s'. timer_expire_time h s' interval
