-- ===== src/Conn/Sockets.antt =====
-- The handlers that the event loop calls for a socket, conn/conn_network.c. What accept, read and
-- write return is an argument. A handler that finds its socket without a connection closes it.
use mini_im.Base.{
  ℕ, zero, suc, ◌-◌, List, [], ◌∷◌, ◌++◌, Option, none, some, Bool, true, false, ◌>>=◌,
  if◌then◌else◌, length, take,
}
use mini_im.Packet.{Packet, get_length}
use mini_im.Connection.{Connection}
use mini_im.Reader.{Outcome, done, error, corrupted, out_of_rounds, read_packet}
use mini_im.Conn.Hash.{HashOps}
use mini_im.Conn.State.{Server, ConnPtr, get_conn, set_conn, get_conn_by_fd}
use mini_im.Conn.Send.{free_packet}
use mini_im.Conn.Events.{accept_client, process_packets, error_handler}

-- Why a loop over the calls ends: EAGAIN, or an error or the end of the file.
pub data Ending : Type 0 where
  would_block broken_off : Ending

-- How accept_handler ends: all are accepted, accept fails, or set_nonblocking or epoll_ctl fails for
-- a socket.
pub data Accepting : Type 0 where
  drained accept_failed : Accepting
  refused : ℕ → Accepting

-- What write returns for one packet: a count, or -1 with or without EAGAIN.
pub data Wrote : Type 0 where
  wrote : ℕ → Wrote
  write_blocked write_failed : Wrote

-- What the loop of write_handler leaves: the server, whether the connection is to be closed, and
-- the bytes written.
pub record Flushed (M : Type 0) : Type 0 where
  pub server : Server M
  pub err_handle : Bool
  pub written : List ℕ

-- The reads of read_handler, each with the bytes that it returns.
unfoldable pub read_all : Connection → List (List ℕ) → Outcome
read_all c [] = done c
read_all c (buf ∷ more) = elim (read_packet c buf) [
  | done c' ↦ read_all c' more
  | error c' ↦ error c'
  | corrupted ↦ corrupted
  | out_of_rounds ↦ out_of_rounds
]

module _ {M : Type 0} where
  -- The connection after its reads, and the memory of the packets that they queued.
  abbrev pub after_reads : Server M → ConnPtr → (c c' : Connection) → Server M
  after_reads s p c c' =
      set_conn
        (record s {
          free_packets = s.free_packets - (length c'.recv_packet_list - length c.recv_packet_list);
        })
        p c'

  -- The loop of write_handler, for the packets on the queue; `k` calls have been made.
  unfoldable pub write_loop :
      (ℕ → Wrote) → ℕ → Server M → ConnPtr → Connection → List Packet → Flushed M
  write_loop calls k s p c [] = record { server = s; err_handle = false; written = [] }
  write_loop calls k s p c (packet ∷ rest) =
      let s' = set_conn s p (record c { send_packet_list = rest }) in
      let later = write_loop calls (suc k) (free_packet s') p c rest in
      elim (calls k) [
        | write_blocked ↦ record { server = s'; err_handle = false; written = [] }
        | write_failed ↦ record { server = s'; err_handle = true; written = [] }
        | wrote zero ↦ record { server = s'; err_handle = true; written = [] }
        | wrote (suc n) ↦ record later {
          written = take (suc n) (take (get_length packet) packet) ++ later.written;
        }
      ]

module _ {M : Type 0} {Unique : M → Type 0} (h : HashOps M Unique) where
  unfoldable pub accept_all : Server M → List (ℕ × ℕ) → Server M
  accept_all s [] = s
  accept_all s ((fd, a) ∷ more) = accept_all (accept_client h s fd a) more

  -- With what it returns: true for 0 and false for -1.
  unfoldable pub accept_handler : Server M → List (ℕ × ℕ) → Accepting → Server M × Bool
  accept_handler s clients drained = (accept_all s clients, true)
  accept_handler s clients accept_failed = (accept_all s clients, false)
  accept_handler s clients (refused fd) =
      let s' = accept_all s clients in (record s' { closed_fds = s'.closed_fds ++ fd ∷ [] }, false)

  -- `none` is an access to memory that has been freed or a write behind that of a packet.
  unfoldable pub read_handler : Server M → ℕ → List (List ℕ) → Ending → Option (Server M)
  read_handler s fd reads ending = elim (get_conn_by_fd h s fd) [
    | none ↦ error_handler h s fd
    | some p ↦ get_conn s p >>= λ c. elim (read_all c reads) [
      | done c' ↦ elim ending [
        | would_block ↦ process_packets h (length c'.recv_packet_list) (after_reads s p c c') p
        | broken_off ↦ error_handler h (after_reads s p c c') fd
      ]
      | error c' ↦ error_handler h (after_reads s p c c') fd
      | corrupted ↦ none
      | out_of_rounds ↦ none
    ]
  ]

  -- With the bytes written. wait_for_read is called unless the connection is closed.
  unfoldable pub write_handler : Server M → ℕ → (ℕ → Wrote) → Option (Server M × List ℕ)
  write_handler s fd calls = elim (get_conn_by_fd h s fd) [
    | none ↦ error_handler h s fd >>= λ s'. some (s', [])
    | some p ↦ get_conn s p >>= λ c.
        let f = write_loop calls 0 s p c c.send_packet_list in
        let s' = f.server in
        if f.err_handle
        then (error_handler h s' fd >>= λ closed. some (closed, f.written))
        else some (record s' { read_waits = s'.read_waits ++ fd ∷ [] }, f.written)
  ]
