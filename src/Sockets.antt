-- ===== src/Sockets.antt =====
-- src/libs/networking/ClientConnection.cpp and .h, ServerConnection.cpp and .h. What the operating
-- system answers to each call is an argument. `fd` is `none` where the source has -1.
use slipstream_volume_aware.Prelude.{
  ℕ, ◌+◌, ◌*◌, ◌/◌, ◌%◌, List, [], ◌∷◌, take, Bool, true, false, ◌==◌, not, if◌then◌else◌, Option,
  none, some,
}
use slipstream_volume_aware.Prelude.Outcome.{
  Outcome, ok, err, logic_error, runtime_error, out_of_range,
}
pub mod Transfer
pub mod Ownership
mod Tests

-- `errno` after a call that failed.
pub data Errno : Type 0 where
  eintr eagain other_errno : Errno

-- What `recv` answers: -1, 0, or some bytes.
pub data Received : Type 0 where
  recv_failed : Errno → Received
  closed_by_peer : Received
  bytes : (first : ℕ) (more : List ℕ) → Received

pub record ClientConnection : Type 0 where
  pub fd : Option ℕ

pub record ServerConnection : Type 0 where
  pub fd : Option ℕ

-- The last tests of `receiveBuffer`; the bytes stand for their number and what is in the buffer.
unfoldable pub received : Received → Outcome (List ℕ)
received (recv_failed eintr) = err runtime_error
received (recv_failed eagain) = ok []
received (recv_failed other_errno) = err runtime_error
received closed_by_peer = err out_of_range
received (bytes b bs) = ok (b ∷ bs)

-- The loop over `EINTR`, on the answers to the calls of `recv`; `none` where it still runs when they
-- are at their end.
unfoldable pub recv_loop : List Received → Option (Outcome (List ℕ))
unfolding received
recv_loop [] = none
recv_loop (recv_failed eintr ∷ rs) = recv_loop rs
recv_loop (recv_failed eagain ∷ rs) = some (received (recv_failed eagain))
recv_loop (recv_failed other_errno ∷ rs) = some (received (recv_failed other_errno))
recv_loop (closed_by_peer ∷ rs) = some (received closed_by_peer)
recv_loop (bytes b bs ∷ rs) = some (received (bytes b bs))

-- `body`, on an open descriptor.
unfoldable pub on_open {ℓ} : {A : Type ℓ} → Option ℕ → A → A → A
on_open none closed body = closed
on_open (some d) closed body = body

unfoldable pub receive_buffer : ClientConnection → List Received → Option (Outcome (List ℕ))
unfolding recv_loop on_open
receive_buffer c rs = on_open c.fd (some (err logic_error)) (recv_loop rs)

-- What `send` answers: -1, or how many bytes it has taken, which may be fewer than were offered.
pub data Sent : Type 0 where
  send_failed : Sent
  taken : ℕ → Sent

unfoldable pub sent : Sent → Outcome ℕ
sent send_failed = err runtime_error
sent (taken n) = if n == 0 then err out_of_range else ok n

-- What `sendBuffer` returns, and the bytes of the buffer that go out.
unfoldable pub send_buffer : ClientConnection → List ℕ → Sent → Outcome ℕ × List ℕ
unfolding sent on_open
send_buffer c buffer send_failed = (on_open c.fd (err logic_error) (sent send_failed), [])
send_buffer c buffer (taken n) =
    (on_open c.fd (err logic_error) (sent (taken n)), on_open c.fd [] (take n buffer))

-- `timeval`: whole seconds, and the rest in microseconds.
pub record Timeval : Type 0 where
  pub tv_sec : ℕ
  pub tv_usec : ℕ

unfoldable pub set_receive_timeout : ℕ → Timeval
set_receive_timeout ms = record { tv_sec = ms / 1000; tv_usec = ms % 1000 * 1000 }

-- The constructor that connects, with the descriptors that the process has open before and after.
-- `address` says whether `getaddrinfo` succeeds, `socket` is the new descriptor, and `connected`
-- says whether `connect` succeeds.
unfoldable pub connect :
    List ℕ
    → (address : Bool) (socket : Option ℕ) (connected : Bool) → Outcome ClientConnection × List ℕ
connect open_fds false socket connected = (err runtime_error, open_fds)
connect open_fds true none connected = (err logic_error, open_fds)
connect open_fds true (some d) false = (err runtime_error, d ∷ open_fds)
connect open_fds true (some d) true = (ok record { fd = some d }, d ∷ open_fds)

-- The constructor of `ServerConnection`, with what `bind` and `listen` answer.
unfoldable pub listen_on :
    List ℕ
    → (address : Bool) (socket : Option ℕ) (bound listening : Bool)
    → Outcome ServerConnection × List ℕ
listen_on open_fds false socket bound listening = (err runtime_error, open_fds)
listen_on open_fds true none bound listening = (err logic_error, open_fds)
listen_on open_fds true (some d) false listening = (err runtime_error, d ∷ open_fds)
listen_on open_fds true (some d) true false = (err runtime_error, d ∷ open_fds)
listen_on open_fds true (some d) true true = (ok record { fd = some d }, d ∷ open_fds)

-- What `::accept` answers.
pub data Accepted : Type 0 where
  accept_failed : Errno → Accepted
  accepted : ℕ → Accepted

-- `accept`, on the answers to its calls; `none` where it is still interrupted when they are at their
-- end.
unfoldable pub accept : List Accepted → Option (Outcome ClientConnection)
accept [] = none
accept (accept_failed eintr ∷ rs) = accept rs
accept (accept_failed eagain ∷ rs) = some (err runtime_error)
accept (accept_failed other_errno ∷ rs) = some (err runtime_error)
accept (accepted d ∷ rs) = some (ok record { fd = some d })

-- `close(fd)`, which does nothing to the table at -1.
unfoldable pub close_fd : Option ℕ → List ℕ → List ℕ
close_fd none open_fds = open_fds
close_fd (some d) [] = []
close_fd (some d) (e ∷ open_fds) =
    let rest = close_fd (some d) open_fds in if d == e then open_fds else e ∷ rest

-- `free`, which the destructors call too.
unfoldable pub free : ClientConnection → List ℕ → List ℕ
unfolding close_fd
free c open_fds = close_fd c.fd open_fds

-- `moveFrom`: the object that takes the descriptor, and the one that gives it up.
unfoldable pub move_from : ClientConnection → ClientConnection × ClientConnection
move_from other = (record { fd = other.fd }, record { fd = none })

-- The constructor that is given a descriptor, and the one that moves.
unfoldable pub of_fd : ℕ → ClientConnection
of_fd d = record { fd = some d }

unfoldable pub move_construct : ClientConnection → ClientConnection × ClientConnection
unfolding move_from
move_construct other = move_from other

-- The destructor.
unfoldable pub destroy : ClientConnection → List ℕ → List ℕ
unfolding free
destroy c open_fds = free c open_fds

-- The assignment between two objects.
unfoldable pub move_assign :
    ClientConnection → ClientConnection → List ℕ → (ClientConnection × ClientConnection) × List ℕ
unfolding free move_from
move_assign self other open_fds = (move_from other, free self open_fds)

-- The same of `ServerConnection`.
unfoldable pub free_server : ServerConnection → List ℕ → List ℕ
unfolding close_fd
free_server c open_fds = close_fd c.fd open_fds

unfoldable pub move_server_from : ServerConnection → ServerConnection × ServerConnection
move_server_from other = (record { fd = other.fd }, record { fd = none })

unfoldable pub move_server_assign :
    ServerConnection → ServerConnection → List ℕ → (ServerConnection × ServerConnection) × List ℕ
unfolding free_server move_server_from
move_server_assign self other open_fds = (move_server_from other, free_server self open_fds)

unfoldable pub move_construct_server : ServerConnection → ServerConnection × ServerConnection
unfolding move_server_from
move_construct_server other = move_server_from other

unfoldable pub destroy_server : ServerConnection → List ℕ → List ℕ
unfolding free_server
destroy_server c open_fds = free_server c open_fds
