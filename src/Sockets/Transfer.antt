-- ===== src/Sockets/Transfer.antt =====
-- What goes through a connection.
use slipstream_volume_aware.Prelude.{
  ℕ, zero, suc, ◌<◌, ◌≡◌, refl, ap, List, ◌∷◌, ◌++◌, length, take, replicate, length-take,
  take-take, some, arith,
}
use slipstream_volume_aware.Prelude.Words.{of_bytes}
use slipstream_volume_aware.Prelude.Outcome.{ok}
use slipstream_volume_aware.Reconstructor.Frames.{IsFrame}
use slipstream_volume_aware.Sockets.{
  eintr, eagain, other_errno, Received, recv_failed, closed_by_peer, bytes, received, recv_loop,
  receive_buffer, taken, send_buffer,
}

-- An answer that ends the loop.
abbrev pub Final : Received → Type 0
Final (recv_failed eintr) = ⊥
Final r = Unit

recv_loop-Final :
    (r : Received) (rest : List Received) → Final r → recv_loop (r ∷ rest) ≡ some (received r)
unfolding recv_loop
recv_loop-Final (recv_failed eintr) rest h = absurd h
recv_loop-Final (recv_failed eagain) rest h = refl
recv_loop-Final (recv_failed other_errno) rest h = refl
recv_loop-Final closed_by_peer rest h = refl
recv_loop-Final (bytes b bs) rest h = refl

recv_loop-interrupted :
    (n : ℕ) (r : Received) (rest : List Received)
    → Final r
    → recv_loop (replicate n (recv_failed eintr) ++ (r ∷ rest)) ≡ some (received r)
unfolding recv_loop
recv_loop-interrupted zero r rest h = recv_loop-Final r rest h
recv_loop-interrupted (suc n) r rest h = recv_loop-interrupted n r rest h

-- However often a signal interrupts `recv`, `receiveBuffer` on an open connection returns or throws
-- what the first other answer calls for, and looks at no later one.
pub receive_buffer-interrupted :
    (d n : ℕ) (r : Received) (rest : List Received)
    → Final r
    → receive_buffer (record { fd = some d }) (replicate n (recv_failed eintr) ++ (r ∷ rest))
      ≡ some (received r)
unfolding receive_buffer
receive_buffer-interrupted d n r rest h = recv_loop-interrupted n r rest h

-- A frame is cut anywhere behind its header: what is left is no frame.
take-IsFrame : (n : ℕ) (f : List ℕ) → IsFrame f → n < length f → ¬ IsFrame (take n f)
take-IsFrame n f v h w =
    let l = length-take n f in
    let two = ap of_bytes (take-take 2 n f (omega (arith, w.header, l))) in
    omega (arith, v.whole, w.whole, l, h, two)

-- On an open connection, when the system takes a byte or more of a frame but not all of it,
-- `sendBuffer` returns their number as it does for a whole frame, and the bytes that go out are no
-- frame.
pub send_buffer-short :
    (d n : ℕ) (f : List ℕ)
    → IsFrame f
    → 0 < n
    → n < length f
    → (send_buffer (record { fd = some d }) f (taken n) ≡ (ok n, take n f)) × ¬ IsFrame (take n f)
unfolding send_buffer
send_buffer-short d n f v pos short = (ground arith, take-IsFrame n f v short)
