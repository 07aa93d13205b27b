-- ===== src/Sockets/Tests.antt =====
-- A send that is cut short, and a descriptor that is lost.
use slipstream_volume_aware.Prelude.{ℕ, ◌≡◌, refl, List, [], ◌∷◌, true, false, none, some, arith}
use slipstream_volume_aware.Prelude.Words.{of_bytes}
use slipstream_volume_aware.Prelude.Outcome.{err, runtime_error}
use slipstream_volume_aware.Reconstructor.Frames.{IsFrame}
use slipstream_volume_aware.Sockets.{
  connect, of_fd, free, close_fd, move_from, move_construct, destroy,
}
use slipstream_volume_aware.Sockets.Ownership.{
  Open, Process, put, accepted, moved, destroyed, Steps, start, then_, IsOwned, Steps-IsOwned,
}

abbrev beat : List ℕ
beat = 8 ∷ 0 ∷ 3 ∷ 1 ∷ 97 ∷ 30 ∷ 0 ∷ 0 ∷ 0 ∷ 0 ∷ 0 ∷ 0 ∷ []

beat-IsFrame : IsFrame beat
unfolding of_bytes
beat-IsFrame = record { header = omega arith; whole = refl }

-- The descriptor 5 stays open, and no object has it.
refused : connect (3 ∷ []) true (some 5) false ≡ (err runtime_error, 5 ∷ 3 ∷ [])
unfolding connect
refused = refl

-- A connection is accepted and moved, and the object that it was moved from destroyed.
abbrev new_process : Process
new_process = record { objects = λ i. record { fd = none }; open_fds = [] }

abbrev with_one : Process
with_one = record { objects = put new_process.objects 0 (of_fd 5); open_fds = 5 ∷ [] }

abbrev with_moved : Process
with_moved = record with_one {
  objects =
      put (put with_one.objects 1 (move_construct (with_one.objects 0)).0) 0
        (move_construct (with_one.objects 0)).1;
}

abbrev with_destroyed : Process
with_destroyed = record {
  objects = put with_moved.objects 0 (record { fd = none });
  open_fds = destroy (with_moved.objects 0) with_moved.open_fds;
}

none_open : (d : ℕ) → ¬ Open d []
none_open d h = h

history : Steps new_process with_destroyed
history =
    then_ (then_ (then_ start (accepted 0 5 refl (none_open 5))) (moved 1 0 refl (omega arith)))
      (destroyed 0)

Steps-IsOwned_example : IsOwned with_destroyed
Steps-IsOwned_example = Steps-IsOwned new_process with_destroyed (λ i. refl) history

-- It is the moved object that has the descriptor, which is open.
moved_has : ((with_destroyed.objects 1).fd ≡ some 5) × (with_destroyed.open_fds ≡ 5 ∷ [])
unfolding destroy free close_fd move_construct move_from of_fd
moved_has = (refl, refl)
