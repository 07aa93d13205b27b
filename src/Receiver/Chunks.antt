-- ===== src/Receiver/Chunks.antt =====
-- `run` over a stream that comes in pieces.
use slipstream_volume_aware.Prelude.{
  ℕ, ◌+◌, ◌≤◌, ◌<◌, ◌≡◌, ◌⊎◌, inl, inr, refl, sym, ap, ap₂, ◌∙◌, List, [], ◌∷◌, ◌++◌, length, arith,
  append_assoc, append-nil, false, ltb,
}
use slipstream_volume_aware.Prelude.Words.{sub64}
use slipstream_volume_aware.Prelude.Outcome.{Outcome, ok, err}
use slipstream_volume_aware.Codec.Gcmd.{MdMessage}
use slipstream_volume_aware.Reconstructor.{MessageReconstructor}
use slipstream_volume_aware.Reconstructor.Frames.{Splits, rest, Complete, Splits-append}
use slipstream_volume_aware.Reconstructor.Fill.{Represents, Apart}
use slipstream_volume_aware.Receiver.{
  ShutdownSignal, NetworkMessageReceiver, note_heartbeat, try_receive, heartbeat_stale,
}
use slipstream_volume_aware.Receiver.Stream.{Carries, none_left, carry, noted, enqueued}
use slipstream_volume_aware.Receiver.Refine.{try_receive_delivers}
use slipstream_volume_aware.Receiver.Loop.{Round, running, run, run-round, round-running}
use mathlib.Core.Path.{subst}

-- The bytes that come in, one piece behind the other.
abbrev pub read_bytes : Outcome (List ℕ) → List ℕ
read_bytes (ok bs) = bs
read_bytes (err e) = []

abbrev pub arrived : List Round → List ℕ
arrived [] = []
arrived (i ∷ is) = read_bytes i.reads ++ arrived is

-- A round that does not end the loop by itself when `last` is the last heartbeat after it.
pub record Goes (timeout last : ℕ) (i : Round) : Type 0 where
  pub not_told : i.told_to_stop ≡ false
  pub not_stale : ltb timeout (sub64 i.now last) ≡ false

-- Rounds in which pieces of a stream come in, behind bytes that are kept: no piece is too large for
-- the buffer, and what is left behind the frames of a piece is not more than these frames, or is all.
-- The frames that the pieces complete, their messages, and what is left in the end.
pub data Arrives (timeout : ℕ)
    : (last : ℕ) (kept : List ℕ)
      → List Round
      → List (List ℕ)
      → List MdMessage
      → List ℕ
      → Type 0 where
  ended : {last : ℕ} {kept : List ℕ} → ¬ Complete kept → Arrives timeout last kept [] [] [] kept
  quiet :
      {last : ℕ} {kept left : List ℕ} {i : Round} {is : List Round} {fs : List (List ℕ)}
      {ms : List MdMessage}
      → Goes timeout last i
      → i.reads ≡ ok []
      → Arrives timeout last kept is fs ms left
      → Arrives timeout last kept (i ∷ is) fs ms left
  piece :
      {last : ℕ} {kept left : List ℕ} {i : Round} {is : List Round} {gs : List (List ℕ)}
      {ns : List MdMessage} (mem over : List ℕ) (fs : List (List ℕ)) (ms : List MdMessage)
      → Goes timeout (noted last ms) i
      → i.reads ≡ ok mem
      → 0 < length mem
      → length kept + length mem ≤ 2048
      → Splits (kept ++ mem) fs over
      → Carries fs ms
      → (length over ≡ length kept + length mem)
        ⊎ (length over + length over ≤ length kept + length mem)
      → Arrives timeout (noted last ms) over is gs ns left
      → Arrives timeout last kept (i ∷ is) (fs ++ gs) (ms ++ ns) left

Arrives-Splits :
    {timeout last : ℕ} {kept left : List ℕ} {is : List Round} {fs : List (List ℕ)}
    {ms : List MdMessage}
    → Arrives timeout last kept is fs ms left
    → Splits (kept ++ arrived is) fs left
Arrives-Splits {kept = kept} (ended h) =
    subst (λ b. Splits b [] kept) (sym (append-nil kept)) (rest h)
Arrives-Splits {kept = kept} {left = left} {fs = fs} (quiet {is = is} g e a) =
    subst (λ b. Splits (kept ++ (b ++ arrived is)) fs left) (sym (ap read_bytes e))
      (Arrives-Splits a)
Arrives-Splits {kept = kept} {left = left}
      (piece {is = is} {gs = gs} mem over fs ms g e pos room s c short a) =
    subst (λ b. Splits b (fs ++ gs) left)
      (append_assoc kept mem (arrived is)
        ∙ ap (λ b. kept ++ (b ++ arrived is)) (sym (ap read_bytes e)))
      (Splits-append (arrived is) s (Arrives-Splits a))

noted-append :
    (last : ℕ) (ms ns : List MdMessage) → noted last (ms ++ ns) ≡ noted (noted last ms) ns
noted-append last [] ns = refl
noted-append last (m ∷ ms) ns = noted-append (note_heartbeat last m) ms ns

Carries-append :
    {fs gs : List (List ℕ)} {ms ns : List MdMessage}
    → Carries fs ms
    → Carries gs ns
    → Carries (fs ++ gs) (ms ++ ns)
Carries-append none_left d = d
Carries-append (carry f m e c) d = carry f m e (Carries-append c d)

Arrives-Carries :
    {timeout last : ℕ} {kept left : List ℕ} {is : List Round} {fs : List (List ℕ)}
    {ms : List MdMessage}
    → Arrives timeout last kept is fs ms left
    → Carries fs ms
Arrives-Carries (ended h) = none_left
Arrives-Carries (quiet g e a) = Arrives-Carries a
Arrives-Carries (piece mem over fs ms g e pos room s c short a) =
    Carries-append c (Arrives-Carries a)

-- The rest can be moved to the front without an overlap.
Represents-Apart :
    (m : MessageReconstructor) (over : List ℕ) {n : ℕ}
    → Represents m over
    → m.dirty_start + length over ≡ n
    → (length over ≡ n) ⊎ (length over + length over ≤ n)
    → Apart m
Represents-Apart m over v b (inl e) = inl (omega arith)
Represents-Apart m over v b (inr h) = inr (omega (arith, v.sized))

module _ {ℓ κ} {Q : Type ℓ} {C : Type κ} (enqueue : Q → MdMessage → Q) (close : C → C) where
  enqueued-append :
      (q : Q) (ms ns : List MdMessage)
      → enqueued enqueue q (ms ++ ns) ≡ enqueued enqueue (enqueued enqueue q ms) ns
  enqueued-append q [] ns = refl
  enqueued-append q (m ∷ ms) ns = enqueued-append (enqueue q m) ms ns

  try_receive-empty :
      (r : NetworkMessageReceiver C) (q : Q) → try_receive enqueue r q (ok []) ≡ (ok tt, (r, q))
  unfolding try_receive
  try_receive-empty r q = refl

  heartbeat_stale-Goes :
      (timeout : ℕ) {last : ℕ} (r : NetworkMessageReceiver C) (i : Round)
      → Goes timeout last i
      → r.heartbeat_timeout_ms ≡ timeout
      → r.last_heartbeat ≡ last
      → heartbeat_stale r i.now ≡ false
  unfolding heartbeat_stale
  heartbeat_stale-Goes timeout r i g et el = ap₂ (λ t l. ltb t (sub64 i.now l)) et el ∙ g.not_stale

  -- What the loop has done when it has read the stream so far.
  pub record Read (r : NetworkMessageReceiver C) (q : Q) (s : ShutdownSignal) (is : List Round)
      (ms : List MdMessage) (left : List ℕ) : Type (ℓ ⊔ κ) where
    pub receiver : NetworkMessageReceiver C
    pub runs : run enqueue close r q s is ≡ (running, (s, (receiver, enqueued enqueue q ms)))
    pub kept : Represents receiver.reconstructor left
    pub heard : receiver.last_heartbeat ≡ noted r.last_heartbeat ms

  run-Read :
      (timeout : ℕ) {last : ℕ} {kept left : List ℕ} {is : List Round} {fs : List (List ℕ)}
      {ms : List MdMessage} (r : NetworkMessageReceiver C) (q : Q) (s : ShutdownSignal)
      → r.should_stop ≡ false
      → r.heartbeat_timeout_ms ≡ timeout
      → r.last_heartbeat ≡ last
      → Represents r.reconstructor kept
      → Apart r.reconstructor
      → Arrives timeout last kept is fs ms left
      → Read r q s is ms left
  run-Read timeout r q s go et el v apart (ended h) = record {
    receiver = r;
    runs = unfold run in refl;
    kept = v;
    heard = refl;
  }
  run-Read timeout r q s go et el v apart (quiet {i = i} {is = is} g e a) =
      let more = run-Read timeout r q s go et el v apart a in
      let step =
        round-running enqueue close r q i go g.not_told
          (ap (try_receive enqueue r q) e ∙ try_receive-empty r q)
          (heartbeat_stale-Goes timeout r i g et el) in
      record {
        receiver = more.receiver;
        runs = run-round enqueue close r q s i is step ∙ more.runs;
        kept = more.kept;
        heard = more.heard;
      }
  run-Read timeout {last = last} r q s go et el v apart
        (piece {i = i} {is = is} {ns = ns} mem over fs ms g e pos room sp c short a) =
      let (m, reads, kept, behind) =
        try_receive_delivers enqueue r q _ mem over fs ms v apart pos room sp c in
      let r' = record r { reconstructor = m; last_heartbeat = noted r.last_heartbeat ms } in
      let q' = enqueued enqueue q ms in
      let el' = ap (λ l. noted l ms) el in
      let more =
        run-Read timeout r' q' s go et el' kept (Represents-Apart m over kept behind short) a in
      let step =
        round-running enqueue close r q i go g.not_told (ap (try_receive enqueue r q) e ∙ reads)
          (heartbeat_stale-Goes timeout r' i g et el') in
      record {
        receiver = more.receiver;
        runs =
            run-round enqueue close r q s i is step
            ∙ more.runs
            ∙ ap (λ x. (running, (s, (more.receiver, x)))) (sym (enqueued-append q ms ns));
        kept = more.kept;
        heard = more.heard ∙ sym (noted-append r.last_heartbeat ms ns);
      }

  -- A receiver that is not told to stop, with the bytes `kept` in its reconstructor, and pieces of a
  -- stream behind them: each fits into the buffer beside what is kept then, its complete frames are
  -- all messages, what is left behind them is not longer than they are (or is all), and the heartbeats
  -- do not cease. For every such cut of the stream, the messages queued in the end are, each once and
  -- in order, those of the frames into which the whole stream divides; the loop still runs, its last
  -- heartbeat is that of the stream, and the rest of the stream is with the reconstructor.
  pub run-Arrives :
      (timeout : ℕ) (kept left : List ℕ) (is : List Round) (fs : List (List ℕ))
      (ms : List MdMessage) (r : NetworkMessageReceiver C) (q : Q) (s : ShutdownSignal)
      → r.should_stop ≡ false
      → r.heartbeat_timeout_ms ≡ timeout
      → Represents r.reconstructor kept
      → Apart r.reconstructor
      → Arrives timeout r.last_heartbeat kept is fs ms left
      → Splits (kept ++ arrived is) fs left × Carries fs ms × Read r q s is ms left
  run-Arrives timeout kept left is fs ms r q s go et v apart a =
      (Arrives-Splits a, Arrives-Carries a, run-Read timeout r q s go et refl v apart a)
