-- ===== src/Replay/Waiting.antt =====
-- One message that is sent, and the loop that waits for a row's time.
use slipstream_volume_aware.Prelude.{
  ℕ, zero, suc, ◌+◌, ◌-◌, ◌≤◌, ◌<◌, ◌≡◌, refl, sym, ap, ◌∙◌, List, [], ◌∷◌, ◌++◌, length, take,
  true, false, ltb, ltb→lt, some, arith, append-nil, append_assoc, Bool-cases, inl, inr,
}
use slipstream_volume_aware.Prelude.Words.{IsU64, sub64}
use slipstream_volume_aware.Prelude.Outcome.{Outcome, ok}
use slipstream_volume_aware.Codec.Gcmd.{MdMessage}
use slipstream_volume_aware.Codec.Gcmd.Framed.{Carries}
use slipstream_volume_aware.Codec.Gcmd.Serialise.{serialise_heartbeat_message}
use slipstream_volume_aware.Codec.Gcmd.Deserialise.{deserialise_message}
use slipstream_volume_aware.Codec.Gcmd.RoundTrip.{heartbeat_round_trip}
use slipstream_volume_aware.Reconstructor.Frames.{IsFrame}
use slipstream_volume_aware.Replay.{
  Environment, Client, Handed, get_now, get_wall_clock_now, sleep_for, send_serialised,
  send_heart_beat, beat_if_due, wait, heartbeat_per_ms,
}
use Prim.Native.Nat.{min}

-- What is handed over is a frame, which a reader takes for `m`.
pub record Shows (m : MdMessage) (h : Handed) : Type 0 where
  pub reads : deserialise_message h.bytes ≡ ok m
  pub framed : IsFrame h.bytes

-- What a client keeps while it sends.
pub record Same (c c' : Client) : Type 0 where
  pub parser : c'.parser ≡ c.parser
  pub room : length c'.buffer ≡ length c.buffer

-- One frame more has been handed over, at the time of the call.
pub record SentOne (m : MdMessage) (c c' : Client) : Type 0 where
  pub one : Handed
  pub shows : Shows m one
  pub handed : c'.handed ≡ c.handed ++ (one ∷ [])
  pub at_time : one.at_ms ≡ c.steady
  pub on_time : c'.steady ≡ c.steady
  pub same : Same c c'

-- The connection takes all, and the system clock fits its word.
pub record Ready (env : Environment) : Type 0 where
  pub accepts : (k : ℕ) → env.accepts k ≡ ok tt
  pub wall_in : (k : ℕ) → IsU64 (env.wall k)

-- Some heartbeats, and nothing else, are handed over.
pub data Beats : List Handed → Type 0 where
  quiet : Beats []
  beat :
      {hs : List Handed} (h : Handed) (t : ℕ)
      → Shows (MdMessage.heartbeat (record { timestamp = t })) h
      → Beats hs
      → Beats (h ∷ hs)

pub Beats-append : {gs hs : List Handed} → Beats gs → Beats hs → Beats (gs ++ hs)
Beats-append quiet b = b
Beats-append (beat h t s a) b = beat h t s (Beats-append a b)

pub record Beaten (c c' : Client) : Type 0 where
  pub beats : List Handed
  pub all_beats : Beats beats
  pub handed : c'.handed ≡ c.handed ++ beats
  pub same : Same c c'

still : (c : Client) → Beaten c c
still c = record {
  beats = [];
  all_beats = quiet;
  handed = sym (append-nil c.handed);
  same = record { parser = refl; room = refl };
}

one_beat :
    (t : ℕ) (c c' : Client)
    → SentOne (MdMessage.heartbeat (record { timestamp = t })) c c'
    → Beaten c c'
one_beat t c c' s = record {
  beats = s.one ∷ [];
  all_beats = beat s.one t s.shows quiet;
  handed = s.handed;
  same = s.same;
}

-- The beats of two stretches.
Beaten-trans :
    (c c1 c2 c3 c' : Client)
    → c1.handed ≡ c.handed
    → Same c c1
    → Beaten c1 c2
    → c3.handed ≡ c2.handed
    → Same c2 c3
    → Beaten c3 c'
    → Beaten c c'
Beaten-trans c c1 c2 c3 c' e s a f t b = record {
  beats = a.beats ++ b.beats;
  all_beats = Beats-append a.all_beats b.all_beats;
  handed =
      b.handed
      ∙ ap (λ l. l ++ b.beats) (f ∙ a.handed ∙ ap (λ l. l ++ a.beats) e)
      ∙ append_assoc c.handed a.beats b.beats;
  same = record {
    parser = b.same.parser ∙ t.parser ∙ a.same.parser ∙ s.parser;
    room = b.same.room ∙ t.room ∙ a.same.room ∙ s.room;
  };
}

not_lt : (t now : ℕ) → ltb now t ≡ false → t ≤ now
not_lt t now e = ground (arith, e)

module _ (env : Environment) (ready : Ready env) where
  pub send_serialised-SentOne :
      (c : Client) (n : ℕ) (m : MdMessage) (r : Outcome (ℕ × List ℕ))
      → Carries c.buffer n m r
      → (c' : Client) × (send_serialised env c r ≡ (ok tt, c')) × SentOne m c c'
  unfolding send_serialised
  send_serialised-SentOne c n m r (b, e, whole, size, back, len, reads, framed) = (
    record c {
      buffer = b;
      handed = c.handed ++ (record { at_ms = c.steady; bytes = take n b } ∷ []);
    },
    rw e (
        ap
          (λ o. (
            o,
            record c {
              buffer = b;
              handed = c.handed ++ (record { at_ms = c.steady; bytes = take n b } ∷ []);
            },
          ))
          (ready.accepts (length c.handed))),
    record {
      one = record { at_ms = c.steady; bytes = take n b };
      shows = record { reads = reads; framed = framed };
      handed = refl;
      at_time = refl;
      on_time = refl;
      same = record { parser = refl; room = len };
    },
  )

  beat_if_due-Beaten :
      (now : ℕ) (c : Client)
      → 12 ≤ length c.buffer
      → (c' : Client) × (beat_if_due env now c ≡ (ok tt, c')) × Beaten c c' × (c'.steady ≡ c.steady)
  unfolding beat_if_due send_heart_beat get_wall_clock_now
  beat_if_due-Beaten now c room =
      elim (Bool-cases (ltb heartbeat_per_ms (sub64 now c.last_sent_heartbeat_ms))) [
        | inl e ↦
            let t = env.wall c.walls in
            let c1 = record c { walls = c.walls + 1 } in
            let (c', sends, one) =
              send_serialised-SentOne c1 12 (MdMessage.heartbeat (record { timestamp = t }))
                (serialise_heartbeat_message c.buffer (record { timestamp = t }))
                (heartbeat_round_trip c.buffer (record { timestamp = t }) room
                  (ready.wall_in c.walls)) in
            let b = one_beat t c1 c' one in
            (
              c',
              rw e sends,
              record {
                beats = b.beats;
                all_beats = b.all_beats;
                handed = b.handed;
                same = record { parser = b.same.parser; room = b.same.room };
              },
              one.on_time,
            )
        | inr e ↦ (c, rw e refl, still c, refl)
      ]

  wait-late :
      (fuel t : ℕ) (c : Client)
      → ltb (c.steady + env.lag c.readings) t ≡ false
      → wait env (suc fuel) t c
        ≡ some
            (ok tt, record c { steady = c.steady + env.lag c.readings; readings = c.readings + 1 })
  unfolding wait get_now
  wait-late fuel t c e = cc e

  wait-early :
      (fuel t : ℕ) (c c2 : Client)
      → let now = c.steady + env.lag c.readings in
        ltb now t ≡ true
        → beat_if_due env now (record c { steady = now; readings = c.readings + 1 }) ≡ (ok tt, c2)
        → wait env (suc fuel) t c
          ≡ wait env fuel t (record c2 { steady = c2.steady + min heartbeat_per_ms (t - now) })
  unfolding wait get_now sleep_for
  wait-early fuel t c c2 e b = cc (e, b)

  -- With fuel for the milliseconds that are left the wait comes to its end, and not before its time.
  pub wait-Beaten :
      (fuel time_to_send : ℕ) (c : Client)
      → 12 ≤ length c.buffer
      → time_to_send - c.steady < fuel
      → (c' : Client) × (wait env fuel time_to_send c ≡ some (ok tt, c'))
        × Beaten c c'
        × (time_to_send ≤ c'.steady)
  unfolding wait get_now sleep_for
  wait-Beaten zero time_to_send c room h = absurd (omega arith)
  wait-Beaten (suc fuel) time_to_send c room h =
      let now = c.steady + env.lag c.readings in
      let c1 = record c { steady = now; readings = c.readings + 1 } in
      elim (Bool-cases (ltb now time_to_send)) [
        | inl e ↦
            let (c2, beats, b, at) = beat_if_due-Beaten now c1 room in
            let d = min heartbeat_per_ms (time_to_send - now) in
            let c3 = record c2 { steady = c2.steady + d } in
            let (c', waits, b', late) =
              wait-Beaten fuel time_to_send c3 (omega (arith, b.same.room, room))
                (omega (arith, at, h, ltb→lt now time_to_send e)) in
            (
              c',
              wait-early fuel time_to_send c c2 e beats ∙ waits,
              Beaten-trans c c1 c2 c3 c' refl (record { parser = refl; room = refl }) b refl
                  (record { parser = refl; room = refl }) b',
              late,
            )
        | inr e ↦ (
          c1,
          wait-late fuel time_to_send c e,
          record {
            beats = [];
            all_beats = quiet;
            handed = sym (append-nil c.handed);
            same = record { parser = refl; room = refl };
          },
          not_lt time_to_send now e,
        )
      ]
