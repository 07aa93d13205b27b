-- ===== src/Reconstructor/Refine.antt =====
-- `MessageReconstructor` hands out the complete frames of the stream, and keeps the rest.
use slipstream_volume_aware.Prelude.{
  ℕ, ◌+◌, ◌-◌, ◌^◌, ◌≤◌, ◌<◌, ◌≡◌, ◌⊎◌, sym, ap, ap₂, ◌∙◌, List, ◌++◌, length, take, drop, true,
  false, ◌==◌, ltb, if◌then◌else◌, none, some, arith, inl, inr, length-append, length-drop,
  take-length_append, append_assoc,
}
use slipstream_volume_aware.Prelude.Words.{add64}
use slipstream_volume_aware.Prelude.Outcome.{ok, err, bad_alloc, fault}
use slipstream_volume_aware.Reconstructor.{
  MessageReconstructor, MessagesRecieved, get_messages, compact, recieve,
}
use slipstream_volume_aware.Reconstructor.Frames.{Splits}
use slipstream_volume_aware.Reconstructor.Walk.{stretch, Got, get_messages-Got}
use mathlib.Core.Path.{subst}
use native.Mathlib.Decide.{dec_le}
use slipstream_volume_aware.Reconstructor.Fill.{
  Represents, Apart, Front, compact-Front, filled, recieve-fills,
}

-- What a call of `recieve` on the chunk `mem` did, with `p` kept from before.
pub record Recieved (p mem : List ℕ) (out : MessagesRecieved × MessageReconstructor) : Type 0 where
  pub frames : List (List ℕ)
  pub left : List ℕ
  -- The frames of the stream, and the rest, which is kept.
  pub splits : Splits (p ++ mem) frames left
  pub kept : Represents out.1 left
  -- The caller is told their number, and where they stand.
  pub counted : out.0.messages_count ≡ length frames
  pub none_start : length frames ≡ 0 → out.0.start ≡ none
  pub some_start : 0 < length frames → out.0.start ≡ some 0
  -- What is kept stands behind the bytes that are handed out.
  pub behind_frames : out.1.dirty_start + length left ≡ length p + length mem
  pub at_start : take (length (p ++ mem)) out.1.buffer ≡ p ++ mem

module _ (c : MessageReconstructor) (p mem : List ℕ) (room : length p + length mem ≤ 2048)
    (f : Front c p) where
  filled_buffer : stretch (filled c p mem).buffer 0 (length p + length mem) ≡ p ++ mem
  unfolding filled
  filled_buffer =
      ap (take (length p + length mem))
        (sym (append_assoc p mem (drop (length p + length mem) c.buffer)))
      ∙ take-length_append (length p + length mem) (p ++ mem)
          (drop (length p + length mem) c.buffer) (length-append p mem)

  length-filled : length (filled c p mem).buffer ≡ 2048
  unfolding filled
  length-filled = omega (
    arith,
    length-append p (mem ++ drop (length p + length mem) c.buffer),
    length-append mem (drop (length p + length mem) c.buffer),
    length-drop (length p + length mem) c.buffer,
    f.slots,
  )

  Got-Recieved :
      (n : ℕ) (out : MessagesRecieved × MessageReconstructor)
      → n ≡ length p + length mem
      → Got 0 n (filled c p mem) out
      → Recieved p mem out
  unfolding filled
  Got-Recieved n out en g = record {
    frames = g.frames;
    left = g.left;
    splits = subst (λ bs. Splits bs g.frames g.left) bytes g.splits;
    kept = record {
      slots = ap length g.same ∙ length-filled;
      sized = size;
      fits = omega (arith, size, dirty, en, g.short);
      place =
          g.place
          ∙ ap₂ (λ a b. stretch (filled c p mem).buffer a b) (sym dirty) (sym size)
          ∙ ap (λ b. stretch b out.1.dirty_start out.1.size) (sym g.same);
    };
    counted = g.counted;
    none_start = g.none_start;
    some_start = g.some_start;
    behind_frames = omega (arith, dirty, en, g.short);
    at_start = ap₂ take (length-append p mem) g.same ∙ filled_buffer;
  }
    where
      bytes : stretch (filled c p mem).buffer 0 n ≡ p ++ mem
      bytes = ap (stretch (filled c p mem).buffer 0) en ∙ filled_buffer

      size : out.1.size ≡ length g.left
      size = omega (arith, g.sized, en, f.sized, g.short)

      dirty : out.1.dirty_start ≡ 0 + (n - length g.left)
      dirty = elim (dec_le (length g.frames) 0) [
        | yes z ↦ let d = g.none_dirty (omega (arith, z)) in omega (arith, d.0, d.1, f.clean)
        | no z ↦ g.some_dirty (omega (arith, z))
      ]

-- A chunk that fits into the buffer with what is kept, when that can move to the front without an
-- overlap: `recieve` returns the number of the complete frames in the bytes kept and the chunk, and
-- the start of the buffer, where those bytes stand; it keeps exactly the rest behind the frames.
pub recieve_refines :
    (r : MessageReconstructor) (p mem : List ℕ)
    → Represents r p
    → length p + length mem ≤ 2048
    → Apart r
    → (out : MessagesRecieved × MessageReconstructor) × (recieve r mem ≡ ok out)
      × Recieved p mem out
recieve_refines r p mem v room apart =
    let (c, ec, f) = compact-Front v apart in
    let n = c.size + length mem in
    (
      get_messages n 0 n (filled c p mem),
      recieve-fills r c p mem v.sized room ec f,
      Got-Recieved c p mem room f n (get_messages n 0 n (filled c p mem)) (omega (arith, f.sized)) (
          get_messages-Got n 0 n (filled c p mem) (omega arith)
            (omega (arith, length-filled c p mem room f, f.sized)) (unfold filled in omega arith)
            (unfold filled in omega (arith, f.sized)) (unfold filled in f.clean)),
    )

-- The two failures. A chunk that does not fit beside what is kept throws `bad_alloc`; one that fits,
-- when more bytes are kept than were handed out before, copies between ranges that overlap, which
-- `memcpy` leaves undefined.
pub recieve_fails :
    (r : MessageReconstructor) (p mem : List ℕ)
    → Represents r p
    → length mem < 2 ^ 63
    → (2048 < length p + length mem)
      ⊎ (length p + length mem ≤ 2048) × (0 < r.dirty_start) × (r.dirty_start < length p)
    → recieve r mem ≡ (if ltb 2048 (length p + length mem) then err bad_alloc else err fault)
unfolding recieve compact
recieve_fails r p mem v small h = elim h [
  | inl big ↦
      let a : ltb 2048 (add64 r.size (length mem)) ≡ true = ground (arith, v.sized, v.fits) in
      let b : ltb 2048 (length p + length mem) ≡ true = ground arith in rw (a, b)
  | inr (room, pos, over) ↦
      let a : ltb 2048 (add64 r.size (length mem)) ≡ false = ground (arith, v.sized) in
      let b : ltb 2048 (length p + length mem) ≡ false = ground arith in
      let c : (r.dirty_start == 0) ≡ false = ground arith in
      let d : ltb r.dirty_start r.size ≡ true = ground (arith, v.sized) in rw (a, b, c, d)
]
