-- ===== src/Reconstructor/Fill.antt =====
-- What `recieve` does before it looks for frames: it moves the bytes kept to the front, and copies
-- the chunk behind them.
use slipstream_volume_aware.Prelude.{
  ℕ, ◌+◌, ◌≤◌, ◌<◌, ◌≡◌, ◌⊎◌, refl, sym, ap, ap₂, ◌∙◌, List, ◌++◌, length, take, drop, false, ltb,
  arith, length-append, length-drop, take-length_append,
}
use slipstream_volume_aware.Prelude.Words.{add64}
use slipstream_volume_aware.Prelude.Outcome.{ok, ◌>>=◌}
use slipstream_volume_aware.Codec.Frame.{memcpy, memcpy_ok}
use slipstream_volume_aware.Reconstructor.{
  MessageReconstructor, MessagesRecieved, buffer_size, get_messages, compact, recieve,
}
use slipstream_volume_aware.Reconstructor.Walk.{stretch}
use native.Mathlib.Decide.{dec_le}

-- The bytes `p` of the stream are in, and not yet handed out.
pub record Represents (r : MessageReconstructor) (p : List ℕ) : Type 0 where
  pub slots : length r.buffer ≡ 2048
  pub sized : r.size ≡ length p
  pub fits : r.dirty_start + r.size ≤ 2048
  pub place : p ≡ stretch r.buffer r.dirty_start r.size

-- The bytes kept are moved to the front without an overlap.
abbrev pub Apart : MessageReconstructor → Type 0
Apart r = (r.dirty_start ≡ 0) ⊎ (r.size ≤ r.dirty_start)

-- The bytes `p` stand at the front.
pub record Front (c : MessageReconstructor) (p : List ℕ) : Type 0 where
  pub slots : length c.buffer ≡ 2048
  pub sized : c.size ≡ length p
  pub clean : c.dirty_start ≡ 0
  pub place : take (length p) c.buffer ≡ p

compact-clean :
    {r : MessageReconstructor} {p : List ℕ}
    → Represents r p
    → r.dirty_start ≡ 0
    → (compact r ≡ ok r) × Front r p
unfolding compact
compact-clean {r} {p} v e = (
  ground arith,
  record {
    slots = v.slots;
    sized = v.sized;
    clean = e;
    place = ap₂ (λ a b. take a (drop b r.buffer)) (sym v.sized) (sym e) ∙ sym v.place;
  },
)

-- The state with the moved bytes.
abbrev refilled : MessageReconstructor → List ℕ → MessageReconstructor
refilled r b = record { buffer = b; size = r.size; dirty_start = 0 }

abbrev moved : MessageReconstructor → List ℕ → MessageReconstructor
moved r p = refilled r (p ++ drop (length p) r.buffer)

compact-copies :
    (r : MessageReconstructor)
    → 0 < r.dirty_start
    → r.size ≤ r.dirty_start
    → compact r
      ≡ (memcpy r.buffer 0 (stretch r.buffer r.dirty_start r.size) >>= (λ b. ok (refilled r b)))
unfolding compact
compact-copies r pos apart = ground arith

compact-moves :
    {r : MessageReconstructor} {p : List ℕ}
    → Represents r p
    → 0 < r.dirty_start
    → r.size ≤ r.dirty_start
    → (compact r ≡ ok (moved r p)) × Front (moved r p) p
compact-moves {r} {p} v pos apart = (
  compact-copies r pos apart
      ∙ ap (λ q. memcpy r.buffer 0 q >>= (λ b. ok (refilled r b))) (sym v.place)
      ∙ ap (λ m. m >>= (λ b. ok (refilled r b)))
          (memcpy_ok r.buffer 0 p (omega (arith, v.sized, v.fits, v.slots)))
      ∙ ap (λ k. ok (refilled r (p ++ drop k r.buffer))) zero_add,
  record {
    slots = omega (
      arith,
      length-append p (drop (length p) r.buffer),
      length-drop (length p) r.buffer,
      v.slots,
      v.sized,
      v.fits,
    );
    sized = v.sized;
    clean = refl;
    place = take-length_append (length p) p (drop (length p) r.buffer) refl;
  },
)
  where
    zero_add : 0 + length p ≡ length p
    zero_add = omega arith

pub compact-Front :
    {r : MessageReconstructor} {p : List ℕ}
    → Represents r p
    → Apart r
    → (c : MessageReconstructor) × (compact r ≡ ok c) × Front c p
compact-Front {r} {p} v apart = elim (dec_le r.dirty_start 0) [
  | yes z ↦ let c = compact-clean v (omega (arith, z)) in (r, c.0, c.1)
  | no z ↦
      let c = compact-moves v (omega (arith, z)) (omega (arith, z, apart)) in (moved r p, c.0, c.1)
]

-- The state from which `getMessages` starts: the chunk stands behind the bytes kept.
unfoldable pub filled : MessageReconstructor → List ℕ → List ℕ → MessageReconstructor
filled c p mem = record {
  buffer = p ++ (mem ++ drop (length p + length mem) c.buffer);
  size = c.size + length mem;
  dirty_start = c.dirty_start;
}

pub recieve-fills :
    (r c : MessageReconstructor) (p mem : List ℕ)
    → r.size ≡ length p
    → length p + length mem ≤ 2048
    → compact r ≡ ok c
    → Front c p
    → recieve r mem
      ≡ ok (get_messages (c.size + length mem) 0 (c.size + length mem) (filled c p mem))
unfolding recieve filled
recieve-fills r c p mem e room ec f = rw (test, ec) (ap (λ m. m >>= (λ b. ok (walk b))) copied)
  where
    test : ltb buffer_size (add64 r.size (length mem)) ≡ false
    test = ground (arith, e)

    walk : List ℕ → MessagesRecieved × MessageReconstructor
    walk b =
        get_messages (c.size + length mem) 0 (c.size + length mem)
          (record { buffer = b; size = c.size + length mem; dirty_start = c.dirty_start })

    copied : memcpy c.buffer c.size mem ≡ ok (p ++ (mem ++ drop (length p + length mem) c.buffer))
    copied =
        memcpy_ok c.buffer c.size mem (omega (arith, f.sized, f.slots))
        ∙ ap (λ k. ok (take k c.buffer ++ (mem ++ drop (k + length mem) c.buffer))) f.sized
        ∙ ap (λ q. ok (q ++ (mem ++ drop (length p + length mem) c.buffer))) f.place
