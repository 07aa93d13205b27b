-- ===== src/Reconstructor/Walk.antt =====
-- `getMessages` walks over the complete frames at the front of a stretch of the buffer.
use slipstream_volume_aware.Prelude.{
  ℕ, zero, suc, ◌+◌, ◌-◌, ◌^◌, ◌≤◌, ◌<◌, ◌≡◌, refl, sym, ap, ap₂, ◌∙◌, List, [], ◌∷◌, ◌++◌, length,
  take, drop, none, some, arith, length-take, length-drop, take-append-drop, take-take, drop-take,
  drop-drop,
}
use slipstream_volume_aware.Prelude.Words.{sub64, of_bytes}
use slipstream_volume_aware.Reconstructor.{
  MessageReconstructor, MessagesRecieved, nothing_recieved, body_len_at, get_messages,
}
use slipstream_volume_aware.Reconstructor.Frames.{Splits, rest, frame, IsFrame, Complete}
use mathlib.Core.Path.{subst}
use native.Mathlib.Decide.{dec_le}
use Prim.Native.Nat.{max}

-- The `n` bytes at an offset.
abbrev pub stretch : List ℕ → ℕ → ℕ → List ℕ
stretch buffer off n = take n (drop off buffer)

pub length-stretch :
    (buffer : List ℕ) (off n : ℕ) → off + n ≤ length buffer → length (stretch buffer off n) ≡ n
length-stretch buffer off n h =
    omega (arith, length-take n (drop off buffer), length-drop off buffer)

-- The two tests of `getMessages` pass exactly where a frame is complete.
Complete-stretch :
    (buffer : List ℕ) (off n : ℕ)
    → off + n ≤ length buffer
    → Complete (stretch buffer off n)
    → (4 ≤ n) × (4 + body_len_at buffer off ≤ n)
Complete-stretch buffer off n h (a, b) =
    let l = length-stretch buffer off n h in
    let w = ap of_bytes (take-take 2 n (drop off buffer) (omega (arith, a, l))) in
    (omega (arith, a, l), omega (arith, b, l, w))

IsFrame-stretch :
    (buffer : List ℕ) (off : ℕ)
    → off + (4 + body_len_at buffer off) ≤ length buffer
    → IsFrame (stretch buffer off (4 + body_len_at buffer off))
IsFrame-stretch buffer off h =
    let n = 4 + body_len_at buffer off in
    let l = length-stretch buffer off n h in
    let w = ap of_bytes (take-take 2 n (drop off buffer) (omega arith)) in
    record { header = omega (arith, l); whole = omega (arith, l, w) }

-- A stretch is its first `k` bytes and the stretch behind them.
stretch-split :
    (buffer : List ℕ) (off n k : ℕ)
    → k ≤ n
    → stretch buffer off n ≡ stretch buffer off k ++ stretch buffer (off + k) (n - k)
stretch-split buffer off n k h =
    sym (take-append-drop k (stretch buffer off n))
    ∙ ap₂ ◌++◌ (take-take k n (drop off buffer) h) (
        ap (λ m. drop k (take m (drop off buffer))) whole
        ∙ drop-take k (n - k) (drop off buffer)
        ∙ ap (take (n - k)) (drop-drop k off buffer))
  where
    whole : n ≡ k + (n - k)
    whole = omega arith

-- What `getMessages` brings back for the `n` bytes at `off`.
pub record Got (off n : ℕ) (r : MessageReconstructor)
    (out : MessagesRecieved × MessageReconstructor) : Type 0 where
  pub frames : List (List ℕ)
  pub left : List ℕ
  pub splits : Splits (stretch r.buffer off n) frames left
  pub counted : out.0.messages_count ≡ length frames
  pub same : out.1.buffer ≡ r.buffer
  pub short : length left ≤ n
  pub sized : out.1.size + n ≡ r.size + length left
  pub place : left ≡ stretch r.buffer (off + (n - length left)) (length left)
  pub none_dirty : length frames ≡ 0 → (out.1.dirty_start ≡ r.dirty_start) × (length left ≡ n)
  pub some_dirty : 0 < length frames → out.1.dirty_start ≡ off + (n - length left)
  pub none_start : length frames ≡ 0 → out.0.start ≡ none
  pub some_start : 0 < length frames → out.0.start ≡ some off

-- Nothing complete: all is left.
Got-nothing :
    (off n : ℕ) (r : MessageReconstructor)
    → off + n ≤ length r.buffer
    → ¬ ((4 ≤ n) × (4 + body_len_at r.buffer off ≤ n))
    → Got off n r (nothing_recieved, r)
Got-nothing off n r h incomplete = record {
  frames = [];
  left = stretch r.buffer off n;
  splits = rest (λ c. incomplete (Complete-stretch r.buffer off n h c));
  counted = refl;
  same = refl;
  short = omega (arith, l);
  sized = omega (arith, l);
  place = ap₂ (λ a b. stretch r.buffer a b) (omega (arith, l)) (sym l);
  none_dirty = λ _. (refl, l);
  some_dirty = λ p. absurd (omega (arith, p));
  none_start = λ _. refl;
  some_start = λ p. absurd (omega (arith, p));
}
  where
    l : length (stretch r.buffer off n) ≡ n
    l = length-stretch r.buffer off n h

-- The state once a complete frame of `k` bytes at `off` is counted, after those behind it.
abbrev counted_in :
    ℕ → ℕ → MessagesRecieved × MessageReconstructor → MessagesRecieved × MessageReconstructor
counted_in off k out = (
  record { start = some off; messages_count = out.0.messages_count + 1 },
  record (out.1) { dirty_start = max out.1.dirty_start (off + k); size = sub64 out.1.size k },
)

get_messages-stop :
    (fuel off n : ℕ) (r : MessageReconstructor)
    → ¬ ((4 ≤ n) × (4 + body_len_at r.buffer off ≤ n))
    → get_messages (suc fuel) off n r ≡ (nothing_recieved, r)
unfolding get_messages
get_messages-stop fuel off n r h = ground (arith, h)

get_messages-more :
    (fuel off n : ℕ) (r : MessageReconstructor)
    → 4 ≤ n
    → 4 + body_len_at r.buffer off ≤ n
    → let k = 4 + body_len_at r.buffer off in
      get_messages (suc fuel) off n r ≡ counted_in off k (get_messages fuel (off + k) (n - k) r)
unfolding get_messages
get_messages-more fuel off n r h h' = ground arith

Got-more :
    (off n k : ℕ) (r : MessageReconstructor) (out : MessagesRecieved × MessageReconstructor)
    → k ≡ 4 + body_len_at r.buffer off
    → k ≤ n
    → off + n ≤ length r.buffer
    → n ≤ r.size
    → r.size < 2 ^ 64
    → r.dirty_start ≡ 0
    → Got (off + k) (n - k) r out
    → Got off n r (counted_in off k out)
Got-more off n k r out ek hk fits held small clean g = record {
  frames = stretch r.buffer off k ∷ g.frames;
  left = g.left;
  splits = frame (stretch r.buffer off k) is_frame (stretch-split r.buffer off n k hk) g.splits;
  counted = omega (arith, g.counted);
  same = g.same;
  short = omega (arith, g.short);
  sized = omega (arith, g.sized, g.short);
  place = g.place ∙ ap (λ a. stretch r.buffer a (length g.left)) (omega (arith, g.short));
  none_dirty = λ e. absurd (omega (arith, e));
  some_dirty = λ _. dirty;
  none_start = λ e. absurd (omega (arith, e));
  some_start = λ _. refl;
}
  where
    is_frame : IsFrame (stretch r.buffer off k)
    is_frame =
        subst (λ m. IsFrame (stretch r.buffer off m)) (sym ek)
          (IsFrame-stretch r.buffer off (omega (arith, ek)))

    dirty : max out.1.dirty_start (off + k) ≡ off + (n - length g.left)
    dirty = elim (dec_le (length g.frames) 0) [
      | yes p ↦ let d = g.none_dirty (omega (arith, p)) in omega (arith, d.0, d.1, clean)
      | no p ↦ let d = g.some_dirty (omega (arith, p)) in omega (arith, d, g.short)
    ]

pub get_messages-Got :
    (fuel off n : ℕ) (r : MessageReconstructor)
    → n ≤ fuel
    → off + n ≤ length r.buffer
    → n ≤ r.size
    → r.size < 2 ^ 64
    → r.dirty_start ≡ 0
    → Got off n r (get_messages fuel off n r)
get_messages-Got zero off n r hf fits held small clean =
    unfold get_messages in Got-nothing off n r fits (λ c. omega (arith, c.0))
get_messages-Got (suc fuel) off n r hf fits held small clean = elim (dec_le 4 n) [
  | no p ↦
      let h = λ (c : (4 ≤ n) × (4 + body_len_at r.buffer off ≤ n)). p c.0 in
      subst (Got off n r) (sym (get_messages-stop fuel off n r h)) (Got-nothing off n r fits h)
  | yes p ↦ elim (dec_le (4 + body_len_at r.buffer off) n) [
    | no q ↦
        let h = λ (c : (4 ≤ n) × (4 + body_len_at r.buffer off ≤ n)). q c.1 in
        subst (Got off n r) (sym (get_messages-stop fuel off n r h)) (Got-nothing off n r fits h)
    | yes q ↦
        let k = 4 + body_len_at r.buffer off in
        subst (Got off n r) (sym (get_messages-more fuel off n r p q)) (
          Got-more off n k r (get_messages fuel (off + k) (n - k) r) refl q fits held small clean (
            get_messages-Got fuel (off + k) (n - k) r (omega arith) (omega arith) (omega arith)
              small clean))
  ]
]
