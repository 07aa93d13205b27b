-- ===== src/Reconstructor/Frames.antt =====
-- How a byte stream divides into frames: each is as long as its own header says.
use slipstream_volume_aware.Prelude.{
  ℕ, ◌+◌, ◌≤◌, ◌≡◌, ap, ◌∙◌, List, [], ◌∷◌, ◌++◌, length, append_assoc,
}
use slipstream_volume_aware.Codec.Frame.{word}

pub record IsFrame (f : List ℕ) : Type 0 where
  pub header : 4 ≤ length f
  pub whole : length f ≡ 4 + word 2 f

-- Some frame stands complete at the front.
abbrev pub Complete : List ℕ → Type 0
Complete bs = (4 ≤ length bs) × (4 + word 2 bs ≤ length bs)

-- The bytes are the frames, and behind them a rest that does not begin with a complete frame.
pub data Splits : List ℕ → List (List ℕ) → List ℕ → Type 0 where
  rest : {bs : List ℕ} → ¬ (Complete bs) → Splits bs [] bs
  frame :
      {bs tail left : List ℕ} {fs : List (List ℕ)} (f : List ℕ)
      → IsFrame f
      → bs ≡ f ++ tail
      → Splits tail fs left
      → Splits bs (f ∷ fs) left

-- A stream may be cut anywhere: the frames of the first part, and then those of its rest with the
-- second part behind it, are the frames of the whole.
pub Splits-append :
    {a r r' : List ℕ} {fs gs : List (List ℕ)} (b : List ℕ)
    → Splits a fs r
    → Splits (r ++ b) gs r'
    → Splits (a ++ b) (fs ++ gs) r'
Splits-append b (rest h) s = s
Splits-append b (frame {tail = tail} f v e t) s =
    frame f v (ap (λ x. x ++ b) e ∙ append_assoc f tail b) (Splits-append b t s)
