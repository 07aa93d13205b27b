-- ===== src/Prelude/Circular.antt =====
-- Circular arrays: `n` slots, walked by `(i + 1) % n`. A window is the list of the values that
-- stand in consecutive slots.
use slipstream_volume_aware.Prelude.Lists.{
  length, get_elem?, set, get_elem?-set_self, get_elem?-set_ne,
}
use Prim.Native.Nat.{ℕ, zero, suc, ◌+◌, ◌-◌, ◌%◌, ◌≤◌, ◌<◌}
use mathlib.Core.Path.{◌≡◌, sym, ap, ◌∙◌}
use mathlib.Core.Logic.{◌≢◌, ◌⊎◌, inl, inr}
use mathlib.Core.List.{List, [], ◌∷◌, ◌++◌}
use mathlib.Core.Option.{some}
use native.Mathlib.Nat.{mod-add-mod, mod-eq_of_lt, mod-eq-sub-mod}
use native.Mathlib.Decide.{dec_lt}
use native.Mathlib.Omega.{arith}

-- Below `2 n` the remainder is got by at most one subtraction.
pub mod-cases : (a n : ℕ) → a < n + n → ((a < n) × (a % n ≡ a)) ⊎ ((n ≤ a) × (a % n + n ≡ a))
mod-cases a n h = elim (dec_lt a n) [
  | yes p ↦ inl (p, mod-eq_of_lt p)
  | no p ↦ inr (
    omega arith,
    omega (
      arith,
      mod-eq-sub-mod {n = a} {m = n} (omega arith),
      mod-eq_of_lt {n = a - n} {m = n} (omega arith),
    ),
  )
]

-- Fewer than `n` steps do not come round to the start.
add-mod-ne : (n i k : ℕ) → i < n → 0 < k → k < n → (i + k) % n ≢ i
add-mod-ne n i k hi hk hkn = omega (arith, mod-cases (i + k) n (omega arith))

pub step-mod : (n i k : ℕ) → ((i + 1) % n + k) % n ≡ (i + suc k) % n
step-mod n i k = mod-add-mod (i + 1) n k ∙ ap (λ t. t % n) (omega arith)

module _ {ℓ} {A : Type ℓ} where
  abbrev pub Holds : ℕ → List A → ℕ → List A → Type ℓ
  Holds n buf i [] = Unit {ℓ}
  Holds n buf i (x ∷ xs) = (get_elem? buf i ≡ some x) × Holds n buf ((i + 1) % n) xs

  -- A write behind the window leaves it alone.
  pub Holds-set :
      (n : ℕ) (buf : List A) (i j k : ℕ) (v : A) (xs : List A)
      → i < n
      → k < n
      → length xs ≤ k
      → j ≡ (i + k) % n
      → Holds n buf i xs
      → Holds n (set buf j v) i xs
  Holds-set n buf i j k v [] hi hk hl e h = tt
  Holds-set n buf i j zero v (x ∷ xs) hi hk hl e h = absurd (omega arith)
  Holds-set n buf i j (suc k) v (x ∷ xs) hi hk hl e (h, hs) = (
    get_elem?-set_ne buf v (λ (p : j ≡ i). add-mod-ne n i (suc k) hi (omega arith) hk (sym e ∙ p))
        ∙ h,
    Holds-set n buf ((i + 1) % n) j k v xs (omega arith) (omega arith) (omega arith)
        (e ∙ sym (step-mod n i k)) hs,
  )

  -- The window with the value behind it.
  pub Holds-snoc :
      (n : ℕ) (buf : List A) (i : ℕ) (v : A) (xs : List A)
      → i < n
      → get_elem? buf ((i + length xs) % n) ≡ some v
      → Holds n buf i xs
      → Holds n buf i (xs ++ (v ∷ []))
  Holds-snoc n buf i v [] hi e h =
      (ap (get_elem? buf) (sym (ap (λ t. t % n) (omega arith) ∙ mod-eq_of_lt hi)) ∙ e, tt)
  Holds-snoc n buf i v (x ∷ xs) hi e (h, hs) = (
    h,
    Holds-snoc n buf ((i + 1) % n) v xs (omega arith)
        (ap (get_elem? buf) (step-mod n i (length xs)) ∙ e) hs,
  )

  -- A write in the first free slot extends the window by the value written.
  pub Holds-push :
      (n : ℕ) (buf : List A) (i j : ℕ) (v : A) (xs : List A)
      → i < n
      → length buf ≡ n
      → length xs < n
      → j ≡ (i + length xs) % n
      → Holds n buf i xs
      → Holds n (set buf j v) i (xs ++ (v ∷ []))
  Holds-push n buf i j v xs hi hb hl e h =
      Holds-snoc n (set buf j v) i v xs hi
        (ap (get_elem? (set buf j v)) (sym e) ∙ get_elem?-set_self buf j v (omega (arith, e)))
        (Holds-set n buf i j (length xs) v xs hi hl (omega arith) e h)
