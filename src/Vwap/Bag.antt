-- ===== src/Vwap/Bag.antt =====
-- Trades in no order, and their average: what `VWAPService` computes, said without its ring.
use slipstream_volume_aware.Prelude.{
  ℕ, ◌+◌, ◌-◌, ◌*◌, ◌/◌, ◌≡◌, refl, ap, List, ◌∷◌, ◌==◌, leb, if◌then◌else◌, arith, Bool-cases, inl,
  inr,
}
use mathlib.Core.Quot
use mathlib.Core.Quot.{Quot, Quot-set}
use slipstream_volume_aware.Codec.Gcmd.{Trade}
use slipstream_volume_aware.Vwap.Window.{quantity_sum}
use slipstream_volume_aware.Vwap.Average.{exact_sum}
use slipstream_volume_aware.Vwap.Freshness.{keep}

-- Two neighbours trade places.
pub data Swaps : List Trade → List Trade → Type 0 where
  here : {ts : List Trade} (a b : Trade) → Swaps (a ∷ b ∷ ts) (b ∷ a ∷ ts)
  further : {ts us : List Trade} (a : Trade) → Swaps ts us → Swaps (a ∷ ts) (a ∷ us)

-- Lists of trades up to their order.
abbrev pub Bag : Type 0
Bag = Quot Swaps

abbrev pub of_list : List Trade → Bag
of_list = Quot.mk

unfoldable pub insert : Trade → Bag → Bag
insert a = Quot.lift Quot-set (λ ts. of_list (a ∷ ts)) (λ ts us s. Quot.sound (further a s))

pub quantity_sum-Swaps : {ts us : List Trade} → Swaps ts us → quantity_sum ts ≡ quantity_sum us
unfolding quantity_sum
quantity_sum-Swaps (here a b) = omega arith
quantity_sum-Swaps (further a s) = ap (λ n. a.quantity + n) (quantity_sum-Swaps s)

pub exact_sum-Swaps : {ts us : List Trade} → Swaps ts us → exact_sum ts ≡ exact_sum us
unfolding exact_sum
exact_sum-Swaps (here a b) = omega arith
exact_sum-Swaps (further a s) = ap (λ n. a.quantity * a.price + n) (exact_sum-Swaps s)

unfoldable pub quantity : Bag → ℕ
quantity = Quot.lift (hlevel) quantity_sum (λ ts us s. quantity_sum-Swaps s)

unfoldable pub value : Bag → ℕ
value = Quot.lift (hlevel) exact_sum (λ ts us s. exact_sum-Swaps s)

-- The sum of quantity times price over the sum of quantities, rounded down; 0 where that is 0.
unfoldable pub average : Bag → ℕ
average b = if quantity b == 0 then 0 else value b / quantity b

pub keep-Swaps :
    (window now : ℕ) {ts us : List Trade}
    → Swaps ts us
    → of_list (keep window now ts) ≡ of_list (keep window now us)
unfolding keep insert
keep-Swaps window now (here {ts = ts} a b) = elim (Bool-cases (leb (now - a.timestamp_ns) window)) [
  | inl x ↦ elim (Bool-cases (leb (now - b.timestamp_ns) window)) [
    | inl y ↦ rw (x, y) (Quot.sound (here a b))
    | inr y ↦ rw (x, y) refl
  ]
  | inr x ↦ elim (Bool-cases (leb (now - b.timestamp_ns) window)) [
    | inl y ↦ rw (x, y) refl
    | inr y ↦ rw (x, y) refl
  ]
]
keep-Swaps window now (further a s) = elim (Bool-cases (leb (now - a.timestamp_ns) window)) [
  | inl x ↦ rw x (ap (insert a) (keep-Swaps window now s))
  | inr x ↦ rw x (keep-Swaps window now s)
]

-- The trades of age at most `window`.
unfoldable pub young : (window now : ℕ) → Bag → Bag
young window now =
    Quot.lift Quot-set (λ ts. of_list (keep window now ts)) (λ ts us s. keep-Swaps window now s)
