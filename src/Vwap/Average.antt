-- ===== src/Vwap/Average.antt =====
-- The value that `getVWAP` returns.
use slipstream_volume_aware.Prelude.{
  ℕ, ◌+◌, ◌*◌, ◌/◌, ◌%◌, ◌^◌, ◌≤◌, ◌<◌, ◌≡◌, refl, ap, ap₂, ◌∙◌, List, [], ◌∷◌, length, ◌==◌, All,
  arith, Bool-cases, inl, inr, ◌⊎◌, lt→ltb,
}
use slipstream_volume_aware.Prelude.Words.{IsU32}
use slipstream_volume_aware.Codec.Gcmd.{Trade}
use slipstream_volume_aware.Vwap.{VwapService, priced, remove_old_trades, get_vwap}
use slipstream_volume_aware.Vwap.Window.{quantity_sum, priced_sum, remove_old, Sized}
use slipstream_volume_aware.Vwap.Refine.{Represents}
use slipstream_volume_aware.Vwap.Expiry.{remove_old_trades-Represents}
use native.Mathlib.Nat.{mul-le-mul, mul-le-mul_left, le-div_iff_mul-le, div-le_of_le-mul, mul_comm}

-- A price that is not negative as an `int64_t`.
abbrev pub IsPriced : List Trade → Type 0
IsPriced = All (λ t. t.price < 2 ^ 63)

-- The sum of quantity times price, with no wrap-around.
unfoldable pub exact_sum : List Trade → ℕ
exact_sum [] = 0
exact_sum (t ∷ ts) = t.quantity * t.price + exact_sum ts

product_bound : (q p : ℕ) → q < 2 ^ 32 → p < 2 ^ 63 → q * p ≤ 2 ^ 95
product_bound q p hq hp =
    let m : q * p ≤ 2 ^ 32 * 2 ^ 63 =
      mul-le-mul {n₂ = 2 ^ 32} {m₂ = 2 ^ 63} (omega arith) (omega arith) in
    omega (arith, m)

priced_lem : (t : Trade) → IsU32 t.quantity → t.price < 2 ^ 63 → priced t ≡ t.quantity * t.price
unfolding priced
priced_lem t hq hp =
    rw (lt→ltb t.price (2 ^ 63) hp) (omega (arith, product_bound t.quantity t.price hq hp))

priced_sum-exact_sum : (ts : List Trade) → Sized ts → IsPriced ts → priced_sum ts ≡ exact_sum ts
unfolding priced_sum exact_sum
priced_sum-exact_sum [] h k = refl
priced_sum-exact_sum (t ∷ ts) (h, hs) (k, ks) =
    ap₂ (λ (a b : ℕ). a + b) (priced_lem t h k) (priced_sum-exact_sum ts hs ks)

-- Prices between two bounds put the sum between the bounds times the quantity.
exact_sum_bounds :
    (lo hi : ℕ) (ts : List Trade)
    → All (λ t. (lo ≤ t.price) × (t.price ≤ hi)) ts
    → (lo * quantity_sum ts ≤ exact_sum ts) × (exact_sum ts ≤ hi * quantity_sum ts)
unfolding exact_sum quantity_sum
exact_sum_bounds lo hi [] h = omega arith
exact_sum_bounds lo hi (t ∷ ts) (h, hs) =
    let rest = exact_sum_bounds lo hi ts hs in
    let below = mul-le-mul_left {m = lo} {n = t.price} t.quantity h.0 in
    let above = mul-le-mul_left {m = t.price} {n = hi} t.quantity h.1 in
    omega (arith, rest.0, rest.1, below, above)

exact_sum-le : (ts : List Trade) → Sized ts → IsPriced ts → exact_sum ts ≤ length ts * 2 ^ 95
unfolding exact_sum
exact_sum-le [] h k = omega arith
exact_sum-le (t ∷ ts) (h, hs) (k, ks) =
    omega (arith, product_bound t.quantity t.price h k, exact_sum-le ts hs ks)

-- The running total cannot wrap at 128 bits.
exact_sum-lt :
    (ts : List Trade) → Sized ts → IsPriced ts → length ts ≤ 1024 → exact_sum ts < 2 ^ 128
exact_sum-lt ts h k fits = omega (arith, exact_sum-le ts h k)

-- An average lies between bounds of the prices.
quotient_bounds : (e q lo hi : ℕ) → 0 < q → lo * q ≤ e → e ≤ hi * q → (lo ≤ e / q) × (e / q ≤ hi)
quotient_bounds e q lo hi pos a b =
    ((le-div_iff_mul-le pos).1 a, div-le_of_le-mul q (rw (mul_comm q hi) b))

quotient-lt : (e q : ℕ) → e ≤ 2 ^ 63 * q → e / q % 2 ^ 64 ≡ e / q
quotient-lt e q h =
    let b : e / q ≤ 2 ^ 63 = div-le_of_le-mul q (rw (mul_comm q (2 ^ 63)) h) in omega (arith, b)

-- The sums of a window that a service keeps, as the service has them.
total_value :
    {s : VwapService} {ts : List Trade}
    → Represents s ts
    → IsPriced ts
    → s.total_priced_quantity ≡ exact_sum ts
total_value {s} {ts} r k =
    r.value
    ∙ ap (λ v. v % 2 ^ 128) (priced_sum-exact_sum ts r.sized k)
    ∙ omega (arith, exact_sum-lt ts r.sized k r.fits)

pub All-below : (ts : List Trade) → IsPriced ts → All (λ t. (0 ≤ t.price) × (t.price ≤ 2 ^ 63)) ts
All-below [] k = tt
All-below (t ∷ ts) (k, ks) = ((omega arith, omega arith), All-below ts ks)

average_of :
    (s : VwapService) (ts : List Trade)
    → Represents s ts
    → IsPriced ts
    → 0 < quantity_sum ts
    → s.total_priced_quantity / s.total_quantity % 2 ^ 64 ≡ exact_sum ts / quantity_sum ts
average_of s ts r k pos =
    rw (total_value r k, r.quantity)
      (quotient-lt (exact_sum ts) (quantity_sum ts)
        (exact_sum_bounds 0 (2 ^ 63) ts (All-below ts k)).1)

-- `getVWAP` first expires the window, keeps what is left of it, and returns 0 if no quantity is left.
-- If some is left and no price there is negative, it returns the sum of quantity times price over the
-- sum of quantities, rounded down and with no wrap-around, and that lies between any bounds of the
-- prices in the window.
pub get_vwap_average :
    (now : ℕ) (s : VwapService) (ts kept : List Trade) (lo hi : ℕ)
    → Represents s ts
    → remove_old s.rolling_window_size_ms now ts ≡ kept
    → IsPriced kept
    → All (λ t. (lo ≤ t.price) × (t.price ≤ hi)) kept
    → let (v, s') = get_vwap s now in
      Represents s' kept
      × ((quantity_sum kept ≡ 0) × (v ≡ 0)
          ⊎ (0 < quantity_sum kept)
            × (v ≡ exact_sum kept / quantity_sum kept)
            × (lo ≤ v)
            × (v ≤ hi))
unfolding get_vwap
get_vwap_average now s ts kept lo hi r e k b = elim (Bool-cases (s'.total_quantity == 0)) [
  | inl z ↦ rw z (r', inl (ground (arith, r'.quantity), refl))
  | inr z ↦
      let pos : 0 < quantity_sum kept = ground (arith, r'.quantity) in
      rw z (r', inr (pos, average_of s' kept r' k pos, (value_bounds pos).0, (value_bounds pos).1))
]
  where
    s' : VwapService
    s' = remove_old_trades s now

    r' : Represents s' kept
    r' = rw (← e) (remove_old_trades-Represents now s ts r)

    sums : (lo * quantity_sum kept ≤ exact_sum kept) × (exact_sum kept ≤ hi * quantity_sum kept)
    sums = exact_sum_bounds lo hi kept b

    bounds :
        0 < quantity_sum kept
        → (lo ≤ exact_sum kept / quantity_sum kept) × (exact_sum kept / quantity_sum kept ≤ hi)
    bounds pos = quotient_bounds (exact_sum kept) (quantity_sum kept) lo hi pos sums.0 sums.1

    value_bounds :
        0 < quantity_sum kept
        → (lo ≤ s'.total_priced_quantity / s'.total_quantity % 2 ^ 64)
          × (s'.total_priced_quantity / s'.total_quantity % 2 ^ 64 ≤ hi)
    value_bounds pos = rw (average_of s' kept r' k pos) (bounds pos)
