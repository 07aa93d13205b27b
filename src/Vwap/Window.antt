-- ===== src/Vwap/Window.antt =====
-- The window that `VWAPService` keeps, as the list of its trades, oldest first.
use slipstream_volume_aware.Prelude.{
  ℕ, ◌+◌, ◌-◌, ◌*◌, ◌^◌, ◌≤◌, ◌≡◌, List, [], ◌∷◌, ◌++◌, length, Bool, ◌&&◌, ◌==◌, ltb,
  if◌then◌else◌, All, arith,
}
use slipstream_volume_aware.Prelude.Words.{sub64, IsU32}
use slipstream_volume_aware.Prelude.Outcome.{Outcome, ok, err, runtime_error}
use slipstream_volume_aware.Codec.Gcmd.{Trade}
use slipstream_volume_aware.Vwap.{
  OverflowPolicy, reject_new, overwrite_oldest, throw, buffer_size, priced,
}

unfoldable pub quantity_sum : List Trade → ℕ
quantity_sum [] = 0
quantity_sum (t ∷ ts) = t.quantity + quantity_sum ts

unfoldable pub priced_sum : List Trade → ℕ
priced_sum [] = 0
priced_sum (t ∷ ts) = priced t + priced_sum ts

-- A trade is too old for the window. The difference is one of `uint64_t`.
abbrev pub stale : ℕ → ℕ → Trade → Bool
stale window now t = ltb window (sub64 now t.timestamp_ns)

-- The trades left once those at the front that are too old are gone. It stops early where all that
-- is left has quantity 0.
unfoldable pub expire : ℕ → ℕ → List Trade → List Trade
expire window now [] = []
expire window now (t ∷ ts) =
    let rest = expire window now ts in
    if quantity_sum (t ∷ ts) == 0 then t ∷ ts else if stale window now t then rest else t ∷ ts

-- A full window does not expire.
unfoldable pub remove_old : ℕ → ℕ → List Trade → List Trade
remove_old window now ts = if length ts == buffer_size then ts else expire window now ts

-- A full window with no quantity in it is taken for an empty one.
unfoldable pub settle : List Trade → List Trade
settle ts = if length ts == buffer_size && quantity_sum ts == 0 then [] else ts

unfoldable pub add : List Trade → Trade → List Trade
add ts t = settle (ts ++ (t ∷ []))

unfoldable pub drop_first : List Trade → List Trade
drop_first [] = []
drop_first (t ∷ ts) = ts

unfoldable pub overflow : OverflowPolicy → List Trade → Trade → Outcome (List Trade)
overflow reject_new ts t = ok ts
overflow overwrite_oldest ts t = ok (add (drop_first ts) t)
overflow throw ts t = err runtime_error

unfoldable pub handle : OverflowPolicy → ℕ → List Trade → Trade → Outcome (List Trade)
handle policy window ts t =
    let ts' = remove_old window t.timestamp_ns ts in
    if length ts' == buffer_size then overflow policy ts' t else ok (add ts' t)

-- Quantities are `uint32_t`.
abbrev pub Sized : List Trade → Type 0
Sized = All (λ t. IsU32 t.quantity)

pub quantity_sum-append :
    (ts us : List Trade) → quantity_sum (ts ++ us) ≡ quantity_sum ts + quantity_sum us
unfolding quantity_sum
quantity_sum-append [] us = omega arith
quantity_sum-append (t ∷ ts) us = omega (arith, quantity_sum-append ts us)

pub priced_sum-append : (ts us : List Trade) → priced_sum (ts ++ us) ≡ priced_sum ts + priced_sum us
unfolding priced_sum
priced_sum-append [] us = omega arith
priced_sum-append (t ∷ ts) us = omega (arith, priced_sum-append ts us)

pub quantity_sum-le : (ts : List Trade) → Sized ts → quantity_sum ts ≤ length ts * (2 ^ 32 - 1)
unfolding quantity_sum
quantity_sum-le [] h = omega arith
quantity_sum-le (t ∷ ts) (h, hs) = omega (arith, quantity_sum-le ts hs)

pub expire-Sized : (window now : ℕ) (ts : List Trade) → Sized ts → Sized (expire window now ts)
unfolding expire
expire-Sized window now [] h = h
expire-Sized window now (t ∷ ts) h = ground (arith, expire-Sized window now ts h.1)

pub length-expire : (window now : ℕ) (ts : List Trade) → length (expire window now ts) ≤ length ts
unfolding expire
length-expire window now [] = omega arith
length-expire window now (t ∷ ts) = ground (arith, length-expire window now ts)
