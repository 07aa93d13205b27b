-- ===== src/Vwap/Refine.antt =====
-- `VWAPService` keeps the window of `Window`, and its totals are those of the window.
use slipstream_volume_aware.Prelude.{
  ℕ, ◌+◌, ◌%◌, ◌^◌, ◌≤◌, ◌<◌, ◌≡◌, ◌≢◌, refl, sym, ap, ◌∙◌, List, [], ◌∷◌, ◌++◌, length, ◌&&◌, ◌==◌,
  All-append, arith, Bool-cases, inl, inr, set, length-set, length-append, length-replicate, ◌⊎◌,
}
use slipstream_volume_aware.Prelude.Words.{IsU32}
use slipstream_volume_aware.Prelude.Circular.{Holds, Holds-push}
use slipstream_volume_aware.Codec.Gcmd.{Trade}
use slipstream_volume_aware.Vwap.{VwapService, priced, init, add_trade, drop_oldest}
use slipstream_volume_aware.Vwap.Window.{
  quantity_sum, priced_sum, settle, add, Sized, quantity_sum-append, priced_sum-append,
  quantity_sum-le,
}

-- The service `s` keeps the window `ts`.
pub record Represents (s : VwapService) (ts : List Trade) : Type 0 where
  pub slots : length s.trades ≡ 1024
  pub tail_in : s.tail < 1024
  pub fits : length ts ≤ 1024
  pub head_at : s.head ≡ (s.tail + length ts) % 1024
  pub holds : Holds 1024 s.trades s.tail ts
  pub sized : Sized ts
  pub quantity : s.total_quantity ≡ quantity_sum ts
  pub value : s.total_priced_quantity ≡ priced_sum ts % 2 ^ 128
  pub full_positive : length ts ≡ 1024 → 0 < quantity_sum ts

pub priced-lt : (t : Trade) → priced t < 2 ^ 128
unfolding priced
priced-lt t = omega arith

-- The running total of quantities cannot wrap.
pub quantity_sum-IsU64 : (ts : List Trade) → Sized ts → length ts ≤ 1024 → quantity_sum ts < 2 ^ 64
quantity_sum-IsU64 ts h k = omega (arith, quantity_sum-le ts h)

-- Trades with no quantity have no value.
priced_sum-zero : (ts : List Trade) → quantity_sum ts ≡ 0 → priced_sum ts ≡ 0
unfolding quantity_sum priced_sum priced
priced_sum-zero [] e = refl
priced_sum-zero (t ∷ ts) e =
    let z : t.quantity ≡ 0 = omega (arith, e) in
    rw (z, priced_sum-zero ts (omega (arith, e))) (omega arith)

module _ {s : VwapService} {ts : List Trade} (r : Represents s ts) where
  pub head-eq-tail : (length ts ≡ 0) ⊎ (length ts ≡ 1024) → s.head ≡ s.tail
  head-eq-tail h = omega (arith, h, r.head_at, r.tail_in)

  pub head-ne-tail : 0 < length ts → length ts < 1024 → s.head ≢ s.tail
  head-ne-tail a b = omega (arith, r.head_at, r.tail_in)

-- The oldest trade leaves the window.
pub drop_oldest-Represents :
    (s : VwapService) (t : Trade) (ts : List Trade)
    → Represents s (t ∷ ts)
    → Represents (drop_oldest s t) ts
unfolding drop_oldest quantity_sum priced_sum
drop_oldest-Represents s t ts r = record {
  slots = r.slots;
  tail_in = omega arith;
  fits = omega (arith, r.fits);
  head_at = omega (arith, r.head_at, r.tail_in);
  holds = r.holds.1;
  sized = r.sized.1;
  quantity = omega (
    arith,
    r.quantity,
    r.sized.0,
    r.fits,
    quantity_sum-IsU64 ts r.sized.1 (omega (arith, r.fits)),
  );
  value = omega (arith, r.value, priced-lt t);
  full_positive = λ e. absurd (omega (arith, e, r.fits));
}

-- The window with a trade behind it, before a full one without quantity is taken for empty.
snoc-Holds :
    (s : VwapService) (t : Trade) (ts : List Trade)
    → Represents s ts
    → length ts < 1024
    → Holds 1024 (set s.trades s.head t) s.tail (ts ++ (t ∷ []))
snoc-Holds s t ts r h =
    Holds-push 1024 s.trades s.tail s.head t ts r.tail_in r.slots h r.head_at r.holds

length-snoc : (ts : List Trade) (t : Trade) → length (ts ++ (t ∷ [])) ≡ length ts + 1
length-snoc ts t = omega (arith, length-append ts (t ∷ []))

quantity-snoc :
    (ts : List Trade) (t : Trade) → quantity_sum (ts ++ (t ∷ [])) ≡ quantity_sum ts + t.quantity
unfolding quantity_sum
quantity-snoc ts t = omega (arith, quantity_sum-append ts (t ∷ []))

priced-snoc : (ts : List Trade) (t : Trade) → priced_sum (ts ++ (t ∷ [])) ≡ priced_sum ts + priced t
unfolding priced_sum
priced-snoc ts t = omega (arith, priced_sum-append ts (t ∷ []))

module _ (s : VwapService) (t : Trade) (ts : List Trade) (r : Represents s ts)
    (room : length ts < 1024) (small : IsU32 t.quantity) where
  totals :
      ((add_trade s t).total_quantity ≡ quantity_sum ts + t.quantity)
      × ((add_trade s t).total_priced_quantity ≡ (priced_sum ts + priced t) % 2 ^ 128)
  unfolding add_trade
  totals = let b = quantity_sum-le ts r.sized in (omega (arith, r.quantity), omega (arith, r.value))

  -- Some quantity, or a slot left: the trade joins the window.
  add_trade-joins :
      (length ts + 1 ≡ 1024 → 0 < quantity_sum ts + t.quantity)
      → Represents (add_trade s t) (ts ++ (t ∷ []))
  add_trade-joins pos = record {
    slots = unfold add_trade in length-set s.trades s.head t ∙ r.slots;
    tail_in = unfold add_trade in r.tail_in;
    fits = omega (arith, length-snoc ts t);
    head_at = unfold add_trade in omega (arith, r.head_at, length-snoc ts t);
    holds = unfold add_trade in snoc-Holds s t ts r room;
    sized = All-append (λ x. IsU32 x.quantity) ts (t ∷ []) r.sized (small, tt);
    quantity = totals.0 ∙ sym (quantity-snoc ts t);
    value = totals.1 ∙ ap (λ v. v % 2 ^ 128) (sym (priced-snoc ts t));
    full_positive = λ e. omega (arith, e, length-snoc ts t, quantity-snoc ts t, pos);
  }

  -- The last slot is taken and there is no quantity: the ring looks empty.
  add_trade-clears :
      length ts + 1 ≡ 1024 → quantity_sum ts + t.quantity ≡ 0 → Represents (add_trade s t) []
  add_trade-clears full zero_sum = record {
    slots = unfold add_trade in length-set s.trades s.head t ∙ r.slots;
    tail_in = unfold add_trade in r.tail_in;
    fits = omega arith;
    head_at = unfold add_trade in omega (arith, r.head_at, r.tail_in);
    holds = tt;
    sized = tt;
    quantity = unfold quantity_sum in totals.0 ∙ zero_sum;
    value =
        unfold priced_sum in
        totals.1
        ∙ ap (λ v. v % 2 ^ 128)
            (sym (priced-snoc ts t)
              ∙ priced_sum-zero (ts ++ (t ∷ [])) (quantity-snoc ts t ∙ zero_sum));
    full_positive = λ e. absurd (omega (arith, e));
  }

  pub add_trade-Represents : Represents (add_trade s t) (add ts t)
  unfolding add settle
  add_trade-Represents =
      elim (Bool-cases (length (ts ++ (t ∷ [])) == 1024 && quantity_sum (ts ++ (t ∷ [])) == 0)) [
        | inl e ↦ rw e (
            add_trade-clears (ground (arith, length-snoc ts t))
              (ground (arith, quantity-snoc ts t)))
        | inr e ↦ rw e (add_trade-joins (λ f. ground (arith, length-snoc ts t, quantity-snoc ts t)))
      ]

pub init-Represents : (window : ℕ) (any : Trade) → Represents (init window any) []
unfolding init quantity_sum priced_sum
init-Represents window any = record {
  slots = length-replicate 1024 any;
  tail_in = omega arith;
  fits = omega arith;
  head_at = refl;
  holds = tt;
  sized = tt;
  quantity = refl;
  value = refl;
  full_positive = λ e. absurd (omega (arith, e));
}
