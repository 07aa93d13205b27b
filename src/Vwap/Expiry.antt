-- ===== src/Vwap/Expiry.antt =====
-- `removeOldTrades` on the window that a service keeps, and the tests for an empty and a full ring.
use slipstream_volume_aware.Prelude.{
  ℕ, zero, suc, ◌≤◌, ◌<◌, ◌≡◌, ◌≢◌, refl, List, [], ◌∷◌, length, true, false, ◌==◌, arith,
  Bool-cases, ==_iff, lt_false→le, lt_true→not_le, inl, inr, get_elem?, some,
}
use mathlib.Core.Path.{subst}
use slipstream_volume_aware.Codec.Gcmd.{Trade}
use slipstream_volume_aware.Vwap.{
  VwapService, drop_oldest, remove_loop, loop_test, full_test, remove_old_trades,
}
use slipstream_volume_aware.Vwap.Window.{quantity_sum, expire, stale, remove_old}
use slipstream_volume_aware.Vwap.Refine.{
  Represents, drop_oldest-Represents, head-eq-tail, head-ne-tail,
}

quantity_sum-nil : (ts : List Trade) → length ts ≡ 0 → quantity_sum ts ≡ 0
unfolding quantity_sum
quantity_sum-nil [] e = refl
quantity_sum-nil (t ∷ ts) e = absurd (omega (arith, e))

module _ {s : VwapService} {ts : List Trade} (r : Represents s ts) where
  loop_test-full : length ts ≡ 1024 → loop_test s ≡ false
  unfolding loop_test
  loop_test-full e = ground (arith, head-eq-tail r (inr e))

  loop_test-zero : quantity_sum ts ≡ 0 → loop_test s ≡ false
  unfolding loop_test
  loop_test-zero e = ground (arith, r.quantity)

  loop_test-goes : length ts < 1024 → 0 < length ts → 0 < quantity_sum ts → loop_test s ≡ true
  unfolding loop_test
  loop_test-goes a b c = ground (arith, r.quantity, head-ne-tail r b a)

  pub full_test-ne : length ts ≢ 1024 → full_test s ≡ false
  unfolding full_test
  full_test-ne ne =
      let nil = quantity_sum-nil ts in
      let apart = λ (h : 0 < length ts). head-ne-tail r h (omega (arith, ne, r.fits)) in
      ground (arith, r.quantity, nil, apart)

  pub full_test-eq : length ts ≡ 1024 → full_test s ≡ true
  unfolding full_test
  full_test-eq e = ground (arith, r.quantity, r.full_positive e, head-eq-tail r (inr e))

window_kept :
    (s : VwapService) (t : Trade)
    → (drop_oldest s t).rolling_window_size_ms ≡ s.rolling_window_size_ms
unfolding drop_oldest
window_kept s t = refl

-- One round of the loop of `removeOldTrades`.
module _ (fuel now : ℕ) (s : VwapService) where
  remove_loop-stop : loop_test s ≡ false → remove_loop (suc fuel) now s ≡ s
  unfolding remove_loop
  remove_loop-stop e = rw (e, remove_loop)

  remove_loop-fresh :
      (t : Trade)
      → loop_test s ≡ true
      → get_elem? s.trades s.tail ≡ some t
      → stale s.rolling_window_size_ms now t ≡ false
      → remove_loop (suc fuel) now s ≡ s
  unfolding remove_loop
  remove_loop-fresh t e g k = rw (e, g, lt_false→le _ _ k, remove_loop)

  remove_loop-next :
      (t : Trade)
      → loop_test s ≡ true
      → get_elem? s.trades s.tail ≡ some t
      → stale s.rolling_window_size_ms now t ≡ true
      → remove_loop (suc fuel) now s ≡ remove_loop fuel now (drop_oldest s t)
  unfolding remove_loop
  remove_loop-next t e g k = rw (e, g, lt_true→not_le _ _ k, remove_loop)

-- The loop of `removeOldTrades` on a window that is not full.
remove_loop-Represents :
    (fuel now : ℕ) (s : VwapService) (ts : List Trade)
    → length ts ≤ fuel
    → length ts < 1024
    → Represents s ts
    → Represents (remove_loop fuel now s) (expire s.rolling_window_size_ms now ts)
unfolding expire
remove_loop-Represents zero now s [] h k r = unfold remove_loop in r
remove_loop-Represents zero now s (t ∷ ts) h k r = absurd (omega arith)
remove_loop-Represents (suc fuel) now s [] h k r =
    rw (remove_loop-stop fuel now s (loop_test-zero r (quantity_sum-nil [] refl))) r
remove_loop-Represents (suc fuel) now s (t ∷ ts) h k r =
    let later =
      remove_loop-Represents fuel now (drop_oldest s t) ts (omega arith) (omega arith)
        (drop_oldest-Represents s t ts r) in
    elim (Bool-cases (quantity_sum (t ∷ ts) == 0)) [
      | inl z ↦ rw (z, remove_loop-stop fuel now s (loop_test-zero r ((==_iff _ _).0 z))) r
      | inr z ↦
          let go = loop_test-goes r k (omega arith) (ground arith) in
          elim (Bool-cases (stale s.rolling_window_size_ms now t)) [
            | inl old ↦
                rw (z, old, remove_loop-next fuel now s t go r.holds.0 old)
                  (subst
                    (λ w. Represents (remove_loop fuel now (drop_oldest s t)) (expire w now ts))
                    (window_kept s t) later)
            | inr new ↦ rw (z, new, remove_loop-fresh fuel now s t go r.holds.0 new) r
          ]
    ]

-- `removeOldTrades` is `Window.remove_old`.
pub remove_old_trades-Represents :
    (now : ℕ) (s : VwapService) (ts : List Trade)
    → Represents s ts
    → Represents (remove_old_trades s now) (remove_old s.rolling_window_size_ms now ts)
unfolding remove_old_trades remove_old
remove_old_trades-Represents now s ts r = elim (Bool-cases (length ts == 1024)) [
  | inl e ↦ rw (e, remove_loop-stop 1023 now s (loop_test-full r ((==_iff _ _).0 e))) r
  | inr e ↦ rw e (remove_loop-Represents 1024 now s ts r.fits (ground (arith, r.fits)) r)
]
