-- ===== src/Vwap/Young.antt =====
-- The trades of a window that are young, over trades in the order of their times.
use slipstream_volume_aware.Prelude.{
  ap, ℕ, ◌-◌, ◌≤◌, ◌≡◌, refl, List, [], ◌∷◌, ◌++◌, length, leb, All, All-append, arith, Bool-cases,
  inl, inr,
}
use slipstream_volume_aware.Codec.Gcmd.{Trade}
use slipstream_volume_aware.Vwap.Freshness.{keep, Timed}

pub keep-All :
    (P : Trade → Type 0) (window now : ℕ) (ts : List Trade) → All P ts → All P (keep window now ts)
unfolding keep
keep-All P window now [] h = tt
keep-All P window now (t ∷ ts) (h, hs) = elim (Bool-cases (leb (now - t.timestamp_ns) window)) [
  | inl y ↦ rw y (h, keep-All P window now ts hs)
  | inr n ↦ rw n (keep-All P window now ts hs)
]

pub length-keep : (window now : ℕ) (ts : List Trade) → length (keep window now ts) ≤ length ts
unfolding keep
length-keep window now [] = omega arith
length-keep window now (t ∷ ts) = ground (arith, length-keep window now ts)

pub keep-Timed : (window m now : ℕ) (ts : List Trade) → Timed now ts → Timed now (keep window m ts)
unfolding keep
keep-Timed window m now [] h = tt
keep-Timed window m now (t ∷ ts) (a, b, c) = elim (Bool-cases (leb (m - t.timestamp_ns) window)) [
  | inl y ↦ rw y (
    a,
    keep-All (λ u. t.timestamp_ns ≤ u.timestamp_ns) window m ts b,
    keep-Timed window m now ts c,
  )
  | inr n ↦ rw n (keep-Timed window m now ts c)
]

-- What is too old stays too old.
pub keep-keep :
    (window m now : ℕ) (ts : List Trade)
    → m ≤ now
    → keep window now (keep window m ts) ≡ keep window now ts
unfolding keep
keep-keep window m now [] le = refl
keep-keep window m now (t ∷ ts) le = ground (arith, keep-keep window m now ts le)

pub keep-snoc :
    (window : ℕ) (ts : List Trade) (t : Trade)
    → keep window t.timestamp_ns (ts ++ (t ∷ [])) ≡ keep window t.timestamp_ns ts ++ (t ∷ [])
unfolding keep
keep-snoc window [] t = ground arith
keep-snoc window (u ∷ ts) t = ground (arith, keep-snoc window ts t)

pub Timed-later : (m now : ℕ) (ts : List Trade) → m ≤ now → Timed m ts → Timed now ts
Timed-later m now [] le h = tt
Timed-later m now (t ∷ ts) le (a, b, c) = (omega (arith, a, le), b, Timed-later m now ts le c)

pub Timed-snoc :
    (m : ℕ) (ts : List Trade) (t : Trade)
    → m ≤ t.timestamp_ns
    → Timed m ts
    → Timed t.timestamp_ns (ts ++ (t ∷ []))
Timed-snoc m [] t le h = (omega arith, tt, tt)
Timed-snoc m (u ∷ ts) t le (a, b, c) = (
  omega (arith, a, le),
  All-append (λ v. u.timestamp_ns ≤ v.timestamp_ns) ts (t ∷ []) b (omega (arith, a, le), tt),
  Timed-snoc m ts t le c,
)

pub keep-append :
    (window now : ℕ) (xs ys : List Trade)
    → keep window now (xs ++ ys) ≡ keep window now xs ++ keep window now ys
unfolding keep
keep-append window now [] ys = refl
keep-append window now (x ∷ xs) ys = elim (Bool-cases (leb (now - x.timestamp_ns) window)) [
  | inl y ↦ rw y (ap (λ l. x ∷ l) (keep-append window now xs ys))
  | inr n ↦ rw n (keep-append window now xs ys)
]

pub length-keep-keep :
    (window m now : ℕ) (ts : List Trade)
    → length (keep window now (keep window m ts)) ≤ length (keep window now ts)
unfolding keep
length-keep-keep window m now [] = omega arith
length-keep-keep window m now (t ∷ ts) = ground (arith, length-keep-keep window m now ts)

-- The last of some trades in order.
pub Timed-last :
    (now : ℕ) (ts : List Trade) (t : Trade) → Timed now (ts ++ (t ∷ [])) → t.timestamp_ns ≤ now
Timed-last now [] t h = h.0
Timed-last now (u ∷ ts) t (a, b, c) = Timed-last now ts t c
