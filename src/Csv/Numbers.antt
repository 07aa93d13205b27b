-- ===== src/Csv/Numbers.antt =====
-- The numbers in the fields, against what their text says.
use slipstream_volume_aware.Prelude.{
  ℕ, zero, suc, ◌+◌, ◌-◌, ◌*◌, ◌/◌, ◌%◌, ◌^◌, ◌≤◌, ◌<◌, ◌≡◌, refl, sym, ap, ◌∙◌, List, [], ◌∷◌,
  ◌++◌, length, take, true, false, arith, All,
}
use slipstream_volume_aware.Prelude.Outcome.{ok}
use slipstream_volume_aware.Csv.{
  digit_value, digit, parse_timestamp, price_loop, pad_price, parse_price,
}

abbrev pub IsDigit : ℕ → Type 0
IsDigit c = (48 ≤ c) × (c < 58)

-- The number that digits write, with `v` in front of them.
abbrev pub decimal : ℕ → List ℕ → ℕ
decimal v [] = v
decimal v (c ∷ cs) = decimal (v * 10 + (c - 48)) cs

le-decimal : (v : ℕ) (cs : List ℕ) → v ≤ decimal v cs
le-decimal v [] = omega arith
le-decimal v (c ∷ cs) = omega (arith, le-decimal (v * 10 + (c - 48)) cs)

-- A digit is added to the value, which does not wrap as long as the whole number does not.
digit_step :
    (v c : ℕ) (cs : List ℕ)
    → IsDigit c
    → decimal (v * 10 + (c - 48)) cs < 2 ^ 64
    → (v * 10 + digit_value 64 c) % 2 ^ 64 ≡ v * 10 + (c - 48)
digit_step v c cs d h = ground (arith, d, le-decimal (v * 10 + (c - 48)) cs)

price_loop-whole :
    (ds fs : List ℕ) (v : ℕ)
    → All IsDigit ds
    → decimal v ds < 2 ^ 64
    → price_loop (ds ++ (b'.' ∷ fs)) v 0 false ≡ price_loop fs (decimal v ds) 0 true
unfolding price_loop
price_loop-whole [] fs v a h = refl
price_loop-whole (c ∷ ds) fs v (d, a) h =
    let step = digit_step v c ds d h in
    let more = price_loop-whole ds fs (v * 10 + (c - 48)) a h in
    ground (arith, d, step, more, ap (λ x. price_loop (ds ++ (b'.' ∷ fs)) x 0 false) step)

price_loop-frac :
    (fs : List ℕ) (v k n : ℕ)
    → All IsDigit fs
    → k + n ≡ 4
    → decimal v (take n fs) < 2 ^ 64
    → price_loop fs v k true ≡ (decimal v (take n fs), k + length (take n fs))
unfolding price_loop
price_loop-frac [] v k zero a e h = ground arith
price_loop-frac [] v k (suc n) a e h = ground arith
price_loop-frac (c ∷ fs) v k zero (d, a) e h = ground (arith, d)
price_loop-frac (c ∷ fs) v k (suc n) (d, a) e h =
    let step = digit_step v c (take n fs) d h in
    let more = price_loop-frac fs (v * 10 + (c - 48)) (suc k) n a (omega arith) h in
    ground (arith, d, e, more, ap (λ x. price_loop fs x (suc k) true) step)

pad_price_lem : (n v : ℕ) → n ≤ 4 → v * 10 ^ n < 2 ^ 64 → pad_price n v ≡ v * 10 ^ n
unfolding pad_price
pad_price_lem zero v b h = ground arith
pad_price_lem (suc zero) v b h = ground arith
pad_price_lem (suc (suc zero)) v b h = ground arith
pad_price_lem (suc (suc (suc zero))) v b h = ground arith
pad_price_lem (suc (suc (suc (suc zero)))) v b h = ground arith
pad_price_lem (suc (suc (suc (suc (suc n))))) v b h = absurd (omega arith)

padded-room : (n v : ℕ) → n ≤ 4 → v * 10 ^ n < 2 ^ 64 → v < 2 ^ 64
padded-room zero v b h = omega arith
padded-room (suc zero) v b h = omega arith
padded-room (suc (suc zero)) v b h = omega arith
padded-room (suc (suc (suc zero))) v b h = omega arith
padded-room (suc (suc (suc (suc zero)))) v b h = omega arith
padded-room (suc (suc (suc (suc (suc n))))) v b h = absurd (omega arith)

decimal-append : (v : ℕ) (cs bs : List ℕ) → decimal v (cs ++ bs) ≡ decimal (decimal v cs) bs
decimal-append v [] bs = refl
decimal-append v (c ∷ cs) bs = decimal-append (v * 10 + (c - 48)) cs bs

-- A decimal price is read as a number of ten-thousandths: all the digits before the point and the
-- first four behind it, with zeros for those of the four that are missing, as long as that number
-- fits into 64 bits. Digits behind the fourth are cut off, not rounded.
pub parse_price-decimal :
    (ds fs : List ℕ)
    → All IsDigit ds
    → All IsDigit fs
    → decimal 0 (ds ++ take 4 fs) * 10 ^ (4 - length (take 4 fs)) < 2 ^ 64
    → parse_price (ds ++ (b'.' ∷ fs)) ≡ decimal 0 (ds ++ take 4 fs) * 10 ^ (4 - length (take 4 fs))
unfolding parse_price
parse_price-decimal ds fs a b h =
    let e = decimal-append 0 ds (take 4 fs) in
    let n = length (take 4 fs) in
    let room = padded-room (4 - n) (decimal 0 (ds ++ take 4 fs)) (omega arith) h in
    let first =
      price_loop-whole ds fs 0 a (omega (arith, le-decimal (decimal 0 ds) (take 4 fs), e, room)) in
    let second = price_loop-frac fs (decimal 0 ds) 0 4 b refl (omega (arith, e, room)) in
    let none_before : 0 + n ≡ n = omega arith in
    ap (λ o. pad_price (4 - o.1) o.0) (first ∙ second)
    ∙ ap (λ k. pad_price (4 - k) (decimal (decimal 0 ds) (take 4 fs))) none_before
    ∙ ap (pad_price (4 - n)) (sym e)
    ∙ pad_price_lem (4 - n) (decimal 0 (ds ++ take 4 fs)) (omega arith) h

-- `HH:MM:SS.mmm`, with any separators.
pub clock : (h m s l : ℕ) → (a b c : ℕ) → List ℕ
clock h m s l a b c =
    (h / 10 + 48)
    ∷ (h % 10 + 48)
    ∷ a
    ∷ (m / 10 + 48)
    ∷ (m % 10 + 48)
    ∷ b
    ∷ (s / 10 + 48)
    ∷ (s % 10 + 48)
    ∷ c
    ∷ (l / 100 + 48)
    ∷ (l / 10 % 10 + 48)
    ∷ (l % 10 + 48)
    ∷ []

clock_sum :
    (h m s l : ℕ)
    → h < 100
    → m < 100
    → s < 100
    → l < 1000
    → ((((h / 10 * 10 + h % 10) * 60 + (m / 10 * 10 + m % 10)) * 60 + (s / 10 * 10 + s % 10)) * 1000
          + (l / 100 * 100 + l / 10 % 10 * 10 + l % 10))
        % 2 ^ 32
      ≡ ((h * 60 + m) * 60 + s) * 1000 + l
clock_sum h m s l hh hm hs hl = omega arith

digit_char : (d : ℕ) → d < 10 → digit_value 32 (d + 48) ≡ d
digit_char d h = ground arith

-- A time of day in `HH:MM:SS.mmm`, whatever the separators, is read as its milliseconds.
pub parse_timestamp-clock :
    (h m s l a b c : ℕ)
    → h < 100
    → m < 100
    → s < 100
    → l < 1000
    → parse_timestamp (clock h m s l a b c) ≡ ok (((h * 60 + m) * 60 + s) * 1000 + l)
unfolding parse_timestamp digit clock
parse_timestamp-clock h m s l a b c hh hm hs hl =
    simp
      (
        digit_char (h / 10) (omega arith),
        digit_char (h % 10) (omega arith),
        digit_char (m / 10) (omega arith),
        digit_char (m % 10) (omega arith),
        digit_char (s / 10) (omega arith),
        digit_char (s % 10) (omega arith),
        digit_char (l / 100) (omega arith),
        digit_char (l / 10 % 10) (omega arith),
        digit_char (l % 10) (omega arith),
      )
      (ap ok (clock_sum h m s l hh hm hs hl))
