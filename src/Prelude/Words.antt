-- ===== src/Prelude/Words.antt =====
-- Machine words as native numbers, and their bytes in memory, lowest first. A signed word is kept
-- as its bit pattern.
use slipstream_volume_aware.Prelude.Lists.{length}
use slipstream_volume_aware.Prelude.Split.{All}
use Prim.Native.Nat.{ℕ, zero, suc, ◌+◌, ◌-◌, ◌*◌, ◌/◌, ◌%◌, ◌^◌, ◌<◌}
use mathlib.Core.Path.{◌≡◌, refl, ap}
use mathlib.Core.List.{List, [], ◌∷◌}
use native.Mathlib.Omega.{arith}
use native.Mathlib.Nat.{pow-suc}

abbrev pub IsByte : ℕ → Type 0
IsByte b = b < 256

abbrev pub IsU32 : ℕ → Type 0
IsU32 v = v < 2 ^ 32

abbrev pub IsU64 : ℕ → Type 0
IsU64 v = v < 2 ^ 64

-- uint64_t a + b, a - b and a * b.
abbrev pub add64 : ℕ → ℕ → ℕ
add64 a b = (a + b) % 2 ^ 64

abbrev pub sub64 : ℕ → ℕ → ℕ
sub64 a b = (a + 2 ^ 64 - b) % 2 ^ 64

abbrev pub mul64 : ℕ → ℕ → ℕ
mul64 a b = a * b % 2 ^ 64

-- The `n` bytes of a word, and the word of some bytes.
unfoldable pub to_bytes : ℕ → ℕ → List ℕ
to_bytes zero v = []
to_bytes (suc n) v = v % 256 ∷ to_bytes n (v / 256)

unfoldable pub of_bytes : List ℕ → ℕ
of_bytes [] = 0
of_bytes (b ∷ bs) = b + 256 * of_bytes bs

pub length-to_bytes : (n v : ℕ) → length (to_bytes n v) ≡ n
unfolding to_bytes
length-to_bytes zero v = refl
length-to_bytes (suc n) v = ap suc (length-to_bytes n (v / 256))

pub to_bytes-IsByte : (n v : ℕ) → All IsByte (to_bytes n v)
unfolding to_bytes
to_bytes-IsByte zero v = tt
to_bytes-IsByte (suc n) v = (omega arith, to_bytes-IsByte n (v / 256))

pub of_bytes-to_bytes : (n v : ℕ) → v < 256 ^ n → of_bytes (to_bytes n v) ≡ v
unfolding to_bytes of_bytes
of_bytes-to_bytes zero v h = omega arith
of_bytes-to_bytes (suc n) v h =
    omega (arith, of_bytes-to_bytes n (v / 256) (omega (arith, pow-suc 256 n)))
