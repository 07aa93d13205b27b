-- ===== src/Engine/Report.antt =====
-- src/slipstream/engine/ExecutionReportService.h and .cpp, with the two getters of ExecutionEngine.h
-- that it calls: what goes to standard output, piece by piece. The percentage is computed in `double`,
-- whose operations are parameters.
use slipstream_volume_aware.Prelude.{ℕ, zero, suc, ◌≡◌, refl, ap, List, [], ◌∷◌, take}
use Prim.Native.String.{String}
use slipstream_volume_aware.Engine.{ExecutionEngine}

unfoldable pub get_executed_quantity : ExecutionEngine → ℕ
get_executed_quantity e = e.traded_quantity

unfoldable pub get_cumulative_executed_quantity : ExecutionEngine → ℕ
get_cumulative_executed_quantity e = e.cumulative_traded_quantity

-- The operations on `double` that the report uses: a 64-bit number turned into one, product and
-- quotient, and 100.0.
pub record Doubles {ℓ} (R : Type ℓ) : Type ℓ where
  pub of_uint64 : ℕ → R
  pub times : R → R → R
  pub over : R → R → R
  pub hundred : R

-- What is handed to `std::cout`: characters, a number, a `double`, or `std::endl`.
pub data Piece {ℓ} (R : Type ℓ) : Type ℓ where
  text : String → Piece R
  characters : List ℕ → Piece R
  number : ℕ → Piece R
  real : R → Piece R
  end_line : Piece R

pub record ExecutionReportService : Type 0 where
  pub symbol : List ℕ
  pub market_participation_cap : ℕ
  pub execution_engine : ExecutionEngine

-- The constructor, which copies the first 12 characters behind the pointer.
unfoldable pub report_init : List ℕ → ℕ → ExecutionEngine → ExecutionReportService
report_init symbol cap' e = record {
  symbol = take 12 symbol;
  market_participation_cap = cap';
  execution_engine = e;
}

-- `printExecutionReport`.
unfoldable pub print_execution_report {ℓ} :
    {R : Type ℓ} → Doubles R → ExecutionReportService → List (Piece R)
unfolding get_executed_quantity get_cumulative_executed_quantity
print_execution_report d r =
    let cumulative_market_volume = get_cumulative_executed_quantity r.execution_engine in
    let exec = get_executed_quantity r.execution_engine in
    text "=== SLIPSTREAM EXECUTION REPORT ==="
    ∷ end_line
    ∷ text "symbol              "
    ∷ characters (take 12 r.symbol)
    ∷ end_line
    ∷ text "market qty          "
    ∷ number cumulative_market_volume
    ∷ end_line
    ∷ text "executed qty        "
    ∷ number exec
    ∷ text "   ("
    ∷ real (d.over (d.times (d.of_uint64 exec) d.hundred) (d.of_uint64 cumulative_market_volume))
    ∷ text "%)"
    ∷ end_line
    ∷ []

-- The symbol is cut when it is stored and again when it is printed.
pub take_twice : (n : ℕ) (xs : List ℕ) → take n (take n xs) ≡ take n xs
take_twice zero xs = refl
take_twice (suc n) [] = refl
take_twice (suc n) (x ∷ xs) = ap (λ l. x ∷ l) (take_twice n xs)
