-- ===== src/Csv/Tests.antt =====
-- A line with a quote, behind a line with a trade.
use slipstream_volume_aware.Prelude.{ℕ, ◌≡◌, refl, List, [], ◌∷◌, replicate, arith}
use slipstream_volume_aware.Prelude.Outcome.{ok}
use slipstream_volume_aware.Csv.{parse_timestamp, digit, is_letter}
use slipstream_volume_aware.Csv.Fields.{Skipped, other, joined}

abbrev time_text : List ℕ
time_text = b'9' ∷ b':' ∷ b'3' ∷ b'0' ∷ b':' ∷ b'1' ∷ b'5' ∷ b'.' ∷ b'2' ∷ b'5' ∷ b'0' ∷ []

abbrev isin : List ℕ
isin = replicate 12 b'A'

time_text-time : parse_timestamp (b'0' ∷ time_text) ≡ ok 34215250
unfolding parse_timestamp digit
time_text-time = refl

abbrev trade_line : List ℕ
trade_line = joined (b'0' ∷ time_text) ((b'T' ∷ []) ∷ isin ∷ [])

trade_line-Skipped : Skipped b'Q' trade_line
unfolding is_letter
trade_line-Skipped =
    other b'0' time_text (b'T' ∷ []) (isin ∷ []) 34215250 (omega arith) (omega arith) time_text-time
      refl
