-- ===== src/Csv/Fields.antt =====
-- Lines of comma-separated fields.
use slipstream_volume_aware.Prelude.{
  ℕ, ◌≡◌, ◌≢◌, refl, ap, ◌∙◌, List, [], ◌∷◌, ◌++◌, length, true, false, ◌==◌, none, some, arith,
  All,
}
use slipstream_volume_aware.Prelude.Outcome.{Outcome, ok, err, out_of_range}
use slipstream_volume_aware.Csv.{
  Stream, cut, get_field, read_line, read_loop, read_quote, quote_fields, copy_symbol,
  parse_timestamp, parse_price, parse_u_int, is_letter,
}

-- A field holds no comma.
abbrev pub IsField : List ℕ → Type 0
IsField = All (λ c. c ≢ b',')

cut-field : (f rest : List ℕ) → IsField f → cut (f ++ (b',' ∷ rest)) ≡ (f, some rest)
unfolding cut
cut-field [] rest v = refl
cut-field (c ∷ f) rest (h, v) = ground (arith, h, cut-field f rest v)

cut-last : (f : List ℕ) → IsField f → cut f ≡ (f, none)
unfolding cut
cut-last [] v = refl
cut-last (c ∷ f) (h, v) = ground (arith, h, cut-last f v)

pub get_field-next :
    (f rest buffer : List ℕ)
    → IsField f
    → get_field (record { rest = f ++ (b',' ∷ rest); good = true }) buffer
      ≡ (f, record { rest = rest; good = true })
unfolding get_field
get_field-next f rest buffer v = cc (cut-field f rest v)

pub get_field-last :
    (f buffer : List ℕ)
    → IsField f
    → get_field (record { rest = f; good = true }) buffer ≡ (f, record { rest = []; good = false })
unfolding get_field
get_field-last f buffer v = cc (cut-last f v)

-- A line of fields.
abbrev pub joined : List ℕ → List (List ℕ) → List ℕ
joined f [] = f
joined f (g ∷ gs) = f ++ (b',' ∷ joined g gs)

pub get_field-joined :
    (f buffer : List ℕ) (gs : List (List ℕ))
    → IsField f
    → (get_field (record { rest = joined f gs; good = true }) buffer).0 ≡ f
get_field-joined f buffer [] v = ap (λ o. o.0) (get_field-last f buffer v)
get_field-joined f buffer (g ∷ gs) v = ap (λ o. o.0) (get_field-next f (joined g gs) buffer v)

module _ (symbol bp bq ap' aq : List ℕ) (vs : IsField symbol) (v1 : IsField bp) (v2 : IsField bq)
    (v3 : IsField ap') (v4 : IsField aq) (more : List (List ℕ)) where
  quote_fields_lem :
      (ts : ℕ) (buffer : List ℕ)
      → length symbol ≡ 12
      → quote_fields ts
          (record { rest = joined symbol (bp ∷ bq ∷ ap' ∷ aq ∷ more); good = true })
          buffer
        ≡ ok record {
          timestamp = ts;
          symbol = symbol;
          bid_price = parse_price bp;
          bid_quantity = parse_u_int bq;
          ask_price = parse_price ap';
          ask_quantity = parse_u_int aq;
        }
  unfolding quote_fields copy_symbol
  quote_fields_lem ts buffer h =
      let l : (length symbol == 12) ≡ true = ground (arith, h) in
      simp (
        get_field-next symbol (joined bp (bq ∷ ap' ∷ aq ∷ more)) buffer vs,
        get_field-next bp (joined bq (ap' ∷ aq ∷ more)) symbol v1,
        get_field-next bq (joined ap' (aq ∷ more)) bp v2,
        get_field-next ap' (joined aq more) bq v3,
        get_field-joined aq ap' more v4,
        l,
      )

-- A line that the search for a letter passes over: an empty one, or one with a time and another
-- letter.
pub data Skipped (letter : ℕ) : List ℕ → Type 0 where
  blank : Skipped letter []
  other :
      (c : ℕ) (t k : List ℕ) (more : List (List ℕ)) (n : ℕ)
      → IsField (c ∷ t)
      → IsField k
      → parse_timestamp (c ∷ t) ≡ ok n
      → is_letter k letter ≡ false
      → Skipped letter (joined (c ∷ t) (k ∷ more))

module _ {ℓ} {A : Type ℓ} (letter : ℕ) (fields : ℕ → Stream → List ℕ → Outcome A) where
  pub read_line-Skipped : (l : List ℕ) → Skipped letter l → read_line letter fields l ≡ ok none
  unfolding read_line
  read_line-Skipped l blank = refl
  read_line-Skipped l (other c t k more n v w e d) =
      simp (get_field-next (c ∷ t) (joined k more) [] v, get_field-joined k (c ∷ t) more w, e, d)

  pub read_loop-Skipped :
      (ls rest : List (List ℕ))
      → All (Skipped letter) ls
      → read_loop (read_line letter fields) (ls ++ rest) ≡ read_loop (read_line letter fields) rest
  unfolding read_loop
  read_loop-Skipped [] rest v = refl
  read_loop-Skipped (l ∷ ls) rest (h, v) = cc (read_line-Skipped l h, read_loop-Skipped ls rest v)

  pub read_loop-end :
      (ls : List (List ℕ))
      → All (Skipped letter) ls
      → read_loop (read_line letter fields) ls
        ≡ (err out_of_range, record { reached_end = true; file = [] })
  unfolding read_loop
  read_loop-end [] v = refl
  read_loop-end (l ∷ ls) (h, v) = cc (read_line-Skipped l h, read_loop-end ls v)

pub quote_line :
    (c : ℕ) (t symbol bp bq ap' aq : List ℕ) (more : List (List ℕ)) (n : ℕ)
    → IsField (c ∷ t)
    → IsField symbol
    → IsField bp
    → IsField bq
    → IsField ap'
    → IsField aq
    → parse_timestamp (c ∷ t) ≡ ok n
    → length symbol ≡ 12
    → read_line b'Q' quote_fields
        (joined (c ∷ t) ((b'Q' ∷ []) ∷ symbol ∷ bp ∷ bq ∷ ap' ∷ aq ∷ more))
      ≡ ok (
          some record {
            timestamp = n;
            symbol = symbol;
            bid_price = parse_price bp;
            bid_quantity = parse_u_int bq;
            ask_price = parse_price ap';
            ask_quantity = parse_u_int aq;
          })
unfolding read_line is_letter
quote_line c t symbol bp bq ap' aq more n vt vs v1 v2 v3 v4 e h =
    let line = joined symbol (bp ∷ bq ∷ ap' ∷ aq ∷ more) in
    simp (
      get_field-next (c ∷ t) (joined (b'Q' ∷ []) (symbol ∷ bp ∷ bq ∷ ap' ∷ aq ∷ more)) [] vt,
      get_field-next (b'Q' ∷ []) line (c ∷ t) (omega arith, tt),
      e,
      quote_fields_lem symbol bp bq ap' aq vs v1 v2 v3 v4 more n (b'Q' ∷ []) h,
    )

-- `readQuote` passes over blank lines and lines with a time and a letter other than Q. The first
-- line of seven fields or more with a time, the letter Q and a symbol of 12 characters gives the quote
-- that its fields say, each by its own parser, and the lines behind it stay for the next call.
pub read_quote-line :
    (ls rest more : List (List ℕ)) (c : ℕ) (t symbol bp bq ap' aq : List ℕ) (n : ℕ)
    → All (Skipped b'Q') ls
    → All IsField ((c ∷ t) ∷ symbol ∷ bp ∷ bq ∷ ap' ∷ aq ∷ [])
    → parse_timestamp (c ∷ t) ≡ ok n
    → length symbol ≡ 12
    → read_quote (record {
      reached_end = false;
      file = ls ++ (joined (c ∷ t) ((b'Q' ∷ []) ∷ symbol ∷ bp ∷ bq ∷ ap' ∷ aq ∷ more) ∷ rest);
    })
      ≡ (
        ok record {
          timestamp = n;
          symbol = symbol;
          bid_price = parse_price bp;
          bid_quantity = parse_u_int bq;
          ask_price = parse_price ap';
          ask_quantity = parse_u_int aq;
        },
        record { reached_end = false; file = rest },
      )
unfolding read_quote
read_quote-line ls rest more c t symbol bp bq ap' aq n skipped (vt, (vs, (v1, (v2, (v3, (v4, u))))))
      e h =
    read_loop-Skipped b'Q' quote_fields ls
      (joined (c ∷ t) ((b'Q' ∷ []) ∷ symbol ∷ bp ∷ bq ∷ ap' ∷ aq ∷ more) ∷ rest) skipped
    ∙ unfold read_loop in cc (quote_line c t symbol bp bq ap' aq more n vt vs v1 v2 v3 v4 e h)

-- At the end of the file `readQuote` throws `out_of_range`, and so does every call after it.
pub read_quote-end :
    (ls : List (List ℕ))
    → All (Skipped b'Q') ls
    → let (o, p) = read_quote (record { reached_end = false; file = ls }) in
      (o ≡ err out_of_range) × (read_quote p ≡ (err out_of_range, p))
unfolding read_quote
read_quote-end ls v = rw (read_loop-end b'Q' quote_fields ls v) (refl, refl)
