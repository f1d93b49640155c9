-- ===== src/Metrics/Counts.antt =====
-- The counts of the metrics: requests, successes, bytes and status codes.
use vegeta.Prelude.{
  ℕ, ◌+◌, ◌^◌, ◌<◌, ◌≡◌, ◌&&◌, leb, refl, Bool, some, List, [], ◌∷◌, ◌==◌, if◌then◌else◌, length,
  arith, Bool-cases, inl, inr, All, ◌∙◌, ==_iff,
}
use vegeta.Prelude.Text.{Text, text_key, text_eq, text_eq_iff}
use vegeta.Prelude.Map.{lookup, assign, lookup-assign}
use vegeta.Decimal.{format_uint}
use vegeta.Decimal.RoundTrip.{format_uint_inj}
use vegeta.Float.{Float64}
use vegeta.Results.{Result}
use vegeta.Metrics.{
  Estimator, Metrics, u64, blank, made, init, count_at, count_code, is_success, note_error,
  add_counts, tally_up,
}

-- The sum of a number of each result.
abbrev pub total_of : (Result → ℕ) → List Result → ℕ
total_of f [] = 0
total_of f (r ∷ rs) = f r + total_of f rs

-- The number of results that pass a test.
abbrev pub count_of : (Result → Bool) → List Result → ℕ
count_of p = total_of (λ r. if p r then 1 else 0)

count_at-assign :
    (k j : Text) (n : ℕ) (codes : List (Text × ℕ))
    → count_at j (assign k n codes) ≡ (if text_eq k j then n else count_at j codes)
unfolding count_at
count_at-assign k j n codes = ground (arith, lookup-assign k j n codes)

-- Counting one code adds one to its count, and to no other.
count_at-count_code :
    (c d : ℕ) (codes : List (Text × ℕ))
    → c < 2 ^ 16
    → d < 2 ^ 16
    → count_at (format_uint d) (count_code c codes)
      ≡ (if c == d then 1 else 0) + count_at (format_uint d) codes
unfolding count_code
count_at-count_code c d codes hc hd = rw count_at-assign (elim (Bool-cases (c == d)) [
  | inl same ↦
      let e : c ≡ d = (==_iff c d).0 same in
      rw (same, ← e, (text_eq_iff (format_uint c) (format_uint c)).1 refl) (omega arith)
  | inr other ↦ ground (arith, text_eq_iff (format_uint c) (format_uint d), format_uint_inj c d)
])

module _ (fl : Float64) (est : Estimator fl) where
  -- The metrics of some results, the last one added first, from the zero value.
  unfoldable pub collected : List Result → Metrics fl est
  collected [] = blank fl est
  collected (r ∷ rs) = add_counts fl est (collected rs) r

  -- What noting an error leaves alone.
  pub record SameCounts (m n : Metrics fl est) : Type 0 where
    pub requests_same : n.requests ≡ m.requests
    pub successes_same : n.successes ≡ m.successes
    pub in_same : n.bytes_in ≡ m.bytes_in
    pub out_same : n.bytes_out ≡ m.bytes_out
    pub codes_same : n.status_codes ≡ m.status_codes
    pub latencies_same : n.latencies ≡ m.latencies
    pub earliest_same : n.earliest ≡ m.earliest
    pub latest_same : n.latest ≡ m.latest
    pub end_same : n.end ≡ m.end

  pub note_error-SameCounts :
      (r : Result) (m : Metrics fl est) → SameCounts m (note_error fl est r m)
  unfolding note_error
  note_error-SameCounts r m = ground arith

  pub add_counts-SameCounts :
      (m : Metrics fl est) (r : Result)
      → SameCounts (tally_up fl est (init fl est m) r) (add_counts fl est m r)
  unfolding add_counts
  add_counts-SameCounts m r = note_error-SameCounts r (tally_up fl est (init fl est m) r)

  -- What one result adds to the counts.
  add_counts_lem :
      (m : Metrics fl est) (r : Result)
      → let n = add_counts fl est m r in
        (n.requests ≡ u64 (m.requests + 1))
        × (n.successes ≡ (if is_success r then u64 (m.successes + 1) else m.successes))
        × (n.bytes_in.total ≡ u64 (m.bytes_in.total + r.bytes_in))
        × (n.bytes_out.total ≡ u64 (m.bytes_out.total + r.bytes_out))
        × (n.status_codes ≡ some (count_code r.code (made m.status_codes)))
  unfolding tally_up init
  add_counts_lem m r = ground (arith, add_counts-SameCounts m r)

  pub status_codes-add_counts :
      (m : Metrics fl est) (r : Result)
      → (add_counts fl est m r).status_codes ≡ some (count_code r.code (made m.status_codes))
  status_codes-add_counts m r = (add_counts_lem m r).4

  is_success-from_to : (r : Result) → is_success r ≡ (leb 200 r.code && leb r.code 399)
  is_success-from_to r = ground arith

  -- After any results, the requests are their number, the successes are those with a status code from
  -- 200 to 399, and the bytes in and out are their sums, all modulo 2^64.
  pub collected_totals :
      (rs : List Result)
      → let m = collected rs in
        (m.requests ≡ u64 (length rs))
        × (m.successes ≡ u64 (count_of (λ r. leb 200 r.code && leb r.code 399) rs))
        × (m.bytes_in.total ≡ u64 (total_of (λ r. r.bytes_in) rs))
        × (m.bytes_out.total ≡ u64 (total_of (λ r. r.bytes_out) rs))
  unfolding collected blank
  collected_totals [] = (refl, refl, refl, refl)
  collected_totals (r ∷ rs) =
      ground (arith, collected_totals rs, add_counts_lem (collected rs) r, is_success-from_to r)

  -- Every result has a status code of 16 bits.
  abbrev pub HasCodes : List Result → Type 0
  HasCodes = All (λ r. r.code < 2 ^ 16)

  -- After any results, the count under the decimal form of a status code is the number of results with
  -- that code.
  pub collected_codes :
      (rs : List Result) (code : ℕ)
      → HasCodes rs
      → code < 2 ^ 16
      → count_at (format_uint code) (made (collected rs).status_codes)
        ≡ count_of (λ r. r.code == code) rs
  unfolding collected
  collected_codes [] code h lt = unfold blank count_at lookup in refl
  collected_codes (r ∷ rs) code h lt = rw ((add_counts_lem (collected rs) r).4) (
      count_at-count_code r.code code (made (collected rs).status_codes) h.0 lt
      ∙ ground (arith, collected_codes rs code h.1 lt))
