-- ===== src/Metrics/Bounds.antt =====
-- The earliest, the latest and the last instant of the metrics, and the extremes of the latencies.
use mathlib.Core.Path.{subst}
use vegeta.Prelude.{
  ◌≡◌, refl, ◌⊎◌, ◌||◌, List, [], ◌∷◌, if◌then◌else◌, arith, inl, inr, All, All-weaken, Any, sym,
}
use vegeta.Prelude.Int.{ℤ, pos, ltb_ℤ, ◌==ℤ◌, ◌≤ℤ◌, ◌<ℤ◌}
use vegeta.Float.{Float64}
use vegeta.Results.{Result, end_of}
use vegeta.Metrics.{Estimator, Metrics, blank, init, tally_up, add_counts, add_latency, zero_time}
use vegeta.Metrics.Counts.{collected, add_counts-SameCounts}

-- `Add`'s choice of the earlier instant, where the zero time stands for none.
abbrev earlier : ℤ → ℤ → ℤ
earlier t new = if t ==ℤ zero_time || ltb_ℤ new t then new else t

abbrev later : ℤ → ℤ → ℤ
later t new = if ltb_ℤ t new then new else t

abbrev lesser : ℤ → ℤ → ℤ
lesser t new = if ltb_ℤ new t || t ==ℤ pos 0 then new else t

-- The result was made after the zero time, which marks a field that is not set.
abbrev pub IsDated : Result → Type 0
IsDated r = zero_time <ℤ r.timestamp

-- Its latency is more than nothing.
abbrev pub IsTimed : Result → Type 0
IsTimed r = pos 0 <ℤ r.latency

module _ (fl : Float64) (est : Estimator fl) where
  add_counts_times :
      (m : Metrics fl est) (r : Result)
      → let n = add_counts fl est m r in
        (n.earliest ≡ earlier m.earliest r.timestamp)
        × (n.latest ≡ later m.latest r.timestamp)
        × (n.end ≡ later m.end (end_of r))
        × (n.latencies.max ≡ later m.latencies.max r.latency)
        × (n.latencies.min ≡ lesser m.latencies.min r.latency)
  unfolding tally_up init add_latency
  add_counts_times m r = ground (arith, add_counts-SameCounts fl est m r)

  -- The result lies between the instants of the metrics.
  abbrev pub Spans : Metrics fl est → Result → Type 0
  Spans m r = (m.earliest ≤ℤ r.timestamp) × (r.timestamp ≤ℤ m.latest) × (end_of r ≤ℤ m.end)

  abbrev IsSetTime : List Result → Metrics fl est → Type 0
  IsSetTime [] m = m.earliest ≡ zero_time
  IsSetTime (r ∷ rs) m = zero_time <ℤ m.earliest

  Spans-later :
      (m : Metrics fl est) (r : Result) (rs : List Result)
      → IsSetTime rs m
      → All (Spans m) rs
      → All (Spans (add_counts fl est m r)) rs
  Spans-later m r [] h a = tt
  Spans-later m r (x ∷ xs) h a =
      let times = add_counts_times m r in
      All-weaken (Spans m) (Spans (add_counts fl est m r)) (λ y s. ground arith) (x ∷ xs) a

  collected_set : (rs : List Result) → All IsDated rs → IsSetTime rs (collected fl est rs)
  unfolding collected blank
  collected_set [] h = refl
  collected_set (r ∷ []) h = ground (arith, add_counts_times (collected fl est []) r, h.0)
  collected_set (r ∷ x ∷ rs) h =
      ground
        (arith, add_counts_times (collected fl est (x ∷ rs)) r, collected_set (x ∷ rs) h.1, h.0)

  -- After results that were made after the zero time, every result's timestamp lies between the earliest
  -- and the latest instant, and no result ends after the end.
  collected_span : (rs : List Result) → All IsDated rs → All (Spans (collected fl est rs)) rs
  unfolding collected
  collected_span [] h = tt
  collected_span (r ∷ rs) h = (
    ground (arith, add_counts_times (collected fl est rs) r),
    Spans-later (collected fl est rs) r rs (collected_set rs h.1) (collected_span rs h.1),
  )

  -- The latency lies between the extremes of the metrics.
  abbrev pub Covers : Metrics fl est → Result → Type 0
  Covers m r = (m.latencies.min ≤ℤ r.latency) × (r.latency ≤ℤ m.latencies.max)

  abbrev IsSetMin : List Result → Metrics fl est → Type 0
  IsSetMin [] m = (m.latencies.min ≡ pos 0) × (m.latencies.max ≡ pos 0)
  IsSetMin (r ∷ rs) m = pos 0 <ℤ m.latencies.min

  collected_min_set : (rs : List Result) → All IsTimed rs → IsSetMin rs (collected fl est rs)
  unfolding collected blank
  collected_min_set [] h = (refl, refl)
  collected_min_set (r ∷ []) h = ground (arith, add_counts_times (collected fl est []) r, h.0)
  collected_min_set (r ∷ x ∷ rs) h =
      ground
        (arith, add_counts_times (collected fl est (x ∷ rs)) r, collected_min_set (x ∷ rs) h.1, h.0)

  Covers-later :
      (m : Metrics fl est) (r : Result) (rs : List Result)
      → IsSetMin rs m
      → All (Covers m) rs
      → All (Covers (add_counts fl est m r)) rs
  Covers-later m r [] h a = tt
  Covers-later m r (x ∷ xs) h a =
      let times = add_counts_times m r in
      All-weaken (Covers m) (Covers (add_counts fl est m r)) (λ y s. ground arith) (x ∷ xs) a

  -- After results whose latencies are all positive, every latency lies between the minimum and the
  -- maximum of the metrics.
  pub collected-Covers : (rs : List Result) → All IsTimed rs → All (Covers (collected fl est rs)) rs
  unfolding collected
  collected-Covers [] h = tt
  collected-Covers (r ∷ rs) h = (
    ground (arith, add_counts_times (collected fl est rs) r),
    Covers-later (collected fl est rs) r rs (collected_min_set rs h.1) (collected-Covers rs h.1),
  )

  -- The minimum and the maximum are latencies of some results.
  abbrev pub Attains : ℤ → Result → Type 0
  Attains latency r = r.latency ≡ latency

  Attains-later :
      (t new : ℤ) (r : Result) (rs : List Result)
      → (new ≡ t) ⊎ (new ≡ r.latency)
      → Any (Attains t) rs
      → Any (Attains new) (r ∷ rs)
  Attains-later t new r rs (inl same) a = inr (subst (λ x. Any (Attains x) rs) (sym same) a)
  Attains-later t new r rs (inr is) a = inl (sym is)

  -- After one result or more, of positive latencies, the minimum and the maximum of the metrics are
  -- latencies of results.
  pub collected-Attains :
      (r : Result) (rs : List Result)
      → All IsTimed (r ∷ rs)
      → let l = (collected fl est (r ∷ rs)).latencies in
        Any (Attains l.min) (r ∷ rs) × Any (Attains l.max) (r ∷ rs)
  unfolding collected blank
  collected-Attains r [] h = ground (arith, add_counts_times (collected fl est []) r, h.0)
  collected-Attains r (x ∷ rs) h =
      let m = collected fl est (x ∷ rs) in
      let (min_at, max_at) = collected-Attains x rs h.1 in
      let times = add_counts_times m r in
      (
        Attains-later m.latencies.min _ r (x ∷ rs) (ground arith) min_at,
        Attains-later m.latencies.max _ r (x ∷ rs) (ground arith) max_at,
      )

  -- A minimum of 0, which a latency of 0 leaves, is forgotten: the next result's latency replaces it,
  -- whatever it is.
  pub min_forgets_zero :
      (m : Metrics fl est) (r : Result)
      → m.latencies.min ≡ pos 0
      → (add_counts fl est m r).latencies.min ≡ r.latency
  min_forgets_zero m r h = ground (arith, add_counts_times m r)
