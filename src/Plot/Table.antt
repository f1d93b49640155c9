-- ===== src/Plot/Table.antt =====
-- lib/plot/plot.go: the shape and the order of the data of a plot.
use vegeta.Prelude.{
  ℕ, suc, ◌+◌, ◌≡◌, refl, ap, subst, ◌∙◌, true, false, ◌||◌, List, [], ◌∷◌, ◌++◌, map,
  if◌then◌else◌, length, length-append, length-set, length-replicate, set, replicate, take, All,
  All-append, get_or, sym, ◌≤◌, ◌⊎◌, arith,
}
use vegeta.Prelude.Int.{pos, ◌==ℤ◌, ltb_ℤ, leb_ℤ}
use vegeta.Prelude.Text.{Text, codes}
use vegeta.Prelude.Sort.{sort, Ordered, length-sort, All-sort, sort-Ordered}
use vegeta.Outcome.{ok, err, ◌>>=◌}
use vegeta.Float.{Float64}
use vegeta.Lttb
use vegeta.Plot
use vegeta.Plot.Page.{to_point, iter, row, rows, less, sorted_series, series_label, plot_data}

length-map : {A B : Type 0} (f : A → B) (xs : List A) → length (map f xs) ≡ length xs
length-map f [] = refl
length-map f (x ∷ xs) = ap suc (length-map f xs)

take-length : {A : Type 0} (xs : List A) → length (take (length xs) xs) ≡ length xs
take-length [] = refl
take-length (x ∷ xs) = ap suc (take-length xs)

few_enough : (a b : ℕ) → (a ≤ b) ⊎ (b ≡ 0) → (leb_ℤ (pos a) (pos b) || (pos b ==ℤ pos 0)) ≡ true
few_enough a b h = ground (arith, h)

module _ (fl : Float64) (nan : fl.F) (tsz : Plot.Compressor (fl.F)) where
  -- A series that is not downsampled, as it has no more points than the threshold or the threshold is 0, and of which the compressed series gives back as many pairs as
  -- were added.
  pub record IsWhole (threshold : ℕ) (s : Plot.TimeSeries fl tsz) : Type 0 where
    pub few : (s.len ≤ threshold) ⊎ (threshold ≡ 0)
    pub kept : length (tsz.values s.points) ≡ s.len

  -- The number of points in all series.
  abbrev pub total : List (Plot.TimeSeries fl tsz) → ℕ
  total [] = 0
  total (s ∷ series) = s.len + total series

  length-row : (size i : ℕ) (p : Lttb.Point fl) → length (row fl nan tsz size i p) ≡ size
  length-row size i p =
      length-set (set (replicate size nan) 0 p.x) (suc i) p.y
      ∙ length-set (replicate size nan) 0 p.x
      ∙ length-replicate size nan

  All-row :
      (size i : ℕ) (points : List (Lttb.Point fl))
      → All (λ r. length r ≡ size) (map (row fl nan tsz size i) points)
  All-row size i [] = tt
  All-row size i (p ∷ points) = (length-row size i p, All-row size i points)

  -- The points that `Downsample` gives of a whole series: all of them.
  downsample-whole :
      (threshold : ℕ) (s : Plot.TimeSeries fl tsz)
      → IsWhole threshold s
      → (points : List (Lttb.Point fl)) × (Lttb.downsample fl
            (iter fl nan tsz)
            (pos s.len)
            (pos threshold)
            (tsz.values s.points)
          ≡ ok points)
        × (length points ≡ s.len)
  unfolding Lttb.downsample Lttb.from iter
  downsample-whole threshold s whole = (
    map (to_point fl nan tsz) (take s.len (tsz.values s.points)),
    ap
        (λ b.
          if b
          then (Lttb.from fl (iter fl nan tsz) (pos s.len) (tsz.values s.points) >>= λ pulled.
              ok pulled.0)
          else if ltb_ℤ (pos threshold) (pos 3)
          then err Lttb.min_threshold
          else Lttb.in_buckets fl (iter fl nan tsz) (pos s.len) (pos threshold)
              (tsz.values s.points))
        (few_enough s.len threshold whole.few),
    length-map (to_point fl nan tsz) (take s.len (tsz.values s.points))
        ∙ subst (λ n. length (take n (tsz.values s.points)) ≡ n) whole.kept
            (take-length (tsz.values s.points)),
  )

  rows-IsTable :
      (threshold size i : ℕ) (series : List (Plot.TimeSeries fl tsz))
      → All (IsWhole threshold) series
      → (found : List (List fl.F)) × (rows fl nan tsz (pos threshold) size i series ≡ ok found)
        × All (λ r. length r ≡ size) found
        × (length found ≡ total series)
  unfolding rows
  rows-IsTable threshold size i [] whole = ([], refl, tt, refl)
  rows-IsTable threshold size i (s ∷ series) (one, whole) =
      let (points, sampled, n) = downsample-whole threshold s one in
      let (more, e, wide, m) = rows-IsTable threshold size (suc i) series whole in
      (
        map (row fl nan tsz size i) points ++ more,
        ap
              (λ x. x >>= λ ps. rows fl nan tsz (pos threshold) size (suc i) series >>= λ qs.
                ok (map (row fl nan tsz size i) ps ++ qs))
              sampled
            ∙ ap (λ x. x >>= λ qs. ok (map (row fl nan tsz size i) points ++ qs)) e,
        All-append (λ r. length r ≡ size) (map (row fl nan tsz size i) points) more
            (All-row size i points) wide,
        omega (
          arith,
          length-append (map (row fl nan tsz size i) points) more,
          length-map (row fl nan tsz size i) points,
          n,
          m,
        ),
      )

  -- Where each series has no more points than the threshold or the threshold is 0, so that none is
  -- downsampled, the compressed series give back as many pairs as were added, and `<` of floats is
  -- asymmetric, the data of a plot are a table, without an error: as many rows as there are points, each
  -- with a cell for each label, and no row directly before one of an earlier time.
  pub plot_data-IsTable :
      (threshold : ℕ) (m : List (Text × Plot.LabeledSeries fl tsz))
      → ((a b : fl.F) → fl.lt a b ≡ true → fl.lt b a ≡ false)
      → All (IsWhole threshold) (sorted_series fl nan tsz m)
      → (found : List (List fl.F)) × (labels : List Text) × (plot_data fl nan tsz (pos threshold) m
          ≡ ok (found, labels))
        × All (λ r. length r ≡ length labels) found
        × (length found ≡ total (sorted_series fl nan tsz m))
        × Ordered (less fl nan tsz) found
  unfolding plot_data
  plot_data-IsTable threshold m asym whole =
      let series = sorted_series fl nan tsz m in
      let (found, e, wide, n) = rows-IsTable threshold (suc (length series)) 0 series whole in
      (
        sort (less fl nan tsz) found,
        codes "Seconds" ∷ map (series_label fl nan tsz) series,
        ap
            (λ x. x >>= λ f.
              ok (sort (less fl nan tsz) f, codes "Seconds" ∷ map (series_label fl nan tsz) series))
            e,
        subst (λ k. All (λ r. length r ≡ suc k) (sort (less fl nan tsz) found))
            (sym (length-map (series_label fl nan tsz) series))
            (All-sort (less fl nan tsz) (λ r. length r ≡ suc (length series)) found wide),
        length-sort (less fl nan tsz) found ∙ n,
        sort-Ordered (less fl nan tsz) (λ p q. asym (get_or p 0 nan) (get_or q 0 nan)) found,
      )
