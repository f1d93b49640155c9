-- ===== src/Pacer/Constant/Laws.antt =====
-- The arithmetic of `ConstantPacer.Pace` at configurations whose numbers fit their types.
use vegeta.Prelude.{
  ℕ, ◌+◌, ◌-◌, ◌*◌, ◌/◌, ◌^◌, ◌≤◌, ◌<◌, ◌≡◌, true, false, arith, ltb, ◌==◌, if◌then◌else◌,
}
use vegeta.Prelude.Int.{ℤ, pos, negsuc, sub_ℕ, ◌-ℤ◌, ◌+ℤ◌, ◌≤ℤ◌, int64, /ℤ-pos, uint64_id}
use vegeta.Pacer.Constant.{ConstantPacer, max_int64, expected_hits, interval, delta, pace}
use vegeta.Outcome.{returns, panics}

abbrev pub hits_per : ℕ → ℕ → ConstantPacer
hits_per f p = record { freq = pos f; per = pos p }

pub mul-div-le : (f p t : ℕ) → f ≤ p → f * (t / p) ≤ t
mul-div-le f p t h = grind arith

module _ (f p : ℕ) where
  pub interval-hits_per : p < 2 ^ 63 → interval (hits_per f p) ≡ p / f
  unfolding interval
  interval-hits_per hp = rw (/ℤ-pos, uint64_id (p / f) (omega arith))

  pub expected_hits-hits_per :
      (t : ℕ) → f ≤ p → t < 2 ^ 63 → p < 2 ^ 63 → expected_hits (hits_per f p) (pos t) ≡ f * (t / p)
  unfolding expected_hits
  expected_hits-hits_per t hf ht hp =
      rw (/ℤ-pos, uint64_id (t / p) (omega arith), uint64_id f (omega arith))
        (omega (arith, mul-div-le f p t hf))

pub delta_exact : (h i : ℕ) → (h + 1) * i < 2 ^ 63 → 0 < i → delta h i ≡ pos ((h + 1) * i)
unfolding delta
delta_exact h i lt ip = grind arith

pub interval_pos : (f p : ℕ) → 0 < f → f ≤ p → 0 < p / f
interval_pos f p hf h = grind arith

pub le-max_int64 : (h i : ℕ) → 0 < i → h * i ≤ max_int64 → h ≤ max_int64 / i
le-max_int64 h i ip le = grind arith

pub int64-sub : (a t : ℕ) → a < 2 ^ 63 → t < 2 ^ 63 → int64 (pos a -ℤ pos t) ≡ sub_ℕ a t
unfolding ◌-ℤ◌ int64
int64-sub a t ha ht = ground arith

pub interval_zero : (f p : ℕ) → p < f → p / f ≡ 0
interval_zero f p h = grind arith

-- `Pace` past its two guards, which a positive configuration passes.
pub pace_positive :
    (f p : ℕ) (elapsed : ℤ) (h : ℕ)
    → 0 < f
    → 0 < p
    → pace (hits_per f p) elapsed h ≡ (
        if ltb h (expected_hits (hits_per f p) elapsed)
        then returns (pos 0, false)
        else if interval (hits_per f p) == 0
        then panics
        else if ltb (max_int64 / interval (hits_per f p)) h
        then returns (pos 0, true)
        else returns (int64 (delta h (interval (hits_per f p)) -ℤ elapsed), false))
unfolding pace
pace_positive f p elapsed h hf hp = ground arith

pub mul_mono : (a b c : ℕ) → a ≤ b → a * c ≤ b * c
mul_mono a b c h = grind arith

div-mul-le : (a b : ℕ) → a / b * b ≤ a
div-mul-le a b = grind arith

-- All hits that are behind schedule are due by now.
pub behind_is_due : (f p t h : ℕ) → h < f * (t / p) → (h + 1) * (p / f) ≤ t
behind_is_due f p t h behind = omega (
  arith,
  mul_mono (h + 1) (f * (t / p)) (p / f) (omega arith),
  mul_mono (p / f * f) p (t / p) (div-mul-le p f),
  div-mul-le t p,
)

pub waits_until : (t d t' : ℕ) → pos t +ℤ sub_ℕ d t ≤ℤ pos t' → d ≤ t'
unfolding ◌+ℤ◌
waits_until t d t' h = ground arith

pub due_past_limit :
    (h i : ℕ)
    → 0 < i
    → h ≡ max_int64 / i
    → (max_int64 < (h + 1) * i) × ((h + 1) * i ≤ max_int64 + i)
due_past_limit h i ip e = rw e (grind arith, omega (arith, div-mul-le max_int64 i))

-- The due time after the last one that fits an int64 is negative once it is converted.
pub delta_past_limit :
    (h i : ℕ)
    → 0 < i
    → i < 2 ^ 63
    → h ≡ max_int64 / i
    → delta h i ≡ negsuc (2 ^ 64 - 1 - (h + 1) * i)
unfolding delta
delta_past_limit h i ip hi e = grind (arith, due_past_limit h i ip e)

pub int64-sub_negsuc : (n t : ℕ) → n + t < 2 ^ 63 → int64 (negsuc n -ℤ pos t) ≡ negsuc (n + t)
unfolding ◌-ℤ◌ int64
int64-sub_negsuc n t h = ground arith
