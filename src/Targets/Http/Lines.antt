-- ===== src/Targets/Http/Lines.antt =====
-- The scanner as a list of lines.
use vegeta.Prelude.{
  ℕ, zero, suc, ◌<◌, ◌≡◌, ◌⊎◌, All, true, false, none, List, [], ◌∷◌, ◌++◌, if◌then◌else◌, length,
  arith, Bool-cases, inl, inr, ◌∙◌,
}
use vegeta.Prelude.Text.{Text, is_empty, trim_space, has_prefix}
use vegeta.Outcome.{ok, err}
use vegeta.Targets.{no_targets}
use vegeta.Targets.Http.{PeekingScanner, has_failed, peek, scan, text, next_line, rounds}

-- The lines that are still to be read.
abbrev pub lines_of : PeekingScanner → List Text
lines_of s = if is_empty s.peeked then s.src.rest else s.peeked ∷ s.src.rest

-- The scanner of a reader without errors stands before these lines.
pub record At (ls : List Text) (s : PeekingScanner) : Type 0 where
  pub lines : lines_of s ≡ ls
  pub clean : s.src.fails ≡ none

-- The scanner after `Scan` and `Text`.
abbrev pub after_line : PeekingScanner → PeekingScanner
after_line s = (text (scan s).1).1

pub scan-At :
    (l : Text) (ls : List Text) (s : PeekingScanner)
    → At (l ∷ ls) s
    → ((scan s).0 ≡ true) × ((text (scan s).1).0 ≡ l) × At ls (after_line s)
unfolding scan text
scan-At l ls s h = ground arith

pub scan-At_end : (s : PeekingScanner) → At [] s → (scan s).0 ≡ false
unfolding scan
scan-At_end s h = ground arith

-- After a line nothing is left over from `Peek`.
pub after_line-peeked : (s : PeekingScanner) → (after_line s).peeked ≡ []
unfolding scan text
after_line-peeked s = ground arith

pub peek-At :
    (l : Text) (ls : List Text) (s : PeekingScanner)
    → s.peeked ≡ []
    → At (l ∷ ls) s
    → ((peek s).0 ≡ l) × At (if is_empty l then ls else l ∷ ls) (peek s).1
unfolding peek
peek-At l ls s e h = ground arith

-- The loops have enough rounds.
pub rounds-At : (ls : List Text) (s : PeekingScanner) → At ls s → length ls < rounds s
rounds-At ls s h = ground arith

pub has_failed-At : (ls : List Text) (s : PeekingScanner) → At ls s → has_failed s ≡ false
unfolding has_failed
has_failed-At ls s h = rw h.clean

-- A line that the first loop passes over.
abbrev pub IsSkipped : Text → Type 0
IsSkipped l = (is_empty (trim_space l) ≡ true) ⊎ (has_prefix (b'#' ∷ []) (trim_space l) ≡ true)

next_line-here :
    (fuel : ℕ) (l : Text) (ls : List Text) (s : PeekingScanner)
    → At (l ∷ ls) s
    → is_empty (trim_space l) ≡ false
    → has_prefix (b'#' ∷ []) (trim_space l) ≡ false
    → next_line (suc fuel) s ≡ ok (trim_space l, after_line s)
unfolding next_line
next_line-here fuel l ls s h full no_comment =
    let got = scan-At l ls s h in rw (got.0, got.1, full, no_comment)

next_line-skip :
    (fuel : ℕ) (l : Text) (ls : List Text) (s : PeekingScanner)
    → At (l ∷ ls) s
    → IsSkipped l
    → next_line (suc fuel) s ≡ next_line fuel (after_line s)
unfolding next_line
next_line-skip fuel l ls s h (inl e) = let got = scan-At l ls s h in rw (got.0, got.1, e)
next_line-skip fuel l ls s h (inr e) =
    let got = scan-At l ls s h in
    elim (Bool-cases (is_empty (trim_space l))) [
      | inl e1 ↦ rw (got.0, got.1, e1)
      | inr e1 ↦ rw (got.0, got.1, e1, e)
    ]

-- The first loop stops at the first line that is neither empty nor a comment.
pub next_line-At :
    (skipped : List Text) (fuel : ℕ) (l : Text) (ls : List Text) (s : PeekingScanner)
    → length skipped < fuel
    → At (skipped ++ l ∷ ls) s
    → All IsSkipped skipped
    → is_empty (trim_space l) ≡ false
    → has_prefix (b'#' ∷ []) (trim_space l) ≡ false
    → (s1 : PeekingScanner) × (next_line fuel s ≡ ok (trim_space l, s1))
      × At ls s1
      × (s1.peeked ≡ [])
next_line-At [] (suc fuel) l ls s lt h _ full no_comment = (
  after_line s,
  next_line-here fuel l ls s h full no_comment,
  (scan-At l ls s h).2,
  after_line-peeked s,
)
next_line-At (k ∷ skipped) (suc fuel) l ls s lt h sk full no_comment =
    let (s1, e, at, clear) =
      next_line-At skipped fuel l ls (after_line s) (omega (arith, lt))
        (scan-At k (skipped ++ l ∷ ls) s h).2 sk.1 full no_comment in
    (s1, next_line-skip fuel k (skipped ++ l ∷ ls) s h sk.0 ∙ e, at, clear)
next_line-At _ zero l ls s lt h _ _ _ = absurd (omega (arith, lt))

-- With nothing left but lines that are passed over, the first loop finds none.
pub next_line-none :
    (skipped : List Text) (fuel : ℕ) (s : PeekingScanner)
    → length skipped < fuel
    → At skipped s
    → All IsSkipped skipped
    → next_line fuel s ≡ err no_targets
unfolding next_line
next_line-none skipped zero s lt h sk = absurd (omega (arith, lt))
next_line-none [] (suc fuel) s lt h sk = rw (scan-At_end s h)
next_line-none (k ∷ skipped) (suc fuel) s lt h sk =
    next_line-skip fuel k skipped s h sk.0
    ∙ next_line-none skipped fuel (after_line s) (omega (arith, lt)) (scan-At k skipped s h).2 sk.1
