-- ===== src/Targets/Http/Trim.antt =====
-- `TrimSpace`, `SplitN` and the method expression on the lines that a target is written as.
use vegeta.Prelude.{ℕ, ◌≡◌, ◌≢◌, refl, true, false, [], ◌∷◌, ◌++◌, arith, All}
use vegeta.Prelude.Text.{Text, is_space, trim_left, trim_right, trim_space, split2}
use vegeta.Targets.Http.{is_blank, is_upper, upper_then_blank}

-- A text whose ends are no spaces, and that is not empty.
pub record IsTrimmed (s : Text) : Type 0 where
  pub some_text : s ≢ []
  pub no_left : trim_left s ≡ s
  pub no_right : trim_right s ≡ s

pub trim_space-IsTrimmed : (s : Text) → IsTrimmed s → trim_space s ≡ s
unfolding trim_space
trim_space-IsTrimmed s h = rw (h.no_left, h.no_right)

pub append-ne-nil : (a b : Text) → b ≢ [] → a ++ b ≢ []
append-ne-nil [] b h = h
append-ne-nil (c ∷ a) b h = λ e. cc

pub trim_right-append : (a b : Text) → b ≢ [] → trim_right b ≡ b → trim_right (a ++ b) ≡ a ++ b
unfolding trim_right
trim_right-append [] b ne h = h
trim_right-append (c ∷ a) b ne h = ground (arith, trim_right-append a b ne h, append-ne-nil a b ne)

-- No character is a space of either kind.
abbrev pub IsWord : Text → Type 0
IsWord = All (λ c. (is_space c ≡ false) × (is_blank c ≡ false))

pub append-IsTrimmed :
    (c : ℕ) (w s : Text) → is_space c ≡ false → s ≢ [] → trim_right s ≡ s → IsTrimmed ((c ∷ w) ++ s)
unfolding trim_left
append-IsTrimmed c w s first ne h = record {
  some_text = λ e. cc;
  no_left = rw (first);
  no_right = trim_right-append (c ∷ w) s ne h;
}

pub split2-append :
    (sep : ℕ) (w s : Text) → All (λ c. c ≢ sep) w → split2 sep (w ++ sep ∷ s) ≡ w ∷ s ∷ []
unfolding split2
split2-append sep [] s h = ground arith
split2-append sep (c ∷ w) s h = ground (arith, split2-append sep w s h.1)

pub not_method : (w s : Text) → IsWord w → upper_then_blank (w ++ b':' ∷ s) ≡ false
unfolding upper_then_blank
not_method [] s h = refl
not_method (c ∷ w) s h = ground (arith, not_method w s h.1)

pub is_method :
    (w s : Text) → All (λ c. is_upper c ≡ true) w → upper_then_blank (w ++ b' ' ∷ s) ≡ true
unfolding upper_then_blank
is_method [] s h = refl
is_method (c ∷ w) s h = ground (arith, is_method w s h.1)

pub trim_space-blank : (v : Text) → IsTrimmed v → trim_space (b' ' ∷ v) ≡ v
unfolding trim_space trim_left
trim_space-blank v h = rw (h.no_left, h.no_right)

pub upper_no_space : (c : ℕ) → is_upper c ≡ true → (is_space c ≡ false) × (c ≢ b' ') × (c ≢ b'#')
unfolding is_space
upper_no_space c h = ground arith
