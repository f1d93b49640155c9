-- ===== src/Targets/ReadAll/Files.antt =====
-- `ReadAllTargets` over `NewHTTPTargeter`: a whole file of targets.
use vegeta.Prelude.{
  ℕ, zero, suc, ◌<◌, ◌≡◌, ap, subst, ◌∙◌, Bool, false, Option, none, some, List, [], ◌∷◌, ◌++◌, map,
  append_assoc, append-nil, if◌then◌else◌, length, arith, All,
}
use vegeta.Prelude.Text.{Text, text_key}
use vegeta.Prelude.Map.{lookup}
use vegeta.Outcome.{Fallible, ok, err}
use vegeta.Results.{Header}
use vegeta.Targets.{Target, TargetError, no_targets}
use vegeta.Targets.Http.{PeekingScanner, decode, rounds, used_up}
use vegeta.Targets.Http.Lines.{At, IsSkipped, next_line-none, rounds-At}
use vegeta.Targets.Http.Written.{Block, lines_for, file_of, IsPrintable, target_of}
use vegeta.Targets.Http.RoundTrip.{decode-written}
use vegeta.Targets.ReadAll.{is_end, read_loop, read_all}

read_loop-ok :
    {S : Type 0} (t : S → S × Fallible TargetError Target) (fuel : ℕ) (s s1 : S) (tgt : Target)
    (tgts : List Target)
    → t s ≡ (s1, ok tgt)
    → read_loop t (suc fuel) s tgts ≡ read_loop t fuel s1 (tgts ++ tgt ∷ [])
unfolding read_loop
read_loop-ok t fuel s s1 tgt tgts e =
    ap
      (λ p. elim (p.1) [
        | ok g ↦ read_loop t fuel p.0 (tgts ++ g ∷ [])
        | err x ↦ some (if is_end x then ok tgts else err x)
      ])
      e

module _ (is_uri : Text → Bool) (read_file : Text → Option Text) where
  abbrev pub targeter :
      Text → Header → PeekingScanner → PeekingScanner × Fallible TargetError Target
  targeter body hdr = decode is_uri read_file body hdr false

  decode-end :
      (body : Text) (hdr : Header) (tail : List Text) (s : PeekingScanner)
      → At tail s
      → All IsSkipped tail
      → targeter body hdr s ≡ (used_up is_uri read_file s, err no_targets)
  unfolding decode
  decode-end body hdr tail s h gap =
      rw (next_line-none tail (rounds s) s (omega (arith, rounds-At tail s h)) h gap)

  read_loop-file :
      (body : Text) (hdr : Header) (bs : List Block) (tail : List Text) (fuel : ℕ)
      (s : PeekingScanner) (tgts : List Target)
      → length bs < fuel
      → At (file_of bs ++ tail) s
      → All (IsPrintable is_uri read_file) bs
      → All IsSkipped tail
      → read_loop (targeter body hdr) fuel s tgts
        ≡ some (ok (tgts ++ map (target_of is_uri read_file body hdr) bs))
  unfolding read_loop
  read_loop-file body hdr bs tail zero s tgts lt h p gap = absurd (omega (arith, lt))
  read_loop-file body hdr [] tail (suc fuel) s tgts lt h p gap =
      rw (read_loop, decode-end body hdr tail s h gap, append-nil tgts)
  read_loop-file body hdr (b ∷ bs) tail (suc fuel) s tgts lt h p gap =
      let rest = file_of bs ++ tail in
      let tgt = target_of is_uri read_file body hdr b in
      let at = subst (λ t. At t s) (append_assoc (lines_for b) (file_of bs) tail) h in
      let (s1, e, at1) = decode-written is_uri read_file body hdr b rest s at p.0 in
      read_loop-ok (targeter body hdr) fuel s s1 tgt tgts e
      ∙ (read_loop-file body hdr bs tail fuel s1 (tgts ++ tgt ∷ []) (omega (arith, lt)) at1 p.1 gap
          ∙ ap (λ t. some (ok t))
              (append_assoc tgts (tgt ∷ []) (map (target_of is_uri read_file body hdr) bs)))

  -- No header of the block has a name of the default header, whose values the targets share.
  abbrev pub IsApart : Header → Block → Type 0
  IsApart hdr b = All (λ h. lookup h.0 hdr ≡ none) b.headers

  -- Of targets that `IsPrintable` allows, of which none adds to a name of the default header,
  -- `ReadAllTargets` over the HTTP targeter gives all targets of a written file that has at least one,
  -- in the order of the file, whatever comments and empty lines stand before, between and behind them,
  -- within one round more than there are targets.
  pub read_all-file :
      (body : Text) (hdr : Header) (b : Block) (bs : List Block) (tail : List Text) (fuel : ℕ)
      (s : PeekingScanner)
      → length (b ∷ bs) < fuel
      → At (file_of (b ∷ bs) ++ tail) s
      → All (IsPrintable is_uri read_file) (b ∷ bs)
      → All (IsApart hdr) (b ∷ bs)
      → All IsSkipped tail
      → read_all (targeter body hdr) fuel s
        ≡ some (ok (map (target_of is_uri read_file body hdr) (b ∷ bs)))
  unfolding read_all
  read_all-file body hdr b bs tail fuel s lt h p apart gap =
      rw (read_all, read_loop-file body hdr (b ∷ bs) tail fuel s [] lt h p gap)
