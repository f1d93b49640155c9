-- ===== src/Commands/Launch/Turns.antt =====
-- attack.go with lib/targets.go: from a file of targets to the hits.
use vegeta.Prelude.{
  ℕ, suc, ◌%◌, ◌^◌, ◌<◌, ◌≤◌, ◌≡◌, refl, ap, false, none, some, List, [], ◌∷◌, ◌++◌, map, length,
  length-append, get_elem?, All, arith,
}
use vegeta.Prelude.Text.{Text, text_key, text_eq, text_eq_iff, codes, is_empty}
use vegeta.Prelude.Map.{lookup, assign}
use vegeta.Outcome.{returns, ok}
use vegeta.Targets.{Target}
use vegeta.Targets.Http.{PeekingScanner}
use vegeta.Targets.Http.Lines.{At, lines_of, IsSkipped}
use vegeta.Targets.Http.Written.{
  Block, request_line, header_lines, closing_line, lines_for, file_of, IsPrintable, target_of,
}
use vegeta.Targets.ReadAll.Ends.{lines_left}
use vegeta.Targets.ReadAll.Files.{IsApart, read_all-file}
use vegeta.Targets.Static.{static}
use vegeta.Targets.Static.RoundRobin.{counter_after, static-IsRoundRobin}
use vegeta.Commands.{Opened, open_file, is_unlimited}
use vegeta.Commands.Launch.{
  Opts, http_lines, statically, goes_on, World, check_limits, check_resolvers, open_as, open_all,
  read_body, choose_targeter, read_eagerly, choose_source, prepare,
}

-- Options of an attack that reads all targets from a file in the HTTP format, without a body or resolvers.
pub record IsEager (w : World) (opts : Opts) (f : Opened) : Type 0 where
  pub limited : is_unlimited opts.max_workers opts.freq ≡ false
  pub no_resolvers : opts.resolvers ≡ []
  pub no_body : opts.bodyf ≡ []
  pub some_file : is_empty opts.targetsf ≡ false
  pub can_open : open_file w.create_error w.open_error opts.targetsf false ≡ ok f
  pub format_http : opts.format ≡ codes "http"
  pub eager : opts.lazy ≡ false

lines_left-length : (s : PeekingScanner) → lines_left s ≡ length (lines_of s)
lines_left-length s = ground arith

lines_for-length : (b : Block) → 1 ≤ length (lines_for b)
lines_for-length b = omega (
  arith,
  length-append b.skipped
      (request_line b ∷ (header_lines b.headers ++ closing_line b.closing ∷ [])),
)

file_of-length : (bs : List Block) (tail : List Text) → length bs ≤ length (file_of bs ++ tail)
file_of-length [] tail = omega arith
file_of-length (b ∷ bs) tail = omega (
  arith,
  lines_for-length b,
  length-append (lines_for b ++ file_of bs) tail,
  length-append (lines_for b) (file_of bs),
  length-append (file_of bs) tail,
  file_of-length bs tail,
)

module _ (w : World) (opts : Opts) (f : Opened) (ready : IsEager w opts f) where
  opened_source :
      open_all w.create_error w.open_error (opts.targetsf ∷ opts.bodyf ∷ []) [] []
      ≡ (f ∷ [], goes_on ((opts.targetsf, f) ∷ []))
  unfolding open_all open_as assign
  opened_source = rw (open_all, open_as, ready.some_file, ready.can_open, ready.no_body) refl

  -- The text is not that of the source, which has a name.
  not_body : text_eq opts.bodyf opts.targetsf ≡ false
  unfolding text_eq
  not_body = rw ready.no_body (nameless opts.targetsf ready.some_file)
    where
      nameless : (name : Text) → is_empty name ≡ false → text_eq [] name ≡ false
      nameless [] e = absurd cc
      nameless (c ∷ name) e = refl

  here : lookup opts.targetsf ((opts.targetsf, f) ∷ []) ≡ some f
  unfolding lookup
  here = rw ((text_eq_iff opts.targetsf opts.targetsf).1 refl) refl

  chosen :
      choose_targeter w.create_error w.open_error w.reader_of w.scanner_of opts
        ((opts.targetsf, f) ∷ [])
        []
      ≡ ok (http_lines (w.scanner_of f) [])
  unfolding choose_targeter text_eq
  chosen = rw (choose_targeter, ready.format_http, here, not_body) refl

  no_file : lookup opts.bodyf ((opts.targetsf, f) ∷ []) ≡ none
  unfolding lookup text_eq
  no_file = rw ready.no_body (nameless opts.targetsf ready.some_file)
    where
      nameless :
          (name : Text) → is_empty name ≡ false → lookup {K = Text} [] ((name, f) ∷ []) ≡ none
      nameless [] e = absurd cc
      nameless (c ∷ name) e = refl

  no_text :
      read_body w.create_error w.open_error w.read_bytes opts.bodyf
        ((opts.targetsf, f) ∷ [])
        (f ∷ [])
      ≡ (f ∷ [], goes_on [])
  unfolding read_body
  no_text = rw (read_body, no_file) refl

  -- What `ReadAllTargets` reads of the source.
  abbrev pub targets_of : List Block → List Target
  targets_of = map (target_of w.is_uri w.body_file [] opts.headers)

  module _ (b : Block) (bs : List Block) (tail : List Text)
      (at : At (file_of (b ∷ bs) ++ tail) (w.scanner_of f))
      (printable : All (IsPrintable w.is_uri w.body_file) (b ∷ bs))
      (apart : All (IsApart w.is_uri w.body_file opts.headers) (b ∷ bs))
      (gap : All IsSkipped tail) where
    enough : length (b ∷ bs) < suc (lines_left (w.scanner_of f))
    enough = omega (
      arith,
      lines_left-length (w.scanner_of f),
      ap length at.lines,
      file_of-length (b ∷ bs) tail,
    )

    read :
        choose_source w.is_uri w.body_file w.parse opts (http_lines (w.scanner_of f) []) (f ∷ [])
        ≡ (f ∷ [], goes_on (statically (targets_of (b ∷ bs))))
    unfolding choose_source read_eagerly
    read =
        rw
          (
            choose_source,
            ready.eager,
            read_eagerly,
            read_all-file w.is_uri w.body_file [] opts.headers b bs tail
                (suc (lines_left (w.scanner_of f))) (w.scanner_of f) enough at printable apart gap,
          )
          refl

    prepare_lem : prepare w opts [] ≡ (f ∷ [], goes_on (statically (targets_of (b ∷ bs))))
    unfolding prepare check_limits check_resolvers
    prepare_lem =
        rw
          (
            prepare, check_limits, ready.limited, check_resolvers, ready.no_resolvers,
            opened_source, no_text, chosen, read,
          )
          refl

    -- An attack that is not lazy, on a file of targets in the HTTP format that allow `IsPrintable`, of which
    -- none adds to a name of the default header, with any comments and empty lines between them, without
    -- a body, resolvers and the limits amiss: what it attacks with is the static targeter over all
    -- targets of the file in their order, and call `k` of it, from 0 on, gives the target at `k` modulo
    -- their number. Which hit makes which call is not said.
    pub prepare-TakesTurns :
        (k : ℕ)
        → k < 2 ^ 63
        → let tgts = targets_of (b ∷ bs) in
          (prepare w opts [] ≡ (f ∷ [], goes_on (statically tgts)))
          × (t : Target) × (get_elem? tgts (k % length tgts) ≡ some t)
          × ((static tgts false (counter_after tgts k)).1 ≡ returns (ok t))
    prepare-TakesTurns k lt =
        let (t, at_k, hit) = static-IsRoundRobin (targets_of (b ∷ bs)) k (omega arith) lt in
        (prepare_lem, t, at_k, hit)
