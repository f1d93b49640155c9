-- ===== src/Commands/Launch/Keeps.antt =====
-- attack.go, `attack`: what all its steps keep: they end, and the open files satisfy a predicate.
use vegeta.Prelude.{
  suc, length, ◌≡◌, inl, inr, Bool, true, false, Option, none, some, List, [], ◌∷◌, Bool-cases,
  Option-cases, arith, All, All-append,
}
use vegeta.Prelude.Text.{Text, text_key, is_empty}
use vegeta.Prelude.Map.{lookup, assign}
use vegeta.Outcome.{Fallible, ok, err, Fallible-cases}
use vegeta.Targets.{Target, TargetError}
use vegeta.Results.{Header}
use vegeta.Targets.Http.{PeekingScanner, decode}
use vegeta.Targets.Json.{Reader, decode_json}
use vegeta.Targets.ReadAll.{read_all}
use vegeta.Targets.ReadAll.Ends.{read_all-ends, lines_left}
use vegeta.Dial.Resolver.{new_resolver}
use vegeta.Commands.{Opened, open_file}
use vegeta.Commands.Tls.{tls_config}
use vegeta.Commands.Launch.{
  Opts, AttackError, Reading, json_lines, http_lines, nil_source, Source, Step, goes_on, stops,
  crashes, out_of_rounds, Action, proceed, ◌>>>◌, check, cannot_read, unless_error, cannot_register,
  bad_tls, open_as, open_all, read_body, choose_targeter, read_eagerly, static_or_error,
  choose_source, World, check_limits, check_resolvers, register_metrics, prepare, open_output,
  zero_target,
}

-- A step that is not out of rounds.
abbrev pub HasEnded : {A : Type 0} → Step A → Type 0
HasEnded (goes_on a) = Unit
HasEnded (stops e) = Unit
HasEnded crashes = Unit
HasEnded out_of_rounds = ⊥

abbrev no_lines : PeekingScanner
no_lines = record {
  src = record { rest = []; token = []; ended = true; fails = none };
  peeked = [];
}

abbrev no_reader : Reader
no_reader = record { lines = []; tail = []; broken = false }

-- The action ends, and where the files that are open before it satisfy a predicate, those behind do.
abbrev pub Keeps : {A : Type 0} → (Opened → Type 0) → Action A → Type 0
Keeps P act = (files : List Opened) → All P files → HasEnded (act files).1 × All P (act files).0

module _ (P : Opened → Type 0) where
  proceed-Keeps :
      {A B : Type 0} (got : List Opened × Step A) (next : A → Action B)
      → HasEnded got.1 × All P got.0
      → ((a : A) → Keeps P (next a))
      → HasEnded (proceed got next).1 × All P (proceed got next).0
  proceed-Keeps (files, goes_on a) next h later = later a files h.1
  proceed-Keeps (files, stops e) next h later = h
  proceed-Keeps (files, crashes) next h later = h
  proceed-Keeps (files, out_of_rounds) next h later = h

  pub then-Keeps :
      {A B : Type 0} (act : Action A) (next : A → Action B)
      → Keeps P act
      → ((a : A) → Keeps P (next a))
      → Keeps P (act >>> next)
  then-Keeps act next first later files h = proceed-Keeps (act files) next (first files h) later

  check-Keeps : {A E : Type 0} (wrap : E → AttackError) (x : Fallible E A) → Keeps P (check wrap x)
  check-Keeps wrap (ok a) files h = (tt, h)
  check-Keeps wrap (err e) files h = (tt, h)

  unless_error-Keeps :
      {E : Type 0} (wrap : E → AttackError) (x : Option E) → Keeps P (unless_error wrap x)
  unless_error-Keeps wrap none files h = (tt, h)
  unless_error-Keeps wrap (some e) files h = (tt, h)

  module _ (create_error open_error : Text → Option Text) where
    -- What `file` opens satisfies the predicate.
    abbrev pub Opens : Bool → Type 0
    Opens create =
        (name : Text) (f : Opened) → open_file create_error open_error name create ≡ ok f → P f

    open_as-Keeps :
        (name : Text) (create : Bool)
        → Opens create
        → Keeps P (open_as create_error open_error name create)
    unfolding open_as
    open_as-Keeps name create opens files h =
        elim (Fallible-cases (open_file create_error open_error name create)) [
          | inl (f, e) ↦ rw (open_as, e) (tt, All-append P files (f ∷ []) h (opens name f e, tt))
          | inr (e, f) ↦ rw (open_as, f) (tt, h)
        ]

    open_all-Keeps :
        (names : List Text) (named : List (Text × Opened))
        → Opens false
        → Keeps P (open_all create_error open_error names named)
    unfolding open_all
    open_all-Keeps [] named opens files h = (tt, h)
    open_all-Keeps (name ∷ names) named opens files h = elim (Bool-cases (is_empty name)) [
      | inl e ↦ rw (open_all, e) (open_all-Keeps names named opens files h)
      | inr e ↦
          rw (open_all, e)
            (then-Keeps (open_as create_error open_error name false)
              (λ f. open_all create_error open_error names (assign name f named))
              (open_as-Keeps name false opens)
              (λ f. open_all-Keeps names (assign name f named) opens) files h)
    ]

    read_body-Keeps :
        (read_bytes : Opened → Fallible Text Text) (bodyf : Text) (named : List (Text × Opened))
        → Keeps P (read_body create_error open_error read_bytes bodyf named)
    unfolding read_body
    read_body-Keeps read_bytes bodyf named files h = elim (Option-cases (lookup bodyf named)) [
      | inl e ↦ rw (read_body, e) (tt, h)
      | inr (f, e) ↦ rw (read_body, e) (check-Keeps (cannot_read bodyf) (read_bytes f) files h)
    ]

  module _ (is_uri : Text → Bool) (body_file : Text → Option Text)
      (parse : Text → Option Target) where
    static-Keeps :
        (x : Option (Fallible TargetError (List Target)))
        → (got : Fallible TargetError (List Target)) × (x ≡ some got)
        → Keeps P (static_or_error is_uri body_file parse x)
    static-Keeps none (got, e) files h = absurd cc
    static-Keeps (some (err e)) some_got files h = (tt, h)
    static-Keeps (some (ok tgts)) some_got files h = (tt, h)

    read_eagerly-Keeps :
        (hdr : Header) (reading : Reading)
        → Keeps P (read_eagerly is_uri body_file parse hdr reading)
    unfolding read_eagerly
    read_eagerly-Keeps hdr (nil_source body) = λ files h. (tt, h)
    read_eagerly-Keeps hdr (json_lines rd body) =
        static-Keeps
          (read_all (decode_json parse body hdr (some (zero_target is_uri body_file parse)))
            (suc (length rd.lines)) rd)
          (let (got, e, _) =
              (read_all-ends is_uri body_file parse body hdr (zero_target is_uri body_file parse)
                no_lines rd).1 in
            (got, e))
    read_eagerly-Keeps hdr (http_lines s body) =
        static-Keeps (read_all (decode is_uri body_file body hdr false) (suc (lines_left s)) s) (
          let (got, e, _) =
            (read_all-ends is_uri body_file parse body hdr (zero_target is_uri body_file parse) s
              no_reader).0 in
          (got, e))

    choose_source-Keeps :
        (opts : Opts) (reading : Reading)
        → Keeps P (choose_source is_uri body_file parse opts reading)
    unfolding choose_source
    choose_source-Keeps opts reading files h = elim (Bool-cases opts.lazy) [
      | inl e ↦ rw (choose_source, e) (tt, h)
      | inr e ↦ rw (choose_source, e) (read_eagerly-Keeps opts.headers reading files h)
    ]

  module _ (w : World) where
    check_limits-Keeps : (opts : Opts) → Keeps P (check_limits w opts)
    unfolding check_limits
    check_limits-Keeps opts files h = ground (arith, h)

    check_resolvers-Keeps : (opts : Opts) → Keeps P (check_resolvers w opts)
    unfolding check_resolvers
    check_resolvers-Keeps opts files h = elim (Bool-cases (is_empty opts.resolvers)) [
      | inl e ↦ rw (check_resolvers, e) (tt, h)
      | inr e ↦ elim (Fallible-cases (new_resolver w.split_host_port w.is_ip opts.resolvers)) [
        | inl (addrs, f) ↦ rw (check_resolvers, e, f) (tt, h)
        | inr (x, f) ↦ rw (check_resolvers, e, f) (tt, h)
      ]
    ]

    register_metrics-Keeps : (opts : Opts) → Keeps P (register_metrics w opts)
    unfolding register_metrics
    register_metrics-Keeps opts files h = elim (Bool-cases (is_empty opts.prom_addr)) [
      | inl e ↦ rw (register_metrics, e) (tt, h)
      | inr e ↦
          rw (register_metrics, e) (unless_error-Keeps cannot_register w.register_error files h)
    ]

    pub prepare-Keeps :
        (opts : Opts) → Opens w.create_error w.open_error false → Keeps P (prepare w opts)
    unfolding prepare
    prepare-Keeps opts opens = then-Keeps (check_limits w opts) _ (check_limits-Keeps opts) λ _.
        then-Keeps (check_resolvers w opts) _ (check_resolvers-Keeps opts) λ _.
          then-Keeps (open_all w.create_error w.open_error (opts.targetsf ∷ opts.bodyf ∷ []) []) _
            (open_all-Keeps w.create_error w.open_error (opts.targetsf ∷ opts.bodyf ∷ []) [] opens)
            λ named.
              then-Keeps (read_body w.create_error w.open_error w.read_bytes opts.bodyf named) _
                (read_body-Keeps w.create_error w.open_error w.read_bytes opts.bodyf named)
                λ body.
                  then-Keeps
                    (check (λ e. e)
                      (choose_targeter w.create_error w.open_error w.reader_of w.scanner_of opts
                        named body))
                    _
                    (check-Keeps (λ e. e)
                      (choose_targeter w.create_error w.open_error w.reader_of w.scanner_of opts
                        named body))
                    λ reading. choose_source-Keeps w.is_uri w.body_file w.parse opts reading

    pub open_output-Keeps :
        (opts : Opts) (source : Source)
        → Opens w.create_error w.open_error true
        → Keeps P (open_output w opts source)
    unfolding open_output
    open_output-Keeps opts source opens =
        then-Keeps (open_as w.create_error w.open_error opts.outputf true) _
          (open_as-Keeps w.create_error w.open_error opts.outputf true opens)
          λ out.
            then-Keeps
              (check bad_tls (
                tls_config w.read_file w.key_pair_error w.is_pem opts.insecure opts.certf opts.keyf
                  opts.root_certs))
              _
              (check-Keeps bad_tls (
                tls_config w.read_file w.key_pair_error w.is_pem opts.insecure opts.certf opts.keyf
                  opts.root_certs))
              λ tls.
                then-Keeps (register_metrics w opts) _ (register_metrics-Keeps opts)
                  λ _ files h. (tt, h)
