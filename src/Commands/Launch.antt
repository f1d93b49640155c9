-- ===== src/Commands/Launch.antt =====
-- attack.go: `attack`, from its options to the attack that it starts. What the environment answers is
-- a parameter: opening, creating and reading files, the names of the resolver, certificates and keys,
-- the parsers of URLs and of JSON, and the registration of the metrics.
pub mod Keeps
pub mod Stages
pub mod Turns
mod Tests
use vegeta.Prelude.{
  ℕ, suc, Bool, true, false, not, Option, none, some, List, [], ◌∷◌, ◌++◌, length, if◌then◌else◌,
}
use vegeta.Prelude.Text.{Text, text_key, text_eq, codes, is_empty}
use vegeta.Prelude.Map.{lookup, assign}
use vegeta.Outcome.{Fallible, ok, err}
use vegeta.Results.{Header}
use vegeta.Targets.{Target, TargetError}
use vegeta.Targets.Http.{PeekingScanner, decode}
use vegeta.Targets.Json.{Reader, decode_json, used_up}
use vegeta.Targets.ReadAll.{read_all}
use vegeta.Targets.ReadAll.Ends.{lines_left}
use vegeta.Dial.Resolver.{ResolverError, new_resolver}
use vegeta.Commands.{Opened, created, open_file, is_unlimited}
use vegeta.Commands.Tls.{TlsFiles, TlsError, tls_config}

-- The fields of `attackOpts` that `attack` reads itself.
pub record Opts : Type 0 where
  pub targetsf : Text
  pub format : Text
  pub outputf : Text
  pub bodyf : Text
  pub certf : Text
  pub keyf : Text
  pub root_certs : List Text
  pub insecure : Bool
  pub lazy : Bool
  pub freq : ℕ
  pub max_workers : ℕ
  pub headers : Header
  pub resolvers : List Text
  pub prom_addr : Text

pub data AttackError : Type 0 where
  needs_max_workers : AttackError
  bad_resolvers : ResolverError → AttackError
  cannot_open : Text → Text → AttackError
  cannot_read : Text → Text → AttackError
  unknown_format : Text → AttackError
  bad_targets : TargetError → AttackError
  bad_tls : TlsError → AttackError
  cannot_register : Text → AttackError

-- The targeter that reads the source, with the default body: JSON lines, HTTP lines, or a nil source.
pub data Reading : Type 0 where
  json_lines : Reader → Text → Reading
  http_lines : PeekingScanner → Text → Reading
  nil_source : Text → Reading

-- The targeter of the attack: the one that reads, or the static one.
pub data Source : Type 0 where
  lazily : Reading → Source
  statically : List Target → Source

-- What the attack is started with.
pub record Launched : Type 0 where
  pub source : Source
  pub out : Opened
  pub tls : TlsFiles
  pub has_metrics : Bool

-- A step of `attack`: the files that it has opened so far, and the error that it returns with, a panic,
-- or a value. Rounds of `ReadAllTargets` may run out.
pub data Step (A : Type 0) : Type 0 where
  goes_on : A → Step A
  stops : AttackError → Step A
  crashes : Step A
  out_of_rounds : Step A

abbrev pub Action : Type 0 → Type 0
Action A = List Opened → List Opened × Step A

abbrev pub proceed : {A B : Type 0} → List Opened × Step A → (A → Action B) → List Opened × Step B
proceed (files, goes_on a) next = next a files
proceed (files, stops e) next = (files, stops e)
proceed (files, crashes) next = (files, crashes)
proceed (files, out_of_rounds) next = (files, out_of_rounds)

infixl 5 ◌>>>◌
abbrev pub ◌>>>◌ : {A B : Type 0} → Action A → (A → Action B) → Action B
(act >>> next) files = proceed (act files) next

-- A check that opens nothing.
abbrev pub check : {A E : Type 0} → (E → AttackError) → Fallible E A → Action A
check wrap (ok a) files = (files, goes_on a)
check wrap (err e) files = (files, stops (wrap e))

abbrev pub unless_error : {E : Type 0} → (E → AttackError) → Option E → Action (Unit {0})
unless_error wrap none files = (files, goes_on tt)
unless_error wrap (some e) files = (files, stops (wrap e))

module _ (create_error open_error : Text → Option Text) where
  -- `file`, which opens or creates.
  unfoldable pub open_as : Text → Bool → Action Opened
  unfolding open_file
  open_as name create files = elim (open_file create_error open_error name create) [
    | err e ↦ (files, stops (cannot_open name e))
    | ok f ↦ (files ++ f ∷ [], goes_on f)
  ]

  -- The loop over the files of the targets and of the body.
  unfoldable pub open_all : List Text → List (Text × Opened) → Action (List (Text × Opened))
  unfolding open_as
  open_all [] named = λ files. (files, goes_on named)
  open_all (name ∷ names) named =
      if is_empty name
      then open_all names named
      else (open_as name false >>> λ f. open_all names (assign name f named))

  module _ (read_bytes : Opened → Fallible Text Text) where
    -- The body, if there is a file for it.
    unfoldable pub read_body : Text → List (Text × Opened) → Action Text
    read_body bodyf named files = elim (lookup bodyf named) [
      | none ↦ (files, goes_on [])
      | some f ↦ check (cannot_read bodyf) (read_bytes f) files
    ]

  -- The lines behind a file, of which none are left when the body was read from it.
  module _ (reader_of : Opened → Reader) (scanner_of : Opened → PeekingScanner) where
    abbrev pub reader_behind : Bool → Opened → Reader
    reader_behind is_body f = if is_body then used_up (reader_of f) else reader_of f

    abbrev pub scanner_behind : Bool → Opened → PeekingScanner
    scanner_behind is_body f =
        let s = scanner_of f in
        if is_body then record s { src = record (s.src) { rest = [] } } else s

    -- The choice of the targeter by the format.
    unfoldable pub choose_targeter :
        Opts → List (Text × Opened) → Text → Fallible AttackError Reading
    choose_targeter opts named body =
        let src = lookup opts.targetsf named in
        let is_body = text_eq opts.bodyf opts.targetsf in
        if text_eq opts.format (codes "json")
        then ok (elim src [
          | none ↦ nil_source body
          | some f ↦ json_lines (reader_behind is_body f) body
        ])
        else if text_eq opts.format (codes "http")
        then ok (elim src [
          | none ↦ nil_source body
          | some f ↦ http_lines (scanner_behind is_body f) body
        ])
        else err (unknown_format opts.format)

module _ (is_uri : Text → Bool) (body_file : Text → Option Text)
    (parse : Text → Option Target) where
  -- The zero value of a `Target`.
  abbrev pub zero_target : Target
  zero_target = record { method = []; url = []; body = []; header = [] }

  abbrev pub static_or_error : Option (Fallible TargetError (List Target)) → Action Source
  static_or_error none files = (files, out_of_rounds)
  static_or_error (some (err e)) files = (files, stops (bad_targets e))
  static_or_error (some (ok tgts)) files = (files, goes_on (statically tgts))

  -- `ReadAllTargets` over the targeter, with as many rounds as there are lines and one more. Reading from a nil
  -- source panics.
  unfoldable pub read_eagerly : Header → Reading → Action Source
  unfolding read_all
  read_eagerly hdr (json_lines rd body) =
      static_or_error
        (read_all (decode_json parse body hdr (some zero_target)) (suc (length rd.lines)) rd)
  read_eagerly hdr (http_lines s body) =
      static_or_error (read_all (decode is_uri body_file body hdr false) (suc (lines_left s)) s)
  read_eagerly hdr (nil_source body) = λ files. (files, crashes)

  -- The block of `!opts.lazy`.
  unfoldable pub choose_source : Opts → Reading → Action Source
  unfolding read_eagerly
  choose_source opts reading =
      if opts.lazy
      then (λ files. (files, goes_on (lazily reading)))
      else read_eagerly opts.headers reading

-- What the environment answers.
pub record World : Type 0 where
  pub create_error : Text → Option Text
  pub open_error : Text → Option Text
  pub read_bytes : Opened → Fallible Text Text
  pub reader_of : Opened → Reader
  pub scanner_of : Opened → PeekingScanner
  pub is_uri : Text → Bool
  pub body_file : Text → Option Text
  pub parse : Text → Option Target
  pub split_host_port : Text → Option (Text × Text)
  pub is_ip : Text → Bool
  pub read_file : Text → Fallible Text Text
  pub key_pair_error : Text → Text → Option Text
  pub is_pem : Text → Bool
  pub register_error : Option Text

module _ (w : World) where
  -- The checks that need no file.
  unfoldable pub check_limits : Opts → Action (Unit {0})
  check_limits opts files =
      if is_unlimited opts.max_workers opts.freq
      then (files, stops needs_max_workers)
      else (files, goes_on tt)

  unfoldable pub check_resolvers : Opts → Action (Unit {0})
  check_resolvers opts files =
      if is_empty opts.resolvers
      then (files, goes_on tt)
      else elim (new_resolver w.split_host_port w.is_ip opts.resolvers) [
        | err e ↦ (files, stops (bad_resolvers e))
        | ok addrs ↦ (files, goes_on tt)
      ]

  unfoldable pub register_metrics : Opts → Action (Unit {0})
  register_metrics opts files =
      if is_empty opts.prom_addr
      then (files, goes_on tt)
      else unless_error cannot_register w.register_error files

  -- `attack` up to the output: what it is to attack with.
  unfoldable pub prepare : Opts → Action Source
  unfolding check_limits check_resolvers open_all read_body choose_targeter choose_source
  prepare opts = check_limits opts >>> λ _. check_resolvers opts >>> λ _.
      open_all w.create_error w.open_error (opts.targetsf ∷ opts.bodyf ∷ []) [] >>> λ named.
      read_body w.create_error w.open_error w.read_bytes opts.bodyf named >>> λ body.
      check (λ e. e)
        (choose_targeter w.create_error w.open_error w.reader_of w.scanner_of opts named body)
      >>> λ reading. choose_source w.is_uri w.body_file w.parse opts reading

  -- The output, and what comes behind it.
  unfoldable pub open_output : Opts → Source → Action Launched
  unfolding open_as register_metrics tls_config
  open_output opts source = open_as w.create_error w.open_error opts.outputf true >>> λ out.
      check bad_tls (
        tls_config w.read_file w.key_pair_error w.is_pem opts.insecure opts.certf opts.keyf
          opts.root_certs)
      >>> λ tls. register_metrics opts >>> λ _ files. (
        files,
        goes_on (record {
          source = source;
          out = out;
          tls = tls;
          has_metrics = not (is_empty opts.prom_addr);
        }),
      )

  -- `attack`, with the files that it opens, which are closed when it returns.
  unfoldable pub launch : Opts → List Opened × Step Launched
  unfolding prepare open_output
  launch opts = (prepare opts >>> open_output opts) []
