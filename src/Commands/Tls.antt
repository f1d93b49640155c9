-- ===== src/Commands/Tls.antt =====
-- attack.go, `tlsConfig`: the TLS configuration that is made of files. Reading a file, making a key
-- pair and parsing certificates are parameters.
pub mod Loads
mod Tests
use vegeta.Prelude.{
  ◌≡◌, refl, ap, sym, ◌∙◌, ◌⊎◌, inl, inr, Bool, true, false, Option, none, some, List, [], ◌∷◌,
  if◌then◌else◌, Bool-cases, Option-cases, All, map, ◌||◌, arith,
}
use vegeta.Prelude.Text.{Text, text_key, text_eq, text_eq_iff, is_empty}
use vegeta.Prelude.Map.{lookup, assign, lookup-assign}
use vegeta.Outcome.{Fallible, ok, err, ◌>>=◌}

-- What `tlsConfig` sets of a `tls.Config`.
pub record TlsFiles : Type 0 where
  pub insecure_skip_verify : Bool
  pub certificate : Option (Text × Text)  -- the contents of the certificate and of its key
  pub root_certificates : List Text

pub data TlsError : Type 0 where
  unreadable : Text → TlsError
  bad_pair : Text → TlsError
  bad_cert : TlsError

module _ (read_file : Text → Fallible Text Text) (key_pair_error : Text → Text → Option Text)
    (is_pem : Text → Bool) where
  -- The loop that reads the files.
  unfoldable pub read_files :
      List Text → List (Text × Text) → Fallible TlsError (List (Text × Text))
  read_files [] files = ok files
  read_files (f ∷ filenames) files =
      if is_empty f then read_files filenames files else elim (read_file f) [
        | err e ↦ err (unreadable e)
        | ok contents ↦ read_files filenames (assign f contents files)
      ]

  -- `files[f]`: nothing for a file that was not read.
  unfoldable pub contents_of : Text → List (Text × Text) → Text
  contents_of f files = elim (lookup f files) [ none ↦ [] | some contents ↦ contents ]

  -- The certificate with its key, which is the certificate's own file if there is none.
  unfoldable pub load_pair :
      Text → Text → List (Text × Text) → Fallible TlsError (Option (Text × Text))
  load_pair certf keyf files = elim (lookup certf files) [
    | none ↦ ok none
    | some cert ↦
        let key : Text = elim (lookup keyf files) [ none ↦ cert | some k ↦ k ] in
        elim (key_pair_error cert key) [ none ↦ ok (some (cert, key)) | some e ↦ err (bad_pair e) ]
  ]

  -- The loop over the root certificates.
  unfoldable pub load_roots : List Text → List (Text × Text) → Fallible TlsError (List Text)
  unfolding contents_of
  load_roots [] files = ok []
  load_roots (f ∷ roots) files =
      let rest = load_roots roots files in
      if is_pem (contents_of f files)
      then (rest >>= λ cs. ok (contents_of f files ∷ cs))
      else err bad_cert

  -- `tlsConfig`.
  unfoldable pub tls_config : Bool → Text → Text → List Text → Fallible TlsError TlsFiles
  unfolding read_files load_pair load_roots
  tls_config insecure certf keyf roots = read_files (certf ∷ keyf ∷ roots) [] >>= λ files.
      load_pair certf keyf files >>= λ pair. load_roots roots files >>= λ cs.
      ok (record { insecure_skip_verify = insecure; certificate = pair; root_certificates = cs })
