-- ===== src/Commands/Tls/Loads.antt =====
-- attack.go, `tlsConfig`: what it makes of files that are good.
use vegeta.Prelude.{
  ◌≡◌, refl, ap, sym, ◌∙◌, inl, inr, Bool, true, false, Option, none, some, List, [], ◌∷◌,
  if◌then◌else◌, Bool-cases, All, map, ◌||◌,
}
use vegeta.Prelude.Text.{Text, text_key, text_eq, text_eq_iff, is_empty}
use vegeta.Prelude.Map.{lookup, assign, lookup-assign}
use vegeta.Outcome.{Fallible, ok, err, ◌>>=◌}
use vegeta.Commands.Tls.{
  TlsError, bad_pair, bad_cert, read_files, contents_of, load_pair, load_roots, tls_config,
}

either : {A : Type 0} (b : Bool) (x : A) → (if b then x else x) ≡ x
either true x = refl
either false x = refl

differs_empty : (g f : Text) → is_empty g ≡ true → is_empty f ≡ false → text_eq g f ≡ false
unfolding text_eq
differs_empty [] [] e h = absurd (cc)
differs_empty [] (c ∷ f) e h = refl
differs_empty (c ∷ g) f e h = absurd (cc e)

differs_filled : (g f : Text) → is_empty g ≡ false → is_empty f ≡ true → text_eq g f ≡ false
unfolding text_eq
differs_filled [] f e h = absurd (cc)
differs_filled (c ∷ g) [] e h = refl
differs_filled (c ∷ g) (d ∷ f) e h = absurd (cc)

-- A file that is read is held, read again or not.
kept :
    (contents : Text → Text) (g f : Text) (later : Bool) (before : List (Text × Text))
    → (if later then some (contents f) else lookup f (assign g (contents g) before))
      ≡ (if text_eq g f || later then some (contents f) else lookup f before)
kept contents g f later before =
    rw (lookup-assign g f (contents g) before) (elim (Bool-cases (text_eq g f)) [
      | inl e ↦ rw (e, (text_eq_iff g f).0 e) (either later (some (contents f)))
      | inr e ↦ rw e refl
    ])

module _ (read_file : Text → Fallible Text Text) (key_pair_error : Text → Text → Option Text)
    (is_pem : Text → Bool) where
  -- Whether a name is one of a list.
  abbrev mentions : Text → List Text → Bool
  mentions f [] = false
  mentions f (g ∷ gs) = text_eq g f || mentions f gs

  -- What is held under a name when the files of `names` have been read: their contents, but nothing
  -- for the empty name.
  abbrev held : (Text → Text) → List Text → List (Text × Text) → Text → Option Text
  held contents names before f =
      if is_empty f
      then lookup f before
      else if mentions f names
      then some (contents f)
      else lookup f before

  held-skip :
      (contents : Text → Text) (g f : Text) (names : List Text) (before : List (Text × Text))
      → is_empty g ≡ true
      → held contents names before f ≡ held contents (g ∷ names) before f
  held-skip contents g f names before e = elim (Bool-cases (is_empty f)) [
    | inl h ↦ rw h refl
    | inr h ↦ rw (h, differs_empty g f e h) refl
  ]

  held-assign :
      (contents : Text → Text) (g f : Text) (names : List Text) (before : List (Text × Text))
      → is_empty g ≡ false
      → held contents names (assign g (contents g) before) f ≡ held contents (g ∷ names) before f
  held-assign contents g f names before e = elim (Bool-cases (is_empty f)) [
    | inl h ↦ rw (h, lookup-assign g f (contents g) before, differs_filled g f e h) refl
    | inr h ↦ rw h (kept contents g f (mentions f names) before)
  ]

  -- A file that can be read, or no name.
  abbrev pub IsReadable : (Text → Text) → Text → Type 0
  IsReadable contents f = is_empty f ≡ false → read_file f ≡ ok (contents f)

  lookup-read_files :
      (contents : Text → Text)
      → (names : List Text) (before : List (Text × Text)) → All (IsReadable contents) names
      → (files : List (Text × Text)) × (read_files read_file key_pair_error is_pem names before
          ≡ ok files)
        × ((f : Text) → lookup f files ≡ held contents names before f)
  unfolding read_files
  lookup-read_files contents [] before readable =
      (before, refl, λ f. sym (either (is_empty f) (lookup f before)))
  lookup-read_files contents (g ∷ names) before readable = elim (Bool-cases (is_empty g)) [
    | inl e ↦
        let (files, done, at) = lookup-read_files contents names before readable.1 in
        (files, rw (read_files, e) done, λ f. at f ∙ held-skip contents g f names before e)
    | inr e ↦
        let (files, done, at) =
          lookup-read_files contents names (assign g (contents g) before) readable.1 in
        (
          files,
          rw (read_files, e, readable.0 e) done,
          λ f. at f ∙ held-assign contents g f names before e,
        )
  ]

  -- The certificates that are to be: a pair if there is a certificate.
  abbrev pub pair_of : (Text → Text) → Text → Text → Option (Text × Text)
  pair_of contents certf keyf =
      if is_empty certf
      then none
      else some (contents certf, if is_empty keyf then contents certf else contents keyf)

  -- A root certificate that can be used.
  abbrev pub IsRoot : (Text → Text) → Text → Type 0
  IsRoot contents f = (is_empty f ≡ false) × (is_pem (contents f) ≡ true)

  abbrev key_in : Text → Text → List (Text × Text) → Text
  key_in cert keyf files = elim (lookup keyf files) [ none ↦ cert | some k ↦ k ]

  abbrev pairing : Text → Text → Fallible TlsError (Option (Text × Text))
  pairing cert key = elim (key_pair_error cert key) [
    | none ↦ ok (some (cert, key))
    | some e ↦ err (bad_pair e)
  ]

  mentioned_first : (f : Text) (names : List Text) → mentions f (f ∷ names) ≡ true
  mentioned_first f names = rw ((text_eq_iff f f).1 refl) refl

  mentioned_later :
      (f g : Text) (names : List Text) → mentions f names ≡ true → mentions f (g ∷ names) ≡ true
  mentioned_later f g names e = elim (Bool-cases (text_eq g f)) [
    | inl h ↦ rw h refl
    | inr h ↦ rw (h, e) refl
  ]

  held_named :
      (contents : Text → Text) (f : Text) (names : List Text)
      → is_empty f ≡ false
      → mentions f names ≡ true
      → held contents names [] f ≡ some (contents f)
  held_named contents f names e h = rw (e, h) refl

  key_held :
      (contents : Text → Text) (certf keyf : Text) (roots : List Text) (files : List (Text × Text))
      → ((f : Text) → lookup f files ≡ held contents (certf ∷ keyf ∷ roots) [] f)
      → key_in (contents certf) keyf files
        ≡ (if is_empty keyf then contents certf else contents keyf)
  unfolding lookup
  key_held contents certf keyf roots files at = elim (Bool-cases (is_empty keyf)) [
    | inl e ↦
        let nothing : lookup keyf files ≡ none = at keyf ∙ rw e refl in
        ap (λ o. elim o [ none ↦ contents certf | some k ↦ k ]) nothing ∙ rw e refl
    | inr e ↦
        let names = certf ∷ keyf ∷ roots in
        let there = mentioned_later keyf certf (keyf ∷ roots) (mentioned_first keyf roots) in
        ap (λ o. elim o [ none ↦ contents certf | some k ↦ k ])
          (at keyf ∙ held_named contents keyf names e there)
        ∙ rw e refl
  ]

  load_pair-held :
      (contents : Text → Text) (certf keyf : Text) (roots : List Text) (files : List (Text × Text))
      → ((f : Text) → lookup f files ≡ held contents (certf ∷ keyf ∷ roots) [] f)
      → (is_empty certf ≡ false
          → key_pair_error
              (contents certf)
              (if is_empty keyf then contents certf else contents keyf)
            ≡ none)
      → load_pair read_file key_pair_error is_pem certf keyf files
        ≡ ok (pair_of contents certf keyf)
  unfolding load_pair lookup
  load_pair-held contents certf keyf roots files at fits = elim (Bool-cases (is_empty certf)) [
    | inl e ↦ rw (load_pair, at certf, e) refl
    | inr e ↦
        let held_cert =
          at certf
          ∙ held_named contents certf (certf ∷ keyf ∷ roots) e
              (mentioned_first certf (keyf ∷ roots)) in
        ap (λ o. elim o [ none ↦ ok none | some cert ↦ pairing cert (key_in cert keyf files) ])
          held_cert
        ∙ ap (pairing (contents certf)) (key_held contents certf keyf roots files at)
        ∙ ap
            (λ o. elim o [
              | none ↦
                  ok
                    (some (contents certf, if is_empty keyf then contents certf else contents keyf))
              | some x ↦ err (bad_pair x)
            ])
            (fits e)
        ∙ rw e refl
  ]

  load_roots-held :
      (contents : Text → Text) (names roots : List Text) (files : List (Text × Text))
      → ((f : Text) → lookup f files ≡ held contents names [] f)
      → ((f : Text) → mentions f roots ≡ true → mentions f names ≡ true)
      → All (IsRoot contents) roots
      → load_roots read_file key_pair_error is_pem roots files ≡ ok (map contents roots)
  unfolding load_roots contents_of
  load_roots-held contents names [] files at among all = refl
  load_roots-held contents names (f ∷ roots) files at among ((named, pem), all) =
      let held_f = at f ∙ held_named contents f names named (among f (mentioned_first f roots)) in
      let same : contents_of read_file key_pair_error is_pem f files ≡ contents f =
        ap (λ o. elim o [ none ↦ [] | some c ↦ c ]) held_f in
      let rest =
        load_roots-held contents names roots files at (λ g h. among g (mentioned_later g f roots h))
          all in
      ap
        (λ c.
          if is_pem c
          then (load_roots read_file key_pair_error is_pem roots files >>= λ cs. ok (c ∷ cs))
          else err bad_cert)
        same
      ∙ rw (pem, rest) refl

  -- If the certificate, the key and the root certificates can be read, as far as they are named, the
  -- certificate fits its key, or itself where no key is named, and every root certificate is named and
  -- can be parsed, `tlsConfig` gives the configuration with all of them.
  pub tls_config-loads :
      (contents : Text → Text) (insecure : Bool) (certf keyf : Text) (roots : List Text)
      → All (IsReadable contents) (certf ∷ keyf ∷ roots)
      → (is_empty certf ≡ false
          → key_pair_error
              (contents certf)
              (if is_empty keyf then contents certf else contents keyf)
            ≡ none)
      → All (IsRoot contents) roots
      → tls_config read_file key_pair_error is_pem insecure certf keyf roots
        ≡ ok (record {
          insecure_skip_verify = insecure;
          certificate = pair_of contents certf keyf;
          root_certificates = map contents roots;
        })
  unfolding tls_config
  tls_config-loads contents insecure certf keyf roots readable fits all =
      let names = certf ∷ keyf ∷ roots in
      let (files, read, at) = lookup-read_files contents names [] readable in
      let among : (f : Text) → mentions f roots ≡ true → mentions f names ≡ true =
        λ f h. mentioned_later f certf (keyf ∷ roots) (mentioned_later f keyf roots h) in
      rw
        (
          tls_config,
          read,
          load_pair-held contents certf keyf roots files at fits,
          load_roots-held contents names roots files at among all,
        )
        refl
