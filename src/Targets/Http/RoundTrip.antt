-- ===== src/Targets/Http/RoundTrip.antt =====
-- The targets of a written file are the ones that `NewHTTPTargeter` reads back.
use vegeta.Prelude.{
  ℕ, zero, suc, ◌<◌, ◌≡◌, refl, Bool, false, Option, List, [], ◌∷◌, ◌++◌, length, drop, arith,
  subst, All, ◌∙◌, sym, ap, length-append, append_assoc, if◌then◌else◌,
}
use vegeta.Prelude.Text.{Text, is_empty, trim_space, trim_left, trim_right, has_prefix}
use vegeta.Outcome.{Fallible, ok}
use vegeta.Results.{Header}
use vegeta.Targets.{Target, TargetError, append_values}
use vegeta.Targets.Http.{
  PeekingScanner, starts_with_http_method, header_loop, load_body, check_scanner, after_request,
  request, decode, rounds, peek,
}
use vegeta.Targets.Http.Trim.{trim_space-IsTrimmed}
use vegeta.Targets.Http.Lines.{
  At, after_line, scan-At, peek-At, rounds-At, has_failed-At, next_line-At,
}
use vegeta.Targets.Http.Written.{
  Closing, blank, body_of, Block, method_of, request_line, header_line, header_lines, closing_line,
  lines_for, IsHeader, with_headers, request_line-ReadsRequest, header_line-ReadsHeader, IsClosing,
  IsPrintable, body_at, target_of,
}

module _ (is_uri : Text → Bool) (read_file : Text → Option Text) where
  -- The scanner stands before these lines and the target is read.
  abbrev Reads : PeekingScanner × Fallible TargetError Target → Target → List Text → Type 0
  Reads got tgt ls = (s : PeekingScanner) × (got ≡ (s, ok tgt)) × At ls s

  -- The header lines up to the end of the target.
  abbrev tail_of : List (Text × Text) → Closing → List Text → List Text
  tail_of hs c rest = header_lines hs ++ closing_line c ∷ rest

  abbrev filled : Target → List (Text × Text) → Closing → Target
  filled tgt hs c = record tgt {
    body = body_at is_uri read_file tgt.body c;
    header = with_headers hs tgt.header;
  }

  trim_space-nil : trim_space [] ≡ []
  unfolding trim_space trim_left trim_right
  trim_space-nil = refl

  loop-closing :
      (fuel : ℕ) (c : Closing) (rest : List Text) (tgt : Target) (s : PeekingScanner)
      → At (closing_line c ∷ rest) s
      → IsClosing is_uri read_file c
      → Reads (header_loop is_uri read_file (suc fuel) tgt s) (filled tgt [] c) rest
  unfolding header_loop load_body has_prefix
  loop-closing fuel blank rest tgt s h ok_c =
      let got = scan-At [] rest s h in (after_line s, rw (got.0, got.1, trim_space-nil), got.2)
  loop-closing fuel (body_of path) rest tgt s h (trimmed, (b, e)) =
      let got = scan-At (b'@' ∷ path) rest s h in
      (
        after_line s,
        rw (got.0, got.1, trim_space-IsTrimmed (b'@' ∷ path) trimmed, e, load_body, body_at),
        got.2,
      )

  loop-headers :
      (hs : List (Text × Text)) (fuel : ℕ) (c : Closing) (rest : List Text) (tgt : Target)
      (s : PeekingScanner)
      → length hs < fuel
      → At (tail_of hs c rest) s
      → All IsHeader hs
      → IsClosing is_uri read_file c
      → Reads (header_loop is_uri read_file fuel tgt s) (filled tgt hs c) rest
  unfolding header_loop
  loop-headers hs zero c rest tgt s lt h _ _ = absurd (omega (arith, lt))
  loop-headers [] (suc fuel) c rest tgt s lt h _ ok_c = loop-closing fuel c rest tgt s h ok_c
  loop-headers (hd ∷ hs) (suc fuel) c rest tgt s lt h ok_hs ok_c =
      let reads = header_line-ReadsHeader hd ok_hs.0 in
      let got = scan-At (header_line hd) (tail_of hs c rest) s h in
      let next = record tgt { header = append_values hd.0 (hd.1 ∷ []) tgt.header } in
      let (s1, e, at) =
        loop-headers hs fuel c rest next (after_line s) (omega (arith, lt)) got.2 ok_hs.1 ok_c in
      (
        s1,
        rw (got.0, got.1, reads.as_is, reads.full, reads.no_comment, reads.no_body, reads.parts, e),
        at,
      )

  loop_then_check :
      (ls : List Text) (got : PeekingScanner × Fallible TargetError Target) (tgt : Target)
      → Reads got tgt ls
      → Reads (check_scanner is_uri read_file got) tgt ls
  unfolding check_scanner
  loop_then_check ls got tgt (s, e, at) = (s, rw (e, has_failed-At ls s at), at)

  length-tail :
      (hs : List (Text × Text)) (c : Closing) (rest : List Text)
      → length hs < length (tail_of hs c rest)
  length-tail [] c rest = omega arith
  length-tail (h ∷ hs) c rest = omega (arith, length-tail hs c rest)

  -- With the first line peeked at, a line that is no request line starts the header loop.
  more_lines :
      (l : Text) (hs : List (Text × Text)) (c : Closing) (rest : List Text) (tgt : Target)
      (s : PeekingScanner)
      → tail_of hs c rest ≡ l ∷ drop 1 (tail_of hs c rest)
      → is_empty l ≡ false
      → trim_space l ≡ l
      → starts_with_http_method l ≡ false
      → s.peeked ≡ []
      → At (tail_of hs c rest) s
      → All IsHeader hs
      → IsClosing is_uri read_file c
      → Reads (after_request is_uri read_file tgt s) (filled tgt hs c) rest
  unfolding after_request
  more_lines l hs c rest tgt s shape full as_is no_method clear h ok_hs ok_c =
      let ls = drop 1 (tail_of hs c rest) in
      let seen = peek-At l ls s clear (subst (λ t. At t s) shape h) in
      let before = subst (λ b. At (if b then ls else l ∷ ls) (peek s).1) full seen.1 in
      let at = subst (λ t. At t (peek s).1) (sym shape) before in
      let enough = rounds-At (tail_of hs c rest) (peek s).1 at in
      let (s1, e, done) =
        loop_then_check rest (header_loop is_uri read_file (rounds (peek s).1) tgt (peek s).1)
          (filled tgt hs c)
          (loop-headers hs (rounds (peek s).1) c rest tgt (peek s).1
            (omega (arith, enough, length-tail hs c rest)) at ok_hs ok_c) in
      (s1, rw (seen.0, as_is, full, no_method, e), done)

  after_request-Reads :
      (hs : List (Text × Text)) (c : Closing) (rest : List Text) (tgt : Target) (s : PeekingScanner)
      → s.peeked ≡ []
      → At (tail_of hs c rest) s
      → All IsHeader hs
      → IsClosing is_uri read_file c
      → Reads (after_request is_uri read_file tgt s) (filled tgt hs c) rest
  unfolding after_request starts_with_http_method trim_space trim_left trim_right
  after_request-Reads [] blank rest tgt s clear h ok_hs ok_c =
      let seen = peek-At [] rest s clear h in ((peek s).1, rw (seen.0), seen.1)
  after_request-Reads [] (body_of path) rest tgt s clear h ok_hs ok_c =
      more_lines (b'@' ∷ path) [] (body_of path) rest tgt s refl refl
        (trim_space-IsTrimmed (b'@' ∷ path) ok_c.0) refl clear h ok_hs ok_c
  after_request-Reads (hd ∷ hs) c rest tgt s clear h ok_hs ok_c =
      let reads = header_line-ReadsHeader hd ok_hs.0 in
      more_lines (header_line hd) (hd ∷ hs) c rest tgt s refl reads.full reads.as_is reads.no_method
        clear h ok_hs ok_c

  lines_shape :
      (b : Block) (rest : List Text)
      → lines_for b ++ rest ≡ b.skipped ++ request_line b ∷ tail_of b.headers b.closing rest
  lines_shape b rest =
      append_assoc b.skipped
        (request_line b ∷ (header_lines b.headers ++ closing_line b.closing ∷ [])) rest
      ∙ ap (λ t. b.skipped ++ request_line b ∷ t)
          (append_assoc (header_lines b.headers) (closing_line b.closing ∷ []) rest)

  enough_rounds :
      (skipped : List Text) (l : Text) (ls : List Text) (s : PeekingScanner)
      → At (skipped ++ l ∷ ls) s
      → length skipped < rounds s
  enough_rounds skipped l ls s at =
      let bound = rounds-At (skipped ++ l ∷ ls) s at in
      omega (arith, bound, length-append skipped (l ∷ ls))

  -- The lines of a target that `IsPrintable` allows, with comments and empty lines before it, are read
  -- as that target: its method, its URL, the default headers with its own lines appended, and the body
  -- its last line names, or the default body. The scanner then stands before the lines that follow.
  pub decode-written :
      (body : Text) (hdr : Header) (b : Block) (rest : List Text) (s : PeekingScanner)
      → At (lines_for b ++ rest) s
      → IsPrintable is_uri read_file b
      → (s1 : PeekingScanner) × (decode is_uri read_file body hdr false s
          ≡ (s1, ok (target_of is_uri read_file body hdr b)))
        × At rest s1
  unfolding decode request
  decode-written body hdr b rest s h p =
      let line = request_line b in
      let ls = tail_of b.headers b.closing rest in
      let reads = request_line-ReadsRequest b p.upper p.trimmed in
      let shape = lines_shape b rest in
      let at = subst (λ t. At t s) shape h in
      let (s1, e, at1, clear) =
        next_line-At b.skipped (rounds s) line ls s (enough_rounds b.skipped line ls s at) at p.gap
          (rw (reads.as_is)) (rw (reads.as_is, reads.no_comment)) in
      let (s2, e2, at2) =
        after_request-Reads b.headers b.closing rest
          (record { method = method_of b; url = b.uri; body = body; header = hdr }) s1 clear at1
          p.headers_ok p.closing_ok in
      (s2, rw (e, reads.as_is, reads.parts, reads.with_method, p.uri_ok, e2), at2)
