-- ===== src/Targets/Http/Written.antt =====
-- The file format that `NewHTTPTargeter` documents, written line by line.
use vegeta.Prelude.{
  ℕ, ◌≡◌, ◌≢◌, refl, Bool, true, false, Option, none, some, List, [], ◌∷◌, ◌++◌, arith, All,
}
use vegeta.Prelude.Text.{Text, is_empty, trim_space, trim_left, trim_right, has_prefix, split2}
use vegeta.Results.{Header}
use vegeta.Targets.{Target, append_values}
use vegeta.Targets.Http.{is_upper, starts_with_http_method, header_parts}
use vegeta.Targets.Http.Trim.{
  IsTrimmed, trim_space-IsTrimmed, trim_space-blank, append-IsTrimmed, split2-append, IsWord,
  not_method, is_method, trim_right-append, upper_no_space,
}
use vegeta.Targets.Http.Lines.{IsSkipped}

-- How a target ends in the file: with an empty line, or with a line that names the file of its body.
pub data Closing : Type 0 where
  blank : Closing
  body_of : Text → Closing

-- A target of the file, with the lines that may stand before it.
pub record Block : Type 0 where
  pub skipped : List Text
  pub first : ℕ
  pub method_rest : Text
  pub uri : Text
  pub headers : List (Text × Text)
  pub closing : Closing

abbrev pub method_of : Block → Text
method_of b = b.first ∷ b.method_rest

abbrev pub request_line : Block → Text
request_line b = method_of b ++ b' ' ∷ b.uri

abbrev pub header_line : Text × Text → Text
header_line (k, v) = k ++ b':' ∷ b' ' ∷ v

abbrev pub header_lines : List (Text × Text) → List Text
header_lines [] = []
header_lines (h ∷ hs) = header_line h ∷ header_lines hs

abbrev pub closing_line : Closing → Text
closing_line blank = []
closing_line (body_of path) = b'@' ∷ path

abbrev pub lines_for : Block → List Text
lines_for b = b.skipped ++ request_line b ∷ (header_lines b.headers ++ closing_line b.closing ∷ [])

abbrev pub file_of : List Block → List Text
file_of [] = []
file_of (b ∷ bs) = lines_for b ++ file_of bs

-- A header's name is a word without a colon that starts with neither mark; its value is trimmed.
pub record IsHeader (h : Text × Text) : Type 0 where
  pub word : IsWord h.0
  pub no_colon : All (λ c. c ≢ b':') h.0
  pub some_name : h.0 ≢ []
  pub no_comment : has_prefix (b'#' ∷ []) h.0 ≡ false
  pub no_body : has_prefix (b'@' ∷ []) h.0 ≡ false
  pub value : IsTrimmed h.1

-- The header after these lines.
abbrev pub with_headers : List (Text × Text) → Header → Header
with_headers [] h = h
with_headers ((k, v) ∷ hs) h = with_headers hs (append_values k (v ∷ []) h)

-- What the targeter needs to know of a request line.
pub record ReadsRequest (b : Block) : Type 0 where
  pub as_is : trim_space (request_line b) ≡ request_line b
  pub no_comment : has_prefix (b'#' ∷ []) (request_line b) ≡ false
  pub with_method : starts_with_http_method (request_line b) ≡ true
  pub parts : split2 b' ' (request_line b) ≡ method_of b ∷ b.uri ∷ []

upper_no_blank : (w : Text) → All (λ c. is_upper c ≡ true) w → All (λ c. c ≢ b' ') w
upper_no_blank [] h = tt
upper_no_blank (c ∷ w) h = ((upper_no_space c h.0).1, upper_no_blank w h.1)

pub request_line-ReadsRequest :
    (b : Block) → All (λ c. is_upper c ≡ true) (method_of b) → IsTrimmed b.uri → ReadsRequest b
unfolding starts_with_http_method has_prefix
request_line-ReadsRequest b upper trimmed =
    let ends = trim_right-append (b' ' ∷ []) b.uri trimmed.some_text trimmed.no_right in
    let up = upper_no_space b.first upper.0 in
    record {
      as_is =
          trim_space-IsTrimmed (request_line b)
            (append-IsTrimmed b.first b.method_rest (b' ' ∷ b.uri) up.0 (λ e. cc) ends);
      no_comment = ground (arith, up);
      with_method = ground (arith, upper, is_method b.method_rest b.uri upper.1);
      parts = split2-append b' ' (method_of b) b.uri (upper_no_blank (method_of b) upper);
    }

-- What the targeter needs to know of a header line.
pub record ReadsHeader (h : Text × Text) : Type 0 where
  pub full : is_empty (header_line h) ≡ false
  pub as_is : trim_space (header_line h) ≡ header_line h
  pub no_comment : has_prefix (b'#' ∷ []) (header_line h) ≡ false
  pub no_body : has_prefix (b'@' ∷ []) (header_line h) ≡ false
  pub no_method : starts_with_http_method (header_line h) ≡ false
  pub parts : header_parts (split2 b':' (header_line h)) ≡ some h

is_empty-ne : (s : Text) → s ≢ [] → is_empty s ≡ false
is_empty-ne [] h = absurd (h refl)
is_empty-ne (c ∷ s) h = refl

trim_right-word : (w : Text) → IsWord w → trim_right w ≡ w
unfolding trim_right
trim_right-word [] h = refl
trim_right-word (c ∷ w) h = ground (arith, trim_right-word w h.1)

word-IsTrimmed : (w : Text) → IsWord w → w ≢ [] → IsTrimmed w
unfolding trim_left
word-IsTrimmed [] h ne = absurd (ne refl)
word-IsTrimmed (c ∷ w) h ne = record {
  some_text = ne;
  no_left = rw (h.0.0);
  no_right = trim_right-word (c ∷ w) h;
}

pub header_line-ReadsHeader : (h : Text × Text) → IsHeader h → ReadsHeader h
unfolding starts_with_http_method has_prefix header_parts
header_line-ReadsHeader ([], v) p = absurd (p.some_name refl)
header_line-ReadsHeader (c ∷ k, v) p =
    let ends = trim_right-append (b':' ∷ b' ' ∷ []) v p.value.some_text p.value.no_right in
    record {
      full = refl;
      as_is =
          trim_space-IsTrimmed (header_line (c ∷ k, v))
            (append-IsTrimmed c k (b':' ∷ b' ' ∷ v) p.word.0.0 (λ e. cc) ends);
      no_comment = p.no_comment;
      no_body = p.no_body;
      no_method = ground (arith, not_method k (b' ' ∷ v) p.word.1);
      parts = rw (
        split2-append b':' (c ∷ k) (b' ' ∷ v) p.no_colon,
        trim_space-IsTrimmed (c ∷ k) (word-IsTrimmed (c ∷ k) p.word p.some_name),
        trim_space-blank v p.value,
        is_empty-ne v p.value.some_text,
      );
    }

module _ (is_uri : Text → Bool) (read_file : Text → Option Text) where
  abbrev pub IsClosing : Closing → Type 0
  IsClosing blank = Unit
  IsClosing (body_of path) = IsTrimmed (b'@' ∷ path) × ((b : Text) × (read_file path ≡ some b))

  pub record IsPrintable (b : Block) : Type 0 where
    pub gap : All IsSkipped b.skipped
    pub upper : All (λ c. is_upper c ≡ true) (method_of b)
    pub trimmed : IsTrimmed b.uri
    pub uri_ok : is_uri b.uri ≡ true
    pub headers_ok : All IsHeader b.headers
    pub closing_ok : IsClosing b.closing

  -- The body that the closing line gives.
  abbrev pub body_at : Text → Closing → Text
  body_at default blank = default
  body_at default (body_of path) = elim (read_file path) [ none ↦ default | some b ↦ b ]

  abbrev pub target_of : Text → Header → Block → Target
  target_of body hdr b = record {
    method = method_of b;
    url = b.uri;
    body = body_at body b.closing;
    header = with_headers b.headers hdr;
  }
