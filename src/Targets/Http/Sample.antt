-- ===== src/Targets/Http/Sample.antt =====
-- A file of two targets for the tests.
use vegeta.Prelude.{
  inl, inr, refl, Bool, false, true, arith, Option, none, some, List, [], ◌∷◌, ◌++◌,
}
use vegeta.Prelude.Text.{Text, codes, trim_space, trim_left, trim_right, is_space, has_prefix}
use vegeta.Targets.Http.{PeekingScanner}
use vegeta.Targets.Http.Written.{Block, blank, body_of, IsPrintable, file_of}

abbrev pub any_uri : Text → Bool
any_uri u = true

-- Every file has its own path as contents.
abbrev pub same_file : Text → Option Text
same_file path = some path

abbrev pub get_block : Block
get_block = record {
  skipped = codes "# one" ∷ [] ∷ [];
  first = b'G';
  method_rest = codes "ET";
  uri = codes "http://a/";
  headers = (codes "A", codes "b") ∷ [];
  closing = blank;
}

abbrev pub post_block : Block
post_block = record {
  skipped = [];
  first = b'P';
  method_rest = codes "OST";
  uri = codes "http://b/";
  headers = [];
  closing = body_of (codes "body.txt");
}

abbrev pub blocks : List Block
blocks = get_block ∷ post_block ∷ []

abbrev pub scanner : PeekingScanner
scanner = record {
  src = record { rest = file_of blocks ++ []; token = []; ended = false; fails = none };
  peeked = [];
}

pub get_block-IsPrintable : IsPrintable any_uri same_file get_block
unfolding trim_space trim_left trim_right is_space has_prefix
get_block-IsPrintable = record {
  gap = (inr refl, (inl refl, tt));
  upper = (refl, (refl, (refl, tt)));
  trimmed = record { some_text = λ e. cc; no_left = refl; no_right = refl };
  uri_ok = refl;
  headers_ok = (
    record {
      word = ((refl, refl), tt);
      no_colon = (omega arith, tt);
      some_name = λ e. cc;
      no_comment = refl;
      no_body = refl;
      value = record { some_text = λ e. cc; no_left = refl; no_right = refl };
    },
    tt,
  );
  closing_ok = tt;
}

pub post_block-IsPrintable : IsPrintable any_uri same_file post_block
unfolding trim_space trim_left trim_right is_space has_prefix
post_block-IsPrintable = record {
  gap = tt;
  upper = (refl, (refl, (refl, (refl, tt))));
  trimmed = record { some_text = λ e. cc; no_left = refl; no_right = refl };
  uri_ok = refl;
  headers_ok = tt;
  closing_ok =
      (record { some_text = λ e. cc; no_left = refl; no_right = refl }, (codes "body.txt", refl));
}
