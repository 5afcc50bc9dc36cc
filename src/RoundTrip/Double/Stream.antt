-- ===== src/RoundTrip/Double/Stream.antt =====
-- parseDouble of pjsonlib/src/pjson_parser.cpp on a clean extraction.
use pjson.Common.{ℕ, ◌≡◌, ap, true, ◌&&◌, ◌||◌, not, Option, none, if◌then◌else◌}
use pjson.Common.Bytes.{Bytes}
use pjson.Value.{Double}
use pjson.Parser.Number.{
  Extraction, is_finite, first_nonzero, drop_sign, split_exponent, classify_range, parse_double,
}
use pjson.RoundTrip.Double.{extracted}

-- The ordinal of the first digit that is not zero, as parseDouble finds it.
abbrev pub leading : Bytes → Option ℕ
leading t = first_nonzero 0 (drop_sign ((split_exponent t).0))

pub parse_double-extracted :
    (extract : Bytes → Extraction) (t : Bytes) (d : Double)
    → extract t ≡ extracted d
    → parse_double extract t
      ≡ classify_range
          (extracted d)
          true
          (drop_sign ((split_exponent t).0))
          ((split_exponent t).1)
          (leading t)
unfolding parse_double
parse_double-extracted extract t d e =
    ap
      (λ (r : Extraction).
        if not (not (r.failed) && r.at_end) && (not (r.eof) || not (is_finite (r.value)))
        then none
        else classify_range r (not (r.failed) && r.at_end) (drop_sign ((split_exponent t).0))
            ((split_exponent t).1) (leading t))
      e
