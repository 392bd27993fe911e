-- ===== src/Attributes/Patterns.antt =====
-- The patterns of required attributes: `validate_required_attr_pattern` of
-- contracts/pool_v2/src/utils/validation.rs. A character is its code point.
use democratized_prime_smart.Prelude.{
  Bool, List, Option, Result, [], ensure, false, if◌then◌else◌, illegal_argument, leb, none, not,
  ok, or_err, some, true, ℕ, ◌&&◌, ◌==◌, ◌>>=◌, ◌>>◌, ◌||◌, ◌∷◌,
}
use democratized_prime_smart.PriceFeed.{mem}

-- `char::is_whitespace`: the characters with the property `White_Space`
abbrev is_whitespace : ℕ → Bool
is_whitespace ch =
    (leb 9 ch && leb ch 13)
    || ch == 32
    || ch == 133
    || ch == 160
    || ch == 5_760
    || (leb 8_192 ch && leb ch 8_202)
    || ch == 8_232
    || ch == 8_233
    || ch == 8_239
    || ch == 8_287
    || ch == 12_288

any_whitespace : List ℕ → Bool
any_whitespace [] = false
any_whitespace (ch ∷ name) = is_whitespace ch || any_whitespace name

-- `trim().is_empty()`
all_whitespace : List ℕ → Bool
all_whitespace [] = true
all_whitespace (ch ∷ name) = is_whitespace ch && all_whitespace name

-- `strip_prefix("*.")`
strip_wildcard : List ℕ → Option (List ℕ)
strip_wildcard (star ∷ dot ∷ suffix) = if star == b'*' && dot == b'.' then some suffix else none
strip_wildcard _ = none

-- an empty segment between dots, or at an end; `fresh` where a segment has no character yet
empty_segment : Bool → List ℕ → Bool
empty_segment fresh [] = fresh
empty_segment fresh (ch ∷ name) =
    let rest = empty_segment (ch == b'.') name in if ch == b'.' then fresh || rest else rest

abbrev is_empty_name : List ℕ → Bool
is_empty_name [] = true
is_empty_name (_ ∷ _) = false

unfoldable pub validate_required_attr_pattern : List ℕ → Result (Unit {0})
unfolding any_whitespace all_whitespace strip_wildcard empty_segment
validate_required_attr_pattern name = do
  ensure (not (all_whitespace name)) illegal_argument
  ensure (not (any_whitespace name)) illegal_argument
  if mem b'*' name
      then (do
        suffix ← or_err (strip_wildcard name) illegal_argument
        ensure (not (is_empty_name suffix)) illegal_argument
        ensure (not (mem b'*' suffix)) illegal_argument
        ensure (not (empty_segment true suffix)) illegal_argument)
      else ok tt

unfoldable pub validate_required_attr_patterns : List (List ℕ) → Result (Unit {0})
validate_required_attr_patterns [] = ok tt
validate_required_attr_patterns (attr ∷ attrs) = do
  validate_required_attr_pattern attr
  validate_required_attr_patterns attrs
