-- ===== src/Policy/Glob.antt =====
-- `matches_glob` of crates/qw-policy/src/engine.rs.
pub mod Meaning
use quanta_watch.Prelude.{
  Text, text_eq, starts_with, ends_with, has_byte, split_on, Bool, true, ◌&&◌, List, [], ◌∷◌,
  if◌then◌else◌,
}

-- The two parts round the one star of a pattern with one star, or the plain comparison.
unfoldable pub match_parts : Text → Text → Text → List Text → Bool
unfolding text_eq starts_with ends_with
match_parts pattern' value prefix (suffix ∷ []) = starts_with value prefix && ends_with value suffix
match_parts pattern' value prefix _ = text_eq pattern' value

unfoldable pub matches_glob : Text → Text → Bool
unfolding text_eq match_parts has_byte split_on
matches_glob pattern' value =
    if text_eq pattern' (b'*' ∷ [])
    then true
    else if has_byte pattern' b'*'
    then (let (prefix, rest) = split_on b'*' pattern' in match_parts pattern' value prefix rest)
    else text_eq pattern' value
