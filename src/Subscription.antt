-- ===== src/Subscription.antt =====
-- crates/gateway/src/subscription.rs: subjects, patterns with the wildcards `*` and `>`, and
-- matching.
pub mod Matching
pub mod Subjects
use Prim.Native.String.{◌++◌}
use wup_demo.Prelude.{
  String, str_eq, Bool, true, false, ◌&&◌, Option, none, some, List, [], ◌∷◌, if◌then◌else◌,
}
use wup_demo.Text.{split}

abbrev pub star : String
star = "*"

abbrev pub greater : String
greater = ">"

-- The loop over both lists of segments: the indices `pi` and `si` advance together.
unfoldable pub matches_parts : List String → List String → Bool
matches_parts [] [] = true
matches_parts [] (s ∷ ss) = false
matches_parts (p ∷ ps) [] = false
matches_parts (p ∷ ps) (s ∷ ss) =
    let rest = matches_parts ps ss in
    if str_eq p greater
    then true
    else if str_eq p star
    then rest
    else if str_eq p s
    then rest
    else false

unfoldable pub matches_subject : String → List String → Bool
unfolding matches_parts
matches_subject pattern subject_parts = matches_parts (split pattern) subject_parts

unfoldable pub parse_subject : String → List String
parse_subject subject = split subject

-- `format!("{}.{}", market_id, asset_id)`
unfoldable pub build_subject : String → String → String
build_subject market_id asset_id = market_id ++ String.◌∷◌ "." asset_id

abbrev subject_parts : List String → Option (String × String)
subject_parts (a ∷ b ∷ market_id ∷ asset_id ∷ more) =
    if str_eq a "orderbook" && str_eq b "changes" then some (market_id, asset_id) else some (a, b)
subject_parts (a ∷ b ∷ more) = some (a, b)
subject_parts _ = none

unfoldable pub extract_subject_parts : String → Option (String × String)
extract_subject_parts subject = subject_parts (split subject)

abbrev not_last : List String → Bool
not_last [] = false
not_last (p ∷ ps) = true

-- The loop over the segments; the rest of the list tells whether a segment is the last one.
unfoldable pub validate_parts : List String → Option String
validate_parts [] = none
validate_parts (part ∷ parts) =
    let rest = validate_parts parts in
    if str_eq part greater && not_last parts
    then some "> wildcard can only be at the end"
    else if str_eq part ""
    then some "Empty segment in pattern"
    else rest

unfoldable pub validate_pattern : String → Option String
unfolding validate_parts
validate_pattern pattern =
    if str_eq pattern "" then some "Empty pattern" else validate_parts (split pattern)
