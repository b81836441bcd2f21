-- ===== src/Subscription/Subjects.antt =====
-- Subjects are built and taken apart.
use wup_demo.Prelude.{String, false, some, [], ◌∷◌, ◌≡◌, ◌∙◌, ap}
use wup_demo.Text.{split, contains_char}
use wup_demo.Text.Laws.{split-append, split_one}
use wup_demo.Subscription.{build_subject, parse_subject, extract_subject_parts}

-- A subject that is built from two identifiers without a dot has them for its two segments, and
-- is taken apart into them.
pub parse-build_subject :
    (market_id asset_id : String)
    → contains_char b'.' market_id ≡ false
    → contains_char b'.' asset_id ≡ false
    → (parse_subject (build_subject market_id asset_id) ≡ market_id ∷ asset_id ∷ [])
      × (extract_subject_parts (build_subject market_id asset_id) ≡ some (market_id, asset_id))
unfolding parse_subject build_subject extract_subject_parts
parse-build_subject m a hm ha =
    let e : split (build_subject m a) ≡ m ∷ a ∷ [] =
      split-append m a hm ∙ ap (◌∷◌ m) (split_one a ha) in
    (e, rw e)
