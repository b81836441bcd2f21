-- ===== src/Subscription/Matching.antt =====
-- What it means that a pattern matches a subject, and the matcher of subscription.rs.
use wup_demo.Prelude.{
  String, str_eq, true, false, none, List, [], ◌∷◌, ◌≡◌, ◌↔◌, refl, ap, sym, ◌∙◌, inl, inr, arith,
  eq_iff, eq_refl, Bool-cases,
}
use wup_demo.Text.{split, join, contains_char}
use wup_demo.Text.Laws.{join-split, NoSegment, split-NoSegment}
use wup_demo.Subscription.{
  star, greater, matches_parts, matches_subject, validate_parts, validate_pattern,
}

-- `*` stands for one segment, `>` at the end for one or more, and any other segment for itself.
pub data Matches : List String → List String → Type 0 where
  done : Matches [] []
  one : {p s : String} {ps ss : List String} → p ≡ star → Matches ps ss → Matches (p ∷ ps) (s ∷ ss)
  literal : {p s : String} {ps ss : List String} → p ≡ s → Matches ps ss → Matches (p ∷ ps) (s ∷ ss)
  more : {p s : String} {ss : List String} → p ≡ greater → Matches (p ∷ []) (s ∷ ss)

-- The code takes `>` for a match wherever it stands, so a pattern with `>` only at its end is what
-- the relation is about.
abbrev Ends : List String → Type 0
Ends [] = Unit {0}
Ends (p ∷ ps) = ((p ≡ greater) → ps ≡ []) × Ends ps

validate_parts-Ends : (ps : List String) → validate_parts ps ≡ none → Ends ps
unfolding validate_parts
validate_parts-Ends [] h = tt
validate_parts-Ends (p ∷ []) h = (λ e. refl, tt)
validate_parts-Ends (p ∷ q ∷ ps) h =
    (λ e. absurd (ground (arith, eq_iff p greater)), validate_parts-Ends (q ∷ ps) (ground arith))

sound : (ps ss : List String) → Ends ps → matches_parts ps ss ≡ true → Matches ps ss
unfolding matches_parts
sound [] [] e h = done
sound [] (s ∷ ss) e h = absurd (cc h)
sound (p ∷ ps) [] e h = absurd (cc h)
sound (p ∷ ps) (s ∷ ss) e h = elim (Bool-cases (str_eq p greater)) [
  | inl g ↦
      let at_end : ps ≡ [] = e.0 ((eq_iff p greater).0 g) in
      rw at_end (more ((eq_iff p greater).0 g))
  | inr g ↦ elim (Bool-cases (str_eq p star)) [
    | inl st ↦ one ((eq_iff p star).0 st) (sound ps ss e.1 (ground arith))
    | inr st ↦ elim (Bool-cases (str_eq p s)) [
      | inl l ↦ literal ((eq_iff p s).0 l) (sound ps ss e.1 (ground arith))
      | inr l ↦ absurd (ground arith)
    ]
  ]
]

complete : {ps ss : List String} → Matches ps ss → matches_parts ps ss ≡ true
unfolding matches_parts
complete done = refl
complete (one {p = p} {s = s} e m) = ground (arith, complete m, eq_iff p star)
complete (literal {p = p} {s = s} e m) = ground (arith, complete m, eq_iff p s)
complete (more {p = p} {s = s} e) = ground (arith, eq_iff p greater)

-- For a pattern that passes validation, the matcher says yes exactly if the pattern matches.
pub matches_subject_iff :
    (pattern : String) (subject_parts : List String)
    → validate_pattern pattern ≡ none
    → (matches_subject pattern subject_parts ≡ true) ↔ Matches (split pattern) subject_parts
unfolding matches_subject validate_pattern
matches_subject_iff pattern ss h =
    (sound (split pattern) ss (validate_parts-Ends (split pattern) (ground arith)), complete)

-- The segments of a text without wildcards match nothing but themselves.
literal_parts :
    (ps ss : List String)
    → NoSegment star ps
    → NoSegment greater ps
    → matches_parts ps ss ≡ true
    → ps ≡ ss
unfolding matches_parts
literal_parts [] [] a b h = refl
literal_parts [] (s ∷ ss) a b h = absurd (cc h)
literal_parts (p ∷ ps) [] a b h = absurd (cc h)
literal_parts (p ∷ ps) (s ∷ ss) a b h = ground (arith, eq_iff p s, literal_parts ps ss a.1 b.1)

literal_parts_self : (ps : List String) → matches_parts ps ps ≡ true
unfolding matches_parts
literal_parts_self [] = refl
literal_parts_self (p ∷ ps) = ground (arith, eq_refl p, literal_parts_self ps)

-- A pattern without wildcards matches a subject exactly if it is the subject.
pub matches_literal :
    (pattern subject : String)
    → contains_char b'*' pattern ≡ false
    → contains_char b'>' pattern ≡ false
    → (matches_subject pattern (split subject) ≡ true) ↔ (pattern ≡ subject)
unfolding matches_subject
matches_literal p s a b = (
  λ h.
      let same : split p ≡ split s =
        literal_parts (split p) (split s) (split-NoSegment "*" p a) (split-NoSegment ">" p b) h in
      sym (join-split p) ∙ ap join same ∙ join-split s,
  λ e. rw e (literal_parts_self (split s)),
)
