-- ===== src/Text/Laws.antt =====
-- Splitting loses nothing, and a separator between two texts without it is found again.
use Prim.Native.Char.{Char, code}
use Prim.Native.String.{◌++◌}
use text.Mathlib.TextEquality.{Char-path}
use text.Mathlib.TextLemmas.{cons-append, nil-append, head-eq_of_cons-eq, nil≢cons}
use wup_demo.Prelude.{
  String, str_eq, false, List, [], ◌∷◌, ◌≡◌, refl, ap, sym, ◌∙◌, ◌==◌, ==_iff, Bool-cases, inl, inr,
  arith, eq_iff,
}
use wup_demo.Text.{push_front, split, contains_char, join}

-- There is a first segment.
pub data HasFirst : List String → Type 0 where
  first : (p : String) (ps : List String) → HasFirst (p ∷ ps)

push_front-HasFirst : (c : Char) (ps : List String) → HasFirst (push_front c ps)
push_front-HasFirst c [] = first _ _
push_front-HasFirst c (p ∷ ps) = first _ _

pub split-HasFirst : (s : String) → HasFirst (split s)
unfolding split
split-HasFirst String.[] = first _ _
split-HasFirst (String.◌∷◌ c s) = elim (Bool-cases (code c == b'.')) [
  | inl e ↦ rw e (first _ _)
  | inr e ↦ rw e (push_front-HasFirst c (split s))
]

join-push_front :
    (c : Char) (ps : List String) → HasFirst ps → join (push_front c ps) ≡ String.◌∷◌ c (join ps)
unfolding join
join-push_front c [] h = elim h [ ]
join-push_front c (p ∷ []) h = refl
join-push_front c (p ∷ q ∷ ps) h = cons-append c p _

join-empty : (ps : List String) → HasFirst ps → join ("" ∷ ps) ≡ String.◌∷◌ "." (join ps)
unfolding join
join-empty [] h = elim h [ ]
join-empty (p ∷ ps) h = nil-append _

-- The segments of a text give the text back.
pub join-split : (s : String) → join (split s) ≡ s
unfolding split join
join-split String.[] = refl
join-split (String.◌∷◌ c s) = elim (Bool-cases (code c == b'.')) [
  | inl e ↦
      rw (e, split)
        (join-empty (split s) (split-HasFirst s)
          ∙ ap (String.◌∷◌ ".") (join-split s)
          ∙ ap (λ d. String.◌∷◌ d s) (Char-path "." c (sym ((==_iff (code c) b'.').0 e))))
  | inr e ↦
      rw (e, split)
        (join-push_front c (split s) (split-HasFirst s) ∙ ap (String.◌∷◌ c) (join-split s))
]

-- A text without the separator, then the separator, then a text: the first is the first segment.
pub split-append :
    (m s : String) → contains_char b'.' m ≡ false → split (m ++ String.◌∷◌ "." s) ≡ m ∷ split s
unfolding split contains_char
split-append String.[] s h = rw (nil-append (String.◌∷◌ "." s))
split-append (String.◌∷◌ c m) s h =
    rw (cons-append c m (String.◌∷◌ "." s)) (ground (arith, split-append m s))

pub split_one : (m : String) → contains_char b'.' m ≡ false → split m ≡ m ∷ []
unfolding split contains_char
split_one String.[] h = refl
split_one (String.◌∷◌ c m) h = ground (arith, split_one m)

-- A segment of one character stands in a text only if the character does.
abbrev pub NoSegment : String → List String → Type 0
NoSegment q [] = Unit
NoSegment q (p ∷ ps) = (str_eq p q ≡ false) × NoSegment q ps

module _ (c : Char) where
  abbrev only : String
  only = String.◌∷◌ c ""

  ne_only :
      (d : Char) (p : String) → (code d == code c) ≡ false → str_eq (String.◌∷◌ d p) only ≡ false
  ne_only d p h = elim (Bool-cases (str_eq (String.◌∷◌ d p) only)) [
    | inl e ↦
        let same : d ≡ c = head-eq_of_cons-eq ((eq_iff (String.◌∷◌ d p) only).0 e) in
        absurd (cc (h, (==_iff (code d) (code c)).1 (ap code same)))
    | inr e ↦ e
  ]

  empty_ne_only : str_eq "" only ≡ false
  empty_ne_only = elim (Bool-cases (str_eq "" only)) [
    | inl e ↦ absurd (nil≢cons ((eq_iff "" only).0 e))
    | inr e ↦ e
  ]

  push_front-NoSegment :
      (d : Char) (ps : List String)
      → (code d == code c) ≡ false
      → NoSegment only ps
      → NoSegment only (push_front d ps)
  push_front-NoSegment d [] h k = (ne_only d "" h, tt)
  push_front-NoSegment d (p ∷ ps) h k = (ne_only d p h, k.1)

  pub split-NoSegment : (s : String) → contains_char (code c) s ≡ false → NoSegment only (split s)
  unfolding split contains_char
  split-NoSegment String.[] h = (empty_ne_only, tt)
  split-NoSegment (String.◌∷◌ d s) h =
      ground (arith, empty_ne_only, split-NoSegment s, push_front-NoSegment d (split s))
