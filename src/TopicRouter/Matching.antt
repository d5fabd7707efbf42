-- ===== src/TopicRouter/Matching.antt =====
-- `matches` against a description of patterns.
use message_driven_event_que.Prelude.{
  ◌≡◌, ◌≢◌, ◌↔◌, ◌⊎◌, inl, inr, refl, sym, ap, ◌∙◌, true, false, not, ◌&&◌, [], ◌∷◌, ◌++◌, none,
  some, arith, ◌==◌, nat_eq, list_eq, eq_iff, if◌then◌else◌, length, take, drop, All, take-append,
  take-append-drop, Bool-cases,
}
use message_driven_event_que.Message.{Bytes}
use message_driven_event_que.TopicRouter.{find_star, matches, is_empty}

abbrev pub NoStar : Bytes → Type 0
NoStar = All (λ c. c ≢ b'*')

-- The pattern is the topic, or the topic begins with what stands before the pattern's first star.
-- What stands behind that star plays no part.
abbrev pub Covers : Bytes → Bytes → Type 0
Covers pattern topic =
    (pattern ≡ topic)
    ⊎ ((before : Bytes) × (after : Bytes) × (rest : Bytes) × (pattern ≡ before ++ b'*' ∷ after)
        × NoStar before
        × (topic ≡ before ++ rest))

abbrev StarAt : Bytes → Bytes → Bytes → Type 0
StarAt pattern before after =
    (pattern ≡ before ++ b'*' ∷ after) × NoStar before × (find_star pattern ≡ some (length before))

find_star-cases :
    (p : Bytes)
    → (find_star p ≡ none) ⊎ ((before : Bytes) × (after : Bytes) × StarAt p before after)
unfolding find_star
find_star-cases [] = inl refl
find_star-cases (c ∷ cs) = elim (Bool-cases (c == b'*')) [
  | inl star ↦ inr ([], cs, (rw ((eq_iff c b'*').0 star) refl, tt, rw star refl))
  | inr plain ↦ elim (find_star-cases cs) [
    | inl e ↦ inl (rw (plain, e, find_star) refl)
    | inr (before, after, (split, clean, found)) ↦ inr (
      c ∷ before,
      after,
      (
        ap (λ (l : Bytes). c ∷ l) split,
        (λ e. ground (arith, e), clean),
        rw (plain, found, find_star) refl,
      ),
    )
  ]
]

find_star-append :
    (before after : Bytes)
    → NoStar before
    → find_star (before ++ b'*' ∷ after) ≡ some (length before)
unfolding find_star
find_star-append [] after h = refl
find_star-append (c ∷ cs) after h =
    let plain : (c == b'*') ≡ false = ground (arith, h.0) in
    rw (plain, find_star-append cs after h.1, find_star)

-- The two tests of the source on the prefix are one.
prefix_test :
    (prefix topic : Bytes)
    → (if not (is_empty prefix) && (take (length prefix) topic == prefix)
        then true
        else is_empty prefix)
      ≡ (take (length prefix) topic == prefix)
prefix_test [] topic = refl
prefix_test (c ∷ cs) topic = ground arith

matches-StarAt :
    (pattern topic before after : Bytes)
    → (pattern == topic) ≡ false
    → StarAt pattern before after
    → matches pattern topic ≡ (take (length before) topic == before)
unfolding matches
matches-StarAt pattern topic before after ne (split, clean, found) =
    let prefix = ap (take (length before)) split ∙ take-append before (b'*' ∷ after) in
    rw (ne, found, matches) (rw prefix (prefix_test before topic))

matches_plain :
    (pattern topic : Bytes)
    → (pattern == topic) ≡ false
    → find_star pattern ≡ none
    → matches pattern topic ≡ false
unfolding matches
matches_plain pattern topic ne e = rw (ne, e, matches)

matches-Covers : (pattern topic : Bytes) → matches pattern topic ≡ true → Covers pattern topic
matches-Covers pattern topic h = elim (Bool-cases (pattern == topic)) [
  | inl same ↦ inl ((eq_iff pattern topic).0 same)
  | inr ne ↦ elim (find_star-cases pattern) [
    | inl e ↦ absurd (cc (matches_plain pattern topic ne e))
    | inr (before, after, at) ↦
        let test = sym (matches-StarAt pattern topic before after ne at) ∙ h in
        let begins = (eq_iff (take (length before) topic) before).0 test in
        inr (
          before,
          after,
          drop (length before) topic,
          at.0,
          at.1,
          sym (take-append-drop (length before) topic)
              ∙ ap (λ (l : Bytes). l ++ drop (length before) topic) begins,
        )
  ]
]

Covers-matches : (pattern topic : Bytes) → Covers pattern topic → matches pattern topic ≡ true
Covers-matches pattern topic (inl e) = unfold matches in rw ((eq_iff pattern topic).1 e) refl
Covers-matches pattern topic (inr (before, after, rest, split, clean, begins)) =
    elim (Bool-cases (pattern == topic)) [
      | inl same ↦ unfold matches in rw same refl
      | inr ne ↦
          let found = rw (← split) at (find_star-append before after clean) in
          matches-StarAt pattern topic before after ne (split, clean, found)
          ∙ (eq_iff (take (length before) topic) before).1
              (ap (take (length before)) begins ∙ take-append before rest)
    ]

-- `matches` decides the description, in both directions.
pub matches-iff-Covers :
    (pattern topic : Bytes) → (matches pattern topic ≡ true) ↔ Covers pattern topic
matches-iff-Covers pattern topic = (matches-Covers pattern topic, Covers-matches pattern topic)
