-- ===== src/Enumerator/Choices.antt =====
-- src/CVQualifiers.cpp (`get_all_qualifiers`): all the qualifiers of one level that two probabilities
-- allow, by an enumerator with two elements.
use clsmith.Prelude.{
  ℕ, ◌≡◌, inl, inr, refl, ◌∙◌, Bool, true, false, not, Option, none, some, List, [], ◌∷◌, ◌++◌,
  ◌==◌, ==_iff, Bool-cases, Option-cases, if◌then◌else◌, map,
}
use clsmith.Qualifiers.{CvQualifiers, of_levels}
use clsmith.Enumerator.{
  Enumerator, Name, no_elements, add_bool_elem, get_elem, for_each, add_object, for_each_from, find,
  percent_bound, insert_at, lower_bound, name_eq, begin, reset_pos, name_less, next, next_within,
  reset_all_changed, next_value, reset_changed, roll_back_current_pos, roll_back_from,
  reset_after_backward_pos, clear_from, clear_value,
}

-- "const_prob" and "volatile_prob".
abbrev const_prob_name : Name
const_prob_name = 99 ∷ 111 ∷ 110 ∷ 115 ∷ 116 ∷ 95 ∷ 112 ∷ 114 ∷ 111 ∷ 98 ∷ []

abbrev volatile_prob_name : Name
volatile_prob_name = 118 ∷ 111 ∷ 108 ∷ 97 ∷ 116 ∷ 105 ∷ 108 ∷ 101 ∷ 95 ∷ 112 ∷ 114 ∷ 111 ∷ 98 ∷ []

abbrev is_nonzero : ℕ → Bool
is_nonzero n = not (n == 0)

unfoldable pub qualifier_here : Enumerator → Option CvQualifiers
qualifier_here e = elim (get_elem e const_prob_name) [
  | none ↦ none
  | some c ↦ elim (get_elem e volatile_prob_name) [
    | none ↦ none
    | some v ↦ some (of_levels (is_nonzero c ∷ []) (is_nonzero v ∷ []))
  ]
]

unfoldable pub get_all_qualifiers : ℕ → ℕ → ℕ → Option (List CvQualifiers)
get_all_qualifiers fuel const_prob volatile_prob =
    elim (add_bool_elem no_elements const_prob_name const_prob) [
      | none ↦ none
      | some e ↦ elim (add_bool_elem e volatile_prob_name volatile_prob) [
        | none ↦ none
        | some f ↦ for_each qualifier_here fuel f
      ]
    ]

-- What a probability in percent leaves open.
unfoldable pub choices : ℕ → List Bool
choices p = if p == 0 then false ∷ [] else if p == 100 then true ∷ [] else false ∷ true ∷ []

unfoldable pub pairs : List Bool → List Bool → List CvQualifiers
pairs [] vs = []
pairs (c ∷ cs) vs = map (λ v. of_levels (c ∷ []) (v ∷ [])) vs ++ pairs cs vs

-- A probability counts only by what it leaves open, so that three samples stand for all.
data Percent : Type 0 where
  never always sometimes : Percent

abbrev sample : Percent → ℕ
sample never = 0
sample always = 100
sample sometimes = 50

record IsLike (p : ℕ) (k : Percent) : Type 0 where
  same_bound : percent_bound p ≡ percent_bound (sample k)
  same_value : (p == 100) ≡ (sample k == 100)
  same_choices : choices p ≡ choices (sample k)

sampled : (p : ℕ) → (k : Percent) × IsLike p k
unfolding choices
sampled p = elim (Bool-cases (p == 0)) [
  | inl z ↦
      let e = (==_iff p 0).0 z in
      (never, rw e (record { same_bound = refl; same_value = refl; same_choices = refl }))
  | inr z ↦ elim (Bool-cases (p == 100)) [
    | inl h ↦
        let e = (==_iff p 100).0 h in
        (always, rw e (record { same_bound = refl; same_value = refl; same_choices = refl }))
    | inr h ↦ (
      sometimes,
      record { same_bound = rw (z, h) refl; same_value = rw h refl; same_choices = rw (z, h) refl },
    )
  ]
]

add_sampled :
    (e : Enumerator) (name : Name) (p : ℕ) (k : Percent)
    → IsLike p k
    → add_bool_elem e name p ≡ add_bool_elem e name (sample k)
unfolding add_bool_elem
add_sampled e name p k h = rw (h.same_bound, h.same_value) refl

run_sampled :
    (a b : Percent)
    → get_all_qualifiers 5 (sample a) (sample b)
      ≡ some (pairs (choices (sample a)) (choices (sample b)))
unfolding get_all_qualifiers choices pairs qualifier_here add_bool_elem add_object get_elem for_each
    for_each_from find insert_at lower_bound name_eq begin reset_pos name_less next next_within
    reset_all_changed next_value reset_changed roll_back_current_pos roll_back_from
    reset_after_backward_pos clear_from clear_value
run_sampled never never = refl
run_sampled never always = refl
run_sampled never sometimes = refl
run_sampled always never = refl
run_sampled always always = refl
run_sampled always sometimes = refl
run_sampled sometimes never = refl
run_sampled sometimes always = refl
run_sampled sometimes sometimes = refl

as_sampled :
    (c v : ℕ) (a b : Percent)
    → IsLike c a
    → IsLike v b
    → get_all_qualifiers 5 c v ≡ get_all_qualifiers 5 (sample a) (sample b)
unfolding get_all_qualifiers
as_sampled c v a b p q =
    let h = add_sampled no_elements const_prob_name c a p in
    elim (Option-cases (add_bool_elem no_elements const_prob_name (sample a))) [
      | inl n ↦ rw (get_all_qualifiers, h, n) refl
      | inr (e, n) ↦ rw (get_all_qualifiers, h, n, add_sampled e volatile_prob_name v b q) refl
    ]

-- For all probabilities the enumeration ends within five rounds, without undefined behaviour; it
-- gives every pair of a const and a volatile flag that the probabilities leave open, once each: 0
-- leaves `false` only, 100 leaves `true` only, and all others leave both.
pub get_all_qualifiers_lem :
    (c v : ℕ) → get_all_qualifiers 5 c v ≡ some (pairs (choices c) (choices v))
get_all_qualifiers_lem c v =
    let (a, p) = sampled c in
    let (b, q) = sampled v in
    rw (p.same_choices, q.same_choices) (as_sampled c v a b p q ∙ run_sampled a b)
