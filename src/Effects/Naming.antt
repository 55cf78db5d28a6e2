-- ===== src/Effects/Naming.antt =====
-- src/Effect.cpp: the tests by name find what the tests by variable find.
use clsmith.Prelude.{
  ℕ, ◌≡◌, refl, ap, ◌∙◌, ◌⊎◌, inl, inr, Bool, true, List, [], ◌∷◌, ◌++◌, map, any, Bool-cases,
  ==_refl, ◌==◌, arith,
}
use clsmith.Variables.{Variable, named, member, Store}
use clsmith.Variables.Sets.{is_variable_in_set}
use clsmith.Effects.Races.{any_intro}
use clsmith.Effects.{Effect, covers, is_read, is_written, through_struct, through_all}
use clsmith.Effects.Names.{name_eq, dot, containers, name_matches, is_read_name, is_written_name}

-- The name of a field is that of its parent, a dot and the name of the field in it, as
-- `create_field_vars` makes it.
abbrev pub IsNamed : Store → Variable → Type 0
IsNamed s (named i) = Unit
IsNamed s (member p i) =
    ((field_name : List ℕ) × ((s (member p i)).name ≡ (s p).name ++ (dot ∷ field_name)))
    × IsNamed s p

name_eq_refl : (n : List ℕ) → name_eq n n ≡ true
unfolding name_eq
name_eq_refl [] = refl
name_eq_refl (c ∷ n) = ground (arith, ==_refl c, name_eq_refl n)

any-map :
    (f : List ℕ → Bool) (g : List ℕ → List ℕ) (xs : List (List ℕ))
    → any f (map g xs) ≡ any (λ x. f (g x)) xs
any-map f g [] = refl
any-map f g (x ∷ xs) = ground (arith, any-map f g xs)

any-same :
    (f g : List ℕ → Bool) (xs : List (List ℕ)) → ((x : List ℕ) → f x ≡ g x) → any f xs ≡ any g xs
any-same f g [] h = refl
any-same f g (x ∷ xs) h = ground (arith, h x, any-same f g xs h)

-- What stands before a dot is a container.
container_found : (n t : List ℕ) → any (λ c. name_eq c n) (containers (n ++ (dot ∷ t))) ≡ true
unfolding containers name_eq
container_found [] t = refl
container_found (c ∷ n) t =
    let tails = containers (n ++ (dot ∷ t)) in
    let one : any (λ x. name_eq x (c ∷ n)) (map (λ p. c ∷ p) tails) ≡ true =
      any-map (λ x. name_eq x (c ∷ n)) (λ p. c ∷ p) tails
      ∙ any-same (λ x. name_eq (c ∷ x) (c ∷ n)) (λ x. name_eq x n) tails
          (λ x. ground (arith, ==_refl c))
      ∙ container_found n t in
    elim (Bool-cases (c == dot)) [ inl e ↦ rw e one | inr e ↦ rw e one ]

append_assoc : (a b c : List ℕ) → (a ++ b) ++ c ≡ a ++ (b ++ c)
append_assoc [] b c = refl
append_assoc (x ∷ a) b c = ap (λ r. x ∷ r) (append_assoc a b c)

-- The name itself, or a field of what has the name.
abbrev Extends : List ℕ → List ℕ → Type 0
Extends r v = (v ≡ r) ⊎ ((t : List ℕ) × (v ≡ r ++ (dot ∷ t)))

name_matches-Extends : (r v : List ℕ) → Extends r v → name_matches r v ≡ true
unfolding name_matches
name_matches-Extends r v (inl e) = rw e (ground (arith, name_eq_refl r))
name_matches-Extends r v (inr (t, e)) = rw e (ground (arith, container_found r t))

Extends-field : (r p f : List ℕ) → Extends r p → Extends r (p ++ (dot ∷ f))
Extends-field r p f (inl e) = inr (f, ap (λ x. x ++ (dot ∷ f)) e)
Extends-field r p f (inr (t, e)) =
    inr (t ++ (dot ∷ f), ap (λ x. x ++ (dot ∷ f)) e ∙ append_assoc r (dot ∷ t) (dot ∷ f))

covered_name :
    (s : Store) (through : Variable → Bool) (vs : List Variable) (v : Variable)
    → IsNamed s v
    → covers through vs v ≡ true
    → (r : Variable) × (is_variable_in_set vs r ≡ true) × Extends ((s r).name) ((s v).name)
unfolding covers
covered_name s through vs (named i) n h = (named i, h, inl refl)
covered_name s through vs (member p i) n h =
    elim (Bool-cases (is_variable_in_set vs (member p i))) [
      | inl e ↦ (member p i, e, inl refl)
      | inr e ↦
          let ((f, named_so), m) = n in
          let (r, k, x) = covered_name s through vs p m (ground arith) in
          (r, k, rw named_so (Extends-field ((s r).name) ((s p).name) f x))
    ]

any_name :
    (s : Store) (through : Variable → Bool) (vs : List Variable) (v : Variable)
    → IsNamed s v
    → covers through vs v ≡ true
    → any (λ r. name_matches ((s r).name) ((s v).name)) vs ≡ true
any_name s through vs v n h =
    let (r, k, x) = covered_name s through vs v n h in
    any_intro (λ w. name_matches ((s w).name) ((s v).name)) vs r k
      (name_matches-Extends ((s r).name) ((s v).name) x)

-- Where the fields are named after their parents, a variable that is read is read by its name too,
-- and a variable that is written is written by its name too.
pub is_read_name_complete :
    (s : Store) (e : Effect) (v : Variable)
    → IsNamed s v
    → (is_read s e v ≡ true → is_read_name s e ((s v).name) ≡ true)
      × (is_written e v ≡ true → is_written_name s e ((s v).name) ≡ true)
unfolding is_read_name is_written_name
is_read_name_complete s e v n =
    (any_name s (through_struct s) e.read_vars v n, any_name s through_all e.write_vars v n)
