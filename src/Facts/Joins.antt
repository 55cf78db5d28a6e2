-- ===== src/Facts/Joins.antt =====
-- src/FactPointTo.cpp: points-to facts form a lattice, whose order is `imply`.
use clsmith.Prelude.{
  ◌≡◌, refl, sym, ap, ◌∙◌, ◌↔◌, inl, inr, Bool, true, false, not, ◌||◌, List, [], Bool-cases,
  eq_of_iff, &&_elim, ||_elim, arith,
}
use clsmith.Variables.{Variable, var_eq}
use clsmith.Variables.Sets.{is_variable_in_set, all_in_set, sub_variable_sets}
use clsmith.Variables.Membership.{
  var_eq_refl, var_eq_symm, var_eq_sound, IsSetOfVariables, all_in_set_sound, all_in_set_complete,
  sub_variable_sets_iff,
}
use clsmith.Variables.Union.{add_variables_to_set_union}
use clsmith.Facts.{FactLaws}
use clsmith.Facts.PointTo.{
  FactPointTo, is_related, imply, join, join_visits, is_tbd_only, point_to_class,
}

-- A points-to fact that lists no variable twice.
abbrev pub IsValid : FactPointTo → Type 0
IsValid f = IsSetOfVariables f.point_to_vars

abbrev pub has_pointee : FactPointTo → Variable → Bool
has_pointee f v = is_variable_in_set f.point_to_vars v

related_trans : (f g h : FactPointTo) → is_related f g ≡ true → is_related f h ≡ is_related g h
unfolding is_related
related_trans f g h e = ap (λ v. var_eq v h.var) (var_eq_sound f.var g.var e)

sub_variable_sets_trans :
    (xs ys zs : List Variable)
    → sub_variable_sets xs ys ≡ true
    → sub_variable_sets ys zs ≡ true
    → sub_variable_sets xs zs ≡ true
unfolding sub_variable_sets
sub_variable_sets_trans xs ys zs h g =
    let both = all_in_set_complete xs zs (λ v m.
      all_in_set_sound ys zs v (ground arith) (all_in_set_sound xs ys v (ground arith) m)) in
    ground arith

imply_trans : (f g h : FactPointTo) → imply f g ≡ true → imply g h ≡ true → imply f h ≡ true
unfolding imply
imply_trans f g h a b =
    let one =
      sub_variable_sets_trans h.point_to_vars g.point_to_vars f.point_to_vars (ground arith)
        (ground arith) in
    ground (arith, related_trans f g h)

imply_refl : (f : FactPointTo) → imply f f ≡ true
unfolding imply is_related sub_variable_sets
imply_refl f =
    ground
      (arith, var_eq_refl f.var, all_in_set_complete f.point_to_vars f.point_to_vars (λ v m. m))

-- What a fact implies, by its variables.
pub imply_iff :
    (f g : FactPointTo)
    → IsValid g
    → (imply f g ≡ true) ↔ (
        (is_related f g ≡ true)
        × ((v : Variable) → has_pointee g v ≡ true → has_pointee f v ≡ true))
unfolding imply
imply_iff f g d =
    let (to, from) = sub_variable_sets_iff g.point_to_vars f.point_to_vars d in
    (λ h. let (a, b) = &&_elim h in (a, to b), λ (a, b). let c = from b in ground arith)

join_related : (f g h : FactPointTo) → is_related ((join f g).0) h ≡ is_related f h
unfolding join is_related
join_related f g h = ground arith

join_valid : (f g : FactPointTo) → IsValid f → IsValid ((join f g).0)
unfolding join
join_valid f g d = elim (Bool-cases (is_related f g)) [
  | inl e ↦ rw e ((add_variables_to_set_union f.point_to_vars g.point_to_vars).1 d)
  | inr e ↦ rw e d
]

in_join :
    (f g : FactPointTo) (v : Variable)
    → is_related f g ≡ true
    → has_pointee ((join f g).0) v ≡ (has_pointee f v || has_pointee g v)
unfolding join
in_join f g v r = rw r ((add_variables_to_set_union f.point_to_vars g.point_to_vars).0 v)

join_unrelated : (f g : FactPointTo) → is_related f g ≡ false → (join f g).0 ≡ f
unfolding join
join_unrelated f g r = rw r refl

related_refl : (f : FactPointTo) → is_related f f ≡ true
unfolding is_related
related_refl f = var_eq_refl f.var

related_symm : (f g : FactPointTo) → is_related f g ≡ is_related g f
unfolding is_related
related_symm f g = var_eq_symm f.var g.var

join_left : (f g : FactPointTo) → IsValid f → imply ((join f g).0) f ≡ true
join_left f g d = elim (Bool-cases (is_related f g)) [
  | inl r ↦
      (imply_iff ((join f g).0) f d).1
        (join_related f g f ∙ related_refl f, λ v m. in_join f g v r ∙ ground arith)
  | inr r ↦ ap (λ k. imply k f) (join_unrelated f g r) ∙ imply_refl f
]

join_right : (f g : FactPointTo) → IsValid g → is_related f g ≡ true → imply ((join f g).0) g ≡ true
join_right f g d r =
    (imply_iff ((join f g).0) g d).1 (join_related f g g ∙ r, λ v m. in_join f g v r ∙ ground arith)

join_least :
    (f g h : FactPointTo)
    → IsValid f
    → IsValid g
    → is_related f g ≡ true
    → imply h f ≡ true
    → imply h g ≡ true
    → imply h ((join f g).0) ≡ true
join_least f g h d e r a b =
    let (same, mine) = (imply_iff h f d).0 a in
    let (_, yours) = (imply_iff h g e).0 b in
    (imply_iff h ((join f g).0) (join_valid f g d)).1 (
      related_symm h ((join f g).0) ∙ join_related f g h ∙ related_symm f h ∙ same,
      λ v m. elim (||_elim (sym (in_join f g v r) ∙ m)) [ inl x ↦ mine v x | inr x ↦ yours v x ],
    )

changed-join :
    (f g : FactPointTo)
    → is_related f g ≡ true
    → (join f g).1 ≡ not (all_in_set g.point_to_vars f.point_to_vars)
unfolding join
changed-join f g r = rw r ((add_variables_to_set_union f.point_to_vars g.point_to_vars).2)

imply_all_in :
    (f g : FactPointTo)
    → IsValid g
    → is_related f g ≡ true
    → imply f g ≡ all_in_set g.point_to_vars f.point_to_vars
imply_all_in f g d r =
    eq_of_iff (imply f g) (all_in_set g.point_to_vars f.point_to_vars)
      (λ h. all_in_set_complete g.point_to_vars f.point_to_vars (((imply_iff f g d).0 h).1))
      (λ h. (imply_iff f g d).1 (r, λ v. all_in_set_sound g.point_to_vars f.point_to_vars v h))

-- Of two facts about the same variable that list nothing twice, the join is the least fact that
-- implies both; it lists nothing twice, and its flag says that the first fact does not imply the
-- second.
pub join_least_upper_bound :
    (f g : FactPointTo)
    → IsValid f
    → IsValid g
    → is_related f g ≡ true
    → (imply ((join f g).0) f ≡ true)
      × (imply ((join f g).0) g ≡ true)
      × ((h : FactPointTo) → imply h f ≡ true → imply h g ≡ true → imply h ((join f g).0) ≡ true)
      × IsValid ((join f g).0)
      × ((join f g).1 ≡ not (imply f g))
join_least_upper_bound f g d e r = (
  join_left f g d,
  join_right f g e r,
  λ h. join_least f g h d e r,
  join_valid f g d,
  changed-join f g r ∙ ap not (sym (imply_all_in f g e r)),
)

-- `join_visits` of two facts about the same variable lists the pointees of both, but forgets those
-- of a fact that is still to be determined: the second such fact changes nothing, and the first such
-- fact is replaced by the second one.
join_visits_pointees :
    (f g : FactPointTo) (v : Variable)
    → is_related f g ≡ true
    → (is_tbd_only g ≡ true → (join_visits f g).0 ≡ f)
      × (is_tbd_only g ≡ false
          → is_tbd_only f ≡ true
          → has_pointee ((join_visits f g).0) v ≡ has_pointee g v)
      × (is_tbd_only g ≡ false
          → is_tbd_only f ≡ false
          → has_pointee ((join_visits f g).0) v ≡ (has_pointee f v || has_pointee g v))
unfolding join_visits is_variable_in_set
join_visits_pointees f g v r = (
  λ a. rw (r, a) refl,
  λ a b. rw (r, a, b) ((add_variables_to_set_union [] g.point_to_vars).0 v ∙ refl),
  λ a b. rw (r, a, b) ((add_variables_to_set_union f.point_to_vars g.point_to_vars).0 v),
)

-- The points-to facts have what the environments of facts rely on.
pub point_to_laws : FactLaws point_to_class IsValid
point_to_laws = record {
  related_refl = related_refl;
  related_symm = related_symm;
  related_trans = related_trans;
  imply_refl = imply_refl;
  imply_trans = imply_trans;
  join_related = join_related;
  join_left = join_left;
  join_right = join_right;
  join_valid = λ f g d e. join_valid f g d;
}
