-- ===== src/Facts/Fields.antt =====
-- src/FactUnion.cpp: the lattice of union facts.
use clsmith.Prelude.{
  ◌≡◌, ◌↔◌, Bool, Option, some, none, if◌then◌else◌, refl, sym, ap, ◌∙◌, ◌⊎◌, inl, inr, true, false,
  not, ◌&&◌, ◌||◌, Bool-cases, &&_elim, ||_elim, ℤ, pos, negsuc, ==_refl, ==_iff, arith,
}
use clsmith.Options.{CgOptions}
use clsmith.Types.{CType}
use clsmith.Variables.{Store, var_eq}
use clsmith.Variables.Membership.{var_eq_refl, var_eq_symm, var_eq_sound}
use clsmith.Facts.{FactLaws}
use clsmith.Facts.Unions.{
  FactUnion, bottom, int_eq, is_bottom, is_related, equal, imply, implied, join, joined,
  union_class, is_readable_as, is_bitfield, get_last_written_type,
}

pub int_eq_refl : (a : ℤ) → int_eq a a ≡ true
int_eq_refl (pos n) = ==_refl n
int_eq_refl (negsuc n) = ==_refl n

pub int_eq_sound : (a b : ℤ) → int_eq a b ≡ true → a ≡ b
int_eq_sound (pos a) (pos b) h = ap pos ((==_iff a b).0 h)
int_eq_sound (negsuc a) (negsuc b) h = ap negsuc ((==_iff a b).0 h)
int_eq_sound (pos a) (negsuc b) h = absurd (ground (arith, h))
int_eq_sound (negsuc a) (pos b) h = absurd (ground (arith, h))

abbrev IsDefined : Option Bool → Type 0
IsDefined m = (b : Bool) × (m ≡ some b)

IsDefined-if :
    (c : Bool) (m n : Option Bool)
    → (c ≡ true → IsDefined m)
    → (c ≡ false → IsDefined n)
    → IsDefined (if c then m else n)
IsDefined-if true m n g h = g refl
IsDefined-if false m n g h = h refl

-- The fact says which field was written, or that no field may be read.
pub IsWritten : Store → FactUnion → Type 0
IsWritten s f = (is_bottom f ≡ true) ⊎ ((t : CType) × (get_last_written_type s f ≡ some t))

module _ (o : CgOptions) (s : Store) where
  pub imply_refl : (f : FactUnion) → imply o s f f ≡ some true
  unfolding imply is_related equal
  imply_refl f =
      let r : var_eq f.var f.var ≡ true = var_eq_refl f.var in
      elim (Bool-cases (is_bottom f)) [
        | inl b ↦ rw (r, b) refl
        | inr b ↦ let e = int_eq_refl f.last_written_fid in rw (r, b, e) refl
      ]

  imply_bottom :
      (f g : FactUnion)
      → is_related f g ≡ true
      → imply o s (record f { last_written_fid = bottom }) g ≡ some true
  unfolding imply is_related
  imply_bottom f g r = rw r refl

  -- The types are only read where neither fact is the bottom of the lattice.
  imply_reads :
      (f g : FactUnion)
      → (is_bottom f ≡ false
          → is_bottom g ≡ false
          → IsDefined (
              is_readable_as
                (get_last_written_type s f)
                (get_last_written_type s g)
                (is_bitfield ((s f.var).type) g.last_written_fid)))
      → IsDefined (imply o s f g)
  unfolding imply
  imply_reads f g h =
      IsDefined-if (not (is_related f g)) _ _ (λ _. (false, refl))
        (λ _.
          IsDefined-if (is_bottom f) _ _ (λ _. (true, refl))
            (λ x.
              IsDefined-if (is_bottom g) _ _ (λ _. (false, refl))
                (λ y.
                  IsDefined-if (equal f g) _ _ (λ _. (true, refl))
                    (λ _.
                      IsDefined-if o.union_read_type_sensitive _ _ (λ _. h x y)
                        (λ _. (false, refl))))))

  imply-IsDefined : (f g : FactUnion) → IsWritten s f → IsWritten s g → IsDefined (imply o s f g)
  unfolding IsWritten is_readable_as
  imply-IsDefined f g (inl x) y = imply_reads f g (λ a b. absurd (ground (arith, x, a)))
  imply-IsDefined f g (inr x) (inl y) = imply_reads f g (λ a b. absurd (ground (arith, y, b)))
  imply-IsDefined f g (inr (t, x)) (inr (u, y)) = imply_reads f g (λ a b. rw (x, y) (_, refl))

  -- The three results of a join of two facts on the same union.
  abbrev JoinCase : (f g : FactUnion) → Type 0
  JoinCase f g =
      ((imply o s f g ≡ some true) × (join o s f g ≡ some (f, false)))
      ⊎ ((imply o s f g ≡ some false)
          × (imply o s g f ≡ some true)
          × (join o s f g ≡ some (g, true)))
      ⊎ ((imply o s f g ≡ some false)
          × (join o s f g ≡ some (record f { last_written_fid = bottom }, true)))

  JoinCase-cases :
      (f g : FactUnion) (a b : Bool)
      → is_related f g ≡ true
      → imply o s f g ≡ some a
      → imply o s g f ≡ some b
      → JoinCase f g
  unfolding join is_related
  JoinCase-cases f g true b r x y = inl (x, rw (r, x) refl)
  JoinCase-cases f g false true r x y =
      let same : f.var ≡ g.var = var_eq_sound f.var g.var r in
      inr (inl (x, y, rw (r, x, y) (ap (λ v. some (record g { var = v }, true)) same)))
  JoinCase-cases f g false false r x y = inr (inr (x, rw (r, x, y) refl))

  pub join_apart : (f g : FactUnion) → is_related f g ≡ false → join o s f g ≡ some (f, false)
  unfolding join
  join_apart f g r = rw r refl

  -- An upper bound of two facts: it implies both, and it is the first one where that implies the
  -- second.
  pub UpperBound : FactUnion → FactUnion → Type 0
  UpperBound f g =
      (h : FactUnion) × (c : Bool) × (join o s f g ≡ some (h, c))
      × (imply o s h f ≡ some true)
      × (imply o s h g ≡ some true)
      × ((c ≡ true) ↔ (imply o s f g ≡ some false))

  upper_bound : (f g : FactUnion) → is_related f g ≡ true → JoinCase f g → UpperBound f g
  unfolding UpperBound is_related
  upper_bound f g r (inl (a, e)) = (
    f,
    false,
    e,
    imply_refl f,
    a,
    (λ z. absurd (ground (arith, z)), λ z. absurd (ground (arith, a, z))),
  )
  upper_bound f g r (inr (inl (a, b, e))) = (g, true, e, b, imply_refl g, (λ z. a, λ z. refl))
  upper_bound f g r (inr (inr (a, e))) =
      (_, true, e, imply_bottom f f (var_eq_refl f.var), imply_bottom f g r, (λ z. a, λ z. refl))

  -- Of two facts on the same union that say which field was written, or that no field may be read,
  -- the join is defined and implies both, in the type-sensitive order of fields as well as without
  -- it. Its flag says that the first fact does not imply the second.
  pub union_join_upper_bound :
      (f g : FactUnion)
      → is_related f g ≡ true
      → (is_bottom f ≡ true) ⊎ ((t : CType) × (get_last_written_type s f ≡ some t))
      → (is_bottom g ≡ true) ⊎ ((t : CType) × (get_last_written_type s g ≡ some t))
      → (h : FactUnion) × (c : Bool) × (join o s f g ≡ some (h, c))
        × (imply o s h f ≡ some true)
        × (imply o s h g ≡ some true)
        × ((c ≡ true) ↔ (imply o s f g ≡ some false))
  unfolding IsWritten UpperBound
  union_join_upper_bound f g r x y =
      let (a, p) = imply-IsDefined f g x y in
      let (b, q) = imply-IsDefined g f y x in upper_bound f g r (JoinCase-cases f g a b r p q)

related_refl : (f : FactUnion) → is_related f f ≡ true
unfolding is_related
related_refl f = var_eq_refl f.var

related_symm : (f g : FactUnion) → is_related f g ≡ is_related g f
unfolding is_related
related_symm f g = var_eq_symm f.var g.var

related_trans : (f g h : FactUnion) → is_related f g ≡ true → is_related f h ≡ is_related g h
unfolding is_related
related_trans f g h e = ap (λ v. var_eq v h.var) (var_eq_sound f.var g.var e)

-- Without the type-sensitive order: a fact implies the facts with the same field, and the bottom
-- implies all facts on its union.
module _ (o : CgOptions) (s : Store) (flat : o.union_read_type_sensitive ≡ false) where
  pub imply_flat :
      (f g : FactUnion)
      → imply o s f g
        ≡ some (is_related f g && (is_bottom f || int_eq f.last_written_fid g.last_written_fid))
  unfolding imply equal
  imply_flat f g = elim (Bool-cases (is_related f g)) [
    | inr r ↦ rw r refl
    | inl r ↦ elim (Bool-cases (is_bottom f)) [
      | inl b ↦ rw (r, b) refl
      | inr b ↦ elim (Bool-cases (int_eq f.last_written_fid g.last_written_fid)) [
        | inl e ↦
            let same : f.last_written_fid ≡ g.last_written_fid =
              int_eq_sound f.last_written_fid g.last_written_fid e in
            let clear : is_bottom g ≡ false = ap (λ a. int_eq a bottom) (sym same) ∙ b in
            rw (r, b, clear, e) refl
        | inr e ↦ elim (Bool-cases (is_bottom g)) [
          | inl c ↦ rw (r, b, c, e) refl
          | inr c ↦ rw (r, b, c, e, flat) refl
        ]
      ]
    ]
  ]

  flat_value :
      (f g : FactUnion)
      → implied o s f g
        ≡ (is_related f g && (is_bottom f || int_eq f.last_written_fid g.last_written_fid))
  flat_value f g = ap (λ m. elim m [ none ↦ false | some b ↦ b ]) (imply_flat f g)

  imply_trans :
      (f g h : FactUnion) → implied o s f g ≡ true → implied o s g h ≡ true → implied o s f h ≡ true
  imply_trans f g h a b =
      let (r, x) = &&_elim (sym (flat_value f g) ∙ a) in
      let (t, y) = &&_elim (sym (flat_value g h) ∙ b) in
      let fid = f.last_written_fid in
      let same_var : is_related f h ≡ true = related_trans f g h r ∙ t in
      let tail : (is_bottom f || int_eq fid h.last_written_fid) ≡ true =
        elim (||_elim {a = is_bottom f} {b = int_eq fid g.last_written_fid} x) [
          | inl z ↦ ground (arith, z)
          | inr e ↦
              let same : fid ≡ g.last_written_fid = int_eq_sound fid g.last_written_fid e in
              ap (λ c. int_eq c bottom || int_eq c h.last_written_fid) same ∙ y
        ] in
      flat_value f h ∙ ground (arith, same_var, tail)

  implied-true : (f g : FactUnion) → imply o s f g ≡ some true → implied o s f g ≡ true
  implied-true f g e = ap (λ m. elim m [ none ↦ false | some b ↦ b ]) e

  flat-UpperBound : (f g : FactUnion) → is_related f g ≡ true → UpperBound o s f g
  flat-UpperBound f g r =
      upper_bound o s f g r (JoinCase-cases o s f g _ _ r (imply_flat f g) (imply_flat g f))

  joined_lem :
      (f g : FactUnion) (h : FactUnion) (c : Bool) → join o s f g ≡ some (h, c) → joined o s f g ≡ h
  joined_lem f g h c e = ap (λ m. elim m [ none ↦ f | some r ↦ r.0 ]) e

  join_right : (f g : FactUnion) → is_related f g ≡ true → implied o s (joined o s f g) g ≡ true
  unfolding UpperBound
  join_right f g r =
      let (h, c, e, _, k, _) = flat-UpperBound f g r in
      ap (λ j. implied o s j g) (joined_lem f g h c e) ∙ implied-true h g k

  join_left : (f g : FactUnion) → implied o s (joined o s f g) f ≡ true
  unfolding UpperBound
  join_left f g = elim (Bool-cases (is_related f g)) [
    | inl r ↦
        let (h, c, e, k, _, _) = flat-UpperBound f g r in
        ap (λ j. implied o s j f) (joined_lem f g h c e) ∙ implied-true h f k
    | inr r ↦
        ap (λ j. implied o s j f) (joined_lem f g f false (join_apart o s f g r))
        ∙ implied-true f f (imply_refl o s f)
  ]

  join_related : (f g h : FactUnion) → is_related (joined o s f g) h ≡ is_related f h
  unfolding UpperBound
  join_related f g h = elim (Bool-cases (is_related f g)) [
    | inr r ↦ ap (λ j. is_related j h) (joined_lem f g f false (join_apart o s f g r))
    | inl r ↦
        let (j, c, e, k, _, _) = flat-UpperBound f g r in
        let (same, _) = &&_elim (sym (flat_value j f) ∙ implied-true j f k) in
        ap (λ i. is_related i h) (joined_lem f g j c e) ∙ related_trans j f h same
  ]

  join_defined : (f g : FactUnion) → (c : Bool) × (join o s f g ≡ some (joined o s f g, c))
  unfolding UpperBound
  join_defined f g = elim (Bool-cases (is_related f g)) [
    | inr r ↦
        let e = join_apart o s f g r in
        (false, e ∙ ap (λ h. some (h, false)) (sym (joined_lem f g f false e)))
    | inl r ↦
        let (h, c, e, _, _, _) = flat-UpperBound f g r in
        (c, e ∙ ap (λ h. some (h, c)) (sym (joined_lem f g h c e)))
  ]

  -- Without the type-sensitive order of fields, `imply` and `join` of union facts are defined for all
  -- of them, and the union facts have what the environments of facts rely on.
  pub union_laws :
      ((f g : FactUnion) → imply o s f g ≡ some ((union_class o s).imply f g))
      × ((f g : FactUnion) → (c : Bool) × (join o s f g ≡ some ((union_class o s).join f g, c)))
      × FactLaws (union_class o s) (λ f. Unit)
  union_laws = (
    λ f g. imply_flat f g ∙ ap some (sym (flat_value f g)),
    join_defined,
    record {
      related_refl = related_refl;
      related_symm = related_symm;
      related_trans = related_trans;
      imply_refl = λ f. implied-true f f (imply_refl o s f);
      imply_trans = imply_trans;
      join_related = join_related;
      join_left = λ f g d. join_left f g;
      join_right = λ f g d r. join_right f g r;
      join_valid = λ f g d e. tt;
    },
  )
