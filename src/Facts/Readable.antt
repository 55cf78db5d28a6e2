-- ===== src/Facts/Readable.antt =====
-- src/FactUnion.cpp: which fields of a union may be read.
use clsmith.Prelude.{
  ℕ, ◌≡◌, refl, Bool, ◌==◌, sym, ap, ◌∙◌, inl, inr, true, false, Bool-cases, &&_elim, ◌↔◌, Option,
  some, none, List, [], ◌∷◌, pos, arith,
}
use clsmith.Options.{CgOptions}
use clsmith.Types.{CType, SimpleType, pointer, simple}
use clsmith.Types.Size.{size_in_bytes}
use clsmith.Variables.{var_eq, member, Variable, Store}
use clsmith.Variables.Membership.{var_eq_refl}
use clsmith.Facts.{FactClass, find_related_fact}
use clsmith.Facts.Unions.{
  FactUnion, equal, int_eq, is_related, imply, union_class, is_field_readable, is_bitfield,
  is_readable_as,
}
use clsmith.Facts.Fields.{int_eq_refl, int_eq_sound, imply_flat}

found_head :
    {F : Type 0} (c : FactClass F) (g n : F) (facts : List F)
    → c.is_related n g ≡ true
    → find_related_fact c (g ∷ facts) n ≡ some g
unfolding find_related_fact
found_head c g n facts r = rw r refl

found_later :
    {F : Type 0} (c : FactClass F) (g n : F) (facts : List F)
    → c.is_related n g ≡ false
    → find_related_fact c (g ∷ facts) n ≡ find_related_fact c facts n
unfolding find_related_fact
found_later c g n facts r = rw r refl

-- A fact that is found is on the same variable.
found_related :
    {F : Type 0} (c : FactClass F) (facts : List F) (n f : F)
    → find_related_fact c facts n ≡ some f
    → c.is_related n f ≡ true
unfolding find_related_fact
found_related c [] n f h = absurd (ground (arith, h))
found_related c (g ∷ facts) n f h = elim (Bool-cases (c.is_related n g)) [
  | inl r ↦
      let here : some g ≡ some f = sym (found_head c g n facts r) ∙ h in
      let same : g ≡ f = cc in ap (c.is_related n) (sym same) ∙ r
  | inr r ↦ found_related c facts n f (sym (found_later c g n facts r) ∙ h)
]

module _ (o : CgOptions) (s : Store) (flat : o.union_read_type_sensitive ≡ false) where
  abbrev field_fact : Variable → ℕ → FactUnion
  field_fact v fid = record { var = v; last_written_fid = pos fid }

  readable_by :
      (v : Variable) (fid : ℕ) (found : Option FactUnion)
      → ((f : FactUnion) → found ≡ some f → is_related (field_fact v fid) f ≡ true)
      → (b : Bool) × (elim found [ none ↦ some false | some fu ↦ imply o s (field_fact v fid) fu ]
          ≡ some b)
        × ((b ≡ true) ↔ ((f : FactUnion) × (found ≡ some f) × (f.last_written_fid ≡ pos fid)))
  readable_by v fid none k =
      (false, refl, (λ h. absurd (ground (arith, h)), λ (f, e, h). absurd (ground (arith, e))))
  readable_by v fid (some fu) k = (
    _,
    imply_flat o s flat (field_fact v fid) fu,
    (
      λ h. let (r, e) = &&_elim h in (fu, refl, sym (int_eq_sound (pos fid) fu.last_written_fid e)),
      λ (f, e, h).
          let same : fu ≡ f = ground (arith, e) in
          let written : fu.last_written_fid ≡ pos fid = ap (λ x. x.last_written_fid) same ∙ h in
          ground (arith, k fu refl, ap (λ a. int_eq (pos fid) a) written, int_eq_refl (pos fid)),
    ),
  )

  -- Without the type-sensitive order of fields, the test whether a field of a union may be read is
  -- defined, and says yes exactly when the environment has a fact on the union and this fact says
  -- that the field was written last.
  pub is_field_readable_iff :
      (v : Variable) (fid : ℕ) (facts : List FactUnion)
      → (b : Bool) × (is_field_readable o s v fid facts ≡ some b)
        × ((b ≡ true) ↔ (
            (f : FactUnion) × (find_related_fact
                (union_class o s)
                facts
                (record { var = v; last_written_fid = pos fid })
              ≡ some f)
            × (f.last_written_fid ≡ pos fid)))
  unfolding is_field_readable
  is_field_readable_iff v fid facts =
      readable_by v fid (find_related_fact (union_class o s) facts (field_fact v fid))
        (λ f. found_related (union_class o s) facts (field_fact v fid) f)

readable_pointer :
    (t : CType) (u : SimpleType)
    → is_readable_as (some (pointer t)) (some (simple u)) false ≡ some true
unfolding is_readable_as size_in_bytes
readable_pointer t u = ground arith

pointer_implies :
    (o : CgOptions) (s : Store) (v : Variable) (fid written : ℕ) (t : CType) (u : SimpleType)
    → o.union_read_type_sensitive ≡ true
    → (s (member v fid)).type ≡ some (pointer t)
    → (s (member v written)).type ≡ some (simple u)
    → is_bitfield ((s v).type) (pos written) ≡ false
    → imply o s
        (record { var = v; last_written_fid = pos fid })
        (record { var = v; last_written_fid = pos written })
      ≡ some true
unfolding imply is_related equal
pointer_implies o s v fid written t u sensitive pt st regular =
    let r : var_eq v v ≡ true = var_eq_refl v in
    elim (Bool-cases (fid == written)) [
      | inl e ↦ rw (r, e) refl
      | inr e ↦ rw (r, e, sensitive, pt, st, regular) (readable_pointer t u)
    ]

-- In the type-sensitive order, the size of a pointer type counts as zero: a pointer field of a union
-- may be read whenever the field that was written last has a simple type and is no bit-field.
pub pointer_field_readable :
    (o : CgOptions) (s : Store) (v : Variable) (fid written : ℕ) (t : CType) (u : SimpleType)
    (facts : List FactUnion)
    → o.union_read_type_sensitive ≡ true
    → (s (member v fid)).type ≡ some (pointer t)
    → (s (member v written)).type ≡ some (simple u)
    → is_bitfield ((s v).type) (pos written) ≡ false
    → find_related_fact (union_class o s) facts (record { var = v; last_written_fid = pos fid })
      ≡ some (record { var = v; last_written_fid = pos written })
    → is_field_readable o s v fid facts ≡ some true
unfolding is_field_readable
pointer_field_readable o s v fid written t u facts sensitive pt st regular found =
    rw (is_field_readable, found) (pointer_implies o s v fid written t u sensitive pt st regular)
