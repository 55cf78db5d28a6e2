-- ===== src/Effects/Consolidation.antt =====
-- src/Effect.cpp: `consolidate` drops a field whose parent is covered, and loses no write by it.
use clsmith.Prelude.{
  ℕ, suc, ◌≤◌, ◌≡◌, refl, sym, ap, ◌∙◌, inl, inr, Bool, true, false, ◌||◌, List, [], ◌∷◌, ◌++◌,
  Bool-cases, All, arith,
}
use clsmith.Variables.{Variable, named, member, Store, var_eq}
use clsmith.Variables.Sets.{is_variable_in_set}
use clsmith.Variables.Membership.{var_eq_sound, is_variable_in_set-append}
use clsmith.Effects.{
  Effect, covers, drop_covered, through_struct, through_all, is_read, is_written, consolidate,
}
use clsmith.Effects.Coverage.{covers-append, covers_trans}

abbrev nesting : Variable → ℕ
nesting (named i) = 0
nesting (member p i) = suc (nesting p)

module _ (through : Variable → Bool) where
  -- A variable covers only what is nested in it.
  nesting-covers : (x v : Variable) → covers through (x ∷ []) v ≡ true → nesting x ≤ nesting v
  unfolding covers is_variable_in_set
  nesting-covers x (named i) h =
      let same : x ≡ named i = var_eq_sound x (named i) (ground arith) in
      omega (arith, ap nesting same)
  nesting-covers x (member p i) h = elim (Bool-cases (var_eq x (member p i))) [
    | inl e ↦ omega (arith, ap nesting (var_eq_sound x (member p i) e))
    | inr e ↦ omega (arith, nesting-covers x p (ground arith))
  ]

  field_covers_no_parent : (p : Variable) (i : ℕ) → covers through (member p i ∷ []) p ≡ false
  field_covers_no_parent p i = elim (Bool-cases (covers through (member p i ∷ []) p)) [
    | inl h ↦ absurd (omega (arith, nesting-covers (member p i) p h))
    | inr h ↦ h
  ]

  -- What a loop of `consolidate` may drop: a field of a parent that carries its fields along.
  abbrev pub Carried : Variable → Type 0
  Carried (named i) = Unit
  Carried (member p i) = through p ≡ true

  covers-middle :
      (before rest : List Variable) (x v : Variable)
      → covers through (before ++ (x ∷ rest)) v
        ≡ (covers through (before ++ rest) v || covers through (x ∷ []) v)
  covers-middle before rest x v = ground (
    arith,
    covers-append through before (x ∷ rest) v,
    covers-append through (x ∷ []) rest v,
    covers-append through before rest v,
  )

  dropped :
      (before rest : List Variable) (p : Variable) (i : ℕ) (v : Variable)
      → through p ≡ true
      → covers through (before ++ (member p i ∷ rest)) p ≡ true
      → covers through (before ++ rest) v ≡ covers through (before ++ (member p i ∷ rest)) v
  unfolding covers
  dropped before rest p i v t h =
      let parent : covers through (before ++ rest) p ≡ true =
        ground (arith, covers-middle before rest (member p i) p, field_covers_no_parent p i) in
      let itself : covers through (before ++ rest) (member p i) ≡ true = ground arith in
      ground (
        arith,
        covers-middle before rest (member p i) v,
        covers_trans through (before ++ rest) (member p i) v itself,
      )

  append_nil : (before : List Variable) → before ++ [] ≡ before
  append_nil [] = refl
  append_nil (y ∷ before) = ap (λ zs. y ∷ zs) (append_nil before)

  append_step :
      (before rest : List Variable) (x : Variable)
      → (before ++ (x ∷ [])) ++ rest ≡ before ++ (x ∷ rest)
  append_step [] rest x = refl
  append_step (y ∷ before) rest x = ap (λ zs. y ∷ zs) (append_step before rest x)

  pub covers-drop_covered :
      (before rest : List Variable) (v : Variable)
      → All Carried rest
      → covers through (drop_covered through before rest) v ≡ covers through (before ++ rest) v
  unfolding drop_covered
  covers-drop_covered before [] v c = ap (λ vs. covers through vs v) (sym (append_nil before))
  covers-drop_covered before (named i ∷ rest) v c =
      covers-drop_covered (before ++ (named i ∷ [])) rest v c.1
      ∙ ap (λ vs. covers through vs v) (append_step before rest (named i))
  covers-drop_covered before (member p i ∷ rest) v c =
      elim (Bool-cases (covers through (before ++ (member p i ∷ rest)) p)) [
        | inl h ↦
            rw (drop_covered, h)
              (covers-drop_covered before rest v c.1 ∙ dropped before rest p i v c.0 h)
        | inr h ↦
            rw (drop_covered, h)
              (covers-drop_covered (before ++ (member p i ∷ [])) rest v c.1
                ∙ ap (λ vs. covers through vs v) (append_step before rest (member p i)))
      ]

All-Carried : (vs : List Variable) → All (Carried through_all) vs
All-Carried [] = tt
All-Carried (named i ∷ vs) = (tt, All-Carried vs)
All-Carried (member p i ∷ vs) = (refl, All-Carried vs)

-- Consolidation keeps what is written. It keeps what is read where every field that is read is one
-- of a struct.
pub consolidate_coverage :
    (s : Store) (e : Effect) (v : Variable)
    → All (Carried (through_struct s)) e.read_vars
    → (is_written (consolidate s e) v ≡ is_written e v)
      × (is_read s (consolidate s e) v ≡ is_read s e v)
unfolding consolidate
consolidate_coverage s e v c = (
  covers-drop_covered through_all [] e.write_vars v (All-Carried e.write_vars),
  covers-drop_covered (through_struct s) [] e.read_vars v c,
)

-- The union of a field is no field, so it stays in the set, and the field is dropped for it.
module _ (through : Variable → Bool) (k i : ℕ) where
  other_field :
      (before rest : List Variable) (p : Variable) (j : ℕ)
      → is_variable_in_set before (member (named k) i) ≡ false
      → is_variable_in_set (before ++ (member p j ∷ rest)) (named k) ≡ true
      → covers through (before ++ (member p j ∷ rest)) p ≡ false
      → is_variable_in_set (before ++ (member p j ∷ [])) (member (named k) i) ≡ false
  unfolding is_variable_in_set covers
  other_field before rest p j a b h = elim (Bool-cases (var_eq (member p j) (member (named k) i))) [
    | inl e ↦
        let same : member p j ≡ member (named k) i =
          var_eq_sound (member p j) (member (named k) i) e in
        let union : p ≡ named k = cc in
        let found : covers through (before ++ (member p j ∷ rest)) (named k) ≡ false =
          sym (ap (λ q. covers through (before ++ (member p j ∷ rest)) q) union) ∙ h in
        absurd (ground (arith, found, b))
    | inr e ↦
        ground
          (arith, a, e, is_variable_in_set-append before (member p j ∷ []) (member (named k) i))
  ]

  union_field-drop_covered :
      (before rest : List Variable)
      → is_variable_in_set before (member (named k) i) ≡ false
      → is_variable_in_set (before ++ rest) (named k) ≡ true
      → (is_variable_in_set (drop_covered through before rest) (member (named k) i) ≡ false)
        × (is_variable_in_set (drop_covered through before rest) (named k) ≡ true)
  unfolding drop_covered is_variable_in_set var_eq
  union_field-drop_covered before [] a b =
      (a, ground (arith, b, is_variable_in_set-append before [] (named k)))
  union_field-drop_covered before (named j ∷ rest) a b =
      union_field-drop_covered (before ++ (named j ∷ [])) rest
        (ground (arith, a, is_variable_in_set-append before (named j ∷ []) (member (named k) i)))
        (ap (λ vs. is_variable_in_set vs (named k)) (append_step through before rest (named j)) ∙ b)
  union_field-drop_covered before (member p j ∷ rest) a b =
      elim (Bool-cases (covers through (before ++ (member p j ∷ rest)) p)) [
        | inl h ↦
            rw (drop_covered, h)
              (union_field-drop_covered before rest a (
                ground (
                  arith,
                  b,
                  is_variable_in_set-append before (member p j ∷ rest) (named k),
                  is_variable_in_set-append before rest (named k),
                )))
        | inr h ↦
            rw (drop_covered, h)
              (union_field-drop_covered (before ++ (member p j ∷ [])) rest
                (other_field before rest p j a b h)
                (ap (λ vs. is_variable_in_set vs (named k))
                    (append_step through before rest (member p j))
                  ∙ b))
      ]

-- Where a union that is no field itself is among what is read, consolidation drops the reads of its
-- fields: the union is read afterwards, and none of its fields is.
pub consolidate-union_field :
    (s : Store) (e : Effect) (k i : ℕ)
    → through_struct s (named k) ≡ false
    → is_variable_in_set e.read_vars (named k) ≡ true
    → (is_read s (consolidate s e) (named k) ≡ true)
      × (is_read s (consolidate s e) (member (named k) i) ≡ false)
unfolding consolidate is_variable_in_set covers
consolidate-union_field s e k i u r =
    let (a, b) = union_field-drop_covered (through_struct s) k i [] e.read_vars refl r in
    (b, ground (arith, a, u))
