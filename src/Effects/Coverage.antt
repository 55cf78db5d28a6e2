-- ===== src/Effects/Coverage.antt =====
-- src/Effect.cpp: what the search of `is_read` and `is_written` finds when variables come in.
use clsmith.Prelude.{
  sym, ap, ◌∙◌, ◌≡◌, refl, inl, inr, Bool, true, false, ◌||◌, List, [], ◌∷◌, ◌++◌, Bool-cases,
  arith,
}
use clsmith.Variables.{Variable, named, member, var_eq}
use clsmith.Variables.Sets.{is_variable_in_set}
use clsmith.Variables.Membership.{var_eq_sound, var_eq_refl, is_variable_in_set-append}
use clsmith.Effects.{covers, push, push_all}

module _ (through : Variable → Bool) where
  pub covers-append :
      (vs ws : List Variable) (v : Variable)
      → covers through (vs ++ ws) v ≡ (covers through vs v || covers through ws v)
  unfolding covers
  covers-append vs ws (named i) = is_variable_in_set-append vs ws (named i)
  covers-append vs ws (member p i) =
      ground (arith, is_variable_in_set-append vs ws (member p i), covers-append vs ws p)

  pub covers-[] : (v : Variable) → covers through [] v ≡ false
  unfolding covers is_variable_in_set
  covers-[] (named i) = refl
  covers-[] (member p i) = ground (arith, covers-[] p)

  -- A set that covers a variable covers all that the variable covers.
  pub covers_trans :
      (vs : List Variable) (x v : Variable)
      → covers through vs x ≡ true
      → covers through (x ∷ []) v ≡ true
      → covers through vs v ≡ true
  unfolding covers is_variable_in_set
  covers_trans vs x (named i) h c =
      let same : x ≡ named i = var_eq_sound x (named i) (ground arith) in
      ap (covers through vs) (sym same) ∙ h
  covers_trans vs x (member p i) h c = elim (Bool-cases (var_eq x (member p i))) [
    | inl e ↦
        let same : x ≡ member p i = var_eq_sound x (member p i) e in
        ap (covers through vs) (sym same) ∙ h
    | inr e ↦ ground (arith, covers_trans vs x p h)
  ]

  pub covers-push :
      (vs : List Variable) (x v : Variable)
      → covers through (push through vs x) v ≡ (covers through vs v || covers through (x ∷ []) v)
  unfolding push
  covers-push vs x v = ground (arith, covers-append vs (x ∷ []) v, covers_trans vs x v)

  pub covers-push_all :
      (vs ws : List Variable) (v : Variable)
      → covers through (push_all through vs ws) v ≡ (covers through vs v || covers through ws v)
  unfolding push_all
  covers-push_all vs [] v = ground (arith, covers-[] v)
  covers-push_all vs (w ∷ ws) v = ground (
    arith,
    covers-push_all (push through vs w) ws v,
    covers-push vs w v,
    covers-append (w ∷ []) ws v,
  )

  pub covers_refl : (v : Variable) → covers through (v ∷ []) v ≡ true
  unfolding covers is_variable_in_set
  covers_refl (named i) = ground (arith, var_eq_refl (named i))
  covers_refl (member p i) = ground (arith, var_eq_refl (member p i))
