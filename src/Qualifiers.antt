-- ===== src/Qualifiers.antt =====
-- src/CVQualifiers.h, src/CVQualifiers.cpp: the const and volatile qualifiers of a type, one pair
-- for each level of indirection. The last pair qualifies the variable itself and the first one the
-- storage that its pointers lead to. `none` stands for a failed `assert` or a `pop_back` on an
-- empty vector.
pub mod LevelLists
pub mod Levels
pub mod Generate
pub mod Loosen
pub mod Order
pub mod Chosen
pub mod Fresh
pub mod Fits
pub mod Indirection
use clsmith.Prelude.{
  ℕ, zero, suc, ◌-◌, Bool, true, false, not, ◌&&◌, ◌||◌, Option, none, some, List, [], ◌∷◌, ◌++◌,
  length, get_elem?, get_or, set, pop_back, ltb, ◌==◌, if◌then◌else◌, differ, ℤ, pos, negsuc, sub_ℕ,
}
use clsmith.Options.{CgOptions}

pub record CvQualifiers : Type 0 where
  pub wildcard : Bool
  pub accept_stricter : Bool
  pub is_consts : List Bool
  pub is_volatiles : List Bool

pub data Access : Type 0 where
  read write : Access

abbrev pub is_write : Access → Bool
is_write write = true
is_write read = false

-- `CVQualifiers(isConsts, isVolatiles)`.
abbrev pub of_levels : List Bool → List Bool → CvQualifiers
of_levels cs vs = record {
  wildcard = false;
  accept_stricter = false;
  is_consts = cs;
  is_volatiles = vs;
}

-- The loop of `stricter_than` over one kind of qualifier; `depth - i` is the length of what is left.
-- The lists have one length there.
unfoldable pub levels_stricter : List Bool → List Bool → Bool
levels_stricter (m ∷ ms) (v ∷ vs) =
    if ltb 2 (length (m ∷ ms)) && differ m v
    then false
    else if v && not m
    then false
    else levels_stricter ms vs
levels_stricter _ _ = true

-- What `stricter_than` returns past its assertion.
unfoldable pub is_stricter : CvQualifiers → CvQualifiers → Bool
unfolding levels_stricter
is_stricter q r =
    if not (length q.is_consts == length r.is_consts)
      || not (length q.is_volatiles == length r.is_volatiles)
    then false
    else if not (levels_stricter q.is_consts r.is_consts)
    then false
    else if ltb 1 (length q.is_consts)
        && differ (get_or q.is_volatiles 0 false) (get_or r.is_volatiles 0 false)
    then false
    else levels_stricter q.is_volatiles r.is_volatiles

-- It asserts that there are as many const levels as volatile ones.
abbrev pub is_paired : CvQualifiers → Bool
is_paired q = length q.is_consts == length q.is_volatiles

unfoldable pub stricter_than : CvQualifiers → CvQualifiers → Option Bool
unfolding is_stricter
stricter_than q r = if is_paired q then some (is_stricter q r) else none

-- `vector<bool>::operator==`.
unfoldable pub levels_equal : List Bool → List Bool → Bool
levels_equal [] [] = true
levels_equal (x ∷ xs) (y ∷ ys) = not (differ x y) && levels_equal xs ys
levels_equal _ _ = false

-- The last test is `(!accept_stricter && stricter_than(qfer)) || (accept_stricter && ...)`, of which
-- one call is made.
unfoldable pub matches : CgOptions → CvQualifiers → CvQualifiers → Option Bool
unfolding levels_equal stricter_than
matches o q r =
    if q.wildcard
    then some true
    else if o.match_exact_qualifiers
    then some (levels_equal q.is_consts r.is_consts && levels_equal q.is_volatiles r.is_volatiles)
    else if length q.is_consts == length r.is_consts && length q.is_consts == 1
    then (if is_paired q then some true else none)
    else if q.accept_stricter
    then stricter_than r q
    else stricter_than q r

unfoldable pub add_qualifiers : CvQualifiers → Bool → Bool → CvQualifiers
add_qualifiers q c v = record q {
  is_consts = q.is_consts ++ c ∷ [];
  is_volatiles = q.is_volatiles ++ v ∷ [];
}

unfoldable pub remove_qualifiers : ℕ → CvQualifiers → Option CvQualifiers
remove_qualifiers zero q = some q
remove_qualifiers (suc n) q = elim (pop_back q.is_consts) [
  | none ↦ none
  | some cs ↦ elim (pop_back q.is_volatiles) [
    | none ↦ none
    | some vs ↦ remove_qualifiers n (record q { is_consts = cs; is_volatiles = vs })
  ]
]

unfoldable pub indirect_qualifiers : CvQualifiers → ℤ → Option CvQualifiers
unfolding add_qualifiers remove_qualifiers
indirect_qualifiers q (pos zero) = some q
indirect_qualifiers q (negsuc zero) =
    if q.wildcard then some q else some (add_qualifiers q false false)
indirect_qualifiers q (negsuc (suc n)) = if q.wildcard then some q else none
indirect_qualifiers q (pos (suc n)) = if q.wildcard then some q else remove_qualifiers (suc n) q

-- The end of `match_indirect`, past its early returns.
unfoldable pub match_after_deref : CgOptions → CvQualifiers → CvQualifiers → ℤ → Option Bool
match_after_deref o q r (negsuc (suc n)) = some false
match_after_deref o q r d = elim (indirect_qualifiers r d) [
  | none ↦ none
  | some r' ↦ matches o q r'
]

unfoldable pub match_indirect : CgOptions → CvQualifiers → CvQualifiers → Option Bool
unfolding match_after_deref
match_indirect o q r =
    if q.wildcard
    then some true
    else if length q.is_consts == length r.is_consts
    then matches o q r
    else match_after_deref o q r (sub_ℕ (length r.is_consts) (length q.is_consts))

-- `is_consts[len - deref_level - 1]`, past the assertion that the level exists.
unfoldable pub level_after_deref : List Bool → ℤ → Option Bool
level_after_deref ls (negsuc n) = some false
level_after_deref ls (pos d) = if ltb d (length ls) then get_elem? ls (length ls - d - 1) else none

abbrev pub is_const_after_deref : CvQualifiers → ℤ → Option Bool
is_const_after_deref q d = level_after_deref q.is_consts d

abbrev pub is_volatile_after_deref : CvQualifiers → ℤ → Option Bool
is_volatile_after_deref q d = level_after_deref q.is_volatiles d

-- `set_const` and `set_volatile`; every caller but the tests passes `pos` 0.
unfoldable pub set_const : CvQualifiers → Bool → ℕ → CvQualifiers
set_const q b i =
    if ltb 0 (length q.is_consts)
    then record q { is_consts = set q.is_consts (length q.is_consts - i - 1) b }
    else q

unfoldable pub set_volatile : CvQualifiers → Bool → ℕ → CvQualifiers
set_volatile q b i =
    if ltb 0 (length q.is_volatiles)
    then record q { is_volatiles = set q.is_volatiles (length q.is_volatiles - i - 1) b }
    else q

-- The context is passed as the flag that `restrict` reads of it.
unfoldable pub restrict : CvQualifiers → Access → Bool → CvQualifiers
unfolding set_const set_volatile
restrict q access side_effect_free =
    let q' = if is_write access then set_const q false 0 else q in
    if not side_effect_free then set_volatile q' false 0 else q'

-- `sanity_check` on a type of the given indirection level.
unfoldable pub sanity_check : CvQualifiers → ℕ → Bool
sanity_check q level =
    q.wildcard || (length q.is_consts == length q.is_volatiles && suc level == length q.is_consts)
