-- ===== src/Tests/Qualifiers.antt =====
-- src/CVQualifiers.cpp on qualifiers of pointers.
use clsmith.Prelude.{
  ℕ, ◌%◌, ◌≡◌, refl, ◌↔◌, Bool, true, false, some, [], ◌∷◌, length, ◌<◌, get_or, ◌≤◌, pos, negsuc,
  ◌*◌, ◌+◌, arith, none, ◌==◌,
}
use clsmith.Options.{CgOptions, Probabilities}
use clsmith.Qualifiers.{
  CvQualifiers, write, stricter_than, is_stricter, indirect_qualifiers, match_indirect, matches,
  sanity_check, is_const_after_deref, is_volatile_after_deref, levels_stricter, add_qualifiers,
  remove_qualifiers,
}
use clsmith.Qualifiers.Generate.{random_qualifiers}
use clsmith.Qualifiers.Fresh.{random_type_qualifiers}
use clsmith.Qualifiers.Levels.{IsStricter}
use clsmith.Qualifiers.Order.{stricter_than_iff, stricter_than_partial_order}
use clsmith.Qualifiers.Chosen.{matches-random_qualifiers}
use clsmith.Qualifiers.Fits.{Fits, random_type_qualifiers-Fits}
use clsmith.Qualifiers.Indirection.{
  indirect_qualifiers-deref, indirect_qualifiers_round_trip, match_indirect_total,
}

-- A generator with a short period.
abbrev lcg : ℕ → ℕ
lcg k = (k * 37 + 11) % 100

abbrev options : CgOptions
options = record {
  match_exact_qualifiers = false;
  volatile_pointers = true;
  const_pointers = true;
  allow_const_volatile = true;
  strict_volatile_rule = true;
  union_read_type_sensitive = true;
  int_size = 4;
}

abbrev chances : Probabilities
chances = record {
  regular_volatile_prob = 50;
  regular_const_prob = 10;
  stricter_const_prob = 50;
  looser_const_prob = 50;
}

-- `const int * volatile *`.
abbrev deep : CvQualifiers
deep = record {
  wildcard = false;
  accept_stricter = false;
  is_consts = true ∷ false ∷ false ∷ [];
  is_volatiles = false ∷ true ∷ false ∷ [];
}

abbrev const_deep : CvQualifiers
const_deep = record deep { is_consts = true ∷ true ∷ true ∷ [] }

abbrev pointed : CvQualifiers
pointed = record deep { is_consts = true ∷ false ∷ []; is_volatiles = false ∷ true ∷ [] }

const_is_stricter :
    (stricter_than const_deep deep ≡ some true) × (stricter_than deep const_deep ≡ some false)
unfolding stricter_than is_stricter levels_stricter
const_is_stricter = (refl, refl)

deep_after_deref : indirect_qualifiers deep (pos 1) ≡ some pointed
unfolding indirect_qualifiers remove_qualifiers
deep_after_deref = refl

stricter_than_iff_example :
    ((stricter_than const_deep deep ≡ none)
      ↔ ((length const_deep.is_consts == length const_deep.is_volatiles) ≡ false))
    × ((stricter_than const_deep deep ≡ some true) ↔ (
        (length const_deep.is_consts ≡ length const_deep.is_volatiles)
        × (length const_deep.is_consts ≡ length deep.is_consts)
        × (length const_deep.is_volatiles ≡ length deep.is_volatiles)
        × IsStricter const_deep.is_consts deep.is_consts
        × (1 < length const_deep.is_consts
            → get_or const_deep.is_volatiles 0 false ≡ get_or deep.is_volatiles 0 false)
        × IsStricter const_deep.is_volatiles deep.is_volatiles))
stricter_than_iff_example = stricter_than_iff const_deep deep

stricter_than_partial_order_example :
    (length const_deep.is_consts ≡ length const_deep.is_volatiles
      → stricter_than const_deep const_deep ≡ some true)
    × (stricter_than const_deep deep ≡ some true
        → stricter_than deep deep ≡ some true
        → stricter_than const_deep deep ≡ some true)
    × (stricter_than const_deep deep ≡ some true
        → stricter_than deep const_deep ≡ some true
        → (const_deep.is_consts ≡ deep.is_consts) × (const_deep.is_volatiles ≡ deep.is_volatiles))
stricter_than_partial_order_example = stricter_than_partial_order const_deep deep deep

-- A volatile level is missing.
abbrev unpaired : CvQualifiers
unpaired = record deep { is_consts = false ∷ false ∷ []; is_volatiles = false ∷ [] }

unpaired_fails : stricter_than unpaired deep ≡ none
unfolding stricter_than
unpaired_fails = refl

matches-random_qualifiers_example :
    matches options deep ((random_qualifiers lcg options chances deep false write false 3).0)
    ≡ some true
matches-random_qualifiers_example =
    matches-random_qualifiers lcg options chances deep write false 3 (refl, refl) refl refl
      (λ h. absurd (ground (arith, h)))

random_type_qualifiers-Fits_example :
    Fits options 2 write false true
      ((random_type_qualifiers lcg options 10 50 2 write false true 3).0)
random_type_qualifiers-Fits_example =
    random_type_qualifiers-Fits lcg options 10 50 2 write false true 3

deep_is_sane : sanity_check deep 2 ≡ true
unfolding sanity_check
deep_is_sane = refl

indirect_qualifiers-deref_example :
    (r : CvQualifiers) × (indirect_qualifiers deep (pos 1) ≡ some r)
    × (sanity_check r 1 ≡ true)
    × ((d : ℕ)
        → d ≤ 1
        → (is_const_after_deref r (pos d) ≡ is_const_after_deref deep (pos (1 + d)))
          × (is_volatile_after_deref r (pos d) ≡ is_volatile_after_deref deep (pos (1 + d))))
indirect_qualifiers-deref_example = indirect_qualifiers-deref deep 1 1 refl deep_is_sane

abbrev address_of_pointed : CvQualifiers
address_of_pointed = record pointed {
  is_consts = true ∷ false ∷ false ∷ [];
  is_volatiles = false ∷ true ∷ false ∷ [];
}

address_taken : indirect_qualifiers pointed (negsuc 0) ≡ some address_of_pointed
unfolding indirect_qualifiers add_qualifiers
address_taken = refl

indirect_qualifiers_round_trip_example :
    indirect_qualifiers address_of_pointed (pos 1) ≡ some pointed
indirect_qualifiers_round_trip_example =
    indirect_qualifiers_round_trip pointed address_of_pointed address_taken

match_indirect_total_example : (b : Bool) × (match_indirect options pointed deep ≡ some b)
match_indirect_total_example = match_indirect_total options pointed deep refl refl
