-- ===== src/Divergence/Maps.antt =====
-- src/CLSmith/Divergence.cpp: the maps to `bool` and their merge.
use clsmith.Prelude.{
  ◌≡◌, refl, ◌∙◌, ◌↔◌, inl, inr, Bool, true, false, not, ◌&&◌, ◌||◌, Option, none, some, [], ◌∷◌,
  if◌then◌else◌, Bool-cases, ||_elim, arith,
}
use clsmith.Divergence.{Key, DivMap, find, put, at, merge_map, is_set}

-- What the entry becomes in a merge: a missing one counts as false where the other is there.
abbrev pub join : Option Bool → Option Bool → Option Bool
join a none = a
join none (some b) = some b
join (some a) (some b) = some (a || b)

join-none : (a : Option Bool) → join a none ≡ a
join-none none = refl
join-none (some a) = refl

module _ {K : Type 0} ⦃key : Key K⦄ where
  -- No key stands in the map twice.
  abbrev pub IsMap : DivMap K → Type 0
  IsMap [] = Unit
  IsMap ((k, b) ∷ m) = (find m k ≡ none) × IsMap m

  eq_symm_false : (i k : K) → key.eq i k ≡ false → key.eq k i ≡ false
  eq_symm_false i k h = elim (Bool-cases (key.eq k i)) [
    | inl e ↦
        let same : k ≡ i = key.eq_sound k i e in
        let t : key.eq k k ≡ false = rw (← same) at h in ground (arith, t, key.eq_refl k)
    | inr e ↦ e
  ]

  apart : (i k j : K) → key.eq i k ≡ false → key.eq k j ≡ true → key.eq i j ≡ false
  apart i k j h e = let same : k ≡ j = key.eq_sound k j e in rw (← same) h

  pub find-put :
      (m : DivMap K) (k j : K) (b : Bool)
      → find (put m k b) j ≡ (if key.eq k j then some b else find m j)
  unfolding find put
  find-put [] k j b = refl
  find-put ((i, c) ∷ m) k j b = elim (Bool-cases (key.eq i k)) [
    | inl e ↦
        let same : i ≡ k = key.eq_sound i k e in rw (same, put, key.eq_refl k, find) (ground arith)
    | inr e ↦ elim (Bool-cases (key.eq k j)) [
      | inl f ↦ rw (put, e, find, find-put m k j b, f, apart i k j e f) refl
      | inr f ↦ rw (put, e, find, find-put m k j b, f) refl
    ]
  ]

  pub IsMap-put : (m : DivMap K) (k : K) (b : Bool) → IsMap m → IsMap (put m k b)
  unfolding find put
  IsMap-put [] k b h = (refl, tt)
  IsMap-put ((i, c) ∷ m) k b (n, h) = elim (Bool-cases (key.eq i k)) [
    | inl e ↦ rw (put, e) (n, h)
    | inr e ↦ rw (put, e) (rw (find-put m k i b, eq_symm_false i k e) n, IsMap-put m k b h)
  ]

  -- The merge of an entry into a map, in which the merged map is not yet looked at.
  join-put :
      (saved : DivMap K) (k j : K) (b : Bool) (o : Option Bool)
      → (key.eq k j ≡ true → o ≡ none)
      → join (find (put saved k (at saved k || b)) j) o
        ≡ join (find saved j) (if key.eq k j then some b else o)
  join-put saved k j b o h = elim (Bool-cases (key.eq k j)) [
    | inl e ↦
        let same : k ≡ j = key.eq_sound k j e in
        rw (find-put saved k j (at saved k || b), e, h e, same) (entry (find saved j) b)
    | inr e ↦ rw (find-put saved k j (at saved k || b), e) refl
  ]
    where
      entry : (a : Option Bool) (b : Bool) → some (is_set a || b) ≡ join a (some b)
      entry none b = refl
      entry (some a) b = refl

  -- `MergeMap` takes the disjunction of both entries, where a missing one counts as false.
  pub find-merge_map :
      (saved merger : DivMap K) (j : K)
      → IsMap merger
      → find (merge_map saved merger).0 j ≡ join (find saved j) (find merger j)
  unfolding merge_map find
  find-merge_map saved [] j h = rw (join-none (find saved j)) refl
  find-merge_map saved ((k, b) ∷ m) j (n, h) =
      find-merge_map (put saved k (at saved k || b)) m j h
      ∙ join-put saved k j b (find m j)
          (λ e. let same : k ≡ j = key.eq_sound k j e in rw (← same) n)

  pub IsMap-merge_map : (saved merger : DivMap K) → IsMap saved → IsMap (merge_map saved merger).0
  unfolding merge_map
  IsMap-merge_map saved [] h = h
  IsMap-merge_map saved ((k, b) ∷ m) h =
      IsMap-merge_map (put saved k (at saved k || b)) m (IsMap-put saved k (at saved k || b) h)

  -- A key whose entry the merge turns from false to true.
  abbrev pub TurnsTrue : DivMap K → DivMap K → K → Type 0
  TurnsTrue saved merger k = (at saved k ≡ false) × (at merger k ≡ true)

  at-put :
      (m : DivMap K) (k j : K) (b : Bool) → at (put m k b) j ≡ (if key.eq k j then b else at m j)
  at-put m k j b = elim (Bool-cases (key.eq k j)) [
    | inl e ↦ rw (find-put m k j b, e) refl
    | inr e ↦ rw (find-put m k j b, e) refl
  ]

  -- Which keys turn true when an entry is merged first.
  TurnsTrue-put :
      (saved m : DivMap K) (k j : K) (b : Bool)
      → find m k ≡ none
      → TurnsTrue (put saved k (at saved k || b)) m j ↔ (TurnsTrue saved m j)
  unfolding find
  TurnsTrue-put saved m k j b n = elim (Bool-cases (key.eq k j)) [
    | inl e ↦
        let same : k ≡ j = key.eq_sound k j e in
        let gone : at m j ≡ false = rw (← same, n) refl in
        (λ (x, y). absurd (ground (arith, y, gone)), λ (x, y). absurd (ground (arith, y, gone)))
    | inr e ↦
        let same : at (put saved k (at saved k || b)) j ≡ at saved j =
          rw (at-put saved k j (at saved k || b), e) refl in
        (λ (x, y). (ground (arith, x, same), y), λ (x, y). (ground (arith, x, same), y))
  ]

  -- A key that is in the map is not one that is missing.
  other : (k j : K) (m : DivMap K) → find m k ≡ none → at m j ≡ true → key.eq k j ≡ false
  other k j m n y = elim (Bool-cases (key.eq k j)) [
    | inl e ↦
        let same : k ≡ j = key.eq_sound k j e in
        let gone : at m j ≡ false = rw (← same, n) refl in absurd (ground (arith, y, gone))
    | inr e ↦ e
  ]

  -- The flag of `MergeMap` is true exactly when some entry became true.
  pub change-merge_map :
      (saved merger : DivMap K)
      → IsMap merger
      → ((merge_map saved merger).1 ≡ true) ↔ ((k : K) × TurnsTrue saved merger k)
  unfolding merge_map find
  change-merge_map saved [] h =
      (λ e. absurd (ground (arith, e)), λ (k, t). absurd (ground (arith, t.1)))
  change-merge_map saved ((k, b) ∷ m) (n, h) =
      let rest = change-merge_map (put saved k (at saved k || b)) m h in
      (
        λ e.
            elim (||_elim {a = not (at saved k) && b}
              {b = (merge_map (put saved k (at saved k || b)) m).1} e) [
                | inl now ↦
                    (k, (ground (arith, now), rw (find, key.eq_refl k) (ground (arith, now))))
                | inr later ↦
                    let (j, t) = rest.0 later in
                    let (x, y) = (TurnsTrue-put saved m k j b n).0 t in
                    (j, (x, rw (find, other k j m n y) y))
              ],
        λ (j, (x, y)). elim (Bool-cases (key.eq k j)) [
          | inl e ↦
              let same : k ≡ j = key.eq_sound k j e in
              let d : at saved k ≡ false = rw same x in
              let here : b ≡ true = rw (find, e) at y in ground (arith, d, here)
          | inr e ↦
              let later : (merge_map (put saved k (at saved k || b)) m).1 ≡ true =
                rest.1 (j, (TurnsTrue-put saved m k j b n).1 (x, rw (find, e) at y)) in
              ground (arith, later)
        ],
      )
