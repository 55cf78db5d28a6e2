-- ===== src/Facts.antt =====
-- src/Fact.h, src/Fact.cpp: environments of facts, which are vectors with at most one fact about each
-- variable. `Fact` is abstract: its virtual methods are the fields of `FactClass`, and what the
-- environments need of them is `FactLaws`. A function that changes a vector returns the new one, with
-- the flag that it returns in the source.
pub mod Positions
pub mod Environments
pub mod Merging
pub mod PointTo
pub mod Joins
pub mod Pointees
pub mod Dead
pub mod Death
pub mod Unions
pub mod Fields
pub mod Readable
use clsmith.Prelude.{
  ℕ, zero, suc, ◌≡◌, Bool, true, false, not, ◌&&◌, ◌||◌, Option, none, some, List, [], ◌∷◌, ◌==◌,
  if◌then◌else◌, length, ℤ, pos, negsuc,
}

-- The virtual methods. `join f g` and `join_visits f g` are `f` after the call with `g`.
pub record FactClass (F : Type 0) : Type 0 where
  pub is_related : F → F → Bool
  pub equal : F → F → Bool
  pub imply : F → F → Bool
  pub join : F → F → F
  pub join_visits : F → F → F

module _ {F : Type 0} (c : FactClass F) where
  unfoldable pub find_fact_from : ℕ → List F → F → ℤ
  find_fact_from i [] fact = negsuc 0
  find_fact_from i (f ∷ facts) fact =
      let rest = find_fact_from (suc i) facts fact in if c.equal fact f then pos i else rest

  -- The position of the first equal fact, or -1.
  unfoldable pub find_fact : List F → F → ℤ
  find_fact facts fact = find_fact_from 0 facts fact

  unfoldable pub find_related_fact : List F → F → Option F
  find_related_fact [] new_fact = none
  find_related_fact (f ∷ facts) new_fact =
      let rest = find_related_fact facts new_fact in
      if c.is_related new_fact f then some f else rest

  unfoldable pub merge_fact : List F → F → List F × Bool
  merge_fact [] new_fact = (new_fact ∷ [], true)
  merge_fact (f ∷ facts) new_fact =
      let (rest, changed) = merge_fact facts new_fact in
      if c.is_related f new_fact
      then (if not (c.imply f new_fact)
          then (c.join new_fact f ∷ facts, true)
          else (f ∷ facts, false))
      else (f ∷ rest, changed)

  unfoldable pub renew_fact : List F → F → List F × Bool
  renew_fact [] new_fact = (new_fact ∷ [], true)
  renew_fact (f ∷ facts) new_fact =
      let (rest, changed) = renew_fact facts new_fact in
      if c.is_related new_fact f
      then (if c.equal new_fact f then (f ∷ facts, false) else (new_fact ∷ facts, true))
      else (f ∷ rest, changed)

  unfoldable pub merge_facts : List F → List F → List F × Bool
  merge_facts facts [] = (facts, false)
  merge_facts facts (n ∷ new_facts) =
      let (facts1, a) = merge_fact facts n in
      let (facts2, b) = merge_facts facts1 new_facts in (facts2, a || b)

  unfoldable pub renew_facts : List F → List F → List F × Bool
  renew_facts facts [] = (facts, false)
  renew_facts facts (n ∷ new_facts) =
      let (facts1, a) = renew_fact facts n in
      let (facts2, b) = renew_facts facts1 new_facts in (facts2, a || b)

  -- The inner loop of `combine_facts`: the first related fact is joined, and no other.
  unfoldable pub combine_fact : List F → F → List F
  combine_fact [] new_fact = []
  combine_fact (f ∷ facts1) new_fact =
      let rest = combine_fact facts1 new_fact in
      if c.is_related f new_fact then c.join_visits f new_fact ∷ facts1 else f ∷ rest

  unfoldable pub combine_facts : List F → List F → List F
  combine_facts facts1 [] = facts1
  combine_facts facts1 (n ∷ facts2) = combine_facts (combine_fact facts1 n) facts2

  abbrev is_found : ℤ → Bool
  is_found (pos _) = true
  is_found (negsuc _) = false

  unfoldable pub all_found : List F → List F → Bool
  all_found [] facts2 = true
  all_found (f ∷ facts1) facts2 = is_found (find_fact facts2 f) && all_found facts1 facts2

  unfoldable pub same_facts : List F → List F → Bool
  same_facts facts1 facts2 = length facts1 == length facts2 && all_found facts1 facts2

  unfoldable pub all_implied : List F → List F → Bool
  all_implied [] facts2 = true
  all_implied (f1 ∷ facts1) facts2 =
      elim (find_related_fact facts2 f1) [ none ↦ false | some f2 ↦ c.imply f2 f1 ]
      && all_implied facts1 facts2

  unfoldable pub subset_facts : List F → List F → Bool
  subset_facts facts1 facts2 = length facts1 == length facts2 && all_implied facts1 facts2

-- What the environments rely on: to be about the same variable is an equivalence, a fact implies
-- what the facts that it implies do, and a join implies both facts that it is made of. A fact that
-- is `IsValid` lists nothing twice.
pub record FactLaws {F : Type 0} (c : FactClass F) (IsValid : F → Type 0) : Type 0 where
  pub related_refl : (f : F) → c.is_related f f ≡ true
  pub related_symm : (f g : F) → c.is_related f g ≡ c.is_related g f
  pub related_trans : (f g h : F) → c.is_related f g ≡ true → c.is_related f h ≡ c.is_related g h
  pub imply_refl : (f : F) → c.imply f f ≡ true
  pub imply_trans : (f g h : F) → c.imply f g ≡ true → c.imply g h ≡ true → c.imply f h ≡ true
  pub join_related : (f g h : F) → c.is_related (c.join f g) h ≡ c.is_related f h
  pub join_left : (f g : F) → IsValid f → c.imply (c.join f g) f ≡ true
  pub join_right : (f g : F) → IsValid g → c.is_related f g ≡ true → c.imply (c.join f g) g ≡ true
  pub join_valid : (f g : F) → IsValid f → IsValid g → IsValid (c.join f g)
