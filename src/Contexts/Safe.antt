-- ===== src/Contexts/Safe.antt =====
-- src/CGContext.cpp: what has been made never conflicts with the context.
use mathlib.Core.Option.{some-injective}
use clsmith.Prelude.{
  Bool, true, false, ap, ◌≡◌, inl, inr, refl, false, ℕ, List, [], ◌∷◌, Option, none, some,
  Bool-cases, arith,
}
use clsmith.Variables.{Variable, named, member, Store, get_collective, is_array_field}
use clsmith.Effects.{Effect, read_var, write_var}
use clsmith.Contexts.{
  CgContext, in_conflict, is_nonreadable, is_nonwritable, on_effects, read_conflict, write_conflict,
  context_read_var, context_write_var,
}
use clsmith.Contexts.Checks.{Environment, Outcome, succeeds, Indices, visit_indices, read_indices}
use clsmith.Contexts.Conflicts.{IsFree, IsFree-read_var, IsFree-write_var}

module _ (s : Store) (depth : ℕ) where
  -- The two effects that are being made do not conflict with the context.
  pub record IsSafe (c : CgContext) : Type 0 where
    pub stm : IsFree s depth c c.effect_stm
    pub accum : (e : Effect) → c.effect_accum ≡ some e → IsFree s depth c e

  -- A context after an operation: it guards no more than before, and is safe where it was.
  pub record Follows (c d : CgContext) : Type 0 where
    pub keeps : IsSafe c → (e : Effect) → IsFree s depth c e → IsFree s depth d e
    pub safe : IsSafe c → IsSafe d

  pub Follows-refl : (c : CgContext) → Follows c c
  Follows-refl c = record { keeps = λ k e h. h; safe = λ h. h }

  pub Follows-trans : (c d e : CgContext) → Follows c d → Follows d e → Follows c e
  Follows-trans c d e f g = record {
    keeps = λ k x h. g.keeps (f.safe k) x (f.keeps k x h);
    safe = λ h. g.safe (f.safe h);
  }

  -- The effect that an operation makes of `effect_accum`.
  changed :
      (o : Option Effect) (f : Effect → Effect) (e : Effect)
      → elim o [ none ↦ none | some d ↦ some (f d) ] ≡ some e
      → (d : Effect) × (o ≡ some d) × (f d ≡ e)
  changed none f e q = absurd (ground (arith, q))
  changed (some d) f e q = (d, refl, some-injective (f d) e q)

  -- An operation on the two effects that keeps each free of conflicts.
  pub Follows-on_effects :
      (c : CgContext) (f g : Effect → Effect)
      → ((e : Effect) → IsFree s depth c e → IsFree s depth c (f e))
      → ((e : Effect) → IsFree s depth c e → IsFree s depth c (g e))
      → Follows c (on_effects s f g c)
  unfolding in_conflict is_nonreadable is_nonwritable
  Follows-on_effects c f g hf hg = record {
    keeps = λ k e h. h;
    safe = λ h. record {
      stm = hg c.effect_stm h.stm;
      accum = λ e q. let (d, p, r) = changed c.effect_accum f e q in rw (← r) (hf d (h.accum d p));
    };
  }

  -- What an operation leaves is a context that follows the one before.
  pub Leads : CgContext → Outcome → Type 0
  Leads c r = (ok : Bool) (d : CgContext) → r ≡ some (ok, d) → Follows c d

  same_context :
      (b : Bool) (c : CgContext) (ok : Bool) (d : CgContext)
      → ◌≡◌ {A = Outcome} (some (b, c)) (some (ok, d))
      → c ≡ d
  same_context b c ok d q = ap (λ (r : Bool × CgContext). r.1) (some-injective _ _ q)

  -- A failed check leaves the context as the indices left it.
  pub Leads-here : (b : Bool) (c d : CgContext) → Follows c d → Leads c (some (b, d))
  unfolding Leads
  Leads-here b c d f ok e q = rw (← same_context b d ok e q) f

  pub Leads-succeeds :
      (c d : CgContext) (o : Option CgContext)
      → Follows c d
      → ((e : CgContext) → o ≡ some e → Follows d e)
      → Leads c (succeeds o)
  unfolding Leads
  Leads-succeeds c d none f g ok e q = absurd (ground (arith, q))
  Leads-succeeds c d (some h) f g ok e q =
      rw (← same_context true h ok e q) (Follows-trans c d h f (g h refl))

  pub Leads-none : (c : CgContext) → Leads c none
  unfolding Leads
  Leads-none c ok d q = absurd (ground (arith, q))

  pub Leads-after : (c d : CgContext) (r : Outcome) → Follows c d → Leads d r → Leads c r
  unfolding Leads
  Leads-after c d r f l ok e q = Follows-trans c d e f (l ok e q)

  pub Leads-Follows :
      (c d : CgContext) (ok : Bool) (r : Outcome) → Leads c r → r ≡ some (ok, d) → Follows c d
  unfolding Leads
  Leads-Follows c d ok r l q = l ok d q

  -- The expressions of an index keep the context safe.
  unfoldable pub IsSafeIndices : {Expression : Type 0} → Indices Expression → Type 0
  IsSafeIndices {Expression} x =
      (e : Expression) (facts : Environment) (c : CgContext)
      → Follows c ((x.visit_facts e facts c).2)

  pub Follows-context_read_var :
      (c d : CgContext) (v : Variable)
      → read_conflict s depth c (get_collective s v) ≡ false
      → context_read_var s c v ≡ some d
      → Follows c d
  unfolding context_read_var
  Follows-context_read_var c d v h q =
      let w = get_collective s v in
      let free : is_nonreadable s c w ≡ false = ground (arith, h) in
      rw (← some-injective _ _ (rw (context_read_var, free) at q)) (
        Follows-on_effects c (λ e. read_var s e w) (λ e. read_var s e w)
          (λ e k. IsFree-read_var s depth c e w k h) (λ e k. IsFree-read_var s depth c e w k h))

  pub Follows-context_write_var :
      (c d : CgContext) (v : Variable)
      → write_conflict s depth c (get_collective s v) ≡ false
      → context_write_var s c v ≡ some d
      → Follows c d
  unfolding context_write_var
  Follows-context_write_var c d v h q =
      let w = get_collective s v in
      let free : is_nonwritable s c w ≡ false = ground (arith, h) in
      rw (← some-injective _ _ (rw (context_write_var, free) at q)) (
        Follows-on_effects c (λ e. write_var s e w) (λ e. write_var s e w)
          (λ e k. IsFree-write_var s depth c e w k h) (λ e k. IsFree-write_var s depth c e w k h))

  module _ {Expression : Type 0} (x : Indices Expression) (ix : IsSafeIndices x) where
    Follows-visit_indices :
        (es : List Expression) (facts : Environment) (c : CgContext)
        → Follows c (visit_indices s x es facts c).1
    unfolding visit_indices IsSafeIndices
    Follows-visit_indices [] facts c = Follows-refl c
    Follows-visit_indices (e ∷ es) facts c =
        let r = x.visit_facts e facts c in
        elim (Bool-cases (x.visit_facts e facts c).0) [
          | inl h ↦
              rw (visit_indices, h)
                (Follows-trans c r.2 _ (ix e facts c) (Follows-visit_indices es r.1 r.2))
          | inr h ↦ rw (visit_indices, h) (ix e facts c)
        ]

    pub Follows-read_indices :
        (v : Variable) (facts : Environment) (c : CgContext)
        → Follows c (read_indices s x v facts c).1
    unfolding read_indices
    Follows-read_indices (named i) facts c = elim (Bool-cases (s (named i)).is_array) [
      | inl h ↦ rw h (Follows-visit_indices (x.get_indices (named i)) facts c)
      | inr h ↦ rw h (Follows-refl c)
    ]
    Follows-read_indices (member p i) facts c =
        let es = x.get_indices (member p i) in
        let up = Follows-read_indices p facts in
        let here = Follows-visit_indices es facts c in
        elim (Bool-cases (s (member p i)).is_array) [
          | inl h ↦ elim (Bool-cases (visit_indices s x es facts c).0) [
            | inl g ↦
                rw (read_indices, h, g)
                  (Follows-trans c (visit_indices s x es facts c).1 _ here
                    (up (visit_indices s x es facts c).1))
            | inr g ↦ rw (read_indices, h, g) here
          ]
          | inr h ↦ elim (Bool-cases (is_array_field s (member p i))) [
            | inl g ↦ rw (read_indices, h, g) (up c)
            | inr g ↦ rw (read_indices, h, g) (Follows-refl c)
          ]
        ]
