-- ===== src/Contexts/Restored.antt =====
-- src/CGContext.cpp: what a failed access through a pointer leaves.
use mathlib.Core.Option.{some-injective}
use clsmith.Prelude.{
  ◌≡◌, ◌⊎◌, inl, inr, sym, ◌∙◌, ap, Bool, true, false, ◌&&◌, ℕ, zero, suc, ℤ, pos, negsuc, List, [],
  ◌∷◌, Option, none, some, Bool-cases, Option-cases, arith, ◌==◌,
}
use clsmith.Variables.{Variable, Store, get_collective}
use clsmith.Effects.{Effect, copy, assign}
use clsmith.Facts.PointTo.{merge_pointees_of_pointers}
use clsmith.Contexts.{CgContext}
use clsmith.Contexts.Checks.{Environment, Outcome, Indices, Setting, read_indices}
use clsmith.Contexts.Pointed.{
  restore, is_bad, check_pointees, trace_pointers, access_from, access_pointed, read_pointed,
  write_pointed,
}

module _ (s : Store) (t : Setting) {Expression : Type 0} (x : Indices Expression) where
  -- The outcome has failed and `effect_accum` has been restored.
  Restored : Effect → Outcome → Type 0
  Restored saved r = (d : CgContext) → r ≡ some (false, d) → (c : CgContext) × (d ≡ restore saved c)

  Restored-here : (saved : Effect) (c : CgContext) → Restored saved (some (false, restore saved c))
  unfolding Restored
  Restored-here saved c d q = (c, sym (ap (λ (r : Bool × CgContext). r.1) (some-injective _ _ q)))

  Restored-trace_pointers :
      (writes : Bool) (saved : Effect) (n : ℕ) (tmp : List Variable) (facts : Environment)
      (c : CgContext)
      → Restored saved (trace_pointers s x t writes saved n tmp facts c)
  unfolding trace_pointers Restored
  Restored-trace_pointers writes saved zero tmp facts c = λ d q. absurd (ground (arith, q))
  Restored-trace_pointers writes saved (suc n) tmp facts c =
      elim (Option-cases (merge_pointees_of_pointers tmp facts.points)) [
        | inl g ↦ rw (trace_pointers, g) (λ d q. absurd (ground (arith, q)))
        | inr (ps, g) ↦ elim (Bool-cases (is_bad t ps)) [
          | inl b ↦ rw (trace_pointers, g, b) (Restored-here saved c)
          | inr b ↦ elim (Option-cases (check_pointees s x t (writes && n == 0) ps facts c)) [
            | inl r ↦ rw (trace_pointers, g, b, r) (λ d q. absurd (ground (arith, q)))
            | inr ((ok, d), r) ↦ elim (Bool-cases ok) [
              | inr w ↦ rw (trace_pointers, g, b, r, w) (Restored-here saved d)
              | inl w ↦
                  rw (trace_pointers, g, b, r, w)
                    (Restored-trace_pointers writes saved n ps facts d)
            ]
          ]
        ]
      ]

  Restored-access_pointed :
      (writes : Bool) (v : Variable) (n : ℤ) (facts : Environment) (c : CgContext) (e : Effect)
      → c.effect_accum ≡ some e
      → (read_indices s x v facts c).0 ≡ true
      → Restored (copy e) (access_pointed s x t writes v n facts c)
  unfolding Restored
  Restored-access_pointed writes v n facts c e a i d q = from n d (sym (step c.effect_accum a) ∙ q)
    where
      step :
          (o : Option Effect)
          → o ≡ some e
          → elim o [ none ↦ none | some f ↦ access_from s x t writes v n facts c f ]
            ≡ access_from s x t writes v n facts c e
      step none q = absurd (ground (arith, q))
      step (some f) q = ap (access_from s x t writes v n facts c) (some-injective f e q)

      from :
          (m : ℤ) (d : CgContext)
          → access_from s x t writes v m facts c e ≡ some (false, d)
          → (b : CgContext) × (d ≡ restore (copy e) b)
      from (negsuc m) d q = absurd (ground (arith, q))
      from (pos zero) d q = absurd (ground (arith, q))
      from (pos (suc m)) d q =
          Restored-trace_pointers writes (copy e) (suc m) (get_collective s v ∷ []) facts
            (read_indices s x v facts c).1 d (rw (access_from, i) at q)

  copy-restore :
      (e f : Effect) (b d : CgContext)
      → d ≡ restore (copy e) b
      → d.effect_accum ≡ some f
      → copy f ≡ copy e
  unfolding restore
  copy-restore e f b d h g =
      assigned b.effect_accum (sym (ap (λ (r : CgContext). r.effect_accum) h) ∙ g)
    where
      assigned :
          (o : Option Effect)
          → elim o [ none ↦ none | some a ↦ some (assign a (copy e)) ] ≡ some f
          → copy f ≡ copy e
      assigned none q = absurd (ground (arith, q))
      assigned (some a) q = sym (ap copy (some-injective (assign a (copy e)) f q))

  -- Where the index expressions are read without a conflict, a failed `read_pointed` or
  -- `write_pointed` leaves the accumulated effect as it was, except for its variables of the left
  -- side, which neither reads.
  pub pointed_restores :
      (v : Variable) (n : ℤ) (facts : Environment) (c d : CgContext) (e f : Effect)
      → c.effect_accum ≡ some e
      → (read_indices s x v facts c).0 ≡ true
      → (read_pointed s x t v n facts c ≡ some (false, d))
        ⊎ (write_pointed s x t v n facts c ≡ some (false, d))
      → d.effect_accum ≡ some f
      → copy f ≡ copy e
  unfolding read_pointed write_pointed Restored
  pointed_restores v n facts c d e f a i (inl q) g =
      let (b, h) = Restored-access_pointed false v n facts c e a i d q in copy-restore e f b d h g
  pointed_restores v n facts c d e f a i (inr q) g =
      let (b, h) = Restored-access_pointed true v n facts c e a i d q in copy-restore e f b d h g
