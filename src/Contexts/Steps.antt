-- ===== src/Contexts/Steps.antt =====
-- src/CGContext.cpp: every operation keeps what has been made free of conflicts with the context.
use clsmith.Prelude.{
  ◌≡◌, inl, inr, refl, Bool, true, false, ◌&&◌, ℕ, zero, suc, ℤ, pos, negsuc, List, [], ◌∷◌, ◌++◌,
  if◌then◌else◌, Option, none, some, Bool-cases, Option-cases, ◌==◌, not,
}
use clsmith.Options.{CgOptions}
use clsmith.Variables.{Variable, Store, get_collective}
use clsmith.Effects.{
  Effect, Block, copy, assign, add_effect, add_external_effect, access_deref_volatile,
}
use clsmith.Facts.PointTo.{merge_pointees_of_pointers, is_special_ptr}
use clsmith.Contexts.{
  CgContext, in_conflict, on_effects, check_deref_volatile, volatile_below, context_add_effect,
  context_add_external_effect, add_visible_effect,
}
use clsmith.Contexts.Checks.{
  Environment, Indices, Setting, read_indices, check_read_var, check_write_var,
}
use clsmith.Contexts.Pointed.{
  restore, is_bad, check_pointee, check_pointees, trace_pointers, read_pointed, write_pointed,
  access_pointed, access_from,
}
use clsmith.Contexts.Conflicts.{
  IsFree, IsFree-assign, IsFree-add_effect, IsFree-add_external_effect,
  IsFree-access_deref_volatile,
}
use clsmith.Contexts.Safe.{
  IsSafe, Follows, Follows-refl, Follows-trans, Follows-on_effects, IsSafeIndices,
  Follows-read_indices, Leads, Leads-here, Leads-none, Leads-after, Leads-Follows,
}
use clsmith.Contexts.Guarded.{HasPlainCollectives, Leads-check_read_var, Leads-check_write_var}

module _ (s : Store) (depth : ℕ) where
  Follows-restore :
      (c : CgContext) (e : Effect) → IsFree s depth c e → Follows s depth c (restore (copy e) c)
  unfolding restore
  Follows-restore c e h =
      Follows-on_effects s depth c (λ f. assign f (copy e)) (λ f. f)
        (λ f k. IsFree-assign s depth c f e h) (λ f k. k)

module _ (s : Store) (plain : HasPlainCollectives s) (t : Setting) {Expression : Type 0}
    (x : Indices Expression) (ix : IsSafeIndices s t.depth x) where
  Leads-check_pointee :
      (writes : Bool) (v : Variable) (facts : Environment) (c : CgContext)
      → Leads s t.depth c (check_pointee s x t writes v facts c)
  unfolding check_pointee
  Leads-check_pointee true = Leads-check_write_var s plain t x ix
  Leads-check_pointee false = Leads-check_read_var s plain t x ix

  Leads-check_pointees :
      (writes : Bool) (ps : List Variable) (facts : Environment) (c : CgContext)
      → Leads s t.depth c (check_pointees s x t writes ps facts c)
  unfolding check_pointees
  Leads-check_pointees writes [] facts c = Leads-here s t.depth true c c (Follows-refl s t.depth c)
  Leads-check_pointees writes (p ∷ ps) facts c = elim (Bool-cases (is_special_ptr p)) [
    | inl h ↦ rw (check_pointees, h) (Leads-check_pointees writes ps facts c)
    | inr h ↦ elim (Option-cases (check_pointee s x t writes p facts c)) [
      | inl g ↦ rw (check_pointees, h, g) (Leads-none s t.depth c)
      | inr ((ok, d), g) ↦
          let f = Leads-Follows s t.depth c d ok _ (Leads-check_pointee writes p facts c) g in
          elim (Bool-cases ok) [
            | inr w ↦ rw (check_pointees, h, g, w) (Leads-here s t.depth false c d f)
            | inl w ↦
                rw (check_pointees, h, g, w)
                  (Leads-after s t.depth c d _ f (Leads-check_pointees writes ps facts d))
          ]
    ]
  ]

  -- The saved effect is free of conflicts where the loop starts.
  Leads-trace_pointers :
      (writes : Bool) (saved : Effect) (n : ℕ) (tmp : List Variable) (facts : Environment)
      (c : CgContext)
      → IsSafe s t.depth c
      → IsFree s t.depth c saved
      → Leads s t.depth c (trace_pointers s x t writes (copy saved) n tmp facts c)
  unfolding trace_pointers
  Leads-trace_pointers writes saved zero tmp facts c k h =
      Leads-here s t.depth true c c (Follows-refl s t.depth c)
  Leads-trace_pointers writes saved (suc n) tmp facts c k h =
      elim (Option-cases (merge_pointees_of_pointers tmp facts.points)) [
        | inl g ↦ rw (trace_pointers, g) (Leads-none s t.depth c)
        | inr (ps, g) ↦ elim (Bool-cases (is_bad t ps)) [
          | inl b ↦
              rw (trace_pointers, g, b)
                (Leads-here s t.depth false c _ (Follows-restore s t.depth c saved h))
          | inr b ↦ elim (Option-cases (check_pointees s x t (writes && n == 0) ps facts c)) [
            | inl r ↦ rw (trace_pointers, g, b, r) (Leads-none s t.depth c)
            | inr ((ok, d), r) ↦
                let f =
                  Leads-Follows s t.depth c d ok _
                    (Leads-check_pointees (writes && n == 0) ps facts c) r in
                let h' = f.keeps k saved h in
                elim (Bool-cases ok) [
                  | inr w ↦
                      rw (trace_pointers, g, b, r, w)
                        (Leads-here s t.depth false c _
                          (Follows-trans s t.depth c d _ f (Follows-restore s t.depth d saved h')))
                  | inl w ↦
                      rw (trace_pointers, g, b, r, w)
                        (Leads-after s t.depth c d _ f
                          (Leads-trace_pointers writes saved n ps facts d (f.safe k) h'))
                ]
          ]
        ]
      ]

  Leads-access_from :
      (writes : Bool) (v : Variable) (n : ℤ) (facts : Environment) (c : CgContext) (e : Effect)
      → IsSafe s t.depth c
      → IsFree s t.depth c e
      → Leads s t.depth c (access_from s x t writes v n facts c e)
  Leads-access_from writes v (negsuc n) facts c e k h = Leads-none s t.depth c
  Leads-access_from writes v (pos zero) facts c e k h = Leads-none s t.depth c
  Leads-access_from writes v (pos (suc n)) facts c e k h =
      let r = read_indices s x v facts c in
      let f = Follows-read_indices s t.depth x ix v facts c in
      elim (Bool-cases (read_indices s x v facts c).0) [
        | inr w ↦ rw (access_from, w) (Leads-here s t.depth false c r.1 f)
        | inl w ↦
            rw (access_from, w)
              (Leads-after s t.depth c r.1 _ f (
                Leads-trace_pointers writes e (suc n) (get_collective s v ∷ []) facts r.1 (f.safe k)
                  (f.keeps k e h)))
      ]

  Leads-access_pointed :
      (writes : Bool) (v : Variable) (n : ℤ) (facts : Environment) (c : CgContext)
      → IsSafe s t.depth c
      → Leads s t.depth c (access_pointed s x t writes v n facts c)
  Leads-access_pointed writes v n facts c k = by_accum c.effect_accum refl
    where
      by_accum :
          (o : Option Effect)
          → c.effect_accum ≡ o
          → Leads s t.depth c
              (elim o [ none ↦ none | some e ↦ access_from s x t writes v n facts c e ])
      by_accum none q = Leads-none s t.depth c
      by_accum (some e) q = Leads-access_from writes v n facts c e k (k.accum e q)

  Follows-check_deref_volatile :
      (o : CgOptions) (c : CgContext) (v : Variable) (n : ℤ)
      → Follows s t.depth c (check_deref_volatile s o c v n).1
  unfolding check_deref_volatile
  Follows-check_deref_volatile o c v n =
      by_tests o.strict_volatile_rule
        (not c.effect_context.side_effect_free && volatile_below s v n)
    where
      track : Effect → Effect
      track e = access_deref_volatile s o e v n

      tested : Bool → Bool → Bool × CgContext
      tested a b =
          if not a then (true, c) else if b then (false, c) else (true, on_effects s track track c)

      by_tests : (a b : Bool) → Follows s t.depth c (tested a b).1
      by_tests false b = Follows-refl s t.depth c
      by_tests true true = Follows-refl s t.depth c
      by_tests true false =
          Follows-on_effects s t.depth c track track
            (λ e k. IsFree-access_deref_volatile s t.depth c o e v n k)
            (λ e k. IsFree-access_deref_volatile s t.depth c o e v n k)

  Follows-external :
      (c : CgContext) (e : Effect) (chain : List Block)
      → in_conflict s t.depth c e ≡ false
      → Follows s t.depth c (
          on_effects s
            (λ f. add_external_effect s f e chain)
            (λ f. add_external_effect s f e chain)
            c)
  Follows-external c e chain h =
      Follows-on_effects s t.depth c (λ f. add_external_effect s f e chain)
        (λ f. add_external_effect s f e chain)
        (λ f g. IsFree-add_external_effect s t.depth c f e chain g h)
        (λ f g. IsFree-add_external_effect s t.depth c f e chain g h)

  -- The contexts that the operations of the class make of a context, one after the other, whether
  -- they succeed or not. An effect is added by the generator only where `in_conflict` allows it.
  pub data Made : CgContext → CgContext → Type 0 where
    nothing : {c : CgContext} → Made c c
    by_read :
        {c d : CgContext} (v : Variable) (facts : Environment) (ok : Bool) (e : CgContext)
        → Made c d
        → check_read_var s x t v facts d ≡ some (ok, e)
        → Made c e
    by_write :
        {c d : CgContext} (v : Variable) (facts : Environment) (ok : Bool) (e : CgContext)
        → Made c d
        → check_write_var s x t v facts d ≡ some (ok, e)
        → Made c e
    by_read_pointed :
        {c d : CgContext} (v : Variable) (n : ℤ) (facts : Environment) (ok : Bool) (e : CgContext)
        → Made c d
        → read_pointed s x t v n facts d ≡ some (ok, e)
        → Made c e
    by_write_pointed :
        {c d : CgContext} (v : Variable) (n : ℤ) (facts : Environment) (ok : Bool) (e : CgContext)
        → Made c d
        → write_pointed s x t v n facts d ≡ some (ok, e)
        → Made c e
    by_deref :
        {c d : CgContext} (v : Variable) (n : ℤ)
        → Made c d
        → Made c (check_deref_volatile s t.options d v n).1
    by_effect :
        {c d : CgContext} (e : Effect) (b : Bool)
        → Made c d
        → in_conflict s t.depth d e ≡ false
        → Made c (context_add_effect s d e b)
    by_external :
        {c d : CgContext} (e : Effect)
        → Made c d
        → in_conflict s t.depth d e ≡ false
        → Made c (context_add_external_effect s d e)
    by_visible :
        {c d : CgContext} (e : Effect) (b : Block)
        → Made c d
        → in_conflict s t.depth d e ≡ false
        → Made c (add_visible_effect s d e b)

  -- In a context whose effects do not conflict with it, every sequence of checks, successful or not,
  -- and of additions of effects that do not conflict leaves the effects of the statement and of the
  -- code made so far without a conflict with the context: nothing read is written around it, nothing
  -- written is accessed around it or const or an induction variable, and nothing volatile is accessed
  -- where the surroundings have side effects. This is for stores whose collective arrays are not
  -- itemized and for index expressions that keep the context so.
  pub Made-IsSafe : (c d : CgContext) → Made c d → IsSafe s t.depth c → IsSafe s t.depth d
  unfolding read_pointed write_pointed context_add_effect context_add_external_effect
      add_visible_effect
  Made-IsSafe c e0 nothing k = k
  Made-IsSafe c e0 (by_read {d} v facts ok e m q) k =
      (Leads-Follows s t.depth d e0 ok _ (Leads-check_read_var s plain t x ix v facts d) q).safe
        (Made-IsSafe c d m k)
  Made-IsSafe c e0 (by_write {d} v facts ok e m q) k =
      (Leads-Follows s t.depth d e0 ok _ (Leads-check_write_var s plain t x ix v facts d) q).safe
        (Made-IsSafe c d m k)
  Made-IsSafe c e0 (by_read_pointed {d} v n facts ok e m q) k =
      let h = Made-IsSafe c d m k in
      (Leads-Follows s t.depth d e0 ok _ (Leads-access_pointed false v n facts d h) q).safe h
  Made-IsSafe c e0 (by_write_pointed {d} v n facts ok e m q) k =
      let h = Made-IsSafe c d m k in
      (Leads-Follows s t.depth d e0 ok _ (Leads-access_pointed true v n facts d h) q).safe h
  Made-IsSafe c e0 (by_deref {d} v n m) k =
      (Follows-check_deref_volatile t.options d v n).safe (Made-IsSafe c d m k)
  Made-IsSafe c e0 (by_effect {d} e b m h) k =
      (Follows-on_effects s t.depth d (λ f. add_effect s f e b) (λ f. add_effect s f e false)
          (λ f g. IsFree-add_effect s t.depth d f e b g h)
          (λ f g. IsFree-add_effect s t.depth d f e false g h)).safe
        (Made-IsSafe c d m k)
  Made-IsSafe c e0 (by_external {d} e m h) k =
      (Follows-external d e [] h).safe (Made-IsSafe c d m k)
  Made-IsSafe c e0 (by_visible {d} e b m h) k =
      (Follows-external d e (d.call_chain ++ (b ∷ [])) h).safe (Made-IsSafe c d m k)
