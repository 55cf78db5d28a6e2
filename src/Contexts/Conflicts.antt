-- ===== src/Contexts/Conflicts.antt =====
-- src/CGContext.cpp: effects that do not conflict with a context stay so under the operations of the
-- class `Effect`.
use clsmith.Prelude.{
  ◌≡◌, inl, inr, refl, Bool, false, ◌&&◌, ℕ, ℤ, pos, negsuc, List, [], ◌∷◌, any, any-append,
  Bool-cases, arith,
}
use clsmith.Options.{CgOptions}
use clsmith.Variables.{Variable, Store}
use clsmith.Effects.{
  Effect, Block, push, push_all, covers, through_struct, through_all, read_var, write_var,
  add_effect, add_external_effect, add_external_reads, add_external_writes, read_external,
  write_external, is_external, access_deref_volatile, meets_volatile, empty_effect, assign, copy,
}
use clsmith.Contexts.{CgContext, in_conflict, read_conflict, write_conflict}

module _ (p : Variable → Bool) (through : Variable → Bool) where
  any-push :
      (vs : List Variable) (v : Variable)
      → any p vs ≡ false
      → p v ≡ false
      → any p (push through vs v) ≡ false
  unfolding push
  any-push vs v h g = elim (Bool-cases (covers through vs v)) [
    | inl e ↦ rw e h
    | inr e ↦ rw (e, any-append p vs (v ∷ [])) (ground (arith, h, g))
  ]

  any-push_all :
      (vs ws : List Variable)
      → any p vs ≡ false
      → any p ws ≡ false
      → any p (push_all through vs ws) ≡ false
  unfolding push_all
  any-push_all vs [] h g = h
  any-push_all vs (w ∷ ws) h g =
      any-push_all (push through vs w) ws (any-push vs w h (ground (arith, g))) (ground (arith, g))

module _ (s : Store) (depth : ℕ) (c : CgContext) where
  abbrev pub IsFree : Effect → Type 0
  IsFree e = in_conflict s depth c e ≡ false

  free_reads : (e : Effect) → IsFree e → any (read_conflict s depth c) e.read_vars ≡ false
  unfolding in_conflict
  free_reads e h = ground (arith, h)

  free_writes : (e : Effect) → IsFree e → any (write_conflict s depth c) e.write_vars ≡ false
  unfolding in_conflict
  free_writes e h = ground (arith, h)

  free :
      (e : Effect)
      → any (read_conflict s depth c) e.read_vars ≡ false
      → any (write_conflict s depth c) e.write_vars ≡ false
      → IsFree e
  unfolding in_conflict
  free e h g = rw (h, g) refl

  pub IsFree-read_var :
      (e : Effect) (v : Variable)
      → IsFree e
      → read_conflict s depth c v ≡ false
      → IsFree (read_var s e v)
  unfolding read_var
  IsFree-read_var e v h g =
      free (read_var s e v)
        (any-push (read_conflict s depth c) (through_struct s) e.read_vars v (free_reads e h) g)
        (free_writes e h)

  pub IsFree-write_var :
      (e : Effect) (v : Variable)
      → IsFree e
      → write_conflict s depth c v ≡ false
      → IsFree (write_var s e v)
  unfolding write_var
  IsFree-write_var e v h g =
      free (write_var s e v) (free_reads e h)
        (any-push (write_conflict s depth c) through_all e.write_vars v (free_writes e h) g)

  pub IsFree-add_effect :
      (e f : Effect) (b : Bool) → IsFree e → IsFree f → IsFree (add_effect s e f b)
  unfolding add_effect
  IsFree-add_effect e f b h g =
      free (add_effect s e f b)
        (any-push_all (read_conflict s depth c) (through_struct s) e.read_vars f.read_vars
          (free_reads e h) (free_reads f g))
        (any-push_all (write_conflict s depth c) through_all e.write_vars f.write_vars
          (free_writes e h) (free_writes f g))

  pub IsFree-access_deref_volatile :
      (o : CgOptions) (e : Effect) (v : Variable) (n : ℤ)
      → IsFree e
      → IsFree (access_deref_volatile s o e v n)
  unfolding access_deref_volatile
  IsFree-access_deref_volatile o e v (negsuc n) h = h
  IsFree-access_deref_volatile o e v (pos n) h =
      elim (Bool-cases (o.strict_volatile_rule && meets_volatile s v n)) [
        | inl x ↦
            rw x (free (record e { side_effect_free = false }) (free_reads e h) (free_writes e h))
        | inr x ↦ rw x h
      ]

  -- An assignment keeps no variable of its target but those of the left side.
  pub IsFree-assign : (e saved : Effect) → IsFree saved → IsFree (assign e (copy saved))
  IsFree-assign e saved h = free (assign e (copy saved)) (free_reads saved h) (free_writes saved h)

  pub IsFree-empty : IsFree empty_effect
  IsFree-empty = free empty_effect refl refl

  IsFree-external_reads :
      (chain : List Block) (e : Effect) (vs : List Variable)
      → IsFree e
      → any (read_conflict s depth c) vs ≡ false
      → IsFree (add_external_reads s chain e vs)
  unfolding add_external_reads read_external
  IsFree-external_reads chain e [] h g = h
  IsFree-external_reads chain e (v ∷ vs) h g = elim (Bool-cases (is_external s chain v)) [
    | inl x ↦ rw x (
        IsFree-external_reads chain (read_var s e v) vs (IsFree-read_var e v h (ground (arith, g)))
          (ground (arith, g)))
    | inr x ↦ rw x (IsFree-external_reads chain e vs h (ground (arith, g)))
  ]

  IsFree-external_writes :
      (chain : List Block) (e : Effect) (vs : List Variable)
      → IsFree e
      → any (write_conflict s depth c) vs ≡ false
      → IsFree (add_external_writes s chain e vs)
  unfolding add_external_writes write_external
  IsFree-external_writes chain e [] h g = h
  IsFree-external_writes chain e (v ∷ vs) h g = elim (Bool-cases (is_external s chain v)) [
    | inl x ↦
        let w = IsFree-write_var e v h (ground (arith, g)) in
        let impure : Effect = record (write_var s e v) { pure = false } in
        rw x (
          IsFree-external_writes chain impure vs
            (free impure (free_reads (write_var s e v) w) (free_writes (write_var s e v) w))
            (ground (arith, g)))
    | inr x ↦ rw x (IsFree-external_writes chain e vs h (ground (arith, g)))
  ]

  pub IsFree-add_external_effect :
      (e f : Effect) (chain : List Block)
      → IsFree e
      → IsFree f
      → IsFree (add_external_effect s e f chain)
  unfolding add_external_effect
  IsFree-add_external_effect e f chain h g =
      let r = add_external_reads s chain e f.read_vars in
      let w = add_external_writes s chain r f.write_vars in
      let hw =
        IsFree-external_writes chain r f.write_vars
          (IsFree-external_reads chain e f.read_vars h (free_reads f g)) (free_writes f g) in
      free (add_external_effect s e f chain) (free_reads w hw) (free_writes w hw)
