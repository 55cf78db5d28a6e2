-- ===== src/Effects/Built.antt =====
-- src/Effect.cpp: the effects that the methods of the class build from the empty one, and what their
-- flags say of them.
use clsmith.Prelude.{
  ◌≡◌, inl, inr, Bool, true, false, ◌&&◌, List, [], ◌∷◌, Bool-cases, ℤ, pos, negsuc, &&_elim, arith,
}
use clsmith.Options.{CgOptions}
use clsmith.Variables.{Variable, Store}
use clsmith.Effects.{
  Effect, Block, empty_effect, clear, set_lhs_write_vars, copy, assign, through_struct, through_all,
  meets_volatile, has_global_effect, is_external, is_quiet, is_constant, read_var,
  access_deref_volatile, write_var, write_var_set, add_effect, read_external, write_external,
  add_external_reads, add_external_writes, add_external_effect, consolidate, update_purity,
}
use clsmith.Effects.Flags.{
  IsSound, All-drop_covered, IsSound-read_var, IsSound-write_var, IsSound-write_var_set,
  IsSound-add_effect, weaken,
}

module _ (s : Store) where
  -- The effects that a run of the generator builds by the methods of the class.
  pub data Built : Effect → Type 0 where
    from_empty : Built empty_effect
    by_read : {e : Effect} (v : Variable) → Built e → Built (read_var s e v)
    by_deref :
        {e : Effect} (o : CgOptions) (v : Variable) (n : ℤ)
        → Built e
        → Built (access_deref_volatile s o e v n)
    by_write : {e : Effect} (v : Variable) → Built e → Built (write_var s e v)
    by_writes : {e : Effect} (vs : List Variable) → Built e → Built (write_var_set s e vs)
    by_add : {e f : Effect} (b : Bool) → Built e → Built f → Built (add_effect s e f b)
    by_external :
        {e f : Effect} (chain : List Block)
        → Built e
        → Built f
        → Built (add_external_effect s e f chain)
    by_consolidate : {e : Effect} → Built e → Built (consolidate s e)
    by_purity : {e : Effect} → Built e → Built (update_purity s e)
    by_lhs : {e : Effect} (vs : List Variable) → Built e → Built (set_lhs_write_vars e vs)
    by_clear : {e : Effect} → Built e → Built (clear e)
    by_copy : {e : Effect} → Built e → Built (copy e)
    by_assign : {e f : Effect} → Built e → Built f → Built (assign e f)

  IsSound-read_external :
      (chain : List Block) (e : Effect) (v : Variable)
      → IsSound s e
      → IsSound s (read_external s chain e v)
  unfolding read_external
  IsSound-read_external chain e v h = elim (Bool-cases (is_external s chain v)) [
    | inl x ↦ rw x (IsSound-read_var s e v h)
    | inr x ↦ rw x h
  ]

  IsSound-write_external :
      (chain : List Block) (e : Effect) (v : Variable)
      → IsSound s e
      → IsSound s (write_external s chain e v)
  unfolding write_external
  IsSound-write_external chain e v h = elim (Bool-cases (is_external s chain v)) [
    | inl x ↦
        let g = write_var s e v in
        rw x (
          weaken s g false g.side_effect_free (λ p. absurd (ground (arith, p))) (λ p. p)
            (IsSound-write_var s e v h))
    | inr x ↦ rw x h
  ]

  IsSound-add_external_reads :
      (chain : List Block) (e : Effect) (vs : List Variable)
      → IsSound s e
      → IsSound s (add_external_reads s chain e vs)
  unfolding add_external_reads
  IsSound-add_external_reads chain e [] h = h
  IsSound-add_external_reads chain e (v ∷ vs) h =
      IsSound-add_external_reads chain (read_external s chain e v) vs
        (IsSound-read_external chain e v h)

  IsSound-add_external_writes :
      (chain : List Block) (e : Effect) (vs : List Variable)
      → IsSound s e
      → IsSound s (add_external_writes s chain e vs)
  unfolding add_external_writes
  IsSound-add_external_writes chain e [] h = h
  IsSound-add_external_writes chain e (v ∷ vs) h =
      IsSound-add_external_writes chain (write_external s chain e v) vs
        (IsSound-write_external chain e v h)

  IsSound-add_external_effect :
      (e f : Effect) (chain : List Block)
      → IsSound s e
      → IsSound s (add_external_effect s e f chain)
  unfolding add_external_effect
  IsSound-add_external_effect e f chain h =
      let r = add_external_reads s chain e f.read_vars in
      let g = add_external_writes s chain r f.write_vars in
      weaken s g g.pure (g.side_effect_free && f.side_effect_free) (λ p. p) (λ p. (&&_elim p).0)
        (IsSound-add_external_writes chain r f.write_vars
          (IsSound-add_external_reads chain e f.read_vars h))

  IsSound-consolidate : (e : Effect) → IsSound s e → IsSound s (consolidate s e)
  unfolding consolidate
  IsSound-consolidate e h = record {
    pure_reads = λ p.
        All-drop_covered (λ w. is_constant s w ≡ true) (through_struct s) [] e.read_vars tt
          (h.pure_reads p);
    quiet_reads = λ p.
        All-drop_covered (λ w. is_quiet s w ≡ true) (through_struct s) [] e.read_vars tt
          (h.quiet_reads p);
    quiet_writes = λ p.
        All-drop_covered (λ w. is_quiet s w ≡ true) through_all [] e.write_vars tt
          (h.quiet_writes p);
  }

  IsSound-access_deref_volatile :
      (e : Effect) (o : CgOptions) (v : Variable) (n : ℤ)
      → IsSound s e
      → IsSound s (access_deref_volatile s o e v n)
  unfolding access_deref_volatile
  IsSound-access_deref_volatile e o v (negsuc n) h = h
  IsSound-access_deref_volatile e o v (pos n) h =
      elim (Bool-cases (o.strict_volatile_rule && meets_volatile s v n)) [
        | inl x ↦ rw x (weaken s e e.pure false (λ p. p) (λ p. absurd (ground (arith, p))) h)
        | inr x ↦ rw x h
      ]

  IsSound-update_purity : (e : Effect) → IsSound s e → IsSound s (update_purity s e)
  unfolding update_purity
  IsSound-update_purity e h = elim (Bool-cases (has_global_effect s e)) [
    | inl x ↦
        rw x (weaken s e false e.side_effect_free (λ p. absurd (ground (arith, p))) (λ p. p) h)
    | inr x ↦ rw x h
  ]

-- Every effect that the generator builds by the methods of the class keeps its flags true: while it
-- is called pure it reads only constants that are not volatile, and while it is called free of side
-- effects it reads and writes no volatile variable and no ACCESS_ONCE variable.
pub Built-IsSound : (s : Store) (e : Effect) → Built s e → IsSound s e
Built-IsSound s e0 from_empty = record {
  pure_reads = λ p. tt;
  quiet_reads = λ p. tt;
  quiet_writes = λ p. tt;
}
Built-IsSound s e0 (by_read {e = d} v b) = IsSound-read_var s d v (Built-IsSound s d b)
Built-IsSound s e0 (by_deref {e = d} o v n b) =
    IsSound-access_deref_volatile s d o v n (Built-IsSound s d b)
Built-IsSound s e0 (by_write {e = d} v b) = IsSound-write_var s d v (Built-IsSound s d b)
Built-IsSound s e0 (by_writes {e = d} vs b) = IsSound-write_var_set s d vs (Built-IsSound s d b)
Built-IsSound s e0 (by_add {e = d} {f = f} l b c) =
    IsSound-add_effect s d f l (Built-IsSound s d b) (Built-IsSound s f c)
Built-IsSound s e0 (by_external {e = d} {f = f} chain b c) =
    IsSound-add_external_effect s d f chain (Built-IsSound s d b)
Built-IsSound s e0 (by_consolidate {e = d} b) = IsSound-consolidate s d (Built-IsSound s d b)
Built-IsSound s e0 (by_purity {e = d} b) = IsSound-update_purity s d (Built-IsSound s d b)
Built-IsSound s e0 (by_lhs {e = d} vs b) =
    let h = Built-IsSound s d b in
    record { pure_reads = h.pure_reads; quiet_reads = h.quiet_reads; quiet_writes = h.quiet_writes }
Built-IsSound s e0 (by_clear {e = d} b) = record {
  pure_reads = λ p. tt;
  quiet_reads = λ p. tt;
  quiet_writes = λ p. tt;
}
Built-IsSound s e0 (by_copy {e = d} b) =
    let h = Built-IsSound s d b in
    record { pure_reads = h.pure_reads; quiet_reads = h.quiet_reads; quiet_writes = h.quiet_writes }
Built-IsSound s e0 (by_assign {e = d} {f = f} b c) =
    let h = Built-IsSound s f c in
    record { pure_reads = h.pure_reads; quiet_reads = h.quiet_reads; quiet_writes = h.quiet_writes }
