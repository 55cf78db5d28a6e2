-- ===== src/Effects/Flags.antt =====
-- src/Effect.cpp: what the flags `pure` and `side_effect_free` say of the variables of an effect,
-- whatever operations it comes from.
use clsmith.Prelude.{
  ◌≡◌, inl, inr, Bool, true, List, [], ◌∷◌, ◌++◌, Bool-cases, All, All-append, &&_elim,
}
use clsmith.Variables.{Variable, named, member, Store}
use clsmith.Effects.{
  Effect, covers, push, push_all, drop_covered, through_struct, through_all, is_quiet, is_constant,
  read_var, write_var, write_var_set, add_effect,
}

module _ (s : Store) where
  -- A pure effect reads only constants that are not volatile; one that is free of side effects reads
  -- and writes no volatile variable and none of ACCESS_ONCE.
  pub record IsSound (e : Effect) : Type 0 where
    pub pure_reads : e.pure ≡ true → All (λ v. is_constant s v ≡ true) e.read_vars
    pub quiet_reads : e.side_effect_free ≡ true → All (λ v. is_quiet s v ≡ true) e.read_vars
    pub quiet_writes : e.side_effect_free ≡ true → All (λ v. is_quiet s v ≡ true) e.write_vars

module _ (P : Variable → Type 0) (through : Variable → Bool) where
  All-push : (vs : List Variable) (v : Variable) → All P vs → P v → All P (push through vs v)
  unfolding push
  All-push vs v h p = elim (Bool-cases (covers through vs v)) [
    | inl e ↦ rw e h
    | inr e ↦ rw e (All-append P vs (v ∷ []) h (p, tt))
  ]

  All-push_all : (vs ws : List Variable) → All P vs → All P ws → All P (push_all through vs ws)
  unfolding push_all
  All-push_all vs [] h g = h
  All-push_all vs (w ∷ ws) h g = All-push_all (push through vs w) ws (All-push vs w h g.0) g.1

  pub All-drop_covered :
      (before rest : List Variable)
      → All P before
      → All P rest
      → All P (drop_covered through before rest)
  unfolding drop_covered
  All-drop_covered before [] h g = h
  All-drop_covered before (named i ∷ rest) h g =
      All-drop_covered (before ++ (named i ∷ [])) rest
        (All-append P before (named i ∷ []) h (g.0, tt)) g.1
  All-drop_covered before (member p i ∷ rest) h g =
      elim (Bool-cases (covers through (before ++ (member p i ∷ rest)) p)) [
        | inl e ↦ rw (drop_covered, e) (All-drop_covered before rest h g.1)
        | inr e ↦
            rw (drop_covered, e)
              (All-drop_covered (before ++ (member p i ∷ [])) rest
                (All-append P before (member p i ∷ []) h (g.0, tt)) g.1)
      ]

module _ (s : Store) where
  pub IsSound-read_var : (e : Effect) (v : Variable) → IsSound s e → IsSound s (read_var s e v)
  unfolding read_var
  IsSound-read_var e v h = record {
    pure_reads = λ p.
        let (a, b) = &&_elim p in
        All-push (λ w. is_constant s w ≡ true) (through_struct s) e.read_vars v (h.pure_reads a) b;
    quiet_reads = λ p.
        let (a, b) = &&_elim p in
        All-push (λ w. is_quiet s w ≡ true) (through_struct s) e.read_vars v (h.quiet_reads a) b;
    quiet_writes = λ p. let (a, b) = &&_elim p in h.quiet_writes a;
  }

  pub IsSound-write_var : (e : Effect) (v : Variable) → IsSound s e → IsSound s (write_var s e v)
  unfolding write_var
  IsSound-write_var e v h = record {
    pure_reads = h.pure_reads;
    quiet_reads = λ p. let (a, b) = &&_elim p in h.quiet_reads a;
    quiet_writes = λ p.
        let (a, b) = &&_elim p in
        All-push (λ w. is_quiet s w ≡ true) through_all e.write_vars v (h.quiet_writes a) b;
  }

  pub IsSound-write_var_set :
      (e : Effect) (vs : List Variable) → IsSound s e → IsSound s (write_var_set s e vs)
  unfolding write_var_set
  IsSound-write_var_set e [] h = h
  IsSound-write_var_set e (v ∷ vs) h =
      IsSound-write_var_set (write_var s e v) vs (IsSound-write_var e v h)

  pub IsSound-add_effect :
      (e f : Effect) (b : Bool) → IsSound s e → IsSound s f → IsSound s (add_effect s e f b)
  unfolding add_effect
  IsSound-add_effect e f b h g = record {
    pure_reads = λ p.
        let (a, c) = &&_elim p in
        All-push_all (λ w. is_constant s w ≡ true) (through_struct s) e.read_vars f.read_vars
          (h.pure_reads a) (g.pure_reads c);
    quiet_reads = λ p.
        let (a, c) = &&_elim p in
        All-push_all (λ w. is_quiet s w ≡ true) (through_struct s) e.read_vars f.read_vars
          (h.quiet_reads a) (g.quiet_reads c);
    quiet_writes = λ p.
        let (a, c) = &&_elim p in
        All-push_all (λ w. is_quiet s w ≡ true) through_all e.write_vars f.write_vars
          (h.quiet_writes a) (g.quiet_writes c);
  }

  -- To clear a flag asks for less.
  pub weaken :
      (e : Effect) (p q : Bool)
      → (p ≡ true → e.pure ≡ true)
      → (q ≡ true → e.side_effect_free ≡ true)
      → IsSound s e
      → IsSound s (record e { pure = p; side_effect_free = q })
  weaken e p q f g h = record {
    pure_reads = λ x. h.pure_reads (f x);
    quiet_reads = λ x. h.quiet_reads (g x);
    quiet_writes = λ x. h.quiet_writes (g x);
  }
