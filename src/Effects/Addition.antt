-- ===== src/Effects/Addition.antt =====
-- src/Effect.cpp: `read_var`, `write_var`, `add_effect` and `add_external_effect` by what is read and
-- written afterwards.
use clsmith.Prelude.{
  ◌∙◌, ◌≡◌, refl, inl, inr, Bool, true, false, ◌&&◌, ◌||◌, List, [], ◌∷◌, ◌++◌, if◌then◌else◌,
  Bool-cases, arith, ℕ, suc, not, any,
}
use clsmith.Variables.{Variable, Store, matches_var, is_global}
use clsmith.Variables.Sets.{find_from, find_variable_in_set, is_missing}
use clsmith.Effects.{
  Effect, Block, covers, through_struct, through_all, is_read, is_written, read_var, write_var,
  add_effect, is_constant, is_external, is_var_on_stack, read_external, write_external,
  add_external_reads, add_external_writes, add_external_effect,
}
use clsmith.Effects.Coverage.{covers-push, covers-push_all, covers-append, covers-[], covers_refl}

-- After an effect is added, a variable is read exactly when it was read before or the added effect
-- reads it, and the same for writes; so the order of the additions does not matter.
pub add_effect_union :
    (s : Store) (e f : Effect) (include_lhs_effects : Bool) (v : Variable)
    → (is_read s (add_effect s e f include_lhs_effects) v ≡ (is_read s e v || is_read s f v))
      × (is_written (add_effect s e f include_lhs_effects) v ≡ (is_written e v || is_written f v))
unfolding add_effect
add_effect_union s e f b v = (
  covers-push_all (through_struct s) e.read_vars f.read_vars v,
  covers-push_all through_all e.write_vars f.write_vars v,
)

-- Reading a variable adds it and the fields that it carries along to what is read, and changes
-- nothing that is written; writing a variable adds it and its fields to what is written, and
-- changes nothing that is read.
pub access_effect :
    (s : Store) (e : Effect) (x v : Variable)
    → (is_read s (read_var s e x) v ≡ (is_read s e v || covers (through_struct s) (x ∷ []) v))
      × (is_read s (read_var s e x) x ≡ true)
      × (is_written (read_var s e x) v ≡ is_written e v)
      × (is_written (write_var s e x) v ≡ (is_written e v || covers through_all (x ∷ []) v))
      × (is_written (write_var s e x) x ≡ true)
      × (is_read s (write_var s e x) v ≡ is_read s e v)
unfolding read_var write_var
access_effect s e x v = (
  covers-push (through_struct s) e.read_vars x v,
  ground (arith, covers-push (through_struct s) e.read_vars x x, covers_refl (through_struct s) x),
  refl,
  covers-push through_all e.write_vars x v,
  ground (arith, covers-push through_all e.write_vars x x, covers_refl through_all x),
  refl,
)

-- One of the variables is the given one or holds it as a field.
abbrev pub any_matches : Store → List Variable → Variable → Bool
any_matches s [] v = false
any_matches s (x ∷ xs) v = matches_var s x v || any_matches s xs v

abbrev pub any_local : Store → List (List Variable) → Variable → Bool
any_local s [] v = false
any_local s (xs ∷ blocks) v = any_matches s xs v || any_local s blocks v

-- A parameter of a function in the call chain, or a local of one of the open blocks.
abbrev pub on_stack : Store → List Block → Variable → Bool
on_stack s [] v = false
on_stack s (b ∷ chain) v =
    any_matches s b.param v || any_local s b.local_vars v || on_stack s chain v

-- The variables of a set that outlive the call: globals, and variables on the stack of a caller.
abbrev pub external_vars : Store → List Block → List Variable → List Variable
external_vars s chain [] = []
external_vars s chain (v ∷ vs) =
    if is_global s v || on_stack s chain v
    then v ∷ external_vars s chain vs
    else external_vars s chain vs

abbrev pub all_constant : Store → List Variable → Bool
all_constant s [] = true
all_constant s (v ∷ vs) = is_constant s v && all_constant s vs

abbrev pub no_variable : List Variable → Bool
no_variable [] = true
no_variable (v ∷ vs) = false

external_vars-∷ :
    (s : Store) (chain : List Block) (x : Variable) (vs : List Variable)
    → external_vars s chain (x ∷ vs) ≡ external_vars s chain (x ∷ []) ++ external_vars s chain vs
external_vars-∷ s chain x vs = elim (Bool-cases (is_global s x || on_stack s chain x)) [
  | inl h ↦ rw h refl
  | inr h ↦ rw h refl
]

find_from-any :
    (s : Store) (i : ℕ) (xs : List Variable) (v : Variable)
    → not (is_missing (find_from s i xs v)) ≡ any_matches s xs v
unfolding find_from
find_from-any s i [] v = refl
find_from-any s i (x ∷ xs) v = elim (Bool-cases (matches_var s x v)) [
  | inl h ↦ rw h refl
  | inr h ↦ rw h (find_from-any s (suc i) xs v)
]

params_lem :
    (s : Store) (ps : List Variable) (v : Variable)
    → any (λ p. matches_var s p v) ps ≡ any_matches s ps v
params_lem s [] v = refl
params_lem s (p ∷ ps) v = ground (arith, params_lem s ps v)

locals_lem :
    (s : Store) (blocks : List (List Variable)) (v : Variable)
    → any (λ vs. not (is_missing (find_variable_in_set s vs v))) blocks ≡ any_local s blocks v
unfolding find_variable_in_set
locals_lem s [] v = refl
locals_lem s (vs ∷ blocks) v = ground (arith, find_from-any s 0 vs v, locals_lem s blocks v)

on_stack_lem :
    (s : Store) (chain : List Block) (v : Variable)
    → any (λ b. is_var_on_stack s b v) chain ≡ on_stack s chain v
unfolding is_var_on_stack
on_stack_lem s [] v = refl
on_stack_lem s (b ∷ chain) v =
    ground (arith, params_lem s b.param v, locals_lem s b.local_vars v, on_stack_lem s chain v)

is_external_lem :
    (s : Store) (chain : List Block) (v : Variable)
    → is_external s chain v ≡ (is_global s v || on_stack s chain v)
unfolding is_external
is_external_lem s chain v = ground (arith, on_stack_lem s chain v)

-- What an external access does to an effect, one access or many.
record Reads (s : Store) (e g : Effect) (vs : List Variable) : Type 0 where
  read : (v : Variable) → is_read s g v ≡ (is_read s e v || covers (through_struct s) vs v)
  written : (v : Variable) → is_written g v ≡ is_written e v
  purity : g.pure ≡ (e.pure && all_constant s vs)

record Writes (s : Store) (e g : Effect) (vs : List Variable) : Type 0 where
  read : (v : Variable) → is_read s g v ≡ is_read s e v
  written : (v : Variable) → is_written g v ≡ (is_written e v || covers through_all vs v)
  purity : g.pure ≡ (e.pure && no_variable vs)

Reads-read_external :
    (s : Store) (chain : List Block) (e : Effect) (x : Variable)
    → Reads s e (read_external s chain e x) (external_vars s chain (x ∷ []))
unfolding read_external read_var
Reads-read_external s chain e x = elim (Bool-cases (is_global s x || on_stack s chain x)) [
  | inl h ↦
      rw (is_external_lem s chain x, h)
        (record {
          read = λ v. covers-push (through_struct s) e.read_vars x v;
          written = λ v. refl;
          purity = ground arith;
        })
  | inr h ↦
      rw (is_external_lem s chain x, h)
        (record {
          read = λ v. ground (arith, covers-[] (through_struct s) v);
          written = λ v. refl;
          purity = ground arith;
        })
]

Writes-write_external :
    (s : Store) (chain : List Block) (e : Effect) (x : Variable)
    → Writes s e (write_external s chain e x) (external_vars s chain (x ∷ []))
unfolding write_external write_var
Writes-write_external s chain e x = elim (Bool-cases (is_global s x || on_stack s chain x)) [
  | inl h ↦
      rw (is_external_lem s chain x, h)
        (record {
          read = λ v. refl;
          written = λ v. covers-push through_all e.write_vars x v;
          purity = ground arith;
        })
  | inr h ↦
      rw (is_external_lem s chain x, h)
        (record {
          read = λ v. refl;
          written = λ v. ground (arith, covers-[] through_all v);
          purity = ground arith;
        })
]

all_constant-append :
    (s : Store) (vs ws : List Variable)
    → all_constant s (vs ++ ws) ≡ (all_constant s vs && all_constant s ws)
all_constant-append s [] ws = refl
all_constant-append s (v ∷ vs) ws = ground (arith, all_constant-append s vs ws)

no_variable-append :
    (vs ws : List Variable) → no_variable (vs ++ ws) ≡ (no_variable vs && no_variable ws)
no_variable-append [] ws = refl
no_variable-append (v ∷ vs) ws = refl

Reads-add_external_reads :
    (s : Store) (chain : List Block) (e : Effect) (vs : List Variable)
    → Reads s e (add_external_reads s chain e vs) (external_vars s chain vs)
unfolding add_external_reads
Reads-add_external_reads s chain e [] = record {
  read = λ v. ground (arith, covers-[] (through_struct s) v);
  written = λ v. refl;
  purity = ground arith;
}
Reads-add_external_reads s chain e (x ∷ vs) =
    let one = Reads-read_external s chain e x in
    let more = Reads-add_external_reads s chain (read_external s chain e x) vs in
    let first = external_vars s chain (x ∷ []) in
    let rest = external_vars s chain vs in
    rw (external_vars-∷ s chain x vs) (record {
      read = λ v.
          more.read v ∙ ground (arith, one.read v, covers-append (through_struct s) first rest v);
      written = λ v. more.written v ∙ one.written v;
      purity = more.purity ∙ ground (arith, one.purity, all_constant-append s first rest);
    })

Writes-add_external_writes :
    (s : Store) (chain : List Block) (e : Effect) (vs : List Variable)
    → Writes s e (add_external_writes s chain e vs) (external_vars s chain vs)
unfolding add_external_writes
Writes-add_external_writes s chain e [] = record {
  read = λ v. refl;
  written = λ v. ground (arith, covers-[] through_all v);
  purity = ground arith;
}
Writes-add_external_writes s chain e (x ∷ vs) =
    let one = Writes-write_external s chain e x in
    let more = Writes-add_external_writes s chain (write_external s chain e x) vs in
    let first = external_vars s chain (x ∷ []) in
    let rest = external_vars s chain vs in
    rw (external_vars-∷ s chain x vs) (record {
      read = λ v. more.read v ∙ one.read v;
      written = λ v.
          more.written v ∙ ground (arith, one.written v, covers-append through_all first rest v);
      purity = more.purity ∙ ground (arith, one.purity, no_variable-append first rest);
    })

-- Of the effect of a callee, exactly the reads and writes of globals and of variables on the stack
-- of a caller are added: of a parameter of a function in the call chain, or a local of one of its
-- open blocks. The result is pure exactly when the effect was, all the variables read
-- this way are constants and none is written.
pub add_external_effect_filter :
    (s : Store) (e f : Effect) (chain : List Block) (v : Variable)
    → (is_read s (add_external_effect s e f chain) v
        ≡ (is_read s e v || covers (through_struct s) (external_vars s chain f.read_vars) v))
      × (is_written (add_external_effect s e f chain) v
          ≡ (is_written e v || covers through_all (external_vars s chain f.write_vars) v))
      × ((add_external_effect s e f chain).pure ≡ (
          e.pure
          && all_constant s (external_vars s chain f.read_vars)
          && no_variable (external_vars s chain f.write_vars)))
unfolding add_external_effect
add_external_effect_filter s e f chain v =
    let reading = Reads-add_external_reads s chain e f.read_vars in
    let writing =
      Writes-add_external_writes s chain (add_external_reads s chain e f.read_vars) f.write_vars in
    (
      writing.read v ∙ reading.read v,
      writing.written v ∙ ground (arith, reading.written v),
      writing.purity ∙ ground (arith, reading.purity),
    )
