-- ===== src/Contexts.antt =====
-- src/CGContext.h, src/CGContext.cpp: the context in which the generator makes an expression or a
-- statement: what the code around it has accessed, and what the code made so far accesses.
-- `effect_context` is what the surrounding code does at the same time, `effect_accum` (a pointer that
-- may be NULL) and `effect_stm` are what has been made. `curr_rhs`, which the context only carries,
-- and the counters of `Bookkeeper` are left out; `sanity_check` is empty in the source.
pub mod Checks
pub mod Pointed
pub mod Scope
pub mod Conflicts
pub mod Steps
pub mod Safe
pub mod Guarded
pub mod Restored
use clsmith.Prelude.{
  ℕ, zero, suc, ◌+◌, ◌/◌, ◌%◌, Bool, true, false, not, ◌&&◌, ◌||◌, Option, none, some, List, [],
  ◌∷◌, ◌++◌, if◌then◌else◌, any, ℤ, pos, negsuc, ◌==◌, map,
}
use clsmith.Options.{CgOptions}
use clsmith.Types.{CType}
use clsmith.Types.Size.{is_volatile_struct_union}
use clsmith.Qualifiers.{Access, is_write}
use clsmith.Variables.{Variable, Store, matches_var, loose_match, get_collective, is_global, var_eq}
use clsmith.Variables.Sets.{find_variable_in_set, is_missing, is_variable_in_set}
use clsmith.Variables.Qualified.{is_const, is_volatile, is_volatile_after_deref, asserted}
use clsmith.Effects.{
  Effect, Block, empty_effect, read_var, write_var, access_deref_volatile, meets_volatile,
  add_effect, add_external_effect,
}
use clsmith.Effects.Partial.{is_read_partially, is_written_partially}

pub record RwDirective : Type 0 where
  pub no_read_vars : List Variable
  pub no_write_vars : List Variable
  pub must_read_vars : List Variable
  pub must_write_vars : List Variable

-- Of a function, its parameters and the stack of the blocks that are being made.
pub record Function : Type 0 where
  pub param : List Variable
  pub stack : List Block

pub record CgContext : Type 0 where
  -- `none` for NULL.
  pub current_func : Option Function
  pub blk_depth : ℕ
  pub expr_depth : ℕ
  pub flags : ℕ
  pub call_chain : List Block
  pub curr_blk : Option Block
  pub rw_directive : Option RwDirective
  pub iv_bounds : List (Variable × ℕ)
  pub effect_context : Effect
  pub effect_accum : Option Effect
  pub effect_stm : Effect
  pub atomic_context : Bool
  pub emi_context : Bool

-- IN_LOOP and NO_DANGLING_PTR.
abbrev pub has_flag : ℕ → ℕ → Bool
has_flag flags bit = flags / bit % 2 == 1

abbrev pub with_flag : ℕ → ℕ → ℕ
with_flag flags bit = if has_flag flags bit then flags else flags + bit

abbrev pub in_loop : ℕ
in_loop = 2

abbrev pub no_dangling_ptr : ℕ
no_dangling_ptr = 8

unfoldable pub last_block : List Block → Option Block
last_block [] = none
last_block (b ∷ bs) = let rest = last_block bs in elim rest [ none ↦ some b | some l ↦ some l ]

unfoldable pub get_current_block : CgContext → Option Block
get_current_block c = elim c.current_func [ none ↦ none | some f ↦ last_block f.stack ]

-- The part of `extend_call_chain` that chooses the block; an empty list for NULL.
abbrev pub block_to_push : CgContext → List Block
block_to_push c = elim (get_current_block c) [
  | some b ↦ b ∷ []
  | none ↦ elim c.curr_blk [ none ↦ [] | some b ↦ b ∷ [] ]
]

unfoldable pub extend_call_chain : CgContext → CgContext → CgContext
extend_call_chain c other = record c { call_chain = other.call_chain ++ block_to_push other }

-- The four constructors: at the entry of a function, for the parameters of a call, for a callee and
-- for the body of a loop.
unfoldable pub of_function : Option Function → Effect → Option Effect → CgContext
of_function f eff_context eff_accum = record {
  current_func = f;
  blk_depth = 0;
  expr_depth = 0;
  flags = 0;
  call_chain = [];
  curr_blk = none;
  rw_directive = none;
  iv_bounds = [];
  effect_context = eff_context;
  effect_accum = eff_accum;
  effect_stm = empty_effect;
  atomic_context = false;
  emi_context = false;
}

unfoldable pub of_parameters : CgContext → Effect → Option Effect → CgContext
of_parameters c eff_context eff_accum = record c {
  effect_context = eff_context;
  effect_accum = eff_accum;
  effect_stm = empty_effect;
}

unfoldable pub of_callee : CgContext → Function → Effect → Option Effect → CgContext
of_callee c f eff_context eff_accum =
    extend_call_chain
      (record c {
        current_func = some f;
        blk_depth = 0;
        expr_depth = 0;
        effect_context = eff_context;
        effect_accum = eff_accum;
        effect_stm = empty_effect;
        emi_context = false;
      })
      c

-- `iv_bounds[iv] = bound`.
unfoldable pub bind_iv : List (Variable × ℕ) → Variable → ℕ → List (Variable × ℕ)
bind_iv [] iv bound = (iv, bound) ∷ []
bind_iv (b ∷ bs) iv bound =
    let rest = bind_iv bs iv bound in if var_eq b.0 iv then (iv, bound) ∷ bs else b ∷ rest

unfoldable pub of_loop : CgContext → Option RwDirective → Option Variable → ℕ → CgContext
of_loop c rwd iv bound = record c {
  expr_depth = 0;
  flags = with_flag c.flags in_loop;
  rw_directive = rwd;
  iv_bounds = elim iv [ none ↦ c.iv_bounds | some v ↦ bind_iv c.iv_bounds v bound ];
  effect_stm = empty_effect;
}

-- A field of the directive, and nothing where there is none.
abbrev pub directed : (RwDirective → List Variable) → Option RwDirective → List Variable
directed f none = []
directed f (some d) = f d

module _ (s : Store) where
  unfoldable pub is_nonreadable : CgContext → Variable → Bool
  is_nonreadable c v = any (λ w. matches_var s w v) (directed (λ d. d.no_read_vars) c.rw_directive)

  unfoldable pub is_nonwritable : CgContext → Variable → Bool
  is_nonwritable c v =
      any (λ w. loose_match s w v || loose_match s v w)
        (directed (λ d. d.no_write_vars) c.rw_directive)
      || any (λ b. loose_match s v b.0) c.iv_bounds

  -- Applying a method of `Effect` to `effect_accum`, unless it is NULL, and to `effect_stm`.
  abbrev pub on_effects : (Effect → Effect) → (Effect → Effect) → CgContext → CgContext
  on_effects f g c = record c {
    effect_accum = elim c.effect_accum [ none ↦ none | some e ↦ some (f e) ];
    effect_stm = g c.effect_stm;
  }

  -- The loop of `check_deref_volatile`.
  abbrev pub volatile_below : Variable → ℤ → Bool
  volatile_below v (negsuc n) = false
  volatile_below v (pos n) = meets_volatile s v n

  unfoldable pub check_deref_volatile : CgOptions → CgContext → Variable → ℤ → Bool × CgContext
  check_deref_volatile o c v deref_level =
      if not o.strict_volatile_rule
      then (true, c)
      else if not c.effect_context.side_effect_free && volatile_below v deref_level
      then (false, c)
      else (
        true,
        on_effects (λ e. access_deref_volatile s o e v deref_level)
            (λ e. access_deref_volatile s o e v deref_level) c,
      )

  -- `none` is the failed assertion that the variable may be read, or written.
  unfoldable pub context_read_var : CgContext → Variable → Option CgContext
  context_read_var c v =
      let w = get_collective s v in
      if is_nonreadable c w
      then none
      else some (on_effects (λ e. read_var s e w) (λ e. read_var s e w) c)

  unfoldable pub context_write_var : CgContext → Variable → Option CgContext
  context_write_var c v =
      let w = get_collective s v in
      if is_nonwritable c w
      then none
      else some (on_effects (λ e. write_var s e w) (λ e. write_var s e w) c)

  unfoldable pub context_add_effect : CgContext → Effect → Bool → CgContext
  context_add_effect c e include_lhs_effects =
      on_effects (λ f. add_effect s f e include_lhs_effects) (λ f. add_effect s f e false) c

  -- `none` where the accumulated effect of the parameters is NULL, which the source reads.
  unfoldable pub merge_param_context : CgContext → CgContext → Bool → Option CgContext
  merge_param_context c param_cg_context include_lhs_effects = elim param_cg_context.effect_accum [
    | none ↦ none
    | some e ↦ some (record (context_add_effect c e include_lhs_effects) {
      expr_depth = param_cg_context.expr_depth;
    })
  ]

  unfoldable pub context_add_external_effect : CgContext → Effect → CgContext
  context_add_external_effect c e =
      on_effects (λ f. add_external_effect s f e []) (λ f. add_external_effect s f e []) c

  unfoldable pub add_visible_effect : CgContext → Effect → Block → CgContext
  add_visible_effect c e b =
      let callers = c.call_chain ++ (b ∷ []) in
      on_effects (λ f. add_external_effect s f e callers) (λ f. add_external_effect s f e callers) c

abbrev pub allow_volatile : CgContext → Bool
allow_volatile c = c.effect_context.side_effect_free

abbrev pub allow_const : Access → Bool
allow_const access = not (is_write access)

abbrev pub accept_type : CgContext → CType → Bool
accept_type c t = c.effect_context.side_effect_free || not (is_volatile_struct_union t)

-- `depth` bounds how deep structs and unions are nested in each other.
module _ (s : Store) (depth : ℕ) where
  abbrev pub read_conflict : CgContext → Variable → Bool
  read_conflict c v =
      is_nonreadable s c v
      || is_written_partially s depth c.effect_context v
      || (is_volatile s v && not c.effect_context.side_effect_free)

  abbrev pub write_conflict : CgContext → Variable → Bool
  write_conflict c v =
      (is_nonwritable s c v || is_const s v)
      || is_written_partially s depth c.effect_context v
      || is_read_partially s depth c.effect_context v
      || (is_volatile s v && not c.effect_context.side_effect_free)

  unfoldable pub in_conflict : CgContext → Effect → Bool
  in_conflict c eff = any (read_conflict c) eff.read_vars || any (write_conflict c) eff.write_vars
