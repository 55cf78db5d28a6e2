-- ===== src/Contexts/Scope.antt =====
-- src/CGContext.cpp (`find_variable_scope`): where a variable is declared, as seen from a context.
use clsmith.Prelude.{
  ℕ, zero, suc, ◌+◌, ◌-◌, ◌≡◌, ◌⊎◌, inl, inr, ◌≤◌, refl, ap, false, Option, none, some, List, [],
  ◌∷◌, if◌then◌else◌, length, length-append, ◌++◌, ℤ, pos, negsuc, any, get_elem?, arith,
}
use clsmith.Variables.{Variable, Store, matches_var, is_global}
use clsmith.Variables.Sets.{find_variable_in_set, is_missing}
use clsmith.Effects.{Block}
use clsmith.Contexts.{CgContext, Function, get_current_block}

pub data Scope : Type 0 where
  global invisible inactive : Scope
  -- 0 for a parameter, and the depth of its block for a local variable.
  visible : (depth : ℕ) → Scope
  -- An index out of range, a NULL block that is read, or a failed assertion.
  undefined : Scope

-- The loop over the blocks of the current function.
unfoldable pub depth_from : Store → ℕ → List (List Variable) → Variable → Option ℕ
depth_from s i [] v = none
depth_from s i (vars ∷ blocks) v =
    let rest = depth_from s (suc i) blocks v in
    if is_missing (find_variable_in_set s vars v) then rest else some i

-- `n - 1`.
abbrev pred : ℕ → ℤ
pred zero = negsuc 0
pred (suc n) = pos n

-- The loop over the stack frames, which also adds one to its index for each block that it passes.
unfoldable pub frames_from : Store → List Block → ℕ → ℤ → Variable → Option Scope
frames_from s chain zero i v = none
frames_from s chain (suc fuel) (negsuc n) v = some inactive
frames_from s chain (suc fuel) (pos i) v = elim (get_elem? chain i) [
  | none ↦ some undefined
  | some b ↦ elim (depth_from s 0 b.local_vars v) [
    | some k ↦ some invisible
    | none ↦ frames_from s chain fuel (pred (i + length b.local_vars)) v
  ]
]

-- With fuel for the frames; `none` for a loop that has not ended within it.
unfoldable pub find_variable_scope : Store → ℕ → CgContext → Variable → Option Scope
find_variable_scope s fuel c v = if is_global s v then some global else elim c.current_func [
  | none ↦ some undefined
  | some f ↦
      if any (λ p. matches_var s p v) f.param
      then some (visible 0)
      else elim (get_current_block c) [
        | none ↦ some undefined
        | some b ↦ elim (depth_from s 1 b.local_vars v) [
          | some i ↦ some (visible i)
          | none ↦ frames_from s c.call_chain fuel (pred (length c.call_chain)) v
        ]
      ]
]

pred-suc : (n k : ℕ) → n ≡ suc k → pred n ≡ pos k
pred-suc n k h = ap pred h

get_elem-last :
    (init : List Block) (b : Block) → get_elem? (init ++ (b ∷ [])) (length init) ≡ some b
get_elem-last [] b = refl
get_elem-last (x ∷ init) b = get_elem-last init b

get_elem-beyond : (xs : List Block) (i : ℕ) → length xs ≤ i → get_elem? xs i ≡ none
get_elem-beyond [] i h = refl
get_elem-beyond (x ∷ xs) zero h = absurd (omega (arith, h))
get_elem-beyond (x ∷ xs) (suc i) h = get_elem-beyond xs i (omega (arith, h))

module _ (s : Store) (init : List Block) (b : Block) (v : Variable)
    (absent : depth_from s 0 b.local_vars v ≡ none) where
  -- A frame with one block leaves the index where it is.
  frames-one :
      (fuel : ℕ)
      → length b.local_vars ≡ 1
      → frames_from s (init ++ (b ∷ [])) fuel (pos (length init)) v ≡ none
  unfolding frames_from
  frames-one zero h = refl
  frames-one (suc fuel) h =
      let p : pred (length init + length b.local_vars) ≡ pos (length init) =
        pred-suc _ _ (omega (arith, h)) in
      rw (frames_from, get_elem-last init b, absent, p) (frames-one fuel h)

  -- One with more blocks takes it out of range.
  frames-more :
      (fuel : ℕ)
      → 2 ≤ length b.local_vars
      → (frames_from s (init ++ (b ∷ [])) fuel (pos (length init)) v ≡ none)
        ⊎ (frames_from s (init ++ (b ∷ [])) fuel (pos (length init)) v ≡ some undefined)
  unfolding frames_from
  frames-more zero h = inl refl
  frames-more (suc zero) h = inl (rw (frames_from, get_elem-last init b, absent) refl)
  frames-more (suc (suc fuel)) h =
      let beyond = length init + (length b.local_vars - 1) in
      let p : pred (length init + length b.local_vars) ≡ pos beyond =
        pred-suc _ _ (omega (arith, h)) in
      let out : get_elem? (init ++ (b ∷ [])) beyond ≡ none =
        get_elem-beyond (init ++ (b ∷ [])) beyond (omega (arith, h, length-append init (b ∷ []))) in
      inr (rw (frames_from, get_elem-last init b, absent, p, frames_from, out) refl)

-- A variable that is neither global nor a parameter nor in a block of the current function is never
-- found to be out of the active frames (`inactive`), nor in any frame but the last: unless it is in
-- the last frame, the search of a call chain does not end, for any fuel, or reads out of range.
pub find_variable_scope_frames :
    (s : Store) (c : CgContext) (f : Function) (current : Block) (init : List Block) (b : Block)
    (v : Variable) (fuel : ℕ)
    → is_global s v ≡ false
    → c.current_func ≡ some f
    → any (λ p. matches_var s p v) f.param ≡ false
    → get_current_block c ≡ some current
    → depth_from s 1 current.local_vars v ≡ none
    → c.call_chain ≡ init ++ (b ∷ [])
    → depth_from s 0 b.local_vars v ≡ none
    → 1 ≤ length b.local_vars
    → (find_variable_scope s fuel c v ≡ none) ⊎ (find_variable_scope s fuel c v ≡ some undefined)
unfolding find_variable_scope
find_variable_scope_frames s c f current init b v fuel g hf hp hc hd chain absent one =
    let p : pred (length (init ++ (b ∷ []))) ≡ pos (length init) =
      pred-suc _ _ (omega (arith, length-append init (b ∷ []))) in
    rw (g, hf, hp, hc, hd, chain, p)
      (elim (one_or_more (length b.local_vars) one) [
        | inl h ↦ inl (frames-one s init b v absent fuel h)
        | inr h ↦ frames-more s init b v absent fuel h
      ])
  where
    one_or_more : (n : ℕ) → 1 ≤ n → (n ≡ 1) ⊎ (2 ≤ n)
    one_or_more zero h = absurd (omega (arith, h))
    one_or_more (suc zero) h = inl refl
    one_or_more (suc (suc n)) h = inr (omega arith)
