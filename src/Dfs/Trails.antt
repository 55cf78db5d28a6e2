-- ===== src/Dfs/Trails.antt =====
-- src/DFSRndNumGenerator.cpp: how a program is generated up to the position whose number changes.
use clsmith.Prelude.{
  ℕ, suc, ◌+◌, ◌-◌, ◌≡◌, ◌≤◌, ◌<◌, refl, ap, ◌∙◌, Bool, true, false, ◌&&◌, Option, some, List, [],
  ◌∷◌, ◌++◌, ltb, leb, length, length-append, arith, Bool-cases, inl, inr,
}
use mathlib.Core.List.{append-nil, append_assoc}
use clsmith.Dfs.{
  States, Generator, Generation, choose, need, generate, rnd_number, random_choice, revisit_node,
  eager_backtracking, is_there,
}
use clsmith.Dfs.Paths.{is_in_reach}
use clsmith.Dfs.Sequences.{numbered, add_next}

-- The states from a position on have these numbers.
abbrev pub Marked : ℕ → List ℕ → States → Type 0
Marked n [] states = Unit
Marked n (v ∷ vs) states =
    ((states n).init ≡ true) × ((states n).value ≡ v) × Marked (suc n) vs states

-- The generator after some choices.
abbrev pub paused : ℕ → ℕ → List ℕ → States → Generator
paused n depth pre states = record {
  decision_depth = depth;
  current_pos = n;
  all_done = false;
  seq = numbered 0 pre;
  states = states;
}

plus_zero : (n : ℕ) → n + 0 ≡ n
plus_zero n = omega arith

plus_suc : (n k : ℕ) → n + suc k ≡ suc n + k
plus_suc n k = omega arith

pub Marked-same :
    (n : ℕ) (vs : List ℕ) (states states' : States)
    → ((i : ℕ) → n ≤ i → i < n + length vs → states' i ≡ states i)
    → Marked n vs states
    → Marked n vs states'
Marked-same n [] states states' h m = tt
Marked-same n (v ∷ vs) states states' h (i, e, m) =
    let same : states' n ≡ states n = h n (omega arith) (omega arith) in
    (
      rw same i,
      rw same e,
      Marked-same (suc n) vs states states' (λ k a b. h k (omega (arith, a)) (omega (arith, b))) m,
    )

pub Marked-next :
    (n : ℕ) (vs : List ℕ) (v : ℕ) (states : States)
    → Marked n vs states
    → (states (n + length vs)).init ≡ true
    → (states (n + length vs)).value ≡ v
    → Marked n (vs ++ (v ∷ [])) states
Marked-next n [] v states m i e = (rw (plus_zero n) at i, rw (plus_zero n) at e, tt)
Marked-next n (w ∷ vs) v states (j, f, m) i e = (
  j,
  f,
  Marked-next (suc n) vs v states m (rw (plus_suc n (length vs)) at i)
      (rw (plus_suc n (length vs)) at e),
)

pub Marked-last :
    (n : ℕ) (vs : List ℕ) (v : ℕ) (states : States)
    → Marked n (vs ++ (v ∷ [])) states
    → Marked n vs states
      × ((states (n + length vs)).init ≡ true)
      × ((states (n + length vs)).value ≡ v)
Marked-last n [] v states (i, e, m) = rw (plus_zero n) (tt, i, e)
Marked-last n (w ∷ vs) v states (j, f, m) =
    let (m', i, e) = Marked-last (suc n) vs v states m in
    rw (plus_suc n (length vs)) ((j, f, m'), i, e)

module _ (max : ℕ) where
  -- Choices after which a part of the program is left.
  pub data Leads : Generation → ℕ → List ℕ → Generation → Type 0 where
    here : {p : Generation} → {n : ℕ} → Leads p n [] p
    chosen :
        {bound : ℕ}
        → {filter : Option (ℕ → Bool)} → {invalid_nums : List ℕ} → {next : ℕ → Generation} → {n : ℕ}
        → {v : ℕ} → {vs : List ℕ} → {q : Generation} → leb bound v ≡ false
        → Leads (next v) (suc n) vs q
        → Leads (choose bound filter invalid_nums next) n (v ∷ vs) q
    passed :
        {depth_needed : ℕ}
        → {next : Generation} → {n : ℕ} → {vs : List ℕ} → {q : Generation}
        → is_in_reach max n depth_needed ≡ true
        → Leads next n vs q
        → Leads (need depth_needed next) n vs q

  pub Leads-choose :
      {p : Generation}
      → {n : ℕ} → {vs : List ℕ} → {bound : ℕ} → {filter : Option (ℕ → Bool)}
      → {invalid_nums : List ℕ} → {next : ℕ → Generation}
      → Leads p n vs (choose bound filter invalid_nums next)
      → (v : ℕ) → leb bound v ≡ false
      → Leads p n (vs ++ (v ∷ [])) (next v)
  Leads-choose here v h = chosen h here
  Leads-choose (chosen e l) v h = chosen e (Leads-choose l v h)
  Leads-choose (passed e l) v h = passed e (Leads-choose l v h)

  pub Leads-need :
      {p : Generation}
      → {n : ℕ} → {vs : List ℕ} → {depth_needed : ℕ} → {next : Generation}
      → Leads p n vs (need depth_needed next)
      → is_in_reach max (n + length vs) depth_needed ≡ true
      → Leads p n vs next
  Leads-need {n} here h = passed (rw (plus_zero n) at h) here
  Leads-need (chosen e l) h = chosen e (Leads-need l (rw (plus_suc _ _) at h))
  Leads-need (passed e l) h = passed e (Leads-need l h)

  eager_lem :
      (n depth depth_needed : ℕ) (pre : List ℕ) (states : States)
      → is_in_reach max n depth_needed ≡ true
      → eager_backtracking max depth_needed (paused n depth pre states)
        ≡ (false, paused n depth pre states)
  unfolding eager_backtracking
  eager_lem n depth depth_needed pre states h = elim (Bool-cases (leb n 1)) [
    | inl e ↦ rw (eager_backtracking, e) refl
    | inr e ↦
        let t : leb depth_needed (max - (n - 1)) ≡ true = ground (arith, h, e) in
        rw (eager_backtracking, e, t) refl
  ]

  pub generate-need :
      (n depth depth_needed : ℕ) (next : Generation) (pre : List ℕ) (states : States)
      → is_in_reach max n depth_needed ≡ true
      → generate max (need depth_needed next) (paused n depth pre states)
        ≡ generate max next (paused n depth pre states)
  unfolding generate
  generate-need n depth depth_needed next pre states h =
      ap (λ r. elim r.0 [ true ↦ some (false, r.1) | false ↦ generate max next r.1 ])
        (eager_lem n depth depth_needed pre states h)

  revisit :
      (n depth bound : ℕ) (filter : Option (ℕ → Bool)) (invalid_nums : List ℕ) (pre : List ℕ)
      (v : ℕ) (states : States)
      → n ≡ length pre
      → suc n < depth
      → depth ≤ max
      → (states n).init ≡ true
      → (states n).value ≡ v
      → leb bound v ≡ false
      → rnd_number max bound filter invalid_nums (paused n depth pre states)
        ≡ some (some v, paused (suc n) depth (pre ++ (v ∷ [])) states)
  unfolding rnd_number random_choice revisit_node
  revisit n depth bound filter invalid_nums pre v states len inside below i e b =
      let over : leb max n ≡ false = ground (arith, inside, below) in
      let deep : ltb max depth ≡ false = ground (arith, below) in
      let inner : ltb (suc n) depth ≡ true = ground (arith, inside) in
      let kept : (is_there filter && leb bound v) ≡ false = ground (arith, b) in
      rw (rnd_number, random_choice, over, deep, inner, i, revisit_node, e, kept, b)
        (rw (add_next n pre v len) refl)

  -- A program that is generated again makes the choices that it made before.
  pub replay :
      {p : Generation}
      → {n : ℕ} → {vs : List ℕ} → {q : Generation} → Leads p n vs q
      → (depth : ℕ) (pre : List ℕ) (states : States) → n ≡ length pre
      → n + length vs < depth
      → depth ≤ max
      → Marked n vs states
      → generate max p (paused n depth pre states)
        ≡ generate max q (paused (n + length vs) depth (pre ++ vs) states)
  unfolding generate
  replay {n} here depth pre states len inside below m = rw (plus_zero n, append-nil pre) refl
  replay {n} (chosen {bound} {filter} {invalid_nums} {v} {vs} e l) depth pre states len inside below
        (i, val, m) =
      rw
        (
          generate,
          revisit n depth bound filter invalid_nums pre v states len (omega (arith, inside)) below i
              val e,
        )
        (replay l depth (pre ++ (v ∷ [])) states
            (rw (length-append pre (v ∷ [])) (omega (arith, len))) (omega (arith, inside)) below m
          ∙ rw (append_assoc pre (v ∷ []) vs, plus_suc n (length vs)) refl)
  replay {n} (passed {depth_needed} {next} e l) depth pre states len inside below m =
      generate-need n depth depth_needed next pre states e
      ∙ replay l depth pre states len inside below m
