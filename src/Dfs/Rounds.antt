-- ===== src/Dfs/Rounds.antt =====
-- src/DFSProgramGenerator.cpp: one round of the loop, and the numbers that it tries.
use clsmith.Prelude.{
  ℕ, zero, suc, ◌+◌, ◌-◌, ◌≡◌, ◌<◌, refl, sym, ap, ◌∙◌, Bool, true, false, Option, none, some, List,
  [], ◌∷◌, ◌++◌, map, if◌then◌else◌, leb, length, arith, Bool-cases, inl, inr,
}
use mathlib.Core.Path.{subst}
use mathlib.Core.List.{append-nil}
use clsmith.Dfs.{
  States, Generator, Generation, choose, generate, settle, next_valid, is_invalid, reset_state,
  get_sequence, go_generator,
}
use clsmith.Dfs.Outputs.{emit, emit-emit, behind, behind-append, behind-next, zero_plus, kept, led}
use clsmith.Dfs.Paths.{paths, rounds, branches, total}
use clsmith.Dfs.Sequences.{numbered, get_sequence-numbered}
use clsmith.Dfs.Trails.{Marked, Marked-last, paused, Leads, replay}
use clsmith.Dfs.Search.{
  Unset, proceed, choose_next, stopped, with_number, settle_within, cleared, settle_over,
  Marked-with_number, Marked-cleared, Unset-with_number, Unset-cleared,
}

module _ (max : ℕ) (p : Generation) where
  -- What the loop does when the program was generated.
  abbrev pub after : ℕ → Option (Bool × Generator) → Option (List (List ℕ))
  after fuel r = elim r [
    | none ↦ none
    | some (good, g') ↦ elim (go_generator max fuel p (reset_state g')) [
      | none ↦ none
      | some rest ↦ some (if good then get_sequence g'.seq ∷ rest else rest)
    ]
  ]

  -- From a generation on, the loop outputs these paths, and then goes on where the choices so far are
  -- the ones to be changed.
  unfoldable pub Visited : List ℕ → ℕ → ℕ → List (List ℕ) → Option (Bool × Generator) → Type 0
  Visited pre n count xs r =
      (states : States) × Marked 0 pre states
      × Unset max n states
      × ((fuel : ℕ)
          → after (count + fuel) r
            ≡ emit (behind pre xs) (go_generator max fuel p (stopped max n states)))

  pub Visited-failed :
      (pre : List ℕ) (n : ℕ) (g : Generator) (states : States)
      → reset_state g ≡ stopped max n states
      → Marked 0 pre states
      → Unset max n states
      → Visited pre n 0 [] (some (false, g))
  unfolding Visited
  Visited-failed pre n g states e m u = (
    states,
    m,
    u,
    λ fuel.
        ap (λ k. after k (some (false, g))) (zero_plus fuel)
        ∙ (ap (λ h. elim (go_generator max fuel p h) [ none ↦ none | some rest ↦ some rest ]) e
            ∙ kept _),
  )

  pub Visited-finished :
      (pre : List ℕ) (n : ℕ) (states : States)
      → 0 < n
      → Marked 0 pre states
      → Unset max n states
      → Visited pre n 0 ([] ∷ []) (some (true, paused n n pre states))
  unfolding Visited reset_state
  Visited-finished pre n states h m u =
      let more : leb n 0 ≡ false = ground (arith, h) in
      let first : get_sequence (numbered 0 pre) ≡ pre ++ [] =
        get_sequence-numbered pre ∙ sym (append-nil pre) in
      (
        states,
        m,
        u,
        λ fuel.
            ap (λ k. after k (some (true, paused n n pre states))) (zero_plus fuel)
            ∙ (ap
                  (λ b.
                    elim (go_generator max fuel p
                      (record (stopped max n states) { all_done = b })) [
                        | none ↦ none
                        | some rest ↦ some (get_sequence (numbered 0 pre) ∷ rest)
                      ])
                  (sym more)
                ∙ (ap
                      (λ vs. elim (go_generator max fuel p (stopped max n states)) [
                        | none ↦ none
                        | some rest ↦ some (vs ∷ rest)
                      ])
                      first
                    ∙ led (pre ++ []) _)),
      )

  module _ (bound : ℕ) (filter : Option (ℕ → Bool)) (invalid_nums : List ℕ) (next : ℕ → Generation)
      (pre : List ℕ) (n : ℕ) (l : Leads max p 0 pre (choose bound filter invalid_nums next))
      (len : n ≡ length pre) (below : leb max n ≡ false) where
    abbrev pub settled : ℕ → ℕ → States → Option (Bool × Generator)
    settled j v states = proceed max next (
        settle max n bound (next_valid (is_invalid filter invalid_nums) j v)
          (paused (suc n) (suc n) pre states))

    -- The program is generated again up to the position, and the next number is tried there.
    again :
        (v j : ℕ) (states : States)
        → suc v + j ≡ bound
        → Marked 0 (pre ++ (v ∷ [])) states
        → (fuel : ℕ)
        → go_generator max (suc fuel) p (stopped max (suc n) states)
          ≡ after fuel (settled j (suc v) states)
    unfolding go_generator numbered
    again v j states e m fuel =
        let (m', i, c) = Marked-last 0 pre v states m in
        let here : 0 + length pre ≡ n = omega (arith, len) in
        let more : leb (suc n) 0 ≡ false = ground arith in
        let left : bound - suc v ≡ j = omega (arith, e) in
        let run =
          replay max l (suc n) [] states refl (omega (arith, len)) (ground (arith, below)) m' in
        let first =
          choose_next max n bound filter invalid_nums next pre states v below (rw here at i)
            (rw here at c) in
        ap
          (λ b.
            if b
            then some []
            else after fuel (generate max p (record (stopped max (suc n) states) { all_done = b })))
          more
        ∙ ap (after fuel) (
            run
            ∙ (ap
                  (λ k.
                    generate max (choose bound filter invalid_nums next)
                      (paused k (suc n) pre states))
                  here
                ∙ (first ∙ ap (λ k. settled k (suc v) states) left)))

    -- The paths below a valid number, and then those of the numbers after it.
    after_valid :
        (v j : ℕ) (xs ys : List (List ℕ)) (count count' : ℕ) (r : Option (Bool × Generator))
        → suc v + j ≡ bound
        → Visited (pre ++ (v ∷ [])) (suc n) count xs r
        → ((states : States)
            → Marked 0 (pre ++ (v ∷ [])) states
            → Unset max (suc n) states
            → Visited pre n count' ys (settled j (suc v) states))
        → Visited pre n (suc (count + count')) (map (λ vs. v ∷ vs) xs ++ ys) r
    unfolding Visited
    after_valid v j xs ys count count' r e (states, m, u, h) k =
        let (states', m', u', h') = k states m u in
        (
          states',
          m',
          u',
          λ fuel.
              ap (λ k. after k r) (omega arith)
              ∙ (h (suc (count' + fuel))
                  ∙ (ap (emit (behind (pre ++ (v ∷ [])) xs))
                        (again v j states e m (count' + fuel) ∙ h' fuel)
                      ∙ (emit-emit (behind (pre ++ (v ∷ [])) xs) (behind pre ys) _
                          ∙ ap (λ zs. emit zs (go_generator max fuel p (stopped max n states')))
                              (ap (λ zs. zs ++ behind pre ys) (behind-next pre v xs)
                                ∙ sym (behind-append pre (map (λ vs. v ∷ vs) xs) ys))))),
        )

    moved :
        (count : ℕ) (xs : List (List ℕ)) (r r' : Option ℕ × Generator)
        → r ≡ r'
        → Visited pre n count xs (proceed max next r')
        → Visited pre n count xs (proceed max next r)
    moved count xs r r' e t = subst (λ r. Visited pre n count xs (proceed max next r)) (sym e) t

    pub search :
        ((v : ℕ) (states : States)
          → leb bound v ≡ false
          → Marked 0 (pre ++ (v ∷ [])) states
          → Unset max (suc n) states
          → Visited
              (pre ++ (v ∷ []))
              (suc n)
              (rounds max (next v) (suc n))
              (paths max (next v) (suc n))
              (generate max (next v) (paused (suc n) (suc n) (pre ++ (v ∷ [])) states)))
        → (j v : ℕ) (states : States) → v + j ≡ bound
        → Marked 0 pre states
        → Unset max (suc n) states
        → Visited pre n
            (total (is_invalid filter invalid_nums) (λ v. rounds max (next v) (suc n)) v j)
            (branches
              (is_invalid filter invalid_nums)
              (λ v. map (λ vs. v ∷ vs) (paths max (next v) (suc n)))
              v
              j)
            (settled j v states)
    unfolding next_valid total branches reset_state
    search ih zero v states e m u =
        let over : leb bound v ≡ true = ground (arith, e) in
        moved _ _ _ _ (settle_over max n bound pre v states over) (
          Visited-failed pre n
            (record (stopped max n (cleared max n bound pre v states)) {
              current_pos = suc n;
              seq = numbered 0 pre;
            })
            (cleared max n bound pre v states) refl (Marked-cleared max n bound pre v states len m)
            (Unset-cleared max n bound pre v states))
    search ih (suc j) v states e m u = elim (Bool-cases (is_invalid filter invalid_nums v)) [
      | inl c ↦ rw c (search ih j (suc v) states (omega (arith, e)) m u)
      | inr c ↦
          rw c
            let within : leb bound v ≡ false = ground (arith, e) in
              moved _ _ _ _ (settle_within max n bound pre v states within len) (
                after_valid v j _ _ _ _ _ (omega (arith, e))
                  (ih v (with_number max n bound pre v states) within
                    (Marked-with_number max n bound pre v states len m)
                    (Unset-with_number max n bound pre v states u))
                  (λ st m1 u1.
                    search ih j (suc v) st (omega (arith, e)) (Marked-last 0 pre v st m1).0 u1))
    ]
