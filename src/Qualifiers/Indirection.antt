-- ===== src/Qualifiers/Indirection.antt =====
-- src/CVQualifiers.cpp: taking an address and dereferencing.
use clsmith.Prelude.{
  ℕ, zero, suc, ◌+◌, ◌-◌, ◌≤◌, ◌<◌, ◌≡◌, refl, sym, ap, ◌∙◌, ◌&&◌, Bool, true, false, List, [], ◌∷◌,
  ◌++◌, some, length, get_elem?, pop_back, ltb, Bool-cases, inl, inr, arith, pos, negsuc, sub_ℕ,
  ◌==◌, ℤ,
}
use native.Mathlib.Nat.{zero-add}
use clsmith.Options.{CgOptions}
use clsmith.Qualifiers.Order.{IsPaired, IsPaired-test}
use clsmith.Qualifiers.{
  CvQualifiers, add_qualifiers, remove_qualifiers, indirect_qualifiers, match_after_deref,
  match_indirect, matches, level_after_deref, is_const_after_deref, is_volatile_after_deref,
  sanity_check, stricter_than, is_stricter, is_paired, levels_equal,
}

length-snoc : (xs : List Bool) (b : Bool) → length (xs ++ b ∷ []) ≡ suc (length xs)
length-snoc [] b = refl
length-snoc (x ∷ xs) b = ap suc (length-snoc xs b)

pop_back-snoc : (xs : List Bool) (b : Bool) → pop_back (xs ++ b ∷ []) ≡ some xs
pop_back-snoc [] b = refl
pop_back-snoc (x ∷ []) b = refl
pop_back-snoc (x ∷ y ∷ xs) b = rw (pop_back-snoc (y ∷ xs) b)

-- `pop_back` drops the last element and keeps the others in their places.
pop_back_lem :
    (xs : List Bool)
    → 0 < length xs
    → (ys : List Bool) × (pop_back xs ≡ some ys)
      × (suc (length ys) ≡ length xs)
      × ((i : ℕ) → i < length ys → get_elem? ys i ≡ get_elem? xs i)
pop_back_lem [] h = elim h [ ]
pop_back_lem (x ∷ []) h = ([], refl, refl, λ i l. elim l [ ])
pop_back_lem (x ∷ y ∷ xs) h =
    let (ys, e, l, g) = pop_back_lem (y ∷ xs) (omega arith) in (x ∷ ys, rw e, ap suc l, same ys g)
  where
    same :
        (ys : List Bool)
        → ((i : ℕ) → i < length ys → get_elem? ys i ≡ get_elem? (y ∷ xs) i)
        → (i : ℕ) → i < length (x ∷ ys)
        → get_elem? (x ∷ ys) i ≡ get_elem? (x ∷ y ∷ xs) i
    same ys g zero l = refl
    same ys g (suc i) l = g i (omega arith)

-- `ys` is `xs` without its last `n` elements.
record Dropped (n : ℕ) (xs ys : List Bool) : Type 0 where
  shorter : length ys + n ≡ length xs
  kept : (i : ℕ) → i < length ys → get_elem? ys i ≡ get_elem? xs i

-- Level `d` of what is left was level `n + d`.
Dropped-level :
    (n : ℕ) (xs ys : List Bool)
    → Dropped n xs ys
    → (d : ℕ) → d < length ys
    → level_after_deref ys (pos d) ≡ level_after_deref xs (pos (n + d))
unfolding level_after_deref
Dropped-level n xs ys dr d l =
    let i : length xs - (n + d) - 1 ≡ length ys - d - 1 = omega (arith, dr.shorter) in
    let a : ltb d (length ys) ≡ true = ground arith in
    let b : ltb (n + d) (length xs) ≡ true = ground (arith, dr.shorter) in
    rw (a, b, i) (dr.kept (length ys - d - 1) (omega arith))

-- With enough levels of both kinds `remove_qualifiers` drops the last `n` of each.
remove_qualifiers_lem :
    (n : ℕ) (q : CvQualifiers)
    → n ≤ length q.is_consts
    → n ≤ length q.is_volatiles
    → (r : CvQualifiers) × (remove_qualifiers n q ≡ some r)
      × Dropped n q.is_consts r.is_consts
      × Dropped n q.is_volatiles r.is_volatiles
      × (r.wildcard ≡ q.wildcard)
unfolding remove_qualifiers
remove_qualifiers_lem zero q h g = (
  q,
  refl,
  record { shorter = omega arith; kept = λ i l. refl },
  record { shorter = omega arith; kept = λ i l. refl },
  refl,
)
remove_qualifiers_lem (suc n) q h g =
    let (cs, ce, cl, ck) = pop_back_lem q.is_consts (omega arith) in
    let (vs, ve, vl, vk) = pop_back_lem q.is_volatiles (omega arith) in
    let (r, e, dc, dv, w) =
      remove_qualifiers_lem n (record q { is_consts = cs; is_volatiles = vs }) (omega arith)
        (omega arith) in
    (
      r,
      rw (ce, ve, remove_qualifiers) e,
      record {
        shorter = omega (arith, dc.shorter);
        kept = λ i l. dc.kept i l ∙ ck i (omega (arith, dc.shorter));
      },
      record {
        shorter = omega (arith, dv.shorter);
        kept = λ i l. dv.kept i l ∙ vk i (omega (arith, dv.shorter));
      },
      w,
    )

-- Dereferencing `n` times: qualifiers that fit a type with at least `n` pointer levels give, with no
-- assertion failed, qualifiers that fit the type below, and each level after `d` further
-- dereferences has the const and the volatile that it had after `n + d`.
pub indirect_qualifiers-deref :
    (q : CvQualifiers) (n level : ℕ)
    → q.wildcard ≡ false
    → sanity_check q (n + level) ≡ true
    → (r : CvQualifiers) × (indirect_qualifiers q (pos n) ≡ some r)
      × (sanity_check r level ≡ true)
      × ((d : ℕ)
          → d ≤ level
          → (is_const_after_deref r (pos d) ≡ is_const_after_deref q (pos (n + d)))
            × (is_volatile_after_deref r (pos d) ≡ is_volatile_after_deref q (pos (n + d))))
unfolding sanity_check indirect_qualifiers
indirect_qualifiers-deref q zero level w s =
    (q, refl, rw zero-add at s, λ d l. rw zero-add (refl, refl))
indirect_qualifiers-deref q (suc n) level w s =
    let (r, e, dc, dv, wr) = remove_qualifiers_lem (suc n) q (ground arith) (ground arith) in
    let long : suc level ≡ length r.is_consts = ground (arith, dc.shorter) in
    let long' : suc level ≡ length r.is_volatiles = ground (arith, dv.shorter) in
    (
      r,
      simp w e,
      ground arith,
      λ d l. (
        Dropped-level (suc n) q.is_consts r.is_consts dc d (omega (arith, long)),
        Dropped-level (suc n) q.is_volatiles r.is_volatiles dv d (omega (arith, long')),
      ),
    )

-- Taking the address of a variable and dereferencing the pointer gives the qualifiers back.
pub indirect_qualifiers_round_trip :
    (q r : CvQualifiers)
    → indirect_qualifiers q (negsuc 0) ≡ some r
    → indirect_qualifiers r (pos 1) ≡ some q
unfolding indirect_qualifiers
indirect_qualifiers_round_trip q r e =
    ground (arith, pop_back-snoc q.is_consts false, pop_back-snoc q.is_volatiles false)

deref_total :
    (r : CvQualifiers) (n : ℕ)
    → n ≤ length r.is_consts
    → IsPaired r
    → (r' : CvQualifiers) × (indirect_qualifiers r (pos n) ≡ some r') × IsPaired r'
unfolding indirect_qualifiers
deref_total r zero h p = (r, refl, p)
deref_total r (suc n) h p = elim (Bool-cases r.wildcard) [
  | inl w ↦ (r, simp w refl, p)
  | inr w ↦
      let (r', e, dc, dv, wr) = remove_qualifiers_lem (suc n) r h (omega (arith, h, p)) in
      (r', simp w e, omega (arith, dc.shorter, dv.shorter, p))
]

address_total :
    (r : CvQualifiers)
    → IsPaired r
    → (r' : CvQualifiers) × (indirect_qualifiers r (negsuc 0) ≡ some r') × IsPaired r'
unfolding indirect_qualifiers add_qualifiers
address_total r p = elim (Bool-cases r.wildcard) [
  | inl w ↦ (r, simp w refl, p)
  | inr w ↦ (
    add_qualifiers r false false,
    simp w refl,
    length-snoc r.is_consts false ∙ ap suc p ∙ sym (length-snoc r.is_volatiles false),
  )
]

matches_total :
    (o : CgOptions) (q r : CvQualifiers)
    → IsPaired q
    → IsPaired r
    → (b : Bool) × (matches o q r ≡ some b)
unfolding matches stricter_than
matches_total o q r p p' =
    let t : is_paired q ≡ true = (IsPaired-test q).1 p in
    let t' : is_paired r ≡ true = (IsPaired-test r).1 p' in
    elim (Bool-cases q.wildcard) [
      | inl w ↦ (true, rw w refl)
      | inr w ↦ elim (Bool-cases o.match_exact_qualifiers) [
        | inl e ↦ (
          levels_equal q.is_consts r.is_consts && levels_equal q.is_volatiles r.is_volatiles,
          rw (w, e) refl,
        )
        | inr e ↦
            elim (Bool-cases
              (length q.is_consts == length r.is_consts && length q.is_consts == 1)) [
                | inl l ↦ (true, rw (w, e, l, t) refl)
                | inr l ↦ elim (Bool-cases q.accept_stricter) [
                  | inl a ↦ (is_stricter r q, rw (w, e, l, a, t') refl)
                  | inr a ↦ (is_stricter q r, rw (w, e, l, a, t) refl)
                ]
              ]
      ]
    ]

match_after_deref_total :
    (o : CgOptions) (q r : CvQualifiers) (d : ℤ)
    → ((n : ℕ) → d ≡ pos n → n ≤ length r.is_consts)
    → IsPaired q
    → IsPaired r
    → (b : Bool) × (match_after_deref o q r d ≡ some b)
unfolding match_after_deref
match_after_deref_total o q r (negsuc (suc n)) h p p' = (false, refl)
match_after_deref_total o q r (negsuc zero) h p p' =
    let (r', e, paired) = address_total r p' in
    let (b, m) = matches_total o q r' p paired in (b, rw (e, match_after_deref) m)
match_after_deref_total o q r (pos n) h p p' =
    let (r', e, paired) = deref_total r n (h n refl) p' in
    let (b, m) = matches_total o q r' p paired in (b, rw (e, match_after_deref) m)

-- `match_indirect` fails no assertion and pops no empty vector on two qualifiers that have as many
-- const levels as volatile ones each: it yields a Boolean, whatever their depths are.
pub match_indirect_total :
    (o : CgOptions) (q r : CvQualifiers)
    → length q.is_consts ≡ length q.is_volatiles
    → length r.is_consts ≡ length r.is_volatiles
    → (b : Bool) × (match_indirect o q r ≡ some b)
unfolding match_indirect
match_indirect_total o q r p p' =
    let (b, e) =
      match_after_deref_total o q r (sub_ℕ (length r.is_consts) (length q.is_consts))
        (λ n e. ground arith) p p' in
    let (b', e') = matches_total o q r p p' in
    elim (Bool-cases q.wildcard) [
      | inl w ↦ (true, simp w refl)
      | inr w ↦ elim (Bool-cases (length q.is_consts == length r.is_consts)) [
        | inl t ↦ (b', simp (w, t) e')
        | inr t ↦ (b, simp (w, t) e)
      ]
    ]
