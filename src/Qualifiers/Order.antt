-- ===== src/Qualifiers/Order.antt =====
-- src/CVQualifiers.cpp: `stricter_than` as an order.
use clsmith.Prelude.{
  ◌<◌, ◌≡◌, refl, ◌↔◌, ◌∙◌, Bool, true, false, length, get_or, ltb, arith, ◌==◌, ==_iff, Bool-cases,
  inl, inr, some, none,
}
use mathlib.Core.Option.{some-injective}
use clsmith.Qualifiers.{CvQualifiers, levels_stricter, is_stricter, is_paired, stricter_than}
use clsmith.Qualifiers.Levels.{
  IsStricter, levels_stricter_sound, levels_stricter_complete, levels_stricter_refl,
  levels_stricter_trans, levels_stricter_antisymm,
}

-- What the source asserts of every qualifier: as many const levels as volatile ones.
abbrev pub IsPaired : CvQualifiers → Type 0
IsPaired q = length q.is_consts ≡ length q.is_volatiles

abbrev storage : CvQualifiers → Bool
storage q = get_or q.is_volatiles 0 false

-- The parts of a stricter qualifier.
pub record Stricter (q r : CvQualifiers) : Type 0 where
  pub consts_length : length q.is_consts ≡ length r.is_consts
  pub volatiles_length : length q.is_volatiles ≡ length r.is_volatiles
  pub consts : levels_stricter q.is_consts r.is_consts ≡ true
  pub same_storage : ltb 1 (length q.is_consts) ≡ true → storage q ≡ storage r
  pub volatiles : levels_stricter q.is_volatiles r.is_volatiles ≡ true

pub IsPaired-test : (q : CvQualifiers) → (is_paired q ≡ true) ↔ IsPaired q
IsPaired-test q = ==_iff (length q.is_consts) (length q.is_volatiles)

pub Stricter-stricter_than :
    {q r : CvQualifiers} → IsPaired q → Stricter q r → stricter_than q r ≡ some true
unfolding stricter_than is_stricter
Stricter-stricter_than {q} {r} p s =
    let t : is_paired q ≡ true = (IsPaired-test q).1 p in
    let b : is_stricter q r ≡ true =
      ground (arith, s.consts_length, s.volatiles_length, s.consts, s.same_storage, s.volatiles) in
    rw (t, b) refl

stricter_than-is_stricter :
    (q r : CvQualifiers) → stricter_than q r ≡ some true → IsPaired q × (is_stricter q r ≡ true)
unfolding stricter_than
stricter_than-is_stricter q r h = elim (Bool-cases (is_paired q)) [
  | inl t ↦ ((IsPaired-test q).0 t, some-injective (is_stricter q r) true (rw t at h))
  | inr t ↦ let z : none ≡ some true = rw t at h in absurd (ground (arith, z))
]

Stricter-is_stricter : (q r : CvQualifiers) → is_stricter q r ≡ true → Stricter q r
unfolding is_stricter
Stricter-is_stricter q r h = record {
  consts_length = ground arith;
  volatiles_length = ground arith;
  consts = ground arith;
  same_storage = λ l. ground arith;
  volatiles = ground arith;
}

pub stricter_than-Stricter :
    (q r : CvQualifiers) → stricter_than q r ≡ some true → IsPaired q × Stricter q r
stricter_than-Stricter q r h =
    let (p, b) = stricter_than-is_stricter q r h in (p, Stricter-is_stricter q r b)

stricter_than-none : (q r : CvQualifiers) → (stricter_than q r ≡ none) ↔ (is_paired q ≡ false)
unfolding stricter_than
stricter_than-none q r = (
  λ h. elim (Bool-cases (is_paired q)) [
    | inl t ↦ let z : some (is_stricter q r) ≡ none = rw t at h in absurd (ground (arith, z))
    | inr t ↦ t
  ],
  λ t. rw t refl,
)

-- `stricter_than` fails its assertion just where the first qualifier does not have as many const
-- levels as volatile ones. Otherwise it says exactly that both qualifiers have the same depth, that
-- each level of the first has the const and the volatile of the second, that both agree on every
-- level followed by at least two more, and that under a pointer both agree on the volatility of the
-- storage.
pub stricter_than_iff :
    (q r : CvQualifiers)
    → ((stricter_than q r ≡ none) ↔ ((length q.is_consts == length q.is_volatiles) ≡ false))
      × ((stricter_than q r ≡ some true) ↔ (
          (length q.is_consts ≡ length q.is_volatiles)
          × (length q.is_consts ≡ length r.is_consts)
          × (length q.is_volatiles ≡ length r.is_volatiles)
          × IsStricter q.is_consts r.is_consts
          × (1 < length q.is_consts → get_or q.is_volatiles 0 false ≡ get_or r.is_volatiles 0 false)
          × IsStricter q.is_volatiles r.is_volatiles))
stricter_than_iff q r = (
  stricter_than-none q r,
  (
    λ h.
        let (p, s) = stricter_than-Stricter q r h in
        (
          p,
          s.consts_length,
          s.volatiles_length,
          levels_stricter_sound q.is_consts r.is_consts s.consts,
          λ l. s.same_storage (ground arith),
          levels_stricter_sound q.is_volatiles r.is_volatiles s.volatiles,
        ),
    λ (p, a, b, c, d, e). Stricter-stricter_than p (record {
      consts_length = a;
      volatiles_length = b;
      consts = levels_stricter_complete q.is_consts r.is_consts c;
      same_storage = λ l. d (ground arith);
      volatiles = levels_stricter_complete q.is_volatiles r.is_volatiles e;
    }),
  ),
)

-- `stricter_than` is a partial order on the levels of qualifiers: every qualifier with as many const
-- levels as volatile ones is as strict as itself, strictness composes, and two qualifiers that are
-- stricter than each other have the same const and volatile levels.
pub stricter_than_partial_order :
    (q r t : CvQualifiers)
    → (length q.is_consts ≡ length q.is_volatiles → stricter_than q q ≡ some true)
      × (stricter_than q r ≡ some true
          → stricter_than r t ≡ some true
          → stricter_than q t ≡ some true)
      × (stricter_than q r ≡ some true
          → stricter_than r q ≡ some true
          → (q.is_consts ≡ r.is_consts) × (q.is_volatiles ≡ r.is_volatiles))
stricter_than_partial_order q r t = (
  λ p. Stricter-stricter_than p (record {
    consts_length = refl;
    volatiles_length = refl;
    consts = levels_stricter_refl q.is_consts;
    same_storage = λ l. refl;
    volatiles = levels_stricter_refl q.is_volatiles;
  }),
  λ h g.
      let (p, a) = stricter_than-Stricter q r h in
      let (p', b) = stricter_than-Stricter r t g in
      Stricter-stricter_than p (record {
        consts_length = a.consts_length ∙ b.consts_length;
        volatiles_length = a.volatiles_length ∙ b.volatiles_length;
        consts =
            levels_stricter_trans q.is_consts r.is_consts t.is_consts a.consts_length
              b.consts_length a.consts b.consts;
        same_storage = λ l. a.same_storage l ∙ b.same_storage (ground (arith, a.consts_length));
        volatiles =
            levels_stricter_trans q.is_volatiles r.is_volatiles t.is_volatiles a.volatiles_length
              b.volatiles_length a.volatiles b.volatiles;
      }),
  λ h g.
      let (p, a) = stricter_than-Stricter q r h in
      let (p', b) = stricter_than-Stricter r q g in
      (
        levels_stricter_antisymm q.is_consts r.is_consts a.consts_length a.consts b.consts,
        levels_stricter_antisymm q.is_volatiles r.is_volatiles a.volatiles_length a.volatiles
            b.volatiles,
      ),
)
