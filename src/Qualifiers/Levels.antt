-- ===== src/Qualifiers/Levels.antt =====
-- src/CVQualifiers.cpp, `stricter_than`: what its loop tests, level by level.
use clsmith.Prelude.{
  ℕ, zero, suc, ◌+◌, ◌<◌, ◌≡◌, refl, Bool, true, false, List, [], ◌∷◌, some, length, get_elem?,
  set_last, arith,
}
use clsmith.Qualifiers.{levels_stricter}

-- At each level the stricter side has the qualifier wherever the other side has it, and below two
-- or more further indirections both sides agree.
abbrev pub IsStricter : List Bool → List Bool → Type 0
IsStricter ms vs =
    (i : ℕ) (m v : Bool)
    → get_elem? ms i ≡ some m
    → get_elem? vs i ≡ some v
    → (v ≡ true → m ≡ true) × (i + 2 < length ms → m ≡ v)

pub levels_stricter_sound : (ms vs : List Bool) → levels_stricter ms vs ≡ true → IsStricter ms vs
unfolding levels_stricter
levels_stricter_sound [] vs h i m v p q = ground arith
levels_stricter_sound (x ∷ ms) [] h i m v p q = ground arith
levels_stricter_sound (x ∷ ms) (y ∷ vs) h zero m v p q = (λ e. ground arith, λ l. ground arith)
levels_stricter_sound (x ∷ ms) (y ∷ vs) h (suc i) m v p q =
    let (a, b) = levels_stricter_sound ms vs (ground arith) i m v p q in (a, λ l. b (omega arith))

pub levels_stricter_complete : (ms vs : List Bool) → IsStricter ms vs → levels_stricter ms vs ≡ true
unfolding levels_stricter
levels_stricter_complete [] vs h = refl
levels_stricter_complete (x ∷ ms) [] h = refl
levels_stricter_complete (x ∷ ms) (y ∷ vs) h =
    let (a, b) = h 0 x y refl refl in
    let ih =
      levels_stricter_complete ms vs
        (λ i m v p q. let (c, d) = h (suc i) m v p q in (c, λ l. d (omega arith))) in
    ground arith

pub levels_stricter_refl : (ms : List Bool) → levels_stricter ms ms ≡ true
unfolding levels_stricter
levels_stricter_refl [] = refl
levels_stricter_refl (x ∷ ms) = ground (arith, levels_stricter_refl ms)

pub levels_stricter_trans :
    (ms vs us : List Bool)
    → length ms ≡ length vs
    → length vs ≡ length us
    → levels_stricter ms vs ≡ true
    → levels_stricter vs us ≡ true
    → levels_stricter ms us ≡ true
unfolding levels_stricter
levels_stricter_trans [] vs us l k h g = refl
levels_stricter_trans (x ∷ ms) [] us l k h g = absurd (omega arith)
levels_stricter_trans (x ∷ ms) (y ∷ vs) [] l k h g = refl
levels_stricter_trans (x ∷ ms) (y ∷ vs) (z ∷ us) l k h g =
    ground (arith, levels_stricter_trans ms vs us)

pub levels_stricter_antisymm :
    (ms vs : List Bool)
    → length ms ≡ length vs
    → levels_stricter ms vs ≡ true
    → levels_stricter vs ms ≡ true
    → ms ≡ vs
unfolding levels_stricter
levels_stricter_antisymm [] [] l h g = refl
levels_stricter_antisymm [] (y ∷ vs) l h g = absurd (omega arith)
levels_stricter_antisymm (x ∷ ms) [] l h g = absurd (omega arith)
levels_stricter_antisymm (x ∷ ms) (y ∷ vs) l h g = ground (arith, levels_stricter_antisymm ms vs)

pub length-set_last : (vs : List Bool) (b : Bool) → length (set_last vs b) ≡ length vs
length-set_last [] b = refl
length-set_last (x ∷ []) b = refl
length-set_last (x ∷ y ∷ vs) b = omega (arith, length-set_last (y ∷ vs) b)

-- To drop the qualifier of the variable itself loosens it.
pub levels_stricter-set_last :
    (ms vs : List Bool)
    → levels_stricter ms vs ≡ true
    → length ms ≡ length vs
    → levels_stricter ms (set_last vs false) ≡ true
unfolding levels_stricter
levels_stricter-set_last ms [] h l = h
levels_stricter-set_last [] (y ∷ vs) h l = refl
levels_stricter-set_last (x ∷ []) (y ∷ []) h l = refl
levels_stricter-set_last (x ∷ z ∷ ms) (y ∷ []) h l = absurd (omega arith)
levels_stricter-set_last (x ∷ []) (y ∷ w ∷ vs) h l = absurd (omega arith)
levels_stricter-set_last (x ∷ z ∷ ms) (y ∷ w ∷ vs) h l =
    ground (arith, levels_stricter-set_last (z ∷ ms) (w ∷ vs))
