-- ===== src/Types/Legal.antt =====
-- src/Type.cpp: which fields and structs are legal, and how fields are added to them.
use clsmith.Prelude.{
  ℕ, suc, ◌-◌, ◌<◌, ◌≤◌, ◌≡◌, ◌⊎◌, inl, inr, refl, ap, Bool, true, false, ◌&&◌, ◌||◌, Option, none,
  some, List, [], ◌∷◌, ◌++◌, if◌then◌else◌, leb, ltb, ◌==◌, get_elem?, arith,
}
use clsmith.Types.{CType, simple, pointer, union, vector, struct, Fields, end, field, int, uint}
use clsmith.Types.Size.{get_struct_depth, max_struct_depth}
use clsmith.Types.Structs.{
  StructSetting, NewField, is_zero_length, no_zero_len, to_fields, rejects, max_length,
}

unfoldable pub count_fields : Fields → ℕ
count_fields end = 0
count_fields (field _ _ _ fs) = suc (count_fields fs)

module _ (c : StructSetting) (all_types : List CType) where
  -- A field that stands where a zero length is or is not allowed.
  unfoldable pub IsLegalField : Bool → CType → Option ℕ → Type 0
  IsLegalField no_zero t none = (i : ℕ) × (get_elem? all_types i ≡ some t) × (rejects c t ≡ false)
  IsLegalField no_zero t (some l) =
      (l < max_length c) × ((l == 0 && no_zero) ≡ false) × ((t ≡ simple int) ⊎ (t ≡ simple uint))

  -- No zero length comes directly after another one.
  unfoldable pub AreLegal : Bool → Fields → Type 0
  AreLegal no_zero end = Unit
  AreLegal no_zero (field t _ l fs) = IsLegalField no_zero t l × AreLegal (is_zero_length l) fs

  -- There is a field, none too many, no bit-field of length 0 at the front, and the nesting is bounded.
  unfoldable pub IsLegal : CType → Type 0
  IsLegal (struct _ _ fs) =
      (0 < count_fields fs)
      × (count_fields fs ≤ c.max_struct_fields)
      × AreLegal true fs
      × (max_struct_depth 0 fs ≤ c.max_nested_struct_level - 1)
  IsLegal _ = ⊥

  -- What the loop keeps: `n` fields so far, all of them legal.
  unfoldable pub Made : ℕ → List NewField → Type 0
  Made n fs = (count_fields (to_fields fs) ≡ n) × AreLegal true (to_fields fs)

  count-append :
      (fs : List NewField) (f : NewField)
      → count_fields (to_fields (fs ++ (f ∷ []))) ≡ suc (count_fields (to_fields fs))
  unfolding count_fields to_fields
  count-append [] f = refl
  count-append (g ∷ fs) f = ap suc (count-append fs f)

  AreLegal-first :
      (g : NewField) (fs : List NewField) (f : NewField) (b : Bool)
      → AreLegal b (to_fields (g ∷ fs))
      → IsLegalField (no_zero_len (g ∷ fs)) f.type f.bit_length
      → AreLegal b (to_fields ((g ∷ fs) ++ (f ∷ [])))
  unfolding AreLegal to_fields no_zero_len
  AreLegal-first g [] f b (h, _) l = (h, (l, tt))
  AreLegal-first g (g' ∷ fs) f b (h, r) l =
      (h, AreLegal-first g' fs f (is_zero_length g.bit_length) r l)

  pub Made-append :
      (n : ℕ) (fs : List NewField) (f : NewField)
      → Made n fs
      → IsLegalField (no_zero_len fs) f.type f.bit_length
      → Made (suc n) (fs ++ (f ∷ []))
  unfolding Made AreLegal to_fields no_zero_len
  Made-append n [] f (e, h) l = (rw (count-append [] f) (ap suc e), (l, tt))
  Made-append n (g ∷ fs) f (e, h) l =
      (rw (count-append (g ∷ fs) f) (ap suc e), AreLegal-first g fs f true h l)

  or-right : (a b : Bool) → (a || b) ≡ false → b ≡ false
  or-right false b h = h
  or-right true b h = ground (arith, h)

  leb-below : (m d : ℕ) → leb m d ≡ false → d ≤ m - 1
  leb-below m d h = ground (arith, h)

  depth-simple : (t : CType) → (t ≡ simple int) ⊎ (t ≡ simple uint) → get_struct_depth t ≡ 0
  unfolding get_struct_depth
  depth-simple t (inl e) = rw (e, get_struct_depth) refl
  depth-simple t (inr e) = rw (e, get_struct_depth) refl

  -- The nesting of a type that the filter accepts is bounded.
  depth-accepted :
      (t : CType) → rejects c t ≡ false → get_struct_depth t ≤ c.max_nested_struct_level - 1
  unfolding rejects get_struct_depth
  depth-accepted (simple s) h = omega arith
  depth-accepted (pointer t) h = omega arith
  depth-accepted (union i fs) h = omega arith
  depth-accepted (vector t n) h = omega arith
  depth-accepted (struct i p fs) h =
      let e : leb c.max_nested_struct_level (get_struct_depth (struct i p fs)) ≡ false =
        or-right _ _ h in
      leb-below _ _ e

  depth-legal :
      (b : Bool) (t : CType) (l : Option ℕ)
      → IsLegalField b t l
      → get_struct_depth t ≤ c.max_nested_struct_level - 1
  unfolding IsLegalField
  depth-legal b t (some l) (_, _, e) = omega (arith, depth-simple t e)
  depth-legal b t none (_, _, e) = depth-accepted t e

  larger : (n d m : ℕ) → n ≤ m → d ≤ m → (if ltb n d then d else n) ≤ m
  larger n d m h g = ground (arith, h, g)

  depth-AreLegal :
      (b : Bool) (n : ℕ) (fs : Fields)
      → n ≤ c.max_nested_struct_level - 1
      → AreLegal b fs
      → max_struct_depth n fs ≤ c.max_nested_struct_level - 1
  unfolding AreLegal max_struct_depth
  depth-AreLegal b n end h _ = h
  depth-AreLegal b n (field t q l fs) h (o, r) =
      depth-AreLegal (is_zero_length l)
        (if ltb n (get_struct_depth t) then get_struct_depth t else n) fs
        (larger n (get_struct_depth t) _ h (depth-legal b t l o)) r

  pub Made-empty : Made 0 []
  unfolding Made count_fields to_fields AreLegal
  Made-empty = (refl, tt)

  pub Made-IsLegal :
      (n : ℕ) (fs : List NewField)
      → 0 < n
      → n ≤ c.max_struct_fields
      → Made n fs
      → (sid : ℕ) (b : Bool) → IsLegal (struct sid b (to_fields fs))
  unfolding Made IsLegal
  Made-IsLegal n fs h g (e, l) sid b =
      (rw e h, rw e g, l, depth-AreLegal true 0 (to_fields fs) (omega arith) l)
