-- ===== src/Tests/Structs.antt =====
-- src/Type.cpp: a random struct over the types int and long.
use clsmith.Prelude.{
  ℕ, ◌+◌, ◌%◌, ◌<◌, ◌≡◌, inl, inr, Bool-cases, ◌==◌, refl, true, false, List, [], ◌∷◌, arith,
}
use clsmith.Random.Gives.{Gives, Hits}
use clsmith.Types.{CType, simple, int, long}
use clsmith.Types.Structs.{StructSetting, make_random_struct_type, rejects}
use clsmith.Types.Legal.{IsLegal}
use clsmith.Types.Wellformed.{Accepts, make_random_struct_type-IsLegal}

abbrev setting : StructSetting
setting = record {
  options = record {
    match_exact_qualifiers = false;
    volatile_pointers = true;
    const_pointers = true;
    allow_const_volatile = true;
    strict_volatile_rule = false;
    union_read_type_sensitive = true;
    int_size = 4;
  };
  max_struct_fields = 10;
  fixed_struct_fields = false;
  bitfields = true;
  packed_struct = true;
  ccomp = false;
  return_structs = true;
  max_nested_struct_level = 3;
  bit_fields_creation_prob = 50;
  bit_fields_signed_prob = 50;
  bit_field_in_normal_struct_prob = 10;
  scalar_field_in_full_bit_fields_prob = 10;
  field_const_prob = 20;
  field_volatile_prob = 30;
  simple_filter = λ s. false;
}

abbrev two_types : List CType
two_types = simple int ∷ simple long ∷ []

abbrev counter : ℕ → ℕ
counter k = k

parity : (k : ℕ) → (i : ℕ) × (i < 2) × ((k + i) % 2 ≡ 1)
parity k = elim (Bool-cases (k % 2 == 1)) [
  | inl t ↦ (0, omega arith, ground (arith, t))
  | inr t ↦ (1, omega arith, ground (arith, t))
]

int_accepted : Accepts setting two_types counter 2 1
unfolding Accepts Hits rejects
int_accepted = (simple long, refl, refl, parity)

make_random_struct_type-IsLegal_example :
    Gives (IsLegal setting two_types) (make_random_struct_type setting counter 2 two_types 7)
make_random_struct_type-IsLegal_example =
    make_random_struct_type-IsLegal setting two_types counter 2 1 int_accepted (omega arith)
      (omega arith) 7
