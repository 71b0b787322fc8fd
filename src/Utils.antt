-- ===== src/Utils.antt =====
-- src/helpers/utils.h: numbers read as enumerators.
use odin_analytics.Prelude.{ℕ, ◌≡◌, ap, Option, none, some, Result, ok, err, invalid_enum}

-- `ValueToEnum`, over the `enum_cast` of magic_enum, which is a parameter: the enumerator with a
-- value, if there is one.
unfoldable pub value_to_enum {ℓ} : {A : Type ℓ} → (ℕ → Option A) → ℕ → Result A
value_to_enum enum_cast c = elim (enum_cast c) [ none ↦ err invalid_enum | some u ↦ ok u ]

pub value_to_enum-some {ℓ} :
    {A : Type ℓ} (enum_cast : ℕ → Option A) (c : ℕ) (a : A)
    → enum_cast c ≡ some a
    → value_to_enum enum_cast c ≡ ok a
unfolding value_to_enum
value_to_enum-some enum_cast c a h = ap (λ r. elim r [ none ↦ err invalid_enum | some u ↦ ok u ]) h
