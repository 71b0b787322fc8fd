-- ===== src/Time/Tenor/Order.antt =====
-- The order of tenors (`Tenor::GroupLess` of src/time/tenor.cpp).
use odin_analytics.Prelude.{
  ℕ, ◌≡◌, refl, ◌⊎◌, arith, Bool, true, false, ◌&&◌, ◌==◌, ltb, if◌then◌else◌,
}
use odin_analytics.Prelude.Int.{ℤ, ltb_ℤ, eqb_ℤ}
use odin_analytics.Time.Enums.{Tenors, days, weeks, months, years, unit_code}
use odin_analytics.Time.Tenor.{rank, group_less, tenor_eq}

-- A Boolean relation that is a strict order, and total up to an equality.
pub record IsStrictTotal {ℓ} {A : Type ℓ} (less equal : A → A → Bool) : Type ℓ where
  pub irreflexive : (a : A) → less a a ≡ false
  pub transitive : (a b c : A) → less a b ≡ true → less b c ≡ true → less a c ≡ true
  pub trichotomous : (a b : A) → (less a b ≡ true) ⊎ (equal a b ≡ true) ⊎ (less b a ≡ true)

-- Units are ranked differently exactly if they are different.
unit_code-rank : (u v : Tenors) → (unit_code u == unit_code v) ≡ (rank u == rank v)
unfolding unit_code rank
unit_code-rank days days = refl
unit_code-rank days weeks = refl
unit_code-rank days months = refl
unit_code-rank days years = refl
unit_code-rank weeks days = refl
unit_code-rank weeks weeks = refl
unit_code-rank weeks months = refl
unit_code-rank weeks years = refl
unit_code-rank months days = refl
unit_code-rank months weeks = refl
unit_code-rank months months = refl
unit_code-rank months years = refl
unit_code-rank years days = refl
unit_code-rank years weeks = refl
unit_code-rank years months = refl
unit_code-rank years years = refl

-- `GroupLess` is a strict total order of the tenors, whose equality is `==`.
pub group_less-IsStrictTotal : IsStrictTotal group_less tenor_eq
unfolding group_less tenor_eq
group_less-IsStrictTotal = record {
  irreflexive = λ a. irreflexive_lem (rank a.unit) a.count;
  transitive =
      λ a b c. transitive_lem (rank a.unit) (rank b.unit) (rank c.unit) a.count b.count c.count;
  trichotomous = λ a b.
      rw (unit_code-rank a.unit b.unit)
        (trichotomous_lem (rank a.unit) (rank b.unit) a.count b.count);
}
  where
    irreflexive_lem : (r : ℕ) (m : ℤ) → (if r == r then ltb_ℤ m m else ltb r r) ≡ false
    irreflexive_lem r m = ground arith

    transitive_lem :
        (r s t : ℕ) (m n o : ℤ)
        → (if r == s then ltb_ℤ m n else ltb r s) ≡ true
        → (if s == t then ltb_ℤ n o else ltb s t) ≡ true
        → (if r == t then ltb_ℤ m o else ltb r t) ≡ true
    transitive_lem r s t m n o h k = ground arith

    trichotomous_lem :
        (r s : ℕ) (m n : ℤ)
        → ((if r == s then ltb_ℤ m n else ltb r s) ≡ true)
          ⊎ ((eqb_ℤ m n && (r == s)) ≡ true)
          ⊎ ((if s == r then ltb_ℤ n m else ltb s r) ≡ true)
    trichotomous_lem r s m n = ground arith
