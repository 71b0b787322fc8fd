-- ===== src/Oxl/Dictionary/Invariant.antt =====
-- What every dictionary of src/oxl/xl_api/xl_dictionary.cpp keeps.
use odin_analytics.Prelude.{
  chain_ok, ok-injective, ◌≡◌, ap, sym, subst, ◌∙◌, arith, List, [], ◌∷◌, none, some, ok, ◌>>=◌,
  Bool-cases, inl, inr, length, Option-cases,
}
use odin_analytics.Prelude.Text.{Text, eqb_text, leb_text}
use odin_analytics.Oxl.Variant.{XlVariant, get_string}
use odin_analytics.Oxl.StdMap.{
  find_key, assign, assign_all, IsSorted, assign-IsSorted, assign_all-IsSorted,
}
use odin_analytics.Oxl.Dictionary.{
  XlDictionary, check_key, check_sizes, assign_at, insert_keys, insert_variants, insert_pairs,
  from_keys, from_variants, from_pairs, subscript, apply_overrides,
}

module _ {ℓ} {N : Type ℓ} where
  -- All keys pass the check.
  abbrev pub AreChecked : XlDictionary N → Type 0
  AreChecked [] = Unit
  AreChecked (entry ∷ rest) = (check_key entry.0 ≡ ok tt) × AreChecked rest

  -- Keys that ascend and pass the check.
  abbrev pub IsDictionary : XlDictionary N → Type 0
  IsDictionary d = IsSorted d × AreChecked d

  -- The dictionaries that the operations make, one after the other.
  pub data IsMade : XlDictionary N → Type ℓ where
    made_empty : IsMade []
    made_from_keys :
        (keys : List Text) (values : List (XlVariant N)) (d : XlDictionary N)
        → from_keys keys values ≡ ok d
        → IsMade d
    made_from_variants :
        (keys values : List (XlVariant N)) (d : XlDictionary N)
        → from_variants keys values ≡ ok d
        → IsMade d
    made_from_pairs :
        (pairs : List (Text × XlVariant N)) (d : XlDictionary N)
        → from_pairs pairs ≡ ok d
        → IsMade d
    made_assign_at :
        (key : Text) (value : XlVariant N) (d next : XlDictionary N)
        → IsMade d
        → assign_at key value d ≡ ok next
        → IsMade next
    made_subscript :
        (default value : XlVariant N) (key : Text) (d next : XlDictionary N)
        → IsMade d
        → subscript default key d ≡ ok (value, next)
        → IsMade next
    made_apply_overrides :
        (d overrides_dict : XlDictionary N)
        → IsMade d
        → IsMade overrides_dict
        → IsMade (apply_overrides d overrides_dict)

  AreChecked-assign :
      (key : Text) (value : XlVariant N) (d : XlDictionary N)
      → check_key key ≡ ok tt
      → AreChecked d
      → AreChecked (assign key value d)
  unfolding assign
  AreChecked-assign key value [] h c = (h, tt)
  AreChecked-assign key value (entry ∷ rest) h c =
      let ih = AreChecked-assign key value rest h c.1 in
      elim (Bool-cases (eqb_text entry.0 key)) [
        | inl same ↦ rw same c
        | inr apart ↦ elim (Bool-cases (leb_text key entry.0)) [
          | inl le ↦ rw (apart, le) (h, c)
          | inr gt ↦ rw (apart, gt) (c.0, ih)
        ]
      ]

  AreChecked-assign_all :
      (entries d : XlDictionary N)
      → AreChecked entries
      → AreChecked d
      → AreChecked (assign_all entries d)
  unfolding assign_all
  AreChecked-assign_all [] d a c = c
  AreChecked-assign_all (entry ∷ rest) d a c =
      AreChecked-assign_all rest (assign entry.0 entry.1 d) a.1
        (AreChecked-assign entry.0 entry.1 d a.0 c)

  IsDictionary-assign :
      (key : Text) (value : XlVariant N) (d : XlDictionary N)
      → check_key key ≡ ok tt
      → IsDictionary d
      → IsDictionary (assign key value d)
  IsDictionary-assign key value d h i =
      (assign-IsSorted key value d i.0, AreChecked-assign key value d h i.1)

  assign_at-IsDictionary :
      (key : Text) (value : XlVariant N) (d next : XlDictionary N)
      → IsDictionary d
      → assign_at key value d ≡ ok next
      → IsDictionary next
  unfolding assign_at
  assign_at-IsDictionary key value d next i h =
      let (u, c, e) = chain_ok (check_key key) (λ checked. ok (assign key value d)) next h in
      subst IsDictionary (ok-injective e) (IsDictionary-assign key value d c i)

  insert_keys-IsDictionary :
      (keys : List Text) (values : List (XlVariant N)) (d got : XlDictionary N)
      → IsDictionary d
      → insert_keys keys values d ≡ ok got
      → IsDictionary got
  unfolding insert_keys
  insert_keys-IsDictionary [] values d got i h = subst IsDictionary (ok-injective h) i
  insert_keys-IsDictionary (key ∷ keys) [] d got i h = absurd (ground (arith, h))
  insert_keys-IsDictionary (key ∷ keys) (value ∷ values) d got i h =
      let (next, a, b) =
        chain_ok (assign_at key value d) (λ next. insert_keys keys values next) got h in
      insert_keys-IsDictionary keys values next got (assign_at-IsDictionary key value d next i a) b

  insert_variants-IsDictionary :
      (keys values : List (XlVariant N)) (d got : XlDictionary N)
      → IsDictionary d
      → insert_variants keys values d ≡ ok got
      → IsDictionary got
  unfolding insert_variants
  insert_variants-IsDictionary [] values d got i h = subst IsDictionary (ok-injective h) i
  insert_variants-IsDictionary (key ∷ keys) [] d got i h = absurd (ground (arith, h))
  insert_variants-IsDictionary (key ∷ keys) (value ∷ values) d got i h =
      let (name, a, b) =
        chain_ok (get_string key)
          (λ name. assign_at name value d >>= λ next. insert_variants keys values next) got h in
      let (next, a₂, b₂) =
        chain_ok (assign_at name value d) (λ next. insert_variants keys values next) got b in
      insert_variants-IsDictionary keys values next got
        (assign_at-IsDictionary name value d next i a₂) b₂

  insert_pairs-IsDictionary :
      (pairs : List (Text × XlVariant N)) (d got : XlDictionary N)
      → IsDictionary d
      → insert_pairs pairs d ≡ ok got
      → IsDictionary got
  unfolding insert_pairs
  insert_pairs-IsDictionary [] d got i h = subst IsDictionary (ok-injective h) i
  insert_pairs-IsDictionary (pair ∷ pairs) d got i h =
      let (next, a, b) =
        chain_ok (assign_at pair.0 pair.1 d) (λ next. insert_pairs pairs next) got h in
      insert_pairs-IsDictionary pairs next got (assign_at-IsDictionary pair.0 pair.1 d next i a) b

  subscript-IsDictionary :
      (default value : XlVariant N) (key : Text) (d next : XlDictionary N)
      → IsDictionary d
      → subscript default key d ≡ ok (value, next)
      → IsDictionary next
  unfolding subscript
  subscript-IsDictionary default value key d next i h =
      let (u, c, e) =
        chain_ok (check_key key)
          (λ checked. elim (find_key key d) [
            | none ↦ ok (default, assign key default d)
            | some value ↦ ok (value, d)
          ])
          (value, next) h in
      elim (Option-cases (find_key key d)) [
        | inl new ↦
            subst IsDictionary
              (ap (λ p. p.1)
                (ok-injective {a = (default, assign key default d)} {b = (value, next)} (
                  ap
                    (λ o. elim o [
                      | none ↦ ok (default, assign key default d)
                      | some value ↦ ok (value, d)
                    ])
                    (sym new)
                  ∙ e)))
              (IsDictionary-assign key default d c i)
        | inr (v, there) ↦
            subst IsDictionary
              (ap (λ p. p.1)
                (ok-injective {a = (v, d)} {b = (value, next)} (
                  ap
                    (λ o. elim o [
                      | none ↦ ok (default, assign key default d)
                      | some value ↦ ok (value, d)
                    ])
                    (sym there)
                  ∙ e)))
              i
      ]

  -- Whatever the operations make has checked keys in ascending order.
  pub IsMade-IsDictionary : {d : XlDictionary N} → IsMade d → IsDictionary d
  unfolding from_keys from_variants from_pairs apply_overrides
  IsMade-IsDictionary made_empty = (tt, tt)
  IsMade-IsDictionary (made_from_keys keys values d h) =
      let (u, a, b) =
        chain_ok (check_sizes (length keys) (length values)) (λ checked. insert_keys keys values [])
          d h in
      insert_keys-IsDictionary keys values [] d (tt, tt) b
  IsMade-IsDictionary (made_from_variants keys values d h) =
      let (u, a, b) =
        chain_ok (check_sizes (length keys) (length values))
          (λ checked. insert_variants keys values []) d h in
      insert_variants-IsDictionary keys values [] d (tt, tt) b
  IsMade-IsDictionary (made_from_pairs pairs d h) = insert_pairs-IsDictionary pairs [] d (tt, tt) h
  IsMade-IsDictionary (made_assign_at key value d next m h) =
      assign_at-IsDictionary key value d next (IsMade-IsDictionary m) h
  IsMade-IsDictionary (made_subscript default value key d next m h) =
      subscript-IsDictionary default value key d next (IsMade-IsDictionary m) h
  IsMade-IsDictionary (made_apply_overrides d overrides_dict m n) =
      let i = IsMade-IsDictionary m in
      let j = IsMade-IsDictionary n in
      (assign_all-IsSorted overrides_dict d i.0, AreChecked-assign_all overrides_dict d j.1 i.1)
