-- ===== src/Oxl/StdMap.antt =====
-- `std::map` with keys of `std::string`, which src/oxl/xl_api uses: the entries in the order of
-- their keys.
use odin_analytics.Prelude.{
  ◌≡◌, refl, ap, sym, subst, ◌∙◌, arith, Bool, true, false, Bool-cases, if◌then◌else◌, List, [],
  ◌∷◌, ◌++◌, append_nil, append-cons, Option, none, some, inl, inr,
}
use odin_analytics.Prelude.Text.{
  Text, eqb_text, eqb_text-eq, leb_text, eqb_text-apart, lt_text, lt_text_trans, lt_text-apart,
  lt_text-later,
}

abbrev pub StdMap {ℓ} : Type ℓ → Type ℓ
StdMap V = List (Text × V)

module _ {ℓ} {V : Type ℓ} where
  -- `find`, and `at` with its exception as `none`.
  unfoldable pub find_key : Text → StdMap V → Option V
  find_key key [] = none
  find_key key (entry ∷ rest) =
      let later = find_key key rest in if eqb_text entry.0 key then some entry.1 else later

  -- `map[key] = value`.
  unfoldable pub assign : Text → V → StdMap V → StdMap V
  assign key value [] = (key, value) ∷ []
  assign key value (entry ∷ rest) =
      let later = assign key value rest in
      if eqb_text entry.0 key
      then (entry.0, value) ∷ rest
      else if leb_text key entry.0
      then (key, value) ∷ entry ∷ rest
      else entry ∷ later

  -- A loop of such assignments.
  unfoldable pub assign_all : List (Text × V) → StdMap V → StdMap V
  assign_all [] m = m
  assign_all (entry ∷ rest) m = assign_all rest (assign entry.0 entry.1 m)

  unfoldable pub has_value : Option V → Bool
  has_value none = false
  has_value (some v) = true

  -- `contains`.
  unfoldable pub contains : Text → StdMap V → Bool
  contains key m = has_value (find_key key m)

  abbrev pub IsBefore : Text → StdMap V → Type 0
  IsBefore key [] = Unit
  IsBefore key (entry ∷ rest) = (lt_text key entry.0 ≡ true) × IsBefore key rest

  -- The keys ascend, so that each occurs once.
  abbrev pub IsSorted : StdMap V → Type 0
  IsSorted [] = Unit
  IsSorted (entry ∷ rest) = IsBefore entry.0 rest × IsSorted rest

  -- The first of two values, if there is one.
  abbrev pub or_else : Option V → Option V → Option V
  or_else none o = o
  or_else (some v) o = some v

  -- What is found after an assignment.
  pub find_key-assign :
      (key other : Text) (value : V) (m : StdMap V)
      → find_key other (assign key value m)
        ≡ (if eqb_text key other then some value else find_key other m)
  unfolding find_key assign
  find_key-assign key other value [] = refl
  find_key-assign key other value (entry ∷ rest) =
      let ih = find_key-assign key other value rest in
      elim (Bool-cases (eqb_text entry.0 key)) [
        | inl same ↦
            rw (same, eqb_text-eq entry.0 key same)
              (elim (Bool-cases (eqb_text key other)) [ inl h ↦ rw h | inr h ↦ rw h ])
        | inr apart ↦ elim (Bool-cases (leb_text key entry.0)) [
          | inl le ↦ rw (apart, le)
          | inr gt ↦
              rw (apart, gt, ih)
                (elim (Bool-cases (eqb_text entry.0 other)) [
                  | inl h ↦ rw (h, eqb_text-apart entry.0 key other apart h)
                  | inr h ↦ rw h
                ])
        ]
      ]

  IsBefore-trans : (s t : Text) (m : StdMap V) → lt_text s t ≡ true → IsBefore t m → IsBefore s m
  IsBefore-trans s t [] h b = tt
  IsBefore-trans s t (entry ∷ rest) h b =
      (lt_text_trans s t entry.0 h b.0, IsBefore-trans s t rest h b.1)

  IsBefore-assign :
      (s key : Text) (value : V) (m : StdMap V)
      → lt_text s key ≡ true
      → IsBefore s m
      → IsBefore s (assign key value m)
  unfolding assign
  IsBefore-assign s key value [] h b = (h, tt)
  IsBefore-assign s key value (entry ∷ rest) h b =
      let ih = IsBefore-assign s key value rest h b.1 in
      elim (Bool-cases (eqb_text entry.0 key)) [
        | inl same ↦ rw same b
        | inr apart ↦ elim (Bool-cases (leb_text key entry.0)) [
          | inl le ↦ rw (apart, le) (h, b)
          | inr gt ↦ rw (apart, gt) (b.0, ih)
        ]
      ]

  -- An assignment keeps the keys in order.
  pub assign-IsSorted :
      (key : Text) (value : V) (m : StdMap V) → IsSorted m → IsSorted (assign key value m)
  unfolding assign
  assign-IsSorted key value [] s = (tt, tt)
  assign-IsSorted key value (entry ∷ rest) s =
      let ih = assign-IsSorted key value rest s.1 in
      elim (Bool-cases (eqb_text entry.0 key)) [
        | inl same ↦ rw same s
        | inr apart ↦ elim (Bool-cases (leb_text key entry.0)) [
          | inl le ↦
              let lt = lt_text-later key entry.0 apart le in
              rw (apart, le) ((lt, IsBefore-trans key entry.0 rest lt s.0), s)
          | inr gt ↦
              let lt : lt_text entry.0 key ≡ true = ground arith in
              rw (apart, gt) (IsBefore-assign entry.0 key value rest lt s.0, ih)
        ]
      ]

  find_key-IsBefore : (key : Text) (m : StdMap V) → IsBefore key m → find_key key m ≡ none
  unfolding find_key
  find_key-IsBefore key [] b = refl
  find_key-IsBefore key (entry ∷ rest) b =
      rw ((lt_text-apart key entry.0 b.0).1) (find_key-IsBefore key rest b.1)

  -- What is found after the entries of a map were assigned to another.
  pub find_key-assign_all :
      (key : Text) (entries m : StdMap V)
      → IsSorted entries
      → find_key key (assign_all entries m) ≡ or_else (find_key key entries) (find_key key m)
  unfolding find_key assign_all
  find_key-assign_all key [] m s = refl
  find_key-assign_all key (entry ∷ rest) m s =
      find_key-assign_all key rest (assign entry.0 entry.1 m) s.1
      ∙ rw (find_key-assign entry.0 key entry.1 m) (elim (Bool-cases (eqb_text entry.0 key)) [
        | inl same ↦
            let e = eqb_text-eq entry.0 key same in
            let gone : find_key key rest ≡ none =
              subst (λ k. find_key k rest ≡ none) e (find_key-IsBefore entry.0 rest s.0) in
            rw (same, gone)
        | inr apart ↦ rw apart
      ])

  pub assign_all-IsSorted : (entries m : StdMap V) → IsSorted m → IsSorted (assign_all entries m)
  unfolding assign_all
  assign_all-IsSorted [] m s = s
  assign_all-IsSorted (entry ∷ rest) m s =
      assign_all-IsSorted rest (assign entry.0 entry.1 m) (assign-IsSorted entry.0 entry.1 m s)

  -- All keys of the map are before the key.
  abbrev AreBefore : StdMap V → Text → Type 0
  AreBefore [] key = Unit
  AreBefore (entry ∷ rest) key = (lt_text entry.0 key ≡ true) × AreBefore rest key

  assign-last :
      (key : Text) (value : V) (m : StdMap V)
      → AreBefore m key
      → assign key value m ≡ m ++ (key, value) ∷ []
  unfolding assign
  assign-last key value [] b = refl
  assign-last key value (entry ∷ rest) b =
      let apart : eqb_text entry.0 key ≡ false = (lt_text-apart entry.0 key b.0).0 in
      let gt : leb_text key entry.0 ≡ false = ground (arith, b.0) in
      rw (apart, gt) (ap (λ es. entry ∷ es) (assign-last key value rest b.1))

  IsBefore-middle :
      (s : Text) (m rest : StdMap V) (entry : Text × V)
      → IsBefore s (m ++ entry ∷ rest)
      → lt_text s entry.0 ≡ true
  IsBefore-middle s [] rest entry b = b.0
  IsBefore-middle s (e ∷ m) rest entry b = IsBefore-middle s m rest entry b.1

  IsSorted-middle :
      (m rest : StdMap V) (entry : Text × V) → IsSorted (m ++ entry ∷ rest) → AreBefore m entry.0
  IsSorted-middle [] rest entry s = tt
  IsSorted-middle (e ∷ m) rest entry s =
      (IsBefore-middle e.0 m rest entry s.0, IsSorted-middle m rest entry s.1)

  -- The assignment of entries in order appends them.
  pub assign_all-append :
      (entries m : StdMap V) → IsSorted (m ++ entries) → assign_all entries m ≡ m ++ entries
  unfolding assign_all
  assign_all-append [] m s = sym (append_nil m)
  assign_all-append (entry ∷ rest) m s =
      rw (assign-last entry.0 entry.1 m (IsSorted-middle m rest entry s)) (
        assign_all-append rest (m ++ entry ∷ []) (subst IsSorted (sym (append-cons m rest entry)) s)
        ∙ append-cons m rest entry)
