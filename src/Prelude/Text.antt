-- ===== src/Prelude/Text.antt =====
-- Texts as lists of the codes of their characters, which are ASCII throughout.
use Prim.Native.Char.{code}
use Prim.Native.String.{String}
use odin_analytics.Prelude.{
  ℕ, zero, suc, List, [], ◌∷◌, Bool, true, false, ◌&&◌, ◌==◌, ◌≡◌, refl, ap, ◌∙◌, arith, ltb, not,
  sym, subst, ◌≢◌, Bool-cases, if◌then◌else◌, ◌⊎◌, inl, inr,
}

abbrev pub Text : Type 0
Text = List ℕ

-- The text of a literal.
abbrev pub codes : String → Text
codes String.[] = []
codes (String.◌∷◌ c s) = code c ∷ codes s

-- Texts and characters with the same codes.
abbrev pub eqb_text : Text → Text → Bool
eqb_text [] [] = true
eqb_text [] (d ∷ ds) = false
eqb_text (c ∷ cs) [] = false
eqb_text (c ∷ cs) (d ∷ ds) = (c == d) && eqb_text cs ds

pub eqb_text-eq : (s t : Text) → eqb_text s t ≡ true → s ≡ t
eqb_text-eq [] [] h = refl
eqb_text-eq [] (d ∷ ds) h = absurd (ground arith)
eqb_text-eq (c ∷ cs) [] h = absurd (ground arith)
eqb_text-eq (c ∷ cs) (d ∷ ds) h =
    let both : (c ≡ d) × (eqb_text cs ds ≡ true) = ground arith in
    ap (λ x. x ∷ cs) both.0 ∙ ap (λ xs. d ∷ xs) (eqb_text-eq cs ds both.1)

pub eqb_text_refl : (s : Text) → eqb_text s s ≡ true
eqb_text_refl [] = refl
eqb_text_refl (c ∷ cs) = ground (arith, eqb_text_refl cs)

-- The order of `std::string`.
abbrev pub leb_text : Text → Text → Bool
leb_text [] t = true
leb_text (c ∷ cs) [] = false
leb_text (c ∷ cs) (d ∷ ds) = if ltb c d then true else if c == d then leb_text cs ds else false

pub leb_text-total : (s t : Text) → (leb_text s t ≡ true) ⊎ (leb_text t s ≡ true)
leb_text-total [] t = inl refl
leb_text-total (c ∷ cs) [] = inr refl
leb_text-total (c ∷ cs) (d ∷ ds) = ground (arith, leb_text-total cs ds)

pub leb_text-antisym : (s t : Text) → leb_text s t ≡ true → leb_text t s ≡ true → s ≡ t
leb_text-antisym [] [] h k = refl
leb_text-antisym [] (d ∷ ds) h k = absurd (ground arith)
leb_text-antisym (c ∷ cs) [] h k = absurd (ground arith)
leb_text-antisym (c ∷ cs) (d ∷ ds) h k =
    let both : (c ≡ d) × (leb_text cs ds ≡ true) × (leb_text ds cs ≡ true) = ground arith in
    ap (λ x. x ∷ cs) both.0 ∙ ap (λ xs. d ∷ xs) (leb_text-antisym cs ds both.1 both.2)

pub leb_text_trans :
    (s t u : Text) → leb_text s t ≡ true → leb_text t u ≡ true → leb_text s u ≡ true
leb_text_trans [] t u h k = refl
leb_text_trans (c ∷ cs) [] u h k = absurd (ground arith)
leb_text_trans (c ∷ cs) (d ∷ ds) [] h k = absurd (ground arith)
leb_text_trans (c ∷ cs) (d ∷ ds) (e ∷ es) h k = ground (arith, leb_text_trans cs ds es)

abbrev pub lt_text : Text → Text → Bool
lt_text s t = not (leb_text t s)

pub eqb_text-apart :
    (a b c : Text) → eqb_text a b ≡ false → eqb_text a c ≡ true → eqb_text b c ≡ false
eqb_text-apart a b c h k = elim (Bool-cases (eqb_text b c)) [
  | inl same ↦
      let e : a ≡ b = eqb_text-eq a c k ∙ sym (eqb_text-eq b c same) in
      let t : eqb_text a b ≡ true = subst (λ x. eqb_text a x ≡ true) e (eqb_text_refl a) in
      absurd (ground arith)
  | inr r ↦ r
]

pub lt_text_trans : (s t u : Text) → lt_text s t ≡ true → lt_text t u ≡ true → lt_text s u ≡ true
lt_text_trans s t u h k =
    let total = leb_text-total s t in let trans = leb_text_trans u s t in ground arith

lt_text-distinct : (s t : Text) → lt_text s t ≡ true → s ≢ t
lt_text-distinct s t h e =
    let total = leb_text-total t t in
    let k : lt_text t t ≡ true = subst (λ x. lt_text x t ≡ true) e h in ground arith

pub lt_text-apart :
    (s t : Text) → lt_text s t ≡ true → (eqb_text s t ≡ false) × (eqb_text t s ≡ false)
lt_text-apart s t h = (
  elim (Bool-cases (eqb_text s t)) [
    | inl same ↦ absurd (lt_text-distinct s t h (eqb_text-eq s t same))
    | inr r ↦ r
  ],
  elim (Bool-cases (eqb_text t s)) [
    | inl same ↦ absurd (lt_text-distinct s t h (sym (eqb_text-eq t s same)))
    | inr r ↦ r
  ],
)

-- Texts that are told apart are in one order or the other.
pub lt_text-later : (s t : Text) → eqb_text t s ≡ false → leb_text s t ≡ true → lt_text s t ≡ true
lt_text-later s t apart le = elim (Bool-cases (leb_text t s)) [
  | inl ge ↦
      let e : t ≡ s = leb_text-antisym t s ge le in
      let same : eqb_text t s ≡ true = subst (λ x. eqb_text t x ≡ true) e (eqb_text_refl t) in
      absurd (ground arith)
  | inr r ↦ ground arith
]

-- Without as many characters as that.
abbrev pub drop_chars : ℕ → Text → Text
drop_chars zero s = s
drop_chars (suc n) [] = []
drop_chars (suc n) (c ∷ cs) = drop_chars n cs
