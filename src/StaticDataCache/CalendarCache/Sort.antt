-- ===== src/StaticDataCache/CalendarCache/Sort.antt =====
-- The sorting of the names of regions (src/static_data_cache/calendar_cache.cpp).
use odin_analytics.Prelude.{
  ◌≡◌, refl, sym, ap, ◌∙◌, arith, true, false, Bool-cases, inl, inr, List, [], ◌∷◌,
}
use mathlib.Core.Logic.{∥∥₁_elim}
use mathlib.Core.List.{Permᴰ, Perm}
use mathlib.Core.List.Permᴰ.{nil, cons, swap, trans}
use odin_analytics.Prelude.Text.{Text, leb_text, leb_text-total, leb_text-antisym, leb_text_trans}
use odin_analytics.StaticDataCache.CalendarCache.{insert, sort}

insert-first : (s t : Text) (ts : List Text) → leb_text s t ≡ true → insert s (t ∷ ts) ≡ s ∷ t ∷ ts
unfolding insert
insert-first s t ts h = rw h

insert-later :
    (s t : Text) (ts : List Text) → leb_text s t ≡ false → insert s (t ∷ ts) ≡ t ∷ insert s ts
unfolding insert
insert-later s t ts h = rw h

insert-empty : (s : Text) → insert s [] ≡ s ∷ []
unfolding insert
insert-empty s = refl

-- Two texts that both go before the others.
insert-both :
    (s t : Text) (us : List Text)
    → insert s us ≡ s ∷ us
    → insert t us ≡ t ∷ us
    → insert s (insert t us) ≡ insert t (insert s us)
insert-both s t us p q =
    let total = leb_text-total s t in
    let antisym = leb_text-antisym s t in
    rw (q, p)
      (elim (Bool-cases (leb_text s t)) [
        | inl h ↦ elim (Bool-cases (leb_text t s)) [
          | inl k ↦
              let e = antisym h k in
              rw (insert-first s t us h, insert-first t s us k)
                (ap (λ x. x ∷ t ∷ us) e ∙ ap (λ x. t ∷ x ∷ us) (sym e))
          | inr k ↦ rw (insert-first s t us h, insert-later t s us k, q)
        ]
        | inr h ↦
            let k : leb_text t s ≡ true = ground arith in
            rw (insert-later s t us h, insert-first t s us k, p)
      ])

-- The first text goes before another, and the second behind it.
insert-split :
    (s t u : Text) (us : List Text)
    → leb_text s u ≡ true
    → leb_text t u ≡ false
    → insert s (insert t (u ∷ us)) ≡ insert t (insert s (u ∷ us))
insert-split s t u us before behind =
    let trans = leb_text_trans t s u in
    let h : leb_text t s ≡ false = ground arith in
    rw (
      insert-later t u us behind,
      insert-first s u us before,
      insert-first s u (insert t us) before,
      insert-later t s (u ∷ us) h,
      insert-later t u us behind,
    )

-- Two insertions commute.
insert-insert : (s t : Text) (us : List Text) → insert s (insert t us) ≡ insert t (insert s us)
insert-insert s t [] = insert-both s t [] (insert-empty s) (insert-empty t)
insert-insert s t (u ∷ us) = elim (Bool-cases (leb_text t u)) [
  | inl a ↦ elim (Bool-cases (leb_text s u)) [
    | inl b ↦ insert-both s t (u ∷ us) (insert-first s u us b) (insert-first t u us a)
    | inr b ↦ sym (insert-split t s u us a b)
  ]
  | inr a ↦ elim (Bool-cases (leb_text s u)) [
    | inl b ↦ insert-split s t u us b a
    | inr b ↦
        rw
          (
            insert-later t u us a,
            insert-later s u us b,
            insert-later s u (insert t us) b,
            insert-later t u (insert s us) a,
          )
          (ap (λ xs. u ∷ xs) (insert-insert s t us))
  ]
]

sort-Permᴰ : {ss ts : List Text} → Permᴰ ss ts → sort ss ≡ sort ts
unfolding sort
sort-Permᴰ nil = refl
sort-Permᴰ (cons {l₁ = ss} e p) = ap (λ x. insert x (sort ss)) e ∙ ap (insert _) (sort-Permᴰ p)
sort-Permᴰ (swap {a = s} {b = t} {a' = v} {l = us} d e) =
    insert-insert s t (sort us)
    ∙ ap (λ x. insert x (insert s (sort us))) e
    ∙ ap (λ x. insert v (insert x (sort us))) d
sort-Permᴰ (trans p q) = sort-Permᴰ p ∙ sort-Permᴰ q

-- Sorting forgets the order of the list.
pub sort-Perm : {ss ts : List Text} → Perm ss ts → sort ss ≡ sort ts
sort-Perm {ss} {ts} p =
    let texts_set : IsSet (List Text) = hlevel in
    ∥∥₁_elim p (texts_set (sort ss) (sort ts)) sort-Permᴰ
