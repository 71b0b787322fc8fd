-- ===== src/FixedString/Copy.antt =====
-- What fixed strings are made of (include/oa/fixed_string.h).
use odin_analytics.Prelude.{
  ℕ, zero, suc, ◌-◌, ◌≤◌, ◌≡◌, refl, ap, sym, ◌∙◌, arith, true, Bool-cases, inl, inr, leb, List, [],
  ◌∷◌, ◌++◌, append_nil, length, length-append, ok,
}
use odin_analytics.Prelude.Text.{Text}
use odin_analytics.FixedString.{copy_arg, copy_args, fixed_size, sized_string}

-- The inputs, one behind the other.
abbrev pub joined : List Text → Text
joined [] = []
joined (arg ∷ args) = arg ++ joined args

-- `s` is the beginning of `all` that has n characters.
abbrev pub IsStart : ℕ → Text → Text → Type 0
IsStart n s all = (length s ≡ n) × (rest : Text) × (s ++ rest ≡ all)

append_assoc : (r s t : Text) → (r ++ s) ++ t ≡ r ++ (s ++ t)
append_assoc [] s t = refl
append_assoc (c ∷ cs) s t = ap (λ xs. c ∷ xs) (append_assoc cs s t)

copy_arg-whole : (room : ℕ) (arg : Text) → length arg ≤ room → copy_arg room arg ≡ arg
unfolding copy_arg
copy_arg-whole zero [] h = refl
copy_arg-whole zero (c ∷ cs) h = absurd (omega arith)
copy_arg-whole (suc room) [] h = refl
copy_arg-whole (suc room) (c ∷ cs) h = ap (λ xs. c ∷ xs) (copy_arg-whole room cs (omega arith))

copy_arg-IsStart :
    (room : ℕ) (arg : Text) → room ≤ length arg → IsStart room (copy_arg room arg) arg
unfolding copy_arg
copy_arg-IsStart zero arg h = (refl, arg, refl)
copy_arg-IsStart (suc room) [] h = absurd (omega arith)
copy_arg-IsStart (suc room) (c ∷ cs) h =
    let (l, rest, e) = copy_arg-IsStart room cs (omega arith) in
    (ap suc l, rest, ap (λ xs. c ∷ xs) e)

copy_args-no_room : (args : List Text) → copy_args 0 args ≡ []
unfolding copy_args copy_arg
copy_args-no_room [] = refl
copy_args-no_room (arg ∷ args) = ap (λ n. copy_args n args) (omega arith) ∙ copy_args-no_room args

copy_args-IsStart :
    (n : ℕ) (args : List Text) → n ≤ fixed_size args → IsStart n (copy_args n args) (joined args)
unfolding copy_args fixed_size
copy_args-IsStart n [] h = (omega arith, [], refl)
copy_args-IsStart n (arg ∷ args) h = elim (Bool-cases (leb (length arg) n)) [
  | inl whole ↦
      let (l, rest, e) = copy_args-IsStart (n - length arg) args (ground arith) in
      rw (copy_arg-whole n arg (ground arith)) (
        ground (arith, length-append arg (copy_args (n - length arg) args), l),
        rest,
        append_assoc arg (copy_args (n - length arg) args) rest ∙ ap (λ xs. arg ++ xs) e,
      )
  | inr cut ↦
      let (l, rest, e) = copy_arg-IsStart n arg (ground arith) in
      let none_left : copy_args (n - length arg) args ≡ [] =
        ap (λ k. copy_args k args) (ground arith) ∙ copy_args-no_room args in
      rw (none_left, append_nil (copy_arg n arg))
        (
          l,
          rest ++ joined args,
          sym (append_assoc (copy_arg n arg) rest (joined args)) ∙ ap (λ xs. xs ++ joined args) e,
        )
]

-- A string whose size is given, and is at most the number of characters of the inputs, is made: it has
-- that size, and is the beginning of the inputs that are put one behind the other.
pub sized_string-IsStart :
    (n : ℕ) (args : List Text)
    → n ≤ fixed_size args
    → (s : Text) × (sized_string n args ≡ ok s) × IsStart n s (joined args)
unfolding sized_string
sized_string-IsStart n args h =
    let enough : leb n (fixed_size args) ≡ true = ground arith in
    (copy_args n args, rw enough, copy_args-IsStart n args h)
