-- ===== src/Prelude/Sort.antt =====
-- `sort.Strings`, `sort.Slice` and `sort.Stable`, as an insertion sort that keeps the order of equals.
use vegeta.Prelude.{
  suc, ◌≡◌, refl, ap, ◌∙◌, inl, inr, Bool, true, false, List, [], ◌∷◌, if◌then◌else◌, ltb, ◌==◌,
  length, All, Any, Bool-cases, arith,
}
use mathlib.Core.List.{Perm}
use mathlib.Core.List.Perm
use vegeta.Prelude.Text.{Text, text_eq}

-- `<` of strings, byte by byte.
unfoldable pub text_lt : Text → Text → Bool
text_lt [] [] = false
text_lt [] (d ∷ t) = true
text_lt (c ∷ s) [] = false
text_lt (c ∷ s) (d ∷ t) = if ltb c d then true else if c == d then text_lt s t else false

-- `sort.Stable`: an element goes before those behind it that are not less.
module _ {ℓ} {A : Type ℓ} (less : A → A → Bool) where
  unfoldable pub insert : A → List A → List A
  insert x [] = x ∷ []
  insert x (y ∷ ys) = if less y x then y ∷ insert x ys else x ∷ y ∷ ys

  unfoldable pub sort : List A → List A
  unfolding insert
  sort [] = []
  sort (x ∷ xs) = insert x (sort xs)

-- No element is less than the one before it.
abbrev pub Ordered {ℓ} : {A : Type ℓ} → (A → A → Bool) → List A → Type 0
Ordered less [] = Unit
Ordered less (x ∷ []) = Unit
Ordered less (x ∷ y ∷ ys) = (less y x ≡ false) × Ordered less (y ∷ ys)

module _ {ℓ} {A : Type ℓ} (less : A → A → Bool) where
  length-insert : (x : A) (ys : List A) → length (insert less x ys) ≡ suc (length ys)
  unfolding insert
  length-insert x [] = refl
  length-insert x (y ∷ ys) = elim (Bool-cases (less y x)) [
    | inl e ↦ rw (insert, e) (ap suc (length-insert x ys))
    | inr e ↦ rw (insert, e) refl
  ]

  pub length-sort : (xs : List A) → length (sort less xs) ≡ length xs
  unfolding sort
  length-sort [] = refl
  length-sort (x ∷ xs) = length-insert x (sort less xs) ∙ ap suc (length-sort xs)

  All-insert {κ} :
      (P : A → Type κ) (x : A) (ys : List A) → P x → All P ys → All P (insert less x ys)
  unfolding insert
  All-insert P x [] px h = (px, tt)
  All-insert P x (y ∷ ys) px h = elim (Bool-cases (less y x)) [
    | inl e ↦ rw (insert, e) (h.0, All-insert P x ys px h.1)
    | inr e ↦ rw (insert, e) (px, h)
  ]

  pub All-sort {κ} : (P : A → Type κ) (xs : List A) → All P xs → All P (sort less xs)
  unfolding sort
  All-sort P [] h = tt
  All-sort P (x ∷ xs) h = All-insert P x (sort less xs) h.0 (All-sort P xs h.1)

  insert-Ordered :
      ((x y : A) → less x y ≡ true → less y x ≡ false)
      → (x : A) (ys : List A) → Ordered less ys
      → Ordered less (insert less x ys)
  unfolding insert
  insert-Ordered asym x [] h = tt
  insert-Ordered asym x (y ∷ []) h = elim (Bool-cases (less y x)) [
    | inl e ↦ rw (insert, e) (asym y x e, tt)
    | inr e ↦ rw (insert, e) (e, tt)
  ]
  insert-Ordered asym x (y ∷ z ∷ zs) h =
      let rest = insert-Ordered asym x (z ∷ zs) h.1 in
      elim (Bool-cases (less y x)) [
        | inl e ↦ elim (Bool-cases (less z x)) [
          | inl f ↦ rw (insert, e, f) (h.0, (rw (f) at rest))
          | inr f ↦ rw (insert, e, f) (asym y x e, (f, h.1))
        ]
        | inr e ↦ rw (insert, e) (e, h)
      ]

  pub sort-Ordered :
      ((x y : A) → less x y ≡ true → less y x ≡ false) → (xs : List A) → Ordered less (sort less xs)
  unfolding sort
  sort-Ordered asym [] = tt
  sort-Ordered asym (x ∷ xs) = insert-Ordered asym x (sort less xs) (sort-Ordered asym xs)

-- Each text is less than the one after it.
abbrev pub Ascending : List Text → Type 0
Ascending [] = Unit
Ascending (x ∷ []) = Unit
Ascending (x ∷ y ∷ ys) = (text_lt x y ≡ true) × Ascending (y ∷ ys)

-- No text occurs twice.
abbrev pub Distinct : List Text → Type 0
Distinct [] = Unit
Distinct (x ∷ xs) = All (λ y. text_eq x y ≡ false) xs × Distinct xs

text_lt-total : (x y : Text) → text_eq x y ≡ false → text_lt y x ≡ false → text_lt x y ≡ true
unfolding text_eq text_lt
text_lt-total [] [] e f = absurd cc
text_lt-total [] (d ∷ y) e f = refl
text_lt-total (c ∷ x) [] e f = absurd cc
text_lt-total (c ∷ x) (d ∷ y) e f = ground (arith, e, f, text_lt-total x y)

insert-Ascending :
    (x : Text) (ys : List Text)
    → All (λ y. text_eq x y ≡ false) ys
    → Ascending ys
    → Ascending (insert text_lt x ys)
unfolding insert
insert-Ascending x [] new h = tt
insert-Ascending x (y ∷ []) new h = elim (Bool-cases (text_lt y x)) [
  | inl e ↦ rw (insert, e) (e, tt)
  | inr e ↦ rw (insert, e) (text_lt-total x y new.0 e, tt)
]
insert-Ascending x (y ∷ z ∷ zs) new h =
    let rest = insert-Ascending x (z ∷ zs) new.1 h.1 in
    elim (Bool-cases (text_lt y x)) [
      | inl e ↦ elim (Bool-cases (text_lt z x)) [
        | inl f ↦ rw (insert, e, f) (h.0, (rw (f) at rest))
        | inr f ↦ rw (insert, e, f) (e, (text_lt-total x z new.1.0 f, h.1))
      ]
      | inr e ↦ rw (insert, e) (text_lt-total x y new.0 e, h)
    ]

pub sort-Ascending : (xs : List Text) → Distinct xs → Ascending (sort text_lt xs)
unfolding sort
sort-Ascending [] d = tt
sort-Ascending (x ∷ xs) d =
    insert-Ascending x (sort text_lt xs) (All-sort text_lt (λ y. text_eq x y ≡ false) xs d.0)
      (sort-Ascending xs d.1)

module _ {ℓ} {A : Type ℓ} (less : A → A → Bool) (P : A → Type 0) where
  insert-here : (x : A) (ys : List A) → P x → Any P (insert less x ys)
  unfolding insert
  insert-here x [] px = inl px
  insert-here x (y ∷ ys) px = elim (Bool-cases (less y x)) [
    | inl e ↦ rw (insert, e) (inr (insert-here x ys px))
    | inr e ↦ rw (insert, e) (inl px)
  ]

  insert-there : (x : A) (ys : List A) → Any P ys → Any P (insert less x ys)
  unfolding insert
  insert-there x [] h = elim h [ ]
  insert-there x (y ∷ ys) (inl py) = elim (Bool-cases (less y x)) [
    | inl e ↦ rw (insert, e) (inl py)
    | inr e ↦ rw (insert, e) (inr (inl py))
  ]
  insert-there x (y ∷ ys) (inr h) = elim (Bool-cases (less y x)) [
    | inl e ↦ rw (insert, e) (inr (insert-there x ys h))
    | inr e ↦ rw (insert, e) (inr (inr h))
  ]

  pub Any-sort : (xs : List A) → Any P xs → Any P (sort less xs)
  unfolding sort
  Any-sort [] h = elim h [ ]
  Any-sort (x ∷ xs) (inl px) = insert-here x (sort less xs) px
  Any-sort (x ∷ xs) (inr h) = insert-there x (sort less xs) (Any-sort xs h)

module _ {ℓ} {A : Type ℓ} (less : A → A → Bool) where
  insert-Perm : (x : A) (ys : List A) → Perm (insert less x ys) (x ∷ ys)
  unfolding insert
  insert-Perm x [] = Perm.rfl
  insert-Perm x (y ∷ ys) = elim (Bool-cases (less y x)) [
    | inl e ↦ rw (insert, e) (Perm.trans (Perm.cons y (insert-Perm x ys)) (Perm.swap x y ys))
    | inr e ↦ rw (insert, e) Perm.rfl
  ]

  -- A sorted list has the elements of the list, each as often.
  pub sort-Perm : (xs : List A) → Perm (sort less xs) xs
  unfolding sort
  sort-Perm [] = Perm.rfl
  sort-Perm (x ∷ xs) = Perm.trans (insert-Perm x (sort less xs)) (Perm.cons x (sort-Perm xs))
