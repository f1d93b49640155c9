-- ===== src/Prelude/Sublist.antt =====
-- Lists that are left when members of another are dropped.
use vegeta.Prelude.{
  ℕ, suc, zero, ◌≡◌, refl, ap, subst, some, List, [], ◌∷◌, ◌++◌, get_elem?, take, drop,
}

module _ {ℓ} {A : Type ℓ} where
  infix 50 ◌⊑◌
  pub data ◌⊑◌ : List A → List A → Type ℓ where
    nothing : (ys : List A) → [] ⊑ ys
    skip : {xs ys : List A} (y : A) → xs ⊑ ys → xs ⊑ (y ∷ ys)
    keep : {xs ys : List A} (x : A) → xs ⊑ ys → (x ∷ xs) ⊑ (x ∷ ys)

  pub ⊑_refl : (xs : List A) → xs ⊑ xs
  ⊑_refl [] = nothing []
  ⊑_refl (x ∷ xs) = keep x (⊑_refl xs)

  ⊑_behind : (zs : List A) {xs ys : List A} → xs ⊑ ys → xs ⊑ (zs ++ ys)
  ⊑_behind [] h = h
  ⊑_behind (z ∷ zs) h = skip z (⊑_behind zs h)

  pub ⊑-append : {xs ys zs ws : List A} → xs ⊑ ys → zs ⊑ ws → (xs ++ zs) ⊑ (ys ++ ws)
  ⊑-append (nothing ys) h = ⊑_behind ys h
  ⊑-append (skip y g) h = skip y (⊑-append g h)
  ⊑-append (keep x g) h = keep x (⊑-append g h)

  pub ⊑_trans : {xs ys zs : List A} → xs ⊑ ys → ys ⊑ zs → xs ⊑ zs
  ⊑_trans (nothing ys) h = nothing _
  ⊑_trans g (skip z h) = skip z (⊑_trans g h)
  ⊑_trans (skip y g) (keep _ h) = skip y (⊑_trans g h)
  ⊑_trans (keep x g) (keep _ h) = keep x (⊑_trans g h)

  pub ⊑-get_elem? : (xs : List A) (i : ℕ) (p : A) → get_elem? xs i ≡ some p → (p ∷ []) ⊑ xs
  ⊑-get_elem? [] i p e = absurd (cc e)
  ⊑-get_elem? (x ∷ xs) zero p e = subst (λ q. (q ∷ []) ⊑ (x ∷ xs)) (cc e) (keep x (nothing xs))
  ⊑-get_elem? (x ∷ xs) (suc i) p e = skip x (⊑-get_elem? xs i p e)

  pub ⊑-take : (n : ℕ) (xs : List A) → take n xs ⊑ xs
  ⊑-take zero xs = nothing xs
  ⊑-take (suc n) [] = nothing []
  ⊑-take (suc n) (x ∷ xs) = keep x (⊑-take n xs)

  pub take-drop : (n : ℕ) (xs : List A) → take n xs ++ drop n xs ≡ xs
  take-drop zero xs = refl
  take-drop (suc n) [] = refl
  take-drop (suc n) (x ∷ xs) = ap (λ ys. x ∷ ys) (take-drop n xs)
