-- ===== src/Daemon/Thinned.antt =====
-- Histories from which some entries are missing.
use embedded_device_forwarde.Prelude.{
  ℕ, suc, ◌+◌, ◌≡◌, refl, ap, sym, subst, List, [], ◌∷◌, ◌++◌, ◌⊎◌, inl, inr, All, arith,
}

-- The second list is the first without `n` of its entries, in the same order.
unfoldable pub Thinned {ℓ} : {A : Type ℓ} → List A → List A → ℕ → Type ℓ
Thinned [] ys n = (ys ≡ []) × (n ≡ 0)
Thinned {A = A} (x ∷ xs) ys n =
    ((rest : List A) × (ys ≡ x ∷ rest) × Thinned xs rest n)
    ⊎ ((m : ℕ) × (n ≡ suc m) × Thinned xs ys m)

module _ {ℓ} {A : Type ℓ} where
  pub Thinned-keep :
      (xs ys : List A) (n : ℕ) (x : A) → Thinned xs ys n → Thinned (xs ++ x ∷ []) (ys ++ x ∷ []) n
  unfolding Thinned
  Thinned-keep [] ys n x (e, k) = inl ([], ap (λ l. l ++ x ∷ []) e, (refl, k))
  Thinned-keep (a ∷ xs) ys n x (inl (rest, e, h)) =
      inl (rest ++ x ∷ [], ap (λ l. l ++ x ∷ []) e, Thinned-keep xs rest n x h)
  Thinned-keep (a ∷ xs) ys n x (inr (m, e, h)) = inr (m, e, Thinned-keep xs ys m x h)

  pub Thinned-drop :
      (xs ys : List A) (n : ℕ) (x : A) → Thinned xs ys n → Thinned (xs ++ x ∷ []) ys (n + 1)
  unfolding Thinned
  Thinned-drop [] ys n x (e, k) = inr (0, omega arith, (e, refl))
  Thinned-drop (a ∷ xs) ys n x (inl (rest, e, h)) = inl (rest, e, Thinned-drop xs rest n x h)
  Thinned-drop (a ∷ xs) ys n x (inr (m, e, h)) = inr (m + 1, omega arith, Thinned-drop xs ys m x h)

  pub Thinned-All {κ} :
      (P : A → Type κ) (xs ys : List A) (n : ℕ) → Thinned xs ys n → All P xs → All P ys
  unfolding Thinned
  Thinned-All P [] ys n (e, k) h = subst (All P) (sym e) tt
  Thinned-All P (x ∷ xs) ys n (inl (rest, e, t)) h =
      subst (All P) (sym e) (h.0, Thinned-All P xs rest n t h.1)
  Thinned-All P (x ∷ xs) ys n (inr (m, e, t)) h = Thinned-All P xs ys m t h.1
