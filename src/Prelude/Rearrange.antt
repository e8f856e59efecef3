-- ===== src/Prelude/Rearrange.antt =====
-- Rearrangements of a list, under `select` and under tests that do not read the order.
use mathlib.Core.Bool.{Bool-set}
use mathlib.Core.List.{Permᴰ, Perm}
use mathlib.Core.List.Perm
use mathlib.Core.Logic.{∥∥₁_elim, ∥∥₁_prop}
use dns_update.Prelude.{
  ◌≡◌, refl, sym, ap, ◌∙◌, inl, inr, Bool, true, false, List, [], ◌∷◌, arith, select, any_of,
  is_empty, Bool-cases,
}

module _ {ℓ} {A : Type ℓ} (p : A → Bool) where
  select_cons_perm :
      {a b : A} (xs ys : List A)
      → a ≡ b
      → Perm (select p xs) (select p ys)
      → Perm (select p (a ∷ xs)) (select p (b ∷ ys))
  select_cons_perm {a} xs ys e q = elim (Bool-cases (p a)) [
    | inl h ↦ rw (← e) (rw h (Perm.cons a q))
    | inr h ↦ rw (← e) (rw h q)
  ]

  select_swap_perm : (a b : A) (l : List A) → Perm (select p (a ∷ b ∷ l)) (select p (b ∷ a ∷ l))
  select_swap_perm a b l = elim (Bool-cases (p a)) [
    | inl h ↦ elim (Bool-cases (p b)) [
      | inl k ↦ rw (h, k) (Perm.swap b a (select p l))
      | inr k ↦ rw (h, k) Perm.rfl
    ]
    | inr h ↦ elim (Bool-cases (p b)) [ inl k ↦ rw (h, k) Perm.rfl | inr k ↦ rw (h, k) Perm.rfl ]
  ]

  selectᴰ : {xs ys : List A} → Permᴰ xs ys → Perm (select p xs) (select p ys)
  selectᴰ Permᴰ.nil = Perm.rfl
  selectᴰ (Permᴰ.cons {l₁} {l₂} e d) = select_cons_perm l₁ l₂ e (selectᴰ d)
  selectᴰ (Permᴰ.swap {a} {b} {l} e f) = rw (← e, ← f) (select_swap_perm a b l)
  selectᴰ (Permᴰ.trans d e) = Perm.trans (selectᴰ d) (selectᴰ e)

  -- The elements that pass a test are rearranged with the list.
  pub select-perm : {xs ys : List A} → Perm xs ys → Perm (select p xs) (select p ys)
  select-perm q = ∥∥₁_elim q ∥∥₁_prop selectᴰ

module _ {ℓ} {A : Type ℓ} where
  emptyᴰ : {xs ys : List A} → Permᴰ xs ys → is_empty xs ≡ is_empty ys
  emptyᴰ Permᴰ.nil = refl
  emptyᴰ (Permᴰ.cons e d) = refl
  emptyᴰ (Permᴰ.swap e f) = refl
  emptyᴰ (Permᴰ.trans d e) = cc (emptyᴰ d, emptyᴰ e)

  pub is_empty-perm : {xs ys : List A} → Perm xs ys → is_empty xs ≡ is_empty ys
  is_empty-perm q = ∥∥₁_elim q (Bool-set _ _) emptyᴰ

  pub eq-nil_of_is_empty : (xs : List A) → is_empty xs ≡ true → xs ≡ []
  eq-nil_of_is_empty [] h = refl
  eq-nil_of_is_empty (x ∷ xs) h = cc

  -- Of no element, or of one, there is one arrangement.
  pub perm_nil : {xs : List A} → Perm xs [] → xs ≡ []
  perm_nil {xs} q = eq-nil_of_is_empty xs (is_empty-perm q)

  singletonᴰ : {xs ys : List A} (x : A) → Permᴰ xs ys → ys ≡ x ∷ [] → xs ≡ x ∷ []
  singletonᴰ x Permᴰ.nil h = h
  singletonᴰ x (Permᴰ.cons {a} {b} {l₁} {l₂} e d) h =
      let rest : l₁ ≡ [] = eq-nil_of_is_empty l₁ (cc (emptyᴰ d, h)) in cc
  singletonᴰ x (Permᴰ.swap e f) h = cc
  singletonᴰ x (Permᴰ.trans d e) h = singletonᴰ x d (singletonᴰ x e h)

  pub perm_singleton : IsSet (List A) → {xs : List A} {x : A} → Perm xs (x ∷ []) → xs ≡ x ∷ []
  perm_singleton s {xs} {x} q = ∥∥₁_elim q (s xs (x ∷ [])) (λ d. singletonᴰ x d refl)

  anyᴰ : (p : A → Bool) {xs ys : List A} → Permᴰ xs ys → any_of p xs ≡ any_of p ys
  anyᴰ p Permᴰ.nil = refl
  anyᴰ p (Permᴰ.cons e d) = ground (arith, anyᴰ p d)
  anyᴰ p (Permᴰ.swap e f) = ground arith
  anyᴰ p (Permᴰ.trans d e) = cc (anyᴰ p d, anyᴰ p e)

  pub any_of-perm : (p : A → Bool) {xs ys : List A} → Perm xs ys → any_of p xs ≡ any_of p ys
  any_of-perm p q = ∥∥₁_elim q (Bool-set _ _) (anyᴰ p)

  any_of_all : (l : List A) → any_of (λ x. true) l ≡ false → l ≡ []
  any_of_all [] h = refl
  any_of_all (x ∷ l) h = absurd (cc h)

  -- Only the empty list is a rearrangement of the empty list.
  pub nothing-perm : {xs ys : List A} → Perm xs ys → xs ≡ [] → ys ≡ []
  nothing-perm {xs} {ys} q h =
      any_of_all ys (sym (any_of-perm (λ x. true) q) ∙ ap (any_of (λ x. true)) h)
