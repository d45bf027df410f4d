-- ===== src/Base/Sort.antt =====
-- sort.Slice of Go. It promises a permutation that is in order under `less`, and nothing on the
-- order of elements that compare as equal; this stable insertion sort is one such function.
use Prim.Native.Nat.{suc}
use mathlib.Core.Path.{◌≡◌, refl}
use mathlib.Core.Bool.{Bool, true, false}
use mathlib.Core.List.{List, [], ◌∷◌, Perm, map}
use mathlib.Core.List.Perm
use mathlib.Core.Logic.{inl, inr}
use native.Mathlib.Omega.{arith}
use ton_validators_rewards_a.Base.Tests.{if◌then◌else◌, Bool-cases}
use ton_validators_rewards_a.Base.Lists.{All, All-map, length}
use ton_validators_rewards_a.Base.Int.{ℤ, ◌+ℤ◌, sum_ℤ, int_laws}

module _ {ℓ} {A : Type ℓ} (less : A → A → Bool) where
  unfoldable pub insert_sorted : A → List A → List A
  insert_sorted x [] = x ∷ []
  insert_sorted x (y ∷ ys) = if less y x then y ∷ insert_sorted x ys else x ∷ y ∷ ys

  unfoldable pub sort_slice : List A → List A
  unfolding insert_sorted
  sort_slice [] = []
  sort_slice (x ∷ xs) = insert_sorted x (sort_slice xs)

  -- No later element is less than an earlier one.
  abbrev pub IsSorted : List A → Type 0
  IsSorted [] = Unit
  IsSorted (x ∷ xs) = All (λ y. less y x ≡ false) xs × IsSorted xs

  insert_sorted-perm : (x : A) (ys : List A) → Perm (insert_sorted x ys) (x ∷ ys)
  unfolding insert_sorted
  insert_sorted-perm x [] = Perm.refl (x ∷ [])
  insert_sorted-perm x (y ∷ ys) = elim (Bool-cases (less y x)) [
    | inl e ↦ rw e (Perm.trans (Perm.cons y (insert_sorted-perm x ys)) (Perm.swap x y ys))
    | inr e ↦ rw e (Perm.refl (x ∷ y ∷ ys))
  ]

  pub sort_slice-perm : (xs : List A) → Perm (sort_slice xs) xs
  unfolding sort_slice
  sort_slice-perm [] = Perm.refl []
  sort_slice-perm (x ∷ xs) =
      Perm.trans (insert_sorted-perm x (sort_slice xs)) (Perm.cons x (sort_slice-perm xs))

  insert_sorted-All {κ} :
      (P : A → Type κ) (x : A) (ys : List A) → P x → All P ys → All P (insert_sorted x ys)
  unfolding insert_sorted
  insert_sorted-All P x [] px h = (px, tt)
  insert_sorted-All P x (y ∷ ys) px h = elim (Bool-cases (less y x)) [
    | inl e ↦ rw e (h.0, insert_sorted-All P x ys px h.1)
    | inr e ↦ rw e (px, h)
  ]

  pub sort_slice-All {κ} : (P : A → Type κ) (xs : List A) → All P xs → All P (sort_slice xs)
  unfolding sort_slice
  sort_slice-All P [] h = tt
  sort_slice-All P (x ∷ xs) h = insert_sorted-All P x (sort_slice xs) h.0 (sort_slice-All P xs h.1)

  length-insert_sorted : (x : A) (ys : List A) → length (insert_sorted x ys) ≡ suc (length ys)
  unfolding insert_sorted
  length-insert_sorted x [] = refl
  length-insert_sorted x (y ∷ ys) = ground (arith, length-insert_sorted x ys)

  pub length-sort_slice : (xs : List A) → length (sort_slice xs) ≡ length xs
  unfolding sort_slice
  length-sort_slice [] = refl
  length-sort_slice (x ∷ xs) =
      omega (arith, length-insert_sorted x (sort_slice xs), length-sort_slice xs)

  -- Sums over a list do not see the order.
  module _ (f : A → ℤ) where
    sum_insert_sorted :
        (x : A) (ys : List A) → sum_ℤ (map f (insert_sorted x ys)) ≡ f x +ℤ sum_ℤ (map f ys)
    unfolding insert_sorted
    sum_insert_sorted x [] = refl
    sum_insert_sorted x (y ∷ ys) = grind (int_laws, sum_insert_sorted x ys)

    pub sum-sort_slice : (xs : List A) → sum_ℤ (map f (sort_slice xs)) ≡ sum_ℤ (map f xs)
    unfolding sort_slice
    sum-sort_slice [] = refl
    sum-sort_slice (x ∷ xs) = rw (sum_insert_sorted x (sort_slice xs), sum-sort_slice xs)

  -- With a comparison that is a weak order, the result is sorted.
  module _ (asym : (a b : A) → less a b ≡ true → less b a ≡ false)
      (trans : (a b c : A) → less b a ≡ false → less c b ≡ false → less c a ≡ false) where
    insert_sorted-IsSorted : (x : A) (ys : List A) → IsSorted ys → IsSorted (insert_sorted x ys)
    unfolding insert_sorted
    insert_sorted-IsSorted x [] h = (tt, tt)
    insert_sorted-IsSorted x (y ∷ ys) h = elim (Bool-cases (less y x)) [
      | inl e ↦ rw e (
        insert_sorted-All (λ z. less z y ≡ false) x ys (asym y x e) h.0,
        insert_sorted-IsSorted x ys h.1,
      )
      | inr e ↦ rw e ((e, All-map (λ z q. trans x y z e q) ys h.0), h)
    ]

    pub sort_slice-IsSorted : (xs : List A) → IsSorted (sort_slice xs)
    unfolding sort_slice
    sort_slice-IsSorted [] = tt
    sort_slice-IsSorted (x ∷ xs) = insert_sorted-IsSorted x (sort_slice xs) (sort_slice-IsSorted xs)
