-- ===== src/Common/Table.antt =====
-- SQL tables as lists of rows: SELECT ... LIMIT 1, COUNT, UPDATE and DELETE with a WHERE clause,
-- and how many rows of a kind each of them leaves.
use Prim.Native.Nat.{ℕ, ◌+◌, ◌≤◌}
use mathlib.Core.Path.{◌≡◌, refl, sym, ap, ◌∙◌}
use mathlib.Core.Bool.{Bool, true, false}
use mathlib.Core.Option
use mathlib.Core.Option.{Option, none, some}
use mathlib.Core.List.{List, [], ◌∷◌}
use native.Mathlib.Omega.{arith}
use agent_crew.Common.Tests.{if◌then◌else◌, Bool-cases}
use mathlib.Core.Logic.{inl, inr}

module _ {ℓ} {A : Type ℓ} where
  unfoldable pub count_where : (A → Bool) → List A → ℕ
  count_where p [] = 0
  count_where p (x ∷ xs) = (if p x then 1 else 0) + count_where p xs

  unfoldable pub find_where : (A → Bool) → List A → Option A
  find_where p [] = none
  find_where p (x ∷ xs) = if p x then some x else find_where p xs

  -- one row of an UPDATE
  abbrev pub set_where : (A → Bool) → (A → A) → A → A
  set_where p f x = if p x then f x else x

  unfoldable pub update_where : (A → Bool) → (A → A) → List A → List A
  update_where p f [] = []
  update_where p f (x ∷ xs) = set_where p f x ∷ update_where p f xs

  unfoldable pub delete_where : (A → Bool) → List A → List A
  delete_where p [] = []
  delete_where p (x ∷ xs) = let rest = delete_where p xs in if p x then rest else x ∷ rest

module _ {ℓ} {A : Type ℓ} where
  pub count-update_none :
      (q p : A → Bool) (f : A → A) (xs : List A)
      → ((x : A) → q (set_where p f x) ≡ false)
      → count_where q (update_where p f xs) ≡ 0
  unfolding count_where update_where
  count-update_none q p f [] h = refl
  count-update_none q p f (x ∷ xs) h = rw (h x) (omega (arith, count-update_none q p f xs h))

  pub count-update_same :
      (q p : A → Bool) (f : A → A) (xs : List A)
      → ((x : A) → q (set_where p f x) ≡ q x)
      → count_where q (update_where p f xs) ≡ count_where q xs
  unfolding count_where update_where
  count-update_same q p f [] h = refl
  count-update_same q p f (x ∷ xs) h = rw (h x) (rw (count-update_same q p f xs h))

  pub find-update_same :
      (q p : A → Bool) (f : A → A) (xs : List A)
      → ((x : A) → q (set_where p f x) ≡ q x)
      → find_where q (update_where p f xs) ≡ Option.map (set_where p f) (find_where q xs)
  unfolding find_where update_where
  find-update_same q p f [] h = refl
  find-update_same q p f (x ∷ xs) h = elim (Bool-cases (q x)) [
    | inl y ↦ rw (h x) (rw (y, if◌then◌else◌))
    | inr n ↦ rw (h x) (rw (n, if◌then◌else◌) (find-update_same q p f xs h))
  ]

  pub count-update_le :
      (q p : A → Bool) (f : A → A) (xs : List A)
      → ((x : A) → q (set_where p f x) ≡ true → q x ≡ true)
      → count_where q (update_where p f xs) ≤ count_where q xs
  unfolding count_where update_where
  count-update_le q p f [] h = omega arith
  count-update_le q p f (x ∷ xs) h = elim (Bool-cases (q (set_where p f x))) [
    | inl y ↦ rw (y, h x y) (omega (arith, count-update_le q p f xs h))
    | inr n ↦ rw n (omega (arith, count-update_le q p f xs h))
  ]

  pub count_mono :
      (p q : A → Bool) (xs : List A)
      → ((x : A) → p x ≡ true → q x ≡ true)
      → count_where p xs ≤ count_where q xs
  unfolding count_where
  count_mono p q [] h = omega arith
  count_mono p q (x ∷ xs) h = elim (Bool-cases (p x)) [
    | inl y ↦ rw (y, h x y) (omega (arith, count_mono p q xs h))
    | inr n ↦ rw n (omega (arith, count_mono p q xs h))
  ]

  -- Deleting rows that the search does not want changes nothing for it.
  pub find-delete_same :
      (q p : A → Bool) (xs : List A) {x : A}
      → find_where q xs ≡ some x
      → p x ≡ false
      → find_where q (delete_where p xs) ≡ some x
  unfolding find_where delete_where
  find-delete_same q p [] e h = absurd (ground arith)
  find-delete_same q p (y ∷ ys) {x = x} e h = elim (Bool-cases (q y)) [
    | inl hit ↦
        let same : y ≡ x = ground arith in let kept : p y ≡ false = ap p same ∙ h in ground arith
    | inr miss ↦ ground (arith, find-delete_same q p ys {x = x} (ground arith) h)
  ]

  pub find_none : (q : A → Bool) (xs : List A) → find_where q xs ≡ none → count_where q xs ≡ 0
  unfolding find_where count_where
  find_none q [] e = refl
  find_none q (x ∷ xs) e = elim (Bool-cases (q x)) [
    | inl y ↦ absurd (ground arith)
    | inr n ↦ ground (arith, find_none q xs (ground arith))
  ]

  pub count-delete_le :
      (q p : A → Bool) (xs : List A) → count_where q (delete_where p xs) ≤ count_where q xs
  unfolding count_where delete_where
  count-delete_le q p [] = omega arith
  count-delete_le q p (x ∷ xs) = elim (Bool-cases (p x)) [
    | inl y ↦ rw y (omega (arith, count-delete_le q p xs))
    | inr n ↦ rw n (omega (arith, count-delete_le q p xs))
  ]

  -- An UPDATE or a DELETE that matches no row leaves the table alone.
  pub update_none :
      (p : A → Bool) (f : A → A) (xs : List A) → count_where p xs ≡ 0 → update_where p f xs ≡ xs
  unfolding count_where update_where
  update_none p f [] e = refl
  update_none p f (x ∷ xs) e = elim (Bool-cases (p x)) [
    | inl y ↦ absurd (ground arith)
    | inr n ↦ rw (n, update_none p f xs (ground arith)) refl
  ]

  pub delete_none : (p : A → Bool) (xs : List A) → count_where p xs ≡ 0 → delete_where p xs ≡ xs
  unfolding count_where delete_where
  delete_none p [] e = refl
  delete_none p (x ∷ xs) e = elim (Bool-cases (p x)) [
    | inl y ↦ absurd (ground arith)
    | inr n ↦ rw (n, delete_none p xs (ground arith)) refl
  ]

  -- Two searches that no row answers together, each as frequent as its rows allow.
  pub count_disjoint :
      (p q r : A → Bool) (xs : List A)
      → ((x : A) → p x ≡ true → (r x ≡ true) × (q x ≡ false))
      → ((x : A) → q x ≡ true → r x ≡ true)
      → count_where p xs + count_where q xs ≤ count_where r xs
  unfolding count_where
  count_disjoint p q r [] h k = omega arith
  count_disjoint p q r (x ∷ xs) h k = elim (Bool-cases (p x)) [
    | inl y ↦ rw (y, (h x y).0, (h x y).1) (omega (arith, count_disjoint p q r xs h k))
    | inr n ↦ elim (Bool-cases (q x)) [
      | inl z ↦ rw (n, z, k x z) (omega (arith, count_disjoint p q r xs h k))
      | inr w ↦ rw (n, w) (omega (arith, count_disjoint p q r xs h k))
    ]
  ]

  pub count-update_mono :
      (q q' p : A → Bool) (f : A → A) (xs : List A)
      → ((x : A) → q (set_where p f x) ≡ true → q' x ≡ true)
      → count_where q (update_where p f xs) ≤ count_where q' xs
  unfolding count_where update_where
  count-update_mono q q' p f [] h = omega arith
  count-update_mono q q' p f (x ∷ xs) h = elim (Bool-cases (q (set_where p f x))) [
    | inl y ↦ rw (y, h x y) (omega (arith, count-update_mono q q' p f xs h))
    | inr n ↦ rw n (omega (arith, count-update_mono q q' p f xs h))
  ]

  pub count-delete_same :
      (q p : A → Bool) (xs : List A)
      → ((x : A) → q x ≡ true → p x ≡ false)
      → count_where q (delete_where p xs) ≡ count_where q xs
  unfolding count_where delete_where
  count-delete_same q p [] h = refl
  count-delete_same q p (x ∷ xs) h = elim (Bool-cases (q x)) [
    | inl y ↦ ground (arith, h x y, count-delete_same q p xs h)
    | inr n ↦ elim (Bool-cases (p x)) [
      | inl d ↦ ground (arith, count-delete_same q p xs h)
      | inr k ↦ ground (arith, count-delete_same q p xs h)
    ]
  ]

  -- What a search finds answers it.
  pub find-holds : (q : A → Bool) (xs : List A) {x : A} → find_where q xs ≡ some x → q x ≡ true
  unfolding find_where
  find-holds q [] e = absurd (ground arith)
  find-holds q (y ∷ ys) {x = x} e = elim (Bool-cases (q y)) [
    | inl hit ↦ let same : y ≡ x = ground arith in sym (ap q same) ∙ hit
    | inr miss ↦ find-holds q ys {x = x} (ground arith)
  ]
