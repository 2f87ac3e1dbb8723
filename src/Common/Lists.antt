-- ===== src/Common/Lists.antt =====
-- Lists measured by native numbers, membership by recursion, and the list functions by which the
-- statements of the database are read.
use Prim.Native.Nat.{ℕ, zero, suc, ◌+◌}
use mathlib.Core.Path.{◌≡◌, refl, sym, ap}
use mathlib.Core.Logic.{◌⊎◌, inl, inr}
use mathlib.Core.Bool.{Bool, true}
use mathlib.Core.Option.{Option, none, some}
use mathlib.Core.List.{List, [], ◌∷◌, ◌++◌, map}
use native.Mathlib.Omega.{arith}
use x_b10cslashbademeister.Common.Tests.{if◌then◌else◌, Bool-cases}

module _ {ℓ} {A : Type ℓ} where
  abbrev pub length : List A → ℕ
  length [] = 0
  length (x ∷ xs) = suc (length xs)

  abbrev pub get_elem? : List A → ℕ → Option A
  get_elem? [] i = none
  get_elem? (x ∷ xs) zero = some x
  get_elem? (x ∷ xs) (suc i) = get_elem? xs i

  -- A write out of bounds changes nothing.
  abbrev pub set : List A → ℕ → A → List A
  set [] i v = []
  set (x ∷ xs) zero v = v ∷ xs
  set (x ∷ xs) (suc i) v = x ∷ set xs i v

  abbrev pub take : ℕ → List A → List A
  take zero xs = []
  take (suc n) [] = []
  take (suc n) (x ∷ xs) = x ∷ take n xs

  abbrev pub drop : ℕ → List A → List A
  drop zero xs = xs
  drop (suc n) [] = []
  drop (suc n) (x ∷ xs) = drop n xs

  abbrev pub replicate : ℕ → A → List A
  replicate zero a = []
  replicate (suc n) a = a ∷ replicate n a

  abbrev pub head? : List A → Option A
  head? [] = none
  head? (x ∷ xs) = some x

  pub length-append : (xs ys : List A) → length (xs ++ ys) ≡ length xs + length ys
  length-append [] ys = omega arith
  length-append (x ∷ xs) ys = omega (arith, length-append xs ys)

  -- The rows that pass a test, in their order.
  unfoldable pub filter : (A → Bool) → List A → List A
  filter p [] = []
  filter p (x ∷ xs) = let rest = filter p xs in if p x then x ∷ rest else rest

  -- Insertion into a sorted list, behind the rows that are not after it: a stable sort.
  unfoldable pub insert_by : (A → A → Bool) → A → List A → List A
  insert_by before x [] = x ∷ []
  insert_by before x (y ∷ ys) =
      let rest = insert_by before x ys in if before y x then y ∷ rest else x ∷ y ∷ ys

  unfoldable pub sort_by : (A → A → Bool) → List A → List A
  unfolding insert_by
  sort_by before [] = []
  sort_by before (x ∷ xs) = insert_by before x (sort_by before xs)

module _ {A : Type 0} where
  -- Membership, with the place kept.
  abbrev pub In : A → List A → Type 0
  In x [] = ⊥
  In x (y ∷ ys) = (x ≡ y) ⊎ In x ys

  abbrev pub All : (A → Type 0) → List A → Type 0
  All P [] = Unit
  All P (x ∷ xs) = P x × All P xs

  pub In-append_left : (x : A) (xs ys : List A) → In x xs → In x (xs ++ ys)
  In-append_left x [] ys i = elim i [ ]
  In-append_left x (y ∷ xs) ys (inl e) = inl e
  In-append_left x (y ∷ xs) ys (inr i) = inr (In-append_left x xs ys i)

  pub In-append_right : (x : A) (xs ys : List A) → In x ys → In x (xs ++ ys)
  In-append_right x [] ys i = i
  In-append_right x (y ∷ xs) ys i = inr (In-append_right x xs ys i)

  pub In-append_cases : (x : A) (xs ys : List A) → In x (xs ++ ys) → In x xs ⊎ In x ys
  In-append_cases x [] ys i = inr i
  In-append_cases x (y ∷ xs) ys (inl e) = inl (inl e)
  In-append_cases x (y ∷ xs) ys (inr i) = elim (In-append_cases x xs ys i) [
    | inl l ↦ inl (inr l)
    | inr r ↦ inr r
  ]

  pub In-filter : (p : A → Bool) (x : A) (xs : List A) → In x xs → p x ≡ true → In x (filter p xs)
  unfolding filter
  In-filter p x [] i t = elim i [ ]
  In-filter p x (y ∷ xs) (inl e) t = rw (sym e, t) (inl refl)
  In-filter p x (y ∷ xs) (inr i) t = elim (Bool-cases (p y)) [
    | inl h ↦ rw h (inr (In-filter p x xs i t))
    | inr h ↦ rw h (In-filter p x xs i t)
  ]

  pub filter-In : (p : A → Bool) (x : A) (xs : List A) → In x (filter p xs) → In x xs × (p x ≡ true)
  unfolding filter
  filter-In p x [] i = elim i [ ]
  filter-In p x (y ∷ xs) i = elim (Bool-cases (p y)) [
    | inl h ↦ ground (arith, filter-In p x xs)
    | inr h ↦ ground (arith, filter-In p x xs)
  ]

  pub insert_by-In :
      (before : A → A → Bool) (x y : A) (ys : List A)
      → In x (insert_by before y ys)
      → (x ≡ y) ⊎ In x ys
  unfolding insert_by
  insert_by-In before x y [] i = i
  insert_by-In before x y (z ∷ ys) i = ground (arith, insert_by-In before x y ys)

  pub In-insert_by :
      (before : A → A → Bool) (x y : A) (ys : List A)
      → (x ≡ y) ⊎ In x ys
      → In x (insert_by before y ys)
  unfolding insert_by
  In-insert_by before x y [] i = i
  In-insert_by before x y (z ∷ ys) i = ground (arith, In-insert_by before x y ys)

  pub sort_by-In :
      (before : A → A → Bool) (x : A) (xs : List A) → In x (sort_by before xs) → In x xs
  unfolding sort_by
  sort_by-In before x [] i = i
  sort_by-In before x (y ∷ ys) i =
      ground (arith, insert_by-In before x y (sort_by before ys), sort_by-In before x ys)

  pub In-sort_by :
      (before : A → A → Bool) (x : A) (xs : List A) → In x xs → In x (sort_by before xs)
  unfolding sort_by
  In-sort_by before x [] i = i
  In-sort_by before x (y ∷ ys) i =
      ground (arith, In-insert_by before x y (sort_by before ys), In-sort_by before x ys)

  pub take-In : (n : ℕ) (x : A) (xs : List A) → In x (take n xs) → In x xs
  take-In zero x xs i = elim i [ ]
  take-In (suc n) x [] i = i
  take-In (suc n) x (y ∷ ys) (inl e) = inl e
  take-In (suc n) x (y ∷ ys) (inr i) = inr (take-In n x ys i)

pub In-map : {A B : Type 0} (f : A → B) (x : A) (xs : List A) → In x xs → In (f x) (map f xs)
In-map f x (y ∷ xs) (inl e) = inl (ap f e)
In-map f x (y ∷ xs) (inr i) = inr (In-map f x xs i)
In-map f x [] i = elim i [ ]

pub map-In :
    {A B : Type 0} (f : A → B) (y : B) (xs : List A)
    → In y (map f xs)
    → (x : A) × In x xs × (y ≡ f x)
map-In f y [] i = elim i [ ]
map-In f y (x ∷ xs) (inl e) = (x, inl refl, e)
map-In f y (x ∷ xs) (inr i) = let (z, j, e) = map-In f y xs i in (z, inr j, e)
