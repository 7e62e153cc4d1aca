-- ===== src/Common/Lists.antt =====
-- Lists measured and indexed by native numbers, and lists read off a function.
use Prim.Native.Nat.{ℕ, zero, suc, ◌+◌, ◌-◌, ◌<◌, ◌≤◌, min}
use mathlib.Core.Path.{◌≡◌, refl, ap, ap₂, ◌∙◌}
use mathlib.Core.Logic.{◌≢◌}
use mathlib.Core.Bool.{Bool}
use mathlib.Core.List.{List, [], ◌∷◌, ◌++◌}
use native.Mathlib.Omega.{arith}
use agnet.Common.Tests.{if◌then◌else◌}

module _ {ℓ} {A : Type ℓ} where
  abbrev pub length : List A → ℕ
  length [] = 0
  length (x ∷ xs) = suc (length xs)

  abbrev pub get_or : List A → ℕ → A → A
  get_or [] i d = d
  get_or (x ∷ xs) zero d = x
  get_or (x ∷ xs) (suc i) d = get_or xs i d

  -- A write out of bounds changes nothing.
  abbrev pub set : List A → ℕ → A → List A
  set [] i v = []
  set (x ∷ xs) zero v = v ∷ xs
  set (x ∷ xs) (suc i) v = x ∷ set xs i v

  abbrev pub take : ℕ → List A → List A
  take zero xs = []
  take (suc n) [] = []
  take (suc n) (x ∷ xs) = x ∷ take n xs

  abbrev pub drop : ℕ → List A → List A
  drop zero xs = xs
  drop (suc n) [] = []
  drop (suc n) (x ∷ xs) = drop n xs

  abbrev pub replicate : ℕ → A → List A
  replicate zero a = []
  replicate (suc n) a = a ∷ replicate n a

  -- The items that pass a Boolean test, in order.
  abbrev pub select : (A → Bool) → List A → List A
  select p [] = []
  select p (x ∷ xs) = let rest = select p xs in if p x then x ∷ rest else rest

  abbrev pub All {κ} : (A → Type κ) → List A → Type κ
  All P [] = Unit
  All P (x ∷ xs) = P x × All P xs

  -- f i, f (i + 1), …, n of them.
  abbrev pub gather : (ℕ → A) → ℕ → ℕ → List A
  gather f i zero = []
  gather f i (suc n) = f i ∷ gather f (i + 1) n

module _ {ℓ} {A : Type ℓ} where
  pub length-append : (xs ys : List A) → length (xs ++ ys) ≡ length xs + length ys
  length-append [] ys = omega arith
  length-append (x ∷ xs) ys = omega (arith, length-append xs ys)

  pub length-set : (xs : List A) (i : ℕ) (v : A) → length (set xs i v) ≡ length xs
  length-set [] i v = refl
  length-set (x ∷ xs) zero v = refl
  length-set (x ∷ xs) (suc i) v = ap suc (length-set xs i v)

  pub length-replicate : (n : ℕ) (a : A) → length (replicate n a) ≡ n
  length-replicate zero a = refl
  length-replicate (suc n) a = ap suc (length-replicate n a)

  pub get_or-set_self :
      (xs : List A) (i : ℕ) (v d : A) → i < length xs → get_or (set xs i v) i d ≡ v
  get_or-set_self [] i v d h = absurd (omega arith)
  get_or-set_self (x ∷ xs) zero v d h = refl
  get_or-set_self (x ∷ xs) (suc i) v d h = get_or-set_self xs i v d (omega arith)

  pub get_or-set_ne :
      (xs : List A) (i j : ℕ) (v d : A) → i ≢ j → get_or (set xs i v) j d ≡ get_or xs j d
  get_or-set_ne [] i j v d h = refl
  get_or-set_ne (x ∷ xs) zero zero v d h = absurd (h refl)
  get_or-set_ne (x ∷ xs) zero (suc j) v d h = refl
  get_or-set_ne (x ∷ xs) (suc i) zero v d h = refl
  get_or-set_ne (x ∷ xs) (suc i) (suc j) v d h = get_or-set_ne xs i j v d (λ e. h (ap suc e))

  pub take-append-drop : (n : ℕ) (xs : List A) → take n xs ++ drop n xs ≡ xs
  take-append-drop zero xs = refl
  take-append-drop (suc n) [] = refl
  take-append-drop (suc n) (x ∷ xs) = ap (◌∷◌ x) (take-append-drop n xs)

  pub length-drop : (n : ℕ) (xs : List A) → length (drop n xs) ≡ length xs - n
  length-drop zero xs = omega arith
  length-drop (suc n) [] = omega arith
  length-drop (suc n) (x ∷ xs) = omega (arith, length-drop n xs)

  pub length-gather : (f : ℕ → A) (i n : ℕ) → length (gather f i n) ≡ n
  length-gather f i zero = refl
  length-gather f i (suc n) = ap suc (length-gather f (i + 1) n)

  -- Functions that agree on the indices read give the same list.
  pub gather_ext :
      (f g : ℕ → A) (i n : ℕ)
      → ((k : ℕ) → i ≤ k → k < i + n → f k ≡ g k)
      → gather f i n ≡ gather g i n
  gather_ext f g i zero h = refl
  gather_ext f g i (suc n) h =
      ap₂ ◌∷◌ (h i (omega arith) (omega arith))
        (gather_ext f g (i + 1) n (λ k lo hi. h k (omega arith) (omega arith)))

  pub gather_snoc : (f : ℕ → A) (i n : ℕ) → gather f i (suc n) ≡ gather f i n ++ (f (i + n) ∷ [])
  gather_snoc f i zero = ap (λ k. f k ∷ []) (omega arith)
  gather_snoc f i (suc n) =
      ap (◌∷◌ (f i))
        (gather_snoc f (i + 1) n ∙ ap (λ k. gather f (i + 1) n ++ (f k ∷ [])) (omega arith))

  pub gather_shift : (f : ℕ → A) (i n : ℕ) → gather (λ k. f (k + 1)) i n ≡ gather f (i + 1) n
  gather_shift f i zero = refl
  gather_shift f i (suc n) = ap (◌∷◌ (f (i + 1))) (gather_shift f (i + 1) n)

  pub All-append {κ} : (P : A → Type κ) (xs ys : List A) → All P xs → All P ys → All P (xs ++ ys)
  All-append P [] ys _ hy = hy
  All-append P (x ∷ xs) ys (px, hx) hy = (px, All-append P xs ys hx hy)

  -- A function that differs from another at one index gives the list with that item written.
  pub gather-set :
      (f g : ℕ → A) (s n j : ℕ) (v : A)
      → j < n
      → g (s + j) ≡ v
      → ((k : ℕ) → s ≤ k → k < s + n → k ≢ s + j → g k ≡ f k)
      → gather g s n ≡ set (gather f s n) j v
  gather-set f g s zero j v lt e same = absurd (omega arith)
  gather-set f g s (suc n) zero v lt e same =
      ap₂ ◌∷◌ (ap g (omega arith) ∙ e)
        (gather_ext g f (s + 1) n (λ k lo hi. same k (omega arith) (omega arith) (omega arith)))
  gather-set f g s (suc n) (suc j) v lt e same =
      ap₂ ◌∷◌ (same s (omega arith) (omega arith) (omega arith)) (
        gather-set f g (s + 1) n j v (omega arith) (ap g (omega arith) ∙ e)
          (λ k lo hi ne. same k (omega arith) (omega arith) (omega arith)))

  pub length-take : (n : ℕ) (xs : List A) → length (take n xs) ≡ min n (length xs)
  length-take zero xs = omega arith
  length-take (suc n) [] = omega arith
  length-take (suc n) (x ∷ xs) = omega (arith, length-take n xs)

pub take-nil {ℓ} : {A : Type ℓ} (n : ℕ) → take {A = A} n [] ≡ []
take-nil zero = refl
take-nil (suc n) = refl

-- Insertion sort by a Boolean order, as `ORDER BY` with a key that tells the rows apart.
module _ {ℓ} {A : Type ℓ} (le : A → A → Bool) where
  abbrev pub insert_by : A → List A → List A
  insert_by x [] = x ∷ []
  insert_by x (y ∷ ys) = let rest = insert_by x ys in if le x y then x ∷ y ∷ ys else y ∷ rest

  abbrev pub sort_by : List A → List A
  sort_by [] = []
  sort_by (x ∷ xs) = insert_by x (sort_by xs)

-- `out` of the loop that copies a slice backwards.
abbrev pub reversed {ℓ} : {A : Type ℓ} → List A → List A
reversed [] = []
reversed (x ∷ xs) = reversed xs ++ (x ∷ [])
