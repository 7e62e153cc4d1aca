-- ===== src/Common/Members.antt =====
-- The items of a list.
use mathlib.Core.Path.{◌≡◌, refl, sym, ap, ap₂, ◌∙◌, subst}
use mathlib.Core.Logic.{◌⊎◌, inl, inr}
use mathlib.Core.Bool.{Bool, true, false, ◌||◌}
use mathlib.Core.List.{List, [], ◌∷◌, Permᴰ}
use native.Mathlib.Omega.{arith}
use agnet.Common.Tests.{Bool-cases}
use agnet.Common.Lists.{select, All}

abbrev pub In : {A : Type 0} → A → List A → Type 0
In x [] = ⊥
In x (y ∷ ys) = (x ≡ y) ⊎ In x ys

module _ {A : Type 0} (p : A → Bool) (x : A) where
  pub In-select : (xs : List A) → In x (select p xs) → In x xs × (p x ≡ true)
  In-select [] h = absurd h
  In-select (y ∷ ys) h = elim (Bool-cases (p y)) [
    | inl e ↦ passed e (λ r. In-select ys r) (rw e at h)
    | inr e ↦ (let (a, b) = In-select ys (rw e at h) in (inr a, b))
  ]
    where
      passed :
          p y ≡ true
          → (In x (select p ys) → In x ys × (p x ≡ true))
          → (x ≡ y) ⊎ In x (select p ys)
          → In x (y ∷ ys) × (p x ≡ true)
      passed e ih (inl q) = (inl q, ap p q ∙ e)
      passed e ih (inr r) = (let (a, b) = ih r in (inr a, b))

  pub select-In : (xs : List A) → In x xs → p x ≡ true → In x (select p xs)
  select-In [] h e = h
  select-In (y ∷ ys) (inl q) e = rw (ap p (sym q) ∙ e) (inl q)
  select-In (y ∷ ys) (inr r) e = elim (Bool-cases (p y)) [
    | inl f ↦ rw f (inr (select-In ys r e))
    | inr f ↦ rw f (select-In ys r e)
  ]

-- Some item passes the test.
abbrev pub any : {A : Type 0} → (A → Bool) → List A → Bool
any f [] = false
any f (x ∷ xs) = f x || any f xs

swapped_or : (a b c : Bool) → (a || (b || c)) ≡ (b || (a || c))
swapped_or a b c = ground arith

module _ {A : Type 0} where
  pub any-perm : (f : A → Bool) {xs ys : List A} → Permᴰ xs ys → any f xs ≡ any f ys
  any-perm f Permᴰ.nil = refl
  any-perm f (Permᴰ.cons e p) = ap₂ ◌||◌ (ap f e) (any-perm f p)
  any-perm f (Permᴰ.swap {a} {b} {a'} {b'} {l} e g) =
      swapped_or (f a) (f b) (any f l) ∙ ap₂ ◌||◌ (ap f g) (ap (λ x. f x || any f l) e)
  any-perm f (Permᴰ.trans p q) = any-perm f p ∙ any-perm f q

  pub In-perm : (x : A) {xs ys : List A} → Permᴰ xs ys → In x xs → In x ys
  In-perm x Permᴰ.nil h = h
  In-perm x (Permᴰ.cons e p) (inl q) = inl (q ∙ e)
  In-perm x (Permᴰ.cons e p) (inr r) = inr (In-perm x p r)
  In-perm x (Permᴰ.swap e g) (inl q) = inr (inl (q ∙ e))
  In-perm x (Permᴰ.swap e g) (inr (inl q)) = inl (q ∙ g)
  In-perm x (Permᴰ.swap e g) (inr (inr r)) = inr (inr r)
  In-perm x (Permᴰ.trans p q) h = In-perm x q (In-perm x p h)

  pub perm_back : {xs ys : List A} → Permᴰ xs ys → Permᴰ ys xs
  perm_back Permᴰ.nil = Permᴰ.nil
  perm_back (Permᴰ.cons e p) = Permᴰ.cons (sym e) (perm_back p)
  perm_back (Permᴰ.swap e g) = Permᴰ.swap (sym g) (sym e)
  perm_back (Permᴰ.trans p q) = Permᴰ.trans (perm_back q) (perm_back p)

  pub All-perm : (P : A → Type 0) {xs ys : List A} → Permᴰ xs ys → All P xs → All P ys
  All-perm P Permᴰ.nil h = h
  All-perm P (Permᴰ.cons e p) (h, hs) = (subst P e h, All-perm P p hs)
  All-perm P (Permᴰ.swap e g) (h, (k, hs)) = (subst P g k, (subst P e h, hs))
  All-perm P (Permᴰ.trans p q) h = All-perm P q (All-perm P p h)

  pub All-In : (P : A → Type 0) (x : A) (xs : List A) → All P xs → In x xs → P x
  All-In P x [] h m = absurd m
  All-In P x (y ∷ ys) (h, hs) (inl q) = subst P (sym q) h
  All-In P x (y ∷ ys) (h, hs) (inr r) = All-In P x ys hs r

-- What a range over a Go map meets: each item once, in some order.
abbrev pub IsRange : {A : Type 0} → (List A → List A) → Type 0
IsRange {A} ranged = (m : List A) → Permᴰ m (ranged m)
