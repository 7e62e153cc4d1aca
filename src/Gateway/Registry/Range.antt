-- ===== src/Gateway/Registry/Range.antt =====
-- A range over the nodes of a registry, in whatever order it meets them.
use mathlib.Core.Path.{subst}
use mathlib.Core.List.{Permᴰ}
use agnet.Common.{
  ◌≡◌, refl, sym, ap, ◌∙◌, String, false, none, some, [], ◌∷◌, map, if◌then◌else◌, Bool-cases, inl,
  inr,
}
use agnet.Common.Text.{is_empty, ◌=s◌, eq_iff}
use agnet.Common.Map.{Map, lookup, values}
use agnet.Gateway.{Node}
use agnet.Gateway.Registry.{entry_of}

-- Each node is stored once, under its own id, which is not empty.
abbrev pub IsKeyed : Map Node → Type 0
IsKeyed [] = Unit
IsKeyed ((k, n) ∷ m) = (n.id ≡ k) × (is_empty k ≡ false) × (lookup k m ≡ none) × IsKeyed m

-- If the one is keyed, so is the other, and they have the same items.
abbrev Same : Map Node → Map Node → Type 0
Same l l' = IsKeyed l → IsKeyed l' × ((j : String) → lookup j l' ≡ lookup j l)

cons-Same : (x : String × Node) (l l' : Map Node) → Same l l' → Same (x ∷ l) (x ∷ l')
unfolding lookup
cons-Same (k, n) l l' s (e, ne, fresh, rest) =
    let (keyed, same) = s rest in
    ((e, ne, same k ∙ fresh, keyed), λ j. ap (λ o. if k =s j then some n else o) (same j))

differs_back : (k j : String) → (j =s k) ≡ false → (k =s j) ≡ false
differs_back k j h = elim (Bool-cases (k =s j)) [
  | inl t ↦ cc ((eq_iff j k).1 (sym ((eq_iff k j).0 t)), h)
  | inr t ↦ t
]

swap-Same : (x y : String × Node) (l : Map Node) → Same (x ∷ y ∷ l) (y ∷ x ∷ l)
unfolding lookup
swap-Same (k, n) (j, w) l (e, ne, fresh, (ej, nej, freshj, rest)) = elim (Bool-cases (j =s k)) [
  | inl q ↦ cc (rw q at fresh)
  | inr q ↦
      let other = differs_back k j q in
      (
        (ej, nej, rw other freshj, (e, ne, (rw q at fresh), rest)),
        λ i. elim (Bool-cases (j =s i)) [
          | inl t ↦ rw (t, ap (λ x. k =s x) (sym ((eq_iff j i).0 t)) ∙ other) refl
          | inr t ↦ rw t refl
        ],
      )
]

pub perm-Same : {l l' : Map Node} → Permᴰ l l' → Same l l'
perm-Same Permᴰ.nil = λ u. (u, λ j. refl)
perm-Same (Permᴰ.cons {a} {b} {l₁} {l₂} e p) =
    subst (λ y. Same (a ∷ l₁) (y ∷ l₂)) e (cons-Same a l₁ l₂ (perm-Same p))
perm-Same (Permᴰ.swap {a} {b} {a'} {b'} {l} e f) =
    subst (λ y. Same (a ∷ b ∷ l) (y ∷ b' ∷ l)) f
      (subst (λ y. Same (a ∷ b ∷ l) (b ∷ y ∷ l)) e (swap-Same a b l))
perm-Same (Permᴰ.trans p q) = λ u.
    let (v, same) = perm-Same p u in let (w, same') = perm-Same q v in (w, λ j. same' j ∙ same j)

pub entries-perm :
    {l l' : Map Node} → Permᴰ l l' → Permᴰ (map entry_of (values l)) (map entry_of (values l'))
entries-perm Permᴰ.nil = Permᴰ.nil
entries-perm (Permᴰ.cons e p) =
    Permᴰ.cons (ap (λ (x : String × Node). entry_of x.1) e) (entries-perm p)
entries-perm (Permᴰ.swap e f) =
    Permᴰ.swap (ap (λ (x : String × Node). entry_of x.1) e)
      (ap (λ (x : String × Node). entry_of x.1) f)
entries-perm (Permᴰ.trans p q) = Permᴰ.trans (entries-perm p) (entries-perm q)
