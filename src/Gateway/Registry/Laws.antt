-- ===== src/Gateway/Registry/Laws.antt =====
-- What is persisted of a registry brings its nodes back.
use agnet.Common.{
  ℕ, ◌+◌, String, ◌≡◌, refl, sym, ap, ◌∙◌, arith, false, Option, none, some, List, [], ◌∷◌, map,
  if◌then◌else◌, Option-cases, Bool-cases, inl, inr,
}
use agnet.Common.Text.{is_empty, ◌=s◌, eq_iff}
use agnet.Common.Map.{
  Map, lookup, insert, delete, values, lookup-insert_self, lookup-insert_ne, lookup-delete,
}
use agnet.Gateway.{Node, disconnected}
use agnet.Common.Members.{IsRange}
use agnet.Gateway.Registry.Range.{IsKeyed, perm-Same}
use agnet.Gateway.Registry.{
  NodeEntry, Registry, new_registry, with_id, node_of, entry_of, add, load_all, load_all_from, get,
  rename, remove, to_entries,
}

insert-IsKeyed :
    (k : String) (n : Node) (m : Map Node)
    → n.id ≡ k
    → is_empty k ≡ false
    → IsKeyed m
    → IsKeyed (insert k n m)
unfolding insert lookup
insert-IsKeyed k n [] e ne u = (e, ne, refl, u)
insert-IsKeyed k n ((j, w) ∷ m) e ne (ej, nej, fresh, rest) = elim (Bool-cases (j =s k)) [
  | inl q ↦ rw q (e ∙ sym ((eq_iff j k).0 q), nej, fresh, rest)
  | inr q ↦ rw q (
    ej,
    nej,
    lookup-insert_ne k j n m (λ p. ground (arith, eq_iff j k)) ∙ fresh,
    insert-IsKeyed k n m e ne rest,
  )
]

delete-IsKeyed : (k : String) (m : Map Node) → IsKeyed m → IsKeyed (delete k m)
unfolding delete lookup
delete-IsKeyed k [] u = u
delete-IsKeyed k ((j, w) ∷ m) (ej, nej, fresh, rest) = elim (Bool-cases (j =s k)) [
  | inl q ↦ rw q (delete-IsKeyed k m rest)
  | inr q ↦ rw q (ej, nej, ground (arith, lookup-delete k j m), delete-IsKeyed k m rest)
]

-- The same node, disconnected and with no proxy or tunnel.
abbrev pub restored : Option Node → Option Node
restored none = none
restored (some n) = some (record n { status = disconnected; proxy = none; tunnel = none })

or_else : Option Node → Option Node → Option Node
or_else none d = d
or_else (some n) d = some n

with_id_lem : (uuid : String) (e : NodeEntry) → is_empty e.id ≡ false → with_id uuid e ≡ e
with_id_lem uuid e h = rw h refl

restored_here :
    (k j : String) (n : Node) (nodes : Map Node) (o : Option Node)
    → n.id ≡ k
    → (k ≡ j → o ≡ none)
    → or_else (restored o) (lookup j (insert n.id (node_of (entry_of n)) nodes))
      ≡ or_else (restored (if k =s j then some n else o)) (lookup j nodes)
unfolding or_else
restored_here k j n nodes o e fresh = elim (Bool-cases (k =s j)) [
  | inl q ↦
      let p = (eq_iff k j).0 q in
      rw (q, fresh p)
        (ap (λ h. lookup j (insert h (node_of (entry_of n)) nodes)) (e ∙ p)
          ∙ lookup-insert_self j (node_of (entry_of n)) nodes)
  | inr q ↦ rw q (
      ap (or_else (restored o)) (
        ap (λ h. lookup j (insert h (node_of (entry_of n)) nodes)) e
        ∙ lookup-insert_ne k j (node_of (entry_of n)) nodes (λ p. ground (arith, eq_iff k j))))
]

load_all_lem :
    (uuid : ℕ → String) (i : ℕ) (r : Registry) (m : Map Node) (j : String)
    → IsKeyed m
    → lookup j (load_all_from uuid i r (map entry_of (values m))).nodes
      ≡ or_else (restored (lookup j m)) (lookup j r.nodes)
unfolding lookup or_else load_all_from
load_all_lem uuid i r [] j u = refl
load_all_lem uuid i r ((k, n) ∷ m) j (e, ne, fresh, rest) =
    ap
      (λ (x : NodeEntry).
        lookup j
          (load_all_from uuid (i + 1) (record { nodes = insert x.id (node_of x) r.nodes })
            (map entry_of (values m))).nodes)
      (with_id_lem (uuid i) (entry_of n) (ap is_empty e ∙ ne))
    ∙ load_all_lem uuid (i + 1) (record { nodes = insert n.id (node_of (entry_of n)) r.nodes }) m j
        rest
    ∙ restored_here k j n r.nodes (lookup j m) e (λ p. sym (ap (λ x. lookup x m) p) ∙ fresh)

-- The changes to a registry.
pub data Op : Type 0 where
  adds : (uuid : String) → is_empty uuid ≡ false → NodeEntry → Op
  renames : String → String → Op
  removes : String → Op

pub run : Registry → List Op → Registry
run r [] = r
run r (adds uuid fresh e ∷ ops) = run (add uuid r e).0 ops
run r (renames id name ∷ ops) = run (rename r id name).0 ops
run r (removes id ∷ ops) = run (remove r id).0 ops

with_id-named :
    (uuid : String) (e : NodeEntry) → is_empty uuid ≡ false → is_empty (with_id uuid e).id ≡ false
with_id-named uuid e h = elim (Bool-cases (is_empty e.id)) [ inl q ↦ rw q h | inr q ↦ rw q q ]

lookup-IsKeyed :
    (k : String) (n : Node) (m : Map Node)
    → IsKeyed m
    → lookup k m ≡ some n
    → (n.id ≡ k) × (is_empty k ≡ false)
unfolding lookup
lookup-IsKeyed k n [] u e = absurd (ground arith)
lookup-IsKeyed k n ((j, w) ∷ m) (ej, nej, fresh, rest) e = elim (Bool-cases (j =s k)) [
  | inl q ↦
      let p = (eq_iff j k).0 q in
      let same : w ≡ n = ground arith in
      (sym (ap (λ (x : Node). x.id) same) ∙ ej ∙ p, ap is_empty (sym p) ∙ nej)
  | inr q ↦ lookup-IsKeyed k n m rest (ground arith)
]

rename-IsKeyed :
    (r : Registry) (id name : String) → IsKeyed r.nodes → IsKeyed (rename r id name).0.nodes
unfolding rename
rename-IsKeyed r id name u = elim (Option-cases (lookup id r.nodes)) [
  | inl e ↦ rw (e, rename) u
  | inr (n, e) ↦
      let (same, named) = lookup-IsKeyed id n r.nodes u e in
      rw (e, rename) (insert-IsKeyed id (record n { name = name }) r.nodes same named u)
]

remove-IsKeyed : (r : Registry) (id : String) → IsKeyed r.nodes → IsKeyed (remove r id).0.nodes
unfolding remove
remove-IsKeyed r id u = elim (Option-cases (lookup id r.nodes)) [
  | inl e ↦ rw (e, remove) u
  | inr (n, e) ↦ rw (e, remove) (delete-IsKeyed id r.nodes u)
]

run-IsKeyed : (ops : List Op) (r : Registry) → IsKeyed r.nodes → IsKeyed (run r ops).nodes
unfolding run add
run-IsKeyed [] r u = u
run-IsKeyed (adds uuid fresh e ∷ ops) r u = run-IsKeyed ops (add uuid r e).0 (
    insert-IsKeyed (with_id uuid e).id (node_of (with_id uuid e)) r.nodes refl
      (with_id-named uuid e fresh) u)
run-IsKeyed (renames id name ∷ ops) r u =
    run-IsKeyed ops (rename r id name).0 (rename-IsKeyed r id name u)
run-IsKeyed (removes id ∷ ops) r u = run-IsKeyed ops (remove r id).0 (remove-IsKeyed r id u)

or_else-none : (o : Option Node) → or_else o none ≡ o
unfolding or_else
or_else-none none = refl
or_else-none (some n) = refl

-- Whatever nodes were added to a new registry, with UUIDs that are not empty, and renamed and
-- removed, the entries that are persisted of it, in whatever order the nodes are met, bring every node
-- back: each id names the same node as before, disconnected and with no proxy or tunnel, and no other
-- id names one.
pub load_all-to_entries :
    (uuid : ℕ → String) (ranged : Map Node → Map Node) (ops : List Op) (id : String)
    → IsRange ranged
    → get (load_all uuid new_registry (to_entries ranged (run new_registry ops))) id
      ≡ restored (get (run new_registry ops) id)
unfolding get load_all to_entries new_registry lookup
load_all-to_entries uuid ranged ops id range =
    let nodes = (run new_registry ops).nodes in
    let (keyed, same) = perm-Same (range nodes) (run-IsKeyed ops new_registry tt) in
    load_all_lem uuid 0 new_registry (ranged nodes) id keyed
    ∙ or_else-none (restored (lookup id (ranged nodes)))
    ∙ ap restored (same id)
