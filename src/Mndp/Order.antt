-- ===== src/Mndp/Order.antt =====
-- The list that collectNeighbors of src/internal/mndp/discover.go returns.
use mathlib.Core.List.Perm
use mathlib.Core.List.{Perm}
use mactelnet_proxy.Base.{
  ◌≡◌, refl, arith, true, false, List, [], ◌∷◌, Bytes, Bool-cases, inl, inr, All,
}
use mactelnet_proxy.Mndp.Discover.{
  Neighbor, Event, less, insert_sorted, sort_neighbors, entries, collect_neighbors, discover,
  listen,
}

-- No entry stands behind one with a greater MAC.
abbrev pub IsSorted : List Neighbor → Type 0
IsSorted [] = Unit
IsSorted (n ∷ ns) = All (λ k. less k.mac n.mac ≡ false) ns × IsSorted ns

less_asymm : (a b : Bytes) → less a b ≡ true → less b a ≡ false
less_asymm [] [] h = refl
less_asymm [] (y ∷ ys) h = refl
less_asymm (x ∷ xs) [] h = cc
less_asymm (x ∷ xs) (y ∷ ys) h = ground (arith, less_asymm xs ys)

-- "Not less" is transitive.
less_trans : (a b c : Bytes) → less b a ≡ false → less c b ≡ false → less c a ≡ false
less_trans [] b [] h k = refl
less_trans [] b (z ∷ zs) h k = refl
less_trans (x ∷ xs) (y ∷ ys) (z ∷ zs) h k = ground (arith, less_trans xs ys zs)
less_trans (x ∷ xs) _ _ h k = cc

insert_sorted-perm : (n : Neighbor) (ns : List Neighbor) → Perm (insert_sorted n ns) (n ∷ ns)
unfolding insert_sorted
insert_sorted-perm n [] = Perm.refl _
insert_sorted-perm n (k ∷ ks) = elim (Bool-cases (less k.mac n.mac)) [
  | inl before ↦ rw before (Perm.trans (Perm.cons k (insert_sorted-perm n ks)) (Perm.swap n k ks))
  | inr after ↦ rw after (Perm.refl _)
]

All-above :
    (m n : Bytes) (ns : List Neighbor)
    → less n m ≡ false
    → All (λ k. less k.mac n ≡ false) ns
    → All (λ k. less k.mac m ≡ false) ns
All-above m n [] h a = tt
All-above m n (k ∷ ks) h a = (less_trans m n k.mac h a.0, All-above m n ks h a.1)

All-insert_sorted :
    (b : Bytes) (n : Neighbor) (ns : List Neighbor)
    → less n.mac b ≡ false
    → All (λ k. less k.mac b ≡ false) ns
    → All (λ k. less k.mac b ≡ false) (insert_sorted n ns)
unfolding insert_sorted
All-insert_sorted b n [] h a = (h, tt)
All-insert_sorted b n (k ∷ ks) h a = ground (arith, All-insert_sorted b n ks h a.1)

insert_sorted-IsSorted :
    (n : Neighbor) (ns : List Neighbor) → IsSorted ns → IsSorted (insert_sorted n ns)
unfolding insert_sorted
insert_sorted-IsSorted n [] s = (tt, tt)
insert_sorted-IsSorted n (k ∷ ks) s = ground (
  arith,
  less_asymm k.mac n.mac,
  All-insert_sorted k.mac n ks,
  All-above n.mac k.mac ks,
  insert_sorted-IsSorted n ks s.1,
)

sort_neighbors-perm : (ns : List Neighbor) → Perm (sort_neighbors ns) ns
unfolding sort_neighbors
sort_neighbors-perm [] = Perm.refl _
sort_neighbors-perm (n ∷ ns) =
    Perm.trans (insert_sorted-perm n (sort_neighbors ns)) (Perm.cons n (sort_neighbors-perm ns))

sort_neighbors-IsSorted : (ns : List Neighbor) → IsSorted (sort_neighbors ns)
unfolding sort_neighbors
sort_neighbors-IsSorted [] = tt
sort_neighbors-IsSorted (n ∷ ns) = insert_sorted-IsSorted n _ (sort_neighbors-IsSorted ns)

-- The neighbours that Discover returns are those of its map, each once, in the order of their MACs.
pub discover-IsSorted :
    (es : List Event) → IsSorted (discover es).0 × Perm (discover es).0 (entries (listen es []).0)
unfolding discover collect_neighbors
discover-IsSorted es = (sort_neighbors-IsSorted _, sort_neighbors-perm _)
