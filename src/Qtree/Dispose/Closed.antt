-- ===== src/Qtree/Dispose/Closed.antt =====
-- No pointer of a query tree dangles, and how writes keep that.
use rgraphql.Prelude.{
  ℕ, zero, suc, ◌+◌, ◌≤◌, Bool, true, false, Option, none, some, List, [], ◌∷◌, ◌≡◌, arith, Map,
  lookup, insert, nat_eq, lookup-insert, Bool-cases, inl, inr, Option-cases, ◌==◌, subst, not,
  length,
}
use rgraphql.Qtree.{QueryTreeNode}
use rgraphql.Qtree.Dispose.{shift_left, holds, remove_slot, slot}

abbrev pub Nodes : Type 0
Nodes = Map ℕ QueryTreeNode

abbrev pub Has : Nodes → ℕ → Type 0
Has m a = (n : QueryTreeNode) × (lookup a m ≡ some n)

abbrev pub HasOpt : Nodes → Option ℕ → Type 0
HasOpt m none = Unit
HasOpt m (some a) = Has m a

abbrev pub Slots : Nodes → List (Option ℕ) → Type 0
Slots m [] = Unit
Slots m (x ∷ xs) = HasOpt m x × Slots m xs

-- The pointers of a node to other nodes.
pub record NodeIsClosed (m : Nodes) (n : QueryTreeNode) : Type 0 where
  pub root : Has m n.root
  pub parent : HasOpt m n.parent
  pub children : Slots m n.children

abbrev pub IsClosed : Nodes → Type 0
IsClosed m = (a : ℕ) (n : QueryTreeNode) → lookup a m ≡ some n → NodeIsClosed m n

pub Has-insert : (m : Nodes) (a b : ℕ) (n : QueryTreeNode) → Has m b → Has (insert a n m) b
Has-insert m a b n (x, h) = elim (Bool-cases (a == b)) [
  | inl e ↦ (n, ground (arith, lookup-insert a b n m))
  | inr e ↦ (x, ground (arith, lookup-insert a b n m))
]

HasOpt-insert :
    (m : Nodes) (a : ℕ) (n : QueryTreeNode) (o : Option ℕ) → HasOpt m o → HasOpt (insert a n m) o
HasOpt-insert m a n none h = tt
HasOpt-insert m a n (some b) h = Has-insert m a b n h

Slots-insert :
    (m : Nodes) (a : ℕ) (n : QueryTreeNode) (xs : List (Option ℕ))
    → Slots m xs
    → Slots (insert a n m) xs
Slots-insert m a n [] h = tt
Slots-insert m a n (x ∷ xs) h = (HasOpt-insert m a n x h.0, Slots-insert m a n xs h.1)

pub NodeIsClosed-insert :
    (m : Nodes) (a : ℕ) (n x : QueryTreeNode) → NodeIsClosed m x → NodeIsClosed (insert a n m) x
NodeIsClosed-insert m a n x h = record {
  root = Has-insert m a x.root n h.root;
  parent = HasOpt-insert m a n x.parent h.parent;
  children = Slots-insert m a n x.children h.children;
}

-- A write of a node with no dangling pointer.
pub insert-IsClosed :
    (m : Nodes) (a : ℕ) (n : QueryTreeNode)
    → IsClosed m
    → NodeIsClosed m n
    → IsClosed (insert a n m)
insert-IsClosed m a n h c b x p = elim (Bool-cases (a == b)) [
  | inl e ↦
      let same : n ≡ x = ground (arith, lookup-insert a b n m) in
      NodeIsClosed-insert m a n x (subst (NodeIsClosed m) same c)
  | inr e ↦ NodeIsClosed-insert m a n x (h b x (ground (arith, lookup-insert a b n m)))
]

pub HasOpt-slot : (m : Nodes) (xs : List (Option ℕ)) (i : ℕ) → Slots m xs → HasOpt m (slot xs i)
HasOpt-slot m [] i h = tt
HasOpt-slot m (x ∷ xs) zero h = h.0
HasOpt-slot m (x ∷ xs) (suc i) h = HasOpt-slot m xs i h.1

Slots-shift_left :
    (m : Nodes) (k : ℕ) (xs : List (Option ℕ)) → Slots m xs → Slots m (shift_left k xs)
unfolding shift_left
Slots-shift_left m zero xs h = (tt, h)
Slots-shift_left m (suc k) [] h = (tt, tt)
Slots-shift_left m (suc k) (x ∷ xs) h = (h.0, Slots-shift_left m k xs h.1)

abbrev SlotsOpt : Nodes → Option (List (Option ℕ)) → Type 0
SlotsOpt m none = Unit
SlotsOpt m (some xs) = Slots m xs

pub Slots-remove_slot :
    (m : Nodes) (c len : ℕ) (xs : List (Option ℕ)) {ys : List (Option ℕ)}
    → Slots m xs
    → remove_slot c len xs ≡ some ys
    → Slots m ys
unfolding remove_slot
Slots-remove_slot m c zero xs h e = absurd (ground arith)
Slots-remove_slot m c (suc len) [] h e = absurd (ground arith)
Slots-remove_slot m c (suc len) (x ∷ xs) {ys} h e = elim (Bool-cases (holds c x)) [
  | inl found ↦
      let same : shift_left len xs ≡ ys = ground arith in
      subst (Slots m) same (Slots-shift_left m len xs h.1)
  | inr other ↦ elim (Option-cases (remove_slot c len xs)) [
    | inl gone ↦ absurd (ground arith)
    | inr (zs, rest) ↦
        let same : x ∷ zs ≡ ys = ground arith in
        subst (Slots m) same (h.0, Slots-remove_slot m c len xs h.1 rest)
  ]
]

abbrev one_if : Bool → ℕ
one_if true = 1
one_if false = 0

-- The nodes that are not disposed.
abbrev pub live : Nodes → ℕ
live [] = 0
live ((a, n) ∷ m) = one_if (not n.disposed) + live m

-- A write over a node changes the count by what the write changes of that node.
pub live-insert :
    (m : Nodes) (a : ℕ) (n x : QueryTreeNode)
    → lookup a m ≡ some n
    → live (insert a x m) + one_if (not n.disposed) ≡ live m + one_if (not x.disposed)
unfolding lookup insert
live-insert [] a n x h = absurd (ground arith)
live-insert ((b, y) ∷ m) a n x h = elim (Bool-cases (b == a)) [
  | inl e ↦ ground arith
  | inr e ↦ ground (arith, live-insert m a n x)
]

pub live-le-length : (m : Nodes) → live m ≤ length m
live-le-length [] = omega arith
live-le-length ((a, n) ∷ m) = ground (arith, live-le-length m)

abbrev pub Entries : Nodes → Nodes → Type 0
Entries m [] = Unit
Entries m ((a, n) ∷ l) = NodeIsClosed m n × Entries m l

-- To check the entries one by one is enough.
pub Entries-closed :
    (m l : Nodes)
    → Entries m l
    → (a : ℕ) (n : QueryTreeNode) → lookup a l ≡ some n
    → NodeIsClosed m n
unfolding lookup
Entries-closed m [] h a n e = absurd (ground arith)
Entries-closed m ((b, x) ∷ l) h a n e = elim (Bool-cases (b == a)) [
  | inl c ↦ let same : x ≡ n = ground arith in subst (NodeIsClosed m) same h.0
  | inr c ↦ Entries-closed m l h.1 a n (ground arith)
]
