-- ===== src/Client/QueryTree/Rules.antt =====
-- Total correctness of the operations on the client's query tree, step by step.
use rgraphql.Prelude.{ℕ, ◌≡◌, ◌⊎◌, refl, lookup, some, nat_eq, Option-cases, inl, inr}
use rgraphql.Client.QueryNode.{QtNode}
use rgraphql.Client.QueryTree.{QueryTree, Out, done, nil_read, spent, M, ◌>>=◌, load}

-- The operation returns, and P holds of its result and the tree.
abbrev pub Ensures : {A : Type 0} → (A → QueryTree → Type 0) → Out A → Type 0
Ensures P (done a t) = P a t
Ensures P nil_read = ⊥
Ensures P spent = ⊥

pub Ensures-bind :
    {A B : Type 0} (P : A → QueryTree → Type 0) (Q : B → QueryTree → Type 0) (m : M A) (f : A → M B)
    (t : QueryTree)
    → Ensures P (m t)
    → ((a : A) (t' : QueryTree) → P a t' → Ensures Q (f a t'))
    → Ensures Q ((m >>= f) t)
Ensures-bind P Q m f t h k = after (m t) h
  where
    after :
        (o : Out _)
        → Ensures P o
        → Ensures Q (elim o [ done a t' ↦ f a t' | nil_read ↦ nil_read | spent ↦ spent ])
    after (done a t') h = k a t' h
    after nil_read h = h
    after spent h = h

pub Ensures-map :
    {A : Type 0} (P Q : A → QueryTree → Type 0) (o : Out A)
    → Ensures P o
    → ((a : A) (t' : QueryTree) → P a t' → Q a t')
    → Ensures Q o
Ensures-map P Q (done a t) h k = k a t h
Ensures-map P Q nil_read h k = h
Ensures-map P Q spent h k = h

-- What an operation that ensures P returns.
pub Ensures-returns :
    {A : Type 0} (P : A → QueryTree → Type 0) (o : Out A)
    → Ensures P o
    → (a : A) × (t : QueryTree) × (o ≡ done a t) × P a t
Ensures-returns P (done a t) h = (a, t, refl, h)
Ensures-returns P nil_read h = absurd h
Ensures-returns P spent h = absurd h

-- A read through a pointer into the heap.
pub Ensures-load :
    {B : Type 0} (Q : B → QueryTree → Type 0) (a : ℕ) (n : QtNode) (f : QtNode → M B)
    (t : QueryTree)
    → lookup a t.nodes ≡ some n
    → Ensures Q (f n t)
    → Ensures Q ((load a >>= f) t)
Ensures-load Q a n f t at h = rw (at, load, ◌>>=◌) h

-- The operation has fuel enough, and P holds of the result and the tree where it returns.
abbrev pub Leaves : {A : Type 0} → (A → QueryTree → Type 0) → Out A → Type 0
Leaves P (done a t) = P a t
Leaves P nil_read = Unit
Leaves P spent = ⊥

pub Leaves-bind :
    {A B : Type 0} (P : A → QueryTree → Type 0) (Q : B → QueryTree → Type 0) (m : M A) (f : A → M B)
    (t : QueryTree)
    → Leaves P (m t)
    → ((a : A) (t' : QueryTree) → P a t' → Leaves Q (f a t'))
    → Leaves Q ((m >>= f) t)
Leaves-bind P Q m f t h k = after (m t) h
  where
    after :
        (o : Out _)
        → Leaves P o
        → Leaves Q (elim o [ done a t' ↦ f a t' | nil_read ↦ nil_read | spent ↦ spent ])
    after (done a t') h = k a t' h
    after nil_read h = tt
    after spent h = h

pub Leaves-load :
    {B : Type 0} (Q : B → QueryTree → Type 0) (a : ℕ) (f : QtNode → M B) (t : QueryTree)
    → ((n : QtNode) → lookup a t.nodes ≡ some n → Leaves Q (f n t))
    → Leaves Q ((load a >>= f) t)
Leaves-load Q a f t h = elim (Option-cases (lookup a t.nodes)) [
  | inl e ↦ rw (e, load, ◌>>=◌) tt
  | inr (n, e) ↦ rw (e, load, ◌>>=◌) (h n e)
]

pub Leaves-map :
    {A : Type 0} (P Q : A → QueryTree → Type 0) (o : Out A)
    → Leaves P o
    → ((a : A) (t' : QueryTree) → P a t' → Q a t')
    → Leaves Q o
Leaves-map P Q (done a t) h k = k a t h
Leaves-map P Q nil_read h k = tt
Leaves-map P Q spent h k = h

-- What is ensured is left.
pub Ensures-Leaves :
    {A : Type 0} (P : A → QueryTree → Type 0) (o : Out A) → Ensures P o → Leaves P o
Ensures-Leaves P (done a t) h = h
Ensures-Leaves P nil_read h = tt
Ensures-Leaves P spent h = h

-- What an operation that leaves P returns, unless it reads through nil.
pub Leaves-returns :
    {A : Type 0} (P : A → QueryTree → Type 0) (o : Out A)
    → Leaves P o
    → (o ≡ nil_read) ⊎ ((a : A) × (t : QueryTree) × (o ≡ done a t) × P a t)
Leaves-returns P (done a t) h = inr (a, t, refl, h)
Leaves-returns P nil_read h = inl refl
Leaves-returns P spent h = absurd h
