-- ===== src/Client/QueryTree/Entering.antt =====
-- A new child, allocated and entered while a query is visited.

use rgraphql.Prelude.{
  ℕ, ◌+◌, ◌<◌, Bool, true, String, Option, none, some, List, [], ◌∷◌, ◌++◌, ◌≡◌, ◌⊎◌, refl, sym, ap,
  ◌∙◌, arith, Map, lookup, insert, lookup-insert, IsMap, nat_eq, nat_beq_iff, Bool-cases,
  Option-cases, inl, inr, ◌==◌, if◌then◌else◌,
}
use rgraphql.Resolver.Observable.{count}
use rgraphql.Client.Arguments.{Args}
use rgraphql.Client.QueryNode.{ObjectDef, QtNode}
use rgraphql.Client.QueryTree.Resolve.{new_child}
use rgraphql.Client.QueryTree.Shape.{
  Nodes, Has, AllHas, AllHas-append, Kids, Shape, Has-insert, Kids-insert, Up-insert, insert-Shape,
}
use rgraphql.Client.QueryTree.After.{parent_of, Orderly}
use rgraphql.Client.QueryTree.Flag.{Fine, Orderly-OrderlyBut, OrderlyBut-Orderly}
use rgraphql.Client.QueryTree.Lowered.{Counts}
use rgraphql.Client.QueryTree.Valid.{total_of}
use rgraphql.Client.QueryTree.Visiting.{Visiting, AllHas-insert}
use rgraphql.Client.QueryTree.Linked.{Anchored, Anchored-keep, Anchored-enter, count-append}

-- An address that is free is in no list of nodes.
count-free : (m : Nodes) (a : ℕ) (xs : List ℕ) → lookup a m ≡ none → AllHas m xs → count a xs ≡ 0
count-free m a [] e h = refl
count-free m a (x ∷ xs) e h =
    let (y, at) = h.0 in ground (arith, count-free m a xs e h.1, nat_beq_iff x a)

total_of-free :
    (m : Nodes) (a : ℕ) (qs : Map ℕ (List ℕ))
    → lookup a m ≡ none
    → IsMap qs
    → ((p : ℕ) (ys : List ℕ) → lookup p qs ≡ some ys → AllHas m ys)
    → total_of qs a ≡ 0
unfolding lookup
total_of-free m a [] e u h = refl
total_of-free m a ((i, xs) ∷ qs) e u h =
    let first = count-free m a xs e (h i xs (ground (arith, nat_beq_iff i i))) in
    let rest =
      total_of-free m a qs e u.1 (λ p ys k. h p ys (ground (arith, nat_beq_iff i p, u.0, k))) in
    omega (arith, first, rest)

Shape-next : (next : ℕ) (m : Nodes) → Shape next m → Shape (next + 1) m
Shape-next next m s a n at = record {
  kids = (s a n at).kids;
  up = (s a n at).up;
  used = omega (arith, (s a n at).used);
}

Kids-append :
    (m : Nodes) (a c : ℕ) (xs : List ℕ) → Kids m a xs → a < c → Has m c → Kids m a (xs ++ c ∷ [])
Kids-append m a c [] h lt has = (lt, has, tt)
Kids-append m a c (x ∷ xs) h lt has = (h.0, h.1, Kids-append m a c xs h.2 lt has)

module _ (qs : Map ℕ (List ℕ)) (xs : List ℕ) (root next : ℕ) (m : Nodes) (q : ℕ) (n : QtNode)
    (id : ℕ) (name : String) (def : Option ObjectDef) (args : Option Args)
    (v : Visiting qs xs (some q) root next m) (at : lookup q m ≡ some n) where
  abbrev unentered : QtNode
  unentered = new_child id q name def args

  abbrev entered_child : QtNode
  entered_child = record unentered { ref_count = 1 }

  abbrev longer : QtNode
  longer = record n { children = n.children ++ next ∷ [] }

  -- The heap with the child, and with the child entered.
  abbrev pub grown : Nodes
  grown = insert q longer (insert next unentered m)

  abbrev pub grown_entered : Nodes
  grown_entered = insert next entered_child grown

  free : lookup next m ≡ none
  free = elim (Option-cases (lookup next m)) [
    | inl e ↦ e
    | inr (y, e) ↦ absurd (omega (arith, (v.shape next y e).used))
  ]

  below : q < next
  below = (v.shape q n at).used

  -- What is read from the heap.
  read :
      (b : ℕ)
      → lookup b grown_entered
        ≡ (if next == b then some entered_child else (if q == b then some longer else lookup b m))
  read b = ground (
    arith,
    lookup-insert next b entered_child grown,
    lookup-insert q b longer (insert next unentered m),
    lookup-insert next b unentered m,
  )

  Has-grown : (b : ℕ) → Has m b → Has grown_entered b
  Has-grown b h =
      Has-insert grown next b entered_child
        (Has-insert (insert next unentered m) q b longer (Has-insert m next b unentered h))

  AllHas-grown : (ys : List ℕ) → AllHas m ys → AllHas grown_entered ys
  AllHas-grown ys h =
      AllHas-insert grown next entered_child ys
        (AllHas-insert (insert next unentered m) q longer ys (AllHas-insert m next unentered ys h))

  grown-Shape : Shape (next + 1) grown_entered
  grown-Shape =
      let lt = below in
      let s1 : Shape (next + 1) (insert next unentered m) =
        insert-Shape m (next + 1) next unentered (Shape-next next m v.shape)
          (record { kids = tt; up = (below, (n, at)); used = omega arith }) in
      let s2 : Shape (next + 1) grown =
        insert-Shape (insert next unentered m) (next + 1) q longer s1 (record {
          kids =
              Kids-append (insert next unentered m) q next n.children
                (Kids-insert m next q unentered n.children (v.shape q n at).kids) below
                (
                  unentered,
                  ground (arith, lookup-insert next next unentered m, nat_beq_iff next next),
                );
          up = Up-insert m next q unentered n.parent (v.shape q n at).up;
          used = omega (arith, lt);
        }) in
      insert-Shape grown (next + 1) next entered_child s2 (record {
        kids = tt;
        up = (
          below,
          Has-insert (insert next unentered m) q q longer (Has-insert m next q unentered (n, at)),
        );
        used = omega arith;
      })

  grown-Counts : Counts (λ b. count b (xs ++ next ∷ []) + total_of qs b) grown_entered
  grown-Counts b y p = elim (Bool-cases (next == b)) [
    | inl e ↦
        let same : next ≡ b = (nat_beq_iff next b).0 e in
        let one = count-free m next xs free v.entered in
        let two = total_of-free m next qs free v.unique v.held in
        ground (arith, read b, count-append b xs (next ∷ []), nat_beq_iff next next)
    | inr e ↦ elim (Bool-cases (q == b)) [
      | inl f ↦
          let same : q ≡ b = (nat_beq_iff q b).0 f in
          ground (arith, read b, count-append b xs (next ∷ []), v.counts q n at)
      | inr f ↦ ground (arith, read b, count-append b xs (next ∷ []), v.counts b y)
    ]
  ]

  -- A child that was in order is in order still.
  still :
      (b c : ℕ) (g : Bool)
      → (parent_of m c ≡ some b) × ((g ≡ true) ⊎ (⊥ ⊎ Fine m c))
      → (parent_of grown_entered c ≡ some b) × ((g ≡ true) ⊎ (⊥ ⊎ Fine grown_entered c))
  still b c g (up, good) = (
    ground (arith, up, at, free, read c, nat_beq_iff next c, nat_beq_iff q c),
    elim good [
      | inl h ↦ inl h
      | inr (inl h) ↦ absurd h
      | inr (inr h) ↦ inr (
          inr (
            ground (arith, h, at, free, read c, nat_beq_iff next c, nat_beq_iff q c),
            ground (arith, h, at, free, read c, nat_beq_iff next c, nat_beq_iff q c),
          ))
    ],
  )

  grown-Orderly : Orderly 0 grown_entered
  grown-Orderly = OrderlyBut-Orderly grown_entered λ b c y p k. elim (Bool-cases (next == b)) [
    | inl e ↦ absurd (k (ground (arith, read b)))
    | inr e ↦ elim (Bool-cases (q == b)) [
      | inr f ↦
          still b c y.gc_next
            (Orderly-OrderlyBut (λ d. ⊥) m v.orderly b c y (ground (arith, read b)) k)
      | inl f ↦
          let same : q ≡ b = (nat_beq_iff q b).0 f in
          let this : longer ≡ y = ground (arith, read b) in
          elim (Bool-cases (next == c)) [
            | inl g ↦ (
              ground (arith, same, read c, nat_beq_iff next c),
              inr (inr (ground (arith, read c), ground (arith, read c))),
            )
            | inr g ↦
                let old =
                  Orderly-OrderlyBut (λ d. ⊥) m v.orderly q c n at
                    (ground (arith, k, this, count-append c n.children (next ∷ []))) in
                let now = still q c n.gc_next old in
                (
                  now.0 ∙ ap some same,
                  elim now.1 [
                    | inl h ↦ inl (ap (λ (z : QtNode). z.gc_next) (sym this) ∙ h)
                    | inr h ↦ inr h
                  ],
                )
          ]
    ]
  ]

  grown-Anchored : Anchored qs (xs ++ next ∷ []) (some next) root grown_entered
  grown-Anchored =
      let kept : Anchored qs xs (some q) root grown_entered =
        Anchored-keep qs xs (some q) root m (λ d. Unit) grown_entered (λ d held. tt)
          (λ p ys d e held. tt)
          (let (r, top) = v.root_in in
            ground (
              arith,
              v.anchored.crown,
              top,
              at,
              free,
              read root,
              nat_beq_iff next root,
              nat_beq_iff q root,
            ))
          (λ d p any up among. (
            ground (arith, up, at, free, read d, nat_beq_iff next d, nat_beq_iff q d),
            λ zero. among (
                ground (
                  arith,
                  zero,
                  at,
                  free,
                  read p,
                  nat_beq_iff next p,
                  nat_beq_iff q p,
                  count-append d n.children (next ∷ []),
                )),
          ))
          v.anchored in
      Anchored-enter qs xs (some q) root grown_entered q next refl
        (ground (arith, read next, nat_beq_iff next next))
        (let lt = below in
          λ zero. ground (
            arith,
            zero,
            lt,
            read q,
            nat_beq_iff next q,
            nat_beq_iff q q,
            nat_beq_iff next next,
            count-append next n.children (next ∷ []),
          ))
        kept

  pub grown-Visiting : Visiting qs (xs ++ next ∷ []) (some next) root (next + 1) grown_entered
  grown-Visiting = record {
    anchored = grown-Anchored;
    shape = grown-Shape;
    root_in = Has-grown root v.root_in;
    counts = grown-Counts;
    entered =
        AllHas-append grown_entered xs (next ∷ []) (AllHas-grown xs v.entered)
          ((entered_child, ground (arith, read next, nat_beq_iff next next)), tt);
    held = λ p ys e. AllHas-grown ys (v.held p ys e);
    unique = v.unique;
    orderly = grown-Orderly;
    idle =
        let (r, top) = v.root_in in
        ground (arith, v.idle, top, at, free, read root, nat_beq_iff next root, nat_beq_iff q root);
    current = (entered_child, ground (arith, read next, nat_beq_iff next next));
  }
