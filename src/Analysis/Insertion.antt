-- ===== src/Analysis/Insertion.antt =====
-- A sort of the arguments of a generated call, as an instance of the one that is a parameter.
use rgraphql.Prelude.{
  Bool, List, [], ◌∷◌, ◌≡◌, refl, arith, leb, Bool-cases, inl, inr, subst, if◌then◌else◌, nat_eq,
}
use rgraphql.Analysis.Params.{FuncResolverArg, count, Ascending, IsSort}

unfoldable pub insert_arg : FuncResolverArg → List FuncResolverArg → List FuncResolverArg
insert_arg a [] = a ∷ []
insert_arg a (b ∷ more) =
    let rest = insert_arg a more in if leb a.index b.index then a ∷ b ∷ more else b ∷ rest

unfoldable pub insertion_sort : List FuncResolverArg → List FuncResolverArg
insertion_sort [] = []
insertion_sort (a ∷ more) = insert_arg a (insertion_sort more)

count-insert_arg :
    (test : FuncResolverArg → Bool) (a : FuncResolverArg) (xs : List FuncResolverArg)
    → count test (insert_arg a xs) ≡ count test (a ∷ xs)
unfolding insert_arg
count-insert_arg test a [] = refl
count-insert_arg test a (b ∷ more) = let rest = count-insert_arg test a more in ground (arith, rest)

insert_arg-Ascending :
    (a : FuncResolverArg) (xs : List FuncResolverArg) → Ascending xs → Ascending (insert_arg a xs)
unfolding insert_arg
insert_arg-Ascending a [] h = tt
insert_arg-Ascending a (b ∷ []) h = elim (Bool-cases (leb a.index b.index)) [
  | inl e ↦ rw (e, insert_arg) (ground (arith), tt)
  | inr e ↦ rw (e, insert_arg) (ground (arith), tt)
]
insert_arg-Ascending a (b ∷ c ∷ more) h =
    let rest = insert_arg-Ascending a (c ∷ more) h.1 in
    elim (Bool-cases (leb a.index b.index)) [
      | inl e ↦ rw (e, insert_arg) (ground (arith), h)
      | inr e ↦ elim (Bool-cases (leb a.index c.index)) [
        | inl g ↦ rw (e, g, insert_arg) (ground (arith), (ground (arith), h.1))
        | inr g ↦
            let below : Ascending (c ∷ insert_arg a more) =
              subst (λ x. Ascending (if x then a ∷ c ∷ more else c ∷ insert_arg a more)) g rest in
            rw (e, g, insert_arg) (h.0, below)
      ]
    ]

insertion_sort-Ascending : (xs : List FuncResolverArg) → Ascending (insertion_sort xs)
unfolding insertion_sort
insertion_sort-Ascending [] = tt
insertion_sort-Ascending (a ∷ more) =
    insert_arg-Ascending a (insertion_sort more) (insertion_sort-Ascending more)

count-insertion_sort :
    (test : FuncResolverArg → Bool) (xs : List FuncResolverArg)
    → count test (insertion_sort xs) ≡ count test xs
unfolding insertion_sort
count-insertion_sort test [] = refl
count-insertion_sort test (a ∷ more) =
    let rest = count-insertion_sort test more in
    ground (arith, rest, count-insert_arg test a (insertion_sort more))

pub insertion_sort-IsSort : IsSort insertion_sort
insertion_sort-IsSort = record { ordered = insertion_sort-Ascending; kept = count-insertion_sort }
