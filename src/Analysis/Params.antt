-- ===== src/Analysis/Params.antt =====
-- analysis/resolve-func-args.go: the arguments of the call that is generated for a method.
use rgraphql.Prelude.{
  Bool, true, false, ◌&&◌, ap, ◌∙◌, ℕ, zero, suc, string_eq, ◌+◌, ◌<◌, ◌≤◌, some, List, [], ◌∷◌,
  ◌++◌, ◌≡◌, refl, arith, nat_eq, nat_beq_iff, ltb, get_elem?, length, Bool-cases, inl, inr, ◌==◌,
  if◌then◌else◌,
}
use rgraphql.Analysis.{FuncResolver}

-- The names of the variables that are passed.
pub data ArgRef : Type 0 where
  out_ch ctx args : ArgRef

-- `funcResolverArg`
pub record FuncResolverArg : Type 0 where
  pub index : ℕ
  pub value : ArgRef

-- An argument whose position is set; the positions count from 1.
abbrev pub at_position : ℕ → ArgRef → List FuncResolverArg
at_position zero value = []
at_position (suc i) value = record { index = i; value = value } ∷ []

-- `generateFuncParams`, over `sort.Sort`
unfoldable pub generate_func_params :
    (List FuncResolverArg → List FuncResolverArg) → FuncResolver → List FuncResolverArg
generate_func_params sort r = sort (
    at_position r.output_chan_arg ArgRef.out_ch
    ++ (at_position r.context_arg ArgRef.ctx ++ at_position r.args_arg ArgRef.args))

-- How often the position is that of an argument.
abbrev pub times : ℕ → List FuncResolverArg → ℕ
times k [] = 0
times k (a ∷ more) = if a.index == k then suc (times k more) else times k more

abbrev pub Ascending : List FuncResolverArg → Type 0
Ascending [] = Unit
Ascending (a ∷ []) = Unit
Ascending (a ∷ b ∷ more) = (a.index ≤ b.index) × Ascending (b ∷ more)

abbrev pub ref_eq : ArgRef → ArgRef → Bool
ref_eq ArgRef.out_ch ArgRef.out_ch = true
ref_eq ArgRef.ctx ArgRef.ctx = true
ref_eq ArgRef.args ArgRef.args = true
ref_eq _ _ = false

-- Whether two arguments are the same.
abbrev pub arg_eq : FuncResolverArg → FuncResolverArg → Bool
arg_eq a b = (a.index == b.index) && ref_eq a.value b.value

-- How many arguments pass a test.
abbrev pub count : (FuncResolverArg → Bool) → List FuncResolverArg → ℕ
count test [] = 0
count test (a ∷ more) = if test a then suc (count test more) else count test more

pub times-count : (k : ℕ) (xs : List FuncResolverArg) → times k xs ≡ count (λ a. a.index == k) xs
times-count k [] = refl
times-count k (a ∷ more) = ground (arith, times-count k more)

-- What is found in a list is counted there.
pub count-get_elem? :
    (test : FuncResolverArg → Bool) (xs : List FuncResolverArg) (i : ℕ) (a : FuncResolverArg)
    → get_elem? xs i ≡ some a
    → test a ≡ true
    → 0 < count test xs
count-get_elem? test [] i a h e = absurd (ground arith)
count-get_elem? test (b ∷ more) zero a h e =
    let same : b ≡ a = ground arith in
    let yes : test b ≡ true = ap test same ∙ e in ground (arith, yes)
count-get_elem? test (b ∷ more) (suc i) a h e = ground (arith, count-get_elem? test more i a h e)

pub count-append :
    (test : FuncResolverArg → Bool) (xs ys : List FuncResolverArg)
    → count test (xs ++ ys) ≡ count test xs + count test ys
count-append test [] ys = omega arith
count-append test (x ∷ xs) ys = ground (arith, count-append test xs ys)

pub arg_eq_refl : (a : FuncResolverArg) → arg_eq a a ≡ true
arg_eq_refl a = ground (arith, nat_beq_iff a.index a.index)

-- A list is put into the order of `Less`, and nothing is lost, added or changed.
pub record IsSort (sort : List FuncResolverArg → List FuncResolverArg) : Type 0 where
  pub ordered : (xs : List FuncResolverArg) → Ascending (sort xs)
  pub kept :
      (test : FuncResolverArg → Bool) (xs : List FuncResolverArg)
      → count test (sort xs) ≡ count test xs

none_before :
    (k : ℕ) (a : FuncResolverArg) (more : List FuncResolverArg)
    → k < a.index
    → Ascending (a ∷ more)
    → times k more ≡ 0
none_before k a [] lt h = refl
none_before k a (b ∷ more) lt h =
    let le = h.0 in
    let rest = none_before k b more (omega (arith, lt, le)) h.1 in
    ground (arith, rest, nat_beq_iff b.index k)

-- Each position of a range is taken once, and no other.
abbrev pub Covers : ℕ → ℕ → List FuncResolverArg → Type 0
Covers lo n xs = (k : ℕ) → times k xs ≡ (if ltb k lo then 0 else if ltb k (lo + n) then 1 else 0)

first_position :
    (lo n : ℕ) (a : FuncResolverArg) (more : List FuncResolverArg)
    → Ascending (a ∷ more)
    → Covers lo n (a ∷ more)
    → (a.index ≡ lo) × (0 < n)
first_position lo n a more h c =
    let here = c a.index in
    let low = c lo in
    elim (Bool-cases (ltb lo a.index)) [
      | inr e ↦ (
        ground (arith, here, nat_beq_iff a.index a.index),
        ground (arith, here, nat_beq_iff a.index a.index),
      )
      | inl e ↦
          let gone = none_before lo a more (ground (arith)) h in
          absurd
            (ground (arith, low, here, gone, nat_beq_iff a.index a.index, nat_beq_iff a.index lo))
    ]

Ascending-tail :
    (a : FuncResolverArg) (more : List FuncResolverArg) → Ascending (a ∷ more) → Ascending more
Ascending-tail a [] h = tt
Ascending-tail a (b ∷ more) h = h.1

pub in_order :
    (lo n : ℕ) (xs : List FuncResolverArg)
    → Ascending xs
    → Covers lo n xs
    → (length xs ≡ n) × ((i : ℕ) (a : FuncResolverArg) → get_elem? xs i ≡ some a → a.index ≡ lo + i)
in_order lo n [] h c = (let low = c lo in ground (arith, low), λ i a e. absurd (ground (arith)))
in_order lo zero (a ∷ more) h c =
    let (same, some_left) = first_position lo zero a more h c in absurd (omega (arith, some_left))
in_order lo (suc n) (a ∷ more) h c =
    let (same, some_left) = first_position lo (suc n) a more h c in
    let (count, places) =
      in_order (lo + 1) n more (Ascending-tail a more h)
        (λ k. let here = c k in ground (arith, here, same, nat_beq_iff a.index k)) in
    (omega (arith, count), λ i b e. place i b e same places)
  where
    place :
        (i : ℕ) (b : FuncResolverArg)
        → get_elem? (a ∷ more) i ≡ some b
        → a.index ≡ lo
        → ((j : ℕ) (d : FuncResolverArg) → get_elem? more j ≡ some d → d.index ≡ lo + 1 + j)
        → b.index ≡ lo + i
    place zero b e same places = ground (arith, e, same)
    place (suc i) b e same places = let at = places i b e in omega (arith, at)
