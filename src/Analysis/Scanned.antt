-- ===== src/Analysis/Scanned.antt =====
-- How `buildFuncResolver` uses each parameter of a method, and the call that is generated.
use rgraphql.Prelude.{
  ℕ, suc, string_eq, ◌+◌, some, List, ◌++◌, ◌≡◌, ◌⊎◌, nat_eq, ltb, get_elem?, ◌==◌, if◌then◌else◌,
}
use rgraphql.Analysis.{
  Func, StructField, Program, FuncResolver, Checked, ok, refused, faulted, GoType, ChanDir,
}
use rgraphql.Analysis.Args.{args_struct}
use rgraphql.Analysis.Params.{FuncResolverArg, at_position, ArgRef}

-- Whether a position that counts from 1 is that of the parameter `k`.
abbrev hit : ℕ → ℕ → ℕ
hit position k = if position == suc k then 1 else 0

abbrev hits : FuncResolver → ℕ → ℕ
hits r k = hit r.output_chan_arg k + hit r.context_arg k + hit r.args_arg k

-- Each of the first `n` parameters has one use, and the others have none.
abbrev Used : ℕ → FuncResolver → Type 0
Used n r = (k : ℕ) → hits r k ≡ (if ltb k n then 1 else 0)

-- Which type a parameter has that each variable is passed for.
abbrev pub Suits : Program → ArgRef → ℕ → Type 0
Suits p ArgRef.out_ch ty = (elem : ℕ) × (p.go ty ≡ GoType.chan ChanDir.send_only elem)
Suits p ArgRef.ctx ty =
    (methods : List Func) × (p.go ty ≡ GoType.named (some "context") "Context" methods)
Suits p ArgRef.args ty = (fields : List StructField) × ((args_struct p ty).1 ≡ some fields)

-- One of the three positions is set, where none was, by a parameter of the type that it is for.
abbrev Takes : Program → ℕ → ℕ → FuncResolver → FuncResolver → Type 0
Takes p ty i r r' =
    ((r.output_chan_arg ≡ 0)
      × (r'.output_chan_arg ≡ i + 1)
      × (r'.context_arg ≡ r.context_arg)
      × (r'.args_arg ≡ r.args_arg)
      × Suits p ArgRef.out_ch ty)
    ⊎ (((r.context_arg ≡ 0)
          × (r'.output_chan_arg ≡ r.output_chan_arg)
          × (r'.context_arg ≡ i + 1)
          × (r'.args_arg ≡ r.args_arg)
          × Suits p ArgRef.ctx ty)
        ⊎ ((r.args_arg ≡ 0)
            × (r'.output_chan_arg ≡ r.output_chan_arg)
            × (r'.context_arg ≡ r.context_arg)
            × (r'.args_arg ≡ i + 1)
            × Suits p ArgRef.args ty))

-- The position of each variable.
abbrev position_of : ArgRef → FuncResolver → ℕ
position_of ArgRef.out_ch r = r.output_chan_arg
position_of ArgRef.ctx r = r.context_arg
position_of ArgRef.args r = r.args_arg

-- Each position that is set is that of a parameter which suits the variable.
abbrev Typed : Program → List ℕ → FuncResolver → Type 0
Typed p all r =
    (v : ArgRef) (k : ℕ)
    → position_of v r ≡ suc k
    → (ty : ℕ) × (get_elem? all k ≡ some ty) × Suits p v ty

-- What a check that succeeds has found.
abbrev IfOk : {A : Type 0} → (A → Type 0) → Checked A → Type 0
IfOk P (ok a) = P a
IfOk P (refused e) = Unit
IfOk P faulted = Unit

module _ (p : Program) where
  -- What the rounds before the parameter `i` have found, in `all`.
  abbrev Found : List ℕ → ℕ → FuncResolver → Type 0
  Found all i r = Used i r × Typed p all r

-- What `generateFuncParams` sorts.
abbrev arguments_of : FuncResolver → List FuncResolverArg
arguments_of r =
    at_position r.output_chan_arg ArgRef.out_ch
    ++ (at_position r.context_arg ArgRef.ctx ++ at_position r.args_arg ArgRef.args)
