-- ===== src/Analysis/Words.antt =====
-- util/case.go, the names of Go methods and fields that analysis/ looks for.
use Prim.Native.Char.{Char, code}
use rgraphql.Prelude.{Bool, true, false, ◌||◌, String, nat_eq, ◌==◌, if◌then◌else◌}

-- The loop of `ToPascalCase`, where `first` is `i == 0`.
unfoldable pub pascal_loop : (Char → Char) → Bool → Bool → String → String
pascal_loop upper next_upper first String.[] = String.[]
pascal_loop upper next_upper first (String.◌∷◌ r title) =
    let skipped = pascal_loop upper true false title in
    let kept = pascal_loop upper false false title in
    if (code r == b'_') || (code r == b' ')
    then skipped
    else (if first || next_upper then String.◌∷◌ (upper r) kept else String.◌∷◌ r kept)

-- `ToPascalCase`
unfoldable pub to_pascal_case : (Char → Char) → String → String
to_pascal_case upper title = pascal_loop upper false true title
