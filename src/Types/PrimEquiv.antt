-- ===== src/Types/PrimEquiv.antt =====
-- types/primitive_equiv.go

use rgraphql.Prelude.{
  nat_beq_iff, ◌≡◌, refl, ◌↔◌, arith, eq_iff, String, ℕ, ◌%◌, ◌/◌, ◌^◌, Bool, true, false, not,
  ◌&&◌, ◌||◌, Option, none, some, ◌==◌, string_eq, nat_eq, beq_refl,
}
use rgraphql.Types.Primitive.{ℤ, Kind, Primitive}

abbrev int_eq : ℤ → ℤ → Bool
int_eq (ℤ.pos a) (ℤ.pos b) = a == b
int_eq (ℤ.negsuc a) (ℤ.negsuc b) = a == b
int_eq _ _ = false

abbrev bool_eq : Bool → Bool → Bool
bool_eq true b = b
bool_eq false b = not b

abbrev kind_eq : Kind → Kind → Bool
kind_eq Kind.null Kind.null = true
kind_eq Kind.int Kind.int = true
kind_eq Kind.float Kind.float = true
kind_eq Kind.string Kind.string = true
kind_eq Kind.bool Kind.bool = true
kind_eq Kind.object Kind.object = true
kind_eq Kind.array Kind.array = true
kind_eq (Kind.other j) (Kind.other k) = j == k
kind_eq _ _ = false

-- The bits of a double below its sign, and whether they spell a NaN.
abbrev magnitude : ℕ → ℕ
magnitude x = x % 2 ^ 63

abbrev pub is_nan : ℕ → Bool
is_nan x = not (magnitude x == 0x7ff0000000000000) && magnitude x / 2 ^ 52 == 2047

-- `==` on float64: a NaN differs from everything, and the two zeros are equal.
unfoldable pub float_eq : ℕ → ℕ → Bool
float_eq x y =
    not (is_nan x) && not (is_nan y) && (x == y || (magnitude x == 0 && magnitude y == 0))

-- The `switch` on the kind that the two primitives share.
same_payload : Kind → Primitive → Primitive → Bool
unfolding float_eq
same_payload Kind.bool a b = bool_eq a.bool_value b.bool_value
same_payload Kind.float a b = float_eq a.float_value b.float_value
same_payload Kind.int a b = int_eq a.int_value b.int_value
same_payload Kind.string a b = a.string_value == b.string_value
same_payload _ a b = true

-- `IsPrimEquiv`. The first argument says whether the two pointers are one.
unfoldable pub is_prim_equiv : Bool → Option Primitive → Option Primitive → Bool
unfolding same_payload
is_prim_equiv same none none = true
is_prim_equiv same none (some b) = false
is_prim_equiv same (some a) none = false
is_prim_equiv same (some a) (some b) = same || (kind_eq a.kind b.kind && same_payload a.kind a b)

-- A primitive that is comparable with itself by value: every kind but a float holding a NaN.
abbrev pub is_nan_primitive : Primitive → Bool
is_nan_primitive a = kind_eq a.kind Kind.float && is_nan a.float_value

kind_eq_iff : (a b : Kind) → (kind_eq a b ≡ true) ↔ (a ≡ b)
kind_eq_iff (Kind.other j) (Kind.other k) = ground (arith, nat_beq_iff j k)
kind_eq_iff a b = ground arith

bool_eq_iff : (a b : Bool) → (bool_eq a b ≡ true) ↔ (a ≡ b)
bool_eq_iff a b = ground arith

int_eq_iff : (a b : ℤ) → (int_eq a b ≡ true) ↔ (a ≡ b)
int_eq_iff a b = ground arith

float_eq_comm : (x y : ℕ) → float_eq x y ≡ float_eq y x
unfolding float_eq
float_eq_comm x y = ground arith

float_eq_trans : (x y z : ℕ) → float_eq x y ≡ true → float_eq y z ≡ true → float_eq x z ≡ true
unfolding float_eq
float_eq_trans x y z p q = ground arith

float_eq_refl : (x : ℕ) → float_eq x x ≡ not (is_nan x)
unfolding float_eq
float_eq_refl x = ground arith

str_eq_comm : (s t : String) → (s == t) ≡ (t == s)
str_eq_comm s t = ground (arith, eq_iff s t, eq_iff t s)

str_eq_trans : (s t u : String) → (s == t) ≡ true → (t == u) ≡ true → (s == u) ≡ true
str_eq_trans s t u p q = ground (arith, eq_iff s t, eq_iff t u, eq_iff s u)

same_payload_comm : (k : Kind) (a b : Primitive) → same_payload k a b ≡ same_payload k b a
unfolding same_payload
same_payload_comm Kind.bool a b = ground arith
same_payload_comm Kind.float a b = float_eq_comm a.float_value b.float_value
same_payload_comm Kind.int a b = ground arith
same_payload_comm Kind.string a b = str_eq_comm a.string_value b.string_value
same_payload_comm _ a b = refl

same_payload_trans :
    (k : Kind) (a b c : Primitive)
    → same_payload k a b ≡ true
    → same_payload k b c ≡ true
    → same_payload k a c ≡ true
unfolding same_payload
same_payload_trans Kind.bool a b c p q = ground arith
same_payload_trans Kind.float a b c p q =
    float_eq_trans a.float_value b.float_value c.float_value p q
same_payload_trans Kind.int a b c p q = ground arith
same_payload_trans Kind.string a b c p q =
    str_eq_trans a.string_value b.string_value c.string_value p q
same_payload_trans _ a b c p q = refl

same_payload_refl :
    (k : Kind) (a : Primitive)
    → same_payload k a a ≡ not (kind_eq k Kind.float && is_nan a.float_value)
unfolding same_payload
same_payload_refl Kind.bool a = ground arith
same_payload_refl Kind.float a = float_eq_refl a.float_value
same_payload_refl Kind.int a = ground (arith, int_eq_iff a.int_value a.int_value)
same_payload_refl Kind.string a = beq_refl a.string_value
same_payload_refl _ a = refl

-- The comparison is symmetric, whether or not the two pointers are one.
is_prim_equiv_comm :
    (same : Bool) (a b : Option Primitive) → is_prim_equiv same a b ≡ is_prim_equiv same b a
unfolding is_prim_equiv
is_prim_equiv_comm same none none = refl
is_prim_equiv_comm same none (some b) = refl
is_prim_equiv_comm same (some a) none = refl
is_prim_equiv_comm same (some a) (some b) =
    ground
      (arith, kind_eq_iff a.kind b.kind, kind_eq_iff b.kind a.kind, same_payload_comm a.kind a b)

-- By value the comparison is transitive.
is_prim_equiv_trans :
    (a b c : Option Primitive)
    → is_prim_equiv false a b ≡ true
    → is_prim_equiv false b c ≡ true
    → is_prim_equiv false a c ≡ true
unfolding is_prim_equiv
is_prim_equiv_trans none none c p q = q
is_prim_equiv_trans none (some b) c p q = absurd (ground arith)
is_prim_equiv_trans (some a) none c p q = absurd (ground arith)
is_prim_equiv_trans (some a) (some b) none p q = absurd (ground arith)
is_prim_equiv_trans (some a) (some b) (some c) p q = ground (
  arith,
  kind_eq_iff a.kind b.kind,
  kind_eq_iff b.kind c.kind,
  kind_eq_iff a.kind c.kind,
  same_payload_trans a.kind a b c,
)

-- By value a primitive is equivalent to itself, but for a float that holds a NaN.
is_prim_equiv_refl :
    (a : Primitive) → is_prim_equiv false (some a) (some a) ≡ not (is_nan_primitive a)
unfolding is_prim_equiv
is_prim_equiv_refl a = ground (arith, kind_eq_iff a.kind a.kind, same_payload_refl a.kind a)
