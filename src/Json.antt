-- ===== src/Json.antt =====
-- The values that `json.dumps` writes and `json.loads` reads: the payloads of the wire and the two
-- JSON columns of the store. A column is modelled by the value that its text stands for.
pub mod Int
use factoryfleet.Base.{
  ℕ, ◌≡◌, refl, Bool, String, Option, none, some, arith, str_eq, eq_iff, if◌then◌else◌,
}

-- `negsuc n` is -(n + 1).
pub data ℤ : Type 0 where
  pos negsuc : ℕ → ℤ

-- A double: `finite m e` is m * 2 ^ e.
pub data Float : Type 0 where
  finite : ℤ → ℤ → Float
  nan infinity minus_infinity : Float

pub data Number : Type 0 where
  int : ℤ → Number
  float : Float → Number

mutual
  pub data Json : Type 0 where
    null : Json
    bool : Bool → Json
    num : Number → Json
    str : String → Json
    array : Items → Json
    object : Fields → Json

  pub data Items : Type 0 where
    nil : Items
    cons : Json → Items → Items

  pub data Fields : Type 0 where
    end : Fields
    field : String → Json → Fields → Fields

unfoldable pub lookup : String → Fields → Option Json
lookup k end = none
lookup k (field j v fs) = if str_eq j k then some v else lookup k fs

-- `{**d, k: v}`: a key that is there keeps its place.
unfoldable pub put : String → Json → Fields → Fields
put k v end = field k v end
put k v (field j w fs) = if str_eq j k then field j v fs else field j w (put k v fs)

pub lookup-put :
    (k j : String) (v : Json) (fs : Fields)
    → lookup j (put k v fs) ≡ (if str_eq k j then some v else lookup j fs)
unfolding lookup put
lookup-put k j v end = refl
lookup-put k j v (field i w fs) =
    ground (arith, eq_iff k j, eq_iff i k, eq_iff i j, lookup-put k j v fs)
