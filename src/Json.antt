-- ===== src/Json.antt =====
-- `serde_json::Value` as the program builds it with `json!`; the fields are in the order of the source.
use rail2ban.Prelude.{ℕ, Bool, Option, none, some, List, [], ◌∷◌, Str}
use rail2ban.Prelude.Int.{ℤ, pos}

mutual
  pub data Json : Type 0 where
    null : Json
    bool : Bool → Json
    num : ℤ → Json
    text : Str → Json
    arr : Items → Json
    obj : Fields → Json

  pub data Items : Type 0 where
    nil : Items
    cons : Json → Items → Items

  pub data Fields : Type 0 where
    end : Fields
    field : Str → Json → Fields → Fields

abbrev items : List Json → Items
items [] = nil
items (x ∷ xs) = cons x (items xs)

abbrev fields : List (Str × Json) → Fields
fields [] = end
fields ((k, x) ∷ xs) = field k x (fields xs)

abbrev pub array : List Json → Json
array xs = arr (items xs)

abbrev pub object : List (Str × Json) → Json
object xs = obj (fields xs)

abbrev pub texts : List Str → Json
texts ss = array (go ss)
  where
    go : List Str → List Json
    go [] = []
    go (s ∷ rest) = text s ∷ go rest

-- An unsigned number.
abbrev pub count : ℕ → Json
count n = num (pos n)

abbrev pub or_null : Option ℤ → Json
or_null none = null
or_null (some n) = num n
