-- ===== src/Common/Value.antt =====
-- The values that a saga's context holds: Python's None, numbers, texts, lists and dicts. The
-- lists are declared beside the type, and a dict keeps the order of its keys.
use taskforge_platform.Common.{
  ℕ, Bool, true, false, not, String, ◌≡◌, refl, ap, Option, none, some, List, [], ◌∷◌, nat_beq,
  is_empty,
}
use taskforge_platform.Common.Dict.{Dict}

mutual
  pub data Value : Type 0 where
    null : Value
    truth : Bool → Value
    number : ℕ → Value
    str : String → Value
    items : Values → Value
    dict : Fields → Value

  pub data Values : Type 0 where
    nil : Values
    cons : Value → Values → Values

  pub data Fields : Type 0 where
    end : Fields
    field : String → Value → Fields → Fields

-- A dict as its entries, and back.
abbrev pub entries : Fields → Dict Value
entries end = []
entries (field k v fs) = (k, v) ∷ entries fs

abbrev pub fields : Dict Value → Fields
fields [] = end
fields ((k, v) ∷ d) = field k v (fields d)

pub entries-fields : (d : Dict Value) → entries (fields d) ≡ d
entries-fields [] = refl
entries-fields ((k, v) ∷ d) = ap (λ l. (k, v) ∷ l) (entries-fields d)

abbrev pub object : Dict Value → Value
object d = dict (fields d)

-- A text or None, and a list of texts.
abbrev pub optional : Option String → Value
optional none = null
optional (some s) = str s

abbrev pub texts_of : List String → Values
texts_of [] = nil
texts_of (s ∷ l) = cons (str s) (texts_of l)

-- `bool(v)`
abbrev pub truthy : Value → Bool
truthy null = false
truthy (truth b) = b
truthy (number n) = not (nat_beq n 0)
truthy (str s) = not (is_empty s)
truthy (items nil) = false
truthy (items (cons v vs)) = true
truthy (dict end) = false
truthy (dict (field k v fs)) = true
