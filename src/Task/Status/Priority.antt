-- ===== src/Task/Status/Priority.antt =====
-- `TaskPriority` of services/task_service/domain/value_objects.py.
use Prim.Native.Nat.{Ordering}
use Prim.Native.String.{compare}
use taskforge_platform.Common.{
  ℕ, String, Bool, true, false, not, ◌&&◌, ◌||◌, ◌≡◌, ◌↔◌, refl, Option, none, some, arith, ◌==◌,
  str_eq, Eq, eq_iff, ltb, if◌then◌else◌,
}

pub data TaskPriority : Type 0 where
  low medium high critical : TaskPriority

unfoldable pub value : TaskPriority → String
value low = "low"
value medium = "medium"
value high = "high"
value critical = "critical"

-- `TaskPriority(text)`
unfoldable pub parse : String → Option TaskPriority
parse s =
    if s == "low"
    then some low
    else if s == "medium"
    then some medium
    else if s == "high"
    then some high
    else if s == "critical"
    then some critical
    else none

abbrev pub priority_beq : TaskPriority → TaskPriority → Bool
priority_beq low low = true
priority_beq medium medium = true
priority_beq high high = true
priority_beq critical critical = true
priority_beq p q = false

pub priority_beq_iff : (p q : TaskPriority) → (priority_beq p q ≡ true) ↔ (p ≡ q)
priority_beq_iff p q = ground arith

instance abbrev pub priority_eq : Eq TaskPriority
priority_eq = record { same = priority_beq; same_iff = priority_beq_iff }

unfoldable pub numeric_value : TaskPriority → ℕ
numeric_value low = 0
numeric_value medium = 1
numeric_value high = 2
numeric_value critical = 3

-- `__lt__`
unfoldable pub less : TaskPriority → TaskPriority → Bool
unfolding numeric_value
less p q = ltb (numeric_value p) (numeric_value q)

-- `__gt__`
unfoldable pub greater : TaskPriority → TaskPriority → Bool
unfolding numeric_value
greater p q = ltb (numeric_value q) (numeric_value p)

-- `__le__`, which the class does not define and inherits from `str`.
unfoldable pub inherited_le : TaskPriority → TaskPriority → Bool
unfolding value
inherited_le p q = elim (compare (value p) (value q)) [ Ordering.gt ↦ false | _ ↦ true ]

parse-value : (p : TaskPriority) → parse (value p) ≡ some p
unfolding parse value
parse-value low = refl
parse-value medium = refl
parse-value high = refl
parse-value critical = refl

parse_inv : (p : TaskPriority) (t : String) → parse t ≡ some p → t ≡ value p
unfolding parse value
parse_inv low t h = ground (arith, eq_iff t "low")
parse_inv medium t h = ground (arith, eq_iff t "medium")
parse_inv high t h = ground (arith, eq_iff t "high")
parse_inv critical t h = ground (arith, eq_iff t "critical")

-- For every member and every text, `TaskPriority(text)` is that member exactly when the text is
-- the member's value.
pub parse-value_iff : (p : TaskPriority) (t : String) → (parse t ≡ some p) ↔ (t ≡ value p)
parse-value_iff p t = (parse_inv p t, λ e. rw e (parse-value p))

-- Of two priorities exactly one of "less", "greater" and "the same" holds, and "less" is
-- transitive.
pub less_order :
    (p q r : TaskPriority)
    → ((p == q) ≡ not (less p q || greater p q))
      × ((less p q && greater p q) ≡ false)
      × (less p q ≡ true → less q r ≡ true → less p r ≡ true)
unfolding less greater
less_order p q r = ground arith
