-- ===== src/Value.antt =====
-- The values of `metadata: dict[str, Any]`, of parsed YAML and of JSON payloads.
use foundation_ai_platform.Prelude.{
  ℕ, String, Bool, true, false, not, Option, none, some, [], ◌∷◌, truthy, nat_eq,
}
use foundation_ai_platform.Prelude.Int.{ℤ, pos, negsuc}
use foundation_ai_platform.Prelude.Dict.{Dict}

mutual
  pub data Value : Type 0 where
    null : Value
    bool : Bool → Value
    int : ℤ → Value
    -- a float that was rounded to two decimals, in hundredths
    hundredths : ℕ → Value
    text : String → Value
    items : Values → Value
    table : Fields → Value

  pub data Values : Type 0 where
    nil : Values
    cons : Value → Values → Values

  pub data Fields : Type 0 where
    end : Fields
    field : String → Value → Fields → Fields

-- `if v:`
abbrev pub truth : Value → Bool
truth null = false
truth (bool b) = b
truth (int (pos n)) = not (nat_eq n 0)
truth (int (negsuc n)) = true
truth (hundredths n) = not (nat_eq n 0)
truth (text s) = truthy s
truth (items nil) = false
truth (items (cons v vs)) = true
truth (table end) = false
truth (table (field k v fs)) = true

-- `if v:` of what `d.get(k)` returned.
abbrev pub truth? : Option Value → Bool
truth? none = false
truth? (some v) = truth v

abbrev pub Metadata : Type 0
Metadata = Dict Value

-- A table as a dict.
abbrev pub entries : Fields → Metadata
entries end = []
entries (field k v fs) = (k, v) ∷ entries fs
