-- ===== src/Cache.antt =====
-- The memory that a cached model needs (llm_platform/bootstrap.py). What the file system holds is
-- data. A size in bytes divided by 2 ** 30 is exact below 2 ** 53 bytes.
pub mod Estimates
use foundation_ai_platform.Prelude.{
  ℕ, ◌+◌, ◌-◌, ◌/◌, String, Bool, false, not, ◌&&◌, ◌==◌, Option, none, some, List, [], ◌∷◌,
  if◌then◌else◌, ltb, leb, nat_eq,
}
use foundation_ai_platform.Prelude.Int.{ℤ, pos, negsuc, ◌+ℤ◌, leb_ℤ}
use foundation_ai_platform.Prelude.Dict.{lookup}
use foundation_ai_platform.Prelude.Sorting.{sort}
use foundation_ai_platform.Prelude.Texts.{lower, has}
use foundation_ai_platform.Value.{Value, bool, int, hundredths, text, table, entries}

-- A snapshot directory: the parsed index files, `model.safetensors.index.json` first if it is
-- there, with none for one that cannot be read, and the sizes of the weight files.
pub record Snapshot : Type 0 where
  pub exact_index : Option (Option Value)
  pub other_indexes : List (Option Value)
  pub safetensors : List ℕ
  pub bins : List ℕ

-- An entry of the directory `snapshots`.
pub record Revision : Type 0 where
  pub name : String
  pub is_dir : Bool
  pub mtime : ℕ
  pub content : Snapshot

-- A model directory of the cache. The stripped text of `refs/main` if it is there, and the entries of
-- `snapshots` if that is a directory.
pub record ModelDir : Type 0 where
  pub name : String
  pub is_dir : Bool
  pub refs_main : Option String
  pub snapshots : Option (List Revision)

abbrev pub sizes : List (String × ℕ)
sizes =
    ("70b", 140)
    ∷ ("72b", 144)
    ∷ ("34b", 70)
    ∷ ("32b", 65)
    ∷ ("13b", 26)
    ∷ ("14b", 29)
    ∷ ("7b", 15)
    ∷ ("8b", 16)
    ∷ ("3b", 7)
    ∷ ("2.5b", 6)
    ∷ ("1.8b", 4)
    ∷ ("1.5b", 4)
    ∷ ("1.1b", 3)
    ∷ ("0.5b", 2)
    ∷ ("0.5", 2)
    ∷ []

pub first_size : String → List (String × ℕ) → ℕ
first_size name [] = 8
first_size name ((suffix, gb) ∷ more) =
    let rest = first_size name more in if has name suffix then gb else rest

unfoldable pub estimate_vram_gb_from_name : String → ℕ
unfolding first_size
estimate_vram_gb_from_name name = first_size (lower name) sizes

-- `candidate.is_dir()` of the revision that `refs/main` names.
named_revision : String → List Revision → Option Snapshot
named_revision commit [] = none
named_revision commit (r ∷ rs) =
    let rest = named_revision commit rs in
    if r.name == commit && r.is_dir then some r.content else rest

all_revisions : Option (List Revision) → List Revision
all_revisions none = []
all_revisions (some rs) = rs

first_revision : List Revision → Option Snapshot
first_revision [] = none
first_revision (r ∷ rs) = some r.content

or_latest : Option Snapshot → List Revision → Option Snapshot
unfolding first_revision
or_latest (some s) rs = some s
or_latest none rs = first_revision (sort (λ a b. leb b.mtime a.mtime) rs)

unfoldable pub active_snapshot : ModelDir → Option Snapshot
unfolding named_revision all_revisions or_latest
active_snapshot d =
    let rs = all_revisions d.snapshots in
    elim d.refs_main [
      | none ↦ or_latest none rs
      | some commit ↦ or_latest (named_revision commit rs) rs
    ]

abbrev pub gib : ℕ
gib = 1073741824

-- `math.ceil(total_bytes / (1024 ** 3))`
unfoldable pub ceil_gib : ℤ → ℤ
ceil_gib (pos n) = pos ((n + (gib - 1)) / gib)
ceil_gib (negsuc n) = if ltb (n + 1) gib then pos 0 else negsuc ((n + 1) / gib - 1)

-- Two gigabytes of overhead, and three at least.
unfoldable pub vram_of : ℤ → ℤ
unfolding ceil_gib
vram_of total = let vram = ceil_gib total +ℤ pos 2 in if leb_ℤ vram (pos 3) then pos 3 else vram

sum : List ℕ → ℕ
sum [] = 0
sum (n ∷ ns) = n + sum ns

abbrev is_zero : ℤ → Bool
is_zero (pos n) = nat_eq n 0
is_zero (negsuc n) = false

module _ (int_text : String → Option ℤ) where
  -- `int(v)`, and 0 where it raises; `int_text` is `int` of a text.
  total_of : Option Value → ℤ
  total_of none = pos 0
  total_of (some (bool b)) = if b then pos 1 else pos 0
  total_of (some (int n)) = n
  total_of (some (hundredths n)) = pos (n / 100)
  total_of (some (text s)) = elim (int_text s) [ none ↦ pos 0 | some n ↦ n ]
  total_of (some v) = pos 0

  metadata_size : Option Value → ℤ
  unfolding total_of
  metadata_size (some (table fs)) = total_of (lookup "total_size" (entries fs))
  metadata_size _ = pos 0

  index_size : Option Value → ℤ
  unfolding metadata_size
  index_size (some (table fs)) = metadata_size (lookup "metadata" (entries fs))
  index_size _ = pos 0

  first_index : Snapshot → ℤ
  unfolding index_size
  first_index s = elim s.exact_index [
    | some parsed ↦ index_size parsed
    | none ↦ elim s.other_indexes [ [] ↦ pos 0 | parsed ∷ more ↦ index_size parsed ]
  ]

  -- The index if it names a size, else the safetensors files, else the older format.
  unfoldable pub total_bytes : Snapshot → ℤ
  unfolding first_index sum
  total_bytes s =
      let indexed = first_index s in
      if not (is_zero indexed)
      then indexed
      else if nat_eq (sum s.safetensors) 0
      then pos (sum s.bins)
      else pos (sum s.safetensors)

  vram_of_snapshot : String → Option Snapshot → ℤ
  unfolding total_bytes estimate_vram_gb_from_name vram_of
  vram_of_snapshot name none = pos (estimate_vram_gb_from_name name)
  vram_of_snapshot name (some s) =
      let total = total_bytes s in
      if is_zero total then pos (estimate_vram_gb_from_name name) else vram_of total

  unfoldable pub read_model_vram_from_cache : ModelDir → ℤ
  unfolding active_snapshot vram_of_snapshot
  read_model_vram_from_cache d = vram_of_snapshot d.name (active_snapshot d)
