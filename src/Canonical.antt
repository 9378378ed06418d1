-- ===== src/Canonical.antt =====
-- Canonical JSON and its hash: packages/domain/src/canonical.ts. A `Json` is a value that the source
-- accepts: the throws for non-finite numbers, `undefined`, class instances and cycles are not modelled.
-- `Platform` holds what the source takes from JavaScript's runtime and from node:crypto.
use reverb_impact.Base.{ℕ, String, Bool, Option, none, some, List, [], ◌∷◌, map, sort_by}

mutual
  pub data Json : Type 0 where
    null : Json
    boolean : Bool → Json
    number : ℕ → Json
    text : String → Json
    array : Items → Json
    object : Fields → Json

  pub data Items : Type 0 where
    nil : Items
    item : Json → Items → Items

  pub data Fields : Type 0 where
    end : Fields
    field : String → Json → Fields → Fields

pub record Platform : Type 0 where
  -- left.localeCompare(right) <= 0
  pub collate_le : String → String → Bool
  -- the order of `sort()` with no comparator
  pub code_unit_le : String → String → Bool
  -- value.length, in UTF-16 code units
  pub utf16_length : String → ℕ
  pub trim : String → String
  -- value.normalize('NFC')
  pub normalize_nfc : String → String
  pub to_lower_case : String → String
  -- JSON.stringify
  pub stringify : Json → String
  -- new Date(value).toISOString()
  pub iso_text : ℕ → String
  -- sha256Text: node's createHash over the UTF-8 bytes
  pub sha256_text : String → String

abbrev pub to_items : List Json → Items
to_items [] = nil
to_items (v ∷ vs) = item v (to_items vs)

abbrev pub to_fields : List (String × Json) → Fields
to_fields [] = end
to_fields ((k, v) ∷ fs) = field k v (to_fields fs)

abbrev pub from_fields : Fields → List (String × Json)
from_fields end = []
from_fields (field k v fs) = (k, v) ∷ from_fields fs

-- `Object.keys(object).sort()`
abbrev pub key_order : Platform → String × Json → String × Json → Bool
key_order p left right = p.code_unit_le left.0 right.0

-- `normalize`, which rebuilds every object with sorted keys.
unfoldable mutual
  pub canonicalize : Platform → Json → Json
  canonicalize p null = null
  canonicalize p (boolean b) = boolean b
  canonicalize p (number n) = number n
  canonicalize p (text s) = text s
  canonicalize p (array vs) = array (canonicalize_items p vs)
  canonicalize p (object fs) = object (to_fields (sort_by (key_order p) (canonicalize_fields p fs)))

  pub canonicalize_items : Platform → Items → Items
  canonicalize_items p nil = nil
  canonicalize_items p (item v vs) = item (canonicalize p v) (canonicalize_items p vs)

  pub canonicalize_fields : Platform → Fields → List (String × Json)
  canonicalize_fields p end = []
  canonicalize_fields p (field k v fs) = (k, canonicalize p v) ∷ canonicalize_fields p fs

-- `canonicalJson`
unfoldable pub canonical_json : Platform → Json → String
canonical_json p v = p.stringify (canonicalize p v)

-- `hashCanonical`
unfoldable pub hash_canonical : Platform → Json → String
hash_canonical p v = p.sha256_text (canonical_json p v)

-- An object literal.
abbrev pub obj : List (String × Json) → Json
obj fs = object (to_fields fs)

abbrev pub arr {ℓ} : {A : Type ℓ} → (A → Json) → List A → Json
arr f xs = array (to_items (map f xs))

-- A field that is left out where its value is `undefined`.
abbrev pub optional : String → Option String → List (String × Json) → List (String × Json)
optional k none fs = fs
optional k (some s) fs = (k, text s) ∷ fs
