-- ===== src/Value.antt =====
-- The values that c_src/parser.cc makes of header texts, and what it takes from outside.
-- `Item` has a constructor for each form of term; a `Value` is one term, or a list of terms, which
-- `enif_is_list` tells apart. An atom that is no error, and a binary, are the two forms of `Name`.
use elixir_sippet.Base.Int.{ℤ}
use elixir_sippet.Base.{
  ℕ, Bool, false, List, [], ◌∷◌, Option, none, some, Bytes, equal, if◌then◌else◌,
}

-- `MakeLowerCaseExistingAtomOrString`
pub data Name : Type 0 where
  atom : Bytes → Name
  string : Bytes → Name

unfoldable pub same_name : Name → Name → Bool
same_name (atom a) (atom b) = equal a b
same_name (string a) (string b) = equal a b
same_name (atom a) (string b) = false
same_name (string a) (atom b) = false

-- The fields of `PRExplodedTime` that the parser reads.
pub record ExplodedTime : Type 0 where
  pub tm_usec : ℤ
  pub tm_sec : ℤ
  pub tm_min : ℤ
  pub tm_hour : ℤ
  pub tm_mday : ℤ
  pub tm_month : ℤ
  pub tm_year : ℤ

-- What the parser calls and does not define: the VM's table of atoms, as
-- `enif_make_existing_atom_len` sees it; `std::stod`, with a `double` as its 64 bits and `none` for
-- an exception; `PR_ParseTimeStringToExplodedTime` and `PR_NormalizeTime` of NSPR.
pub record Runtime : Type 0 where
  pub atom_exists : Bytes → Bool
  pub stod : Bytes → Option ℕ
  pub parse_time : Bytes → Option ExplodedTime
  pub normalize_time : ExplodedTime → ExplodedTime

-- A map with binaries for keys; `enif_make_map_put` replaces the value of a key that is there.
abbrev pub Params : Type 0
Params = List (Bytes × Bytes)

unfoldable pub map_put : Bytes → Bytes → Params → Params
map_put k v [] = (k, v) ∷ []
map_put k v ((j, w) ∷ m) = if equal j k then (k, v) ∷ m else (j, w) ∷ map_put k v m

unfoldable pub map_get : Bytes → Params → Option Bytes
map_get k [] = none
map_get k ((j, w) ∷ m) = if equal j k then some w else map_get k m

pub data Item : Type 0 where
  binary : Bytes → Item
  with_params : Bytes → Params → Item
  type_params : Option (Bytes × Bytes) → Params → Item
  auth_params : Params → Item
  contact : Bytes → Bytes → Params → Item
  integer : ℤ → Item
  cseq : ℤ → Name → Item
  date : ℤ × ℤ × ℤ → ℤ × ℤ × ℤ → ℤ × ℕ → Item
  timestamp : ℕ → ℕ → Item
  mime_version : ℤ → ℤ → Item
  retry_after : ℤ → Bytes → Params → Item
  warning : ℤ → Bytes → Bytes → Item
  via : ℕ × ℕ → Name → Bytes → ℤ → Params → Item

pub data Value : Type 0 where
  one : Item → Value
  many : List Item → Value
