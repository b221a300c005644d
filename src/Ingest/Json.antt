-- ===== src/Ingest/Json.antt =====
-- The lenient accessors of internal/ingest/json.go and nhl_parse.go over a decoded payload.
use go_espn_api.Prelude.{
  Bool, Option, none, some, List, [], ◌∷◌, String, Bytes, is_empty, ℤ, if◌then◌else◌,
}
use text.Mathlib.Text.{◌==◌}

-- A float64, by what the program reads of it: FormatFloat(v, 'f', -1, 64) and int(v).
pub record Float : Type 0 where
  pub text : Bytes
  pub int : ℤ

-- A value of type any. `null` is the nil interface. A decoder that keeps numbers as json.Number is
-- not used, but `mid` reads them.
mutual
  pub data Value : Type 0 where
    null : Value
    bool : Bool → Value
    num : Float → Value
    json_number : Bytes → Value
    str : Bytes → Value
    array : Elements → Value
    object : Members → Value

  pub data Members : Type 0 where
    no_member : Members
    member : String → Value → Members → Members

  pub data Elements : Type 0 where
    no_element : Elements
    element : Value → Elements → Elements

-- A map[string]any, which may be nil.
abbrev pub Map : Type 0
Map = Option Members

abbrev pub elements : Elements → List Value
elements no_element = []
elements (element v vs) = v ∷ elements vs

abbrev pub lookup : String → Members → Value
lookup key no_member = null
lookup key (member k v fs) = if k == key then v else lookup key fs

-- m[key]: nil where the key is absent, and where the map is nil.
unfoldable pub get : Map → String → Value
get none key = null
get (some fs) key = lookup key fs

abbrev pub as_map : Value → Map
as_map (object fs) = some fs
as_map _ = none

abbrev pub as_slice : Value → List Value
as_slice (array vs) = elements vs
as_slice _ = []

abbrev pub as_str : Value → Bytes
as_str (str s) = s
as_str _ = []

unfoldable pub mmap : Map → String → Map
mmap m key = as_map (get m key)

unfoldable pub mslice : Map → String → List Value
mslice m key = as_slice (get m key)

unfoldable pub mstr : Map → String → Bytes
mstr m key = as_str (get m key)

unfoldable pub mstr_or : Map → List String → Bytes
mstr_or m [] = []
mstr_or m (key ∷ keys) =
    if is_empty (as_str (get m key)) then mstr_or m keys else as_str (get m key)

abbrev pub as_id : Value → Bytes
as_id (str s) = s
as_id (num f) = f.text
as_id (json_number s) = s
as_id _ = []

unfoldable pub mid : Map → String → Bytes
mid m key = as_id (get m key)

abbrev pub as_scalar : Value → Bytes
as_scalar (str s) = s
as_scalar (num f) = f.text
as_scalar _ = []

unfoldable pub mscalar_str : Map → String → Bytes
mscalar_str m key = as_scalar (get m key)

abbrev pub as_bool : Value → Option Bool
as_bool (bool b) = some b
as_bool _ = none

abbrev pub or_bool : Option Bool → Bool → Bool
or_bool none def = def
or_bool (some b) def = b

unfoldable pub mbool : Map → String → Bool → Bool
mbool m key def = or_bool (as_bool (get m key)) def

unfoldable pub mbool_ptr : Map → String → Option Bool
mbool_ptr m key = as_bool (get m key)

abbrev pub as_int : Value → Option ℤ
as_int (num f) = some f.int
as_int _ = none

abbrev pub or_int : Option ℤ → ℤ → ℤ
or_int none def = def
or_int (some i) def = i

unfoldable pub mint : Map → String → ℤ → ℤ
mint m key def = or_int (as_int (get m key)) def

unfoldable pub mint_ptr : Map → String → Option ℤ
mint_ptr m key = as_int (get m key)

abbrev pub or_default : Option Bytes → Bytes → Bytes
or_default none def = def
or_default (some b) def = b

-- rawObj, over json.Marshal.
unfoldable pub raw_obj : (Value → Option Bytes) → Value → Bytes → Bytes
raw_obj marshal null def = def
raw_obj marshal v def = or_default (marshal v) def

-- rawObj of a map: a nil map is not the nil interface, and is marshalled as null is.
unfoldable pub raw_map : (Value → Option Bytes) → Map → Bytes → Bytes
raw_map marshal none def = or_default (marshal null) def
raw_map marshal (some fs) def = or_default (marshal (object fs)) def

-- defaultStr of nhl_parse.go.
unfoldable pub default_str : Map → String → Bytes
unfolding mstr mmap
default_str m key = mstr (mmap m key) "default"

abbrev as_abbrev : Value → Bytes
as_abbrev (object fs) = as_str (get (some fs) "default")
as_abbrev (str s) = s
as_abbrev _ = []

-- nhlTeamAbbrev of nhl_parse.go.
unfoldable pub nhl_team_abbrev : Map → Bytes
unfolding get
nhl_team_abbrev row = as_abbrev (get row "teamAbbrev")

abbrev or_float : Value → Float → Float
or_float (num f) def = f
or_float _ def = def

-- mfloat of nhl_parse.go.
unfoldable pub mfloat : Map → String → Float → Float
unfolding get
mfloat m key def = or_float (get m key) def
