-- ===== src/OrderedUnity/Json.antt =====
-- `_json` of tools/cdb_ordered_unity.py: `json.dumps` with sorted keys, without spaces and in ASCII.
use nvim_dot_files.Prelude.{
  ℕ, ◌+◌, ◌-◌, ◌/◌, ◌%◌, Bool, true, false, List, [], ◌∷◌, ◌++◌, map, nat_eq, ltb, if◌then◌else◌,
}
use nvim_dot_files.Prelude.Texts.{Text, codes}
use nvim_dot_files.Prelude.Dicts.{Dict}
use nvim_dot_files.Prelude.Sorting.{sorted_by}
use nvim_dot_files.IndexGraph.Key.Compare.{text_order}

-- The values that are written.
mutual
  pub data Json : Type 0 where
    null : Json
    bool : Bool → Json
    string : Text → Json
    array : Values → Json
    object : Fields → Json

  pub data Values : Type 0 where
    no_values : Values
    value : Json → Values → Values

  pub data Fields : Type 0 where
    no_fields : Fields
    field : Text → Json → Fields → Fields

unfoldable pub digit : ℕ → ℕ
digit n = if ltb n 10 then 48 + n else 87 + n

-- `\u` and four digits
unfoldable pub unit_escape : ℕ → Text
unfolding digit
unit_escape n =
    92
    ∷ b'u'
    ∷ digit (n / 4096 % 16)
    ∷ digit (n / 256 % 16)
    ∷ digit (n / 16 % 16)
    ∷ digit (n % 16)
    ∷ []

-- A code point: two units beyond the first plane.
unfoldable pub json_char : ℕ → Text
unfolding unit_escape
json_char c =
    if nat_eq c 34
    then 92 ∷ 34 ∷ []
    else if nat_eq c 92
    then 92 ∷ 92 ∷ []
    else if nat_eq c 10
    then 92 ∷ b'n' ∷ []
    else if nat_eq c 13
    then 92 ∷ b'r' ∷ []
    else if nat_eq c 9
    then 92 ∷ b't' ∷ []
    else if nat_eq c 12
    then 92 ∷ b'f' ∷ []
    else if nat_eq c 8
    then 92 ∷ b'b' ∷ []
    else if ltb c 32
    then unit_escape c
    else if ltb c 127
    then c ∷ []
    else if ltb c 65536
    then unit_escape c
    else unit_escape (55296 + (c - 65536) / 1024 % 1024) ++ unit_escape (56320 + (c - 65536) % 1024)

unfoldable pub json_chars : Text → Text
unfolding json_char
json_chars [] = []
json_chars (c ∷ cs) = json_char c ++ json_chars cs

unfoldable pub json_string : Text → Text
unfolding json_chars
json_string t = 34 ∷ json_chars t ++ 34 ∷ []

-- `,` between the parts
unfoldable pub joined : List Text → Text
joined [] = []
joined (t ∷ []) = t
joined (t ∷ u ∷ us) = t ++ b',' ∷ joined (u ∷ us)

unfoldable pub json_row : Text × Text → Text
unfolding json_string
json_row (name, printed) = json_string name ++ b':' ∷ printed

unfoldable pub json_rows : List (Text × Text) → List Text
unfolding json_row
json_rows [] = []
json_rows (row ∷ rows) = json_row row ∷ json_rows rows

unfoldable mutual
  unfolding json_string joined json_rows sorted_by

  pub json : Json → Text
  json null = codes "null"
  json (bool true) = codes "true"
  json (bool false) = codes "false"
  json (string t) = json_string t
  json (array vs) = b'[' ∷ joined (json_values vs) ++ b']' ∷ []
  json (object fs) =
      b'{' ∷ joined (json_rows (sorted_by text_order (λ p. p.0) (json_fields fs))) ++ b'}' ∷ []

  pub json_values : Values → List Text
  json_values no_values = []
  json_values (value v vs) = json v ∷ json_values vs

  pub json_fields : Fields → List (Text × Text)
  json_fields no_fields = []
  json_fields (field name v fs) = (name, json v) ∷ json_fields fs

unfoldable pub array_of : List Json → Values
array_of [] = no_values
array_of (v ∷ vs) = value v (array_of vs)

-- A list of texts.
unfoldable pub strings : List Text → Json
unfolding array_of
strings ts = array (array_of (map string ts))

unfoldable pub fields_of : Dict Text Json → Fields
fields_of [] = no_fields
fields_of ((name, v) ∷ d) = field name v (fields_of d)
