-- ===== src/TierMerge/Definitions.antt =====
-- `file_definitions` of tools/cdb_tier_merge.py, from the tokens on: the names that a file defines at
-- the scope of a namespace and for itself.
pub mod Blocks
use nvim_dot_files.Prelude.{
  ℕ, zero, suc, ◌+◌, Bool, true, false, not, ◌||◌, ◌&&◌, List, [], ◌∷◌, ◌++◌, Option, none, some,
  map, nat_eq, ltb, leb, length, if◌then◌else◌, Eq-number, Eq-list, ◌==◌,
}
use nvim_dot_files.Prelude.Texts.{Text, codes}
use nvim_dot_files.Prelude.Sets.{mem, keep_if, every, some_of, adjoin}
use nvim_dot_files.IndexGraph.Canonical.{is_empty}
use nvim_dot_files.TierMerge.Tokens.{Classes, is_letter, is_word, tokens}

pub data Scope : Type 0 where
  namespace : Text → Scope
  other : Scope

-- The variables of the loop; `scopes` has the innermost scope first, and `statement` is in its order.
pub record Screen : Type 0 where
  pub names : List Text
  pub scopes : List Scope
  pub statement : List Text

abbrev is_namespace : Scope → Bool
is_namespace (namespace name) = true
is_namespace other = false

abbrev is_anonymous : Scope → Bool
is_anonymous (namespace name) = is_empty name
is_anonymous other = false

unfoldable pub namespace_scope : List Scope → Bool
unfolding every
namespace_scope = every is_namespace

-- `'::'.join(prefix + [name])`
unfoldable pub qualified : List Scope → Text → Text
qualified [] name = name
qualified (other ∷ outer) name = qualified outer name
qualified (namespace n ∷ outer) name =
    qualified outer (if is_empty n then name else n ++ codes "::" ++ name)

unfoldable pub record_name : Text → Screen → Screen
unfolding qualified adjoin
record_name name s = record s { names = adjoin (qualified s.scopes name) s.names }

-- `_IDENT.match(token)`
unfoldable pub is_identifier : Classes → Text → Bool
unfolding is_letter is_word every
is_identifier classes [] = false
is_identifier classes (c ∷ cs) = is_letter c && every (is_word classes) cs

-- The tokens before the first of some.
unfoldable pub before_any : List Text → List Text → List Text
unfolding mem
before_any stops [] = []
before_any stops (t ∷ ts) = if mem t stops then [] else t ∷ before_any stops ts

-- The tokens after the first of a kind.
unfoldable pub after_first : Text → List Text → Option (List Text)
after_first wanted [] = none
after_first wanted (t ∷ ts) = if t == wanted then some ts else after_first wanted ts

-- `part[tags[-1] + 1:]`
unfoldable pub after_last_tag : List Text → Option (List Text)
unfolding mem
after_last_tag [] = none
after_last_tag (t ∷ ts) = elim (after_last_tag ts) [
  | some head ↦ some head
  | none ↦ if mem t (codes "struct" ∷ codes "class" ∷ []) then some ts else none
]

unfoldable pub last_of : List Text → Option Text
last_of [] = none
last_of (t ∷ []) = some t
last_of (t ∷ u ∷ ts) = last_of (u ∷ ts)

-- `record(identifiers[-1])`, where there are `least` of them
unfoldable pub record_last : ℕ → List Text → Screen → Screen
unfolding last_of record_name
record_last least identifiers s = elim (last_of identifiers) [
  | none ↦ s
  | some name ↦ if leb least (length identifiers) then record_name name s else s
]

-- A class that is defined; a parenthesis anywhere makes it a function.
unfoldable pub record_class : Classes → List Text → Bool → Screen → Screen
unfolding mem after_last_tag before_any keep_if is_identifier record_last
record_class classes part brace s =
    if brace && not (mem (codes "(") part)
    then elim (after_last_tag part) [
      | none ↦ s
      | some head ↦
          record_last 1
            (keep_if (is_identifier classes) (before_any (codes ":" ∷ codes "final" ∷ []) head)) s
    ]
    else s

abbrev log_category : Text
log_category = codes "DEFINE_LOG_CATEGORY_STATIC"

-- `part[at + 1:at + 2] == ['(']`, and the name that follows
unfoldable pub first_argument : List Text → Option Text
first_argument [] = none
first_argument (t ∷ []) = none
first_argument (t ∷ name ∷ ts) = if t == codes "(" then some name else none

unfoldable pub record_category : List Text → Screen → Screen
unfolding after_first first_argument record_name
record_category part s = elim (after_first log_category part) [
  | none ↦ s
  | some rest ↦ elim (first_argument rest) [ none ↦ s | some name ↦ record_name name s ]
]

-- The identifiers before a parameter list or an initializer.
unfoldable pub declarator : Classes → List Text → List Text
unfolding keep_if is_identifier before_any
declarator classes part =
    keep_if (is_identifier classes) (before_any (codes "(" ∷ codes "=" ∷ codes "[" ∷ []) part)

unfoldable pub starts_type : List Text → Bool
unfolding mem
starts_type [] = false
starts_type (t ∷ ts) = mem t (codes "using" ∷ codes "typedef" ∷ codes "namespace" ∷ [])

-- A static function or object, or one of an anonymous namespace.
unfoldable pub record_local : Classes → List Text → Screen → Screen
unfolding mem some_of declarator record_last starts_type
record_local classes part s =
    if mem (codes "static") part
    then record_last 3 (declarator classes part) s
    else if some_of is_anonymous s.scopes && not (starts_type part)
    then record_last 2 (declarator classes part) s
    else s

-- `declaration(part, brace)`
unfoldable pub declaration : Classes → Bool → Screen → Screen
unfolding namespace_scope record_class record_category record_local
declaration classes brace s =
    if not (namespace_scope s.scopes) || is_empty s.statement
    then s
    else record_local classes s.statement
        (record_category s.statement (record_class classes s.statement brace s))

abbrev join : List Text → Text
join [] = []
join (t ∷ ts) = t ++ join ts

-- The scope that a brace opens.
unfoldable pub opened : Screen → Scope
unfolding namespace_scope after_first mem
opened s =
    if namespace_scope s.scopes && not (mem (codes "=") s.statement)
    then elim (after_first (codes "namespace") s.statement) [
      | none ↦ other
      | some name ↦ namespace (join name)
    ]
    else other

abbrev outer : List Scope → List Scope
outer [] = []
outer (scope ∷ scopes) = scopes

unfoldable pub screen_step : Classes → Text → Screen → Screen
unfolding declaration opened
screen_step classes token s =
    if token == codes "{"
    then record (declaration classes true s) { scopes = opened s ∷ s.scopes; statement = [] }
    else if token == codes "}"
    then record s { scopes = outer s.scopes; statement = [] }
    else if token == codes ";"
    then record (declaration classes false s) { statement = [] }
    else record s { statement = s.statement ++ token ∷ [] }

unfoldable pub screen : Classes → List Text → Screen → Screen
unfolding screen_step
screen classes [] s = s
screen classes (token ∷ tokens) s = screen classes tokens (screen_step classes token s)

unfoldable pub file_definitions : Classes → Text → List Text
unfolding screen tokens
file_definitions classes text =
    (screen classes (tokens classes text)
      (record { names = []; scopes = []; statement = [] })).names
