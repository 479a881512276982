-- ===== src/Partition/Macros.antt =====
-- `_macro_configuration` of tools/cdb_partition.py: the configuration that the -D and -U options leave.
pub mod Printed
pub mod Operands
pub mod Last
use nvim_dot_files.Prelude.{
  ℕ, Bool, true, false, not, ◌&&◌, ◌||◌, List, [], ◌∷◌, ◌++◌, Option, none, some, map,
  if◌then◌else◌, drop, ◌==◌, Eq-number, Eq-list,
}
use nvim_dot_files.Prelude.Texts.{Text, codes}
use nvim_dot_files.Prelude.Sets.{mem, every, keep_if}
use nvim_dot_files.Prelude.Dicts.{Dict, at, assign, discard, keys, values}
use nvim_dot_files.ShardSeed.{starts_with}

abbrev pub known_cfg : List Text
known_cfg =
    codes "Development" ∷ codes "Test" ∷ codes "Shipping" ∷ codes "DebugGame" ∷ codes "Debug" ∷ []

-- `{"UE_BUILD_" + cfg.upper() for cfg in KNOWN_CFG}`
abbrev pub macro_names : List Text
macro_names =
    codes "UE_BUILD_DEVELOPMENT"
    ∷ codes "UE_BUILD_TEST"
    ∷ codes "UE_BUILD_SHIPPING"
    ∷ codes "UE_BUILD_DEBUGGAME"
    ∷ codes "UE_BUILD_DEBUG"
    ∷ []

-- `text.partition(mark)`: what stands before the mark, and what follows it, if it is there.
unfoldable pub partition_at : ℕ → Text → Text × Option Text
partition_at mark [] = ([], none)
partition_at mark (c ∷ cs) =
    let (front, back) = partition_at mark cs in
    if c == mark then ([], some cs) else (c ∷ front, back)

abbrev pub Macros : Type 0
Macros = Dict Text Text

-- What a -D or -U does to the value of one of the names; `none` where the whole is given up.
unfoldable pub set_known : Bool → Text → Option Text → Macros → Option Macros
unfolding assign discard
set_known true name none macros = some (discard name macros)
set_known true name (some v) macros = none
set_known false name none macros = some (assign name (codes "1") macros)
set_known false name (some v) macros = some (assign name v macros)

-- The same for any name, with the text behind the sign of equality, if there is one.
unfoldable pub set_macro : Bool → Text → Option Text → Macros → Option Macros
unfolding mem partition_at set_known
set_macro undefines name value macros =
    if not (mem name macro_names)
    then if mem (partition_at b'(' name).0 macro_names then none else some macros
    else set_known undefines name value macros

unfoldable pub set_operand : Bool → Text → Macros → Option Macros
unfolding partition_at set_macro
set_operand undefines operand macros =
    let (name, value) = partition_at b'=' operand in set_macro undefines name value macros

-- An option that may change the macros in a way that is not seen here.
unfoldable pub is_opaque : Text → Bool
unfolding starts_with
is_opaque arg =
    starts_with (codes "@") arg || (starts_with (codes "-Wp,") arg || arg == codes "-Xclang")

abbrev is_macro_option : Text → Bool
is_macro_option arg = starts_with (codes "-D") arg || starts_with (codes "-U") arg

-- `arg[:2] == "-U"`
abbrev undefines : Text → Bool
undefines arg = starts_with (codes "-U") arg

abbrev and_then : Option Macros → (Macros → Option Macros) → Option Macros
and_then none f = none
and_then (some m) f = f m

-- The `while` loop over the arguments; an operand may be the next argument.
unfoldable pub macros_loop : List Text → Macros → Option Macros
unfolding is_opaque set_operand starts_with
macros_loop [] macros = some macros
macros_loop (arg ∷ []) macros =
    if arg == codes "--"
    then some macros
    else if is_opaque arg
    then none
    else if not (is_macro_option arg)
    then some macros
    else if drop 2 arg == []
    then none
    else set_operand (undefines arg) (drop 2 arg) macros
macros_loop (arg ∷ next ∷ args) macros =
    let passed = macros_loop (next ∷ args) macros in
    let joined =
      and_then (set_operand (undefines arg) (drop 2 arg) macros) (macros_loop (next ∷ args)) in
    let split = and_then (set_operand (undefines arg) next macros) (macros_loop args) in
    if arg == codes "--"
    then some macros
    else if is_opaque arg
    then none
    else if not (is_macro_option arg)
    then passed
    else if not (drop 2 arg == [])
    then joined
    else if starts_with (codes "-") next
    then none
    else split

-- `.get(enabled[0])`
unfoldable pub configuration_of : Text → Option Text
configuration_of name =
    if name == codes "UE_BUILD_DEBUG"
    then some (codes "Debug")
    else if name == codes "UE_BUILD_SHIPPING"
    then some (codes "Shipping")
    else if name == codes "UE_BUILD_TEST"
    then some (codes "Test")
    else none

abbrev single_name : List Text → Option Text
single_name [] = none
single_name (name ∷ []) = configuration_of name
single_name (name ∷ other ∷ names) = none

abbrev is_flag : Text → Bool
is_flag value = value == codes "0" || value == codes "1"

unfoldable pub enabled : Macros → List Text
unfolding keep_if
enabled macros = keys (keep_if (λ p. p.1 == codes "1") macros)

unfoldable pub chosen : Macros → Option Text
unfolding every enabled configuration_of
chosen macros = if every is_flag (values macros) then single_name (enabled macros) else none

abbrev if_some : Option Macros → (Macros → Option Text) → Option Text
if_some none f = none
if_some (some m) f = f m

abbrev options_of : List Text → List Text
options_of [] = []
options_of (compiler ∷ args) = args

unfoldable pub macro_configuration : List Text → Option Text
unfolding macros_loop chosen
macro_configuration args = if_some (macros_loop (options_of args) []) chosen
