-- ===== src/HotUnity/Paths.antt =====
-- The names of members and modules in tools/build_hot_super_unity_cdb.py, and where a source is named.
use nvim_dot_files.Prelude.{
  ℕ, suc, ◌+◌, ◌-◌, Bool, true, false, ◌||◌, ◌&&◌, List, [], ◌∷◌, ◌++◌, Option, none, some, nat_eq,
  length, if◌then◌else◌, drop, Eq-number, Eq-list, ◌==◌,
}
use nvim_dot_files.Prelude.Texts.{Text, codes}
use nvim_dot_files.Prelude.Sets.{mem}
use nvim_dot_files.OrderedUnity.Parse.{slashes}

abbrev pub on_first : ℕ → List Text → List Text
on_first c [] = (c ∷ []) ∷ []
on_first c (part ∷ parts) = (c ∷ part) ∷ parts

-- `text.split('/')`
unfoldable pub split_path : Text → List Text
split_path [] = [] ∷ []
split_path (c ∷ t) =
    let parts = split_path t in if nat_eq c b'/' then [] ∷ parts else on_first c parts

unfoldable pub nonempty_parts : List Text → List Text
nonempty_parts [] = []
nonempty_parts (part ∷ parts) =
    let rest = nonempty_parts parts in if part == [] then rest else part ∷ rest

-- `_portable_parts`; the `strip` drops empty parts, which go anyway.
unfoldable pub portable_parts : Text → List Text
unfolding slashes split_path nonempty_parts
portable_parts file = nonempty_parts (split_path (slashes file))

-- `'/'.join(parts)`
unfoldable pub join_path : List Text → Text
join_path [] = []
join_path (part ∷ []) = part
join_path (part ∷ next ∷ parts) = part ++ b'/' ∷ join_path (next ∷ parts)

abbrev pub source_part : Text
source_part = codes "Source"

abbrev pub module_marker_dirs : List Text
module_marker_dirs = codes "Private" ∷ codes "Public" ∷ codes "Classes" ∷ codes "Internal" ∷ []

abbrev or_this : Option (List Text) → Option (List Text) → Option (List Text)
or_this none o = o
or_this (some p) o = some p

-- The parts from the last `Source` on that has another part behind it.
unfoldable pub from_source : List Text → Option (List Text)
from_source [] = none
from_source (part ∷ []) = none
from_source (part ∷ next ∷ parts) =
    or_this (from_source (next ∷ parts))
      (if part == source_part then some (part ∷ next ∷ parts) else none)

-- The parts from the one before the first marker on, where a part stands before it.
unfoldable pub marker_after : Text → List Text → Option (List Text)
unfolding mem
marker_after before [] = none
marker_after before (part ∷ parts) =
    let rest = marker_after part parts in
    if mem part module_marker_dirs then some (before ∷ part ∷ parts) else rest

unfoldable pub from_marker : List Text → Option (List Text)
unfolding mem marker_after
from_marker [] = none
from_marker (part ∷ parts) = if mem part module_marker_dirs then none else marker_after part parts

abbrev last_three : List Text → List Text
last_three parts = drop (length parts - 3) parts

abbrev or_parts : Option (List Text) → List Text → List Text
or_parts none parts = parts
or_parts (some found) parts = found

unfoldable pub member_parts : List Text → List Text
unfolding from_source from_marker
member_parts parts = or_parts (or_this (from_source parts) (from_marker parts)) (last_three parts)

unfoldable pub portable_member_path : Text → Text
unfolding portable_parts member_parts join_path
portable_member_path file = join_path (member_parts (portable_parts file))

-- `parts[source_index:index]`, of the last `Source` before a marker; `front` are the parts before it,
-- the last first.
unfoldable pub back_to_source : List Text → List Text → Option (List Text)
back_to_source [] taken = none
back_to_source (part ∷ front) taken =
    let rest = back_to_source front (part ∷ taken) in
    if part == source_part then some (part ∷ taken) else rest

abbrev root_of : Text → List Text → Text
root_of before front = join_path (or_parts (back_to_source (before ∷ front) []) (before ∷ []))

-- The loop of `portable_module_root`: the first marker that has a part before it; `front` are the parts
-- that are passed, the last first.
unfoldable pub module_parts : List Text → List Text → Option Text
unfolding back_to_source mem join_path
module_parts [] [] = none
module_parts (before ∷ front) [] = none
module_parts [] (part ∷ parts) = module_parts (part ∷ []) parts
module_parts (before ∷ front) (part ∷ parts) =
    let rest = module_parts (part ∷ before ∷ front) parts in
    if mem part module_marker_dirs then some (root_of before front) else rest

-- All parts but the last: `os.path.dirname` of parts that are joined.
unfoldable pub parent_parts : List Text → List Text
parent_parts [] = []
parent_parts (part ∷ []) = []
parent_parts (part ∷ next ∷ parts) = part ∷ parent_parts (next ∷ parts)

abbrev or_text : Option Text → Text → Text
or_text none t = t
or_text (some found) t = found

unfoldable pub portable_module_root : Text → Text
unfolding module_parts portable_parts member_parts parent_parts join_path
portable_module_root file =
    or_text (module_parts [] (portable_parts file))
      (join_path (parent_parts (member_parts (portable_parts file))))

-- The options of `_source_positions` whose operand is passed over.
abbrev pub value_flags : List Text
value_flags =
    codes "-D"
    ∷ codes "-U"
    ∷ codes "-I"
    ∷ codes "-isystem"
    ∷ codes "-iquote"
    ∷ codes "-idirafter"
    ∷ codes "-F"
    ∷ codes "-iframework"
    ∷ codes "-include"
    ∷ codes "-imacros"
    ∷ codes "-include-pch"
    ∷ codes "-include-pth"
    ∷ codes "-ivfsoverlay"
    ∷ codes "-vfsoverlay"
    ∷ codes "-isysroot"
    ∷ codes "--sysroot"
    ∷ codes "--gcc-toolchain"
    ∷ codes "-resource-dir"
    ∷ codes "-target"
    ∷ codes "--target"
    ∷ codes "-arch"
    ∷ codes "-x"
    ∷ codes "-Xclang"
    ∷ codes "-Xpreprocessor"
    ∷ codes "-Xassembler"
    ∷ codes "-Xlinker"
    ∷ codes "-mllvm"
    ∷ codes "-working-directory"
    ∷ codes "-o"
    ∷ codes "-MF"
    ∷ codes "-MT"
    ∷ codes "-MQ"
    ∷ codes "-MJ"
    ∷ codes "-dependency-file"
    ∷ codes "-serialize-diagnostics"
    ∷ []

-- The loop, from an index on; the flag says whether options are still read, and `normcase` is the host's.
unfoldable pub positions_from : (Text → Text) → Text → Bool → ℕ → List Text → List ℕ
unfolding mem slashes
positions_from normcase wanted options index [] = []
positions_from normcase wanted options index (arg ∷ []) =
    if options && (arg == codes "--" || mem arg value_flags)
    then []
    else if normcase (slashes arg) == wanted
    then index ∷ []
    else []
positions_from normcase wanted options index (arg ∷ next ∷ args) =
    let closed = positions_from normcase wanted false (suc index) (next ∷ args) in
    let after_value = positions_from normcase wanted options (index + 2) args in
    let rest = positions_from normcase wanted options (suc index) (next ∷ args) in
    if options && arg == codes "--"
    then closed
    else if options && mem arg value_flags
    then after_value
    else if normcase (slashes arg) == wanted
    then index ∷ rest
    else rest

unfoldable pub source_positions : (Text → Text) → List Text → Text → List ℕ
unfolding positions_from slashes
source_positions normcase args source =
    positions_from normcase (normcase (slashes source)) true 1 (drop 1 args)
