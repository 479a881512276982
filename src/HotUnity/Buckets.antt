-- ===== src/HotUnity/Buckets.antt =====
-- The buckets of `secondary_unity_chunks` in tools/build_hot_super_unity_cdb.py, and the stems of members.
use nvim_dot_files.Prelude.{
  ℕ, suc, ◌-◌, Bool, not, ◌||◌, ◌&&◌, List, [], ◌∷◌, ◌++◌, Option, none, some, length, take, drop,
  if◌then◌else◌, Eq-number, Eq-list, Eq-option, Eq-pair, ◌==◌,
}
use nvim_dot_files.Prelude.Texts.{Text, codes}
use nvim_dot_files.Prelude.Sets.{mem, every, some_of, adjoin}
use nvim_dot_files.Prelude.Dicts.{Dict, revise}
use nvim_dot_files.Argv.Syntax.{lower}
use nvim_dot_files.TierMerge.Tokens.{starts_with}
use nvim_dot_files.OrderedUnity.Parse.{Entry, slashes}
use nvim_dot_files.OrderedUnity.Grouping.{is_generated}
use nvim_dot_files.HotUnity.Paths.{split_path, portable_member_path}
use nvim_dot_files.HotUnity.Context.{compile_context_key}

-- An entry with what the scripts before have noted in it; an empty text or list stands for nothing.
pub record NotedEntry : Type 0 where
  pub entry : Entry
  pub members : List Text
  pub module_root : Text
  pub has_tier : Bool
  pub has_background_route : Bool

-- `os.path.normcase`, `os.path.splitext`, `str.casefold` and the digest of a context.
pub record Tools : Type 0 where
  pub normcase : Text → Text
  pub splitext : Text → Text × Text
  pub casefold : Text → Text
  pub digest : Text → Text

abbrev last_part : List Text → Text
last_part [] = []
last_part (part ∷ []) = part
last_part (part ∷ next ∷ parts) = last_part (next ∷ parts)

-- `path.replace('\\', '/').rsplit('/', 1)[-1]`
unfoldable pub base_name : Text → Text
unfolding slashes split_path
base_name path = last_part (split_path (slashes path))

-- The two sets of `_member_stems`.
unfoldable pub add_stem : Tools → Text → List Text × List Text → List Text × List Text
unfolding mem adjoin
add_stem tools name (sources, generated) =
    let (stem, suffix) = tools.splitext name in
    if drop (length name - 8) name == codes ".gen.cpp"
    then (sources, adjoin (take (length name - 8) name) generated)
    else if mem suffix (codes ".cpp" ∷ codes ".cc" ∷ codes ".cxx" ∷ [])
    then (adjoin stem sources, generated)
    else (sources, generated)

unfoldable pub stems_loop : Tools → List Text → List Text × List Text → List Text × List Text
unfolding add_stem base_name
stems_loop tools [] stems = stems
stems_loop tools (member ∷ members) stems =
    stems_loop tools members (add_stem tools (tools.casefold (base_name member)) stems)

unfoldable pub member_stems : Tools → List Text → List Text × List Text
unfolding stems_loop
member_stems tools members = stems_loop tools members ([], [])

abbrev cpp_suffixes : List Text
cpp_suffixes = codes ".c" ∷ codes ".cpp" ∷ codes ".cc" ∷ codes ".cxx" ∷ codes ".c++" ∷ []

unfoldable pub is_exact_cpp : Tools → NotedEntry → Bool
unfolding mem lower starts_with base_name portable_member_path
is_exact_cpp tools e =
    mem (lower (tools.splitext e.entry.file).1) cpp_suffixes
    && (not (starts_with (codes "SuperUnity.") (base_name e.entry.file))
        && (e.members == portable_member_path e.entry.file ∷ []
            && (not (e.module_root == [])
                && (not (e.entry.arguments == [])
                    && (not e.has_tier && not e.has_background_route)))))

unfoldable pub member_class : List Text → Text
unfolding every some_of is_generated
member_class members =
    if every is_generated members
    then codes "gen"
    else if some_of is_generated members
    then codes "mixed"
    else codes "src"

unfoldable pub category_of : Tools → Bool → NotedEntry → Option Text
unfolding member_class
category_of tools split_member_classes e =
    if (tools.splitext e.entry.file).1 == codes ".c"
    then some (codes "c")
    else if split_member_classes
    then some (member_class e.members)
    else none

unfoldable pub is_planned : Tools → Bool → NotedEntry → Bool
unfolding starts_with base_name is_exact_cpp
is_planned tools include_exact e =
    (starts_with (codes "SuperUnity.UBT.") (base_name e.entry.file)
      || (include_exact && is_exact_cpp tools e))
    && (not (e.members == []) && not (e.module_root == []))

abbrev pub BucketKey : Type 0
BucketKey = Text × (Text × Option Text)

-- The loop over the entries, from an index on.
unfoldable pub buckets_from :
    Tools → Bool → Bool → ℕ → List NotedEntry → Dict BucketKey (List ℕ) → Dict BucketKey (List ℕ)
unfolding is_planned category_of compile_context_key revise
buckets_from tools split include_exact index [] buckets = buckets
buckets_from tools split include_exact index (e ∷ entries) buckets =
    let context = compile_context_key tools.normcase tools.digest e.entry in
    let key : BucketKey = (e.module_root, (context, category_of tools split e)) in
    buckets_from tools split include_exact (suc index) entries (
      if is_planned tools include_exact e
      then revise key [] (λ indexes. indexes ++ index ∷ []) buckets
      else buckets)
