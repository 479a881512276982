-- ===== src/Partition/Classify.antt =====
-- `classify` of tools/cdb_partition.py: the platform, project and configuration for which most paths of
-- an entry's arguments vote.
pub mod Plurality
use nvim_dot_files.Prelude.{
  ℕ, zero, suc, Bool, true, false, not, ◌&&◌, ◌||◌, List, [], ◌∷◌, ◌++◌, Option, none, some, map,
  length, nat_eq, ltb, if◌then◌else◌, drop, ◌==◌, Eq-number, Eq-list,
}
use nvim_dot_files.Prelude.Texts.{Text, codes}
use nvim_dot_files.Prelude.Result.{Result, ok, err, ◌>>=◌}
use nvim_dot_files.Prelude.Sets.{mem}
use nvim_dot_files.Prelude.Dicts.{Dict, revise}
use nvim_dot_files.ShardSeed.{starts_with, contains}
use nvim_dot_files.Argv.Posix.{ArgvFault}
use nvim_dot_files.Argv.Syntax.{
  Value, null, text, scalar, array, object, Entry, get, lower, split_command_line,
}
use nvim_dot_files.Argv.Normalize.{arguments_key, command_key}
use nvim_dot_files.Partition.Active.{Group}
use nvim_dot_files.Partition.Macros.{known_cfg, macro_configuration}

-- `PLATFORMS`; no two are equal in lower case, so the order of the set does not show.
abbrev platforms : List Text
platforms =
    codes "Win64"
    ∷ codes "Win32"
    ∷ codes "Linux"
    ∷ codes "LinuxAArch64"
    ∷ codes "Mac"
    ∷ codes "Android"
    ∷ codes "IOS"
    ∷ codes "TVOS"
    ∷ codes "HoloLens"
    ∷ codes "PS4"
    ∷ codes "PS5"
    ∷ codes "XSX"
    ∷ codes "XB1"
    ∷ codes "Switch"
    ∷ []

-- `next(p for p in names if p.lower() == wanted)`, or nothing
unfoldable pub canonical_from : Text → List Text → Option Text
unfolding lower
canonical_from wanted [] = none
canonical_from wanted (p ∷ names) =
    let rest = canonical_from wanted names in if lower p == wanted then some p else rest

unfoldable pub platform_canonical : Text → Option Text
unfolding canonical_from lower
platform_canonical name = canonical_from (lower name) platforms

-- `[^/]*`, and what follows it
unfoldable pub segment : Text → Text × Text
segment [] = ([], [])
segment (c ∷ cs) =
    let (front, back) = segment cs in if nat_eq c b'/' then ([], c ∷ cs) else (c ∷ front, back)

-- The groups of a match of `PLAT_RE`.
pub record PathMatch : Type 0 where
  pub platform : Text
  pub project : Text
  pub config : Option Text

-- `([^/]+)`, with the mark before it
unfoldable pub next_segment : Text → Option (Text × Text)
unfolding segment
next_segment [] = none
next_segment (c ∷ cs) =
    let (front, back) = segment cs in
    if nat_eq c b'/' && not (front == []) then some (front, back) else none

-- `[Ii]ntermediate/[Bb]uild`
abbrev prefixes : List Text
prefixes =
    codes "Intermediate/Build"
    ∷ codes "Intermediate/build"
    ∷ codes "intermediate/Build"
    ∷ codes "intermediate/build"
    ∷ []

unfoldable pub after_prefix : List Text → Text → Option Text
unfolding starts_with
after_prefix [] path = none
after_prefix (p ∷ ps) path =
    let rest = after_prefix ps path in
    if starts_with p path then some (drop (length p) path) else rest

unfoldable pub config_match : Text → Text → Text → PathMatch × Text
unfolding next_segment
config_match platform project path = elim (next_segment path) [
  | none ↦ (record { platform = platform; project = project; config = none }, path)
  | some (config, rest) ↦
      (record { platform = platform; project = project; config = some config }, rest)
]

-- A match of `PLAT_RE` at the front of a path, and what follows it.
unfoldable pub match_path : Text → Option (PathMatch × Text)
unfolding after_prefix next_segment config_match
match_path path = elim (after_prefix prefixes path) [
  | none ↦ none
  | some rest ↦ elim (next_segment rest) [
    | none ↦ none
    | some (platform, rest') ↦ elim (next_segment rest') [
      | none ↦ none
      | some (project, rest'') ↦ some (config_match platform project rest'')
    ]
  ]
]

-- `PLAT_RE.finditer(path)`
unfoldable pub find_paths : ℕ → Text → List PathMatch
unfolding match_path
find_paths fuel [] = []
find_paths zero (c ∷ cs) = []
find_paths (suc fuel) (c ∷ cs) = elim (match_path (c ∷ cs)) [
  | none ↦ find_paths fuel cs
  | some (found, rest) ↦ found ∷ find_paths fuel rest
]

-- `a.replace("\\", "/")`
unfoldable pub with_slashes : Text → Text
with_slashes [] = []
with_slashes (c ∷ cs) = (if nat_eq c 92 then b'/' else c) ∷ with_slashes cs

unfoldable pub paths_in : Text → List PathMatch
unfolding contains find_paths with_slashes
paths_in arg =
    if contains (codes "ntermediate") arg then find_paths (length arg) (with_slashes arg) else []

unfoldable pub all_paths : List Text → List PathMatch
unfolding paths_in
all_paths [] = []
all_paths (arg ∷ args) = paths_in arg ++ all_paths args

-- The counters, their keys in the order of the first votes.
pub record Votes : Type 0 where
  pub platforms : Dict Text ℕ
  pub projects : Dict Text ℕ
  pub configs : Dict Text ℕ

-- `votes[name] += 1`
unfoldable pub vote : Text → Dict Text ℕ → Dict Text ℕ
unfolding revise
vote name votes = revise name 0 suc votes

unfoldable pub vote_config : Option Text → Dict Text ℕ → Dict Text ℕ
unfolding mem vote
vote_config none votes = votes
vote_config (some c) votes = if mem c known_cfg then vote c votes else votes

unfoldable pub count_votes : List PathMatch → Votes → Votes
unfolding platform_canonical vote vote_config
count_votes [] v = v
count_votes (found ∷ paths) v = elim (platform_canonical found.platform) [
  | none ↦ count_votes paths v
  | some p ↦ count_votes paths (record {
    platforms = vote p v.platforms;
    projects = vote found.project v.projects;
    configs = vote_config found.config v.configs;
  })
]

-- `t` of `--target=t`, in lower case
unfoldable pub target_platform : Text → Option Text
unfolding contains
target_platform target =
    if contains (codes "android") target
    then some (codes "Android")
    else if contains (codes "win") target || contains (codes "msvc") target
    then some (codes "Win64")
    else if contains (codes "linux") target
    then some (codes "Linux")
    else none

-- The first target decides.
unfoldable pub target_vote : List Text → Option Text
unfolding starts_with target_platform lower
target_vote [] = none
target_vote (arg ∷ args) =
    let rest = target_vote args in
    if starts_with (codes "--target=") arg then target_platform (lower (drop 9 arg)) else rest

-- `max(items, key=votes)`: the first of the most votes.
unfoldable pub first_most : Text → ℕ → Dict Text ℕ → Text
first_most name n [] = name
first_most name n ((other, m) ∷ votes) = elim (ltb n m) [
  | true ↦ first_most other m votes
  | false ↦ first_most name n votes
]

-- `votes.most_common(1)[0][0] if votes else None`
unfoldable pub most_common : Dict Text ℕ → Option Text
unfolding first_most
most_common [] = none
most_common ((name, n) ∷ votes) = some (first_most name n votes)

abbrev or_option : Option Text → Option Text → Option Text
or_option none o = o
or_option (some t) o = some t

unfoldable pub classify_arguments : List Text → Group
unfolding count_votes all_paths target_vote most_common macro_configuration
classify_arguments args =
    let v = count_votes (all_paths args) (record { platforms = []; projects = []; configs = [] }) in
    (
      or_option (most_common v.platforms) (target_vote args),
      (most_common v.projects, or_option (most_common v.configs) (macro_configuration args)),
    )

-- `entry.get("command") or ""`
abbrev command_text : Value → Text
command_text (text t) = t
command_text other = []

-- `args`, where it is a list, and else the split command; a command is a text, or is missing.
unfoldable pub arguments_or_command : Bool → Entry → Value → Result ArgvFault (List Text)
unfolding get split_command_line
arguments_or_command nt entry (array args) = ok args
arguments_or_command nt entry other =
    split_command_line nt (command_text (get command_key entry)) (some entry)

unfoldable pub classify : Bool → Entry → Result ArgvFault Group
unfolding arguments_or_command get classify_arguments
classify nt entry =
    arguments_or_command nt entry (get arguments_key entry) >>= λ args. ok (classify_arguments args)
