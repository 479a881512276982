-- ===== src/OrderedUnity/Headers.antt =====
-- `_definitions` and `_context` of tools/cdb_ordered_unity.py: the macros that a header of definitions
-- leaves, and the text that entries with the same settings share.
use nvim_dot_files.Prelude.{
  ℕ, zero, suc, Bool, true, false, not, ◌||◌, ◌&&◌, List, [], ◌∷◌, ◌++◌, Option, none, some, nat_eq,
  leb, length, Eq-number, Eq-list, ◌==◌, if◌then◌else◌, drop, take, map,
}
use nvim_dot_files.Prelude.Texts.{Text, codes}
use nvim_dot_files.Prelude.Result.{Result, ok, err, ◌>>=◌}
use nvim_dot_files.Prelude.Sets.{some_of, every, keep_if}
use nvim_dot_files.Prelude.Dicts.{Dict, assign}
use nvim_dot_files.IndexGraph.Reader.{Bytes}
use nvim_dot_files.IndexGraph.Utf8.{decode}
use nvim_dot_files.TierMerge.Tokens.{
  Classes, Match, or_else, starts_with, is_letter, is_word, is_space, word, literal, block_comment,
  line_comment,
}
use nvim_dot_files.OrderedUnity.Json.{
  Json, null, bool, string, array, object, array_of, strings, fields_of, json,
}
use nvim_dot_files.OrderedUnity.Parse.{
  Host, Reason, unsupported_undef, unsupported_content, unsupported_directive, os_error,
  unicode_error, Entry,
}

-- A code point that stands for a byte which is no UTF-8.
abbrev is_escaped : ℕ → Bool
is_escaped c = leb 56448 c && leb c 56575

-- `raw.decode('utf-8-sig')`
abbrev without_mark : Bytes → Bytes
without_mark raw = if take 3 raw == 239 ∷ 187 ∷ 191 ∷ [] then drop 3 raw else raw

unfoldable pub decode_strict : Bytes → Result Reason Text
unfolding decode some_of
decode_strict raw =
    let t = decode (without_mark raw) in if some_of is_escaped t then err unicode_error else ok t

-- `text.replace('\\\r\n', '')`, and then `replace('\\\n', '')`
unfoldable pub splice_returns : Text → Text
splice_returns [] = []
splice_returns (c ∷ []) = c ∷ []
splice_returns (c ∷ d ∷ []) = c ∷ d ∷ []
splice_returns (c ∷ d ∷ e ∷ t) =
    let joined = splice_returns t in
    let kept = splice_returns (d ∷ e ∷ t) in
    if nat_eq c 92 && (nat_eq d 13 && nat_eq e 10) then joined else c ∷ kept

unfoldable pub splice_lines : Text → Text
splice_lines [] = []
splice_lines (c ∷ []) = c ∷ []
splice_lines (c ∷ d ∷ t) =
    let joined = splice_lines t in
    let kept = splice_lines (d ∷ t) in if nat_eq c 92 && nat_eq d 10 then joined else c ∷ kept

-- A match of `_COMMENTS`: a literal, which is kept, or a comment.
unfoldable pub literal_match : Text → Match
unfolding literal
literal_match text = or_else (literal 34 text) (literal 39 text)

unfoldable pub comment_match : Text → Match
unfolding block_comment line_comment
comment_match text = or_else (block_comment text) (line_comment text)

-- `_COMMENTS.sub(lambda match: match.group(1) or ' ', text)`
unfoldable pub blank_comments : ℕ → Text → Text
unfolding literal_match comment_match
blank_comments fuel [] = []
blank_comments zero (c ∷ cs) = []
blank_comments (suc fuel) (c ∷ cs) = elim (literal_match (c ∷ cs)) [
  | some (taken, rest) ↦ taken ++ blank_comments fuel rest
  | none ↦ elim (comment_match (c ∷ cs)) [
    | some (taken, rest) ↦ 32 ∷ blank_comments fuel rest
    | none ↦ c ∷ blank_comments fuel cs
  ]
]

-- `text.splitlines()`: the ends of lines, of which a return with a line feed is one.
abbrev ends_line : ℕ → Bool
ends_line c =
    (leb 10 c && leb c 13)
    || ((leb 28 c && leb c 30) || (nat_eq c 133 || (nat_eq c 8232 || nat_eq c 8233)))

abbrev on_first : ℕ → List Text → List Text
on_first c [] = (c ∷ []) ∷ []
on_first c (line ∷ lines) = (c ∷ line) ∷ lines

unfoldable pub split_lines : Text → List Text
split_lines [] = []
split_lines (c ∷ []) = if ends_line c then [] ∷ [] else (c ∷ []) ∷ []
split_lines (c ∷ d ∷ t) =
    let after_pair = split_lines t in
    let rest = split_lines (d ∷ t) in
    if nat_eq c 13 && nat_eq d 10
    then [] ∷ after_pair
    else if ends_line c
    then [] ∷ rest
    else on_first c rest

unfoldable pub drop_spaces : Classes → Text → Text
unfolding is_space
drop_spaces classes [] = []
drop_spaces classes (c ∷ t) =
    let rest = drop_spaces classes t in if is_space classes c then rest else c ∷ t

unfoldable pub drop_end : Classes → Text → Text
unfolding is_space
drop_end classes [] = []
drop_end classes (c ∷ t) =
    let rest = drop_end classes t in if is_space classes c && rest == [] then [] else c ∷ rest

unfoldable pub strip : Classes → Text → Text
unfolding drop_spaces drop_end
strip classes t = drop_end classes (drop_spaces classes t)

-- The groups of a match of `_MACRO`.
pub record Directive : Type 0 where
  pub undefines : Bool
  pub name : Text
  pub body : Text

-- After the action: `\s+([A-Za-z_]\w*)\b(.*)$`. A line has no line feed, so `.*` is all the rest.
unfoldable pub named : Classes → Bool → Text → Option Directive
unfolding is_space drop_spaces is_letter word
named classes undefines [] = none
named classes undefines (c ∷ t) = elim (drop_spaces classes t) [
  | [] ↦ none
  | d ∷ rest ↦
      let (taken, body) = word classes rest in
      if is_space classes c && is_letter d
      then some (record { undefines = undefines; name = d ∷ taken; body = body })
      else none
]

unfoldable pub action : Classes → Text → Option Directive
unfolding starts_with named
action classes t =
    if starts_with (codes "define") t
    then named classes false (drop 6 t)
    else if starts_with (codes "undef") t
    then named classes true (drop 5 t)
    else none

-- `_MACRO.match(line)`
unfoldable pub directive : Classes → Text → Option Directive
unfolding drop_spaces action
directive classes line = elim (drop_spaces classes line) [
  | [] ↦ none
  | c ∷ t ↦ if nat_eq c b'#' then action classes (drop_spaces classes t) else none
]

-- What a header says of a macro: its replacement, or that it is undefined.
pub record Macro : Type 0 where
  pub is_function : Bool
  pub replacement : Text

abbrev pub MacroState : Type 0
MacroState = Dict Text (Option Macro)

unfoldable pub apply_directive : Classes → Directive → MacroState → Result Reason MacroState
unfolding strip assign starts_with
apply_directive classes d state =
    if d.undefines
    then (if strip classes d.body == []
        then ok (assign d.name none state)
        else err unsupported_undef)
    else ok (
        assign d.name
          (some (record {
            is_function = starts_with (codes "(") d.body;
            replacement = strip classes d.body;
          }))
          state)

unfoldable pub header_line : Classes → Text → MacroState → Result Reason MacroState
unfolding directive apply_directive starts_with strip drop_spaces
header_line classes line state = elim (directive classes line) [
  | some d ↦ apply_directive classes d state
  | none ↦
      if starts_with (codes "#") (drop_spaces classes line)
      then err (unsupported_directive (strip classes line))
      else if strip classes line == []
      then ok state
      else err unsupported_content
]

unfoldable pub header_lines : Classes → List Text → MacroState → Result Reason MacroState
unfolding header_line
header_lines classes [] state = ok state
header_lines classes (line ∷ lines) state =
    header_line classes line state >>= header_lines classes lines

-- The text of a header without line splices and comments.
unfoldable pub clean : Text → Text
unfolding splice_returns splice_lines blank_comments
clean text = let t = splice_lines (splice_returns text) in blank_comments (length t) t

unfoldable pub definitions : Host → Text → Result Reason (MacroState × Text)
unfolding decode_strict clean split_lines header_lines
definitions host path = elim (host.read_bytes path) [
  | none ↦ err os_error
  | some raw ↦ decode_strict raw >>= λ text.
      header_lines host.classes (split_lines (clean text)) [] >>= λ state.
      ok (state, host.sha256 raw)
]

-- `\w+_API\Z`
unfoldable pub is_api : Classes → Text → Bool
unfolding is_word every starts_with
is_api classes [] = false
is_api classes (c ∷ t) = is_word classes c && (t == codes "_API" || is_api classes t)

-- Whether a macro belongs to the context.
unfoldable pub is_semantic : Classes → Text × Option Macro → Bool
unfolding is_api
is_semantic classes (name, none) = true
is_semantic classes (name, some m) =
    not (is_api classes name) || (m.is_function || not (m.replacement == []))

abbrev macro_json : Option Macro → Json
macro_json none = null
macro_json (some m) = object (
    fields_of
      ((codes "function", bool m.is_function) ∷ (codes "replacement", string m.replacement) ∷ []))

unfoldable pub context : Host → Entry → List Text → MacroState → Text
unfolding json array_of strings fields_of keep_if is_semantic
context host entry common state =
    let semantic = map (λ p. (p.0, macro_json p.1)) (keep_if (is_semantic host.classes) state) in
    json (
      array (array_of (string entry.directory ∷ strings common ∷ object (fields_of semantic) ∷ [])))
