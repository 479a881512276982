-- ===== src/TierMerge/Tests.antt =====
-- `graph_superset` and `file_definitions` on small inputs, and the theorems at them.
use nvim_dot_files.Prelude.{ℕ, ◌≡◌, refl, true, false, List, [], ◌∷◌, ◌++◌, some, map, arith}
use nvim_dot_files.Prelude.Texts.{Text, codes}
use nvim_dot_files.IndexGraph.Reader.{Location}
use nvim_dot_files.IndexGraph.Shard.{Symbol, Ref}
use nvim_dot_files.IndexGraph.Key.{location_key}
use nvim_dot_files.IndexGraph.Key.Compare.{key_beq}
use nvim_dot_files.IndexGraph.Canonical.{Graph}
use nvim_dot_files.TierMerge.Tokens.{Classes, tokens}
use nvim_dot_files.Prelude.Sets.{mem}
use nvim_dot_files.ShardSeed.{contains}
use nvim_dot_files.TierMerge.Tokens.Written.{
  Ignored, raw_of, string_of, itself, escaped, write, IsIgnored,
}
use nvim_dot_files.TierMerge.Tokens.Passed.{tokens-write}
use nvim_dot_files.TierMerge.Definitions.{
  namespace, Screen, opened, other, declaration, screen, file_definitions,
}
use nvim_dot_files.TierMerge.Definitions.Blocks.{screen-block}
use nvim_dot_files.TierMerge.Superset.{graph_superset, without_files, ref_target_unresolved}
use nvim_dot_files.TierMerge.Superset.Sound.{IsSuperset, graph_superset-IsSuperset}

abbrev ascii : Classes
ascii = record { wide_word = λ c. false; wide_space = λ c. false }

source_names :
    file_definitions ascii (
      codes
        "namespace A { /* class Z { */ static int f(int x) { class C { }; } class B { int y; }; }")
    ≡ codes "A::f" ∷ codes "A::B" ∷ []
unfolding file_definitions
source_names = refl

-- R"x( ) )x", whose body has a parenthesis, and "a\"b".
abbrev raw_literal_text : Ignored
raw_literal_text = raw_of (codes "x") (codes " ) ")

abbrev quoted_text : Ignored
quoted_text = string_of (itself b'a' ∷ escaped 34 ∷ itself b'b' ∷ [])

quoted_text-write : write quoted_text ≡ 34 ∷ b'a' ∷ 92 ∷ 34 ∷ b'b' ∷ 34 ∷ []
quoted_text-write = refl

raw-IsIgnored : IsIgnored raw_literal_text
unfolding mem contains
raw-IsIgnored = ((refl, tt), omega arith, refl)

tokens_of_raw : tokens ascii (write raw_literal_text ++ codes ";") ≡ codes ";" ∷ []
unfolding tokens
tokens_of_raw = refl

tokens-write_example : tokens ascii (write quoted_text ++ codes " ;") ≡ tokens ascii (codes " ;")
tokens-write_example =
    tokens-write ascii quoted_text (codes " ;") ((refl, refl), (tt, ((refl, refl), tt)))

-- `static int f ( )`, before its body.
abbrev before_body : Screen
before_body = record {
  names = [];
  scopes = namespace (codes "A") ∷ [];
  statement = codes "static" ∷ codes "int" ∷ codes "f" ∷ codes "(" ∷ codes ")" ∷ [];
}

abbrev body : List Text
body = codes "class" ∷ codes "C" ∷ codes "{" ∷ codes "}" ∷ codes ";" ∷ []

opens_block : opened before_body ≡ other
unfolding opened
opens_block = refl

screen-block_example :
    screen ascii (codes "{" ∷ body ++ codes "}" ∷ []) before_body
    ≡ screen ascii [] (record {
      names = (declaration ascii true before_body).names;
      scopes = before_body.scopes;
      statement = [];
    })
screen-block_example = screen-block ascii body [] before_body opens_block refl

abbrev place : ℕ → Location
place row = record { uri = codes "file:///a.h"; start = (row, 4); end = (row, 7) }

abbrev foo : ℕ → Symbol
foo documented = record {
  id = codes "0000000000000001";
  kind = 12;
  language = 1;
  name = codes "foo";
  scope = [];
  template_specialization_args = [];
  definition = place 3;
  canonical_declaration = place 1;
  references = documented;
  flags = 0;
  signature = codes "()";
  completion_snippet_suffix = [];
  documentation = [];
  return_type = [];
  type = [];
  include_headers = [];
}

abbrev ref_at : ℕ → Text → Ref
ref_at row id = record { symbol_id = id; kind = 4; location = place row; container = [] }

abbrev graph : ℕ → List Ref → Graph
graph documented refs =
    (
      codes "file:///a.h",
      record {
        symbols = foo documented ∷ [];
        refs = refs;
        relations = [];
        source = record { flags = 0; digest = codes "aa"; direct_includes = [] };
      },
    )
    ∷ []

abbrev old_graph : Graph
old_graph = graph 1 (ref_at 5 (codes "0000000000000001") ∷ [])

abbrev new_graph : Graph
new_graph = graph 2 (ref_at 5 (codes "0000000000000001") ∷ ref_at 6 (codes "0000000000000002") ∷ [])

is_accepted : (graph_superset (old_graph ∷ []) new_graph [] []).is_superset ≡ true
unfolding graph_superset location_key key_beq
is_accepted = refl

-- A reference to a symbol that the candidate does not know.
is_refused :
    (graph_superset
      (old_graph ∷ [])
      (graph 1 (ref_at 5 (codes "0000000000000009") ∷ []))
      []
      []).reason
    ≡ some (ref_target_unresolved (codes "file:///a.h"))
unfolding graph_superset location_key key_beq
is_refused = refl

graph_superset-IsSuperset_example :
    IsSuperset [] (map (without_files []) (old_graph ∷ [])) (without_files [] new_graph)
graph_superset-IsSuperset_example =
    graph_superset-IsSuperset (old_graph ∷ []) new_graph [] [] is_accepted
