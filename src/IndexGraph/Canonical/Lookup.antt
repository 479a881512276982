-- ===== src/IndexGraph/Canonical/Lookup.antt =====
-- What stands in the canonical graph: each file's own entry, less the files that are ignored.
use nvim_dot_files.Prelude.{
  ◌≡◌, refl, ap, ◌∙◌, Bool, true, false, ◌||◌, List, [], ◌∷◌, ◌++◌, Option, none, some, Bool-cases,
  Option-cases, inl, inr, if◌then◌else◌, ◌==◌, Eq-number, Eq-list, beq_eq, arith,
}
use nvim_dot_files.Prelude.Result.{Result, ok, err, >>=-eq-ok}
use nvim_dot_files.Prelude.Sorting.{sorted_by, IsSortedBy, sorted_by-IsSortedBy}
use nvim_dot_files.IndexGraph.Reader.{Text}
use nvim_dot_files.IndexGraph.Shard.{Shard}
use nvim_dot_files.IndexGraph.Key.Compare.{text_order}
use nvim_dot_files.IndexGraph.Canonical.{
  FileEntry, Graph, GraphFault, conflicting_shards, nonempty_ignored, FileEntry-discrete, own_entry,
  entry_at, remove_at, add_entry, collect, ignore, canonical_file_graph,
}
use nvim_dot_files.IndexGraph.Canonical.Dictionary.{
  text_eq_iff, IsUnique, or_else, or_else-none, or_else_assoc, entry_at-append, IsUnique-append,
  sorted_lem, remove_at_lem, IsUnique-remove_at,
}

-- The entry of the first shard whose own file is `uri`.
unfoldable pub own_at : Text → List Shard → Option FileEntry
own_at uri [] = none
own_at uri (shard ∷ shards) =
    let rest = own_at uri shards in
    elim (own_entry shard) [ err e ↦ rest | ok (u, entry) ↦ if u == uri then some entry else rest ]

-- What `add_entry` leaves at each URI.
abbrev Adds : Text → FileEntry → Graph → Graph → Type 0
Adds uri entry graph graph' =
    (u : Text)
    → entry_at u graph' ≡ or_else (entry_at u graph) (if uri == u then some entry else none)

Adds-old :
    (uri : Text) (entry old : FileEntry) (graph : Graph)
    → entry_at uri graph ≡ some old
    → Adds uri entry graph graph
Adds-old uri entry old graph here u = elim (Bool-cases (uri == u)) [
  | inl same ↦ rw (← beq_eq uri u same) (rw here refl)
  | inr other ↦ rw other (or_else-none (entry_at u graph))
]

kept :
    (old entry : FileEntry) (graph graph' : Graph) (uri : Text) (d : Dec (old ≡ entry))
    → ◌≡◌ {A = Result GraphFault Graph}
        (elim d [ yes same ↦ ok graph | no differ ↦ err (conflicting_shards uri) ])
        (ok graph')
    → graph ≡ graph'
kept old entry graph graph' uri (yes same) e = cc
kept old entry graph graph' uri (no differ) e = cc

add_entry_lem :
    (uri : Text) (entry : FileEntry) (graph graph' : Graph)
    → IsUnique graph
    → add_entry uri entry graph ≡ ok graph'
    → IsUnique graph' × Adds uri entry graph graph'
unfolding add_entry
add_entry_lem uri entry graph graph' h e = elim (Option-cases (entry_at uri graph)) [
  | inl new ↦
      let made : graph ++ (uri, entry) ∷ [] ≡ graph' = cc (new, e) in
      rw (← made) (IsUnique-append graph uri entry h new, λ u. entry_at-append graph u uri entry)
  | inr (old, here) ↦
      let same : graph ≡ graph' =
        kept old entry graph graph' uri (FileEntry-discrete old entry)
          (rw (here, add_entry) at e) in
      rw (← same) (h, Adds-old uri entry old graph here)
]

if_or_else :
    (b : Bool) (e : FileEntry) (o : Option FileEntry)
    → or_else (if b then some e else none) o ≡ (if b then some e else o)
if_or_else true e o = refl
if_or_else false e o = refl

own_at_step :
    (u uri : Text) (entry : FileEntry) (shard : Shard) (shards : List Shard)
    → own_entry shard ≡ ok (uri, entry)
    → or_else (if uri == u then some entry else none) (own_at u shards) ≡ own_at u (shard ∷ shards)
unfolding own_at
own_at_step u uri entry shard shards owned =
    rw (owned, own_at) (if_or_else (uri == u) entry (own_at u shards))

collect_lem :
    (graph graph' : Graph) (shards : List Shard)
    → IsUnique graph
    → collect graph shards ≡ ok graph'
    → IsUnique graph'
      × ((u : Text) → entry_at u graph' ≡ or_else (entry_at u graph) (own_at u shards))
unfolding collect own_at
collect_lem graph graph' [] h e =
    let same : graph ≡ graph' = cc in
    (rw (← same) h, λ u. rw (← same) (or_else-none (entry_at u graph)))
collect_lem graph graph' (shard ∷ shards) h e =
    let ((uri, entry), owned, e₁) = >>=-eq-ok (own_entry shard) _ e in
    let (next, added, e₂) = >>=-eq-ok (add_entry uri entry graph) _ e₁ in
    let (unique, adds) = add_entry_lem uri entry graph next h added in
    let (unique', all) = collect_lem next graph' shards unique e₂ in
    (
      unique',
      λ u.
          all u
          ∙ ap (λ o. or_else o (own_at u shards)) (adds u)
          ∙ or_else_assoc (entry_at u graph) _ _
          ∙ ap (or_else (entry_at u graph)) (own_at_step u uri entry shard shards owned),
    )

-- `uri in ignore_files`
abbrev pub listed : Text → List Text → Bool
listed uri [] = false
listed uri (v ∷ uris) = v == uri || listed uri uris

guarded :
    (b : Bool) (fault : GraphFault) (r : Result GraphFault Graph) {g : Graph}
    → (if b then err fault else r) ≡ ok g
    → r ≡ ok g
guarded true fault r e = cc
guarded false fault r e = e

ignore_lem :
    (graph graph' : Graph) (uris : List Text)
    → IsUnique graph
    → ignore graph uris ≡ ok graph'
    → IsUnique graph'
      × ((u : Text) → entry_at u graph' ≡ (if listed u uris then none else entry_at u graph))
unfolding ignore
ignore_lem graph graph' [] h e = let same : graph ≡ graph' = cc in rw (← same) (h, λ u. refl)
ignore_lem graph graph' (uri ∷ uris) h e = elim (Option-cases (entry_at uri graph)) [
  | inl absent ↦
      let (unique, all) = ignore_lem graph graph' uris h (rw (absent, ignore) at e) in
      (unique, λ u. all u ∙ ground (arith, text_eq_iff uri u))
  | inr (entry, here) ↦
      let rest =
        guarded _ (nonempty_ignored uri) (ignore (remove_at uri graph) uris)
          (rw (here, ignore) at e) in
      let (unique, all) =
        ignore_lem (remove_at uri graph) graph' uris (IsUnique-remove_at uri graph h) rest in
      (unique, λ u. all u ∙ ground (arith, remove_at_lem uri u graph h))
]

-- The graph of a set of shards has, at each URI that is not ignored, the entry of the file of that URI
-- and nothing at any other; and it lists each URI once, in the order of the texts.
pub canonical_file_graph_lookup :
    (shards : List Shard) (ignored : List Text) (graph : Graph)
    → canonical_file_graph shards ignored ≡ ok graph
    → ((u : Text) → entry_at u graph ≡ (if listed u ignored then none else own_at u shards))
      × IsUnique graph
      × IsSortedBy text_order (λ (p : Text × FileEntry). p.0) graph
unfolding canonical_file_graph entry_at
canonical_file_graph_lookup shards ignored graph e =
    let (collected, e₁, f₁) = >>=-eq-ok (collect [] shards) _ e in
    let (left, e₂, f₂) = >>=-eq-ok (ignore collected ignored) _ f₁ in
    let (unique, owns) = collect_lem [] collected shards tt e₁ in
    let (unique', leaves) = ignore_lem collected left ignored unique e₂ in
    let (unique'', sorts) = sorted_lem left unique' in
    let made : sorted_by text_order (λ p. p.0) left ≡ graph = cc f₂ in
    rw (← made) (
      (λ u. sorts u ∙ leaves u ∙ ap (λ o. if listed u ignored then none else o) (owns u)),
      unique'',
      sorted_by-IsSortedBy text_order (λ (p : Text × FileEntry). p.0) left,
    )
