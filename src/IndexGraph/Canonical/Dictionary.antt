-- ===== src/IndexGraph/Canonical/Dictionary.antt =====
-- The graph as a dictionary: what `entry_at` finds when entries are appended, sorted or deleted.
use nvim_dot_files.Prelude.{
  ℕ, ◌≡◌, refl, ap, ◌∙◌, true, [], ◌∷◌, ◌++◌, Option, none, some, Bool-cases, inl, inr,
  if◌then◌else◌, ◌==◌, Eq-number, Eq-list, arith,
}
use nvim_dot_files.Prelude.Sorting.{sorted_by, insert_by}
use nvim_dot_files.IndexGraph.Reader.{Text}
use nvim_dot_files.IndexGraph.Key.Compare.{text_order}
use nvim_dot_files.IndexGraph.Canonical.{FileEntry, Graph, entry_at, remove_at}

abbrev pub text_eq_iff : (a b : Text) → ((a == b) ≡ true → a ≡ b) × (a ≡ b → (a == b) ≡ true)
text_eq_iff a b = ((Eq-list {A = ℕ}).beq_iff a b)

-- No URI has two entries.
abbrev pub IsUnique : Graph → Type 0
IsUnique [] = Unit
IsUnique ((uri, e) ∷ graph) = (entry_at uri graph ≡ none) × IsUnique graph

abbrev pub or_else : Option FileEntry → Option FileEntry → Option FileEntry
or_else none o = o
or_else (some e) o = some e

pub or_else-none : (o : Option FileEntry) → o ≡ or_else o none
or_else-none none = refl
or_else-none (some e) = refl

pub or_else_assoc : (o p q : Option FileEntry) → or_else (or_else o p) q ≡ or_else o (or_else p q)
or_else_assoc none p q = refl
or_else_assoc (some e) p q = refl

pub entry_at-append :
    (graph : Graph) (u uri : Text) (e : FileEntry)
    → entry_at u (graph ++ (uri, e) ∷ [])
      ≡ or_else (entry_at u graph) (if uri == u then some e else none)
unfolding entry_at
entry_at-append [] u uri e = refl
entry_at-append ((v, d) ∷ graph) u uri e = ground (arith, entry_at-append graph u uri e)

pub IsUnique-append :
    (graph : Graph) (uri : Text) (e : FileEntry)
    → IsUnique graph
    → entry_at uri graph ≡ none
    → IsUnique (graph ++ (uri, e) ∷ [])
unfolding entry_at
IsUnique-append [] uri e h new = (refl, tt)
IsUnique-append ((v, d) ∷ graph) uri e (hv, h) new = (
  ground (arith, entry_at-append graph v uri e, text_eq_iff v uri, text_eq_iff uri v),
  IsUnique-append graph uri e h (ground arith),
)

-- Sorting a dictionary's items by their keys.
pub entry_at-insert :
    (u uri : Text) (e : FileEntry) (graph : Graph)
    → entry_at uri graph ≡ none
    → entry_at u (insert_by text_order (λ p. p.0) (uri, e) graph) ≡ entry_at u ((uri, e) ∷ graph)
unfolding insert_by entry_at
entry_at-insert u uri e [] new = refl
entry_at-insert u uri e ((v, d) ∷ graph) new =
    ground
      (arith, entry_at-insert u uri e graph, text_eq_iff uri u, text_eq_iff v u, text_eq_iff v uri)

pub IsUnique-insert :
    (uri : Text) (e : FileEntry) (graph : Graph)
    → entry_at uri graph ≡ none
    → IsUnique graph
    → IsUnique (insert_by text_order (λ p. p.0) (uri, e) graph)
unfolding insert_by entry_at
IsUnique-insert uri e [] new h = (refl, tt)
IsUnique-insert uri e ((v, d) ∷ graph) new (hv, h) = elim (Bool-cases (text_order.le uri v)) [
  | inl before ↦ rw before (new, (hv, h))
  | inr after ↦ rw after (
    entry_at-insert v uri e graph (ground arith)
        ∙ ground (arith, text_eq_iff uri v, text_eq_iff v uri),
    IsUnique-insert uri e graph (ground arith) h,
  )
]

pub sorted_lem :
    (graph : Graph)
    → IsUnique graph
    → IsUnique (sorted_by text_order (λ p. p.0) graph)
      × ((u : Text) → entry_at u (sorted_by text_order (λ p. p.0) graph) ≡ entry_at u graph)
unfolding sorted_by entry_at
sorted_lem [] h = (tt, λ u. refl)
sorted_lem ((uri, e) ∷ graph) (new, h) =
    let (unique, same) = sorted_lem graph h in
    let absent : entry_at uri (sorted_by text_order (λ p. p.0) graph) ≡ none = same uri ∙ new in
    (
      IsUnique-insert uri e _ absent unique,
      λ u. entry_at-insert u uri e _ absent ∙ ap (λ o. if uri == u then some e else o) (same u),
    )

-- `del graph[uri]`, where no URI has two entries.
pub remove_at_lem :
    (uri u : Text) (graph : Graph)
    → IsUnique graph
    → entry_at u (remove_at uri graph) ≡ (if uri == u then none else entry_at u graph)
unfolding remove_at entry_at
remove_at_lem uri u [] h = ground arith
remove_at_lem uri u ((v, d) ∷ graph) (hv, h) =
    ground (arith, text_eq_iff v uri, text_eq_iff uri u, text_eq_iff v u, remove_at_lem uri u graph)

pub IsUnique-remove_at :
    (uri : Text) (graph : Graph) → IsUnique graph → IsUnique (remove_at uri graph)
unfolding remove_at
IsUnique-remove_at uri [] h = tt
IsUnique-remove_at uri ((v, d) ∷ graph) (hv, h) = elim (Bool-cases (v == uri)) [
  | inl same ↦ rw same h
  | inr other ↦
      rw other (remove_at_lem uri v graph h ∙ ground arith, IsUnique-remove_at uri graph h)
]
