-- ===== src/Admission/Verdict.antt =====
-- The end of `compare_graphs`: the added references and the proofs that are asked for, and the whole.
pub mod Same
pub mod Inversion
pub mod Sound
use nvim_dot_files.Prelude.{
  ℕ, Bool, true, false, not, List, [], ◌∷◌, ◌++◌, Option, none, some, map, if◌then◌else◌, Eq-number,
  Eq-list,
}
use nvim_dot_files.Prelude.Result.{Result, ok, err, ◌>>=◌}
use nvim_dot_files.Prelude.Sorting.{sorted_by}
use nvim_dot_files.Prelude.Sets.{difference}
use nvim_dot_files.Prelude.Dicts.{Dict, at, keys}
use nvim_dot_files.IndexGraph.Reader.{Text}
use nvim_dot_files.IndexGraph.Shard.{Ref}
use nvim_dot_files.IndexGraph.Key.{number}
use nvim_dot_files.IndexGraph.Key.Compare.{Eq-key, key_order}
use nvim_dot_files.IndexGraph.Canonical.{Graph}
use nvim_dot_files.Admission.Symbols.{is_full}
use nvim_dot_files.Admission.Collect.{missing_key, Collected, collect}
use nvim_dot_files.Admission.Providers.{Urls}
use nvim_dot_files.Admission.Templates.{TemplateRequest, template_requests}
use nvim_dot_files.Admission.Compare.{
  AddedRef, Answer, proven, unproven, raised, Question, Resolvers, Reason,
  missing_original_tu_graphs, template_arguments_require_compiler_proof,
  template_argument_proof_failed, template_argument_identity_unproven,
  added_references_require_original_proof, original_reference_proof_failed,
  original_reference_identity_unproven, invalid_graph, Verdict, accepted, rejected, Check, caught,
  check_unions, refs_at,
}

-- The loop that fills `added`; a file that no original graph has would be a `KeyError`.
unfoldable pub add_refs_loop :
    Dict Text (List ℕ) → List Ref → List AddedRef → Result (List AddedRef) (List AddedRef)
unfolding at
add_refs_loop contexts [] added = ok added
add_refs_loop contexts (r ∷ refs) added = elim (at r.location.uri contexts) [
  | none ↦ err added
  | some indices ↦ add_refs_loop contexts refs (
      added ++ record { ref = r; original_graph_indices = sorted_by key_order number indices } ∷ [])
]

unfoldable pub question_of : AddedRef → Question
question_of a = record {
  uri = a.ref.location.uri;
  line = a.ref.location.start.0;
  column = a.ref.location.start.1;
  symbol_id = a.ref.symbol_id;
  indices = a.original_graph_indices;
}

unfoldable pub prove_refs : (Question → Answer) → List AddedRef → Check (Unit {0})
unfolding question_of
prove_refs resolve [] = ok tt
prove_refs resolve (a ∷ refs) = elim (resolve (question_of a)) [
  | proven ↦ prove_refs resolve refs
  | unproven ↦ err (original_reference_identity_unproven a)
  | raised error ↦ err (original_reference_proof_failed error)
]

unfoldable pub prove_all_refs : Option (Question → Answer) → List AddedRef → Check (Unit {0})
unfolding prove_refs
prove_all_refs none [] = ok tt
prove_all_refs none (a ∷ added) = err added_references_require_original_proof
prove_all_refs (some resolve) added = prove_refs resolve added

unfoldable pub prove_templates :
    (TemplateRequest → Answer) → List TemplateRequest → Check (Unit {0})
prove_templates resolve [] = ok tt
prove_templates resolve (request ∷ requests) = elim (resolve request) [
  | proven ↦ prove_templates resolve requests
  | unproven ↦ err (template_argument_identity_unproven request)
  | raised error ↦ err (template_argument_proof_failed error)
]

unfoldable pub prove_all_templates :
    Option (TemplateRequest → Answer) → List TemplateRequest → Check (Unit {0})
unfolding prove_templates
prove_all_templates none [] = ok tt
prove_all_templates none (r ∷ requests) =
    err (template_arguments_require_compiler_proof (r ∷ requests))
prove_all_templates (some resolve) requests = prove_templates resolve requests

unfoldable pub prove_both :
    Resolvers → List AddedRef → List TemplateRequest → Check (List TemplateRequest)
unfolding prove_all_templates prove_all_refs
prove_both resolvers added requests = do
  _ ← prove_all_templates resolvers.template_arguments requests
  _ ← prove_all_refs resolvers.original added
  ok requests

-- `accepted`, or `verdict(reason)`, with what `added` holds by then.
unfoldable pub verdict_of : List AddedRef → Check (List TemplateRequest) → Verdict
verdict_of added (ok requests) = accepted added requests
verdict_of added (err reason) = rejected reason added

unfoldable pub conclude : Resolvers → List Graph → Collected → Collected → List Text → Verdict
unfolding add_refs_loop refs_at difference template_requests prove_both verdict_of
conclude resolvers originals before after changed =
    elim (add_refs_loop before.contexts
      (refs_at (difference (keys after.refs) (keys before.refs)) after.refs) []) [
        | err added ↦ rejected (invalid_graph missing_key) added
        | ok added ↦ verdict_of added (
            prove_both resolvers added
              (if is_full changed then template_requests changed originals after.symbols else []))
      ]

-- The two unions, and the symbols of which the template arguments changed.
unfoldable pub check_graphs :
    Urls → List Graph → Graph → List Text → Check (Collected × Collected × List Text)
unfolding check_unions collect
check_graphs urls [] candidate ignored = err missing_original_tu_graphs
check_graphs urls (g ∷ originals) candidate ignored = do
  before ← caught (collect ignored (g ∷ originals))
  after ← caught (collect ignored (candidate ∷ []))
  changed ← check_unions urls (g ∷ originals) before after
  ok (before, after, changed)

unfoldable pub compare_graphs : Urls → Resolvers → List Graph → Graph → List Text → Verdict
unfolding check_graphs conclude
compare_graphs urls resolvers originals candidate ignored =
    elim (check_graphs urls originals candidate ignored) [
      | err reason ↦ rejected reason []
      | ok (before, after, changed) ↦ conclude resolvers originals before after changed
    ]
