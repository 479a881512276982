-- ===== src/TierMerge/Superset/Files.antt =====
-- What it says of a file that `graph_superset` finds no violation in it.
use nvim_dot_files.Prelude.{
  ℕ, ◌≡◌, ◌≤◌, ◌⊎◌, refl, ap, sym, nat_eq_iff, Bool, true, false, List, [], ◌∷◌, ◌++◌, some, All,
  if◌then◌else◌, Bool-cases, Option-cases, inl, inr, arith, Eq-number, Eq-list, Eq-pair, ◌==◌,
  beq_eq, ltb, and_both,
}
use nvim_dot_files.Prelude.Sets.{
  mem, some_of, adjoin, mem-adjoin, mem_of_some_of, some_of-mem, same_set-mem,
}
use nvim_dot_files.Prelude.Dicts.{at, revise, option_or, at-revise}
use nvim_dot_files.Prelude.Dicts.{Dict}
use nvim_dot_files.IndexGraph.Reader.{Text}
use nvim_dot_files.IndexGraph.Shard.{Symbol, Ref}
use nvim_dot_files.IndexGraph.Key.{Key}
use nvim_dot_files.IndexGraph.Key.Compare.{Eq-key}
use nvim_dot_files.IndexGraph.Key.Injective.{location_key-injective}
use nvim_dot_files.IndexGraph.Canonical.{Graph, FileEntry, is_empty}
use nvim_dot_files.TierMerge.Superset.{
  Violation, same_node, Sites, site_of, sites_loop, MacroSites, is_target, refs_loop, count,
  exceeds, relations_of, file_violations, files_loop, graphs_loop,
}

abbrev pub Any {ℓ} : {A : Type ℓ} → (A → Type 0) → List A → Type 0
Any P [] = ⊥
Any P (x ∷ xs) = P x ⊎ Any P xs

pub append_empty {ℓ} : {A : Type ℓ} (xs ys : List A) → xs ++ ys ≡ [] → (xs ≡ []) × (ys ≡ [])
append_empty [] ys h = (refl, h)
append_empty (x ∷ xs) ys h = cc

pub empty_of_is_empty : {A : Type 0} (xs : List A) → is_empty xs ≡ true → xs ≡ []
empty_of_is_empty [] h = refl
empty_of_is_empty (x ∷ xs) h = cc

-- `sites` holds the symbols of the references at each site.
Any-of_sites :
    (refs : List Ref) (sites : Sites) (site : Key × ℕ) (id : Text)
    → mem id (option_or [] (at site (sites_loop refs sites))) ≡ true
    → (mem id (option_or [] (at site sites)) ≡ true)
      ⊎ Any (λ (r : Ref). (site_of r ≡ site) × (r.symbol_id ≡ id)) refs
unfolding sites_loop mem
Any-of_sites [] sites site id h = inl h
Any-of_sites (r ∷ refs) sites site id h =
    elim (Any-of_sites refs (revise (site_of r) [] (adjoin r.symbol_id) sites) site id h) [
      | inr later ↦ inr (inr later)
      | inl before ↦
          let b = rw (at-revise site (site_of r) [] (adjoin r.symbol_id) sites) at before in
          elim (Bool-cases (site == site_of r)) [
            | inr other ↦ inl (rw other at b)
            | inl same ↦
                let e : site ≡ site_of r = beq_eq site (site_of r) same in
                elim (Bool-cases (id == r.symbol_id)) [
                  | inl here ↦
                      let f : id ≡ r.symbol_id = beq_eq id r.symbol_id here in
                      inr (inl (cc e, cc f))
                  | inr not_here ↦ inl (
                      ground (
                        arith,
                        mem-adjoin id r.symbol_id (option_or [] (at site sites)),
                        rw same at b,
                        not_here,
                      ))
                ]
          ]
    ]

-- The candidate has a reference of the kind at the place, to the symbol or to one that may stand for it.
abbrev pub RefKept : MacroSites → Dict Text (List Symbol) → List Ref → Ref → Type 0
RefKept macros new_symbols refs r =
    Any
      (λ (s : Ref).
        (s.location ≡ r.location)
        × (s.kind ≡ r.kind)
        × (is_target macros new_symbols r s.symbol_id ≡ true))
      refs

Any-map : {P Q : Ref → Type 0} (refs : List Ref) → ((r : Ref) → P r → Q r) → Any P refs → Any Q refs
Any-map [] f h = h
Any-map (r ∷ refs) f (inl here) = inl (f r here)
Any-map (r ∷ refs) f (inr later) = inr (Any-map refs f later)

kept_at :
    (macros : MacroSites) (new_symbols : Dict Text (List Symbol)) (new : List Ref) (r : Ref)
    (id : Text)
    → is_target macros new_symbols r id ≡ true
    → (mem id (option_or [] (at (site_of r) [])) ≡ true)
      ⊎ Any (λ (s : Ref). (site_of s ≡ site_of r) × (s.symbol_id ≡ id)) new
    → RefKept macros new_symbols new r
unfolding mem at
kept_at macros new_symbols new r id t (inl absent) = cc
kept_at macros new_symbols new r id t (inr there) =
    Any-map new
      (λ s p. (
        location_key-injective s.location r.location (ap (λ (q : Key × ℕ). q.0) p.0),
        ap (λ (q : Key × ℕ). q.1) p.0,
        rw p.1 t,
      ))
      there

refs_loop_inv :
    (macros : MacroSites) (new_symbols : Dict Text (List Symbol)) (uri : Text) (new old : List Ref)
    → refs_loop macros new_symbols (sites_loop new []) uri old ≡ []
    → All (RefKept macros new_symbols new) old
unfolding refs_loop
refs_loop_inv macros new_symbols uri new [] h = tt
refs_loop_inv macros new_symbols uri new (r ∷ old) h =
    let alternatives = option_or [] (at (site_of r) (sites_loop new [])) in
    elim (Bool-cases (is_empty alternatives)) [
      | inl none_there ↦ cc (rw none_there at h)
      | inr some_there ↦
          let h₁ = rw some_there at h in
          elim (Bool-cases (some_of (is_target macros new_symbols r) alternatives)) [
            | inr unresolved ↦ cc (rw unresolved at h₁)
            | inl resolved ↦
                let (id, m, t) =
                  mem_of_some_of (is_target macros new_symbols r) alternatives resolved in
                (
                  kept_at macros new_symbols new r id t (Any-of_sites new [] (site_of r) id m),
                  refs_loop_inv macros new_symbols uri new old (rw resolved at h₁),
                )
          ]
    ]

count-absent : (k : Key) (old : List Key) → mem k old ≡ false → count k old ≡ 0
unfolding count mem
count-absent k [] h = refl
count-absent k (j ∷ old) h = ground (arith, count-absent k old)

exceeds_inv : (old new : List Key) → exceeds old new ≡ false → (k : Key) → count k old ≤ count k new
unfolding exceeds
exceeds_inv old new h k = elim (Bool-cases (mem k old)) [
  | inr absent ↦ omega (arith, count-absent k old absent)
  | inl there ↦ elim (Bool-cases (ltb (count k new) (count k old))) [
    | inl more ↦ cc (h, some_of-mem (λ (j : Key). ltb (count j new) (count j old)) old k there more)
    | inr not_more ↦ ground arith
  ]
]

-- What the candidate has at a file of an original graph.
pub record FileKept (macros : MacroSites) (new_symbols : Dict Text (List Symbol))
    (old new : FileEntry) : Type 0 where
  pub digest : new.source.digest ≡ old.source.digest
  pub flags : new.source.flags ≡ old.source.flags
  pub includes :
      (uri : Text) → mem uri new.source.direct_includes ≡ mem uri old.source.direct_includes
  pub refs : All (RefKept macros new_symbols new.refs) old.refs
  pub relations : (k : Key) → count k (relations_of old) ≤ count k (relations_of new)

when_empty : (b : Bool) (v : Violation) → (if b then v ∷ [] else []) ≡ [] → b ≡ false
when_empty true v h = cc
when_empty false v h = refl

unless_empty : (b : Bool) (v : Violation) → (if b then [] else v ∷ []) ≡ [] → b ≡ true
unless_empty true v h = refl
unless_empty false v h = cc

file_violations_inv :
    (macros : MacroSites) (new_symbols : Dict Text (List Symbol)) (uri : Text) (old new : FileEntry)
    → file_violations macros new_symbols uri old new ≡ []
    → FileKept macros new_symbols old new
unfolding file_violations same_node
file_violations_inv macros new_symbols uri old new h =
    let (node, rest) = append_empty _ _ h in
    let (refs, more) = append_empty _ _ rest in
    let same = unless_empty _ _ node in
    let (digest, others) = and_both _ _ same in
    let (flags, includes) = and_both _ _ others in
    record {
      digest = sym (beq_eq old.source.digest new.source.digest digest);
      flags = sym ((nat_eq_iff old.source.flags new.source.flags).0 flags);
      includes =
          λ u. sym (same_set-mem old.source.direct_includes new.source.direct_includes u includes);
      refs = refs_loop_inv macros new_symbols uri new.refs old.refs refs;
      relations = exceeds_inv (relations_of old) (relations_of new) (when_empty _ _ more);
    }

-- What holds of each file of the original graphs that the candidate has too.
abbrev pub GraphKept : MacroSites → Dict Text (List Symbol) → Graph → Graph → Type 0
GraphKept macros new_symbols candidate [] = Unit
GraphKept macros new_symbols candidate ((uri, old) ∷ graph) =
    ((new : FileEntry) → at uri candidate ≡ some new → FileKept macros new_symbols old new)
    × GraphKept macros new_symbols candidate graph

files_loop_inv :
    (macros : MacroSites) (new_symbols : Dict Text (List Symbol)) (candidate graph : Graph)
    → files_loop macros new_symbols candidate graph ≡ []
    → GraphKept macros new_symbols candidate graph
unfolding files_loop
files_loop_inv macros new_symbols candidate [] h = tt
files_loop_inv macros new_symbols candidate ((uri, old) ∷ graph) h =
    elim (Option-cases (at uri candidate)) [
      | inl missing ↦ (
        λ new there. cc (missing, there),
        files_loop_inv macros new_symbols candidate graph (rw (missing, files_loop) at h),
      )
      | inr (new, there) ↦
          let (here, rest) = append_empty _ _ (rw (there, files_loop) at h) in
          let kept = file_violations_inv macros new_symbols uri old new here in
          (
            λ other e. let same : new ≡ other = cc (there, e) in rw (← same) kept,
            files_loop_inv macros new_symbols candidate graph rest,
          )
    ]

pub graphs_loop_inv :
    (macros : MacroSites) (new_symbols : Dict Text (List Symbol)) (candidate : Graph)
    (graphs : List Graph)
    → graphs_loop macros new_symbols candidate graphs ≡ []
    → All (GraphKept macros new_symbols candidate) graphs
unfolding graphs_loop
graphs_loop_inv macros new_symbols candidate [] h = tt
graphs_loop_inv macros new_symbols candidate (graph ∷ graphs) h =
    let (here, rest) = append_empty _ _ h in
    (
      files_loop_inv macros new_symbols candidate graph here,
      graphs_loop_inv macros new_symbols candidate graphs rest,
    )
