-- ===== src/Admission/Collect/Union.antt =====
-- What `_collect` returns holds: the files, symbols, references and relations of all the graphs, less
-- the ignored files.
use nvim_dot_files.Prelude.{
  ℕ, ◌+◌, ◌≡◌, refl, true, false, ◌||◌, List, [], ◌∷◌, ◌++◌, map, if◌then◌else◌, Bool-cases, inl,
  inr, arith, ◌==◌, Eq, Eq-number, Eq-list,
}
use nvim_dot_files.Prelude.Result.{ok, >>=-elim-ok}
use nvim_dot_files.Prelude.Sets.{mem, mem-append}
use nvim_dot_files.Prelude.Dicts.{mem-keys-assign, mem-keys-revise, Dict, assign, revise, keys}
use nvim_dot_files.IndexGraph.Reader.{Text}
use nvim_dot_files.IndexGraph.Shard.{Symbol, Ref}
use nvim_dot_files.IndexGraph.Key.{Key, symbol_key, ref_key, relation_key}
use nvim_dot_files.IndexGraph.Key.Compare.{Eq-key}
use nvim_dot_files.IndexGraph.Canonical.{Graph, FileEntry}
use nvim_dot_files.Admission.Symbols.{is_full}
use nvim_dot_files.Admission.Collect.{
  Source, Collected, nothing, merged_source, add_symbols, add_refs, collect_file, collect_files,
  collect_graphs, collect, with_file, is_broken, has_records,
}

-- The files of a graph that are not ignored.
abbrev pub real_files : List Text → Graph → Graph
real_files ignored [] = []
real_files ignored ((uri, entry) ∷ graph) =
    if mem uri ignored then real_files ignored graph else (uri, entry) ∷ real_files ignored graph

abbrev pub all_files : List Text → List Graph → Graph
all_files ignored [] = []
all_files ignored (graph ∷ graphs) = real_files ignored graph ++ all_files ignored graphs

abbrev pub gather {ℓ} : {A : Type ℓ} → (FileEntry → List A) → Graph → List A
gather part [] = []
gather part ((uri, entry) ∷ graph) = part entry ++ gather part graph

abbrev pub uris_in : Graph → List Text
uris_in = map (λ p. p.0)

abbrev pub symbol_ids : FileEntry → List Text
symbol_ids entry = map (λ s. s.id) entry.symbols

abbrev pub ref_keys : FileEntry → List Key
ref_keys entry = map (λ r. ref_key r) entry.refs

abbrev pub relation_keys : FileEntry → List Key
relation_keys entry = map (λ r. relation_key r) entry.relations

add_symbols-mem :
    (id : Text) (added : List Symbol) (symbols : Dict Text (Dict Key Symbol))
    → mem id (keys (add_symbols added symbols))
      ≡ (mem id (map (λ s. s.id) added) || mem id (keys symbols))
unfolding add_symbols mem
add_symbols-mem id [] symbols = refl
add_symbols-mem id (s ∷ added) symbols =
    let step = revise s.id [] (assign (symbol_key s) s) symbols in
    ground (
      arith,
      add_symbols-mem id added step,
      mem-keys-revise id s.id [] (assign (symbol_key s) s) symbols,
    )

add_refs-mem :
    (uri : Text) (k : Key) (added : List Ref) (refs refs' : Dict Key Ref)
    → add_refs uri added refs ≡ ok refs'
    → mem k (keys refs') ≡ (mem k (map (λ r. ref_key r) added) || mem k (keys refs))
unfolding add_refs mem
add_refs-mem uri k [] refs refs' h = ground arith
add_refs-mem uri k (r ∷ added) refs refs' h = elim (Bool-cases (r.location.uri == uri)) [
  | inl own ↦ ground (
    arith,
    add_refs-mem uri k added (assign (ref_key r) r refs) refs' (rw own at h),
    mem-keys-assign k (ref_key r) r refs,
  )
  | inr foreign ↦ cc (rw foreign at h)
]

-- How one union grows to another by the files of a graph.
pub record Grows (files : Graph) (c c' : Collected) : Type 0 where
  pub sources :
      (uri : Text)
      → mem uri (keys c'.sources) ≡ (mem uri (uris_in files) || mem uri (keys c.sources))
  pub symbols :
      (id : Text)
      → mem id (keys c'.symbols) ≡ (mem id (gather symbol_ids files) || mem id (keys c.symbols))
  pub refs :
      (k : Key) → mem k (keys c'.refs) ≡ (mem k (gather ref_keys files) || mem k (keys c.refs))
  pub relations :
      (k : Key) → mem k c'.relations ≡ (mem k (gather relation_keys files) || mem k c.relations)

gather-append {ℓ} :
    {A : Type ℓ} ⦃e : Eq A⦄ (part : FileEntry → List A) (x : A) (f g : Graph)
    → mem x (gather part (f ++ g)) ≡ (mem x (gather part f) || mem x (gather part g))
unfolding mem
gather-append part x [] g = refl
gather-append part x ((uri, entry) ∷ f) g = ground (
  arith,
  mem-append x (part entry) (gather part f),
  mem-append x (part entry) (gather part (f ++ g)),
  gather-append part x f g,
)

uris-append :
    (x : Text) (f g : Graph) → mem x (uris_in (f ++ g)) ≡ (mem x (uris_in f) || mem x (uris_in g))
unfolding mem
uris-append x [] g = refl
uris-append x (p ∷ f) g = ground (arith, uris-append x f g)

Grows-none : (c : Collected) → Grows [] c c
unfolding mem
Grows-none c = record {
  sources = λ uri. refl;
  symbols = λ id. refl;
  refs = λ k. refl;
  relations = λ k. refl;
}

Grows-append : (f g : Graph) (a b c : Collected) → Grows f a b → Grows g b c → Grows (f ++ g) a c
Grows-append f g a b c p q = record {
  sources = λ u. ground (arith, p.sources u, q.sources u, uris-append u f g);
  symbols = λ id. ground (arith, p.symbols id, q.symbols id, gather-append symbol_ids id f g);
  refs = λ k. ground (arith, p.refs k, q.refs k, gather-append ref_keys k f g);
  relations = λ k. ground (arith, p.relations k, q.relations k, gather-append relation_keys k f g);
}

-- What a file that was taken in says: it is ignored and leaves all as it is, or it is in the union.
pub data Taken (ignored : List Text) (index : ℕ) (uri : Text) (entry : FileEntry) (c c' : Collected)
    : Type 0 where
  skipped : mem uri ignored ≡ true → c ≡ c' → Taken ignored index uri entry c c'
  joined :
      (source : Source) (refs : Dict Key Ref)
      → mem uri ignored ≡ false
      → add_refs uri entry.refs c.refs ≡ ok refs
      → with_file uri entry index source refs c ≡ c'
      → Taken ignored index uri entry c c'

pub collect_file_inv :
    (ignored : List Text) (index : ℕ) (uri : Text) (entry : FileEntry) (c c' : Collected)
    → collect_file ignored index uri entry c ≡ ok c'
    → Taken ignored index uri entry c c'
unfolding collect_file
collect_file_inv ignored index uri entry c c' h = elim (Bool-cases (is_broken entry.source)) [
  | inl broken ↦ cc (rw broken at h)
  | inr sound ↦
      let h₁ = rw sound at h in
      elim (Bool-cases (mem uri ignored)) [
        | inl skip ↦
            let h₂ = rw skip at h₁ in
            elim (Bool-cases (has_records entry)) [
              | inl full ↦ cc (rw full at h₂)
              | inr empty ↦ skipped skip (cc (rw empty at h₂))
            ]
        | inr real ↦
            >>=-elim-ok (merged_source uri entry.source c.sources) _ (rw real at h₁) λ source p h₂.
              >>=-elim-ok (add_refs uri entry.refs c.refs) _ h₂
                λ refs q h₃. joined source refs real q (cc h₃)
      ]
]

with_file-Grows :
    (index : ℕ) (uri : Text) (entry : FileEntry) (source : Source) (refs : Dict Key Ref)
    (c : Collected)
    → add_refs uri entry.refs c.refs ≡ ok refs
    → Grows ((uri, entry) ∷ []) c (with_file uri entry index source refs c)
unfolding mem
with_file-Grows index uri entry source refs c q = record {
  sources = λ u. ground (arith, mem-keys-assign u uri source c.sources);
  symbols = λ id.
      ground
        (arith, add_symbols-mem id entry.symbols c.symbols, mem-append id (symbol_ids entry) []);
  refs = λ k.
      ground (arith, add_refs-mem uri k entry.refs c.refs refs q, mem-append k (ref_keys entry) []);
  relations = λ k. ground (
    arith,
    mem-append k (relation_keys entry) c.relations,
    mem-append k (relation_keys entry) [],
  );
}

collect_file-Grows :
    (ignored : List Text) (index : ℕ) (uri : Text) (entry : FileEntry) (c c' : Collected)
    → Taken ignored index uri entry c c'
    → Grows (real_files ignored ((uri, entry) ∷ [])) c c'
collect_file-Grows ignored index uri entry c c' (skipped skip same) =
    rw (skip, ← same) (Grows-none c)
collect_file-Grows ignored index uri entry c c' (joined source refs real q same) =
    rw (real, ← same) (with_file-Grows index uri entry source refs c q)

real_files-cons :
    (ignored : List Text) (p : Text × FileEntry) (graph : Graph)
    → real_files ignored (p ∷ graph) ≡ real_files ignored (p ∷ []) ++ real_files ignored graph
real_files-cons ignored (uri, entry) graph = ground arith

collect_files-Grows :
    (ignored : List Text) (index : ℕ) (graph : Graph) (c c' : Collected)
    → collect_files ignored index graph c ≡ ok c'
    → Grows (real_files ignored graph) c c'
unfolding collect_files
collect_files-Grows ignored index [] c c' h = let same : c ≡ c' = cc h in rw (← same) (Grows-none c)
collect_files-Grows ignored index ((uri, entry) ∷ graph) c c' h =
    >>=-elim-ok (collect_file ignored index uri entry c) (collect_files ignored index graph) h
      λ b p q. rw (real_files-cons ignored (uri, entry) graph) (
        Grows-append (real_files ignored ((uri, entry) ∷ [])) (real_files ignored graph) c b c'
          (collect_file-Grows ignored index uri entry c b
            (collect_file_inv ignored index uri entry c b p))
          (collect_files-Grows ignored index graph b c' q))

collect_graphs-Grows :
    (ignored : List Text) (index : ℕ) (graphs : List Graph) (c c' : Collected)
    → collect_graphs ignored index graphs c ≡ ok c'
    → Grows (all_files ignored graphs) c c'
unfolding collect_graphs
collect_graphs-Grows ignored index [] c c' h =
    let same : c ≡ c' = cc h in rw (← same) (Grows-none c)
collect_graphs-Grows ignored index (graph ∷ graphs) c c' h = elim (Bool-cases (is_full graph)) [
  | inl full ↦
      >>=-elim-ok (collect_files ignored index graph c) (collect_graphs ignored (index + 1) graphs)
        (rw full at h)
        λ b p q.
          Grows-append (real_files ignored graph) (all_files ignored graphs) c b c'
            (collect_files-Grows ignored index graph c b p)
            (collect_graphs-Grows ignored (index + 1) graphs b c' q)
  | inr empty ↦ cc (rw empty at h)
]

pub collect_inv :
    (ignored : List Text) (graphs : List Graph) (c : Collected)
    → collect ignored graphs ≡ ok c
    → (collect_graphs ignored 0 graphs nothing ≡ ok c) × (is_full c.sources ≡ true)
unfolding collect
collect_inv ignored graphs c h = >>=-elim-ok (collect_graphs ignored 0 graphs nothing) _ h λ d p q.
    elim (Bool-cases (is_full d.sources)) [
      | inl full ↦ let same : d ≡ c = cc (rw full at q) in rw (← same) (p, full)
      | inr empty ↦ cc (rw empty at q)
    ]

-- The union that `_collect` returns has exactly the files, symbols, references and relations that
-- stand in some file of some graph that is not ignored.
pub record IsUnion (ignored : List Text) (graphs : List Graph) (c : Collected) : Type 0 where
  pub sources :
      (uri : Text) → mem uri (keys c.sources) ≡ mem uri (uris_in (all_files ignored graphs))
  pub symbols :
      (id : Text) → mem id (keys c.symbols) ≡ mem id (gather symbol_ids (all_files ignored graphs))
  pub refs : (k : Key) → mem k (keys c.refs) ≡ mem k (gather ref_keys (all_files ignored graphs))
  pub relations :
      (k : Key) → mem k c.relations ≡ mem k (gather relation_keys (all_files ignored graphs))

-- What `_collect` returns holds exactly the files, symbol ids, references and relations of the files
-- that are not ignored, in whichever graph they stand.
pub collect-IsUnion :
    (ignored : List Text) (graphs : List Graph) (c : Collected)
    → collect ignored graphs ≡ ok c
    → IsUnion ignored graphs c
unfolding mem
collect-IsUnion ignored graphs c h =
    let g = collect_graphs-Grows ignored 0 graphs nothing c (collect_inv ignored graphs c h).0 in
    record {
      sources = λ u. ground (arith, g.sources u);
      symbols = λ id. ground (arith, g.symbols id);
      refs = λ k. ground (arith, g.refs k);
      relations = λ k. ground (arith, g.relations k);
    }
