-- ===== src/Admission/Closure/Reaches.antt =====
-- `closure` ends, and finds exactly the files of the graph that the includes reach.
use nvim_dot_files.Prelude.{
  ℕ, zero, suc, ◌+◌, ◌≤◌, ◌≡◌, ◌↔◌, refl, Bool, true, false, not, ◌||◌, List, [], ◌∷◌, some, length,
  if◌then◌else◌, Bool-cases, Option-cases, inl, inr, arith, ◌==◌, Eq-number, Eq-list, beq_self,
  beq_eq,
}
use nvim_dot_files.Prelude.Sets.{mem, adjoin, mem-adjoin}
use nvim_dot_files.Prelude.Dicts.{at, is_some}
use nvim_dot_files.IndexGraph.Reader.{Text}
use nvim_dot_files.IndexGraph.Canonical.{Graph, FileEntry}
use nvim_dot_files.Admission.Closure.{push, closure_loop, include_count, closure}

-- The file `u` of the graph names `v` in an include.
abbrev pub Edge : Graph → Text → Text → Type 0
Edge graph u v =
    (entry : FileEntry) × (at u graph ≡ some entry) × (mem v entry.source.direct_includes ≡ true)

pub data Reaches (graph : Graph) (uri : Text) : Text → Type 0 where
  here : Reaches graph uri uri
  step : {u v : Text} → Reaches graph uri u → Edge graph u v → Reaches graph uri v

mem-push :
    (x : Text) (paths pending : List Text)
    → mem x (push paths pending) ≡ (mem x paths || mem x pending)
unfolding push mem
mem-push x [] pending = refl
mem-push x (p ∷ paths) pending = ground (arith, mem-push x paths (p ∷ pending))

length-push :
    (paths pending : List Text) → length (push paths pending) ≡ length paths + length pending
unfolding push
length-push [] pending = omega arith
length-push (p ∷ paths) pending = omega (arith, length-push paths (p ∷ pending))

-- The includes of the files that are not seen yet.
work : Graph → List Text → ℕ
work [] seen = 0
work ((uri, entry) ∷ graph) seen =
    (if mem uri seen then 0 else length entry.source.direct_includes) + work graph seen

work-start : (graph : Graph) → work graph [] ≡ include_count graph
unfolding work include_count mem
work-start [] = refl
work-start ((uri, entry) ∷ graph) = omega (arith, work-start graph)

work_mono :
    (graph : Graph) (path : Text) (seen : List Text)
    → work graph (adjoin path seen) ≤ work graph seen
unfolding work
work_mono [] path seen = omega arith
work_mono ((uri, entry) ∷ graph) path seen =
    ground (arith, mem-adjoin uri path seen, work_mono graph path seen)

work-adjoin :
    (graph : Graph) (path : Text) (seen : List Text) (entry : FileEntry)
    → at path graph ≡ some entry
    → mem path seen ≡ false
    → work graph (adjoin path seen) + length entry.source.direct_includes ≤ work graph seen
unfolding work at
work-adjoin [] path seen entry there new = cc
work-adjoin ((uri, e) ∷ graph) path seen entry there new = elim (Bool-cases (path == uri)) [
  | inl same ↦
      let same' : path ≡ uri = beq_eq path uri same in
      let found : e ≡ entry = cc (rw same at there) in
      ground
        (arith, same', found, mem-adjoin uri path seen, beq_self uri, work_mono graph path seen)
  | inr other ↦
      ground
        (arith, mem-adjoin uri path seen, work-adjoin graph path seen entry (rw other at there) new)
]

module _ (graph : Graph) (uri : Text) where
  -- The state of the loop: a file waits, is seen, or is not in the graph.
  abbrev settled : List Text → List Text → Text → Bool
  settled seen pending v = mem v pending || (mem v seen || not (is_some (at v graph)))

  record Inv (seen pending : List Text) : Type 0 where
    sound : (v : Text) → mem v seen ≡ true → Reaches graph uri v × (is_some (at v graph) ≡ true)
    queued : (v : Text) → mem v pending ≡ true → Reaches graph uri v
    closed : (u v : Text) → mem u seen ≡ true → Edge graph u v → settled seen pending v ≡ true
    source : settled seen pending uri ≡ true

  settled_skip :
      (seen pending : List Text) (path v : Text)
      → settled seen (path ∷ pending) v ≡ true
      → settled seen [] path ≡ true
      → settled seen pending v ≡ true
  unfolding mem
  settled_skip seen pending path v h p = elim (Bool-cases (v == path)) [
    | inl same ↦ rw (beq_eq v path same) (ground arith)
    | inr other ↦ ground arith
  ]

  Inv-skip :
      (seen pending : List Text) (path : Text)
      → Inv seen (path ∷ pending)
      → settled seen [] path ≡ true
      → Inv seen pending
  unfolding mem
  Inv-skip seen pending path h p = record {
    sound = h.sound;
    queued = λ v q. h.queued v (ground arith);
    closed = λ u v m edge. settled_skip seen pending path v (h.closed u v m edge) p;
    source = settled_skip seen pending path uri h.source p;
  }

  settled_visit :
      (seen pending includes : List Text) (path v : Text)
      → settled seen (path ∷ pending) v ≡ true
      → settled (adjoin path seen) (push includes pending) v ≡ true
  unfolding mem
  settled_visit seen pending includes path v h =
      ground (arith, mem-push v includes pending, mem-adjoin v path seen)

  Inv-visit :
      (seen pending : List Text) (path : Text) (entry : FileEntry)
      → Inv seen (path ∷ pending)
      → at path graph ≡ some entry
      → Inv (adjoin path seen) (push entry.source.direct_includes pending)
  unfolding mem
  Inv-visit seen pending path entry h there =
      let to_path : Reaches graph uri path = h.queued path (ground (arith, beq_self path)) in
      let includes = entry.source.direct_includes in
      record {
        sound = λ v m. elim (Bool-cases (v == path)) [
          | inl same ↦ rw (beq_eq v path same) (to_path, rw there refl)
          | inr other ↦ h.sound v (ground (arith, mem-adjoin v path seen))
        ];
        queued = λ v q. elim (Bool-cases (mem v includes)) [
          | inl named ↦ step to_path (entry, there, named)
          | inr not_named ↦ h.queued v (ground (arith, mem-push v includes pending))
        ];
        closed = λ u v m edge. elim (Bool-cases (u == path)) [
          | inl same ↦
              let (e, found, named) = edge in
              let same_entry : e ≡ entry = cc (beq_eq u path same, found, there) in
              let named' : mem v includes ≡ true = rw same_entry at named in
              ground (arith, mem-push v includes pending, named')
          | inr other ↦
              settled_visit seen pending includes path v
                (h.closed u v (ground (arith, mem-adjoin u path seen)) edge)
        ];
        source = settled_visit seen pending includes path uri h.source;
      }

  Inv-start : Inv [] (uri ∷ [])
  unfolding mem
  Inv-start = record {
    sound = λ v m. cc;
    queued = λ v q. rw (beq_eq v uri (ground arith)) here;
    closed = λ u v m edge. cc;
    source = ground (arith, beq_self uri);
  }

  loop_ends :
      (fuel : ℕ) (seen pending : List Text)
      → Inv seen pending
      → length pending + work graph seen ≤ fuel
      → (result : List Text) × (closure_loop graph fuel seen pending ≡ some result) × Inv result []
  unfolding closure_loop
  loop_ends fuel seen [] h enough = (seen, refl, h)
  loop_ends zero seen (path ∷ pending) h enough = absurd (omega arith)
  loop_ends (suc fuel) seen (path ∷ pending) h enough = elim (Bool-cases (mem path seen)) [
    | inl old ↦
        rw old
          (loop_ends fuel seen pending (Inv-skip seen pending path h (ground arith)) (omega arith))
    | inr new ↦ elim (Option-cases (at path graph)) [
      | inl missing ↦
          rw (new, missing, closure_loop)
            (loop_ends fuel seen pending (Inv-skip seen pending path h (rw missing (ground arith)))
              (omega arith))
      | inr (entry, there) ↦
          rw (new, there, closure_loop)
            (loop_ends fuel (adjoin path seen) (push entry.source.direct_includes pending)
              (Inv-visit seen pending path entry h there)
              (omega (
                arith,
                work-adjoin graph path seen entry there new,
                length-push entry.source.direct_includes pending,
              )))
    ]
  ]

  complete :
      (seen : List Text)
      → Inv seen []
      → {v : Text} → Reaches graph uri v
      → is_some (at v graph) ≡ true
      → mem v seen ≡ true
  unfolding mem
  complete seen h here there = ground (arith, h.source)
  complete seen h (step {u} {v} p edge) there =
      let (entry, found, named) = edge in
      let m : mem u seen ≡ true = complete seen h p (rw found refl) in
      ground (arith, h.closed u v m edge)

-- `closure` ends for every graph and file, and finds exactly the files of the graph that the file
-- reaches by includes, itself among them.
pub closure-Reaches :
    (graph : Graph) (uri : Text)
    → (files : List Text) × (closure graph uri ≡ some files)
      × ((v : Text) → (mem v files ≡ true) ↔ (Reaches graph uri v × (is_some (at v graph) ≡ true)))
unfolding closure
closure-Reaches graph uri =
    let (files, ends, inv) =
      loop_ends graph uri (suc (include_count graph)) [] (uri ∷ []) (Inv-start graph uri)
        (omega (arith, work-start graph)) in
    (files, ends, λ v. (inv.sound v, λ p. complete graph uri files inv p.0 p.1))
