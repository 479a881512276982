-- ===== src/Partition/Classify/Plurality.antt =====
-- `classify` takes a platform, a project and a configuration that no other has more votes than.
use nvim_dot_files.Prelude.{
  ℕ, suc, ◌+◌, ◌≡◌, ◌≤◌, ◌⊎◌, ◌∙◌, refl, true, false, List, [], ◌∷◌, Option, none, some, All, ltb,
  if◌then◌else◌, Bool-cases, Option-cases, inl, inr, arith, ◌==◌, Eq-number, Eq-list, beq_eq,
  beq_self,
}
use nvim_dot_files.Prelude.Texts.{Text}
use nvim_dot_files.Prelude.Sets.{mem}
use nvim_dot_files.Prelude.Dicts.{
  Dict, at, assign, revise, keys, option_or, at-revise, mem-keys, mem-keys-assign,
}
use nvim_dot_files.Partition.Macros.{known_cfg, macro_configuration}
use nvim_dot_files.Partition.Classify.{
  PathMatch, platform_canonical, all_paths, Votes, vote, vote_config, count_votes, target_vote,
  first_most, most_common, or_option, classify_arguments,
}

-- How often a name stands in a list of votes.
abbrev pub votes_for : Text → List Text → ℕ
votes_for name [] = 0
votes_for name (v ∷ votes) = (if name == v then 1 else 0) + votes_for name votes

-- No name has more votes.
abbrev pub IsMost : List Text → Text → Type 0
IsMost votes name =
    (mem name votes ≡ true) × ((other : Text) → votes_for other votes ≤ votes_for name votes)

tally : List Text → Dict Text ℕ → Dict Text ℕ
tally [] d = d
tally (v ∷ votes) d = tally votes (vote v d)

at-tally :
    (name : Text) (votes : List Text) (d : Dict Text ℕ)
    → option_or 0 (at name (tally votes d)) ≡ votes_for name votes + option_or 0 (at name d)
unfolding tally vote
at-tally name [] d = omega arith
at-tally name (v ∷ votes) d =
    ground (arith, at-tally name votes (revise v 0 suc d), at-revise name v 0 suc d)

-- The keys of a dictionary are distinct, and its values are positive.
abbrev IsTally : Dict Text ℕ → Type 0
IsTally [] = Unit
IsTally ((k, n) ∷ d) = (mem k (keys d) ≡ false) × ((1 ≤ n) × IsTally d)

still_new :
    (k : Text) (n : ℕ) (j : Text) (d : Dict Text ℕ)
    → mem j (keys d) ≡ false
    → (k == j) ≡ false
    → mem j (keys (assign k n d)) ≡ false
still_new k n j d new other = elim (Bool-cases (j == k)) [
  | inr apart ↦ rw (mem-keys-assign j k n d, apart, new) refl
  | inl same ↦ let e : (k == j) ≡ true = rw (beq_eq j k same) (beq_self k) in cc (other, e)
]

assign-IsTally : (k : Text) (n : ℕ) (d : Dict Text ℕ) → 1 ≤ n → IsTally d → IsTally (assign k n d)
unfolding assign mem
assign-IsTally k n [] p h = (refl, (p, tt))
assign-IsTally k n ((j, m) ∷ d) p (new, (q, rest)) = elim (Bool-cases (k == j)) [
  | inl same ↦ rw same (new, (p, rest))
  | inr other ↦ rw other (still_new k n j d new other, (q, assign-IsTally k n d p rest))
]

tally-IsTally : (votes : List Text) (d : Dict Text ℕ) → IsTally d → IsTally (tally votes d)
unfolding tally vote revise
tally-IsTally [] d h = h
tally-IsTally (v ∷ votes) d h = tally-IsTally votes _ (assign-IsTally v _ d (omega arith) h)

-- An entry is what the dictionary has at its key.
IsTally-All :
    (P : Text × ℕ → Type 0) (d : Dict Text ℕ)
    → IsTally d
    → ((k : Text) (n : ℕ) → at k d ≡ some n → P (k, n))
    → All P d
unfolding at
IsTally-All P [] h f = tt
IsTally-All P ((k, n) ∷ d) (new, (p, rest)) f = (
  f k n (rw (beq_self k) refl),
  IsTally-All P d rest (λ j m e. f j m (elim (Bool-cases (j == k)) [
    | inr other ↦ rw other e
    | inl same ↦
        let gone : mem j (keys d) ≡ false = rw (beq_eq j k same) new in
        cc (rw e at (rw (mem-keys j d) at gone))
  ])),
)

All-at_number :
    (P : Text × ℕ → Type 0) (k : Text) (d : Dict Text ℕ) (n : ℕ)
    → All P d
    → at k d ≡ some n
    → P (k, n)
unfolding at
All-at_number P k [] n h e = cc
All-at_number P k ((j, m) ∷ d) n (here, rest) e = elim (Bool-cases (k == j)) [
  | inl same ↦ let found : m ≡ n = cc (rw same at e) in rw (beq_eq k j same, ← found) here
  | inr other ↦ All-at_number P k d n rest (rw other at e)
]

-- What `first_most` returns has its number, and none has more.
first_most_lem :
    (P : Text × ℕ → Type 0) (name : Text) (n : ℕ) (d : Dict Text ℕ)
    → P (name, n)
    → All P d
    → (m : ℕ) × P (first_most name n d, m) × (n ≤ m) × All (λ (e : Text × ℕ). e.1 ≤ m) d
unfolding first_most
first_most_lem P name n [] p h = (n, p, omega arith, tt)
first_most_lem P name n ((other, k) ∷ d) p (q, rest) = elim (Bool-cases (ltb n k)) [
  | inl more ↦
      let (m, r, le, all) = first_most_lem P other k d q rest in
      rw (more, first_most) (m, r, ground arith, (le, all))
  | inr less ↦
      let (m, r, le, all) = first_most_lem P name n d p rest in
      rw (less, first_most) (m, r, le, (ground arith, all))
]

mem_of_votes : (name : Text) (votes : List Text) → 1 ≤ votes_for name votes → mem name votes ≡ true
unfolding mem
mem_of_votes name [] h = absurd (omega arith)
mem_of_votes name (v ∷ votes) h = ground (arith, mem_of_votes name votes)

positive : (d : Dict Text ℕ) → IsTally d → All (λ (e : Text × ℕ). 1 ≤ e.1) d
positive [] h = tt
positive ((k, n) ∷ d) (new, (p, rest)) = (p, positive d rest)

no_votes : (votes : List Text) → tally votes [] ≡ [] → votes ≡ []
unfolding at
no_votes [] e = refl
no_votes (v ∷ votes) e =
    let counted : option_or 0 (at v []) ≡ votes_for v (v ∷ votes) + option_or 0 (at v []) =
      rw e at (at-tally v (v ∷ votes) []) in
    absurd (ground (arith, beq_self v, counted))

-- What is known of an entry of the tally.
abbrev Counted : List Text → Text × ℕ → Type 0
Counted votes (k, n) = (n ≡ votes_for k votes) × (1 ≤ n)

tally-Counted :
    (votes : List Text) (d : Dict Text ℕ) → tally votes [] ≡ d → IsTally d → All (Counted votes) d
unfolding at
tally-Counted votes d e h = IsTally-All (Counted votes) d h λ k n there.
    let total : option_or 0 (at k d) ≡ votes_for k votes + 0 = rw e at (at-tally k votes []) in
    (omega (arith, rw there at total), All-at_number (λ e. 1 ≤ e.1) k d n (positive d h) there)

votes_bounded :
    (votes : List Text) (d : Dict Text ℕ) (m : ℕ)
    → tally votes [] ≡ d
    → All (λ (e : Text × ℕ). e.1 ≤ m) d
    → (other : Text) → votes_for other votes ≤ m
unfolding at
votes_bounded votes d m e all other =
    let total : option_or 0 (at other d) ≡ votes_for other votes + 0 =
      rw e at (at-tally other votes []) in
    elim (Option-cases (at other d)) [
      | inl absent ↦ omega (arith, rw absent at total)
      | inr (n, there) ↦
          omega (arith, rw there at total, All-at_number (λ e. e.1 ≤ m) other d n all there)
    ]

-- The most common name of a tally.
abbrev Chosen : List Text → Option Text → Type 0
Chosen votes o = ((votes ≡ []) × (o ≡ none)) ⊎ ((name : Text) × (o ≡ some name) × IsMost votes name)

most_common_of :
    (votes : List Text) (d : Dict Text ℕ)
    → tally votes [] ≡ d
    → IsTally d
    → Chosen votes (most_common d)
unfolding most_common
most_common_of votes [] e h = inl (no_votes votes e, refl)
most_common_of votes ((k, n) ∷ d) e h =
    let (first, rest) = tally-Counted votes ((k, n) ∷ d) e h in
    let (m, counted, le, all) = first_most_lem (Counted votes) k n d first rest in
    let name = first_most k n d in
    let bounded = votes_bounded votes ((k, n) ∷ d) m e (le, all) in
    inr (
      name,
      refl,
      (
        mem_of_votes name votes (omega (arith, counted.0, counted.1)),
        λ other. omega (arith, bounded other, counted.0),
      ),
    )

most_common-Chosen : (votes : List Text) → Chosen votes (most_common (tally votes []))
most_common-Chosen votes = most_common_of votes (tally votes []) refl (tally-IsTally votes [] tt)

-- The votes that the matches cast, in their order.
abbrev pub platform_votes : List PathMatch → List Text
platform_votes [] = []
platform_votes (found ∷ paths) = elim (platform_canonical found.platform) [
  | none ↦ platform_votes paths
  | some p ↦ p ∷ platform_votes paths
]

abbrev pub project_votes : List PathMatch → List Text
project_votes [] = []
project_votes (found ∷ paths) = elim (platform_canonical found.platform) [
  | none ↦ project_votes paths
  | some p ↦ found.project ∷ project_votes paths
]

abbrev known_config : Option Text → List Text → List Text
known_config none votes = votes
known_config (some c) votes = if mem c known_cfg then c ∷ votes else votes

abbrev pub config_votes : List PathMatch → List Text
config_votes [] = []
config_votes (found ∷ paths) = elim (platform_canonical found.platform) [
  | none ↦ config_votes paths
  | some p ↦ known_config found.config (config_votes paths)
]

config_tally :
    (config : Option Text) (votes : List Text) (d : Dict Text ℕ)
    → tally votes (vote_config config d) ≡ tally (known_config config votes) d
unfolding tally vote_config
config_tally none votes d = refl
config_tally (some c) votes d = elim (Bool-cases (mem c known_cfg)) [
  | inl there ↦ rw there refl
  | inr absent ↦ rw absent refl
]

-- The three counters count the votes.
count_votes_lem :
    (paths : List PathMatch) (v : Votes)
    → ((count_votes paths v).platforms ≡ tally (platform_votes paths) v.platforms)
      × ((count_votes paths v).projects ≡ tally (project_votes paths) v.projects)
      × ((count_votes paths v).configs ≡ tally (config_votes paths) v.configs)
unfolding count_votes tally
count_votes_lem [] v = (refl, refl, refl)
count_votes_lem (found ∷ paths) v = elim (Option-cases (platform_canonical found.platform)) [
  | inl unknown ↦
      rw (unknown, count_votes, platform_votes, project_votes, config_votes)
        (count_votes_lem paths v)
  | inr (p, known) ↦
      let next : Votes = record {
        platforms = vote p v.platforms;
        projects = vote found.project v.projects;
        configs = vote_config found.config v.configs;
      } in
      let (a, b, c) = count_votes_lem paths next in
      rw (known, count_votes, platform_votes, project_votes, config_votes)
        (a, b, c ∙ config_tally found.config (config_votes paths) v.configs)
]

-- A vote, or what stands for it where nothing voted.
abbrev pub Voted : List Text → Option Text → Option Text → Type 0
Voted votes fallback o =
    ((votes ≡ []) × (o ≡ fallback)) ⊎ ((name : Text) × (o ≡ some name) × IsMost votes name)

Chosen-Voted :
    (votes : List Text) (fallback o : Option Text)
    → Chosen votes o
    → Voted votes fallback (or_option o fallback)
Chosen-Voted votes fallback o (inl (empty, absent)) = rw absent (inl (empty, refl))
Chosen-Voted votes fallback o (inr (name, found, most)) = rw found (inr (name, refl, most))

tally-Chosen :
    (votes : List Text) (d : Dict Text ℕ) → d ≡ tally votes [] → Chosen votes (most_common d)
tally-Chosen votes d e = rw e (most_common-Chosen votes)

-- The platform, the project and the configuration of some arguments each have votes of the paths, and no
-- other has more; where no path votes, the platform is that of the target, there is no project, and the
-- configuration is that of the macros, which is taken too where no path names a known configuration.
pub classify_arguments-Voted :
    (args : List Text)
    → Voted (platform_votes (all_paths args)) (target_vote args) (classify_arguments args).0
      × Voted (project_votes (all_paths args)) none (classify_arguments args).1.0
      × Voted
          (config_votes (all_paths args))
          (macro_configuration args)
          (classify_arguments args).1.1
unfolding classify_arguments
classify_arguments-Voted args =
    let start : Votes = record { platforms = []; projects = []; configs = [] } in
    let (a, b, c) = count_votes_lem (all_paths args) start in
    (
      Chosen-Voted _ (target_vote args) _ (tally-Chosen (platform_votes (all_paths args)) _ a),
      tally-Chosen (project_votes (all_paths args)) _ b,
      Chosen-Voted _ (macro_configuration args) _
          (tally-Chosen (config_votes (all_paths args)) _ c),
    )
