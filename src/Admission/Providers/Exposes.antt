-- ===== src/Admission/Providers/Exposes.antt =====
-- What `_valid_providers` requires of a header suggestion that the original units do not make.
use nvim_dot_files.Prelude.{ℕ, ◌≡◌, ◌⊎◌, Bool, true, List, [], ◌∷◌, none, some, Eq-number, Eq-list}
use nvim_dot_files.Prelude.Sets.{mem}
use nvim_dot_files.Prelude.Dicts.{Dict, at, is_some}
use nvim_dot_files.IndexGraph.Reader.{Text}
use nvim_dot_files.Admission.Closure.Reaches.{Reaches}
use nvim_dot_files.Admission.Providers.{Evidence, sites, Context}

abbrev pub Any {ℓ} : {A : Type ℓ} → (A → Type 0) → List A → Type 0
Any P [] = ⊥
Any P (x ∷ xs) = P x ⊎ Any P xs

-- In one original graph the header is a file, and reaches by includes a file that declares the symbol,
-- or defines it where `body` is set.
abbrev pub Exposes : Text → Text → Bool → Context → Type 0
Exposes sid header body (graph, evidence) =
    (is_some (at header graph) ≡ true)
    × ((v : Evidence) × (file : Text) × (at sid evidence ≡ some v)
        × (mem file (sites body v) ≡ true)
        × Reaches graph header file)

-- What is required of each header of the candidate.
abbrev Allowed : List Context → Text → Bool → Dict Text ℕ → Text → ℕ → Type 0
Allowed contexts sid body old header directives =
    (at header old ≡ some directives)
    ⊎ ((at header old ≡ none) × Any (Exposes sid header body) contexts)
