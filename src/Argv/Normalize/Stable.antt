-- ===== src/Argv/Normalize/Stable.antt =====
-- What `normalize_cdb` leaves of an entry, and what it does to its own result.
use nvim_dot_files.Prelude.{
  ℕ, suc, ◌+◌, ◌≡◌, refl, sym, ap, subst, ◌∙◌, Bool, true, List, [], ◌∷◌, some, ◌==◌, Eq-number,
  Eq-list, if◌then◌else◌, beq_eq, Bool-cases, inl, inr, arith,
}
use nvim_dot_files.Prelude.Texts.{Text}
use nvim_dot_files.Prelude.Result.{Result, ok, err, >>=-elim-ok}
use nvim_dot_files.Argv.Posix.{ArgvFault}
use nvim_dot_files.Argv.Syntax.{
  Value, null, text, scalar, array, object, Entry, get, strip, split_command_line,
}
use nvim_dot_files.Argv.Normalize.{
  file_key, arguments_key, command_key, put, nonempty, truth, arguments_of, structured, prepend,
  converted_one, arguments_of_command, normalize_entry, normalize_from, normalize_cdb,
}
use nvim_dot_files.Argv.Normalize.Entries.{
  get-pop, structured_arguments, structured_other, normalize_entry_inv, normalize_entry-structured,
}

-- What the result for a list of entries is made of.
record Split (nt : Bool) (i : ℕ) (entry : Entry) (entries out : List Entry) (n : ℕ) : Type 0 where
  first : Entry
  others : List Entry
  k : ℕ
  m : ℕ
  here : normalize_entry nt i entry ≡ ok (first, k)
  later : normalize_from nt (suc i) entries ≡ ok (others, m)
  whole : out ≡ first ∷ others
  sum : n ≡ k + m

normalize_from_inv :
    (nt : Bool) (i : ℕ) (entry : Entry) (entries out : List Entry) (n : ℕ)
    → normalize_from nt i (entry ∷ entries) ≡ ok (out, n)
    → Split nt i entry entries out n
unfolding normalize_from
normalize_from_inv nt i entry entries out n e =
    >>=-elim-ok (normalize_entry nt i entry) _ e λ first p e₁.
      >>=-elim-ok (normalize_from nt (suc i) entries) (prepend first) e₁ λ others q last. record {
        first = first.0;
        others = others.0;
        k = first.1;
        m = others.1;
        here = p;
        later = q;
        whole = cc last;
        sum = cc last;
      }

normalize_from_nil :
    (nt : Bool) (i : ℕ) (out : List Entry) (n : ℕ)
    → normalize_from nt i [] ≡ ok (out, n)
    → (out ≡ []) × (n ≡ 0)
unfolding normalize_from
normalize_from_nil nt i out n e = (cc e, cc e)

normalize_from_cons :
    (nt : Bool) (i : ℕ) (entry : Entry) (entries : List Entry) {first : Entry} {others : List Entry}
    {k m : ℕ}
    → normalize_entry nt i entry ≡ ok (first, k)
    → normalize_from nt (suc i) entries ≡ ok (others, m)
    → normalize_from nt i (entry ∷ entries) ≡ ok (first ∷ others, k + m)
unfolding normalize_from
normalize_from_cons nt i entry entries p q = rw (p, normalize_from) (rw q refl)

normalize_from_again :
    (nt : Bool) (i j : ℕ) (entries out : List Entry) (n : ℕ)
    → normalize_from nt i entries ≡ ok (out, n)
    → normalize_from nt j out ≡ ok (out, 0)
normalize_from_again nt i j [] out n e =
    let (empty, none_converted) = normalize_from_nil nt i out n e in
    subst (λ (t : List Entry). normalize_from nt j t ≡ ok (t, 0)) (sym empty)
      (unfold normalize_from in refl)
normalize_from_again nt i j (entry ∷ entries) out n e =
    let s = normalize_from_inv nt i entry entries out n e in
    let x = normalize_entry_inv nt i entry s.first s.k s.here in
    let again : normalize_entry nt j s.first ≡ ok (s.first, 0) =
      subst (λ (t : Entry). normalize_entry nt j t ≡ ok (t, 0)) (sym x.made)
        (normalize_entry-structured nt j entry x.arguments x.some_file x.some_arguments) in
    subst (λ (t : List Entry). normalize_from nt j t ≡ ok (t, 0)) (sym s.whole)
      (normalize_from_cons nt j s.first s.others again
        (normalize_from_again nt (suc i) (suc j) entries s.others s.m s.later))

-- A database that was normalised is left as it is when it is normalised again, with no entry converted.
pub normalize_cdb_again :
    (nt : Bool) (entries out : List Entry) (n : ℕ)
    → normalize_cdb nt entries ≡ ok (out, n)
    → normalize_cdb nt out ≡ ok (out, 0)
unfolding normalize_cdb
normalize_cdb_again nt entries out n e = normalize_from_again nt 0 0 entries out n e

-- The arguments are those that a command of the entry is split into.
abbrev pub IsSplit : Bool → Entry → List Text → Type 0
IsSplit nt entry arguments =
    (command : Text) × (get command_key entry ≡ text command)
    × (split_command_line nt command (some entry) ≡ ok arguments)

-- The arguments of an entry: its own list, where it has one, and else its split command.
abbrev pub AreArguments : Bool → Entry → Value → List Text → Type 0
AreArguments nt entry null arguments = IsSplit nt entry arguments
AreArguments nt entry (text t) arguments = IsSplit nt entry arguments
AreArguments nt entry (scalar t b) arguments = IsSplit nt entry arguments
AreArguments nt entry (array given) arguments = arguments ≡ given
AreArguments nt entry (object o) arguments = IsSplit nt entry arguments

-- What `normalize_cdb` makes of an entry: its arguments as a list that is not empty, and no command, with
-- every other key as it was.
pub record IsNormalized (nt : Bool) (entry out : Entry) : Type 0 where
  pub arguments : List Text
  pub given : AreArguments nt entry (get arguments_key entry) arguments
  pub some_arguments : nonempty arguments ≡ true
  pub some_file : truth (get file_key out) ≡ true
  pub values :
      (key : Text)
      → get key out ≡ (
          if arguments_key == key
          then array arguments
          else if command_key == key
          then null
          else get key entry)

abbrev pub AllNormalized : Bool → List Entry → List Entry → Type 0
AllNormalized nt [] [] = Unit
AllNormalized nt [] (o ∷ out) = ⊥
AllNormalized nt (e ∷ entries) [] = ⊥
AllNormalized nt (e ∷ entries) (o ∷ out) = IsNormalized nt e o × AllNormalized nt entries out

-- 1 for an entry without a list of arguments.
abbrev without_list : Value → ℕ
without_list null = 1
without_list (text t) = 1
without_list (scalar t b) = 1
without_list (array ts) = 0
without_list (object o) = 1

abbrev pub commands_in : List Entry → ℕ
commands_in [] = 0
commands_in (entry ∷ entries) = without_list (get arguments_key entry) + commands_in entries

converted_one_inv :
    (r : Result ArgvFault (List Text)) (arguments : List Text) (n : ℕ)
    → converted_one r ≡ ok (arguments, n)
    → n ≡ 1
converted_one_inv (ok given) arguments n e = cc e
converted_one_inv (err x) arguments n e = cc

arguments_of-count :
    (nt : Bool) (index : ℕ) (entry : Entry) (v : Value) (arguments : List Text) (n : ℕ)
    → arguments_of nt index entry v ≡ ok (arguments, n)
    → n ≡ without_list v
unfolding arguments_of
arguments_of-count nt index entry null arguments n e =
    converted_one_inv (arguments_of_command nt index entry (get command_key entry)) arguments n e
arguments_of-count nt index entry (text t) arguments n e =
    converted_one_inv (arguments_of_command nt index entry (get command_key entry)) arguments n e
arguments_of-count nt index entry (scalar t b) arguments n e =
    converted_one_inv (arguments_of_command nt index entry (get command_key entry)) arguments n e
arguments_of-count nt index entry (array ts) arguments n e = cc e
arguments_of-count nt index entry (object o) arguments n e =
    converted_one_inv (arguments_of_command nt index entry (get command_key entry)) arguments n e

command-IsSplit :
    (nt : Bool) (index : ℕ) (entry : Entry) (arguments : List Text) (n : ℕ)
    → converted_one (arguments_of_command nt index entry (get command_key entry))
      ≡ ok (arguments, n)
    → IsSplit nt entry arguments
unfolding arguments_of_command
command-IsSplit nt index entry arguments n e = go (get command_key entry) refl e
  where
    converted :
        (r : Result ArgvFault (List Text)) → converted_one r ≡ ok (arguments, n) → r ≡ ok arguments
    converted (ok given) h = let same : given ≡ arguments = cc h in ap ok same
    converted (err x) h = cc h

    go :
        (v : Value)
        → get command_key entry ≡ v
        → converted_one (arguments_of_command nt index entry v) ≡ ok (arguments, n)
        → IsSplit nt entry arguments
    go null p h = cc h
    go (scalar t b) p h = cc h
    go (array ts) p h = cc h
    go (object o) p h = cc h
    go (text command) p h = elim (Bool-cases (strip command == [])) [
      | inl blank ↦ cc (rw blank at h)
      | inr other ↦
          (command, p, converted (split_command_line nt command (some entry)) (rw other at h))
    ]

arguments_of-AreArguments :
    (nt : Bool) (index : ℕ) (entry : Entry) (v : Value) (arguments : List Text) (n : ℕ)
    → arguments_of nt index entry v ≡ ok (arguments, n)
    → AreArguments nt entry v arguments
unfolding arguments_of
arguments_of-AreArguments nt index entry null arguments n e =
    command-IsSplit nt index entry arguments n e
arguments_of-AreArguments nt index entry (text t) arguments n e =
    command-IsSplit nt index entry arguments n e
arguments_of-AreArguments nt index entry (scalar t b) arguments n e =
    command-IsSplit nt index entry arguments n e
arguments_of-AreArguments nt index entry (object o) arguments n e =
    command-IsSplit nt index entry arguments n e
arguments_of-AreArguments nt index entry (array ts) arguments n e = cc e

structured_values :
    (entry : Entry) (arguments : List Text) (key : Text)
    → get key (structured entry arguments) ≡ (
        if arguments_key == key
        then array arguments
        else if command_key == key
        then null
        else get key entry)
structured_values entry arguments key = elim (Bool-cases (arguments_key == key)) [
  | inl listed ↦ rw listed (
      ap (λ (t : Text). get t (structured entry arguments)) (sym (beq_eq arguments_key key listed))
      ∙ structured_arguments entry arguments)
  | inr other ↦ rw other (elim (Bool-cases (command_key == key)) [
    | inl command ↦ rw command (
        ap (λ (t : Text). get t (structured entry arguments)) (sym (beq_eq command_key key command))
        ∙ unfold structured in get-pop command_key (put arguments_key (array arguments) entry))
    | inr unlike ↦ rw unlike (structured_other entry arguments key other unlike)
  ])
]

normal-IsNormalized :
    (nt : Bool) (entry out : Entry) (arguments : List Text)
    → AreArguments nt entry (get arguments_key entry) arguments
    → truth (get file_key entry) ≡ true
    → nonempty arguments ≡ true
    → out ≡ structured entry arguments
    → IsNormalized nt entry out
normal-IsNormalized nt entry out arguments given file some_arguments made = rw made (record {
  arguments = arguments;
  given = given;
  some_arguments = some_arguments;
  some_file = ap truth (structured_other entry arguments file_key refl refl) ∙ file;
  values = structured_values entry arguments;
})

normalize_from-AllNormalized :
    (nt : Bool) (i : ℕ) (entries out : List Entry) (n : ℕ)
    → normalize_from nt i entries ≡ ok (out, n)
    → AllNormalized nt entries out × (n ≡ commands_in entries)
normalize_from-AllNormalized nt i [] out n e =
    let (empty, none_converted) = normalize_from_nil nt i out n e in (rw empty tt, none_converted)
normalize_from-AllNormalized nt i (entry ∷ entries) out n e =
    let s = normalize_from_inv nt i entry entries out n e in
    let x = normalize_entry_inv nt i entry s.first s.k s.here in
    let (others, count) = normalize_from-AllNormalized nt (suc i) entries s.others s.m s.later in
    let own =
      arguments_of-AreArguments nt i entry (get arguments_key entry) x.arguments s.k x.given in
    let one : s.k ≡ without_list (get arguments_key entry) =
      arguments_of-count nt i entry (get arguments_key entry) x.arguments s.k x.given in
    (
      rw s.whole (
        normal-IsNormalized nt entry s.first x.arguments own x.some_file x.some_arguments x.made,
        others,
      ),
      omega (arith, s.sum),
    )

-- Where `normalize_cdb` returns, it has made one entry of each, in order: with the entry's own list of
-- arguments, or where it had none with those that its command is split into, which are not empty; without
-- a command; and with every other key as it was. It has counted those that had no list.
pub normalize_cdb-AllNormalized :
    (nt : Bool) (entries out : List Entry) (n : ℕ)
    → normalize_cdb nt entries ≡ ok (out, n)
    → AllNormalized nt entries out × (n ≡ commands_in entries)
unfolding normalize_cdb
normalize_cdb-AllNormalized nt entries out n e = normalize_from-AllNormalized nt 0 entries out n e
