-- ===== src/Argv/Normalize/Entries.antt =====
-- Dictionaries, and the body of the loop of `normalize_cdb` on one entry.
use nvim_dot_files.Prelude.{
  ℕ, ◌≡◌, refl, ap, ◌∙◌, Bool, true, false, not, ◌||◌, List, [], ◌∷◌, if◌then◌else◌, ◌==◌,
  Eq-number, Eq-list, beq_eq, beq_self, arith,
}
use nvim_dot_files.Prelude.Texts.{Text}
use nvim_dot_files.Prelude.Result.{Result, ok, err, >>=-elim-ok}
use nvim_dot_files.Argv.Posix.{ArgvFault, lacks_arguments}
use nvim_dot_files.Argv.Syntax.{Value, null, array, Entry, get}
use nvim_dot_files.Argv.Normalize.{
  file_key, arguments_key, command_key, put, pop, nonempty, truth, arguments_of, structured,
  finish_entry, normalize_entry,
}

clash : (k key other : Text) → (k == key) ≡ true → (key == other) ≡ false → (k == other) ≡ false
clash k key other same h = ap (λ (t : Text). t == other) (beq_eq k key same) ∙ h

get-put : (key : Text) (v : Value) (entry : Entry) → get key (put key v entry) ≡ v
unfolding get put
get-put key v [] = rw (beq_self key) refl
get-put key v ((k, w) ∷ entry) = ground (arith, get-put key v entry)

get-put_ne :
    (key other : Text) (v : Value) (entry : Entry)
    → (key == other) ≡ false
    → get other (put key v entry) ≡ get other entry
unfolding get put
get-put_ne key other v [] h = rw h refl
get-put_ne key other v ((k, w) ∷ entry) h =
    ground (arith, clash k key other, get-put_ne key other v entry h)

pub get-pop : (key : Text) (entry : Entry) → get key (pop key entry) ≡ null
unfolding get pop
get-pop key [] = refl
get-pop key ((k, w) ∷ entry) = ground (arith, get-pop key entry)

get-pop_ne :
    (key other : Text) (entry : Entry)
    → (key == other) ≡ false
    → get other (pop key entry) ≡ get other entry
unfolding get pop
get-pop_ne key other [] h = refl
get-pop_ne key other ((k, w) ∷ entry) h =
    ground (arith, clash k key other, get-pop_ne key other entry h)

pop-pop : (key : Text) (entry : Entry) → pop key (pop key entry) ≡ pop key entry
unfolding pop
pop-pop key [] = refl
pop-pop key ((k, w) ∷ entry) = ground (arith, pop-pop key entry)

put-put : (key : Text) (v : Value) (entry : Entry) → put key v (put key v entry) ≡ put key v entry
unfolding put
put-put key v [] = rw (beq_self key) refl
put-put key v ((k, w) ∷ entry) = ground (arith, put-put key v entry)

put-pop :
    (key other : Text) (v : Value) (entry : Entry)
    → (key == other) ≡ false
    → put key v (pop other entry) ≡ pop other (put key v entry)
unfolding put pop
put-pop key other v [] h = rw h refl
put-pop key other v ((k, w) ∷ entry) h =
    ground (arith, clash k key other, put-pop key other v entry h)

-- The result for an entry, as `normalize_cdb` leaves it.
pub structured_arguments :
    (entry : Entry) (arguments : List Text)
    → get arguments_key (structured entry arguments) ≡ array arguments
unfolding structured
structured_arguments entry arguments =
    get-pop_ne command_key arguments_key (put arguments_key (array arguments) entry) refl
    ∙ get-put arguments_key (array arguments) entry

pub structured_other :
    (entry : Entry) (arguments : List Text) (key : Text)
    → (arguments_key == key) ≡ false
    → (command_key == key) ≡ false
    → get key (structured entry arguments) ≡ get key entry
unfolding structured
structured_other entry arguments key h k =
    get-pop_ne command_key key (put arguments_key (array arguments) entry) k
    ∙ get-put_ne arguments_key key (array arguments) entry h

structured_twice :
    (entry : Entry) (arguments : List Text)
    → structured (structured entry arguments) arguments ≡ structured entry arguments
unfolding structured
structured_twice entry arguments =
    ap (pop command_key) (
      put-pop arguments_key command_key (array arguments)
        (put arguments_key (array arguments) entry) refl
      ∙ ap (pop command_key) (put-put arguments_key (array arguments) entry))
    ∙ pop-pop command_key (put arguments_key (array arguments) entry)

-- What an entry that was normalised is made of.
pub record Normal (nt : Bool) (index : ℕ) (entry out : Entry) (n : ℕ) : Type 0 where
  pub arguments : List Text
  pub given : arguments_of nt index entry (get arguments_key entry) ≡ ok (arguments, n)
  pub some_file : truth (get file_key entry) ≡ true
  pub some_arguments : nonempty arguments ≡ true
  pub made : out ≡ structured entry arguments

finish_entry_inv :
    (index : ℕ) (entry out : Entry) (arguments : List Text) (n m : ℕ)
    → finish_entry index entry (arguments, m) ≡ ok (out, n)
    → (truth (get file_key entry) ≡ true)
      × (nonempty arguments ≡ true)
      × (out ≡ structured entry arguments)
      × (m ≡ n)
unfolding finish_entry
finish_entry_inv index entry out arguments n m e =
    go (truth (get file_key entry)) (nonempty arguments) e
  where
    go :
        (b c : Bool)
        → ◌≡◌ {A = Result ArgvFault (Entry × ℕ)}
            (if not b || not c
              then err (lacks_arguments index)
              else ok (structured entry arguments, m))
            (ok (out, n))
        → (b ≡ true) × (c ≡ true) × (out ≡ structured entry arguments) × (m ≡ n)
    go true true h = (refl, refl, cc h, cc h)
    go true false h = cc
    go false c h = cc

pub normalize_entry_inv :
    (nt : Bool) (index : ℕ) (entry out : Entry) (n : ℕ)
    → normalize_entry nt index entry ≡ ok (out, n)
    → Normal nt index entry out n
unfolding normalize_entry
normalize_entry_inv nt index entry out n e =
    >>=-elim-ok (arguments_of nt index entry (get arguments_key entry)) (finish_entry index entry) e
      λ given p q.
        let (a, b, c, d) = finish_entry_inv index entry out given.0 n given.1 q in
        record {
          arguments = given.0;
          given = p ∙ ap (λ (m : ℕ). ok (given.0, m)) d;
          some_file = a;
          some_arguments = b;
          made = c;
        }

pub normalize_entry-structured :
    (nt : Bool) (index : ℕ) (entry : Entry) (arguments : List Text)
    → truth (get file_key entry) ≡ true
    → nonempty arguments ≡ true
    → normalize_entry nt index (structured entry arguments) ≡ ok (structured entry arguments, 0)
unfolding normalize_entry finish_entry arguments_of
normalize_entry-structured nt index entry arguments file some_arguments =
    rw (structured_arguments entry arguments, normalize_entry)
      (rw (structured_other entry arguments file_key refl refl, finish_entry)
        (rw (file, some_arguments) (rw (structured_twice entry arguments) refl)))

-- An entry whose arguments have been replaced is normal but for a command.
pub normalize_entry-put :
    (nt : Bool) (index : ℕ) (entry : Entry) (arguments : List Text)
    → truth (get file_key entry) ≡ true
    → nonempty arguments ≡ true
    → normalize_entry nt index (put arguments_key (array arguments) entry)
      ≡ ok (structured (put arguments_key (array arguments) entry) arguments, 0)
unfolding normalize_entry arguments_of finish_entry
normalize_entry-put nt index entry arguments file some_arguments =
    let kept = get-put_ne arguments_key file_key (array arguments) entry refl in
    rw (get-put arguments_key (array arguments) entry, kept, file, some_arguments) refl
