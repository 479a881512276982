-- ===== src/IndexGraph/Reader/Progress.antt =====
-- How the readers move the cursor. No reader moves it back, and a loop body that moves it on each
-- round cannot run out of rounds when there are as many as bytes.
use nvim_dot_files.Prelude.{
  ℕ, zero, suc, ◌+◌, ◌≤◌, ◌≡◌, ◌≢◌, refl, Bool, true, false, List, [], ◌∷◌, Option, none, some,
  length, length-drop, ltb, ap, Bool-cases, inl, inr, if◌then◌else◌, arith, bit_and, bit_or, ◌*◌,
  ◌^◌,
}
use nvim_dot_files.Prelude.Result.{Result, ok, err}
use nvim_dot_files.IndexGraph.Reader.{
  Bytes, Text, Fault, out_of_fuel, truncated_sequence, Reader, pure, raise, ◌>>=◌, take_bytes, byte,
  symbol_id, u32, var_loop, var, remaining, count, at_index, string, location, repeat,
  while_remaining,
}
use nvim_dot_files.IndexGraph.Reader.Varint.{var_bounds}

-- A result that left at most `limit` bytes, or a `ValueError`.
abbrev pub Within : {A : Type 0} → ℕ → Result Fault (A × Bytes) → Type 0
Within limit (ok (a, rest)) = length rest ≤ limit
Within limit (err e) = e ≢ out_of_fuel

-- `m` moves the cursor by at least `k` bytes, or raises.
pub record Takes {A : Type 0} (k : ℕ) (m : Reader A) : Type 0 where
  pub at : (bs : Bytes) (limit : ℕ) → length bs ≤ limit + k → Within limit (m bs)

module _ {A : Type 0} where
  pub Takes-weaken : (m : Reader A) → Takes 1 m → Takes 0 m
  Takes-weaken m t = record { at = λ bs limit h. t.at bs limit (omega arith) }

  pub Takes-pure : (a : A) → Takes 0 (pure a)
  Takes-pure a = record { at = λ bs limit h. omega arith }

  pub Takes-raise : (e : Fault) → e ≢ out_of_fuel → Takes 0 (raise {A = A} e)
  Takes-raise e h = record { at = λ bs limit _. h }

  pub Takes-if : (b : Bool) (m n : Reader A) → Takes 0 m → Takes 0 n → Takes 0 (if b then m else n)
  Takes-if true m n tm tn = tm
  Takes-if false m n tm tn = tn

module _ {A B : Type 0} where
  continue-Within :
      (f : A → Reader B) (r : Result Fault (A × Bytes)) (between limit : ℕ)
      → ((a : A) → Takes 0 (f a))
      → between ≤ limit
      → Within between r
      → Within limit (elim r [ ok (a, rest) ↦ f a rest | err e ↦ err e ])
  continue-Within f (ok (a, rest)) between limit tf le w = (tf a).at rest limit (omega arith)
  continue-Within f (err e) between limit tf le w = w

  pub Takes-bind :
      (m : Reader A) (f : A → Reader B) → Takes 0 m → ((a : A) → Takes 0 (f a)) → Takes 0 (m >>= f)
  Takes-bind m f tm tf = record {
    at = λ bs limit h. continue-Within f (m bs) limit limit tf (omega arith) (tm.at bs limit h);
  }

  -- The first reader of a block makes the progress.
  pub Takes-bind_first :
      (m : Reader A) (f : A → Reader B) → Takes 1 m → ((a : A) → Takes 0 (f a)) → Takes 1 (m >>= f)
  Takes-bind_first m f tm tf = record {
    at = λ bs limit h. continue-Within f (m bs) limit limit tf (omega arith) (tm.at bs limit h);
  }

module _ {A B : Type 0} where
  pub Takes-bind_any :
      (m : Reader A) (f : A → Reader B) → Takes 1 m → ((a : A) → Takes 0 (f a)) → Takes 0 (m >>= f)
  Takes-bind_any m f tm tf = Takes-bind m f (Takes-weaken m tm) tf

pub Takes-take_bytes : (k n : ℕ) → k ≤ n → Takes k (take_bytes n)
unfolding take_bytes
Takes-take_bytes k n le = record {
  at = λ bs limit h. elim (Bool-cases (ltb (length bs) n)) [
    | inl short ↦ rw short (λ e. cc)
    | inr long ↦ rw long (ground (arith, length-drop n bs))
  ];
}

pub Takes-byte : Takes 1 byte
unfolding byte
Takes-byte = record { at = at_byte }
  where
    at_byte : (bs : Bytes) (limit : ℕ) → length bs ≤ limit + 1 → Within limit (byte bs)
    at_byte [] limit h = λ e. cc
    at_byte (b ∷ bs) limit h = omega arith

var_loop-ne-out_of_fuel : (r s acc : ℕ) (bs : Bytes) → var_loop r s acc bs ≢ err out_of_fuel
unfolding var_loop
var_loop-ne-out_of_fuel zero s acc bs e = cc
var_loop-ne-out_of_fuel (suc r) s acc [] e = cc
var_loop-ne-out_of_fuel (suc r) s acc (b ∷ bs) e =
    ground (arith, var_loop-ne-out_of_fuel r (s + 7) (bit_or acc (bit_and b 127 * 2 ^ s)) bs)

-- A reader's two laws make its rule.
Within-of :
    {A : Type 0} (limit : ℕ) (r : Result Fault (A × Bytes))
    → ((a : A) (rest : Bytes) → r ≡ ok (a, rest) → length rest ≤ limit)
    → r ≢ err out_of_fuel
    → Within limit r
Within-of limit (ok (a, rest)) h n = h a rest refl
Within-of limit (err e) h n = λ p. n (ap err p)

pub Takes-var : Takes 1 var
unfolding var
Takes-var = record {
  at = λ bs limit h.
      Within-of limit (var bs) (λ v rest e. omega (arith, var_bounds v bs rest e))
        (var_loop-ne-out_of_fuel 5 0 0 bs);
}

pub Takes-remaining : Takes 0 remaining
unfolding remaining
Takes-remaining = record { at = λ bs limit h. omega arith }

Takes-at_index : (o : Option Text) → Takes 0 (at_index o)
Takes-at_index none = Takes-raise _ (λ e. cc)
Takes-at_index (some t) = Takes-pure t

pub Takes-symbol_id : Takes 1 symbol_id
unfolding symbol_id
Takes-symbol_id = search (Takes-bind_first, Takes-take_bytes 1 8 (omega arith), Takes-pure)

pub Takes-u32 : Takes 1 u32
unfolding u32
Takes-u32 = search (Takes-bind_first, Takes-take_bytes 1 4 (omega arith), Takes-pure)

pub Takes-count : Takes 1 count
unfolding count
Takes-count = Takes-bind_first var _ Takes-var λ n.
    Takes-bind remaining _ Takes-remaining
      λ left. Takes-if (ltb left n) _ _ (Takes-raise truncated_sequence (λ e. cc)) (Takes-pure n)

pub Takes-string : (strings : List Text) → Takes 1 (string strings)
unfolding string
Takes-string strings = search (Takes-bind_first, Takes-var, Takes-at_index)

pub Takes-location : (strings : List Text) → Takes 1 (location strings)
unfolding location
Takes-location strings =
    search (Takes-pure, Takes-bind_first, Takes-bind_any, Takes-var, Takes-string) depth 12

pub Takes-repeat : {A : Type 0} (n : ℕ) (item : Reader A) → Takes 1 item → Takes 0 (repeat n item)
unfolding repeat
Takes-repeat zero item t = Takes-pure []
Takes-repeat (suc n) item t =
    Takes-bind_any item _ t
      λ x. Takes-bind (repeat n item) _ (Takes-repeat n item t) λ xs. Takes-pure _

-- With as many rounds as bytes, a loop whose body moves the cursor does not run out of them.
pub while_remaining-Within :
    {S : Type 0} (body : S → Reader S)
    → ((s : S) → Takes 1 (body s))
    → (fuel : ℕ) (s : S) (bs : Bytes) → length bs ≤ fuel
    → Within 0 (while_remaining body fuel s bs)
unfolding while_remaining
while_remaining-Within body t fuel s [] h = omega arith
while_remaining-Within body t zero s (b ∷ bs) h = absurd (omega arith)
while_remaining-Within {S} body t (suc fuel) s (b ∷ bs) h =
    go (body s (b ∷ bs)) ((t s).at (b ∷ bs) (length bs) (omega arith))
      (λ s' rest k. while_remaining-Within body t fuel s' rest (omega arith))
  where
    go :
        (r : Result Fault (S × Bytes))
        → Within (length bs) r
        → ((s' : S) (rest : Bytes)
            → length rest ≤ length bs
            → Within 0 (while_remaining body fuel s' rest))
        → Within 0 (elim r [ ok (s', rest) ↦ while_remaining body fuel s' rest | err e ↦ err e ])
    go (ok (s', rest)) w ih = ih s' rest w
    go (err e) w ih = w

-- One rule for each way to build a reader, and one for each reader.
pub ruleset takes_rules = (
  Takes-pure, Takes-bind, Takes-bind_any, Takes-bind_first, Takes-byte, Takes-var, Takes-remaining,
  Takes-symbol_id, Takes-u32, Takes-string, Takes-location, Takes-count, Takes-repeat,
)
