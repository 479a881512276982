-- ===== src/IndexGraph/Reader/Reads.antt =====
-- Readers on bytes that were laid out for them: each takes its own bytes and leaves what follows.
use nvim_dot_files.Prelude.{
  ℕ, zero, suc, ◌+◌, ◌-◌, ◌*◌, ◌^◌, ◌≤◌, ◌<◌, ◌≡◌, refl, ap, ◌∙◌, List, [], ◌∷◌, ◌++◌, append-nil,
  append_assoc, some, length, length-append, get_elem?, ltb, le→ltb, if◌then◌else◌, All, arith,
}
use nvim_dot_files.Prelude.Result.{ok}
use nvim_dot_files.IndexGraph.Reader.{
  Bytes, Text, Reader, pure, ◌>>=◌, take_bytes, byte, hex, symbol_id, var, remaining, count,
  at_index, string, Location, location, repeat, while_remaining,
}
use nvim_dot_files.IndexGraph.Reader.Varint.{put_var, var-put_var}
use nvim_dot_files.IndexGraph.Reader.Inverse.{take_bytes-append, bind_ok, loop_step}

pub record Reads {A : Type 0} (m : Reader A) (bs : Bytes) (a : A) : Type 0 where
  pub at : (rest : Bytes) → m (bs ++ rest) ≡ ok (a, rest)

module _ {A B : Type 0} where
  pub Reads-bind :
      (m : Reader A) (f : A → Reader B) (bs cs : Bytes) (a : A) (b : B)
      → Reads m bs a
      → Reads (f a) cs b
      → Reads (m >>= f) (bs ++ cs) b
  Reads-bind m f bs cs a b rm rf = record {
    at = λ rest.
        rw (append_assoc bs cs rest)
          (bind_ok m f (bs ++ (cs ++ rest)) (rm.at (cs ++ rest)) ∙ rf.at rest);
  }

  -- The last reader of a block, before what the block returns.
  pub Reads-last :
      (m : Reader A) (g : A → B) (bs : Bytes) (a : A)
      → Reads m bs a
      → Reads (m >>= λ x. pure (g x)) bs (g a)
  Reads-last m g bs a rm = record {
    at = λ rest. bind_ok m (λ x. pure (g x)) (bs ++ rest) (rm.at rest);
  }

pub Reads-byte : (b : ℕ) → Reads byte (b ∷ []) b
unfolding byte
Reads-byte b = record { at = λ rest. refl }

pub Reads-var : (v : ℕ) → v < 2 ^ 32 → Reads var (put_var 4 v) v
Reads-var v h = record { at = λ rest. var-put_var v rest h }

-- A text of `strings`, written by the place that `ix` gives for it.
abbrev pub Indexed : List Text → (Text → ℕ) → Text → Type 0
Indexed strings ix t = (ix t < 2 ^ 32) × (get_elem? strings (ix t) ≡ some t)

pub Reads-string :
    (strings : List Text) (ix : Text → ℕ) (t : Text)
    → Indexed strings ix t
    → Reads (string strings) (put_var 4 (ix t)) t
unfolding string
Reads-string strings ix t (small, here) = record {
  at = λ rest.
      bind_ok var (λ index. at_index (get_elem? strings index)) (put_var 4 (ix t) ++ rest)
        (var-put_var (ix t) rest small)
      ∙ rw here refl;
}

-- The value of a hexadecimal digit, and `bytes.fromhex`.
abbrev digit_value : ℕ → ℕ
digit_value c = if ltb c b'a' then c - b'0' else c + 10 - b'a'

unfoldable pub unhex : Text → Bytes
unhex [] = []
unhex (a ∷ []) = []
unhex (a ∷ b ∷ t) = (digit_value a * 16 + digit_value b) ∷ unhex t

-- Sixteen lower-case hexadecimal digits.
abbrev pub IsId : Text → Type 0
IsId id = (length (unhex id) ≡ 8) × (hex (unhex id) ≡ id)

pub Reads-take_hex : (id : Text) → IsId id → Reads (take_bytes 8) (unhex id) (unhex id)
Reads-take_hex id (eight, same) = record { at = λ rest. take_bytes-append 8 (unhex id) rest eight }

pub Reads-symbol_id : (id : Text) → IsId id → Reads symbol_id (unhex id) id
unfolding symbol_id
Reads-symbol_id id h = record {
  at = λ rest.
      bind_ok (take_bytes 8) (λ raw. pure (hex raw)) (unhex id ++ rest)
        ((Reads-take_hex id h).at rest)
      ∙ ap (λ (t : Text). ok (t, rest)) h.1;
}

unfoldable pub put_location : (Text → ℕ) → Location → Bytes
put_location ix l =
    put_var 4 (ix l.uri)
    ++ (put_var 4 l.start.0 ++ (put_var 4 l.start.1 ++ (put_var 4 l.end.0 ++ put_var 4 l.end.1)))

pub record IsLocation (strings : List Text) (ix : Text → ℕ) (l : Location) : Type 0 where
  pub uri : Indexed strings ix l.uri
  pub start : (l.start.0 < 2 ^ 32) × (l.start.1 < 2 ^ 32)
  pub end : (l.end.0 < 2 ^ 32) × (l.end.1 < 2 ^ 32)

pub Reads-location :
    (strings : List Text) (ix : Text → ℕ) (l : Location)
    → IsLocation strings ix l
    → Reads (location strings) (put_location ix l) l
unfolding location put_location
Reads-location strings ix l h = Reads-bind _ _ _ _ _ _ (Reads-string strings ix l.uri h.uri) (
    Reads-bind _ _ _ _ _ _ (Reads-var l.start.0 h.start.0) (
      Reads-bind _ _ _ _ _ _ (Reads-var l.start.1 h.start.1) (
        Reads-bind _ _ _ _ _ _ (Reads-var l.end.0 h.end.0)
          (Reads-last _ _ _ _ (Reads-var l.end.1 h.end.1)))))

-- Items one after the other.
abbrev pub put_all : {A : Type 0} → (A → Bytes) → List A → Bytes
put_all put [] = []
put_all put (x ∷ xs) = put x ++ put_all put xs

-- An item that `item` reads, and that takes a byte at least.
abbrev pub IsItem : {A : Type 0} → Reader A → (A → Bytes) → A → Type 0
IsItem item put x = Reads item (put x) x × (0 < length (put x))

length-put_all :
    {A : Type 0} (item : Reader A) (put : A → Bytes) (xs : List A)
    → All (IsItem item put) xs
    → length xs ≤ length (put_all put xs)
length-put_all item put [] h = omega arith
length-put_all item put (x ∷ xs) ((reads, pos), h) =
    omega (arith, length-append (put x) (put_all put xs), length-put_all item put xs h)

Reads-repeat :
    {A : Type 0} (item : Reader A) (put : A → Bytes) (xs : List A)
    → All (IsItem item put) xs
    → Reads (repeat (length xs) item) (put_all put xs) xs
unfolding repeat
Reads-repeat item put [] h = record { at = λ rest. refl }
Reads-repeat item put (x ∷ xs) ((reads, pos), h) =
    Reads-bind item _ (put x) (put_all put xs) x (x ∷ xs) reads (
      Reads-last (repeat (length xs) item) (λ t. x ∷ t) (put_all put xs) xs
        (Reads-repeat item put xs h))

count_at :
    (n : ℕ) (rest : Bytes)
    → n < 2 ^ 32
    → n ≤ length rest
    → count (put_var 4 n ++ rest) ≡ ok (n, rest)
unfolding count remaining
count_at n rest small enough =
    bind_ok var _ (put_var 4 n ++ rest) (var-put_var n rest small)
    ∙ rw (le→ltb (length rest) n enough) refl

module _ {A B : Type 0} (item : Reader A) (g : List A → Reader B) (put : A → Bytes) (xs : List A)
    (small : length xs < 2 ^ 32) (h : All (IsItem item put) xs) where
  -- A counted sequence, and what reads on from it.
  pub counted_at :
      (rest : Bytes)
      → (count >>= λ n. repeat n item >>= g) (put_var 4 (length xs) ++ (put_all put xs ++ rest))
        ≡ g xs rest
  counted_at rest =
      let items : Bytes = put_all put xs in
      let enough : length xs ≤ length (items ++ rest) =
        omega (arith, length-put_all item put xs h, length-append items rest) in
      bind_ok count (λ n. repeat n item >>= g) (put_var 4 (length xs) ++ (items ++ rest))
        (count_at (length xs) (items ++ rest) small enough)
      ∙ bind_ok (repeat (length xs) item) g (items ++ rest) ((Reads-repeat item put xs h).at rest)

  pub Reads-counted :
      (cs : Bytes) (b : B)
      → Reads (g xs) cs b
      → Reads
          (count >>= λ n. repeat n item >>= g)
          (put_var 4 (length xs) ++ (put_all put xs ++ cs))
          b
  Reads-counted cs b rg = record {
    at = λ rest.
        rw (append_assoc (put_var 4 (length xs)) (put_all put xs ++ cs) rest)
          (rw (append_assoc (put_all put xs) cs rest) (counted_at (cs ++ rest) ∙ rg.at rest));
  }

-- A loop over the items that `put` lays out. `out` is what one item adds to the list, and `Good` says
-- when it may follow what was read before.
module _ {S X : Type 0} (body : List S → Reader (List S)) (put : X → Bytes) (out : X → List S)
    (Good : List S → X → Type 0) where
  abbrev pub Chain : List S → List X → Type 0
  Chain before [] = Unit
  Chain before (x ∷ xs) = Good before x × Chain (before ++ out x) xs

  abbrev pub outputs : List X → List S
  outputs [] = []
  outputs (x ∷ xs) = out x ++ outputs xs

  pub loop-put_all :
      ((before : List S) (x : X) → Good before x → Reads (body before) (put x) (before ++ out x))
      → ((before : List S) (x : X) → Good before x → 0 < length (put x))
      → (fuel : ℕ) (before : List S) (xs : List X) → Chain before xs
      → length (put_all put xs) ≤ fuel
      → while_remaining body fuel before (put_all put xs) ≡ ok (before ++ outputs xs, [])
  loop-put_all reads pos fuel before [] h le =
      rw (append-nil before) (unfold while_remaining in refl)
  loop-put_all reads pos zero before (x ∷ xs) (g, h) le =
      absurd (omega (arith, pos before x g, length-append (put x) (put_all put xs)))
  loop-put_all reads pos (suc fuel) before (x ∷ xs) (g, h) le =
      loop_step body fuel before (before ++ out x) (put x ++ put_all put xs) (put_all put xs)
        (omega (arith, pos before x g, length-append (put x) (put_all put xs)))
        ((reads before x g).at (put_all put xs))
      ∙ loop-put_all reads pos fuel (before ++ out x) xs h
          (omega (arith, pos before x g, length-append (put x) (put_all put xs)))
      ∙ ap (λ (t : List S). ok (t, [])) (append_assoc before (out x) (outputs xs))
