-- ===== src/IndexGraph/Strings/RoundTrip.antt =====
-- The string table: `_strings` reads back a table that was written plain or compressed.
use nvim_dot_files.Prelude.{
  ℕ, ◌+◌, ◌^◌, ◌≤◌, ◌<◌, ◌≡◌, refl, ap, subst, ◌∙◌, true, false, List, [], ◌∷◌, ◌++◌, some, map,
  length, nat_eq, Eq-number, Eq-list, All, ◌⊎◌, inl, inr, arith,
}
use nvim_dot_files.Prelude.Result.{ok}
use nvim_dot_files.IndexGraph.Reader.{Bytes}
use nvim_dot_files.IndexGraph.Reader.Inverse.{pack32, u32-pack32}
use nvim_dot_files.IndexGraph.Utf8.{decode}
use nvim_dot_files.IndexGraph.Strings.{
  Zlib, max_string_table, inflate, ends_with_nul, split_terminated, table_of, read_strings,
}

-- Each string with a NUL behind it.
unfoldable pub put_table : List Bytes → Bytes
put_table [] = []
put_table (t ∷ ts) = t ++ 0 ∷ put_table ts

abbrev pub NoNul : Bytes → Type 0
NoNul = All (λ b. nat_eq b 0 ≡ false)

split_last : (t : Bytes) → NoNul t → split_terminated (t ++ 0 ∷ []) ≡ t ∷ []
unfolding split_terminated
split_last [] h = refl
split_last (b ∷ []) (h, _) = rw h refl
split_last (b ∷ c ∷ t) (h, hs) = ground (arith, split_last (c ∷ t) hs)

split_more :
    (t : Bytes) (c : ℕ) (rest : Bytes)
    → NoNul t
    → split_terminated (t ++ 0 ∷ c ∷ rest) ≡ t ∷ split_terminated (c ∷ rest)
unfolding split_terminated
split_more [] c rest h = refl
split_more (b ∷ []) c rest (h, _) = rw h refl
split_more (b ∷ d ∷ t) c rest (h, hs) = ground (arith, split_more (d ∷ t) c rest hs)

ends_append :
    (t : Bytes) (c : ℕ) (rest : Bytes) → ends_with_nul (t ++ c ∷ rest) ≡ ends_with_nul (c ∷ rest)
unfolding ends_with_nul
ends_append [] c rest = refl
ends_append (b ∷ []) c rest = refl
ends_append (b ∷ d ∷ t) c rest = ends_append (d ∷ t) c rest

-- The table of `t` and `ts` begins with some byte.
table_head :
    (t : Bytes) (ts : List Bytes) → (c : ℕ) × (rest : Bytes) × (put_table (t ∷ ts) ≡ c ∷ rest)
unfolding put_table
table_head [] ts = (0, put_table ts, refl)
table_head (b ∷ t) ts = (b, t ++ 0 ∷ put_table ts, refl)

split-put_table :
    (t : Bytes) (ts : List Bytes)
    → All NoNul (t ∷ ts)
    → split_terminated (put_table (t ∷ ts)) ≡ t ∷ ts
unfolding put_table
split-put_table t [] (h, _) = split_last t h
split-put_table t (u ∷ ts) (h, hs) =
    let (c, rest, e) = table_head u ts in
    ap (λ (x : Bytes). split_terminated (t ++ 0 ∷ x)) e
    ∙ split_more t c rest h
    ∙ ap (λ (x : List Bytes). t ∷ x) (rw (← e) (split-put_table u ts hs))

ends-put_table : (t : Bytes) (ts : List Bytes) → ends_with_nul (put_table (t ∷ ts)) ≡ true
unfolding put_table ends_with_nul
ends-put_table t [] = ends_append t 0 []
ends-put_table t (u ∷ ts) =
    let (c, rest, e) = table_head u ts in
    ap (λ (x : Bytes). ends_with_nul (t ++ 0 ∷ x)) e
    ∙ ends_append t 0 (c ∷ rest)
    ∙ subst (λ (x : Bytes). ends_with_nul x ≡ true) e (ends-put_table u ts)

-- The two ways to store a table: plain, under the size 0, or packed, under its length, where the
-- compression library unpacks it whole.
abbrev pub Stores : Zlib → ℕ → Bytes → Bytes → Type 0
Stores z size stored table =
    (size ≡ 0) × (stored ≡ table)
    ⊎ (0 < size)
      × (size ≡ length table)
      × (size ≤ max_string_table)
      × (z.decompress stored (size + 1)
          ≡ some (record { output = table; eof = true; unused_data = []; unconsumed_tail = [] }))

table_of-Stores :
    (z : Zlib) (size : ℕ) (stored table : Bytes)
    → Stores z size stored table
    → ends_with_nul table ≡ true
    → table_of z size stored ≡ ok (map decode (split_terminated table))
unfolding table_of inflate
table_of-Stores z size stored table (inl (empty, same)) ends = ground arith
table_of-Stores z size stored table (inr (pos, sized, small, unpacks)) ends = ground arith

-- A table that is stored plain or packed, of one string or more without NUL bytes, is read as those
-- strings, decoded, in their order.
pub read_strings-put_table :
    (z : Zlib) (size : ℕ) (stored : Bytes) (t : Bytes) (ts : List Bytes)
    → size < 2 ^ 32
    → Stores z size stored (put_table (t ∷ ts))
    → All NoNul (t ∷ ts)
    → read_strings z (pack32 size ++ stored) ≡ ok (map decode (t ∷ ts))
unfolding read_strings
read_strings-put_table z size stored t ts small stores h =
    rw (u32-pack32 size stored small, read_strings)
      (table_of-Stores z size stored _ stores (ends-put_table t ts)
        ∙ ap (λ (x : List Bytes). ok (map decode x)) (split-put_table t ts h))
