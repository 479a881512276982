-- ===== src/IndexGraph/Shard/Loops.antt =====
-- The loops of `decode_shard`: each body reads back one record that was laid out for it.
use nvim_dot_files.Prelude.{
  ℕ, ◌^◌, ◌<◌, ◌≡◌, refl, ◌∙◌, false, List, [], ◌∷◌, ◌++◌, length, All, arith,
}
use nvim_dot_files.Prelude.Result.{ok}
use nvim_dot_files.IndexGraph.Reader.{Bytes, Text, pure, remaining, string}
use nvim_dot_files.IndexGraph.Reader.Varint.{put_var, length-put_var}
use nvim_dot_files.IndexGraph.Reader.Inverse.{bind_ok}
use nvim_dot_files.IndexGraph.Reader.Reads.{
  Reads, Reads-bind, Reads-last, Reads-byte, Reads-string, Reads-symbol_id, Reads-take_hex,
  Reads-location, Reads-counted, counted_at, Indexed, IsId, unhex, IsLocation, put_location,
  put_all, IsItem,
}
use nvim_dot_files.IndexGraph.Shard.{
  Symbol, Ref, Relation, SourceNode, Sources, Command, ref, relation, symbols_step, refs_step,
  relations_step, sources_step, has_uri, command, command_arguments, end_command,
}
use nvim_dot_files.IndexGraph.Shard.RoundTrip.{IsSymbol, put_symbol, Reads-symbol}

module _ (strings : List Text) (ix : Text → ℕ) where
  -- The references to one symbol, which the writer keeps together.
  abbrev pub Group : Type 0
  Group = Text × List Ref

  pub record IsRef (id : Text) (r : Ref) : Type 0 where
    pub symbol_id : r.symbol_id ≡ id
    pub location : IsLocation strings ix r.location
    pub container : IsId r.container

  unfoldable pub put_ref : Ref → Bytes
  put_ref r = (r.kind ∷ []) ++ (put_location ix r.location ++ unhex r.container)

  Reads-ref : (id : Text) (r : Ref) → IsRef id r → Reads (ref strings id) (put_ref r) r
  unfolding ref put_ref
  Reads-ref id r w = rw (← w.symbol_id) (
      Reads-bind _ _ _ _ _ _ (Reads-byte r.kind) (
        Reads-bind _ _ _ _ _ _ (Reads-location strings ix r.location w.location)
          (Reads-last _ _ _ _ (Reads-symbol_id r.container w.container))))

  ref_items :
      (id : Text) (rs : List Ref) → All (IsRef id) rs → All (IsItem (ref strings id) put_ref) rs
  unfolding put_ref
  ref_items id [] h = tt
  ref_items id (r ∷ rs) (w, h) = ((Reads-ref id r w, omega arith), ref_items id rs h)

  abbrev pub IsGroup : Group → Type 0
  IsGroup (id, rs) = IsId id × All (IsRef id) rs × (length rs < 2 ^ 32)

  unfoldable pub put_group : Group → Bytes
  put_group (id, rs) = unhex id ++ (put_var 4 (length rs) ++ (put_all put_ref rs ++ []))

  pub Reads-refs_step :
      (before : List Ref) (g : Group)
      → IsGroup g
      → Reads (refs_step strings before) (put_group g) (before ++ g.1)
  unfolding refs_step put_group
  Reads-refs_step before (id, rs) (wid, wrs, small) =
      Reads-bind _ _ _ _ _ _ (Reads-symbol_id id wid) (
        Reads-counted (ref strings id) (λ more. pure (before ++ more)) put_ref rs small
          (ref_items id rs wrs) [] (before ++ rs) (record { at = λ rest. refl }))

  pub Reads-symbols_step :
      (before : List Symbol) (s : Symbol)
      → IsSymbol strings ix s
      → Reads (symbols_step strings before) (put_symbol strings ix s) (before ++ s ∷ [])
  unfolding symbols_step
  Reads-symbols_step before s w =
      Reads-last _ (λ t. before ++ t ∷ []) _ _ (Reads-symbol strings ix s w)

  pub record IsSource (before : Sources) (s : Text × SourceNode) : Type 0 where
    pub new : has_uri s.0 before ≡ false
    pub uri : Indexed strings ix s.0
    pub digest : IsId s.1.digest
    pub includes : All (Indexed strings ix) s.1.direct_includes
    pub few : length s.1.direct_includes < 2 ^ 32

  abbrev put_text : Text → Bytes
  put_text t = put_var 4 (ix t)

  text_items :
      (ts : List Text) → All (Indexed strings ix) ts → All (IsItem (string strings) put_text) ts
  text_items [] h = tt
  text_items (t ∷ ts) (w, h) =
      ((Reads-string strings ix t w, length-put_var 4 (ix t)), text_items ts h)

  unfoldable pub put_source : Text × SourceNode → Bytes
  put_source (uri, n) =
      (n.flags ∷ [])
      ++ (put_var 4 (ix uri)
          ++ (unhex n.digest
              ++ (put_var 4 (length n.direct_includes)
                  ++ (put_all put_text n.direct_includes ++ []))))

  pub Reads-sources_step :
      (before : Sources) (s : Text × SourceNode)
      → IsSource before s
      → Reads (sources_step strings before) (put_source s) (before ++ s ∷ [])
  unfolding sources_step put_source
  Reads-sources_step before (uri, n) w = Reads-bind _ _ _ _ _ _ (Reads-byte n.flags) (
      Reads-bind _ _ _ _ _ _ (Reads-string strings ix uri w.uri) (
        Reads-bind _ _ _ _ _ _ (Reads-take_hex n.digest w.digest) (
          Reads-counted (string strings) _ put_text n.direct_includes w.few
            (text_items n.direct_includes w.includes) [] (before ++ (uri, n) ∷ [])
            (record { at = λ rest. rw (w.new, w.digest.1) refl }))))

  pub record IsCommand (c : Command) : Type 0 where
    pub directory : Indexed strings ix c.directory
    pub arguments : All (Indexed strings ix) c.arguments
    pub few : length c.arguments < 2 ^ 32

  unfoldable pub put_command : Command → Bytes
  put_command c =
      put_var 4 (ix c.directory)
      ++ (put_var 4 (length c.arguments) ++ (put_all put_text c.arguments ++ []))

  pub command-put_command :
      (c : Command) → IsCommand c → command strings (put_command c) ≡ ok (c, [])
  unfolding command put_command command_arguments end_command remaining
  command-put_command c w =
      bind_ok (string strings) (command_arguments strings) (put_command c)
        ((Reads-string strings ix c.directory w.directory).at _)
      ∙ counted_at (string strings) (end_command c.directory) put_text c.arguments w.few
          (text_items c.arguments w.arguments) []

pub record IsRelation (r : Relation) : Type 0 where
  pub subject : IsId r.subject
  pub object : IsId r.object

unfoldable pub put_relation : Relation → Bytes
put_relation r = unhex r.subject ++ ((r.predicate ∷ []) ++ unhex r.object)

pub Reads-relations_step :
    (before : List Relation) (r : Relation)
    → IsRelation r
    → Reads (relations_step before) (put_relation r) (before ++ r ∷ [])
unfolding relations_step relation put_relation
Reads-relations_step before r w =
    Reads-last _ (λ t. before ++ t ∷ []) _ _
      (Reads-bind _ _ _ _ _ _ (Reads-symbol_id r.subject w.subject) (
        Reads-bind _ _ _ _ _ _ (Reads-byte r.predicate)
          (Reads-last _ _ _ _ (Reads-symbol_id r.object w.object))))
