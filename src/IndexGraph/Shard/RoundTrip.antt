-- ===== src/IndexGraph/Shard/RoundTrip.antt =====
-- The records of a shard: `_symbol` and the loops of `decode_shard` read back what clangd's writer
-- lays out. A text is written as its place in the string table, which `ix` gives.
use nvim_dot_files.Prelude.{
  ℕ, ◌+◌, ◌*◌, ◌/◌, ◌^◌, ◌<◌, ◌≡◌, refl, ap, ◌∙◌, List, [], ◌∷◌, ◌++◌, bit_and, length,
  length-append, All, arith,
}
use nvim_dot_files.Prelude.Bits.{bit_and_three}
use nvim_dot_files.Prelude.Result.{ok}
use nvim_dot_files.IndexGraph.Reader.{Bytes, Text, var, string}
use nvim_dot_files.IndexGraph.Reader.Varint.{put_var, length-put_var}
use nvim_dot_files.IndexGraph.Reader.Reads.{
  Reads, Reads-bind, Reads-last, Reads-byte, Reads-var, Reads-string, Reads-symbol_id,
  Reads-location, Reads-counted, Indexed, IsId, unhex, IsLocation, put_location, put_all, IsItem,
}
use nvim_dot_files.IndexGraph.Shard.{IncludeHeader, Symbol, include_header, symbol}

module _ (strings : List Text) (ix : Text → ℕ) where
  pub record IsHeader (h : IncludeHeader) : Type 0 where
    pub header : Indexed strings ix h.header
    pub directives : h.supported_directives < 4
    pub packed : h.references * 4 + h.supported_directives < 2 ^ 32

  unfoldable pub put_header : IncludeHeader → Bytes
  put_header h = put_var 4 (ix h.header) ++ put_var 4 (h.references * 4 + h.supported_directives)

  unpacked :
      (h : IncludeHeader)
      → h.supported_directives < 4
      → ◌≡◌ {A = IncludeHeader}
          (record {
            header = h.header;
            references = (h.references * 4 + h.supported_directives) / 4;
            supported_directives = bit_and (h.references * 4 + h.supported_directives) 3;
          })
          h
  unpacked h d = ground (arith, bit_and_three (h.references * 4 + h.supported_directives))

  Reads-header : (h : IncludeHeader) → IsHeader h → Reads (include_header strings) (put_header h) h
  unfolding include_header put_header
  Reads-header h w = record {
    at = λ rest.
        (Reads-bind (string strings) _ _ _ _ _ (Reads-string strings ix h.header w.header) (
            Reads-last var
              (λ packed. record {
                header = h.header;
                references = packed / 4;
                supported_directives = bit_and packed 3;
              })
              _ _ (Reads-var (h.references * 4 + h.supported_directives) w.packed))).at
          rest
        ∙ ap (λ (t : IncludeHeader). ok (t, rest)) (unpacked h w.directives);
  }

  pub record IsSymbol (s : Symbol) : Type 0 where
    pub id : IsId s.id
    pub name : Indexed strings ix s.name
    pub scope : Indexed strings ix s.scope
    pub template_specialization_args : Indexed strings ix s.template_specialization_args
    pub definition : IsLocation strings ix s.definition
    pub canonical_declaration : IsLocation strings ix s.canonical_declaration
    pub references : s.references < 2 ^ 32
    pub signature : Indexed strings ix s.signature
    pub completion_snippet_suffix : Indexed strings ix s.completion_snippet_suffix
    pub documentation : Indexed strings ix s.documentation
    pub return_type : Indexed strings ix s.return_type
    pub type : Indexed strings ix s.type
    pub headers : All IsHeader s.include_headers
    pub few_headers : length s.include_headers < 2 ^ 32

  unfoldable pub put_symbol : Symbol → Bytes
  put_symbol s =
      unhex s.id
      ++ ((s.kind ∷ [])
          ++ ((s.language ∷ [])
              ++ (put_var 4 (ix s.name)
                  ++ (put_var 4 (ix s.scope)
                      ++ (put_var 4 (ix s.template_specialization_args)
                          ++ (put_location ix s.definition
                              ++ (put_location ix s.canonical_declaration
                                  ++ (put_var 4 s.references
                                      ++ ((s.flags ∷ [])
                                          ++ (put_var 4 (ix s.signature)
                                              ++ (put_var 4 (ix s.completion_snippet_suffix)
                                                  ++ (put_var 4 (ix s.documentation)
                                                      ++ (put_var 4 (ix s.return_type)
                                                          ++ (put_var 4 (ix s.type)
                                                            ++ (put_var 4 (length s.include_headers)
                                                            ++ (put_all put_header s.include_headers
                                                            ++ []))))))))))))))))

  header_items :
      (hs : List IncludeHeader)
      → All IsHeader hs
      → All (IsItem (include_header strings) put_header) hs
  unfolding put_header
  header_items [] h = tt
  header_items (x ∷ hs) (w, h) = (
    (
      Reads-header x w,
      omega (
        arith,
        length-append (put_var 4 (ix x.header))
            (put_var 4 (x.references * 4 + x.supported_directives)),
        length-put_var 4 (ix x.header),
      ),
    ),
    header_items hs h,
  )

  pub Reads-symbol : (s : Symbol) → IsSymbol s → Reads (symbol strings) (put_symbol s) s
  unfolding symbol put_symbol
  Reads-symbol s w = Reads-bind _ _ _ _ _ _ (Reads-symbol_id s.id w.id) (
      Reads-bind _ _ _ _ _ _ (Reads-byte s.kind) (
        Reads-bind _ _ _ _ _ _ (Reads-byte s.language) (
          Reads-bind _ _ _ _ _ _ (Reads-string strings ix s.name w.name) (
            Reads-bind _ _ _ _ _ _ (Reads-string strings ix s.scope w.scope) (
              Reads-bind _ _ _ _ _ _
                (Reads-string strings ix s.template_specialization_args
                  w.template_specialization_args)
                (Reads-bind _ _ _ _ _ _ (Reads-location strings ix s.definition w.definition) (
                  Reads-bind _ _ _ _ _ _
                    (Reads-location strings ix s.canonical_declaration w.canonical_declaration)
                    (Reads-bind _ _ _ _ _ _ (Reads-var s.references w.references) (
                      Reads-bind _ _ _ _ _ _ (Reads-byte s.flags) (
                        Reads-bind _ _ _ _ _ _ (Reads-string strings ix s.signature w.signature) (
                          Reads-bind _ _ _ _ _ _
                            (Reads-string strings ix s.completion_snippet_suffix
                              w.completion_snippet_suffix)
                            (Reads-bind _ _ _ _ _ _
                              (Reads-string strings ix s.documentation w.documentation)
                              (Reads-bind _ _ _ _ _ _
                                (Reads-string strings ix s.return_type w.return_type)
                                (Reads-bind _ _ _ _ _ _ (Reads-string strings ix s.type w.type) (
                                  Reads-counted (include_header strings) _ put_header
                                    s.include_headers w.few_headers
                                    (header_items s.include_headers w.headers) [] s
                                    (record { at = λ rest. refl }))))))))))))))))
