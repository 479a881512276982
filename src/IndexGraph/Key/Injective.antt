-- ===== src/IndexGraph/Key/Injective.antt =====
-- The structural keys of `_record_key` and `_location_key`, compared.
use nvim_dot_files.Prelude.{◌≡◌, refl, List, [], ◌∷◌, map}
use nvim_dot_files.IndexGraph.Reader.{Location}
use nvim_dot_files.IndexGraph.Shard.{IncludeHeader, Symbol, Ref, Relation}
use nvim_dot_files.IndexGraph.Key.{
  keys_of, location_key, ref_key, header_key, relation_key, symbol_key,
}

pub location_key-injective : (a b : Location) → location_key a ≡ location_key b → a ≡ b
unfolding location_key
location_key-injective a b e = cc

pub header_key-injective : (a b : IncludeHeader) → header_key a ≡ header_key b → a ≡ b
unfolding header_key
header_key-injective a b e = cc

pub relation_key-injective : (a b : Relation) → relation_key a ≡ relation_key b → a ≡ b
unfolding relation_key
relation_key-injective a b e = cc

headers_injective :
    (xs ys : List IncludeHeader)
    → keys_of (map header_key xs) ≡ keys_of (map header_key ys)
    → xs ≡ ys
headers_injective [] [] e = refl
headers_injective [] (y ∷ ys) e = cc
headers_injective (x ∷ xs) [] e = cc
headers_injective (x ∷ xs) (y ∷ ys) e =
    cc (header_key-injective x y (cc), headers_injective xs ys (cc))

pub ref_key-injective : (a b : Ref) → ref_key a ≡ ref_key b → a ≡ b
unfolding ref_key
ref_key-injective a b e = cc (location_key-injective a.location b.location (cc))

-- Two symbols with one structural key are equal in every field, include headers and locations too.
pub symbol_key-injective : (a b : Symbol) → symbol_key a ≡ symbol_key b → a ≡ b
unfolding symbol_key
symbol_key-injective a b e = cc (
  location_key-injective a.canonical_declaration b.canonical_declaration (cc),
  location_key-injective a.definition b.definition (cc),
  headers_injective a.include_headers b.include_headers (cc),
)
