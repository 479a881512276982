-- ===== src/Argv/Tests.antt =====
-- The theorems about tools/cdb_argv.py on small command lines.
use nvim_dot_files.Prelude.{◌≡◌, refl, true, false, List, [], ◌∷◌, none, some, inl, inr, All}
use nvim_dot_files.Prelude.Result.{ok}
use nvim_dot_files.Prelude.Texts.{Text, codes}
use nvim_dot_files.Argv.Windows.{split_windows_command_line}
use nvim_dot_files.Argv.Windows.RoundTrip.{
  Word, IsWord, put_line, split_windows_command_line-put_line,
}
use nvim_dot_files.Argv.Windows.Total.{split_windows_command_line_ends}
use nvim_dot_files.Argv.Posix.{split_posix_command_line}
use nvim_dot_files.Argv.Posix.RoundTrip.{put_arguments, split_posix_command_line-put_arguments}
use nvim_dot_files.Argv.Syntax.{text, array, Entry, split_command_line, syntax_from_provenance}
use nvim_dot_files.Argv.Syntax.Quoted.{split_command_line-put_line}
use nvim_dot_files.Argv.Normalize.{normalize_cdb}
use nvim_dot_files.Argv.Normalize.Stable.{
  normalize_cdb_again, AllNormalized, commands_in, normalize_cdb-AllNormalized,
}

-- An argument with a blank, a quotation mark and a backslash at its end, in quotes.
abbrev hard_word : Word
hard_word = record { before = 0; quoted = true; text = codes "a \"b\\" }

abbrev path_word : Word
path_word = record { before = 2; quoted = false; text = codes "C:\\x" }

hard_words : All IsWord (hard_word ∷ path_word ∷ [])
hard_words =
    (inl refl, (inr ((λ e. cc), (inl refl, (inl refl, (inr refl, (inl refl, tt)))), refl), tt))

split_windows_command_line-put_line_example :
    split_windows_command_line (put_line (hard_word ∷ path_word ∷ []))
    ≡ some (codes "a \"b\\" ∷ codes "C:\\x" ∷ [])
split_windows_command_line-put_line_example =
    split_windows_command_line-put_line (hard_word ∷ path_word ∷ []) hard_words

split_windows_command_line_ends_example :
    (arguments : List Text) × (split_windows_command_line (codes "a \"b c") ≡ some arguments)
split_windows_command_line_ends_example = split_windows_command_line_ends (codes "a \"b c")

split_posix_command_line-put_arguments_example :
    split_posix_command_line (put_arguments (codes "it's" ∷ [] ∷ codes "a b" ∷ []))
    ≡ ok (codes "it's" ∷ [] ∷ codes "a b" ∷ [])
split_posix_command_line-put_arguments_example =
    split_posix_command_line-put_arguments (codes "it's" ∷ [] ∷ codes "a b" ∷ [])

split_command_line-put_line_example :
    split_command_line true (put_line (hard_word ∷ [])) none ≡ ok (codes "a \"b\\" ∷ [])
split_command_line-put_line_example =
    split_command_line-put_line none (hard_word ∷ []) (unfold syntax_from_provenance in refl)
      (refl, tt)

abbrev two_entries : List Entry
two_entries =
    ((codes "file", text (codes "a.c")) ∷ (codes "command", text (codes "cc a")) ∷ [])
    ∷ ((codes "file", text (codes "b.c")) ∷ (codes "arguments", array (codes "cc" ∷ [])) ∷ [])
    ∷ []

abbrev two_normalized : List Entry
two_normalized =
    ((codes "file", text (codes "a.c"))
      ∷ (codes "arguments", array (codes "cc" ∷ codes "a" ∷ []))
      ∷ [])
    ∷ ((codes "file", text (codes "b.c")) ∷ (codes "arguments", array (codes "cc" ∷ [])) ∷ [])
    ∷ []

two_entries-normalize : normalize_cdb true two_entries ≡ ok (two_normalized, 1)
unfolding normalize_cdb
two_entries-normalize = refl

normalize_cdb_again_example : normalize_cdb true two_normalized ≡ ok (two_normalized, 0)
normalize_cdb_again_example =
    normalize_cdb_again true two_entries two_normalized 1 two_entries-normalize

normalize_cdb-AllNormalized_example :
    AllNormalized true two_entries two_normalized × (1 ≡ commands_in two_entries)
normalize_cdb-AllNormalized_example =
    normalize_cdb-AllNormalized true two_entries two_normalized 1 two_entries-normalize
