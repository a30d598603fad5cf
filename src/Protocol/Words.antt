-- ===== src/Protocol/Words.antt =====
-- `std::istringstream >> word`, on which both tokenisers stand: the words of a line, read from left
-- to right, and the ends of a word.
use myteams.Prelude.{
  ℕ, List, [], ◌∷◌, ◌++◌, Bool, true, false, ◌||◌, Text, empty, ◌==◌, if◌then◌else◌,
}

-- `isspace` in the classic locale: space, tab, line feed, vertical tab, form feed, return
unfoldable pub is_space : ℕ → Bool
is_space c = c == 32 || c == 9 || c == 10 || c == 11 || c == 12 || c == 13

-- a word that has ended, unless only separators were read
abbrev pub flush : Text → List Text → List Text
flush [] ws = ws
flush (c ∷ cs) ws = (c ∷ cs) ∷ ws

-- the words of a text behind `acc`, the word that is being read
unfoldable pub words_from : Text → Text → List Text
words_from acc [] = flush acc []
words_from acc (c ∷ s) = elim (is_space c) [
  | true ↦ flush acc (words_from [] s)
  | false ↦ words_from (acc ++ c ∷ []) s
]

unfoldable pub words : Text → List Text
unfolding words_from is_space
words = words_from []

-- `w.front() == '"'` of a word
unfoldable pub starts_quoted : Text → Bool
starts_quoted [] = false
starts_quoted (c ∷ cs) = c == b'"'

-- `w.back() == '"'`, where the text is not empty
unfoldable pub ends_quoted : Text → Bool
ends_quoted [] = false
ends_quoted (c ∷ cs) = let later = ends_quoted cs in if empty cs then c == b'"' else later

-- `w.substr(1)`
abbrev pub tail : Text → Text
tail [] = []
tail (c ∷ cs) = cs

-- `w.pop_back()`
unfoldable pub pop_back : Text → Text
pop_back [] = []
pop_back (c ∷ cs) = let rest = pop_back cs in if empty cs then [] else c ∷ rest
