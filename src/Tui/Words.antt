-- ===== src/Tui/Words.antt =====
-- cmd/perunnodetui/commands.go: lists of words, for `strings.Split`.
use dst_go.Base.{String, List, [], ◌∷◌}

-- The empty text, and the words behind a space.
abbrev pub one_word : List String
one_word = "" ∷ []

abbrev pub next_word : List String → List String
next_word ws = "" ∷ ws

-- A character in front of the first word.
abbrev pub in_front : (String → String) → List String → List String
in_front add [] = add "" ∷ []
in_front add (w ∷ ws) = add w ∷ ws
