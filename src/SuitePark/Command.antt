-- ===== src/SuitePark/Command.antt =====
-- src/suite-park.ts: which command lines are the root of a test run.
use Prim.Native.Char.{code}
use Prim.Native.String.{String, [], ◌∷◌}
use the_dudes_daemon.Base.{
  ℕ, ◌≡◌, refl, Bool, true, false, ◌&&◌, ◌||◌, leb, if◌then◌else◌, ◌==◌, comparable_nat,
  comparable_string, contains,
}
use mathlib.Core.List.{List}

-- The characters of `\s`.
abbrev pub is_space : ℕ → Bool
is_space c =
    (leb 9 c && leb c 13)
    || c == 32
    || c == 160
    || c == 5760
    || (leb 8192 c && leb c 8202)
    || c == 8232
    || c == 8233
    || c == 8239
    || c == 8287
    || c == 12288
    || c == 65279

push_word : String → List String → List String
push_word [] words = words
push_word (c ∷ word) words = List.◌∷◌ (c ∷ word) words

split_words : String → String × List String
unfolding push_word
split_words [] = ([], List.[])
split_words (c ∷ s) =
    let (word, words) = split_words s in
    if is_space (code c) then ([], push_word word words) else (c ∷ word, words)

-- `command.trim().split(/\s+/)`, without the empty text of an empty command.
pub words : String → List String
unfolding split_words
words command = let (first, rest) = split_words command in push_word first rest

pub head_or_empty : List String → String
head_or_empty List.[] = []
head_or_empty (List.◌∷◌ w ws) = w

has_slash : String → Bool
has_slash [] = false
has_slash (c ∷ s) = code c == 47 || has_slash s

-- `first.slice(first.lastIndexOf("/") + 1)`
unfoldable pub base_name : String → String
unfolding has_slash
base_name [] = []
base_name (c ∷ s) = if has_slash (c ∷ s) then base_name s else c ∷ s

-- `/^node(js)?(\.exe)?$/`
is_node : String → Bool
is_node base = base == "node" || base == "nodejs" || base == "node.exe" || base == "nodejs.exe"

unfoldable pub is_test_root : String → Bool
unfolding words head_or_empty base_name is_node
is_test_root command =
    is_node (base_name (head_or_empty (words command))) && contains "--test" (words command)

is_test_root_tests :
    (is_test_root "/usr/bin/node --import tsx --test a.test.ts" ≡ true)
    × (is_test_root "sh -c node --import tsx --test" ≡ false)
    × (is_test_root "node --test-concurrency=0 a.test.ts" ≡ false)
unfolding is_test_root
is_test_root_tests = (refl, refl, refl)
