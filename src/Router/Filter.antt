-- ===== src/Router/Filter.antt =====
-- What a topic filter means, apart from the trie of src/router.rs: which topics it matches, level by
-- level.
use pipistrelle.Prelude.{Bool, true, false, ◌||◌, List, [], ◌∷◌, if◌then◌else◌}
use pipistrelle.Prelude.Text.{Str, bytes_eq}
use pipistrelle.Router.Trie.{plus_segment, hash_segment}

-- `#` stands for all levels left, none among them, `+` for one level.
unfoldable pub matches : List Str → List Str → Bool
matches [] [] = true
matches [] (t ∷ ts) = false
matches (f ∷ fs) [] = bytes_eq f hash_segment
matches (f ∷ fs) (t ∷ ts) =
    let rest = matches fs ts in
    if bytes_eq f hash_segment
    then true
    else if bytes_eq f plus_segment || bytes_eq f t
    then rest
    else false

abbrev pub no_more : List Str → Bool
no_more [] = true
no_more (f ∷ fs) = false

-- `#` stands at the end of the filter or nowhere.
unfoldable pub hash_last : List Str → Bool
hash_last [] = true
hash_last (f ∷ fs) = let rest = hash_last fs in if bytes_eq f hash_segment then no_more fs else rest
