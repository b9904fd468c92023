-- ===== src/Config/Acl.antt =====
-- `topic_matches_acl_filter` of src/config.rs and the filters of src/router.rs.
use pipistrelle.Prelude.{
  ◌+◌, ◌≡◌, refl, sym, ap, ◌∙◌, Bool, true, false, not, ◌&&◌, ◌||◌, List, [], ◌∷◌, ◌++◌,
  append_assoc, append-nil, length, length-append, get_elem?-append, if◌then◌else◌, arith,
}
use pipistrelle.Prelude.Text.{Str, bytes_eq, split_slash}
use pipistrelle.Router.Trie.{plus_segment, hash_segment}
use pipistrelle.Router.Filter.{matches}
use pipistrelle.Config.{acl_loop, topic_matches_acl_filter}

hash_only : (h : Bool) → (if h then true else false) ≡ h
hash_only true = refl
hash_only false = refl

same_level :
    (h p e rest : Bool)
    → (if h then true else if not p && not e then false else rest)
      ≡ (if h then true else if p || e then rest else false)
same_level true p e rest = refl
same_level false true e rest = refl
same_level false false true rest = refl
same_level false false false rest = refl

-- The loop behind a first part of the topic.
acl_loop_lem : (fs seen ts : List Str) → acl_loop fs (length seen) (seen ++ ts) ≡ matches fs ts
unfolding acl_loop matches
acl_loop_lem [] seen [] = rw (append-nil seen) (ground arith)
acl_loop_lem [] seen (t ∷ ts) = rw (length-append seen (t ∷ ts)) (ground arith)
acl_loop_lem (f ∷ fs) seen [] = rw (get_elem?-append seen []) (hash_only (bytes_eq f hash_segment))
acl_loop_lem (f ∷ fs) seen (t ∷ ts) =
    let next : acl_loop fs (length seen + 1) (seen ++ t ∷ ts) ≡ matches fs ts =
      ap (λ n. acl_loop fs n (seen ++ t ∷ ts)) (sym (length-append seen (t ∷ [])))
      ∙ ap (acl_loop fs (length (seen ++ t ∷ []))) (sym (append_assoc seen (t ∷ []) ts))
      ∙ acl_loop_lem fs (seen ++ t ∷ []) ts in
    rw (get_elem?-append seen (t ∷ ts), next)
      (same_level (bytes_eq f hash_segment) (bytes_eq f plus_segment) (bytes_eq f t)
        (matches fs ts))

-- `topic_matches_acl_filter` says yes exactly to the topics that the rule's pattern, read as a topic
-- filter, matches.
pub topic_matches_acl_filter_lem :
    (topic filter : Str)
    → topic_matches_acl_filter topic filter ≡ matches (split_slash filter) (split_slash topic)
unfolding topic_matches_acl_filter
topic_matches_acl_filter_lem topic filter = acl_loop_lem (split_slash filter) [] (split_slash topic)
