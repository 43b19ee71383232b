-- ===== src/IpcAdapter/Topic.antt =====
-- Topic names that `topic_path` tells apart, and some that it does not.
use lock_free_ring_buffer.Prelude.{
  suc, ◌≡◌, ◌≢◌, refl, ap, [], ◌∷◌, ◌++◌, length, arith, ◌==◌, if◌then◌else◌,
}
use lock_free_ring_buffer.IpcAdapter.{Text, sanitize, topic_path}

-- No character is a slash.
abbrev pub SlashFree : Text → Type 0
SlashFree [] = Unit
SlashFree (c ∷ t) = (c ≢ b'/') × SlashFree t

-- The name that stands for a topic is one component of a path: it has no slash. It has one
-- character for each of the topic's.
pub sanitize_lem : (t : Text) → SlashFree (sanitize t) × (length (sanitize t) ≡ length t)
unfolding sanitize
sanitize_lem [] = (tt, refl)
sanitize_lem (c ∷ t) = ((ground arith, (sanitize_lem t).0), ap suc (sanitize_lem t).1)

sanitize_same : (a b : Text) → sanitize (a ++ b'/' ∷ b) ≡ sanitize (a ++ b'_' ∷ b)
unfolding sanitize
sanitize_same [] b = refl
sanitize_same (c ∷ a) b = ap (λ t. (if c == b'/' then b'_' else c) ∷ t) (sanitize_same a b)

-- Two topics that differ in a slash of the one and an underscore of the other share a file, whatever
-- their directory and prefix.
topics_collide :
    (join : Text → Text → Text) (base_dir prefix a b : Text)
    → topic_path join base_dir prefix (a ++ b'/' ∷ b)
      ≡ topic_path join base_dir prefix (a ++ b'_' ∷ b)
unfolding topic_path
topics_collide join base_dir prefix a b =
    ap (λ t. join base_dir (prefix ++ b'_' ∷ b'_' ∷ b'_' ∷ t)) (sanitize_same a b)
