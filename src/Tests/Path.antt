-- ===== src/Tests/Path.antt =====
-- Path functions (kernel/src/fs/mod.rs) at concrete inputs.
use willo_main.Prelude.{◌≡◌, ◌↔◌, refl, none, some, [], ◌∷◌, ◌++◌, codes}
use willo_main.Path.{slash, normalize, direct_child, render, IsName, IsCanonical, contains_slash}
use willo_main.Path.Normalize.{normalize-IsCanonical}
use willo_main.Path.Prefix.{direct_child_iff}
use willo_main.Path.Segments.{IsSegment}

normalize_relative : normalize (codes "/etc") (codes "../bin/./x") ≡ codes "/bin/x"
unfolding normalize
normalize_relative = refl

normalize_root : normalize (codes "/") (codes "../..//") ≡ codes "/"
unfolding normalize
normalize_root = refl

direct_child_test :
    (direct_child [] (codes "/tmp") ≡ some (codes "tmp"))
    × (direct_child (codes "/tmp") (codes "/tmp/a/b") ≡ none)
unfolding direct_child
direct_child_test = (refl, refl)

etc-IsName : IsName (codes "etc")
unfolding contains_slash
etc-IsName = record { filled = refl; flat = refl; not_dot = λ e. cc; not_dots = λ e. cc }

etc-IsCanonical : IsCanonical (codes "/etc")
unfolding render
etc-IsCanonical = (codes "etc" ∷ [], (etc-IsName, tt), refl)

normalize-IsCanonical_example : IsCanonical (normalize (codes "/etc") (codes "../bin"))
normalize-IsCanonical_example =
    normalize-IsCanonical (codes "/etc") (codes "../bin") etc-IsCanonical

direct_child_iff_example :
    (direct_child (codes "/a") (codes "/a/b") ≡ some (codes "b"))
    ↔ ((codes "/a/b" ≡ codes "/a" ++ (slash ∷ codes "b")) × IsSegment (codes "b"))
direct_child_iff_example = direct_child_iff (codes "/a") (codes "/a/b") (codes "b")
