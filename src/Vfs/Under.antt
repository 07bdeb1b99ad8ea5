-- ===== src/Vfs/Under.antt =====
-- What the byte test of `resolve` (kernel/src/fs/mod.rs) decides: a path lies under a mount point.
use willo_main.Prelude.{
  ◌≡◌, refl, ◌∙◌, ap, sym, ◌↔◌, ◌⊎◌, inl, inr, true, [], ◌∷◌, ◌++◌, append-nil, Text, codes, arith,
  length, drop, same_refl, same→eq, drop-append, length-append, if◌then◌else◌,
}
use willo_main.Path.{is_empty, starts_with_slash}
use willo_main.Vfs.{begins_with, slash_at, covers, relative_to}

-- The path is the mount point itself, or goes on with a slash behind it.
abbrev pub IsUnder : Text → Text → Type 0
IsUnder abs prefix =
    (rest : Text) × (abs ≡ prefix ++ rest) × ((rest ≡ []) ⊎ (starts_with_slash rest ≡ true))

begins_with-append : (p r : Text) → begins_with (p ++ r) p ≡ true
begins_with-append [] [] = refl
begins_with-append [] (x ∷ r) = refl
begins_with-append (x ∷ p) r = ground (arith, begins_with-append p r)

begins_with-split : (s p : Text) → begins_with s p ≡ true → s ≡ p ++ drop (length p) s
begins_with-split s [] h = refl
begins_with-split [] (x ∷ p) h = cc
begins_with-split (y ∷ s) (x ∷ p) h = ground (arith, begins_with-split s p)

slash_at-append : (p r : Text) → slash_at (p ++ r) (length p) ≡ starts_with_slash r
slash_at-append [] [] = refl
slash_at-append [] (x ∷ r) = refl
slash_at-append (x ∷ p) r = slash_at-append p r

covers-of :
    (prefix rest : Text)
    → (rest ≡ []) ⊎ (starts_with_slash rest ≡ true)
    → covers (prefix ++ rest) prefix ≡ true
unfolding covers
covers-of prefix [] h = rw append-nil (ground (arith, same_refl prefix))
covers-of prefix (x ∷ rest) h = ground (
  arith,
  begins_with-append prefix (x ∷ rest),
  slash_at-append prefix (x ∷ rest),
  length-append prefix (x ∷ rest),
)

covers-split :
    (abs prefix : Text)
    → covers abs prefix ≡ true
    → (abs ≡ prefix) ⊎ ((begins_with abs prefix ≡ true) × (slash_at abs (length prefix) ≡ true))
unfolding covers
covers-split abs prefix h = ground (arith, same→eq abs prefix)

pub covers_iff : (abs prefix : Text) → (covers abs prefix ≡ true) ↔ IsUnder abs prefix
covers_iff abs prefix = (forth, λ u. rw u.1 (covers-of prefix u.0 u.2))
  where
    forth : covers abs prefix ≡ true → IsUnder abs prefix
    forth h = elim (covers-split abs prefix h) [
      | inl e ↦ ([], e ∙ sym (append-nil prefix), inl refl)
      | inr (b, s) ↦
          let e = begins_with-split abs prefix b in
          (
            drop (length prefix) abs,
            e,
            inr (
                sym (slash_at-append prefix (drop (length prefix) abs))
                ∙ ap (λ t. slash_at t (length prefix)) (sym e)
                ∙ s),
          )
    ]

-- Two mount points of one length over one path are the same.
pub IsUnder-unique : (abs p q : Text) → IsUnder abs p → IsUnder abs q → length p ≡ length q → p ≡ q
IsUnder-unique abs p q (r, e, _) (s, f, _) h = prefixes p q r s (sym e ∙ f) h
  where
    prefixes : (p q r s : Text) → p ++ r ≡ q ++ s → length p ≡ length q → p ≡ q
    prefixes [] [] r s e h = refl
    prefixes [] (y ∷ q) r s e h = absurd (omega arith)
    prefixes (x ∷ p) [] r s e h = absurd (omega arith)
    prefixes (x ∷ p) (y ∷ q) r s e h = ground (arith, prefixes p q r s)

abbrev rest_or_root : Text → Text
rest_or_root tail = if is_empty tail then codes "/" else tail

rest_or_root_lem :
    (q r : Text)
    → (r ≡ []) ⊎ (starts_with_slash r ≡ true)
    → (starts_with_slash (rest_or_root r) ≡ true)
      × ((q ++ r ≡ q ++ rest_or_root r) ⊎ ((q ++ r ≡ q) × (rest_or_root r ≡ codes "/")))
rest_or_root_lem q [] h = (refl, inr (append-nil q, refl))
rest_or_root_lem q (x ∷ r) h = (ground arith, inl refl)

-- The path that the backend sees starts with a slash, and leads on from the mount point.
pub relative_to_lem :
    (prefix abs : Text)
    → starts_with_slash abs ≡ true
    → IsUnder abs prefix
    → (starts_with_slash (relative_to prefix abs) ≡ true)
      × ((abs ≡ prefix ++ relative_to prefix abs)
          ⊎ ((abs ≡ prefix) × (relative_to prefix abs ≡ codes "/")))
unfolding relative_to
relative_to_lem [] abs a u = (a, inl refl)
relative_to_lem (x ∷ p) abs a (r, e, h) =
    rw (e, drop-append (x ∷ p) r) (rest_or_root_lem (x ∷ p) r h)
