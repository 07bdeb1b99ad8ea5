-- ===== src/Vfs/Resolve.antt =====
-- `resolve` (kernel/src/fs/mod.rs) and longest-prefix matching.
use willo_main.Prelude.{
  ◌≡◌, ◌∙◌, ap, sym, subst, ◌↔◌, ◌⊎◌, inl, inr, true, false, List, ◌++◌, Text, codes, arith, length,
  none, some, Bool-cases, ◌≤◌, Option-cases,
}
use willo_main.Path.{starts_with_slash}
use willo_main.Fs.{not_found, ok, err, FileSystem}
use willo_main.Vfs.{Mount, Vfs, relative_to, best_mount, resolve, resolved}
use willo_main.Vfs.Under.{IsUnder, covers_iff, IsUnder-unique, relative_to_lem}
use willo_main.Vfs.Choice.{serves-IsUnder, Member, reach, best_mount-reach, best_mount-choice}

module _ {W : Type 0} where
  -- The mount owns the path: it is in the table, the path lies under it, and no mount of the table
  -- over the path has a longer prefix.
  pub record IsOwner (ms : List (Mount W)) (abs : Text) (m : Mount W) : Type 0 where
    pub listed : Member m ms
    pub under : IsUnder abs m.prefix
    pub longest :
        (n : Mount W) → Member n ms → IsUnder abs n.prefix → length n.prefix ≤ length m.prefix

  best_mount-IsOwner :
      (ms : List (Mount W)) (abs : Text) (m : Mount W)
      → starts_with_slash abs ≡ true
      → best_mount abs none ms ≡ some m
      → IsOwner ms abs m
  best_mount-IsOwner ms abs m a e = elim (best_mount-choice abs none ms) [
    | inl no_mount ↦ cc
    | inr (n, listed, f, s) ↦
        let one : n ≡ m = cc in
        record {
          listed = subst (λ t. Member t ms) one listed;
          under =
              subst (λ (t : Mount W). IsUnder abs t.prefix) one (serves-IsUnder abs n.prefix a s);
          longest = λ k there u. omega (
            arith,
            (best_mount-reach abs none ms).1 k there ((covers_iff abs k.prefix).1 u),
            ap reach e,
          );
        }
  ]

  resolve-ok :
      (v : Vfs W) (abs : Text) {fs : FileSystem W} {rel : Text}
      → resolve v abs ≡ ok (fs, rel)
      → (starts_with_slash abs ≡ true)
        × ((m : Mount W) × (best_mount abs none v.mounts ≡ some m)
            × (m.fs ≡ fs)
            × (relative_to m.prefix abs ≡ rel))
  unfolding resolve
  resolve-ok v abs h = elim (Bool-cases (starts_with_slash abs)) [
    | inr relative ↦ absurd (ground arith)
    | inl a ↦ (
      a,
      elim (Option-cases (best_mount abs none v.mounts)) [
        | inl e ↦ absurd (ground arith)
        | inr (m, e) ↦ (m, e, ground arith, ground arith)
      ],
    )
  ]

  -- If a path resolves in a mount table, it goes to a mount of the table that it lies under and
  -- whose prefix is the longest of all mounts it lies under; the path passed on starts with a
  -- slash, and is what follows the prefix, or "/" if the path is the mount point itself.
  pub resolve-IsOwner :
      (v : Vfs W) (abs : Text) {fs : FileSystem W} {rel : Text}
      → resolve v abs ≡ ok (fs, rel)
      → (m : Mount W) × IsOwner v.mounts abs m
        × (fs ≡ m.fs)
        × (starts_with_slash rel ≡ true)
        × ((abs ≡ m.prefix ++ rel) ⊎ ((abs ≡ m.prefix) × (rel ≡ codes "/")))
  resolve-IsOwner v abs {rel} h =
      let (a, found) = resolve-ok v abs h in
      let (m, e, same_fs, same_rel) = found in
      let owner = best_mount-IsOwner v.mounts abs m a e in
      let (s, leads) = relative_to_lem m.prefix abs a owner.under in
      (
        m,
        owner,
        sym same_fs,
        subst (λ t. starts_with_slash t ≡ true) same_rel s,
        subst (λ t. (abs ≡ m.prefix ++ t) ⊎ ((abs ≡ m.prefix) × (t ≡ codes "/"))) same_rel leads,
      )

  -- An absolute path under some mount resolves.
  pub best_mount-some :
      (ms : List (Mount W)) (abs : Text) (m : Mount W)
      → Member m ms
      → IsUnder abs m.prefix
      → (n : Mount W) × (best_mount abs none ms ≡ some n)
  best_mount-some ms abs m there u = elim (Option-cases (best_mount abs none ms)) [
    | inl e ↦ absurd (
        omega (
          arith,
          (best_mount-reach abs none ms).1 m there ((covers_iff abs m.prefix).1 u),
          ap reach e,
        ))
    | inr found ↦ found
  ]

  -- Two mounts of one table with one prefix are one mount.
  abbrev pub HasUniquePrefixes : List (Mount W) → Type 0
  HasUniquePrefixes ms = (m n : Mount W) → Member m ms → Member n ms → m.prefix ≡ n.prefix → m ≡ n

  IsOwner-unique :
      (ms : List (Mount W)) (abs : Text) (m n : Mount W)
      → HasUniquePrefixes ms
      → IsOwner ms abs m
      → IsOwner ms abs n
      → m ≡ n
  IsOwner-unique ms abs m n u a b = u m n a.listed b.listed (
      IsUnder-unique abs m.prefix n.prefix a.under b.under
        (omega (arith, a.longest n b.listed b.under, b.longest m a.listed a.under)))

  IsOwner-moved :
      (ms ns : List (Mount W)) (abs : Text) (m : Mount W)
      → ((k : Mount W) → Member k ms ↔ Member k ns)
      → IsOwner ns abs m
      → IsOwner ms abs m
  IsOwner-moved ms ns abs m e o = record {
    listed = (e m).1 o.listed;
    under = o.under;
    longest = λ n there u. o.longest n ((e n).0 there) u;
  }

  best_mount-order :
      (ms ns : List (Mount W)) (abs : Text)
      → starts_with_slash abs ≡ true
      → HasUniquePrefixes ms
      → ((k : Mount W) → Member k ms ↔ Member k ns)
      → best_mount abs none ms ≡ best_mount abs none ns
  best_mount-order ms ns abs a u e = elim (Option-cases (best_mount abs none ms)) [
    | inl nothing ↦ elim (Option-cases (best_mount abs none ns)) [
      | inl nothing' ↦ nothing ∙ sym nothing'
      | inr (n, found') ↦
          let o = best_mount-IsOwner ns abs n a found' in
          let (m, found) = best_mount-some ms abs n ((e n).1 o.listed) o.under in cc
    ]
    | inr (m, found) ↦
        let o = best_mount-IsOwner ms abs m a found in
        let (n, found') = best_mount-some ns abs m ((e m).0 o.listed) o.under in
        let o' = IsOwner-moved ms ns abs n e (best_mount-IsOwner ns abs n a found') in
        found ∙ (ap some (IsOwner-unique ms abs m n u o o') ∙ sym found')
  ]

  -- In a table in which a prefix names one mount, every lookup gives the same result as in any
  -- table with the same mounts in another order.
  pub resolve-order :
      (v w : Vfs W) (abs : Text)
      → HasUniquePrefixes v.mounts
      → ((k : Mount W) → Member k v.mounts ↔ Member k w.mounts)
      → resolve v abs ≡ resolve w abs
  unfolding resolve
  resolve-order v w abs u e = elim (Bool-cases (starts_with_slash abs)) [
    | inr relative ↦ rw relative
    | inl a ↦ rw (a, best_mount-order v.mounts w.mounts abs a u e)
  ]

  resolve_relative :
      (v : Vfs W) (abs : Text) → starts_with_slash abs ≡ false → resolve v abs ≡ err not_found
  unfolding resolve
  resolve_relative v abs h = rw h

  resolve_absolute :
      (v : Vfs W) (abs : Text)
      → starts_with_slash abs ≡ true
      → resolve v abs ≡ resolved abs (best_mount abs none v.mounts)
  unfolding resolve
  resolve_absolute v abs h = rw h

  resolve_free :
      (v : Vfs W) (abs : Text)
      → ((m : Mount W) → Member m v.mounts → ¬ IsUnder abs m.prefix)
      → resolve v abs ≡ err not_found
  resolve_free v abs free = elim (Bool-cases (starts_with_slash abs)) [
    | inr relative ↦ resolve_relative v abs relative
    | inl a ↦ elim (Option-cases (best_mount abs none v.mounts)) [
      | inl nothing ↦ resolve_absolute v abs a ∙ ap (resolved abs) nothing
      | inr (m, found) ↦
          let o = best_mount-IsOwner v.mounts abs m a found in absurd (free m o.listed o.under)
    ]
  ]

  -- A path fails to resolve, with NotFound, exactly if it does not start with a slash or lies
  -- under no mount of the table.
  pub resolve-err_iff :
      (v : Vfs W) (abs : Text)
      → (resolve v abs ≡ err not_found) ↔ (
          (starts_with_slash abs ≡ false)
          ⊎ ((m : Mount W) → Member m v.mounts → ¬ IsUnder abs m.prefix))
  resolve-err_iff v abs = (
    (λ h. elim (Bool-cases (starts_with_slash abs)) [
      | inr relative ↦ inl relative
      | inl a ↦ inr (λ m there u.
          let (n, found) = best_mount-some v.mounts abs m there u in
          cc (resolve_absolute v abs a, ap (resolved abs) found))
    ]),
    (λ h. elim h [
      | inl relative ↦ resolve_relative v abs relative
      | inr free ↦ resolve_free v abs free
    ]),
  )
