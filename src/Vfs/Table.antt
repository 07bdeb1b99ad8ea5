-- ===== src/Vfs/Table.antt =====
-- `mount` and `unmount` (kernel/src/fs/mod.rs) on well-formed mount tables.
use willo_main.Prelude.{
  ◌↔◌, if◌then◌else◌, ◌≡◌, refl, ◌∙◌, ap, sym, inl, inr, true, false, List, [], ◌∷◌, Text, leb,
  arith, length, Bool-cases, ◌||◌, All, ◌≤◌, same, same_refl, same→eq, push, All-append,
  length-append,
}
use willo_main.Path.{starts_with_slash, canonical_prefix}
use willo_main.Path.Prefix.{IsStored, canonical_prefix-IsStored}
use willo_main.Fs.{ok, FileSystem}
use willo_main.Vfs.{Mount, Vfs, mounted, mount, unmount, remove_mount, max_mounts, new}
use willo_main.Vfs.Choice.{Member}
use willo_main.Vfs.Resolve.{HasUniquePrefixes}

same-sym : (s t : Text) → same s t ≡ false → same t s ≡ false
same-sym s t h = elim (Bool-cases (same t s)) [
  | inl e ↦ cc (same→eq t s e, same_refl t)
  | inr e ↦ e
]

module _ {W : Type 0} where
  -- No prefix is stored twice.
  abbrev pub Distinct : List (Mount W) → Type 0
  Distinct [] = Unit
  Distinct (m ∷ ms) = (mounted m.prefix ms ≡ false) × Distinct ms

  pub record IsValid (v : Vfs W) : Type 0 where
    pub room : length v.mounts ≤ max_mounts
    pub distinct : Distinct v.mounts
    pub stored : All (λ (m : Mount W). IsStored m.prefix) v.mounts

  pub new-IsValid : IsValid new
  unfolding new
  new-IsValid = record { room = omega arith; distinct = tt; stored = tt }

  mounted-push :
      (p : Text) (ms : List (Mount W)) (m : Mount W)
      → mounted p (push ms m) ≡ (mounted p ms || same m.prefix p)
  unfolding mounted
  mounted-push p [] m = ground arith
  mounted-push p (x ∷ ms) m = ground (arith, mounted-push p ms m)

  Distinct-push :
      (ms : List (Mount W)) (m : Mount W)
      → Distinct ms
      → mounted m.prefix ms ≡ false
      → Distinct (push ms m)
  unfolding mounted
  Distinct-push [] m d h = (refl, tt)
  Distinct-push (x ∷ ms) m d h = (
    ground (arith, mounted-push x.prefix ms m, same-sym x.prefix m.prefix),
    Distinct-push ms m d.1 (ground arith),
  )

  -- From a valid table (at most eight mounts, no prefix twice, every prefix empty or absolute with
  -- no slash at its end), mount leaves a valid table, whether it succeeds or fails.
  pub mount-IsValid :
      (v : Vfs W) (prefix : Text) (fs : FileSystem W) → IsValid v → IsValid (mount v prefix fs).1
  unfolding mount
  mount-IsValid v prefix fs h = elim (Bool-cases (leb max_mounts (length v.mounts))) [
    | inl full ↦ rw full h
    | inr free ↦ elim (Bool-cases (starts_with_slash prefix)) [
      | inr bad ↦ rw (free, bad) h
      | inl good ↦ elim (Bool-cases (mounted (canonical_prefix prefix) v.mounts)) [
        | inl taken ↦ rw (free, good, taken) h
        | inr fresh ↦ rw (free, good, fresh) (pushed good free fresh)
      ]
    ]
  ]
    where
      m : Mount W
      m = record { prefix = canonical_prefix prefix; fs = fs }

      pushed :
          starts_with_slash prefix ≡ true
          → leb max_mounts (length v.mounts) ≡ false
          → mounted (canonical_prefix prefix) v.mounts ≡ false
          → IsValid (record { mounts = push v.mounts m })
      pushed good free fresh = record {
        room = ground (arith, length-append v.mounts (m ∷ []));
        distinct = Distinct-push v.mounts m h.distinct fresh;
        stored =
            All-append (λ (n : Mount W). IsStored n.prefix) v.mounts (m ∷ []) h.stored
              (canonical_prefix-IsStored prefix good, tt);
      }

  mounted-remove_mount :
      (p q : Text) (ms : List (Mount W))
      → mounted p ms ≡ false
      → mounted p (remove_mount q ms) ≡ false
  unfolding mounted remove_mount
  mounted-remove_mount p q [] h = refl
  mounted-remove_mount p q (x ∷ ms) h = ground (arith, mounted-remove_mount p q ms)

  Distinct-remove_mount :
      (q : Text) (ms : List (Mount W)) → Distinct ms → Distinct (remove_mount q ms)
  unfolding remove_mount
  Distinct-remove_mount q [] d = tt
  Distinct-remove_mount q (x ∷ ms) d = elim (Bool-cases (same x.prefix q)) [
    | inl e ↦ rw e d.1
    | inr e ↦ rw e (mounted-remove_mount x.prefix q ms d.0, Distinct-remove_mount q ms d.1)
  ]

  length-remove_mount : (q : Text) (ms : List (Mount W)) → length (remove_mount q ms) ≤ length ms
  unfolding remove_mount
  length-remove_mount q [] = omega arith
  length-remove_mount q (x ∷ ms) = ground (arith, length-remove_mount q ms)

  All-remove_mount {κ} :
      (P : Mount W → Type κ) (q : Text) (ms : List (Mount W)) → All P ms → All P (remove_mount q ms)
  unfolding remove_mount
  All-remove_mount P q [] h = tt
  All-remove_mount P q (x ∷ ms) h = elim (Bool-cases (same x.prefix q)) [
    | inl e ↦ rw e h.1
    | inr e ↦ rw e (h.0, All-remove_mount P q ms h.1)
  ]

  unmount-IsValid : (v : Vfs W) (prefix : Text) → IsValid v → IsValid (unmount v prefix).1
  unfolding unmount
  unmount-IsValid v prefix h = elim (Bool-cases (mounted (canonical_prefix prefix) v.mounts)) [
    | inr absent ↦ rw absent h
    | inl there ↦ rw there (record {
      room = omega (arith, length-remove_mount (canonical_prefix prefix) v.mounts, h.room);
      distinct = Distinct-remove_mount (canonical_prefix prefix) v.mounts h.distinct;
      stored =
          All-remove_mount (λ (n : Mount W). IsStored n.prefix) (canonical_prefix prefix) v.mounts
            h.stored;
    })
  ]

  remove_mount-push :
      (ms : List (Mount W)) (m : Mount W)
      → mounted m.prefix ms ≡ false
      → remove_mount m.prefix (push ms m) ≡ ms
  unfolding remove_mount mounted
  remove_mount-push [] m h = rw (same_refl m.prefix)
  remove_mount-push (x ∷ ms) m h = elim (Bool-cases (same x.prefix m.prefix)) [
    | inl e ↦ absurd (ground arith)
    | inr e ↦ rw e (ap (λ t. x ∷ t) (remove_mount-push ms m (ground arith)))
  ]

  mount-ok :
      (v v' : Vfs W) (prefix : Text) (fs : FileSystem W)
      → mount v prefix fs ≡ (ok tt, v')
      → (mounted (canonical_prefix prefix) v.mounts ≡ false)
        × (v' ≡ record {
          mounts = push v.mounts (record { prefix = canonical_prefix prefix; fs = fs });
        })
  unfolding mount
  mount-ok v v' prefix fs h = ground arith

  unmount-push :
      (ms : List (Mount W)) (m : Mount W) (prefix : Text)
      → canonical_prefix prefix ≡ m.prefix
      → mounted m.prefix ms ≡ false
      → unmount (record { mounts = push ms m }) prefix ≡ (ok tt, record { mounts = ms })
  unfolding unmount
  unmount-push ms m prefix e h =
      rw (e, mounted-push m.prefix ms m, h, same_refl m.prefix, remove_mount-push ms m h)

  -- After a successful mount, unmounting the same prefix succeeds and gives back the table from
  -- before.
  pub unmount-mount :
      (v v' : Vfs W) (prefix : Text) (fs : FileSystem W)
      → mount v prefix fs ≡ (ok tt, v')
      → unmount v' prefix ≡ (ok tt, v)
  unmount-mount v v' prefix fs h =
      let (fresh, e) = mount-ok v v' prefix fs h in
      rw e (
        unmount-push v.mounts (record { prefix = canonical_prefix prefix; fs = fs }) prefix refl
          fresh)

  Member-mounted : (m : Mount W) (ms : List (Mount W)) → Member m ms → mounted m.prefix ms ≡ true
  unfolding mounted
  Member-mounted m [] h = absurd h
  Member-mounted m (x ∷ ms) (inl e) = rw (← e, same_refl m.prefix)
  Member-mounted m (x ∷ ms) (inr r) = ground (arith, Member-mounted m ms r)

  mounted-Member :
      (p : Text) (ms : List (Mount W))
      → mounted p ms ≡ true
      → (m : Mount W) × Member m ms × (m.prefix ≡ p)
  unfolding mounted
  mounted-Member p [] h = cc
  mounted-Member p (x ∷ ms) h = elim (Bool-cases (same x.prefix p)) [
    | inl e ↦ (x, inl refl, same→eq x.prefix p e)
    | inr e ↦ let (m, member, named) = mounted-Member p ms (ground arith) in (m, inr member, named)
  ]

  -- The mounts with another prefix, in their order.
  abbrev pub others : Text → List (Mount W) → List (Mount W)
  others p [] = []
  others p (m ∷ ms) = if same m.prefix p then others p ms else m ∷ others p ms

  others-absent : (p : Text) (ms : List (Mount W)) → mounted p ms ≡ false → others p ms ≡ ms
  unfolding mounted
  others-absent p [] h = refl
  others-absent p (x ∷ ms) h = elim (Bool-cases (same x.prefix p)) [
    | inl e ↦ absurd (ground arith)
    | inr e ↦ rw e (ap (λ t. x ∷ t) (others-absent p ms (ground arith)))
  ]

  remove_mount-others :
      (p : Text) (ms : List (Mount W)) → Distinct ms → remove_mount p ms ≡ others p ms
  unfolding remove_mount
  remove_mount-others p [] d = refl
  remove_mount-others p (x ∷ ms) d = elim (Bool-cases (same x.prefix p)) [
    | inl e ↦
        let alone = ap (λ q. mounted q ms) (sym (same→eq x.prefix p e)) ∙ d.0 in
        rw e (sym (others-absent p ms alone))
    | inr e ↦ rw e (ap (λ t. x ∷ t) (remove_mount-others p ms d.1))
  ]

  -- From a valid table, unmount succeeds exactly if a mount has the prefix in its canonical form,
  -- and it leaves, whether it succeeds or not, exactly the mounts with another prefix, in their
  -- order, and a valid table.
  pub unmount_lem :
      (v : Vfs W) (prefix : Text)
      → IsValid v
      → (((unmount v prefix).0 ≡ ok tt)
          ↔ ((m : Mount W) × Member m v.mounts × (m.prefix ≡ canonical_prefix prefix)))
        × ((unmount v prefix).1.mounts ≡ others (canonical_prefix prefix) v.mounts)
        × IsValid (unmount v prefix).1
  unfolding unmount
  unmount_lem v prefix h =
      let p = canonical_prefix prefix in
      let valid = unmount-IsValid v prefix h in
      elim (Bool-cases (mounted p v.mounts)) [
        | inl there ↦ (
          rw there ((λ e. mounted-Member p v.mounts there), λ m. refl),
          rw there (remove_mount-others p v.mounts h.distinct),
          valid,
        )
        | inr absent ↦ (
          rw absent (
            (λ e. cc),
            λ (m, member, named).
                cc (absent, ap (λ q. mounted q v.mounts) named, Member-mounted m v.mounts member),
          ),
          rw absent (sym (others-absent p v.mounts absent)),
          valid,
        )
      ]

  -- In a valid table a prefix names one mount.
  pub Distinct-HasUniquePrefixes : (ms : List (Mount W)) → Distinct ms → HasUniquePrefixes ms
  Distinct-HasUniquePrefixes [] d m n a b e = absurd a
  Distinct-HasUniquePrefixes (x ∷ ms) d m n (inl a) (inl b) e = a ∙ sym b
  Distinct-HasUniquePrefixes (x ∷ ms) d m n (inl a) (inr b) e =
      cc (Member-mounted n ms b, d.0, a, e)
  Distinct-HasUniquePrefixes (x ∷ ms) d m n (inr a) (inl b) e =
      cc (Member-mounted m ms a, d.0, b, e)
  Distinct-HasUniquePrefixes (x ∷ ms) d m n (inr a) (inr b) e =
      Distinct-HasUniquePrefixes ms d.1 m n a b e
