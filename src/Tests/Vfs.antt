-- ===== src/Tests/Vfs.antt =====
-- A mount table as `mount_root` builds it (kernel/src/fs/mod.rs).
use willo_main.Prelude.{ℕ, ◌≡◌, refl, ◌↔◌, ◌⊎◌, inl, inr, true, false, [], ◌∷◌, ◌++◌, codes, arith}
use willo_main.Path.{starts_with_slash, canonical_prefix}
use willo_main.Fs.{not_found, ok, err, FileSystem}
use willo_main.Tmp.{fresh, tmpfs}
use willo_main.Tmp
use willo_main.Ram.{seed, ramfs}
use willo_main.Vfs.{Mount, Vfs, new, mount, unmount, resolve, mounted}
use willo_main.Vfs.Under.{IsUnder}
use willo_main.Vfs.Choice.{Member}
use willo_main.Vfs.Resolve.{IsOwner, resolve-IsOwner, resolve-order, resolve-err_iff}
use willo_main.Vfs.Table.{
  IsValid, mount-IsValid, unmount_lem, others, unmount-mount, Distinct-HasUniquePrefixes,
}

-- The tick counter and the tree of the tmpfs.
abbrev World : Type 0
World = ℕ × Tmp.Node

abbrev root_fs : FileSystem World
root_fs = ramfs seed (λ w. w.0)

abbrev tmp_fs : FileSystem World
tmp_fs = tmpfs (λ w. w.1) (λ n w. (w.0, n))

abbrev root_mount : Mount World
root_mount = record { prefix = []; fs = root_fs }

abbrev tmp_mount : Mount World
tmp_mount = record { prefix = codes "/tmp"; fs = tmp_fs }

abbrev table : Vfs World
table = record { mounts = root_mount ∷ tmp_mount ∷ [] }

abbrev turned : Vfs World
turned = record { mounts = tmp_mount ∷ root_mount ∷ [] }

mount_run : mount (mount new (codes "/") root_fs).1 (codes "/tmp/") tmp_fs ≡ (ok tt, table)
unfolding mount new canonical_prefix
mount_run = refl

mount_second : mount (record { mounts = root_mount ∷ [] }) (codes "/tmp/") tmp_fs ≡ (ok tt, table)
unfolding mount canonical_prefix
mount_second = refl

resolve_run :
    (resolve table (codes "/tmp/log") ≡ ok (tmp_fs, codes "/log"))
    × (resolve table (codes "/tmp") ≡ ok (tmp_fs, codes "/"))
    × (resolve table (codes "/tmpx") ≡ ok (root_fs, codes "/tmpx"))
unfolding resolve
resolve_run = (refl, refl, refl)

table-IsValid : IsValid table
unfolding mounted
table-IsValid = record {
  room = omega arith;
  distinct = (refl, (refl, tt));
  stored = ((refl, inl refl), ((refl, inr refl), tt));
}

swap_members : (k : Mount World) → Member k table.mounts ↔ Member k turned.mounts
swap_members k = (
  (λ h. elim h [ inl e ↦ inr (inl e) | inr r ↦ (elim r [ inl e ↦ inl e | inr z ↦ absurd z ]) ]),
  (λ h. elim h [ inl e ↦ inr (inl e) | inr r ↦ (elim r [ inl e ↦ inl e | inr z ↦ absurd z ]) ]),
)

resolve-IsOwner_example :
    (m : Mount World) × IsOwner table.mounts (codes "/tmp/log") m
    × (tmp_fs ≡ m.fs)
    × (starts_with_slash (codes "/log") ≡ true)
    × ((codes "/tmp/log" ≡ m.prefix ++ codes "/log")
        ⊎ ((codes "/tmp/log" ≡ m.prefix) × (codes "/log" ≡ codes "/")))
resolve-IsOwner_example = resolve-IsOwner table (codes "/tmp/log") resolve_run.0

resolve-order_example : resolve table (codes "/tmp/log") ≡ resolve turned (codes "/tmp/log")
resolve-order_example =
    resolve-order table turned (codes "/tmp/log")
      (Distinct-HasUniquePrefixes table.mounts table-IsValid.distinct) swap_members

mount-IsValid_example : IsValid (mount table (codes "/ram") root_fs).1
mount-IsValid_example = mount-IsValid table (codes "/ram") root_fs table-IsValid

unmount_lem_example :
    (((unmount table (codes "/tmp/")).0 ≡ ok tt)
      ↔ ((m : Mount World) × Member m table.mounts × (m.prefix ≡ canonical_prefix (codes "/tmp/"))))
    × ((unmount table (codes "/tmp/")).1.mounts
        ≡ others (canonical_prefix (codes "/tmp/")) table.mounts)
    × IsValid (unmount table (codes "/tmp/")).1
unmount_lem_example = unmount_lem table (codes "/tmp/") table-IsValid

unmount-mount_example : unmount table (codes "/tmp/") ≡ (ok tt, record { mounts = root_mount ∷ [] })
unmount-mount_example =
    unmount-mount (record { mounts = root_mount ∷ [] }) table (codes "/tmp/") tmp_fs mount_second

resolve-err_iff_example : (resolve table (codes "log") ≡ err not_found) ↔ (
    (starts_with_slash (codes "log") ≡ false)
    ⊎ ((m : Mount World) → Member m table.mounts → ¬ IsUnder (codes "log") m.prefix))
resolve-err_iff_example = resolve-err_iff table (codes "log")
