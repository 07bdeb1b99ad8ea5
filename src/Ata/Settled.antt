-- ===== src/Ata/Settled.antt =====
-- What reads of the status change in a drive's state (kernel/src/ata.rs, the polling loops).
use willo_main.Prelude.{
  ℕ, ◌+◌, ◌/◌, ◌%◌, ◌^◌, ◌≡◌, ◌≢◌, refl, sym, ◌∙◌, ap, subst, Bool, true, false, List, arith,
  Bool-cases, inl, inr,
}
use willo_main.Block.{BlockError, BlockResult, moved, failed}
use willo_main.Ata.{AtaDrive, new_primary_slave, is_set, is_fault, status_bsy, status_drq}
use willo_main.Ata.Protocol.{
  View, Transfer, idle, reading, writing, finished, committed, settled, poll, IsOpen,
}

-- The handle that `identify` fills.
abbrev pub handle : ℕ → AtaDrive
handle n = (let d = new_primary_slave in record d { sectors = n })

abbrev pub settle : Bool → Bool → View → View
settle f r v = record v { free = f; ready = r }

abbrev pub put_count : View → View
put_count v = record v { count = 1 }

abbrev pub put_lo : ℕ → View → View
put_lo x v = record v { lo = x % 256 }

abbrev pub put_mid : ℕ → View → View
put_mid x v = record v { mid = x % 256 }

abbrev pub put_hi : ℕ → View → View
put_hi x v = record v { hi = x % 256 }

abbrev pub put_head : ℕ → View → View
put_head lba v = record v { head = 240 + (lba / 2 ^ 24) % 16 }

-- A transfer that no status ends.
pub record IsSteady (t : Transfer) : Type 0 where
  pub same : finished t ≡ t
  pub kept : (b : ℕ → List ℕ) → committed t b ≡ b

pub idle-IsSteady : IsSteady idle
idle-IsSteady = record { same = refl; kept = λ b. refl }

pub reading-IsSteady : (words : List ℕ) → IsSteady (reading words)
reading-IsSteady words = record { same = refl; kept = λ b. refl }

pub writing-IsSteady : (lba : ℕ) (words : List ℕ) → IsSteady (writing lba words)
writing-IsSteady lba words = record { same = refl; kept = λ b. refl }

-- Reads of the status show more of it, and change nothing else, as long as no sector is stored.
abbrev pub Settled : View → View → Type 0
Settled v v' =
    IsSteady v.transfer
    → (f : Bool) × (r : Bool) × (v' ≡ settle f r v)
      × (v.free ≡ true → f ≡ true)
      × (v.ready ≡ true → r ≡ true)

pub Settled-refl : (v : View) → Settled v v
Settled-refl v st = (v.free, v.ready, refl, (λ h. h), λ h. h)

pub Settled-trans : (u v w : View) → Settled u v → Settled v w → Settled u w
Settled-trans u v w p q st =
    let (f, r, e, hf, hr) = p st in
    let (f', r', e', hf', hr') = q (subst IsSteady (sym (ap (λ (v : View). v.transfer) e)) st) in
    (
      f',
      r',
      e' ∙ ap (settle f' r') e,
      (λ h. hf' (ap (λ v. v.free) e ∙ hf h)),
      λ h. hr' (ap (λ v. v.ready) e ∙ hr h),
    )

pub settled_lem : (v : View) → IsSteady v.transfer → settled v ≡ settle true v.ready v
settled_lem v st = rw (st.same, st.kept v.blocks) refl

pub poll-Settled : (s : ℕ) (v : View) → Settled v (poll s v)
poll-Settled s v st = elim (Bool-cases (is_set s status_bsy)) [
  | inl e ↦ rw e (Settled-refl v st)
  | inr e ↦ elim (Bool-cases (is_fault s)) [
    | inl e1 ↦ rw (e, e1) (Settled-refl v st)
    | inr e1 ↦ elim (Bool-cases (is_set s status_drq)) [
      | inl e2 ↦ rw (e, e1, e2) (v.free, true, refl, (λ h. h), λ h. refl)
      | inr e2 ↦ rw (e, e1, e2) (true, v.ready, settled_lem v st, (λ h. refl), λ h. h)
    ]
  ]
]

pub failed_not_moved :
    {W A : Type 0} (e : BlockError) (a : A) (w w' : W)
    → ◌≢◌ {A = BlockResult A × W} (failed e, w) (moved a, w')
failed_not_moved e a w w' h = cc

pub slave_bits : (lba : ℕ) → (240 + (lba / 2 ^ 24) % 16) / 16 ≡ 15
slave_bits lba = omega arith

abbrev pub transfer_of : View → Transfer
transfer_of v = v.transfer

-- A status without BSY and without an error opens a drive at rest.
pub settled-IsOpen :
    (s : ℕ) (v : View)
    → v.transfer ≡ idle
    → is_set s status_bsy ≡ false
    → is_fault s ≡ false
    → is_set s status_drq ≡ false
    → IsOpen (poll s v)
settled-IsOpen s v t b f d = rw (b, f, d) (record { free = refl; rest = ap finished t })
