-- ===== src/Ata/Polls.antt =====
-- The polling loops of kernel/src/ata.rs, and the selection of a sector.
use willo_main.Ata.Settled.{
  handle, settle, put_count, put_lo, put_mid, put_hi, put_head, IsSteady, idle-IsSteady, Settled,
  Settled-trans, poll-Settled, failed_not_moved, slave_bits, transfer_of, settled-IsOpen,
}
use willo_main.Prelude.{
  ℕ, zero, suc, ◌+◌, ◌/◌, ◌%◌, ◌^◌, ◌≡◌, refl, sym, ◌∙◌, ap, subst, Bool, true, List, Bool-cases,
  inl, inr,
}
use willo_main.Block.{moved}
use willo_main.Ata.{
  Ports, is_set, is_fault, status_bsy, status_drq, poll_not_busy, poll_drq, wait_not_busy, wait_drq,
  delay_400ns, select_lba28, poll_limit,
}
use willo_main.Ata.Protocol.{
  View, idle, storing, requests, finished, committed, settled, IsAta, IsOpen,
}

module _ {W : Type 0} (ports : Ports W) (view : W → View) (ata : IsAta ports view) (n : ℕ) where
  pub status-Settled : (w : W) → Settled (view w) (view (ports.inb 503 w).1)
  status-Settled w =
      subst (Settled (view w)) (sym (ata.status w)) (poll-Settled (ports.inb 503 w).0 (view w))

  pub delay_400ns-Settled : (w : W) → Settled (view w) (view (delay_400ns ports (handle n) w))
  unfolding delay_400ns
  delay_400ns-Settled w =
      let next = λ (w : W). (ports.inb 503 w).1 in
      let w1 = next w in
      let w2 = next w1 in
      let w3 = next w2 in
      Settled-trans _ _ _ (status-Settled w) (
        Settled-trans _ _ _ (status-Settled w1)
          (Settled-trans _ _ _ (status-Settled w2) (status-Settled w3)))

  -- A wait for a drive at rest: it is open, and its sectors are as before.
  poll_not_busy-IsOpen :
      (rounds : ℕ) (w w' : W)
      → (view w).transfer ≡ idle
      → poll_not_busy ports (handle n) rounds w ≡ (moved tt, w')
      → IsOpen (view w') × ((view w').blocks ≡ (view w).blocks)
  unfolding poll_not_busy
  poll_not_busy-IsOpen zero w w' t h = cc
  poll_not_busy-IsOpen (suc rounds) w w' t h =
      let s = (ports.inb 503 w).0 in
      let w1 = (ports.inb 503 w).1 in
      let st : IsSteady (view w).transfer = subst IsSteady (sym t) idle-IsSteady in
      let (f, r, seen, hf, hr) = status-Settled w st in
      elim (Bool-cases (is_set s status_bsy)) [
        | inl e ↦
            let (opened, kept) =
              poll_not_busy-IsOpen rounds w1 w' (ap transfer_of seen ∙ t) (rw e at h) in
            (opened, kept ∙ ap (λ (v : View). v.blocks) seen)
        | inr e ↦ elim (Bool-cases (is_fault s)) [
          | inl e1 ↦ absurd (failed_not_moved _ _ _ _ (rw (e, e1) at h))
          | inr e1 ↦
              let same_world : w1 ≡ w' = ap (λ r. r.1) (rw (e, e1) at h) in
              let d = ata.quiet w (ap requests t) e in
              subst (λ x. IsOpen (view x) × ((view x).blocks ≡ (view w).blocks)) same_world
                (
                  subst IsOpen (sym (ata.status w)) (settled-IsOpen s (view w) t e e1 d),
                  ap (λ (v : View). v.blocks) seen,
                )
        ]
      ]

  -- A wait for a drive that stores a sector: it has stored it, and is at rest.
  poll_not_busy-stores :
      (rounds : ℕ) (lba : ℕ) (words : List ℕ) (w w' : W)
      → (view w).transfer ≡ storing lba words
      → poll_not_busy ports (handle n) rounds w ≡ (moved tt, w')
      → IsOpen (view w') × ((view w').blocks ≡ committed (storing lba words) (view w).blocks)
  unfolding poll_not_busy
  poll_not_busy-stores zero lba words w w' t h = cc
  poll_not_busy-stores (suc rounds) lba words w w' t h =
      let s = (ports.inb 503 w).0 in
      let w1 = (ports.inb 503 w).1 in
      elim (Bool-cases (is_set s status_bsy)) [
        | inl e ↦
            let same_view : view w1 ≡ view w = ata.status w ∙ rw e refl in
            let (opened, put) =
              poll_not_busy-stores rounds lba words w1 w' (ap transfer_of same_view ∙ t)
                (rw e at h) in
            (opened, put ∙ ap (λ (v : View). committed (storing lba words) v.blocks) same_view)
        | inr e ↦ elim (Bool-cases (is_fault s)) [
          | inl e1 ↦ absurd (failed_not_moved _ _ _ _ (rw (e, e1) at h))
          | inr e1 ↦
              let same_world : w1 ≡ w' = ap (λ r. r.1) (rw (e, e1) at h) in
              let d = ata.quiet w (ap requests t) e in
              let shown : view w1 ≡ settled (view w) = ata.status w ∙ rw (e, e1, d) refl in
              subst
                (λ x.
                  IsOpen (view x)
                  × ((view x).blocks ≡ committed (storing lba words) (view w).blocks))
                same_world
                (
                  subst IsOpen (sym shown) (record { free = refl; rest = ap finished t }),
                  ap (λ (v : View). v.blocks) shown ∙ ap (λ x. committed x (view w).blocks) t,
                )
        ]
      ]

  poll_drq-Settled :
      (rounds : ℕ) (w w' : W)
      → poll_drq ports (handle n) rounds w ≡ (moved tt, w')
      → Settled (view w) (view w') × ((view w').ready ≡ true)
  unfolding poll_drq
  poll_drq-Settled zero w w' h = cc
  poll_drq-Settled (suc rounds) w w' h =
      let s = (ports.inb 503 w).0 in
      let w1 = (ports.inb 503 w).1 in
      let again : poll_drq ports (handle n) rounds w1 ≡ (moved tt, w')
          → Settled (view w) (view w') × ((view w').ready ≡ true) =
        λ next.
          let (keep, ready) = poll_drq-Settled rounds w1 w' next in
          (Settled-trans _ _ _ (status-Settled w) keep, ready) in
      elim (Bool-cases (is_set s status_bsy)) [
        | inl e ↦ again (rw e at h)
        | inr e ↦ elim (Bool-cases (is_fault s)) [
          | inl e1 ↦ absurd (failed_not_moved _ _ _ _ (rw (e, e1) at h))
          | inr e1 ↦ elim (Bool-cases (is_set s status_drq)) [
            | inl e2 ↦
                let same_world : w1 ≡ w' = ap (λ r. r.1) (rw (e, e1, e2) at h) in
                let seen : (view w1).ready ≡ true =
                  ap (λ (v : View). v.ready) (ata.status w) ∙ rw (e, e1, e2) refl in
                subst (λ x. Settled (view w) (view x) × ((view x).ready ≡ true)) same_world
                  (status-Settled w, seen)
            | inr e2 ↦ again (rw (e, e1, e2) at h)
          ]
        ]
      ]

  pub wait_not_busy-IsOpen :
      (w w' : W)
      → (view w).transfer ≡ idle
      → wait_not_busy ports (handle n) w ≡ (moved tt, w')
      → IsOpen (view w') × ((view w').blocks ≡ (view w).blocks)
  unfolding wait_not_busy
  wait_not_busy-IsOpen w w' t h = poll_not_busy-IsOpen poll_limit w w' t h

  pub wait_not_busy-stores :
      (lba : ℕ) (words : List ℕ) (w w' : W)
      → (view w).transfer ≡ storing lba words
      → wait_not_busy ports (handle n) w ≡ (moved tt, w')
      → IsOpen (view w') × ((view w').blocks ≡ committed (storing lba words) (view w).blocks)
  unfolding wait_not_busy
  wait_not_busy-stores lba words w w' t h = poll_not_busy-stores poll_limit lba words w w' t h

  pub wait_drq-Settled :
      (w w' : W)
      → wait_drq ports (handle n) w ≡ (moved tt, w')
      → Settled (view w) (view w') × ((view w').ready ≡ true)
  unfolding wait_drq
  wait_drq-Settled w w' h = poll_drq-Settled poll_limit w w' h

  -- The drive after `select_lba28` of one sector.
  pub select_lba28-view :
      (lba : ℕ) (w : W)
      → IsOpen (view w)
      → (r : Bool) × (view (select_lba28 ports (handle n) lba 1 w) ≡ (
          let v = view w in
          record v {
            count = 1;
            lo = lba % 256;
            mid = (lba / 2 ^ 8) % 256;
            hi = (lba / 2 ^ 16) % 256;
            head = 240 + (lba / 2 ^ 24) % 16;
            free = true;
            ready = r;
          }))
  unfolding select_lba28
  select_lba28-view lba w h =
      let d = handle n in
      let w1 = ports.outb 502 (240 + (lba / 2 ^ 24) % 16) w in
      let e1 = ata.put_head (240 + (lba / 2 ^ 24) % 16) w h (slave_bits lba) in
      let w2 = delay_400ns ports d w1 in
      let open1 : IsOpen (view w1) =
        subst IsOpen (sym e1) (record { free = h.free; rest = h.rest }) in
      let (f, r, e2, hf, hr) =
        delay_400ns-Settled w1 (subst IsSteady (sym open1.rest) idle-IsSteady) in
      let f_true : f ≡ true = hf open1.free in
      let open2 : IsOpen (view w2) =
        subst IsOpen (sym e2) (record { free = f_true; rest = open1.rest }) in
      let e3 = ata.put_count 1 w2 open2 in
      let w3 = ports.outb 498 1 w2 in
      let open3 : IsOpen (view w3) =
        subst IsOpen (sym e3) (record { free = open2.free; rest = open2.rest }) in
      let e4 = ata.put_lo (lba % 256) w3 open3 in
      let w4 = ports.outb 499 (lba % 256) w3 in
      let open4 : IsOpen (view w4) =
        subst IsOpen (sym e4) (record { free = open3.free; rest = open3.rest }) in
      let e5 = ata.put_mid ((lba / 2 ^ 8) % 256) w4 open4 in
      let w5 = ports.outb 500 ((lba / 2 ^ 8) % 256) w4 in
      let open5 : IsOpen (view w5) =
        subst IsOpen (sym e5) (record { free = open4.free; rest = open4.rest }) in
      let e6 = ata.put_hi ((lba / 2 ^ 16) % 256) w5 open5 in
      (
        r,
        e6
            ∙ ap (λ (v : View). put_hi (lba / 2 ^ 16) v)
                (e5
                  ∙ ap (λ (v : View). put_mid (lba / 2 ^ 8) v)
                      (e4
                        ∙ ap (λ (v : View). put_lo lba v)
                            (e3
                              ∙ ap (λ (v : View). put_count v)
                                  (e2
                                    ∙ ap (settle f r) e1
                                    ∙ ap (λ (b : Bool). settle b r (put_head lba (view w)))
                                        f_true)))),
      )
