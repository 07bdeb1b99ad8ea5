-- ===== src/Ata/Reads.antt =====
-- Reading a sector (kernel/src/ata.rs, `read_block`) from a drive that follows the protocol.
use willo_main.Prelude.{
  ℕ, suc, ◌+◌, ◌*◌, ◌/◌, ◌%◌, ◌^◌, ◌<◌, ◌≤◌, ◌≡◌, refl, sym, ◌∙◌, ap, subst, true, false, List, [],
  ◌∷◌, Text, leb, ltb, length, Bool-cases, inl, inr, arith,
}
use willo_main.Fs.{overwrite}
use willo_main.Block.{BlockResult, moved, failed, block_size}
use willo_main.Ata.{
  Ports, and_then, wait_not_busy, wait_drq, delay_400ns, select_lba28, read_sector,
  cmd_read_sectors,
}
use willo_main.Ata.Protocol.{
  View, Transfer, IsAta, IsOpen, idle, reading, address, start_read, bytes_of,
}
use willo_main.Ata.Settled.{
  handle, settle, transfer_of, slave_bits, reading-IsSteady, IsSteady, failed_not_moved,
}
use willo_main.Ata.Polls.{
  wait_not_busy-IsOpen, wait_drq-Settled, delay_400ns-Settled, select_lba28-view,
}
use willo_main.Ata.Drive.{read_block, receive_sector}

pub and_then-moved :
    {W A B : Type 0} (r : BlockResult A × W) (next : W → BlockResult B × W) (b : B) (w' : W)
    → and_then r next ≡ (moved b, w')
    → (a : A) × (w : W) × (r ≡ (moved a, w)) × (next w ≡ (moved b, w'))
and_then-moved (failed e, w) next b w' h = absurd (failed_not_moved e b w w' h)
and_then-moved (moved a, w) next b w' h = (a, w, refl, h)

-- The four registers hold all bits of a 28-bit address.
pub address_bits :
    (lba : ℕ)
    → lba < 2 ^ 28
    → lba % 256
        + ((lba / 2 ^ 8) % 256) * 2 ^ 8
        + ((lba / 2 ^ 16) % 256) * 2 ^ 16
        + ((240 + (lba / 2 ^ 24) % 16) % 16) * 2 ^ 24
      ≡ lba
address_bits lba h = omega (arith, h)

pub leb-false : (a b : ℕ) → leb a b ≡ false → b < a
leb-false a b h = ground (arith, h)

abbrev payload : BlockResult (ℕ × Text) → ℕ × Text
payload (failed e) = (0, [])
payload (moved a) = a

module _ {W : Type 0} (ports : Ports W) (view : W → View) (ata : IsAta ports view) (n : ℕ) where
  -- The drive's registers select a sector, and its sectors are these.
  pub record IsSelected (lba : ℕ) (blocks : ℕ → List ℕ) (v : View) : Type 0 where
    pub opened : IsOpen v
    pub slave : v.head / 16 ≡ 15
    pub one : v.count ≡ 1
    pub addressed : address v ≡ lba
    pub kept : v.blocks ≡ blocks

  pub select_lba28-IsSelected :
      (lba : ℕ) (w : W)
      → lba < 2 ^ 28
      → IsOpen (view w)
      → IsSelected lba (view w).blocks (view (select_lba28 ports (handle n) lba 1 w))
  select_lba28-IsSelected lba w h opened =
      let (r, e) = select_lba28-view ports view ata n lba w opened in
      subst (IsSelected lba (view w).blocks) (sym e) (record {
        opened = record { free = refl; rest = opened.rest };
        slave = slave_bits lba;
        one = refl;
        addressed = address_bits lba h;
        kept = refl;
      })

  -- The words that are left give their bytes, and the drive is at rest behind the last one.
  read_sector-bytes :
      (word : ℕ) (words : List ℕ) (w : W)
      → (view w).ready ≡ true
      → (view w).transfer ≡ reading (word ∷ words)
      → (let r = read_sector ports (handle n) (suc (length words)) w in
          (r.0 ≡ bytes_of (word ∷ words))
          × ((view r.1).blocks ≡ (view w).blocks)
          × ((view r.1).transfer ≡ idle))
  unfolding read_sector
  read_sector-bytes word [] w h t =
      let (got, e) = ata.data_in word [] w h t in
      (rw got refl, ap (λ (v : View). v.blocks) e, ap transfer_of e)
  read_sector-bytes word (next ∷ words) w h t =
      let (got, e) = ata.data_in word (next ∷ words) w h t in
      let w1 = (ports.inw 496 w).1 in
      let h1 : (view w1).ready ≡ true = ap (λ (v : View). v.ready) e ∙ h in
      let (rest, kept, over) = read_sector-bytes next words w1 h1 (ap transfer_of e) in
      (rw (got, rest) refl, kept ∙ ap (λ (v : View). v.blocks) e, over)

  -- A sector that the drive gives.
  read_sector-sector :
      (k : ℕ) (words : List ℕ) (w : W)
      → length words ≡ suc k
      → (view w).ready ≡ true
      → (view w).transfer ≡ reading words
      → (let r = read_sector ports (handle n) (suc k) w in
          (r.0 ≡ bytes_of words)
          × ((view r.1).blocks ≡ (view w).blocks)
          × ((view r.1).transfer ≡ idle))
  read_sector-sector k [] w size h t = absurd (omega (arith, size))
  read_sector-sector k (word ∷ words) w size h t =
      let same_size : length words ≡ k = omega (arith, size) in
      subst
        (λ j.
          let r = read_sector ports (handle n) (suc j) w in
          (r.0 ≡ bytes_of (word ∷ words))
          × ((view r.1).blocks ≡ (view w).blocks)
          × ((view r.1).transfer ≡ idle))
        same_size (read_sector-bytes word words w h t)

  receive_sector-reads :
      (lba count : ℕ) (buf buf' : Text) (w w' : W) (blocks : ℕ → List ℕ)
      → IsSelected lba blocks (view w)
      → length (blocks lba) ≡ 256
      → receive_sector ports (handle n) buf w ≡ (moved (count, buf'), w')
      → (count ≡ block_size)
        × (buf' ≡ overwrite (bytes_of (blocks lba)) buf)
        × ((view w').blocks ≡ blocks)
        × ((view w').transfer ≡ idle)
  unfolding receive_sector
  receive_sector-reads lba count buf buf' w w' blocks sel size h =
      let w1 = ports.outb 503 cmd_read_sectors w in
      let e1 : view w1 ≡ start_read (view w) = ata.read_command w sel.opened sel.slave sel.one in
      let w2 = delay_400ns ports (handle n) w1 in
      let steady1 : IsSteady (view w1).transfer =
        subst IsSteady (sym (ap transfer_of e1)) (reading-IsSteady _) in
      let (f2, r2, e2, hf2, hr2) = delay_400ns-Settled ports view ata n w1 steady1 in
      let (u, w3, waited, last) = and_then-moved (wait_drq ports (handle n) w2) _ _ w' h in
      let (keep, ready) = wait_drq-Settled ports view ata n w2 w3 waited in
      let (f3, r3, e3, hf3, hr3) = keep (subst IsSteady (sym (ap transfer_of e2)) steady1) in
      let all : view w3 ≡ settle f3 r3 (settle f2 r2 (start_read (view w))) =
        e3 ∙ ap (settle f3 r3) (e2 ∙ ap (settle f2 r2) e1) in
      let t3 : (view w3).transfer ≡ reading (blocks lba) =
        ap (λ (v : View). v.transfer) all
        ∙ ap reading (ap (λ b. b (address (view w))) sel.kept ∙ ap blocks sel.addressed) in
      let (bytes, kept, over) = read_sector-sector 255 (blocks lba) w3 size ready t3 in
      let got = ap (λ r. payload r.0) last in
      (
        sym (ap (λ p. p.0) got),
        sym (ap (λ p. p.1) got) ∙ ap (λ b. overwrite b buf) bytes,
        ap view_blocks (sym (ap (λ r. r.1) last))
            ∙ kept
            ∙ ap (λ (v : View). v.blocks) all
            ∙ sel.kept,
        ap view_transfer (sym (ap (λ r. r.1) last)) ∙ over,
      )
    where
      view_blocks : W → ℕ → List ℕ
      view_blocks w = (view w).blocks

      view_transfer : W → Transfer
      view_transfer w = (view w).transfer

  -- A read of a drive that follows the protocol and is at rest.
  pub read_block-reads :
      (lba count : ℕ) (buf buf' : Text) (w w' : W)
      → n ≤ 2 ^ 28
      → (view w).transfer ≡ idle
      → length ((view w).blocks lba) ≡ 256
      → read_block ports (handle n) lba buf w ≡ (moved (count, buf'), w')
      → (count ≡ block_size)
        × (buf' ≡ overwrite (bytes_of ((view w).blocks lba)) buf)
        × ((view w').blocks ≡ (view w).blocks)
        × ((view w').transfer ≡ idle)
  unfolding read_block
  read_block-reads lba count buf buf' w w' small rest size h = elim (Bool-cases (leb n lba)) [
    | inl e ↦ absurd (failed_not_moved _ _ _ _ (rw e at h))
    | inr e ↦ elim (Bool-cases (ltb (length buf) block_size)) [
      | inl e1 ↦ absurd (failed_not_moved _ _ _ _ (rw (e, e1) at h))
      | inr e1 ↦
          let (u, w1, waited, run) =
            and_then-moved (wait_not_busy ports (handle n) w) _ _ w' (rw (e, e1) at h) in
          let (opened, same_blocks) = wait_not_busy-IsOpen ports view ata n w w1 rest waited in
          let low : lba % 2 ^ 32 ≡ lba = omega (arith, leb-false _ _ e, small) in
          let bound : lba % 2 ^ 32 < 2 ^ 28 = omega (arith, leb-false _ _ e, small) in
          let sel = select_lba28-IsSelected (lba % 2 ^ 32) w1 bound opened in
          let w2 = select_lba28 ports (handle n) (lba % 2 ^ 32) 1 w1 in
          let at_lba : IsSelected lba (view w1).blocks (view w2) =
            subst (λ l. IsSelected l (view w1).blocks (view w2)) low sel in
          let at_old = subst (λ b. IsSelected lba b (view w2)) same_blocks at_lba in
          receive_sector-reads lba count buf buf' w2 w' (view w).blocks at_old size run
    ]
  ]
