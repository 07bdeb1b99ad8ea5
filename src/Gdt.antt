-- ===== src/Gdt.antt =====
-- kernel/src/gdt.rs: the order of the segment descriptors and the selectors that come of it. The
-- table itself is of the x86_64 crate: `append` gives the selector of a new descriptor.
use willo_main.Prelude.{ℕ, ◌+◌, ◌*◌, ◌≡◌, refl, ◌∙◌, ap}

-- `Descriptor`, of the kinds that are appended.
pub data Descriptor : Type 0 where
  kernel_code kernel_data user_code_32 user_data user_code tss : Descriptor

-- The privilege level in a selector, and the slots of 8 bytes that a descriptor takes.
abbrev pub ring : Descriptor → ℕ
ring user_code_32 = 3
ring user_data = 3
ring user_code = 3
ring kernel_code = 0
ring kernel_data = 0
ring tss = 0

abbrev pub slots : Descriptor → ℕ
slots tss = 2
slots kernel_code = 1
slots kernel_data = 1
slots user_code_32 = 1
slots user_data = 1
slots user_code = 1

-- A table after `new` holds the null slot. A selector is the offset of the slot with the ring.
pub record Table (G : Type 0) : Type 0 where
  pub new : G
  pub append : Descriptor → G → ℕ × G
  pub used : G → ℕ
  pub used-new : used new ≡ 1
  pub append-selector : (d : Descriptor) (g : G) → (append d g).0 ≡ 8 * used g + ring d
  pub used-append : (d : Descriptor) (g : G) → used (append d g).1 ≡ used g + slots d

pub record Selectors : Type 0 where
  pub code_selector : ℕ
  pub data_selector : ℕ
  pub user_code_32_selector : ℕ
  pub user_data_selector : ℕ
  pub user_code_selector : ℕ
  pub tss_selector : ℕ

module _ {G : Type 0} (table : Table G) where
  -- The initialiser of `GDT`.
  unfoldable pub gdt : G × Selectors
  gdt =
      let (code_selector, g1) = table.append kernel_code table.new in
      let (data_selector, g2) = table.append kernel_data g1 in
      let (user_code_32_selector, g3) = table.append user_code_32 g2 in
      let (user_data_selector, g4) = table.append user_data g3 in
      let (user_code_selector, g5) = table.append user_code g4 in
      let (tss_selector, g6) = table.append tss g5 in
      (
        g6,
        record {
          code_selector = code_selector;
          data_selector = data_selector;
          user_code_32_selector = user_code_32_selector;
          user_data_selector = user_data_selector;
          user_code_selector = user_code_selector;
          tss_selector = tss_selector;
        },
      )

  used_after :
      (n : ℕ) (d : Descriptor) (g : G)
      → table.used g ≡ n
      → table.used (table.append d g).1 ≡ n + slots d
  used_after n d g h = table.used-append d g ∙ ap (λ u. u + slots d) h

  selector_at :
      (n : ℕ) (d : Descriptor) (g : G) → table.used g ≡ n → (table.append d g).0 ≡ 8 * n + ring d
  selector_at n d g h = table.append-selector d g ∙ ap (λ u. 8 * u + ring d) h

  -- The selectors of the segments: eight times the slot, and the ring.
  pub gdt-selectors : gdt.1 ≡ record {
    code_selector = 8;
    data_selector = 16;
    user_code_32_selector = 27;
    user_data_selector = 35;
    user_code_selector = 43;
    tss_selector = 48;
  }
  unfolding gdt
  gdt-selectors =
      let u1 = used_after 1 kernel_code table.new table.used-new in
      let u2 = used_after 2 kernel_data _ u1 in
      let u3 = used_after 3 user_code_32 _ u2 in
      let u4 = used_after 4 user_data _ u3 in
      let u5 = used_after 5 user_code _ u4 in
      let s0 = selector_at 1 kernel_code table.new table.used-new in
      let s1 = selector_at 2 kernel_data _ u1 in
      let s2 = selector_at 3 user_code_32 _ u2 in
      let s3 = selector_at 4 user_data _ u3 in
      let s4 = selector_at 5 user_code _ u4 in
      let s5 = selector_at 6 tss _ u5 in rw (s0, s1, s2, s3, s4, s5) refl
