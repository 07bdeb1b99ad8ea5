-- ===== src/Runner/Cleanup.antt =====
-- The disks that the runner (src/main.rs) keeps, and its exit code.
use willo_main.Prelude.{
  ℕ, ◌≡◌, ◌≢◌, ◌⊎◌, inl, inr, refl, ◌∙◌, sym, ap, Bool, true, false, not, ◌&&◌, ◌||◌, Option, none,
  some, List, [], ◌∷◌, All, All-append, ◌==◌, if_both, Bool-cases, arith, ==_iff,
}
use willo_main.Runner.{
  Env, KernelPath, Answers, Status, not_started, ended, Action, remove_file, data_disk, boot_vdi,
  data_vdi, build_data, build_image, fsck, convert_boot, convert_data, print_commands, main,
  with_image, with_data, after_qemu, cleanup, post_test, run_vbox_mode, exit_code, before,
  is_test_binary, is_fat_write_test, qemu_exit_success,
}

-- An action that leaves the data disk as it is.
abbrev pub Spares : Action → Type 0
Spares a = (a ≢ remove_file data_disk) × (a ≢ build_data)

abbrev Spared : List Action × ℕ → Type 0
Spared r = All Spares r.0

before-Spared :
    (first : List Action) (r : List Action × ℕ)
    → All Spares first
    → Spared r
    → Spared (before first r)
before-Spared first (actions, code) h k = All-append _ _ _ h k

one_fsck : All Spares (fsck ∷ [])
one_fsck = (((λ e. cc), λ e. cc), tt)

image_first : All Spares (build_image ∷ [])
image_first = (((λ e. cc), λ e. cc), tt)

reused : (p d : Bool) → p ≡ true → d ≡ true → (not p || not d) ≡ false
reused p d h k = rw (h, k) refl

module _ (env : Env) (p : KernelPath) (answers : Answers) where
  post_test-Spares : (code : Option ℕ) → All Spares (post_test p answers code)
  unfolding post_test
  post_test-Spares none = tt
  post_test-Spares (some code) =
      if_both (All Spares)
        (is_test_binary p
          && (code == qemu_exit_success && (is_fat_write_test p && answers.data_exists_after)))
        {x = fsck ∷ []} {y = []} one_fsck tt

  cleanup-Spares : env.persist ≡ true → All Spares (cleanup env)
  unfolding cleanup
  cleanup-Spares h = if_both (All Spares) env.keep_disk tt (((λ e. cc), λ e. cc), rw h tt)

  after_qemu-Spares : (s : Status) → env.persist ≡ true → Spared (after_qemu env p answers s)
  unfolding after_qemu
  after_qemu-Spares not_started h = cleanup-Spares h
  after_qemu-Spares (ended code) h = All-append _ _ _ (post_test-Spares code) (cleanup-Spares h)

  vbox-Spares : Spared (run_vbox_mode answers)
  unfolding run_vbox_mode
  vbox-Spares =
      let start = remove_file boot_vdi ∷ remove_file data_vdi ∷ convert_boot ∷ [] in
      let removed : All Spares start =
        (((λ e. cc), λ e. cc), (((λ e. cc), λ e. cc), (((λ e. cc), λ e. cc), tt))) in
      let converted : All Spares (convert_data ∷ []) = (((λ e. cc), λ e. cc), tt) in
      let printed : All Spares (convert_data ∷ print_commands ∷ []) =
        (((λ e. cc), λ e. cc), (((λ e. cc), λ e. cc), tt)) in
      if_both Spared answers.boot_converted
        (if_both Spared answers.data_converted
          (All-append Spares start (convert_data ∷ print_commands ∷ []) removed printed)
          (All-append Spares start (convert_data ∷ []) removed converted))
        removed

  with_data-Spares : env.persist ≡ true → Spared (with_data env p answers)
  unfolding with_data
  with_data-Spares h =
      if_both Spared env.vbox vbox-Spares (((λ e. cc), λ e. cc), after_qemu-Spares answers.qemu h)

  with_image-Spares :
      env.persist ≡ true → answers.data_exists ≡ true → Spared (with_image env p answers)
  unfolding with_image
  with_image-Spares h d =
      let e : (not env.persist || not answers.data_exists) ≡ false = reused _ _ h d in
      rw e (with_data-Spares h)

  -- With a persistent data disk that is there, the runner neither removes it nor builds it anew,
  -- whatever the host answers.
  pub main-Spares :
      env.persist ≡ true → answers.data_exists ≡ true → All Spares (main env (some p) answers).0
  unfolding main
  main-Spares h d =
      if_both Spared answers.kernel_exists
        (if_both Spared answers.image_built
          (before-Spared (build_image ∷ []) (with_image env p answers) image_first
            (with_image-Spares h d))
          image_first)
        tt

-- The codes of the emulator that count as a success.
abbrev pub IsSuccess : Status → Type 0
IsSuccess s = (s ≡ ended (some 33)) ⊎ (s ≡ ended (some 0))

exit_code-IsSuccess : (code : Option ℕ) → exit_code code ≡ 0 → IsSuccess (ended code)
unfolding exit_code
exit_code-IsSuccess none h = absurd (omega (arith, h))
exit_code-IsSuccess (some code) h = elim (Bool-cases (code == 33)) [
  | inl e ↦ inl (ap (λ c. ended (some c)) ((==_iff code 33).0 e))
  | inr e ↦ elim (Bool-cases (code == 35)) [
    | inl e1 ↦ absurd (ground (arith, h, e, e1))
    | inr e1 ↦ inr (ap (λ c. ended (some c)) (rw (e, e1) at h))
  ]
]

before-code : (first : List Action) (r : List Action × ℕ) → (before first r).1 ≡ r.1
before-code first (actions, code) = refl

one_not_zero : (n : ℕ) → n ≡ 1 → n ≢ 0
one_not_zero n h = omega (arith, h)

abbrev Explained : Answers → List Action × ℕ → Type 0
Explained answers r = r.1 ≡ 0 → IsSuccess answers.qemu

module _ (env : Env) (p : KernelPath) (answers : Answers) where
  failed_run : (actions : List Action) → Explained answers (actions, 1)
  failed_run actions h = absurd (one_not_zero 1 refl h)

  after_qemu-Explained : (s : Status) → (after_qemu env p answers s).1 ≡ 0 → IsSuccess s
  unfolding after_qemu
  after_qemu-Explained not_started h = absurd (one_not_zero 1 refl h)
  after_qemu-Explained (ended code) h = exit_code-IsSuccess code h

  with_data-Explained : env.vbox ≡ false → Explained answers (with_data env p answers)
  unfolding with_data
  with_data-Explained v = rw v (after_qemu-Explained answers.qemu)

  with_image-Explained : env.vbox ≡ false → Explained answers (with_image env p answers)
  unfolding with_image
  with_image-Explained v =
      if_both (Explained answers) (not env.persist || not answers.data_exists)
        (if_both (Explained answers) answers.data_built
          (λ h.
            with_data-Explained v
              (sym (before-code (build_data ∷ []) (with_data env p answers)) ∙ h))
          (failed_run (build_data ∷ [])))
        (with_data-Explained v)

  -- A run without VirtualBox that exits with code 0 has had the emulator end with code 33 or 0.
  pub main-IsSuccess : env.vbox ≡ false → (main env (some p) answers).1 ≡ 0 → IsSuccess answers.qemu
  unfolding main
  main-IsSuccess v =
      if_both (Explained answers) answers.kernel_exists
        (if_both (Explained answers) answers.image_built
          (λ h.
            with_image-Explained v
              (sym (before-code (build_image ∷ []) (with_image env p answers)) ∙ h))
          (failed_run (build_image ∷ [])))
        (λ h. absurd (omega (arith, h)))
