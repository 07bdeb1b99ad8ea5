-- ===== src/Fs.antt =====
-- kernel/src/fs/mod.rs: `FsError` and the `FileSystem` trait with its default methods. The state
-- that the backends share and change (the disk, the heap of a tmpfs, the devices) is a type `W`
-- that every method takes and returns.
use willo_main.Prelude.{
  ℕ, ◌-◌, Bool, true, false, List, ◌++◌, Text, leb, if◌then◌else◌, length, take, drop, min,
}

pub data FsError : Type 0 where
  not_found not_a_dir is_a_dir io unsupported : FsError

-- `Result<A, FsError>`
pub data Result {ℓ} (A : Type ℓ) : Type ℓ where
  err : FsError → Result A
  ok : A → Result A

-- The `?` operator: an error ends the computation, a value goes to the rest of it.
infixl 5 ◌>>=◌
abbrev pub ◌>>=◌ {ℓ κ} : {A : Type ℓ} {B : Type κ} → Result A → (A → Result B) → Result B
err e >>= rest = err e
ok value >>= rest = rest value

abbrev pub is_ok {ℓ} : {A : Type ℓ} → Result A → Bool
is_ok (ok a) = true
is_ok (err e) = false

module _ (W : Type 0) where
  -- A method's effect: its result and the state that it leaves.
  abbrev pub Effect : Type 0 → Type 0
  Effect A = W → Result A × W

  -- The trait. `read_at` returns the count with the caller's buffer as it is afterwards.
  pub record FileSystem : Type 0 where
    pub read_file : Text → Effect Text
    pub list_dir : Text → Effect (List Text)
    pub is_dir : Text → W → Bool × W
    pub writable : Bool
    pub backing : Text
    pub create_file : Text → Effect (Unit {0})
    pub write_file : Text → Text → Effect (Unit {0})
    pub append_file : Text → Text → Effect (Unit {0})
    pub create_dir : Text → Effect (Unit {0})
    pub remove : Text → Effect (Unit {0})
    pub read_at : Text → ℕ → Text → Effect (ℕ × Text)
    pub write_at : Text → ℕ → Text → Effect ℕ

-- Writes over the start of a buffer: `buf[..n].copy_from_slice(bytes)`.
abbrev pub overwrite : Text → Text → Text
overwrite bytes buf = bytes ++ drop (length bytes) buf

-- The slice of the file that the default `read_at` copies out.
unfoldable pub slice_at : Text → ℕ → Text → ℕ × Text
slice_at contents off buf =
    if leb (length contents) off
    then (0, buf)
    else (let n = min (length contents - off) (length buf) in
        (n, overwrite (take n (drop off contents)) buf))

abbrev slice_result : Result Text → ℕ → Text → Result (ℕ × Text)
slice_result (ok contents) off buf = ok (slice_at contents off buf)
slice_result (err e) off buf = err e

module _ {W : Type 0} where
  -- The default of the write methods.
  abbrev pub refuse : {A : Type 0} → Effect W A
  refuse w = (err unsupported, w)

  -- The default `read_at`, over the backend's own `read_file`.
  unfoldable pub read_at_default : (Text → Effect W Text) → Text → ℕ → Text → Effect W (ℕ × Text)
  unfolding slice_at
  read_at_default read rel off buf w =
      let (contents, w') = read rel w in (slice_result contents off buf, w')
