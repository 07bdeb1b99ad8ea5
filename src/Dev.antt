-- ===== src/Dev.antt =====
-- kernel/src/fs/dev.rs: the device file system. The console, the serial port and the drive are
-- outside: what they do to the machine's state `W` is given by `Devices`.
pub mod Names
use willo_main.Prelude.{
  ℕ, zero, suc, ◌+◌, ◌*◌, ◌/◌, ◌%◌, Bool, true, false, ◌||◌, not, Option, none, some, List, [], ◌∷◌,
  ◌++◌, map, Text, codes, same, ◌==◌, if◌then◌else◌, length, take, drop, replicate,
}
use willo_main.Path.{slash, is_empty, contains_slash}
use willo_main.Fs.{
  not_found, not_a_dir, is_a_dir, io, unsupported, Result, ok, err, ◌>>=◌, Effect, FileSystem,
  refuse,
}
use willo_main.Block.{BlockDevice, BlockResult, failed, moved, block_size}

-- What the nodes call: `print!`, `SERIAL1.get()` and `send`, the drive, and `str::from_utf8`.
pub record Devices (W : Type 0) : Type 0 where
  pub print : Text → W → W
  pub has_serial : W → Bool
  pub send : ℕ → W → W
  pub drive : BlockDevice W
  pub is_utf8 : Text → Bool

-- The entries of `NODES`, each with its `DevNode`.
pub data Device : Type 0 where
  console null zeros serial0 disk0 : Device

unfoldable pub nodes : List (Text × Device)
nodes =
    (codes "console", console)
    ∷ (codes "null", null)
    ∷ (codes "zero", zeros)
    ∷ (codes "serial0", serial0)
    ∷ (codes "disk0", disk0)
    ∷ []

unfoldable pub find_node : Text → List (Text × Device) → Option Device
unfolding same
find_node name [] = none
find_node name ((n, d) ∷ rest) = if same n name then some d else find_node name rest

unfoldable pub node : Text → Result Device
unfolding find_node nodes
node name = elim (find_node name nodes) [ none ↦ err not_found | some d ↦ ok d ]

-- `strip_prefix('/').unwrap_or(rel)`
abbrev pub without_slash : Text → Text
without_slash [] = []
without_slash (x ∷ rel) = if x == slash then rel else x ∷ rel

unfoldable pub flat_name : Text → Result Text
unfolding contains_slash
flat_name rel = if contains_slash (without_slash rel) then err not_found else ok (without_slash rel)

abbrev pub zero_read_file_bytes : ℕ
zero_read_file_bytes = 4096

-- `read_file` of a name that is not empty.
unfoldable pub read_device : Option Device → Result Text
read_device none = err not_found
read_device (some null) = ok []
read_device (some zeros) = ok (replicate zero_read_file_bytes 0)
read_device (some console) = err unsupported
read_device (some serial0) = err unsupported
read_device (some disk0) = err unsupported

unfoldable pub read_file : Text → Result Text
unfolding flat_name find_node nodes read_device
read_file rel = flat_name rel >>= λ name.
    if is_empty name then err is_a_dir else read_device (find_node name nodes)

abbrev names_of : List (Text × Device) → List Text
names_of [] = []
names_of ((n, d) ∷ rest) = n ∷ names_of rest

unfoldable pub list_dir : Text → Result (List Text)
unfolding flat_name nodes
list_dir rel =
    flat_name rel >>= λ name. if is_empty name then ok (names_of nodes) else err not_a_dir

unfoldable pub is_dir : Text → Bool
unfolding flat_name
is_dir rel = elim (flat_name rel) [ ok name ↦ is_empty name | err e ↦ false ]

-- `off % BLOCK_SIZE != 0 || buf.len() % BLOCK_SIZE != 0`
unfoldable pub misaligned : ℕ → Text → Bool
misaligned off buf = not (off % block_size == 0) || not (length buf % block_size == 0)

module _ {W : Type 0} (dev : Devices W) where
  abbrev sends : Text → W → W
  sends [] w = w
  sends (b ∷ bytes) w = sends bytes (dev.send b w)

  -- The rest of a disk transfer, unless a block failed.
  abbrev after_block : {A B : Type 0} → BlockResult A × W → (A → Effect W B) → Effect W B
  after_block (failed e, w) rest w0 = (err io, w)
  after_block (moved a, w) rest w0 = rest a w

  unfoldable pub read_blocks : ℕ → ℕ → Effect W Text
  read_blocks zero lba w = (ok [], w)
  read_blocks (suc count) lba w =
      after_block (dev.drive.read_block lba w)
        (λ bytes w1.
          (let (rest, w2) = read_blocks count (lba + 1) w1 in
            (rest >>= λ more. ok (bytes ++ more), w2)))
        w

  unfoldable pub write_blocks : ℕ → ℕ → Text → Effect W (Unit {0})
  write_blocks zero lba bytes w = (ok tt, w)
  write_blocks (suc count) lba bytes w =
      after_block (dev.drive.write_block lba (take block_size bytes) w)
        (λ a. write_blocks count (lba + 1) (drop block_size bytes)) w

  abbrev read_result : Result Text × W → Result (ℕ × Text) × W
  read_result (ok bytes, w) = (ok (length bytes, bytes), w)
  read_result (err e, w) = (err e, w)

  abbrev write_result : ℕ → Result (Unit {0}) × W → Result ℕ × W
  write_result n (ok a, w) = (ok n, w)
  write_result n (err e, w) = (err e, w)

  -- `DevNode::read` of each node; the buffer is returned as it is left.
  unfoldable pub read_node : Device → ℕ → Text → Effect W (ℕ × Text)
  unfolding misaligned read_blocks
  read_node console off buf w = (err unsupported, w)
  read_node null off buf w = (ok (0, buf), w)
  read_node zeros off buf w = (ok (length buf, replicate (length buf) 0), w)
  read_node serial0 off buf w = (ok (0, buf), w)
  read_node disk0 off buf w =
      if is_empty buf
      then (ok (0, buf), w)
      else if misaligned off buf
      then (err io, w)
      else read_result (read_blocks (length buf / block_size) (off / block_size) w)

  -- `DevNode::write` of each node.
  unfoldable pub write_node : Device → ℕ → Text → Effect W ℕ
  unfolding misaligned write_blocks
  write_node console off bytes w =
      (ok (length bytes), dev.print (if dev.is_utf8 bytes then bytes else []) w)
  write_node null off bytes w = (ok (length bytes), w)
  write_node zeros off bytes w = (ok (length bytes), w)
  write_node serial0 off bytes w =
      if dev.has_serial w then (ok (length bytes), sends bytes w) else (err io, w)
  write_node disk0 off bytes w =
      if is_empty bytes
      then (ok 0, w)
      else if misaligned off bytes
      then (err io, w)
      else write_result (length bytes)
          (write_blocks (length bytes / block_size) (off / block_size) bytes w)

  abbrev on_node : {A : Type 0} → Result Device → (Device → Effect W A) → Effect W A
  on_node (err e) call w = (err e, w)
  on_node (ok d) call w = call d w

  unfoldable pub read_at : Text → ℕ → Text → Effect W (ℕ × Text)
  unfolding flat_name node read_node
  read_at rel off buf = on_node (flat_name rel >>= node) (λ d. read_node d off buf)

  unfoldable pub write_at : Text → ℕ → Text → Effect W ℕ
  unfolding flat_name node write_node
  write_at rel off bytes = on_node (flat_name rel >>= node) (λ d. write_node d off bytes)

  abbrev pub all_written : ℕ → Result ℕ × W → Result (Unit {0}) × W
  all_written expected (ok n, w) = (if n == expected then ok tt else err io, w)
  all_written expected (err e, w) = (err e, w)

  unfoldable pub write_file : Text → Text → Effect W (Unit {0})
  unfolding write_at
  write_file rel bytes w = all_written (length bytes) (write_at rel 0 bytes w)

  -- `impl FileSystem for DevFs`
  unfoldable pub devfs : FileSystem W
  unfolding read_file list_dir is_dir read_at write_at write_file
  devfs = record {
    read_file = λ rel w. (read_file rel, w);
    list_dir = λ rel w. (list_dir rel, w);
    is_dir = λ rel w. (is_dir rel, w);
    writable = true;
    backing = codes "devfs";
    create_file = λ rel. refuse;
    write_file = write_file;
    append_file = λ rel bytes. refuse;
    create_dir = λ rel. refuse;
    remove = λ rel. refuse;
    read_at = read_at;
    write_at = write_at;
  }
