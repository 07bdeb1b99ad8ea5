-- ===== src/Fat/Io.antt =====
-- kernel/src/fs/fat.rs: the effect of a call on the drive. A loop along a cluster chain is on fuel,
-- since a chain on a damaged disk may be a cycle: `unended` is a loop that its fuel did not end.

use willo_main.Prelude.{◌≡◌, refl}
use willo_main.Fs.{FsError, io}
use willo_main.Block.{BlockResult, failed, moved}

pub data Outcome (A : Type 0) : Type 0 where
  fail : FsError → Outcome A
  done : A → Outcome A
  unended : Outcome A

abbrev pub Io : Type 0 → Type 0 → Type 0
Io W A = W → Outcome A × W

abbrev pub ret : {W A : Type 0} → A → Io W A
ret a w = (done a, w)

abbrev pub raise : {W A : Type 0} → FsError → Io W A
raise e w = (fail e, w)

abbrev pub spin : {W A : Type 0} → Io W A
spin w = (unended, w)

-- The rest of a call after an outcome: an error is passed on, as `?` does.
abbrev pub continue : {W A B : Type 0} → Outcome A × W → (A → Io W B) → Outcome B × W
continue (done a, w) rest = rest a w
continue (fail e, w) rest = (fail e, w)
continue (unended, w) rest = (unended, w)

infixl 5 ◌>>=◌
abbrev pub ◌>>=◌ : {W A B : Type 0} → Io W A → (A → Io W B) → Io W B
◌>>=◌ call rest w = continue (call w) rest

infixl 5 ◌>>◌
abbrev pub ◌>>◌ : {W A B : Type 0} → Io W A → Io W B → Io W B
◌>>◌ call rest w = continue (call w) (λ a. rest)

-- `let _ = call;`
abbrev pub dropped : {W : Type 0} → Outcome (Unit {0}) × W → Outcome (Unit {0}) × W
dropped (fail e, w) = (done tt, w)
dropped (done a, w) = (done tt, w)
dropped (unended, w) = (unended, w)

abbrev pub ignore : {W : Type 0} → Io W (Unit {0}) → Io W (Unit {0})
ignore call w = dropped (call w)

-- `From<BlockError> for FsError`
abbrev pub from_block : {W A : Type 0} → BlockResult A × W → Outcome A × W
from_block (failed e, w) = (fail io, w)
from_block (moved a, w) = (done a, w)

-- A call that succeeds has succeeded in each of its parts.
pub continue-done :
    {W A B : Type 0} (r : Outcome A × W) (rest : A → Io W B) (b : B) (w' : W)
    → continue r rest ≡ (done b, w')
    → (a : A) × (w : W) × (r ≡ (done a, w)) × (rest a w ≡ (done b, w'))
continue-done (done a, w) rest b w' h = (a, w, refl, h)
continue-done (fail e, w) rest b w' h = cc
continue-done (unended, w) rest b w' h = cc

pub from_block-done :
    {W A : Type 0} (r : BlockResult A × W) (a : A) (w' : W)
    → from_block r ≡ (done a, w')
    → r ≡ (moved a, w')
from_block-done (failed e, w) a w' h = cc
from_block-done (moved b, w) a w' h = cc

pub ret-done : {W A : Type 0} (a b : A) (w w' : W) → ret a w ≡ (done b, w') → b ≡ a
ret-done a b w w' h = cc
