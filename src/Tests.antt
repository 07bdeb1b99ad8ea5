-- ===== src/Tests.antt =====
-- Runs of the model at concrete inputs, and the theorems applied at them.
mod Path
mod Vfs
mod Tmp
mod Fat
mod Framebuffer
mod Task
mod Shell
mod Dev
mod Keyboard
mod Ata
mod SimpleExecutor
mod Memory
mod Runner
mod Boot
