-- ===== src/Shell.antt =====
-- p3/mysh.c: the shell's aliases and the lines of batch mode.
pub mod Word
pub mod Alias
pub mod Redirect
pub mod Batch
pub mod Interactive
mod Tests
