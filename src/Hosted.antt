-- ===== src/Hosted.antt =====
-- The older hosted program (src/, include/): its own string routines, its flat filesystem, its commands,
-- and its shell. Where they call str_len, str_copy and str_concat of src/string.c, the kernel's are used,
-- whose results Loops compares with those of the loops in src/string.c.
pub mod Builtins
pub mod Commands
pub mod Compare
pub mod Console
pub mod Files
pub mod Idle
pub mod Loop
pub mod Loops
pub mod Main
pub mod Removal
pub mod Shell
pub mod Strings
pub mod Trim
pub mod Unrun
mod Tests
