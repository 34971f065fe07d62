-- ===== src/Lib.antt =====
-- plDOS: a model of the kernel's own logic and the theorems about it.
--
-- The kernel boots on 32-bit x86, sets up its terminal, heap, users, ATA driver and filesystem, and
-- runs a shell whose commands reach these parts through a connector. The parts stack up as follows:
-- the filesystem and the users use the string routines; the filesystem also uses the byte loops of
-- the heap module, saves its table over the ATA driver, and prints messages on the terminal.
--
-- - Base: numbers, lists, options and the rule that an `Option` result `none` of an operation is a
--   write outside an array, which ends a run.
-- - Strings (kernel/string.c): a string is its bytes without the terminator, an array is its bytes;
--   a routine that writes takes the array and gives it back, or `none` when it would overrun it.
--   Strings.Buffers, Strings.Compare and Strings.Names hold the theorems.
-- - Users (kernel/users.c): `Users` is the static table and the current user. Users.Table has the
--   invariant; Add, Remove, Sessions and Init treat the operations.
-- - Memory (kernel/memory.c): `kmalloc` takes and returns `heap_used`, and adds in 32 bits; a pointer is
--   its offset in the heap; the byte loops take the arrays.
-- - Io (kernel/io.c): `Terminal` is the scrollback, its counters and the screen, whose invariant
--   stands in Io.Screen and Io.History; Io.Numbers prints numbers, which Io.Decimal reads back, and
--   Io.Keyboard translates scancodes and edits lines, which Io.Typing applies to typed keys. The bytes of
--   the keyboard are a list.
-- - Ata (kernel/disk.c): the driver over `Ports`, a parameter for the port instructions; its loops
--   poll 100000 times, as many as the code does. Ata.Drive says in hypotheses what a drive does: it
--   fixes the bits of the status that the driver tests and DRDY, and leaves open whether a flush that
--   comes while the drive is busy is taken, for the transfers in Ata.Transfer and Ata.Sectors; Ata.Reliable is such a drive as the disk of the
--   filesystem, and Ata.Reboot a save to it and the next boot.
-- - Filesystem (kernel/filesystem.c): `Fs` is the node table, the current directory, the two flags, the
--   device and the text printed. The device is a parameter `Disk`, which Ata.ata_disk fills.
--   Filesystem.Path resolves paths: the loop over the components runs on fuel, one more than the
--   bytes of the path, and Filesystem.Path.Split proves that this is enough. Calls, Files and Tree
--   hold the operations, Image and Storage the disk image, on any device and, in Storage.RoundTrip
--   and Storage.Restart, on one that keeps what is written to it, Valid the invariant of the table, and
--   History any sequence of calls. Tree.Moves treats `fs_move`: a file in Tree.Plain, a directory in
--   Tree.Directory. There the recursion of `rebuild_child_paths` runs on fuel, 128 levels, as each level
--   adds a byte to a path of less than 128 bytes; Tree.Rebuild shows that this is enough, over the nodes
--   that Tree.Below defines by the links to their parents. View is the abstract filesystem, a map from paths to entries, that the
--   operations refine, and Startup treats `fs_init` without a disk.
-- - System: the state of the whole kernel, with the scancodes that the keyboard will still deliver,
--   and the sequencing of code over it. System.Keeps has the rules by which a run keeps a property,
--   System.Sound the property of the terminal, the users and the keyboard that every command keeps.
-- - Connector (kernel/kernel_connector.c): the requests, each with the type of its answer, and in
--   Connector.Calls the functions that make them; Keeping, Sound and Tree say what requests keep.
-- - Programs (progs/): the registry and its table, the commands on files and the disk in Commands, on
--   users in Accounts, and the call of a command by its entry in Dispatch. Requests and Changes derive
--   what a command keeps from what its requests keep; Sound, Rights and Tree apply them. Effects takes
--   touch, mkdir and del down to the abstract filesystem; Line, Written and Writing do so for write, and
--   Cat and Shown for cat behind it. Typed has the commands that a dialogue may hold.
-- - Shell (kernel/kernel.c): the splitter of command lines, on fuel, one more than the bytes of the
--   line, which Shell.Words proves to be enough.
-- - Kernel (kernel/kernel.c): start-up, the prompt and the rounds of the shell. A session is the run
--   over a finite list of scancodes. Its rounds run on fuel, one more than the scancodes; Kernel.Session
--   proves that it does not run out, since every round takes one. Where the keyboard has delivered all,
--   the code goes on waiting, which is an outcome of its own. Kernel.Typing and Kernel.Dialogue follow the
--   keys of typed lines through the editor, the splitter and the commands.
-- - Hosted (src/, include/): the older program, which the Makefile does not build: its flat filesystem in
--   Files and Removal, the commands of src/commands.c, the string routines that kernel/string.c has not
--   or has otherwise, those it has in Loops, the console routines, and src/shell.c: the splitter in Shell, the built-in commands
--   in Builtins, over the parameter `Services` for all that the file calls, and start-up and loop in
--   Loop. The loop runs for a number of rounds; Idle treats any number.
--
-- A static array starts with any bytes where the code does not clear it. A node number -1 is a
-- missing option, an `int` flag any number. The bytes of the node table are as many as the C array has. `argv` is the list of its strings. An array that a command
-- declares starts with zeros, where the code only reads what it has written.
--
-- Not modelled: `desktop_run`, which progs/desktop.c calls and the repository does not have, is a
-- parameter; the halt of `kernel_panic` and the entry code of boot/ have no behaviour to state. Of the
--   older program, the wrappers of src/io.c for a character, a number and `getchar`.
pub mod Base
pub mod Strings
pub mod Users
pub mod Memory
pub mod Io
pub mod Filesystem
pub mod Ata
pub mod System
pub mod Connector
pub mod Shell
pub mod Programs
pub mod Kernel
pub mod Hosted
