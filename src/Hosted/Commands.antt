-- ===== src/Hosted/Commands.antt =====
-- src/commands.c: the commands, on the state of the files, the lines that the user will type, and
-- `exit_flag`. An argument list is the array `argv`. `io_get_string` gives the next line, of 254 bytes at
-- most, and leaves the array as it was, which is empty, where the input ends.
use pl_dos.Base.{
  ℕ, zero, suc, ◌+◌, ◌-◌, Option, none, some, List, [], ◌∷◌, ◌++◌, length, drop, get_or, ltb,
  if◌then◌else◌, codes,
}
use pl_dos.Strings.{CString, str_len, str_eq}
use pl_dos.Hosted.Files.{
  Host, file_size, newline, io_print, io_println, fs_file_exists, fs_create_file, fs_create_dir,
  fs_list_files, fs_write_file, fs_read_file, fs_delete_file, fs_change_dir,
}

pub record Session : Type 0 where
  pub host : Host
  pub lines : List CString
  pub exit_flag : ℕ

abbrev pub with_host : Session → Host → Session
with_host s h = record s { host = h }

abbrev say : Session → CString → Session
say s text = with_host s (io_println s.host text)

abbrev pub say_all : Session → List CString → Session
say_all s [] = s
say_all s (text ∷ texts) = say_all (say s text) texts

-- `none` is a write outside an array.
abbrev pub of_host : Session → Option Host → Option Session
of_host s none = none
of_host s (some h) = some (with_host s h)

-- `if (argc < 2) { io_println(usage); return; }`, and the call for `argv[1]`.
abbrev pub with_arg : Session → List CString → CString → (CString → Option Session) → Option Session
with_arg s argv usage call =
    if ltb (length argv) 2 then some (say s usage) else call (get_or argv 1 [])

unfoldable pub cmd_help : Session → List CString → Session
cmd_help s argv = say_all s (
    (10 ∷ codes "========== OpenDOS - Command Help ==========")
    ∷ (codes "help           - Show this help message")
    ∷ (codes "clear/cls      - Clear the screen")
    ∷ (codes "echo [text]    - Print text to console")
    ∷ (codes "mkf [name]     - Create a new file")
    ∷ (codes "wri [name]     - Write to a file (opens text editor)")
    ∷ (codes "folist/ls      - List files in current directory")
    ∷ (codes "del [name]     - Delete a file")
    ∷ (codes "cat [name]     - Display file contents")
    ∷ (codes "mkdir [name]   - Create a new directory")
    ∷ (codes "pwd            - Print working directory")
    ∷ (codes "cd [dir]       - Change directory")
    ∷ (codes "about          - About OpenDOS")
    ∷ (codes "exit/quit      - Exit the operating system")
    ∷ (codes "============================================" ++ newline)
    ∷ [])

-- The loop over the arguments that are left.
unfoldable pub echo_args : Host → List CString → Host
echo_args h [] = h
echo_args h (a ∷ []) = io_print h a
echo_args h (a ∷ b ∷ args) = echo_args (io_print (io_print h a) (b' ' ∷ [])) (b ∷ args)

unfoldable pub cmd_echo : Session → List CString → Session
cmd_echo s argv =
    if ltb (length argv) 2
    then say s (codes "Usage: echo [text]")
    else with_host s (io_println (echo_args s.host (drop 1 argv)) [])

unfoldable pub cmd_mkf : Session → List CString → Option Session
cmd_mkf s argv =
    with_arg s argv (codes "Usage: mkf [filename]") (λ name. of_host s (fs_create_file s.host name))

-- `io_get_string(line, 255)` into an empty array.
unfoldable pub io_get_string : List CString → CString × List CString
io_get_string [] = ([], [])
io_get_string (line ∷ lines) = (line, lines)

-- The loop of `cmd_wri`: `text` is the first `pos` bytes of the buffer. The text, what is left of the
-- input and the console; a round takes a line, or adds a byte where the input has ended.
unfoldable pub type_text : ℕ → Host → List CString → CString → CString × List CString × Host
type_text zero h lines text = (text, lines, h)
type_text (suc rounds) h lines text =
    let (line, lines') = io_get_string lines in
    let h' = io_print h (codes "> ") in
    let text' =
      if ltb (length text + str_len line + 1) file_size then text ++ (line ++ newline) else text in
    let later = type_text rounds h' lines' text' in
    if ltb (length text) (file_size - 1)
    then (if str_eq line (codes "EOF") then (text, lines', h') else later)
    else (text, lines, h)

-- The loop and the write of what it leaves.
unfoldable pub write_typed : Session → CString → Option Session
write_typed s name =
    let asked =
      io_println s.host
        (codes "Enter file contents (max 4096 characters). Type 'EOF' on a new line to finish:") in
    let (text, lines, h) = type_text (length s.lines + file_size) asked s.lines [] in
    of_host (record s { lines = lines }) (fs_write_file h name text)

unfoldable pub cmd_wri : Session → List CString → Option Session
cmd_wri s argv = with_arg s argv (codes "Usage: wri [filename]") (λ name.
    if fs_file_exists s.host name
    then write_typed s name
    else some (say s (codes "Error: File does not exist. Create it first with 'mkf'")))

unfoldable pub cmd_folist : Session → List CString → Session
cmd_folist s argv = with_host s (fs_list_files s.host)

unfoldable pub cmd_del : Session → List CString → Option Session
cmd_del s argv =
    with_arg s argv (codes "Usage: del [filename]")
      (λ name. some (with_host s (fs_delete_file s.host name)))

unfoldable pub cmd_cat : Session → List CString → Option Session
cmd_cat s argv =
    with_arg s argv (codes "Usage: cat [filename]")
      (λ name. some (with_host s (fs_read_file s.host name)))

unfoldable pub cmd_mkdir : Session → List CString → Option Session
cmd_mkdir s argv =
    with_arg s argv (codes "Usage: mkdir [dirname]") (λ name. of_host s (fs_create_dir s.host name))

unfoldable pub cmd_pwd : Session → List CString → Session
cmd_pwd s argv = say s (codes "Current directory: /")

unfoldable pub cmd_cd : Session → List CString → Option Session
cmd_cd s argv =
    with_arg s argv (codes "Usage: cd [dirname]") (λ name. of_host s (fs_change_dir s.host name))

unfoldable pub cmd_exit : Session → List CString → Session
cmd_exit s argv = record (say s (codes "Shutting down OpenDOS...")) { exit_flag = 1 }

unfoldable pub cmd_about : Session → List CString → Session
cmd_about s argv = say_all s (
    (10 ∷ codes "========== About OpenDOS ==========")
    ∷ (codes "Name: OpenDOS - Open Disk Operating System")
    ∷ (codes "Version: 1.0.0")
    ∷ (codes "Platform: Modular C-based OS")
    ∷ (codes "Type: Command-line Operating System")
    ∷ (10 ∷ codes "A simple DOS-style terminal operating")
    ∷ (codes "system written in C with basic file")
    ∷ (codes "management and shell capabilities.")
    ∷ (codes "====================================" ++ newline)
    ∷ [])
