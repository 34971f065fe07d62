-- ===== src/Programs/Line.antt =====
-- The line that the command write of progs/write.c makes of its words, and the call that stores it.
use pl_dos.Base.{
  ℕ, ◌+◌, ◌≤◌, ◌<◌, ◌≡◌, refl, ap, ◌∙◌, sym, subst, inl, inr, true, Option, none, some, List, [],
  ◌∷◌, ◌++◌, length, length-append, length-replicate, arith, All, take, replicate, append_assoc,
  append-nil, ◌==◌, Bool-cases,
}
use pl_dos.Strings.{CString, Buffer, NoNul, cstr, terminated, str_concat}
use pl_dos.Strings.Buffers.{Writes, str_concat-Writes}
use pl_dos.Filesystem.{Disk}
use pl_dos.System.{System, M, ◌>>=◌}
use pl_dos.Connector.{kernel_connector_request}
use pl_dos.Connector.{Request}
use pl_dos.Strings.Trim.{length-str_len}
use pl_dos.Filesystem.Valid.{IsTree}
use pl_dos.Filesystem.Files.{fs_write_file}
use pl_dos.Filesystem.View.Abstract.{Refines}
use pl_dos.Filesystem.View.Abstract.Op.{write_file}
use pl_dos.Filesystem.View.Copies.{writes_front}
use pl_dos.Programs.Effects.{Effects, called-Effects}
use pl_dos.Programs.Commands.{kc_fs_max_file_size, join_args, write_args}

-- The words with a blank between each two.
abbrev pub spaced : List CString → CString
spaced [] = []
spaced (a ∷ []) = a
spaced (a ∷ b ∷ args) = a ++ b' ' ∷ spaced (b ∷ args)

-- The line that `prog_write` writes.
abbrev pub line_of : List CString → CString
line_of args = spaced args ++ 10 ∷ []

-- An array of 4096 bytes that holds a string.
abbrev Text : CString → Buffer → Type 0
Text s b = (cstr b ≡ s) × (length b ≡ kc_fs_max_file_size) × (terminated b ≡ true)

module _ (d : Disk) where
  open d use {Dev}

  appended :
      (b : Buffer) (s a : CString)
      → Text s b
      → NoNul a
      → length s + length a < kc_fs_max_file_size
      → (b' : Buffer) × (str_concat b a ≡ some b') × Text (s ++ a) b'
  appended b s a (e, l, t) n h =
      from (str_concat b a) refl (str_concat-Writes b a n t (omega (arith, ap length e, l, h)))
    where
      from :
          (r : Option Buffer)
          → str_concat b a ≡ r
          → Writes r (length b) (cstr b ++ a)
          → (b' : Buffer) × (str_concat b a ≡ some b') × Text (s ++ a) b'
      from none q w = absurd w
      from (some b') q w = (b', q, (w.0 ∙ ap (λ x. x ++ a) e, w.1 ∙ l, w.2))

  join_args_lem :
      (b : Buffer) (s : CString) (args : List CString) (k : System Dev)
      → Text s b
      → All NoNul args
      → length s + length (spaced args) < kc_fs_max_file_size
      → (b' : Buffer) × (join_args d b args k ≡ some (b', k)) × Text (s ++ spaced args) b'
  unfolding join_args kernel_connector_request
  join_args_lem b s [] k t n h = (b, refl, (t.0 ∙ sym (append-nil s), t.1, t.2))
  join_args_lem b s (a ∷ []) k t n h =
      let (b', e, t') = appended b s a t n.0 h in (b', rw e refl, t')
  join_args_lem b s (a ∷ c ∷ args) k t n h =
      let total = length-append a (b' ' ∷ spaced (c ∷ args)) in
      let (b1, e, t1) = appended b s a t n.0 (omega (arith, total, h)) in
      let (b2, e2, t2) =
        appended b1 (s ++ a) (b' ' ∷ []) t1 (omega arith, tt)
          (omega (arith, length-append s a, total, h)) in
      let (b3, e3, t3) =
        join_args_lem b2 ((s ++ a) ++ b' ' ∷ []) (c ∷ args) k t2 n.1
          (omega (arith, length-append s a, length-append (s ++ a) (b' ' ∷ []), total, h)) in
      (
        b3,
        rw (e, e2) e3,
        subst (λ x. Text x b3)
            (append_assoc (s ++ a) (b' ' ∷ []) (spaced (c ∷ args))
              ∙ append_assoc s a (b' ' ∷ spaced (c ∷ args)))
            t3,
      )

  take-cstr : (b : Buffer) → take (length (cstr b)) b ≡ cstr b
  take-cstr [] = refl
  take-cstr (c ∷ b) = elim (Bool-cases (c == 0)) [
    | inl zero ↦ rw zero refl
    | inr nonzero ↦ rw nonzero (ap (λ x. c ∷ x) (take-cstr b))
  ]

  abbrev zero_byte : ℕ
  zero_byte = 0

  -- The end of `write_args`, behind the loop.
  abbrev finish : CString → Buffer → M Dev ℕ
  finish path text = kernel_connector_request d (Request.strcat text (10 ∷ [])) >>= λ text.
      kernel_connector_request d (Request.strlen (cstr text)) >>= λ size.
      kernel_connector_request d (Request.write path text size)

  bind_some :
      {A : Type 0} (m : M Dev A) (f : A → M Dev ℕ) (k : System Dev) (a : A)
      → m k ≡ some (a, k)
      → (m >>= f) k ≡ f a k
  bind_some m f k a e = ap (λ r. elim r [ none ↦ none | some (x, k') ↦ f x k' ]) e

  line-Text : Text [] (replicate kc_fs_max_file_size 0)
  line-Text = (refl, length-replicate kc_fs_max_file_size zero_byte, refl)

  -- What `kc_fs_write` is called with.
  write_args_lem :
      (name path : CString) (args : List CString) (k : System Dev)
      → All NoNul args
      → length (spaced args) + 1 < kc_fs_max_file_size
      → (b : Buffer) × Text (line_of args) b
        × (write_args d (name ∷ path ∷ args) k
            ≡ kernel_connector_request d (Request.write path b (length (line_of args))) k)
  unfolding write_args kernel_connector_request
  write_args_lem name path args k n h =
      let (b1, e1, t1) =
        join_args_lem (replicate kc_fs_max_file_size 0) [] args k line-Text n (omega (arith, h)) in
      let (b2, e2, t2) =
        appended b1 (spaced args) (10 ∷ []) t1 (omega arith, tt) (omega (arith, h)) in
      (
        b2,
        t2,
        bind_some (join_args d (replicate kc_fs_max_file_size 0) args) (finish path) k b1 e1
            ∙ rw (e2, length-str_len (cstr b2), t2.0) refl,
      )

  pub write_args-Effects :
      (name path : CString) (args : List CString) (k : System Dev)
      → All NoNul args
      → length (spaced args) + 1 < kc_fs_max_file_size
      → IsTree k.fs.nodes
      → Effects (write_file path (line_of args)) k (write_args d (name ∷ path ∷ args) k)
  unfolding kernel_connector_request
  write_args-Effects name path args k n h v =
      let (b, t, e) = write_args_lem name path args k n h in
      let front : take (length (line_of args)) b ≡ line_of args =
        subst (λ s. take (length s) b ≡ s) t.0 (take-cstr b) in
      let fits : length (line_of args) ≤ length b =
        omega (arith, t.1, length-append (spaced args) (10 ∷ []), h) in
      subst (Effects (write_file path (line_of args)) k) (sym e) (
        called-Effects (write_file path (line_of args)) k _ (
          subst
            (λ s.
              Refines (write_file path s) (record k.fs { console = [] })
                (fs_write_file d (record k.fs { console = [] }) path b (length (line_of args))))
            front
            (writes_front d (record k.fs { console = [] }) path b (length (line_of args)) v fits)))
