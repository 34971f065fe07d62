-- ===== src/Hosted/Main.antt =====
-- src/main.c: the other `main` of the hosted program, around the same loop.
use pl_dos.Base.{ℕ, ◌⊎◌, inl, inr, Option, some, ◌∷◌, codes, ◌>>=◌}
use pl_dos.Strings.{Buffer}
use pl_dos.Hosted.Builtins.{Services}
use pl_dos.Hosted.Loop.{Standing, Outcome, shell_init, shell_run, started}

module _ (S : Services) where
  open S use {State}

  -- The farewell, and the end with status 0.
  abbrev farewell : Standing S → Outcome S
  farewell (Standing.going l) = Outcome.running l
  farewell (Standing.ended p) =
      Outcome.exited 0 (S.io_println (10 ∷ codes "OpenDOS terminated successfully.") p.state)

  -- `main` behind `shell_init`.
  unfoldable pub run_loop : ℕ → Buffer → State ⊎ State → Option (Outcome S)
  run_loop rounds buffer (inl k) = some (Outcome.exited 1 k)
  run_loop rounds buffer (inr k) = do
    standing ← shell_run S rounds (started S buffer k)
    some (farewell standing)

  unfoldable pub main : ℕ → Buffer → State → Option (Outcome S)
  main rounds buffer k = run_loop rounds buffer (shell_init S k)
