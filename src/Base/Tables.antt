-- ===== src/Base/Tables.antt =====
-- Reading a table after one of its slots was written.
use pl_dos.Base.Tests.{◌==◌, if◌then◌else◌, Bool-cases, ==_iff}
use pl_dos.Base.Lists.{length, get_or, set, get_or-set_self, get_or-set_ne}
use Prim.Native.Nat.{ℕ, ◌<◌}
use mathlib.Core.Path.{◌≡◌, subst}
use mathlib.Core.Logic.{inl, inr}
use mathlib.Core.List.{List}
use native.Mathlib.Omega.{arith}

-- Every other slot keeps its value.
pub get_or-set {ℓ} :
    {A : Type ℓ} (xs : List A) (i j : ℕ) (v d : A)
    → i < length xs
    → get_or (set xs i v) j d ≡ (if i == j then v else get_or xs j d)
get_or-set xs i j v d h = elim (Bool-cases (i == j)) [
  | inl e ↦
      rw e
        (subst (λ k. get_or (set xs i v) k d ≡ v) ((==_iff i j).0 e) (get_or-set_self xs i v d h))
  | inr e ↦ rw e (get_or-set_ne xs i j v d (ground arith))
]
