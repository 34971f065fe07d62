-- ===== src/System/Keeps.antt =====
-- What every run of a program keeps, when each request that it makes keeps it.
use pl_dos.Base.{Bool, true, false, Option, none, some, if◌then◌else◌}
use pl_dos.System.{System, M, return, ◌>>=◌}

-- The state after a run that overran no array.
abbrev pub After : {Dev A : Type 0} → (System Dev → Type 0) → Option (A × System Dev) → Type 0
After P none = Unit {0}
After P (some (a, s)) = P s

-- A run that starts in `P` ends in `Q`.
abbrev pub Leads :
    {Dev A : Type 0} → (System Dev → Type 0) → (System Dev → Type 0) → M Dev A → Type 0
Leads {Dev} P Q m = (s : System Dev) → P s → After Q (m s)

pub Leads-bind :
    {Dev A B : Type 0} (P Q R : System Dev → Type 0) (m : M Dev A) (f : A → M Dev B)
    → Leads P Q m
    → ((a : A) → Leads Q R (f a))
    → Leads P R (m >>= f)
Leads-bind {Dev} {A} {B} P Q R m f km kf s h = onward (m s) (km s h)
  where
    onward :
        (r : Option (A × System Dev))
        → After Q r
        → After R (elim r [ none ↦ none | some (a, s') ↦ f a s' ])
    onward none k = tt
    onward (some (a, s')) k = kf a s' k

module _ {Dev : Type 0} (P : System Dev → Type 0) where
  abbrev pub Keeps : {A : Type 0} → M Dev A → Type 0
  Keeps m = Leads P P m

  pub Keeps-return : {A : Type 0} (a : A) → Keeps (return a)
  Keeps-return a s h = h

  pub Keeps-bind :
      {A B : Type 0} (m : M Dev A) (f : A → M Dev B)
      → Keeps m
      → ((a : A) → Keeps (f a))
      → Keeps (m >>= f)
  Keeps-bind m f km kf = Leads-bind P P P m f km kf

  pub Keeps-if :
      {A : Type 0} (b : Bool) (m k : M Dev A) → Keeps m → Keeps k → Keeps (if b then m else k)
  Keeps-if true m k km kk = km
  Keeps-if false m k km kk = kk
