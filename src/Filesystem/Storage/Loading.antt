-- ===== src/Filesystem/Storage/Loading.antt =====
-- Loading what was saved: `fs_disk_load` after `fs_disk_save` of kernel/filesystem.c, on a device that
-- keeps what is written to it.
use pl_dos.Base.{
  ℕ, zero, suc, ◌+◌, ◌*◌, ◌≤◌, ◌<◌, ◌≡◌, ◌≢◌, refl, sym, ap, ◌∙◌, ◌⊎◌, inl, inr, true, some, List,
  [], ◌∷◌, ◌++◌, length, length-append, length-take, length-drop, length-replicate, take, take-drop,
  take_of_le, append-nil, drop, arith, ◌^◌, All, All-take, All-drop, All-append, All-replicate, min,
}
use native.Mathlib.Decide.{dec_lt}
use pl_dos.Memory.{kmemcpy}
use pl_dos.Memory.Bytes.{kmemcpy_lem}
use pl_dos.Filesystem.{Disk}
use pl_dos.Filesystem.Image.{fs_disk_bytes, fs_disk_data_sectors}
use pl_dos.Filesystem.Storage.Saving.{chunk_fits}
use pl_dos.Filesystem.Storage.{empty_sector, fs_disk_start_lba, chunk, save_sectors, load_sectors}

take_exact : (k : ℕ) (xs ys : List ℕ) → length xs ≡ k → take k (xs ++ ys) ≡ xs
take_exact zero [] ys e = refl
take_exact (suc k) [] ys e = absurd (omega arith)
take_exact zero (x ∷ xs) ys e = absurd (omega arith)
take_exact (suc k) (x ∷ xs) ys e = ap (◌∷◌ x) (take_exact k xs ys (omega arith))

-- The size of a chunk of some bytes: 512, or all if there are fewer.
abbrev pub part : List ℕ → ℕ
part raw = min (length raw) 512

take-part : (raw : List ℕ) → take (part raw) raw ≡ take 512 raw
take-part raw = elim (dec_lt (length raw) 512) [
  | yes short ↦ take_of_le (part raw) raw (omega arith) ∙ sym (take_of_le 512 raw (omega arith))
  | no long ↦ let e : part raw ≡ 512 = omega arith in ap (λ k. take k raw) e
]

append_none : (xs ys : List ℕ) → length ys ≡ 0 → xs ++ ys ≡ xs
append_none xs [] e = append-nil xs
append_none xs (y ∷ ys) e = absurd (omega arith)

take_head :
    (xs ys : List ℕ)
    → (length xs ≡ 512) ⊎ ((length xs < 512) × (length ys ≡ 0))
    → take 512 (xs ++ ys) ≡ xs
take_head xs ys (inl full) = take_exact 512 xs ys full
take_head xs ys (inr (short, e)) =
    take_of_le 512 (xs ++ ys) (omega (arith, length-append xs ys)) ∙ append_none xs ys e

-- What one transfer writes: 512 bytes.
abbrev pub IsSector : List ℕ → Type 0
IsSector sector = (length sector ≡ 512) × All (λ b. b < 256) sector

-- A device on which, in the states `Live`, every transfer at a 28-bit address succeeds, a read changes no
-- sector, and a write changes its own.
pub record IsReliable (d : Disk) : Type 1 where
  pub Live : d.Dev → Type 0
  pub at : d.Dev → ℕ → List ℕ
  pub reads :
      (lba : ℕ) (dev : d.Dev)
      → Live dev
      → lba < 2 ^ 28
      → (d.disk_read_sector lba dev).0 ≡ some (at dev lba)
  pub reads_keep :
      (lba l : ℕ) (dev : d.Dev)
      → Live dev
      → lba < 2 ^ 28
      → at (d.disk_read_sector lba dev).1 l ≡ at dev l
  pub reads_live :
      (lba : ℕ) (dev : d.Dev) → Live dev → lba < 2 ^ 28 → Live (d.disk_read_sector lba dev).1
  pub writes :
      (lba : ℕ) (sector : List ℕ) (dev : d.Dev)
      → Live dev
      → lba < 2 ^ 28
      → IsSector sector
      → (d.disk_write_sector lba sector dev).0 ≡ true
  pub written :
      (lba : ℕ) (sector : List ℕ) (dev : d.Dev)
      → Live dev
      → lba < 2 ^ 28
      → IsSector sector
      → at (d.disk_write_sector lba sector dev).1 lba ≡ sector
  pub others :
      (lba l : ℕ) (sector : List ℕ) (dev : d.Dev)
      → Live dev
      → lba < 2 ^ 28
      → IsSector sector
      → lba ≢ l
      → at (d.disk_write_sector lba sector dev).1 l ≡ at dev l
  pub writes_live :
      (lba : ℕ) (sector : List ℕ) (dev : d.Dev)
      → Live dev
      → lba < 2 ^ 28
      → IsSector sector
      → Live (d.disk_write_sector lba sector dev).1
  pub present : (dev : d.Dev) → Live dev → d.disk_present dev ≡ true

-- The sector of a chunk.
part-IsSector :
    (raw : List ℕ)
    → All (λ b. b < 256) raw
    → IsSector (take (part raw) raw ++ drop (part raw) empty_sector)
part-IsSector raw small = (
  omega (
    arith,
    length-append (take (part raw) raw) (drop (part raw) empty_sector),
    length-take (part raw) raw,
    length-drop (part raw) empty_sector,
    length-replicate {A = ℕ} 512 0,
  ),
  All-append (λ b. b < 256) (take (part raw) raw) (drop (part raw) empty_sector)
      (All-take (λ b. b < 256) (part raw) raw small)
      (All-drop (λ b. b < 256) (part raw) empty_sector
        (All-replicate (λ b. b < 256) 512 0 (omega arith))),
)

module _ (d : Disk) (r : IsReliable d) where
  -- The sectors from number `s` on hold the bytes `raw`.
  abbrev pub Holds : ℕ → ℕ → List ℕ → d.Dev → Type 0
  Holds zero s raw dev = Unit {0}
  Holds (suc rounds) s raw dev =
      (take (part raw) (r.at dev (fs_disk_start_lba + 1 + s)) ≡ take 512 raw)
      × Holds rounds (s + 1) (drop 512 raw) dev

  pub Holds-same :
      (rounds s : ℕ) (raw : List ℕ) (dev dev' : d.Dev)
      → ((l : ℕ) → fs_disk_start_lba + s < l → r.at dev' l ≡ r.at dev l)
      → Holds rounds s raw dev
      → Holds rounds s raw dev'
  Holds-same zero s raw dev dev' same h = tt
  Holds-same (suc rounds) s raw dev dev' same h = (
    ap (take (part raw)) (same (fs_disk_start_lba + 1 + s) (omega arith)) ∙ h.0,
    Holds-same rounds (s + 1) (drop 512 raw) dev dev' (λ l lt. same l (omega arith)) h.1,
  )

  -- The loop that saves succeeds, its sectors then hold the bytes, and those before them are kept.
  pub save_sectors-Holds :
      (rounds s : ℕ) (raw : List ℕ) (dev : d.Dev)
      → r.Live dev
      → s + rounds ≡ fs_disk_data_sectors
      → length raw + s * 512 ≡ fs_disk_bytes
      → All (λ b. b < 256) raw
      → (dev' : d.Dev) × (save_sectors d rounds s raw dev ≡ some (true, dev'))
        × Holds rounds s raw dev'
        × ((l : ℕ) → l ≤ fs_disk_start_lba + s → r.at dev' l ≡ r.at dev l)
        × r.Live dev'
  unfolding save_sectors
  save_sectors-Holds zero s raw dev live n l0 small = (dev, refl, tt, λ l le. refl, live)
  save_sectors-Holds (suc rounds) s raw dev live n l0 small =
      let h : fs_disk_start_lba + 1 + s < 2 ^ 28 = omega (arith, n) in
      let size : chunk s ≡ part raw = chunk_fits s raw (omega (arith, n)) l0 in
      let whole = part-IsSector raw small in
      let lba = fs_disk_start_lba + 1 + s in
      let c = part raw in
      let sector = take c raw ++ drop c empty_sector in
      let copied =
        kmemcpy_lem empty_sector raw c (omega (arith, length-replicate {A = ℕ} 512 0))
          (omega arith) in
      let dev1 = (d.disk_write_sector lba sector dev).1 in
      let (dev', e, held, kept, alive) =
        save_sectors-Holds rounds (s + 1) (drop 512 raw) dev1
          (r.writes_live lba sector dev live h whole) (omega (arith, n))
          (omega (arith, n, l0, length-drop 512 raw)) (All-drop (λ b. b < 256) 512 raw small) in
      let first : take c (r.at dev' lba) ≡ take 512 raw =
        ap (take c) (kept lba (omega arith) ∙ r.written lba sector dev live h whole)
        ∙ take_exact c (take c raw) (drop c empty_sector) (omega (arith, length-take c raw))
        ∙ take-part raw in
      (
        dev',
        rw (ap (kmemcpy empty_sector raw) size ∙ copied, r.writes lba sector dev live h whole, e),
        (first, held),
        λ l le. kept l (omega arith) ∙ r.others lba l sector dev live h whole (omega arith),
        alive,
      )

  -- The loop that loads gives back the bytes that the sectors hold, over any bytes of that number.
  pub load_sectors-Holds :
      (rounds s : ℕ) (old raw : List ℕ) (dev : d.Dev)
      → Holds rounds s raw dev
      → length old ≡ length raw
      → length raw + s * 512 ≡ fs_disk_bytes
      → r.Live dev
      → s + rounds ≡ fs_disk_data_sectors
      → (dev' : d.Dev) × (load_sectors d rounds s old dev ≡ some (true, raw, dev'))
  unfolding load_sectors
  load_sectors-Holds zero s [] [] dev h e le live room = (dev, refl)
  load_sectors-Holds zero s [] (x ∷ raw) dev h e le live room = absurd (omega (arith, e))
  load_sectors-Holds zero s (x ∷ old) raw dev h e le live room = absurd (omega (arith, e, le, room))
  load_sectors-Holds (suc rounds) s old raw dev h e le live room =
      let fits : fs_disk_start_lba + 1 + s < 2 ^ 28 = omega (arith, room) in
      let size : chunk s ≡ part old =
        chunk_fits s old (omega (arith, room)) (omega (arith, e, le)) in
      let lba = fs_disk_start_lba + 1 + s in
      let sector = r.at dev lba in
      let c = part old in
      let same : part old ≡ part raw = omega arith in
      let front : take c sector ≡ take 512 raw = ap (λ k. take k sector) same ∙ h.0 in
      let enough : c ≤ length sector =
        omega (arith, ap length front, length-take c sector, length-take 512 raw) in
      let copied : kmemcpy old sector c ≡ some (take 512 raw ++ drop c old) =
        kmemcpy_lem old sector c (omega arith) enough ∙ ap (λ x. some (x ++ drop c old)) front in
      let total : length (take 512 raw ++ drop c old) ≡ length raw = omega (
        arith,
        length-append (take 512 raw) (drop c old),
        length-take 512 raw,
        length-drop c old,
      ) in
      let dev1 = (d.disk_read_sector lba dev).1 in
      let held =
        Holds-same rounds (s + 1) (drop 512 raw) dev dev1 (λ l lt. r.reads_keep lba l dev live fits)
          h.1 in
      let (dev', done) =
        load_sectors-Holds rounds (s + 1) (drop 512 (take 512 raw ++ drop c old)) (drop 512 raw)
          dev1 held
          (omega (arith, length-drop 512 (take 512 raw ++ drop c old), length-drop 512 raw, total))
          (omega (arith, le, room, length-drop 512 raw)) (r.reads_live lba dev live fits)
          (omega (arith, room)) in
      let head : take 512 (take 512 raw ++ drop c old) ≡ take 512 raw =
        take_head (take 512 raw) (drop c old)
          (omega (arith, length-take 512 raw, length-drop c old)) in
      (
        dev',
        rw (
          load_sectors,
          r.reads lba dev live fits,
          ap (kmemcpy old sector) size ∙ copied,
          done,
          head,
          take-drop 512 raw,
        ),
      )
