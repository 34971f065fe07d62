-- ===== src/Ata/Transfer.antt =====
-- `disk_read_sector` and `disk_write_sector` of kernel/disk.c on a drive that behaves as the standard
-- says.
use pl_dos.Base.{
  ℕ, zero, suc, ◌+◌, ◌*◌, ◌/◌, ◌%◌, ◌^◌, ◌-◌, ◌<◌, ◌≡◌, refl, ap, ◌∙◌, Bool, true, false, not,
  subst, inl, inr, List, [], ◌∷◌, ◌++◌, length, ◌==◌, append_assoc, length-append, arith, All,
  Bool-cases,
}
use pl_dos.Ata.{
  Ports, ata_data, ata_sector_count, ata_lba_low, ata_lba_mid, ata_lba_high, ata_drive, ata_status,
  max_polls, is_busy, is_ready, poll_not_busy, poll_drq, read_words, write_words,
}
use pl_dos.Ata.Drive.{Drive, address, to_read, asks, IsStatus, with_sector, IsAta}
use pl_dos.Ata.Drive.Phase.{idle, writing}

-- The two bytes of each word, the low one first, and the words of bytes in pairs.
abbrev pub bytes_of : List ℕ → List ℕ
bytes_of [] = []
bytes_of (w ∷ ws) = w % 256 ∷ w / 2 ^ 8 % 256 ∷ bytes_of ws

abbrev pub words_of : List ℕ → List ℕ
words_of [] = []
words_of (low ∷ []) = []
words_of (low ∷ high ∷ bytes) = (low + high * 2 ^ 8) ∷ words_of bytes

pub bytes_of-words_of :
    (n : ℕ) (bytes : List ℕ)
    → length bytes ≡ n + n
    → All (λ b. b < 256) bytes
    → bytes_of (words_of bytes) ≡ bytes
bytes_of-words_of n [] e h = refl
bytes_of-words_of zero (low ∷ bytes) e h = absurd (omega (arith, e))
bytes_of-words_of (suc n) (low ∷ []) e h = absurd (omega (arith, e))
bytes_of-words_of (suc n) (low ∷ high ∷ bytes) e (l, (k, h)) =
    let first : (low + high * 2 ^ 8) % 256 ≡ low = omega (arith, l) in
    let second : (low + high * 2 ^ 8) / 2 ^ 8 % 256 ≡ high = omega (arith, l, k) in
    rw (first, second, bytes_of-words_of n bytes (omega (arith, e)) h) refl

pub length-words_of : (n : ℕ) (bytes : List ℕ) → length bytes ≡ n + n → length (words_of bytes) ≡ n
length-words_of zero [] e = refl
length-words_of (suc n) [] e = absurd (omega (arith, e))
length-words_of zero (low ∷ bytes) e = absurd (omega (arith, e))
length-words_of (suc n) (low ∷ []) e = absurd (omega (arith, e))
length-words_of (suc n) (low ∷ high ∷ bytes) e = ap suc (length-words_of n bytes (omega (arith, e)))

module _ (p : Ports) (a : IsAta p) where
  open p use {Machine}

  -- What the status register gives.
  pub status_of : (m : Machine) (s : Drive) → a.view m ≡ s → IsStatus s (p.inb ata_status m).0
  status_of m s e = subst (λ x. IsStatus x (p.inb ata_status m).0) e (a.status m)

  -- The end of a polling loop: it answers yes, and the drive is as before but no longer busy.
  abbrev pub Ready : Drive → Bool × Machine → Type 0
  Ready s r = (r.0 ≡ true) × (a.view r.1 ≡ record s { busy = 0 })

  read_status :
      (m : Machine) (s : Drive)
      → a.view m ≡ s
      → (s.busy == 0) ≡ true
      → a.view (p.inb ata_status m).1 ≡ record s { busy = 0 }
  read_status m s e done =
      let none_left : s.busy - 1 ≡ 0 = ground arith in
      a.status_read m s e ∙ ap (λ b. record s { busy = b }) none_left

  pub poll_not_busy-Ready :
      (rounds : ℕ) (m : Machine) (s : Drive)
      → a.view m ≡ s
      → s.busy < rounds
      → Ready s (poll_not_busy p rounds m)
  unfolding poll_not_busy
  poll_not_busy-Ready zero m s e h = absurd (omega (arith, h))
  poll_not_busy-Ready (suc rounds) m s e h = elim (Bool-cases (s.busy == 0)) [
    | inl done ↦
        let st : is_busy (p.inb ata_status m).0 ≡ false = (status_of m s e).bsy ∙ ap not done in
        rw st (refl, read_status m s e done)
    | inr more ↦
        let st : is_busy (p.inb ata_status m).0 ≡ true = (status_of m s e).bsy ∙ ap not more in
        rw st (
          poll_not_busy-Ready rounds (p.inb ata_status m).1 (record s { busy = s.busy - 1 })
            (a.status_read m s e) (ground (arith, h, more)))
  ]

  pub poll_drq-Ready :
      (rounds : ℕ) (m : Machine) (s : Drive)
      → a.view m ≡ s
      → asks s.phase ≡ true
      → s.busy < rounds
      → Ready s (poll_drq p rounds m)
  unfolding poll_drq
  poll_drq-Ready zero m s e wants h = absurd (omega (arith, h))
  poll_drq-Ready (suc rounds) m s e wants h = elim (Bool-cases (s.busy == 0)) [
    | inl done ↦
        let st = status_of m s e in
        let good = st.err in
        let free : is_busy (p.inb ata_status m).0 ≡ false = st.bsy ∙ ap not done in
        let set : is_ready (p.inb ata_status m).0 ≡ true = st.drq (ground (arith, done)) ∙ wants in
        rw (good, free, set) (refl, read_status m s e done)
    | inr more ↦
        let st = status_of m s e in
        let good = st.err in
        let held : is_busy (p.inb ata_status m).0 ≡ true = st.bsy ∙ ap not more in
        rw (good, held)
          (poll_drq-Ready rounds (p.inb ata_status m).1 (record s { busy = s.busy - 1 })
            (a.status_read m s e) wants (ground (arith, h, more)))
  ]

  -- The address that the registers get.
  abbrev pub addressed : Drive → ℕ → Drive
  addressed s lba = record s {
    select = 0xE0 + lba / 2 ^ 24 % 16;
    count = 1;
    low = lba % 256;
    mid = lba / 2 ^ 8 % 256;
    high = lba / 2 ^ 16 % 256;
  }

  pub address-addressed : (s : Drive) (lba : ℕ) → lba < 2 ^ 28 → address (addressed s lba) ≡ lba
  address-addressed s lba h = omega (arith, h)

  pub set_up :
      (lba : ℕ) (m : Machine) (s : Drive)
      → a.view m ≡ s
      → a.view (
          p.outb ata_lba_high (lba / 2 ^ 16 % 256) (
            p.outb ata_lba_mid (lba / 2 ^ 8 % 256) (
              p.outb ata_lba_low
                (lba % 256)
                (p.outb ata_sector_count 1 (p.outb ata_drive (0xE0 + lba / 2 ^ 24 % 16) m)))))
        ≡ addressed s lba
  set_up lba m s e =
      a.set_high _ _ _ (a.set_mid _ _ _ (a.set_low _ _ _ (a.set_count _ _ _ (a.set_drive _ _ _ e))))

  pub read_words_lem :
      (ws : List ℕ) (m : Machine) (s : Drive)
      → a.view m ≡ s
      → s.phase ≡ to_read ws
      → s.busy ≡ 0
      → ((read_words p (length ws) m).0 ≡ bytes_of ws)
        × (a.view (read_words p (length ws) m).1 ≡ record s { phase = idle })
  unfolding read_words
  read_words_lem [] m s e ph b = (refl, e ∙ ap (λ x. record s { phase = x }) ph)
  read_words_lem (w ∷ ws) m s e ph b =
      let (value, e') = a.word_read m s w ws e ph b in
      let (bytes, e'') =
        read_words_lem ws (p.inw ata_data m).1 (record s { phase = to_read ws }) e' refl b in
      (rw (value, bytes) refl, e'')

  -- The drive behind the last word of a sector.
  abbrev pub Stored : Drive → ℕ → List ℕ → Machine → Type 0
  Stored s lba ws m =
      (b : ℕ) × (b < max_polls)
      × (a.view m ≡ record s { phase = idle; busy = b; sectors = with_sector s.sectors lba ws })

  pub write_words_lem :
      (bytes done : List ℕ) (m : Machine) (s : Drive) (lba : ℕ)
      → a.view m ≡ s
      → s.phase ≡ writing lba done
      → s.busy ≡ 0
      → 0 < length (words_of bytes)
      → length done + length (words_of bytes) ≡ 256
      → Stored s lba (done ++ words_of bytes) (write_words p (length (words_of bytes)) bytes m)
  unfolding write_words
  write_words_lem [] done m s lba e ph b pos l = absurd (omega (arith, pos))
  write_words_lem (low ∷ []) done m s lba e ph b pos l = absurd (omega (arith, pos))
  write_words_lem (low ∷ high ∷ []) done m s lba e ph b pos l =
      a.last_written m s lba (low + high * 2 ^ 8) done e ph b l
  write_words_lem (low ∷ high ∷ x ∷ []) done m s lba e ph b pos l =
      a.last_written m s lba (low + high * 2 ^ 8) done e ph b l
  write_words_lem (low ∷ high ∷ x ∷ y ∷ bytes) done m s lba e ph b pos l =
      let w = low + high * 2 ^ 8 in
      let e' = a.word_written m s lba w done e ph b (omega (arith, l)) in
      let (k, less, e'') =
        write_words_lem (x ∷ y ∷ bytes) (done ++ w ∷ []) (p.outw ata_data w m)
          (record s { phase = writing lba (done ++ w ∷ []) }) lba e' refl b (omega arith)
          (omega (arith, l, length-append done (w ∷ []))) in
      (
        k,
        less,
        e''
            ∙ ap (λ ws. record s { phase = idle; busy = k; sectors = with_sector s.sectors lba ws })
                (append_assoc done (w ∷ []) (words_of (x ∷ y ∷ bytes))),
      )
