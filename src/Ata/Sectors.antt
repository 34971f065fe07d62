-- ===== src/Ata/Sectors.antt =====
-- A sector that `disk_write_sector` of kernel/disk.c writes, and that `disk_read_sector` reads back.
use pl_dos.Base.{
  ℕ, zero, suc, ◌-◌, ◌∷◌, ◌^◌, ◌<◌, ◌≡◌, refl, ap, ◌∙◌, subst, true, some, List, [], length, ◌==◌,
  arith, Bool-cases, inl, inr,
}
use pl_dos.Ata.{
  Ports, Driver, ata_status, ata_command, ata_cmd_read, ata_cmd_write, ata_cmd_flush, max_polls,
  wait_not_busy, wait_drq, read_times, ata_delay, send_command, read_words, write_words,
  disk_read_sector, disk_write_sector,
}
use pl_dos.Ata.Drive.{Phase, Drive, to_read, asks, with_sector, IsAta}
use pl_dos.Ata.Drive.Phase.{idle, writing}
use pl_dos.Ata.Transfer.{
  Ready, Stored, poll_not_busy-Ready, poll_drq-Ready, addressed, address-addressed, set_up,
  bytes_of, words_of, length-words_of, read_words_lem, write_words_lem,
}

module _ (p : Ports) (a : IsAta p) where
  open p use {Machine}

  -- A drive that is detected and takes the next command, with sectors of 256 words.
  pub record IsIdle (v : Driver p) : Type 0 where
    pub detected : v.has_disk ≡ true
    pub waits : (a.view v.machine).phase ≡ idle
    pub soon : (a.view v.machine).busy < max_polls
    pub sized : (l : ℕ) → length ((a.view v.machine).sectors l) ≡ 256

  abbrev pub sector_of : Driver p → ℕ → List ℕ
  sector_of v = (a.view v.machine).sectors

  -- The reads of the status in `ata_delay`.
  delayed :
      (n : ℕ) (m : Machine) (s : Drive)
      → a.view m ≡ s
      → a.view (read_times p n m) ≡ record s { busy = s.busy - n }
  unfolding read_times
  delayed zero m s e =
      let all : s.busy ≡ s.busy - 0 = omega arith in e ∙ ap (λ b. record s { busy = b }) all
  delayed (suc n) m s e =
      let fewer : s.busy - 1 - n ≡ s.busy - suc n = omega arith in
      delayed n (p.inb ata_status m).1 (record s { busy = s.busy - 1 }) (a.status_read m s e)
      ∙ ap (λ b. record s { busy = b }) fewer

  asks_for_read : (ws : List ℕ) → length ws ≡ 256 → asks (to_read ws) ≡ true
  asks_for_read [] l = absurd (omega (arith, l))
  asks_for_read (w ∷ ws) l = refl

  module _ (v : Driver p) (lba : ℕ) (i : IsIdle v) (h : lba < 2 ^ 28) where
    abbrev s : Drive
    s = a.view v.machine

    -- The drive when its data register is used.
    abbrev serving : Phase → Drive
    serving ph = record (addressed p a s lba) { phase = ph; busy = 0 }

    waited : Ready p a s (wait_not_busy p v.machine)
    unfolding wait_not_busy
    waited = poll_not_busy-Ready p a max_polls v.machine s refl i.soon

    read_sent :
        Ready p a
          (serving (to_read (s.sectors lba)))
          (wait_drq p (send_command p lba ata_cmd_read (wait_not_busy p v.machine).1))
    unfolding send_command wait_drq
    read_sent =
        let e' = set_up p a lba _ (record s { busy = 0 }) (waited.1) in
        let (b, less, e'') = a.read_command _ _ e' i.waits refl refl in
        let at = address-addressed p a s lba h in
        poll_drq-Ready p a max_polls _
          (record (addressed p a s lba) { phase = to_read (s.sectors lba); busy = b })
          (e''
            ∙ ap (λ l. record (addressed p a s lba) { phase = to_read (s.sectors l); busy = b }) at)
          (asks_for_read (s.sectors lba) (i.sized lba)) less

    write_sent :
        Ready p a
          (serving (writing lba []))
          (wait_drq p (send_command p lba ata_cmd_write (wait_not_busy p v.machine).1))
    unfolding send_command wait_drq
    write_sent =
        let e' = set_up p a lba _ (record s { busy = 0 }) (waited.1) in
        let (b, less, e'') = a.write_command _ _ e' i.waits refl refl in
        let at = address-addressed p a s lba h in
        poll_drq-Ready p a max_polls _
          (record (addressed p a s lba) { phase = writing lba []; busy = b })
          (e'' ∙ ap (λ l. record (addressed p a s lba) { phase = writing l []; busy = b }) at) refl
          less

    -- The words of the sector that was asked for.
    words_read :
        (m : Machine)
        → a.view m ≡ serving (to_read (s.sectors lba))
        → ((read_words p 256 m).0 ≡ bytes_of (s.sectors lba))
          × (a.view (read_words p 256 m).1 ≡ serving idle)
    words_read m e =
        subst
          (λ n.
            ((read_words p n m).0 ≡ bytes_of (s.sectors lba))
            × (a.view (read_words p n m).1 ≡ serving idle))
          (i.sized lba)
          (read_words_lem p a (s.sectors lba) m (serving (to_read (s.sectors lba))) e refl refl)

    -- The driver behind `ata_delay`.
    rested_idle :
        (m : Machine) {low mid high select count : ℕ} {sectors : ℕ → List ℕ}
        → ((l : ℕ) → length (sectors l) ≡ 256)
        → a.view m ≡ record {
          count = count;
          low = low;
          mid = mid;
          high = high;
          select = select;
          phase = idle;
          busy = 0 - 4;
          sectors = sectors;
        }
        → IsIdle (record { has_disk = true; status_text = v.status_text; machine = m })
    rested_idle m full e =
        let still : (a.view m).busy ≡ 0 - 4 = ap (λ (x : Drive). x.busy) e in
        record {
          detected = refl;
          waits = ap (λ (x : Drive). x.phase) e;
          soon = omega (arith, still);
          sized = λ l. ap (λ (x : Drive). length (x.sectors l)) e ∙ full l;
        }

    -- A read gives the bytes of the sector and changes none.
    pub disk_read_sector_lem :
        let (r, v') = disk_read_sector p lba v in
        (r ≡ some (bytes_of (sector_of v lba))) × IsIdle v' × (sector_of v' ≡ sector_of v)
    unfolding disk_read_sector ata_delay
    disk_read_sector_lem =
        let (yes', e) = waited in
        let (ready, e') = read_sent in
        let (bytes, e'') = words_read _ e' in
        let rested = delayed 4 _ (serving idle) e'' in
        rw (i.detected, yes', ready)
          (
            ap (λ (x : List ℕ). some x) bytes,
            rested_idle _ i.sized rested,
            ap (λ (x : Drive). x.sectors) rested,
          )

    -- The words of the bytes, all of them.
    words_written :
        (bytes : List ℕ) (m : Machine)
        → length bytes ≡ 512
        → a.view m ≡ serving (writing lba [])
        → Stored p a (serving (writing lba [])) lba (words_of bytes) (write_words p 256 bytes m)
    words_written bytes m l e =
        let count : length (words_of bytes) ≡ 256 = length-words_of 256 bytes (omega (arith, l)) in
        subst
          (λ n.
            Stored p a (serving (writing lba [])) lba (words_of bytes) (write_words p n bytes m))
          count
          (write_words_lem p a bytes [] m (serving (writing lba [])) lba e refl refl
            (omega (arith, count)) (omega (arith, count)))

    sized_after :
        (ws : List ℕ) → length ws ≡ 256 → (k : ℕ) → length (with_sector s.sectors lba ws k) ≡ 256
    sized_after ws full k = elim (Bool-cases (lba == k)) [
      | inl same ↦ rw same full
      | inr other ↦ rw other (i.sized k)
    ]

    flush_waited :
        (m : Machine) (t : Drive)
        → a.view m ≡ t
        → t.busy < max_polls
        → a.view (wait_not_busy p m).1 ≡ record t { busy = 0 }
    unfolding wait_not_busy
    flush_waited m t e less = (poll_not_busy-Ready p a max_polls m t e less).1

    -- The flush behind the write, taken or ignored: the drive is ready again within the polls.
    flush_sent :
        (m : Machine) (t : Drive)
        → a.view m ≡ t
        → t.phase ≡ idle
        → t.busy < max_polls
        → (b : ℕ) × (b < max_polls)
          × (a.view (p.outb ata_command ata_cmd_flush m) ≡ record t { busy = b })
    flush_sent m t e ph less = elim (Bool-cases (t.busy == 0)) [
      | inl done ↦ a.flush_command m t e ph (ground (arith, done))
      | inr more ↦ elim (a.flush_while_busy m t e ph (ground (arith, more))) [
        | inl ignored ↦ (t.busy, less, ignored)
        | inr taken ↦ taken
      ]
    ]

    -- A write of 512 bytes succeeds and changes the one sector.
    pub disk_write_sector_lem :
        (bytes : List ℕ)
        → length bytes ≡ 512
        → let (r, v') = disk_write_sector p lba bytes v in
          (r ≡ true) × IsIdle v' × (sector_of v' ≡ with_sector (sector_of v) lba (words_of bytes))
    unfolding disk_write_sector ata_delay
    disk_write_sector_lem bytes l =
        let (yes', e) = waited in
        let (ready, e') = write_sent in
        let (b, less, e'') = words_written bytes _ l e' in
        let (b', less', flushed) = flush_sent _ _ e'' refl less in
        let settled = flush_waited _ _ flushed less' in
        let rested = delayed 4 _ _ settled in
        rw (i.detected, yes', ready)
          (
            refl,
            rested_idle _
                (sized_after (words_of bytes) (length-words_of 256 bytes (omega (arith, l))))
                rested,
            ap (λ (x : Drive). x.sectors) rested,
          )
