-- ===== src/Event/Lines.antt =====
-- bpf_unwind_ctx_prepare_mmap hands each executable line of the file to its handler, and what a line
-- leaves in the event does not show in the next.
use mathlib.Core.Path.{fun_ext}
use libdw_bcc.Prelude.{
  ℕ, ℤ, pos, sub64, ltb, ◌==◌, ◌≡◌, refl, ap, Bool-cases, inl, inr, true, false, some, List, [],
  ◌∷◌, if◌then◌else◌,
}
use libdw_bcc.Outcome.{ok}
use libdw_bcc.Store.{World, Cmd, pure, ◌>>=◌, ◌>>◌, lift}
use libdw_bcc.Maps.Objects.{Mmap2Event}
use libdw_bcc.Event.{
  Scanned, ProcMaps, prot_byte, prot_bits, flag_bits, or_anon, scanned_event, line_event,
  prepare_from, prepare_mmap,
}

-- The protection of a line as the kernel writes it: four letters.
pub record Letters : Type 0 where
  pub r : ℕ
  pub w : ℕ
  pub x : ℕ
  pub s : ℕ

abbrev pub letters : Letters → List ℕ
letters l = l.r ∷ l.w ∷ l.x ∷ l.s ∷ []

-- A line: what is read of it, with the protection in four letters, or too few fields.
pub data Line : Type 0 where
  full : Letters → Scanned → Line
  short : Scanned → Line

abbrev pub scanned : Line → Scanned
scanned (full l s) = record s { prot = letters l }
scanned (short s) = s

-- What the file of /proc holds: lines that sscanf reads.
abbrev pub Reads : ProcMaps → List (List ℕ) → List Line → Type 0
Reads proc [] [] = Unit
Reads proc [] (x ∷ xs) = ⊥
Reads proc (l ∷ ls) [] = ⊥
Reads proc (l ∷ ls) (full p s ∷ xs) =
    (proc.sscanf l ≡ ok (scanned (full p s))) × (ltb s.count 7 ≡ false) × Reads proc ls xs
Reads proc (l ∷ ls) (short s ∷ xs) =
    (proc.sscanf l ≡ ok s) × (ltb s.count 7 ≡ true) × Reads proc ls xs

-- The event of an executable line. Only its field `ino_generation`, which the code never sets,
-- comes from the memory that the event was made in.
abbrev pub event_of : ℕ → ℕ → ℕ → Letters → Scanned → Mmap2Event
event_of generation tgid tid l s = record {
  tgid = tgid;
  tid = tid;
  start = s.start;
  len = sub64 s.end s.start;
  pgoff = s.pgoff;
  maj = s.maj;
  min = s.min;
  ino = s.ino;
  ino_generation = generation;
  prot = prot_bits l.r l.w l.x;
  flags = flag_bits l.s;
  filename = or_anon (if ltb 7 s.count then s.execname else []);
}

-- The specification: the events of the executable lines, in their order.
abbrev pub events_of : ℕ → ℕ → ℕ → List Line → List Mmap2Event
events_of generation tgid tid [] = []
events_of generation tgid tid (short s ∷ xs) = events_of generation tgid tid xs
events_of generation tgid tid (full l s ∷ xs) =
    let rest = events_of generation tgid tid xs in
    if l.x == 0x78 then event_of generation tgid tid l s ∷ rest else rest

abbrev pub each : (Mmap2Event → Cmd ℤ) → List Mmap2Event → Cmd (Unit {0})
each process [] = pure tt
each process (e ∷ es) = (process e >>= λ ret. pure tt) >> each process es

module _ (proc : ProcMaps) (process : Mmap2Event → Cmd ℤ) (tgid tid : ℕ) where
  prepare_from-each :
      (event : Mmap2Event) (ls : List (List ℕ)) (xs : List Line) (w : World)
      → Reads proc ls xs
      → prepare_from proc process tgid tid event ls w
        ≡ each process (events_of event.ino_generation tgid tid xs) w
  unfolding prepare_from line_event prot_byte
  prepare_from-each event [] [] w h = refl
  prepare_from-each event [] (x ∷ xs) w h = absurd h
  prepare_from-each event (l ∷ ls) [] w h = absurd h
  prepare_from-each event (l ∷ ls) (short s ∷ xs) w (e, few, h) =
      rw (e, lift, ◌>>=◌) (rw (few, ◌>>◌) (prepare_from-each event ls xs w h))
  prepare_from-each event (l ∷ ls) (full p s ∷ xs) w (e, enough, h) =
      rw (e, lift, ◌>>=◌)
        (rw enough (elim (Bool-cases (p.x == 0x78)) [
          | inl run ↦
              let ev = event_of event.ino_generation tgid tid p s in
              rw (run, ◌>>◌)
                (ap (λ k. ((process ev >>= λ ret. pure tt) >> k) w)
                  (fun_ext (λ w'. prepare_from-each ev ls xs w' h)))
          | inr other ↦
              let ev =
                scanned_event event (scanned (full p s)) (prot_bits p.r p.w p.x) (flag_bits p.s) in
              rw (other, ◌>>◌) (prepare_from-each ev ls xs w h)
        ]))

  -- Where the file of the process can be opened and its lines are read, the handler gets the events
  -- of the executable lines, in their order, and nothing else: each with the range, the offset, the
  -- device, the inode, the protection and the name of its own line, and with the ids of the call.
  pub prepare_mmap-each :
      (event : Mmap2Event) (ls : List (List ℕ)) (xs : List Line) (w : World)
      → proc.open_maps tgid ≡ some ls
      → Reads proc ls xs
      → prepare_mmap proc process event tgid tid w
        ≡ (each process (events_of event.ino_generation tgid tid xs) >> pure (pos 0)) w
  unfolding prepare_mmap
  prepare_mmap-each event ls xs w opened h =
      rw (opened, prepare_mmap) (rw (prepare_from-each event ls xs w h, ◌>>◌, ◌>>=◌))
