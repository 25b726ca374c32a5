-- ===== src/LoadTest/Logger/Keeping.antt =====
-- What the files of a log hold, and a write to it. The rotation forgets its sequence number with the stream,
-- so each one writes to the same archive.
use gemba_blockchain.Base.{
  ==_refl, Bool-cases, List, Option, Option-cases, Text, [], arith, false, if◌then◌else◌, inl, inr,
  leb, length, length-append, lookup, lookup-erase, lookup-insert_self, none, refl, some,
  text_beq_iff, text_eq, true, ℕ, ◌++◌, ◌+◌, ◌<◌, ◌==◌, ◌∷◌, ◌≡◌, ◌⊎◌,
}
use gemba_blockchain.LoadTest.Logger.{
  jsonl, rolled, gz, lines, RunLogger, append_line, stream, count_of, rotate, write,
}

-- A log as the rotation really keeps it: the lines since the last rotation, and the one archive.
pub record Log : Type 0 where
  pub current : List Text
  pub archive : Option (List Text)

unfoldable pub log_write : ℕ → Log → Text → Log
log_write rotate_lines log line =
    let grown = log.current ++ line ∷ [] in
    if leb rotate_lines (length grown)
    then record { current = []; archive = some grown }
    else record log { current = grown }

unfoldable pub writes : RunLogger → List (Text × Text) → RunLogger
writes l [] = l
writes l ((name, line) ∷ rest) = writes (write l name line) rest

unfoldable pub log_writes : ℕ → Text → Log → List (Text × Text) → Log
log_writes k name log [] = log
log_writes k name log ((j, line) ∷ rest) =
    log_writes k name (if j == name then log_write k log line else log) rest

-- The counters of a log whose stream is open.
abbrev pub IsOpen : RunLogger → Text → Log → Type 0
IsOpen l name log =
    (lookup name l.streams ≡ some true)
    × (count_of name l.counts ≡ length log.current)
    × (count_of name l.seq ≡ 0)

-- The files of the log `name`, uncompressed rotated ones included, are those of `log`, and the counter counts its current lines.
abbrev pub Holds : RunLogger → Text → Log → Type 0
Holds l name log =
    (lines l.dir (jsonl name) ≡ log.current)
    × (l.dir.files (gz name 0) ≡ log.archive)
    × ((i : ℕ) → l.dir.files (gz name (i + 1)) ≡ none)
    × ((i : ℕ) → l.dir.files (rolled name i) ≡ none)

abbrev pub Keeps : RunLogger → Text → Log → Type 0
Keeps l name log =
    Holds l name log × (((lookup name l.streams ≡ none) × (log.current ≡ [])) ⊎ IsOpen l name log)

stream-IsOpen :
    (l : RunLogger) (name : Text) (log : Log)
    → Keeps l name log
    → Holds (stream l name) name log × IsOpen (stream l name) name log
unfolding stream
stream-IsOpen l name log (holds, inl closed) =
    rw (closed.0, stream)
      (
        (
          ground (arith, holds, text_beq_iff name name),
          ground (arith, holds),
          λ i. ground (arith, holds.2 i),
          λ i. ground (arith, holds.3 i),
        ),
        (
          lookup-insert_self name true l.streams,
          ground (arith, lookup-insert_self name 0 l.counts, closed.1),
          ground (arith, lookup-insert_self name 0 l.seq),
        ),
      )
stream-IsOpen l name log (holds, inr opened) = rw (opened.0, stream) (holds, opened)

pub stream-rotate_at : (l : RunLogger) (name : Text) → (stream l name).rotate_at ≡ l.rotate_at
unfolding stream
stream-rotate_at l name = ground (arith, Option-cases (lookup name l.streams))

append_line-IsOpen :
    (l : RunLogger) (name line : Text) (log : Log)
    → Holds l name log
    → IsOpen l name log
    → let grown : Log = record log { current = log.current ++ line ∷ [] } in
      Holds (append_line l name line) name grown × IsOpen (append_line l name line) name grown
unfolding append_line
append_line-IsOpen l name line log holds opened =
    let self = text_beq_iff name name in
    let counted = lookup-insert_self name (count_of name l.counts + 1) l.counts in
    (
      (
        ground (arith, holds, self),
        ground (arith, holds, self),
        λ i. ground (arith, holds.2 i),
        λ i. ground (arith, holds.3 i),
      ),
      (opened.0, ground (arith, counted, opened, length-append log.current (line ∷ [])), opened.2),
    )

rotate-Keeps :
    (l : RunLogger) (name : Text) (log : Log)
    → Holds l name log
    → IsOpen l name log
    → 0 < length log.current
    → Keeps (rotate l name) name (record { current = []; archive = some log.current })
unfolding rotate
rotate-Keeps l name log holds opened busy =
    let self = text_beq_iff name name in
    elim (Option-cases (l.dir.files (jsonl name))) [
      | inl missing ↦ ground (arith, missing, holds, busy)
      | inr (ls, found) ↦
          let same : ls ≡ log.current = ground (arith, found, holds.0) in
          rw (found, rotate)
            (
              (
                ground (arith, self),
                ground (arith, self, opened.2, same),
                λ i. ground (arith, self, opened.2, holds.2 i),
                λ i. ground (arith, self, opened.2, holds.3 i),
              ),
              inl (ground (arith, lookup-erase name name l.streams, ==_refl name), refl),
            )
    ]

pub write-Keeps :
    (l : RunLogger) (name line : Text) (log : Log)
    → Keeps l name log
    → Keeps (write l name line) name (log_write l.rotate_at log line)
unfolding write log_write append_line
write-Keeps l name line log ok =
    let opened = stream-IsOpen l name log ok in
    let appended = append_line-IsOpen (stream l name) name line log opened.0 opened.1 in
    let same = stream-rotate_at l name in
    let written = append_line (stream l name) name line in
    elim (Bool-cases (leb l.rotate_at (length (log.current ++ line ∷ [])))) [
      | inl full ↦
          let turn : leb written.rotate_at (count_of name written.counts) ≡ true =
            ground (arith, same, (appended.1).1, full) in
          rw turn (
            rw full (
              rotate-Keeps written name (record log { current = log.current ++ line ∷ [] })
                appended.0 appended.1 (omega (arith, length-append log.current (line ∷ [])))))
      | inr room ↦
          let stay : leb written.rotate_at (count_of name written.counts) ≡ false =
            ground (arith, same, (appended.1).1, room) in
          rw stay (rw room (appended.0, inr appended.1))
    ]
