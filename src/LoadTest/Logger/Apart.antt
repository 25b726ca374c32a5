-- ===== src/LoadTest/Logger/Apart.antt =====
-- A write to one log leaves the files of another alone.
use gemba_blockchain.Base.{
  ==_ne, Bool-cases, Option-cases, Text, arith, inl, inr, leb, lookup, lookup-erase, lookup-insert,
  refl, text_beq_iff, text_eq, true, ℕ, ◌+◌, ◌∙◌, ◌≡◌, ◌≢◌,
}
use gemba_blockchain.LoadTest.Logger.{
  jsonl, rolled, gz, RunLogger, append_line, stream, count_of, rotate, write,
}
use gemba_blockchain.LoadTest.Logger.Keeping.{Log, Keeps, stream-rotate_at}

-- A write to another log.
pub write-rotate_at :
    (l : RunLogger) (name line : Text) → (write l name line).rotate_at ≡ l.rotate_at
unfolding write rotate append_line
write-rotate_at l name line = ground (arith, stream-rotate_at l name)

abbrev pub Apart : RunLogger → RunLogger → Text → Type 0
Apart l m name =
    (m.dir.files (jsonl name) ≡ l.dir.files (jsonl name))
    × ((i : ℕ) → m.dir.files (gz name i) ≡ l.dir.files (gz name i))
    × (lookup name m.streams ≡ lookup name l.streams)
    × (lookup name m.counts ≡ lookup name l.counts)
    × (lookup name m.seq ≡ lookup name l.seq)
    × ((i : ℕ) → m.dir.files (rolled name i) ≡ l.dir.files (rolled name i))

stream-Apart : (l : RunLogger) (other name : Text) → other ≢ name → Apart l (stream l other) name
unfolding stream
stream-Apart l other name ne = elim (Option-cases (lookup other l.streams)) [
  | inl closed ↦
      let apart = text_beq_iff other name in
      rw (closed, stream)
        (
          ground (arith, apart, ne),
          λ i. refl,
          ground (arith, lookup-insert other name true l.streams, ==_ne other name ne),
          ground (arith, lookup-insert other name 0 l.counts, ==_ne other name ne),
          ground (arith, lookup-insert other name 0 l.seq, ==_ne other name ne),
          λ i. refl,
        )
  | inr (s, is_open) ↦ rw (is_open, stream) (refl, λ i. refl, refl, refl, refl, λ i. refl)
]

append_line-Apart :
    (l : RunLogger) (other name line : Text)
    → other ≢ name
    → Apart l (append_line l other line) name
unfolding append_line
append_line-Apart l other name line ne =
    let apart = text_beq_iff other name in
    (
      ground (arith, apart, ne),
      λ i. refl,
      refl,
      ground (
        arith,
        lookup-insert other name (count_of other l.counts + 1) l.counts,
        ==_ne other name ne,
      ),
      refl,
      λ i. refl,
    )

rotate-Apart : (l : RunLogger) (other name : Text) → other ≢ name → Apart l (rotate l other) name
unfolding rotate
rotate-Apart l other name ne =
    let apart = text_beq_iff other name in
    let differ = ==_ne other name ne in
    let n = count_of other l.seq + 1 in
    (
      ground (arith, apart, ne, Option-cases (l.dir.files (jsonl other))),
      λ i. ground (arith, apart, ne, Option-cases (l.dir.files (jsonl other))),
      ground (arith, lookup-erase other name l.streams, differ),
      ground (arith, lookup-insert other name 0 l.counts, differ),
      ground (arith, lookup-insert other name n l.seq, differ),
      λ i. ground (arith, apart, ne, Option-cases (l.dir.files (jsonl other))),
    )

pub Keeps-Apart :
    (l m : RunLogger) (name : Text) (log : Log)
    → Apart l m name
    → Keeps l name log
    → Keeps m name log
Keeps-Apart l m name log apart (holds, inl closed) = (
  (
    ground (arith, apart, holds),
    ground (arith, apart, apart.1 0, holds),
    λ i. ground (arith, apart.1 (i + 1), holds.2 i),
    λ i. ground (arith, apart.5 i, holds.3 i),
  ),
  inl (ground (arith, apart, closed), closed.1),
)
Keeps-Apart l m name log apart (holds, inr opened) = (
  (
    ground (arith, apart, holds),
    ground (arith, apart, apart.1 0, holds),
    λ i. ground (arith, apart.1 (i + 1), holds.2 i),
    λ i. ground (arith, apart.5 i, holds.3 i),
  ),
  inr (ground (arith, apart, opened), ground (arith, apart, opened), ground (arith, apart, opened)),
)

Apart-trans : (k l m : RunLogger) (name : Text) → Apart k l name → Apart l m name → Apart k m name
Apart-trans k l m name a b =
    (b.0 ∙ a.0, λ i. b.1 i ∙ a.1 i, b.2 ∙ a.2, b.3 ∙ a.3, b.4 ∙ a.4, λ i. b.5 i ∙ a.5 i)

pub write-Apart :
    (l : RunLogger) (other name line : Text) → other ≢ name → Apart l (write l other line) name
unfolding write
write-Apart l other name line ne =
    let opened = stream l other in
    let written = append_line opened other line in
    let appended =
      Apart-trans l opened written name (stream-Apart l other name ne)
        (append_line-Apart opened other name line ne) in
    elim (Bool-cases (leb written.rotate_at (count_of other written.counts))) [
      | inl turn ↦ rw turn (
          Apart-trans l written (rotate written other) name appended
            (rotate-Apart written other name ne))
      | inr stay ↦ rw stay appended
    ]
