-- ===== src/LoadTest/Logger/Laws.antt =====
-- What the files of a log hold after any writes.
use gemba_blockchain.Base.{
  ==_false-ne, ==_iff, Bool-cases, List, Text, [], inl, inr, subst, sym, text_eq, ℕ, ◌==◌, ◌∙◌, ◌∷◌,
  ◌≡◌,
}
use gemba_blockchain.LoadTest.Logger.{RunLogger, write}
use gemba_blockchain.LoadTest.Logger.Keeping.{
  Log, log_write, writes, log_writes, Keeps, write-Keeps,
}
use gemba_blockchain.LoadTest.Logger.Apart.{write-rotate_at, write-Apart, Keeps-Apart}

write-Keeps_named :
    (k : ℕ) (l : RunLogger) (name j line : Text) (log : Log)
    → l.rotate_at ≡ k
    → name ≡ j
    → Keeps l name log
    → Keeps (write l j line) name (log_write k log line)
write-Keeps_named k l name j line log every own ok =
    let kept : Keeps (write l name line) name (log_write k log line) =
      subst (λ n. Keeps (write l name line) name (log_write n log line)) every
        (write-Keeps l name line log ok) in
    subst (λ n. Keeps (write l n line) name (log_write k log line)) own kept

-- Whatever is written, to this log and to others, the files of a log hold the lines since its last
-- rotation and those of the rotation before, and no uncompressed copy and no further archive is
-- there, if that was so at the start, the logger rotates after the given number of lines, and what
-- a rotation starts is through before the next write.
pub writes-Keeps :
    (ws : List (Text × Text)) (k : ℕ) (l : RunLogger) (name : Text) (log : Log)
    → l.rotate_at ≡ k
    → Keeps l name log
    → Keeps (writes l ws) name (log_writes k name log ws)
unfolding writes log_writes
writes-Keeps [] k l name log every ok = ok
writes-Keeps ((j, line) ∷ ws) k l name log every ok =
    let still = write-rotate_at l j line ∙ every in
    elim (Bool-cases (j == name)) [
      | inl same ↦
          let own : name ≡ j = sym ((==_iff j name).0 same) in
          rw (same, log_writes)
            (writes-Keeps ws k (write l j line) name (log_write k log line) still
              (write-Keeps_named k l name j line log every own ok))
      | inr other ↦
          let kept =
            Keeps-Apart l (write l j line) name log
              (write-Apart l j name line (==_false-ne j name other)) ok in
          rw (other, log_writes) (writes-Keeps ws k (write l j line) name log still kept)
    ]
