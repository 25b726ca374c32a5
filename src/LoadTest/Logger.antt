-- ===== src/LoadTest/Logger.antt =====
-- endurance/lib/txLogger.js: the logs of a run with their rotation. The directory is a map from
-- names to lines; a compressed file holds the lines of the file it is made from, and its stream is
-- taken to be through before the next rotation.
pub mod Keeping
pub mod Apart
pub mod Laws
use gemba_blockchain.Base.{
  Bool, List, Map, Option, Text, [], eqb, erase, false, if◌then◌else◌, insert, leb, lookup, none,
  some, text_beq, text_eq, true, ℕ, ◌&&◌, ◌++◌, ◌+◌, ◌∷◌,
}

-- `${name}.jsonl`, `${name}.${seq}.jsonl` and `${name}.${seq}.jsonl.gz`.
pub data FileName : Type 0 where
  jsonl : Text → FileName
  rolled : Text → ℕ → FileName
  gz : Text → ℕ → FileName

abbrev pub file_beq : FileName → FileName → Bool
file_beq (jsonl n) (jsonl m) = text_beq n m
file_beq (rolled n i) (rolled m j) = text_beq n m && eqb i j
file_beq (gz n i) (gz m j) = text_beq n m && eqb i j
file_beq a b = false

pub record Dir : Type 0 where
  pub files : FileName → Option (List Text)

-- The lines of a file, none where there is no file.
abbrev pub lines : Dir → FileName → List Text
lines d f = elim (d.files f) [ none ↦ [] | some ls ↦ ls ]

-- The directory with a file changed.
abbrev pub put : Dir → FileName → Option (List Text) → Dir
put d f content = record { files = λ g. if file_beq f g then content else d.files g }

pub record RunLogger : Type 0 where
  pub dir : Dir
  pub rotate_at : ℕ
  pub streams : Map Text Bool
  pub counts : Map Text ℕ
  pub seq : Map Text ℕ

-- The constructor, over the directory as it stands.
unfoldable pub new_logger : Dir → ℕ → RunLogger
new_logger dir rotate_lines = record {
  dir = dir;
  rotate_at = rotate_lines;
  streams = [];
  counts = [];
  seq = [];
}

-- `_stream`: a stream that is not open is opened to append, and its counters start over.
unfoldable pub stream : RunLogger → Text → RunLogger
stream l name = elim (lookup name l.streams) [
  | some s ↦ l
  | none ↦ record l {
    dir = put l.dir (jsonl name) (some (lines l.dir (jsonl name)));
    streams = insert name true l.streams;
    counts = insert name 0 l.counts;
    seq = insert name 0 l.seq;
  }
]

abbrev pub count_of : Text → Map Text ℕ → ℕ
count_of name m = elim (lookup name m) [ none ↦ 0 | some n ↦ n ]

-- `_rotate`, with the stream flushed and the compression ended: what the source leaves to run beside later writes
-- is one move here.
unfoldable pub rotate : RunLogger → Text → RunLogger
rotate l name =
    let i = count_of name l.seq in
    let moved : Dir = elim (l.dir.files (jsonl name)) [
      | none ↦ l.dir
      | some ls ↦ put (put (put l.dir (jsonl name) none) (rolled name i) none) (gz name i) (some ls)
    ] in
    record l {
      dir = moved;
      seq = insert name (i + 1) l.seq;
      streams = erase name l.streams;
      counts = insert name 0 l.counts;
    }

-- `s.write(...)` and `++this.counts[name]`.
unfoldable pub append_line : RunLogger → Text → Text → RunLogger
append_line l name line = record l {
  dir = put l.dir (jsonl name) (some (lines l.dir (jsonl name) ++ line ∷ []));
  counts = insert name (count_of name l.counts + 1) l.counts;
}

-- `write`, with the line that `JSON.stringify` makes.
unfoldable pub write : RunLogger → Text → Text → RunLogger
write l name line =
    let written = append_line (stream l name) name line in
    let turned = rotate written name in
    if leb written.rotate_at (count_of name written.counts) then turned else written
