-- ===== src/Exporter/Tail/Lines.antt =====
-- readFrom, handleLine, dropDedup and persist of bodylog-exporter-go/tail.go.
use llm_openresty.Base.{
  ℕ, zero, suc, ◌+◌, Bool, true, false, ◌&&◌, not, Option, none, some, List, [], ◌∷◌, ◌++◌, Text,
  text_eq, if◌then◌else◌, any, nat_eq, length,
}
use llm_openresty.Exporter.Metrics.{DetailRecord}

pub record Checkpoint : Type 0 where
  pub path : Text
  pub offset : ℕ
  pub last_ts : Text

-- tailer. `saved` is the checkpoint file, `rows` the rows given to observe, in order, and the two
-- gauges are those of the exporter itself.
pub record Tailer (F : Type 0) : Type 0 where
  pub cp : Checkpoint
  pub cur_path : Text
  pub offset : ℕ
  pub seen : List Text
  pub dedup_active : Bool
  pub saved : Option Checkpoint
  pub rows : List (DetailRecord F)
  pub offset_gauge : ℕ
  pub recoveries : ℕ

-- A byte put before what follows it; `true` for '\n'.
abbrev pub add_byte : Bool → ℕ → List Text × Text → List Text × Text
add_byte true c (ls, rest) = ((c ∷ []) ∷ ls, rest)
add_byte false c ([], rest) = ([], c ∷ rest)
add_byte false c (l ∷ ls, rest) = ((c ∷ l) ∷ ls, rest)

-- What ReadBytes('\n') returns from the data, call by call: the whole lines with their '\n', and
-- what stands behind the last one, which comes with io.EOF.
unfoldable pub split_lines : Text → List Text × Text
split_lines [] = ([], [])
split_lines (c ∷ s) = add_byte (nat_eq c b'\n') c (split_lines s)

abbrev pub first_non_empty : Text → Text → Text
first_non_empty a b = if not (text_eq a []) then a else b

module _ {F : Type 0} where
  -- t.m.observe(d) and the time stamp of the checkpoint.
  abbrev pub observe_row : DetailRecord F → Tailer F → Tailer F
  observe_row d t =
      let ts = first_non_empty d.ts_end d.ts in
      record t {
        rows = t.rows ++ d ∷ [];
        cp = if not (text_eq ts []) then record (t.cp) { last_ts = ts } else t.cp;
      }

  -- Whether an id has been observed by the recovery.
  abbrev pub seen_in : Bool → List Text → DetailRecord F → Bool
  seen_in active seen d =
      active && not (text_eq d.request_id []) && any (λ s. text_eq s d.request_id) seen

  abbrev pub is_seen : Tailer F → DetailRecord F → Bool
  is_seen t d = seen_in t.dedup_active t.seen d

  -- dropDedup
  unfoldable pub drop_dedup : Tailer F → Tailer F
  drop_dedup t = if t.dedup_active then record t { dedup_active = false; seen = [] } else t

  -- t.cp.Path, t.cp.Offset = t.curPath, t.offset
  abbrev pub checkpoint_of : Tailer F → Checkpoint
  checkpoint_of t = record { path = t.cur_path; offset = t.offset; last_ts = t.cp.last_ts }

  -- persist and saveCheckpoint; `writable` is false if the file cannot be written or renamed.
  unfoldable pub persist : Bool → Tailer F → Tailer F
  persist writable t =
      let cp = checkpoint_of t in
      record t { cp = cp; saved = if writable then some cp else t.saved }

-- What the file system gives readFrom: nothing if open or seek fails, else the bytes from the
-- offset on and whether they end with io.EOF rather than with another error.
abbrev pub Opened : Type 0
Opened = Option (Text × Bool)

module _ {F : Type 0} (decode : Text → Option (DetailRecord F)) (writable : Bool) where
  -- handleLine: a line that does not decode is skipped.
  abbrev pub handle_row : Option (DetailRecord F) → Tailer F → Tailer F
  handle_row none t = t
  handle_row (some d) t = if is_seen t d then t else observe_row d t

  unfoldable pub handle_line : Text → Tailer F → Tailer F
  handle_line line t = handle_row (decode line) t

  -- count%2000 == 0, for the lines counted down from 2000.
  abbrev pub tick : ℕ → ℕ
  tick zero = 1999
  tick (suc n) = n

  abbrev pub every_2000 : ℕ → Tailer F → Tailer F
  every_2000 zero t = persist writable t
  every_2000 (suc n) t = t

  -- The loop of readFrom: `left` lines remain, less one, until the next checkpoint.
  unfoldable pub read_lines : List Text → ℕ → Tailer F → Tailer F
  read_lines [] left t = t
  read_lines (line ∷ ls) left t =
      let t1 = handle_line line t in
      let t2 = record t1 { offset = t1.offset + length line } in
      read_lines ls (tick left) (every_2000 left t2)

  -- if count > 0 { persist; offset.Set }
  abbrev pub finish_read : ℕ → Tailer F → Tailer F
  finish_read zero t = t
  finish_read (suc n) t = let t1 = persist writable t in record t1 { offset_gauge = t1.offset }

  -- readFrom: the number of lines, atEOF, and the tailer.
  unfoldable pub read_from : Opened → Tailer F → (ℕ × Bool) × Tailer F
  unfolding split_lines read_lines
  read_from none t = ((0, false), t)
  read_from (some (bytes, at_eof)) t =
      let lines = (split_lines bytes).0 in
      ((length lines, at_eof), finish_read (length lines) (read_lines lines 1999 t))
