-- ===== src/Exporter/Tail/Follow.antt =====
-- tailLoop of bodylog-exporter-go/tail.go, one round after another.
use llm_openresty.Base.{
  ℕ, zero, suc, Bool, true, false, not, Option, List, [], ◌∷◌, Text, text_eq, if◌then◌else◌,
}
use llm_openresty.Exporter.Metrics.{DetailRecord}
use llm_openresty.Exporter.Tail.Lines.{Tailer, Opened, read_from, drop_dedup, persist}

-- What one round meets: today's file, whether the file that is tailed exists, what a read of it
-- gives from the offset on, and whether the checkpoint can be written.
pub record Round : Type 0 where
  pub today : Text
  pub present : Bool
  pub opened : ℕ → Opened
  pub writable : Bool

module _ {F : Type 0} (decode : Text → Option (DetailRecord F)) where
  -- t.curPath, t.offset = today, 0; dropDedup; persist
  abbrev pub switch_to : Text → Bool → Tailer F → Tailer F
  switch_to today writable t =
      persist writable (drop_dedup (record t { cur_path = today; offset = 0 }))

  -- The round of a file of a past day, behind readFrom.
  abbrev pub after_past : Text → Bool → (ℕ × Bool) × Tailer F → Tailer F
  after_past today writable ((zero, true), t) = switch_to today writable t
  after_past today writable ((zero, false), t) = t
  after_past today writable ((suc n, at_eof), t) = t

  -- The round of today's file, behind readFrom.
  abbrev pub after_today : (ℕ × Bool) × Tailer F → Tailer F
  after_today ((zero, true), t) = drop_dedup t
  after_today ((zero, false), t) = t
  after_today ((suc n, at_eof), t) = t

  unfoldable pub tail_round : Round → Tailer F → Tailer F
  tail_round r t =
      let read = read_from decode r.writable (r.opened t.offset) t in
      if not (text_eq t.cur_path r.today)
      then if not r.present
        then switch_to r.today r.writable t
        else after_past r.today r.writable read
      else after_today read

  -- The rounds until the context ends, which persists once more.
  unfoldable pub tail_loop : List Round → Bool → Tailer F → Tailer F
  unfolding tail_round
  tail_loop [] writable t = persist writable t
  tail_loop (r ∷ rs) writable t = tail_loop rs writable (tail_round r t)
