-- ===== src/Exporter/Tail/Roll.antt =====
-- When tailLoop of bodylog-exporter-go/tail.go leaves a file, and where a restart goes on.
use llm_openresty.Base.{
  ℕ, zero, suc, ◌+◌, ◌<◌, ◌≡◌, ◌≢◌, refl, ap, ◌∙◌, Bool, true, false, not, Option, none, some, List,
  [], ◌∷◌, Text, text_eq, text_eq_iff, if◌then◌else◌, arith, inl, inr, ◌⊎◌, length,
}
use llm_openresty.Exporter.Metrics.{DetailRecord}
use llm_openresty.Exporter.Tail.Lines.{
  Tailer, Checkpoint, split_lines, read_from, read_lines, finish_read, every_2000, handle_line,
  handle_row, observe_row, is_seen, persist, checkpoint_of, drop_dedup, tick,
}
use llm_openresty.Exporter.Tail.Follow.{Round, tail_round, switch_to, after_past, after_today}
use llm_openresty.Exporter.Tail.Run.{
  Start, start_run, load_checkpoint, file_exists, from_checkpoint, go_on,
}

start_run-at :
    {F : Type 0} (st : Start F) (cp : Checkpoint) (t : Tailer F)
    → text_eq cp.path [] ≡ false
    → st.exists cp.path ≡ true
    → ((start_run st (some cp) t).cur_path ≡ cp.path)
      × ((start_run st (some cp) t).offset ≡ cp.offset)
unfolding start_run
start_run-at st cp t h x =
    let e : load_checkpoint (some cp) ≡ some cp = unfold load_checkpoint in rw h refl in
    let f : file_exists st cp.path ≡ true = rw (h, x) refl in
    (
      ap (λ o. (from_checkpoint st o t).cur_path) e
          ∙ ap (λ b. (go_on st cp b st.has_url (record t { cp = cp })).cur_path) f,
      ap (λ o. (from_checkpoint st o t).offset) e
          ∙ ap (λ b. (go_on st cp b st.has_url (record t { cp = cp })).offset) f,
    )

module _ {F : Type 0} (decode : Text → Option (DetailRecord F)) where
  module _ (writable : Bool) where
    handle_row-path :
        (o : Option (DetailRecord F)) (t : Tailer F)
        → (handle_row decode writable o t).cur_path ≡ t.cur_path
    handle_row-path none t = refl
    handle_row-path (some d) t = go (is_seen t d)
      where
        go : (b : Bool) → (if b then t else observe_row d t).cur_path ≡ t.cur_path
        go true = refl
        go false = refl

    every_2000-path :
        (n : ℕ) (t : Tailer F) → (every_2000 decode writable n t).cur_path ≡ t.cur_path
    unfolding persist
    every_2000-path zero t = refl
    every_2000-path (suc n) t = refl

    read_lines-path :
        (ls : List Text) (n : ℕ) (t : Tailer F)
        → (read_lines decode writable ls n t).cur_path ≡ t.cur_path
    unfolding read_lines handle_line
    read_lines-path [] n t = refl
    read_lines-path (l ∷ ls) n t =
        let t1 = handle_row decode writable (decode l) t in
        let t2 = record t1 { offset = t1.offset + length l } in
        read_lines-path ls (tick decode writable n) (every_2000 decode writable n t2)
        ∙ every_2000-path n t2
        ∙ handle_row-path (decode l) t

    finish_read-path :
        (n : ℕ) (t : Tailer F) → (finish_read decode writable n t).cur_path ≡ t.cur_path
    unfolding persist
    finish_read-path zero t = refl
    finish_read-path (suc n) t = refl

    read_from-path :
        (o : Option (Text × Bool)) (t : Tailer F)
        → (read_from decode writable o t).1.cur_path ≡ t.cur_path
    unfolding read_from
    read_from-path none t = refl
    read_from-path (some (bytes, e)) t =
        let ls = (split_lines bytes).0 in
        finish_read-path (length ls) (read_lines decode writable ls 1999 t)
        ∙ read_lines-path ls 1999 t

    -- A read that found at least one whole line on a disk that takes the checkpoint leaves a
    -- checkpoint of the path and the offset that it has reached.
    finish_read-saved :
        (n : ℕ) (t : Tailer F)
        → writable ≡ true
        → 0 < n
        → (finish_read decode writable n t).saved
          ≡ some (record {
            path = (finish_read decode writable n t).cur_path;
            offset = (finish_read decode writable n t).offset;
            last_ts = (finish_read decode writable n t).cp.last_ts;
          })
    unfolding persist
    finish_read-saved zero t h k = absurd (omega arith)
    finish_read-saved (suc n) t h k = rw h refl

  -- The tailer has read a whole line and written its checkpoint, and is started again while the file
  -- is still there. The new run begins on the same file at the offset that the read reached,
  -- whatever else it meets.
  pub restart-continues :
      (bytes : Text) (at_eof : Bool) (t : Tailer F) (st : Start F) (t0 : Tailer F)
      → 0 < length (split_lines bytes).0
      → t.cur_path ≢ []
      → st.exists t.cur_path ≡ true
      → let u = (read_from decode true (some (bytes, at_eof)) t).1 in
        let v = start_run st u.saved t0 in (v.cur_path ≡ u.cur_path) × (v.offset ≡ u.offset)
  unfolding read_from
  restart-continues bytes at_eof t st t0 n p e =
      let ls = (split_lines bytes).0 in
      let u = finish_read decode true (length ls) (read_lines decode true ls 1999 t) in
      let path : u.cur_path ≡ t.cur_path = read_from-path true (some (bytes, at_eof)) t in
      go u (finish_read-saved true (length ls) (read_lines decode true ls 1999 t) refl n)
        (ground (arith, path, text_eq_iff u.cur_path [])) (ap st.exists path ∙ e)
    where
      go :
          (u : Tailer F)
          → u.saved ≡ some (record { path = u.cur_path; offset = u.offset; last_ts = u.cp.last_ts })
          → text_eq u.cur_path [] ≡ false
          → st.exists u.cur_path ≡ true
          → ((start_run st u.saved t0).cur_path ≡ u.cur_path)
            × ((start_run st u.saved t0).offset ≡ u.offset)
      go u h k x = rw h (start_run-at st (checkpoint_of u) t0 k x)

  switch_to-at :
      (today : Text) (writable : Bool) (t : Tailer F)
      → ((switch_to decode today writable t).cur_path ≡ today)
        × ((switch_to decode today writable t).offset ≡ 0)
  unfolding persist drop_dedup
  switch_to-at today writable t = go t.dedup_active
    where
      go :
          (b : Bool)
          → ((if b
                then record t { cur_path = today; offset = 0; dedup_active = false; seen = [] }
                else record t { cur_path = today; offset = 0 }).cur_path
              ≡ today)
            × ((if b
                  then record t { cur_path = today; offset = 0; dedup_active = false; seen = [] }
                  else record t { cur_path = today; offset = 0 }).offset
                ≡ 0)
      go true = (refl, refl)
      go false = (refl, refl)

  after_today-path :
      (read : (ℕ × Bool) × Tailer F) → (after_today decode read).cur_path ≡ read.1.cur_path
  unfolding drop_dedup
  after_today-path ((zero, true), u) = go u.dedup_active
    where
      go :
          (b : Bool)
          → (if b then record u { dedup_active = false; seen = [] } else u).cur_path ≡ u.cur_path
      go true = refl
      go false = refl
  after_today-path ((zero, false), u) = refl
  after_today-path ((suc n, e), u) = refl

  after_past-roll :
      (today : Text) (writable : Bool) (n : ℕ) (e : Bool) (u : Tailer F) (path : Text)
      → u.cur_path ≡ path
      → (after_past decode today writable ((n, e), u)).cur_path ≢ path
      → (((after_past decode today writable ((n, e), u)).cur_path ≡ today)
          × ((after_past decode today writable ((n, e), u)).offset ≡ 0))
        × ((n ≡ 0) × (e ≡ true))
  after_past-roll today writable zero true u path h k =
      (switch_to-at today writable u, (refl, refl))
  after_past-roll today writable zero false u path h k = absurd (k h)
  after_past-roll today writable (suc n) e u path h k = absurd (k h)

  -- A round that leaves the file being tailed goes to the start of today's file, whichever day the
  -- file was of; and it does so only if the file is gone, or if the read of it found no further
  -- whole line and came to a clean end of the file.
  pub tail_round-roll :
      (r : Round) (t : Tailer F)
      → (tail_round decode r t).cur_path ≢ t.cur_path
      → (((tail_round decode r t).cur_path ≡ r.today) × ((tail_round decode r t).offset ≡ 0))
        × ((r.present ≡ false)
            ⊎ (((read_from decode r.writable (r.opened t.offset) t).0.0 ≡ 0)
                × ((read_from decode r.writable (r.opened t.offset) t).0.1 ≡ true)))
  unfolding tail_round
  tail_round-roll r t =
      go (not (text_eq t.cur_path r.today)) r.present refl
        (read_from decode r.writable (r.opened t.offset) t)
        (read_from-path r.writable (r.opened t.offset) t)
    where
      go :
          (b c : Bool)
          → r.present ≡ c
          → (read : (ℕ × Bool) × Tailer F) → read.1.cur_path ≡ t.cur_path
          → (if b
              then if not c
                then switch_to decode r.today r.writable t
                else after_past decode r.today r.writable read
              else after_today decode read).cur_path
            ≢ t.cur_path
          → (((if b
                  then if not c
                    then switch_to decode r.today r.writable t
                    else after_past decode r.today r.writable read
                  else after_today decode read).cur_path
                ≡ r.today)
              × ((if b
                    then if not c
                      then switch_to decode r.today r.writable t
                      else after_past decode r.today r.writable read
                    else after_today decode read).offset
                  ≡ 0))
            × ((r.present ≡ false) ⊎ ((read.0.0 ≡ 0) × (read.0.1 ≡ true)))
      go true false h read e k = (switch_to-at r.today r.writable t, inl h)
      go true true h read e k =
          let m = after_past-roll r.today r.writable read.0.0 read.0.1 read.1 t.cur_path e k in
          (m.0, inr m.1)
      go false c h read e k = absurd (k (after_today-path read ∙ e))
