-- ===== src/Exporter/Tail/Resume.antt =====
-- It does not matter into which reads a growing file is cut, in readFrom of
-- bodylog-exporter-go/tail.go.
use llm_openresty.Base.{
  ℕ, ◌+◌, ◌-◌, ◌≡◌, sym, ap, ap₂, ◌∙◌, Bool, Option, some, List, ◌++◌, append_assoc, Text, length,
  drop, drop-append_length, arith, length-append,
}
use llm_openresty.Exporter.Metrics.{DetailRecord}
use llm_openresty.Exporter.Tail.Lines.{Tailer, split_lines, read_from}
use llm_openresty.Exporter.Tail.Observed.{
  join, join-append, join-split_lines, split_lines-append, fresh_rows, fresh_rows-append,
  read_from-Went, read_from-count,
}

module _ {F : Type 0} (decode : Text → Option (DetailRecord F)) (writable : Bool) where
  left_over :
      (bytes more : Text) (m n : ℕ)
      → n ≡ m + length (join (split_lines bytes).0)
      → drop (n - m) (bytes ++ more) ≡ (split_lines bytes).1 ++ more
  left_over bytes more m n h =
      let ls = (split_lines bytes).0 in
      let k : n - m ≡ length (join ls) = omega (arith, h) in
      ap₂ (λ k s. drop k (s ++ more)) k (sym (join-split_lines bytes))
      ∙ ap (drop (length (join ls))) (append_assoc (join ls) (split_lines bytes).1 more)
      ∙ drop-append_length (join ls) ((split_lines bytes).1 ++ more)

  -- Two reads, the second of what the first left over and more, and one read of it all.
  two_reads :
      (bytes more x : Text) (e1 e2 e3 : Bool) (t : Tailer F)
      → x ≡ (split_lines bytes).1 ++ more
      → let first = read_from decode writable (some (bytes, e1)) t in
        let second = read_from decode writable (some (x, e2)) first.1 in
        let whole = read_from decode writable (some (bytes ++ more, e3)) t in
        ((second.1.rows ≡ whole.1.rows) × (second.1.offset ≡ whole.1.offset))
        × (first.0.0 + second.0.0 ≡ whole.0.0)
  two_reads bytes more x e1 e2 e3 t h =
      let first = read_from decode writable (some (bytes, e1)) t in
      let ls = (split_lines bytes).0 in
      let ms = (split_lines ((split_lines bytes).1 ++ more)).0 in
      let all : (split_lines (bytes ++ more)).0 ≡ ls ++ ms =
        ap (λ (p : List Text × Text). p.0) (split_lines-append bytes more) in
      let xs : (split_lines x).0 ≡ ms = ap (λ s. (split_lines s).0) h in
      let w1 = read_from-Went decode writable bytes e1 t in
      let w2 = read_from-Went decode writable x e2 first.1 in
      let w3 = read_from-Went decode writable (bytes ++ more) e3 t in
      let marks : fresh_rows decode first.1.dedup_active first.1.seen (split_lines x).0
          ≡ fresh_rows decode t.dedup_active t.seen ms =
        ap₂ (λ a s. fresh_rows decode a s (split_lines x).0) w1.1.1 w1.1.0
        ∙ ap (fresh_rows decode t.dedup_active t.seen) xs in
      let n2 : length (join (split_lines x).0) ≡ length (join ms) = ap (λ l. length (join l)) xs in
      let n3 : length (join (split_lines (bytes ++ more)).0) ≡ length (join ls) + length (join ms) =
        ap (λ l. length (join l)) all
        ∙ ap length (join-append ls ms)
        ∙ length-append (join ls) (join ms) in
      let c2 : length (split_lines x).0 ≡ length ms = ap length xs in
      let c3 : length (split_lines (bytes ++ more)).0 ≡ length ls + length ms =
        ap length all ∙ length-append ls ms in
      (
        (
          w2.0.0
              ∙ ap₂ (λ a b. a ++ b) w1.0.0 marks
              ∙ append_assoc t.rows (fresh_rows decode t.dedup_active t.seen ls)
                  (fresh_rows decode t.dedup_active t.seen ms)
              ∙ ap (λ r. t.rows ++ r)
                  (sym (
                    ap (fresh_rows decode t.dedup_active t.seen) all
                    ∙ fresh_rows-append decode t.dedup_active t.seen ls ms))
              ∙ sym w3.0.0,
          omega (arith, w1.0.1, w2.0.1, w3.0.1, n2, n3),
        ),
        omega (
          arith,
          read_from-count decode writable bytes e1 t,
          read_from-count decode writable x e2 first.1,
          read_from-count decode writable (bytes ++ more) e3 t,
          c2,
          c3,
        ),
      )

  -- A file is read from an offset, grows by `more`, and is read again from the offset that the
  -- first read left, wherever the first read ended, in the middle of a line too. The rows observed,
  -- the offset and the number of lines are those of a single read of all the bytes.
  pub read_from-resume :
      (bytes more : Text) (at_eof at_eof' : Bool) (t : Tailer F)
      → let first = read_from decode writable (some (bytes, at_eof)) t in
        let second =
          read_from decode writable
            (some (drop (first.1.offset - t.offset) (bytes ++ more), at_eof'))
            first.1 in
        let whole = read_from decode writable (some (bytes ++ more, at_eof')) t in
        ((second.1.rows ≡ whole.1.rows) × (second.1.offset ≡ whole.1.offset))
        × (first.0.0 + second.0.0 ≡ whole.0.0)
  read_from-resume bytes more at_eof at_eof' t =
      let first = read_from decode writable (some (bytes, at_eof)) t in
      two_reads bytes more (drop (first.1.offset - t.offset) (bytes ++ more)) at_eof at_eof' at_eof'
        t
        (left_over bytes more t.offset first.1.offset
          (read_from-Went decode writable bytes at_eof t).0.1)
