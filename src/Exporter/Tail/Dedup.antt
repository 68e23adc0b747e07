-- ===== src/Exporter/Tail/Dedup.antt =====
-- recoverViaHTTP of bodylog-exporter-go/recovery.go and the reads behind it observe no row twice.
use llm_openresty.Base.{
  ◌≡◌, refl, sym, ap, subst, Bool, true, false, ◌||◌, not, Option, none, some, List, [], ◌∷◌, ◌++◌,
  Text, text_eq, text_eq_iff, any, keep, All, All-append, arith, inl, inr, Bool-cases,
}
use llm_openresty.Exporter.Metrics.{DetailRecord}
use llm_openresty.Exporter.Tail.Lines.{
  Tailer, Checkpoint, observe_row, seen_in, split_lines, read_from,
}
use llm_openresty.Exporter.Tail.Run.{
  Query, Page, Start, query_of, note_seen, recover_rows, recover_pages, last_page, recover,
  recovery_start,
}
use llm_openresty.Exporter.Tail.Observed.{fresh_rows, decoded, read_from-Went}

abbrev pub is_in : List Text → Text → Bool
is_in seen k = any (λ s. text_eq s k) seen

module _ {F : Type 0} where
  -- Every row of a list has an empty id, or one of those seen.
  abbrev Covered : List Text → DetailRecord F → Type 0
  Covered seen d = (text_eq d.request_id [] || is_in seen d.request_id) ≡ true

  AllCovered-more :
      (seen : List Text) (k : Text) (l : List (DetailRecord F))
      → All (Covered seen) l
      → All (Covered (k ∷ seen)) l
  AllCovered-more seen k [] h = tt
  AllCovered-more seen k (d ∷ l) (h, hs) = (ground arith, AllCovered-more seen k l hs)

  -- The rows observed so far are covered by the ids seen.
  abbrev Good : List Text × Tailer F → Type 0
  Good (seen, t) = All (Covered seen) t.rows

  note_seen-Covered :
      (d : DetailRecord F) (seen : List Text) (l : List (DetailRecord F))
      → All (Covered seen) l
      → All (Covered (note_seen d seen)) (l ++ d ∷ [])
  note_seen-Covered d seen l h = elim (Bool-cases (text_eq d.request_id [])) [
    | inl e ↦ rw e (All-append (Covered seen) l (d ∷ []) h (ground arith, tt))
    | inr e ↦ rw e (
        All-append (Covered (d.request_id ∷ seen)) l (d ∷ [])
          (AllCovered-more seen d.request_id l h)
          (ground (arith, text_eq_iff d.request_id d.request_id), tt))
  ]

  recover_rows-Good :
      (l : List (DetailRecord F)) (seen : List Text) (t : Tailer F)
      → Good (seen, t)
      → Good (recover_rows l (seen, t))
  unfolding recover_rows
  recover_rows-Good [] seen t h = h
  recover_rows-Good (d ∷ l) seen t h =
      recover_rows-Good l (note_seen d seen) (observe_row d t) (note_seen-Covered d seen t.rows h)

  page-Good :
      (answers : List (Query → Option (Page F))) (start cursor : Text) (o : Option (Page F))
      (acc : List Text × Tailer F)
      → ((c : Text) (a : List Text × Tailer F) → Good a → Good (recover_pages answers start c a))
      → Good acc
      → Good (elim o [
        | none ↦ acc
        | some mr ↦ elim (last_page mr cursor) [
          | true ↦ recover_rows mr.page_rows acc
          | false ↦ recover_pages answers start mr.next_cursor (recover_rows mr.page_rows acc)
        ]
      ])
  page-Good answers start cursor none acc ih h = h
  page-Good answers start cursor (some mr) (seen, t) ih h = go (last_page mr cursor)
    where
      go :
          (b : Bool)
          → Good (elim b [
            | true ↦ recover_rows mr.page_rows (seen, t)
            | false ↦
                recover_pages answers start mr.next_cursor (recover_rows mr.page_rows (seen, t))
          ])
      go true = recover_rows-Good mr.page_rows seen t h
      go false =
          ih mr.next_cursor (recover_rows mr.page_rows (seen, t))
            (recover_rows-Good mr.page_rows seen t h)

  recover_pages-Good :
      (answers : List (Query → Option (Page F))) (start cursor : Text) (acc : List Text × Tailer F)
      → Good acc
      → Good (recover_pages answers start cursor acc)
  unfolding recover_pages
  recover_pages-Good [] start cursor acc h = h
  recover_pages-Good (answer ∷ answers) start cursor acc h =
      page-Good answers start cursor (answer (query_of start cursor)) acc
        (recover_pages-Good answers start) h

  -- No row of the second list has the id of a row of the first, unless the id is empty.
  abbrev pub Apart : List (DetailRecord F) → DetailRecord F → Type 0
  Apart rows d =
      All (λ r. (text_eq r.request_id [] || not (text_eq r.request_id d.request_id)) ≡ true) rows

  Apart-unseen :
      (seen : List Text) (rows : List (DetailRecord F)) (d : DetailRecord F)
      → All (Covered seen) rows
      → seen_in true seen d ≡ false
      → Apart rows d
  Apart-unseen seen [] d h k = tt
  Apart-unseen seen (r ∷ rows) d (h, hs) k = (
    ground (arith, text_eq_iff r.request_id d.request_id, ap (is_in seen)),
    Apart-unseen seen rows d hs k,
  )

  keep-Apart :
      (seen : List Text) (rows l : List (DetailRecord F))
      → All (Covered seen) rows
      → All (Apart rows) (keep (λ d. not (seen_in true seen d)) l)
  unfolding keep
  keep-Apart seen rows [] h = tt
  keep-Apart seen rows (d ∷ l) h = go (seen_in true seen d) refl (keep-Apart seen rows l h)
    where
      go :
          (b : Bool)
          → seen_in true seen d ≡ b
          → All (Apart rows) (keep (λ d. not (seen_in true seen d)) l)
          → All (Apart rows) (elim (not b) [
            | true ↦ d ∷ keep (λ d. not (seen_in true seen d)) l
            | false ↦ keep (λ d. not (seen_in true seen d)) l
          ])
      go true e r = r
      go false e r = (Apart-unseen seen rows d h e, r)

  -- A recovery that starts without rows is followed by a read of today's file. The rows that the
  -- read adds are told apart by their ids from every row that the recovery observed; only rows
  -- without an id can come twice. This holds wherever the recovery breaks off.
  pub recover-Apart :
      (decode : Text → Option (DetailRecord F)) (writable : Bool) (st : Start F) (cp : Checkpoint)
      (t : Tailer F) (bytes : Text) (at_eof : Bool)
      → t.rows ≡ []
      → let u = recover st cp t in
        let v = (read_from decode writable (some (bytes, at_eof)) u).1 in
        (new : List (DetailRecord F)) × ((v.rows ≡ u.rows ++ new) × All (Apart u.rows) new)
  recover-Apart decode writable st cp t bytes at_eof h =
      let u = recover st cp t in
      let good =
        recover_pages-Good st.answers (recovery_start st.day_before st.fallback cp) [] ([], t)
          (subst (All (Covered [])) (sym h) tt) in
      (
        fresh_rows decode true u.seen (split_lines bytes).0,
        (
          (read_from-Went decode writable bytes at_eof u).0.0,
          keep-Apart u.seen u.rows (decoded decode (split_lines bytes).0) good,
        ),
      )
