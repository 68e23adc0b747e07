-- ===== src/Exporter/Tail/Run.antt =====
-- The start of run in bodylog-exporter-go/tail.go, with loadCheckpoint of checkpoint.go and
-- recoverViaHTTP of recovery.go.
use llm_openresty.Base.{
  ℕ, ◌+◌, Bool, true, false, ◌&&◌, ◌||◌, not, Option, none, some, List, [], ◌∷◌, Text, text_eq,
  if◌then◌else◌,
}
use llm_openresty.Exporter.Metrics.{DetailRecord}
use llm_openresty.Exporter.Tail.Lines.{Tailer, Checkpoint, observe_row}

-- loadCheckpoint: the file's content as it decodes, or none if it cannot be read or decoded.
unfoldable pub load_checkpoint : Option Checkpoint → Option Checkpoint
load_checkpoint none = none
load_checkpoint (some c) = if not (text_eq c.path []) then some c else none

-- metricsResp
pub record Page (F : Type 0) : Type 0 where
  pub page_rows : List (DetailRecord F)
  pub truncated : Bool
  pub next_cursor : Text

-- The query of a page: from a start, or from a cursor.
pub data Query : Type 0 where
  from_start : Text → Query
  from_cursor : Text → Query

abbrev pub query_of : Text → Text → Query
query_of start cursor = if not (text_eq cursor []) then from_cursor cursor else from_start start

-- recoveryStart: the day before that of the file's name, the last time stamp, or `fallback`, two
-- days ago. `day_before` stands for the parsing and formatting of dates.
unfoldable pub recovery_start : (Text → Option Text) → Text → Checkpoint → Text
recovery_start day_before fallback cp = elim (day_before cp.path) [
  | some s ↦ s
  | none ↦ if not (text_eq cp.last_ts []) then cp.last_ts else fallback
]

-- What run meets at the start.
pub record Start (F : Type 0) : Type 0 where
  pub today : Text
  pub exists : Text → Bool
  pub has_url : Bool
  pub day_before : Text → Option Text
  pub fallback : Text
  pub answers : List (Query → Option (Page F))

module _ {F : Type 0} where
  abbrev pub note_seen : DetailRecord F → List Text → List Text
  note_seen d seen = if not (text_eq d.request_id []) then d.request_id ∷ seen else seen

  -- The loop over the rows of a page: the ids seen, and the tailer.
  unfoldable pub recover_rows : List (DetailRecord F) → List Text × Tailer F → List Text × Tailer F
  recover_rows [] acc = acc
  recover_rows (d ∷ l) (seen, t) = recover_rows l (note_seen d seen, observe_row d t)

  -- !mr.Truncated || mr.NextCursor == "" || mr.NextCursor == cursor
  abbrev pub last_page : Page F → Text → Bool
  last_page mr cursor =
      not mr.truncated || text_eq mr.next_cursor [] || text_eq mr.next_cursor cursor

  -- recoverViaHTTP. The answers come in the order of the queries, `none` for one that fails, and
  -- there is no further answer once the context has ended.
  unfoldable pub recover_pages :
      List (Query → Option (Page F)) → Text → Text → List Text × Tailer F → List Text × Tailer F
  unfolding recover_rows
  recover_pages [] start cursor acc = acc
  recover_pages (answer ∷ answers) start cursor acc = elim (answer (query_of start cursor)) [
    | none ↦ acc
    | some mr ↦
        let acc' = recover_rows mr.page_rows acc in
        elim (last_page mr cursor) [
          | true ↦ acc'
          | false ↦ recover_pages answers start mr.next_cursor acc'
        ]
  ]

  abbrev pub resume_at : Text → ℕ → Tailer F → Tailer F
  resume_at path offset t = record t { cur_path = path; offset = offset }

  -- The second case of the switch: the checkpoint's file is gone and there is a service to ask.
  abbrev pub recover : Start F → Checkpoint → Tailer F → Tailer F
  recover st cp t =
      let (seen, t1) =
        recover_pages st.answers (recovery_start st.day_before st.fallback cp) [] ([], t) in
      resume_at st.today 0
        (record t1 { seen = seen; dedup_active = true; recoveries = t1.recoveries + 1 })

  -- The cases of the switch; the first flag is fileExists(cp.Path), the second BODYLOG_URL.
  abbrev pub go_on : Start F → Checkpoint → Bool → Bool → Tailer F → Tailer F
  go_on st cp true url t = resume_at cp.path cp.offset t
  go_on st cp false true t = recover st cp t
  go_on st cp false false t = resume_at st.today 0 t

  -- fileExists: an empty path does not.
  abbrev pub file_exists : Start F → Text → Bool
  file_exists st path = not (text_eq path []) && st.exists path

  abbrev pub from_checkpoint : Start F → Option Checkpoint → Tailer F → Tailer F
  from_checkpoint st none t = resume_at st.today 0 t
  from_checkpoint st (some cp) t =
      go_on st cp (file_exists st cp.path) st.has_url (record t { cp = cp })

  -- run, before tailLoop.
  unfoldable pub start_run : Start F → Option Checkpoint → Tailer F → Tailer F
  unfolding recover_pages recovery_start
  start_run st file t = from_checkpoint st (load_checkpoint file) t
