-- ===== src/Listener/Housekeep/Legacy.antt =====
-- What a failure of gzipFile leaves, in housekeep of bodylog-listener-go/main.go.
use llm_openresty.Base.{◌≡◌, ap, ap₂, ◌∙◌, true, false, some, Text, ◌++◌, text_Eq, if◌then◌else◌}
use llm_openresty.Base.Dict.{get, put}
use llm_openresty.Listener.Housekeep.{
  Tools, blob, Disk, stat, is_some, bytes_of, gz, gzip_to, gzip_file, unlink_if, compress_legacy,
}
use llm_openresty.Listener.Housekeep.Pass.{get-put_same}

-- Where gzipFile creates its destination and then fails to write it, what it has written stays under the
-- archive's name, and no later attempt, with whatever answers of the system, changes anything again: the
-- uncompressed file is never compressed.
pub compress_legacy-stuck :
    (w later : Tools) (name : Text) (d : Disk)
    → stat d (name ++ gz) ≡ false
    → w.opens name ≡ true
    → w.creates (name ++ gz) ≡ true
    → (w.gzips (bytes_of (get d name))).0 ≡ false
    → (get (compress_legacy w name d) (name ++ gz)
        ≡ some (blob (w.gzips (bytes_of (get d name))).1))
      × (compress_legacy later name (compress_legacy w name d) ≡ compress_legacy w name d)
unfolding compress_legacy gzip_file
compress_legacy-stuck w later name d h o c f = (there, again)
  where
    cut : Disk
    cut = put d (name ++ gz) (blob (w.gzips (bytes_of (get d name))).1)

    first : compress_legacy w name d ≡ cut
    first =
        ap
          (λ b.
            if b
            then d
            else unlink_if w name
                (gzip_to w name (name ++ gz) (w.opens name) (w.creates (name ++ gz)) d))
          h
        ∙ ap₂ (λ a b. unlink_if w name (gzip_to w name (name ++ gz) a b d)) o c
        ∙ ap (λ b. unlink_if w name (b, cut)) f

    there :
        get (compress_legacy w name d) (name ++ gz)
        ≡ some (blob (w.gzips (bytes_of (get d name))).1)
    there = ap (λ e. get e (name ++ gz)) first ∙ get-put_same d (name ++ gz) _

    again : compress_legacy later name (compress_legacy w name d) ≡ compress_legacy w name d
    again =
        ap
          (λ i.
            if is_some i
            then compress_legacy w name d
            else unlink_if later name
                (gzip_file later name (name ++ gz) (compress_legacy w name d)))
          there
