-- ===== src/Listener/Api/Examples.antt =====
-- A token, a cursor, a literal with a quote, and the rows of two peers.
use llm_openresty.Base.{
  ◌≡◌, refl, ◌↔◌, ◌⊎◌, true, Option, none, some, List, [], ◌∷◌, ◌++◌, Text, text_eq, codes, keep,
}
use llm_openresty.Listener.Bucket.{Bucket, new_bucket}
use llm_openresty.Listener.Api.{Base64, auth_ok, bearer, cursor, make_cursor, parse_cursor, sql_str}
use llm_openresty.Listener.Api.Access.{auth_ok_iff}
use llm_openresty.Listener.Api.Cursor.{IsBase64, parse_cursor-make_cursor}
use llm_openresty.Listener.Api.Sql.{read_literal, read_literal-sql_str}
use llm_openresty.Listener.Api.Summary.{minute_peer_Eq, merge_buckets_by_peer, peer_totals}
use llm_openresty.Listener.Api.Summary.Sums.{
  MergedRow, PeerRow, of_minute_peer, merge_buckets_by_peer-MergedRow, peer_totals-PeerRow,
}

abbrev token : Text
token = codes "abc"

auth_ok_iff_example :
    (auth_ok token (bearer ++ token) [] ≡ true)
    ↔ ((bearer ++ token ≡ bearer ++ token) ⊎ ([] ≡ token))
auth_ok_iff_example = auth_ok_iff token (bearer ++ token) [] (λ e. absurd cc)

-- An encoding that puts one byte in front.
abbrev strip : Text → Option Text
strip [] = none
strip (c ∷ s) = some s

abbrev marked : Base64
marked = record { encode = λ s. 65 ∷ s; decode = strip }

marked-IsBase64 : IsBase64 marked
marked-IsBase64 = record { decodes = λ s. refl; nonempty = λ s h e. absurd cc }

parse_cursor-make_cursor_example :
    parse_cursor marked (make_cursor marked (codes "2026-01-01T00:00:00Z") (codes "r1"))
    ≡ cursor (codes "2026-01-01T00:00:00Z") (codes "r1")
parse_cursor-make_cursor_example =
    parse_cursor-make_cursor marked (codes "2026-01-01T00:00:00Z") (codes "r1") marked-IsBase64 (
      refl,
      (
        refl,
        (
          refl,
          (
            refl,
            (
              refl,
              (
                refl,
                (
                  refl,
                  (
                    refl,
                    (
                      refl,
                      (
                        refl,
                        (
                          refl,
                          (
                            refl,
                            (refl, (refl, (refl, (refl, (refl, (refl, (refl, (refl, tt)))))))),
                          ),
                        ),
                      ),
                    ),
                  ),
                ),
              ),
            ),
          ),
        ),
      ),
    )

read_literal-sql_str_example :
    read_literal (sql_str (codes "a'b") ++ codes " OR 1") ≡ some (codes "a'b", codes " OR 1")
read_literal-sql_str_example = read_literal-sql_str (codes "a'b") (codes " OR 1") refl

abbrev rows : List Bucket
rows =
    new_bucket 60 (codes "p") (codes "true")
    ∷ new_bucket 60 (codes "q") []
    ∷ new_bucket 60 (codes "p") (codes "false")
    ∷ []

merge_buckets_by_peer-MergedRow_example :
    MergedRow
      (keep (of_minute_peer 60 (codes "p")) rows)
      (keep (of_minute_peer 60 (codes "p")) (merge_buckets_by_peer rows))
merge_buckets_by_peer-MergedRow_example = merge_buckets_by_peer-MergedRow rows 60 (codes "p")

peer_totals-PeerRow_example :
    PeerRow
      (keep (λ b. text_eq b.peer (codes "p")) rows)
      (keep (λ b. text_eq b.peer (codes "p")) (peer_totals rows))
peer_totals-PeerRow_example = peer_totals-PeerRow rows (codes "p")
