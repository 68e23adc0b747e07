-- ===== src/Exporter/Tail/Observed.antt =====
-- What a single read by readFrom of bodylog-exporter-go/tail.go observes.
use llm_openresty.Base.{
  ℕ, zero, suc, ◌+◌, ◌≡◌, refl, sym, ap, ap₂, ◌∙◌, subst, Bool, true, false, not, Option, none,
  some, List, [], ◌∷◌, ◌++◌, append_assoc, append-nil, Text, if◌then◌else◌, keep, nat_eq, length,
  arith, length-append,
}
use llm_openresty.Exporter.Metrics.{DetailRecord}
use llm_openresty.Exporter.Tail.Lines.{
  Tailer, split_lines, add_byte, handle_line, handle_row, observe_row, seen_in, is_seen, every_2000,
  tick, persist, read_lines, finish_read, read_from,
}

-- The lines one behind the other.
unfoldable pub join : List Text → Text
join [] = []
join (l ∷ ls) = l ++ join ls

pub join-append : (k l : List Text) → join (k ++ l) ≡ join k ++ join l
unfolding join
join-append [] l = refl
join-append (x ∷ k) l = ap (λ s. x ++ s) (join-append k l) ∙ sym (append_assoc x (join k) (join l))

add_byte-join :
    (b : Bool) (c : ℕ) (p : List Text × Text)
    → join (add_byte b c p).0 ++ (add_byte b c p).1 ≡ c ∷ (join p.0 ++ p.1)
unfolding join
add_byte-join true c (ls, rest) = refl
add_byte-join false c ([], rest) = refl
add_byte-join false c (l ∷ ls, rest) = refl

-- Whole lines and the rest make up the bytes.
pub join-split_lines : (s : Text) → join (split_lines s).0 ++ (split_lines s).1 ≡ s
unfolding split_lines
join-split_lines [] = unfold join in refl
join-split_lines (c ∷ s) =
    add_byte-join (nat_eq c b'\n') c (split_lines s) ∙ ap (λ m. c ∷ m) (join-split_lines s)

-- What is appended continues the rest.
abbrev pub and_then : List Text × Text → Text → List Text × Text
and_then (ls, rest) u = (ls ++ (split_lines (rest ++ u)).0, (split_lines (rest ++ u)).1)

add_byte-and_then :
    (b : Bool) (c : ℕ) (p : List Text × Text) (u : Text)
    → nat_eq c b'\n' ≡ b
    → add_byte b c (and_then p u) ≡ and_then (add_byte b c p) u
unfolding split_lines
add_byte-and_then true c (ls, rest) u h = refl
add_byte-and_then false c ([], rest) u h = rw h refl
add_byte-and_then false c (l ∷ ls, rest) u h = refl

pub split_lines-append : (s u : Text) → split_lines (s ++ u) ≡ and_then (split_lines s) u
unfolding split_lines
split_lines-append [] u = refl
split_lines-append (c ∷ s) u =
    ap (add_byte (nat_eq c b'\n') c) (split_lines-append s u)
    ∙ add_byte-and_then (nat_eq c b'\n') c (split_lines s) u refl

module _ {F : Type 0} (decode : Text → Option (DetailRecord F)) where
  -- The rows of the lines that decode.
  unfoldable pub decoded : List Text → List (DetailRecord F)
  decoded [] = []
  decoded (l ∷ ls) = let rest = decoded ls in elim (decode l) [ none ↦ rest | some d ↦ d ∷ rest ]

  -- The rows of a list of lines that the recovery has not observed.
  abbrev pub fresh_rows : Bool → List Text → List Text → List (DetailRecord F)
  fresh_rows active seen ls = keep (λ d. not (seen_in active seen d)) (decoded ls)

  decoded-append : (k l : List Text) → decoded (k ++ l) ≡ decoded k ++ decoded l
  unfolding decoded
  decoded-append [] l = refl
  decoded-append (x ∷ k) l = ground (arith, decoded-append k l)

  keep-append :
      (p : DetailRecord F → Bool) (k l : List (DetailRecord F))
      → keep p (k ++ l) ≡ keep p k ++ keep p l
  unfolding keep
  keep-append p [] l = refl
  keep-append p (x ∷ k) l = ground (arith, keep-append p k l)

  pub fresh_rows-append :
      (active : Bool) (seen : List Text) (k l : List Text)
      → fresh_rows active seen (k ++ l) ≡ fresh_rows active seen k ++ fresh_rows active seen l
  fresh_rows-append active seen k l =
      ap (keep (λ d. not (seen_in active seen d))) (decoded-append k l)
      ∙ keep-append (λ d. not (seen_in active seen d)) (decoded k) (decoded l)

  -- The tailer has gone on by some rows and bytes, with its marks of the recovery left alone.
  abbrev pub Went : Tailer F → Tailer F → List (DetailRecord F) → ℕ → Type 0
  Went t u rows n =
      ((u.rows ≡ t.rows ++ rows) × (u.offset ≡ t.offset + n))
      × ((u.seen ≡ t.seen) × (u.dedup_active ≡ t.dedup_active))

  module _ (writable : Bool) where
    handle_row-Went :
        (o : Option (DetailRecord F)) (t : Tailer F)
        → Went t
            (handle_row decode writable o t)
            (keep (λ d. not (is_seen t d)) (elim o [ none ↦ [] | some d ↦ d ∷ [] ]))
            0
    unfolding keep
    handle_row-Went none t = ((sym (append-nil t.rows), omega arith), (refl, refl))
    handle_row-Went (some d) t = go (is_seen t d)
      where
        go :
            (b : Bool)
            → Went t
                (if b then t else observe_row d t)
                (elim (not b) [ true ↦ d ∷ [] | false ↦ [] ])
                0
        go true = ((sym (append-nil t.rows), omega arith), (refl, refl))
        go false = ((refl, omega arith), (refl, refl))

    decoded-one :
        (line : Text) → decoded (line ∷ []) ≡ (elim (decode line) [ none ↦ [] | some d ↦ d ∷ [] ])
    unfolding decoded
    decoded-one line = refl

    every_2000-Went : (left : ℕ) (t : Tailer F) → Went t (every_2000 decode writable left t) [] 0
    unfolding persist
    every_2000-Went zero t = ((sym (append-nil t.rows), omega arith), (refl, refl))
    every_2000-Went (suc n) t = ((sym (append-nil t.rows), omega arith), (refl, refl))

    Went-trans :
        (t u v : Tailer F) (r q : List (DetailRecord F)) (n m : ℕ)
        → Went t u r n
        → Went u v q m
        → Went t v (r ++ q) (n + m)
    Went-trans t u v r q n m ((a, b), (c, d)) ((a', b'), (c', d')) =
        ((a' ∙ ap (λ x. x ++ q) a ∙ append_assoc t.rows r q, omega arith), (c' ∙ c, d' ∙ d))

    line-Went :
        (line : Text) (left : ℕ) (t : Tailer F)
        → Went t
            (every_2000 decode writable left (record (handle_line decode writable line t) {
              offset = (handle_line decode writable line t).offset + length line;
            }))
            (fresh_rows t.dedup_active t.seen (line ∷ []))
            (length line)
    unfolding handle_line
    line-Went line left t =
        let t1 = handle_row decode writable (decode line) t in
        let t2 = record t1 { offset = t1.offset + length line } in
        let ((a, b), (c, d)) = handle_row-Went (decode line) t in
        let ((a', b'), (c', d')) = every_2000-Went left t2 in
        let e = every_2000 decode writable left t2 in
        let q =
          keep (λ d. not (is_seen t d)) (elim (decode line) [ none ↦ [] | some d ↦ d ∷ [] ]) in
        (
          (
            a'
                ∙ append-nil t2.rows
                ∙ a
                ∙ ap (λ l. t.rows ++ keep (λ d. not (is_seen t d)) l) (sym (decoded-one line)),
            omega arith,
          ),
          (c' ∙ c, d' ∙ d),
        )

    read_lines-Went :
        (ls : List Text) (left : ℕ) (t : Tailer F)
        → Went t
            (read_lines decode writable ls left t)
            (fresh_rows t.dedup_active t.seen ls)
            (length (join ls))
    unfolding read_lines join keep
    read_lines-Went [] left t =
        unfold decoded in ((sym (append-nil t.rows), omega arith), (refl, refl))
    read_lines-Went (line ∷ ls) left t =
        let t1 = handle_line decode writable line t in
        let t3 = every_2000 decode writable left (record t1 { offset = t1.offset + length line }) in
        let w = line-Went line left t in
        let rest = read_lines decode writable ls (tick decode writable left) t3 in
        let e : fresh_rows t3.dedup_active t3.seen ls ≡ fresh_rows t.dedup_active t.seen ls =
          ap₂ (λ a s. fresh_rows a s ls) w.1.1 w.1.0 in
        subst (λ r. Went t rest r (length (line ++ join ls)))
          (sym (fresh_rows-append t.dedup_active t.seen (line ∷ []) ls))
          (subst
            (λ n.
              Went t rest
                (fresh_rows t.dedup_active t.seen (line ∷ [])
                  ++ fresh_rows t.dedup_active t.seen ls)
                n)
            (sym (length-append line (join ls)))
            (Went-trans t t3 rest _ _ _ _ w (
              subst (λ r. Went t3 rest r (length (join ls))) e
                (read_lines-Went ls (tick decode writable left) t3))))

    finish_read-Went :
        (t v : Tailer F) (r : List (DetailRecord F)) (n k : ℕ)
        → Went t v r n
        → Went t (finish_read decode writable k v) r n
    unfolding persist
    finish_read-Went t v r n zero w = w
    finish_read-Went t v r n (suc k) w = w

    pub read_from-Went :
        (bytes : Text) (at_eof : Bool) (t : Tailer F)
        → Went t
            (read_from decode writable (some (bytes, at_eof)) t).1
            (fresh_rows t.dedup_active t.seen (split_lines bytes).0)
            (length (join (split_lines bytes).0))
    unfolding read_from
    read_from-Went bytes at_eof t =
        let ls = (split_lines bytes).0 in
        finish_read-Went t (read_lines decode writable ls 1999 t)
          (fresh_rows t.dedup_active t.seen ls) (length (join ls)) (length ls)
          (read_lines-Went ls 1999 t)

    pub read_from-count :
        (bytes : Text) (at_eof : Bool) (t : Tailer F)
        → (read_from decode writable (some (bytes, at_eof)) t).0.0 ≡ length (split_lines bytes).0
    unfolding read_from
    read_from-count bytes at_eof t = refl
