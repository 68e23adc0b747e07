-- ===== src/Listener/Frame/Sound.antt =====
-- What the reader accepts: only frames that the sender's layout spells, within the limits.
use llm_openresty.Base.{
  ℕ, zero, suc, ◌+◌, ◌≤◌, ◌<◌, ◌≡◌, refl, sym, ap, ap₂, subst, ◌∙◌, Bool, true, false, ◌||◌, [],
  ◌∷◌, ◌++◌, append_assoc, arith, Text, length, take, drop, length-take, length-drop,
  take-append-drop, ltb, nat_eq, nat_eq_iff, if◌then◌else◌, All,
}
use native.Mathlib.Nat.{zero-add, suc-add}
use llm_openresty.Listener.Frame.{
  Frame, FrameError, too_short, truncated_meta, truncated_req, size_mismatch, invalid_length,
  Stream, Reading, ok, err, ◌>>=◌, ◌>>◌, fail_if, read_full, read_frame, parse_body, payload,
  encode, big_endian, slice, pack_u16, pack_u32, max_frame,
}

abbrev pub IsByte : ℕ → Type 0
IsByte b = b < 256

abbrev pub Bytes : Text → Type 0
Bytes = All IsByte

pub Bytes-drop : (n : ℕ) (s : Text) → Bytes s → Bytes (drop n s)
Bytes-drop zero s h = h
Bytes-drop (suc n) [] h = h
Bytes-drop (suc n) (x ∷ s) h = Bytes-drop n s h.1

pub Bytes-append_right : (xs ys : Text) → Bytes (xs ++ ys) → Bytes ys
Bytes-append_right [] ys h = h
Bytes-append_right (x ∷ xs) ys h = Bytes-append_right xs ys h.1

Bytes-append_left : (xs ys : Text) → Bytes (xs ++ ys) → Bytes xs
Bytes-append_left [] ys h = tt
Bytes-append_left (x ∷ xs) ys h = (h.0, Bytes-append_left xs ys h.1)

drop-nil : (n : ℕ) → drop {A = ℕ} n [] ≡ []
drop-nil zero = refl
drop-nil (suc n) = refl

drop-add : (m n : ℕ) (s : Text) → drop (m + n) s ≡ drop n (drop m s)
drop-add zero n s = rw zero-add
drop-add (suc m) n [] = rw (drop-nil (suc m + n), drop-nil n)
drop-add (suc m) n (x ∷ s) = rw suc-add (drop-add m n s)

pack_u16-big_endian :
    (s : Text) → 2 ≤ length s → Bytes s → pack_u16 (big_endian 0 (take 2 s)) ++ drop 2 s ≡ s
pack_u16-big_endian (a ∷ b ∷ s) h (p, (q, r)) = ap₂ (λ x y. x ∷ y ∷ s) (omega arith) (omega arith)
pack_u16-big_endian [] h r = absurd (omega arith)
pack_u16-big_endian (a ∷ []) h r = absurd (omega arith)

cons₄ :
    {a b c d a' b' c' d' : ℕ} (s : Text)
    → a ≡ a'
    → b ≡ b'
    → c ≡ c'
    → d ≡ d'
    → a ∷ b ∷ c ∷ d ∷ s ≡ a' ∷ b' ∷ c' ∷ d' ∷ s
cons₄ s p q r t = cc

pack_u32-big_endian :
    (s : Text) → 4 ≤ length s → Bytes s → pack_u32 (big_endian 0 (take 4 s)) ++ drop 4 s ≡ s
pack_u32-big_endian (a ∷ b ∷ c ∷ d ∷ s) h (p, (q, (r, (t, u)))) =
    cons₄ s (omega arith) (omega arith) (omega arith) (omega arith)
pack_u32-big_endian [] h r = absurd (omega arith)
pack_u32-big_endian (a ∷ []) h r = absurd (omega arith)
pack_u32-big_endian (a ∷ b ∷ []) h r = absurd (omega arith)
pack_u32-big_endian (a ∷ b ∷ c ∷ []) h r = absurd (omega arith)

guards_inv :
    (b1 b2 b3 b4 : Bool) (f f' : Frame)
    → (fail_if b1 too_short
        >> (fail_if b2 truncated_meta
            >> (fail_if b3 truncated_req >> (if b4 then ok f' else err size_mismatch))))
      ≡ ok f
    → (b4 ≡ true) × (f' ≡ f)
guards_inv true b2 b3 b4 f f' h = cc
guards_inv false true b3 b4 f f' h = cc
guards_inv false false true b4 f f' h = cc
guards_inv false false false true f f' h = (refl, cc)
guards_inv false false false false f f' h = cc

take_all : (n : ℕ) (s : Text) → length s ≡ n → take n s ≡ s
take_all zero [] h = refl
take_all zero (x ∷ s) h = absurd (omega arith)
take_all (suc n) [] h = refl
take_all (suc n) (x ∷ s) h = ap (λ l. x ∷ l) (take_all n s (omega arith))

module _ (buf : Text) where
  abbrev meta_len : ℕ
  meta_len = big_endian 0 (slice buf 0 2)

  abbrev req_len : ℕ
  req_len = big_endian 0 (slice buf (2 + meta_len) 4)

  abbrev resp_len : ℕ
  resp_len = big_endian 0 (slice buf (2 + meta_len + 4 + req_len) 4)

  abbrev parsed : Frame
  parsed = record {
    meta = slice buf 2 meta_len;
    req = slice buf (2 + meta_len + 4) req_len;
    resp = slice buf (2 + meta_len + 4 + req_len + 4) resp_len;
  }

  parse_body_inv :
      (f : Frame)
      → parse_body buf ≡ ok f
      → (2 + meta_len + 4 + req_len + 4 + resp_len ≡ length buf) × (parsed ≡ f)
  unfolding parse_body
  parse_body_inv f h =
      let (fits, same) =
        guards_inv (ltb (length buf) 2) (ltb (length buf) (2 + meta_len + 4))
          (ltb (length buf) (2 + meta_len + 4 + req_len + 4))
          (nat_eq (2 + meta_len + 4 + req_len + 4 + resp_len) (length buf)) f parsed h in
      ((nat_eq_iff _ _).0 fits, same)

  at_pos : (pos n : ℕ) → take n (drop pos buf) ++ drop (pos + n) buf ≡ drop pos buf
  at_pos pos n = rw (drop-add pos n buf) (take-append-drop n (drop pos buf))

  length-slice : (pos n : ℕ) → pos + n ≤ length buf → length (slice buf pos n) ≡ n
  length-slice pos n h = length-take n (drop pos buf) (omega (arith, length-drop pos buf))

  length_at : (pos n : ℕ) → pos + n ≤ length buf → n ≤ length (drop pos buf)
  length_at pos n h = omega (arith, length-drop pos buf)

  word_at :
      (pos : ℕ)
      → pos + 4 ≤ length buf
      → Bytes buf
      → pack_u32 (big_endian 0 (slice buf pos 4)) ++ drop (pos + 4) buf ≡ drop pos buf
  word_at pos h bytes =
      rw (drop-add pos 4 buf)
        (pack_u32-big_endian (drop pos buf) (length_at pos 4 h) (Bytes-drop pos buf bytes))

  slices_spell :
      Bytes buf → 2 + meta_len + 4 + req_len + 4 + resp_len ≡ length buf → payload parsed ≡ buf
  unfolding payload
  slices_spell bytes fits =
      rw
        (
          length-slice 2 meta_len (omega arith),
          length-slice (2 + meta_len + 4) req_len (omega arith),
          length-slice (2 + meta_len + 4 + req_len + 4) resp_len (omega arith),
        )
        (cc (
          pack_u16-big_endian buf (omega arith) bytes,
          at_pos 2 meta_len,
          word_at (2 + meta_len) (omega arith) bytes,
          at_pos (2 + meta_len + 4) req_len,
          word_at (2 + meta_len + 4 + req_len) (omega arith) bytes,
          take_all resp_len (drop (2 + meta_len + 4 + req_len + 4) buf)
              (omega (arith, length-drop (2 + meta_len + 4 + req_len + 4) buf)),
        ))

  -- A body that is accepted is the one that the sender's layout spells for the frame.
  parse_body_sound : (f : Frame) → Bytes buf → parse_body buf ≡ ok f → payload f ≡ buf
  parse_body_sound f bytes h =
      let (fits, same) = parse_body_inv f h in
      subst (λ g. payload g ≡ buf) same (slices_spell bytes fits)

if_err_inv {ℓ} :
    {A : Type ℓ} (b : Bool) (e : FrameError) (a a' : A)
    → (if b then err e else ok a) ≡ ok a'
    → (b ≡ false) × (a ≡ a')
if_err_inv true e a a' h = cc
if_err_inv false e a a' h = (refl, cc)

bind_inv {ℓ κ} :
    {A : Type ℓ} {B : Type κ} (m : Reading A) (f : A → Reading B) {b : B}
    → (m >>= f) ≡ ok b
    → (a : A) × (m ≡ ok a) × (f a ≡ ok b)
bind_inv (ok a) f h = (a, refl, h)
bind_inv (err e) f h = cc

ok_inv {ℓ} : {A : Type ℓ} {a b : A} → ok a ≡ ok b → a ≡ b
ok_inv h = cc

guard_inv {ℓ} :
    {A : Type ℓ} {x : A} (b : Bool) (e : FrameError) (k : Reading A)
    → (fail_if b e >> k) ≡ ok x
    → (b ≡ false) × (k ≡ ok x)
guard_inv true e k h = cc
guard_inv false e k h = (refl, h)

pub read_full_sound :
    (n : ℕ) (s s' : Stream) (xs : Text)
    → read_full n s ≡ ok (xs, s')
    → (s.bytes ≡ xs ++ s'.bytes) × (length xs ≡ n) × (s'.ending ≡ s.ending)
unfolding read_full
read_full_sound n s s' xs h =
    let (long, same) =
      if_err_inv (ltb (length s.bytes) n) _ (take n s.bytes, record s { bytes = drop n s.bytes })
        (xs, s') h in
    let enough : n ≤ length s.bytes = ground arith in
    let front : take n s.bytes ≡ xs = ap (λ (t : Text × Stream). t.0) same in
    (
      subst (λ t. s.bytes ≡ t.0 ++ t.1.bytes) same (sym (take-append-drop n s.bytes)),
      subst (λ t. length t.0 ≡ n) same (length-take n s.bytes enough),
      subst (λ t. t.1.ending ≡ s.ending) same refl,
    )

pack_u32-big_endian_all : (s : Text) → length s ≡ 4 → Bytes s → pack_u32 (big_endian 0 s) ≡ s
pack_u32-big_endian_all (a ∷ b ∷ c ∷ d ∷ []) h bytes =
    pack_u32-big_endian (a ∷ b ∷ c ∷ d ∷ []) (omega arith) bytes
pack_u32-big_endian_all (a ∷ b ∷ c ∷ d ∷ x ∷ s) h bytes = absurd (omega arith)
pack_u32-big_endian_all [] h r = absurd (omega arith)
pack_u32-big_endian_all (a ∷ []) h r = absurd (omega arith)
pack_u32-big_endian_all (a ∷ b ∷ []) h r = absurd (omega arith)
pack_u32-big_endian_all (a ∷ b ∷ c ∷ []) h r = absurd (omega arith)

frame_spelled :
    (head buf rest bytes : Text) (frame : Frame)
    → bytes ≡ head ++ (buf ++ rest)
    → length head ≡ 4
    → Bytes head
    → length buf ≡ big_endian 0 head
    → payload frame ≡ buf
    → bytes ≡ encode frame ++ rest
unfolding encode
frame_spelled head buf rest bytes frame e four head_bytes long body =
    let header : pack_u32 (length (payload frame)) ≡ head =
      ap (λ n. pack_u32 n) (ap length body ∙ long) ∙ pack_u32-big_endian_all head four head_bytes in
    e ∙ sym (ap₂ (λ h b. (h ++ b) ++ rest) header body ∙ append_assoc head buf rest)

limit_lem :
    (total n : ℕ) → (nat_eq total 0 || ltb max_frame total) ≡ false → n ≡ total → n ≤ max_frame
limit_lem total n h e = ground arith

-- A frame that the reader accepts is the sender's encoding of that frame, byte for byte, followed
-- by what the reader then stands before; it is no longer than the limit.
pub read_frame_sound :
    (s s' : Stream) (f : Frame)
    → Bytes s.bytes
    → read_frame s ≡ ok (f, s')
    → (s.bytes ≡ encode f ++ s'.bytes) × (length (payload f) ≤ max_frame) × (s'.ending ≡ s.ending)
unfolding read_frame encode
read_frame_sound s s' f bytes h =
    let (head_s1, read_head, h1) = bind_inv (read_full 4 s) _ h in
    let head = head_s1.0 in
    let s1 = head_s1.1 in
    let (at_head, head_long, same_end) = read_full_sound 4 s s1 head read_head in
    let (allowed, h2) = guard_inv _ invalid_length _ h1 in
    let (buf_s2, read_buf, h3) = bind_inv (read_full (big_endian 0 head) s1) _ h2 in
    let buf = buf_s2.0 in
    let s2 = buf_s2.1 in
    let (at_buf, buf_long, same_end') = read_full_sound (big_endian 0 head) s1 s2 buf read_buf in
    let (frame, parsed_frame, h4) = bind_inv (parse_body buf) _ h3 in
    let same : ◌≡◌ {A = Frame × Stream} (frame, s2) (f, s') = ok_inv h4 in
    let behind : Bytes (buf ++ s2.bytes) =
      subst Bytes at_buf (Bytes-append_right head s1.bytes (subst Bytes at_head bytes)) in
    let body : payload frame ≡ buf =
      parse_body_sound buf frame (Bytes-append_left buf s2.bytes behind) parsed_frame in
    let spelled =
      frame_spelled head buf s2.bytes s.bytes frame (at_head ∙ ap (λ t. head ++ t) at_buf) head_long
        (Bytes-append_left head s1.bytes (subst Bytes at_head bytes)) buf_long body in
    let within : length (payload frame) ≤ max_frame =
      limit_lem (big_endian 0 head) (length (payload frame)) allowed (ap length body ∙ buf_long) in
    (
      subst (λ t. s.bytes ≡ encode t.0 ++ t.1.bytes) same spelled,
      subst (λ t. length (payload t.0) ≤ max_frame) same within,
      subst (λ t. t.1.ending ≡ s.ending) same (same_end' ∙ same_end),
    )
