-- ===== src/Listener/Frame/RoundTrip.antt =====
-- The reader undoes the sender's encoder, with any bytes behind the frame.
use llm_openresty.Base.{
  ℕ, ◌+◌, ◌^◌, ◌<◌, ◌≡◌, refl, sym, [], ◌++◌, append_assoc, append-nil, arith, Text, length,
  length-append, take-append_length, drop-append_length,
}
use llm_openresty.Listener.Frame.{
  Frame, Ending, ok, read_full, read_frame, parse_body, payload, encode, IsSendable, big_endian,
  slice, pack_u16, pack_u32,
}

-- A slice that begins behind `pre` and is as long as `mid`.
pub slice-middle :
    (buf pre mid post : Text) (pos n : ℕ)
    → buf ≡ pre ++ (mid ++ post)
    → pos ≡ length pre
    → n ≡ length mid
    → slice buf pos n ≡ mid
slice-middle buf pre mid post pos n e p q =
    rw (e, p, q, drop-append_length) (take-append_length mid post)

pub big_endian-pack_u16 : (n : ℕ) → n < 2 ^ 16 → big_endian 0 (pack_u16 n) ≡ n
big_endian-pack_u16 n h = omega arith

pub big_endian-pack_u32 : (n : ℕ) → n < 2 ^ 32 → big_endian 0 (pack_u32 n) ≡ n
big_endian-pack_u32 n h = omega arith

module _ (f : Frame) where
  pub length-payload : length (payload f) ≡ length f.meta + length f.req + length f.resp + 10
  unfolding payload
  length-payload = omega (
    arith,
    length-append (f.meta)
        (pack_u32 (length f.req) ++ (f.req ++ (pack_u32 (length f.resp) ++ f.resp))),
    length-append (f.req) (pack_u32 (length f.resp) ++ f.resp),
  )

  req_len_slice : slice (payload f) (2 + length f.meta) 4 ≡ pack_u32 (length f.req)
  unfolding payload
  req_len_slice =
      slice-middle _ (pack_u16 (length f.meta) ++ f.meta) (pack_u32 (length f.req))
        (f.req ++ (pack_u32 (length f.resp) ++ f.resp)) _ _
        (sym (append_assoc (pack_u16 (length f.meta)) f.meta _)) (omega arith) refl

  meta_len_slice : slice (payload f) 0 2 ≡ pack_u16 (length f.meta)
  unfolding payload
  meta_len_slice = refl

  meta_slice : slice (payload f) 2 (length f.meta) ≡ f.meta
  unfolding payload
  meta_slice = slice-middle _ (pack_u16 (length f.meta)) f.meta _ _ _ refl refl refl

  abbrev up_to_req : Text
  up_to_req = (pack_u16 (length f.meta) ++ f.meta) ++ pack_u32 (length f.req)

  abbrev length-up_to_req : length up_to_req ≡ 2 + length f.meta + 4
  length-up_to_req = omega (
    arith,
    length-append (pack_u16 (length f.meta) ++ f.meta) (pack_u32 (length f.req)),
    length-append (pack_u16 (length f.meta)) f.meta,
  )

  req_slice : slice (payload f) (2 + length f.meta + 4) (length f.req) ≡ f.req
  unfolding payload
  req_slice =
      slice-middle (payload f) up_to_req f.req (pack_u32 (length f.resp) ++ f.resp)
        (2 + length f.meta + 4) (length f.req) (simp append_assoc) (sym length-up_to_req) refl

  resp_len_slice :
      slice (payload f) (2 + length f.meta + 4 + length f.req) 4 ≡ pack_u32 (length f.resp)
  unfolding payload
  resp_len_slice =
      slice-middle (payload f) (up_to_req ++ f.req) (pack_u32 (length f.resp)) f.resp
        (2 + length f.meta + 4 + length f.req) 4 (simp append_assoc)
        (omega (arith, length-append up_to_req f.req, length-up_to_req)) refl

  resp_slice : slice (payload f) (2 + length f.meta + 4 + length f.req + 4) (length f.resp) ≡ f.resp
  unfolding payload
  resp_slice =
      slice-middle (payload f) ((up_to_req ++ f.req) ++ pack_u32 (length f.resp)) f.resp []
        (2 + length f.meta + 4 + length f.req + 4) (length f.resp) (simp (append_assoc, append-nil))
        (omega (
          arith,
          length-append (up_to_req ++ f.req) (pack_u32 (length f.resp)),
          length-append up_to_req f.req,
          length-up_to_req,
        ))
        refl

-- Reading as many bytes as a first part has gives that part.
pub read_full-append :
    (n : ℕ) (xs rest : Text) (e : Ending)
    → n ≡ length xs
    → read_full n (record { bytes = xs ++ rest; ending = e })
      ≡ ok (xs, record { bytes = rest; ending = e })
unfolding read_full
read_full-append n xs rest e h =
    rw (h, take-append_length, drop-append_length) (ground (arith, length-append xs rest))

module _ (f : Frame) (sendable : IsSendable f) where
  parse_body-payload : parse_body (payload f) ≡ ok f
  unfolding parse_body
  parse_body-payload =
      rw
        (
          meta_len_slice f,
          big_endian-pack_u16 _ sendable.meta_fits,
          req_len_slice f,
          big_endian-pack_u32 (length f.req) (omega (arith, length-payload f, sendable.total_fits)),
          resp_len_slice f,
          big_endian-pack_u32 (length f.resp)
              (omega (arith, length-payload f, sendable.total_fits)),
          meta_slice f,
          req_slice f,
          resp_slice f,
          length-payload f,
        )
        (ground arith)

  -- A sendable frame is read back as it was written, and the reader stands behind it, whatever
  -- bytes follow and however the connection ends.
  pub read_frame-encode :
      (rest : Text) (e : Ending)
      → read_frame (record { bytes = encode f ++ rest; ending = e })
        ≡ ok (f, record { bytes = rest; ending = e })
  unfolding read_frame encode
  read_frame-encode rest e =
      rw
        (
          append_assoc,
          read_full-append 4 (pack_u32 (length (payload f))) (payload f ++ rest) e refl,
          big_endian-pack_u32 (length (payload f)) (omega (arith, sendable.total_fits)),
          read_full-append (length (payload f)) (payload f) rest e refl,
          parse_body-payload,
        )
        (ground (arith, sendable.total_fits, length-payload f))
