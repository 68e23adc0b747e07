-- ===== src/Listener/Frame/Conn.antt =====
-- A connection: the frames that handleConn hands to the writers.
use llm_openresty.Base.{
  ℕ, zero, suc, ◌+◌, ◌<◌, ◌≡◌, refl, ap, subst, ◌∙◌, ◌||◌, List, [], ◌∷◌, ◌++◌, map, append_assoc,
  arith, some, Text, length, take, length-append, length-take, nat_eq, if◌then◌else◌, All,
}
use llm_openresty.Listener.Frame.{
  Frame, RawFrame, FrameError, eof, unexpected_eof, Stream, Ending, closed, Reading, ok, err,
  read_full, read_frame, handle_conn, payload, encode, IsSendable, pack_u32,
}
use llm_openresty.Listener.Frame.RoundTrip.{
  read_frame-encode, read_full-append, big_endian-pack_u32, length-payload,
}
use llm_openresty.Listener.Frame.Sound.{Bytes, Bytes-append_right, read_frame_sound}

-- Frames sent one behind the other.
abbrev pub encode_all : List Frame → Text
encode_all [] = []
encode_all (f ∷ fs) = encode f ++ encode_all fs

abbrev pub raw : Text → Frame → RawFrame
raw src f = record { frame = f; src = src }

module _ (fuel : ℕ) (src : Text) (s : Stream) where
  handle_conn_stop :
      (x : FrameError) → read_frame s ≡ err x → handle_conn (suc fuel) src s ≡ some ([], x)
  unfolding handle_conn
  handle_conn_stop x h = rw (h, handle_conn)

  handle_conn_step :
      (f : Frame) (s' : Stream) (fs : List RawFrame) (x : FrameError)
      → read_frame s ≡ ok (f, s')
      → handle_conn fuel src s' ≡ some (fs, x)
      → handle_conn (suc fuel) src s ≡ some (raw src f ∷ fs, x)
  unfolding handle_conn
  handle_conn_step f s' fs x h k = rw (h, handle_conn) (rw k)

-- Whole frames in front of anything that gives an error are all handed on, in order.
handle_conn-encode_all :
    (fs : List Frame) (fuel : ℕ) (src tail : Text) (e : Ending) (x : FrameError)
    → All IsSendable fs
    → read_frame (record { bytes = tail; ending = e }) ≡ err x
    → length fs < fuel
    → handle_conn fuel src (record { bytes = encode_all fs ++ tail; ending = e })
      ≡ some (map (raw src) fs, x)
handle_conn-encode_all fs zero src tail e x good stop enough = absurd (omega arith)
handle_conn-encode_all [] (suc fuel) src tail e x good stop enough =
    handle_conn_stop fuel src _ x stop
handle_conn-encode_all (f ∷ fs) (suc fuel) src tail e x good stop enough = rw append_assoc (
    handle_conn_step fuel src _ f _ _ x (read_frame-encode f good.0 (encode_all fs ++ tail) e)
      (handle_conn-encode_all fs fuel src tail e x good.1 stop (omega arith)))

-- The error of a connection that closes `k` bytes into a frame.
abbrev pub cut_error : ℕ → FrameError
cut_error k = if nat_eq k 0 || nat_eq k 4 then eof else unexpected_eof

read_full_short :
    (n : ℕ) (s : Text)
    → length s < n
    → read_full n (record { bytes = s; ending = closed })
      ≡ err (if nat_eq (length s) 0 then eof else unexpected_eof)
unfolding read_full
read_full_short n [] h = ground arith
read_full_short n (x ∷ s) h = ground arith

length-encode : (f : Frame) → length (encode f) ≡ length (payload f) + 4
unfolding encode
length-encode f = omega arith

read_frame_short :
    (s : Text)
    → length s < 4
    → read_frame (record { bytes = s; ending = closed })
      ≡ err (if nat_eq (length s) 0 then eof else unexpected_eof)
unfolding read_frame
read_frame_short s h = rw (read_full_short 4 s h)

-- Inside the length prefix.
read_frame-take_head :
    (f : Frame) (k : ℕ)
    → k < 4
    → read_frame (record { bytes = take k (encode f); ending = closed })
      ≡ err (if nat_eq k 0 then eof else unexpected_eof)
read_frame-take_head f k h =
    let short : length (take k (encode f)) ≡ k =
      length-take k (encode f) (omega (arith, length-encode f)) in
    read_frame_short (take k (encode f)) (omega (arith, short))
    ∙ ap (λ n. err (if nat_eq n 0 then eof else unexpected_eof)) short

-- Behind the length prefix.
read_frame-take_body :
    (f : Frame) (m : ℕ)
    → IsSendable f
    → m < length (payload f)
    → read_frame (record { bytes = take (suc (suc (suc (suc m)))) (encode f); ending = closed })
      ≡ err (if nat_eq m 0 then eof else unexpected_eof)
unfolding read_frame encode
read_frame-take_body f m good h =
    let short = length-take m (payload f) (omega arith) in
    rw
      (
        read_full-append 4 (pack_u32 (length (payload f))) (take m (payload f)) closed refl,
        big_endian-pack_u32 (length (payload f)) (omega (arith, good.total_fits)),
        read_full_short (length (payload f)) (take m (payload f)) (omega (arith, short)),
        short,
      )
      (ground (arith, good.total_fits, length-payload f))

read_frame-take :
    (f : Frame) (k : ℕ)
    → IsSendable f
    → k < length (encode f)
    → read_frame (record { bytes = take k (encode f); ending = closed }) ≡ err (cut_error k)
unfolding encode
read_frame-take f (suc (suc (suc (suc m)))) good h =
    read_frame-take_body f m good (omega arith) ∙ ground arith
read_frame-take f k good h = read_frame-take_head f k (omega arith) ∙ ground arith

-- A connection that closes `k` bytes into a frame, behind any number of whole frames, hands on the
-- whole frames, in order, and nothing of the cut one, whatever fuel above the number of frames is
-- given. It ends by EOF if the cut is between frames or just behind a length prefix, and by
-- ErrUnexpectedEOF otherwise.
pub handle_conn-cut :
    (fs : List Frame) (f : Frame) (k fuel : ℕ) (src : Text)
    → All IsSendable fs
    → IsSendable f
    → k < length (encode f)
    → length fs < fuel
    → handle_conn fuel src (record { bytes = encode_all fs ++ take k (encode f); ending = closed })
      ≡ some (map (raw src) fs, cut_error k)
handle_conn-cut fs f k fuel src good good_cut inside enough =
    handle_conn-encode_all fs fuel src (take k (encode f)) closed (cut_error k) good
      (read_frame-take f k good_cut inside) enough

-- Fuel above the number of bytes is enough: the loop ends by an error of the reader.
pub handle_conn_total :
    (fuel : ℕ) (src : Text) (s : Stream)
    → Bytes s.bytes
    → length s.bytes < fuel
    → (r : List RawFrame × FrameError) × (handle_conn fuel src s ≡ some r)
handle_conn_total zero src s bytes enough = absurd (omega arith)
handle_conn_total (suc fuel) src s bytes enough =
    go (read_frame s) refl (handle_conn_total fuel src)
  where
    go :
        (r : Reading (Frame × Stream))
        → read_frame s ≡ r
        → ((t : Stream)
            → Bytes t.bytes
            → length t.bytes < fuel
            → (r : List RawFrame × FrameError) × (handle_conn fuel src t ≡ some r))
        → (r : List RawFrame × FrameError) × (handle_conn (suc fuel) src s ≡ some r)
    go (err x) e rec = (([], x), handle_conn_stop fuel src s x e)
    go (ok (f, s')) e rec =
        let (spelled, fits, same_end) = read_frame_sound s s' f bytes e in
        let shorter : length s'.bytes < fuel =
          omega (arith, ap length spelled, length-append (encode f) s'.bytes, length-encode f) in
        let (r, ran) =
          rec s' (Bytes-append_right (encode f) s'.bytes (subst Bytes spelled bytes)) shorter in
        ((raw src f ∷ r.0, r.1), handle_conn_step fuel src s f s' r.0 r.1 e ran)
