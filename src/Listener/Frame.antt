-- ===== src/Listener/Frame.antt =====
-- readFrame and handleConn of bodylog-listener-go/main.go, and the encoder of lua/bodylog.lua that
-- writes what they read. A connection is the bytes that still come from it, and how it ends.
pub mod RoundTrip
pub mod Sound
pub mod Conn
mod Examples
use llm_openresty.Base.{
  ℕ, zero, suc, ◌+◌, ◌*◌, ◌/◌, ◌%◌, ◌^◌, ◌≤◌, ◌<◌, Bool, ◌||◌, List, [], ◌∷◌, ◌++◌, Option, none,
  some, Text, length, take, drop, ltb, nat_eq, if◌then◌else◌,
}

-- maxFrame: 64 MB.
abbrev pub max_frame : ℕ
max_frame = 64 * 1024 * 1024

-- The connection was closed with no byte of a frame read, inside one, or failed otherwise; then the
-- errors that readFrame makes itself.
pub data FrameError : Type 0 where
  eof unexpected_eof broken : FrameError
  invalid_length too_short truncated_meta truncated_req size_mismatch : FrameError

pub data Reading {ℓ} (A : Type ℓ) : Type ℓ where
  ok : A → Reading A
  err : FrameError → Reading A

infixl 5 ◌>>=◌ ◌>>◌
abbrev pub ◌>>=◌ {ℓ κ} : {A : Type ℓ} {B : Type κ} → Reading A → (A → Reading B) → Reading B
ok a >>= f = f a
err e >>= f = err e

abbrev pub ◌>>◌ {ℓ} : {B : Type ℓ} → Reading (Unit {0}) → Reading B → Reading B
m >> k = m >>= λ _. k

-- `if b { err = e; return }`
abbrev pub fail_if : Bool → FrameError → Reading (Unit {0})
fail_if b e = if b then err e else ok tt

pub data Ending : Type 0 where
  closed reset : Ending

pub record Stream : Type 0 where
  pub bytes : Text
  pub ending : Ending

pub record Frame : Type 0 where
  pub meta : Text
  pub req : Text
  pub resp : Text

abbrev short_read : Stream → FrameError
short_read s = elim s.ending [
  | closed ↦ elim s.bytes [ [] ↦ eof | b ∷ r ↦ unexpected_eof ]
  | reset ↦ broken
]

-- io.ReadFull on a buffer of `n` bytes.
pub read_full : ℕ → Stream → Reading (Text × Stream)
read_full n s =
    if ltb (length s.bytes) n
    then err (short_read s)
    else ok (take n s.bytes, record s { bytes = drop n s.bytes })

-- binary.BigEndian.Uint16 and Uint32 on a slice.
abbrev pub big_endian : ℕ → Text → ℕ
big_endian acc [] = acc
big_endian acc (b ∷ s) = big_endian (acc * 256 + b) s

-- buf[pos : pos+n]
abbrev pub slice : Text → ℕ → ℕ → Text
slice buf pos n = take n (drop pos buf)

-- The part of readFrame behind the second io.ReadFull.
pub parse_body : Text → Reading Frame
parse_body buf = do
  fail_if (ltb (length buf) 2) too_short
  let meta_len = big_endian 0 (slice buf 0 2)
  fail_if (ltb (length buf) (2 + meta_len + 4)) truncated_meta
  let req_len = big_endian 0 (slice buf (2 + meta_len) 4)
  fail_if (ltb (length buf) (2 + meta_len + 4 + req_len + 4)) truncated_req
  let resp_len = big_endian 0 (slice buf (2 + meta_len + 4 + req_len) 4)
  let pos = 2 + meta_len + 4 + req_len + 4
  if nat_eq (pos + resp_len) (length buf)
      then ok (record {
        meta = slice buf 2 meta_len;
        req = slice buf (2 + meta_len + 4) req_len;
        resp = slice buf pos resp_len;
      })
      else err size_mismatch

-- What readFrame does with its reader: a frame and the reader behind it, or an error.
pub read_frame : Stream → Reading (Frame × Stream)
read_frame s = do
  (head, s1) ← read_full 4 s
  let total = big_endian 0 head
  fail_if (nat_eq total 0 || ltb max_frame total) invalid_length
  (buf, s2) ← read_full total s1
  frame ← parse_body buf
  ok (frame, s2)

-- rawFrame: a frame with the address that it came from.
pub record RawFrame : Type 0 where
  pub frame : Frame
  pub src : Text

-- handleConn: the frames that it sends to the writers, in order, and the error that ends it. The
-- fuel is a bound on the number of frames.
pub handle_conn : ℕ → Text → Stream → Option (List RawFrame × FrameError)
handle_conn zero src s = none
handle_conn (suc fuel) src s = elim (read_frame s) [
  | err e ↦ some ([], e)
  | ok (f, s') ↦ elim (handle_conn fuel src s') [
    | none ↦ none
    | some (fs, e) ↦ some (record { frame = f; src = src } ∷ fs, e)
  ]
]

-- _pack_u16 and _pack_u32 of the sender.
abbrev pub pack_u16 : ℕ → Text
pack_u16 n = (n / 256 % 256) ∷ (n % 256) ∷ []

abbrev pub pack_u32 : ℕ → Text
pack_u32 n = (n / 2 ^ 24 % 256) ∷ (n / 2 ^ 16 % 256) ∷ (n / 2 ^ 8 % 256) ∷ (n % 256) ∷ []

pub payload : Frame → Text
payload f =
    pack_u16 (length f.meta)
    ++ (f.meta ++ (pack_u32 (length f.req) ++ (f.req ++ (pack_u32 (length f.resp) ++ f.resp))))

-- The frame that the sender's bodylog_finalize writes.
pub encode : Frame → Text
encode f = pack_u32 (length (payload f)) ++ payload f

-- What the sender's lengths have to satisfy: a 16-bit length for the meta part, and the frame limit.
pub record IsSendable (f : Frame) : Type 0 where
  pub meta_fits : length f.meta < 2 ^ 16
  pub total_fits : length (payload f) ≤ max_frame
