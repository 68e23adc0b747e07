-- ===== src/Listener/Frame/Examples.antt =====
-- Runs of the frame reader, and the properties at concrete frames.
use llm_openresty.Base.{
  ◌≤◌, ◌≡◌, refl, List, [], ◌∷◌, ◌++◌, map, some, Text, codes, length, take, arith,
}
use llm_openresty.Listener.Frame.{
  Frame, RawFrame, FrameError, unexpected_eof, invalid_length, Ending, closed, reset, ok, err,
  read_full, read_frame, handle_conn, parse_body, payload, encode, IsSendable, max_frame,
}
use llm_openresty.Listener.Frame.RoundTrip.{read_frame-encode}
use llm_openresty.Listener.Frame.Sound.{read_frame_sound}
use llm_openresty.Listener.Frame.Conn.{encode_all, raw, handle_conn-cut, handle_conn_total}

abbrev hello : Frame
hello = record { meta = codes "{}"; req = codes "hi"; resp = [] }

abbrev wire : Text
wire = 0 ∷ 0 ∷ 0 ∷ 14 ∷ 0 ∷ 2 ∷ 123 ∷ 125 ∷ 0 ∷ 0 ∷ 0 ∷ 2 ∷ 104 ∷ 105 ∷ 0 ∷ 0 ∷ 0 ∷ 0 ∷ []

encode-hello : encode hello ≡ wire
unfolding encode payload
encode-hello = refl

read_wire :
    read_frame (record { bytes = wire ++ 7 ∷ []; ending = closed })
    ≡ ok (hello, record { bytes = 7 ∷ []; ending = closed })
unfolding read_frame read_full parse_body
read_wire = refl

zero_length :
    read_frame (record { bytes = 0 ∷ 0 ∷ 0 ∷ 0 ∷ []; ending = closed }) ≡ err invalid_length
unfolding read_frame read_full parse_body
zero_length = refl

hello-IsSendable : IsSendable hello
unfolding payload
hello-IsSendable = record { meta_fits = omega arith; total_fits = omega arith }

read_frame-encode_example :
    read_frame (record { bytes = encode hello ++ 7 ∷ []; ending = reset })
    ≡ ok (hello, record { bytes = 7 ∷ []; ending = reset })
read_frame-encode_example = read_frame-encode hello hello-IsSendable (7 ∷ []) reset

read_frame_sound_example :
    (wire ++ 7 ∷ [] ≡ encode hello ++ 7 ∷ [])
    × (length (payload hello) ≤ max_frame)
    × (◌≡◌ {A = Ending} closed closed)
read_frame_sound_example =
    read_frame_sound (record { bytes = wire ++ 7 ∷ []; ending = closed })
      (record { bytes = 7 ∷ []; ending = closed }) hello (omega arith) read_wire

handle_conn-cut_example :
    handle_conn 3
      (codes "10.0.0.1")
      (record { bytes = encode_all (hello ∷ hello ∷ []) ++ take 7 (encode hello); ending = closed })
    ≡ some (map (raw (codes "10.0.0.1")) (hello ∷ hello ∷ []), unexpected_eof)
handle_conn-cut_example =
    handle_conn-cut (hello ∷ hello ∷ []) hello 7 3 (codes "10.0.0.1")
      (hello-IsSendable, (hello-IsSendable, tt)) hello-IsSendable
      (unfold encode payload in omega arith) (omega arith)

handle_conn_total_example :
    (r : List RawFrame × FrameError) × (handle_conn 20 [] (record { bytes = wire; ending = closed })
      ≡ some r)
handle_conn_total_example =
    handle_conn_total 20 [] (record { bytes = wire; ending = closed }) (omega arith) (omega arith)
