-- ===== src/Listener/Entry.antt =====
-- What ingest of bodylog-listener-go/main.go reads of an entry: its minute, its peer, its stream and its
-- numbers. An entry is decoded JSON; Floats is the interface to float64.
pub mod Backend
mod Examples
use llm_openresty.Base.{
  ℕ, zero, suc, ◌+◌, ◌-◌, ◌%◌, Bool, true, false, ◌&&◌, ◌||◌, Option, none, some, List, [], ◌∷◌,
  ◌++◌, Text, codes, text_eq, nat_eq, trim_prefix, has_prefix, drop, cut_byte, length,
  if◌then◌else◌, add64,
}
use llm_openresty.Listener.Bucket.{Entry}
use llm_openresty.Listener.Aggregator.{Request}

mutual
  pub data Json (F : Type 0) : Type 0 where
    null : Json F
    boolean : Bool → Json F
    number : F → Json F
    string : Text → Json F
    array : Items F → Json F
    object : Fields F → Json F

  pub data Items (F : Type 0) : Type 0 where
    no_item : Items F
    item : Json F → Items F → Items F

  pub data Fields (F : Type 0) : Type 0 where
    no_field : Fields F
    field : Text → Json F → Fields F → Fields F

-- int64(v), int64(v * 1000) and v > 0 for a float64.
pub record Floats (F : Type 0) : Type 0 where
  pub to_int64 : F → ℕ
  pub millis : F → ℕ
  pub positive : F → Bool

-- time.Parse with the layout of ts, in seconds, and the present second.
pub record Clock : Type 0 where
  pub parse : Text → Option ℕ
  pub now : ℕ

-- usageTokens
pub record UsageTokens : Type 0 where
  pub prompt : ℕ
  pub cached : ℕ
  pub compl : ℕ
  pub total : ℕ
  pub reasoning : ℕ

abbrev pub no_usage : UsageTokens
no_usage = record { prompt = 0; cached = 0; compl = 0; total = 0; reasoning = 0 }

-- An entry, with what processFrame has cached under __usage, __peer and __stream.
pub record Cached (F : Type 0) : Type 0 where
  pub fields : Fields F
  pub usage : Option UsageTokens
  pub peer : Option Text
  pub stream : Option (Option Bool)

abbrev pub starts_object : ℕ → Bool
starts_object c = nat_eq c b'{' || nat_eq c b','

-- \s of package regexp
abbrev pub is_blank : ℕ → Bool
is_blank c = nat_eq c 32 || (nat_eq c 9 || (nat_eq c 10 || (nat_eq c 12 || nat_eq c 13)))

abbrev pub skip_blanks : Text → Text
skip_blanks [] = []
skip_blanks (c ∷ s) = elim (is_blank c) [ true ↦ skip_blanks s | false ↦ c ∷ s ]

abbrev pub true_or_false : Text → Option Bool
true_or_false s =
    if has_prefix s (codes "true")
    then some true
    else if has_prefix s (codes "false")
    then some false
    else none

abbrev pub colon_value : Text → Option Bool
colon_value [] = none
colon_value (c ∷ s) = if nat_eq c b':' then true_or_false (skip_blanks s) else none

abbrev pub stream_name : Text
stream_name = codes "\"stream\""

-- streamRe at a position behind { or ,
abbrev pub match_stream : Text → Option Bool
match_stream s =
    let key = skip_blanks s in
    if has_prefix key stream_name
    then colon_value (skip_blanks (trim_prefix key stream_name))
    else none

abbrev pub first_match : Option Bool → Option Bool → Option Bool
first_match (some b) o = some b
first_match none o = o

-- streamRe.FindStringSubmatch: the leftmost match.
unfoldable pub find_stream : Text → Option Bool
find_stream [] = none
find_stream (c ∷ s) =
    let rest = find_stream s in if starts_object c then first_match (match_stream s) rest else rest

module _ {F : Type 0} where
  -- m[name]; the names of a decoded object differ.
  unfoldable pub lookup : Fields F → Text → Json F
  lookup no_field name = null
  lookup (field k v m) name = let rest = lookup m name in if text_eq k name then v else rest

  abbrev pub get_string : Json F → Text
  get_string null = []
  get_string (boolean b) = []
  get_string (number x) = []
  get_string (string s) = s
  get_string (array l) = []
  get_string (object m) = []

  -- v.(map[string]any); what is no object has no field.
  abbrev pub as_object : Json F → Fields F
  as_object null = no_field
  as_object (boolean b) = no_field
  as_object (number x) = no_field
  as_object (string s) = no_field
  as_object (array l) = no_field
  as_object (object m) = m

  abbrev pub is_true : Json F → Bool
  is_true null = false
  is_true (boolean b) = b
  is_true (number x) = false
  is_true (string s) = false
  is_true (array l) = false
  is_true (object m) = false

  abbrev pub as_float : Json F → Option F
  as_float null = none
  as_float (boolean b) = none
  as_float (number x) = some x
  as_float (string s) = none
  as_float (array l) = none
  as_float (object m) = none

-- The part of a text before the first slash.
abbrev pub before_slash : Option (Text × Text) → Text → Text
before_slash none s = s
before_slash (some (p, q)) s = p

abbrev pub host_of : Text → Text
host_of fwd =
    let s = trim_prefix (trim_prefix fwd (codes "https://")) (codes "http://") in
    before_slash (cut_byte b'/' s) s

abbrev pub none_name : Text
none_name = codes "(none)"

abbrev pub or_none_name : Text → Text
or_none_name peer = if text_eq peer [] then none_name else peer

-- normalizePeer on peer and forwarded_to; an empty forwarded_to has an empty host.
unfoldable pub normalized : Text → Text → Text
normalized peer fwd = or_none_name (if text_eq (host_of fwd) [] then peer else host_of fwd)

module _ {F : Type 0} (floats : Floats F) where
  abbrev pub or_zero : Option F → (F → ℕ) → ℕ
  or_zero none f = 0
  or_zero (some x) f = f x

  -- getInt64 on what the decoder gives.
  abbrev pub get_int64 : Json F → ℕ
  get_int64 v = or_zero (as_float v) floats.to_int64

  abbrev pub unless_zero : ℕ → ℕ → ℕ
  unless_zero n m = if nat_eq n 0 then m else n

  -- extractUsage
  unfoldable pub extract_usage : Fields F → UsageTokens
  unfolding lookup
  extract_usage m =
      let us = as_object (lookup (as_object (lookup m (codes "resp_meta"))) (codes "usage")) in
      let prompt =
        unless_zero (get_int64 (lookup us (codes "prompt_tokens")))
          (get_int64 (lookup us (codes "input_tokens"))) in
      let compl =
        unless_zero (get_int64 (lookup us (codes "completion_tokens")))
          (get_int64 (lookup us (codes "output_tokens"))) in
      record {
        prompt = prompt;
        compl = compl;
        total = unless_zero (get_int64 (lookup us (codes "total_tokens"))) (add64 prompt compl);
        cached = get_int64 (
            lookup (as_object (lookup us (codes "prompt_tokens_details"))) (codes "cached_tokens"));
        reasoning =
            unless_zero
              (get_int64 (
                lookup (as_object (lookup us (codes "completion_tokens_details")))
                  (codes "reasoning_tokens")))
              (get_int64 (lookup us (codes "reasoning_tokens")));
      }

  -- extractStream
  unfoldable pub extract_stream : Fields F → Option Bool
  unfolding find_stream lookup
  extract_stream m =
      if is_true (lookup m (codes "req_body_b64"))
      then none
      else find_stream (get_string (lookup m (codes "req_body")))

  abbrev pub normalize_peer : Fields F → Text
  normalize_peer m =
      normalized (get_string (lookup m (codes "peer")))
        (get_string (lookup m (codes "forwarded_to")))

  abbrev pub or_extracted {ℓ} : {A : Type ℓ} → Option A → A → A
  or_extracted none x = x
  or_extracted (some a) x = a

  -- cachedUsage, cachedPeer and streamOf
  abbrev pub cached_usage : Cached F → UsageTokens
  cached_usage r = or_extracted r.usage (extract_usage r.fields)

  abbrev pub cached_peer : Cached F → Text
  cached_peer r = or_extracted r.peer (normalize_peer r.fields)

  abbrev pub stream_of : Cached F → Option Bool
  stream_of r = or_extracted r.stream (extract_stream r.fields)

  -- What processFrame hands to ingest: the entry with __stream, __usage and __peer, each computed once.
  abbrev pub with_caches : Fields F → Cached F
  with_caches m = record {
    fields = m;
    usage = some (extract_usage m);
    peer = some (normalize_peer m);
    stream = some (extract_stream m);
  }

  abbrev pub without_caches : Fields F → Cached F
  without_caches m = record { fields = m; usage = none; peer = none; stream = none }

  -- The first chunk's time, if it is positive.
  abbrev pub first_chunk : Option F → Option ℕ
  first_chunk none = none
  first_chunk (some x) = if floats.positive x then some (floats.millis x) else none

  -- What ingest reads before it takes the lock.
  unfoldable pub read_entry : Cached F → Entry
  unfolding extract_usage
  read_entry r =
      let u = cached_usage r in
      record {
        status = get_int64 (lookup r.fields (codes "status"));
        prompt = u.prompt;
        cached = u.cached;
        compl = u.compl;
        total = u.total;
        req_bytes = length (get_string (lookup r.fields (codes "req_body")));
        resp_bytes = length (get_string (lookup r.fields (codes "resp_body")));
        rt_ms = or_zero (as_float (lookup r.fields (codes "rt"))) floats.millis;
        frt = first_chunk (as_float (lookup r.fields (codes "first_chunk_t")));
      }

-- streamKeyOf
abbrev pub stream_key_of : Option Bool → Text
stream_key_of none = []
stream_key_of (some true) = codes "true"
stream_key_of (some false) = codes "false"

abbrev pub whole_minute : Option ℕ → ℕ → ℕ
whole_minute none now = now - now % 60
whole_minute (some t) now = t - t % 60

-- parseEntryMinute on ts_end
abbrev pub parse_entry_minute : Clock → Text → ℕ
parse_entry_minute clock ts_end =
    whole_minute (if text_eq ts_end [] then none else clock.parse ts_end) clock.now

-- The request that ingest counts for an entry.
unfoldable pub request_of : {F : Type 0} → Floats F → Clock → Cached F → Request
unfolding read_entry normalized extract_stream
request_of floats clock r = record {
  minute = parse_entry_minute clock (get_string (lookup r.fields (codes "ts_end")));
  peer = cached_peer floats r;
  stream = stream_key_of (stream_of floats r);
  entry = read_entry floats r;
}
