-- ===== src/Middleware/Compress.antt =====
-- internal/middleware/compress.go: the choice of an encoding, and the writer that compresses. What the
-- encoders make of the bytes they are given is not told: `sent` keeps these bytes, and `encoded`
-- whether they pass an encoder. Writes to the writer below go well.
pub mod Negotiation
pub mod Streaming
mod Examples
use l7rp.Base.{
  ℕ, zero, suc, ◌+◌, Bool, true, false, ◌&&◌, ◌||◌, not, List, [], ◌∷◌, ◌++◌, Option, none, some,
  ◌==◌, ltb, leb, if◌then◌else◌, Str, bytes, str_eq, is_empty, to_lower, split, trim_space,
  has_prefix, drop, any, length, map,
}
use l7rp.Base.Int.{ℤ, pos, negsuc}
use l7rp.Http.{Header, get, set, add, del}

pub data Encoding : Type 0 where
  encoding_none encoding_gzip encoding_zstd encoding_brotli : Encoding

abbrev pub name : Encoding → Str
name encoding_none = []
name encoding_gzip = bytes "gzip"
name encoding_zstd = bytes "zstd"
name encoding_brotli = bytes "br"

-- The value of the constant, by which candidates are compared.
abbrev pub rank : Encoding → ℕ
rank encoding_none = 0
rank encoding_gzip = 1
rank encoding_zstd = 2
rank encoding_brotli = 3

abbrev pub candidate_of : Str → Option Encoding
candidate_of s =
    if str_eq s (bytes "br")
    then some encoding_brotli
    else if str_eq s (bytes "zstd")
    then some encoding_zstd
    else if str_eq s (bytes "gzip")
    then some encoding_gzip
    else none

-- The float64 values of q: strconv.ParseFloat, 0, 1 and -1, `>` and `==`.
pub record Quality : Type 1 where
  pub Q : Type 0
  pub parse_float : Str → Option Q
  pub q_zero : Q
  pub q_one : Q
  pub q_minus_one : Q
  pub gt : Q → Q → Bool
  pub eq : Q → Q → Bool

module _ (qu : Quality) where
  -- The loop over the parameters of a directive.
  unfoldable pub read_quality : List Str → qu.Q → qu.Q
  read_quality [] q = q
  read_quality (part ∷ parts) q =
      let p = trim_space part in
      let read : qu.Q =
        if has_prefix p (bytes "q=")
        then (elim (qu.parse_float (drop 2 p)) [ some v ↦ v | none ↦ q ])
        else q in
      read_quality parts read

  unfoldable pub parse_accept_encoding : Str → Str × qu.Q
  unfolding read_quality
  parse_accept_encoding s = elim (split 59 s) [
    | [] ↦ ([], qu.q_one)
    | part ∷ parts ↦ (to_lower (trim_space part), read_quality parts qu.q_one)
  ]

  -- One round of the loop in pickEncoding: `best` and `bestQ` are the pair.
  unfoldable pub consider : Encoding × qu.Q → Str × qu.Q → Encoding × qu.Q
  consider (best, best_q) (n, q) = elim (candidate_of n) [
    | none ↦ (best, best_q)
    | some c ↦
        if qu.eq q qu.q_zero
        then (best, best_q)
        else if qu.gt q best_q || (qu.eq q best_q && ltb (rank best) (rank c))
        then (c, q)
        else (best, best_q)
  ]

  unfoldable pub pick_from : Encoding × qu.Q → List (Str × qu.Q) → Encoding × qu.Q
  unfolding consider
  pick_from found [] = found
  pick_from found (d ∷ directives) = pick_from (consider found d) directives

  unfoldable pub pick_encoding : Str → Encoding
  unfolding pick_from parse_accept_encoding
  pick_encoding header =
      if is_empty header
      then encoding_none
      else (pick_from (encoding_none, qu.q_minus_one)
          (map (λ part. parse_accept_encoding (trim_space part)) (split 44 header))).0

abbrev pub default_skip_content_types : List Str
default_skip_content_types =
    bytes "image/png"
    ∷ bytes "image/jpeg"
    ∷ bytes "image/gif"
    ∷ bytes "image/webp"
    ∷ bytes "image/avif"
    ∷ bytes "video/mp4"
    ∷ bytes "video/webm"
    ∷ bytes "audio/mp4"
    ∷ bytes "audio/aac"
    ∷ bytes "audio/ogg"
    ∷ bytes "application/zip"
    ∷ bytes "application/gzip"
    ∷ bytes "application/x-bzip2"
    ∷ bytes "application/x-7z-compressed"
    ∷ bytes "application/x-rar-compressed"
    ∷ bytes "application/pdf"
    ∷ bytes "application/grpc"
    ∷ []

-- Compress: the settings of a writer.
pub record Settings : Type 0 where
  pub enc : Encoding
  pub min_bytes : ℕ
  pub skip_types : List Str

unfoldable pub settings : Encoding → (min_bytes : ℤ) → (skip_content_types : List Str) → Settings
settings enc (pos (suc n)) skip = record {
  enc = enc;
  min_bytes = suc n;
  skip_types = default_skip_content_types ++ map (λ ct. to_lower (trim_space ct)) skip;
}
settings enc _ skip = record {
  enc = enc;
  min_bytes = 1024;
  skip_types = default_skip_content_types ++ map (λ ct. to_lower (trim_space ct)) skip;
}

-- What the writer below has got.
pub record Below : Type 0 where
  pub header : Header
  pub status_code : Option ℕ  -- the argument of its first WriteHeader
  pub sent : Str
  pub encoded : Bool
  pub closed : Bool  -- the encoder

pub record CompressingWriter : Type 0 where
  pub wrote_header : Bool
  pub committed : Bool
  pub compress : Bool
  pub status_code : ℕ
  pub buf : Str
  pub below : Below

-- The media type of a Content-Type, without its parameters.
abbrev pub media_type : Str → Str
media_type ct = elim (split 59 ct) [
  | [] ↦ ct
  | part ∷ [] ↦ ct
  | part ∷ more ∷ parts ↦ trim_space part
]

module _ (set_up : Settings) where
  unfoldable pub should_compress : CompressingWriter → Bool
  should_compress c =
      let h = c.below.header in
      let ct = media_type (to_lower (get (bytes "Content-Type") h)) in
      if not (is_empty (get (bytes "Content-Encoding") h))
      then false
      else if c.status_code == 204 || c.status_code == 304
      then false
      else if any (λ t. str_eq t ct) set_up.skip_types
      then false
      else if not (is_empty c.buf) && ltb (length c.buf) set_up.min_bytes
      then false
      else true

  unfoldable pub commit : CompressingWriter → CompressingWriter
  unfolding should_compress
  commit c =
      let compress = should_compress c in
      let h = c.below.header in
      let h' =
        add (bytes "Vary") (bytes "Accept-Encoding")
          (del (bytes "Content-Length") (set (bytes "Content-Encoding") (name set_up.enc) h)) in
      let code : ℕ = if c.status_code == 0 then 200 else c.status_code in
      record c {
        committed = true;
        compress = compress;
        status_code = code;
        buf = [];
        below = record c.below {
          header = if compress then h' else h;
          status_code = some code;
          sent = c.below.sent ++ c.buf;
          encoded = compress;
        };
      }

  unfoldable pub write_header : ℕ → CompressingWriter → CompressingWriter
  write_header code c =
      if c.wrote_header then c else record c { wrote_header = true; status_code = code }

  unfoldable pub write : Str → CompressingWriter → CompressingWriter
  unfolding write_header commit
  write p c =
      let w = write_header 200 c in
      let more = record w { buf = w.buf ++ p } in
      if w.committed
      then record w { below = record w.below { sent = w.below.sent ++ p } }
      else if ltb (length more.buf) set_up.min_bytes
      then more
      else commit more

  unfoldable pub flush : CompressingWriter → CompressingWriter
  unfolding commit
  flush c = if c.committed then c else commit c

  unfoldable pub close : CompressingWriter → CompressingWriter
  unfolding commit
  close c =
      let w = if c.committed then c else commit c in
      record w { below = record w.below { closed = w.compress } }

-- What the next handler does with its writer; it may change headers in between.
pub data Call : Type 0 where
  writes_header : ℕ → Call
  writes : Str → Call
  flushes : Call
  changes : (Header → Header) → Call

module _ (set_up : Settings) where
  unfoldable pub call : CompressingWriter → Call → CompressingWriter
  unfolding write_header write flush
  call c (writes_header code) = write_header set_up code c
  call c (writes p) = write set_up p c
  call c flushes = flush set_up c
  call c (changes f) = record c { below = record c.below { header = f c.below.header } }

  unfoldable pub calls : CompressingWriter → List Call → CompressingWriter
  unfolding call
  calls c [] = c
  calls c (x ∷ xs) = calls (call c x) xs

abbrev pub fresh : Header → CompressingWriter
fresh h = record {
  wrote_header = false;
  committed = false;
  compress = false;
  status_code = 0;
  buf = [];
  below = record { header = h; status_code = none; sent = []; encoded = false; closed = false };
}
