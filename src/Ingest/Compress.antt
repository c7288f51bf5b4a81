-- ===== src/Ingest/Compress.antt =====
-- lambda/ingest/compress.go: the request body by its Content-Encoding, with a cap on the output.
pub mod Cap
use serverless_error_ingest.Text.{trim_space}
use serverless_error_ingest.Base.{
  ℕ, zero, suc, ◌+◌, ◌-◌, ◌%◌, Bool, true, false, ◌&&◌, ◌||◌, [], ◌∷◌, map, ltb, leb, ◌==◌,
  if◌then◌else◌, Bytes, codes, equal, is_empty, Result, ok, err, ◌>>=◌, map_err, ℤ, pos, negsuc,
  length, take,
}

-- What a decompressing reader yields until it stops: at the end of the data, or with an error that
-- comes alone or together with the last bytes.
pub data Ending : Type 0 where
  at_eof : Ending
  fails : Bytes → Ending
  fails_with_bytes : Bytes → Ending

pub record Stream : Type 0 where
  pub content : Bytes
  pub ending : Ending

-- The packages that decompress: a reader, or the error of its constructor. `unicode_lower` is
-- `strings.ToLower` on a text with a byte outside ASCII.
pub record Codecs : Type 0 where
  pub gzip : Bytes → Result Bytes Stream
  pub zlib : Bytes → Result Bytes Stream
  pub flate : Bytes → Stream
  pub brotli : Bytes → Stream
  pub zstd : Bytes → Result Bytes Stream
  pub unicode_lower : Bytes → Bytes

-- The errors of `decompressBody`; a prefix such as `gzip: ` is the first text.
pub data DecompressError : Type 0 where
  too_large : DecompressError
  codec : Bytes → DecompressError
  prefixed : Bytes → DecompressError → DecompressError
  unsupported : Bytes → DecompressError

-- `io.ReadAll`
abbrev pub read_all : Stream → Result DecompressError Bytes
read_all s = elim s.ending [
  | at_eof ↦ ok s.content
  | fails e ↦ err (codec e)
  | fails_with_bytes e ↦ err (codec e)
]

-- The int64 of the low 64 bits of a number.
unfoldable pub to_int64 : ℕ → ℤ
to_int64 n =
    let w = n % 18446744073709551616 in
    if ltb w 9223372036854775808 then pos w else negsuc (18446744073709551615 - w)

-- The first `n` bytes, for an `n` above 0.
unfoldable pub first_bytes : ℕ → Stream → Stream
first_bytes n s = if ltb (length s.content) n then s else record {
  content = take n s.content;
  ending = elim s.ending [
    | fails_with_bytes e ↦ if length s.content == n then fails_with_bytes e else at_eof
    | _ ↦ at_eof
  ];
}

-- `io.LimitReader(r, n)`: no more than `n` bytes are asked for, so that an error behind them is not met;
-- where `n` is not above 0 it is at the end at once.
unfoldable pub limited : ℤ → Stream → Stream
unfolding first_bytes
limited (pos zero) s = record { content = []; ending = at_eof }
limited (pos (suc n)) s = first_bytes (suc n) s
limited (negsuc n) s = record { content = []; ending = at_eof }

-- `readLimited`; no cap where `max_bytes` is 0. The limit `maxBytes+1` is an int64 and wraps around.
unfoldable pub read_limited : Stream → ℕ → Result DecompressError Bytes
unfolding limited to_int64
read_limited s max_bytes = if max_bytes == 0 then read_all s else (do
  out ← read_all (limited (to_int64 (max_bytes + 1)) s)
  if ltb max_bytes (length out) then err too_large else ok out)

abbrev is_ascii : Bytes → Bool
is_ascii [] = true
is_ascii (c ∷ s) = ltb c 128 && is_ascii s

abbrev lower : ℕ → ℕ
lower c = if leb b'A' c && leb c b'Z' then c + 32 else c

-- `strings.ToLower`
unfoldable pub to_lower : (Bytes → Bytes) → Bytes → Bytes
to_lower unicode_lower s = if is_ascii s then map lower s else unicode_lower s

-- A case of a `switch`, and the cases behind it.
unfoldable pub first_case :
    Bool
    → Result DecompressError Bytes
    → Result DecompressError Bytes
    → Result DecompressError Bytes
first_case true a b = a
first_case false a b = b

module _ (codecs : Codecs) where
  -- `decompressGzip`; the reader's own errors carry no prefix here.
  unfoldable pub decompress_gzip : Bytes → ℕ → Result DecompressError Bytes
  unfolding read_limited
  decompress_gzip body max_bytes = do
    s ← map_err (λ e. prefixed (codes "gzip: ") (codec e)) (codecs.gzip body)
    read_limited s max_bytes

  abbrev pub raw_deflate : Bytes → ℕ → Result DecompressError Bytes
  raw_deflate body max_bytes =
      map_err (prefixed (codes "deflate: ")) (read_limited (codecs.flate body) max_bytes)

  -- `len(body) >= 2 && body[0] == 0x78`
  abbrev pub looks_zlib : Bytes → Bool
  looks_zlib [] = false
  looks_zlib (c ∷ []) = false
  looks_zlib (c ∷ d ∷ s) = c == 0x78

  -- `decompressDeflate`: the zlib wrapper where the header fits, raw DEFLATE otherwise.
  unfoldable pub decompress_deflate : Bytes → ℕ → Result DecompressError Bytes
  unfolding read_limited
  decompress_deflate body max_bytes =
      if looks_zlib body
      then elim (codecs.zlib body) [
        | ok s ↦ read_limited s max_bytes
        | err e ↦ raw_deflate body max_bytes
      ]
      else raw_deflate body max_bytes

  -- `decompressBrotli`
  unfoldable pub decompress_brotli : Bytes → ℕ → Result DecompressError Bytes
  unfolding read_limited
  decompress_brotli body max_bytes =
      map_err (prefixed (codes "br: ")) (read_limited (codecs.brotli body) max_bytes)

  -- `decompressZstd`
  unfoldable pub decompress_zstd : Bytes → ℕ → Result DecompressError Bytes
  unfolding read_limited
  decompress_zstd body max_bytes = do
    s ← map_err (λ e. prefixed (codes "zstd: ") (codec e)) (codecs.zstd body)
    map_err (prefixed (codes "zstd: ")) (read_limited s max_bytes)

  abbrev pub pass_through : Bytes → ℕ → Result DecompressError Bytes
  pass_through body max_bytes =
      if ltb 0 max_bytes && ltb max_bytes (length body) then err too_large else ok body

  -- The switch, on the lower-case encoding; the last argument is the header's value.
  unfoldable pub decompress_as : Bytes → Bytes → ℕ → Bytes → Result DecompressError Bytes
  decompress_as e body max_bytes content_encoding =
      first_case (is_empty e || equal e (codes "identity")) (pass_through body max_bytes) (
        first_case (equal e (codes "gzip")) (decompress_gzip body max_bytes) (
          first_case (equal e (codes "deflate")) (decompress_deflate body max_bytes) (
            first_case (equal e (codes "br")) (decompress_brotli body max_bytes) (
              first_case (equal e (codes "zstd")) (decompress_zstd body max_bytes)
                (err (unsupported content_encoding))))))

  -- `decompressBody`
  unfoldable pub decompress_body : Bytes → Bytes → ℕ → Result DecompressError Bytes
  unfolding trim_space to_lower decompress_as
  decompress_body content_encoding body max_bytes =
      decompress_as (to_lower codecs.unicode_lower (trim_space content_encoding)) body max_bytes
        content_encoding
