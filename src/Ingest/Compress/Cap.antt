-- ===== src/Ingest/Compress/Cap.antt =====
-- The cap on decompressed bodies.
use serverless_error_ingest.Ingest.Compress.{
  Ending, at_eof, fails, fails_with_bytes, Stream, Codecs, DecompressError, to_int64, too_large,
  read_limited, decompress_gzip, decompress_deflate, decompress_brotli, decompress_zstd,
  decompress_body, raw_deflate, first_case, decompress_as, pass_through, looks_zlib,
}
use serverless_error_ingest.Base.{
  ℕ, zero, suc, ◌+◌, ◌≤◌, ◌<◌, ◌≡◌, refl, ◌↔◌, ◌⊎◌, inl, inr, Bool, true, false, [], arith, ltb,
  ◌==◌, if◌then◌else◌, ltb→lt, lt→ltb, Bool-cases, Bytes, Result, ok, err, ◌>>=◌, map_err, pos,
  length, length-take,
}

-- The limit where it does not wrap around.
to_int64_fits : (n : ℕ) → suc n < 9223372036854775808 → to_int64 (n + 1) ≡ pos (suc n)
unfolding to_int64
to_int64_fits n h = ground arith

-- The limited reader is clean only if all the data was within the limit or cut at it.
read_limited_of :
    (content : Bytes) (ending : Ending) (max : ℕ) (out : Bytes)
    → suc max < 9223372036854775807
    → (read_limited (record { content = content; ending = ending }) (suc max) ≡ ok out)
      ↔ ((ending ≡ at_eof) × (content ≡ out) × (length out ≤ suc max))
unfolding read_limited
read_limited_of content at_eof max out fits =
    let limit = to_int64_fits (suc max) (omega (arith, fits)) in
    rw limit (
      λ e. (
        refl,
        ground (arith, length-take (suc (suc max)) content),
        ground (arith, length-take (suc (suc max)) content),
      ),
      λ h. ground (arith, length-take (suc (suc max)) content),
    )
read_limited_of content (fails x) max out fits =
    let limit = to_int64_fits (suc max) (omega (arith, fits)) in
    rw limit
      (λ e. absurd (ground (arith, length-take (suc (suc max)) content)), λ h. absurd (cc h.0))
read_limited_of content (fails_with_bytes x) max out fits =
    let limit = to_int64_fits (suc max) (omega (arith, fits)) in
    rw limit
      (λ e. absurd (ground (arith, length-take (suc (suc max)) content)), λ h. absurd (cc h.0))

abbrev pub max_int64 : ℕ
max_int64 = 9223372036854775807

-- What is read under a cap: with the largest int64 nothing, since the limit is negative, and below it the
-- whole content of a reader that ends cleanly, where that is within the cap.
abbrev pub IsRead : Stream → ℕ → Bytes → Type 0
IsRead s max out =
    ((max < max_int64) × (s.ending ≡ at_eof) × (s.content ≡ out) × (length out ≤ max))
    ⊎ ((max ≡ max_int64) × (out ≡ []))

read_limited_overflow :
    (s : Stream) (out : Bytes) → (read_limited s max_int64 ≡ ok out) ↔ (out ≡ [])
unfolding read_limited
read_limited_overflow s out = (λ e. cc, λ e. rw e refl)

-- Under a cap below 2 ^ 63 - 1 the output is returned exactly when the reader ends cleanly and its whole
-- content is within the cap, and it is that content: nothing is cut off silently. Under the cap 2 ^ 63 - 1
-- the empty output is returned, whatever the reader has.
pub read_limited-ok :
    (s : Stream) (max : ℕ) (out : Bytes)
    → 0 < max
    → max ≤ max_int64
    → (read_limited s max ≡ ok out) ↔ IsRead s max out
read_limited-ok s zero out h fits = absurd (omega arith)
read_limited-ok s (suc max) out h fits = elim (Bool-cases (ltb (suc max) max_int64)) [
  | inl below ↦
      let less = ltb→lt (suc max) max_int64 below in
      let of = read_limited_of s.content s.ending max out less in
      (
        λ e. let (ends, same, within) = of.0 e in inl (less, ends, same, within),
        λ h. elim h [
          | inl (fits, ends, same, within) ↦ of.1 (ends, same, within)
          | inr over ↦ absurd (omega (arith, less, over.0))
        ],
      )
  | inr above ↦
      let same : suc max ≡ max_int64 = ground (arith, fits) in
      let of = read_limited_overflow s out in
      rw same (
        λ e. inr (refl, of.0 e),
        λ h. elim h [ inl read ↦ absurd (omega (arith, read.0)) | inr over ↦ of.1 over.1 ],
      )
]

-- Whatever is returned is within the cap.
abbrev pub Capped : ℕ → Result DecompressError Bytes → Type 0
Capped max (ok out) = length out ≤ max
Capped max (err e) = Unit

module _ (codecs : Codecs) (max : ℕ) (capped : 0 < max) where
  tested-Capped :
      (r : Result DecompressError Bytes)
      → Capped max (r >>= λ out. if ltb max (length out) then err too_large else ok out)
  tested-Capped (ok out) = elim (Bool-cases (ltb max (length out))) [
    | inl over ↦ rw over tt
    | inr within ↦ rw within (ground arith)
  ]
  tested-Capped (err e) = tt

  read_limited-Capped : (s : Stream) → Capped max (read_limited s max)
  unfolding read_limited
  read_limited-Capped s = let on : max == 0 ≡ false = ground arith in rw on (tested-Capped _)

  map_err-Capped :
      (f : DecompressError → DecompressError) (r : Result DecompressError Bytes)
      → Capped max r
      → Capped max (map_err f r)
  map_err-Capped f (ok out) h = h
  map_err-Capped f (err e) h = tt

  raw_deflate-Capped : (body : Bytes) → Capped max (raw_deflate codecs body max)
  raw_deflate-Capped body = map_err-Capped _ _ (read_limited-Capped (codecs.flate body))

  opened-Capped :
      (f : Bytes → DecompressError) (g : DecompressError → DecompressError)
      (r : Result Bytes Stream)
      → Capped max (map_err f r >>= λ s. map_err g (read_limited s max))
  opened-Capped f g (ok s) = map_err-Capped g _ (read_limited-Capped s)
  opened-Capped f g (err e) = tt

  gzip-Capped :
      (r : Result Bytes Stream) (f : Bytes → DecompressError)
      → Capped max (map_err f r >>= λ s. read_limited s max)
  gzip-Capped (ok s) f = read_limited-Capped s
  gzip-Capped (err e) f = tt

  zlib-Capped :
      (r : Result Bytes Stream) (body : Bytes)
      → Capped max (elim r [ ok s ↦ read_limited s max | err e ↦ raw_deflate codecs body max ])
  zlib-Capped (ok s) body = read_limited-Capped s
  zlib-Capped (err e) body = raw_deflate-Capped body

  deflate-Capped : (body : Bytes) → Capped max (decompress_deflate codecs body max)
  unfolding decompress_deflate
  deflate-Capped body = elim (Bool-cases (looks_zlib codecs body)) [
    | inl z ↦ rw (z, decompress_deflate) (zlib-Capped (codecs.zlib body) body)
    | inr r ↦ rw (r, decompress_deflate) (raw_deflate-Capped body)
  ]

  pass_through-Capped : (body : Bytes) → Capped max (pass_through codecs body max)
  pass_through-Capped body = elim (Bool-cases (ltb max (length body))) [
    | inl big ↦ let on = lt→ltb 0 max capped in rw (on, big) tt
    | inr small ↦ let on = lt→ltb 0 max capped in rw (on, small) (ground arith)
  ]

  first_case-Capped :
      (b : Bool) (x y : Result DecompressError Bytes)
      → Capped max x
      → Capped max y
      → Capped max (first_case b x y)
  unfolding first_case
  first_case-Capped true x y h k = h
  first_case-Capped false x y h k = k

  gzip_body-Capped : (body : Bytes) → Capped max (decompress_gzip codecs body max)
  unfolding decompress_gzip
  gzip_body-Capped body = gzip-Capped (codecs.gzip body) _

  zstd_body-Capped : (body : Bytes) → Capped max (decompress_zstd codecs body max)
  unfolding decompress_zstd
  zstd_body-Capped body = opened-Capped _ _ (codecs.zstd body)

  brotli_body-Capped : (body : Bytes) → Capped max (decompress_brotli codecs body max)
  unfolding decompress_brotli
  brotli_body-Capped body = map_err-Capped _ _ (read_limited-Capped (codecs.brotli body))

  decompress_as-Capped :
      (e body encoding : Bytes) → Capped max (decompress_as codecs e body max encoding)
  unfolding decompress_as
  decompress_as-Capped e body encoding = first_case-Capped _ _ _ (pass_through-Capped body) (
      first_case-Capped _ _ _ (gzip_body-Capped body) (
        first_case-Capped _ _ _ (deflate-Capped body) (
          first_case-Capped _ _ _ (brotli_body-Capped body)
            (first_case-Capped _ _ _ (zstd_body-Capped body) tt))))

  pub decompress_body-Capped :
      (encoding body : Bytes) → Capped max (decompress_body codecs encoding body max)
  unfolding decompress_body
  decompress_body-Capped encoding body = decompress_as-Capped _ body encoding

Capped-ok :
    (max : ℕ) (r : Result DecompressError Bytes) (out : Bytes)
    → Capped max r
    → r ≡ ok out
    → length out ≤ max
Capped-ok max (ok x) out h e = let same : x ≡ out = cc in rw same at h
Capped-ok max (err x) out h e = cc

-- Under a cap no encoding lets a longer body through.
pub decompress_body-le :
    (codecs : Codecs) (encoding body out : Bytes) (max : ℕ)
    → 0 < max
    → decompress_body codecs encoding body max ≡ ok out
    → length out ≤ max
decompress_body-le codecs encoding body out max capped e =
    Capped-ok max _ out (decompress_body-Capped codecs max capped encoding body) e
