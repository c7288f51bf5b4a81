-- ===== src/Query/Key.antt =====
-- `sentryKey` of lambda/query/main.go: the public key of a request for events.
use serverless_error_ingest.Http.{Request, value_of}
use serverless_error_ingest.Text.{cut_byte, split_byte, trim_space}
use serverless_error_ingest.Ingest.Auth.{after_space, sentry_key}
use serverless_error_ingest.Base.{
  Option, none, some, List, [], ◌∷◌, if◌then◌else◌, Bytes, codes, equal, is_empty,
}

-- The value of a part that names the key.
unfoldable pub key_of_part : Bytes → Option Bytes
unfolding cut_byte trim_space equal
key_of_part part = elim (cut_byte b'=' (trim_space part)) [
  | none ↦ none
  | some (k, v) ↦ if equal (trim_space k) sentry_key then some (trim_space v) else none
]

-- The loop: the first part that names the key, with whatever value.
unfoldable pub key_of_parts : List Bytes → Bytes
unfolding key_of_part
key_of_parts [] = []
key_of_parts (part ∷ parts) =
    let later = key_of_parts parts in elim (key_of_part part) [ some k ↦ k | none ↦ later ]

-- `sentryKeyFromAuthHeader`
unfoldable pub sentry_key_from_auth_header : Bytes → Bytes
unfolding after_space split_byte key_of_parts
sentry_key_from_auth_header value = key_of_parts (split_byte b',' (after_space value))

-- The first text that is not empty.
abbrev pub first_given : List Bytes → Bytes
first_given [] = []
first_given (s ∷ ss) = let later = first_given ss in if is_empty s then later else s

-- A header that is empty or missing gives no key.
abbrev pub key_of_header : Bytes → Bytes
key_of_header v = if is_empty v then [] else sentry_key_from_auth_header v

-- `sentryKey`; the empty text stands for no key.
unfoldable pub sentry_key_of : Request → Bytes
unfolding value_of sentry_key_from_auth_header is_empty
sentry_key_of req = first_given (
    key_of_header (value_of (codes "X-Sentry-Auth") req.headers)
    ∷ key_of_header (value_of (codes "x-sentry-auth") req.headers)
    ∷ value_of sentry_key req.query
    ∷ [])
