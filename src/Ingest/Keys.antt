-- ===== src/Ingest/Keys.antt =====
-- Storage keys of lambda/ingest/main.go: `sanitizeItemType`, `sortKeyOf`, and the S3 keys of `persist`.
pub mod Safe
pub mod Distinct
use serverless_error_ingest.Decimal.{decimal, decimal-injective, decimal-Lacks}
use serverless_error_ingest.Text.{trim_space, Lacks}
use serverless_error_ingest.Base.{
  ℕ, ◌&&◌, ◌||◌, [], ◌∷◌, ◌++◌, ◌==◌, if◌then◌else◌, Bytes, codes, is_empty,
}

abbrev pub underscore : ℕ
underscore = b'_'

-- A byte with no dot behind it.
abbrev pub cleaned : ℕ → ℕ
cleaned c = if c == b'/' || c == b'\\' then underscore else c

-- `strings.NewReplacer("/", "_", "\\", "_", "..", "_").Replace`: at each position the first match.
unfoldable pub replace_special : Bytes → Bytes
replace_special [] = []
replace_special (c ∷ []) = cleaned c ∷ []
replace_special (c ∷ d ∷ s) =
    let behind = replace_special s in
    let next = replace_special (d ∷ s) in
    if c == b'.' && d == b'.' then underscore ∷ behind else cleaned c ∷ next

-- `sanitizeItemType`
unfoldable pub sanitize_item_type : Bytes → Bytes
unfolding trim_space is_empty replace_special
sanitize_item_type t =
    let s = trim_space t in if is_empty s then codes "unknown" else replace_special s

-- `sortKeyOf`
unfoldable pub sort_key_of : Bytes → Bytes → ℕ → Bytes
unfolding decimal
sort_key_of event_id item_type seq =
    if seq == 0 then event_id else event_id ++ (b'#' ∷ (item_type ++ (b'#' ∷ decimal seq)))

-- `projects/%s/%s/%s.envelope`
unfoldable pub envelope_key : Bytes → Bytes → Bytes → Bytes
envelope_key project_id date event_id =
    codes "projects/" ++ (project_id ++ (b'/' ∷ (date ++ (b'/' ∷ (event_id ++ codes ".envelope")))))

-- `projects/%s/%s/%s/items/%d-%s`
unfoldable pub item_key : Bytes → Bytes → Bytes → ℕ → Bytes → Bytes
unfolding decimal
item_key project_id date event_id seq item_type =
    codes "projects/"
    ++ (project_id
        ++ (b'/'
            ∷ (date
                ++ (b'/'
                    ∷ (event_id ++ (codes "/items/" ++ (decimal seq ++ (b'-' ∷ item_type))))))))
