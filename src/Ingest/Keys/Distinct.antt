-- ===== src/Ingest/Keys/Distinct.antt =====
-- The keys of different items of one request, and of their envelope.
use serverless_error_ingest.Decimal.{decimal, decimal-injective, decimal-Lacks}
use serverless_error_ingest.Text.{after_last, cut_byte, cut_byte-Lacks}
use serverless_error_ingest.Ingest.Dsn.{after_last-append}
use serverless_error_ingest.Ingest.Keys.{sort_key_of, item_key, envelope_key}
use serverless_error_ingest.Base.{
  ℕ, zero, suc, ◌≡◌, refl, sym, ap, ◌∙◌, ◌≢◌, inl, false, Option, none, some, [], ◌∷◌, ◌++◌,
  append_assoc, arith, ◌==◌, Bytes, codes, length, length-append,
}

append-cancel : (s x y : Bytes) → s ++ x ≡ s ++ y → x ≡ y
append-cancel [] x y e = e
append-cancel (c ∷ s) x y e = append-cancel s x y cc

hash_last :
    (id t : Bytes) (i : ℕ)
    → after_last b'#' (id ++ (b'#' ∷ (t ++ (b'#' ∷ decimal i)))) ≡ some (decimal i)
hash_last id t i = rw (← append_assoc id (b'#' ∷ t) (b'#' ∷ decimal i)) (
    after_last-append b'#' (id ++ (b'#' ∷ t)) (decimal i)
      (decimal-Lacks b'#' i (inl (omega arith))))

some-injective : {a b : Bytes} → some a ≡ some b → a ≡ b
some-injective e = cc

longer : (id x : Bytes) (c : ℕ) → id ≢ id ++ (c ∷ x)
longer id x c e = omega (arith, ap (length {0}) e, length-append {0} id (c ∷ x))

sort_key_suc :
    (id t : Bytes) (i : ℕ)
    → sort_key_of id t (suc i) ≡ id ++ (b'#' ∷ (t ++ (b'#' ∷ decimal (suc i))))
unfolding sort_key_of
sort_key_suc id t i =
    let later : (suc i == 0) ≡ false = ground arith in rw (later, sort_key_of) refl

sort_key_zero : (id t : Bytes) → sort_key_of id t zero ≡ id
unfolding sort_key_of
sort_key_zero id t = refl

sort_key_last :
    (id t : Bytes) (i : ℕ) → after_last b'#' (sort_key_of id t (suc i)) ≡ some (decimal (suc i))
sort_key_last id t i = rw (sort_key_suc id t i) (hash_last id t (suc i))

-- The sort keys of two items of a request are equal only for one and the same item, whatever their
-- types hold.
pub sort_key_of-injective :
    (id t u : Bytes) (i j : ℕ) → sort_key_of id t i ≡ sort_key_of id u j → i ≡ j
sort_key_of-injective id t u zero zero e = refl
sort_key_of-injective id t u zero (suc j) e =
    absurd (longer id _ b'#' (sym (sort_key_zero id t) ∙ e ∙ sort_key_suc id u j))
sort_key_of-injective id t u (suc i) zero e =
    absurd (longer id _ b'#' (sym (sort_key_zero id u) ∙ sym e ∙ sort_key_suc id t i))
sort_key_of-injective id t u (suc i) (suc j) e =
    decimal-injective (suc i) (suc j)
      (some-injective (sym (sort_key_last id t i) ∙ ap (after_last b'#') e ∙ sort_key_last id u j))

abbrev cut_left : Option (Bytes × Bytes) → Bytes
cut_left none = []
cut_left (some (l, r)) = l

abbrev cut_right : Option (Bytes × Bytes) → Bytes
cut_right none = []
cut_right (some (l, r)) = r

abbrev head_of : Bytes → ℕ
head_of [] = 0
head_of (c ∷ s) = c

dash_first : (i : ℕ) (t : Bytes) → cut_byte b'-' (decimal i ++ (b'-' ∷ t)) ≡ some (decimal i, t)
dash_first i t = cut_byte-Lacks b'-' (decimal i) t (decimal-Lacks b'-' i (inl (omega arith)))

-- Behind the common part of the keys of a request.
item_tail :
    (pid date id : Bytes) (i : ℕ) (t : Bytes)
    → item_key pid date id i t
      ≡ ((codes "projects/" ++ (pid ++ (b'/' ∷ (date ++ (b'/' ∷ id))))) ++ codes "/items/")
        ++ (decimal i ++ (b'-' ∷ t))
unfolding item_key
item_tail pid date id i t = simp (append_assoc)

-- The S3 keys of two items of a request are equal only for one and the same item of one type.
pub item_key-injective :
    (pid date id t u : Bytes) (i j : ℕ)
    → item_key pid date id i t ≡ item_key pid date id j u
    → (i ≡ j) × (t ≡ u)
item_key-injective pid date id t u i j e =
    let front = (codes "projects/" ++ (pid ++ (b'/' ∷ (date ++ (b'/' ∷ id))))) ++ codes "/items/" in
    let tails =
      append-cancel front _ _ (sym (item_tail pid date id i t) ∙ e ∙ item_tail pid date id j u) in
    let cuts = sym (dash_first i t) ∙ ap (cut_byte b'-') tails ∙ dash_first j u in
    (decimal-injective i j (ap (cut_left) cuts), ap cut_right cuts)

envelope_tail :
    (pid date id : Bytes)
    → envelope_key pid date id
      ≡ (codes "projects/" ++ (pid ++ (b'/' ∷ (date ++ (b'/' ∷ id))))) ++ codes ".envelope"
unfolding envelope_key
envelope_tail pid date id = simp append_assoc

-- No item is stored under the key of its envelope.
pub item_key-ne-envelope_key :
    (pid date id : Bytes) (i : ℕ) (t : Bytes) → item_key pid date id i t ≢ envelope_key pid date id
item_key-ne-envelope_key pid date id i t e =
    let front = codes "projects/" ++ (pid ++ (b'/' ∷ (date ++ (b'/' ∷ id)))) in
    let items = item_tail pid date id i t ∙ append_assoc front (codes "/items/") _ in
    let tails = append-cancel front _ _ (sym items ∙ e ∙ envelope_tail pid date id) in
    absurd (omega (arith, ap head_of tails))
