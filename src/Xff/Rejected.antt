-- ===== src/Xff/Rejected.antt =====
-- When Parse fails.
use hegel.Base.{
  ℕ, ◌≡◌, ◌≢◌, ◌↔◌, inl, inr, refl, sym, ◌∙◌, ap, Bool-cases, Option, none, some, List, [], ◌∷◌,
  ◌++◌, Memᴰ, Text, text_eq, text_eq_iff, text_eq-ne, bytes,
}
use hegel.Strings.{split}
use hegel.Strings.Space.{trim_space}
use hegel.Errors.{GoError, text, Result, ok, err, ◌>>=◌}
use hegel.Net.Addr.{Addr, parse_ip}
use hegel.Net.Addr.Cidr.{parse_cidr}
use hegel.Xff.{by_ip, by_cidr, parse_item, append_some, parse_from, parse}

-- The item is not empty, and neither a CIDR block nor an address.
abbrev pub IsBad : Text → Type 0
IsBad c = (c ≢ []) × (parse_cidr c ≡ none) × (parse_ip c ≡ none)

parse_item_bad :
    (c : Text) → IsBad c → parse_item c ≡ err (text (bytes "invalid cidr or ip: " ++ c))
unfolding parse_item by_cidr by_ip
parse_item_bad c (n, no_cidr, no_ip) = rw (text_eq-ne c [] n, no_cidr, no_ip) refl

IsBad-of_err : (c : Text) (e : GoError) → parse_item c ≡ err e → IsBad c
unfolding parse_item by_cidr by_ip
IsBad-of_err c e h = elim (Bool-cases (text_eq c [])) [
  | inl t ↦ cc (let k : ok none ≡ err e = rw t at h in k)
  | inr f ↦
      let (no_cidr, no_ip) = known (parse_cidr c) refl (rw f at h) in
      (λ z. cc ((text_eq_iff c []).1 z), no_cidr, no_ip)
]
  where
    single : (o : Option (List ℕ)) → parse_ip c ≡ o → by_ip c o ≡ err e → parse_ip c ≡ none
    single none p h = p
    single (some ip) p h = cc

    known :
        (o : Option (Addr × ℕ))
        → parse_cidr c ≡ o
        → by_cidr c o ≡ err e
        → (parse_cidr c ≡ none) × (parse_ip c ≡ none)
    known none p h = (p, single (parse_ip c) refl h)
    known (some b) p h = cc

abbrev Fails : Result (List Text) → Type 0
Fails r = (e : GoError) × (r ≡ err e)

parse_from-Fails :
    (result items : List Text) (c : Text)
    → Memᴰ c items
    → IsBad (trim_space c)
    → Fails (parse_from result items)
unfolding parse_from
parse_from-Fails result [] c m bad = elim m [ ]
parse_from-Fails result (d ∷ items) c (Memᴰ.head same) bad =
    let e = text (bytes "invalid cidr or ip: " ++ trim_space c) in
    let failed : parse_item (trim_space d) ≡ err e =
      ap (λ x. parse_item (trim_space x)) (sym same) ∙ parse_item_bad (trim_space c) bad in
    (e, ap (λ r. r >>= λ item. parse_from (append_some result item) items) failed)
parse_from-Fails result (d ∷ items) c (Memᴰ.tail m) bad =
    go (parse_item (trim_space d)) λ item. parse_from-Fails (append_some result item) items c m bad
  where
    go :
        (r : Result (Option Text))
        → ((item : Option Text) → Fails (parse_from (append_some result item) items))
        → Fails (r >>= λ item. parse_from (append_some result item) items)
    go (err e) ih = (e, refl)
    go (ok item) ih = ih item

IsBad-of_Fails :
    (result items : List Text)
    → Fails (parse_from result items)
    → (c : Text) × Memᴰ c items × IsBad (trim_space c)
unfolding parse_from
IsBad-of_Fails result [] (e, h) = cc
IsBad-of_Fails result (d ∷ items) (e, h) =
    go (parse_item (trim_space d)) refl h λ item f. IsBad-of_Fails (append_some result item) items f
  where
    go :
        (r : Result (Option Text))
        → parse_item (trim_space d) ≡ r
        → (r >>= λ item. parse_from (append_some result item) items) ≡ err e
        → ((item : Option Text)
            → Fails (parse_from (append_some result item) items)
            → (c : Text) × Memᴰ c items × IsBad (trim_space c))
        → (c : Text) × Memᴰ c (d ∷ items) × IsBad (trim_space c)
    go (err x) p h ih = (d, Memᴰ.head refl, IsBad-of_err (trim_space d) x p)
    go (ok item) p h ih = let (c, m, bad) = ih item (e, h) in (c, Memᴰ.tail m, bad)

-- Parse fails exactly when some item between the commas is, without the spaces around it, not empty
-- and neither a CIDR block nor an address.
pub parse-err_iff :
    (s : Text)
    → ((e : GoError) × (parse s ≡ err e))
      ↔ ((c : Text) × Memᴰ c (split b',' s) × IsBad (trim_space c))
unfolding parse
parse-err_iff s = (
  λ h. IsBad-of_Fails [] (split b',' s) h,
  λ (c, m, bad). parse_from-Fails [] (split b',' s) c m bad,
)
