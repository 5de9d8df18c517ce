-- ===== src/Ledger/Reading.antt =====
-- The loop that `read_fills` (src/morai/ledger/fills.py) and `read_events` (src/morai/ledger/events.py)
-- share: the rows of a user, each opened under the data key of its own version, with a dict of the keys that
-- were unwrapped.
use morai_trading_dashboard.Prelude.{
  ◌++◌, Error, value_error, data_key_missing, or_raise, one_or_none, bind, map_ok, beq→eq, ℕ, ◌&&◌,
  Option, none, some, List, [], ◌∷◌, ◌≡◌, refl, sym, ap, ◌∙◌, ◌⊎◌, inl, inr, if◌then◌else◌, ◌==◌,
  nat_eq, text_eq, Result, ok, err, Uuid, keep, Bool-cases, Option-cases, Result-cases,
}
use morai_trading_dashboard.Outside.{Outside}
use morai_trading_dashboard.Db.{Bytes}
use morai_trading_dashboard.Db.Session.{Session, permits}
use morai_trading_dashboard.Crypto.{unwrap_dek}
use morai_trading_dashboard.Db.{UserDataKey}

abbrev key_row : Session → Uuid → ℕ → Result (Option UserDataKey)
key_row s user_id key_version = one_or_none (
    keep (λ k. permits s k.user_id && (k.user_id == user_id && k.key_version == key_version))
      s.db.user_data_keys)

-- The data key of one version: DataKeyMissing without its row.
unfoldable pub fetch_dek : Outside → Session → Uuid → ℕ → Result Bytes
fetch_dek o s user_id key_version = bind (key_row s user_id key_version) (λ found.
    bind (or_raise found data_key_missing)
      (λ row. unwrap_dek o row.wrapped_dek row.wrap_nonce o.master_key))

-- `dek_cache`
abbrev Cache : Type 0
Cache = List (ℕ × Bytes)

unfoldable pub cached : Cache → ℕ → Option Bytes
cached [] v = none
cached (e ∷ cache) v = if e.0 == v then some e.1 else cached cache v

-- The key of a version and the dict after its lookup.
abbrev look_up : (ℕ → Result Bytes) → Cache → ℕ → Option Bytes → Result (Bytes × Cache)
look_up fetch cache v none = map_ok (λ dek. (dek, (v, dek) ∷ cache)) (fetch v)
look_up fetch cache v (some dek) = ok (dek, cache)

module _ {R A : Type 0} (fetch : ℕ → Result Bytes) (version : R → ℕ)
    (open_row : Bytes → R → Result A) where
  -- The loop over the rows.
  unfoldable pub read_rows : Cache → List R → Result (List A)
  unfolding cached
  read_rows cache [] = ok []
  read_rows cache (row ∷ rows) =
      bind (look_up fetch cache (version row) (cached cache (version row)))
        (λ p. bind (open_row p.0 row) (λ a. map_ok (λ rest. a ∷ rest) (read_rows p.1 rows)))

  -- Each row by itself, with its key fetched anew.
  unfoldable pub read_each : List R → Result (List A)
  read_each [] = ok []
  read_each (row ∷ rows) =
      bind (fetch (version row))
        (λ dek. bind (open_row dek row) (λ a. map_ok (λ rest. a ∷ rest) (read_each rows)))

  -- The dict holds what a fetch would give.
  abbrev Sound : Cache → Type 0
  Sound cache = (v : ℕ) (dek : Bytes) → cached cache v ≡ some dek → fetch v ≡ ok dek

  Sound-add :
      (cache : Cache) (v : ℕ) (dek : Bytes)
      → Sound cache
      → fetch v ≡ ok dek
      → Sound ((v, dek) ∷ cache)
  unfolding cached
  Sound-add cache v dek sound e w d h = elim (Bool-cases (v == w)) [
    | inl same ↦
        let d_is : some dek ≡ some d =
          sym (ap (λ b. if b then some dek else cached cache w) same) ∙ h in
        ap fetch (sym (beq→eq v w same)) ∙ e ∙ ap (λ o. or_raise o value_error) d_is
    | inr other ↦ sound w d (sym (ap (λ b. if b then some dek else cached cache w) other) ∙ h)
  ]

  look_up-fetch :
      (cache : Cache) (v : ℕ)
      → Sound cache
      → ((x : Error) × (fetch v ≡ err x) × (look_up fetch cache v (cached cache v) ≡ err x))
        ⊎ ((dek : Bytes) × (next : Cache) × (fetch v ≡ ok dek)
            × (look_up fetch cache v (cached cache v) ≡ ok (dek, next))
            × Sound next)
  look_up-fetch cache v sound = elim (Option-cases (cached cache v)) [
    | inl new ↦ elim (Result-cases (fetch v)) [
      | inl (dek, e) ↦ inr (
        dek,
        (v, dek) ∷ cache,
        e,
        ap (look_up fetch cache v) new ∙ ap (map_ok (λ dek. (dek, (v, dek) ∷ cache))) e,
        Sound-add cache v dek sound e,
      )
      | inr (x, e) ↦
          inl
            (x, e, ap (look_up fetch cache v) new ∙ ap (map_ok (λ dek. (dek, (v, dek) ∷ cache))) e)
    ]
    | inr (dek, h) ↦ inr (dek, cache, sound v dek h, ap (look_up fetch cache v) h, sound)
  ]

  -- With a dict that is right, the loop gives what the rows give one by one, errors included.
  pub read_rows-each :
      (cache : Cache) (rows : List R) → Sound cache → read_rows cache rows ≡ read_each rows
  unfolding read_rows read_each
  read_rows-each cache [] sound = refl
  read_rows-each cache (row ∷ rows) sound =
      let each : Result Bytes → Result (List A) = λ r.
        bind r (λ dek. bind (open_row dek row) (λ a. map_ok (λ rest. a ∷ rest) (read_each rows))) in
      let looked : Result (Bytes × Cache) → Result (List A) = λ r.
        bind r
          (λ p. bind (open_row p.0 row) (λ a. map_ok (λ rest. a ∷ rest) (read_rows p.1 rows))) in
      elim (look_up-fetch cache (version row) sound) [
        | inl (x, f, l) ↦ ap looked l ∙ sym (ap each f)
        | inr (dek, next, f, l, sound') ↦
            ap looked l
            ∙ ap (λ r. bind (open_row dek row) (λ a. map_ok (λ rest. a ∷ rest) r))
                (read_rows-each next rows sound')
            ∙ sym (ap each f)
      ]

  -- The loop starts with an empty dict.
  pub read_rows-fresh : (rows : List R) → read_rows [] rows ≡ read_each rows
  unfolding cached
  read_rows-fresh rows = read_rows-each [] rows (λ v dek h. cc)

  pub read_each-cons :
      (row : R) (rows : List R) (dek : Bytes) (a : A) (later : List A)
      → fetch (version row) ≡ ok dek
      → open_row dek row ≡ ok a
      → read_each rows ≡ ok later
      → read_each (row ∷ rows) ≡ ok (a ∷ later)
  unfolding read_each
  read_each-cons row rows dek a later f r h =
      ap
        (λ x.
          bind x (λ dek. bind (open_row dek row) (λ a. map_ok (λ rest. a ∷ rest) (read_each rows))))
        f
      ∙ ap (λ x. bind x (λ a. map_ok (λ rest. a ∷ rest) (read_each rows))) r
      ∙ ap (map_ok (λ rest. a ∷ rest)) h

  first_then :
      (r : Result A) (p q : Result (List A))
      → bind r (λ a. map_ok (λ rest. a ∷ rest) (bind p (λ xs. map_ok (λ ys. xs ++ ys) q)))
        ≡ bind (bind r (λ a. map_ok (λ rest. a ∷ rest) p)) (λ xs. map_ok (λ ys. xs ++ ys) q)
  first_then (err e) p q = refl
  first_then (ok a) (err e) q = refl
  first_then (ok a) (ok xs) (err e) = refl
  first_then (ok a) (ok xs) (ok ys) = refl

  key_then :
      (f : Result Bytes) (g : Bytes → Result A) (p q : Result (List A))
      → bind f (λ dek.
        bind (g dek) (λ a. map_ok (λ rest. a ∷ rest) (bind p (λ xs. map_ok (λ ys. xs ++ ys) q))))
        ≡ bind
            (bind f (λ dek. bind (g dek) (λ a. map_ok (λ rest. a ∷ rest) p)))
            (λ xs. map_ok (λ ys. xs ++ ys) q)
  key_then (err e) g p q = refl
  key_then (ok dek) g p q = first_then (g dek) p q

  map_ok-nil : (q : Result (List A)) → q ≡ map_ok (λ ys. [] ++ ys) q
  map_ok-nil (err e) = refl
  map_ok-nil (ok ys) = refl

  -- The rows of two lists are read one after the other.
  read_each-append :
      (xs ys : List R)
      → read_each (xs ++ ys)
        ≡ bind (read_each xs) (λ first. map_ok (λ later. first ++ later) (read_each ys))
  unfolding read_each
  read_each-append [] ys = map_ok-nil (read_each ys)
  read_each-append (x ∷ xs) ys =
      ap
        (λ r.
          bind (fetch (version x))
            (λ dek. bind (open_row dek x) (λ a. map_ok (λ rest. a ∷ rest) r)))
        (read_each-append xs ys)
      ∙ key_then (fetch (version x)) (λ dek. open_row dek x) (read_each xs) (read_each ys)

  pub read_each-both :
      (xs ys : List R) (first later : List A)
      → read_each xs ≡ ok first
      → read_each ys ≡ ok later
      → read_each (xs ++ ys) ≡ ok (first ++ later)
  read_each-both xs ys first later h k =
      read_each-append xs ys
      ∙ ap (λ r. bind r (λ first. map_ok (λ later. first ++ later) (read_each ys))) h
      ∙ ap (map_ok (λ later. first ++ later)) k
