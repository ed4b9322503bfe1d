-- ===== src/Outbox/Delivery.antt =====
-- internal/outbox/outbox.go: the keys of the outbox, under which a notification is stored once.
use ai_social_publisher.Common.{
  ℕ, ◌≡◌, refl, sym, subst, ap, ◌∙◌, String, Bool, true, false, some, List, [], ◌∷◌, ◌++◌, arith,
  str_eq, eq_refl, eq_iff, filter, Bool-cases, Option-cases, ◌==◌, inl, inr,
}
use ai_social_publisher.Rows.{Notification, OutboxRow, Db}
use ai_social_publisher.Exec.{ok}
use ai_social_publisher.Table.{find_by, put_by, find_by-key}
use ai_social_publisher.Outbox.{has_key, new_row, insert_row, update_row}

has_key-append :
    (key : String) (rows : List OutboxRow) (r : OutboxRow)
    → str_eq r.dedupe_key key ≡ true
    → has_key key (rows ++ r ∷ []) ≡ true
unfolding has_key
has_key-append key [] r h = rw h refl
has_key-append key (x ∷ xs) r h = elim (Bool-cases (str_eq x.dedupe_key key)) [
  | inl t ↦ rw t refl
  | inr t ↦ rw t (has_key-append key xs r h)
]

insert_row-has_key :
    (key : String) (n : Notification) (id now : ℕ) (a b : Db)
    → insert_row key n id now a ≡ ok (tt, b)
    → has_key key b.outbox ≡ true
unfolding insert_row
insert_row-has_key key n id now a b h = elim (Bool-cases (has_key key a.outbox)) [
  | inl t ↦ ground arith
  | inr t ↦
      let added : a.outbox ++ new_row key n id now ∷ [] ≡ b.outbox = ground arith in
      subst (λ rows. has_key key rows ≡ true) added
        (has_key-append key a.outbox (new_row key n id now) (eq_refl key))
]

-- After the statement of `Enqueue` under a key, a second one under the same key changes nothing,
-- whatever its notification, its id and its time, and a row with the key is there.
pub insert_row-idempotent :
    (key : String) (n m : Notification) (id now id' now' : ℕ) (a b : Db)
    → insert_row key n id now a ≡ ok (tt, b)
    → (has_key key b.outbox ≡ true) × (insert_row key m id' now' b ≡ ok (tt, b))
unfolding insert_row
insert_row-idempotent key n m id now id' now' a b h =
    let there = insert_row-has_key key n id now a b h in rw there (refl, refl)

-- No two rows have one key.
unfoldable pub UniqueKeys : List OutboxRow → Type 0
UniqueKeys [] = Unit
UniqueKeys (r ∷ rows) = (has_key r.dedupe_key rows ≡ false) × UniqueKeys rows

has_key-append_ne :
    (key : String) (rows : List OutboxRow) (r : OutboxRow)
    → has_key key rows ≡ false
    → str_eq r.dedupe_key key ≡ false
    → has_key key (rows ++ r ∷ []) ≡ false
unfolding has_key
has_key-append_ne key [] r h ne = rw ne refl
has_key-append_ne key (x ∷ xs) r h ne = elim (Bool-cases (str_eq x.dedupe_key key)) [
  | inl t ↦ absurd (ground arith)
  | inr t ↦ rw t (has_key-append_ne key xs r (ground arith) ne)
]

str_eq_ne : (a b : String) → str_eq a b ≡ false → str_eq b a ≡ false
str_eq_ne a b h = elim (Bool-cases (str_eq b a)) [
  | inr t ↦ t
  | inl t ↦
      let same : b ≡ a = (eq_iff b a).0 t in
      absurd (ground (arith, subst (λ x. str_eq a x ≡ false) same h, eq_refl a))
]

UniqueKeys-append :
    (rows : List OutboxRow) (r : OutboxRow)
    → UniqueKeys rows
    → has_key r.dedupe_key rows ≡ false
    → UniqueKeys (rows ++ r ∷ [])
unfolding UniqueKeys has_key
UniqueKeys-append [] r u h = (refl, tt)
UniqueKeys-append (x ∷ xs) r u h = elim (Bool-cases (str_eq x.dedupe_key r.dedupe_key)) [
  | inl t ↦ absurd (ground arith)
  | inr t ↦ (
    has_key-append_ne x.dedupe_key xs r u.0 (str_eq_ne x.dedupe_key r.dedupe_key t),
    UniqueKeys-append xs r u.1 (ground arith),
  )
]

has_key-filter :
    (key : String) (p : OutboxRow → Bool) (rows : List OutboxRow)
    → has_key key rows ≡ false
    → has_key key (filter p rows) ≡ false
unfolding has_key filter
has_key-filter key p [] h = h
has_key-filter key p (x ∷ xs) h = elim (Bool-cases (str_eq x.dedupe_key key)) [
  | inl t ↦ absurd (ground arith)
  | inr t ↦
      let rest = has_key-filter key p xs (ground arith) in
      elim (Bool-cases (p x)) [ inl k ↦ rw (k, t) rest | inr k ↦ rw k rest ]
]

UniqueKeys-filter :
    (p : OutboxRow → Bool) (rows : List OutboxRow) → UniqueKeys rows → UniqueKeys (filter p rows)
unfolding UniqueKeys filter
UniqueKeys-filter p [] u = tt
UniqueKeys-filter p (x ∷ xs) u = elim (Bool-cases (p x)) [
  | inl k ↦ rw k (has_key-filter x.dedupe_key p xs u.0, UniqueKeys-filter p xs u.1)
  | inr k ↦ rw k (UniqueKeys-filter p xs u.1)
]

has_key-put_by :
    (key : String) (a : OutboxRow) (rows : List OutboxRow) (b : OutboxRow)
    → find_by (λ (r : OutboxRow). r.id) a.id rows ≡ some b
    → a.dedupe_key ≡ b.dedupe_key
    → has_key key (put_by (λ (r : OutboxRow). r.id) a rows) ≡ has_key key rows
unfolding has_key find_by put_by
has_key-put_by key a [] b found same = refl
has_key-put_by key a (x ∷ xs) b found same = elim (Bool-cases (x.id == a.id)) [
  | inl t ↦
      let row : x ≡ b = ground arith in
      let keys : a.dedupe_key ≡ x.dedupe_key =
        same ∙ ap (λ (r : OutboxRow). r.dedupe_key) (sym row) in
      rw (t, keys) refl
  | inr t ↦ rw (t, has_key-put_by key a xs b (ground arith) same) refl
]

UniqueKeys-put_by :
    (a : OutboxRow) (rows : List OutboxRow) (b : OutboxRow)
    → find_by (λ (r : OutboxRow). r.id) a.id rows ≡ some b
    → a.dedupe_key ≡ b.dedupe_key
    → UniqueKeys rows
    → UniqueKeys (put_by (λ (r : OutboxRow). r.id) a rows)
unfolding UniqueKeys find_by put_by
UniqueKeys-put_by a [] b found same u = u
UniqueKeys-put_by a (x ∷ xs) b found same u = elim (Bool-cases (x.id == a.id)) [
  | inl t ↦
      let row : x ≡ b = ground arith in
      let keys : a.dedupe_key ≡ x.dedupe_key =
        same ∙ ap (λ (r : OutboxRow). r.dedupe_key) (sym row) in
      rw t (subst (λ k. has_key k xs ≡ false) (sym keys) u.0, u.1)
  | inr t ↦
      let rest : find_by (λ (r : OutboxRow). r.id) a.id xs ≡ some b = ground arith in
      rw t
        (has_key-put_by x.dedupe_key a xs b rest same ∙ u.0, UniqueKeys-put_by a xs b rest same u.1)
]

-- What the statements of the package do to the rows: an insertion under a key (`Enqueue`), a rewriting
-- of a row under its id and its key (the lease, `MarkSent`, `MarkFailed`, the dead mark), a deletion of
-- some rows (`PurgeSent`).
pub data Change (a : Db) : Db → Type 0 where
  inserted :
      {b : Db} (key : String) (n : Notification) (id now : ℕ)
      → insert_row key n id now a ≡ ok (tt, b)
      → Change a b
  rewritten :
      {b : Db} (id : ℕ) (f : OutboxRow → OutboxRow)
      → ((r : OutboxRow) → ((f r).id ≡ r.id) × ((f r).dedupe_key ≡ r.dedupe_key))
      → update_row id f a ≡ ok (tt, b)
      → Change a b
  deleted : {b : Db} (p : OutboxRow → Bool) → b.outbox ≡ filter p a.outbox → Change a b

-- If no two rows of the outbox have one key, then none have after an insertion under any key, a
-- rewriting of a row that keeps its id and key, or a deletion of rows.
pub keys-stay_unique : (a b : Db) → UniqueKeys a.outbox → Change a b → UniqueKeys b.outbox
unfolding insert_row update_row
keys-stay_unique a b u (inserted key n id now h) = elim (Bool-cases (has_key key a.outbox)) [
  | inl t ↦ let same : a.outbox ≡ b.outbox = ground arith in subst UniqueKeys same u
  | inr t ↦
      let added : a.outbox ++ new_row key n id now ∷ [] ≡ b.outbox = ground arith in
      subst UniqueKeys added (UniqueKeys-append a.outbox (new_row key n id now) u t)
]
keys-stay_unique a b u (rewritten id f keeps h) =
    elim (Option-cases (find_by (λ (r : OutboxRow). r.id) id a.outbox)) [
      | inl absent ↦ let same : a.outbox ≡ b.outbox = ground arith in subst UniqueKeys same u
      | inr (r, found) ↦
          let put : put_by (λ (r : OutboxRow). r.id) (f r) a.outbox ≡ b.outbox = ground arith in
          let key : (f r).id ≡ id =
            (keeps r).0 ∙ find_by-key (λ (r : OutboxRow). r.id) id a.outbox r found in
          subst UniqueKeys put (
            UniqueKeys-put_by (f r) a.outbox r
              (subst (λ k. find_by (λ (r : OutboxRow). r.id) k a.outbox ≡ some r) (sym key) found)
              (keeps r).1 u)
    ]
keys-stay_unique a b u (deleted p same) =
    subst UniqueKeys (sym same) (UniqueKeys-filter p a.outbox u)
