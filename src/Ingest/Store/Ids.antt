-- ===== src/Ingest/Store/Ids.antt =====
-- The ids of the rows: an upsert keeps those that are there, and gives each new row its own.
use go_espn_api.Prelude.{
  ℕ, ◌+◌, ◌<◌, ◌≡◌, ◌↔◌, refl, sym, ◌∙◌, ap, Bool, true, false, Option, none, some, arith,
  if◌then◌else◌, inl, inr, ◌⊎◌, Bool-cases, Option-cases,
}
use go_espn_api.Ingest.Store.{Row, Table, find_row, upsert, get_or_create}
use go_espn_api.Ingest.Store.Laws.{find-write, find-append, upsert-none, upsert-some}

abbrev id_of_row {ℓ} : {K V : Type ℓ} → Option (Row K V) → Option ℕ
id_of_row none = none
id_of_row (some r) = some r.id

id_of_row-if {ℓ} :
    {K V : Type ℓ} (b : Bool) (r : Row K V) (o : Option (Row K V))
    → id_of_row (if b then some r else o) ≡ (if b then some r.id else id_of_row o)
id_of_row-if true r o = refl
id_of_row-if false r o = refl

-- The id under a key.
abbrev pub id_at {ℓ} : {K V : Type ℓ} → (K → K → Bool) → K → Table K V → Option ℕ
id_at eq k t = id_of_row (find_row eq k t.rows)

module _ {ℓ} {K V : Type ℓ} (eq : K → K → Bool) where
  -- The rows of the first table stand in the second one under their keys and ids.
  abbrev pub IsGrown : Table K V → Table K V → Type ℓ
  IsGrown t t' = (j : K) (i : ℕ) → id_at eq j t ≡ some i → id_at eq j t' ≡ some i

  -- The rows of the first table stand unchanged in the second one.
  abbrev pub IsExtended : Table K V → Table K V → Type ℓ
  IsExtended t t' =
      (j : K) (r : Row K V) → find_row eq j t.rows ≡ some r → find_row eq j t'.rows ≡ some r

  -- Every id was given out by the table, and no two keys share one: id is the primary key.
  pub record HasIds (t : Table K V) : Type ℓ where
    pub below : (j : K) (i : ℕ) → id_at eq j t ≡ some i → i < t.next
    pub apart : (j k : K) (i : ℕ) → id_at eq j t ≡ some i → id_at eq k t ≡ some i → j ≡ k

module _ {ℓ} {K V : Type ℓ} (eq : K → K → Bool)
    (eq_iff : (a b : K) → (eq a b ≡ true) ↔ (a ≡ b)) where
  -- What an upsert leaves under a key's id.
  pub upsert-id :
      (k j : K) (v : V) (t : Table K V)
      → id_at eq j (upsert eq k v t).1
        ≡ (if eq k j then some (upsert eq k v t).0.id else id_at eq j t)
  upsert-id k j v t = elim (Option-cases (find_row eq k t.rows)) [
    | inl h ↦
        rw
          (
            upsert-none eq eq_iff k v t h,
            find-append eq eq_iff k j v t.next t.rows h,
            id_of_row-if (eq k j),
          )
          refl
    | inr (r, h) ↦
        rw
          (
            upsert-some eq eq_iff k v t r h,
            find-write eq eq_iff k j v t.rows r h,
            id_of_row-if (eq k j),
          )
          refl
  ]

  pub upsert-old :
      (k : K) (i : ℕ) (v : V) (t : Table K V) → id_at eq k t ≡ some i → (upsert eq k v t).0.id ≡ i
  upsert-old k i v t h = elim (Option-cases (find_row eq k t.rows)) [
    | inl n ↦ absurd (ground (arith, n))
    | inr (r, e) ↦ rw (upsert-some eq eq_iff k v t r e) (ground (arith, e))
  ]

  pub upsert-IsGrown : (k : K) (v : V) (t : Table K V) → IsGrown eq t (upsert eq k v t).1
  upsert-IsGrown k v t j i h = elim (Bool-cases (eq k j)) [
    | inl y ↦
        let e : k ≡ j = (eq_iff k j).0 y in
        rw (upsert-id k j v t, y) (ap some (upsert-old k i v t (rw e h)))
    | inr n ↦ rw (upsert-id k j v t, n) h
  ]

  pub upsert-id_at :
      (k : K) (v : V) (t : Table K V) → id_at eq k (upsert eq k v t).1 ≡ some (upsert eq k v t).0.id
  upsert-id_at k v t = let y : eq k k ≡ true = (eq_iff k k).1 refl in rw (upsert-id k k v t, y) refl

  -- The id that an upsert reports: a new one, or that of the key.
  upsert-new :
      (k : K) (v : V) (t : Table K V)
      → (((upsert eq k v t).0.id ≡ t.next) × (id_at eq k t ≡ none))
        ⊎ (id_at eq k t ≡ some (upsert eq k v t).0.id)
  upsert-new k v t = elim (Option-cases (find_row eq k t.rows)) [
    | inl h ↦ inl (rw (upsert-none eq eq_iff k v t h) refl, rw h refl)
    | inr (r, h) ↦ inr (rw (upsert-some eq eq_iff k v t r h, h) refl)
  ]

  upsert-next : (k : K) (v : V) (t : Table K V) → (upsert eq k v t).1.next ≡ t.next + 1
  upsert-next k v t = elim (Option-cases (find_row eq k t.rows)) [
    | inl h ↦ rw (upsert-none eq eq_iff k v t h) refl
    | inr (r, h) ↦ rw (upsert-some eq eq_iff k v t r h) refl
  ]

  pub upsert-HasIds : (k : K) (v : V) (t : Table K V) → HasIds eq t → HasIds eq (upsert eq k v t).1
  upsert-HasIds k v t w = record {
    below = λ j i h.
        let e = upsert-next k v t in
        let d = sym (upsert-id k j v t) ∙ h in
        elim (upsert-new k v t) [
          | inl (n, o) ↦ ground (arith, d, e, n, w.below j i)
          | inr o ↦ ground (arith, d, e, o, w.below j i, w.below k i)
        ];
    apart = λ j m i h g.
        let d = sym (upsert-id k j v t) ∙ h in
        let c = sym (upsert-id k m v t) ∙ g in
        elim (upsert-new k v t) [
          | inl (n, o) ↦
              ground
                (arith, d, c, n, w.below j i, w.below m i, w.apart j m i, eq_iff k j, eq_iff k m)
          | inr o ↦
              ground (
                arith,
                d,
                c,
                o,
                w.apart j m i,
                w.apart k m i,
                w.apart j k i,
                eq_iff k j,
                eq_iff k m,
              )
        ];
  }

  -- A row that is there stays as it is when another is asked for.
  pub get_or_create-keeps :
      (k j : K) (v : V) (t : Table K V) (r : Row K V)
      → find_row eq j t.rows ≡ some r
      → find_row eq j (get_or_create eq k v t).1.rows ≡ some r
  unfolding get_or_create
  get_or_create-keeps k j v t r h = elim (Option-cases (find_row eq k t.rows)) [
    | inl n ↦ rw (n, find-append eq eq_iff k j v t.next t.rows n) (ground (arith, eq_iff k j))
    | inr (x, e) ↦ rw (e, find-write eq eq_iff k j x.value t.rows x e) (ground (arith, eq_iff k j))
  ]

  -- It is an upsert of the value that is there, or of a new one.
  get_or_create-upsert :
      (k : K) (v : V) (t : Table K V) → (w : V) × (get_or_create eq k v t ≡ upsert eq k w t)
  unfolding get_or_create upsert
  get_or_create-upsert k v t = elim (Option-cases (find_row eq k t.rows)) [
    | inl n ↦ (v, rw n refl)
    | inr (x, e) ↦ (x.value, rw e refl)
  ]

  pub get_or_create-id_at :
      (k : K) (v : V) (t : Table K V)
      → id_at eq k (get_or_create eq k v t).1 ≡ some (get_or_create eq k v t).0.id
  get_or_create-id_at k v t = let (w, e) = get_or_create-upsert k v t in rw e (upsert-id_at k w t)

  pub extended-IsGrown : (t t' : Table K V) → IsExtended eq t t' → IsGrown eq t t'
  extended-IsGrown t t' x j i h = elim (Option-cases (find_row eq j t.rows)) [
    | inl n ↦ absurd (ground (arith, n))
    | inr (r, e) ↦ rw (x j r e) (ground (arith, e))
  ]
