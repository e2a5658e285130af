-- ===== src/Sqlite/Laws.antt =====
-- What inserting and updating keep of a table.
use torq_pro.Prelude.{
  ◌≡◌, refl, ℕ, ◌+◌, ◌≤◌, ◌<◌, Bool, true, false, ◌&&◌, some, List, [], ◌∷◌, ◌++◌, map, find,
  filter, eqb, if◌then◌else◌, All, All-image, All-map, All-both, some-inj, eqb-eq, sym, subst, ◌∙◌,
  All-find, Ordered, Ordered-image, Ordered-snoc, Bool-cases, inl, inr, arith, find-passes,
}
use mathlib.Core.Option
use torq_pro.Sqlite.{HasKey, max_of, next_id, fetch, update}

-- A number above those of the rows that are selected by `b` is the number of none of them.
pub numbered_apart : (a b n m : ℕ) → (eqb a b ≡ true → n ≤ m) → (eqb a b && eqb n (m + 1)) ≡ false
numbered_apart a b n m below = elim (Bool-cases (eqb a b)) [
  | inl t ↦ rw t (ground (arith, below t))
  | inr t ↦ rw t refl
]

module _ {A : Type 0} where
  pub max_of-All : (f : A → ℕ) (rows : List A) → All (λ r. f r ≤ max_of f rows) rows
  unfolding max_of
  max_of-All f [] = tt
  max_of-All f (x ∷ xs) = (
    ground arith,
    All-map (λ r. f r ≤ max_of f xs) (λ r. f r ≤ max_of f (x ∷ xs)) (λ r h. ground (arith, h)) xs
        (max_of-All f xs),
  )

  -- The same for the rows that a condition selects.
  pub max_of-selected :
      (p : A → Bool) (f : A → ℕ) (rows : List A)
      → All (λ r. p r ≡ true → f r ≤ max_of f (filter p rows)) rows
  unfolding max_of filter
  max_of-selected p f [] = tt
  max_of-selected p f (x ∷ xs) = (
    λ h. ground (arith, h),
    All-map (λ r. p r ≡ true → f r ≤ max_of f (filter p xs))
        (λ r. p r ≡ true → f r ≤ max_of f (filter p (x ∷ xs))) (λ r h t. ground (arith, h t)) xs
        (max_of-selected p f xs),
  )

  module _ ⦃k : HasKey A⦄ where
    -- Ids ascend.
    abbrev pub IsKeyed : List A → Type 0
    IsKeyed rows = Ordered (λ a b. k.key a < k.key b) rows

    All-lt-next_id : (rows : List A) → All (λ r. k.key r < next_id rows) rows
    unfolding next_id
    All-lt-next_id rows =
        All-map (λ r. k.key r ≤ max_of k.key rows) (λ r. k.key r < max_of k.key rows + 1)
          (λ r h. omega arith) rows (max_of-All k.key rows)

    pub snoc-IsKeyed :
        (rows : List A) (r : A) → k.key r ≡ next_id rows → IsKeyed rows → IsKeyed (rows ++ r ∷ [])
    snoc-IsKeyed rows r e h =
        Ordered-snoc (λ a b. k.key a < k.key b) rows r
          (All-map (λ a. k.key a < next_id rows) (λ a. k.key a < k.key r) (λ a lt. rw e lt) rows
            (All-lt-next_id rows))
          h

    pub fetch-key : (id : ℕ) (rows : List A) (r : A) → fetch id rows ≡ some r → k.key r ≡ id
    unfolding fetch
    fetch-key id rows r h = ground (arith, find-passes (λ r. eqb (k.key r) id) rows r h)

    fetch-snoc_lt :
        (id : ℕ) (rows : List A) (r : A)
        → All (λ a. k.key a < k.key r) rows
        → fetch id (rows ++ r ∷ []) ≡ (if eqb (k.key r) id then some r else fetch id rows)
    unfolding fetch find
    fetch-snoc_lt id [] r h = refl
    fetch-snoc_lt id (x ∷ xs) r h = ground (arith, h.0, fetch-snoc_lt id xs r h.1)

    -- The new row is fetched under its own id, and no other is.
    pub fetch-snoc :
        (id : ℕ) (rows : List A) (r : A)
        → k.key r ≡ next_id rows
        → fetch id (rows ++ r ∷ []) ≡ (if eqb (k.key r) id then some r else fetch id rows)
    fetch-snoc id rows r e = fetch-snoc_lt id rows r (
        All-map (λ a. k.key a < next_id rows) (λ a. k.key a < k.key r) (λ a lt. rw e lt) rows
          (All-lt-next_id rows))

    -- A row that is fetched before an insert is fetched after it.
    pub fetch-snoc-kept :
        (id : ℕ) (rows : List A) (r x : A)
        → k.key r ≡ next_id rows
        → fetch id rows ≡ some x
        → fetch id (rows ++ r ∷ []) ≡ some x
    unfolding fetch
    fetch-snoc-kept id rows r x e h =
        let lt =
          All-find (λ a. k.key a < next_id rows) (λ a. eqb (k.key a) id) rows x
            (All-lt-next_id rows) h in
        let own = fetch-key id rows x h in
        let other : eqb (k.key r) id ≡ false = ground (arith, lt, own, e) in
        rw (fetch-snoc id rows r e, other) h

    -- Where ids ascend, every row is the one fetched under its id.
    pub fetch-own : (rows : List A) → IsKeyed rows → All (λ r. fetch (k.key r) rows ≡ some r) rows
    unfolding fetch find
    fetch-own [] h = tt
    fetch-own (x ∷ xs) h = (ground arith, later xs h.0 (fetch-own xs h.1))
      where
        later :
            (ys : List A)
            → All (λ y. k.key x < k.key y) ys
            → All (λ r. find (λ a. eqb (k.key a) (k.key r)) xs ≡ some r) ys
            → All (λ r. find (λ a. eqb (k.key a) (k.key r)) (x ∷ xs) ≡ some r) ys
        later [] p q = tt
        later (y ∷ ys) p q = (ground (arith, p.0, q.0), later ys p.1 q.1)

    module _ (id : ℕ) (f : A → A) (keeps : (r : A) → k.key (f r) ≡ k.key r) where
      touch-key : (r : A) → k.key (if eqb (k.key r) id then f r else r) ≡ k.key r
      touch-key r = elim (Bool-cases (eqb (k.key r) id)) [
        | inl e ↦ rw e (keeps r)
        | inr e ↦ rw e refl
      ]

      pub update-IsKeyed : (rows : List A) → IsKeyed rows → IsKeyed (update id f rows)
      unfolding update
      update-IsKeyed rows h =
          Ordered-image (λ r. if eqb (k.key r) id then f r else r) (λ a b. k.key a < k.key b)
            (λ a b. k.key a < k.key b) (λ a b lt. rw (touch-key a, touch-key b) lt) rows h

      -- A predicate that the updated row keeps.
      pub All-update :
          (P : A → Type 0) (rows : List A) (row : A)
          → IsKeyed rows
          → fetch id rows ≡ some row
          → (P row → P (f row))
          → All P rows
          → All P (update id f rows)
      unfolding update
      All-update P rows row keyed found g h =
          All-image (λ r. if eqb (k.key r) id then f r else r)
            (λ r. (fetch (k.key r) rows ≡ some r) × P r) P one rows
            (All-both (λ r. fetch (k.key r) rows ≡ some r) P rows (fetch-own rows keyed) h)
        where
          one :
              (r : A)
              → (fetch (k.key r) rows ≡ some r) × P r
              → P (if eqb (k.key r) id then f r else r)
          one r p = elim (Bool-cases (eqb (k.key r) id)) [
            | inl e ↦ rw e (
                subst (λ x. P x → P (f x))
                  (some-inj row r (
                    sym found ∙ subst (λ i. fetch i rows ≡ some r) ((eqb-eq (k.key r) id).0 e) p.0))
                  g p.1)
            | inr e ↦ rw e p.1
          ]

      pub fetch-update :
          (j : ℕ) (rows : List A)
          → fetch j (update id f rows)
            ≡ (if eqb j id then Option.map f (fetch j rows) else fetch j rows)
      unfolding fetch update find
      fetch-update j [] = ground arith
      fetch-update j (x ∷ xs) = ground (arith, keeps x, fetch-update j xs)

    -- An update of the row that was just inserted reaches no other.
    pub update-snoc :
        (f : A → A) (rows : List A) (r : A)
        → k.key r ≡ next_id rows
        → update (k.key r) f (rows ++ r ∷ []) ≡ rows ++ f r ∷ []
    unfolding update
    update-snoc f rows r e = go rows (
        All-map (λ a. k.key a < next_id rows) (λ a. k.key a < k.key r) (λ a lt. rw e lt) rows
          (All-lt-next_id rows))
      where
        go :
            (xs : List A)
            → All (λ a. k.key a < k.key r) xs
            → map (λ a. if eqb (k.key a) (k.key r) then f a else a) (xs ++ r ∷ []) ≡ xs ++ f r ∷ []
        go [] h = ground arith
        go (x ∷ xs) h = ground (arith, h.0, go xs h.1)
