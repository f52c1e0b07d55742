-- ===== src/TaskService/Undo.antt =====
-- What a list of rollbacks does to tables whose new rows it covers.
use tapis_workflows.Base.{
  ℕ, ◌≡◌, inl, inr, refl, ap, ◌∙◌, Bool, true, false, not, ◌||◌, Option, List, [], ◌∷◌, ◌++◌, arith,
  In, All, All-map, filter, Bool-cases, ◌==◌, nat_eq,
}
use mathlib.Core.List.{append-nil}
use tapis_workflows.TaskService.{
  Target, TaskRow, Rows, Rollback, delete_credentials, delete_context, delete_destination, refers,
  refers_any, with_credentials, without_credentials, delete_row, rollback_each,
}

-- The tables have no row with that key, and none that refers to it.
abbrev pub IsFresh : Rows → Rollback → Type 0
IsFresh rows (delete_credentials k) =
    All (λ c. (c == k) ≡ false) rows.credentials
    × All (λ (x : Target). refers k x.credentials ≡ false) rows.contexts
    × All (λ (x : Target). refers k x.credentials ≡ false) rows.destinations
IsFresh rows (delete_context k) =
    All (λ (x : Target). (x.uuid == k) ≡ false) rows.contexts
    × All (λ (t : TaskRow). refers k t.context ≡ false) rows.tasks
IsFresh rows (delete_destination k) =
    All (λ (x : Target). (x.uuid == k) ≡ false) rows.destinations
    × All (λ (t : TaskRow). refers k t.destination ≡ false) rows.tasks

-- The tables with new rows
abbrev pub plus : Rows → List ℕ → List Target → List Target → Rows
plus rows cs xs ds = record {
  credentials = rows.credentials ++ cs;
  contexts = rows.contexts ++ xs;
  destinations = rows.destinations ++ ds;
  tasks = rows.tasks;
}

abbrev pub context_key : Target → Rollback
context_key x = delete_context x.uuid

abbrev pub destination_key : Target → Rollback
destination_key x = delete_destination x.uuid

-- Every new row has its rollback in the list.
abbrev pub Covers : List Rollback → List ℕ → List Target → List Target → Type 0
Covers rs cs xs ds =
    All (λ c. In (delete_credentials c) rs) cs
    × All (λ x. In (context_key x) rs) xs
    × All (λ x. In (destination_key x) rs) ds

module _ {A : Type 0} where
  filter-append : (p : A → Bool) (xs ys : List A) → filter p (xs ++ ys) ≡ filter p xs ++ filter p ys
  filter-append p [] ys = refl
  filter-append p (x ∷ xs) ys = ground (arith, filter-append p xs ys)

  filter_all : (p : A → Bool) (xs : List A) → All (λ x. p x ≡ true) xs → filter p xs ≡ xs
  filter_all p [] h = refl
  filter_all p (x ∷ xs) h = rw (h.0, filter_all p xs h.1) refl

  filter_none : (p : A → Bool) (xs : List A) → All (λ x. p x ≡ false) xs → filter p xs ≡ []
  filter_none p [] h = refl
  filter_none p (x ∷ xs) h = rw (h.0, filter_none p xs h.1) refl

  -- Old rows that are not met, before new ones
  filter-plus :
      (p : A → Bool) (xs ys : List A)
      → All (λ x. p x ≡ false) xs
      → filter (λ x. not (p x)) (xs ++ ys) ≡ xs ++ filter (λ x. not (p x)) ys
  filter-plus p xs ys h =
      filter-append (λ x. not (p x)) xs ys
      ∙ ap (λ zs. zs ++ filter (λ x. not (p x)) ys)
          (filter_all (λ x. not (p x)) xs (All-map xs (λ x e. ap not e) h))

  -- What a rollback does not remove is covered by those that follow.
  cover_filter :
      (key : A → Rollback) (p : A → Bool) (r : Rollback) (rs : List Rollback) (xs : List A)
      → ((x : A) → p x ≡ false → key x ≡ r → ⊥)
      → All (λ x. In (key x) (r ∷ rs)) xs
      → All (λ x. In (key x) rs) (filter (λ x. not (p x)) xs)
  cover_filter key p r rs [] apart h = tt
  cover_filter key p r rs (x ∷ xs) apart h = elim (Bool-cases (p x)) [
    | inl yes_ ↦ rw yes_ (cover_filter key p r rs xs apart h.1)
    | inr no_ ↦ rw no_ (
      elim h.0 [ inl same ↦ absurd (apart x no_ same) | inr i ↦ i ],
      cover_filter key p r rs xs apart h.1,
    )
  ]

  cover_other :
      (key : A → Rollback) (r : Rollback) (rs : List Rollback) (xs : List A)
      → ((x : A) → key x ≡ r → ⊥)
      → All (λ x. In (key x) (r ∷ rs)) xs
      → All (λ x. In (key x) rs) xs
  cover_other key r rs xs apart h =
      All-map xs (λ x i. elim i [ inl same ↦ absurd (apart x same) | inr j ↦ j ]) h

  cover_nil : (key : A → Rollback) (xs : List A) → All (λ x. In (key x) []) xs → xs ≡ []
  cover_nil key [] h = refl
  cover_nil key (x ∷ xs) h = absurd h.0

All-In : (P : Rollback → Type 0) (rs : List Rollback) (r : Rollback) → All P rs → In r rs → P r
All-In P [] r h i = absurd i
All-In P (x ∷ rs) r h (inl same) = rw same h.0
All-In P (x ∷ rs) r h (inr i) = All-In P rs r h.1 i

All-both :
    (f g : TaskRow → Bool) (ts : List TaskRow)
    → All (λ t. f t ≡ false) ts
    → All (λ t. g t ≡ false) ts
    → All (λ t. (f t || g t) ≡ false) ts
All-both f g [] h k = tt
All-both f g (t ∷ ts) h k = (rw (h.0, k.0) refl, All-both f g ts h.1 k.1)

-- New targets that no old task refers to
refers_any-false :
    (field : TaskRow → Option ℕ) (p : Target → Bool) (xs : List Target) (ts : List TaskRow)
    → All (λ (x : Target). All (λ t. refers x.uuid (field t) ≡ false) ts) xs
    → All (λ t. refers_any (filter p xs) (field t) ≡ false) ts
refers_any-false field p [] ts h = none_refers ts
  where
    none_refers : (us : List TaskRow) → All (λ t. refers_any (filter p []) (field t) ≡ false) us
    none_refers [] = tt
    none_refers (u ∷ us) = (refl, none_refers us)
refers_any-false field p (x ∷ xs) ts h = elim (Bool-cases (p x)) [
  | inl yes_ ↦ rw yes_ (
      All-both (λ t. refers x.uuid (field t)) (λ t. refers_any (filter p xs) (field t)) ts h.0
        (refers_any-false field p xs ts h.1))
  | inr no_ ↦ rw no_ (refers_any-false field p xs ts h.1)
]

with_credentials-plus :
    (k : ℕ) (xs ys : List Target)
    → All (λ (x : Target). refers k x.credentials ≡ false) xs
    → with_credentials k (xs ++ ys) ≡ with_credentials k ys
with_credentials-plus k xs ys h =
    filter-append (λ x. refers k x.credentials) xs ys
    ∙ ap (λ zs. zs ++ with_credentials k ys) (filter_none (λ x. refers k x.credentials) xs h)

module _ (rows : Rows) (secret_deleted : ℕ → Bool)
    (deletes : (k : ℕ) → secret_deleted k ≡ true) where
  -- The new rows that are left are covered by the rollbacks that are left.
  abbrev Steps : Rollback → List Rollback → List ℕ → List Target → List Target → Type 0
  Steps r rs cs xs ds =
      (cs' : List ℕ) × (xs' : List Target) × (ds' : List Target) × (delete_row secret_deleted r
          (plus rows cs xs ds)
        ≡ plus rows cs' xs' ds')
      × Covers rs cs' xs' ds'

  delete_credentials-Steps :
      (k : ℕ) (rs : List Rollback) (cs : List ℕ) (xs ds : List Target)
      → All (IsFresh rows) (delete_credentials k ∷ rs)
      → Covers (delete_credentials k ∷ rs) cs xs ds
      → Steps (delete_credentials k) rs cs xs ds
  unfolding delete_row
  delete_credentials-Steps k rs cs xs ds fresh (in_cs, in_xs, in_ds) =
      let r = delete_credentials k in
      let contexts : All (λ (t : TaskRow). refers_any (with_credentials k xs) t.context ≡ false)
          rows.tasks =
        refers_any-false (λ t. t.context) (λ x. refers k x.credentials) xs rows.tasks
          (All-map xs (λ x i. (All-In (IsFresh rows) (r ∷ rs) (context_key x) fresh i).1) in_xs) in
      let destinations : All
          (λ (t : TaskRow). refers_any (with_credentials k ds) t.destination ≡ false) rows.tasks =
        refers_any-false (λ t. t.destination) (λ x. refers k x.credentials) ds rows.tasks
          (All-map ds (λ x i. (All-In (IsFresh rows) (r ∷ rs) (destination_key x) fresh i).1)
            in_ds) in
      let p : TaskRow → Bool = λ t. not (
        refers_any (with_credentials k xs) t.context
        || refers_any (with_credentials k ds) t.destination) in
      let kept : filter p rows.tasks ≡ rows.tasks = filter_all p rows.tasks (
        All-map rows.tasks (λ t e. ap not e)
          (All-both (λ t. refers_any (with_credentials k xs) t.context)
            (λ t. refers_any (with_credentials k ds) t.destination) rows.tasks contexts
            destinations)) in
      (
        filter (λ c. not (c == k)) cs,
        without_credentials k xs,
        without_credentials k ds,
        rw
            (
              delete_row,
              deletes k,
              with_credentials-plus k rows.contexts xs fresh.0.1,
              with_credentials-plus k rows.destinations ds fresh.0.2,
              kept,
              filter-plus (λ c. c == k) rows.credentials cs fresh.0.0,
              filter-plus (λ (x : Target). refers k x.credentials) rows.contexts xs fresh.0.1,
              filter-plus (λ (x : Target). refers k x.credentials) rows.destinations ds fresh.0.2,
            )
            refl,
        (
          cover_filter delete_credentials (λ c. c == k) r rs cs
              (λ c no_ same. ground (arith, no_, credentials-injective same)) in_cs,
          cover_filter context_key (λ x. refers k x.credentials) r rs xs (λ x _ e. cc) in_xs,
          cover_filter destination_key (λ x. refers k x.credentials) r rs ds (λ x _ e. cc) in_ds,
        ),
      )
    where
      credentials-injective : {j : ℕ} → delete_credentials j ≡ delete_credentials k → j ≡ k
      credentials-injective e = cc

  delete_context-Steps :
      (k : ℕ) (rs : List Rollback) (cs : List ℕ) (xs ds : List Target)
      → All (IsFresh rows) (delete_context k ∷ rs)
      → Covers (delete_context k ∷ rs) cs xs ds
      → Steps (delete_context k) rs cs xs ds
  unfolding delete_row
  delete_context-Steps k rs cs xs ds fresh (in_cs, in_xs, in_ds) =
      let r = delete_context k in
      let kept =
        filter_all (λ (t : TaskRow). not (refers k t.context)) rows.tasks
          (All-map rows.tasks (λ t e. ap not e) fresh.0.1) in
      (
        cs,
        filter (λ x. not (x.uuid == k)) xs,
        ds,
        rw (delete_row, kept, filter-plus (λ (x : Target). x.uuid == k) rows.contexts xs fresh.0.0)
            refl,
        (
          cover_other delete_credentials r rs cs (λ c e. cc) in_cs,
          cover_filter context_key (λ x. x.uuid == k) r rs xs
              (λ x no_ same. ground (arith, no_, context-injective same)) in_xs,
          cover_other destination_key r rs ds (λ x e. cc) in_ds,
        ),
      )
    where
      context-injective : {j : ℕ} → delete_context j ≡ delete_context k → j ≡ k
      context-injective e = cc

  delete_destination-Steps :
      (k : ℕ) (rs : List Rollback) (cs : List ℕ) (xs ds : List Target)
      → All (IsFresh rows) (delete_destination k ∷ rs)
      → Covers (delete_destination k ∷ rs) cs xs ds
      → Steps (delete_destination k) rs cs xs ds
  unfolding delete_row
  delete_destination-Steps k rs cs xs ds fresh (in_cs, in_xs, in_ds) =
      let r = delete_destination k in
      let kept =
        filter_all (λ (t : TaskRow). not (refers k t.destination)) rows.tasks
          (All-map rows.tasks (λ t e. ap not e) fresh.0.1) in
      (
        cs,
        xs,
        filter (λ x. not (x.uuid == k)) ds,
        rw
            (
              delete_row,
              kept,
              filter-plus (λ (x : Target). x.uuid == k) rows.destinations ds fresh.0.0,
            )
            refl,
        (
          cover_other delete_credentials r rs cs (λ c e. cc) in_cs,
          cover_other context_key r rs xs (λ x e. cc) in_xs,
          cover_filter destination_key (λ x. x.uuid == k) r rs ds
              (λ x no_ same. ground (arith, no_, destination-injective same)) in_ds,
        ),
      )
    where
      destination-injective : {j : ℕ} → delete_destination j ≡ delete_destination k → j ≡ k
      destination-injective e = cc

  delete_row-Steps :
      (r : Rollback) (rs : List Rollback) (cs : List ℕ) (xs ds : List Target)
      → All (IsFresh rows) (r ∷ rs)
      → Covers (r ∷ rs) cs xs ds
      → Steps r rs cs xs ds
  delete_row-Steps (delete_credentials k) = delete_credentials-Steps k
  delete_row-Steps (delete_context k) = delete_context-Steps k
  delete_row-Steps (delete_destination k) = delete_destination-Steps k

  -- Rollbacks with fresh keys that cover all new rows give the old tables back.
  pub rollback_each-plus :
      (rs : List Rollback) (cs : List ℕ) (xs ds : List Target)
      → All (IsFresh rows) rs
      → Covers rs cs xs ds
      → rollback_each secret_deleted rs (plus rows cs xs ds) ≡ rows
  unfolding rollback_each
  rollback_each-plus [] cs xs ds fresh (in_cs, in_xs, in_ds) =
      rw
        (
          cover_nil delete_credentials cs in_cs,
          cover_nil context_key xs in_xs,
          cover_nil destination_key ds in_ds,
          append-nil rows.credentials,
          append-nil rows.contexts,
          append-nil rows.destinations,
        )
        refl
  rollback_each-plus (r ∷ rs) cs xs ds fresh covers =
      let (cs', xs', ds', same, covers') = delete_row-Steps r rs cs xs ds fresh covers in
      ap (rollback_each secret_deleted rs) same ∙ rollback_each-plus rs cs' xs' ds' fresh.1 covers'
