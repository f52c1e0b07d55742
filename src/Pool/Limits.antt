-- ===== src/Pool/Limits.antt =====
-- The limit of the pool and the exclusive use of its workers, over every sequence of calls.
use tapis_workflows.Base.{
  ℕ, suc, ◌+◌, ◌<◌, ◌≤◌, ◌≡◌, ◌≢◌, ◌⊎◌, refl, sym, ap, ◌∙◌, subst, true, false, none, some, List,
  [], ◌∷◌, ◌++◌, ok, err, arith, ◌==◌, Eq, contains, ltb, length, length-append, count,
  count-append, count_pos_of_contains, ok-injective, ok_or_err, Option-cases, Bool-cases, inl, inr,
  if◌then◌else◌,
}
use tapis_workflows.Pool.{
  no_available_workers, WorkerPool, pop, worker_count, check_out, remove, check_in, forget,
  put_back, worker_limit_exceed,
}
use tapis_workflows.Pool.Moves.{held, pop-eq-none, pop-eq-some, count-remove, length-remove}

-- A call of the pool by one of its clients
pub data PoolCall (W : Type 0) : Type 0 where
  out : (new : W) → PoolCall W
  back : (worker : W) → PoolCall W

module _ {W : Type 0} ⦃e : Eq W⦄ where
  abbrev one_of : W → W → ℕ
  one_of a w = if a == w then 1 else 0

  one_of_self : (a : W) → one_of a a ≡ 1
  one_of_self a = ground arith

  -- What `check_out` returns when it returns `w` and leaves `p'`.
  pub record HandsOut (new : W) (p p' : WorkerPool W) (w : W) : Type 0 where
    pub limit : p'.max_workers ≡ p.max_workers
    pub taken : (a : W) → count a p'.checked_out ≡ count a p.checked_out + one_of a w
    pub source :
        ((worker_count p' ≡ worker_count p) × ((a : W) → held a p' ≡ held a p))
        ⊎ ((p.pool ≡ [])
            × (w ≡ new)
            × (worker_count p < p.max_workers)
            × (worker_count p' ≡ suc (worker_count p))
            × ((a : W) → held a p' ≡ held a p + one_of a new))

  -- `check_out` takes a worker of the pool, if there is one; makes a new one, if there is none and the
  -- limit is not reached; and raises otherwise.
  pub check_out_lem :
      (new : W) (p : WorkerPool W)
      → ((p' : WorkerPool W) × (w : W) × (check_out new p ≡ ok (p', w)) × HandsOut new p p' w)
        ⊎ ((check_out new p ≡ err no_available_workers)
            × (p.pool ≡ [])
            × (p.max_workers ≤ worker_count p))
  unfolding check_out
  check_out_lem new p = elim (Option-cases (pop p.pool)) [
    | inr ((rest, w), s) ↦
        let split = pop-eq-some p.pool rest w s in
        inl (
          record p { pool = rest; checked_out = p.checked_out ++ (w ∷ []) },
          w,
          rw (s, check_out) refl,
          record {
            limit = refl;
            taken = λ a. omega (arith, count-append a p.checked_out (w ∷ []));
            source = inl (
              omega (
                arith,
                ap (λ (l : List W). length l) split,
                length-append rest (w ∷ []),
                length-append p.checked_out (w ∷ []),
              ),
              λ a. omega (
                arith,
                ap (λ l. count a l) split,
                count-append a rest (w ∷ []),
                count-append a p.checked_out (w ∷ []),
              ),
            );
          },
        )
    | inl n ↦
        let empty = pop-eq-none p.pool n in
        elim (Bool-cases (ltb (worker_count p) p.max_workers)) [
          | inl less ↦ inl (
            record p { checked_out = p.checked_out ++ (new ∷ []) },
            new,
            ground (arith, n, less),
            record {
              limit = refl;
              taken = λ a. omega (arith, count-append a p.checked_out (new ∷ []));
              source = inr (
                empty,
                refl,
                ground arith,
                omega (arith, length-append p.checked_out (new ∷ [])),
                λ a. omega (arith, count-append a p.checked_out (new ∷ [])),
              );
            },
          )
          | inr more ↦ inr (ground (arith, n, more), empty, ground arith)
        ]
  ]

  -- A call as a change of the pool: an exception of `check_out` leaves it as it was.
  abbrev pub call : PoolCall W → WorkerPool W → WorkerPool W
  call (out new) p = elim (check_out new p) [ ok (p', w) ↦ p' | err x ↦ p ]
  call (back w) p = (check_in w p).0

  abbrev pub calls : List (PoolCall W) → WorkerPool W → WorkerPool W
  calls [] p = p
  calls (c ∷ cs) p = calls cs (call c p)

  check_in_bound :
      (w : W) (p : WorkerPool W)
      → worker_count p ≤ p.max_workers
      → ((check_in w p).0.max_workers ≡ p.max_workers)
        × (worker_count (check_in w p).0 ≤ p.max_workers)
  unfolding check_in remove
  check_in_bound w p h = ground (arith, length-remove w p.checked_out)

  call_bound :
      (c : PoolCall W) (p : WorkerPool W)
      → worker_count p ≤ p.max_workers
      → ((call c p).max_workers ≡ p.max_workers) × (worker_count (call c p) ≤ p.max_workers)
  call_bound (back w) p h = check_in_bound w p h
  call_bound (out new) p h = elim (check_out_lem new p) [
    | inr (x, _, _) ↦ rw (call, x) (refl, h)
    | inl (p', w, x, gives) ↦ elim gives.source [
      | inl (same, _) ↦ rw (call, x) (gives.limit, omega (arith, same, h))
      | inr (_, _, less, more, _) ↦ rw (call, x) (gives.limit, omega (arith, less, more))
    ]
  ]

  -- A pool that starts within its limit stays within it, whatever workers are checked out and in, a
  -- worker that is checked in without having been checked out included.
  pub pool_bound :
      (cs : List (PoolCall W)) (p : WorkerPool W)
      → worker_count p ≤ p.max_workers
      → ((calls cs p).max_workers ≡ p.max_workers) × (worker_count (calls cs p) ≤ p.max_workers)
  pool_bound [] p h = (refl, h)
  pool_bound (c ∷ cs) p h =
      let (same, below) = call_bound c p h in
      let (same', below') = pool_bound cs (call c p) (omega (arith, same, below)) in
      (same' ∙ same, omega (arith, same, below'))

  -- The clients return what they hold, and a new worker is new.
  abbrev pub Disciplined : PoolCall W → WorkerPool W → Type 0
  Disciplined (out new) p = held new p ≡ 0
  Disciplined (back w) p = contains p.checked_out w ≡ true

  abbrev pub AllDisciplined : List (PoolCall W) → WorkerPool W → Type 0
  AllDisciplined [] p = Unit
  AllDisciplined (c ∷ cs) p = Disciplined c p × AllDisciplined cs (call c p)

  -- No worker is in two places.
  abbrev pub Exclusive : WorkerPool W → Type 0
  Exclusive p = (a : W) → held a p ≤ 1

  check_in_moves :
      (w : W) (p : WorkerPool W)
      → worker_count p ≤ p.max_workers
      → contains p.checked_out w ≡ true
      → check_in w p ≡ (record p { pool = w ∷ p.pool; checked_out = remove w p.checked_out }, none)
  unfolding check_in
  check_in_moves w p h there = ground (arith, length-remove w p.checked_out there)

  call-Exclusive :
      (c : PoolCall W) (p : WorkerPool W)
      → worker_count p ≤ p.max_workers
      → Disciplined c p
      → Exclusive p
      → Exclusive (call c p)
  call-Exclusive (back w) p h there x a =
      rw (call, check_in_moves w p h there)
        (omega (arith, x a, count-remove a w p.checked_out there))
  call-Exclusive (out new) p h fresh x a = elim (check_out_lem new p) [
    | inr (e, _, _) ↦ rw (call, e) (x a)
    | inl (p', w, s, gives) ↦ elim gives.source [
      | inl (_, same) ↦ rw (call, s) (omega (arith, same a, x a))
      | inr (_, _, _, _, more) ↦
          rw (call, s)
            (elim (e.dec a new) [
              | yes t ↦ omega (arith, more a, ap (λ b. held b p) t, fresh, one_of_le a new)
              | no n ↦ omega (arith, more a, x a, one_of_zero a new n)
            ])
    ]
  ]
    where
      one_of_le : (a w : W) → one_of a w ≤ 1
      one_of_le a w = ground arith

      one_of_zero : (a w : W) → a ≢ w → one_of a w ≡ 0
      one_of_zero a w n = ground arith

  calls-Exclusive :
      (cs : List (PoolCall W)) (p : WorkerPool W)
      → worker_count p ≤ p.max_workers
      → AllDisciplined cs p
      → Exclusive p
      → Exclusive (calls cs p)
  calls-Exclusive [] p h d x = x
  calls-Exclusive (c ∷ cs) p h d x =
      let (same, below) = call_bound c p h in
      calls-Exclusive cs (call c p) (omega (arith, same, below)) d.1 (call-Exclusive c p h d.0 x)

  handed_out :
      (new : W) (q q' : WorkerPool W) (w : W)
      → held new q ≡ 0
      → Exclusive q
      → check_out new q ≡ ok (q', w)
      → contains q.checked_out w ≡ false
  handed_out new q q' w fresh y s = elim (check_out_lem new q) [
    | inr (x, _, _) ↦ ok_or_err x s
    | inl (p, v, x, gives) ↦
        let same : v ≡ w = ap (λ (r : WorkerPool W × W). r.1) (ok-injective (sym x ∙ s)) in
        let taken = gives.taken v in
        subst (λ u. contains q.checked_out u ≡ false) same
          (elim (Bool-cases (contains q.checked_out v)) [
            | inr no_ ↦ no_
            | inl yes_ ↦
                let there = count_pos_of_contains v q.checked_out yes_ in
                elim gives.source [
                  | inl (_, held_same) ↦
                      absurd (omega (arith, there, taken, one_of_self v, held_same v, y v))
                  | inr (_, v_new, _, _, _) ↦
                      absurd (omega (arith, there, fresh, ap (λ b. held b q) v_new))
                ]
          ])
  ]

  -- A full pool with no free worker: a `check_out` between the two steps of `check_in`
  overtaken :
      (w new : W) (p : WorkerPool W)
      → contains p.checked_out w ≡ true
      → p.pool ≡ []
      → p.max_workers ≡ worker_count p
      → let left = record p { pool = []; checked_out = remove w p.checked_out ++ (new ∷ []) } in
        (check_out new (forget w p) ≡ ok (left, new))
        × (put_back w left ≡ (left, some worker_limit_exceed))
  unfolding check_out remove pop
  overtaken w new p there empty full =
      let fewer = length-remove w p.checked_out there in
      let longer = length-append (remove w p.checked_out) (new ∷ []) in
      (ground (arith, there, empty, full, fewer), ground (arith, there, empty, full, fewer, longer))

  -- If the clients of a pool, which starts within its limit and with no worker in two places, check in
  -- only workers that are checked out, the workers that the pool makes are new, and no call comes between
  -- the two steps of a `check_in`, then after any calls no worker is in two places, `check_out` never returns a worker that is checked out already, and
  -- `check_in` of a worker that is checked out raises nothing and puts it back. But where the pool is full with no free
  -- worker, a `check_out` that comes between the two steps of such a `check_in` makes a new worker, and
  -- the `check_in` then raises `WorkerLimitExceed` and leaves its worker in neither place.
  pub pool-Exclusive :
      (cs : List (PoolCall W)) (p : WorkerPool W)
      → worker_count p ≤ p.max_workers
      → AllDisciplined cs p
      → Exclusive p
      → let q = calls cs p in
        Exclusive q
        × ((new w : W) (q' : WorkerPool W)
            → held new q ≡ 0
            → check_out new q ≡ ok (q', w)
            → contains q.checked_out w ≡ false)
        × ((w : W)
            → contains q.checked_out w ≡ true
            → check_in w q
              ≡ (record q { pool = w ∷ q.pool; checked_out = remove w q.checked_out }, none))
        × ((w new : W)
            → contains q.checked_out w ≡ true
            → q.pool ≡ []
            → q.max_workers ≡ worker_count q
            → let left = record q {
              pool = [];
              checked_out = remove w q.checked_out ++ (new ∷ []);
            } in
              (check_out new (forget w q) ≡ ok (left, new))
              × (put_back w left ≡ (left, some worker_limit_exceed)))
  pool-Exclusive cs p h d x =
      let q = calls cs p in
      let (same, below) = pool_bound cs p h in
      let y = calls-Exclusive cs p h d x in
      let bound : worker_count q ≤ q.max_workers = omega (arith, same, below) in
      (
        y,
        λ new w q' fresh e. handed_out new q q' w fresh y e,
        λ w there. check_in_moves w q bound there,
        λ w new there empty full. overtaken w new q there empty full,
      )
