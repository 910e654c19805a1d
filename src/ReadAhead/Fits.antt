-- ===== src/ReadAhead/Fits.antt =====
-- ReadingAhead::For of src/read_ahead.cc: it declines exactly where a cache cannot hold two runs of
-- every image that is read through it.
use carta_zarr.Base.{
  ℕ, suc, ◌+◌, ◌*◌, ◌^◌, ◌≤◌, ◌<◌, ◌≡◌, ◌≢◌, ◌↔◌, refl, sym, Error, ◌⊎◌, ◌∙◌, ap, true, false, List,
  [], ◌∷◌, Option, none, some, ok, err, arith, tests, ltb, ◌==◌, if◌then◌else◌, Bool-cases, inl,
  inr, ltb→lt, ne→==, ==→eq, ==→ne, ==_self, add64, mul64, add64_lem, mul64_lem,
}
use carta_zarr.ReadAhead.{
  RunSource, Demand, no_demand, demand_more, demand_on, demands, check_room, check_caches,
  for_sources,
}

-- Two runs of each image that is read through the cache `id`, and the size that the last of them says it has.
abbrev pub two_runs : ℕ → List (Option RunSource) → ℕ
two_runs id [] = 0
two_runs id (none ∷ sources) = two_runs id sources
two_runs id (some s ∷ sources) =
    (if id == s.cache.identity then 2 * s.run_bytes else 0) + two_runs id sources

abbrev pub said_size : ℕ → List (Option RunSource) → ℕ → ℕ
said_size id [] size = size
said_size id (none ∷ sources) size = said_size id sources size
said_size id (some s ∷ sources) size =
    said_size id sources (if id == s.cache.identity then s.cache.bytes else size)

-- Every source is there and has a plane.
abbrev pub AreReady : List (Option RunSource) → Type 0
AreReady [] = Unit
AreReady (none ∷ sources) = ⊥
AreReady (some s ∷ sources) = (s.run_bytes ≢ 0) × AreReady sources

-- The keys are in order, the least at `b` or later.
IsSorted : ℕ → List (ℕ × Demand) → Type 0
IsSorted b [] = Unit
IsSorted b ((id, d) ∷ caches) = (b ≤ id) × IsSorted (suc id) caches

demand_at : ℕ → List (ℕ × Demand) → Demand
demand_at id [] = no_demand
demand_at id ((i, d) ∷ caches) = if id == i then d else demand_at id caches

demand_at_below :
    (id b : ℕ) (t : List (ℕ × Demand)) → IsSorted b t → id < b → demand_at id t ≡ no_demand
unfolding IsSorted demand_at
demand_at_below id b [] s l = refl
demand_at_below id b ((i, d) ∷ t) (m, s) l =
    rw (ne→== id i (omega arith)) (demand_at_below id (suc i) t s (omega arith))

demand_on-IsSorted :
    (source : RunSource) (b : ℕ) (t : List (ℕ × Demand))
    → IsSorted b t
    → b ≤ source.cache.identity
    → IsSorted b (demand_on source t)
unfolding IsSorted demand_on
demand_on-IsSorted source b [] s l = (l, tt)
demand_on-IsSorted source b ((i, d) ∷ t) (m, s) l = elim (Bool-cases (source.cache.identity == i)) [
  | inl e ↦ rw e (m, s)
  | inr ne ↦ elim (Bool-cases (ltb source.cache.identity i)) [
    | inl lt ↦ rw (ne, lt) (l, (omega tests, s))
    | inr ge ↦ rw (ne, ge) (m, demand_on-IsSorted source (suc i) t s (omega tests))
  ]
]

demand_at-demand_on :
    (source : RunSource) (id b : ℕ) (t : List (ℕ × Demand))
    → IsSorted b t
    → demand_at id (demand_on source t) ≡ (
        if id == source.cache.identity then demand_more source (demand_at id t) else demand_at id t)
unfolding IsSorted demand_on demand_at
demand_at-demand_on source id b [] s = refl
demand_at-demand_on source id b ((i, d) ∷ t) (m, s) =
    elim (Bool-cases (source.cache.identity == i)) [
      | inl e ↦ elim (Bool-cases (id == i)) [
        | inl f ↦ rw (e, f, same source.cache.identity i id e f) refl
        | inr f ↦ rw (e, f, other source.cache.identity i id e f) refl
      ]
      | inr ne ↦ elim (Bool-cases (ltb source.cache.identity i)) [
        | inl lt ↦
            rw (ne, lt)
              (elim (Bool-cases (id == source.cache.identity)) [
                | inl f ↦
                    let apart : id < i = omega (
                      arith,
                      ==→eq id source.cache.identity f,
                      ltb→lt source.cache.identity i lt,
                    ) in
                    rw (f, ne→== id i (omega arith), demand_at_below id (suc i) t s (omega arith))
                      refl
                | inr f ↦ rw f refl
              ])
        | inr ge ↦ elim (Bool-cases (id == i)) [
          | inl f ↦
              rw
                (
                  ne,
                  ge,
                  f,
                  ne→== id source.cache.identity
                      (λ q. ==→ne source.cache.identity i ne (sym q ∙ ==→eq id i f)),
                )
                refl
          | inr f ↦ rw (ne, ge, f) (demand_at-demand_on source id (suc i) t s)
        ]
      ]
    ]
  where
    same : (a i id : ℕ) → (a == i) ≡ true → (id == i) ≡ true → (id == a) ≡ true
    same a i id e f = ground arith

    other : (a i id : ℕ) → (a == i) ≡ true → (id == i) ≡ false → (id == a) ≡ false
    other a i id e f = ground arith

-- The table after For's first loop, and what it holds of one cache.
table : List (Option RunSource) → List (ℕ × Demand) → List (ℕ × Demand)
table [] t = t
table (none ∷ sources) t = table sources t
table (some s ∷ sources) t = table sources (demand_on s t)

table-IsSorted :
    (sources : List (Option RunSource)) (t : List (ℕ × Demand))
    → IsSorted 0 t
    → IsSorted 0 (table sources t)
unfolding table
table-IsSorted [] t s = s
table-IsSorted (none ∷ sources) t s = table-IsSorted sources t s
table-IsSorted (some x ∷ sources) t s =
    table-IsSorted sources (demand_on x t) (demand_on-IsSorted x 0 t s (omega arith))

demand_at_one :
    (id : ℕ) (x : RunSource) (t : List (ℕ × Demand))
    → IsSorted 0 t
    → (demand_at id t).needed + (if id == x.cache.identity then 2 * x.run_bytes else 0) < 2 ^ 64
    → ((demand_at id (demand_on x t)).needed
        ≡ (demand_at id t).needed + (if id == x.cache.identity then 2 * x.run_bytes else 0))
      × ((demand_at id (demand_on x t)).holds
          ≡ (if id == x.cache.identity then x.cache.bytes else (demand_at id t).holds))
unfolding demand_more
demand_at_one id x t s h =
    rw (demand_at-demand_on x id 0 t s) (elim (Bool-cases (id == x.cache.identity)) [
      | inl e ↦ rw e (fits ((rw e at h)), refl)
      | inr e ↦ rw e (omega arith, refl)
    ])
  where
    fits :
        (demand_at id t).needed + 2 * x.run_bytes < 2 ^ 64
        → add64 (demand_at id t).needed (mul64 2 x.run_bytes)
          ≡ (demand_at id t).needed + 2 * x.run_bytes
    fits k =
        rw (mul64_lem 2 x.run_bytes (omega arith))
          (add64_lem (demand_at id t).needed (2 * x.run_bytes) k)

demand_at-table :
    (id : ℕ) (sources : List (Option RunSource)) (t : List (ℕ × Demand))
    → IsSorted 0 t
    → (demand_at id t).needed + two_runs id sources < 2 ^ 64
    → ((demand_at id (table sources t)).needed ≡ (demand_at id t).needed + two_runs id sources)
      × ((demand_at id (table sources t)).holds ≡ said_size id sources (demand_at id t).holds)
unfolding table demand_more
demand_at-table id [] t s h = (omega arith, refl)
demand_at-table id (none ∷ sources) t s h = demand_at-table id sources t s h
demand_at-table id (some x ∷ sources) t s h =
    let (adds, keeps) = demand_at_one id x t s (omega arith) in
    let sorted : IsSorted 0 (demand_on x t) = demand_on-IsSorted x 0 t s (omega arith) in
    let (rest_adds, rest_keeps) = demand_at-table id sources (demand_on x t) sorted (omega arith) in
    (omega arith, rest_keeps ∙ ap (λ (n : ℕ). said_size id sources n) keeps)

-- For's second loop passes exactly where each cache of the table has the room.
check_room_iff :
    (b : ℕ) (t : List (ℕ × Demand))
    → IsSorted b t
    → (check_room t ≡ ok tt) ↔ ((id : ℕ) → (demand_at id t).needed ≤ (demand_at id t).holds)
unfolding check_room IsSorted demand_at
check_room_iff b [] s = ((λ e id. omega arith), (λ h. refl))
check_room_iff b ((i, d) ∷ t) (m, s) = elim (Bool-cases (ltb d.holds d.needed)) [
  | inl over ↦ rw over (
    (λ e. absurd (cc)),
    (λ h. absurd (let room = (rw (==_self i) at (h i)) in omega (tests, room))),
  )
  | inr fits ↦ rw fits (
    (λ e (id : ℕ). elim (Bool-cases (id == i)) [
      | inl this ↦ rw this (omega tests)
      | inr other ↦ rw other ((check_room_iff (suc i) t s).0 e id)
    ]),
    (λ h. (check_room_iff (suc i) t s).1 (λ (id : ℕ). elim (Bool-cases (id == i)) [
      | inl this ↦
          rw (demand_at_below id (suc i) t s (omega (arith, ==→eq id i this))) (omega arith)
      | inr other ↦ (rw other at (h id))
    ])),
  )
]

-- For's first loop gives the table exactly where every source is ready.
demands-cases :
    (sources : List (Option RunSource)) (t : List (ℕ × Demand))
    → (AreReady sources × (demands sources t ≡ ok (table sources t)))
      ⊎ (¬ AreReady sources × ((e : Error) × (demands sources t ≡ err e)))
unfolding demands table
demands-cases [] t = inl (tt, refl)
demands-cases (none ∷ sources) t = inr ((λ r. r), (_, refl))
demands-cases (some x ∷ sources) t = elim (Bool-cases (x.run_bytes == 0)) [
  | inl e ↦ rw e (inr ((λ r. r.0 (==→eq _ _ e)), (_, refl)))
  | inr ne ↦ rw ne (elim (demands-cases sources (demand_on x t)) [
    | inl (ready, made) ↦ inl ((==→ne _ _ ne, ready), made)
    | inr (unready, failed) ↦ inr ((λ r. unready r.1), failed)
  ])
]

nothing-IsSorted : IsSorted 0 []
unfolding IsSorted
nothing-IsSorted = tt

demand_at_start :
    (id : ℕ) (sources : List (Option RunSource))
    → two_runs id sources < 2 ^ 64
    → ((demand_at id (table sources [])).needed ≡ two_runs id sources)
      × ((demand_at id (table sources [])).holds ≡ said_size id sources 0)
unfolding demand_at
demand_at_start id sources small =
    let (needs, holds) = demand_at-table id sources [] nothing-IsSorted (omega arith) in
    (omega arith, holds)

-- ReadingAhead::For, where two runs of all the images read through a cache are fewer than 2^64 bytes:
-- it succeeds exactly where there is a source, every source is there and has a plane, and each cache
-- is said, by the last image read through it, to hold two runs of every image that is read through it.
pub for_sources-Fits :
    (sources : List (Option RunSource))
    → ((id : ℕ) → two_runs id sources < 2 ^ 64)
    → (for_sources sources ≡ ok tt) ↔ (
        (sources ≢ [])
        × AreReady sources
        × ((id : ℕ) → two_runs id sources ≤ said_size id sources 0))
unfolding for_sources check_caches
for_sources-Fits [] small = ((λ e. absurd cc), (λ h. absurd (h.0 refl)))
for_sources-Fits (x ∷ sources) small = elim (demands-cases (x ∷ sources) []) [
  | inl (ready, made) ↦ rw made (
    (λ e. ((λ none. absurd cc), ready, (λ (id : ℕ). (room id).0 ((roomy).0 e id)))),
    (λ h. (roomy).1 (λ (id : ℕ). (room id).1 (h.2 id))),
  )
  | inr (unready, (e, failed)) ↦ rw failed ((λ same. absurd cc), (λ h. absurd (unready h.1)))
]
  where
    caches : List (ℕ × Demand)
    caches = table (x ∷ sources) []

    roomy :
        (check_room caches ≡ ok tt)
        ↔ ((id : ℕ) → (demand_at id caches).needed ≤ (demand_at id caches).holds)
    roomy = check_room_iff 0 caches (table-IsSorted (x ∷ sources) [] nothing-IsSorted)

    room :
        (id : ℕ)
        → ((demand_at id caches).needed ≤ (demand_at id caches).holds)
          ↔ (two_runs id (x ∷ sources) ≤ said_size id (x ∷ sources) 0)
    room id =
        let (needs, holds) = demand_at_start id (x ∷ sources) (small id) in
        ((λ h. omega arith), (λ h. omega arith))
