-- ===== src/Registry/Eviction.antt =====
-- Which handle is evicted.
use mcp_semantic_search_zvec.Prelude.{
  ◌≤◌, ◌<◌, ◌≡◌, refl, ◌⊎◌, inl, inr, false, List, [], ◌∷◌, Option, none, some, ltb, arith,
  Bool-cases,
}
use mcp_semantic_search_zvec.Registry.{Handle, older_idle, oldest_idle}
use mcp_semantic_search_zvec.Registry.Handles.{IsIn}

-- No handle of `M` is idle, or this one is, and no idle one was used before it.
abbrev pub IsOldest : (Handle → Type 0) → Option Handle → Type 0
IsOldest M none = (x : Handle) → M x → 0 < x.refs
IsOldest M (some h) =
    M h × (h.refs ≡ 0) × ((x : Handle) → M x → x.refs ≡ 0 → h.last_used ≤ x.last_used)

IsOldest-iff :
    (M N : Handle → Type 0) (o : Option Handle)
    → ((x : Handle) → M x → N x)
    → ((x : Handle) → N x → M x)
    → IsOldest M o
    → IsOldest N o
IsOldest-iff M N none f g h = λ x n. h x (g x n)
IsOldest-iff M N (some b) f g h = (f b h.0, h.1, λ x n. h.2 x (g x n))

idle_of : (x : Handle) → ltb 0 x.refs ≡ false → x.refs ≡ 0
idle_of x h = ground arith

older_idle-IsOldest :
    (M : Handle → Type 0) (best : Option Handle) (x : Handle)
    → IsOldest M best
    → IsOldest (λ y. M y ⊎ (y ≡ x)) (older_idle best x)
unfolding older_idle
older_idle-IsOldest M none x h = elim (Bool-cases (ltb 0 x.refs)) [
  | inl busy ↦ rw busy λ y m. elim m [ inl k ↦ h y k | inr e ↦ rw e (ground (arith, busy)) ]
  | inr idle ↦ rw idle (
    inr refl,
    idle_of x idle,
    λ y m z. elim m [
      | inl k ↦ let b = h y k in absurd (omega (arith, b, z))
      | inr e ↦ rw e (omega arith)
    ],
  )
]
older_idle-IsOldest M (some b) x h = elim (Bool-cases (ltb 0 x.refs)) [
  | inl busy ↦ rw busy (
    inl h.0,
    h.1,
    λ y m z. elim m [
      | inl k ↦ h.2 y k z
      | inr e ↦ let z' : x.refs ≡ 0 = rw e at z in ground (arith, busy, z')
    ],
  )
  | inr idle ↦ elim (Bool-cases (ltb x.last_used b.last_used)) [
    | inl older ↦
        rw (idle, older)
          (
            inr refl,
            idle_of x idle,
            λ y m z. elim m [
              | inl k ↦ let l = h.2 y k z in ground (arith, older, l)
              | inr e ↦ rw e (omega arith)
            ],
          )
    | inr newer ↦
        rw (idle, newer)
          (
            inl h.0,
            h.1,
            λ y m z. elim m [ inl k ↦ h.2 y k z | inr e ↦ rw e (ground (arith, newer)) ],
          )
  ]
]

oldest_idle-IsOldest_from :
    (M : Handle → Type 0) (best : Option Handle) (hs : List Handle)
    → IsOldest M best
    → IsOldest (λ y. M y ⊎ IsIn y hs) (oldest_idle best hs)
unfolding oldest_idle
oldest_idle-IsOldest_from M best [] h =
    IsOldest-iff M (λ y. M y ⊎ ⊥) best (λ x m. inl m)
      (λ x m. elim m [ inl k ↦ k | inr e ↦ absurd e ]) h
oldest_idle-IsOldest_from M best (x ∷ hs) h =
    IsOldest-iff (λ y. (M y ⊎ (y ≡ x)) ⊎ IsIn y hs) (λ y. M y ⊎ IsIn y (x ∷ hs))
      (oldest_idle (older_idle best x) hs)
      (λ y m. elim m [
        | inl k ↦ elim k [ inl k' ↦ inl k' | inr e ↦ inr (inl e) ]
        | inr r ↦ inr (inr r)
      ])
      (λ y m. elim m [
        | inl k ↦ inl (inl k)
        | inr k ↦ elim k [ inl e ↦ inl (inr e) | inr r ↦ inr r ]
      ])
      (oldest_idle-IsOldest_from (λ y. M y ⊎ (y ≡ x)) (older_idle best x) hs
        (older_idle-IsOldest M best x h))

-- Eviction finds no handle only if all are borrowed; else it takes one of the map that is not, and no
-- handle that is not borrowed was used before it. Whether a handle is indexing makes no difference.
pub oldest_idle-IsOldest : (hs : List Handle) → IsOldest (λ y. IsIn y hs) (oldest_idle none hs)
oldest_idle-IsOldest hs =
    IsOldest-iff (λ y. ⊥ ⊎ IsIn y hs) (λ y. IsIn y hs) (oldest_idle none hs)
      (λ y m. elim m [ inl k ↦ absurd k | inr r ↦ r ]) (λ y m. inr m)
      (oldest_idle-IsOldest_from (λ y. ⊥) none hs (λ x m. absurd m))
