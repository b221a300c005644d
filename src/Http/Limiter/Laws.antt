-- ===== src/Http/Limiter/Laws.antt =====
-- How many requests of a client pass the limit.
use go_espn_api.Prelude.{
  ℕ, suc, ◌-◌, ◌≡◌, ◌≢◌, refl, ap, sym, ◌∙◌, Bool, true, false, some, List, [], ◌∷◌, Bytes,
  bytes_eq, bytes_eq_iff, ltb, if◌then◌else◌, Bool-cases, inl, inr, arith,
}
use go_espn_api.Http.Limiter.{
  Got, hit, absent, get_failed, Requester, LimitConfig, limit_key, Limited, limit_exceeded,
  count_of, limit, rate_limit, rate_limits,
}

-- The requests that a cache has counted.
abbrev pub used : Got → ℕ
used (hit n) = n
used absent = 0
used get_failed = 0

abbrev pub is_admitted : Limited → Bool
is_admitted limit_exceeded = false
is_admitted _ = true

abbrev pub smaller : ℕ → ℕ → ℕ
smaller m n = if ltb m n then m else n

module _ (cfg : LimitConfig) where
  -- The requests that are counted under a key.
  unfoldable pub requests_of : Bytes → List Requester → ℕ
  requests_of key [] = 0
  requests_of key (c ∷ cs) =
      let rest = requests_of key cs in if bytes_eq (limit_key cfg c) key then suc rest else rest

  -- Those of them that were admitted.
  unfoldable pub admitted_of : Bytes → List Requester → List Limited → ℕ
  admitted_of key [] ls = 0
  admitted_of key (c ∷ cs) [] = 0
  admitted_of key (c ∷ cs) (l ∷ ls) =
      let rest = admitted_of key cs ls in
      if bytes_eq (limit_key cfg c) key then (if is_admitted l then suc rest else rest) else rest

module _ {C : Type 0} (cache_get : Bytes → C → Got) (cache_save : Bytes → ℕ → ℕ → C → Bool × C)
    (works : (k : Bytes) (s : C) → cache_get k s ≢ get_failed)
    (saves : (k : Bytes) (n w : ℕ) (s : C) → (cache_save k n w s).0 ≡ true)
    (keeps : (k : Bytes) (n w : ℕ) (s : C) → cache_get k (cache_save k n w s).1 ≡ hit n)
    (leaves : (j k : Bytes) (n w : ℕ) (s : C)
      → j ≢ k
      → cache_get j (cache_save k n w s).1 ≡ cache_get j s)
    (cfg : LimitConfig) where
  abbrev limited : Bytes → C → Limited × C
  limited key s = limit cache_get cache_save cfg key s (count_of (cache_get key s))

  -- A request passes where fewer than the limit have been counted, and then it is counted.
  abbrev Counts : Bytes → ℕ → Limited × C → Type 0
  Counts key m l =
      (is_admitted l.0 ≡ ltb m cfg.max_requests)
      × (used (cache_get key l.1) ≡ (if ltb m cfg.max_requests then suc m else m))

  limit-Counts :
      (key : Bytes) (s : C) (m : ℕ)
      → used (cache_get key s) ≡ m
      → Counts key m (limit cache_get cache_save cfg key s (some (suc m)))
  limit-Counts key s m e = elim (Bool-cases (ltb m cfg.max_requests)) [
    | inl y ↦
        let n : ltb cfg.max_requests (suc m) ≡ false = ground arith in
        (
          rw (y, n, saves key (suc m) cfg.window_seconds s) refl,
          rw (y, n, saves key (suc m) cfg.window_seconds s, keeps key (suc m) cfg.window_seconds s)
              refl,
        )
    | inr y ↦
        let n : ltb cfg.max_requests (suc m) ≡ true = ground arith in (rw (y, n) refl, rw (y, n) e)
  ]

  limited-Counts :
      (key : Bytes) (s : C) (g : Got)
      → cache_get key s ≡ g
      → Counts key (used (cache_get key s)) (limited key s)
  limited-Counts key s (hit m) e = rw e (limit-Counts key s m (ap used e))
  limited-Counts key s absent e = rw e (limit-Counts key s 0 (ap used e))
  limited-Counts key s get_failed e = absurd (works key s e)

  counted-other :
      (j key : Bytes) (s : C) (g : Got)
      → j ≢ key
      → cache_get key s ≡ g
      → cache_get j (limited key s).1 ≡ cache_get j s
  counted-other j key s (hit m) n e = elim (Bool-cases (ltb cfg.max_requests (suc m))) [
    | inl y ↦ rw (e, y) refl
    | inr y ↦
        rw (e, y, saves key (suc m) cfg.window_seconds s)
          (leaves j key (suc m) cfg.window_seconds s n)
  ]
  counted-other j key s absent n e = elim (Bool-cases (ltb cfg.max_requests 1)) [
    | inl y ↦ rw (e, y) refl
    | inr y ↦ rw (e, y, saves key 1 cfg.window_seconds s) (leaves j key 1 cfg.window_seconds s n)
  ]
  counted-other j key s get_failed n e = rw e refl

  rate_limit-enabled :
      (c : Requester) (s : C)
      → cfg.enable ≡ true
      → rate_limit cache_get cache_save cfg c s ≡ limited (limit_key cfg c) s
  unfolding rate_limit
  rate_limit-enabled c s e = rw e refl

  own_key :
      (c : Requester) (key : Bytes) (s : C)
      → cfg.enable ≡ true
      → limit_key cfg c ≡ key
      → Counts key (used (cache_get key s)) (rate_limit cache_get cache_save cfg c s)
  own_key c key s on e =
      rw (rate_limit-enabled c s on, e) (limited-Counts key s (cache_get key s) refl)

  other_key :
      (c : Requester) (key : Bytes) (s : C)
      → cfg.enable ≡ true
      → limit_key cfg c ≢ key
      → cache_get key (rate_limit cache_get cache_save cfg c s).1 ≡ cache_get key s
  other_key c key s on n =
      rw (rate_limit-enabled c s on) (
        counted-other key (limit_key cfg c) s (cache_get (limit_key cfg c) s) (λ e. n (sym e)) refl)

  -- Where the limit is enabled: of the requests of a client, which come in any order with those of others, the first are
  -- admitted up to the limit, less what the cache has counted of that client, and no more. What it
  -- takes of the cache: for the time of these requests it does not fail, it has what was saved last
  -- under a key, and a Save leaves the other keys.
  pub rate_limits-admitted :
      (key : Bytes) (cs : List Requester) (s : C)
      → cfg.enable ≡ true
      → admitted_of cfg key cs (rate_limits cache_get cache_save cfg cs s).0
        ≡ smaller (requests_of cfg key cs) (cfg.max_requests - used (cache_get key s))
  unfolding rate_limits requests_of admitted_of
  rate_limits-admitted key [] s on = ground arith
  rate_limits-admitted key (c ∷ cs) s on =
      let t = (rate_limit cache_get cache_save cfg c s).1 in
      let rest = rate_limits-admitted key cs t on in
      elim (Bool-cases (bytes_eq (limit_key cfg c) key)) [
        | inl y ↦
            let (a, u) = own_key c key s on ((bytes_eq_iff (limit_key cfg c) key).0 y) in
            rw y (ground (arith, a, u, rest))
        | inr n ↦
            let kept =
              other_key c key s on
                (λ e. ground (arith, bytes_eq_iff (limit_key cfg c) key, e, n)) in
            rw n
              (rest ∙ ap (λ g. smaller (requests_of cfg key cs) (cfg.max_requests - used g)) kept)
      ]
