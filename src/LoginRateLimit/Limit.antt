-- ===== src/LoginRateLimit/Limit.antt =====
-- The limit holds for each key, however the requests of other keys fall in between.
use outbound_freeswitch_dial.Prelude.{
  ℕ, ◌≡◌, inl, inr, sym, subst, ap, ◌∙◌, ◌+◌, ◌-◌, true, false, not, some, List, [], ◌∷◌, All,
  arith, min, Text, text_eq, text_eq_refl, text_eq_iff, leb, ltb, Bool-cases,
}
use mathlib.Core.Option.{some-injective}
use outbound_freeswitch_dial.LoginRateLimit.{
  AttemptWindow, LimitConfig, Request, Attempts, lookup, store, is_login, open_window, add_attempt,
  drop_expired, trim_attempts, count_attempt, on_request, is_allowed, count_allowed, count_logins,
}

lookup-store : (k : Text) (w : AttemptWindow) (m : Attempts) → lookup k (store k w m) ≡ some w
unfolding lookup store
lookup-store k w [] = ground (arith, text_eq_refl k)
lookup-store k w ((j, v) ∷ m) = ground (arith, lookup-store k w m)

other_key : (j k l : Text) → text_eq j k ≡ true → text_eq j l ≡ true → text_eq k l ≡ true
other_key j k l p q = (text_eq_iff k l).1 (sym ((text_eq_iff j k).0 p) ∙ (text_eq_iff j l).0 q)

lookup-store_other :
    (k l : Text) (w : AttemptWindow) (m : Attempts)
    → text_eq k l ≡ false
    → lookup l (store k w m) ≡ lookup l m
unfolding lookup store
lookup-store_other k l w [] h = ground arith
lookup-store_other k l w ((j, v) ∷ m) h =
    ground (arith, other_key j k l, lookup-store_other k l w m h)

lookup-drop_expired :
    (now : ℕ) (k : Text) (m : Attempts) {w : AttemptWindow}
    → lookup k m ≡ some w
    → leb w.reset_at now ≡ false
    → lookup k (drop_expired now m) ≡ some w
unfolding lookup drop_expired
lookup-drop_expired now k [] {w} h e = cc
lookup-drop_expired now k ((j, v) ∷ m) {w} h e = elim (Bool-cases (text_eq j k)) [
  | inl hit ↦ let same = some-injective v w (rw hit at h) in ground (arith, same)
  | inr miss ↦ (elim (Bool-cases (leb v.reset_at now)) [
    | inl over ↦ rw over (lookup-drop_expired now k m (rw miss at h) e)
    | inr fresh ↦ rw (fresh, miss) (lookup-drop_expired now k m (rw miss at h) e)
  ])
]

lookup-trim_attempts :
    (now : ℕ) (k : Text) (m : Attempts) {w : AttemptWindow}
    → lookup k m ≡ some w
    → leb w.reset_at now ≡ false
    → lookup k (trim_attempts now m) ≡ some w
unfolding trim_attempts
lookup-trim_attempts now k m {w} h e = ground (arith, lookup-drop_expired now k m {w = w} h e)

-- The window that is stored for a key is there after the answer, unless it is over.
lookup-count_attempt :
    (now : ℕ) (cfg : LimitConfig) (v : AttemptWindow) (k : Text) (m : Attempts) {w : AttemptWindow}
    → lookup k m ≡ some w
    → leb w.reset_at now ≡ false
    → (lookup k (count_attempt now cfg v m).0 ≡ some w)
      × (is_allowed (count_attempt now cfg v m).1 ≡ not (ltb cfg.login_rate_limit_max v.count))
unfolding count_attempt
lookup-count_attempt now cfg v k m {w} h e =
    (ground (arith, lookup-trim_attempts now k m {w = w} h e), ground arith)

-- An attempt of another key.
on_request-other :
    (now : ℕ) (cfg : LimitConfig) (r : Request) (k : Text) (m : Attempts) {w : AttemptWindow}
    → text_eq r.ip k ≡ false
    → lookup k m ≡ some w
    → leb w.reset_at now ≡ false
    → lookup k (on_request now cfg r m).0 ≡ some w
unfolding on_request
on_request-other now cfg r k m {w} o h e = elim (Bool-cases (is_login r)) [
  | inr other ↦ rw other h
  | inl login ↦
      let v = add_attempt (open_window now cfg (lookup r.ip m)) in
      rw login
        (lookup-count_attempt now cfg v k (store r.ip v m) {w = w}
          (lookup-store_other r.ip k v m o ∙ h) e).0
]

-- An attempt of the key itself, in its window.
on_request-own :
    (now : ℕ) (cfg : LimitConfig) (r : Request) (m : Attempts) {w : AttemptWindow}
    → is_login r ≡ true
    → lookup r.ip m ≡ some w
    → leb w.reset_at now ≡ false
    → (lookup r.ip (on_request now cfg r m).0 ≡ some (add_attempt w))
      × (is_allowed (on_request now cfg r m).1 ≡ not (ltb cfg.login_rate_limit_max (w.count + 1)))
unfolding on_request
on_request-own now cfg r m {w} login h e =
    rw (login, h, e)
      (lookup-count_attempt now cfg (add_attempt w) r.ip (store r.ip (add_attempt w) m)
        {w = add_attempt w} (lookup-store r.ip (add_attempt w) m) e)

own_key :
    (now : ℕ) (cfg : LimitConfig) (r : Request) (k : Text) (m : Attempts) {w : AttemptWindow}
    → text_eq r.ip k ≡ true
    → is_login r ≡ true
    → lookup k m ≡ some w
    → leb w.reset_at now ≡ false
    → (lookup k (on_request now cfg r m).0 ≡ some (add_attempt w))
      × (is_allowed (on_request now cfg r m).1 ≡ not (ltb cfg.login_rate_limit_max (w.count + 1)))
own_key now cfg r k m {w} same login h e =
    let p = (text_eq_iff r.ip k).0 same in
    subst
      (λ j.
        (lookup j (on_request now cfg r m).0 ≡ some (add_attempt w))
        × (is_allowed (on_request now cfg r m).1
            ≡ not (ltb cfg.login_rate_limit_max (w.count + 1))))
      p (on_request-own now cfg r m {w = w} login (subst (λ j. lookup j m ≡ some w) (sym p) h) e)

-- A request that is no login attempt.
on_request-untouched :
    (now : ℕ) (cfg : LimitConfig) (r : Request) (m : Attempts)
    → is_login r ≡ false
    → (on_request now cfg r m).0 ≡ m × (is_allowed (on_request now cfg r m).1 ≡ false)
unfolding on_request
on_request-untouched now cfg r m other = (ground arith, ground arith)

-- In the window of a key, whatever requests of other keys and other requests fall in between: of
-- the login attempts of the key as many get through as are made, up to what is left of the limit.
pub limit_is_kept :
    (cfg : LimitConfig) (k : Text) (rs : List (ℕ × Request)) (m : Attempts) (w : AttemptWindow)
    → lookup k m ≡ some w
    → All (λ (e : ℕ × Request). leb w.reset_at e.0 ≡ false) rs
    → count_allowed cfg k rs m ≡ min (count_logins k rs) (cfg.login_rate_limit_max - w.count)
unfolding count_allowed count_logins
limit_is_kept cfg k [] m w h a = ground arith
limit_is_kept cfg k ((now, r) ∷ rs) m w h a =
    let m' = (on_request now cfg r m).0 in
    elim (Bool-cases (is_login r)) [
      | inr other ↦
          let (same, passed) = on_request-untouched now cfg r m other in
          ground (arith, limit_is_kept cfg k rs m' w (ap (lookup k) same ∙ h) a.1, passed, other)
      | inl login ↦ (elim (Bool-cases (text_eq r.ip k)) [
        | inr foreign ↦ ground (
          arith,
          limit_is_kept cfg k rs m' w (on_request-other now cfg r k m {w = w} foreign h a.0) a.1,
          foreign,
        )
        | inl own ↦
            let (stored, passed) = own_key now cfg r k m {w = w} own login h a.0 in
            ground (arith, limit_is_kept cfg k rs m' (add_attempt w) stored a.1, passed, own, login)
      ])
    ]
