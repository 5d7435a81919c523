-- ===== src/LoginRateLimit.antt =====
-- apps/api/src/security.ts: `registerLoginRateLimit`. The map of attempts is a list of keys and
-- windows in insertion order, and a time is a number of milliseconds.
pub mod Limit
pub mod Examples
use outbound_freeswitch_dial.Prelude.{
  ℕ, ◌+◌, ◌-◌, ◌*◌, ◌/◌, Bool, true, false, not, ◌&&◌, ◌||◌, Option, none, some, List, [], ◌∷◌,
  ◌++◌, filter, length, Text, codes, text_eq, leb, ltb, ◌==◌, if◌then◌else◌,
}

pub record AttemptWindow : Type 0 where
  pub count : ℕ
  pub reset_at : ℕ

pub record LimitConfig : Type 0 where
  pub login_rate_limit_max : ℕ
  pub login_rate_limit_window_seconds : ℕ

pub record Request : Type 0 where
  pub method : Text
  pub url : Text
  pub ip : Text

-- What the hook does to a request: nothing, the three headers, or status 429 with them.
pub data Reply : Type 0 where
  untouched : Reply
  allowed : ℕ → ℕ → Reply
  too_many : ℕ → ℕ → Reply

abbrev pub Attempts : Type 0
Attempts = List (Text × AttemptWindow)

unfoldable pub lookup : Text → Attempts → Option AttemptWindow
lookup k [] = none
lookup k ((j, w) ∷ m) = if text_eq j k then some w else lookup k m

unfoldable pub store : Text → AttemptWindow → Attempts → Attempts
store k w [] = (k, w) ∷ []
store k w ((j, v) ∷ m) = let rest = store k w m in if text_eq j k then (j, w) ∷ m else (j, v) ∷ rest

-- `split("?", 1)[0]`.
unfoldable pub before_query : Text → Text
before_query [] = []
before_query (c ∷ t) = let rest = before_query t in if c == 63 then [] else c ∷ rest

abbrev pub is_login : Request → Bool
is_login r = text_eq r.method (codes "POST") && text_eq (before_query r.url) (codes "/auth/login")

-- The window that the attempt counts in: a new one, where there is none or it is over.
abbrev pub open_window : ℕ → LimitConfig → Option AttemptWindow → AttemptWindow
open_window now cfg none = record {
  count = 0;
  reset_at = now + cfg.login_rate_limit_window_seconds * 1000;
}
open_window now cfg (some w) =
    if leb w.reset_at now
    then record { count = 0; reset_at = now + cfg.login_rate_limit_window_seconds * 1000 }
    else w

abbrev pub add_attempt : AttemptWindow → AttemptWindow
add_attempt w = record w { count = w.count + 1 }

-- `Math.ceil(n / 1000)`.
abbrev seconds : ℕ → ℕ
seconds n = (n + 999) / 1000

abbrev at_least_one : ℕ → ℕ
at_least_one n = if leb n 1 then 1 else n

unfoldable pub drop_expired : ℕ → Attempts → Attempts
drop_expired now m = filter (λ (e : Text × AttemptWindow). not (leb e.1.reset_at now)) m

-- The deletion of the windows that are over, where there are many.
unfoldable pub trim_attempts : ℕ → Attempts → Attempts
trim_attempts now m = if ltb 10000 (length m) then drop_expired now m else m

unfoldable pub count_attempt : ℕ → LimitConfig → AttemptWindow → Attempts → Attempts × Reply
unfolding trim_attempts
count_attempt now cfg w m =
    if ltb cfg.login_rate_limit_max w.count
    then (m, too_many (seconds w.reset_at) (at_least_one (seconds (w.reset_at - now))))
    else (trim_attempts now m, allowed (cfg.login_rate_limit_max - w.count) (seconds w.reset_at))

-- The hook.
unfoldable pub on_request : ℕ → LimitConfig → Request → Attempts → Attempts × Reply
unfolding lookup store before_query count_attempt
on_request now cfg r m =
    if not (is_login r)
    then (m, untouched)
    else let w = add_attempt (open_window now cfg (lookup r.ip m)) in
      count_attempt now cfg w (store r.ip w m)

abbrev pub is_allowed : Reply → Bool
is_allowed (allowed n s) = true
is_allowed _ = false

-- The login attempts of a key that a sequence of requests gets through, each with its time.
unfoldable pub count_allowed : LimitConfig → Text → List (ℕ × Request) → Attempts → ℕ
unfolding on_request
count_allowed cfg k [] m = 0
count_allowed cfg k ((now, r) ∷ rs) m =
    let rest = count_allowed cfg k rs (on_request now cfg r m).0 in
    if text_eq r.ip k && is_allowed (on_request now cfg r m).1 then rest + 1 else rest

-- The login attempts of a key.
unfoldable pub count_logins : Text → List (ℕ × Request) → ℕ
count_logins k [] = 0
count_logins k ((now, r) ∷ rs) =
    let rest = count_logins k rs in if text_eq r.ip k && is_login r then rest + 1 else rest
