-- ===== src/LoginRateLimit/Examples.antt =====
-- Login attempts at concrete times.
use outbound_freeswitch_dial.Prelude.{
  ℕ, ◌≡◌, refl, some, List, [], ◌∷◌, All, min, codes, text_eq, leb, false,
}
use outbound_freeswitch_dial.LoginRateLimit.{
  AttemptWindow, LimitConfig, Request, Attempts, lookup, count_allowed, count_logins,
}
use outbound_freeswitch_dial.LoginRateLimit.Limit.{limit_is_kept}

abbrev config : LimitConfig
config = record { login_rate_limit_max = 3; login_rate_limit_window_seconds = 60 }

abbrev login : Request
login = record { method = codes "POST"; url = codes "/auth/login"; ip = codes "10.0.0.7" }

abbrev window : AttemptWindow
window = record { count = 1; reset_at = 60000 }

abbrev attempts : Attempts
attempts = (codes "10.0.0.7", window) ∷ []

abbrev requests : List (ℕ × Request)
requests =
    (100, login)
    ∷ (200, record login { ip = codes "10.0.0.8" })
    ∷ (300, record login { url = codes "/auth/login?next=1" })
    ∷ (400, record login { method = codes "GET" })
    ∷ (500, login)
    ∷ []

known : lookup (codes "10.0.0.7") attempts ≡ some window
unfolding lookup text_eq
known = refl

in_window : All (λ (e : ℕ × Request). leb window.reset_at e.0 ≡ false) requests
in_window = (refl, (refl, (refl, (refl, (refl, tt)))))

limit_is_kept_example :
    count_allowed config (codes "10.0.0.7") requests attempts
    ≡ min (count_logins (codes "10.0.0.7") requests) 2
limit_is_kept_example =
    limit_is_kept config (codes "10.0.0.7") requests attempts window known in_window

-- Two of the three attempts get through.
allows_two : count_allowed config (codes "10.0.0.7") requests attempts ≡ 2
unfolding count_allowed text_eq
allows_two = refl
