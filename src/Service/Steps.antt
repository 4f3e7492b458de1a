-- ===== src/Service/Steps.antt =====
-- The tests and the clock leave the database as it is.
use content_platform.Prelude.{Option, none, some, ◌≡◌, refl, arith}
use content_platform.GoTime.{Time}
use content_platform.Domain.{normalize_time}
use content_platform.Errors.{Error, ok}
use content_platform.Database.{Store, Environment, Poll}
use content_platform.Service.{check_context, check_live_context, now, fail_with}

pub fail_with-state : (e : Option Error) (s : Store) → (fail_with e s).1 ≡ s
unfolding fail_with
fail_with-state none s = refl
fail_with-state (some e) s = refl

pub check_context-state :
    (env : Environment) (poll : Poll) (s : Store) → (check_context env poll s).1 ≡ s
unfolding check_context
check_context-state env poll s = ground arith

pub check_live_context-state :
    (env : Environment) (poll : Poll) (s : Store) → (check_live_context env poll s).1 ≡ s
unfolding check_live_context
check_live_context-state env poll s = ground arith

pub now-state : (env : Environment) (s : Store) → (now env s).1 ≡ s
unfolding now
now-state env s = ground arith

-- The clock's time is the whole second that it shows.
pub now-ok :
    (env : Environment) (s : Store) {t : Time} {s' : Store}
    → now env s ≡ (ok t, s')
    → (s' ≡ s) × (t ≡ normalize_time env.clock_now)
unfolding now
now-ok env s h = ground arith

pub ruleset steps =
    (arith, fail_with-state, check_context-state, check_live_context-state, now-state)
