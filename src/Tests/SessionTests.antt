-- ===== src/Tests/SessionTests.antt =====
-- Sessions: the session theorems at concrete inputs.
use simtrader.Base.{none, some, [], ◌∷◌, returned, whole, ◌≡◌, refl, arith}
use simtrader.Json.{Json, get_prop}
use simtrader.Json
use simtrader.Session
use simtrader.Session.{
  SessionData, session_key, create_session, validate_session, destroy_session,
  destroy_all_user_sessions, session_ttl_seconds, encode_session,
}
use simtrader.Session.Lookup.{validate-create_session, validate-destroy_session}
use simtrader.Session.Tracking.{
  BelongsTo, IsTracked, IsTracked-later, create_session-IsTracked, destroy_all-ends_all,
}
use simtrader.Session.Runs
use simtrader.Session.Runs.{reached-IsTracked}
use simtrader.Tests.{memory, Memory, no_entries}

abbrev ann : SessionData
ann = record { user_id = "ann"; role = "admin"; amr = "otp" ∷ []; auth_time = whole 1000 }

abbrev bob : SessionData
bob = record { user_id = "bob"; role = "user"; amr = []; auth_time = whole 1000 }

abbrev two_sessions : Memory
two_sessions = create_session memory (create_session memory no_entries 1000 "t1" ann) 1010 "t2" bob

pub no_entries-IsTracked : IsTracked memory no_entries 1000
no_entries-IsTracked = record {
  capped = λ token stored now found. absurd (cc found);
  listed = λ token user_id stored now after found mine. absurd (cc found);
}

validate-create_session_example :
    validate_session memory {E = Unit {0}}
      (create_session memory no_entries 1000 "t1" ann)
      87399
      "t1"
    ≡ returned (some ann)
validate-create_session_example =
    validate-create_session memory no_entries 1000 87399 "t1" ann (refl, refl)

validate-destroy_session_example :
    validate_session memory {E = Unit {0}} (destroy_session memory two_sessions 1020 "t1") 1030 "t1"
    ≡ returned none
validate-destroy_session_example =
    validate-destroy_session memory two_sessions 1020 1030 "t1" "t1" (omega arith)

create_session-IsTracked_example :
    IsTracked memory (create_session memory no_entries 1000 "t1" ann) 1000
create_session-IsTracked_example =
    create_session-IsTracked memory no_entries 1000 no_entries-IsTracked "t1" ann

one_session-IsTracked : IsTracked memory (create_session memory no_entries 1000 "t1" ann) 1010
one_session-IsTracked =
    IsTracked-later memory _ 1000 1010 (omega arith) create_session-IsTracked_example

abbrev one_session : Memory
one_session = create_session memory no_entries 1000 "t1" ann

-- A sign-in, a pause, a logout, and the end of all sessions.
reached-IsTracked_example :
    IsTracked memory
      (destroy_all_user_sessions memory (destroy_session memory one_session 1010 "t1") 1010 "ann")
      1010
reached-IsTracked_example = reached-IsTracked memory _ 1010 (
    Runs.ended _ 1010 "ann" (
      Runs.logged_out _ 1010 "t1" (
        Runs.waited _ 1000 1010
          (Runs.signed_in _ 1000 "t1" ann (Runs.fresh no_entries 1000 (λ token now. refl)))
          (omega arith))))

still_there :
    memory.get (destroy_all_user_sessions memory one_session 1010 "bob") 1020 (session_key "t1")
    ≡ some (encode_session ann)
unfolding create_session destroy_all_user_sessions Session.delete_sessions Session.session_key
    Session.user_sessions_key Session.tokens_of Json.strings_of Json.of_strings
still_there = refl

destroy_all-ends_all_example : ¬ BelongsTo (encode_session ann) "bob"
destroy_all-ends_all_example =
    destroy_all-ends_all memory one_session 1010 one_session-IsTracked "bob" "t1"
      (encode_session ann) 1020 (omega arith) still_there
