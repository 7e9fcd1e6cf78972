-- ===== src/Tests/Services.antt =====
-- The theorems on the event stream, the watcher and the revisions.
use snowdeploy.Base.{
  ℕ, zero, suc, ◌+◌, Text, lit, ◌≡◌, ◌≤◌, length, List, [], ◌∷◌, Bool, false, none, errors_new,
  Result, ok, err,
}
use snowdeploy.Base.Int.{pos}
use snowdeploy.Journal.Defs.{Action, State}
use snowdeploy.Effect.{Event}
use snowdeploy.Api.Broker.{Broker, new_broker, subscribe, publish}
use snowdeploy.Api.Streams.{
  AllOffered, full_streams, first_warnings, publish-AllOffered, IsSound, used_all, subscribes,
  publishes, receives, unsubscribes, used_all-IsSound,
}
use snowdeploy.Registry.{new_watcher, run_polls}
use snowdeploy.Registry.Standing.{IsPolled, new_watcher-IsSound, run_polls-IsPolled}
use snowdeploy.Revision.{new_cached}
use snowdeploy.Revision.Cache.{asks, ends, used_all-bounded}

abbrev event : Event
event = record {
  service = lit "web";
  action = Action.deploy;
  state = State.checks;
  detail = [];
  journal_id = 7;
  pr_number = 0;
  pr_url = [];
  merge_url = [];
  at = 3;
}

abbrev one_stream : Broker
one_stream = (subscribe new_broker).1

publish-AllOffered_example :
    let b' = publish event one_stream in
    AllOffered event one_stream.subs b'.subs
    × (b'.dropped ≡ one_stream.dropped + full_streams one_stream.subs)
    × (b'.warnings ≡ one_stream.warnings + first_warnings one_stream.subs)
    × (b'.next ≡ one_stream.next)
publish-AllOffered_example = publish-AllOffered event one_stream

used_all-IsSound_example :
    IsSound (used_all (subscribes ∷ publishes event ∷ receives 1 ∷ unsubscribes 1 ∷ []) new_broker)
used_all-IsSound_example =
    used_all-IsSound (subscribes ∷ publishes event ∷ receives 1 ∷ unsubscribes 1 ∷ [])

abbrev never_done : ℕ → Bool
never_done n = false

abbrev second_fails : ℕ → Text → Text → Result Text
second_fails zero repo tag = ok (lit "sha256:aa")
second_fails (suc n) repo tag = err (errors_new (lit "unreachable"))

abbrev clock : ℕ → ℕ
clock n = n

abbrev web_twice : List (List Text)
web_twice = (lit "acme/web" ∷ []) ∷ (lit "acme/web" ∷ []) ∷ []

run_polls-IsPolled_example :
    IsPolled second_fails
      (new_watcher (pos 60))
      (run_polls never_done second_fails clock 0 web_twice (new_watcher (pos 60)))
run_polls-IsPolled_example =
    run_polls-IsPolled never_done second_fails clock 0 web_twice (new_watcher (pos 60))
      (new_watcher-IsSound (pos 60))

used_all-bounded_example :
    length
      (snowdeploy.Revision.Cache.used_all
        (asks (lit "web@aa") 5 ∷ ends (lit "web@aa") none 6 ∷ [])
        new_cached).entries
    ≤ 512
used_all-bounded_example =
    used_all-bounded (asks (lit "web@aa") 5 ∷ ends (lit "web@aa") none 6 ∷ [])
